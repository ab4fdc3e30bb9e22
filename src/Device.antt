-- ===== src/Device.antt =====
-- src/kernel/device.c: the table of devices, and the order in which the requests of a disk are served.
-- Names are left out; the routines of the drivers are addresses, and `invoke` is the call of one.
pub mod Table
pub mod Elevator
pub mod Sweep
mod Tests
use txos.Base.{
  ℕ, zero, suc, ◌+◌, ◌-◌, ◌%◌, Bool, true, false, not, ◌&&◌, List, [], ◌∷◌, Option, none, some,
  Outcome, ok, halt, out_of_fuel, ◌>>=◌, ◌>>◌, assert, from_option, get_elem?, set, length, ◌==◌,
  ltb, leb, if◌then◌else◌, null,
}
use txos.Stdlib.{word}
use txos.NodeList.{
  Links, list_istail, list_ishead, list_singular, list_remove, load_next, load_prev,
}

abbrev pub dev_nr : ℕ
dev_nr = 64

pub data DevType : Type 0 where
  dev_null : DevType
  dev_char : DevType
  dev_block : DevType

pub data Direction : Type 0 where
  direct_in : Direction
  direct_out : Direction

-- `dev_t`
pub record Device : Type 0 where
  pub type : DevType
  pub subtype : ℕ
  pub dev_id : ℕ
  pub parent : ℕ
  pub dev : ℕ
  pub request_list : ℕ
  pub direction : Direction
  pub ioctl : ℕ
  pub read : ℕ
  pub write : ℕ

abbrev pub is_null : DevType → Bool
is_null dev_null = true
is_null _ = false

-- The index of the first empty device from `i` on.
unfoldable pub get_null_dev : List Device → (i : ℕ) → Outcome ℕ
get_null_dev [] i = halt
get_null_dev (d ∷ devices) i =
    let more = get_null_dev devices (i + 1) in if is_null d.type then ok i else more

-- The number of the device and the table; `parent` is not used.
unfoldable pub dev_install :
    List Device → DevType → (subtype dev parent ioctl read write : ℕ) → Outcome (ℕ × List Device)
dev_install devices type subtype dev parent ioctl read write = do
  i ← get_null_dev devices 0
  vdev ← from_option (get_elem? devices i)
  ok (
    vdev.dev_id,
    set devices i (record vdev {
      type = type;
      subtype = subtype;
      parent = word - 1;
      dev = dev;
      ioctl = ioctl;
      read = read;
      write = write;
    }),
  )

-- The loop of `dev_find` at device `i`, `count` devices of the kind having gone by.
unfoldable pub find_from : List Device → (subtype idx i count : ℕ) → Option ℕ
find_from [] subtype idx i count = none
find_from (d ∷ devices) subtype idx i count =
    let skip = find_from devices subtype idx (i + 1) count in
    let more = find_from devices subtype idx (i + 1) (count + 1) in
    if not (d.subtype == subtype) then skip else if count == idx then some i else more

unfoldable pub dev_find : List Device → (subtype idx : ℕ) → Option ℕ
dev_find devices subtype idx = find_from devices subtype idx 0 0

unfoldable pub dev_get : List Device → (dev_id : ℕ) → Outcome Device
dev_get devices dev_id = do
  assert (ltb dev_id dev_nr)
  d ← from_option (get_elem? devices dev_id)
  assert (not (is_null d.type))
  ok d

-- `dev_ioctl`, `dev_read` and `dev_write`: the routine is called on the driver's data; EOF if there is none.
module _ (invoke : (routine dev : ℕ) → Outcome ℕ) (irq : Bool) (devices : List Device)
    (dev_id : ℕ) where
  abbrev pub call_driver : (Device → ℕ) → Outcome ℕ
  call_driver routine = do
    assert (not irq)
    d ← dev_get devices dev_id
    let called = invoke (routine d) d.dev
    if routine d == null then ok (word - 1) else called

  unfoldable pub dev_ioctl : Outcome ℕ
  dev_ioctl = call_driver (λ d. d.ioctl)

  unfoldable pub dev_read : Outcome ℕ
  dev_read = call_driver (λ d. d.read)

  unfoldable pub dev_write : Outcome ℕ
  dev_write = call_driver (λ d. d.write)

-- The turn at the end of the list.
abbrev pub turned : Direction → (last first : Bool) → Direction
turned direct_out last first = if last then direct_in else direct_out
turned direct_in last first = if first then direct_out else direct_in

abbrev pub neighbour : Direction → (after before : ℕ) → ℕ
neighbour direct_out after before = after
neighbour direct_in after before = before

-- The node of the request after that of `node`, if there is one, and the direction.
unfoldable pub next_request :
    Links → (list : ℕ) → Direction → (node : ℕ) → Outcome (Option ℕ × Direction)
next_request s list direction node = do
  last ← list_istail s list node
  first ← list_ishead s list node
  let direction' = turned direction last first
  after ← load_next s node
  before ← load_prev s node
  alone ← list_singular s list
  ok (if alone then none else some (neighbour direction' after before), direction')

-- What the end of `dev_request` does to the queue: the next request is chosen and this one leaves.
unfoldable pub finish_request :
    Links → (list : ℕ) → Direction → (node : ℕ) → Outcome (Links × Option ℕ × Direction)
finish_request s list direction node = do
  (next, direction') ← next_request s list direction node
  s ← list_remove s node
  ok (s, next, direction')

-- The requests of a list served one after another from `node` on, each handed the disk by the one before;
-- none comes in meanwhile. The nodes in the order of their turns, and what is left of the list.
unfoldable pub serve :
    (fuel : ℕ) → Links → (list : ℕ) → Direction → (node : ℕ) → Outcome (List ℕ × Links)
serve zero s list way node = out_of_fuel
serve (suc fuel) s list way node = do
  (s, next, way) ← finish_request s list way node
  elim next [
    | none ↦ ok (node ∷ [], s)
    | some next ↦ (do (nodes, s) ← serve fuel s list way next; ok (node ∷ nodes, s))
  ]
