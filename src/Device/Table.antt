-- ===== src/Device/Table.antt =====
-- The table of devices: installing one and finding one.
use txos.Base.{
  ℕ, zero, suc, ◌+◌, ◌-◌, ◌<◌, ◌≡◌, ◌≢◌, refl, ap, ◌∙◌, arith, Bool, true, false, ◌||◌, List, [],
  ◌∷◌, some, ok, ◌==◌, if◌then◌else◌, length, get_elem?, set, Bool-cases, inl, inr, ltb,
}
use txos.Stdlib.{word}
use txos.Device.{
  Device, DevType, is_null, get_null_dev, dev_install, find_from, dev_find, dev_get, dev_nr,
}

-- the numbers of the devices of a kind, from number `i` on
abbrev pub of_kind : List Device → (subtype i : ℕ) → List ℕ
of_kind [] subtype i = []
of_kind (d ∷ devices) subtype i =
    let rest = of_kind devices subtype (i + 1) in if d.subtype == subtype then i ∷ rest else rest

find_from-of_kind :
    (devices : List Device) (subtype count i left : ℕ)
    → find_from devices subtype (count + left) i count ≡ get_elem? (of_kind devices subtype i) left
unfolding find_from
find_from-of_kind [] subtype count i left = refl
find_from-of_kind (d ∷ devices) subtype count i zero = elim (Bool-cases (d.subtype == subtype)) [
  | inr other ↦ rw other (find_from-of_kind devices subtype count (i + 1) zero)
  | inl same ↦ let here : (count == count + zero) ≡ true = ground arith in rw (same, here) refl
]
find_from-of_kind (d ∷ devices) subtype count i (suc left) =
    elim (Bool-cases (d.subtype == subtype)) [
      | inr other ↦ rw other (find_from-of_kind devices subtype count (i + 1) (suc left))
      | inl same ↦
          let more : (count == count + suc left) ≡ false = ground arith in
          let next : count + suc left ≡ count + 1 + left = omega arith in
          rw (same, more, next) (find_from-of_kind devices subtype (count + 1) (i + 1) left)
    ]

-- `dev_find` gives the `idx`-th of the devices of a kind in the order of the table, empty devices whose
-- subtype is left at that value among them, and NULL if there are no more than `idx`.
pub dev_find-of_kind :
    (devices : List Device) (subtype idx : ℕ)
    → dev_find devices subtype idx ≡ get_elem? (of_kind devices subtype 0) idx
unfolding dev_find
dev_find-of_kind devices subtype idx =
    let from_zero : idx ≡ 0 + idx = omega arith in
    ap (λ n. find_from devices subtype n 0 0) from_zero ∙ find_from-of_kind devices subtype 0 0 idx

-- an empty device is left
abbrev pub has_room : List Device → Bool
has_room [] = false
has_room (d ∷ devices) = is_null d.type || has_room devices

-- the search, with the device that it finds `k` places on
get_null_dev-found :
    (devices : List Device) (i : ℕ)
    → has_room devices ≡ true
    → (k : ℕ) × (d : Device) × (get_null_dev devices i ≡ ok (i + k))
      × (get_elem? devices k ≡ some d)
      × (is_null d.type ≡ true)
      × (k < length devices)
unfolding get_null_dev
get_null_dev-found [] i room = cc
get_null_dev-found (d ∷ devices) i room = elim (Bool-cases (is_null d.type)) [
  | inl empty ↦
      let here : i ≡ i + 0 = omega arith in (0, d, rw empty (ap ok here), refl, empty, omega arith)
  | inr taken ↦
      let (k, e, found, there, empty, small) = get_null_dev-found devices (i + 1) (ground arith) in
      let next : i + 1 + k ≡ i + suc k = omega arith in
      (suc k, e, rw taken (found ∙ ap ok next), there, empty, omega arith)
]

set-found :
    (xs : List Device) (i : ℕ) {d : Device} (v : Device)
    → get_elem? xs i ≡ some d
    → get_elem? (set xs i v) i ≡ some v
set-found [] i v e = cc
set-found (x ∷ xs) zero v e = refl
set-found (x ∷ xs) (suc i) v e = set-found xs i v e

set-kept :
    (xs : List Device) (i j : ℕ) (v : Device) → i ≢ j → get_elem? (set xs i v) j ≡ get_elem? xs j
set-kept [] i j v ne = refl
set-kept (x ∷ xs) zero zero v ne = absurd (ne refl)
set-kept (x ∷ xs) zero (suc j) v ne = refl
set-kept (x ∷ xs) (suc i) zero v ne = refl
set-kept (x ∷ xs) (suc i) (suc j) v ne = set-kept xs i j v (λ e. ne (ap suc e))

-- In a table of 64 with an empty device `dev_install` takes the place of one that was empty, gives its
-- number, and keeps all other devices; `dev_get` of the place finds the new device, whose parent is -1
-- whatever parent was asked for.
dev_install_lem :
    (devices : List Device) (type : DevType) (subtype dev parent ioctl read write : ℕ)
    → length devices ≡ dev_nr
    → has_room devices ≡ true
    → is_null type ≡ false
    → (i : ℕ) × (old : Device) × (devices' : List Device) × (dev_install devices type subtype dev
          parent ioctl read write
        ≡ ok (old.dev_id, devices'))
      × (get_elem? devices i ≡ some old)
      × (is_null old.type ≡ true)
      × (dev_get devices' i
          ≡ ok (record old {
            type = type;
            subtype = subtype;
            parent = word - 1;
            dev = dev;
            ioctl = ioctl;
            read = read;
            write = write;
          }))
      × ((j : ℕ) → i ≢ j → get_elem? devices' j ≡ get_elem? devices j)
unfolding dev_install dev_get
dev_install_lem devices type subtype dev parent ioctl read write size room real =
    let (i, old, found, there, empty, small) = get_null_dev-found devices 0 room in
    let place : 0 + i ≡ i = omega arith in
    let new : Device = record old {
      type = type;
      subtype = subtype;
      parent = word - 1;
      dev = dev;
      ioctl = ioctl;
      read = read;
      write = write;
    } in
    let low : ltb i dev_nr ≡ true = ground arith in
    (
      i,
      old,
      set devices i new,
      rw (found, place, there) refl,
      there,
      empty,
      rw (low, set-found devices i new there, real) refl,
      λ j ne. set-kept devices i j new ne,
    )
