-- ===== src/Buffer.antt =====
-- src/kernel/buffer.c: the cache of disk blocks. Its lists are the sequences of NodeList.Sequence, named
-- by the buffers that they link: `hnode` in the lists of the hash table, `rnode` in the free list.
-- The lock of a buffer is only initialised, and is left out.
pub mod Valid
pub mod Find
pub mod Evict
pub mod Get
pub mod Read
pub mod Release
mod Tests
use Prim.Native.Nat.{bit_xor}
use txos.Base.{
  ℕ, zero, suc, ◌+◌, ◌-◌, ◌*◌, ◌%◌, Bool, true, false, not, ◌&&◌, List, [], ◌∷◌, ◌++◌, Option, none,
  some, Outcome, ok, halt, out_of_fuel, ◌>>=◌, ◌>>◌, assert, elem, ◌==◌, ltb, if◌then◌else◌, update,
  null,
}
use txos.Stdlib.{word}
use txos.NodeList.Walk.{is_nil}
use txos.NodeList.Sequence.{push_front, push_back, pop_front, pop_back, without}

abbrev pub hash_count : ℕ
hash_count = 31

abbrev pub block_secs : ℕ
block_secs = 2

abbrev pub block_size : ℕ
block_size = 1024

abbrev pub kernel_buffer_base : ℕ
kernel_buffer_base = 0x800000

abbrev pub kernel_buffer_size : ℕ
kernel_buffer_size = 0x400000

abbrev pub sizeof_buffer : ℕ
sizeof_buffer = 64

-- `buffer_t`
pub record Buffer : Type 0 where
  pub data_at : ℕ
  pub dev_id : ℕ
  pub block : ℕ
  pub count : ℕ
  pub dirty : Bool
  pub valid : Bool

-- the variables of buffer.c, the buffers by address, and the tasks that `brelse` has unblocked
pub record Cache : Type 0 where
  pub buffer_ptr : ℕ
  pub buffer_data : ℕ
  pub hash_table : ℕ → List ℕ
  pub free_list : List ℕ
  pub wait_list : List ℕ
  pub buffers : ℕ → Buffer
  pub unblocked : List ℕ

unfoldable pub buffer_init : (ℕ → Buffer) → Cache
buffer_init buffers = record {
  buffer_ptr = kernel_buffer_base;
  buffer_data = kernel_buffer_base + kernel_buffer_size - block_size;
  hash_table = λ i. [];
  free_list = [];
  wait_list = [];
  buffers = buffers;
  unblocked = [];
}

unfoldable pub hash : (dev_id block : ℕ) → ℕ
hash dev_id block = bit_xor dev_id block % hash_count

-- `hash(bf->dev_id, bf->block)`
abbrev pub slot : Cache → (bf : ℕ) → ℕ
slot c bf = hash (c.buffers bf).dev_id (c.buffers bf).block

unfoldable pub hash_insert : Cache → (bf : ℕ) → Outcome Cache
hash_insert c bf = do
  assert (not (elem bf (c.hash_table (slot c bf))))
  list ← push_front (c.hash_table (slot c bf)) bf
  ok (record c { hash_table = update c.hash_table (slot c bf) list })

unfoldable pub hash_remove : Cache → (bf : ℕ) → Outcome Cache
hash_remove c bf = do
  assert (elem bf (c.hash_table (slot c bf)))
  let list = without (c.hash_table (slot c bf)) bf
  ok (record c { hash_table = update c.hash_table (slot c bf) list })

-- the loop of `get_from_hash_table`
unfoldable pub find_block : (ℕ → Buffer) → (dev_id block : ℕ) → List ℕ → Option ℕ
find_block buffers dev_id block [] = none
find_block buffers dev_id block (ptr ∷ list) =
    let more = find_block buffers dev_id block list in
    if (buffers ptr).dev_id == dev_id && (buffers ptr).block == block then some ptr else more

unfoldable pub get_from_hash_table : Cache → (dev_id block : ℕ) → Option ℕ × Cache
get_from_hash_table c dev_id block =
    elim (find_block c.buffers dev_id block (c.hash_table (hash dev_id block))) [
      | none ↦ (none, c)
      | some bf ↦ (
        some bf,
        if elem bf c.free_list then record c { free_list = without c.free_list bf } else c,
      )
    ]

-- NULL leaves the cache as it is.
unfoldable pub get_new_buffer : Cache → Option (ℕ × Cache)
get_new_buffer c =
    if ltb (c.buffer_ptr + sizeof_buffer) c.buffer_data
    then some (
      c.buffer_ptr,
      record c {
        buffers = update c.buffers c.buffer_ptr (record {
          data_at = c.buffer_data;
          dev_id = word - 1;
          block = 0;
          count = 0;
          dirty = false;
          valid = false;
        });
        buffer_ptr = c.buffer_ptr + sizeof_buffer;
        buffer_data = c.buffer_data - block_size;
      },
    )
    else none

-- `others` is what the other tasks do to the cache from the call of `task_block` until `current`, the
-- caller, runs again; each round of the loop but the last waits once.
unfoldable pub get_free_buffer :
    (rounds current : ℕ) (others : Cache → Cache) → Cache → Outcome (ℕ × Cache)
get_free_buffer zero current others c = out_of_fuel
get_free_buffer (suc rounds) current others c =
    let recycled = (do
      (bf, list) ← pop_back c.free_list
      c ← hash_remove (record c { free_list = list }) bf
      ok (
        bf,
        record c { buffers = update c.buffers bf (record (c.buffers bf) { valid = false }) },
      )) in
    let waited = (do
      list ← push_back c.wait_list current
      get_free_buffer rounds current others (others (record c { wait_list = list }))) in
    elim (get_new_buffer c) [
      | some (bf, c') ↦ ok (bf, c')
      | none ↦ if not (is_nil c.free_list) then recycled else waited
    ]

-- `getblk` after the search in the hash table
unfoldable pub take_found :
    (rounds current : ℕ) (others : Cache → Cache) (dev_id block : ℕ)
    → Option ℕ × Cache
    → Outcome (ℕ × Cache)
take_found rounds current others dev_id block (some bf, c) =
    let b = c.buffers bf in
    ok (bf, record c { buffers = update c.buffers bf (record b { count = (b.count + 1) % word }) })
take_found rounds current others dev_id block (none, c) = do
  (bf, c) ← get_free_buffer rounds current others c
  assert ((c.buffers bf).count == 0)
  assert (not (c.buffers bf).dirty)
  let b = record (c.buffers bf) { dev_id = dev_id; block = block; count = 1 }
  c ← hash_insert (record c { buffers = update c.buffers bf b }) bf
  ok (bf, c)

unfoldable pub getblk :
    (rounds current : ℕ) (others : Cache → Cache) → Cache → (dev_id block : ℕ) → Outcome (ℕ × Cache)
getblk rounds current others c dev_id block =
    take_found rounds current others dev_id block (get_from_hash_table c dev_id block)

pub data RequestType : Type 0 where
  req_read : RequestType
  req_write : RequestType

-- the arguments of `dev_request`
pub record Request : Type 0 where
  pub dev_id : ℕ
  pub buf : ℕ
  pub count : ℕ
  pub idx : ℕ
  pub type : RequestType

-- The blocks at the data addresses, and those on each device by their first sector.
pub record Storage : Type 0 where
  pub memory : ℕ → List ℕ
  pub disk : (dev_id idx : ℕ) → List ℕ

-- `bf->dev_id, bf->data, BLOCK_SECS, bf->block * BLOCK_SECS`
abbrev pub block_request : Buffer → RequestType → Request
block_request b type = record {
  dev_id = b.dev_id;
  buf = b.data_at;
  count = block_secs;
  idx = b.block * block_secs % word;
  type = type;
}

-- `dev_request` sleeps until the driver that is installed for the device is done: it gives the cache as
-- the caller finds it when it runs again, with all that other tasks have done to it meanwhile.
module _ (dev_request : Request → Cache → Storage → Outcome (Cache × Storage)) where
  unfoldable pub bread :
      (rounds current : ℕ) (others : Cache → Cache)
      → Cache
      → Storage
      → (dev_id block : ℕ) → Outcome (ℕ × Cache × Storage)
  bread rounds current others c s dev_id block = do
    (bf, c) ← getblk rounds current others c dev_id block
    let b = c.buffers bf
    let fetched = (do
      (c, s) ← dev_request (block_request b req_read) c s
      let b' = record (c.buffers bf) { dirty = false; valid = true }
      ok (bf, record c { buffers = update c.buffers bf b' }, s))
    if b.valid then ok (bf, c, s) else fetched

  unfoldable pub bwrite : Cache → Storage → (bf : ℕ) → Outcome (Cache × Storage)
  bwrite c s bf =
      let written = (do
        (c, s) ← dev_request (block_request (c.buffers bf) req_write) c s
        let b' = record (c.buffers bf) { dirty = false; valid = true }
        ok (record c { buffers = update c.buffers bf b' }, s)) in
      if (c.buffers bf).dirty then written else ok (c, s)

  -- `assert(bf->count >= 0)` is about an unsigned number.
  unfoldable pub brelse : Cache → Storage → (bf : ℕ) → Outcome (Cache × Storage)
  brelse c s bf =
      let b = c.buffers bf in
      let count = (b.count + word - 1) % word in
      let c' = record c { buffers = update c.buffers bf (record b { count = count }) } in
      let freed = (do
        list ← push_front c'.free_list bf
        (c, s) ← bwrite (record c' { free_list = list }) s bf
        let woken = (do
          (task, waiting) ← pop_front c.wait_list
          ok (record c { wait_list = waiting; unblocked = c.unblocked ++ task ∷ [] }, s))
        if is_nil c.wait_list then ok (c, s) else woken) in
      let present = if ltb 0 count then ok (c', s) else freed in
      if bf == null then ok (c, s) else present
