-- ===== src/Buffer/Tests.antt =====
-- Block 5 of device 1 read into an empty cache, changed, and released.
use txos.Base.{
  ℕ, ◌+◌, ◌<◌, ◌≡◌, refl, true, false, ◌&&◌, [], ◌∷◌, ok, arith, ◌==◌, update, if◌then◌else◌,
  Outcome, halt, none,
}
use txos.Stdlib.{word}
use txos.Buffer.{
  getblk, Cache, Storage, Request, RequestType, req_read, req_write, buffer_init, hash, find_block,
  kernel_buffer_base,
}
use txos.Buffer.Valid.{IsValid, hashed, buffer_init-IsValid}
use txos.Buffer.Find.{lookup}
use txos.Buffer.Evict.{has_room, grown, grown-Freed}
use txos.Buffer.Get.{getblk_lem, Got, assigned, fresh-Got}
use txos.Buffer.Read.{
  IsServed, IsCoherent, synced, fetched, synced-IsValid, fetched-IsCoherent, held, Got-IsCoherent,
}

abbrev transfer : RequestType → Request → Storage → Storage
transfer req_read r s = record s { memory = update s.memory r.buf (s.disk r.dev_id r.idx) }
transfer req_write r s = record s {
  disk = λ dev_id idx.
      if dev_id == r.dev_id && idx == r.idx then s.memory r.buf else s.disk dev_id idx;
}

-- device 1, while no other task runs
abbrev dev_request : Request → Cache → Storage → Outcome (Cache × Storage)
dev_request r c s = if r.dev_id == 1 then ok (c, transfer r.type r s) else halt

dev_request-IsServed : IsServed dev_request (λ d. d == 1)
dev_request-IsServed = record {
  read = λ b c s listed. rw listed refl;
  write = λ b c s listed. rw listed refl;
}

abbrev empty : Cache
empty =
    buffer_init
      (λ p. record { data_at = 0; dev_id = 0; block = 0; count = 0; dirty = false; valid = false })

empty-IsValid : IsValid empty
empty-IsValid = buffer_init-IsValid _

abbrev storage : Storage
storage = record { memory = λ p. []; disk = λ dev_id idx. dev_id ∷ idx ∷ [] }

empty-IsCoherent : IsCoherent empty storage
unfolding buffer_init
empty-IsCoherent = record { small = λ p h. cc; same = λ p h valid clean. cc }

empty-has_room : has_room empty ≡ true
unfolding has_room buffer_init
empty-has_room = refl

counts : (p : ℕ) → (empty.buffers p).count + 1 < word
unfolding buffer_init
counts p = omega arith

missing : lookup empty 1 5 ≡ none
unfolding buffer_init find_block
missing = refl

abbrev bf : ℕ
bf = kernel_buffer_base

-- the cache with the block
abbrev got : Cache
got = assigned (grown empty) bf 1 5

got-Got : Got empty 1 5 bf got
unfolding buffer_init
got-Got =
    fresh-Got empty-IsValid 1 5 bf (grown empty) (grown-Freed empty-IsValid empty-has_room) missing

abbrev read : Cache
read = synced got bf

abbrev filled : Storage
filled = fetched storage (got.buffers bf)

read-IsValid : IsValid read
read-IsValid = synced-IsValid got-Got.valid bf

read-IsCoherent : IsCoherent read filled
read-IsCoherent =
    fetched-IsCoherent got-Got.valid
      (Got-IsCoherent empty-IsValid empty-IsCoherent 1 5 bf got-Got (omega arith)) bf
      (held empty-IsValid empty-IsCoherent 1 5 (omega arith) bf got-Got)

read-hashed : hashed read bf ≡ true
unfolding hash buffer_init
read-hashed = refl

getblk_lem_example :
    (bf : ℕ) × (c' : Cache) × (getblk 1 7 (λ c. c) empty 1 5 ≡ ok (bf, c')) × Got empty 1 5 bf c'
getblk_lem_example = getblk_lem empty-IsValid 1 5 0 7 (λ c. c) counts (rw empty-has_room refl)
