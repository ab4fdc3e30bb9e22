-- ===== src/Fs.antt =====
-- src/fs/fsmap.c: the block map of a file. The block cache and the block bitmap are the interface
-- Blocks; an array of zone numbers is a buffer and the place of its first number there.
pub mod Paths
mod Tests
use txos.Base.{
  ℕ, zero, suc, ◌+◌, ◌-◌, ◌*◌, ◌/◌, ◌%◌, ◌^◌, Bool, true, false, not, ◌&&◌, List, [], ◌∷◌, Option,
  none, some, Outcome, ok, halt, ◌>>=◌, ◌>>◌, assert, from_option, get_elem?, set, ◌==◌, ltb, leb,
  if◌then◌else◌,
}
use txos.Stdlib.{word}

abbrev pub direct_blocks : ℕ
direct_blocks = 7

-- `BLOCK_INDEXES`
abbrev pub indirect1_blocks : ℕ
indirect1_blocks = 512

abbrev pub indirect2_blocks : ℕ
indirect2_blocks = indirect1_blocks * indirect1_blocks

abbrev pub total_blocks : ℕ
total_blocks = direct_blocks + indirect1_blocks + indirect2_blocks

-- What the file system asks of buffer.c and of `balloc`: `load` and `store` are an access to the 16-bit number at a
-- place of a buffer, and `mark` sets its dirty bit.
pub record Blocks (S : Type 0) : Type 0 where
  pub load : S → (buf at : ℕ) → ℕ
  pub store : S → (buf at value : ℕ) → S
  pub mark : S → (buf : ℕ) → S
  pub bread : S → (dev_id block : ℕ) → Outcome (ℕ × S)
  pub bwrite : S → (buf : ℕ) → Outcome S
  pub brelse : S → (buf : ℕ) → Outcome S
  pub balloc : S → (dev_id : ℕ) → Outcome (ℕ × S)

-- where an inode has its zone numbers
pub record InodeZones : Type 0 where
  pub dev_id : ℕ
  pub buf : ℕ
  pub zone : ℕ

module _ {S : Type 0} (b : Blocks S) where
  -- the block number at `at`, created if it is missing and wanted, with `buf` written
  unfoldable pub settle : S → (dev_id buf at : ℕ) → (create : Bool) → Outcome (ℕ × S)
  settle s dev_id buf at create =
      let created = (do
        (block, s) ← b.balloc s dev_id
        let s = b.mark (b.store s buf at (block % 2 ^ 16)) buf
        s ← b.bwrite s buf
        ok (b.load s buf at, s)) in
      let kept = (do s ← b.bwrite s buf; ok (b.load s buf at, s)) in
      if b.load s buf at == 0 && create then created else kept

  -- the loop of `bmap` and what follows it, with `level` indirections left
  unfoldable pub descend :
      (level : ℕ) → S → (dev_id buf array index nr : ℕ) → (create : Bool) → Outcome (ℕ × S)
  descend zero s dev_id buf array index nr create = settle s dev_id buf (array + index) create
  descend (suc level) s dev_id buf array index nr create = do
    (block, s) ← settle s dev_id buf (array + index) create
    let unit = elim level as (λ x. ℕ) [ zero ↦ 1 | suc _ ↦ indirect1_blocks ]
    let deeper = (do
      (buf', s) ← b.bread s dev_id block
      descend level s dev_id buf' 0 (nr / unit) (nr % unit) create)
    if block == 0 then settle s dev_id buf (array + index) create else deeper

  unfoldable pub bmap : S → InodeZones → (nr : ℕ) → (create : Bool) → Outcome (ℕ × S)
  bmap s inode nr create =
      let start =
        λ (level index nr : ℕ). descend level s inode.dev_id inode.buf inode.zone index nr create in
      let direct = start 0 nr nr in
      let once = start 1 direct_blocks (nr - direct_blocks) in
      let twice = start 2 (direct_blocks + 1) (nr - direct_blocks - indirect1_blocks) in
      let located =
        if ltb nr direct_blocks
        then direct
        else if ltb (nr - direct_blocks) indirect1_blocks
        then once
        else if ltb (nr - direct_blocks - indirect1_blocks) indirect2_blocks
        then twice
        else halt in
      assert (ltb nr total_blocks) >> located
