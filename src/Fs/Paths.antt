-- ===== src/Fs/Paths.antt =====
-- `bmap`: the loop over the levels is a walk along the path of an index in the tree of a file's blocks.
use txos.Base.{
  ℕ, ◌+◌, ◌-◌, ◌*◌, ◌/◌, ◌%◌, ◌<◌, ◌≡◌, refl, Bool, List, [], ◌∷◌, Outcome, halt, ◌>>=◌, arith,
  ◌==◌, ltb, if◌then◌else◌, Bool-cases, inl, inr,
}
use txos.Fs.{Blocks, settle, direct_blocks, indirect1_blocks, total_blocks}

-- The places of a block: that in the inode, then those in the index blocks on the way.
abbrev pub path : (nr : ℕ) → List ℕ
path nr =
    let once = nr - direct_blocks in
    let twice = once - indirect1_blocks in
    if ltb nr direct_blocks
    then nr ∷ []
    else if ltb once indirect1_blocks
    then direct_blocks ∷ once ∷ []
    else (direct_blocks + 1) ∷ (twice / indirect1_blocks) ∷ (twice % indirect1_blocks) ∷ []

-- the index of the block at the end of a path
abbrev pub index_of : List ℕ → ℕ
index_of [] = 0
index_of (i ∷ []) = i
index_of (i ∷ j ∷ []) = direct_blocks + j
index_of (i ∷ j ∷ k ∷ rest) = direct_blocks + indirect1_blocks + j * indirect1_blocks + k

-- The first place is one of the inode's nine, the others lie in an index block.
abbrev pub InIndexBlocks : List ℕ → Type 0
InIndexBlocks [] = Unit
InIndexBlocks (i ∷ path) = (i < indirect1_blocks) × InIndexBlocks path

abbrev pub InTree : List ℕ → Type 0
InTree [] = ⊥
InTree (i ∷ path) = (i < direct_blocks + 2) × InIndexBlocks path

pub index_of-path : (nr : ℕ) → nr < total_blocks → (index_of (path nr) ≡ nr) × InTree (path nr)
index_of-path nr small = elim (Bool-cases (ltb nr direct_blocks)) [
  | inl direct ↦ rw direct (refl, (ground arith, tt))
  | inr far ↦ elim (Bool-cases (ltb (nr - direct_blocks) indirect1_blocks)) [
    | inl once ↦ rw (far, once) (ground arith, (omega arith, (ground arith, tt)))
    | inr further ↦
        rw (far, further) (ground arith, (omega arith, (ground arith, (omega arith, tt))))
  ]
]

module _ {S : Type 0} (b : Blocks S) (dev_id : ℕ) (create : Bool) where
  -- The walk: at each place a missing block is created if that is wanted. Where none is, the walk ends (and
  -- the place is looked at once more); else the next place is in the block read there.
  unfoldable pub walk : S → (buf array : ℕ) → List ℕ → Outcome (ℕ × S)
  walk s buf array [] = halt
  walk s buf array (i ∷ []) = settle b s dev_id buf (array + i) create
  walk s buf array (i ∷ j ∷ path) = do
    (block, s) ← settle b s dev_id buf (array + i) create
    let deeper = (do (buf', s) ← b.bread s dev_id block; walk s buf' 0 (j ∷ path))
    if block == 0 then settle b s dev_id buf (array + i) create else deeper
