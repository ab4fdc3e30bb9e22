-- ===== src/Arena/Release.antt =====
-- The end of an arena: when as many of its blocks are free as it has, all of them are in the free list.
use txos.Base.{
  ℕ, zero, suc, ◌+◌, ◌*◌, ◌<◌, ◌≤◌, ◌≡◌, ◌≢◌, true, false, List, [], ◌∷◌, arith, elem, distinct,
  ◌==◌, if◌then◌else◌, Bool-cases, inl, inr, ==_iff, ==_refl,
}
use txos.Arena.{get_arena_from_block, sizeof_arena}
use txos.Arena.Blocks.{free_in, block_order}

-- the address of a block
abbrev pub block_at : (arena size k : ℕ) → ℕ
block_at arena size k = arena + sizeof_arena + k * size

module _ (arena size : ℕ) (pos : 0 < size) where
  -- how many of the first `n` blocks are in a list
  unfoldable hits : (n : ℕ) → List ℕ → ℕ
  hits zero list = 0
  hits (suc n) list =
      let rest = hits n list in if elem (block_at arena size n) list then suc rest else rest

  hits-most : (n : ℕ) (list : List ℕ) → hits n list ≤ n
  unfolding hits
  hits-most zero list = omega arith
  hits-most (suc n) list = ground (arith, hits-most n list)

  hits-all :
      (n : ℕ) (list : List ℕ)
      → n ≤ hits n list
      → (k : ℕ) → k < n
      → elem (block_at arena size k) list ≡ true
  unfolding hits
  hits-all zero list all k less = absurd (omega arith)
  hits-all (suc n) list all k less = elim (Bool-cases (elem (block_at arena size n) list)) [
    | inl here ↦
        let more : n ≤ hits n list = ground arith in
        elim (Bool-cases (n == k)) [
          | inl same ↦ rw (← (==_iff n k).0 same) here
          | inr other ↦ hits-all n list more k (ground arith)
        ]
    | inr out ↦ let most = hits-most n list in absurd (ground arith)
  ]

  pub block_at-injective : (j k : ℕ) → j < k → block_at arena size j ≢ block_at arena size k
  block_at-injective j k less e = let up = block_order size j k pos less in omega arith

  hits-keep : (n q : ℕ) (list : List ℕ) → hits n list ≤ hits n (q ∷ list)
  unfolding hits
  hits-keep zero q list = omega arith
  hits-keep (suc n) q list = ground (arith, hits-keep n q list)

  hits-new :
      (n k : ℕ) (list : List ℕ)
      → k < n
      → elem (block_at arena size k) list ≡ false
      → suc (hits n list) ≤ hits n (block_at arena size k ∷ list)
  unfolding hits
  hits-new zero k list less new = absurd (omega arith)
  hits-new (suc n) k list less new = elim (Bool-cases (n == k)) [
    | inl same ↦
        let e : n ≡ k = (==_iff n k).0 same in
        let keep = hits-keep k (block_at arena size k) list in
        rw (e, new, ==_refl (block_at arena size k)) (omega arith)
    | inr other ↦ let more = hits-new n k list (ground arith) new in ground (arith, more)
  ]

  free_in-hits :
      (total : ℕ) (list : List ℕ)
      → distinct list ≡ true
      → ((q : ℕ)
          → elem q list ≡ true
          → get_arena_from_block q ≡ arena
          → (k : ℕ) × (k < total) × (q ≡ block_at arena size k))
      → free_in arena list ≤ hits total list
  unfolding free_in
  free_in-hits total [] once is_block = omega arith
  free_in-hits total (q ∷ list) once is_block =
      let rest = free_in-hits total list (ground arith) (λ x at. is_block x (ground arith)) in
      elim (Bool-cases (get_arena_from_block q == arena)) [
        | inl here ↦
            let (k, less, e) =
              is_block q (ground arith) ((==_iff (get_arena_from_block q) arena).0 here) in
            let new : elem q list ≡ false = ground arith in
            let up = hits-new total k list less (rw (← e) new) in
            let up' : suc (hits total list) ≤ hits total (q ∷ list) = rw e up in
            rw here (omega arith)
        | inr there ↦ let keep = hits-keep total q list in rw there (omega arith)
      ]

  -- An arena all of whose blocks are counted in a list has them all there.
  pub all_blocks :
      (total : ℕ) (list : List ℕ)
      → distinct list ≡ true
      → ((q : ℕ)
          → elem q list ≡ true
          → get_arena_from_block q ≡ arena
          → (k : ℕ) × (k < total) × (q ≡ block_at arena size k))
      → total ≤ free_in arena list
      → (k : ℕ) → k < total
      → elem (block_at arena size k) list ≡ true
  all_blocks total list once is_block all =
      let counted = free_in-hits total list once is_block in hits-all total list (omega arith)
