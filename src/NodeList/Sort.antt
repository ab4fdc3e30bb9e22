-- ===== src/NodeList/Sort.antt =====
-- `list_insert_sort`: the node goes before the first node whose key is not smaller.
use mathlib.Core.Path.{subst}
use txos.Base.{
  ℕ, zero, suc, ◌<◌, ◌≡◌, refl, Bool, true, false, ◌&&◌, List, [], ◌∷◌, ◌++◌, arith, elem,
  if◌then◌else◌, null, ok, length, ap, ◌∙◌, Bool-cases, inl, inr,
}
use txos.NodeList.{
  Links, head, tail, signed_leb, find_anchor, list_insert_sort, list_insert_before, node_free,
}
use txos.NodeList.Chains.{Nexts}
use txos.NodeList.Shape.{IsList, fresh, after}
use txos.NodeList.Insert.{list_insert_before_lem}
use txos.NodeList.Walk.{load_next-ok}

module _ (key : ℕ → ℕ) where
  -- the nodes before the place of `bound`, and those from it on
  abbrev pub smaller : ℕ → List ℕ → List ℕ
  smaller bound [] = []
  smaller bound (x ∷ xs) = if signed_leb bound (key x) then [] else x ∷ smaller bound xs

  abbrev pub not_smaller : ℕ → List ℕ → List ℕ
  not_smaller bound [] = []
  not_smaller bound (x ∷ xs) = if signed_leb bound (key x) then x ∷ xs else not_smaller bound xs

  -- the list with `n` before the first node whose key is not smaller
  abbrev pub insert_by : ℕ → List ℕ → List ℕ
  insert_by n [] = n ∷ []
  insert_by n (x ∷ xs) = if signed_leb (key n) (key x) then n ∷ x ∷ xs else x ∷ insert_by n xs

  -- each key is at most the next, as signed words
  abbrev pub sorted : List ℕ → Bool
  sorted [] = true
  sorted (x ∷ []) = true
  sorted (x ∷ y ∷ xs) = signed_leb (key x) (key y) && sorted (y ∷ xs)

  split : (bound : ℕ) (xs : List ℕ) → smaller bound xs ++ not_smaller bound xs ≡ xs
  split bound [] = refl
  split bound (x ∷ xs) = elim (Bool-cases (signed_leb bound (key x))) [
    | inl stop ↦ rw stop
    | inr go ↦ rw go (ap (λ r. x ∷ r) (split bound xs))
  ]

  insert_by-split :
      (n : ℕ) (xs : List ℕ) → smaller (key n) xs ++ n ∷ not_smaller (key n) xs ≡ insert_by n xs
  insert_by-split n [] = refl
  insert_by-split n (x ∷ xs) = elim (Bool-cases (signed_leb (key n) (key x))) [
    | inl stop ↦ rw stop
    | inr go ↦ rw go (ap (λ r. x ∷ r) (insert_by-split n xs))
  ]

  find_anchor-after :
      (fuel : ℕ) (s : Links) (l bound a : ℕ) (xs : List ℕ)
      → Nexts s.next a xs (tail l)
      → elem null xs ≡ false
      → elem (tail l) xs ≡ false
      → length xs < fuel
      → find_anchor fuel key s (tail l) bound (s.next a) ≡ ok (after l (not_smaller bound xs))
  unfolding find_anchor
  find_anchor-after zero s l bound a xs h z e f = absurd (omega arith)
  find_anchor-after (suc fuel) s l bound a [] h z e f = ground arith
  find_anchor-after (suc fuel) s l bound a (x ∷ xs) h z e f =
      elim (Bool-cases (signed_leb bound (key x))) [
        | inl stop ↦ rw (h.0, stop) (ground (arith, z, e))
        | inr go ↦
            rw (h.0, go)
              (ground (arith, z, e, load_next-ok s x, find_anchor-after fuel s l bound x xs h.1))
      ]

  module _ {s : Links} {l : ℕ} {xs : List ℕ} (fuel n : ℕ) (v : IsList s l xs)
      (free : node_free s n ≡ ok true) (enough : length xs < fuel) where
    list_insert_sort-before :
        list_insert_sort fuel key s l n ≡ list_insert_before s (after l (not_smaller (key n) xs)) n
    unfolding list_insert_sort
    list_insert_sort-before = rw (
      load_next-ok s (head l) (ground (arith, v.apart)),
      find_anchor-after fuel s l (key n) (head l) xs v.nexts (ground (arith, v.apart))
          (ground (arith, v.apart)) enough,
      free,
    )

    pub list_insert_sort-ok :
        fresh n l xs ≡ true
        → (s' : Links) × (list_insert_sort fuel key s l n ≡ ok s') × IsList s' l (insert_by n xs)
    list_insert_sort-ok new =
        let cut = split (key n) xs in
        let v' : IsList s l (smaller (key n) xs ++ not_smaller (key n) xs) = rw cut v in
        let new' : fresh n l (smaller (key n) xs ++ not_smaller (key n) xs) ≡ true = rw cut new in
        let (s', done, is) =
          list_insert_before_lem (smaller (key n) xs) (not_smaller (key n) xs) n v' new' in
        (s', list_insert_sort-before ∙ done, subst (IsList s' l) (insert_by-split n xs) is)
