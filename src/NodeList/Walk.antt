-- ===== src/NodeList/Walk.antt =====
-- The walks: `list_contains` and `list_size` end, given more rounds than there are nodes.
use txos.Base.{
  ℕ, zero, suc, ◌+◌, ◌%◌, ◌<◌, ◌≡◌, ◌≢◌, Bool, true, false, List, [], ◌∷◌, arith, elem, null, ok,
  length,
}
use txos.Stdlib.{word}
use txos.NodeList.{
  Links, head, tail, contains_from, list_contains, size_from, list_size, load_next, list_empty,
  list_singular,
}
use txos.NodeList.Chains.{Nexts}
use txos.NodeList.Shape.{IsList}

-- a step along the chain
pub load_next-ok : (s : Links) (p : ℕ) → p ≢ null → load_next s p ≡ ok (s.next p)
unfolding load_next
load_next-ok s p h = ground arith

contains_from-elem :
    (fuel : ℕ) (s : Links) (stop n a : ℕ) (xs : List ℕ)
    → Nexts s.next a xs stop
    → elem null xs ≡ false
    → elem stop xs ≡ false
    → length xs < fuel
    → contains_from fuel s stop n (s.next a) ≡ ok (elem n xs)
unfolding contains_from
contains_from-elem zero s stop n a xs h z e f = absurd (omega arith)
contains_from-elem (suc fuel) s stop n a [] h z e f = ground arith
contains_from-elem (suc fuel) s stop n a (x ∷ xs) h z e f =
    ground (arith, load_next-ok s x, contains_from-elem fuel s stop n x xs h.1)

-- `list_contains` ends within one round more than there are nodes, and says whether the node is
-- in the list.
pub list_contains-elem :
    {s : Links} {l : ℕ} {xs : List ℕ} (fuel n : ℕ)
    → IsList s l xs
    → length xs < fuel
    → list_contains fuel s l n ≡ ok (elem n xs)
unfolding list_contains
list_contains-elem {s} {l} {xs} fuel n v f = ground (
  arith,
  v.apart,
  load_next-ok s (head l),
  contains_from-elem fuel s (tail l) n (head l) xs v.nexts,
)

size_from-length :
    (fuel : ℕ) (s : Links) (stop k a : ℕ) (xs : List ℕ)
    → Nexts s.next a xs stop
    → elem null xs ≡ false
    → elem stop xs ≡ false
    → length xs < fuel
    → k < word
    → size_from fuel s stop (s.next a) k ≡ ok ((k + length xs) % word)
unfolding size_from
size_from-length zero s stop k a xs h z e f b = absurd (omega arith)
size_from-length (suc fuel) s stop k a [] h z e f b =
    let done : (k + 0) % word ≡ k = omega arith in ground arith
size_from-length (suc fuel) s stop k a (x ∷ xs) h z e f b =
    let same : ((k + 1) % word + length xs) % word ≡ (k + suc (length xs)) % word = omega arith in
    ground (arith, load_next-ok s x, size_from-length fuel s stop ((k + 1) % word) x xs h.1)

-- `list_size` ends within one round more than there are nodes, and counts them modulo 2^32.
pub list_size-length :
    {s : Links} {l : ℕ} {xs : List ℕ} (fuel : ℕ)
    → IsList s l xs
    → length xs < fuel
    → list_size fuel s l ≡ ok (length xs % word)
unfolding list_size
list_size-length {s} {l} {xs} fuel v f = ground (
  arith,
  v.apart,
  load_next-ok s (head l),
  size_from-length fuel s (tail l) 0 (head l) xs v.nexts,
)

-- whether a list has no node, and whether it has one
abbrev pub is_nil : List ℕ → Bool
is_nil [] = true
is_nil (x ∷ xs) = false

abbrev pub is_singleton : List ℕ → Bool
is_singleton [] = false
is_singleton (x ∷ xs) = is_nil xs

pub list_empty-is_nil :
    {s : Links} {l : ℕ} (xs : List ℕ) → IsList s l xs → list_empty s l ≡ ok (is_nil xs)
unfolding list_empty
list_empty-is_nil [] v = ground (arith, v.apart, v.nexts, v.prevs)
list_empty-is_nil (x ∷ xs) v = ground (arith, v.apart, v.nexts.0)

pub list_singular-is_singleton :
    {s : Links} {l : ℕ} (xs : List ℕ) → IsList s l xs → list_singular s l ≡ ok (is_singleton xs)
unfolding list_singular
list_singular-is_singleton {s} {l} [] v =
    ground (arith, list_empty-is_nil [] v, v.apart, load_next-ok s (head l))
list_singular-is_singleton {s} {l} (x ∷ []) v = ground (
  arith,
  list_empty-is_nil (x ∷ []) v,
  v.apart,
  v.nexts,
  load_next-ok s (head l),
  load_next-ok s x,
)
list_singular-is_singleton {s} {l} (x ∷ y ∷ xs) v = ground (
  arith,
  list_empty-is_nil (x ∷ y ∷ xs) v,
  v.apart,
  v.nexts.0,
  v.nexts.1.0,
  load_next-ok s (head l),
  load_next-ok s x,
)
