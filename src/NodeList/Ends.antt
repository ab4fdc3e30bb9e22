-- ===== src/NodeList/Ends.antt =====
-- The list as a double-ended queue: pushes and pops at both ends.
use mathlib.Core.List.{append-nil}
use txos.Base.{ℕ, ◌<◌, ◌≡◌, refl, true, false, List, [], ◌∷◌, ◌++◌, arith, elem, ok, halt, length}
use txos.NodeList.{
  Links, head, tail, list_push_front, list_push_back, list_pop_front, list_pop_back, load_next,
  load_prev,
}
use txos.NodeList.Chains.{Prevs-last}
use txos.NodeList.Shape.{IsList, fresh, before, after, removed, inserted}
use txos.NodeList.Insert.{list_insert_before-ok, list_insert_after-ok, list_remove-ok}
use txos.NodeList.Walk.{list_contains-elem, list_empty-is_nil, is_nil}

module _ {s : Links} {l : ℕ} (fuel n : ℕ) where
  module _ (xs : List ℕ) (v : IsList s l xs) (enough : length xs < fuel)
      (new : fresh n l xs ≡ true) where
    pub list_push_front-ok : list_push_front fuel s l n ≡ ok (inserted s (head l) (after l xs) n)
    unfolding list_push_front
    list_push_front-ok =
        ground (arith, list_contains-elem fuel n v enough, list_insert_after-ok [] xs n v new)

    pub list_push_back-ok : list_push_back fuel s l n ≡ ok (inserted s (before l xs) (tail l) n)
    unfolding list_push_back
    list_push_back-ok =
        let v' : IsList s l (xs ++ []) = rw append-nil v in
        let new' : fresh n l (xs ++ []) ≡ true = rw append-nil new in
        ground (arith, list_contains-elem fuel n v enough, list_insert_before-ok xs [] n v' new')

  module _ (xs : List ℕ) (v : IsList s l xs) (enough : length xs < fuel)
      (old : elem n xs ≡ true) where
    pub list_push_front-halt : list_push_front fuel s l n ≡ halt
    unfolding list_push_front
    list_push_front-halt = ground (arith, list_contains-elem fuel n v enough)

    pub list_push_back-halt : list_push_back fuel s l n ≡ halt
    unfolding list_push_back
    list_push_back-halt = ground (arith, list_contains-elem fuel n v enough)

pub list_pop_front-ok :
    {s : Links} {l : ℕ} (n : ℕ) (xs : List ℕ)
    → IsList s l (n ∷ xs)
    → list_pop_front s l ≡ ok (n, removed s (head l) (after l xs) n)
unfolding list_pop_front load_next
list_pop_front-ok n xs v =
    ground (arith, v.apart, v.nexts.0, list_empty-is_nil (n ∷ xs) v, list_remove-ok [] xs n v)

pub list_pop_front-halt : {s : Links} {l : ℕ} → IsList s l [] → list_pop_front s l ≡ halt
unfolding list_pop_front
list_pop_front-halt v = ground (arith, list_empty-is_nil [] v)

pub is_nil-snoc : (xs : List ℕ) (n : ℕ) → is_nil (xs ++ n ∷ []) ≡ false
is_nil-snoc [] n = refl
is_nil-snoc (x ∷ xs) n = refl

prev-tail :
    {s : Links} {l : ℕ} (xs : List ℕ) (n : ℕ) → IsList s l (xs ++ n ∷ []) → s.prev (tail l) ≡ n
prev-tail {s} {l} xs n v = Prevs-last s.prev (head l) xs (tail l) n v.prevs

pub list_pop_back-ok :
    {s : Links} {l : ℕ} (xs : List ℕ) (n : ℕ)
    → IsList s l (xs ++ n ∷ [])
    → list_pop_back s l ≡ ok (n, removed s (before l xs) (tail l) n)
unfolding list_pop_back load_prev
list_pop_back-ok {l} xs n v = ground (
  arith,
  v.apart,
  prev-tail xs n v,
  list_empty-is_nil (xs ++ n ∷ []) v,
  is_nil-snoc xs n,
  list_remove-ok xs [] n v,
)

pub list_pop_back-halt : {s : Links} {l : ℕ} → IsList s l [] → list_pop_back s l ≡ halt
unfolding list_pop_back
list_pop_back-halt v = ground (arith, list_empty-is_nil [] v)
