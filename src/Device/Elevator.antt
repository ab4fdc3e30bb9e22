-- ===== src/Device/Elevator.antt =====
-- The request that follows, from the two sides of the one that ends.
use txos.Base.{
  ℕ, ◌≡◌, ◌≢◌, refl, arith, false, ◌&&◌, List, [], ◌∷◌, ◌++◌, Option, none, some, ok, ◌==◌,
  elem-append, if◌then◌else◌, ==_refl, ==_ne, null,
}
use txos.NodeList.{Links, head, tail, list_istail, list_ishead, load_next, load_prev}
use txos.NodeList.Chains.{last_of_nodes-ne, Nexts-middle, Prevs-first}
use txos.NodeList.Shape.{IsList, before, after, removed}
use txos.NodeList.Insert.{list_remove-ok}
use txos.NodeList.Walk.{is_nil, is_singleton, list_singular-is_singleton}
use txos.Device.{Direction, turned, neighbour, next_request, finish_request}

is_singleton-middle :
    (xs ys : List ℕ) (n : ℕ) → is_singleton (xs ++ n ∷ ys) ≡ (is_nil xs && is_nil ys)
is_singleton-middle [] [] n = refl
is_singleton-middle [] (y ∷ ys) n = refl
is_singleton-middle (x ∷ []) ys n = refl
is_singleton-middle (x ∷ y ∷ xs) ys n = refl

module _ {s : Links} {l : ℕ} (xs ys : List ℕ) (n : ℕ) (v : IsList s l (xs ++ n ∷ ys)) where
  not_null : n ≢ null
  not_null = ground (arith, v.apart, elem-append null xs (n ∷ ys))

  next-node : s.next n ≡ after l ys
  next-node = Nexts-middle s.next (head l) xs ys (tail l) n v.nexts

  prev-node : s.prev n ≡ before l xs
  prev-node = Prevs-first s.prev (head l) xs (n ∷ ys) (tail l) v.prevs

at_end :
    {s : Links} {l : ℕ} (xs ys : List ℕ) (n : ℕ)
    → IsList s l (xs ++ n ∷ ys)
    → (after l ys == tail l) ≡ is_nil ys
at_end {l = l} xs [] n v = ==_refl (tail l)
at_end {l = l} xs (y ∷ ys) n v = ground (arith, v.apart, elem-append (tail l) xs (n ∷ y ∷ ys))

at_start :
    {s : Links} {l : ℕ} (xs ys : List ℕ) (n : ℕ)
    → IsList s l (xs ++ n ∷ ys)
    → (before l xs == head l) ≡ is_nil xs
at_start {l = l} [] ys n v = ==_refl (head l)
at_start {l = l} (x ∷ xs) ys n v = ground (arith, v.apart, last_of_nodes-ne (head l) x xs (n ∷ ys))

-- the answer from the two sides of the node
abbrev pub chosen : (l : ℕ) → Direction → (xs ys : List ℕ) → Option ℕ × Direction
chosen l d xs ys =
    let d' = turned d (is_nil ys) (is_nil xs) in
    (if is_nil xs && is_nil ys then none else some (neighbour d' (after l ys) (before l xs)), d')

next_request-chosen :
    {s : Links} {l : ℕ} (d : Direction) (xs ys : List ℕ) (n : ℕ)
    → IsList s l (xs ++ n ∷ ys)
    → next_request s l d n ≡ ok (chosen l d xs ys)
unfolding next_request list_istail list_ishead load_next load_prev
next_request-chosen {s} {l} d xs ys n v =
    let here : (n == null) ≡ false = ==_ne n null (not_null xs ys n v) in
    rw
      (
        here,
        next-node xs ys n v,
        prev-node xs ys n v,
        at_end xs ys n v,
        at_start xs ys n v,
        list_singular-is_singleton (xs ++ n ∷ ys) v,
        is_singleton-middle xs ys n,
      )
      refl

pub finish_request-chosen :
    {s : Links} {l : ℕ} (d : Direction) (xs ys : List ℕ) (n : ℕ)
    → IsList s l (xs ++ n ∷ ys)
    → finish_request s l d n
      ≡ ok (removed s (before l xs) (after l ys) n, (chosen l d xs ys).0, (chosen l d xs ys).1)
unfolding finish_request
finish_request-chosen d xs ys n v =
    rw (next_request-chosen d xs ys n v, list_remove-ok xs ys n v) refl
