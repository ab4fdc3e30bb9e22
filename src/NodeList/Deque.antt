-- ===== src/NodeList/Deque.antt =====
-- A client's pushes and pops refine those of a plain list.
use mathlib.Core.Path.{subst}
use mathlib.Core.List.{append-nil}
use txos.Base.{
  ℕ, ◌+◌, ◌<◌, ◌≡◌, refl, Bool, true, false, ◌&&◌, List, [], ◌∷◌, ◌++◌, arith, elem, if◌then◌else◌,
  ok, halt, Outcome, length, ◌>>=◌, ap, Bool-cases, inl, inr, length-append, Option, some, none,
  ◌⊎◌,
}
use txos.NodeList.{Links, tail, list_push_front, list_push_back, list_pop_front, list_pop_back}
use txos.NodeList.Shape.{IsList, fresh, before, removed, inserted-IsList, removed-IsList}
use txos.NodeList.Ends.{
  list_push_front-ok, list_push_back-ok, list_push_front-halt, list_push_back-halt,
  list_pop_front-ok, list_pop_front-halt, list_pop_back-ok, list_pop_back-halt,
}

pub data Op : Type 0 where
  push_front : ℕ → Op
  push_back : ℕ → Op
  pop_front : Op
  pop_back : Op

-- The nodes that a run of calls pops, in order.
unfoldable pub run : ℕ → Links → ℕ → List Op → Outcome (List ℕ)
run fuel s l [] = ok []
run fuel s l (push_front n ∷ ops) = do s ← list_push_front fuel s l n; run fuel s l ops
run fuel s l (push_back n ∷ ops) = do s ← list_push_back fuel s l n; run fuel s l ops
run fuel s l (pop_front ∷ ops) = do
  (n, s) ← list_pop_front s l
  popped ← run fuel s l ops
  ok (n ∷ popped)
run fuel s l (pop_back ∷ ops) = do
  (n, s) ← list_pop_back s l
  popped ← run fuel s l ops
  ok (n ∷ popped)

-- the nodes but the last, and the last
abbrev pub unsnoc : List ℕ → Option (List ℕ × ℕ)
unsnoc [] = none
unsnoc (x ∷ xs) = elim (unsnoc xs) [ none ↦ some ([], x) | some (ys, y) ↦ some (x ∷ ys, y) ]

-- The same calls on a plain list of nodes: a second push of a node and a pop of nothing stop.
unfoldable pub run_nodes : List ℕ → List Op → Outcome (List ℕ)
run_nodes xs [] = ok []
run_nodes xs (push_front n ∷ ops) =
    let rest = run_nodes (n ∷ xs) ops in if elem n xs then halt else rest
run_nodes xs (push_back n ∷ ops) =
    let rest = run_nodes (xs ++ n ∷ []) ops in if elem n xs then halt else rest
run_nodes xs (pop_front ∷ ops) = elim xs [
  | [] ↦ halt
  | x ∷ ys ↦ do popped ← run_nodes ys ops; ok (x ∷ popped)
]
run_nodes xs (pop_back ∷ ops) = elim (unsnoc xs) [
  | none ↦ halt
  | some (ys, y) ↦ do popped ← run_nodes ys ops; ok (y ∷ popped)
]

-- No call pushes NULL or a sentinel.
abbrev pub nodes_only : ℕ → List Op → Bool
nodes_only l [] = true
nodes_only l (push_front n ∷ ops) = fresh n l [] && nodes_only l ops
nodes_only l (push_back n ∷ ops) = fresh n l [] && nodes_only l ops
nodes_only l (pop_front ∷ ops) = nodes_only l ops
nodes_only l (pop_back ∷ ops) = nodes_only l ops

pub unsnoc-cases :
    (xs : List ℕ)
    → ((xs ≡ []) × (unsnoc xs ≡ none))
      ⊎ ((ys : List ℕ) × (y : ℕ) × (xs ≡ ys ++ y ∷ []) × (unsnoc xs ≡ some (ys, y)))
unsnoc-cases [] = inl (refl, refl)
unsnoc-cases (x ∷ xs) = elim (unsnoc-cases xs) [
  | inl (e, u) ↦ inr ([], x, rw e, rw u)
  | inr (ys, y, e, u) ↦ inr (x ∷ ys, y, rw e, rw u)
]

fresh-elem : (n l : ℕ) (xs : List ℕ) → fresh n l [] ≡ true → elem n xs ≡ false → fresh n l xs ≡ true
fresh-elem n l xs h out = ground arith

-- Given more rounds than the nodes that are there and the calls together, no sequence of pushes
-- and pops tells the linked nodes from a plain list of them, not by where it stops either.
pub run-run_nodes :
    (ops : List Op) (fuel : ℕ) {s : Links} {l : ℕ} (xs : List ℕ)
    → IsList s l xs
    → nodes_only l ops ≡ true
    → length xs + length ops < fuel
    → run fuel s l ops ≡ run_nodes xs ops
unfolding run run_nodes
run-run_nodes [] fuel xs v h f = refl
run-run_nodes (push_front n ∷ ops) fuel {l} xs v h f = elim (Bool-cases (elem n xs)) [
  | inl old ↦ rw (list_push_front-halt fuel n xs v (omega arith) old, old)
  | inr new ↦
      let fits : fresh n l xs ≡ true = fresh-elem n l xs (ground arith) new in
      rw (
        list_push_front-ok fuel n xs v (omega arith) fits,
        new,
        run-run_nodes ops fuel (n ∷ xs) (inserted-IsList [] xs n v fits) (ground arith)
            (omega arith),
      )
]
run-run_nodes (push_back n ∷ ops) fuel {s} {l} xs v h f = elim (Bool-cases (elem n xs)) [
  | inl old ↦ rw (list_push_back-halt fuel n xs v (omega arith) old, old)
  | inr new ↦
      let fits : fresh n l xs ≡ true = fresh-elem n l xs (ground arith) new in
      let v' : IsList s l (xs ++ []) = rw append-nil v in
      let fits' : fresh n l (xs ++ []) ≡ true = rw append-nil fits in
      let grown = inserted-IsList xs [] n v' fits' in
      rw (
        list_push_back-ok fuel n xs v (omega arith) fits,
        new,
        run-run_nodes ops fuel {l = l} (xs ++ n ∷ []) grown (ground arith)
            (omega (arith, length-append xs (n ∷ []))),
      )
]
run-run_nodes (pop_front ∷ ops) fuel [] v h f = rw (list_pop_front-halt v)
run-run_nodes (pop_front ∷ ops) fuel {s} {l} (x ∷ xs) v h f =
    rw (
      list_pop_front-ok x xs v,
      run-run_nodes ops fuel xs (removed-IsList [] xs x v) h (omega arith),
    )
run-run_nodes (pop_back ∷ ops) fuel {s} {l} xs v h f = elim (unsnoc-cases xs) [
  | inl (e, u) ↦ rw (list_pop_back-halt (subst (IsList s l) e v), u, run_nodes)
  | inr (ys, y, e, u) ↦
      let v' : IsList s l (ys ++ y ∷ []) = subst (IsList s l) e v in
      let kept : IsList (removed s (before l ys) (tail l) y) l ys =
        subst (IsList _ l) (append-nil ys) (removed-IsList ys [] y v') in
      rw (
        list_pop_back-ok ys y v',
        run-run_nodes ops fuel ys kept h
            (omega (arith, ap (length {A = ℕ}) e, length-append ys (y ∷ []))),
        u,
        run_nodes,
      )
]
