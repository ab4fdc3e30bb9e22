-- ===== src/NodeList/Sequence.antt =====
-- The lists of lib/list.c as plain sequences of nodes, for the code that only calls its routines; Deque
-- and Insert prove that the linked lists do the same.
use txos.Base.{
  ℕ, ◌≡◌, refl, true, false, not, ◌&&◌, List, [], ◌∷◌, ◌++◌, Outcome, ok, halt, some, none, arith,
  elem, distinct, ◌==◌, if◌then◌else◌, elem-append,
}
use txos.NodeList.Deque.{unsnoc}

unfoldable pub push_front : List ℕ → (node : ℕ) → Outcome (List ℕ)
push_front nodes node = if elem node nodes then halt else ok (node ∷ nodes)

unfoldable pub push_back : List ℕ → (node : ℕ) → Outcome (List ℕ)
push_back nodes node = if elem node nodes then halt else ok (nodes ++ node ∷ [])

-- the node and the others
unfoldable pub pop_back : List ℕ → Outcome (ℕ × List ℕ)
pop_back nodes = elim (unsnoc nodes) [ none ↦ halt | some (others, last) ↦ ok (last, others) ]

unfoldable pub pop_front : List ℕ → Outcome (ℕ × List ℕ)
pop_front [] = halt
pop_front (node ∷ nodes) = ok (node, nodes)

-- `list_remove` of a node of this list
unfoldable pub without : List ℕ → (node : ℕ) → List ℕ
without [] node = []
without (x ∷ nodes) node = let rest = without nodes node in if x == node then rest else x ∷ rest

pub elem-without :
    (a : ℕ) (nodes : List ℕ) (node : ℕ)
    → elem a (without nodes node) ≡ (not (node == a) && elem a nodes)
unfolding without
elem-without a [] node = ground arith
elem-without a (x ∷ nodes) node = ground (arith, elem-without a nodes node)

pub distinct-without :
    (nodes : List ℕ) (node : ℕ) → distinct nodes ≡ true → distinct (without nodes node) ≡ true
unfolding without
distinct-without [] node h = refl
distinct-without (x ∷ nodes) node h =
    ground (arith, distinct-without nodes node, elem-without x nodes node)

pub without_absent :
    (nodes : List ℕ) (node : ℕ) → elem node nodes ≡ false → without nodes node ≡ nodes
unfolding without
without_absent [] node h = refl
without_absent (x ∷ nodes) node h = ground (arith, without_absent nodes node)

unsnoc-snoc : (nodes : List ℕ) (last : ℕ) → unsnoc (nodes ++ last ∷ []) ≡ some (nodes, last)
unsnoc-snoc [] last = refl
unsnoc-snoc (x ∷ nodes) last = rw (unsnoc-snoc nodes last) refl

pub pop_back-snoc : (nodes : List ℕ) (last : ℕ) → pop_back (nodes ++ last ∷ []) ≡ ok (last, nodes)
unfolding pop_back
pop_back-snoc nodes last = rw (unsnoc-snoc nodes last, pop_back) refl

pub distinct-snoc :
    (nodes : List ℕ) (last : ℕ)
    → distinct (nodes ++ last ∷ []) ≡ true
    → (distinct nodes ≡ true) × (elem last nodes ≡ false)
distinct-snoc [] last h = (refl, refl)
distinct-snoc (x ∷ nodes) last h =
    ground (arith, distinct-snoc nodes last, elem-append x nodes (last ∷ []))
