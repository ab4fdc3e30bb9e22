-- ===== src/NodeList/Shape.antt =====
-- When the memory holds a list, and what an insertion or a removal leaves.
use txos.Base.{
  ℕ, ◌≡◌, ◌≢◌, Bool, true, false, not, List, [], ◌∷◌, ◌++◌, arith, elem, distinct, elem-append,
  update, null,
}
use txos.NodeList.{Links, head, tail}
use txos.NodeList.Chains.{
  first_of_nodes, last_of_nodes, Nexts, Prevs, Nexts-update, Prevs-update, Nexts-insert,
  Prevs-insert, Nexts-remove, Prevs-remove, last_of_nodes-ne, first_of_nodes-ne,
}

-- The list at `l` links exactly the nodes `xs`, in order, both ways; no node is NULL or a sentinel.
pub record IsList (s : Links) (l : ℕ) (xs : List ℕ) : Type 0 where
  pub nexts : Nexts s.next (head l) xs (tail l)
  pub prevs : Prevs s.prev (head l) xs (tail l)
  pub front : s.prev (head l) ≡ null
  pub back : s.next (tail l) ≡ null
  pub apart : distinct (null ∷ head l ∷ tail l ∷ xs) ≡ true

-- `node` may join the list: it is neither NULL, nor a sentinel, nor one of the nodes.
abbrev pub fresh : ℕ → ℕ → List ℕ → Bool
fresh node l xs = not (elem node (null ∷ head l ∷ tail l ∷ xs))

-- `node` between `before` and `after`
abbrev pub inserted : Links → (before after node : ℕ) → Links
inserted s before after node = record {
  prev = update (update s.prev node before) after node;
  next = update (update s.next node after) before node;
}

-- `node` taken from between `before` and `after`, and free
abbrev pub removed : Links → (before after node : ℕ) → Links
removed s before after node = record {
  prev = update (update s.prev after before) node null;
  next = update (update s.next before after) node null;
}

distinct-insert :
    (xs ys : List ℕ) (n : ℕ)
    → distinct (xs ++ ys) ≡ true
    → elem n (xs ++ ys) ≡ false
    → distinct (xs ++ n ∷ ys) ≡ true
distinct-insert [] ys n d out = ground arith
distinct-insert (x ∷ xs) ys n d out =
    ground (arith, distinct-insert xs ys n, elem-append x xs (n ∷ ys), elem-append x xs ys)

distinct-remove :
    (xs ys : List ℕ) (n : ℕ) → distinct (xs ++ n ∷ ys) ≡ true → distinct (xs ++ ys) ≡ true
distinct-remove [] ys n d = ground arith
distinct-remove (x ∷ xs) ys n d =
    ground (arith, distinct-remove xs ys n, elem-append x xs (n ∷ ys), elem-append x xs ys)

elem-remove :
    (p : ℕ) (xs ys : List ℕ) (n : ℕ) → elem p (xs ++ n ∷ ys) ≡ false → elem p (xs ++ ys) ≡ false
elem-remove p xs ys n h = ground (arith, elem-append p xs (n ∷ ys), elem-append p xs ys)

elem-insert :
    (p : ℕ) (xs ys : List ℕ) (n : ℕ)
    → elem p (xs ++ ys) ≡ false
    → n ≢ p
    → elem p (xs ++ n ∷ ys) ≡ false
elem-insert p xs ys n h ne = ground (arith, elem-append p xs (n ∷ ys), elem-append p xs ys)

-- the neighbours of the place between `xs` and `ys` in the list at `l`
abbrev pub before : ℕ → List ℕ → ℕ
before l xs = last_of_nodes (head l) xs

abbrev pub after : ℕ → List ℕ → ℕ
after l ys = first_of_nodes ys (tail l)

module _ {s : Links} {l : ℕ} (xs ys : List ℕ) where
  pub inserted-IsList :
      (n : ℕ)
      → IsList s l (xs ++ ys)
      → fresh n l (xs ++ ys) ≡ true
      → IsList (inserted s (before l xs) (after l ys) n) l (xs ++ n ∷ ys)
  inserted-IsList n v new = record {
    nexts =
        Nexts-insert s.next (head l) xs ys (tail l) n v.nexts (ground (arith, v.apart))
          (ground arith);
    prevs =
        Prevs-insert s.prev (head l) xs ys (tail l) n v.prevs (ground (arith, v.apart))
          (ground arith);
    front = ground (arith, v.front, v.apart, first_of_nodes-ne (head l) (tail l) xs ys);
    back = ground (arith, v.back, v.apart, last_of_nodes-ne (tail l) (head l) xs ys);
    apart = ground (
      arith,
      v.apart,
      distinct-insert xs ys n,
      elem-insert null xs ys n,
      elem-insert (head l) xs ys n,
      elem-insert (tail l) xs ys n,
    );
  }

  pub removed-IsList :
      (n : ℕ)
      → IsList s l (xs ++ n ∷ ys)
      → IsList (removed s (before l xs) (after l ys) n) l (xs ++ ys)
  removed-IsList n v = record {
    nexts = Nexts-remove s.next (head l) xs ys (tail l) n null v.nexts (ground (arith, v.apart));
    prevs = Prevs-remove s.prev (head l) xs ys (tail l) n null v.prevs (ground (arith, v.apart));
    front = ground (
      arith,
      v.front,
      v.apart,
      elem-remove (head l) xs ys n,
      first_of_nodes-ne (head l) (tail l) xs ys,
    );
    back = ground (
      arith,
      v.back,
      v.apart,
      elem-remove (tail l) xs ys n,
      last_of_nodes-ne (tail l) (head l) xs ys,
    );
    apart = ground (
      arith,
      v.apart,
      distinct-remove xs ys n,
      elem-remove null xs ys n,
      elem-remove (head l) xs ys n,
      elem-remove (tail l) xs ys n,
    );
  }

-- What an operation at one place of one list leaves alone: every list without the three nodes.
pub inserted-other :
    {s : Links} {m : ℕ} {zs : List ℕ} (p q n : ℕ)
    → IsList s m zs
    → fresh p m zs ≡ true
    → fresh q m zs ≡ true
    → fresh n m zs ≡ true
    → IsList (inserted s p q n) m zs
inserted-other {s} {m} {zs} p q n v hp hq hn = record {
  nexts =
      Nexts-update (update s.next n q) (head m) zs (tail m) p n
        (Nexts-update s.next (head m) zs (tail m) n q v.nexts (ground arith)) (ground arith);
  prevs =
      Prevs-update (update s.prev n p) (head m) zs (tail m) q n
        (Prevs-update s.prev (head m) zs (tail m) n p v.prevs (ground arith)) (ground arith);
  front = ground (arith, v.front);
  back = ground (arith, v.back);
  apart = v.apart;
}

pub removed-other :
    {s : Links} {m : ℕ} {zs : List ℕ} (p q n : ℕ)
    → IsList s m zs
    → fresh p m zs ≡ true
    → fresh q m zs ≡ true
    → fresh n m zs ≡ true
    → IsList (removed s p q n) m zs
removed-other {s} {m} {zs} p q n v hp hq hn = record {
  nexts =
      Nexts-update (update s.next p q) (head m) zs (tail m) n null
        (Nexts-update s.next (head m) zs (tail m) p q v.nexts (ground arith)) (ground arith);
  prevs =
      Prevs-update (update s.prev q p) (head m) zs (tail m) n null
        (Prevs-update s.prev (head m) zs (tail m) q p v.prevs (ground arith)) (ground arith);
  front = ground (arith, v.front);
  back = ground (arith, v.back);
  apart = v.apart;
}
