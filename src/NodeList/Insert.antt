-- ===== src/NodeList/Insert.antt =====
-- `list_init`, `list_insert_before`, `list_insert_after` and `list_remove` on a well-formed list.
use txos.Base.{
  ℕ, ◌≡◌, ◌≢◌, true, false, List, [], ◌∷◌, ◌++◌, arith, elem, elem-append, update, null, ok, halt,
}
use txos.NodeList.{
  Links, head, tail, list_init, list_insert_before, list_insert_after, list_remove, node_free,
}
use txos.NodeList.Chains.{
  distinct-middle, Nexts-middle, last_of_nodes-ne, first_of_nodes-ne, Nexts-last, Prevs-first,
}
use txos.NodeList.Shape.{
  IsList, fresh, inserted, removed, before, after, inserted-IsList, removed-IsList,
}

-- `list_init` makes an empty list of any sentinels that are not NULL.
pub list_init-IsList :
    (s : Links) (l : ℕ) → l ≢ null → (s' : Links) × (list_init s l ≡ ok s') × IsList s' l []
unfolding list_init
list_init-IsList s l h = (
  record {
    prev = update (update s.prev (head l) null) (tail l) (head l);
    next = update (update s.next (head l) (tail l)) (tail l) null;
  },
  ground arith,
  record {
    nexts = ground arith;
    prevs = ground arith;
    front = ground arith;
    back = ground arith;
    apart = ground arith;
  },
)

module _ {s : Links} {l : ℕ} (xs ys : List ℕ) where
  -- the neighbours of a place are no NULL, and point at one another
  before-ne : IsList s l (xs ++ ys) → before l xs ≢ null
  before-ne v = ground (arith, v.apart, last_of_nodes-ne null (head l) xs ys)

  after-ne : IsList s l (xs ++ ys) → after l ys ≢ null
  after-ne v = ground (arith, v.apart, first_of_nodes-ne null (tail l) xs ys)

  pub next-before : IsList s l (xs ++ ys) → s.next (before l xs) ≡ after l ys
  next-before v = Nexts-last s.next (head l) xs ys (tail l) v.nexts

  pub prev-after : IsList s l (xs ++ ys) → s.prev (after l ys) ≡ before l xs
  prev-after v = Prevs-first s.prev (head l) xs ys (tail l) v.prevs

  module _ (n : ℕ) (v : IsList s l (xs ++ ys)) (new : fresh n l (xs ++ ys) ≡ true) where
    n-ne-after : after l ys ≢ n
    n-ne-after = first_of_nodes-ne n (tail l) xs ys (ground arith) (ground arith)

    n-ne-before : before l xs ≢ n
    n-ne-before = last_of_nodes-ne n (head l) xs ys (ground arith)

    pub list_insert_before-ok :
        list_insert_before s (after l ys) n ≡ ok (inserted s (before l xs) (after l ys) n)
    unfolding list_insert_before
    list_insert_before-ok = ground (arith, new, after-ne v, before-ne v, prev-after v, n-ne-after)

    pub list_insert_after-ok :
        list_insert_after s (before l xs) n ≡ ok (inserted s (before l xs) (after l ys) n)
    unfolding list_insert_after
    list_insert_after-ok = ground (arith, new, after-ne v, before-ne v, next-before v, n-ne-before)

  module _ (n : ℕ) (v : IsList s l (xs ++ n ∷ ys)) where
    gone : IsList (removed s (before l xs) (after l ys) n) l (xs ++ ys)
    gone = removed-IsList xs ys n v

    others : elem n (null ∷ head l ∷ tail l ∷ xs ++ ys) ≡ false
    others = ground (
      arith,
      v.apart,
      distinct-middle xs ys n,
      elem-append null xs (n ∷ ys),
      elem-append (head l) xs (n ∷ ys),
      elem-append (tail l) xs (n ∷ ys),
    )

    pub list_remove-ok : list_remove s n ≡ ok (removed s (before l xs) (after l ys) n)
    unfolding list_remove
    list_remove-ok = ground (
      arith,
      others,
      gone.apart,
      last_of_nodes-ne null (head l) xs ys,
      first_of_nodes-ne null (tail l) xs ys,
      last_of_nodes-ne n (head l) xs ys,
      first_of_nodes-ne n (tail l) xs ys,
      Prevs-first s.prev (head l) xs (n ∷ ys) (tail l) v.prevs,
      Nexts-middle s.next (head l) xs ys (tail l) n v.nexts,
    )

    pub node_free-removed : node_free (removed s (before l xs) (after l ys) n) n ≡ ok true
    unfolding node_free
    node_free-removed = ground (arith, others)

-- Before the node that begins `ys` (the tail sentinel if there is none) `list_insert_before` puts a
-- new node, and the list is `xs`, the node, `ys`.
pub list_insert_before_lem :
    {s : Links} {l : ℕ} (xs ys : List ℕ) (n : ℕ)
    → IsList s l (xs ++ ys)
    → fresh n l (xs ++ ys) ≡ true
    → (s' : Links) × (list_insert_before s (after l ys) n ≡ ok s') × IsList s' l (xs ++ n ∷ ys)
list_insert_before_lem xs ys n v new =
    (_, list_insert_before-ok xs ys n v new, inserted-IsList xs ys n v new)

-- After the node that ends `xs` (the head sentinel if there is none) `list_insert_after` puts a new
-- node, and the list is `xs`, the node, `ys`.
pub list_insert_after_lem :
    {s : Links} {l : ℕ} (xs ys : List ℕ) (n : ℕ)
    → IsList s l (xs ++ ys)
    → fresh n l (xs ++ ys) ≡ true
    → (s' : Links) × (list_insert_after s (before l xs) n ≡ ok s') × IsList s' l (xs ++ n ∷ ys)
list_insert_after_lem xs ys n v new =
    (_, list_insert_after-ok xs ys n v new, inserted-IsList xs ys n v new)

-- `list_remove` takes a node of the list out, keeps the others in order, and leaves the node free,
-- as `ASSERT_NODE_FREE` tests it.
pub list_remove_lem :
    {s : Links} {l : ℕ} (xs ys : List ℕ) (n : ℕ)
    → IsList s l (xs ++ n ∷ ys)
    → (s' : Links) × (list_remove s n ≡ ok s') × IsList s' l (xs ++ ys) × (node_free s' n ≡ ok true)
list_remove_lem xs ys n v =
    (_, list_remove-ok xs ys n v, removed-IsList xs ys n v, node_free-removed xs ys n v)

-- A node that is in no list (its links are NULL) is refused: the assertion stops the kernel.
pub list_remove-free : (s : Links) (n : ℕ) → node_free s n ≡ ok true → list_remove s n ≡ halt
unfolding list_remove node_free
list_remove-free s n h = ground arith
