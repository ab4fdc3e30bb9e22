-- ===== src/NodeList/Chains.antt =====
-- Chains of `next` and of `prev` pointers through a list of nodes, and what one insertion or
-- removal does to them.
use txos.Base.{
  ℕ, ◌≡◌, ◌≢◌, true, false, List, [], ◌∷◌, ◌++◌, arith, elem, distinct, elem-append, update,
}

-- the node that begins `xs`, or what follows it
abbrev pub first_of_nodes : List ℕ → ℕ → ℕ
first_of_nodes [] b = b
first_of_nodes (x ∷ xs) b = x

-- the node that ends `xs`, or what precedes it
abbrev pub last_of_nodes : ℕ → List ℕ → ℕ
last_of_nodes a [] = a
last_of_nodes a (x ∷ xs) = last_of_nodes x xs

-- From `a` the pointers lead through `xs` to `b`.
abbrev pub Nexts : (ℕ → ℕ) → ℕ → List ℕ → ℕ → Type 0
Nexts f a [] b = f a ≡ b
Nexts f a (x ∷ xs) b = (f a ≡ x) × Nexts f x xs b

-- From `b` the pointers lead back through `xs` to `a`.
abbrev pub Prevs : (ℕ → ℕ) → ℕ → List ℕ → ℕ → Type 0
Prevs f a [] b = f b ≡ a
Prevs f a (x ∷ xs) b = (f x ≡ a) × Prevs f x xs b

pub Nexts-update :
    (f : ℕ → ℕ) (a : ℕ) (xs : List ℕ) (b p v : ℕ)
    → Nexts f a xs b
    → elem p (a ∷ xs) ≡ false
    → Nexts (update f p v) a xs b
Nexts-update f a [] b p v h out = ground arith
Nexts-update f a (x ∷ xs) b p v h out = (ground arith, Nexts-update f x xs b p v h.1 (ground arith))

pub Prevs-update :
    (f : ℕ → ℕ) (a : ℕ) (xs : List ℕ) (b p v : ℕ)
    → Prevs f a xs b
    → elem p (b ∷ xs) ≡ false
    → Prevs (update f p v) a xs b
Prevs-update f a [] b p v h out = ground arith
Prevs-update f a (x ∷ xs) b p v h out = (ground arith, Prevs-update f x xs b p v h.1 (ground arith))

pub last_of_nodes-ne :
    (p x : ℕ) (xs ys : List ℕ) → elem p (x ∷ xs ++ ys) ≡ false → last_of_nodes x xs ≢ p
last_of_nodes-ne p x [] ys h = ground arith
last_of_nodes-ne p x (y ∷ xs) ys h = last_of_nodes-ne p y xs ys (ground arith)

pub first_of_nodes-ne :
    (p b : ℕ) (xs ys : List ℕ) → elem p (xs ++ ys) ≡ false → b ≢ p → first_of_nodes ys b ≢ p
first_of_nodes-ne p b [] [] h ne = ne
first_of_nodes-ne p b [] (y ∷ ys) h ne = ground arith
first_of_nodes-ne p b (x ∷ xs) ys h ne = first_of_nodes-ne p b xs ys (ground arith) ne

pub Nexts-last :
    (f : ℕ → ℕ) (a : ℕ) (xs ys : List ℕ) (b : ℕ)
    → Nexts f a (xs ++ ys) b
    → f (last_of_nodes a xs) ≡ first_of_nodes ys b
Nexts-last f a [] [] b h = h
Nexts-last f a [] (y ∷ ys) b h = h.0
Nexts-last f a (x ∷ xs) ys b h = Nexts-last f x xs ys b h.1

pub Prevs-first :
    (f : ℕ → ℕ) (a : ℕ) (xs ys : List ℕ) (b : ℕ)
    → Prevs f a (xs ++ ys) b
    → f (first_of_nodes ys b) ≡ last_of_nodes a xs
Prevs-first f a [] [] b h = h
Prevs-first f a [] (y ∷ ys) b h = h.0
Prevs-first f a (x ∷ xs) ys b h = Prevs-first f x xs ys b h.1

-- `n` put between `xs` and `ys`
pub Nexts-insert :
    (f : ℕ → ℕ) (a : ℕ) (xs ys : List ℕ) (b n : ℕ)
    → Nexts f a (xs ++ ys) b
    → distinct (a ∷ xs ++ ys) ≡ true
    → elem n (a ∷ xs ++ ys) ≡ false
    → Nexts (update (update f n (first_of_nodes ys b)) (last_of_nodes a xs) n) a (xs ++ n ∷ ys) b
Nexts-insert f a [] [] b n h d out = (ground arith, ground arith)
Nexts-insert f a [] (y ∷ ys) b n h d out = (
  ground arith,
  (
    ground arith,
    Nexts-update (update f n y) y ys b a n (Nexts-update f y ys b n y h.1 (ground arith))
        (ground arith),
  ),
)
Nexts-insert f a (x ∷ xs) ys b n h d out = (
  ground (arith, last_of_nodes-ne a x xs ys),
  Nexts-insert f x xs ys b n h.1 (ground arith) (ground arith),
)

pub Prevs-insert :
    (f : ℕ → ℕ) (a : ℕ) (xs ys : List ℕ) (b n : ℕ)
    → Prevs f a (xs ++ ys) b
    → distinct (b ∷ xs ++ ys) ≡ true
    → elem n (b ∷ xs ++ ys) ≡ false
    → Prevs (update (update f n (last_of_nodes a xs)) (first_of_nodes ys b) n) a (xs ++ n ∷ ys) b
Prevs-insert f a [] [] b n h d out = (ground arith, ground arith)
Prevs-insert f a [] (y ∷ ys) b n h d out = (
  ground arith,
  (
    ground arith,
    Prevs-update (update f n a) y ys b y n (Prevs-update f y ys b n a h.1 (ground arith))
        (ground arith),
  ),
)
Prevs-insert f a (x ∷ xs) ys b n h d out = (
  ground (arith, first_of_nodes-ne x b xs ys),
  Prevs-insert f x xs ys b n h.1 (ground arith) (ground arith),
)

-- `n` taken out from between `xs` and `ys`
pub Nexts-remove :
    (f : ℕ → ℕ) (a : ℕ) (xs ys : List ℕ) (b n v : ℕ)
    → Nexts f a (xs ++ n ∷ ys) b
    → distinct (a ∷ xs ++ n ∷ ys) ≡ true
    → Nexts (update (update f (last_of_nodes a xs) (first_of_nodes ys b)) n v) a (xs ++ ys) b
Nexts-remove f a [] [] b n v h d = ground arith
Nexts-remove f a [] (y ∷ ys) b n v h d = (
  ground arith,
  Nexts-update (update f a y) y ys b n v (Nexts-update f y ys b a y h.1.1 (ground arith))
      (ground arith),
)
Nexts-remove f a (x ∷ xs) ys b n v h d = (
  ground (arith, last_of_nodes-ne a x xs (n ∷ ys), elem-append a xs (n ∷ ys)),
  Nexts-remove f x xs ys b n v h.1 (ground arith),
)

pub Prevs-remove :
    (f : ℕ → ℕ) (a : ℕ) (xs ys : List ℕ) (b n v : ℕ)
    → Prevs f a (xs ++ n ∷ ys) b
    → distinct (b ∷ xs ++ n ∷ ys) ≡ true
    → Prevs (update (update f (first_of_nodes ys b) (last_of_nodes a xs)) n v) a (xs ++ ys) b
Prevs-remove f a [] [] b n v h d = ground arith
Prevs-remove f a [] (y ∷ ys) b n v h d = (
  ground arith,
  Prevs-update (update f y a) y ys b n v (Prevs-update f y ys b y a h.1.1 (ground arith))
      (ground arith),
)
Prevs-remove f a (x ∷ xs) ys b n v h d = (
  ground (
    arith,
    first_of_nodes-ne x b (xs ++ n ∷ []) ys,
    elem-append x xs (n ∷ ys),
    elem-append x (xs ++ n ∷ []) ys,
    elem-append x xs (n ∷ []),
  ),
  Prevs-remove f x xs ys b n v h.1 (ground arith),
)

-- The successor of a node in the middle.
pub Nexts-middle :
    (f : ℕ → ℕ) (a : ℕ) (xs ys : List ℕ) (b n : ℕ)
    → Nexts f a (xs ++ n ∷ ys) b
    → f n ≡ first_of_nodes ys b
Nexts-middle f a [] ys b n h = Nexts-last f n [] ys b h.1
Nexts-middle f a (x ∷ xs) ys b n h = Nexts-middle f x xs ys b n h.1

pub distinct-middle :
    (xs ys : List ℕ) (n : ℕ) → distinct (xs ++ n ∷ ys) ≡ true → elem n (xs ++ ys) ≡ false
distinct-middle [] ys n d = ground arith
distinct-middle (x ∷ xs) ys n d = ground (arith, distinct-middle xs ys n, elem-append x xs (n ∷ ys))

pub Prevs-last : (f : ℕ → ℕ) (a : ℕ) (xs : List ℕ) (b n : ℕ) → Prevs f a (xs ++ n ∷ []) b → f b ≡ n
Prevs-last f a [] b n h = h.1
Prevs-last f a (x ∷ xs) b n h = Prevs-last f x xs b n h.1
