-- ===== src/Fifo/Refine.antt =====
-- A valid `fifo_t` behaves as the byte queue of what it holds.
use mathlib.Core.Path.{ap₂}
use txos.Base.{
  true, false, ℕ, zero, suc, ◌+◌, ◌-◌, ◌≤◌, ◌<◌, ◌≡◌, refl, ap, ◌∙◌, ◌≢◌, List, [], ◌∷◌, ◌++◌, ok,
  halt, arith, length, ltb, if◌then◌else◌, get_or, set, get_or-set_self, get_or-set_ne, Outcome,
  ◌==◌, Bool-cases, inl, inr, Option, some, none, ◌>>=◌,
}
use txos.Fifo.{Fifo, fifo_get, fifo_put}
use txos.Fifo.Valid.{
  IsValid, wrap, count, dropped, stored, roomy, fifo_get-ok, fifo_get-empty, fifo_put-ok,
  dropped-IsValid, stored-IsValid, roomy-IsValid, count-roomy, count-stored, count-dropped,
}
use txos.Fifo.Queue
use txos.Fifo.Queue.{Queue, forget_oldest}

module _ (len : ℕ) where
  -- the `n` bytes from index `i` on, round the ring
  abbrev pub segment : List ℕ → ℕ → ℕ → Queue
  segment buf i zero = []
  segment buf i (suc n) = get_or buf i 0 ∷ segment buf (wrap len (i + 1)) n

  pub length-segment : (buf : List ℕ) (i n : ℕ) → length (segment buf i n) ≡ n
  length-segment buf i zero = refl
  length-segment buf i (suc n) = ap suc (length-segment buf (wrap len (i + 1)) n)

  -- The byte written behind a segment is its new last byte.
  pub segment-set :
      (buf : List ℕ) (x i j n : ℕ)
      → len ≤ length buf
      → i < len
      → n < len
      → j ≡ wrap len (i + n)
      → segment (set buf j x) i (suc n) ≡ segment buf i n ++ x ∷ []
  segment-set buf x i j zero hs hi hn e =
      let here : j ≡ i = ground arith in
      rw here (ap (λ b. b ∷ []) (get_or-set_self buf i x 0 (omega arith)))
  segment-set buf x i j (suc n) hs hi hn e =
      ap₂ ◌∷◌ (get_or-set_ne buf j i x 0 (ground arith))
        (segment-set buf x (wrap len (i + 1)) j n hs (ground arith) (omega arith) (ground arith))

unfoldable pub contents : Fifo → Queue
contents f = segment f.len f.buf f.head (count f)

pub length-contents : (f : Fifo) → length (contents f) ≡ count f
unfolding contents
length-contents f = length-segment f.len f.buf f.head (count f)

contents-empty : (f : Fifo) → count f ≡ 0 → contents f ≡ []
unfolding contents
contents-empty f e = ap (segment f.len f.buf f.head) e

pub contents-dropped :
    {f : Fifo} → IsValid f → count f ≢ 0 → contents f ≡ get_or f.buf f.head 0 ∷ contents (dropped f)
unfolding contents
contents-dropped {f} v ne = ap (segment f.len f.buf f.head) sym_count
  where
    sym_count : count f ≡ suc (count (dropped f))
    sym_count = omega (arith, count-dropped v ne)

pub contents-stored :
    {f : Fifo} (x : ℕ)
    → IsValid f
    → count f + 1 < f.len
    → contents (stored f x) ≡ contents f ++ x ∷ []
unfolding contents
contents-stored {f} x v free =
    ap (segment f.len (set f.buf f.tail x) f.head) grown
    ∙ segment-set f.len f.buf x f.head f.tail (count f) v.storage v.head_in (omega arith)
        (ground arith)
  where
    grown : count (stored f x) ≡ suc (count f)
    grown = omega (arith, count-stored x v free)

contents-roomy :
    {f : Fifo}
    → IsValid f
    → contents (roomy f)
      ≡ (if ltb (length (contents f)) (f.len - 1) then contents f else forget_oldest (contents f))
contents-roomy {f} v = elim (Bool-cases (count f == f.len - 1)) [
  | inl full ↦
      let some_left : count f ≢ 0 = ground arith in
      let at_limit : ltb (length (contents f)) (f.len - 1) ≡ false =
        ground (arith, length-contents f) in
      rw (full, at_limit, contents-dropped v some_left)
  | inr room ↦
      let below : ltb (length (contents f)) (f.len - 1) ≡ true =
        ground (arith, length-contents f) in
      rw (room, below)
]

-- `fifo_put` on a valid queue ends, keeps the invariant and the length, and leaves the bytes that
-- the bounded queue of `len - 1` bytes would hold: the oldest is dropped only when it is full.
pub fifo_put_refines :
    {f : Fifo} (byte : ℕ)
    → IsValid f
    → (g : Fifo) × (fifo_put f byte ≡ ok g)
      × IsValid g
      × (g.len ≡ f.len)
      × (contents g ≡ Queue.put (f.len - 1) (contents f) byte)
unfolding Queue.put
fifo_put_refines {f} byte v = (
  stored (roomy f) byte,
  fifo_put-ok byte v,
  stored-IsValid byte (roomy-IsValid v),
  same_len,
  contents-stored byte (roomy-IsValid v) space ∙ ap (λ q. q ++ byte ∷ []) (contents-roomy v),
)
  where
    same_len : (roomy f).len ≡ f.len
    same_len = ground arith

    space : count (roomy f) + 1 < (roomy f).len
    space = omega (arith, count-roomy v, same_len)

-- What `fifo_get` should answer, with the bytes in place of the ring.
abbrev pub Got : Outcome (ℕ × Fifo) → Option (ℕ × Queue) → Type 0
Got (ok (byte, g)) (some (byte', q)) = IsValid g × (byte ≡ byte') × (contents g ≡ q)
Got halt none = Unit {0}
Got _ _ = ⊥

-- On a valid queue `fifo_get` gives the oldest byte and leaves the rest, valid; on an empty one its
-- assertion stops the kernel.
pub fifo_get_refines : {f : Fifo} → IsValid f → Got (fifo_get f) (Queue.get (contents f))
unfolding Queue.get
fifo_get_refines {f} v = elim (Bool-cases (count f == 0)) [
  | inl none_left ↦
      let empty : count f ≡ 0 = ground arith in
      rw (fifo_get-empty v empty, contents-empty f empty) tt
  | inr more ↦
      let some_left : count f ≢ 0 = ground arith in
      rw (fifo_get-ok v some_left, contents-dropped v some_left) (dropped-IsValid v, refl, refl)
]

-- What a client asks of the queue.
pub data Op : Type 0 where
  put : ℕ → Op
  get : Op

-- The bytes that a run of calls returns; a `get` of an empty queue ends it.
unfoldable pub run : Fifo → List Op → Outcome (List ℕ)
run f [] = ok []
run f (put x ∷ ops) = do g ← fifo_put f x; run g ops
run f (get ∷ ops) = do (byte, g) ← fifo_get f; bytes ← run g ops; ok (byte ∷ bytes)

unfoldable pub run_queue : ℕ → Queue → List Op → Outcome (List ℕ)
run_queue cap q [] = ok []
run_queue cap q (put x ∷ ops) = run_queue cap (Queue.put cap q x) ops
run_queue cap q (get ∷ ops) = elim (Queue.get q) [
  | none ↦ halt
  | some (byte, q') ↦ do bytes ← run_queue cap q' ops; ok (byte ∷ bytes)
]

-- No sequence of calls tells a valid ring from the bounded queue of the bytes that it holds.
pub run-run_queue :
    (ops : List Op) {f : Fifo} → IsValid f → run f ops ≡ run_queue (f.len - 1) (contents f) ops
unfolding run run_queue Queue.get
run-run_queue [] v = refl
run-run_queue (put x ∷ ops) {f} v =
    let (g, done, valid, same_len, bytes) = fifo_put_refines x v in
    rw done (run-run_queue ops valid ∙ ap₂ (λ n q. run_queue (n - 1) q ops) same_len bytes)
run-run_queue (get ∷ ops) {f} v = elim (Bool-cases (count f == 0)) [
  | inl none_left ↦
      let empty : count f ≡ 0 = ground arith in rw (fifo_get-empty v empty, contents-empty f empty)
  | inr more ↦
      let some_left : count f ≢ 0 = ground arith in
      rw (
        fifo_get-ok v some_left,
        contents-dropped v some_left,
        run-run_queue ops (dropped-IsValid v),
      )
]
