-- ===== src/Keyboard/Typing.antt =====
-- A character typed: it goes to the queue, and the reader that waits for one is woken.
use txos.Base.{
  ℕ, ◌-◌, ◌<◌, ◌≡◌, ◌≢◌, ◌⊎◌, inl, inr, refl, ap, ◌∙◌, arith, ok, List, [], ◌∷◌, ◌++◌, AllBelow,
  AllBelow-append, ltb, ◌==◌, if◌then◌else◌, Bool-cases, null, length,
}
use txos.NodeList.Shape.{IsList}
use txos.Task.{Kernel, node, task_ready}
use txos.Task.Schedule
use txos.Task.Queues.{task_unblock_lem}
use txos.Fifo.{Fifo}
use txos.Fifo.Valid
use txos.Fifo.Refine.{contents, fifo_put_refines}
use txos.Fifo.Queue
use txos.Fifo.Queue.{Queue}
use txos.Keyboard.{System, put_char, buffer_size}

-- `task` is in the queue of the blocked tasks
abbrev pub Waits : Kernel → ℕ → Type 0
Waits k task = (xs : List ℕ) × (ys : List ℕ) × IsList k.links k.blocked_queue (xs ++ node task ∷ ys)

-- The queue is a valid ring of 64 bytes and holds characters, the kernel is valid, and the reader that
-- waits, if there is one, is blocked.
pub record IsValid (s : System) : Type 0 where
  pub ring : Valid.IsValid s.keyboard.fifo
  pub room : s.keyboard.fifo.len ≡ buffer_size
  pub characters : AllBelow 128 (contents s.keyboard.fifo)
  pub kernel : Schedule.IsValid s.kernel
  pub waiting : (s.keyboard.waiter ≡ null) ⊎ Waits s.kernel s.keyboard.waiter

AllBelow-put :
    (n cap : ℕ) (q : Queue) (ch : ℕ) → AllBelow n q → ch < n → AllBelow n (Queue.put cap q ch)
unfolding Queue.put
AllBelow-put n cap q ch below small = AllBelow-append n _ (ch ∷ []) (kept n cap q below) (small, tt)
  where
    forgotten : (n : ℕ) (q : Queue) → AllBelow n q → AllBelow n (Queue.forget_oldest q)
    forgotten n [] below = below
    forgotten n (x ∷ q) below = below.1

    kept :
        (n cap : ℕ) (q : Queue)
        → AllBelow n q
        → AllBelow n (if ltb (length q) cap then q else Queue.forget_oldest q)
    kept n cap q below = elim (Bool-cases (ltb (length q) cap)) [
      | inl room ↦ rw room below
      | inr full ↦ rw full (forgotten n q below)
    ]

-- what a character typed leaves
pub record Typed (s s' : System) (ch : ℕ) : Type 0 where
  pub valid : IsValid s'
  pub text : contents s'.keyboard.fifo ≡ Queue.put 63 (contents s.keyboard.fifo) ch
  pub woken : s'.keyboard.waiter ≡ null
  pub ready : s.keyboard.waiter ≢ null → (s'.kernel.tasks s.keyboard.waiter).state ≡ task_ready
  pub current : s'.kernel.current ≡ s.kernel.current

-- the system after the character, with the queue and the kernel as they became
abbrev stored_in : System → Fifo → Kernel → System
stored_in s fifo kernel = record s {
  keyboard = record s.keyboard { fifo = fifo; waiter = null };
  kernel = kernel;
}

pub put_char-Typed :
    (s : System) (ch : ℕ)
    → IsValid s
    → ch < 128
    → (s' : System) × (put_char s ch ≡ ok s') × Typed s s' ch
unfolding put_char
put_char-Typed s ch v small =
    let (f, stored, ring, len, text) = fifo_put_refines ch v.ring in
    let text' : contents f ≡ Queue.put 63 (contents s.keyboard.fifo) ch =
      text ∙ ap (λ n. Queue.put (n - 1) (contents s.keyboard.fifo) ch) v.room in
    let characters : AllBelow 128 (contents f) =
      rw text' (AllBelow-put 128 63 (contents s.keyboard.fifo) ch v.characters small) in
    elim (Bool-cases (s.keyboard.waiter == null)) [
      | inl none ↦ (
        record s { keyboard = record s.keyboard { fifo = f } },
        rw (stored, none) refl,
        record {
          valid = record {
            ring = ring;
            room = len ∙ v.room;
            characters = characters;
            kernel = v.kernel;
            waiting = v.waiting;
          };
          text = text';
          woken = ground arith;
          ready = λ ne. absurd (ne (ground arith));
          current = refl;
        },
      )
      | inr reader ↦ elim v.waiting [
        | inl nobody ↦ absurd (ground arith)
        | inr (xs, ys, is) ↦
            let (k, unblocked, kernel, rest, free, state, current) =
              task_unblock_lem xs ys s.keyboard.waiter v.kernel is in
            (
              stored_in s f k,
              rw (stored, reader, unblocked) refl,
              record {
                valid = record {
                  ring = ring;
                  room = len ∙ v.room;
                  characters = characters;
                  kernel = kernel;
                  waiting = inl refl;
                };
                text = text';
                woken = refl;
                ready = λ ne. state;
                current = current;
              },
            )
      ]
    ]
