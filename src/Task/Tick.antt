-- ===== src/Task/Tick.antt =====
-- The clock interrupt: the sleepers that are due wake, and the current task uses up a tick.
use txos.Base.{
  ℕ, ◌+◌, ◌-◌, ◌%◌, ◌<◌, ◌≡◌, refl, sym, ap, ◌∙◌, Bool, true, false, List, [], ◌∷◌, ◌⊎◌, inl, inr,
  arith, elem, ok, length, ◌==◌, if◌then◌else◌, update, update-same, update-field, Bool-cases,
  ==_iff,
}
use txos.Stdlib.{word}
use txos.NodeList.Shape.{IsList}
use txos.Task.{
  Kernel, Task, task_running, in_state, xos_magic, task_wakeup, clock_handler, schedule,
}
use txos.Task.Schedule.{IsValid, Switched, schedule_lem}
use txos.Task.Wakeup.{nodes, keep, ascending, is_due, Woken, task_wakeup_lem}

-- the current task a tick later
abbrev pub used : Kernel → Task
used k = record (k.tasks k.current) {
  jiffies = (k.jiffies + 1) % word;
  ticks = ((k.tasks k.current).ticks + word - 1) % word;
}

abbrev pub ticked : Kernel → Kernel
ticked k = record k { jiffies = (k.jiffies + 1) % word; tasks = update k.tasks k.current (used k) }

ticked-IsValid : {k : Kernel} → IsValid k → IsValid (ticked k)
ticked-IsValid {k} v =
    let magic : (t : ℕ) → ((ticked k).tasks t).magic ≡ (k.tasks t).magic =
      λ t. update-field (λ t. t.magic) k.tasks k.current (used k) t refl in
    let runs : (t : ℕ)
        → in_state ((ticked k).tasks t) task_running ≡ in_state (k.tasks t) task_running =
      λ t. update-field (λ t. in_state t task_running) k.tasks k.current (used k) t refl in
    record {
      off = v.off;
      idle = v.idle;
      idle_magic = magic k.idle_task ∙ v.idle_magic;
      magics = λ t here some_task. magic t ∙ v.magics t here some_task;
      alone = λ t now. v.alone t (sym (runs t) ∙ now);
    }

clock_handler-at :
    (fuel : ℕ) (k woken : Kernel)
    → task_wakeup fuel k ≡ ok woken
    → (woken.tasks woken.current).magic ≡ xos_magic
    → clock_handler fuel k 0x20 ≡ (
        if ((woken.tasks woken.current).ticks + word - 1) % word == 0
        then schedule (ticked woken)
        else ok (ticked woken))
unfolding clock_handler
clock_handler-at fuel k woken done magic =
    let test : ((woken.tasks woken.current).magic == xos_magic) ≡ true = (==_iff _ _).1 magic in
    rw (done, test) refl

elem-keep :
    (test : ℕ → Bool) (task : ℕ) (queue : List ℕ)
    → elem task queue ≡ false
    → elem task (keep test queue) ≡ false
elem-keep test task [] out = refl
elem-keep test task (next ∷ queue) out = elim (Bool-cases (test next)) [
  | inl kept ↦ rw kept (ground (arith, elem-keep test task queue))
  | inr gone ↦ rw gone (elem-keep test task queue (ground arith))
]

-- A task that does not sleep is not touched by `task_wakeup`.
awake-same :
    {k k' : Kernel} (queue : List ℕ)
    → Woken k k' (λ t. (k.tasks t).ticks) queue
    → elem k.current queue ≡ false
    → k'.tasks k'.current ≡ k.tasks k.current
awake-same {k} {k'} queue w out =
    let out' = elem-keep (is_due (λ t. (k.tasks t).ticks) k.jiffies) k.current queue out in
    ap k'.tasks w.current ∙ w.tasks k.current ∙ rw out' refl

last_tick : (a n : ℕ) → a ≡ n → 0 < n → n < word → ((a + word - 1) % word == 0) ≡ true → n ≡ 1
last_tick a n e some_left small over =
    let zero_left : (a + word - 1) % word ≡ 0 = (==_iff _ _).0 over in omega arith

more_ticks : (a n : ℕ) → a ≡ n → 0 < n → ((a + word - 1) % word == 0) ≡ false → 1 < n
more_ticks a n e some_left over = ground arith

one_less : (a n : ℕ) → a ≡ n → 0 < n → n < word → (a + word - 1) % word + 1 ≡ n
one_less a n e some_left small = omega arith

-- On a valid kernel with a queue of sleepers in order and without the current task, which has
-- its magic number and some ticks left, the clock interrupt, of vector 0x20, ends (given more rounds than sleepers) and
-- keeps the kernel valid. The sleepers that are due leave the queue, and `jiffies` is one more. If the
-- current task had more than one tick left it goes on with a tick less, and nothing else changes. If it had
-- just one, the kernel is what `schedule` makes of it at that point, with the task's ticks used up.
pub clock_handler_lem :
    {k : Kernel} (fuel : ℕ) (queue : List ℕ)
    → IsValid k
    → IsList k.links k.sleeping_queue (nodes queue)
    → ascending (λ t. (k.tasks t).ticks) queue ≡ true
    → length queue < fuel
    → elem k.current queue ≡ false
    → (k.tasks k.current).magic ≡ xos_magic
    → 0 < (k.tasks k.current).ticks
    → (k.tasks k.current).ticks < word
    → (woken k' : Kernel) × (clock_handler fuel k 0x20 ≡ ok k')
      × IsValid k'
      × Woken k woken (λ t. (k.tasks t).ticks) queue
      × (k'.jiffies ≡ (k.jiffies + 1) % word)
      × (k'.links ≡ woken.links)
      × (((1 < (k.tasks k.current).ticks)
            × (k' ≡ ticked woken)
            × (k'.current ≡ k.current)
            × ((k'.tasks k.current).ticks + 1 ≡ (k.tasks k.current).ticks))
          ⊎ (((k.tasks k.current).ticks ≡ 1)
              × (schedule (ticked woken) ≡ ok k')
              × Switched (ticked woken) k'))
clock_handler_lem {k} fuel queue v is up enough out magic some_left small =
    let (woken, done, w) = task_wakeup_lem fuel queue v is up enough in
    let same = awake-same queue w out in
    let valid = ticked-IsValid w.valid in
    let ticks : (woken.tasks woken.current).ticks ≡ (k.tasks k.current).ticks =
      ap (λ t. t.ticks) same in
    let handled = clock_handler-at fuel k woken done (ap (λ t. t.magic) same ∙ magic) in
    let now : (woken.jiffies + 1) % word ≡ (k.jiffies + 1) % word =
      ap (λ n. (n + 1) % word) w.jiffies in
    elim (Bool-cases (((woken.tasks woken.current).ticks + word - 1) % word == 0)) [
      | inl over ↦
          let (k', switched, v', s, _) = schedule_lem valid in
          let once : (k.tasks k.current).ticks ≡ 1 =
            last_tick (woken.tasks woken.current).ticks (k.tasks k.current).ticks ticks some_left
              small over in
          (
            woken,
            k',
            handled ∙ rw over switched,
            v',
            w,
            s.clock ∙ now,
            s.links,
            inr (once, switched, s),
          )
      | inr left ↦
          let after : ((ticked woken).tasks k.current).ticks + 1 ≡ (k.tasks k.current).ticks =
            ap (λ c. ((ticked woken).tasks c).ticks + 1) (sym w.current)
            ∙ ap (λ t. t.ticks + 1) (update-same woken.tasks woken.current (used woken))
            ∙ one_less (woken.tasks woken.current).ticks (k.tasks k.current).ticks ticks some_left
                small in
          let many : 1 < (k.tasks k.current).ticks =
            more_ticks (woken.tasks woken.current).ticks (k.tasks k.current).ticks ticks some_left
              left in
          (
            woken,
            ticked woken,
            handled ∙ rw left refl,
            valid,
            w,
            now,
            refl,
            inl (many, refl, w.current, after),
          )
    ]
