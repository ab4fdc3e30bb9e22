-- ===== src/Task/Sleep.antt =====
-- `task_sleep`: the current task joins the sleepers, in the order of the ticks at which they wake.
use txos.Base.{
  ℕ, suc, ◌+◌, ◌*◌, ◌%◌, ◌^◌, ◌<◌, ◌≤◌, ◌≡◌, ◌≢◌, refl, sym, ◌∙◌, ap, Bool, true, false, not, ◌&&◌,
  List, [], ◌∷◌, inl, inr, arith, elem, ok, length, ltb, leb, if◌then◌else◌, update, update-same,
  update-field, update-other, Bool-cases,
}
use txos.Stdlib.{word, div_round_up}
use txos.Stdlib.Laws.{div_round_up_lem}
use txos.NodeList.{Links, node_free, signed_leb}
use txos.NodeList.Shape.{IsList, fresh}
use txos.NodeList.Sort.{insert_by, list_insert_sort-ok}
use txos.Task.{
  Kernel, Task, task_sleeping, task_running, in_state, rest, node, entry, jiffy, ticks_of,
  fall_asleep, task_sleep,
}
use txos.Task.Schedule.{IsValid}
use txos.Task.Queues.{schedule-waiting, restated-IsValid}
use txos.Task.Wakeup.{nodes, ascending}

-- `task` before the first that does not wake before it
abbrev pub enqueued : (ℕ → ℕ) → ℕ → List ℕ → List ℕ
enqueued ticks task [] = task ∷ []
enqueued ticks task (next ∷ queue) =
    if leb (ticks task) (ticks next) then task ∷ next ∷ queue else next ∷ enqueued ticks task queue

-- the ticks of each sleeper, below half of the range of a word, where signed and unsigned agree
abbrev pub small_ticks : (ℕ → ℕ) → List ℕ → Bool
small_ticks ticks [] = true
small_ticks ticks (task ∷ queue) = ltb (ticks task) (2 ^ 31) && small_ticks ticks queue

signed_leb-small : (a b : ℕ) → a < 2 ^ 31 → b < 2 ^ 31 → signed_leb a b ≡ leb a b
signed_leb-small a b ha hb =
    let x : (a + 2 ^ 31) % word ≡ a + 2 ^ 31 = omega arith in
    let y : (b + 2 ^ 31) % word ≡ b + 2 ^ 31 = omega arith in rw (x, y) (ground arith)

module _ (tasks : ℕ → Task) where
  ticks : ℕ → ℕ
  ticks task = (tasks task).ticks

  key-node : (task : ℕ) → ticks_of tasks (node task) ≡ ticks task
  unfolding ticks
  key-node task = ap (λ t. (tasks t).ticks) {x = entry (node task)} (omega arith)

  insert_by-enqueued :
      (task : ℕ) (queue : List ℕ)
      → ticks task < 2 ^ 31
      → small_ticks ticks queue ≡ true
      → insert_by (ticks_of tasks) (node task) (nodes queue) ≡ nodes (enqueued ticks task queue)
  insert_by-enqueued task [] h small = refl
  insert_by-enqueued task (next ∷ queue) h small =
      let test : signed_leb (ticks_of tasks (node task)) (ticks_of tasks (node next))
          ≡ leb (ticks task) (ticks next) =
        rw (key-node task, key-node next)
          (signed_leb-small (ticks task) (ticks next) h (ground arith)) in
      elim (Bool-cases (leb (ticks task) (ticks next))) [
        | inl stop ↦ rw (test ∙ stop, stop) refl
        | inr go ↦
            rw (test ∙ go, go)
              (ap (λ q. node next ∷ q) (insert_by-enqueued task queue h (ground arith)))
      ]

ascending-cons :
    (ticks : ℕ → ℕ) (task next : ℕ) (queue : List ℕ)
    → leb (ticks task) (ticks next) ≡ false
    → ascending ticks (next ∷ queue) ≡ true
    → ascending ticks (next ∷ enqueued ticks task queue) ≡ true
ascending-cons ticks task next [] go up = ground arith
ascending-cons ticks task next (after ∷ queue) go up =
    elim (Bool-cases (leb (ticks task) (ticks after))) [
      | inl stop ↦ rw stop (ground arith)
      | inr on ↦ rw on (ground (arith, ascending-cons ticks task after queue on))
    ]

ascending-enqueued :
    (ticks : ℕ → ℕ) (task : ℕ) (queue : List ℕ)
    → ascending ticks queue ≡ true
    → ascending ticks (enqueued ticks task queue) ≡ true
ascending-enqueued ticks task [] up = refl
ascending-enqueued ticks task (next ∷ queue) up =
    elim (Bool-cases (leb (ticks task) (ticks next))) [
      | inl stop ↦ rw (stop, stop) up
      | inr go ↦ rw go (ascending-cons ticks task next queue go up)
    ]

-- the kernel with the wake-up time of the current task set
abbrev pub timed : Kernel → ℕ → ℕ → Task
timed k wait =
    update k.tasks k.current (record (k.tasks k.current) { ticks = (k.jiffies + wait) % word })

abbrev asleep : Kernel → ℕ → Links → Kernel
asleep k wait links = record k {
  links = links;
  tasks =
      update (timed k wait) k.current (record (timed k wait k.current) { state = task_sleeping });
}

timed-other :
    (k : Kernel) (wait task : ℕ)
    → k.current ≢ task
    → (timed k wait task).ticks ≡ (k.tasks task).ticks
timed-other k wait task apart = ap (λ t. t.ticks) (update-other k.tasks k.current _ task apart)

elem-nodes : (task : ℕ) (queue : List ℕ) → elem (node task) (nodes queue) ≡ elem task queue
elem-nodes task [] = refl
elem-nodes task (next ∷ queue) = ground (arith, elem-nodes task queue)

length-nodes : (queue : List ℕ) → length (nodes queue) ≡ length queue
length-nodes [] = refl
length-nodes (task ∷ queue) = ap suc (length-nodes queue)

both : {a b : Bool} → a ≡ true → b ≡ true → (a && b) ≡ true
both h k = ground arith

-- A queue without the current task is in order by the new ticks as by the old.
timed-queue :
    (k : Kernel) (wait : ℕ) (queue : List ℕ)
    → elem k.current queue ≡ false
    → ascending (λ t. (k.tasks t).ticks) queue ≡ true
    → small_ticks (λ t. (k.tasks t).ticks) queue ≡ true
    → (ascending (λ t. (timed k wait t).ticks) queue ≡ true)
      × (small_ticks (λ t. (timed k wait t).ticks) queue ≡ true)
timed-queue k wait [] out up small = (refl, refl)
timed-queue k wait (task ∷ []) out up small =
    (refl, rw (timed-other k wait task (ground arith)) small)
timed-queue k wait (task ∷ next ∷ queue) out up small =
    let (up', small') =
      timed-queue k wait (next ∷ queue) (ground arith) (ground arith) (ground arith) in
    let a = timed-other k wait task (ground arith) in
    let b = timed-other k wait next (ground arith) in
    (rw (a, b) (both (ground arith) up'), rw a (both (ground arith) small'))

-- the current task with its wake-up time, in the order of the queue
abbrev pub woken_at : Kernel → ℕ → ℕ → ℕ
woken_at k wait task = (timed k wait task).ticks

rest-ticks : (t : Task) → 0 < t.ticks → (rest t).ticks ≡ t.ticks
rest-ticks t some_left = ground arith

asleep-IsValid : (k : Kernel) (wait : ℕ) (links : Links) → IsValid k → IsValid (asleep k wait links)
asleep-IsValid k wait links v =
    let magic : (t : ℕ) → (timed k wait t).magic ≡ (k.tasks t).magic =
      λ t. update-field (λ t. t.magic) k.tasks k.current _ t refl in
    let runs : (t : ℕ)
        → in_state (timed k wait t) task_running ≡ in_state (k.tasks t) task_running =
      λ t. update-field (λ t. in_state t task_running) k.tasks k.current _ t refl in
    restated-IsValid {k = record k { tasks = timed k wait }} links k.current task_sleeping
      (record {
        off = v.off;
        idle = v.idle;
        idle_magic = magic k.idle_task ∙ v.idle_magic;
        magics = λ t here some_task. magic t ∙ v.magics t here some_task;
        alone = λ t now. v.alone t (sym (runs t) ∙ now);
      })
      (omega arith)

fall_asleep-ok :
    (k : Kernel) (fuel ms wait : ℕ) (queue : List ℕ)
    → k.irq ≡ false
    → IsList k.links k.sleeping_queue (nodes queue)
    → ascending (λ t. (k.tasks t).ticks) queue ≡ true
    → small_ticks (λ t. (k.tasks t).ticks) queue ≡ true
    → length queue < fuel
    → fresh (node k.current) k.sleeping_queue (nodes queue) ≡ true
    → node_free k.links (node k.current) ≡ ok true
    → 0 < ms
    → k.jiffies + wait < 2 ^ 31
    → div_round_up ms jiffy ≡ ok wait
    → (links : Links) × (fall_asleep fuel k ms ≡ ok (asleep k wait links))
      × IsList links k.sleeping_queue (nodes (enqueued (woken_at k wait) k.current queue))
unfolding fall_asleep ticks
fall_asleep-ok k fuel ms wait queue off is up small enough new free positive fits rounded =
    let out : elem k.current queue ≡ false = ground (arith, elem-nodes k.current queue) in
    let (_, small') = timed-queue k wait queue out up small in
    let deadline : (k.jiffies + wait) % word ≡ k.jiffies + wait = omega arith in
    let own : woken_at k wait k.current ≡ k.jiffies + wait =
      ap (λ t. t.ticks) (update-same k.tasks k.current _) ∙ deadline in
    let (links, done, is') =
      list_insert_sort-ok (ticks_of (timed k wait)) fuel (node k.current) is free
        (omega (arith, length-nodes queue)) new in
    let off' : not k.irq ≡ true = ground arith in
    let awake : ltb 0 ms ≡ true = ground arith in
    (
      links,
      rw (off', awake, rounded, done) refl,
      rw (← insert_by-enqueued (timed k wait) k.current queue (omega (arith, own)) small') is',
    )

-- On a valid kernel with a queue of sleepers in the order of their ticks, all below 2^31, with
-- `jiffies + ms + 10` below 2^31 too, and more rounds than sleepers, `task_sleep` of the current task (free,
-- not the idle one) for `ms` above 0 ends: the wait is `ms` in ticks of 10 ms rounded up, the task sleeps
-- in the queue, which is still in order, with `ticks` the time to wake at, and another task runs.
pub task_sleep_lem :
    {k : Kernel} (fuel ms : ℕ) (queue : List ℕ)
    → IsValid k
    → IsList k.links k.sleeping_queue (nodes queue)
    → ascending (λ t. (k.tasks t).ticks) queue ≡ true
    → small_ticks (λ t. (k.tasks t).ticks) queue ≡ true
    → length queue < fuel
    → fresh (node k.current) k.sleeping_queue (nodes queue) ≡ true
    → node_free k.links (node k.current) ≡ ok true
    → k.current ≢ k.idle_task
    → 0 < ms
    → k.jiffies + ms + jiffy < 2 ^ 31
    → (k' : Kernel) × (wait : ℕ) × (task_sleep fuel k ms ≡ ok k')
      × IsValid k'
      × (ms ≤ wait * jiffy)
      × (wait * jiffy < ms + jiffy)
      × IsList k'.links k.sleeping_queue (nodes (enqueued (woken_at k wait) k.current queue))
      × (ascending (woken_at k wait) (enqueued (woken_at k wait) k.current queue) ≡ true)
      × ((k'.tasks k.current).state ≡ task_sleeping)
      × ((k'.tasks k.current).ticks ≡ k.jiffies + wait)
      × (k'.current ≢ k.current)
unfolding task_sleep
task_sleep_lem {k} fuel ms queue v is up small enough new free awake positive fits =
    let (wait, rounded, low, high) = div_round_up_lem ms jiffy (omega arith) (omega arith) in
    let (links, done, is') =
      fall_asleep-ok k fuel ms wait queue v.off is up small enough new free positive (omega arith)
        rounded in
    let own : (timed k wait k.current).ticks ≡ k.jiffies + wait =
      ap (λ t. t.ticks) (update-same k.tasks k.current _) ∙ omega arith in
    let same : (asleep k wait links).tasks k.current
        ≡ record (timed k wait k.current) { state = task_sleeping } =
      update-same (timed k wait) k.current _ in
    let out : elem k.current queue ≡ false = ground (arith, elem-nodes k.current queue) in
    let (k', switched, v', kept, resting, state, left) =
      schedule-waiting {k = asleep k wait links} k.current (asleep-IsValid k wait links v) refl
        awake (rw same (omega arith)) in
    (
      k',
      wait,
      rw done switched,
      v',
      low,
      high,
      rw kept is',
      ascending-enqueued (woken_at k wait) k.current queue
          (timed-queue k wait queue out up small).0,
      state ∙ ap (λ t. t.state) same,
      ap (λ t. t.ticks) (resting ∙ ap rest same)
          ∙ rest-ticks (record (timed k wait k.current) { state = task_sleeping })
              (omega (arith, own))
          ∙ own,
      left,
    )
