-- ===== src/Task/Wakeup.antt =====
-- `task_wakeup`: the tasks whose time has come.
use txos.Base.{
  ℕ, zero, suc, ◌<◌, ◌≡◌, refl, ◌∙◌, ap, Bool, true, false, not, ◌&&◌, List, [], ◌∷◌, inl, inr,
  arith, elem, null, ok, length, ◌==◌, ltb, leb, if◌then◌else◌, update, update-field, Bool-cases,
  ==_iff,
}
use txos.NodeList.{head, tail}
use txos.NodeList.Shape.{IsList, after, removed, removed-IsList}
use txos.NodeList.Insert.{next-before, list_remove-ok, node_free-removed}
use txos.NodeList.Walk.{load_next-ok}
use txos.Task.{Kernel, Task, task_ready, node, entry, wake_from, task_wakeup, ticks_of}
use txos.Task.Schedule.{IsValid}
use txos.Task.Queues.{restated, restated-IsValid}

-- the nodes of tasks
abbrev pub nodes : List ℕ → List ℕ
nodes [] = []
nodes (task ∷ queue) = node task ∷ nodes queue

-- the tasks of a queue that pass a test
abbrev pub keep : (ℕ → Bool) → List ℕ → List ℕ
keep test [] = []
keep test (task ∷ queue) = if test task then task ∷ keep test queue else keep test queue

-- no task of the queue is to wake before the one ahead of it
abbrev pub ascending : (ℕ → ℕ) → List ℕ → Bool
ascending ticks [] = true
ascending ticks (task ∷ []) = true
ascending ticks (task ∷ next ∷ queue) =
    leb (ticks task) (ticks next) && ascending ticks (next ∷ queue)

-- `task` has its time behind it at `now`
abbrev pub is_due : (ℕ → ℕ) → ℕ → ℕ → Bool
is_due ticks now task = not (ltb now (ticks task))

-- the tasks of `woken` made ready
abbrev pub made_ready : (ℕ → Task) → List ℕ → ℕ → Task
made_ready tasks woken task =
    if elem task woken then record (tasks task) { state = task_ready } else tasks task

late-all :
    (ticks : ℕ → ℕ) (now task : ℕ) (queue : List ℕ)
    → ascending ticks (task ∷ queue) ≡ true
    → is_due ticks now task ≡ false
    → (keep (λ t. not (is_due ticks now t)) queue ≡ queue) × (keep (is_due ticks now) queue ≡ [])
late-all ticks now task [] up late = (refl, refl)
late-all ticks now task (next ∷ queue) up late =
    let late' : is_due ticks now next ≡ false = ground arith in
    let (a, b) = late-all ticks now next queue (ground arith) late' in
    (rw late' (ap (λ q. next ∷ q) a), rw late' b)

-- a task made ready, and others after it
made_ready-update :
    (tasks : ℕ → Task) (first : ℕ) (woken : List ℕ) (task : ℕ)
    → made_ready (update tasks first (record (tasks first) { state = task_ready })) woken task
      ≡ made_ready tasks (first ∷ woken) task
made_ready-update tasks first woken task = elim (Bool-cases (first == task)) [
  | inl same ↦ elim (Bool-cases (elem task woken)) [
    | inl again ↦
        rw (same, again)
          (ap (λ t. record (tasks t) { state = task_ready }) ((==_iff first task).0 same))
    | inr once ↦
        rw (same, once)
          (ap (λ t. record (tasks t) { state = task_ready }) ((==_iff first task).0 same))
  ]
  | inr other ↦ rw other refl
]

-- What the loop leaves of a queue of sleepers `queue`.
pub record Woken (k k' : Kernel) (ticks : ℕ → ℕ) (queue : List ℕ) : Type 0 where
  pub valid : IsValid k'
  pub asleep :
      IsList k'.links k.sleeping_queue (nodes (keep (λ t. not (is_due ticks k.jiffies t)) queue))
  pub tasks :
      (task : ℕ) → k'.tasks task ≡ made_ready k.tasks (keep (is_due ticks k.jiffies) queue) task
  pub current : k'.current ≡ k.current
  pub jiffies : k'.jiffies ≡ k.jiffies

-- one round of the loop
wake_from-due :
    (fuel : ℕ) (k : Kernel) (task : ℕ) (queue : List ℕ)
    → k.irq ≡ false
    → IsList k.links k.sleeping_queue (nodes (task ∷ queue))
    → is_due (λ t. (k.tasks t).ticks) k.jiffies task ≡ true
    → let links =
        removed k.links
          (head k.sleeping_queue)
          (after k.sleeping_queue (nodes queue))
          (node task) in
      wake_from (suc fuel) k (node task)
      ≡ wake_from fuel (restated k links task task_ready) (after k.sleeping_queue (nodes queue))
unfolding wake_from
wake_from-due fuel k task queue off is due =
    let l = k.sleeping_queue in
    let back : entry (node task) ≡ task = omega arith in
    let here : (node task == tail l) ≡ false = ground (arith, is.apart) in
    let due' : ltb k.jiffies (ticks_of k.tasks (node task)) ≡ false =
      rw (ticks_of, back) (ground arith) in
    let there : (node task == null) ≡ false = ground arith in
    let off' : not k.irq ≡ true = ground arith in
    let next : k.links.next (node task) ≡ after l (nodes queue) =
      next-before (node task ∷ []) (nodes queue) is in
    rw
      (
        here,
        due',
        back,
        there,
        off',
        list_remove-ok [] (nodes queue) (node task) is,
        node_free-removed [] (nodes queue) (node task) is,
        next,
      )
      refl

ascending-tail :
    (ticks : ℕ → ℕ) (task : ℕ) (queue : List ℕ)
    → ascending ticks (task ∷ queue) ≡ true
    → ascending ticks queue ≡ true
ascending-tail ticks task [] up = refl
ascending-tail ticks task (next ∷ queue) up = ground arith

wake_from-late :
    (fuel : ℕ) (k : Kernel) (task : ℕ) (queue : List ℕ)
    → IsList k.links k.sleeping_queue (nodes (task ∷ queue))
    → is_due (λ t. (k.tasks t).ticks) k.jiffies task ≡ false
    → wake_from (suc fuel) k (node task) ≡ ok k
unfolding wake_from
wake_from-late fuel k task queue is late =
    let back : entry (node task) ≡ task = omega arith in
    let here : (node task == tail k.sleeping_queue) ≡ false = ground (arith, is.apart) in
    let late' : ltb k.jiffies (ticks_of k.tasks (node task)) ≡ true =
      rw (ticks_of, back) (ground arith) in
    rw (here, late') refl

pub wake_from-Woken :
    (fuel : ℕ) (k : Kernel) (ticks : ℕ → ℕ) (queue : List ℕ)
    → IsValid k
    → ((task : ℕ) → (k.tasks task).ticks ≡ ticks task)
    → IsList k.links k.sleeping_queue (nodes queue)
    → ascending ticks queue ≡ true
    → length queue < fuel
    → (k' : Kernel) × (wake_from fuel k (after k.sleeping_queue (nodes queue)) ≡ ok k')
      × Woken k k' ticks queue
unfolding wake_from
wake_from-Woken zero k ticks queue v same is up enough = absurd (omega arith)
wake_from-Woken (suc fuel) k ticks [] v same is up enough = (
  k,
  ground arith,
  record { valid = v; asleep = is; tasks = λ task. refl; current = refl; jiffies = refl },
)
wake_from-Woken (suc fuel) k ticks (task ∷ queue) v same is up enough =
    elim (Bool-cases (is_due ticks k.jiffies task)) [
      | inr late ↦
          let (still, none_due) = late-all ticks k.jiffies task queue up late in
          (
            k,
            wake_from-late fuel k task queue is (rw (same task) late),
            record {
              valid = v;
              asleep = rw (late, still) is;
              tasks = λ t. rw (late, none_due) refl;
              current = refl;
              jiffies = refl;
            },
          )
      | inl due ↦
          let links =
            removed k.links (head k.sleeping_queue) (after k.sleeping_queue (nodes queue))
              (node task) in
          let woken = restated k links task task_ready in
          let (k', done, w) =
            wake_from-Woken fuel woken ticks queue
              (restated-IsValid links task task_ready v (omega arith))
              (λ t. update-field (λ t. t.ticks) k.tasks task _ t refl ∙ same t)
              (removed-IsList [] (nodes queue) (node task) is) (ascending-tail ticks task queue up)
              (omega arith) in
          (
            k',
            wake_from-due fuel k task queue v.off is (rw (same task) due) ∙ done,
            record {
              valid = w.valid;
              asleep = rw due w.asleep;
              tasks = λ t. rw due (
                  w.tasks t
                  ∙ made_ready-update k.tasks task (keep (is_due ticks k.jiffies) queue) t);
              current = w.current;
              jiffies = w.jiffies;
            },
          )
    ]

-- Of a queue of sleepers in the order of their ticks `task_wakeup` ends, given more rounds than there
-- are tasks: just those whose ticks are at most `jiffies` leave it and become ready (nothing else in
-- them changes, their ticks neither), the others stay in order, and the kernel stays valid.
pub task_wakeup_lem :
    {k : Kernel} (fuel : ℕ) (queue : List ℕ)
    → IsValid k
    → IsList k.links k.sleeping_queue (nodes queue)
    → ascending (λ t. (k.tasks t).ticks) queue ≡ true
    → length queue < fuel
    → (k' : Kernel) × (task_wakeup fuel k ≡ ok k') × Woken k k' (λ t. (k.tasks t).ticks) queue
unfolding task_wakeup
task_wakeup_lem {k} fuel queue v is up enough =
    let (k', done, w) =
      wake_from-Woken fuel k (λ t. (k.tasks t).ticks) queue v (λ t. refl) is up enough in
    let off : not k.irq ≡ true = ground (arith, v.off) in
    (
      k',
      rw
          (
            off,
            load_next-ok k.links (head k.sleeping_queue) (ground (arith, is.apart)),
            next-before [] (nodes queue) is,
          )
          done,
      w,
    )
