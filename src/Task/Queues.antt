-- ===== src/Task/Queues.antt =====
-- Tasks that enter and leave the queues of waiting tasks.
use mathlib.Core.List.{append-nil}
use txos.Base.{
  ℕ, ◌<◌, ◌≡◌, ◌≢◌, refl, sym, ◌∙◌, ap, true, false, List, [], ◌∷◌, ◌++◌, inl, inr, arith, null, ok,
  length, ◌==◌, if◌then◌else◌, update, update-same, update-field, Bool-cases, ==_iff, ==_ne,
}
use txos.NodeList.{Links, node_free, tail}
use txos.NodeList.Shape.{
  IsList, fresh, before, after, removed, inserted, removed-IsList, inserted-IsList,
}
use txos.NodeList.Insert.{list_remove-ok, node_free-removed}
use txos.NodeList.Ends.{list_push_back-ok}
use txos.Task.{
  Kernel, Task, TaskState, task_ready, task_running, state_value, in_state, rest, node, schedule,
  task_block, task_unblock,
}
use txos.Task.Search.{Chosen-candidate}
use txos.Task.Schedule.{IsValid, schedule_lem}

-- `task` in another state, and other links
abbrev pub restated : Kernel → Links → ℕ → TaskState → Kernel
restated k links task state = record k {
  links = links;
  tasks = update k.tasks task (record (k.tasks task) { state = state });
}

restated-magic :
    (tasks : ℕ → Task) (task : ℕ) (state : TaskState) (at : ℕ)
    → (update tasks task (record (tasks task) { state = state }) at).magic ≡ (tasks at).magic
restated-magic tasks task state at = update-field (λ t. t.magic) tasks task _ at refl

restated-running :
    (tasks : ℕ → Task) (task : ℕ) (state : TaskState) (at : ℕ)
    → state_value state ≢ state_value task_running
    → in_state (update tasks task (record (tasks task) { state = state }) at) task_running ≡ true
    → in_state (tasks at) task_running ≡ true
restated-running tasks task state at other runs = elim (Bool-cases (task == at)) [
  | inl here ↦ absurd (other ((==_iff _ _).0 (rw here at runs)))
  | inr there ↦ rw there at runs
]

-- A change to a state other than running keeps the kernel valid.
pub restated-IsValid :
    {k : Kernel} (links : Links) (task : ℕ) (state : TaskState)
    → IsValid k
    → state_value state ≢ state_value task_running
    → IsValid (restated k links task state)
restated-IsValid {k} links task state v other = record {
  off = v.off;
  idle = v.idle;
  idle_magic = restated-magic k.tasks task state k.idle_task ∙ v.idle_magic;
  magics = λ at here some_task. restated-magic k.tasks task state at ∙ v.magics at here some_task;
  alone = λ at runs. v.alone at (restated-running k.tasks task state at other runs);
}

pub task_unblock-ok :
    (k : Kernel) {l : ℕ} (xs ys : List ℕ) (task : ℕ)
    → k.irq ≡ false
    → IsList k.links l (xs ++ node task ∷ ys)
    → task_unblock k task
      ≡ ok (restated k (removed k.links (before l xs) (after l ys) (node task)) task task_ready)
unfolding task_unblock
task_unblock-ok k xs ys task off is =
    rw (off, list_remove-ok xs ys (node task) is, node_free-removed xs ys (node task) is) refl

-- `task_unblock` of a task whose node is in a list takes just that node out, leaves it free, makes
-- the task ready, and keeps the kernel valid.
pub task_unblock_lem :
    {k : Kernel} {l : ℕ} (xs ys : List ℕ) (task : ℕ)
    → IsValid k
    → IsList k.links l (xs ++ node task ∷ ys)
    → (k' : Kernel) × (task_unblock k task ≡ ok k')
      × IsValid k'
      × IsList k'.links l (xs ++ ys)
      × (node_free k'.links (node task) ≡ ok true)
      × ((k'.tasks task).state ≡ task_ready)
      × (k'.current ≡ k.current)
task_unblock_lem {k} {l} xs ys task v is =
    let links = removed k.links (before l xs) (after l ys) (node task) in
    (
      restated k links task task_ready,
      task_unblock-ok k xs ys task v.off is,
      restated-IsValid links task task_ready v (omega arith),
      removed-IsList xs ys (node task) is,
      node_free-removed xs ys (node task) is,
      ap (λ t. t.state) (update-same k.tasks task _),
      refl,
    )

-- the list that `task_block` is to use
abbrev pub queue_or : Kernel → ℕ → ℕ
queue_or k blocked_list = if blocked_list == null then k.blocked_queue else blocked_list

pub push_node-IsList :
    {s : Links} {l : ℕ} (xs : List ℕ) (n : ℕ)
    → IsList s l xs
    → fresh n l xs ≡ true
    → IsList (inserted s (before l xs) (tail l) n) l (xs ++ n ∷ [])
push_node-IsList {s} {l} xs n is new =
    let is' : IsList s l (xs ++ []) = rw append-nil is in
    let new' : fresh n l (xs ++ []) ≡ true = rw append-nil new in inserted-IsList xs [] n is' new'

module _ {k : Kernel} (fuel task blocked_list : ℕ) (state : TaskState) (xs : List ℕ) (v : IsValid k)
    (is : IsList k.links (queue_or k blocked_list) xs) (enough : length xs < fuel)
    (new : fresh (node task) (queue_or k blocked_list) xs ≡ true)
    (free : node_free k.links (node task) ≡ ok true) where
  blocked : Kernel
  blocked =
      restated k
        (inserted k.links (before (queue_or k blocked_list) xs) (tail (queue_or k blocked_list))
          (node task))
        task state

  task_block_other :
      (k.current == task) ≡ false → task_block fuel k task blocked_list state ≡ ok blocked
  unfolding task_block blocked
  task_block_other other =
      rw (v.off, free, list_push_back-ok fuel (node task) xs is enough new, other) refl

  task_block_self :
      (k.current == task) ≡ true → task_block fuel k task blocked_list state ≡ schedule blocked
  unfolding task_block blocked
  task_block_self self =
      rw (v.off, free, list_push_back-ok fuel (node task) xs is enough new, self) refl

rest-state : (t : Task) → state_value t.state ≢ state_value task_running → (rest t).state ≡ t.state
rest-state t other = rw (==_ne (state_value t.state) 1 other) refl

-- Once the current task, not the idle one, waits, `schedule` runs another and leaves it waiting.
pub schedule-waiting :
    {k : Kernel} (task : ℕ)
    → IsValid k
    → k.current ≡ task
    → task ≢ k.idle_task
    → state_value (k.tasks task).state ≢ state_value task_running
    → (k' : Kernel) × (schedule k ≡ ok k')
      × IsValid k'
      × (k'.links ≡ k.links)
      × (k'.tasks task ≡ rest (k.tasks task))
      × ((k'.tasks task).state ≡ (k.tasks task).state)
      × (k'.current ≢ task)
schedule-waiting {k} task v here awake waits =
    let (k', done, v', s, which) = schedule_lem v in
    let leaves : k'.current ≢ k.current = elim which [
      | inl c ↦ let fits = Chosen-candidate k.tasks k.current task_ready c in ground arith
      | inr (_, same) ↦ λ e. awake (sym here ∙ sym e ∙ same)
    ] in
    let kept : k'.tasks task ≡ rest (k.tasks task) = rw here at (s.rests leaves) in
    (
      k',
      done,
      v',
      s.links,
      kept,
      ap (λ t. t.state) kept ∙ rest-state (k.tasks task) waits,
      λ e. leaves (e ∙ sym here),
    )

-- On a valid kernel, with more rounds than nodes, `task_block` of a task other than the idle one,
-- whose node is free, puts the node at the end of the list (the default one for NULL) and the task in
-- the state asked for, if that is not running; afterwards another task is on the processor.
pub task_block_lem :
    {k : Kernel} (fuel task blocked_list : ℕ) (state : TaskState) (xs : List ℕ)
    → IsValid k
    → IsList k.links (queue_or k blocked_list) xs
    → length xs < fuel
    → fresh (node task) (queue_or k blocked_list) xs ≡ true
    → node_free k.links (node task) ≡ ok true
    → state_value state ≢ state_value task_running
    → task ≢ k.idle_task
    → (k' : Kernel) × (task_block fuel k task blocked_list state ≡ ok k')
      × IsValid k'
      × IsList k'.links (queue_or k blocked_list) (xs ++ node task ∷ [])
      × ((k'.tasks task).state ≡ state)
      × (k'.current ≢ task)
unfolding blocked
task_block_lem {k} fuel task blocked_list state xs v is enough new free waits awake =
    let l = queue_or k blocked_list in
    let grown = push_node-IsList xs (node task) is new in
    let links = inserted k.links (before l xs) (tail l) (node task) in
    let v' = restated-IsValid links task state v waits in
    let set : (update k.tasks task (record (k.tasks task) { state = state }) task).state ≡ state =
      ap (λ t. t.state) (update-same k.tasks task _) in
    elim (Bool-cases (k.current == task)) [
      | inr other ↦ (
        restated k links task state,
        task_block_other fuel task blocked_list state xs v is enough new free other,
        v',
        grown,
        set,
        λ e. absurd (ground arith),
      )
      | inl self ↦
          let waits' : state_value
                (update k.tasks task (record (k.tasks task) { state = state }) task).state
              ≢ state_value task_running =
            rw set waits in
          let (k', done, v'', kept, _, same, left) =
            schedule-waiting {k = restated k links task state} task v'
              ((==_iff k.current task).0 self) awake waits' in
          (
            k',
            task_block_self fuel task blocked_list state xs v is enough new free self ∙ done,
            v'',
            rw kept grown,
            same ∙ set,
            left,
          )
    ]
