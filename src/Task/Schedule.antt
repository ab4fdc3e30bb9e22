-- ===== src/Task/Schedule.antt =====
-- `schedule`: one task runs, the current one.
use txos.Base.{
  ℕ, ◌+◌, ◌%◌, ◌≡◌, ◌≢◌, refl, sym, ◌∙◌, ap, update-same, update-other, update-field, ==_ne, ◌>>=◌,
  Bool, true, false, ◌⊎◌, inl, inr, arith, elem, null, ok, ◌==◌, if◌then◌else◌, update, Bool-cases,
  ==_iff,
}
use txos.Stdlib.{word}
use txos.Task.{
  Kernel, Task, TaskState, task_ready, task_running, in_state, rest, xos_magic, task_search,
  task_activate, schedule,
}
use txos.Task.Search.{candidate, Chosen, Chosen-candidate, Chosen-elem, task_search_lem}

-- Interrupts are off, the magic numbers are in place, and no task but the current one runs.
pub record IsValid (k : Kernel) : Type 0 where
  pub off : k.irq ≡ false
  pub idle : k.idle_task ≢ null
  pub idle_magic : (k.tasks k.idle_task).magic ≡ xos_magic
  pub magics :
      (task : ℕ) → elem task k.task_queue ≡ true → task ≢ null → (k.tasks task).magic ≡ xos_magic
  pub alone : (task : ℕ) → in_state (k.tasks task) task_running ≡ true → task ≡ k.current

-- the tasks when `next` runs in place of `current`
abbrev pub handed_over : (ℕ → Task) → (current next : ℕ) → ℕ → Task
handed_over tasks current next =
    let tasks' = update tasks current (rest (tasks current)) in
    update tasks' next (record (tasks' next) { state = task_running })

-- the kernel with `next` on the processor
abbrev pub activated : Kernel → ℕ → Kernel
activated k next = record k {
  cr3 = if (k.tasks next).page_dir == k.cr3 then k.cr3 else (k.tasks next).page_dir;
  esp0 = if (k.tasks next).uid == 0 then k.esp0 else (next + 0x1000) % word;
}

abbrev pub scheduled : Kernel → ℕ → Kernel
scheduled k next =
    let k' = record k { tasks = handed_over k.tasks k.current next } in
    if next == k.current then k' else record (activated k' next) { current = next }

module _ (tasks : ℕ → Task) (current next : ℕ) where
  -- what the hand-over keeps of each task
  pub handed_over-field {ℓ} :
      {A : Type ℓ} (field : Task → A)
      → ((task : Task) (state : TaskState) → field (record task { state = state }) ≡ field task)
      → ((task : Task) → field (rest task) ≡ field task)
      → (task : ℕ) → field (handed_over tasks current next task) ≡ field (tasks task)
  handed_over-field field kept kept_rest task =
      let tasks' = update tasks current (rest (tasks current)) in
      update-field field tasks' next (record (tasks' next) { state = task_running }) task
        (kept (tasks' next) task_running)
      ∙ update-field field tasks current (rest (tasks current)) task (kept_rest (tasks current))

  pub handed_over-other :
      (task : ℕ) → task ≢ current → task ≢ next → handed_over tasks current next task ≡ tasks task
  handed_over-other task a b =
      update-other (update tasks current (rest (tasks current))) next _ task (λ e. b (sym e))
      ∙ update-other tasks current _ task (λ e. a (sym e))

  pub handed_over-current :
      next ≢ current → handed_over tasks current next current ≡ rest (tasks current)
  handed_over-current apart =
      update-other (update tasks current (rest (tasks current))) next _ current apart
      ∙ update-same tasks current _

  pub handed_over-next : in_state (handed_over tasks current next next) task_running ≡ true
  handed_over-next =
      ap (λ task. in_state task task_running)
        (update-same (update tasks current (rest (tasks current))) next _)

rest-not_running : (task : Task) → in_state (rest task) task_running ≡ false
rest-not_running task = elim (Bool-cases (in_state task task_running)) [
  | inl runs ↦ ground arith
  | inr stopped ↦ ground arith
]

task_activate-at :
    (k : Kernel) (next : ℕ)
    → (k.tasks next).magic ≡ xos_magic
    → task_activate k next ≡ ok (activated k next)
unfolding task_activate
task_activate-at k next magic = rw magic refl

schedule-at :
    (k : Kernel) (next : ℕ)
    → task_search k task_ready ≡ ok next
    → next ≢ null
    → (k.tasks next).magic ≡ xos_magic
    → schedule k ≡ ok (scheduled k next)
unfolding schedule
schedule-at k next found some_task magic =
    let kept =
      handed_over-field k.tasks k.current next (λ t. t.magic) (λ t s. refl) (λ t. refl) next
      ∙ magic in
    let test : ((k.tasks next).magic == xos_magic) ≡ true = (==_iff _ _).1 magic in
    let k' = record k { tasks = handed_over k.tasks k.current next } in
    let switch : (do k'' ← task_activate k' next; ok (record k'' { current = next }))
        ≡ ok (record (activated k' next) { current = next }) =
      rw (task_activate-at k' next kept) refl in
    elim (Bool-cases (next == k.current)) [
      | inl same ↦ rw (found, ==_ne next null some_task, test, same) refl
      | inr other ↦ rw (found, ==_ne next null some_task, test, other) switch
    ]

-- What `schedule` does to a kernel: `next` runs, the task before it is at rest, the others are as
-- they were, and the address space is that of `next` whenever it changes the processor.
pub record Switched (k k' : Kernel) : Type 0 where
  pub runs : in_state (k'.tasks k'.current) task_running ≡ true
  pub rests : k'.current ≢ k.current → k'.tasks k.current ≡ rest (k.tasks k.current)
  pub others : (task : ℕ) → task ≢ k.current → task ≢ k'.current → k'.tasks task ≡ k.tasks task
  pub space : k'.current ≢ k.current → k'.cr3 ≡ (k.tasks k'.current).page_dir
  pub links : k'.links ≡ k.links
  pub clock : k'.jiffies ≡ k.jiffies

apart : {a b : ℕ} → (a == b) ≡ false → a ≢ b
apart h e = ground arith

clash : {b : Bool} → b ≡ true → b ≡ false → ⊥
clash h k = ground arith

either : (a b : ℕ) → (if a == b then b else a) ≡ a
either a b = ground arith

module _ (k : Kernel) (next : ℕ) where
  -- the four fields that may change, each by itself
  scheduled-tasks : (scheduled k next).tasks ≡ handed_over k.tasks k.current next
  scheduled-tasks = elim (Bool-cases (next == k.current)) [
    | inl same ↦ rw same refl
    | inr other ↦ rw other refl
  ]

  scheduled-current : (scheduled k next).current ≡ next
  scheduled-current = elim (Bool-cases (next == k.current)) [
    | inl same ↦ rw same (sym ((==_iff _ _).0 same))
    | inr other ↦ rw other refl
  ]

  scheduled-cr3 : next ≢ k.current → (scheduled k next).cr3 ≡ (k.tasks next).page_dir
  scheduled-cr3 apart = rw (==_ne next k.current apart) (
      either _ k.cr3
      ∙ handed_over-field k.tasks k.current next (λ t. t.page_dir) (λ t s. refl) (λ t. refl) next)

  scheduled-keeps {ℓ} :
      {A : Type ℓ} (field : Kernel → A)
      → ((k : Kernel) (tasks : ℕ → Task) (current cr3 esp0 : ℕ)
          → field (record k { tasks = tasks; current = current; cr3 = cr3; esp0 = esp0 }) ≡ field k)
      → field (scheduled k next) ≡ field k
  scheduled-keeps field kept = elim (Bool-cases (next == k.current)) [
    | inl same ↦ rw same (kept k _ _ _ _)
    | inr other ↦ rw other (kept k _ _ _ _)
  ]

  scheduled-Switched : Switched k (scheduled k next)
  scheduled-Switched = record {
    runs = rw (scheduled-tasks, scheduled-current) (handed_over-next k.tasks k.current next);
    rests = λ apart.
        rw scheduled-tasks
          (handed_over-current k.tasks k.current next (rw scheduled-current at apart));
    others = λ task a b.
        rw scheduled-tasks
          (handed_over-other k.tasks k.current next task a (rw scheduled-current at b));
    space = λ apart.
        scheduled-cr3 (rw scheduled-current at apart)
        ∙ ap (λ t. (k.tasks t).page_dir) (sym scheduled-current);
    links = scheduled-keeps (λ k. k.links) (λ k t c p e. refl);
    clock = scheduled-keeps (λ k. k.jiffies) (λ k t c p e. refl);
  }

  only_next :
      IsValid k
      → (task : ℕ) → in_state (handed_over k.tasks k.current next task) task_running ≡ true
      → task ≡ next
  only_next v task runs = elim (Bool-cases (task == next)) [
    | inl same ↦ (==_iff _ _).0 same
    | inr other ↦ elim (Bool-cases (task == k.current)) [
      | inl was ↦
          let e = (==_iff task k.current).0 was in
          let resting : handed_over k.tasks k.current next task ≡ rest (k.tasks k.current) =
            rw e (handed_over-current k.tasks k.current next (λ n. apart other (e ∙ sym n))) in
          absurd (clash (rw resting at runs) (rest-not_running (k.tasks k.current)))
      | inr not_was ↦
          let kept = handed_over-other k.tasks k.current next task (apart not_was) (apart other) in
          absurd (apart not_was (v.alone task (rw kept at runs)))
    ]
  ]

  -- Only the next task is marked as running, and the rest of the invariant does not change.
  scheduled-IsValid : IsValid k → IsValid (scheduled k next)
  scheduled-IsValid v =
      let magic =
        handed_over-field k.tasks k.current next (λ t. t.magic) (λ t s. refl) (λ t. refl) in
      record {
        off = scheduled-keeps (λ k. k.irq) (λ k t c p e. refl) ∙ v.off;
        idle = rw (scheduled-keeps (λ k. k.idle_task) (λ k t c p e. refl)) v.idle;
        idle_magic =
            rw (scheduled-tasks, scheduled-keeps (λ k. k.idle_task) (λ k t c p e. refl))
              (magic k.idle_task ∙ v.idle_magic);
        magics = λ task here some_task. rw scheduled-tasks (
            magic task
            ∙ v.magics task (rw (scheduled-keeps (λ k. k.task_queue) (λ k t c p e. refl)) at here)
                some_task);
        alone = λ task runs. rw scheduled-current (only_next v task (rw scheduled-tasks at runs));
      }

pub schedule_lem :
    {k : Kernel}
    → IsValid k
    → (k' : Kernel) × (schedule k ≡ ok k')
      × IsValid k'
      × Switched k k'
      × (Chosen k.tasks k.current task_ready k.task_queue k'.current
          ⊎ (((task : ℕ)
                → elem task k.task_queue ≡ true
                → candidate k.tasks k.current task_ready task ≡ false)
              × (k'.current ≡ k.idle_task)))
schedule_lem {k} v =
    let (next, found, cases) = task_search_lem k task_ready v.off in
    elim cases [
      | inl c ↦
          let fits = Chosen-candidate k.tasks k.current task_ready c in
          let some_task : next ≢ null = ground arith in
          let magic = v.magics next (Chosen-elem k.tasks k.current task_ready c) some_task in
          (
            scheduled k next,
            schedule-at k next found some_task magic,
            scheduled-IsValid k next v,
            scheduled-Switched k next,
            inl (rw (scheduled-current k next) c),
          )
      | inr (none_fits, same) ↦ (
        scheduled k next,
        schedule-at k next found (rw same v.idle) (rw same v.idle_magic),
        scheduled-IsValid k next v,
        scheduled-Switched k next,
        inr (none_fits, scheduled-current k next ∙ same),
      )
    ]
