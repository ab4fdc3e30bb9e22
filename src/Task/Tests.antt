-- ===== src/Task/Tests.antt =====
-- An idle task, a running one and a sleeper, and the theorems at them.
use txos.Base.{
  ℕ, ◌+◌, ◌*◌, ◌<◌, ◌≤◌, ◌≡◌, ◌≢◌, refl, true, false, [], ◌∷◌, ◌⊎◌, arith, ok, elem, if◌then◌else◌,
  ◌==◌, null,
}
use txos.NodeList.{Links, node_free}
use txos.NodeList.Shape.{IsList}
use txos.Task.{
  Kernel, Task, task_running, task_ready, task_sleeping, xos_magic, jiffy, task_search, schedule,
  task_sleep, task_wakeup, clock_handler,
}
use txos.Task.Search.{candidate, Chosen, task_search_lem}
use txos.Task.Schedule.{IsValid, Switched}
use txos.Task.Wakeup.{nodes, ascending, Woken, task_wakeup_lem}
use txos.Task.Tick.{ticked, clock_handler_lem}
use txos.Task.Sleep.{enqueued, woken_at, task_sleep_lem}

abbrev idle_tcb : Task
idle_tcb = record {
  state = task_ready;
  priority = 1;
  ticks = 1;
  jiffies = 0;
  uid = 0;
  page_dir = 0x1000;
  magic = xos_magic;
}

abbrev running_tcb : Task
running_tcb = record {
  state = task_running;
  priority = 5;
  ticks = 3;
  jiffies = 60;
  uid = 1;
  page_dir = 0x40000;
  magic = xos_magic;
}

abbrev sleeping_tcb : Task
sleeping_tcb = record {
  state = task_sleeping;
  priority = 5;
  ticks = 50;
  jiffies = 20;
  uid = 0;
  page_dir = 0x1000;
  magic = xos_magic;
}

-- the sleeper is alone in the sleeping queue at 0x600; the blocked queue at 0x700 is empty
abbrev links : Links
links = record {
  prev = λ p.
      if p == 0x12004
      then 0x600
      else if p == 0x608
      then 0x12004
      else if p == 0x708
      then 0x700
      else null;
  next = λ p.
      if p == 0x600
      then 0x12004
      else if p == 0x12004
      then 0x608
      else if p == 0x700
      then 0x708
      else null;
}

abbrev k : Kernel
k = record {
  task_queue = 0x10000 ∷ 0x11000 ∷ 0x12000 ∷ 0 ∷ [];
  blocked_queue = 0x700;
  sleeping_queue = 0x600;
  idle_task = 0x10000;
  jiffies = 60;
  tasks =
      λ t. if t == 0x11000 then running_tcb else if t == 0x12000 then sleeping_tcb else idle_tcb;
  links = links;
  current = 0x11000;
  irq = false;
  cr3 = 0x40000;
  esp0 = 0x12000;
}

k-magics : (t : ℕ) → (k.tasks t).magic ≡ xos_magic
k-magics t = ground arith

k-IsValid : IsValid k
k-IsValid = record {
  off = refl;
  idle = omega arith;
  idle_magic = refl;
  magics = λ t here some_task. k-magics t;
  alone = λ t runs. ground arith;
}

sleepers-IsList : IsList links 0x600 (0x12004 ∷ [])
sleepers-IsList = record {
  nexts = (refl, refl);
  prevs = (refl, refl);
  front = refl;
  back = refl;
  apart = refl;
}

blocked-IsList : IsList links 0x700 []
blocked-IsList = record { nexts = refl; prevs = refl; front = refl; back = refl; apart = refl }

new_node_free : node_free links 0x11004 ≡ ok true
unfolding node_free
new_node_free = refl

task_search_lem_example :
    (result : ℕ) × (task_search k task_ready ≡ ok result)
    × (Chosen k.tasks 0x11000 task_ready k.task_queue result
        ⊎ (((task : ℕ)
              → elem task k.task_queue ≡ true
              → candidate k.tasks 0x11000 task_ready task ≡ false)
            × (result ≡ 0x10000)))
task_search_lem_example = task_search_lem k task_ready refl

-- the default list for NULL
-- the time 50 of the sleeper is over at 60
task_wakeup_lem_example :
    (k' : Kernel) × (task_wakeup 2 k ≡ ok k') × Woken k k' (λ t. (k.tasks t).ticks) (0x12000 ∷ [])
task_wakeup_lem_example =
    task_wakeup_lem {k = k} 2 (0x12000 ∷ []) k-IsValid sleepers-IsList refl (omega arith)

-- 25 ms are three ticks
task_sleep_lem_example :
    (k' : Kernel) × (wait : ℕ) × (task_sleep 2 k 25 ≡ ok k')
    × IsValid k'
    × (25 ≤ wait * jiffy)
    × (wait * jiffy < 25 + jiffy)
    × IsList k'.links 0x600 (nodes (enqueued (woken_at k wait) 0x11000 (0x12000 ∷ [])))
    × (ascending (woken_at k wait) (enqueued (woken_at k wait) 0x11000 (0x12000 ∷ [])) ≡ true)
    × ((k'.tasks 0x11000).state ≡ task_sleeping)
    × ((k'.tasks 0x11000).ticks ≡ 60 + wait)
    × (k'.current ≢ 0x11000)
task_sleep_lem_example =
    task_sleep_lem {k = k} 2 25 (0x12000 ∷ []) k-IsValid sleepers-IsList refl refl (omega arith)
      refl new_node_free (omega arith) (omega arith) (omega arith)

-- The sleeper wakes; of three ticks the current task has two left.
clock_handler_lem_example :
    (woken k' : Kernel) × (clock_handler 2 k 0x20 ≡ ok k')
    × IsValid k'
    × Woken k woken (λ t. (k.tasks t).ticks) (0x12000 ∷ [])
    × (k'.jiffies ≡ 61)
    × (k'.links ≡ woken.links)
    × (((◌<◌ 1 3)
          × (k' ≡ ticked woken)
          × (k'.current ≡ 0x11000)
          × ((k'.tasks 0x11000).ticks + 1 ≡ 3))
        ⊎ ((◌≡◌ {A = ℕ} 3 1) × (schedule (ticked woken) ≡ ok k') × Switched (ticked woken) k'))
clock_handler_lem_example =
    clock_handler_lem {k = k} 2 (0x12000 ∷ []) k-IsValid sleepers-IsList refl (omega arith) refl
      refl (omega arith) (omega arith)
