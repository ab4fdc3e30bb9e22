-- ===== src/Task.antt =====
-- src/kernel/task.c: the scheduler and the queues of tasks that wait. A task is named by the address
-- of its page; `task_switch` of kernel/schedule.asm is the change of `current`.
pub mod Search
pub mod Schedule
pub mod Queues
pub mod Wakeup
pub mod Sleep
pub mod Tick
mod Tests
use txos.Base.{
  ℕ, zero, suc, ◌+◌, ◌-◌, ◌/◌, ◌%◌, Bool, true, false, not, ◌&&◌, ◌||◌, List, [], ◌∷◌, Outcome, ok,
  halt, out_of_fuel, ◌>>=◌, ◌>>◌, assert, ◌==◌, ltb, leb, if◌then◌else◌, null, update,
}
use txos.Stdlib.{word, div_round_up}
use txos.NodeList.{
  Links, head, tail, load_next, node_free, list_push_back, list_remove, list_insert_sort,
}

pub data TaskState : Type 0 where
  task_init : TaskState
  task_running : TaskState
  task_ready : TaskState
  task_blocked : TaskState
  task_sleeping : TaskState
  task_waiting : TaskState
  task_died : TaskState

-- the value of the enumerator
abbrev pub state_value : TaskState → ℕ
state_value task_init = 0
state_value task_running = 1
state_value task_ready = 2
state_value task_blocked = 3
state_value task_sleeping = 4
state_value task_waiting = 5
state_value task_died = 6

-- `task_t`: what the scheduler reads and writes; the list node is in `Links`
pub record Task : Type 0 where
  pub state : TaskState
  pub priority : ℕ
  pub ticks : ℕ
  pub jiffies : ℕ
  pub uid : ℕ
  pub page_dir : ℕ
  pub magic : ℕ

-- The variables of task.c and clock.c, the memory of the tasks and their nodes, and the processor:
-- the task of the stack in use, the interrupt flag, cr3 and the stack of the task state segment.
pub record Kernel : Type 0 where
  pub task_queue : List ℕ
  pub blocked_queue : ℕ
  pub sleeping_queue : ℕ
  pub idle_task : ℕ
  pub jiffies : ℕ
  pub tasks : ℕ → Task
  pub links : Links
  pub current : ℕ
  pub irq : Bool
  pub cr3 : ℕ
  pub esp0 : ℕ

abbrev pub xos_magic : ℕ
xos_magic = 0x20230614

abbrev pub jiffy : ℕ
jiffy = 1000 / 100

-- `&task->node` and `element_entry(task_t, node, ptr)`
abbrev pub node : ℕ → ℕ
node task = task + 4

abbrev pub entry : ℕ → ℕ
entry ptr = ptr - 4

abbrev pub in_state : Task → TaskState → Bool
in_state task state = state_value task.state == state_value state

-- One round of the loop of `task_search`: the result after a look at `task`.
abbrev pub consider : (ℕ → Task) → (current : ℕ) → TaskState → (result task : ℕ) → ℕ
consider tasks current state result task =
    if task == null || (task == current || not (in_state (tasks task) state))
    then result
    else if result == null
        || (ltb (tasks result).ticks (tasks task).ticks
            || ltb (tasks task).jiffies (tasks result).jiffies)
    then task
    else result

abbrev pub search_from : List ℕ → (ℕ → Task) → (current : ℕ) → TaskState → (result : ℕ) → ℕ
search_from [] tasks current state result = result
search_from (task ∷ queue) tasks current state result =
    search_from queue tasks current state (consider tasks current state result task)

unfoldable pub task_search : Kernel → TaskState → Outcome ℕ
task_search k state = do
  assert (not k.irq)
  let result = search_from k.task_queue k.tasks k.current state null
  ok (if result == null && state_value state == state_value task_ready then k.idle_task else result)

unfoldable pub task_activate : Kernel → ℕ → Outcome Kernel
task_activate k task = do
  assert ((k.tasks task).magic == xos_magic)
  ok (record k {
    cr3 = if (k.tasks task).page_dir == k.cr3 then k.cr3 else (k.tasks task).page_dir;
    esp0 = if (k.tasks task).uid == 0 then k.esp0 else (task + 0x1000) % word;
  })

-- The current task as `schedule` leaves it: ready if it was running, with a new time slice if it
-- had used up its own.
abbrev pub rest : Task → Task
rest task = record task {
  state = if in_state task task_running then task_ready else task.state;
  ticks = if task.ticks == 0 then task.priority else task.ticks;
}

unfoldable pub schedule : Kernel → Outcome Kernel
unfolding task_search task_activate
schedule k = do
  next ← task_search k task_ready
  assert (not (next == null))
  assert ((k.tasks next).magic == xos_magic)
  let tasks = update k.tasks k.current (rest (k.tasks k.current))
  let tasks = update tasks next (record (tasks next) { state = task_running })
  let k' = record k { tasks = tasks }
  let switched = (do k'' ← task_activate k' next; ok (record k'' { current = next }))
  if next == k.current then ok k' else switched

-- `ASSERT_BLOCKED_STATE` is an expression without effect. `fuel` is for the walk of the list.
unfoldable pub task_block : ℕ → Kernel → (task blocked_list : ℕ) → TaskState → Outcome Kernel
unfolding schedule
task_block fuel k task blocked_list state = do
  assert (not k.irq)
  free ← node_free k.links (node task)
  assert free
  links ←
      list_push_back fuel k.links (if blocked_list == null then k.blocked_queue else blocked_list)
        (node task)
  let k' = record k {
    links = links;
    tasks = update k.tasks task (record (k.tasks task) { state = state });
  }
  let scheduled = schedule k'
  if k.current == task then scheduled else ok k'

unfoldable pub task_unblock : Kernel → ℕ → Outcome Kernel
task_unblock k task = do
  assert (not k.irq)
  links ← list_remove k.links (node task)
  free ← node_free links (node task)
  assert free
  ok (record k {
    links = links;
    tasks = update k.tasks task (record (k.tasks task) { state = task_ready });
  })

-- the key of `list_insert_sort`: the `ticks` of the task that holds the node
abbrev pub ticks_of : (ℕ → Task) → ℕ → ℕ
ticks_of tasks ptr = (tasks (entry ptr)).ticks

-- The current task in the sleeping queue, before it gives up the processor.
unfoldable pub fall_asleep : ℕ → Kernel → ℕ → Outcome Kernel
fall_asleep fuel k ms = do
  assert (not k.irq)
  assert (ltb 0 ms)
  sleep_ticks ← div_round_up ms jiffy
  let tasks =
      update k.tasks k.current
        (record (k.tasks k.current) { ticks = (k.jiffies + sleep_ticks) % word })
  links ← list_insert_sort fuel (ticks_of tasks) k.links k.sleeping_queue (node k.current)
  ok (record k {
    links = links;
    tasks = update tasks k.current (record (tasks k.current) { state = task_sleeping });
  })

unfoldable pub task_sleep : ℕ → Kernel → ℕ → Outcome Kernel
unfolding fall_asleep schedule
task_sleep fuel k ms = do k' ← fall_asleep fuel k ms; schedule k'

-- The loop of `task_wakeup` from the node `ptr` on.
unfoldable pub wake_from : ℕ → Kernel → ℕ → Outcome Kernel
unfolding load_next task_unblock
wake_from zero k ptr = out_of_fuel
wake_from (suc fuel) k ptr =
    let after = (do
      next ← load_next k.links ptr
      k' ← task_unblock k (entry ptr)
      wake_from fuel k' next) in
    if ptr == tail k.sleeping_queue
    then ok k
    else if ltb k.jiffies (ticks_of k.tasks ptr)
    then ok k
    else after

unfoldable pub task_wakeup : ℕ → Kernel → Outcome Kernel
unfolding wake_from load_next
task_wakeup fuel k = do
  assert (not k.irq)
  first ← load_next k.links (head k.sleeping_queue)
  wake_from fuel k first

-- `clock_handler` of kernel/clock.c, but for the calls to the interrupt controller and the beeper (Beeper).
unfoldable pub clock_handler : ℕ → Kernel → (vector : ℕ) → Outcome Kernel
unfolding task_wakeup schedule
clock_handler fuel k vector = do
  assert (vector == 0x20)
  k ← task_wakeup fuel k
  let now = (k.jiffies + 1) % word
  let task = k.tasks k.current
  assert (task.magic == xos_magic)
  let left = (task.ticks + word - 1) % word
  let k' = record k {
    jiffies = now;
    tasks = update k.tasks k.current (record task { jiffies = now; ticks = left });
  }
  let scheduled = schedule k'
  if left == 0 then scheduled else ok k'
