-- ===== src/Family.antt =====
-- src/kernel/task.c: the process table of `get_free_task`, `sys_exit` and `sys_waitpid`: who is whose
-- child, and who is waited for. A slot of `task_queue` is empty or holds the fields that these read.
pub mod Slots
pub mod Wait
mod Tests
use txos.Base.{
  ℕ, zero, suc, ◌+◌, Bool, true, false, not, ◌&&◌, ◌||◌, List, [], ◌∷◌, Option, none, some, ◌==◌,
  if◌then◌else◌, set,
}
use txos.Task.{TaskState, task_died, task_init, task_waiting, state_value}

-- the fields of `task_t` for the family
pub record Process : Type 0 where
  pub pid : ℕ
  pub ppid : ℕ
  pub state : TaskState
  pub status : ℕ
  pub waitpid : ℕ

-- -1 as a `pid_t`
abbrev pub any_pid : ℕ
any_pid = 0xffffffff

abbrev pub is_state : TaskState → TaskState → Bool
is_state state state' = state_value state == state_value state'

-- The new process, its memory cleared, in the first empty slot from `i` on; nothing in a full table.
unfoldable pub get_free_task : List (Option Process) → (i : ℕ) → Option (ℕ × List (Option Process))
get_free_task [] i = none
get_free_task (none ∷ slots) i =
    some
      (i, some (record { pid = i; ppid = 0; state = task_init; status = 0; waitpid = 0 }) ∷ slots)
get_free_task (some p ∷ slots) i = elim (get_free_task slots (i + 1)) [
  | none ↦ none
  | some (pid, slots') ↦ some (pid, some p ∷ slots')
]

-- The loop of `sys_exit` over the slots from `i` on: the children of `current` go to its parent.
unfoldable pub adopt :
    (current : Process) → (slot : ℕ) → List (Option Process) → (i : ℕ) → List (Option Process)
adopt current slot [] i = []
adopt current slot (none ∷ slots) i = none ∷ adopt current slot slots (i + 1)
adopt current slot (some p ∷ slots) i =
    let p' =
      if i == slot
      then p
      else if not (p.ppid == current.pid)
      then p
      else record p { ppid = current.ppid } in
    some p' ∷ adopt current slot slots (i + 1)

-- The slots 0 and 1 belong to the kernel.
unfoldable pub adopt_children :
    (current : Process) → (slot : ℕ) → List (Option Process) → List (Option Process)
adopt_children current slot (a ∷ b ∷ slots) = a ∷ b ∷ adopt current slot slots 2
adopt_children current slot slots = slots

-- whether the parent is unblocked by the exit of `current`
abbrev pub wakes_parent : (parent current : Process) → Bool
wakes_parent parent current =
    is_state parent.state task_waiting
    && ((parent.waitpid == current.pid) || (parent.waitpid == any_pid))

-- how a round of `sys_waitpid` ends: with a dead child, a child to wait for, or no child
pub data Found : Type 0 where
  dead : (slot : ℕ) → Process → Found
  alive : Process → Found
  nobody : Found

abbrev pub is_wanted : (current_pid pid : ℕ) → Process → Bool
is_wanted current_pid pid p = (p.ppid == current_pid) && ((p.pid == pid) || (pid == any_pid))

-- The loop of `sys_waitpid` over the slots from `i` on.
unfoldable pub wait_scan : (current_pid slot pid : ℕ) → List (Option Process) → (i : ℕ) → Found
wait_scan current_pid slot pid [] i = nobody
wait_scan current_pid slot pid (none ∷ slots) i = wait_scan current_pid slot pid slots (i + 1)
wait_scan current_pid slot pid (some p ∷ slots) i =
    let more = wait_scan current_pid slot pid slots (i + 1) in
    if i == slot
    then more
    else if not (is_wanted current_pid pid p)
    then more
    else if is_state p.state task_died
    then dead i p
    else alive p

-- What a round answers: the child's pid and status with its slot emptied, the pid to wait for, or -1.
pub data Answer : Type 0 where
  reaped : (pid status : ℕ) → List (Option Process) → Answer
  blocks : (pid : ℕ) → Answer
  no_child : Answer

abbrev pub answer_of : List (Option Process) → Found → Answer
answer_of slots (dead i p) = reaped p.pid p.status (set slots i none)
answer_of slots (alive p) = blocks p.pid
answer_of slots nobody = no_child

unfoldable pub wait_round : (current_pid slot pid : ℕ) → List (Option Process) → Answer
wait_round current_pid slot pid (a ∷ b ∷ slots) =
    answer_of (a ∷ b ∷ slots) (wait_scan current_pid slot pid slots 2)
wait_round current_pid slot pid slots = no_child
