-- ===== src/Mutex.antt =====
-- src/kernel/mutex.c: the reentrant lock, as its tasks interleave. Interrupts are off inside
-- `mutex_acquire` and `mutex_release`, so a round of the loop of the one and the body of the other are
-- one step each; every other access to the lock is a step of its own. The queue of waiters and the
-- switch of tasks are those of src/kernel/task.c: a task that waits is one that may try again.
pub mod Owner
pub mod Exclusion
mod Tests
use txos.Base.{
  ℕ, ◌+◌, ◌-◌, ◌%◌, ◌<◌, ◌≡◌, ◌≢◌, Bool, true, false, not, Outcome, ok, ◌>>=◌, ◌>>◌, assert, ◌==◌,
  ltb, if◌then◌else◌, null, update,
}
use txos.Stdlib.{word}

-- `mutexlock_t` with the `semphore` of its mutex
pub record MutexLock : Type 0 where
  pub holder : ℕ
  pub semphore : ℕ
  pub repeat : ℕ

-- Where a task is: outside, in the loop of `mutex_acquire`, behind it, with the holder set, inside, with
-- the holder reset, and with `repeat` reset, before `mutex_release`.
pub data Phase : Type 0 where
  outside : Phase
  wanting : Phase
  taken : Phase
  named : Phase
  inside : Phase
  unnamed : Phase
  cleared : Phase

pub data Call : Type 0 where
  acquire : Call
  release : Call

abbrev pub mutexlock_init : MutexLock
mutexlock_init = record { holder = null; semphore = 1; repeat = 0 }

-- The test of `mutexlock_acquire` and its branch for the holder.
abbrev pub begin_acquire : ℕ → MutexLock → Outcome (MutexLock × Phase)
begin_acquire current lock =
    if lock.holder == current
    then ok (record lock { repeat = (lock.repeat + 1) % word }, inside)
    else ok (lock, wanting)

-- One round of the loop of `mutex_acquire`: it waits, or takes the mutex.
abbrev pub mutex_acquire : MutexLock → Outcome (MutexLock × Phase)
mutex_acquire lock =
    let taking = (do
      assert (lock.semphore == 1)
      let lock' = record lock { semphore = (lock.semphore + word - 1) % word }
      assert (lock'.semphore == 0)
      ok (lock', taken)) in
    if lock.semphore == 0 then ok (lock, wanting) else taking

abbrev pub mutex_release : MutexLock → Outcome (MutexLock × Phase)
mutex_release lock = do
  assert (lock.semphore == 0)
  let lock' = record lock { semphore = (lock.semphore + 1) % word }
  assert (lock'.semphore == 1)
  ok (lock', outside)

-- `mutexlock_release` up to the reset of the holder.
abbrev pub begin_release : ℕ → MutexLock → Outcome (MutexLock × Phase)
begin_release current lock = do
  assert (current == lock.holder)
  let last = (do assert (lock.repeat == 1); ok (record lock { holder = null }, unnamed))
  if ltb 1 lock.repeat then ok (record lock { repeat = lock.repeat - 1 }, inside) else last

-- The next step of a task: at rest, outside or inside, it begins the call; else it goes on.
unfoldable pub advance : Phase → Call → ℕ → MutexLock → Outcome (MutexLock × Phase)
advance outside acquire current lock = begin_acquire current lock
advance outside release current lock = begin_release current lock
advance inside acquire current lock = begin_acquire current lock
advance inside release current lock = begin_release current lock
advance wanting call current lock = mutex_acquire lock
advance taken call current lock = ok (record lock { holder = current }, named)
advance named call current lock = do
  assert (lock.repeat == 0)
  ok (record lock { repeat = 1 }, inside)
advance unnamed call current lock = ok (record lock { repeat = 0 }, cleared)
advance cleared call current lock = mutex_release lock

-- The lock and the tasks, by their addresses.
pub record System : Type 0 where
  pub lock : MutexLock
  pub phase : ℕ → Phase

-- A task outside calls only `mutexlock_acquire`, as a task inside may too.
abbrev pub allowed : Phase → Call → Bool
allowed outside release = false
allowed outside acquire = true
allowed wanting call = true
allowed taken call = true
allowed named call = true
allowed inside call = true
allowed unnamed call = true
allowed cleared call = true

-- The systems that steps of the tasks, in any order, lead to; there are fewer than 2^32 - 1 nested calls.
pub data Reachable : System → Type 0 where
  start : Reachable (record { lock = mutexlock_init; phase = λ _. outside })
  step :
      {s : System} (task : ℕ) (call : Call) (lock : MutexLock) (phase : Phase)
      → Reachable s
      → task ≢ null
      → allowed (s.phase task) call ≡ true
      → s.lock.repeat + 1 < word
      → advance (s.phase task) call task s.lock ≡ ok (lock, phase)
      → Reachable (record { lock = lock; phase = update s.phase task phase })
