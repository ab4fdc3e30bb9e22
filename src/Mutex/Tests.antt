-- ===== src/Mutex/Tests.antt =====
-- Two tasks at the lock: 7 takes it and 9 wants it.
use txos.Base.{ℕ, ◌≡◌, refl, arith, ok, update}
use txos.Mutex.{
  MutexLock, Phase, outside, wanting, taken, acquire, System, mutexlock_init, advance, Reachable,
  start, step,
}
use txos.Mutex.Exclusion.{mutual_exclusion, advance-Reachable}

abbrev lock : MutexLock
lock = record { holder = 0; semphore = 0; repeat = 0 }

-- task 7 is behind `mutex_acquire`, and the holder is not yet set
abbrev s : System
s = record { lock = lock; phase = update (update (λ _. outside) 7 wanting) 7 taken }

first : Reachable (record { lock = mutexlock_init; phase = update (λ _. outside) 7 wanting })
first =
    step 7 acquire mutexlock_init wanting start (omega arith) refl (omega arith)
      (unfold advance in refl)

s-Reachable : Reachable s
s-Reachable =
    step 7 acquire lock taken first (omega arith) refl (omega arith) (unfold advance in refl)

mutual_exclusion_example : ◌≡◌ {A = ℕ} 7 7
mutual_exclusion_example = mutual_exclusion {s = s} 7 7 s-Reachable refl refl

-- task 9 finds another holder than itself and goes to the loop
advance-Reachable_example :
    (lock' : MutexLock) × (phase : Phase) × (advance (s.phase 9) acquire 9 lock ≡ ok (lock', phase))
    × Reachable (record { lock = lock'; phase = update s.phase 9 phase })
advance-Reachable_example =
    advance-Reachable {s = s} 9 acquire s-Reachable (omega arith) refl (omega arith)
