-- ===== src/Mutex/Exclusion.antt =====
-- One task at a time behind the lock, and no assertion of the lock fails.
use mathlib.Core.Path.{subst}
use txos.Base.{
  ℕ, ◌+◌, ◌<◌, ◌≡◌, ◌≢◌, refl, sym, ap, ◌∙◌, true, inl, inr, arith, ok, value_or, ◌==◌, null,
  update, Bool-cases, ==_iff,
}
use txos.Stdlib.{word}
use txos.Mutex.{MutexLock, Phase, Call, System, allowed, advance, Reachable, start, step}
use txos.Mutex.Owner.{owning, Owned, Exclusive, Goes, moved, unowned-Goes, other-Goes, self-Goes}

-- Every allowed step can be taken, and the lock stays in order.
Exclusive-Goes :
    (s : System) (task : ℕ) (call : Call)
    → Exclusive s
    → task ≢ null
    → allowed (s.phase task) call ≡ true
    → s.lock.repeat + 1 < word
    → Goes s task (s.phase task) call
Exclusive-Goes s task call (inl f) some_task may bound =
    unowned-Goes s task (s.phase task) call f some_task may (f.quiet task)
Exclusive-Goes s task call (inr (owner, some_owner, o)) some_task may bound =
    elim (Bool-cases (task == owner)) [
      | inl same ↦
          let e = (==_iff task owner).0 same in
          subst (λ t. Goes s t (s.phase t) call) (sym e)
            (self-Goes s owner (s.phase owner) call o some_owner o.held bound)
      | inr other ↦
          let apart : task ≢ owner = ground arith in
          other-Goes s owner task (s.phase task) call o some_owner some_task apart may
            (o.quiet task apart)
    ]

same-result : {a b : MutexLock × Phase} → ok a ≡ ok b → a ≡ b
same-result {a} e = ap (λ r. value_or a r) e

Reachable-Exclusive : {s : System} → Reachable s → Exclusive s
Reachable-Exclusive start =
    inl (record { open_ = refl; holder = refl; repeat = refl; quiet = λ t. refl })
Reachable-Exclusive (step {s = s} task call lock phase r some_task may bound done) =
    let (lock', phase', done', next) =
      Exclusive-Goes s task call (Reachable-Exclusive r) some_task may bound in
    let e = same-result (sym done' ∙ done) in
    subst (λ (x : MutexLock × Phase). Exclusive (moved s task x.0 x.1)) e next

only : {s : System} (owner task : ℕ) → owning (s.phase task) ≡ true → Owned s owner → task ≡ owner
only owner task a o = elim (Bool-cases (task == owner)) [
  | inl same ↦ (==_iff _ _).0 same
  | inr other ↦ absurd (ground (arith, o.quiet task))
]

-- However the tasks interleave, with fewer than 2^32 - 1 nested calls, two tasks that are between
-- taking and giving back the mutex are the same.
pub mutual_exclusion :
    {s : System} (task other : ℕ)
    → Reachable s
    → owning (s.phase task) ≡ true
    → owning (s.phase other) ≡ true
    → task ≡ other
mutual_exclusion task other r a b = elim (Reachable-Exclusive r) [
  | inl f ↦ absurd (ground (arith, f.quiet task))
  | inr (owner, _, o) ↦ only owner task a o ∙ sym (only owner other b o)
]

-- However the tasks interleave, no assertion of the lock fails: any task can take its next step, with
-- fewer than 2^32 - 1 nested calls.
pub advance-Reachable :
    {s : System} (task : ℕ) (call : Call)
    → Reachable s
    → task ≢ null
    → allowed (s.phase task) call ≡ true
    → s.lock.repeat + 1 < word
    → (lock : MutexLock) × (phase : Phase) × (advance (s.phase task) call task s.lock
        ≡ ok (lock, phase))
      × Reachable (record { lock = lock; phase = update s.phase task phase })
advance-Reachable {s} task call r some_task may bound =
    let (lock, phase, done, _) =
      Exclusive-Goes s task call (Reachable-Exclusive r) some_task may bound in
    (lock, phase, done, step task call lock phase r some_task may bound done)
