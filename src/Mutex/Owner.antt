-- ===== src/Mutex/Owner.antt =====
-- What holds of the lock while a task has its mutex, and that each step keeps it.
use mathlib.Core.Path.{subst}
use txos.Base.{
  ℕ, ◌+◌, ◌-◌, ◌%◌, ◌<◌, ◌≤◌, ◌≡◌, ◌≢◌, refl, sym, ap, ◌∙◌, Bool, true, false, ◌⊎◌, inl, inr, arith,
  ok, ◌==◌, ltb, null, update, update-same, update-other, Bool-cases, ==_iff, ==_ne,
}
use txos.Stdlib.{word}
use txos.Mutex.{
  MutexLock, Phase, outside, wanting, taken, named, inside, unnamed, cleared, Call, acquire,
  release, System, allowed, advance,
}

-- A task has the mutex from the step that takes it to the step that gives it back.
abbrev pub owning : Phase → Bool
owning outside = false
owning wanting = false
owning taken = true
owning named = true
owning inside = true
owning unnamed = true
owning cleared = true

-- the lock, by the phase of the task that has the mutex
abbrev pub Held : MutexLock → ℕ → Phase → Type 0
Held lock owner outside = ⊥
Held lock owner wanting = ⊥
Held lock owner taken = (lock.holder ≡ null) × (lock.repeat ≡ 0)
Held lock owner named = (lock.holder ≡ owner) × (lock.repeat ≡ 0)
Held lock owner inside = (lock.holder ≡ owner) × (1 ≤ lock.repeat)
Held lock owner unnamed = (lock.holder ≡ null) × (lock.repeat ≡ 1)
Held lock owner cleared = (lock.holder ≡ null) × (lock.repeat ≡ 0)

pub record Free (s : System) : Type 0 where
  pub open_ : s.lock.semphore ≡ 1
  pub holder : s.lock.holder ≡ null
  pub repeat : s.lock.repeat ≡ 0
  pub quiet : (task : ℕ) → owning (s.phase task) ≡ false

pub record Owned (s : System) (owner : ℕ) : Type 0 where
  pub closed : s.lock.semphore ≡ 0
  pub held : Held s.lock owner (s.phase owner)
  pub quiet : (task : ℕ) → task ≢ owner → owning (s.phase task) ≡ false

abbrev pub Exclusive : System → Type 0
Exclusive s = Free s ⊎ ((owner : ℕ) × (owner ≢ null) × Owned s owner)

abbrev pub moved : System → ℕ → MutexLock → Phase → System
moved s task lock phase = record { lock = lock; phase = update s.phase task phase }

-- the step of `task` from phase `p`, and what it keeps
abbrev pub Goes : System → ℕ → Phase → Call → Type 0
Goes s task p call =
    (lock : MutexLock) × (phase : Phase) × (advance p call task s.lock ≡ ok (lock, phase))
    × Exclusive (moved s task lock phase)

quiet-update :
    (phase : ℕ → Phase) (task : ℕ) (p : Phase) (at : ℕ)
    → owning p ≡ false
    → owning (phase at) ≡ false
    → owning (update phase task p at) ≡ false
quiet-update phase task p at new old = elim (Bool-cases (task == at)) [
  | inl here ↦ rw here new
  | inr there ↦ rw there old
]

stay-Free :
    {s : System} (task : ℕ) (p : Phase) → Free s → owning p ≡ false → Free (moved s task s.lock p)
stay-Free {s} task p f new = record {
  open_ = f.open_;
  holder = f.holder;
  repeat = f.repeat;
  quiet = λ t. quiet-update s.phase task p t new (f.quiet t);
}

own :
    (s : System) (owner : ℕ) (lock : MutexLock) (p : Phase)
    → lock.semphore ≡ 0
    → Held lock owner p
    → ((task : ℕ) → task ≢ owner → owning (s.phase task) ≡ false)
    → Owned (moved s owner lock p) owner
own s owner lock p closed held quiet = record {
  closed = closed;
  held = subst (Held lock owner) (sym (update-same s.phase owner p)) held;
  quiet = λ task apart.
      ap owning (update-other s.phase owner p task (λ e. apart (sym e))) ∙ quiet task apart;
}

stay-Owned :
    {s : System} {owner : ℕ} (task : ℕ) (p : Phase)
    → Owned s owner
    → task ≢ owner
    → owning p ≡ false
    → Owned (moved s task s.lock p) owner
stay-Owned {s} {owner} task p o apart new = record {
  closed = o.closed;
  held = subst (Held s.lock owner) (sym (update-other s.phase task p owner apart)) o.held;
  quiet = λ t other. quiet-update s.phase task p t new (o.quiet t other);
}

pub unowned-Goes :
    (s : System) (task : ℕ) (p : Phase) (call : Call)
    → Free s
    → task ≢ null
    → allowed p call ≡ true
    → owning p ≡ false
    → Goes s task p call
unfolding advance
unowned-Goes s task outside acquire f some_task may quiet = (
  _,
  _,
  rw (f.holder, ==_ne null task (λ e. some_task (sym e))) refl,
  inl (stay-Free task wanting f refl),
)
unowned-Goes s task outside release f some_task may quiet = absurd (ground arith)
unowned-Goes s task wanting call f some_task may quiet = (
  record s.lock { semphore = 0 },
  taken,
  rw f.open_ refl,
  inr (
    task,
    some_task,
    own s task (record s.lock { semphore = 0 }) taken refl (f.holder, f.repeat) (λ t _. f.quiet t),
  ),
)
unowned-Goes s task taken call f some_task may quiet = absurd (ground arith)
unowned-Goes s task named call f some_task may quiet = absurd (ground arith)
unowned-Goes s task inside call f some_task may quiet = absurd (ground arith)
unowned-Goes s task unnamed call f some_task may quiet = absurd (ground arith)
unowned-Goes s task cleared call f some_task may quiet = absurd (ground arith)

holder_cases :
    (lock : MutexLock) (owner : ℕ) (p : Phase)
    → Held lock owner p
    → (lock.holder ≡ null) ⊎ (lock.holder ≡ owner)
holder_cases lock owner outside h = elim h [ ]
holder_cases lock owner wanting h = elim h [ ]
holder_cases lock owner taken h = inl h.0
holder_cases lock owner named h = inr h.0
holder_cases lock owner inside h = inr h.0
holder_cases lock owner unnamed h = inl h.0
holder_cases lock owner cleared h = inl h.0

pub other-Goes :
    (s : System) (owner task : ℕ) (p : Phase) (call : Call)
    → Owned s owner
    → owner ≢ null
    → task ≢ null
    → task ≢ owner
    → allowed p call ≡ true
    → owning p ≡ false
    → Goes s task p call
unfolding advance
other-Goes s owner task outside acquire o some_owner some_task apart may quiet =
    let other : s.lock.holder ≢ task = elim (holder_cases s.lock owner (s.phase owner) o.held) [
      | inl e ↦ λ h. some_task (sym h ∙ e)
      | inr e ↦ λ h. apart (sym h ∙ e)
    ] in
    (
      s.lock,
      wanting,
      rw (==_ne s.lock.holder task other) refl,
      inr (owner, some_owner, stay-Owned task wanting o apart refl),
    )
other-Goes s owner task wanting call o some_owner some_task apart may quiet = (
  s.lock,
  wanting,
  rw o.closed refl,
  inr (owner, some_owner, stay-Owned task wanting o apart refl),
)
other-Goes s owner task outside release o some_owner some_task apart may quiet =
    absurd (ground arith)
other-Goes s owner task taken call o some_owner some_task apart may quiet = absurd (ground arith)
other-Goes s owner task named call o some_owner some_task apart may quiet = absurd (ground arith)
other-Goes s owner task inside call o some_owner some_task apart may quiet = absurd (ground arith)
other-Goes s owner task unnamed call o some_owner some_task apart may quiet = absurd (ground arith)
other-Goes s owner task cleared call o some_owner some_task apart may quiet = absurd (ground arith)

freed :
    (phase : ℕ → Phase) (owner t : ℕ)
    → ((task : ℕ) → task ≢ owner → owning (phase task) ≡ false)
    → owning (update phase owner outside t) ≡ false
freed phase owner t quiet = elim (Bool-cases (owner == t)) [
  | inl here ↦ rw here refl
  | inr there ↦ rw there (quiet t (ground arith))
]

pub self-Goes :
    (s : System) (owner : ℕ) (p : Phase) (call : Call)
    → Owned s owner
    → owner ≢ null
    → Held s.lock owner p
    → s.lock.repeat + 1 < word
    → Goes s owner p call
unfolding advance
self-Goes s owner outside call o some_owner h bound = elim h [ ]
self-Goes s owner wanting call o some_owner h bound = elim h [ ]
self-Goes s owner taken call o some_owner h bound =
    let lock = record s.lock { holder = owner } in
    (
      lock,
      named,
      refl,
      inr (owner, some_owner, own s owner lock named o.closed (refl, h.1) o.quiet),
    )
self-Goes s owner named call o some_owner h bound =
    let lock = record s.lock { repeat = 1 } in
    (
      lock,
      inside,
      rw h.1 refl,
      inr (owner, some_owner, own s owner lock inside o.closed (h.0, omega arith) o.quiet),
    )
self-Goes s owner inside acquire o some_owner h bound =
    let lock = record s.lock { repeat = (s.lock.repeat + 1) % word } in
    let mine : (s.lock.holder == owner) ≡ true = (==_iff _ _).1 h.0 in
    (
      lock,
      inside,
      rw mine refl,
      inr (owner, some_owner, own s owner lock inside o.closed (h.0, omega arith) o.quiet),
    )
self-Goes s owner inside release o some_owner h bound =
    let mine : (owner == s.lock.holder) ≡ true = (==_iff _ _).1 (sym h.0) in
    elim (Bool-cases (ltb 1 s.lock.repeat)) [
      | inl nested ↦
          let lock = record s.lock { repeat = s.lock.repeat - 1 } in
          let more : 1 ≤ s.lock.repeat - 1 = ground arith in
          (
            lock,
            inside,
            rw (mine, nested) refl,
            inr (owner, some_owner, own s owner lock inside o.closed (h.0, more) o.quiet),
          )
      | inr last ↦
          let lock = record s.lock { holder = null } in
          let once : s.lock.repeat ≡ 1 = ground (arith, h.1) in
          let once' : (s.lock.repeat == 1) ≡ true = (==_iff _ _).1 once in
          (
            lock,
            unnamed,
            rw (mine, last, once') refl,
            inr (owner, some_owner, own s owner lock unnamed o.closed (refl, once) o.quiet),
          )
    ]
self-Goes s owner unnamed call o some_owner h bound =
    let lock = record s.lock { repeat = 0 } in
    (
      lock,
      cleared,
      refl,
      inr (owner, some_owner, own s owner lock cleared o.closed (h.0, refl) o.quiet),
    )
self-Goes s owner cleared call o some_owner h bound = (
  record s.lock { semphore = 1 },
  outside,
  rw o.closed refl,
  inl (record {
    open_ = refl;
    holder = h.0;
    repeat = h.1;
    quiet = λ t. freed s.phase owner t o.quiet;
  }),
)
