-- ===== src/Task/Search.antt =====
-- Which task `task_search` picks.
use mathlib.Core.List.{append-nil, append_assoc}
use txos.Base.{
  ◌<◌, elem-append, ℕ, ◌≤◌, ◌≡◌, ◌≢◌, refl, ap, ◌∙◌, Bool, true, false, not, ◌||◌, List, [], ◌∷◌,
  ◌++◌, ◌⊎◌, inl, inr, arith, elem, null, ok, ◌==◌, if◌then◌else◌, ltb, Bool-cases,
}
use txos.Task.{
  Kernel, Task, TaskState, task_ready, state_value, in_state, consider, search_from, task_search,
}

module _ (tasks : ℕ → Task) (current : ℕ) (state : TaskState) where
  -- a task other than the current one, in the state asked for
  abbrev pub candidate : ℕ → Bool
  candidate task = not (task == null || (task == current || not (in_state (tasks task) state)))

  -- `task` has no more of its time slice left than `result`, and did not run before it.
  abbrev pub NoBetter : ℕ → ℕ → Type 0
  NoBetter result task =
      ((tasks task).ticks ≤ (tasks result).ticks) × ((tasks result).jiffies ≤ (tasks task).jiffies)

  -- `task` has more of its time slice left than `result`, or ran before it.
  abbrev pub Better : ℕ → ℕ → Type 0
  Better result task =
      ((tasks result).ticks < (tasks task).ticks) ⊎ ((tasks task).jiffies < (tasks result).jiffies)

  abbrev pub NoCandidate : List ℕ → Type 0
  NoCandidate queue = (task : ℕ) → elem task queue ≡ true → candidate task ≡ false

  -- no candidate of `later` is better than `result`
  abbrev pub Unbeaten : ℕ → List ℕ → Type 0
  Unbeaten result later =
      (task : ℕ) → elem task later ≡ true → candidate task ≡ true → NoBetter result task

  -- `result` is chosen from the queue: it is the first candidate, or is better than the one chosen from
  -- the queue before it; and no candidate behind it is better.
  pub data Chosen : List ℕ → ℕ → Type 0 where
    first :
        {queue : List ℕ} {result : ℕ} (earlier later : List ℕ)
        → queue ≡ earlier ++ result ∷ later
        → candidate result ≡ true
        → NoCandidate earlier
        → Unbeaten result later
        → Chosen queue result
    better :
        {queue : List ℕ} {result : ℕ} (earlier later : List ℕ) (before : ℕ)
        → queue ≡ earlier ++ result ∷ later
        → candidate result ≡ true
        → Chosen earlier before
        → Better before result
        → Unbeaten result later
        → Chosen queue result

  pub Chosen-candidate :
      {queue : List ℕ} {result : ℕ} → Chosen queue result → candidate result ≡ true
  Chosen-candidate (first earlier later place fits out best) = fits
  Chosen-candidate (better earlier later before place fits c more best) = fits

  placed :
      {queue : List ℕ} (earlier later : List ℕ) (result : ℕ)
      → queue ≡ earlier ++ result ∷ later
      → elem result queue ≡ true
  placed earlier later result place =
      rw place (ground (arith, elem-append result earlier (result ∷ later)))

  pub Chosen-elem : {queue : List ℕ} {result : ℕ} → Chosen queue result → elem result queue ≡ true
  Chosen-elem {queue} {result} (first earlier later place fits out best) =
      placed earlier later result place
  Chosen-elem {queue} {result} (better earlier later before place fits c more best) =
      placed earlier later result place

  Unbeaten-snoc :
      (result task : ℕ) (later : List ℕ)
      → Unbeaten result later
      → (candidate task ≡ true → NoBetter result task)
      → Unbeaten result (later ++ task ∷ [])
  Unbeaten-snoc result task later best last t here fits = elim (Bool-cases (elem t later)) [
    | inl old ↦ best t old fits
    | inr new ↦
        let e : task ≡ t = ground (arith, elem-append t later (task ∷ [])) in
        rw (← e) (last (rw e fits))
  ]

  longer :
      {queue : List ℕ} (earlier later : List ℕ) (result task : ℕ)
      → queue ≡ earlier ++ result ∷ later
      → queue ++ task ∷ [] ≡ earlier ++ result ∷ (later ++ task ∷ [])
  longer earlier later result task place =
      ap (λ q. q ++ task ∷ []) place ∙ append_assoc earlier (result ∷ later) (task ∷ [])

  -- A task that is no better changes nothing.
  Chosen-snoc :
      {queue : List ℕ} {result : ℕ} (task : ℕ)
      → Chosen queue result
      → (candidate task ≡ true → NoBetter result task)
      → Chosen (queue ++ task ∷ []) result
  Chosen-snoc {queue} {result} task (first earlier later place fits out best) last =
      first earlier (later ++ task ∷ []) (longer earlier later result task place) fits out
        (Unbeaten-snoc result task later best last)
  Chosen-snoc {queue} {result} task (better earlier later before place fits c more best) last =
      better earlier (later ++ task ∷ []) before (longer earlier later result task place) fits c
        more (Unbeaten-snoc result task later best last)

  -- The result after the tasks of `queue`: NULL as long as there is no candidate.
  abbrev State : List ℕ → ℕ → Type 0
  State queue result =
      ((result ≡ null) × NoCandidate queue) ⊎ ((result ≢ null) × Chosen queue result)

  NoCandidate-snoc :
      (task : ℕ) (queue : List ℕ)
      → candidate task ≡ false
      → NoCandidate queue
      → NoCandidate (queue ++ task ∷ [])
  NoCandidate-snoc task queue out none_fits t here = elim (Bool-cases (elem t queue)) [
    | inl old ↦ none_fits t old
    | inr new ↦ let e : task ≡ t = ground (arith, elem-append t queue (task ∷ [])) in rw (← e) out
  ]

  out_same :
      (result task : ℕ) → candidate task ≡ false → consider tasks current state result task ≡ result
  out_same result task out = ground arith

  nothing_later : {result : ℕ} → Unbeaten result []
  nothing_later task here = absurd (ground arith)

  consider-State :
      (queue : List ℕ) (result task : ℕ)
      → State queue result
      → State (queue ++ task ∷ []) (consider tasks current state result task)
  consider-State queue result task s = elim (Bool-cases (candidate task)) [
    | inr out ↦ rw (out_same result task out) (elim s as (λ _. State (queue ++ task ∷ []) result) [
      | inl (nothing, none_fits) ↦ inl (nothing, NoCandidate-snoc task queue out none_fits)
      | inr (some_task, c) ↦ inr (some_task, Chosen-snoc task c (λ fits. absurd (ground arith)))
    ])
    | inl fits ↦
        let real : task ≢ null = ground arith in
        elim s [
          | inl (nothing, none_fits) ↦
              let new : consider tasks current state result task ≡ task = ground arith in
              rw new (inr (real, first queue [] refl fits none_fits nothing_later))
          | inr (some_task, c) ↦
              elim (Bool-cases (
                ltb (tasks result).ticks (tasks task).ticks
                || ltb (tasks task).jiffies (tasks result).jiffies)) [
                  | inl wins ↦
                      let new : consider tasks current state result task ≡ task = ground arith in
                      rw new (
                        inr (real, better queue [] result refl fits c (ground arith) nothing_later))
                  | inr loses ↦
                      let old : consider tasks current state result task ≡ result = ground arith in
                      rw old
                        (inr (some_task, Chosen-snoc task c (λ _. (ground arith, ground arith))))
                ]
        ]
  ]

  search_from-State :
      (queue done : List ℕ) (result : ℕ)
      → State done result
      → State (done ++ queue) (search_from queue tasks current state result)
  search_from-State [] done result s = rw append-nil s
  search_from-State (task ∷ queue) done result s = rw (← append_assoc done (task ∷ []) queue) (
      search_from-State queue (done ++ task ∷ []) (consider tasks current state result task)
        (consider-State done result task s))

-- With interrupts off `task_search` picks among the candidates (the tasks of the queue in the state asked
-- for, but for the current one) by a chain: the first candidate, then each time the next one behind
-- it that is better (more ticks left, or ran earlier) than the one before, until no candidate behind is
-- better. If there is no candidate it gives the idle task for a search of ready tasks, else NULL.
pub task_search_lem :
    (k : Kernel) (state : TaskState)
    → k.irq ≡ false
    → (result : ℕ) × (task_search k state ≡ ok result)
      × (Chosen k.tasks k.current state k.task_queue result
          ⊎ (((task : ℕ)
                → elem task k.task_queue ≡ true
                → candidate k.tasks k.current state task ≡ false)
              × (result
                  ≡ (if state_value state == state_value task_ready then k.idle_task else null))))
unfolding task_search
task_search_lem k state off =
    elim (search_from-State k.tasks k.current state k.task_queue [] null
      (inl (refl, λ task here. absurd (ground arith)))) [
        | inl (none_found, none_fits) ↦ (_, rw (off, none_found) refl, inr (none_fits, refl))
        | inr (some_task, c) ↦
            let found : (search_from k.task_queue k.tasks k.current state null == null) ≡ false =
              ground arith in
            (_, rw (off, found) refl, inl c)
      ]
