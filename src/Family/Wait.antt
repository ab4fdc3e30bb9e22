-- ===== src/Family/Wait.antt =====
-- What a round of `sys_waitpid` finds.
use txos.Base.{
  ℕ, zero, suc, ◌+◌, ◌<◌, ◌≡◌, ◌≢◌, refl, sym, ap, ◌∙◌, arith, true, false, List, [], ◌∷◌, Option,
  none, some, ◌==◌, if◌then◌else◌, Bool-cases, inl, inr,
}
use txos.Task.{task_died}
use txos.Family.{Process, any_pid, is_state, is_wanted, Found, dead, alive, nobody, wait_scan}
use txos.Family.Slots.{Numbered}

-- the process of a slot
abbrev pub process_at : List (Option Process) → ℕ → Option Process
process_at [] k = none
process_at (o ∷ slots) zero = o
process_at (o ∷ slots) (suc k) = process_at slots k

-- what the process with the pid that is asked for means to the caller
abbrev pub verdict : (current_pid pid : ℕ) → Option Process → Found
verdict current_pid pid none = nobody
verdict current_pid pid (some p) =
    if p.ppid == current_pid
    then (if is_state p.state task_died then dead pid p else alive p)
    else nobody

unwanted :
    (current_pid pid : ℕ) (p : Process)
    → p.pid ≢ pid
    → pid ≢ any_pid
    → is_wanted current_pid pid p ≡ false
unwanted current_pid pid p ne real = ground arith

wait_scan-past :
    (current_pid slot pid : ℕ) (slots : List (Option Process)) (i : ℕ)
    → Numbered slots i
    → pid ≢ any_pid
    → pid < i
    → wait_scan current_pid slot pid slots i ≡ nobody
unfolding wait_scan
wait_scan-past current_pid slot pid [] i h real past = refl
wait_scan-past current_pid slot pid (none ∷ slots) i h real past =
    wait_scan-past current_pid slot pid slots (i + 1) h real (omega arith)
wait_scan-past current_pid slot pid (some p ∷ slots) i h real past =
    let rest = wait_scan-past current_pid slot pid slots (i + 1) h.1 real (omega arith) in
    let other : is_wanted current_pid pid p ≡ false =
      unwanted current_pid pid p (omega (arith, h.0)) real in
    elim (Bool-cases (i == slot)) [ inl own ↦ rw own rest | inr strange ↦ rw (strange, other) rest ]

-- The slot `k` places on is the one asked for.
pub wait_scan_lem :
    (current_pid slot : ℕ) (slots : List (Option Process)) (i k : ℕ)
    → Numbered slots i
    → i + k ≢ any_pid
    → i + k ≢ slot
    → wait_scan current_pid slot (i + k) slots i ≡ verdict current_pid (i + k) (process_at slots k)
unfolding wait_scan
wait_scan_lem current_pid slot [] i k h real strange = refl
wait_scan_lem current_pid slot (none ∷ slots) i zero h real strange =
    wait_scan-past current_pid slot (i + 0) slots (i + 1) h real (omega arith)
wait_scan_lem current_pid slot (some p ∷ slots) i zero h real strange =
    let here : i + 0 ≡ i = omega arith in
    let rest = wait_scan-past current_pid slot (i + 0) slots (i + 1) h.1 real (omega arith) in
    let apart : (i == slot) ≡ false = ground arith in
    let own : (p.pid == i + 0) ≡ true = ground (arith, h.0) in
    elim (Bool-cases (p.ppid == current_pid)) [
      | inr foreign ↦ rw (apart, foreign) rest
      | inl child ↦ elim (Bool-cases (is_state p.state task_died)) [
        | inl died ↦ rw (apart, child, own, died) (ap (λ n. dead n p) (sym here))
        | inr lives ↦ rw (apart, child, own, lives) refl
      ]
    ]
wait_scan_lem current_pid slot (none ∷ slots) i (suc k) h real strange =
    let next : i + suc k ≡ i + 1 + k = omega arith in
    let rest : wait_scan current_pid slot (i + suc k) slots (i + 1)
        ≡ verdict current_pid (i + suc k) (process_at slots k) =
      rw next (
        wait_scan_lem current_pid slot slots (i + 1) k h (λ e. real (next ∙ e))
          (λ e. strange (next ∙ e))) in
    rest
wait_scan_lem current_pid slot (some p ∷ slots) i (suc k) h real strange =
    let next : i + suc k ≡ i + 1 + k = omega arith in
    let rest : wait_scan current_pid slot (i + suc k) slots (i + 1)
        ≡ verdict current_pid (i + suc k) (process_at slots k) =
      rw next (
        wait_scan_lem current_pid slot slots (i + 1) k h.1 (λ e. real (next ∙ e))
          (λ e. strange (next ∙ e))) in
    let other : is_wanted current_pid (i + suc k) p ≡ false =
      unwanted current_pid (i + suc k) p (omega (arith, h.0)) real in
    elim (Bool-cases (i == slot)) [ inl own ↦ rw own rest | inr apart ↦ rw (apart, other) rest ]
