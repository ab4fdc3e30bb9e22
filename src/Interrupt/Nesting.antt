-- ===== src/Interrupt/Nesting.antt =====
-- Critical sections nest: the interrupt flag comes back at the end of the outermost one.
use txos.Base.{
  ℕ, ◌+◌, ◌<◌, ◌≡◌, ◌≢◌, refl, sym, ◌-◌, true, false, not, ok, Outcome, ◌>>=◌, arith, ltb, ◌==◌,
  if◌then◌else◌, Bool-cases, inl, inr, ◌∙◌,
}
use txos.Stdlib.{word}
use txos.Interrupt.{Flag, irq_save, irq_restore}

-- a routine as its critical sections: none left, or one with what is inside it and what comes after it
pub data Sections : Type 0 where
  done : Sections
  section : (inside after : Sections) → Sections

unfoldable pub run : Sections → Flag → Outcome Flag
run done f = ok f
run (section inside after) f = do f ← run inside (irq_save f); f ← irq_restore f; run after f

-- how deep the sections nest
abbrev pub depth : Sections → ℕ
depth done = 0
depth (section inside after) =
    if ltb (depth inside + 1) (depth after) then depth after else depth inside + 1

-- Inside a section the flag is clear.
abbrev pub IsValid : Flag → Type 0
IsValid f = f.irq_off_count ≢ 0 → f.irq ≡ false

-- what a section that was run whole leaves as it was
pub record Restored (f f' : Flag) : Type 0 where
  pub irq : f'.irq ≡ f.irq
  pub count : f'.irq_off_count ≡ f.irq_off_count
  pub first : f.irq_off_count ≢ 0 → f'.first_irq_state ≡ f.first_irq_state

Restored-IsValid : {f f' : Flag} → IsValid f → Restored f f' → IsValid f'
Restored-IsValid v r = λ ne. ground (arith, r.irq, r.count, v)

saved-IsValid : (f : Flag) → IsValid (irq_save f)
unfolding irq_save
saved-IsValid f ne = refl

deeper :
    (f : Flag) (n : ℕ) → f.irq_off_count + (n + 1) < word → (irq_save f).irq_off_count + n < word
unfolding irq_save
deeper f n small = omega arith

-- The end of a section after all that is inside it.
irq_restore-irq_save :
    (f g : Flag)
    → IsValid f
    → f.irq_off_count + 1 < word
    → Restored (irq_save f) g
    → (f' : Flag) × (irq_restore g ≡ ok f') × Restored f f'
unfolding irq_save irq_restore
irq_restore-irq_save f g v small r =
    let off : not g.irq ≡ true = ground (arith, r.irq) in
    let positive : ltb 0 g.irq_off_count ≡ true = ground (arith, r.count) in
    elim (Bool-cases (f.irq_off_count == 0)) [
      | inl outer ↦
          let last : (g.irq_off_count - 1 == 0) ≡ true = ground (arith, r.count) in
          (
            record g { irq_off_count = g.irq_off_count - 1; irq = g.first_irq_state },
            rw (off, positive, last) refl,
            record {
              irq = r.first (ground arith) ∙ rw outer refl;
              count = ground (arith, r.count);
              first = λ ne. absurd (ne (ground arith));
            },
          )
      | inr inner ↦
          let more : (g.irq_off_count - 1 == 0) ≡ false = ground (arith, r.count) in
          (
            record g { irq_off_count = g.irq_off_count - 1 },
            rw (off, positive, more) refl,
            record {
              irq = r.irq ∙ sym (v (ground arith));
              count = ground (arith, r.count);
              first = λ ne. r.first (ground arith) ∙ rw inner refl;
            },
          )
    ]

both : {f g h : Flag} → Restored f g → Restored g h → Restored f h
both r r' = record {
  irq = r'.irq ∙ r.irq;
  count = r'.count ∙ r.count;
  first = λ ne. r'.first (λ e. ne (sym r.count ∙ e)) ∙ r.first ne;
}

-- However critical sections nest, from a state in which the flag is clear inside a section they end
-- without a failed assertion, and the flag and the nesting count are what they were, as is the state
-- that a section still open has saved. The count does not wrap at their depth.
pub run-Restored :
    (s : Sections) (f : Flag)
    → IsValid f
    → f.irq_off_count + depth s < word
    → (f' : Flag) × (run s f ≡ ok f') × Restored f f'
unfolding run
run-Restored done f v small = (f, refl, record { irq = refl; count = refl; first = λ ne. refl })
run-Restored (section inside after) f v small =
    let (g, ran, r) =
      run-Restored inside (irq_save f) (saved-IsValid f) (deeper f (depth inside) (ground arith)) in
    let (h, restored, r') = irq_restore-irq_save f g v (ground arith) r in
    let (f', rest, r'') = run-Restored after h (Restored-IsValid v r') (ground (arith, r'.count)) in
    (f', rw (ran, restored) rest, both r' r'')
