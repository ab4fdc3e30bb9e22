-- ===== src/Ata/Words.antt =====
-- The bytes of a string of the drive after `ata_swap_words`.
use txos.Base.{
  ℕ, zero, suc, ◌+◌, ◌-◌, ◌*◌, ◌/◌, ◌%◌, ◌<◌, ◌≤◌, ◌≡◌, ◌≢◌, refl, ◌∙◌, arith, true, false,
  Bool-cases, inl, inr, ◌==◌, if◌then◌else◌, update,
}
use txos.Strings.{Memory}
use txos.Strings.Buffers.{in_buffer}
use txos.Ata.{swap_pairs, ata_swap_words}

-- the other byte of the pair of `at`, where pairs start at `buf`
abbrev pub partner : (buf at : ℕ) → ℕ
partner buf at = if (at - buf) % 2 == 0 then at + 1 else at - 1

partner-step : (buf at : ℕ) → buf + 2 ≤ at → partner (buf + 2) at ≡ partner buf at
partner-step buf at late =
    let even : (at - (buf + 2)) % 2 ≡ (at - buf) % 2 = omega arith in rw even refl

partner_late : (buf at : ℕ) → buf + 2 ≤ at → buf + 2 ≤ partner buf at
partner_late buf at late = elim (Bool-cases ((at - buf) % 2 == 0)) [
  | inl even ↦ rw even (omega arith)
  | inr odd ↦ let rest : (at - buf) % 2 ≢ 0 = ground arith in rw odd (omega arith)
]

-- the pair at `buf` exchanged
abbrev swapped : Memory → (buf : ℕ) → Memory
swapped m buf = update (update m buf (m (buf + 1))) (buf + 1) (m buf)

swapped_late : (m : Memory) (buf at : ℕ) → buf + 2 ≤ at → swapped m buf at ≡ m at
swapped_late m buf at late =
    let first : (buf == at) ≡ false = ground arith in
    let second : (buf + 1 == at) ≡ false = ground arith in rw (second, first) refl

swapped_out :
    (m : Memory) (buf pairs at : ℕ)
    → in_buffer (buf + 2) (pairs * 2) at ≡ false
    → swapped m buf at ≡ (if in_buffer buf (suc pairs * 2) at then m (partner buf at) else m at)
swapped_out m buf pairs at out = elim (Bool-cases (buf + 1 == at)) [
  | inl second ↦
      let first : (buf == at) ≡ false = ground arith in
      let inside : in_buffer buf (suc pairs * 2) at ≡ true = ground arith in
      let odd : ((at - buf) % 2 == 0) ≡ false = ground arith in
      let other : at - 1 ≡ buf = ground arith in rw (second, inside, odd, other) refl
  | inr not_second ↦ elim (Bool-cases (buf == at)) [
    | inl first ↦
        let inside : in_buffer buf (suc pairs * 2) at ≡ true = ground arith in
        let even : ((at - buf) % 2 == 0) ≡ true = ground arith in
        let other : at + 1 ≡ buf + 1 = ground arith in
        rw (not_second, first, inside, even, other) refl
    | inr not_first ↦
        let outside : in_buffer buf (suc pairs * 2) at ≡ false = ground arith in
        rw (not_second, not_first, outside) refl
  ]
]

swap_pairs_lem :
    (pairs : ℕ) (m : Memory) (buf at : ℕ)
    → swap_pairs pairs m buf at
      ≡ (if in_buffer buf (pairs * 2) at then m (partner buf at) else m at)
unfolding swap_pairs
swap_pairs_lem zero m buf at = ground arith
swap_pairs_lem (suc pairs) m buf at =
    swap_pairs_lem pairs (swapped m buf) (buf + 2) at
    ∙ elim (Bool-cases (in_buffer (buf + 2) (pairs * 2) at)) [
      | inl here ↦
          let late : buf + 2 ≤ at = ground arith in
          let inside : in_buffer buf (suc pairs * 2) at ≡ true = ground arith in
          rw (here, inside, partner-step buf at late)
            (swapped_late m buf (partner buf at) (partner_late buf at late))
      | inr there ↦ rw there (swapped_out m buf pairs at there)
    ]

-- After ata_swap_words of a string of an even number of bytes, not 0: the two bytes of each pair are
-- exchanged, the last byte is the end of the string, and every byte outside the string is as before.
ata_swap_words_lem :
    (m : Memory) (buf pairs at : ℕ)
    → 0 < pairs
    → ata_swap_words m buf (pairs * 2) at ≡ (
        if buf + pairs * 2 == at + 1
        then 0
        else if in_buffer buf (pairs * 2) at
        then m (partner buf at)
        else m at)
unfolding ata_swap_words
ata_swap_words_lem m buf pairs at some =
    let half : (pairs * 2 + 1) / 2 ≡ pairs = omega arith in
    let last : (buf + pairs * 2 - 1 == at) ≡ (buf + pairs * 2 == at + 1) = ground arith in
    rw (half, last, swap_pairs_lem pairs m buf at) refl
