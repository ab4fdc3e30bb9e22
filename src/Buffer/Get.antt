-- ===== src/Buffer/Get.antt =====
-- `getblk`: the buffer of a block, whether or not the cache has it.
use txos.Base.{
  ℕ, suc, ◌+◌, ◌%◌, ◌<◌, ◌≡◌, ◌≢◌, refl, sym, ap, ◌∙◌, true, false, not, ◌&&◌, ◌||◌, [], ◌∷◌, ◌++◌,
  some, none, ok, arith, elem, ◌==◌, if◌then◌else◌, update, update-rest, Option, Bool-cases, inl,
  inr, ◌⊎◌, ==_iff, ==_refl,
}
use txos.Stdlib.{word}
use txos.Buffer.{Cache, hash, slot, hash_insert, get_free_buffer, take_found, getblk}
use txos.Buffer.Valid.{IsValid, hashed, changed-hashed}
use txos.NodeList.Sequence.{push_front, without}
use txos.Buffer.Find.{
  IsFor, lookup, lookup-some, lookup-none, get_from_hash_table-none, getblk-taken, taken,
  taken-IsValid,
}
use txos.Buffer.Evict.{IsSpare, has_room, ready, Freed, get_free_buffer-Freed}

-- `c` after the spare buffer `bf` becomes that of a block, with one reference
abbrev pub assigned : Cache → (bf dev_id block : ℕ) → Cache
assigned c bf dev_id block = record c {
  buffers =
      update c.buffers bf (record (c.buffers bf) { dev_id = dev_id; block = block; count = 1 });
  hash_table = update c.hash_table (hash dev_id block) (bf ∷ c.hash_table (hash dev_id block));
}

module _ {c : Cache} (v : IsValid c) (bf dev_id block : ℕ) (spare : IsSpare c bf)
    (missing : (p : ℕ)
      → hashed c p ≡ true
      → (c.buffers p).dev_id ≡ dev_id
      → (c.buffers p).block ≢ block) where
  assigned-elem :
      (i p : ℕ)
      → (bf == p) ≡ false
      → elem p ((assigned c bf dev_id block).hash_table i) ≡ elem p (c.hash_table i)
  assigned-elem i p apart = elim (Bool-cases (hash dev_id block == i)) [
    | inl here ↦ rw (here, ← (==_iff (hash dev_id block) i).0 here, apart) refl
    | inr there ↦ rw there refl
  ]

  assigned-hashed : (p : ℕ) → (bf == p) ≡ false → hashed (assigned c bf dev_id block) p ≡ hashed c p
  assigned-hashed p apart = rw apart (assigned-elem (slot c p) p apart)

  own_slot :
      (i : ℕ) → elem bf ((assigned c bf dev_id block).hash_table i) ≡ true → hash dev_id block ≡ i
  own_slot i at = elim (Bool-cases (hash dev_id block == i)) [
    | inl here ↦ (==_iff (hash dev_id block) i).0 here
    | inr there ↦ absurd (cc (spare.absent i, rw there at at))
  ]

  assigned-placed :
      (i p : ℕ)
      → elem p ((assigned c bf dev_id block).hash_table i) ≡ true
      → slot (assigned c bf dev_id block) p ≡ i
  assigned-placed i p at = elim (Bool-cases (bf == p)) [
    | inl same ↦ rw same (
        own_slot i (
          ap (λ q. elem q ((assigned c bf dev_id block).hash_table i)) ((==_iff bf p).0 same) ∙ at))
    | inr apart ↦ rw apart (v.placed i p (sym (assigned-elem i p apart) ∙ at))
  ]

  assigned-single :
      (p q : ℕ)
      → hashed (assigned c bf dev_id block) p ≡ true
      → hashed (assigned c bf dev_id block) q ≡ true
      → ((assigned c bf dev_id block).buffers p).dev_id
        ≡ ((assigned c bf dev_id block).buffers q).dev_id
      → ((assigned c bf dev_id block).buffers p).block
        ≡ ((assigned c bf dev_id block).buffers q).block
      → p ≡ q
  assigned-single p q hp hq d e = elim (Bool-cases (bf == p)) [
    | inl p_same ↦ elim (Bool-cases (bf == q)) [
      | inl q_same ↦ ground arith
      | inr q_apart ↦ absurd (
          missing q (sym (assigned-hashed q q_apart) ∙ hq) (sym (rw (p_same, q_apart) at d))
            (sym (rw (p_same, q_apart) at e)))
    ]
    | inr p_apart ↦ elim (Bool-cases (bf == q)) [
      | inl q_same ↦ absurd (
          missing p (sym (assigned-hashed p p_apart) ∙ hp) (rw (q_same, p_apart) at d)
            (rw (q_same, p_apart) at e))
      | inr q_apart ↦
          v.single p q (sym (assigned-hashed p p_apart) ∙ hp) (sym (assigned-hashed q q_apart) ∙ hq)
            (rw (p_apart, q_apart) at d) (rw (p_apart, q_apart) at e)
    ]
  ]

  spare_unlisted : elem bf c.free_list ≡ false
  spare_unlisted = v.free bf ∙ rw (spare.absent (slot c bf)) refl

  assigned-free :
      (p : ℕ)
      → elem p c.free_list ≡ (
          hashed (assigned c bf dev_id block) p
          && (((assigned c bf dev_id block).buffers p).count == 0))
  assigned-free p = elim (Bool-cases (bf == p)) [
    | inl same ↦
        ap (λ q. elem q c.free_list) (sym ((==_iff bf p).0 same)) ∙ spare_unlisted ∙ ground arith
    | inr apart ↦ v.free p ∙ rw (assigned-hashed p apart, apart) refl
  ]

  pub assigned-IsValid : IsValid (assigned c bf dev_id block)
  assigned-IsValid = record {
    placed = assigned-placed;
    single = assigned-single;
    free = assigned-free;
    clean = λ p h zero. elim (Bool-cases (bf == p)) [
      | inl same ↦ rw same spare.clean
      | inr apart ↦ rw apart (v.clean p (sym (assigned-hashed p apart) ∙ h) (rw apart at zero))
    ];
    bounded = λ p h. elim (Bool-cases (bf == p)) [
      | inl same ↦ rw (← (==_iff bf p).0 same) spare.bounded
      | inr apart ↦ v.bounded p (sym (assigned-hashed p apart) ∙ h)
    ];
    paired = λ p h. elim (Bool-cases (bf == p)) [
      | inl same ↦ rw (same, ← (==_iff bf p).0 same) spare.paired
      | inr apart ↦ rw apart (v.paired p (sym (assigned-hashed p apart) ∙ h))
    ];
    next = v.next;
    above = v.above;
    once = v.once;
  }

-- What `getblk` leaves: `bf` is the buffer of the block and has one reference more; the others are as
-- before, but for a block that `bf` had and that was used least recently.
pub record Got (c : Cache) (dev_id block bf : ℕ) (c' : Cache) : Type 0 where
  pub valid : IsValid c'
  pub mine : IsFor (c'.buffers bf) dev_id block
  pub buffers : (p : ℕ) → c'.buffers p ≡ (if bf == p then c'.buffers p else c.buffers p)
  pub hashed_all : (p : ℕ) → hashed c' p ≡ ((bf == p) || hashed c p)
  pub result : elim (lookup c dev_id block) as (λ x. Type 0) [
    | some hit ↦
        (bf ≡ hit)
        × (c'.buffers bf ≡ record (c.buffers bf) { count = (c.buffers bf).count + 1 })
        × (c'.free_list ≡ without c.free_list bf)
    | none ↦
        ((c'.buffers bf).count ≡ 1)
        × ((c'.buffers bf).valid ≡ false)
        × (if has_room c then c'.free_list ≡ c.free_list else c.free_list ≡ c'.free_list ++ bf ∷ [])
  ]

-- the step of `take_found` that gives a spare buffer its block
hash_insert-assigned :
    (c : Cache) (bf dev_id block : ℕ)
    → ((i : ℕ) → elem bf (c.hash_table i) ≡ false)
    → let b = record (c.buffers bf) { dev_id = dev_id; block = block; count = 1 } in
      hash_insert (record c { buffers = update c.buffers bf b }) bf
      ≡ ok (assigned c bf dev_id block)
unfolding hash_insert push_front
hash_insert-assigned c bf dev_id block absent = rw (==_refl bf, absent (hash dev_id block)) refl

pub Option-cases : (found : Option ℕ) → (found ≡ none) ⊎ ((bf : ℕ) × (found ≡ some bf))
Option-cases none = inl refl
Option-cases (some bf) = inr (bf, refl)

module _ {c : Cache} (v : IsValid c) (dev_id block : ℕ) where
  module _ (bf : ℕ) (fc : Cache) (f : Freed c bf fc) (miss : lookup c dev_id block ≡ none) where
    still_missing :
        (p : ℕ) → hashed fc p ≡ true → (fc.buffers p).dev_id ≡ dev_id → (fc.buffers p).block ≢ block
    still_missing p h d e =
        let apart : (bf == p) ≡ false = ground (arith, f.hashed_rest p) in
        let was : hashed c p ≡ true = ground (arith, f.hashed_rest p) in
        let same : fc.buffers p ≡ c.buffers p = f.buffers p ∙ rw apart refl in
        lookup-none c dev_id block p miss was (rw same at d) (rw same at e)

    fresh-IsValid : IsValid (assigned fc bf dev_id block)
    fresh-IsValid = assigned-IsValid f.valid bf dev_id block f.spare still_missing

    fresh-buffers :
        (p : ℕ)
        → (assigned fc bf dev_id block).buffers p
          ≡ (if bf == p then (assigned fc bf dev_id block).buffers p else c.buffers p)
    fresh-buffers p = elim (Bool-cases (bf == p)) [
      | inl same ↦ rw same refl
      | inr apart ↦ rw apart (f.buffers p ∙ rw apart refl)
    ]

    fresh-hashed : (p : ℕ) → hashed (assigned fc bf dev_id block) p ≡ ((bf == p) || hashed c p)
    fresh-hashed p = elim (Bool-cases (bf == p)) [
      | inl same ↦ rw (same, ==_refl (hash dev_id block), same) refl
      | inr apart ↦
          assigned-hashed f.valid bf dev_id block f.spare still_missing p apart
          ∙ f.hashed_rest p
          ∙ rw apart (ground arith)
    ]

    pub fresh-Got : Got c dev_id block bf (assigned fc bf dev_id block)
    fresh-Got = record {
      valid = fresh-IsValid;
      mine = (rw (==_refl bf) refl, rw (==_refl bf) refl);
      buffers = fresh-buffers;
      hashed_all = fresh-hashed;
      result = rw miss (rw (==_refl bf) refl, rw (==_refl bf) f.spare.stale, f.oldest);
    }

  getblk-fresh :
      (rounds current : ℕ) (others : Cache → Cache) (bf : ℕ) (fc : Cache)
      → lookup c dev_id block ≡ none
      → get_free_buffer (suc rounds) current others c ≡ ok (bf, fc)
      → IsSpare fc bf
      → getblk (suc rounds) current others c dev_id block ≡ ok (bf, assigned fc bf dev_id block)
  unfolding getblk take_found
  getblk-fresh rounds current others bf fc miss got spare =
      let unused : ((fc.buffers bf).count == 0) ≡ true = rw spare.unused refl in
      let clean : not (fc.buffers bf).dirty ≡ true = rw spare.clean refl in
      rw
        (
          get_from_hash_table-none c dev_id block miss,
          got,
          unused,
          clean,
          hash_insert-assigned fc bf dev_id block spare.absent,
        )
        refl

  taken_rest : (bf p : ℕ) → hashed c bf ≡ true → hashed c p ≡ ((bf == p) || hashed c p)
  taken_rest bf p here = elim (Bool-cases (bf == p)) [
    | inl same ↦ rw same (ap (hashed c) (sym ((==_iff bf p).0 same)) ∙ here)
    | inr apart ↦ rw apart refl
  ]

  taken-Got :
      (bf : ℕ)
      → lookup c dev_id block ≡ some bf
      → (c.buffers bf).count + 1 < word
      → Got c dev_id block bf (taken c bf)
  taken-Got bf hit small =
      let (here, mine) = lookup-some c dev_id block bf hit in
      let count : ((c.buffers bf).count + 1) % word ≡ (c.buffers bf).count + 1 = omega arith in
      record {
        valid = taken-IsValid c bf v small;
        mine = rw (==_refl bf) mine;
        buffers = update-rest c.buffers bf _;
        hashed_all = λ p.
            changed-hashed c bf _ (without c.free_list bf) (refl, refl, refl) p
            ∙ taken_rest bf p here;
        result = rw hit (refl, rw (==_refl bf, count) refl, refl);
      }

  -- In a valid cache that has room or a free buffer, and whose counts are below 2^32 - 1, getblk does
  -- not wait: it returns the buffer of the block as `Got` describes it.
  pub getblk_lem :
      (rounds current : ℕ) (others : Cache → Cache)
      → ((p : ℕ) → (c.buffers p).count + 1 < word)
      → ready c ≡ true
      → (bf : ℕ) × (c' : Cache) × (getblk (suc rounds) current others c dev_id block ≡ ok (bf, c'))
        × Got c dev_id block bf c'
  getblk_lem rounds current others small now = elim (Option-cases (lookup c dev_id block)) [
    | inl miss ↦
        let (bf, fc, got, f) = get_free_buffer-Freed v rounds current others now in
        (
          bf,
          assigned fc bf dev_id block,
          getblk-fresh rounds current others bf fc miss got f.spare,
          fresh-Got bf fc f miss,
        )
    | inr (bf, hit) ↦ (
      bf,
      taken c bf,
      getblk-taken (suc rounds) current others c dev_id block bf hit,
      taken-Got bf hit (small bf),
    )
  ]
