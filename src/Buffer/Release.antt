-- ===== src/Buffer/Release.antt =====
-- `brelse`: a reference less; the last one writes the block back and frees the buffer.
use mathlib.Core.List.{append-nil}
use mathlib.Core.Path.{fun_ext}
use txos.Base.{
  ℕ, ◌+◌, ◌-◌, ◌*◌, ◌%◌, ◌<◌, ◌≡◌, refl, sym, ap, ◌∙◌, Bool, true, false, ◌&&◌, ◌||◌, List, [], ◌∷◌,
  ◌++◌, ok, arith, elem, ◌==◌, ltb, if◌then◌else◌, update, update-rest, Bool-cases, inl, inr,
  ==_iff, ==_refl, ==_ne, ◌≢◌, null, Outcome, ◌>>=◌,
}
use txos.Stdlib.{word}
use txos.NodeList.Walk.{is_nil}
use txos.NodeList.Sequence.{push_front, pop_front}
use txos.Buffer.{Buffer, Cache, Request, Storage, block_secs, bwrite, brelse}
use txos.Buffer.Valid.{IsValid, hashed, changed, changed-hashed, changed-IsValid, waiting-IsValid}
use txos.Buffer.Read.{IsServed, IsCoherent, on_disk, synced}

-- the first waiting task, and the others
abbrev pub first_of : List ℕ → List ℕ
first_of [] = []
first_of (task ∷ waiting) = task ∷ []

abbrev pub rest_of : List ℕ → List ℕ
rest_of [] = []
rest_of (task ∷ waiting) = waiting

abbrev pub woken : Cache → Cache
woken c = record c {
  wait_list = rest_of c.wait_list;
  unblocked = c.unblocked ++ first_of c.wait_list;
}

-- `b` with one reference less
abbrev pub dropped : Buffer → Buffer
dropped b = record b { count = b.count - 1 }

-- `b` free, and written back if it was dirty
abbrev pub cleaned : Buffer → Buffer
cleaned b = record b { count = 0; dirty = false; valid = b.dirty || b.valid }

-- `s` after a write of the block of `b`
abbrev pub stored : Storage → Buffer → Storage
stored s b = record s {
  disk = λ dev_id idx.
      if dev_id == b.dev_id && idx == b.block * block_secs % word
      then s.memory b.data_at
      else s.disk dev_id idx;
}

update-twice {ℓ} :
    {V : Type ℓ} (memory : ℕ → V) (address : ℕ) (old new : V)
    → update (update memory address old) address new ≡ update memory address new
update-twice memory address old new = fun_ext (λ at. elim (Bool-cases (address == at)) [
  | inl here ↦ rw here refl
  | inr there ↦ rw there refl
])

-- the wake-up at the end of `brelse`
abbrev wake : Cache → Storage → List ℕ → Outcome (Cache × Storage)
wake c s waiting_list =
    let woken_up = (do
      (task, waiting) ← pop_front waiting_list
      ok (record c { wait_list = waiting; unblocked = c.unblocked ++ task ∷ [] }, s)) in
    if is_nil waiting_list then ok (c, s) else woken_up

wake_from :
    (c : Cache) (s : Storage) (list : List ℕ)
    → c.wait_list ≡ list
    → wake c s list
      ≡ ok (record c { wait_list = rest_of list; unblocked = c.unblocked ++ first_of list }, s)
unfolding pop_front
wake_from c s [] e = rw append-nil (
    ap (λ (w : List ℕ). let r : Outcome (Cache × Storage) = ok (record c { wait_list = w }, s) in r)
      e)
wake_from c s (task ∷ list) e = refl

bwrite_lem :
    (dev_request : Request → Cache → Storage → Outcome (Cache × Storage)) (devices : ℕ → Bool)
    (c : Cache) (s : Storage) (bf : ℕ)
    → IsServed dev_request devices
    → devices (c.buffers bf).dev_id ≡ true
    → bwrite dev_request c s bf
      ≡ ok (
        if (c.buffers bf).dirty then synced c bf else c,
        if (c.buffers bf).dirty then stored s (c.buffers bf) else s,
      )
unfolding bwrite
bwrite_lem dev_request devices c s bf served listed = elim (Bool-cases (c.buffers bf).dirty) [
  | inl dirty ↦ rw (dirty, served.write (c.buffers bf) c s listed) refl
  | inr clean ↦ rw clean refl
]

module _ (dev_request : Request → Cache → Storage → Outcome (Cache × Storage)) (devices : ℕ → Bool)
    (c : Cache) (s : Storage) (bf : ℕ) where
  brelse-dropped :
      bf ≢ null
      → 1 < (c.buffers bf).count
      → (c.buffers bf).count < word
      → brelse dev_request c s bf ≡ ok (changed c bf (dropped (c.buffers bf)) c.free_list, s)
  unfolding brelse
  brelse-dropped there many small =
      let count : ((c.buffers bf).count + word - 1) % word ≡ (c.buffers bf).count - 1 =
        omega arith in
      let more : ltb 0 ((c.buffers bf).count - 1) ≡ true = ground arith in
      rw (==_ne bf null there, count, more) refl

  abbrev zeroed : Cache
  zeroed = changed c bf (record (c.buffers bf) { count = 0 }) (bf ∷ c.free_list)

  settled :
      (if (zeroed.buffers bf).dirty then synced zeroed bf else zeroed)
      ≡ changed c bf (cleaned (c.buffers bf)) (bf ∷ c.free_list)
  settled = elim (Bool-cases (c.buffers bf).dirty) [
    | inl dirty ↦
        rw (==_refl bf, dirty)
          (ap (λ (m : ℕ → Buffer). record zeroed { buffers = m }) (update-twice c.buffers bf _ _))
    | inr clean ↦ rw (==_refl bf, clean) refl
  ]

  brelse-cleaned :
      bf ≢ null
      → IsServed dev_request devices
      → devices (c.buffers bf).dev_id ≡ true
      → (c.buffers bf).count ≡ 1
      → elem bf c.free_list ≡ false
      → brelse dev_request c s bf
        ≡ ok (
          woken (changed c bf (cleaned (c.buffers bf)) (bf ∷ c.free_list)),
          if (c.buffers bf).dirty then stored s (c.buffers bf) else s,
        )
  unfolding brelse push_front
  brelse-cleaned there served listed one out =
      let count : ((c.buffers bf).count + word - 1) % word ≡ 0 = omega arith in
      rw
        (
          ==_ne bf null there,
          count,
          out,
          bwrite_lem dev_request devices zeroed s bf served (rw (==_refl bf) listed),
        )
        (wake_from (if (zeroed.buffers bf).dirty then synced zeroed bf else zeroed)
            (if (zeroed.buffers bf).dirty then stored s (zeroed.buffers bf) else s) _ refl
          ∙ rw settled (rw (==_refl bf) refl))

module _ {c : Cache} {s : Storage} (v : IsValid c) (k : IsCoherent c s) (bf : ℕ)
    (here : hashed c bf ≡ true) where
  unlisted : 0 < (c.buffers bf).count → elem bf c.free_list ≡ false
  unlisted used = v.free bf ∙ ground arith

  dropped-free :
      1 < (c.buffers bf).count
      → (p : ℕ)
      → elem p c.free_list
        ≡ (hashed c p && ((update c.buffers bf (dropped (c.buffers bf)) p).count == 0))
  dropped-free many p = elim (Bool-cases (bf == p)) [
    | inl same ↦ rw same (
        ap (λ q. elem q c.free_list) (sym ((==_iff bf p).0 same))
        ∙ unlisted (omega arith)
        ∙ ground arith)
    | inr apart ↦ rw apart (v.free p)
  ]

  dropped-IsValid :
      1 < (c.buffers bf).count → IsValid (changed c bf (dropped (c.buffers bf)) c.free_list)
  dropped-IsValid many =
      changed-IsValid c bf (dropped (c.buffers bf)) c.free_list (refl, refl, refl) v
        (dropped-free many) (λ h zero. absurd (omega arith)) v.once

  cleaned-free :
      (p : ℕ)
      → elem p (bf ∷ c.free_list)
        ≡ (hashed c p && ((update c.buffers bf (cleaned (c.buffers bf)) p).count == 0))
  cleaned-free p = elim (Bool-cases (bf == p)) [
    | inl same ↦ rw same (sym (ap (hashed c) (sym ((==_iff bf p).0 same)) ∙ here) ∙ ground arith)
    | inr apart ↦ rw apart (v.free p)
  ]

  cleaned-IsValid :
      (c.buffers bf).count ≡ 1 → IsValid (changed c bf (cleaned (c.buffers bf)) (bf ∷ c.free_list))
  cleaned-IsValid one =
      changed-IsValid c bf (cleaned (c.buffers bf)) (bf ∷ c.free_list) (refl, refl, refl) v
        cleaned-free (λ h zero. refl) (rw (unlisted (omega arith)) v.once)

  dropped-IsCoherent : IsCoherent (changed c bf (dropped (c.buffers bf)) c.free_list) s
  dropped-IsCoherent = record {
    small = λ p h. elim (Bool-cases (bf == p)) [
      | inl same ↦ rw same (k.small bf here)
      | inr apart ↦ rw apart (k.small p (rw apart at h))
    ];
    same = λ p h valid clean. elim (Bool-cases (bf == p)) [
      | inl same ↦ rw same (k.same bf here (rw same at valid) (rw same at clean))
      | inr apart ↦ rw apart (k.same p (rw apart at h) (rw apart at valid) (rw apart at clean))
    ];
  }

  apart_on_disk :
      (p : ℕ)
      → hashed c p ≡ true
      → (bf == p) ≡ false
      → ((c.buffers p).dev_id == (c.buffers bf).dev_id
          && (c.buffers p).block * block_secs % word == (c.buffers bf).block * block_secs % word)
        ≡ false
  apart_on_disk p h apart = ground (arith, v.single p bf h here, k.small p h, k.small bf here)

  abbrev after_write : Storage
  after_write = if (c.buffers bf).dirty then stored s (c.buffers bf) else s

  cleaned-same :
      (cleaned (c.buffers bf)).valid ≡ true
      → after_write.memory (c.buffers bf).data_at ≡ on_disk after_write (c.buffers bf)
  cleaned-same valid = elim (Bool-cases (c.buffers bf).dirty) [
    | inl dirty ↦
        rw
          (dirty, ==_refl (c.buffers bf).dev_id, ==_refl ((c.buffers bf).block * block_secs % word))
          refl
    | inr clean ↦ rw clean (k.same bf here (rw clean at valid) clean)
  ]

  others-same :
      (p : ℕ)
      → hashed c p ≡ true
      → (bf == p) ≡ false
      → (c.buffers p).valid ≡ true
      → (c.buffers p).dirty ≡ false
      → after_write.memory (c.buffers p).data_at ≡ on_disk after_write (c.buffers p)
  others-same p h apart valid clean_p = elim (Bool-cases (c.buffers bf).dirty) [
    | inl dirty ↦ rw (dirty, apart_on_disk p h apart) (k.same p h valid clean_p)
    | inr clean ↦ rw clean (k.same p h valid clean_p)
  ]

  cleaned-IsCoherent :
      IsCoherent (woken (changed c bf (cleaned (c.buffers bf)) (bf ∷ c.free_list))) after_write
  cleaned-IsCoherent = record {
    small = λ p h. elim (Bool-cases (bf == p)) [
      | inl same ↦ rw same (k.small bf here)
      | inr apart ↦ rw apart (k.small p (rw apart at h))
    ];
    same = λ p h valid clean. elim (Bool-cases (bf == p)) [
      | inl same ↦ rw same (cleaned-same (rw same at valid))
      | inr apart ↦
          rw apart (others-same p (rw apart at h) apart (rw apart at valid) (rw apart at clean))
    ];
  }

-- What `brelse` leaves: the last reference puts the buffer at the front of the free list, writes it to
-- the device if it is dirty, and wakes the task that has waited longest.
pub record Released (c : Cache) (s : Storage) (bf : ℕ) (c' : Cache) (s' : Storage) : Type 0 where
  pub valid : IsValid c'
  pub coherent : IsCoherent c' s'
  pub count : (c'.buffers bf).count + 1 ≡ (c.buffers bf).count
  pub free_list :
      c'.free_list ≡ (if (c.buffers bf).count == 1 then bf ∷ c.free_list else c.free_list)
  pub storage : s' ≡ (
      if (c.buffers bf).count == 1
      then if (c.buffers bf).dirty then stored s (c.buffers bf) else s
      else s)
  pub unblocked :
      c'.unblocked
      ≡ (if (c.buffers bf).count == 1 then c.unblocked ++ first_of c.wait_list else c.unblocked)
  pub buffers : (p : ℕ) → c'.buffers p ≡ (if bf == p then c'.buffers p else c.buffers p)
  pub hashed_all : (p : ℕ) → hashed c' p ≡ hashed c p

-- In a valid cache that agrees with the devices, with requests for its device that are served while no other task uses the cache, brelse of a buffer
-- in the hash table, at no NULL address, that has a reference, and fewer than 2^32, leaves a valid cache that agrees with the
-- devices, as `Released` describes it.
pub brelse_lem :
    (dev_request : Request → Cache → Storage → Outcome (Cache × Storage)) (devices : ℕ → Bool)
    {c : Cache} {s : Storage} (bf : ℕ)
    → bf ≢ null
    → IsServed dev_request devices
    → IsValid c
    → IsCoherent c s
    → hashed c bf ≡ true
    → devices (c.buffers bf).dev_id ≡ true
    → 0 < (c.buffers bf).count
    → (c.buffers bf).count < word
    → (c' : Cache) × (s' : Storage) × (brelse dev_request c s bf ≡ ok (c', s'))
      × Released c s bf c' s'
brelse_lem dev_request devices {c} {s} bf there served v k here listed used small =
    elim (Bool-cases ((c.buffers bf).count == 1)) [
      | inl last ↦
          let one : (c.buffers bf).count ≡ 1 = (==_iff (c.buffers bf).count 1).0 last in
          (
            _,
            _,
            brelse-cleaned dev_request devices c s bf there served listed one
                (unlisted v k bf here used),
            record {
              valid = waiting-IsValid _ _ (cleaned-IsValid v k bf here one);
              coherent = cleaned-IsCoherent v k bf here;
              count = rw (==_refl bf, one) (omega arith);
              free_list = rw last refl;
              storage = rw last refl;
              unblocked = rw last refl;
              buffers = update-rest c.buffers bf _;
              hashed_all = λ p. changed-hashed c bf _ (bf ∷ c.free_list) (refl, refl, refl) p;
            },
          )
      | inr more ↦
          let many : 1 < (c.buffers bf).count = ground arith in
          (
            _,
            _,
            brelse-dropped dev_request devices c s bf there many small,
            record {
              valid = dropped-IsValid v k bf here many;
              coherent = dropped-IsCoherent v k bf here;
              count = rw (==_refl bf) (omega arith);
              free_list = rw more refl;
              storage = rw more refl;
              unblocked = rw more refl;
              buffers = update-rest c.buffers bf _;
              hashed_all = λ p. changed-hashed c bf _ c.free_list (refl, refl, refl) p;
            },
          )
    ]
