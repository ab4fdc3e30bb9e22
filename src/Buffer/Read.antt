-- ===== src/Buffer/Read.antt =====
-- `bread`: what the cache has of a block is what the device has, or a change not yet written.
use txos.Base.{
  ℕ, suc, ◌+◌, ◌*◌, ◌%◌, ◌<◌, ◌≡◌, refl, sym, ap, ◌∙◌, Bool, true, false, ◌&&◌, ◌||◌, List, some,
  none, ok, arith, ◌==◌, if◌then◌else◌, update, update-field, Bool-cases, inl, inr, ==_iff, ==_refl,
  Outcome,
}
use txos.Stdlib.{word}
use txos.Buffer.{
  Buffer, Cache, Request, req_read, req_write, Storage, block_secs, block_request, bread,
}
use txos.Buffer.Valid.{IsValid, hashed, changed-hashed, changed-IsValid}
use txos.Buffer.Find.{IsFor, lookup, lookup-some}
use txos.Buffer.Evict.{ready}
use txos.Buffer.Get.{Got, getblk_lem, Option-cases}

-- A request for a block of one of the `devices` is served: when `dev_request` returns the block has been
-- copied. No other task has used the cache meanwhile.
pub record IsServed (dev_request : Request → Cache → Storage → Outcome (Cache × Storage))
    (devices : ℕ → Bool) : Type 0 where
  pub read :
      (b : Buffer) (c : Cache) (s : Storage)
      → devices b.dev_id ≡ true
      → let r = block_request b req_read in
        dev_request r c s
        ≡ ok (c, record s { memory = update s.memory r.buf (s.disk r.dev_id r.idx) })
  pub write :
      (b : Buffer) (c : Cache) (s : Storage)
      → devices b.dev_id ≡ true
      → let r = block_request b req_write in
        dev_request r c s
        ≡ ok (
          c,
          record s {
            disk = λ dev_id idx.
                if dev_id == r.dev_id && idx == r.idx then s.memory r.buf else s.disk dev_id idx;
          },
        )

-- the block of a buffer as the device has it
abbrev pub on_disk : Storage → Buffer → List ℕ
on_disk s b = s.disk b.dev_id (b.block * block_secs % word)

pub record IsCoherent (c : Cache) (s : Storage) : Type 0 where
  pub small : (p : ℕ) → hashed c p ≡ true → (c.buffers p).block * block_secs < word
  pub same :
      (p : ℕ)
      → hashed c p ≡ true
      → (c.buffers p).valid ≡ true
      → (c.buffers p).dirty ≡ false
      → s.memory (c.buffers p).data_at ≡ on_disk s (c.buffers p)

-- the cache after `bf` was read or written
abbrev pub synced : Cache → (bf : ℕ) → Cache
synced c bf = record c {
  buffers = update c.buffers bf (record (c.buffers bf) { dirty = false; valid = true });
}

module _ {c : Cache} (v : IsValid c) (bf : ℕ) where
  pub synced-hashed : (p : ℕ) → hashed (synced c bf) p ≡ hashed c p
  synced-hashed p = changed-hashed c bf _ c.free_list (refl, refl, refl) p

  pub synced-block : (p : ℕ) → ((synced c bf).buffers p).block ≡ (c.buffers p).block
  synced-block p =
      update-field (λ (x : Buffer). x.block) c.buffers bf
        (record (c.buffers bf) { dirty = false; valid = true }) p refl

  pub synced-IsValid : IsValid (synced c bf)
  synced-IsValid =
      let b = record (c.buffers bf) { dirty = false; valid = true } in
      changed-IsValid c bf b c.free_list (refl, refl, refl) v
        (λ p.
          v.free p
          ∙ ap (λ n. hashed c p && (n == 0))
              (sym (update-field (λ (x : Buffer). x.count) c.buffers bf b p refl)))
        (λ h zero. refl) v.once

  -- two buffers of the hash table have their data apart
  pub data_apart :
      (p : ℕ)
      → hashed c p ≡ true
      → hashed c bf ≡ true
      → (bf == p) ≡ false
      → ((c.buffers bf).data_at == (c.buffers p).data_at) ≡ false
  data_apart p h h' apart = ground (arith, v.paired p h, v.paired bf h')

module _ {c c' : Cache} {s : Storage} (v : IsValid c) (k : IsCoherent c s) (dev_id block bf : ℕ)
    (g : Got c dev_id block bf c') (fits : block * block_secs < word) where
  others_hashed : (p : ℕ) → hashed c' p ≡ true → (bf == p) ≡ false → hashed c p ≡ true
  others_hashed p h apart = ground (arith, g.hashed_all p)

  was_hit :
      (hit : ℕ)
      → lookup c dev_id block ≡ some hit
      → (hashed c bf ≡ true)
        × (c'.buffers bf ≡ record (c.buffers bf) { count = (c.buffers bf).count + 1 })
  was_hit hit found =
      let e : bf ≡ hit = (rw found at g.result).0 in
      (rw e (lookup-some c dev_id block hit found).0, (rw found at g.result).1)

  own_same :
      (c'.buffers bf).valid ≡ true
      → (c'.buffers bf).dirty ≡ false
      → s.memory (c'.buffers bf).data_at ≡ on_disk s (c'.buffers bf)
  own_same valid clean = elim (Option-cases (lookup c dev_id block)) [
    | inl miss ↦ let stale : (c'.buffers bf).valid ≡ false = (rw miss at g.result).1 in absurd (cc)
    | inr (hit, found) ↦
        let (here, now) = was_hit hit found in
        rw now (k.same bf here (rw now at valid) (rw now at clean))
  ]

  pub Got-IsCoherent : IsCoherent c' s
  Got-IsCoherent = record {
    small = λ p h. elim (Bool-cases (bf == p)) [
      | inl same ↦ rw (← (==_iff bf p).0 same, g.mine.1) fits
      | inr apart ↦
          let old : c'.buffers p ≡ c.buffers p = g.buffers p ∙ rw apart refl in
          rw old (k.small p (others_hashed p h apart))
    ];
    same = λ p h valid clean. elim (Bool-cases (bf == p)) [
      | inl same ↦
          let e : bf ≡ p = (==_iff bf p).0 same in
          rw (← e) (own_same (rw (← e) at valid) (rw (← e) at clean))
      | inr apart ↦
          let old : c'.buffers p ≡ c.buffers p = g.buffers p ∙ rw apart refl in
          rw old (k.same p (others_hashed p h apart) (rw old at valid) (rw old at clean))
    ];
  }

-- `s` after a read of the block of `b`
abbrev pub fetched : Storage → Buffer → Storage
fetched s b = record s { memory = update s.memory b.data_at (on_disk s b) }

module _ {c : Cache} {s : Storage} (v : IsValid c) (k : IsCoherent c s) (bf : ℕ)
    (here : hashed c bf ≡ true) where
  pub fetched-IsCoherent : IsCoherent (synced c bf) (fetched s (c.buffers bf))
  fetched-IsCoherent = record {
    small = λ p h. rw (synced-block v bf p) (k.small p (sym (synced-hashed v bf p) ∙ h));
    same = λ p h valid clean. elim (Bool-cases (bf == p)) [
      | inl same ↦ rw (same, ==_refl (c.buffers bf).data_at) refl
      | inr apart ↦
          let h' : hashed c p ≡ true = sym (synced-hashed v bf p) ∙ h in
          rw (apart, data_apart v bf p h' here apart)
            (k.same p h' (rw apart at valid) (rw apart at clean))
    ];
  }

-- What `bread` leaves: the buffer of the block, valid, referenced once more, with the block as the device
-- has it, or with changes that are not written yet; the device is not written.
pub record HasRead (c : Cache) (s : Storage) (dev_id block bf : ℕ) (c' : Cache) (s' : Storage)
    : Type 0 where
  pub valid : IsValid c'
  pub coherent : IsCoherent c' s'
  pub mine : IsFor (c'.buffers bf) dev_id block
  pub filled : (c'.buffers bf).valid ≡ true
  pub referenced :
      (c'.buffers bf).count
      ≡ (elim (lookup c dev_id block) [ some hit ↦ (c.buffers hit).count + 1 | none ↦ 1 ])
  pub contents : s'.memory (c'.buffers bf).data_at ≡ (
      if (c'.buffers bf).dirty
      then s.memory (c'.buffers bf).data_at
      else s.disk dev_id (block * block_secs % word))
  pub disk : s'.disk ≡ s.disk
  pub buffers : (p : ℕ) → c'.buffers p ≡ (if bf == p then c'.buffers p else c.buffers p)
  pub hashed_all : (p : ℕ) → hashed c' p ≡ ((bf == p) || hashed c p)

module _ {c : Cache} {s : Storage} (v : IsValid c) (k : IsCoherent c s) (dev_id block : ℕ)
    (fits : block * block_secs < word) where
  Got-referenced :
      {c' : Cache} (bf : ℕ)
      → Got c dev_id block bf c'
      → (c'.buffers bf).count
        ≡ (elim (lookup c dev_id block) [ some hit ↦ (c.buffers hit).count + 1 | none ↦ 1 ])
  Got-referenced {c'} bf g = elim (Option-cases (lookup c dev_id block)) [
    | inl miss ↦ rw miss (rw miss at g.result).0
    | inr (hit, found) ↦
        let now = was_hit v k dev_id block bf g fits hit found in
        let e : bf ≡ hit = (rw found at g.result).0 in rw (found, now.1, ← e) refl
  ]

  pub held : {c' : Cache} (bf : ℕ) → Got c dev_id block bf c' → hashed c' bf ≡ true
  held bf g = g.hashed_all bf ∙ rw (==_refl bf) refl

  was_valid :
      {c' : Cache} (bf : ℕ)
      → Got c dev_id block bf c'
      → (c'.buffers bf).valid ≡ true
      → HasRead c s dev_id block bf c' s
  was_valid {c'} bf g valid = record {
    valid = g.valid;
    coherent = Got-IsCoherent v k dev_id block bf g fits;
    mine = g.mine;
    filled = valid;
    referenced = Got-referenced bf g;
    contents = elim (Bool-cases (c'.buffers bf).dirty) [
      | inl dirty ↦ rw dirty refl
      | inr clean ↦ rw clean (
          (Got-IsCoherent v k dev_id block bf g fits).same bf (held bf g) valid clean
          ∙ rw (g.mine.0, g.mine.1) refl)
    ];
    disk = refl;
    buffers = g.buffers;
    hashed_all = g.hashed_all;
  }

  was_fetched :
      {c' : Cache} (bf : ℕ)
      → Got c dev_id block bf c'
      → HasRead c s dev_id block bf (synced c' bf) (fetched s (c'.buffers bf))
  was_fetched {c'} bf g = record {
    valid = synced-IsValid g.valid bf;
    coherent =
        fetched-IsCoherent g.valid (Got-IsCoherent v k dev_id block bf g fits) bf (held bf g);
    mine = (rw (==_refl bf) g.mine.0, rw (==_refl bf) g.mine.1);
    filled = rw (==_refl bf) refl;
    referenced = rw (==_refl bf) (Got-referenced bf g);
    contents = rw (==_refl bf, ==_refl (c'.buffers bf).data_at) (rw (g.mine.0, g.mine.1) refl);
    disk = refl;
    buffers = λ p. elim (Bool-cases (bf == p)) [
      | inl same ↦ rw same refl
      | inr apart ↦ rw apart (g.buffers p ∙ rw apart refl)
    ];
    hashed_all = λ p. synced-hashed g.valid bf p ∙ g.hashed_all p;
  }

  -- In a valid cache that agrees with the devices, has room or a free buffer, and whose counts are below
  -- 2^32 - 1, with requests for its device that are served while no other task uses the cache, bread of a block whose sectors have numbers below 2^32
  -- returns its buffer as `HasRead` describes it.
  pub bread_lem :
      (dev_request : Request → Cache → Storage → Outcome (Cache × Storage)) (devices : ℕ → Bool)
      (rounds current : ℕ) (others : Cache → Cache)
      → IsServed dev_request devices
      → devices dev_id ≡ true
      → ((p : ℕ) → (c.buffers p).count + 1 < word)
      → ready c ≡ true
      → (bf : ℕ) × (c' : Cache) × (s' : Storage) × (bread dev_request
            (suc rounds)
            current
            others
            c
            s
            dev_id
            block
          ≡ ok (bf, c', s'))
        × HasRead c s dev_id block bf c' s'
  unfolding bread
  bread_lem dev_request devices rounds current others served listed small now =
      let (bf, c', got, g) = getblk_lem v dev_id block rounds current others small now in
      elim (Bool-cases (c'.buffers bf).valid) [
        | inl valid ↦ (bf, c', s, rw (got, valid) refl, was_valid bf g valid)
        | inr stale ↦ (
          bf,
          synced c' bf,
          fetched s (c'.buffers bf),
          rw (got, stale, served.read (c'.buffers bf) c' s (rw g.mine.0 listed)) refl,
          was_fetched bf g,
        )
      ]
