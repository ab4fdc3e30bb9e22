-- ===== src/Buffer/Evict.antt =====
-- Where a free buffer comes from: new memory, or the block used least recently.
use txos.Base.{
  ℕ, suc, ◌+◌, ◌-◌, ◌*◌, ◌<◌, ◌≡◌, refl, sym, ap, ◌∙◌, Bool, true, false, not, ◌&&◌, ◌||◌, List, [],
  ◌∷◌, ◌++◌, some, none, ok, arith, elem, update-rest, ◌==◌, ltb, if◌then◌else◌, update, Bool-cases,
  inl, inr, ==_iff, ==_refl, elem-append,
}
use txos.Stdlib.{word}
use txos.NodeList.Deque.{unsnoc-cases}
use txos.NodeList.Walk.{is_nil}
use txos.NodeList.Sequence.{pop_back, without, elem-without, pop_back-snoc, distinct-snoc}
use txos.NodeList.Ends.{is_nil-snoc}
use txos.Buffer.{
  Cache, slot, hash_remove, get_new_buffer, get_free_buffer, sizeof_buffer, block_size,
}
use txos.Buffer.Valid.{IsValid, hashed, pairing, changed-slot}

-- a buffer that is in use by nobody and in no list of the hash table
pub record IsSpare (c : Cache) (bf : ℕ) : Type 0 where
  pub absent : (i : ℕ) → elem bf (c.hash_table i) ≡ false
  pub bounded : bf < c.buffer_ptr
  pub paired : (c.buffers bf).data_at + 16 * bf ≡ pairing
  pub unused : (c.buffers bf).count ≡ 0
  pub clean : (c.buffers bf).dirty ≡ false
  pub stale : (c.buffers bf).valid ≡ false

unfoldable pub has_room : Cache → Bool
has_room c = ltb (c.buffer_ptr + sizeof_buffer) c.buffer_data

-- what `get_new_buffer` makes
abbrev pub grown : Cache → Cache
grown c = record c {
  buffers = update c.buffers c.buffer_ptr (record {
    data_at = c.buffer_data;
    dev_id = word - 1;
    block = 0;
    count = 0;
    dirty = false;
    valid = false;
  });
  buffer_ptr = c.buffer_ptr + sizeof_buffer;
  buffer_data = c.buffer_data - block_size;
}

module _ {c : Cache} (v : IsValid c) where
  pub known : (i p : ℕ) → elem p (c.hash_table i) ≡ true → hashed c p ≡ true
  known i p h = rw (v.placed i p h) h

  beyond : (i : ℕ) → elem c.buffer_ptr (c.hash_table i) ≡ false
  beyond i = elim (Bool-cases (elem c.buffer_ptr (c.hash_table i))) [
    | inl at ↦ absurd (omega (arith, v.bounded c.buffer_ptr (known i c.buffer_ptr at)))
    | inr out ↦ out
  ]

  grown-hashed : (p : ℕ) → hashed (grown c) p ≡ hashed c p
  grown-hashed p = elim (Bool-cases (c.buffer_ptr == p)) [
    | inl here ↦
        let e : c.buffer_ptr ≡ p = (==_iff c.buffer_ptr p).0 here in
        rw (← e) (beyond _ ∙ sym (beyond _))
    | inr there ↦ rw there refl
  ]

  not_new : (p : ℕ) → hashed c p ≡ true → (c.buffer_ptr == p) ≡ false
  not_new p h = ground (arith, v.bounded p h)

  grown-unused :
      (p : ℕ)
      → (hashed c p && ((c.buffers p).count == 0))
        ≡ (hashed (grown c) p && (((grown c).buffers p).count == 0))
  grown-unused p = elim (Bool-cases (hashed c p)) [
    | inl h ↦ rw (grown-hashed p, h, not_new p h) refl
    | inr out ↦ rw (grown-hashed p, out) refl
  ]

  pub grown-IsValid : has_room c ≡ true → IsValid (grown c)
  unfolding has_room
  grown-IsValid room = record {
    placed = λ i p h. rw (not_new p (known i p h)) (v.placed i p h);
    single = λ p q hp hq d e.
        let hp' : hashed c p ≡ true = sym (grown-hashed p) ∙ hp in
        let hq' : hashed c q ≡ true = sym (grown-hashed q) ∙ hq in
        v.single p q hp' hq' (rw (not_new p hp', not_new q hq') at d)
          (rw (not_new p hp', not_new q hq') at e);
    free = λ p. v.free p ∙ grown-unused p;
    clean = λ p h zero.
        let h' : hashed c p ≡ true = sym (grown-hashed p) ∙ h in
        rw (not_new p h') (v.clean p h' (rw (not_new p h') at zero));
    bounded = λ p h. omega (arith, v.bounded p (sym (grown-hashed p) ∙ h));
    paired = λ p h.
        let h' : hashed c p ≡ true = sym (grown-hashed p) ∙ h in rw (not_new p h') (v.paired p h');
    next = ground (arith, v.next, v.above);
    above = omega (arith, v.above);
    once = v.once;
  }

  pub grown-IsSpare : IsSpare (grown c) c.buffer_ptr
  grown-IsSpare = record {
    absent = beyond;
    bounded = omega arith;
    paired = rw (==_refl c.buffer_ptr) v.next;
    unused = rw (==_refl c.buffer_ptr) refl;
    clean = rw (==_refl c.buffer_ptr) refl;
    stale = rw (==_refl c.buffer_ptr) refl;
  }

get_new_buffer-room :
    (c : Cache) → has_room c ≡ true → get_new_buffer c ≡ some (c.buffer_ptr, grown c)
unfolding get_new_buffer has_room
get_new_buffer-room c room = rw room refl

pub get_free_buffer-grown :
    (rounds current : ℕ) (others : Cache → Cache) (c : Cache)
    → has_room c ≡ true
    → get_free_buffer (suc rounds) current others c ≡ ok (c.buffer_ptr, grown c)
unfolding get_free_buffer
get_free_buffer-grown rounds current others c room =
    rw (get_new_buffer-room c room, get_free_buffer) refl

-- `c` after the buffer `bf` has gone from the free list, whose rest is `list`, and the hash table
abbrev pub evicted : Cache → (list : List ℕ) → (bf : ℕ) → Cache
evicted c list bf = record c {
  free_list = list;
  hash_table = update c.hash_table (slot c bf) (without (c.hash_table (slot c bf)) bf);
  buffers = update c.buffers bf (record (c.buffers bf) { valid = false });
}

get_new_buffer-full : (c : Cache) → has_room c ≡ false → get_new_buffer c ≡ none
unfolding get_new_buffer has_room
get_new_buffer-full c full = rw full refl

module _ {c : Cache} (v : IsValid c) (list : List ℕ) (bf : ℕ)
    (last : c.free_list ≡ list ++ bf ∷ []) where
  listed : elem bf c.free_list ≡ true
  listed = rw last (elem-append bf list (bf ∷ []) ∙ ground arith)

  was_hashed : hashed c bf ≡ true
  was_hashed = ground (arith, v.free bf, listed)

  pub get_free_buffer-evicted :
      (rounds current : ℕ) (others : Cache → Cache)
      → has_room c ≡ false
      → get_free_buffer (suc rounds) current others c ≡ ok (bf, evicted c list bf)
  unfolding get_free_buffer hash_remove
  get_free_buffer-evicted rounds current others full =
      let some_free : is_nil c.free_list ≡ false = rw last (is_nil-snoc list bf) in
      let popped : pop_back c.free_list ≡ ok (bf, list) = rw last (pop_back-snoc list bf) in
      rw (get_new_buffer-full c full, some_free, popped, was_hashed, get_free_buffer) refl

  evicted-slot : (p : ℕ) → slot (evicted c list bf) p ≡ slot c p
  evicted-slot p =
      changed-slot c bf (record (c.buffers bf) { valid = false }) list (refl, refl, refl) p

  elsewhere : (i p : ℕ) → (slot c bf == i) ≡ false → bf ≡ p → elem p (c.hash_table i) ≡ false
  elsewhere i p other same = elim (Bool-cases (elem p (c.hash_table i))) [
    | inl at ↦
        let here : slot c bf ≡ i = ap (slot c) same ∙ v.placed i p at in
        absurd (cc (rw (here, ==_refl i) at other))
    | inr out ↦ out
  ]

  evicted-elem :
      (i p : ℕ)
      → elem p ((evicted c list bf).hash_table i) ≡ (elem p (c.hash_table i) && not (bf == p))
  evicted-elem i p = elim (Bool-cases (slot c bf == i)) [
    | inl here ↦
        rw (here, ← (==_iff (slot c bf) i).0 here)
          (elem-without p (c.hash_table (slot c bf)) bf ∙ ground arith)
    | inr there ↦ rw there (elim (Bool-cases (bf == p)) [
      | inl same ↦ rw (same, elsewhere i p there ((==_iff bf p).0 same)) refl
      | inr other ↦ rw other (ground arith)
    ])
  ]

  evicted-hashed : (p : ℕ) → hashed (evicted c list bf) p ≡ (hashed c p && not (bf == p))
  evicted-hashed p = evicted-elem (slot (evicted c list bf) p) p ∙ rw (evicted-slot p) refl

  still : (p : ℕ) → hashed (evicted c list bf) p ≡ true → (bf == p) ≡ false
  still p h = ground (arith, evicted-hashed p)

  was : (p : ℕ) → hashed (evicted c list bf) p ≡ true → hashed c p ≡ true
  was p h = ground (arith, evicted-hashed p)

  idle : (c.buffers bf).count ≡ 0
  idle = ground (arith, v.free bf, listed)

  evicted-free :
      (p : ℕ)
      → elem p list ≡ (hashed (evicted c list bf) p && (((evicted c list bf).buffers p).count == 0))
  evicted-free p = rw (evicted-hashed p) (elim (Bool-cases (bf == p)) [
    | inl same ↦
        rw same (
          rw (← (==_iff bf p).0 same)
            ((distinct-snoc list bf (rw last at v.once)).1 ∙ ground arith))
    | inr other ↦
        let kept : elem p list ≡ elem p (list ++ bf ∷ []) =
          ground (arith, elem-append p list (bf ∷ [])) in
        rw other (kept ∙ ap (elem p) (sym last) ∙ v.free p ∙ ground arith)
  ])

  pub evicted-IsValid : IsValid (evicted c list bf)
  evicted-IsValid = record {
    placed = λ i p h. evicted-slot p ∙ v.placed i p (ground (arith, evicted-elem i p));
    single = λ p q hp hq d e.
        v.single p q (was p hp) (was q hq) (rw (still p hp, still q hq) at d)
          (rw (still p hp, still q hq) at e);
    free = evicted-free;
    clean = λ p h zero. rw (still p h) (v.clean p (was p h) (rw (still p h) at zero));
    bounded = λ p h. v.bounded p (was p h);
    paired = λ p h. rw (still p h) (v.paired p (was p h));
    next = v.next;
    above = v.above;
    once = (distinct-snoc list bf (rw last at v.once)).0;
  }

  pub evicted-IsSpare : IsSpare (evicted c list bf) bf
  evicted-IsSpare = record {
    absent = λ i. evicted-elem i bf ∙ rw (==_refl bf) (ground arith);
    bounded = v.bounded bf was_hashed;
    paired = rw (==_refl bf) (v.paired bf was_hashed);
    unused = rw (==_refl bf) idle;
    clean = rw (==_refl bf) (v.clean bf was_hashed idle);
    stale = rw (==_refl bf) refl;
  }

-- whether `get_free_buffer` need not wait
abbrev pub ready : Cache → Bool
ready c = has_room c || not (is_nil c.free_list)

-- What `get_free_buffer` leaves: `bf` is new, or was the last of the free list.
pub record Freed (c : Cache) (bf : ℕ) (c' : Cache) : Type 0 where
  pub valid : IsValid c'
  pub spare : IsSpare c' bf
  pub buffers : (p : ℕ) → c'.buffers p ≡ (if bf == p then c'.buffers p else c.buffers p)
  pub hashed_rest : (p : ℕ) → hashed c' p ≡ (hashed c p && not (bf == p))
  pub oldest :
      if has_room c then c'.free_list ≡ c.free_list else c.free_list ≡ c'.free_list ++ bf ∷ []

module _ {c : Cache} (v : IsValid c) where
  grown-rest : (p : ℕ) → hashed (grown c) p ≡ (hashed c p && not (c.buffer_ptr == p))
  grown-rest p = grown-hashed v p ∙ elim (Bool-cases (hashed c p)) [
    | inl h ↦ rw (h, not_new v p h) refl
    | inr out ↦ rw out refl
  ]

  pub grown-Freed : has_room c ≡ true → Freed c c.buffer_ptr (grown c)
  grown-Freed room = record {
    valid = grown-IsValid v room;
    spare = grown-IsSpare v;
    buffers = update-rest c.buffers c.buffer_ptr _;
    hashed_rest = grown-rest;
    oldest = rw room refl;
  }

  evicted-Freed :
      (list : List ℕ) (bf : ℕ)
      → c.free_list ≡ list ++ bf ∷ []
      → has_room c ≡ false
      → Freed c bf (evicted c list bf)
  evicted-Freed list bf last full = record {
    valid = evicted-IsValid v list bf last;
    spare = evicted-IsSpare v list bf last;
    buffers = update-rest c.buffers bf _;
    hashed_rest = evicted-hashed v list bf last;
    oldest = rw full last;
  }

  -- With room or a free buffer it does not wait.
  pub get_free_buffer-Freed :
      (rounds current : ℕ) (others : Cache → Cache)
      → ready c ≡ true
      → (bf : ℕ) × (c' : Cache) × (get_free_buffer (suc rounds) current others c ≡ ok (bf, c'))
        × Freed c bf c'
  get_free_buffer-Freed rounds current others now = elim (Bool-cases (has_room c)) [
    | inl room ↦ (
      c.buffer_ptr,
      grown c,
      get_free_buffer-grown rounds current others c room,
      grown-Freed room,
    )
    | inr full ↦ elim (unsnoc-cases c.free_list) [
      | inl (none_free, _) ↦ absurd (cc (rw (full, none_free) at now))
      | inr (list, bf, last, _) ↦ (
        bf,
        evicted c list bf,
        get_free_buffer-evicted v list bf last rounds current others full,
        evicted-Freed list bf last full,
      )
    ]
  ]
