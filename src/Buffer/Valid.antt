-- ===== src/Buffer/Valid.antt =====
-- The invariant of the cache, and the changes that keep it.
use txos.Base.{
  ℕ, ◌+◌, ◌-◌, ◌*◌, ◌<◌, ◌≤◌, ◌≡◌, refl, sym, ap, ◌∙◌, Bool, true, false, ◌&&◌, List, arith, elem,
  distinct, ◌==◌, update, update-field, Bool-cases, inl, inr, ==_iff,
}
use txos.Buffer.{
  Buffer, Cache, slot, kernel_buffer_base, kernel_buffer_size, block_size, buffer_init,
}

-- whether a buffer is in its list of the hash table
abbrev pub hashed : Cache → (bf : ℕ) → Bool
hashed c bf = elem bf (c.hash_table (slot c bf))

-- Buffers grow from one end of the memory of the cache and their data from the other, 1024 bytes of it
-- for each 64 of the former.
abbrev pub pairing : ℕ
pairing = kernel_buffer_base + kernel_buffer_size - block_size + 16 * kernel_buffer_base

pub record IsValid (c : Cache) : Type 0 where
  pub placed : (i p : ℕ) → elem p (c.hash_table i) ≡ true → slot c p ≡ i
  pub single :
      (p q : ℕ)
      → hashed c p ≡ true
      → hashed c q ≡ true
      → (c.buffers p).dev_id ≡ (c.buffers q).dev_id
      → (c.buffers p).block ≡ (c.buffers q).block
      → p ≡ q
  pub free : (p : ℕ) → elem p c.free_list ≡ (hashed c p && ((c.buffers p).count == 0))
  pub clean : (p : ℕ) → hashed c p ≡ true → (c.buffers p).count ≡ 0 → (c.buffers p).dirty ≡ false
  pub bounded : (p : ℕ) → hashed c p ≡ true → p < c.buffer_ptr
  pub paired : (p : ℕ) → hashed c p ≡ true → (c.buffers p).data_at + 16 * p ≡ pairing
  pub next : c.buffer_data + 16 * c.buffer_ptr ≡ pairing
  pub above : kernel_buffer_base ≤ c.buffer_ptr
  pub once : distinct c.free_list ≡ true

-- The empty cache is valid.
pub buffer_init-IsValid : (buffers : ℕ → Buffer) → IsValid (buffer_init buffers)
unfolding buffer_init
buffer_init-IsValid buffers = record {
  placed = λ i p h. cc;
  single = λ p q h. cc;
  free = λ p. refl;
  clean = λ p h. cc;
  bounded = λ p h. cc;
  paired = λ p h. cc;
  next = refl;
  above = omega arith;
  once = refl;
}

-- the waiting tasks do not matter
pub waiting-IsValid :
    {c : Cache} (waiting unblocked : List ℕ)
    → IsValid c
    → IsValid (record c { wait_list = waiting; unblocked = unblocked })
waiting-IsValid waiting unblocked v = record {
  placed = v.placed;
  single = v.single;
  free = v.free;
  clean = v.clean;
  bounded = v.bounded;
  paired = v.paired;
  next = v.next;
  above = v.above;
  once = v.once;
}

-- the buffer keeps its block and its data
abbrev pub SameBlock : Buffer → Buffer → Type 0
SameBlock b b' = (b'.dev_id ≡ b.dev_id) × (b'.block ≡ b.block) × (b'.data_at ≡ b.data_at)

-- the cache with one buffer and the free list changed
abbrev pub changed : Cache → (bf : ℕ) → Buffer → List ℕ → Cache
changed c bf b free_list = record c { buffers = update c.buffers bf b; free_list = free_list }

module _ (c : Cache) (bf : ℕ) (b : Buffer) (free_list : List ℕ)
    (same : SameBlock (c.buffers bf) b) where
  changed-dev_id : (p : ℕ) → (update c.buffers bf b p).dev_id ≡ (c.buffers p).dev_id
  changed-dev_id p = update-field (λ (x : Buffer). x.dev_id) c.buffers bf b p same.0

  changed-block : (p : ℕ) → (update c.buffers bf b p).block ≡ (c.buffers p).block
  changed-block p = update-field (λ (x : Buffer). x.block) c.buffers bf b p same.1

  changed-data_at : (p : ℕ) → (update c.buffers bf b p).data_at ≡ (c.buffers p).data_at
  changed-data_at p = update-field (λ (x : Buffer). x.data_at) c.buffers bf b p same.2

  pub changed-slot : (p : ℕ) → slot (changed c bf b free_list) p ≡ slot c p
  changed-slot p = rw (changed-dev_id p, changed-block p) refl

  pub changed-hashed : (p : ℕ) → hashed (changed c bf b free_list) p ≡ hashed c p
  changed-hashed p = ap (λ i. elem p (c.hash_table i)) (changed-slot p)

  changed-clean :
      IsValid c
      → (hashed c bf ≡ true → b.count ≡ 0 → b.dirty ≡ false)
      → (p : ℕ) → hashed c p ≡ true
      → (update c.buffers bf b p).count ≡ 0
      → (update c.buffers bf b p).dirty ≡ false
  changed-clean v clean p h zero = elim (Bool-cases (bf == p)) [
    | inl here ↦ rw here (clean (ap (hashed c) ((==_iff bf p).0 here) ∙ h) (rw here at zero))
    | inr there ↦ rw there (v.clean p h (rw there at zero))
  ]

  pub changed-IsValid :
      IsValid c
      → ((p : ℕ) → elem p free_list ≡ (hashed c p && ((update c.buffers bf b p).count == 0)))
      → (hashed c bf ≡ true → b.count ≡ 0 → b.dirty ≡ false)
      → distinct free_list ≡ true
      → IsValid (changed c bf b free_list)
  changed-IsValid v free clean once = record {
    placed = λ i p h. changed-slot p ∙ v.placed i p h;
    single = λ p q hp hq d e.
        v.single p q (sym (changed-hashed p) ∙ hp) (sym (changed-hashed q) ∙ hq)
          (sym (changed-dev_id p) ∙ d ∙ changed-dev_id q)
          (sym (changed-block p) ∙ e ∙ changed-block q);
    free = λ p.
        free p ∙ ap (λ h. h && ((update c.buffers bf b p).count == 0)) (sym (changed-hashed p));
    clean = λ p h zero. changed-clean v clean p (sym (changed-hashed p) ∙ h) zero;
    bounded = λ p h. v.bounded p (sym (changed-hashed p) ∙ h);
    paired = λ p h.
        ap (λ (d : ℕ). d + 16 * p) (changed-data_at p) ∙ v.paired p (sym (changed-hashed p) ∙ h);
    next = v.next;
    above = v.above;
    once = once;
  }
