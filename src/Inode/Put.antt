-- ===== src/Inode/Put.antt =====
-- `iput`: a reference less; the last one frees the slot.
use txos.Base.{
  ℕ, ◌+◌, ◌-◌, ◌%◌, ◌<◌, ◌≡◌, ◌≢◌, refl, sym, ap, ◌∙◌, true, false, not, ◌&&◌, some, ok, arith,
  ◌==◌, ltb, if◌then◌else◌, update, update-rest, update-field, Bool-cases, inl, inr, ==_iff,
  ==_refl, ==_ne,
}
use txos.Stdlib.{word}
use txos.NodeList.Sequence.{without, elem-without}
use txos.Fs.{Blocks}
use txos.Inode.{Inode, Superblock, Tables, eof, get_superblock, put_free_inode, iput}
use txos.Inode.Valid.{IsValid, listed, changed, changed-IsValid}

-- What `iput` leaves: the last reference takes the inode out of the list of its file system and gives
-- its slot back; any other only counts.
pub record Closed (t : Tables) (sb i : ℕ) (t' : Tables) : Type 0 where
  pub valid : IsValid t'
  pub count : (t'.inodes i).count + 1 ≡ (t.inodes i).count
  pub device : (t'.inodes i).dev_id ≡ (if (t.inodes i).count == 1 then eof else (t.inodes i).dev_id)
  pub lists :
      (k : ℕ)
      → (t'.superblocks k).inode_list ≡ (
          if sb == k && (t.inodes i).count == 1
          then without (t.superblocks k).inode_list i
          else (t.superblocks k).inode_list)
  pub inodes : (p : ℕ) → t'.inodes p ≡ (if i == p then t'.inodes p else t.inodes p)

module _ {t : Tables} (v : IsValid t) (sb i : ℕ) (here : listed t sb i ≡ true)
    (mount : get_superblock t (t.inodes i).dev_id ≡ some sb) where
  alone : (k : ℕ) → listed t k i ≡ true → k ≡ sb
  alone k h =
      v.devices k sb (sym (v.mounted k i h) ∙ v.mounted sb i here)
        (rw (← v.mounted k i h) (v.used k i h))

  abbrev dropped : Tables
  dropped = changed t i (record (t.inodes i) { count = (t.inodes i).count - 1 })

  dropped-Closed : 1 < (t.inodes i).count → Closed t sb i dropped
  dropped-Closed many =
      let more : ((t.inodes i).count == 1) ≡ false = ground arith in
      record {
        valid = changed-IsValid t i _ refl refl (omega arith) v;
        count = rw (==_refl i) (omega arith);
        device = rw (==_refl i, more) refl;
        lists = λ k. rw more (ground arith);
        inodes = update-rest t.inodes i _;
      }

  -- the inode without a reference
  abbrev idle : Inode
  idle = record (t.inodes i) { count = 0 }

  abbrev closed : Tables
  closed = record {
    superblocks =
        update t.superblocks sb
          (record (t.superblocks sb) { inode_list = without (t.superblocks sb).inode_list i });
    inodes = update (update t.inodes i idle) i (record (update t.inodes i idle i) { dev_id = eof });
  }

  elsewhere : (k p : ℕ) → (sb == k) ≡ false → i ≡ p → listed t k p ≡ false
  elsewhere k p other e = elim (Bool-cases (listed t k p)) [
    | inl at ↦ let same : k ≡ sb = alone k (ap (listed t k) e ∙ at) in ground arith
    | inr out ↦ out
  ]

  closed-listed : (k p : ℕ) → listed closed k p ≡ (listed t k p && not (i == p))
  closed-listed k p = elim (Bool-cases (sb == k)) [
    | inl same ↦
        rw (same, ← (==_iff sb k).0 same)
          (elem-without p (t.superblocks sb).inode_list i ∙ ground arith)
    | inr other ↦ rw other (elim (Bool-cases (i == p)) [
      | inl e ↦ rw (e, elsewhere k p other ((==_iff i p).0 e)) refl
      | inr apart ↦ rw apart (ground arith)
    ])
  ]

  kept : (k p : ℕ) → listed closed k p ≡ true → listed t k p ≡ true
  kept k p h = ground (arith, closed-listed k p)

  apart : (k p : ℕ) → listed closed k p ≡ true → (i == p) ≡ false
  apart k p h = ground (arith, closed-listed k p)

  super_device : (k : ℕ) → (closed.superblocks k).dev_id ≡ (t.superblocks k).dev_id
  super_device k =
      update-field (λ (x : Superblock). x.dev_id) t.superblocks sb
        (record (t.superblocks sb) { inode_list = without (t.superblocks sb).inode_list i }) k refl

  closed-IsValid : IsValid closed
  closed-IsValid = record {
    mounted = λ k p h. rw (apart k p h) (v.mounted k p (kept k p h) ∙ sym (super_device k));
    used = λ k p h. rw (apart k p h) (v.used k p (kept k p h));
    referenced = λ k p h. rw (apart k p h) (v.referenced k p (kept k p h));
    devices = λ j k same real.
        v.devices j k (sym (super_device j) ∙ same ∙ super_device k) (rw (← super_device j) real);
    single = λ k p q hp hq e.
        v.single k p q (kept k p hp) (kept k q hq) (rw (apart k p hp, apart k q hq) at e);
  }

  closed-Closed : (t.inodes i).count ≡ 1 → Closed t sb i closed
  closed-Closed one = record {
    valid = closed-IsValid;
    count = rw (==_refl i, one) refl;
    device = rw (==_refl i, one) refl;
    lists = λ k. rw one (elim (Bool-cases (sb == k)) [
      | inl same ↦ rw (same, (==_iff sb k).0 same) refl
      | inr other ↦ rw other refl
    ]);
    inodes =
        λ p. elim (Bool-cases (i == p)) [ inl same ↦ rw same refl | inr other ↦ rw other refl ];
  }

  -- In valid tables iput of an inode, not that of the root, in the list of its mounted file system, with
  -- fewer than 2^32 references, and whose buffer can be released, leaves the tables
  -- as `Closed` describes them, which are valid.
  pub iput_lem :
      {S : Type 0} (b : Blocks S) (s : S)
      → i ≢ 0
      → (t.inodes i).count < word
      → (s' : S) × (b.brelse s (t.inodes i).buf ≡ ok s')
      → (t' : Tables) × (s' : S) × (iput b t s (some i) ≡ ok (t', s')) × Closed t sb i t'
  unfolding iput put_free_inode get_superblock
  iput_lem b s low small (s', released) = elim (Bool-cases ((t.inodes i).count == 1)) [
    | inl last ↦
        let one : (t.inodes i).count ≡ 1 = (==_iff (t.inodes i).count 1).0 last in
        let count : ((t.inodes i).count + word - 1) % word ≡ 0 = omega arith in
        (closed, s', rw (count, released, mount, ==_refl i, ==_ne i 0 low) refl, closed-Closed one)
    | inr more ↦
        let some_reference : 0 < (t.inodes i).count = v.referenced sb i here in
        let many : 1 < (t.inodes i).count = ground arith in
        let count : ((t.inodes i).count + word - 1) % word ≡ (t.inodes i).count - 1 = omega arith in
        let left : ltb 0 ((t.inodes i).count - 1) ≡ true = ground arith in
        (dropped, s, rw (count, left) refl, dropped-Closed many)
  ]
