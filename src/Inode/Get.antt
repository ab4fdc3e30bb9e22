-- ===== src/Inode/Get.antt =====
-- `iget`: the inode of a number, in use already or not.
use txos.Base.{
  ℕ, ◌+◌, ◌-◌, ◌*◌, ◌/◌, ◌%◌, ◌^◌, ◌<◌, ◌≤◌, ◌≡◌, ◌≢◌, refl, sym, ap, ◌∙◌, true, false, not, ◌&&◌,
  ◌||◌, [], ◌∷◌, ◌++◌, none, some, ok, arith, elem-append, ◌==◌, leb, if◌then◌else◌, update,
  update-rest, update-field, Bool-cases, inl, inr, ==_iff, ==_refl,
}
use txos.Stdlib.{word}
use txos.NodeList.Sequence.{push_back}
use txos.Buffer.Get.{Option-cases}
use txos.Fs.{Blocks}
use txos.Inode.{
  Inode, Superblock, Tables, eof, inode_nr, ninodes_at, imap_blocks_at, zmap_blocks_at,
  block_inodes, find_slot, find_nr, get_superblock, get_free_inode, find_inode, inode_block,
  open_inode, iget,
}
use txos.Inode.Valid.{
  IsValid, listed, changed, changed-IsValid, find_slot-some, get_superblock-dev_id, find_nr-some,
  find_nr-none,
}

-- What `iget` leaves: inode `i` of the file system `sb` has the number and one reference more. If it was in
-- use it keeps its buffer and descriptor, else the buffer is `buf`, that of its block, and the
-- descriptor the one of the number there. The other inodes are as before.
pub record Opened (t : Tables) (now sb dev_id nr buf ctime i : ℕ) (t' : Tables) : Type 0 where
  pub valid : IsValid t'
  pub in_list : listed t' sb i ≡ true
  pub number : (t'.inodes i).nr ≡ nr
  pub device : (t'.inodes i).dev_id ≡ dev_id
  pub count : (t'.inodes i).count ≡ (elim (find_nr t.inodes nr (t.superblocks sb).inode_list) [
    | some old ↦ (t.inodes old).count + 1
    | none ↦ 1
  ])
  pub time : (t'.inodes i).atime ≡ now
  pub buffer : (t'.inodes i).buf ≡ (elim (find_nr t.inodes nr (t.superblocks sb).inode_list) [
    | some old ↦ (t.inodes old).buf
    | none ↦ buf
  ])
  pub descriptor : (t'.inodes i).desc ≡ (elim (find_nr t.inodes nr (t.superblocks sb).inode_list) [
    | some old ↦ (t.inodes old).desc
    | none ↦ (nr - 1) % block_inodes * 16
  ])
  pub changed_at : (t'.inodes i).ctime ≡ (elim (find_nr t.inodes nr (t.superblocks sb).inode_list) [
    | some old ↦ (t.inodes old).ctime
    | none ↦ ctime
  ])
  pub inodes : (p : ℕ) → t'.inodes p ≡ (if i == p then t'.inodes p else t.inodes p)
  pub lists :
      (k : ℕ)
      → (t'.superblocks k).inode_list ≡ (
          if sb == k && not (listed t sb i)
          then (t.superblocks k).inode_list ++ i ∷ []
          else (t.superblocks k).inode_list)

module _ {t : Tables} (v : IsValid t) (sb dev_id nr i : ℕ)
    (mount : get_superblock t dev_id ≡ some sb) where
  abbrev shared : (now : ℕ) → Inode
  shared now = record (t.inodes i) { count = ((t.inodes i).count + 1) % word; atime = now }

  shared-Opened :
      (now : ℕ)
      → find_nr t.inodes nr (t.superblocks sb).inode_list ≡ some i
      → (t.inodes i).count + 1 < word
      → (buf ctime : ℕ) → Opened t now sb dev_id nr buf ctime i (changed t i (shared now))
  shared-Opened now found small buf ctime =
      let (at, number) = find_nr-some t.inodes nr i (t.superblocks sb).inode_list found in
      let count : ((t.inodes i).count + 1) % word ≡ (t.inodes i).count + 1 = omega arith in
      record {
        valid = changed-IsValid t i (shared now) refl refl (rw count (omega arith)) v;
        in_list = at;
        number = rw (==_refl i) number;
        device = rw (==_refl i) (v.mounted sb i at ∙ get_superblock-dev_id t dev_id sb mount);
        count = rw (found, ==_refl i) count;
        time = rw (==_refl i) refl;
        buffer = rw (found, ==_refl i) refl;
        descriptor = rw (found, ==_refl i) refl;
        changed_at = rw (found, ==_refl i) refl;
        inodes = update-rest t.inodes i (shared now);
        lists = λ k. rw at (ground arith);
      }

  module _ (inode : Inode) (free : (t.inodes i).dev_id ≡ eof) (real : dev_id ≢ eof)
      (is_nr : inode.nr ≡ nr) (is_dev : inode.dev_id ≡ dev_id) (one : inode.count ≡ 1)
      (unused : find_nr t.inodes nr (t.superblocks sb).inode_list ≡ none) where
    abbrev opened : Tables
    opened = record {
      superblocks =
          update t.superblocks sb
            (record (t.superblocks sb) { inode_list = (t.superblocks sb).inode_list ++ i ∷ [] });
      inodes = update t.inodes i inode;
    }

    fresh_slot : (k : ℕ) → listed t k i ≡ false
    fresh_slot k = elim (Bool-cases (listed t k i)) [
      | inl at ↦ absurd (v.used k i at free)
      | inr out ↦ out
    ]

    opened-listed : (k p : ℕ) → listed opened k p ≡ ((sb == k && i == p) || listed t k p)
    opened-listed k p = elim (Bool-cases (sb == k)) [
      | inl same ↦
          rw (same, ← (==_iff sb k).0 same)
            (elem-append p (t.superblocks sb).inode_list (i ∷ []) ∙ ground arith)
      | inr other ↦ rw other refl
    ]

    -- another inode of a list was there before
    before : (k p : ℕ) → listed opened k p ≡ true → (i == p) ≡ false → listed t k p ≡ true
    before k p h apart = ground (arith, opened-listed k p)

    own_list : (k p : ℕ) → listed opened k p ≡ true → (i == p) ≡ true → sb ≡ k
    own_list k p h same =
        let out : listed t k p ≡ false =
          ap (listed t k) (sym ((==_iff i p).0 same)) ∙ fresh_slot k in
        (==_iff sb k).0 (ground (arith, opened-listed k p))

    super_device : (k : ℕ) → (opened.superblocks k).dev_id ≡ (t.superblocks k).dev_id
    super_device k =
        update-field (λ (x : Superblock). x.dev_id) t.superblocks sb
          (record (t.superblocks sb) { inode_list = (t.superblocks sb).inode_list ++ i ∷ [] }) k
          refl

    other_number :
        (k q : ℕ) → sb ≡ k → listed opened k q ≡ true → (i == q) ≡ false → (t.inodes q).nr ≢ nr
    other_number k q e h apart =
        find_nr-none t.inodes nr q (t.superblocks sb).inode_list unused (rw e (before k q h apart))

    opened-single :
        (k p q : ℕ)
        → listed opened k p ≡ true
        → listed opened k q ≡ true
        → (opened.inodes p).nr ≡ (opened.inodes q).nr
        → p ≡ q
    opened-single k p q hp hq e = elim (Bool-cases (i == p)) [
      | inl p_same ↦ elim (Bool-cases (i == q)) [
        | inl q_same ↦ ground arith
        | inr q_apart ↦ absurd (
            other_number k q (own_list k p hp p_same) hq q_apart
              (sym (rw (p_same, q_apart) at e) ∙ is_nr))
      ]
      | inr p_apart ↦ elim (Bool-cases (i == q)) [
        | inl q_same ↦ absurd (
            other_number k p (own_list k q hq q_same) hp p_apart
              (rw (p_apart, q_same) at e ∙ is_nr))
        | inr q_apart ↦
            v.single k p q (before k p hp p_apart) (before k q hq q_apart)
              (rw (p_apart, q_apart) at e)
      ]
    ]

    opened-IsValid : IsValid opened
    opened-IsValid = record {
      mounted = λ k p h. elim (Bool-cases (i == p)) [
        | inl same ↦ rw same (
            is_dev
            ∙ sym (get_superblock-dev_id t dev_id sb mount)
            ∙ ap (λ n. (t.superblocks n).dev_id) (own_list k p h same)
            ∙ sym (super_device k))
        | inr apart ↦ rw apart (v.mounted k p (before k p h apart) ∙ sym (super_device k))
      ];
      used = λ k p h. elim (Bool-cases (i == p)) [
        | inl same ↦ rw (same, is_dev) real
        | inr apart ↦ rw apart (v.used k p (before k p h apart))
      ];
      referenced = λ k p h. elim (Bool-cases (i == p)) [
        | inl same ↦ rw (same, one) (omega arith)
        | inr apart ↦ rw apart (v.referenced k p (before k p h apart))
      ];
      devices = λ j k same real_j.
          v.devices j k (sym (super_device j) ∙ same ∙ super_device k)
            (rw (← super_device j) real_j);
      single = opened-single;
    }

    opened-Opened :
        inode.desc ≡ (nr - 1) % block_inodes * 16
        → Opened t inode.atime sb dev_id nr inode.buf inode.ctime i opened
    opened-Opened is_desc = record {
      valid = opened-IsValid;
      in_list = opened-listed sb i ∙ rw (==_refl sb, ==_refl i) refl;
      number = rw (==_refl i) is_nr;
      device = rw (==_refl i) is_dev;
      count = rw (unused, ==_refl i) one;
      time = rw (==_refl i) refl;
      buffer = rw (unused, ==_refl i) refl;
      descriptor = rw (unused, ==_refl i) is_desc;
      changed_at = rw (unused, ==_refl i) refl;
      inodes = update-rest t.inodes i inode;
      lists = λ k. rw (fresh_slot sb) (elim (Bool-cases (sb == k)) [
        | inl same ↦ rw (same, (==_iff sb k).0 same) refl
        | inr other ↦ rw other refl
      ]);
    }

free_slot : (t : Tables) (i : ℕ) → get_free_inode t ≡ ok i → (t.inodes i).dev_id ≡ eof
unfolding get_free_inode
free_slot t i got = elim (Option-cases (find_slot inode_nr (λ j. (t.inodes j).dev_id) eof 0)) [
  | inl full ↦ cc (rw full at got)
  | inr (j, found) ↦
      let same : ok j ≡ ok i = rw found at got in
      let e : j ≡ i = cc in
      rw (← e) (find_slot-some inode_nr (λ n. (t.inodes n).dev_id) eof 0 j found)
]

found-nr :
    (t : Tables) (sb dev_id nr : ℕ)
    → get_superblock t dev_id ≡ some sb
    → find_inode t dev_id nr ≡ ok (find_nr t.inodes nr (t.superblocks sb).inode_list)
unfolding find_inode
found-nr t sb dev_id nr mount = rw mount refl

module _ {S : Type 0} (b : Blocks S) {t : Tables} (v : IsValid t) (s : S) (now sb dev_id nr : ℕ)
    (mount : get_superblock t dev_id ≡ some sb) where
  iget-shared :
      (i : ℕ)
      → find_nr t.inodes nr (t.superblocks sb).inode_list ≡ some i
      → iget b now t s dev_id nr ≡ ok (i, changed t i (shared v sb dev_id nr i mount now), s)
  unfolding iget
  iget-shared i found = rw (found-nr t sb dev_id nr mount, mount, found) refl

  abbrev made : (i buf : ℕ) → S → Inode
  made i buf s' =
      let desc = (nr - 1) % block_inodes * 16 in
      record {
        desc = desc;
        buf = buf;
        dev_id = dev_id;
        nr = nr;
        count = 1;
        atime = now;
        ctime = b.load s' buf (desc + 4) + b.load s' buf (desc + 5) * 2 ^ 16;
      }

  -- For a mounted file system, on a device other than EOF and with numbers of bitmap blocks below 2^16, in
  -- valid tables whose counts are below 2^32 - 1 and with a free slot, and a number from 1 on and below 2^16
  -- that the file system has and whose block can be read, iget gives the inode of the number, with the
  -- time and one reference more, and the tables are valid again. An inode in use keeps its buffer and
  -- descriptor. A new one is at the end of the list of the file system, and has the buffer that reading
  -- the block of the number gave (the block after the boot block, the superblock and the bitmaps, by 32
  -- descriptors a block), and there the descriptor of the number and its time of change. The other
  -- inodes and lists are as before.
  pub iget_lem :
      (slot imaps zmaps : ℕ)
      → dev_id ≢ eof
      → 0 < nr
      → nr < 2 ^ 16
      → nr ≤ b.load s (t.superblocks sb).buf ninodes_at
      → b.load s (t.superblocks sb).buf imap_blocks_at ≡ imaps
      → b.load s (t.superblocks sb).buf zmap_blocks_at ≡ zmaps
      → imaps < 2 ^ 16
      → zmaps < 2 ^ 16
      → ((p : ℕ) → (t.inodes p).count + 1 < word)
      → get_free_inode t ≡ ok slot
      → (buf : ℕ) (s₁ : S)
      → b.bread s dev_id (2 + imaps + zmaps + (nr - 1) / block_inodes) ≡ ok (buf, s₁)
      → (i : ℕ) × (t' : Tables) × (s' : S) × (iget b now t s dev_id nr ≡ ok (i, t', s'))
        × Opened t now sb dev_id nr buf
            (let at = (nr - 1) % block_inodes * 16 in
              b.load s₁ buf (at + 4) + b.load s₁ buf (at + 5) * 2 ^ 16)
            i
            t'
  unfolding iget open_inode push_back inode_block
  iget_lem slot imaps zmaps real pos small_nr has is_imaps is_zmaps few_i few_z small got buf s₁
        fetched =
      elim (Option-cases (find_nr t.inodes nr (t.superblocks sb).inode_list)) [
        | inl unused ↦
            let free = free_slot t slot got in
            let inside : leb nr (b.load s (t.superblocks sb).buf ninodes_at) ≡ true =
              ground arith in
            let inode = made slot buf s₁ in
            let before : (nr + word - 1) % word ≡ nr - 1 = omega arith in
            let place : (2 + imaps + zmaps + (nr - 1) / block_inodes) % word
                ≡ 2 + imaps + zmaps + (nr - 1) / block_inodes =
              omega arith in
            (
              slot,
              opened v sb dev_id nr slot mount inode free real refl refl refl unused,
              s₁,
              rw
                  (
                    found-nr t sb dev_id nr mount,
                    mount,
                    unused,
                    inside,
                    got,
                    fresh_slot v sb dev_id nr slot mount inode free real refl refl refl unused sb,
                    is_imaps,
                    is_zmaps,
                    before,
                    place,
                    fetched,
                  )
                  refl,
              opened-Opened v sb dev_id nr slot mount inode free real refl refl refl unused refl,
            )
        | inr (i, found) ↦ (
          i,
          changed t i (shared v sb dev_id nr i mount now),
          s,
          iget-shared i found,
          shared-Opened v sb dev_id nr i mount now found (small i) buf _,
        )
      ]
