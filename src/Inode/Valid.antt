-- ===== src/Inode/Valid.antt =====
-- The invariant of the two tables, and the changes of a count that keep it.
use txos.Base.{
  ℕ, zero, suc, ◌+◌, ◌<◌, ◌≡◌, ◌≢◌, sym, ◌∙◌, Bool, true, List, [], ◌∷◌, none, some, arith, elem,
  ◌==◌, update, update-field, Bool-cases, inl, inr, ==_iff,
}
use txos.Inode.{Inode, Tables, eof, find_slot, find_nr, get_superblock, superblock_nr}

-- whether an inode is in the list of a file system
abbrev pub listed : Tables → (sb i : ℕ) → Bool
listed t sb i = elem i (t.superblocks sb).inode_list

pub record IsValid (t : Tables) : Type 0 where
  pub mounted : (sb i : ℕ) → listed t sb i ≡ true → (t.inodes i).dev_id ≡ (t.superblocks sb).dev_id
  pub used : (sb i : ℕ) → listed t sb i ≡ true → (t.inodes i).dev_id ≢ eof
  pub referenced : (sb i : ℕ) → listed t sb i ≡ true → 0 < (t.inodes i).count
  pub devices :
      (j k : ℕ)
      → (t.superblocks j).dev_id ≡ (t.superblocks k).dev_id
      → (t.superblocks j).dev_id ≢ eof
      → j ≡ k
  pub single :
      (sb i j : ℕ)
      → listed t sb i ≡ true
      → listed t sb j ≡ true
      → (t.inodes i).nr ≡ (t.inodes j).nr
      → i ≡ j

-- The slot that a search finds has the device.
pub find_slot-some :
    (left : ℕ) (dev_id_of : ℕ → ℕ) (dev_id i found : ℕ)
    → find_slot left dev_id_of dev_id i ≡ some found
    → dev_id_of found ≡ dev_id
unfolding find_slot
find_slot-some zero dev_id_of dev_id i found h = cc
find_slot-some (suc left) dev_id_of dev_id i found h = elim (Bool-cases (dev_id_of i == dev_id)) [
  | inl here ↦
      let same : some i ≡ some found = rw here at h in
      let e : i ≡ found = cc in rw (← e) ((==_iff (dev_id_of i) dev_id).0 here)
  | inr there ↦ find_slot-some left dev_id_of dev_id (i + 1) found (rw there at h)
]

pub get_superblock-dev_id :
    (t : Tables) (dev_id sb : ℕ)
    → get_superblock t dev_id ≡ some sb
    → (t.superblocks sb).dev_id ≡ dev_id
unfolding get_superblock
get_superblock-dev_id t dev_id sb h =
    find_slot-some superblock_nr (λ i. (t.superblocks i).dev_id) dev_id 0 sb h

pub find_nr-some :
    (inodes : ℕ → Inode) (nr i : ℕ) (list : List ℕ)
    → find_nr inodes nr list ≡ some i
    → (elem i list ≡ true) × ((inodes i).nr ≡ nr)
unfolding find_nr
find_nr-some inodes nr i [] h = cc
find_nr-some inodes nr i (x ∷ list) h = elim (Bool-cases ((inodes x).nr == nr)) [
  | inl here ↦
      let same : some x ≡ some i = rw here at h in let e : x ≡ i = cc in rw (← e) (ground arith)
  | inr there ↦
      let more = find_nr-some inodes nr i list (rw there at h) in (ground (arith, more), more.1)
]

pub find_nr-none :
    (inodes : ℕ → Inode) (nr i : ℕ) (list : List ℕ)
    → find_nr inodes nr list ≡ none
    → elem i list ≡ true
    → (inodes i).nr ≢ nr
unfolding find_nr
find_nr-none inodes nr i [] h at same = cc
find_nr-none inodes nr i (x ∷ list) h at same = elim (Bool-cases ((inodes x).nr == nr)) [
  | inl here ↦ cc (rw here at h)
  | inr there ↦ elim (Bool-cases (x == i)) [
    | inl e ↦
        let e' : x ≡ i = (==_iff x i).0 e in
        let here : ((inodes x).nr == nr) ≡ true = rw e' (ground arith) in absurd (cc)
    | inr other ↦ find_nr-none inodes nr i list (rw there at h) (rw other at at) same
  ]
]

-- the tables with one inode changed
abbrev pub changed : Tables → (i : ℕ) → Inode → Tables
changed t i inode = record t { inodes = update t.inodes i inode }

-- A change that keeps the device, the number and a reference keeps the invariant.
pub changed-IsValid :
    (t : Tables) (i : ℕ) (inode : Inode)
    → inode.dev_id ≡ (t.inodes i).dev_id
    → inode.nr ≡ (t.inodes i).nr
    → 0 < inode.count
    → IsValid t
    → IsValid (changed t i inode)
changed-IsValid t i inode dev nr some_reference v =
    let dev_same = λ (p : ℕ). update-field (λ (x : Inode). x.dev_id) t.inodes i inode p dev in
    let nr_same = λ (p : ℕ). update-field (λ (x : Inode). x.nr) t.inodes i inode p nr in
    record {
      mounted = λ sb p h. dev_same p ∙ v.mounted sb p h;
      used = λ sb p h. rw (dev_same p) (v.used sb p h);
      referenced = λ sb p h. elim (Bool-cases (i == p)) [
        | inl same ↦ rw same some_reference
        | inr apart ↦ rw apart (v.referenced sb p h)
      ];
      devices = v.devices;
      single = λ sb p q hp hq e. v.single sb p q hp hq (sym (nr_same p) ∙ e ∙ nr_same q);
    }
