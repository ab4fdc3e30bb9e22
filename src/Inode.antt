-- ===== src/Inode.antt =====
-- src/fs/inode.c, super.c: the inodes in use and the table of mounted file systems. The tables are functions of
-- the index, and the inodes of a file system are the sequence (NodeList.Sequence) of their indices. The
-- numbers of a descriptor are 16-bit words of its buffer.
pub mod Valid
pub mod Get
pub mod Put
mod Tests
use txos.Base.{
  ℕ, zero, suc, ◌+◌, ◌-◌, ◌*◌, ◌/◌, ◌%◌, ◌^◌, Bool, true, false, not, ◌&&◌, List, [], ◌∷◌, Option,
  none, some, Outcome, ok, halt, ◌>>=◌, ◌>>◌, assert, from_option, null, ◌==◌, ltb, leb,
  if◌then◌else◌, update,
}
use txos.Stdlib.{word}
use txos.NodeList.Sequence.{push_back, without}
use txos.Fs.{Blocks}

-- `EOF` as a device number: a slot that is not in use
abbrev pub eof : ℕ
eof = word - 1

abbrev pub inode_nr : ℕ
inode_nr = 64

abbrev pub superblock_nr : ℕ
superblock_nr = 16

-- 32 bytes each
abbrev pub block_inodes : ℕ
block_inodes = 32

abbrev pub minix_magic : ℕ
minix_magic = 0x137f

abbrev pub imap_max_blocks : ℕ
imap_max_blocks = 8

abbrev pub zmap_max_blocks : ℕ
zmap_max_blocks = 8

-- the places of a superblock descriptor
abbrev pub ninodes_at : ℕ
ninodes_at = 0

abbrev pub imap_blocks_at : ℕ
imap_blocks_at = 2

abbrev pub zmap_blocks_at : ℕ
zmap_blocks_at = 3

abbrev pub magic_at : ℕ
magic_at = 8

-- `inode_t`; `desc` is the place of the descriptor in the buffer
pub record Inode : Type 0 where
  pub desc : ℕ
  pub buf : ℕ
  pub dev_id : ℕ
  pub nr : ℕ
  pub count : ℕ
  pub atime : ℕ
  pub ctime : ℕ

-- `superblock_t`
pub record Superblock : Type 0 where
  pub buf : ℕ
  pub imaps : List ℕ
  pub zmaps : List ℕ
  pub dev_id : ℕ
  pub inode_list : List ℕ

pub record Tables : Type 0 where
  pub superblocks : ℕ → Superblock
  pub inodes : ℕ → Inode

unfoldable pub inode_init : Tables → Tables
inode_init t = record t {
  inodes = λ i. if ltb i inode_nr then record (t.inodes i) { dev_id = eof } else t.inodes i;
}

-- the slots from `i` on, of which `left` are left
unfoldable pub find_slot : (left : ℕ) → (dev_id_of : ℕ → ℕ) → (dev_id i : ℕ) → Option ℕ
find_slot zero dev_id_of dev_id i = none
find_slot (suc left) dev_id_of dev_id i =
    let more = find_slot left dev_id_of dev_id (i + 1) in
    if dev_id_of i == dev_id then some i else more

unfoldable pub get_superblock : Tables → (dev_id : ℕ) → Option ℕ
get_superblock t dev_id = find_slot superblock_nr (λ i. (t.superblocks i).dev_id) dev_id 0

-- No free slot is a panic.
unfoldable pub get_free_superblock : Tables → Outcome ℕ
get_free_superblock t = from_option (find_slot superblock_nr (λ i. (t.superblocks i).dev_id) eof 0)

unfoldable pub get_free_inode : Tables → Outcome ℕ
get_free_inode t = from_option (find_slot inode_nr (λ i. (t.inodes i).dev_id) eof 0)

-- Slot 0 is that of the root directory, which is never free again.
unfoldable pub put_free_inode : Tables → (i : ℕ) → Outcome Tables
put_free_inode t i = do
  assert (not (i == 0))
  assert ((t.inodes i).count == 0)
  ok (record t { inodes = update t.inodes i (record (t.inodes i) { dev_id = eof }) })

-- the loop of `find_inode`
unfoldable pub find_nr : (ℕ → Inode) → (nr : ℕ) → List ℕ → Option ℕ
find_nr inodes nr [] = none
find_nr inodes nr (i ∷ list) =
    let more = find_nr inodes nr list in if (inodes i).nr == nr then some i else more

unfoldable pub find_inode : Tables → (dev_id nr : ℕ) → Outcome (Option ℕ)
find_inode t dev_id nr = do
  sb ← from_option (get_superblock t dev_id)
  ok (find_nr t.inodes nr (t.superblocks sb).inode_list)

module _ {S : Type 0} (b : Blocks S) where
  unfoldable pub inode_block : S → (sb_buf nr : ℕ) → ℕ
  inode_block s sb_buf nr =
      (2
        + b.load s sb_buf imap_blocks_at
        + b.load s sb_buf zmap_blocks_at
        + (nr + word - 1) % word / block_inodes)
      % word

  -- `nr` is not in use: a free slot takes it. `now` is what `time` gives.
  unfoldable pub open_inode : (now : ℕ) → Tables → S → (sb dev_id nr : ℕ) → Outcome (ℕ × Tables × S)
  open_inode now t s sb dev_id nr = do
    let super = t.superblocks sb
    assert (leb nr (b.load s super.buf ninodes_at))
    i ← get_free_inode t
    list ← push_back super.inode_list i
    (buf, s) ← b.bread s dev_id (inode_block s super.buf nr)
    let desc = (nr + word - 1) % word % block_inodes * 16
    let inode : Inode = record {
      desc = desc;
      buf = buf;
      dev_id = dev_id;
      nr = nr;
      count = 1;
      atime = now;
      ctime = b.load s buf (desc + 4) + b.load s buf (desc + 5) * 2 ^ 16;
    }
    ok (
      i,
      record {
        superblocks = update t.superblocks sb (record super { inode_list = list });
        inodes = update t.inodes i inode;
      },
      s,
    )

  unfoldable pub iget : (now : ℕ) → Tables → S → (dev_id nr : ℕ) → Outcome (ℕ × Tables × S)
  iget now t s dev_id nr = do
    found ← find_inode t dev_id nr
    sb ← from_option (get_superblock t dev_id)
    let opened = open_inode now t s sb dev_id nr
    elim found [
      | none ↦ opened
      | some i ↦
          let inode = t.inodes i in
          let inode' = record inode { count = (inode.count + 1) % word; atime = now } in
          ok (i, record t { inodes = update t.inodes i inode' }, s)
    ]

  -- `assert(inode->count >= 0)` is about an unsigned number. The list of the node is that of its device.
  unfoldable pub iput : Tables → S → (inode : Option ℕ) → Outcome (Tables × S)
  iput t s none = ok (t, s)
  iput t s (some i) =
      let inode = t.inodes i in
      let count = (inode.count + word - 1) % word in
      let t' = record t { inodes = update t.inodes i (record inode { count = count }) } in
      let closed = (do
        s ← b.brelse s inode.buf
        sb ← from_option (get_superblock t' inode.dev_id)
        let super = t'.superblocks sb
        let super' = record super { inode_list = without super.inode_list i }
        t ← put_free_inode (record t' { superblocks = update t'.superblocks sb super' }) i
        ok (t, s)) in
      if ltb 0 count then ok (t', s) else closed

  -- `left` blocks of a bitmap from block `idx` on, into the slots from `i` on.
  unfoldable pub read_map : (left limit : ℕ) → S → (dev_id idx i : ℕ) → Outcome (List ℕ × S)
  read_map zero limit s dev_id idx i = ok ([], s)
  read_map (suc left) limit s dev_id idx i = do
    assert (ltb i limit)
    (buf, s) ← b.bread s dev_id idx
    assert (not (buf == null))
    (bufs, s) ← read_map left limit s dev_id (idx + 1) (i + 1)
    ok (buf ∷ bufs, s)

  unfoldable pub read_superblock : Tables → S → (dev_id : ℕ) → Outcome (ℕ × Tables × S)
  read_superblock t s dev_id =
      let mounted = (do
        sb ← get_free_superblock t
        (buf, s) ← b.bread s dev_id 1
        assert (b.load s buf magic_at == minix_magic)
        let imap_blocks = b.load s buf imap_blocks_at
        (imaps, s) ← read_map imap_blocks imap_max_blocks s dev_id 2 0
        let zmap_blocks = b.load s buf zmap_blocks_at
        (zmaps, s) ← read_map zmap_blocks zmap_max_blocks s dev_id (2 + imap_blocks) 0
        let super = record (t.superblocks sb) {
          buf = buf;
          imaps = imaps;
          zmaps = zmaps;
          dev_id = dev_id;
        }
        ok (sb, record t { superblocks = update t.superblocks sb super }, s)) in
      elim (get_superblock t dev_id) [ some sb ↦ ok (sb, t, s) | none ↦ mounted ]
