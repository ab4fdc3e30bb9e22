-- ===== src/Inode/Tests.antt =====
-- A file system on device 3 with its root in use twice and inode 9 in slot 5.
use txos.Base.{ℕ, ◌+◌, ◌*◌, ◌^◌, ◌≡◌, refl, [], ◌∷◌, some, ok, arith, ◌==◌, if◌then◌else◌, ◌||◌}
use txos.Fs.{Blocks}
use txos.Inode.{
  Inode, Superblock, Tables, eof, find_slot, get_superblock, get_free_inode, iget, iput,
}
use txos.Inode.Valid.{IsValid}
use txos.Inode.Get.{Opened, iget_lem}
use txos.Inode.Put.{Closed, iput_lem}

abbrev disk : Blocks (Unit {0})
disk = record {
  load = λ s buf at. if at == 2 then 2 else if at == 3 then 3 else 100;
  store = λ s buf at value. s;
  mark = λ s buf. s;
  bread = λ s dev_id block. ok (block, s);
  bwrite = λ s buf. ok s;
  brelse = λ s buf. ok s;
  balloc = λ s dev_id. ok (0, s);
}

abbrev inode_at : ℕ → Inode
inode_at i = record {
  desc = 0;
  buf = 77;
  dev_id = if i == 0 || i == 5 then 3 else eof;
  nr = if i == 0 then 1 else 9;
  count = if i == 0 then 2 else 1;
  atime = 0;
  ctime = 0;
}

abbrev mounted : Superblock
mounted = record { buf = 70; imaps = []; zmaps = []; dev_id = 3; inode_list = 0 ∷ 5 ∷ [] }

abbrev empty : Superblock
empty = record { buf = 0; imaps = []; zmaps = []; dev_id = eof; inode_list = [] }

abbrev tables : Tables
tables = record { superblocks = λ k. if k == 0 then mounted else empty; inodes = inode_at }

tables-IsValid : IsValid tables
tables-IsValid = record {
  mounted = λ k i h. ground arith;
  used = λ k i h e. ground arith;
  referenced = λ k i h. ground arith;
  devices = λ j k same real. ground arith;
  single = λ k i j hi hj e. ground arith;
}

is_mounted : get_superblock tables 3 ≡ some 0
unfolding get_superblock find_slot
is_mounted = refl

slot_1 : get_free_inode tables ≡ ok 1
unfolding get_free_inode find_slot
slot_1 = refl

iget_lem_example :
    (i : ℕ) × (t' : Tables) × (s' : Unit {0}) × (iget disk 50 tables tt 3 34 ≡ ok (i, t', s'))
    × Opened tables 50 0 3 34 8 (100 + 100 * 2 ^ 16) i t'
iget_lem_example =
    iget_lem disk tables-IsValid tt 50 0 3 34 is_mounted 1 2 3 (omega arith) (omega arith)
      (omega arith) (omega arith) refl refl (omega arith) (omega arith) (λ p. ground arith) slot_1 8
      tt refl

iput_lem_example :
    (t' : Tables) × (s' : Unit {0}) × (iput disk tables tt (some 5) ≡ ok (t', s'))
    × Closed tables 0 5 t'
iput_lem_example =
    iput_lem tables-IsValid 0 5 refl is_mounted disk tt (omega arith) (omega arith) (tt, refl)
