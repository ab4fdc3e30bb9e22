-- ===== src/Fs/Tests.antt =====
-- A file whose inode is in buffer 1, with an index block 30 and a block 20 of index blocks.
use txos.Base.{ℕ, ◌+◌, ◌≡◌, refl, false, ok, ◌==◌, if◌then◌else◌}
use txos.Fs.{Blocks, InodeZones, bmap, settle, descend}

-- buffer 1 is that of the inode; any other is that of the block of its number
abbrev number : (buf at : ℕ) → ℕ
number buf at =
    if buf == 1
    then (if at == 14 then 30 else if at == 15 then 20 else 0)
    else if buf == 20
    then (if at == 2 then 40 else 0)
    else buf + at

-- A device that nothing changes.
abbrev still : Blocks (Unit {0})
still = record {
  load = λ s buf at. number buf at;
  store = λ s buf at value. s;
  mark = λ s buf. s;
  bread = λ s dev_id block. ok (block, s);
  bwrite = λ s buf. ok s;
  brelse = λ s buf. ok s;
  balloc = λ s dev_id. ok (0, s);
}

abbrev inode : InodeZones
inode = record { dev_id = 3; buf = 1; zone = 7 }

found : bmap still tt inode (7 + 512 + 1024 + 5) false ≡ ok (45, tt)
unfolding bmap descend settle
found = refl

missing : bmap still tt inode (7 + 512 + 512) false ≡ ok (0, tt)
unfolding bmap descend settle
missing = refl
