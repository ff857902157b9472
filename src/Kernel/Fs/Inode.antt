-- ===== src/Kernel/Fs/Inode.antt =====
-- xv6-riscv/kernel/fs.c, with struct inode of file.h: an inode on disk and in memory, and the blocks
-- that hold its content.
pub mod Update
pub mod Identity
pub mod Map
pub mod Fresh
pub mod Indirect
pub mod Bmap
pub mod Logged
use aca_riscv_secure_boot.Common.{
  ℕ, zero, suc, ◌+◌, ◌-◌, ◌*◌, ◌/◌, ◌%◌, Bool, true, false, ltb, ◌==◌, if◌then◌else◌,
}
use aca_riscv_secure_boot.Common.Memory.{Memory}
use aca_riscv_secure_boot.Common.Cells.{read_le, store_le}
use aca_riscv_secure_boot.Kernel.Outcome.{Outcome, ok, panic, ◌>>=◌}
use aca_riscv_secure_boot.Kernel.Sleeplock.{Sleeplock}
use aca_riscv_secure_boot.Kernel.Fs.{Superblock, Disk, log_write, balloc, bfree}

-- `NDIRECT`, `NINDIRECT` and `IPB`
abbrev pub ndirect : ℕ
ndirect = 12

abbrev pub nindirect : ℕ
nindirect = 256

abbrev pub inodes_per_block : ℕ
inodes_per_block = 16

-- `struct inode`: the fields of the table, and the copy of the inode on disk. A `short` is its 16 bits.
pub record Inode : Type 0 where
  pub dev : ℕ
  pub inum : ℕ
  pub ref : ℕ
  pub lock : Sleeplock
  pub valid : Bool
  pub type : ℕ
  pub major : ℕ
  pub minor : ℕ
  pub nlink : ℕ
  pub size : ℕ
  pub addrs : ℕ → ℕ

-- `memmove(dip->addrs, ip->addrs, sizeof(ip->addrs))`, word by word.
pub store_addrs : ℕ → ℕ → ℕ → (ℕ → ℕ) → Memory → Memory
store_addrs zero i a addrs m = m
store_addrs (suc left) i a addrs m =
    store_addrs left (i + 1) a addrs (store_le 4 (a + 4 * i) (addrs i) m)

-- The fields of `struct dinode` at `a`.
pub store_dinode : Inode → ℕ → Memory → Memory
unfolding store_addrs
store_dinode ip a m =
    let m1 = store_le 2 a ip.type m in
    let m2 = store_le 2 (a + 2) ip.major m1 in
    let m3 = store_le 2 (a + 4) ip.minor m2 in
    let m4 = store_le 2 (a + 6) ip.nlink m3 in
    let m5 = store_le 4 (a + 8) ip.size m4 in store_addrs (ndirect + 1) 0 (a + 12) ip.addrs m5

-- The copy of the fields of the `struct dinode` at `a`.
pub load_dinode : Inode → Memory → ℕ → Inode
load_dinode ip data_at a = record ip {
  valid = true;
  type = read_le data_at a 2;
  major = read_le data_at (a + 2) 2;
  minor = read_le data_at (a + 4) 2;
  nlink = read_le data_at (a + 6) 2;
  size = read_le data_at (a + 8) 4;
  addrs = λ i. if ltb i (ndirect + 1) then read_le data_at (a + 12 + 4 * i) 4 else ip.addrs i;
}

-- `(struct dinode*)bp->data + inum%IPB`
abbrev pub dinode_at : ℕ → ℕ
dinode_at inum = inum % inodes_per_block * 64

-- `ip->addrs[i] = addr`
abbrev pub set_addr : ℕ → ℕ → Inode → Inode
set_addr i addr ip = record ip { addrs = λ x. if x == i then addr else ip.addrs x }

-- The data of one buffer, changed.
abbrev pub edit_block : ℕ → (Memory → Memory) → Disk → Disk
edit_block b f s = record s { view = λ x. if x == b then f (s.view b) else s.view x }

module _ (sb : Superblock) where
  -- `IBLOCK(i, sb)`
  abbrev pub inode_block : ℕ → ℕ
  inode_block i = i / inodes_per_block + sb.inodestart

  -- Copy a modified in-memory inode to disk.
  pub iupdate : Inode → Disk → Disk
  iupdate ip s =
      let bp = inode_block ip.inum in
      log_write bp (edit_block bp (store_dinode ip (dinode_at ip.inum)) s)

  -- The part of `ilock` that reads the inode from disk.
  pub load_inode : Inode → Disk → Inode
  load_inode ip s = load_dinode ip (s.view (inode_block ip.inum)) (dinode_at ip.inum)

  -- `addr = ip->addrs[i]`, allocated if there is none; 0 if out of disk space.
  pub bmap_slot : ℕ → Inode × Disk → ℕ × (Inode × Disk)
  bmap_slot i (ip, s) =
      let (addr, s') = balloc sb s in
      if ip.addrs i == 0
      then (if addr == 0 then (0, (ip, s')) else (addr, (set_addr i addr ip, s')))
      else (ip.addrs i, (ip, s))

  -- The entry `a[bn]` of the indirect block, allocated if there is none.
  pub bmap_indirect : ℕ → ℕ → Disk → ℕ × Disk
  bmap_indirect bp bn s =
      let (addr, s') = balloc sb s in
      let old = read_le (s.view bp) (4 * bn) 4 in
      if old == 0
      then (if addr == 0
          then (0, s')
          else (addr, log_write bp (edit_block bp (store_le 4 (4 * bn) addr) s')))
      else (old, s)

  -- The disk block address of the nth block in the inode.
  pub bmap : ℕ → Inode × Disk → Outcome (ℕ × (Inode × Disk))
  bmap bn (ip, s) =
      if ltb bn ndirect
      then ok (bmap_slot bn (ip, s))
      else if ltb (bn - ndirect) nindirect
      then (let (addr, (ip', s')) = bmap_slot ndirect (ip, s) in
          let (entry, s'') = bmap_indirect addr (bn - ndirect) s' in
          if addr == 0 then ok (0, (ip', s')) else ok (entry, (ip', s'')))
      else panic

  -- The first loop of `itrunc`.
  pub free_direct : ℕ → ℕ → Inode × Disk → Outcome (Inode × Disk)
  free_direct zero i r = ok r
  free_direct (suc left) i (ip, s) =
      if ip.addrs i == 0
      then free_direct left (i + 1) (ip, s)
      else (do s' ← bfree sb (ip.addrs i) s; free_direct left (i + 1) (set_addr i 0 ip, s'))

  -- The second loop, over the entries of the indirect block `bp`.
  pub free_entries : ℕ → ℕ → ℕ → Disk → Outcome Disk
  free_entries zero j bp s = ok s
  free_entries (suc left) j bp s =
      let entry = read_le (s.view bp) (4 * j) 4 in
      if entry == 0
      then free_entries left (j + 1) bp s
      else (do s' ← bfree sb entry s; free_entries left (j + 1) bp s')

  -- Truncate inode (discard contents).
  pub itrunc : Inode × Disk → Outcome (Inode × Disk)
  itrunc (ip, s) = do
    (ip1, s1) ← free_direct ndirect 0 (ip, s)
    (ip2, s2) ←
        (if ip1.addrs ndirect == 0 then ok (ip1, s1) else (do
          s' ← free_entries nindirect 0 (ip1.addrs ndirect) s1
          s'' ← bfree sb (ip1.addrs ndirect) s'
          ok (set_addr ndirect 0 ip1, s'')))
    let ip3 = record ip2 { size = 0 }
    ok (ip3, iupdate ip3 s2)
