-- ===== src/Kernel/Fs/Examples.antt =====
-- The theorems of the file system at a disk of eight blocks: 2 is the free map, 3 the inodes, 4 holds
-- a file, and 5 to 7 are free.
use aca_riscv_secure_boot.Common.{
  ℕ, ◌⊎◌, ◌-◌, ◌%◌, ◌/◌, min, ◌≡◌, ◌≢◌, ◌<◌, refl, true, false, arith, ◌==◌, if◌then◌else◌, [],
}
use aca_riscv_secure_boot.Common.Bits.{bit_at}
use aca_riscv_secure_boot.Common.Int.{pos}
use aca_riscv_secure_boot.Common.Memory.{read_bytes}
use aca_riscv_secure_boot.Kernel.Outcome.{ok}
use aca_riscv_secure_boot.Kernel.Sleeplock.{initsleeplock}
use aca_riscv_secure_boot.Kernel.Fs.{Superblock, fs_magic, Disk, balloc}
use aca_riscv_secure_boot.Kernel.Fs.Bitmap.{is_used, IsDisk, Allocated, balloc-Allocated}
use aca_riscv_secure_boot.Kernel.Fs.Inode.{Inode, iupdate, load_inode, bmap}
use aca_riscv_secure_boot.Kernel.Fs.Inode.Update.{IsInode, with_fields, load_inode-iupdate}
use aca_riscv_secure_boot.Kernel.Fs.Inode.Map.{address, IsMapped, Mapped}
use aca_riscv_secure_boot.Kernel.Fs.Inode.Bmap.{bmap-Mapped}
use aca_riscv_secure_boot.Kernel.Fs.Content.{readi}
use aca_riscv_secure_boot.Kernel.Fs.Content.Read.{file_byte, readi-bytes}

abbrev sb : Superblock
sb = record { magic = fs_magic; size = 8; ninodes = 16; inodestart = 3; bmapstart = 2 }

abbrev small_disk : Disk
small_disk = record {
  view = λ b i. if b == 2 then (if i == 0 then 31 else 0) else if b == 4 then i % 256 else 0;
  logged = [];
}

small_disk-IsDisk : IsDisk sb small_disk
unfolding bit_at
small_disk-IsDisk = record {
  bytes = λ b i. ground arith;
  map_inside = λ b l. omega arith;
  map_used = λ b l. (let e : b / 8192 ≡ 0 = omega arith in rw e refl);
}

balloc-Allocated_example :
    ((balloc sb small_disk ≡ (0, small_disk)) × ((k : ℕ) → k < 8 → is_used sb small_disk k ≡ true))
    ⊎ ((a : ℕ) × (s' : Disk) × (balloc sb small_disk ≡ (a, s'))
        × Allocated sb small_disk a s'
        × ((k : ℕ) → k < a → is_used sb small_disk k ≡ true))
balloc-Allocated_example = balloc-Allocated sb small_disk small_disk-IsDisk

five_free : is_used sb small_disk 5 ≡ false
unfolding bit_at
five_free = refl

-- A file of 1000 bytes in block 4.
abbrev file : Inode
file = record {
  dev = 1;
  inum = 5;
  ref = 1;
  lock = initsleeplock;
  valid = true;
  type = 2;
  major = 0;
  minor = 0;
  nlink = 1;
  size = 1000;
  addrs = λ i. if i == 0 then 4 else 0;
}

file-IsInode : IsInode file
file-IsInode = record {
  type_small = omega arith;
  major_small = omega arith;
  minor_small = omega arith;
  nlink_small = omega arith;
  size_small = omega arith;
  addrs_small = λ i. ground arith;
}

load_inode-iupdate_example :
    load_inode sb (record file { inum = 6 }) (iupdate sb file small_disk) ≡ (
      if 6 == 5
      then with_fields file (record file { inum = 6 })
      else load_inode sb (record file { inum = 6 }) small_disk)
load_inode-iupdate_example =
    load_inode-iupdate sb file (record file { inum = 6 }) small_disk file-IsInode

file-IsMapped : IsMapped sb file small_disk
unfolding bit_at
file-IsMapped = record {
  disk = small_disk-IsDisk;
  small = omega arith;
  boot_used = refl;
  indirect_small = λ h. absurd (h refl);
  indirect_used = λ h. absurd (h refl);
  indirect_apart = λ h. absurd (h refl);
}

-- Block 20 of the file is reached through an indirect block that is not there yet.
bmap-Mapped_example :
    (r : ℕ × (Inode × Disk)) × (bmap sb 20 (file, small_disk) ≡ ok r)
    × Mapped sb file small_disk 20 r
bmap-Mapped_example = bmap-Mapped sb file small_disk 20 file-IsMapped (omega arith)

file_full : (x : ℕ) → x < 1000 → address file small_disk (x / 1024) ≢ 0
unfolding address
file_full x l = let e : x / 1024 ≡ 0 = omega arith in rw e (λ q. omega (arith, q))

readi-bytes_example :
    readi sb (λ _. true) 990 100 (file, small_disk)
    ≡ ok (
      pos (min 100 (1000 - 990)),
      read_bytes (file_byte file small_disk) 990 (min 100 (1000 - 990)),
      (file, small_disk),
    )
readi-bytes_example =
    readi-bytes sb file small_disk 990 100 file-IsMapped (omega arith) file_full (omega arith)
      (omega arith)
