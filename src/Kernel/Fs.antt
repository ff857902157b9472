-- ===== src/Kernel/Fs.antt =====
-- xv6-riscv/kernel/fs.c and fs.h: the super block, and the blocks of the disk as bits of the free map.
-- A buffer is what `bread` returns for its block; `log_write` notes the block.
pub mod Bitmap
pub mod Inode
pub mod Table
pub mod Content
pub mod Dir
pub mod Path
mod Examples
use aca_riscv_secure_boot.Common.{
  ℕ, zero, suc, ◌+◌, ◌*◌, ◌/◌, ◌%◌, Bool, true, false, not, ltb, ◌==◌, if◌then◌else◌, Option, none,
  some, List, [], ◌∷◌,
}
use aca_riscv_secure_boot.Common.Bits.{bit_at, with_bit, without_bit}
use aca_riscv_secure_boot.Common.Cells.{read_le}
use aca_riscv_secure_boot.Kernel.Outcome.{Outcome, ok, panic}

-- The fields of `struct superblock` that are read.
pub record Superblock : Type 0 where
  pub magic : ℕ
  pub size : ℕ
  pub ninodes : ℕ
  pub inodestart : ℕ
  pub bmapstart : ℕ

-- `view b i` is byte `i` of the data of block `b`; `logged` lists the blocks given to `log_write`,
-- the last first.
pub record Disk : Type 0 where
  pub view : ℕ → ℕ → ℕ
  pub logged : List ℕ

-- `FSMAGIC`
abbrev pub fs_magic : ℕ
fs_magic = 0x10203040

-- Read the super block, which is block 1.
pub readsb : Disk → Superblock
readsb s = record {
  magic = read_le (s.view 1) 0 4;
  size = read_le (s.view 1) 4 4;
  ninodes = read_le (s.view 1) 12 4;
  inodestart = read_le (s.view 1) 24 4;
  bmapstart = read_le (s.view 1) 28 4;
}

-- `fsinit` up to `initlog`, which is in Kernel/Log.
pub fsinit : Disk → Outcome Superblock
fsinit s = if (readsb s).magic == fs_magic then ok (readsb s) else panic

-- `BSIZE` and `BPB`
abbrev pub block_size : ℕ
block_size = 1024

abbrev pub bits_per_block : ℕ
bits_per_block = block_size * 8

module _ (sb : Superblock) where
  -- `BBLOCK(b, sb)`
  abbrev pub bitmap_block : ℕ → ℕ
  bitmap_block b = b / bits_per_block + sb.bmapstart

-- `log_write`
abbrev pub log_write : ℕ → Disk → Disk
log_write b s = record s { logged = b ∷ s.logged }

-- A store of one byte into the data of a buffer.
abbrev pub store_byte : ℕ → ℕ → ℕ → Disk → Disk
store_byte b i v s = record s {
  view = λ x y. if x == b then (if y == i then v else s.view x y) else s.view x y;
}

-- Zero a block.
pub bzero : ℕ → Disk → Disk
bzero bno s = log_write bno (record s {
  view = λ x y. if x == bno then (if ltb y block_size then 0 else s.view x y) else s.view x y;
})

-- The inner loop of `balloc`: the first bit of the block from `bi` on that is free.
pub find_free : ℕ → ℕ → ℕ → ℕ → (ℕ → ℕ) → Option ℕ
find_free zero bi b size bytes = none
find_free (suc left) bi b size bytes =
    let rest = find_free left (bi + 1) b size bytes in
    if ltb (b + bi) size
    then (if not (bit_at (bytes (bi / 8)) (bi % 8)) then some bi else rest)
    else none

module _ (sb : Superblock) where
  -- Marks a free block in use, and zeroes it.
  pub take_block : ℕ → ℕ → Disk → Disk
  unfolding bzero
  take_block b bi s =
      let bp = bitmap_block sb b in
      let marked = store_byte bp (bi / 8) (with_bit (s.view bp (bi / 8)) (bi % 8)) s in
      bzero (b + bi) (log_write bp marked)

  -- The outer loop of `balloc` from block `b` on; the block, or 0. Without fuel it gives up as well.
  pub balloc_loop : ℕ → ℕ → Disk → ℕ × Disk
  balloc_loop zero b s = (0, s)
  balloc_loop (suc fuel) b s =
      let rest = balloc_loop fuel (b + bits_per_block) s in
      if ltb b sb.size
      then elim (find_free bits_per_block 0 b sb.size (s.view (bitmap_block sb b))) [
        | none ↦ rest
        | some bi ↦ (b + bi, take_block b bi s)
      ]
      else (0, s)

  -- Allocate a zeroed disk block; 0 if out of disk space.
  pub balloc : Disk → ℕ × Disk
  unfolding balloc_loop
  balloc s = balloc_loop (sb.size / bits_per_block + 1) 0 s

  -- Free a disk block.
  pub bfree : ℕ → Disk → Outcome Disk
  bfree b s =
      let bp = bitmap_block sb b in
      let bi = b % bits_per_block in
      if not (bit_at (s.view bp (bi / 8)) (bi % 8))
      then panic
      else ok (log_write bp (store_byte bp (bi / 8) (without_bit (s.view bp (bi / 8)) (bi % 8)) s))
