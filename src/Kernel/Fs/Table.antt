-- ===== src/Kernel/Fs/Table.antt =====
-- The table of inodes in memory of xv6-riscv/kernel/fs.c. `pid` is the process that calls; the lock
-- of the table makes each locked part one step, and so is the truncation in `iput`, which is done with
-- the only reference to the inode. A reference count is an `int`, in 32 bits.
pub mod Search
pub mod Refs
pub mod Found
mod Examples
use aca_riscv_secure_boot.Common.{
  ℕ, zero, suc, ◌+◌, ◌-◌, ◌*◌, ◌/◌, ◌%◌, ◌^◌, Bool, true, false, not, ◌&&◌, ◌||◌, ltb, ◌==◌,
  if◌then◌else◌, Option, none, some,
}
use aca_riscv_secure_boot.Common.Cells.{read_le, store_le}
use aca_riscv_secure_boot.Common.Memory.{Memory}
use aca_riscv_secure_boot.Common.Word.{u32}
use aca_riscv_secure_boot.Boot.Strings.{memset}
use aca_riscv_secure_boot.Kernel.Outcome.{Outcome, ok, panic, ◌>>=◌}
use aca_riscv_secure_boot.Kernel.Sleeplock.{initsleeplock, acquiresleep, releasesleep, holdingsleep}
use aca_riscv_secure_boot.Kernel.Fs.{Superblock, Disk, log_write}
use aca_riscv_secure_boot.Kernel.Fs.Inode.{
  Inode, load_inode, iupdate, itrunc, inode_block, dinode_at, edit_block,
}

-- `NINODE`
abbrev pub ninode : ℕ
ninode = 50

-- `itable`, and the disk.
pub record Itable : Type 0 where
  pub inode : ℕ → Inode
  pub disk : Disk

abbrev pub set_inode : ℕ → Inode → Itable → Itable
set_inode i ip t = record t { inode = λ x. if x == i then ip else t.inode x }

abbrev pub iinit : Itable → Itable
iinit t = record t {
  inode = λ i. if ltb i ninode then record (t.inode i) { lock = initsleeplock } else t.inode i;
}

-- `ref > 0`
abbrev pub positive : ℕ → Bool
positive ref = ltb 0 ref && ltb ref (2 ^ 31)

-- Where the loop of `iget` ends: at the entry of the inode, or with the empty entry it remembers.
pub data Scan : Type 0 where
  present : ℕ → Scan
  absent : Option ℕ → Scan

-- `if(empty == 0 && ip->ref == 0) empty = ip`
abbrev pub remember : Option ℕ → ℕ → ℕ → Option ℕ
remember none i ref = if ref == 0 then some i else none
remember (some e) i ref = some e

-- `ip->ref > 0 && ip->dev == dev && ip->inum == inum`
abbrev pub is_inode : ℕ → ℕ → Inode → Bool
is_inode dev inum ip = positive ip.ref && (ip.dev == dev && ip.inum == inum)

pub iget_loop : ℕ → ℕ → ℕ → ℕ → Option ℕ → (ℕ → Inode) → Scan
iget_loop zero i dev inum empty inode = absent empty
iget_loop (suc left) i dev inum empty inode =
    let rest = iget_loop left (i + 1) dev inum (remember empty i (inode i).ref) inode in
    if is_inode dev inum (inode i) then present i else rest

-- Find the inode with number inum on device dev.
pub iget : ℕ → ℕ → Itable → Outcome (ℕ × Itable)
iget dev inum t = elim (iget_loop ninode 0 dev inum none t.inode) [
  | present i ↦ ok (i, set_inode i (record (t.inode i) { ref = u32 ((t.inode i).ref + 1) }) t)
  | absent none ↦ panic
  | absent (some i) ↦
      ok (i, set_inode i (record (t.inode i) { dev = dev; inum = inum; ref = 1; valid = false }) t)
]

-- Increment reference count for ip.
abbrev pub idup : ℕ → Itable → Itable
idup i t = set_inode i (record (t.inode i) { ref = u32 ((t.inode i).ref + 1) }) t

-- `ip->ref--`
abbrev pub drop_ref : ℕ → Itable → Itable
drop_ref i t = set_inode i (record (t.inode i) { ref = u32 ((t.inode i).ref + (2 ^ 32 - 1)) }) t

module _ (sb : Superblock) where
  -- The rest of `ilock`, with the lock of the inode held.
  abbrev pub load_if_invalid : Inode → Disk → Outcome Inode
  load_if_invalid ip s =
      if ip.valid
      then ok ip
      else if (load_inode sb ip s).type == 0
      then panic
      else ok (load_inode sb ip s)

  -- Lock the given inode; reads it from disk if necessary.
  pub ilock : ℕ → ℕ → Itable → Outcome Itable
  ilock pid i t = if not (positive (t.inode i).ref) then panic else (do
    lk ← acquiresleep pid (t.inode i).lock
    ip ← load_if_invalid (record (t.inode i) { lock = lk }) t.disk
    ok (set_inode i ip t))

  -- Unlock the given inode.
  pub iunlock : ℕ → ℕ → Itable → Outcome Itable
  iunlock pid i t =
      if not (holdingsleep pid (t.inode i).lock) || not (positive (t.inode i).ref)
      then panic
      else ok (set_inode i (record (t.inode i) { lock = releasesleep (t.inode i).lock }) t)

  -- The last reference to an inode without links is dropped: truncate and free it.
  pub free_inode : ℕ → ℕ → Itable → Outcome Itable
  free_inode pid i t = do
    lk ← acquiresleep pid (t.inode i).lock
    (ip, s) ← itrunc sb (record (t.inode i) { lock = lk }, t.disk)
    let freed = record ip { type = 0 }
    ok (record (set_inode i (record freed { valid = false; lock = releasesleep lk }) t) {
      disk = iupdate sb freed s;
    })

  -- Drop a reference to an in-memory inode.
  pub iput : ℕ → ℕ → Itable → Outcome Itable
  iput pid i t = do
    t' ←
        (if (t.inode i).ref == 1 && ((t.inode i).valid && (t.inode i).nlink == 0)
          then free_inode pid i t
          else ok t)
    ok (drop_ref i t')

  pub iunlockput : ℕ → ℕ → Itable → Outcome Itable
  iunlockput pid i t = do t' ← iunlock pid i t; iput pid i t'

  -- The loop of `ialloc` from number `inum` on; `none` if there is no free inode.
  pub ialloc_loop : ℕ → ℕ → ℕ → ℕ → Itable → Outcome (Option ℕ × Itable)
  ialloc_loop zero inum dev type t = ok (none, t)
  ialloc_loop (suc left) inum dev type t =
      let rest = ialloc_loop left (inum + 1) dev type t in
      let bp = inode_block sb inum in
      let dip = dinode_at inum in
      if read_le (t.disk.view bp) dip 2 == 0
      then (do
        (i, t') ← iget dev inum (record t {
          disk = log_write bp (edit_block bp (λ d. store_le 2 dip type (memset dip 0 64 d)) t.disk);
        })
        ok (some i, t'))
      else rest

  -- Allocate an inode on device dev.
  pub ialloc : ℕ → ℕ → Itable → Outcome (Option ℕ × Itable)
  ialloc dev type t = ialloc_loop (sb.ninodes - 1) 1 dev type t
