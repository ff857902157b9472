-- ===== src/Kernel/Fs/Dir.antt =====
-- Directories of xv6-riscv/kernel/fs.c. The entry of the table is given by its number; `de` is where
-- the local `struct dirent` stands in memory.
use aca_riscv_secure_boot.Common.{
  ℕ, zero, suc, ◌+◌, ◌/◌, Bool, true, false, ltb, ◌==◌, if◌then◌else◌, Option, none, some,
}
use aca_riscv_secure_boot.Common.Int.{ℤ, pos, negsuc}
use aca_riscv_secure_boot.Common.Cells.{read_le, store_le}
use aca_riscv_secure_boot.Common.Memory.{Memory, write_bytes}
use aca_riscv_secure_boot.Common.Word.{u32}
use aca_riscv_secure_boot.Boot.Strings.{strncmp, strncpy}
use aca_riscv_secure_boot.Kernel.Outcome.{Outcome, ok, panic, ◌>>=◌}
use aca_riscv_secure_boot.Kernel.Fs.{Superblock}
use aca_riscv_secure_boot.Kernel.Fs.Content.{readi, writei}
use aca_riscv_secure_boot.Kernel.Fs.Table.{Itable, set_inode, iget, iput}

-- `DIRSIZ`, `sizeof(struct dirent)` and `T_DIR`
abbrev pub dirsiz : ℕ
dirsiz = 14

abbrev pub dirent_size : ℕ
dirent_size = 16

abbrev pub t_dir : ℕ
t_dir = 1

abbrev pub namecmp : ℕ → ℕ → Memory → ℤ
namecmp s t m = strncmp s t dirsiz m

-- `r == n`
abbrev pub is_number : ℕ → ℤ → Bool
is_number n (pos k) = k == n
is_number n (negsuc k) = false

-- The table and the memory of the kernel.
abbrev pub KernelState : Type 0
KernelState = Itable × Memory

module _ (sb : Superblock) where
  -- `readi(dp, 0, (uint64)&de, off, sizeof(de))`, in `panic` unless it reads an entry.
  pub read_dirent : ℕ → ℕ → ℕ → KernelState → Outcome KernelState
  read_dirent dp off de (t, m) = do
    (r, out, (ip, s)) ← readi sb (λ _. true) off dirent_size (t.inode dp, t.disk)
    if is_number dirent_size r
        then ok (record (set_inode dp ip t) { disk = s }, write_bytes m de out)
        else panic

  -- The loop of `dirlookup`: the entry of the table that `iget` gives, with the offset.
  pub dirlookup_loop : ℕ → ℕ → ℕ → ℕ → ℕ → KernelState → Outcome (Option (ℕ × ℕ) × KernelState)
  dirlookup_loop zero off dp name de k = ok (none, k)
  dirlookup_loop (suc fuel) off dp name de (t, m) =
      if ltb off (t.inode dp).size
      then (do
        (t', m') ← read_dirent dp off de (t, m)
        let inum = read_le m' de 2
        let rest = dirlookup_loop fuel (u32 (off + dirent_size)) dp name de (t', m')
        if inum == 0
            then rest
            else if is_number 0 (namecmp name (de + 2) m')
            then (do (i, t'') ← iget (t'.inode dp).dev inum t'; ok (some (i, off), (t'', m')))
            else rest)
      else ok (none, (t, m))

  -- Look for a directory entry in a directory. The passes are as many as there are entries.
  pub dirlookup : ℕ → ℕ → ℕ → KernelState → Outcome (Option (ℕ × ℕ) × KernelState)
  dirlookup dp name de (t, m) =
      if (t.inode dp).type == t_dir
      then dirlookup_loop ((t.inode dp).size / dirent_size + 1) 0 dp name de (t, m)
      else panic

  -- The second loop of `dirlink`: the offset of an empty entry, or of the end.
  pub find_empty : ℕ → ℕ → ℕ → ℕ → KernelState → Outcome (ℕ × KernelState)
  find_empty zero off dp de k = ok (off, k)
  find_empty (suc fuel) off dp de (t, m) =
      if ltb off (t.inode dp).size
      then (do
        (t', m') ← read_dirent dp off de (t, m)
        if read_le m' de 2 == 0
            then ok (off, (t', m'))
            else find_empty fuel (u32 (off + dirent_size)) dp de (t', m'))
      else ok (off, (t, m))

  -- Write a new directory entry (name, inum) into the directory dp.
  pub dirlink : ℕ → ℕ → ℕ → ℕ → ℕ → KernelState → Outcome (ℤ × KernelState)
  dirlink pid dp name inum de k = do
    (found, (t, m)) ← dirlookup dp name de k
    elim found [
      | some (i, off) ↦ do t' ← iput sb pid i t; ok (negsuc 0, (t', m))
      | none ↦ do
        (off, (t1, m1)) ← find_empty ((t.inode dp).size / dirent_size + 1) 0 dp de (t, m)
        let m2 = store_le 2 de inum (strncpy (de + 2) name (pos dirsiz) m1)
        (r, (ip, s)) ←
            writei sb (λ _. true) (λ i. m2 (de + i)) off dirent_size (t1.inode dp, t1.disk)
        let t2 = record (set_inode dp ip t1) { disk = s }
        ok (if is_number dirent_size r then pos 0 else negsuc 0, (t2, m2))
    ]
