-- ===== src/Kernel/Fs/Content/Logged.antt =====
-- How many blocks one `writei` of xv6-riscv/kernel/fs.c gives to the log.
use aca_riscv_secure_boot.Common.{
  ℕ, ◌+◌, ◌-◌, ◌*◌, ◌%◌, ◌≡◌, ◌≢◌, ◌≤◌, ◌⊎◌, true, ltb, if◌then◌else◌, List, length, member,
}
use aca_riscv_secure_boot.Kernel.Fs.{Superblock, Disk}
use aca_riscv_secure_boot.Kernel.Fs.Inode.{Inode}

module _ (sb : Superblock) (one_map : sb.size ≤ 8192) where
  -- Each block logged on the way is the block of the free map, one of `data`, or the indirect block.
  record WriteLogs (data_ : List ℕ) (ip : Inode) (s : Disk) (r : Inode × Disk) : Type 0 where
    logs :
        (b : ℕ)
        → member b r.1.logged ≡ true
        → (member b s.logged ≡ true)
          ⊎ ((b ≡ sb.bmapstart)
              ⊎ ((member b data_ ≡ true) ⊎ ((b ≡ r.0.addrs 12) × (r.0.addrs 12 ≢ 0))))
    indirect : ip.addrs 12 ≢ 0 → r.0.addrs 12 ≡ ip.addrs 12

  -- How many KiB blocks the rest of a write touches at most.
  abbrev Enough : ℕ → ℕ → ℕ → List ℕ → Type 0
  Enough tot off n data_ =
      length data_ * 1024 ≤ (if ltb tot n then off % 1024 + (n - tot) + 1023 else 0)
