-- ===== src/Kernel/Fs/Content.antt =====
-- `readi`, `writei` and `stati` of xv6-riscv/kernel/fs.c. What `either_copyout` and `either_copyin` do
-- is an argument, asked with the number of bytes moved so far.
pub mod Read
pub mod Logged
use aca_riscv_secure_boot.Common.{
  ℕ, zero, suc, ◌+◌, ◌-◌, ◌*◌, ◌/◌, ◌%◌, min, Bool, true, false, ◌||◌, ltb, ◌==◌, if◌then◌else◌,
  List, [], ◌++◌,
}
use aca_riscv_secure_boot.Common.Int.{ℤ, pos, negsuc}
use aca_riscv_secure_boot.Common.Memory.{Memory, read_bytes, write_bytes}
use aca_riscv_secure_boot.Common.Word.{u32}
use aca_riscv_secure_boot.Kernel.Outcome.{Outcome, ok, ◌>>=◌}
use aca_riscv_secure_boot.Kernel.Fs.{Superblock, Disk, block_size, log_write}
use aca_riscv_secure_boot.Kernel.Fs.Inode.{Inode, edit_block, bmap, iupdate, ndirect, nindirect}

-- `MAXFILE`
abbrev pub max_file : ℕ
max_file = ndirect + nindirect

-- `struct stat`
pub record Stat : Type 0 where
  pub dev : ℕ
  pub ino : ℕ
  pub type : ℕ
  pub nlink : ℕ
  pub size : ℕ

pub stati : Inode → Stat
stati ip = record { dev = ip.dev; ino = ip.inum; type = ip.type; nlink = ip.nlink; size = ip.size }

-- The bytes of one pass.
abbrev pub chunk : ℕ → ℕ → ℕ → ℕ
chunk n tot off = min (n - tot) (block_size - off % block_size)

module _ (sb : Superblock) where
  -- The loop of `readi`, with the bytes stored so far. A pass moves a byte at least, so `n` passes
  -- are enough.
  pub read_loop :
      (ℕ → Bool) → ℕ → ℕ → ℕ → ℕ → List ℕ → Inode × Disk → Outcome (ℤ × List ℕ × (Inode × Disk))
  read_loop to zero tot off n out r = ok (pos tot, out, r)
  read_loop to (suc fuel) tot off n out r =
      if ltb tot n
      then (do
        (addr, (ip, s)) ← bmap sb (off / block_size) r
        let m = chunk n tot off
        if addr == 0
            then ok (pos tot, out, (ip, s))
            else if to tot
            then read_loop to fuel (tot + m) (off + m) n
                (out ++ read_bytes (s.view addr) (off % block_size) m) (ip, s)
            else ok (negsuc 0, out, (ip, s)))
      else ok (pos tot, out, r)

  -- Read data from inode: what it returns, the bytes it stored, and the inode and the disk.
  pub readi : (ℕ → Bool) → ℕ → ℕ → Inode × Disk → Outcome (ℤ × List ℕ × (Inode × Disk))
  readi to off n (ip, s) =
      if ltb ip.size off || ltb (u32 (off + n)) off
      then ok (pos 0, [], (ip, s))
      else let n' = if ltb ip.size (off + n) then ip.size - off else n in
        read_loop to n' 0 off n' [] (ip, s)

  -- The loop of `writei`: the bytes written, the offset reached, and the inode and the disk.
  pub write_loop :
      (ℕ → Bool) → (ℕ → ℕ) → ℕ → ℕ → ℕ → ℕ → Inode × Disk → Outcome (ℕ × ℕ × (Inode × Disk))
  write_loop can src zero tot off n r = ok (tot, off, r)
  write_loop can src (suc fuel) tot off n r =
      if ltb tot n
      then (do
        (addr, (ip, s)) ← bmap sb (off / block_size) r
        let m = chunk n tot off
        if addr == 0
            then ok (tot, off, (ip, s))
            else if can tot
            then (let stored =
                  edit_block addr (λ d. write_bytes d (off % block_size) (read_bytes src tot m))
                    s in
                write_loop can src fuel (tot + m) (off + m) n (ip, log_write addr stored))
            else ok (tot, off, (ip, s)))
      else ok (tot, off, r)

  -- Write data to inode; `src i` is the byte `i` of the source.
  pub writei : (ℕ → Bool) → (ℕ → ℕ) → ℕ → ℕ → Inode × Disk → Outcome (ℤ × (Inode × Disk))
  writei can src off n (ip, s) =
      if ltb ip.size off || ltb (u32 (off + n)) off
      then ok (negsuc 0, (ip, s))
      else if ltb (max_file * block_size) (off + n)
      then ok (negsuc 0, (ip, s))
      else (do
        (tot, reached, (ip1, s1)) ← write_loop can src n 0 off n (ip, s)
        let ip2 = if ltb ip1.size reached then record ip1 { size = reached } else ip1
        ok (pos tot, (ip2, iupdate sb ip2 s1)))
