-- ===== src/Kernel/File.antt =====
-- xv6-riscv/kernel/file.c: the table of open files. Pipes and inodes are given by number; the locked
-- parts are one step each, `begin_op` and `end_op` are of Kernel/Log, and the page of a closed pipe
-- goes back to Kernel/Kalloc. What `copyin` and `copyout` do is an
-- argument.
pub mod Alloc
use aca_riscv_secure_boot.Common.{
  ℕ, zero, suc, ◌+◌, ◌-◌, ◌*◌, ◌/◌, ◌%◌, ◌^◌, min, Bool, true, false, not, ◌||◌, ltb, ◌==◌,
  if◌then◌else◌, Option, none, some, List, [],
}
use aca_riscv_secure_boot.Common.Int.{ℤ, pos, negsuc}
use aca_riscv_secure_boot.Common.Word.{u32}
use aca_riscv_secure_boot.Kernel.Outcome.{Outcome, ok, panic, ◌>>=◌, Ending, returned}
use aca_riscv_secure_boot.Kernel.Pipe.{Pipe, pipeclose, pipewrite, piperead}
use aca_riscv_secure_boot.Kernel.Log.{max_op_blocks}
use aca_riscv_secure_boot.Kernel.Fs.{Superblock, block_size}
use aca_riscv_secure_boot.Kernel.Fs.Content.{Stat, stati, readi, writei}
use aca_riscv_secure_boot.Kernel.Fs.Table.{Itable, set_inode, positive, ilock, iunlock, iput}
use aca_riscv_secure_boot.Kernel.Fs.Dir.{is_number}

pub data FileType : Type 0 where
  fd_none : FileType
  fd_pipe : FileType
  fd_inode : FileType
  fd_device : FileType

-- `struct file`
pub record File : Type 0 where
  pub type : FileType
  pub ref : ℕ
  pub readable : Bool
  pub writable : Bool
  pub pipe : ℕ
  pub ip : ℕ
  pub off : ℕ
  pub major : ℕ

-- `NFILE`
abbrev pub nfile : ℕ
nfile = 100

-- `ftable`, and what its files stand for.
pub record Ftable : Type 0 where
  pub file : ℕ → File
  pub pipes : ℕ → Pipe
  pub itable : Itable

abbrev pub set_file : ℕ → File → Ftable → Ftable
set_file i f w = record w { file = λ x. if x == i then f else w.file x }

abbrev pub set_pipe : ℕ → Pipe → Ftable → Ftable
set_pipe i p w = record w { pipes = λ x. if x == i then p else w.pipes x }

-- The loop of `filealloc` from entry `i` on.
pub filealloc_loop : ℕ → ℕ → (ℕ → File) → Option ℕ
filealloc_loop zero i file = none
filealloc_loop (suc left) i file =
    let rest = filealloc_loop left (i + 1) file in if (file i).ref == 0 then some i else rest

-- Allocate a file structure.
pub filealloc : Ftable → Option ℕ × Ftable
filealloc w = elim (filealloc_loop nfile 0 w.file) [
  | none ↦ (none, w)
  | some i ↦ (some i, set_file i (record (w.file i) { ref = 1 }) w)
]

-- Increment ref count for file f.
pub filedup : ℕ → Ftable → Outcome Ftable
filedup i w =
    if not (positive (w.file i).ref)
    then panic
    else ok (set_file i (record (w.file i) { ref = u32 ((w.file i).ref + 1) }) w)

module _ (sb : Superblock) (pid : ℕ) where
  -- What the last close does to the pipe or the inode.
  pub close_object : FileType → File → Ftable → Outcome Ftable
  close_object fd_none ff w = ok w
  close_object fd_pipe ff w = ok (set_pipe ff.pipe (pipeclose ff.writable (w.pipes ff.pipe)).0 w)
  close_object fd_inode ff w = do t ← iput sb pid ff.ip w.itable; ok (record w { itable = t })
  close_object fd_device ff w = do t ← iput sb pid ff.ip w.itable; ok (record w { itable = t })

  -- Close file f: decrement the ref count, close when it reaches 0.
  pub fileclose : ℕ → Ftable → Outcome Ftable
  fileclose i w =
      let ff = w.file i in
      let left = u32 (ff.ref + (2 ^ 32 - 1)) in
      if not (positive ff.ref)
      then panic
      else if positive left
      then ok (set_file i (record ff { ref = left }) w)
      else close_object ff.type ff (set_file i (record ff { ref = 0; type = fd_none }) w)

  abbrev pub is_inode_or_device : FileType → Bool
  is_inode_or_device fd_none = false
  is_inode_or_device fd_pipe = false
  is_inode_or_device fd_inode = true
  is_inode_or_device fd_device = true

  -- Get metadata about file f, and whether `copyout` stores it.
  pub filestat : Bool → ℕ → Ftable → Outcome (ℤ × Option Stat × Ftable)
  filestat can i w =
      if is_inode_or_device (w.file i).type
      then (do
        t ← ilock sb pid (w.file i).ip w.itable
        let st = stati (t.inode (w.file i).ip)
        t' ← iunlock sb pid (w.file i).ip t
        let w' = record w { itable = t' }
        ok (if can then (pos 0, some st, w') else (negsuc 0, none, w')))
      else ok (negsuc 0, none, w)

  -- `f->off += r` if `r > 0`
  abbrev pub advance : ℤ → File → File
  advance (pos r) f = record f { off = u32 (f.off + r) }
  advance (negsuc k) f = f

  -- The part of `fileread` for an inode.
  pub read_inode : (ℕ → Bool) → ℕ → ℕ → Ftable → Outcome (ℤ × List ℕ × Ftable)
  read_inode to n i w = do
    let f = w.file i
    t ← ilock sb pid f.ip w.itable
    (r, out, (ip, s)) ← readi sb to f.off n (t.inode f.ip, t.disk)
    t' ← iunlock sb pid f.ip (record (set_inode f.ip ip t) { disk = s })
    ok (r, out, record (set_file i (advance r f) w) { itable = t' })

  -- One pass of the loop of `filewrite`, of `n1` bytes from byte `i` of the source on.
  pub write_pass : (ℕ → Bool) → (ℕ → ℕ) → ℕ → ℕ → ℕ → Ftable → Outcome (ℤ × Ftable)
  write_pass can src i n1 fd w = do
    let f = w.file fd
    t ← ilock sb pid f.ip w.itable
    (r, (ip, s)) ← writei sb (λ x. can (i + x)) (λ x. src (i + x)) f.off n1 (t.inode f.ip, t.disk)
    t' ← iunlock sb pid f.ip (record (set_inode f.ip ip t) { disk = s })
    ok (r, record (set_file fd (advance r f) w) { itable = t' })

  -- `((MAXOPBLOCKS-1-1-2) / 2) * BSIZE`
  abbrev pub max_write : ℕ
  max_write = (max_op_blocks - 1 - 1 - 2) / 2 * block_size

  -- The loop of `filewrite` for an inode: the bytes written in whole passes.
  pub filewrite_loop : (ℕ → Bool) → (ℕ → ℕ) → ℕ → ℕ → ℕ → ℕ → Ftable → Outcome (ℕ × Ftable)
  filewrite_loop can src zero i n fd w = ok (i, w)
  filewrite_loop can src (suc fuel) i n fd w =
      if ltb i n
      then (do
        let n1 = min (n - i) max_write
        (r, w') ← write_pass can src i n1 fd w
        if is_number n1 r then filewrite_loop can src fuel (i + n1) n fd w' else ok (i, w'))
      else ok (i, w)

  -- The part of `filewrite` for an inode.
  pub write_inode : (ℕ → Bool) → (ℕ → ℕ) → ℕ → ℕ → Ftable → Outcome (ℤ × Ftable)
  write_inode can src n fd w = do
    (i, w') ← filewrite_loop can src n 0 n fd w
    ok (if i == n then pos n else negsuc 0, w')
