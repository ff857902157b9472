-- ===== src/Kernel/Log.antt =====
-- xv6-riscv/kernel/log.c: the redo log of the file system. The buffer cache (bio.c) is seen through
-- what `bread` returns, and the disk through the writes of `bwrite` that reach it before the power
-- fails.
pub mod Logical
pub mod Head
pub mod Install
pub mod Absorb
pub mod Atomic
pub mod Clear
pub mod Recover
pub mod Commit
pub mod Kept
pub mod Space
mod Examples
use aca_riscv_secure_boot.Common.{
  ℕ, zero, suc, ◌+◌, ◌-◌, ◌*◌, Bool, true, false, ◌||◌, ltb, leb, ◌==◌, if◌then◌else◌,
}
use aca_riscv_secure_boot.Kernel.Outcome.{Outcome, ok, sleep, panic, ◌>>=◌}

-- The data of a disk block as the array of its `int` words.
abbrev pub Block : Type 0
Block = ℕ → ℕ

-- Block numbers to data.
abbrev pub Blocks : Type 0
Blocks = ℕ → Block

abbrev pub put : Blocks → ℕ → Block → Blocks
put d b v x = if x == b then v else d x

-- `MAXOPBLOCKS` and `LOGSIZE` of param.h
abbrev pub max_op_blocks : ℕ
max_op_blocks = 10

abbrev pub log_size : ℕ
log_size = max_op_blocks * 3

-- `struct logheader`
pub record LogHeader : Type 0 where
  pub n : ℕ
  pub block : ℕ → ℕ

-- `struct log`, with what lies under it. `view b` is the data that `bread(dev, b)` returns, `pins`
-- counts the `bpin`s of a buffer, `power` is the number of writes that will still reach the disk.
pub record State : Type 0 where
  pub start : ℕ
  pub size : ℕ
  pub outstanding : ℕ
  pub committing : Bool
  pub lh : LogHeader
  pub view : Blocks
  pub disk : Blocks
  pub pins : ℕ → ℕ
  pub power : ℕ

-- `memmove(to->data, from->data, BSIZE)`
pub copy_data : ℕ → ℕ → State → State
copy_data to from s = record s { view = put s.view to (s.view from) }

-- `bwrite`
pub bwrite : ℕ → State → State
bwrite b s = elim s.power [
  | zero ↦ s
  | suc k ↦ record s { disk = put s.disk b (s.view b); power = k }
]

pub bpin : ℕ → State → State
bpin b s = record s { pins = λ x. if x == b then s.pins x + 1 else s.pins x }

pub bunpin : ℕ → State → State
bunpin b s = record s { pins = λ x. if x == b then s.pins x - 1 else s.pins x }

-- One pass of the loop of `install_trans`.
pub install_block : Bool → ℕ → State → State
install_block recovering tail s =
    let home = s.lh.block tail in
    let written = bwrite home (copy_data home (s.start + tail + 1) s) in
    if recovering then written else bunpin home written

-- `rounds` passes from `tail` on.
pub install_loop : Bool → ℕ → ℕ → State → State
install_loop recovering zero tail s = s
install_loop recovering (suc rounds) tail s =
    install_loop recovering rounds (tail + 1) (install_block recovering tail s)

-- Copy committed blocks from log to their home location.
pub install_trans : Bool → State → State
install_trans recovering s = install_loop recovering s.lh.n 0 s

-- The loop of `read_head`.
pub read_blocks : ℕ → ℕ → Block → (ℕ → ℕ) → ℕ → ℕ
read_blocks zero i hb block = block
read_blocks (suc rounds) i hb block =
    read_blocks rounds (i + 1) hb (λ x. if x == i then hb (1 + i) else block x)

-- Read the log header from disk into the in-memory log header.
pub read_head : State → State
unfolding read_blocks
read_head s =
    let hb = s.view s.start in
    let n = hb 0 in record s { lh = record { n = n; block = read_blocks n 0 hb s.lh.block } }

-- The loop of `write_head`.
pub write_blocks : ℕ → ℕ → (ℕ → ℕ) → Block → Block
write_blocks zero i block hb = hb
write_blocks (suc rounds) i block hb =
    write_blocks rounds (i + 1) block (λ x. if x == 1 + i then block i else hb x)

-- The header block with `lh` stored in it; the words behind are kept.
pub head_block : LogHeader → Block → Block
unfolding write_blocks
head_block lh hb = write_blocks lh.n 0 lh.block (λ x. if x == 0 then lh.n else hb x)

-- Write in-memory log header to disk.
pub write_head : State → State
write_head s =
    bwrite s.start (record s { view = put s.view s.start (head_block s.lh (s.view s.start)) })

pub clear_count : State → State
clear_count s = record s { lh = record { n = 0; block = s.lh.block } }

pub recover_from_log : State → State
recover_from_log s = write_head (clear_count (install_trans true (read_head s)))

-- `initlog` after a boot: nothing of the cache or of `struct log` is left.
pub initlog : ℕ → ℕ → ℕ → Blocks → State
initlog logstart nlog power disk = recover_from_log (record {
  start = logstart;
  size = nlog;
  outstanding = 0;
  committing = false;
  lh = record { n = 0; block = λ _. 0 };
  view = disk;
  disk = disk;
  pins = λ _. 0;
  power = power;
})

-- One pass of the loop of `begin_op`: asleep, or counted.
pub begin_op : State → Outcome State
begin_op s =
    if s.committing
    then sleep
    else if ltb log_size (s.lh.n + (s.outstanding + 1) * max_op_blocks)
    then sleep
    else ok (record s { outstanding = s.outstanding + 1 })

-- One pass of the loop of `write_log`.
pub log_block : ℕ → State → State
log_block tail s = let to = s.start + tail + 1 in bwrite to (copy_data to (s.lh.block tail) s)

pub write_log_loop : ℕ → ℕ → State → State
write_log_loop zero tail s = s
write_log_loop (suc rounds) tail s = write_log_loop rounds (tail + 1) (log_block tail s)

-- Copy modified blocks from cache to log.
pub write_log : State → State
write_log s = write_log_loop s.lh.n 0 s

pub commit : State → State
commit s =
    if ltb 0 s.lh.n
    then write_head (clear_count (install_trans false (write_head (write_log s))))
    else s

-- `end_op` with its two locked parts. A call of it ends an operation that `begin_op` counted, so
-- `outstanding` is at least 1.
pub end_op : State → Outcome State
end_op s =
    if s.committing
    then panic
    else if s.outstanding == 1
    then ok
        (record (commit (record s { outstanding = 0; committing = true })) { committing = false })
    else ok (record s { outstanding = s.outstanding - 1 })

-- The loop of `log_write`: the index of the block in the log, or `n`.
pub find_block : ℕ → ℕ → (ℕ → ℕ) → ℕ → ℕ
find_block zero i block b = i
find_block (suc rounds) i block b =
    let rest = find_block rounds (i + 1) block b in if block i == b then i else rest

pub log_write : ℕ → State → Outcome State
unfolding find_block bpin
log_write b s =
    if leb log_size s.lh.n || leb (s.size - 1) s.lh.n
    then panic
    else if ltb s.outstanding 1
    then panic
    else let i = find_block s.lh.n 0 s.lh.block b in
      let block = λ (x : ℕ). if x == i then b else s.lh.block x in
      if i == s.lh.n
      then ok (bpin b (record s { lh = record { n = s.lh.n + 1; block = block } }))
      else ok (record s { lh = record { n = s.lh.n; block = block } })
