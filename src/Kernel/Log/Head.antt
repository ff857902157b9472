-- ===== src/Kernel/Log/Head.antt =====
-- The header block of the log: `read_head` and `write_head` of xv6-riscv/kernel/log.c.
use aca_riscv_secure_boot.Common.{
  ℕ, zero, suc, ◌+◌, ◌-◌, ◌≡◌, ◌<◌, ◌&&◌, arith, ltb, leb, ◌==◌, if◌then◌else◌,
}
use aca_riscv_secure_boot.Kernel.Log.{
  Block, LogHeader, State, bwrite, read_blocks, write_blocks, head_block, write_head,
}

pub read_blocks_lem :
    (rounds i : ℕ) (hb : Block) (block : ℕ → ℕ) (x : ℕ)
    → read_blocks rounds i hb block x
      ≡ (if leb i x && ltb x (i + rounds) then hb (1 + x) else block x)
unfolding read_blocks
read_blocks_lem zero i hb block x = ground arith
read_blocks_lem (suc rounds) i hb block x =
    ground
      (arith, read_blocks_lem rounds (i + 1) hb (λ y. if y == i then hb (1 + i) else block y) x)

write_blocks_lem :
    (rounds i : ℕ) (block : ℕ → ℕ) (hb : Block) (x : ℕ)
    → write_blocks rounds i block hb x
      ≡ (if leb (1 + i) x && ltb x (1 + i + rounds) then block (x - 1) else hb x)
unfolding write_blocks
write_blocks_lem zero i block hb x = ground arith
write_blocks_lem (suc rounds) i block hb x =
    ground
      (arith, write_blocks_lem rounds (i + 1) block (λ y. if y == 1 + i then block i else hb y) x)

-- The header block holds the count, and behind it the block numbers.
pub head_block-count : (lh : LogHeader) (hb : Block) → head_block lh hb 0 ≡ lh.n
unfolding head_block
head_block-count lh hb =
    ground (arith, write_blocks_lem lh.n 0 lh.block (λ x. if x == 0 then lh.n else hb x) 0)

pub head_block-entry :
    (lh : LogHeader) (hb : Block) (i : ℕ) → i < lh.n → head_block lh hb (1 + i) ≡ lh.block i
unfolding head_block
head_block-entry lh hb i h =
    ground (arith, write_blocks_lem lh.n 0 lh.block (λ x. if x == 0 then lh.n else hb x) (1 + i))

-- The disk after `write_head`, if the write reaches it.
pub disk-write_head :
    (s : State) (x : ℕ)
    → (write_head s).disk x
      ≡ (if ltb 0 s.power && (x == s.start) then head_block s.lh (s.view s.start) else s.disk x)
unfolding write_head bwrite
disk-write_head s x = ground arith
