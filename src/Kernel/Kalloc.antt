-- ===== src/Kernel/Kalloc.antt =====
-- xv6-riscv/kernel/kalloc.c: the allocator of physical pages. The free pages are a list through
-- memory; `end` is where the linker puts the end of the kernel.
pub mod FreeList
pub mod Init
pub mod Client
mod Examples
use aca_riscv_secure_boot.Common.{
  ℕ, zero, suc, ◌+◌, ◌-◌, ◌*◌, ◌/◌, ◌%◌, Bool, true, false, not, ◌||◌, ltb, leb, ◌==◌,
  if◌then◌else◌,
}
use aca_riscv_secure_boot.Common.Memory.{Memory}
use aca_riscv_secure_boot.Common.Cells.{read_le, store_64}
use aca_riscv_secure_boot.Boot.Strings.{memset}
use aca_riscv_secure_boot.Kernel.Outcome.{Outcome, ok, panic, ◌>>=◌}

-- `PGSIZE` and `PHYSTOP`
abbrev pub page_size : ℕ
page_size = 4096

abbrev pub phys_stop : ℕ
phys_stop = 0x81000000 + 128 * 1024 * 1024

-- `PGROUNDUP`
abbrev pub page_round_up : ℕ → ℕ
page_round_up sz = (sz + page_size - 1) / page_size * page_size

-- `kmem` behind its lock, with the memory that the list runs through.
pub record Kmem : Type 0 where
  pub freelist : ℕ
  pub memory : Memory

pub kfree : ℕ → ℕ → Kmem → Outcome Kmem
kfree end pa s =
    if not (pa % page_size == 0) || ltb pa end || leb phys_stop pa
    then panic
    else let junk = memset pa 1 page_size s.memory in
      ok (record { freelist = pa; memory = store_64 pa s.freelist junk })

-- The address that `kalloc` returns, or 0.
pub kalloc : Kmem → ℕ × Kmem
kalloc s =
    let r = s.freelist in
    if r == 0
    then (r, s)
    else (r, record { freelist = read_le s.memory r 8; memory = memset r 5 page_size s.memory })

-- The loop of `freerange` from `p` on, on fuel; without any left it reports a sleep.
pub freerange_loop : ℕ → ℕ → ℕ → ℕ → Kmem → Outcome Kmem
freerange_loop zero end p pa_end s = Outcome.sleep
freerange_loop (suc fuel) end p pa_end s =
    if ltb pa_end (p + page_size)
    then ok s
    else (do s' ← kfree end p s; freerange_loop fuel end (p + page_size) pa_end s')

pub freerange : ℕ → ℕ → ℕ → ℕ → Kmem → Outcome Kmem
unfolding freerange_loop
freerange fuel end pa_start pa_end s = freerange_loop fuel end (page_round_up pa_start) pa_end s

-- `kmem` is zero before.
pub kinit : ℕ → ℕ → Memory → Outcome Kmem
unfolding freerange
kinit fuel end m = freerange fuel end end phys_stop (record { freelist = 0; memory = m })
