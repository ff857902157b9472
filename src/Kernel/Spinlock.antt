-- ===== src/Kernel/Spinlock.antt =====
-- xv6-riscv/kernel/spinlock.c: spin locks, and the nesting of disabled interrupts. A hart is its
-- number; `&cpus[hart]` is written `some hart`, and a null pointer `none`.
pub mod Mutex
pub mod Interrupts
mod Examples
use aca_riscv_secure_boot.Common.{
  ℕ, zero, suc, ◌+◌, ◌-◌, Bool, true, false, not, ◌&&◌, ◌||◌, ltb, ◌==◌, if◌then◌else◌, Option,
  none, some,
}
use aca_riscv_secure_boot.Kernel.Outcome.{Outcome, ok, panic, ◌>>=◌}

-- The fields of `struct cpu` for the interrupts, and the interrupt enable bit of the hart.
pub record Cpu : Type 0 where
  pub noff : ℕ
  pub intena : Bool
  pub intr : Bool

-- `struct spinlock`; its name is for debugging.
pub record Lock : Type 0 where
  pub locked : Bool
  pub cpu : Option ℕ

abbrev pub initlock : Lock
initlock = record { locked = false; cpu = none }

pub push_off : Cpu → Cpu
push_off c =
    let old = c.intr in
    record { noff = c.noff + 1; intena = if c.noff == 0 then old else c.intena; intr = false }

pub pop_off : Cpu → Outcome Cpu
pop_off c =
    if c.intr
    then panic
    else if ltb c.noff 1
    then panic
    else let n = c.noff - 1 in
      ok (record { noff = n; intena = c.intena; intr = (n == 0) && c.intena })

abbrev pub is_cpu : Option ℕ → ℕ → Bool
is_cpu none hart = false
is_cpu (some h) hart = h == hart

pub holding : Lock → ℕ → Bool
holding lk hart = lk.locked && is_cpu lk.cpu hart

-- `acquire` up to its loop: interrupts go off, and a lock held already is a panic.
pub acquire_begin : ℕ → Lock → Cpu → Outcome Cpu
unfolding push_off holding
acquire_begin hart lk c = let off = push_off c in if holding lk hart then panic else ok off

-- One pass of its loop, the atomic swap: the value that was there before, and the lock.
pub test_and_set : Lock → Bool × Lock
test_and_set lk = (lk.locked, record lk { locked = true })

-- The end of `acquire`.
abbrev pub set_cpu : Option ℕ → Lock → Lock
set_cpu owner lk = record lk { cpu = owner }

-- The check of `release`; then come `set_cpu none`, `lock_release` and `pop_off`.
pub release_begin : ℕ → Lock → Outcome Lock
unfolding holding
release_begin hart lk = if holding lk hart then ok (set_cpu none lk) else panic

-- `__sync_lock_release(&lk->locked)`
abbrev pub lock_release : Lock → Lock
lock_release lk = record lk { locked = false }
