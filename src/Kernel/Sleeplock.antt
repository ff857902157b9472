-- ===== src/Kernel/Sleeplock.antt =====
-- xv6-riscv/kernel/sleeplock.c: locks that are held across sleeps. `pid` is the process that calls;
-- the spin lock inside makes each function one step.
use aca_riscv_secure_boot.Common.{ℕ, Bool, true, false, ◌&&◌, ◌==◌, if◌then◌else◌}
use aca_riscv_secure_boot.Kernel.Outcome.{Outcome, ok, sleep}

-- `struct sleeplock`; its name is for debugging.
pub record Sleeplock : Type 0 where
  pub locked : Bool
  pub pid : ℕ

abbrev pub initsleeplock : Sleeplock
initsleeplock = record { locked = false; pid = 0 }

-- One pass of the loop of `acquiresleep`: asleep, or with the lock.
unfoldable pub acquiresleep : ℕ → Sleeplock → Outcome Sleeplock
acquiresleep pid lk = if lk.locked then sleep else ok (record { locked = true; pid = pid })

unfoldable pub releasesleep : Sleeplock → Sleeplock
releasesleep lk = record { locked = false; pid = 0 }

unfoldable pub holdingsleep : ℕ → Sleeplock → Bool
holdingsleep pid lk = lk.locked && lk.pid == pid
