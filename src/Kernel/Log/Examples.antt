-- ===== src/Kernel/Log/Examples.antt =====
-- Tests of the log, and its theorems at concrete disks.
use aca_riscv_secure_boot.Common.{
  ℕ, ◌≡◌, ◌<◌, ◌≤◌, ◌-◌, ◌⊎◌, inr, refl, false, arith, ◌==◌, if◌then◌else◌, [], ◌∷◌,
}
use aca_riscv_secure_boot.Kernel.Outcome.{ok, panic}
use aca_riscv_secure_boot.Kernel.Log.{State, Block, Blocks, initlog, begin_op, log_write, commit}
use aca_riscv_secure_boot.Kernel.Log.Logical.{logical}
use aca_riscv_secure_boot.Kernel.Log.Install.{HasLog}
use aca_riscv_secure_boot.Kernel.Log.Recover.{reboots, recover-reboots}
use aca_riscv_secure_boot.Kernel.Log.Commit.{IsReady, committed}
use aca_riscv_secure_boot.Kernel.Log.Atomic.{HasOutside, commit_atomic, commit_durable}
use aca_riscv_secure_boot.Kernel.Log.Absorb.{log_write-committed}
use aca_riscv_secure_boot.Kernel.Log.Space.{
  World, begin, here, next, IsSound, reserved, log_write-reserved,
}

-- A block with `v` in all of its words.
abbrev filled : ℕ → Block
filled v _ = v

-- The log starts at block 2; blocks 45 and 46 are logged, with 7 and 8 in them.
abbrev crashed : Blocks
crashed b =
    if b == 2
    then (λ i. if i == 0 then 2 else if i == 1 then 45 else if i == 2 then 46 else 0)
    else if b == 3
    then filled 7
    else if b == 4
    then filled 8
    else filled 0

crashed-HasLog : HasLog 2 30 crashed
crashed-HasLog = record {
  fits = ground arith;
  short = ground arith;
  home = λ i l. inr (ground arith);
}

-- The power fails after one write, then after two.
recover-reboots_example :
    ((initlog 2 30 40 (reboots 2 30 (1 ∷ 2 ∷ []) crashed)).disk 2 0 ≡ 0)
    × ((initlog 2 30 40 (reboots 2 30 (1 ∷ 2 ∷ []) crashed)).disk 46 ≡ logical 2 crashed 46)
recover-reboots_example =
    recover-reboots 2 30 40 (1 ∷ 2 ∷ []) crashed crashed-HasLog (omega arith) 46 (inr (omega arith))

-- A transaction of the blocks 45 and 46, not yet committed, with power for `power` writes.
abbrev pending : ℕ → State
pending power = record {
  start = 2;
  size = 30;
  outstanding = 1;
  committing = false;
  lh = record { n = 2; block = λ i. if i == 0 then 45 else 46 };
  view = λ b. if b == 45 then filled 7 else if b == 46 then filled 8 else filled 0;
  disk = λ b. filled 0;
  pins = λ b. 1;
  power = power;
}

pending-IsReady : (power : ℕ) → IsReady (pending power)
pending-IsReady power = record {
  fits = omega arith;
  short = omega arith;
  home = λ i l. inr (ground arith);
  empty = refl;
}

commit_atomic_example :
    HasOutside 2 30
      (initlog 2 30 40 (reboots 2 30 (1 ∷ []) (commit (pending 4)).disk)).disk
      (pending 4).disk
    ⊎ HasOutside 2 30
        (initlog 2 30 40 (reboots 2 30 (1 ∷ []) (commit (pending 4)).disk)).disk
        (committed (pending 4))
commit_atomic_example = commit_atomic (pending 4) (pending-IsReady 4) 40 (1 ∷ []) (omega arith)

commit_durable_example :
    ((commit (pending 63)).disk 46 ≡ committed (pending 63) 46)
    × ((commit (pending 63)).disk 2 0 ≡ 0)
    × ((commit (pending 63)).lh.n ≡ 0)
commit_durable_example =
    commit_durable (pending 63) (pending-IsReady 63) (omega arith) (omega arith) 46
      (inr (omega arith))

-- Block 32 is the first behind the log.
log_write-committed_example :
    (s' : State) × (log_write 32 (pending 9) ≡ ok s')
    × IsReady s'
    × ((x : ℕ)
        → committed s' x ≡ (if x == 32 then (pending 9).view 32 else committed (pending 9) x))
log_write-committed_example =
    log_write-committed 32 (pending 9) (pending-IsReady 9) (inr (omega arith)) (omega arith)
      (omega arith) (omega arith)

-- Nothing logged, no operation open.
abbrev mounted : State
mounted = record {
  start = 2;
  size = 30;
  outstanding = 0;
  committing = false;
  lh = record { n = 0; block = λ i. 0 };
  view = λ b. filled 0;
  disk = λ b. filled 0;
  pins = λ b. 0;
  power = 100;
}

abbrev idle_world : World
idle_world = record { log = mounted; calls = [] }

abbrev busy_world : World
busy_world = record { log = record mounted { outstanding = 1 }; calls = 0 ∷ [] }

idle_world-IsSound : IsSound idle_world
unfolding reserved
idle_world-IsSound = record { room = omega arith; counted = refl; idle = refl }

idle_world-begins : begin_op mounted ≡ ok (record mounted { outstanding = 1 })
unfolding begin_op
idle_world-begins = refl

log_write-reserved_example :
    (busy_world.log.lh.n < 30)
    × (((busy_world.log.lh.n < busy_world.log.size - 1)
          × ((s : State) × (log_write 45 busy_world.log ≡ ok s)))
        ⊎ ((busy_world.log.size - 1 ≤ busy_world.log.lh.n) × (log_write 45 busy_world.log ≡ panic)))
log_write-reserved_example =
    log_write-reserved idle_world-IsSound (next here (begin idle_world-begins)) 45 0 (omega arith)
      (omega arith)
