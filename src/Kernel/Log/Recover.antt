-- ===== src/Kernel/Log/Recover.antt =====
-- `recover_from_log` of xv6-riscv/kernel/log.c, interrupted by a power failure at any write.
use aca_riscv_secure_boot.Common.{ℕ, ◌≡◌, ◌<◌, refl, true, false, arith, ◌∙◌, List, [], ◌∷◌}
use aca_riscv_secure_boot.Kernel.Log.{
  Blocks, State, install_trans, read_head, recover_from_log, initlog,
}
use aca_riscv_secure_boot.Kernel.Log.Head.{read_blocks_lem}
use aca_riscv_secure_boot.Kernel.Log.Logical.{replay, logical, logged_count, Outside}
use aca_riscv_secure_boot.Kernel.Log.Clear.{
  cleared_empty, cleared_replayed, cleared-logical, cleared-HasLog,
}
use aca_riscv_secure_boot.Kernel.Log.Install.{
  HasLog, Installing, install_loop-Installing, install_loop_power,
}

module _ (start nlog power : ℕ) (d0 : Blocks) (has : HasLog start nlog d0) where
  -- The state that `initlog` hands to `recover_from_log`.
  abbrev booted : State
  booted = record {
    start = start;
    size = nlog;
    outstanding = 0;
    committing = false;
    lh = record { n = 0; block = λ _. 0 };
    view = d0;
    disk = d0;
    pins = λ _. 0;
    power = power;
  }

  abbrev installed : State
  installed = install_trans true (read_head booted)

  installed-Installing : Installing start nlog d0 (logged_count start d0) installed
  unfolding install_trans read_head
  installed-Installing =
      install_loop-Installing has true (logged_count start d0) 0 (read_head booted)
        (record {
          start_eq = refl;
          entry = λ i l.
              ground (arith, read_blocks_lem (logged_count start d0) 0 (d0 start) (λ _. 0) i);
          cached = λ i l. refl;
          kept = λ x p q. refl;
          same = λ b. refl;
          done = λ b p. unfold replay in refl;
        })
        (omega arith)

  installed_power : logged_count start d0 < power → 0 < installed.power
  unfolding install_trans read_head
  installed_power h =
      omega (arith, install_loop_power true (logged_count start d0) 0 (read_head booted))

-- The disk after a row of boots, each with the power for so many writes.
pub reboots : ℕ → ℕ → List ℕ → Blocks → Blocks
reboots start nlog [] d = d
reboots start nlog (power ∷ powers) d = reboots start nlog powers (initlog start nlog power d).disk

reboots-logical :
    (start nlog : ℕ) (powers : List ℕ) (d : Blocks)
    → HasLog start nlog d
    → HasLog start nlog (reboots start nlog powers d)
      × ((b : ℕ)
          → Outside start nlog b
          → logical start (reboots start nlog powers d) b ≡ logical start d b)
unfolding reboots
reboots-logical start nlog [] d has = (has, λ b o. refl)
reboots-logical start nlog (power ∷ powers) d has =
    let next = (initlog start nlog power d).disk in
    let (kept, same) = reboots-logical start nlog powers next (
      unfold initlog recover_from_log in
      cleared-HasLog start nlog d has (installed start nlog power d has)
        (installed-Installing start nlog power d has)) in
    (
      kept,
      λ b o.
          same b o
          ∙ (unfold initlog recover_from_log in
              cleared-logical start nlog d has (installed start nlog power d has)
                (installed-Installing start nlog power d has) b o),
    )

-- Recovery survives power failures. However often the power fails during `recover_from_log`, and at
-- whichever writes, the first boot with power for more than 30 writes leaves every block outside
-- the log as the log of the first disk says, and the log empty.
pub recover-reboots :
    (start nlog power : ℕ) (powers : List ℕ) (d : Blocks)
    → HasLog start nlog d
    → 30 < power
    → (b : ℕ) → Outside start nlog b
    → ((initlog start nlog power (reboots start nlog powers d)).disk start 0 ≡ 0)
      × ((initlog start nlog power (reboots start nlog powers d)).disk b ≡ logical start d b)
unfolding initlog recover_from_log
recover-reboots start nlog power powers d has h b o =
    let d' = reboots start nlog powers d in
    let (has', same) = reboots-logical start nlog powers d has in
    let left = installed_power start nlog power d' has' (omega (arith, has'.fits)) in
    (
      cleared_empty start nlog d' has' (installed start nlog power d' has')
          (installed-Installing start nlog power d' has') left,
      cleared_replayed start nlog d' has' (installed start nlog power d' has')
            (installed-Installing start nlog power d' has') left b o
          ∙ same b o,
    )
