-- ===== src/Kernel/Log/Clear.antt =====
-- Erasing the log after `install_trans`: the last two steps of `recover_from_log` and of `commit` in
-- xv6-riscv/kernel/log.c, whether or not the power lasts.
use aca_riscv_secure_boot.Common.{
  ℕ, ◌+◌, ◌≡◌, ◌≢◌, ◌<◌, ◌≤◌, refl, ◌&&◌, arith, ltb, ◌==◌, if◌then◌else◌, ◌∙◌, ap, dec_lt,
}
use aca_riscv_secure_boot.Kernel.Log.{Block, Blocks, State, clear_count, write_head, head_block}
use aca_riscv_secure_boot.Kernel.Log.Head.{head_block-count, disk-write_head}
use aca_riscv_secure_boot.Kernel.Log.Logical.{
  replay, replay_ext, logical, logged_count, logged_block, logged_data, Outside,
}
use aca_riscv_secure_boot.Kernel.Log.Install.{HasLog, Installing}

-- A disk with the log of `d0` stands for the replay of that log.
pub logical_of_kept :
    (start size : ℕ) (d0 d : Blocks)
    → logged_count start d0 < size
    → ((x : ℕ) → start ≤ x → x < start + size → d x ≡ d0 x)
    → (b : ℕ)
    → logical start d b
      ≡ replay (logged_count start d0) (logged_block start d0) (logged_data start d0) d b
logical_of_kept start size d0 d short kept b =
    ap (λ (h : Block). replay (h 0) (λ i. h (1 + i)) (logged_data start d) d b)
      (kept start (omega arith) (omega arith))
    ∙ replay_ext (logged_count start d0) (logged_block start d0) (logged_block start d0)
        (logged_data start d) (logged_data start d0) d d b (λ i l. refl)
        (λ i l. kept (start + i + 1) (omega arith) (omega arith)) refl

kept-HasLog :
    (start size : ℕ) (d0 d : Blocks)
    → HasLog start size d0
    → d start ≡ d0 start
    → HasLog start size d
kept-HasLog start size d0 d has e = record {
  fits = rw e has.fits;
  short = rw e has.short;
  home = rw e has.home;
}

-- An empty log stands for the blocks as they are.
pub logical_of_empty : (start : ℕ) (d : Blocks) (b : ℕ) → d start 0 ≡ 0 → logical start d b ≡ d b
unfolding replay
logical_of_empty start d b e = rw e

module _ (start size : ℕ) (d0 : Blocks) (has : HasLog start size d0) (installed : State)
    (inst : Installing start size d0 (logged_count start d0) installed) where
  abbrev pub cleared : Blocks
  cleared = (write_head (clear_count installed)).disk

  -- Every block after the last write: the header is cleared if there was power for it.
  cleared_disk :
      (x : ℕ)
      → cleared x ≡ (
          if ltb 0 installed.power && (x == start)
          then head_block (clear_count installed).lh (installed.view start)
          else installed.disk x)
  unfolding clear_count
  cleared_disk x = ground (arith, disk-write_head (clear_count installed) x, inst.start_eq)

  pub cleared_empty : 0 < installed.power → cleared start 0 ≡ 0
  unfolding clear_count
  cleared_empty p = ground (
    arith,
    cleared_disk start,
    head_block-count (clear_count installed).lh (installed.view start),
  )

  cleared_outside : (b : ℕ) → b ≢ start → cleared b ≡ installed.disk b
  cleared_outside b h = ground (arith, cleared_disk b)

  -- With power left, the blocks are what the log stood for.
  pub cleared_replayed :
      0 < installed.power → (b : ℕ) → Outside start size b → cleared b ≡ logical start d0 b
  cleared_replayed p b o = cleared_outside b (omega arith) ∙ inst.done b p

  cleared_frozen : installed.power ≡ 0 → (x : ℕ) → cleared x ≡ installed.disk x
  cleared_frozen p x = ground (arith, cleared_disk x)

  pub cleared-logical :
      (b : ℕ) → Outside start size b → logical start cleared b ≡ logical start d0 b
  cleared-logical b o = elim (dec_lt 0 installed.power) [
    | yes p ↦ logical_of_empty start cleared b (cleared_empty p) ∙ cleared_replayed p b o
    | no p ↦
        logical_of_kept start size d0 cleared has.short
          (λ x l u. cleared_frozen (omega arith) x ∙ inst.kept x l u) b
        ∙ replay_ext _ _ _ _ _ cleared installed.disk b (λ i l. refl) (λ i l. refl)
            (cleared_frozen (omega arith) b)
        ∙ inst.same b
  ]

  pub cleared-HasLog : HasLog start size cleared
  cleared-HasLog = elim (dec_lt 0 installed.power) [
    | yes p ↦ record {
      fits = omega (arith, cleared_empty p);
      short = omega (arith, cleared_empty p, has.short);
      home = λ i l. absurd (omega (arith, cleared_empty p));
    }
    | no p ↦ kept-HasLog start size d0 cleared has (
        cleared_frozen (omega arith) start
        ∙ inst.kept start (omega arith) (omega (arith, has.short)))
  ]
