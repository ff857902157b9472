-- ===== src/Kernel/Log/Commit.antt =====
-- `commit` of xv6-riscv/kernel/log.c under a power failure at any write.
use aca_riscv_secure_boot.Common.{
  ℕ, zero, suc, ◌+◌, ◌≡◌, ◌<◌, ◌≤◌, ◌⊎◌, refl, subst, false, arith, ◌∙◌, ap,
}
use aca_riscv_secure_boot.Kernel.Log.{
  Block, Blocks, State, bwrite, copy_data, install_trans, clear_count, write_head, head_block,
  log_block, write_log_loop, write_log,
}
use aca_riscv_secure_boot.Kernel.Log.Head.{head_block-count, head_block-entry, disk-write_head}
use aca_riscv_secure_boot.Kernel.Log.Logical.{
  replay, replay_ext, logical, logged_count, logged_block, logged_data, IsHome, Outside,
}
use aca_riscv_secure_boot.Kernel.Log.Install.{
  HasLog, Installing, install_loop-Installing, frozen_loop,
}

-- The last commit has been erased on disk, and `lh` lists blocks outside the log.
pub record IsReady (s : State) : Type 0 where
  pub fits : s.lh.n ≤ 30
  pub short : s.lh.n < s.size
  pub home : IsHome s.start s.size s.lh.n s.lh.block
  pub empty : s.disk s.start 0 ≡ 0

-- The blocks as a whole transaction leaves them: those that `lh` lists as the buffer cache has
-- them, the others as they are on disk.
abbrev pub committed : State → ℕ → Block
committed s = replay s.lh.n s.lh.block (λ i. s.view (s.lh.block i)) s.disk

-- After `tail` passes of `write_log` from `s0`.
pub record Logging (s0 : State) (tail : ℕ) (s : State) : Type 0 where
  pub start_eq : s.start ≡ s0.start
  pub count_eq : s.lh.n ≡ s0.lh.n
  pub block_eq : (i : ℕ) → s.lh.block i ≡ s0.lh.block i
  pub home_view : (i : ℕ) → i < s0.lh.n → s.view (s0.lh.block i) ≡ s0.view (s0.lh.block i)
  pub log_view : (i : ℕ) → i < tail → s.view (s0.start + i + 1) ≡ s0.view (s0.lh.block i)
  pub disk_same : (x : ℕ) → (x ≤ s0.start) ⊎ (s0.start + s0.size ≤ x) → s.disk x ≡ s0.disk x
  pub disk_log :
      (i : ℕ) → i < tail → 0 < s.power → s.disk (s0.start + i + 1) ≡ s0.view (s0.lh.block i)

module _ (s0 : State) (ready : IsReady s0) where
  open ready use {fits, short, home, empty}

  log_block-Logging :
      (tail : ℕ) (s : State)
      → Logging s0 tail s
      → tail < s0.lh.n
      → Logging s0 (suc tail) (log_block tail s)
  unfolding log_block bwrite copy_data
  log_block-Logging tail s inv h = record {
    start_eq = ground (arith, inv.start_eq);
    count_eq = ground (arith, inv.count_eq);
    block_eq = λ i. ground (arith, inv.block_eq i);
    home_view = λ i l. ground (arith, inv.start_eq, inv.block_eq tail, inv.home_view i l, home i);
    log_view =
        λ i l. ground (arith, inv.start_eq, inv.block_eq tail, inv.log_view i, inv.home_view tail);
    disk_same = λ x o. ground (arith, inv.start_eq, inv.disk_same x o);
    disk_log = λ i l p.
        ground (arith, inv.start_eq, inv.block_eq tail, inv.disk_log i, inv.home_view tail);
  }

  write_log_loop-Logging :
      (rounds tail : ℕ) (s : State)
      → Logging s0 tail s
      → tail + rounds ≡ s0.lh.n
      → Logging s0 s0.lh.n (write_log_loop rounds tail s)
  unfolding write_log_loop
  write_log_loop-Logging zero tail s inv e =
      let e' : tail ≡ s0.lh.n = omega arith in subst (λ n. Logging s0 n s) e' inv
  write_log_loop-Logging (suc rounds) tail s inv e =
      write_log_loop-Logging rounds (tail + 1) (log_block tail s)
        (let f : tail + 1 ≡ suc tail = omega arith in
          rw f (log_block-Logging tail s inv (omega arith)))
        (omega arith)

  -- The four states of a commit.
  abbrev pub logged : State
  logged = write_log s0

  abbrev pub headed : State
  headed = write_head logged

  abbrev pub installed : State
  installed = install_trans false headed

  pub logged-Logging : Logging s0 s0.lh.n logged
  unfolding write_log
  logged-Logging =
      write_log_loop-Logging s0.lh.n 0 s0
        (record {
          start_eq = refl;
          count_eq = refl;
          block_eq = λ i. refl;
          home_view = λ i l. refl;
          log_view = λ i l. absurd (omega arith);
          disk_same = λ x o. refl;
          disk_log = λ i l. absurd (omega arith);
        })
        (omega arith)

  open logged-Logging use {start_eq, count_eq, block_eq, home_view, log_view, disk_same, disk_log}

  pub headed_count : headed.lh.n ≡ s0.lh.n
  unfolding write_head bwrite
  headed_count = ground (arith, count_eq)

  -- The header reaches the disk: this is the commit.
  module _ (alive : 0 < logged.power) where
    header : headed.disk s0.start ≡ head_block logged.lh (logged.view logged.start)
    header = ground (arith, disk-write_head logged s0.start, start_eq)

    pub header_count : logged_count s0.start headed.disk ≡ s0.lh.n
    header_count =
        ap (λ (h : Block). h 0) header
        ∙ head_block-count logged.lh (logged.view logged.start)
        ∙ count_eq

    header_block : (i : ℕ) → i < s0.lh.n → logged_block s0.start headed.disk i ≡ s0.lh.block i
    header_block i l =
        ap (λ (h : Block). h (1 + i)) header
        ∙ head_block-entry logged.lh (logged.view logged.start) i (omega (arith, count_eq))
        ∙ block_eq i

    header_data :
        (i : ℕ) → i < s0.lh.n → logged_data s0.start headed.disk i ≡ s0.view (s0.lh.block i)
    header_data i l =
        ground (arith, disk-write_head logged (s0.start + i + 1), start_eq, disk_log i)

    pub headed-HasLog : HasLog s0.start s0.size headed.disk
    headed-HasLog = record {
      fits = omega (arith, header_count, fits);
      short = omega (arith, header_count, short);
      home = λ i l. ground (arith, header_count, header_block i, home i);
    }

    pub headed-committed :
        (b : ℕ) → Outside s0.start s0.size b → logical s0.start headed.disk b ≡ committed s0 b
    headed-committed b o =
        ap
          (λ (n : ℕ).
            replay n (logged_block s0.start headed.disk) (logged_data s0.start headed.disk)
              headed.disk b)
          header_count
        ∙ replay_ext s0.lh.n _ _ _ _ headed.disk s0.disk b header_block header_data
            (ground (arith, disk-write_head logged b, start_eq, disk_same b))

    headed-Installing : Installing s0.start s0.size headed.disk 0 headed
    unfolding write_head bwrite replay
    headed-Installing = record {
      start_eq = ground (arith, start_eq);
      entry = λ i l. ground (arith, header_count, header_block i, block_eq i);
      cached = λ i l. ground (arith, header_count, header_data i, start_eq, log_view i);
      kept = λ x p q. refl;
      same = λ b. refl;
      done = λ b p. refl;
    }

    pub installed-Installing :
        Installing s0.start s0.size headed.disk (logged_count s0.start headed.disk) installed
    unfolding install_trans
    installed-Installing =
        install_loop-Installing headed-HasLog false headed.lh.n 0 headed headed-Installing
          (omega (arith, headed_count, header_count))

  -- The blocks after the last write, if the log is not empty.
  abbrev pub final : Blocks
  final = (write_head (clear_count installed)).disk

  -- Without power for the header the disk stays as `write_log` left it.
  module _ (dead : logged.power ≡ 0) where
    headed_dead : headed.power ≡ 0
    unfolding write_head bwrite
    headed_dead = ground (arith, dead)

    installed_dead : (installed.disk ≡ headed.disk) × (installed.power ≡ 0)
    unfolding install_trans
    installed_dead = let (d, p, q) = frozen_loop false headed.lh.n 0 headed headed_dead in (d, p)

    pub final_dead : (x : ℕ) → final x ≡ logged.disk x
    unfolding clear_count
    final_dead x = ground (
      arith,
      disk-write_head (clear_count installed) x,
      installed_dead.0,
      installed_dead.1,
      disk-write_head logged x,
      dead,
    )
