-- ===== src/Kernel/Log/Atomic.antt =====
-- A commit is all or nothing: `commit` of xv6-riscv/kernel/log.c and the recovery after it.
use aca_riscv_secure_boot.Common.{
  ℕ, zero, suc, ◌+◌, ◌≡◌, ◌<◌, ◌≤◌, ◌⊎◌, inl, inr, subst, true, false, arith, ltb, lt→ltb,
  Bool-cases, ◌∙◌, sym, ap, dec_lt, List,
}
use aca_riscv_secure_boot.Kernel.Log.{
  Block, Blocks, State, write_head, clear_count, commit, initlog, write_log, write_log_loop,
  log_block, bwrite, copy_data, install_trans,
}
use aca_riscv_secure_boot.Kernel.Log.Logical.{logical, logged_count, Outside}
use aca_riscv_secure_boot.Kernel.Log.Install.{HasLog, Installing, install_loop_power}
use aca_riscv_secure_boot.Kernel.Log.Clear.{
  cleared_empty, cleared_replayed, cleared-logical, cleared-HasLog, logical_of_empty,
}
use aca_riscv_secure_boot.Kernel.Log.Recover.{reboots, recover-reboots}
use aca_riscv_secure_boot.Kernel.Log.Commit.{
  IsReady, committed, logged, headed, installed, final, final_dead, logged-Logging, headed-HasLog,
  headed-committed, headed_count, installed-Installing,
}

-- What a disk stands for, and that it can be recovered.
record StandsFor (start size : ℕ) (d : Blocks) (content : ℕ → Block) : Type 0 where
  has : HasLog start size d
  reads : (b : ℕ) → Outside start size b → logical start d b ≡ content b

-- The blocks outside the log have this content.
abbrev pub HasOutside : ℕ → ℕ → Blocks → (ℕ → Block) → Type 0
HasOutside start size d content = (b : ℕ) → Outside start size b → d b ≡ content b

module _ (s0 : State) (ready : IsReady s0) where
  final_old : (logged s0 ready).power ≡ 0 → StandsFor s0.start s0.size (final s0 ready) s0.disk
  final_old dead = record {
    has = record {
      fits = omega (arith, still_empty);
      short = omega (arith, still_empty, ready.short);
      home = λ i l. absurd (omega (arith, still_empty));
    };
    reads = λ b o.
        logical_of_empty s0.start (final s0 ready) b still_empty
        ∙ final_dead s0 ready dead b
        ∙ (logged-Logging s0 ready).disk_same b (omega arith);
  }
    where
      still_empty : final s0 ready s0.start 0 ≡ 0
      still_empty =
          ap (λ (h : Block). h 0)
            (final_dead s0 ready dead s0.start
              ∙ (logged-Logging s0 ready).disk_same s0.start (omega arith))
          ∙ ready.empty

  final_new :
      0 < (logged s0 ready).power → StandsFor s0.start s0.size (final s0 ready) (committed s0)
  final_new alive = record {
    has = cleared-HasLog s0.start s0.size (headed s0 ready).disk has (installed s0 ready) inst;
    reads = λ b o.
        cleared-logical s0.start s0.size (headed s0 ready).disk has (installed s0 ready) inst b o
        ∙ headed-committed s0 ready alive b o;
  }
    where
      has : HasLog s0.start s0.size (headed s0 ready).disk
      has = headed-HasLog s0 ready alive

      inst :
          Installing s0.start s0.size
            (headed s0 ready).disk
            (logged_count s0.start (headed s0 ready).disk)
            (installed s0 ready)
      inst = installed-Installing s0 ready alive

  commit_some : ltb 0 s0.lh.n ≡ true → (commit s0).disk ≡ final s0 ready
  unfolding commit
  commit_some t = rw t

  commit_none : ltb 0 s0.lh.n ≡ false → commit s0 ≡ s0
  unfolding commit
  commit_none t = rw t

  idle : StandsFor s0.start s0.size s0.disk s0.disk
  idle = record {
    has = record {
      fits = omega (arith, ready.empty);
      short = omega (arith, ready.empty, ready.short);
      home = λ i l. absurd (omega (arith, ready.empty));
    };
    reads = λ b o. logical_of_empty s0.start s0.disk b ready.empty;
  }

  -- The disk after a commit stands for the old content or for the whole new one.
  commit-StandsFor :
      StandsFor s0.start s0.size (commit s0).disk s0.disk
      ⊎ StandsFor s0.start s0.size (commit s0).disk (committed s0)
  commit-StandsFor = elim (Bool-cases (ltb 0 s0.lh.n)) [
    | inl t ↦ elim (dec_lt 0 (logged s0 ready).power) [
      | yes alive ↦ inr (
          subst (λ d. StandsFor s0.start s0.size d (committed s0)) (sym (commit_some t))
            (final_new alive))
      | no dead ↦ inl (
          subst (λ d. StandsFor s0.start s0.size d s0.disk) (sym (commit_some t))
            (final_old (omega arith)))
    ]
    | inr t ↦ inl (
        subst (λ (s : State). StandsFor s0.start s0.size s.disk s0.disk) (sym (commit_none t)) idle)
  ]

  recovered_reads :
      (power : ℕ) (powers : List ℕ) (d : Blocks) (content : ℕ → Block)
      → 30 < power
      → StandsFor s0.start s0.size d content
      → (b : ℕ) → Outside s0.start s0.size b
      → (initlog s0.start s0.size power (reboots s0.start s0.size powers d)).disk b ≡ content b
  recovered_reads power powers d content h stands b o =
      (recover-reboots s0.start s0.size power powers d stands.has h b o).1 ∙ stands.reads b o

  -- A transaction that is ready to commit is atomic across power failures. Let the power fail at any write of `commit`, and
  -- then any number of times during recovery. Once a boot has power for more than 30 writes, either
  -- every block outside the log is as it was on disk before the commit, or every one is as the
  -- whole transaction leaves it.
  pub commit_atomic :
      (power : ℕ) (powers : List ℕ)
      → 30 < power
      → let d =
          (initlog s0.start s0.size power
            (reboots s0.start s0.size powers (commit s0).disk)).disk in
        HasOutside s0.start s0.size d s0.disk ⊎ HasOutside s0.start s0.size d (committed s0)
  commit_atomic power powers h = elim commit-StandsFor [
    | inl old ↦ inl (recovered_reads power powers (commit s0).disk s0.disk h old)
    | inr new ↦ inr (recovered_reads power powers (commit s0).disk (committed s0) h new)
  ]

write_log_loop_power :
    (rounds tail : ℕ) (s : State) → s.power ≤ (write_log_loop rounds tail s).power + rounds
unfolding write_log_loop
write_log_loop_power zero tail s = omega arith
write_log_loop_power (suc rounds) tail s =
    omega (arith, one, write_log_loop_power rounds (tail + 1) (log_block tail s))
  where
    one : s.power ≤ (log_block tail s).power + 1
    one = unfold log_block bwrite copy_data in ground arith

write_head_power : (s : State) → s.power ≤ (write_head s).power + 1
unfolding write_head bwrite
write_head_power s = ground arith

-- With power for more than 62 writes a commit of a transaction that is ready and not empty puts all of it on
-- disk, and erases the log there and in memory.
pub commit_durable :
    (s0 : State)
    → IsReady s0
    → 0 < s0.lh.n
    → 62 < s0.power
    → (b : ℕ) → Outside s0.start s0.size b
    → ((commit s0).disk b ≡ committed s0 b)
      × ((commit s0).disk s0.start 0 ≡ 0)
      × ((commit s0).lh.n ≡ 0)
unfolding commit
commit_durable s0 ready some_ power b o = rw (lt→ltb 0 s0.lh.n some_) (
  cleared_replayed s0.start s0.size (headed s0 ready).disk has (installed s0 ready) inst powered b o
      ∙ headed-committed s0 ready alive b o,
  cleared_empty s0.start s0.size (headed s0 ready).disk has (installed s0 ready) inst powered,
  unfold write_head clear_count bwrite in ground arith,
)
  where
    logged_power : s0.power ≤ (logged s0 ready).power + s0.lh.n
    logged_power = unfold write_log in write_log_loop_power s0.lh.n 0 s0

    alive : 0 < (logged s0 ready).power
    alive = omega (arith, logged_power, ready.fits)

    has : HasLog s0.start s0.size (headed s0 ready).disk
    has = headed-HasLog s0 ready alive

    inst :
        Installing s0.start s0.size
          (headed s0 ready).disk
          (logged_count s0.start (headed s0 ready).disk)
          (installed s0 ready)
    inst = installed-Installing s0 ready alive

    installed_power : (headed s0 ready).power ≤ (installed s0 ready).power + (headed s0 ready).lh.n
    installed_power =
        unfold install_trans in install_loop_power false (headed s0 ready).lh.n 0 (headed s0 ready)

    powered : 0 < (installed s0 ready).power
    powered = omega (
      arith,
      logged_power,
      write_head_power (logged s0 ready),
      installed_power,
      headed_count s0 ready,
      ready.fits,
    )
