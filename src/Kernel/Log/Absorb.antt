-- ===== src/Kernel/Log/Absorb.antt =====
-- `log_write` of xv6-riscv/kernel/log.c: what it adds to the transaction.
use aca_riscv_secure_boot.Common.{
  ℕ, zero, suc, ◌+◌, ◌-◌, ◌≡◌, ◌<◌, ◌⊎◌, inl, inr, refl, arith, ◌==◌, if◌then◌else◌, Bool-cases,
  ◌∙◌, ap,
}
use aca_riscv_secure_boot.Kernel.Outcome.{ok}
use aca_riscv_secure_boot.Kernel.Log.{Blocks, State, find_block, bpin, log_write}
use aca_riscv_secure_boot.Kernel.Log.Logical.{replay, replay_ext, Outside}
use aca_riscv_secure_boot.Kernel.Log.Commit.{IsReady, committed}

-- The index is that of the block, or the first free one.
find_block_lem :
    (rounds i : ℕ) (block : ℕ → ℕ) (b : ℕ)
    → ((find_block rounds i block b < i + rounds) × (block (find_block rounds i block b) ≡ b))
      ⊎ (find_block rounds i block b ≡ i + rounds)
unfolding find_block
find_block_lem zero i block b = inr (omega arith)
find_block_lem (suc rounds) i block b = ground (arith, find_block_lem rounds (i + 1) block b)

-- What a successful `log_write` leaves.
pub record Written (b : ℕ) (s s' : State) : Type 0 where
  pub start_eq : s'.start ≡ s.start
  pub size_eq : s'.size ≡ s.size
  pub outstanding_eq : s'.outstanding ≡ s.outstanding
  pub committing_eq : s'.committing ≡ s.committing
  pub view_eq : s'.view ≡ s.view
  pub disk_eq : s'.disk ≡ s.disk
  pub grown :
      ((s'.lh.n ≡ s.lh.n)
        × ((i : ℕ) → s'.lh.block i ≡ s.lh.block i)
        × ((k : ℕ) × (k < s.lh.n) × (s.lh.block k ≡ b))
        × ((x : ℕ) → s'.pins x ≡ s.pins x))
      ⊎ ((s'.lh.n ≡ s.lh.n + 1)
          × ((i : ℕ) → s'.lh.block i ≡ (if i == s.lh.n then b else s.lh.block i))
          × ((s.lh.n < 30) × (s.lh.n < s.size - 1))
          × ((x : ℕ) → s'.pins x ≡ (if x == b then s.pins x + 1 else s.pins x)))

pub log_write-Written :
    (b : ℕ) (s : State)
    → s.lh.n < 30
    → s.lh.n < s.size - 1
    → 0 < s.outstanding
    → (s' : State) × (log_write b s ≡ ok s') × Written b s s'
log_write-Written b s small room open_ = elim (find_block_lem s.lh.n 0 s.lh.block b) [
  | inl (l, e) ↦ (
    record s {
      lh = record {
        n = s.lh.n;
        block = λ x. if x == find_block s.lh.n 0 s.lh.block b then b else s.lh.block x;
      };
    },
    unfold log_write in ground arith,
    record {
      start_eq = refl;
      size_eq = refl;
      outstanding_eq = refl;
      committing_eq = refl;
      view_eq = refl;
      disk_eq = refl;
      grown = inl (
        refl,
        λ i. ground (arith, e),
        (find_block s.lh.n 0 s.lh.block b, omega arith, e),
        λ x. refl,
      );
    },
  )
  | inr e ↦ (
    bpin b (record s {
      lh = record {
        n = s.lh.n + 1;
        block = λ x. if x == find_block s.lh.n 0 s.lh.block b then b else s.lh.block x;
      };
    }),
    unfold log_write bpin in ground arith,
    unfold bpin in
        record {
          start_eq = refl;
          size_eq = refl;
          outstanding_eq = refl;
          committing_eq = refl;
          view_eq = refl;
          disk_eq = refl;
          grown = inr (refl, λ i. ground (arith, e), (small, room), λ x. refl);
        },
  )
]

-- `log_write` of a block outside the log keeps the transaction ready.
Written-IsReady :
    (b : ℕ) (s s' : State) → Written b s s' → Outside s.start s.size b → IsReady s → IsReady s'
Written-IsReady b s s' w o ready = elim w.grown [
  | inl (n_eq, same, found, pins) ↦ record {
    fits = omega (arith, ready.fits);
    short = omega (arith, n_eq, w.size_eq, ready.short);
    home = λ i l. ground (arith, w.start_eq, w.size_eq, same i, ready.home i);
    empty = rw (w.disk_eq, w.start_eq) ready.empty;
  }
  | inr (n_eq, same, small, pins) ↦ record {
    fits = omega (arith, n_eq, small.0);
    short = omega (arith, n_eq, w.size_eq, small.1);
    home = λ i l. ground (arith, w.start_eq, w.size_eq, same i, ready.home i);
    empty = rw (w.disk_eq, w.start_eq) ready.empty;
  }
]

replay_view :
    (n : ℕ) (block : ℕ → ℕ) (view d : Blocks) (x k : ℕ)
    → k < n
    → block k ≡ x
    → replay n block (λ i. view (block i)) d x ≡ view x
unfolding replay
replay_view zero block view d x k l e = absurd (omega arith)
replay_view (suc n) block view d x k l e = elim (Bool-cases (block n == x)) [
  | inl t ↦ rw t (ap view (ground arith))
  | inr t ↦ rw t (replay_view n block view d x k (ground arith) e)
]

committed_to :
    (n : ℕ) (s s' : State)
    → ((i : ℕ) → i < n → s'.lh.block i ≡ s.lh.block i)
    → s'.view ≡ s.view
    → s'.disk ≡ s.disk
    → (x : ℕ)
    → replay n s'.lh.block (λ i. s'.view (s'.lh.block i)) s'.disk x
      ≡ replay n s.lh.block (λ i. s.view (s.lh.block i)) s.disk x
committed_to n s s' same views disks x =
    replay_ext n s'.lh.block s.lh.block _ _ s'.disk s.disk x same
      (λ i l. ap (λ (v : Blocks). v (s'.lh.block i)) views ∙ ap s.view (same i l))
      (ap (λ (d : Blocks). d x) disks)

Written-committed :
    (b : ℕ) (s s' : State)
    → Written b s s'
    → (x : ℕ) → committed s' x ≡ (if x == b then s.view b else committed s x)
unfolding replay
Written-committed b s s' w x = elim w.grown [
  | inl (n_eq, same, (k, l, e), pins) ↦
      ap (λ (n : ℕ). replay n s'.lh.block (λ i. s'.view (s'.lh.block i)) s'.disk x) n_eq
      ∙ committed_to s.lh.n s s' (λ i r. same i) w.view_eq w.disk_eq x
      ∙ (elim (Bool-cases (x == b)) [
        | inl t ↦ rw t (
            replay_view s.lh.n s.lh.block s.view s.disk x k l (ground arith)
            ∙ ap s.view (ground arith))
        | inr t ↦ rw t
      ])
  | inr (n_eq, same, small, pins) ↦
      ap (λ (n : ℕ). replay n s'.lh.block (λ i. s'.view (s'.lh.block i)) s'.disk x)
        (let e : s'.lh.n ≡ suc s.lh.n = omega arith in e)
      ∙ ground (
        arith,
        same s.lh.n,
        w.view_eq,
        committed_to s.lh.n s s' (λ i r. ground (arith, same i)) w.view_eq w.disk_eq x,
      )
]

-- With room in the log and an operation open, `log_write` of a block outside the log succeeds. A
-- transaction that is ready to commit stays so, and its outcome differs from what it was just at `b`,
-- which takes the cached data.
pub log_write-committed :
    (b : ℕ) (s : State)
    → IsReady s
    → Outside s.start s.size b
    → s.lh.n < 30
    → s.lh.n < s.size - 1
    → 0 < s.outstanding
    → (s' : State) × (log_write b s ≡ ok s')
      × IsReady s'
      × ((x : ℕ) → committed s' x ≡ (if x == b then s.view b else committed s x))
log_write-committed b s ready o small room opened =
    let (s', ran, w) = log_write-Written b s small room opened in
    (s', ran, Written-IsReady b s s' w o ready, Written-committed b s s' w)
