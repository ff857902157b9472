-- ===== src/Kernel/Log/Kept.antt =====
-- `commit` of xv6-riscv/kernel/log.c: the parts of the state it does not touch.
use aca_riscv_secure_boot.Common.{
  ℕ, zero, suc, ◌+◌, ◌≡◌, inl, inr, refl, Bool, false, arith, ltb, Bool-cases, ◌∙◌,
}
use aca_riscv_secure_boot.Kernel.Log.{
  State, bwrite, copy_data, bunpin, install_block, install_loop, install_trans, clear_count,
  write_head, log_block, write_log_loop, write_log, commit,
}

-- What a commit leaves alone.
pub record Kept (s s' : State) : Type 0 where
  pub size_eq : s'.size ≡ s.size
  pub outstanding_eq : s'.outstanding ≡ s.outstanding

install_loop-Kept : (r : Bool) (rounds tail : ℕ) (s : State) → Kept s (install_loop r rounds tail s)
unfolding install_loop
install_loop-Kept r zero tail s = record { size_eq = refl; outstanding_eq = refl }
install_loop-Kept r (suc rounds) tail s =
    let k = install_loop-Kept r rounds (tail + 1) (install_block r tail s) in
    record {
      size_eq = k.size_eq ∙ (unfold install_block bwrite copy_data bunpin in ground arith);
      outstanding_eq =
          k.outstanding_eq ∙ (unfold install_block bwrite copy_data bunpin in ground arith);
    }

write_log_loop-Kept : (rounds tail : ℕ) (s : State) → Kept s (write_log_loop rounds tail s)
unfolding write_log_loop
write_log_loop-Kept zero tail s = record { size_eq = refl; outstanding_eq = refl }
write_log_loop-Kept (suc rounds) tail s =
    let k = write_log_loop-Kept rounds (tail + 1) (log_block tail s) in
    record {
      size_eq = k.size_eq ∙ (unfold log_block bwrite copy_data in ground arith);
      outstanding_eq = k.outstanding_eq ∙ (unfold log_block bwrite copy_data in ground arith);
    }

write_head-Kept : (s : State) → Kept s (write_head s)
unfolding write_head bwrite
write_head-Kept s = record { size_eq = ground arith; outstanding_eq = ground arith }

pub commit-Kept : (s : State) → Kept s (commit s)
unfolding commit write_log install_trans clear_count
commit-Kept s = elim (Bool-cases (ltb 0 s.lh.n)) [
  | inl t ↦
      let k1 = write_log_loop-Kept s.lh.n 0 s in
      let s1 = write_log_loop s.lh.n 0 s in
      let k2 = write_head-Kept s1 in
      let k3 = install_loop-Kept false (write_head s1).lh.n 0 (write_head s1) in
      let k4 = write_head-Kept (clear_count (install_trans false (write_head s1))) in
      rw t record {
        size_eq = k4.size_eq ∙ k3.size_eq ∙ k2.size_eq ∙ k1.size_eq;
        outstanding_eq =
            k4.outstanding_eq ∙ k3.outstanding_eq ∙ k2.outstanding_eq ∙ k1.outstanding_eq;
      }
  | inr t ↦ rw t record { size_eq = refl; outstanding_eq = refl }
]

pub lh-commit : (s : State) → (commit s).lh.n ≡ 0
unfolding commit clear_count write_head bwrite
lh-commit s = ground arith
