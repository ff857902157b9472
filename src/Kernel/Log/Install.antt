-- ===== src/Kernel/Log/Install.antt =====
-- `install_trans` of xv6-riscv/kernel/log.c under a power failure at any write.
use aca_riscv_secure_boot.Common.{
  ℕ, zero, suc, ◌+◌, ◌≡◌, ◌<◌, ◌≤◌, refl, Bool, true, false, arith, ◌∙◌,
}
use aca_riscv_secure_boot.Kernel.Log.{
  Blocks, State, copy_data, bwrite, bunpin, install_block, install_loop,
}
use aca_riscv_secure_boot.Kernel.Log.Logical.{
  replay, replay-put, logical, logged_count, logged_block, logged_data, IsHome,
}

-- A disk with a log of `size` blocks, which fits and lists only blocks outside the log.
pub record HasLog (start size : ℕ) (d : Blocks) : Type 0 where
  pub fits : logged_count start d ≤ 30
  pub short : logged_count start d < size
  pub home : IsHome start size (logged_count start d) (logged_block start d)

-- After `tail` passes that began on the disk `d0`.
pub record Installing (start size : ℕ) (d0 : Blocks) (tail : ℕ) (s : State) : Type 0 where
  pub start_eq : s.start ≡ start
  pub entry : (i : ℕ) → i < logged_count start d0 → s.lh.block i ≡ logged_block start d0 i
  pub cached : (i : ℕ) → i < logged_count start d0 → s.view (start + i + 1) ≡ logged_data start d0 i
  pub kept : (x : ℕ) → start ≤ x → x < start + size → s.disk x ≡ d0 x
  pub same :
      (b : ℕ)
      → replay (logged_count start d0) (logged_block start d0) (logged_data start d0) s.disk b
        ≡ logical start d0 b
  pub done :
      (b : ℕ)
      → 0 < s.power
      → s.disk b ≡ replay tail (logged_block start d0) (logged_data start d0) d0 b

module _ {start size : ℕ} {d0 : Blocks} (has : HasLog start size d0) where
  open has use {short, home}

  abbrev home_write : ℕ → State → State
  home_write tail s = bwrite (s.lh.block tail) (copy_data (s.lh.block tail) (s.start + tail + 1) s)

  home_write-Installing :
      (tail : ℕ) (s : State)
      → Installing start size d0 tail s
      → tail < logged_count start d0
      → Installing start size d0 (suc tail) (home_write tail s)
  unfolding bwrite copy_data replay
  home_write-Installing tail s inst h = record {
    start_eq = ground (arith, inst.start_eq);
    entry = λ i l. ground (arith, inst.entry i l);
    cached = λ i l.
        ground
          (arith, inst.start_eq, inst.cached i l, inst.entry tail, home tail, inst.cached tail);
    kept = λ x p q. ground (arith, inst.kept x, inst.entry tail, home tail);
    same = λ b. ground (
      arith,
      inst.same b,
      inst.entry tail,
      replay-put (logged_count start d0) (logged_block start d0) (logged_data start d0) s.disk
          (s.view (s.start + tail + 1)) b tail,
    );
    done = λ b p. ground (arith, inst.start_eq, inst.done b, inst.entry tail, inst.cached tail);
  }

  pub install_block-Installing :
      (recovering : Bool) (tail : ℕ) (s : State)
      → Installing start size d0 tail s
      → tail < logged_count start d0
      → Installing start size d0 (suc tail) (install_block recovering tail s)
  unfolding install_block bunpin
  install_block-Installing true tail s inst h = home_write-Installing tail s inst h
  install_block-Installing false tail s inst h = record {
    start_eq = w.start_eq;
    entry = w.entry;
    cached = w.cached;
    kept = w.kept;
    same = w.same;
    done = w.done;
  }
    where
      w : Installing start size d0 (suc tail) (home_write tail s)
      w = home_write-Installing tail s inst h

  pub install_loop-Installing :
      (recovering : Bool) (rounds tail : ℕ) (s : State)
      → Installing start size d0 tail s
      → tail + rounds ≡ logged_count start d0
      → Installing start size d0 (logged_count start d0) (install_loop recovering rounds tail s)
  unfolding install_loop
  install_loop-Installing recovering zero tail s inst e =
      let e' : tail ≡ logged_count start d0 = omega arith in rw (← e') inst
  install_loop-Installing recovering (suc rounds) tail s inst e =
      install_loop-Installing recovering rounds (tail + 1) (install_block recovering tail s)
        (let f : tail + 1 ≡ suc tail = omega arith in
          rw f (install_block-Installing recovering tail s inst (omega arith)))
        (omega arith)

-- Without power the disk stays as it is.
pub frozen_loop :
    (recovering : Bool) (rounds tail : ℕ) (s : State)
    → s.power ≡ 0
    → ((install_loop recovering rounds tail s).disk ≡ s.disk)
      × ((install_loop recovering rounds tail s).power ≡ 0)
      × ((install_loop recovering rounds tail s).start ≡ s.start)
unfolding install_loop
frozen_loop recovering zero tail s h = (refl, h, refl)
frozen_loop recovering (suc rounds) tail s h =
    let (d, p, q) =
      frozen_loop recovering rounds (tail + 1) (install_block recovering tail s)
        (frozen recovering) in
    (d ∙ same recovering, p, q ∙ kept recovering)
  where
    frozen : (r : Bool) → (install_block r tail s).power ≡ 0
    frozen r = unfold install_block bwrite copy_data bunpin in ground arith

    same : (r : Bool) → (install_block r tail s).disk ≡ s.disk
    same r = unfold install_block bwrite copy_data bunpin in ground arith

    kept : (r : Bool) → (install_block r tail s).start ≡ s.start
    kept r = unfold install_block bwrite copy_data bunpin in ground arith

-- `rounds` passes take `rounds` writes at most.
pub install_loop_power :
    (recovering : Bool) (rounds tail : ℕ) (s : State)
    → s.power ≤ (install_loop recovering rounds tail s).power + rounds
unfolding install_loop
install_loop_power recovering zero tail s = omega arith
install_loop_power recovering (suc rounds) tail s = omega (
  arith,
  one recovering,
  install_loop_power recovering rounds (tail + 1) (install_block recovering tail s),
)
  where
    one : (r : Bool) → s.power ≤ (install_block r tail s).power + 1
    one r = unfold install_block bwrite copy_data bunpin in ground arith
