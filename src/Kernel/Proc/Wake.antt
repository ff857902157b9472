-- ===== src/Kernel/Proc/Wake.antt =====
-- `wakeup` and `kill` of xv6-riscv/kernel/proc.c over the whole table.
use aca_riscv_secure_boot.Common.{
  ℕ, zero, suc, ◌+◌, ◌≡◌, refl, ap, sym, ◌∙◌, Bool, true, false, not, ◌&&◌, Bool-cases, inl, inr,
  ltb, ◌==◌, if◌then◌else◌, arith,
}
use aca_riscv_secure_boot.Common.Memory.{within}
use aca_riscv_secure_boot.Kernel.Proc.{Procs, set_proc, woken, wakeup, wakeup_loop}

wakeup_loop-woken :
    (n i me chan : ℕ) (t : Procs) (x : ℕ)
    → (wakeup_loop n i me chan t).proc x
      ≡ (if within i n x && not (x == me) then woken chan (t.proc x) else t.proc x)
unfolding wakeup_loop
wakeup_loop-woken zero i me chan t x =
    let outside : within i 0 x ≡ false = ground arith in rw outside refl
wakeup_loop-woken (suc n) i me chan t x =
    let next = λ (b : Bool). if b then t else set_proc i (woken chan (t.proc i)) t in
    let branch = λ (b : Bool) (e : (i == me) ≡ b).
      ap (λ (c : Bool). (wakeup_loop n (i + 1) me chan (next c)).proc x) e in
    elim (Bool-cases (x == i)) [
      | inl u ↦
          let same : x ≡ i = ground (arith, u) in
          let past : within (i + 1) n x ≡ false = ground (arith, u) in
          let here : within i (suc n) x ≡ true = ground (arith, u) in
          elim (Bool-cases (i == me)) [
            | inl v ↦
                let mine : (x == me) ≡ true = ground (arith, u, v) in
                branch true v ∙ wakeup_loop-woken n (i + 1) me chan t x ∙ rw (past, here, mine) refl
            | inr v ↦
                let other : (x == me) ≡ false = ground (arith, u, v) in
                branch false v
                ∙ wakeup_loop-woken n (i + 1) me chan (next false) x
                ∙ rw (past, here, other, u) (ap (λ y. woken chan (t.proc y)) (sym same))
          ]
      | inr u ↦
          let bounds : within i (suc n) x ≡ within (i + 1) n x = ground (arith, u) in
          elim (Bool-cases (i == me)) [
            | inl v ↦ branch true v ∙ wakeup_loop-woken n (i + 1) me chan t x ∙ rw bounds refl
            | inr v ↦
                branch false v
                ∙ wakeup_loop-woken n (i + 1) me chan (next false) x
                ∙ rw (bounds, u) refl
          ]
    ]

-- `wakeup` over the table: every process but the caller.
pub wakeup-woken :
    (me chan : ℕ) (t : Procs) (x : ℕ)
    → (wakeup me chan t).proc x
      ≡ (if ltb x 64 && not (x == me) then woken chan (t.proc x) else t.proc x)
unfolding wakeup
wakeup-woken me chan t x =
    let bounds : within 0 64 x ≡ ltb x 64 = ground arith in
    wakeup_loop-woken 64 0 me chan t x ∙ rw bounds refl
