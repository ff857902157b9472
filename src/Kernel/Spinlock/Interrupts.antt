-- ===== src/Kernel/Spinlock/Interrupts.antt =====
-- `push_off` and `pop_off` of xv6-riscv/kernel/spinlock.c in nested pairs.
use aca_riscv_secure_boot.Common.{ℕ, zero, suc, ◌≡◌, ◌<◌, refl, ap, ◌∙◌, false, arith}
use aca_riscv_secure_boot.Kernel.Outcome.{Outcome, ok, ◌>>=◌}
use aca_riscv_secure_boot.Kernel.Spinlock.{Cpu, push_off, pop_off}

unfoldable pub pushes : ℕ → Cpu → Cpu
pushes zero c = c
pushes (suc n) c = pushes n (push_off c)

unfoldable pub pops : ℕ → Cpu → Outcome Cpu
pops zero c = ok c
pops (suc n) c = do c' ← pops n c; pop_off c'

pop_off-push_off : (c : Cpu) → c.intr ≡ false → 0 < c.noff → pop_off (push_off c) ≡ ok c
unfolding pop_off push_off
pop_off-push_off c i h = ground (arith, i)

inner : (n : ℕ) (c : Cpu) → c.intr ≡ false → 0 < c.noff → pops n (pushes n c) ≡ ok c
unfolding pops pushes
inner zero c i h = refl
inner (suc n) c i h =
    ap (λ (r : Outcome Cpu). r >>= pop_off)
      (inner n (push_off c) (unfold push_off in refl) (unfold push_off in omega arith))
    ∙ pop_off-push_off c i h

-- As many `pop_off` as `push_off`, one or more, on a hart with no `push_off` open: none panics, and
-- the interrupts are again on or off as they were.
pub pops-pushes :
    (n : ℕ) (c : Cpu)
    → c.noff ≡ 0
    → pops (suc n) (pushes (suc n) c) ≡ ok (record { noff = 0; intena = c.intr; intr = c.intr })
unfolding pops pushes
pops-pushes n c z =
    ap (λ (r : Outcome Cpu). r >>= pop_off)
      (inner n (push_off c) (unfold push_off in refl) (unfold push_off in omega arith))
    ∙ outer
  where
    outer : pop_off (push_off c) ≡ ok (record { noff = 0; intena = c.intr; intr = c.intr })
    outer = unfold pop_off push_off in ground (arith, z)
