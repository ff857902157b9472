-- ===== src/Kernel/Bio/Start.antt =====
-- `binit` of xv6-riscv/kernel/bio.c, and the cache from there on.
use aca_riscv_secure_boot.Common.{
  ℕ, zero, suc, ◌+◌, ◌≡◌, ◌<◌, ◌↔◌, refl, subst, Bool, true, false, inl, inr, arith, ◌==◌,
  Bool-cases, List, [], ◌∷◌, length, member, member-cons,
}
use aca_riscv_secure_boot.Kernel.Sleeplock.{initsleeplock}
use aca_riscv_secure_boot.Kernel.Bio.{
  Bcache, head, set_buf, set_next, set_prev, push_front, binit_loop, binit,
}
use aca_riscv_secure_boot.Kernel.Bio.Order.{rev, Leads, Distinct}
use aca_riscv_secure_boot.Kernel.Bio.Links.{IsRing, push_front-IsRing}
use aca_riscv_secure_boot.Kernel.Bio.Sharing.{Uses, IsCurrent, uses-IsCurrent}

-- All buffers as they are before the first use, in memory of zeros.
pub record IsBlank (c : Bcache) : Type 0 where
  pub dev : (b : ℕ) → (c.buf b).dev ≡ 0
  pub invalid : (b : ℕ) → (c.buf b).valid ≡ false

-- The list has the buffers below `b`.
record IsFilled (b : ℕ) (order : List ℕ) (c : Bcache) : Type 0 where
  ring : IsRing order c.next c.prev
  all : (x : ℕ) → (member x order ≡ true) ↔ (x < b)
  count : length order ≡ b
  blank : IsBlank c

set_buf-IsBlank :
    (b : ℕ) (c : Bcache)
    → IsBlank c
    → IsBlank (set_buf b (record (c.buf b) { lock = initsleeplock }) c)
set_buf-IsBlank b c h = record {
  dev = λ x. ground (arith, h.dev x, h.dev b);
  invalid = λ x. ground (arith, h.invalid x, h.invalid b);
}

binit_loop-IsFilled :
    (left b : ℕ) (order : List ℕ) (c : Bcache)
    → b + left ≡ 30
    → IsFilled b order c
    → (order' : List ℕ) × IsFilled 30 order' (binit_loop left b c)
unfolding binit_loop member
binit_loop-IsFilled zero b order c e h =
    let full : b ≡ 30 = omega arith in (order, subst (λ k. IsFilled k order c) full h)
binit_loop-IsFilled (suc left) b order c e h =
    let absent : member b order ≡ false = elim (Bool-cases (member b order)) [
      | inr t ↦ t
      | inl t ↦ absurd (omega (arith, (h.all b).0 t))
    ] in
    binit_loop-IsFilled left (b + 1) (b ∷ order) _ (omega arith) (record {
      ring = push_front-IsRing b c order h.ring absent (λ q. omega (arith, q, e));
      all = λ x. (
        λ q. elim (member-cons x b order q) [
          | inl e' ↦ omega (arith, e')
          | inr q' ↦ omega (arith, (h.all x).0 q')
        ],
        λ l. elim (Bool-cases (x == b)) [
          | inl t ↦ ground (arith, t)
          | inr t ↦ ground (arith, t, (h.all x).1 (ground (arith, t, l)))
        ],
      );
      count = omega (arith, h.count);
      blank =
          set_buf-IsBlank b (push_front b c)
            (record { dev = h.blank.dev; invalid = h.blank.invalid });
    })

abbrev pub unedited : ℕ → Bool
unedited b = false

-- From `binit` in zeroed memory on, over any sequence of uses of the buffers in which who edits a
-- buffer writes it before the last reference to it is given up: the list runs through all buffers
-- both ways, each once, no two buffers are for one block of a device, a valid buffer is as the disk
-- if it was not edited since it was read or last written, and one with no references is as the
-- disk.
pub binit-uses :
    (c c' : Bcache) (edited : ℕ → Bool)
    → IsBlank c
    → Uses unedited (binit c) edited c'
    → IsCurrent edited c'
unfolding binit Leads rev Distinct member
binit-uses c c' edited blank uses =
    let (order, h) =
      binit_loop-IsFilled 30 0 [] (set_next head head (set_prev head head c)) refl (record {
        ring = record { forward = refl; backward = refl; distinct = refl; apart = refl };
        all = λ x. (λ q. ground (arith, q), λ l. absurd (omega arith));
        count = refl;
        blank = record { dev = blank.dev; invalid = blank.invalid };
      }) in
    uses-IsCurrent unedited (binit c) edited c'
      (
        order,
        record {
          ring = h.ring;
          all = h.all;
          few = omega (arith, h.count);
          unique = λ a b l l' nz e e'. absurd (nz (h.blank.dev a));
          known = λ b l t. ground (arith, t, h.blank.invalid b);
          clean = λ b l z t. ground (arith, t, h.blank.invalid b);
        },
        record { saved = λ b l t e. ground (arith, t, h.blank.invalid b); idle = λ b l z. refl },
      )
      uses
