-- ===== src/Kernel/Vm/Entry.antt =====
-- The bits of entries of page tables: flags beside an address.
use aca_riscv_secure_boot.Common.{
  ℕ, zero, suc, ◌+◌, ◌*◌, ◌/◌, ◌%◌, ◌^◌, ◌≡◌, ◌<◌, ◌≤◌, refl, ap, sym, ◌∙◌, Bool, true, false, not,
  ◌==◌, ltb, ◌&&◌, ◌||◌, arith,
}
use aca_riscv_secure_boot.Common.Bits.{bit_at, all_below, all_below-true}
use aca_riscv_secure_boot.Kernel.Vm.{pa_to_pte, pte_to_pa, pte_flags}
use Prim.Native.Nat.{bit_or, bit_or-bitwise, bit_and, bit_and-bitwise, digits, max, min}
use native.Mathlib.Nat.{pow-suc}

-- More digits to go than the first number has change nothing.
digits-fuel :
    (z : ℕ → ℕ) (f : ℕ → ℕ → ℕ) (n k a b : ℕ) → a ≤ n → a ≤ k → digits z f n a b ≡ digits z f k a b
digits-fuel z f zero zero a b h h' = refl
digits-fuel z f zero (suc k) zero b h h' = refl
digits-fuel z f (suc n) zero zero b h h' = refl
digits-fuel z f (suc n) (suc k) zero b h h' = refl
digits-fuel z f zero (suc k) (suc a) b h h' = absurd (omega (arith, h))
digits-fuel z f (suc n) zero (suc a) b h h' = absurd (omega (arith, h'))
digits-fuel z f (suc n) (suc k) (suc a) b h h' =
    ap (λ d. d * 2 + f (suc a % 2) (b % 2))
      (digits-fuel z f n k (suc a / 2) (b / 2) (omega (arith, h)) (omega (arith, h')))

-- One digit of `bit_or` and of `bit_and`.
or_step : (a b : ℕ) → bit_or a b ≡ bit_or (a / 2) (b / 2) * 2 + max (a % 2) (b % 2)
or_step zero b =
    bit_or-bitwise 0 b
    ∙ omega arith
    ∙ ap (λ d. d * 2 + max (0 % 2) (b % 2)) (sym (bit_or-bitwise (0 / 2) (b / 2)))
or_step (suc a) b =
    bit_or-bitwise (suc a) b
    ∙ ap (λ d. d * 2 + max (suc a % 2) (b % 2))
        (digits-fuel (λ x. x) max a (suc a / 2) (suc a / 2) (b / 2) (omega arith) (omega arith)
          ∙ sym (bit_or-bitwise (suc a / 2) (b / 2)))

and_step : (a b : ℕ) → bit_and a b ≡ bit_and (a / 2) (b / 2) * 2 + min (a % 2) (b % 2)
and_step zero b =
    bit_and-bitwise 0 b
    ∙ omega arith
    ∙ ap (λ d. d * 2 + min (0 % 2) (b % 2)) (sym (bit_and-bitwise (0 / 2) (b / 2)))
and_step (suc a) b =
    bit_and-bitwise (suc a) b
    ∙ ap (λ d. d * 2 + min (suc a % 2) (b % 2))
        (digits-fuel (λ x. 0) min a (suc a / 2) (suc a / 2) (b / 2) (omega arith) (omega arith)
          ∙ sym (bit_and-bitwise (suc a / 2) (b / 2)))

digits_or-zero : (n a : ℕ) → a ≤ n → digits (λ x. x) max n a 0 ≡ a
digits_or-zero zero a h = omega arith
digits_or-zero (suc n) zero h = refl
digits_or-zero (suc n) (suc a) h =
    let rest : digits (λ x. x) max n (suc a / 2) 0 ≡ suc a / 2 =
      digits_or-zero n (suc a / 2) (omega (arith, h)) in
    omega (arith, rest)

digits_and-zero : (n a : ℕ) → digits (λ x. 0) min n a 0 ≡ 0
digits_and-zero zero a = refl
digits_and-zero (suc n) zero = refl
digits_and-zero (suc n) (suc a) =
    let rest : digits (λ x. 0) min n (suc a / 2) 0 ≡ 0 = digits_and-zero n (suc a / 2) in
    omega (arith, rest)

-- The parts of `x * 2 ^ (k + 1) + a` without its lowest bit, and that bit.
halves :
    (k x a : ℕ) → ((x * 2 ^ suc k + a) / 2 ≡ x * 2 ^ k + a / 2) × ((x * 2 ^ suc k + a) % 2 ≡ a % 2)
halves k x a =
    let p = pow-suc 2 k in
    let twice : x * 2 ^ suc k ≡ x * 2 ^ k * 2 = rw p (grind arith) in
    (omega (arith, twice), omega (arith, twice))

-- Flags below a multiple of a power of 2 leave it alone.
or_high : (k x a b : ℕ) → a < 2 ^ k → b < 2 ^ k → bit_or (x * 2 ^ k + a) b ≡ x * 2 ^ k + bit_or a b
or_high zero x a b h h' =
    let a_zero : a ≡ 0 = omega (arith, h) in
    let b_zero : b ≡ 0 = omega (arith, h') in
    let same : x * 2 ^ 0 + 0 ≡ x = omega arith in
    rw (a_zero, b_zero, same) (bit_or-bitwise x 0 ∙ digits_or-zero x x (omega arith) ∙ omega arith)
or_high (suc k) x a b h h' =
    let p = pow-suc 2 k in
    let twice : x * 2 ^ suc k ≡ x * 2 ^ k * 2 = rw p (grind arith) in
    let (half, low) = halves k x a in
    let rest = or_high k x (a / 2) (b / 2) (omega (arith, h, p)) (omega (arith, h', p)) in
    or_step (x * 2 ^ suc k + a) b ∙ rw (half, low, rest) (omega (arith, twice, or_step a b))

and_high : (k x a b : ℕ) → a < 2 ^ k → b < 2 ^ k → bit_and (x * 2 ^ k + a) b ≡ bit_and a b
and_high zero x a b h h' =
    let a_zero : a ≡ 0 = omega (arith, h) in
    let b_zero : b ≡ 0 = omega (arith, h') in
    rw (a_zero, b_zero)
      (bit_and-bitwise (x * 2 ^ 0 + 0) 0 ∙ digits_and-zero (x * 2 ^ 0 + 0) (x * 2 ^ 0 + 0))
and_high (suc k) x a b h h' =
    let p = pow-suc 2 k in
    let (half, low) = halves k x a in
    let rest = and_high k x (a / 2) (b / 2) (omega (arith, h, p)) (omega (arith, h', p)) in
    and_step (x * 2 ^ suc k + a) b ∙ rw (half, low, rest) (sym (and_step a b))

-- What `mappages` makes of an address and flags.
abbrev pub leaf_entry : ℕ → ℕ → ℕ
leaf_entry pa perm = bit_or (bit_or (pa_to_pte pa) perm) 1

-- The flags with `PTE_V`: what the tests of the code see of them.
is_flagged : ℕ → Bool
unfolding bit_at
is_flagged perm =
    ltb (bit_or perm 1) 1024
    && (bit_at (bit_or perm 1) 0 && (bit_and (bit_or perm 1) 0x3ff == bit_or perm 1))
    && (not (bit_at perm 4) || (bit_at (bit_or perm 1) 4 && not (bit_or perm 1 == 1)))

all_flagged : all_below 1024 is_flagged ≡ true
unfolding all_below is_flagged
all_flagged = refl

-- An entry for a page that the user may access, read back.
pub leaf_entry-fields :
    (pa perm : ℕ)
    → pa % 4096 ≡ 0
    → pa < 2 ^ 56
    → perm < 1024
    → bit_at perm 4 ≡ true
    → (leaf_entry pa perm < 2 ^ 64)
      × (pte_to_pa (leaf_entry pa perm) ≡ pa)
      × (bit_at (leaf_entry pa perm) 0 ≡ true)
      × (bit_at (leaf_entry pa perm) 4 ≡ true)
      × ((pte_flags (leaf_entry pa perm) == 1) ≡ false)
unfolding bit_at is_flagged
leaf_entry-fields pa perm aligned small flags user =
    let known = all_below-true 1024 is_flagged perm all_flagged flags in
    let below : bit_or perm 1 < 1024 = ground (arith, known) in
    let base : pa_to_pte pa ≡ pa / 4096 * 2 ^ 10 + 0 = omega (arith, small) in
    let start : bit_or 0 perm ≡ perm = bit_or-bitwise 0 perm in
    let shape : leaf_entry pa perm ≡ pa / 4096 * 2 ^ 10 + bit_or perm 1 =
      ap (λ e. bit_or (bit_or e perm) 1) base
      ∙ ap (λ e. bit_or e 1)
          (or_high 10 (pa / 4096) 0 perm (omega arith) flags
            ∙ ap (λ e. pa / 4096 * 2 ^ 10 + e) start)
      ∙ or_high 10 (pa / 4096) perm 1 flags (omega arith) in
    let low = λ (b : ℕ) (l : b < 2 ^ 10). and_high 10 (pa / 4096) (bit_or perm 1) b below l in
    let low_1 = low 1 (omega arith) in
    let low_16 = low 16 (omega arith) in
    let low_all = low 1023 (omega arith) in
    (
      omega (arith, shape, below, small),
      omega (arith, shape, below, small, aligned),
      rw shape (ground (arith, known, low_1)),
      rw shape (ground (arith, known, low_16, user)),
      rw shape (ground (arith, known, low_all, user)),
    )
