-- ===== src/Common/Bits.antt =====
-- One bit of a byte, by `&` and `|` with a mask.
use Prim.Native.Nat.{bit_and, bit_or}
use aca_riscv_secure_boot.Common.{
  ℕ, zero, suc, ◌-◌, ◌^◌, ◌≡◌, ◌<◌, refl, sym, not, Bool, true, false, ◌&&◌, arith, ltb, ◌==◌,
  if◌then◌else◌,
}

-- A test that holds of all numbers below a bound, by evaluation.
unfoldable pub all_below : ℕ → (ℕ → Bool) → Bool
all_below zero p = true
all_below (suc n) p = p n && all_below n p

pub all_below-true : (n : ℕ) (p : ℕ → Bool) (x : ℕ) → all_below n p ≡ true → x < n → p x ≡ true
unfolding all_below
all_below-true zero p x h l = absurd (omega arith)
all_below-true (suc n) p x h l = ground (arith, all_below-true n p x)

-- `(x & (1 << k)) != 0`
unfoldable pub bit_at : ℕ → ℕ → Bool
bit_at x k = not (bit_and x (2 ^ k) == 0)

-- `x |= 1 << k` and `x &= ~(1 << k)`, on an `unsigned char`.
unfoldable pub with_bit : ℕ → ℕ → ℕ
with_bit x k = bit_or x (2 ^ k)

unfoldable pub without_bit : ℕ → ℕ → ℕ
without_bit x k = bit_and x (255 - 2 ^ k)

same : Bool → Bool → Bool
same true b = b
same false b = not b

same-eq : (a b : Bool) → same a b ≡ true → a ≡ b
unfolding same
same-eq true b h = sym h
same-eq false b h = ground (arith, h)

-- The laws of the three for a byte and two bits.
holds_at : ℕ → ℕ → ℕ → Bool
unfolding same bit_at with_bit without_bit
holds_at x j k =
    same (bit_at (with_bit x k) j) (if j == k then true else bit_at x j)
    && (same (bit_at (without_bit x k) j) (if j == k then false else bit_at x j)
        && (ltb (with_bit x k) 256 && ltb (without_bit x k) 256))

table : all_below 256 (λ x. all_below 8 (λ j. all_below 8 (λ k. holds_at x j k))) ≡ true
unfolding all_below holds_at
table = refl

module _ (x j k : ℕ) (hx : x < 256) (hj : j < 8) (hk : k < 8) where
  here : holds_at x j k ≡ true
  here =
      all_below-true 8 (λ k'. holds_at x j k') k
        (all_below-true 8 (λ j'. all_below 8 (λ k'. holds_at x j' k')) j
          (all_below-true 256 (λ x'. all_below 8 (λ j'. all_below 8 (λ k'. holds_at x' j' k'))) x
            table hx)
          hj)
        hk

  pub bit_at-with_bit : bit_at (with_bit x k) j ≡ (if j == k then true else bit_at x j)
  bit_at-with_bit = same-eq _ _ (unfold holds_at in ground (arith, here))

  pub bit_at-without_bit : bit_at (without_bit x k) j ≡ (if j == k then false else bit_at x j)
  bit_at-without_bit = same-eq _ _ (unfold holds_at in ground (arith, here))

  pub with_bit_small : with_bit x k < 256
  with_bit_small = unfold holds_at in ground (arith, here)

  pub without_bit_small : without_bit x k < 256
  without_bit_small = unfold holds_at in ground (arith, here)
