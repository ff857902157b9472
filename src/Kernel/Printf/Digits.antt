-- ===== src/Kernel/Printf/Digits.antt =====
-- The digits of numbers as xv6-riscv/kernel/printf.c prints them.
use native.Mathlib.Nat.{pow-suc}
use aca_riscv_secure_boot.Common.{
  append-nil, ℕ, zero, suc, ◌-◌, ◌/◌, ◌%◌, ◌^◌, ◌≡◌, ◌<◌, ◌≤◌, ◌↔◌, refl, ap, sym, ◌∙◌, Bool, ◌&&◌,
  leb, ◌==◌, if◌then◌else◌, List, [], ◌∷◌, ◌++◌, append_assoc, length, length-append, length-map,
  Bool-cases, inl, inr, arith, map,
}
use aca_riscv_secure_boot.Kernel.Printf.{digit, digit_loop, printint_buf}

-- The digits of a number in base ten, the lowest first.
unfoldable pub decimal : ℕ → ℕ → List ℕ
decimal zero x = []
decimal (suc left) x =
    let rest = decimal left (x / 10) in x % 10 ∷ (if x / 10 == 0 then [] else rest)

pub digit_loop-decimal :
    (digits : ℕ → ℕ) (left x : ℕ) (buf : List ℕ)
    → digit_loop digits left 10 x buf ≡ buf ++ map digits (decimal left x)
unfolding digit_loop decimal
digit_loop-decimal digits zero x buf = sym (append-nil buf)
digit_loop-decimal digits (suc left) x buf = elim (Bool-cases (x / 10 == 0)) [
  | inl t ↦ rw t refl
  | inr t ↦ rw t (
      digit_loop-decimal digits left (x / 10) (buf ++ digits (x % 10) ∷ [])
      ∙ append_assoc buf (digits (x % 10) ∷ []) (map digits (decimal left (x / 10))))
]

ten_positive : (k : ℕ) → 0 < 10 ^ k
ten_positive zero = omega arith
ten_positive (suc k) = omega (arith, pow-suc 10 k, ten_positive k)

-- A number below ten to the `k` has `k` digits at most, and no other has.
pub length-decimal :
    (k left x : ℕ) → x < 10 ^ left → (length (decimal left x) ≤ suc k) ↔ (x < 10 ^ suc k)
unfolding decimal
length-decimal k zero x h = (λ p. omega (arith, ten_positive (suc k)), λ p. omega arith)
length-decimal zero (suc zero) x h = (λ p. omega arith, λ p. ground arith)
length-decimal zero (suc (suc left)) x h = elim (Bool-cases (x / 10 == 0)) [
  | inl t ↦ rw t (λ p. ground (arith, t), λ p. omega arith)
  | inr t ↦ rw t (λ p. absurd (omega (arith, p)), λ p. absurd (ground (arith, t)))
]
length-decimal (suc k) (suc left) x h = elim (Bool-cases (x / 10 == 0)) [
  | inl t ↦ rw t (
    λ p.
        (let low : x < 10 = ground (arith, t) in
          omega
            (arith, low, pow-suc 10 (suc k), ten_positive (suc k), pow-suc 10 k, ten_positive k)),
    λ p. omega arith,
  )
  | inr t ↦
      let (few, low) = length-decimal k left (x / 10) (omega (arith, pow-suc 10 left)) in
      rw t (
        λ p. omega (arith, pow-suc 10 (suc k), few (omega (arith, p))),
        λ p. omega (arith, low (omega (arith, pow-suc 10 (suc k), p))),
      )
]

length-digit_loop : (x : ℕ) → length (digit_loop digit 64 10 x []) ≡ length (decimal 64 x)
length-digit_loop x = ap length (digit_loop-decimal digit 64 x []) ∙ length-map digit (decimal 64 x)

-- A 64-bit number fits the 16 places of `buf` in base ten just if it is below 10 ^ 16 without a sign,
-- and just if its magnitude is below 10 ^ 15 with one.
pub length-printint_buf :
    (xx : ℕ) (sign : Bool)
    → xx < 2 ^ 64
    → (length (printint_buf xx 10 sign) ≤ 16)
      ↔ (if sign && leb (2 ^ 63) xx then 2 ^ 64 - xx < 10 ^ 15 else xx < 10 ^ 16)
unfolding printint_buf
length-printint_buf xx sign h = elim (Bool-cases (sign && leb (2 ^ 63) xx)) [
  | inr t ↦ rw (t, length-digit_loop xx) (length-decimal 15 64 xx (omega arith))
  | inl t ↦
      let x = (2 ^ 64 - xx) % 2 ^ 64 in
      let e : x ≡ 2 ^ 64 - xx = ground (arith, t, h) in
      let (few, low) = length-decimal 14 64 x (omega arith) in
      rw (t, length-append (digit_loop digit 64 10 x []) (b'-' ∷ []), length-digit_loop x)
        (
          λ p. omega (arith, e, few (omega (arith, p))),
          λ p. omega (arith, low (omega (arith, e, p))),
        )
]
