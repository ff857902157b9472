-- ===== src/User/Printf/Atoi.antt =====
-- What `printint` of xv6-riscv/user/printf.c prints, `atoi` of xv6-riscv/user/ulib.c reads.
use native.Mathlib.Nat.{pow-suc}
use aca_riscv_secure_boot.Common.{
  ℕ, zero, suc, ◌+◌, ◌-◌, ◌*◌, ◌/◌, ◌%◌, ◌^◌, ◌≡◌, ◌<◌, ◌≤◌, refl, ap, ◌∙◌, Bool, true, false, ◌&&◌,
  leb, ◌==◌, List, [], ◌∷◌, ◌++◌, length, Bool-cases, inl, inr, arith, map, some,
}
use aca_riscv_secure_boot.Common.Memory.{Memory, read_bytes}
use aca_riscv_secure_boot.Common.Word.{u32}
use aca_riscv_secure_boot.Kernel.Printf.{backwards}
use aca_riscv_secure_boot.Kernel.Printf.Digits.{decimal, digit_loop-decimal}
use aca_riscv_secure_boot.User.Ulib.{atoi_loop, atoi}
use aca_riscv_secure_boot.User.Printf.{digit, printint}

-- The number that some digits of a string add to one already read.
accumulate : List ℕ → ℕ → ℕ
accumulate [] n = n
accumulate (c ∷ cs) n = accumulate cs (u32 (n * 10 + c - 48))

AllDigits : List ℕ → Type 0
AllDigits [] = ◌≡◌ {A = ℕ} 0 0
AllDigits (c ∷ cs) = (48 ≤ c) × (c ≤ 57) × AllDigits cs

-- The digits of a string at `s`, and what stands behind them.
atoi_loop-accumulate :
    (cs : List ℕ) (fuel s n : ℕ) (m : Memory)
    → read_bytes m s (length cs) ≡ cs
    → AllDigits cs
    → (leb 48 (m (s + length cs)) && leb (m (s + length cs)) 57) ≡ false
    → length cs < fuel
    → atoi_loop fuel s n m ≡ some (accumulate cs n)
unfolding atoi_loop accumulate AllDigits read_bytes
atoi_loop-accumulate cs zero s n m e d end l = absurd (omega arith)
atoi_loop-accumulate [] (suc fuel) s n m e d end l =
    (let p : s + 0 ≡ s = omega arith in rw (rw p at end) refl)
atoi_loop-accumulate (c ∷ cs) (suc fuel) s n m e d end l =
    let first : m s ≡ c = cc in
    let others : read_bytes m (s + 1) (length cs) ≡ cs = cc in
    let place : s + suc (length cs) ≡ s + 1 + length cs = omega arith in
    let digit_here : (leb 48 (m s) && leb (m s) 57) ≡ true = ground (arith, first, d.0, d.1) in
    rw digit_here (
      atoi_loop-accumulate cs fuel (s + 1) (u32 (n * 10 + m s - 48)) m others d.2 (rw place at end)
        (omega arith)
      ∙ ap (λ (x : ℕ). some (accumulate cs (u32 (n * 10 + x - 48)))) first)

accumulate-append :
    (cs : List ℕ) (c n : ℕ) → accumulate (cs ++ c ∷ []) n ≡ u32 (accumulate cs n * 10 + c - 48)
unfolding accumulate
accumulate-append [] c n = refl
accumulate-append (x ∷ cs) c n = accumulate-append cs c (u32 (n * 10 + x - 48))

AllDigits-append : (cs : List ℕ) (c : ℕ) → AllDigits cs → 48 ≤ c → c ≤ 57 → AllDigits (cs ++ c ∷ [])
unfolding AllDigits
AllDigits-append [] c d l l' = (l, l', refl)
AllDigits-append (x ∷ cs) c d l l' = (d.0, d.1, AllDigits-append cs c d.2 l l')

-- The digits of a number from the highest on.
printed : ℕ → ℕ → List ℕ
printed left x = backwards (map digit (decimal left x))

printed-AllDigits : (left x : ℕ) → AllDigits (printed left x)
unfolding printed decimal backwards AllDigits
printed-AllDigits zero x = refl
printed-AllDigits (suc left) x = elim (Bool-cases (x / 10 == 0)) [
  | inl t ↦ rw t (ground arith, ground arith, refl)
  | inr t ↦ rw t (
      AllDigits-append (printed left (x / 10)) (digit (x % 10)) (printed-AllDigits left (x / 10))
        (ground arith) (ground arith))
]

accumulate-printed : (left x : ℕ) → x < 2 ^ 32 → x < 10 ^ left → accumulate (printed left x) 0 ≡ x
unfolding printed decimal backwards accumulate
accumulate-printed zero x h l = omega arith
accumulate-printed (suc left) x h l = elim (Bool-cases (x / 10 == 0)) [
  | inl t ↦ rw t (ground (arith, t))
  | inr t ↦
      let high : accumulate (printed left (x / 10)) 0 ≡ x / 10 =
        accumulate-printed left (x / 10) (omega arith) (omega (arith, pow-suc 10 left)) in
      rw t (accumulate-append (printed left (x / 10)) (digit (x % 10)) 0 ∙ rw high (ground arith))
]

-- A number goes through text and back. If the characters that `printint` prints for a number below
-- 2 ^ 31 in base ten, with its sign or without, stand in memory with no digit behind them, `atoi`
-- reads that number, with any fuel beyond their length.
pub atoi-printint :
    (x fuel s : ℕ) (sgn : Bool) (m : Memory)
    → x < 2 ^ 31
    → let out = printint x 10 sgn in
      (read_bytes m s (length out) ≡ out)
      → (leb 48 (m (s + length out)) && leb (m (s + length out)) 57) ≡ false
      → length out < fuel
      → atoi fuel s m ≡ some x
atoi-printint x fuel s sgn m h =
    let text : printint x 10 sgn ≡ printed 32 x =
      unfold printint printed in
      let positive : (sgn && leb (2 ^ 31) x) ≡ false = ground (arith, h) in
      rw positive (ap backwards (digit_loop-decimal digit 32 x [])) in
    unfold atoi in
    rw text (λ e end l.
      atoi_loop-accumulate (printed 32 x) fuel s 0 m e (printed-AllDigits 32 x) end l
      ∙ ap some (accumulate-printed 32 x (omega arith) (omega arith)))
