-- ===== src/Common/Ring.antt =====
-- A ring of `k` cells between two counters, as a list.
use aca_riscv_secure_boot.Common.{
  ℕ, zero, suc, ◌+◌, ◌%◌, ◌≡◌, ◌<◌, refl, ap, ap₂, arith, length, List, [], ◌∷◌, ◌++◌,
}

-- `n` cells from counter `r` on.
unfoldable pub ring : ℕ → (ℕ → ℕ) → ℕ → ℕ → List ℕ
ring k cell r zero = []
ring k cell r (suc n) = cell (r % k) ∷ ring k cell (r + 1) n

pub length-ring : (k : ℕ) (d : ℕ → ℕ) (r n : ℕ) → length (ring k d r n) ≡ n
unfolding ring
length-ring k d r zero = refl
length-ring k d r (suc n) = omega (arith, length-ring k d (r + 1) n)

pub ring_ext :
    (k : ℕ) (d d' : ℕ → ℕ) (r r' n : ℕ)
    → ((i : ℕ) → i < n → d ((r + i) % k) ≡ d' ((r' + i) % k))
    → ring k d r n ≡ ring k d' r' n
unfolding ring
ring_ext k d d' r r' zero h = refl
ring_ext k d d' r r' (suc n) h =
    ap₂ ◌∷◌ (here (h 0 (omega arith)))
      (ring_ext k d d' (r + 1) (r' + 1) n (λ i l. there i (h (suc i) (omega arith))))
  where
    here : d ((r + 0) % k) ≡ d' ((r' + 0) % k) → d (r % k) ≡ d' (r' % k)
    here e = let a : r + 0 ≡ r = omega arith in let b : r' + 0 ≡ r' = omega arith in rw (← a, ← b) e

    there :
        (i : ℕ)
        → d ((r + suc i) % k) ≡ d' ((r' + suc i) % k)
        → d ((r + 1 + i) % k) ≡ d' ((r' + 1 + i) % k)
    there i e =
        let a : r + 1 + i ≡ r + suc i = omega arith in
        let b : r' + 1 + i ≡ r' + suc i = omega arith in rw (a, b) e

pub ring_snoc :
    (k : ℕ) (d : ℕ → ℕ) (r n : ℕ) → ring k d r (suc n) ≡ ring k d r n ++ d ((r + n) % k) ∷ []
unfolding ring
ring_snoc k d r zero = let a : r + 0 ≡ r = omega arith in rw a refl
ring_snoc k d r (suc n) =
    let a : r + 1 + n ≡ r + suc n = omega arith in
    ap (λ t. d (r % k) ∷ t) (rw a at (ring_snoc k d (r + 1) n))

pub ring_append :
    (k : ℕ) (d : ℕ → ℕ) (r n m : ℕ) → ring k d r (n + m) ≡ ring k d r n ++ ring k d (r + n) m
unfolding ring
ring_append k d r zero m =
    let a : r + 0 ≡ r = omega arith in let b : 0 + m ≡ m = omega arith in rw (a, b) refl
ring_append k d r (suc n) m =
    let a : r + 1 + n ≡ r + suc n = omega arith in
    let b : suc n + m ≡ suc (n + m) = omega arith in
    rw b (ap (λ t. d (r % k) ∷ t) (rw a at (ring_append k d (r + 1) n m)))
