-- ===== src/Common/Memory.antt =====
-- Byte-addressed memory: a total function from addresses to bytes.
use aca_riscv_secure_boot.Common.{
  ℕ, zero, suc, ◌+◌, ◌≤◌, ◌<◌, ◌≡◌, refl, ap, ap₂, ◌⊎◌, Bool, false, ◌&&◌, List, [], ◌∷◌, ◌++◌,
  arith, ltb, leb, ◌==◌, if◌then◌else◌, length,
}

abbrev pub Memory : Type 0
Memory = ℕ → ℕ

abbrev pub store : Memory → ℕ → ℕ → Memory
store m a v x = if x == a then v else m x

-- The `n` bytes from `a` on.
unfoldable pub read_bytes : Memory → ℕ → ℕ → List ℕ
read_bytes m a zero = []
read_bytes m a (suc n) = m a ∷ read_bytes m (a + 1) n

unfoldable pub write_bytes : Memory → ℕ → List ℕ → Memory
write_bytes m a [] = m
write_bytes m a (b ∷ bs) = write_bytes (store m a b) (a + 1) bs

-- `x` lies among the `n` addresses from `a` on.
abbrev pub within : ℕ → ℕ → ℕ → Bool
within a n x = leb a x && ltb x (a + n)

-- The `n` addresses from `a` on and the `k` from `b` on have none in common.
abbrev pub Apart : ℕ → ℕ → ℕ → ℕ → Type 0
Apart a n b k = (a + n ≤ b) ⊎ (b + k ≤ a)

pub length-read_bytes : (m : Memory) (a n : ℕ) → length (read_bytes m a n) ≡ n
unfolding read_bytes
length-read_bytes m a zero = refl
length-read_bytes m a (suc n) = ap suc (length-read_bytes m (a + 1) n)

-- Reading depends only on the bytes read.
pub read_bytes_ext :
    (m m' : Memory) (a b n : ℕ)
    → ((i : ℕ) → i < n → m (a + i) ≡ m' (b + i))
    → read_bytes m a n ≡ read_bytes m' b n
unfolding read_bytes
read_bytes_ext m m' a b zero h = refl
read_bytes_ext m m' a b (suc n) h = ap₂ ◌∷◌ first (read_bytes_ext m m' (a + 1) (b + 1) n rest)
  where
    first : m a ≡ m' b
    first =
        let p : a + 0 ≡ a = omega arith in
        let q : b + 0 ≡ b = omega arith in rw (p, q) at (h 0 (omega arith))

    rest : (i : ℕ) → i < n → m (a + 1 + i) ≡ m' (b + 1 + i)
    rest i l =
        let p : a + suc i ≡ a + 1 + i = omega arith in
        let q : b + suc i ≡ b + 1 + i = omega arith in rw (p, q) at (h (suc i) (omega arith))

pub read_bytes_add :
    (m : Memory) (a n k : ℕ) → read_bytes m a (n + k) ≡ read_bytes m a n ++ read_bytes m (a + n) k
unfolding read_bytes
read_bytes_add m a zero k =
    let p : 0 + k ≡ k = omega arith in let q : a + 0 ≡ a = omega arith in rw (p, q)
read_bytes_add m a (suc n) k =
    let p : suc n + k ≡ suc (n + k) = omega arith in
    let q : a + suc n ≡ a + 1 + n = omega arith in
    rw (p, q) (ap (λ zs. m a ∷ zs) (read_bytes_add m (a + 1) n k))

pub write_bytes-outside :
    (m : Memory) (a : ℕ) (bs : List ℕ) (x : ℕ)
    → within a (length bs) x ≡ false
    → write_bytes m a bs x ≡ m x
unfolding write_bytes
write_bytes-outside m a [] x h = refl
write_bytes-outside m a (b ∷ bs) x h =
    ground (arith, write_bytes-outside (store m a b) (a + 1) bs x)

-- What was written can be read.
pub write_bytes-read :
    (m : Memory) (a : ℕ) (bs : List ℕ) → read_bytes (write_bytes m a bs) a (length bs) ≡ bs
unfolding read_bytes write_bytes
write_bytes-read m a [] = refl
write_bytes-read m a (b ∷ bs) =
    ap₂ ◌∷◌ (ground (arith, write_bytes-outside (store m a b) (a + 1) bs a))
      (write_bytes-read (store m a b) (a + 1) bs)
