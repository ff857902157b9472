-- ===== src/Common/Cells.antt =====
-- Numbers of several bytes in memory, the lowest byte first.
use aca_riscv_secure_boot.Common.{
  ℕ, zero, suc, ◌+◌, ◌*◌, ◌/◌, ◌%◌, ◌^◌, ◌≡◌, ◌<◌, refl, false, arith, ap, ap₂, length, List, [],
  ◌∷◌,
}
use aca_riscv_secure_boot.Common.Memory.{
  Memory, Apart, within, store, write_bytes, write_bytes-outside,
}
use native.Mathlib.Nat.{pow-suc}

-- The little-endian number in `n` bytes.
unfoldable pub read_le : Memory → ℕ → ℕ → ℕ
read_le m a zero = 0
read_le m a (suc n) = m a + 256 * read_le m (a + 1) n

-- The bytes of a `uint64`, the lowest first.
pub le_bytes : ℕ → ℕ → List ℕ
le_bytes zero v = []
le_bytes (suc n) v = v % 256 ∷ le_bytes n (v / 256)

-- A store through a `uint64 *`.
pub store_64 : ℕ → ℕ → Memory → Memory
unfolding le_bytes
store_64 a v m = write_bytes m a (le_bytes 8 v)

pub read_le_ext :
    (m m' : Memory) (a n : ℕ)
    → ((i : ℕ) → i < n → m (a + i) ≡ m' (a + i))
    → read_le m a n ≡ read_le m' a n
unfolding read_le
read_le_ext m m' a zero h = refl
read_le_ext m m' a (suc n) h =
    ap₂ (λ x y. x + 256 * y) (ground (arith, h 0))
      (read_le_ext m m' (a + 1) n (λ i l. ground (arith, h (suc i))))

length-le_bytes : (n v : ℕ) → length (le_bytes n v) ≡ n
unfolding le_bytes
length-le_bytes zero v = refl
length-le_bytes (suc n) v = ap suc (length-le_bytes n (v / 256))

-- Writing a number's low bytes and reading them gives the number back, up to the width.
read_le-write_bytes :
    (n a v : ℕ) (m : Memory) → v < 256 ^ n → read_le (write_bytes m a (le_bytes n v)) a n ≡ v
unfolding read_le write_bytes le_bytes
read_le-write_bytes zero a v m h = omega arith
read_le-write_bytes (suc n) a v m h =
    let first : write_bytes m a (le_bytes (suc n) v) a ≡ v % 256 = ground (
      arith,
      length-le_bytes n (v / 256),
      write_bytes-outside (store m a (v % 256)) (a + 1) (le_bytes n (v / 256)) a,
    ) in
    let rest =
      read_le-write_bytes n (a + 1) (v / 256) (store m a (v % 256))
        (omega (arith, pow-suc 256 n)) in
    omega (arith, first, rest)

pub store_64-outside :
    (a v : ℕ) (m : Memory) (x : ℕ) → within a 8 x ≡ false → store_64 a v m x ≡ m x
unfolding store_64
store_64-outside a v m x h = write_bytes-outside m a (le_bytes 8 v) x h

pub store_64-read : (a v : ℕ) (m : Memory) → v < 2 ^ 64 → read_le (store_64 a v m) a 8 ≡ v
unfolding store_64
store_64-read a v m h = read_le-write_bytes 8 a v m (omega arith)

-- A store elsewhere leaves a `uint64` as it was.
pub read_le-store_64 :
    (a b v : ℕ) (m : Memory) → Apart a 8 b 8 → read_le (store_64 b v m) a 8 ≡ read_le m a 8
read_le-store_64 a b v m h =
    read_le_ext (store_64 b v m) m a 8 (λ i l. ground (arith, store_64-outside b v m (a + i)))

-- A store of the low `n` bytes of a number.
pub store_le : ℕ → ℕ → ℕ → Memory → Memory
store_le n a v m = write_bytes m a (le_bytes n v)

pub store_le-outside :
    (n a v : ℕ) (m : Memory) (x : ℕ) → within a n x ≡ false → store_le n a v m x ≡ m x
unfolding store_le
store_le-outside n a v m x h = write_bytes-outside m a (le_bytes n v) x (rw (length-le_bytes n v) h)

pub read_le-store_le : (n a v : ℕ) (m : Memory) → v < 256 ^ n → read_le (store_le n a v m) a n ≡ v
unfolding store_le
read_le-store_le n a v m h = read_le-write_bytes n a v m h

pub read_le-store_le-Apart :
    (k a n b v : ℕ) (m : Memory) → Apart a k b n → read_le (store_le n b v m) a k ≡ read_le m a k
read_le-store_le-Apart k a n b v m h =
    read_le_ext (store_le n b v m) m a k (λ i l. ground (arith, store_le-outside n b v m (a + i)))

le_bytes_small :
    (n v : ℕ) (m : Memory) (a x : ℕ)
    → ((y : ℕ) → m y < 256)
    → write_bytes m a (le_bytes n v) x < 256
unfolding le_bytes write_bytes
le_bytes_small zero v m a x h = h x
le_bytes_small (suc n) v m a x h =
    le_bytes_small n (v / 256) (store m a (v % 256)) (a + 1) x (λ y. ground (arith, h y))

pub store_le_small :
    (n a v : ℕ) (m : Memory) (x : ℕ) → ((y : ℕ) → m y < 256) → store_le n a v m x < 256
unfolding store_le
store_le_small n a v m x h = le_bytes_small n v m a x h
