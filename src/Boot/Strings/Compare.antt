-- ===== src/Boot/Strings/Compare.antt =====
-- `memcmp`, `strncmp` and `strlen` of xv6-riscv/bootloader/string.c.
use aca_riscv_secure_boot.Common.{ℕ, zero, suc, ◌+◌, ◌<◌, ◌≡◌, ◌≢◌, ◌↔◌, refl, some, arith}
use aca_riscv_secure_boot.Common.Int.{pos, sub_ℕ}
use aca_riscv_secure_boot.Common.Memory.{Memory, read_bytes}
use aca_riscv_secure_boot.Boot.Strings.{memcmp_loop, memcmp, strlen}

sub_ℕ-ne-zero : (a b : ℕ) → a ≢ b → sub_ℕ a b ≢ pos 0
sub_ℕ-ne-zero a b h e = ground arith

memcmp_loop-zero_of_eq :
    (n a b : ℕ) (m : Memory) → read_bytes m a n ≡ read_bytes m b n → memcmp_loop n a b m ≡ pos 0
unfolding memcmp_loop read_bytes
memcmp_loop-zero_of_eq zero a b m h = refl
memcmp_loop-zero_of_eq (suc n) a b m h = ground (arith, memcmp_loop-zero_of_eq n (a + 1) (b + 1) m)

memcmp_loop-eq_of_zero :
    (n a b : ℕ) (m : Memory) → memcmp_loop n a b m ≡ pos 0 → read_bytes m a n ≡ read_bytes m b n
unfolding memcmp_loop read_bytes
memcmp_loop-eq_of_zero zero a b m h = refl
memcmp_loop-eq_of_zero (suc n) a b m h = ground (arith, memcmp_loop-eq_of_zero n (a + 1) (b + 1) m)

-- `memcmp` returns 0 exactly when the two regions hold the same bytes.
pub memcmp-zero_iff :
    (a b n : ℕ) (m : Memory) → (memcmp a b n m ≡ pos 0) ↔ (read_bytes m a n ≡ read_bytes m b n)
unfolding memcmp
memcmp-zero_iff a b n m = (memcmp_loop-eq_of_zero n a b m, memcmp_loop-zero_of_eq n a b m)

memcmp_loop-first_difference :
    (k n a b : ℕ) (m : Memory)
    → k < n
    → ((i : ℕ) → i < k → m (a + i) ≡ m (b + i))
    → m (a + k) ≢ m (b + k)
    → memcmp_loop n a b m ≡ sub_ℕ (m (a + k)) (m (b + k))
unfolding memcmp_loop
memcmp_loop-first_difference k zero a b m l h d = absurd (omega arith)
memcmp_loop-first_difference zero (suc n) a b m l h d =
    let p : a + 0 ≡ a = omega arith in
    let q : b + 0 ≡ b = omega arith in
    rw (p, q) (ground (arith, (let d' : m a ≢ m b = rw (p, q) at d in d')))
memcmp_loop-first_difference (suc k) (suc n) a b m l h d = ground (
  arith,
  h 0,
  memcmp_loop-first_difference k n (a + 1) (b + 1) m (omega arith)
      (λ i r. ground (arith, h (suc i))) (ground arith),
)

-- If two regions agree on their first `k` bytes and differ at the next, `memcmp` returns the
-- difference of that pair, whatever lies behind it.
memcmp-first_difference :
    (k n a b : ℕ) (m : Memory)
    → k < n
    → ((i : ℕ) → i < k → m (a + i) ≡ m (b + i))
    → m (a + k) ≢ m (b + k)
    → memcmp a b n m ≡ sub_ℕ (m (a + k)) (m (b + k))
unfolding memcmp
memcmp-first_difference k n a b m l h d = memcmp_loop-first_difference k n a b m l h d

-- The scan finds the first NUL, given fuel for it.
strlen_lem :
    (k fuel s n : ℕ) (m : Memory)
    → k < fuel
    → ((i : ℕ) → i < k → m (s + (n + i)) ≢ 0)
    → m (s + (n + k)) ≡ 0
    → strlen fuel s n m ≡ some (n + k)
unfolding strlen
strlen_lem k zero s n m l h e = absurd (omega arith)
strlen_lem zero (suc fuel) s n m l h e =
    let p : n + 0 ≡ n = omega arith in
    rw p (ground (arith, (let e' : m (s + n) ≡ 0 = rw p at e in e')))
strlen_lem (suc k) (suc fuel) s n m l h e = ground (
  arith,
  h 0,
  strlen_lem k fuel s (n + 1) m (omega arith) (λ i r. ground (arith, h (suc i))) (ground arith),
)

-- `strlen` returns the distance to the first NUL, and any fuel beyond it is enough.
strlen-first_nul :
    (k fuel s : ℕ) (m : Memory)
    → k < fuel
    → ((i : ℕ) → i < k → m (s + i) ≢ 0)
    → m (s + k) ≡ 0
    → strlen fuel s 0 m ≡ some k
strlen-first_nul k fuel s m l h e =
    ground (arith, strlen_lem k fuel s 0 m l (λ i r. ground (arith, h i)) (ground arith))
