-- ===== src/Kernel/Fs/Path/Element.antt =====
-- `skipelem` of xv6-riscv/kernel/fs.c.
use aca_riscv_secure_boot.Common.{
  ℕ, zero, suc, ◌+◌, ◌-◌, min, ◌≡◌, ◌≢◌, ◌<◌, ◌≤◌, ◌⊎◌, refl, ap, ◌∙◌, sym, false, arith, eq→==,
  ne→==, some,
}
use aca_riscv_secure_boot.Common.Memory.{Memory, within, Apart, read_bytes, read_bytes_ext}
use aca_riscv_secure_boot.Boot.Strings.Copy.{memmove-copied}
use aca_riscv_secure_boot.Kernel.Fs.Path.{skip_slashes, skip_name, copy_name, skipelem, slash}

skip_slashes-all :
    (fuel path k : ℕ) (m : Memory)
    → ((i : ℕ) → i < k → m (path + i) ≡ slash)
    → m (path + k) ≢ slash
    → k < fuel
    → skip_slashes fuel path m ≡ some (path + k)
unfolding skip_slashes
skip_slashes-all zero path k m h e l = absurd (omega arith)
skip_slashes-all (suc fuel) path zero m h e l =
    let p : path + 0 ≡ path = omega arith in rw p (rw (ne→== (m path) slash (rw p at e)) refl)
skip_slashes-all (suc fuel) path (suc k) m h e l =
    let p : path + 0 ≡ path = omega arith in
    let q : path + suc k ≡ path + 1 + k = omega arith in
    let first : m path ≡ slash = rw p at (h 0 (omega arith)) in
    let next : (i : ℕ) → i < k → m (path + 1 + i) ≡ slash =
      λ i r. ap m (omega arith) ∙ h (suc i) (omega arith) in
    rw (eq→== (m path) slash first, q)
      (skip_slashes-all fuel (path + 1) k m next (rw q at e) (omega arith))

skip_name-all :
    (fuel path n : ℕ) (m : Memory)
    → ((i : ℕ) → i < n → (m (path + i) ≢ slash) × (m (path + i) ≢ 0))
    → (m (path + n) ≡ slash) ⊎ (m (path + n) ≡ 0)
    → n < fuel
    → skip_name fuel path m ≡ some (path + n)
unfolding skip_name
skip_name-all zero path n m h e l = absurd (omega arith)
skip_name-all (suc fuel) path zero m h e l =
    let p : path + 0 ≡ path = omega arith in ground (arith, rw p at e)
skip_name-all (suc fuel) path (suc n) m h e l =
    let p : path + 0 ≡ path = omega arith in
    let q : path + suc n ≡ path + 1 + n = omega arith in
    let first : (m path ≢ slash) × (m path ≢ 0) = rw p at (h 0 (omega arith)) in
    let next : (i : ℕ) → i < n → (m (path + 1 + i) ≢ slash) × (m (path + 1 + i) ≢ 0) = λ i r.
      (let s : path + suc i ≡ path + 1 + i = omega arith in rw s at (h (suc i) (omega arith))) in
    rw (ne→== (m path) slash first.0, ne→== (m path) 0 first.1, q)
      (skip_name-all fuel (path + 1) n m next (rw q at e) (omega arith))

copy_name-outside :
    (name s n : ℕ) (m : Memory) (x : ℕ) → within name 14 x ≡ false → copy_name name s n m x ≡ m x
unfolding copy_name
copy_name-outside name s n m x h =
    ground (arith, memmove-copied name s n m x, memmove-copied name s 14 m x)

copy_name-inside :
    (name s n : ℕ) (m : Memory) (i : ℕ) → i < min n 14 → copy_name name s n m (name + i) ≡ m (s + i)
unfolding copy_name
copy_name-inside name s n m i h =
    let e : s + (name + i - name) ≡ s + i = omega arith in
    ground
      (arith, memmove-copied name s n m (name + i), memmove-copied name s 14 m (name + i), ap m e)

copy_name-nul : (name s n : ℕ) (m : Memory) → n < 14 → copy_name name s n m (name + n) ≡ 0
unfolding copy_name
copy_name-nul name s n m h = ground arith

skipelem-some :
    (fuel path name s e q : ℕ) (m : Memory)
    → skip_slashes fuel path m ≡ some s
    → m s ≢ 0
    → skip_name fuel s m ≡ some e
    → skip_slashes fuel e (copy_name name s (e - s) m) ≡ some q
    → skipelem fuel path name m ≡ some (some q, copy_name name s (e - s) m)
unfolding skipelem
skipelem-some fuel path name s e q m h nz h' h'' = rw (skipelem, h, ne→== (m s) 0 nz, h', h'') refl

-- What `skipelem` leaves for an element of `n` bytes at `s`.
pub record Element (name s n : ℕ) (m m' : Memory) : Type 0 where
  pub bytes : read_bytes m' name (min n 14) ≡ read_bytes m s (min n 14)
  pub ended : n < 14 → m' (name + n) ≡ 0
  pub outside : (x : ℕ) → within name 14 x ≡ false → m' x ≡ m x

-- A path is taken apart at its slashes. For a path of `k` slashes, an element of `n` bytes and `j`
-- slashes, whose next byte is not one, away from `name`, `skipelem` ends with fuel beyond each of
-- the three; it returns the place behind them, with the element in `name`, cut to 14 bytes, behind
-- a shorter one a NUL, and no other byte changed.
pub skipelem-Element :
    (fuel path name k n j : ℕ) (m : Memory)
    → ((i : ℕ) → i < k → m (path + i) ≡ slash)
    → ((i : ℕ) → i < n → (m (path + k + i) ≢ slash) × (m (path + k + i) ≢ 0))
    → 0 < n
    → ((i : ℕ) → i < j → m (path + k + n + i) ≡ slash)
    → m (path + k + n + j) ≢ slash
    → (m (path + k + n) ≡ slash) ⊎ (m (path + k + n) ≡ 0)
    → (k < fuel) × (n < fuel) × (j < fuel)
    → Apart name 14 path (k + n + j + 1)
    → (m' : Memory) × (skipelem fuel path name m ≡ some (some (path + k + n + j), m'))
      × Element name (path + k) n m m'
skipelem-Element fuel path name k n j m before name_ some_ behind stop end enough apart =
    let s = path + k in
    let m' = copy_name name s n m in
    let first : (m s ≢ slash) × (m s ≢ 0) =
      (let p : path + k + 0 ≡ path + k = omega arith in rw p at (name_ 0 some_)) in
    let len : s + n - s ≡ n = omega arith in
    let same : (i : ℕ) → i ≤ j → m' (s + n + i) ≡ m (s + n + i) =
      λ i l. copy_name-outside name s n m (s + n + i) (ground arith) in
    (
      m',
      skipelem-some fuel path name s (s + n) (s + n + j) m
            (skip_slashes-all fuel path k m before first.0 enough.0) first.1
            (skip_name-all fuel s n m name_ end enough.1)
            (ap (λ (l : ℕ). skip_slashes fuel (s + n) (copy_name name s l m)) len
              ∙ skip_slashes-all fuel (s + n) j m' (λ i l. same i (omega arith) ∙ behind i l)
                  (λ e. stop (sym (same j (omega arith)) ∙ e)) enough.2)
          ∙ ap (λ (l : ℕ). some (some (s + n + j), copy_name name s l m)) len,
      record {
        bytes = read_bytes_ext m' m name s (min n 14) (λ i l. copy_name-inside name s n m i l);
        ended = copy_name-nul name s n m;
        outside = copy_name-outside name s n m;
      },
    )
