-- ===== src/Boot/Strings/Copy.antt =====
-- `memmove`, `memcpy` and `memset` of xv6-riscv/bootloader/string.c.
use aca_riscv_secure_boot.Common.{ℕ, zero, suc, ◌+◌, ◌-◌, ◌≤◌, ◌≡◌, ◌⊎◌, arith, if◌then◌else◌}
use aca_riscv_secure_boot.Common.Memory.{Memory, store, within}
use aca_riscv_secure_boot.Common.Word.{u8}
use aca_riscv_secure_boot.Boot.Strings.{memset_loop, memset, copy_up, copy_down, memmove, memcpy}

-- What memory holds at `x` once the `n` bytes at `s` have been copied to `d`.
abbrev pub copied : ℕ → ℕ → ℕ → Memory → ℕ → ℕ
copied d s n m x = if within d n x then m (s + (x - d)) else m x

copy_up_lem :
    (n d s : ℕ) (m : Memory) (x : ℕ) → (d ≤ s) ⊎ (s + n ≤ d) → copy_up n d s m x ≡ copied d s n m x
unfolding copy_up
copy_up_lem zero d s m x h = ground arith
copy_up_lem (suc n) d s m x h = ground (arith, copy_up_lem n (d + 1) (s + 1) (store m d (m s)) x)

copy_down_lem :
    (n d s : ℕ) (m : Memory) (x : ℕ) → s ≤ d → copy_down n (d + n) (s + n) m x ≡ copied d s n m x
unfolding copy_down
copy_down_lem zero d s m x h = ground arith
copy_down_lem (suc n) d s m x h =
    let e : d + suc n - 1 ≡ d + n = omega arith in
    let f : s + suc n - 1 ≡ s + n = omega arith in
    rw (e, f) (ground (arith, copy_down_lem n d s (store m (d + n) (m (s + n))) x))

-- `memmove` copies `n` bytes, whether or not the two regions overlap, and changes no other byte.
pub memmove-copied : (d s n : ℕ) (m : Memory) (x : ℕ) → memmove d s n m x ≡ copied d s n m x
unfolding memmove
memmove-copied d s n m x = ground (arith, copy_up_lem n d s m x, copy_down_lem n d s m x)

pub memcpy-copied : (d s n : ℕ) (m : Memory) (x : ℕ) → memcpy d s n m x ≡ copied d s n m x
unfolding memcpy
memcpy-copied d s n m x = memmove-copied d s n m x

memset_loop_lem :
    (n i d c : ℕ) (m : Memory) (x : ℕ)
    → memset_loop n i d c m x ≡ (if within (d + i) n x then u8 c else m x)
unfolding memset_loop
memset_loop_lem zero i d c m x = ground arith
memset_loop_lem (suc n) i d c m x =
    ground (arith, memset_loop_lem n (i + 1) d c (store m (d + i) (u8 c)) x)

-- `memset` fills `n` bytes with the low byte of `c`, and changes no other.
pub memset_fills :
    (d c n : ℕ) (m : Memory) (x : ℕ) → memset d c n m x ≡ (if within d n x then u8 c else m x)
unfolding memset
memset_fills d c n m x = ground (arith, memset_loop_lem n 0 d c m x)
