-- ===== src/Boot/Strings.antt =====
-- xv6-riscv/bootloader/string.c over byte memory. Every loop keeps the source's pointers.
pub mod Compare
pub mod Copy
use aca_riscv_secure_boot.Common.{
  ℕ, zero, suc, ◌+◌, ◌-◌, ◌%◌, ◌≡◌, Bool, true, false, not, ◌&&◌, Option, none, some, ltb, ◌==◌,
  if◌then◌else◌,
}
use aca_riscv_secure_boot.Common.Int.{ℤ, pos, negsuc, sub_ℕ}
use aca_riscv_secure_boot.Common.Memory.{Memory, store}
use aca_riscv_secure_boot.Common.Word.{u8}

-- `n` rounds of `cdst[i] = c`, from index `i`
memset_loop : ℕ → ℕ → ℕ → ℕ → Memory → Memory
memset_loop zero i dst c m = m
memset_loop (suc n) i dst c m = memset_loop n (i + 1) dst c (store m (dst + i) (u8 c))

pub memset : ℕ → ℕ → ℕ → Memory → Memory
memset dst c n m = memset_loop n 0 dst c m

-- `while(n-- > 0)`: equal bytes go on, the first different pair decides.
memcmp_loop : ℕ → ℕ → ℕ → Memory → ℤ
memcmp_loop zero s1 s2 m = pos 0
memcmp_loop (suc n) s1 s2 m =
    let rest = memcmp_loop n (s1 + 1) (s2 + 1) m in
    if not (m s1 == m s2) then sub_ℕ (m s1) (m s2) else rest

pub memcmp : ℕ → ℕ → ℕ → Memory → ℤ
memcmp v1 v2 n m = memcmp_loop n v1 v2 m

-- `*d++ = *s++`
copy_up : ℕ → ℕ → ℕ → Memory → Memory
copy_up zero d s m = m
copy_up (suc n) d s m = copy_up n (d + 1) (s + 1) (store m d (m s))

-- `*--d = *--s`
copy_down : ℕ → ℕ → ℕ → Memory → Memory
copy_down zero d s m = m
copy_down (suc n) d s m = copy_down n (d - 1) (s - 1) (store m (d - 1) (m (s - 1)))

pub memmove : ℕ → ℕ → ℕ → Memory → Memory
memmove dst src n m =
    if n == 0
    then m
    else if ltb src dst && ltb dst (src + n)
    then copy_down n (dst + n) (src + n) m
    else copy_up n dst src m

pub memcpy : ℕ → ℕ → ℕ → Memory → Memory
memcpy dst src n m = memmove dst src n m

-- The `while` of `strncmp`, and the two tests behind it.
strncmp_loop : ℕ → ℕ → ℕ → Memory → ℤ
strncmp_loop zero p q m = pos 0
strncmp_loop (suc n) p q m =
    let rest = strncmp_loop n (p + 1) (q + 1) m in
    if not (m p == 0) && (m p == m q) then rest else sub_ℕ (m p) (m q)

pub strncmp : ℕ → ℕ → ℕ → Memory → ℤ
strncmp p q n m = strncmp_loop n p q m

-- `n` rounds of `*s++ = 0`
pad_nul : ℕ → ℕ → Memory → Memory
pad_nul zero s m = m
pad_nul (suc n) s m = pad_nul n (s + 1) (store m s 0)

-- The copying loop of `strncpy`: after a NUL the rest is padded.
strncpy_loop : ℕ → ℕ → ℕ → Memory → Memory
strncpy_loop zero s t m = m
strncpy_loop (suc n) s t m =
    let m' = store m s (m t) in
    let rest = strncpy_loop n (s + 1) (t + 1) m' in if m t == 0 then pad_nul n (s + 1) m' else rest

-- A negative count copies nothing.
pub strncpy : ℕ → ℕ → ℤ → Memory → Memory
strncpy s t (pos n) m = strncpy_loop n s t m
strncpy s t (negsuc k) m = m

-- The loop of `safestrcpy`, entered with `--n` already tested, and the final `*s = 0`.
safestrcpy_loop : ℕ → ℕ → ℕ → Memory → Memory
safestrcpy_loop zero s t m = store m s 0
safestrcpy_loop (suc n) s t m =
    let m' = store m s (m t) in
    let rest = safestrcpy_loop n (s + 1) (t + 1) m' in if m t == 0 then store m' (s + 1) 0 else rest

pub safestrcpy : ℕ → ℕ → ℤ → Memory → Memory
safestrcpy s t (pos zero) m = m
safestrcpy s t (pos (suc n)) m = safestrcpy_loop n s t m
safestrcpy s t (negsuc k) m = m

-- The scan of `strlen`; `none` when the fuel ends before a NUL.
pub strlen : ℕ → ℕ → ℕ → Memory → Option ℕ
strlen zero s n m = none
strlen (suc fuel) s n m =
    let rest = strlen fuel s (n + 1) m in if m (s + n) == 0 then some n else rest
