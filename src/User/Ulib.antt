-- ===== src/User/Ulib.antt =====
-- xv6-riscv/user/ulib.c: the string functions of user programs. A loop over a string takes fuel and is
-- none without any. `memset`, `memcpy` and `memcmp` are the kernel's text.
use aca_riscv_secure_boot.Common.{
  ℕ, zero, suc, ◌+◌, ◌-◌, ◌*◌, not, ◌&&◌, leb, ◌==◌, if◌then◌else◌, Option, none, some,
}
use aca_riscv_secure_boot.Common.Int.{ℤ, sub_ℕ}
use aca_riscv_secure_boot.Common.Memory.{Memory, store}
use aca_riscv_secure_boot.Common.Word.{u32}

-- The loop of `strcpy`.
pub strcpy : ℕ → ℕ → ℕ → Memory → Option Memory
strcpy zero s t m = none
strcpy (suc fuel) s t m =
    let m' = store m s (m t) in
    let rest = strcpy fuel (s + 1) (t + 1) m' in if m t == 0 then some m' else rest

pub strcmp : ℕ → ℕ → ℕ → Memory → Option ℤ
strcmp zero p q m = none
strcmp (suc fuel) p q m =
    let rest = strcmp fuel (p + 1) (q + 1) m in
    if not (m p == 0) && (m p == m q) then rest else some (sub_ℕ (m p) (m q))

-- The pointer that `strchr` returns, which is 0 if the character is not there.
unfoldable pub strchr : ℕ → ℕ → ℕ → Memory → Option ℕ
strchr zero s c m = none
strchr (suc fuel) s c m =
    let rest = strchr fuel (s + 1) c m in
    if m s == 0 then some 0 else if m s == c then some s else rest

-- The loop of `atoi`, with the number so far in 32 bits.
unfoldable pub atoi_loop : ℕ → ℕ → ℕ → Memory → Option ℕ
atoi_loop zero s n m = none
atoi_loop (suc fuel) s n m =
    let rest = atoi_loop fuel (s + 1) (u32 (n * 10 + m s - 48)) m in
    if leb 48 (m s) && leb (m s) 57 then rest else some n

unfoldable pub atoi : ℕ → ℕ → Memory → Option ℕ
atoi fuel s m = atoi_loop fuel s 0 m
