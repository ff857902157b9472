-- ===== src/User/Printf.antt =====
-- `printint` of xv6-riscv/user/printf.c. Its loops are those of the kernel's, on 32 bits.
pub mod Atoi
mod Examples
use aca_riscv_secure_boot.Common.{
  ℕ, ◌+◌, ◌-◌, ◌^◌, Bool, ◌&&◌, ltb, leb, if◌then◌else◌, List, [], ◌∷◌, ◌++◌,
}
use aca_riscv_secure_boot.Common.Word.{u32}
use aca_riscv_secure_boot.Kernel.Printf.{digit_loop, backwards}

-- `digits[d]`
abbrev pub digit : ℕ → ℕ
digit d = if ltb d 10 then b'0' + d else b'A' + (d - 10)

-- The characters that `printint` gives to `putc`; a 32-bit number has 32 digits at most.
unfoldable pub printint : ℕ → ℕ → Bool → List ℕ
printint xx base sgn =
    let neg = sgn && leb (2 ^ 31) xx in
    let buf = digit_loop digit 32 base (if neg then u32 (2 ^ 32 - xx) else xx) [] in
    backwards (if neg then buf ++ b'-' ∷ [] else buf)
