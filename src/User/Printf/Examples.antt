-- ===== src/User/Printf/Examples.antt =====
-- The theorems on printed numbers at concrete ones.
use aca_riscv_secure_boot.Common.{
  ◌+◌, ◌-◌, ◌^◌, ◌≡◌, ◌<◌, ◌≤◌, ◌↔◌, refl, true, false, ◌&&◌, leb, if◌then◌else◌, arith, some, [],
  ◌∷◌, length,
}
use aca_riscv_secure_boot.Common.Memory.{Memory, write_bytes, read_bytes}
use aca_riscv_secure_boot.Kernel.Printf.{printint_buf, digit_loop, backwards}
use aca_riscv_secure_boot.Kernel.Printf.Digits.{length-printint_buf}
use aca_riscv_secure_boot.User.Ulib.{atoi}
use aca_riscv_secure_boot.User.Printf.{printint}
use aca_riscv_secure_boot.User.Printf.Atoi.{atoi-printint}

-- `2024`
abbrev year : Memory
year = write_bytes (λ _. 0) 100 (50 ∷ 48 ∷ 50 ∷ 52 ∷ [])

year_printed : read_bytes year 100 (length (printint 2024 10 true)) ≡ printint 2024 10 true
unfolding printint digit_loop backwards read_bytes write_bytes
year_printed = refl

year_ends :
    (leb 48 (year (100 + length (printint 2024 10 true)))
      && leb (year (100 + length (printint 2024 10 true))) 57)
    ≡ false
unfolding printint digit_loop backwards write_bytes
year_ends = refl

year_short : length (printint 2024 10 true) < 9
unfolding printint digit_loop backwards
year_short = omega arith

atoi-printint_example : atoi 9 100 year ≡ some 2024
atoi-printint_example =
    atoi-printint 2024 9 100 true year (omega arith) year_printed year_ends year_short

length-printint_buf_example :
    (length (printint_buf (10 ^ 16) 10 false) ≤ 16)
    ↔ (if false && leb (2 ^ 63) (10 ^ 16) then 2 ^ 64 - 10 ^ 16 < 10 ^ 15 else 10 ^ 16 < 10 ^ 16)
length-printint_buf_example = length-printint_buf (10 ^ 16) false (omega arith)
