-- ===== src/Kernel/Printf.antt =====
-- xv6-riscv/kernel/printf.c: formatted output, as the list of the characters given to `consputc`. An
-- argument of a call is the 64-bit word that `va_arg` reads.
pub mod Digits
use aca_riscv_secure_boot.Common.{
  ℕ, zero, suc, ◌+◌, ◌-◌, ◌*◌, ◌/◌, ◌%◌, ◌^◌, Bool, true, false, not, ◌&&◌, ltb, leb, ◌==◌,
  if◌then◌else◌, Option, none, some, List, [], ◌∷◌, ◌++◌,
}
use aca_riscv_secure_boot.Common.Memory.{Memory}
use aca_riscv_secure_boot.Common.Word.{u64}

-- `digits[d]`
abbrev pub digit : ℕ → ℕ
digit d = if ltb d 10 then b'0' + d else b'a' + (d - 10)

-- The loop that fills `buf`, the lowest digit first.
unfoldable pub digit_loop : (ℕ → ℕ) → ℕ → ℕ → ℕ → List ℕ → List ℕ
digit_loop digits zero base x buf = buf
digit_loop digits (suc left) base x buf =
    let buf' = buf ++ digits (x % base) ∷ [] in
    let rest = digit_loop digits left base (x / base) buf' in if x / base == 0 then buf' else rest

-- `while(--i >= 0)`: the characters of `buf` from the last on.
unfoldable pub backwards : List ℕ → List ℕ
backwards [] = []
backwards (c ∷ cs) = backwards cs ++ c ∷ []

-- What `printint` puts into `buf`, which has 16 places; a 64-bit number has 64 digits at most.
pub printint_buf : ℕ → ℕ → Bool → List ℕ
printint_buf xx base sign =
    let negative = sign && leb (2 ^ 63) xx in
    let buf = digit_loop digit 64 base (if negative then u64 (2 ^ 64 - xx) else xx) [] in
    if negative then buf ++ b'-' ∷ [] else buf

pub printint : ℕ → ℕ → Bool → List ℕ
printint xx base sign = backwards (printint_buf xx base sign)

-- The loop of `printptr`.
pub printptr_loop : ℕ → ℕ → List ℕ
printptr_loop zero x = []
printptr_loop (suc left) x = digit (x / 2 ^ 60) ∷ printptr_loop left (u64 (x * 2 ^ 4))

pub printptr : ℕ → List ℕ
printptr x = b'0' ∷ b'x' ∷ printptr_loop 16 x

-- The characters of a string; none without fuel for its end.
pub print_string : ℕ → ℕ → Memory → Option (List ℕ)
print_string zero s m = none
print_string (suc fuel) s m =
    if m s == 0
    then some []
    else elim (print_string fuel (s + 1) m) [ none ↦ none | some cs ↦ some (m s ∷ cs) ]

-- `va_arg(ap, int)` as a `long long`
abbrev pub int_arg : ℕ → ℕ
int_arg v = if ltb (v % 2 ^ 32) (2 ^ 31) then v % 2 ^ 32 else v % 2 ^ 32 + (2 ^ 64 - 2 ^ 32)

-- What a conversion is: its characters, how many arguments it takes, and the characters of the
-- format behind its first.
pub record Conversion : Type 0 where
  pub text : List ℕ
  pub taken : ℕ
  pub skip : ℕ

abbrev pub conversion : List ℕ → ℕ → ℕ → Conversion
conversion text taken skip = record { text = text; taken = taken; skip = skip }

-- The conversions of numbers and characters; `v` is the next argument.
pub number_conversion : ℕ → ℕ → ℕ → ℕ → Conversion
number_conversion c0 c1 c2 v =
    if c0 == b'd'
    then conversion (printint (int_arg v) 10 true) 1 0
    else if c0 == b'l' && c1 == b'd'
    then conversion (printint v 10 true) 1 1
    else if c0 == b'l' && (c1 == b'l' && c2 == b'd')
    then conversion (printint v 10 true) 1 2
    else if c0 == b'u'
    then conversion (printint (int_arg v) 10 false) 1 0
    else if c0 == b'l' && c1 == b'u'
    then conversion (printint v 10 false) 1 1
    else if c0 == b'l' && (c1 == b'l' && c2 == b'u')
    then conversion (printint v 10 false) 1 2
    else if c0 == b'x'
    then conversion (printint (int_arg v) 16 false) 1 0
    else if c0 == b'l' && c1 == b'x'
    then conversion (printint v 16 false) 1 1
    else if c0 == b'l' && (c1 == b'l' && c2 == b'x')
    then conversion (printint v 16 false) 1 2
    else if c0 == b'p'
    then conversion (printptr v) 1 0
    else if c0 == b'%'
    then conversion (b'%' ∷ []) 0 0
    else conversion (b'%' ∷ c0 ∷ []) 0 0

-- `"(null)"`
abbrev pub null_text : List ℕ
null_text = b'(' ∷ b'n' ∷ b'u' ∷ b'l' ∷ b'l' ∷ b')' ∷ []

-- The branches for `c0`, which test it for different characters; 0 is not one.
pub convert : ℕ → ℕ → ℕ → ℕ → ℕ → Memory → Option Conversion
convert limit c0 c1 c2 v m =
    if c0 == b's'
    then (if v == 0
        then some (conversion null_text 1 0)
        else elim (print_string limit v m) [ none ↦ none | some text ↦ some (conversion text 1 0) ])
    else some (number_conversion c0 c1 c2 v)

-- The loop of `printf` at the place `p` of the format, with the next argument at `a`.
pub printf_loop : ℕ → ℕ → ℕ → (ℕ → ℕ) → ℕ → Memory → Option (List ℕ)
printf_loop limit zero p args a m = none
printf_loop limit (suc fuel) p args a m =
    if m p == 0
    then some []
    else if not (m p == b'%')
    then elim (printf_loop limit fuel (p + 1) args a m) [
      | none ↦ none
      | some out ↦ some (m p ∷ out)
    ]
    else (let c0 = m (p + 1) in
        let c1 = if c0 == 0 then 0 else m (p + 2) in
        let c2 = if c1 == 0 then 0 else m (p + 3) in
        if c0 == 0 then some [] else elim (convert limit c0 c1 c2 (args a) m) [
          | none ↦ none
          | some c ↦ elim (printf_loop limit fuel (p + 2 + c.skip) args (a + c.taken) m) [
            | none ↦ none
            | some out ↦ some (c.text ++ out)
          ]
        ])

pub printf : ℕ → ℕ → (ℕ → ℕ) → Memory → Option (List ℕ)
printf limit fmt args m = printf_loop limit limit fmt args 0 m
