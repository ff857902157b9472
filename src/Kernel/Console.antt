-- ===== src/Kernel/Console.antt =====
-- xv6-riscv/kernel/console.c: the line discipline between the keyboard and `read`. What the calls
-- of `consputc` print is a list; what `either_copyin` and `either_copyout` do is an argument.
pub mod Editor
pub mod Reader
mod Examples
use aca_riscv_secure_boot.Common.{
  ℕ, zero, suc, ◌+◌, ◌-◌, ◌%◌, ◌^◌, Bool, true, false, not, ◌&&◌, ◌||◌, ltb, ◌==◌, if◌then◌else◌,
  Option, none, some, List, [], ◌∷◌, ◌++◌,
}
use aca_riscv_secure_boot.Common.Int.{pos, negsuc}
use aca_riscv_secure_boot.Common.Word.{u32}
use aca_riscv_secure_boot.Kernel.Outcome.{Ending, returned, asleep}

-- `INPUT_BUF_SIZE` and `BACKSPACE`
abbrev pub input_buf_size : ℕ
input_buf_size = 128

abbrev pub backspace : ℕ
backspace = 0x100

-- `C(x)`
abbrev pub control : ℕ → ℕ
control x = x - b'@'

-- `cons` behind its lock: `buf` as a function of the index; read, write and edit index.
pub record Console : Type 0 where
  pub buf : ℕ → ℕ
  pub r : ℕ
  pub w : ℕ
  pub e : ℕ

-- The bytes that `consputc` sends to the uart.
pub consputc : ℕ → List ℕ
consputc c = if c == backspace then 8 ∷ 32 ∷ 8 ∷ [] else c ∷ []

-- The loop of `consolewrite`, with the bytes it has given to `uartputc`: the number it returns, and
-- all bytes.
pub consolewrite : (ℕ → Option ℕ) → ℕ → ℕ → List ℕ → ℕ × List ℕ
consolewrite src zero i out = (i, out)
consolewrite src (suc left) i out = elim (src i) [
  | none ↦ (i, out)
  | some c ↦ consolewrite src left (i + 1) (out ++ c ∷ [])
]

-- The index before `cons.e`, as a `uint`.
abbrev pub before_e : Console → ℕ
before_e s = u32 (s.e + 2 ^ 32 - 1)

-- The loop of ^U, with `left` passes for the characters of the line.
pub kill_loop : ℕ → Console → List ℕ → Console × List ℕ
kill_loop zero s out = (s, out)
kill_loop (suc left) s out =
    let rest = kill_loop left (record s { e = before_e s }) (out ++ consputc backspace) in
    if not (s.e == s.w) && not (s.buf (before_e s % input_buf_size) == b'\n')
    then rest
    else (s, out)

-- How many characters of `cons.buf` are in use, as the `uint` difference of two indices.
abbrev pub distance : ℕ → ℕ → ℕ
distance a b = (b + 2 ^ 32 - a) % 2 ^ 32

-- The `default` of the `switch` for a character with room: store it, and commit a whole line.
pub store_char : ℕ → Console → Console × List ℕ
store_char c0 s =
    let c = if c0 == b'\r' then b'\n' else c0 in
    let stored = record s {
      buf = λ x. if x == s.e % input_buf_size then c else s.buf x;
      e = u32 (s.e + 1);
    } in
    let whole = c == b'\n' || c == control b'D' || distance s.r stored.e == input_buf_size in
    ((if whole then record stored { w = stored.e } else stored), consputc c)

-- The input interrupt handler, with what it echoes. `procdump` prints, and changes nothing here.
pub consoleintr : ℕ → Console → Console × List ℕ
unfolding kill_loop store_char
consoleintr c s =
    if c == control b'P'
    then (s, [])
    else if c == control b'U'
    then kill_loop (distance s.w s.e) s []
    else if c == control b'H' || c == 0x7f
    then (if not (s.e == s.w) then (record s { e = before_e s }, consputc backspace) else (s, []))
    else if not (c == 0) && ltb (distance s.r s.e) input_buf_size
    then store_char c s
    else (s, [])

-- `consoleread` from an `acquire` or wakeup to the next `sleep` or its return, with `left` of `target`
-- characters to go: how it ends, what it stored, and the console. Asleep, it says how many are left.
pub consoleread : (ℕ → Bool) → Bool → ℕ → ℕ → Console → Ending × List ℕ × Console
consoleread to killed target zero s = (returned (pos target), [], s)
consoleread to killed target (suc left) s =
    let c = s.buf (s.r % input_buf_size) in
    let taken = record s { r = u32 (s.r + 1) } in
    let (ending, out, after) = consoleread to killed target left taken in
    if s.r == s.w
    then ((if killed then returned (negsuc 0) else asleep (suc left)), [], s)
    else if c == control b'D'
    then (
      returned (pos (target - suc left)),
      [],
      (if ltb (suc left) target then record taken { r = u32 (taken.r + 2 ^ 32 - 1) } else taken),
    )
    else if not (to (target - suc left))
    then (returned (pos (target - suc left)), [], taken)
    else if c == b'\n'
    then (returned (pos (target - left)), c ∷ [], taken)
    else (ending, c ∷ out, after)
