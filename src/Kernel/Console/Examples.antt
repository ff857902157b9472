-- ===== src/Kernel/Console/Examples.antt =====
-- Tests of the line discipline, and its theorems at a concrete console.
use aca_riscv_secure_boot.Common.{
  ◌-◌, ◌^◌, ◌≡◌, refl, true, false, arith, ◌==◌, if◌then◌else◌, [], ◌∷◌,
}
use aca_riscv_secure_boot.Common.Ring.{ring}
use aca_riscv_secure_boot.Kernel.Console.{Console, consoleintr, consoleread}
use aca_riscv_secure_boot.Kernel.Console.Editor.{
  IsConsole, committed, line, view, edit, consoleintr-edit,
}
use aca_riscv_secure_boot.Kernel.Console.Reader.{take_line, consoleread-take_line}

-- "hi", a newline, and "x" not yet committed, across the wrap of the indices.
abbrev typed : Console
typed = record {
  buf = λ i. if i == 126 then 104 else if i == 127 then 105 else if i == 0 then 10 else 120;
  r = 2 ^ 32 - 2;
  w = 1;
  e = 2;
}

typed-IsConsole : IsConsole typed
typed-IsConsole = record {
  read_small = omega arith;
  write_small = omega arith;
  edit_small = omega arith;
  room = omega arith;
  open_line = λ i l. ground arith;
}

-- ^U drops the "x".
kill_line : view (consoleintr 21 typed).0 ≡ (104 ∷ 105 ∷ 10 ∷ [], [])
unfolding consoleintr committed line ring
kill_line = refl

consoleintr-edit_example :
    IsConsole (consoleintr 13 typed).0 × (view (consoleintr 13 typed).0 ≡ edit 13 (view typed))
consoleintr-edit_example = consoleintr-edit 13 typed typed-IsConsole

consoleread-take_line_example :
    let r = consoleread (λ _. true) false 80 80 typed in
    IsConsole r.2
    × (line r.2 ≡ line typed)
    × ((r.0, r.1, committed r.2) ≡ take_line (λ _. true) false 80 80 (committed typed))
consoleread-take_line_example = consoleread-take_line (λ _. true) false 80 80 typed typed-IsConsole
