-- ===== src/Kernel/Uart/Input.antt =====
-- The input half of `uartintr` of xv6-riscv/kernel/uart.c.
use aca_riscv_secure_boot.Common.{ℕ, ◌≡◌, refl, ap, ◌∙◌, Bool, List, [], ◌∷◌}
use aca_riscv_secure_boot.Kernel.Console.{Console, consoleintr}
use aca_riscv_secure_boot.Kernel.Console.Editor.{IsConsole, view, edit, consoleintr-edit}
use aca_riscv_secure_boot.Kernel.Uart.{Uart, input_loop, uartintr}

-- The characters typed one after the other.
unfoldable pub edit_all : List ℕ → List ℕ × List ℕ → List ℕ × List ℕ
edit_all [] v = v
edit_all (c ∷ cs) v = edit_all cs (edit c v)

input_loop-edit_all :
    (received : List ℕ) (cons : Console)
    → IsConsole cons
    → IsConsole (input_loop received cons)
      × (view (input_loop received cons) ≡ edit_all received (view cons))
unfolding input_loop edit_all
input_loop-edit_all [] cons ok = (ok, refl)
input_loop-edit_all (c ∷ received) cons ok =
    let (ok', edited) = consoleintr-edit c cons ok in
    let (ok'', all) = input_loop-edit_all received (consoleintr c cons).0 ok' in
    (ok'', all ∙ ap (edit_all received) edited)

-- An interrupt with any number of characters in the device edits the line by all of them, in the
-- order in which they came.
uartintr-edit_all :
    (received : List ℕ) (idle : ℕ → Bool) (cons : Console) (s : Uart)
    → IsConsole cons
    → IsConsole (uartintr received idle (cons, s)).0
      × (view (uartintr received idle (cons, s)).0 ≡ edit_all received (view cons))
unfolding uartintr
uartintr-edit_all received idle cons s ok = input_loop-edit_all received cons ok
