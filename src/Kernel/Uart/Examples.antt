-- ===== src/Kernel/Uart/Examples.antt =====
-- The theorems of the serial port at a concrete buffer.
use aca_riscv_secure_boot.Common.{◌+◌, ◌-◌, ◌^◌, ◌≡◌, refl, true, arith, [], ◌∷◌, ◌++◌}
use aca_riscv_secure_boot.Kernel.Uart.{Uart, waiting, uartstart}
use aca_riscv_secure_boot.Kernel.Uart.Output.{queue, IsUart, uartstart_drains}

-- Two bytes wait, and the counters are about to wrap.
abbrev two : Uart
two = record { tx_buf = λ i. i + 65; tx_w = 1; tx_r = 2 ^ 64 - 1; thr = 90 ∷ [] }

two-IsUart : IsUart two
two-IsUart = record { write_small = omega arith; read_small = omega arith; room = omega arith }

uartstart_drains_example :
    (waiting (uartstart (λ _. true) two) ≡ 0)
    × ((uartstart (λ _. true) two).thr ≡ two.thr ++ queue two)
uartstart_drains_example = uartstart_drains two two-IsUart

sent : (uartstart (λ _. true) two).thr ≡ 90 ∷ 96 ∷ 65 ∷ []
unfolding uartstart
sent = refl
