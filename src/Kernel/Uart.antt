-- ===== src/Kernel/Uart.antt =====
-- xv6-riscv/kernel/uart.c: the output ring and the interrupt of the serial port. What the device
-- answers is an argument: whether it takes a byte, and the bytes it has received.
pub mod Output
pub mod Input
mod Examples
use aca_riscv_secure_boot.Common.{
  ℕ, zero, suc, ◌+◌, ◌-◌, ◌%◌, ◌^◌, Bool, true, false, ◌==◌, if◌then◌else◌, List, [], ◌∷◌, ◌++◌,
}
use aca_riscv_secure_boot.Common.Word.{u64}
use aca_riscv_secure_boot.Kernel.Outcome.{Outcome, ok, sleep}
use aca_riscv_secure_boot.Kernel.Console.{Console, consoleintr}

-- `UART_TX_BUF_SIZE`
abbrev pub uart_tx_buf_size : ℕ
uart_tx_buf_size = 32

-- `uart_tx_buf`, its two counters, and all bytes that were written to `THR`.
pub record Uart : Type 0 where
  pub tx_buf : ℕ → ℕ
  pub tx_w : ℕ
  pub tx_r : ℕ
  pub thr : List ℕ

-- How many bytes wait, as the difference of the counters.
abbrev pub waiting : Uart → ℕ
waiting s = (s.tx_w + 2 ^ 64 - s.tx_r) % 2 ^ 64

-- The loop of `uartstart`, with `left` passes for the bytes that wait. `idle i` is the `LSR_TX_IDLE`
-- bit at the poll `i`.
pub start_loop : (ℕ → Bool) → ℕ → ℕ → Uart → Uart
start_loop idle zero i s = s
start_loop idle (suc left) i s =
    let c = s.tx_buf (s.tx_r % uart_tx_buf_size) in
    let rest =
      start_loop idle left (i + 1) (record s { tx_r = u64 (s.tx_r + 1); thr = s.thr ++ c ∷ [] }) in
    if s.tx_w == s.tx_r then s else if idle i then rest else s

pub uartstart : (ℕ → Bool) → Uart → Uart
unfolding start_loop
uartstart idle s = start_loop idle (waiting s) 0 s

-- One pass of the loop of `uartputc`: asleep on a full buffer, or done. `panicked` is not set.
pub uartputc : (ℕ → Bool) → ℕ → Uart → Outcome Uart
unfolding uartstart
uartputc idle c s =
    if s.tx_w == u64 (s.tx_r + uart_tx_buf_size)
    then sleep
    else ok (
        uartstart idle (record s {
          tx_buf = λ x. if x == s.tx_w % uart_tx_buf_size then c else s.tx_buf x;
          tx_w = u64 (s.tx_w + 1);
        }))

-- The loop of `uartintr`: `uartgetc` returns the bytes received, and then -1.
pub input_loop : List ℕ → Console → Console
input_loop [] cons = cons
input_loop (c ∷ received) cons = input_loop received (consoleintr c cons).0

pub uartintr : List ℕ → (ℕ → Bool) → Console × Uart → Console × Uart
unfolding input_loop uartstart
uartintr received idle (cons, s) = (input_loop received cons, uartstart idle s)
