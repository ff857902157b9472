-- ===== src/Kernel/Uart/Output.antt =====
-- The output ring of xv6-riscv/kernel/uart.c as a queue.
use aca_riscv_secure_boot.Common.{
  ℕ, zero, suc, ◌+◌, ◌%◌, ◌^◌, ◌≡◌, ◌<◌, ◌≤◌, ◌⊎◌, refl, ap, ap₂, ◌∙◌, sym, Bool, true, false,
  Bool-cases, inl, inr, arith, ◌==◌, if◌then◌else◌, append_assoc, append-nil, List, [], ◌∷◌, ◌++◌,
}
use aca_riscv_secure_boot.Common.Ring.{ring, ring_ext, ring_snoc}
use aca_riscv_secure_boot.Kernel.Outcome.{ok, sleep}
use aca_riscv_secure_boot.Kernel.Uart.{Uart, waiting, start_loop, uartstart, uartputc}

unfoldable pub queue : Uart → List ℕ
queue s = ring 32 s.tx_buf s.tx_r (waiting s)

pub record IsUart (s : Uart) : Type 0 where
  pub write_small : s.tx_w < 2 ^ 64
  pub read_small : s.tx_r < 2 ^ 64
  pub room : waiting s ≤ 32

-- What `uartstart` leaves: the sent bytes came from the front of the queue.
pub record Started (s s' : Uart) : Type 0 where
  pub sound : IsUart s'
  pub moved : s'.thr ++ queue s' ≡ s.thr ++ queue s

module _ (s : Uart) (fine : IsUart s) where
  abbrev sent_one : Uart
  sent_one = record s { tx_r = (s.tx_r + 1) % 2 ^ 64; thr = s.thr ++ s.tx_buf (s.tx_r % 32) ∷ [] }

  module _ (some_ : (s.tx_w == s.tx_r) ≡ false) where
    shrunk : waiting s ≡ suc (waiting sent_one)
    shrunk = ground (arith, fine.read_small, fine.write_small)

    sent_one-IsUart : IsUart sent_one
    sent_one-IsUart = record {
      write_small = fine.write_small;
      read_small = omega arith;
      room = omega (arith, shrunk, fine.room);
    }

    queue-sent_one : queue s ≡ s.tx_buf (s.tx_r % 32) ∷ queue sent_one
    unfolding queue ring
    queue-sent_one =
        ap (ring 32 s.tx_buf s.tx_r) shrunk
        ∙ ap (λ t. s.tx_buf (s.tx_r % 32) ∷ t)
            (ring_ext 32 s.tx_buf s.tx_buf (s.tx_r + 1) sent_one.tx_r (waiting sent_one)
              (λ i l. ap s.tx_buf (omega arith)))

start_loop-Started :
    (idle : ℕ → Bool) (left i : ℕ) (s : Uart) → IsUart s → Started s (start_loop idle left i s)
unfolding start_loop
start_loop-Started idle zero i s fine = record { sound = fine; moved = refl }
start_loop-Started idle (suc left) i s fine = elim (Bool-cases (s.tx_w == s.tx_r)) [
  | inl none ↦ rw none (record { sound = fine; moved = refl })
  | inr some ↦ elim (Bool-cases (idle i)) [
    | inl t ↦
        let rest =
          start_loop-Started idle left (i + 1) (sent_one s fine) (sent_one-IsUart s fine some) in
        rw (some, t)
          (record {
            sound = rest.sound;
            moved =
                rest.moved
                ∙ append_assoc s.thr (s.tx_buf (s.tx_r % 32) ∷ []) (queue (sent_one s fine))
                ∙ ap (λ t. s.thr ++ t) (sym (queue-sent_one s fine some));
          })
    | inr t ↦ rw (some, t) (record { sound = fine; moved = refl })
  ]
]

-- A device that takes every byte.
start_loop_drains :
    (left i : ℕ) (s : Uart)
    → IsUart s
    → left ≡ waiting s
    → waiting (start_loop (λ _. true) left i s) ≡ 0
unfolding start_loop
start_loop_drains zero i s fine h = omega arith
start_loop_drains (suc left) i s fine h =
    let some : (s.tx_w == s.tx_r) ≡ false = ground (arith, fine.write_small) in
    rw some (
      start_loop_drains left (i + 1) (sent_one s fine) (sent_one-IsUart s fine some)
        (omega (arith, shrunk s fine some)))

uartstart-Started : (idle : ℕ → Bool) (s : Uart) → IsUart s → Started s (uartstart idle s)
unfolding uartstart
uartstart-Started idle s fine = start_loop-Started idle (waiting s) 0 s fine

queue_none : (s : Uart) → waiting s ≡ 0 → queue s ≡ []
unfolding queue ring
queue_none s h = rw h refl

-- If the device takes every byte, `uartstart` sends all that wait, in their order.
pub uartstart_drains :
    (s : Uart)
    → IsUart s
    → (waiting (uartstart (λ _. true) s) ≡ 0) × ((uartstart (λ _. true) s).thr ≡ s.thr ++ queue s)
uartstart_drains s fine =
    let done = uartstart-Started (λ _. true) s fine in
    let empty : waiting (uartstart (λ _. true) s) ≡ 0 =
      unfold uartstart in start_loop_drains (waiting s) 0 s fine refl in
    (
      empty,
      sym (append-nil _)
          ∙ ap (λ t. (uartstart (λ _. true) s).thr ++ t)
              (sym (queue_none (uartstart (λ _. true) s) empty))
          ∙ done.moved,
    )

-- `uartputc` sleeps just on a full buffer. Otherwise its byte is the last of those that were sent and
-- those that wait.
uartputc-queued :
    (idle : ℕ → Bool) (c : ℕ) (s : Uart)
    → IsUart s
    → ((waiting s ≡ 32) × (uartputc idle c s ≡ sleep))
      ⊎ ((s' : Uart) × (uartputc idle c s ≡ ok s')
          × IsUart s'
          × (s'.thr ++ queue s' ≡ s.thr ++ queue s ++ c ∷ []))
unfolding uartputc
uartputc-queued idle c s fine = elim (Bool-cases (s.tx_w == (s.tx_r + 32) % 2 ^ 64)) [
  | inl t ↦ inl (ground (arith, fine.read_small, fine.write_small), rw t refl)
  | inr t ↦
      let free : waiting s < 32 = ground (arith, fine.read_small, fine.write_small, fine.room) in
      let grown : waiting stored ≡ suc (waiting s) =
        omega (arith, fine.read_small, fine.write_small) in
      let sound : IsUart stored = record {
        write_small = omega arith;
        read_small = fine.read_small;
        room = omega (arith, grown);
      } in
      let done = uartstart-Started idle stored sound in
      let put : queue stored ≡ queue s ++ c ∷ [] =
        unfold queue in
        ap (ring 32 stored.tx_buf s.tx_r) grown
        ∙ ring_snoc 32 stored.tx_buf s.tx_r (waiting s)
        ∙ ap₂ (λ t x. t ++ x ∷ [])
            (ring_ext 32 stored.tx_buf s.tx_buf s.tx_r s.tx_r (waiting s)
              (λ i l. ground (arith, fine.read_small, fine.write_small)))
            (ground (arith, fine.read_small, fine.write_small)) in
      inr (
        uartstart idle stored,
        rw t refl,
        done.sound,
        done.moved ∙ ap (λ q. s.thr ++ q) put ∙ sym (append_assoc s.thr (queue s) (c ∷ [])),
      )
]
  where
    stored : Uart
    stored = record s {
      tx_buf = λ x. if x == s.tx_w % 32 then c else s.tx_buf x;
      tx_w = (s.tx_w + 1) % 2 ^ 64;
    }
