-- ===== src/Kernel/Pipe/Examples.antt =====
-- Tests of a pipe, and its theorems at concrete calls.
use aca_riscv_secure_boot.Common.{
  ℕ, ◌+◌, ◌≡◌, ◌≤◌, ◌⊎◌, refl, ◌==◌, Bool, true, false, ◌&&◌, arith, ltb, if◌then◌else◌, Option,
  none, some, List, [], ◌∷◌, ◌++◌, length,
}
use mathlib.Core.List.{Sublistᴰ}
use aca_riscv_secure_boot.Common.Ring.{ring}
use aca_riscv_secure_boot.Common.Int.{pos, negsuc}
use aca_riscv_secure_boot.Kernel.Pipe.{Pipe, is_empty, pipewrite, piperead, pipealloc}
use aca_riscv_secure_boot.Kernel.Outcome.{returned, asleep}
use aca_riscv_secure_boot.Kernel.Pipe.Queue.{contents, IsPipe}
use aca_riscv_secure_boot.Kernel.Pipe.Write.{Wrote, pipewrite-Wrote}
use aca_riscv_secure_boot.Kernel.Pipe.Transfer.{ReadFrom, piperead-ReadFrom}
use aca_riscv_secure_boot.Kernel.Pipe.Fifo.{
  History, taken, write, read, faulty_read, fresh, next, pipe_fifo,
}

-- Three bytes, and then memory that cannot be read.
abbrev hello : ℕ → Option ℕ
hello i = if ltb i 3 then some (i + 97) else none

abbrev never : ℕ → Bool
never i = false

-- An empty pipe with both counters about to wrap.
abbrev worn : Pipe
worn = record {
  data_at = λ _. 0;
  nread = 0xffffffff;
  nwrite = 0xffffffff;
  readopen = true;
  writeopen = true;
}

worn-IsPipe : IsPipe worn
worn-IsPipe = record { read_small = omega arith; write_small = omega arith; room = omega arith }

-- The bytes come out as they went in, across the wrap.
round_trip :
    (piperead (λ _. true) false 10 (pipewrite hello never 3 0 worn).2).1 ≡ 97 ∷ 98 ∷ 99 ∷ []
unfolding pipewrite piperead
round_trip = refl

-- Killed before the third byte, `pipewrite` returns -1, with two bytes in the pipe.
killed_late : (pipewrite hello (λ i. i == 2) 3 0 worn).0 ≡ returned (negsuc 0)
unfolding pipewrite
killed_late = refl

killed_late-contents : contents (pipewrite hello (λ i. i == 2) 3 0 worn).2 ≡ 97 ∷ 98 ∷ []
unfolding pipewrite contents ring
killed_late-contents = refl

pipewrite-Wrote_example :
    Wrote hello (λ i. i == 2) 5 0 worn (pipewrite hello (λ i. i == 2) 5 0 worn)
pipewrite-Wrote_example = pipewrite-Wrote hello (λ i. i == 2) 5 0 worn worn-IsPipe

piperead-ReadFrom_example :
    (((is_empty worn && worn.writeopen) ≡ true)
      × (piperead (λ _. true) true 4 worn
          ≡ ((if true then returned (negsuc 0) else asleep 0), [], worn)))
    ⊎ (((is_empty worn && worn.writeopen) ≡ false)
        × ((r : ℕ × List ℕ × Pipe) × (piperead (λ _. true) true 4 worn
              ≡ (returned (pos r.0), r.1, r.2))
            × ReadFrom (λ _. true) 4 0 [] worn r))
piperead-ReadFrom_example = piperead-ReadFrom (λ _. true) true 4 worn worn-IsPipe

abbrev fresh_pipe : Pipe
fresh_pipe = pipealloc (λ _. 5)

-- A write, a read, and a read whose second `copyout` fails.
abbrev written : History
written = record {
  pipe = (pipewrite hello never 3 0 fresh_pipe).2;
  sent = [] ++ taken hello 0 (pipewrite hello never 3 0 fresh_pipe);
  got = [];
  faults = 0;
}

abbrev read_back : History
read_back = record {
  pipe = (piperead (λ _. true) false 1 written.pipe).2;
  sent = written.sent;
  got = [] ++ (piperead (λ _. true) false 1 written.pipe).1;
  faults = 0;
}

abbrev failed : History
failed = record {
  pipe = (piperead (λ i. ltb i 1) false 2 read_back.pipe).2;
  sent = written.sent;
  got = read_back.got ++ (piperead (λ i. ltb i 1) false 2 read_back.pipe).1;
  faults = 1;
}

pipe_fifo_example :
    ((left_ : List ℕ) × (failed.sent ≡ left_ ++ contents failed.pipe)
      × Sublistᴰ failed.got left_
      × (length left_ ≤ length failed.got + failed.faults)
      × (failed.faults ≡ 0 → failed.got ≡ left_))
    × (length (contents failed.pipe) ≤ 512)
pipe_fifo_example = pipe_fifo {h = failed} (
    next (next (next fresh (write hello never 3 0)) (read false 1))
      (faulty_read (λ i. ltb i 1) false 2))
