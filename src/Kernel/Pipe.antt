-- ===== src/Kernel/Pipe.antt =====
-- xv6-riscv/kernel/pipe.c: the ring of a pipe and the calls on it, from `acquire` to the first
-- `release` or `sleep`. What `copyin` and `copyout` do to the user's memory is an argument.
pub mod Queue
pub mod Transfer
pub mod Write
pub mod Fifo
mod Examples
use aca_riscv_secure_boot.Common.{
  ℕ, zero, suc, ◌+◌, ◌%◌, Bool, true, false, not, ◌&&◌, ◌||◌, ◌==◌, if◌then◌else◌, Option, none,
  some, List, [], ◌∷◌, ◌++◌,
}
use aca_riscv_secure_boot.Common.Int.{ℤ, pos, negsuc}
use aca_riscv_secure_boot.Kernel.Outcome.{Ending, returned, asleep}
use aca_riscv_secure_boot.Common.Word.{u32}

-- `PIPESIZE`
abbrev pub pipe_size : ℕ
pipe_size = 512

-- `struct pipe` behind its lock; `data` as a function of the index.
pub record Pipe : Type 0 where
  pub data_at : ℕ → ℕ
  pub nread : ℕ
  pub nwrite : ℕ
  pub readopen : Bool
  pub writeopen : Bool

-- The fields as `pipealloc` sets them; the page of `kalloc` brings `data`.
pub pipealloc : (ℕ → ℕ) → Pipe
pipealloc junk = record { data_at = junk; nread = 0; nwrite = 0; readopen = true; writeopen = true }

-- `pipeclose`: the pipe, and whether its page is freed.
pub pipeclose : Bool → Pipe → Pipe × Bool
pipeclose writable p =
    let closed =
      if writable then record p { writeopen = false } else record p { readopen = false } in
    (closed, not closed.readopen && not closed.writeopen)

pub is_full : Pipe → Bool
is_full p = p.nwrite == u32 (p.nread + pipe_size)

pub is_empty : Pipe → Bool
is_empty p = p.nread == p.nwrite

-- `pi->data[pi->nwrite++ % PIPESIZE] = ch`
pub put_byte : ℕ → Pipe → Pipe
put_byte ch p = record p {
  data_at = λ x. if x == p.nwrite % pipe_size then ch else p.data_at x;
  nwrite = u32 (p.nwrite + 1);
}

-- `pi->data[pi->nread++ % PIPESIZE]`
pub get_byte : Pipe → ℕ × Pipe
get_byte p = (p.data_at (p.nread % pipe_size), record p { nread = u32 (p.nread + 1) })

-- The loop of `pipewrite` from byte `i` on, with `left` bytes to go: how it ends, and the `i` it has
-- reached. `from i` is the byte that `copyin` reads at `addr + i`, if it can, and `killed i` is what
-- `killed(pr)` answers before byte `i`: `kill` does not wait for the lock of the pipe.
pub pipewrite : (ℕ → Option ℕ) → (ℕ → Bool) → ℕ → ℕ → Pipe → Ending × ℕ × Pipe
unfolding is_full put_byte
pipewrite from killed zero i p = (returned (pos i), i, p)
pipewrite from killed (suc left) i p =
    if not p.readopen || killed i
    then (returned (negsuc 0), i, p)
    else if is_full p
    then (asleep i, i, p)
    else elim (from i) [
      | none ↦ (returned (pos i), i, p)
      | some ch ↦ pipewrite from killed left (i + 1) (put_byte ch p)
    ]

-- The second loop of `piperead`, with the bytes that `copyout` has stored. `to i` tells whether it
-- can store at `addr + i`; a byte that it cannot store is taken all the same.
pub read_loop : (ℕ → Bool) → ℕ → ℕ → List ℕ → Pipe → ℕ × List ℕ × Pipe
unfolding is_empty get_byte
read_loop to zero i out p = (i, out, p)
read_loop to (suc left) i out p =
    if is_empty p
    then (i, out, p)
    else let (ch, next) = get_byte p in
      let rest = read_loop to left (i + 1) (out ++ ch ∷ []) next in
      if to i then rest else (i, out, next)

-- `piperead` of `n` bytes: how it ends, the bytes it stored, and the pipe.
pub piperead : (ℕ → Bool) → Bool → ℕ → Pipe → Ending × List ℕ × Pipe
unfolding is_empty read_loop
piperead to killed n p =
    if is_empty p && p.writeopen
    then (if killed then (returned (negsuc 0), [], p) else (asleep 0, [], p))
    else let (i, out, after) = read_loop to n 0 [] p in (returned (pos i), out, after)
