-- ===== src/Kernel/Pipe/Queue.antt =====
-- The ring of xv6-riscv/kernel/pipe.c as a queue of bytes. The two counters wrap at 2 ^ 32, which
-- `PIPESIZE` divides.
use aca_riscv_secure_boot.Common.{
  ℕ, suc, ◌+◌, ◌-◌, ◌%◌, ◌^◌, ◌≡◌, ◌<◌, ◌≤◌, ap, ap₂, ◌∙◌, true, false, arith, length, List, [],
  ◌∷◌, ◌++◌,
}
use aca_riscv_secure_boot.Common.Ring.{ring, length-ring, ring_ext, ring_snoc}
use aca_riscv_secure_boot.Kernel.Pipe.{Pipe, is_full, is_empty, put_byte, get_byte}

-- How many bytes wait.
abbrev pub count : Pipe → ℕ
count p = (p.nwrite + 2 ^ 32 - p.nread) % 2 ^ 32

-- The bytes that wait, the oldest first.
unfoldable pub contents : Pipe → List ℕ
unfolding ring
contents p = ring 512 p.data_at p.nread (count p)

pub record IsPipe (p : Pipe) : Type 0 where
  pub read_small : p.nread < 2 ^ 32
  pub write_small : p.nwrite < 2 ^ 32
  pub room : count p ≤ 512

pub length-contents : (p : Pipe) → length (contents p) ≡ count p
unfolding contents
length-contents p = length-ring 512 p.data_at p.nread (count p)

pub is_full_iff : (p : Pipe) → IsPipe p → is_full p ≡ true → count p ≡ 512
unfolding is_full
is_full_iff p ok h = ground (arith, ok.read_small, ok.write_small)

pub not_full : (p : Pipe) → IsPipe p → is_full p ≡ false → count p < 512
unfolding is_full
not_full p ok h = ground (arith, ok.read_small, ok.write_small, ok.room)

pub is_empty_lem : (p : Pipe) → IsPipe p → is_empty p ≡ true → count p ≡ 0
unfolding is_empty
is_empty_lem p ok h = ground (arith, ok.read_small, ok.write_small)

pub not_empty : (p : Pipe) → IsPipe p → is_empty p ≡ false → 0 < count p
unfolding is_empty
not_empty p ok h = ground (arith, ok.read_small, ok.write_small)

-- A byte put into a pipe that is not full goes to the end of the queue.
pub put_byte-IsPipe : (ch : ℕ) (p : Pipe) → IsPipe p → count p < 512 → IsPipe (put_byte ch p)
unfolding put_byte
put_byte-IsPipe ch p ok h = record {
  read_small = ok.read_small;
  write_small = omega arith;
  room = omega (arith, ok.read_small, ok.write_small);
}

pub contents-put_byte :
    (ch : ℕ) (p : Pipe)
    → IsPipe p
    → count p < 512
    → contents (put_byte ch p) ≡ contents p ++ ch ∷ []
unfolding put_byte contents
contents-put_byte ch p ok h =
    ap (ring 512 (put_byte ch p).data_at p.nread) grown
    ∙ ring_snoc 512 (put_byte ch p).data_at p.nread (count p)
    ∙ ap₂ ◌++◌
        (ring_ext 512 (put_byte ch p).data_at p.data_at p.nread p.nread (count p)
          (λ i l. ground (arith, ok.read_small, ok.write_small)))
        (ap (λ c. c ∷ []) (ground (arith, ok.read_small, ok.write_small)))
  where
    grown : count (put_byte ch p) ≡ suc (count p)
    grown = omega (arith, ok.read_small, ok.write_small)

pub get_byte-IsPipe : (p : Pipe) → IsPipe p → 0 < count p → IsPipe (get_byte p).1
unfolding get_byte
get_byte-IsPipe p ok h = record {
  read_small = omega arith;
  write_small = ok.write_small;
  room = omega (arith, ok.read_small, ok.write_small, ok.room);
}

-- A byte got from a pipe that is not empty is the first of the queue.
pub contents-get_byte :
    (p : Pipe) → IsPipe p → 0 < count p → contents p ≡ (get_byte p).0 ∷ contents (get_byte p).1
unfolding get_byte contents ring
contents-get_byte p ok h =
    ap (ring 512 p.data_at p.nread) shrunk
    ∙ ap (λ t. p.data_at (p.nread % 512) ∷ t)
        (ring_ext 512 p.data_at p.data_at (p.nread + 1) ((p.nread + 1) % 2 ^ 32)
          (count (get_byte p).1) (λ i l. ap p.data_at (omega arith)))
  where
    shrunk : count p ≡ suc (count (get_byte p).1)
    shrunk = omega (arith, ok.read_small, ok.write_small)
