-- ===== src/Kernel/Pipe/Transfer.antt =====
-- `piperead` of xv6-riscv/kernel/pipe.c as an operation on the queue of bytes.
use aca_riscv_secure_boot.Common.{
  ℕ, zero, suc, ◌+◌, ◌≡◌, ◌<◌, ◌⊎◌, inl, inr, refl, ap, ◌∙◌, sym, Bool, true, false, ◌&&◌,
  Bool-cases, arith, if◌then◌else◌, List, [], ◌∷◌, ◌++◌, length, append_assoc, append-nil,
}
use aca_riscv_secure_boot.Common.Int.{pos, negsuc}
use aca_riscv_secure_boot.Kernel.Pipe.{Pipe, is_empty, get_byte, read_loop, piperead}
use aca_riscv_secure_boot.Kernel.Outcome.{returned, asleep}
use aca_riscv_secure_boot.Kernel.Pipe.Queue.{
  count, contents, IsPipe, is_empty_lem, not_empty, get_byte-IsPipe, contents-get_byte,
}

-- The bytes `out` left the front of the queue, and at most one more that could not be stored.
pub record ReadFrom (to : ℕ → Bool) (left i : ℕ) (out : List ℕ) (p : Pipe) (r : ℕ × List ℕ × Pipe)
    : Type 0 where
  pub stored : List ℕ
  pub lost : List ℕ
  pub number : r.0 ≡ i + length stored
  pub output : r.1 ≡ out ++ stored
  pub sound : IsPipe r.2
  pub queue : contents p ≡ stored ++ lost ++ contents r.2
  pub stopped :
      ((lost ≡ []) × ((length stored ≡ left) ⊎ (count r.2 ≡ 0)))
      ⊎ ((length lost ≡ 1) × (to (i + length stored) ≡ false))

read_none :
    (to : ℕ → Bool) (left i : ℕ) (out : List ℕ) (p : Pipe)
    → IsPipe p
    → (0 ≡ left) ⊎ (count p ≡ 0)
    → ReadFrom to left i out p (i, out, p)
read_none to left i out p ok end = record {
  stored = [];
  lost = [];
  number = omega arith;
  output = sym (append-nil out);
  sound = ok;
  queue = refl;
  stopped = inl (refl, end);
}

module _ (to : ℕ → Bool) (left i : ℕ) (out : List ℕ) (p : Pipe) where
  read_drained : is_empty p ≡ true → read_loop to (suc left) i out p ≡ (i, out, p)
  unfolding read_loop
  read_drained e = rw e

  read_next :
      is_empty p ≡ false
      → to i ≡ true
      → read_loop to (suc left) i out p
        ≡ read_loop to left (i + 1) (out ++ (get_byte p).0 ∷ []) (get_byte p).1
  unfolding read_loop
  read_next e t = rw (e, t)

  read_fault :
      is_empty p ≡ false → to i ≡ false → read_loop to (suc left) i out p ≡ (i, out, (get_byte p).1)
  unfolding read_loop
  read_fault e t = rw (e, t)

ReadFrom-more :
    {to : ℕ → Bool} {left i : ℕ} {out : List ℕ} {p : Pipe} {r : ℕ × List ℕ × Pipe}
    → IsPipe p
    → 0 < count p
    → ReadFrom to left (i + 1) (out ++ (get_byte p).0 ∷ []) (get_byte p).1 r
    → ReadFrom to (suc left) i out p r
ReadFrom-more {to} {left} {i} {out} {p} {r} ok some_ w =
    let shift : i + 1 + length w.stored ≡ i + length ((get_byte p).0 ∷ w.stored) = omega arith in
    record {
      stored = (get_byte p).0 ∷ w.stored;
      lost = w.lost;
      number = w.number ∙ shift;
      output = w.output ∙ append_assoc out ((get_byte p).0 ∷ []) w.stored;
      sound = w.sound;
      queue = contents-get_byte p ok some_ ∙ ap (λ t. (get_byte p).0 ∷ t) w.queue;
      stopped = elim w.stopped [
        | inl (none_lost, inl last) ↦ inl (none_lost, inl (omega arith))
        | inl (none_lost, inr drained) ↦ inl (none_lost, inr drained)
        | inr (one, bad) ↦ inr (one, rw shift at bad)
      ];
    }

read_loop-ReadFrom :
    (to : ℕ → Bool) (left i : ℕ) (out : List ℕ) (p : Pipe)
    → IsPipe p
    → ReadFrom to left i out p (read_loop to left i out p)
read_loop-ReadFrom to zero i out p ok = unfold read_loop in read_none to 0 i out p ok (inl refl)
read_loop-ReadFrom to (suc left) i out p ok = elim (Bool-cases (is_empty p)) [
  | inl e ↦
      rw (read_drained to left i out p e)
        (read_none to (suc left) i out p ok (inr (is_empty_lem p ok e)))
  | inr e ↦ elim (Bool-cases (to i)) [
    | inl t ↦ rw (read_next to left i out p e t) (
        ReadFrom-more ok (not_empty p ok e) (
          read_loop-ReadFrom to left (i + 1) (out ++ (get_byte p).0 ∷ []) (get_byte p).1
            (get_byte-IsPipe p ok (not_empty p ok e))))
    | inr t ↦
        let here : i ≡ i + 0 = omega arith in
        rw (read_fault to left i out p e t) record {
          stored = [];
          lost = (get_byte p).0 ∷ [];
          number = here;
          output = sym (append-nil out);
          sound = get_byte-IsPipe p ok (not_empty p ok e);
          queue = contents-get_byte p ok (not_empty p ok e);
          stopped = inr (refl, rw here at t);
        }
  ]
]

-- `piperead` always ends. On an empty pipe that has a writer it sleeps, or returns -1 if the process
-- is killed. Otherwise it returns the number of bytes it stored: these were the first of the queue,
-- in their order, and one more is lost just if `copyout` failed on it.
pub piperead-ReadFrom :
    (to : ℕ → Bool) (killed : Bool) (n : ℕ) (p : Pipe)
    → IsPipe p
    → (((is_empty p && p.writeopen) ≡ true)
        × (piperead to killed n p ≡ ((if killed then returned (negsuc 0) else asleep 0), [], p)))
      ⊎ (((is_empty p && p.writeopen) ≡ false)
          × ((r : ℕ × List ℕ × Pipe) × (piperead to killed n p ≡ (returned (pos r.0), r.1, r.2))
              × ReadFrom to n 0 [] p r))
unfolding piperead
piperead-ReadFrom to killed n p ok = elim (Bool-cases (is_empty p && p.writeopen)) [
  | inl t ↦ inl (t, rw t (elim (Bool-cases killed) [ inl k ↦ rw k | inr k ↦ rw k ]))
  | inr t ↦ inr (t, (read_loop to n 0 [] p, rw t refl, read_loop-ReadFrom to n 0 [] p ok))
]
