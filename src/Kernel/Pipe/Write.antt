-- ===== src/Kernel/Pipe/Write.antt =====
-- `pipewrite` of xv6-riscv/kernel/pipe.c as an operation on the queue of bytes.
use aca_riscv_secure_boot.Common.{
  Option-cases, ℕ, zero, suc, ◌+◌, ◌≡◌, ◌<◌, ◌⊎◌, inl, inr, refl, ap, ◌∙◌, sym, Bool, true, false,
  not, ◌||◌, Bool-cases, arith, Option, none, some, List, [], ◌∷◌, ◌++◌, length, append_assoc,
  append-nil,
}
use aca_riscv_secure_boot.Common.Int.{pos, negsuc}
use aca_riscv_secure_boot.Kernel.Pipe.{Pipe, is_full, put_byte, pipewrite}
use aca_riscv_secure_boot.Kernel.Outcome.{Ending, returned, asleep}
use aca_riscv_secure_boot.Kernel.Pipe.Queue.{
  count, contents, IsPipe, not_full, is_full_iff, put_byte-IsPipe, contents-put_byte,
}

-- The `n` bytes of the user's buffer from `i` on, up to the first that cannot be read.
pub bytes : (ℕ → Option ℕ) → ℕ → ℕ → List ℕ
bytes from i zero = []
bytes from i (suc n) = elim (from i) [ none ↦ [] | some ch ↦ ch ∷ bytes from (i + 1) n ]

-- What `pipewrite` tests before byte `i`.
abbrev pub is_refused : (ℕ → Bool) → Pipe → ℕ → Bool
is_refused killed p i = not p.readopen || killed i

-- `done` of `left` bytes went to the end of the queue, before each of which the pipe had a reader and
-- the process was not killed. If bytes are left then, the pipe has no reader or the process is
-- killed, and the call returns -1; or the pipe is full, and it sleeps; or the next byte cannot be
-- read, and it returns.
pub record Wrote (from : ℕ → Option ℕ) (killed : ℕ → Bool) (left i : ℕ) (p : Pipe)
    (r : Ending × ℕ × Pipe) : Type 0 where
  pub done : ℕ
  pub sound : IsPipe r.2
  pub queue : contents r.2 ≡ contents p ++ bytes from i done
  pub all : length (bytes from i done) ≡ done
  pub reached : r.1 ≡ i + done
  pub live : (j : ℕ) → j < done → is_refused killed p (i + j) ≡ false
  pub ended :
      ((done ≡ left) × (r.0 ≡ returned (pos (i + done))))
      ⊎ ((done < left)
          × (((is_refused killed p (i + done) ≡ true) × (r.0 ≡ returned (negsuc 0)))
              ⊎ ((is_refused killed p (i + done) ≡ false)
                  × (((count r.2 ≡ 512) × (r.0 ≡ asleep (i + done)))
                      ⊎ ((count r.2 < 512)
                          × (from (i + done) ≡ none)
                          × (r.0 ≡ returned (pos (i + done))))))))

bytes_more :
    (from : ℕ → Option ℕ) (i n ch : ℕ)
    → from i ≡ some ch
    → bytes from i (suc n) ≡ ch ∷ bytes from (i + 1) n
unfolding bytes
bytes_more from i n ch e = rw (bytes, e) refl

first_live :
    (killed : ℕ → Bool) (i done : ℕ) (p : Pipe)
    → is_refused killed p i ≡ false
    → ((j : ℕ) → j < done → is_refused killed p (i + 1 + j) ≡ false)
    → (j : ℕ) → j < suc done
    → is_refused killed p (i + j) ≡ false
first_live killed i done p alive rest zero l =
    let here : i ≡ i + 0 = omega arith in rw here at alive
first_live killed i done p alive rest (suc j) l =
    let shift : i + 1 + j ≡ i + suc j = omega arith in rw shift at (rest j (omega arith))

Wrote-more :
    {from : ℕ → Option ℕ} {killed : ℕ → Bool} {left i ch : ℕ} {p : Pipe} {r : Ending × ℕ × Pipe}
    → from i ≡ some ch
    → IsPipe p
    → count p < 512
    → is_refused killed p i ≡ false
    → Wrote from killed left (i + 1) (put_byte ch p) r
    → Wrote from killed (suc left) i p r
unfolding put_byte
Wrote-more {from} {killed} {left} {i} {ch} {p} {r} e ok room alive w =
    let shift : i + 1 + w.done ≡ i + suc w.done = omega arith in
    record {
      done = suc w.done;
      sound = w.sound;
      queue =
          w.queue
          ∙ ap (λ q. q ++ bytes from (i + 1) w.done) (contents-put_byte ch p ok room)
          ∙ append_assoc (contents p) (ch ∷ []) (bytes from (i + 1) w.done)
          ∙ ap (λ t. contents p ++ t) (sym (bytes_more from i w.done ch e));
      all = ap length (bytes_more from i w.done ch e) ∙ omega (arith, w.all);
      reached = w.reached ∙ shift;
      live = first_live killed i w.done p alive w.live;
      ended = elim w.ended [
        | inl (last, back) ↦ inl (omega arith, rw shift at back)
        | inr (l, inl (dead, back)) ↦ inr (omega arith, inl (rw shift at dead, back))
        | inr (l, inr (go, inl (full, sleeps))) ↦
            inr (omega arith, inr (rw shift at go, inl (full, rw shift at sleeps)))
        | inr (l, inr (go, inr (free, bad, back))) ↦
            inr (omega arith, inr (rw shift at go, inr (free, rw shift at bad, rw shift at back)))
      ];
    }

module _ (from : ℕ → Option ℕ) (killed : ℕ → Bool) (left i : ℕ) (p : Pipe) where
  write_refused :
      is_refused killed p i ≡ true
      → pipewrite from killed (suc left) i p ≡ (returned (negsuc 0), i, p)
  unfolding pipewrite
  write_refused dead = rw dead

  module _ (live : is_refused killed p i ≡ false) where
    write_full : is_full p ≡ true → pipewrite from killed (suc left) i p ≡ (asleep i, i, p)
    unfolding pipewrite
    write_full full = rw (live, full)

    write_fault :
        is_full p ≡ false
        → from i ≡ none
        → pipewrite from killed (suc left) i p ≡ (returned (pos i), i, p)
    unfolding pipewrite
    write_fault room e = rw (live, room, e)

    write_next :
        (ch : ℕ)
        → is_full p ≡ false
        → from i ≡ some ch
        → pipewrite from killed (suc left) i p ≡ pipewrite from killed left (i + 1) (put_byte ch p)
    unfolding pipewrite
    write_next ch room e = rw (live, room, e)

-- The call ends at once.
Wrote-none :
    (from : ℕ → Option ℕ) (killed : ℕ → Bool) (left i : ℕ) (p : Pipe) (e : Ending)
    → IsPipe p
    → ((0 ≡ left) × (e ≡ returned (pos i)))
      ⊎ ((0 < left)
          × (((is_refused killed p i ≡ true) × (e ≡ returned (negsuc 0)))
              ⊎ ((is_refused killed p i ≡ false)
                  × (((count p ≡ 512) × (e ≡ asleep i))
                      ⊎ ((count p < 512) × (from i ≡ none) × (e ≡ returned (pos i)))))))
    → Wrote from killed left i p (e, i, p)
unfolding bytes
Wrote-none from killed left i p e ok ended =
    let here : i ≡ i + 0 = omega arith in
    record {
      done = 0;
      sound = ok;
      queue = sym (append-nil (contents p));
      all = omega arith;
      reached = here;
      live = λ j l. absurd (omega arith);
      ended = rw (← here) ended;
    }

-- `pipewrite` always ends. The bytes that it took, in their order, are behind those that waited
-- before, and none is lost; before each of them the pipe had a reader and the process was not
-- killed. It returns after the last byte. With bytes left it returns -1 if the pipe has no reader or
-- the process is killed, though bytes may have been taken by then; if not, it sleeps on a full pipe,
-- and else returns before a byte that cannot be read.
pub pipewrite-Wrote :
    (from : ℕ → Option ℕ) (killed : ℕ → Bool) (left i : ℕ) (p : Pipe)
    → IsPipe p
    → Wrote from killed left i p (pipewrite from killed left i p)
pipewrite-Wrote from killed zero i p ok =
    unfold pipewrite in Wrote-none from killed 0 i p _ ok (inl (refl, refl))
pipewrite-Wrote from killed (suc left) i p ok = elim (Bool-cases (is_refused killed p i)) [
  | inl dead ↦
      rw (write_refused from killed left i p dead)
        (Wrote-none from killed (suc left) i p _ ok (inr (omega arith, inl (dead, refl))))
  | inr live ↦ elim (Bool-cases (is_full p)) [
    | inl full ↦ rw (write_full from killed left i p live full) (
        Wrote-none from killed (suc left) i p _ ok
          (inr (omega arith, inr (live, inl (is_full_iff p ok full, refl)))))
    | inr room ↦ elim (Option-cases (from i)) [
      | inl e ↦ rw (write_fault from killed left i p live room e) (
          Wrote-none from killed (suc left) i p _ ok
            (inr (omega arith, inr (live, inr (not_full p ok room, e, refl)))))
      | inr (ch, e) ↦ rw (write_next from killed left i p live ch room e) (
          Wrote-more e ok (not_full p ok room) live (
            pipewrite-Wrote from killed left (i + 1) (put_byte ch p)
              (put_byte-IsPipe ch p ok (not_full p ok room))))
    ]
  ]
]
