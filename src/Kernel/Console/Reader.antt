-- ===== src/Kernel/Console/Reader.antt =====
-- `consoleread` of xv6-riscv/kernel/console.c on the queue of committed characters.
use aca_riscv_secure_boot.Common.{
  ℕ, zero, suc, ◌+◌, ◌-◌, ◌%◌, ◌^◌, ◌≡◌, refl, ap, ◌∙◌, Bool, true, false, not, Bool-cases, inl,
  inr, arith, ltb, ◌==◌, if◌then◌else◌, List, [], ◌∷◌,
}
use aca_riscv_secure_boot.Common.Int.{pos, negsuc}
use aca_riscv_secure_boot.Common.Ring.{ring, ring_ext}
use aca_riscv_secure_boot.Kernel.Outcome.{Ending, returned, asleep}
use aca_riscv_secure_boot.Kernel.Console.{Console, distance, consoleread}
use aca_riscv_secure_boot.Kernel.Console.Editor.{IsConsole, committed, line}

-- `left` of `target` characters from a queue: up to a newline, which is taken too, or to an
-- end-of-file, which is taken only if nothing was before it.
unfoldable pub take_line : (ℕ → Bool) → Bool → ℕ → ℕ → List ℕ → Ending × List ℕ × List ℕ
take_line to killed target zero queue = (returned (pos target), [], queue)
take_line to killed target (suc left) [] =
    ((if killed then returned (negsuc 0) else asleep (suc left)), [], [])
take_line to killed target (suc left) (c ∷ queue) =
    let (ending, out, rest) = take_line to killed target left queue in
    if c == 4
    then (
      returned (pos (target - suc left)),
      [],
      (if ltb (suc left) target then c ∷ queue else queue),
    )
    else if not (to (target - suc left))
    then (returned (pos (target - suc left)), [], queue)
    else if c == 10
    then (returned (pos (target - left)), c ∷ [], queue)
    else (ending, c ∷ out, rest)

module _ (s : Console) (ok : IsConsole s) where
  abbrev taken : Console
  taken = record s { r = (s.r + 1) % 2 ^ 32 }

  module _ (some_ : (s.r == s.w) ≡ false) where
    taken-IsConsole : IsConsole taken
    taken-IsConsole = record {
      read_small = omega arith;
      write_small = ok.write_small;
      edit_small = ok.edit_small;
      room = ground (arith, ok.read_small, ok.write_small, ok.room);
      open_line = ok.open_line;
    }

    committed-taken : committed s ≡ s.buf (s.r % 128) ∷ committed taken
    unfolding committed ring
    committed-taken =
        let shrunk : distance s.r s.w ≡ suc (distance taken.r s.w) =
          ground (arith, ok.read_small, ok.write_small) in
        ap (ring 128 s.buf s.r) shrunk
        ∙ ap (λ t. s.buf (s.r % 128) ∷ t)
            (ring_ext 128 s.buf s.buf (s.r + 1) taken.r (distance taken.r s.w)
              (λ i l. ap s.buf (omega arith)))

  committed_none : (s.r == s.w) ≡ true → committed s ≡ []
  unfolding committed ring
  committed_none h =
      let none : distance s.r s.w ≡ 0 = ground (arith, ok.write_small) in rw none refl

  put_back : record taken { r = (taken.r + 2 ^ 32 - 1) % 2 ^ 32 } ≡ s
  put_back = ap (λ (x : ℕ). record s { r = x }) (omega (arith, ok.read_small))

-- A run of `consoleread` with this end took what it took from the front of the queue.
record Read (s : Console) (expected : Ending × List ℕ × List ℕ) (r : Ending × List ℕ × Console)
    : Type 0 where
  sound : IsConsole r.2
  edited : line r.2 ≡ line s
  agrees : (r.0, r.1, committed r.2) ≡ expected

abbrev Tuple : Ending → List ℕ → List ℕ → Ending × List ℕ × List ℕ
Tuple e out rest = (e, out, rest)

consoleread-Read :
    (to : ℕ → Bool) (killed : Bool) (target left : ℕ) (s : Console)
    → IsConsole s
    → Read s (take_line to killed target left (committed s)) (consoleread to killed target left s)
unfolding consoleread take_line
consoleread-Read to killed target zero s ok = record { sound = ok; edited = refl; agrees = refl }
consoleread-Read to killed target (suc left) s ok = elim (Bool-cases (s.r == s.w)) [
  | inl none ↦
      rw (none, committed_none s ok none)
        record { sound = ok; edited = refl; agrees = ap (Tuple _ []) (committed_none s ok none) }
  | inr some ↦
      let c = s.buf (s.r % 128) in
      let ok' = taken-IsConsole s ok some in
      rw (some, committed-taken s ok some)
        (elim (Bool-cases (c == 4)) [
          | inl t ↦ elim (Bool-cases (ltb (suc left) target)) [
            | inl u ↦
                rw (t, u, put_back s ok)
                  (record {
                    sound = ok;
                    edited = refl;
                    agrees = ap (Tuple _ []) (committed-taken s ok some);
                  })
            | inr u ↦
                rw (t, u) (record { sound = ok'; edited = unfold line in refl; agrees = refl })
          ]
          | inr p ↦ elim (Bool-cases (to (target - suc left))) [
            | inl t ↦ elim (Bool-cases (c == 10)) [
              | inl u ↦
                  rw (p, t, u) (record { sound = ok'; edited = unfold line in refl; agrees = refl })
              | inr u ↦
                  rw (p, t, u)
                    (let rest = consoleread-Read to killed target left (taken s ok) ok' in
                      record {
                        sound = rest.sound;
                        edited = rest.edited ∙ (unfold line in refl);
                        agrees =
                            ap (λ (r : Ending × List ℕ × List ℕ). (r.0, c ∷ r.1, r.2)) rest.agrees;
                      })
            ]
            | inr t ↦
                rw (p, t) (record { sound = ok'; edited = unfold line in refl; agrees = refl })
          ]
        ])
]

-- `read` takes lines. Each locked part of `consoleread` ends as `take_line` says of the queue of
-- committed characters: it stores these in their order, up to and with a newline, stops before ^D
-- and leaves it there if it has stored something, and leaves the edited line alone.
pub consoleread-take_line :
    (to : ℕ → Bool) (killed : Bool) (target left : ℕ) (s : Console)
    → IsConsole s
    → let r = consoleread to killed target left s in
      IsConsole r.2
      × (line r.2 ≡ line s)
      × ((r.0, r.1, committed r.2) ≡ take_line to killed target left (committed s))
consoleread-take_line to killed target left s ok =
    let read = consoleread-Read to killed target left s ok in (read.sound, read.edited, read.agrees)
