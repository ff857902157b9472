-- ===== src/Kernel/Log/Space.antt =====
-- `begin_op`, `log_write` and `end_op` of xv6-riscv/kernel/log.c together: the reservation of log
-- space, over any interleaving of operations.
use aca_riscv_secure_boot.Common.{
  ℕ, zero, suc, ◌+◌, ◌-◌, ◌*◌, ◌≡◌, ◌≢◌, ◌<◌, ◌≤◌, ◌⊎◌, dec_lt, inl, inr, refl, subst, ltb→le, true,
  false, arith, ltb, Bool-cases, ◌∙◌, sym, List, [], ◌∷◌, length, get_or, set, length-set,
}
use aca_riscv_secure_boot.Kernel.Outcome.{ok-injective, ok, sleep, panic}
use aca_riscv_secure_boot.Kernel.Log.{
  State, begin_op, end_op, log_write, commit, log_size, max_op_blocks,
}
use aca_riscv_secure_boot.Kernel.Log.Kept.{Kept, commit-Kept, lh-commit}
use aca_riscv_secure_boot.Kernel.Log.Absorb.{Written, log_write-Written}

-- A running file system, and for each open operation the number of its `log_write` calls so far.
pub record World : Type 0 where
  pub log : State
  pub calls : List ℕ

abbrev pub remove : List ℕ → ℕ → List ℕ
remove [] i = []
remove (x ∷ xs) zero = xs
remove (x ∷ xs) (suc i) = x ∷ remove xs i

-- An operation begins, writes while it has called `log_write` fewer than `MAXOPBLOCKS` times, or
-- ends. A `begin_op` that sleeps is no step.
pub data Step (w : World) : World → Type 0 where
  begin : {s : State} → begin_op w.log ≡ ok s → Step w (record { log = s; calls = 0 ∷ w.calls })
  write :
      (b i : ℕ) {s : State}
      → i < length w.calls
      → get_or w.calls i 0 < 10
      → log_write b w.log ≡ ok s
      → Step w (record { log = s; calls = set w.calls i (get_or w.calls i 0 + 1) })
  finish :
      (i : ℕ) {s : State}
      → i < length w.calls
      → end_op w.log ≡ ok s
      → Step w (record { log = s; calls = remove w.calls i })

-- From a mounted file system: nothing logged, no operation open.
pub data Reach (w0 : World) : World → Type 0 where
  here : Reach w0 w0
  next : {v w : World} → Reach w0 v → Step v w → Reach w0 w

-- What the open operations may still log.
unfoldable pub reserved : List ℕ → ℕ
reserved [] = 0
reserved (c ∷ cs) = (10 - c) + reserved cs

pub record IsSound (w : World) : Type 0 where
  pub room : w.log.lh.n + reserved w.calls ≤ 30
  pub counted : w.log.outstanding ≡ length w.calls
  pub idle : w.log.committing ≡ false

reserved-set :
    (cs : List ℕ) (i : ℕ)
    → i < length cs
    → get_or cs i 0 < 10
    → reserved (set cs i (get_or cs i 0 + 1)) + 1 ≡ reserved cs
unfolding reserved
reserved-set [] i h l = absurd (omega arith)
reserved-set (c ∷ cs) zero h l = omega arith
reserved-set (c ∷ cs) (suc i) h l = omega (arith, reserved-set cs i (omega arith) l)

reserved-remove : (cs : List ℕ) (i : ℕ) → reserved (remove cs i) ≤ reserved cs
unfolding reserved
reserved-remove [] i = omega arith
reserved-remove (c ∷ cs) zero = omega arith
reserved-remove (c ∷ cs) (suc i) = omega (arith, reserved-remove cs i)

length-remove : (cs : List ℕ) (i : ℕ) → i < length cs → length (remove cs i) + 1 ≡ length cs
length-remove [] i h = absurd (omega arith)
length-remove (c ∷ cs) zero h = omega arith
length-remove (c ∷ cs) (suc i) h = omega (arith, length-remove cs i (omega arith))

reserved_open : (cs : List ℕ) (i : ℕ) → i < length cs → get_or cs i 0 < 10 → 0 < reserved cs
reserved_open cs i h l = omega (arith, reserved-set cs i h l)

sleep_not_ok : {A : Type 0} {a : A} → sleep ≢ ok a
sleep_not_ok e = cc

-- An operation that has written nothing may still log ten blocks.
reserved_bound : (cs : List ℕ) → reserved cs ≤ length cs * 10
unfolding reserved
reserved_bound [] = omega arith
reserved_bound (c ∷ cs) = omega (arith, reserved_bound cs)

begins :
    (s : State)
    → s.committing ≡ false
    → ltb log_size (s.lh.n + (s.outstanding + 1) * max_op_blocks) ≡ false
    → begin_op s ≡ ok (record s { outstanding = s.outstanding + 1 })
unfolding begin_op
begins s c t = rw (c, t) refl

-- What a `begin_op` that does not sleep has found and done.
begin_op-ok :
    (s s' : State)
    → begin_op s ≡ ok s'
    → (s.lh.n + (s.outstanding + 1) * 10 ≤ 30) × (record s { outstanding = s.outstanding + 1 } ≡ s')
unfolding begin_op
begin_op-ok s s' e = elim (Bool-cases s.committing) [
  | inl c ↦ absurd (sleep_not_ok (rw c at e))
  | inr c ↦ elim (Bool-cases (ltb log_size (s.lh.n + (s.outstanding + 1) * max_op_blocks))) [
    | inl t ↦ absurd (sleep_not_ok (rw (c, t) at e))
    | inr t ↦ (
      ltb→le log_size (s.lh.n + (s.outstanding + 1) * max_op_blocks) t,
      ok-injective (sym (begins s c t) ∙ e),
    )
  ]
]

begin-IsSound :
    (w : World) (s : State)
    → begin_op w.log ≡ ok s
    → IsSound w
    → IsSound (record { log = s; calls = 0 ∷ w.calls })
unfolding reserved
begin-IsSound w s e sound =
    let (room, same) = begin_op-ok w.log s e in
    subst (λ (t : State). IsSound (record { log = t; calls = 0 ∷ w.calls })) same
      record {
        room = omega (arith, room, sound.room, sound.counted, reserved_bound w.calls);
        counted = omega (arith, sound.counted);
        idle = sound.idle;
      }

-- The log has room for one block more besides its header.
abbrev HasRoom : State → Type 0
HasRoom s = s.lh.n < s.size - 1

-- With a call left and room in the log, `log_write` succeeds.
write-Written :
    (w : World) (b i : ℕ)
    → IsSound w
    → i < length w.calls
    → get_or w.calls i 0 < 10
    → HasRoom w.log
    → (s : State) × (log_write b w.log ≡ ok s) × Written b w.log s
write-Written w b i sound h l room =
    let free = reserved_open w.calls i h l in
    log_write-Written b w.log (omega (arith, sound.room)) room (omega (arith, sound.counted))

-- Without room it panics.
log_write_panics : (b : ℕ) (s : State) → s.size - 1 ≤ s.lh.n → log_write b s ≡ panic
unfolding log_write
log_write_panics b s h = ground (arith, h)

panic_not_ok : {A : Type 0} {a : A} → panic ≢ ok a
panic_not_ok e = cc

ok-HasRoom : (b : ℕ) (s s' : State) → log_write b s ≡ ok s' → HasRoom s
ok-HasRoom b s s' e = elim (dec_lt s.lh.n (s.size - 1)) [
  | yes room ↦ room
  | no full ↦ absurd (panic_not_ok (sym (log_write_panics b s (omega arith)) ∙ e))
]

write-IsSound :
    (w : World) (b i : ℕ) (s : State)
    → i < length w.calls
    → get_or w.calls i 0 < 10
    → log_write b w.log ≡ ok s
    → IsSound w
    → IsSound (record { log = s; calls = set w.calls i (get_or w.calls i 0 + 1) })
write-IsSound w b i s h l e sound =
    let (s', ran, written) = write-Written w b i sound h l (ok-HasRoom b w.log s e) in
    let same : s' ≡ s = ok-injective (sym ran ∙ e) in
    subst
      (λ (t : State). IsSound (record { log = t; calls = set w.calls i (get_or w.calls i 0 + 1) }))
      same
      record {
        room = elim written.grown [
          | inl (n_eq, p, q, r) ↦ omega (arith, n_eq, sound.room, reserved-set w.calls i h l)
          | inr (n_eq, p, q, r) ↦ omega (arith, n_eq, sound.room, reserved-set w.calls i h l)
        ];
        counted = omega (
          arith,
          written.outstanding_eq,
          sound.counted,
          length-set w.calls i (get_or w.calls i 0 + 1),
        );
        idle = written.committing_eq ∙ sound.idle;
      }

finish-IsSound :
    (w : World) (i : ℕ) (s : State)
    → i < length w.calls
    → end_op w.log ≡ ok s
    → IsSound w
    → IsSound (record { log = s; calls = remove w.calls i })
unfolding end_op
finish-IsSound w i s h e sound = record {
  room = ground (arith, sound.room, lh-commit ended, reserved-remove w.calls i, none_left);
  counted = ground (arith, sound.counted, kept.outstanding_eq, length-remove w.calls i h);
  idle = ground (arith, sound.idle);
}
  where
    ended : State
    ended = record w.log { outstanding = 0; committing = true }

    kept : Kept ended (commit ended)
    kept = commit-Kept ended

    none_left : reserved (remove w.calls i) ≤ reserved w.calls
    none_left = reserved-remove w.calls i

Step-IsSound : {w v : World} → Step w v → IsSound w → IsSound v
Step-IsSound {w} (begin {s} e) sound = begin-IsSound w s e sound
Step-IsSound {w} (write b i {s} h l e) sound = write-IsSound w b i s h l e sound
Step-IsSound {w} (finish i {s} h e) sound = finish-IsSound w i s h e sound

Reach-IsSound : {w0 w : World} → IsSound w0 → Reach w0 w → IsSound w
Reach-IsSound sound here = sound
Reach-IsSound sound (next r st) = Step-IsSound st (Reach-IsSound sound r)

-- The reservations of `begin_op`. However operations that each call `log_write` ten times at most
-- begin, write and end, from a mounted file system: an operation with a call left finds fewer than
-- 30 blocks logged, and its `log_write` passes the first panic. It succeeds just if fewer than
-- `size - 1` blocks are logged, and panics otherwise. So a log of 31 blocks or more never overflows,
-- and the 30 blocks of mkfs.c do when 29 are logged.
pub log_write-reserved :
    {w0 w : World}
    → IsSound w0
    → Reach w0 w
    → (b i : ℕ) → i < length w.calls
    → get_or w.calls i 0 < 10
    → (w.log.lh.n < 30)
      × (((w.log.lh.n < w.log.size - 1) × ((s : State) × (log_write b w.log ≡ ok s)))
          ⊎ ((w.log.size - 1 ≤ w.log.lh.n) × (log_write b w.log ≡ panic)))
log_write-reserved {w} sound reach b i h l =
    let now = Reach-IsSound sound reach in
    (
      omega (arith, now.room, reserved_open w.calls i h l),
      elim (dec_lt w.log.lh.n (w.log.size - 1)) [
        | yes room ↦
            let (s, ran, written) = write-Written w b i now h l room in inl (room, (s, ran))
        | no full ↦ inr (omega arith, log_write_panics b w.log (omega arith))
      ],
    )
