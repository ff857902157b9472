-- ===== src/Boot/Sha256/Stream.antt =====
-- What the context of sha256.c holds after any sequence of `sha256_update` calls.
use aca_riscv_secure_boot.Common.{
  ℕ, suc, ◌+◌, ◌*◌, ◌≡◌, ◌<◌, refl, ap, ◌∙◌, sym, true, false, List, [], ◌∷◌, ◌++◌, arith, length,
  append_assoc, append-nil, set, set-append_right, length-append, Bool-cases, inl, inr, ◌==◌,
  ==_iff, ==→ne,
}
use aca_riscv_secure_boot.Common.Word.{u32, u64}
use aca_riscv_secure_boot.Boot.Sha256.{Context, init, init_state, absorb, absorb_all}
use aca_riscv_secure_boot.Boot.Sha256.Padding.{hash_blocks, hash_blocks-append}

-- The context stands for the message so far: its whole blocks are hashed and counted, and the rest
-- waits at the front of the buffer.
pub record Holds (ctx : Context) (message : List ℕ) : Type 0 where
  pub blocks : ℕ
  pub full : List ℕ
  pub tail : List ℕ
  pub rest : List ℕ
  pub split : message ≡ full ++ tail
  pub full_length : length full ≡ blocks * 64
  pub tail_length : length tail ≡ ctx.datalen
  pub short : ctx.datalen < 64
  pub buffer : ctx.data_buf ≡ tail ++ rest
  pub size : length tail + length rest ≡ 64
  pub counted : ctx.bitlen ≡ u64 (512 * blocks)
  pub hashed : ctx.state ≡ hash_blocks blocks init_state full

-- `sha256_init` starts an empty message, whatever the buffer held.
pub init-Holds : (ctx : Context) → length ctx.data_buf ≡ 64 → Holds (init ctx) []
unfolding init hash_blocks
init-Holds ctx h = record {
  blocks = 0;
  full = [];
  tail = [];
  rest = ctx.data_buf;
  split = refl;
  full_length = refl;
  tail_length = refl;
  short = omega arith;
  buffer = refl;
  size = omega arith;
  counted = refl;
  hashed = refl;
}

module _ {ctx : Context} {message : List ℕ} (byte : ℕ) (holds : Holds ctx message) where
  open holds use {
    blocks, full, tail, rest, split, full_length, tail_length, short, buffer, size, counted, hashed,
  }

  -- The byte goes behind those that wait.
  filled :
      (x : ℕ) (xs : List ℕ)
      → rest ≡ x ∷ xs
      → set ctx.data_buf ctx.datalen byte ≡ (tail ++ byte ∷ []) ++ xs
  filled x xs e =
      rw (buffer, e) (set-append_right tail (x ∷ xs) ctx.datalen 0 byte (omega arith))
      ∙ sym (append_assoc tail (byte ∷ []) xs)

  message_next : message ++ byte ∷ [] ≡ full ++ (tail ++ byte ∷ [])
  message_next = rw split (append_assoc full tail (byte ∷ []))

  tail_next : length (tail ++ byte ∷ []) ≡ length tail + 1
  tail_next = length-append tail (byte ∷ [])

  absorb_short :
      (x : ℕ) (xs : List ℕ)
      → rest ≡ x ∷ xs
      → (u32 (ctx.datalen + 1) == 64) ≡ false
      → Holds (absorb ctx byte) (message ++ byte ∷ [])
  unfolding absorb
  absorb_short x xs e t = rw t record {
    blocks = blocks;
    full = full;
    tail = tail ++ byte ∷ [];
    rest = xs;
    split = message_next;
    full_length = full_length;
    tail_length = omega (arith, tail_next);
    short = omega (arith, ==→ne _ _ t);
    buffer = filled x xs e;
    size = omega (arith, tail_next, ap length e);
    counted = counted;
    hashed = hashed;
  }

  absorb_full :
      (x : ℕ) (xs : List ℕ)
      → rest ≡ x ∷ xs
      → (u32 (ctx.datalen + 1) == 64) ≡ true
      → Holds (absorb ctx byte) (message ++ byte ∷ [])
  unfolding absorb
  absorb_full x [] e t = rw t record {
    blocks = suc blocks;
    full = full ++ (tail ++ byte ∷ []);
    tail = [];
    rest = set ctx.data_buf ctx.datalen byte;
    split = message_next ∙ sym (append-nil _);
    full_length = omega (arith, length-append full (tail ++ byte ∷ []), full_block);
    tail_length = refl;
    short = omega arith;
    buffer = refl;
    size = omega (arith, ap length whole, full_block);
    counted = omega (arith, counted);
    hashed =
        rw (whole, hashed)
          (sym
            (hash_blocks-append blocks init_state full (tail ++ byte ∷ []) full_length full_block));
  }
    where
      whole : set ctx.data_buf ctx.datalen byte ≡ tail ++ byte ∷ []
      whole = filled x [] e ∙ append-nil _

      full_block : length (tail ++ byte ∷ []) ≡ 64
      full_block = omega (arith, tail_next, ap length e)
  absorb_full x (y ∷ ys) e t =
      absurd (omega (arith, ap length e, (==_iff (u32 (ctx.datalen + 1)) 64).0 t))

  -- One byte more is one byte more of the message.
  absorb-Holds : Holds (absorb ctx byte) (message ++ byte ∷ [])
  absorb-Holds = by_rest rest refl
    where
      by_rest : (r : List ℕ) → rest ≡ r → Holds (absorb ctx byte) (message ++ byte ∷ [])
      by_rest [] e = absurd (omega (arith, ap length e))
      by_rest (x ∷ xs) e = elim (Bool-cases (u32 (ctx.datalen + 1) == 64)) [
        | inl t ↦ absorb_full x xs e t
        | inr t ↦ absorb_short x xs e t
      ]

-- The loop of `sha256_update` extends the message by its bytes.
pub absorb_all-Holds :
    (ctx : Context) (message bytes : List ℕ)
    → Holds ctx message
    → Holds (absorb_all ctx bytes) (message ++ bytes)
unfolding absorb_all
absorb_all-Holds ctx message [] holds = rw append-nil holds
absorb_all-Holds ctx message (byte ∷ bytes) holds =
    rw (← append_assoc message (byte ∷ []) bytes)
      (absorb_all-Holds (absorb ctx byte) (message ++ byte ∷ []) bytes (absorb-Holds byte holds))

-- Updating by two pieces is updating by their concatenation.
pub absorb_all-append :
    (ctx : Context) (xs ys : List ℕ) → absorb_all ctx (xs ++ ys) ≡ absorb_all (absorb_all ctx xs) ys
unfolding absorb_all
absorb_all-append ctx [] ys = refl
absorb_all-append ctx (x ∷ xs) ys = absorb_all-append (absorb ctx x) xs ys

pub absorb_all-nil : (ctx : Context) → absorb_all ctx [] ≡ ctx
unfolding absorb_all
absorb_all-nil ctx = refl
