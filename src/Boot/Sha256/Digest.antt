-- ===== src/Boot/Sha256/Digest.antt =====
-- `sha256_final` of xv6-riscv/bootloader/sha256.c against SHA-256 of the whole message.
use aca_riscv_secure_boot.Common.{
  ℕ, zero, suc, ◌+◌, ◌-◌, ◌*◌, ◌/◌, ◌≡◌, ◌<◌, ◌≤◌, ◌^◌, refl, ap, ◌∙◌, sym, true, false, List, [],
  ◌∷◌, ◌++◌, arith, length, append_assoc, append-nil, set, set-append_right, length-append,
  Bool-cases, inl, inr, replicate, length-replicate, drop, length-drop, ltb, ltb→lt, ltb→le,
}
use aca_riscv_secure_boot.Common.Word.{u32, u64}
use aca_riscv_secure_boot.Boot.Sha256.{
  Context, init, init_state, absorb_all, update_loop, update, zero_fill, pad, store_bitlen, digest,
  final,
}
use aca_riscv_secure_boot.Boot.Sha256.Block.{transform}
use aca_riscv_secure_boot.Boot.Sha256.Padding.{
  hash_blocks, hash_blocks-append, be_64, zeros_for, padded, sha_256,
}
use aca_riscv_secure_boot.Boot.Sha256.Stream.{Holds, init-Holds, absorb_all-Holds}
use aca_riscv_secure_boot.Boot.Sha256.Update.{update-absorb_all, update_loop-endless}
use aca_riscv_secure_boot.Common.{Option, none, some}
use Prim.Native.Nat.{max}

-- Filling `n` zeros behind a prefix of `i` bytes.
zero_fill_lem :
    (n i : ℕ) (p r : List ℕ)
    → length p ≡ i
    → n ≤ length r
    → zero_fill n i (p ++ r) ≡ p ++ (replicate n 0 ++ drop n r)
unfolding zero_fill
zero_fill_lem zero i p r h k = refl
zero_fill_lem (suc n) i p [] h k = absurd (omega arith)
zero_fill_lem (suc n) i p (x ∷ r) h k =
    rw
      (
        set-append_right p (x ∷ r) i 0 0 (omega arith),
        ← append_assoc p (0 ∷ []) r,
        zero_fill_lem n (i + 1) (p ++ 0 ∷ []) r (omega (arith, length-append p (0 ∷ []), h))
            (omega arith),
      )
      (append_assoc p (0 ∷ []) (replicate n 0 ++ drop n r))

-- The stores of the length replace the last eight bytes.
store_bitlen_lem :
    (n : ℕ) (p r : List ℕ) → length p ≡ 56 → length r ≡ 8 → store_bitlen n (p ++ r) ≡ p ++ be_64 n
unfolding store_bitlen
store_bitlen_lem n p (a ∷ b ∷ c ∷ d ∷ e ∷ f ∷ g ∷ h ∷ []) k l = simp (
  behind 63 7 refl,
  behind 62 6 refl,
  behind 61 5 refl,
  behind 60 4 refl,
  behind 59 3 refl,
  behind 58 2 refl,
  behind 57 1 refl,
  behind 56 0 refl,
)
  where
    behind : (i j : ℕ) → i ≡ 56 + j → (r : List ℕ) (v : ℕ) → set (p ++ r) i v ≡ p ++ set r j v
    behind i j q r v = set-append_right p r i j v (omega arith)
store_bitlen_lem n p r k l = absurd (omega arith)

-- What `pad` leaves for the length, and the blocks hashed by then.
record Padded (ctx : Context) (message : List ℕ) : Type 0 where
  blocks : ℕ
  full : List ℕ
  tail : List ℕ
  rest : List ℕ
  split : message ++ 0x80 ∷ replicate (zeros_for (length message)) 0 ≡ full ++ tail
  full_length : length full ≡ blocks * 64
  tail_length : length tail ≡ 56
  rest_length : length rest ≡ 8
  buffer : ctx.data_buf ≡ tail ++ rest
  hashed : ctx.state ≡ hash_blocks blocks init_state full

replicate_add : (n k : ℕ) → replicate {A = ℕ} (n + k) 0 ≡ replicate n 0 ++ replicate k 0
replicate_add zero k = ap (λ i. replicate i 0) (omega arith)
replicate_add (suc n) k =
    let e : suc n + k ≡ suc (n + k) = omega arith in rw e (ap (λ zs. 0 ∷ zs) (replicate_add n k))

drop_all : (n : ℕ) (xs : List ℕ) → length xs ≡ n → drop n xs ≡ []
drop_all zero [] h = refl
drop_all zero (x ∷ xs) h = absurd (omega arith)
drop_all (suc n) [] h = refl
drop_all (suc n) (x ∷ xs) h = drop_all n xs (omega arith)

module _ {ctx : Context} {message : List ℕ} (holds : Holds ctx message) where
  open holds use {
    blocks, full, tail, rest, split, full_length, tail_length, short, buffer, size, counted, hashed,
  }

  length_split : length message ≡ blocks * 64 + ctx.datalen
  length_split = omega (arith, ap length split, length-append full tail, full_length, tail_length)

  -- The mark 0x80 and `n` zeros behind the bytes that wait.
  marked :
      (x : ℕ) (xs : List ℕ) (n : ℕ)
      → rest ≡ x ∷ xs
      → n ≤ length xs
      → zero_fill n (ctx.datalen + 1) (set ctx.data_buf ctx.datalen 0x80)
        ≡ (tail ++ 0x80 ∷ replicate n 0) ++ drop n xs
  marked x xs n e l =
      rw
        (
          buffer,
          e,
          set-append_right tail (x ∷ xs) ctx.datalen 0 0x80 (omega arith),
          ← append_assoc tail (0x80 ∷ []) xs,
          zero_fill_lem n (ctx.datalen + 1) (tail ++ 0x80 ∷ []) xs
              (omega (arith, length-append tail (0x80 ∷ []), tail_length)) l,
        )
        (append_assoc tail (0x80 ∷ []) (replicate n 0 ++ drop n xs)
          ∙ sym (append_assoc tail (0x80 ∷ replicate n 0) (drop n xs)))

  pad_short :
      (x : ℕ) (xs : List ℕ) → rest ≡ x ∷ xs → ltb ctx.datalen 56 ≡ true → Padded (pad ctx) message
  unfolding pad
  pad_short x xs e t = rw t record {
    blocks = blocks;
    full = full;
    tail = tail ++ 0x80 ∷ replicate n 0;
    rest = drop n xs;
    split = rw (zeros, split) (append_assoc full tail (0x80 ∷ replicate n 0));
    full_length = full_length;
    tail_length = omega (
      arith,
      length-append tail (0x80 ∷ replicate n 0),
      length-replicate {A = ℕ} n 0,
      tail_length,
      ltb→lt _ _ t,
    );
    rest_length = omega (arith, length-drop n xs, ap length e, size, tail_length, ltb→lt _ _ t);
    buffer = marked x xs n e (omega (arith, ap length e, size, tail_length));
    hashed = hashed;
  }
    where
      n : ℕ
      n = 56 - (ctx.datalen + 1)

      zeros : zeros_for (length message) ≡ n
      zeros = omega (arith, length_split, ltb→lt _ _ t)

  pad_long :
      (x : ℕ) (xs : List ℕ) → rest ≡ x ∷ xs → ltb ctx.datalen 56 ≡ false → Padded (pad ctx) message
  unfolding pad
  pad_long x xs e t = rw t record {
    blocks = suc blocks;
    full = full ++ last;
    tail = replicate 56 0;
    rest = drop 56 whole;
    split =
        rw (zeros, replicate_add n 56, split)
          (append_assoc full tail (0x80 ∷ (replicate n 0 ++ replicate 56 0))
            ∙ ap (λ zs. full ++ zs)
                (sym (append_assoc tail (0x80 ∷ replicate n 0) (replicate 56 0)))
            ∙ sym (append_assoc full last (replicate 56 0)));
    full_length = omega (arith, length-append full last, full_length, length_last);
    tail_length = length-replicate {A = ℕ} 56 0;
    rest_length = omega (arith, length-drop 56 whole, ap length whole_eq, length_last);
    buffer = zero_fill_lem 56 0 [] whole refl (omega (arith, ap length whole_eq, length_last));
    hashed =
        rw (hashed, whole_eq)
          (sym (hash_blocks-append blocks init_state full last full_length length_last));
  }
    where
      n : ℕ
      n = 64 - (ctx.datalen + 1)

      last : List ℕ
      last = tail ++ 0x80 ∷ replicate n 0

      whole : List ℕ
      whole = zero_fill n (ctx.datalen + 1) (set ctx.data_buf ctx.datalen 0x80)

      length_last : length last ≡ 64
      length_last = omega (
        arith,
        length-append tail (0x80 ∷ replicate n 0),
        length-replicate {A = ℕ} n 0,
        tail_length,
        short,
      )

      length_xs : length xs ≡ n
      length_xs = omega (arith, ap length e, size, tail_length)

      whole_eq : whole ≡ last
      whole_eq =
          marked x xs n e (omega (arith, length_xs))
          ∙ rw (drop_all n xs length_xs) (append-nil last)

      zeros : zeros_for (length message) ≡ n + 56
      zeros = omega (arith, length_split, short, ltb→le _ _ t)

  pad-Padded : Padded (pad ctx) message
  pad-Padded = by_rest rest refl
    where
      by_rest : (r : List ℕ) → rest ≡ r → Padded (pad ctx) message
      by_rest [] e = absurd (omega (arith, ap length e, size, tail_length, short))
      by_rest (x ∷ xs) e = elim (Bool-cases (ltb ctx.datalen 56)) [
        | inl t ↦ pad_short x xs e t
        | inr t ↦ pad_long x xs e t
      ]

  -- The 64-bit counter holds the length of the message in bits.
  counted_bits :
      length message < 2 ^ 61 → u64 (ctx.bitlen + u32 (ctx.datalen * 8)) ≡ 8 * length message
  counted_bits h = omega (arith, length_split, counted, short)

sha_256_lem :
    (message : List ℕ)
    → sha_256 message
      ≡ digest (hash_blocks (length (padded message) / 64) init_state (padded message))
unfolding sha_256
sha_256_lem message = refl

module _ {ctx : Context} {message : List ℕ} (p : Padded ctx message) where
  open p use {blocks, full, tail, rest, split, full_length, tail_length}

  length_be : length (be_64 (8 * length message)) ≡ 8
  length_be = refl

  padded_split : padded message ≡ full ++ (tail ++ be_64 (8 * length message))
  unfolding padded
  padded_split =
      sym (
        append_assoc message (0x80 ∷ replicate (zeros_for (length message)) 0)
          (be_64 (8 * length message)))
      ∙ ap (λ zs. zs ++ be_64 (8 * length message)) split
      ∙ append_assoc full tail (be_64 (8 * length message))

  last_length : length (tail ++ be_64 (8 * length message)) ≡ 64
  last_length = omega (arith, length-append tail (be_64 (8 * length message)), tail_length)

  padded_blocks : length (padded message) / 64 ≡ suc blocks
  padded_blocks = omega (
    arith,
    ap length padded_split,
    length-append full (tail ++ be_64 (8 * length message)),
    last_length,
    full_length,
  )

  -- Hashing the last block gives the hash of the padded message.
  Padded-sha_256 :
      digest (transform ctx.state (store_bitlen (8 * length message) ctx.data_buf))
      ≡ sha_256 message
  Padded-sha_256 = rw (
    sha_256_lem,
    padded_blocks,
    padded_split,
    p.buffer,
    p.hashed,
    store_bitlen_lem (8 * length message) tail rest tail_length p.rest_length,
    hash_blocks-append blocks init_state full (tail ++ be_64 (8 * length message)) full_length
        last_length,
  )

final_lem :
    (ctx : Context) (n : ℕ)
    → u64 (ctx.bitlen + u32 (ctx.datalen * 8)) ≡ n
    → (final ctx).1 ≡ digest (transform (pad ctx).state (store_bitlen n (pad ctx).data_buf))
unfolding final
final_lem ctx n h = rw h

-- `sha256_final` writes the hash of the bytes that the context stands for.
pub final-Holds :
    {ctx : Context} {message : List ℕ}
    → Holds ctx message
    → length message < 2 ^ 61
    → (final ctx).1 ≡ sha_256 message
final-Holds {ctx} {message} holds h =
    final_lem ctx (8 * length message) (counted_bits holds h) ∙ Padded-sha_256 (pad-Padded holds)

-- What follows a call that ends.
abbrev ended : Option Context → (Context → Option Context) → Option Context
ended none f = none
ended (some ctx) f = f ctx

-- Calls of `sha256_update`, one after the other, or none if one does not end.
abbrev pub update_all : Context → List (List ℕ) → Option Context
update_all ctx [] = some ctx
update_all ctx (piece ∷ pieces) = ended (update ctx piece) (λ next. update_all next pieces)

-- The length of the longest piece.
abbrev pub longest : List (List ℕ) → ℕ
longest [] = 0
longest (piece ∷ pieces) = max (length piece) (longest pieces)

abbrev pub concat : List (List ℕ) → List ℕ
concat [] = []
concat (piece ∷ pieces) = piece ++ concat pieces

update_all-Holds :
    (ctx : Context) (message : List ℕ) (pieces : List (List ℕ))
    → Holds ctx message
    → longest pieces < 2 ^ 32
    → (ctx' : Context) × (update_all ctx pieces ≡ some ctx') × Holds ctx' (message ++ concat pieces)
update_all-Holds ctx message [] holds h = (ctx, refl, rw append-nil holds)
update_all-Holds ctx message (piece ∷ pieces) holds h =
    let (ctx', ran, holds') =
      update_all-Holds (absorb_all ctx piece) (message ++ piece) pieces
        (absorb_all-Holds ctx message piece holds) (omega (arith, h)) in
    (
      ctx',
      ap (λ o. ended o (λ next. update_all next pieces))
            (update-absorb_all ctx piece (omega (arith, h)))
          ∙ ran,
      rw (← append_assoc message piece (concat pieces)) holds',
    )

-- Whatever the context held before, `sha256_init`, any sequence of `sha256_update` calls, each with
-- less than 2 ^ 32 bytes, and `sha256_final` end, and write the SHA-256 of the concatenated pieces,
-- if these are shorter than 2 ^ 61 bytes together: buffering, counting and padding in the code agree
-- with padding the whole message first and then chaining its blocks, however the message is cut. A
-- call of `sha256_update` with 2 ^ 32 bytes or more does not end.
pub final-update_all :
    (ctx : Context) (pieces : List (List ℕ))
    → length ctx.data_buf ≡ 64
    → longest pieces < 2 ^ 32
    → length (concat pieces) < 2 ^ 61
    → ((ctx' : Context) × (update_all (init ctx) pieces ≡ some ctx')
        × ((final ctx').1 ≡ sha_256 (concat pieces)))
      × ((fuel : ℕ) (data_ : List ℕ)
          → 2 ^ 32 ≤ length data_
          → update_loop fuel 0 data_ (init ctx) ≡ none)
final-update_all ctx pieces h short l =
    let (ctx', ran, holds) = update_all-Holds (init ctx) [] pieces (init-Holds ctx h) short in
    (
      (ctx', ran, final-Holds holds l),
      λ fuel data_ long. update_loop-endless fuel 0 data_ (init ctx) (omega arith) long,
    )

-- The hash is 32 bytes long.
pub length-final : (ctx : Context) → length (final ctx).1 ≡ 32
unfolding final
length-final ctx = refl
