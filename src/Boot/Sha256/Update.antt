-- ===== src/Boot/Sha256/Update.antt =====
-- The loop of `sha256_update` in xv6-riscv/bootloader/sha256.c, with its 32-bit counter.
use aca_riscv_secure_boot.Common.{
  ℕ, zero, suc, ◌+◌, ◌^◌, ◌≡◌, ◌<◌, ◌≤◌, refl, ap, ◌∙◌, sym, true, false, List, [], ◌∷◌, ◌++◌,
  arith, length, get_or, append_assoc, length-append, ltb, none, some,
}
use aca_riscv_secure_boot.Common.Word.{u32}
use aca_riscv_secure_boot.Boot.Sha256.{Context, absorb_all, absorb, update_loop, update}

get_or-append : (xs : List ℕ) (y : ℕ) (ys : List ℕ) → get_or (xs ++ y ∷ ys) (length xs) 0 ≡ y
get_or-append [] y ys = refl
get_or-append (x ∷ xs) y ys = get_or-append xs y ys

-- Behind the bytes `xs`, the loop passes over `ys`.
update_loop-rest :
    (fuel : ℕ) (xs ys : List ℕ) (ctx : Context)
    → length ys < fuel
    → length xs + length ys < 2 ^ 32
    → update_loop fuel (length xs) (xs ++ ys) ctx ≡ some (absorb_all ctx ys)
unfolding update_loop absorb_all
update_loop-rest zero xs ys ctx h l = absurd (omega (arith, h))
update_loop-rest (suc fuel) xs [] ctx h l =
    let end : ltb (length xs) (length (xs ++ [])) ≡ false = ground (arith, length-append xs []) in
    rw end refl
update_loop-rest (suc fuel) xs (y ∷ ys) ctx h l =
    let more : ltb (length xs) (length (xs ++ y ∷ ys)) ≡ true =
      ground (arith, length-append xs (y ∷ ys)) in
    let next : u32 (length xs + 1) ≡ length (xs ++ y ∷ []) =
      omega (arith, length-append xs (y ∷ []), l) in
    let cut : xs ++ y ∷ ys ≡ (xs ++ y ∷ []) ++ ys = sym (append_assoc xs (y ∷ []) ys) in
    let rest =
      update_loop-rest fuel (xs ++ y ∷ []) ys (absorb ctx y) (omega arith)
        (omega (arith, length-append xs (y ∷ []), l)) in
    rw (more, get_or-append xs y ys, next)
      (ap (λ d. update_loop fuel (length (xs ++ y ∷ [])) d (absorb ctx y)) cut ∙ rest)

-- A call with less than 2 ^ 32 bytes passes over all of them.
pub update-absorb_all :
    (ctx : Context) (data_ : List ℕ)
    → length data_ < 2 ^ 32
    → update ctx data_ ≡ some (absorb_all ctx data_)
unfolding update
update-absorb_all ctx data_ h =
    update_loop-rest (length data_ + 1) [] data_ ctx (omega arith) (omega (arith, h))

-- With more bytes the counter wraps before it reaches their number.
pub update_loop-endless :
    (fuel i : ℕ) (data_ : List ℕ) (ctx : Context)
    → i < 2 ^ 32
    → 2 ^ 32 ≤ length data_
    → update_loop fuel i data_ ctx ≡ none
unfolding update_loop
update_loop-endless zero i data_ ctx h l = refl
update_loop-endless (suc fuel) i data_ ctx h l =
    let more : ltb i (length data_) ≡ true = ground (arith, h, l) in
    rw more
      (update_loop-endless fuel (u32 (i + 1)) data_ (absorb ctx (get_or data_ i 0)) (omega arith) l)
