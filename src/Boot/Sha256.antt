-- ===== src/Boot/Sha256.antt =====
-- xv6-riscv/bootloader/sha256.c and sha256.h: the context, and the streaming interface.
pub mod Block
pub mod Padding
pub mod Stream
pub mod Update
pub mod Digest
mod Tests
use aca_riscv_secure_boot.Common.{
  ℕ, zero, suc, ◌+◌, ◌-◌, ◌*◌, ◌%◌, List, [], ◌∷◌, ◌++◌, ◌==◌, ltb, if◌then◌else◌, set, replicate,
  Option, none, some, length, get_or,
}
use aca_riscv_secure_boot.Common.Word.{u8, u32, u64, shr}
use Block.{HashState, transform}

-- `SHA256_CTX`: the bytes wait in `data`, of which the first `datalen` are in use.
pub record Context : Type 0 where
  pub data_buf : List ℕ
  pub datalen : ℕ
  pub bitlen : ℕ
  pub state : HashState

pub init_state : HashState
init_state = record {
  a = 0x6a09e667;
  b = 0xbb67ae85;
  c = 0x3c6ef372;
  d = 0xa54ff53a;
  e = 0x510e527f;
  f = 0x9b05688c;
  g = 0x1f83d9ab;
  h = 0x5be0cd19;
}

-- `sha256_init` leaves the buffer as it was.
pub init : Context → Context
unfolding init_state
init ctx = record ctx { datalen = 0; bitlen = 0; state = init_state }

-- One pass of the loop of `sha256_update`.
absorb : Context → ℕ → Context
absorb ctx byte =
    let filled = set ctx.data_buf ctx.datalen byte in
    let n = u32 (ctx.datalen + 1) in
    if n == 64
    then record {
      data_buf = filled;
      datalen = 0;
      bitlen = u64 (ctx.bitlen + 512);
      state = transform ctx.state filled;
    }
    else record ctx { data_buf = filled; datalen = n }

-- Passes over the bytes of a list.
pub absorb_all : Context → List ℕ → Context
unfolding absorb
absorb_all ctx [] = ctx
absorb_all ctx (byte ∷ bytes) = absorb_all (absorb ctx byte) bytes

-- The loop of `sha256_update` from `i` on, on fuel; `i` is a `WORD`, and `data` the list `data[0..len)`.
pub update_loop : ℕ → ℕ → List ℕ → Context → Option Context
unfolding absorb
update_loop zero i data_ ctx = none
update_loop (suc fuel) i data_ ctx =
    if ltb i (length data_)
    then update_loop fuel (u32 (i + 1)) data_ (absorb ctx (get_or data_ i 0))
    else some ctx

-- `sha256_update`, or none if the loop goes on behind the end of the data.
pub update : Context → List ℕ → Option Context
unfolding update_loop
update ctx data_ = update_loop (length data_ + 1) 0 data_ ctx

-- `n` rounds of `ctx->data[i++] = 0x00`
zero_fill : ℕ → ℕ → List ℕ → List ℕ
zero_fill zero i buf = buf
zero_fill (suc n) i buf = zero_fill n (i + 1) (set buf i 0)

-- The `if` of `sha256_final`: the bit 0x80, zeros, and a block if the length does not fit.
pad : Context → Context
unfolding zero_fill
pad ctx =
    let i = ctx.datalen in
    let marked = set ctx.data_buf i 0x80 in
    if ltb i 56
    then record ctx { data_buf = zero_fill (56 - (i + 1)) (i + 1) marked }
    else let full = zero_fill (64 - (i + 1)) (i + 1) marked in
      record ctx { data_buf = zero_fill 56 0 full; state = transform ctx.state full }

-- The eight stores of the length, the last byte first.
store_bitlen : ℕ → List ℕ → List ℕ
store_bitlen n buf =
    let b1 = set buf 63 (u8 n) in
    let b2 = set b1 62 (u8 (shr n 8)) in
    let b3 = set b2 61 (u8 (shr n 16)) in
    let b4 = set b3 60 (u8 (shr n 24)) in
    let b5 = set b4 59 (u8 (shr n 32)) in
    let b6 = set b5 58 (u8 (shr n 40)) in
    let b7 = set b6 57 (u8 (shr n 48)) in set b7 56 (u8 (shr n 56))

-- The bytes of one word of the state, the highest first: `(state >> (24 - i * 8)) & 0xff`.
word_bytes : ℕ → List ℕ
word_bytes w = u8 (shr w 24) ∷ u8 (shr w 16) ∷ u8 (shr w 8) ∷ u8 (shr w 0) ∷ []

-- The last loop: the state as 32 bytes.
unfoldable pub digest : HashState → List ℕ
unfolding word_bytes
digest s =
    word_bytes s.a
    ++ word_bytes s.b
    ++ word_bytes s.c
    ++ word_bytes s.d
    ++ word_bytes s.e
    ++ word_bytes s.f
    ++ word_bytes s.g
    ++ word_bytes s.h

-- `sha256_final`: the context that it leaves, and what it writes to `hash`.
pub final : Context → Context × List ℕ
unfolding pad store_bitlen digest
final ctx =
    let padded = pad ctx in
    let n = u64 (ctx.bitlen + u32 (ctx.datalen * 8)) in
    let last = store_bitlen n padded.data_buf in
    let state = transform padded.state last in
    (record { data_buf = last; datalen = ctx.datalen; bitlen = n; state = state }, digest state)
