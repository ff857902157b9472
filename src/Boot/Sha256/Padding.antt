-- ===== src/Boot/Sha256/Padding.antt =====
-- SHA-256 as FIPS 180-4 states it, over a whole message: pad, cut into blocks, chain. The code of
-- xv6-riscv/bootloader/sha256.c takes the message in pieces and is compared with this.
use aca_riscv_secure_boot.Common.{
  ℕ, zero, suc, ◌+◌, ◌-◌, ◌*◌, ◌/◌, ◌%◌, ◌≡◌, List, [], ◌∷◌, ◌++◌, arith, length, take, drop,
  replicate, take-append_of_le, drop-append_of_le, take_all, length-drop, length-append,
  length-replicate,
}
use aca_riscv_secure_boot.Common.Word.{u8, shr}
use aca_riscv_secure_boot.Boot.Sha256.{init_state, digest}
use aca_riscv_secure_boot.Boot.Sha256.Block.{HashState, transform}

-- A number below 2 ^ 64 as eight bytes, the highest first.
abbrev pub be_64 : ℕ → List ℕ
be_64 n =
    u8 (shr n 56)
    ∷ u8 (shr n 48)
    ∷ u8 (shr n 40)
    ∷ u8 (shr n 32)
    ∷ u8 (shr n 24)
    ∷ u8 (shr n 16)
    ∷ u8 (shr n 8)
    ∷ u8 n
    ∷ []

-- The least number of zeros that makes a message of `n` bytes, with the bit 0x80 and the length,
-- a multiple of 64 bytes long.
abbrev pub zeros_for : ℕ → ℕ
zeros_for n = (119 - n % 64) % 64

unfoldable pub padded : List ℕ → List ℕ
padded message =
    message ++ 0x80 ∷ (replicate (zeros_for (length message)) 0 ++ be_64 (8 * length message))

-- Chains the first `n` blocks of 64 bytes.
unfoldable pub hash_blocks : ℕ → HashState → List ℕ → HashState
hash_blocks zero s bytes = s
hash_blocks (suc n) s bytes = hash_blocks n (transform s (take 64 bytes)) (drop 64 bytes)

-- The hash of a message.
unfoldable pub sha_256 : List ℕ → List ℕ
unfolding padded hash_blocks
sha_256 message = let p = padded message in digest (hash_blocks (length p / 64) init_state p)

-- One more block behind `n` of them.
pub hash_blocks-append :
    (n : ℕ) (s : HashState) (full block : List ℕ)
    → length full ≡ n * 64
    → length block ≡ 64
    → hash_blocks (suc n) s (full ++ block) ≡ transform (hash_blocks n s full) block
unfolding hash_blocks
hash_blocks-append zero s [] block h k = rw (take_all 64 block k)
hash_blocks-append zero s (x ∷ full) block h k = absurd (omega arith)
hash_blocks-append (suc n) s full block h k =
    rw
      (take-append_of_le 64 full block (omega arith), drop-append_of_le 64 full block (omega arith))
      (hash_blocks-append n (transform s (take 64 full)) (drop 64 full) block
        (omega (arith, length-drop 64 full)) k)

-- The padded message is a whole number of blocks long.
pub length-padded :
    (message : List ℕ) → length (padded message) ≡ length message + 9 + zeros_for (length message)
unfolding padded
length-padded message = omega (
  arith,
  length-append message
      (0x80 ∷ (replicate (zeros_for (length message)) 0 ++ be_64 (8 * length message))),
  length-append (replicate (zeros_for (length message)) 0) (be_64 (8 * length message)),
  length-replicate {A = ℕ} (zeros_for (length message)) 0,
)
