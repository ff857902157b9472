-- ===== src/Boot/Sha256/Block.antt =====
-- `sha256_transform` of xv6-riscv/bootloader/sha256.c: one block of 64 bytes into the hash state.
use Prim.Native.Nat.{bit_and, bit_or, bit_xor}
use aca_riscv_secure_boot.Common.{ℕ, zero, suc, ◌+◌, ◌-◌, List, [], ◌∷◌, ◌++◌, get_or, length}
use aca_riscv_secure_boot.Common.Word.{u32, shr, shl32, not32}

-- `ROTRIGHT`
rotright : ℕ → ℕ → ℕ
rotright a b = bit_or (shr a b) (shl32 a (32 - b))

-- `CH`
ch : ℕ → ℕ → ℕ → ℕ
ch x y z = bit_xor (bit_and x y) (bit_and (not32 x) z)

-- `MAJ`
maj : ℕ → ℕ → ℕ → ℕ
maj x y z = bit_xor (bit_xor (bit_and x y) (bit_and x z)) (bit_and y z)

-- `EP0`
ep_0 : ℕ → ℕ
ep_0 x = bit_xor (bit_xor (rotright x 2) (rotright x 13)) (rotright x 22)

-- `EP1`
ep_1 : ℕ → ℕ
ep_1 x = bit_xor (bit_xor (rotright x 6) (rotright x 11)) (rotright x 25)

-- `SIG0`
sig_0 : ℕ → ℕ
sig_0 x = bit_xor (bit_xor (rotright x 7) (rotright x 18)) (shr x 3)

-- `SIG1`
sig_1 : ℕ → ℕ
sig_1 x = bit_xor (bit_xor (rotright x 17) (rotright x 19)) (shr x 10)

-- The table `k`.
round_constants : List ℕ
round_constants =
    0x428a2f98 ∷ 0x71374491 ∷ 0xb5c0fbcf ∷ 0xe9b5dba5 ∷ 0x3956c25b ∷ 0x59f111f1 ∷ 0x923f82a4
    ∷ 0xab1c5ed5 ∷ 0xd807aa98 ∷ 0x12835b01 ∷ 0x243185be ∷ 0x550c7dc3 ∷ 0x72be5d74 ∷ 0x80deb1fe
    ∷ 0x9bdc06a7 ∷ 0xc19bf174 ∷ 0xe49b69c1 ∷ 0xefbe4786 ∷ 0x0fc19dc6 ∷ 0x240ca1cc ∷ 0x2de92c6f
    ∷ 0x4a7484aa ∷ 0x5cb0a9dc ∷ 0x76f988da ∷ 0x983e5152 ∷ 0xa831c66d ∷ 0xb00327c8 ∷ 0xbf597fc7
    ∷ 0xc6e00bf3 ∷ 0xd5a79147 ∷ 0x06ca6351 ∷ 0x14292967 ∷ 0x27b70a85 ∷ 0x2e1b2138 ∷ 0x4d2c6dfc
    ∷ 0x53380d13 ∷ 0x650a7354 ∷ 0x766a0abb ∷ 0x81c2c92e ∷ 0x92722c85 ∷ 0xa2bfe8a1 ∷ 0xa81a664b
    ∷ 0xc24b8b70 ∷ 0xc76c51a3 ∷ 0xd192e819 ∷ 0xd6990624 ∷ 0xf40e3585 ∷ 0x106aa070 ∷ 0x19a4c116
    ∷ 0x1e376c08 ∷ 0x2748774c ∷ 0x34b0bcb5 ∷ 0x391c0cb3 ∷ 0x4ed8aa4a ∷ 0x5b9cca4f ∷ 0x682e6ff3
    ∷ 0x748f82ee ∷ 0x78a5636f ∷ 0x84c87814 ∷ 0x8cc70208 ∷ 0x90befffa ∷ 0xa4506ceb ∷ 0xbef9a3f7
    ∷ 0xc67178f2 ∷ []

-- `ctx->state[0]` to `ctx->state[7]`, and the working variables `a` to `h` that start from them.
pub record HashState : Type 0 where
  pub a : ℕ
  pub b : ℕ
  pub c : ℕ
  pub d : ℕ
  pub e : ℕ
  pub f : ℕ
  pub g : ℕ
  pub h : ℕ

-- The first loop: `n` words from byte `j` on, big end first.
load_words : ℕ → ℕ → List ℕ → List ℕ
load_words zero j block = []
load_words (suc n) j block =
    bit_or
      (bit_or (bit_or (shl32 (get_or block j 0) 24) (shl32 (get_or block (j + 1) 0) 16))
        (shl32 (get_or block (j + 2) 0) 8))
      (get_or block (j + 3) 0)
    ∷ load_words n (j + 4) block

-- The second loop: `n` more words behind those in `m`.
extend_words : ℕ → List ℕ → List ℕ
extend_words zero m = m
extend_words (suc n) m =
    let i = length m in
    extend_words n (
      m
      ++ u32 (
          sig_1 (get_or m (i - 2) 0)
          + get_or m (i - 7) 0
          + sig_0 (get_or m (i - 15) 0)
          + get_or m (i - 16) 0)
        ∷ [])

-- One pass of the third loop, with `k[i]` and `m[i]`.
round : ℕ → ℕ → HashState → HashState
round ki mi s =
    let t1 = u32 (s.h + ep_1 s.e + ch s.e s.f s.g + ki + mi) in
    let t2 = u32 (ep_0 s.a + maj s.a s.b s.c) in
    record {
      a = u32 (t1 + t2);
      b = s.a;
      c = s.b;
      d = s.c;
      e = u32 (s.d + t1);
      f = s.e;
      g = s.f;
      h = s.g;
    }

-- The third loop, over `k` and `m` together.
rounds : List ℕ → List ℕ → HashState → HashState
rounds [] ms s = s
rounds (k ∷ ks) [] s = s
rounds (k ∷ ks) (m ∷ ms) s = rounds ks ms (round k m s)

unfoldable pub transform : HashState → List ℕ → HashState
unfolding rotright ch maj ep_0 ep_1 sig_0 sig_1 round_constants load_words extend_words round rounds
transform s block =
    let t = rounds round_constants (extend_words 48 (load_words 16 0 block)) s in
    record {
      a = u32 (s.a + t.a);
      b = u32 (s.b + t.b);
      c = u32 (s.c + t.c);
      d = u32 (s.d + t.d);
      e = u32 (s.e + t.e);
      f = u32 (s.f + t.f);
      g = u32 (s.g + t.g);
      h = u32 (s.h + t.h);
    }
