-- ===== src/Kernel/Fs/Bitmap.antt =====
-- `balloc` and `bfree` of xv6-riscv/kernel/fs.c on the set of blocks in use.
use aca_riscv_secure_boot.Common.{
  Option-cases, ℕ, zero, suc, ◌+◌, ◌-◌, ◌*◌, ◌/◌, ◌%◌, ◌≡◌, ◌≢◌, ◌<◌, ◌≤◌, ◌⊎◌, refl, ap, ◌∙◌, sym,
  Bool, true, false, Bool-cases, inl, inr, arith, dec_lt, ltb, ltb→le, ◌==◌, if◌then◌else◌, none,
  some, ◌∷◌,
}
use mathlib.Core.Bool.{true≢false}
use aca_riscv_secure_boot.Common.Bits.{
  bit_at, without_bit, bit_at-with_bit, bit_at-without_bit, with_bit_small, without_bit_small,
}
use aca_riscv_secure_boot.Kernel.Outcome.{ok, panic}
use aca_riscv_secure_boot.Kernel.Fs.{
  Superblock, Disk, bitmap_block, bzero, find_free, take_block, balloc_loop, balloc, bfree,
}

-- The bit of a block in the free map.
abbrev pub is_used : Superblock → Disk → ℕ → Bool
is_used sb s b = bit_at (s.view (bitmap_block sb b) (b % 8192 / 8)) (b % 8)

-- The blocks hold bytes, and the blocks of the free map are marked in use themselves.
pub record IsDisk (sb : Superblock) (s : Disk) : Type 0 where
  pub bytes : (b i : ℕ) → s.view b i < 256
  pub map_inside : (b : ℕ) → b < sb.size → bitmap_block sb b < sb.size
  pub map_used : (b : ℕ) → b < sb.size → is_used sb s (bitmap_block sb b) ≡ true

find_free-some :
    (left bi b size : ℕ) (bytes : ℕ → ℕ) (k : ℕ)
    → find_free left bi b size bytes ≡ some k
    → (k < bi + left) × (bi ≤ k) × (b + k < size) × (bit_at (bytes (k / 8)) (k % 8) ≡ false)
unfolding find_free
find_free-some zero bi b size bytes k h = absurd (ground (arith, h))
find_free-some (suc left) bi b size bytes k h =
    ground (arith, h, find_free-some left (bi + 1) b size bytes k)

find_free_first :
    (left bi b size : ℕ) (bytes : ℕ → ℕ) (k j : ℕ)
    → find_free left bi b size bytes ≡ some k
    → bi ≤ j
    → j < k
    → bit_at (bytes (j / 8)) (j % 8) ≡ true
unfolding find_free
find_free_first zero bi b size bytes k j h l l' = absurd (ground (arith, h))
find_free_first (suc left) bi b size bytes k j h l l' =
    ground (arith, h, find_free_first left (bi + 1) b size bytes k j)

find_free-none :
    (left bi b size : ℕ) (bytes : ℕ → ℕ) (j : ℕ)
    → find_free left bi b size bytes ≡ none
    → bi ≤ j
    → j < bi + left
    → b + j < size
    → bit_at (bytes (j / 8)) (j % 8) ≡ true
unfolding find_free
find_free-none zero bi b size bytes j h l l' s = absurd (omega arith)
find_free-none (suc left) bi b size bytes j h l l' s =
    ground (arith, h, find_free-none left (bi + 1) b size bytes j)

-- Block `a` was taken: its bit alone has changed, it is zero, and nothing else is different but the
-- free map. Both changed blocks were logged.
pub record Allocated (sb : Superblock) (s : Disk) (a : ℕ) (s' : Disk) : Type 0 where
  pub small : a < sb.size
  pub free : is_used sb s a ≡ false
  pub sound : IsDisk sb s'
  pub bits : (k : ℕ) → k < sb.size → is_used sb s' k ≡ (if k == a then true else is_used sb s k)
  pub zeroed : (i : ℕ) → i < 1024 → s'.view a i ≡ 0
  pub same : (x i : ℕ) → x ≢ a → x ≢ bitmap_block sb a → s'.view x i ≡ s.view x i
  pub logs : s'.logged ≡ a ∷ bitmap_block sb a ∷ s.logged

module _ (sb : Superblock) (b bi : ℕ) (s : Disk) (disk : IsDisk sb s) (start : b % 8192 ≡ 0)
    (small : bi < 8192) (inside : b + bi < sb.size)
    (free : bit_at (s.view (bitmap_block sb b) (bi / 8)) (bi % 8) ≡ false) where
  place : (bitmap_block sb (b + bi) ≡ bitmap_block sb b) × ((b + bi) % 8192 ≡ bi)
  place = (omega arith, omega arith)

  free_here : is_used sb s (b + bi) ≡ false
  free_here =
      let (block, offset) = place in
      let bit : (b + bi) % 8 ≡ bi % 8 = omega arith in rw (block, offset, bit) free

  -- A block of the free map is in use, so it is not the one that is taken.
  not_map : (k : ℕ) → k < sb.size → bitmap_block sb k ≢ b + bi
  not_map k l e = ground (arith, rw e at (disk.map_used k l), free_here)

  taken_bytes : (x i : ℕ) → (take_block sb b bi s).view x i < 256
  unfolding take_block bzero
  taken_bytes x i = ground (
    arith,
    disk.bytes x i,
    with_bit_small (s.view (bitmap_block sb b) (bi / 8)) 0 (bi % 8)
        (disk.bytes (bitmap_block sb b) (bi / 8)) (omega arith) (omega arith),
  )

  taken_bits :
      (k : ℕ)
      → k < sb.size
      → is_used sb (take_block sb b bi s) k ≡ (if k == b + bi then true else is_used sb s k)
  unfolding take_block bzero
  taken_bits k l = ground (
    arith,
    not_map k l,
    bit_at-with_bit (s.view (bitmap_block sb b) (bi / 8)) (k % 8) (bi % 8)
        (disk.bytes (bitmap_block sb b) (bi / 8)) (omega arith) (omega arith),
  )

  take_block-Allocated : Allocated sb s (b + bi) (take_block sb b bi s)
  take_block-Allocated = record {
    small = inside;
    free = free_here;
    sound = record {
      bytes = taken_bytes;
      map_inside = disk.map_inside;
      map_used = λ k l.
          ground (arith, taken_bits (bitmap_block sb k) (disk.map_inside k l), disk.map_used k l);
    };
    bits = taken_bits;
    zeroed = λ i l. unfold take_block bzero in ground arith;
    same = λ x i p q. unfold take_block bzero in ground (arith, place.0);
    logs = unfold take_block bzero in ap (λ t. (b + bi) ∷ t ∷ s.logged) (sym place.0);
  }

-- The bit of a block within its block of the free map.
used_before :
    (sb : Superblock) (b : ℕ) (s : Disk)
    → b % 8192 ≡ 0
    → (i k : ℕ) → k ≡ b + i
    → i < 8192
    → bit_at (s.view (bitmap_block sb b) (i / 8)) (i % 8) ≡ true
    → is_used sb s k ≡ true
used_before sb b s start i k e small h =
    let block : bitmap_block sb k ≡ bitmap_block sb b = omega arith in
    let offset : k % 8192 / 8 ≡ i / 8 = omega arith in
    let bit : k % 8 ≡ i % 8 = omega arith in rw (block, offset, bit) h

-- From block `b` on.
balloc_loop-Allocated :
    (sb : Superblock) (fuel b : ℕ) (s : Disk)
    → IsDisk sb s
    → b % 8192 ≡ 0
    → sb.size < b + fuel * 8192
    → ((balloc_loop sb fuel b s ≡ (0, s)) × ((k : ℕ) → b ≤ k → k < sb.size → is_used sb s k ≡ true))
      ⊎ ((a : ℕ) × (s' : Disk) × (balloc_loop sb fuel b s ≡ (a, s'))
          × Allocated sb s a s'
          × ((k : ℕ) → b ≤ k → k < a → is_used sb s k ≡ true))
unfolding balloc_loop
balloc_loop-Allocated sb zero b s disk start enough = inl (refl, λ k l l'. absurd (omega arith))
balloc_loop-Allocated sb (suc fuel) b s disk start enough = elim (Bool-cases (ltb b sb.size)) [
  | inr t ↦ inl (rw t refl, λ k l l'. absurd (omega (arith, ltb→le _ _ t)))
  | inl t ↦ elim (Option-cases (find_free 8192 0 b sb.size (s.view (bitmap_block sb b)))) [
    | inr (bi, e) ↦
        let (small, low, inside, free) =
          find_free-some 8192 0 b sb.size (s.view (bitmap_block sb b)) bi e in
        inr (
          b + bi,
          take_block sb b bi s,
          rw (t, e) refl,
          take_block-Allocated sb b bi s disk start (omega arith) inside free,
          λ k l l'. used_before sb b s start (k - b) k (omega arith) (omega arith) (
              find_free_first 8192 0 b sb.size (s.view (bitmap_block sb b)) bi (k - b) e
                (omega arith) (omega arith)),
        )
    | inl e ↦
        let none_here = λ (k : ℕ) (l : b ≤ k) (h : k < b + 8192) (l' : k < sb.size).
          used_before sb b s start (k - b) k (omega arith) (omega arith) (
            find_free-none 8192 0 b sb.size (s.view (bitmap_block sb b)) (k - b) e (omega arith)
              (omega arith) (omega arith)) in
        elim (balloc_loop-Allocated sb fuel (b + 8192) s disk (omega arith) (omega arith)) [
          | inl (ran, full) ↦ inl (
            rw (t, e) ran,
            λ k l l'. elim (dec_lt k (b + 8192)) [
              | yes h ↦ none_here k l h l'
              | no h ↦ full k (omega arith) l'
            ],
          )
          | inr (a, s', ran, allocated, first) ↦ inr (
            a,
            s',
            rw (t, e) ran,
            allocated,
            λ k l l'. elim (dec_lt k (b + 8192)) [
              | yes h ↦ none_here k l h (omega (arith, allocated.small))
              | no h ↦ first k (omega arith) l'
            ],
          )
        ]
  ]
]

-- `balloc` takes the first block that is free, marks it alone, and zeroes it; every other block but
-- that of the free map keeps its data, and both were logged. It returns 0, and changes nothing, just
-- if every block is in use.
pub balloc-Allocated :
    (sb : Superblock) (s : Disk)
    → IsDisk sb s
    → ((balloc sb s ≡ (0, s)) × ((k : ℕ) → k < sb.size → is_used sb s k ≡ true))
      ⊎ ((a : ℕ) × (s' : Disk) × (balloc sb s ≡ (a, s'))
          × Allocated sb s a s'
          × ((k : ℕ) → k < a → is_used sb s k ≡ true))
unfolding balloc
balloc-Allocated sb s disk =
    elim (balloc_loop-Allocated sb (sb.size / 8192 + 1) 0 s disk refl (omega arith)) [
      | inl (ran, full) ↦ inl (ran, λ k l. full k (omega arith) l)
      | inr (a, s', ran, allocated, first) ↦
          inr (a, s', ran, allocated, λ k l. first k (omega arith) l)
    ]

-- Block `b` was given back: its bit alone has changed.
pub record Freed (sb : Superblock) (s : Disk) (b : ℕ) (s' : Disk) : Type 0 where
  pub bytes : (x i : ℕ) → s'.view x i < 256
  pub bits : (k : ℕ) → is_used sb s' k ≡ (if k == b then false else is_used sb s k)
  pub same : (x i : ℕ) → x ≢ bitmap_block sb b → s'.view x i ≡ s.view x i
  pub logs : s'.logged ≡ bitmap_block sb b ∷ s.logged

-- `bfree` panics on a block that is free. Otherwise it clears the bit of the block and changes
-- nothing else, and the block of the free map was logged.
bfree-Freed :
    (sb : Superblock) (b : ℕ) (s : Disk)
    → ((x i : ℕ) → s.view x i < 256)
    → ((is_used sb s b ≡ false) × (bfree sb b s ≡ panic))
      ⊎ ((is_used sb s b ≡ true) × ((s' : Disk) × (bfree sb b s ≡ ok s') × Freed sb s b s'))
unfolding bfree
bfree-Freed sb b s bytes =
    let bit : b % 8192 % 8 ≡ b % 8 = omega arith in
    let byte = s.view (bitmap_block sb b) (b % 8192 / 8) in
    let small = bytes (bitmap_block sb b) (b % 8192 / 8) in
    elim (Bool-cases (is_used sb s b)) [
      | inr t ↦ inl (t, rw (bit, t) refl)
      | inl t ↦ inr (
        t,
        (
          record {
            view = λ x y.
                if x == bitmap_block sb b
                then (if y == b % 8192 / 8 then without_bit byte (b % 8192 % 8) else s.view x y)
                else s.view x y;
            logged = bitmap_block sb b ∷ s.logged;
          },
          rw (bit, t) refl,
          record {
            bytes = λ x i. ground (
              arith,
              bytes x i,
              without_bit_small byte 0 (b % 8192 % 8) small (omega arith) (omega arith),
            );
            bits = λ k. ground (
              arith,
              bit_at-without_bit byte (k % 8) (b % 8192 % 8) small (omega arith) (omega arith),
            );
            same = λ x i h. ground (arith, h);
            logs = refl;
          },
        ),
      )
    ]

Allocated-bfree :
    (sb : Superblock) (s s' : Disk) (a : ℕ)
    → Allocated sb s a s'
    → (s'' : Disk) × (bfree sb a s' ≡ ok s'')
      × ((k : ℕ) → k < sb.size → is_used sb s'' k ≡ is_used sb s k)
Allocated-bfree sb s s' a allocated = elim (bfree-Freed sb a s' allocated.sound.bytes) [
  | inl (free, ran) ↦ absurd (ground (arith, free, allocated.bits a allocated.small))
  | inr (used, (s'', ran, freed)) ↦
      (s'', ran, λ k l. ground (arith, freed.bits k, allocated.bits k l, allocated.free))
]

-- If some block is free, `balloc` takes one, and `bfree` gives it back without a panic: the free map
-- is then as it was.
balloc-bfree :
    (sb : Superblock) (s : Disk)
    → IsDisk sb s
    → (k : ℕ) → k < sb.size
    → is_used sb s k ≡ false
    → (s'' : Disk) × (bfree sb (balloc sb s).0 (balloc sb s).1 ≡ ok s'')
      × ((j : ℕ) → j < sb.size → is_used sb s'' j ≡ is_used sb s j)
balloc-bfree sb s disk k l free = elim (balloc-Allocated sb s disk) [
  | inl (ran, full) ↦ absurd (true≢false (sym (full k l) ∙ free))
  | inr (a, s', ran, allocated, first) ↦ rw ran (Allocated-bfree sb s s' a allocated)
]
