-- ===== src/Kernel/Bio/Read.antt =====
-- `bread` of xv6-riscv/kernel/bio.c.
use aca_riscv_secure_boot.Common.{
  ℕ, ◌+◌, ◌≡◌, ◌≢◌, ◌<◌, refl, ap, sym, subst, ◌∙◌, Bool, true, Bool-cases, inl, inr, arith,
  if◌then◌else◌, List, eq→==,
}
use aca_riscv_secure_boot.Common.Memory.{Memory}
use aca_riscv_secure_boot.Common.Word.{u32}
use aca_riscv_secure_boot.Kernel.Outcome.{ok, ok-injective, bind_ok}
use aca_riscv_secure_boot.Kernel.Sleeplock.{acquiresleep}
use aca_riscv_secure_boot.Kernel.Bio.{
  Bcache, Buffer, is_block, set_buf, bget_ref, bread_locked, bread,
}
use aca_riscv_secure_boot.Kernel.Bio.Cache.{IsCache, IsUnique, bget_ref-Got, counted}
use aca_riscv_secure_boot.Kernel.Bio.Changes.{recycled-IsCache, set_buf-same}
use aca_riscv_secure_boot.Kernel.Bio.Contents.{
  Content, Content-kept, Content-recycled, Content-filled,
}

-- The buffer `b` is valid, and holds what the block held in `c`; no block gets new contents.
abbrev pub IsRead : ℕ → ℕ → Bcache → ℕ → Bcache → Type 0
IsRead dev blockno c b c' =
    ((c'.buf b).valid ≡ true)
    × (is_block dev blockno (c'.buf b) ≡ true)
    × Content c dev blockno ((c'.buf b).data_at)
    × ((dev' blockno' : ℕ) (d : Memory) → Content c' dev' blockno' d → Content c dev' blockno' d)

-- The buffer that `bget_ref` returns.
abbrev IsBget : ℕ → ℕ → Bcache → ℕ → Bcache → Type 0
IsBget dev blockno c b c' =
    (b < 30)
    × (is_block dev blockno (c'.buf b) ≡ true)
    × IsUnique c'
    × ((dev' blockno' : ℕ) (d : Memory) → Content c' dev' blockno' d → Content c dev' blockno' d)

counted-IsBget :
    (dev blockno : ℕ) (c : Bcache) (b : ℕ)
    → IsUnique c
    → b < 30
    → is_block dev blockno (c.buf b) ≡ true
    → IsBget dev blockno c b (counted b c)
counted-IsBget dev blockno c b unique l t =
    let v = record (c.buf b) { refcnt = u32 ((c.buf b).refcnt + 1) } in
    let dev_same = λ (z : ℕ). set_buf-same (λ u. u.dev) b v c z refl in
    let block_same = λ (z : ℕ). set_buf-same (λ u. u.blockno) b v c z refl in
    (
      l,
      set_buf-same (is_block dev blockno) b v c b refl ∙ t,
      λ x y m m' nz e e'.
          unique x y m m' (λ z. nz (dev_same x ∙ z)) (sym (dev_same x) ∙ e ∙ dev_same y)
            (sym (block_same x) ∙ e' ∙ block_same y),
      λ dev' blockno' d. Content-kept c b v dev' blockno' d refl refl refl,
    )

bget_ref-IsBget :
    (dev blockno : ℕ) (order : List ℕ) (c : Bcache) (b : ℕ) (c' : Bcache)
    → IsCache order c
    → bget_ref dev blockno c ≡ ok (b, c')
    → IsBget dev blockno c b c'
bget_ref-IsBget dev blockno order c b c' inv ran = elim (bget_ref-Got dev blockno order c inv) [
  | inl (x, m, t, e) ↦
      subst (λ r. IsBget dev blockno c r.0 r.1) (ok-injective (sym e ∙ ran))
        (counted-IsBget dev blockno c x inv.unique m t)
  | inr (none_, inl (us, x, vs, e', m, z, behind, e)) ↦
      subst (λ r. IsBget dev blockno c r.0 r.1) (ok-injective (sym e ∙ ran))
        (
          m,
          ground (arith, eq→== x x refl),
          (recycled-IsCache dev blockno order c x inv none_).unique,
          λ dev' blockno' d. Content-recycled order c x dev blockno dev' blockno' d inv m z,
        )
  | inr (none_, inr (full, e)) ↦ ground (arith, sym e ∙ ran)
]

-- A valid buffer for the block takes the place of `b`.
set_buf-IsRead :
    (dev blockno b : ℕ) (w : Buffer) (c c' : Bcache)
    → b < 30
    → w.valid ≡ true
    → is_block dev blockno w ≡ true
    → ((dev' blockno' : ℕ) (d : Memory)
        → Content (set_buf b w c') dev' blockno' d
        → Content c dev' blockno' d)
    → IsRead dev blockno c b (set_buf b w c')
set_buf-IsRead dev blockno b w c c' l v t kept =
    let at_b : (set_buf b w c').buf b ≡ w = rw (eq→== b b refl) refl in
    let valid_b = ap (λ u. u.valid) at_b ∙ v in
    let block_b = ap (is_block dev blockno) at_b ∙ t in
    (valid_b, block_b, kept dev blockno _ (inl (b, l, block_b, valid_b, refl)), kept)

locked-IsRead :
    (dev blockno pid b : ℕ) (c c' c'' : Bcache)
    → dev ≢ 0
    → IsBget dev blockno c b c'
    → bread_locked pid b c' ≡ ok c''
    → IsRead dev blockno c b c''
unfolding bread_locked
locked-IsRead dev blockno pid b c c' c'' nz (l, t, unique, kept) ran =
    let (lk, _, rest) = bind_ok (acquiresleep pid (c'.buf b).lock) _ c'' ran in
    let v = record (c'.buf b) { lock = lk } in
    let read = record v { data_at = c'.disk v.dev v.blockno; valid = true } in
    elim (Bool-cases (c'.buf b).valid) [
      | inl u ↦
          subst (IsRead dev blockno c b)
            (ap (λ (x : Bool). if x then set_buf b v c' else set_buf b read c') (sym u)
              ∙ ok-injective rest)
            (set_buf-IsRead dev blockno b v c c' l u t (λ dev' blockno' d h.
              kept dev' blockno' d (Content-kept c' b v dev' blockno' d refl refl refl h)))
      | inr u ↦
          subst (IsRead dev blockno c b)
            (ap (λ (x : Bool). if x then set_buf b v c' else set_buf b read c') (sym u)
              ∙ ok-injective rest)
            (set_buf-IsRead dev blockno b read c c' l refl t (λ dev' blockno' d h.
              kept dev' blockno' d (
                Content-filled c' b lk dev' blockno' d unique l (λ z. nz (ground (arith, z, t))) u
                  h)))
    ]

-- `bread` reads a block. In a sound cache, the buffer that it returns is valid, is for the block, and
-- holds what the block held before, in the buffer that was for it or on the disk; and no other block
-- gets new contents, also when a buffer was recycled.
pub bread-Content :
    (pid dev blockno : ℕ) (order : List ℕ) (c : Bcache) (b : ℕ) (c' : Bcache)
    → dev ≢ 0
    → IsCache order c
    → bread pid dev blockno c ≡ ok (b, c')
    → IsRead dev blockno c b c'
unfolding bread
bread-Content pid dev blockno order c b c' nz inv ran =
    let ((x, c1), got, rest) = bind_ok (bget_ref dev blockno c) _ (b, c') ran in
    let (c2, locked, end) = bind_ok (bread_locked pid x c1) _ (b, c') rest in
    subst (λ r. IsRead dev blockno c r.0 r.1) (ok-injective end)
      (locked-IsRead dev blockno pid x c c1 c2 nz (bget_ref-IsBget dev blockno order c x c1 inv got)
        locked)
