-- ===== src/Kernel/Bio/Changes.antt =====
-- Changes of the buffer cache of xv6-riscv/kernel/bio.c that keep it sound.
use aca_riscv_secure_boot.Common.{
  ℕ, ◌≡◌, ◌≢◌, ◌<◌, refl, ap, sym, subst, ◌∙◌, true, false, ◌&&◌, Bool-cases, inl, inr, arith, ◌==◌,
  List, ◌∷◌, ◌++◌, length-append, member,
}
use aca_riscv_secure_boot.Kernel.Outcome.{ok, ok-injective}
use aca_riscv_secure_boot.Kernel.Sleeplock.{holdingsleep}
use aca_riscv_secure_boot.Kernel.Bio.{Bcache, Buffer, is_block, set_buf, bwrite, move_front}
use aca_riscv_secure_boot.Kernel.Bio.Order.{member-append}
use aca_riscv_secure_boot.Kernel.Bio.Links.{move_front-IsRing}
use aca_riscv_secure_boot.Kernel.Bio.Cache.{IsCache, recycled}

-- What a change of a buffer leaves of it, it leaves of every buffer.
pub set_buf-same :
    {A : Type 0} (f : Buffer → A) (b : ℕ) (v : Buffer) (c : Bcache) (x : ℕ)
    → f v ≡ f (c.buf b)
    → f ((set_buf b v c).buf x) ≡ f (c.buf x)
set_buf-same f b v c x h = elim (Bool-cases (x == b)) [
  | inl u ↦ (let e : x ≡ b = ground arith in rw (u, e) h)
  | inr u ↦ rw u refl
]

-- A buffer that stays for its block is changed, and is as the disk if no one uses it.
pub set_buf-IsCache :
    (order : List ℕ) (c : Bcache) (b : ℕ) (v : Buffer)
    → IsCache order c
    → v.dev ≡ (c.buf b).dev
    → v.blockno ≡ (c.buf b).blockno
    → (b < 30 → v.valid ≡ true → v.dev ≢ 0)
    → (b < 30 → v.refcnt ≡ 0 → v.valid ≡ true → v.data_at ≡ c.disk v.dev v.blockno)
    → IsCache order (set_buf b v c)
set_buf-IsCache order c b v inv d n k h = record {
  ring = inv.ring;
  all = inv.all;
  few = inv.few;
  unique = λ x y l l' nz e e'.
      let dev = λ (z : ℕ). set_buf-same (λ u. u.dev) b v c z d in
      let block = λ (z : ℕ). set_buf-same (λ u. u.blockno) b v c z n in
      inv.unique x y l l' (λ z. nz (dev x ∙ z)) (sym (dev x) ∙ e ∙ dev y)
        (sym (block x) ∙ e' ∙ block y);
  known = λ x l t. elim (Bool-cases (x == b)) [
    | inl u ↦ (let below : b < 30 = ground (arith, u, l) in rw u (k below (rw u at t)))
    | inr u ↦ rw u (inv.known x l (rw u at t))
  ];
  clean = λ x l z t. elim (Bool-cases (x == b)) [
    | inl u ↦ (let below : b < 30 = ground (arith, u, l) in rw u (h below (rw u at z) (rw u at t)))
    | inr u ↦ rw u (inv.clean x l (rw u at z) (rw u at t))
  ];
}

-- A buffer that no one uses is taken for a block that no buffer is for.
pub recycled-IsCache :
    (dev blockno : ℕ) (order : List ℕ) (c : Bcache) (b : ℕ)
    → IsCache order c
    → ((x : ℕ) → x < 30 → is_block dev blockno (c.buf x) ≡ false)
    → IsCache order (recycled b dev blockno c)
recycled-IsCache dev blockno order c b inv none_ = record {
  ring = inv.ring;
  all = inv.all;
  few = inv.few;
  unique = λ x y l l' nz e e'. elim (Bool-cases (x == b)) [
    | inl u ↦ elim (Bool-cases (y == b)) [
      | inl v ↦ ground (arith, u, v)
      | inr v ↦ absurd (ground (arith, none_ y l', rw (u, v) at e, rw (u, v) at e'))
    ]
    | inr u ↦ elim (Bool-cases (y == b)) [
      | inl v ↦ absurd (ground (arith, none_ x l, rw (u, v) at e, rw (u, v) at e'))
      | inr v ↦ inv.unique x y l l' (rw u at nz) (rw (u, v) at e) (rw (u, v) at e')
    ]
  ];
  known = λ x l t. elim (Bool-cases (x == b)) [
    | inl u ↦ ground (arith, rw u at t)
    | inr u ↦ rw u (inv.known x l (rw u at t))
  ];
  clean = λ x l z t. elim (Bool-cases (x == b)) [
    | inl u ↦ ground (arith, rw u at t)
    | inr u ↦ rw u (inv.clean x l (rw u at z) (rw u at t))
  ];
}

-- The disk gets the contents of a buffer.
pub bwrite-IsCache :
    (pid b : ℕ) (order : List ℕ) (c c' : Bcache)
    → b < 30
    → (c.buf b).valid ≡ true
    → bwrite pid b c ≡ ok c'
    → IsCache order c
    → IsCache order c'
unfolding bwrite
bwrite-IsCache pid b order c c' l t ran inv = elim (Bool-cases (holdingsleep pid (c.buf b).lock)) [
  | inr u ↦ ground (arith, rw u at ran)
  | inl u ↦ subst (IsCache order) (ok-injective (rw u at ran)) (record {
    ring = inv.ring;
    all = inv.all;
    few = inv.few;
    unique = inv.unique;
    known = inv.known;
    clean = λ x m z v.
        elim (Bool-cases
          ((c.buf x).dev == (c.buf b).dev && (c.buf x).blockno == (c.buf b).blockno)) [
            | inl w ↦
                let same : x ≡ b =
                  inv.unique x b m l (inv.known x m v) (ground (arith, w)) (ground (arith, w)) in
                rw w (ap (λ y. (c.buf y).data_at) same)
            | inr w ↦ rw w (inv.clean x m z v)
          ];
  })
]

pub move_front-IsCache :
    (us : List ℕ) (b : ℕ) (vs : List ℕ) (c : Bcache)
    → IsCache (us ++ b ∷ vs) c
    → IsCache (b ∷ us ++ vs) (move_front b c)
unfolding move_front member
move_front-IsCache us b vs c inv = record {
  ring = move_front-IsRing us b vs c inv.ring;
  all = λ x. (
    λ q. (inv.all x).0 (ground (arith, q, member-append x us (b ∷ vs), member-append x us vs)),
    λ l. ground (arith, (inv.all x).1 l, member-append x us (b ∷ vs), member-append x us vs),
  );
  few = omega (arith, length-append us (b ∷ vs), length-append us vs, inv.few);
  unique = inv.unique;
  known = inv.known;
  clean = inv.clean;
}
