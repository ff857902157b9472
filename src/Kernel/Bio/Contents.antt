-- ===== src/Kernel/Bio/Contents.antt =====
-- What a block holds, through the buffer cache of xv6-riscv/kernel/bio.c.
use aca_riscv_secure_boot.Common.{
  ℕ, ◌≡◌, ◌≢◌, ◌<◌, ◌⊎◌, ap, sym, subst, ◌∙◌, true, false, ◌&&◌, Bool-cases, inl, inr, arith, ◌==◌,
  List,
}
use aca_riscv_secure_boot.Common.Memory.{Memory}
use aca_riscv_secure_boot.Kernel.Sleeplock.{Sleeplock}
use aca_riscv_secure_boot.Kernel.Bio.{Bcache, Buffer, is_block, set_buf}
use aca_riscv_secure_boot.Kernel.Bio.Cache.{IsCache, IsUnique, recycled}

-- The data of a block: in the valid buffer that is for it, or on the disk if there is none.
abbrev pub Content : Bcache → ℕ → ℕ → Memory → Type 0
Content c dev blockno d =
    ((b : ℕ) × (b < 30)
      × (is_block dev blockno (c.buf b) ≡ true)
      × ((c.buf b).valid ≡ true)
      × (d ≡ (c.buf b).data_at))
    ⊎ (((b : ℕ) → b < 30 → is_block dev blockno (c.buf b) ≡ true → (c.buf b).valid ≡ false)
        × (d ≡ c.disk dev blockno))

-- A buffer keeps its block, whether it is valid, and its data.
pub Content-kept :
    (c : Bcache) (b : ℕ) (v : Buffer) (dev blockno : ℕ) (d : Memory)
    → is_block dev blockno v ≡ is_block dev blockno (c.buf b)
    → v.valid ≡ (c.buf b).valid
    → v.data_at ≡ (c.buf b).data_at
    → Content (set_buf b v c) dev blockno d
    → Content c dev blockno d
Content-kept c b v dev blockno d e e' e'' (inl (x, l, is, t, q)) = elim (Bool-cases (x == b)) [
  | inr u ↦ inl (x, l, rw u at is, rw u at t, rw u at q)
  | inl u ↦
      let below : b < 30 = ground (arith, u, l) in
      inl (b, below, sym e ∙ rw u at is, sym e' ∙ rw u at t, (rw u at q) ∙ e'')
]
Content-kept c b v dev blockno d e e' e'' (inr (none_, q)) = inr (
  λ x l is. elim (Bool-cases (x == b)) [
    | inr u ↦ rw u at (none_ x l (rw u is))
    | inl u ↦
        let same : x ≡ b = ground (arith, u) in
        let is_b = subst (λ y. is_block dev blockno (c.buf y) ≡ true) same is in
        subst (λ y. (c.buf y).valid ≡ false) (sym same)
          (sym e' ∙ (rw u at (none_ x l (rw u (e ∙ is_b)))))
  ],
  q,
)

-- A buffer that no one uses is taken for another block: what it held is on the disk.
pub Content-recycled :
    (order : List ℕ) (c : Bcache) (b dev0 block0 dev blockno : ℕ) (d : Memory)
    → IsCache order c
    → b < 30
    → (c.buf b).refcnt ≡ 0
    → Content (recycled b dev0 block0 c) dev blockno d
    → Content c dev blockno d
Content-recycled order c b dev0 block0 dev blockno d inv m z (inl (x, l, is, t, q)) =
    elim (Bool-cases (x == b)) [
      | inr u ↦ inl (x, l, rw u at is, rw u at t, rw u at q)
      | inl u ↦ ground (arith, rw u at t)
    ]
Content-recycled order c b dev0 block0 dev blockno d inv m z (inr (none_, q)) =
    elim (Bool-cases (is_block dev blockno (c.buf b) && (c.buf b).valid)) [
      | inl w ↦
          let valid : (c.buf b).valid ≡ true = ground (arith, w) in
          let dev_b : (c.buf b).dev ≡ dev = ground (arith, w) in
          let block_b : (c.buf b).blockno ≡ blockno = ground (arith, w) in
          let flushed : (c.buf b).data_at ≡ c.disk dev blockno =
            rw (dev_b, block_b) at (inv.clean b m z valid) in
          inl (b, m, ground (arith, w), valid, q ∙ sym flushed)
      | inr w ↦ inr (
        λ x l is. elim (Bool-cases (x == b)) [
          | inr u ↦ rw u at (none_ x l (rw u is))
          | inl u ↦
              let same : x ≡ b = ground (arith, u) in
              let is_b = subst (λ y. is_block dev blockno (c.buf y) ≡ true) same is in
              subst (λ y. (c.buf y).valid ≡ false) (sym same) (rw is_b at w)
        ],
        q,
      )
    ]

-- A buffer is filled from the disk.
abbrev pub filled : ℕ → Sleeplock → Bcache → Bcache
filled b lk c =
    set_buf b
      (record (c.buf b) {
        lock = lk;
        data_at = c.disk (c.buf b).dev (c.buf b).blockno;
        valid = true;
      })
      c

pub Content-filled :
    (c : Bcache) (b : ℕ) (lk : Sleeplock) (dev blockno : ℕ) (d : Memory)
    → IsUnique c
    → b < 30
    → (c.buf b).dev ≢ 0
    → (c.buf b).valid ≡ false
    → Content (filled b lk c) dev blockno d
    → Content c dev blockno d
Content-filled c b lk dev blockno d unique m nz f (inl (x, l, is, t, q)) =
    elim (Bool-cases (x == b)) [
      | inr u ↦ inl (x, l, rw u at is, rw u at t, rw u at q)
      | inl u ↦
          let is_b : is_block dev blockno (c.buf b) ≡ true = rw u at is in
          let dev_b : (c.buf b).dev ≡ dev = ground (arith, is_b) in
          let block_b : (c.buf b).blockno ≡ blockno = ground (arith, is_b) in
          inr (
            λ y l' is_y.
                let same : y ≡ b =
                  unique y b l' m (λ z. nz (ground (arith, is_y, is_b, z)))
                    (ground (arith, is_y, is_b)) (ground (arith, is_y, is_b)) in
                subst (λ z. (c.buf z).valid ≡ false) (sym same) f,
            (rw u at q) ∙ ap (λ z. c.disk z (c.buf b).blockno) dev_b ∙ ap (c.disk dev) block_b,
          )
    ]
Content-filled c b lk dev blockno d unique m nz f (inr (none_, q)) = inr (
  λ x l is. elim (Bool-cases (x == b)) [
    | inr u ↦ rw u at (none_ x l (rw u is))
    | inl u ↦
        let same : x ≡ b = ground (arith, u) in subst (λ y. (c.buf y).valid ≡ false) (sym same) f
  ],
  q,
)
