-- ===== src/Kernel/Bio/Saved.antt =====
-- Which buffers of xv6-riscv/kernel/bio.c hold what the disk holds. Who changes the data of a buffer has
-- to write it before the last reference goes; `edited b` says that this is still to be done.
use aca_riscv_secure_boot.Common.{
  ℕ, ◌+◌, ◌-◌, ◌^◌, ◌≡◌, ◌<◌, refl, ap, sym, subst, ◌∙◌, Bool, true, false, ◌&&◌, Bool-cases, inl,
  inr, arith, ◌==◌, if◌then◌else◌, List,
}
use aca_riscv_secure_boot.Common.Word.{u32}
use aca_riscv_secure_boot.Kernel.Outcome.{ok, ok-injective, bind_ok}
use aca_riscv_secure_boot.Kernel.Sleeplock.{holdingsleep, acquiresleep}
use aca_riscv_secure_boot.Kernel.Bio.{
  Bcache, Buffer, set_buf, bget_ref, bread_locked, bwrite, drop_buf, move_front,
}
use aca_riscv_secure_boot.Kernel.Bio.Cache.{IsCache, bget_ref-Got, counted, recycled}

-- A valid buffer that was not edited since it was read or written is as the disk, and one that no
-- one uses was not.
pub record IsSaved (edited : ℕ → Bool) (c : Bcache) : Type 0 where
  pub saved :
      (b : ℕ)
      → b < 30
      → (c.buf b).valid ≡ true
      → edited b ≡ false
      → (c.buf b).data_at ≡ c.disk (c.buf b).dev (c.buf b).blockno
  pub idle : (b : ℕ) → b < 30 → (c.buf b).refcnt ≡ 0 → edited b ≡ false

abbrev pub mark : ℕ → Bool → (ℕ → Bool) → ℕ → Bool
mark b t edited x = if x == b then t else edited x

pub set_buf-IsSaved :
    (edited : ℕ → Bool) (c : Bcache) (b : ℕ) (v : Buffer)
    → IsSaved edited c
    → (b < 30 → v.valid ≡ true → edited b ≡ false → v.data_at ≡ c.disk v.dev v.blockno)
    → (b < 30 → v.refcnt ≡ 0 → edited b ≡ false)
    → IsSaved edited (set_buf b v c)
set_buf-IsSaved edited c b v inv h k = record {
  saved = λ x l t e. elim (Bool-cases (x == b)) [
    | inl u ↦
        let same : x ≡ b = ground (arith, u) in
        rw u (h (ground (arith, u, l)) (rw u at t) (subst (λ y. edited y ≡ false) same e))
    | inr u ↦ rw u (inv.saved x l (rw u at t) e)
  ];
  idle = λ x l z. elim (Bool-cases (x == b)) [
    | inl u ↦
        let same : b ≡ x = ground (arith, u) in
        subst (λ y. edited y ≡ false) same (k (ground (arith, u, l)) (rw u at z))
    | inr u ↦ inv.idle x l (rw u at z)
  ];
}

pub mark-IsSaved :
    (edited : ℕ → Bool) (c : Bcache) (b : ℕ)
    → 0 < (c.buf b).refcnt
    → IsSaved edited c
    → IsSaved (mark b true edited) c
mark-IsSaved edited c b p inv = record {
  saved = λ x l t e. ground (arith, inv.saved x l t, e);
  idle = λ x l z. elim (Bool-cases (x == b)) [
    | inl u ↦
        let same : x ≡ b = ground (arith, u) in
        absurd (omega (arith, p, subst (λ y. (c.buf y).refcnt ≡ 0) same z))
    | inr u ↦ rw u (inv.idle x l z)
  ];
}

pub counted-IsSaved :
    (edited : ℕ → Bool) (c : Bcache) (b : ℕ)
    → (c.buf b).refcnt < 2 ^ 32 - 1
    → IsSaved edited c
    → IsSaved edited (counted b c)
counted-IsSaved edited c b l inv =
    set_buf-IsSaved edited c b (record (c.buf b) { refcnt = u32 ((c.buf b).refcnt + 1) }) inv
      (λ m t e. inv.saved b m t e) (λ m z. absurd (omega (arith, z, l)))

pub drop_buf-IsSaved :
    (edited : ℕ → Bool) (c : Bcache) (b : ℕ)
    → 0 < (c.buf b).refcnt
    → (c.buf b).refcnt < 2 ^ 32
    → ((c.buf b).refcnt ≡ 1 → edited b ≡ false)
    → IsSaved edited c
    → IsSaved edited (drop_buf b c)
drop_buf-IsSaved edited c b p l last inv =
    set_buf-IsSaved edited c b (record (c.buf b) { refcnt = u32 ((c.buf b).refcnt + (2 ^ 32 - 1)) })
      inv (λ m t e. inv.saved b m t e) (λ m z. last (omega (arith, z, p, l)))

pub move_front-IsSaved :
    (edited : ℕ → Bool) (b : ℕ) (c : Bcache) → IsSaved edited c → IsSaved edited (move_front b c)
unfolding move_front
move_front-IsSaved edited b c inv = record { saved = inv.saved; idle = inv.idle }

recycled-IsSaved :
    (edited : ℕ → Bool) (dev blockno b : ℕ) (c : Bcache)
    → (c.buf b).refcnt ≡ 0
    → IsSaved edited c
    → IsSaved edited (recycled b dev blockno c)
recycled-IsSaved edited dev blockno b c z inv =
    set_buf-IsSaved edited c b
      (record (c.buf b) { dev = dev; blockno = blockno; valid = false; refcnt = 1 }) inv
      (λ m t e. ground (arith, t)) (λ m w. inv.idle b m z)

pub Got-IsSaved :
    (edited : ℕ → Bool) (dev blockno : ℕ) (order : List ℕ) (c : Bcache) (b : ℕ) (c' : Bcache)
    → bget_ref dev blockno c ≡ ok (b, c')
    → (c.buf b).refcnt < 2 ^ 32 - 1
    → IsCache order c
    → IsSaved edited c
    → IsSaved edited c'
Got-IsSaved edited dev blockno order c b c' ran l cache inv =
    elim (bget_ref-Got dev blockno order c cache) [
      | inl (x, m, t, e) ↦
          let same = ok-injective (sym e ∙ ran) in
          subst (λ r. IsSaved edited r.1) same
            (counted-IsSaved edited c x
              (subst (λ y. (c.buf y).refcnt < 2 ^ 32 - 1) (sym (ap (λ r. r.0) same)) l) inv)
      | inr (none_, inl (us, x, vs, e', m, z, behind, e)) ↦
          subst (λ r. IsSaved edited r.1) (ok-injective (sym e ∙ ran))
            (recycled-IsSaved edited dev blockno x c z inv)
      | inr (none_, inr (full, e)) ↦ ground (arith, sym e ∙ ran)
    ]

pub bread_locked-IsSaved :
    (edited : ℕ → Bool) (pid b : ℕ) (c c' : Bcache)
    → 0 < (c.buf b).refcnt
    → bread_locked pid b c ≡ ok c'
    → IsSaved edited c
    → IsSaved edited c'
unfolding bread_locked
bread_locked-IsSaved edited pid b c c' p ran inv =
    let (lk, _, rest) = bind_ok (acquiresleep pid (c.buf b).lock) _ c' ran in
    let v = record (c.buf b) { lock = lk } in
    let read = record v { data_at = c.disk v.dev v.blockno; valid = true } in
    elim (Bool-cases (c.buf b).valid) [
      | inl u ↦
          subst (IsSaved edited)
            (ap (λ (t : Bool). if t then set_buf b v c else set_buf b read c) (sym u)
              ∙ ok-injective rest)
            (set_buf-IsSaved edited c b v inv (λ m t e. inv.saved b m t e) (λ m z. inv.idle b m z))
      | inr u ↦
          subst (IsSaved edited)
            (ap (λ (t : Bool). if t then set_buf b v c else set_buf b read c) (sym u)
              ∙ ok-injective rest)
            (set_buf-IsSaved edited c b read inv (λ m t e. refl) (λ m z. inv.idle b m z))
    ]

-- After a write the buffer is as the disk, and a buffer for another block is as it was.
pub bwrite-IsSaved :
    (edited : ℕ → Bool) (pid b : ℕ) (order : List ℕ) (c c' : Bcache)
    → b < 30
    → bwrite pid b c ≡ ok c'
    → IsCache order c
    → IsSaved edited c
    → IsSaved (mark b false edited) c'
unfolding bwrite
bwrite-IsSaved edited pid b order c c' l ran cache inv =
    elim (Bool-cases (holdingsleep pid (c.buf b).lock)) [
      | inr u ↦ ground (arith, rw u at ran)
      | inl u ↦ subst (IsSaved (mark b false edited)) (ok-injective (rw u at ran)) (record {
        saved = λ x m v e.
            elim (Bool-cases
              ((c.buf x).dev == (c.buf b).dev && (c.buf x).blockno == (c.buf b).blockno)) [
                | inl w ↦
                    let same : x ≡ b =
                      cache.unique x b m l (cache.known x m v) (ground (arith, w))
                        (ground (arith, w)) in
                    rw w (ap (λ y. (c.buf y).data_at) same)
                | inr w ↦ rw w (inv.saved x m v (other x w e))
              ];
        idle = λ x m z. ground (arith, inv.idle x m z);
      })
    ]
  where
    other :
        (x : ℕ)
        → ((c.buf x).dev == (c.buf b).dev && (c.buf x).blockno == (c.buf b).blockno) ≡ false
        → mark b false edited x ≡ false
        → edited x ≡ false
    other x w e = elim (Bool-cases (x == b)) [
      | inl t ↦ let same : x ≡ b = ground (arith, t) in absurd (ground (arith, rw same at w))
      | inr t ↦ rw t at e
    ]
