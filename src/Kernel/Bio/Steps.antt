-- ===== src/Kernel/Bio/Steps.antt =====
-- The operations of the buffer cache of xv6-riscv/kernel/bio.c keep it sound.
use aca_riscv_secure_boot.Common.{
  ℕ, ◌+◌, ◌-◌, ◌^◌, ◌≡◌, ◌≢◌, ◌<◌, ◌⊎◌, refl, ap, sym, subst, ◌∙◌, Bool, true, false, Bool-cases,
  inl, inr, arith, ◌==◌, if◌then◌else◌, List, ◌∷◌, ◌++◌, eq→==,
}
use aca_riscv_secure_boot.Common.Word.{u32}
use aca_riscv_secure_boot.Kernel.Outcome.{ok, ok-injective, bind_ok}
use aca_riscv_secure_boot.Kernel.Sleeplock.{holdingsleep, releasesleep, acquiresleep}
use aca_riscv_secure_boot.Kernel.Bio.{
  Bcache, set_buf, bget_ref, bread_locked, brelse, drop_buf, move_front,
}
use aca_riscv_secure_boot.Kernel.Bio.Order.{member-split}
use aca_riscv_secure_boot.Kernel.Bio.Cache.{IsCache, bget_ref-Got, counted}
use aca_riscv_secure_boot.Kernel.Bio.Saved.{
  IsSaved, set_buf-IsSaved, drop_buf-IsSaved, move_front-IsSaved,
}
use aca_riscv_secure_boot.Kernel.Bio.Changes.{set_buf-IsCache, recycled-IsCache, move_front-IsCache}

if_cases :
    {A : Type 0} (t : Bool) (x y : A) → ((if t then x else y) ≡ x) ⊎ ((if t then x else y) ≡ y)
if_cases true x y = inl refl
if_cases false x y = inr refl

-- With one reference left a valid buffer is as the disk.
abbrev pub IsFlushed : ℕ → Bcache → Type 0
IsFlushed b c =
    (c.buf b).refcnt ≡ 1
    → (c.buf b).valid ≡ true
    → (c.buf b).data_at ≡ c.disk (c.buf b).dev (c.buf b).blockno

pub counted-IsCache :
    (order : List ℕ) (c : Bcache) (b : ℕ)
    → (c.buf b).refcnt < 2 ^ 32 - 1
    → IsCache order c
    → IsCache order (counted b c)
counted-IsCache order c b l inv =
    set_buf-IsCache order c b (record (c.buf b) { refcnt = u32 ((c.buf b).refcnt + 1) }) inv refl
      refl (λ m t. inv.known b m t) (λ m z t. absurd (omega (arith, z, l)))

pub drop_buf-IsCache :
    (order : List ℕ) (c : Bcache) (b : ℕ)
    → 0 < (c.buf b).refcnt
    → (c.buf b).refcnt < 2 ^ 32
    → IsFlushed b c
    → IsCache order c
    → IsCache order (drop_buf b c)
drop_buf-IsCache order c b p l fl inv =
    set_buf-IsCache order c b (record (c.buf b) { refcnt = u32 ((c.buf b).refcnt + (2 ^ 32 - 1)) })
      inv refl refl (λ m t. inv.known b m t) (λ m z t. fl (omega (arith, z, p, l)) t)

pub Got-IsCache :
    (dev blockno : ℕ) (order : List ℕ) (c : Bcache) (b : ℕ) (c' : Bcache)
    → bget_ref dev blockno c ≡ ok (b, c')
    → (c.buf b).refcnt < 2 ^ 32 - 1
    → IsCache order c
    → IsCache order c'
Got-IsCache dev blockno order c b c' ran l inv = elim (bget_ref-Got dev blockno order c inv) [
  | inl (x, m, t, e) ↦
      let same = ok-injective (sym e ∙ ran) in
      subst (λ r. IsCache order r.1) same
        (counted-IsCache order c x
          (subst (λ y. (c.buf y).refcnt < 2 ^ 32 - 1) (sym (ap (λ r. r.0) same)) l) inv)
  | inr (none_, inl (us, x, vs, e', m, z, behind, e)) ↦
      subst (λ r. IsCache order r.1) (ok-injective (sym e ∙ ran))
        (recycled-IsCache dev blockno order c x inv none_)
  | inr (none_, inr (full, e)) ↦ ground (arith, sym e ∙ ran)
]

pub bread_locked-IsCache :
    (pid b : ℕ) (order : List ℕ) (c c' : Bcache)
    → (c.buf b).dev ≢ 0
    → 0 < (c.buf b).refcnt
    → bread_locked pid b c ≡ ok c'
    → IsCache order c
    → IsCache order c'
unfolding bread_locked
bread_locked-IsCache pid b order c c' nz p ran inv =
    let (lk, _, rest) = bind_ok (acquiresleep pid (c.buf b).lock) _ c' ran in
    let v = record (c.buf b) { lock = lk } in
    let read = record v { data_at = c.disk v.dev v.blockno; valid = true } in
    elim (Bool-cases (c.buf b).valid) [
      | inl u ↦
          subst (IsCache order)
            (ap (λ (t : Bool). if t then set_buf b v c else set_buf b read c) (sym u)
              ∙ ok-injective rest)
            (set_buf-IsCache order c b v inv refl refl (λ m t. nz)
              (λ m z t. absurd (omega (arith, z, p))))
      | inr u ↦
          subst (IsCache order)
            (ap (λ (t : Bool). if t then set_buf b v c else set_buf b read c) (sym u)
              ∙ ok-injective rest)
            (set_buf-IsCache order c b read inv refl refl (λ m t. nz)
              (λ m z t. absurd (omega (arith, z, p))))
    ]

pub brelse-IsCache :
    (pid b : ℕ) (order : List ℕ) (c c' : Bcache)
    → b < 30
    → 0 < (c.buf b).refcnt
    → (c.buf b).refcnt < 2 ^ 32
    → IsFlushed b c
    → brelse pid b c ≡ ok c'
    → IsCache order c
    → (order' : List ℕ) × IsCache order' c'
unfolding brelse
brelse-IsCache pid b order c c' l p small fl ran inv =
    elim (Bool-cases (holdingsleep pid (c.buf b).lock)) [
      | inr u ↦ ground (arith, rw u at ran)
      | inl u ↦
          let same : (b == b) ≡ true = eq→== b b refl in
          let unlocked = set_buf b (record (c.buf b) { lock = releasesleep (c.buf b).lock }) c in
          let dropped = drop_buf b unlocked in
          let inv1 : IsCache order unlocked =
            set_buf-IsCache order c b (record (c.buf b) { lock = releasesleep (c.buf b).lock }) inv
              refl refl (λ m t. inv.known b m t) (λ m z t. inv.clean b m z t) in
          let inv2 : IsCache order dropped =
            drop_buf-IsCache order unlocked b (rw same p) (rw same small)
              (λ z t. rw same (fl (rw same at z) (rw same at t))) inv1 in
          let moved : (order' : List ℕ) × IsCache order' (move_front b dropped) =
            (let (us, vs, e) = member-split b order ((inv.all b).1 l) in
              (
                b ∷ us ++ vs,
                move_front-IsCache us b vs dropped (subst (λ o. IsCache o dropped) e inv2),
              )) in
          elim (if_cases ((dropped.buf b).refcnt == 0) (move_front b dropped) dropped) [
            | inl e ↦
                (moved.0, subst (IsCache moved.0) (sym e ∙ ok-injective (rw u at ran)) moved.1)
            | inr e ↦ (order, subst (IsCache order) (sym e ∙ ok-injective (rw u at ran)) inv2)
          ]
    ]

pub brelse-IsSaved :
    (edited : ℕ → Bool) (pid b : ℕ) (c c' : Bcache)
    → 0 < (c.buf b).refcnt
    → (c.buf b).refcnt < 2 ^ 32
    → ((c.buf b).refcnt ≡ 1 → edited b ≡ false)
    → brelse pid b c ≡ ok c'
    → IsSaved edited c
    → IsSaved edited c'
unfolding brelse
brelse-IsSaved edited pid b c c' p small last ran inv =
    elim (Bool-cases (holdingsleep pid (c.buf b).lock)) [
      | inr u ↦ ground (arith, rw u at ran)
      | inl u ↦
          let same : (b == b) ≡ true = eq→== b b refl in
          let unlocked = set_buf b (record (c.buf b) { lock = releasesleep (c.buf b).lock }) c in
          let dropped = drop_buf b unlocked in
          let inv1 : IsSaved edited unlocked =
            set_buf-IsSaved edited c b (record (c.buf b) { lock = releasesleep (c.buf b).lock }) inv
              (λ m t e. inv.saved b m t e) (λ m z. inv.idle b m z) in
          let inv2 : IsSaved edited dropped =
            drop_buf-IsSaved edited unlocked b (rw same p) (rw same small)
              (λ z. last (rw same at z)) inv1 in
          elim (if_cases ((dropped.buf b).refcnt == 0) (move_front b dropped) dropped) [
            | inl e ↦
                subst (IsSaved edited) (sym e ∙ ok-injective (rw u at ran))
                  (move_front-IsSaved edited b dropped inv2)
            | inr e ↦ subst (IsSaved edited) (sym e ∙ ok-injective (rw u at ran)) inv2
          ]
    ]
