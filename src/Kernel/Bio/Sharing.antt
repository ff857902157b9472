-- ===== src/Kernel/Bio/Sharing.antt =====
-- The buffer cache of xv6-riscv/kernel/bio.c with those who use its buffers.
use aca_riscv_secure_boot.Common.{ℕ, ◌-◌, ◌^◌, ◌≡◌, ◌≢◌, ◌<◌, refl, Bool, true, false, arith, List}
use aca_riscv_secure_boot.Common.Memory.{Memory}
use aca_riscv_secure_boot.Kernel.Outcome.{ok}
use aca_riscv_secure_boot.Kernel.Bio.{
  Bcache, set_buf, bget_ref, bread_locked, bwrite, brelse, bpin, bunpin,
}
use aca_riscv_secure_boot.Kernel.Bio.Cache.{IsCache}
use aca_riscv_secure_boot.Kernel.Bio.Saved.{
  IsSaved, mark, set_buf-IsSaved, mark-IsSaved, counted-IsSaved, drop_buf-IsSaved, Got-IsSaved,
  bread_locked-IsSaved, bwrite-IsSaved,
}
use aca_riscv_secure_boot.Kernel.Bio.Steps.{
  IsFlushed, counted-IsCache, drop_buf-IsCache, Got-IsCache, bread_locked-IsCache, brelse-IsCache,
  brelse-IsSaved,
}
use aca_riscv_secure_boot.Kernel.Bio.Changes.{set_buf-IsCache, bwrite-IsCache}

-- A step of those who use buffers. Who reads, changes or gives up a buffer has a reference to it,
-- there are fewer than 2 ^ 32 - 1 before one more is made, and the last one is given up only to a
-- buffer that was not edited since it was last written.
pub data Use : (ℕ → Bool) → Bcache → (ℕ → Bool) → Bcache → Type 0 where
  gets :
      (edited : ℕ → Bool) (dev blockno b : ℕ) (c c' : Bcache)
      → dev ≢ 0
      → bget_ref dev blockno c ≡ ok (b, c')
      → (c.buf b).refcnt < 2 ^ 32 - 1
      → Use edited c edited c'
  reads :
      (edited : ℕ → Bool) (pid b : ℕ) (c c' : Bcache)
      → (c.buf b).dev ≢ 0
      → 0 < (c.buf b).refcnt
      → bread_locked pid b c ≡ ok c'
      → Use edited c edited c'
  edits :
      (edited : ℕ → Bool) (b : ℕ) (d : Memory) (c : Bcache)
      → 0 < (c.buf b).refcnt
      → Use edited c (mark b true edited) (set_buf b (record (c.buf b) { data_at = d }) c)
  writes :
      (edited : ℕ → Bool) (pid b : ℕ) (c c' : Bcache)
      → b < 30
      → (c.buf b).valid ≡ true
      → bwrite pid b c ≡ ok c'
      → Use edited c (mark b false edited) c'
  releases :
      (edited : ℕ → Bool) (pid b : ℕ) (c c' : Bcache)
      → b < 30
      → 0 < (c.buf b).refcnt
      → (c.buf b).refcnt < 2 ^ 32
      → ((c.buf b).refcnt ≡ 1 → edited b ≡ false)
      → brelse pid b c ≡ ok c'
      → Use edited c edited c'
  pins :
      (edited : ℕ → Bool) (b : ℕ) (c : Bcache)
      → 0 < (c.buf b).refcnt
      → (c.buf b).refcnt < 2 ^ 32 - 1
      → Use edited c edited (bpin b c)
  unpins :
      (edited : ℕ → Bool) (b : ℕ) (c : Bcache)
      → b < 30
      → 0 < (c.buf b).refcnt
      → (c.buf b).refcnt < 2 ^ 32
      → ((c.buf b).refcnt ≡ 1 → edited b ≡ false)
      → Use edited c edited (bunpin b c)

pub data Uses (first : ℕ → Bool) (c0 : Bcache) : (ℕ → Bool) → Bcache → Type 0 where
  done : Uses first c0 first c0
  use_ :
      (edited edited' : ℕ → Bool) (c c' : Bcache)
      → Uses first c0 edited c
      → Use edited c edited' c'
      → Uses first c0 edited' c'

-- The cache is sound, and its buffers are as the disk unless they are edited.
abbrev pub IsCurrent : (ℕ → Bool) → Bcache → Type 0
IsCurrent edited c = (order : List ℕ) × IsCache order c × IsSaved edited c

Use-IsCurrent :
    (edited edited' : ℕ → Bool) (c c' : Bcache)
    → Use edited c edited' c'
    → IsCurrent edited c
    → IsCurrent edited' c'
Use-IsCurrent _ _ c c' (gets edited dev blockno b _ _ nz ran l) (o, i, s) =
    (o, Got-IsCache dev blockno o c b c' ran l i, Got-IsSaved edited dev blockno o c b c' ran l i s)
Use-IsCurrent _ _ c c' (reads edited pid b _ _ nz p ran) (o, i, s) = (
  o,
  bread_locked-IsCache pid b o c c' nz p ran i,
  bread_locked-IsSaved edited pid b c c' p ran s,
)
Use-IsCurrent _ _ c _ (edits edited b d _ p) (o, i, s) = (
  o,
  set_buf-IsCache o c b (record (c.buf b) { data_at = d }) i refl refl (λ m t. i.known b m t)
      (λ m z t. absurd (omega (arith, z, p))),
  set_buf-IsSaved (mark b true edited) c b (record (c.buf b) { data_at = d })
      (mark-IsSaved edited c b p s) (λ m t e. absurd (ground (arith, e)))
      (λ m z. absurd (omega (arith, z, p))),
)
Use-IsCurrent _ _ c c' (writes edited pid b _ _ l v ran) (o, i, s) =
    (o, bwrite-IsCache pid b o c c' l v ran i, bwrite-IsSaved edited pid b o c c' l ran i s)
Use-IsCurrent _ _ c c' (releases edited pid b _ _ l p small last ran) (o, i, s) =
    let flushed : IsFlushed b c = λ z t. s.saved b l t (last z) in
    let (o', i') = brelse-IsCache pid b o c c' l p small flushed ran i in
    (o', i', brelse-IsSaved edited pid b c c' p small last ran s)
Use-IsCurrent _ _ c _ (pins edited b _ p l) (o, i, s) =
    (o, counted-IsCache o c b l i, counted-IsSaved edited c b l s)
Use-IsCurrent _ _ c _ (unpins edited b _ l p small last) (o, i, s) = (
  o,
  drop_buf-IsCache o c b p small (λ z t. s.saved b l t (last z)) i,
  drop_buf-IsSaved edited c b p small last s,
)

-- The buffer cache stays sound over any sequence of uses.
pub uses-IsCurrent :
    (first : ℕ → Bool) (c0 : Bcache) (edited : ℕ → Bool) (c : Bcache)
    → IsCurrent first c0
    → Uses first c0 edited c
    → IsCurrent edited c
uses-IsCurrent first c0 _ _ now done = now
uses-IsCurrent first c0 _ _ now (use_ edited edited' c c' before u) =
    Use-IsCurrent edited edited' c c' u (uses-IsCurrent first c0 edited c now before)
