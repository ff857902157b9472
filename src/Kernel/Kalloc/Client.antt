-- ===== src/Kernel/Kalloc/Client.antt =====
-- The users of the pages of xv6-riscv/kernel/kalloc.c: any sequence of `kalloc`, `kfree` and stores
-- into pages that are in use.
use aca_riscv_secure_boot.Common.{
  ℕ, member, ◌≡◌, ◌≢◌, ◌⊎◌, inl, inr, refl, subst, ap, ◌∙◌, sym, true, false, Bool-cases, arith,
  ◌==◌, if◌then◌else◌, List, [], ◌∷◌,
}
use mathlib.Core.Bool.{true≢false}
use aca_riscv_secure_boot.Common.Memory.{store, within}
use aca_riscv_secure_boot.Common.Cells.{read_le}
use aca_riscv_secure_boot.Boot.Strings.{memset}
use aca_riscv_secure_boot.Boot.Strings.Copy.{memset_fills}
use aca_riscv_secure_boot.Kernel.Outcome.{ok-injective, ok}
use aca_riscv_secure_boot.Kernel.Kalloc.{Kmem, kfree, kalloc}
use aca_riscv_secure_boot.Kernel.Kalloc.FreeList.{
  IsPage, FreeFrom, FreeFrom-frame, freed, kfree-ok, freed-FreeFrom, kalloc-freed,
}

-- The allocator, and the pages that are in use.
pub record World : Type 0 where
  pub kmem : Kmem
  pub used : List ℕ

unfoldable pub without : ℕ → List ℕ → List ℕ
without p [] = []
without p (q ∷ qs) = let rest = without p qs in if p == q then rest else q ∷ rest

pub data Step (end : ℕ) (w : World) : World → Type 0 where
  alloc :
      (kalloc w.kmem).0 ≢ 0
      → Step end w (record { kmem = (kalloc w.kmem).1; used = (kalloc w.kmem).0 ∷ w.used })
  free :
      (p : ℕ) {s : Kmem}
      → member p w.used ≡ true
      → kfree end p w.kmem ≡ ok s
      → Step end w (record { kmem = s; used = without p w.used })
  write :
      (p x v : ℕ)
      → member p w.used ≡ true
      → within p 4096 x ≡ true
      → Step end w (record {
        kmem = record { freelist = w.kmem.freelist; memory = store w.kmem.memory x v };
        used = w.used;
      })

pub data Reach (end : ℕ) (w0 : World) : World → Type 0 where
  here : Reach end w0 w0
  next : {v w : World} → Reach end w0 v → Step end v w → Reach end w0 w

-- The free list is a list of valid pages, each once, and no page in use is on it.
pub record IsSound (end : ℕ) (w : World) : Type 0 where
  pub pages : List ℕ
  pub list : FreeFrom end w.kmem.memory w.kmem.freelist pages
  pub valid : (p : ℕ) → member p w.used ≡ true → IsPage end p
  pub apart : (p : ℕ) → member p w.used ≡ true → member p pages ≡ false

member-without :
    (p q : ℕ) (qs : List ℕ)
    → member q (without p qs) ≡ true
    → (member q qs ≡ true) × ((q == p) ≡ false)
unfolding member without
member-without p q [] h = absurd (true≢false (sym h))
member-without p q (r ∷ qs) h = ground (arith, member-without p q qs)

-- What `kalloc` does with a list of free pages.
kalloc_cases :
    (end : ℕ) (s : Kmem) (ps : List ℕ)
    → FreeFrom end s.memory s.freelist ps
    → ((ps ≡ []) × (kalloc s ≡ (0, s)))
      ⊎ ((r : ℕ) × (qs : List ℕ) × (ps ≡ r ∷ qs)
          × IsPage end r
          × (member r qs ≡ false)
          × (kalloc s
              ≡ (r, record { freelist = read_le s.memory r 8; memory = memset r 5 4096 s.memory }))
          × FreeFrom end (memset r 5 4096 s.memory) (read_le s.memory r 8) qs)
unfolding kalloc FreeFrom
kalloc_cases end s [] e = inl (refl, rw none_ (ap (λ (r : ℕ). (r, s)) e))
  where
    none_ : (s.freelist == 0) ≡ true
    none_ = ground arith
kalloc_cases end s (p ∷ ps) (e, page, absent, rest) = inr (
  p,
  ps,
  refl,
  page,
  absent,
  rw some_ (
      ap
        (λ (r : ℕ).
          (r, record { freelist = read_le s.memory r 8; memory = memset r 5 4096 s.memory }))
        e),
  FreeFrom-frame end s.memory (memset p 5 4096 s.memory) (read_le s.memory p 8) ps p page.aligned
      absent (λ x h. ground (arith, memset_fills p 5 4096 s.memory x)) rest,
)
  where
    some_ : (s.freelist == 0) ≡ false
    some_ = ground (arith, page.positive)

alloc-IsSound :
    (end : ℕ) (w : World)
    → (kalloc w.kmem).0 ≢ 0
    → IsSound end w
    → IsSound end (record { kmem = (kalloc w.kmem).1; used = (kalloc w.kmem).0 ∷ w.used })
unfolding member
alloc-IsSound end w some_ sound = elim (kalloc_cases end w.kmem sound.pages sound.list) [
  | inl (none_, e) ↦ absurd (some_ (ap (λ (r : ℕ × Kmem). r.0) e))
  | inr (r, qs, split, page, absent, e, list) ↦ rw e record {
    pages = qs;
    list = list;
    valid = λ p h. elim (Bool-cases (p == r)) [
      | inl t ↦ let same : r ≡ p = ground arith in rw (← same) page
      | inr t ↦ sound.valid p (ground arith)
    ];
    apart = λ p h. elim (Bool-cases (p == r)) [
      | inl t ↦ let same : r ≡ p = ground arith in rw (← same) absent
      | inr t ↦ ground (rw split at (sound.apart p (ground (arith, t))), arith)
    ];
  }
]

free-IsSound :
    (end p : ℕ) (w : World)
    → member p w.used ≡ true
    → IsSound end w
    → IsSound end (record { kmem = freed p w.kmem; used = without p w.used })
unfolding member
free-IsSound end p w h sound = record {
  pages = p ∷ sound.pages;
  list = freed-FreeFrom end p w.kmem sound.pages (sound.valid p h) (sound.apart p h) sound.list;
  valid = λ q l. sound.valid q (member-without p q w.used l).0;
  apart = λ q l.
      let (in_use, other) = member-without p q w.used l in
      ground (arith, other, sound.apart q in_use);
}

write-IsSound :
    (end p x v : ℕ) (w : World)
    → member p w.used ≡ true
    → within p 4096 x ≡ true
    → IsSound end w
    → IsSound end (record {
      kmem = record { freelist = w.kmem.freelist; memory = store w.kmem.memory x v };
      used = w.used;
    })
write-IsSound end p x v w h l sound = record {
  pages = sound.pages;
  list =
      FreeFrom-frame end w.kmem.memory (store w.kmem.memory x v) w.kmem.freelist sound.pages p
        (sound.valid p h).aligned (sound.apart p h) (λ y o. ground (arith, l, o)) sound.list;
  valid = sound.valid;
  apart = sound.apart;
}

Step-IsSound : {end : ℕ} {w v : World} → Step end w v → IsSound end w → IsSound end v
Step-IsSound {end} {w} (alloc some_) sound = alloc-IsSound end w some_ sound
Step-IsSound {end} {w} (free p h e) sound =
    subst (λ (s : Kmem). IsSound end (record { kmem = s; used = without p w.used }))
      (ok-injective (sym (kfree-ok end p w.kmem (sound.valid p h)) ∙ e))
      (free-IsSound end p w h sound)
Step-IsSound {end} {w} (write p x v h l) sound = write-IsSound end p x v w h l sound

Reach-IsSound : {end : ℕ} {w0 w : World} → IsSound end w0 → Reach end w0 w → IsSound end w
Reach-IsSound sound here = sound
Reach-IsSound sound (next r st) = Step-IsSound st (Reach-IsSound sound r)

-- No page is handed out twice. After any sequence of allocations, frees of pages in use and stores
-- into them, `kalloc` returns 0 and changes nothing, or it returns a valid page that is not in use,
-- fills it with fives, and changes no other byte.
pub kalloc_fresh :
    {end : ℕ} {w0 w : World}
    → IsSound end w0
    → Reach end w0 w
    → (kalloc w.kmem ≡ (0, w.kmem))
      ⊎ (IsPage end (kalloc w.kmem).0
          × (member (kalloc w.kmem).0 w.used ≡ false)
          × ((x : ℕ)
              → (kalloc w.kmem).1.memory x
                ≡ (if within (kalloc w.kmem).0 4096 x then 5 else w.kmem.memory x)))
unfolding member
kalloc_fresh {end} {w0} {w} start reach =
    let sound = Reach-IsSound start reach in
    elim (kalloc_cases end w.kmem sound.pages sound.list) [
      | inl (none_, e) ↦ inl e
      | inr (r, qs, split, page, absent, e, list) ↦ inr (
          rw e (
            page,
            elim (Bool-cases (member r w.used)) [
              | inl t ↦ absurd (true≢false (ground (arith, rw split at (sound.apart r t))))
              | inr t ↦ t
            ],
            λ x. memset_fills r 5 4096 w.kmem.memory x,
          ))
    ]

-- `kfree` of a page in use never panics, and the next `kalloc` returns that page and brings the old
-- free list back.
pub kfree-kalloc :
    {end : ℕ} {w0 w : World}
    → IsSound end w0
    → Reach end w0 w
    → (p : ℕ) → member p w.used ≡ true
    → (s : Kmem) × (kfree end p w.kmem ≡ ok s)
      × ((kalloc s).0 ≡ p)
      × ((kalloc s).1.freelist ≡ w.kmem.freelist)
kfree-kalloc {end} {w0} {w} start reach p h =
    let sound = Reach-IsSound start reach in
    let page = sound.valid p h in
    let (back, list) = kalloc-freed end p w.kmem sound.pages page.positive sound.list in
    (freed p w.kmem, kfree-ok end p w.kmem page, back, list)
