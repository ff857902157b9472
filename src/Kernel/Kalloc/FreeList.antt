-- ===== src/Kernel/Kalloc/FreeList.antt =====
-- The list of free pages of xv6-riscv/kernel/kalloc.c.
use aca_riscv_secure_boot.Common.{
  ℕ, ◌+◌, ◌%◌, ◌^◌, ◌≡◌, ◌<◌, ◌≤◌, inl, inr, refl, true, false, Bool-cases, arith, ◌==◌, List, [],
  ◌∷◌, member,
}
use aca_riscv_secure_boot.Common.Memory.{Memory, within}
use aca_riscv_secure_boot.Common.Cells.{
  read_le, store_64, read_le_ext, store_64-outside, store_64-read,
}
use aca_riscv_secure_boot.Boot.Strings.{memset}
use aca_riscv_secure_boot.Boot.Strings.Copy.{memset_fills}
use aca_riscv_secure_boot.Kernel.Outcome.{ok}
use aca_riscv_secure_boot.Kernel.Kalloc.{Kmem, kfree, kalloc}

pub record IsPage (end p : ℕ) : Type 0 where
  pub aligned : p % 4096 ≡ 0
  pub low : end ≤ p
  pub high : p < 0x89000000
  pub positive : 0 < p

-- The pages that the list from `r` on runs through: valid, each once.
unfoldable pub FreeFrom : ℕ → Memory → ℕ → List ℕ → Type 0
FreeFrom end m r [] = r ≡ 0
FreeFrom end m r (p ∷ ps) =
    (r ≡ p) × IsPage end p × (member p ps ≡ false) × FreeFrom end m (read_le m p 8) ps

pub member-IsPage :
    (end : ℕ) (m : Memory) (r : ℕ) (ps : List ℕ) (p : ℕ)
    → FreeFrom end m r ps
    → member p ps ≡ true
    → IsPage end p
unfolding FreeFrom member
member-IsPage end m r [] p free h = absurd (ground arith)
member-IsPage end m r (q ∷ ps) p (e, page, absent, rest) h = elim (Bool-cases (p == q)) [
  | inl t ↦ let same : q ≡ p = ground arith in rw (← same) page
  | inr t ↦ member-IsPage end m (read_le m q 8) ps p rest (ground arith)
]

-- Stores inside a page that is not free leave the list alone.
pub FreeFrom-frame :
    (end : ℕ) (m m' : Memory) (r : ℕ) (ps : List ℕ) (p : ℕ)
    → p % 4096 ≡ 0
    → member p ps ≡ false
    → ((x : ℕ) → within p 4096 x ≡ false → m' x ≡ m x)
    → FreeFrom end m r ps
    → FreeFrom end m' r ps
unfolding FreeFrom member
FreeFrom-frame end m m' r [] p al out same free = free
FreeFrom-frame end m m' r (q ∷ ps) p al out same (e, page, absent, rest) =
    let cell : read_le m' q 8 ≡ read_le m q 8 =
      read_le_ext m' m q 8 (λ i l. same (q + i) (ground (arith, page.aligned))) in
    (
      e,
      page,
      absent,
      rw cell (FreeFrom-frame end m m' (read_le m q 8) ps p al (ground arith) same rest),
    )

-- What `kfree` of a page leaves.
pub freed : ℕ → Kmem → Kmem
freed p s = record { freelist = p; memory = store_64 p s.freelist (memset p 1 4096 s.memory) }

pub kfree-ok : (end p : ℕ) (s : Kmem) → IsPage end p → kfree end p s ≡ ok (freed p s)
unfolding kfree freed
kfree-ok end p s page = ground (arith, page.aligned, page.low, page.high)

pub freed-same :
    (p : ℕ) (s : Kmem) (x : ℕ) → within p 4096 x ≡ false → (freed p s).memory x ≡ s.memory x
unfolding freed
freed-same p s x h = ground (
  arith,
  store_64-outside p s.freelist (memset p 1 4096 s.memory) x,
  memset_fills p 1 4096 s.memory x,
)

-- The head of the list fits into a word.
pub head_small : (end : ℕ) (m : Memory) (r : ℕ) (ps : List ℕ) → FreeFrom end m r ps → r < 2 ^ 64
unfolding FreeFrom
head_small end m r [] free = omega arith
head_small end m r (p ∷ ps) (e, page, absent, rest) = omega (arith, page.high)

read_le-freed :
    (end p : ℕ) (s : Kmem) (ps : List ℕ)
    → FreeFrom end s.memory s.freelist ps
    → read_le (freed p s).memory p 8 ≡ s.freelist
unfolding freed
read_le-freed end p s ps free =
    store_64-read p s.freelist (memset p 1 4096 s.memory)
      (head_small end s.memory s.freelist ps free)

-- The page freed last is the next to be allocated.
pub kalloc-freed :
    (end p : ℕ) (s : Kmem) (ps : List ℕ)
    → 0 < p
    → FreeFrom end s.memory s.freelist ps
    → ((kalloc (freed p s)).0 ≡ p) × ((kalloc (freed p s)).1.freelist ≡ s.freelist)
unfolding kalloc
kalloc-freed end p s ps h free =
    let head : (freed p s).freelist ≡ p = unfold freed in refl in
    let cell = read_le-freed end p s ps free in (ground (arith, head), ground (arith, head, cell))

pub freed-FreeFrom :
    (end p : ℕ) (s : Kmem) (ps : List ℕ)
    → IsPage end p
    → member p ps ≡ false
    → FreeFrom end s.memory s.freelist ps
    → FreeFrom end (freed p s).memory (freed p s).freelist (p ∷ ps)
unfolding FreeFrom
freed-FreeFrom end p s ps page absent free =
    let cell = read_le-freed end p s ps free in
    (
      unfold freed in refl,
      page,
      absent,
      rw cell (
          FreeFrom-frame end s.memory (freed p s).memory s.freelist ps p page.aligned absent
            (freed-same p s) free),
    )
