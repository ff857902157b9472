-- ===== src/Kernel/Kalloc/Init.antt =====
-- `kinit` and `freerange` of xv6-riscv/kernel/kalloc.c.
use aca_riscv_secure_boot.Common.{
  ℕ, member, zero, suc, ◌+◌, ◌-◌, ◌*◌, ◌/◌, ◌%◌, ◌≡◌, ◌<◌, ◌≤◌, refl, ◌∙◌, false, arith, List, [],
  ◌∷◌, lt→ltb, le→ltb,
}
use aca_riscv_secure_boot.Common.Memory.{Memory}
use aca_riscv_secure_boot.Kernel.Outcome.{ok}
use aca_riscv_secure_boot.Kernel.Kalloc.{
  Kmem, freerange_loop, freerange, kinit, phys_stop, page_round_up,
}
use aca_riscv_secure_boot.Kernel.Kalloc.FreeList.{IsPage, FreeFrom, freed, kfree-ok, freed-FreeFrom}

-- The `n` pages from `start` on, the last first.
unfoldable pub pages : ℕ → ℕ → List ℕ
pages start zero = []
pages start (suc n) = (start + n * 4096) ∷ pages start n

pages_below : (start n p : ℕ) → start + n * 4096 ≤ p → member p (pages start n) ≡ false
unfolding pages member
pages_below start zero p h = refl
pages_below start (suc n) p h = ground (arith, pages_below start n p (omega arith))

module _ (fuel end p : ℕ) (s : Kmem) where
  freerange_stop : 0x89000000 < p + 4096 → freerange_loop (suc fuel) end p 0x89000000 s ≡ ok s
  unfolding freerange_loop
  freerange_stop h = rw (lt→ltb _ _ h)

  freerange_next :
      p + 4096 ≤ 0x89000000
      → IsPage end p
      → freerange_loop (suc fuel) end p 0x89000000 s
        ≡ freerange_loop fuel end (p + 4096) 0x89000000 (freed p s)
  unfolding freerange_loop
  freerange_next h page = rw (le→ltb _ _ h, kfree-ok end p s page) refl

-- With `n` pages freed and `left` to go.
freerange_loop-pages :
    (end start left n fuel p : ℕ) (s : Kmem)
    → p ≡ start + n * 4096
    → left < fuel
    → start % 4096 ≡ 0
    → end ≤ start
    → 0 < start
    → p + left * 4096 ≤ 0x89000000
    → 0x89000000 < p + left * 4096 + 4096
    → FreeFrom end s.memory s.freelist (pages start n)
    → (s' : Kmem) × (freerange_loop fuel end p 0x89000000 s ≡ ok s')
      × FreeFrom end s'.memory s'.freelist (pages start (n + left))
freerange_loop-pages end start left n zero p s e f al lo po h h' free = absurd (omega arith)
freerange_loop-pages end start zero n (suc fuel) p s e f al lo po h h' free =
    let same : n + 0 ≡ n = omega arith in
    (s, freerange_stop fuel end p s (omega arith), rw same free)
freerange_loop-pages end start (suc left) n (suc fuel) p s e f al lo po h h' free =
    let page : IsPage end p = record {
      aligned = omega arith;
      low = omega arith;
      high = omega arith;
      positive = omega arith;
    } in
    let more : FreeFrom end (freed p s).memory (freed p s).freelist (pages start (suc n)) =
      unfold pages in
      rw (← e)
        (freed-FreeFrom end p s (pages start n) page (pages_below start n p (omega arith)) free) in
    let (s', ran, done) =
      freerange_loop-pages end start left (suc n) fuel (p + 4096) (freed p s) (omega arith)
        (omega arith) al lo po (omega arith) (omega arith) more in
    let same : n + suc left ≡ suc n + left = omega arith in
    (s', freerange_next fuel end p s (omega arith) page ∙ ran, rw same done)

-- `kinit` ends without a panic, given a pass for each page and one more, and the free list then
-- runs through every whole page between the kernel's end and `PHYSTOP`, each once.
pub kinit-pages :
    (fuel end : ℕ) (m : Memory)
    → 0 < end
    → page_round_up end ≤ phys_stop
    → (phys_stop - page_round_up end) / 4096 < fuel
    → (s : Kmem) × (kinit fuel end m ≡ ok s)
      × FreeFrom end s.memory s.freelist
          (pages (page_round_up end) ((phys_stop - page_round_up end) / 4096))
unfolding kinit freerange
kinit-pages fuel end m po h f =
    let n = (phys_stop - page_round_up end) / 4096 in
    let same : 0 + n ≡ n = omega arith in
    let (s, ran, free) =
      freerange_loop-pages end (page_round_up end) n 0 fuel (page_round_up end)
        (record { freelist = 0; memory = m }) (omega arith) f (omega arith) (omega arith)
        (omega arith) (omega arith) (omega arith) (unfold pages FreeFrom in refl) in
    (s, ran, rw same at free)
