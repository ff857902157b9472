-- ===== src/Kernel/Vm/Walk.antt =====
-- `walk` and `walkaddr` of xv6-riscv/kernel/vm.c, entry by entry.
use aca_riscv_secure_boot.Common.{
  ℕ, suc, ◌+◌, ◌*◌, ◌≡◌, refl, ap, Bool, true, false, not, ◌||◌, leb, ◌==◌, if◌then◌else◌, some,
}
use aca_riscv_secure_boot.Common.Bits.{bit_at}
use aca_riscv_secure_boot.Common.Cells.{read_le}
use aca_riscv_secure_boot.Kernel.Outcome.{ok}
use aca_riscv_secure_boot.Kernel.Kalloc.{Kmem}
use aca_riscv_secure_boot.Kernel.Vm.{
  px, pte_v, pte_u, pte_to_pa, max_va, walk, walk_loop, walk_next, walk_level, walkaddr,
}

-- The entry for `va` in a table of a level.
abbrev pub entry_at : ℕ → ℕ → ℕ → Kmem → ℕ
entry_at level pagetable va s = read_le s.memory (pagetable + 8 * px level va) 8

walk_level-valid :
    (level pagetable va e : ℕ) (alloc : Bool) (s : Kmem)
    → entry_at level pagetable va s ≡ e
    → bit_at e pte_v ≡ true
    → walk_level level pagetable va alloc s ≡ (some (pte_to_pa e), s)
unfolding walk_level
walk_level-valid level pagetable va e alloc s h v = rw (h, v) refl

pub walk_loop-valid :
    (level pagetable va e : ℕ) (alloc : Bool) (s : Kmem)
    → entry_at (suc level) pagetable va s ≡ e
    → bit_at e pte_v ≡ true
    → walk_loop (suc level) pagetable va alloc s ≡ walk_loop level (pte_to_pa e) va alloc s
unfolding walk_loop
walk_loop-valid level pagetable va e alloc s h v =
    ap (walk_next (λ next s'. walk_loop level next va alloc s'))
      (walk_level-valid (suc level) pagetable va e alloc s h v)

-- Where the tables of all three levels are there, `walkaddr` is what the last entry says.
pub walkaddr_entries :
    (pagetable va e2 e1 e0 : ℕ) (s : Kmem)
    → leb max_va va ≡ false
    → entry_at 2 pagetable va s ≡ e2
    → bit_at e2 pte_v ≡ true
    → entry_at 1 (pte_to_pa e2) va s ≡ e1
    → bit_at e1 pte_v ≡ true
    → entry_at 0 (pte_to_pa e1) va s ≡ e0
    → walkaddr pagetable va s
      ≡ ok (
          if (pte_to_pa e1 + 8 * px 0 va) == 0 || not (bit_at e0 pte_v) || not (bit_at e0 pte_u)
          then 0
          else pte_to_pa e0)
unfolding walkaddr walk walk_loop
walkaddr_entries pagetable va e2 e1 e0 s small h2 v2 h1 v1 h0 =
    rw
      (
        small,
        walk_loop-valid 1 pagetable va e2 false s h2 v2,
        walk_loop-valid 0 (pte_to_pa e2) va e1 false s h1 v1,
        h0,
      )
      refl
