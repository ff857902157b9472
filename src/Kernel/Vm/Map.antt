-- ===== src/Kernel/Vm/Map.antt =====
-- A page of xv6-riscv/kernel/vm.c from `mappages` to `uvmunmap`.
use aca_riscv_secure_boot.Common.{
  ℕ, ◌+◌, ◌-◌, ◌*◌, ◌%◌, ◌^◌, ◌≡◌, ◌≢◌, ◌<◌, refl, ap, ◌∙◌, Bool, true, false, not, ◌==◌, leb, ◌||◌,
  if◌then◌else◌, arith,
}
use aca_riscv_secure_boot.Common.Bits.{bit_at}
use aca_riscv_secure_boot.Common.Int.{pos}
use aca_riscv_secure_boot.Common.Cells.{
  read_le, store_64, store_64-outside, store_64-read, read_le-store_64,
}
use aca_riscv_secure_boot.Common.Memory.{Apart, within}
use aca_riscv_secure_boot.Common.Word.{u64}
use aca_riscv_secure_boot.Kernel.Outcome.{ok}
use aca_riscv_secure_boot.Kernel.Kalloc.{Kmem}
use aca_riscv_secure_boot.Kernel.Vm.{
  px, pte_v, pte_u, pte_to_pa, pte_flags, walk, walk_loop, walkaddr, mappages, mappages_loop,
  uvmunmap, uvmunmap_loop,
}
use aca_riscv_secure_boot.Kernel.Vm.Walk.{entry_at, walk_loop-valid, walkaddr_entries}
use aca_riscv_secure_boot.Kernel.Vm.Entry.{leaf_entry, leaf_entry-fields}

module _ (pagetable va : ℕ) where
  -- The address of the last entry of a walk, if the upper two entries are `e2` and `e1`.
  abbrev pub leaf_at : ℕ → ℕ
  leaf_at e1 = pte_to_pa e1 + 8 * px 0 va

  -- The upper two levels have their tables, which lie apart from the last entry.
  pub record HasTables (e2 e1 : ℕ) (s : Kmem) : Type 0 where
    pub in_range : va < 2 ^ 38
    pub upper : entry_at 2 pagetable va s ≡ e2
    pub upper_valid : bit_at e2 pte_v ≡ true
    pub lower : entry_at 1 (pte_to_pa e2) va s ≡ e1
    pub lower_valid : bit_at e1 pte_v ≡ true
    pub table : pte_to_pa e1 ≢ 0
    pub upper_apart : Apart (pagetable + 8 * px 2 va) 8 (leaf_at e1) 8
    pub lower_apart : Apart (pte_to_pa e2 + 8 * px 1 va) 8 (leaf_at e1) 8

  -- The last entry is stored.
  abbrev pub with_leaf : ℕ → ℕ → Kmem → Kmem
  with_leaf e1 entry s = record s { memory = store_64 (leaf_at e1) entry s.memory }

  with_leaf-HasTables :
      (e2 e1 entry : ℕ) (s : Kmem) → HasTables e2 e1 s → HasTables e2 e1 (with_leaf e1 entry s)
  with_leaf-HasTables e2 e1 entry s h = record {
    in_range = h.in_range;
    upper = read_le-store_64 _ (leaf_at e1) entry s.memory h.upper_apart ∙ h.upper;
    upper_valid = h.upper_valid;
    lower = read_le-store_64 _ (leaf_at e1) entry s.memory h.lower_apart ∙ h.lower;
    lower_valid = h.lower_valid;
    table = h.table;
    upper_apart = h.upper_apart;
    lower_apart = h.lower_apart;
  }

  walk-leaf :
      (e2 e1 : ℕ) (alloc : Bool) (s : Kmem)
      → HasTables e2 e1 s
      → walk pagetable va alloc s ≡ ok (leaf_at e1, s)
  unfolding walk walk_loop
  walk-leaf e2 e1 alloc s h =
      let small : leb 274877906944 va ≡ false = ground (arith, h.in_range) in
      rw
        (
          small,
          walk_loop-valid 1 pagetable va e2 alloc s h.upper h.upper_valid,
          walk_loop-valid 0 (pte_to_pa e2) va e1 alloc s h.lower h.lower_valid,
        )
        refl

  walkaddr-leaf :
      (e2 e1 e0 : ℕ) (s : Kmem)
      → HasTables e2 e1 s
      → read_le s.memory (leaf_at e1) 8 ≡ e0
      → walkaddr pagetable va s
        ≡ ok (if not (bit_at e0 pte_v) || not (bit_at e0 pte_u) then 0 else pte_to_pa e0)
  walkaddr-leaf e2 e1 e0 s h leaf =
      let small : leb 274877906944 va ≡ false = ground (arith, h.in_range) in
      let there : (leaf_at e1 == 0) ≡ false = ground (arith, h.table) in
      walkaddr_entries pagetable va e2 e1 e0 s small h.upper h.upper_valid h.lower h.lower_valid
        leaf
      ∙ rw there refl

  -- `mappages` of one page.
  mappages-leaf :
      (e2 e1 pa perm : ℕ) (s : Kmem)
      → HasTables e2 e1 s
      → va % 4096 ≡ 0
      → bit_at (read_le s.memory (leaf_at e1) 8) pte_v ≡ false
      → mappages pagetable va 4096 pa perm s ≡ ok (pos 0, with_leaf e1 (leaf_entry pa perm) s)
  unfolding mappages mappages_loop
  mappages-leaf e2 e1 pa perm s h aligned free =
      let there : (leaf_at e1 == 0) ≡ false = ground (arith, h.table) in
      let last : (va == u64 (va + 4096 - 4096)) ≡ true = ground (arith, h.in_range) in
      rw (aligned, walk-leaf e2 e1 true s h, there, free, last) refl

  -- `uvmunmap` of one page that stays allocated.
  uvmunmap-leaf :
      (end e2 e1 e0 : ℕ) (s : Kmem)
      → HasTables e2 e1 s
      → va % 4096 ≡ 0
      → read_le s.memory (leaf_at e1) 8 ≡ e0
      → bit_at e0 pte_v ≡ true
      → (pte_flags e0 == 1) ≡ false
      → uvmunmap end pagetable va 1 false s ≡ ok (with_leaf e1 0 s)
  unfolding uvmunmap uvmunmap_loop
  uvmunmap-leaf end e2 e1 e0 s h aligned leaf valid flags =
      let there : (leaf_at e1 == 0) ≡ false = ground (arith, h.table) in
      let first : leb (u64 (va + 1 * 4096)) va ≡ false = ground (arith, h.in_range) in
      rw (aligned, first, walk-leaf e2 e1 false s h, there, leaf, valid, flags) refl

  -- A page is mapped, found and unmapped. If the upper tables are there, apart from the last entry,
  -- and that entry is not valid, `mappages` of a page for the user succeeds and `walkaddr` then finds
  -- it; `uvmunmap` of that page does not panic, `walkaddr` finds nothing after it, and no byte but
  -- those of the entry has changed.
  pub walkaddr-mappages :
      (end e2 e1 pa perm : ℕ) (s : Kmem)
      → HasTables e2 e1 s
      → va % 4096 ≡ 0
      → bit_at (read_le s.memory (leaf_at e1) 8) pte_v ≡ false
      → pa % 4096 ≡ 0
      → pa < 2 ^ 56
      → perm < 1024
      → bit_at perm pte_u ≡ true
      → (s1 : Kmem) × (s2 : Kmem) × (mappages pagetable va 4096 pa perm s ≡ ok (pos 0, s1))
        × (walkaddr pagetable va s1 ≡ ok pa)
        × (uvmunmap end pagetable va 1 false s1 ≡ ok s2)
        × (walkaddr pagetable va s2 ≡ ok 0)
        × ((x : ℕ) → within (leaf_at e1) 8 x ≡ false → s2.memory x ≡ s.memory x)
  unfolding bit_at
  walkaddr-mappages end e2 e1 pa perm s h aligned free aligned_pa small flags user =
      let entry = leaf_entry pa perm in
      let (fits, address, valid, for_user, tagged) =
        leaf_entry-fields pa perm aligned_pa small flags user in
      let s1 = with_leaf e1 entry s in
      let s2 = with_leaf e1 0 s1 in
      let h1 = with_leaf-HasTables e2 e1 entry s h in
      let h2 = with_leaf-HasTables e2 e1 0 s1 h1 in
      let stored = store_64-read (leaf_at e1) entry s.memory fits in
      let cleared = store_64-read (leaf_at e1) 0 s1.memory (omega arith) in
      (
        s1,
        s2,
        mappages-leaf e2 e1 pa perm s h aligned free,
        walkaddr-leaf e2 e1 entry s1 h1 stored ∙ rw (valid, for_user) (ap ok address),
        uvmunmap-leaf end e2 e1 entry s1 h1 aligned stored valid tagged,
        walkaddr-leaf e2 e1 0 s2 h2 cleared,
        λ x o.
            store_64-outside (leaf_at e1) 0 s1.memory x o
            ∙ store_64-outside (leaf_at e1) entry s.memory x o,
      )
