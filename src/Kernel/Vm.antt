-- ===== src/Kernel/Vm.antt =====
-- xv6-riscv/kernel/vm.c: page tables. They lie in the memory of the allocator, whose state each
-- function takes and returns; `end` is the end of the kernel, which `kfree` looks at.
pub mod User
pub mod Copy
pub mod Walk
pub mod Entry
pub mod Map
mod Examples
use aca_riscv_secure_boot.Common.{
  ℕ, zero, suc, ◌+◌, ◌-◌, ◌*◌, ◌/◌, ◌%◌, ◌^◌, Bool, true, false, not, ◌||◌, leb, ◌==◌,
  if◌then◌else◌, Option, none, some,
}
use aca_riscv_secure_boot.Common.Bits.{bit_at}
use aca_riscv_secure_boot.Common.Int.{ℤ, pos, negsuc, is_zero}
use aca_riscv_secure_boot.Common.Cells.{read_le, store_64}
use aca_riscv_secure_boot.Common.Word.{u64, shr}
use aca_riscv_secure_boot.Boot.Strings.{memset, memmove}
use aca_riscv_secure_boot.Kernel.Outcome.{Outcome, ok, panic, ◌>>=◌}
use aca_riscv_secure_boot.Kernel.Kalloc.{Kmem, page_size, kalloc, kfree}
use Prim.Native.Nat.{bit_and, bit_or}

-- `PGROUNDUP` and `PGROUNDDOWN` of a `uint64`
abbrev pub round_up : ℕ → ℕ
round_up sz = u64 (sz + page_size - 1) / page_size * page_size

abbrev pub round_down : ℕ → ℕ
round_down a = a / page_size * page_size

-- The numbers of the bits `PTE_V`, `PTE_R`, `PTE_W`, `PTE_X` and `PTE_U`
abbrev pub pte_v : ℕ
pte_v = 0

abbrev pub pte_r : ℕ
pte_r = 1

abbrev pub pte_w : ℕ
pte_w = 2

abbrev pub pte_x : ℕ
pte_x = 3

abbrev pub pte_u : ℕ
pte_u = 4

-- `PA2PTE`, `PTE2PA` and `PTE_FLAGS`
abbrev pub pa_to_pte : ℕ → ℕ
pa_to_pte pa = u64 (shr pa 12 * 2 ^ 10)

abbrev pub pte_to_pa : ℕ → ℕ
pte_to_pa pte = u64 (shr pte 10 * 2 ^ 12)

abbrev pub pte_flags : ℕ → ℕ
pte_flags pte = bit_and pte 0x3ff

-- `PX`
abbrev pub px : ℕ → ℕ → ℕ
px level va = shr va (12 + 9 * level) % 512

-- `MAXVA`
abbrev pub max_va : ℕ
max_va = 2 ^ 38

-- A page of zeros.
abbrev pub zeroed : ℕ → Kmem → Kmem
zeroed page s = record s { memory = memset page 0 page_size s.memory }

-- One pass of the loop of `walk`: the table of the next level, if there is one or one is made.
pub walk_level : ℕ → ℕ → ℕ → Bool → Kmem → Option ℕ × Kmem
walk_level level pagetable va alloc s =
    let pte = pagetable + 8 * px level va in
    let entry = read_le s.memory pte 8 in
    if bit_at entry pte_v
    then (some (pte_to_pa entry), s)
    else if not alloc
    then (none, s)
    else let (page, s1) = kalloc s in
      if page == 0
      then (none, s1)
      else let s2 = zeroed page s1 in
        (
          some page,
          record s2 { memory = store_64 pte (bit_or (pa_to_pte page) (2 ^ pte_v)) s2.memory },
        )

-- `walk` goes on in the next table, or returns 0.
abbrev pub walk_next : (ℕ → Kmem → ℕ × Kmem) → Option ℕ × Kmem → ℕ × Kmem
walk_next go (none, s) = (0, s)
walk_next go (some next, s) = go next s

-- The loop of `walk` from `level` on, and the address of the entry, or 0.
pub walk_loop : ℕ → ℕ → ℕ → Bool → Kmem → ℕ × Kmem
walk_loop zero pagetable va alloc s = (pagetable + 8 * px 0 va, s)
walk_loop (suc level) pagetable va alloc s =
    walk_next (λ next s'. walk_loop level next va alloc s')
      (walk_level (suc level) pagetable va alloc s)

pub walk : ℕ → ℕ → Bool → Kmem → Outcome (ℕ × Kmem)
walk pagetable va alloc s = if leb max_va va then panic else ok (walk_loop 2 pagetable va alloc s)

-- Look up a virtual address: the physical address, or 0 if it is not mapped for the user.
pub walkaddr : ℕ → ℕ → Kmem → Outcome ℕ
walkaddr pagetable va s = if leb max_va va then ok 0 else (do
  (pte, s') ← walk pagetable va false s
  let entry = read_le s'.memory pte 8
  ok (
      if pte == 0 || not (bit_at entry pte_v) || not (bit_at entry pte_u)
      then 0
      else pte_to_pa entry))

-- The loop of `mappages` from `a` on. It has a pass for each page.
pub mappages_loop : ℕ → ℕ → ℕ → ℕ → ℕ → ℕ → Kmem → Outcome (ℤ × Kmem)
mappages_loop zero pagetable a last pa perm s = Outcome.sleep
mappages_loop (suc fuel) pagetable a last pa perm s = do
  (pte, s1) ← walk pagetable a true s
  (if pte == 0
      then ok (negsuc 0, s1)
      else if bit_at (read_le s1.memory pte 8) pte_v
      then panic
      else let entry = bit_or (bit_or (pa_to_pte pa) perm) (2 ^ pte_v) in
        let s2 = record s1 { memory = store_64 pte entry s1.memory } in
        if a == last
        then ok (pos 0, s2)
        else mappages_loop fuel pagetable (u64 (a + page_size)) last (u64 (pa + page_size)) perm s2)

-- `perm` is a set of flags.
pub mappages : ℕ → ℕ → ℕ → ℕ → ℕ → Kmem → Outcome (ℤ × Kmem)
mappages pagetable va size pa perm s =
    if not (va % page_size == 0) || not (size % page_size == 0) || size == 0
    then panic
    else mappages_loop (size / page_size) pagetable va (u64 (va + size - page_size)) pa perm s

pub kvmmap : ℕ → ℕ → ℕ → ℕ → ℕ → Kmem → Outcome Kmem
kvmmap kpgtbl va pa sz perm s = do
  (failed, s') ← mappages kpgtbl va sz pa perm s
  (if is_zero failed then ok s' else panic)

-- The loop of `uvmunmap` from `a` on. After a pass for each page, `a` is `stop`.
pub uvmunmap_loop : ℕ → ℕ → ℕ → ℕ → ℕ → Bool → Kmem → Outcome Kmem
uvmunmap_loop zero end pagetable a stop do_free s = ok s
uvmunmap_loop (suc fuel) end pagetable a stop do_free s = if leb stop a then ok s else (do
  (pte, s1) ← walk pagetable a false s
  let entry = read_le s1.memory pte 8
  s2 ←
      (if pte == 0 || not (bit_at entry pte_v) || pte_flags entry == 2 ^ pte_v
        then panic
        else if do_free
        then kfree end (pte_to_pa entry) s1
        else ok s1)
  uvmunmap_loop fuel end pagetable (a + page_size) stop do_free
      (record s2 { memory = store_64 pte 0 s2.memory }))

pub uvmunmap : ℕ → ℕ → ℕ → ℕ → Bool → Kmem → Outcome Kmem
uvmunmap end pagetable va npages do_free s =
    if not (va % page_size == 0)
    then panic
    else uvmunmap_loop npages end pagetable va (u64 (va + npages * page_size)) do_free s

-- An empty page table, or 0.
pub uvmcreate : Kmem → ℕ × Kmem
uvmcreate s =
    let (pagetable, s1) = kalloc s in
    if pagetable == 0 then (0, s1) else (pagetable, zeroed pagetable s1)

pub uvmfirst : ℕ → ℕ → ℕ → Kmem → Outcome Kmem
uvmfirst pagetable src sz s =
    if leb page_size sz
    then panic
    else let (mem, s1) = kalloc s in
      (do
        (_, s2) ←
            mappages pagetable 0 page_size mem (2 ^ pte_w + 2 ^ pte_r + 2 ^ pte_x + 2 ^ pte_u)
              (zeroed mem s1)
        ok (record s2 { memory = memmove mem src sz s2.memory }))
