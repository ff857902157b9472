-- ===== src/Kernel/Vm/Examples.antt =====
-- The theorems on xv6-riscv/kernel/vm.c at a concrete page table.
use aca_riscv_secure_boot.Common.{
  ℕ, ◌+◌, ◌≡◌, ◌<◌, ◌≤◌, ◌⊎◌, refl, sym, ◌∙◌, arith, ◌==◌, ◌||◌, leb, if◌then◌else◌, inl, inr, true,
  false,
}
use aca_riscv_secure_boot.Common.Bits.{bit_at}
use aca_riscv_secure_boot.Common.Cells.{read_le, read_le_ext}
use aca_riscv_secure_boot.Common.Memory.{Memory, within}
use aca_riscv_secure_boot.Kernel.Outcome.{ok}
use aca_riscv_secure_boot.Kernel.Kalloc.{Kmem}
use aca_riscv_secure_boot.Kernel.Vm.{
  round_down, walk, walk_loop, walk_level, walkaddr, mappages, uvmunmap,
}
use aca_riscv_secure_boot.Kernel.Vm.Map.{HasTables, walkaddr-mappages}
use aca_riscv_secure_boot.Common.Int.{pos}
use aca_riscv_secure_boot.Kernel.Vm.Walk.{walkaddr_entries}
use aca_riscv_secure_boot.Kernel.Vm.Copy.{copyin}
use aca_riscv_secure_boot.Kernel.Vm.Copy.Pages.{user_address}
use aca_riscv_secure_boot.Kernel.Vm.Copy.Bytes.{
  with_memory, SameOutside, IsSteady, IsAway, CopiedIn, copyin-CopiedIn,
}

-- Tables at 0x1000, 0x2000 and 0x3000 map page 0 to 0x5000 and page 1 to 0x4000, where memory holds 7.
abbrev mapped : Kmem
mapped = record {
  freelist = 0;
  memory = λ x.
      if x == 0x1001
      then 8
      else if x == 0x1000 || x == 0x2000
      then 1
      else if x == 0x2001
      then 12
      else if x == 0x3000 || x == 0x3008
      then 0x17
      else if x == 0x3001
      then 20
      else if x == 0x3009
      then 16
      else if leb 0x4000 x
      then 7
      else 0;
}

walkaddr-first : walkaddr 0x1000 0 mapped ≡ ok 0x5000
unfolding walkaddr walk walk_loop walk_level bit_at read_le
walkaddr-first = refl

walkaddr-second : walkaddr 0x1000 0x1000 mapped ≡ ok 0x4000
unfolding walkaddr walk walk_loop walk_level bit_at read_le
walkaddr-second = refl

-- The four bytes at 0x100 are no part of an entry.
entry-same :
    (a : ℕ) (m : Memory)
    → 0x104 ≤ a
    → SameOutside 0x1000 0x100 4094 4 mapped m mapped.memory
    → read_le m a 8 ≡ read_le mapped.memory a 8
entry-same a m l same = read_le_ext m mapped.memory a 8 (λ i q. same (a + i) (ground (arith, l)))

root : read_le mapped.memory 0x1000 8 ≡ 0x801
unfolding read_le
root = refl

middle : read_le mapped.memory 0x2000 8 ≡ 0xc01
unfolding read_le
middle = refl

leaf : read_le mapped.memory 0x3000 8 ≡ 0x1417
unfolding read_le
leaf = refl

next_leaf : read_le mapped.memory 0x3008 8 ≡ 0x1017
unfolding read_le
next_leaf = refl

first-steady :
    (m : Memory)
    → SameOutside 0x1000 0x100 4094 4 mapped m mapped.memory
    → walkaddr 0x1000 0 (with_memory mapped m) ≡ ok 0x5000
unfolding bit_at
first-steady m same =
    walkaddr_entries 0x1000 0 0x801 0xc01 0x1417 (with_memory mapped m) refl
      (entry-same 0x1000 m (omega arith) same ∙ root) refl
      (entry-same 0x2000 m (omega arith) same ∙ middle) refl
      (entry-same 0x3000 m (omega arith) same ∙ leaf)

second-steady :
    (m : Memory)
    → SameOutside 0x1000 0x100 4094 4 mapped m mapped.memory
    → walkaddr 0x1000 0x1000 (with_memory mapped m) ≡ ok 0x4000
unfolding bit_at
second-steady m same =
    walkaddr_entries 0x1000 0x1000 0x801 0xc01 0x1017 (with_memory mapped m) refl
      (entry-same 0x1000 m (omega arith) same ∙ root) refl
      (entry-same 0x2000 m (omega arith) same ∙ middle) refl
      (entry-same 0x3008 m (omega arith) same ∙ next_leaf)

page-cases : (i : ℕ) → i < 4 → (round_down (4094 + i) ≡ 0) ⊎ (round_down (4094 + i) ≡ 0x1000)
page-cases i l = ground arith

mapped-IsSteady : IsSteady 0x1000 0x100 4094 4 mapped
mapped-IsSteady i m l same = elim (page-cases i l) [
  | inl e ↦ rw e (first-steady m same ∙ sym walkaddr-first)
  | inr e ↦ rw e (second-steady m same ∙ sym walkaddr-second)
]

mapped-IsAway : IsAway 0x1000 0x100 4094 4 mapped
unfolding user_address
mapped-IsAway i a l e = elim (page-cases i l) [
  | inl p ↦ ground (arith, rw (p, walkaddr-first) at e)
  | inr p ↦ ground (arith, rw (p, walkaddr-second) at e)
]

copyin-CopiedIn_example : CopiedIn 0x1000 0x100 4094 4 mapped (copyin 0x1000 0x100 4094 4 mapped)
copyin-CopiedIn_example = copyin-CopiedIn 0x1000 0x100 4094 4 mapped mapped-IsSteady mapped-IsAway

third-HasTables : HasTables 0x1000 0x2000 0x801 0xc01 mapped
unfolding bit_at
third-HasTables = record {
  in_range = omega arith;
  upper = root;
  upper_valid = refl;
  lower = middle;
  lower_valid = refl;
  table = λ e. ground (arith, e);
  upper_apart = ground arith;
  lower_apart = ground arith;
}

third_free : bit_at (read_le mapped.memory 0x3010 8) 0 ≡ false
unfolding read_le bit_at
third_free = refl

for_user : bit_at 0x16 4 ≡ true
unfolding bit_at
for_user = refl

-- Page 2 is mapped to 0x6000.
walkaddr-mappages_example :
    (s1 : Kmem) × (s2 : Kmem) × (mappages 0x1000 0x2000 4096 0x6000 0x16 mapped ≡ ok (pos 0, s1))
    × (walkaddr 0x1000 0x2000 s1 ≡ ok 0x6000)
    × (uvmunmap 0 0x1000 0x2000 1 false s1 ≡ ok s2)
    × (walkaddr 0x1000 0x2000 s2 ≡ ok 0)
    × ((x : ℕ) → within 0x3010 8 x ≡ false → s2.memory x ≡ mapped.memory x)
walkaddr-mappages_example =
    walkaddr-mappages 0x1000 0x2000 0 0x801 0xc01 0x6000 0x16 mapped third-HasTables refl third_free
      refl (omega arith) (omega arith) for_user
