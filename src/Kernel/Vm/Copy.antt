-- ===== src/Kernel/Vm/Copy.antt =====
-- xv6-riscv/kernel/vm.c: copies between kernel and user memory. A pass of a loop takes a byte at least,
-- so there is a pass for each byte.
pub mod Pages
pub mod Bytes
use aca_riscv_secure_boot.Common.{
  ℕ, zero, suc, ◌+◌, ◌-◌, Bool, true, false, not, ◌||◌, ltb, leb, ◌==◌, if◌then◌else◌,
}
use aca_riscv_secure_boot.Common.Bits.{bit_at}
use aca_riscv_secure_boot.Common.Int.{ℤ, pos, negsuc}
use aca_riscv_secure_boot.Common.Cells.{read_le}
use aca_riscv_secure_boot.Common.Memory.{Memory, store}
use aca_riscv_secure_boot.Boot.Strings.{memmove}
use aca_riscv_secure_boot.Kernel.Outcome.{Outcome, ok, ◌>>=◌}
use aca_riscv_secure_boot.Kernel.Kalloc.{Kmem, page_size}
use aca_riscv_secure_boot.Kernel.Vm.{
  round_down, pte_v, pte_w, pte_u, pte_to_pa, max_va, walk, walkaddr,
}

-- How many bytes a pass takes: to the end of the page, or all that are left.
abbrev pub page_part : ℕ → ℕ → ℕ
page_part va len = let n = page_size - (va - round_down va) in if ltb len n then len else n

abbrev pub moved : ℕ → ℕ → ℕ → Kmem → Kmem
moved dst src n s = record s { memory = memmove dst src n s.memory }

-- The loop of `copyout`.
pub copyout_loop : ℕ → ℕ → ℕ → ℕ → ℕ → Kmem → Outcome (ℤ × Kmem)
copyout_loop zero pagetable dstva src len s = ok (pos 0, s)
copyout_loop (suc fuel) pagetable dstva src len s =
    let va = round_down dstva in
    let n = page_part dstva len in
    if len == 0 then ok (pos 0, s) else if leb max_va va then ok (negsuc 0, s) else (do
      (pte, s') ← walk pagetable va false s
      let entry = read_le s'.memory pte 8
      (if pte == 0
            || not (bit_at entry pte_v)
            || not (bit_at entry pte_u)
            || not (bit_at entry pte_w)
          then ok (negsuc 0, s')
          else copyout_loop fuel pagetable (va + page_size) (src + n) (len - n)
              (moved (pte_to_pa entry + (dstva - va)) src n s')))

-- Copy `len` bytes from `src` to the virtual address `dstva`.
pub copyout : ℕ → ℕ → ℕ → ℕ → Kmem → Outcome (ℤ × Kmem)
copyout pagetable dstva src len s = copyout_loop len pagetable dstva src len s

-- The loop of `copyin`.
pub copyin_loop : ℕ → ℕ → ℕ → ℕ → ℕ → Kmem → Outcome (ℤ × Kmem)
copyin_loop zero pagetable dst srcva len s = ok (pos 0, s)
copyin_loop (suc fuel) pagetable dst srcva len s =
    let va = round_down srcva in
    let n = page_part srcva len in
    if len == 0 then ok (pos 0, s) else (do
      pa ← walkaddr pagetable va s
      (if pa == 0
          then ok (negsuc 0, s)
          else copyin_loop fuel pagetable (dst + n) (va + page_size) (len - n)
              (moved dst (pa + (srcva - va)) n s)))

-- Copy `len` bytes to `dst` from the virtual address `srcva`.
pub copyin : ℕ → ℕ → ℕ → ℕ → Kmem → Outcome (ℤ × Kmem)
copyin pagetable dst srcva len s = copyin_loop len pagetable dst srcva len s

-- The inner loop of `copyinstr`: whether it met the NUL, and the memory.
pub copy_string : ℕ → ℕ → ℕ → Memory → Bool × Memory
copy_string zero p dst m = (false, m)
copy_string (suc n) p dst m =
    let rest = copy_string n (p + 1) (dst + 1) (store m dst (m p)) in
    if m p == 0 then (true, store m dst 0) else rest

-- The loop of `copyinstr`, and what it returns. A pass that meets no NUL takes `n` bytes.
pub copyinstr_loop : ℕ → ℕ → ℕ → ℕ → ℕ → Kmem → Outcome (ℤ × Kmem)
copyinstr_loop zero pagetable dst srcva max s = ok (negsuc 0, s)
copyinstr_loop (suc fuel) pagetable dst srcva max s =
    let va = round_down srcva in
    let n = page_part srcva max in
    if max == 0 then ok (negsuc 0, s) else (do
      pa ← walkaddr pagetable va s
      let (got_null, m) = copy_string n (pa + (srcva - va)) dst s.memory
      let s' = record s { memory = m }
      (if pa == 0
          then ok (negsuc 0, s)
          else if got_null
          then ok (pos 0, s')
          else copyinstr_loop fuel pagetable (dst + n) (va + page_size) (max - n) s'))

-- Copy a string with its NUL, of `max` bytes at most.
pub copyinstr : ℕ → ℕ → ℕ → ℕ → Kmem → Outcome (ℤ × Kmem)
copyinstr pagetable dst srcva max s = copyinstr_loop max pagetable dst srcva max s
