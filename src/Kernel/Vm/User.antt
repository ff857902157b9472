-- ===== src/Kernel/Vm/User.antt =====
-- xv6-riscv/kernel/vm.c: the memory of a user process.
use aca_riscv_secure_boot.Common.{
  ℕ, zero, suc, ◌+◌, ◌-◌, ◌*◌, ◌/◌, ◌^◌, true, false, not, ◌&&◌, ◌||◌, ltb, leb, ◌==◌,
  if◌then◌else◌,
}
use aca_riscv_secure_boot.Common.Bits.{bit_at}
use aca_riscv_secure_boot.Common.Int.{ℤ, pos, negsuc, is_zero}
use aca_riscv_secure_boot.Common.Cells.{read_le, store_64}
use aca_riscv_secure_boot.Common.Word.{u32, u64}
use aca_riscv_secure_boot.Boot.Strings.{memmove}
use aca_riscv_secure_boot.Kernel.Outcome.{Outcome, ok, panic, ◌>>=◌}
use aca_riscv_secure_boot.Kernel.Kalloc.{Kmem, page_size, kalloc, kfree}
use aca_riscv_secure_boot.Kernel.Vm.{
  round_up, pte_v, pte_r, pte_w, pte_x, pte_u, pte_to_pa, pte_flags, zeroed, walk, mappages,
  uvmunmap,
}
use Prim.Native.Nat.{bit_and, bit_or}

-- An `int`, as it is passed for a `uint64`.
abbrev pub int_64 : ℕ → ℕ
int_64 x = if leb (2 ^ 31) (u32 x) then u32 x + (2 ^ 64 - 2 ^ 32) else u32 x

-- Deallocate user pages to bring the process from `oldsz` to `newsz`.
pub uvmdealloc : ℕ → ℕ → ℕ → ℕ → Kmem → Outcome (ℕ × Kmem)
uvmdealloc end pagetable oldsz newsz s =
    if leb oldsz newsz
    then ok (oldsz, s)
    else if ltb (round_up newsz) (round_up oldsz)
    then (do
      let npages = int_64 ((round_up oldsz - round_up newsz) / page_size)
      s' ← uvmunmap end pagetable (round_up newsz) npages true s
      ok (newsz, s'))
    else ok (newsz, s)

-- The loop of `uvmalloc` from `a` on. After a pass for each page, `a` has reached `newsz`.
pub uvmalloc_loop : ℕ → ℕ → ℕ → ℕ → ℕ → ℕ → ℕ → Kmem → Outcome (ℕ × Kmem)
uvmalloc_loop zero end pagetable a oldsz newsz xperm s = ok (newsz, s)
uvmalloc_loop (suc fuel) end pagetable a oldsz newsz xperm s =
    if leb newsz a
    then ok (newsz, s)
    else let (mem, s1) = kalloc s in
      if mem == 0 then (do (_, s2) ← uvmdealloc end pagetable a oldsz s1; ok (0, s2)) else (do
        (failed, s2) ←
            mappages pagetable a page_size mem (bit_or (2 ^ pte_r + 2 ^ pte_u) xperm)
              (zeroed mem s1)
        (if is_zero failed
            then uvmalloc_loop fuel end pagetable (u64 (a + page_size)) oldsz newsz xperm s2
            else (do
              s3 ← kfree end mem s2
              (_, s4) ← uvmdealloc end pagetable a oldsz s3
              ok (0, s4))))

-- Allocate memory to grow a process: the new size, or 0.
pub uvmalloc : ℕ → ℕ → ℕ → ℕ → ℕ → Kmem → Outcome (ℕ × Kmem)
uvmalloc end pagetable oldsz newsz xperm s =
    if ltb newsz oldsz
    then ok (oldsz, s)
    else let start = round_up oldsz in
      uvmalloc_loop ((newsz - start + page_size - 1) / page_size) end pagetable start start newsz
        xperm s

-- The loop of `freewalk` from entry `i` on; `free` is `freewalk` of the next level.
pub freewalk_loop : (ℕ → Kmem → Outcome Kmem) → ℕ → ℕ → ℕ → Kmem → Outcome Kmem
freewalk_loop free zero i pagetable s = ok s
freewalk_loop free (suc n) i pagetable s = do
  let pte = read_le s.memory (pagetable + 8 * i) 8
  s' ←
      (if bit_at pte pte_v && bit_and pte (2 ^ pte_r + 2 ^ pte_w + 2 ^ pte_x) == 0
        then (do
          s1 ← free (pte_to_pa pte) s
          ok (record s1 { memory = store_64 (pagetable + 8 * i) 0 s1.memory }))
        else if bit_at pte pte_v
        then panic
        else ok s)
  freewalk_loop free n (i + 1) pagetable s'

-- `freewalk` on fuel, one for each level of tables; without any left it reports a sleep.
pub freewalk : ℕ → ℕ → ℕ → Kmem → Outcome Kmem
freewalk zero end pagetable s = Outcome.sleep
freewalk (suc levels) end pagetable s = do
  s' ← freewalk_loop (freewalk levels end) 512 0 pagetable s
  kfree end pagetable s'

pub uvmfree : ℕ → ℕ → ℕ → ℕ → Kmem → Outcome Kmem
uvmfree levels end pagetable sz s = do
  s' ← (if ltb 0 sz then uvmunmap end pagetable 0 (round_up sz / page_size) true s else ok s)
  freewalk levels end pagetable s'

-- The end of `uvmcopy` on an error.
abbrev pub copy_err : ℕ → ℕ → ℕ → Kmem → Outcome (ℤ × Kmem)
copy_err end new i s = do s' ← uvmunmap end new 0 (i / page_size) true s; ok (negsuc 0, s')

-- The loop of `uvmcopy` from `i` on. After a pass for each page, `i` has reached `sz`.
pub uvmcopy_loop : ℕ → ℕ → ℕ → ℕ → ℕ → ℕ → Kmem → Outcome (ℤ × Kmem)
uvmcopy_loop zero end old new i sz s = ok (pos 0, s)
uvmcopy_loop (suc fuel) end old new i sz s = if leb sz i then ok (pos 0, s) else (do
  (pte, s1) ← walk old i false s
  let entry = read_le s1.memory pte 8
  (if pte == 0 || not (bit_at entry pte_v)
      then panic
      else let (mem, s2) = kalloc s1 in
        if mem == 0 then copy_err end new i s2 else (do
          let copied = record s2 { memory = memmove mem (pte_to_pa entry) page_size s2.memory }
          (failed, s3) ← mappages new i page_size mem (pte_flags entry) copied
          (if is_zero failed
              then uvmcopy_loop fuel end old new (u64 (i + page_size)) sz s3
              else (do s4 ← kfree end mem s3; copy_err end new i s4)))))

pub uvmcopy : ℕ → ℕ → ℕ → ℕ → Kmem → Outcome (ℤ × Kmem)
uvmcopy end old new sz s = uvmcopy_loop ((sz + page_size - 1) / page_size) end old new 0 sz s

-- Mark an entry invalid for user access.
pub uvmclear : ℕ → ℕ → Kmem → Outcome Kmem
uvmclear pagetable va s = do
  (pte, s1) ← walk pagetable va false s
  (if pte == 0
      then panic
      else ok (record s1 {
        memory =
            store_64 pte (bit_and (read_le s1.memory pte 8) (2 ^ 64 - 1 - 2 ^ pte_u)) s1.memory;
      }))
