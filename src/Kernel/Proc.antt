-- ===== src/Kernel/Proc.antt =====
-- xv6-riscv/kernel/proc.c: the table of processes. A process is its place in `proc`; `me` is the one that
-- calls. What lies between `acquire` and `release` of a process is one step. `end` and `trampoline`
-- are addresses of the linker.
pub mod Exit
pub mod Wake
use aca_riscv_secure_boot.Common.{
  ℕ, zero, suc, ◌+◌, ◌-◌, ◌^◌, Bool, true, false, ◌&&◌, ◌==◌, if◌then◌else◌, Option, none, some,
}
use aca_riscv_secure_boot.Common.Int.{ℤ, pos, negsuc, is_zero}
use aca_riscv_secure_boot.Common.Word.{u32, u64}
use aca_riscv_secure_boot.Kernel.Outcome.{Outcome, ok, ◌>>=◌}
use aca_riscv_secure_boot.Kernel.Kalloc.{Kmem, page_size, kalloc, kfree}
use aca_riscv_secure_boot.Kernel.Vm.{pte_r, pte_w, pte_x, max_va, mappages, uvmunmap, uvmcreate}
use aca_riscv_secure_boot.Kernel.Vm.User.{uvmalloc, uvmdealloc, uvmfree}

-- `NPROC`
abbrev pub nproc : ℕ
nproc = 64

pub data ProcState : Type 0 where
  unused : ProcState
  used : ProcState
  sleeping : ProcState
  runnable : ProcState
  running : ProcState
  zombie : ProcState

abbrev pub is_unused : ProcState → Bool
is_unused unused = true
is_unused _ = false

abbrev pub is_sleeping : ProcState → Bool
is_sleeping sleeping = true
is_sleeping _ = false

abbrev pub is_zombie : ProcState → Bool
is_zombie zombie = true
is_zombie _ = false

abbrev pub is_runnable : ProcState → Bool
is_runnable runnable = true
is_runnable _ = false

-- `struct proc` without its saved registers, its files and its name.
pub record Proc : Type 0 where
  pub state : ProcState
  pub chan : ℕ
  pub killed : ℕ
  pub xstate : ℕ
  pub pid : ℕ
  pub parent : Option ℕ
  pub sz : ℕ
  pub pagetable : ℕ
  pub trapframe : ℕ

-- `proc`, `nextpid` and `initproc`, with the memory of the allocator.
pub record Procs : Type 0 where
  pub proc : ℕ → Proc
  pub next_pid : ℕ
  pub init_proc : ℕ
  pub kmem : Kmem

abbrev pub set_proc : ℕ → Proc → Procs → Procs
set_proc i p t = record t { proc = λ x. if x == i then p else t.proc x }

-- `p == q` of pointers that may be null
abbrev pub is_place : Option ℕ → ℕ → Bool
is_place none i = false
is_place (some x) i = x == i

-- `TRAMPOLINE` and `TRAPFRAME`
abbrev pub trampoline_va : ℕ
trampoline_va = max_va - page_size

abbrev pub trapframe_va : ℕ
trapframe_va = trampoline_va - page_size

-- A page table with the trampoline and trapframe pages alone, or 0.
pub proc_pagetable : ℕ → ℕ → ℕ → Kmem → Outcome (ℕ × Kmem)
proc_pagetable end trampoline trapframe k =
    let (pagetable, k1) = uvmcreate k in
    if pagetable == 0 then ok (0, k1) else (do
      (failed, k2) ←
          mappages pagetable trampoline_va page_size trampoline (2 ^ pte_r + 2 ^ pte_x) k1
      (if is_zero failed
          then (do
            (failed', k3) ←
                mappages pagetable trapframe_va page_size trapframe (2 ^ pte_r + 2 ^ pte_w) k2
            (if is_zero failed' then ok (pagetable, k3) else (do
              k4 ← uvmunmap end pagetable trampoline_va 1 false k3
              k5 ← uvmfree 3 end pagetable 0 k4
              ok (0, k5))))
          else (do k3 ← uvmfree 3 end pagetable 0 k2; ok (0, k3))))

pub proc_freepagetable : ℕ → ℕ → ℕ → Kmem → Outcome Kmem
proc_freepagetable end pagetable sz k = do
  k1 ← uvmunmap end pagetable trampoline_va 1 false k
  k2 ← uvmunmap end pagetable trapframe_va 1 false k1
  uvmfree 3 end pagetable sz k2

-- The pages of a process are freed, and its entry.
pub freeproc : ℕ → ℕ → Procs → Outcome Procs
freeproc end i t = do
  let p = t.proc i
  k1 ← (if p.trapframe == 0 then ok t.kmem else kfree end p.trapframe t.kmem)
  k2 ← (if p.pagetable == 0 then ok k1 else proc_freepagetable end p.pagetable p.sz k1)
  let p' = record p {
    trapframe = 0;
    pagetable = 0;
    sz = 0;
    pid = 0;
    parent = none;
    chan = 0;
    killed = 0;
    xstate = 0;
    state = unused;
  }
  ok (record (set_proc i p' t) { kmem = k2 })

-- The first unused entry from `i` on.
pub find_unused : ℕ → ℕ → (ℕ → Proc) → Option ℕ
find_unused zero i proc = none
find_unused (suc n) i proc =
    let rest = find_unused n (i + 1) proc in if is_unused (proc i).state then some i else rest

-- An entry with a new pid, a trapframe and a page table, or none.
pub allocproc : ℕ → ℕ → Procs → Outcome (Option ℕ × Procs)
allocproc end trampoline t = elim (find_unused nproc 0 t.proc) [
  | none ↦ ok (none, t)
  | some i ↦
      let (trapframe, k1) = kalloc t.kmem in
      let p = record (t.proc i) { pid = t.next_pid; state = used; trapframe = trapframe } in
      let t1 = record (set_proc i p t) { next_pid = u32 (t.next_pid + 1); kmem = k1 } in
      if trapframe == 0 then (do t2 ← freeproc end i t1; ok (none, t2)) else (do
        (pagetable, k2) ← proc_pagetable end trampoline trapframe k1
        let t2 = record (set_proc i (record p { pagetable = pagetable }) t1) { kmem = k2 }
        (if pagetable == 0 then (do t3 ← freeproc end i t2; ok (none, t3)) else ok (some i, t2)))
]

-- `growproc`: memory grows or shrinks by `n` bytes.
pub growproc : ℕ → ℕ → ℤ → Procs → Outcome (ℤ × Procs)
growproc end me (pos zero) t = ok (pos 0, t)
growproc end me (pos (suc n)) t = do
  let p = t.proc me
  (sz, k) ← uvmalloc end p.pagetable p.sz (u64 (p.sz + suc n)) (2 ^ pte_w) t.kmem
  ok (
      if sz == 0
      then (negsuc 0, record t { kmem = k })
      else (pos 0, record (set_proc me (record p { sz = sz }) t) { kmem = k }))
growproc end me (negsuc n) t = do
  let p = t.proc me
  (sz, k) ← uvmdealloc end p.pagetable p.sz (u64 (p.sz + 2 ^ 64 - (n + 1))) t.kmem
  ok (pos 0, record (set_proc me (record p { sz = sz }) t) { kmem = k })

-- One process in the loop of `wakeup`.
abbrev pub woken : ℕ → Proc → Proc
woken chan p = if is_sleeping p.state && p.chan == chan then record p { state = runnable } else p

-- The loop of `wakeup` from place `i` on.
pub wakeup_loop : ℕ → ℕ → ℕ → ℕ → Procs → Procs
wakeup_loop zero i me chan t = t
wakeup_loop (suc n) i me chan t =
    wakeup_loop n (i + 1) me chan (if i == me then t else set_proc i (woken chan (t.proc i)) t)

pub wakeup : ℕ → ℕ → Procs → Procs
wakeup me chan t = wakeup_loop nproc 0 me chan t

-- One process in the loop of `kill`.
abbrev pub hit : Proc → Proc
hit p = record p { killed = 1; state = if is_sleeping p.state then runnable else p.state }

-- The loop of `kill` from place `i` on.
pub kill_loop : ℕ → ℕ → ℕ → Procs → ℤ × Procs
kill_loop zero i pid t = (negsuc 0, t)
kill_loop (suc n) i pid t =
    let rest = kill_loop n (i + 1) pid t in
    if (t.proc i).pid == pid then (pos 0, set_proc i (hit (t.proc i)) t) else rest

pub kill : ℕ → Procs → ℤ × Procs
kill pid t = kill_loop nproc 0 pid t

abbrev pub setkilled : ℕ → Procs → Procs
setkilled i t = set_proc i (record (t.proc i) { killed = 1 }) t

abbrev pub killed : ℕ → Procs → ℕ
killed i t = (t.proc i).killed

-- `sleep` up to `sched`, and behind it.
abbrev pub sleep_begin : ℕ → ℕ → Procs → Procs
sleep_begin me chan t = set_proc me (record (t.proc me) { chan = chan; state = sleeping }) t

abbrev pub sleep_end : ℕ → Procs → Procs
sleep_end me t = set_proc me (record (t.proc me) { chan = 0 }) t

-- `yield` up to `sched`.
abbrev pub yield : ℕ → Procs → Procs
yield me t = set_proc me (record (t.proc me) { state = runnable }) t

-- One pass of the loop of `scheduler`, up to `swtch`: whether process `i` runs.
pub schedule : ℕ → Procs → Option Procs
schedule i t =
    if is_runnable (t.proc i).state
    then some (set_proc i (record (t.proc i) { state = running }) t)
    else none
