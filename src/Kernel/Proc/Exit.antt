-- ===== src/Kernel/Proc/Exit.antt =====
-- xv6-riscv/kernel/proc.c: how a process ends. `at` gives the address of each entry of `proc`.
pub mod Reap
mod Examples
use aca_riscv_secure_boot.Common.{
  ℕ, zero, suc, ◌+◌, Bool, false, not, ◌||◌, ◌==◌, if◌then◌else◌, Option, none, some,
}
use aca_riscv_secure_boot.Common.Int.{ℤ, pos, negsuc}
use aca_riscv_secure_boot.Kernel.Outcome.{Outcome, ok, sleep, ◌>>=◌}
use aca_riscv_secure_boot.Kernel.Kalloc.{Kmem}
use aca_riscv_secure_boot.Kernel.Vm.Copy.{copyin, copyout, moved}
use aca_riscv_secure_boot.Kernel.Proc.{
  nproc, ProcState, Proc, Procs, is_zombie, is_place, set_proc, freeproc, wakeup, killed,
}

-- The address in a pointer that may be null.
abbrev pub address : (ℕ → ℕ) → Option ℕ → ℕ
address at none = 0
address at (some i) = at i

-- The loop of `reparent` from place `i` on: children of `p` go to `initproc`.
pub reparent_loop : (ℕ → ℕ) → ℕ → ℕ → ℕ → ℕ → Procs → Procs
reparent_loop at zero i me p t = t
reparent_loop at (suc n) i me p t = reparent_loop at n (i + 1) me p (
    if is_place (t.proc i).parent p
    then wakeup me (at t.init_proc) (set_proc i (record (t.proc i) { parent = some t.init_proc }) t)
    else t)

pub reparent : (ℕ → ℕ) → ℕ → ℕ → Procs → Procs
reparent at me p t = reparent_loop at nproc 0 me p t

-- `exit` from the `acquire` of `wait_lock` to `sched`.
pub exit_zombie : (ℕ → ℕ) → ℕ → ℕ → Procs → Procs
exit_zombie at me status t =
    let t1 = reparent at me me t in
    let t2 = wakeup me (address at (t1.proc me).parent) t1 in
    set_proc me (record (t2.proc me) { xstate = status; state = ProcState.zombie }) t2

-- What the loop of `wait` over the table finds from place `i` on: a child that has exited, or whether
-- there is a child.
pub data Children : Type 0 where
  exited : ℕ → Children
  others : Bool → Children

pub scan : ℕ → ℕ → ℕ → Bool → (ℕ → Proc) → Children
scan zero i me havekids proc = Children.others havekids
scan (suc n) i me havekids proc =
    let rest = scan n (i + 1) me (havekids || is_place (proc i).parent me) proc in
    if is_place (proc i).parent me
    then if is_zombie (proc i).state then Children.exited i else rest
    else rest

-- `wait` up to its next `sleep`, with the pid of the child. `out` is the `copyout` of its exit status
-- to an address other than 0: whether it succeeds, and the memory.
pub wait : ℕ → ℕ → (ℕ → Kmem → Bool × Kmem) → Procs → Outcome (ℤ × Procs)
wait end me out t = elim (scan nproc 0 me false t.proc) [
  | Children.exited i ↦
      let (copied, k) = out (t.proc i).xstate t.kmem in
      let t1 = record t { kmem = k } in
      if copied then (do t2 ← freeproc end i t1; ok (pos (t.proc i).pid, t2)) else ok (negsuc 0, t1)
  | Children.others havekids ↦
      if not havekids || not (killed me t == 0) then ok (negsuc 0, t) else sleep
]

-- `either_copyout` and `either_copyin`; `user` tells whether the address is one of the caller.
pub either_copyout : ℕ → Bool → ℕ → ℕ → ℕ → Procs → Outcome (ℤ × Kmem)
either_copyout me user_dst dst src len t =
    if user_dst
    then copyout (t.proc me).pagetable dst src len t.kmem
    else ok (pos 0, moved dst src len t.kmem)

pub either_copyin : ℕ → ℕ → Bool → ℕ → ℕ → Procs → Outcome (ℤ × Kmem)
either_copyin me dst user_src src len t =
    if user_src
    then copyin (t.proc me).pagetable dst src len t.kmem
    else ok (pos 0, moved dst src len t.kmem)
