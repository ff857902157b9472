-- ===== src/Kernel/Proc/Exit/Examples.antt =====
-- The theorem on `exit` and `wait` at a table with three processes.
use aca_riscv_secure_boot.Common.{
  ℕ, ◌≡◌, ◌≢◌, ◌≤◌, ◌+◌, ◌*◌, refl, true, false, ◌&&◌, ◌==◌, if◌then◌else◌, arith, none, some,
}
use aca_riscv_secure_boot.Kernel.Proc.{ProcState, Procs, is_sleeping, is_zombie, is_place}
use aca_riscv_secure_boot.Kernel.Proc.Exit.{Children, scan, exit_zombie}
use aca_riscv_secure_boot.Kernel.Proc.Exit.Reap.{scan-exit_zombie}

-- Process 0 is init; process 2 runs, and its parent 1 sleeps in `wait`.
abbrev three_procs : Procs
three_procs = record {
  proc = λ i. record {
    state =
        if i == 2
        then ProcState.running
        else if i == 1
        then ProcState.sleeping
        else ProcState.unused;
    chan = if i == 1 then 1016 else 0;
    killed = 0;
    xstate = 0;
    pid = i + 1;
    parent = if i == 2 then some 1 else if i == 1 then some 0 else none;
    sz = 0;
    pagetable = 0;
    trapframe = 0;
  };
  next_pid = 4;
  init_proc = 0;
  kmem = record { freelist = 0; memory = λ _. 0 };
}

abbrev place : ℕ → ℕ
place i = 1000 + 16 * i

two_one : ◌≢◌ {A = ℕ} 2 1
two_one e = omega (arith, e)

scan-exit_zombie_example :
    let t = exit_zombie place 2 7 three_procs in
    ((is_sleeping (three_procs.proc 1).state && (three_procs.proc 1).chan == place 1) ≡ true
      → (t.proc 1).state ≡ ProcState.runnable)
    × ((j : ℕ) × (scan 64 0 1 false t.proc ≡ Children.exited j)
        × (j ≤ 2)
        × (is_place (t.proc j).parent 1 ≡ true)
        × (is_zombie (t.proc j).state ≡ true))
scan-exit_zombie_example =
    scan-exit_zombie place 2 1 7 three_procs (omega arith) (omega arith) two_one refl
