-- ===== src/Kernel/Spinlock/Examples.antt =====
-- The theorems of spin locks at a concrete run.
use aca_riscv_secure_boot.Common.{ℕ, ◌≡◌, ◌≢◌, ◌⊎◌, refl, true, false, if◌then◌else◌, none}
use aca_riscv_secure_boot.Kernel.Outcome.{ok, panic}
use aca_riscv_secure_boot.Kernel.Spinlock.{
  Cpu, initlock, holding, acquire_begin, release_begin, set_cpu, push_off, test_and_set,
}
use aca_riscv_secure_boot.Kernel.Spinlock.Interrupts.{pushes, pops, pops-pushes}
use aca_riscv_secure_boot.Kernel.Spinlock.Mutex.{
  World, enter, swap, Reach, start, next, at, outside, spinning, won, critical, owns,
  acquire_excludes, holding-critical,
}

abbrev cpus : ℕ → Cpu
cpus _ = record { noff = 0; intena = false; intr = true }

abbrev begun : World
begun = record { lock = initlock; place = λ _. outside; cpu = cpus }

abbrev holder : ℕ
holder = 3

-- Hart 3 has taken the lock.
abbrev taken : World
taken = record {
  lock = (test_and_set initlock).1;
  place = at (at begun.place 3 spinning) 3 (if (test_and_set initlock).0 then spinning else won);
  cpu = at cpus 3 (push_off (cpus 3));
}

enters : acquire_begin 3 initlock (cpus 3) ≡ ok (push_off (cpus 3))
unfolding acquire_begin
enters = refl

taken-Reach : Reach cpus taken
taken-Reach = next (next start (enter 3 refl enters)) (swap 3 refl)

taken_by : owns (taken.place 3) ≡ true
unfolding test_and_set
taken_by = refl

acquire_excludes_example : (holder ≡ holder) × (taken.lock.locked ≡ true)
acquire_excludes_example = acquire_excludes taken-Reach holder holder taken_by taken_by

holding-critical_example :
    ((taken.place 5 ≡ critical)
      × (holding taken.lock 5 ≡ true)
      × (acquire_begin 5 taken.lock (taken.cpu 5) ≡ panic)
      × (release_begin 5 taken.lock ≡ ok (set_cpu none taken.lock)))
    ⊎ ((taken.place 5 ≢ critical)
        × (holding taken.lock 5 ≡ false)
        × (acquire_begin 5 taken.lock (taken.cpu 5) ≡ ok (push_off (taken.cpu 5)))
        × (release_begin 5 taken.lock ≡ panic))
holding-critical_example = holding-critical taken-Reach 5

pops-pushes_example :
    pops 3 (pushes 3 (cpus 0)) ≡ ok (record { noff = 0; intena = true; intr = true })
pops-pushes_example = pops-pushes 2 (cpus 0) refl
