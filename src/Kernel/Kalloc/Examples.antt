-- ===== src/Kernel/Kalloc/Examples.antt =====
-- The theorems of the page allocator at concrete memories.
use aca_riscv_secure_boot.Common.{
  ℕ, member, ◌-◌, ◌/◌, ◌≡◌, ◌⊎◌, refl, true, false, arith, if◌then◌else◌, [], ◌∷◌,
}
use aca_riscv_secure_boot.Common.Memory.{store, within}
use aca_riscv_secure_boot.Common.Cells.{read_le}
use aca_riscv_secure_boot.Kernel.Outcome.{ok}
use aca_riscv_secure_boot.Kernel.Kalloc.{Kmem, kfree, kalloc, kinit, phys_stop, page_round_up}
use aca_riscv_secure_boot.Kernel.Kalloc.FreeList.{IsPage, FreeFrom}
use aca_riscv_secure_boot.Kernel.Kalloc.Init.{pages, kinit-pages}
use aca_riscv_secure_boot.Kernel.Kalloc.Client.{
  World, write, Reach, here, next, IsSound, kalloc_fresh, kfree-kalloc,
}

-- A kernel that ends shortly before `PHYSTOP`.
kinit-pages_example :
    (s : Kmem) × (kinit 4 0x88fffd01 (λ _. 0) ≡ ok s)
    × FreeFrom 0x88fffd01 s.memory s.freelist
        (pages (page_round_up 0x88fffd01) ((phys_stop - page_round_up 0x88fffd01) / 4096))
kinit-pages_example = kinit-pages 4 0x88fffd01 (λ _. 0) (omega arith) (omega arith) (omega arith)

-- One page is in use, and one is free.
abbrev busy : World
busy = record { kmem = record { freelist = 0x88fff000; memory = λ _. 0 }; used = 0x88ffe000 ∷ [] }

busy-IsSound : IsSound 0x88ffe000 busy
unfolding FreeFrom member read_le
busy-IsSound = record {
  pages = 0x88fff000 ∷ [];
  list = (
    refl,
    record { aligned = refl; low = omega arith; high = omega arith; positive = omega arith },
    refl,
    refl,
  );
  valid = λ p h. record {
    aligned = ground arith;
    low = ground arith;
    high = ground arith;
    positive = ground arith;
  };
  apart = λ p h. ground arith;
}

-- Its user stores into it.
abbrev scribbled : World
scribbled = record {
  kmem = record { freelist = 0x88fff000; memory = store (λ _. 0) 0x88ffe007 9 };
  used = 0x88ffe000 ∷ [];
}

busy-Reach : Reach 0x88ffe000 busy scribbled
unfolding member
busy-Reach = next here (write 0x88ffe000 0x88ffe007 9 refl refl)

kalloc_fresh_example :
    (kalloc scribbled.kmem ≡ (0, scribbled.kmem))
    ⊎ (IsPage 0x88ffe000 (kalloc scribbled.kmem).0
        × (member (kalloc scribbled.kmem).0 scribbled.used ≡ false)
        × ((x : ℕ)
            → (kalloc scribbled.kmem).1.memory x
              ≡ (if within (kalloc scribbled.kmem).0 4096 x then 5 else scribbled.kmem.memory x)))
kalloc_fresh_example = kalloc_fresh busy-IsSound busy-Reach

in_use : member 0x88ffe000 scribbled.used ≡ true
unfolding member
in_use = refl

kfree-kalloc_example :
    (s : Kmem) × (kfree 0x88ffe000 0x88ffe000 scribbled.kmem ≡ ok s)
    × ((kalloc s).0 ≡ 0x88ffe000)
    × ((kalloc s).1.freelist ≡ scribbled.kmem.freelist)
kfree-kalloc_example = kfree-kalloc busy-IsSound busy-Reach 0x88ffe000 in_use
