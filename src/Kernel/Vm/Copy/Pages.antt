-- ===== src/Kernel/Vm/Copy/Pages.antt =====
-- The user's bytes page by page, as the loops of xv6-riscv/kernel/vm.c take them.
use aca_riscv_secure_boot.Common.{
  ℕ, ◌+◌, ◌-◌, ◌%◌, ◌≡◌, ◌≢◌, ◌<◌, ◌≤◌, ◌⊎◌, refl, ap, ◌∙◌, Bool, true, false, arith, leb, ◌==◌,
  if◌then◌else◌, Option, none, some,
}
use aca_riscv_secure_boot.Kernel.Outcome.{Outcome, ok, panic, sleep, ◌>>=◌}
use aca_riscv_secure_boot.Kernel.Kalloc.{Kmem}
use aca_riscv_secure_boot.Kernel.Vm.{round_down, walk, walkaddr}
use aca_riscv_secure_boot.Kernel.Vm.Copy.{page_part}

-- The byte at offset `off` of the page that `walkaddr` found.
abbrev physical : ℕ → Outcome ℕ → Option ℕ
physical off (ok pa) = if pa == 0 then none else some (pa + off)
physical off panic = none
physical off sleep = none

-- The physical address of a byte of the user, if its page is mapped for the user.
unfoldable pub user_address : ℕ → ℕ → Kmem → Option ℕ
user_address pagetable va s = physical (va % 4096) (walkaddr pagetable (round_down va) s)

guarded-ok :
    (b : Bool) (x : ℕ × Kmem) (f : ℕ × Kmem → ℕ)
    → (pa : ℕ) × ((if b then ok 0 else ((if b then panic else ok x) >>= (λ p. ok (f p)))) ≡ ok pa)
guarded-ok true x f = (0, refl)
guarded-ok false x f = (f x, refl)

pub walkaddr-ok : (pagetable va : ℕ) (s : Kmem) → (pa : ℕ) × (walkaddr pagetable va s ≡ ok pa)
unfolding walkaddr walk
walkaddr-ok pagetable va s = guarded-ok (leb 274877906944 va) _ _

pub user_address-zero :
    (pagetable va : ℕ) (s : Kmem)
    → walkaddr pagetable (round_down va) s ≡ ok 0
    → user_address pagetable va s ≡ none
unfolding user_address
user_address-zero pagetable va s e = ap (physical (va % 4096)) e

pub user_address-some :
    (pagetable va pa : ℕ) (s : Kmem)
    → walkaddr pagetable (round_down va) s ≡ ok pa
    → (pa == 0) ≡ false
    → user_address pagetable va s ≡ some (pa + va % 4096)
unfolding user_address
user_address-some pagetable va pa s e nz =
    ap (physical (va % 4096)) e ∙ ap (λ (b : Bool). if b then none else some (pa + va % 4096)) nz

-- The bytes of a page behind one of its bytes.
pub same_page :
    (va j n : ℕ)
    → j < n
    → n ≤ 4096 - (va - round_down va)
    → (round_down (va + j) ≡ round_down va) × ((va + j) % 4096 ≡ va - round_down va + j)
same_page va j n l h = (omega arith, omega arith)

pub page_part-bounds :
    (va left : ℕ)
    → left ≢ 0
    → (0 < page_part va left)
      × (page_part va left ≤ left)
      × (page_part va left ≤ 4096 - (va - round_down va))
      × ((left - page_part va left ≡ 0) ⊎ (round_down va + 4096 ≡ va + page_part va left))
page_part-bounds va left nz = (ground arith, ground arith, ground arith, ground arith)
