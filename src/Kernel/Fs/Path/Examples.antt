-- ===== src/Kernel/Fs/Path/Examples.antt =====
-- The theorem on paths at a path in memory.
use aca_riscv_secure_boot.Common.{◌≡◌, refl, inl, inr, arith, ◌==◌, if◌then◌else◌, some}
use aca_riscv_secure_boot.Common.Memory.{Memory}
use aca_riscv_secure_boot.Kernel.Fs.Path.{skipelem}
use aca_riscv_secure_boot.Kernel.Fs.Path.Element.{Element, skipelem-Element}

-- `/ab//c` at 100
abbrev path : Memory
path x =
    if x == 100
    then 47
    else if x == 101
    then 97
    else if x == 102
    then 98
    else if x == 103
    then 47
    else if x == 104
    then 47
    else if x == 105
    then 99
    else 0

skipelem-Element_example :
    (m' : Memory) × (skipelem 7 100 200 path ≡ some (some 105, m')) × Element 200 101 2 path m'
skipelem-Element_example =
    skipelem-Element 7 100 200 1 2 2 path (λ i l. ground arith) (λ i l. ground arith) (omega arith)
      (λ i l. ground arith) (λ e. ground (arith, e)) (inl refl)
      (omega arith, omega arith, omega arith) (inr (omega arith))
