-- ===== src/Boot/Loader.antt =====
-- xv6-riscv/bootloader/load.c: copies one block of a kernel image out of its ramdisk.
use aca_riscv_secure_boot.Common.{ℕ, ◌+◌, ◌*◌, leb, if◌then◌else◌}
use aca_riscv_secure_boot.Common.Memory.{Memory}
use aca_riscv_secure_boot.Common.Word.{u32}
use aca_riscv_secure_boot.Boot.Elf.{Kernel, disk_base}
use aca_riscv_secure_boot.Boot.Strings.{memmove}

-- `panic` of start.c loops for ever.
pub data Run (A : Type 0) : Type 0 where
  ok : A → Run A
  panic : Run A

infixl 5 ◌>>=◌
abbrev pub ◌>>=◌ : {A B : Type 0} → Run A → (A → Run B) → Run B
ok a >>= f = f a
panic >>= f = panic

-- `BSIZE` and `FSSIZE`
abbrev pub block_size : ℕ
block_size = 1024

abbrev pub fs_size : ℕ
fs_size = 2000

-- The fields of `struct buf` that the bootloader uses; its `data` lies in memory, at `data_addr`.
pub record Buf : Type 0 where
  pub valid : ℕ
  pub blockno : ℕ
  pub data_addr : ℕ

unfoldable pub kernel_copy : Kernel → Buf → Memory → Run (Buf × Memory)
kernel_copy ktype b m =
    if leb fs_size b.blockno
    then panic
    else let diskaddr = u32 (b.blockno * block_size) in
      let addr = disk_base ktype + diskaddr in
      ok (record b { valid = 1 }, memmove b.data_addr addr block_size m)
