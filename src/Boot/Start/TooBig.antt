-- ===== src/Boot/Start/TooBig.antt =====
-- An image that does not fit the ramdisk: the guard of `kernel_copy` in
-- xv6-riscv/bootloader/load.c, seen through `start` of start.c.
use aca_riscv_secure_boot.Common.Memory.{Memory}
use aca_riscv_secure_boot.Boot.Sha256
