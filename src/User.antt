-- ===== src/User.antt =====
-- The programs that run on the kernel, xv6-riscv/user.
pub mod Ulib
pub mod Printf
pub mod Grep
