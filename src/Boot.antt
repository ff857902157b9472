-- ===== src/Boot.antt =====
-- The bootloader, xv6-riscv/bootloader: string routines, SHA-256, ELF headers, loading, boot.
pub mod Elf
mod Examples
pub mod Loader
pub mod Sha256
pub mod Start
pub mod Strings
