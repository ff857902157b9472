-- ===== src/Kernel.antt =====
-- The kernel that is booted, xv6-riscv/kernel.
pub mod Outcome
pub mod Log
pub mod Pipe
pub mod Kalloc
pub mod Spinlock
pub mod Console
pub mod Uart
pub mod Sleeplock
pub mod Fs
pub mod File
pub mod Printf
pub mod Bio
pub mod Vm
pub mod Proc
