-- ===== src/Lib.antt =====
-- A model of the secure boot of xv6 on RISC-V (xv6-riscv/bootloader) and of parts of the kernel that
-- it boots (xv6-riscv/kernel) and of the programs on it (xv6-riscv/user), with the theorems that hold
-- of them.
--
-- The program. entry.S calls `start` of bootloader/start.c in machine mode. `start` finds the NORMAL
-- kernel as an ELF image in a ramdisk (elf.c), copies it block by block (load.c, string.c), hashes
-- what it copies (sha256.c), compares the hash with the trusted one, fills the system information
-- table and jumps to the kernel. The kernel's file system keeps its updates atomic by a redo log
-- (kernel/log.c); its processes talk through pipes (kernel/pipe.c), whose buffers are pages of the
-- allocator (kernel/kalloc.c), and shared state lies behind spin locks (kernel/spinlock.c). Above the
-- log, kernel/fs.c keeps blocks, inodes, directories and paths, with sleep locks (kernel/sleeplock.c)
-- on the inodes; below both, kernel/bio.c caches the blocks of the disk. The user types through
-- kernel/uart.c and the line discipline of kernel/console.c, where kernel/printf.c prints too. A
-- process sees memory through the page tables of kernel/vm.c, whose pages come from the allocator. User
-- programs share the strings of user/ulib.c and the output of user/printf.c; user/grep.c is one.
--
-- The files.
--   Common: the names the others share. Common/Memory: memory as a function from addresses to
--     bytes, and regions of it. Common/Cells: numbers of several bytes in it.
--     Common/Bits: one bit of a byte. Common/Ring: a ring buffer as the list of what it holds.
--     Common/Reverse: lists backwards and lists without repetition.
--     Common/Word: words of 8, 32 and 64 bits, by remainders.
--   Boot/Strings: bootloader/string.c, one definition per function and per loop.
--   Boot/Sha256: bootloader/sha256.c and sha256.h. Boot/Sha256/Block is `sha256_transform`,
--     Boot/Sha256/Padding the hash as a function of the whole message.
--   Boot/Elf: bootloader/elf.h and elf.c. Boot/Loader: bootloader/load.c and buf.h.
--   Boot/Start: bootloader/start.c; `measure_loop` is the loop of `is_secure_boot`, `load_loop` the
--     one of `start` and of `setup_recovery_kernel`.
--   Kernel/Outcome: how a kernel function ends. Kernel/Log: kernel/log.c, with what it sees of
--     kernel/bio.c.
--   Kernel/Pipe: kernel/pipe.c. Kernel/Pipe/Queue is the ring as a queue, Kernel/Pipe/Fifo a pipe
--     under any sequence of calls.
--   Kernel/Kalloc: kernel/kalloc.c. Kernel/Kalloc/Client is the allocator with its users.
--   Kernel/Spinlock: kernel/spinlock.c. Kernel/Spinlock/Mutex is one lock with the harts that use it.
--   Kernel/Console: kernel/console.c. Kernel/Console/Editor is the line editor it implements.
--   Kernel/Uart: kernel/uart.c, with its interrupt, which feeds the console.
--   Kernel/Sleeplock: kernel/sleeplock.c.
--   Kernel/Fs: kernel/fs.c. Its blocks are in Kernel/Fs, inodes and `bmap` in Kernel/Fs/Inode, `readi`
--     and `writei` in Kernel/Fs/Content, the table of inodes in Kernel/Fs/Table, directories in
--     Kernel/Fs/Dir and paths in Kernel/Fs/Path.
--   Kernel/File: kernel/file.c, the table of open files above pipes and inodes.
--   Kernel/Bio: kernel/bio.c. Kernel/Bio/Links is its list, Kernel/Bio/Sharing the cache with those who
--     use its buffers, Kernel/Bio/Saved which of them are as the disk, Kernel/Bio/Contents what the blocks hold.
--   Kernel/Printf: kernel/printf.c, with the digits of a number in Kernel/Printf/Digits.
--   User/Ulib: user/ulib.c. User/Printf: the numbers of user/printf.c.
--   User/Grep: the matcher of user/grep.c. User/Grep/Regex says what a pattern matches.
--   Kernel/Vm: `walk` and `mappages` of kernel/vm.c. Kernel/Vm/User has its functions on the memory of
--     a process, Kernel/Vm/Copy the copies to and from it. Kernel/Vm/Entry is about the bits of
--     an entry, Kernel/Vm/Map about a page that is mapped and unmapped.
--   Kernel/Proc: the table of processes of kernel/proc.c. Kernel/Proc/Exit has `exit` and `wait`.
--
-- How the code is modelled. A C function is a function on explicit state; a loop is a recursion on
-- the number of passes that are left, which the code computes before it starts. `strlen` and
-- `freerange` have no such number and take fuel; their theorems say how much is enough. A `panic`
-- and a sleep of the kernel are results. Machine integers are natural numbers with their wrap-around
-- written out. Addresses themselves are not wrapped: no modelled access goes past 2 ^ 64.
-- `sha256_ctx` is a field of the machine and not a region of memory, and of the stack only the local
-- buffer is in memory; so `IsClean` of Boot/Start/Regions, which the theorems on `start` ask for, keeps
-- the load address that an image states away from all that the bootloader occupies. The counter of
-- `sha256_update` is a word of 32 bits, and takes fuel, since it never reaches a length of 2 ^ 32 or
-- more. What the linker and the compiler choose is the record `Layout`.
--
-- The log runs above a buffer cache that is seen as the data `bread` returns for a block.
-- `power` is no variable of the code: it counts the writes that will still reach the disk, so
-- that a power failure at any write is a choice of that number. The code between `acquire` and
-- `release` is one step, since its lock excludes the others. One commit writes 62 blocks at
-- most, 30 to the log, 30 home and the header twice, and a recovery 31; these are the bounds of
-- the theorems. The log has as many blocks as `initlog` is told, its header included. A pipe runs from one `acquire` or wakeup to the next `release` or `sleep` in one
-- step; what `copyin` and `copyout` do is an argument.
--
-- The file system runs above a cache that is seen in the same way, as the bytes of each block, with
-- the list of the blocks given to `log_write`; there is one device. The pointers to entries of the
-- table of inodes are their numbers, and a reference count is 32 bits wide. The locked parts of a
-- function are one step. `readi` and `writei` move a byte at least in each pass, so as many passes
-- as bytes are enough; the loops over a directory have one for each entry. The loops over a path
-- take fuel, which the theorem on them bounds. What `either_copyin` and `either_copyout` do is an
-- argument, and so are the polls of the serial port.
--
-- A buffer of the cache is its place in the array, with the head of the list behind the last one, and
-- the links are functions on places. The walks of `bget` pass 30 buffers at most, as many as there
-- are. What Kernel/Log and Kernel/Fs see, the data of a block, is `Content` of Kernel/Bio/Contents.
-- Page tables are bytes of the memory of Kernel/Kalloc, as the code reads them. The loops of
-- kernel/vm.c have a pass for each page, and those of `copyin` and its kin one for each byte, which is
-- enough since each pass takes one; `freewalk` takes fuel for each level of tables.
--
-- A process is its place in the table of kernel/proc.c, and a pointer to its parent is that place or
-- none; the addresses of the entries, which processes sleep on, are an argument. A step is what lies
-- between `acquire` and `release` of a process, or of `wait_lock`. A user's table has three levels,
-- which is the fuel of `freewalk` there.
--
-- `printf`, the string functions and the matcher of grep run until a NUL and take fuel: for the
-- matcher and `atoi`, more than the strings have characters is enough.
--
-- Not modelled: the assembly of entry.S, disk and interrupt controllers; `kvmmake`; `fork`,
-- the files of a process, its saved registers and the switch between processes; system calls;
-- `fileread` and `filewrite` on pipes and devices; of the user programs, all that is a chain of
-- system calls, the shell and the allocator; mkfs; the unmodified upstream copy under
-- xv6-riscv/xv6-riscv-raw.
pub mod Common
pub mod Boot
pub mod Kernel
pub mod User
