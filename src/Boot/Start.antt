-- ===== src/Boot/Start.antt =====
-- xv6-riscv/bootloader/start.c: measures the NORMAL kernel while loading it, and jumps to it only
-- if the measurement is the trusted one.
pub mod TooBig
pub mod Jump
pub mod Info
pub mod Headers
pub mod Secure
pub mod Measure
pub mod Regions
use aca_riscv_secure_boot.Common.{
  ℕ, Option, zero, suc, ◌+◌, ◌-◌, ◌*◌, ◌/◌, ◌%◌, Bool, true, false, List, [], ◌∷◌, ltb, not,
  if◌then◌else◌, none, some,
}
use aca_riscv_secure_boot.Common.Int.{is_zero}
use aca_riscv_secure_boot.Common.Cells.{store_64}
use aca_riscv_secure_boot.Common.Memory.{Memory, read_bytes, write_bytes}
use aca_riscv_secure_boot.Common.Word.{u32, u64}
use aca_riscv_secure_boot.Boot.Elf.{
  Kernel, normal, recovery, sign_extend, find_kernel_load_addr, find_kernel_size,
  find_kernel_entry_addr, read_le,
}
use aca_riscv_secure_boot.Boot.Loader.{Run, ok, panic, ◌>>=◌, Buf, block_size, fs_size, kernel_copy}
use aca_riscv_secure_boot.Boot.Sha256
use aca_riscv_secure_boot.Boot.Strings.{memmove, memcpy, memcmp}

-- Memory, `sha256_ctx`, and the registers that the bootloader writes. `sha256_ctx` is a global of
-- the bootloader that start.c reaches by its name alone. It stands beside the memory, as the code does:
-- so this is the machine as long as no store through an address of a kernel's headers goes into what
-- the bootloader occupies, which `IsClean` of Boot/Start/Regions says.
pub record Machine : Type 0 where
  pub memory : Memory
  pub sha_256_ctx : Sha256.Context
  pub mepc : ℕ
  pub tp : ℕ
  pub ra : ℕ

-- Where the linker and the compiler put what start.c names by address.
pub record Layout : Type 0 where
  pub frame : ℕ  -- `b.data` of the local `struct buf b`
  pub trusted_kernel_hash : ℕ
  pub entry : ℕ  -- `_entry`
  pub end : ℕ
  pub panic_addr : ℕ  -- the function `panic`
  pub loader_size : ℕ  -- the bytes from `_entry` on: code, data with `sha256_ctx`, and stacks

-- `sys_info_ptr`, and the fields of `struct sys_info` behind it
abbrev pub sys_info : ℕ
sys_info = 0x80080000

abbrev pub bl_start : ℕ
bl_start = sys_info

abbrev pub bl_end : ℕ
bl_end = sys_info + 8

abbrev pub dr_start : ℕ
dr_start = sys_info + 16

abbrev pub dr_end : ℕ
dr_end = sys_info + 24

abbrev pub expected_kernel_measurement : ℕ
expected_kernel_measurement = sys_info + 32

abbrev pub observed_kernel_measurement : ℕ
observed_kernel_measurement = sys_info + 64

-- `PHYSTOP` of layout.h
abbrev pub phys_stop : ℕ
phys_stop = 0x80000000 + 128 * 1024 * 1024

-- How `start` ends: it returns to entry.S, or jumps to an address.
pub data Exit : Type 0 where
  returned : Exit
  jumped : ℕ → Exit

-- The machine after a call of `sha256_update`. One that does not end loops for ever as `panic` does.
abbrev pub measure_end : Machine → Option Sha256.Context → Run Machine
measure_end s none = panic
measure_end s (some ctx) = ok (record s { sha_256_ctx = ctx })

module _ (layout : Layout) where
  open layout use {frame, trusted_kernel_hash, entry, end, panic_addr}

  -- The local `b` with a block number.
  abbrev block : ℕ → Buf
  block n = record { valid = 0; blockno = n; data_addr = frame }

  -- Copies block `i` of a kernel to `b.data`, and from there to its place in the text, which
  -- begins with block 4.
  pub load_block : Kernel → ℕ → ℕ → Memory → Run Memory
  load_block ktype load_addr i m = do
    (_, copied) ← kernel_copy ktype (block i) m
    ok (memmove (load_addr + (i - 4) * block_size) frame block_size copied)

  -- One pass of the loop of `setup_recovery_kernel`, and of that of `start`.
  pub load_unless_header : Kernel → ℕ → ℕ → Memory → Run Memory
  unfolding load_block
  load_unless_header ktype load_addr i m = if ltb i 4 then ok m else load_block ktype load_addr i m

  -- `n` passes from block `i` on.
  pub load_loop : Kernel → ℕ → ℕ → ℕ → Memory → Run Memory
  unfolding load_unless_header
  load_loop ktype load_addr zero i m = ok m
  load_loop ktype load_addr (suc n) i m = do
    m' ← load_unless_header ktype load_addr i m
    load_loop ktype load_addr n (i + 1) m'

  pub setup_recovery_kernel : Machine → Run Machine
  setup_recovery_kernel s = do
    let rec_kernel_load_addr = find_kernel_load_addr recovery s.memory
    let rec_kernel_binary_size = find_kernel_size recovery s.memory
    let rec_num_blocks = rec_kernel_binary_size / block_size
    m ← load_loop recovery rec_kernel_load_addr rec_num_blocks 0 s.memory
    let rec_kernel_entry = find_kernel_entry_addr recovery m
    ok (record s { memory = m; mepc = rec_kernel_entry })

  -- `sha256_update(&sha256_ctx, b.data, n)`
  pub measure : ℕ → Machine → Run Machine
  measure n s = measure_end s (Sha256.update s.sha_256_ctx (read_bytes s.memory frame n))

  -- One pass of the loop of `is_secure_boot`: the first four blocks are hashed, the others are
  -- loaded and hashed.
  pub measure_block : ℕ → ℕ → Machine → Run Machine
  unfolding measure load_block
  measure_block load_addr i s =
      if ltb i 4
      then (do
        (_, copied) ← kernel_copy normal (block i) s.memory
        measure block_size (record s { memory = copied }))
      else (do
        m ← load_block normal load_addr i s.memory
        measure block_size (record s { memory = m }))

  -- `n` passes from block `i` on.
  pub measure_loop : ℕ → ℕ → ℕ → Machine → Run Machine
  unfolding measure_block
  measure_loop load_addr zero i s = ok s
  measure_loop load_addr (suc n) i s = do
    s' ← measure_block load_addr i s
    measure_loop load_addr n (i + 1) s'

  -- The end of `is_secure_boot`: finishes the hash, and compares it with the trusted one.
  pub verify : Machine → Bool × Machine
  verify s =
      let (ctx, hash) = Sha256.final s.sha_256_ctx in
      let observed = write_bytes s.memory observed_kernel_measurement hash in
      let m = memcpy expected_kernel_measurement trusted_kernel_hash 32 observed in
      let verification =
        is_zero (memcmp observed_kernel_measurement expected_kernel_measurement 32 m) in
      (verification, record s { memory = m; sha_256_ctx = ctx })

  pub is_secure_boot : Machine → Run (Bool × Machine)
  is_secure_boot s = do
    let begun = record s { sha_256_ctx = Sha256.init s.sha_256_ctx }
    let kernel_load_addr = find_kernel_load_addr normal s.memory
    let kernel_binary_size = find_kernel_size normal s.memory
    let num_blocks = kernel_binary_size / block_size
    s' ← measure_loop kernel_load_addr num_blocks 0 begun
    let rem_size = kernel_binary_size - block_size * num_blocks
    (_, copied) ← kernel_copy normal (block (u32 num_blocks)) s'.memory
    measured ← measure rem_size (record s' { memory = copied })
    ok (verify measured)

  -- The stores to the system information table. `end` is declared as a `uint64`, so its cast
  -- reads the eight bytes that stand there.
  pub provide_info : Memory → Memory
  provide_info m =
      let m1 = store_64 bl_start entry m in
      let m2 = store_64 bl_end (read_le m1 end 8) m1 in
      let m3 = store_64 dr_start 0x80000000 m2 in store_64 dr_end phys_stop m3

  -- `start` on the hart `hartid`. The second load takes as many blocks as `FSSIZE` goes into the
  -- size, and the entry point is read again before the jump.
  pub start : ℕ → Machine → Run (Exit × Machine)
  start hartid s = do
    let started = record s { tp = sign_extend hartid }
    (secure, checked) ← is_secure_boot started
    if not secure then ok (returned, checked) else (do
      let kernel_load_addr = find_kernel_load_addr normal checked.memory
      let kernel_binary_size = find_kernel_size normal checked.memory
      let num_blocks = kernel_binary_size / fs_size
      m ← load_loop normal kernel_load_addr num_blocks 0 checked.memory
      let kernel_entry = find_kernel_entry_addr normal m
      let m' = provide_info m
      let final = record checked { memory = m'; mepc = kernel_entry; ra = panic_addr }
      ok (jumped (find_kernel_entry_addr normal m'), final))
