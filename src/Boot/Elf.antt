-- ===== src/Boot/Elf.antt =====
-- xv6-riscv/bootloader/elf.h and elf.c: the headers of a kernel image, read from memory. The two
-- global pointers of elf.c are set before each use, so they are local here.
use aca_riscv_secure_boot.Common.{ℕ, ◌+◌, ◌-◌, ◌*◌, ◌^◌, ltb, if◌then◌else◌}
use aca_riscv_secure_boot.Common.Memory.{Memory}
unfoldable pub use aca_riscv_secure_boot.Common.Cells.{read_le}
use aca_riscv_secure_boot.Common.Word.{u32, u64}

-- `enum kernel` of defs.h
pub data Kernel : Type 0 where
  normal recovery : Kernel

-- `RAMDISK` and `RECOVERYDISK`
abbrev pub disk_base : Kernel → ℕ
disk_base normal = 0x84000000
disk_base recovery = 0x84500000

pub record ElfHeader : Type 0 where
  pub magic : ℕ
  pub type : ℕ
  pub machine : ℕ
  pub version : ℕ
  pub entry : ℕ
  pub phoff : ℕ
  pub shoff : ℕ
  pub flags : ℕ
  pub ehsize : ℕ
  pub phentsize : ℕ
  pub phnum : ℕ
  pub shentsize : ℕ
  pub shnum : ℕ
  pub shstrndx : ℕ

-- `struct elfhdr` at an address; the twelve bytes `elf` are never read.
abbrev pub elf_header : Memory → ℕ → ElfHeader
elf_header m a = record {
  magic = read_le m a 4;
  type = read_le m (a + 16) 2;
  machine = read_le m (a + 18) 2;
  version = read_le m (a + 20) 4;
  entry = read_le m (a + 24) 8;
  phoff = read_le m (a + 32) 8;
  shoff = read_le m (a + 40) 8;
  flags = read_le m (a + 48) 4;
  ehsize = read_le m (a + 52) 2;
  phentsize = read_le m (a + 54) 2;
  phnum = read_le m (a + 56) 2;
  shentsize = read_le m (a + 58) 2;
  shnum = read_le m (a + 60) 2;
  shstrndx = read_le m (a + 62) 2;
}

pub record ProgramHeader : Type 0 where
  pub type : ℕ
  pub flags : ℕ
  pub off : ℕ
  pub vaddr : ℕ
  pub paddr : ℕ
  pub filesz : ℕ
  pub memsz : ℕ
  pub align : ℕ

-- `struct proghdr` at an address
abbrev pub program_header : Memory → ℕ → ProgramHeader
program_header m a = record {
  type = read_le m a 4;
  flags = read_le m (a + 4) 4;
  off = read_le m (a + 8) 8;
  vaddr = read_le m (a + 16) 8;
  paddr = read_le m (a + 24) 8;
  filesz = read_le m (a + 32) 8;
  memsz = read_le m (a + 40) 8;
  align = read_le m (a + 48) 8;
}

-- An `int` that becomes a `uint64`.
abbrev pub sign_extend : ℕ → ℕ
sign_extend x = let w = u32 x in if ltb w (2 ^ 31) then w else w + (2 ^ 64 - 2 ^ 32)

-- The second program header is that of the text.
unfoldable pub find_kernel_load_addr : Kernel → Memory → ℕ
find_kernel_load_addr ktype m =
    let header = elf_header m (disk_base ktype) in
    let text = program_header m (u64 (disk_base ktype + header.phoff + header.phentsize)) in
    text.vaddr

-- The product of the two `ushort` fields is an `int`.
unfoldable pub find_kernel_size : Kernel → Memory → ℕ
find_kernel_size ktype m =
    let header = elf_header m (disk_base ktype) in
    let size_of_section_headers = sign_extend (header.shentsize * header.shnum) in
    u64 (header.shoff + size_of_section_headers)

unfoldable pub find_kernel_entry_addr : Kernel → Memory → ℕ
find_kernel_entry_addr ktype m = let header = elf_header m (disk_base ktype) in header.entry
