-- ===== src/Boot/Examples.antt =====
-- Tests of the bootloader's functions, and its theorems at concrete machines.
use aca_riscv_secure_boot.Common.{
  ℕ, ◌+◌, ◌^◌, ◌≤◌, length, none, some, ◌≡◌, ◌≢◌, ◌⊎◌, refl, Bool, List, [], ◌∷◌, arith, replicate,
  ◌==◌, if◌then◌else◌,
}
use aca_riscv_secure_boot.Common.Memory.{Memory, store}
use aca_riscv_secure_boot.Boot.Elf.{
  normal, read_le, find_kernel_size, find_kernel_load_addr, find_kernel_entry_addr,
}
use aca_riscv_secure_boot.Boot.Loader.{ok}
use aca_riscv_secure_boot.Boot.Sha256.{Context, init, final, update_loop}
use aca_riscv_secure_boot.Boot.Sha256.Padding.{sha_256}
use aca_riscv_secure_boot.Boot.Sha256.Digest.{update_all, concat, final-update_all}
use aca_riscv_secure_boot.Boot.Start.{
  Layout, Machine, Exit, start, is_secure_boot, provide_info, bl_start, bl_end, dr_start, dr_end,
  phys_stop,
}
use aca_riscv_secure_boot.Boot.Start.Regions.{IsClean}
use aca_riscv_secure_boot.Boot.Start.Secure.{image, trusted, Verified, is_secure_boot-Verified}
use aca_riscv_secure_boot.Boot.Start.Info.{provide_info-fields}
use aca_riscv_secure_boot.Boot.Start.Jump.{Booted, Refused, start-decides}
use aca_riscv_secure_boot.Boot.Strings.{memmove}
use aca_riscv_secure_boot.Boot.Strings.Copy.{copied, memmove-copied}

-- "abc" at 100, "abd" at 200, each with its NUL.
abbrev texts : Memory
texts x =
    if x == 100
    then 0x61
    else if x == 101
    then 0x62
    else if x == 102
    then 0x63
    else if x == 200
    then 0x61
    else if x == 201
    then 0x62
    else if x == 202
    then 0x64
    else 0

memmove-copied_example : memmove 101 100 3 texts 102 ≡ copied 101 100 3 texts 102
memmove-copied_example = memmove-copied 101 100 3 texts 102

-- A context with a used buffer.
abbrev used : Context
used = record {
  data_buf = replicate 64 7;
  datalen = 9;
  bitlen = 1;
  state = record { a = 1; b = 2; c = 3; d = 4; e = 5; f = 6; g = 7; h = 8 };
}

abbrev pieces : List (List ℕ)
pieces = (0x61 ∷ []) ∷ [] ∷ (0x62 ∷ 0x63 ∷ []) ∷ []

final-update_all_example :
    ((ctx : Context) × (update_all (init used) pieces ≡ some ctx)
      × ((final ctx).1 ≡ sha_256 (concat pieces)))
    × ((fuel : ℕ) (data_ : List ℕ)
        → 2 ^ 32 ≤ length data_
        → update_loop fuel 0 data_ (init used) ≡ none)
final-update_all_example = final-update_all used pieces refl (omega arith) (omega arith)

-- An image of five blocks: its section headers begin at 5120 and are empty, its second program
-- header stands at 120 and asks for 0x80200000.
abbrev ramdisk : Memory
ramdisk x =
    if x == 0x84000000 + 25
    then 0x12
    else if x == 0x84000000 + 32
    then 64
    else if x == 0x84000000 + 41
    then 20
    else if x == 0x84000000 + 54
    then 56
    else if x == 0x84000000 + 58
    then 64
    else if x == 0x84000000 + 138
    then 0x20
    else if x == 0x84000000 + 139
    then 0x80
    else 0

abbrev layout : Layout
layout = record {
  frame = 0x80006000;
  trusted_kernel_hash = 0x80001000;
  entry = 0x80000000;
  end = 0x80002000;
  panic_addr = 0x80000100;
  loader_size = 0x9000;
}

abbrev machine : Machine
machine = record { memory = ramdisk; sha_256_ctx = used; mepc = 0; tp = 0; ra = 0 }

headers_read :
    (find_kernel_size normal ramdisk ≡ 5120)
    × (find_kernel_load_addr normal ramdisk ≡ 0x80200000)
    × (find_kernel_entry_addr normal ramdisk ≡ 0x1200)
unfolding find_kernel_size find_kernel_load_addr find_kernel_entry_addr read_le
headers_read = (refl, refl, refl)

phoff_read : read_le ramdisk (0x84000000 + 32) 8 ≡ 64
unfolding read_le
phoff_read = refl

phentsize_read : read_le ramdisk (0x84000000 + 54) 2 ≡ 56
unfolding read_le
phentsize_read = refl

ramdisk-IsClean : IsClean layout ramdisk
ramdisk-IsClean = record {
  few = omega (arith, headers_read.0);
  headers = omega (arith, headers_read.0, phoff_read, phentsize_read);
  text_image = omega (arith, headers_read.0, headers_read.1);
  frame_image = omega (arith, headers_read.0);
  text_frame = omega (arith, headers_read.0, headers_read.1);
  text_trusted = omega (arith, headers_read.0, headers_read.1);
  frame_trusted = omega arith;
  info_trusted = omega arith;
  info_text = omega (arith, headers_read.0, headers_read.1);
  text_loader = omega (arith, headers_read.0, headers_read.1);
  info_loader = omega arith;
  frame_loader = (omega arith, omega arith);
}

is_secure_boot-Verified_example :
    (r : Bool × Machine) × (is_secure_boot layout machine ≡ ok r) × Verified layout machine r
is_secure_boot-Verified_example = is_secure_boot-Verified layout machine ramdisk-IsClean refl

start-decides_example :
    (r : Exit × Machine) × (start layout 0 machine ≡ ok r)
    × (((sha_256 (image ramdisk) ≡ trusted layout ramdisk) × Booted layout 0 machine r)
        ⊎ ((sha_256 (image ramdisk) ≢ trusted layout ramdisk) × Refused layout 0 machine r))
start-decides_example = start-decides layout 0 machine ramdisk-IsClean refl

-- The same image with section headers at 0x200000 bytes.
abbrev huge : Machine
huge = record machine { memory = store ramdisk (0x84000000 + 42) 0x20 }

end_value : read_le ramdisk layout.end 8 ≡ 0
unfolding read_le
end_value = refl

provide_info-fields_example :
    (read_le (provide_info layout ramdisk) bl_start 8 ≡ 0x80000000)
    × (read_le (provide_info layout ramdisk) bl_end 8 ≡ read_le ramdisk 0x80002000 8)
    × (read_le (provide_info layout ramdisk) dr_start 8 ≡ 0x80000000)
    × (read_le (provide_info layout ramdisk) dr_end 8 ≡ phys_stop)
provide_info-fields_example =
    provide_info-fields layout ramdisk (omega arith) (omega arith) (omega (arith, end_value))
