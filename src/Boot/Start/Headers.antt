-- ===== src/Boot/Start/Headers.antt =====
-- The headers of the NORMAL image depend on the image alone.
use aca_riscv_secure_boot.Common.{ℕ, ◌+◌, ◌≡◌, ◌<◌, ◌≤◌, arith}
use aca_riscv_secure_boot.Common.Cells.{read_le_ext}
use aca_riscv_secure_boot.Common.Memory.{Memory}
use aca_riscv_secure_boot.Common.Word.{u64}
use aca_riscv_secure_boot.Boot.Elf.{
  normal, disk_base, read_le, elf_header, find_kernel_size, find_kernel_load_addr,
  find_kernel_entry_addr,
}
use aca_riscv_secure_boot.Boot.Start.{Layout}
use aca_riscv_secure_boot.Boot.Start.Regions.{IsClean, image_size, load_addr}

module _ {layout : Layout} {m0 : Memory} (clean : IsClean layout m0) (m : Memory)
    (same : (x : ℕ)
      → x < image_size m0
      → m (disk_base normal + x) ≡ m0 (disk_base normal + x)) where
  -- A field at offset `o` of the image.
  field_same :
      (o n : ℕ)
      → o + n ≤ image_size m0
      → read_le m (disk_base normal + o) n ≡ read_le m0 (disk_base normal + o) n
  field_same o n h = read_le_ext m m0 (disk_base normal + o) n (λ i l. ground (arith, same (o + i)))

  pub size_same : find_kernel_size normal m ≡ find_kernel_size normal m0
  unfolding find_kernel_size
  size_same =
      rw (
        field_same 40 8 (omega arith),
        field_same 58 2 (omega arith),
        field_same 60 2 (omega arith),
      )

  pub entry_same : find_kernel_entry_addr normal m ≡ find_kernel_entry_addr normal m0
  unfolding find_kernel_entry_addr
  entry_same = field_same 24 8 (omega arith)

  pub load_addr_same : load_addr m ≡ load_addr m0
  unfolding find_kernel_load_addr
  load_addr_same =
      rw (field_same 32 8 (omega arith), field_same 54 2 (omega arith), at_text)
        (field_same (offset + 16) 8 (omega (arith, clean.headers)))
    where
      offset : ℕ
      offset =
          (elf_header m0 (disk_base normal)).phoff + (elf_header m0 (disk_base normal)).phentsize

      at_text :
          u64 (
              disk_base normal
              + (elf_header m0 (disk_base normal)).phoff
              + (elf_header m0 (disk_base normal)).phentsize)
            + 16
          ≡ disk_base normal + (offset + 16)
      at_text = omega (arith, clean.headers, clean.few)

  pub same-IsClean : IsClean layout m
  same-IsClean = record {
    few = rw size_same clean.few;
    headers =
        rw (size_same, field_same 32 8 (omega arith), field_same 54 2 (omega arith)) clean.headers;
    text_image = rw (size_same, load_addr_same) clean.text_image;
    frame_image = rw size_same clean.frame_image;
    text_frame = rw (size_same, load_addr_same) clean.text_frame;
    text_trusted = rw (size_same, load_addr_same) clean.text_trusted;
    frame_trusted = clean.frame_trusted;
    info_trusted = clean.info_trusted;
    info_text = rw (size_same, load_addr_same) clean.info_text;
    text_loader = rw (size_same, load_addr_same) clean.text_loader;
    info_loader = clean.info_loader;
    frame_loader = clean.frame_loader;
  }
