-- ===== src/Boot/Start/Regions.antt =====
-- The regions of memory that start.c reads and writes while it loads and measures a kernel.
use aca_riscv_secure_boot.Common.{ℕ, ◌+◌, ◌-◌, ◌*◌, ◌/◌, ◌≡◌, ◌<◌, ◌≤◌, false, arith, ◌⊎◌}
use aca_riscv_secure_boot.Common.Memory.{Memory, Apart, within, read_bytes, read_bytes_ext}
use aca_riscv_secure_boot.Boot.Elf.{
  normal, disk_base, elf_header, find_kernel_load_addr, find_kernel_size,
}
use aca_riscv_secure_boot.Boot.Loader.{ok, kernel_copy}
use aca_riscv_secure_boot.Boot.Strings.{memmove}
use aca_riscv_secure_boot.Boot.Strings.Copy.{memmove-copied}
use aca_riscv_secure_boot.Boot.Start.{Layout, sys_info, load_block}

-- The whole blocks of the NORMAL image, and those of them that are loaded.
abbrev pub blocks : Memory → ℕ
blocks m = find_kernel_size normal m / 1024

abbrev pub text_size : Memory → ℕ
text_size m = (blocks m - 4) * 1024

-- The image, with the block that its last bytes stand in.
abbrev pub image_size : Memory → ℕ
image_size m = (blocks m + 1) * 1024

abbrev pub load_addr : Memory → ℕ
load_addr m = find_kernel_load_addr normal m

-- The image fits the ramdisk, holds its own headers, and shares no byte with what the bootloader
-- writes: the place of the text, the local buffer and the system information table. Nor do these
-- share one with the trusted hash, nor the place of the text with the other two. The place of the
-- text and the table share none with what the bootloader occupies, its code, data and stacks; the
-- buffer lies on a stack.
pub record IsClean (layout : Layout) (m : Memory) : Type 0 where
  pub few : blocks m < 2000
  pub headers :
      (elf_header m (disk_base normal)).phoff + (elf_header m (disk_base normal)).phentsize + 56
      ≤ image_size m
  pub text_image : Apart (load_addr m) (text_size m) (disk_base normal) (image_size m)
  pub frame_image : Apart layout.frame 1024 (disk_base normal) (image_size m)
  pub text_frame : Apart (load_addr m) (text_size m) layout.frame 1024
  pub text_trusted : Apart (load_addr m) (text_size m) layout.trusted_kernel_hash 32
  pub frame_trusted : Apart layout.frame 1024 layout.trusted_kernel_hash 32
  pub info_trusted : Apart sys_info 96 layout.trusted_kernel_hash 32
  pub info_text : Apart sys_info 96 (load_addr m) (text_size m)
  pub text_loader : Apart (load_addr m) (text_size m) layout.entry layout.loader_size
  pub info_loader : Apart sys_info 96 layout.entry layout.loader_size
  pub frame_loader :
      (layout.entry ≤ layout.frame) × (layout.frame + 1024 ≤ layout.entry + layout.loader_size)

-- `m` is `m0` outside the buffer and the place of the text, and the first `n` bytes of the text
-- have been loaded.
pub record Loaded (layout : Layout) (m0 : Memory) (n : ℕ) (m : Memory) : Type 0 where
  pub same :
      (x : ℕ)
      → within layout.frame 1024 x ≡ false
      → within (load_addr m0) (text_size m0) x ≡ false
      → m x ≡ m0 x
  pub filled : (j : ℕ) → j < n → m (load_addr m0 + j) ≡ m0 (disk_base normal + 4096 + j)

pub kernel_copy-ok :
    (frame i : ℕ) (m : Memory)
    → i < 2000
    → kernel_copy normal (record { valid = 0; blockno = i; data_addr = frame }) m
      ≡ ok (
        record { valid = 1; blockno = i; data_addr = frame },
        memmove frame (disk_base normal + i * 1024) 1024 m,
      )
unfolding kernel_copy
kernel_copy-ok frame i m h = ground arith

module _ {layout : Layout} {m0 : Memory} (clean : IsClean layout m0) where
  open layout use {frame}

  -- The image is read as it was at the start.
  pub image_same :
      {n : ℕ} {m : Memory}
      → Loaded layout m0 n m
      → (x : ℕ) → x < image_size m0
      → m (disk_base normal + x) ≡ m0 (disk_base normal + x)
  image_same loaded x h =
      loaded.same (disk_base normal + x) (ground (arith, clean.frame_image))
        (ground (arith, clean.text_image))

  -- The buffer holds block `i` of the image once that has been copied there, and nothing else
  -- changes.
  abbrev pub copied_block : ℕ → Memory → Memory
  copied_block i m = memmove frame (disk_base normal + i * 1024) 1024 m

  pub copied_block-frame :
      {n : ℕ} {m : Memory} (i : ℕ)
      → Loaded layout m0 n m
      → i < blocks m0 + 1
      → (j : ℕ) → j < 1024
      → copied_block i m (frame + j) ≡ m0 (disk_base normal + (i * 1024 + j))
  copied_block-frame {m} i loaded h j l = ground (
    arith,
    memmove-copied frame (disk_base normal + i * 1024) 1024 m (frame + j),
    image_same loaded (i * 1024 + j),
  )

  pub copied_block-Loaded :
      {n : ℕ} {m : Memory} (i : ℕ)
      → Loaded layout m0 n m
      → n ≤ text_size m0
      → Loaded layout m0 n (copied_block i m)
  copied_block-Loaded {n} {m} i loaded h = record {
    same = λ x p q.
        ground
          (arith, memmove-copied frame (disk_base normal + i * 1024) 1024 m x, loaded.same x p q);
    filled = λ j l. ground (
      arith,
      memmove-copied frame (disk_base normal + i * 1024) 1024 m (load_addr m0 + j),
      loaded.filled j l,
      clean.text_frame,
    );
  }

  -- Block `i` of the image in the buffer and at its place in the text.
  pub placed_block : ℕ → Memory → Memory
  placed_block i m = memmove (load_addr m0 + (i - 4) * 1024) frame 1024 (copied_block i m)

  pub placed_block-Loaded :
      {n k : ℕ} {m : Memory} (i : ℕ)
      → Loaded layout m0 n m
      → n ≤ text_size m0
      → 4 ≤ i
      → i < blocks m0
      → (k ≤ n) ⊎ ((k ≤ (i - 4) * 1024 + 1024) × ((i - 4) * 1024 ≤ n))
      → Loaded layout m0 k (placed_block i m)
  unfolding placed_block
  placed_block-Loaded {n} {k} {m} i loaded h four few grows = record {
    same = λ x p q. ground (
      arith,
      memmove-copied (load_addr m0 + (i - 4) * 1024) frame 1024 (copied_block i m) x,
      (copied_block-Loaded i loaded h).same x p q,
    );
    filled = λ j l. ground (
      arith,
      memmove-copied (load_addr m0 + (i - 4) * 1024) frame 1024 (copied_block i m)
          (load_addr m0 + j),
      (copied_block-Loaded i loaded h).filled j,
      copied_block-frame i loaded (omega arith) (j - (i - 4) * 1024),
    );
  }

  pub placed_block-frame :
      {n : ℕ} {m : Memory} (i : ℕ)
      → Loaded layout m0 n m
      → 4 ≤ i
      → i < blocks m0
      → (j : ℕ) → j < 1024
      → placed_block i m (frame + j) ≡ m0 (disk_base normal + (i * 1024 + j))
  unfolding placed_block
  placed_block-frame {m} i loaded four few j l = ground (
    arith,
    memmove-copied (load_addr m0 + (i - 4) * 1024) frame 1024 (copied_block i m) (frame + j),
    copied_block-frame i loaded (omega arith) j l,
    clean.text_frame,
  )

  pub load_block-ok :
      (i : ℕ) (m : Memory)
      → i < blocks m0
      → load_block layout normal (load_addr m0) i m ≡ ok (placed_block i m)
  unfolding load_block placed_block
  load_block-ok i m h = rw (kernel_copy-ok frame i m (omega (arith, clean.few)))

  -- Reading the buffer when it holds the beginning of block `i`.
  pub read_frame :
      (m : Memory) (i k : ℕ)
      → k ≤ 1024
      → ((j : ℕ) → j < 1024 → m (frame + j) ≡ m0 (disk_base normal + (i * 1024 + j)))
      → read_bytes m frame k ≡ read_bytes m0 (disk_base normal + i * 1024) k
  read_frame m i k h holds =
      read_bytes_ext m m0 frame (disk_base normal + i * 1024) k (λ j l. ground (arith, holds j))
