-- ===== src/Boot/Start/Info.antt =====
-- The system information table that `start` of xv6-riscv/bootloader/start.c fills.
use aca_riscv_secure_boot.Common.{ℕ, ◌^◌, ◌≡◌, ◌<◌, false, arith, ◌∙◌}
use aca_riscv_secure_boot.Common.Cells.{store_64, store_64-outside, store_64-read, read_le-store_64}
use aca_riscv_secure_boot.Common.Memory.{Memory, Apart, within}
use aca_riscv_secure_boot.Boot.Elf.{read_le}
use aca_riscv_secure_boot.Boot.Start.{
  Layout, provide_info, bl_start, bl_end, dr_start, dr_end, sys_info, phys_stop,
}

module _ (layout : Layout) (m : Memory) where
  -- `start` writes the first 32 bytes of the table, and nothing else.
  pub provide_info-same : (x : ℕ) → within sys_info 32 x ≡ false → provide_info layout m x ≡ m x
  unfolding provide_info
  provide_info-same x h =
      let m1 = store_64 bl_start layout.entry m in
      let m2 = store_64 bl_end (read_le m1 layout.end 8) m1 in
      let m3 = store_64 dr_start 0x80000000 m2 in
      ground (
        arith,
        store_64-outside dr_end phys_stop m3 x,
        store_64-outside dr_start 0x80000000 m2 x,
        store_64-outside bl_end (read_le m1 layout.end 8) m1 x,
        store_64-outside bl_start layout.entry m x,
      )

  -- The table tells where the bootloader begins and which memory there is. The end of the
  -- bootloader is what the eight bytes at `end` hold, and not the address of `end`.
  pub provide_info-fields :
      layout.entry < 2 ^ 64
      → Apart sys_info 8 layout.end 8
      → read_le m layout.end 8 < 2 ^ 64
      → (read_le (provide_info layout m) bl_start 8 ≡ layout.entry)
        × (read_le (provide_info layout m) bl_end 8 ≡ read_le m layout.end 8)
        × (read_le (provide_info layout m) dr_start 8 ≡ 0x80000000)
        × (read_le (provide_info layout m) dr_end 8 ≡ phys_stop)
  unfolding provide_info
  provide_info-fields h apart small =
      let m1 = store_64 bl_start layout.entry m in
      let end_value = read_le m1 layout.end 8 in
      let m2 = store_64 bl_end end_value m1 in
      let m3 = store_64 dr_start 0x80000000 m2 in
      let kept : end_value ≡ read_le m layout.end 8 =
        read_le-store_64 layout.end bl_start layout.entry m (omega arith) in
      (
        read_le-store_64 bl_start dr_end phys_stop m3 (omega arith)
            ∙ read_le-store_64 bl_start dr_start 0x80000000 m2 (omega arith)
            ∙ read_le-store_64 bl_start bl_end end_value m1 (omega arith)
            ∙ store_64-read bl_start layout.entry m h,
        read_le-store_64 bl_end dr_end phys_stop m3 (omega arith)
            ∙ read_le-store_64 bl_end dr_start 0x80000000 m2 (omega arith)
            ∙ store_64-read bl_end end_value m1 (omega (arith, kept))
            ∙ kept,
        read_le-store_64 dr_start dr_end phys_stop m3 (omega arith)
            ∙ store_64-read dr_start 0x80000000 m2 (omega arith),
        store_64-read dr_end phys_stop m3 (omega arith),
      )
