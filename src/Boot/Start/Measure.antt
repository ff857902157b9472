-- ===== src/Boot/Start/Measure.antt =====
-- The measuring loop of `is_secure_boot` in xv6-riscv/bootloader/start.c.
use aca_riscv_secure_boot.Common.{
  ℕ, zero, suc, ◌+◌, ◌-◌, ◌*◌, ◌≡◌, ◌<◌, ◌≤◌, refl, arith, inl, inr, sym, ltb, Bool-cases, ltb→lt,
  ltb→le,
}
use aca_riscv_secure_boot.Common.Memory.{Memory, read_bytes, read_bytes_add, length-read_bytes}
use aca_riscv_secure_boot.Boot.Elf.{normal, disk_base}
use aca_riscv_secure_boot.Boot.Loader.{ok}
use aca_riscv_secure_boot.Boot.Sha256
use aca_riscv_secure_boot.Boot.Sha256.Update.{update-absorb_all}
use aca_riscv_secure_boot.Common.{◌^◌, ap}
use aca_riscv_secure_boot.Boot.Sha256.Stream.{absorb_all-append}
use aca_riscv_secure_boot.Boot.Start.{
  Layout, Machine, measure_end, measure, measure_block, measure_loop,
}
use aca_riscv_secure_boot.Boot.Start.Regions.{
  IsClean, Loaded, blocks, load_addr, copied_block, copied_block-frame, copied_block-Loaded,
  placed_block, placed_block-frame, placed_block-Loaded, load_block-ok, kernel_copy-ok, read_frame,
}

-- `i` blocks of the image of `s0` have been hashed, and those behind the first four loaded.
pub record Measured (layout : Layout) (s0 : Machine) (i : ℕ) (s : Machine) : Type 0 where
  pub loaded : Loaded layout s0.memory ((i - 4) * 1024) s.memory
  pub hashed :
      s.sha_256_ctx
      ≡ Sha256.absorb_all s0.sha_256_ctx (read_bytes s0.memory (disk_base normal) (i * 1024))
  pub mepc : s.mepc ≡ s0.mepc
  pub tp : s.tp ≡ s0.tp
  pub ra : s.ra ≡ s0.ra

-- The machine after `measure` of less than 2 ^ 32 bytes.
abbrev pub measured : Layout → ℕ → Machine → Machine
measured layout n s = record s {
  sha_256_ctx = Sha256.absorb_all s.sha_256_ctx (read_bytes s.memory layout.frame n);
}

pub measure-ok :
    (layout : Layout) (n : ℕ) (s : Machine)
    → n < 2 ^ 32
    → measure layout n s ≡ ok (measured layout n s)
unfolding measure
measure-ok layout n s h = ap (measure_end s) (
    update-absorb_all s.sha_256_ctx (read_bytes s.memory layout.frame n)
      (omega (arith, h, length-read_bytes s.memory layout.frame n)))

module _ {layout : Layout} (s0 : Machine) (clean : IsClean layout s0.memory) where
  open layout use {frame}

  -- Hashing `k` bytes of the buffer, which holds block `i`, extends the hash by those of the image.
  pub hashed_next :
      (i k : ℕ) (ctx : Sha256.Context) (m : Memory)
      → ctx ≡ Sha256.absorb_all s0.sha_256_ctx (read_bytes s0.memory (disk_base normal) (i * 1024))
      → k ≤ 1024
      → ((j : ℕ) → j < 1024 → m (frame + j) ≡ s0.memory (disk_base normal + (i * 1024 + j)))
      → Sha256.absorb_all ctx (read_bytes m frame k)
        ≡ Sha256.absorb_all s0.sha_256_ctx (read_bytes s0.memory (disk_base normal) (i * 1024 + k))
  hashed_next i k ctx m e h holds =
      rw
        (
          read_frame clean m i k h holds,
          e,
          read_bytes_add s0.memory (disk_base normal) (i * 1024) k,
        )
        (sym (
          absorb_all-append s0.sha_256_ctx (read_bytes s0.memory (disk_base normal) (i * 1024))
            (read_bytes s0.memory (disk_base normal + i * 1024) k)))

  hashed_block :
      (i : ℕ) (ctx : Sha256.Context) (m : Memory)
      → ctx ≡ Sha256.absorb_all s0.sha_256_ctx (read_bytes s0.memory (disk_base normal) (i * 1024))
      → ((j : ℕ) → j < 1024 → m (frame + j) ≡ s0.memory (disk_base normal + (i * 1024 + j)))
      → Sha256.absorb_all ctx (read_bytes m frame 1024)
        ≡ Sha256.absorb_all s0.sha_256_ctx
            (read_bytes s0.memory (disk_base normal) ((i + 1) * 1024))
  hashed_block i ctx m e holds =
      let p : (i + 1) * 1024 ≡ i * 1024 + 1024 = omega arith in
      rw p (hashed_next i 1024 ctx m e (omega arith) holds)

  -- One pass measures one block more.
  measure_block-Measured :
      (i : ℕ) (s : Machine)
      → Measured layout s0 i s
      → i < blocks s0.memory
      → (s' : Machine) × (measure_block layout (load_addr s0.memory) i s ≡ ok s')
        × Measured layout s0 (i + 1) s'
  unfolding measure_block
  measure_block-Measured i s done few = elim (Bool-cases (ltb i 4)) [
    | inl t ↦ (
      measured layout 1024 (record s { memory = copied_block clean i s.memory }),
      rw (t, kernel_copy-ok frame i s.memory (omega (arith, clean.few)))
          (measure-ok layout 1024 (record s { memory = copied_block clean i s.memory })
            (omega arith)),
      record {
        loaded =
            let e : (i + 1 - 4) * 1024 ≡ (i - 4) * 1024 = omega (arith, ltb→lt _ _ t) in
            rw e (copied_block-Loaded clean i done.loaded (omega (arith, ltb→lt _ _ t)));
        hashed =
            hashed_block i s.sha_256_ctx (copied_block clean i s.memory) done.hashed
              (copied_block-frame clean i done.loaded (omega arith));
        mepc = done.mepc;
        tp = done.tp;
        ra = done.ra;
      },
    )
    | inr t ↦ (
      measured layout 1024 (record s { memory = placed_block clean i s.memory }),
      rw (t, load_block-ok clean i s.memory few)
          (measure-ok layout 1024 (record s { memory = placed_block clean i s.memory })
            (omega arith)),
      record {
        loaded =
            placed_block-Loaded clean i done.loaded (omega arith) (omega (arith, ltb→le _ _ t)) few
              (omega arith);
        hashed =
            hashed_block i s.sha_256_ctx (placed_block clean i s.memory) done.hashed
              (placed_block-frame clean i done.loaded (omega (arith, ltb→le _ _ t)) few);
        mepc = done.mepc;
        tp = done.tp;
        ra = done.ra;
      },
    )
  ]

  -- `n` passes from block `i` on measure `n` blocks more.
  pub measure_loop-Measured :
      (n i : ℕ) (s : Machine)
      → Measured layout s0 i s
      → i + n ≡ blocks s0.memory
      → (s' : Machine) × (measure_loop layout (load_addr s0.memory) n i s ≡ ok s')
        × Measured layout s0 (blocks s0.memory) s'
  unfolding measure_loop
  measure_loop-Measured zero i s done e =
      let e' : i ≡ blocks s0.memory = omega arith in (s, refl, rw (← e') done)
  measure_loop-Measured (suc n) i s done e =
      let (s1, ran, done1) = measure_block-Measured i s done (omega arith) in
      let (s2, ran2, done2) = measure_loop-Measured n (i + 1) s1 done1 (omega arith) in
      (s2, rw ran ran2, done2)
