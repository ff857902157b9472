-- ===== src/Boot/Start/Jump.antt =====
-- What `start` of xv6-riscv/bootloader/start.c does with the verdict.
use aca_riscv_secure_boot.Common.{
  ℕ, zero, suc, ◌+◌, ◌/◌, ◌≡◌, ◌<◌, ◌≤◌, ◌≢◌, refl, Bool, false, true, arith, inl, inr, ◌⊎◌, ap,
  ◌∙◌, length, Bool-cases, ltb, ltb→le,
}
use native.Mathlib.Nat.{le_refl}
use mathlib.Core.Bool.{false≢true}
use aca_riscv_secure_boot.Common.Memory.{Memory, within}
use aca_riscv_secure_boot.Boot.Elf.{
  normal, disk_base, sign_extend, find_kernel_size, find_kernel_entry_addr,
}
use aca_riscv_secure_boot.Boot.Loader.{ok}
use aca_riscv_secure_boot.Boot.Sha256.Padding.{sha_256}
use aca_riscv_secure_boot.Boot.Start.{
  Layout, Machine, Exit, returned, jumped, load_loop, is_secure_boot, start, provide_info, sys_info,
}
use aca_riscv_secure_boot.Boot.Start.Regions.{
  IsClean, Loaded, blocks, text_size, image_size, image_same, load_addr, placed_block,
  placed_block-Loaded, load_block-ok,
}
use aca_riscv_secure_boot.Boot.Start.Headers.{entry_same, size_same, load_addr_same, same-IsClean}
use aca_riscv_secure_boot.Boot.Start.Info.{provide_info-same}
use aca_riscv_secure_boot.Boot.Start.Secure.{image, trusted, Verified, is_secure_boot-Verified}

module _ {layout : Layout} {m0 : Memory} (clean : IsClean layout m0) where
  -- Loading blocks of a text that is loaded already keeps it loaded.
  load_loop-Loaded :
      (n i : ℕ) (m : Memory)
      → Loaded layout m0 (text_size m0) m
      → i + n ≤ blocks m0
      → (m' : Memory) × (load_loop layout normal (load_addr m0) n i m ≡ ok m')
        × Loaded layout m0 (text_size m0) m'
  unfolding load_loop
  load_loop-Loaded zero i m loaded h = (m, refl, loaded)
  load_loop-Loaded (suc n) i m loaded h = elim (Bool-cases (ltb i 4)) [
    | inl t ↦
        let (m', ran, done) = load_loop-Loaded n (i + 1) m loaded (omega arith) in
        (m', rw t ran, done)
    | inr t ↦
        let next =
          placed_block-Loaded clean i loaded (omega arith) (omega (arith, ltb→le _ _ t))
            (omega arith) (inl (le_refl (text_size m0))) in
        let (m', ran, done) =
          load_loop-Loaded n (i + 1) (placed_block clean i m) next (omega arith) in
        (m', rw (t, load_block-ok clean i m (omega arith)) ran, done)
  ]

module _ (layout : Layout) (hartid : ℕ) (s : Machine) where
  -- `start` gave control to the kernel, which is loaded and is what was measured.
  pub record Booted (r : Exit × Machine) : Type 0 where
    pub exit : r.0 ≡ jumped (find_kernel_entry_addr normal s.memory)
    pub mepc : r.1.mepc ≡ find_kernel_entry_addr normal s.memory
    pub ra : r.1.ra ≡ layout.panic_addr
    pub tp : r.1.tp ≡ sign_extend hartid
    pub text :
        (j : ℕ)
        → j < text_size s.memory
        → r.1.memory (load_addr s.memory + j) ≡ s.memory (disk_base normal + 4096 + j)
    pub same :
        (x : ℕ)
        → within layout.frame 1024 x ≡ false
        → within (load_addr s.memory) (text_size s.memory) x ≡ false
        → within sys_info 96 x ≡ false
        → r.1.memory x ≡ s.memory x

  -- `start` returned: no kernel is set up, neither NORMAL nor RECOVERY.
  pub record Refused (r : Exit × Machine) : Type 0 where
    pub exit : r.0 ≡ returned
    pub mepc : r.1.mepc ≡ s.mepc
    pub ra : r.1.ra ≡ s.ra
    pub tp : r.1.tp ≡ sign_extend hartid

  started : Machine
  started = record s { tp = sign_extend hartid }

  module _ (clean : IsClean layout s.memory) {c : Machine}
      (verified : Verified layout started (true, c)) where
    same_image :
        (x : ℕ)
        → x < image_size s.memory
        → c.memory (disk_base normal + x) ≡ s.memory (disk_base normal + x)
    unfolding started
    same_image x l =
        verified.same (disk_base normal + x) (ground (arith, clean.frame_image))
          (ground (arith, clean.text_image)) (ground arith)

    checked-IsClean : IsClean layout c.memory
    checked-IsClean = same-IsClean clean c.memory same_image

    load_eq : load_addr c.memory ≡ load_addr s.memory
    load_eq = load_addr_same clean c.memory same_image

    size_eq : find_kernel_size normal c.memory ≡ find_kernel_size normal s.memory
    size_eq = size_same clean c.memory same_image

    checked-Loaded : Loaded layout c.memory (text_size c.memory) c.memory
    unfolding started
    checked-Loaded = record {
      same = λ x p q. refl;
      filled = λ j l. ground (arith, load_eq, size_eq, verified.filled j, same_image (4096 + j));
    }

    -- The machine after the second load and the stores to the table.
    booted : Memory → Machine
    booted m = record c {
      memory = provide_info layout m;
      mepc = find_kernel_entry_addr normal m;
      ra = layout.panic_addr;
    }

    module _ {m : Memory} (loaded : Loaded layout c.memory (text_size c.memory) m) where
      provided_image :
          (x : ℕ)
          → x < image_size c.memory
          → provide_info layout m (disk_base normal + x) ≡ c.memory (disk_base normal + x)
      provided_image x l = ground (
        arith,
        provide_info-same layout m (disk_base normal + x),
        image_same checked-IsClean loaded x,
      )

      entry_eq : find_kernel_entry_addr normal m ≡ find_kernel_entry_addr normal s.memory
      entry_eq =
          entry_same checked-IsClean m (image_same checked-IsClean loaded)
          ∙ entry_same clean c.memory same_image

      booted-Booted :
          Booted (jumped (find_kernel_entry_addr normal (provide_info layout m)), booted m)
      unfolding booted started
      booted-Booted = record {
        exit = ap jumped (
            entry_same checked-IsClean (provide_info layout m) provided_image
            ∙ entry_same clean c.memory same_image);
        mepc = entry_eq;
        ra = refl;
        tp = verified.tp;
        text = λ j l. ground (
          arith,
          load_eq,
          size_eq,
          clean.info_text,
          provide_info-same layout m (load_addr s.memory + j),
          loaded.filled j,
          same_image (4096 + j),
        );
        same = λ x p q r. ground (
          arith,
          load_eq,
          size_eq,
          provide_info-same layout m x,
          loaded.same x,
          verified.same x p q r,
        );
      }

    -- The boot after a verdict `true`.
    boot-Booted :
        is_secure_boot layout started ≡ ok (true, c)
        → (r : Exit × Machine) × (start layout hartid s ≡ ok r) × Booted r
    unfolding start started booted
    boot-Booted ran =
        let (m, loads, loaded) =
          load_loop-Loaded checked-IsClean (find_kernel_size normal c.memory / 2000) 0 c.memory
            checked-Loaded (omega arith) in
        (
          (jumped (find_kernel_entry_addr normal (provide_info layout m)), booted m),
          rw (ran, loads),
          booted-Booted loaded,
        )

  abbrev Decided : Exit × Machine → Type 0
  Decided r =
      ((sha_256 (image s.memory) ≡ trusted layout s.memory) × Booted r)
      ⊎ ((sha_256 (image s.memory) ≢ trusted layout s.memory) × Refused r)

  by_verdict :
      IsClean layout s.memory
      → (secure : Bool) (c : Machine) → is_secure_boot layout started ≡ ok (secure, c)
      → Verified layout started (secure, c)
      → (r : Exit × Machine) × (start layout hartid s ≡ ok r) × Decided r
  unfolding start started
  by_verdict clean true c ran verified =
      let (r, ends, booted) = boot-Booted clean verified ran in
      (r, ends, inl (verified.verdict.0 refl, booted))
  by_verdict clean false c ran verified = (
    (returned, c),
    rw ran,
    inr (
      (λ e. false≢true (verified.verdict.1 e)),
      record { exit = refl; mepc = verified.mepc; ra = verified.ra; tp = verified.tp },
    ),
  )

  -- If the image fits the ramdisk and the text goes over nothing that the bootloader occupies, reads or
  -- writes (`IsClean`), `start` always ends, and its end is decided by the hash alone. If the SHA-256
  -- of the NORMAL image is the trusted one, it jumps to the entry point that the image states, with
  -- the blocks of the text at their place and nothing else changed but its own buffer and table.
  -- If not, it returns, with `mepc` and `ra` as they were.
  pub start-decides :
      IsClean layout s.memory
      → length s.sha_256_ctx.data_buf ≡ 64
      → (r : Exit × Machine) × (start layout hartid s ≡ ok r)
        × (((sha_256 (image s.memory) ≡ trusted layout s.memory) × Booted r)
            ⊎ ((sha_256 (image s.memory) ≢ trusted layout s.memory) × Refused r))
  unfolding started
  start-decides clean room =
      let ((secure, c), ran, verified) = is_secure_boot-Verified layout started clean room in
      by_verdict clean secure c ran verified
