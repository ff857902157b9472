-- ===== src/Boot/Start/Secure.antt =====
-- The verdict of `is_secure_boot` in xv6-riscv/bootloader/start.c.
use aca_riscv_secure_boot.Common.{
  ℕ, zero, suc, ◌+◌, ◌-◌, ◌*◌, ◌≡◌, ◌<◌, ◌↔◌, refl, Bool, false, true, arith, ◌∙◌, sym, length,
  List, [],
}
use aca_riscv_secure_boot.Common.Int.{ℤ, pos, negsuc, is_zero}
use aca_riscv_secure_boot.Common.Word.{u32}
use aca_riscv_secure_boot.Common.Memory.{
  Memory, Apart, within, read_bytes, read_bytes_ext, write_bytes, length-read_bytes,
  write_bytes-read, write_bytes-outside,
}
use aca_riscv_secure_boot.Boot.Elf.{normal, disk_base, find_kernel_size}
use aca_riscv_secure_boot.Boot.Loader.{ok}
use aca_riscv_secure_boot.Boot.Sha256
use aca_riscv_secure_boot.Boot.Sha256.Padding.{sha_256}
use aca_riscv_secure_boot.Boot.Sha256.Stream.{absorb_all-nil, init-Holds, absorb_all-Holds}
use aca_riscv_secure_boot.Boot.Sha256.Digest.{final-Holds, length-final}
use aca_riscv_secure_boot.Boot.Strings.{memcpy, memcmp}
use aca_riscv_secure_boot.Boot.Strings.Compare.{memcmp-zero_iff}
use aca_riscv_secure_boot.Boot.Strings.Copy.{memcpy-copied}
use aca_riscv_secure_boot.Boot.Start.{
  Layout, Machine, verify, is_secure_boot, sys_info, observed_kernel_measurement,
  expected_kernel_measurement,
}
use aca_riscv_secure_boot.Boot.Start.Regions.{
  IsClean, Loaded, blocks, text_size, load_addr, copied_block, copied_block-frame,
  copied_block-Loaded, kernel_copy-ok,
}
use aca_riscv_secure_boot.Boot.Start.Measure.{
  Measured, measured, measure-ok, measure_loop-Measured, hashed_next,
}

-- The bytes that are measured: the NORMAL image as its headers size it.
abbrev pub image : Memory → List ℕ
image m = read_bytes m (disk_base normal) (find_kernel_size normal m)

module _ (layout : Layout) where
  open layout use {frame, trusted_kernel_hash}

  abbrev pub trusted : Memory → List ℕ
  trusted m = read_bytes m trusted_kernel_hash 32

  -- The memory after `verify`, given the hash that it writes.
  verify_memory : Memory → List ℕ → Memory
  verify_memory m hash =
      memcpy expected_kernel_measurement trusted_kernel_hash 32
        (write_bytes m observed_kernel_measurement hash)

  verify-observed :
      (m : Memory) (hash : List ℕ)
      → length hash ≡ 32
      → read_bytes (verify_memory m hash) observed_kernel_measurement 32 ≡ hash
  unfolding verify_memory
  verify-observed m hash h =
      read_bytes_ext (verify_memory m hash) written observed_kernel_measurement
        observed_kernel_measurement 32
        (λ i l. ground (
          arith,
          memcpy-copied expected_kernel_measurement trusted_kernel_hash 32 written
              (observed_kernel_measurement + i),
        ))
      ∙ (rw h at (write_bytes-read m observed_kernel_measurement hash))
    where
      written : Memory
      written = write_bytes m observed_kernel_measurement hash

  verify-expected :
      (m : Memory) (hash : List ℕ)
      → length hash ≡ 32
      → Apart sys_info 96 trusted_kernel_hash 32
      → read_bytes (verify_memory m hash) expected_kernel_measurement 32 ≡ trusted m
  unfolding verify_memory
  verify-expected m hash h apart =
      read_bytes_ext (verify_memory m hash) m expected_kernel_measurement trusted_kernel_hash 32
        (λ i l. ground (
          arith,
          memcpy-copied expected_kernel_measurement trusted_kernel_hash 32
              (write_bytes m observed_kernel_measurement hash) (expected_kernel_measurement + i),
          write_bytes-outside m observed_kernel_measurement hash (trusted_kernel_hash + i),
          apart,
        ))

  -- Only the system information table changes.
  verify-same :
      (m : Memory) (hash : List ℕ)
      → length hash ≡ 32
      → (x : ℕ) → within sys_info 96 x ≡ false
      → verify_memory m hash x ≡ m x
  unfolding verify_memory
  verify-same m hash h x out = ground (
    arith,
    memcpy-copied expected_kernel_measurement trusted_kernel_hash 32
        (write_bytes m observed_kernel_measurement hash) x,
    write_bytes-outside m observed_kernel_measurement hash x,
  )

  is_zero_iff : (z : ℤ) → (is_zero z ≡ true) ↔ (z ≡ pos 0)
  is_zero_iff (pos zero) = (λ _. refl, λ _. refl)
  is_zero_iff (pos (suc n)) = (λ e. cc, λ e. cc)
  is_zero_iff (negsuc n) = (λ e. cc, λ e. cc)

  -- What `verify` returns and leaves, for a context that stands for a message with hash `hash`.
  record Checked (m : Memory) (hash : List ℕ) (r : Bool × Machine) : Type 0 where
    pub verdict : (r.0 ≡ true) ↔ (hash ≡ trusted m)
    pub observed : read_bytes r.1.memory observed_kernel_measurement 32 ≡ hash
    pub expected : read_bytes r.1.memory expected_kernel_measurement 32 ≡ trusted m
    pub same : (x : ℕ) → within sys_info 96 x ≡ false → r.1.memory x ≡ m x

  verify-Checked :
      (s : Machine)
      → Apart sys_info 96 trusted_kernel_hash 32
      → Checked s.memory (Sha256.final s.sha_256_ctx).1 (verify layout s)
  unfolding verify verify_memory
  verify-Checked s apart = record {
    verdict = (λ e. zero_iff.0 ((is_zero_iff _).0 e), λ e. (is_zero_iff _).1 (zero_iff.1 e));
    observed = observed;
    expected = expected;
    same = verify-same s.memory hash (length-final s.sha_256_ctx);
  }
    where
      hash : List ℕ
      hash = (Sha256.final s.sha_256_ctx).1

      observed : read_bytes (verify_memory s.memory hash) observed_kernel_measurement 32 ≡ hash
      observed = verify-observed s.memory hash (length-final s.sha_256_ctx)

      expected :
          read_bytes (verify_memory s.memory hash) expected_kernel_measurement 32 ≡ trusted s.memory
      expected = verify-expected s.memory hash (length-final s.sha_256_ctx) apart

      zero_iff :
          (memcmp observed_kernel_measurement expected_kernel_measurement 32
              (verify_memory s.memory hash)
            ≡ pos 0)
          ↔ (hash ≡ trusted s.memory)
      zero_iff =
          rw (observed, expected) at
            (memcmp-zero_iff observed_kernel_measurement expected_kernel_measurement 32
              (verify_memory s.memory hash))

  -- What `is_secure_boot` returns and leaves, from the machine `s0`.
  pub record Verified (s0 : Machine) (r : Bool × Machine) : Type 0 where
    pub verdict : (r.0 ≡ true) ↔ (sha_256 (image s0.memory) ≡ trusted s0.memory)
    pub observed : read_bytes r.1.memory observed_kernel_measurement 32 ≡ sha_256 (image s0.memory)
    pub expected : read_bytes r.1.memory expected_kernel_measurement 32 ≡ trusted s0.memory
    pub same :
        (x : ℕ)
        → within frame 1024 x ≡ false
        → within (load_addr s0.memory) (text_size s0.memory) x ≡ false
        → within sys_info 96 x ≡ false
        → r.1.memory x ≡ s0.memory x
    pub filled :
        (j : ℕ)
        → j < text_size s0.memory
        → r.1.memory (load_addr s0.memory + j) ≡ s0.memory (disk_base normal + 4096 + j)
    pub mepc : r.1.mepc ≡ s0.mepc
    pub tp : r.1.tp ≡ s0.tp
    pub ra : r.1.ra ≡ s0.ra

  module _ (s0 : Machine) (clean : IsClean layout s0.memory)
      (room : length s0.sha_256_ctx.data_buf ≡ 64) where
    begun : Machine
    begun = record s0 { sha_256_ctx = Sha256.init s0.sha_256_ctx }

    begun-Measured : Measured layout begun 0 begun
    unfolding begun
    begun-Measured = record {
      loaded = record { same = λ x p q. refl; filled = λ j l. absurd (omega arith) };
      hashed = unfold read_bytes in sym (absorb_all-nil _);
      mepc = refl;
      tp = refl;
      ra = refl;
    }

    rem_size : ℕ
    rem_size = find_kernel_size normal s0.memory - 1024 * blocks s0.memory

    -- The context before `sha256_final` stands for the image.
    final-image :
        (ctx : Sha256.Context)
        → ctx
          ≡ Sha256.absorb_all
              (Sha256.init s0.sha_256_ctx)
              (read_bytes s0.memory (disk_base normal) (blocks s0.memory * 1024 + rem_size))
        → (Sha256.final ctx).1 ≡ sha_256 (image s0.memory)
    unfolding rem_size
    final-image ctx e =
        let whole : blocks s0.memory * 1024
              + (find_kernel_size normal s0.memory - 1024 * blocks s0.memory)
            ≡ find_kernel_size normal s0.memory =
          omega arith in
        rw e (
          rw whole (
            final-Holds
              (absorb_all-Holds (Sha256.init s0.sha_256_ctx) [] (image s0.memory)
                (init-Holds s0.sha_256_ctx room))
              (omega (
                arith,
                length-read_bytes s0.memory (disk_base normal) (find_kernel_size normal s0.memory),
                clean.few,
              ))))

    -- The machine before `verify`: `s1` has measured all whole blocks.
    last : Machine → Machine
    last s1 =
        measured layout rem_size
          (record s1 { memory = copied_block clean (blocks s0.memory) s1.memory })

    last-Verified :
        (s1 : Machine)
        → Measured layout begun (blocks s0.memory) s1
        → Verified s0 (verify layout (last s1))
    unfolding last begun
    last-Verified s1 done = record {
      verdict = rw (hash_eq, trusted_eq) at checked.verdict;
      observed = checked.observed ∙ hash_eq;
      expected = checked.expected ∙ trusted_eq;
      same = λ x p q r. checked.same x r ∙ loaded.same x p q;
      filled = λ j l.
          checked.same (load_addr s0.memory + j) (ground (arith, clean.info_text))
          ∙ loaded.filled j l;
      mepc = unfold verify in done.mepc;
      tp = unfold verify in done.tp;
      ra = unfold verify in done.ra;
    }
      where
        m1 : Memory
        m1 = copied_block clean (blocks s0.memory) s1.memory

        loaded : Loaded layout s0.memory (text_size s0.memory) m1
        loaded = copied_block-Loaded clean (blocks s0.memory) done.loaded (omega arith)

        hash_eq : (Sha256.final (last s1).sha_256_ctx).1 ≡ sha_256 (image s0.memory)
        hash_eq = final-image (last s1).sha_256_ctx (
            hashed_next begun clean (blocks s0.memory) rem_size s1.sha_256_ctx m1 done.hashed
              (unfold rem_size in omega arith)
              (copied_block-frame clean (blocks s0.memory) done.loaded (omega arith)))

        checked : Checked m1 (Sha256.final (last s1).sha_256_ctx).1 (verify layout (last s1))
        checked = verify-Checked (last s1) clean.info_trusted

        trusted_eq : trusted m1 ≡ trusted s0.memory
        trusted_eq = read_bytes_ext m1 s0.memory trusted_kernel_hash trusted_kernel_hash 32 (λ i l.
            loaded.same (trusted_kernel_hash + i) (ground (arith, clean.frame_trusted))
              (ground (arith, clean.text_trusted)))

    -- If the image fits the ramdisk and the text goes over nothing that the bootloader occupies, reads
    -- or writes (`IsClean`), `is_secure_boot` ends, and answers whether the SHA-256 of the image is the
    -- trusted hash. It has then loaded the text, written both hashes to the table, and changed no
    -- byte outside its buffer, the place of the text and the table.
    pub is_secure_boot-Verified :
        (r : Bool × Machine) × (is_secure_boot layout s0 ≡ ok r) × Verified s0 r
    unfolding is_secure_boot begun rem_size last
    is_secure_boot-Verified =
        let (s1, ran, done) =
          measure_loop-Measured begun clean (blocks s0.memory) 0 begun begun-Measured
            (omega arith) in
        let small : u32 (blocks s0.memory) ≡ blocks s0.memory = omega (arith, clean.few) in
        (
          verify layout (last s1),
          rw
              (
                ran,
                small,
                kernel_copy-ok frame (blocks s0.memory) s1.memory clean.few,
                measure-ok layout rem_size
                    (record s1 { memory = copied_block clean (blocks s0.memory) s1.memory })
                    (omega arith),
              )
              refl,
          last-Verified s1 done,
        )
