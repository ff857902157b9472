-- ===== src/Kernel/Fs/Inode/Fresh.antt =====
-- A block that `balloc` of xv6-riscv/kernel/fs.c gives to a file: as a direct or the indirect block.
use aca_riscv_secure_boot.Common.{
  ℕ, ◌+◌, ◌-◌, ◌*◌, ◌≡◌, ◌≢◌, ◌<◌, ◌⊎◌, refl, ap, ◌∙◌, sym, Bool-cases, inl, inr, arith, ltb, eq→==,
  ne→==, ==→ne, ◌==◌, if◌then◌else◌,
}
use aca_riscv_secure_boot.Common.Cells.{read_le, read_le_ext}
use aca_riscv_secure_boot.Kernel.Fs.{Superblock, Disk, balloc}
use aca_riscv_secure_boot.Kernel.Fs.Bitmap.{Allocated, balloc-Allocated}
use aca_riscv_secure_boot.Kernel.Fs.Inode.{Inode, set_addr}
use aca_riscv_secure_boot.Kernel.Fs.Inode.Map.{address, IsMapped, Mapped}

zeros : (a : ℕ) → read_le (λ _. 0) a 4 ≡ 0
unfolding read_le
zeros a = refl

-- How `balloc` ends on such a disk.
module _ (sb : Superblock) (ip : Inode) (s : Disk) (inv : IsMapped sb ip s) where
  pub balloc_ends :
      (balloc sb s ≡ (0, s))
      ⊎ ((a : ℕ) × (s' : Disk) × (balloc sb s ≡ (a, s')) × Allocated sb s a s' × (a ≢ 0))
  balloc_ends = elim (balloc-Allocated sb s inv.disk) [
    | inl (ran, full) ↦ inl ran
    | inr (a, s', ran, allocated, first) ↦
        inr (a, s', ran, allocated, λ e. ground (arith, rw e at allocated.free, inv.boot_used))
  ]

  -- A fresh block touches neither the indirect block nor its place in the inode.
  module _ (a : ℕ) (s' : Disk) (allocated : Allocated sb s a s') where
    indirect_same : ip.addrs 12 ≢ 0 → (i : ℕ) → s'.view (ip.addrs 12) i ≡ s.view (ip.addrs 12) i
    indirect_same h i =
        allocated.same (ip.addrs 12) i
          (λ e. ground (arith, rw e at (inv.indirect_used h), allocated.free))
          (λ e. inv.indirect_apart h a allocated.small (sym e))

    pub taken-IsMapped : IsMapped sb ip s'
    taken-IsMapped = record {
      disk = allocated.sound;
      small = inv.small;
      boot_used = ground (arith, allocated.bits 0 (omega (arith, allocated.small)), inv.boot_used);
      indirect_small = inv.indirect_small;
      indirect_used = λ h.
          ground (arith, allocated.bits (ip.addrs 12) (inv.indirect_small h), inv.indirect_used h);
      indirect_apart = inv.indirect_apart;
    }

    pub taken-address : (k : ℕ) → address ip s' k ≡ address ip s k
    unfolding address
    taken-address k = elim (Bool-cases (ip.addrs 12 == 0)) [
      | inl t ↦ rw t refl
      | inr t ↦ rw t (
          ap (λ (v : ℕ). if ltb k 12 then ip.addrs k else v)
            (read_le_ext (s'.view (ip.addrs 12)) (s.view (ip.addrs 12)) (4 * (k - 12)) 4
              (λ i l. indirect_same (==→ne (ip.addrs 12) 0 t) (4 * (k - 12) + i))))
    ]

    same12 : (bn : ℕ) → bn < 12 → (set_addr bn a ip).addrs 12 ≡ ip.addrs 12
    same12 bn l = ground (arith, l)

    -- The fresh block in a free slot of the inode itself.
    pub slot-Mapped :
        (bn : ℕ) → bn < 12 → ip.addrs bn ≡ 0 → a ≢ 0 → Mapped sb ip s bn (a, (set_addr bn a ip, s'))
    slot-Mapped bn l e nz = record {
      sound = record {
        disk = allocated.sound;
        small = inv.small;
        boot_used = taken-IsMapped.boot_used;
        indirect_small = λ h. ground (arith, l, h, taken-IsMapped.indirect_small);
        indirect_used = λ h. ground (arith, l, h, taken-IsMapped.indirect_used);
        indirect_apart =
            λ h k m q. inv.indirect_apart (rw (same12 bn l) at h) k m (q ∙ same12 bn l);
      };
      here = unfold address in ground (arith, l);
      others = λ k lk h. unfold address in ground (arith, l, h, taken-address k);
      found = λ h. absurd (h (unfold address in ground (arith, l, e)));
      fresh = λ _ _. (allocated.free, allocated.small);
    }

    -- The fresh block as the indirect block.
    abbrev pub with_indirect : Inode
    with_indirect = set_addr 12 a ip

    module _ (none_ : ip.addrs 12 ≡ 0) where
      pub with_indirect-IsMapped : IsMapped sb with_indirect s'
      with_indirect-IsMapped = record {
        disk = allocated.sound;
        small = inv.small;
        boot_used = taken-IsMapped.boot_used;
        indirect_small = λ h. allocated.small;
        indirect_used = λ h. ground (arith, allocated.bits a allocated.small);
        indirect_apart = λ h k l e. ground (arith, rw e at (inv.disk.map_used k l), allocated.free);
      }

      pub with_indirect-address :
          a ≢ 0 → (k : ℕ) → k < 268 → address with_indirect s' k ≡ address ip s k
      unfolding address
      with_indirect-address nz k l = elim (Bool-cases (ltb k 12)) [
        | inl t ↦ rw t (ground (arith, t))
        | inr t ↦
            rw (t, eq→== (ip.addrs 12) 0 none_, ne→== a 0 nz)
              (read_le_ext (s'.view a) (λ _. 0) (4 * (k - 12)) 4
                  (λ i h. allocated.zeroed (4 * (k - 12) + i) (omega arith))
                ∙ zeros (4 * (k - 12)))
      ]
