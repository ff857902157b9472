-- ===== src/Kernel/Fs/Inode/Indirect.antt =====
-- The entries of the indirect block: `bmap` of xv6-riscv/kernel/fs.c behind the direct blocks.
use aca_riscv_secure_boot.Common.{
  ℕ, ◌-◌, ◌*◌, ◌≡◌, ◌≢◌, ◌<◌, ◌≤◌, refl, ap, ◌∙◌, sym, Bool-cases, inl, inr, arith, ltb, le→ltb,
  eq→==, ne→==, ◌==◌, if◌then◌else◌, ◌∷◌,
}
use aca_riscv_secure_boot.Common.Memory.{Memory}
use aca_riscv_secure_boot.Common.Cells.{
  read_le, store_le, read_le-store_le, read_le-store_le-Apart, store_le_small,
}
use aca_riscv_secure_boot.Kernel.Fs.{Superblock, Disk, bitmap_block}
use aca_riscv_secure_boot.Kernel.Fs.Bitmap.{is_used, Allocated}
use aca_riscv_secure_boot.Kernel.Fs.Inode.{Inode, bmap_indirect}
use aca_riscv_secure_boot.Kernel.Fs.Inode.Map.{address, IsMapped, Mapped}
use aca_riscv_secure_boot.Kernel.Fs.Inode.Fresh.{balloc_ends, taken-IsMapped, taken-address}

-- The indirect block is there, and block `bn` of the file has its address in it.
module _ (sb : Superblock) (ip : Inode) (s : Disk) (inv : IsMapped sb ip s) (bn : ℕ) (far : 12 ≤ bn)
    (near : bn < 268) (has : ip.addrs 12 ≢ 0) where
  abbrev entry : ℕ
  entry = read_le (s.view (ip.addrs 12)) (4 * (bn - 12)) 4

  entry_address : address ip s bn ≡ entry
  unfolding address
  entry_address = rw (le→ltb bn 12 far, ne→== (ip.addrs 12) 0 has) refl

  kept-Mapped : (addr : ℕ) → entry ≡ addr → Mapped sb ip s bn (addr, (ip, s))
  kept-Mapped addr e = record {
    sound = inv;
    here = entry_address ∙ e;
    others = λ k lk h. refl;
    found = λ h. ap (λ (a : ℕ). (a, (ip, s))) (sym e ∙ sym entry_address);
    fresh = λ z nz. absurd (nz (sym e ∙ sym entry_address ∙ z));
  }

  module _ (a : ℕ) (s' : Disk) (allocated : Allocated sb s a s') (free : entry ≡ 0) where
    abbrev linked : Disk
    linked = record {
      view = λ x.
          if x == ip.addrs 12
          then store_le 4 (4 * (bn - 12)) a (s'.view (ip.addrs 12))
          else s'.view x;
      logged = ip.addrs 12 ∷ s'.logged;
    }

    linked_used : (k : ℕ) → k < sb.size → is_used sb linked k ≡ is_used sb s' k
    linked_used k l = ground (arith, inv.indirect_apart has k l)

    linked_block : linked.view (ip.addrs 12) ≡ store_le 4 (4 * (bn - 12)) a (s'.view (ip.addrs 12))
    linked_block = rw (eq→== (ip.addrs 12) (ip.addrs 12) refl) refl

    linked_here : address ip linked bn ≡ a
    unfolding address
    linked_here =
        rw (le→ltb bn 12 far, ne→== (ip.addrs 12) 0 has)
          (ap (λ (m : Memory). read_le m (4 * (bn - 12)) 4) linked_block
            ∙ read_le-store_le 4 (4 * (bn - 12)) a (s'.view (ip.addrs 12))
                (omega (arith, allocated.small, inv.small)))

    linked_other : (k : ℕ) → k ≢ bn → address ip linked k ≡ address ip s' k
    unfolding address
    linked_other k h = elim (Bool-cases (ltb k 12)) [
      | inl t ↦ rw t refl
      | inr t ↦
          rw (t, ne→== (ip.addrs 12) 0 has)
            (ap (λ (m : Memory). read_le m (4 * (k - 12)) 4) linked_block
              ∙ read_le-store_le-Apart 4 (4 * (k - 12)) 4 (4 * (bn - 12)) a (s'.view (ip.addrs 12))
                  (ground (arith, t, far)))
    ]

    linked-Mapped : Mapped sb ip s bn (a, (ip, linked))
    linked-Mapped = record {
      sound = record {
        disk = record {
          bytes = λ b i. ground (
            arith,
            allocated.sound.bytes b i,
            store_le_small 4 (4 * (bn - 12)) a (s'.view (ip.addrs 12)) i
                (allocated.sound.bytes (ip.addrs 12)),
          );
          map_inside = inv.disk.map_inside;
          map_used = λ k l.
              linked_used (bitmap_block sb k) (inv.disk.map_inside k l)
              ∙ allocated.sound.map_used k l;
        };
        small = inv.small;
        boot_used =
            linked_used 0 (omega (arith, allocated.small))
            ∙ (taken-IsMapped sb ip s inv a s' allocated).boot_used;
        indirect_small = inv.indirect_small;
        indirect_used = λ h.
            linked_used (ip.addrs 12) (inv.indirect_small h)
            ∙ (taken-IsMapped sb ip s inv a s' allocated).indirect_used h;
        indirect_apart = inv.indirect_apart;
      };
      here = linked_here;
      others = λ k lk h. linked_other k h ∙ taken-address sb ip s inv a s' allocated k;
      found = λ h. absurd (h (entry_address ∙ free));
      fresh = λ _ _. (allocated.free, allocated.small);
    }

  pub bmap_indirect-Mapped :
      Mapped sb ip s bn
        (let (addr, s') = bmap_indirect sb (ip.addrs 12) (bn - 12) s in (addr, (ip, s')))
  unfolding bmap_indirect
  bmap_indirect-Mapped = elim (Bool-cases (entry == 0)) [
    | inr t ↦ rw t (kept-Mapped entry refl)
    | inl t ↦
        let none : entry ≡ 0 = ground (arith, t) in
        elim (balloc_ends sb ip s inv) [
          | inl ran ↦ rw (t, ran) (kept-Mapped 0 none)
          | inr (a, s', ran, allocated, nz) ↦
              rw (t, ran, ne→== a 0 nz) (linked-Mapped a s' allocated none)
        ]
  ]
