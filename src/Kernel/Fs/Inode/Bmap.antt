-- ===== src/Kernel/Fs/Inode/Bmap.antt =====
-- `bmap` of xv6-riscv/kernel/fs.c on any block of a file.
use aca_riscv_secure_boot.Common.{
  ℕ, ◌-◌, ◌≡◌, ◌≢◌, ◌<◌, ◌≤◌, refl, ap, ◌∙◌, sym, true, false, Bool-cases, inl, inr, arith, ltb,
  ltb→lt, lt→ltb, ne→==, ==→ne, ◌==◌,
}
use aca_riscv_secure_boot.Kernel.Outcome.{ok}
use aca_riscv_secure_boot.Kernel.Fs.{Superblock, Disk, balloc}
use aca_riscv_secure_boot.Kernel.Fs.Bitmap.{Allocated}
use aca_riscv_secure_boot.Kernel.Fs.Inode.{Inode, set_addr, bmap_slot, bmap_indirect, bmap}
use aca_riscv_secure_boot.Kernel.Fs.Inode.Map.{address, IsMapped, Mapped}
use aca_riscv_secure_boot.Kernel.Fs.Inode.Fresh.{
  balloc_ends, slot-Mapped, with_indirect, with_indirect-IsMapped, with_indirect-address,
}
use aca_riscv_secure_boot.Kernel.Fs.Inode.Indirect.{bmap_indirect-Mapped}

-- The maps of two states with the same addresses.
Mapped-via :
    (sb : Superblock) (ip ip1 : Inode) (s s1 : Disk) (a bn : ℕ) (r : ℕ × (Inode × Disk))
    → Allocated sb s a s1
    → ((k : ℕ) → k < 268 → address ip1 s1 k ≡ address ip s k)
    → bn < 268
    → address ip s bn ≡ 0
    → Mapped sb ip1 s1 bn r
    → Mapped sb ip s bn r
Mapped-via sb ip ip1 s s1 a bn r allocated same near none_ m = record {
  sound = m.sound;
  here = m.here;
  others = λ k lk h. m.others k lk h ∙ same k lk;
  found = λ h. absurd (h none_);
  fresh = λ z nz.
      let (free, small) = m.fresh (same bn near ∙ none_) nz in
      (ground (arith, free, allocated.bits r.0 small), small);
}

module _ (sb : Superblock) (ip : Inode) (s : Disk) (i : ℕ) where
  slot_old : (ip.addrs i == 0) ≡ false → bmap_slot sb i (ip, s) ≡ (ip.addrs i, (ip, s))
  unfolding bmap_slot
  slot_old t = rw t refl

  slot_full :
      (ip.addrs i == 0) ≡ true → balloc sb s ≡ (0, s) → bmap_slot sb i (ip, s) ≡ (0, (ip, s))
  unfolding bmap_slot
  slot_full t ran = rw (t, ran) refl

  slot_new :
      (ip.addrs i == 0) ≡ true
      → (a : ℕ) (s' : Disk) → balloc sb s ≡ (a, s')
      → a ≢ 0
      → bmap_slot sb i (ip, s) ≡ (a, (set_addr i a ip, s'))
  unfolding bmap_slot
  slot_new t a s' ran nz = rw (t, ran, ne→== a 0 nz) refl

slot_kept :
    (sb : Superblock) (ip : Inode) (s : Disk) (bn : ℕ)
    → IsMapped sb ip s
    → bn < 12
    → (addr : ℕ) → ip.addrs bn ≡ addr
    → Mapped sb ip s bn (addr, (ip, s))
slot_kept sb ip s bn inv l addr e =
    let direct : address ip s bn ≡ ip.addrs bn = unfold address in rw (lt→ltb bn 12 l) refl in
    record {
      sound = inv;
      here = direct ∙ e;
      others = λ k lk h. refl;
      found = λ h. ap (λ (a : ℕ). (a, (ip, s))) (sym e ∙ sym direct);
      fresh = λ z nz. absurd (nz (sym e ∙ sym direct ∙ z));
    }

bmap_slot-Mapped :
    (sb : Superblock) (ip : Inode) (s : Disk) (bn : ℕ)
    → IsMapped sb ip s
    → bn < 12
    → Mapped sb ip s bn (bmap_slot sb bn (ip, s))
unfolding bmap_slot
bmap_slot-Mapped sb ip s bn inv l = elim (Bool-cases (ip.addrs bn == 0)) [
  | inr t ↦ rw t (slot_kept sb ip s bn inv l (ip.addrs bn) refl)
  | inl t ↦
      let none : ip.addrs bn ≡ 0 = ground (arith, t) in
      elim (balloc_ends sb ip s inv) [
        | inl ran ↦ rw (t, ran) (slot_kept sb ip s bn inv l 0 none)
        | inr (a, s', ran, allocated, nz) ↦
            rw (t, ran, ne→== a 0 nz) (slot-Mapped sb ip s inv a s' allocated bn l none nz)
      ]
]

-- A file is mapped block by block. `bmap` of a block in range always ends; it returns the address
-- that the block has from then on. If it had one, that is it and nothing changes. If not, it is a
-- block that was free, or 0 on a full disk. No other block of the file moves, and the indirect block
-- stays in use and away from the free map.
pub bmap-Mapped :
    (sb : Superblock) (ip : Inode) (s : Disk) (bn : ℕ)
    → IsMapped sb ip s
    → bn < 268
    → (r : ℕ × (Inode × Disk)) × (bmap sb bn (ip, s) ≡ ok r) × Mapped sb ip s bn r
unfolding bmap
bmap-Mapped sb ip s bn inv l = elim (Bool-cases (ltb bn 12)) [
  | inl t ↦ (bmap_slot sb bn (ip, s), rw t refl, bmap_slot-Mapped sb ip s bn inv (ltb→lt _ _ t))
  | inr t ↦
      let near : ltb (bn - 12) 256 ≡ true = ground (arith, t) in
      let far : 12 ≤ bn = ground (arith, t) in
      elim (Bool-cases (ip.addrs 12 == 0)) [
        | inr u ↦
            let has = ==→ne (ip.addrs 12) 0 u in
            let (entry, s'') = bmap_indirect sb (ip.addrs 12) (bn - 12) s in
            (
              (entry, (ip, s'')),
              rw (t, near, slot_old sb ip s 12 u, u) refl,
              bmap_indirect-Mapped sb ip s inv bn far l has,
            )
        | inl u ↦
            let none : ip.addrs 12 ≡ 0 = ground (arith, u) in
            let unmapped : address ip s bn ≡ 0 = unfold address in rw (t, u) refl in
            elim (balloc_ends sb ip s inv) [
              | inl ran ↦ (
                (0, (ip, s)),
                rw (t, near, slot_full sb ip s 12 u ran) refl,
                record {
                  sound = inv;
                  here = unmapped;
                  others = λ k lk h. refl;
                  found = λ h. absurd (h unmapped);
                  fresh = λ z nz. absurd (nz refl);
                },
              )
              | inr (a, s1, ran, allocated, nz) ↦
                  let ip1 = with_indirect sb ip s inv a s1 allocated in
                  let (entry, s2) = bmap_indirect sb a (bn - 12) s1 in
                  (
                    (entry, (ip1, s2)),
                    rw (t, near, slot_new sb ip s 12 u a s1 ran nz, ne→== a 0 nz) refl,
                    Mapped-via sb ip ip1 s s1 a bn (entry, (ip1, s2)) allocated
                        (with_indirect-address sb ip s inv a s1 allocated none nz) l unmapped
                        (bmap_indirect-Mapped sb ip1 s1
                          (with_indirect-IsMapped sb ip s inv a s1 allocated none) bn far l nz),
                  )
            ]
      ]
]
