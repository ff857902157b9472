-- ===== src/Kernel/Fs/Inode/Logged.antt =====
-- Which blocks `balloc` and `bmap` of xv6-riscv/kernel/fs.c give to the log.
use aca_riscv_secure_boot.Common.{
  ℕ, zero, suc, ◌+◌, ◌-◌, ◌*◌, ◌/◌, ◌≡◌, ◌≢◌, ◌<◌, ◌≤◌, ◌⊎◌, refl, ◌∙◌, sym, true, Bool-cases,
  Option-cases, inl, inr, arith, ltb, ltb→lt, ==→ne, ◌==◌, ◌∷◌, member, member-cons,
}
use aca_riscv_secure_boot.Common.Cells.{read_le}
use aca_riscv_secure_boot.Kernel.Outcome.{ok}
use aca_riscv_secure_boot.Kernel.Fs.{
  Superblock, Disk, bitmap_block, find_free, take_block, bzero, balloc_loop, balloc,
}
use aca_riscv_secure_boot.Kernel.Fs.Inode.{
  Inode, bmap_slot, bmap_indirect, bmap, iupdate, inode_block,
}

module _ (sb : Superblock) (one_map : sb.size ≤ 8192) where
  -- Each block logged by a call that returned `a` is the block of the free map, or `a`.
  abbrev TakenLogs : Disk → ℕ × Disk → Type 0
  TakenLogs s r =
      (b : ℕ)
      → member b r.1.logged ≡ true
      → (member b s.logged ≡ true) ⊎ ((b ≡ sb.bmapstart) ⊎ (b ≡ r.0))

  balloc_loop-TakenLogs : (fuel b : ℕ) (s : Disk) → TakenLogs s (balloc_loop sb fuel b s)
  unfolding balloc_loop take_block bzero member
  balloc_loop-TakenLogs zero b s = λ x h. inl h
  balloc_loop-TakenLogs (suc fuel) b s = elim (Bool-cases (ltb b sb.size)) [
    | inr t ↦ rw t (λ x h. inl h)
    | inl t ↦ elim (Option-cases (find_free 8192 0 b sb.size (s.view (bitmap_block sb b)))) [
      | inl none_ ↦ rw (t, none_) (balloc_loop-TakenLogs fuel (b + 8192) s)
      | inr (bi, e) ↦
          let first : b / 8192 + sb.bmapstart ≡ sb.bmapstart = omega (arith, ltb→lt b sb.size t) in
          rw (t, e) (λ x h. ground (arith, h, first))
    ]
  ]

  balloc-TakenLogs : (s : Disk) → TakenLogs s (balloc sb s)
  unfolding balloc
  balloc-TakenLogs s = balloc_loop-TakenLogs (sb.size / 8192 + 1) 0 s

  -- Each block logged on the way to an inode and a disk is the block of the free map, block `a` or
  -- the indirect block, and this is no other than before if there was one.
  pub record MapLogs (ip : Inode) (s : Disk) (a : ℕ) (r : Inode × Disk) : Type 0 where
    pub logs :
        (b : ℕ)
        → member b r.1.logged ≡ true
        → (member b s.logged ≡ true)
          ⊎ ((b ≡ sb.bmapstart) ⊎ ((b ≡ a) ⊎ ((b ≡ r.0.addrs 12) × (r.0.addrs 12 ≢ 0))))
    pub indirect : ip.addrs 12 ≢ 0 → r.0.addrs 12 ≡ ip.addrs 12

  bmap_slot-MapLogs :
      (i : ℕ) (ip : Inode) (s : Disk) → let r = bmap_slot sb i (ip, s) in MapLogs ip s r.0 r.1
  unfolding bmap_slot member
  bmap_slot-MapLogs i ip s =
      let (addr, s') = balloc sb s in
      let taken : TakenLogs s (addr, s') = balloc-TakenLogs s in
      elim (Bool-cases (ip.addrs i == 0)) [
        | inr t ↦ rw t (record { logs = λ b h. inl h; indirect = λ h. refl })
        | inl t ↦ elim (Bool-cases (addr == 0)) [
          | inl u ↦
              rw (t, u) (record { logs = λ b h. ground (arith, taken b h); indirect = λ h. refl })
          | inr u ↦
              rw (t, u)
                (record {
                  logs = λ b h. ground (arith, taken b h);
                  indirect = λ h. ground (arith, t, h);
                })
        ]
      ]

  -- A slot that is filled holds what is returned.
  bmap_slot-here :
      (i : ℕ) (ip : Inode) (s : Disk)
      → let r = bmap_slot sb i (ip, s) in r.0 ≢ 0 → r.1.0.addrs i ≡ r.0
  unfolding bmap_slot
  bmap_slot-here i ip s =
      let (addr, s') = balloc sb s in
      elim (Bool-cases (ip.addrs i == 0)) [
        | inr t ↦ rw t (λ h. refl)
        | inl t ↦ elim (Bool-cases (addr == 0)) [
          | inl u ↦ rw (t, u) (λ h. absurd (h refl))
          | inr u ↦ rw (t, u) (λ h. ground arith)
        ]
      ]

  bmap_indirect-MapLogs :
      (ip : Inode) (s : Disk) (bp bn : ℕ)
      → ip.addrs 12 ≡ bp
      → bp ≢ 0
      → let r = bmap_indirect sb bp bn s in MapLogs ip s r.0 (ip, r.1)
  unfolding bmap_indirect
  bmap_indirect-MapLogs ip s bp bn e has =
      let (addr, s') = balloc sb s in
      let taken : TakenLogs s (addr, s') = balloc-TakenLogs s in
      elim (Bool-cases (read_le (s.view bp) (4 * bn) 4 == 0)) [
        | inr t ↦ rw t (record { logs = λ b h. inl h; indirect = λ h. refl })
        | inl t ↦ elim (Bool-cases (addr == 0)) [
          | inl u ↦
              rw (t, u) (record { logs = λ b h. ground (arith, taken b h); indirect = λ h. refl })
          | inr u ↦
              rw (t, u)
                (record {
                  logs = λ b h. elim (member-cons b bp s'.logged h) [
                    | inl q ↦ inr (inr (inr (q ∙ sym e, λ z. has (sym e ∙ z))))
                    | inr h' ↦ ground (arith, taken b h')
                  ];
                  indirect = λ h. refl;
                })
        ]
      ]

  MapLogs-trans :
      (ip ip' : Inode) (s s' s'' : Disk) (a a' : ℕ)
      → MapLogs ip s a (ip', s')
      → a ≡ ip'.addrs 12
      → a ≢ 0
      → MapLogs ip' s' a' (ip', s'')
      → MapLogs ip s a' (ip', s'')
  MapLogs-trans ip ip' s s' s'' a a' m e nz m' = record {
    logs = λ b h. elim (m'.logs b h) [
      | inr q ↦ inr q
      | inl h' ↦ elim (m.logs b h') [
        | inl q ↦ inl q
        | inr (inl q) ↦ inr (inl q)
        | inr (inr (inl q)) ↦ inr (inr (inr (q ∙ e, λ z. nz (e ∙ z))))
        | inr (inr (inr q)) ↦ inr (inr (inr q))
      ]
    ];
    indirect = m.indirect;
  }

  pub bmap-MapLogs :
      (bn : ℕ) (ip : Inode) (s : Disk)
      → bn < 268
      → (r : ℕ × (Inode × Disk)) × (bmap sb bn (ip, s) ≡ ok r) × MapLogs ip s r.0 r.1
  unfolding bmap
  bmap-MapLogs bn ip s l = elim (Bool-cases (ltb bn 12)) [
    | inl t ↦ (bmap_slot sb bn (ip, s), rw t refl, bmap_slot-MapLogs bn ip s)
    | inr t ↦
        let near : ltb (bn - 12) 256 ≡ true = ground (arith, t) in
        let (addr, (ip', s')) = bmap_slot sb 12 (ip, s) in
        let (entry, s'') = bmap_indirect sb addr (bn - 12) s' in
        let first : MapLogs ip s addr (ip', s') = bmap_slot-MapLogs 12 ip s in
        elim (Bool-cases (addr == 0)) [
          | inl u ↦ (
            (0, (ip', s')),
            rw (t, near, u) refl,
            record { logs = λ b h. ground (arith, first.logs b h, u); indirect = first.indirect },
          )
          | inr u ↦
              let nz = ==→ne addr 0 u in
              let here : ip'.addrs 12 ≡ addr = bmap_slot-here 12 ip s nz in
              (
                (entry, (ip', s'')),
                rw (t, near, u) refl,
                MapLogs-trans ip ip' s s' s'' addr entry first (sym here) nz
                    (bmap_indirect-MapLogs ip' s' addr (bn - 12) here nz),
              )
        ]
  ]

pub iupdate-logged :
    (sb : Superblock) (ip : Inode) (s : Disk)
    → (iupdate sb ip s).logged ≡ inode_block sb ip.inum ∷ s.logged
unfolding iupdate
iupdate-logged sb ip s = refl
