-- ===== src/Kernel/Fs/Inode/Identity.antt =====
-- The functions on inodes of xv6-riscv/kernel/fs.c leave alone which inode an entry of the table is.
use aca_riscv_secure_boot.Common.{
  ℕ, zero, suc, ◌+◌, ◌≡◌, refl, ap, ◌∙◌, sym, inl, inr, ◌==◌, Bool-cases,
}
use aca_riscv_secure_boot.Kernel.Outcome.{ok, bind_ok, ok-injective}
use aca_riscv_secure_boot.Kernel.Fs.{Superblock, Disk, bfree}
use aca_riscv_secure_boot.Kernel.Fs.Inode.{
  Inode, set_addr, itrunc, free_direct, free_entries, load_inode, load_dinode, nindirect,
}

-- Which inode an entry is, and how many references there are.
abbrev pub identity : Inode → ℕ × ℕ × ℕ
identity ip = (ip.dev, ip.inum, ip.ref)

module _ (sb : Superblock) where
  pub load_inode-identity : (ip : Inode) (s : Disk) → identity (load_inode sb ip s) ≡ identity ip
  unfolding load_inode load_dinode
  load_inode-identity ip s = refl

  free_direct-identity :
      (left i : ℕ) (ip : Inode) (s : Disk) (r : Inode × Disk)
      → free_direct sb left i (ip, s) ≡ ok r
      → identity r.0 ≡ identity ip
  unfolding free_direct
  free_direct-identity zero i ip s r h = ap (λ x. identity x.0) (sym (ok-injective h))
  free_direct-identity (suc left) i ip s r h = elim (Bool-cases (ip.addrs i == 0)) [
    | inl t ↦ free_direct-identity left (i + 1) ip s r (rw t at h)
    | inr t ↦
        let (s', ran, rest) = bind_ok (bfree sb (ip.addrs i) s) _ r (rw t at h) in
        free_direct-identity left (i + 1) (set_addr i 0 ip) s' r rest
  ]

  pub itrunc-identity :
      (ip : Inode) (s : Disk) (r : Inode × Disk)
      → itrunc sb (ip, s) ≡ ok r
      → identity r.0 ≡ identity ip
  unfolding itrunc
  itrunc-identity ip s r h =
      let ((ip1, s1), ran, rest) = bind_ok (free_direct sb 12 0 (ip, s)) _ r h in
      elim (Bool-cases (ip1.addrs 12 == 0)) [
        | inl t ↦
            ap (λ x. identity x.0) (sym (ok-injective (rw t at rest)))
            ∙ free_direct-identity 12 0 ip s (ip1, s1) ran
        | inr t ↦
            let ((ip2, s2), ran2, last) = bind_ok _ _ r (rw t at rest) in
            let (s', ran3, rest3) =
              bind_ok (free_entries sb nindirect 0 (ip1.addrs 12) s1) _ (ip2, s2) ran2 in
            let (s'', ran4, rest4) = bind_ok (bfree sb (ip1.addrs 12) s') _ (ip2, s2) rest3 in
            ap (λ x. identity x.0) (sym (ok-injective last))
            ∙ ap (λ x. identity x.0) (sym (ok-injective rest4))
            ∙ free_direct-identity 12 0 ip s (ip1, s1) ran
      ]
