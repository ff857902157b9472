-- ===== src/Kernel/Fs/Inode/Update.antt =====
-- An inode on disk: `iupdate` and the reading part of `ilock` of xv6-riscv/kernel/fs.c.
use aca_riscv_secure_boot.Common.{
  ℕ, zero, suc, ◌+◌, ◌*◌, ◌^◌, ◌≡◌, ◌<◌, ◌≤◌, refl, ap, ◌∙◌, fun_ext, true, Bool-cases, inl, inr,
  arith, ltb, ltb→lt, eq→==, ap₂, ◌==◌, if◌then◌else◌,
}
use aca_riscv_secure_boot.Common.Memory.{Memory, Apart}
use aca_riscv_secure_boot.Common.Cells.{read_le, store_le, read_le-store_le, read_le-store_le-Apart}
use aca_riscv_secure_boot.Kernel.Fs.{Superblock, Disk}
use aca_riscv_secure_boot.Kernel.Fs.Inode.{
  Inode, store_addrs, store_dinode, dinode_at, inode_block, iupdate, load_dinode, load_inode,
}

-- The fields fit their types.
pub record IsInode (ip : Inode) : Type 0 where
  pub type_small : ip.type < 2 ^ 16
  pub major_small : ip.major < 2 ^ 16
  pub minor_small : ip.minor < 2 ^ 16
  pub nlink_small : ip.nlink < 2 ^ 16
  pub size_small : ip.size < 2 ^ 32
  pub addrs_small : (i : ℕ) → ip.addrs i < 2 ^ 32

store_addrs-Apart :
    (left i a : ℕ) (addrs : ℕ → ℕ) (m : Memory) (b k : ℕ)
    → Apart b k (a + 4 * i) (4 * left)
    → read_le (store_addrs left i a addrs m) b k ≡ read_le m b k
unfolding store_addrs
store_addrs-Apart zero i a addrs m b k h = refl
store_addrs-Apart (suc left) i a addrs m b k h =
    store_addrs-Apart left (i + 1) a addrs (store_le 4 (a + 4 * i) (addrs i) m) b k (ground arith)
    ∙ read_le-store_le-Apart k b 4 (a + 4 * i) (addrs i) m (ground arith)

store_addrs-read :
    (left i a : ℕ) (addrs : ℕ → ℕ) (m : Memory) (j : ℕ)
    → ((x : ℕ) → addrs x < 2 ^ 32)
    → i ≤ j
    → j < i + left
    → read_le (store_addrs left i a addrs m) (a + 4 * j) 4 ≡ addrs j
unfolding store_addrs
store_addrs-read zero i a addrs m j small l l' = absurd (omega arith)
store_addrs-read (suc left) i a addrs m j small l l' = elim (Bool-cases (j == i)) [
  | inl t ↦
      let e : j ≡ i = ground arith in
      rw e (
        store_addrs-Apart left (i + 1) a addrs (store_le 4 (a + 4 * i) (addrs i) m) (a + 4 * i) 4
          (inl (omega arith))
        ∙ read_le-store_le 4 (a + 4 * i) (addrs i) m (small i))
  | inr t ↦
      store_addrs-read left (i + 1) a addrs (store_le 4 (a + 4 * i) (addrs i) m) j small
        (ground arith) (omega arith)
]

-- `store_dinode` writes the 64 bytes from `a` on, and no other.
store_dinode-Apart :
    (ip : Inode) (a : ℕ) (m : Memory) (b k : ℕ)
    → Apart b k a 64
    → read_le (store_dinode ip a m) b k ≡ read_le m b k
unfolding store_dinode
store_dinode-Apart ip a m b k h =
    store_addrs-Apart 13 0 (a + 12) ip.addrs _ b k (ground arith)
    ∙ read_le-store_le-Apart k b 4 (a + 8) ip.size _ (ground arith)
    ∙ read_le-store_le-Apart k b 2 (a + 6) ip.nlink _ (ground arith)
    ∙ read_le-store_le-Apart k b 2 (a + 4) ip.minor _ (ground arith)
    ∙ read_le-store_le-Apart k b 2 (a + 2) ip.major _ (ground arith)
    ∙ read_le-store_le-Apart k b 2 a ip.type m (ground arith)

module _ (ip : Inode) (fits : IsInode ip) (a : ℕ) (m : Memory) where
  read_type : read_le (store_dinode ip a m) a 2 ≡ ip.type
  unfolding store_dinode
  read_type =
      store_addrs-Apart 13 0 (a + 12) ip.addrs _ a 2 (inl (omega arith))
      ∙ read_le-store_le-Apart 2 a 4 (a + 8) ip.size _ (inl (omega arith))
      ∙ read_le-store_le-Apart 2 a 2 (a + 6) ip.nlink _ (inl (omega arith))
      ∙ read_le-store_le-Apart 2 a 2 (a + 4) ip.minor _ (inl (omega arith))
      ∙ read_le-store_le-Apart 2 a 2 (a + 2) ip.major _ (inl (omega arith))
      ∙ read_le-store_le 2 a ip.type m fits.type_small

  read_major : read_le (store_dinode ip a m) (a + 2) 2 ≡ ip.major
  unfolding store_dinode
  read_major =
      store_addrs-Apart 13 0 (a + 12) ip.addrs _ (a + 2) 2 (inl (omega arith))
      ∙ read_le-store_le-Apart 2 (a + 2) 4 (a + 8) ip.size _ (inl (omega arith))
      ∙ read_le-store_le-Apart 2 (a + 2) 2 (a + 6) ip.nlink _ (inl (omega arith))
      ∙ read_le-store_le-Apart 2 (a + 2) 2 (a + 4) ip.minor _ (inl (omega arith))
      ∙ read_le-store_le 2 (a + 2) ip.major _ fits.major_small

  read_minor : read_le (store_dinode ip a m) (a + 4) 2 ≡ ip.minor
  unfolding store_dinode
  read_minor =
      store_addrs-Apart 13 0 (a + 12) ip.addrs _ (a + 4) 2 (inl (omega arith))
      ∙ read_le-store_le-Apart 2 (a + 4) 4 (a + 8) ip.size _ (inl (omega arith))
      ∙ read_le-store_le-Apart 2 (a + 4) 2 (a + 6) ip.nlink _ (inl (omega arith))
      ∙ read_le-store_le 2 (a + 4) ip.minor _ fits.minor_small

  read_nlink : read_le (store_dinode ip a m) (a + 6) 2 ≡ ip.nlink
  unfolding store_dinode
  read_nlink =
      store_addrs-Apart 13 0 (a + 12) ip.addrs _ (a + 6) 2 (inl (omega arith))
      ∙ read_le-store_le-Apart 2 (a + 6) 4 (a + 8) ip.size _ (inl (omega arith))
      ∙ read_le-store_le 2 (a + 6) ip.nlink _ fits.nlink_small

  read_size : read_le (store_dinode ip a m) (a + 8) 4 ≡ ip.size
  unfolding store_dinode
  read_size =
      store_addrs-Apart 13 0 (a + 12) ip.addrs _ (a + 8) 4 (inl (omega arith))
      ∙ read_le-store_le 4 (a + 8) ip.size _ fits.size_small

  read_addr : (i : ℕ) → i < 13 → read_le (store_dinode ip a m) (a + 12 + 4 * i) 4 ≡ ip.addrs i
  unfolding store_dinode
  read_addr i h =
      store_addrs-read 13 0 (a + 12) ip.addrs _ i fits.addrs_small (omega arith) (omega arith)

-- The fields of `q` that come from disk, taken from `ip`.
abbrev pub with_fields : Inode → Inode → Inode
with_fields ip q = record q {
  valid = true;
  type = ip.type;
  major = ip.major;
  minor = ip.minor;
  nlink = ip.nlink;
  size = ip.size;
  addrs = λ i. if ltb i 13 then ip.addrs i else q.addrs i;
}

with_addrs : Inode → Inode → (ℕ → ℕ) → Inode
with_addrs ip q addrs = record (with_fields ip q) { addrs = addrs }

load_dinode-store_dinode :
    (ip q : Inode) (a : ℕ) (m : Memory)
    → IsInode ip
    → load_dinode q (store_dinode ip a m) a ≡ with_fields ip q
unfolding load_dinode
load_dinode-store_dinode ip q a m fits =
    rw
      (
        read_type ip fits a m,
        read_major ip fits a m,
        read_minor ip fits a m,
        read_nlink ip fits a m,
        read_size ip fits a m,
      )
      (unfold with_addrs in
        ap (with_addrs ip q) (
          fun_ext (λ i. elim (Bool-cases (ltb i 13)) [
            | inl t ↦ rw t (read_addr ip fits a m i (ltb→lt _ _ t))
            | inr t ↦ rw t refl
          ])))

load_dinode_ext :
    (q : Inode) (a : ℕ) (d d' : Memory)
    → ((b k : ℕ) → a ≤ b → b + k ≤ a + 64 → read_le d b k ≡ read_le d' b k)
    → load_dinode q d a ≡ load_dinode q d' a
unfolding load_dinode
load_dinode_ext q a d d' h =
    rw
      (
        h a 2 (omega arith) (omega arith),
        h (a + 2) 2 (omega arith) (omega arith),
        h (a + 4) 2 (omega arith) (omega arith),
        h (a + 6) 2 (omega arith) (omega arith),
        h (a + 8) 4 (omega arith) (omega arith),
      )
      (ap (λ (f : ℕ → ℕ). record (load_dinode q d' a) { addrs = f })
        (fun_ext (λ i. elim (Bool-cases (ltb i 13)) [
          | inl t ↦ rw t (h (a + 12 + 4 * i) 4 (omega arith) (omega (arith, ltb→lt _ _ t)))
          | inr t ↦ rw t refl
        ])))

-- An inode survives the disk. What `iupdate` wrote, the reading part of `ilock` reads back, into
-- any entry of the table with its number; an inode with another number reads as before.
pub load_inode-iupdate :
    (sb : Superblock) (ip q : Inode) (s : Disk)
    → IsInode ip
    → load_inode sb q (iupdate sb ip s)
      ≡ (if q.inum == ip.inum then with_fields ip q else load_inode sb q s)
unfolding load_inode iupdate
load_inode-iupdate sb ip q s fits = elim (Bool-cases (q.inum == ip.inum)) [
  | inl t ↦
      let e : q.inum ≡ ip.inum = ground arith in
      let block : (iupdate sb ip s).view (inode_block sb q.inum)
          ≡ store_dinode ip (dinode_at ip.inum) (s.view (inode_block sb ip.inum)) =
        ap (iupdate sb ip s).view (ap (inode_block sb) e)
        ∙ rw (eq→== (inode_block sb ip.inum) _ refl) refl in
      rw t (
        ap₂ (load_dinode q) block (ap dinode_at e)
        ∙ load_dinode-store_dinode ip q (dinode_at ip.inum) (s.view (inode_block sb ip.inum)) fits)
  | inr t ↦ rw t (
      load_dinode_ext q (dinode_at q.inum) ((iupdate sb ip s).view (inode_block sb q.inum))
        (s.view (inode_block sb q.inum))
        (λ b k l h. elim (Bool-cases (inode_block sb q.inum == inode_block sb ip.inum)) [
          | inr u ↦ rw u refl
          | inl u ↦
              let e : inode_block sb ip.inum ≡ inode_block sb q.inum = ground arith in
              rw (u, e)
                (store_dinode-Apart ip (dinode_at ip.inum) (s.view (inode_block sb q.inum)) b k
                  (ground (arith, t)))
        ]))
]
