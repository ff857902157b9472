-- ===== src/Kernel/Fs/Inode/Map.antt =====
-- `bmap` of xv6-riscv/kernel/fs.c: from the blocks of a file to the blocks of the disk.
use aca_riscv_secure_boot.Common.{
  ℕ, ◌-◌, ◌*◌, ◌^◌, ◌≡◌, ◌≢◌, ◌<◌, true, false, ltb, ◌==◌, if◌then◌else◌,
}
use aca_riscv_secure_boot.Common.Cells.{read_le}
use aca_riscv_secure_boot.Kernel.Fs.{Superblock, Disk, bitmap_block}
use aca_riscv_secure_boot.Kernel.Fs.Bitmap.{is_used, IsDisk}
use aca_riscv_secure_boot.Kernel.Fs.Inode.{Inode}

-- Where block `k` of the file is, or 0.
unfoldable pub address : Inode → Disk → ℕ → ℕ
address ip s k =
    if ltb k 12
    then ip.addrs k
    else if ip.addrs 12 == 0
    then 0
    else read_le (s.view (ip.addrs 12)) (4 * (k - 12)) 4

-- The indirect block, if there is one, is in use and not of the free map. Nor is block 0 ever free.
pub record IsMapped (sb : Superblock) (ip : Inode) (s : Disk) : Type 0 where
  pub disk : IsDisk sb s
  pub small : sb.size < 2 ^ 32
  pub boot_used : is_used sb s 0 ≡ true
  pub indirect_small : ip.addrs 12 ≢ 0 → ip.addrs 12 < sb.size
  pub indirect_used : ip.addrs 12 ≢ 0 → is_used sb s (ip.addrs 12) ≡ true
  pub indirect_apart : ip.addrs 12 ≢ 0 → (k : ℕ) → k < sb.size → bitmap_block sb k ≢ ip.addrs 12

-- What `bmap` of block `bn` left, and the address it returned.
pub record Mapped (sb : Superblock) (ip : Inode) (s : Disk) (bn : ℕ) (r : ℕ × (Inode × Disk))
    : Type 0 where
  pub sound : IsMapped sb r.1.0 r.1.1
  pub here : address r.1.0 r.1.1 bn ≡ r.0
  pub others : (k : ℕ) → k < 268 → k ≢ bn → address r.1.0 r.1.1 k ≡ address ip s k
  pub found : address ip s bn ≢ 0 → r ≡ (address ip s bn, (ip, s))
  pub fresh : address ip s bn ≡ 0 → r.0 ≢ 0 → (is_used sb s r.0 ≡ false) × (r.0 < sb.size)
