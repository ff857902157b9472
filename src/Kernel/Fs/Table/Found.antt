-- ===== src/Kernel/Fs/Table/Found.antt =====
-- What `iget` of xv6-riscv/kernel/fs.c gives a caller.
use aca_riscv_secure_boot.Common.{ℕ, ◌+◌, ◌≡◌, ◌<◌, ◌⊎◌, refl, inl, inr, arith, true}
use aca_riscv_secure_boot.Common.Word.{u32}
use aca_riscv_secure_boot.Kernel.Outcome.{ok, panic}
use aca_riscv_secure_boot.Kernel.Fs.Inode.{Inode}
use aca_riscv_secure_boot.Kernel.Fs.Table.{Itable, is_inode, iget}
use aca_riscv_secure_boot.Kernel.Fs.Table.Search.{Iget-cases}
use aca_riscv_secure_boot.Kernel.Fs.Table.Refs.{IsTable, set_inode-same}

abbrev pub IsOf : ℕ → ℕ → Inode → Type 0
IsOf dev inum ip = (ip.dev ≡ dev) × (ip.inum ≡ inum)

-- Entry `i` is the inode now, the only one held that was; those held are what they were.
pub record Found (dev inum : ℕ) (held : ℕ → ℕ) (t : Itable) (i : ℕ) (t' : Itable) : Type 0 where
  pub ran : iget dev inum t ≡ ok (i, t')
  pub inside : i < 50
  pub here : IsOf dev inum (t'.inode i)
  pub only : (x : ℕ) → 0 < held x → IsOf dev inum (t.inode x) → x ≡ i
  pub kept : (x : ℕ) → 0 < held x → IsOf (t.inode x).dev (t.inode x).inum (t'.inode x)

module _ (dev inum : ℕ) (held : ℕ → ℕ) (t : Itable) (inv : IsTable held t) where
  live : (x : ℕ) → 0 < held x → IsOf dev inum (t.inode x) → is_inode dev inum (t.inode x) ≡ true
  live x l (e, e') = ground (arith, inv.counted x, inv.small x)

-- The inode of a number. If the counts are right, `iget` returns an entry of the table that is the
-- inode asked for, the one that is held if there is one, and no entry that is held becomes another
-- inode; or it panics, and then all 50 entries are held and none of them is that inode.
pub iget-Found :
    (dev inum : ℕ) (held : ℕ → ℕ) (t : Itable)
    → IsTable held t
    → ((i : ℕ) × (t' : Itable) × Found dev inum held t i t')
      ⊎ ((iget dev inum t ≡ panic)
          × ((j : ℕ) → j < 50 → (0 < held j) × (IsOf dev inum (t.inode j) → ⊥)))
iget-Found dev inum held t inv = elim (Iget-cases dev inum t) [
  | inl (i, l, is, e) ↦ inl (
    i,
    _,
    record {
      ran = e;
      inside = l;
      here = ground (arith, is);
      only = λ x p q.
          inv.unique x i p (ground (arith, is, inv.counted i)) (ground (arith, is, q.0))
            (ground (arith, is, q.1));
      kept = λ x p.
          let counted = record (t.inode i) { ref = u32 ((t.inode i).ref + 1) } in
          (
            set_inode-same (λ ip. ip.dev) i counted t x refl,
            set_inode-same (λ ip. ip.inum) i counted t x refl,
          );
    },
  )
  | inr (none_, inl (i, l, z, e)) ↦ inl (
    i,
    _,
    record {
      ran = e;
      inside = l;
      here = ground arith;
      only = λ x p q. ground (arith, none_ x (inv.inside x p), live dev inum held t inv x p q);
      kept = λ x p. ground (arith, z, inv.counted i);
    },
  )
  | inr (none_, inr (full, e)) ↦ inr (
    e,
    λ j l. (
      ground (arith, full j l, inv.counted j),
      λ q. ground (
        arith,
        none_ j l,
        live dev inum held t inv j (ground (arith, full j l, inv.counted j)) q,
      ),
    ),
  )
]
