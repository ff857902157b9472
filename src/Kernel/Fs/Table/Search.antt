-- ===== src/Kernel/Fs/Table/Search.antt =====
-- `iget` of xv6-riscv/kernel/fs.c: the search of the table.
use aca_riscv_secure_boot.Common.{
  ℕ, zero, suc, ◌+◌, ◌≡◌, ◌≢◌, ◌<◌, ◌≤◌, ◌⊎◌, refl, subst, true, false, inl, inr, arith, ◌==◌,
  Option, none, some, Bool-cases,
}
use aca_riscv_secure_boot.Common.Word.{u32}
use aca_riscv_secure_boot.Kernel.Outcome.{ok, panic}
use aca_riscv_secure_boot.Kernel.Fs.Inode.{Inode}
use aca_riscv_secure_boot.Kernel.Fs.Table.{
  Itable, set_inode, Scan, present, absent, remember, is_inode, iget_loop, iget,
}

-- The empty entry that a scan of `left` entries from `i` on remembers, having had `empty`.
abbrev Remembered : (ℕ → Inode) → ℕ → ℕ → Option ℕ → Option ℕ → Type 0
Remembered inode i left empty none =
    (empty ≡ none) × ((j : ℕ) → i ≤ j → j < i + left → (inode j).ref ≢ 0)
Remembered inode i left empty (some j) =
    (empty ≡ some j) ⊎ ((i ≤ j) × (j < i + left) × ((inode j).ref ≡ 0))

abbrev Scanned : (ℕ → Inode) → ℕ → ℕ → ℕ → ℕ → Option ℕ → Scan → Type 0
Scanned inode dev inum i left empty (present j) =
    (i ≤ j) × (j < i + left) × (is_inode dev inum (inode j) ≡ true)
Scanned inode dev inum i left empty (absent e) =
    ((j : ℕ) → i ≤ j → j < i + left → is_inode dev inum (inode j) ≡ false)
    × Remembered inode i left empty e

-- From the entries behind the first to all of them.
from_second :
    (P : ℕ → Type 0) (i left : ℕ)
    → P i
    → ((j : ℕ) → i + 1 ≤ j → j < i + 1 + left → P j)
    → (j : ℕ) → i ≤ j
    → j < i + suc left
    → P j
from_second P i left p h j l l' = elim (Bool-cases (j == i)) [
  | inl t ↦ subst P (ground (arith, t)) p
  | inr t ↦ h j (ground (arith, t)) (omega arith)
]

module _ (inode : ℕ → Inode) (dev inum : ℕ) where
  Remembered-step :
      (i left : ℕ) (empty e : Option ℕ)
      → Remembered inode (i + 1) left (remember empty i (inode i).ref) e
      → Remembered inode i (suc left) empty e
  Remembered-step i left none none h = elim (Bool-cases ((inode i).ref == 0)) [
    | inl t ↦ ground (arith, (rw t at h).0)
    | inr t ↦ (refl, from_second (λ j. (inode j).ref ≢ 0) i left (ground (arith, t)) (rw t at h).1)
  ]
  Remembered-step i left none (some j) h = elim (Bool-cases ((inode i).ref == 0)) [
    | inr t ↦ elim (rw t at h) [
      | inl e ↦ ground (arith, e)
      | inr (l, l', e) ↦ inr (omega arith, omega arith, e)
    ]
    | inl t ↦ elim (rw t at h) [
      | inl e ↦
          let same : i ≡ j = ground (arith, e) in
          inr (
            omega (arith, same),
            omega (arith, same),
            subst (λ x. (inode x).ref ≡ 0) same (ground (arith, t)),
          )
      | inr (l, l', e) ↦ inr (omega arith, omega arith, e)
    ]
  ]
  Remembered-step i left (some x) none h = ground (arith, h.0)
  Remembered-step i left (some x) (some j) h = elim h [
    | inl e ↦ inl e
    | inr (l, l', e) ↦ inr (omega arith, omega arith, e)
  ]

  Scanned-step :
      (i left : ℕ) (empty : Option ℕ) (r : Scan)
      → is_inode dev inum (inode i) ≡ false
      → Scanned inode dev inum (i + 1) left (remember empty i (inode i).ref) r
      → Scanned inode dev inum i (suc left) empty r
  Scanned-step i left empty (present j) f h = (omega (arith, h.0), omega (arith, h.1), h.2)
  Scanned-step i left empty (absent e) f h = (
    from_second (λ j. is_inode dev inum (inode j) ≡ false) i left f h.0,
    Remembered-step i left empty e h.1,
  )

  iget_loop-Scanned :
      (left i : ℕ) (empty : Option ℕ)
      → Scanned inode dev inum i left empty (iget_loop left i dev inum empty inode)
  unfolding iget_loop
  iget_loop-Scanned zero i none =
      (λ j l l'. absurd (omega arith), (refl, λ j l l'. absurd (omega arith)))
  iget_loop-Scanned zero i (some x) = (λ j l l'. absurd (omega arith), inl refl)
  iget_loop-Scanned (suc left) i empty = elim (Bool-cases (is_inode dev inum (inode i))) [
    | inl t ↦ rw t (omega arith, omega arith, t)
    | inr t ↦ rw t (
        Scanned-step i left empty
          (iget_loop left (i + 1) dev inum (remember empty i (inode i).ref) inode) t
          (iget_loop-Scanned left (i + 1) (remember empty i (inode i).ref)))
  ]

-- How a call of `iget` ends.
abbrev pub Iget : ℕ → ℕ → Itable → Type 0
Iget dev inum t =
    ((i : ℕ) × (i < 50)
      × (is_inode dev inum (t.inode i) ≡ true)
      × (iget dev inum t
          ≡ ok (i, set_inode i (record (t.inode i) { ref = u32 ((t.inode i).ref + 1) }) t)))
    ⊎ (((j : ℕ) → j < 50 → is_inode dev inum (t.inode j) ≡ false)
        × (((i : ℕ) × (i < 50)
              × ((t.inode i).ref ≡ 0)
              × (iget dev inum t
                  ≡ ok (
                    i,
                    set_inode i
                        (record (t.inode i) { dev = dev; inum = inum; ref = 1; valid = false }) t,
                  )))
            ⊎ (((j : ℕ) → j < 50 → (t.inode j).ref ≢ 0) × (iget dev inum t ≡ panic))))

pub Iget-cases : (dev inum : ℕ) (t : Itable) → Iget dev inum t
unfolding iget
Iget-cases dev inum t =
    cases (iget_loop 50 0 dev inum none t.inode) (iget_loop-Scanned t.inode dev inum 50 0 none) refl
  where
    cases :
        (r : Scan)
        → Scanned t.inode dev inum 0 50 none r
        → (iget_loop 50 0 dev inum none t.inode ≡ r)
        → Iget dev inum t
    cases (present i) h e = inl (i, h.1, h.2, rw (iget, e) refl)
    cases (absent none) h e =
        inr (λ j l. h.0 j (omega arith) l, inr (λ j l. h.1.1 j (omega arith) l, rw (iget, e) refl))
    cases (absent (some i)) h e = elim h.1 [
      | inl q ↦ ground (arith, q)
      | inr (l, l', z) ↦
          inr (λ j l. h.0 j (omega arith) l, inl (i, omega arith, z, rw (iget, e) refl))
    ]
