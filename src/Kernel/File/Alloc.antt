-- ===== src/Kernel/File/Alloc.antt =====
-- `filealloc` of xv6-riscv/kernel/file.c.
use aca_riscv_secure_boot.Common.{
  ℕ, zero, suc, ◌+◌, ◌≡◌, ◌≢◌, ◌<◌, ◌≤◌, ◌⊎◌, refl, sym, Bool-cases, inl, inr, arith, ◌==◌, none,
  some, Option-cases,
}
use aca_riscv_secure_boot.Kernel.File.{File, Ftable, set_file, filealloc_loop, filealloc}

filealloc_loop-none :
    (left i : ℕ) (file : ℕ → File)
    → filealloc_loop left i file ≡ none
    → (j : ℕ) → i ≤ j
    → j < i + left
    → (file j).ref ≢ 0
unfolding filealloc_loop
filealloc_loop-none zero i file h j l l' = absurd (omega arith)
filealloc_loop-none (suc left) i file h j l l' = elim (Bool-cases ((file i).ref == 0)) [
  | inl t ↦ ground (arith, rw t at h)
  | inr t ↦ elim (Bool-cases (j == i)) [
    | inl u ↦ (let e : j ≡ i = ground arith in rw e (ground (arith, t)))
    | inr u ↦ filealloc_loop-none left (i + 1) file (rw t at h) j (ground arith) (omega arith)
  ]
]

filealloc_loop-some :
    (left i : ℕ) (file : ℕ → File) (k : ℕ)
    → filealloc_loop left i file ≡ some k
    → (i ≤ k) × (k < i + left) × ((file k).ref ≡ 0) × ((j : ℕ) → i ≤ j → j < k → (file j).ref ≢ 0)
unfolding filealloc_loop
filealloc_loop-some zero i file k h = ground (arith, h)
filealloc_loop-some (suc left) i file k h = elim (Bool-cases ((file i).ref == 0)) [
  | inl t ↦
      let e : i ≡ k = ground (arith, rw t at h) in
      (
        omega (arith, e),
        omega (arith, e),
        rw (sym e) (ground (arith, t)),
        λ j l l'. absurd (omega (arith, e)),
      )
  | inr t ↦
      let (l, l', z, first) = filealloc_loop-some left (i + 1) file k (rw t at h) in
      (
        omega (arith, l),
        omega (arith, l'),
        z,
        λ j m m'. elim (Bool-cases (j == i)) [
          | inl u ↦ (let e : j ≡ i = ground arith in rw e (ground (arith, t)))
          | inr u ↦ first j (ground arith) m'
        ],
      )
]

-- `filealloc` returns the first of the 100 entries whose count is 0 and sets the count to 1, with
-- every other entry as it was; or it returns none and changes nothing, and every entry is in use.
filealloc-first :
    (w : Ftable)
    → ((filealloc w ≡ (none, w)) × ((j : ℕ) → j < 100 → (w.file j).ref ≢ 0))
      ⊎ ((i : ℕ) × (w' : Ftable) × (filealloc w ≡ (some i, w'))
          × (i < 100)
          × ((w.file i).ref ≡ 0)
          × ((j : ℕ) → j < i → (w.file j).ref ≢ 0)
          × ((w'.file i).ref ≡ 1)
          × ((j : ℕ) → j ≢ i → w'.file j ≡ w.file j))
unfolding filealloc
filealloc-first w = elim (Option-cases (filealloc_loop 100 0 w.file)) [
  | inl e ↦
      inl (rw (filealloc, e) refl, λ j l. filealloc_loop-none 100 0 w.file e j (omega arith) l)
  | inr (i, e) ↦
      let (l, l', z, first) = filealloc_loop-some 100 0 w.file i e in
      inr (
        i,
        set_file i (record (w.file i) { ref = 1 }) w,
        rw (filealloc, e) refl,
        omega (arith, l'),
        z,
        λ j m. first j (omega arith) m,
        ground arith,
        λ j ne. ground arith,
      )
]
