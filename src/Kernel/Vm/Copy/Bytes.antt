-- ===== src/Kernel/Vm/Copy/Bytes.antt =====
-- `copyin` of xv6-riscv/kernel/vm.c, byte by byte.
use aca_riscv_secure_boot.Common.{
  ℕ, zero, suc, ◌+◌, ◌-◌, ◌%◌, ◌≡◌, ◌≢◌, ◌<◌, ◌≤◌, ◌⊎◌, refl, ap, ◌∙◌, true, false, Bool-cases, inl,
  inr, arith, ltb, ◌==◌, none, some,
}
use aca_riscv_secure_boot.Common.Int.{ℤ, pos, negsuc}
use aca_riscv_secure_boot.Common.Memory.{Memory, within}
use aca_riscv_secure_boot.Boot.Strings.{memmove}
use aca_riscv_secure_boot.Boot.Strings.Copy.{memmove-copied}
use aca_riscv_secure_boot.Kernel.Outcome.{Outcome, ok}
use aca_riscv_secure_boot.Kernel.Kalloc.{Kmem}
use aca_riscv_secure_boot.Kernel.Vm.{round_down, walkaddr}
use aca_riscv_secure_boot.Kernel.Vm.Copy.{page_part, copyin, copyin_loop}
use aca_riscv_secure_boot.Kernel.Vm.Copy.Pages.{
  user_address, walkaddr-ok, user_address-zero, user_address-some, same_page, page_part-bounds,
}

-- Memory with other contents.
abbrev pub with_memory : Kmem → Memory → Kmem
with_memory s m = record s { memory = m }

module _ (pagetable dst srcva len : ℕ) (s : Kmem) where
  -- The two memories differ in the bytes at `dst` at most.
  abbrev pub SameOutside : Memory → Memory → Type 0
  SameOutside m m' = (x : ℕ) → within dst len x ≡ false → m x ≡ m' x

  -- No entry that translates one of the bytes lies among those at `dst`.
  abbrev pub IsSteady : Type 0
  IsSteady =
      (i : ℕ) (m : Memory)
      → i < len
      → SameOutside m s.memory
      → walkaddr pagetable (round_down (srcva + i)) (with_memory s m)
        ≡ walkaddr pagetable (round_down (srcva + i)) s

  -- None of the bytes of the user lies among those at `dst`.
  abbrev pub IsAway : Type 0
  IsAway =
      (i a : ℕ) → i < len → user_address pagetable (srcva + i) s ≡ some a → within dst len a ≡ false

  -- From byte `k` on, all are mapped and stand at `dst`.
  abbrev pub HasCopied : ℕ → Memory → Type 0
  HasCopied k m =
      (i : ℕ)
      → k ≤ i
      → i < len
      → (a : ℕ) × (user_address pagetable (srcva + i) s ≡ some a) × (m (dst + i) ≡ s.memory a)

  -- How the copy ends.
  abbrev pub CopiedIn : Outcome (ℤ × Kmem) → Type 0
  CopiedIn o =
      (m : Memory) × SameOutside m s.memory
      × ((HasCopied 0 m × (o ≡ ok (pos 0, with_memory s m)))
          ⊎ ((i : ℕ) × (i < len)
              × (user_address pagetable (srcva + i) s ≡ none)
              × (o ≡ ok (negsuc 0, with_memory s m))))

  -- The loop from byte `k` on, which leaves the bytes before it.
  abbrev Ends : ℕ → Memory → Outcome (ℤ × Kmem) → Type 0
  Ends k m0 o =
      (m : Memory) × SameOutside m s.memory
      × (((HasCopied k m × ((i : ℕ) → i < k → m (dst + i) ≡ m0 (dst + i)))
            × (o ≡ ok (pos 0, with_memory s m)))
          ⊎ ((i : ℕ) × (i < len)
              × (user_address pagetable (srcva + i) s ≡ none)
              × (o ≡ ok (negsuc 0, with_memory s m))))

  -- What the pass from byte `k` on has stored at byte `i`.
  pass-byte :
      (k n va pa i : ℕ) (m0 m : Memory)
      → IsAway
      → SameOutside m0 s.memory
      → va ≡ srcva + k
      → walkaddr pagetable (round_down va) s ≡ ok pa
      → (pa == 0) ≡ false
      → n ≤ 4096 - (va - round_down va)
      → k ≤ i
      → i < k + n
      → i < len
      → m (dst + i) ≡ memmove (dst + k) (pa + (va - round_down va)) n m0 (dst + i)
      → (a : ℕ) × (user_address pagetable (srcva + i) s ≡ some a) × (m (dst + i) ≡ s.memory a)
  pass-byte k n va pa i m0 m away same at found nz h p q r at_i =
      let here : srcva + i ≡ va + (i - k) = omega (arith, p, at) in
      let (page, offset) = same_page va (i - k) n (omega (arith, p, q)) h in
      let page_i : round_down (srcva + i) ≡ round_down va = rw here page in
      let offset_i : (srcva + i) % 4096 ≡ va - round_down va + (i - k) = rw here offset in
      let address =
        user_address-some pagetable (srcva + i) pa s
          (ap (λ x. walkaddr pagetable x s) page_i ∙ found) nz in
      let source : pa + (va - round_down va) + (dst + i - (dst + k)) ≡ pa + (srcva + i) % 4096 =
        omega (arith, offset_i, p) in
      let inside : within (dst + k) n (dst + i) ≡ true = ground (arith, p, q) in
      let stored : m (dst + i) ≡ m0 (pa + (srcva + i) % 4096) =
        at_i
        ∙ memmove-copied (dst + k) (pa + (va - round_down va)) n m0 (dst + i)
        ∙ rw (inside, source) refl in
      (pa + (srcva + i) % 4096, address, stored ∙ same _ (away i _ r address))

  copyin_loop-Ends :
      IsSteady
      → IsAway
      → (fuel k left va : ℕ) (m0 : Memory) → left ≤ fuel
      → k + left ≡ len
      → (left ≢ 0 → va ≡ srcva + k)
      → SameOutside m0 s.memory
      → Ends k m0 (copyin_loop fuel pagetable (dst + k) va left (with_memory s m0))
  unfolding copyin_loop
  copyin_loop-Ends steady away zero k left va m0 l e v same =
      (m0, same, inl ((λ i p q. absurd (omega (arith, l, e, p, q)), λ i p. refl), refl))
  copyin_loop-Ends steady away (suc fuel) k left va m0 l e v same = elim (Bool-cases (left == 0)) [
    | inl t ↦
        (m0, same, inl ((λ i p q. absurd (ground (arith, t, e, p, q)), λ i p. refl), rw t refl))
    | inr t ↦
        let at : va ≡ srcva + k = v (λ z. ground (arith, t, z)) in
        let below : k < len = ground (arith, t, e) in
        let (pa, found) = walkaddr-ok pagetable (round_down (srcva + k)) s in
        let found' : walkaddr pagetable (round_down va) (with_memory s m0) ≡ ok pa =
          rw at (steady k m0 below same ∙ found) in
        elim (Bool-cases (pa == 0)) [
          | inl z ↦
              let zero_ : pa ≡ 0 = ground (arith, z) in
              (
                m0,
                same,
                inr (
                  k,
                  below,
                  user_address-zero pagetable (srcva + k) s (found ∙ ap ok zero_),
                  rw (t, found', z) refl,
                ),
              )
          | inr nz ↦
              let n = page_part va left in
              let m1 = memmove (dst + k) (pa + (va - round_down va)) n m0 in
              let (positive, fits, in_page, next) =
                page_part-bounds va left (λ z. ground (arith, t, z)) in
              let same1 : SameOutside m1 s.memory = λ x o.
                (let outside : within (dst + k) n x ≡ false = ground (arith, o, fits, e) in
                  memmove-copied (dst + k) (pa + (va - round_down va)) n m0 x
                  ∙ rw outside (same x o)) in
              let assoc : dst + k + n ≡ dst + (k + n) = omega arith in
              let (m, out, end) =
                copyin_loop-Ends steady away fuel (k + n) (left - n) (round_down va + 4096) m1
                  (omega (arith, l, positive, fits)) (omega (arith, fits, e))
                  (λ z. ground (arith, z, next, at)) same1 in
              (
                m,
                out,
                elim end [
                  | inr (i, q, none_, o) ↦ inr (i, q, none_, rw (t, found', nz, assoc) o)
                  | inl ((has, before), o) ↦ inl (
                    (
                      λ i p q. elim (Bool-cases (ltb i (k + n))) [
                        | inl u ↦
                            pass-byte k n va pa i m0 m away same at (rw at found) nz in_page p
                              (ground (arith, u)) q (before i (ground (arith, u)))
                        | inr u ↦ has i (ground (arith, u)) q
                      ],
                      λ i p.
                          let outside : within (dst + k) n (dst + i) ≡ false = ground (arith, p) in
                          before i (omega (arith, p))
                          ∙ memmove-copied (dst + k) (pa + (va - round_down va)) n m0 (dst + i)
                          ∙ rw outside refl,
                    ),
                    rw (t, found', nz, assoc) o,
                  )
                ],
              )
        ]
  ]

  -- `copyin` copies through the page table. If the bytes at `dst` are no entries that translate the
  -- user's bytes and none of those bytes, it always ends: with 0 and all `len` bytes of the user at
  -- `dst`, across pages, or with -1 when one of the bytes is not mapped for the user. It changes no
  -- other byte.
  pub copyin-CopiedIn : IsSteady → IsAway → CopiedIn (copyin pagetable dst srcva len s)
  unfolding copyin
  copyin-CopiedIn steady away =
      let start : dst + 0 ≡ dst = omega arith in
      let (m, out, end) =
        copyin_loop-Ends steady away len 0 len srcva s.memory (omega arith) (omega arith)
          (λ z. omega arith) (λ x o. refl) in
      (
        m,
        out,
        elim end [
          | inl ((has, _), o) ↦ inl (has, rw start at o)
          | inr (i, l, none_, o) ↦ inr (i, l, none_, rw start at o)
        ],
      )
