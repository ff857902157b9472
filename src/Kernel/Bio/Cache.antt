-- ===== src/Kernel/Bio/Cache.antt =====
-- What the buffer cache of xv6-riscv/kernel/bio.c promises.
use aca_riscv_secure_boot.Common.{
  ℕ, ◌+◌, ◌≡◌, ◌≢◌, ◌<◌, ◌≤◌, ◌⊎◌, ◌↔◌, refl, ap, sym, subst, ◌∙◌, true, false, inl, inr, arith,
  ◌==◌, List, ◌∷◌, ◌++◌, length, member,
}
use aca_riscv_secure_boot.Common.Word.{u32}
use aca_riscv_secure_boot.Kernel.Outcome.{ok, panic}
use aca_riscv_secure_boot.Kernel.Bio.{Bcache, head, is_block, set_buf, bget_ref}
use aca_riscv_secure_boot.Kernel.Bio.Order.{
  rev, member-rev, member-middle, rev-middle, rev-rev, length-rev, walk-Leads,
}
use aca_riscv_secure_boot.Kernel.Bio.Links.{IsRing}

-- No two buffers are for one block of a device that is not 0.
abbrev pub IsUnique : Bcache → Type 0
IsUnique c =
    (a b : ℕ)
    → a < 30
    → b < 30
    → (c.buf a).dev ≢ 0
    → (c.buf a).dev ≡ (c.buf b).dev
    → (c.buf a).blockno ≡ (c.buf b).blockno
    → a ≡ b

-- The list runs through all buffers, the most recently used first; no two buffers are for one block
-- of a device, which are not 0; and a valid buffer that no one uses is as the disk.
pub record IsCache (order : List ℕ) (c : Bcache) : Type 0 where
  pub ring : IsRing order c.next c.prev
  pub all : (b : ℕ) → (member b order ≡ true) ↔ (b < 30)
  pub few : length order ≤ 30
  pub unique : IsUnique c
  pub known : (b : ℕ) → b < 30 → (c.buf b).valid ≡ true → (c.buf b).dev ≢ 0
  pub clean :
      (b : ℕ)
      → b < 30
      → (c.buf b).refcnt ≡ 0
      → (c.buf b).valid ≡ true
      → (c.buf b).data_at ≡ c.disk (c.buf b).dev (c.buf b).blockno

-- The buffer with one reference more, and a buffer taken for another block.
abbrev pub counted : ℕ → Bcache → Bcache
counted b c = set_buf b (record (c.buf b) { refcnt = u32 ((c.buf b).refcnt + 1) }) c

abbrev pub recycled : ℕ → ℕ → ℕ → Bcache → Bcache
recycled b dev blockno c =
    set_buf b (record (c.buf b) { dev = dev; blockno = blockno; valid = false; refcnt = 1 }) c

-- How `bget` ends: with the buffer of the block, with the least recently used of those that no one
-- uses, or in panic.
abbrev pub Got : ℕ → ℕ → List ℕ → Bcache → Type 0
Got dev blockno order c =
    ((b : ℕ) × (b < 30)
      × (is_block dev blockno (c.buf b) ≡ true)
      × (bget_ref dev blockno c ≡ ok (b, counted b c)))
    ⊎ (((x : ℕ) → x < 30 → is_block dev blockno (c.buf x) ≡ false)
        × (((us : List ℕ) × (b : ℕ) × (vs : List ℕ) × (order ≡ us ++ b ∷ vs)
              × (b < 30)
              × ((c.buf b).refcnt ≡ 0)
              × ((x : ℕ) → member x vs ≡ true → (c.buf x).refcnt ≢ 0)
              × (bget_ref dev blockno c ≡ ok (b, recycled b dev blockno c)))
            ⊎ (((x : ℕ) → x < 30 → (c.buf x).refcnt ≢ 0) × (bget_ref dev blockno c ≡ panic))))

-- The cache looks through all of its buffers. `bget` returns the buffer of the block if there is one;
-- if not, that buffer with no references behind which, in the order of use, all have some; and it
-- panics just when all buffers are in use and none is for the block.
pub bget_ref-Got :
    (dev blockno : ℕ) (order : List ℕ) (c : Bcache) → IsCache order c → Got dev blockno order c
unfolding bget_ref member
bget_ref-Got dev blockno order c inv =
    elim (walk-Leads c.next (λ b. is_block dev blockno (c.buf b)) 30 head order inv.ring.forward
      inv.ring.apart inv.few) [
        | inr (us, b, vs, e, r, t, _) ↦ inl (
          b,
          (inv.all b).0 (subst (λ l. member b l ≡ true) (sym e) (member-middle us b vs)),
          t,
          rw (bget_ref, r) refl,
        )
        | inl (r, none_) ↦
            elim (walk-Leads c.prev (λ b. (c.buf b).refcnt == 0) 30 head (rev order)
              inv.ring.backward (member-rev head order ∙ inv.ring.apart)
              (omega (arith, length-rev order, inv.few))) [
                | inr (us, b, vs, e, r', t, behind) ↦
                    let split : order ≡ rev vs ++ b ∷ rev us =
                      sym (rev-rev order) ∙ ap rev e ∙ rev-middle us b vs in
                    inr (
                      λ x l. none_ x ((inv.all x).1 l),
                      inl (
                        rev vs,
                        b,
                        rev us,
                        split,
                        (inv.all b).0 (
                            subst (λ l. member b l ≡ true) (sym split)
                              (member-middle (rev vs) b (rev us))),
                        ground (arith, t),
                        λ x q. ground (arith, behind x (sym (member-rev x us) ∙ q)),
                        rw (bget_ref, r, r') refl,
                      ),
                    )
                | inl (r', all_) ↦ inr (
                  λ x l. none_ x ((inv.all x).1 l),
                  inr (
                    λ x l. ground (arith, all_ x (member-rev x order ∙ (inv.all x).1 l)),
                    rw (bget_ref, r, r') refl,
                  ),
                )
              ]
      ]
