-- ===== src/Kernel/Bio/Order.antt =====
-- Paths along a link of xv6-riscv/kernel/bio.c.
use aca_riscv_secure_boot.Common.{
  ℕ, zero, suc, ◌≡◌, ◌≢◌, ◌≤◌, ◌⊎◌, ◌↔◌, refl, ap, sym, subst, ◌∙◌, Bool, true, false, Bool-cases,
  inl, inr, arith, ◌==◌, if◌then◌else◌, List, [], ◌∷◌, ◌++◌, length, member, member-cons, none,
  some, ne→==, eq→==,
}
use aca_riscv_secure_boot.Kernel.Bio.{walk, head}
unfoldable pub use aca_riscv_secure_boot.Common.Reverse.{rev, Distinct, first_of, last_of}
pub use aca_riscv_secure_boot.Common.Reverse.{
  rev-append, member-append, member-rev, rev-middle, rev-rev, length-rev, member-middle,
  member-split, Distinct-append, Distinct-rev, first_of-rev, last_of-rev,
}

-- From `p` the link leads through the items of the list to `q`.
unfoldable pub Leads : (ℕ → ℕ) → ℕ → List ℕ → ℕ → Type 0
Leads f p [] q = f p ≡ q
Leads f p (x ∷ xs) q = (f p ≡ x) × Leads f x xs q

-- What a link leads through depends on the places it goes by.
pub Leads-ext :
    (f g : ℕ → ℕ) (p : ℕ) (xs : List ℕ) (q : ℕ)
    → f p ≡ g p
    → ((x : ℕ) → member x xs ≡ true → f x ≡ g x)
    → Leads f p xs q
    → Leads g p xs q
unfolding Leads member
Leads-ext f g p [] q e h l = sym e ∙ l
Leads-ext f g p (x ∷ xs) q e h (l, r) =
    (sym e ∙ l, Leads-ext f g x xs q (h x (ground arith)) (λ y m. h y (ground arith)) r)

pub Leads-from :
    (f g : ℕ → ℕ) (p p' : ℕ) (xs : List ℕ) (q : ℕ)
    → f p ≡ g p'
    → ((x : ℕ) → member x xs ≡ true → f x ≡ g x)
    → Leads f p xs q
    → Leads g p' xs q
unfolding Leads member
Leads-from f g p p' [] q e h l = sym e ∙ l
Leads-from f g p p' (x ∷ xs) q e h (l, r) =
    (sym e ∙ l, Leads-ext f g x xs q (h x (ground arith)) (λ y m. h y (ground arith)) r)

pub Leads-append :
    (f : ℕ → ℕ) (p : ℕ) (xs : List ℕ) (b : ℕ) (ys : List ℕ) (q : ℕ)
    → Leads f p (xs ++ b ∷ ys) q ↔ (Leads f p xs b × Leads f b ys q)
unfolding Leads
Leads-append f p [] b ys q = (λ l. l, λ l. l)
Leads-append f p (x ∷ xs) b ys q =
    let (to, from) = Leads-append f x xs b ys q in
    (λ (l, r). (let (r1, r2) = to r in ((l, r1), r2)), λ ((l, r1), r2). (l, from (r1, r2)))

pub Leads-first : (f : ℕ → ℕ) (p : ℕ) (xs : List ℕ) (q : ℕ) → Leads f p xs q → f p ≡ first_of xs q
unfolding Leads first_of
Leads-first f p [] q l = l
Leads-first f p (x ∷ xs) q l = l.0

pub last_of-member : (x : ℕ) (xs : List ℕ) → member (last_of xs x) (x ∷ xs) ≡ true
unfolding last_of member
last_of-member x [] = ground arith
last_of-member x (y ∷ xs) = ground (arith, last_of-member y xs)

not_last :
    (p x z : ℕ) (xs : List ℕ) → member p (x ∷ xs) ≡ false → last_of xs x ≡ z → (p == z) ≡ false
not_last p x z xs m e =
    ne→== p z (λ q.
      ground (arith, last_of-member x xs, subst (λ y. member y (x ∷ xs) ≡ false) (q ∙ sym e) m))

pub first_of_other : (xs : List ℕ) (p b : ℕ) → b ≢ p → member b xs ≡ false → b ≢ first_of xs p
unfolding first_of member
first_of_other [] p b n m = n
first_of_other (x ∷ xs) p b n m = λ e. ground arith

abbrev pub redirect : (ℕ → ℕ) → ℕ → ℕ → ℕ → ℕ
redirect f z v x = if x == z then v else f x

-- The link of the last place leads elsewhere.
pub Leads-redirect_last :
    (f : ℕ → ℕ) (p : ℕ) (xs : List ℕ) (q z v : ℕ)
    → last_of xs p ≡ z
    → member p xs ≡ false
    → Distinct xs
    → Leads f p xs q
    → Leads (redirect f z v) p xs v
unfolding Leads last_of member Distinct
Leads-redirect_last f p [] q z v e m d l = rw (eq→== p z e) refl
Leads-redirect_last f p (x ∷ xs) q z v e m d l =
    (rw (not_last p x z xs m e) l.0, Leads-redirect_last f x xs q z v e d.0 d.1 l.1)

-- A place is left out.
pub Leads-bypass :
    (f : ℕ → ℕ) (p : ℕ) (xs : List ℕ) (b : ℕ) (ys : List ℕ) (q z : ℕ)
    → last_of xs p ≡ z
    → member p xs ≡ false
    → Distinct xs
    → ((y : ℕ) → member y ys ≡ true → y ≢ z)
    → Leads f p xs b
    → Leads f b ys q
    → Leads (redirect f z (f b)) p (xs ++ ys) q
unfolding Leads last_of member Distinct
Leads-bypass f p [] b [] q z e m d n l r = rw (eq→== p z e) r
Leads-bypass f p [] b (y ∷ ys) q z e m d n l r = (
  rw (eq→== p z e) r.0,
  Leads-ext f (redirect f z (f b)) y ys q (rw (ne→== y z (n y (ground arith))) refl)
      (λ x m'. rw (ne→== x z (n x (ground arith))) refl) r.1,
)
Leads-bypass f p (x ∷ xs) b ys q z e m d n l r =
    (rw (not_last p x z xs m e) l.0, Leads-bypass f x xs b ys q z e d.0 d.1 n l.1 r)

-- A loop along the link stops at the first place that passes the test.
pub walk-Leads :
    (f : ℕ → ℕ) (test : ℕ → Bool) (left p : ℕ) (xs : List ℕ)
    → Leads f p xs head
    → member head xs ≡ false
    → length xs ≤ left
    → ((walk f test left p ≡ none) × ((x : ℕ) → member x xs ≡ true → test x ≡ false))
      ⊎ ((us : List ℕ) × (b : ℕ) × (vs : List ℕ) × (xs ≡ us ++ b ∷ vs)
          × (walk f test left p ≡ some b)
          × (test b ≡ true)
          × ((x : ℕ) → member x us ≡ true → test x ≡ false))
unfolding walk Leads member
walk-Leads f test zero p [] l m h = inl (refl, λ x q. ground (arith, q))
walk-Leads f test zero p (x ∷ xs) l m h = absurd (omega arith)
walk-Leads f test (suc left) p [] l m h = inl (rw (eq→== (f p) 30 l) refl, λ x q. ground (arith, q))
walk-Leads f test (suc left) p (x ∷ xs) (e, l) m h =
    let inner : (x == 30) ≡ false = ground arith in
    elim (Bool-cases (test x)) [
      | inl t ↦ inr ([], x, xs, refl, rw (e, inner, t) refl, t, λ y q. ground (arith, q))
      | inr t ↦ elim (walk-Leads f test left x xs l (ground arith) (omega arith)) [
        | inl (r, none_) ↦ inl (
          rw (e, inner, t) r,
          λ y q. elim (member-cons y x xs q) [
            | inl e' ↦ subst (λ z. test z ≡ false) (sym e') t
            | inr q' ↦ none_ y q'
          ],
        )
        | inr (us, b, vs, same, r, t', none_) ↦ inr (
          x ∷ us,
          b,
          vs,
          ap (λ zs. x ∷ zs) same,
          rw (e, inner, t) r,
          t',
          λ y q. elim (member-cons y x us q) [
            | inl e' ↦ subst (λ z. test z ≡ false) (sym e') t
            | inr q' ↦ none_ y q'
          ],
        )
      ]
    ]
