-- ===== src/Common/Reverse.antt =====
-- Lists backwards, their ends, and lists without repetition.
use aca_riscv_secure_boot.Common.{
  ℕ, ◌≡◌, ◌↔◌, refl, ap, sym, subst, ◌∙◌, true, false, ◌||◌, inl, inr, arith, List, [], ◌∷◌, ◌++◌,
  length, length-append, member, member-cons, append_assoc, append-nil,
}

unfoldable pub rev : List ℕ → List ℕ
rev [] = []
rev (x ∷ xs) = rev xs ++ x ∷ []

pub rev-append : (xs ys : List ℕ) → rev (xs ++ ys) ≡ rev ys ++ rev xs
unfolding rev
rev-append [] ys = sym (append-nil (rev ys))
rev-append (x ∷ xs) ys =
    ap (λ zs. zs ++ x ∷ []) (rev-append xs ys) ∙ append_assoc (rev ys) (rev xs) (x ∷ [])

pub member-append : (x : ℕ) (xs ys : List ℕ) → member x (xs ++ ys) ≡ (member x xs || member x ys)
unfolding member
member-append x [] ys = refl
member-append x (y ∷ xs) ys = ground (arith, member-append x xs ys)

pub member-rev : (x : ℕ) (xs : List ℕ) → member x (rev xs) ≡ member x xs
unfolding member rev
member-rev x [] = refl
member-rev x (y ∷ xs) = ground (arith, member-append x (rev xs) (y ∷ []), member-rev x xs)

pub rev-middle : (xs : List ℕ) (b : ℕ) (ys : List ℕ) → rev (xs ++ b ∷ ys) ≡ rev ys ++ b ∷ rev xs
unfolding rev
rev-middle xs b ys = rev-append xs (b ∷ ys) ∙ append_assoc (rev ys) (b ∷ []) (rev xs)

pub rev-rev : (xs : List ℕ) → rev (rev xs) ≡ xs
unfolding rev
rev-rev [] = refl
rev-rev (x ∷ xs) = rev-append (rev xs) (x ∷ []) ∙ ap (λ zs. x ∷ zs) (rev-rev xs)

pub length-rev : (xs : List ℕ) → length (rev xs) ≡ length xs
unfolding rev
length-rev [] = refl
length-rev (x ∷ xs) = omega (arith, length-append (rev xs) (x ∷ []), length-rev xs)

pub member-middle : (xs : List ℕ) (b : ℕ) (ys : List ℕ) → member b (xs ++ b ∷ ys) ≡ true
unfolding member
member-middle xs b ys = ground (arith, member-append b xs (b ∷ ys))

pub member-split :
    (b : ℕ) (xs : List ℕ) → member b xs ≡ true → (us : List ℕ) × (vs : List ℕ) × (xs ≡ us ++ b ∷ vs)
unfolding member
member-split b [] h = ground (arith, h)
member-split b (x ∷ xs) h = elim (member-cons b x xs h) [
  | inl e ↦ ([], xs, ap (λ y. y ∷ xs) (sym e))
  | inr h' ↦ (let (us, vs, e) = member-split b xs h' in (x ∷ us, vs, ap (λ zs. x ∷ zs) e))
]

unfoldable pub Distinct : List ℕ → Type 0
Distinct [] = ◌≡◌ {A = ℕ} 0 0
Distinct (x ∷ xs) = (member x xs ≡ false) × Distinct xs

pub Distinct-append :
    (xs ys : List ℕ)
    → Distinct (xs ++ ys)
      ↔ (Distinct xs × Distinct ys × ((x : ℕ) → member x xs ≡ true → member x ys ≡ false))
unfolding Distinct member
Distinct-append [] ys = (λ d. (refl, d, λ x m. ground (arith, m)), λ d. d.1)
Distinct-append (y ∷ xs) ys =
    let (to, from) = Distinct-append xs ys in
    (
      λ (m, d).
          let (d1, d2, apart) = to d in
          (
            (ground (arith, m, member-append y xs ys), d1),
            d2,
            λ x q. elim (member-cons x y xs q) [
              | inl e ↦
                  subst (λ z. member z ys ≡ false) (sym e)
                    (ground (arith, m, member-append y xs ys))
              | inr q' ↦ apart x q'
            ],
          ),
      λ ((m, d1), d2, apart). (
        ground (arith, m, member-append y xs ys, apart y),
        from (d1, d2, λ x q. apart x (ground arith)),
      ),
    )

pub Distinct-rev : (xs : List ℕ) → Distinct xs → Distinct (rev xs)
unfolding Distinct rev member
Distinct-rev [] d = refl
Distinct-rev (x ∷ xs) (m, d) =
    (Distinct-append (rev xs) (x ∷ [])).1
      (Distinct-rev xs d, (refl, refl), λ y q. ground (arith, member-rev y xs, q, m))

-- The first of a list and the last, or `p` of an empty one.
unfoldable pub first_of : List ℕ → ℕ → ℕ
first_of [] p = p
first_of (x ∷ xs) p = x

unfoldable pub last_of : List ℕ → ℕ → ℕ
last_of [] p = p
last_of (x ∷ xs) p = last_of xs x

first_of-append : (xs : List ℕ) (x p : ℕ) → first_of (xs ++ x ∷ []) p ≡ first_of xs x
unfolding first_of
first_of-append [] x p = refl
first_of-append (y ∷ xs) x p = refl

last_of-append : (xs : List ℕ) (x p : ℕ) → last_of (xs ++ x ∷ []) p ≡ x
unfolding last_of
last_of-append [] x p = refl
last_of-append (y ∷ xs) x p = last_of-append xs x y

pub first_of-rev : (xs : List ℕ) (p : ℕ) → first_of (rev xs) p ≡ last_of xs p
unfolding first_of rev last_of
first_of-rev [] p = refl
first_of-rev (x ∷ xs) p = first_of-append (rev xs) x p ∙ first_of-rev xs x

pub last_of-rev : (xs : List ℕ) (p : ℕ) → last_of (rev xs) p ≡ first_of xs p
unfolding first_of rev last_of
last_of-rev [] p = refl
last_of-rev (x ∷ xs) p = last_of-append (rev xs) x p
