-- ===== src/User/Grep/Regex.antt =====
-- Which texts a pattern of xv6-riscv/user/grep.c matches, and that the matcher decides it.
use aca_riscv_secure_boot.Common.{
  ℕ, zero, suc, ◌+◌, ◌≡◌, ◌≢◌, ◌<◌, ◌⊎◌, ◌↔◌, refl, ap, sym, subst, ◌∙◌, Bool, true, false, not,
  ◌&&◌, ◌||◌, ◌==◌, if◌then◌else◌, List, [], ◌∷◌, ◌++◌, length, Bool-cases, inl, inr, arith, Option,
  some, eq→==, ne→==,
}
use aca_riscv_secure_boot.Common.Memory.{Memory}
use aca_riscv_secure_boot.User.Grep.{matchstar, matchhere, match_loop, match}

-- A string in memory, with the NUL behind it.
unfoldable pub IsString : Memory → ℕ → List ℕ → Type 0
IsString m p [] = m p ≡ 0
IsString m p (c ∷ cs) = (m p ≡ c) × (c ≢ 0) × IsString m (p + 1) cs

-- The character `c` of a pattern stands for `x`.
abbrev OneOf : ℕ → ℕ → Type 0
OneOf c x = (c ≡ b'.') ⊎ (c ≡ x)

abbrev AllOf : ℕ → List ℕ → Type 0
AllOf c [] = ◌≡◌ {A = ℕ} 0 0
AllOf c (x ∷ xs) = OneOf c x × AllOf c xs

-- Some characters for `c`, and then a text with `P`.
abbrev Star : ℕ → (List ℕ → Type 0) → List ℕ → Type 0
Star c P t = (us : List ℕ) × (vs : List ℕ) × (t ≡ us ++ vs) × AllOf c us × P vs

-- One character for `c`, and then a text with `P`.
abbrev Step : ℕ → (List ℕ → Type 0) → List ℕ → Type 0
Step c P [] = ⊥
Step c P (x ∷ t) = OneOf c x × P t

-- A beginning of the text is as the pattern says: `$` at its end is the end of the text, `c*` stands
-- for any number of characters, `.` for any one.
unfoldable pub Here : List ℕ → List ℕ → Type 0
Here [] t = ◌≡◌ {A = ℕ} 0 0
Here (c ∷ []) t = if c == b'$' then t ≡ [] else Step c (λ _. ◌≡◌ {A = ℕ} 0 0) t
Here (c ∷ d ∷ re) t = if d == b'*' then Star c (Here re) t else Step c (Here (d ∷ re)) t

-- The pattern matches at the beginning behind `^`, and anywhere without it.
unfoldable pub Matches : List ℕ → List ℕ → Type 0
unfolding Here
Matches [] t = Star b'.' (Here []) t
Matches (c ∷ re) t = if c == b'^' then Here re t else Star b'.' (Here (c ∷ re)) t

-- A result that is given, and says whether `P` holds.
abbrev Decides : Option Bool → Type 0 → Type 0
Decides o P = (b : Bool) × (o ≡ some b) × ((b ≡ true) ↔ P)

yes : {P : Type 0} (o : Option Bool) → o ≡ some true → P → Decides o P
yes o e p = (true, e, (λ _. p, λ _. refl))

no : {P : Type 0} (o : Option Bool) → o ≡ some false → (P → ⊥) → Decides o P
no o e n = (false, e, (λ q. ground (arith, q), λ p. absurd (n p)))

via : {P Q : Type 0} (o o' : Option Bool) → o ≡ o' → (Q → P) → (P → Q) → Decides o' Q → Decides o P
via o o' e f g (b, r, (h, k)) = (b, e ∙ r, (λ q. f (h q), λ p. k (g p)))

decided :
    {P : Type 0} (o : Option Bool)
    → Decides o P
    → ((o ≡ some true) × P) ⊎ ((o ≡ some false) × (P → ⊥))
decided o (true, e, (f, g)) = inl (e, f refl)
decided o (false, e, (f, g)) = inr (e, λ p. ground (arith, g p))

-- The places of `c*`.
module _ (c : ℕ) (P : List ℕ → Type 0) where
  star_nil : Star c P [] → P []
  star_nil ([], vs, e, a, p) = subst P (sym e) p
  star_nil (u ∷ us, vs, e, a, p) = ground (arith, e)

  Star-cons : (x : ℕ) (t : List ℕ) → Star c P (x ∷ t) → P (x ∷ t) ⊎ (OneOf c x × Star c P t)
  Star-cons x t ([], vs, e, a, p) = inl (subst P (sym e) p)
  Star-cons x t (u ∷ us, vs, e, a, p) =
      let same : u ≡ x = cc in
      let others : t ≡ us ++ vs = cc in inr (subst (OneOf c) same a.0, (us, vs, others, a.1, p))

  Star-more : (x : ℕ) (t : List ℕ) → OneOf c x → Star c P t → Star c P (x ∷ t)
  Star-more x t o (us, vs, e, a, p) = (x ∷ us, vs, ap (λ r. x ∷ r) e, (o, a), p)

  module _ (here : ℕ → Option Bool) (m : Memory) where
    matchstar-Star :
        (limit p : ℕ) (t : List ℕ)
        → IsString m p t
        → length t < limit
        → ((p' : ℕ) (t' : List ℕ)
            → IsString m p' t'
            → length t' < suc (length t)
            → Decides (here p') (P t'))
        → Decides (matchstar here limit c p m) (Star c P t)
    unfolding matchstar IsString
    matchstar-Star zero p t s l h = absurd (omega arith)
    matchstar-Star (suc limit) p [] s l h = elim (decided (here p) (h p [] s (omega arith))) [
      | inl (e, q) ↦ yes _ (rw (matchstar, e) refl) ([], [], refl, refl, q)
      | inr (e, n) ↦ no _ (rw (matchstar, e, eq→== (m p) 0 s) refl) (λ q. n (star_nil q))
    ]
    matchstar-Star (suc limit) p (x ∷ t) (s, nz, r) l h =
        elim (decided (here p) (h p (x ∷ t) (s, nz, r) (omega arith))) [
          | inl (e, q) ↦ yes _ (rw (matchstar, e) refl) ([], x ∷ t, refl, refl, q)
          | inr (e, n) ↦
              let text : (m p == 0) ≡ false = ground (arith, s, nz) in
              elim (Bool-cases (m p == c || c == b'.')) [
                | inr u ↦ no _ (rw (matchstar, e, text, u) refl) (λ q. elim (Star-cons x t q) [
                  | inl q' ↦ n q'
                  | inr (o, q') ↦ ground (arith, o, u, s)
                ])
                | inl u ↦
                    let one : OneOf c x = ground (arith, u, s) in
                    via _ _ (rw (matchstar, e, text, u) refl) (Star-more x t one)
                      (λ q. elim (Star-cons x t q) [ inl q' ↦ absurd (n q') | inr (o, q') ↦ q' ])
                      (matchstar-Star limit (p + 1) t r (omega arith)
                        (λ p' t' s' l'. h p' t' s' (omega arith)))
              ]
        ]

module _ (m : Memory) where
  -- The test for the end of the text.
  end-Decides : (q : ℕ) (t : List ℕ) → IsString m q t → Decides (some (m q == 0)) (t ≡ [])
  unfolding IsString
  end-Decides q [] s = yes _ (rw (eq→== (m q) 0 s) refl) refl
  end-Decides q (x ∷ t) (s, nz, r) =
      no _ (let other : (m q == 0) ≡ false = ground (arith, s, nz) in rw other refl)
        (λ e. ground (arith, e))

  -- The test for one character, and then the rest of the pattern.
  Step-Decides :
      (o : Option Bool) (c q : ℕ) (t : List ℕ) (P : List ℕ → Type 0)
      → IsString m q t
      → ((t' : List ℕ) → IsString m (q + 1) t' → length t' < length t → Decides o (P t'))
      → Decides (if not (m q == 0) && (c == 46 || c == m q) then o else some false) (Step c P t)
  unfolding IsString
  Step-Decides o c q [] P s h = no _ (rw (eq→== (m q) 0 s) refl) (λ e. e)
  Step-Decides o c q (x ∷ t) P (s, nz, r) h =
      let other : (m q == 0) ≡ false = ground (arith, s, nz) in
      elim (Bool-cases (c == 46 || c == m q)) [
        | inr u ↦ no _ (rw (other, u) refl) (λ e. ground (arith, e.0, u, s))
        | inl u ↦
            let one : OneOf c x = ground (arith, u, s) in
            via _ _ (rw (other, u) refl) (λ p. (one, p)) (λ p. p.1) (h t r (omega arith))
      ]

matchhere-Here :
    (fuel limit p q : ℕ) (re t : List ℕ) (m : Memory)
    → IsString m p re
    → IsString m q t
    → length re < fuel
    → length t < limit
    → Decides (matchhere fuel limit p q m) (Here re t)
unfolding matchhere IsString Here
matchhere-Here zero limit p q re t m s s' l l' = absurd (omega arith)
matchhere-Here (suc fuel) limit p q [] t m s s' l l' = yes _ (rw (eq→== (m p) 0 s) refl) refl
matchhere-Here (suc fuel) limit p q (c ∷ []) t m (s, nz, r) s' l l' =
    let more : (c == 0) ≡ false = ne→== c 0 nz in
    elim (Bool-cases (c == 36)) [
      | inl u ↦ rw (s, more, r, u) (end-Decides m q t s')
      | inr u ↦
          rw (s, more, r, u)
            (Step-Decides m (matchhere fuel limit (p + 1) (q + 1) m) c q t (λ _. ◌≡◌ {A = ℕ} 0 0) s'
              (λ t' s'' l''.
                matchhere-Here fuel limit (p + 1) (q + 1) [] t' m r s'' (omega arith)
                  (omega arith)))
    ]
matchhere-Here (suc fuel) limit p q (c ∷ d ∷ re) t m (s, nz, (r, nz', r')) s' l l' =
    let more : (c == 0) ≡ false = ne→== c 0 nz in
    let inner : (d == 0) ≡ false = ne→== d 0 nz' in
    let place : p + 1 + 1 ≡ p + 2 = omega arith in
    elim (Bool-cases (d == 42)) [
      | inl u ↦
          rw (s, more, r, u)
            (matchstar-Star c (Here re) (λ t'. matchhere fuel limit (p + 2) t' m) m limit q t s' l'
              (λ p' t' s'' l''.
                matchhere-Here fuel limit (p + 2) p' re t' m (rw place at r') s'' (omega arith)
                  (omega arith)))
      | inr u ↦
          let plain : (c == 36 && d == 0) ≡ false = ground (arith, inner) in
          rw (s, more, r, u, plain)
            (Step-Decides m (matchhere fuel limit (p + 1) (q + 1) m) c q t (Here (d ∷ re)) s'
              (λ t' s'' l''.
                matchhere-Here fuel limit (p + 1) (q + 1) (d ∷ re) t' m (r, nz', r') s''
                  (omega arith) (omega arith)))
    ]

-- Anywhere in the text.
match_loop-Star :
    (limit fuel p q : ℕ) (re t : List ℕ) (m : Memory)
    → IsString m p re
    → IsString m q t
    → length re < fuel
    → length t < limit
    → Decides (match_loop limit fuel p q m) (Star b'.' (Here re) t)
unfolding match_loop IsString
match_loop-Star zero fuel p q re t m s s' l l' = absurd (omega arith)
match_loop-Star (suc limit) fuel p q re [] m s s' l l' =
    elim (decided (matchhere fuel (suc limit) p q m)
      (matchhere-Here fuel (suc limit) p q re [] m s s' l l')) [
        | inl (e, h) ↦ yes _ (rw (match_loop, e) refl) ([], [], refl, refl, h)
        | inr (e, n) ↦
            no _ (rw (match_loop, e, eq→== (m q) 0 s') refl) (λ h. n (star_nil b'.' (Here re) h))
      ]
match_loop-Star (suc limit) fuel p q re (x ∷ t) m s (s', nz, r) l l' =
    elim (decided (matchhere fuel (suc limit) p q m)
      (matchhere-Here fuel (suc limit) p q re (x ∷ t) m s (s', nz, r) l l')) [
        | inl (e, h) ↦ yes _ (rw (match_loop, e) refl) ([], x ∷ t, refl, refl, h)
        | inr (e, n) ↦
            let other : (m q == 0) ≡ false = ground (arith, s', nz) in
            via _ _ (rw (match_loop, e, other) refl) (Star-more b'.' (Here re) x t (inl refl))
              (λ h. elim (Star-cons b'.' (Here re) x t h) [
                | inl h' ↦ absurd (n h')
                | inr (o, h') ↦ h'
              ])
              (match_loop-Star limit fuel p (q + 1) re t m s r l (omega arith))
      ]

-- The matcher of grep is right. For a pattern and a text in memory, with more passes than the text
-- has characters and more fuel than the pattern has, `match` returns, and true just if the pattern
-- matches the text.
pub match-Matches :
    (limit fuel p q : ℕ) (re t : List ℕ) (m : Memory)
    → IsString m p re
    → IsString m q t
    → length re < fuel
    → length t < limit
    → (b : Bool) × (match limit fuel p q m ≡ some b) × ((b ≡ true) ↔ Matches re t)
unfolding match Matches IsString
match-Matches limit fuel p q [] t m s s' l l' =
    rw s (match_loop-Star limit fuel p q [] t m s s' l l')
match-Matches limit fuel p q (c ∷ re) t m (s, nz, r) s' l l' = elim (Bool-cases (c == b'^')) [
  | inl u ↦ rw (s, u) (matchhere-Here fuel limit (p + 1) q re t m r s' (omega arith) l')
  | inr u ↦ rw (s, u) (match_loop-Star limit fuel p q (c ∷ re) t m (s, nz, r) s' l l')
]
