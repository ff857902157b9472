-- ===== src/Kernel/Bio/Links.antt =====
-- The list of buffers of xv6-riscv/kernel/bio.c, linked both ways through its head.
use aca_riscv_secure_boot.Common.{
  ℕ, ◌≡◌, ◌≢◌, refl, sym, subst, ◌∙◌, true, false, ◌||◌, Bool-cases, inl, inr, arith, ◌==◌, List,
  [], ◌∷◌, ◌++◌, member, member-cons, ne→==, eq→==,
}
use aca_riscv_secure_boot.Kernel.Bio.{Bcache, head, push_front, move_front}
use aca_riscv_secure_boot.Kernel.Bio.Order.{
  rev, rev-append, rev-middle, member-append, member-rev, Distinct, Distinct-append, Distinct-rev,
  first_of, last_of, first_of-rev, last_of-rev, last_of-member, first_of_other, Leads, Leads-ext,
  Leads-from, Leads-append, Leads-first, redirect, Leads-redirect_last, Leads-bypass,
}

-- `next` leads through `order` around to the head, and `prev` back.
pub record IsRing (order : List ℕ) (next prev : ℕ → ℕ) : Type 0 where
  pub forward : Leads next head order head
  pub backward : Leads prev head (rev order) head
  pub distinct : Distinct order
  pub apart : member head order ≡ false

pub push_front-IsRing :
    (b : ℕ) (c : Bcache) (order : List ℕ)
    → IsRing order c.next c.prev
    → member b order ≡ false
    → b ≢ head
    → IsRing (b ∷ order) (push_front b c).next (push_front b c).prev
unfolding Leads rev Distinct member
push_front-IsRing b c order ring m nb =
    let other : (head == b) ≡ false = ground (arith, nb) in
    let self : (b == b) ≡ true = eq→== b b refl in
    let start : c.next head ≡ first_of order head =
      Leads-first c.next head order head ring.forward in
    let prev1 = redirect c.prev b head in
    let w = c.next head in
    let not_head : (b == head) ≡ false = ne→== b head nb in
    let unlike : (x : ℕ) → member x order ≡ true → (x == b) ≡ false =
      λ x q. ne→== x b (λ e. ground (arith, subst (λ y. member y order ≡ true) e q, m)) in
    let unlike_head : (x : ℕ) → member x order ≡ true → (x == head) ≡ false = λ x q.
      ne→== x head (λ e. ground (arith, subst (λ y. member y order ≡ true) e q, ring.apart)) in
    let not_w : (b == w) ≡ false = ne→== b w (λ e. first_of_other order head b nb m (e ∙ start)) in
    let inside : (x : ℕ) → member x (rev order) ≡ true → c.prev x ≡ prev1 x =
      λ x q. (let ne : (x == b) ≡ false = unlike x (sym (member-rev x order) ∙ q) in rw ne refl) in
    let before : Leads prev1 head (rev order) head =
      Leads-ext c.prev prev1 head (rev order) head (rw other refl) inside ring.backward in
    record {
      forward = (
        refl,
        Leads-from c.next (push_front b c).next head b order head (rw (not_head, self) refl)
            (λ x q. rw (unlike_head x q, unlike x q) refl) ring.forward,
      );
      backward = (Leads-append (push_front b c).prev head (rev order) b [] head).1 (
        rw other (
            Leads-redirect_last prev1 head (rev order) head w b (last_of-rev order head ∙ sym start)
              (member-rev head order ∙ ring.apart) (Distinct-rev order ring.distinct) before),
        rw (other, not_w, self) refl,
      );
      distinct = (m, ring.distinct);
      apart = ground (arith, ring.apart, nb);
    }

-- The places before and behind `b`.
module _ (us : List ℕ) (b : ℕ) (vs : List ℕ) (next prev : ℕ → ℕ)
    (ring : IsRing (us ++ b ∷ vs) next prev) where
  there : Leads next head us b × Leads next b vs head
  there = (Leads-append next head us b vs head).0 ring.forward

  back : Leads prev head (rev vs) b × Leads prev b (rev us) head
  back =
      (Leads-append prev head (rev vs) b (rev us) head).0
        (subst (λ l. Leads prev head l head) (rev-middle us b vs) ring.backward)

  before_b : last_of us head ≡ prev b
  before_b = sym (first_of-rev us head) ∙ sym (Leads-first prev b (rev us) head back.1)

  behind_b : last_of (rev vs) head ≡ next b
  behind_b = last_of-rev vs head ∙ sym (Leads-first next b vs head there.1)

  parts :
      Distinct us × Distinct (b ∷ vs) × ((x : ℕ) → member x us ≡ true → member x (b ∷ vs) ≡ false)
  parts = (Distinct-append us (b ∷ vs)).0 ring.distinct

  away : (member head us ≡ false) × ((head == b) ≡ false) × (member head vs ≡ false)
  unfolding member
  away =
      let outside : (member head us || (head == b || member head vs)) ≡ false =
        sym (member-append head us (b ∷ vs)) ∙ ring.apart in
      (ground (arith, outside), ground (arith, outside), ground (arith, outside))

  -- A place on both sides of `b` is none.
  no_both : (y : ℕ) → member y us ≡ true → member y vs ≡ true → ⊥
  unfolding member
  no_both y q q' = ground (arith, parts.2 y q, q')

  behind_other : (y : ℕ) → member y vs ≡ true → y ≢ prev b
  behind_other y q e =
      let last : member y (head ∷ us) ≡ true =
        subst (λ z. member z (head ∷ us) ≡ true) (before_b ∙ sym e) (last_of-member head us) in
      elim (member-cons y head us last) [
        | inl e' ↦ ground (arith, away.2, subst (λ z. member z vs ≡ true) e' q)
        | inr q' ↦ no_both y q' q
      ]

  before_other : (y : ℕ) → member y (rev us) ≡ true → y ≢ next b
  before_other y q e =
      let here : member y us ≡ true = sym (member-rev y us) ∙ q in
      let last : member y (head ∷ rev vs) ≡ true =
        subst (λ z. member z (head ∷ rev vs) ≡ true) (behind_b ∙ sym e)
          (last_of-member head (rev vs)) in
      elim (member-cons y head (rev vs) last) [
        | inl e' ↦ ground (arith, away.0, subst (λ z. member z us ≡ true) e' here)
        | inr q' ↦ no_both y here (sym (member-rev y vs) ∙ q')
      ]

  unlinked-IsRing :
      IsRing (us ++ vs) (redirect next (prev b) (next b)) (redirect prev (next b) (prev b))
  unfolding Distinct member
  unlinked-IsRing = record {
    forward =
        Leads-bypass next head us b vs head (prev b) before_b away.0 parts.0 behind_other there.0
          there.1;
    backward =
        subst (λ l. Leads (redirect prev (next b) (prev b)) head l head) (sym (rev-append us vs))
          (Leads-bypass prev head (rev vs) b (rev us) head (next b) behind_b
            (member-rev head vs ∙ away.2) (Distinct-rev vs parts.1.1) before_other back.0 back.1);
    distinct = (Distinct-append us vs).1 (parts.0, parts.1.1, λ x q. ground (arith, parts.2 x q));
    apart = member-append head us vs ∙ ground (arith, away.0, away.2);
  }

before :
    (us : List ℕ) (b : ℕ) (vs : List ℕ)
    → ((x : ℕ) → member x us ≡ true → member x (b ∷ vs) ≡ false)
    → member b us ≡ false
unfolding member
before us b vs h = elim (Bool-cases (member b us)) [ inr t ↦ t | inl t ↦ ground (arith, h b t) ]

-- The buffer goes to the front, and the others keep their order.
pub move_front-IsRing :
    (us : List ℕ) (b : ℕ) (vs : List ℕ) (c : Bcache)
    → IsRing (us ++ b ∷ vs) c.next c.prev
    → IsRing (b ∷ us ++ vs) (move_front b c).next (move_front b c).prev
unfolding move_front member Distinct
move_front-IsRing us b vs c ring =
    let unlinked = record c {
      next = redirect c.next (c.prev b) (c.next b);
      prev = redirect c.prev (c.next b) (c.prev b);
    } in
    let b_not_head : b ≢ head = λ e. ground (arith, (away us b vs c.next c.prev ring).1) in
    let not_behind : member b vs ≡ false = (parts us b vs c.next c.prev ring).1.0 in
    let not_before : member b us ≡ false = before us b vs (parts us b vs c.next c.prev ring).2 in
    let not_next : (b == c.next b) ≡ false = ne→== b (c.next b) (λ e.
      first_of_other vs head b b_not_head not_behind
        (e ∙ Leads-first c.next b vs head (there us b vs c.next c.prev ring).1)) in
    rw not_next (
      push_front-IsRing b unlinked (us ++ vs) (unlinked-IsRing us b vs c.next c.prev ring)
        (member-append b us vs ∙ ground (arith, not_before, not_behind)) b_not_head)
