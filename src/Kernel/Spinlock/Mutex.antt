-- ===== src/Kernel/Spinlock/Mutex.antt =====
-- The harts that call `acquire` and `release` of xv6-riscv/kernel/spinlock.c on one lock, one atomic
-- access of the lock at a time.
use aca_riscv_secure_boot.Common.{
  ℕ, ◌≡◌, ◌≢◌, ◌⊎◌, inl, inr, refl, ap, ◌∙◌, sym, Bool, true, false, Bool-cases, arith, ◌==◌,
  if◌then◌else◌, Option, none, some,
}
use mathlib.Core.Bool.{true≢false}
use aca_riscv_secure_boot.Kernel.Outcome.{ok-injective, ok, panic}
use aca_riscv_secure_boot.Kernel.Spinlock.{
  Cpu, Lock, initlock, push_off, pop_off, is_cpu, holding, acquire_begin, test_and_set, set_cpu,
  release_begin, lock_release,
}

-- Where a hart stands: outside, in the loop of `acquire`, past it but not yet in `lk->cpu`, in its
-- critical section, and in `release` once `lk->cpu` is cleared.
pub data Place : Type 0 where
  outside spinning won critical leaving : Place

-- Between the swap that takes the lock and the store that gives it back.
abbrev pub owns : Place → Bool
owns outside = false
owns spinning = false
owns won = true
owns critical = true
owns leaving = true

pub record World : Type 0 where
  pub lock : Lock
  pub place : ℕ → Place
  pub cpu : ℕ → Cpu

abbrev pub at : {A : Type 0} → (ℕ → A) → ℕ → A → ℕ → A
at f h v x = if x == h then v else f x

pub data Step (w : World) : World → Type 0 where
  enter :
      (h : ℕ) {c : Cpu}
      → w.place h ≡ outside
      → acquire_begin h w.lock (w.cpu h) ≡ ok c
      → Step w (record { lock = w.lock; place = at w.place h spinning; cpu = at w.cpu h c })
  swap :
      (h : ℕ)
      → w.place h ≡ spinning
      → Step w (record {
        lock = (test_and_set w.lock).1;
        place = at w.place h (if (test_and_set w.lock).0 then spinning else won);
        cpu = w.cpu;
      })
  own :
      (h : ℕ)
      → w.place h ≡ won
      → Step w
          (record { lock = set_cpu (some h) w.lock; place = at w.place h critical; cpu = w.cpu })
  leave :
      (h : ℕ) {lk : Lock}
      → w.place h ≡ critical
      → release_begin h w.lock ≡ ok lk
      → Step w (record { lock = lk; place = at w.place h leaving; cpu = w.cpu })
  unlock :
      (h : ℕ) {c : Cpu}
      → w.place h ≡ leaving
      → pop_off (w.cpu h) ≡ ok c
      → Step w
          (record { lock = lock_release w.lock; place = at w.place h outside; cpu = at w.cpu h c })

pub data Reach (cpus : ℕ → Cpu) : World → Type 0 where
  start : Reach cpus (record { lock = initlock; place = λ _. outside; cpu = cpus })
  next : {v w : World} → Reach cpus v → Step v w → Reach cpus w

-- At most one hart owns the lock, the lock is taken just if one does, and `lk->cpu` names the hart
-- in its critical section and nobody else.
pub record IsExclusive (w : World) : Type 0 where
  pub one : (h k : ℕ) → owns (w.place h) ≡ true → owns (w.place k) ≡ true → h ≡ k
  pub taken : (h : ℕ) → owns (w.place h) ≡ true → w.lock.locked ≡ true
  pub named : (h : ℕ) → w.place h ≡ critical → w.lock.cpu ≡ some h
  pub unnamed : (h : ℕ) → w.lock.cpu ≡ some h → w.place h ≡ critical

is_cpu_named : (o : Option ℕ) (h : ℕ) → is_cpu o h ≡ true → o ≡ some h
is_cpu_named none h e = absurd (true≢false (sym e))
is_cpu_named (some k) h e = ap some (ground arith)

holding-named : (h : ℕ) (lk : Lock) → holding lk h ≡ true → lk.cpu ≡ some h
unfolding holding
holding-named h lk e = is_cpu_named lk.cpu h (ground arith)

named-holding : (h : ℕ) (lk : Lock) → lk.locked ≡ true → lk.cpu ≡ some h → holding lk h ≡ true
unfolding holding
named-holding h lk l e = rw (l, e) (ground arith)

panic_not_ok : {A : Type 0} {a : A} → panic ≢ ok a
panic_not_ok e = cc

release_begin-ok : (h : ℕ) (lk lk' : Lock) → release_begin h lk ≡ ok lk' → lk' ≡ set_cpu none lk
unfolding release_begin
release_begin-ok h lk lk' e = elim (Bool-cases (holding lk h)) [
  | inl t ↦ sym (ok-injective (rw t at e))
  | inr t ↦ absurd (panic_not_ok (rw t at e))
]

Step-IsExclusive : {w v : World} → Step w v → IsExclusive w → IsExclusive v
Step-IsExclusive {w} (enter h e r) inv = record {
  one = λ a b p q. ground (arith, inv.one a b);
  taken = λ a p. ground (arith, inv.taken a);
  named = λ a p. ground (arith, inv.named a);
  unnamed = λ a p. ground (arith, inv.unnamed a);
}
Step-IsExclusive {w} (swap h e) inv =
    unfold test_and_set in
    record {
      one = λ a b p q. ground (arith, inv.one a b, inv.taken a, inv.taken b);
      taken = λ a p. refl;
      named = λ a p. ground (arith, inv.named a);
      unnamed = λ a p. ground (arith, inv.unnamed a);
    }
Step-IsExclusive {w} (own h e) inv = record {
  one = λ a b p q. ground (arith, inv.one a b, inv.one a h, inv.one b h);
  taken = λ a p. ground (arith, inv.taken a, inv.taken h);
  named = λ a p. ground (arith, inv.one a h);
  unnamed = λ a p. ground (arith, inv.unnamed a);
}
Step-IsExclusive {w} (leave h {lk} e r) inv =
    let same = release_begin-ok h w.lock lk r in
    record {
      one = λ a b p q. ground (arith, inv.one a b, inv.one a h, inv.one b h);
      taken = λ a p. ground (arith, same, inv.taken a, inv.taken h);
      named = λ a p. ground (arith, inv.one a h);
      unnamed = λ a p. ground (arith, same);
    }
Step-IsExclusive {w} (unlock h e r) inv = record {
  one = λ a b p q. ground (arith, inv.one a b);
  taken = λ a p. ground (arith, inv.one a h);
  named = λ a p. ground (arith, inv.named a);
  unnamed = λ a p. ground (arith, inv.unnamed a);
}

Reach-IsExclusive : {cpus : ℕ → Cpu} {w : World} → Reach cpus w → IsExclusive w
Reach-IsExclusive start = record {
  one = λ h k p q. absurd (ground (arith, p));
  taken = λ h p. absurd (ground (arith, p));
  named = λ h p. absurd (ground (arith, p));
  unnamed = λ h p. absurd (ground (arith, p));
}
Reach-IsExclusive (next r st) = Step-IsExclusive st (Reach-IsExclusive r)

-- Mutual exclusion. Whatever the harts do, if one has taken the lock and not yet given it back, no
-- other has, and the lock is marked as taken.
pub acquire_excludes :
    {cpus : ℕ → Cpu} {w : World}
    → Reach cpus w
    → (h k : ℕ) → owns (w.place h) ≡ true
    → owns (w.place k) ≡ true
    → (h ≡ k) × (w.lock.locked ≡ true)
acquire_excludes reach h k p q =
    let inv = Reach-IsExclusive reach in (inv.one h k p q, inv.taken h p)

-- `holding` tells a hart whether it is in its critical section, so `acquire` panics just on a second
-- call there, and `release` never panics from there.
pub holding-critical :
    {cpus : ℕ → Cpu} {w : World}
    → Reach cpus w
    → (h : ℕ)
    → ((w.place h ≡ critical)
        × (holding w.lock h ≡ true)
        × (acquire_begin h w.lock (w.cpu h) ≡ panic)
        × (release_begin h w.lock ≡ ok (set_cpu none w.lock)))
      ⊎ ((w.place h ≢ critical)
          × (holding w.lock h ≡ false)
          × (acquire_begin h w.lock (w.cpu h) ≡ ok (push_off (w.cpu h)))
          × (release_begin h w.lock ≡ panic))
unfolding holding acquire_begin release_begin
holding-critical {cpus} {w} reach h =
    let inv = Reach-IsExclusive reach in
    elim (Bool-cases (holding w.lock h)) [
      | inl t ↦
          let inside : w.place h ≡ critical = inv.unnamed h (holding-named h w.lock t) in
          inl (inside, t, rw t refl, rw t refl)
      | inr t ↦ inr (
        (λ inside.
            true≢false (
              sym (named-holding h w.lock (inv.taken h (rw inside refl)) (inv.named h inside))
              ∙ t)),
        t,
        rw t refl,
        rw t refl,
      )
    ]
