-- ===== src/Kernel/Outcome.antt =====
-- How a kernel function ends: with a value, asleep on a channel until it is woken, or in `panic`.
use aca_riscv_secure_boot.Common.{
  ℕ, ◌≡◌, ◌⊎◌, refl, inl, inr, Bool, true, false, arith, if◌then◌else◌,
}
use aca_riscv_secure_boot.Common.Int.{ℤ}

pub data Outcome (A : Type 0) : Type 0 where
  ok : A → Outcome A
  sleep : Outcome A
  panic : Outcome A

infixl 5 ◌>>=◌
abbrev pub ◌>>=◌ : {A B : Type 0} → Outcome A → (A → Outcome B) → Outcome B
ok a >>= f = f a
sleep >>= f = sleep
panic >>= f = panic

-- A locked part of a call ends: the call returns a number, or it sleeps with `i` bytes done.
pub data Ending : Type 0 where
  returned : ℤ → Ending
  asleep : ℕ → Ending

-- If a chain of two calls ends well, so did the first.
pub bind_ok :
    {A B : Type 0} (o : Outcome A) (f : A → Outcome B) (b : B)
    → (o >>= f) ≡ ok b
    → (a : A) × (o ≡ ok a) × (f a ≡ ok b)
bind_ok (ok a) f b h = (a, refl, h)
bind_ok sleep f b h = ground arith
bind_ok panic f b h = ground arith

pub ok-injective : {A : Type 0} {a b : A} → ok a ≡ ok b → a ≡ b
ok-injective e = cc

pub if_ok :
    {A : Type 0} (b : Bool) (x y : Outcome A) (a : A)
    → (if b then x else y) ≡ ok a
    → (x ≡ ok a) ⊎ (y ≡ ok a)
if_ok true x y a h = inl h
if_ok false x y a h = inr h
