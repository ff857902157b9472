-- ===== src/Kernel/Proc/Exit/Reap.antt =====
-- `exit` of a child and `wait` of its parent, of xv6-riscv/kernel/proc.c.
use aca_riscv_secure_boot.Common.{
  ℕ, zero, suc, ◌+◌, ◌≡◌, ◌≢◌, ◌<◌, ◌≤◌, ◌⊎◌, refl, ap, sym, subst, ◌∙◌, Bool, true, false, ◌&&◌,
  ◌||◌, Bool-cases, inl, inr, ltb, ◌==◌, if◌then◌else◌, arith, eq→==, ne→==, Option, some,
}
use aca_riscv_secure_boot.Kernel.Proc.{
  ProcState, Proc, Procs, is_sleeping, is_zombie, is_place, set_proc, woken, wakeup,
}
use aca_riscv_secure_boot.Kernel.Proc.Wake.{wakeup-woken}
use aca_riscv_secure_boot.Kernel.Proc.Exit.{
  address, reparent_loop, reparent, exit_zombie, Children, scan,
}

-- A property of an entry that `wakeup` and the change of a parent keep.
abbrev KeepsWoken : (Proc → Type 0) → Type 0
KeepsWoken q = (chan : ℕ) (p : Proc) → q p → q (woken chan p)

if_kept : {A : Type 0} (q : A → Type 0) (b : Bool) (x y : A) → q x → q y → q (if b then x else y)
if_kept q true x y h h' = h
if_kept q false x y h h' = h'

wakeup-kept :
    (q : Proc → Type 0) (me chan : ℕ) (t : Procs) (x : ℕ)
    → KeepsWoken q
    → q (t.proc x)
    → q ((wakeup me chan t).proc x)
wakeup-kept q me chan t x keeps h =
    subst q (sym (wakeup-woken me chan t x)) (if_kept q _ _ _ (keeps chan (t.proc x) h) h)

reparent_loop-kept :
    (q : Proc → Type 0) (at : ℕ → ℕ) (n i me p : ℕ) (t : Procs) (x : ℕ)
    → KeepsWoken q
    → ((a : Proc) (v : Option ℕ) → is_place a.parent p ≡ true → q a → q (record a { parent = v }))
    → q (t.proc x)
    → q ((reparent_loop at n i me p t).proc x)
unfolding reparent_loop
reparent_loop-kept q at zero i me p t x keeps moves h = h
reparent_loop-kept q at (suc n) i me p t x keeps moves h =
    reparent_loop-kept q at n (i + 1) me p _ x keeps moves next
  where
    handed : Procs
    handed = set_proc i (record (t.proc i) { parent = some t.init_proc }) t

    next :
        q ((if is_place (t.proc i).parent p then wakeup me (at t.init_proc) handed else t).proc x)
    next = elim (Bool-cases (is_place (t.proc i).parent p)) [
      | inr u ↦
          subst q
            (sym (ap (λ (b : Bool). (if b then wakeup me (at t.init_proc) handed else t).proc x) u))
            h
      | inl u ↦
          subst q
            (sym (ap (λ (b : Bool). (if b then wakeup me (at t.init_proc) handed else t).proc x) u))
            (wakeup-kept q me (at t.init_proc) handed x keeps (elim (Bool-cases (x == i)) [
              | inr v ↦
                  subst q
                    (sym (
                      ap
                        (λ (b : Bool).
                          if b then record (t.proc i) { parent = some t.init_proc } else t.proc x)
                        v))
                    h
              | inl v ↦
                  let same : x ≡ i = ground (arith, v) in
                  subst q
                    (sym (
                      ap
                        (λ (b : Bool).
                          if b then record (t.proc i) { parent = some t.init_proc } else t.proc x)
                        v))
                    (moves (t.proc i) (some t.init_proc) u (subst (λ y. q (t.proc y)) same h))
            ]))
    ]

-- A process that sleeps on `chan`, or was woken.
abbrev IsReady : ℕ → Proc → Type 0
IsReady chan p = ((is_sleeping p.state && p.chan == chan) ≡ true) ⊎ (p.state ≡ ProcState.runnable)

woken-IsReady : (chan : ℕ) → KeepsWoken (IsReady chan)
woken-IsReady chan chan' p (inl h) = elim (Bool-cases (is_sleeping p.state && p.chan == chan')) [
  | inl u ↦
      inr (ap (λ (b : Bool). (if b then record p { state = ProcState.runnable } else p).state) u)
  | inr u ↦
      subst (IsReady chan)
        (sym (ap (λ (b : Bool). if b then record p { state = ProcState.runnable } else p) u))
        (inl h)
]
woken-IsReady chan chan' p (inr h) = inr (
    if_kept (λ (a : Proc). a.state ≡ ProcState.runnable) (is_sleeping p.state && p.chan == chan') _
      _ refl h)

woken-parent : (v : Option ℕ) → KeepsWoken (λ p. p.parent ≡ v)
woken-parent v chan p h =
    if_kept (λ (a : Proc). a.parent ≡ v) (is_sleeping p.state && p.chan == chan) _ _ h h

-- Behind the `wakeup` of its channel, a process that was ready is runnable.
woken_ready : (chan : ℕ) (p : Proc) → IsReady chan p → (woken chan p).state ≡ ProcState.runnable
woken_ready chan p (inl h) =
    ap (λ (b : Bool). (if b then record p { state = ProcState.runnable } else p).state) h
woken_ready chan p (inr h) =
    if_kept (λ (a : Proc). a.state ≡ ProcState.runnable) (is_sleeping p.state && p.chan == chan) _ _
      refl h

if_skipped :
    {A : Type 0} (a b : Bool) (x y : A)
    → (a && b) ≡ false
    → (if a then (if b then x else y) else y) ≡ y
if_skipped true true x y h = ground (arith, h)
if_skipped true false x y h = refl
if_skipped false b x y h = refl

-- What `scan` finds if there is a child that has exited among the entries it passes.
scan-exited :
    (n i me c : ℕ) (kids : Bool) (proc : ℕ → Proc)
    → i ≤ c
    → c < i + n
    → is_place (proc c).parent me ≡ true
    → is_zombie (proc c).state ≡ true
    → (j : ℕ) × (scan n i me kids proc ≡ Children.exited j)
      × (j ≤ c)
      × (is_place (proc j).parent me ≡ true)
      × (is_zombie (proc j).state ≡ true)
unfolding scan
scan-exited zero i me c kids proc l l' p z = absurd (omega (arith, l, l'))
scan-exited (suc n) i me c kids proc l l' p z =
    elim (Bool-cases (is_place (proc i).parent me && is_zombie (proc i).state)) [
      | inl u ↦
          let mine : is_place (proc i).parent me ≡ true = ground (arith, u) in
          let dead : is_zombie (proc i).state ≡ true = ground (arith, u) in
          (i, rw (mine, dead) refl, l, mine, dead)
      | inr u ↦
          let other : i ≢ c = λ e. ground (
            arith,
            u,
            subst (λ y. is_place (proc y).parent me ≡ true) (sym e) p,
            subst (λ y. is_zombie (proc y).state ≡ true) (sym e) z,
          ) in
          let (j, found, before, rest, rest') =
            scan-exited n (i + 1) me c (kids || is_place (proc i).parent me) proc
              (omega (arith, l, other)) (omega (arith, l')) p z in
          (
            j,
            if_skipped (is_place (proc i).parent me) (is_zombie (proc i).state) (Children.exited i)
                  _ u
                ∙ found,
            before,
            rest,
            rest',
          )
    ]

-- No exit is missed. When a process exits whose parent is another one, a parent that sleeps in `wait`,
-- on its own address, is runnable; and its scan of the table finds a child of its own that has
-- exited, so that `wait` neither sleeps nor reports that there are no children.
pub scan-exit_zombie :
    (at : ℕ → ℕ) (c me status : ℕ) (t : Procs)
    → c < 64
    → me < 64
    → c ≢ me
    → (t.proc c).parent ≡ some me
    → let t' = exit_zombie at c status t in
      ((is_sleeping (t.proc me).state && (t.proc me).chan == at me) ≡ true
        → (t'.proc me).state ≡ ProcState.runnable)
      × ((j : ℕ) × (scan 64 0 me false t'.proc ≡ Children.exited j)
          × (j ≤ c)
          × (is_place (t'.proc j).parent me ≡ true)
          × (is_zombie (t'.proc j).state ≡ true))
unfolding exit_zombie reparent
scan-exit_zombie at c me status t l l' ne parent =
    let t1 = reparent_loop at 64 0 c c t in
    let t2 = wakeup c (address at (t1.proc c).parent) t1 in
    let last = record (t2.proc c) { xstate = status; state = ProcState.zombie } in
    let here : (c == c) ≡ true = eq→== c c refl in
    let other : (me == c) ≡ false = ne→== me c (λ e. ne (sym e)) in
    let parent1 : (t1.proc c).parent ≡ some me =
      reparent_loop-kept (λ p. p.parent ≡ some me) at 64 0 c c t c (woken-parent (some me))
        (λ a v is h. absurd (ground (arith, sym (ap (λ w. is_place w c) h) ∙ is, other))) parent in
    let parent2 : (t2.proc c).parent ≡ some me =
      wakeup-kept (λ p. p.parent ≡ some me) c (address at (t1.proc c).parent) t1 c
        (woken-parent (some me)) parent1 in
    let final : (set_proc c last t2).proc c ≡ last = rw here refl in
    (
      λ asleep.
          (let ready1 : IsReady (at me) (t1.proc me) =
              reparent_loop-kept (IsReady (at me)) at 64 0 c c t me (woken-IsReady (at me))
                (λ a v is h. h) (inl asleep) in
            let below : ltb me 64 ≡ true = ground (arith, l') in
            let called : address at (t1.proc c).parent ≡ at me = ap (address at) parent1 in
            let woken2 : t2.proc me ≡ woken (at me) (t1.proc me) =
              wakeup-woken c (address at (t1.proc c).parent) t1 me
              ∙ rw (below, other, called) refl in
            let final_me : (set_proc c last t2).proc me ≡ t2.proc me = rw other refl in
            ap (λ p. p.state) (final_me ∙ woken2) ∙ woken_ready (at me) (t1.proc me) ready1),
      scan-exited 64 0 me c false (set_proc c last t2).proc (omega arith) (omega arith)
          (ap (λ p. is_place p.parent me) final
            ∙ ap (λ v. is_place v me) parent2
            ∙ eq→== me me refl)
          (ap (λ p. is_zombie p.state) final),
    )
