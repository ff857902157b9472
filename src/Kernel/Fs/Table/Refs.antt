-- ===== src/Kernel/Fs/Table/Refs.antt =====
-- The table of inodes of xv6-riscv/kernel/fs.c with those who hold references to its entries.
use aca_riscv_secure_boot.Common.{
  ℕ, ◌+◌, ◌-◌, ◌^◌, ◌≡◌, ◌<◌, refl, ap, subst, ◌∙◌, sym, Bool, false, not, ◌&&◌, ◌||◌, inl, inr,
  arith, ◌==◌, if◌then◌else◌, Bool-cases,
}
use aca_riscv_secure_boot.Common.Word.{u32}
use aca_riscv_secure_boot.Kernel.Outcome.{ok, panic, bind_ok, ok-injective, if_ok}
use aca_riscv_secure_boot.Kernel.Sleeplock.{acquiresleep, releasesleep, holdingsleep}
use aca_riscv_secure_boot.Kernel.Fs.{Superblock}
use aca_riscv_secure_boot.Kernel.Fs.Inode.{Inode, itrunc, load_inode}
use aca_riscv_secure_boot.Kernel.Fs.Inode.Identity.{identity, load_inode-identity, itrunc-identity}
use aca_riscv_secure_boot.Kernel.Fs.Table.{
  Itable, set_inode, is_inode, positive, iget, idup, drop_ref, ilock, iunlock, iput, free_inode,
  load_if_invalid,
}
use aca_riscv_secure_boot.Kernel.Fs.Table.Search.{Iget-cases}

-- One reference to entry `i` more, or one less.
abbrev pub one_more : ℕ → (ℕ → ℕ) → ℕ → ℕ
one_more i held x = if x == i then held x + 1 else held x

abbrev pub one_less : ℕ → (ℕ → ℕ) → ℕ → ℕ
one_less i held x = if x == i then held x - 1 else held x

-- A call by a holder. Only who has a reference duplicates, locks, unlocks or drops it, and there
-- are fewer than 2 ^ 31 - 1 to an entry before one more is made.
module _ (sb : Superblock) where
  pub data Call : (ℕ → ℕ) × Itable → (ℕ → ℕ) × Itable → Type 0 where
    gets :
        (dev inum i : ℕ) (held : ℕ → ℕ) (t t' : Itable)
        → iget dev inum t ≡ ok (i, t')
        → held i < 2 ^ 31 - 1
        → Call (held, t) (one_more i held, t')
    dups :
        (i : ℕ) (held : ℕ → ℕ) (t : Itable)
        → 0 < held i
        → held i < 2 ^ 31 - 1
        → Call (held, t) (one_more i held, idup i t)
    locks :
        (pid i : ℕ) (held : ℕ → ℕ) (t t' : Itable)
        → 0 < held i
        → ilock sb pid i t ≡ ok t'
        → Call (held, t) (held, t')
    unlocks :
        (pid i : ℕ) (held : ℕ → ℕ) (t t' : Itable)
        → 0 < held i
        → iunlock sb pid i t ≡ ok t'
        → Call (held, t) (held, t')
    puts :
        (pid i : ℕ) (held : ℕ → ℕ) (t t' : Itable)
        → 0 < held i
        → iput sb pid i t ≡ ok t'
        → Call (held, t) (one_less i held, t')

  pub data Calls : (ℕ → ℕ) × Itable → (ℕ → ℕ) × Itable → Type 0 where
    done : (w : (ℕ → ℕ) × Itable) → Calls w w
    call : (w w' w'' : (ℕ → ℕ) × Itable) → Calls w w' → Call w' w'' → Calls w w''

-- The counts are those of the holders, and no two entries held are the same inode.
pub record IsTable (held : ℕ → ℕ) (t : Itable) : Type 0 where
  pub counted : (i : ℕ) → (t.inode i).ref ≡ held i
  pub small : (i : ℕ) → held i < 2 ^ 31
  pub inside : (i : ℕ) → 0 < held i → i < 50
  pub unique :
      (i j : ℕ)
      → 0 < held i
      → 0 < held j
      → (t.inode i).dev ≡ (t.inode j).dev
      → (t.inode i).inum ≡ (t.inode j).inum
      → i ≡ j

-- What a change of an entry leaves of it, it leaves of every entry.
pub set_inode-same :
    {A : Type 0} (f : Inode → A) (i : ℕ) (ip : Inode) (t : Itable) (a : ℕ)
    → f ip ≡ f (t.inode i)
    → f ((set_inode i ip t).inode a) ≡ f (t.inode a)
set_inode-same f i ip t a h = elim (Bool-cases (a == i)) [
  | inl u ↦ let e : a ≡ i = ground arith in rw (u, e) h
  | inr u ↦ rw u refl
]

-- The invariant sees of an entry no more than its identity.
IsTable-identity :
    (held : ℕ → ℕ) (t t' : Itable)
    → ((i : ℕ) → identity (t'.inode i) ≡ identity (t.inode i))
    → IsTable held t
    → IsTable held t'
IsTable-identity held t t' same h = record {
  counted = λ i. ap (λ x. x.2) (same i) ∙ h.counted i;
  small = h.small;
  inside = h.inside;
  unique = λ i j p q e e'.
      h.unique i j p q (sym (ap (λ x. x.0) (same i)) ∙ e ∙ ap (λ x. x.0) (same j))
        (sym (ap (λ x. x.1) (same i)) ∙ e' ∙ ap (λ x. x.1) (same j));
}

module _ (held : ℕ → ℕ) (t : Itable) (h : IsTable held t) where
  module _ (i : ℕ) (q : held i < 2 ^ 31 - 1) where
    idup-IsTable : 0 < held i → IsTable (one_more i held) (idup i t)
    idup-IsTable p = record {
      counted = λ j. ground (arith, h.counted j, h.counted i);
      small = λ j. ground (arith, h.small j);
      inside = λ j r. ground (arith, h.inside j, h.inside i);
      unique = λ a b r r' e e'.
          let up : (x : ℕ) → 0 < one_more i held x → 0 < held x = λ x l. ground arith in
          let dev = λ (x : ℕ).
            set_inode-same (λ ip. ip.dev) i (record (t.inode i) { ref = u32 ((t.inode i).ref + 1) })
              t x refl in
          let inum = λ (x : ℕ).
            set_inode-same (λ ip. ip.inum) i
              (record (t.inode i) { ref = u32 ((t.inode i).ref + 1) }) t x refl in
          h.unique a b (up a r) (up b r') (sym (dev a) ∙ e ∙ dev b) (sym (inum a) ∙ e' ∙ inum b);
    }

  -- A count of one less, whatever the call did besides to the copy of the inode.
  drop_ref-IsTable : (i : ℕ) → 0 < held i → IsTable (one_less i held) (drop_ref i t)
  drop_ref-IsTable i p = record {
    counted = λ j. ground (arith, h.counted j, h.counted i, h.small i, p);
    small = λ j. ground (arith, h.small j);
    inside = λ j r. ground (arith, h.inside j);
    unique = λ a b r r' e e'.
        let down : (x : ℕ) → 0 < one_less i held x → 0 < held x = λ x l. ground arith in
        let dev = λ (x : ℕ).
          set_inode-same (λ ip. ip.dev) i
            (record (t.inode i) { ref = u32 ((t.inode i).ref + (2 ^ 32 - 1)) }) t x refl in
        let inum = λ (x : ℕ).
          set_inode-same (λ ip. ip.inum) i
            (record (t.inode i) { ref = u32 ((t.inode i).ref + (2 ^ 32 - 1)) }) t x refl in
        h.unique a b (down a r) (down b r') (sym (dev a) ∙ e ∙ dev b) (sym (inum a) ∙ e' ∙ inum b);
  }

  -- An empty entry becomes an inode that no entry held was.
  recycled-IsTable :
      (dev inum i : ℕ)
      → i < 50
      → (t.inode i).ref ≡ 0
      → ((j : ℕ) → j < 50 → is_inode dev inum (t.inode j) ≡ false)
      → IsTable
          (one_more i held)
          (set_inode i (record (t.inode i) { dev = dev; inum = inum; ref = 1; valid = false }) t)
  recycled-IsTable dev inum i l z none_ = record {
    counted = λ j. ground (arith, h.counted j, h.counted i, z);
    small = λ j. ground (arith, h.small j, h.counted i, z);
    inside = λ j r. ground (arith, h.inside j, l);
    unique = λ a b r r' e e'. elim (Bool-cases (a == i)) [
      | inl u ↦ elim (Bool-cases (b == i)) [
        | inl v ↦ ground (arith, u, v)
        | inr v ↦ absurd (ground (arith, u, v, none_ b, h.inside b, h.counted b, h.small b))
      ]
      | inr u ↦ elim (Bool-cases (b == i)) [
        | inl v ↦ absurd (ground (arith, u, v, none_ a, h.inside a, h.counted a, h.small a))
        | inr v ↦
            h.unique a b (ground arith) (ground arith) (ground (arith, e)) (ground (arith, e'))
      ]
    ];
  }

-- The other calls keep the identity of every entry.
module _ (sb : Superblock) (pid i : ℕ) (t t' : Itable) where
  ilock-identity : ilock sb pid i t ≡ ok t' → (a : ℕ) → identity (t'.inode a) ≡ identity (t.inode a)
  unfolding ilock
  ilock-identity h a = elim (Bool-cases (positive (t.inode i).ref)) [
    | inr u ↦ ground (arith, rw u at h)
    | inl u ↦
        let (lk, ran, rest) = bind_ok (acquiresleep pid (t.inode i).lock) _ t' (rw u at h) in
        let locked = record (t.inode i) { lock = lk } in
        let (ip, ran', rest') = bind_ok (load_if_invalid sb locked t.disk) _ t' rest in
        ap (λ x. identity (x.inode a)) (sym (ok-injective rest'))
        ∙ set_inode-same identity i ip t a (loaded locked ip ran')
  ]
    where
      loaded : (ip ip' : Inode) → load_if_invalid sb ip t.disk ≡ ok ip' → identity ip' ≡ identity ip
      loaded ip ip' h = elim (if_ok ip.valid (ok ip) _ ip' h) [
        | inl e ↦ ap identity (sym (ok-injective e))
        | inr e ↦ elim (if_ok ((load_inode sb ip t.disk).type == 0) panic _ ip' e) [
          | inl e' ↦ ground (arith, e')
          | inr e' ↦ ap identity (sym (ok-injective e')) ∙ load_inode-identity sb ip t.disk
        ]
      ]

  iunlock-identity :
      iunlock sb pid i t ≡ ok t' → (a : ℕ) → identity (t'.inode a) ≡ identity (t.inode a)
  unfolding iunlock
  iunlock-identity h a =
      elim (Bool-cases
        (not (holdingsleep pid (t.inode i).lock) || not (positive (t.inode i).ref))) [
          | inl u ↦ ground (arith, rw u at h)
          | inr u ↦
              ap (λ x. identity (x.inode a)) (sym (ok-injective (rw u at h)))
              ∙ set_inode-same identity i
                  (record (t.inode i) { lock = releasesleep (t.inode i).lock }) t a refl
        ]

  free_inode-identity :
      free_inode sb pid i t ≡ ok t' → (a : ℕ) → identity (t'.inode a) ≡ identity (t.inode a)
  unfolding free_inode
  free_inode-identity h a =
      let (lk, ran, rest) = bind_ok (acquiresleep pid (t.inode i).lock) _ t' h in
      let ((ip, s), ran', rest') =
        bind_ok (itrunc sb (record (t.inode i) { lock = lk }, t.disk)) _ t' rest in
      ap (λ x. identity (x.inode a)) (sym (ok-injective rest'))
      ∙ set_inode-same identity i (record ip { type = 0; valid = false; lock = releasesleep lk }) t
          a (itrunc-identity sb (record (t.inode i) { lock = lk }) t.disk (ip, s) ran')

iput-IsTable :
    (sb : Superblock) (pid i : ℕ) (held : ℕ → ℕ) (t t' : Itable)
    → 0 < held i
    → iput sb pid i t ≡ ok t'
    → IsTable held t
    → IsTable (one_less i held) t'
unfolding iput
iput-IsTable sb pid i held t t' p ran h =
    let (t1, ran1, rest) = bind_ok (if last then free_inode sb pid i t else ok t) _ t' ran in
    subst (IsTable (one_less i held)) (ok-injective rest)
      (drop_ref-IsTable held t1 (IsTable-identity held t t1 (freed t1 ran1) h) i p)
  where
    last : Bool
    last = (t.inode i).ref == 1 && ((t.inode i).valid && (t.inode i).nlink == 0)

    freed :
        (t1 : Itable)
        → (if last then free_inode sb pid i t else ok t) ≡ ok t1
        → (a : ℕ) → identity (t1.inode a) ≡ identity (t.inode a)
    freed t1 h a = elim (Bool-cases last) [
      | inl u ↦ free_inode-identity sb pid i t t1 (rw u at h) a
      | inr u ↦ ap (λ x. identity (x.inode a)) (sym (ok-injective (rw u at h)))
    ]

iget-IsTable :
    (dev inum i : ℕ) (held : ℕ → ℕ) (t t' : Itable)
    → iget dev inum t ≡ ok (i, t')
    → held i < 2 ^ 31 - 1
    → IsTable held t
    → IsTable (one_more i held) t'
iget-IsTable dev inum i held t t' ran q h = elim (Iget-cases dev inum t) [
  | inl (j, l, is, e) ↦
      let same = ok-injective (sym e ∙ ran) in
      let q' : held j < 2 ^ 31 - 1 =
        subst (λ x. held x < 2 ^ 31 - 1) (sym (ap (λ r. r.0) same)) q in
      subst (λ r. IsTable (one_more r.0 held) r.1) same
        (idup-IsTable held t h j q' (ground (arith, is, h.counted j)))
  | inr (none_, inl (j, l, z, e)) ↦
      subst (λ r. IsTable (one_more r.0 held) r.1) (ok-injective (sym e ∙ ran))
        (recycled-IsTable held t h dev inum j l z none_)
  | inr (none_, inr (full, e)) ↦ ground (arith, sym e ∙ ran)
]

Call-IsTable :
    (sb : Superblock) (w w' : (ℕ → ℕ) × Itable) → Call sb w w' → IsTable w.0 w.1 → IsTable w'.0 w'.1
Call-IsTable sb w w' (gets dev inum i held t t' ran q) h = iget-IsTable dev inum i held t t' ran q h
Call-IsTable sb w w' (dups i held t p q) h = idup-IsTable held t h i q p
Call-IsTable sb w w' (locks pid i held t t' p ran) h =
    IsTable-identity held t t' (ilock-identity sb pid i t t' ran) h
Call-IsTable sb w w' (unlocks pid i held t t' p ran) h =
    IsTable-identity held t t' (iunlock-identity sb pid i t t' ran) h
Call-IsTable sb w w' (puts pid i held t t' p ran) h = iput-IsTable sb pid i held t t' p ran h

-- One copy of an inode in memory. From a table whose counts are 0, over any sequence of `iget`,
-- `idup`, `ilock`, `iunlock` and `iput` by holders of references, fewer than 2 ^ 31 to an entry,
-- the count of each entry is the number of references to it that are held, only entries of the
-- table are held, and no two entries that are held are the same inode.
pub Calls-IsTable :
    (sb : Superblock) (t : Itable) (w : (ℕ → ℕ) × Itable)
    → ((i : ℕ) → (t.inode i).ref ≡ 0)
    → Calls sb (λ _. 0, t) w
    → IsTable w.0 w.1
Calls-IsTable sb t w zero_ r =
    go (λ _. 0, t) w r
      (record {
        counted = zero_;
        small = λ i. omega arith;
        inside = λ i l. absurd (omega arith);
        unique = λ i j l l' e e'. absurd (omega arith);
      })
  where
    go : (w w' : (ℕ → ℕ) × Itable) → Calls sb w w' → IsTable w.0 w.1 → IsTable w'.0 w'.1
    go w w' (done v) h = h
    go w w'' (call v w' v'' before c) h = Call-IsTable sb w' w'' c (go w w' before h)
