-- ===== src/Kernel/Console/Editor.antt =====
-- `consoleintr` of xv6-riscv/kernel/console.c as a line editor on two lists.
use aca_riscv_secure_boot.Common.{
  ℕ, zero, suc, ◌+◌, ◌%◌, ◌^◌, ◌≡◌, ◌≢◌, ◌<◌, ◌≤◌, refl, ap, ap₂, ◌∙◌, sym, true, false, not, ◌&&◌,
  ◌||◌, Bool-cases, inl, inr, arith, ltb, ◌==◌, if◌then◌else◌, length, length-append, List, [], ◌∷◌,
  ◌++◌,
}
use aca_riscv_secure_boot.Common.Ring.{ring, length-ring, ring_ext, ring_snoc, ring_append}
use aca_riscv_secure_boot.Kernel.Console.{
  Console, backspace, consputc, before_e, kill_loop, distance, store_char, consoleintr,
}

-- The characters that `read` may take, and those of the line that is still edited.
unfoldable pub committed : Console → List ℕ
committed s = ring 128 s.buf s.r (distance s.r s.w)

unfoldable pub line : Console → List ℕ
line s = ring 128 s.buf s.w (distance s.w s.e)

-- The indices are in order around the ring, and the edited line has no newline in it.
pub record IsConsole (s : Console) : Type 0 where
  pub read_small : s.r < 2 ^ 32
  pub write_small : s.w < 2 ^ 32
  pub edit_small : s.e < 2 ^ 32
  pub room : distance s.r s.w + distance s.w s.e ≤ 128
  pub open_line : (i : ℕ) → i < distance s.w s.e → s.buf ((s.w + i) % 128) ≢ 10

unfoldable pub drop_last : List ℕ → List ℕ
drop_last [] = []
drop_last (x ∷ []) = []
drop_last (x ∷ y ∷ ys) = x ∷ drop_last (y ∷ ys)

-- What a character does to the committed characters and the edited line.
unfoldable pub edit : ℕ → List ℕ × List ℕ → List ℕ × List ℕ
unfolding drop_last
edit c (done, text) =
    if c == 16
    then (done, text)
    else if c == 21
    then (done, [])
    else if c == 8 || c == 127
    then (done, drop_last text)
    else if not (c == 0) && ltb (length done + length text) 128
    then (let c' = if c == 13 then 10 else c in
        let longer = text ++ c' ∷ [] in
        if c' == 10 || c' == 4 || length done + length longer == 128
        then (done ++ longer, [])
        else (done, longer))
    else (done, text)

abbrev pub view : Console → List ℕ × List ℕ
view s = (committed s, line s)

pub distance_e :
    (s : Console) → IsConsole s → distance s.r s.e ≡ distance s.r s.w + distance s.w s.e
distance_e s ok = omega (arith, ok.read_small, ok.write_small, ok.edit_small, ok.room)

kill_loop_lem :
    (left : ℕ) (s : Console) (out : List ℕ)
    → IsConsole s
    → left ≡ distance s.w s.e
    → (kill_loop left s out).0 ≡ record s { e = s.w }
unfolding kill_loop
kill_loop_lem zero s out ok h =
    ap (λ (x : ℕ). record s { e = x }) (omega (arith, ok.write_small, ok.edit_small))
kill_loop_lem (suc left) s out ok h =
    let more : (s.e == s.w) ≡ false = ground (arith, ok.write_small, ok.edit_small) in
    let other : (s.buf (before_e s % 128) == 10) ≡ false =
      ground (arith, ok.open_line left, ok.write_small, ok.edit_small) in
    rw (more, other)
      (kill_loop_lem left (record s { e = before_e s }) (out ++ consputc backspace)
        record {
          read_small = ok.read_small;
          write_small = ok.write_small;
          edit_small = omega arith;
          room = omega (arith, ok.room, ok.write_small, ok.edit_small);
          open_line = λ i l. ok.open_line i (omega (arith, ok.write_small, ok.edit_small));
        }
        (omega (arith, ok.write_small, ok.edit_small)))

drop_last-snoc : (xs : List ℕ) (x : ℕ) → drop_last (xs ++ x ∷ []) ≡ xs
unfolding drop_last
drop_last-snoc [] x = refl
drop_last-snoc (y ∷ []) x = refl
drop_last-snoc (y ∷ z ∷ zs) x = ap (λ t. y ∷ t) (drop_last-snoc (z ∷ zs) x)

module _ (s : Console) (ok : IsConsole s) where
  killed-IsConsole : IsConsole (record s { e = s.w })
  killed-IsConsole = record {
    read_small = ok.read_small;
    write_small = ok.write_small;
    edit_small = ok.write_small;
    room = omega (arith, ok.room, ok.write_small);
    open_line = λ i l. absurd (omega (arith, ok.write_small));
  }

  killed_view : view (record s { e = s.w }) ≡ (committed s, [])
  unfolding line committed ring
  killed_view =
      let none : distance s.w s.w ≡ 0 = omega (arith, ok.write_small) in
      ap (λ t. (committed s, t)) (rw none refl)

  module _ (some_ : (s.e == s.w) ≡ false) where
    erased-IsConsole : IsConsole (record s { e = before_e s })
    erased-IsConsole = record {
      read_small = ok.read_small;
      write_small = ok.write_small;
      edit_small = omega arith;
      room = ground (arith, ok.room, ok.write_small, ok.edit_small);
      open_line = λ i l. ok.open_line i (ground (arith, ok.write_small, ok.edit_small));
    }

    erased_view : view (record s { e = before_e s }) ≡ (committed s, drop_last (line s))
    unfolding line committed
    erased_view =
        let longer : distance s.w s.e ≡ suc (distance s.w (before_e s)) =
          ground (arith, ok.write_small, ok.edit_small) in
        ap (λ t. (committed s, t))
          (sym (
            ap (λ n. drop_last (ring 128 s.buf s.w n)) longer
            ∙ ap drop_last (ring_snoc 128 s.buf s.w (distance s.w (before_e s)))
            ∙ drop_last-snoc _ _))

  -- One more character behind the edited line.
  module _ (c : ℕ) (free : distance s.r s.e < 128) where
    abbrev stored : Console
    stored = record s { buf = λ x. if x == s.e % 128 then c else s.buf x; e = (s.e + 1) % 2 ^ 32 }

    abbrev whole : Console
    whole = record stored { w = stored.e }

    longer : distance s.w stored.e ≡ suc (distance s.w s.e)
    longer = omega (arith, ok.write_small, ok.edit_small, distance_e s ok)

    stored_committed : ring 128 stored.buf s.r (distance s.r s.w) ≡ committed s
    unfolding committed
    stored_committed = ring_ext 128 stored.buf s.buf s.r s.r (distance s.r s.w) (λ i l.
        ground (arith, ok.read_small, ok.write_small, ok.edit_small, ok.room, distance_e s ok))

    stored_line : ring 128 stored.buf s.w (distance s.w stored.e) ≡ line s ++ c ∷ []
    unfolding line
    stored_line =
        ap (ring 128 stored.buf s.w) longer
        ∙ ring_snoc 128 stored.buf s.w (distance s.w s.e)
        ∙ ap₂ (λ t x. t ++ x ∷ [])
            (ring_ext 128 stored.buf s.buf s.w s.w (distance s.w s.e) (λ i l.
              ground
                (arith, ok.read_small, ok.write_small, ok.edit_small, ok.room, distance_e s ok)))
            (ground (arith, ok.write_small, ok.edit_small))

    stored_view : view stored ≡ (committed s, line s ++ c ∷ [])
    unfolding line committed
    stored_view = ap₂ (λ t u. (t, u)) stored_committed stored_line

    whole_view : view whole ≡ (committed s ++ (line s ++ c ∷ []), [])
    unfolding line committed ring
    whole_view =
        let all : distance s.r stored.e ≡ distance s.r s.w + distance s.w stored.e =
          omega (arith, ok.read_small, ok.write_small, ok.edit_small, distance_e s ok, longer) in
        let none : distance stored.e stored.e ≡ 0 = omega arith in
        ap₂ (λ t u. (t, u))
          (ap (ring 128 stored.buf s.r) all
            ∙ ring_append 128 stored.buf s.r (distance s.r s.w) (distance s.w stored.e)
            ∙ ap₂ ◌++◌ stored_committed (
                ring_ext 128 stored.buf stored.buf (s.r + distance s.r s.w) s.w
                  (distance s.w stored.e)
                  (λ i l. ap stored.buf (omega (arith, ok.read_small, ok.write_small)))
                ∙ stored_line))
          (rw none refl)

    stored-IsConsole : c ≢ 10 → IsConsole stored
    stored-IsConsole h = record {
      read_small = ok.read_small;
      write_small = ok.write_small;
      edit_small = omega arith;
      room = omega (arith, longer, distance_e s ok, free);
      open_line =
          λ i l. ground (arith, longer, h, ok.open_line i, ok.write_small, ok.edit_small, ok.room);
    }

    whole-IsConsole : IsConsole whole
    whole-IsConsole = record {
      read_small = ok.read_small;
      write_small = omega arith;
      edit_small = omega arith;
      room = omega (arith, distance_e s ok, free, ok.read_small, ok.edit_small);
      open_line = λ i l. absurd (omega arith);
    }

    lengths : length (committed s) + length (line s ++ c ∷ []) ≡ distance s.r stored.e
    unfolding line committed
    lengths = omega (
      arith,
      length-append (line s) (c ∷ []),
      length-ring 128 s.buf s.r (distance s.r s.w),
      length-ring 128 s.buf s.w (distance s.w s.e),
      distance_e s ok,
      ok.read_small,
      ok.edit_small,
    )

  lengths_view : length (committed s) + length (line s) ≡ distance s.r s.e
  unfolding line committed
  lengths_view = omega (
    arith,
    length-ring 128 s.buf s.r (distance s.r s.w),
    length-ring 128 s.buf s.w (distance s.w s.e),
    distance_e s ok,
  )

  no_line : (s.e == s.w) ≡ true → line s ≡ drop_last (line s)
  unfolding line drop_last ring
  no_line h = let none : distance s.w s.e ≡ 0 = ground (arith, ok.write_small) in rw none refl

  store-Edited :
      (c0 : ℕ)
      → distance s.r s.e < 128
      → IsConsole (store_char c0 s).0
        × (view (store_char c0 s).0 ≡ (
            let c = if c0 == 13 then 10 else c0 in
            let longer = line s ++ c ∷ [] in
            if c == 10 || c == 4 || length (committed s) + length longer == 128
            then (committed s ++ longer, [])
            else (committed s, longer)))
  unfolding store_char
  store-Edited c0 free =
      let c = if c0 == 13 then 10 else c0 in
      let test = c == 10 || c == 4 || distance s.r (stored c free).e == 128 in
      elim (Bool-cases test) [
        | inl t ↦ rw (lengths c free) (rw t (whole-IsConsole c free, whole_view c free))
        | inr t ↦
            rw (lengths c free)
              (rw t (stored-IsConsole c free (ground (arith, t)), stored_view c free))
      ]

-- The keyboard is a line editor. On every character the indices of the buffer stay in order, at most
-- 128 characters are held, and what `read` may take and what is still edited change as the editor
-- says: ^P nothing, ^U drops the line, ^H and delete its last character, and any other but NUL is
-- put behind it if there is room, where a newline, ^D or the last free place commits the line.
pub consoleintr-edit :
    (c : ℕ) (s : Console)
    → IsConsole s
    → IsConsole (consoleintr c s).0 × (view (consoleintr c s).0 ≡ edit c (view s))
unfolding consoleintr edit
consoleintr-edit c s ok = elim (Bool-cases (c == 16)) [
  | inl t ↦ rw t (ok, refl)
  | inr p ↦ elim (Bool-cases (c == 21)) [
    | inl t ↦
        rw (p, t, kill_loop_lem (distance s.w s.e) s [] ok refl)
          (killed-IsConsole s ok, killed_view s ok)
    | inr u ↦ elim (Bool-cases (c == 8 || c == 127)) [
      | inl t ↦ elim (Bool-cases (s.e == s.w)) [
        | inl none ↦ rw (p, u, t, none) (ok, ap (λ l. (committed s, l)) (no_line s ok none))
        | inr some ↦ rw (p, u, t, some) (erased-IsConsole s ok some, erased_view s ok some)
      ]
      | inr h ↦ elim (Bool-cases (not (c == 0) && ltb (distance s.r s.e) 128)) [
        | inl t ↦ rw (p, u, h, lengths_view s ok, t) (store-Edited s ok c (ground (arith, t)))
        | inr t ↦ rw (p, u, h, lengths_view s ok, t) (ok, refl)
      ]
    ]
  ]
]
