-- ===== src/Kernel/Fs/Content/Read.antt =====
-- `readi` of xv6-riscv/kernel/fs.c on the bytes of a file.
use aca_riscv_secure_boot.Common.{
  ℕ, zero, suc, ◌+◌, ◌-◌, ◌*◌, ◌/◌, ◌%◌, ◌^◌, min, ◌≡◌, ◌≢◌, ◌<◌, ◌≤◌, refl, ap, ap₂, append-nil,
  ◌∙◌, sym, Bool, true, false, ◌||◌, Bool-cases, inl, inr, arith, ltb, ltb→lt, ltb→le, lt→ltb,
  le→ltb, ne→==, if◌then◌else◌, List, [], ◌++◌, append_assoc,
}
use aca_riscv_secure_boot.Common.Int.{pos}
use aca_riscv_secure_boot.Common.Memory.{read_bytes, read_bytes_ext, read_bytes_add}
use aca_riscv_secure_boot.Kernel.Outcome.{ok}
use aca_riscv_secure_boot.Kernel.Fs.{Superblock, Disk}
use aca_riscv_secure_boot.Kernel.Fs.Inode.{Inode, bmap}
use aca_riscv_secure_boot.Kernel.Fs.Inode.Map.{address, IsMapped}
use aca_riscv_secure_boot.Kernel.Fs.Inode.Bmap.{bmap-Mapped}
use aca_riscv_secure_boot.Kernel.Fs.Content.{chunk, read_loop, readi}

-- Byte `x` of the file.
abbrev pub file_byte : Inode → Disk → ℕ → ℕ
file_byte ip s x = s.view (address ip s (x / 1024)) (x % 1024)

module _ (sb : Superblock) (ip : Inode) (s : Disk) (inv : IsMapped sb ip s)
    (small : ip.size ≤ 268 * 1024)
    (full : (x : ℕ) → x < ip.size → address ip s (x / 1024) ≢ 0) where
  bmap_found :
      (x : ℕ) → x < ip.size → bmap sb (x / 1024) (ip, s) ≡ ok (address ip s (x / 1024), (ip, s))
  bmap_found x l =
      let (r, ran, m) = bmap-Mapped sb ip s (x / 1024) inv (omega arith) in
      ran ∙ ap ok (m.found (full x l))

  read_step :
      (to : ℕ → Bool) (fuel tot off n : ℕ) (out : List ℕ)
      → tot < n
      → off < ip.size
      → to tot ≡ true
      → read_loop sb to (suc fuel) tot off n out (ip, s)
        ≡ read_loop sb to fuel
            (tot + chunk n tot off)
            (off + chunk n tot off)
            n
            (out ++ read_bytes (s.view (address ip s (off / 1024))) (off % 1024) (chunk n tot off))
            (ip, s)
  unfolding read_loop
  read_step to fuel tot off n out l h t =
      rw (lt→ltb tot n l, bmap_found off h, ne→== (address ip s (off / 1024)) 0 (full off h), t)
        refl

  -- The bytes of one pass are bytes of the file.
  chunk_bytes :
      (off m : ℕ)
      → off % 1024 + m ≤ 1024
      → read_bytes (s.view (address ip s (off / 1024))) (off % 1024) m
        ≡ read_bytes (file_byte ip s) off m
  chunk_bytes off m h =
      read_bytes_ext (s.view (address ip s (off / 1024))) (file_byte ip s) (off % 1024) off m
        (λ i l.
          let block : (off + i) / 1024 ≡ off / 1024 = omega arith in
          let place : (off + i) % 1024 ≡ off % 1024 + i = omega arith in
          sym (ap₂ (λ (b o : ℕ). s.view (address ip s b) o) block place))

  read_loop-bytes :
      (fuel tot off n : ℕ) (out : List ℕ)
      → n ≤ tot + fuel
      → tot ≤ n
      → off + (n - tot) ≤ ip.size
      → read_loop sb (λ _. true) fuel tot off n out (ip, s)
        ≡ ok (pos n, out ++ read_bytes (file_byte ip s) off (n - tot), (ip, s))
  read_loop-bytes zero tot off n out h h' h'' =
      let e : n ≡ tot = omega arith in
      let none : tot - tot ≡ 0 = omega arith in
      rw (e, none)
        (unfold read_loop read_bytes in ap (λ o. ok (pos tot, o, (ip, s))) (sym (append-nil out)))
  read_loop-bytes (suc fuel) tot off n out h h' h'' = elim (Bool-cases (ltb tot n)) [
    | inl t ↦
        let l = ltb→lt tot n t in
        let m = chunk n tot off in
        let bounds : (0 < m) × (m ≤ n - tot) × (off % 1024 + m ≤ 1024) = omega arith in
        let split : n - tot ≡ m + (n - (tot + m)) = omega (arith, bounds) in
        read_step (λ _. true) fuel tot off n out l (omega arith) refl
        ∙ read_loop-bytes fuel (tot + m) (off + m) n
            (out ++ read_bytes (s.view (address ip s (off / 1024))) (off % 1024) m)
            (omega (arith, bounds)) (omega (arith, bounds)) (omega (arith, bounds))
        ∙ ap (λ o. ok (pos n, o, (ip, s)))
            (append_assoc out _ _
              ∙ ap (λ b. out ++ b)
                  (ap (λ b. b ++ read_bytes (file_byte ip s) (off + m) (n - (tot + m)))
                      (chunk_bytes off m bounds.2)
                    ∙ sym (read_bytes_add (file_byte ip s) off m (n - (tot + m)))
                    ∙ ap (read_bytes (file_byte ip s) off) (sym split)))
    | inr t ↦
        let e : n ≡ tot = omega (arith, ltb→le tot n t) in
        let none : tot - tot ≡ 0 = omega arith in
        rw (e, none)
          (unfold read_loop read_bytes in
            rw (le→ltb tot tot (omega arith))
              (ap (λ o. ok (pos tot, o, (ip, s))) (sym (append-nil out))))
  ]

-- A read returns the file. If every block below the size is there and the memory of the reader can
-- be stored to, `readi` stores the bytes of the file from `off` on, `n` of them or up to the end,
-- across the boundaries of blocks, returns their number, and changes nothing.
pub readi-bytes :
    (sb : Superblock) (ip : Inode) (s : Disk) (off n : ℕ)
    → IsMapped sb ip s
    → ip.size ≤ 268 * 1024
    → ((x : ℕ) → x < ip.size → address ip s (x / 1024) ≢ 0)
    → off ≤ ip.size
    → off + n < 2 ^ 32
    → readi sb (λ _. true) off n (ip, s)
      ≡ ok (
        pos (min n (ip.size - off)),
        read_bytes (file_byte ip s) off (min n (ip.size - off)),
        (ip, s),
      )
unfolding readi
readi-bytes sb ip s off n inv small full h l =
    let inside : (ltb ip.size off || ltb ((off + n) % 2 ^ 32) off) ≡ false = ground arith in
    let number : (if ltb ip.size (off + n) then ip.size - off else n) ≡ min n (ip.size - off) =
      ground arith in
    let none : min n (ip.size - off) - 0 ≡ min n (ip.size - off) = omega arith in
    rw (inside, number)
      (read_loop-bytes sb ip s inv small full (min n (ip.size - off)) 0 off (min n (ip.size - off))
          [] (omega arith) (omega arith) (omega arith)
        ∙ ap
            (λ (k : ℕ).
              ok (pos (min n (ip.size - off)), read_bytes (file_byte ip s) off k, (ip, s)))
            none)
