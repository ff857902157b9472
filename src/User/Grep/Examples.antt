-- ===== src/User/Grep/Examples.antt =====
-- The theorem on the matcher at a pattern and a text in memory.
use aca_riscv_secure_boot.Common.{◌≡◌, ◌↔◌, refl, Bool, true, arith, some, [], ◌∷◌}
use aca_riscv_secure_boot.Common.Memory.{Memory, write_bytes}
use aca_riscv_secure_boot.User.Grep.{match, matchhere, match_loop, matchstar}
use aca_riscv_secure_boot.User.Grep.Regex.{IsString, Matches, match-Matches}

-- `a*b$` at 100 and `xaab` at 200
abbrev pattern_text : Memory
pattern_text =
    write_bytes (write_bytes (λ _. 0) 100 (97 ∷ 42 ∷ 98 ∷ 36 ∷ [])) 200 (120 ∷ 97 ∷ 97 ∷ 98 ∷ [])

pattern_there : IsString pattern_text 100 (97 ∷ 42 ∷ 98 ∷ 36 ∷ [])
unfolding IsString write_bytes
pattern_there = (
  refl,
  (λ e. omega (arith, e)),
  (
    refl,
    (λ e. omega (arith, e)),
    (refl, (λ e. omega (arith, e)), (refl, (λ e. omega (arith, e)), refl)),
  ),
)

text_there : IsString pattern_text 200 (120 ∷ 97 ∷ 97 ∷ 98 ∷ [])
unfolding IsString write_bytes
text_there = (
  refl,
  (λ e. omega (arith, e)),
  (
    refl,
    (λ e. omega (arith, e)),
    (refl, (λ e. omega (arith, e)), (refl, (λ e. omega (arith, e)), refl)),
  ),
)

match-Matches_example :
    (b : Bool) × (match 5 5 100 200 pattern_text ≡ some b)
    × ((b ≡ true) ↔ Matches (97 ∷ 42 ∷ 98 ∷ 36 ∷ []) (120 ∷ 97 ∷ 97 ∷ 98 ∷ []))
match-Matches_example =
    match-Matches 5 5 100 200 (97 ∷ 42 ∷ 98 ∷ 36 ∷ []) (120 ∷ 97 ∷ 97 ∷ 98 ∷ []) pattern_text
      pattern_there text_there (omega arith) (omega arith)

found : match 5 5 100 200 pattern_text ≡ some true
unfolding match match_loop matchhere matchstar write_bytes
found = refl
