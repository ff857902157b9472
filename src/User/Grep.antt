-- ===== src/User/Grep.antt =====
-- The matcher of xv6-riscv/user/grep.c, on strings in memory. A loop over the text takes `limit`
-- passes, and none is left is `none`; so is a pattern longer than the fuel of `matchhere`.
pub mod Regex
mod Examples
use aca_riscv_secure_boot.Common.{
  ℕ, zero, suc, ◌+◌, Bool, true, false, not, ◌&&◌, ◌||◌, ◌==◌, if◌then◌else◌, Option, none, some,
}
use aca_riscv_secure_boot.Common.Memory.{Memory}

-- The loop of `matchstar`; `here` is `matchhere` of the rest of the pattern.
pub matchstar : (ℕ → Option Bool) → ℕ → ℕ → ℕ → Memory → Option Bool
matchstar here zero c text m = none
matchstar here (suc limit) c text m =
    let rest = matchstar here limit c (text + 1) m in
    elim (here text) [
      | none ↦ none
      | some true ↦ some true
      | some false ↦ if not (m text == 0) && (m text == c || c == b'.') then rest else some false
    ]

-- Search for `re` at the beginning of `text`.
pub matchhere : ℕ → ℕ → ℕ → ℕ → Memory → Option Bool
matchhere zero limit re text m = none
matchhere (suc fuel) limit re text m =
    if m re == 0
    then some true
    else if m (re + 1) == b'*'
    then matchstar (λ t. matchhere fuel limit (re + 2) t m) limit (m re) text m
    else if m re == b'$' && m (re + 1) == 0
    then some (m text == 0)
    else if not (m text == 0) && (m re == b'.' || m re == m text)
    then matchhere fuel limit (re + 1) (text + 1) m
    else some false

-- The loop of `match`.
pub match_loop : ℕ → ℕ → ℕ → ℕ → Memory → Option Bool
match_loop zero fuel re text m = none
match_loop (suc limit) fuel re text m =
    let rest = match_loop limit fuel re (text + 1) m in
    elim (matchhere fuel (suc limit) re text m) [
      | none ↦ none
      | some true ↦ some true
      | some false ↦ if not (m text == 0) then rest else some false
    ]

pub match : ℕ → ℕ → ℕ → ℕ → Memory → Option Bool
match limit fuel re text m =
    if m re == b'^' then matchhere fuel limit (re + 1) text m else match_loop limit fuel re text m
