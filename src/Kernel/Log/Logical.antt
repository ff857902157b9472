-- ===== src/Kernel/Log/Logical.antt =====
-- What a disk with a log stands for: the blocks as recovery would leave them.
use aca_riscv_secure_boot.Common.{
  ℕ, zero, suc, ◌+◌, ◌≡◌, ◌<◌, ◌≤◌, ◌⊎◌, inl, inr, refl, arith, ◌==◌, if◌then◌else◌, Bool-cases,
}
use aca_riscv_secure_boot.Kernel.Log.{Block, Blocks, put}

-- The content of block `b` once the first `n` logged blocks have been installed over `d`.
unfoldable pub replay : ℕ → (ℕ → ℕ) → Blocks → Blocks → ℕ → Block
replay zero block logged d b = d b
replay (suc n) block logged d b =
    let rest = replay n block logged d b in if block n == b then logged n else rest

-- The header on disk says how many blocks are logged, and which.
abbrev pub logged_count : ℕ → Blocks → ℕ
logged_count start d = d start 0

abbrev pub logged_block : ℕ → Blocks → ℕ → ℕ
logged_block start d i = d start (1 + i)

abbrev pub logged_data : ℕ → Blocks → Blocks
logged_data start d i = d (start + i + 1)

abbrev pub logical : ℕ → Blocks → ℕ → Block
logical start d = replay (logged_count start d) (logged_block start d) (logged_data start d) d

-- The first `n` of these blocks lie outside the log, which takes the `size` blocks from `start`.
abbrev pub IsHome : ℕ → ℕ → ℕ → (ℕ → ℕ) → Type 0
IsHome start size n block = (i : ℕ) → i < n → (block i < start) ⊎ (start + size ≤ block i)

-- Block `b` lies outside the log.
abbrev pub Outside : ℕ → ℕ → ℕ → Type 0
Outside start size b = (b < start) ⊎ (start + size ≤ b)

pub replay_ext :
    (n : ℕ) (block block' : ℕ → ℕ) (logged logged' d d' : Blocks) (b : ℕ)
    → ((i : ℕ) → i < n → block i ≡ block' i)
    → ((i : ℕ) → i < n → logged i ≡ logged' i)
    → d b ≡ d' b
    → replay n block logged d b ≡ replay n block' logged' d' b
unfolding replay
replay_ext zero block block' logged logged' d d' b p q r = r
replay_ext (suc n) block block' logged logged' d d' b p q r = ground (
  arith,
  p n,
  q n,
  replay_ext n block block' logged logged' d d' b (λ i l. p i (omega arith))
      (λ i l. q i (omega arith)) r,
)

-- A block that is in the log does not depend on its home.
pub replay_logged :
    (n : ℕ) (block : ℕ → ℕ) (logged d d' : Blocks) (b i : ℕ)
    → i < n
    → block i ≡ b
    → replay n block logged d b ≡ replay n block logged d' b
unfolding replay
replay_logged zero block logged d d' b i h e = absurd (omega arith)
replay_logged (suc n) block logged d d' b i h e = elim (Bool-cases (block n == b)) [
  | inl t ↦ rw t
  | inr t ↦ rw t (replay_logged n block logged d d' b i (ground arith) e)
]

-- Installing one of the logged blocks changes nothing of what the log stands for.
pub replay-put :
    (n : ℕ) (block : ℕ → ℕ) (logged d : Blocks) (v : Block) (b i : ℕ)
    → i < n
    → replay n block logged (put d (block i) v) b ≡ replay n block logged d b
replay-put n block logged d v b i h = elim (Bool-cases (b == block i)) [
  | inl t ↦ replay_logged n block logged (put d (block i) v) d b i h (ground arith)
  | inr t ↦
      replay_ext n block block logged logged (put d (block i) v) d b (λ j l. refl) (λ j l. refl)
        (rw t)
]
