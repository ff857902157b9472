-- ===== src/Kernel/Fs/Path.antt =====
-- Paths of xv6-riscv/kernel/fs.c. A path is a string in memory; its loops take fuel, and none of it
-- left is the first `none`.
pub mod Element
mod Examples
use aca_riscv_secure_boot.Common.{
  ℕ, zero, suc, ◌+◌, ◌-◌, Bool, true, false, not, ◌&&◌, ◌||◌, ltb, ◌==◌, if◌then◌else◌, Option,
  none, some,
}
use aca_riscv_secure_boot.Common.Memory.{Memory, store}
use aca_riscv_secure_boot.Boot.Strings.{memmove}
use aca_riscv_secure_boot.Kernel.Outcome.{Outcome, ok, panic, ◌>>=◌}
use aca_riscv_secure_boot.Kernel.Fs.{Superblock}
use aca_riscv_secure_boot.Kernel.Fs.Table.{iget, idup, ilock, iunlock, iunlockput, iput}
use aca_riscv_secure_boot.Kernel.Fs.Dir.{dirsiz, t_dir, KernelState, dirlookup}

-- `ROOTDEV` and `ROOTINO`
abbrev pub root_dev : ℕ
root_dev = 1

abbrev pub root_ino : ℕ
root_ino = 1

-- `'/'`
abbrev pub slash : ℕ
slash = 47

-- `while(*path == '/') path++`
pub skip_slashes : ℕ → ℕ → Memory → Option ℕ
skip_slashes zero path m = none
skip_slashes (suc fuel) path m =
    let rest = skip_slashes fuel (path + 1) m in if m path == slash then rest else some path

-- `while(*path != '/' && *path != 0) path++`
pub skip_name : ℕ → ℕ → Memory → Option ℕ
skip_name zero path m = none
skip_name (suc fuel) path m =
    let rest = skip_name fuel (path + 1) m in
    if not (m path == slash) && not (m path == 0) then rest else some path

-- The element from `s` on, `len` bytes of it, goes to `name`.
pub copy_name : ℕ → ℕ → ℕ → Memory → Memory
copy_name name s len m =
    if ltb len dirsiz then store (memmove name s len m) (name + len) 0 else memmove name s dirsiz m

-- Copy the next path element from path into name. The pointer behind it, or none.
pub skipelem : ℕ → ℕ → ℕ → Memory → Option (Option ℕ × Memory)
skipelem fuel path name m = elim (skip_slashes fuel path m) [
  | none ↦ none
  | some s ↦ if m s == 0 then some (none, m) else elim (skip_name fuel s m) [
    | none ↦ none
    | some e ↦
        let m' = copy_name name s (e - s) m in
        elim (skip_slashes fuel e m') [ none ↦ none | some path' ↦ some (some path', m') ]
  ]
]

module _ (sb : Superblock) (pid de : ℕ) where
  -- The loop of `namex` from entry `i` on: the entry found, or none. The flag tells `nameiparent`.
  pub namex_loop :
      ℕ → ℕ → ℕ → ℕ → ℕ → Bool → KernelState → Option (Outcome (Option ℕ × KernelState))
  namex_loop zero limit i path name parent k = none
  namex_loop (suc fuel) limit i path name parent (t, m) = elim (skipelem limit path name m) [
    | none ↦ none
    | some (none, m') ↦
        some
          (if parent then (do t' ← iput sb pid i t; ok (none, (t', m'))) else ok (some i, (t, m')))
    | some (some path', m') ↦ elim (ilock sb pid i t) [
      | Outcome.sleep ↦ some Outcome.sleep
      | panic ↦ some panic
      | ok t1 ↦
          if not ((t1.inode i).type == t_dir)
          then some (do t' ← iunlockput sb pid i t1; ok (none, (t', m')))
          else if parent && (m' path' == 0)
          then some (do t' ← iunlock sb pid i t1; ok (some i, (t', m')))
          else elim (dirlookup sb i name de (t1, m')) [
            | Outcome.sleep ↦ some Outcome.sleep
            | panic ↦ some panic
            | ok (none, (t2, m2)) ↦ some (do t' ← iunlockput sb pid i t2; ok (none, (t', m2)))
            | ok (some (next, off), (t2, m2)) ↦ elim (iunlockput sb pid i t2) [
              | Outcome.sleep ↦ some Outcome.sleep
              | panic ↦ some panic
              | ok t3 ↦ namex_loop fuel limit next path' name parent (t3, m2)
            ]
          ]
    ]
  ]

  -- Look up the inode for a path name, or its parent, from the root or the entry of `cwd`.
  pub namex : ℕ → ℕ → ℕ → Bool → ℕ → KernelState → Option (Outcome (Option ℕ × KernelState))
  namex limit cwd path parent name (t, m) =
      elim (if m path == slash then iget root_dev root_ino t else ok (cwd, idup cwd t)) [
        | Outcome.sleep ↦ some Outcome.sleep
        | panic ↦ some panic
        | ok (i, t') ↦ namex_loop limit limit i path name parent (t', m)
      ]

  -- With the local array `name`.
  abbrev pub namei : ℕ → ℕ → ℕ → ℕ → KernelState → Option (Outcome (Option ℕ × KernelState))
  namei limit cwd path name k = namex limit cwd path false name k

  abbrev pub nameiparent : ℕ → ℕ → ℕ → ℕ → KernelState → Option (Outcome (Option ℕ × KernelState))
  nameiparent limit cwd path name k = namex limit cwd path true name k
