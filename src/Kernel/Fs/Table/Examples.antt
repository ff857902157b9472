-- ===== src/Kernel/Fs/Table/Examples.antt =====
-- The theorems of the table of inodes at an empty table.
use aca_riscv_secure_boot.Common.{ℕ, ◌≡◌, ◌<◌, ◌⊎◌, refl, false, arith, []}
use aca_riscv_secure_boot.Kernel.Outcome.{ok, panic}
use aca_riscv_secure_boot.Kernel.Sleeplock.{initsleeplock}
use aca_riscv_secure_boot.Kernel.Fs.{Superblock, fs_magic}
use aca_riscv_secure_boot.Kernel.Fs.Table.{Itable, iget, iget_loop, iput, set_inode, drop_ref}
use aca_riscv_secure_boot.Kernel.Fs.Table.Refs.{
  Call, Calls, IsTable, one_more, one_less, Calls-IsTable,
}
use aca_riscv_secure_boot.Kernel.Fs.Table.Found.{Found, IsOf, iget-Found}

abbrev sb : Superblock
sb = record { magic = fs_magic; size = 8; ninodes = 16; inodestart = 3; bmapstart = 2 }

abbrev empty_table : Itable
empty_table = record {
  inode = λ i. record {
    dev = 0;
    inum = 0;
    ref = 0;
    lock = initsleeplock;
    valid = false;
    type = 0;
    major = 0;
    minor = 0;
    nlink = 0;
    size = 0;
    addrs = λ _. 0;
  };
  disk = record { view = λ b i. 0; logged = [] };
}

abbrev first_got : Itable
first_got =
    set_inode 0 (record (empty_table.inode 0) { dev = 1; inum = 5; ref = 1; valid = false })
      empty_table

got : iget 1 5 empty_table ≡ ok (0, first_got)
unfolding iget iget_loop
got = refl

dropped : iput sb 3 0 first_got ≡ ok (drop_ref 0 first_got)
unfolding iput
dropped = refl

abbrev none_held : ℕ → ℕ
none_held _ = 0

-- A reference is taken and dropped.
Calls-IsTable_example : IsTable (one_less 0 (one_more 0 none_held)) (drop_ref 0 first_got)
Calls-IsTable_example =
    Calls-IsTable sb empty_table (one_less 0 (one_more 0 none_held), drop_ref 0 first_got)
      (λ i. refl)
      (Calls.call (none_held, empty_table) (one_more 0 none_held, first_got)
        (one_less 0 (one_more 0 none_held), drop_ref 0 first_got)
        (Calls.call (none_held, empty_table) (none_held, empty_table)
          (one_more 0 none_held, first_got) (Calls.done (none_held, empty_table))
          (Call.gets 1 5 0 none_held empty_table first_got got (omega arith)))
        (Call.puts 3 0 (one_more 0 none_held) first_got (drop_ref 0 first_got) (omega arith)
          dropped))

empty_table-IsTable : IsTable none_held empty_table
empty_table-IsTable = record {
  counted = λ i. refl;
  small = λ i. omega arith;
  inside = λ i l. absurd (omega arith);
  unique = λ i j l l' e e'. absurd (omega arith);
}

iget-Found_example :
    ((i : ℕ) × (t' : Itable) × Found 1 5 none_held empty_table i t')
    ⊎ ((iget 1 5 empty_table ≡ panic)
        × ((j : ℕ) → j < 50 → (0 < none_held j) × (IsOf 1 5 (empty_table.inode j) → ⊥)))
iget-Found_example = iget-Found 1 5 none_held empty_table empty_table-IsTable
