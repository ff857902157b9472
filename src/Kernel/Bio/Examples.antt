-- ===== src/Kernel/Bio/Examples.antt =====
-- The buffer cache of xv6-riscv/kernel/bio.c at concrete inputs.
use aca_riscv_secure_boot.Common.{ℕ, ◌≡◌, ◌≢◌, refl, true, false, arith}
use aca_riscv_secure_boot.Kernel.Outcome.{ok}
use aca_riscv_secure_boot.Kernel.Sleeplock.{initsleeplock, acquiresleep}
use aca_riscv_secure_boot.Kernel.Bio.{
  Bcache, walk, set_buf, bget_ref, bread_locked, bread, binit, binit_loop,
}
use aca_riscv_secure_boot.Kernel.Bio.Cache.{Got, bget_ref-Got, recycled}
use aca_riscv_secure_boot.Kernel.Bio.Sharing.{Use, Uses, IsCurrent}
use aca_riscv_secure_boot.Kernel.Bio.Saved.{mark}
use aca_riscv_secure_boot.Kernel.Bio.Start.{IsBlank, unedited, binit-uses}
use aca_riscv_secure_boot.Kernel.Bio.Read.{IsRead, bread-Content}

-- Memory of zeros, and a disk whose blocks hold their numbers.
abbrev blank : Bcache
blank = record {
  buf = λ b. record {
    valid = false;
    dev = 0;
    blockno = 0;
    lock = initsleeplock;
    refcnt = 0;
    data_at = λ n. 0;
  };
  next = λ b. 0;
  prev = λ b. 0;
  disk = λ dev blockno n. blockno;
}

blank-IsBlank : IsBlank blank
blank-IsBlank = record { dev = λ b. refl; invalid = λ b. refl }

abbrev first : Bcache
first = recycled 0 1 7 (binit blank)

-- The first buffer to be recycled is the one that `binit` put in first.
bget_ref-first : bget_ref 1 7 (binit blank) ≡ ok (0, first)
unfolding bget_ref binit binit_loop walk
bget_ref-first = refl

abbrev second : Bcache
second =
    set_buf 0
      (record (first.buf 0) {
        lock = record { locked = true; pid = 5 };
        data_at = λ n. 7;
        valid = true;
      })
      first

-- Process 5 reads block 7.
bread_locked-first : bread_locked 5 0 first ≡ ok second
unfolding bread_locked acquiresleep binit binit_loop
bread_locked-first = refl

bread-second : bread 5 1 7 (binit blank) ≡ ok (0, second)
unfolding bread
bread-second = rw (bget_ref-first, bread_locked-first) refl

started : IsCurrent unedited (binit blank)
started = binit-uses blank (binit blank) unedited blank-IsBlank Uses.done

one_nonzero : ◌≢◌ {A = ℕ} 1 0
one_nonzero = λ e. ground (arith, e)

bget_ref-Got_example : Got 1 7 started.0 (binit blank)
bget_ref-Got_example = bget_ref-Got 1 7 started.0 (binit blank) started.1

bread-Content_example : IsRead 1 7 (binit blank) 0 second
bread-Content_example =
    bread-Content 5 1 7 started.0 (binit blank) 0 second one_nonzero started.1 bread-second

unused : ((binit blank).buf 0).refcnt ≡ 0
unfolding binit binit_loop
unused = refl

got : Use unedited (binit blank) unedited first
got = Use.gets unedited 1 7 0 (binit blank) first one_nonzero bget_ref-first (omega (arith, unused))

used : Use unedited first unedited second
used = Use.reads unedited 5 0 first second one_nonzero (ground arith) bread_locked-first

-- Process 5 changes the block.
abbrev third : Bcache
third = set_buf 0 (record (second.buf 0) { data_at = λ n. 9 }) second

changed : Use unedited second (mark 0 true unedited) third
changed = Use.edits unedited 0 (λ n. 9) second (ground arith)

binit-uses_example : IsCurrent (mark 0 true unedited) third
binit-uses_example = binit-uses blank third (mark 0 true unedited) blank-IsBlank (
    Uses.use_ unedited (mark 0 true unedited) second third
      (Uses.use_ unedited unedited first second
        (Uses.use_ unedited unedited (binit blank) first Uses.done got) used)
      changed)
