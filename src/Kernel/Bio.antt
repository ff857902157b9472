-- ===== src/Kernel/Bio.antt =====
-- xv6-riscv/kernel/bio.c: the buffer cache. A buffer is its place in `bcache.buf`, and `head` the place
-- behind them; what lies between `acquire` and `release` is one step. `virtio_disk_rw` moves the data
-- between a buffer and the disk.
pub mod Order
pub mod Links
pub mod Cache
pub mod Changes
pub mod Steps
pub mod Start
pub mod Contents
pub mod Read
pub mod Saved
pub mod Sharing
mod Examples
use aca_riscv_secure_boot.Common.{
  ℕ, zero, suc, ◌+◌, ◌-◌, ◌^◌, Bool, true, false, not, ◌&&◌, ◌==◌, if◌then◌else◌, Option, none,
  some,
}
use aca_riscv_secure_boot.Common.Memory.{Memory}
use aca_riscv_secure_boot.Common.Word.{u32}
use aca_riscv_secure_boot.Kernel.Outcome.{Outcome, ok, panic, ◌>>=◌}
use aca_riscv_secure_boot.Kernel.Sleeplock.{
  Sleeplock, initsleeplock, acquiresleep, releasesleep, holdingsleep,
}

-- `NBUF`, and the place of `bcache.head`
abbrev pub nbuf : ℕ
nbuf = 30

abbrev pub head : ℕ
head = nbuf

-- `struct buf` without its links.
pub record Buffer : Type 0 where
  pub valid : Bool
  pub dev : ℕ
  pub blockno : ℕ
  pub lock : Sleeplock
  pub refcnt : ℕ
  pub data_at : Memory

-- `bcache`, with the links of the buffers, and the disk: the data of each block of each device.
pub record Bcache : Type 0 where
  pub buf : ℕ → Buffer
  pub next : ℕ → ℕ
  pub prev : ℕ → ℕ
  pub disk : ℕ → ℕ → Memory

abbrev pub set_buf : ℕ → Buffer → Bcache → Bcache
set_buf b v c = record c { buf = λ x. if x == b then v else c.buf x }

abbrev pub set_next : ℕ → ℕ → Bcache → Bcache
set_next b v c = record c { next = λ x. if x == b then v else c.next x }

abbrev pub set_prev : ℕ → ℕ → Bcache → Bcache
set_prev b v c = record c { prev = λ x. if x == b then v else c.prev x }

-- The four assignments that put a buffer behind the head, in their order in `binit` and `brelse`.
abbrev pub push_front : ℕ → Bcache → Bcache
push_front b c =
    let c1 = set_next b (c.next head) c in
    let c2 = set_prev b head c1 in let c3 = set_prev (c2.next head) b c2 in set_next head b c3

-- The loop of `binit` from buffer `b` on.
pub binit_loop : ℕ → ℕ → Bcache → Bcache
binit_loop zero b c = c
binit_loop (suc left) b c =
    binit_loop left (b + 1) (set_buf b (record (c.buf b) { lock = initsleeplock }) (push_front b c))

pub binit : Bcache → Bcache
binit c = binit_loop nbuf 0 (set_next head head (set_prev head head c))

-- A loop of `bget` behind `b`: along `next` or `prev`, up to the head, for the first buffer that
-- passes the test. There are `nbuf` of them at most.
pub walk : (ℕ → ℕ) → (ℕ → Bool) → ℕ → ℕ → Option ℕ
walk link test zero b = none
walk link test (suc left) b =
    let rest = walk link test left (link b) in
    if link b == head then none else if test (link b) then some (link b) else rest

-- `b->dev == dev && b->blockno == blockno`
abbrev pub is_block : ℕ → ℕ → Buffer → Bool
is_block dev blockno b = b.dev == dev && b.blockno == blockno

-- `bget` up to its `release`: the buffer, with one reference more. Recycles the least recently used
-- unused buffer if the block is not cached.
pub bget_ref : ℕ → ℕ → Bcache → Outcome (ℕ × Bcache)
bget_ref dev blockno c = elim (walk c.next (λ b. is_block dev blockno (c.buf b)) nbuf head) [
  | some b ↦ ok (b, set_buf b (record (c.buf b) { refcnt = u32 ((c.buf b).refcnt + 1) }) c)
  | none ↦ elim (walk c.prev (λ b. (c.buf b).refcnt == 0) nbuf head) [
    | some b ↦ ok (
      b,
      set_buf b (record (c.buf b) { dev = dev; blockno = blockno; valid = false; refcnt = 1 }) c,
    )
    | none ↦ panic
  ]
]

-- The `acquiresleep` of `bget`, and `bread` behind it.
pub bread_locked : ℕ → ℕ → Bcache → Outcome Bcache
bread_locked pid b c = do
  lk ← acquiresleep pid (c.buf b).lock
  let v = record (c.buf b) { lock = lk }
  ok (
      if v.valid
      then set_buf b v c
      else set_buf b (record v { data_at = c.disk v.dev v.blockno; valid = true }) c)

-- `bread`. If it sleeps, the reference of `bget_ref` has been taken.
pub bread : ℕ → ℕ → ℕ → Bcache → Outcome (ℕ × Bcache)
bread pid dev blockno c = do
  (b, c') ← bget_ref dev blockno c
  c'' ← bread_locked pid b c'
  ok (b, c'')

-- Write the contents of a buffer to disk.
pub bwrite : ℕ → ℕ → Bcache → Outcome Bcache
bwrite pid b c =
    let v = c.buf b in
    if not (holdingsleep pid v.lock)
    then panic
    else ok (record c {
      disk = λ dev blockno.
          if dev == v.dev && blockno == v.blockno then v.data_at else c.disk dev blockno;
    })

-- A buffer leaves its place in the list and goes to its front.
pub move_front : ℕ → Bcache → Bcache
move_front b c =
    let c1 = set_prev (c.next b) (c.prev b) c in
    let c2 = set_next (c1.prev b) (c1.next b) c1 in push_front b c2

-- `b->refcnt--`
abbrev pub drop_buf : ℕ → Bcache → Bcache
drop_buf b c = set_buf b (record (c.buf b) { refcnt = u32 ((c.buf b).refcnt + (2 ^ 32 - 1)) }) c

-- Release a locked buffer.
pub brelse : ℕ → ℕ → Bcache → Outcome Bcache
brelse pid b c =
    if not (holdingsleep pid (c.buf b).lock)
    then panic
    else let c1 =
        drop_buf b (set_buf b (record (c.buf b) { lock = releasesleep (c.buf b).lock }) c) in
      ok (if (c1.buf b).refcnt == 0 then move_front b c1 else c1)

abbrev pub bpin : ℕ → Bcache → Bcache
bpin b c = set_buf b (record (c.buf b) { refcnt = u32 ((c.buf b).refcnt + 1) }) c

abbrev pub bunpin : ℕ → Bcache → Bcache
bunpin b c = drop_buf b c
