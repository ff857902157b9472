-- ===== src/Kernel/Pipe/Fifo.antt =====
-- A pipe of xv6-riscv/kernel/pipe.c under any interleaving of calls by its readers and writers.
use aca_riscv_secure_boot.Common.{
  ℕ, ◌+◌, ◌-◌, ◌≡◌, ◌≤◌, inl, inr, refl, ap, ◌∙◌, sym, Bool, true, false, arith, Option, List, [],
  ◌++◌, length, length-append, ◌⊎◌, ◌∷◌, append_assoc, append-nil,
}
use mathlib.Core.Bool.{true≢false}
use mathlib.Core.List.{Sublistᴰ}
use aca_riscv_secure_boot.Common.Ring.{ring}
use aca_riscv_secure_boot.Kernel.Pipe.{Pipe, pipealloc, pipeclose, pipewrite, piperead}
use aca_riscv_secure_boot.Kernel.Outcome.{Ending}
use aca_riscv_secure_boot.Kernel.Pipe.Queue.{contents, IsPipe, length-contents}
use aca_riscv_secure_boot.Kernel.Pipe.Transfer.{piperead-ReadFrom}
use aca_riscv_secure_boot.Kernel.Pipe.Write.{bytes, pipewrite-Wrote}

-- A pipe, all bytes that its writers have sent, all that its readers have got, and how many reads
-- there were whose `copyout` may have failed.
pub record History : Type 0 where
  pub pipe : Pipe
  pub sent : List ℕ
  pub got : List ℕ
  pub faults : ℕ

-- The bytes that a part of `pipewrite` took from byte `i` on, by the byte it has reached.
abbrev pub taken : (ℕ → Option ℕ) → ℕ → Ending × ℕ × Pipe → List ℕ
taken from i r = bytes from i (r.1 - i)

-- A call runs from one `acquire` or wakeup to the next `release` or `sleep`: a writer goes on from
-- byte `i`, a reader whose memory can be stored to reads, a reader reads to memory of which `to`
-- tells where it can be stored to, or one end is closed.
pub data Step (h : History) : History → Type 0 where
  write :
      (from : ℕ → Option ℕ) (killed : ℕ → Bool) (left i : ℕ)
      → Step h (record {
        pipe = (pipewrite from killed left i h.pipe).2;
        sent = h.sent ++ taken from i (pipewrite from killed left i h.pipe);
        got = h.got;
        faults = h.faults;
      })
  read :
      (killed : Bool) (n : ℕ)
      → Step h (record {
        pipe = (piperead (λ _. true) killed n h.pipe).2;
        sent = h.sent;
        got = h.got ++ (piperead (λ _. true) killed n h.pipe).1;
        faults = h.faults;
      })
  faulty_read :
      (to : ℕ → Bool) (killed : Bool) (n : ℕ)
      → Step h (record {
        pipe = (piperead to killed n h.pipe).2;
        sent = h.sent;
        got = h.got ++ (piperead to killed n h.pipe).1;
        faults = h.faults + 1;
      })
  close : (writable : Bool) → Step h (record h { pipe = (pipeclose writable h.pipe).0 })

pub data Reach (junk : ℕ → ℕ) : History → Type 0 where
  fresh : Reach junk (record { pipe = pipealloc junk; sent = []; got = []; faults = 0 })
  next : {h h' : History} → Reach junk h → Step h h' → Reach junk h'

-- `left_` has left the queue: what the readers got, with a byte more at most for each fault.
pub record IsQueue (h : History) : Type 0 where
  pub left_ : List ℕ
  pub sound : IsPipe h.pipe
  pub order : h.sent ≡ left_ ++ contents h.pipe
  pub part : Sublistᴰ h.got left_
  pub few : length left_ ≤ length h.got + h.faults
  pub exact : h.faults ≡ 0 → h.got ≡ left_

sublist-nil : (ys : List ℕ) → Sublistᴰ [] ys
sublist-nil [] = Sublistᴰ.slnil
sublist-nil (y ∷ ys) = Sublistᴰ.cons (sublist-nil ys)

sublist-prefix : (xs ys : List ℕ) → Sublistᴰ xs (xs ++ ys)
sublist-prefix [] ys = sublist-nil ys
sublist-prefix (x ∷ xs) ys = Sublistᴰ.cons-cons refl (sublist-prefix xs ys)

sublist-append :
    {us vs : List ℕ} → Sublistᴰ us vs → (xs ys : List ℕ) → Sublistᴰ (us ++ xs) (vs ++ (xs ++ ys))
sublist-append Sublistᴰ.slnil xs ys = sublist-prefix xs ys
sublist-append (Sublistᴰ.cons p) xs ys = Sublistᴰ.cons (sublist-append p xs ys)
sublist-append (Sublistᴰ.cons-cons e p) xs ys = Sublistᴰ.cons-cons e (sublist-append p xs ys)

write-queue :
    (from : ℕ → Option ℕ) (killed : ℕ → Bool) (left i : ℕ) (p : Pipe)
    → IsPipe p
    → IsPipe (pipewrite from killed left i p).2
      × (contents (pipewrite from killed left i p).2
          ≡ contents p ++ taken from i (pipewrite from killed left i p))
write-queue from killed left i p ok =
    let w = pipewrite-Wrote from killed left i p ok in
    let same : (pipewrite from killed left i p).1 - i ≡ w.done = omega (arith, w.reached) in
    (w.sound, rw same w.queue)

-- What a call of `piperead` takes from the queue: the bytes that it stores, and one more at most.
record Took (to : ℕ → Bool) (killed : Bool) (n : ℕ) (p : Pipe) : Type 0 where
  lost : List ℕ
  sound : IsPipe (piperead to killed n p).2
  queue : contents p ≡ (piperead to killed n p).1 ++ lost ++ contents (piperead to killed n p).2
  one : length lost ≤ 1
  none_ : ((i : ℕ) → to i ≡ true) → lost ≡ []

piperead-Took : (to : ℕ → Bool) (killed : Bool) (n : ℕ) (p : Pipe) → IsPipe p → Took to killed n p
piperead-Took to killed n p ok = elim (piperead-ReadFrom to killed n p ok) [
  | inl (none_, e) ↦ record {
    lost = [];
    sound = rw e ok;
    queue = rw e refl;
    one = omega arith;
    none_ = λ t. refl;
  }
  | inr (some_, (r, e, w)) ↦ record {
    lost = w.lost;
    sound = rw e w.sound;
    queue = rw (e, w.output) w.queue;
    one = elim w.stopped [
      | inl (none_lost, why) ↦ omega (arith, ap length none_lost)
      | inr (one, bad) ↦ omega (arith, one)
    ];
    none_ = λ t. elim w.stopped [
      | inl (none_lost, why) ↦ none_lost
      | inr (one, bad) ↦ absurd (true≢false (sym (t _) ∙ bad))
    ];
  }
]

pipeclose_kept :
    (writable : Bool) (p : Pipe)
    → IsPipe p
    → IsPipe (pipeclose writable p).0 × (contents (pipeclose writable p).0 ≡ contents p)
unfolding pipeclose contents
pipeclose_kept true p ok =
    (record { read_small = ok.read_small; write_small = ok.write_small; room = ok.room }, refl)
pipeclose_kept false p ok =
    (record { read_small = ok.read_small; write_small = ok.write_small; room = ok.room }, refl)

-- A read extends what has left the queue.
read-IsQueue :
    (to : ℕ → Bool) (killed : Bool) (n faults : ℕ) (h : History)
    → IsQueue h
    → ((i : ℕ) → to i ≡ true) ⊎ (faults ≡ h.faults + 1)
    → h.faults ≤ faults
    → IsQueue (record {
      pipe = (piperead to killed n h.pipe).2;
      sent = h.sent;
      got = h.got ++ (piperead to killed n h.pipe).1;
      faults = faults;
    })
read-IsQueue to killed n faults h inv why more =
    let took = piperead-Took to killed n h.pipe inv.sound in
    let out = (piperead to killed n h.pipe).1 in
    record {
      left_ = inv.left_ ++ (out ++ took.lost);
      sound = took.sound;
      order =
          inv.order
          ∙ ap (λ t. inv.left_ ++ t) took.queue
          ∙ sym (append_assoc inv.left_ (out ++ took.lost) _);
      part = sublist-append inv.part out took.lost;
      few = elim why [
        | inl t ↦ omega (
          arith,
          inv.few,
          more,
          length-append inv.left_ (out ++ took.lost),
          length-append out took.lost,
          length-append h.got out,
          ap length (took.none_ t),
        )
        | inr one_more ↦ omega (
          arith,
          inv.few,
          one_more,
          length-append inv.left_ (out ++ took.lost),
          length-append out took.lost,
          length-append h.got out,
          took.one,
        )
      ];
      exact = λ z. elim why [
        | inl t ↦
            ap (λ l. l ++ out) (inv.exact (omega (arith, z, more)))
            ∙ ap (λ l. inv.left_ ++ l)
                (sym (append-nil out) ∙ ap (λ l. out ++ l) (sym (took.none_ t)))
        | inr one_more ↦ absurd (omega (arith, z, one_more))
      ];
    }

Step-IsQueue : {h h' : History} → Step h h' → IsQueue h → IsQueue h'
Step-IsQueue {h} (write from killed left i) inv =
    let (sound, grown) = write-queue from killed left i h.pipe inv.sound in
    record {
      left_ = inv.left_;
      sound = sound;
      order = rw (inv.order, grown) (append_assoc inv.left_ (contents h.pipe) _);
      part = inv.part;
      few = inv.few;
      exact = inv.exact;
    }
Step-IsQueue {h} (read killed n) inv =
    read-IsQueue (λ _. true) killed n h.faults h inv (inl (λ i. refl)) (omega arith)
Step-IsQueue {h} (faulty_read to killed n) inv =
    read-IsQueue to killed n (h.faults + 1) h inv (inr refl) (omega arith)
Step-IsQueue {h} (close writable) inv =
    let (sound, same) = pipeclose_kept writable h.pipe inv.sound in
    record {
      left_ = inv.left_;
      sound = sound;
      order = inv.order ∙ ap (λ t. inv.left_ ++ t) (sym same);
      part = inv.part;
      few = inv.few;
      exact = inv.exact;
    }

Reach-IsQueue : {junk : ℕ → ℕ} {h : History} → Reach junk h → IsQueue h
Reach-IsQueue fresh =
    unfold pipealloc contents ring in
    record {
      left_ = [];
      sound = record { read_small = omega arith; write_small = omega arith; room = omega arith };
      order = refl;
      part = Sublistᴰ.slnil;
      few = omega arith;
      exact = λ z. refl;
    }
Reach-IsQueue (next r st) = Step-IsQueue st (Reach-IsQueue r)

-- A pipe is a queue. Whatever calls its readers and writers make, wherever the calls sleep, whenever
-- writers are killed and wherever memory cannot be read or stored to: the bytes that were sent are
-- those that left the pipe, in the same order, and then those that wait, which are 512 at most. The
-- readers have got bytes that left it, in their order, and all but one at most for each read whose
-- `copyout` may have failed; without such reads they have got all of them.
pub pipe_fifo :
    {junk : ℕ → ℕ} {h : History}
    → Reach junk h
    → ((left_ : List ℕ) × (h.sent ≡ left_ ++ contents h.pipe)
        × Sublistᴰ h.got left_
        × (length left_ ≤ length h.got + h.faults)
        × (h.faults ≡ 0 → h.got ≡ left_))
      × (length (contents h.pipe) ≤ 512)
pipe_fifo {junk} {h} reach =
    let inv = Reach-IsQueue reach in
    (
      (inv.left_, inv.order, inv.part, inv.few, inv.exact),
      omega (arith, length-contents h.pipe, inv.sound.room),
    )
