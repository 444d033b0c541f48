-- ===== src/Ipc/Mqueue/Order.antt =====
-- Messages arrive in order, and no sender is left behind.
use nextbsd_kernel.Prelude.{
  ℕ, ◌+◌, ◌<◌, ◌≡◌, refl, sym, ap, ◌∙◌, inl, inr, Bool, not, List, [], ◌∷◌, ◌==◌, keep, length,
  arith,
}
use nextbsd_kernel.Ipc.Mqueue.{Message, unblock}
use nextbsd_kernel.Ipc.Mqueue.Receiving.{leave_pool}
use nextbsd_kernel.Ipc.Mqueue.Steps.{
  World, Idle, Step, send, resend, block, block_again, give_up, take, finish, wait, leave,
  change_set, change_qlimit, IsNew, Steps, start, later,
}
use nextbsd_kernel.Ipc.Mqueue.Good.{IsNumbered, InOrder, IsGood}
use nextbsd_kernel.Ipc.Mqueue.Keeps.{
  attempt-sent, attempt-waits, deliver-keeps, block-keeps, take-keeps,
}
use nextbsd_kernel.Ipc.Mqueue.Wakes.{finish-keeps, set_qlimit-keeps}

keep-nil : {A : Type 0} (p : A → Bool) (xs : List A) → xs ≡ [] → keep p xs ≡ []
keep-nil p [] e = refl
keep-nil p (x ∷ xs) e = absurd (cc)

Idle-keep : (ms : List Message) (p : ℕ → Bool) (ts : List ℕ) → Idle ms ts → Idle ms (keep p ts)
Idle-keep ms p ts (inl empty) = inl empty
Idle-keep ms p ts (inr alone) = inr (keep-nil p ts alone)

Step-IsGood : {u w : World} → Step u w → IsGood u → IsGood w
unfolding unblock leave_pool
Step-IsGood (send {w} {q} o self late k idle e) g =
    deliver-keeps w q late k w.resumed g idle (attempt-sent o self late k w.port g.active q e)
      (omega arith) g.resumed
Step-IsGood (resend {w} {q} o self late k woken idle e) g =
    deliver-keeps w q late k (w.resumed + 1) g idle (attempt-sent o self late k w.port g.active q e)
      (omega arith) (omega arith)
Step-IsGood (block {w} {q} o self late k e) g =
    let (is, full) = attempt-waits o self late k w.port g.active q e in
    block-keeps w q self w.resumed g is full g.resumed
Step-IsGood (block_again {w} {q} o self late k woken e) g =
    let (is, full) = attempt-waits o self late k w.port g.active q e in
    block-keeps w q self (w.resumed + 1) g is full (omega arith)
Step-IsGood (give_up {w} self) g = record {
  active = g.active;
  counted = g.counted;
  idle = g.idle;
  set_idle = g.set_idle;
  in_order = g.in_order;
  numbered = g.numbered;
  finished = g.finished;
  resumed = g.resumed;
  awaited = elim g.awaited [
    | inl free ↦ inl (keep-nil (λ t. not (t == self)) w.port.blocked free)
    | inr full ↦ inr full
  ];
}
Step-IsGood (take {w} o th k ks is fits) g = take-keeps w th k ks g is
Step-IsGood (finish {w} more) g = finish-keeps w g more
Step-IsGood (wait {w} self empty) g = record {
  active = g.active;
  counted = g.counted;
  idle = inl empty;
  set_idle = g.set_idle;
  in_order = g.in_order;
  numbered = g.numbered;
  finished = g.finished;
  resumed = g.resumed;
  awaited = g.awaited;
}
Step-IsGood (leave {w} self) g = record {
  active = g.active;
  counted = g.counted;
  idle = Idle-keep w.port.messages (λ t. not (t == self)) w.port.pool g.idle;
  set_idle = g.set_idle;
  in_order = g.in_order;
  numbered = g.numbered;
  finished = g.finished;
  resumed = g.resumed;
  awaited = g.awaited;
}
Step-IsGood (change_set {w} set_pool idle) g = record {
  active = g.active;
  counted = g.counted;
  idle = g.idle;
  set_idle = idle;
  in_order = g.in_order;
  numbered = g.numbered;
  finished = g.finished;
  resumed = g.resumed;
  awaited = g.awaited;
}
Step-IsGood (change_qlimit {w} {q} qlimit e) g = set_qlimit-keeps w q qlimit g e

IsNew-IsGood : (w : World) → IsNew w → IsGood w
IsNew-IsGood w (act, sent, fin, res, ms, count, next, hs, woken, blocked) = record {
  active = act;
  counted = count ∙ sym (ap length ms);
  idle = inl ms;
  set_idle = inl ms;
  in_order = cc;
  numbered = (rw hs refl, omega (arith, ap length hs));
  finished = omega (arith, ap length hs);
  resumed = omega (arith, ap length woken);
  awaited = inl blocked;
}

Steps-IsGood : {u w : World} → IsNew u → Steps u w → IsGood w
Steps-IsGood new (start {w}) = IsNew-IsGood w new
Steps-IsGood new (later steps step) = Step-IsGood step (Steps-IsGood new steps)

-- A new port sees any sequence of sends, receives, blocked senders and waiting receivers, where
-- every message taken fits the buffer of its receiver, and a receiver waits for the port, or for a
-- set that the port is in, only while no message is queued. The messages that receivers got and
-- then those in the queue are the messages sent, in the order of their sending; and the messages
-- got carry the sequence numbers from 0 on (modulo 2^32).
pub Steps-InOrder :
    {u w : World}
    → IsNew u
    → Steps u w
    → InOrder w.sent w.port.handed w.port.messages × IsNumbered w.port.handed w.port.seqno
Steps-InOrder new steps = let g = Steps-IsGood new steps in (g.in_order, g.numbered)

-- In the same sequences, where every message taken fits the buffer of its receiver: once every
-- receiver that got a message has finished and every woken sender has tried again, no sender is
-- blocked at a port whose queue has room.
pub Steps-unblocks :
    {u w : World}
    → IsNew u
    → Steps u w
    → w.finished ≡ length w.port.handed
    → w.resumed ≡ length w.port.woken
    → w.port.msgcount < w.port.qlimit
    → w.port.blocked ≡ []
Steps-unblocks new steps fin res room = elim (Steps-IsGood new steps).awaited [
  | inl free ↦ free
  | inr full ↦ absurd (omega arith)
]
