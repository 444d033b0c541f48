-- ===== src/Ipc/Mqueue/Loss.antt =====
-- Where a message overtakes another, and where one is stranded.
use nextbsd_kernel.Prelude.{
  ℕ, ◌≡◌, refl, ap, ◌∙◌, inl, inr, Bool, true, false, none, some, List, [], ◌∷◌, ◌++◌, ◌==◌,
  if◌then◌else◌, Bool-cases,
}
use nextbsd_kernel.Ipc.Right.{assert◌then◌}
use nextbsd_kernel.Ipc.Mqueue.{
  Message, Mqueue, deliver, deliver_found, find_receiver, take_from_set, hand_over, join_set,
  remove_first,
}
use nextbsd_kernel.Ipc.Mqueue.Receiving.{
  Receive, Thread, too_large, received, fits, take_first, finish_receive, receive_done,
  receive_queued, receive_empty, receive_with, receive,
}

-- The queue and the receivers of a port that joined a set, and got the message `k`.
abbrev pub Overtaken : ℕ → List ℕ → Message → Mqueue → Mqueue → Type 0
Overtaken t ts k q q' =
    (q'.messages ≡ q.messages)
    × (q'.set_pool ≡ some ts)
    × (q'.handed ≡ q.handed ++ record { receiver = t; message = k; seqno = q.seqno } ∷ [])

-- `ipc_pset_move` moves an active port into a set where the thread `t` waits: the thread goes on
-- waiting, whatever messages the port has in its queue. The next message that is sent to the port
-- goes to that thread, ahead of those messages, which stay in the queue.
pub join_set-overtakes :
    (t : ℕ) (ts late : List ℕ) (k : Message) (q : Mqueue)
    → q.active ≡ true
    → ((join_set (t ∷ ts) q).set_pool ≡ some (t ∷ ts))
      × (q' : Mqueue) × (deliver late k (join_set (t ∷ ts) q) ≡ some q')
      × Overtaken t ts k q q'
unfolding join_set deliver deliver_found find_receiver take_from_set hand_over
join_set-overtakes t ts late k q act = elim (Bool-cases (q.msgcount == 0)) [
  | inl none_queued ↦ rw (none_queued, act) (refl, _, refl, (refl, refl, refl))
  | inr some_queued ↦ rw (some_queued, act) (refl, _, refl, (refl, refl, refl))
]

-- The thread keeps the message that did not fit.
abbrev pub Stranded : Thread → Message → List Message → Mqueue → Mqueue → Thread → Type 0
Stranded th k ks q q' th' =
    (q'.messages ≡ ks)
    × (q'.blocked ≡ q.blocked)
    × (q'.woken ≡ q.woken)
    × (th'.kmsg ≡ some k)
    × (th'.seqno ≡ q.seqno)

-- `ipc_mqueue_receive` of a message in the queue that is too large for the buffer, without
-- MACH_RCV_LARGE, answers MACH_RCV_TOO_LARGE. The message is then neither in the queue nor
-- destroyed, and no blocked sender is woken; the next receive of the thread, on any port, gets that
-- message.
pub receive-Stranded :
    (o : Receive) (th : Thread) (k : Message) (ks : List Message) (q : Mqueue) (next : Receive)
    (p : Mqueue)
    → th.kmsg ≡ none
    → q.messages ≡ k ∷ ks
    → fits o k ≡ false
    → o.large ≡ false
    → (q' : Mqueue) × (th' : Thread) × (receive o th q ≡ (q', th', too_large))
      × Stranded th k ks q q' th'
      × (receive next th' p
          ≡ (finish_receive p, record th' { kmsg = none }, received k q.seqno (fits next k)))
unfolding receive receive_with receive_empty receive_queued receive_done take_first hand_over
    remove_first
receive-Stranded o th k ks q next p idle is misfit small =
    let taken = take_first th k ks q in
    let queued = λ (b : Bool).
      if b
      then receive_done o taken.1 k taken.0
      else if o.large
      then (q, record th { kmsg = none; seqno = 0 }, too_large)
      else (taken.0, taken.1, too_large) in
    (
      taken.0,
      taken.1,
      ap (λ m. receive_with o th m q) idle
          ∙ ap (λ ms. receive_empty o th ms q) is
          ∙ ap queued misfit
          ∙ ap
              (λ b.
                if b
                then (q, record th { kmsg = none; seqno = 0 }, too_large)
                else (taken.0, taken.1, too_large))
              small,
      (refl, refl, refl, refl, refl),
      refl,
    )
