-- ===== src/Ipc/QueueTests.antt =====
-- Message queues and port sets.
use nextbsd_kernel.Prelude.{
  ℕ, ◌∷◌, ◌==◌, inl, inr, ◌≡◌, refl, true, false, none, some, [], arith, Bool-cases, if◌then◌else◌,
}
use nextbsd_kernel.Ipc.Mqueue.{
  Message, Handed, Mqueue, Options, attempt, has_room, deliver, find_receiver, get_act, hand_over,
  is_expired, to_sent, deliver_found, take_from_set, take_from_port, enqueue, after_enqueue,
  arrived, signal_set, send, by_receiver, wake_senders, join_set, remove_first,
}
use nextbsd_kernel.Ipc.Mqueue.Receiving.{
  finish_receive, Receive, Thread, too_large, received, fits, receive, take_first,
}
use nextbsd_kernel.Ipc.Mqueue.Steps.{World, Steps, Step, IsNew}
use nextbsd_kernel.Ipc.Mqueue.Good.{InOrder, IsNumbered}
use nextbsd_kernel.Ipc.Mqueue.Order.{Steps-InOrder, Steps-unblocks}
use nextbsd_kernel.Ipc.Mqueue.Loss.{Overtaken, join_set-overtakes, Stranded, receive-Stranded}
use nextbsd_kernel.Ipc.Mqueue.Sending.{Ends, send-Ends}
use nextbsd_kernel.Ipc.Pset.{Sets, is_at, move, destroy}
use nextbsd_kernel.Ipc.Pset.Members.{IsSets}
use nextbsd_kernel.Ipc.Pset.Balance.{Moved, move-Moved}
use nextbsd_kernel.Ipc.Pset.End.{Ended, destroy-Ended}

abbrev message : Message
message = record { id = 1; size = 100; once = false; is_circular = false }

-- A new port whose queue takes one message.
abbrev queue : Mqueue
queue = record {
  active = true;
  refs = 2;
  msgcount = 0;
  qlimit = 1;
  seqno = 0;
  messages = [];
  blocked = [];
  pool = [];
  set_pool = none;
  handed = [];
  woken = [];
  destroyed = [];
  signals = 0;
}

abbrev new : World
new = record { port = queue; sent = []; finished = 0; resumed = 0 }

new-IsNew : IsNew new
new-IsNew = (refl, refl, refl, refl, refl, refl, refl, refl, refl, refl)

abbrev patient : Options
patient = record { always = false; timeout = none }

abbrev second : Message
second = record { id = 2; size = 50; once = false; is_circular = false }

abbrev roomy : Receive
roomy = record { large = false; trailer = 20; max_size = 500; timeout = none }

abbrev narrow : Receive
narrow = record { large = false; trailer = 20; max_size = 80; timeout = none }

abbrev reader : Thread
reader = record { self = 5; kmsg = none; seqno = 0 }

-- Thread 7 sends, thread 8 blocks, thread 5 receives and wakes thread 8, which sends; thread 5
-- receives again.
abbrev one_sent : World
one_sent = record new {
  port = record queue { messages = message ∷ []; msgcount = 1 };
  sent = message ∷ [];
}

abbrev one_blocked : World
one_blocked = record one_sent { port = record one_sent.port { blocked = 8 ∷ [] } }

abbrev first_handed : Handed
first_handed = record { receiver = 5; message = message; seqno = 0 }

abbrev one_taken : World
one_taken = record one_blocked {
  port = record one_blocked.port {
    messages = [];
    msgcount = 0;
    seqno = 1;
    handed = first_handed ∷ [];
  };
}

abbrev one_finished : World
one_finished = record one_taken {
  port = record one_taken.port { blocked = []; woken = 8 ∷ [] };
  finished = 1;
}

abbrev two_sent : World
two_sent = record one_finished {
  port = record one_finished.port { messages = second ∷ []; msgcount = 1 };
  sent = message ∷ second ∷ [];
  resumed = 1;
}

abbrev two_taken : World
two_taken = record two_sent {
  port = record two_sent.port {
    messages = [];
    msgcount = 0;
    seqno = 2;
    handed = first_handed ∷ record { receiver = 5; message = second; seqno = 1 } ∷ [];
  };
}

abbrev two_finished : World
two_finished = record two_taken { finished = 2 }

sends : Step new one_sent
unfolding attempt has_room deliver deliver_found find_receiver take_from_set take_from_port get_act
    enqueue arrived after_enqueue signal_set to_sent
sends = Step.send patient 7 [] message (inr refl) refl

blocks : Step one_sent one_blocked
unfolding attempt has_room is_expired
blocks = Step.block patient 8 [] second refl

takes : Step one_blocked one_taken
unfolding take_first hand_over remove_first
takes = Step.take roomy reader message [] refl (unfold fits in refl)

finishes : Step one_taken one_finished
unfolding finish_receive wake_senders
finishes = Step.finish (omega arith)

resends : Step one_finished two_sent
unfolding attempt has_room deliver deliver_found find_receiver take_from_set take_from_port get_act
    enqueue arrived after_enqueue signal_set to_sent
resends = Step.resend patient 8 [] second (omega arith) (inr refl) refl

takes_again : Step two_sent two_taken
unfolding take_first hand_over remove_first
takes_again = Step.take roomy reader second [] refl (unfold fits in refl)

finishes_again : Step two_taken two_finished
unfolding finish_receive wake_senders
finishes_again = Step.finish (omega arith)

run : Steps new two_finished
run =
    Steps.later
      (Steps.later
        (Steps.later
          (Steps.later (Steps.later (Steps.later (Steps.later Steps.start sends) blocks) takes)
            finishes)
          resends)
        takes_again)
      finishes_again

Steps-InOrder_example :
    InOrder (message ∷ second ∷ []) two_finished.port.handed []
    × IsNumbered two_finished.port.handed 2
Steps-InOrder_example = Steps-InOrder new-IsNew run

Steps-unblocks_example : two_finished.port.blocked ≡ []
Steps-unblocks_example = Steps-unblocks new-IsNew run refl refl (omega arith)

-- Thread 8 blocks, and a receiver makes room.
send-Ends_example :
    Ends patient second
      (send patient 8 second ((by_receiver, one_finished.port, []) ∷ []) [] one_sent.port)
send-Ends_example =
    send-Ends patient 8 second ((by_receiver, one_finished.port, []) ∷ []) [] one_sent.port refl
      (inr refl, inr refl, inr refl) ((tt, (inl refl, inl refl, inl refl)), tt)

join_set-overtakes_example :
    ((join_set (5 ∷ []) one_sent.port).set_pool ≡ some (5 ∷ []))
    × (q : Mqueue) × (deliver [] second (join_set (5 ∷ []) one_sent.port) ≡ some q)
    × Overtaken 5 [] second one_sent.port q
join_set-overtakes_example = join_set-overtakes 5 [] [] second one_sent.port refl

receive-Stranded_example :
    (q : Mqueue) × (th : Thread) × (receive narrow reader one_blocked.port ≡ (q, th, too_large))
    × Stranded reader message [] one_blocked.port q th
    × (receive roomy th queue ≡ (
      finish_receive queue,
      record th { kmsg = none },
      received message 0 (fits roomy message),
    ))
receive-Stranded_example =
    receive-Stranded narrow reader message [] one_blocked.port roomy queue refl refl
      (unfold fits in refl) refl

-- Port 1 is in set 10, in which thread 5 waits; set 20 has no members. Each set has one more
-- reference.
abbrev sets : Sets
sets = record {
  pset = λ p. if p == 1 then some 10 else none;
  ports = λ s. if s == 10 then 1 ∷ [] else [];
  refs = λ s. if s == 10 then 2 else 1;
  active = λ s. true;
  port_active = λ p. true;
  queued = λ p. true;
  mscount = λ p. 0;
  seqno = λ p. 0;
  pool = λ s. if s == 10 then 5 ∷ [] else [];
  port_pool = λ p. [];
  events = [];
}

abbrev one_other : ℕ → ℕ
one_other s = 1

sets-IsSets : IsSets sets one_other
unfolding is_at
sets-IsSets = record {
  member = λ s p. elim (Bool-cases (s == 10)) [
    | inl ten ↦ elim (Bool-cases (p == 1)) [ inl one ↦ ground arith | inr other ↦ ground arith ]
    | inr elsewhere ↦ elim (Bool-cases (p == 1)) [
      | inl one ↦ ground arith
      | inr other ↦ ground arith
    ]
  ];
  counted = λ s. elim (Bool-cases (s == 10)) [
    | inl ten ↦ rw ten refl
    | inr elsewhere ↦ rw elsewhere refl
  ];
}

move-Moved_example : Moved 1 (some 20) sets one_other (move 1 (some 20) sets)
move-Moved_example = move-Moved 1 (some 20) sets one_other sets-IsSets refl refl

destroy-Ended_example : (st : Sets) × (destroy 10 sets ≡ some st) × Ended 10 sets st one_other
destroy-Ended_example = destroy-Ended 10 sets one_other sets-IsSets (omega arith)
