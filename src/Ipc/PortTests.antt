-- ===== src/Ipc/PortTests.antt =====
-- Ports in transit, the rights of a port, and ports and entries that go.
use nextbsd_kernel.Prelude.{
  ◌∷◌, ◌==◌, inl, inr, ◌≡◌, refl, true, false, none, some, [], arith, Bool-cases, not, ◌&&◌,
  if◌then◌else◌,
}
use nextbsd_kernel.Prelude.Int.{negsuc}
use nextbsd_kernel.Ipc.Right.{Port, Scene, success, type_is_none, dealloc}
use nextbsd_kernel.Ipc.Right.Valid.{bits_of, send, send_receive, naming, send_bits}
use nextbsd_kernel.Ipc.Right.Transfer.{copied, move_send}
use nextbsd_kernel.Ipc.Right.Two.{Stranded, copyin_two, copyin_two-strands}
use nextbsd_kernel.Ipc.Right.Undo.Restore.{Undone, copyin_undo-Restored}
use nextbsd_kernel.Ipc.Right.Copyin.{entry}
use nextbsd_kernel.Ipc.Right.Remove.{receive_right, send_right, destroy, delta}
use nextbsd_kernel.Ipc.Right.Remove.Destroy.{Destroyed, told_by, destroy-Destroyed}
use nextbsd_kernel.Ipc.Right.Remove.Delta.{delta-dealloc}
use nextbsd_kernel.Ipc.Right.Remove.Receive.{Remains, Orphaned, delta-Orphaned}
use nextbsd_kernel.Ipc.Circularity.{Ports, transit, in_limbo, check_circularity}
use nextbsd_kernel.Ipc.Circularity.Chains.{Ends, IsAcyclic}
use nextbsd_kernel.Ipc.Circularity.Check.{Decided, check_circularity-Decided}
use nextbsd_kernel.Ipc.Requests.{Table}
use nextbsd_kernel.Ipc.Port.{
  Rights, make_send, release_send, nsrequest, notify_senders, Dying, destroy_receive,
}
use nextbsd_kernel.Ipc.Port.Senders.{Steps, Step}
use nextbsd_kernel.Ipc.Port.Accounts.{Accounted, Steps-Accounted}
use nextbsd_kernel.Ipc.Port.Destroy.{ended, without_receiver, destroy_receive-dies}

-- Port 1 is in limbo, port 2 is in transit to port 3.
abbrev ports : Ports
ports = record {
  active = λ p. true;
  named = λ p. not (p == 1) && not (p == 2);
  destination = λ p. if p == 2 then some 3 else none;
  refs = λ p. 1;
}

chain : Ends ports 2 1 3
unfolding transit
chain = Ends.step refl (Ends.here refl)

ports-IsAcyclic : IsAcyclic ports
unfolding transit
ports-IsAcyclic p = elim (Bool-cases (p == 2)) [
  | inl two ↦ (1, 3, Ends.step (ground arith) (Ends.here refl))
  | inr other ↦ (0, p, Ends.here (ground arith))
]

check_circularity-Decided_example : Decided ports 1 2 3 (check_circularity 4 true ports 1 2)
check_circularity-Decided_example =
    check_circularity-Decided ports 1 2 1 3 4 (unfold in_limbo in refl) ports-IsAcyclic chain
      (omega arith) true

-- A port with two send rights, one of them the entry's, and a no-senders request.
abbrev port : Port
port = record {
  active = true;
  refs = 2;
  srights = 2;
  sorights = 0;
  mscount = 1;
  nsrequest = some 90;
  receiver_here = false;
  destination = none;
}

abbrev sender : Scene
sender = naming send_bits true 2 (some 91) true port []

destroy-Destroyed_example :
    Destroyed none sender 1 0 1 (told_by none sender 1) (destroy none sender)
unfolding type_is_none
destroy-Destroyed_example =
    destroy-Destroyed none sender 1 0 1 (send (omega arith)) (refl, λ a. refl, λ a. refl) refl
      (λ there act. refl)

delta-dealloc_example : delta send_right none (negsuc 0) sender ≡ dealloc sender
delta-dealloc_example = delta-dealloc none sender (send (omega arith)) (λ there. refl) refl

abbrev owned : Port
owned = record port { receiver_here = true }

abbrev both : Scene
both = entry (bits_of true true false false) 1 none true false true owned []

delta-Orphaned_example :
    (t : Scene) × (delta receive_right (some 5) (negsuc 0) both ≡ some (t, success))
    × Remains true none 1 t
    × Orphaned (some 5) t 2 0 1
delta-Orphaned_example =
    delta-Orphaned (some 5) both 1 0 1 (send_receive (omega arith) refl refl)
      (refl, λ a. refl, λ a. refl) refl

abbrev fresh : Rights
fresh = record {
  active = true;
  refs = 1;
  srights = 0;
  sorights = 0;
  mscount = 0;
  nsrequest = none;
  told = [];
}

abbrev asked : Rights
asked = record fresh { nsrequest = some 90 }

abbrev sent : Rights
sent = record asked { mscount = 1; srights = 1; refs = 2 }

-- A request that waits for the first send right, which is then made.
life : Steps fresh 0 (90 ∷ []) [] sent 1
unfolding nsrequest make_send
life =
    Steps.later (90 ∷ []) [] none none
      (Steps.later [] [] (some 90) none Steps.start (Step.request {next = 1} (some 90) none refl))
      (Step.make refl)

abbrev quiet : Rights
quiet = record fresh { mscount = 1; told = (90, 1) ∷ [] }

-- The release of that send right, which notifies the request.
last_release : Step sent 1 none none quiet 1
unfolding release_send notify_senders
last_release = Step.release refl

Steps-Accounted_example : Accounted 90 (90 ∷ []) [] sent none quiet 1
Steps-Accounted_example = Steps-Accounted 90 none none refl refl life last_release refl

abbrev table : Table
table = record {
  address = 100;
  size_class = 0;
  next = 0;
  slots = λ j. record { name = 7; notify = 70 };
}

-- A port in a set, with a blocked sender, two messages and a dead-name request.
abbrev dying : Dying
dying = record {
  active = true;
  refs = 4;
  mscount = 3;
  seqno = 5;
  in_set = true;
  named = false;
  destination = none;
  pdrequest = none;
  nsrequest = some 90;
  dnrequests = some table;
  blocked = 30 ∷ [];
  messages = 41 ∷ 42 ∷ [];
  msgcount = 2;
  deeds = [];
}

destroy_receive-dies_example :
    destroy_receive (λ i. 2) false dying
    ≡ some (ended (λ i. 2) false (without_receiver dying) 1 none)
destroy_receive-dies_example =
    destroy_receive-dies (λ i. 2) false dying 1 refl refl refl (λ j held. refl)

copyin_undo-Restored_example : Undone move_send sender
copyin_undo-Restored_example =
    copyin_undo-Restored move_send 2 (some 91) true port [] (inr refl) refl (omega arith)
      (omega arith) (omega arith)

copyin_two-strands_example :
    (t : Scene) × (copyin_two (naming send_bits true 3 none true port []) ≡ some (t, copied none))
    × Stranded false 3 port t
copyin_two-strands_example =
    copyin_two-strands false 3 none true port [] refl (omega arith) (omega arith)
