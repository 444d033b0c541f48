-- ===== src/Ipc/KmsgTests.antt =====
-- A circular list of messages.
use nextbsd_kernel.Prelude.{◌∷◌, ◌==◌, ◌≡◌, refl, none, some, [], if◌then◌else◌}
use nextbsd_kernel.Ipc.Kmsg.{Links, enqueue, dequeue}
use nextbsd_kernel.Ipc.Kmsg.Ring.{IsQueue, enqueue-IsQueue, dequeue-IsQueue}

-- A circular list of the messages 1 and 2.
abbrev ring : Links
ring = record {
  base = some 1;
  next = λ k. if k == 1 then some 2 else if k == 2 then some 1 else none;
  prev = λ k. if k == 1 then some 2 else if k == 2 then some 1 else none;
}

ring-IsQueue : IsQueue ring (1 ∷ 2 ∷ [])
ring-IsQueue = (refl, ((refl, refl), (refl, refl)), ((refl, tt), (tt, tt)))

enqueue-IsQueue_example : (q : Links) × (enqueue 3 ring ≡ some q) × IsQueue q (1 ∷ 2 ∷ 3 ∷ [])
enqueue-IsQueue_example = enqueue-IsQueue 3 (1 ∷ 2 ∷ []) ring ring-IsQueue (refl, (refl, tt))

dequeue-IsQueue_example :
    (q : Links) × (dequeue ring ≡ some (q, some 1))
    × IsQueue q (2 ∷ [])
    × (q.next 1 ≡ none)
    × (q.prev 1 ≡ none)
dequeue-IsQueue_example = dequeue-IsQueue 1 (2 ∷ []) ring ring-IsQueue
