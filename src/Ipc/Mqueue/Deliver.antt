-- ===== src/Ipc/Mqueue/Deliver.antt =====
-- Where `ipc_mqueue_deliver` takes a message.
use nextbsd_kernel.Prelude.{
  ℕ, ◌+◌, ◌-◌, ◌≡◌, refl, ap, ◌∙◌, inl, inr, true, Option, none, some, List, [], ◌∷◌, ◌++◌,
  if◌then◌else◌, arith,
}
use nextbsd_kernel.Ipc.Right.{assert◌then◌}
use nextbsd_kernel.Ipc.Mqueue.{
  Message, Mqueue, get_act, take_from_port, take_from_set, find_receiver, hand_over, remove_first,
  run_late, signal_set, after_enqueue, arrived, enqueue, deliver_found, deliver,
}
use nextbsd_kernel.Ipc.Mqueue.Steps.{Idle, set_members}

-- The message is handed to a receiver while no other is queued, or it goes to the end of the queue
-- while no receiver waits.
pub data Delivered (k : Message) (q : Mqueue) : Mqueue → Type 0 where
  to_receiver :
      (t : ℕ) (ts : List ℕ) (s : Option (List ℕ))
      → q.messages ≡ []
      → Delivered k q (record (hand_over t k q) { pool = ts; set_pool = s })
  to_queue :
      (s : Option (List ℕ)) (n : ℕ)
      → q.pool ≡ []
      → set_members s ≡ []
      → Delivered k q (record q {
        messages = q.messages ++ k ∷ [];
        msgcount = q.msgcount + 1;
        set_pool = s;
        signals = n;
      })

nonempty : (ms : List Message) (t : ℕ) (ts : List ℕ) → Idle ms (t ∷ ts) → ms ≡ []
nonempty ms t ts (inl e) = e
nonempty ms t ts (inr e) = absurd (cc)

module _ (k : Message) (q : Mqueue) where
  abbrev with_pools : List Message → List ℕ → Option (List ℕ) → Mqueue
  with_pools ms ts s = record q { messages = ms; pool = ts; set_pool = s }

  found-Delivered :
      (late : List ℕ) (ms : List Message) (ts : List ℕ) (s : Option (List ℕ))
      → Idle ms ts
      → Idle ms (set_members s)
      → Idle ms late
      → (let p = with_pools ms ts s in
          (q' : Mqueue) × (deliver_found late k p (find_receiver p) ≡ some q') × Delivered k p q')
  unfolding deliver_found find_receiver take_from_set take_from_port get_act enqueue after_enqueue
      arrived run_late remove_first signal_set hand_over
  found-Delivered late ms ts (some (t ∷ us)) idle set_idle late_idle =
      (_, refl, Delivered.to_receiver t ts (some us) (nonempty ms t us set_idle))
  found-Delivered late ms (t ∷ ts) none idle set_idle late_idle =
      (_, refl, Delivered.to_receiver t ts none (nonempty ms t ts idle))
  found-Delivered late ms (t ∷ ts) (some []) idle set_idle late_idle =
      (_, refl, Delivered.to_receiver t ts (some []) (nonempty ms t ts idle))
  found-Delivered late ms [] none idle set_idle late_idle =
      (_, refl, Delivered.to_queue none q.signals refl refl)
  found-Delivered [] ms [] (some []) idle set_idle late_idle =
      (_, refl, Delivered.to_queue (some []) (q.signals + 1) refl refl)
  found-Delivered (t ∷ late) (m ∷ ms) [] (some []) idle set_idle late_idle =
      absurd (cc (nonempty (m ∷ ms) t late late_idle))
  found-Delivered (t ∷ late) [] [] (some []) idle set_idle late_idle =
      let same : q.msgcount + 1 - 1 ≡ q.msgcount = omega arith in
      (
        _,
        ap
            (λ c. some (
              hand_over t k
                (record q { messages = []; msgcount = c; pool = []; set_pool = some late })))
            same,
        Delivered.to_receiver t [] (some late) refl,
      )

-- Delivery fails no assertion, and an idle port stays in order.
pub deliver-Delivered :
    (late : List ℕ) (k : Message) (q : Mqueue)
    → q.active ≡ true
    → Idle q.messages q.pool
    → Idle q.messages (set_members q.set_pool)
    → Idle q.messages late
    → (q' : Mqueue) × (deliver late k q ≡ some q') × Delivered k q q'
unfolding deliver
deliver-Delivered late k q act idle set_idle late_idle =
    let (q', is, d) =
      found-Delivered k q late q.messages q.pool q.set_pool idle set_idle late_idle in
    (q', ap (λ b. assert b then deliver_found late k q (find_receiver q)) act ∙ is, d)
