-- ===== src/Ipc/Mqueue/Good.antt =====
-- The invariant of a port and its queue: order, sequence numbers, and the senders that wait.
use nextbsd_kernel.Prelude.{
  length-snoc, ℕ, zero, suc, ◌+◌, ◌%◌, ◌^◌, ◌≤◌, ◌≡◌, ◌⊎◌, sym, ap, ◌∙◌, inl, inr, true, List, [],
  ◌∷◌, ◌++◌, map, append_assoc, map-append, length, arith,
}
use nextbsd_kernel.Ipc.Mqueue.{Message, Handed, Mqueue, hand_over}
use nextbsd_kernel.Ipc.Mqueue.Steps.{World, Idle, set_members}
use nextbsd_kernel.Ipc.Mqueue.Deliver.{Delivered, to_receiver, to_queue}

-- The sequence numbers from 0 on.
abbrev pub numbers : ℕ → List ℕ
numbers zero = []
numbers (suc n) = numbers n ++ (n % 2 ^ 32) ∷ []

-- The messages that receivers got are numbered in order, and the next number follows.
abbrev pub IsNumbered : List Handed → ℕ → Type 0
IsNumbered hs next = (map Handed.seqno hs ≡ numbers (length hs)) × (next ≡ length hs % 2 ^ 32)

-- Messages that go out and messages in the queue, together in the order in which they came.
abbrev pub InOrder : List Message → List Handed → List Message → Type 0
InOrder sent hs ms = sent ≡ map Handed.message hs ++ ms

-- Blocked senders wait for room: if there are some, then the messages in the queue, the receivers
-- that still have to finish and the woken senders that still have to try again fill the queue.
abbrev pub Awaited : List ℕ → ℕ → ℕ → ℕ → ℕ → ℕ → ℕ → Type 0
Awaited blocked qlimit finished resumed msgcount handed woken =
    (blocked ≡ []) ⊎ (qlimit + finished + resumed ≤ msgcount + handed + woken)

pub record IsGood (w : World) : Type 0 where
  pub active : w.port.active ≡ true
  pub counted : w.port.msgcount ≡ length w.port.messages
  pub idle : Idle w.port.messages w.port.pool
  pub set_idle : Idle w.port.messages (set_members w.port.set_pool)
  pub in_order : InOrder w.sent w.port.handed w.port.messages
  pub numbered : IsNumbered w.port.handed w.port.seqno
  pub finished : w.finished ≤ length w.port.handed
  pub resumed : w.resumed ≤ length w.port.woken
  pub awaited :
      Awaited w.port.blocked w.port.qlimit w.finished w.resumed w.port.msgcount
        (length w.port.handed)
        (length w.port.woken)

pub snoc-IsNumbered :
    (hs : List Handed) (next t : ℕ) (k : Message)
    → IsNumbered hs next
    → IsNumbered
        (hs ++ record { receiver = t; message = k; seqno = next } ∷ [])
        ((next + 1) % 2 ^ 32)
snoc-IsNumbered hs next t k (same, is) =
    let h : Handed = record { receiver = t; message = k; seqno = next } in
    (
      map-append Handed.seqno hs (h ∷ [])
          ∙ ap (λ l. l ++ next ∷ []) same
          ∙ ap (λ n. numbers (length hs) ++ n ∷ []) is
          ∙ ap numbers (sym (length-snoc hs h)),
      omega (arith, is, length-snoc hs h),
    )

-- A message that is handed over comes behind those handed over before.
pub snoc-InOrder :
    (sent : List Message) (hs : List Handed) (ks : List Message) (h : Handed)
    → InOrder sent hs (h.message ∷ ks)
    → InOrder sent (hs ++ h ∷ []) ks
snoc-InOrder sent hs ks h same =
    let before = map Handed.message hs in
    same
    ∙ sym (append_assoc before (h.message ∷ []) ks)
    ∙ ap (λ l. l ++ ks) (sym (map-append Handed.message hs (h ∷ [])))

pub sent-InOrder :
    (sent : List Message) (hs : List Handed) (ms : List Message) (k : Message)
    → InOrder sent hs ms
    → InOrder (sent ++ k ∷ []) hs (ms ++ k ∷ [])
sent-InOrder sent hs ms k same =
    ap (λ l. l ++ k ∷ []) same ∙ append_assoc (map Handed.message hs) ms (k ∷ [])

-- A delivery keeps the invariant, of a sender that came first or of one that was woken.
pub Delivered-IsGood :
    (w : World) (q : Mqueue) (k : Message) (r : ℕ)
    → IsGood w
    → Delivered k w.port q
    → r ≤ w.resumed + 1
    → r ≤ length w.port.woken
    → IsGood (record w { port = q; sent = w.sent ++ k ∷ []; resumed = r })
unfolding hand_over
Delivered-IsGood w q k r g (to_receiver t ts s empty) next fits =
    let p = w.port in
    let h : Handed = record { receiver = t; message = k; seqno = p.seqno } in
    let more = length-snoc p.handed h in
    let came = sent-InOrder w.sent p.handed p.messages k g.in_order in
    let sole = ap (λ l. l ++ k ∷ []) empty in
    record {
      active = g.active;
      counted = g.counted;
      idle = inl empty;
      set_idle = inl empty;
      in_order =
          snoc-InOrder (w.sent ++ k ∷ []) p.handed [] h
            (came ∙ ap (λ l. map Handed.message p.handed ++ l) sole)
          ∙ ap (λ l. map Handed.message (p.handed ++ h ∷ []) ++ l) (sym empty);
      numbered = snoc-IsNumbered p.handed p.seqno t k g.numbered;
      finished = omega (arith, g.finished, more);
      resumed = fits;
      awaited = elim g.awaited [
        | inl free ↦ inl free
        | inr full ↦ inr (omega (arith, full, more, next))
      ];
    }
Delivered-IsGood w q k r g (to_queue s n alone set_alone) next fits =
    let p = w.port in
    let more = length-snoc p.messages k in
    record {
      active = g.active;
      counted = omega (arith, g.counted, more);
      idle = inr alone;
      set_idle = inr set_alone;
      in_order = sent-InOrder w.sent p.handed p.messages k g.in_order;
      numbered = g.numbered;
      finished = g.finished;
      resumed = fits;
      awaited = elim g.awaited [ inl free ↦ inl free | inr full ↦ inr (omega (arith, full, next)) ];
    }
