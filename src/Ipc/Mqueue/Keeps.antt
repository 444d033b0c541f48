-- ===== src/Ipc/Mqueue/Keeps.antt =====
-- What the operations on a queue keep of its invariant.
use nextbsd_kernel.Prelude.{
  length-snoc, ℕ, ◌+◌, ◌≤◌, ◌≡◌, ◌⊎◌, refl, sym, ap, subst, ◌∙◌, inl, inr, true, false, Option,
  none, some, List, [], ◌∷◌, ◌++◌, map, length, arith, Bool-cases,
}
use nextbsd_kernel.Ipc.Mqueue.{
  Message, Handed, Mqueue, Options, sent, timed_out, must_wait, has_room, is_expired, to_sent,
  attempt, deliver, remove_first, hand_over,
}
use nextbsd_kernel.Ipc.Mqueue.Receiving.{Thread, take_first}
use nextbsd_kernel.Ipc.Mqueue.Steps.{World, Idle, set_members}
use nextbsd_kernel.Ipc.Mqueue.Deliver.{Delivered, deliver-Delivered}
use nextbsd_kernel.Ipc.Mqueue.Good.{IsGood, snoc-IsNumbered, snoc-InOrder, Delivered-IsGood}

sent-injective : (a b : Mqueue) → some (sent a) ≡ some (sent b) → a ≡ b
sent-injective a b e = cc

to_sent-some : (o : Option Mqueue) (q : Mqueue) → to_sent o ≡ some (sent q) → o ≡ some q
unfolding to_sent
to_sent-some none q e = cc
to_sent-some (some p) q e = cc

to_sent-waits : (o : Option Mqueue) (q : Mqueue) → to_sent o ≡ some (must_wait q) → ⊥
unfolding to_sent
to_sent-waits none q e = cc
to_sent-waits (some p) q e = cc

module _ (o : Options) (self : ℕ) (late : List ℕ) (k : Message) (p : Mqueue)
    (act : p.active ≡ true) where
  pub attempt-room : has_room o k p ≡ true → attempt o self late k p ≡ to_sent (deliver late k p)
  unfolding attempt has_room
  attempt-room room = rw (act, room) refl

  attempt-full :
      has_room o k p ≡ false
      → (attempt o self late k p ≡ some timed_out)
        ⊎ (attempt o self late k p
            ≡ some (must_wait (record p { blocked = p.blocked ++ self ∷ [] })))
  unfolding attempt has_room
  attempt-full full = elim (Bool-cases (is_expired o.timeout)) [
    | inl over ↦ inl (rw (act, full, over) refl)
    | inr stays ↦ inr (rw (act, full, stays) refl)
  ]

  pub attempt-sent :
      (q : Mqueue) → attempt o self late k p ≡ some (sent q) → deliver late k p ≡ some q
  attempt-sent q e = elim (Bool-cases (has_room o k p)) [
    | inl room ↦ to_sent-some (deliver late k p) q (sym (attempt-room room) ∙ e)
    | inr full ↦ elim (attempt-full full) [ inl over ↦ absurd (cc) | inr stays ↦ absurd (cc) ]
  ]

  -- A sender blocks only while the queue is full.
  pub attempt-waits :
      (q : Mqueue)
      → attempt o self late k p ≡ some (must_wait q)
      → (q ≡ record p { blocked = p.blocked ++ self ∷ [] }) × (p.qlimit ≤ p.msgcount)
  unfolding has_room
  attempt-waits q e = elim (Bool-cases (has_room o k p)) [
    | inl room ↦ absurd (to_sent-waits (deliver late k p) q (sym (attempt-room room) ∙ e))
    | inr full ↦ elim (attempt-full full) [
      | inl over ↦ absurd (cc)
      | inr stays ↦ (cc, ground arith)
    ]
  ]

pub deliver-keeps :
    (w : World) (q : Mqueue) (late : List ℕ) (k : Message) (r : ℕ)
    → IsGood w
    → Idle w.port.messages late
    → deliver late k w.port ≡ some q
    → r ≤ w.resumed + 1
    → r ≤ length w.port.woken
    → IsGood (record w { port = q; sent = w.sent ++ k ∷ []; resumed = r })
deliver-keeps w q late k r g idle e next fits =
    let (q', is, d) = deliver-Delivered late k w.port g.active g.idle g.set_idle idle in
    let same : q' ≡ q = cc in
    Delivered-IsGood w q k r g (subst (Delivered k w.port) same d) next fits

pub block-keeps :
    (w : World) (q : Mqueue) (self r : ℕ)
    → IsGood w
    → q ≡ record w.port { blocked = w.port.blocked ++ self ∷ [] }
    → w.port.qlimit ≤ w.port.msgcount
    → r ≤ length w.port.woken
    → IsGood (record w { port = q; resumed = r })
block-keeps w q self r g is full fits =
    subst (λ p. IsGood (record w { port = p; resumed = r })) (sym is)
      (record {
        active = g.active;
        counted = g.counted;
        idle = g.idle;
        set_idle = g.set_idle;
        in_order = g.in_order;
        numbered = g.numbered;
        finished = g.finished;
        resumed = fits;
        awaited = inr (omega (arith, g.finished));
      })

pub take-keeps :
    (w : World) (th : Thread) (k : Message) (ks : List Message)
    → IsGood w
    → w.port.messages ≡ k ∷ ks
    → IsGood (record w { port = (take_first th k ks w.port).0 })
unfolding take_first hand_over remove_first
take-keeps w th k ks g is =
    let p = w.port in
    let h : Handed = record { receiver = th.self; message = k; seqno = p.seqno } in
    let more = length-snoc p.handed h in
    let count = ap length is in
    record {
      active = g.active;
      counted = omega (arith, g.counted, count);
      idle = inr (waiting p.pool g.idle);
      set_idle = inr (waiting (set_members p.set_pool) g.set_idle);
      in_order =
          snoc-InOrder w.sent p.handed ks h
            (g.in_order ∙ ap (λ l. map Handed.message p.handed ++ l) is);
      numbered = snoc-IsNumbered p.handed p.seqno th.self k g.numbered;
      finished = omega (arith, g.finished, more);
      resumed = g.resumed;
      awaited = elim g.awaited [
        | inl free ↦ inl free
        | inr full ↦ inr (omega (arith, full, more, g.counted, count))
      ];
    }
  where
    waiting : (ts : List ℕ) → Idle w.port.messages ts → ts ≡ []
    waiting ts (inl empty) = absurd (cc)
    waiting ts (inr alone) = alone
