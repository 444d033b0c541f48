-- ===== src/Ipc/Mqueue/Sending.antt =====
-- How `ipc_mqueue_send` ends.
use nextbsd_kernel.Prelude.{
  ℕ, ◌<◌, ◌≤◌, ◌≡◌, ◌⊎◌, refl, sym, ap, subst, ◌∙◌, inl, inr, true, false, ◌||◌, Option, none, some,
  List, [], ◌∷◌, ◌++◌, if◌then◌else◌, All, arith, Bool-cases,
}
use nextbsd_kernel.Ipc.Right.{assert◌then◌}
use nextbsd_kernel.Ipc.Mqueue.{
  Message, Mqueue, Options, Attempt, sent, timed_out, must_wait, has_room, send_dead, is_expired,
  to_sent, attempt, hand_over, unblock, Wake, by_receiver, by_signal, by_timeout, SendResult,
  success, send_timed_out, send_interrupted, still_blocked, timed, send_loop, send,
}
use nextbsd_kernel.Ipc.Mqueue.Steps.{Idle, set_members}
use nextbsd_kernel.Ipc.Mqueue.Deliver.{Delivered, to_receiver, to_queue, deliver-Delivered}
use nextbsd_kernel.Ipc.Mqueue.Keeps.{attempt-room}

-- No receiver waits while messages are queued.
abbrev pub IsIdle : List ℕ → Mqueue → Type 0
IsIdle late q =
    Idle q.messages q.pool × Idle q.messages (set_members q.set_pool) × Idle q.messages late

-- A sender can wake for this reason.
abbrev pub MayWake : Options → Wake → Type 0
MayWake o by_receiver = Unit {0}
MayWake o by_signal = Unit {0}
MayWake o by_timeout = timed o.timeout ≡ true

abbrev pub CanWake : Options → Wake × Mqueue × List ℕ → Type 0
CanWake o (w, q, late) = MayWake o w × IsIdle late q

-- The queue is within its limit, or the port is dead, or the limit does not count for the message.
abbrev pub WithinLimit : Options → Message → Mqueue → Type 0
WithinLimit o k q = (q.active ≡ false) ⊎ ((o.always || k.once) ≡ true) ⊎ (q.msgcount ≤ q.qlimit)

-- What goes with each result.
abbrev pub Fits : Options → Message → Mqueue → SendResult → Type 0
Fits o k q success = WithinLimit o k q
Fits o k q send_timed_out = timed o.timeout ≡ true
Fits o k q send_interrupted = Unit {0}
Fits o k q still_blocked = q.qlimit ≤ q.msgcount

Delivered-limit :
    (q q' : Mqueue) (k : Message)
    → Delivered k q q'
    → q.msgcount < q.qlimit
    → q'.msgcount ≤ q'.qlimit
unfolding hand_over
Delivered-limit q q' k (to_receiver t ts s empty) lt = omega arith
Delivered-limit q q' k (to_queue s n alone set_alone) lt = omega arith

-- The three results of a round.
abbrev Round : Options → Message → Mqueue → Option Attempt → Type 0
Round o k q a =
    ((q' : Mqueue) × (a ≡ some (sent q')) × WithinLimit o k q')
    ⊎ ((a ≡ some timed_out) × (timed o.timeout ≡ true))
    ⊎ ((q' : Mqueue) × (a ≡ some (must_wait q')) × (q'.qlimit ≤ q'.msgcount))

expired-timed : (t : Option ℕ) → is_expired t ≡ true → timed t ≡ true
unfolding timed is_expired
expired-timed none e = cc
expired-timed (some n) e = refl

module _ (o : Options) (self : ℕ) (late : List ℕ) (k : Message) (q : Mqueue)
    (idle : IsIdle late q) where
  room-Round : q.active ≡ true → has_room o k q ≡ true → Round o k q (attempt o self late k q)
  unfolding to_sent has_room
  room-Round act room =
      let (alone, set_alone, late_alone) = idle in
      let (q', is, d) = deliver-Delivered late k q act alone set_alone late_alone in
      let done = attempt-room o self late k q act room ∙ ap to_sent is in
      inl (
        q',
        done,
        elim (Bool-cases (o.always || k.once)) [
          | inl free ↦ inr (inl free)
          | inr bound ↦ inr (inr (Delivered-limit q q' k d (ground arith)))
        ],
      )

  full-Round : q.active ≡ true → has_room o k q ≡ false → Round o k q (attempt o self late k q)
  unfolding has_room attempt
  full-Round act full = elim (Bool-cases (is_expired o.timeout)) [
    | inl over ↦ inr (inl (rw (act, full, over) refl, expired-timed o.timeout over))
    | inr stays ↦
        let queued = record q { blocked = q.blocked ++ self ∷ [] } in
        inr (inr (queued, rw (act, full, stays) refl, ground arith))
  ]

  attempt-Round : Round o k q (attempt o self late k q)
  unfolding attempt send_dead
  attempt-Round = elim (Bool-cases q.active) [
    | inl act ↦ elim (Bool-cases (has_room o k q)) [
      | inl room ↦ room-Round act room
      | inr full ↦ full-Round act full
    ]
    | inr dead ↦ inl (send_dead k q, rw dead refl, inl dead)
  ]

-- A send has a result that goes with the queue.
abbrev pub Ends : Options → Message → Option (Mqueue × SendResult) → Type 0
Ends o k r = (q : Mqueue) × (result : SendResult) × (r ≡ some (q, result)) × Fits o k q result

-- The options once the time is over.
abbrev expired : Options → Options
expired o = record o { timeout = some 0 }

CanWake-expired :
    (o : Options) (wakes : List (Wake × Mqueue × List ℕ))
    → All (CanWake o) wakes
    → All (CanWake (expired o)) wakes
unfolding timed
CanWake-expired o [] all = tt
CanWake-expired o ((by_receiver, q, late) ∷ wakes) ((may, idle), all) =
    ((tt, idle), CanWake-expired o wakes all)
CanWake-expired o ((by_signal, q, late) ∷ wakes) ((may, idle), all) =
    ((tt, idle), CanWake-expired o wakes all)
CanWake-expired o ((by_timeout, q, late) ∷ wakes) ((may, idle), all) =
    ((refl, idle), CanWake-expired o wakes all)

-- Options that differ in the timeout alone.
Ends-expired :
    (o : Options) (k : Message) (r : Option (Mqueue × SendResult))
    → timed o.timeout ≡ true
    → Ends (expired o) k r
    → Ends o k r
Ends-expired o k r limited (q, success, is, fits) = (q, success, is, fits)
Ends-expired o k r limited (q, send_timed_out, is, fits) = (q, send_timed_out, is, limited)
Ends-expired o k r limited (q, send_interrupted, is, fits) = (q, send_interrupted, is, fits)
Ends-expired o k r limited (q, still_blocked, is, fits) = (q, still_blocked, is, fits)

send_loop-Ends :
    (o : Options) (self : ℕ) (k : Message) (wakes : List (Wake × Mqueue × List ℕ))
    (a : Option Attempt) (q : Mqueue)
    → All (CanWake o) wakes
    → Round o k q a
    → Ends o k (send_loop o self k wakes a (some (q, send_timed_out)))
unfolding send_loop
send_loop-Ends o self k wakes a q all (inl (q', is, within)) =
    rw (is, send_loop) (q', success, refl, within)
send_loop-Ends o self k wakes a q all (inr (inl (is, limited))) =
    rw (is, send_loop) (q, send_timed_out, refl, limited)
send_loop-Ends o self k [] a q all (inr (inr (q', is, full))) =
    rw (is, send_loop) (q', still_blocked, refl, full)
send_loop-Ends o self k ((by_receiver, p, late) ∷ wakes) a q all (inr (inr (q', is, full))) =
    rw (is, send_loop)
      (send_loop-Ends o self k wakes (attempt o self late k p) p all.1
        (attempt-Round o self late k p all.0.1))
send_loop-Ends o self k ((by_signal, p, late) ∷ wakes) a q all (inr (inr (q', is, full))) =
    rw (is, send_loop) (unblock self p, send_interrupted, refl, tt)
send_loop-Ends o self k ((by_timeout, p, late) ∷ wakes) a q all (inr (inr (q', is, full))) =
    let left = unblock self p in
    let rest =
      send_loop-Ends (expired o) self k wakes (attempt (expired o) self late k left) left
        (CanWake-expired o wakes all.1)
        (attempt-Round (expired o) self late k left (unfold unblock in all.0.1)) in
    rw (is, send_loop, all.0.0) (Ends-expired o k _ all.0.0 rest)

-- `ipc_mqueue_send` of a message that makes no circle, for any sequence of wakeups: no assertion
-- fails. If it succeeds, the port is dead, or the queue is within its limit, or the message may
-- pass the limit (MACH_SEND_ALWAYS, or a send-once right); it times out only with a timeout; while
-- the sender blocks, it has left a full queue. No receiver waits while messages are queued, at the
-- start and at each wakeup, and the wait times out only with a timeout.
pub send-Ends :
    (o : Options) (self : ℕ) (k : Message) (wakes : List (Wake × Mqueue × List ℕ)) (late : List ℕ)
    (q : Mqueue)
    → k.is_circular ≡ false
    → IsIdle late q
    → All (CanWake o) wakes
    → Ends o k (send o self k wakes late q)
unfolding send
send-Ends o self k wakes late q plain idle all =
    let loop = send_loop o self k wakes (attempt o self late k q) (some (q, send_timed_out)) in
    let gone = some (record q { destroyed = q.destroyed ++ k ∷ [] }, success) in
    subst (λ b. Ends o k (if b then gone else loop)) (sym plain)
      (send_loop-Ends o self k wakes (attempt o self late k q) q all
        (attempt-Round o self late k q idle))
