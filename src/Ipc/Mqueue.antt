-- ===== src/Ipc/Mqueue.antt =====
-- The message queue of a port: ipc_mqueue.c, thread_pool.c and `ipc_port_set_qlimit` of ipc_port.c.
-- The queues of messages and threads are lists. `msgcount` counts messages in memory and does not
-- wrap; `seqno` does.
pub mod Receiving
pub mod Steps
pub mod Deliver
pub mod Good
pub mod Keeps
pub mod Wakes
pub mod Order
pub mod Loss
pub mod Sending
use nextbsd_kernel.Prelude.{
  ℕ, zero, suc, ◌+◌, ◌-◌, ◌%◌, ◌^◌, Bool, true, false, not, ◌&&◌, ◌||◌, Option, none, some, List,
  [], ◌∷◌, ◌++◌, ◌==◌, if◌then◌else◌, ltb, keep,
}
use nextbsd_kernel.Ipc.Right.{assert◌then◌}

-- A message: `size` is what `ipc_kmsg_copyout_size` gives, `once` says that it goes to a send-once
-- right, `is_circular` is MACH_MSGH_BITS_CIRCULAR.
pub record Message : Type 0 where
  pub id : ℕ
  pub size : ℕ
  pub once : Bool
  pub is_circular : Bool

-- A message in the hands of a receiver (`ith_kmsg`, `ith_seqno`).
pub record Handed : Type 0 where
  pub receiver : ℕ
  pub message : Message
  pub seqno : ℕ

-- A port with its queue. `pool` is the threads that wait for the port itself, `set_pool` those that
-- wait for its port set, if `ip_pset` is one. The last four fields are histories: the messages that
-- receivers got, the senders that were woken, the messages destroyed, and the calls of
-- `ipc_pset_signal`.
pub record Mqueue : Type 0 where
  pub active : Bool
  pub refs : ℕ
  pub msgcount : ℕ
  pub qlimit : ℕ
  pub seqno : ℕ
  pub messages : List Message
  pub blocked : List ℕ
  pub pool : List ℕ
  pub set_pool : Option (List ℕ)
  pub handed : List Handed
  pub woken : List ℕ
  pub destroyed : List Message
  pub signals : ℕ

-- `thread_pool_get_act`, which does not block.
unfoldable pub get_act : List ℕ → Option (ℕ × List ℕ)
get_act [] = none
get_act (t ∷ ts) = some (t, ts)

unfoldable pub take_from_port : Mqueue → Option (ℕ × List ℕ) → Option (ℕ × Mqueue)
take_from_port q none = none
take_from_port q (some (t, ts)) = some (t, record q { pool = ts })

unfoldable pub take_from_set : Mqueue → Option (List ℕ) → Option (ℕ × Mqueue)
take_from_set q none = take_from_port q (get_act q.pool)
take_from_set q (some []) = take_from_port q (get_act q.pool)
take_from_set q (some (t ∷ ts)) = some (t, record q { set_pool = some ts })

-- The receiver that `ipc_mqueue_deliver` finds: one of the set first, then one of the port.
unfoldable pub find_receiver : Mqueue → Option (ℕ × Mqueue)
find_receiver q = take_from_set q q.set_pool

-- The message goes to a thread with the next sequence number.
unfoldable pub hand_over : ℕ → Message → Mqueue → Mqueue
hand_over t k q = record q {
  seqno = (q.seqno + 1) % 2 ^ 32;
  handed = q.handed ++ record { receiver = t; message = k; seqno = q.seqno } ∷ [];
}

-- `ipc_kmsg_rmqueue_first_macro` with `port->ip_msgcount--`
unfoldable pub remove_first : List Message → Mqueue → Mqueue
remove_first ks q = record q { messages = ks; msgcount = q.msgcount - 1 }

-- The second test of `ipc_mqueue_deliver` finds a receiver: it gets the head of the queue.
unfoldable pub run_late : ℕ → List Message → Mqueue → Option Mqueue
run_late t [] q = none
run_late t (k ∷ ks) q = some (hand_over t k (remove_first ks q))

unfoldable pub signal_set : Mqueue → Option (List ℕ) → Mqueue
signal_set q none = q
signal_set q (some _) = record q { signals = q.signals + 1 }

unfoldable pub after_enqueue : Mqueue → Option (ℕ × Mqueue) → Option Mqueue
after_enqueue q none = some (signal_set q q.set_pool)
after_enqueue q (some (t, q')) = run_late t q'.messages q'

unfoldable pub arrived : List ℕ → Option (List ℕ) → Option (List ℕ)
arrived late none = none
arrived late (some _) = some late

-- `ipc_mqueue_deliver` from the enqueue on. `late` is the pool of the set at the second test: only
-- the lock of the port is held in between.
unfoldable pub enqueue : List ℕ → Message → Mqueue → Option Mqueue
enqueue late k q =
    let queued = record q {
      messages = q.messages ++ k ∷ [];
      msgcount = q.msgcount + 1;
      set_pool = arrived late q.set_pool;
    } in
    after_enqueue queued (find_receiver queued)

unfoldable pub deliver_found : List ℕ → Message → Mqueue → Option (ℕ × Mqueue) → Option Mqueue
deliver_found late k q none = enqueue late k q
deliver_found late k q (some (t, q')) = some (hand_over t k q')

-- `ipc_mqueue_deliver`
unfoldable pub deliver : List ℕ → Message → Mqueue → Option Mqueue
deliver late k q = assert q.active then deliver_found late k q (find_receiver q)

-- The options of a send: MACH_SEND_ALWAYS, and the timeout with MACH_SEND_TIMEOUT.
pub record Options : Type 0 where
  pub always : Bool
  pub timeout : Option ℕ

unfoldable pub has_room : Options → Message → Mqueue → Bool
has_room o k q = ltb q.msgcount q.qlimit || o.always || k.once

-- What one round of the loop of `ipc_mqueue_send` comes to.
pub data Attempt : Type 0 where
  sent : Mqueue → Attempt
  timed_out : Attempt
  must_wait : Mqueue → Attempt

-- The message goes with a dead port.
unfoldable pub send_dead : Message → Mqueue → Mqueue
send_dead k q = record q { refs = q.refs - 1; destroyed = q.destroyed ++ k ∷ [] }

unfoldable pub is_expired : Option ℕ → Bool
is_expired none = false
is_expired (some t) = t == 0

unfoldable pub to_sent : Option Mqueue → Option Attempt
to_sent none = none
to_sent (some q) = some (sent q)

-- A round of the loop of `ipc_mqueue_send`, for the thread `self`.
unfoldable pub attempt : Options → ℕ → List ℕ → Message → Mqueue → Option Attempt
attempt o self late k q =
    if not q.active
    then some (sent (send_dead k q))
    else if has_room o k q
    then to_sent (deliver late k q)
    else if is_expired o.timeout
    then some timed_out
    else some (must_wait (record q { blocked = q.blocked ++ self ∷ [] }))

-- `ipc_thread_rmqueue`
unfoldable pub unblock : ℕ → Mqueue → Mqueue
unblock self q = record q { blocked = keep (λ t. not (t == self)) q.blocked }

-- Why a blocked sender wakes: another thread has set its state to MACH_MSG_SUCCESS,
-- THREAD_INTERRUPTED, or THREAD_TIMED_OUT.
pub data Wake : Type 0 where
  by_receiver by_signal by_timeout : Wake

-- MACH_MSG_SUCCESS, MACH_SEND_TIMED_OUT, MACH_SEND_INTERRUPTED; or the sender still waits.
pub data SendResult : Type 0 where
  success send_timed_out send_interrupted still_blocked : SendResult

unfoldable pub timed : Option ℕ → Bool
timed none = false
timed (some _) = true

-- The loop of `ipc_mqueue_send`. Each time that the sender wakes, `wakes` has the reason, the port
-- as it then is, and the pool at a late test.
unfoldable pub send_loop :
    Options
    → ℕ
    → Message
    → List (Wake × Mqueue × List ℕ)
    → Option Attempt
    → Option (Mqueue × SendResult)
    → Option (Mqueue × SendResult)
send_loop o self k wakes none q = none
send_loop o self k wakes (some (sent q)) r = some (q, success)
send_loop o self k wakes (some timed_out) r = r
send_loop o self k [] (some (must_wait q)) r = some (q, still_blocked)
send_loop o self k ((by_receiver, q, late) ∷ wakes) (some (must_wait _)) r =
    send_loop o self k wakes (attempt o self late k q) (some (q, send_timed_out))
send_loop o self k ((by_signal, q, late) ∷ wakes) (some (must_wait _)) r =
    some (unblock self q, send_interrupted)
send_loop o self k ((by_timeout, q, late) ∷ wakes) (some (must_wait _)) r =
    let expired = record o { timeout = some 0 } in
    let rest =
      send_loop expired self k wakes (attempt expired self late k (unblock self q))
        (some (unblock self q, send_timed_out)) in
    assert timed o.timeout then rest

-- `ipc_mqueue_send` to a port that is not the kernel's; a circular message is destroyed.
unfoldable pub send :
    Options
    → ℕ
    → Message
    → List (Wake × Mqueue × List ℕ)
    → List ℕ
    → Mqueue
    → Option (Mqueue × SendResult)
send o self k wakes late q =
    if k.is_circular
    then some (record q { destroyed = q.destroyed ++ k ∷ [] }, success)
    else send_loop o self k wakes (attempt o self late k q) (some (q, send_timed_out))

-- `while (...) ipc_thread_dequeue(&port->ip_blocked)`, at most `n` times
unfoldable pub wake_senders : ℕ → List ℕ → Mqueue → Mqueue
wake_senders zero ts q = record q { blocked = ts }
wake_senders (suc n) [] q = record q { blocked = [] }
wake_senders (suc n) (t ∷ ts) q = wake_senders n ts (record q { woken = q.woken ++ t ∷ [] })

-- `ipc_port_set_qlimit`
unfoldable pub set_qlimit : ℕ → Mqueue → Option Mqueue
set_qlimit qlimit q =
    let woken = if ltb q.qlimit qlimit then wake_senders (qlimit - q.qlimit) q.blocked q else q in
    assert q.active then some (record woken { qlimit = qlimit })

-- What `ipc_pset_move` does to a port that is in no set: it joins one in whose pool `ts` wait.
unfoldable pub join_set : List ℕ → Mqueue → Mqueue
join_set ts q =
    let moved = record q { set_pool = some ts } in
    if not (q.msgcount == 0) then record moved { signals = q.signals + 1 } else moved
