-- ===== src/Ipc/Mqueue/Receiving.antt =====
-- Receiving from the queue of a port: `ipc_mqueue_receive`, `ipc_mqueue_finish_receive` and
-- `thread_pool_remove`.
use nextbsd_kernel.Prelude.{
  ℕ, ◌+◌, Bool, not, ◌&&◌, Option, none, some, List, [], ◌∷◌, ◌==◌, if◌then◌else◌, ltb, keep,
}
use nextbsd_kernel.Ipc.Mqueue.{Message, Mqueue, hand_over, remove_first, is_expired, wake_senders}

-- A receive: MACH_RCV_LARGE, the size of the trailer, the size of the buffer, and the timeout.
pub record Receive : Type 0 where
  pub large : Bool
  pub trailer : ℕ
  pub max_size : ℕ
  pub timeout : Option ℕ

-- The receiving thread; `kmsg` is `ith_kmsg`.
pub record Thread : Type 0 where
  pub self : ℕ
  pub kmsg : Option Message
  pub seqno : ℕ

pub data Result : Type 0 where
  received : Message → ℕ → Bool → Result
  too_large : Result
  receive_timed_out : Result
  waits : Result

unfoldable pub fits : Receive → Message → Bool
fits o k = not (ltb o.max_size (k.size + o.trailer))

-- The last part of `ipc_mqueue_finish_receive`: a blocked sender wakes if the queue has room. The
-- check of a scatter list is left out.
unfoldable pub finish_receive : Mqueue → Mqueue
finish_receive q = if q.active && ltb q.msgcount q.qlimit then wake_senders 1 q.blocked q else q

-- `rx_done` of `ipc_mqueue_receive`; the Boolean of `received` says that the message fits.
unfoldable pub receive_done : Receive → Thread → Message → Mqueue → Mqueue × Thread × Result
receive_done o th k q =
    (finish_receive q, record th { kmsg = none }, received k th.seqno (fits o k))

-- `ipc_mqueue_post_on_thread` takes the head of the queue.
unfoldable pub take_first : Thread → Message → List Message → Mqueue → Mqueue × Thread
take_first th k ks q =
    (hand_over th.self k (remove_first ks q), record th { kmsg = some k; seqno = q.seqno })

-- `ipc_mqueue_receive` on a port where a message is on the queue. Where it does not fit the buffer,
-- it stays on the queue with MACH_RCV_LARGE, and is left with the thread without.
unfoldable pub receive_queued :
    Receive → Thread → Message → List Message → Mqueue → Mqueue × Thread × Result
receive_queued o th k ks q =
    let (q', th') = take_first th k ks q in
    if fits o k
    then receive_done o th' k q'
    else if o.large
    then (q, record th { kmsg = none; seqno = 0 }, too_large)
    else (q', th', too_large)

-- The thread blocks in the pool of the port (`thread_pool_put_act`), or the timeout is 0.
unfoldable pub receive_blocks : Receive → Thread → Mqueue → Mqueue × Thread × Result
receive_blocks o th q =
    if is_expired o.timeout
    then (q, th, receive_timed_out)
    else (record q { pool = th.self ∷ q.pool }, th, waits)

unfoldable pub receive_empty : Receive → Thread → List Message → Mqueue → Mqueue × Thread × Result
receive_empty o th [] q = receive_blocks o th q
receive_empty o th (k ∷ ks) q = receive_queued o th k ks q

unfoldable pub receive_with : Receive → Thread → Option Message → Mqueue → Mqueue × Thread × Result
receive_with o th none q = receive_empty o th q.messages q
receive_with o th (some k) q = receive_done o th k q

-- `ipc_mqueue_receive` on a port, until the thread blocks.
unfoldable pub receive : Receive → Thread → Mqueue → Mqueue × Thread × Result
receive o th q = receive_with o th th.kmsg q

-- `thread_pool_remove`, for a receiver that was not woken by a message.
unfoldable pub leave_pool : ℕ → Mqueue → Mqueue
leave_pool t q = record q { pool = keep (λ s. not (s == t)) q.pool }
