-- ===== src/Ipc/Mqueue/Steps.antt =====
-- What the threads of a system do to one port, as steps: they send, block, receive, and wait in the
-- pools of the port and of its set.
use nextbsd_kernel.Prelude.{
  ℕ, ◌+◌, ◌<◌, ◌≡◌, ◌⊎◌, true, Option, none, some, List, [], ◌∷◌, ◌++◌, length,
}
use nextbsd_kernel.Ipc.Mqueue.{
  Message, Mqueue, Options, Attempt, must_wait, attempt, unblock, set_qlimit,
}
use nextbsd_kernel.Ipc.Mqueue.Receiving.{
  take_first, finish_receive, Receive, Thread, fits, leave_pool,
}

-- A port and what has happened: the messages sent to it, the number of receivers that have finished
-- with the message they got, and the number of woken senders that have tried again.
pub record World : Type 0 where
  pub port : Mqueue
  pub sent : List Message
  pub finished : ℕ
  pub resumed : ℕ

-- No thread waits in the pool while messages are queued.
abbrev pub Idle : List Message → List ℕ → Type 0
Idle ms ts = (ms ≡ []) ⊎ (ts ≡ [])

abbrev pub set_members : Option (List ℕ) → List ℕ
set_members none = []
set_members (some ts) = ts

pub data Step : World → World → Type 0 where
  -- a send by a thread that was not blocked; a receiver of the set comes late only if its scan saw
  -- no message
  send :
      {w : World} {q : Mqueue} (o : Options) (self : ℕ) (late : List ℕ) (k : Message)
      → Idle w.port.messages late
      → attempt o self late k w.port ≡ some (Attempt.sent q)
      → Step w (record w { port = q; sent = w.sent ++ k ∷ [] })
  -- the same after it was woken
  resend :
      {w : World} {q : Mqueue} (o : Options) (self : ℕ) (late : List ℕ) (k : Message)
      → w.resumed < length w.port.woken
      → Idle w.port.messages late
      → attempt o self late k w.port ≡ some (Attempt.sent q)
      → Step w (record w { port = q; sent = w.sent ++ k ∷ []; resumed = w.resumed + 1 })
  block :
      {w : World} {q : Mqueue} (o : Options) (self : ℕ) (late : List ℕ) (k : Message)
      → attempt o self late k w.port ≡ some (must_wait q)
      → Step w (record w { port = q })
  block_again :
      {w : World} {q : Mqueue} (o : Options) (self : ℕ) (late : List ℕ) (k : Message)
      → w.resumed < length w.port.woken
      → attempt o self late k w.port ≡ some (must_wait q)
      → Step w (record w { port = q; resumed = w.resumed + 1 })
  -- a blocked sender is interrupted, or its time is over
  give_up : {w : World} (self : ℕ) → Step w (record w { port = unblock self w.port })
  -- a receiver takes the head of the queue, and it fits
  take :
      {w : World} (o : Receive) (th : Thread) (k : Message) (ks : List Message)
      → w.port.messages ≡ k ∷ ks
      → fits o k ≡ true
      → Step w (record w { port = (take_first th k ks w.port).0 })
  -- a receiver that has got a message finishes
  finish :
      {w : World}
      → w.finished < length w.port.handed
      → Step w (record w { port = finish_receive w.port; finished = w.finished + 1 })
  -- a receiver waits for the port, or stops
  wait :
      {w : World} (self : ℕ)
      → w.port.messages ≡ []
      → Step w (record w { port = record w.port { pool = self ∷ w.port.pool } })
  leave : {w : World} (self : ℕ) → Step w (record w { port = leave_pool self w.port })
  -- the port joins or leaves a set, or the threads that wait for its set change
  change_set :
      {w : World} (set_pool : Option (List ℕ))
      → Idle w.port.messages (set_members set_pool)
      → Step w (record w { port = record w.port { set_pool = set_pool } })
  change_qlimit :
      {w : World} {q : Mqueue} (qlimit : ℕ)
      → set_qlimit qlimit w.port ≡ some q
      → Step w (record w { port = q })

-- A new port.
abbrev pub IsNew : World → Type 0
IsNew w =
    (w.port.active ≡ true)
    × (w.sent ≡ [])
    × (w.finished ≡ 0)
    × (w.resumed ≡ 0)
    × (w.port.messages ≡ [])
    × (w.port.msgcount ≡ 0)
    × (w.port.seqno ≡ 0)
    × (w.port.handed ≡ [])
    × (w.port.woken ≡ [])
    × (w.port.blocked ≡ [])

pub data Steps : World → World → Type 0 where
  start : {w : World} → Steps w w
  later : {u v w : World} → Steps u v → Step v w → Steps u w
