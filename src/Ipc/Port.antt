-- ===== src/Ipc/Port.antt =====
-- The operations of ipc_port.c on one port: naked rights, the no-senders request, and the end of a
-- port, `ipc_port_destroy`.
pub mod Senders
pub mod Accounts
pub mod Destroy
use nextbsd_kernel.Prelude.{
  ℕ, zero, suc, ◌+◌, ◌-◌, ◌%◌, ◌^◌, Bool, true, false, not, ◌&&◌, Option, none, some, List, [], ◌∷◌,
  ◌++◌, ◌==◌, if◌then◌else◌, ltb, leb, foldl,
}
use nextbsd_kernel.Ipc.Right.{assert◌then◌, is_none}
use nextbsd_kernel.Ipc.Requests.{Request, Table}

-- The counts of a port and its no-senders request. `told` is the history of the no-senders
-- notifications: whom they went to, and with which make-send count.
pub record Rights : Type 0 where
  pub active : Bool
  pub refs : ℕ
  pub srights : ℕ
  pub sorights : ℕ
  pub mscount : ℕ
  pub nsrequest : Option ℕ
  pub told : List (ℕ × ℕ)

-- `ipc_port_make_send`
unfoldable pub make_send : Rights → Option Rights
make_send p =
    assert p.active
    then some (record p {
      mscount = (p.mscount + 1) % 2 ^ 32;
      srights = p.srights + 1;
      refs = p.refs + 1;
    })

-- `ipc_port_copy_send`, of a send right to the port: the copy, or IP_DEAD, which is no copy.
unfoldable pub copy_send : Rights → Option (Rights × Bool)
copy_send p =
    if p.active
    then (assert ltb 0 p.srights
        then some (record p { refs = p.refs + 1; srights = p.srights + 1 }, true))
    else some (p, false)

unfoldable pub notify_senders : Rights → Option ℕ → Rights
notify_senders p none = p
notify_senders p (some ns) = record p { nsrequest = none; told = p.told ++ (ns, p.mscount) ∷ [] }

-- `ipc_port_release_send`, of a valid port
unfoldable pub release_send : Rights → Option Rights
release_send p =
    let less = record p { srights = p.srights - 1; refs = p.refs - 1 } in
    if not p.active
    then some (record p { refs = p.refs - 1 })
    else assert ltb 0 p.srights
    then some (if p.srights - 1 == 0 then notify_senders less p.nsrequest else less)

-- `ipc_port_make_sonce`
unfoldable pub make_sonce : Rights → Option Rights
make_sonce p = assert p.active then some (record p { sorights = p.sorights + 1; refs = p.refs + 1 })

-- `ipc_port_release_sonce`
unfoldable pub release_sonce : Rights → Option Rights
release_sonce p =
    assert ltb 0 p.sorights then some (record p { sorights = p.sorights - 1; refs = p.refs - 1 })

-- `ipc_port_nsrequest`: the port, and the previous request.
unfoldable pub nsrequest : ℕ → Option ℕ → Rights → Option (Rights × Option ℕ)
nsrequest sync notify p =
    assert p.active
    then if (p.srights == 0) && leb sync p.mscount && not (is_none notify)
    then some (notify_senders (record p { nsrequest = none }) notify, p.nsrequest)
    else some (record p { nsrequest = notify }, p.nsrequest)

-- What `ipc_port_destroy` does besides: threads that it wakes, messages that it destroys, and the
-- notifications that it sends.
pub data Deed : Type 0 where
  wake : ℕ → Deed
  destroy_message : ℕ → Deed
  dead_name : ℕ → ℕ → Deed
  send_once : ℕ → Deed
  port_destroyed : ℕ → Deed
  release_once : ℕ → Deed

-- The port as `ipc_port_destroy` sees it. `blocked` is the senders that wait, `messages` the queue;
-- `in_set` says that `ip_pset` is not IPS_NULL.
pub record Dying : Type 0 where
  pub active : Bool
  pub refs : ℕ
  pub mscount : ℕ
  pub seqno : ℕ
  pub in_set : Bool
  pub named : Bool
  pub destination : Option ℕ
  pub pdrequest : Option ℕ
  pub nsrequest : Option ℕ
  pub dnrequests : Option Table
  pub blocked : List ℕ
  pub messages : List ℕ
  pub msgcount : ℕ
  pub deeds : List Deed

unfoldable pub deed : Dying → Deed → Dying
deed p d = record p { deeds = p.deeds ++ d ∷ [] }

-- `while ((sender = ipc_thread_dequeue(&port->ip_blocked)) != ITH_NULL)`
unfoldable pub wake_all : Dying → List ℕ → Dying
wake_all p [] = p
wake_all p (t ∷ ts) = wake_all (deed (record p { blocked = ts }) (wake t)) ts

-- `while ((kmsg = ipc_kmsg_dequeue(kmqueue)) != IKM_NULL)`
unfoldable pub destroy_messages : Dying → List ℕ → Dying
destroy_messages p [] = p
destroy_messages p (k ∷ ks) =
    destroy_messages
      (deed (record p { messages = ks; msgcount = p.msgcount - 1; refs = p.refs - 1 })
        (destroy_message k))
      ks

-- The loop of `ipc_port_dnnotify`, over `n` slots from `i` on.
unfoldable pub dnnotify : (ℕ → Request) → ℕ → ℕ → Dying → Option Dying
dnnotify slots zero i p = some p
dnnotify slots (suc n) i p =
    if (slots i).name == 0
    then dnnotify slots n (suc i) p
    else assert not ((slots i).notify == 0)
    then dnnotify slots n (suc i) (deed p (dead_name (slots i).notify (slots i).name))

unfoldable pub notify_names : (ℕ → ℕ) → Option Table → Dying → Option Dying
notify_names sizes none p = some p
notify_names sizes (some t) p = dnnotify t.slots (sizes t.size_class - 1) 1 p

unfoldable pub drop_nsrequest : Dying → Option ℕ → Dying
drop_nsrequest p none = p
drop_nsrequest p (some ns) = deed p (send_once ns)

unfoldable pub consume_ref : Option Dying → Option Dying
consume_ref none = none
consume_ref (some p) = some (record p { refs = p.refs - 1 })

-- `ipc_port_destroy` for a port that has no backup to go to.
unfoldable pub die : (ℕ → ℕ) → Dying → Option Dying
die sizes p =
    let woken = wake_all p p.blocked in
    let dead = record woken { active = false; dnrequests = none } in
    let emptied = destroy_messages (drop_nsrequest dead p.nsrequest) p.messages in
    consume_ref (notify_names sizes p.dnrequests emptied)

-- `ipc_port_destroy` for a port with a port-destroyed request, or without.
unfoldable pub destroy_backed : (ℕ → ℕ) → Bool → Dying → Option ℕ → Option Dying
destroy_backed sizes circular p none = die sizes p
destroy_backed sizes circular p (some pd) =
    let limbo = record p { pdrequest = none; named = false; destination = none } in
    if circular
    then die sizes (deed limbo (release_once pd))
    else some (deed (record limbo { destination = some pd }) (port_destroyed pd))

-- `ipc_port_destroy`; `circular` is the answer of `ipc_port_check_circularity`. The wakeup of the
-- thread pool and the end of a kernel object are left out.
unfoldable pub destroy : (ℕ → ℕ) → Bool → Dying → Option Dying
destroy sizes circular p =
    assert p.active && not p.in_set && (p.mscount == 0) && (p.seqno == 0)
    then destroy_backed sizes circular p p.pdrequest

-- `ipc_port_clear_receiver`; the receivers that it wakes, and the set that it leaves, are not part
-- of the port here.
unfoldable pub port_clear_receiver : Dying → Option Dying
port_clear_receiver p =
    assert p.active then some (record p { in_set = false; mscount = 0; seqno = 0 })

-- `ipc_port_clear_receiver(port); ipc_port_destroy(port);`, which ends a receive right
unfoldable pub destroy_receive : (ℕ → ℕ) → Bool → Dying → Option Dying
destroy_receive sizes circular p = elim (port_clear_receiver p) [
  | none ↦ none
  | some q ↦ destroy sizes circular q
]
