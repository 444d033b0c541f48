-- ===== src/Ipc/Right.antt =====
-- The operations of ipc_right.c on one entry of a space and the port it names: the check for a dead
-- port, the release of a user reference, and the transfer of rights into and out of messages. An
-- assertion that fails is none. Locks are left out: the callers hold the space's write lock.
pub mod Transfer
pub mod Valid
pub mod Dealloc
pub mod Release
pub mod Copyin
pub mod Copyout
pub mod Fresh
pub mod Remove
pub mod Undo
pub mod Two
use nextbsd_kernel.Prelude.{
  ℕ, zero, suc, ◌+◌, ◌-◌, ◌%◌, ◌^◌, Bool, true, false, not, ◌&&◌, ◌||◌, Option, none, some, List,
  [], ◌∷◌, ◌++◌, ◌==◌, if◌then◌else◌, ltb, leb,
}

-- The MACH_PORT_TYPE_* bits of `ie_bits`. The field IE_BITS_UREFS is not used by this kernel: user
-- references are the references of the entry's file.
pub record Bits : Type 0 where
  pub send : Bool
  pub receive : Bool
  pub send_once : Bool
  pub port_set : Bool
  pub dead_name : Bool

-- The fields of `struct ipc_port` that rights use; `receiver_here` says that `ip_receiver` is the
-- space and `ip_receiver_name` the name of the entry.
pub record Port : Type 0 where
  pub active : Bool
  pub refs : ℕ
  pub srights : ℕ
  pub sorights : ℕ
  pub mscount : ℕ
  pub nsrequest : Option ℕ
  pub receiver_here : Bool
  pub destination : Option ℕ

-- The notifications that are sent, the references to other ports that are dropped, and what becomes
-- of a port whose receive right is destroyed: `ipc_port_destroy` destroys it or sends it to its
-- backup.
pub data Notice : Type 0 where
  no_senders : ℕ → ℕ → Notice
  port_deleted : ℕ → Notice
  send_once_used : Notice
  released : ℕ → Notice
  destroyed : Notice
  sent_to_backup : ℕ → Notice

-- An entry with its port. `refs` is `f_count` of its file; `request` the send-once right of the
-- dead-name request at `ie_request`; `attached` says that `ie_object` is the port, and not
-- IO_NULL; `hashed` that the entry stands in the reverse hash table; `present` that its name
-- has not been closed.
pub record Scene : Type 0 where
  pub bits : Bits
  pub refs : ℕ
  pub request : Option ℕ
  pub attached : Bool
  pub hashed : Bool
  pub present : Bool
  pub port : Port
  pub notices : List Notice

-- `assert(b)`
infix 1 assert◌then◌
abbrev pub assert◌then◌ {ℓ} : {A : Type ℓ} → Bool → Option A → Option A
assert true then r = r
assert false then r = none

abbrev pub is_none : Option ℕ → Bool
is_none none = true
is_none (some _) = false

-- `IE_BITS_TYPE(bits) == MACH_PORT_TYPE_...`
abbrev pub no_type : Bits
no_type = record {
  send = false;
  receive = false;
  send_once = false;
  port_set = false;
  dead_name = false;
}

unfoldable pub type_is_none : Bits → Bool
type_is_none b = not b.send && not b.receive && not b.send_once && not b.port_set && not b.dead_name

unfoldable pub type_is_send : Bits → Bool
type_is_send b = b.send && not b.receive && not b.send_once && not b.port_set && not b.dead_name

unfoldable pub type_is_receive : Bits → Bool
type_is_receive b = b.receive && not b.send && not b.send_once && not b.port_set && not b.dead_name

unfoldable pub type_is_send_receive : Bits → Bool
type_is_send_receive b = b.send && b.receive && not b.send_once && not b.port_set && not b.dead_name

unfoldable pub type_is_send_once : Bits → Bool
type_is_send_once b =
    b.send_once && not b.send && not b.receive && not b.port_set && not b.dead_name

unfoldable pub type_is_dead_name : Bits → Bool
type_is_dead_name b =
    b.dead_name && not b.send && not b.receive && not b.send_once && not b.port_set

-- `bits & MACH_PORT_TYPE_SEND_RIGHTS`
unfoldable pub has_send_rights : Bits → Bool
has_send_rights b = b.send || b.send_once

-- `ip_release(port)`, `ip_reference(port)`
abbrev pub ip_release : Scene → Scene
ip_release s = record s { port = record s.port { refs = s.port.refs - 1 } }

abbrev pub ip_reference : Scene → Scene
ip_reference s = record s { port = record s.port { refs = s.port.refs + 1 } }

-- `ipc_entry_release(entry)`, `ipc_entry_hold(entry)`
abbrev pub entry_release : Scene → Scene
entry_release s = record s { refs = s.refs - 1 }

abbrev pub entry_hold : Scene → Scene
entry_hold s = record s { refs = s.refs + 1 }

abbrev pub set_bits : Bits → Scene → Scene
set_bits b s = record s { bits = b }

-- `entry->ie_request = 0; ipc_entry_hold(entry);` if there is a request
unfoldable pub drop_request : Scene → Option ℕ → Scene
drop_request s none = s
drop_request s (some so) = record s { request = none; refs = s.refs + 1 }

-- `ipc_right_check` for a port that has died: the entry becomes a dead name.
unfoldable pub bury : Scene → Scene
bury s =
    let b = record no_type { dead_name = true } in
    let t = drop_request (ip_release s) s.request in
    record t { bits = b; attached = false; hashed = if s.bits.send then false else s.hashed }

-- `ipc_right_check`: whether the port has died, and the scene after it.
unfoldable pub right_check : Scene → Option (Scene × Bool)
right_check s =
    assert s.attached
    then if s.port.active
    then some (s, false) else assert not s.bits.receive && ltb 0 s.refs
    then assert (if s.bits.send
        then type_is_send s.bits && s.hashed else type_is_send_once s.bits && (s.refs == 1))
    then some (bury s, true)

-- `ipc_right_dncancel_macro`: the scene after it, and the send-once right of the request.
unfoldable pub dncancel : Scene → Scene × Option ℕ
dncancel s = (record s { request = none }, s.request)

-- `ipc_notify_port_deleted` for a right that is there, and `ipc_notify_no_senders`
unfoldable pub notify_deleted : Option ℕ → Scene → Scene
notify_deleted none s = s
notify_deleted (some so) s = record s { notices = s.notices ++ port_deleted so ∷ [] }

unfoldable pub notify_no_senders : Option ℕ → ℕ → Scene → Scene
notify_no_senders none mscount s = s
notify_no_senders (some ns) mscount s = record s {
  notices = s.notices ++ no_senders ns mscount ∷ [];
}

-- `ipc_entry_dealloc`; for an entry that is hashed its assertion fails. The name is closed; an
-- entry with further references of its file stays on the space's list of entries, which is not
-- modelled.
unfoldable pub entry_dealloc : Scene → Option Scene
entry_dealloc s =
    assert not s.attached && is_none s.request && not s.hashed
    then some (record s { present = false; refs = s.refs - 1 })

-- `--port->ip_srights`, and the no-senders request that is taken when none is left
unfoldable pub drop_send : Scene → Scene × Option ℕ
drop_send s =
    let p = record s.port { srights = s.port.srights - 1 } in
    if s.port.srights - 1 == 0
    then (record s { port = record p { nsrequest = none } }, s.port.nsrequest) else
        (record s { port = p }, none)

-- What the operations return.
pub data Kern : Type 0 where
  success invalid_right invalid_value : Kern

-- The label `dead_name` of `ipc_right_dealloc`.
unfoldable pub dealloc_dead : Scene → Option (Scene × Kern)
dealloc_dead s =
    assert ltb 0 s.refs && is_none s.request && not s.attached
    then if ltb 1 s.refs
    then some (entry_release s, success) else
        elim (entry_dealloc s) [ none ↦ none | some t ↦ some (t, success) ]

-- The case MACH_PORT_TYPE_SEND_ONCE, from the result of `ipc_right_check` on.
-- `ipc_notify_send_once` uses up the send-once right and the reference of the entry.
unfoldable pub dealloc_send_once : Option (Scene × Bool) → Option (Scene × Kern)
dealloc_send_once none = none
dealloc_send_once (some (s, true)) = dealloc_dead s
dealloc_send_once (some (s, false)) =
    assert ltb 0 s.port.sorights
    then let (t, dn) = dncancel s in
      elim (entry_dealloc (record t { attached = false })) [
        | none ↦ none
        | some u ↦
            let used = record u {
              port = record u.port { sorights = u.port.sorights - 1; refs = u.port.refs - 1 };
              notices = u.notices ++ send_once_used ∷ [];
            } in
            some (notify_deleted dn used, success)
      ]

-- The case MACH_PORT_TYPE_SEND, for the last user reference.
unfoldable pub dealloc_last_send : Scene → Option (Scene × Kern)
dealloc_last_send s =
    let mscount = s.port.mscount in
    let (t, ns) = drop_send s in
    let (u, dn) = dncancel t in
    assert u.hashed
    then elim (entry_dealloc (record (ip_release u) { hashed = false; attached = false })) [
      | none ↦ none
      | some v ↦ some (notify_deleted dn (notify_no_senders ns mscount v), success)
    ]

-- The case MACH_PORT_TYPE_SEND, from the result of `ipc_right_check` on.
unfoldable pub dealloc_send : Option (Scene × Bool) → Option (Scene × Kern)
dealloc_send none = none
dealloc_send (some (s, true)) = dealloc_dead s
dealloc_send (some (s, false)) =
    assert ltb 0 s.port.srights
    then if ltb 1 s.refs
    then some (entry_release s, success) else dealloc_last_send s

-- The case MACH_PORT_TYPE_SEND_RECEIVE.
unfoldable pub dealloc_send_receive : Scene → Option (Scene × Kern)
dealloc_send_receive s =
    assert ltb 0 s.refs
      && s.attached
      && s.port.active
      && s.port.receiver_here
      && ltb 0 s.port.srights
    then if ltb 1 s.refs
    then some (entry_release s, success) else
        let mscount = s.port.mscount in
          let (t, ns) = drop_send s in
          some (
            notify_no_senders ns mscount (record t { bits = record t.bits { send = false } }),
            success,
          )

-- `ipc_right_dealloc`
unfoldable pub dealloc : Scene → Option (Scene × Kern)
dealloc s =
    if type_is_dead_name s.bits
    then dealloc_dead s else if type_is_send_once s.bits
    then assert s.refs == 1
    then dealloc_send_once (right_check s) else if type_is_send s.bits
    then assert ltb 0 s.refs
    then dealloc_send (right_check s) else if type_is_send_receive s.bits
    then dealloc_send_receive s else some (s, invalid_right)
