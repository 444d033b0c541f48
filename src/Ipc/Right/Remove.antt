-- ===== src/Ipc/Right/Remove.antt =====
-- The operations of ipc_right.c that take a right away for good: `ipc_right_destroy`,
-- `ipc_right_clean` and `ipc_right_delta`. An entry of a port set is left out: its object is no
-- port.
pub mod Leave
pub mod Destroy
pub mod Delta
pub mod Receive
use nextbsd_kernel.Prelude.{
  ℕ, suc, ◌+◌, ◌-◌, Bool, true, false, not, ◌&&◌, ◌||◌, Option, none, some, [], ◌∷◌, ◌++◌, ◌==◌,
  if◌then◌else◌, ltb,
}
use nextbsd_kernel.Prelude.Int.{ℤ, pos, negsuc}
use nextbsd_kernel.Ipc.Right.{
  Bits, send_once_used, destroyed, sent_to_backup, Scene, assert◌then◌, is_none, no_type,
  type_is_send, type_is_receive, type_is_send_receive, type_is_send_once, type_is_dead_name,
  has_send_rights, ip_release, right_check, dncancel, notify_deleted, notify_no_senders,
  entry_dealloc, drop_send, Kern, success, invalid_right, invalid_value,
}

-- `ipc_port_clear_receiver` and `ipc_port_destroy`, as far as the fields of the model go. `backup`
-- is the port-destroyed request that takes the port, if there is one that it makes no circle with:
-- the reference of the entry then goes with the message. Otherwise the port dies.
unfoldable pub destroy_port : Option ℕ → Scene → Scene
destroy_port none s = record s {
  port = record s.port { active = false; mscount = 0; refs = s.port.refs - 1 };
  notices = s.notices ++ destroyed ∷ [];
}
destroy_port (some pd) s = record s {
  port = record s.port { mscount = 0; receiver_here = false; destination = some pd };
  notices = s.notices ++ sent_to_backup pd ∷ [];
}

-- `ipc_notify_send_once(port)`, which uses up the send-once right and its reference.
unfoldable pub use_send_once : Scene → Scene
use_send_once s = record s {
  port = record s.port { sorights = s.port.sorights - 1; refs = s.port.refs - 1 };
  notices = s.notices ++ send_once_used ∷ [];
}

-- `if (type & MACH_PORT_TYPE_SEND)`: the send right is dropped.
unfoldable pub drop_if_send : Scene → Option (Scene × Option ℕ)
drop_if_send s =
    if s.bits.send then (assert ltb 0 s.port.srights then some (drop_send s)) else some (s, none)

-- What becomes of the port, by the type of the entry.
unfoldable pub leave_port : Option ℕ → Scene → Option Scene
leave_port backup s =
    if s.bits.receive
    then (assert s.port.active && s.port.receiver_here then some (destroy_port backup s))
    else if s.bits.send_once
    then (assert ltb 0 s.port.sorights then some (use_send_once s))
    else (assert not s.port.receiver_here then some (ip_release s))

unfoldable pub tell : Option ℕ → Option ℕ → ℕ → Option Scene → Option Scene
tell ns dn mscount none = none
tell ns dn mscount (some s) = some (notify_deleted dn (notify_no_senders ns mscount s))

-- The rest of `ipc_right_destroy` and `ipc_right_clean` for an active port; `dn` is the dead-name
-- request.
unfoldable pub release_right : Option ℕ → Option ℕ → ℕ → Option (Scene × Option ℕ) → Option Scene
release_right backup dn mscount none = none
release_right backup dn mscount (some (s, ns)) = tell ns dn mscount (leave_port backup s)

unfoldable pub release_dealloced : Option ℕ → Option ℕ → Option Scene → Option Scene
release_dealloced backup dn none = none
release_dealloced backup dn (some s) = release_right backup dn s.port.mscount (drop_if_send s)

-- `ipc_right_destroy` for a port right, from the lock of the port on.
unfoldable pub destroy_right : Option ℕ → Scene → Option Scene
destroy_right backup s =
    if not s.port.active
    then (assert not s.bits.receive
        then entry_dealloc (record (ip_release s) { request = none; attached = false }))
    else let (t, dn) = dncancel s in
      release_dealloced backup dn (entry_dealloc (record t { attached = false }))

unfoldable pub is_port_right : Bits → Bool
is_port_right b =
    type_is_send b || type_is_receive b || type_is_send_receive b || type_is_send_once b

-- `ipc_right_destroy`
unfoldable pub destroy : Option ℕ → Scene → Option Scene
destroy backup s =
    if type_is_dead_name s.bits
    then (assert is_none s.request && not s.attached then entry_dealloc s)
    else assert is_port_right s.bits && s.attached && (not (type_is_send s.bits) || s.hashed)
    then destroy_right backup (if type_is_send s.bits then record s { hashed = false } else s)

-- `ipc_right_clean`, in a dead space: the entry stays.
unfoldable pub clean : Option ℕ → Scene → Option Scene
clean backup s =
    if type_is_dead_name s.bits
    then (assert is_none s.request && not s.attached then some s)
    else assert is_port_right s.bits && s.attached
    then if not s.port.active
    then some (ip_release s)
    else let (t, dn) = dncancel s in release_right backup dn t.port.mscount (drop_if_send t)

-- The MACH_PORT_RIGHT_* of a delta, without MACH_PORT_RIGHT_PORT_SET.
pub data Right : Type 0 where
  receive_right send_right send_once_right dead_name_right : Right

-- `MACH_PORT_UREFS_UNDERFLOW`
unfoldable pub underflow : ℕ → ℤ → Bool
underflow urefs (pos k) = false
underflow urefs (negsuc k) = ltb urefs (suc k)

-- `urefs + delta`, which does not underflow
unfoldable pub add_delta : ℕ → ℤ → ℕ
add_delta urefs (pos k) = urefs + k
add_delta urefs (negsuc k) = urefs - suc k

unfoldable pub is_zero : ℤ → Bool
is_zero (pos k) = k == 0
is_zero (negsuc k) = false

unfoldable pub is_minus_one : ℤ → Bool
is_minus_one (pos k) = false
is_minus_one (negsuc k) = k == 0

unfoldable pub with_success : Option Scene → Option (Scene × Kern)
with_success none = none
with_success (some s) = some (s, success)

-- The receive right goes and the send right of the entry turns into a dead name.
unfoldable pub turn_dead : Scene → Scene
turn_dead s = record s {
  bits = record no_type { dead_name = true };
  request = none;
  refs = if is_none s.request then s.refs else s.refs + 1;
  attached = false;
}

unfoldable pub destroy_told : Option ℕ → Option ℕ → Option Scene → Option Scene
destroy_told backup dn none = none
destroy_told backup dn (some s) = some (notify_deleted dn (destroy_port backup s))

-- The case MACH_PORT_RIGHT_RECEIVE for a delta of -1.
unfoldable pub drop_receive : Option ℕ → Scene → Option Scene
drop_receive backup s =
    assert s.attached && s.port.active && s.port.receiver_here
    then if s.bits.send
    then (assert type_is_send_receive s.bits && ltb 0 s.refs && ltb 0 s.port.srights
        then some (destroy_port backup (turn_dead s)))
    else assert type_is_receive s.bits
    then let (t, dn) = dncancel s in
      destroy_told backup dn (entry_dealloc (record t { attached = false }))

unfoldable pub delta_receive : Option ℕ → ℤ → Scene → Option (Scene × Kern)
delta_receive backup delta s =
    if not s.bits.receive
    then some (s, invalid_right)
    else if is_zero delta
    then some (s, success)
    else if not (is_minus_one delta)
    then some (s, invalid_value)
    else with_success (drop_receive backup s)

-- The entry of a send-once right goes.
unfoldable pub drop_send_once : Scene → Option Scene
drop_send_once s =
    let (t, dn) = dncancel s in
    elim (entry_dealloc (record t { attached = false })) [
      | none ↦ none
      | some u ↦ some (notify_deleted dn (use_send_once u))
    ]

-- The case MACH_PORT_RIGHT_SEND_ONCE, from the result of `ipc_right_check` on.
unfoldable pub delta_once_checked : ℤ → Option (Scene × Bool) → Option (Scene × Kern)
delta_once_checked delta none = none
delta_once_checked delta (some (s, true)) = assert not s.bits.send_once then some (s, invalid_right)
delta_once_checked delta (some (s, false)) =
    assert ltb 0 s.port.sorights
    then if is_zero delta
    then some (s, success)
    else if is_minus_one delta
    then with_success (drop_send_once s)
    else some (s, invalid_value)

unfoldable pub delta_send_once : ℤ → Scene → Option (Scene × Kern)
delta_send_once delta s =
    if not s.bits.send_once
    then some (s, invalid_right)
    else assert type_is_send_once s.bits && (s.refs == 1)
    then delta_once_checked delta (right_check s)

-- The case MACH_PORT_RIGHT_DEAD_NAME, for an entry that is a dead name.
unfoldable pub delta_dead : ℤ → Scene → Option (Scene × Kern)
delta_dead delta s =
    assert type_is_dead_name s.bits && ltb 0 s.refs && not s.attached && is_none s.request
    then if underflow s.refs delta
    then some (s, invalid_value)
    else if add_delta s.refs delta == 0
    then with_success (entry_dealloc s)
    else some (record s { refs = add_delta s.refs delta }, success)

unfoldable pub delta_dead_checked : ℤ → Option (Scene × Bool) → Option (Scene × Kern)
delta_dead_checked delta none = none
delta_dead_checked delta (some (s, true)) = delta_dead delta s
delta_dead_checked delta (some (s, false)) = some (s, invalid_right)

unfoldable pub delta_dead_name : ℤ → Scene → Option (Scene × Kern)
delta_dead_name delta s =
    if has_send_rights s.bits
    then delta_dead_checked delta (right_check s)
    else if not s.bits.dead_name
    then some (s, invalid_right)
    else delta_dead delta s

-- The last user reference of a send right goes; `ns` is the no-senders request that is due.
unfoldable pub drop_last : ℕ → Scene × Option ℕ → Option Scene
drop_last mscount (s, ns) =
    if s.bits.receive
    then (assert s.port.receiver_here && type_is_send_receive s.bits
        then some
            (notify_no_senders ns mscount (record s { bits = record s.bits { send = false } })))
    else assert type_is_send s.bits && s.hashed
    then let (t, dn) = dncancel s in
      tell ns dn mscount
        (entry_dealloc (record (ip_release t) { hashed = false; attached = false }))

-- The case MACH_PORT_RIGHT_SEND, from the result of `ipc_right_check` on.
unfoldable pub delta_send_checked : ℤ → Option (Scene × Bool) → Option (Scene × Kern)
delta_send_checked delta none = none
delta_send_checked delta (some (s, true)) = assert not s.bits.send then some (s, invalid_right)
delta_send_checked delta (some (s, false)) =
    assert ltb 0 s.port.srights
    then if underflow s.refs delta
    then some (s, invalid_value)
    else if add_delta s.refs delta == 0
    then with_success (drop_last s.port.mscount (drop_send s))
    else some (record s { refs = add_delta s.refs delta }, success)

unfoldable pub delta_send : ℤ → Scene → Option (Scene × Kern)
delta_send delta s =
    if not s.bits.send then some (s, invalid_right) else delta_send_checked delta (right_check s)

-- `ipc_right_delta`
unfoldable pub delta : Right → Option ℕ → ℤ → Scene → Option (Scene × Kern)
delta receive_right backup d s = delta_receive backup d s
delta send_right backup d s = delta_send d s
delta send_once_right backup d s = delta_send_once d s
delta dead_name_right backup d s = delta_dead_name d s
