-- ===== src/Ipc/Right/Transfer.antt =====
-- `ipc_right_copyin` and `ipc_right_copyout` of ipc_right.c, one case of the disposition after the
-- other, with `ipc_right_copyin_check` and `ipc_right_info`.
use nextbsd_kernel.Prelude.{
  ℕ, ◌+◌, ◌-◌, ◌%◌, ◌^◌, Bool, true, false, not, ◌&&◌, ◌||◌, Option, none, some, [], ◌∷◌, ◌++◌,
  ◌==◌, if◌then◌else◌, ltb,
}
use nextbsd_kernel.Ipc.Right.{
  Bits, released, Scene, assert◌then◌, is_none, type_is_none, type_is_send, type_is_receive,
  type_is_send_receive, type_is_send_once, type_is_dead_name, has_send_rights, ip_release,
  ip_reference, entry_release, entry_hold, set_bits, right_check, dncancel,
}

-- The MACH_MSG_TYPE_* dispositions of a copyin.
pub data Disposition : Type 0 where
  make_send make_send_once move_receive copy_send move_send move_send_once : Disposition

-- What a copyin gives: the port, with the send-once right for a port-deleted notification; IO_DEAD;
-- or KERN_INVALID_RIGHT.
pub data Copied : Type 0 where
  copied : Option ℕ → Copied
  copied_dead : Copied
  refused : Copied

-- The case MACH_MSG_TYPE_MAKE_SEND.
unfoldable pub copyin_make_send : Scene → Option (Scene × Copied)
copyin_make_send s =
    if not s.bits.receive
    then some (s, refused)
    else assert s.attached && s.port.active && s.port.receiver_here
    then some (
      record s {
        port = record s.port {
          mscount = (s.port.mscount + 1) % 2 ^ 32;
          srights = s.port.srights + 1;
          refs = s.port.refs + 1;
        };
      },
      copied none,
    )

-- The case MACH_MSG_TYPE_MAKE_SEND_ONCE.
unfoldable pub copyin_make_send_once : Scene → Option (Scene × Copied)
copyin_make_send_once s =
    if not s.bits.receive
    then some (s, refused)
    else assert s.attached && s.port.active && s.port.receiver_here
    then some (
      record s { port = record s.port { sorights = s.port.sorights + 1; refs = s.port.refs + 1 } },
      copied none,
    )

-- `ipc_port_clear_receiver` as far as the fields of the model go, and what follows it.
unfoldable pub clear_receiver : Scene → Scene
clear_receiver s = record s {
  bits = record s.bits { receive = false };
  port = record s.port { mscount = 0; receiver_here = false; destination = none };
}

-- The case MACH_MSG_TYPE_MOVE_RECEIVE.
unfoldable pub copyin_move_receive : Scene → Option (Scene × Copied)
copyin_move_receive s =
    if not s.bits.receive
    then some (s, refused)
    else assert s.attached && s.port.active && s.port.receiver_here
    then if s.bits.send
    then assert type_is_send_receive s.bits && ltb 0 s.refs && ltb 0 s.port.srights
    then some (clear_receiver (ip_reference (record s { hashed = true })), copied none)
    else assert type_is_receive s.bits
    then let (t, dn) = dncancel s in
      some (clear_receiver (record t { attached = false }), copied dn)

-- The label `copy_dead`.
unfoldable pub copyin_copy_dead : Bool → Scene → Option (Scene × Copied)
copyin_copy_dead deadok s =
    assert type_is_dead_name s.bits && ltb 0 s.refs && is_none s.request && not s.attached
    then if deadok
    then some (s, copied_dead)
    else some (s, refused)

-- The label `move_dead`.
unfoldable pub copyin_move_dead : Bool → Scene → Option (Scene × Copied)
copyin_move_dead deadok s =
    assert type_is_dead_name s.bits && ltb 0 s.refs && is_none s.request && not s.attached
    then if not deadok
    then some (s, refused)
    else if ltb 1 s.refs
    then some (entry_release s, copied_dead)
    else some (set_bits (record s.bits { dead_name = false }) s, copied_dead)

-- The case MACH_MSG_TYPE_COPY_SEND, from the result of `ipc_right_check` on.
unfoldable pub copy_checked : Bool → Option (Scene × Bool) → Option (Scene × Copied)
copy_checked deadok none = none
copy_checked deadok (some (s, true)) = copyin_copy_dead deadok s
copy_checked deadok (some (s, false)) =
    if not s.bits.send
    then assert type_is_send_once s.bits && ltb 0 s.port.sorights
    then some (s, refused)
    else assert ltb 0 s.port.srights
    then some (
      record s { port = record s.port { srights = s.port.srights + 1; refs = s.port.refs + 1 } },
      copied none,
    )

unfoldable pub copyin_copy_send : Bool → Scene → Option (Scene × Copied)
copyin_copy_send deadok s =
    if s.bits.dead_name
    then copyin_copy_dead deadok s
    else if not (has_send_rights s.bits)
    then some (s, refused)
    else assert ltb 0 s.refs
    then copy_checked deadok (right_check s)

-- The case MACH_MSG_TYPE_MOVE_SEND for the last user reference.
unfoldable pub move_last_send : Scene → Option (Scene × Copied)
move_last_send s =
    if s.bits.receive
    then assert s.port.receiver_here && type_is_send_receive s.bits
    then some (set_bits (record s.bits { send = false }) (ip_reference s), copied none)
    else assert type_is_send s.bits && s.hashed
    then let (t, dn) = dncancel s in
      some (
        record t { bits = record t.bits { send = false }; hashed = false; attached = false },
        copied dn,
      )

-- The case MACH_MSG_TYPE_MOVE_SEND, from the result of `ipc_right_check` on.
unfoldable pub move_checked : Bool → Option (Scene × Bool) → Option (Scene × Copied)
move_checked deadok none = none
move_checked deadok (some (s, true)) = copyin_move_dead deadok s
move_checked deadok (some (s, false)) =
    if not s.bits.send
    then assert type_is_send_once s.bits && ltb 0 s.port.sorights
    then some (s, refused)
    else assert ltb 0 s.port.srights
    then if s.refs == 1
    then move_last_send s
    else assert ltb 1 s.refs
    then some (
      record (entry_release s) {
        port = record s.port { srights = s.port.srights + 1; refs = s.port.refs + 1 };
      },
      copied none,
    )

unfoldable pub copyin_move_send : Bool → Scene → Option (Scene × Copied)
copyin_move_send deadok s =
    if s.bits.dead_name
    then copyin_move_dead deadok s
    else if not (has_send_rights s.bits)
    then some (s, refused)
    else assert ltb 0 s.refs
    then move_checked deadok (right_check s)

-- The case MACH_MSG_TYPE_MOVE_SEND_ONCE, from the result of `ipc_right_check` on.
unfoldable pub move_once_checked : Bool → Option (Scene × Bool) → Option (Scene × Copied)
move_once_checked deadok none = none
move_once_checked deadok (some (s, true)) = copyin_move_dead deadok s
move_once_checked deadok (some (s, false)) =
    if not s.bits.send_once
    then assert s.bits.send && ltb 0 s.port.srights
    then some (s, refused)
    else assert type_is_send_once s.bits && (s.refs == 1) && ltb 0 s.port.sorights
    then let (t, dn) = dncancel s in
      some (record t { bits = record t.bits { send_once = false }; attached = false }, copied dn)

unfoldable pub copyin_move_send_once : Bool → Scene → Option (Scene × Copied)
copyin_move_send_once deadok s =
    if s.bits.dead_name
    then copyin_move_dead deadok s
    else if not (has_send_rights s.bits)
    then some (s, refused)
    else assert ltb 0 s.refs
    then move_once_checked deadok (right_check s)

-- `ipc_right_copyin`
unfoldable pub copyin : Disposition → Bool → Scene → Option (Scene × Copied)
copyin make_send deadok s = copyin_make_send s
copyin make_send_once deadok s = copyin_make_send_once s
copyin move_receive deadok s = copyin_move_receive s
copyin copy_send deadok s = copyin_copy_send deadok s
copyin move_send deadok s = copyin_move_send deadok s
copyin move_send_once deadok s = copyin_move_send_once deadok s

-- `ipc_right_copyin_check`, where an object of the entry is this port; `receiver_here` stands for
-- the test of `ip_receiver` alone.
unfoldable pub copyin_check : Disposition → Scene → Bool
copyin_check make_send s = s.bits.receive && s.attached && s.port.receiver_here
copyin_check make_send_once s = s.bits.receive && s.attached && s.port.receiver_here
copyin_check move_receive s = s.bits.receive && s.attached && s.port.receiver_here
copyin_check copy_send s =
    s.bits.dead_name
    || (s.attached
        && s.port.receiver_here
        && has_send_rights s.bits
        && (not s.port.active || s.bits.send))
copyin_check move_send s =
    s.bits.dead_name
    || (s.attached
        && s.port.receiver_here
        && has_send_rights s.bits
        && (not s.port.active || s.bits.send))
copyin_check move_send_once s =
    s.bits.dead_name
    || (s.attached && has_send_rights s.bits && (not s.port.active || s.bits.send_once))

-- The dispositions of a copyout.
pub data Outgoing : Type 0 where
  port_send port_send_once port_receive : Outgoing

-- The case MACH_MSG_TYPE_PORT_SEND_ONCE.
unfoldable pub copyout_send_once : Scene → Option Scene
copyout_send_once s =
    assert type_is_none s.bits && ltb 0 s.port.sorights
    then some (record s { bits = record s.bits { send_once = true } })

-- The case MACH_MSG_TYPE_PORT_SEND.
unfoldable pub copyout_send : Scene → Option Scene
copyout_send s =
    let held = record (entry_hold s) { bits = record s.bits { send = true } } in
    assert ltb 0 s.port.srights
    then if s.bits.send
    then assert ltb 1 s.port.srights && ltb 0 s.refs
    then some (record held {
      port = record s.port { srights = s.port.srights - 1; refs = s.port.refs - 1 };
    })
    else if s.bits.receive
    then assert type_is_receive s.bits
    then some (ip_release held)
    else assert type_is_none s.bits
    then some (record held { hashed = true })

-- `if (dest != IP_NULL) ipc_port_release(dest)`
unfoldable pub release_dest : Option ℕ → Scene → Scene
release_dest none s = s
release_dest (some d) s = record s { notices = s.notices ++ released d ∷ [] }

-- The case MACH_MSG_TYPE_PORT_RECEIVE.
unfoldable pub copyout_receive : Scene → Option Scene
copyout_receive s =
    let dest = s.port.destination in
    let here = record s {
      bits = record s.bits { receive = true };
      port = record s.port { receiver_here = true };
    } in
    assert (s.port.mscount == 0) && not s.port.receiver_here && not s.bits.receive
    then if s.bits.send
    then assert type_is_send s.bits && ltb 0 s.refs && ltb 0 s.port.srights && s.hashed
    then some (release_dest dest (record (ip_release here) { hashed = false }))
    else assert type_is_none s.bits
    then some (release_dest dest here)

-- `ipc_right_copyout`, whose object is the active port of the entry.
unfoldable pub copyout : Outgoing → Scene → Option Scene
copyout o s = assert s.port.active && s.attached then elim o [
  | port_send ↦ copyout_send s
  | port_send_once ↦ copyout_send_once s
  | port_receive ↦ copyout_receive s
]

-- `ipc_right_info`: the type bits, whether a dead-name request stands, and the user references.
pub record Info : Type 0 where
  pub bits : Bits
  pub dnrequest : Bool
  pub urefs : ℕ

unfoldable pub info_of : Scene → Scene × Info
info_of s = (s, record { bits = s.bits; dnrequest = not (is_none s.request); urefs = s.refs })

unfoldable pub info_checked : Option (Scene × Bool) → Option (Scene × Info)
info_checked none = none
info_checked (some (s, dead)) = some (info_of s)

unfoldable pub info : Scene → Option (Scene × Info)
info s = if has_send_rights s.bits then info_checked (right_check s) else some (info_of s)
