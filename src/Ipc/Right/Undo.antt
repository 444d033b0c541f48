-- ===== src/Ipc/Right/Undo.antt =====
-- `ipc_right_copyin_undo` of ipc_right.c, for the rights of a message whose port died while it was
-- copied in.
pub mod Restore
use nextbsd_kernel.Prelude.{
  ℕ, zero, suc, ◌+◌, ◌-◌, ◌<◌, ◌≡◌, ◌≢◌, ◌⊎◌, refl, sym, ap, subst, ◌∙◌, inl, inr, Bool, true,
  false, not, ◌&&◌, ◌||◌, Option, none, some, List, [], ◌==◌, if◌then◌else◌, ltb, lt→ltb, arith,
  Bool-cases,
}
use nextbsd_kernel.Ipc.Right.{
  Port, Notice, Scene, assert◌then◌, is_none, no_type, type_is_none, type_is_send,
  type_is_send_once, type_is_dead_name, has_send_rights, ip_release, entry_hold, right_check, bury,
  drop_request, dncancel,
}
use nextbsd_kernel.Ipc.Right.Transfer.{
  Disposition, copy_send, move_send, move_send_once, make_send, make_send_once, move_receive,
  Copied, copied, copyin, copyin_copy_send, copy_checked, copyin_move_send, move_checked,
  move_last_send,
}
use nextbsd_kernel.Ipc.Right.Valid.{bit, naming, send_bits, right_check-alive}

unfoldable pub is_move : Disposition → Bool
is_move move_send = true
is_move move_send_once = true
is_move d = false

unfoldable pub is_copy : Disposition → Bool
is_copy copy_send = true
is_copy d = false

unfoldable pub is_send_move : Disposition → Bool
is_send_move move_send = true
is_send_move d = false

-- The entry is empty: it becomes a dead name. What the code puts into the field IE_BITS_UREFS of
-- `ie_bits` has no effect.
unfoldable pub undo_gone : Disposition → Scene → Option Scene
undo_gone d s =
    assert is_move d && not s.attached
    then some (record s { bits = record no_type { dead_name = true } })

unfoldable pub undo_reference : Disposition → Scene → Scene
undo_reference d s = if is_copy d then s else entry_hold s

-- The entry is a dead name already.
unfoldable pub undo_dead : Disposition → Bool → Scene → Option Scene
undo_dead d dead s = assert not s.attached && dead && ltb 0 s.refs then some (undo_reference d s)

unfoldable pub after_check : Option (Scene × Bool) → Option Scene
after_check none = none
after_check (some (s, b)) = some s

-- The entry still has a send right.
unfoldable pub undo_send : Disposition → Bool → Scene → Option Scene
undo_send d dead s =
    assert (is_send_move d || is_copy d)
      && type_is_send s.bits
      && not dead
      && s.attached
      && ltb 0 s.refs
    then after_check (right_check (undo_reference d s))

unfoldable pub undo_entry : Disposition → Bool → Option ℕ → Scene → Option Scene
undo_entry d dead (some so) s = assert type_is_none s.bits && not dead then undo_gone d s
undo_entry d dead none s =
    if type_is_none s.bits
    then undo_gone d s
    else if type_is_dead_name s.bits
    then undo_dead d dead s
    else undo_send d dead s

unfoldable pub release_object : Bool → Option Scene → Option Scene
release_object dead none = none
release_object dead (some s) = some (if dead then s else ip_release s)

-- `ipc_right_copyin_undo`; `dead` says that the object is IO_DEAD, and `soright` is the dead-name
-- request that the copyin cancelled.
unfoldable pub copyin_undo : Disposition → Bool → Option ℕ → Scene → Option Scene
copyin_undo d dead soright s =
    assert is_move d || is_copy d then release_object dead (undo_entry d dead soright s)
