-- ===== src/Ipc/Right/Copyin/Conserves.antt =====
-- `ipc_right_copyin` over all dispositions.
use nextbsd_kernel.Prelude.{ℕ, Bool}
use nextbsd_kernel.Ipc.Right.{Scene}
use nextbsd_kernel.Ipc.Right.Transfer.{
  Disposition, make_send, make_send_once, move_receive, copy_send, move_send, move_send_once,
  copyin,
}
use nextbsd_kernel.Ipc.Right.Valid.{HasKind, Counts}
use nextbsd_kernel.Ipc.Right.Copyin.{Outcome}
use nextbsd_kernel.Ipc.Right.Copyin.Make.{
  make_send-Outcome, make_send_once-Outcome, move_receive-Outcome,
}
use nextbsd_kernel.Ipc.Right.Copyin.Send.{
  copy_send-Outcome, move_send-Outcome, move_send_once-Outcome,
}

-- `ipc_right_copyin` on an entry of any kind and for any disposition fails no assertion, leaves an
-- entry of some kind, and keeps the counts of the port: where it copies a right, one more send
-- right or send-once right, as the disposition says, and one more reference are held elsewhere;
-- where it gives IO_DEAD or KERN_INVALID_RIGHT, none is.
pub copyin-Outcome :
    (d : Disposition) (deadok : Bool) (s : Scene) (n m r : ℕ)
    → HasKind s
    → Counts s n m r
    → Outcome d n m r (copyin d deadok s)
unfolding copyin
copyin-Outcome make_send deadok s n m r k c =
    make_send-Outcome n m r s.bits s.refs s.request s.attached s.hashed s.present s.port s.notices k
      c
copyin-Outcome make_send_once deadok s n m r k c =
    make_send_once-Outcome n m r s.bits s.refs s.request s.attached s.hashed s.present s.port
      s.notices k c
copyin-Outcome move_receive deadok s n m r k c =
    move_receive-Outcome n m r s.bits s.refs s.request s.attached s.hashed s.present s.port
      s.notices k c
copyin-Outcome copy_send deadok s n m r k c =
    copy_send-Outcome n m r deadok s.bits s.refs s.request s.attached s.hashed s.present s.port
      s.notices k c
copyin-Outcome move_send deadok s n m r k c =
    move_send-Outcome n m r deadok s.bits s.refs s.request s.attached s.hashed s.present s.port
      s.notices k c
copyin-Outcome move_send_once deadok s n m r k c =
    move_send_once-Outcome n m r deadok s.bits s.refs s.request s.attached s.hashed s.present s.port
      s.notices k c
