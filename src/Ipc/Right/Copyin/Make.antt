-- ===== src/Ipc/Right/Copyin/Make.antt =====
-- The dispositions that need the receive right: MAKE_SEND, MAKE_SEND_ONCE and MOVE_RECEIVE.
use nextbsd_kernel.Prelude.{
  ℕ, ◌+◌, ◌%◌, ◌^◌, ◌≡◌, refl, Bool, true, false, Option, none, List, ltb, lt→ltb, arith,
}
use nextbsd_kernel.Ipc.Right.{Bits, Port, Notice, type_is_receive, type_is_send_receive, dncancel}
use nextbsd_kernel.Ipc.Right.Transfer.{
  make_send, make_send_once, move_receive, copied, refused, copyin_make_send, copyin_make_send_once,
  copyin_move_receive, clear_receiver,
}
use nextbsd_kernel.Ipc.Right.Valid.{
  bits_of, Kind, empty, send, receive, send_receive, send_once, dead_name, Counts,
}
use nextbsd_kernel.Ipc.Right.Copyin.{Outcome, entry}

module _ (n m r : ℕ) where
  pub make_send-Outcome :
      (b : Bits) (refs : ℕ) (dn : Option ℕ) (there hashed present : Bool) (p : Port)
      (notices : List Notice)
      → Kind b refs dn there hashed p
      → Counts (entry b refs dn there hashed present p notices) n m r
      → Outcome make_send n m r (copyin_make_send (entry b refs dn there hashed present p notices))
  unfolding copyin_make_send
  make_send-Outcome b refs dn there hashed present p notices (empty pos) c =
      (_, refused, refl, empty pos, c)
  make_send-Outcome b refs dn there hashed present p notices (send pos) c =
      (_, refused, refl, send pos, c)
  make_send-Outcome b refs dn there hashed present p notices (send_once one) c =
      (_, refused, refl, send_once one, c)
  make_send-Outcome b refs dn there hashed present p notices (dead_name pos) c =
      (_, refused, refl, dead_name pos, c)
  make_send-Outcome b refs dn there hashed present p notices (receive pos act here) (c, s, o) = (
    entry b refs dn there hashed present
        (record p {
          mscount = (p.mscount + 1) % 2 ^ 32;
          srights = p.srights + 1;
          refs = p.refs + 1;
        })
        notices,
    copied none,
    rw (act, here) refl,
    receive pos act here,
    (omega (arith, c), λ a. omega (arith, s a), λ a. omega (arith, o a)),
  )
  make_send-Outcome b refs dn there hashed present p notices (send_receive pos act here) (c, s, o) =
      (
        entry b refs dn there hashed present
            (record p {
              mscount = (p.mscount + 1) % 2 ^ 32;
              srights = p.srights + 1;
              refs = p.refs + 1;
            })
            notices,
        copied none,
        rw (act, here) refl,
        send_receive pos act here,
        (omega (arith, c), λ a. omega (arith, s a), λ a. omega (arith, o a)),
      )

  pub make_send_once-Outcome :
      (b : Bits) (refs : ℕ) (dn : Option ℕ) (there hashed present : Bool) (p : Port)
      (notices : List Notice)
      → Kind b refs dn there hashed p
      → Counts (entry b refs dn there hashed present p notices) n m r
      → Outcome make_send_once n m r
          (copyin_make_send_once (entry b refs dn there hashed present p notices))
  unfolding copyin_make_send_once
  make_send_once-Outcome b refs dn there hashed present p notices (empty pos) c =
      (_, refused, refl, empty pos, c)
  make_send_once-Outcome b refs dn there hashed present p notices (send pos) c =
      (_, refused, refl, send pos, c)
  make_send_once-Outcome b refs dn there hashed present p notices (send_once one) c =
      (_, refused, refl, send_once one, c)
  make_send_once-Outcome b refs dn there hashed present p notices (dead_name pos) c =
      (_, refused, refl, dead_name pos, c)
  make_send_once-Outcome b refs dn there hashed present p notices (receive pos act here) (c, s, o) =
      (
        entry b refs dn there hashed present
            (record p { sorights = p.sorights + 1; refs = p.refs + 1 }) notices,
        copied none,
        rw (act, here) refl,
        receive pos act here,
        (omega (arith, c), λ a. omega (arith, s a), λ a. omega (arith, o a)),
      )
  make_send_once-Outcome b refs dn there hashed present p notices (send_receive pos act here)
        (c, s, o) =
      (
        entry b refs dn there hashed present
            (record p { sorights = p.sorights + 1; refs = p.refs + 1 }) notices,
        copied none,
        rw (act, here) refl,
        send_receive pos act here,
        (omega (arith, c), λ a. omega (arith, s a), λ a. omega (arith, o a)),
      )

  pub move_receive-Outcome :
      (b : Bits) (refs : ℕ) (dn : Option ℕ) (there hashed present : Bool) (p : Port)
      (notices : List Notice)
      → Kind b refs dn there hashed p
      → Counts (entry b refs dn there hashed present p notices) n m r
      → Outcome move_receive n m r
          (copyin_move_receive (entry b refs dn there hashed present p notices))
  unfolding copyin_move_receive clear_receiver dncancel type_is_send_receive type_is_receive
  move_receive-Outcome b refs dn there hashed present p notices (empty pos) c =
      (_, refused, refl, empty pos, c)
  move_receive-Outcome b refs dn there hashed present p notices (send pos) c =
      (_, refused, refl, send pos, c)
  move_receive-Outcome b refs dn there hashed present p notices (send_once one) c =
      (_, refused, refl, send_once one, c)
  move_receive-Outcome b refs dn there hashed present p notices (dead_name pos) c =
      (_, refused, refl, dead_name pos, c)
  move_receive-Outcome b refs dn there hashed present p notices (receive pos act here) (c, s, o) = (
    entry (bits_of false false false false) refs none false hashed present
        (record p { mscount = 0; receiver_here = false; destination = none }) notices,
    copied dn,
    rw (act, here) refl,
    empty pos,
    (omega (arith, c), λ a. omega (arith, s a), λ a. omega (arith, o a)),
  )
  move_receive-Outcome b refs dn there hashed present p notices (send_receive pos act here)
        (c, s, o) =
      (
        entry (bits_of true false false false) refs dn true true present
            (record p { mscount = 0; receiver_here = false; destination = none; refs = p.refs + 1 })
            notices,
        copied none,
        (let some_right : ltb 0 p.srights ≡ true = ground (arith, s act) in
            rw (act, here, lt→ltb 0 refs pos, some_right) refl),
        send pos,
        (omega (arith, c), λ a. omega (arith, s a), λ a. omega (arith, o a)),
      )
