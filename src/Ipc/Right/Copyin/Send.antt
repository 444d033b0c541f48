-- ===== src/Ipc/Right/Copyin/Send.antt =====
-- The dispositions that need a send or a send-once right: COPY_SEND, MOVE_SEND and MOVE_SEND_ONCE.
use nextbsd_kernel.Prelude.{
  ℕ, ◌+◌, ◌-◌, ◌<◌, ◌≡◌, refl, sym, ap, subst, ◌∙◌, inl, inr, Bool, true, false, not, Option, none,
  some, List, ◌==◌, if◌then◌else◌, ltb, lt→ltb, arith, Bool-cases,
}
use nextbsd_kernel.Ipc.Right.{
  Bits, Port, Notice, Scene, assert◌then◌, type_is_send, type_is_send_receive, type_is_send_once,
  has_send_rights, right_check, dncancel,
}
use nextbsd_kernel.Ipc.Right.Transfer.{
  Disposition, copy_send, move_send, move_send_once, Copied, copied, refused, copy_checked,
  copyin_copy_send, move_last_send, move_checked, copyin_move_send, move_once_checked,
  copyin_move_send_once,
}
use nextbsd_kernel.Ipc.Right.Valid.{
  bit, bits_of, Kind, empty, send, receive, send_receive, send_once, dead_name, HasKind, Counts,
  naming, send_bits, once_bits, Buried, right_check-alive, right_check-cases,
}
use nextbsd_kernel.Ipc.Right.Copyin.{Outcome, copy_dead-Outcome, move_dead-Outcome, entry}

-- The kind of an entry does not depend on the counts of its port.
HasKind-port :
    (s : Scene) (q : Port)
    → q.active ≡ s.port.active
    → q.receiver_here ≡ s.port.receiver_here
    → HasKind s
    → HasKind (record s { port = q })
HasKind-port s q act here k =
    port_change s.bits s.refs s.request s.attached s.hashed s.port q act here k
  where
    port_change :
        (b : Bits) (refs : ℕ) (dn : Option ℕ) (there hashed : Bool) (p q : Port)
        → q.active ≡ p.active
        → q.receiver_here ≡ p.receiver_here
        → Kind b refs dn there hashed p
        → Kind b refs dn there hashed q
    port_change b refs dn there hashed p q act here (empty pos) = empty pos
    port_change b refs dn there hashed p q act here (send pos) = send pos
    port_change b refs dn there hashed p q act here (receive pos a h) =
        receive pos (act ∙ a) (here ∙ h)
    port_change b refs dn there hashed p q act here (send_receive pos a h) =
        send_receive pos (act ∙ a) (here ∙ h)
    port_change b refs dn there hashed p q act here (send_once one) = send_once one
    port_change b refs dn there hashed p q act here (dead_name pos) = dead_name pos

module _ (n m r : ℕ) where
  -- What follows `ipc_right_check` on a send or send-once right, for both of its results.
  through_check :
      (d : Disposition) (f : Option (Scene × Bool) → Option (Scene × Copied)) (once : Bool)
      (refs : ℕ) (dn : Option ℕ) (present : Bool) (p : Port) (notices : List Notice)
      → 0 < refs
      → (once ≡ true → refs ≡ 1)
      → p.refs ≡ 1 + r
      → (let s =
            naming (if once then once_bits else send_bits) (not once) refs dn present p notices in
          (p.active ≡ true → Outcome d n m r (f (some (s, false))))
          → ((t : Scene) → Buried n m r t → Outcome d n m r (f (some (t, true))))
          → Outcome d n m r (f (right_check s)))
  through_check d f once refs dn present p notices pos single held alive dead =
      elim (right_check-cases once refs dn present p notices n m r pos single held) [
        | inl (act, e) ↦ subst (λ o. Outcome d n m r (f o)) (sym e) (alive act)
        | inr (_, t, e, buried) ↦ subst (λ o. Outcome d n m r (f o)) (sym e) (dead t buried)
      ]

  copy_alive :
      (deadok : Bool) (s : Scene)
      → s.bits.send ≡ true
      → s.port.active ≡ true
      → HasKind s
      → Counts s n m r
      → Outcome copy_send n m r (copy_checked deadok (some (s, false)))
  unfolding copy_checked
  copy_alive deadok s right alive kind (c, se, o) =
      let some_right : ltb 0 s.port.srights ≡ true =
        lt→ltb 0 s.port.srights (omega (arith, se alive, ap bit right)) in
      (
        record s { port = record s.port { srights = s.port.srights + 1; refs = s.port.refs + 1 } },
        copied none,
        rw (right, some_right) refl,
        HasKind-port s (record s.port { srights = s.port.srights + 1; refs = s.port.refs + 1 }) refl
            refl kind,
        (omega (arith, c), λ a. omega (arith, se a), λ a. omega (arith, o a)),
      )

  -- A copyin that refuses a send-once right changes nothing.
  refused_once :
      (d : Disposition) (f : Option (Scene × Bool) → Option (Scene × Copied)) (refs : ℕ)
      (dn : Option ℕ) (present : Bool) (p : Port) (notices : List Notice)
      → refs ≡ 1
      → (let s = naming once_bits false refs dn present p notices in
          Counts s n m r
          → f (some (s, false)) ≡ some (s, refused)
          → Outcome d n m r (f (some (s, false))))
  refused_once d f refs dn present p notices one c e =
      (naming once_bits false refs dn present p notices, refused, e, send_once one, c)

  -- One reference fewer, where more than one is left.
  fewer :
      (b : Bits) (refs : ℕ) (dn : Option ℕ) (there hashed : Bool) (p q : Port)
      → q.active ≡ p.active
      → q.receiver_here ≡ p.receiver_here
      → Kind b refs dn there hashed p
      → 1 < refs
      → b.send_once ≡ false
      → Kind b (refs - 1) dn there hashed q
  fewer b refs dn there hashed p q act here (empty pos) more single = empty (omega arith)
  fewer b refs dn there hashed p q act here (send pos) more single = send (omega arith)
  fewer b refs dn there hashed p q act here (receive pos a h) more single =
      receive (omega arith) (act ∙ a) (here ∙ h)
  fewer b refs dn there hashed p q act here (send_receive pos a h) more single =
      send_receive (omega arith) (act ∙ a) (here ∙ h)
  fewer b refs dn there hashed p q act here (send_once one) more single = absurd (cc)
  fewer b refs dn there hashed p q act here (dead_name pos) more single = dead_name (omega arith)

  pub copy_send-Outcome :
      (deadok : Bool) (b : Bits) (refs : ℕ) (dn : Option ℕ) (there hashed present : Bool) (p : Port)
      (notices : List Notice)
      → Kind b refs dn there hashed p
      → Counts (entry b refs dn there hashed present p notices) n m r
      → Outcome copy_send n m r
          (copyin_copy_send deadok (entry b refs dn there hashed present p notices))
  unfolding copyin_copy_send has_send_rights
  copy_send-Outcome deadok b refs dn there hashed present p notices (empty pos) c =
      (_, refused, refl, empty pos, c)
  copy_send-Outcome deadok b refs dn there hashed present p notices (receive pos act here) c =
      (_, refused, refl, receive pos act here, c)
  copy_send-Outcome deadok b refs dn there hashed present p notices (dead_name pos) c =
      copy_dead-Outcome copy_send n m r deadok
        (entry (bits_of false false false true) refs none false false present p notices)
        (refl, dead_name pos, c)
  copy_send-Outcome deadok b refs dn there hashed present p notices (send_receive pos act here) c =
      let s = entry (bits_of true true false false) refs dn true false present p notices in
      rw (lt→ltb 0 refs pos, right_check-alive s refl act)
        (copy_alive deadok s refl act (send_receive pos act here) c)
  copy_send-Outcome deadok b refs dn there hashed present p notices (send pos) (c, se, o) =
      let s = naming send_bits true refs dn present p notices in
      rw (lt→ltb 0 refs pos) (
        through_check copy_send (copy_checked deadok) false refs dn present p notices pos (λ e. cc)
          c (λ act. copy_alive deadok s refl act (send pos) (c, se, o))
          (λ t buried. unfold copy_checked in copy_dead-Outcome copy_send n m r deadok t buried))
  copy_send-Outcome deadok b refs dn there hashed present p notices (send_once one) (c, se, o) =
      let s = naming once_bits false refs dn present p notices in
      let pos : 0 < refs = omega (arith, one) in
      rw (lt→ltb 0 refs pos) (
        through_check copy_send (copy_checked deadok) true refs dn present p notices pos (λ _. one)
          c
          (λ act.
            refused_once copy_send (copy_checked deadok) refs dn present p notices one (c, se, o)
              (unfold copy_checked type_is_send_once in
                let some_right = lt→ltb 0 p.sorights (omega (arith, o act)) in rw some_right refl))
          (λ t buried. unfold copy_checked in copy_dead-Outcome copy_send n m r deadok t buried))

  move_last-Outcome :
      (b : Bits) (refs : ℕ) (dn : Option ℕ) (there hashed present : Bool) (p : Port)
      (notices : List Notice)
      → Kind b refs dn there hashed p
      → b.send ≡ true
      → p.active ≡ true
      → Counts (entry b refs dn there hashed present p notices) n m r
      → Outcome move_send n m r (move_last_send (entry b refs dn there hashed present p notices))
  unfolding move_last_send dncancel type_is_send type_is_send_receive
  move_last-Outcome b refs dn there hashed present p notices (empty pos) right act c = absurd (cc)
  move_last-Outcome b refs dn there hashed present p notices (receive pos a h) right act c =
      absurd (cc)
  move_last-Outcome b refs dn there hashed present p notices (send_once one) right act c =
      absurd (cc)
  move_last-Outcome b refs dn there hashed present p notices (dead_name pos) right act c =
      absurd (cc)
  move_last-Outcome b refs dn there hashed present p notices (send pos) right act (c, se, o) = (
    entry (bits_of false false false false) refs none false false present p notices,
    copied dn,
    refl,
    empty pos,
    (omega (arith, c), λ a. omega (arith, se a), λ a. omega (arith, o a)),
  )
  move_last-Outcome b refs dn there hashed present p notices (send_receive pos a h) right act
        (c, se, o) =
      (
        entry (bits_of false true false false) refs dn true false present
            (record p { refs = p.refs + 1 }) notices,
        copied none,
        rw h refl,
        receive pos a h,
        (omega (arith, c), λ a. omega (arith, se a), λ a. omega (arith, o a)),
      )

  move_checked-last :
      (deadok : Bool) (s : Scene)
      → s.bits.send ≡ true
      → ltb 0 s.port.srights ≡ true
      → (s.refs == 1) ≡ true
      → move_checked deadok (some (s, false)) ≡ move_last_send s
  unfolding move_checked
  move_checked-last deadok s right some_right last = rw (right, some_right, last) refl

  move_alive :
      (deadok : Bool) (b : Bits) (refs : ℕ) (dn : Option ℕ) (there hashed present : Bool) (p : Port)
      (notices : List Notice)
      → Kind b refs dn there hashed p
      → 0 < refs
      → b.send ≡ true
      → b.send_once ≡ false
      → p.active ≡ true
      → Counts (entry b refs dn there hashed present p notices) n m r
      → Outcome move_send n m r
          (move_checked deadok (some (entry b refs dn there hashed present p notices, false)))
  unfolding move_checked
  move_alive deadok b refs dn there hashed present p notices kind pos right single act (c, se, o) =
      let some_right : ltb 0 p.srights ≡ true =
        lt→ltb 0 p.srights (omega (arith, se act, ap bit right)) in
      elim (Bool-cases (refs == 1)) [
        | inl last ↦
            let s = entry b refs dn there hashed present p notices in
            subst (Outcome move_send n m r) (sym (move_checked-last deadok s right some_right last))
              (move_last-Outcome b refs dn there hashed present p notices kind right act (c, se, o))
        | inr more ↦
            let two : ltb 1 refs ≡ true = ground arith in
            let q = record p { srights = p.srights + 1; refs = p.refs + 1 } in
            (
              entry b (refs - 1) dn there hashed present q notices,
              copied none,
              rw (right, some_right, more, two) refl,
              fewer b refs dn there hashed p q refl refl kind (ground arith) single,
              (omega (arith, c), λ a. omega (arith, se a), λ a. omega (arith, o a)),
            )
      ]

  pub move_send-Outcome :
      (deadok : Bool) (b : Bits) (refs : ℕ) (dn : Option ℕ) (there hashed present : Bool) (p : Port)
      (notices : List Notice)
      → Kind b refs dn there hashed p
      → Counts (entry b refs dn there hashed present p notices) n m r
      → Outcome move_send n m r
          (copyin_move_send deadok (entry b refs dn there hashed present p notices))
  unfolding copyin_move_send has_send_rights
  move_send-Outcome deadok b refs dn there hashed present p notices (empty pos) c =
      (_, refused, refl, empty pos, c)
  move_send-Outcome deadok b refs dn there hashed present p notices (receive pos act here) c =
      (_, refused, refl, receive pos act here, c)
  move_send-Outcome deadok b refs dn there hashed present p notices (dead_name pos) c =
      move_dead-Outcome move_send n m r deadok
        (entry (bits_of false false false true) refs none false false present p notices)
        (refl, dead_name pos, c)
  move_send-Outcome deadok b refs dn there hashed present p notices (send_receive pos act here) c =
      let s = entry (bits_of true true false false) refs dn true false present p notices in
      rw (lt→ltb 0 refs pos, right_check-alive s refl act)
        (move_alive deadok (bits_of true true false false) refs dn true false present p notices
          (send_receive pos act here) pos refl refl act c)
  move_send-Outcome deadok b refs dn there hashed present p notices (send pos) (c, se, o) =
      rw (lt→ltb 0 refs pos) (
        through_check move_send (move_checked deadok) false refs dn present p notices pos (λ e. cc)
          c
          (λ act.
            move_alive deadok send_bits refs dn true true present p notices (send pos) pos refl refl
              act (c, se, o))
          (λ t buried. unfold move_checked in move_dead-Outcome move_send n m r deadok t buried))
  move_send-Outcome deadok b refs dn there hashed present p notices (send_once one) (c, se, o) =
      let pos : 0 < refs = omega (arith, one) in
      rw (lt→ltb 0 refs pos) (
        through_check move_send (move_checked deadok) true refs dn present p notices pos (λ _. one)
          c
          (λ act.
            refused_once move_send (move_checked deadok) refs dn present p notices one (c, se, o)
              (unfold move_checked type_is_send_once in
                let some_right = lt→ltb 0 p.sorights (omega (arith, o act)) in rw some_right refl))
          (λ t buried. unfold move_checked in move_dead-Outcome move_send n m r deadok t buried))

  move_once_alive :
      (deadok : Bool) (refs : ℕ) (dn : Option ℕ) (present : Bool) (p : Port) (notices : List Notice)
      → refs ≡ 1
      → p.active ≡ true
      → (let s = naming once_bits false refs dn present p notices in
          Counts s n m r
          → Outcome move_send_once n m r (move_once_checked deadok (some (s, false))))
  unfolding move_once_checked dncancel type_is_send_once
  move_once_alive deadok refs dn present p notices one act (c, se, o) =
      let single : (refs == 1) ≡ true = ground arith in
      let some_right : ltb 0 p.sorights ≡ true = lt→ltb 0 p.sorights (omega (arith, o act)) in
      (
        entry (bits_of false false false false) refs none false false present p notices,
        copied dn,
        rw (single, some_right) refl,
        empty (omega (arith, one)),
        (omega (arith, c), λ a. omega (arith, se a), λ a. omega (arith, o a)),
      )

  pub move_send_once-Outcome :
      (deadok : Bool) (b : Bits) (refs : ℕ) (dn : Option ℕ) (there hashed present : Bool) (p : Port)
      (notices : List Notice)
      → Kind b refs dn there hashed p
      → Counts (entry b refs dn there hashed present p notices) n m r
      → Outcome move_send_once n m r
          (copyin_move_send_once deadok (entry b refs dn there hashed present p notices))
  unfolding copyin_move_send_once has_send_rights
  move_send_once-Outcome deadok b refs dn there hashed present p notices (empty pos) c =
      (_, refused, refl, empty pos, c)
  move_send_once-Outcome deadok b refs dn there hashed present p notices (receive pos act here) c =
      (_, refused, refl, receive pos act here, c)
  move_send_once-Outcome deadok b refs dn there hashed present p notices (dead_name pos) c =
      move_dead-Outcome move_send_once n m r deadok
        (entry (bits_of false false false true) refs none false false present p notices)
        (refl, dead_name pos, c)
  move_send_once-Outcome deadok b refs dn there hashed present p notices (send_receive pos act here)
        (c, se, o) =
      let s = entry (bits_of true true false false) refs dn true false present p notices in
      let some_right = lt→ltb 0 p.srights (omega (arith, se act)) in
      rw (lt→ltb 0 refs pos, right_check-alive s refl act)
        (
          s,
          refused,
          (unfold move_once_checked in rw some_right refl),
          send_receive pos act here,
          (c, se, o),
        )
  move_send_once-Outcome deadok b refs dn there hashed present p notices (send pos) (c, se, o) =
      let s = naming send_bits true refs dn present p notices in
      rw (lt→ltb 0 refs pos) (
        through_check move_send_once (move_once_checked deadok) false refs dn present p notices pos
          (λ e. cc) c
          (λ act. (
            s,
            refused,
            (unfold move_once_checked in
                let some_right = lt→ltb 0 p.srights (omega (arith, se act)) in rw some_right refl),
            send pos,
            (c, se, o),
          ))
          (λ t buried.
            unfold move_once_checked in move_dead-Outcome move_send_once n m r deadok t buried))
  move_send_once-Outcome deadok b refs dn there hashed present p notices (send_once one)
        (c, se, o) =
      let pos : 0 < refs = omega (arith, one) in
      rw (lt→ltb 0 refs pos) (
        through_check move_send_once (move_once_checked deadok) true refs dn present p notices pos
          (λ _. one) c (λ act. move_once_alive deadok refs dn present p notices one act (c, se, o))
          (λ t buried.
            unfold move_once_checked in move_dead-Outcome move_send_once n m r deadok t buried))
