-- ===== src/Ipc/Right/Copyout.antt =====
-- `ipc_right_copyout`: a right and its reference go from the caller to the entry.
use nextbsd_kernel.Prelude.{
  ℕ, ◌+◌, ◌-◌, ◌≡◌, refl, ap, Bool, true, false, ◌&&◌, Option, none, some, List, [], ◌∷◌, ◌++◌,
  ◌==◌, if◌then◌else◌, ltb, lt→ltb, arith,
}
use nextbsd_kernel.Ipc.Right.{
  Bits, Port, Notice, released, Scene, assert◌then◌, type_is_none, type_is_send, type_is_receive,
}
use nextbsd_kernel.Ipc.Right.Transfer.{
  Outgoing, port_send, port_send_once, port_receive, copyout_send_once, copyout_send, release_dest,
  copyout_receive, copyout,
}
use nextbsd_kernel.Ipc.Right.Valid.{
  bits_of, Kind, empty, send, receive, send_receive, send_once, dead_name, HasKind, Counts,
}
use nextbsd_kernel.Ipc.Right.Copyin.{entry}

-- The entries that the callers choose for a right: none, or the one that names the port.
abbrev pub Accepts : Outgoing → Scene → Type 0
Accepts port_send s = (s.bits.send_once ≡ false) × (s.bits.dead_name ≡ false)
Accepts port_send_once s = s.bits ≡ bits_of false false false false
Accepts port_receive s =
    (s.bits.receive ≡ false)
    × (s.bits.send_once ≡ false)
    × (s.bits.dead_name ≡ false)
    × (s.port.mscount ≡ 0)
    × (s.port.receiver_here ≡ false)

-- The rights that the caller gives.
abbrev pub gives_send : Outgoing → ℕ
gives_send port_send = 1
gives_send port_send_once = 0
gives_send port_receive = 0

abbrev pub gives_once : Outgoing → ℕ
gives_once port_send = 0
gives_once port_send_once = 1
gives_once port_receive = 0

-- The bits with the right that the caller gives.
abbrev pub with_right : Outgoing → Bits → Bits
with_right port_send b = record b { send = true }
with_right port_send_once b = record b { send_once = true }
with_right port_receive b = record b { receive = true }

-- The reference of a destination that the port was in transit to is dropped with the receive right.
abbrev pub arrival_notices : Outgoing → Option ℕ → List Notice → List Notice
arrival_notices port_send dest notices = notices
arrival_notices port_send_once dest notices = notices
arrival_notices port_receive none notices = notices
arrival_notices port_receive (some d) notices = notices ++ released d ∷ []

-- What a copyout of `o` into the entry of `s` must give: the entry has the right beside those that
-- it had, and one user reference more for a send right; `n`, `m` and `r` stay with the others.
abbrev pub Lands : Outgoing → Scene → ℕ → ℕ → ℕ → Option Scene → Type 0
Lands o s n m r result =
    (t : Scene) × (result ≡ some t)
    × (t.bits ≡ with_right o s.bits)
    × (t.refs ≡ s.refs + gives_send o)
    × (t.request ≡ s.request)
    × (t.notices ≡ arrival_notices o s.port.destination s.notices)
    × (t.port.active ≡ true)
    × HasKind t
    × Counts t n m r

module _ (n m r : ℕ) where
  send-Lands :
      (b : Bits) (refs : ℕ) (dn : Option ℕ) (there hashed present : Bool) (p : Port)
      (notices : List Notice)
      → Kind b refs dn there hashed p
      → Accepts port_send (entry b refs dn there hashed present p notices)
      → p.active ≡ true
      → Counts (entry b refs dn there hashed present p notices) (n + 1) (m + 0) (r + 1)
      → Lands port_send
          (entry b refs dn there hashed present p notices)
          n
          m
          r
          (copyout_send (entry b refs dn true hashed present p notices))
  unfolding copyout_send type_is_none type_is_receive
  send-Lands b refs dn there hashed present p notices (send_once one) (x, y) act c = absurd (cc)
  send-Lands b refs dn there hashed present p notices (dead_name pos) (x, y) act c = absurd (cc)
  send-Lands b refs dn there hashed present p notices (empty pos) fits act (c, se, o) =
      let some_right : ltb 0 p.srights ≡ true = lt→ltb 0 p.srights (omega (arith, se act)) in
      (
        entry (bits_of true false false false) (refs + 1) none true true present p notices,
        rw some_right refl,
        refl,
        omega arith,
        refl,
        refl,
        act,
        send (omega arith),
        (omega (arith, c), λ a. omega (arith, se a), λ a. omega (arith, o a)),
      )
  send-Lands b refs dn there hashed present p notices (send pos) fits act (c, se, o) =
      let some_right : ltb 0 p.srights ≡ true = lt→ltb 0 p.srights (omega (arith, se act)) in
      let two_rights : ltb 1 p.srights ≡ true = lt→ltb 1 p.srights (omega (arith, se act)) in
      (
        entry (bits_of true false false false) (refs + 1) dn true true present
            (record p { srights = p.srights - 1; refs = p.refs - 1 }) notices,
        rw (some_right, two_rights, lt→ltb 0 refs pos) refl,
        refl,
        omega arith,
        refl,
        refl,
        act,
        send (omega arith),
        (omega (arith, c), λ a. omega (arith, se a), λ a. omega (arith, o a)),
      )
  send-Lands b refs dn there hashed present p notices (receive pos ac here) fits act (c, se, o) =
      let some_right : ltb 0 p.srights ≡ true = lt→ltb 0 p.srights (omega (arith, se act)) in
      (
        entry (bits_of true true false false) (refs + 1) dn true false present
            (record p { refs = p.refs - 1 }) notices,
        rw some_right refl,
        refl,
        omega arith,
        refl,
        refl,
        act,
        send_receive (omega arith) ac here,
        (omega (arith, c), λ a. omega (arith, se a), λ a. omega (arith, o a)),
      )
  send-Lands b refs dn there hashed present p notices (send_receive pos ac here) fits act
        (c, se, o) =
      let some_right : ltb 0 p.srights ≡ true = lt→ltb 0 p.srights (omega (arith, se act)) in
      let two_rights : ltb 1 p.srights ≡ true = lt→ltb 1 p.srights (omega (arith, se act)) in
      (
        entry (bits_of true true false false) (refs + 1) dn true false present
            (record p { srights = p.srights - 1; refs = p.refs - 1 }) notices,
        rw (some_right, two_rights, lt→ltb 0 refs pos) refl,
        refl,
        omega arith,
        refl,
        refl,
        act,
        send_receive (omega arith) ac here,
        (omega (arith, c), λ a. omega (arith, se a), λ a. omega (arith, o a)),
      )

  send_once-Lands :
      (b : Bits) (refs : ℕ) (dn : Option ℕ) (there hashed present : Bool) (p : Port)
      (notices : List Notice)
      → Kind b refs dn there hashed p
      → refs ≡ 1
      → Accepts port_send_once (entry b refs dn there hashed present p notices)
      → p.active ≡ true
      → Counts (entry b refs dn there hashed present p notices) (n + 0) (m + 1) (r + 1)
      → Lands port_send_once
          (entry b refs dn there hashed present p notices)
          n
          m
          r
          (copyout_send_once (entry b refs dn true hashed present p notices))
  unfolding copyout_send_once type_is_none
  send_once-Lands b refs dn there hashed present p notices (send pos) single is act c = absurd (cc)
  send_once-Lands b refs dn there hashed present p notices (receive pos ac h) single is act c =
      absurd (cc)
  send_once-Lands b refs dn there hashed present p notices (send_receive pos ac h) single is act c =
      absurd (cc)
  send_once-Lands b refs dn there hashed present p notices (send_once one) single is act c =
      absurd (cc)
  send_once-Lands b refs dn there hashed present p notices (dead_name pos) single is act c =
      absurd (cc)
  send_once-Lands b refs dn there hashed present p notices (empty pos) single is act (c, se, o) =
      let some_right : ltb 0 p.sorights ≡ true = lt→ltb 0 p.sorights (omega (arith, o act)) in
      (
        entry (bits_of false false true false) refs none true false present p notices,
        rw some_right refl,
        refl,
        omega arith,
        refl,
        refl,
        act,
        send_once single,
        (omega (arith, c), λ a. omega (arith, se a), λ a. omega (arith, o a)),
      )

  release_dest-Lands :
      (dest : Option ℕ) (s t : Scene)
      → s.port.destination ≡ dest
      → t.bits ≡ with_right port_receive s.bits
      → t.refs ≡ s.refs
      → t.request ≡ s.request
      → t.notices ≡ s.notices
      → t.port.active ≡ true
      → HasKind t
      → Counts t n m r
      → Lands port_receive s n m r (some (release_dest dest t))
  unfolding release_dest
  release_dest-Lands none s t is bits refs req ns act k c =
      (t, refl, bits, omega (arith, refs), req, rw is ns, act, k, c)
  release_dest-Lands (some d) s t is bits refs req ns act k c = (
    record t { notices = t.notices ++ released d ∷ [] },
    refl,
    bits,
    omega (arith, refs),
    req,
    rw is (ap (λ l. l ++ released d ∷ []) ns),
    act,
    k,
    c,
  )

  receive-Lands :
      (b : Bits) (refs : ℕ) (dn : Option ℕ) (there hashed present : Bool) (p : Port)
      (notices : List Notice)
      → Kind b refs dn there hashed p
      → Accepts port_receive (entry b refs dn there hashed present p notices)
      → p.active ≡ true
      → Counts (entry b refs dn there hashed present p notices) (n + 0) (m + 0) (r + 1)
      → Lands port_receive
          (entry b refs dn there hashed present p notices)
          n
          m
          r
          (copyout_receive (entry b refs dn true hashed present p notices))
  unfolding copyout_receive type_is_none type_is_send
  receive-Lands b refs dn there hashed present p notices (receive pos ac h) (x, y, z, q, t) act c =
      absurd (cc)
  receive-Lands b refs dn there hashed present p notices (send_receive pos ac h) (x, y, z, q, t) act
        c =
      absurd (cc)
  receive-Lands b refs dn there hashed present p notices (send_once one) (x, y, z, q, t) act c =
      absurd (cc)
  receive-Lands b refs dn there hashed present p notices (dead_name pos) (x, y, z, q, t) act c =
      absurd (cc)
  receive-Lands b refs dn there hashed present p notices (empty pos) (_, _, _, clear, gone) act
        (c, se, o) =
      let zeroed : (p.mscount == 0) ≡ true = ground (arith, clear) in
      rw (zeroed, gone)
        (release_dest-Lands p.destination (entry b refs dn there hashed present p notices)
          (entry (bits_of false true false false) refs none true false present
            (record p { receiver_here = true }) notices)
          refl refl refl refl refl act (receive pos act refl)
          (omega (arith, c), λ a. omega (arith, se a), λ a. omega (arith, o a)))
  receive-Lands b refs dn there hashed present p notices (send pos) (_, _, _, clear, gone) act
        (c, se, o) =
      let some_right : ltb 0 p.srights ≡ true = lt→ltb 0 p.srights (omega (arith, se act)) in
      let zeroed : (p.mscount == 0) ≡ true = ground (arith, clear) in
      rw (zeroed, gone, some_right, lt→ltb 0 refs pos)
        (release_dest-Lands p.destination (entry b refs dn there hashed present p notices)
          (entry (bits_of true true false false) refs dn true false present
            (record p { receiver_here = true; refs = p.refs - 1 }) notices)
          refl refl refl refl refl act (send_receive pos act refl)
          (omega (arith, c), λ a. omega (arith, se a), λ a. omega (arith, o a)))

asserted :
    (P : Option Scene → Type 0) (b : Bool) (o : Option Scene) → b ≡ true → P o → P (assert b then o)
asserted P true o holds h = h
asserted P false o holds h = absurd (cc)

-- A fresh entry has one reference, and takes a send-once right.
abbrev pub FreshFor : Outgoing → Scene → Type 0
FreshFor port_send s = Unit
FreshFor port_send_once s = s.refs ≡ 1
FreshFor port_receive s = Unit

-- `ipc_right_copyout` of a right to an active port, whose counts are those of the rights there are
-- with the caller's, fails no assertion for a send right into an empty entry or one with a send or
-- the receive right of the port; for a send-once right into an empty entry with one reference; and
-- for a receive right, with make-send count 0 and no receiver in the space, into an empty entry or
-- one with a send right. The entry then has the right beside those that it had, with its place in
-- the reverse hash table as its kind demands; it has one user reference more for a send right, and
-- as many as before for another right. The counts of the port drop the send right that the entry
-- already had and the reference that it already held, and the destination of a receive right in
-- transit loses its reference.
pub copyout-Lands :
    (o : Outgoing) (s : Scene) (n m r : ℕ)
    → HasKind s
    → Accepts o s
    → FreshFor o s
    → s.port.active ≡ true
    → Counts s (n + gives_send o) (m + gives_once o) (r + 1)
    → Lands o s n m r (copyout o (record s { attached = true }))
unfolding copyout
copyout-Lands port_send s n m r k fits fresh act c =
    asserted (Lands port_send s n m r) (s.port.active && true)
      (copyout_send (record s { attached = true })) (rw act refl)
      (send-Lands n m r s.bits s.refs s.request s.attached s.hashed s.present s.port s.notices k
        fits act c)
copyout-Lands port_send_once s n m r k fits fresh act c =
    asserted (Lands port_send_once s n m r) (s.port.active && true)
      (copyout_send_once (record s { attached = true })) (rw act refl)
      (send_once-Lands n m r s.bits s.refs s.request s.attached s.hashed s.present s.port s.notices
        k fresh fits act c)
copyout-Lands port_receive s n m r k fits fresh act c =
    asserted (Lands port_receive s n m r) (s.port.active && true)
      (copyout_receive (record s { attached = true })) (rw act refl)
      (receive-Lands n m r s.bits s.refs s.request s.attached s.hashed s.present s.port s.notices k
        fits act c)
