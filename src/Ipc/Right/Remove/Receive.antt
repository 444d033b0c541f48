-- ===== src/Ipc/Right/Remove/Receive.antt =====
-- `ipc_right_delta` that takes a receive right away.
use nextbsd_kernel.Prelude.{
  ℕ, ◌+◌, ◌-◌, ◌<◌, ◌≡◌, refl, ap, ◌∙◌, Bool, true, false, ◌&&◌, Option, none, some, List,
  if◌then◌else◌, lt→ltb, arith,
}
use nextbsd_kernel.Prelude.Int.{negsuc}
use nextbsd_kernel.Ipc.Right.{
  Bits, Port, Notice, Scene, assert◌then◌, is_none, type_is_receive, type_is_send_receive, dncancel,
  notify_deleted, entry_dealloc, success,
}
use nextbsd_kernel.Ipc.Right.Valid.{
  bit, bits_of, Kind, empty, send, receive, send_receive, send_once, dead_name, HasKind, Counts,
}
use nextbsd_kernel.Ipc.Right.Copyin.{entry}
use nextbsd_kernel.Ipc.Right.Remove.{
  receive_right, is_zero, is_minus_one, with_success, destroy_port, turn_dead, destroy_told,
  drop_receive, delta_receive, delta,
}

-- The port without its receive right: dead, or on its way to the backup with the reference of the
-- entry and with all send rights that it counted.
abbrev pub Orphaned : Option ℕ → Scene → ℕ → ℕ → ℕ → Type 0
Orphaned none t n m r = (t.port.active ≡ false) × (t.port.refs ≡ r)
Orphaned (some pd) t n m r =
    (t.port.active ≡ true) × (t.port.refs ≡ r + 1) × (t.port.srights ≡ n) × (t.port.sorights ≡ m)

-- The entry: a dead name where it had a send right too, with a user reference for a dead-name
-- request; otherwise gone.
abbrev pub Remains : Bool → Option ℕ → ℕ → Scene → Type 0
Remains true dn refs t =
    HasKind t
    × (t.bits ≡ bits_of false false false true)
    × (t.refs ≡ (if is_none dn then refs else refs + 1))
Remains false dn refs t = t.present ≡ false

refs-pos : (dn : Option ℕ) (refs : ℕ) → 0 < refs → 0 < (if is_none dn then refs else refs + 1)
refs-pos none refs more = more
refs-pos (some so) refs more = omega arith

module _ (n m r : ℕ) where
  both-Orphaned :
      (backup : Option ℕ) (refs : ℕ) (dn : Option ℕ) (present : Bool) (p : Port)
      (notices : List Notice)
      → 0 < refs
      → p.active ≡ true
      → p.receiver_here ≡ true
      → (let s = entry (bits_of true true false false) refs dn true false present p notices in
          Counts s n m r
          → (t : Scene) × (delta receive_right backup (negsuc 0) s ≡ some (t, success))
            × Remains true dn refs t
            × Orphaned backup t (1 + n) m r)
  unfolding delta delta_receive is_zero is_minus_one with_success drop_receive type_is_send_receive
      turn_dead destroy_port
  both-Orphaned none refs dn present p notices more act at (c, se, o) =
      let s = entry (bits_of true true false false) refs dn true false present p notices in
      let some_right = lt→ltb 0 p.srights (omega (arith, se act)) in
      (
        destroy_port none (turn_dead s),
        rw (act, at, some_right, lt→ltb 0 refs more) refl,
        (dead_name (refs-pos dn refs more), refl, refl),
        (refl, omega (arith, c)),
      )
  both-Orphaned (some pd) refs dn present p notices more act at (c, se, o) =
      let s = entry (bits_of true true false false) refs dn true false present p notices in
      let some_right = lt→ltb 0 p.srights (omega (arith, se act)) in
      (
        destroy_port (some pd) (turn_dead s),
        rw (act, at, some_right, lt→ltb 0 refs more) refl,
        (dead_name (refs-pos dn refs more), refl, refl),
        (act, omega (arith, c), se act, omega (arith, o act)),
      )

  told-Orphaned :
      (k : ℕ) (backup dn : Option ℕ) (u : Scene)
      → u.present ≡ false
      → u.port.active ≡ true
      → u.port.refs ≡ 1 + r
      → u.port.srights ≡ k
      → u.port.sorights ≡ m
      → (t : Scene) × (destroy_told backup dn (some u) ≡ some t)
        × (t.present ≡ false)
        × Orphaned backup t k m r
  unfolding destroy_told destroy_port notify_deleted
  told-Orphaned k none none u gone act held se o = (_, refl, gone, (refl, omega (arith, held)))
  told-Orphaned k none (some so) u gone act held se o = (_, refl, gone, (refl, omega (arith, held)))
  told-Orphaned k (some pd) none u gone act held se o =
      (_, refl, gone, (act, omega (arith, held), se, o))
  told-Orphaned k (some pd) (some so) u gone act held se o =
      (_, refl, gone, (act, omega (arith, held), se, o))

  alone-Orphaned :
      (backup : Option ℕ) (refs : ℕ) (dn : Option ℕ) (present : Bool) (p : Port)
      (notices : List Notice)
      → p.active ≡ true
      → p.receiver_here ≡ true
      → (let s = entry (bits_of false true false false) refs dn true false present p notices in
          Counts s n m r
          → (t : Scene) × (delta receive_right backup (negsuc 0) s ≡ some (t, success))
            × Remains false dn refs t
            × Orphaned backup t (0 + n) m r)
  unfolding delta delta_receive is_zero is_minus_one with_success drop_receive type_is_receive
      entry_dealloc dncancel
  alone-Orphaned backup refs dn present p notices act at (c, se, o) =
      let u = entry (bits_of false true false false) (refs - 1) none false false false p notices in
      let (t, is, gone, orphaned) =
        told-Orphaned (0 + n) backup dn u refl act c (se act) (omega (arith, o act)) in
      let rest = destroy_told backup dn (some u) in
      (
        t,
        ap (λ b. with_success (assert b && p.receiver_here then rest)) act
            ∙ ap (λ b. with_success (assert b then rest)) at
            ∙ ap with_success is,
        gone,
        orphaned,
      )

-- `ipc_right_delta` of -1 for the receive right of an entry fails no assertion. The entry is gone,
-- or it is a dead name if it had a send right too. The port is dead, and the reference of the entry
-- is dropped, or its backup gets the port, with that reference; then the port still counts the send
-- right that has become a dead name.
pub delta-Orphaned :
    (backup : Option ℕ) (s : Scene) (n m r : ℕ)
    → HasKind s
    → Counts s n m r
    → s.bits.receive ≡ true
    → (t : Scene) × (delta receive_right backup (negsuc 0) s ≡ some (t, success))
      × Remains s.bits.send s.request s.refs t
      × Orphaned backup t (bit s.bits.send + n) m r
delta-Orphaned backup s n m r k c has =
    by_kind s.bits s.refs s.request s.attached s.hashed s.present s.port s.notices k c has
  where
    by_kind :
        (b : Bits) (refs : ℕ) (dn : Option ℕ) (there hashed present : Bool) (p : Port)
        (notices : List Notice)
        → Kind b refs dn there hashed p
        → Counts (entry b refs dn there hashed present p notices) n m r
        → b.receive ≡ true
        → (let s = entry b refs dn there hashed present p notices in
            (t : Scene) × (delta receive_right backup (negsuc 0) s ≡ some (t, success))
            × Remains b.send dn refs t
            × Orphaned backup t (bit b.send + n) m r)
    by_kind b refs dn there hashed present p notices (empty more) c has = absurd (cc)
    by_kind b refs dn there hashed present p notices (dead_name more) c has = absurd (cc)
    by_kind b refs dn there hashed present p notices (send more) c has = absurd (cc)
    by_kind b refs dn there hashed present p notices (send_once one) c has = absurd (cc)
    by_kind b refs dn there hashed present p notices (receive more act at) c has =
        alone-Orphaned n m r backup refs dn present p notices act at c
    by_kind b refs dn there hashed present p notices (send_receive more act at) c has =
        both-Orphaned n m r backup refs dn present p notices more act at c
