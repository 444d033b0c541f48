-- ===== src/Ipc/Right/Release.antt =====
-- `ipc_right_dealloc` over all kinds of entries.
use nextbsd_kernel.Prelude.{
  ℕ, ◌+◌, ◌-◌, ◌<◌, ◌≡◌, ◌⊎◌, refl, sym, ap, subst, ◌∙◌, inl, inr, Bool, true, false, not, ◌||◌,
  Option, none, some, List, ◌++◌, ◌==◌, if◌then◌else◌, ltb, lt→ltb, arith, Bool-cases,
}
use nextbsd_kernel.Ipc.Right.{
  Bits, Port, Notice, Scene, bury, drop_request, dealloc_dead, assert◌then◌, type_is_send,
  type_is_send_receive, type_is_send_once, type_is_dead_name, right_check, notify_no_senders,
  drop_send, Kern, success, invalid_right, dealloc_send_once, dealloc_send, dealloc_send_receive,
  dealloc,
}
use nextbsd_kernel.Ipc.Right.Valid.{
  bits_of, Kind, empty, send, receive, send_receive, send_once, dead_name, HasKind, Counts, naming,
  send_bits, once_bits, bury-Buried, right_check-alive, right_check-dead,
}
use nextbsd_kernel.Ipc.Right.Copyin.{entry}
use nextbsd_kernel.Ipc.Right.Dealloc.{
  held, held_bits, Taken, reference_less, send_less, entry_less, Released, dead-Released,
  once-Released, senders_notice, deleted_notice, silent, append-nil, last-LastSend,
}

module _ (n m r : ℕ) where
  dealloc_send-alive :
      (refs : ℕ) (dn : Option ℕ) (present : Bool) (p : Port) (notices : List Notice)
      → 0 < refs
      → p.active ≡ true
      → (let s = naming send_bits true refs dn present p notices in
          Counts s n m r → Released s n m r (dealloc_send (some (s, false))))
  unfolding dealloc_send
  dealloc_send-alive refs dn present p notices pos act (c, se, o) =
      let some_right = lt→ltb 0 p.srights (omega (arith, se act)) in
      let s = naming send_bits true refs dn present p notices in
      elim (Bool-cases (ltb 1 refs)) [
        | inl more ↦ (
          entry send_bits (refs - 1) dn true true present p notices,
          rw (some_right, more) refl,
          reference_less (rw act (ground (arith, more))) (rw act refl) refl refl
              (send (ground arith)) (c, se, o),
        )
        | inr last ↦
            let (t, e, _, gone, counts) =
              last-LastSend n m r refs dn present p notices act (c, se, o) in
            (
              t,
              (rw (some_right, last) refl) ∙ e,
              entry_less (rw act (ground (arith, last, pos))) refl gone counts,
            )
      ]

  bury-facts :
      (once : Bool) (refs : ℕ) (dn : Option ℕ) (present : Bool) (p : Port) (notices : List Notice)
      → p.active ≡ false
      → (let s =
            naming (if once then once_bits else send_bits) (not once) refs dn present p notices in
          (s.bits.receive ≡ false)
          × ((bury s).refs ≡ held s)
          × (held_bits s ≡ bits_of false false false true)
          × ((bury s).notices ≡ s.notices)
          × ((bury s).present ≡ s.present))
  unfolding bury drop_request
  bury-facts true refs none present p notices dead =
      (refl, rw dead (omega arith), rw dead refl, refl, refl)
  bury-facts false refs none present p notices dead =
      (refl, rw dead (omega arith), rw dead refl, refl, refl)
  bury-facts true refs (some so) present p notices dead =
      (refl, rw dead refl, rw dead refl, refl, refl)
  bury-facts false refs (some so) present p notices dead =
      (refl, rw dead refl, rw dead refl, refl, refl)

  -- The release through `ipc_right_check`: `f` is what follows it.
  through_check :
      (f : Option (Scene × Bool) → Option (Scene × Kern)) (once : Bool) (refs : ℕ) (dn : Option ℕ)
      (present : Bool) (p : Port) (notices : List Notice)
      → ((t : Scene) → f (some (t, true)) ≡ dealloc_dead t)
      → 0 < refs
      → (once ≡ true → refs ≡ 1)
      → p.refs ≡ 1 + r
      → (let s =
            naming (if once then once_bits else send_bits) (not once) refs dn present p notices in
          (p.active ≡ true → Released s n m r (f (some (s, false))))
          → Released s n m r (f (right_check s)))
  through_check f once refs dn present p notices falls pos single count alive =
      let s = naming (if once then once_bits else send_bits) (not once) refs dn present p notices in
      elim (Bool-cases p.active) [
        | inl act ↦
            subst (λ o. Released s n m r (f o)) (sym (right_check-alive s refl act)) (alive act)
        | inr dead ↦
            let (alone, left, name, ns, pres) = bury-facts once refs dn present p notices dead in
            subst (Released s n m r)
              (sym (
                ap f (right_check-dead once refs dn present p notices pos single dead)
                ∙ falls (bury s)))
              (dead-Released n m r s (bury s) alone left name ns pres
                (bury-Buried once refs dn present p notices n m r pos dead count))
      ]

  -- A notification changes neither the entry nor the port.
  told :
      (ns : Option ℕ) (mscount : ℕ) (s : Scene)
      → HasKind s
      → Counts s n m r
      → HasKind (notify_no_senders ns mscount s) × Counts (notify_no_senders ns mscount s) n m r
  unfolding notify_no_senders
  told none mscount s k c = (k, c)
  told (some ns) mscount s k c = (k, c)

  told_only :
      (ns : Option ℕ) (mscount : ℕ) (s : Scene)
      → ((notify_no_senders ns mscount s).bits ≡ s.bits)
        × ((notify_no_senders ns mscount s).refs ≡ s.refs)
        × ((notify_no_senders ns mscount s).present ≡ s.present)
        × ((notify_no_senders ns mscount s).notices ≡ s.notices ++ senders_notice 0 ns mscount)
  unfolding notify_no_senders
  told_only none mscount s = (refl, refl, refl, sym (append-nil n m r s.notices))
  told_only (some ns) mscount s = (refl, refl, refl, refl)

  -- The last user reference of an entry that also receives, once the send right is out of the entry
  -- and of the count of the port; `ns` is the request that is then notified.
  send-Taken :
      (refs : ℕ) (dn ns : Option ℕ) (present : Bool) (p q : Port) (notices : List Notice)
      → p.active ≡ true
      → refs ≡ 1
      → senders_notice 0 ns p.mscount ≡ senders_notice n p.nsrequest p.mscount
      → (let s = entry (bits_of true true false false) refs dn true false present p notices in
          let t = entry (bits_of false true false false) refs dn true false present q notices in
          HasKind t → Counts t n m r → Taken s n m r (notify_no_senders ns p.mscount t))
  send-Taken refs dn ns present p q notices act one same k c =
      let t = entry (bits_of false true false false) refs dn true false present q notices in
      let (k', c') = told ns p.mscount t k c in
      let (bits, left, pres, sent) = told_only ns p.mscount t in
      send_less (rw act one) refl bits (left ∙ one) (sent ∙ ap (λ l. notices ++ l) same) pres k' c'

  both_drop :
      (refs : ℕ) (dn : Option ℕ) (present : Bool) (p : Port) (notices : List Notice)
      → 0 < refs
      → p.active ≡ true
      → p.receiver_here ≡ true
      → (let s = entry (bits_of true true false false) refs dn true false present p notices in
          Counts s n m r → Released s n m r (dealloc_send_receive s))
  unfolding dealloc_send_receive drop_send
  both_drop refs dn present p notices pos act here (c, se, o) =
      let some_right = lt→ltb 0 p.srights (omega (arith, se act)) in
      elim (Bool-cases (ltb 1 refs)) [
        | inl more ↦ (
          entry (bits_of true true false false) (refs - 1) dn true false present p notices,
          rw (act, here, some_right, lt→ltb 0 refs pos, more) refl,
          reference_less (rw act (ground (arith, more))) (rw act refl) refl refl
              (send_receive (ground arith) act here) (c, se, o),
        )
        | inr last ↦ elim (Bool-cases (p.srights - 1 == 0)) [
          | inl none_left ↦
              let q = record p { srights = p.srights - 1; nsrequest = none } in
              let t = entry (bits_of false true false false) refs dn true false present q notices in
              let zero_left : n ≡ 0 = ground (arith, none_left, se act) in
              (
                notify_no_senders p.nsrequest p.mscount t,
                rw (act, here, some_right, lt→ltb 0 refs pos, last, none_left) refl,
                send-Taken refs dn p.nsrequest present p q notices act (ground (arith, last, pos))
                    (ap (λ k. senders_notice k p.nsrequest p.mscount) (sym zero_left))
                    (receive pos act here)
                    (omega (arith, c), λ a. omega (arith, se a), λ a. omega (arith, o a)),
              )
          | inr some_left ↦
              let q = record p { srights = p.srights - 1 } in
              let t = entry (bits_of false true false false) refs dn true false present q notices in
              let others : (n == 0) ≡ false = ground (arith, some_left, se act) in
              (
                notify_no_senders none p.mscount t,
                rw (act, here, some_right, lt→ltb 0 refs pos, last, some_left) refl,
                send-Taken refs dn none present p q notices act (ground (arith, last, pos))
                    (sym (silent n m r n p.nsrequest p.mscount others)) (receive pos act here)
                    (omega (arith, c), λ a. omega (arith, se a), λ a. omega (arith, o a)),
              )
        ]
      ]

-- An entry with a user reference to give back.
abbrev pub can_release : Bits → Bool
can_release b = b.send || (b.send_once || b.dead_name)

-- `ipc_right_dealloc` on an entry of any of the kinds, where the counts of the port are those of
-- the rights there are, fails no assertion. Without a send right, a send-once right or a dead name
-- it returns KERN_INVALID_RIGHT and changes nothing. Otherwise it succeeds. An entry with several
-- user references, where a right whose port is found dead counts as a dead name with one more for
-- its dead-name request, gives back exactly one, keeps its rights, and nothing is sent. With one
-- user reference, an entry that also receives loses its send right alone and keeps its reference,
-- and the no-senders request is notified if no send right is left elsewhere; any other entry is
-- gone. The port has lost exactly the rights and the reference that the entry lost.
pub dealloc-Released :
    (s : Scene) (n m r : ℕ)
    → HasKind s
    → Counts s n m r
    → ((can_release s.bits ≡ true) × Released s n m r (dealloc s))
      ⊎ ((can_release s.bits ≡ false) × (dealloc s ≡ some (s, invalid_right)))
unfolding dealloc dealloc_send dealloc_send_once type_is_dead_name type_is_send_once type_is_send
    type_is_send_receive
dealloc-Released s n m r k c =
    by_kind s.bits s.refs s.request s.attached s.hashed s.present s.port s.notices k c
  where
    by_kind :
        (b : Bits) (refs : ℕ) (dn : Option ℕ) (there hashed present : Bool) (p : Port)
        (notices : List Notice)
        → Kind b refs dn there hashed p
        → Counts (entry b refs dn there hashed present p notices) n m r
        → ((can_release b ≡ true)
            × Released
                (entry b refs dn there hashed present p notices)
                n
                m
                r
                (dealloc (entry b refs dn there hashed present p notices)))
          ⊎ ((can_release b ≡ false)
              × (dealloc (entry b refs dn there hashed present p notices)
                  ≡ some (entry b refs dn there hashed present p notices, invalid_right)))
    by_kind b refs dn there hashed present p notices (empty pos) c = inr (refl, refl)
    by_kind b refs dn there hashed present p notices (receive pos act here) c = inr (refl, refl)
    by_kind b refs dn there hashed present p notices (dead_name pos) c = inl (
      refl,
      (let s = entry (bits_of false false false true) refs none false false present p notices in
          dead-Released n m r s s refl refl refl refl refl (refl, dead_name pos, c)),
    )
    by_kind b refs dn there hashed present p notices (send_receive pos act here) c =
        inl (refl, both_drop n m r refs dn present p notices pos act here c)
    by_kind b refs dn there hashed present p notices (send pos) (c, se, o) = inl (
      refl,
      rw (lt→ltb 0 refs pos) (
          through_check n m r dealloc_send false refs dn present p notices (λ t. refl) pos (λ e. cc)
            c (λ act. dealloc_send-alive n m r refs dn present p notices pos act (c, se, o))),
    )
    by_kind b refs dn there hashed present p notices (send_once one) (c, se, o) =
        let single : (refs == 1) ≡ true = ground arith in
        inl (
          refl,
          rw single (
              through_check n m r dealloc_send_once true refs dn present p notices (λ t. refl)
                (omega (arith, one)) (λ _. one) c
                (λ act. once-Released n m r refs dn present p notices one act (c, se, o))),
        )

-- `ipc_right_dealloc` of the last user reference of a send right to an active port: the
-- no-senders request of the port is notified exactly if no send right is left elsewhere, with the
-- make-send count of the port, and then the dead-name request of the entry, if it has one.
pub dealloc-notifies :
    (dn : Option ℕ) (present : Bool) (p : Port) (notices : List Notice) (n m r : ℕ)
    → p.active ≡ true
    → Counts (naming send_bits true 1 dn present p notices) n m r
    → (s : Scene) × (dealloc (naming send_bits true 1 dn present p notices) ≡ some (s, success))
      × (s.notices ≡ (notices ++ senders_notice n p.nsrequest p.mscount) ++ deleted_notice dn)
unfolding dealloc dealloc_send type_is_dead_name type_is_send_once type_is_send
dealloc-notifies dn present p notices n m r act (c, se, o) =
    let s = naming send_bits true 1 dn present p notices in
    let (t, e, told, _, _) = last-LastSend n m r 1 dn present p notices act (c, se, o) in
    let some_right = lt→ltb 0 p.srights (omega (arith, se act)) in
    (t, ap dealloc_send (right_check-alive s refl act) ∙ (rw some_right refl) ∙ e, told)
