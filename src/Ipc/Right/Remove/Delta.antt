-- ===== src/Ipc/Right/Remove/Delta.antt =====
-- `ipc_right_delta`: how it stands to `ipc_right_dealloc`, and what a delta does to an entry.
use nextbsd_kernel.Prelude.{
  ℕ, ◌-◌, ◌<◌, ◌≡◌, ◌⊎◌, refl, sym, ap, ◌∙◌, inl, inr, Bool, true, false, Option, none, some, List,
  ◌==◌, if◌then◌else◌, ltb, lt→ltb, arith, Bool-cases,
}
use nextbsd_kernel.Prelude.Int.{negsuc}
use nextbsd_kernel.Ipc.Right.{
  Bits, Port, Notice, Scene, assert◌then◌, type_is_none, type_is_send, type_is_receive,
  type_is_send_receive, type_is_send_once, type_is_dead_name, has_send_rights, dncancel,
  entry_dealloc, drop_send, right_check, dealloc_dead, dealloc_send_once, dealloc_last_send,
  dealloc_send, dealloc_send_receive, dealloc,
}
use nextbsd_kernel.Ipc.Right.Valid.{
  bits_of, Kind, empty, send, receive, send_receive, send_once, dead_name, HasKind, naming,
  send_bits, once_bits, right_check-alive,
}
use nextbsd_kernel.Ipc.Right.Copyin.{entry}
use nextbsd_kernel.Ipc.Right.Release.{can_release}
use nextbsd_kernel.Ipc.Right.Remove.{
  Right, send_right, send_once_right, dead_name_right, underflow, add_delta, is_zero, is_minus_one,
  with_success, use_send_once, tell, drop_send_once, delta_once_checked, delta_send_once,
  delta_dead, delta_dead_name, drop_last, delta_send_checked, delta_send, delta,
}

-- The right whose user reference a dealloc gives back.
abbrev pub right_of : Bits → Right
right_of b = if b.send then send_right else if b.send_once then send_once_right else dead_name_right

-- A delta of -1 does not underflow, and takes the last reference exactly if there is no other.
minus_one :
    (refs : ℕ)
    → 0 < refs
    → (ltb refs 1 ≡ false)
      × (((ltb 1 refs ≡ true) × ((refs - 1 == 0) ≡ false))
          ⊎ ((ltb 1 refs ≡ false) × ((refs - 1 == 0) ≡ true)))
minus_one refs more = elim (Bool-cases (ltb 1 refs)) [
  | inl others ↦ (ground arith, inl (others, ground arith))
  | inr last ↦ (ground arith, inr (last, ground arith))
]

dead-same :
    (refs : ℕ) (present : Bool) (p : Port) (notices : List Notice)
    → 0 < refs
    → (let s = entry (bits_of false false false true) refs none false false present p notices in
        delta_dead (negsuc 0) s ≡ dealloc_dead s)
unfolding delta_dead dealloc_dead with_success underflow add_delta type_is_dead_name entry_dealloc
dead-same refs present p notices more =
    let (fits, cases) = minus_one refs more in
    let some_refs = lt→ltb 0 refs more in
    elim cases [
      | inl (others, stays) ↦ rw (some_refs, fits, stays, others) refl
      | inr (last, goes) ↦ rw (some_refs, fits, last, goes) refl
    ]

both-same :
    (refs : ℕ) (dn : Option ℕ) (present : Bool) (p : Port) (notices : List Notice)
    → 0 < refs
    → p.active ≡ true
    → p.receiver_here ≡ true
    → (let s = entry (bits_of true true false false) refs dn true false present p notices in
        delta_send_checked (negsuc 0) (some (s, false)) ≡ dealloc_send_receive s)
unfolding delta_send_checked dealloc_send_receive with_success underflow add_delta drop_last
    drop_send type_is_send_receive
both-same refs dn present p notices more act at =
    let (fits, cases) = minus_one refs more in
    let some_refs = lt→ltb 0 refs more in
    elim cases [
      | inl (others, stays) ↦ rw (fits, stays, others, act, at, some_refs) refl
      | inr (last, goes) ↦ elim (Bool-cases (p.srights - 1 == 0)) [
        | inl none_left ↦ rw (fits, last, goes, act, at, some_refs, none_left) refl
        | inr some_left ↦ rw (fits, last, goes, act, at, some_refs, some_left) refl
      ]
    ]

once-same :
    (dn : Option ℕ) (refs : ℕ) (present : Bool) (p : Port) (notices : List Notice)
    → (let s = naming once_bits false refs dn present p notices in
        delta_once_checked (negsuc 0) (some (s, false)) ≡ dealloc_send_once (some (s, false)))
unfolding delta_once_checked dealloc_send_once with_success drop_send_once use_send_once
    entry_dealloc dncancel is_zero is_minus_one
once-same dn refs present p notices = refl

send-same :
    (refs : ℕ) (dn : Option ℕ) (present : Bool) (p : Port) (notices : List Notice)
    → 0 < refs
    → (let s = naming send_bits true refs dn present p notices in
        delta_send_checked (negsuc 0) (some (s, false)) ≡ dealloc_send (some (s, false)))
unfolding delta_send_checked dealloc_send dealloc_last_send with_success underflow add_delta
    drop_last drop_send type_is_send dncancel entry_dealloc tell
send-same refs dn present p notices more =
    let (fits, cases) = minus_one refs more in
    elim cases [
      | inl (others, stays) ↦ rw (fits, stays, others) refl
      | inr (last, goes) ↦ elim (Bool-cases (p.srights - 1 == 0)) [
        | inl none_left ↦ rw (fits, last, goes, none_left) refl
        | inr some_left ↦ rw (fits, last, goes, some_left) refl
      ]
    ]

-- On an entry with a send right (beside a receive right or alone), a send-once right or a dead
-- name, `ipc_right_delta` with a delta of -1 for this right does what `ipc_right_dealloc` does,
-- where the entry's port, if it has one, is active.
pub delta-dealloc :
    (backup : Option ℕ) (s : Scene)
    → HasKind s
    → (s.attached ≡ true → s.port.active ≡ true)
    → can_release s.bits ≡ true
    → delta (right_of s.bits) backup (negsuc 0) s ≡ dealloc s
unfolding delta delta_send delta_send_once delta_dead_name delta_dead with_success dealloc
    dealloc_dead type_is_none type_is_dead_name type_is_send type_is_receive underflow add_delta
    is_zero is_minus_one type_is_send_receive type_is_send_once has_send_rights
delta-dealloc backup s k act has =
    by_kind s.bits s.refs s.request s.attached s.hashed s.present s.port s.notices k act has
  where
    by_kind :
        (b : Bits) (refs : ℕ) (dn : Option ℕ) (there hashed present : Bool) (p : Port)
        (notices : List Notice)
        → Kind b refs dn there hashed p
        → (there ≡ true → p.active ≡ true)
        → can_release b ≡ true
        → (let s = entry b refs dn there hashed present p notices in
            delta (right_of b) backup (negsuc 0) s ≡ dealloc s)
    by_kind b refs dn there hashed present p notices (empty more) act has = absurd (cc)
    by_kind b refs dn there hashed present p notices (receive more on at) act has = absurd (cc)
    by_kind b refs dn there hashed present p notices (dead_name more) act has =
        dead-same refs present p notices more
    by_kind b refs dn there hashed present p notices (send_receive more on at) act has =
        let s = entry b refs dn there hashed present p notices in
        ap (delta_send_checked (negsuc 0)) (right_check-alive s refl on)
        ∙ both-same refs dn present p notices more on at
    by_kind b refs dn there hashed present p notices (send_once one) act has =
        let s = entry b refs dn there hashed present p notices in
        let live = right_check-alive s refl (act refl) in
        ap (λ r. assert refs == 1 then r)
          (ap (delta_once_checked (negsuc 0)) live
            ∙ once-same dn refs present p notices
            ∙ ap dealloc_send_once (sym live))
    by_kind b refs dn there hashed present p notices (send more) act has =
        let s = entry b refs dn there hashed present p notices in
        let live = right_check-alive s refl (act refl) in
        let same =
          ap (delta_send_checked (negsuc 0)) live
          ∙ send-same refs dn present p notices more
          ∙ ap dealloc_send (sym live) in
        same ∙ ap (λ b. assert b then dealloc_send (right_check s)) (sym (lt→ltb 0 refs more))
