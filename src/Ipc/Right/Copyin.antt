-- ===== src/Ipc/Right/Copyin.antt =====
-- `ipc_right_copyin` on every kind of entry and every disposition: no assertion fails, and the port
-- is charged for exactly what the caller gets.
pub mod Make
pub mod Send
pub mod Conserves
use nextbsd_kernel.Prelude.{
  ℕ, ◌+◌, ◌-◌, ◌%◌, ◌^◌, ◌<◌, ◌≡◌, ◌⊎◌, refl, sym, ap, subst, ◌∙◌, inl, inr, Bool, true, false, not,
  ◌&&◌, ◌||◌, Option, none, some, List, ◌==◌, if◌then◌else◌, ltb, lt→ltb, arith, Bool-cases,
}
use nextbsd_kernel.Ipc.Right.{
  Bits, Port, Notice, Scene, assert◌then◌, is_none, no_type, type_is_none, type_is_send,
  type_is_receive, type_is_send_receive, type_is_send_once, type_is_dead_name, has_send_rights,
  right_check, dncancel,
}
use nextbsd_kernel.Ipc.Right.Transfer.{
  Disposition, make_send, make_send_once, move_receive, copy_send, move_send, move_send_once,
  Copied, copied, copied_dead, refused, copyin_make_send, copyin_make_send_once,
  copyin_move_receive, clear_receiver, copyin_copy_dead, copyin_move_dead, copy_checked,
  copyin_copy_send, move_last_send, move_checked, copyin_move_send, move_once_checked,
  copyin_move_send_once, copyin,
}
use nextbsd_kernel.Ipc.Right.Valid.{
  bit, bits_of, Kind, empty, send, receive, send_receive, send_once, dead_name, HasKind, Counts,
  naming, send_bits, once_bits, Buried, right_check-alive, right_check-cases,
}

-- The send rights and the send-once rights that a disposition gives the caller.
abbrev pub sends : Disposition → ℕ
sends make_send = 1
sends make_send_once = 0
sends move_receive = 0
sends copy_send = 1
sends move_send = 1
sends move_send_once = 0

abbrev pub onces : Disposition → ℕ
onces make_send = 0
onces make_send_once = 1
onces move_receive = 0
onces copy_send = 0
onces move_send = 0
onces move_send_once = 1

-- A copied right and its reference are held elsewhere now; otherwise nothing is.
abbrev pub Gains : Disposition → Copied → Scene → ℕ → ℕ → ℕ → Type 0
Gains d (copied dn) s n m r = Counts s (n + sends d) (m + onces d) (r + 1)
Gains d copied_dead s n m r = Counts s n m r
Gains d refused s n m r = Counts s n m r

-- What a copyin must give.
abbrev pub Outcome : Disposition → ℕ → ℕ → ℕ → Option (Scene × Copied) → Type 0
Outcome d n m r o = (s : Scene) × (c : Copied) × (o ≡ some (s, c)) × HasKind s × Gains d c s n m r

pub dead_name-facts :
    (b : Bits) (refs : ℕ) (dn : Option ℕ) (there hashed : Bool) (p : Port)
    → Kind b refs dn there hashed p
    → b ≡ bits_of false false false true
    → (0 < refs) × (dn ≡ none) × (there ≡ false) × (hashed ≡ false)
dead_name-facts b refs dn there hashed p (empty pos) e = absurd (cc (ap (λ x. x.dead_name) e))
dead_name-facts b refs dn there hashed p (send pos) e = absurd (cc (ap (λ x. x.dead_name) e))
dead_name-facts b refs dn there hashed p (receive pos a h) e = absurd (cc (ap (λ x. x.dead_name) e))
dead_name-facts b refs dn there hashed p (send_receive pos a h) e =
    absurd (cc (ap (λ x. x.dead_name) e))
dead_name-facts b refs dn there hashed p (send_once one) e = absurd (cc (ap (λ x. x.dead_name) e))
dead_name-facts b refs dn there hashed p (dead_name pos) e = (pos, refl, refl, refl)

module _ (d : Disposition) (n m r : ℕ) where
  copy_dead-Outcome :
      (deadok : Bool) (t : Scene) → Buried n m r t → Outcome d n m r (copyin_copy_dead deadok t)
  unfolding copyin_copy_dead type_is_dead_name
  copy_dead-Outcome true t (bits, kind, counts) =
      let (pos, dn, there, hashed) =
        dead_name-facts t.bits t.refs t.request t.attached t.hashed t.port kind bits in
      (t, copied_dead, rw (bits, dn, there, lt→ltb 0 t.refs pos) refl, kind, counts)
  copy_dead-Outcome false t (bits, kind, counts) =
      let (pos, dn, there, hashed) =
        dead_name-facts t.bits t.refs t.request t.attached t.hashed t.port kind bits in
      (t, refused, rw (bits, dn, there, lt→ltb 0 t.refs pos) refl, kind, counts)

  move_dead-Outcome :
      (deadok : Bool) (t : Scene) → Buried n m r t → Outcome d n m r (copyin_move_dead deadok t)
  unfolding copyin_move_dead type_is_dead_name
  move_dead-Outcome false t (bits, kind, counts) =
      let (pos, dn, there, hashed) =
        dead_name-facts t.bits t.refs t.request t.attached t.hashed t.port kind bits in
      (t, refused, rw (bits, dn, there, lt→ltb 0 t.refs pos) refl, kind, counts)
  move_dead-Outcome true t (bits, kind, counts) =
      let (pos, dn, there, hashed) =
        dead_name-facts t.bits t.refs t.request t.attached t.hashed t.port kind bits in
      elim (Bool-cases (ltb 1 t.refs)) [
        | inl more ↦ (
          record t { refs = t.refs - 1 },
          copied_dead,
          rw (bits, dn, there, lt→ltb 0 t.refs pos, more) refl,
          rw (bits, dn, there, hashed) (dead_name (ground arith)),
          counts,
        )
        | inr last ↦ (
          record t { bits = bits_of false false false false },
          copied_dead,
          rw (bits, dn, there, lt→ltb 0 t.refs pos, last) refl,
          rw (dn, there, hashed) (empty pos),
          subst
              (λ b.
                (t.port.refs ≡ bit t.attached + r)
                × (t.port.active ≡ true → t.port.srights ≡ bit b.send + n)
                × (t.port.active ≡ true → t.port.sorights ≡ bit b.send_once + m))
              bits counts,
        )
      ]

-- An entry with all its fields.
abbrev pub entry : Bits → ℕ → Option ℕ → Bool → Bool → Bool → Port → List Notice → Scene
entry b refs dn there hashed present p notices = record {
  bits = b;
  refs = refs;
  request = dn;
  attached = there;
  hashed = hashed;
  present = present;
  port = p;
  notices = notices;
}
