-- ===== src/Ipc/Right/Undo/Restore.antt =====
-- What a copyin that is undone leaves.
use nextbsd_kernel.Prelude.{
  ℕ, ◌+◌, ◌-◌, ◌<◌, ◌≡◌, ◌⊎◌, refl, sym, subst, inl, inr, Bool, true, false, not, Option, none,
  some, List, ◌==◌, if◌then◌else◌, ltb, lt→ltb, arith, Bool-cases,
}
use nextbsd_kernel.Ipc.Right.{
  Port, Notice, Scene, assert◌then◌, is_none, no_type, type_is_none, type_is_send,
  type_is_dead_name, has_send_rights, right_check, bury, drop_request, dncancel,
}
use nextbsd_kernel.Ipc.Right.Transfer.{
  Disposition, copy_send, move_send, copied, copyin, copyin_copy_send, copy_checked,
  copyin_move_send, move_checked, move_last_send,
}
use nextbsd_kernel.Ipc.Right.Valid.{bit, naming, send_bits}
use nextbsd_kernel.Ipc.Right.Undo.{
  is_move, is_copy, is_send_move, undo_gone, undo_reference, after_check, undo_send, undo_entry,
  release_object, copyin_undo,
}

-- The port dies.
abbrev pub died : Scene → Scene
died s = record s { port = record s.port { active = false } }

-- The user references of the dead name.
abbrev pub kept_refs : Disposition → ℕ → Option ℕ → ℕ
kept_refs move_send refs dn = if refs == 1 then 1 else refs + bit (not (is_none dn))
kept_refs d refs dn = refs + bit (not (is_none dn))

-- The entry after a copyin that is undone.
abbrev pub Restored : Disposition → Scene → Scene → Type 0
Restored d s u =
    (type_is_dead_name u.bits ≡ true)
    × (u.attached ≡ false)
    × (u.request ≡ none)
    × (u.refs ≡ kept_refs d s.refs s.request)
    × (u.port.refs + 1 ≡ s.port.refs)

abbrev pub Undone : Disposition → Scene → Type 0
Undone d s =
    (t : Scene) × (dn : Option ℕ) × (u : Scene) × (copyin d false s ≡ some (t, copied dn))
    × (copyin_undo d false dn (died t) ≡ some u)
    × Restored d s u

-- The entry of a send right to a live port.
abbrev alive : ℕ → Option ℕ → Bool → Port → List Notice → Scene
alive refs dn present p notices =
    naming send_bits true refs dn present (record p { active = true }) notices

-- The dead name that is left.
abbrev dead : ℕ → Bool → Port → List Notice → Scene
dead refs present p notices = record {
  bits = record no_type { dead_name = true };
  refs = refs;
  request = none;
  attached = false;
  hashed = false;
  present = present;
  port = p;
  notices = notices;
}

-- The port with one send right more, which the message has.
abbrev more_sends : Port → Port
more_sends p = record p { active = true; srights = p.srights + 1; refs = p.refs + 1 }

abbrev released_twice : Port → Port
released_twice p = record p { active = false; srights = p.srights + 1; refs = p.refs + 1 - 1 - 1 }

module _ (present : Bool) (p : Port) (notices : List Notice) (sends : 0 < p.srights)
    (held : 0 < p.refs) where
  undo-copy :
      (refs : ℕ) (dn : Option ℕ) → 0 < refs → Undone copy_send (alive refs dn present p notices)
  unfolding copyin copyin_copy_send copy_checked has_send_rights right_check copyin_undo is_move
      is_copy is_send_move undo_entry undo_send undo_reference after_check release_object
      type_is_none type_is_dead_name type_is_send bury drop_request
  undo-copy refs none more = (
    naming send_bits true refs none present (more_sends p) notices,
    none,
    dead refs present (released_twice p) notices,
    rw (lt→ltb 0 refs more, lt→ltb 0 p.srights sends) refl,
    rw (lt→ltb 0 refs more) refl,
    (refl, refl, refl, omega arith, omega arith),
  )
  undo-copy refs (some so) more = (
    naming send_bits true refs (some so) present (more_sends p) notices,
    none,
    dead (refs + 1) present (released_twice p) notices,
    rw (lt→ltb 0 refs more, lt→ltb 0 p.srights sends) refl,
    rw (lt→ltb 0 refs more) refl,
    (refl, refl, refl, refl, omega arith),
  )

  undo-last : (dn : Option ℕ) → Undone move_send (alive 1 dn present p notices)
  unfolding copyin copyin_move_send move_checked move_last_send has_send_rights right_check dncancel
      copyin_undo is_move is_copy undo_entry undo_gone release_object type_is_none type_is_dead_name
      type_is_send
  undo-last dn =
      let t : Scene = record {
        bits = record send_bits { send = false };
        refs = 1;
        request = none;
        attached = false;
        hashed = false;
        present = present;
        port = record p { active = true };
        notices = notices;
      } in
      let left = record p { active = false; refs = p.refs - 1 } in
      (
        t,
        dn,
        dead 1 present left notices,
        rw (lt→ltb 0 p.srights sends) refl,
        gone dn,
        (refl, refl, refl, refl, omega arith),
      )
    where
      gone :
          (dn : Option ℕ)
          → copyin_undo move_send false dn (
              died (record {
                bits = record send_bits { send = false };
                refs = 1;
                request = none;
                attached = false;
                hashed = false;
                present = present;
                port = record p { active = true };
                notices = notices;
              }))
            ≡ some (dead 1 present (record p { active = false; refs = p.refs - 1 }) notices)
      gone none = refl
      gone (some so) = refl

  undo-move :
      (refs : ℕ) (dn : Option ℕ) → 1 < refs → Undone move_send (alive refs dn present p notices)
  unfolding copyin copyin_move_send move_checked has_send_rights right_check copyin_undo is_move
      is_copy is_send_move undo_entry undo_send undo_reference after_check release_object
      type_is_none type_is_dead_name type_is_send bury drop_request
  undo-move refs none more =
      let several : (refs == 1) ≡ false = ground arith in
      let some_refs : ltb 0 refs ≡ true = ground arith in
      let left : ltb 0 (refs - 1) ≡ true = ground arith in
      let back : ltb 0 (refs - 1 + 1) ≡ true = ground arith in
      (
        naming send_bits true (refs - 1) none present (more_sends p) notices,
        none,
        dead (refs - 1 + 1) present (released_twice p) notices,
        rw (some_refs, lt→ltb 0 p.srights sends, several, lt→ltb 1 refs more) refl,
        rw (left, back) refl,
        (refl, refl, refl, rw several (omega arith), omega arith),
      )
  undo-move refs (some so) more =
      let several : (refs == 1) ≡ false = ground arith in
      let some_refs : ltb 0 refs ≡ true = ground arith in
      let left : ltb 0 (refs - 1) ≡ true = ground arith in
      let back : ltb 0 (refs - 1 + 1) ≡ true = ground arith in
      (
        naming send_bits true (refs - 1) (some so) present (more_sends p) notices,
        none,
        dead (refs - 1 + 1 + 1) present (released_twice p) notices,
        rw (some_refs, lt→ltb 0 p.srights sends, several, lt→ltb 1 refs more) refl,
        rw (left, back) refl,
        (refl, refl, refl, rw several (omega arith), omega arith),
      )

  -- The moves of a send right.
  undo-sends :
      (d : Disposition) (refs : ℕ) (dn : Option ℕ)
      → (d ≡ copy_send) ⊎ (d ≡ move_send)
      → 0 < refs
      → Undone d (alive refs dn present p notices)
  undo-sends d refs dn (inl copies) more =
      subst (λ x. Undone x (alive refs dn present p notices)) (sym copies) (undo-copy refs dn more)
  undo-sends d refs dn (inr moves) more =
      subst (λ x. Undone x (alive refs dn present p notices)) (sym moves)
        (elim (Bool-cases (refs == 1)) [
          | inl one ↦
              let is : refs ≡ 1 = ground arith in
              subst (λ n. Undone move_send (alive n dn present p notices)) (sym is) (undo-last dn)
          | inr several ↦ undo-move refs dn (ground arith)
        ])

-- `ipc_right_copyin` of a send right, moved or copied, and then `ipc_right_copyin_undo` after the
-- port has died: no assertion fails, and all references of the port that the entry or the message
-- had are released. The entry is a dead name with the user references that it had, and one more for
-- a dead-name request; but where the last reference was moved, that one more is missing.
pub copyin_undo-Restored :
    (d : Disposition) (refs : ℕ) (dn : Option ℕ) (present : Bool) (p : Port) (notices : List Notice)
    → (d ≡ copy_send) ⊎ (d ≡ move_send)
    → p.active ≡ true
    → 0 < p.srights
    → 0 < p.refs
    → 0 < refs
    → Undone d (naming send_bits true refs dn present p notices)
copyin_undo-Restored d refs dn present p notices which act sends held more =
    subst (λ b. Undone d (naming send_bits true refs dn present (record p { active = b }) notices))
      (sym act) (undo-sends present p notices sends held d refs dn which more)
