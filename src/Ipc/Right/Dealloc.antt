-- ===== src/Ipc/Right/Dealloc.antt =====
-- `ipc_right_dealloc`: one user reference is given back, and the last one takes the right along.
use nextbsd_kernel.Prelude.{
  ℕ, ◌+◌, ◌-◌, ◌≡◌, refl, sym, ap, ◌∙◌, inl, inr, Bool, true, false, not, ◌&&◌, ◌||◌, Option, none,
  some, List, [], ◌∷◌, ◌++◌, ◌==◌, if◌then◌else◌, ltb, lt→ltb, arith, Bool-cases,
}
use nextbsd_kernel.Ipc.Right.{
  Bits, Port, Notice, no_senders, port_deleted, send_once_used, Scene, assert◌then◌, dncancel,
  notify_deleted, notify_no_senders, entry_dealloc, drop_send, Kern, success, dealloc_dead,
  dealloc_send_once, dealloc_last_send,
}
use nextbsd_kernel.Ipc.Right.Valid.{
  bit, bits_of, dead_name, HasKind, Counts, naming, send_bits, once_bits, Buried,
}
use nextbsd_kernel.Ipc.Right.Copyin.{entry, dead_name-facts}

-- The counts once the entry is gone from the space.
abbrev pub Gone : Scene → ℕ → ℕ → ℕ → Type 0
Gone s n m r =
    (s.port.refs ≡ r)
    × (s.port.active ≡ true → s.port.srights ≡ n)
    × (s.port.active ≡ true → s.port.sorights ≡ m)

-- The notification of the no-senders request, if there is one and the last send right is gone.
abbrev pub senders_notice : ℕ → Option ℕ → ℕ → List Notice
senders_notice left none mscount = []
senders_notice left (some ns) mscount = if left == 0 then no_senders ns mscount ∷ [] else []

abbrev pub deleted_notice : Option ℕ → List Notice
deleted_notice none = []
deleted_notice (some so) = port_deleted so ∷ []

-- `ipc_right_check` finds the port of a send or a send-once right dead; the reference of a
-- dead-name request then becomes a user reference of the dead name.
abbrev pub finds_dead : Scene → Bool
finds_dead s = (s.bits.send || s.bits.send_once) && not s.port.active

abbrev pub request_refs : Option ℕ → ℕ
request_refs none = 0
request_refs (some so) = 1

-- The user references and the bits that a release starts from.
abbrev pub held : Scene → ℕ
held s = if finds_dead s then s.refs + request_refs s.request else s.refs

abbrev pub held_bits : Scene → Bits
held_bits s = if finds_dead s then bits_of false false false true else s.bits

-- What a release takes from `s`: one of several user references and nothing else; the send right,
-- with the last user reference of an entry that also receives; or the entry, with its last user
-- reference.
pub data Taken (s : Scene) (n m r : ℕ) (t : Scene) : Type 0 where
  reference_less :
      t.refs + 1 ≡ held s
      → t.bits ≡ held_bits s
      → t.notices ≡ s.notices
      → t.present ≡ s.present
      → HasKind t
      → Counts t n m r
      → Taken s n m r t
  send_less :
      held s ≡ 1
      → s.bits ≡ bits_of true true false false
      → t.bits ≡ bits_of false true false false
      → t.refs ≡ 1
      → t.notices ≡ s.notices ++ senders_notice n s.port.nsrequest s.port.mscount
      → t.present ≡ s.present
      → HasKind t
      → Counts t n m r
      → Taken s n m r t
  entry_less :
      held s ≡ 1 → s.bits.receive ≡ false → t.present ≡ false → Gone t n m r → Taken s n m r t

-- What a release must give.
abbrev pub Released : Scene → ℕ → ℕ → ℕ → Option (Scene × Kern) → Type 0
Released s n m r o = (t : Scene) × (o ≡ some (t, success)) × Taken s n m r t

module _ (n m r : ℕ) where
  pub dead-Released :
      (s t : Scene)
      → s.bits.receive ≡ false
      → t.refs ≡ held s
      → held_bits s ≡ bits_of false false false true
      → t.notices ≡ s.notices
      → t.present ≡ s.present
      → Buried n m r t
      → Released s n m r (dealloc_dead t)
  unfolding dealloc_dead entry_dealloc
  dead-Released s t alone refs held_dead ns pres (bits, kind, (c, se, o)) =
      let (pos, dn, there, hashed) =
        dead_name-facts t.bits t.refs t.request t.attached t.hashed t.port kind bits in
      elim (Bool-cases (ltb 1 t.refs)) [
        | inl more ↦
            let restored : t.refs - 1 + 1 ≡ t.refs = ground (arith, more) in
            (
              record t { refs = t.refs - 1 },
              rw (dn, there, lt→ltb 0 t.refs pos, more) refl,
              reference_less (restored ∙ refs) (bits ∙ sym held_dead) ns pres
                  (rw (bits, dn, there, hashed) (dead_name (ground arith))) (c, se, o),
            )
        | inr last ↦ (
          record t { present = false; refs = t.refs - 1 },
          rw (dn, there, hashed, lt→ltb 0 t.refs pos, last) refl,
          entry_less (sym refs ∙ ground (arith, last, pos)) alone refl (
            omega (arith, c, ap bit there),
            λ a. omega (arith, se a, ap (λ b. bit b.send) bits),
            λ a. omega (arith, o a, ap (λ b. bit b.send_once) bits),
          ),
        )
      ]

  pub once-Released :
      (refs : ℕ) (dn : Option ℕ) (present : Bool) (p : Port) (notices : List Notice)
      → refs ≡ 1
      → p.active ≡ true
      → (let s = naming once_bits false refs dn present p notices in
          Counts s n m r → Released s n m r (dealloc_send_once (some (s, false))))
  unfolding dealloc_send_once dncancel entry_dealloc notify_deleted
  once-Released refs none present p notices one act (c, se, o) =
      let some_right = lt→ltb 0 p.sorights (omega (arith, o act)) in
      (
        entry once_bits (refs - 1) none false false false
            (record p { sorights = p.sorights - 1; refs = p.refs - 1 })
            (notices ++ send_once_used ∷ []),
        rw some_right refl,
        entry_less (rw act one) refl refl
            (omega (arith, c), λ a. omega (arith, se a), λ a. omega (arith, o a)),
      )
  once-Released refs (some so) present p notices one act (c, se, o) =
      let some_right = lt→ltb 0 p.sorights (omega (arith, o act)) in
      (
        entry once_bits (refs - 1) none false false false
            (record p { sorights = p.sorights - 1; refs = p.refs - 1 })
            ((notices ++ send_once_used ∷ []) ++ port_deleted so ∷ []),
        rw some_right refl,
        entry_less (rw act one) refl refl
            (omega (arith, c), λ a. omega (arith, se a), λ a. omega (arith, o a)),
      )

  -- The release of the last reference of a send right, with the notifications.
  abbrev pub LastSend : Option ℕ → Port → List Notice → Option (Scene × Kern) → Type 0
  LastSend dn p notices o =
      (s : Scene) × (o ≡ some (s, success))
      × (s.notices ≡ (notices ++ senders_notice n p.nsrequest p.mscount) ++ deleted_notice dn)
      × (s.present ≡ false)
      × Gone s n m r

  pub append-nil : (xs : List Notice) → xs ++ [] ≡ xs
  append-nil [] = refl
  append-nil (x ∷ xs) = ap (◌∷◌ x) (append-nil xs)

  pub notified :
      (ns dn : Option ℕ) (mscount : ℕ) (s : Scene)
      → ((notify_deleted dn (notify_no_senders ns mscount s)).notices
          ≡ (s.notices ++ senders_notice 0 ns mscount) ++ deleted_notice dn)
        × ((notify_deleted dn (notify_no_senders ns mscount s)).port ≡ s.port)
        × ((notify_deleted dn (notify_no_senders ns mscount s)).present ≡ s.present)
  unfolding notify_deleted notify_no_senders
  notified none none mscount s =
      (sym (append-nil (s.notices ++ []) ∙ append-nil s.notices), refl, refl)
  notified none (some so) mscount s =
      (ap (λ l. l ++ port_deleted so ∷ []) (sym (append-nil s.notices)), refl, refl)
  notified (some ns) none mscount s =
      (sym (append-nil (s.notices ++ no_senders ns mscount ∷ [])), refl, refl)
  notified (some ns) (some so) mscount s = (refl, refl, refl)

  pub silent :
      (left : ℕ) (ns : Option ℕ) (mscount : ℕ)
      → (left == 0) ≡ false
      → senders_notice left ns mscount ≡ []
  silent left none mscount more = refl
  silent left (some ns) mscount more = rw more refl

  -- The scene that the notifications start from.
  unfoldable final : ℕ → Port → List Notice → Scene
  final refs q notices = entry send_bits (refs - 1) none false false false q notices

  last_send-none :
      (refs : ℕ) (dn : Option ℕ) (present : Bool) (p : Port) (notices : List Notice)
      → (p.srights - 1 == 0) ≡ true
      → dealloc_last_send (naming send_bits true refs dn present p notices)
        ≡ some (
          notify_deleted dn (
              notify_no_senders p.nsrequest p.mscount (
                final refs
                  (record p { srights = p.srights - 1; nsrequest = none; refs = p.refs - 1 })
                  notices)),
          success,
        )
  unfolding dealloc_last_send dncancel entry_dealloc drop_send final
  last_send-none refs dn present p notices last = rw last refl

  last_send-some :
      (refs : ℕ) (dn : Option ℕ) (present : Bool) (p : Port) (notices : List Notice)
      → (p.srights - 1 == 0) ≡ false
      → dealloc_last_send (naming send_bits true refs dn present p notices)
        ≡ some (
          notify_deleted dn (
              notify_no_senders none p.mscount
                (final refs (record p { srights = p.srights - 1; refs = p.refs - 1 }) notices)),
          success,
        )
  unfolding dealloc_last_send dncancel entry_dealloc drop_send final
  last_send-some refs dn present p notices more = rw more refl

  pub last-LastSend :
      (refs : ℕ) (dn : Option ℕ) (present : Bool) (p : Port) (notices : List Notice)
      → p.active ≡ true
      → (let s = naming send_bits true refs dn present p notices in
          Counts s n m r → LastSend dn p notices (dealloc_last_send s))
  unfolding final
  last-LastSend refs dn present p notices act (c, se, o) = elim (Bool-cases (p.srights - 1 == 0)) [
    | inl last ↦
        let q = record p { srights = p.srights - 1; nsrequest = none; refs = p.refs - 1 } in
        let (told, port, gone) = notified p.nsrequest dn p.mscount (final refs q notices) in
        let none_left : n ≡ 0 = ground (arith, last, se act) in
        (
          notify_deleted dn (notify_no_senders p.nsrequest p.mscount (final refs q notices)),
          last_send-none refs dn present p notices last,
          rw none_left told,
          gone,
          (
            ap (λ x. x.refs) port ∙ omega (arith, c),
            λ a. ap (λ x. x.srights) port ∙ omega (arith, se act),
            λ a. ap (λ x. x.sorights) port ∙ omega (arith, o act),
          ),
        )
    | inr more ↦
        let q = record p { srights = p.srights - 1; refs = p.refs - 1 } in
        let (told, port, gone) = notified none dn p.mscount (final refs q notices) in
        let some_left : (n == 0) ≡ false = ground (arith, more, se act) in
        (
          notify_deleted dn (notify_no_senders none p.mscount (final refs q notices)),
          last_send-some refs dn present p notices more,
          told
              ∙ ap (λ l. (notices ++ l) ++ deleted_notice dn)
                  (sym (silent n p.nsrequest p.mscount some_left)),
          gone,
          (
            ap (λ x. x.refs) port ∙ omega (arith, c),
            λ a. ap (λ x. x.srights) port ∙ omega (arith, se act),
            λ a. ap (λ x. x.sorights) port ∙ omega (arith, o act),
          ),
        )
  ]
