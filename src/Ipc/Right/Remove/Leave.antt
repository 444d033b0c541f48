-- ===== src/Ipc/Right/Remove/Leave.antt =====
-- How an active port loses the rights of an entry that goes.
use nextbsd_kernel.Prelude.{
  ℕ, ◌+◌, ◌-◌, ◌≡◌, refl, sym, ap, ◌∙◌, inl, inr, true, false, Option, none, some, List, [], ◌∷◌,
  ◌++◌, ◌==◌, if◌then◌else◌, lt→ltb, arith, Bool-cases,
}
use nextbsd_kernel.Ipc.Right.{
  Bits, Port, Notice, send_once_used, destroyed, sent_to_backup, Scene, assert◌then◌, ip_release,
  drop_send,
}
use nextbsd_kernel.Ipc.Right.Valid.{bit}
use nextbsd_kernel.Ipc.Right.Dealloc.{Gone, senders_notice, silent}
use nextbsd_kernel.Ipc.Right.Remove.{destroy_port, use_send_once, drop_if_send, leave_port}

-- What is said of the port itself.
abbrev pub port_notice : Bits → Option ℕ → List Notice
port_notice b backup =
    if b.receive
    then elim backup [ none ↦ destroyed ∷ [] | some pd ↦ sent_to_backup pd ∷ [] ]
    else if b.send_once
    then send_once_used ∷ []
    else []

-- The no-senders notification that is due for the send right of an entry.
abbrev pub send_notice : Bits → ℕ → Port → List Notice
send_notice b n p = if b.send then senders_notice n p.nsrequest p.mscount else []

-- The port once the entry is gone: it has died with its receive right, or the receive right is on
-- its way to the backup with the reference of the entry, or just the rights of the entry are gone.
abbrev pub Left : Bits → Option ℕ → Scene → ℕ → ℕ → ℕ → Type 0
Left b backup s n m r =
    if b.receive
    then elim backup [
      | none ↦ (s.port.active ≡ false) × (s.port.refs ≡ r)
      | some pd ↦ Gone s n m (r + 1)
    ]
    else Gone s n m r

-- The port without a send right of the entry, and the no-senders request that is due.
pub record Dropped (p : Port) (n mscount : ℕ) (q : Port) (ns : Option ℕ) : Type 0 where
  pub rights : q.srights ≡ n
  pub refs_same : q.refs ≡ p.refs
  pub onces_same : q.sorights ≡ p.sorights
  pub active_same : q.active ≡ p.active
  pub here_same : q.receiver_here ≡ p.receiver_here
  pub due : senders_notice 0 ns mscount ≡ senders_notice n p.nsrequest mscount

pub drop_if_send-Dropped :
    (s : Scene) (n m r : ℕ)
    → s.bits.send ≡ true
    → s.port.srights ≡ 1 + n
    → (q : Port) × (ns : Option ℕ) × (drop_if_send s ≡ some (record s { port = q }, ns))
      × Dropped s.port n s.port.mscount q ns
unfolding drop_if_send drop_send
drop_if_send-Dropped s n m r has count =
    let some_right = lt→ltb 0 s.port.srights (omega (arith, count)) in
    elim (Bool-cases (s.port.srights - 1 == 0)) [
      | inl last ↦
          let none_left : n ≡ 0 = ground (arith, last, count) in
          (
            record s.port { srights = s.port.srights - 1; nsrequest = none },
            s.port.nsrequest,
            rw (has, some_right, last) refl,
            record {
              rights = omega (arith, count);
              refs_same = refl;
              onces_same = refl;
              active_same = refl;
              here_same = refl;
              due = rw none_left refl;
            },
          )
      | inr more ↦
          let some_left : (n == 0) ≡ false = ground (arith, more, count) in
          (
            record s.port { srights = s.port.srights - 1 },
            none,
            rw (has, some_right, more) refl,
            record {
              rights = omega (arith, count);
              refs_same = refl;
              onces_same = refl;
              active_same = refl;
              here_same = refl;
              due = sym (silent n m r n s.port.nsrequest s.port.mscount some_left);
            },
          )
    ]

append-nil : (xs : List Notice) → xs ++ [] ≡ xs
append-nil [] = refl
append-nil (x ∷ xs) = ap (◌∷◌ x) (append-nil xs)

-- An active port that an entry of some type is about to leave.
pub record Leaving (s : Scene) (n m r : ℕ) : Type 0 where
  pub act : s.port.active ≡ true
  pub held : s.port.refs ≡ 1 + r
  pub sends_left : s.port.srights ≡ n
  pub onces_left : s.port.sorights ≡ bit s.bits.send_once + m
  pub here : s.port.receiver_here ≡ s.bits.receive
  pub single : s.bits.receive ≡ true → s.bits.send_once ≡ false

leave_port-sent :
    (backup : Option ℕ) (s : Scene) (n m r : ℕ)
    → Leaving s n m r
    → s.bits.receive ≡ false
    → (t : Scene) × (leave_port backup s ≡ some t)
      × (t.present ≡ s.present)
      × (t.notices ≡ s.notices ++ port_notice s.bits backup)
      × Left s.bits backup t n m r
unfolding leave_port use_send_once
leave_port-sent backup s n m r v sent = elim (Bool-cases s.bits.send_once) [
  | inl once ↦
      let count = v.onces_left ∙ ap (λ b. bit b + m) once in
      (
        use_send_once s,
        rw (sent, once, lt→ltb 0 s.port.sorights (omega (arith, count))) refl,
        refl,
        rw (sent, once) refl,
        rw sent (omega (arith, v.held), λ a. v.sends_left, λ a. omega (arith, count)),
      )
  | inr many ↦
      let count = v.onces_left ∙ ap (λ b. bit b + m) many in
      (
        ip_release s,
        rw (sent, many, v.here ∙ sent) refl,
        refl,
        rw (sent, many) (sym (append-nil s.notices)),
        rw sent (omega (arith, v.held), λ a. v.sends_left, λ a. omega (arith, count)),
      )
]

pub leave_port-Left :
    (backup : Option ℕ) (s : Scene) (n m r : ℕ)
    → Leaving s n m r
    → (t : Scene) × (leave_port backup s ≡ some t)
      × (t.present ≡ s.present)
      × (t.notices ≡ s.notices ++ port_notice s.bits backup)
      × Left s.bits backup t n m r
unfolding leave_port destroy_port
leave_port-Left none s n m r v = elim (Bool-cases s.bits.receive) [
  | inl rec ↦ (
    destroy_port none s,
    rw (rec, v.act, v.here ∙ rec) refl,
    refl,
    rw rec refl,
    rw rec (refl, omega (arith, v.held)),
  )
  | inr sent ↦ leave_port-sent none s n m r v sent
]
leave_port-Left (some pd) s n m r v = elim (Bool-cases s.bits.receive) [
  | inl rec ↦
      let count = v.onces_left ∙ ap (λ b. bit b + m) (v.single rec) in
      (
        destroy_port (some pd) s,
        rw (rec, v.act, v.here ∙ rec) refl,
        refl,
        rw rec refl,
        rw rec (omega (arith, v.held), λ a. v.sends_left, λ a. omega (arith, count)),
      )
  | inr sent ↦ leave_port-sent (some pd) s n m r v sent
]
