-- ===== src/Registry/Watch/Emit.antt =====
-- An emission sends to every live watch that asks for the event, once, and prunes the dead ones.
use nextbsd_kernel.Prelude.{
  ◌⊎◌, ℕ, suc, ◌+◌, ◌-◌, ◌%◌, ◌^◌, ◌<◌, ◌≤◌, ◌≡◌, refl, sym, ap, subst, ◌∙◌, inl, inr, Bool, true,
  false, ◌&&◌, List, [], ◌∷◌, ◌++◌, ◌==◌, length, keep, map, arith, Bool-cases, length-append,
}
use nextbsd_kernel.Registry.Node.{Node}
use nextbsd_kernel.Registry.Watch.{
  Kind, Watch, Watches, Ports, release_port, event_msg, notify_send, Snap, first_pass, second_pass,
  emit_event_node,
}
use nextbsd_kernel.Registry.Watch.Pass.{
  pruned, stays, taken, is_alive, asks, Round, prune, skip, full, take, first_pass-Round,
}

-- The count is right and has not wrapped.
abbrev pub IsWatches : Watches → Type 0
IsWatches w = (w.count ≡ length w.watches) × (w.count < 2 ^ 32)

append-nil {ℓ} : {A : Type ℓ} (xs : List A) → xs ++ [] ≡ xs
append-nil [] = refl
append-nil (x ∷ xs) = ap (◌∷◌ x) (append-nil xs)

append-cons {ℓ} : {A : Type ℓ} (xs ys : List A) (x : A) → (xs ++ x ∷ []) ++ ys ≡ xs ++ x ∷ ys
append-cons [] ys x = refl
append-cons (y ∷ xs) ys x = ap (◌∷◌ y) (append-cons xs ys x)

length-keep-le : (p : Watch → Bool) (ws : List Watch) → length (keep p ws) ≤ length ws
length-keep-le p [] = omega arith
length-keep-le p (w ∷ ws) = ground (arith, length-keep-le p ws)

module _ (ports : Ports) (n : Node) (k : Kind) where
  -- The watches that a message is for, and their ports.
  abbrev pub takes_event : Watch → Bool
  takes_event w = is_alive ports n k w && asks ports n k w

  abbrev pub takers : List Watch → List ℕ
  takers ws = map (λ w. w.port) (keep takes_event ws)

  -- A message to the port goes out.
  unfoldable pub reaches : ℕ → Bool
  reaches p = ports.still_active p && ports.memory p

  -- What the first pass leaves.
  abbrev pub Passed : Snap → List Watch → Snap → Type 0
  Passed s ws t =
      (t.kept ≡ s.kept ++ keep (is_alive ports n k) ws)
      × (t.ports ≡ s.ports ++ takers ws)
      × (t.count + length ws ≡ s.count + length (keep (is_alive ports n k) ws))

  -- The pass does so from any state with room for the watches to come.
  abbrev Passes : ℕ → List Watch → Type 0
  Passes cap ws =
      (s : Snap)
      → length s.ports + length ws ≤ cap
      → length ws ≤ s.count
      → s.count < 2 ^ 32
      → Passed s ws (first_pass ports n k cap s ws)

  round-Passed :
      (cap : ℕ) (s : Snap) (w : Watch) (ws : List Watch) (t : Snap)
      → Passes cap ws
      → length s.ports + suc (length ws) ≤ cap
      → suc (length ws) ≤ s.count
      → s.count < 2 ^ 32
      → Round ports n k cap s w ws t
      → Passed s (w ∷ ws) t
  round-Passed cap s w ws t passes room some_left small (prune dead is) =
      let fewer : (s.count + (2 ^ 32 - 1)) % 2 ^ 32 ≡ s.count - 1 = omega arith in
      let (kept, ps, count) =
        passes (pruned s w) (omega arith) (omega (arith, fewer)) (omega (arith, fewer)) in
      (rw (is, dead) kept, rw (is, dead) ps, rw (is, dead) (omega (arith, count, fewer)))
  round-Passed cap s w ws t passes room some_left small (skip alive off is) =
      let (kept, ps, count) = passes (stays s w) (omega arith) (omega arith) small in
      (
        rw (is, alive) (kept ∙ append-cons s.kept (keep (is_alive ports n k) ws) w),
        rw (is, alive, off) ps,
        rw (is, alive) (omega (arith, count)),
      )
  round-Passed cap s w ws t passes room some_left small (full no_room is) =
      absurd (omega (arith, no_room, room))
  round-Passed cap s w ws t passes room some_left small (take alive on is) =
      let (kept, ps, count) =
        passes (taken s w) (omega (arith, length-append s.ports (w.port ∷ []))) (omega arith)
          small in
      (
        rw (is, alive) (kept ∙ append-cons s.kept (keep (is_alive ports n k) ws) w),
        rw (is, alive, on) (ps ∙ append-cons s.ports (takers ws) w.port),
        rw (is, alive) (omega (arith, count)),
      )

  first_pass-Passed : (cap : ℕ) (ws : List Watch) → Passes cap ws
  first_pass-Passed cap [] s room some_left small =
      unfold first_pass in (sym (append-nil s.kept), sym (append-nil s.ports), refl)
  first_pass-Passed cap (w ∷ ws) s room some_left small =
      round-Passed cap s w ws (first_pass ports n k cap s (w ∷ ws)) (first_pass-Passed cap ws) room
        some_left small (first_pass-Round ports n k cap s w ws)

  -- A send delivers its message, or releases its right.
  pub notify_send-cases :
      (w : Watches) (p : ℕ)
      → ((reaches p ≡ true)
          × ((notify_send ports n k w p).0 ≡ record w { sent = w.sent ++ event_msg n k p ∷ [] }))
        ⊎ ((reaches p ≡ false) × ((notify_send ports n k w p).0 ≡ release_port w p))
  unfolding notify_send reaches
  notify_send-cases w p = elim (Bool-cases (ports.still_active p)) [
    | inr dead ↦ inr (rw dead refl, rw dead refl)
    | inl alive ↦ elim (Bool-cases (ports.memory p)) [
      | inr short ↦ inr (rw (alive, short) refl, rw (alive, short) refl)
      | inl room ↦ inl (rw (alive, room) refl, rw (alive, room) refl)
    ]
  ]

  -- What the second pass leaves.
  abbrev Delivered : Watches → List ℕ → Watches → Type 0
  Delivered w ps v =
      (v.sent ≡ w.sent ++ map (event_msg n k) (keep reaches ps))
      × (v.watches ≡ w.watches)
      × (v.count ≡ w.count)

  second_pass-Delivered : (w : Watches) (ps : List ℕ) → Delivered w ps (second_pass ports n k w ps)
  unfolding second_pass release_port
  second_pass-Delivered w [] = (sym (append-nil w.sent), refl, refl)
  second_pass-Delivered w (p ∷ ps) = elim (notify_send-cases w p) [
    | inr (lost, is) ↦
        let (sent, ws, count) =
          subst (λ v. Delivered v ps (second_pass ports n k (notify_send ports n k w p).0 ps)) is
            (second_pass-Delivered (notify_send ports n k w p).0 ps) in
        (rw lost sent, ws, count)
    | inl (through, is) ↦
        let (sent, ws, count) =
          subst (λ v. Delivered v ps (second_pass ports n k (notify_send ports n k w p).0 ps)) is
            (second_pass-Delivered (notify_send ports n k w p).0 ps) in
        (
          rw through
              (sent ∙ append-cons w.sent (map (event_msg n k) (keep reaches ps)) (event_msg n k p)),
          ws,
          count,
        )
  ]

  -- The state of the first pass at its start.
  abbrev pub start : Watches → Snap
  start w = record { kept = []; count = w.count; rights = w.rights; ports = [] }

  -- The state between the passes.
  abbrev pub between : Watches → Snap → Watches
  between w s = record w { watches = s.kept; count = s.count; rights = s.rights }

  pub emit_event_node-none : (w : Watches) → (w.count == 0) ≡ true → emit_event_node ports n k w ≡ w
  unfolding emit_event_node
  emit_event_node-none w none_there = rw none_there refl

  pub emit_event_node-some :
      (w : Watches)
      → (w.count == 0) ≡ false
      → emit_event_node ports n k w ≡ (
          let s = first_pass ports n k w.count (start w) w.watches in
          second_pass ports n k (between w s) s.ports)
  unfolding emit_event_node
  emit_event_node-some w some_there = rw some_there refl

  empty_of_length : (ws : List Watch) → length ws ≡ 0 → ws ≡ []
  empty_of_length [] e = refl
  empty_of_length (w ∷ ws) e = absurd (omega arith)

  -- What an emission leaves.
  abbrev pub Emitted : Watches → Watches → Type 0
  Emitted w v =
      (v.watches ≡ keep (is_alive ports n k) w.watches)
      × (v.sent ≡ w.sent ++ map (event_msg n k) (keep reaches (takers w.watches)))
      × IsWatches v

  -- `ioreg_emit_event_node` removes exactly the watches whose port is dead, and sends the event
  -- once to each watch that stays, whose mask has the kind and whose criteria match the node, in
  -- the order of the registrations; a message is lost only if its port dies before the send or
  -- there is no memory for it. The watch count stays right.
  pub emit_event_node-sends : (w : Watches) → IsWatches w → Emitted w (emit_event_node ports n k w)
  emit_event_node-sends w (count, small) = elim (Bool-cases (w.count == 0)) [
    | inl none_there ↦
        let empty : w.watches ≡ [] = empty_of_length w.watches (ground arith) in
        subst (Emitted w) (sym (emit_event_node-none w none_there))
          (rw empty refl, rw empty (sym (append-nil w.sent)), (count, small))
    | inr some_there ↦
        let s = first_pass ports n k w.count (start w) w.watches in
        let (kept, ps, left) =
          first_pass-Passed w.count w.watches (start w) (omega (arith, count))
            (omega (arith, count)) small in
        let (sent, ws, number) = second_pass-Delivered (between w s) s.ports in
        let fewer = length-keep-le (is_alive ports n k) w.watches in
        subst (Emitted w) (sym (emit_event_node-some w some_there)) (
          ws ∙ kept,
          sent ∙ ap (λ q. w.sent ++ map (event_msg n k) (keep reaches q)) ps,
          (
            number
                ∙ counted w.count (length w.watches) s.count
                    (length (keep (is_alive ports n k) w.watches)) count left
                ∙ ap length (sym (ws ∙ kept)),
            omega (arith, number, left, fewer, count, small),
          ),
        )
  ]
    where
      counted : (c l t a : ℕ) → c ≡ l → t + l ≡ c + a → t ≡ a
      counted c l t a e f = omega arith
