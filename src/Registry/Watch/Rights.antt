-- ===== src/Registry/Watch/Rights.antt =====
-- The send rights of the watches: each watch and each message holds one, and no other is left.
use nextbsd_kernel.Prelude.{
  ℕ, ◌+◌, ◌%◌, ◌≡◌, refl, sym, subst, inl, inr, List, [], ◌∷◌, ◌++◌, ◌==◌, if◌then◌else◌, foldl,
  arith, Bool-cases,
}
use nextbsd_kernel.Prelude.Result.{Result, ok, err}
use nextbsd_kernel.Registry.Node.{Node}
use nextbsd_kernel.Registry.Watch.{
  Kind, Watch, Event, Watches, Ports, drop_right, add_right, release_port, event_msg, notify_send,
  Snap, first_pass, second_pass, emit_event_node, WatchReg, append_watch, watch_register,
  watch_flush,
}
use nextbsd_kernel.Registry.Query.{bound_criteria}
use nextbsd_kernel.Registry.Watch.Pass.{
  pruned, stays, taken, Round, prune, skip, full, take, first_pass-Round,
}
use nextbsd_kernel.Registry.Watch.Emit.{
  notify_send-cases, start, between, emit_event_node-none, emit_event_node-some,
}

-- How many items of a list are for a port.
abbrev pub count_port {ℓ} : {A : Type ℓ} → (A → ℕ) → ℕ → List A → ℕ
count_port port p [] = 0
count_port port p (x ∷ xs) = (if port x == p then 1 else 0) + count_port port p xs

count_port-append {ℓ} :
    {A : Type ℓ} (port : A → ℕ) (p : ℕ) (xs ys : List A)
    → count_port port p (xs ++ ys) ≡ count_port port p xs + count_port port p ys
count_port-append port p [] ys = omega arith
count_port-append port p (x ∷ xs) ys = omega (arith, count_port-append port p xs ys)

abbrev of_watch : ℕ → List Watch → ℕ
of_watch p ws = count_port (λ w. w.port) p ws

abbrev of_event : ℕ → List Event → ℕ
of_event p es = count_port (λ e. e.port) p es

abbrev of_ref : ℕ → List ℕ → ℕ
of_ref p ps = count_port (λ q. q) p ps

-- The rights held for every port are those of the watches and of the messages.
abbrev pub Balanced : Watches → Type 0
Balanced w = (p : ℕ) → w.rights p ≡ of_watch p w.watches + of_event p w.sent

module _ (ports : Ports) (n : Node) (k : Kind) where
  -- A pass in progress, with `sent` rights in messages and the watches `ws` still to come.
  abbrev Holds : (ℕ → ℕ) → Snap → List Watch → Type 0
  Holds sent s ws =
      (p : ℕ) → s.rights p ≡ of_watch p s.kept + of_ref p s.ports + of_watch p ws + sent p

  round-Holds :
      (sent : ℕ → ℕ) (cap : ℕ) (s : Snap) (w : Watch) (ws : List Watch) (t : Snap)
      → ((s' : Snap) → Holds sent s' ws → Holds sent (first_pass ports n k cap s' ws) [])
      → Holds sent s (w ∷ ws)
      → Round ports n k cap s w ws t
      → Holds sent t []
  unfolding drop_right add_right
  round-Holds sent cap s w ws t passes h (prune dead is) =
      subst (λ u. Holds sent u []) (sym is) (passes (pruned s w) (λ p. ground (arith, h p)))
  round-Holds sent cap s w ws t passes h (skip alive off is) =
      subst (λ u. Holds sent u []) (sym is)
        (passes (stays s w)
          (λ p. omega (arith, h p, count_port-append (λ x. x.port) p s.kept (w ∷ []))))
  round-Holds sent cap s w ws t passes h (full no_room is) =
      subst (λ u. Holds sent u []) (sym is)
        (λ p. omega (arith, h p, count_port-append (λ x. x.port) p s.kept (w ∷ ws)))
  round-Holds sent cap s w ws t passes h (take alive on is) =
      subst (λ u. Holds sent u []) (sym is)
        (passes (taken s w) (λ p. ground (
          arith,
          h p,
          count_port-append (λ x. x.port) p s.kept (w ∷ []),
          count_port-append (λ q. q) p s.ports (w.port ∷ []),
        )))

  first_pass-Holds :
      (sent : ℕ → ℕ) (cap : ℕ) (ws : List Watch) (s : Snap)
      → Holds sent s ws
      → Holds sent (first_pass ports n k cap s ws) []
  first_pass-Holds sent cap [] s h = unfold first_pass in h
  first_pass-Holds sent cap (w ∷ ws) s h =
      round-Holds sent cap s w ws (first_pass ports n k cap s (w ∷ ws))
        (first_pass-Holds sent cap ws) h (first_pass-Round ports n k cap s w ws)

  -- The second pass, with the rights of the ports to come.
  abbrev Carries : Watches → List ℕ → Type 0
  Carries w ps = (p : ℕ) → w.rights p ≡ of_watch p w.watches + of_ref p ps + of_event p w.sent

  notify_send-Carries :
      (w : Watches) (q : ℕ) (ps : List ℕ)
      → Carries w (q ∷ ps)
      → Carries (notify_send ports n k w q).0 ps
  unfolding release_port drop_right event_msg
  notify_send-Carries w q ps h = elim (notify_send-cases ports n k w q) [
    | inl (through, is) ↦
        subst (λ v. Carries v ps) (sym is)
          (λ p. omega (arith, h p, count_port-append (λ e. e.port) p w.sent (event_msg n k q ∷ [])))
    | inr (lost, is) ↦ subst (λ v. Carries v ps) (sym is) (λ p. ground (arith, h p))
  ]

  second_pass-Balanced :
      (w : Watches) (ps : List ℕ) → Carries w ps → Balanced (second_pass ports n k w ps)
  unfolding second_pass
  second_pass-Balanced w [] h = λ p. omega (arith, h p)
  second_pass-Balanced w (q ∷ ps) h =
      second_pass-Balanced (notify_send ports n k w q).0 ps (notify_send-Carries w q ps h)

  -- `ioreg_emit_event_node` neither leaks nor over-releases a send right: the rights of a pruned
  -- watch and of a message that is not sent are released, and every other right stays with its
  -- watch or goes with its message.
  pub emit_event_node-Balanced : (w : Watches) → Balanced w → Balanced (emit_event_node ports n k w)
  emit_event_node-Balanced w h = elim (Bool-cases (w.count == 0)) [
    | inl none_there ↦ subst Balanced (sym (emit_event_node-none ports n k w none_there)) h
    | inr some_there ↦
        let s = first_pass ports n k w.count (start ports n k w) w.watches in
        let held =
          first_pass-Holds (λ p. of_event p w.sent) w.count w.watches (start ports n k w)
            (λ p. omega (arith, h p)) in
        subst Balanced (sym (emit_event_node-some ports n k w some_there))
          (second_pass-Balanced (between ports n k w s) s.ports (λ p. omega (arith, held p)))
  ]

append_watch-Balanced :
    (w : Watches) (wr : WatchReg) (r : Result ℕ) → Balanced w → Balanced (append_watch w wr r).0
unfolding append_watch add_right
append_watch-Balanced w wr (err e) h = h
append_watch-Balanced w wr (ok q) h = λ p.
    let new : Watch = record {
      criteria = bound_criteria wr.criteria;
      mask = wr.event_mask;
      port = q;
    } in
    ground (arith, h p, count_port-append (λ x. x.port) p w.watches (new ∷ []))

-- `ioreg_watch_register` keeps the balance: a registration that is refused takes no send right,
-- and one that succeeds gives the right it took to the new watch.
pub watch_register-Balanced :
    (copyin : ℕ → Result ℕ) (w : Watches) (wr : WatchReg)
    → Balanced w
    → Balanced (watch_register copyin w wr).0
unfolding watch_register
watch_register-Balanced copyin w wr h = elim (Bool-cases (wr.notify_port == 0)) [
  | inl nameless ↦ rw nameless h
  | inr named ↦ elim (Bool-cases (wr.event_mask % 8 == 0)) [
    | inl nothing ↦ rw (named, nothing) h
    | inr something ↦ rw (named, something) (append_watch-Balanced w wr (copyin wr.notify_port) h)
  ]
]

releases :
    (w : Watches) (ws : List Watch) (p n : ℕ)
    → w.rights p ≡ of_watch p ws + n
    → (foldl (λ v x. release_port v x.port) w ws).rights p ≡ n
unfolding release_port drop_right
releases w [] p n h = omega (arith, h)
releases w (x ∷ ws) p n h = releases (release_port w x.port) ws p n (ground (arith, h))

releases_sent :
    (w : Watches) (ws : List Watch) → (foldl (λ v x. release_port v x.port) w ws).sent ≡ w.sent
unfolding release_port
releases_sent w [] = refl
releases_sent w (x ∷ ws) = releases_sent (release_port w x.port) ws

-- `ioreg_watch_flush` leaves no watch and releases the send right of each: what is left is held by
-- the messages.
pub watch_flush-releases :
    (w : Watches)
    → Balanced w
    → ((watch_flush w).watches ≡ []) × ((p : ℕ) → (watch_flush w).rights p ≡ of_event p w.sent)
unfolding watch_flush
watch_flush-releases w h = (refl, λ p. releases w w.watches p (of_event p w.sent) (h p))
