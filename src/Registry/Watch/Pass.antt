-- ===== src/Registry/Watch/Pass.antt =====
-- The rounds of the first pass of an emission, as cases.
use nextbsd_kernel.Prelude.{
  ℕ, ◌+◌, ◌-◌, ◌%◌, ◌^◌, ◌≤◌, ◌≡◌, refl, inl, inr, Bool, true, false, ◌&&◌, List, [], ◌∷◌, ◌++◌,
  leb, length, arith, Bool-cases,
}
use nextbsd_kernel.Registry.Node.{Node, node_matches_crit}
use nextbsd_kernel.Registry.Watch.{
  Kind, has_kind, Watch, Ports, drop_right, add_right, port_dead, copy_port, Snap, snap_port,
  first_pass,
}

abbrev pub pruned : Snap → Watch → Snap
pruned s w = record s {
  count = (s.count + (2 ^ 32 - 1)) % 2 ^ 32;
  rights = drop_right s.rights w.port;
}

abbrev pub stays : Snap → Watch → Snap
stays s w = record s { kept = s.kept ++ w ∷ [] }

abbrev pub taken : Snap → Watch → Snap
taken s w = record s {
  kept = s.kept ++ w ∷ [];
  rights = add_right s.rights w.port;
  ports = s.ports ++ w.port ∷ [];
}

module _ (ports : Ports) (n : Node) (k : Kind) where
  -- The port of the watch is active.
  unfoldable pub is_alive : Watch → Bool
  is_alive w = ports.active w.port

  -- The watch asks for the event.
  unfoldable pub asks : Watch → Bool
  asks w = has_kind w.mask k && node_matches_crit n w.criteria

  -- What a round does with a watch.
  pub data Round (cap : ℕ) (s : Snap) (w : Watch) (ws : List Watch) : Snap → Type 0 where
    prune :
        {t : Snap}
        → is_alive w ≡ false
        → t ≡ first_pass ports n k cap (pruned s w) ws
        → Round cap s w ws t
    skip :
        {t : Snap}
        → is_alive w ≡ true
        → asks w ≡ false
        → t ≡ first_pass ports n k cap (stays s w) ws
        → Round cap s w ws t
    full :
        {t : Snap}
        → cap ≤ length s.ports
        → t ≡ record s { kept = s.kept ++ w ∷ ws }
        → Round cap s w ws t
    take :
        {t : Snap}
        → is_alive w ≡ true
        → asks w ≡ true
        → t ≡ first_pass ports n k cap (taken s w) ws
        → Round cap s w ws t

  pub first_pass-Round :
      (cap : ℕ) (s : Snap) (w : Watch) (ws : List Watch)
      → Round cap s w ws (first_pass ports n k cap s (w ∷ ws))
  unfolding first_pass is_alive asks port_dead copy_port snap_port
  first_pass-Round cap s w ws = elim (Bool-cases (ports.active w.port)) [
    | inr dead ↦ prune dead (rw dead refl)
    | inl alive ↦ elim (Bool-cases (has_kind w.mask k)) [
      | inr off ↦ skip alive (rw off refl) (rw (alive, off) refl)
      | inl on ↦ elim (Bool-cases (node_matches_crit n w.criteria)) [
        | inr miss ↦ skip alive (rw (on, miss) refl) (rw (alive, on, miss) refl)
        | inl hit ↦ elim (Bool-cases (leb cap (length s.ports))) [
          | inl no_room ↦ full (ground arith) (rw (alive, on, hit, no_room) refl)
          | inr room ↦ take alive (rw (on, hit) refl) (rw (alive, on, hit, room) refl)
        ]
      ]
    ]
  ]
