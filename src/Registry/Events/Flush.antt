-- ===== src/Registry/Events/Flush.antt =====
-- `ioreg_on_match_end` of iokit_registry.c: what becomes of the pending list.
use nextbsd_kernel.Prelude.{
  ℕ, ◌+◌, ◌-◌, ◌<◌, ◌≡◌, ◌⊎◌, refl, ap, subst, sym, ◌∙◌, inl, inr, true, some, List, [], ◌∷◌, ◌==◌,
  arith, Bool-cases, Option-cases,
}
use nextbsd_kernel.Registry.Map.{Entry, find_dev, parent_id}
use nextbsd_kernel.Registry.Node.{Newbus, fill_node}
use nextbsd_kernel.Registry.Watch.{Ports}
use nextbsd_kernel.Registry.Watch.Emit.{IsWatches}
use nextbsd_kernel.Registry.Events.{Registry, on_match_end, announce, flush_one, flush_all, live_id}
use nextbsd_kernel.Registry.Events.Settle.{
  Announced, flush_one-Announced, flush_one-known, live_id-known, on_match_end-outermost,
  on_match_end-inner,
}

module _ (nb : Newbus) (ports : ℕ → Ports) where
  -- The pending devices in order, each with its two emissions if the map has an entry with an id
  -- other than 0 for it, the next from what the one before leaves. Of the rest of the registry only
  -- the map changes, by the ids of parents.
  pub data Flushed : ℕ → Registry → List ℕ → Registry → Type 0 where
    all_done : {i : ℕ} {r : Registry} → Flushed i r [] r
    announced :
        {i d : ℕ} {ds : List ℕ} {r s t : Registry} (e : Entry)
        → find_dev r.map d ≡ some e
        → 0 < e.id
        → Announced nb ports i
            (fill_node nb d e.id (parent_id r.map (nb.parent d)).1 true)
            r.watches
            s.watches
        → s.map ≡ (parent_id r.map (nb.parent d)).0
        → s.pending ≡ r.pending
        → s.depth ≡ r.depth
        → Flushed (i + 2) s ds t
        → Flushed i r (d ∷ ds) t
    passed :
        {i d : ℕ} {ds : List ℕ} {r t : Registry}
        → ((e : Entry) → find_dev r.map d ≡ some e → e.id ≡ 0)
        → Flushed (i + 2) r ds t
        → Flushed i r (d ∷ ds) t

  Announced-IsWatches :
      (i d id up : ℕ) (r s : Registry)
      → Announced nb ports i (fill_node nb d id up true) r.watches s.watches
      → IsWatches s.watches
  Announced-IsWatches i d id up r s (mid, first, (_, _, valid)) = valid

  announce_rest :
      (i : ℕ) (r : Registry) (d id : ℕ)
      → ((announce nb ports i r d id).map ≡ (parent_id r.map (nb.parent d)).0)
        × ((announce nb ports i r d id).pending ≡ r.pending)
        × ((announce nb ports i r d id).depth ≡ r.depth)
  unfolding announce
  announce_rest i r d id = (refl, refl, refl)

  flush_one-unknown :
      (i : ℕ) (r : Registry) (d : ℕ)
      → live_id d (find_dev r.map d) ≡ 0
      → flush_one nb ports i r d ≡ r
  unfolding flush_one
  flush_one-unknown i r d gone = rw gone refl

  flush_all-Flushed :
      (i : ℕ) (r : Registry) (ds : List ℕ)
      → IsWatches r.watches
      → Flushed i r ds (flush_all nb ports i r ds)
  unfolding flush_all
  flush_all-Flushed i r [] valid = all_done
  flush_all-Flushed i r (d ∷ ds) valid = elim (Option-cases (find_dev r.map d)) [
    | inl missing ↦
        let same = flush_one-unknown i r d (ap (live_id d) missing ∙ (unfold live_id in refl)) in
        subst (λ s. Flushed i r (d ∷ ds) (flush_all nb ports (i + 2) s ds)) (sym same)
          (passed (λ e at. cc) (flush_all-Flushed (i + 2) r ds valid))
    | inr (e, at) ↦ elim (Bool-cases (e.id == 0)) [
      | inl nameless ↦
          let zero_id : e.id ≡ 0 = ground (arith, nameless) in
          let same = flush_one-unknown i r d (live_id-known d r.map e at ∙ zero_id) in
          subst (λ s. Flushed i r (d ∷ ds) (flush_all nb ports (i + 2) s ds)) (sym same)
            (passed (λ x is. cc) (flush_all-Flushed (i + 2) r ds valid))
      | inr named ↦
          let s = flush_one nb ports i r d in
          let known = flush_one-known nb ports i r d e.id (live_id-known d r.map e at) named in
          let (map, pending, depth) = announce_rest i r d e.id in
          let sent = flush_one-Announced nb ports i r d e valid at (ground (arith, named)) in
          announced e at (ground (arith, named)) sent (ap (λ x. x.map) known ∙ map)
            (ap (λ x. x.pending) known ∙ pending) (ap (λ x. x.depth) known ∙ depth)
            (flush_all-Flushed (i + 2) s ds
              (Announced-IsWatches i d e.id (parent_id r.map (nb.parent d)).1 r s sent))
    ]
  ]

  Flushed-rest :
      {i : ℕ} {r t : Registry} {ds : List ℕ}
      → Flushed i r ds t
      → (t.pending ≡ r.pending) × (t.depth ≡ r.depth)
  Flushed-rest all_done = (refl, refl)
  Flushed-rest (announced e at named sent map pending depth rest) =
      let (p, d) = Flushed-rest rest in (p ∙ pending, d ∙ depth)
  Flushed-rest (passed gone rest) = Flushed-rest rest

  -- What the end of a match leaves.
  abbrev pub MatchEnded : Registry → Registry → Type 0
  MatchEnded r t =
      ((r.depth < 2)
        × Flushed 0 (record r { depth = 0; pending = [] }) r.pending t
        × (t.pending ≡ [])
        × (t.depth ≡ 0))
      ⊎ ((1 < r.depth) × (t ≡ record r { depth = r.depth - 1 }))

  -- With a right count of watches, `ioreg_on_match_end` of the outermost match (or of none)
  -- announces the pending devices in their order: each that the map has an entry with an id other
  -- than 0 for as arrived and then as matched, where each of the two events goes to the watches
  -- that ask for it as an emission does, and nothing for the others. The pending list is then empty
  -- and the depth 0. The end of an inner match lowers the depth, sends nothing and changes nothing
  -- else.
  pub on_match_end-MatchEnded :
      (r : Registry) → IsWatches r.watches → MatchEnded r (on_match_end nb ports r)
  on_match_end-MatchEnded r valid = elim (Bool-cases (r.depth - 1 == 0)) [
    | inl out ↦
        let zero_depth : r.depth - 1 ≡ 0 = ground (arith, out) in
        let s = record r { depth = 0; pending = [] } in
        let whole = flush_all-Flushed 0 s r.pending valid in
        let (pending, depth) = Flushed-rest whole in
        let same =
          on_match_end-outermost nb ports r out
          ∙ ap (λ k. flush_all nb ports 0 (record r { depth = k; pending = [] }) r.pending)
              zero_depth in
        inl (
          subst (λ t. (r.depth < 2) × Flushed 0 s r.pending t × (t.pending ≡ []) × (t.depth ≡ 0))
            (sym same) (omega arith, whole, pending, depth))
    | inr inside ↦ inr (ground (arith, inside), on_match_end-inner nb ports r inside)
  ]
