-- ===== src/Registry/Events/Settle.antt =====
-- The end of the outermost match: every pending device is announced, and the rights stay balanced
-- under all handlers.
use nextbsd_kernel.Prelude.{
  ℕ, ◌+◌, ◌-◌, ◌<◌, ◌≡◌, refl, sym, ap, subst, ◌∙◌, inl, inr, Bool, true, false, Option, none, some,
  List, [], ◌∷◌, ◌==◌, arith, Bool-cases,
}
use nextbsd_kernel.Registry.Map.{Entry, IdMap, find_dev, first_dev, is_dev, parent_id}
use nextbsd_kernel.Registry.Node.{Newbus, Node, fill_node}
use nextbsd_kernel.Registry.Watch.{
  Kind, arrive, depart, matched, Watches, Ports, emit_event, emit_event_node,
}
use nextbsd_kernel.Registry.Watch.Rights.{Balanced, emit_event_node-Balanced}
use nextbsd_kernel.Registry.Watch.Emit.{
  IsWatches, Emitted, emit_event_node-sends, emit_event_node-none,
}
use nextbsd_kernel.Registry.Events.{
  Registry, Detach, begin, complete, failed, on_attach, on_detach, on_match_start, on_match_end,
  announce, flush_one, flush_all, live_id, depart_entry,
}

emit_event-lem :
    (nb : Newbus) (ports : Ports) (d id up : ℕ) (live : Bool) (k : Kind) (w : Watches)
    → emit_event nb ports d id up live k w ≡ emit_event_node ports (fill_node nb d id up live) k w
unfolding emit_event
emit_event-lem nb ports d id up live k w = elim (Bool-cases (w.count == 0)) [
  | inl none_there ↦
      rw none_there (sym (emit_event_node-none ports (fill_node nb d id up live) k w none_there))
  | inr some_there ↦ rw some_there refl
]

emit_event-Balanced :
    (nb : Newbus) (ports : Ports) (d id up : ℕ) (live : Bool) (k : Kind) (w : Watches)
    → Balanced w
    → Balanced (emit_event nb ports d id up live k w)
emit_event-Balanced nb ports d id up live k w h =
    subst Balanced (sym (emit_event-lem nb ports d id up live k w))
      (emit_event_node-Balanced ports (fill_node nb d id up live) k w h)

-- The events of newbus that the registry handles.
pub data BusEvent : Type 0 where
  device_attach : Bool → ℕ → BusEvent
  device_detach : ℕ → Detach → BusEvent
  device_match_start device_match_end : BusEvent

first_dev-is_dev :
    (d : ℕ) (es : List Entry) (e : Entry) → first_dev d es ≡ some e → is_dev d e ≡ true
unfolding first_dev
first_dev-is_dev d [] e at = cc
first_dev-is_dev d (x ∷ es) e at = elim (Bool-cases (is_dev d x)) [
  | inl hit ↦ let same : x ≡ e = ground (arith, at, hit) in subst (λ y. is_dev d y ≡ true) same hit
  | inr miss ↦ first_dev-is_dev d es e (ground (arith, at, miss))
]

pub live_id-known :
    (d : ℕ) (m : IdMap) (e : Entry) → find_dev m d ≡ some e → live_id d (find_dev m d) ≡ e.id
live_id-known d m e at =
    let mine = first_dev-is_dev d m.entries e (unfold find_dev in at) in
    ap (live_id d) at ∙ (unfold live_id in rw mine refl)

module _ (nb : Newbus) where
  -- The handlers as one.
  abbrev pub handle : (ℕ → Ports) → Registry → BusEvent → Registry
  handle ports r (device_attach memory d) = on_attach memory r d
  handle ports r (device_detach d state) = on_detach nb (ports 0) r d state
  handle ports r device_match_start = on_match_start r
  handle ports r device_match_end = on_match_end nb ports r

  announce-Balanced :
      (ports : ℕ → Ports) (i : ℕ) (r : Registry) (d id : ℕ)
      → Balanced r.watches
      → Balanced (announce nb ports i r d id).watches
  unfolding announce
  announce-Balanced ports i r d id h =
      let (m, up) = parent_id r.map (nb.parent d) in
      emit_event-Balanced nb (ports (i + 1)) d id up true matched
        (emit_event nb (ports i) d id up true arrive r.watches)
        (emit_event-Balanced nb (ports i) d id up true arrive r.watches h)

  flush_one-Balanced :
      (ports : ℕ → Ports) (i : ℕ) (r : Registry) (d : ℕ)
      → Balanced r.watches
      → Balanced (flush_one nb ports i r d).watches
  unfolding flush_one
  flush_one-Balanced ports i r d h = elim (Bool-cases (live_id d (find_dev r.map d) == 0)) [
    | inl gone ↦ rw gone h
    | inr there ↦ rw there (announce-Balanced ports i r d (live_id d (find_dev r.map d)) h)
  ]

  flush_all-Balanced :
      (ports : ℕ → Ports) (i : ℕ) (r : Registry) (ds : List ℕ)
      → Balanced r.watches
      → Balanced (flush_all nb ports i r ds).watches
  unfolding flush_all
  flush_all-Balanced ports i r [] h = h
  flush_all-Balanced ports i r (d ∷ ds) h =
      flush_all-Balanced ports (i + 2) (flush_one nb ports i r d) ds
        (flush_one-Balanced ports i r d h)

  depart_entry-Balanced :
      (ports : Ports) (r : Registry) (d : ℕ) (o : Option Entry)
      → Balanced r.watches
      → Balanced (depart_entry nb ports r d o)
  unfolding depart_entry
  depart_entry-Balanced ports r d none h = h
  depart_entry-Balanced ports r d (some e) h = elim (Bool-cases (e.id == 0)) [
    | inl nameless ↦ rw nameless h
    | inr named ↦ rw named (emit_event-Balanced nb ports d e.id _ false depart r.watches h)
  ]

  on_attach_watches :
      (memory : Bool) (r : Registry) (d : ℕ) → (on_attach memory r d).watches ≡ r.watches
  unfolding on_attach
  on_attach_watches memory r d = elim (Bool-cases (r.watches.count == 0)) [
    | inl unwatched ↦ rw unwatched refl
    | inr watched ↦ elim (Bool-cases memory) [
      | inl enough ↦ rw (watched, enough) refl
      | inr short ↦ rw (watched, short) refl
    ]
  ]

  pub on_match_end-outermost :
      (ports : ℕ → Ports) (r : Registry)
      → (r.depth - 1 == 0) ≡ true
      → on_match_end nb ports r
        ≡ flush_all nb ports 0 (record r { depth = r.depth - 1; pending = [] }) r.pending
  unfolding on_match_end
  on_match_end-outermost ports r out = rw out refl

  pub on_match_end-inner :
      (ports : ℕ → Ports) (r : Registry)
      → (r.depth - 1 == 0) ≡ false
      → on_match_end nb ports r ≡ record r { depth = r.depth - 1 }
  unfolding on_match_end
  on_match_end-inner ports r inside = rw inside refl

  -- No handler of a newbus event leaks or over-releases a send right, whatever becomes of the
  -- ports while it runs.
  pub handle-Balanced :
      (ports : ℕ → Ports) (r : Registry) (b : BusEvent)
      → Balanced r.watches
      → Balanced (handle ports r b).watches
  unfolding on_detach on_match_start
  handle-Balanced ports r (device_attach memory d) h =
      subst Balanced (sym (on_attach_watches memory r d)) h
  handle-Balanced ports r (device_detach d begin) h = h
  handle-Balanced ports r (device_detach d failed) h = h
  handle-Balanced ports r (device_detach d complete) h =
      depart_entry-Balanced (ports 0) r d (find_dev r.map d) h
  handle-Balanced ports r device_match_start h = h
  handle-Balanced ports r device_match_end h = elim (Bool-cases (r.depth - 1 == 0)) [
    | inl out ↦
        subst (λ s. Balanced s.watches) (sym (on_match_end-outermost ports r out))
          (flush_all-Balanced ports 0 (record r { depth = r.depth - 1; pending = [] }) r.pending h)
    | inr inside ↦ subst (λ s. Balanced s.watches) (sym (on_match_end-inner ports r inside)) h
  ]

  -- The two emissions for a device, the second from the watches that the first leaves.
  abbrev pub Announced : (ℕ → Ports) → ℕ → Node → Watches → Watches → Type 0
  Announced ports i n w v =
      (mid : Watches) × Emitted (ports i) n arrive w mid × Emitted (ports (i + 1)) n matched mid v

  emit_event-Emitted :
      (ports : Ports) (d id up : ℕ) (k : Kind) (w : Watches)
      → IsWatches w
      → Emitted ports (fill_node nb d id up true) k w (emit_event nb ports d id up true k w)
  emit_event-Emitted ports d id up k w valid =
      subst (Emitted ports (fill_node nb d id up true) k w)
        (sym (emit_event-lem nb ports d id up true k w))
        (emit_event_node-sends ports (fill_node nb d id up true) k w valid)

  announce-Announced :
      (ports : ℕ → Ports) (i : ℕ) (r : Registry) (d id : ℕ)
      → IsWatches r.watches
      → Announced ports i
          (fill_node nb d id (parent_id r.map (nb.parent d)).1 true)
          r.watches
          (announce nb ports i r d id).watches
  unfolding announce
  announce-Announced ports i r d id valid =
      let up = (parent_id r.map (nb.parent d)).1 in
      let one = emit_event-Emitted (ports i) d id up arrive r.watches valid in
      (
        emit_event nb (ports i) d id up true arrive r.watches,
        one,
        emit_event-Emitted (ports (i + 1)) d id up matched
            (emit_event nb (ports i) d id up true arrive r.watches) one.2,
      )

  pub flush_one-known :
      (ports : ℕ → Ports) (i : ℕ) (r : Registry) (d id : ℕ)
      → live_id d (find_dev r.map d) ≡ id
      → (id == 0) ≡ false
      → flush_one nb ports i r d ≡ announce nb ports i r d id
  unfolding flush_one
  flush_one-known ports i r d id is there = rw (is, there) refl

  -- A pending device with an entry in the map, of an id other than 0, is announced.
  pub flush_one-Announced :
      (ports : ℕ → Ports) (i : ℕ) (r : Registry) (d : ℕ) (e : Entry)
      → IsWatches r.watches
      → find_dev r.map d ≡ some e
      → 0 < e.id
      → Announced ports i
          (fill_node nb d e.id (parent_id r.map (nb.parent d)).1 true)
          r.watches
          (flush_one nb ports i r d).watches
  flush_one-Announced ports i r d e valid at named =
      let is = live_id-known d r.map e at in
      subst
        (λ s.
          Announced ports i (fill_node nb d e.id (parent_id r.map (nb.parent d)).1 true) r.watches
            s.watches)
        (sym (flush_one-known ports i r d e.id is (ground arith)))
        (announce-Announced ports i r d e.id valid)
