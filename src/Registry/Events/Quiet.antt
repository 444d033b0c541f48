-- ===== src/Registry/Events/Quiet.antt =====
-- The coalescing of arrivals: no message before the tree has settled.
use nextbsd_kernel.Prelude.{
  ℕ, ◌+◌, ◌-◌, ◌<◌, ◌≡◌, refl, sym, ap, subst, ◌∙◌, Bool, true, false, List, [], ◌∷◌, ◌++◌, ◌==◌,
  arith,
}
use nextbsd_kernel.Registry.Node.{Newbus}
use nextbsd_kernel.Registry.Watch.{Ports}
use nextbsd_kernel.Registry.Events.{Registry, on_attach, on_match_start, on_match_end}

-- What the newbus configuration does inside the outermost probe and attach of a device.
pub data Config : Type 0 where
  match_start : Config
  attach : Bool → ℕ → Config
  match_end : Config

module _ (nb : Newbus) (ports : ℕ → Ports) where
  abbrev pub configure : Registry → Config → Registry
  configure r match_start = on_match_start r
  configure r (attach memory d) = on_attach memory r d
  configure r match_end = on_match_end nb ports r

  abbrev pub configure_all : Registry → List Config → Registry
  configure_all r [] = r
  configure_all r (c ∷ cs) = configure_all (configure r c) cs

  -- The outermost match does not end: `depth` is the nesting.
  abbrev pub Nested : ℕ → List Config → Type 0
  Nested depth [] = 0 < depth
  Nested depth (match_start ∷ cs) = Nested (depth + 1) cs
  Nested depth (attach memory d ∷ cs) = Nested depth cs
  Nested depth (match_end ∷ cs) = (1 < depth) × Nested (depth - 1) cs

  -- The devices that are attached, and for which there was memory.
  abbrev pub attached : List Config → List ℕ
  attached [] = []
  attached (match_start ∷ cs) = attached cs
  attached (attach true d ∷ cs) = d ∷ attached cs
  attached (attach false d ∷ cs) = attached cs
  attached (match_end ∷ cs) = attached cs

  append-cons : (xs ys : List ℕ) (x : ℕ) → (xs ++ x ∷ []) ++ ys ≡ xs ++ x ∷ ys
  append-cons [] ys x = refl
  append-cons (y ∷ xs) ys x = ap (◌∷◌ y) (append-cons xs ys x)

  append-nil : (xs : List ℕ) → xs ++ [] ≡ xs
  append-nil [] = refl
  append-nil (x ∷ xs) = ap (◌∷◌ x) (append-nil xs)

  -- Nothing is sent and no watch is touched, and the devices wait.
  abbrev pub Waits : Registry → List Config → Registry → Type 0
  Waits r cs s = (s.watches ≡ r.watches) × (s.pending ≡ r.pending ++ attached cs)

  on_match_end-nested :
      (r : Registry) → 1 < r.depth → on_match_end nb ports r ≡ record r { depth = r.depth - 1 }
  unfolding on_match_end
  on_match_end-nested r deep =
      let inner : (r.depth - 1 == 0) ≡ false = ground arith in rw inner refl

  on_attach-true :
      (r : Registry) (d : ℕ)
      → (r.watches.count == 0) ≡ false
      → ((on_attach true r d).watches ≡ r.watches)
        × ((on_attach true r d).pending ≡ r.pending ++ d ∷ [])
        × ((on_attach true r d).depth ≡ r.depth)
  unfolding on_attach
  on_attach-true r d watched = rw watched (refl, refl, refl)

  on_attach-false :
      (r : Registry) (d : ℕ)
      → (r.watches.count == 0) ≡ false
      → ((on_attach false r d).watches ≡ r.watches)
        × ((on_attach false r d).pending ≡ r.pending)
        × ((on_attach false r d).depth ≡ r.depth)
  unfolding on_attach
  on_attach-false r d watched = rw watched (refl, refl, refl)

  -- While the outermost match of a device is in progress, no event is sent whatever is attached
  -- below it: each attached device for whose entry there was memory is put at the end of the
  -- pending list, and the others are dropped. The count of watches is not 0.
  pub configure_all-Waits :
      (r : Registry) (cs : List Config)
      → (r.watches.count == 0) ≡ false
      → Nested r.depth cs
      → Waits r cs (configure_all r cs)
  unfolding on_match_start
  configure_all-Waits r [] watched nested = (refl, sym (append-nil r.pending))
  configure_all-Waits r (match_start ∷ cs) watched nested =
      configure_all-Waits (on_match_start r) cs watched nested
  configure_all-Waits r (attach true d ∷ cs) watched nested =
      let (ws, pend, depth) = on_attach-true r d watched in
      let (ws', pend') =
        configure_all-Waits (on_attach true r d) cs
          (subst (λ w. (w.count == 0) ≡ false) (sym ws) watched)
          (subst (λ n. Nested n cs) (sym depth) nested) in
      (ws' ∙ ws, pend' ∙ ap (λ p. p ++ attached cs) pend ∙ append-cons r.pending (attached cs) d)
  configure_all-Waits r (attach false d ∷ cs) watched nested =
      let (ws, pend, depth) = on_attach-false r d watched in
      let (ws', pend') =
        configure_all-Waits (on_attach false r d) cs
          (subst (λ w. (w.count == 0) ≡ false) (sym ws) watched)
          (subst (λ n. Nested n cs) (sym depth) nested) in
      (ws' ∙ ws, pend' ∙ ap (λ p. p ++ attached cs) pend)
  configure_all-Waits r (match_end ∷ cs) watched (deep, nested) =
      subst (λ s. Waits r cs (configure_all s cs)) (sym (on_match_end-nested r deep))
        (configure_all-Waits (record r { depth = r.depth - 1 }) cs watched nested)
