-- ===== src/Registry/Query/Answers.antt =====
-- The other answers of the registry: the search for the root ends, and the children of a node are
-- given by their ids.
use nextbsd_kernel.Prelude.{
  ℕ, zero, suc, ◌%◌, ◌^◌, ◌<◌, ◌≡◌, refl, ap, ◌∙◌, inl, inr, Option, none, some, List, [], ◌∷◌, map,
  length, take, arith, Option-cases,
}
use nextbsd_kernel.Prelude.Result.{ok}
use nextbsd_kernel.Registry.Map.{Entry, IdMap, find_id, id_for}
use nextbsd_kernel.Registry.Map.Known.{Known, id_in, id_in-Known, id_for-Known, id_for-keeps}
use nextbsd_kernel.Registry.Node.{Newbus}
use nextbsd_kernel.Registry.Query.{top, climb, ids_for, number_children, children_of, children}

-- From a device to one of its ancestors.
pub data Above (nb : Newbus) : ℕ → ℕ → Type 0 where
  self : {d : ℕ} → Above nb d d
  up : {d p r : ℕ} → nb.parent d ≡ some p → Above nb p r → Above nb d r

module _ (nb : Newbus) (height : ℕ → ℕ)
    (falls : (d p : ℕ) → nb.parent d ≡ some p → height p < height d) where
  climb-over :
      (fuel d : ℕ) (o : Option ℕ)
      → nb.parent d ≡ o
      → climb nb (suc fuel) d ≡ elim o [ none ↦ top d | some p ↦ climb nb fuel p ]
  unfolding climb
  climb-over fuel d o is = rw (is, climb) refl

  -- The climb of `ioreg_get_root` ends at an ancestor that has no parent: fuel above the height
  -- of the device in its tree is enough.
  pub climb-top :
      (fuel d : ℕ)
      → height d < fuel
      → (r : ℕ) × (climb nb fuel d ≡ top r) × (nb.parent r ≡ none) × Above nb d r
  climb-top zero d enough = absurd (omega arith)
  climb-top (suc fuel) d enough = elim (Option-cases (nb.parent d)) [
    | inl alone ↦ (d, climb-over fuel d none alone, alone, self)
    | inr (p, is) ↦
        let lower = falls d p is in
        let (r, at, end, above) = climb-top fuel p (omega arith) in
        (r, climb-over fuel d (some p) is ∙ at, end, up is above)
  ]

ids_for-keeps : (m : IdMap) (ks : List ℕ) (d i : ℕ) → Known m d i → Known (ids_for m ks).0 d i
unfolding ids_for
ids_for-keeps m [] d i k = k
ids_for-keeps m (x ∷ ks) d i k = ids_for-keeps (id_for m x).0 ks d i (id_for-keeps m d x i k)

ids_for-ids : (m : IdMap) (ks : List ℕ) → (ids_for m ks).1 ≡ map (id_in (ids_for m ks).0) ks
unfolding ids_for
ids_for-ids m [] = refl
ids_for-ids m (k ∷ ks) =
    let (n, i) = id_for m k in
    let known = ids_for-keeps n ks k i (id_for-Known m k) in
    rw (id_in-Known (ids_for n ks).0 k i known) (ap (◌∷◌ i) (ids_for-ids n ks))

children_of-live :
    (nb : Newbus) (m : IdMap) (max : ℕ) (e : Entry) (d : ℕ)
    → e.dev ≡ some d
    → children_of nb m max (some e) ≡ number_children m max (nb.children d)
unfolding children_of
children_of-live nb m max e d live = rw live refl

number_children-ids :
    (m : IdMap) (max : ℕ) (ks : List ℕ)
    → number_children m max (ok ks) ≡ (
      (ids_for m ks).0,
      ok (record { count = length ks % 2 ^ 32; ids = take max (map (id_in (ids_for m ks).0) ks) }),
    )
unfolding number_children
number_children-ids m max ks =
    ap (λ is. ((ids_for m ks).0, ok (record { count = length ks % 2 ^ 32; ids = take max is })))
      (ids_for-ids m ks)

-- `ioreg_children` of a live node reports how many children its device has, and gives the ids
-- that the map has for the first `max` of them when the call ends.
pub children-ids :
    (nb : Newbus) (m : IdMap) (id max : ℕ) (e : Entry) (d : ℕ) (ks : List ℕ)
    → find_id m id ≡ some e
    → e.dev ≡ some d
    → nb.children d ≡ ok ks
    → (m' : IdMap) × (children nb m id max
        ≡ (m', ok (record { count = length ks % 2 ^ 32; ids = take max (map (id_in m') ks) })))
unfolding children
children-ids nb m id max e d ks at live has = (
  (ids_for m ks).0,
  ap (children_of nb m max) at
      ∙ children_of-live nb m max e d live
      ∙ ap (number_children m max) has
      ∙ number_children-ids m max ks,
)
