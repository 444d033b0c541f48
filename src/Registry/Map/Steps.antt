-- ===== src/Registry/Map/Steps.antt =====
-- Histories of the map, and what they keep: an id, once given out, stays with its device.
use nextbsd_kernel.Prelude.{
  ℕ, suc, ◌^◌, ◌<◌, ◌≡◌, refl, ◌∙◌, subst, ◌⊎◌, inl, inr, Option, none, some, List, [], ◌∷◌, ◌==◌,
  arith, Bool-cases,
}
use nextbsd_kernel.Registry.Map.{
  Entry, IdMap, is_dev, first_id, find_dev, find_id, change_dev, id_or_mint, id_for, retire_dev,
  revive, retire,
}
use nextbsd_kernel.Registry.Map.Ids.{IsIdMap, id_for-IsIdMap, retire_dev-IsIdMap, first_id-lt}

-- A step of the map: a device is looked up or given an id, or it is detached. The counter does
-- not wrap around.
pub data Step : IdMap → IdMap → Type 0 where
  mint : {m : IdMap} (d : ℕ) → suc m.next_id < 2 ^ 64 → Step m (id_for m d).0
  detach : {m : IdMap} (d : ℕ) → Step m (retire_dev m d)

pub data Steps : IdMap → IdMap → Type 0 where
  stop : {m : IdMap} → Steps m m
  step : {m n o : IdMap} → Step m n → Steps n o → Steps m o

-- An entry later in its life: the same id, and the same device or none.
abbrev pub Later : Entry → Entry → Type 0
Later e e' = (e'.id ≡ e.id) × ((e'.dev ≡ e.dev) ⊎ (e'.dev ≡ none))

-- The list still has the id, for the same device or for none.
abbrev pub Keeps : ℕ → Entry → List Entry → Type 0
Keeps i e es = (e' : Entry) × (first_id i es ≡ some e') × Later e e'

first_id-change :
    (f : Entry → Entry) (d i : ℕ) (es : List Entry) {e : Entry}
    → ((x : Entry) → Later x (f x))
    → first_id i es ≡ some e
    → Keeps i e (change_dev f d es)
unfolding first_id change_dev
first_id-change f d i [] later is = cc
first_id-change f d i (x ∷ es) {e} later is = elim (Bool-cases (is_dev d x)) [
  | inl hit ↦ elim (Bool-cases (x.id == i)) [
    | inl mine ↦
        let same : x ≡ e = ground (arith, is, mine) in
        (f x, ground (arith, hit, mine, later x), subst (λ y. Later y (f x)) same (later x))
    | inr other ↦ (e, ground (arith, hit, other, later x, is), (refl, inl refl))
  ]
  | inr miss ↦ elim (Bool-cases (x.id == i)) [
    | inl mine ↦
        let same : x ≡ e = ground (arith, is, mine) in
        (e, ground (arith, miss, mine, same), (refl, inl refl))
    | inr other ↦
        let (e', at, l) = first_id-change f d i es {e = e} later (ground (arith, is, other)) in
        (e', ground (arith, miss, other, at), l)
  ]
]

id_or_mint-Keeps :
    (m : IdMap) (d i : ℕ) (o : Option Entry) {e : Entry}
    → IsIdMap m
    → first_id i m.entries ≡ some e
    → Keeps i e (id_or_mint m d o).0.entries
unfolding id_or_mint first_id
id_or_mint-Keeps m d i (some x) valid is =
    first_id-change revive d i m.entries (λ x. (refl, inl refl)) is
id_or_mint-Keeps m d i none {e} (pos, falls) is =
    let below = first_id-lt i m.next_id m.entries e falls is in
    (e, ground (arith, is), (refl, inl refl))

Step-Keeps :
    {m m' : IdMap} (i : ℕ) {e : Entry}
    → IsIdMap m
    → Step m m'
    → first_id i m.entries ≡ some e
    → Keeps i e m'.entries
unfolding id_for retire_dev
Step-Keeps {m} i valid (mint d room) is = id_or_mint-Keeps m d i (find_dev m d) valid is
Step-Keeps {m} i valid (detach d) is =
    first_id-change retire d i m.entries (λ x. (refl, inr refl)) is

Step-IsIdMap : {m m' : IdMap} → IsIdMap m → Step m m' → IsIdMap m'
Step-IsIdMap {m} valid (mint d room) = id_for-IsIdMap m d room valid
Step-IsIdMap {m} valid (detach d) = retire_dev-IsIdMap m d valid

-- Whatever happens to the map, the ids in it stay distinct and above 0.
pub Steps-IsIdMap : {m m' : IdMap} → IsIdMap m → Steps m m' → IsIdMap m'
Steps-IsIdMap valid stop = valid
Steps-IsIdMap valid (step s rest) = Steps-IsIdMap (Step-IsIdMap valid s) rest

Later-trans : (a b c : Entry) → Later a b → Later b c → Later a c
Later-trans a b c (i, inl d) (j, inl e) = (j ∙ i, inl (e ∙ d))
Later-trans a b c (i, inl d) (j, inr e) = (j ∙ i, inr e)
Later-trans a b c (i, inr d) (j, inl e) = (j ∙ i, inr (e ∙ d))
Later-trans a b c (i, inr d) (j, inr e) = (j ∙ i, inr e)

Steps-Keeps :
    {m m' : IdMap} (i : ℕ) {e : Entry}
    → IsIdMap m
    → Steps m m'
    → first_id i m.entries ≡ some e
    → Keeps i e m'.entries
Steps-Keeps i {e} valid stop is = (e, is, (refl, inl refl))
Steps-Keeps i {e} valid (step s rest) is =
    let (a, at, l) = Step-Keeps i valid s is in
    let (b, later, k) = Steps-Keeps i (Step-IsIdMap valid s) rest at in
    (b, later, Later-trans e a b l k)

-- An id that the map has is never lost and never given to another device: after any steps
-- `ioreg_find_id_locked` still finds an entry of that id, for the same device or, once that was
-- detached, for none.
pub find_id-lingers :
    (m m' : IdMap) (i : ℕ) (e : Entry)
    → IsIdMap m
    → Steps m m'
    → find_id m i ≡ some e
    → (e' : Entry) × (find_id m' i ≡ some e')
      × (e'.id ≡ e.id)
      × ((e'.dev ≡ e.dev) ⊎ (e'.dev ≡ none))
unfolding find_id
find_id-lingers m m' i e valid steps is = elim (Bool-cases (i == 0)) [
  | inl zero ↦ absurd (ground (arith, is, zero))
  | inr other ↦
      let (e', at, l) = Steps-Keeps i {e = e} valid steps (ground (arith, is, other)) in
      (e', ground (arith, other, at), l.0, l.1)
]
