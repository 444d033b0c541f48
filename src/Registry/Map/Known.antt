-- ===== src/Registry/Map/Known.antt =====
-- The id that the map has for a device, and that it stays while devices are looked up.
use nextbsd_kernel.Prelude.{
  ℕ, ◌≡◌, refl, sym, ap, ◌∙◌, inl, inr, true, Option, none, some, List, [], ◌∷◌, ◌==◌, arith,
  Bool-cases, ==_refl, ==_iff,
}
use nextbsd_kernel.Registry.Map.{
  Entry, IdMap, is_dev, first_dev, find_dev, change_dev, revive, id_or_mint, id_for, id_or_find,
  parent_id,
}

-- The map has the id for the device.
abbrev pub KnownIn : List Entry → ℕ → ℕ → Type 0
KnownIn es d i = (e : Entry) × (first_dev d es ≡ some e) × (e.id ≡ i)

abbrev pub Known : IdMap → ℕ → ℕ → Type 0
Known m d i = KnownIn m.entries d i

-- The id of a device, 0 if the map has none.
abbrev id_found : Option Entry → ℕ
id_found none = 0
id_found (some e) = e.id

unfoldable pub id_in : IdMap → ℕ → ℕ
id_in m d = id_found (find_dev m d)

pub id_in-Known : (m : IdMap) (d i : ℕ) → Known m d i → id_in m d ≡ i
unfolding id_in find_dev
id_in-Known m d i (e, at, is) = ap id_found at ∙ is

change_dev-Known :
    (d x i : ℕ) (es : List Entry) → KnownIn es d i → KnownIn (change_dev revive x es) d i
unfolding first_dev change_dev is_dev
change_dev-Known d x i [] (e, at, is) = cc
change_dev-Known d x i (y ∷ es) (e, at, is) = elim (Bool-cases (is_dev x y)) [
  | inl hit ↦ elim (Bool-cases (is_dev d y)) [
    | inl mine ↦
        let same : y ≡ e = ground (arith, at, mine) in
        (revive y, ground (arith, hit, mine), ap (λ z. z.id) same ∙ is)
    | inr other ↦ (e, ground (arith, hit, other, at), is)
  ]
  | inr miss ↦ elim (Bool-cases (is_dev d y)) [
    | inl mine ↦ (e, ground (arith, miss, mine, at), is)
    | inr other ↦
        let (e', found, same) = change_dev-Known d x i es (e, ground (arith, other, at), is) in
        (e', ground (arith, miss, other, found), same)
  ]
]

change_dev-Known_self :
    (d i : ℕ) (es : List Entry) → KnownIn es d i → KnownIn (change_dev revive d es) d i
change_dev-Known_self d i es k = change_dev-Known d d i es k

id_or_mint-Known :
    (m : IdMap) (d : ℕ) (o : Option Entry)
    → find_dev m d ≡ o
    → Known (id_or_mint m d o).0 d (id_or_mint m d o).1
unfolding id_or_mint find_dev
id_or_mint-Known m d (some e) is = change_dev-Known d d e.id m.entries (e, is, refl)
id_or_mint-Known m d none is = (
  record { dev = some d; id = m.next_id; live = true },
  unfold first_dev is_dev in rw (==_refl d) refl,
  refl,
)

pub id_for-Known : (m : IdMap) (d : ℕ) → Known (id_for m d).0 d (id_for m d).1
unfolding id_for
id_for-Known m d = id_or_mint-Known m d (find_dev m d) refl

id_or_mint-keeps :
    (m : IdMap) (d x i : ℕ) (o : Option Entry)
    → find_dev m x ≡ o
    → Known m d i
    → Known (id_or_mint m x o).0 d i
unfolding id_or_mint find_dev
id_or_mint-keeps m d x i (some e) is k = change_dev-Known d x i m.entries k
id_or_mint-keeps m d x i none is (e, at, id) = elim (Bool-cases (x == d)) [
  | inl same ↦
      let eq : x ≡ d = (==_iff x d).0 same in
      absurd (cc (sym is ∙ ap (λ y. first_dev y m.entries) eq ∙ at))
  | inr apart ↦ (e, unfold first_dev is_dev in rw apart at, id)
]

pub id_for-keeps : (m : IdMap) (d x i : ℕ) → Known m d i → Known (id_for m x).0 d i
unfolding id_for
id_for-keeps m d x i k = id_or_mint-keeps m d x i (find_dev m x) refl k

id_or_find-keeps :
    (m : IdMap) (d x i : ℕ) (o : Option Entry) → Known m d i → Known (id_or_find m x o).0 d i
unfolding id_or_find
id_or_find-keeps m d x i (some e) k = k
id_or_find-keeps m d x i none k = id_for-keeps m d x i k

pub parent_id-keeps :
    (m : IdMap) (d i : ℕ) (o : Option ℕ) → Known m d i → Known (parent_id m o).0 d i
unfolding parent_id
parent_id-keeps m d i none k = k
parent_id-keeps m d i (some p) k = id_or_find-keeps m d p i (find_dev m p) k
