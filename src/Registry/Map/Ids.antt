-- ===== src/Registry/Map/Ids.antt =====
-- The order of the ids in the map: newer entries in front, with larger ids.
use nextbsd_kernel.Prelude.{
  ℕ, suc, ◌^◌, ◌<◌, ◌≡◌, refl, inl, inr, Option, none, some, List, [], ◌∷◌, ◌==◌, arith, Bool-cases,
}
use nextbsd_kernel.Registry.Map.{
  Entry, IdMap, is_dev, first_id, find_dev, change_dev, id_or_mint, id_for, retire_dev, revive,
  retire,
}

-- The ids of a list fall, from below a bound, and stay above 0.
abbrev pub Falls : ℕ → List Entry → Type 0
Falls n [] = Unit
Falls n (e ∷ es) = (0 < e.id) × (e.id < n) × Falls e.id es

-- A well-formed map: its ids are distinct, none is 0, and all are below the next one.
abbrev pub IsIdMap : IdMap → Type 0
IsIdMap m = (0 < m.next_id) × Falls m.next_id m.entries

Falls-change :
    (f : Entry → Entry) (d n : ℕ) (es : List Entry)
    → ((e : Entry) → (f e).id ≡ e.id)
    → Falls n es
    → Falls n (change_dev f d es)
unfolding change_dev
Falls-change f d n [] keeps h = tt
Falls-change f d n (e ∷ es) keeps (pos, lt, rest) = elim (Bool-cases (is_dev d e)) [
  | inl hit ↦ rw hit (omega (arith, keeps e, pos), omega (arith, keeps e, lt), rw (keeps e) rest)
  | inr miss ↦ rw miss (pos, lt, Falls-change f d e.id es keeps rest)
]

id_or_mint-IsIdMap :
    (m : IdMap) (d : ℕ) (o : Option Entry)
    → suc m.next_id < 2 ^ 64
    → IsIdMap m
    → IsIdMap (id_or_mint m d o).0
unfolding id_or_mint
id_or_mint-IsIdMap m d (some e) room (pos, h) =
    (pos, Falls-change revive d m.next_id m.entries (λ e. refl) h)
id_or_mint-IsIdMap m d none room (pos, h) = (omega arith, (pos, omega arith, h))

pub id_for-IsIdMap :
    (m : IdMap) (d : ℕ) → suc m.next_id < 2 ^ 64 → IsIdMap m → IsIdMap (id_for m d).0
unfolding id_for
id_for-IsIdMap m d room h = id_or_mint-IsIdMap m d (find_dev m d) room h

pub retire_dev-IsIdMap : (m : IdMap) (d : ℕ) → IsIdMap m → IsIdMap (retire_dev m d)
unfolding retire_dev
retire_dev-IsIdMap m d (pos, h) = (pos, Falls-change retire d m.next_id m.entries (λ e. refl) h)

-- An id that is in a falling list is below its bound.
pub first_id-lt :
    (i n : ℕ) (es : List Entry) (e : Entry) → Falls n es → first_id i es ≡ some e → i < n
unfolding first_id
first_id-lt i n [] e h is = cc
first_id-lt i n (x ∷ es) e (pos, lt, rest) is = elim (Bool-cases (x.id == i)) [
  | inl hit ↦ ground arith
  | inr miss ↦ let below = first_id-lt i x.id es e rest (ground (arith, is, miss)) in omega arith
]
