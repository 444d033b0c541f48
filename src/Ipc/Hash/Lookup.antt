-- ===== src/Ipc/Hash/Lookup.antt =====
-- `ipc_hash_local_lookup` finds the first entry of the bucket that holds the object.
use nextbsd_kernel.Prelude.{
  ℕ, zero, suc, ◌/◌, ◌^◌, ◌<◌, ◌≡◌, refl, ◌⊎◌, inl, inr, true, false, Option, some, List, [], ◌∷◌,
  ◌==◌, if◌then◌else◌, arith, length, Bool-cases, ==_iff, ==_refl,
}
use native.Mathlib.Nat.{mod-lt}
use nextbsd_kernel.Ipc.Hash.{Hash, Walk, found, absent, holds, walk, lookup, local_hash}
use nextbsd_kernel.Ipc.Hash.Chain.{has, Chain, nil, cons, IsHash}

-- The first entry of a list that holds the object.
pub first : (ℕ → Option ℕ) → ℕ → List ℕ → Walk
first object obj [] = absent
first object obj (e ∷ xs) =
    let rest = first object obj xs in if holds object obj e then found e else rest

walk-first :
    (object link : ℕ → Option ℕ) (obj fuel : ℕ) {p : Option ℕ} {xs : List ℕ}
    → Chain link p xs
    → length xs < fuel
    → walk object link obj fuel p ≡ first object obj xs
unfolding walk first
walk-first object link obj zero c h = absurd (omega arith)
walk-first object link obj (suc fuel) nil h = refl
walk-first object link obj (suc fuel) (cons {e} {xs} new c) h =
    rw (walk-first object link obj fuel c (omega arith))

pub local_hash-lt : (obj size : ℕ) → 0 < size → local_hash obj size < size
unfolding local_hash
local_hash-lt obj size h = mod-lt (obj / 2 ^ 6) h

lookup-first :
    (object : ℕ → Option ℕ) (h : Hash) (bucket : ℕ → List ℕ) (fuel obj : ℕ)
    → IsHash h bucket
    → local_hash obj h.size < h.size
    → length (bucket (local_hash obj h.size)) < fuel
    → lookup object h fuel obj ≡ first object obj (bucket (local_hash obj h.size))
unfolding lookup
lookup-first object h bucket fuel obj v lt enough = elim (Bool-cases (h.size == 0)) [
  | inl unset ↦ absurd (ground arith)
  | inr set ↦
      rw set (walk-first object h.link obj fuel (v.chains (local_hash obj h.size) lt) enough)
]

-- What a walk over a list finds: an entry of the list that holds the object, or that none does.
abbrev pub Finds : (ℕ → Option ℕ) → ℕ → List ℕ → Walk → Type 0
Finds object obj xs w =
    ((e : ℕ) × (w ≡ found e) × (has e xs ≡ true) × (holds object obj e ≡ true))
    ⊎ ((w ≡ absent) × ((e : ℕ) → has e xs ≡ true → holds object obj e ≡ false))

first-Finds :
    (object : ℕ → Option ℕ) (obj : ℕ) (xs : List ℕ) → Finds object obj xs (first object obj xs)
unfolding first
first-Finds object obj [] = inr (refl, λ e h. cc)
first-Finds object obj (x ∷ xs) = elim (Bool-cases (holds object obj x)) [
  | inl hit ↦ rw hit (inl (x, refl, ground arith, hit))
  | inr miss ↦ rw miss (behind (first object obj xs) (first-Finds object obj xs) miss)
]
  where
    behind :
        (w : Walk)
        → Finds object obj xs w
        → holds object obj x ≡ false
        → Finds object obj (x ∷ xs) w
    behind w (inl (e, f, i, h)) miss = inl (e, f, ground arith, h)
    behind w (inr (a, out)) miss = inr (
      a,
      λ e h. elim (Bool-cases (x == e)) [
        | inl same ↦ let eq : x ≡ e = (==_iff x e).0 same in rw (← eq) miss
        | inr other ↦ out e (ground arith)
      ],
    )

-- `ipc_hash_local_lookup`, over a table that is allocated, finds an entry of the object's bucket
-- that holds the object, or returns FALSE when no entry of the bucket holds it. The loop ends: fuel
-- above the length of the bucket is enough.
pub lookup-Finds :
    (object : ℕ → Option ℕ) (h : Hash) (bucket : ℕ → List ℕ) (fuel obj : ℕ)
    → IsHash h bucket
    → 0 < h.size
    → length (bucket (local_hash obj h.size)) < fuel
    → Finds object obj (bucket (local_hash obj h.size)) (lookup object h fuel obj)
lookup-Finds object h bucket fuel obj v set enough =
    rw (lookup-first object h bucket fuel obj v (local_hash-lt obj h.size set) enough)
      (first-Finds object obj (bucket (local_hash obj h.size)))

-- So an entry that holds the object, in the object's bucket, makes the lookup succeed.
pub lookup-ne-absent :
    (object : ℕ → Option ℕ) (h : Hash) (bucket : ℕ → List ℕ) (fuel obj e : ℕ)
    → IsHash h bucket
    → 0 < h.size
    → length (bucket (local_hash obj h.size)) < fuel
    → h.index e ≡ some (local_hash obj h.size)
    → object e ≡ some obj
    → (w : ℕ) × (lookup object h fuel obj ≡ found w) × (holds object obj w ≡ true)
unfolding holds
lookup-ne-absent object h bucket fuel obj e v set enough at is =
    elim (lookup-Finds object h bucket fuel obj v set enough) [
      | inl (w, f, i, held) ↦ (w, f, held)
      | inr (a, out) ↦
          let miss = out e (v.listed (local_hash obj h.size) e at).1 in
          let hit : holds object obj e ≡ true = rw (is, holds) (==_refl obj) in cc
    ]
