-- ===== src/Ipc/Hash/Chain.antt =====
-- Buckets as lists: what a linked bucket stands for.
use nextbsd_kernel.Prelude.{
  ℕ, ◌<◌, ◌≡◌, ◌≢◌, inl, inr, Bool-cases, Bool, true, false, ◌||◌, Option, none, some, List, [],
  ◌∷◌, ◌==◌, arith,
}
use nextbsd_kernel.Ipc.Hash.{Hash, update}

abbrev pub has : ℕ → List ℕ → Bool
has e [] = false
has e (x ∷ xs) = (x == e) || has e xs

-- From `p` the links lead through the distinct entries of the list to the end.
pub data Chain (link : ℕ → Option ℕ) : Option ℕ → List ℕ → Type 0 where
  nil : Chain link none []
  cons :
      {e : ℕ} {xs : List ℕ}
      → has e xs ≡ false
      → Chain link (link e) xs
      → Chain link (some e) (e ∷ xs)

-- A chain survives a change of links that spares its entries.
pub Chain-frame :
    (f g : ℕ → Option ℕ) {p : Option ℕ} {xs : List ℕ}
    → Chain f p xs
    → ((e : ℕ) → has e xs ≡ true → g e ≡ f e)
    → Chain g p xs
Chain-frame f g nil same = nil
Chain-frame f g (cons {e} {xs} new c) same =
    cons new (rw (same e (ground arith)) (Chain-frame f g c (λ a h. same a (ground arith))))

pub Chain-update :
    (f : ℕ → Option ℕ) (k : ℕ) (v : Option ℕ) {p : Option ℕ} {xs : List ℕ}
    → Chain f p xs
    → has k xs ≡ false
    → Chain (update f k v) p xs
unfolding update
Chain-update f k v {p} {xs} c out = Chain-frame f (update f k v) c (λ e h. spare e h)
  where
    spare : (e : ℕ) → has e xs ≡ true → update f k v e ≡ f e
    spare e h = differ xs e h out
      where
        differ : (ys : List ℕ) (a : ℕ) → has a ys ≡ true → has k ys ≡ false → update f k v a ≡ f a
        differ [] a i o = cc
        differ (y ∷ ys) a i o = ground (arith, differ ys a)

pub update_self : (f : ℕ → Option ℕ) (k : ℕ) (v : Option ℕ) → update f k v k ≡ v
unfolding update
update_self f k v = ground arith

-- The table stands for these buckets. An entry is in the bucket that its index names; one in no
-- bucket has no link.
pub record IsHash (h : Hash) (bucket : ℕ → List ℕ) : Type 0 where
  pub chains : (b : ℕ) → b < h.size → Chain h.link (h.head b) (bucket b)
  pub indexed : (b e : ℕ) → b < h.size → has e (bucket b) ≡ true → h.index e ≡ some b
  pub listed : (b e : ℕ) → h.index e ≡ some b → (b < h.size) × (has e (bucket b) ≡ true)
  pub loose : (e : ℕ) → h.index e ≡ none → h.link e ≡ none

-- An entry that is in no bucket, by its index, is in none.
pub not-has_of_loose :
    (h : Hash) (bucket : ℕ → List ℕ) (b e : ℕ)
    → IsHash h bucket
    → b < h.size
    → h.index e ≡ none
    → has e (bucket b) ≡ false
not-has_of_loose h bucket b e v lt free = elim (Bool-cases (has e (bucket b))) [
  | inl held ↦ let at = v.indexed b e lt held in cc
  | inr out ↦ out
]

-- An entry is in one bucket at most.
pub not-has_elsewhere :
    (h : Hash) (bucket : ℕ → List ℕ) (b c e : ℕ)
    → IsHash h bucket
    → c < h.size
    → h.index e ≡ some b
    → b ≢ c
    → has e (bucket c) ≡ false
not-has_elsewhere h bucket b c e v lt at ne = elim (Bool-cases (has e (bucket c))) [
  | inl held ↦ let there = v.indexed c e lt held in absurd (ne (cc))
  | inr out ↦ out
]
