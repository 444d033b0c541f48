-- ===== src/Ipc/Hash/Delete.antt =====
-- `ipc_hash_local_delete` and `ipc_entry_hash_delete` take an entry out of its bucket.
use nextbsd_kernel.Prelude.{
  ℕ, zero, suc, ◌<◌, ◌≡◌, refl, inl, inr, true, false, Option, none, some, List, [], ◌∷◌, ◌==◌,
  if◌then◌else◌, arith, length, Bool-cases, ==_iff, ==_refl, sym, subst, ◌∙◌,
}
use nextbsd_kernel.Ipc.Hash.{found, update, find_previous}
use nextbsd_kernel.Ipc.Hash.Chain.{has, Chain, nil, cons, Chain-update, update_self}

unfoldable pub remove : ℕ → List ℕ → List ℕ
remove e [] = []
remove e (x ∷ xs) = if x == e then xs else x ∷ remove e xs

-- The buckets with `entry` taken out of bucket `b`.
unfoldable pub without_entry : (ℕ → List ℕ) → ℕ → ℕ → ℕ → List ℕ
without_entry bucket b entry c = if c == b then remove entry (bucket c) else bucket c

pub update-other :
    (f : ℕ → Option ℕ) (k : ℕ) (v : Option ℕ) (j : ℕ) → (j == k) ≡ false → update f k v j ≡ f j
unfolding update
update-other f k v j ne = rw ne

pub has-remove-false : (e a : ℕ) (xs : List ℕ) → has a xs ≡ false → has a (remove e xs) ≡ false
unfolding remove
has-remove-false e a [] out = refl
has-remove-false e a (x ∷ xs) out = ground (arith, has-remove-false e a xs)

ne_of_has : (a b : ℕ) (xs : List ℕ) → has a xs ≡ true → has b xs ≡ false → (b == a) ≡ false
ne_of_has a b xs i o = elim (Bool-cases (b == a)) [
  | inl same ↦ let eq : b ≡ a = (==_iff b a).0 same in let held : has b xs ≡ true = rw eq i in cc
  | inr other ↦ other
]

module _ (link : ℕ → Option ℕ) (entry : ℕ) where
  -- The links once `entry` is taken out behind `q`.
  abbrev pub spliced : ℕ → ℕ → Option ℕ
  spliced q = update (update link q (link entry)) entry none

  Chain-spliced :
      (q : ℕ) {p : Option ℕ} {xs : List ℕ}
      → Chain link p xs
      → has q xs ≡ false
      → has entry xs ≡ false
      → Chain (spliced q) p xs
  Chain-spliced q c out gone =
      Chain-update (update link q (link entry)) entry none (Chain-update link q (link entry) c out)
        gone

  -- What the search finds, from an entry that is not the one sought.
  pub record Splits (fuel p : ℕ) (ys : List ℕ) : Type 0 where
    pub at : ℕ
    pub finds : find_previous link entry fuel p ≡ found at
    pub member : has at (p ∷ ys) ≡ true
    pub chain : Chain (spliced at) (some p) (p ∷ remove entry ys)

  found_here :
      (fuel p q : ℕ)
      → link p ≡ some q
      → (q == entry) ≡ true
      → find_previous link entry (suc fuel) p ≡ found p
  unfolding find_previous
  found_here fuel p q e hit = ground arith

  found_later :
      (fuel p q : ℕ)
      → link p ≡ some q
      → (q == entry) ≡ false
      → find_previous link entry (suc fuel) p ≡ find_previous link entry fuel q
  unfolding find_previous
  found_later fuel p q e miss = ground arith

  -- An entry in front of the one behind which `entry` is taken out keeps its link.
  link_kept :
      (p q at : ℕ) (ys : List ℕ)
      → link p ≡ some q
      → (p == entry) ≡ false
      → has p ys ≡ false
      → has at ys ≡ true
      → spliced at p ≡ some q
  link_kept p q at ys e ne out i =
      update-other (update link at (link entry)) entry none p ne
      ∙ update-other link at (link entry) p (ne_of_has at p ys i out)
      ∙ e

  pub find_previous-Splits :
      (fuel p : ℕ) {o : Option ℕ} {ys : List ℕ}
      → link p ≡ o
      → has p ys ≡ false
      → Chain link o ys
      → (p == entry) ≡ false
      → has entry ys ≡ true
      → length ys < fuel
      → Splits fuel p ys
  unfolding remove
  find_previous-Splits zero p e new c ne i h = absurd (omega arith)
  find_previous-Splits (suc fuel) p e new nil ne i h = cc
  find_previous-Splits (suc fuel) p e new (cons {e = q} {xs = ys} out c) ne i h =
      elim (Bool-cases (q == entry)) [
        | inl hit ↦
            let eq : q ≡ entry = (==_iff q entry).0 hit in
            let np : has p ys ≡ false = ground arith in
            record {
              at = p;
              finds = found_here fuel p q e hit;
              member = rw (==_refl p);
              chain = rw hit (
                  cons np (
                    subst (λ o. Chain (spliced p) o ys)
                      (sym (
                        update-other (update link p (link entry)) entry none p ne
                        ∙ update_self link p (link entry)))
                      (Chain-spliced p (rw eq at c) np (rw eq at out))));
            }
        | inr miss ↦
            let rest = find_previous-Splits fuel q refl out c miss (ground arith) (omega arith) in
            let np : has p (q ∷ remove entry ys) ≡ false =
              ground (arith, has-remove-false entry p ys) in
            record {
              at = rest.at;
              finds = found_later fuel p q e miss ∙ rest.finds;
              member = ground (arith, rest.member);
              chain = rw miss (
                  cons np (
                    subst (λ o. Chain (spliced rest.at) o (q ∷ remove entry ys))
                      (sym (link_kept p q rest.at (q ∷ ys) e ne new rest.member)) rest.chain));
            }
      ]
