-- ===== src/Ipc/Hash/Insert.antt =====
-- `ipc_hash_local_insert` puts an entry in front of its bucket.
use nextbsd_kernel.Prelude.{
  ℕ, ◌<◌, ◌≡◌, refl, inl, inr, false, Option, none, some, List, ◌∷◌, ◌==◌, if◌then◌else◌, arith,
  Bool-cases, ==_iff, sym, ap, subst, ◌∙◌,
}
use nextbsd_kernel.Ipc.Hash.{Hash, update, link_front, insert, local_hash}
use nextbsd_kernel.Ipc.Hash.Chain.{
  has, Chain, cons, Chain-update, update_self, IsHash, not-has_of_loose,
}
use nextbsd_kernel.Ipc.Hash.Lookup.{local_hash-lt}

-- The buckets with `entry` in front of bucket `b`.
abbrev pub with_entry : (ℕ → List ℕ) → ℕ → ℕ → ℕ → List ℕ
with_entry bucket b entry c = if c == b then entry ∷ bucket c else bucket c

Chain-link_front :
    (link : ℕ → Option ℕ) (entry : ℕ) (p q : Option ℕ) {xs : List ℕ}
    → Chain link p xs
    → has entry xs ≡ false
    → Chain (link_front link entry q) p xs
unfolding link_front
Chain-link_front link entry p none c out = c
Chain-link_front link entry p (some q) c out = Chain-update link entry (some q) c out

link_front_self :
    (link : ℕ → Option ℕ) (entry : ℕ) (p : Option ℕ)
    → link entry ≡ none
    → link_front link entry p entry ≡ p
unfolding link_front
link_front_self link entry none free = free
link_front_self link entry (some p) free = update_self link entry (some p)

link_front-other :
    (link : ℕ → Option ℕ) (entry : ℕ) (p : Option ℕ) (e : ℕ)
    → (entry == e) ≡ false
    → link_front link entry p e ≡ link e
unfolding link_front update
link_front-other link entry none e ne = refl
link_front-other link entry (some p) e ne = ground arith

module _ (h : Hash) (bucket : ℕ → List ℕ) (obj entry : ℕ) (v : IsHash h bucket) (set : 0 < h.size)
    (free : h.index entry ≡ none) where
  insert_def : insert h obj entry ≡ record h {
    head = update h.head (local_hash obj h.size) (some entry);
    link = link_front h.link entry (h.head (local_hash obj h.size));
    index = update h.index entry (some (local_hash obj h.size));
  }
  unfolding insert
  insert_def = ground arith

  insert-chains :
      (c : ℕ)
      → c < h.size
      → Chain
          (link_front h.link entry (h.head (local_hash obj h.size)))
          (update h.head (local_hash obj h.size) (some entry) c)
          (with_entry bucket (local_hash obj h.size) entry c)
  unfolding update
  insert-chains c lt =
      let out = not-has_of_loose h bucket c entry v lt free in
      let kept =
        Chain-link_front h.link entry (h.head c) (h.head (local_hash obj h.size)) (v.chains c lt)
          out in
      elim (Bool-cases (c == local_hash obj h.size)) [
        | inl here ↦
            let at : local_hash obj h.size ≡ c = sym ((==_iff c (local_hash obj h.size)).0 here) in
            rw here (
              cons out (
                subst
                  (λ p.
                    Chain (link_front h.link entry (h.head (local_hash obj h.size))) p (bucket c))
                  (ap h.head (sym at)
                    ∙ sym (
                        link_front_self h.link entry (h.head (local_hash obj h.size))
                          (v.loose entry free)))
                  kept))
        | inr other ↦ rw other kept
      ]

  -- Into an allocated table, `ipc_hash_local_insert` puts an entry that is in no bucket in front
  -- of the object's bucket; the other buckets, and the links that they run through, stay.
  pub insert-IsHash : IsHash (insert h obj entry) (with_entry bucket (local_hash obj h.size) entry)
  insert-IsHash = rw insert_def (record {
    chains = insert-chains;
    indexed = λ b e lt i. unfold update in ground (arith, v.indexed b e lt);
    listed = λ b e at. unfold update in ground (arith, v.listed b e, local_hash-lt obj h.size set);
    loose = λ e at.
        unfold update in
        ground (arith, v.loose e, link_front-other h.link entry (h.head (local_hash obj h.size)) e);
  })
