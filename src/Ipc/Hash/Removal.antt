-- ===== src/Ipc/Hash/Removal.antt =====
-- Deletion from the table: the entry leaves its bucket, and the other buckets stay.
use nextbsd_kernel.Prelude.{
  ℕ, ◌<◌, ◌≡◌, refl, inl, inr, true, false, Option, none, some, List, [], ◌∷◌, ◌==◌, ltb, lt→ltb,
  arith, length, Bool-cases, ==_iff, ==_refl, ap, ◌∙◌,
}
use nextbsd_kernel.Ipc.Hash.{
  Hash, update, unlink_after, delete_from, delete, entry_hash_delete, assert_deleted, local_hash,
}
use nextbsd_kernel.Ipc.Hash.Chain.{
  has, Chain, nil, cons, Chain-update, update_self, IsHash, not-has_elsewhere,
}
use nextbsd_kernel.Ipc.Hash.Delete.{
  remove, without_entry, update-other, find_previous-Splits, spliced,
}

has-remove_self :
    (link : ℕ → Option ℕ) (e : ℕ) {p : Option ℕ} {xs : List ℕ}
    → Chain link p xs
    → has e (remove e xs) ≡ false
unfolding remove
has-remove_self link e nil = refl
has-remove_self link e (cons {e = x} {xs} new c) = elim (Bool-cases (x == e)) [
  | inl hit ↦ let eq : x ≡ e = (==_iff x e).0 hit in rw hit (rw eq at new)
  | inr miss ↦ ground (arith, has-remove_self link e c)
]

has-remove-ne : (e a : ℕ) (xs : List ℕ) → (a == e) ≡ false → has a (remove e xs) ≡ has a xs
unfolding remove
has-remove-ne e a [] ne = refl
has-remove-ne e a (x ∷ xs) ne = ground (arith, has-remove-ne e a xs)

module _ (h : Hash) (bucket : ℕ → List ℕ) (b entry : ℕ) (v : IsHash h bucket)
    (at : h.index entry ≡ some b) where
  -- A table with new heads and links for the buckets without the entry.
  Removed-IsHash :
      (head link : ℕ → Option ℕ)
      → ((c : ℕ) → c < h.size → Chain link (head c) (without_entry bucket b entry c))
      → ((e : ℕ) → (e == entry) ≡ false → h.index e ≡ none → link e ≡ h.link e)
      → link entry ≡ none
      → IsHash
          (record h { head = head; link = link; index = update h.index entry none })
          (without_entry bucket b entry)
  unfolding update without_entry
  Removed-IsHash head link chains kept gone = record {
    chains = chains;
    indexed = λ c e lt i. elim (Bool-cases (e == entry)) [
      | inl self ↦ let eq : e ≡ entry = (==_iff e entry).0 self in absurd (stays c lt (rw eq at i))
      | inr other ↦ rw other (v.indexed c e lt (ground (arith, has-remove-ne entry e (bucket c))))
    ];
    listed = λ c e i. elim (Bool-cases (e == entry)) [
      | inl self ↦ absurd (ground arith)
      | inr other ↦ ground (arith, v.listed c e, has-remove-ne entry e (bucket c))
    ];
    loose = λ e i. elim (Bool-cases (e == entry)) [
      | inl self ↦ let eq : e ≡ entry = (==_iff e entry).0 self in rw eq gone
      | inr other ↦ let free : h.index e ≡ none = ground arith in kept e other free ∙ v.loose e free
    ];
  }
    where
      stays : (c : ℕ) → c < h.size → ¬ (has entry (without_entry bucket b entry c) ≡ true)
      stays c lt i = elim (Bool-cases (c == b)) [
        | inl here ↦ let none_left = has-remove_self h.link entry (v.chains c lt) in ground arith
        | inr there ↦
            let out = not-has_elsewhere h bucket b c entry v lt at (λ e. ground arith) in
            ground arith
      ]

  -- A bucket other than `b` keeps its chain when links of bucket `b` alone are changed.
  elsewhere :
      (c e : ℕ) → c < h.size → (c == b) ≡ false → h.index e ≡ some b → has e (bucket c) ≡ false
  elsewhere c e lt there i = not-has_elsewhere h bucket b c e v lt i (λ eq. ground arith)

  front_chains :
      (xs : List ℕ)
      → h.head b ≡ some entry
      → bucket b ≡ entry ∷ xs
      → Chain h.link (h.link entry) xs
      → has entry xs ≡ false
      → (c : ℕ) → c < h.size
      → Chain
          (update h.link entry none)
          (update h.head b (h.link entry) c)
          (without_entry bucket b entry c)
  unfolding update without_entry remove
  front_chains xs first is rest out c lt = elim (Bool-cases (c == b)) [
    | inl here ↦
        let eq : c ≡ b = (==_iff c b).0 here in
        rw (here, eq, is, ==_refl entry) (Chain-update h.link entry none rest out)
    | inr there ↦
        rw there (Chain-update h.link entry none (v.chains c lt) (elsewhere c entry lt there at))
  ]

  behind_chains :
      (p q : ℕ) (xs : List ℕ)
      → b < h.size
      → h.head b ≡ some p
      → bucket b ≡ p ∷ xs
      → (p == entry) ≡ false
      → has q (p ∷ xs) ≡ true
      → Chain (spliced h.link entry q) (some p) (p ∷ remove entry xs)
      → (c : ℕ) → c < h.size
      → Chain (spliced h.link entry q) (h.head c) (without_entry bucket b entry c)
  unfolding without_entry remove
  behind_chains p q xs valid first is ne member chain c lt = elim (Bool-cases (c == b)) [
    | inl here ↦ let eq : c ≡ b = (==_iff c b).0 here in rw (here, eq, first, is, ne) chain
    | inr there ↦
        let qat : h.index q ≡ some b = v.indexed b q valid (rw is member) in
        rw there (
          Chain-update (update h.link q (h.link entry)) entry none
            (Chain-update h.link q (h.link entry) (v.chains c lt) (elsewhere c q lt there qat))
            (elsewhere c entry lt there at))
  ]

  -- What a deletion must give: the table without the entry.
  abbrev pub Removes : Option Hash → Type 0
  Removes r =
      (h' : Hash) × (r ≡ some h')
      × (h'.size ≡ h.size)
      × (h'.index entry ≡ none)
      × IsHash h' (without_entry bucket b entry)

  delete_from-Removes :
      (fuel : ℕ) {o : Option ℕ} {xs : List ℕ}
      → b < h.size
      → h.head b ≡ o
      → bucket b ≡ xs
      → Chain h.link o xs
      → has entry xs ≡ true
      → length xs < fuel
      → Removes (delete_from h fuel b entry o)
  unfolding delete_from
  delete_from-Removes fuel valid first is nil i enough = cc
  delete_from-Removes fuel valid first is (cons {e = p} {xs} new c) i enough =
      elim (Bool-cases (p == entry)) [
        | inl hit ↦
            let eq : p ≡ entry = (==_iff p entry).0 hit in
            (
              record h {
                head = update h.head b (h.link entry);
                link = update h.link entry none;
                index = update h.index entry none;
              },
              rw hit,
              refl,
              update_self h.index entry none,
              Removed-IsHash (update h.head b (h.link entry)) (update h.link entry none)
                  (front_chains xs (first ∙ ap some eq) (is ∙ ap (λ x. x ∷ xs) eq) (rw eq at c)
                    (rw eq at new))
                  (λ e ne _. update-other h.link entry none e ne) (update_self h.link entry none),
            )
        | inr miss ↦
            let s =
              find_previous-Splits h.link entry fuel p refl new c miss (ground arith)
                (omega arith) in
            (
              unlink_after h entry s.at,
              ground (arith, s.finds),
              unfold unlink_after in refl,
              unfold unlink_after in update_self h.index entry none,
              unfold unlink_after in
                  Removed-IsHash h.head (spliced h.link entry s.at)
                    (behind_chains p s.at xs valid first is miss s.member s.chain)
                    (λ e ne free.
                      update-other (update h.link s.at (h.link entry)) entry none e ne
                      ∙ update-other h.link s.at (h.link entry) e
                          (apart e s.at (v.indexed b s.at valid (rw is s.member)) free))
                    (update_self (update h.link s.at (h.link entry)) entry none),
            )
      ]
    where
      apart : (e q : ℕ) → h.index q ≡ some b → h.index e ≡ none → (e == q) ≡ false
      apart e q there free = elim (Bool-cases (e == q)) [
        | inl same ↦
            let eq : e ≡ q = (==_iff e q).0 same in
            let here : h.index e ≡ some b = rw eq there in cc
        | inr other ↦ other
      ]

  -- Deleting an entry that stands in bucket `b`, from that bucket, takes it out and leaves the
  -- other entries in their order.
  pub delete_from_bucket :
      (fuel : ℕ) → length (bucket b) < fuel → Removes (delete_from h fuel b entry (h.head b))
  delete_from_bucket fuel enough =
      let (valid, i) = v.listed b entry at in
      delete_from-Removes fuel valid refl refl (v.chains b valid) i enough

-- `ipc_hash_local_delete` of an entry that stands in the object's bucket takes it out of the
-- bucket, with its link and its index reset, and leaves all other entries where they are. The
-- search ends: fuel above the length of the bucket is enough.
pub delete-Removes :
    (h : Hash) (bucket : ℕ → List ℕ) (obj entry fuel : ℕ) (v : IsHash h bucket)
    (at : h.index entry ≡ some (local_hash obj h.size))
    → length (bucket (local_hash obj h.size)) < fuel
    → Removes h bucket (local_hash obj h.size) entry v at (delete h fuel obj entry)
unfolding delete
delete-Removes h bucket obj entry fuel v at enough =
    let valid = (v.listed (local_hash obj h.size) entry at).0 in
    let set : (h.size == 0) ≡ false = ground arith in
    rw set (delete_from_bucket h bucket (local_hash obj h.size) entry v at fuel enough)

entry_hash_delete-indexed :
    (h : Hash) (fuel entry b : ℕ)
    → h.index entry ≡ some b
    → ltb b h.size ≡ true
    → entry_hash_delete h fuel true entry
      ≡ assert_deleted entry (delete_from h fuel b entry (h.head b))
unfolding entry_hash_delete
entry_hash_delete-indexed h fuel entry b at valid = ground (arith, at, valid)

-- `ipc_entry_hash_delete` of an entry with a send right, which goes by the index in the entry,
-- takes the entry out of the bucket of that index, with its link and its index reset, and
-- leaves all other entries where they are. Its assertion holds, and the search ends: fuel
-- above the length of the bucket is enough.
pub entry_hash_delete-Removes :
    (h : Hash) (bucket : ℕ → List ℕ) (b entry fuel : ℕ) (v : IsHash h bucket)
    (at : h.index entry ≡ some b)
    → length (bucket b) < fuel
    → Removes h bucket b entry v at (entry_hash_delete h fuel true entry)
entry_hash_delete-Removes h bucket b entry fuel v at enough =
    let valid = lt→ltb b h.size (v.listed b entry at).0 in
    let (h', e, s, free, is) = delete_from_bucket h bucket b entry v at fuel enough in
    (
      h',
      entry_hash_delete-indexed h fuel entry b at valid
          ∙ (unfold assert_deleted in ground (arith, e, free)),
      s,
      free,
      is,
    )
