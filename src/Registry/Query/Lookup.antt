-- ===== src/Registry/Query/Lookup.antt =====
-- The answer of `ioreg_lookup`: the matching devices in preorder.
use nextbsd_kernel.Prelude.{
  ℕ, zero, suc, ◌+◌, ◌-◌, ◌%◌, ◌^◌, ◌<◌, ◌≤◌, ◌≡◌, refl, sym, ap, subst, ◌∙◌, inl, inr, Bool, true,
  false, some, List, [], ◌∷◌, ◌++◌, ltb, arith, Bool-cases, length, take, keep, map, foldl,
  length-append,
}
use nextbsd_kernel.Prelude.CString.{take-all}
use nextbsd_kernel.Registry.Map.{IdMap, id_for, parent_id}
use nextbsd_kernel.Registry.Map.Known.{
  Known, id_in, id_in-Known, id_for-Known, id_for-keeps, parent_id-keeps,
}
use nextbsd_kernel.Registry.Node.{Newbus, Criteria, fill_node, node_matches_crit, dev_matches_crit}
use nextbsd_kernel.Registry.Query.{
  top, find_root, Search, put, note_match, visit, max_depth, bound_criteria, Ids, lookup_from,
  lookup,
}
use nextbsd_kernel.Registry.Query.Preorder.{devices, lookup_walk-devices}

-- The criteria do not read the ids of the node.
unfoldable pub wanted : Newbus → Criteria → ℕ → Bool
wanted nb crit d = dev_matches_crit nb d 0 0 true crit

dev_matches_crit-wanted :
    (nb : Newbus) (crit : Criteria) (d id up : ℕ)
    → dev_matches_crit nb d id up true crit ≡ wanted nb crit d
unfolding wanted dev_matches_crit node_matches_crit fill_node
dev_matches_crit-wanted nb crit d id up = refl

put-append : (xs : List ℕ) (v : ℕ) → put xs (length xs) v ≡ xs ++ v ∷ []
unfolding put
put-append [] v = refl
put-append (x ∷ xs) v = ap (◌∷◌ x) (put-append xs v)

module _ (nb : Newbus) (crit : Criteria) (cap : ℕ) where
  visit_map :
      (s : Search) (d : ℕ)
      → (visit nb crit cap s d).map ≡ (parent_id (id_for s.map d).0 (nb.parent d)).0
  unfolding visit note_match
  visit_map s d = elim (Bool-cases (wanted nb crit d)) [
    | inl hit ↦
        rw
          (
            dev_matches_crit-wanted nb crit d (id_for s.map d).1
                (parent_id (id_for s.map d).0 (nb.parent d)).1,
            hit,
          )
          refl
    | inr miss ↦
        rw
          (
            dev_matches_crit-wanted nb crit d (id_for s.map d).1
                (parent_id (id_for s.map d).0 (nb.parent d)).1,
            miss,
          )
          refl
  ]

  visit-miss :
      (s : Search) (d : ℕ)
      → wanted nb crit d ≡ false
      → visit nb crit cap s d ≡ record s { map = (parent_id (id_for s.map d).0 (nb.parent d)).0 }
  unfolding visit
  visit-miss s d miss =
      rw
        (
          dev_matches_crit-wanted nb crit d (id_for s.map d).1
              (parent_id (id_for s.map d).0 (nb.parent d)).1,
          miss,
        )
        refl

  visit-hit :
      (s : Search) (d : ℕ)
      → wanted nb crit d ≡ true
      → visit nb crit cap s d
        ≡ note_match cap
            (record s { map = (parent_id (id_for s.map d).0 (nb.parent d)).0 })
            (id_for s.map d).1
  unfolding visit
  visit-hit s d hit =
      rw
        (
          dev_matches_crit-wanted nb crit d (id_for s.map d).1
              (parent_id (id_for s.map d).0 (nb.parent d)).1,
          hit,
        )
        refl

  visit-keeps : (s : Search) (d x i : ℕ) → Known s.map x i → Known (visit nb crit cap s d).map x i
  visit-keeps s d x i k =
      subst (λ m. Known m x i) (sym (visit_map s d))
        (parent_id-keeps (id_for s.map d).0 x i (nb.parent d) (id_for-keeps s.map x d i k))

  visit-Known : (s : Search) (d : ℕ) → Known (visit nb crit cap s d).map d (id_for s.map d).1
  visit-Known s d =
      subst (λ m. Known m d (id_for s.map d).1) (sym (visit_map s d))
        (parent_id-keeps (id_for s.map d).0 d (id_for s.map d).1 (nb.parent d)
          (id_for-Known s.map d))

  visits-keeps :
      (s : Search) (ds : List ℕ) (x i : ℕ)
      → Known s.map x i
      → Known (foldl (visit nb crit cap) s ds).map x i
  visits-keeps s [] x i k = k
  visits-keeps s (d ∷ ds) x i k =
      visits-keeps (visit nb crit cap s d) ds x i (visit-keeps s d x i k)

  -- While there is room, the search has stored all that it has counted.
  abbrev pub Stored : Search → Type 0
  Stored s = s.count < cap → length s.ids ≡ s.count

  -- The matches among some devices are counted, and the ids of those that fit are stored, in
  -- order.
  abbrev pub Collects : Search → List ℕ → Search → Type 0
  Collects s ds s' =
      (s'.count ≡ s.count + length (keep (wanted nb crit) ds))
      × (s'.ids ≡ s.ids ++ take (cap - s.count) (map (id_in s'.map) (keep (wanted nb crit) ds)))

  take-one :
      (ids : List ℕ) (k n i : ℕ) (rest : List ℕ)
      → n < cap
      → k ≡ cap - n
      → (ids ++ i ∷ []) ++ take (cap - (n + 1)) rest ≡ ids ++ take k (i ∷ rest)
  take-one [] zero n i rest lt is = absurd (omega arith)
  take-one [] (suc k) n i rest lt is = let same : cap - (n + 1) ≡ k = omega arith in rw same refl
  take-one (x ∷ ids) k n i rest lt is = ap (◌∷◌ x) (take-one ids k n i rest lt is)

  take-none :
      (ids : List ℕ) (k n : ℕ) (i : ℕ) (rest : List ℕ)
      → ltb n cap ≡ false
      → k ≡ cap - n
      → ids ++ take (cap - (n + 1)) rest ≡ ids ++ take k (i ∷ rest)
  take-none ids k n i rest full is =
      let none_left : k ≡ 0 = ground arith in
      let none_after : cap - (n + 1) ≡ 0 = ground arith in rw (none_left, none_after) refl

  append-none : (ids : List ℕ) (k : ℕ) → ids ++ take k [] ≡ ids
  append-none [] zero = refl
  append-none [] (suc k) = refl
  append-none (x ∷ ids) k = ap (◌∷◌ x) (append-none ids k)

  note_match-room :
      (s : Search) (i : ℕ)
      → ltb s.count cap ≡ true
      → s.count + 1 < 2 ^ 32
      → Stored s
      → note_match cap s i ≡ record s { ids = s.ids ++ i ∷ []; count = s.count + 1 }
  unfolding note_match
  note_match-room s i room small stored =
      let place : length s.ids ≡ s.count = stored (ground arith) in
      let added : put s.ids s.count i ≡ s.ids ++ i ∷ [] =
        subst (λ n. put s.ids n i ≡ s.ids ++ i ∷ []) place (put-append s.ids i) in
      let next : (s.count + 1) % 2 ^ 32 ≡ s.count + 1 = omega arith in rw (room, added, next) refl

  note_match-full :
      (s : Search) (i : ℕ)
      → ltb s.count cap ≡ false
      → s.count + 1 < 2 ^ 32
      → note_match cap s i ≡ record s { count = s.count + 1 }
  unfolding note_match
  note_match-full s i full small =
      let next : (s.count + 1) % 2 ^ 32 ≡ s.count + 1 = omega arith in rw (full, next) refl

  note_match-Stored :
      (s : Search) (i : ℕ) → s.count + 1 < 2 ^ 32 → Stored s → Stored (note_match cap s i)
  note_match-Stored s i small stored = elim (Bool-cases (ltb s.count cap)) [
    | inl room ↦
        subst Stored (sym (note_match-room s i room small stored))
          (λ lt. length-append s.ids (i ∷ []) ∙ ap (λ n. n + 1) (stored (ground arith)))
    | inr full ↦ subst Stored (sym (note_match-full s i full small)) (λ lt. absurd (ground arith))
  ]

  note_match_count :
      (s : Search) (i : ℕ) → s.count + 1 < 2 ^ 32 → (note_match cap s i).count ≡ s.count + 1
  unfolding note_match
  note_match_count s i small = omega arith

  Collects-hit :
      (s : Search) (d i : ℕ) (ds : List ℕ) (s' : Search)
      → wanted nb crit d ≡ true
      → s.count + 1 < 2 ^ 32
      → Stored s
      → id_in s'.map d ≡ i
      → Collects (note_match cap s i) ds s'
      → Collects s (d ∷ ds) s'
  Collects-hit s d i ds s' hit small stored at c = elim (Bool-cases (ltb s.count cap)) [
    | inl room ↦
        let (count, ids) =
          subst (λ t. Collects t ds s') (note_match-room s i room small stored) c in
        (
          rw hit (omega (arith, count)),
          rw (hit, at)
              (ids
                ∙ take-one s.ids (cap - s.count) s.count i
                    (map (id_in s'.map) (keep (wanted nb crit) ds)) (ground arith) refl),
        )
    | inr full ↦
        let (count, ids) = subst (λ t. Collects t ds s') (note_match-full s i full small) c in
        (
          rw hit (omega (arith, count)),
          rw (hit, at)
              (ids
                ∙ take-none s.ids (cap - s.count) s.count i
                    (map (id_in s'.map) (keep (wanted nb crit) ds)) full refl),
        )
  ]

  visits-Collects :
      (s : Search) (ds : List ℕ)
      → s.count + length (keep (wanted nb crit) ds) < 2 ^ 32
      → Stored s
      → Collects s ds (foldl (visit nb crit cap) s ds)
  visits-Collects s [] small stored = (omega arith, sym (append-none s.ids (cap - s.count)))
  visits-Collects s (d ∷ ds) small stored = elim (Bool-cases (wanted nb crit d)) [
    | inl hit ↦
        let id = (id_for s.map d).1 in
        let looked : Search = record s { map = (parent_id (id_for s.map d).0 (nb.parent d)).0 } in
        let after = visit nb crit cap s d in
        let fits : s.count + suc (length (keep (wanted nb crit) ds)) < 2 ^ 32 =
          ground (arith, small, hit) in
        let room : s.count + 1 < 2 ^ 32 = omega (arith, fits) in
        let is = visit-hit s d hit in
        let one : after.count ≡ s.count + 1 =
          ap (λ t. t.count) is ∙ note_match_count looked id room in
        Collects-hit looked d id ds (foldl (visit nb crit cap) after ds) hit room stored
          (id_in-Known (foldl (visit nb crit cap) after ds).map d id
            (visits-keeps after ds d id (visit-Known s d)))
          (subst (λ t. Collects t ds (foldl (visit nb crit cap) after ds)) is
            (visits-Collects after ds (omega (arith, one, fits))
              (subst Stored (sym is) (note_match-Stored looked id room stored))))
    | inr miss ↦
        let looked : Search = record s { map = (parent_id (id_for s.map d).0 (nb.parent d)).0 } in
        let after = visit nb crit cap s d in
        let is = visit-miss s d miss in
        let (count, ids) =
          subst (λ t. Collects t ds (foldl (visit nb crit cap) after ds)) is
            (visits-Collects after ds (ground (arith, small, miss, ap (λ t. t.count) is))
              (subst Stored (sym is) stored)) in
        (rw miss count, rw miss ids)
  ]

length-take-map : (f : ℕ → ℕ) (n : ℕ) (xs : List ℕ) → length (take n (map f xs)) ≤ length xs
length-take-map f zero xs = omega arith
length-take-map f (suc n) [] = omega arith
length-take-map f (suc n) (x ∷ xs) = omega (arith, length-take-map f n xs)

-- The answer of a search that has counted some devices and stored their ids.
search-Ids :
    (s : Search) (hits : List ℕ) (max : ℕ)
    → s.count ≡ length hits
    → s.ids ≡ take max (map (id_in s.map) hits)
    → ◌≡◌ {A = Ids}
        (record { count = s.count; ids = take s.count s.ids })
        (record { count = length hits; ids = take max (map (id_in s.map) hits) })
search-Ids s hits max count ids =
    let all =
      take-all (length hits) (take max (map (id_in s.map) hits))
        (length-take-map (id_in s.map) max hits) in
    rw (count, ids, all) refl

-- The devices of the tree that the criteria ask for, in preorder.
abbrev pub matches : Newbus → Criteria → ℕ → List ℕ
matches nb crit r = keep (wanted nb (bound_criteria crit)) (devices nb (max_depth + 1) r)

-- `ioreg_lookup` reports how many devices of the tree match, and gives the ids of the first `max`
-- of them, in preorder and down to the depth limit: the ids that the map has for these devices
-- when the lookup ends. The tree has fewer than 2^32 matches.
pub lookup-matches :
    (nb : Newbus) (fuel : ℕ) (m : IdMap) (crit : Criteria) (max r : ℕ)
    → find_root nb fuel m ≡ top r
    → length (matches nb crit r) < 2 ^ 32
    → (m' : IdMap) × (lookup nb fuel m crit max
        ≡ some (
          m',
          record {
            count = length (matches nb crit r);
            ids = take max (map (id_in m') (matches nb crit r));
          },
        ))
unfolding lookup lookup_from
lookup-matches nb fuel m crit max r at small =
    let c = bound_criteria crit in
    let s : Search = record { map = m; ids = []; count = 0 } in
    let ds = devices nb (max_depth + 1) r in
    let hits = matches nb crit r in
    let after = foldl (visit nb c max) s ds in
    let (count, ids) = visits-Collects nb c max s ds (omega (arith, small)) (λ _. refl) in
    let whole : max - 0 ≡ max = omega arith in
    let all = ids ∙ ap (λ k. take k (map (id_in after.map) hits)) whole in
    let walked = lookup_walk-devices nb c max (max_depth + 1) s r in
    (
      after.map,
      ap (lookup_from nb m crit max) at
          ∙ ap (λ t. some (t.map, record { count = t.count; ids = take t.count t.ids })) walked
          ∙ ap (λ a. some (after.map, a)) (search-Ids after hits max (omega (arith, count)) all),
    )
