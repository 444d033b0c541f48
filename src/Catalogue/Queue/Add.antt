-- ===== src/Catalogue/Queue/Add.antt =====
-- What adding a personality does: it is refused with nothing changed, or it is stored, the
-- pending devices are matched again and the scan of the present devices is scheduled.
use nextbsd_kernel.Prelude.{
  ℕ, ◌+◌, ◌*◌, ◌%◌, ◌^◌, ◌≤◌, ◌≡◌, refl, sym, ap, subst, ◌∙◌, ◌⊎◌, inl, inr, Bool, true, false,
  ◌||◌, List, [], ◌∷◌, ◌++◌, ltb, ◌==◌, if◌then◌else◌, arith, All, All-append, All-mono, All-last,
  take, any, Bool-cases,
}
use nextbsd_kernel.Prelude.CString.{strlcpy, is_empty}
use nextbsd_kernel.Prelude.Int.{ℤ, ◌≤ℤ◌}
use nextbsd_kernel.Prelude.Result.{Result, ok, err, Errno, einval}
use nextbsd_kernel.Catalogue.Store.{
  Personality, max_match, compat_max, provider_iopcidevice, claims_word, lookup_pci,
}
use nextbsd_kernel.Catalogue.Store.Best.{IsBest, lookup_pci-best}
use nextbsd_kernel.Catalogue.Queue.{
  Catalogue, AddRequest, AddCompatRequest, bundle_of, insert_record, publish, add, add_compat,
  personality, compat_personality, store_copied,
}
use nextbsd_kernel.Catalogue.Queue.Drain.{
  loads, unclaimed, rematch_pending-splits, rematch_pending-count,
}

-- `c'` is `c` with `r` stored, the claimed pending devices sent, and the scan scheduled.
pub record Published (c c' : Catalogue) (r : Personality) : Type 0 where
  pub records : c'.records ≡ c.records ++ r ∷ []
  pub count : c'.count ≡ (c.count + 1) % 2 ^ 32
  pub pending : c'.pending ≡ unclaimed c'.records c.pending
  pub sent : c'.sent ≡ c.sent ++ loads c.channel c'.records c.pending
  pub work : c'.work ≡ c.work
  pub scan : c'.present_task ≡ true

publish-Published : (c : Catalogue) (r : Personality) → Published c (publish c r) r
unfolding publish insert_record
publish-Published c r =
    let (rs, p, s, w) = rematch_pending-splits (insert_record c r) in
    record {
      records = rs;
      count = rematch_pending-count (insert_record c r);
      pending = p ∙ ap (λ l. unclaimed l c.pending) (sym rs);
      sent = s ∙ ap (λ l. c.sent ++ loads c.channel l c.pending) (sym rs);
      work = w;
      scan = refl;
    }

-- The two outcomes of an add: `count` is the number of items, `copied` what was copied in.
abbrev pub Outcome :
    Catalogue
    → ℕ
    → List ℕ
    → Result (List ℕ)
    → (List ℕ → Personality)
    → Catalogue × Result (Unit {0})
    → Type 0
Outcome c count bundle copied build r =
    ((r.0 ≡ c) × ((e : Errno) × (r.1 ≡ err e)))
    ⊎ ((items : List ℕ) × (copied ≡ ok items)
        × (r.1 ≡ ok tt)
        × (1 ≤ count)
        × (count ≤ max_match)
        × (is_empty (bundle_of bundle) ≡ false)
        × Published c r.0 (build items))

store_copied-Outcome :
    (c : Catalogue) (count : ℕ) (bundle : List ℕ) (copied : Result (List ℕ))
    (build : List ℕ → Personality)
    → 1 ≤ count
    → count ≤ max_match
    → is_empty (bundle_of bundle) ≡ false
    → Outcome c count bundle copied build (store_copied c build copied)
unfolding store_copied
store_copied-Outcome c count bundle (err e) build lo hi full = inl (refl, (e, refl))
store_copied-Outcome c count bundle (ok items) build lo hi full =
    inr (items, refl, refl, lo, hi, full, publish-Published c (build items))

-- The guards of both forms of add.
guarded-Outcome :
    (c : Catalogue) (count : ℕ) (bundle : List ℕ) (copied : Result (List ℕ))
    (build : List ℕ → Personality)
    → Outcome c count bundle copied build (
        if count == 0 || ltb max_match count
        then (c, err einval)
        else if is_empty (bundle_of bundle)
        then (c, err einval)
        else store_copied c build copied)
guarded-Outcome c count bundle copied build =
    elim (Bool-cases (count == 0 || ltb max_match count)) [
      | inl bad ↦ rw bad (inl (refl, (einval, refl)))
      | inr counted ↦ rw counted (elim (Bool-cases (is_empty (bundle_of bundle))) [
        | inl empty ↦ rw empty (inl (refl, (einval, refl)))
        | inr full ↦
            subst
              (λ b.
                Outcome c count bundle copied build
                  (if b then (c, err einval) else store_copied c build copied))
              (sym full)
              (store_copied-Outcome c count bundle copied build (ground arith) (ground arith) full)
      ])
    ]

module _ (copyin : ℕ → ℕ → Result (List ℕ)) (c : Catalogue) where
  -- `iocat_add` either fails and changes nothing, or it succeeds: then 1 to 512 match words were
  -- copied in and the bundle id is not empty, the record is stored behind the others, each pending
  -- device that a record now claims is taken off the list and requested (where kextd can be
  -- reached), in order, and the scan of the present devices is scheduled.
  pub add-Outcome :
      (ua : AddRequest)
      → Outcome c ua.nmatch ua.bundle_id
          (copyin ua.matches ua.nmatch)
          (personality ua)
          (add copyin c ua)
  unfolding add
  add-Outcome ua = guarded-Outcome c ua.nmatch ua.bundle_id _ (personality ua)

  -- `iocat_add_compat` either fails and changes nothing, or it succeeds: then 1 to 512 strings
  -- of 128 bytes each were copied in and the bundle id is not empty, the record, for device-tree
  -- nodes and with every slot terminated, is stored behind the others, each pending device that
  -- a record now claims is taken off the list and requested (where kextd can be reached), in
  -- order, and the scan of the present devices is scheduled.
  pub add_compat-Outcome :
      (ua : AddCompatRequest)
      → Outcome c ua.ncompat ua.bundle_id
          (copyin ua.compat (ua.ncompat * compat_max))
          (compat_personality ua)
          (add_compat copyin c ua)
  unfolding add_compat
  add_compat-Outcome ua = guarded-Outcome c ua.ncompat ua.bundle_id _ (compat_personality ua)

-- A record that is claimed and stands in the list does not outscore the best.
le-IsBest :
    (claims : Personality → Bool) (rs : List Personality) (r b : Personality)
    → claims r ≡ true
    → IsBest claims (rs ++ r ∷ []) b
    → r.probe_score ≤ℤ b.probe_score
le-IsBest claims rs r b c best = All-last P rs r (subst (All P) (sym best.splits) all) c
  where
    P : Personality → Type 0
    P q = claims q ≡ true → q.probe_score ≤ℤ b.probe_score

    all : All P (best.before ++ b ∷ best.after)
    all =
        All-append P best.before (b ∷ best.after)
          (All-mono _ P best.before (λ q f h. let lt = f h in omega arith) best.earlier)
          ((λ _. omega arith), best.later)

-- A lookup that succeeds with at least a score.
abbrev pub Reaches : ℤ → Result (List ℕ × ℤ) → Type 0
Reaches score answer = (bundle : List ℕ) × (won : ℤ) × (answer ≡ ok (bundle, won)) × (score ≤ℤ won)

lookup_pci-append :
    (rs : List Personality) (r : Personality) (word buflen : ℕ)
    → claims_word word r ≡ true
    → Reaches r.probe_score (lookup_pci (rs ++ r ∷ []) word buflen)
lookup_pci-append rs r word buflen claimed = elim (lookup_pci-best (rs ++ r ∷ []) word buflen) [
  | inl (missed, un) ↦ let unclaimed : claims_word word r ≡ false = All-last _ rs r un in cc
  | inr (b, won, best) ↦ (
    strlcpy b.bundle_id buflen,
    b.probe_score,
    won,
    le-IsBest (claims_word word) rs r b claimed best,
  )
]

personality-claims :
    (ua : AddRequest) (words : List ℕ) (word : ℕ)
    → ua.provider_class ≡ provider_iopcidevice
    → any (λ m. m == word) (take ua.nmatch words) ≡ true
    → claims_word word (personality ua words) ≡ true
unfolding claims_word personality
personality-claims ua words word pci listed = rw (pci, listed)

personality-score :
    (ua : AddRequest) (words : List ℕ) → (personality ua words).probe_score ≡ ua.probe_score
unfolding personality
personality-score ua words = refl

-- After `iocat_add` stores a PCI personality, a lookup of any of its match words succeeds, with a
-- score that is at least the new one's.
pub lookup_pci-add :
    (copyin : ℕ → ℕ → Result (List ℕ)) (c c' : Catalogue) (ua : AddRequest) (words : List ℕ)
    (word buflen : ℕ)
    → add copyin c ua ≡ (c', ok tt)
    → copyin ua.matches ua.nmatch ≡ ok words
    → ua.provider_class ≡ provider_iopcidevice
    → any (λ m. m == word) (take ua.nmatch words) ≡ true
    → Reaches ua.probe_score (lookup_pci c'.records word buflen)
lookup_pci-add copyin c c' ua words word buflen e got pci listed = elim (add-Outcome copyin c ua) [
  | inl (_, (x, bad)) ↦ let fine : (add copyin c ua).1 ≡ ok tt = ap (λ r. r.1) e in cc
  | inr (ws, copied, _, _, _, _, p) ↦
      let same : ws ≡ words = cc in
      let stored : c'.records ≡ c.records ++ personality ua words ∷ [] =
        ap (λ r. r.0.records) (sym e)
        ∙ p.records
        ∙ ap (λ l. c.records ++ personality ua l ∷ []) same in
      let reach =
        lookup_pci-append c.records (personality ua words) word buflen
          (personality-claims ua words word pci listed) in
      rw stored (
        subst (λ s. Reaches s (lookup_pci (c.records ++ personality ua words ∷ []) word buflen))
          (personality-score ua words) reach)
]
