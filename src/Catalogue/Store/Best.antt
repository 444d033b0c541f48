-- ===== src/Catalogue/Store/Best.antt =====
-- Both lookups of the catalogue return the first of the best personalities.
use nextbsd_kernel.Prelude.{
  ℕ, ◌≡◌, refl, ap, sym, subst, ◌⊎◌, inl, inr, Bool, true, false, Option, none, some, List, [], ◌∷◌,
  ◌++◌, arith, All, Bool-cases, ltb→lt,
}
use nextbsd_kernel.Prelude.Int.{ℤ, ltb_ℤ, ◌≤ℤ◌, ◌<ℤ◌}
use nextbsd_kernel.Prelude.Result.{Result, ok, err, enoent}
use nextbsd_kernel.Prelude.CString.{strlcpy, is_empty}
use nextbsd_kernel.Catalogue.Store.{
  Personality, better, best_from, winner, claims_word, claims_compat, lookup_pci, lookup_compat,
}

-- `b` is claimed, comes before every other claimed record of its score, and none scores higher.
pub record IsBest (claims : Personality → Bool) (rs : List Personality) (b : Personality)
    : Type 0 where
  pub before : List Personality
  pub after : List Personality
  pub splits : rs ≡ before ++ b ∷ after
  pub claimed : claims b ≡ true
  pub earlier : All (λ r. claims r ≡ true → r.probe_score <ℤ b.probe_score) before
  pub later : All (λ r. claims r ≡ true → r.probe_score ≤ℤ b.probe_score) after

abbrev pub Unclaimed : (Personality → Bool) → List Personality → Type 0
Unclaimed claims = All (λ r. claims r ≡ false)

module _ (claims : Personality → Bool) where
  -- The loop from a best record so far: it is kept, or a higher one is found behind it.
  abbrev Improves : Personality → List Personality → Option Personality → Type 0
  Improves b rs o =
      ((o ≡ some b) × All (λ r. claims r ≡ true → r.probe_score ≤ℤ b.probe_score) rs)
      ⊎ ((c : Personality) × (o ≡ some c) × IsBest claims rs c × (b.probe_score <ℤ c.probe_score))

  raise :
      (b r : Personality) (rs : List Personality) (o : Option Personality)
      → claims r ≡ true
      → b.probe_score <ℤ r.probe_score
      → Improves r rs o
      → Improves b (r ∷ rs) o
  raise b r rs o c lt (inl (e, top)) = inr (
    r,
    e,
    record { before = []; after = rs; splits = refl; claimed = c; earlier = tt; later = top },
    lt,
  )
  raise b r rs o c lt (inr (w, e, best, gt)) = inr (
    w,
    e,
    record {
      before = r ∷ best.before;
      after = best.after;
      splits = ap (◌∷◌ r) best.splits;
      claimed = best.claimed;
      earlier = ((λ _. gt), best.earlier);
      later = best.later;
    },
    omega arith,
  )

  skip :
      (b r : Personality) (rs : List Personality) (o : Option Personality)
      → (claims r ≡ true → r.probe_score ≤ℤ b.probe_score)
      → Improves b rs o
      → Improves b (r ∷ rs) o
  skip b r rs o low (inl (e, top)) = inl (e, (low, top))
  skip b r rs o low (inr (w, e, best, gt)) = inr (
    w,
    e,
    record {
      before = r ∷ best.before;
      after = best.after;
      splits = ap (◌∷◌ r) best.splits;
      claimed = best.claimed;
      earlier = ((λ c. let h = low c in omega arith), best.earlier);
      later = best.later;
    },
    gt,
  )

  -- One round of the loop, by what the record does to the best so far.
  round_raised :
      (b r : Personality) (rs : List Personality)
      → claims r ≡ true
      → ltb_ℤ b.probe_score r.probe_score ≡ true
      → best_from claims (some b) (r ∷ rs) ≡ best_from claims (some r) rs
  unfolding best_from better
  round_raised b r rs c lt = rw (c, lt)

  round_kept :
      (b r : Personality) (rs : List Personality)
      → claims r ≡ true
      → ltb_ℤ b.probe_score r.probe_score ≡ false
      → best_from claims (some b) (r ∷ rs) ≡ best_from claims (some b) rs
  unfolding best_from better
  round_kept b r rs c ge = rw (c, ge)

  round_missed :
      (o : Option Personality) (r : Personality) (rs : List Personality)
      → claims r ≡ false
      → best_from claims o (r ∷ rs) ≡ best_from claims o rs
  unfolding best_from
  round_missed o r rs miss = rw miss

  round_first :
      (r : Personality) (rs : List Personality)
      → claims r ≡ true
      → best_from claims none (r ∷ rs) ≡ best_from claims (some r) rs
  unfolding best_from better
  round_first r rs c = rw c

  best_from-Improves :
      (b : Personality) (rs : List Personality) → Improves b rs (best_from claims (some b) rs)
  unfolding best_from
  best_from-Improves b [] = inl (refl, tt)
  best_from-Improves b (r ∷ rs) = elim (Bool-cases (claims r)) [
    | inl c ↦ elim (Bool-cases (ltb_ℤ b.probe_score r.probe_score)) [
      | inl lt ↦
          subst (Improves b (r ∷ rs)) (sym (round_raised b r rs c lt))
            (raise b r rs _ c (ltb→lt _ _ lt) (best_from-Improves r rs))
      | inr ge ↦
          subst (Improves b (r ∷ rs)) (sym (round_kept b r rs c ge))
            (skip b r rs _ (λ _. ground arith) (best_from-Improves b rs))
    ]
    | inr miss ↦
        subst (Improves b (r ∷ rs)) (sym (round_missed (some b) r rs miss))
          (skip b r rs _ (λ c. cc) (best_from-Improves b rs))
  ]

  -- What the loop finds from no record: the best of the list, or that nothing is claimed.
  abbrev pub Finds : List Personality → Option Personality → Type 0
  Finds rs o =
      ((o ≡ none) × Unclaimed claims rs) ⊎ ((b : Personality) × (o ≡ some b) × IsBest claims rs b)

  pass :
      (r : Personality) (rs : List Personality) (o : Option Personality)
      → claims r ≡ false
      → Finds rs o
      → Finds (r ∷ rs) o
  pass r rs o miss (inl (e, un)) = inl (e, (miss, un))
  pass r rs o miss (inr (b, e, best)) = inr (
    b,
    e,
    record {
      before = r ∷ best.before;
      after = best.after;
      splits = ap (◌∷◌ r) best.splits;
      claimed = best.claimed;
      earlier = ((λ c. cc), best.earlier);
      later = best.later;
    },
  )

  start :
      (r : Personality) (rs : List Personality) (o : Option Personality)
      → claims r ≡ true
      → Improves r rs o
      → Finds (r ∷ rs) o
  start r rs o c (inl (e, top)) = inr (
    r,
    e,
    record { before = []; after = rs; splits = refl; claimed = c; earlier = tt; later = top },
  )
  start r rs o c (inr (w, e, best, gt)) = inr (
    w,
    e,
    record {
      before = r ∷ best.before;
      after = best.after;
      splits = ap (◌∷◌ r) best.splits;
      claimed = best.claimed;
      earlier = ((λ _. gt), best.earlier);
      later = best.later;
    },
  )

  pub best_from-Finds : (rs : List Personality) → Finds rs (best_from claims none rs)
  unfolding best_from
  best_from-Finds [] = inl (refl, tt)
  best_from-Finds (r ∷ rs) = elim (Bool-cases (claims r)) [
    | inl c ↦
        subst (Finds (r ∷ rs)) (sym (round_first r rs c)) (start r rs _ c (best_from-Improves r rs))
    | inr miss ↦
        subst (Finds (r ∷ rs)) (sym (round_missed none r rs miss))
          (pass r rs _ miss (best_from-Finds rs))
  ]

-- What a lookup must answer: the best claimed personality, or that there is none.
abbrev pub Answers : (Personality → Bool) → ℕ → List Personality → Result (List ℕ × ℤ) → Type 0
Answers claims buflen rs answer =
    ((answer ≡ err enoent) × Unclaimed claims rs)
    ⊎ ((b : Personality) × (answer ≡ ok (strlcpy b.bundle_id buflen, b.probe_score))
        × IsBest claims rs b)

winner-Answers :
    (claims : Personality → Bool) (buflen : ℕ) (rs : List Personality)
    → Answers claims buflen rs (winner buflen (best_from claims none rs))
unfolding winner
winner-Answers claims buflen rs = elim (best_from-Finds claims rs) [
  | inl (e, un) ↦ inl (ap (winner buflen) e, un)
  | inr (b, e, best) ↦ inr (b, ap (winner buflen) e, best)
]

-- `iocat_lookup_pci` answers ENOENT exactly when no record claims the match word, and otherwise
-- returns the bundle (cut to the buffer) and the score of the first record with the highest score
-- among those that claim it.
pub lookup_pci-best :
    (rs : List Personality) (word buflen : ℕ)
    → Answers (claims_word word) buflen rs (lookup_pci rs word buflen)
unfolding lookup_pci
lookup_pci-best rs word buflen = winner-Answers (claims_word word) buflen rs

-- `iocat_lookup_compat`, for a string that is not empty, answers ENOENT exactly when no record
-- lists the string, and otherwise returns the bundle (cut to the buffer) and the score of the
-- first record with the highest score among those that list it.
pub lookup_compat-best :
    (rs : List Personality) (want : List ℕ) (buflen : ℕ)
    → is_empty want ≡ false
    → Answers (claims_compat want) buflen rs (lookup_compat rs want buflen)
unfolding lookup_compat
lookup_compat-best rs want buflen full = rw full (winner-Answers (claims_compat want) buflen rs)

-- A lookup fails on every record list in which nothing is claimed.
pub winner-Unclaimed :
    (claims : Personality → Bool) (buflen : ℕ) (rs : List Personality)
    → Unclaimed claims rs
    → winner buflen (best_from claims none rs) ≡ err enoent
unfolding winner best_from
winner-Unclaimed claims buflen [] un = refl
winner-Unclaimed claims buflen (r ∷ rs) un = rw un.0 (winner-Unclaimed claims buflen rs un.1)
