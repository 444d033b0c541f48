-- ===== src/Ipc/Pset/Members.antt =====
-- The members of port sets: counts in a list, and the well-formed states.
use nextbsd_kernel.Prelude.{
  length-snoc, ℕ, ◌+◌, ◌-◌, ◌≡◌, refl, sym, ap, subst, ◌∙◌, inl, inr, Bool, false, not, Option,
  none, some, List, [], ◌∷◌, ◌++◌, ◌==◌, if◌then◌else◌, keep, length, arith, Bool-cases, ==_iff,
  ==_refl,
}
use nextbsd_kernel.Ipc.Right.Valid.{bit}
use nextbsd_kernel.Ipc.Pset.{Sets, set_at, is_at}

-- How often a port is in a list.
abbrev pub count : ℕ → List ℕ → ℕ
count p [] = 0
count p (q ∷ qs) = bit (q == p) + count p qs

-- `IsSets st others`: each member of a set is in its list exactly once and no other port is, and
-- the references of a set are those of its members and `others`.
pub record IsSets (st : Sets) (others : ℕ → ℕ) : Type 0 where
  pub member : (s p : ℕ) → count p (st.ports s) ≡ bit (is_at s (st.pset p))
  pub counted : (s : ℕ) → st.refs s ≡ length (st.ports s) + others s

pub count-snoc : (p q : ℕ) (qs : List ℕ) → count p (qs ++ q ∷ []) ≡ count p qs + bit (q == p)
count-snoc p q [] = omega arith
count-snoc p q (r ∷ rs) = omega (arith, count-snoc p q rs)

abbrev pub without : ℕ → List ℕ → List ℕ
without p qs = keep (λ q. not (q == p)) qs

pub count-without_self : (p : ℕ) (qs : List ℕ) → count p (without p qs) ≡ 0
count-without_self p [] = refl
count-without_self p (q ∷ qs) = elim (Bool-cases (q == p)) [
  | inl same ↦ rw same (count-without_self p qs)
  | inr other ↦ rw (other, other) (omega (arith, count-without_self p qs))
]

pub count-without_other :
    (p r : ℕ) (qs : List ℕ) → (r == p) ≡ false → count r (without p qs) ≡ count r qs
count-without_other p r [] ne = refl
count-without_other p r (q ∷ qs) ne = elim (Bool-cases (q == p)) [
  | inl same ↦
      let differs : (q == r) ≡ false = ground arith in
      rw (same, differs) (count-without_other p r qs ne ∙ (omega arith))
  | inr other ↦ rw other (ap (λ n. bit (q == r) + n) (count-without_other p r qs ne))
]

pub length-without : (p : ℕ) (qs : List ℕ) → length (without p qs) + count p qs ≡ length qs
length-without p [] = refl
length-without p (q ∷ qs) = elim (Bool-cases (q == p)) [
  | inl same ↦ rw same (omega (arith, length-without p qs))
  | inr other ↦ rw other (omega (arith, length-without p qs))
]

pub set_at-same {ℓ} : {A : Type ℓ} (f : ℕ → A) (k : ℕ) (v : A) → set_at f k v k ≡ v
unfolding set_at
set_at-same f k v = ap (λ b. if b then v else f k) (==_refl k)

pub set_at-other {ℓ} :
    {A : Type ℓ} (f : ℕ → A) (k j : ℕ) (v : A) → (j == k) ≡ false → set_at f k v j ≡ f j
unfolding set_at
set_at-other f k j v ne = ap (λ b. if b then v else f j) ne

-- One port changes its set, and one set its list.
changed-member :
    (st : Sets) (others : ℕ → ℕ) (s p : ℕ) (v : Option ℕ) (l : List ℕ)
    → IsSets st others
    → count p l ≡ bit (is_at s v)
    → ((q : ℕ) → (q == p) ≡ false → count q l ≡ count q (st.ports s))
    → ((t : ℕ) → (t == s) ≡ false → count p (st.ports t) ≡ bit (is_at t v))
    → (t q : ℕ) → count q (set_at st.ports s l t) ≡ bit (is_at t (set_at st.pset p v q))
unfolding set_at
changed-member st others s p v l g here same away t q =
    let lists = λ (b : Bool). count q (if b then l else st.ports t) in
    let sets = λ (b : Bool). bit (is_at t (if b then v else st.pset q)) in
    elim (Bool-cases (t == s)) [
      | inl there ↦
          let at : t ≡ s = (==_iff t s).0 there in
          elim (Bool-cases (q == p)) [
            | inl it ↦
                let is : q ≡ p = (==_iff q p).0 it in
                ap lists there
                ∙ subst (λ x. count x l ≡ bit (is_at t v)) (sym is)
                    (subst (λ y. count p l ≡ bit (is_at y v)) (sym at) here)
                ∙ sym (ap sets it)
            | inr differs ↦
                ap lists there
                ∙ same q differs
                ∙ g.member s q
                ∙ ap (λ y. bit (is_at y (st.pset q))) (sym at)
                ∙ sym (ap sets differs)
          ]
      | inr elsewhere ↦ elim (Bool-cases (q == p)) [
        | inl it ↦
            let is : q ≡ p = (==_iff q p).0 it in
            ap lists elsewhere
            ∙ ap (λ x. count x (st.ports t)) is
            ∙ away t elsewhere
            ∙ sym (ap sets it)
        | inr differs ↦ ap lists elsewhere ∙ g.member t q ∙ sym (ap sets differs)
      ]
    ]

-- One set changes its list and its references.
changed-counted :
    (st : Sets) (others : ℕ → ℕ) (s r : ℕ) (l : List ℕ)
    → IsSets st others
    → r ≡ length l + others s
    → (t : ℕ) → set_at st.refs s r t ≡ length (set_at st.ports s l t) + others t
unfolding set_at
changed-counted st others s r l g held t = elim (Bool-cases (t == s)) [
  | inl there ↦
      let at : t ≡ s = (==_iff t s).0 there in
      rw there (held ∙ ap (λ y. length l + others y) (sym at))
  | inr elsewhere ↦ rw elsewhere (g.counted t)
]

-- A port without a set joins one at the end of its list.
pub attach-IsSets :
    (s p : ℕ) (st : Sets) (others : ℕ → ℕ)
    → IsSets st others
    → st.pset p ≡ none
    → IsSets
        (record st {
          pset = set_at st.pset p (some s);
          refs = set_at st.refs s (st.refs s + 1);
          ports = set_at st.ports s (st.ports s ++ p ∷ []);
        })
        others
unfolding is_at
attach-IsSets s p st others g free =
    let l = st.ports s ++ p ∷ [] in
    let none_yet = λ (t : ℕ). g.member t p ∙ ap (λ o. bit (is_at t o)) free in
    record {
      member =
          changed-member st others s p (some s) l g
            (count-snoc p p (st.ports s)
              ∙ ap (λ n. n + bit (p == p)) (none_yet s)
              ∙ ap (λ b. 0 + bit b) (==_refl p)
              ∙ ap bit (sym (==_refl s)))
            (λ q differs.
              count-snoc q p (st.ports s)
              ∙ ap (λ b. count q (st.ports s) + bit b) (flip q differs)
              ∙ omega arith)
            (λ t elsewhere. none_yet t ∙ ap bit (sym (flip_set t elsewhere)));
      counted =
          changed-counted st others s (st.refs s + 1) l g
            (omega (arith, g.counted s, length-snoc (st.ports s) p));
    }
  where
    flip : (q : ℕ) → (q == p) ≡ false → (p == q) ≡ false
    flip q differs = ground arith

    flip_set : (t : ℕ) → (t == s) ≡ false → (s == t) ≡ false
    flip_set t elsewhere = ground arith

-- A member leaves its set, which loses a reference.
pub detach-IsSets :
    (s p : ℕ) (l : List ℕ) (st : Sets) (others : ℕ → ℕ)
    → IsSets st others
    → st.pset p ≡ some s
    → count p l ≡ 0
    → ((q : ℕ) → (q == p) ≡ false → count q l ≡ count q (st.ports s))
    → length l + 1 ≡ length (st.ports s)
    → IsSets
        (record st {
          pset = set_at st.pset p none;
          refs = set_at st.refs s (st.refs s - 1);
          ports = set_at st.ports s l;
        })
        others
unfolding is_at
detach-IsSets s p l st others g held gone same less = record {
  member =
      changed-member st others s p none l g gone same
        (λ t elsewhere. g.member t p ∙ ap (λ o. bit (is_at t o)) held ∙ ap bit (flip t elsewhere));
  counted = changed-counted st others s (st.refs s - 1) l g (omega (arith, g.counted s, less));
}
  where
    flip : (t : ℕ) → (t == s) ≡ false → (s == t) ≡ false
    flip t elsewhere = ground arith
