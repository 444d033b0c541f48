-- ===== src/Ipc/Pset/Balance.antt =====
-- The operations on port sets keep members and references in step.
use nextbsd_kernel.Prelude.{
  ℕ, ◌+◌, ◌-◌, ◌≡◌, refl, sym, ap, subst, ◌∙◌, fun_ext, inl, inr, Bool, true, false, not, ◌&&◌,
  Option, none, some, [], ◌∷◌, ◌++◌, ◌==◌, if◌then◌else◌, keep, arith, Bool-cases, ==_iff, ==_refl,
}
use nextbsd_kernel.Ipc.Right.{assert◌then◌}
use nextbsd_kernel.Ipc.Right.Valid.{bit}
use nextbsd_kernel.Ipc.Pset.{
  Sets, set_at, is_at, is_null, add, remove, release, leave, Kern, success, not_in_set, same_set,
  notify, notified, taken_out, add_after, released, move_between, move,
}
use nextbsd_kernel.Ipc.Pset.Members.{
  count, IsSets, without, count-without_self, count-without_other, length-without, set_at-same,
  attach-IsSets, detach-IsSets,
}

abbrev pub without_ref : (ℕ → ℕ) → ℕ → ℕ → ℕ
without_ref refs s = set_at refs s (refs s - 1)

-- The port `p` out of the set `s`.
abbrev pub out_of : ℕ → ℕ → Sets → Sets
out_of s p st = record st {
  pset = set_at st.pset p none;
  refs = without_ref st.refs s;
  ports = set_at st.ports s (without p (st.ports s));
}

pub is_at_self : (s : ℕ) (o : Option ℕ) → o ≡ some s → is_at s o ≡ true
unfolding is_at
is_at_self s o held = ap (is_at s) held ∙ ==_refl s

pub some_of_is_at : (s : ℕ) (o : Option ℕ) → is_at s o ≡ true → o ≡ some s
unfolding is_at
some_of_is_at s none e = cc
some_of_is_at s (some t) e = ap some ((==_iff t s).0 e)

pub out_of-IsSets :
    (s p : ℕ) (st : Sets) (others : ℕ → ℕ)
    → IsSets st others
    → st.pset p ≡ some s
    → IsSets (out_of s p st) others
out_of-IsSets s p st others g held =
    let here : count p (st.ports s) ≡ 1 = g.member s p ∙ ap bit (is_at_self s (st.pset p) held) in
    detach-IsSets s p (without p (st.ports s)) st others g held (count-without_self p (st.ports s))
      (λ q differs. count-without_other p q (st.ports s) differs)
      (omega (arith, length-without p (st.ports s), here))

pub leave-out :
    (s p : ℕ) (st : Sets)
    → st.port_active p ≡ true
    → st.pset p ≡ some s
    → leave s p st ≡ some (out_of s p st)
unfolding leave remove release
leave-out s p st act held =
    let go = λ (b : Bool).
      elim (assert b
          then some (record st {
            pset = set_at st.pset p none;
            ports = set_at st.ports s (keep (λ q. not (q == p)) (st.ports s));
          }))
        as (λ x. Option Sets) [ none ↦ none | some st' ↦ some (release s st') ] in
    ap (λ b. go (b && is_at s (st.pset p))) act ∙ ap go (is_at_self s (st.pset p) held)

-- The port `p`, which is in no set, in the set `s`.
abbrev in_to : ℕ → ℕ → Sets → Sets
in_to s p st = record st {
  pset = set_at st.pset p (some s);
  refs = set_at st.refs s (st.refs s + 1);
  ports = set_at st.ports s (st.ports s ++ p ∷ []);
}

add-in :
    (s p : ℕ) (st : Sets)
    → st.active s ≡ true
    → st.port_active p ≡ true
    → st.pset p ≡ none
    → add s p st ≡ some (in_to s p st)
unfolding add is_null
add-in s p st live act free =
    let go = λ (b : Bool). assert b then some (in_to s p st) in
    ap (λ b. go (b && st.port_active p && is_null (st.pset p))) live
    ∙ ap (λ b. go (b && is_null (st.pset p))) act
    ∙ ap (λ o. go (is_null o)) free

-- A reference that is dropped and one that is taken, of different sets, in either order.
swap-refs :
    (f : ℕ → ℕ) (s t : ℕ)
    → (s == t) ≡ false
    → without_ref (set_at f t (f t + 1)) s ≡ set_at (without_ref f s) t (without_ref f s t + 1)
unfolding set_at
swap-refs f s t differ = fun_ext (λ j. elim (Bool-cases (j == s)) [
  | inl at_s ↦ elim (Bool-cases (j == t)) [
    | inl at_t ↦ absurd (ground arith)
    | inr not_t ↦ rw (at_s, not_t, differ) refl
  ]
  | inr not_s ↦ elim (Bool-cases (j == t)) [
    | inl at_t ↦ let turned : (t == s) ≡ false = ground arith in rw (not_s, at_t, turned) refl
    | inr not_t ↦ rw (not_s, not_t) refl
  ]
])

notify-IsSets :
    (s p : ℕ) (st : Sets) (others : ℕ → ℕ)
    → IsSets st others
    → IsSets (notify s p st) others × ((notify s p st).pset ≡ st.pset)
unfolding notify
notify-IsSets s p st others g = elim (Bool-cases (st.queued p)) [
  | inl some_queued ↦ rw some_queued (record { member = g.member; counted = g.counted }, refl)
  | inr none_queued ↦ rw none_queued (record { member = g.member; counted = g.counted }, refl)
]

-- The answer of a move.
abbrev pub move_answer : (ℕ → Bool) → Option ℕ → Option ℕ → Kern
move_answer active none none = not_in_set
move_answer active (some s) none = if active s then success else not_in_set
move_answer active o (some t) = success

-- The set that a port moves to is active.
abbrev pub IsLive : Option ℕ → Sets → Type 0
IsLive none st = Unit {0}
IsLive (some t) st = st.active t ≡ true

abbrev pub Moved : ℕ → Option ℕ → Sets → (ℕ → ℕ) → Option (Sets × Kern) → Type 0
Moved p nset st others result =
    (st' : Sets) × (result ≡ some (st', move_answer st.active (st.pset p) nset))
    × IsSets st' others
    × (st'.pset p ≡ nset)

module _ (p : ℕ) (st : Sets) (others : ℕ → ℕ) (g : IsSets st others)
    (act : st.port_active p ≡ true) where
  join-Moved :
      (t : ℕ)
      → st.active t ≡ true
      → st.pset p ≡ none
      → Moved p (some t) st others (move_between p none (some t) st)
  unfolding move_between notified
  join-Moved t live free =
      let (good, same) =
        notify-IsSets t p (in_to t p st) others (attach-IsSets t p st others g free) in
      let go = λ (b : Bool). assert b then notified t p (add t p st) in
      (
        notify t p (in_to t p st),
        ap go live
            ∙ ap (notified t p) (add-in t p st live act free)
            ∙ ap (λ o. some (notify t p (in_to t p st), move_answer st.active o (some t)))
                (sym free),
        good,
        ap (λ f. f p) same ∙ set_at-same st.pset p (some t),
      )

  leave-Moved :
      (s : ℕ) → st.pset p ≡ some s → Moved p none st others (move_between p (some s) none st)
  unfolding move_between taken_out
  leave-Moved s held = (
    out_of s p st,
    ap (taken_out s) (leave-out s p st act held)
        ∙ ap (λ o. some (out_of s p st, move_answer st.active o none)) (sym held),
    out_of-IsSets s p st others g held,
    set_at-same st.pset p none,
  )

  change-Moved :
      (s t : ℕ)
      → (s == t) ≡ false
      → st.active t ≡ true
      → st.pset p ≡ some s
      → Moved p (some t) st others (move_between p (some s) (some t) st)
  unfolding move_between notified released add_after remove release
  change-Moved s t differ live held =
      let out = record st {
        pset = set_at st.pset p none;
        ports = set_at st.ports s (without p (st.ports s));
      } in
      let next = in_to t p (out_of s p st) in
      let (good, same) = notify-IsSets t p next others (
        attach-IsSets t p (out_of s p st) others (out_of-IsSets s p st others g held)
          (set_at-same st.pset p none)) in
      let whole = λ (b : Bool).
        assert b
        then notified t p (
            released s
              (add_after t p (assert st.port_active p && is_at s (st.pset p) then some out))) in
      let inner =
        λ (b : Bool). notified t p (released s (add_after t p (assert b then some out))) in
      (
        notify t p next,
        ap whole live
            ∙ ap (λ b. inner (b && is_at s (st.pset p))) act
            ∙ ap inner (is_at_self s (st.pset p) held)
            ∙ ap (λ o. notified t p (released s o))
                (add-in t p out live act (set_at-same st.pset p none))
            ∙ ap (λ r. some (notify t p (record next { refs = r }), success))
                (swap-refs st.refs s t differ),
        good,
        ap (λ f. f p) same ∙ set_at-same (set_at st.pset p none) p (some t),
      )

  move-known :
      (o nset : Option ℕ)
      → st.pset p ≡ o
      → IsLive nset st
      → Moved p nset st others (
          if same_set o nset
          then some (st, if is_null nset then not_in_set else success)
          else move_between p o nset st)
  unfolding same_set is_null
  move-known none none held live =
      (st, ap (λ o. some (st, move_answer st.active o none)) (sym held), g, held)
  move-known none (some t) held live = join-Moved t live held
  move-known (some s) none held live = leave-Moved s held
  move-known (some s) (some t) held live = elim (Bool-cases (s == t)) [
    | inl same ↦ rw same (st, refl, g, held ∙ ap some ((==_iff s t).0 same))
    | inr differ ↦ rw differ (change-Moved s t differ live held)
  ]

-- `ipc_pset_move` of an active port to an active set, or to none: no assertion fails, the port is
-- then where it was to go, each set still lists just its members, each once, and its references are
-- those of its members and the others that it had. The answer is KERN_NOT_IN_SET exactly if the
-- port is to leave its set and is in none, or in a dead one.
pub move-Moved :
    (p : ℕ) (nset : Option ℕ) (st : Sets) (others : ℕ → ℕ)
    → IsSets st others
    → st.port_active p ≡ true
    → IsLive nset st
    → Moved p nset st others (move p nset st)
unfolding move
move-Moved p nset st others g act live =
    let rest =
      if same_set (st.pset p) nset
      then some (st, if is_null nset then not_in_set else success)
      else move_between p (st.pset p) nset st in
    subst (λ b. Moved p nset st others (assert b then rest)) (sym act)
      (move-known p st others g act (st.pset p) nset refl live)
