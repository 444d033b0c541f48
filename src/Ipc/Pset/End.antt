-- ===== src/Ipc/Pset/End.antt =====
-- The end of a port set, and of a receive right in a set.
use nextbsd_kernel.Prelude.{
  ℕ, ◌+◌, ◌-◌, ◌<◌, ◌≡◌, refl, sym, ap, subst, ◌∙◌, inl, inr, true, false, Option, none, some, List,
  [], ◌∷◌, ◌++◌, map, ◌==◌, if◌then◌else◌, length, arith, Bool-cases, ==_iff, ==_refl,
}
use nextbsd_kernel.Ipc.Right.{assert◌then◌}
use nextbsd_kernel.Ipc.Right.Valid.{bit}
use nextbsd_kernel.Ipc.Pset.{
  died, end_of_set, Sets, set_at, is_at, release, changed, destroy_members, end_set, destroy,
  leave_current, cleared, clear_receiver,
}
use nextbsd_kernel.Ipc.Pset.Members.{count, IsSets, set_at-same, detach-IsSets}
use nextbsd_kernel.Ipc.Pset.Balance.{without_ref, some_of_is_at, out_of-IsSets, leave-out}

-- The members of `s` are gone, and nothing else of the state has changed but references and sets of
-- ports.
abbrev Emptied : ℕ → Sets → Sets → (ℕ → ℕ) → Type 0
Emptied s st st' others =
    IsSets st' others
    × (st'.ports s ≡ [])
    × (st'.active ≡ st.active)
    × (st'.pool ≡ st.pool)
    × (st'.events ≡ st.events)

-- The head of a list of members is a member, and is not in the rest.
head-member :
    (s p : ℕ) (ps : List ℕ) (st : Sets) (others : ℕ → ℕ)
    → IsSets st others
    → st.ports s ≡ p ∷ ps
    → (is_at s (st.pset p) ≡ true) × (count p ps ≡ 0)
head-member s p ps st others g is =
    let all = sym (ap (count p) is) ∙ g.member s p in
    let one : bit (p == p) ≡ 1 = ap bit (==_refl p) in
    elim (Bool-cases (is_at s (st.pset p))) [
      | inl at ↦ (at, omega (arith, all, one, ap bit at))
      | inr away ↦ absurd (omega (arith, all, one, ap bit away))
    ]

destroy_members-Emptied :
    (s : ℕ) (ps : List ℕ) (st : Sets) (others : ℕ → ℕ)
    → IsSets st others
    → st.ports s ≡ ps
    → (st' : Sets) × (destroy_members s ps st ≡ some st') × Emptied s st st' others
unfolding destroy_members release
destroy_members-Emptied s [] st others g is = (st, refl, (g, is, refl, refl, refl))
destroy_members-Emptied s (p ∷ ps) st others g is =
    let (at, gone) = head-member s p ps st others g is in
    let left = record st {
      pset = set_at st.pset p none;
      refs = without_ref st.refs s;
      ports = set_at st.ports s ps;
    } in
    let lost = λ (q : ℕ). λ (differs : (q == p) ≡ false). skip q differs in
    let good =
      detach-IsSets s p ps st others g (some_of_is_at s (st.pset p) at) gone lost (shorter) in
    let (st', done, emptied) =
      destroy_members-Emptied s ps left others good (set_at-same st.ports s ps) in
    (st', ap (λ b. assert b then destroy_members s ps left) at ∙ done, emptied)
  where
    skip : (q : ℕ) → (q == p) ≡ false → count q ps ≡ count q (st.ports s)
    skip q differs =
        let turned : (p == q) ≡ false = ground arith in
        omega (arith, ap bit turned, ap (count q) is)

    shorter : length ps + 1 ≡ length (st.ports s)
    shorter = omega (arith, ap length is)

-- The caller's reference of a set is dropped.
release-IsSets :
    (s : ℕ) (st : Sets) (others : ℕ → ℕ)
    → IsSets st others
    → 0 < others s
    → IsSets (release s st) (set_at others s (others s - 1))
unfolding release set_at
release-IsSets s st others g one = record {
  member = g.member;
  counted = λ t. elim (Bool-cases (t == s)) [
    | inl there ↦
        let at : t ≡ s = (==_iff t s).0 there in
        rw there (
          subst (λ x. st.refs s - 1 ≡ length (st.ports x) + (others s - 1)) (sym at)
            (omega (arith, g.counted s)))
    | inr elsewhere ↦ rw elsewhere (g.counted t)
  ];
}

-- A set after its end.
abbrev pub Ended : ℕ → Sets → Sets → (ℕ → ℕ) → Type 0
Ended s st st' others =
    IsSets st' (set_at others s (others s - 1))
    × (st'.ports s ≡ [])
    × (st'.active s ≡ false)
    × (st'.pool s ≡ [])
    × (st'.events ≡ (st.events ++ map died (st.pool s)) ++ end_of_set s ∷ [])

-- `ipc_pset_destroy`, where the caller has a reference: the loop over the members ends and no
-- assertion fails. The set is dead and has no members; no port is in it any more; each member has
-- given its reference back, and the caller's is dropped. All threads that wait for the set wake
-- with MACH_RCV_PORT_DIED, and then the knotes learn that the set ends.
pub destroy-Ended :
    (s : ℕ) (st : Sets) (others : ℕ → ℕ)
    → IsSets st others
    → 0 < others s
    → (st' : Sets) × (destroy s st ≡ some st') × Ended s st st' others
unfolding destroy end_set changed release
destroy-Ended s st others g one =
    let dead = record st { active = set_at st.active s false } in
    let good : IsSets dead others = record { member = g.member; counted = g.counted } in
    let (st', done, (g', empty, active, pool, events)) =
      destroy_members-Emptied s (st.ports s) dead others good refl in
    let told = record st' {
      pool = set_at st'.pool s [];
      events = (st'.events ++ map died (st'.pool s)) ++ end_of_set s ∷ [];
    } in
    let quiet : IsSets told others = record { member = g'.member; counted = g'.counted } in
    (
      release s told,
      ap (end_set s) done,
      (
        release-IsSets s told others quiet one,
        empty,
        ap (λ f. f s) active ∙ set_at-same st.active s false,
        set_at-same st'.pool s [],
        ap (λ l. (l ++ map died (st'.pool s)) ++ end_of_set s ∷ []) events
            ∙ ap (λ f. (st.events ++ map died (f s)) ++ end_of_set s ∷ []) pool,
      ),
    )

-- A receive right that is in no space any more.
abbrev pub Cleared : ℕ → Sets → Sets → (ℕ → ℕ) → Type 0
Cleared p st st' others =
    IsSets st' others
    × (st'.pset p ≡ none)
    × (st'.mscount p ≡ 0)
    × (st'.seqno p ≡ 0)
    × (st'.port_pool p ≡ [])
    × (st'.events ≡ st.events ++ map died (st.port_pool p))

left-Cleared :
    (p : ℕ) (st : Sets) (others : ℕ → ℕ) (o : Option ℕ)
    → IsSets st others
    → st.port_active p ≡ true
    → st.pset p ≡ o
    → (st' : Sets) × (cleared p (leave_current p o st) ≡ some st') × Cleared p st st' others
unfolding cleared leave_current
left-Cleared p st others none g act held = (
  _,
  refl,
  (
    record { member = g.member; counted = g.counted },
    held,
    set_at-same st.mscount p 0,
    set_at-same st.seqno p 0,
    set_at-same st.port_pool p [],
    refl,
  ),
)
left-Cleared p st others (some s) g act held =
    let good = out_of-IsSets s p st others g held in
    (
      _,
      ap (cleared p) (leave-out s p st act held),
      (
        record { member = good.member; counted = good.counted },
        set_at-same st.pset p none,
        set_at-same st.mscount p 0,
        set_at-same st.seqno p 0,
        set_at-same st.port_pool p [],
        refl,
      ),
    )

-- `ipc_port_clear_receiver` of an active port fails no assertion: the port is in no set, whose
-- members and references stay in step; the make-send count and the sequence number are 0, and all
-- threads that wait for the port wake with MACH_RCV_PORT_DIED.
pub clear_receiver-Cleared :
    (p : ℕ) (st : Sets) (others : ℕ → ℕ)
    → IsSets st others
    → st.port_active p ≡ true
    → (st' : Sets) × (clear_receiver p st ≡ some st') × Cleared p st st' others
unfolding clear_receiver
clear_receiver-Cleared p st others g act =
    let (st', done, rest) = left-Cleared p st others (st.pset p) g act refl in
    (st', ap (λ b. assert b then cleared p (leave_current p (st.pset p) st)) act ∙ done, rest)
