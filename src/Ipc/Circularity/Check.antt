-- ===== src/Ipc/Circularity/Check.antt =====
-- What `ipc_port_check_circularity` decides.
use nextbsd_kernel.Prelude.{
  ℕ, suc, ◌<◌, ◌≡◌, ◌≢◌, ◌⊎◌, refl, sym, subst, inl, inr, Bool, true, false, ◌&&◌, Option, none,
  some, ◌==◌, arith, Bool-cases, ==_iff,
}
use nextbsd_kernel.Ipc.Right.{is_none}
use nextbsd_kernel.Ipc.Circularity.{
  Ports, transit, in_limbo, enter_transit, after_unlock, not_circular, circular, decide,
  check_circularity,
}
use nextbsd_kernel.Ipc.Circularity.Chains.{
  Ends, here, step, IsAcyclic, find_base-Ends, Ends-last, transit-limbo, unlock_circle-Ends,
  unlock_chain-Ends, transit-port, Ends-kept, enter_transit-IsAcyclic,
}

Ends-self : (st : Ports) (p n b : ℕ) → transit st p ≡ none → Ends st p n b → b ≡ p
Ends-self st p n b last (here also) = refl
Ends-self st p n b last (step on e) = cc

eq-none_of_is_none : (o : Option ℕ) → is_none o ≡ true → o ≡ none
eq-none_of_is_none none h = refl
eq-none_of_is_none (some a) h = cc

-- The two answers.
abbrev pub Decided : Ports → ℕ → ℕ → ℕ → Option (Ports × Bool) → Type 0
Decided st port dest b result =
    ((b ≡ port) × (result ≡ some (st, true)))
    ⊎ ((b ≢ port)
        × (result ≡ some (enter_transit st port dest, false))
        × IsAcyclic (enter_transit st port dest))

module _ (st : Ports) (port dest n b fuel : ℕ) (limbo : in_limbo st port ≡ true)
    (all : IsAcyclic st) (chain : Ends st dest n b) (fueled : suc n < fuel) where
  not_circular-run :
      b ≢ port → not_circular fuel st port dest b ≡ some (enter_transit st port dest, false)
  unfolding not_circular after_unlock
  not_circular-run ne =
      let tail = Ends-kept st port dest limbo dest n b chain ne in
      let whole = Ends.step (transit-port st port dest limbo) tail in
      rw
        (
          limbo,
          unlock_chain-Ends (enter_transit st port dest) fuel port (suc n) b whole fueled,
          Ends-last (enter_transit st port dest) dest n b tail,
        )
        refl

  decide-Decided : Decided st port dest b (decide fuel st port dest (some b))
  unfolding decide circular
  decide-Decided = elim (Bool-cases (port == b)) [
    | inl same ↦
        let at = (==_iff port b).0 same in
        let walked =
          unlock_circle-Ends st fuel dest n b chain fueled
            (subst (λ x. in_limbo st x ≡ true) at limbo) in
        inl (sym at, rw (same, limbo, walked) refl)
    | inr other ↦
        let ne : b ≢ port = λ at. ground arith in
        inr (
          ne,
          rw other (not_circular-run ne),
          enter_transit-IsAcyclic st port dest limbo n b chain ne all,
        )
  ]

  -- `ipc_port_check_circularity` for a port in limbo, when no chain of ports in transit runs in a
  -- circle: its loops end (fuel above the length of the chain from the destination is enough), and
  -- no assertion fails, whether or not the quick test gets its lock. It answers TRUE, and changes
  -- nothing, exactly if that chain ends at the port itself. Otherwise the port is then in transit
  -- to the destination, which has one reference more, and still no chain runs in a circle.
  pub check_circularity-Decided :
      (quick : Bool) → Decided st port dest b (check_circularity fuel quick st port dest)
  unfolding check_circularity
  check_circularity-Decided quick = elim (Bool-cases (port == dest)) [
    | inl same ↦
        let at = (==_iff port dest).0 same in
        let last =
          Ends-self st port n b (transit-limbo st port limbo)
            (subst (λ x. Ends st x n b) (sym at) chain) in
        inl (last, rw same refl)
    | inr other ↦ elim (Bool-cases (quick && is_none (transit st dest))) [
      | inl free ↦
          rw (other, free)
            (let last = eq-none_of_is_none (transit st dest) (ground arith) in
              let at = Ends-self st dest n b last chain in
              let ne : b ≢ port = λ here. ground (arith, at) in
              inr (
                ne,
                subst
                    (λ x.
                      not_circular fuel st port dest x ≡ some (enter_transit st port dest, false))
                    at (not_circular-run ne),
                enter_transit-IsAcyclic st port dest limbo n b chain ne all,
              ))
      | inr search ↦
          rw (other, search)
            (subst (λ x. Decided st port dest b (decide fuel st port dest x))
              (sym (find_base-Ends st fuel dest n b chain (omega arith))) decide-Decided)
    ]
  ]
