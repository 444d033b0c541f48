-- ===== src/Ipc/Circularity/Chains.antt =====
-- The chains of ports in transit: where they end, and what becomes of them when a port enters one.
use nextbsd_kernel.Prelude.{
  ℕ, zero, suc, ◌<◌, ◌≡◌, ◌≢◌, refl, subst, ◌∙◌, inl, inr, true, false, none, some, ◌==◌, arith,
  Bool-cases, Option-cases, ==_iff, ==_refl,
}
use nextbsd_kernel.Ipc.Hash.{update}
use nextbsd_kernel.Ipc.Circularity.{
  Ports, transit, find_base, in_limbo, unlock_circle, unlock_chain, enter_transit,
}

-- From `p` a chain of `n` messages leads to `b`, which is not in transit.
pub data Ends (st : Ports) : ℕ → ℕ → ℕ → Type 0 where
  here : {b : ℕ} → transit st b ≡ none → Ends st b zero b
  step : {p q n b : ℕ} → transit st p ≡ some q → Ends st q n b → Ends st p (suc n) b

-- No chain runs in a circle: each ends.
abbrev pub IsAcyclic : Ports → Type 0
IsAcyclic st = (p : ℕ) → (n : ℕ) × (b : ℕ) × Ends st p n b

pub find_base-Ends :
    (st : Ports) (fuel p n b : ℕ) → Ends st p n b → n < fuel → find_base st fuel p ≡ some b
unfolding find_base
find_base-Ends st zero p n b e lt = absurd (omega arith)
find_base-Ends st (suc fuel) p n b (here last) lt = rw (last, find_base) refl
find_base-Ends st (suc fuel) p n b (step {q} {n = m} on e) lt =
    rw (on, find_base) (find_base-Ends st fuel q m b e (omega arith))

pub Ends-last : (st : Ports) (p n b : ℕ) → Ends st p n b → transit st b ≡ none
Ends-last st p n b (here last) = last
Ends-last st p n b (step {q} {n = m} on e) = Ends-last st q m b e

-- A port in transit is active, has no name, and is queued somewhere.
pub transit-some :
    (st : Ports) (p q : ℕ)
    → transit st p ≡ some q
    → (st.active p ≡ true) × (st.named p ≡ false) × (st.destination p ≡ some q)
unfolding transit
transit-some st p q on = ground arith

pub in_limbo-parts :
    (st : Ports) (p : ℕ)
    → in_limbo st p ≡ true
    → (st.active p ≡ true) × (st.named p ≡ false) × (st.destination p ≡ none)
unfolding in_limbo
in_limbo-parts st p limbo = elim (Option-cases (st.destination p)) [
  | inl empty ↦ ground arith
  | inr (q, full) ↦ ground arith
]

pub transit-limbo : (st : Ports) (p : ℕ) → in_limbo st p ≡ true → transit st p ≡ none
unfolding transit
transit-limbo st p limbo = let parts = in_limbo-parts st p limbo in ground arith

-- The two loops that unlock a chain fail no assertion and end.
pub unlock_circle-Ends :
    (st : Ports) (fuel p n b : ℕ)
    → Ends st p n b
    → suc n < fuel
    → in_limbo st b ≡ true
    → unlock_circle st fuel (some p) ≡ some tt
unfolding unlock_circle
unlock_circle-Ends st zero p n b e lt limbo = absurd (omega arith)
unlock_circle-Ends st (suc zero) p n b e lt limbo = absurd (omega arith)
unlock_circle-Ends st (suc (suc fuel)) p n b (here last) lt limbo =
    let (on, unnamed, empty) = in_limbo-parts st p limbo in rw (on, unnamed, empty) refl
unlock_circle-Ends st (suc (suc fuel)) p n b (step {q} {n = m} on e) lt limbo =
    let (live, unnamed, full) = transit-some st p q on in
    rw (live, unnamed, full) (unlock_circle-Ends st (suc fuel) q m b e (omega arith) limbo)

pub unlock_chain-Ends :
    (st : Ports) (fuel p n b : ℕ) → Ends st p n b → n < fuel → unlock_chain st fuel p b ≡ some tt
unfolding unlock_chain
unlock_chain-Ends st zero p n b e lt = absurd (omega arith)
unlock_chain-Ends st (suc fuel) p n b (here last) lt = rw (==_refl p, unlock_chain) refl
unlock_chain-Ends st (suc fuel) p n b (step {q} {n = m} on e) lt = elim (Bool-cases (p == b)) [
  | inl same ↦ rw (same, unlock_chain) refl
  | inr other ↦
      let (live, unnamed, full) = transit-some st p q on in
      rw (other, live, unnamed, full, unlock_chain)
        (unlock_chain-Ends st fuel q m b e (omega arith))
]

module _ (st : Ports) (port dest : ℕ) (limbo : in_limbo st port ≡ true) where
  pub transit-port : transit (enter_transit st port dest) port ≡ some dest
  unfolding transit enter_transit update
  transit-port = let parts = in_limbo-parts st port limbo in ground arith

  transit-other : (p : ℕ) → p ≢ port → transit (enter_transit st port dest) p ≡ transit st p
  unfolding transit enter_transit update
  transit-other p ne = ground arith

  -- A chain that does not end at the port is not changed.
  pub Ends-kept : (p n b : ℕ) → Ends st p n b → b ≢ port → Ends (enter_transit st port dest) p n b
  Ends-kept p n b (here last) ne = Ends.here (transit-other b ne ∙ last)
  Ends-kept p n b (step {q} {n = m} on e) ne =
      let away : p ≢ port =
        λ at. cc (subst (λ x. transit st x ≡ some q) at on, transit-limbo st port limbo) in
      Ends.step (transit-other p away ∙ on) (Ends-kept q m b e ne)

  -- A chain that ends at the port goes on as the chain of the destination.
  pub Ends-joined :
      (p n m b : ℕ)
      → Ends st p n port
      → Ends (enter_transit st port dest) dest m b
      → (k : ℕ) × Ends (enter_transit st port dest) p k b
  Ends-joined p n m b (here last) tail = (suc m, Ends.step transit-port tail)
  Ends-joined p n m b (step {q} {n = k} on e) tail =
      let (j, whole) = Ends-joined q k m b e tail in
      let away : p ≢ port =
        λ at. cc (subst (λ x. transit st x ≡ some q) at on, transit-limbo st port limbo) in
      (suc j, Ends.step (transit-other p away ∙ on) whole)

  -- No circle arises if the chain of the destination does not end at the port.
  pub enter_transit-IsAcyclic :
      (n b : ℕ)
      → Ends st dest n b
      → b ≢ port
      → IsAcyclic st
      → IsAcyclic (enter_transit st port dest)
  enter_transit-IsAcyclic n b e ne all p =
      let (m, c, chain) = all p in
      let tail = Ends-kept dest n b e ne in
      elim (Bool-cases (c == port)) [
        | inl at ↦
            let (k, whole) =
              Ends-joined p m n b (subst (λ x. Ends st p m x) ((==_iff c port).0 at) chain) tail in
            (k, b, whole)
        | inr away ↦ (m, c, Ends-kept p m c chain (ne_of c away))
      ]
    where
      ne_of : (c : ℕ) → (c == port) ≡ false → c ≢ port
      ne_of c away = λ at. ground arith
