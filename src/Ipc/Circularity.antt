-- ===== src/Ipc/Circularity.antt =====
-- `ipc_port_check_circularity` of ipc_port.c: may a receive right be put into a message that goes
-- to a port? The ports in transit form chains, each with the port that its message is queued at.
pub mod Chains
pub mod Check
use nextbsd_kernel.Prelude.{
  ℕ, zero, suc, ◌+◌, Bool, true, false, not, ◌&&◌, ◌||◌, Option, none, some, ◌==◌, if◌then◌else◌,
}
use nextbsd_kernel.Ipc.Hash.{update}
use nextbsd_kernel.Ipc.Right.{assert◌then◌, is_none}

-- The ports, by their addresses. `named` says that `ip_receiver_name` is not MACH_PORT_NAME_NULL,
-- so the receive right is in a space; `destination` is `ip_destination`.
pub record Ports : Type 0 where
  pub active : ℕ → Bool
  pub named : ℕ → Bool
  pub destination : ℕ → Option ℕ
  pub refs : ℕ → ℕ

-- The port that a port in transit is queued at; none for a port that is not in transit.
unfoldable pub transit : Ports → ℕ → Option ℕ
transit st p = if not (st.active p) || st.named p then none else st.destination p

-- The loop that looks for the end of the chain, with fuel.
unfoldable pub find_base : Ports → ℕ → ℕ → Option ℕ
find_base st zero p = none
find_base st (suc fuel) p = elim (transit st p) [ none ↦ some p | some q ↦ find_base st fuel q ]

-- The assertion that a port is in limbo.
unfoldable pub in_limbo : Ports → ℕ → Bool
in_limbo st p = st.active p && not (st.named p) && is_none (st.destination p)

-- `while (dest != IP_NULL)`, which unlocks a chain that ends at the port.
unfoldable pub unlock_circle : Ports → ℕ → Option ℕ → Option (Unit {0})
unlock_circle st zero dest = none
unlock_circle st (suc fuel) none = some tt
unlock_circle st (suc fuel) (some d) =
    assert st.active d && not (st.named d) then unlock_circle st fuel (st.destination d)

-- `while (port != base)`, which unlocks a chain.
unfoldable pub unlock_chain : Ports → ℕ → ℕ → ℕ → Option (Unit {0})
unlock_chain st zero port base = none
unlock_chain st (suc fuel) port base =
    let rest : Option (Unit {0}) = elim (st.destination port) [
      | none ↦ none
      | some q ↦ unlock_chain st fuel q base
    ] in
    if port == base then some tt else assert st.active port && not (st.named port) then rest

-- `ip_reference(dest); port->ip_destination = dest;`
unfoldable pub enter_transit : Ports → ℕ → ℕ → Ports
enter_transit st port dest = record st {
  destination = update st.destination port (some dest);
  refs = λ p. if p == dest then st.refs p + 1 else st.refs p;
}

unfoldable pub after_unlock : Ports → ℕ → Option (Unit {0}) → Option (Ports × Bool)
after_unlock st base none = none
after_unlock st base (some _) = assert is_none (transit st base) then some (st, false)

-- The label `not_circular`.
unfoldable pub not_circular : ℕ → Ports → ℕ → ℕ → ℕ → Option (Ports × Bool)
not_circular fuel st port dest base =
    let new = enter_transit st port dest in
    assert in_limbo st port then after_unlock new base (unlock_chain new fuel port base)

unfoldable pub circular : Ports → Option (Unit {0}) → Option (Ports × Bool)
circular st none = none
circular st (some _) = some (st, true)

-- What follows the search for the end of the chain.
unfoldable pub decide : ℕ → Ports → ℕ → ℕ → Option ℕ → Option (Ports × Bool)
decide fuel st port dest none = none
decide fuel st port dest (some base) =
    if port == base
    then (assert in_limbo st port then circular st (unlock_circle st fuel (some dest)))
    else not_circular fuel st port dest base

-- `ipc_port_check_circularity`. `quick` says that `ip_lock_try` gets the lock of `dest`; none is an
-- assertion that fails, or that the fuel runs out.
unfoldable pub check_circularity : ℕ → Bool → Ports → ℕ → ℕ → Option (Ports × Bool)
check_circularity fuel quick st port dest =
    if port == dest
    then some (st, true)
    else if quick && is_none (transit st dest)
    then not_circular fuel st port dest dest
    else decide fuel st port dest (find_base st fuel dest)
