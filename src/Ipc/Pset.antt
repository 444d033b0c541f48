-- ===== src/Ipc/Pset.antt =====
-- Port sets: `ipc_pset_add`, `ipc_pset_remove`, `ipc_pset_move` and `ipc_pset_destroy` of
-- ipc_pset.c, and `ipc_port_clear_receiver` and `ipc_port_set_seqno` of ipc_port.c, which take a
-- port out of its set.
pub mod Members
pub mod Balance
pub mod End
use nextbsd_kernel.Prelude.{
  ℕ, zero, suc, ◌+◌, ◌-◌, Bool, true, false, not, ◌&&◌, ◌||◌, Option, none, some, List, [], ◌∷◌,
  ◌++◌, map, ◌==◌, if◌then◌else◌, keep,
}
use nextbsd_kernel.Ipc.Right.{assert◌then◌}

-- What receivers learn: a thread wakes with MACH_RCV_PORT_DIED, or `ipc_pset_signal` activates the
-- knotes of a set, or they are told that the set ends (EV_EOF).
pub data Event : Type 0 where
  died : ℕ → Event
  signal : ℕ → Event
  end_of_set : ℕ → Event

-- The ports and port sets, by their addresses: `pset` is `ip_pset`, `ports` the members of a set in
-- order, `refs` the references of a set, `queued` says that `ip_msgcount` is not 0. The pools are
-- the threads that wait for a set and for a port.
pub record Sets : Type 0 where
  pub pset : ℕ → Option ℕ
  pub ports : ℕ → List ℕ
  pub refs : ℕ → ℕ
  pub active : ℕ → Bool
  pub port_active : ℕ → Bool
  pub queued : ℕ → Bool
  pub mscount : ℕ → ℕ
  pub seqno : ℕ → ℕ
  pub pool : ℕ → List ℕ
  pub port_pool : ℕ → List ℕ
  pub events : List Event

-- `a[k] = v`
unfoldable pub set_at {ℓ} : {A : Type ℓ} → (ℕ → A) → ℕ → A → ℕ → A
set_at f k v j = if j == k then v else f j

unfoldable pub is_at : ℕ → Option ℕ → Bool
is_at s none = false
is_at s (some t) = t == s

unfoldable pub is_null : Option ℕ → Bool
is_null none = true
is_null (some _) = false

-- `ipc_pset_add`
unfoldable pub add : ℕ → ℕ → Sets → Option Sets
add s p st =
    assert st.active s && st.port_active p && is_null (st.pset p)
    then some (record st {
      pset = set_at st.pset p (some s);
      refs = set_at st.refs s (st.refs s + 1);
      ports = set_at st.ports s (st.ports s ++ p ∷ []);
    })

-- `ipc_pset_remove`
unfoldable pub remove : ℕ → ℕ → Sets → Option Sets
remove s p st =
    assert st.port_active p && is_at s (st.pset p)
    then some (record st {
      pset = set_at st.pset p none;
      ports = set_at st.ports s (keep (λ q. not (q == p)) (st.ports s));
    })

-- `ips_release`
unfoldable pub release : ℕ → Sets → Sets
release s st = record st { refs = set_at st.refs s (st.refs s - 1) }

-- `ipc_pset_remove` with the `ips_release` of the caller
unfoldable pub leave : ℕ → ℕ → Sets → Option Sets
leave s p st = elim (remove s p st) [ none ↦ none | some st' ↦ some (release s st') ]

pub data Kern : Type 0 where
  success not_in_set : Kern

unfoldable pub same_set : Option ℕ → Option ℕ → Bool
same_set none none = true
same_set (some s) (some t) = s == t
same_set none (some t) = false
same_set (some s) none = false

-- `if (port->ip_msgcount != 0) knotify = TRUE`, and what comes of it.
unfoldable pub notify : ℕ → ℕ → Sets → Sets
notify s p st = if st.queued p then record st { events = st.events ++ signal s ∷ [] } else st

unfoldable pub notified : ℕ → ℕ → Option Sets → Option (Sets × Kern)
notified s p none = none
notified s p (some st) = some (notify s p st, success)

-- The port was in a set, which may be dead.
unfoldable pub taken_out : ℕ → Option Sets → Option (Sets × Kern)
taken_out s none = none
taken_out s (some st) = some (st, if st.active s then success else not_in_set)

unfoldable pub add_after : ℕ → ℕ → Option Sets → Option Sets
add_after s p none = none
add_after s p (some st) = add s p st

unfoldable pub released : ℕ → Option Sets → Option Sets
released s none = none
released s (some st) = some (release s st)

-- The cases of `ipc_pset_move` for two sets that differ.
unfoldable pub move_between : ℕ → Option ℕ → Option ℕ → Sets → Option (Sets × Kern)
move_between p none none st = some (st, not_in_set)
move_between p none (some t) st = assert st.active t then notified t p (add t p st)
move_between p (some s) none st = taken_out s (leave s p st)
move_between p (some s) (some t) st =
    assert st.active t then notified t p (released s (add_after t p (remove s p st)))

-- `ipc_pset_move`; the port is the one of a locked entry.
unfoldable pub move : ℕ → Option ℕ → Sets → Option (Sets × Kern)
move p nset st =
    assert st.port_active p
    then if same_set (st.pset p) nset
    then some (st, if is_null nset then not_in_set else success)
    else move_between p (st.pset p) nset st

-- `ipc_pset_changed`, with MACH_RCV_PORT_DIED
unfoldable pub changed : ℕ → Sets → Sets
changed s st = record st { pool = set_at st.pool s []; events = st.events ++ map died (st.pool s) }

-- The loop of `ipc_pset_destroy` over the members.
unfoldable pub destroy_members : ℕ → List ℕ → Sets → Option Sets
destroy_members s [] st = some st
destroy_members s (p ∷ ps) st =
    assert is_at s (st.pset p)
    then destroy_members s ps
        (release s (record st { pset = set_at st.pset p none; ports = set_at st.ports s ps }))

unfoldable pub end_set : ℕ → Option Sets → Option Sets
end_set s none = none
end_set s (some st) =
    let told = changed s st in
    some (release s (record told { events = told.events ++ end_of_set s ∷ [] }))

-- `ipc_pset_destroy`
unfoldable pub destroy : ℕ → Sets → Option Sets
destroy s st =
    end_set s (destroy_members s (st.ports s) (record st { active = set_at st.active s false }))

unfoldable pub leave_current : ℕ → Option ℕ → Sets → Option Sets
leave_current p none st = some st
leave_current p (some s) st = leave s p st

-- The rest of `ipc_port_clear_receiver`, with `ipc_port_changed`.
unfoldable pub cleared : ℕ → Option Sets → Option Sets
cleared p none = none
cleared p (some st) = some (record st {
  port_pool = set_at st.port_pool p [];
  events = st.events ++ map died (st.port_pool p);
  mscount = set_at st.mscount p 0;
  seqno = set_at st.seqno p 0;
})

-- `ipc_port_clear_receiver`
unfoldable pub clear_receiver : ℕ → Sets → Option Sets
clear_receiver p st = assert st.port_active p then cleared p (leave_current p (st.pset p) st)

unfoldable pub with_seqno : ℕ → ℕ → Option Sets → Option Sets
with_seqno p n none = none
with_seqno p n (some st) = some (record st { seqno = set_at st.seqno p n })

unfoldable pub leave_dead : ℕ → Option ℕ → Sets → Option Sets
leave_dead p none st = some st
leave_dead p (some s) st = if st.active s then some st else leave s p st

-- `ipc_port_set_seqno`
unfoldable pub set_seqno : ℕ → ℕ → Sets → Option Sets
set_seqno p n st = with_seqno p n (leave_dead p (st.pset p) st)
