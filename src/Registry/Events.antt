-- ===== src/Registry/Events.antt =====
-- The newbus event handlers of iokit_registry.c, which keep the id map and send the device events.
pub mod Flush
pub mod Quiet
pub mod Settle
use nextbsd_kernel.Prelude.{
  ℕ, zero, suc, ◌+◌, ◌-◌, Bool, true, false, not, Option, none, some, List, [], ◌∷◌, ◌++◌, ◌==◌,
  if◌then◌else◌,
}
use nextbsd_kernel.Registry.Map.{
  Entry, IdMap, find_dev, id_for, id_or_find, parent_id, retire_dev, is_dev,
}
use nextbsd_kernel.Registry.Node.{Newbus}
use nextbsd_kernel.Registry.Watch.{
  Kind, arrive, depart, matched, Watches, Ports, emit_event, watch_flush,
}

-- The static data of iokit_registry.c: `pending` are the devices of `ioreg_pending`, `depth` is
-- `ioreg_match_depth`.
pub record Registry : Type 0 where
  pub map : IdMap
  pub watches : Watches
  pub pending : List ℕ
  pub depth : ℕ

-- `enum evhdev_detach`
pub data Detach : Type 0 where
  begin complete failed : Detach

-- `ioreg_on_attach`; `memory` says whether `malloc` gives the entry of the pending list.
unfoldable pub on_attach : Bool → Registry → ℕ → Registry
on_attach memory r d =
    let s = record r { map = (id_for r.map d).0 } in
    if s.watches.count == 0
    then s
    else if memory
    then record s { pending = s.pending ++ d ∷ [] }
    else s

-- The id of an entry, 0 without one.
unfoldable pub entry_id : Option Entry → ℕ
entry_id none = 0
entry_id (some e) = e.id

-- The parent's id at a detach, 0 if the map has none.
unfoldable pub known_parent : IdMap → Option ℕ → ℕ
known_parent m none = 0
known_parent m (some p) = entry_id (find_dev m p)

-- What `ioreg_on_detach` sends for the entry it finds; an entry with the id 0 sends nothing.
unfoldable pub depart_entry : Newbus → Ports → Registry → ℕ → Option Entry → Watches
depart_entry nb ports r d none = r.watches
depart_entry nb ports r d (some e) =
    if e.id == 0
    then r.watches
    else emit_event nb ports d e.id (known_parent r.map (nb.parent d)) false depart r.watches

-- `ioreg_on_detach`
unfoldable pub on_detach : Newbus → Ports → Registry → ℕ → Detach → Registry
on_detach nb ports r d begin = r
on_detach nb ports r d failed = r
on_detach nb ports r d complete = record r {
  watches = depart_entry nb ports r d (find_dev r.map d);
  map = retire_dev r.map d;
}

-- `ioreg_on_match_start`
unfoldable pub on_match_start : Registry → Registry
on_match_start r = record r { depth = r.depth + 1 }

-- The entry that a pending device has in the map, if it has an id other than 0.
unfoldable pub live_id : ℕ → Option Entry → ℕ
live_id d none = 0
live_id d (some e) = if is_dev d e then e.id else 0

-- What is sent for a pending device that has an id: `ports i` and `ports (i + 1)` are the ports at
-- the two emissions.
unfoldable pub announce : Newbus → (ℕ → Ports) → ℕ → Registry → ℕ → ℕ → Registry
announce nb ports i r d id =
    let (m, up) = parent_id r.map (nb.parent d) in
    let one = emit_event nb (ports i) d id up true arrive r.watches in
    record r { map = m; watches = emit_event nb (ports (i + 1)) d id up true matched one }

-- One round of the loop of `ioreg_on_match_end`.
unfoldable pub flush_one : Newbus → (ℕ → Ports) → ℕ → Registry → ℕ → Registry
flush_one nb ports i r d =
    let id = live_id d (find_dev r.map d) in
    let sent = announce nb ports i r d id in if id == 0 then r else sent

-- The loop of `ioreg_on_match_end`.
unfoldable pub flush_all : Newbus → (ℕ → Ports) → ℕ → Registry → List ℕ → Registry
flush_all nb ports i r [] = r
flush_all nb ports i r (d ∷ ds) = flush_all nb ports (i + 2) (flush_one nb ports i r d) ds

-- `ioreg_on_match_end`
unfoldable pub on_match_end : Newbus → (ℕ → Ports) → Registry → Registry
on_match_end nb ports r =
    let s = record r { depth = r.depth - 1 } in
    if s.depth == 0 then flush_all nb ports 0 (record s { pending = [] }) s.pending else s

-- `ioreg_modevent` at MOD_UNLOAD
unfoldable pub unload : Registry → Registry
unload r = record r {
  watches = watch_flush r.watches;
  pending = [];
  map = record { entries = []; next_id = r.map.next_id };
}
