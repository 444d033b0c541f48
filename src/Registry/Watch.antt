-- ===== src/Registry/Watch.antt =====
-- The device-event watches of iokit_registry.c, with the Mach side in compat/mach/iokit_notify.c:
-- registration, emission to every watch that asks for the event, and the flush.
pub mod Pass
pub mod Emit
pub mod Rights
use nextbsd_kernel.Prelude.{
  ℕ, zero, suc, ◌+◌, ◌-◌, ◌/◌, ◌%◌, ◌^◌, Bool, true, false, not, ◌&&◌, Option, none, some, List, [],
  ◌∷◌, ◌++◌, ◌==◌, if◌then◌else◌, leb, foldl, length,
}
use nextbsd_kernel.Prelude.CString.{c_string, terminate, strlcpy}
use nextbsd_kernel.Prelude.Result.{Result, ok, err, Errno, einval, enxio, enomem}
use nextbsd_kernel.Registry.Node.{
  name_max, Node, zero_node, Criteria, node_matches_crit, Newbus, fill_node,
}
use nextbsd_kernel.Registry.Query.{bound, bound_criteria}

-- The IOREG_EVENT_* bits.
pub data Kind : Type 0 where
  arrive depart matched : Kind

abbrev pub kind_bit : Kind → ℕ
kind_bit arrive = 1
kind_bit depart = 2
kind_bit matched = 4

-- `mask & kind`
unfoldable pub has_kind : ℕ → Kind → Bool
has_kind mask k = not ((mask / kind_bit k) % 2 == 0)

-- `struct ioreg_watch`; `port` is the send right that the watch retains.
pub record Watch : Type 0 where
  pub criteria : Criteria
  pub mask : ℕ
  pub port : ℕ

-- `ioreg_event_msg`, with the port it is sent to.
pub record Event : Type 0 where
  pub port : ℕ
  pub kind : Kind
  pub id : ℕ
  pub name : List ℕ
  pub classname : List ℕ
  pub pci_vendor : ℕ
  pub pci_device : ℕ

-- `ioreg_watches` and `ioreg_watch_count`, an `unsigned int`; `sent` is the history of the
-- messages, `rights` the number of send rights that the watches, the emission in progress and the
-- messages hold for each port.
pub record Watches : Type 0 where
  pub watches : List Watch
  pub count : ℕ
  pub sent : List Event
  pub rights : ℕ → ℕ

-- Whether a port is active, when an emission picks its watches and when it sends, and whether
-- `ikm_alloc` finds memory for a message to a port.
pub record Ports : Type 0 where
  pub active : ℕ → Bool
  pub still_active : ℕ → Bool
  pub memory : ℕ → Bool

unfoldable pub add_right : (ℕ → ℕ) → ℕ → ℕ → ℕ
add_right r p q = if p == q then r q + 1 else r q

unfoldable pub drop_right : (ℕ → ℕ) → ℕ → ℕ → ℕ
drop_right r p q = if p == q then r q - 1 else r q

-- `iokit_notify_port_dead`
unfoldable pub port_dead : Ports → ℕ → Bool
port_dead ports p = not (ports.active p)

-- `iokit_notify_copy_port`
unfoldable pub copy_port : Ports → (ℕ → ℕ) → ℕ → Option (ℕ → ℕ)
copy_port ports r p = if ports.active p then some (add_right r p) else none

-- `iokit_notify_release_port`
unfoldable pub release_port : Watches → ℕ → Watches
release_port w p = record w { rights = drop_right w.rights p }

-- The message that `iokit_notify_send` builds. `notify_strcopy` cuts the strings to the 32 bytes
-- of the message's fields.
unfoldable pub event_msg : Node → Kind → ℕ → Event
event_msg n k p = record {
  port = p;
  kind = k;
  id = n.id;
  name = strlcpy n.name 32;
  classname = strlcpy n.classname 32;
  pci_vendor = n.pci_vendor;
  pci_device = n.pci_device;
}

-- `iokit_notify_send`, which consumes a send right: the message takes it, or it is released.
unfoldable pub notify_send : Ports → Node → Kind → Watches → ℕ → Watches × Result (Unit {0})
notify_send ports n k w p =
    if not (ports.still_active p)
    then (release_port w p, err enxio)
    else if not (ports.memory p)
    then (release_port w p, err enomem)
    else (record w { sent = w.sent ++ event_msg n k p ∷ [] }, ok tt)

-- The state of the first pass: the watches that stay, the watch count, the rights, and the ports
-- in the array `snap`.
pub record Snap : Type 0 where
  pub kept : List Watch
  pub count : ℕ
  pub rights : ℕ → ℕ
  pub ports : List ℕ

-- A watch that stays, and takes the message.
unfoldable pub snap_port : Snap → ℕ → Option (ℕ → ℕ) → Snap
snap_port s p none = s
snap_port s p (some r) = record s { rights = r; ports = s.ports ++ p ∷ [] }

-- The loop of the first pass of `ioreg_emit_event_node`; `cap` is the length of `snap`.
unfoldable pub first_pass : Ports → Node → Kind → ℕ → Snap → List Watch → Snap
first_pass ports n k cap s [] = s
first_pass ports n k cap s (w ∷ ws) =
    let stays = record s { kept = s.kept ++ w ∷ [] } in
    if port_dead ports w.port
    then first_pass ports n k cap
        (record s {
          count = (s.count + (2 ^ 32 - 1)) % 2 ^ 32;
          rights = drop_right s.rights w.port;
        })
        ws
    else if not (has_kind w.mask k)
    then first_pass ports n k cap stays ws
    else if not (node_matches_crit n w.criteria)
    then first_pass ports n k cap stays ws
    else if leb cap (length s.ports)
    then record s { kept = s.kept ++ w ∷ ws }
    else first_pass ports n k cap (snap_port stays w.port (copy_port ports s.rights w.port)) ws

-- The second pass: the errors of the sends are dropped.
unfoldable pub second_pass : Ports → Node → Kind → Watches → List ℕ → Watches
second_pass ports n k w ps = foldl (λ v p. (notify_send ports n k v p).0) w ps

-- `ioreg_emit_event_node`
unfoldable pub emit_event_node : Ports → Node → Kind → Watches → Watches
emit_event_node ports n k w =
    let s =
      first_pass ports n k w.count
        (record { kept = []; count = w.count; rights = w.rights; ports = [] }) w.watches in
    if w.count == 0
    then w
    else second_pass ports n k (record w { watches = s.kept; count = s.count; rights = s.rights })
        s.ports

-- `ioreg_emit_event`
unfoldable pub emit_event : Newbus → Ports → ℕ → ℕ → ℕ → Bool → Kind → Watches → Watches
emit_event nb ports d id parent_id live k w =
    if w.count == 0 then w else emit_event_node ports (fill_node nb d id parent_id live) k w

-- `struct ioreg_watch_reg`
pub record WatchReg : Type 0 where
  pub criteria : Criteria
  pub event_mask : ℕ
  pub notify_port : ℕ

-- The end of `ioreg_watch_register`, from the result of `iokit_notify_copyin_port` on. The port
-- that it resolves comes with a send right.
unfoldable pub append_watch : Watches → WatchReg → Result ℕ → Watches × Result (Unit {0})
append_watch w wr (err e) = (w, err e)
append_watch w wr (ok p) = (
  record w {
    watches =
        w.watches
        ++ record { criteria = bound_criteria wr.criteria; mask = wr.event_mask; port = p } ∷ [];
    count = (w.count + 1) % 2 ^ 32;
    rights = add_right w.rights p;
  },
  ok tt,
)

-- `ioreg_watch_register`; `copyin` gives the port of a name in the caller's space.
unfoldable pub watch_register : (ℕ → Result ℕ) → Watches → WatchReg → Watches × Result (Unit {0})
watch_register copyin w wr =
    if wr.notify_port == 0
    then (w, err einval)
    else if wr.event_mask % 8 == 0
    then (w, err einval)
    else append_watch w wr (copyin wr.notify_port)

-- `struct ioreg_test_event`
pub record TestEvent : Type 0 where
  pub kind : ℕ
  pub id : ℕ
  pub pci_vendor : ℕ
  pub pci_device : ℕ
  pub name : List ℕ
  pub classname : List ℕ

-- The kind that is exactly one known bit.
unfoldable pub known_kind : ℕ → Option Kind
known_kind k =
    if k == 1
    then some arrive
    else if k == 2
    then some depart
    else if k == 4
    then some matched
    else none

unfoldable pub is_depart : Kind → Bool
is_depart arrive = false
is_depart depart = true
is_depart matched = false

-- The node of `ioreg_test_event`.
unfoldable pub test_node : TestEvent → Kind → Node
test_node te k = record zero_node {
  id = te.id;
  live = not (is_depart k);
  name = strlcpy (bound te.name) name_max;
  classname = strlcpy (bound te.classname) name_max;
  pci_vendor = te.pci_vendor;
  pci_device = te.pci_device;
}

-- `ioreg_test_event`
unfoldable pub test_event : Ports → Watches → TestEvent → Watches × Result (Unit {0})
test_event ports w te = elim (known_kind te.kind) [
  | none ↦ (w, err einval)
  | some k ↦ (emit_event_node ports (test_node te k) k w, ok tt)
]

-- `ioreg_watch_flush`
unfoldable pub watch_flush : Watches → Watches
watch_flush w = record (foldl (λ v x. release_port v x.port) w w.watches) {
  watches = [];
  count = 0;
}
