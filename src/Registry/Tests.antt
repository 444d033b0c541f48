-- ===== src/Registry/Tests.antt =====
-- The registry on a chain of three devices, with one watch.
use nextbsd_kernel.Prelude.{
  ℕ, zero, suc, ◌+◌, ◌^◌, ◌<◌, ◌≤◌, ◌≡◌, ◌⊎◌, refl, Bool, true, Option, none, some, List, [], ◌∷◌,
  ◌==◌, if◌then◌else◌, arith, take, map, length, keep,
}
use nextbsd_kernel.Prelude.Result.{Result, ok}
use nextbsd_kernel.Registry.Map.{Entry, IdMap, first_id, find_id, retire_dev}
use nextbsd_kernel.Registry.Map.Ids.{IsIdMap}
use nextbsd_kernel.Registry.Map.Steps.{detach, stop, step, find_id-lingers}
use nextbsd_kernel.Registry.Map.Known.{id_in}
use nextbsd_kernel.Registry.Node.{Newbus, zero_node, Criteria}
use nextbsd_kernel.Registry.Query.{top, find_root, kids, lookup}
use nextbsd_kernel.Registry.Query.Preorder.{devices}
use nextbsd_kernel.Registry.Query.Lookup.{matches, lookup-matches}
use nextbsd_kernel.Registry.Watch.{arrive, Watch, Watches, WatchReg, Ports, emit_event_node}
use nextbsd_kernel.Registry.Watch.Emit.{Emitted, emit_event_node-sends}
use nextbsd_kernel.Registry.Watch.Rights.{Balanced, emit_event_node-Balanced}
use nextbsd_kernel.Registry.Events.{Registry, on_match_end}
use nextbsd_kernel.Registry.Events.Quiet.{
  match_start, attach, match_end, configure_all, Waits, configure_all-Waits,
}
use nextbsd_kernel.Registry.Events.Flush.{MatchEnded, on_match_end-MatchEnded}

abbrev below : ℕ → Option ℕ
below zero = none
below (suc n) = some n

abbrev sub : ℕ → Result (List ℕ)
sub zero = ok (1 ∷ [])
sub (suc zero) = ok (2 ∷ [])
sub (suc (suc n)) = ok []

abbrev name_of : ℕ → Option (List ℕ)
name_of zero = some (b'r' ∷ [])
name_of (suc n) = some (b'p' ∷ b'c' ∷ b'i' ∷ [])

abbrev chain : Newbus
chain = record {
  root = some 0;
  parent = below;
  children = sub;
  name = name_of;
  devclass = name_of;
  driver = λ d. none;
  nameunit = name_of;
  desc = λ d. none;
  devstate = λ d. 0;
  pci_vendor = λ d. 0x8086;
  pci_device = λ d. 1;
  pci_subvendor = λ d. 0;
  pci_class = λ d. 2;
}

abbrev entry : Entry
entry = record { dev = some 1; id = 1; live = true }

abbrev one_id : IdMap
one_id = record { entries = entry ∷ []; next_id = 2 }

abbrev any : Criteria
any = record {
  name = [];
  classname = [];
  driver = [];
  pci_vendor = 0;
  pci_device = 0;
  pci_subvendor = 0;
  pci_class = 0;
}

abbrev watch : Watch
watch = record { criteria = any; mask = 5; port = 40 }

abbrev dead_watch : Watch
dead_watch = record { criteria = any; mask = 7; port = 41 }

abbrev held : ℕ → ℕ
held p = (if 40 == p then 1 else 0) + ((if 41 == p then 1 else 0) + 0) + 0

abbrev watched : Watches
watched = record { watches = watch ∷ dead_watch ∷ []; count = 2; sent = []; rights = held }

abbrev ports : Ports
ports = record { active = λ p. p == 40; still_active = λ p. true; memory = λ p. true }

abbrev at_boot : Registry
at_boot = record { map = one_id; watches = watched; pending = []; depth = 1 }

one_id-IsIdMap : IsIdMap one_id
one_id-IsIdMap = (omega arith, (omega arith, omega arith, tt))

find_id-finds : find_id one_id 1 ≡ some entry
unfolding find_id first_id
find_id-finds = refl

find_id-lingers_example :
    (e' : Entry) × (find_id (retire_dev one_id 1) 1 ≡ some e')
    × (e'.id ≡ 1)
    × ((e'.dev ≡ some 1) ⊎ (e'.dev ≡ none))
find_id-lingers_example =
    find_id-lingers one_id (retire_dev one_id 1) 1 entry one_id-IsIdMap (step (detach 1) stop)
      find_id-finds

root_found : find_root chain 1 one_id ≡ top 0
unfolding find_root
root_found = refl

keep-le : (p : ℕ → Bool) (xs : List ℕ) → length xs < 2 ^ 32 → length (keep p xs) < 2 ^ 32
keep-le p xs small = omega (arith, le p xs, small)
  where
    le : (p : ℕ → Bool) (xs : List ℕ) → length (keep p xs) ≤ length xs
    le p [] = omega arith
    le p (x ∷ xs) = ground (arith, le p xs)

three_devices : length (devices chain 65 0) < 2 ^ 32
unfolding devices kids
three_devices = omega arith

lookup-matches_example :
    (m' : IdMap) × (lookup chain 1 one_id any 2
      ≡ some (
        m',
        record {
          count = length (matches chain any 0);
          ids = take 2 (map (id_in m') (matches chain any 0));
        },
      ))
lookup-matches_example =
    lookup-matches chain 1 one_id any 2 0 root_found (keep-le _ (devices chain 65 0) three_devices)

below-falls : (d p : ℕ) → below d ≡ some p → p < d
below-falls zero p e = cc
below-falls (suc n) p e = let same : n ≡ p = ground (arith, e) in omega arith

emit_event_node-sends_example :
    Emitted ports zero_node arrive watched (emit_event_node ports zero_node arrive watched)
emit_event_node-sends_example =
    emit_event_node-sends ports zero_node arrive watched (refl, omega arith)

watched-Balanced : Balanced watched
watched-Balanced p = refl

emit_event_node-Balanced_example : Balanced (emit_event_node ports zero_node arrive watched)
emit_event_node-Balanced_example =
    emit_event_node-Balanced ports zero_node arrive watched watched-Balanced

abbrev registration : WatchReg
registration = record { criteria = any; event_mask = 1; notify_port = 3 }

configure_all-Waits_example :
    Waits chain
      (λ i. ports)
      at_boot
      (match_start ∷ attach true 2 ∷ match_end ∷ [])
      (configure_all chain (λ i. ports) at_boot (match_start ∷ attach true 2 ∷ match_end ∷ []))
configure_all-Waits_example =
    configure_all-Waits chain (λ i. ports) at_boot (match_start ∷ attach true 2 ∷ match_end ∷ [])
      refl (omega arith, omega arith)

-- Device 1 is pending when the outermost match ends.
abbrev settling : Registry
settling = record at_boot { pending = 1 ∷ []; depth = 1 }

on_match_end-MatchEnded_example :
    MatchEnded chain (λ i. ports) settling (on_match_end chain (λ i. ports) settling)
on_match_end-MatchEnded_example =
    on_match_end-MatchEnded chain (λ i. ports) settling (refl, omega arith)
