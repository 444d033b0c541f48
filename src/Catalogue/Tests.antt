-- ===== src/Catalogue/Tests.antt =====
-- The catalogue on small inputs: two personalities for one PCI device, one for a device-tree node.
use nextbsd_kernel.Prelude.{
  ℕ, ◌≡◌, ◌≢◌, refl, true, false, none, some, List, [], ◌∷◌, ◌++◌, arith, length, ap,
}
use nextbsd_kernel.Prelude.CString.{c_string, terminate, str_eq, strlcpy}
use nextbsd_kernel.Prelude.Int.{pos}
use nextbsd_kernel.Prelude.Result.{Result, ok}
use nextbsd_kernel.Catalogue.Store.{
  Personality, winner, best_from, any_slot, better, claims_word, claims_compat, lookup_pci,
  lookup_compat, slot,
}
use nextbsd_kernel.Catalogue.Store.Best.{Answers, lookup_pci-best}
use nextbsd_kernel.Catalogue.Queue.{
  Work, lookup_work, Catalogue, ready, bundle_of, store_copied, AddRequest, AddCompatRequest, add,
  rematch_pending, match_taskfn,
}
use nextbsd_kernel.Catalogue.Queue.Drain.{unclaimed, load_from, loads, rematch_pending-splits}
use nextbsd_kernel.Catalogue.Queue.Task.{Drained, has_name, match_taskfn-Drained}
use nextbsd_kernel.Catalogue.Ioctl.{iocadd, ioctl}
use nextbsd_kernel.Catalogue.Ioctl.Invariant.{IsCatalogue, ioctl-IsCatalogue}
use nextbsd_kernel.Catalogue.Scan.{Facts, Device, device, nil, cons, vgapci, rematch_present}
use nextbsd_kernel.Catalogue.Scan.Requests.{
  Sends, scan_wanted, of_buses, rematch_present-Sends, of_below, of_kids, of_wanted, of_work,
}

abbrev net : Personality
net = record {
  bundle_id = b'n' ∷ [];
  provider_class = 1;
  probe_score = pos 10;
  nmatch = 1;
  matches = 7 ∷ [];
  ncompat = 0;
  compat = [];
}

abbrev gfx : Personality
gfx = record {
  bundle_id = b'g' ∷ [];
  provider_class = 1;
  probe_score = pos 20;
  nmatch = 2;
  matches = 8 ∷ 7 ∷ [];
  ncompat = 0;
  compat = [];
}

abbrev uart : Personality
uart = record {
  bundle_id = b'u' ∷ [];
  provider_class = 2;
  probe_score = pos 1;
  nmatch = 0;
  matches = [];
  ncompat = 1;
  compat = b'x' ∷ 0 ∷ [];
}

abbrev known : Work
known = record { match_word = 7; devname = b'a' ∷ []; compat = [] }

abbrev unknown : Work
unknown = record { match_word = 9; devname = b'b' ∷ []; compat = [] }

abbrev stocked : Catalogue
stocked = record {
  records = net ∷ gfx ∷ uart ∷ [];
  count = 3;
  work = known ∷ unknown ∷ [];
  pending = unknown ∷ known ∷ [];
  match_task = true;
  present_task = false;
  channel = ready;
  sent = [];
}

abbrev bare : Catalogue
bare = record {
  records = [];
  count = 0;
  work = [];
  pending = known ∷ [];
  match_task = false;
  present_task = false;
  channel = ready;
  sent = [];
}

abbrev words : ℕ → ℕ → Result (List ℕ)
words at n = ok (7 ∷ [])

abbrev request : AddRequest
request = record {
  bundle_id = b'n' ∷ 0 ∷ [];
  provider_class = 1;
  probe_score = pos 10;
  nmatch = 1;
  matches = 4096;
}

abbrev compat_request : AddCompatRequest
compat_request = record { bundle_id = b'u' ∷ []; probe_score = pos 1; ncompat = 1; compat = 4096 }

abbrev display : Facts
display = record {
  nameunit = some (b'v' ∷ []);
  devclass = some vgapci;
  has_driver = true;
  is_attached = true;
  vendor = 7;
  device_id = 0;
  base_class = 3;
  compat = none;
}

abbrev serial : Facts
serial = record {
  nameunit = some (b's' ∷ []);
  devclass = none;
  has_driver = false;
  is_attached = false;
  vendor = 0;
  device_id = 0;
  base_class = 0;
  compat = some (b'x' ∷ []);
}

abbrev pci_bus : Device
pci_bus = device serial true (cons (device display true nil) nil)

abbrev ofw_bus : Device
ofw_bus = device display true (cons (device serial true nil) nil)

lookup_pci-best_example :
    Answers (claims_word 7) 128 (net ∷ gfx ∷ []) (lookup_pci (net ∷ gfx ∷ []) 7 128)
lookup_pci-best_example = lookup_pci-best (net ∷ gfx ∷ []) 7 128

match_taskfn-Drained_example : Drained stocked (match_taskfn stocked) stocked.work
match_taskfn-Drained_example = match_taskfn-Drained stocked

rematch_pending-splits_example :
    ((rematch_pending stocked).records ≡ stocked.records)
    × ((rematch_pending stocked).pending ≡ unclaimed stocked.records stocked.pending)
    × ((rematch_pending stocked).sent ≡ stocked.sent ++ loads ready stocked.records stocked.pending)
    × ((rematch_pending stocked).work ≡ stocked.work)
rematch_pending-splits_example = rematch_pending-splits stocked

bare-IsCatalogue : IsCatalogue bare
bare-IsCatalogue = record { counted = refl; formed = tt; distinct = (unfold has_name in refl, tt) }

ioctl-IsCatalogue_example : IsCatalogue (ioctl words bare (iocadd request)).0
ioctl-IsCatalogue_example = ioctl-IsCatalogue words bare (iocadd request) bare-IsCatalogue

rematch_present-Sends_example :
    Sends stocked
      (rematch_present stocked (some (pci_bus ∷ [])) (some (ofw_bus ∷ [])))
      (scan_wanted (some (pci_bus ∷ [])) (some (ofw_bus ∷ [])))
rematch_present-Sends_example =
    rematch_present-Sends stocked (some (pci_bus ∷ [])) (some (ofw_bus ∷ []))

add_succeeds : add words bare request ≡ ((add words bare request).0, ok tt)
unfolding add bundle_of store_copied c_string terminate
add_succeeds = refl

serial_due : loads ready (uart ∷ []) (of_buses (ofw_bus ∷ [])) ≢ []
unfolding loads load_from of_buses of_below of_kids of_wanted of_work lookup_work lookup_compat
    winner best_from claims_compat any_slot slot better c_string str_eq strlcpy
serial_due e = let h : 1 ≡ 0 = ap length e in absurd (omega (arith, h))

abbrev tree_only : Catalogue
tree_only = record bare { records = uart ∷ [] }
