-- ===== src/Catalogue/Scan/Requests.antt =====
-- The load messages that the scan of the present devices sends.
use nextbsd_kernel.Prelude.{
  ℕ, ◌≡◌, refl, ap, ◌∙◌, inl, inr, true, false, ◌||◌, Option, none, some, List, [], ◌∷◌, ◌++◌,
  arith, if◌then◌else◌, Bool-cases, ◌≢◌, length, length-append,
}
use mathlib.Core.List.{append_assoc, append-nil}
use nextbsd_kernel.Prelude.CString.{is_empty}
use nextbsd_kernel.Catalogue.Store.{Personality, bundle_id_max, lookup_compat}
use nextbsd_kernel.Catalogue.Queue.{Work, Load, Catalogue, request_load, lookup_work}
use nextbsd_kernel.Catalogue.Queue.Drain.{loads, load_from, loads-append, none_due}
use nextbsd_kernel.Catalogue.Scan.{
  Facts, Device, device, Children, nil, cons, facts, skipped, match_word_of, name_of, request_found,
  scan_child, scan_children, scan_bus, scan_buses, scan_of_node, scan_of_subtree, scan_of_kids,
  scan_of_buses, rematch_present,
}

-- `c'` is `c` with the messages for the devices of `ws` sent.
pub record Sends (c c' : Catalogue) (ws : List Work) : Type 0 where
  pub records : c'.records ≡ c.records
  pub count : c'.count ≡ c.count
  pub channel : c'.channel ≡ c.channel
  pub pending : c'.pending ≡ c.pending
  pub work : c'.work ≡ c.work
  pub match_task : c'.match_task ≡ c.match_task
  pub present_task : c'.present_task ≡ c.present_task
  pub sent : c'.sent ≡ c.sent ++ loads c.channel c.records ws

Sends-nil : (c : Catalogue) → Sends c c []
Sends-nil c = record {
  records = refl;
  count = refl;
  channel = refl;
  pending = refl;
  work = refl;
  match_task = refl;
  present_task = refl;
  sent = none_due c.channel c.records c.sent;
}

Sends-append :
    (c d e : Catalogue) (ws vs : List Work) → Sends c d ws → Sends d e vs → Sends c e (ws ++ vs)
Sends-append c d e ws vs s t = record {
  records = t.records ∙ s.records;
  count = t.count ∙ s.count;
  channel = t.channel ∙ s.channel;
  pending = t.pending ∙ s.pending;
  work = t.work ∙ s.work;
  match_task = t.match_task ∙ s.match_task;
  present_task = t.present_task ∙ s.present_task;
  sent =
      t.sent
      ∙ rw (s.channel, s.records, s.sent, loads-append c.channel c.records ws vs)
          (append_assoc c.sent (loads c.channel c.records ws) _);
}

-- A child of a PCI bus, as work for the matcher.
pub pci_work : Device → Work
pci_work d = record {
  match_word = match_word_of (facts d);
  devname = name_of (facts d);
  compat = [];
}

unfoldable pub of_work : Facts → List ℕ → Work
of_work f compat = record { match_word = 0; devname = name_of f; compat = compat }

request_found-Sends :
    (c : Catalogue) (w : Work)
    → Sends c
        (request_found c w.match_word w.devname (lookup_work c.records w bundle_id_max))
        (w ∷ [])
unfolding request_found request_load loads
request_found-Sends c w =
    ground
      (arith, append-nil c.sent, append-nil (load_from w (lookup_work c.records w bundle_id_max)))

-- The children of the buses that can be read, in the order of the scan.
pub to_list : Children → List Device
to_list nil = []
to_list (cons d ds) = d ∷ to_list ds

pub on_bus : Device → List Device
unfolding to_list
on_bus (device f readable kids) = if readable then to_list kids else []

pub on_buses : List Device → List Device
unfolding on_bus
on_buses [] = []
on_buses (d ∷ ds) = on_bus d ++ on_buses ds

-- The work for the children that the scan does not pass over.
pub pci_wanted : List Device → List Work
pci_wanted [] = []
pci_wanted (d ∷ ds) = let rest = pci_wanted ds in if skipped d then rest else pci_work d ∷ rest

pci_wanted-append : (ds es : List Device) → pci_wanted (ds ++ es) ≡ pci_wanted ds ++ pci_wanted es
unfolding pci_wanted
pci_wanted-append [] es = refl
pci_wanted-append (d ∷ ds) es = ground (arith, pci_wanted-append ds es)

scan_child-Sends : (c : Catalogue) (d : Device) → Sends c (scan_child c d) (pci_wanted (d ∷ []))
unfolding scan_child pci_wanted lookup_work pci_work
scan_child-Sends c d = elim (Bool-cases (skipped d)) [
  | inl skip ↦ rw skip (Sends-nil c)
  | inr take ↦ rw take (request_found-Sends c (pci_work d))
]

scan_children-Sends :
    (c : Catalogue) (ds : Children) → Sends c (scan_children c ds) (pci_wanted (to_list ds))
unfolding scan_children to_list
scan_children-Sends c nil = unfold pci_wanted in Sends-nil c
scan_children-Sends c (cons d ds) = rw (pci_wanted-append (d ∷ []) (to_list ds)) (
    Sends-append c (scan_child c d) _ _ _ (scan_child-Sends c d)
      (scan_children-Sends (scan_child c d) ds))

scan_buses-Sends :
    (c : Catalogue) (ds : List Device) → Sends c (scan_buses c ds) (pci_wanted (on_buses ds))
unfolding scan_buses on_buses
scan_buses-Sends c [] = unfold pci_wanted in Sends-nil c
scan_buses-Sends c (d ∷ ds) =
    rw (pci_wanted-append (on_bus d) (on_buses ds)) (
      Sends-append c (scan_bus c d) _ _ _ (scan_bus-Sends c d) (scan_buses-Sends (scan_bus c d) ds))
  where
    scan_bus-Sends : (k : Catalogue) (b : Device) → Sends k (scan_bus k b) (pci_wanted (on_bus b))
    scan_bus-Sends k (device f true kids) = unfold scan_bus on_bus in scan_children-Sends k kids
    scan_bus-Sends k (device f false kids) = unfold scan_bus on_bus pci_wanted in Sends-nil k

-- The work for a node of the device tree: none without a compatible string or with a driver.
unfoldable pub of_wanted : Facts → List Work
unfolding of_work
of_wanted f = elim f.compat [
  | none ↦ []
  | some compat ↦ if is_empty compat || f.has_driver then [] else of_work f compat ∷ []
]

-- The work for what is below a device, each node behind the nodes below it.
unfoldable mutual
  pub of_below : Device → List Work
  of_below (device f readable kids) = let below = of_kids kids in if readable then below else []

  pub of_kids : Children → List Work
  of_kids nil = []
  of_kids (cons d ds) = (of_below d ++ of_wanted (facts d)) ++ of_kids ds

unfoldable pub of_buses : List Device → List Work
of_buses [] = []
of_buses (d ∷ ds) = of_below d ++ of_buses ds

of_lookup :
    (rs : List Personality) (f : Facts) (compat : List ℕ)
    → is_empty compat ≡ false
    → lookup_work rs (of_work f compat) bundle_id_max ≡ lookup_compat rs compat bundle_id_max
unfolding lookup_work of_work
of_lookup rs f compat full = rw full

scan_of_node-Sends : (c : Catalogue) (f : Facts) → Sends c (scan_of_node c f) (of_wanted f)
unfolding scan_of_node of_wanted
scan_of_node-Sends c f = go f.compat
  where
    go :
        (o : Option (List ℕ))
        → Sends c
            (elim o [
              | none ↦ c
              | some compat ↦
                  if is_empty compat || f.has_driver
                  then c
                  else request_found c 0 (name_of f) (lookup_compat c.records compat bundle_id_max)
            ])
            (elim o [
              | none ↦ []
              | some compat ↦ if is_empty compat || f.has_driver then [] else of_work f compat ∷ []
            ])
    go none = Sends-nil c
    go (some compat) = elim (Bool-cases (is_empty compat || f.has_driver)) [
      | inl skip ↦ rw skip (Sends-nil c)
      | inr take ↦
          rw (take, ← of_lookup c.records f compat (ground arith))
            (request_found-Sends c (of_work f compat))
    ]

mutual
  unfolding scan_of_subtree scan_of_kids of_below of_kids

  scan_of_subtree-Sends : (c : Catalogue) (d : Device) → Sends c (scan_of_subtree c d) (of_below d)
  scan_of_subtree-Sends c (device f true kids) = scan_of_kids-Sends c kids
  scan_of_subtree-Sends c (device f false kids) = Sends-nil c

  scan_of_kids-Sends : (c : Catalogue) (ds : Children) → Sends c (scan_of_kids c ds) (of_kids ds)
  scan_of_kids-Sends c nil = Sends-nil c
  scan_of_kids-Sends c (cons d ds) =
      Sends-append c (scan_of_node (scan_of_subtree c d) (facts d)) _ _ _
        (Sends-append c (scan_of_subtree c d) _ _ _ (scan_of_subtree-Sends c d)
          (scan_of_node-Sends (scan_of_subtree c d) (facts d)))
        (scan_of_kids-Sends _ ds)

scan_of_buses-Sends :
    (c : Catalogue) (ds : List Device) → Sends c (scan_of_buses c ds) (of_buses ds)
unfolding scan_of_buses of_buses
scan_of_buses-Sends c [] = Sends-nil c
scan_of_buses-Sends c (d ∷ ds) =
    Sends-append c (scan_of_subtree c d) _ _ _ (scan_of_subtree-Sends c d)
      (scan_of_buses-Sends (scan_of_subtree c d) ds)

-- The work that the scan finds; without the devices of the class `pci` it finds none.
pub scan_wanted : Option (List Device) → Option (List Device) → List Work
scan_wanted none ofw = []
scan_wanted (some pci) none = pci_wanted (on_buses pci)
scan_wanted (some pci) (some ofw) = pci_wanted (on_buses pci) ++ of_buses ofw

-- `iocat_rematch_present` changes nothing of the catalogue but the messages sent. Where the devices
-- of the class `pci` can be had and kextd can be reached, it sends one for each child of a readable
-- PCI bus that it does not pass over and whose match word is claimed, in order; then, where those
-- of the class `ofwbus` can be had, one for each node below an `ofwbus` that has a compatible
-- string, no driver, and a record that lists the string, each node behind the nodes below it.
-- Without the class `pci` it sends none.
pub rematch_present-Sends :
    (c : Catalogue) (pci ofw : Option (List Device))
    → Sends c (rematch_present c pci ofw) (scan_wanted pci ofw)
unfolding rematch_present scan_wanted
rematch_present-Sends c none ofw = Sends-nil c
rematch_present-Sends c (some pci) none = scan_buses-Sends c pci
rematch_present-Sends c (some pci) (some ofw) =
    Sends-append c (scan_buses c pci) _ _ _ (scan_buses-Sends c pci)
      (scan_of_buses-Sends (scan_buses c pci) ofw)

nothing_appended : (xs ys : List Load) → xs ≡ xs ++ ys → ys ≡ []
nothing_appended xs ys e = empty_of_length ys (omega (arith, length-append xs ys, ap length e))
  where
    empty_of_length : (ys : List Load) → length ys ≡ 0 → ys ≡ []
    empty_of_length [] h = refl
    empty_of_length (y ∷ ys) h = absurd (omega arith)

-- On a machine without the class `pci`, `iocat_rematch_present` misses the nodes of the device
-- tree: if a node below an `ofwbus` is due a load message, the scan does not send what is due.
pub rematch_present_without_pci-misses :
    (c : Catalogue) (ofw : List Device)
    → loads c.channel c.records (of_buses ofw) ≢ []
    → ¬ Sends c (rematch_present c none (some ofw)) (of_buses ofw)
unfolding rematch_present
rematch_present_without_pci-misses c ofw due s =
    due (nothing_appended c.sent (loads c.channel c.records (of_buses ofw)) s.sent)
