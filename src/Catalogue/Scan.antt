-- ===== src/Catalogue/Scan.antt =====
-- The scan of the devices that are present, `iocat_rematch_present` of iokit_catalogue.c, and the
-- handler of the device_nomatch event. The newbus device tree is an argument.
pub mod Wanted
pub mod Requests
use nextbsd_kernel.Prelude.{
  ℕ, ◌+◌, ◌*◌, ◌%◌, ◌^◌, Bool, true, false, not, ◌&&◌, ◌||◌, Option, none, some, List, [], ◌∷◌,
  ◌++◌, ◌==◌, if◌then◌else◌,
}
use nextbsd_kernel.Prelude.CString.{strlcpy, str_eq, is_empty}
use nextbsd_kernel.Prelude.Int.{ℤ}
use nextbsd_kernel.Prelude.Result.{Result, ok, err}
use nextbsd_kernel.Catalogue.Store.{
  Personality, bundle_id_max, compat_max, lookup_pci, lookup_compat,
}
use nextbsd_kernel.Catalogue.Queue.{Work, Catalogue, request_load}

-- What the newbus and PCI accessors say of a device; `devclass` is none where the device has no
-- class or the class no name, and `compat` none where `ofw_bus_get_compat` returns NULL.
pub record Facts : Type 0 where
  pub nameunit : Option (List ℕ)
  pub devclass : Option (List ℕ)
  pub has_driver : Bool
  pub is_attached : Bool
  pub vendor : ℕ
  pub device_id : ℕ
  pub base_class : ℕ
  pub compat : Option (List ℕ)

-- The Boolean is whether `device_get_children` succeeds.
mutual
  pub data Device : Type 0 where
    device : Facts → Bool → Children → Device

  pub data Children : Type 0 where
    nil : Children
    cons : Device → Children → Children

abbrev pub facts : Device → Facts
facts (device f r kids) = f

abbrev pub drmn : List ℕ
drmn = b'd' ∷ b'r' ∷ b'm' ∷ b'n' ∷ []

abbrev pub vtgpu : List ℕ
vtgpu = b'v' ∷ b't' ∷ b'g' ∷ b'p' ∷ b'u' ∷ []

abbrev pub vgapci : List ℕ
vgapci = b'v' ∷ b'g' ∷ b'a' ∷ b'p' ∷ b'c' ∷ b'i' ∷ []

abbrev pub virtio_pci : List ℕ
virtio_pci = b'v' ∷ b'i' ∷ b'r' ∷ b't' ∷ b'i' ∷ b'o' ∷ b'_' ∷ b'p' ∷ b'c' ∷ b'i' ∷ []

abbrev pub pcic_display : ℕ
pcic_display = 0x03

-- The class test of both look-through helpers.
unfoldable pub is_class : List ℕ → Facts → Bool
is_class name f = elim f.devclass [ none ↦ false | some n ↦ str_eq n name ]

unfoldable pub any_attached : List ℕ → Children → Bool
any_attached name nil = false
any_attached name (cons (device f r kids) ds) =
    (is_class name f && f.is_attached) || any_attached name ds

-- `iocat_drmn_bound`
unfoldable pub drmn_bound : Device → Bool
drmn_bound (device f readable kids) = readable && any_attached drmn kids

-- `iocat_vtgpu_shadowed`
unfoldable pub vtgpu_shadowed : Device → Bool
vtgpu_shadowed (device f readable kids) = readable && any_attached vtgpu kids

-- The skip of the scan over a child that has a driver, by the name of its class.
unfoldable pub skip_driven : Device → Option (List ℕ) → Bool
skip_driven d none = true
skip_driven d (some dn) =
    if str_eq dn vgapci && (facts d).base_class == pcic_display
    then drmn_bound d
    else if str_eq dn virtio_pci
    then not (vtgpu_shadowed d)
    else true

-- Does the scan pass over a child of a PCI bus?
unfoldable pub skipped : Device → Bool
skipped d = if (facts d).has_driver then skip_driven d (facts d).devclass else false

-- `((uint32_t)pci_get_device(dev) << 16) | pci_get_vendor(dev)`, of two 16-bit numbers
unfoldable pub match_word_of : Facts → ℕ
match_word_of f = (f.device_id % 2 ^ 16) * 2 ^ 16 + f.vendor % 2 ^ 16

abbrev pub name_of : Facts → List ℕ
name_of f = elim f.nameunit [ none ↦ [] | some n ↦ n ]

-- A request for what a lookup found, and nothing where it failed.
unfoldable pub request_found : Catalogue → ℕ → List ℕ → Result (List ℕ × ℤ) → Catalogue
request_found c word name (err e) = c
request_found c word name (ok (bundle, score)) = request_load c word name bundle

-- One round of the inner loop of `iocat_rematch_present`.
unfoldable pub scan_child : Catalogue → Device → Catalogue
scan_child c d =
    if skipped d
    then c
    else request_found c (match_word_of (facts d)) (name_of (facts d))
        (lookup_pci c.records (match_word_of (facts d)) bundle_id_max)

unfoldable pub scan_children : Catalogue → Children → Catalogue
scan_children c nil = c
scan_children c (cons d ds) = scan_children (scan_child c d) ds

-- The outer loop: a bus whose children cannot be read is passed over.
unfoldable pub scan_bus : Catalogue → Device → Catalogue
scan_bus c (device f readable kids) = if readable then scan_children c kids else c

unfoldable pub scan_buses : Catalogue → List Device → Catalogue
scan_buses c [] = c
scan_buses c (d ∷ ds) = scan_buses (scan_bus c d) ds

-- One node of the device tree, in `iocat_scan_of_subtree`.
unfoldable pub scan_of_node : Catalogue → Facts → Catalogue
scan_of_node c f = elim f.compat [
  | none ↦ c
  | some compat ↦
      if is_empty compat || f.has_driver
      then c
      else request_found c 0 (name_of f) (lookup_compat c.records compat bundle_id_max)
]

unfoldable mutual
  -- `iocat_scan_of_subtree`: the nodes below a child come before the child.
  pub scan_of_subtree : Catalogue → Device → Catalogue
  scan_of_subtree c (device f readable kids) =
      let below = scan_of_kids c kids in if readable then below else c

  pub scan_of_kids : Catalogue → Children → Catalogue
  scan_of_kids c nil = c
  scan_of_kids c (cons d ds) = scan_of_kids (scan_of_node (scan_of_subtree c d) (facts d)) ds

unfoldable pub scan_of_buses : Catalogue → List Device → Catalogue
scan_of_buses c [] = c
scan_of_buses c (d ∷ ds) = scan_of_buses (scan_of_subtree c d) ds

-- `iocat_rematch_present`, in a kernel with FDT. `pci` is the buses of the class `pci`, and `ofw`
-- those of the class `ofwbus`; `none` is a class that is not there or that cannot be read.
unfoldable pub rematch_present : Catalogue → Option (List Device) → Option (List Device) → Catalogue
rematch_present c none ofw = c
rematch_present c (some pci) none = scan_buses c pci
rematch_present c (some pci) (some ofw) = scan_of_buses (scan_buses c pci) ofw

abbrev pub pci_name : List ℕ
pci_name = b'p' ∷ b'c' ∷ b'i' ∷ []

-- `strlcpy(w->devname, nu != NULL ? nu : "?", sizeof(w->devname))`
abbrev pub devname_of : Facts → List ℕ
devname_of f = elim f.nameunit [ none ↦ b'?' ∷ [] | some n ↦ strlcpy n 64 ]

-- The queueing at the end of `iocat_device_nomatch`.
unfoldable pub enqueue_work : Catalogue → Work → Catalogue
enqueue_work c w = record c { work = c.work ++ w ∷ []; match_task = true }

-- `iocat_device_nomatch`: `parent` is the name of the parent, and `memory` whether the
-- allocation succeeds, which must not sleep.
unfoldable pub device_nomatch : Catalogue → Option (List ℕ) → Bool → Facts → Catalogue
device_nomatch c none memory f = c
device_nomatch c (some parent) memory f =
    if str_eq parent pci_name
    then (if memory
        then enqueue_work c
            (record { match_word = match_word_of f; devname = devname_of f; compat = [] })
        else c)
    else elim f.compat [
      | none ↦ c
      | some compat ↦
          if is_empty compat || not memory
          then c
          else enqueue_work c (record {
            match_word = 0;
            devname = devname_of f;
            compat = strlcpy compat compat_max;
          })
    ]
