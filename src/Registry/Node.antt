-- ===== src/Registry/Node.antt =====
-- The nodes of iokit_registry.c: what the registry says of a device, and the match criteria. The
-- newbus tree of the kernel is an argument.
pub mod Path
pub mod Matching
use nextbsd_kernel.Prelude.{
  ℕ, zero, suc, ◌-◌, Bool, true, false, not, ◌&&◌, ◌||◌, Option, none, some, List, [], ◌∷◌, ◌++◌,
  ◌==◌, if◌then◌else◌, leb, length, take, reverse,
}
use nextbsd_kernel.Prelude.CString.{strlcpy, str_eq, is_empty}
use nextbsd_kernel.Prelude.Result.{Result}

-- The newbus and PCI accessors. A device is known by its address; a NULL string is none.
pub record Newbus : Type 0 where
  pub root : Option ℕ
  pub parent : ℕ → Option ℕ
  pub children : ℕ → Result (List ℕ)
  pub name : ℕ → Option (List ℕ)
  pub devclass : ℕ → Option (List ℕ)
  pub driver : ℕ → Option (List ℕ)
  pub nameunit : ℕ → Option (List ℕ)
  pub desc : ℕ → Option (List ℕ)
  pub devstate : ℕ → ℕ
  pub pci_vendor : ℕ → ℕ
  pub pci_device : ℕ → ℕ
  pub pci_subvendor : ℕ → ℕ
  pub pci_class : ℕ → ℕ

-- IOREG_NAME_MAX, IOREG_PATH_MAX, and the length of the array `chain`.
abbrev pub name_max : ℕ
name_max = 32

abbrev pub path_max : ℕ
path_max = 256

abbrev pub chain_max : ℕ
chain_max = 32

-- `struct ioreg_node`; `live` is the state IOREG_STATE_LIVE.
pub record Node : Type 0 where
  pub id : ℕ
  pub parent_id : ℕ
  pub live : Bool
  pub devstate : ℕ
  pub name : List ℕ
  pub classname : List ℕ
  pub driver : List ℕ
  pub path : List ℕ
  pub pci_vendor : ℕ
  pub pci_device : ℕ
  pub pci_subvendor : ℕ
  pub pci_class : ℕ

-- `bzero(n, sizeof(*n))`
abbrev pub zero_node : Node
zero_node = record {
  id = 0;
  parent_id = 0;
  live = true;
  devstate = 0;
  name = [];
  classname = [];
  driver = [];
  path = [];
  pci_vendor = 0;
  pci_device = 0;
  pci_subvendor = 0;
  pci_class = 0;
}

-- `struct ioreg_criteria`, its strings as they are read; `match_flags` is not used.
pub record Criteria : Type 0 where
  pub name : List ℕ
  pub classname : List ℕ
  pub driver : List ℕ
  pub pci_vendor : ℕ
  pub pci_device : ℕ
  pub pci_subvendor : ℕ
  pub pci_class : ℕ

abbrev pub pci : List ℕ
pci = b'p' ∷ b'c' ∷ b'i' ∷ []

-- `ioreg_is_pci`. `device_get_name` is not NULL where it is given to `strcmp`: a device without a
-- name counts as not "pci".
unfoldable pub is_pci : Newbus → ℕ → Bool
is_pci nb d = elim (nb.parent d) [
  | none ↦ false
  | some p ↦ elim (nb.name p) [ none ↦ false | some n ↦ str_eq n pci ]
]

-- The first loop of `ioreg_build_path`: a device and its ancestors, `n` at most.
unfoldable pub ancestry : Newbus → ℕ → Option ℕ → List ℕ
ancestry nb zero d = []
ancestry nb (suc n) none = []
ancestry nb (suc n) (some d) = d ∷ ancestry nb n (nb.parent d)

-- The name of a device in a path, empty if it has none.
unfoldable pub unit_name : Newbus → ℕ → List ℕ
unit_name nb d = elim (nb.nameunit d) [ none ↦ [] | some nu ↦ nu ]

-- `if (off == 0) strlcpy(buf, "/", buflen);`
unfoldable pub or_slash : ℕ → List ℕ → List ℕ
or_slash buflen buf = if is_empty buf then strlcpy (b'/' ∷ []) buflen else buf

-- The second loop of `ioreg_build_path`, over the devices from the root down; `buf` is the string
-- printed so far. A piece that does not fit is cut, and ends the path.
unfoldable pub print_path : Newbus → ℕ → List ℕ → List ℕ → List ℕ
print_path nb buflen [] buf = or_slash buflen buf
print_path nb buflen (d ∷ ds) buf =
    let piece = b'/' ∷ unit_name nb d in
    let skipped = print_path nb buflen ds buf in
    let printed = print_path nb buflen ds (buf ++ piece) in
    if is_empty (unit_name nb d)
    then skipped
    else if leb (buflen - length buf) (length piece)
    then buf ++ take (buflen - length buf - 1) piece
    else printed

-- `ioreg_build_path`
unfoldable pub build_path : Newbus → ℕ → ℕ → List ℕ
build_path nb d buflen = print_path nb buflen (reverse (ancestry nb chain_max (some d))) []

-- A string field, left empty for a NULL string.
unfoldable pub field : Option (List ℕ) → List ℕ
field none = []
field (some s) = strlcpy s name_max

-- `ioreg_fill_node`
unfoldable pub fill_node : Newbus → ℕ → ℕ → ℕ → Bool → Node
fill_node nb d id parent_id live = record {
  id = id;
  parent_id = parent_id;
  live = live;
  devstate = nb.devstate d;
  name = field (nb.name d);
  classname = field (nb.devclass d);
  driver = field (nb.driver d);
  path = build_path nb d path_max;
  pci_vendor = if is_pci nb d then nb.pci_vendor d else 0;
  pci_device = if is_pci nb d then nb.pci_device d else 0;
  pci_subvendor = if is_pci nb d then nb.pci_subvendor d else 0;
  pci_class = if is_pci nb d then nb.pci_class d else 0;
}

-- `ioreg_node_matches_crit`
unfoldable pub node_matches_crit : Node → Criteria → Bool
node_matches_crit n c =
    if not (is_empty c.name) && not (str_eq n.name c.name)
    then false
    else if not (is_empty c.classname) && not (str_eq n.classname c.classname)
    then false
    else if not (is_empty c.driver) && not (str_eq n.driver c.driver)
    then false
    else if not (c.pci_vendor == 0) && not (n.pci_vendor == c.pci_vendor)
    then false
    else if not (c.pci_device == 0) && not (n.pci_device == c.pci_device)
    then false
    else if not (c.pci_subvendor == 0) && not (n.pci_subvendor == c.pci_subvendor)
    then false
    else if not (c.pci_class == 0) && not (n.pci_class == c.pci_class)
    then false
    else true

-- `ioreg_dev_matches_crit`
unfoldable pub dev_matches_crit : Newbus → ℕ → ℕ → ℕ → Bool → Criteria → Bool
dev_matches_crit nb d id parent_id live c = node_matches_crit (fill_node nb d id parent_id live) c

-- The entries of a property bag.
pub data Property : Type 0 where
  bag_id bag_parent_id bag_state bag_devstate : ℕ → Property
  bag_name bag_class bag_driver bag_path bag_description : List ℕ → Property
  bag_pci_vendor bag_pci_device bag_pci_subvendor bag_pci_class : ℕ → Property

unfoldable pub bag_pci : Node → List Property
bag_pci n =
    if not (n.pci_vendor == 0) || not (n.pci_device == 0)
    then bag_pci_vendor n.pci_vendor
      ∷ bag_pci_device n.pci_device
      ∷ bag_pci_subvendor n.pci_subvendor
      ∷ bag_pci_class n.pci_class
      ∷ []
    else []

unfoldable pub bag_desc : Option (List ℕ) → List Property
bag_desc none = []
bag_desc (some s) = if is_empty s then [] else bag_description s ∷ []

-- `ioreg_build_bag_node`, where memory suffices.
unfoldable pub build_bag_node : Node → Option (List ℕ) → List Property
build_bag_node n desc =
    (bag_id n.id
      ∷ bag_parent_id n.parent_id
      ∷ bag_state (if n.live then 0 else 1)
      ∷ bag_devstate n.devstate
      ∷ bag_name n.name
      ∷ bag_class n.classname
      ∷ bag_driver n.driver
      ∷ bag_path n.path
      ∷ [])
    ++ bag_pci n
    ++ bag_desc desc

-- `ioreg_build_bag`
unfoldable pub build_bag : Newbus → ℕ → ℕ → ℕ → Bool → List Property
build_bag nb d id parent_id live = build_bag_node (fill_node nb d id parent_id live) (nb.desc d)
