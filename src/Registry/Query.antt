-- ===== src/Registry/Query.antt =====
-- The queries of /dev/ioregistry, iokit_registry.c: the root, the children, the descriptor and the
-- properties of a node, and the lookup by criteria.
pub mod Preorder
pub mod Lookup
pub mod Answers
use nextbsd_kernel.Prelude.{
  ℕ, zero, suc, ◌+◌, ◌-◌, ◌%◌, ◌^◌, Bool, true, false, Option, none, some, List, [], ◌∷◌, ◌++◌,
  ◌==◌, if◌then◌else◌, ltb, length, take, foldl,
}
use nextbsd_kernel.Prelude.CString.{c_string, terminate}
use nextbsd_kernel.Prelude.Result.{Result, ok, err, Errno, enoent}
use nextbsd_kernel.Registry.Map.{Entry, IdMap, find_dev, find_id, id_for, id_or_find, parent_id}
use nextbsd_kernel.Registry.Node.{
  Newbus, name_max, Node, zero_node, Criteria, fill_node, dev_matches_crit, Property, build_bag,
}

-- Where a search for the root ends.
pub data Root : Type 0 where
  top : ℕ → Root
  no_root : Root
  out_of_fuel : Root

-- `for (d = any; device_get_parent(d) != NULL; d = device_get_parent(d))`
unfoldable pub climb : Newbus → ℕ → ℕ → Root
climb nb zero d = out_of_fuel
climb nb (suc fuel) d = elim (nb.parent d) [ none ↦ top d | some p ↦ climb nb fuel p ]

-- The climb from the device of the first entry.
unfoldable pub climb_from : Newbus → ℕ → List Entry → Root
climb_from nb fuel [] = no_root
climb_from nb fuel (e ∷ es) = elim e.dev [ none ↦ no_root | some d ↦ climb nb fuel d ]

-- The root device: of class "root", or else the top of the tree of a known device.
unfoldable pub find_root : Newbus → ℕ → IdMap → Root
find_root nb fuel m = elim nb.root [ none ↦ climb_from nb fuel m.entries | some r ↦ top r ]

-- `ioreg_get_root`: the id, and 0 if there is no root; none if the fuel runs out.
unfoldable pub get_root : Newbus → ℕ → IdMap → Option (IdMap × ℕ)
get_root nb fuel m = elim (find_root nb fuel m) [
  | top r ↦ some (id_for m r)
  | no_root ↦ some (m, 0)
  | out_of_fuel ↦ none
]

-- The loop of `ioreg_children` that gives ids to a list of devices.
unfoldable pub ids_for : IdMap → List ℕ → IdMap × List ℕ
ids_for m [] = (m, [])
ids_for m (k ∷ ks) = let (n, i) = id_for m k in let (o, is) = ids_for n ks in (o, i ∷ is)

-- What a query hands back: the number of answers, and the ids that fit in the caller's array.
pub record Ids : Type 0 where
  pub count : ℕ
  pub ids : List ℕ

-- The answer for the children: `copyout` has no fault, the array is `max` ids long.
unfoldable pub number_children : IdMap → ℕ → Result (List ℕ) → IdMap × Result Ids
number_children m max (err e) = (m, err e)
number_children m max (ok kids) =
    let (n, is) = ids_for m kids in
    (n, ok (record { count = length kids % 2 ^ 32; ids = take max is }))

unfoldable pub children_of : Newbus → IdMap → ℕ → Option Entry → IdMap × Result Ids
children_of nb m max none = (m, err enoent)
children_of nb m max (some e) = elim e.dev [
  | none ↦ (m, err enoent)
  | some d ↦ number_children m max (nb.children d)
]

-- `ioreg_children`
unfoldable pub children : Newbus → IdMap → ℕ → ℕ → IdMap × Result Ids
children nb m id max = children_of nb m max (find_id m id)

-- `ioreg_node`, for the entry of the id; a lingering entry gives its id and no more.
unfoldable pub node_of : Newbus → IdMap → ℕ → Option Entry → IdMap × Result Node
node_of nb m id none = (m, err enoent)
node_of nb m id (some e) = elim e.dev [
  | none ↦ (m, ok (record zero_node { id = id; live = false }))
  | some d ↦ let (n, up) = parent_id m (nb.parent d) in (n, ok (fill_node nb d id up e.live))
]

-- `ioreg_node`
unfoldable pub node : Newbus → IdMap → ℕ → IdMap × Result Node
node nb m id = node_of nb m id (find_id m id)

-- The bytes that `ioreg_props` copies out, and the full length it reports.
pub record Packed : Type 0 where
  pub bytes : List ℕ
  pub len : ℕ

-- From the result of `nvlist_pack` on.
unfoldable pub copy_packed : ℕ → Result (List ℕ) → Result Packed
copy_packed len (err e) = err e
copy_packed len (ok packed) = ok (record { bytes = take len packed; len = length packed % 2 ^ 32 })

-- `pack` is the nvlist library's: the bytes of a property bag, or the error.
module _ (pack : List Property → Result (List ℕ)) where
  unfoldable pub props_of : Newbus → IdMap → ℕ → ℕ → Option Entry → IdMap × Result Packed
  props_of nb m id len none = (m, err enoent)
  props_of nb m id len (some e) = elim e.dev [
    | none ↦ (m, err enoent)
    | some d ↦
        let (n, up) = parent_id m (nb.parent d) in
        (n, copy_packed len (pack (build_bag nb d id up e.live)))
  ]

  -- `ioreg_props`
  unfoldable pub props : Newbus → IdMap → ℕ → ℕ → IdMap × Result Packed
  props nb m id len = props_of nb m id len (find_id m id)

-- The state of `ioreg_lookup_walk`: the map, the ids collected, and `*count`, a `uint32_t`.
pub record Search : Type 0 where
  pub map : IdMap
  pub ids : List ℕ
  pub count : ℕ

-- `ids[i] = v`, where the array is filled from the front.
unfoldable pub put : List ℕ → ℕ → ℕ → List ℕ
put [] i v = v ∷ []
put (x ∷ xs) zero v = v ∷ xs
put (x ∷ xs) (suc i) v = x ∷ put xs i v

-- The part of `ioreg_lookup_walk` that stores a match, `cap` ids at most.
unfoldable pub note_match : ℕ → Search → ℕ → Search
note_match cap s id = record {
  map = s.map;
  ids = if ltb s.count cap then put s.ids s.count id else s.ids;
  count = (s.count + 1) % 2 ^ 32;
}

-- The part of `ioreg_lookup_walk` that looks at one device.
unfoldable pub visit : Newbus → Criteria → ℕ → Search → ℕ → Search
visit nb crit cap s d =
    let (m, id) = id_for s.map d in
    let (n, up) = parent_id m (nb.parent d) in
    let seen = record s { map = n } in
    if dev_matches_crit nb d id up true crit then note_match cap seen id else seen

-- The children that `device_get_children` gives, none if it fails.
unfoldable pub kids : Result (List ℕ) → List ℕ
kids (ok ks) = ks
kids (err e) = []

-- IOREG_MAX_DEPTH
abbrev pub max_depth : ℕ
max_depth = 64

-- `ioreg_lookup_walk`; `levels` is how many levels lie above the depth at which the walk stops.
unfoldable pub lookup_walk : Newbus → Criteria → ℕ → ℕ → Search → ℕ → Search
lookup_walk nb crit cap zero s d = s
lookup_walk nb crit cap (suc levels) s d =
    foldl (lookup_walk nb crit cap levels) (visit nb crit cap s d) (kids (nb.children d))

-- The criteria of a caller, whose strings get a terminator.
unfoldable pub bound : List ℕ → List ℕ
bound buf = c_string (terminate (name_max - 1) buf)

unfoldable pub bound_criteria : Criteria → Criteria
bound_criteria c = record c {
  name = bound c.name;
  classname = bound c.classname;
  driver = bound c.driver;
}

-- The body of `ioreg_lookup` once the search for the root has ended.
unfoldable pub lookup_from : Newbus → IdMap → Criteria → ℕ → Root → Option (IdMap × Ids)
lookup_from nb m crit max (top r) =
    let s =
      lookup_walk nb (bound_criteria crit) max (max_depth + 1)
        (record { map = m; ids = []; count = 0 }) r in
    some (s.map, record { count = s.count; ids = take s.count s.ids })
lookup_from nb m crit max no_root = some (m, record { count = 0; ids = [] })
lookup_from nb m crit max out_of_fuel = none

-- `ioreg_lookup`: the ids that fit in the caller's array and the number of matches; none if the
-- fuel of the search for the root runs out. `copyout` has no fault.
unfoldable pub lookup : Newbus → ℕ → IdMap → Criteria → ℕ → Option (IdMap × Ids)
lookup nb fuel m crit max = lookup_from nb m crit max (find_root nb fuel m)

-- A line of `ioreg_sysctl_walk`: the depth of a device, and what is printed of it.
pub record Line : Type 0 where
  pub depth : ℕ
  pub node : Node

-- `ioreg_sysctl_walk`: the map and the lines so far. The parent's id is not printed.
unfoldable pub sysctl_walk : Newbus → ℕ → ℕ → IdMap × List Line → ℕ → IdMap × List Line
sysctl_walk nb zero depth s d = s
sysctl_walk nb (suc levels) depth s d =
    let (m, id) = id_for s.0 d in
    let line : Line = record { depth = depth; node = fill_node nb d id 0 true } in
    foldl (sysctl_walk nb levels (depth + 1)) (m, s.1 ++ line ∷ []) (kids (nb.children d))
