-- ===== src/Ipc/Hash.antt =====
-- The reverse hash table of a space, ipc_hash.c: from an object to the entry that holds a send
-- right to it. Each bucket is a list that is linked through the entries' `ie_link`.
pub mod Chain
pub mod Lookup
pub mod Insert
pub mod Delete
pub mod Removal
use nextbsd_kernel.Prelude.{
  ℕ, zero, suc, ◌+◌, ◌/◌, ◌%◌, ◌^◌, Bool, true, false, ◌&&◌, Option, none, some, ◌==◌,
  if◌then◌else◌, ltb,
}

-- Entries and objects are known by their addresses. `size` is 0 where no table is allocated, and
-- `index` is none for UINT_MAX.
pub record Hash : Type 0 where
  pub size : ℕ
  pub head : ℕ → Option ℕ
  pub link : ℕ → Option ℕ
  pub index : ℕ → Option ℕ

-- `a[k] = v`
unfoldable pub update : (ℕ → Option ℕ) → ℕ → Option ℕ → ℕ → Option ℕ
update f k v j = if j == k then v else f j

-- `IH_LOCAL_HASH`
unfoldable pub local_hash : ℕ → ℕ → ℕ
local_hash obj size = (obj / 2 ^ 6) % size

-- How a walk along a bucket ends.
pub data Walk : Type 0 where
  found : ℕ → Walk
  absent : Walk
  out_of_fuel : Walk

-- `entry->ie_object == obj`
unfoldable pub holds : (ℕ → Option ℕ) → ℕ → ℕ → Bool
holds object obj e = elim (object e) [ none ↦ false | some o ↦ o == obj ]

-- The loop of `ipc_hash_local_lookup`; `object` is the field `ie_object` of the entries.
unfoldable pub walk : (ℕ → Option ℕ) → (ℕ → Option ℕ) → ℕ → ℕ → Option ℕ → Walk
walk object link obj zero p = out_of_fuel
walk object link obj (suc fuel) none = absent
walk object link obj (suc fuel) (some e) =
    let rest = walk object link obj fuel (link e) in if holds object obj e then found e else rest

-- `ipc_hash_local_lookup`
unfoldable pub lookup : (ℕ → Option ℕ) → Hash → ℕ → ℕ → Walk
lookup object h fuel obj =
    if h.size == 0 then absent else walk object h.link obj fuel (h.head (local_hash obj h.size))

-- `if ((entryp = table[hindex]) != NULL) entry->ie_link = entryp;`
unfoldable pub link_front : (ℕ → Option ℕ) → ℕ → Option ℕ → ℕ → Option ℕ
link_front link entry none = link
link_front link entry (some p) = update link entry (some p)

-- `ipc_hash_local_insert`
unfoldable pub insert : Hash → ℕ → ℕ → Hash
insert h obj entry =
    let b = local_hash obj h.size in
    if h.size == 0 then h else record h {
      head = update h.head b (some entry);
      link = link_front h.link entry (h.head b);
      index = update h.index entry (some b);
    }

-- The loop that finds the entry in front of `entry`, from `p` on.
unfoldable pub find_previous : (ℕ → Option ℕ) → ℕ → ℕ → ℕ → Walk
find_previous link entry zero p = out_of_fuel
find_previous link entry (suc fuel) p = elim (link p) [
  | none ↦ absent
  | some q ↦ let rest = find_previous link entry fuel q in if q == entry then found p else rest
]

-- `entryp->ie_link = entry->ie_link; entry->ie_link = NULL; entry->ie_index = UINT_MAX;`
unfoldable pub unlink_after : Hash → ℕ → ℕ → Hash
unlink_after h entry p = record h {
  link = update (update h.link p (h.link entry)) entry none;
  index = update h.index entry none;
}

-- Deletion from bucket `b`; none is a NULL dereference, or that the fuel ran out.
unfoldable pub delete_from : Hash → ℕ → ℕ → ℕ → Option ℕ → Option Hash
delete_from h fuel b entry none = none
delete_from h fuel b entry (some p) =
    if p == entry
    then some (record h {
      head = update h.head b (h.link entry);
      link = update h.link entry none;
      index = update h.index entry none;
    })
    else elim (find_previous h.link entry fuel p) [
      | found q ↦ some (unlink_after h entry q)
      | absent ↦ some h
      | out_of_fuel ↦ none
    ]

-- `ipc_hash_local_delete`
unfoldable pub delete : Hash → ℕ → ℕ → ℕ → Option Hash
delete h fuel obj entry =
    let b = local_hash obj h.size in
    if h.size == 0 then some h else delete_from h fuel b entry (h.head b)

-- `MPASS(entry->ie_index == UINT_MAX)`
unfoldable pub assert_deleted : ℕ → Option Hash → Option Hash
assert_deleted entry none = none
assert_deleted entry (some h) = elim (h.index entry) [ none ↦ some h | some b ↦ none ]

-- `ipc_entry_hash_delete` of ipc_entry.c, which goes by the index in the entry; `is_send` says
-- that of the bits MACH_PORT_TYPE_DEAD_NAME and MACH_PORT_TYPE_SEND the entry has the latter alone.
unfoldable pub entry_hash_delete : Hash → ℕ → Bool → ℕ → Option Hash
entry_hash_delete h fuel is_send entry = elim (h.index entry) [
  | none ↦ some h
  | some b ↦
      if is_send && ltb b h.size
      then assert_deleted entry (delete_from h fuel b entry (h.head b))
      else some h
]
