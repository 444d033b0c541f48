-- ===== src/Registry/Map.antt =====
-- The id map of iokit_registry.c: from device_t to a stable id that outlives the device.
pub mod Ids
pub mod Steps
pub mod Known
use nextbsd_kernel.Prelude.{
  ℕ, ◌+◌, ◌%◌, ◌^◌, Bool, true, false, Option, none, some, List, [], ◌∷◌, ◌==◌, if◌then◌else◌,
}

-- `struct ioreg_ent`: `dev` is none once the device is detached; `live` is the state
-- IOREG_STATE_LIVE.
pub record Entry : Type 0 where
  pub dev : Option ℕ
  pub id : ℕ
  pub live : Bool

-- `ioreg_map` and `ioreg_next_id`, a `uint64_t`
pub record IdMap : Type 0 where
  pub entries : List Entry
  pub next_id : ℕ

abbrev pub empty_map : IdMap
empty_map = record { entries = []; next_id = 1 }

-- `e->dev == dev`
unfoldable pub is_dev : ℕ → Entry → Bool
is_dev d e = elim e.dev [ none ↦ false | some c ↦ c == d ]

-- The loops of `ioreg_find_dev_locked` and `ioreg_find_id_locked`.
unfoldable pub first_dev : ℕ → List Entry → Option Entry
first_dev d [] = none
first_dev d (e ∷ es) = if is_dev d e then some e else first_dev d es

unfoldable pub first_id : ℕ → List Entry → Option Entry
first_id i [] = none
first_id i (e ∷ es) = if e.id == i then some e else first_id i es

-- `ioreg_find_dev_locked`
unfoldable pub find_dev : IdMap → ℕ → Option Entry
find_dev m d = first_dev d m.entries

-- `ioreg_find_id_locked`
unfoldable pub find_id : IdMap → ℕ → Option Entry
find_id m i = if i == 0 then none else first_id i m.entries

-- A change of the first entry of a device.
unfoldable pub change_dev : (Entry → Entry) → ℕ → List Entry → List Entry
change_dev f d [] = []
change_dev f d (e ∷ es) = if is_dev d e then f e ∷ es else e ∷ change_dev f d es

-- `e->state = IOREG_STATE_LIVE`
abbrev pub revive : Entry → Entry
revive e = record e { live = true }

-- `e->dev = NULL; e->state = IOREG_STATE_DETACHED;`
abbrev pub retire : Entry → Entry
retire e = record e { dev = none; live = false }

-- `ioreg_id_for_locked`, from the entry it finds on: the map after it, and the id.
unfoldable pub id_or_mint : IdMap → ℕ → Option Entry → IdMap × ℕ
id_or_mint m d (some e) = (record m { entries = change_dev revive d m.entries }, e.id)
id_or_mint m d none = (
  record {
    entries = record { dev = some d; id = m.next_id; live = true } ∷ m.entries;
    next_id = (m.next_id + 1) % 2 ^ 64;
  },
  m.next_id,
)

-- `ioreg_id_for_locked`
unfoldable pub id_for : IdMap → ℕ → IdMap × ℕ
id_for m d = id_or_mint m d (find_dev m d)

-- `(pe != NULL) ? pe->id : ioreg_id_for_locked(p)`
unfoldable pub id_or_find : IdMap → ℕ → Option Entry → IdMap × ℕ
id_or_find m p (some e) = (m, e.id)
id_or_find m p none = id_for m p

-- The id of the parent, 0 without one.
unfoldable pub parent_id : IdMap → Option ℕ → IdMap × ℕ
parent_id m none = (m, 0)
parent_id m (some p) = id_or_find m p (find_dev m p)

-- What `ioreg_on_detach` does to the map.
unfoldable pub retire_dev : IdMap → ℕ → IdMap
retire_dev m d = record m { entries = change_dev retire d m.entries }
