-- ===== src/Ipc/Requests.antt =====
-- The dead-name requests of a port, ipc_port.c: a table whose slots hold a request each, or stand
-- in a free list that is linked through the slots. `sizes` is `ipc_table_dnrequests`: the number of
-- slots of each size class, and 0 behind the last class.
pub mod Free
pub mod Enlarge
pub mod Grow
use nextbsd_kernel.Prelude.{
  ℕ, zero, suc, ◌+◌, ◌-◌, Bool, true, false, not, ◌&&◌, Option, none, some, ◌==◌, if◌then◌else◌,
  ltb, leb,
}
use nextbsd_kernel.Ipc.Right.{assert◌then◌}

-- `struct ipc_port_request`. `notify` is the send-once right of a request, and the index of the
-- next free slot where `name` is 0.
pub record Request : Type 0 where
  pub name : ℕ
  pub notify : ℕ

-- A table: slot 0 is its header, with `next` the head of the free list and `size_class` the index
-- of `ipr_size`. A slot behind the end is memory that is not the table's.
pub record Table : Type 0 where
  pub address : ℕ
  pub size_class : ℕ
  pub next : ℕ
  pub slots : ℕ → Request

-- What `struct ipc_port` has of it.
pub record Requests : Type 0 where
  pub active : Bool
  pub table : Option Table

-- `table[i] = r`
unfoldable pub set_slot : (ℕ → Request) → ℕ → Request → ℕ → Request
set_slot slots i r j = if i == j then r else slots j

-- `ipc_port_dnrequest`, from the test of the table on; no index is KERN_NO_SPACE.
unfoldable pub take_free : Requests → ℕ → ℕ → Option Table → Option (Requests × Option ℕ)
take_free s name soright none = some (s, none)
take_free s name soright (some t) =
    if t.next == 0
    then some (s, none)
    else assert (t.slots t.next).name == 0
    then some (
      record s {
        table = some (record t {
          next = (t.slots t.next).notify;
          slots = set_slot t.slots t.next (record { name = name; notify = soright });
        });
      },
      some t.next,
    )

-- `ipc_port_dnrequest`
unfoldable pub dnrequest : Requests → ℕ → ℕ → Option (Requests × Option ℕ)
dnrequest s name soright =
    assert s.active && not (name == 0) && not (soright == 0) then take_free s name soright s.table

-- `ipc_port_dncancel`, from the test of the table on.
unfoldable pub give_back : Requests → ℕ → ℕ → Option Table → Option (Requests × ℕ)
give_back s name index none = none
give_back s name index (some t) =
    assert (t.slots index).name == name
    then some (
      record s {
        table = some (record t {
          next = index;
          slots = set_slot t.slots index (record { name = 0; notify = t.next });
        });
      },
      (t.slots index).notify,
    )

-- `ipc_port_dncancel`
unfoldable pub dncancel : Requests → ℕ → ℕ → Option (Requests × ℕ)
dncancel s name index =
    assert s.active && not (name == 0) && not (index == 0) then give_back s name index s.table

-- The outcomes of `ipc_port_dngrow`: KERN_SUCCESS, KERN_NO_SPACE and KERN_RESOURCE_SHORTAGE.
pub data Grown : Type 0 where
  grown no_space shortage : Grown

-- What `ipc_port_dngrow` does about a table: nothing as it is large enough, nothing as no class is,
-- or a new table of a class.
pub data Plan : Type 0 where
  large_enough too_large : Plan
  class : ℕ → Plan

-- `while (its->its_size && its->its_size < target_size) its++;`; none if the fuel runs out
unfoldable pub find_class : (ℕ → ℕ) → ℕ → ℕ → ℕ → Option ℕ
find_class sizes zero target its = none
find_class sizes (suc fuel) target its =
    let rest = find_class sizes fuel target (suc its) in
    if not (sizes its == 0) && ltb (sizes its) target then rest else some its

unfoldable pub first_class : Option Table → ℕ
first_class none = 0
first_class (some t) = t.size_class + 1

unfoldable pub holds_target : (ℕ → ℕ) → ℕ → Option Table → Bool
holds_target sizes target none = false
holds_target sizes target (some t) = leb target (sizes t.size_class)

unfoldable pub class_found : (ℕ → ℕ) → Option ℕ → Option Plan
class_found sizes none = none
class_found sizes (some its) = some (if sizes its == 0 then too_large else class its)

-- The part of `ipc_port_dngrow` up to the unlock; no target is ITS_SIZE_NONE.
unfoldable pub plan : (ℕ → ℕ) → ℕ → Option ℕ → Option Table → Option Plan
plan sizes fuel none old = some (class (first_class old))
plan sizes fuel (some target) old =
    if holds_target sizes target old
    then some large_enough
    else class_found sizes (find_class sizes fuel target (first_class old))

-- `it_dnrequests_alloc`: the address of the new table, and what its memory holds.
pub record Memory : Type 0 where
  pub address : ℕ
  pub slots : ℕ → Request

-- The loop that puts the slots from `i` on in front of the free list.
unfoldable pub free_new : ℕ → ℕ → ℕ → (ℕ → Request) → ℕ × (ℕ → Request)
free_new zero i free slots = (free, slots)
free_new (suc n) i free slots =
    free_new n (suc i) i (set_slot slots i (record { name = 0; notify = free }))

unfoldable pub old_size : (ℕ → ℕ) → Option Table → ℕ
old_size sizes none = 1
old_size sizes (some t) = sizes t.size_class

unfoldable pub old_next : Option Table → ℕ
old_next none = 0
old_next (some t) = t.next

-- The new table after the `memcpy`.
unfoldable pub copied_slots : (ℕ → ℕ) → Option Table → Memory → ℕ → Request
copied_slots sizes none new j = new.slots j
copied_slots sizes (some t) new j =
    if ltb 0 j && ltb j (sizes t.size_class) then t.slots j else new.slots j

-- The new table, and the assertion that it is larger.
unfoldable pub enlarge : (ℕ → ℕ) → Option Table → ℕ → Memory → Option Table
enlarge sizes old its new =
    let osize = old_size sizes old in
    let (free, slots) =
      free_new (sizes its - osize) osize (old_next old) (copied_slots sizes old new) in
    assert ltb osize (sizes its)
    then some (record { address = new.address; size_class = its; next = free; slots = slots })

-- `port->ip_dnrequests == otable`
unfoldable pub same_table : Option Table → Option Table → Bool
same_table none none = true
same_table none (some b) = false
same_table (some a) none = false
same_table (some a) (some b) = a.address == b.address

-- `(otable == IPR_NULL) || (otable->ipr_size+1 == its)`, of what the table is when it is read
unfoldable pub is_next_class : ℕ → Option Table → Bool
is_next_class its none = true
is_next_class its (some t) = t.size_class + 1 == its

unfoldable pub installed : Requests → Option Table → Option (Requests × Grown)
installed later none = none
installed later (some t) = some (record later { table = some t }, grown)

-- The part of `ipc_port_dngrow` from the second lock on; `later` is the port then.
unfoldable pub install : (ℕ → ℕ) → Option Table → ℕ → Requests → Memory → Option (Requests × Grown)
install sizes old its later new =
    if later.active && same_table old later.table && is_next_class its later.table
    then installed later (enlarge sizes later.table its new)
    else some (later, grown)

-- The allocation between the unlock and the second lock.
unfoldable pub allocate :
    (ℕ → ℕ) → Requests → Option Memory → Requests → Option Plan → Option (Requests × Grown)
allocate sizes s memory later none = none
allocate sizes s memory later (some large_enough) = some (s, grown)
allocate sizes s memory later (some too_large) = some (s, no_space)
allocate sizes s memory later (some (class its)) = elim memory [
  | none ↦ some (later, shortage)
  | some new ↦
      if sizes its == 0 then some (later, shortage) else install sizes s.table its later new
]

-- `ipc_port_dngrow`; `memory` is none where there is none for the new table, and `later` is what
-- others have made of the port while it was not locked. The reference that keeps the port meanwhile
-- is left out.
unfoldable pub dngrow :
    (ℕ → ℕ) → ℕ → Option ℕ → Requests → Option Memory → Requests → Option (Requests × Grown)
dngrow sizes fuel target s memory later =
    assert s.active then allocate sizes s memory later (plan sizes fuel target s.table)
