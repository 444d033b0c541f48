-- ===== src/Catalogue/Queue.antt =====
-- The queues of iokit_catalogue.c: devices that went unmatched, the requests to kextd
-- (compat/mach/iokit_kextd.c), and the operations that re-run the matcher over them.
pub mod Drain
pub mod Task
pub mod Add
use nextbsd_kernel.Prelude.{
  ℕ, zero, suc, ◌+◌, ◌-◌, ◌*◌, ◌%◌, ◌^◌, Bool, true, false, ◌||◌, Option, none, some, List, [], ◌∷◌,
  ◌++◌, ◌==◌, if◌then◌else◌, ltb, any,
}
use nextbsd_kernel.Prelude.CString.{c_string, terminate, strlcpy, str_eq, is_empty}
use nextbsd_kernel.Prelude.Int.{ℤ}
use nextbsd_kernel.Prelude.Result.{Result, ok, err, Errno, einval, enomem, enxio}
use nextbsd_kernel.Catalogue.Store.{
  Personality, bundle_id_max, max_match, compat_max, provider_ioplatformdevice, lookup_pci,
  lookup_compat, terminate_slots,
}

-- `struct iocat_match_work`: an empty `compat` means a PCI device.
pub record Work : Type 0 where
  pub match_word : ℕ
  pub devname : List ℕ
  pub compat : List ℕ

-- A load message to kextd.
pub record Load : Type 0 where
  pub bundle : List ℕ
  pub device : List ℕ
  pub word : ℕ

-- What `iokit_kextd_send` finds: no valid port, no memory for the message, or neither.
pub data Channel : Type 0 where
  no_kextd no_memory ready : Channel

-- The static data of iokit_catalogue.c. `sent` is the history of the messages to kextd; the two
-- flags say that a task stands in the task queue.
pub record Catalogue : Type 0 where
  pub records : List Personality
  pub count : ℕ
  pub work : List Work
  pub pending : List Work
  pub match_task : Bool
  pub present_task : Bool
  pub channel : Channel
  pub sent : List Load

-- `iokit_kextd_send`: the messages sent, and the error. The strings are cut to the message's
-- buffers of 128 and 64 bytes.
unfoldable pub kextd_send : Catalogue → List ℕ → List ℕ → ℕ → Catalogue × Result (Unit {0})
kextd_send c bundle device word = elim c.channel [
  | no_kextd ↦ (c, err enxio)
  | no_memory ↦ (c, err enomem)
  | ready ↦ (
    record c {
      sent =
          c.sent
          ++ record { bundle = strlcpy bundle 128; device = strlcpy device 64; word = word } ∷ [];
    },
    ok tt,
  )
]

-- `iocat_request_load`: the error of the send is dropped.
unfoldable pub request_load : Catalogue → ℕ → List ℕ → List ℕ → Catalogue
unfolding kextd_send
request_load c word devname bundle = (kextd_send c bundle devname word).0

unfoldable pub lookup_work : List Personality → Work → ℕ → Result (List ℕ × ℤ)
lookup_work rs w buflen =
    if is_empty w.compat
    then lookup_pci rs w.match_word buflen
    else lookup_compat rs w.compat buflen

-- `iocat_remember_pending`: nothing is queued for a name that is queued.
unfoldable pub remember_pending : Catalogue → Work → Catalogue
remember_pending c w =
    if any (λ p. str_eq p.devname w.devname) c.pending
    then c
    else record c { pending = c.pending ++ w ∷ [] }

-- One item of the loop of `iocat_rematch_pending`.
unfoldable pub rematch_item : Catalogue → Work → Catalogue
rematch_item c w = elim (lookup_work c.records w bundle_id_max) [
  | ok (bundle, score) ↦ request_load c w.match_word w.devname bundle
  | err e ↦ record c { pending = c.pending ++ w ∷ [] }
]

unfoldable pub rematch_items : Catalogue → List Work → Catalogue
rematch_items c [] = c
rematch_items c (w ∷ todo) = rematch_items (rematch_item c w) todo

-- `iocat_rematch_pending`: the list is taken out, then each item is sent or put back.
unfoldable pub rematch_pending : Catalogue → Catalogue
rematch_pending c = rematch_items (record c { pending = [] }) c.pending

-- One round of the loop of `iocat_match_taskfn`, after the item has left the work list.
unfoldable pub match_item : Catalogue → Work → Catalogue
match_item c w = elim (lookup_work c.records w bundle_id_max) [
  | ok (bundle, score) ↦ request_load c w.match_word w.devname bundle
  | err e ↦ remember_pending c w
]

unfoldable pub match_items : Catalogue → List Work → Catalogue
match_items c [] = c
match_items c (w ∷ rest) = match_items (match_item (record c { work = rest }) w) rest

-- `iocat_match_taskfn`: the loop ends when the work list is empty. No round adds to the list.
unfoldable pub match_taskfn : Catalogue → Catalogue
match_taskfn c = match_items (record c { match_task = false }) c.work

-- `TAILQ_INSERT_TAIL(&iocat_list, r, link); iocat_count++;`, on an `unsigned int`
unfoldable pub insert_record : Catalogue → Personality → Catalogue
insert_record c r = record c { records = c.records ++ r ∷ []; count = (c.count + 1) % 2 ^ 32 }

-- What both forms of add do once the record stands in the list.
unfoldable pub publish : Catalogue → Personality → Catalogue
publish c r = record (rematch_pending (insert_record c r)) { present_task = true }

-- `struct iocat_add` and `struct iocat_add_compat`, as userland passes them.
pub record AddRequest : Type 0 where
  pub bundle_id : List ℕ
  pub provider_class : ℕ
  pub probe_score : ℤ
  pub nmatch : ℕ
  pub matches : ℕ

pub record AddCompatRequest : Type 0 where
  pub bundle_id : List ℕ
  pub probe_score : ℤ
  pub ncompat : ℕ
  pub compat : ℕ

-- The bundle id of a request, with its terminator forced.
unfoldable pub bundle_of : List ℕ → List ℕ
bundle_of buf = c_string (terminate (bundle_id_max - 1) buf)

-- The record that `iocat_add` builds from a request and the match words.
unfoldable pub personality : AddRequest → List ℕ → Personality
personality ua words = record {
  bundle_id = strlcpy (bundle_of ua.bundle_id) bundle_id_max;
  provider_class = ua.provider_class;
  probe_score = ua.probe_score;
  nmatch = ua.nmatch;
  matches = words;
  ncompat = 0;
  compat = [];
}

-- The record that `iocat_add_compat` builds from a request and the bytes of the strings.
unfoldable pub compat_personality : AddCompatRequest → List ℕ → Personality
compat_personality ua bytes = record {
  bundle_id = strlcpy (bundle_of ua.bundle_id) bundle_id_max;
  provider_class = provider_ioplatformdevice;
  probe_score = ua.probe_score;
  nmatch = 0;
  matches = [];
  ncompat = ua.ncompat;
  compat = terminate_slots ua.ncompat 0 bytes;
}

-- The rest of both forms of add, from the result of `copyin` on.
unfoldable pub store_copied :
    Catalogue → (List ℕ → Personality) → Result (List ℕ) → Catalogue × Result (Unit {0})
store_copied c build (err e) = (c, err e)
store_copied c build (ok items) = (publish c (build items), ok tt)

-- `copyin` is the kernel's: an address and a number of items give the items, or an error.
module _ (copyin : ℕ → ℕ → Result (List ℕ)) where
  -- `iocat_add`
  unfoldable pub add : Catalogue → AddRequest → Catalogue × Result (Unit {0})
  add c ua =
      if ua.nmatch == 0 || ltb max_match ua.nmatch
      then (c, err einval)
      else if is_empty (bundle_of ua.bundle_id)
      then (c, err einval)
      else store_copied c (personality ua) (copyin ua.matches ua.nmatch)

  -- `iocat_add_compat`
  unfoldable pub add_compat : Catalogue → AddCompatRequest → Catalogue × Result (Unit {0})
  add_compat c ua =
      if ua.ncompat == 0 || ltb max_match ua.ncompat
      then (c, err einval)
      else if is_empty (bundle_of ua.bundle_id)
      then (c, err einval)
      else store_copied c (compat_personality ua) (copyin ua.compat (ua.ncompat * compat_max))

-- `iocat_flush`
unfoldable pub flush : Catalogue → Catalogue
flush c = record c { records = []; count = 0 }
