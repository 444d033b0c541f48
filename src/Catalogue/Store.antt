-- ===== src/Catalogue/Store.antt =====
-- The personality store of iokit_catalogue.c and sys/iocatalogue.h: records, the two lookups,
-- and the removal of all records.
pub mod Best
pub mod Slots
use nextbsd_kernel.Prelude.{
  ℕ, zero, suc, ◌+◌, ◌*◌, ◌%◌, ◌^◌, Bool, true, false, ◌&&◌, ◌||◌, Option, none, some, List, [],
  ◌∷◌, ◌++◌, ◌==◌, if◌then◌else◌, take, drop, any,
}
use nextbsd_kernel.Prelude.CString.{c_string, terminate, strlcpy, str_eq, is_empty}
use nextbsd_kernel.Prelude.Int.{ℤ, ltb_ℤ}
use nextbsd_kernel.Prelude.Result.{Result, ok, err, enoent}

abbrev pub bundle_id_max : ℕ
bundle_id_max = 128

abbrev pub max_match : ℕ
max_match = 512

abbrev pub compat_max : ℕ
compat_max = 128

abbrev pub provider_iopcidevice : ℕ
provider_iopcidevice = 1

abbrev pub provider_ioplatformdevice : ℕ
provider_ioplatformdevice = 2

-- `struct iocat_record`: `compat` is `ncompat` strings in slots of `compat_max` bytes.
pub record Personality : Type 0 where
  pub bundle_id : List ℕ
  pub provider_class : ℕ
  pub probe_score : ℤ
  pub nmatch : ℕ
  pub matches : List ℕ
  pub ncompat : ℕ
  pub compat : List ℕ

-- Slot `i` of a table of strings.
unfoldable pub slot : ℕ → List ℕ → List ℕ
slot i table = c_string (drop (i * compat_max) table)

-- Is `want` in one of the `n` slots from `i` on?
unfoldable pub any_slot : ℕ → ℕ → List ℕ → List ℕ → Bool
any_slot zero i table want = false
any_slot (suc n) i table want = str_eq (slot i table) want || any_slot n (suc i) table want

-- The guard and the inner loop of `iocat_lookup_pci`.
unfoldable pub claims_word : ℕ → Personality → Bool
claims_word word r =
    (r.provider_class == provider_iopcidevice) && any (λ m. m == word) (take r.nmatch r.matches)

-- The guard and the inner loop of `iocat_lookup_compat`.
unfoldable pub claims_compat : List ℕ → Personality → Bool
unfolding any_slot
claims_compat want r =
    (r.provider_class == provider_ioplatformdevice) && any_slot r.ncompat 0 r.compat want

-- `if (best == NULL || r->probe_score > best->probe_score) best = r;`
unfoldable pub better : Option Personality → Personality → Option Personality
better none r = some r
better (some b) r = if ltb_ℤ b.probe_score r.probe_score then some r else some b

-- The outer loop of both lookups.
unfoldable pub best_from :
    (Personality → Bool) → Option Personality → List Personality → Option Personality
best_from claims best [] = best
best_from claims best (r ∷ rs) = best_from claims (if claims r then better best r else best) rs

-- What a lookup hands back: the bundle, cut to the caller's buffer, and the score.
unfoldable pub winner : ℕ → Option Personality → Result (List ℕ × ℤ)
winner buflen none = err enoent
winner buflen (some b) = ok (strlcpy b.bundle_id buflen, b.probe_score)

unfoldable pub lookup_pci : List Personality → ℕ → ℕ → Result (List ℕ × ℤ)
lookup_pci rs word buflen = winner buflen (best_from (claims_word word) none rs)

unfoldable pub lookup_compat : List Personality → List ℕ → ℕ → Result (List ℕ × ℤ)
lookup_compat rs want buflen =
    if is_empty want then err enoent else winner buflen (best_from (claims_compat want) none rs)

-- The loop of `iocat_add_compat` that ends every slot with a NUL.
pub terminate_slots : ℕ → ℕ → List ℕ → List ℕ
terminate_slots zero i table = table
terminate_slots (suc n) i table = terminate_slots n (suc i) (terminate (i * compat_max + 127) table)
