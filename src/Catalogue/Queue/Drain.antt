-- ===== src/Catalogue/Queue/Drain.antt =====
-- What the two matcher loops of iokit_catalogue.c do with the devices that they are given.
use nextbsd_kernel.Prelude.{
  ℕ, ◌≡◌, refl, sym, ◌∙◌, Bool, true, false, not, List, [], ◌∷◌, ◌++◌, arith, keep, if◌then◌else◌,
}
use mathlib.Core.List.{append_assoc, append-nil}
use nextbsd_kernel.Prelude.CString.{strlcpy}
use nextbsd_kernel.Prelude.Int.{ℤ}
use nextbsd_kernel.Prelude.Result.{Result, ok, err}
use nextbsd_kernel.Catalogue.Store.{Personality, bundle_id_max}
use nextbsd_kernel.Catalogue.Queue.{
  Work, Load, Channel, no_kextd, no_memory, ready, Catalogue, request_load, lookup_work,
  remember_pending, rematch_item, rematch_items, rematch_pending, match_item,
}

is_ok : Result (List ℕ × ℤ) → Bool
is_ok (ok _) = true
is_ok (err _) = false

-- Does a personality claim the device?
pub is_claimed : List Personality → Work → Bool
unfolding is_ok
is_claimed rs w = is_ok (lookup_work rs w bundle_id_max)

unfoldable pub load_from : Work → Result (List ℕ × ℤ) → List Load
load_from w (err e) = []
load_from w (ok (bundle, score)) =
    record { bundle = strlcpy bundle 128; device = strlcpy w.devname 64; word = w.match_word } ∷ []

-- The messages that the devices of a list are due, in order; none where kextd cannot be reached.
unfoldable pub loads : Channel → List Personality → List Work → List Load
unfolding load_from
loads no_kextd rs ws = []
loads no_memory rs ws = []
loads ready rs [] = []
loads ready rs (w ∷ ws) =
    let rest = loads ready rs ws in load_from w (lookup_work rs w bundle_id_max) ++ rest

-- What one item does to the lists, in either loop, with `back` for the way to keep it.
pub record Handled (c c' : Catalogue) (w : Work) (kept : List Work) : Type 0 where
  pub records : c'.records ≡ c.records
  pub channel : c'.channel ≡ c.channel
  pub work : c'.work ≡ c.work
  pub count : c'.count ≡ c.count
  pub sent : c'.sent ≡ c.sent ++ loads c.channel c.records (w ∷ [])
  pub pending : c'.pending ≡ (if is_claimed c.records w then c.pending else kept)

pub loads-cons :
    (ch : Channel) (rs : List Personality) (w : Work) (ws : List Work)
    → loads ch rs (w ∷ ws) ≡ loads ch rs (w ∷ []) ++ loads ch rs ws
unfolding loads
loads-cons no_kextd rs w ws = refl
loads-cons no_memory rs w ws = refl
loads-cons ready rs w ws = rw (append-nil (load_from w (lookup_work rs w bundle_id_max)))

rematch_item-Handled :
    (c : Catalogue) (w : Work) → Handled c (rematch_item c w) w (c.pending ++ w ∷ [])
unfolding rematch_item request_load loads is_claimed
rematch_item-Handled c w =
    ground
      (arith, append-nil c.sent, append-nil (load_from w (lookup_work c.records w bundle_id_max)))

pub match_item-Handled :
    (c : Catalogue) (w : Work) → Handled c (match_item c w) w (remember_pending c w).pending
unfolding match_item request_load loads is_claimed remember_pending
match_item-Handled c w =
    ground
      (arith, append-nil c.sent, append-nil (load_from w (lookup_work c.records w bundle_id_max)))

-- The items that no personality claims.
abbrev pub unclaimed : List Personality → List Work → List Work
unclaimed rs = keep (λ w. not (is_claimed rs w))

pub none_due :
    (ch : Channel) (rs : List Personality) (sent : List Load) → sent ≡ sent ++ loads ch rs []
unfolding loads
none_due no_kextd rs sent = sym (append-nil sent)
none_due no_memory rs sent = sym (append-nil sent)
none_due ready rs sent = sym (append-nil sent)

keep_or_drop :
    (pending : List Work) (claimed : Bool) (w : Work) (rest : List Work)
    → (if claimed then pending else pending ++ w ∷ []) ++ rest
      ≡ pending ++ (if not claimed then w ∷ rest else rest)
keep_or_drop pending true w rest = refl
keep_or_drop pending false w rest = append_assoc pending (w ∷ []) rest

rematch_items-splits :
    (c : Catalogue) (todo : List Work)
    → let c' = rematch_items c todo in
      (c'.records ≡ c.records)
      × (c'.pending ≡ c.pending ++ unclaimed c.records todo)
      × (c'.sent ≡ c.sent ++ loads c.channel c.records todo)
      × (c'.work ≡ c.work)
unfolding rematch_items
rematch_items-splits c [] =
    (refl, sym (append-nil c.pending), none_due c.channel c.records c.sent, refl)
rematch_items-splits c (w ∷ todo) =
    let h = rematch_item-Handled c w in
    let (r, p, s, k) = rematch_items-splits (rematch_item c w) todo in
    (
      r ∙ h.records,
      p ∙ rw (h.records, h.pending) (keep_or_drop c.pending (is_claimed c.records w) w _),
      s
          ∙ rw (h.channel, h.records, h.sent, loads-cons c.channel c.records w todo)
              (append_assoc c.sent (loads c.channel c.records (w ∷ [])) _),
      k ∙ h.work,
    )

-- `iocat_rematch_pending` sends one load message, in order, for each pending device that a
-- personality now claims (none where kextd cannot be reached), and leaves pending, in order, just
-- the devices that none claims. The records and the work list stay as they were.
pub rematch_pending-splits :
    (c : Catalogue)
    → let c' = rematch_pending c in
      (c'.records ≡ c.records)
      × (c'.pending ≡ unclaimed c.records c.pending)
      × (c'.sent ≡ c.sent ++ loads c.channel c.records c.pending)
      × (c'.work ≡ c.work)
unfolding rematch_pending
rematch_pending-splits c = rematch_items-splits (record c { pending = [] }) c.pending

rematch_items-count : (c : Catalogue) (todo : List Work) → (rematch_items c todo).count ≡ c.count
unfolding rematch_items
rematch_items-count c [] = refl
rematch_items-count c (w ∷ todo) =
    rematch_items-count (rematch_item c w) todo ∙ (rematch_item-Handled c w).count

pub rematch_pending-count : (c : Catalogue) → (rematch_pending c).count ≡ c.count
unfolding rematch_pending
rematch_pending-count c = rematch_items-count (record c { pending = [] }) c.pending

pub loads-append :
    (ch : Channel) (rs : List Personality) (ws vs : List Work)
    → loads ch rs (ws ++ vs) ≡ loads ch rs ws ++ loads ch rs vs
unfolding loads
loads-append no_kextd rs ws vs = refl
loads-append no_memory rs ws vs = refl
loads-append ready rs [] vs = refl
loads-append ready rs (w ∷ ws) vs =
    rw (loads-append ready rs ws vs)
      (sym (append_assoc (load_from w (lookup_work rs w bundle_id_max)) (loads ready rs ws) _))
