-- ===== src/Catalogue/Queue/Task.antt =====
-- The match task of iokit_catalogue.c, which empties the work list, and the list of pending
-- devices that it keeps free of duplicates.
use nextbsd_kernel.Prelude.{
  ℕ, ◌≡◌, refl, ◌∙◌, inl, inr, Bool, true, false, ◌||◌, List, [], ◌∷◌, ◌++◌, arith, All, All-mono,
  any, if◌then◌else◌, Bool-cases,
}
use mathlib.Core.List.{append_assoc}
use nextbsd_kernel.Prelude.CString.{str_eq, str_eq_refl, eq_of_str_eq}
use nextbsd_kernel.Catalogue.Queue.{
  Work, Catalogue, remember_pending, match_item, match_items, match_taskfn,
}
use nextbsd_kernel.Catalogue.Queue.Drain.{
  is_claimed, loads, none_due, loads-cons, match_item-Handled,
}

unfoldable pub has_name : Work → List Work → Bool
has_name w = any (λ p. str_eq p.devname w.devname)

-- No two queued devices have one name.
abbrev pub NamesDistinct : List Work → Type 0
NamesDistinct [] = Unit {0}
NamesDistinct (w ∷ ws) = (has_name w ws ≡ false) × NamesDistinct ws

has_name-append :
    (v : Work) (ws : List Work) (w : Work)
    → has_name v (ws ++ w ∷ []) ≡ (has_name v ws || str_eq w.devname v.devname)
unfolding has_name
has_name-append v [] w = ground arith
has_name-append v (x ∷ ws) w = ground (arith, has_name-append v ws w)

str_eq-false : (a b : List ℕ) → str_eq a b ≡ false → str_eq b a ≡ false
str_eq-false a b miss = elim (Bool-cases (str_eq b a)) [
  | inl hit ↦
      let e = eq_of_str_eq b a hit in let same : str_eq a b ≡ true = rw e (str_eq_refl a) in cc
  | inr other ↦ other
]

NamesDistinct-append :
    (ws : List Work) (w : Work)
    → has_name w ws ≡ false
    → NamesDistinct ws
    → NamesDistinct (ws ++ w ∷ [])
unfolding has_name
NamesDistinct-append [] w new d = (refl, tt)
NamesDistinct-append (x ∷ ws) w new d =
    ground
      (arith, NamesDistinct-append ws w, has_name-append x ws w, str_eq-false x.devname w.devname)

pub remember_pending-NamesDistinct :
    (c : Catalogue) (w : Work)
    → NamesDistinct c.pending
    → NamesDistinct (remember_pending c w).pending
unfolding remember_pending has_name
remember_pending-NamesDistinct c w d = elim (Bool-cases (has_name w c.pending)) [
  | inl old ↦ rw old d
  | inr new ↦ rw new (NamesDistinct-append c.pending w new d)
]

-- A remembered device is pending, and so is each device that was.
remember_pending-has_name :
    (c : Catalogue) (w v : Work)
    → (has_name w (remember_pending c w).pending ≡ true)
      × (has_name v c.pending ≡ true → has_name v (remember_pending c w).pending ≡ true)
unfolding remember_pending has_name
remember_pending-has_name c w v =
    ground
      (arith, has_name-append w c.pending w, has_name-append v c.pending w, str_eq_refl w.devname)

module _ (c : Catalogue) (w : Work) where
  match_item-NamesDistinct : NamesDistinct c.pending → NamesDistinct (match_item c w).pending
  match_item-NamesDistinct d =
      rw (match_item-Handled c w).pending
        (choose (is_claimed c.records w) d (remember_pending-NamesDistinct c w d))
    where
      choose :
          (b : Bool)
          → NamesDistinct c.pending
          → NamesDistinct (remember_pending c w).pending
          → NamesDistinct (if b then c.pending else (remember_pending c w).pending)
      choose true d e = d
      choose false d e = e

  match_item-has_name :
      (v : Work)
      → (has_name v c.pending ≡ true → has_name v (match_item c w).pending ≡ true)
        × (is_claimed c.records w ≡ false → has_name w (match_item c w).pending ≡ true)
  match_item-has_name v =
      rw (match_item-Handled c w).pending (ground (arith, remember_pending-has_name c w v))

-- What the loop has done once it ends.
pub record Drained (c c' : Catalogue) (items : List Work) : Type 0 where
  pub records : c'.records ≡ c.records
  pub emptied : c.work ≡ items → c'.work ≡ []
  pub sent : c'.sent ≡ c.sent ++ loads c.channel c.records items
  pub distinct : NamesDistinct c.pending → NamesDistinct c'.pending
  pub kept : (v : Work) → has_name v c.pending ≡ true → has_name v c'.pending ≡ true
  pub queued : All (λ w. is_claimed c.records w ≡ false → has_name w c'.pending ≡ true) items

match_items-Drained : (c : Catalogue) (items : List Work) → Drained c (match_items c items) items
unfolding match_items
match_items-Drained c [] = record {
  records = refl;
  emptied = λ e. e;
  sent = none_due c.channel c.records c.sent;
  distinct = λ d. d;
  kept = λ v h. h;
  queued = tt;
}
match_items-Drained c (w ∷ rest) =
    let popped = record c { work = rest } in
    let h = match_item-Handled popped w in
    let d = match_items-Drained (match_item popped w) rest in
    record {
      records = d.records ∙ h.records;
      emptied = λ _. d.emptied h.work;
      sent =
          d.sent
          ∙ rw (h.channel, h.records, h.sent, loads-cons c.channel c.records w rest)
              (append_assoc c.sent (loads c.channel c.records (w ∷ [])) _);
      distinct = λ n. d.distinct (match_item-NamesDistinct popped w n);
      kept = λ v n. d.kept v ((match_item-has_name popped w v).0 n);
      queued = (
        (λ u. d.kept w ((match_item-has_name popped w w).1 u)),
        All-mono _ _ rest (λ v f u. f (rw h.records u)) d.queued,
      );
    }

-- `iocat_match_taskfn` empties the work list. It sends one load message, in order, for each device
-- of the list that a personality claims (none where kextd cannot be reached). Each device that
-- none claims is then pending under its name, each name that was pending stays so, and the pending
-- names stay distinct.
pub match_taskfn-Drained : (c : Catalogue) → Drained c (match_taskfn c) c.work
unfolding match_taskfn
match_taskfn-Drained c =
    let d = match_items-Drained (record c { match_task = false }) c.work in
    record {
      records = d.records;
      emptied = d.emptied;
      sent = d.sent;
      distinct = d.distinct;
      kept = d.kept;
      queued = d.queued;
    }
