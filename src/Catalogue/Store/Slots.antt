-- ===== src/Catalogue/Store/Slots.antt =====
-- The loop of `iocat_add_compat` that ends every slot of the string table.
use nextbsd_kernel.Prelude.{
  ℕ, zero, suc, ◌+◌, ◌-◌, ◌*◌, ◌≤◌, ◌<◌, ◌≡◌, refl, ap, ◌∙◌, List, [], ◌∷◌, arith, take, drop,
  length, length-take-le,
}
use native.Mathlib.Decide.{dec_lt}
use nextbsd_kernel.Prelude.CString.{c_string, terminate, take-all, c_string-terminate}
use nextbsd_kernel.Catalogue.Store.{slot, terminate_slots, compat_max}

drop-terminate_at : (m k : ℕ) (t : List ℕ) → drop m (terminate (m + k) t) ≡ terminate k (drop m t)
unfolding terminate
drop-terminate_at zero k t = let e : zero + k ≡ k = omega arith in rw e
drop-terminate_at (suc m) k [] = refl
drop-terminate_at (suc m) k (b ∷ t) =
    let e : suc m + k ≡ suc (m + k) = omega arith in rw e (drop-terminate_at m k t)

drop-terminate_before : (m k : ℕ) (t : List ℕ) → k < m → drop m (terminate k t) ≡ drop m t
unfolding terminate
drop-terminate_before zero k t h = absurd (omega arith)
drop-terminate_before (suc m) k [] h = refl
drop-terminate_before (suc m) zero (b ∷ t) h = refl
drop-terminate_before (suc m) (suc k) (b ∷ t) h = drop-terminate_before m k t (omega arith)

module _ (i : ℕ) where
  slot-terminate_at :
      (k : ℕ) (t : List ℕ) → slot i (terminate (i * compat_max + k) t) ≡ take k (slot i t)
  unfolding slot
  slot-terminate_at k t =
      ap c_string (drop-terminate_at (i * compat_max) k t) ∙ c_string-terminate k (drop (i * 128) t)

  slot-terminate_before :
      (k : ℕ) (t : List ℕ) → k < i * compat_max → slot i (terminate k t) ≡ slot i t
  unfolding slot
  slot-terminate_before k t h = ap c_string (drop-terminate_before (i * compat_max) k t h)

  -- The slots behind a terminated one leave its string alone.
  terminate_slots-later :
      (n j : ℕ) (t : List ℕ)
      → i < j
      → length (slot i t) ≤ 127
      → slot i (terminate_slots n j t) ≡ slot i t
  unfolding terminate_slots
  terminate_slots-later zero j t h short = refl
  terminate_slots-later (suc n) j t h short =
      let k : ℕ = (j - i) * compat_max + 127 in
      let at : j * compat_max + 127 ≡ i * compat_max + k = omega arith in
      let same : slot i (terminate (j * compat_max + 127) t) ≡ slot i t =
        ap (λ p. slot i (terminate p t)) at
        ∙ slot-terminate_at k t
        ∙ take-all k (slot i t) (omega arith) in
      terminate_slots-later n (suc j) _ (omega arith) (rw same short) ∙ same

  terminate_slots-reached :
      (n j : ℕ) (t : List ℕ)
      → j ≤ i
      → i < j + n
      → slot i (terminate_slots n j t) ≡ take 127 (slot i t)
  unfolding terminate_slots
  terminate_slots-reached zero j t h k = absurd (omega arith)
  terminate_slots-reached (suc n) j t h k = elim (dec_lt j i) [
    | yes below ↦
        terminate_slots-reached n (suc j) _ below (omega arith)
        ∙ ap (take 127) (slot-terminate_before _ t (omega arith))
    | no here ↦
        let e : j ≡ i = omega arith in
        let cut : slot i (terminate (j * compat_max + 127) t) ≡ take 127 (slot i t) =
          rw e (slot-terminate_at 127 t) in
        terminate_slots-later n (suc j) _ (omega arith) (rw cut (length-take-le 127 (slot i t)))
        ∙ cut
  ]

-- After `iocat_add_compat` has ended every slot, each of the `n` slots holds the string that
-- userland put there, cut to 127 bytes: no string runs into the next slot.
pub terminate_slots-cut :
    (n i : ℕ) (table : List ℕ)
    → i < n
    → (slot i (terminate_slots n 0 table) ≡ take 127 (slot i table))
      × (length (slot i (terminate_slots n 0 table)) ≤ 127)
terminate_slots-cut n i table h =
    let cut = terminate_slots-reached i n 0 table (omega arith) (omega arith) in
    (cut, rw cut (length-take-le 127 (slot i table)))
