-- ===== src/Registry/Query/Preorder.antt =====
-- The walk of the device tree as one loop over its devices in preorder.
use nextbsd_kernel.Prelude.{ℕ, zero, suc, ◌≡◌, refl, sym, ap, ◌∙◌, List, [], ◌∷◌, ◌++◌, foldl}
use nextbsd_kernel.Registry.Node.{Newbus, Criteria}
use nextbsd_kernel.Registry.Query.{Search, kids, visit, lookup_walk}

-- A list for each item, joined.
abbrev pub concat_map : (ℕ → List ℕ) → List ℕ → List ℕ
concat_map f [] = []
concat_map f (x ∷ xs) = f x ++ concat_map f xs

-- The devices at and below a device, `levels` deep.
unfoldable pub devices : Newbus → ℕ → ℕ → List ℕ
devices nb zero d = []
devices nb (suc levels) d = d ∷ concat_map (devices nb levels) (kids (nb.children d))

module _ {S : Type 0} (f : S → ℕ → S) where
  foldl-append : (s : S) (xs ys : List ℕ) → foldl f s (xs ++ ys) ≡ foldl f (foldl f s xs) ys
  foldl-append s [] ys = refl
  foldl-append s (x ∷ xs) ys = foldl-append (f s x) xs ys

  foldl-concat_map :
      (g : ℕ → List ℕ) (h : S → ℕ → S)
      → ((s : S) (x : ℕ) → h s x ≡ foldl f s (g x))
      → (s : S) (xs : List ℕ) → foldl h s xs ≡ foldl f s (concat_map g xs)
  foldl-concat_map g h same s [] = refl
  foldl-concat_map g h same s (x ∷ xs) =
      foldl-concat_map g h same (h s x) xs
      ∙ ap (λ t. foldl f t (concat_map g xs)) (same s x)
      ∙ sym (foldl-append s (g x) (concat_map g xs))

-- `ioreg_lookup_walk` looks at the devices of the tree in preorder, down to the depth limit.
pub lookup_walk-devices :
    (nb : Newbus) (crit : Criteria) (cap levels : ℕ) (s : Search) (d : ℕ)
    → lookup_walk nb crit cap levels s d ≡ foldl (visit nb crit cap) s (devices nb levels d)
unfolding lookup_walk devices
lookup_walk-devices nb crit cap zero s d = refl
lookup_walk-devices nb crit cap (suc levels) s d =
    foldl-concat_map (visit nb crit cap) (devices nb levels) (lookup_walk nb crit cap levels)
      (lookup_walk-devices nb crit cap levels) (visit nb crit cap s d) (kids (nb.children d))
