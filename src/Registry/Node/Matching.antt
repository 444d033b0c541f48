-- ===== src/Registry/Node/Matching.antt =====
-- The match criteria as a conjunction: every field that is set has the value of the node.
use nextbsd_kernel.Prelude.{
  ℕ, ◌≡◌, ◌↔◌, ◌⊎◌, refl, inl, inr, Bool, true, false, not, ◌&&◌, List, [], ◌∷◌, ◌==◌,
  if◌then◌else◌, arith,
}
use nextbsd_kernel.Prelude.CString.{str_eq, is_empty, str_eq_refl, eq_of_str_eq}
use nextbsd_kernel.Registry.Node.{Node, Criteria, node_matches_crit}

-- A field of the criteria is a wildcard, or it is the node's.
abbrev pub StringFits : List ℕ → List ℕ → Type 0
StringFits want have = (want ≡ []) ⊎ (have ≡ want)

abbrev pub NumberFits : ℕ → ℕ → Type 0
NumberFits want have = (want ≡ 0) ⊎ (have ≡ want)

abbrev pub Fits : Node → Criteria → Type 0
Fits n c =
    StringFits c.name n.name
    × StringFits c.classname n.classname
    × StringFits c.driver n.driver
    × NumberFits c.pci_vendor n.pci_vendor
    × NumberFits c.pci_device n.pci_device
    × NumberFits c.pci_subvendor n.pci_subvendor
    × NumberFits c.pci_class n.pci_class

string_test :
    (want have : List ℕ)
    → ((not (is_empty want) && not (str_eq have want)) ≡ false) ↔ StringFits want have
string_test [] have = (λ h. inl refl, λ h. refl)
string_test (b ∷ want) have = (
  λ h. inr (eq_of_str_eq have (b ∷ want) (ground (arith, h))),
  λ fits. elim fits [
    | inl none ↦ absurd (cc)
    | inr same ↦ rw same (ground (arith, str_eq_refl (b ∷ want)))
  ],
)

number_test :
    (want have : ℕ) → ((not (want == 0) && not (have == want)) ≡ false) ↔ NumberFits want have
number_test want have = ground arith

module _ (a b c d e f g : Bool) where
  all_pass :
      (if a
          then false
          else if b
          then false
          else if c
          then false
          else if d
          then false
          else if e
          then false
          else if f
          then false
          else if g
          then false
          else true)
        ≡ true
      → (a ≡ false)
        × (b ≡ false)
        × (c ≡ false)
        × (d ≡ false)
        × (e ≡ false)
        × (f ≡ false)
        × (g ≡ false)
  all_pass h = ground arith

-- `ioreg_node_matches_crit` accepts a node exactly if every field of the criteria that is not
-- empty or 0 equals the field of the node.
pub node_matches_crit_iff : (n : Node) (c : Criteria) → (node_matches_crit n c ≡ true) ↔ Fits n c
unfolding node_matches_crit
node_matches_crit_iff n c = (
  λ h.
      let (a, b, d, e, f, g, k) = all_pass _ _ _ _ _ _ _ h in
      (
        (string_test c.name n.name).0 a,
        (string_test c.classname n.classname).0 b,
        (string_test c.driver n.driver).0 d,
        (number_test c.pci_vendor n.pci_vendor).0 e,
        (number_test c.pci_device n.pci_device).0 f,
        (number_test c.pci_subvendor n.pci_subvendor).0 g,
        (number_test c.pci_class n.pci_class).0 k,
      ),
  λ (a, b, d, e, f, g, k).
      rw
        (
          (string_test c.name n.name).1 a,
          (string_test c.classname n.classname).1 b,
          (string_test c.driver n.driver).1 d,
          (number_test c.pci_vendor n.pci_vendor).1 e,
          (number_test c.pci_device n.pci_device).1 f,
          (number_test c.pci_subvendor n.pci_subvendor).1 g,
          (number_test c.pci_class n.pci_class).1 k,
        )
        refl,
)
