-- ===== src/Catalogue/Scan/Wanted.antt =====
-- Which children of a PCI bus the scan of the present devices takes up.
use nextbsd_kernel.Prelude.{
  ℕ, ◌≡◌, refl, ap, ◌∙◌, inl, inr, ◌↔◌, Bool, true, false, ◌&&◌, Option, none, some, List, arith,
  ◌==◌, Bool-cases,
}
use nextbsd_kernel.Prelude.CString.{str_eq, str_eq_refl, eq_of_str_eq}
use nextbsd_kernel.Catalogue.Scan.{
  Facts, Device, device, Children, nil, cons, facts, drmn, vtgpu, vgapci, virtio_pci, pcic_display,
  is_class, any_attached, drmn_bound, vtgpu_shadowed, skip_driven, skipped,
}

-- A child of the class that is attached.
pub data HasAttached (name : List ℕ) : Children → Type 0 where
  here :
      (f : Facts) (r : Bool) (kids ds : Children)
      → f.devclass ≡ some name
      → f.is_attached ≡ true
      → HasAttached name (cons (device f r kids) ds)
  there : (d : Device) (ds : Children) → HasAttached name ds → HasAttached name (cons d ds)

-- The children of a device can be read, and one of the class is attached.
pub data Hosts (name : List ℕ) : Device → Type 0 where
  hosts : (f : Facts) (kids : Children) → HasAttached name kids → Hosts name (device f true kids)

-- The devices that need a kext: no driver has them; or vgapci(4) has a display, and no DRM driver
-- is attached below it; or virtio_pci has a transport below which the base driver is attached.
pub data IsWanted (d : Device) : Type 0 where
  driverless : (facts d).has_driver ≡ false → IsWanted d
  display :
      (facts d).devclass ≡ some vgapci
      → (facts d).base_class ≡ pcic_display
      → ¬ Hosts drmn d
      → IsWanted d
  transport : (facts d).devclass ≡ some virtio_pci → Hosts vtgpu d → IsWanted d

is_class_iff : (name : List ℕ) (f : Facts) → (is_class name f ≡ true) ↔ (f.devclass ≡ some name)
unfolding is_class
is_class_iff name f = (to f.devclass, from f.devclass)
  where
    to :
        (o : Option (List ℕ))
        → (elim o [ none ↦ false | some n ↦ str_eq n name ]) ≡ true
        → o ≡ some name
    to none h = cc
    to (some n) h = rw (eq_of_str_eq n name h)

    from :
        (o : Option (List ℕ))
        → o ≡ some name
        → (elim o [ none ↦ false | some n ↦ str_eq n name ]) ≡ true
    from o e = rw e (str_eq_refl name)

any_attached_sound :
    (name : List ℕ) (ds : Children) → any_attached name ds ≡ true → HasAttached name ds
unfolding any_attached
any_attached_sound name nil h = cc
any_attached_sound name (cons (device f r kids) ds) h =
    elim (Bool-cases (is_class name f && f.is_attached)) [
      | inl hit ↦ here f r kids ds ((is_class_iff name f).0 (ground arith)) (ground arith)
      | inr miss ↦ there (device f r kids) ds (any_attached_sound name ds (ground arith))
    ]

any_attached_complete :
    (name : List ℕ) (ds : Children) → HasAttached name ds → any_attached name ds ≡ true
unfolding any_attached
any_attached_complete name _ (here f r kids ds c a) = rw ((is_class_iff name f).1 c, a)
any_attached_complete name _ (there (device f r kids) ds h) =
    ground (arith, any_attached_complete name ds h)

module _ (name : List ℕ) where
  hosting_iff :
      (f : Facts) (r : Bool) (kids : Children)
      → ((r && any_attached name kids) ≡ true) ↔ Hosts name (device f r kids)
  hosting_iff f true kids = (λ h. hosts f kids (any_attached_sound name kids h), back)
    where
      back : Hosts name (device f true kids) → any_attached name kids ≡ true
      back (hosts _ _ h) = any_attached_complete name kids h
  hosting_iff f false kids = (λ h. cc, λ h. elim h [ ])

drmn_bound_iff : (d : Device) → (drmn_bound d ≡ true) ↔ Hosts drmn d
unfolding drmn_bound
drmn_bound_iff (device f r kids) = hosting_iff drmn f r kids

vtgpu_shadowed_iff : (d : Device) → (vtgpu_shadowed d ≡ true) ↔ Hosts vtgpu d
unfolding vtgpu_shadowed
vtgpu_shadowed_iff (device f r kids) = hosting_iff vtgpu f r kids

skip_driven-sound :
    (d : Device) (o : Option (List ℕ))
    → (facts d).devclass ≡ o
    → skip_driven d o ≡ false
    → IsWanted d
unfolding skip_driven
skip_driven-sound d none e h = cc
skip_driven-sound d (some dn) e h =
    elim (Bool-cases (str_eq dn vgapci && (facts d).base_class == pcic_display)) [
      | inl gpu ↦
          let unbound : drmn_bound d ≡ false = ground arith in
          display (e ∙ ap some (eq_of_str_eq dn vgapci (ground arith))) (ground arith)
            (λ host. let bound = (drmn_bound_iff d).1 host in cc)
      | inr other ↦ elim (Bool-cases (str_eq dn virtio_pci)) [
        | inl v ↦
            transport (e ∙ ap some (eq_of_str_eq dn virtio_pci v))
              ((vtgpu_shadowed_iff d).0 (ground arith))
        | inr neither ↦ absurd (ground arith)
      ]
    ]

apart : str_eq virtio_pci vgapci ≡ false
unfolding str_eq
apart = refl

-- `iocat_rematch_present` takes up a child of a PCI bus exactly when no driver has it, or it is a
-- display that vgapci(4) has and no attached `drmn` child is below it, or it is a virtio_pci
-- device below which a `vtgpu` child is attached. A device whose children cannot be read has none.
pub skipped_iff : (d : Device) → (skipped d ≡ false) ↔ IsWanted d
unfolding skipped skip_driven
skipped_iff d = (to, from)
  where
    to : skipped d ≡ false → IsWanted d
    to h = elim (Bool-cases (facts d).has_driver) [
      | inl driven ↦ skip_driven-sound d (facts d).devclass refl (ground arith)
      | inr free ↦ driverless free
    ]

    from : IsWanted d → skipped d ≡ false
    from (driverless free) = rw free
    from (display c b un) = elim (Bool-cases (drmn_bound d)) [
      | inl bound ↦ absurd (un ((drmn_bound_iff d).0 bound))
      | inr unbound ↦ ground (arith, str_eq_refl vgapci)
    ]
    from (transport c host) =
        ground (arith, apart, str_eq_refl virtio_pci, (vtgpu_shadowed_iff d).1 host)
