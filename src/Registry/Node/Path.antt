-- ===== src/Registry/Node/Path.antt =====
-- The path of a device, against its description: the names joined, cut to the buffer.
use nextbsd_kernel.Prelude.{
  ℕ, zero, suc, ◌-◌, ◌+◌, ◌<◌, ◌≤◌, ◌≡◌, refl, sym, ap, ◌∙◌, inl, inr, some, List, [], ◌∷◌, ◌++◌,
  if◌then◌else◌, leb, length, take, length-append, Bool-cases, arith, reverse,
}
use nextbsd_kernel.Prelude.CString.{is_empty, strlcpy, take-all}
use nextbsd_kernel.Registry.Node.{
  Newbus, chain_max, ancestry, unit_name, or_slash, print_path, build_path,
}

-- The names of the devices that have one, each behind a slash.
unfoldable pub joined : Newbus → List ℕ → List ℕ
joined nb [] = []
joined nb (d ∷ ds) =
    if is_empty (unit_name nb d) then joined nb ds else (b'/' ∷ unit_name nb d) ++ joined nb ds

-- The full path, "/" if no device has a name.
unfoldable pub full_path : Newbus → ℕ → List ℕ
full_path nb d = or_slash 2 (joined nb (reverse (ancestry nb chain_max (some d))))

take-append-le : (n : ℕ) (ys zs : List ℕ) → n ≤ length ys → take n (ys ++ zs) ≡ take n ys
take-append-le zero ys zs h = refl
take-append-le (suc n) [] zs h = absurd (omega arith)
take-append-le (suc n) (y ∷ ys) zs h = ap (◌∷◌ y) (take-append-le n ys zs (omega arith))

take-append-over :
    (k n : ℕ) (xs ys zs : List ℕ)
    → n ≤ length ys
    → k ≡ length xs + n
    → take k (xs ++ (ys ++ zs)) ≡ xs ++ take n ys
take-append-over k n [] ys zs h is =
    let same : k ≡ n = omega arith in rw same (take-append-le n ys zs h)
take-append-over zero n (x ∷ xs) ys zs h is = absurd (omega arith)
take-append-over (suc k) n (x ∷ xs) ys zs h is =
    ap (◌∷◌ x) (take-append-over k n xs ys zs h (omega arith))

append-nil : (xs : List ℕ) → xs ++ [] ≡ xs
append-nil [] = refl
append-nil (x ∷ xs) = ap (◌∷◌ x) (append-nil xs)

append_assoc : (xs ys zs : List ℕ) → (xs ++ ys) ++ zs ≡ xs ++ (ys ++ zs)
append_assoc [] ys zs = refl
append_assoc (x ∷ xs) ys zs = ap (◌∷◌ x) (append_assoc xs ys zs)

-- A cut of a path that fits leaves "/" for an empty one.
take-or_slash :
    (n : ℕ) (s : List ℕ) → 1 < n → length s < n → or_slash n s ≡ take (n - 1) (or_slash 2 s)
unfolding or_slash strlcpy
take-or_slash n [] big fits = refl
take-or_slash n (x ∷ s) big fits = sym (take-all (n - 1) (x ∷ s) (omega arith))

or_slash-append : (n : ℕ) (s t : List ℕ) (x : ℕ) → or_slash n (s ++ (x ∷ t)) ≡ s ++ (x ∷ t)
unfolding or_slash
or_slash-append n [] t x = refl
or_slash-append n (y ∷ s) t x = refl

print_path-cut :
    (nb : Newbus) (n : ℕ) (ds : List ℕ) (buf : List ℕ)
    → 1 < n
    → length buf < n
    → print_path nb n ds buf ≡ take (n - 1) (or_slash 2 (buf ++ joined nb ds))
unfolding print_path joined
print_path-cut nb n [] buf big fits = rw (append-nil buf) (take-or_slash n buf big fits)
print_path-cut nb n (d ∷ ds) buf big fits = elim (Bool-cases (is_empty (unit_name nb d))) [
  | inl skip ↦ rw skip (print_path-cut nb n ds buf big fits)
  | inr named ↦ elim (Bool-cases (leb (n - length buf) (length (b'/' ∷ unit_name nb d)))) [
    | inl cut ↦
        let within : n - length buf - 1 ≤ length (b'/' ∷ unit_name nb d) = ground arith in
        rw (named, cut, or_slash-append 2 buf (unit_name nb d ++ joined nb ds) b'/')
          (sym (
            take-append-over (n - 1) (n - length buf - 1) buf (b'/' ∷ unit_name nb d) (joined nb ds)
              within (omega arith)))
    | inr whole ↦
        let room : length (buf ++ (b'/' ∷ unit_name nb d)) < n =
          ground (arith, length-append buf (b'/' ∷ unit_name nb d)) in
        let rest = print_path-cut nb n ds (buf ++ (b'/' ∷ unit_name nb d)) big room in
        rw (named, whole)
          (rest
            ∙ ap (λ s. take (n - 1) (or_slash 2 s))
                (append_assoc buf (b'/' ∷ unit_name nb d) (joined nb ds)))
  ]
]

-- `ioreg_build_path` gives the names of the device and its ancestors, the top one first, each
-- behind a slash, cut to the buffer with its NUL. A buffer has room for two bytes at least.
pub build_path-cut :
    (nb : Newbus) (d n : ℕ) → 1 < n → build_path nb d n ≡ take (n - 1) (full_path nb d)
unfolding build_path full_path
build_path-cut nb d n big =
    print_path-cut nb n (reverse (ancestry nb chain_max (some d))) [] big (omega arith)
