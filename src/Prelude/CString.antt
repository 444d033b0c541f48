-- ===== src/Prelude/CString.antt =====
-- C strings as lists of bytes. A buffer is the list of its bytes; the string that it holds ends
-- before the first NUL. `strlcpy` and `strcmp` are the C library's.
use Prim.Native.Nat.{ℕ, zero, suc, ◌-◌, ◌≤◌}
use mathlib.Core.Path.{◌≡◌, refl, ap}
use mathlib.Core.Bool.{Bool, true, false, ◌&&◌}
use mathlib.Core.List.{List, [], ◌∷◌}
use native.Mathlib.Omega.{arith}
use package.nextbsd_kernel.Prelude.Tests.{◌==◌, if◌then◌else◌}
use package.nextbsd_kernel.Prelude.Lists.{length, take, length-take-le}

-- The string in a buffer.
unfoldable pub c_string : List ℕ → List ℕ
c_string [] = []
c_string (b ∷ bs) = let rest = c_string bs in if b == 0 then [] else b ∷ rest

-- `buf[i] = '\0'`, within the buffer.
unfoldable pub terminate : ℕ → List ℕ → List ℕ
terminate i [] = []
terminate zero (b ∷ bs) = 0 ∷ bs
terminate (suc i) (b ∷ bs) = b ∷ terminate i bs

-- The string that `strlcpy(dst, src, n)` leaves in `dst`.
unfoldable pub strlcpy : List ℕ → ℕ → List ℕ
strlcpy src n = take (n - 1) src

-- `strcmp(a, b) == 0`
unfoldable pub str_eq : List ℕ → List ℕ → Bool
str_eq [] [] = true
str_eq [] (c ∷ b) = false
str_eq (x ∷ a) [] = false
str_eq (x ∷ a) (c ∷ b) = (x == c) && str_eq a b

-- `s[0] == '\0'`
abbrev pub is_empty : List ℕ → Bool
is_empty [] = true
is_empty (_ ∷ _) = false

pub str_eq_refl : (a : List ℕ) → str_eq a a ≡ true
unfolding str_eq
str_eq_refl [] = refl
str_eq_refl (x ∷ a) = ground (arith, str_eq_refl a)

pub eq_of_str_eq : (a b : List ℕ) → str_eq a b ≡ true → a ≡ b
unfolding str_eq
eq_of_str_eq [] [] h = refl
eq_of_str_eq [] (c ∷ b) h = cc
eq_of_str_eq (x ∷ a) [] h = cc
eq_of_str_eq (x ∷ a) (c ∷ b) h = ground (arith, eq_of_str_eq a b)

-- Writing a terminator cuts the string at it.
pub c_string-terminate : (k : ℕ) (buf : List ℕ) → c_string (terminate k buf) ≡ take k (c_string buf)
unfolding c_string terminate
c_string-terminate zero [] = refl
c_string-terminate zero (b ∷ bs) = refl
c_string-terminate (suc k) [] = refl
c_string-terminate (suc k) (b ∷ bs) = ground (arith, c_string-terminate k bs)

pub length-strlcpy : (src : List ℕ) (n : ℕ) → length (strlcpy src n) ≤ n - 1
unfolding strlcpy
length-strlcpy src n = length-take-le (n - 1) src

pub take-all : (n : ℕ) (xs : List ℕ) → length xs ≤ n → take n xs ≡ xs
take-all zero [] h = refl
take-all zero (x ∷ xs) h = absurd (omega arith)
take-all (suc n) [] h = refl
take-all (suc n) (x ∷ xs) h = ap (◌∷◌ x) (take-all n xs (omega arith))
