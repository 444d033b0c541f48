-- ===== src/Prelude/Result.antt =====
-- The errors that the kernel's handlers return, and results that carry them.

pub data Errno : Type 0 where
  einval enoent enomem enxio enotty enosys efault : Errno

pub data Result {ℓ} (A : Type ℓ) : Type ℓ where
  ok : A → Result A
  err : Errno → Result A

infixl 5 ◌>>=◌
abbrev pub ◌>>=◌ {ℓ κ} : {A : Type ℓ} {B : Type κ} → Result A → (A → Result B) → Result B
ok a >>= f = f a
err e >>= f = err e
