-- ===== src/Catalogue/Ioctl.antt =====
-- `iocat_ioctl` of iokit_catalogue.c: the commands of /dev/iocatalogue.
pub mod Invariant
use nextbsd_kernel.Prelude.{
  ℕ, ◌+◌, ◌-◌, ◌*◌, ◌%◌, ◌^◌, ◌≡◌, Bool, true, false, List, [], ◌∷◌, ◌++◌, if◌then◌else◌,
}
use nextbsd_kernel.Prelude.CString.{c_string, terminate}
use nextbsd_kernel.Prelude.Int.{ℤ}
use nextbsd_kernel.Prelude.Result.{Result, ok, err, Errno, enotty}
use nextbsd_kernel.Catalogue.Store.{
  Personality, bundle_id_max, compat_max, lookup_pci, lookup_compat,
}
use nextbsd_kernel.Catalogue.Queue.{
  Catalogue, AddRequest, AddCompatRequest, add, add_compat, flush, kextd_send,
}

-- The commands, with what userland passes; `other` is any other number.
pub data Command : Type 0 where
  iocadd : AddRequest → Command
  iocflush : Command
  ioclookup : ℕ → Command
  iocaddcompat : AddCompatRequest → Command
  ioclookupcompat : List ℕ → Command
  ioctestsend : ℕ → Command
  other : Command

-- What a command hands back: nothing, or the bundle and the score of a lookup.
pub data Reply : Type 0 where
  done : Reply
  found : List ℕ → ℤ → Reply

unfoldable pub to_reply : Result (Unit {0}) → Result Reply
to_reply (ok _) = ok done
to_reply (err e) = err e

unfoldable pub to_found : Result (List ℕ × ℤ) → Result Reply
to_found (ok (bundle, score)) = ok (found bundle score)
to_found (err e) = err e

-- The name `iocat-test`.
abbrev pub iocat_test : List ℕ
iocat_test = b'i' ∷ b'o' ∷ b'c' ∷ b'a' ∷ b't' ∷ b'-' ∷ b't' ∷ b'e' ∷ b's' ∷ b't' ∷ []

-- The command `IOCATIOCTESTSEND`, from the answer of its lookup on.
unfoldable pub test_send : Catalogue → ℕ → Result (List ℕ × ℤ) → Catalogue × Result (Unit {0})
test_send c word (err e) = (c, err e)
test_send c word (ok (bundle, score)) = kextd_send c bundle iocat_test word

module _ (copyin : ℕ → ℕ → Result (List ℕ)) where
  unfoldable pub ioctl : Catalogue → Command → Catalogue × Result Reply
  ioctl c (iocadd ua) = let r = add copyin c ua in (r.0, to_reply r.1)
  ioctl c iocflush = (flush c, ok done)
  ioctl c (ioclookup word) = (c, to_found (lookup_pci c.records word bundle_id_max))
  ioctl c (iocaddcompat ua) = let r = add_compat copyin c ua in (r.0, to_reply r.1)
  ioctl c (ioclookupcompat buf) = (
    c,
    to_found (lookup_compat c.records (c_string (terminate (compat_max - 1) buf)) bundle_id_max),
  )
  ioctl c (ioctestsend word) =
      let r = test_send c word (lookup_pci c.records word bundle_id_max) in (r.0, to_reply r.1)
  ioctl c other = (c, err enotty)
