-- ===== src/Catalogue/Ioctl/Invariant.antt =====
-- What every command of /dev/iocatalogue, and the match task, keep true of the catalogue.
use nextbsd_kernel.Prelude.{
  ℕ, ◌%◌, ◌^◌, ◌≤◌, ◌<◌, ◌≡◌, refl, ◌∙◌, inl, inr, Bool, false, List, [], ◌∷◌, arith, All,
  All-append, keep, length, length-append,
}
use nextbsd_kernel.Prelude.CString.{strlcpy, is_empty, length-strlcpy}
use nextbsd_kernel.Prelude.Int.{ℤ}
use nextbsd_kernel.Prelude.Result.{Result, ok, err}
use nextbsd_kernel.Catalogue.Store.{Personality, bundle_id_max, slot, lookup_pci}
use nextbsd_kernel.Catalogue.Store.Slots.{terminate_slots-cut}
use nextbsd_kernel.Catalogue.Queue.{
  Work, Catalogue, AddRequest, AddCompatRequest, add, add_compat, flush, kextd_send, personality,
  compat_personality, bundle_of,
}
use nextbsd_kernel.Catalogue.Queue.Task.{NamesDistinct, has_name}
use nextbsd_kernel.Catalogue.Queue.Add.{Published, Outcome, add-Outcome, add_compat-Outcome}
use nextbsd_kernel.Catalogue.Ioctl.{
  Command, iocadd, iocflush, ioclookup, iocaddcompat, ioclookupcompat, ioctestsend, other, ioctl,
  test_send,
}

-- A stored personality: a bundle id that is not empty and fits its buffer, and strings that fit
-- their slots.
pub record IsPersonality (r : Personality) : Type 0 where
  pub named : is_empty r.bundle_id ≡ false
  pub fits : length r.bundle_id ≤ 127
  pub slots : (i : ℕ) → i < r.ncompat → length (slot i r.compat) ≤ 127

pub record IsCatalogue (c : Catalogue) : Type 0 where
  pub counted : c.count ≡ length c.records % 2 ^ 32
  pub formed : All IsPersonality c.records
  pub distinct : NamesDistinct c.pending

strlcpy-named :
    (bundle : List ℕ) → is_empty bundle ≡ false → is_empty (strlcpy bundle bundle_id_max) ≡ false
unfolding strlcpy
strlcpy-named [] full = cc
strlcpy-named (b ∷ bundle) full = refl

personality-IsPersonality :
    (ua : AddRequest) (words : List ℕ)
    → is_empty (bundle_of ua.bundle_id) ≡ false
    → IsPersonality (personality ua words)
unfolding personality
personality-IsPersonality ua words full = record {
  named = strlcpy-named (bundle_of ua.bundle_id) full;
  fits = length-strlcpy (bundle_of ua.bundle_id) 128;
  slots = λ i h. absurd (omega arith);
}

compat_personality-IsPersonality :
    (ua : AddCompatRequest) (bytes : List ℕ)
    → is_empty (bundle_of ua.bundle_id) ≡ false
    → IsPersonality (compat_personality ua bytes)
unfolding compat_personality
compat_personality-IsPersonality ua bytes full = record {
  named = strlcpy-named (bundle_of ua.bundle_id) full;
  fits = length-strlcpy (bundle_of ua.bundle_id) 128;
  slots = λ i h. (terminate_slots-cut ua.ncompat i bytes h).1;
}

has_name-keep :
    (p : Work → Bool) (w : Work) (ws : List Work)
    → has_name w ws ≡ false
    → has_name w (keep p ws) ≡ false
unfolding has_name
has_name-keep p w [] new = refl
has_name-keep p w (x ∷ ws) new = ground (arith, has_name-keep p w ws)

keep-NamesDistinct :
    (p : Work → Bool) (ws : List Work) → NamesDistinct ws → NamesDistinct (keep p ws)
keep-NamesDistinct p [] d = tt
keep-NamesDistinct p (w ∷ ws) d =
    ground (arith, keep-NamesDistinct p ws d.1, has_name-keep p w ws d.0)

Published-IsCatalogue :
    (c c' : Catalogue) (r : Personality)
    → IsPersonality r
    → IsCatalogue c
    → Published c c' r
    → IsCatalogue c'
Published-IsCatalogue c c' r good v p = record {
  counted = p.count ∙ rw (p.records, length-append c.records (r ∷ []), v.counted) (omega arith);
  formed = rw p.records (All-append IsPersonality c.records (r ∷ []) v.formed (good, tt));
  distinct = rw p.pending (keep-NamesDistinct _ c.pending v.distinct);
}

Outcome-IsCatalogue :
    (c : Catalogue) (count : ℕ) (bundle : List ℕ) (copied : Result (List ℕ))
    (build : List ℕ → Personality) (r : Catalogue × Result (Unit {0}))
    → ((items : List ℕ) → is_empty (bundle_of bundle) ≡ false → IsPersonality (build items))
    → IsCatalogue c
    → Outcome c count bundle copied build r
    → IsCatalogue r.0
Outcome-IsCatalogue c count bundle copied build r good v (inl (same, _)) = rw same v
Outcome-IsCatalogue c count bundle copied build r good v (inr (items, _, _, _, _, full, p)) =
    Published-IsCatalogue c r.0 (build items) (good items full) v p

kextd_send-IsCatalogue :
    (c : Catalogue) (bundle device : List ℕ) (word : ℕ)
    → IsCatalogue c
    → IsCatalogue (kextd_send c bundle device word).0
unfolding kextd_send
kextd_send-IsCatalogue c bundle device word v = ground arith

test_send-IsCatalogue :
    (c : Catalogue) (word : ℕ) (answer : Result (List ℕ × ℤ))
    → IsCatalogue c
    → IsCatalogue (test_send c word answer).0
unfolding test_send
test_send-IsCatalogue c word (err e) v = v
test_send-IsCatalogue c word (ok (bundle, score)) v = kextd_send-IsCatalogue c bundle _ word v

-- Every command of /dev/iocatalogue keeps the catalogue well formed: the count is the number of
-- records modulo 2^32, every record has a bundle id that is not empty and fits its buffer and
-- strings that fit their slots, and no two pending devices have one name.
pub ioctl-IsCatalogue :
    (copyin : ℕ → ℕ → Result (List ℕ)) (c : Catalogue) (cmd : Command)
    → IsCatalogue c
    → IsCatalogue (ioctl copyin c cmd).0
unfolding ioctl flush
ioctl-IsCatalogue copyin c (iocadd ua) v =
    Outcome-IsCatalogue c _ _ _ (personality ua) (add copyin c ua) (personality-IsPersonality ua) v
      (add-Outcome copyin c ua)
ioctl-IsCatalogue copyin c iocflush v = record {
  counted = refl;
  formed = tt;
  distinct = v.distinct;
}
ioctl-IsCatalogue copyin c (ioclookup word) v = v
ioctl-IsCatalogue copyin c (iocaddcompat ua) v =
    Outcome-IsCatalogue c _ _ _ (compat_personality ua) (add_compat copyin c ua)
      (compat_personality-IsPersonality ua) v (add_compat-Outcome copyin c ua)
ioctl-IsCatalogue copyin c (ioclookupcompat buf) v = v
ioctl-IsCatalogue copyin c (ioctestsend word) v =
    test_send-IsCatalogue c word (lookup_pci c.records word bundle_id_max) v
ioctl-IsCatalogue copyin c other v = v
