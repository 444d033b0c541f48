-- ===== src/Ipc/Port/Senders.antt =====
-- The no-senders request of a port over the operations on its rights: no notification is lost.
use nextbsd_kernel.Prelude.{
  ℕ, ◌<◌, ◌≡◌, ◌≢◌, ◌⊎◌, ◌-◌, refl, inl, inr, Bool, true, ◌&&◌, Option, none, some, List, [], ◌∷◌,
  ◌++◌, ◌==◌, leb, arith, Bool-cases, Option-cases, sym, subst, ◌∙◌,
}
use nextbsd_kernel.Ipc.Port.{
  Rights, make_send, copy_send, notify_senders, release_send, make_sonce, release_sonce, nsrequest,
}

-- One operation on the naked rights of the port. `sync` is the make-send count that the holder of
-- the no-senders request has waited for since it made the request. Between the counts stand the
-- request that the operation files and the one that it gives back to the caller.
pub data Step : Rights → ℕ → Option ℕ → Option ℕ → Rights → ℕ → Type 0 where
  make : {p q : Rights} {sync : ℕ} → make_send p ≡ some q → Step p sync none none q sync
  copy :
      {p q : Rights} {sync : ℕ} (b : Bool)
      → copy_send p ≡ some (q, b)
      → Step p sync none none q sync
  release : {p q : Rights} {sync : ℕ} → release_send p ≡ some q → Step p sync none none q sync
  make_once : {p q : Rights} {sync : ℕ} → make_sonce p ≡ some q → Step p sync none none q sync
  release_once : {p q : Rights} {sync : ℕ} → release_sonce p ≡ some q → Step p sync none none q sync
  request :
      {p q : Rights} {sync next : ℕ} (notify previous : Option ℕ)
      → nsrequest next notify p ≡ some (q, previous)
      → Step p sync notify previous q next

abbrev pub listed : Option ℕ → List ℕ
listed none = []
listed (some x) = x ∷ []

-- A run, with the requests that were filed and those that were given back.
pub data Steps : Rights → ℕ → List ℕ → List ℕ → Rights → ℕ → Type 0 where
  start : {p : Rights} {sync : ℕ} → Steps p sync [] [] p sync
  later :
      {p q r : Rights} {a b c : ℕ} (filed returned : List ℕ) (f g : Option ℕ)
      → Steps p a filed returned q b
      → Step q b f g r c
      → Steps p a (listed f ++ filed) (listed g ++ returned) r c

-- An active port without send rights has a request pending only if the make-send count has not
-- come up to what the request waits for.
abbrev pub NoneMissed : Rights → ℕ → Type 0
NoneMissed p sync =
    p.active ≡ true → p.srights ≡ 0 → (ns : ℕ) → p.nsrequest ≡ some ns → p.mscount < sync

make_send-rights : (p q : Rights) → make_send p ≡ some q → q.srights ≢ 0
unfolding make_send
make_send-rights p q e = ground arith

copy_send-rights : (p q : Rights) (b : Bool) → copy_send p ≡ some (q, b) → (q.srights ≢ 0) ⊎ (q ≡ p)
unfolding copy_send
copy_send-rights p q b e = elim (Bool-cases p.active) [
  | inl act ↦ ground arith
  | inr dead ↦ ground arith
]

release_send-none :
    (p q : Rights) → release_send p ≡ some q → q.active ≡ true → q.srights ≡ 0 → q.nsrequest ≡ none
unfolding release_send notify_senders
release_send-none p q e act zero_rights = elim (Option-cases p.nsrequest) [
  | inl idle ↦ ground arith
  | inr (ns, is) ↦ ground arith
]

once-same :
    (p q : Rights)
    → (make_sonce p ≡ some q) ⊎ (release_sonce p ≡ some q)
    → (q.srights ≡ p.srights)
      × (q.nsrequest ≡ p.nsrequest)
      × (q.mscount ≡ p.mscount)
      × (q.active ≡ p.active)
unfolding make_sonce release_sonce
once-same p q (inl e) = ground arith
once-same p q (inr e) = ground arith

nsrequest-waits :
    (p q : Rights) (sync ns : ℕ) (notify previous : Option ℕ)
    → nsrequest sync notify p ≡ some (q, previous)
    → q.srights ≡ 0
    → q.nsrequest ≡ some ns
    → q.mscount < sync
unfolding nsrequest notify_senders
nsrequest-waits p q sync ns none previous e zero_rights is = ground arith
nsrequest-waits p q sync ns (some so) previous e zero_rights is = ground arith

pub Step-NoneMissed :
    {p q : Rights} {a b : ℕ} {f g : Option ℕ} → Step p a f g q b → NoneMissed p a → NoneMissed q b
Step-NoneMissed (make {p} {q} e) v act zero_rights ns is =
    absurd (make_send-rights p q e zero_rights)
Step-NoneMissed (copy {p} {q} {sync = a} b e) v act zero_rights ns is =
    elim (copy_send-rights p q b e) [
      | inl some_rights ↦ absurd (some_rights zero_rights)
      | inr same ↦ subst (λ r. NoneMissed r a) (sym same) v act zero_rights ns is
    ]
Step-NoneMissed (release {p} {q} e) v act zero_rights ns is =
    absurd (cc (release_send-none p q e act zero_rights, is))
Step-NoneMissed (make_once {p} {q} e) v act zero_rights ns is =
    let (rights, pending, count, active) = once-same p q (inl e) in
    rw count (v (sym active ∙ act) (sym rights ∙ zero_rights) ns (sym pending ∙ is))
Step-NoneMissed (release_once {p} {q} e) v act zero_rights ns is =
    let (rights, pending, count, active) = once-same p q (inr e) in
    rw count (v (sym active ∙ act) (sym rights ∙ zero_rights) ns (sym pending ∙ is))
Step-NoneMissed (request {p} {q} {next} notify previous e) v act zero_rights ns is =
    nsrequest-waits p q next ns notify previous e zero_rights is

pub Steps-NoneMissed :
    {p q : Rights} {a b : ℕ} {fs gs : List ℕ}
    → p.nsrequest ≡ none
    → Steps p a fs gs q b
    → NoneMissed q b
Steps-NoneMissed fresh start = λ act zero_rights ns is. absurd (cc)
Steps-NoneMissed fresh (later filed returned f g steps step) =
    Step-NoneMissed step (Steps-NoneMissed fresh steps)

-- A notification is sent: to whom, with the make-send count, where no send right is left.
abbrev pub Tells : ℕ → Rights → Rights → Type 0
Tells ns p q = (q.nsrequest ≡ none) × (q.srights ≡ 0) × (q.told ≡ p.told ++ (ns, q.mscount) ∷ [])

-- What an operation does with the requests: it leaves the one that is pending, notifies it, puts a
-- new one in its place, or notifies the new one at once.
pub data Effect (p : Rights) (f g : Option ℕ) (q : Rights) : Type 0 where
  leaves : f ≡ none → g ≡ none → q.told ≡ p.told → q.nsrequest ≡ p.nsrequest → Effect p f g q
  notifies : (ns : ℕ) → f ≡ none → g ≡ none → p.nsrequest ≡ some ns → Tells ns p q → Effect p f g q
  replaces : g ≡ p.nsrequest → q.told ≡ p.told → q.nsrequest ≡ f → Effect p f g q
  at_once : (ns : ℕ) → f ≡ some ns → g ≡ p.nsrequest → Tells ns p q → Effect p f g q

make_send-Effect : (p q : Rights) → make_send p ≡ some q → Effect p none none q
unfolding make_send
make_send-Effect p q e = leaves refl refl (ground arith) (ground arith)

copy_send-Effect : (p q : Rights) (b : Bool) → copy_send p ≡ some (q, b) → Effect p none none q
unfolding copy_send
copy_send-Effect p q b e = leaves refl refl (ground arith) (ground arith)

once-Effect :
    (p q : Rights) → (make_sonce p ≡ some q) ⊎ (release_sonce p ≡ some q) → Effect p none none q
unfolding make_sonce release_sonce
once-Effect p q (inl e) = leaves refl refl (ground arith) (ground arith)
once-Effect p q (inr e) = leaves refl refl (ground arith) (ground arith)

release_send-Effect : (p q : Rights) → release_send p ≡ some q → Effect p none none q
unfolding release_send notify_senders
release_send-Effect p q e = elim (Bool-cases p.active) [
  | inr dead ↦ leaves refl refl (ground (arith, e, dead)) (ground (arith, e, dead))
  | inl act ↦ elim (Bool-cases (p.srights - 1 == 0)) [
    | inr others ↦
        leaves refl refl (ground (arith, e, act, others)) (ground (arith, e, act, others))
    | inl last ↦ elim (Option-cases p.nsrequest) [
      | inl idle ↦
          leaves refl refl (ground (arith, e, act, last, idle)) (ground (arith, e, act, last, idle))
      | inr (ns, is) ↦ notifies ns refl refl is (
        ground (arith, e, act, last, is),
        ground (arith, e, act, last, is),
        ground (arith, e, act, last, is),
      )
    ]
  ]
]

nsrequest-Effect :
    (p q : Rights) (sync : ℕ) (f g : Option ℕ) → nsrequest sync f p ≡ some (q, g) → Effect p f g q
unfolding nsrequest notify_senders
nsrequest-Effect p q sync none g e = replaces (ground arith) (ground arith) (ground arith)
nsrequest-Effect p q sync (some ns) g e =
    elim (Bool-cases ((p.srights == 0) && leb sync p.mscount)) [
      | inl due ↦
          at_once ns refl (ground (arith, e, due))
            (ground (arith, e, due), ground (arith, e, due), ground (arith, e, due))
      | inr waits ↦
          replaces (ground (arith, e, waits)) (ground (arith, e, waits)) (ground (arith, e, waits))
    ]

pub Step-Effect : {p q : Rights} {a b : ℕ} {f g : Option ℕ} → Step p a f g q b → Effect p f g q
Step-Effect (make {p} {q} e) = make_send-Effect p q e
Step-Effect (copy {p} {q} b e) = copy_send-Effect p q b e
Step-Effect (release {p} {q} e) = release_send-Effect p q e
Step-Effect (make_once {p} {q} e) = once-Effect p q (inl e)
Step-Effect (release_once {p} {q} e) = once-Effect p q (inr e)
Step-Effect (request {p} {q} {next} f g e) = nsrequest-Effect p q next f g e
