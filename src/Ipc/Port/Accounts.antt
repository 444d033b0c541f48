-- ===== src/Ipc/Port/Accounts.antt =====
-- What becomes of the no-senders requests of a port: `ipc_port_nsrequest` files them, the release
-- of the last send right notifies them.
use nextbsd_kernel.Prelude.{
  ℕ, ◌+◌, ◌<◌, ◌≡◌, ◌⊎◌, refl, inl, inr, true, Option, none, some, List, [], ◌∷◌, ◌++◌, ◌==◌,
  if◌then◌else◌, arith, Bool-cases, Option-cases, ==_iff,
}
use nextbsd_kernel.Ipc.Port.{Rights}
use nextbsd_kernel.Ipc.Port.Senders.{
  Step, Steps, start, later, listed, Steps-NoneMissed, Step-NoneMissed, Tells, Effect, leaves,
  notifies, replaces, at_once, Step-Effect,
}

-- How often a request stands in a list, in the notifications sent, and at the port.
abbrev pub hit : ℕ → ℕ → ℕ
hit ns x = if x == ns then 1 else 0

unfoldable pub occurs : ℕ → List ℕ → ℕ
occurs ns [] = 0
occurs ns (x ∷ xs) = hit ns x + occurs ns xs

unfoldable pub told_to : ℕ → List (ℕ × ℕ) → ℕ
told_to ns [] = 0
told_to ns ((x, count) ∷ l) = hit ns x + told_to ns l

unfoldable pub pending_of : ℕ → Option ℕ → ℕ
pending_of ns none = 0
pending_of ns (some x) = hit ns x

told_to-append :
    (ns x count : ℕ) (l : List (ℕ × ℕ))
    → told_to ns (l ++ (x, count) ∷ []) ≡ told_to ns l + hit ns x
unfolding told_to
told_to-append ns x count [] = omega arith
told_to-append ns x count ((y, c) ∷ l) = omega (arith, told_to-append ns x count l)

occurs-listed :
    (ns : ℕ) (f : Option ℕ) (xs : List ℕ)
    → occurs ns (listed f ++ xs) ≡ pending_of ns f + occurs ns xs
unfolding occurs pending_of
occurs-listed ns none xs = omega arith
occurs-listed ns (some x) xs = refl

-- The requests on both sides of an operation.
Effect-balance :
    (ns : ℕ) (p q : Rights) (f g : Option ℕ)
    → Effect p f g q
    → told_to ns q.told + pending_of ns g + pending_of ns q.nsrequest
      ≡ told_to ns p.told + pending_of ns p.nsrequest + pending_of ns f
unfolding pending_of
Effect-balance ns p q f g (leaves no_f no_g told same) = rw (no_f, no_g, told, same) (omega arith)
Effect-balance ns p q f g (notifies x no_f no_g is (idle, _, told)) =
    rw (no_f, no_g, is, idle, told, told_to-append ns x q.mscount p.told) (omega arith)
Effect-balance ns p q f g (replaces back told is) = rw (back, told, is) (omega arith)
Effect-balance ns p q f g (at_once x files back (idle, _, told)) =
    rw (files, back, idle, told, told_to-append ns x q.mscount p.told) (omega arith)

Steps-balance :
    (ns : ℕ) {p q : Rights} {a b : ℕ} {fs gs : List ℕ}
    → p.nsrequest ≡ none
    → p.told ≡ []
    → Steps p a fs gs q b
    → occurs ns fs ≡ told_to ns q.told + occurs ns gs + pending_of ns q.nsrequest
Steps-balance ns fresh silent (start {p}) =
    rw (fresh, silent) (unfold occurs told_to pending_of in refl)
Steps-balance ns fresh silent (later {q} {r} filed returned f g steps step) =
    let before = Steps-balance ns fresh silent steps in
    let one = Effect-balance ns q r f g (Step-Effect step) in
    rw (occurs-listed ns f filed, occurs-listed ns g returned) (omega (arith, before, one))

Effect-Tells :
    (p q : Rights) (f g : Option ℕ)
    → Effect p f g q
    → (q.told ≡ p.told) ⊎ ((x : ℕ) × ((p.nsrequest ≡ some x) ⊎ (f ≡ some x)) × Tells x p q)
Effect-Tells p q f g (leaves _ _ told _) = inl told
Effect-Tells p q f g (notifies x _ _ is tells) = inr (x, inl is, tells)
Effect-Tells p q f g (replaces _ told _) = inl told
Effect-Tells p q f g (at_once x is _ tells) = inr (x, inr is, tells)

-- A request waits for a send right to go, or for a make-send count that is still to come.
abbrev pub Waits : Rights → ℕ → Type 0
Waits p sync = (p.nsrequest ≡ none) ⊎ (0 < p.srights) ⊎ (p.mscount < sync)

-- Every request `ns` is accounted for, the last operation notified at most one, which was due, and
-- what is pending waits.
abbrev pub Accounted : ℕ → List ℕ → List ℕ → Rights → Option ℕ → Rights → ℕ → Type 0
Accounted ns filed returned q f r c =
    (occurs ns filed ≡ told_to ns r.told + occurs ns returned + pending_of ns r.nsrequest)
    × ((r.told ≡ q.told) ⊎ ((x : ℕ) × ((q.nsrequest ≡ some x) ⊎ (f ≡ some x)) × Tells x q r))
    × Waits r c

-- An active port without a request, whose history of notifications is empty, sees any sequence of
-- `ipc_port_make_send`, `ipc_port_copy_send`, `ipc_port_release_send`, `ipc_port_make_sonce`,
-- `ipc_port_release_sonce` and `ipc_port_nsrequest`, and one more of these operations; the port is
-- active at the end. Then each request was notified, given back and is pending, together, as often
-- as it was filed. The last operation notified nobody, or one request, the one pending before it or
-- the one that it files, with the make-send count, and no send right is left then. A request that
-- is still pending has a send right to wait for, or a make-send count that is to come.
pub Steps-Accounted :
    (ns : ℕ) {p q r : Rights} {a b c : ℕ} {filed returned : List ℕ} (f g : Option ℕ)
    → p.nsrequest ≡ none
    → p.told ≡ []
    → Steps p a filed returned q b
    → Step q b f g r c
    → r.active ≡ true
    → Accounted ns (listed f ++ filed) (listed g ++ returned) q f r c
Steps-Accounted ns {q} {r} {c} {filed} {returned} f g fresh silent steps step act = (
  Steps-balance ns fresh silent (later filed returned f g steps step),
  Effect-Tells q r f g (Step-Effect step),
  elim (Option-cases r.nsrequest) [
    | inl idle ↦ inl idle
    | inr (x, is) ↦ elim (Bool-cases (r.srights == 0)) [
      | inr some_rights ↦ inr (inl (ground arith))
      | inl gone ↦
          let missed = Step-NoneMissed step (Steps-NoneMissed fresh steps) in
          inr (inr (missed act ((==_iff r.srights 0).0 gone) x is))
    ]
  ],
)
