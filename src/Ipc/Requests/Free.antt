-- ===== src/Ipc/Requests/Free.antt =====
-- The table of dead-name requests as a finite map from indices to requests: what a request and its
-- cancellation do to the map, and that the free list holds just the slots that no request has.
use nextbsd_kernel.Prelude.{
  ℕ, ◌<◌, ◌≡◌, ◌⊎◌, refl, inl, inr, true, false, Option, none, some, List, [], ◌∷◌, ◌==◌, arith,
  Bool-cases, ==_iff, ==_refl, ap, subst, sym, ◌∙◌,
}
use nextbsd_kernel.Ipc.Hash.Chain.{has}
use nextbsd_kernel.Ipc.Requests.{
  Request, Table, Requests, set_slot, take_free, dnrequest, give_back, dncancel,
}

-- From `p` the free list leads through the distinct slots of the list, which hold no request and
-- lie in the table.
pub data FreeList (size : ℕ) (slots : ℕ → Request) : ℕ → List ℕ → Type 0 where
  nil : FreeList size slots 0 []
  cons :
      {i : ℕ} {is : List ℕ}
      → has i is ≡ false
      → (0 < i) × (i < size) × ((slots i).name ≡ 0)
      → FreeList size slots (slots i).notify is
      → FreeList size slots i (i ∷ is)

pub record IsTable (sizes : ℕ → ℕ) (t : Table) (free : List ℕ) : Type 0 where
  pub linked : FreeList (sizes t.size_class) t.slots t.next free
  pub listed : (i : ℕ) → 0 < i → i < sizes t.size_class → (t.slots i).name ≡ 0 → has i free ≡ true

pub set_slot_self : (slots : ℕ → Request) (k : ℕ) (r : Request) → set_slot slots k r k ≡ r
unfolding set_slot
set_slot_self slots k r = rw (==_refl k) refl

pub set_slot-other :
    (slots : ℕ → Request) (k i : ℕ) (r : Request)
    → (i == k) ≡ false
    → set_slot slots k r i ≡ slots i
unfolding set_slot
set_slot-other slots k i r ne = ground arith

-- A change of a slot that is not in the list.
pub FreeList-set_slot :
    (size : ℕ) (slots : ℕ → Request) (k : ℕ) (r : Request) {p : ℕ} {is : List ℕ}
    → has k is ≡ false
    → FreeList size slots p is
    → FreeList size (set_slot slots k r) p is
FreeList-set_slot size slots k r out nil = nil
FreeList-set_slot size slots k r out (cons {i} {is} new inside rest) =
    let same = set_slot-other slots k i r (ground arith) in
    cons new (rw same inside) (rw same (FreeList-set_slot size slots k r (ground arith) rest))

FreeList-cases :
    (size : ℕ) (slots : ℕ → Request) (p : ℕ) (is : List ℕ)
    → FreeList size slots p is
    → ((p ≡ 0) × (is ≡ []))
      ⊎ ((js : List ℕ) × (is ≡ p ∷ js)
          × (has p js ≡ false)
          × ((0 < p) × (p < size) × ((slots p).name ≡ 0))
          × FreeList size slots (slots p).notify js)
FreeList-cases size slots p is nil = inl (refl, refl)
FreeList-cases size slots p is (cons {i} {is = js} new inside rest) =
    inr (js, refl, new, inside, rest)

-- An active port with a table.
abbrev pub live : Table → Requests
live t = record { active = true; table = some t }

-- The table in which slot `i` is taken for a request.
abbrev pub taken : Table → ℕ → Request → Table
taken t i r = record t { next = (t.slots i).notify; slots = set_slot t.slots i r }

-- The table in which slot `i` is free again.
abbrev pub freed : Table → ℕ → Table
freed t i = record t { next = i; slots = set_slot t.slots i (record { name = 0; notify = t.next }) }

dnrequest-full :
    (t : Table) (name soright : ℕ)
    → 0 < name
    → 0 < soright
    → t.next ≡ 0
    → dnrequest (live t) name soright ≡ some (live t, none)
unfolding dnrequest take_free
dnrequest-full t name soright hn hs full = ground arith

dnrequest-taken :
    (t : Table) (name soright : ℕ)
    → 0 < name
    → 0 < soright
    → 0 < t.next
    → (t.slots t.next).name ≡ 0
    → dnrequest (live t) name soright
      ≡ some (live (taken t t.next (record { name = name; notify = soright })), some t.next)
unfolding dnrequest take_free
dnrequest-taken t name soright hn hs room nameless = ground arith

dncancel-freed :
    (t : Table) (name i : ℕ)
    → 0 < name
    → 0 < i
    → (t.slots i).name ≡ name
    → dncancel (live t) name i ≡ some (live (freed t i), (t.slots i).notify)
unfolding dncancel give_back
dncancel-freed t name i hn hi named = ground arith

taken-IsTable :
    (sizes : ℕ → ℕ) (t : Table) (i : ℕ) (r : Request) (rest : List ℕ)
    → IsTable sizes t (i ∷ rest)
    → 0 < r.name
    → has i rest ≡ false
    → FreeList (sizes t.size_class) t.slots (t.slots i).notify rest
    → IsTable sizes (taken t i r) rest
taken-IsTable sizes t i r rest v named new tail = record {
  linked = FreeList-set_slot (sizes t.size_class) t.slots i r new tail;
  listed = λ j pos lt nameless. unfold set_slot in ground (arith, v.listed j pos lt);
}

-- A slot that holds a request is not in the free list.
not-has_of_named :
    (size : ℕ) (slots : ℕ → Request) (i : ℕ) {p : ℕ} {is : List ℕ}
    → FreeList size slots p is
    → 0 < (slots i).name
    → has i is ≡ false
not-has_of_named size slots i nil named = refl
not-has_of_named size slots i (cons {i = k} new inside rest) named =
    let out = not-has_of_named size slots i rest named in
    elim (Bool-cases (k == i)) [
      | inl here ↦
          let at = (==_iff k i).0 here in
          let none_here = subst (λ x. (slots x).name ≡ 0) at inside.2 in
          absurd (omega (arith, named, none_here))
      | inr other ↦ rw other out
    ]

freed-IsTable :
    (sizes : ℕ → ℕ) (t : Table) (i : ℕ) (free : List ℕ)
    → IsTable sizes t free
    → 0 < i
    → i < sizes t.size_class
    → has i free ≡ false
    → IsTable sizes (freed t i) (i ∷ free)
freed-IsTable sizes t i free v hi lt new =
    let r : Request = record { name = 0; notify = t.next } in
    let self = set_slot_self t.slots i r in
    record {
      linked =
          cons new (hi, lt, rw self refl)
            (rw self (FreeList-set_slot (sizes t.size_class) t.slots i r new v.linked));
      listed = λ j pos lt nameless. unfold set_slot in ground (arith, v.listed j pos lt);
    }

-- What a request leaves: it stands in a slot that was free, the other slots are as before.
abbrev pub Recorded : (ℕ → ℕ) → Table → List ℕ → Request → Option (Requests × Option ℕ) → Type 0
Recorded sizes t free r result =
    (t' : Table) × (rest : List ℕ) × (result ≡ some (live t', some t.next))
    × (free ≡ t.next ∷ rest)
    × (t'.slots t.next ≡ r)
    × ((j : ℕ) → (j == t.next) ≡ false → t'.slots j ≡ t.slots j)
    × IsTable sizes t' rest

-- `ipc_port_dnrequest` of a name and a send-once right that are not 0, on an active port whose
-- table is well formed, answers KERN_NO_SPACE, and changes nothing, if the free list is empty.
-- Otherwise it fails no assertion, takes the first free slot, which then holds the request,
-- and leaves the other slots as they were; the free list then holds just the slots without a
-- request.
pub dnrequest-Recorded :
    (sizes : ℕ → ℕ) (t : Table) (free : List ℕ) (name soright : ℕ)
    → IsTable sizes t free
    → 0 < name
    → 0 < soright
    → ((free ≡ []) × (dnrequest (live t) name soright ≡ some (live t, none)))
      ⊎ Recorded sizes t free
          (record { name = name; notify = soright })
          (dnrequest (live t) name soright)
dnrequest-Recorded sizes t free name soright v hn hs =
    let r : Request = record { name = name; notify = soright } in
    elim (FreeList-cases (sizes t.size_class) t.slots t.next free v.linked) [
      | inl (full, empty) ↦ inl (empty, dnrequest-full t name soright hn hs full)
      | inr (rest, is, new, (pos, lt, nameless), tail) ↦ inr (
        taken t t.next r,
        rest,
        dnrequest-taken t name soright hn hs pos nameless,
        is,
        set_slot_self t.slots t.next r,
        λ j ne. set_slot-other t.slots t.next j r ne,
        taken-IsTable sizes t t.next r rest (subst (IsTable sizes t) is v) hn new tail,
      )
    ]

-- `ipc_port_dncancel` of a request that stands in the well-formed table of an active port
-- fails no assertion and gives back the send-once right of the request. Its slot is then the
-- first of the free list, the other slots are as they were, and the table stays well formed.
pub dncancel-Frees :
    (sizes : ℕ → ℕ) (t : Table) (free : List ℕ) (i : ℕ)
    → IsTable sizes t free
    → 0 < i
    → i < sizes t.size_class
    → 0 < (t.slots i).name
    → (t' : Table) × (dncancel (live t) (t.slots i).name i ≡ some (live t', (t.slots i).notify))
      × ((t'.slots i).name ≡ 0)
      × ((j : ℕ) → (j == i) ≡ false → t'.slots j ≡ t.slots j)
      × IsTable sizes t' (i ∷ free)
dncancel-Frees sizes t free i v hi lt named =
    let r : Request = record { name = 0; notify = t.next } in
    (
      freed t i,
      dncancel-freed t (t.slots i).name i named hi refl,
      ap (λ x. x.name) (set_slot_self t.slots i r),
      λ j ne. set_slot-other t.slots i j r ne,
      freed-IsTable sizes t i free v hi lt
          (not-has_of_named (sizes t.size_class) t.slots i v.linked named),
    )

abbrev nameless_request : ℕ → ℕ → Request
nameless_request notify name = record { name = name; notify = notify }

taken-freed :
    (t : Table) (r : Request) (j : ℕ)
    → (t.slots t.next).name ≡ 0
    → (freed (taken t t.next r) t.next).slots j ≡ t.slots j
taken-freed t r j nameless =
    let back : Request = record { name = 0; notify = (t.slots t.next).notify } in
    let mid = set_slot t.slots t.next r in
    elim (Bool-cases (j == t.next)) [
      | inl here ↦
          subst (λ k. set_slot mid t.next back k ≡ t.slots k) (sym ((==_iff j t.next).0 here))
            (set_slot_self mid t.next back
              ∙ ap (nameless_request (t.slots t.next).notify) (sym nameless))
      | inr other ↦ set_slot-other mid t.next j back other ∙ set_slot-other t.slots t.next j r other
    ]

-- Where a slot is free in the well-formed table of an active port, `ipc_port_dnrequest` of a
-- name and a send-once right that are not 0 takes it, and `ipc_port_dncancel` of the new
-- request gives back that right and leaves every slot and the head of the free list as they
-- were.
pub dncancel-dnrequest :
    (sizes : ℕ → ℕ) (t : Table) (free : List ℕ) (name soright : ℕ)
    → IsTable sizes t free
    → 0 < t.next
    → 0 < name
    → 0 < soright
    → (t' : Table) × (t'' : Table) × (dnrequest (live t) name soright ≡ some (live t', some t.next))
      × (dncancel (live t') name t.next ≡ some (live t'', soright))
      × (t''.next ≡ t.next)
      × ((j : ℕ) → t''.slots j ≡ t.slots j)
dncancel-dnrequest sizes t free name soright v room hn hs =
    let r : Request = record { name = name; notify = soright } in
    let self = set_slot_self t.slots t.next r in
    elim (FreeList-cases (sizes t.size_class) t.slots t.next free v.linked) [
      | inl (full, empty) ↦ absurd (omega arith)
      | inr (rest, is, new, (pos, lt, nameless), tail) ↦ (
        taken t t.next r,
        freed (taken t t.next r) t.next,
        dnrequest-taken t name soright hn hs pos nameless,
        subst
            (λ x.
              dncancel (live (taken t t.next r)) name t.next
              ≡ some (live (freed (taken t t.next r) t.next), x))
            (ap (λ x. x.notify) self)
            (dncancel-freed (taken t t.next r) name t.next hn pos (ap (λ x. x.name) self)),
        refl,
        λ j. taken-freed t r j nameless,
      )
    ]
