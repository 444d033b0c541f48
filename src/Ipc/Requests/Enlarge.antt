-- ===== src/Ipc/Requests/Enlarge.antt =====
-- The larger table that `ipc_port_dngrow` makes: the old slots, and a free list that goes on
-- through the new ones.
use nextbsd_kernel.Prelude.{
  ℕ, zero, suc, ◌+◌, ◌-◌, ◌<◌, ◌≤◌, ◌≡◌, refl, inl, inr, true, false, Option, none, some, List, [],
  ◌∷◌, ◌==◌, ltb, lt→ltb, ltb→lt, arith, Bool-cases, ap, sym, ◌∙◌,
}
use nextbsd_kernel.Ipc.Hash.Chain.{has}
use nextbsd_kernel.Ipc.Requests.{
  Request, Table, set_slot, Memory, free_new, old_size, old_next, copied_slots, enlarge,
}
use nextbsd_kernel.Ipc.Requests.Free.{
  FreeList, IsTable, nil, cons, set_slot_self, set_slot-other, FreeList-set_slot,
}

free_new-below :
    (n i free : ℕ) (slots : ℕ → Request) (j : ℕ) → j < i → (free_new n i free slots).1 j ≡ slots j
unfolding free_new
free_new-below zero i free slots j lt = refl
free_new-below (suc n) i free slots j lt =
    let r : Request = record { name = 0; notify = free } in
    free_new-below n (suc i) i (set_slot slots i r) j (omega arith)
    ∙ set_slot-other slots i j r (ground arith)

free_new-FreeList :
    (n i free size : ℕ) (slots : ℕ → Request) (is : List ℕ)
    → 0 < i
    → i + n ≡ size
    → FreeList size slots free is
    → ((j : ℕ) → i ≤ j → has j is ≡ false)
    → (js : List ℕ) × FreeList size (free_new n i free slots).1 (free_new n i free slots).0 js
      × ((j : ℕ) → has j is ≡ true → has j js ≡ true)
      × ((j : ℕ) → i ≤ j → j < size → has j js ≡ true)
unfolding free_new
free_new-FreeList zero i free size slots is pos sum list low =
    (is, list, λ j h. h, λ j le lt. absurd (omega arith))
free_new-FreeList (suc n) i free size slots is pos sum list low =
    let r : Request = record { name = 0; notify = free } in
    let self = set_slot_self slots i r in
    let longer : FreeList size (set_slot slots i r) i (i ∷ is) =
      cons (low i (omega arith)) (pos, omega arith, rw self refl)
        (rw self (FreeList-set_slot size slots i r (low i (omega arith)) list)) in
    let (js, l, old, new) =
      free_new-FreeList n (suc i) i size (set_slot slots i r) (i ∷ is) (omega arith) (omega arith)
        longer (λ j le. ground (arith, low j)) in
    (
      js,
      l,
      λ j h. old j (ground arith),
      λ j le lt. elim (Bool-cases (j == i)) [
        | inl here ↦ old j (ground arith)
        | inr other ↦ new j (ground arith) lt
      ],
    )

-- The table of a port holds requests in a well-formed way, if there is a table.
abbrev pub IsRequests : (ℕ → ℕ) → Option Table → Type 0
IsRequests sizes none = Unit
IsRequests sizes (some t) = (0 < sizes t.size_class) × ((free : List ℕ) × IsTable sizes t free)

-- Every slot of the table is a slot of the other, with the same content.
abbrev pub Keeps : (ℕ → ℕ) → Option Table → Table → Type 0
Keeps sizes none t' = Unit
Keeps sizes (some t) t' =
    (j : ℕ) → 0 < j → j < sizes t.size_class → (j < sizes t'.size_class) × (t'.slots j ≡ t.slots j)

FreeList-below :
    (size : ℕ) (slots : ℕ → Request) (p : ℕ) (is : List ℕ) (j : ℕ)
    → FreeList size slots p is
    → size ≤ j
    → has j is ≡ false
FreeList-below size slots p is j nil le = refl
FreeList-below size slots p is j (cons {is = xs} new inside rest) le =
    let out = FreeList-below size slots (slots p).notify xs j rest le in ground arith

FreeList-grow :
    (size bigger : ℕ) (f g : ℕ → Request) (p : ℕ) (is : List ℕ)
    → FreeList size f p is
    → size ≤ bigger
    → ((j : ℕ) → 0 < j → j < size → g j ≡ f j)
    → FreeList bigger g p is
FreeList-grow size bigger f g p is nil le same = nil
FreeList-grow size bigger f g p is (cons {is = xs} new inside rest) le same =
    let at = same p inside.0 inside.1 in
    cons new (inside.0, omega arith, rw at inside.2)
      (rw at (FreeList-grow size bigger f g (f p).notify xs rest le same))

copied_slots-old :
    (sizes : ℕ → ℕ) (t : Table) (new : Memory) (j : ℕ)
    → 0 < j
    → j < sizes t.size_class
    → copied_slots sizes (some t) new j ≡ t.slots j
unfolding copied_slots
copied_slots-old sizes t new j pos lt = ground arith

-- What a larger table is: well formed, with a free slot, and with every request of the old one.
abbrev pub Larger : (ℕ → ℕ) → Option Table → ℕ → Option Table → Type 0
Larger sizes old its result =
    (t' : Table) × (result ≡ some t')
    × (t'.size_class ≡ its)
    × (0 < t'.next)
    × IsRequests sizes (some t')
    × Keeps sizes old t'

free_new-pos :
    (n i free : ℕ) (slots : ℕ → Request) → 0 < i → 0 < n → 0 < (free_new n i free slots).0
unfolding free_new
free_new-pos zero i free slots pos some_new = absurd (omega arith)
free_new-pos (suc zero) i free slots pos some_new = pos
free_new-pos (suc (suc n)) i free slots pos some_new =
    free_new-pos (suc n) (suc i) i (set_slot slots i (record { name = 0; notify = free }))
      (omega arith) (omega arith)

pub enlarge-old :
    (sizes : ℕ → ℕ) (t : Table) (its : ℕ) (new : Memory) (free : List ℕ)
    → 0 < sizes t.size_class
    → sizes t.size_class < sizes its
    → IsTable sizes t free
    → Larger sizes (some t) its (enlarge sizes (some t) its new)
unfolding enlarge old_size old_next
enlarge-old sizes t its new free pos lt v =
    let osize = sizes t.size_class in
    let slots = copied_slots sizes (some t) new in
    let made = free_new (sizes its - osize) osize t.next slots in
    let t' : Table = record {
      address = new.address;
      size_class = its;
      next = made.0;
      slots = made.1;
    } in
    let copied = copied_slots-old sizes t new in
    let (js, list, old, added) =
      free_new-FreeList (sizes its - osize) osize t.next (sizes its) slots free pos (omega arith)
        (FreeList-grow osize (sizes its) t.slots slots t.next free v.linked (omega arith) copied)
        (λ j le. FreeList-below osize t.slots t.next free j v.linked le) in
    let kept : (j : ℕ) → 0 < j → j < osize → made.1 j ≡ t.slots j =
      λ j h l. free_new-below (sizes its - osize) osize t.next slots j l ∙ copied j h l in
    (
      t',
      rw (lt→ltb osize (sizes its) lt) refl,
      refl,
      free_new-pos (sizes its - osize) osize t.next slots pos (omega arith),
      (
        omega arith,
        (
          js,
          record {
            linked = list;
            listed = λ j h l nameless. elim (Bool-cases (ltb j osize)) [
              | inl low ↦
                  let lo = ltb→lt j osize low in
                  old j (v.listed j h lo (ap (λ x. x.name) (sym (kept j h lo)) ∙ nameless))
              | inr high ↦ added j (ground arith) l
            ];
          },
        ),
      ),
      λ j h l. (omega arith, kept j h l),
    )

pub enlarge-none :
    (sizes : ℕ → ℕ) (its : ℕ) (new : Memory)
    → 1 < sizes its
    → Larger sizes none its (enlarge sizes none its new)
unfolding enlarge old_size old_next
enlarge-none sizes its new lt =
    let slots = copied_slots sizes none new in
    let made = free_new (sizes its - 1) 1 0 slots in
    let t' : Table = record {
      address = new.address;
      size_class = its;
      next = made.0;
      slots = made.1;
    } in
    let (js, list, old, added) =
      free_new-FreeList (sizes its - 1) 1 0 (sizes its) slots [] (omega arith) (omega arith) nil
        (λ j le. refl) in
    (
      t',
      rw (lt→ltb 1 (sizes its) lt) refl,
      refl,
      free_new-pos (sizes its - 1) 1 0 slots (omega arith) (omega arith),
      (
        omega arith,
        (js, record { linked = list; listed = λ j h l nameless. added j (omega arith) l }),
      ),
      tt,
    )
