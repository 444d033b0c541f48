-- ===== src/Ipc/Requests/Grow.antt =====
-- The growth of the table of dead-name requests.
use nextbsd_kernel.Prelude.{
  ℕ, zero, suc, ◌+◌, ◌<◌, ◌≤◌, ◌≡◌, ◌⊎◌, refl, inl, inr, true, false, not, ◌&&◌, Option, none, some,
  ◌==◌, if◌then◌else◌, ltb, leb, arith, Bool-cases, ==_iff, ==_refl, ap, subst, sym, ◌∙◌,
}
use nextbsd_kernel.Ipc.Right.{assert◌then◌}
use nextbsd_kernel.Ipc.Requests.{
  Table, Requests, Grown, grown, no_space, shortage, Memory, enlarge, same_table, is_next_class,
  installed, install, allocate, plan, Plan, large_enough, too_large, class, find_class, first_class,
  holds_target, class_found, dngrow,
}
use nextbsd_kernel.Ipc.Requests.Free.{live}
use nextbsd_kernel.Ipc.Requests.Enlarge.{IsRequests, Keeps, Larger, enlarge-old, enlarge-none}

-- What `ipc_port_dngrow` leaves: the port as it was, as others left it, or with a larger table.
abbrev pub Installed : (ℕ → ℕ) → Requests → Requests → Type 0
Installed sizes later s' =
    (s' ≡ later)
    ⊎ ((t' : Table) × (s' ≡ record later { table = some t' })
        × (0 < t'.next)
        × IsRequests sizes (some t')
        × Keeps sizes later.table t')

find_class-stops :
    (sizes : ℕ → ℕ) (last fuel target its : ℕ)
    → sizes last ≡ 0
    → its ≤ last
    → last < its + fuel
    → (c : ℕ) × (find_class sizes fuel target its ≡ some c)
unfolding find_class
find_class-stops sizes last zero target its ends le enough = absurd (omega arith)
find_class-stops sizes last (suc fuel) target its ends le enough =
    elim (Bool-cases (not (sizes its == 0) && ltb (sizes its) target)) [
      | inl on ↦
          let more : its < last = elim (Bool-cases (its == last)) [
            | inl here ↦
                let none_here = subst (λ i. sizes i ≡ 0) (sym ((==_iff its last).0 here)) ends in
                ground arith
            | inr other ↦ ground arith
          ] in
          let found =
            find_class-stops sizes last fuel target (suc its) ends (omega arith) (omega arith) in
          rw on found
      | inr stop ↦ rw stop (its, refl)
    ]

plan-total :
    (sizes : ℕ → ℕ) (last fuel : ℕ) (target : Option ℕ) (old : Option Table)
    → sizes last ≡ 0
    → first_class old ≤ last
    → last < first_class old + fuel
    → (p : Plan) × (plan sizes fuel target old ≡ some p)
unfolding plan class_found
plan-total sizes last fuel none old ends le enough = (class (first_class old), refl)
plan-total sizes last fuel (some target) old ends le enough =
    let (c, is) = find_class-stops sizes last fuel target (first_class old) ends le enough in
    elim (Bool-cases (holds_target sizes target old)) [
      | inl large ↦ rw large (large_enough, refl)
      | inr small ↦ rw (small, is) (if sizes c == 0 then too_large else class c, refl)
    ]

-- `usable` and `rising` are what `ipc_table_fill` makes of the classes: those before the last one
-- have room for a request, and each is larger than the one before.
module _ (sizes : ℕ → ℕ) (usable : (i : ℕ) → (sizes i ≡ 0) ⊎ (1 < sizes i))
    (rising : (i : ℕ) → (sizes (i + 1) ≡ 0) ⊎ (sizes i < sizes (i + 1))) where
  enlarge-next :
      (o : Option Table) (its : ℕ) (new : Memory)
      → IsRequests sizes o
      → is_next_class its o ≡ true
      → 0 < sizes its
      → Larger sizes o its (enlarge sizes o its new)
  unfolding is_next_class
  enlarge-next none its new v next pos = elim (usable its) [
    | inl zero_size ↦ absurd (omega arith)
    | inr lt ↦ enlarge-none sizes its new lt
  ]
  enlarge-next (some t) its new v next pos =
      let at = (==_iff (t.size_class + 1) its).0 next in
      elim (rising t.size_class) [
        | inl last ↦ absurd (omega (arith, subst (λ i. sizes i ≡ 0) at last, pos))
        | inr lt ↦
            enlarge-old sizes t its new v.1.0 v.0 (subst (λ i. sizes t.size_class < sizes i) at lt)
              v.1.1
      ]

  installed-Installed :
      (later : Requests) (its : ℕ) (result : Option Table)
      → Larger sizes later.table its result
      → (s' : Requests) × (installed later result ≡ some (s', grown)) × Installed sizes later s'
  unfolding installed
  installed-Installed later its result (t', is, class_is, room, v, keeps) =
      rw is (record later { table = some t' }, refl, inr (t', refl, room, v, keeps))

  install-Installed :
      (old : Option Table) (its : ℕ) (later : Requests) (new : Memory)
      → IsRequests sizes later.table
      → 0 < sizes its
      → (s' : Requests) × (install sizes old its later new ≡ some (s', grown))
        × Installed sizes later s'
  unfolding install
  install-Installed old its later new v pos =
      elim (Bool-cases
        (later.active && same_table old later.table && is_next_class its later.table)) [
          | inl go ↦
              let done =
                installed-Installed later its (enlarge sizes later.table its new)
                  (enlarge-next later.table its new v (ground arith) pos) in
              rw go done
          | inr stay ↦ rw stay (later, refl, inl refl)
        ]

  allocate-Installed :
      (s later : Requests) (memory : Option Memory) (p : Plan)
      → IsRequests sizes later.table
      → (s' : Requests) × (k : Grown) × (allocate sizes s memory later (some p) ≡ some (s', k))
        × ((s' ≡ s) ⊎ Installed sizes later s')
  unfolding allocate
  allocate-Installed s later memory large_enough v = (s, grown, refl, inl refl)
  allocate-Installed s later memory too_large v = (s, no_space, refl, inl refl)
  allocate-Installed s later none (class its) v = (later, shortage, refl, inr (inl refl))
  allocate-Installed s later (some new) (class its) v = elim (Bool-cases (sizes its == 0)) [
    | inl last ↦ rw last (later, shortage, refl, inr (inl refl))
    | inr more ↦
        let (s', is, done) = install-Installed s.table its later new v (ground arith) in
        rw more (s', grown, is, inr done)
  ]

  -- `ipc_port_dngrow` on an active port, for any target, whatever the allocation gives and
  -- whatever others do while the port is not locked, if what they leave is a well-formed table
  -- or none: no assertion fails, and the search for a class ends (fuel above the index of the
  -- last class, of size 0, is enough). The table is left as it was or as the others left it, or
  -- a table is installed that keeps every slot of theirs, whose free list holds just the slots
  -- without a request, and in which a slot is free. The classes before the last have room for a
  -- request, and each is larger than the one before.
  pub dngrow-Installed :
      (last fuel : ℕ) (target : Option ℕ) (s later : Requests) (memory : Option Memory)
      → s.active ≡ true
      → sizes last ≡ 0
      → first_class s.table ≤ last
      → last < fuel
      → IsRequests sizes later.table
      → (s' : Requests) × (k : Grown) × (dngrow sizes fuel target s memory later ≡ some (s', k))
        × ((s' ≡ s) ⊎ Installed sizes later s')
  unfolding dngrow
  dngrow-Installed last fuel target s later memory on ends le enough v =
      let (p, is) = plan-total sizes last fuel target s.table ends le (omega arith) in
      let (s', k, run, done) = allocate-Installed s later memory p v in
      (
        s',
        k,
        ap (λ b. assert b then allocate sizes s memory later (plan sizes fuel target s.table)) on
            ∙ ap (allocate sizes s memory later) is
            ∙ run,
        done,
      )

  -- `ipc_port_dngrow` of an active port with ITS_SIZE_NONE and a well-formed table, when there
  -- is a next class and memory for it and nobody else comes in between, installs a table of that
  -- class that keeps every slot of the old one and has a free slot. The classes before the last
  -- have room for a request, and each is larger than the one before.
  pub dngrow-Larger :
      (fuel : ℕ) (t : Table) (new : Memory)
      → IsRequests sizes (some t)
      → 0 < sizes (t.size_class + 1)
      → (t' : Table) × (dngrow sizes fuel none (live t) (some new) (live t) ≡ some (live t', grown))
        × (t'.size_class ≡ t.size_class + 1)
        × (0 < t'.next)
        × IsRequests sizes (some t')
        × Keeps sizes (some t) t'
  unfolding dngrow plan first_class allocate install same_table is_next_class installed
  dngrow-Larger fuel t new v pos =
      let (t', is, class_is, room, w, keeps) =
        enlarge-next (some t) (t.size_class + 1) new v (==_refl (t.size_class + 1)) pos in
      let sized : (sizes (t.size_class + 1) == 0) ≡ false = ground arith in
      (
        t',
        rw (sized, ==_refl t.address, ==_refl (t.size_class + 1), is) refl,
        class_is,
        room,
        w,
        keeps,
      )

-- `ipc_port_dngrow` of an active port with a target above the size of its table, where the
-- first class that reaches the target is beyond the next one, and with memory for a table of
-- that class: it returns KERN_SUCCESS, and the table of the port is as it was.
pub dngrow-stays :
    (sizes : ℕ → ℕ) (fuel target c : ℕ) (t : Table) (new : Memory)
    → find_class sizes fuel target (t.size_class + 1) ≡ some c
    → sizes t.size_class < target
    → t.size_class + 1 < c
    → 0 < sizes c
    → dngrow sizes fuel (some target) (live t) (some new) (live t) ≡ some (live t, grown)
unfolding dngrow plan first_class class_found holds_target allocate install same_table is_next_class
dngrow-stays sizes fuel target c t new is small skips pos =
    let short : leb target (sizes t.size_class) ≡ false = ground arith in
    let sized : (sizes c == 0) ≡ false = ground arith in
    let other : (t.size_class + 1 == c) ≡ false = ground arith in
    rw (short, is, sized, sized, ==_refl t.address, other) refl
