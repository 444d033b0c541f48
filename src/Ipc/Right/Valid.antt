-- ===== src/Ipc/Right/Valid.antt =====
-- The scenes in which the operations on rights are called: the kinds of entries, and the counts of
-- the port. `n`, `m` and `r` are the send rights, the send-once rights and the references of the
-- port that are held elsewhere.
use nextbsd_kernel.Prelude.{
  ℕ, ◌+◌, ◌<◌, ◌≡◌, ◌⊎◌, refl, inl, inr, Bool, true, false, not, Option, none, some, List, ◌==◌,
  if◌then◌else◌, lt→ltb, arith, Bool-cases,
}
use nextbsd_kernel.Ipc.Right.{
  Bits, Port, Notice, Scene, drop_request, bury, right_check, type_is_send, type_is_send_once,
  assert◌then◌,
}

-- The number of a bit.
abbrev pub bit : Bool → ℕ
bit true = 1
bit false = 0

abbrev pub bits_of : Bool → Bool → Bool → Bool → Bits
bits_of send receive send_once dead_name = record {
  send = send;
  receive = receive;
  send_once = send_once;
  port_set = false;
  dead_name = dead_name;
}

-- The entry is of a kind that the space keeps, is referenced, and has its port and its place in the
-- reverse hash table as its kind demands.
pub data Kind : Bits → ℕ → Option ℕ → Bool → Bool → Port → Type 0 where
  empty :
      {refs : ℕ} {p : Port}
      → 0 < refs
      → Kind (bits_of false false false false) refs none false false p
  send :
      {refs : ℕ} {dn : Option ℕ} {p : Port}
      → 0 < refs
      → Kind (bits_of true false false false) refs dn true true p
  receive :
      {refs : ℕ} {dn : Option ℕ} {p : Port}
      → 0 < refs
      → p.active ≡ true
      → p.receiver_here ≡ true
      → Kind (bits_of false true false false) refs dn true false p
  send_receive :
      {refs : ℕ} {dn : Option ℕ} {p : Port}
      → 0 < refs
      → p.active ≡ true
      → p.receiver_here ≡ true
      → Kind (bits_of true true false false) refs dn true false p
  send_once :
      {refs : ℕ} {dn : Option ℕ} {p : Port}
      → refs ≡ 1
      → Kind (bits_of false false true false) refs dn true false p
  dead_name :
      {refs : ℕ} {p : Port}
      → 0 < refs
      → Kind (bits_of false false false true) refs none false false p

abbrev pub HasKind : Scene → Type 0
HasKind s = Kind s.bits s.refs s.request s.attached s.hashed s.port

-- The port's references are those of the entry and `r` others; while the port is active, so are its
-- send rights and send-once rights.
abbrev pub Counts : Scene → ℕ → ℕ → ℕ → Type 0
Counts s n m r =
    (s.port.refs ≡ bit s.attached + r)
    × (s.port.active ≡ true → s.port.srights ≡ bit s.bits.send + n)
    × (s.port.active ≡ true → s.port.sorights ≡ bit s.bits.send_once + m)

-- An entry of some bits that names its port.
abbrev pub naming : Bits → Bool → ℕ → Option ℕ → Bool → Port → List Notice → Scene
naming b hashed refs dn present p notices = record {
  bits = b;
  refs = refs;
  request = dn;
  attached = true;
  hashed = hashed;
  present = present;
  port = p;
  notices = notices;
}

abbrev pub send_bits : Bits
send_bits = bits_of true false false false

abbrev pub once_bits : Bits
once_bits = bits_of false false true false

-- A right whose port has died: the entry becomes a dead name and gives up its reference.
abbrev pub Buried : ℕ → ℕ → ℕ → Scene → Type 0
Buried n m r t = (t.bits ≡ bits_of false false false true) × HasKind t × Counts t n m r

pub bury-Buried :
    (once : Bool) (refs : ℕ) (dn : Option ℕ) (present : Bool) (p : Port) (notices : List Notice)
    (n m r : ℕ)
    → 0 < refs
    → p.active ≡ false
    → p.refs ≡ 1 + r
    → Buried n m r
        (bury (naming (if once then once_bits else send_bits) (not once) refs dn present p notices))
unfolding bury drop_request
bury-Buried true refs none present p notices n m r pos dead held =
    (refl, dead_name pos, (omega (arith, held), λ a. cc, λ a. cc))
bury-Buried false refs none present p notices n m r pos dead held =
    (refl, dead_name pos, (omega (arith, held), λ a. cc, λ a. cc))
bury-Buried true refs (some so) present p notices n m r pos dead held =
    (refl, dead_name (omega arith), (omega (arith, held), λ a. cc, λ a. cc))
bury-Buried false refs (some so) present p notices n m r pos dead held =
    (refl, dead_name (omega arith), (omega (arith, held), λ a. cc, λ a. cc))

pub right_check-alive :
    (s : Scene) → s.attached ≡ true → s.port.active ≡ true → right_check s ≡ some (s, false)
unfolding right_check
right_check-alive s there alive = rw (there, alive) refl

pub right_check-dead :
    (once : Bool) (refs : ℕ) (dn : Option ℕ) (present : Bool) (p : Port) (notices : List Notice)
    → 0 < refs
    → (once ≡ true → refs ≡ 1)
    → p.active ≡ false
    → (let s =
          naming (if once then once_bits else send_bits) (not once) refs dn present p notices in
        right_check s ≡ some (bury s, true))
unfolding right_check type_is_send type_is_send_once
right_check-dead true refs dn present p notices pos single dead =
    let one : (refs == 1) ≡ true = ground (arith, single refl) in
    let some_refs = lt→ltb 0 refs pos in rw (dead, some_refs, one) refl
right_check-dead false refs dn present p notices pos single dead =
    let some_refs = lt→ltb 0 refs pos in rw (dead, some_refs) refl

-- `ipc_right_check` on a send or a send-once right fails no assertion: it finds the port active and
-- changes nothing, or it makes the entry a dead name, whose reference to the port is dropped.
pub right_check-cases :
    (once : Bool) (refs : ℕ) (dn : Option ℕ) (present : Bool) (p : Port) (notices : List Notice)
    (n m r : ℕ)
    → 0 < refs
    → (once ≡ true → refs ≡ 1)
    → p.refs ≡ 1 + r
    → (let s =
          naming (if once then once_bits else send_bits) (not once) refs dn present p notices in
        ((p.active ≡ true) × (right_check s ≡ some (s, false)))
        ⊎ ((p.active ≡ false) × (t : Scene) × (right_check s ≡ some (t, true)) × Buried n m r t))
right_check-cases once refs dn present p notices n m r pos single held =
    let s = naming (if once then once_bits else send_bits) (not once) refs dn present p notices in
    elim (Bool-cases p.active) [
      | inl alive ↦ inl (alive, right_check-alive s refl alive)
      | inr dead ↦ inr (
        dead,
        bury s,
        right_check-dead once refs dn present p notices pos single dead,
        bury-Buried once refs dn present p notices n m r pos dead held,
      )
    ]
