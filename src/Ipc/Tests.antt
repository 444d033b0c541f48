-- ===== src/Ipc/Tests.antt =====
-- A reverse hash table of one bucket, the rights of one entry, and tables of dead-name requests.
use nextbsd_kernel.Prelude.{
  ℕ, zero, suc, ◌+◌, ◌∷◌, ◌==◌, inl, inr, ap, ◌<◌, ◌≡◌, ◌⊎◌, refl, true, false, Option, none, some,
  List, [], arith, length,
}
use nextbsd_kernel.Ipc.Hash.{Hash, update, local_hash, lookup, insert, entry_hash_delete}
use nextbsd_kernel.Ipc.Hash.Chain.{nil, IsHash}
use nextbsd_kernel.Ipc.Hash.Lookup.{Finds, lookup-Finds}
use nextbsd_kernel.Ipc.Hash.Insert.{with_entry, insert-IsHash}
use nextbsd_kernel.Ipc.Hash.Removal.{Removes, entry_hash_delete-Removes}
use nextbsd_kernel.Ipc.Right.{Port, Scene, success, invalid_right, dealloc}
use nextbsd_kernel.Ipc.Right.Transfer.{move_send, copyin, port_send, copyout}
use nextbsd_kernel.Ipc.Right.Valid.{bits_of, send, HasKind, Counts, naming, send_bits}
use nextbsd_kernel.Ipc.Right.Dealloc.{Released}
use nextbsd_kernel.Ipc.Right.Release.{can_release, dealloc-Released}
use nextbsd_kernel.Ipc.Right.Copyin.{Outcome, entry}
use nextbsd_kernel.Ipc.Right.Fresh.{copyout-dealloc_keeps}
use nextbsd_kernel.Ipc.Right.Copyin.Conserves.{copyin-Outcome}
use nextbsd_kernel.Ipc.Right.Copyout.{Lands, copyout-Lands}
use nextbsd_kernel.Ipc.Requests.{
  Request, Table, Requests, dnrequest, dncancel, Grown, grown, Memory, first_class, find_class,
  dngrow,
}
use nextbsd_kernel.Ipc.Requests.Free.{
  FreeList, IsTable, live, Recorded, dnrequest-Recorded, dncancel-Frees,
}
use nextbsd_kernel.Ipc.Requests.Grow.{Installed, dngrow-Installed, dngrow-stays}

abbrev bare : Hash
bare = record { size = 1; head = λ b. none; link = λ e. none; index = λ e. none }

abbrev no_entries : ℕ → List ℕ
no_entries b = []

bare-IsHash : IsHash bare no_entries
bare-IsHash = record {
  chains = λ b lt. nil;
  indexed = λ b e lt held. cc;
  listed = λ b e at. cc;
  loose = λ e free. refl;
}

abbrev five : Hash
five = insert bare 64 5

abbrev with_five : ℕ → List ℕ
with_five = with_entry no_entries (local_hash 64 1) 5

insert-IsHash_example : IsHash five with_five
insert-IsHash_example = insert-IsHash bare no_entries 64 5 bare-IsHash (omega arith) refl

five-IsHash : IsHash five with_five
five-IsHash = insert-IsHash bare no_entries 64 5 bare-IsHash (omega arith) refl

five_size : five.size ≡ 1
unfolding insert
five_size = refl

five_index : five.index 5 ≡ some (local_hash 64 five.size)
unfolding insert update local_hash
five_index = refl

five_bucket : length (with_five (local_hash 64 five.size)) < 2
unfolding insert local_hash
five_bucket = omega arith

five_allocated : 0 < five.size
unfolding insert
five_allocated = omega arith

abbrev objects : ℕ → Option ℕ
objects e = some 64

lookup-Finds_example :
    Finds objects 64 (with_five (local_hash 64 five.size)) (lookup objects five 2 64)
lookup-Finds_example =
    lookup-Finds objects five with_five 2 64 five-IsHash five_allocated five_bucket

entry_hash_delete-Removes_example :
    Removes five with_five
      (local_hash 64 five.size)
      5
      five-IsHash
      five_index
      (entry_hash_delete five 2 true 5)
entry_hash_delete-Removes_example =
    entry_hash_delete-Removes five with_five (local_hash 64 five.size) 5 2 five-IsHash five_index
      five_bucket

-- A port with two send rights, one of them the entry's, and a no-senders request.
abbrev port : Port
port = record {
  active = true;
  refs = 2;
  srights = 2;
  sorights = 0;
  mscount = 1;
  nsrequest = some 90;
  receiver_here = false;
  destination = none;
}

abbrev sender : Scene
sender = naming send_bits true 2 (some 91) true port []

abbrev last_sender : Scene
last_sender = naming send_bits true 1 (some 91) true port []

sender-Counts : Counts sender 1 0 1
sender-Counts = (refl, λ a. refl, λ a. refl)

sender-HasKind : HasKind sender
sender-HasKind = send (omega arith)

copyin-Outcome_example : Outcome move_send 1 0 1 (copyin move_send false sender)
copyin-Outcome_example = copyin-Outcome move_send false sender 1 0 1 sender-HasKind sender-Counts

copyout-Lands_example :
    Lands port_send sender 0 0 0 (copyout port_send (record sender { attached = true }))
copyout-Lands_example =
    copyout-Lands port_send sender 0 0 0 sender-HasKind (refl, refl) tt refl sender-Counts

dealloc-Released_example :
    ((can_release send_bits ≡ true) × Released sender 1 0 1 (dealloc sender))
    ⊎ ((can_release send_bits ≡ false) × (dealloc sender ≡ some (sender, invalid_right)))
dealloc-Released_example = dealloc-Released sender 1 0 1 sender-HasKind sender-Counts

copyout-dealloc_keeps_example :
    (s t : Scene) × (copyout port_send
        (entry (bits_of false false false false) 1 none true false true port [])
      ≡ some s)
    × (dealloc s ≡ some (t, success))
    × (t.bits.send ≡ true)
    × (t.port.srights ≡ 2)
copyout-dealloc_keeps_example = copyout-dealloc_keeps true port [] refl (omega arith)

-- Three classes of tables, and tables of the first class: one with a free slot, one with a request.
abbrev classes : ℕ → ℕ
classes zero = 2
classes (suc zero) = 4
classes (suc (suc zero)) = 8
classes (suc (suc (suc i))) = 0

classes-usable : (i : ℕ) → (classes i ≡ 0) ⊎ (1 < classes i)
classes-usable zero = inr (omega arith)
classes-usable (suc zero) = inr (omega arith)
classes-usable (suc (suc zero)) = inr (omega arith)
classes-usable (suc (suc (suc i))) = inl refl

classes-rising : (i : ℕ) → (classes (i + 1) ≡ 0) ⊎ (classes i < classes (i + 1))
classes-rising zero = inr (omega arith)
classes-rising (suc zero) = inr (omega arith)
classes-rising (suc (suc i)) =
    let next : suc (suc i) + 1 ≡ suc (suc (suc i)) = omega arith in inl (ap classes next)

abbrev blank : ℕ → Request
blank j = record { name = 0; notify = 0 }

abbrev one_free : Table
one_free = record { address = 100; size_class = 0; next = 1; slots = blank }

abbrev slot_one : List ℕ
slot_one = 1 ∷ []

one_free-IsTable : IsTable classes one_free slot_one
one_free-IsTable = record {
  linked = FreeList.cons refl (omega arith, omega arith, refl) FreeList.nil;
  listed = λ i pos lt nameless. ground arith;
}

abbrev held : Table
held = record {
  address = 100;
  size_class = 0;
  next = 0;
  slots = λ j. record { name = 7; notify = 70 };
}

held-IsTable : IsTable classes held []
held-IsTable = record { linked = FreeList.nil; listed = λ i pos lt nameless. absurd (omega arith) }

abbrev memory : Memory
memory = record { address = 200; slots = blank }

dnrequest-Recorded_example :
    ((slot_one ≡ []) × (dnrequest (live one_free) 7 70 ≡ some (live one_free, none)))
    ⊎ Recorded classes one_free slot_one
        (record { name = 7; notify = 70 })
        (dnrequest (live one_free) 7 70)
dnrequest-Recorded_example =
    dnrequest-Recorded classes one_free slot_one 7 70 one_free-IsTable (omega arith) (omega arith)

dncancel-Frees_example :
    (t' : Table) × (dncancel (live held) 7 1 ≡ some (live t', 70))
    × ((t'.slots 1).name ≡ 0)
    × ((j : ℕ) → (j == 1) ≡ false → t'.slots j ≡ held.slots j)
    × IsTable classes t' slot_one
dncancel-Frees_example =
    dncancel-Frees classes held [] 1 held-IsTable (omega arith) (omega arith) (omega arith)

dngrow-Installed_example :
    (s' : Requests) × (k : Grown) × (dngrow classes 4
        (some 4)
        (live held)
        (some memory)
        (live one_free)
      ≡ some (s', k))
    × ((s' ≡ live held) ⊎ Installed classes (live one_free) s')
dngrow-Installed_example =
    dngrow-Installed classes classes-usable classes-rising 3 4 (some 4) (live held) (live one_free)
      (some memory) refl refl (unfold first_class in omega arith) (omega arith)
      (omega arith, (slot_one, one_free-IsTable))

find_class_eight : find_class classes 4 8 1 ≡ some 2
unfolding find_class
find_class_eight = refl

dngrow-stays_example :
    dngrow classes 4 (some 8) (live held) (some memory) (live held) ≡ some (live held, grown)
dngrow-stays_example =
    dngrow-stays classes 4 8 2 held memory find_class_eight (omega arith) (omega arith)
      (omega arith)
