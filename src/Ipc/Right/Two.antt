-- ===== src/Ipc/Right/Two.antt =====
-- `ipc_right_copyin_two` of ipc_right.c, which moves two send rights at once.
use nextbsd_kernel.Prelude.{
  ℕ, ◌+◌, ◌-◌, ◌*◌, ◌/◌, ◌%◌, ◌^◌, ◌<◌, ◌≡◌, refl, ap, ◌∙◌, Bool, true, false, not, ◌&&◌, ◌||◌,
  Option, none, some, List, ◌==◌, if◌then◌else◌, ltb, lt→ltb, arith,
}
use nextbsd_kernel.Ipc.Right.{
  Bits, Port, Notice, Scene, assert◌then◌, type_is_send, type_is_send_receive, type_is_send_once,
  type_is_dead_name, right_check, dncancel, dealloc, invalid_right,
}
use nextbsd_kernel.Ipc.Right.Transfer.{Copied, copied, refused}
use nextbsd_kernel.Ipc.Right.Valid.{bit, bits_of, naming, right_check-alive}

-- The bits of the type in `ie_bits`, from bit 16 on, as a number.
abbrev pub type_value : Bits → ℕ
type_value b =
    (bit b.send
      + 2 * bit b.receive
      + 4 * bit b.send_once
      + 8 * bit b.port_set
      + 16 * bit b.dead_name)
    * 2 ^ 16

-- The type, IE_BITS_TYPE, of a value of `ie_bits`.
unfoldable pub type_of : ℕ → Bits
type_of v = record {
  send = v / 2 ^ 16 % 2 == 1;
  receive = v / 2 ^ 17 % 2 == 1;
  send_once = v / 2 ^ 18 % 2 == 1;
  port_set = v / 2 ^ 19 % 2 == 1;
  dead_name = v / 2 ^ 20 % 2 == 1;
}

-- `ie_bits = bits - 2`, where the field IE_BITS_UREFS and the bits above the type are 0: this
-- kernel writes there only for dead names, and an entry with a send right has none of them set.
unfoldable pub minus_two : Bits → Bits
minus_two b = type_of (type_value b - 2)

-- The two references of the port and the two send rights of the caller.
unfoldable pub give_two : Scene → Scene
give_two s = record s {
  port = record s.port { srights = s.port.srights + 2; refs = s.port.refs + 2 };
}

-- The case of two user references.
unfoldable pub move_both : Scene → Option (Scene × Copied)
move_both s =
    let bits = record s.bits { send = false } in
    if s.bits.receive
    then assert s.port.receiver_here && type_is_send_receive s.bits
    then some (
      record s {
        bits = bits;
        port = record s.port { srights = s.port.srights + 1; refs = s.port.refs + 2 };
      },
      copied none,
    )
    else assert type_is_send s.bits && s.hashed
    then let (t, dn) = dncancel s in
      some (
        record t {
          bits = bits;
          hashed = false;
          attached = false;
          port = record s.port { srights = s.port.srights + 1; refs = s.port.refs + 1 };
        },
        copied dn,
      )

unfoldable pub two_checked : Option (Scene × Bool) → Option (Scene × Copied)
two_checked none = none
two_checked (some (s, true)) = some (s, refused)
two_checked (some (s, false)) =
    assert ltb 0 s.port.srights
    then if s.refs == 2
    then move_both s
    else some (record (give_two s) { bits = minus_two s.bits }, copied none)

-- `ipc_right_copyin_two`
unfoldable pub copyin_two : Scene → Option (Scene × Copied)
copyin_two s =
    if not s.bits.send || ltb s.refs 2 then some (s, refused) else two_checked (right_check s)

-- An entry with a send right, and with the receive right of the port or without.
abbrev pub sender : Bool → ℕ → Option ℕ → Bool → Port → List Notice → Scene
sender receiving refs dn present p notices =
    naming (bits_of true receiving false false) (not receiving) refs dn present p notices

-- What a copyin of two rights strands: the references, the port and a count of send rights are
-- there, the type is that of the receive right alone.
abbrev pub Stranded : Bool → ℕ → Port → Scene → Type 0
Stranded receiving refs p t =
    (t.bits ≡ bits_of false receiving false false)
    × (t.refs ≡ refs)
    × (t.attached ≡ true)
    × (t.hashed ≡ not receiving)
    × (t.port.srights ≡ p.srights + 2)
    × (t.port.refs ≡ p.refs + 2)
    × (dealloc t ≡ some (t, invalid_right))

two-Stranded :
    (receiving : Bool) (refs : ℕ) (dn : Option ℕ) (present : Bool) (p : Port)
    (notices : List Notice)
    → Stranded receiving refs p (record (give_two (sender receiving refs dn present p notices)) {
      bits = minus_two (bits_of true receiving false false);
    })
unfolding give_two minus_two type_of dealloc type_is_send type_is_send_receive type_is_send_once
    type_is_dead_name
two-Stranded true refs dn present p notices = (refl, refl, refl, refl, refl, refl, refl)
two-Stranded false refs dn present p notices = (refl, refl, refl, refl, refl, refl, refl)

-- `ipc_right_copyin_two` of an entry with a send right, or with a send and the receive right, to an
-- active port that counts a send right, where the entry has three or more user references and the
-- field IE_BITS_UREFS of its bits is 0, hands out two send rights with their references and takes
-- no user reference: the entry keeps them all, its port and its place in the reverse hash table,
-- and its type loses the send right. `ipc_right_dealloc` of it then answers KERN_INVALID_RIGHT and
-- does nothing.
pub copyin_two-strands :
    (receiving : Bool) (refs : ℕ) (dn : Option ℕ) (present : Bool) (p : Port)
    (notices : List Notice)
    → p.active ≡ true
    → 0 < p.srights
    → 2 < refs
    → (t : Scene) × (copyin_two (sender receiving refs dn present p notices)
        ≡ some (t, copied none))
      × Stranded receiving refs p t
unfolding copyin_two two_checked
copyin_two-strands receiving refs dn present p notices act sends more =
    let s = sender receiving refs dn present p notices in
    let enough : ltb refs 2 ≡ false = ground arith in
    let several : (refs == 2) ≡ false = ground arith in
    let start = ap (λ b. if b then some (s, refused) else two_checked (right_check s)) enough in
    (
      record (give_two s) { bits = minus_two s.bits },
      start
          ∙ ap two_checked (right_check-alive s refl act)
          ∙ rw (lt→ltb 0 p.srights sends, several) refl,
      two-Stranded receiving refs dn present p notices,
    )
