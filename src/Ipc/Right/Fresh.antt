-- ===== src/Ipc/Right/Fresh.antt =====
-- A send right that is copied out into a fresh entry, and the user references that it has then.
use nextbsd_kernel.Prelude.{◌<◌, ◌≡◌, refl, ap, ◌∙◌, Bool, true, false, none, some, List, lt→ltb}
use nextbsd_kernel.Ipc.Right.{
  Port, Notice, Scene, success, type_is_none, type_is_send, type_is_send_once, type_is_dead_name,
  dealloc_send, dealloc,
}
use nextbsd_kernel.Ipc.Right.Transfer.{port_send, copyout_send, copyout}
use nextbsd_kernel.Ipc.Right.Valid.{bits_of, naming, send_bits, right_check-alive}
use nextbsd_kernel.Ipc.Right.Copyin.{entry}

-- The entry that `ipc_entry_get` makes has one reference. A send right that `ipc_right_copyout`
-- puts into it has two user references: `ipc_right_dealloc` succeeds, and the entry keeps its send
-- right.
pub copyout-dealloc_keeps :
    (present : Bool) (p : Port) (notices : List Notice)
    → p.active ≡ true
    → 0 < p.srights
    → (s t : Scene) × (copyout port_send
          (entry (bits_of false false false false) 1 none true false present p notices)
        ≡ some s)
      × (dealloc s ≡ some (t, success))
      × (t.bits.send ≡ true)
      × (t.port.srights ≡ p.srights)
unfolding copyout copyout_send type_is_none dealloc dealloc_send type_is_dead_name type_is_send_once
    type_is_send
copyout-dealloc_keeps present p notices act right =
    let some_right = lt→ltb 0 p.srights right in
    (
      naming send_bits true 2 none present p notices,
      naming send_bits true 1 none present p notices,
      rw (act, some_right) refl,
      ap dealloc_send (right_check-alive (naming send_bits true 2 none present p notices) refl act)
          ∙ (rw some_right refl),
      refl,
      refl,
    )
