-- ===== src/Ipc/Right/Remove/Destroy.antt =====
-- `ipc_right_destroy` over all kinds of entries.
use nextbsd_kernel.Prelude.{
  ℕ, ◌+◌, ◌-◌, ◌≡◌, refl, sym, ap, subst, ◌∙◌, inl, inr, Bool, true, false, not, ◌&&◌, Option, none,
  some, List, [], ◌++◌, if◌then◌else◌, arith, Bool-cases,
}
use nextbsd_kernel.Ipc.Right.{
  Bits, Port, Notice, Scene, assert◌then◌, type_is_none, type_is_send, type_is_receive,
  type_is_send_receive, type_is_send_once, type_is_dead_name, ip_release, dncancel, notify_deleted,
  notify_no_senders, entry_dealloc,
}
use nextbsd_kernel.Ipc.Right.Valid.{
  bit, Kind, empty, send, receive, send_receive, send_once, dead_name, HasKind, Counts,
}
use nextbsd_kernel.Ipc.Right.Copyin.{entry}
use nextbsd_kernel.Ipc.Right.Dealloc.{senders_notice, deleted_notice, notified}
use nextbsd_kernel.Ipc.Right.Remove.{
  drop_if_send, leave_port, tell, release_right, release_dealloced, destroy_right, is_port_right,
  destroy,
}
use nextbsd_kernel.Ipc.Right.Remove.Leave.{
  port_notice, send_notice, Left, drop_if_send-Dropped, Leaving, leave_port-Left,
}

-- What a destruction leaves: the entry is gone, the rights and the reference it had are gone from
-- the port, and the notifications that were due are sent.
abbrev pub Destroyed : Option ℕ → Scene → ℕ → ℕ → ℕ → List Notice → Option Scene → Type 0
Destroyed backup s n m r told result =
    (t : Scene) × (result ≡ some t)
    × (t.present ≡ false)
    × (t.notices ≡ told)
    × Left s.bits backup t n m r

abbrev pub all_notices : Option ℕ → Scene → ℕ → List Notice
all_notices backup s n =
    ((s.notices ++ port_notice s.bits backup) ++ send_notice s.bits n s.port)
    ++ deleted_notice s.request

abbrev tell_left : Option ℕ → Option ℕ → ℕ → Scene → Scene
tell_left ns dn mscount s = notify_deleted dn (notify_no_senders ns mscount s)

-- `Left` speaks of the port alone.
Left-port :
    (b : Bits) (backup : Option ℕ) (s t : Scene) (n m r : ℕ)
    → t.port ≡ s.port
    → Left b backup s n m r
    → Left b backup t n m r
Left-port b backup s t n m r same left =
    subst (λ p. Left b backup (record s { port = p }) n m r) (sym same) left

tell-Destroyed :
    (backup ns dn : Option ℕ) (mscount : ℕ) (s : Scene) (n m r : ℕ)
    → s.present ≡ false
    → Leaving s n m r
    → Destroyed backup s n m r
        (((s.notices ++ port_notice s.bits backup) ++ senders_notice 0 ns mscount)
          ++ deleted_notice dn)
        (tell ns dn mscount (leave_port backup s))
unfolding tell
tell-Destroyed backup ns dn mscount s n m r gone v =
    let (t, is, present, told, left) = leave_port-Left backup s n m r v in
    let (says, port, stays) = notified n m r ns dn mscount t in
    (
      tell_left ns dn mscount t,
      rw is refl,
      stays ∙ present ∙ gone,
      says ∙ ap (λ l. (l ++ senders_notice 0 ns mscount) ++ deleted_notice dn) told,
      Left-port s.bits backup t (tell_left ns dn mscount t) n m r port left,
    )

-- The entry of an active port, out of the reverse hash table.
record Alive (s : Scene) (n m r : ℕ) : Type 0 where
  act : s.port.active ≡ true
  held : s.port.refs ≡ 1 + r
  sends : s.port.srights ≡ bit s.bits.send + n
  onces : s.port.sorights ≡ bit s.bits.send_once + m
  here : s.port.receiver_here ≡ s.bits.receive
  single : s.bits.receive ≡ true → s.bits.send_once ≡ false

-- The scene once the entry has left the space.
abbrev unlisted : Scene → Scene
unlisted s = record s { request = none; attached = false; present = false; refs = s.refs - 1 }

destroy_right-run :
    (backup : Option ℕ) (s : Scene)
    → s.hashed ≡ false
    → s.port.active ≡ true
    → destroy_right backup s
      ≡ release_right backup s.request s.port.mscount (drop_if_send (unlisted s))
unfolding destroy_right release_dealloced entry_dealloc dncancel
destroy_right-run backup s loose act =
    (ap
      (λ b.
        if not b
        then (assert not s.bits.receive
            then entry_dealloc (record (ip_release s) { request = none; attached = false }))
        else release_dealloced backup s.request
            (entry_dealloc (record s { request = none; attached = false })))
      act)
    ∙ ap (λ b. release_dealloced backup s.request (assert not b then some (unlisted s))) loose

drop_if_send-none : (s : Scene) → s.bits.send ≡ false → drop_if_send s ≡ some (s, none)
unfolding drop_if_send
drop_if_send-none s has_none = rw has_none refl

destroy_right-Alive :
    (backup : Option ℕ) (s : Scene) (n m r : ℕ)
    → s.hashed ≡ false
    → Alive s n m r
    → Destroyed backup s n m r (all_notices backup s n) (destroy_right backup s)
unfolding release_right
destroy_right-Alive backup s n m r loose v =
    let u = unlisted s in
    let run = destroy_right-run backup s loose v.act in
    let released = release_right backup s.request s.port.mscount in
    elim (Bool-cases s.bits.send) [
      | inl has ↦
          let (q, ns, is, d) =
            drop_if_send-Dropped u n m r has (v.sends ∙ ap (λ b. bit b + n) has) in
          let (t, done, gone, told, left) =
            tell-Destroyed backup ns s.request s.port.mscount (record u { port = q }) n m r refl
              (record {
                act = d.active_same ∙ v.act;
                held = d.refs_same ∙ v.held;
                sends_left = d.rights;
                onces_left = d.onces_same ∙ v.onces;
                here = d.here_same ∙ v.here;
                single = v.single;
              }) in
          let due : senders_notice 0 ns s.port.mscount ≡ send_notice s.bits n s.port =
            d.due ∙ (rw has refl) in
          (
            t,
            run ∙ ap released is ∙ done,
            gone,
            told
                ∙ ap
                    (λ l.
                      ((s.notices ++ port_notice s.bits backup) ++ l) ++ deleted_notice s.request)
                    due,
            left,
          )
      | inr has_none ↦
          let (t, done, gone, told, left) =
            tell-Destroyed backup none s.request s.port.mscount u n m r refl (record {
              act = v.act;
              held = v.held;
              sends_left = v.sends ∙ ap (λ b. bit b + n) has_none ∙ omega arith;
              onces_left = v.onces;
              here = v.here;
              single = v.single;
            }) in
          let due : [] ≡ send_notice s.bits n s.port = rw has_none refl in
          (
            t,
            run ∙ ap released (drop_if_send-none u has_none) ∙ done,
            gone,
            told
                ∙ ap
                    (λ l.
                      ((s.notices ++ port_notice s.bits backup) ++ l) ++ deleted_notice s.request)
                    due,
            left,
          )
    ]

destroy_right-dead :
    (backup : Option ℕ) (s : Scene) (n m r : ℕ)
    → s.hashed ≡ false
    → s.bits.receive ≡ false
    → s.port.active ≡ false
    → s.port.refs ≡ 1 + r
    → Destroyed backup s n m r s.notices (destroy_right backup s)
unfolding destroy_right entry_dealloc
destroy_right-dead backup s n m r loose sent dead held = (
  unlisted (ip_release s),
  (ap
        (λ b.
          if not b
          then (assert not s.bits.receive
              then entry_dealloc (record (ip_release s) { request = none; attached = false }))
          else (let (t, dn) = dncancel s in
              release_dealloced backup dn (entry_dealloc (record t { attached = false }))))
        dead)
      ∙ ap
          (λ b.
            assert not b
            then entry_dealloc (record (ip_release s) { request = none; attached = false }))
          sent
      ∙ ap (λ b. assert not b then some (unlisted (ip_release s))) loose,
  refl,
  refl,
  rw sent (omega (arith, held), λ a. absurd (cc), λ a. absurd (cc)),
)

-- The notifications of a destruction: none for a dead name or a dead port.
abbrev pub told_by : Option ℕ → Scene → ℕ → List Notice
told_by backup s n = if s.attached && s.port.active then all_notices backup s n else s.notices

right-Destroyed :
    (backup : Option ℕ) (s : Scene) (n m r : ℕ)
    → s.attached ≡ true
    → s.hashed ≡ false
    → (s.port.active ≡ false → s.bits.receive ≡ false)
    → Counts s n m r
    → (s.port.active ≡ true → s.port.receiver_here ≡ s.bits.receive)
    → (s.bits.receive ≡ true → s.bits.send_once ≡ false)
    → Destroyed backup s n m r (told_by backup s n) (destroy_right backup s)
right-Destroyed backup s n m r there loose sent (c, se, o) here single =
    let held = c ∙ ap (λ b. bit b + r) there in
    elim (Bool-cases s.port.active) [
      | inl act ↦
          let says : all_notices backup s n ≡ told_by backup s n = rw (there, act) refl in
          subst (λ l. Destroyed backup s n m r l (destroy_right backup s)) says
            (destroy_right-Alive backup s n m r loose (record {
              act = act;
              held = held;
              sends = se act;
              onces = o act;
              here = here act;
              single = single;
            }))
      | inr dead ↦
          let says : s.notices ≡ told_by backup s n = rw (there, dead) refl in
          subst (λ l. Destroyed backup s n m r l (destroy_right backup s)) says
            (destroy_right-dead backup s n m r loose (sent dead) dead held)
    ]

-- `ipc_right_destroy` of an entry of any kind but an empty one fails no assertion, and the entry is
-- gone from the space. An active port has lost just the rights and the reference that the entry
-- had; with its receive right it dies, or goes to its backup with the reference. Then the
-- notifications are sent that are due: what becomes of the port or of its send-once right, the
-- no-senders request if no send right is left elsewhere, and the dead-name request of the entry.
-- The receiver of an active port is in the space exactly if the entry has the receive right.
pub destroy-Destroyed :
    (backup : Option ℕ) (s : Scene) (n m r : ℕ)
    → HasKind s
    → Counts s n m r
    → type_is_none s.bits ≡ false
    → (s.attached ≡ true → s.port.active ≡ true → s.port.receiver_here ≡ s.bits.receive)
    → Destroyed backup s n m r (told_by backup s n) (destroy backup s)
unfolding destroy is_port_right type_is_none type_is_dead_name type_is_send type_is_receive
    type_is_send_receive type_is_send_once entry_dealloc
destroy-Destroyed backup s n m r k c full here =
    by_kind s.bits s.refs s.request s.attached s.hashed s.present s.port s.notices k c full here
  where
    by_kind :
        (b : Bits) (refs : ℕ) (dn : Option ℕ) (there hashed present : Bool) (p : Port)
        (notices : List Notice)
        → Kind b refs dn there hashed p
        → Counts (entry b refs dn there hashed present p notices) n m r
        → type_is_none b ≡ false
        → (there ≡ true → p.active ≡ true → p.receiver_here ≡ b.receive)
        → (let s = entry b refs dn there hashed present p notices in
            Destroyed backup s n m r (told_by backup s n) (destroy backup s))
    by_kind b refs dn there hashed present p notices (empty more) c full here = absurd (cc)
    by_kind b refs dn there hashed present p notices (dead_name more) (c, se, o) full here =
        let s = entry b refs dn there hashed present p notices in
        (
          unlisted s,
          refl,
          refl,
          refl,
          (omega (arith, c), λ a. omega (arith, se a), λ a. omega (arith, o a)),
        )
    by_kind b refs dn there hashed present p notices (receive more act at) c full here =
        right-Destroyed backup (entry b refs dn there hashed present p notices) n m r refl refl
          (λ dead. cc) c (here refl) (λ e. refl)
    by_kind b refs dn there hashed present p notices (send_receive more act at) c full here =
        right-Destroyed backup (entry b refs dn there hashed present p notices) n m r refl refl
          (λ dead. cc) c (here refl) (λ e. refl)
    by_kind b refs dn there hashed present p notices (send_once one) c full here =
        right-Destroyed backup (entry b refs dn there hashed present p notices) n m r refl refl
          (λ dead. refl) c (here refl) (λ e. cc)
    by_kind b refs dn there hashed present p notices (send more) c full here =
        right-Destroyed backup (entry b refs dn there false present p notices) n m r refl refl
          (λ dead. refl) c (here refl) (λ e. cc)
