-- ===== src/Ipc/Port/Destroy.antt =====
-- What `ipc_port_destroy` does to a port and to those who wait for it.
use nextbsd_kernel.Prelude.{
  ℕ, zero, suc, ◌+◌, ◌-◌, ◌≡◌, refl, sym, ap, ◌∙◌, inl, inr, Bool, true, false, not, ◌&&◌, Option,
  none, some, List, [], ◌∷◌, ◌++◌, map, append_assoc, append-nil, ◌==◌, if◌then◌else◌, arith,
  Bool-cases, length, keep, ==_iff,
}
use nextbsd_kernel.Ipc.Right.{assert◌then◌}
use nextbsd_kernel.Ipc.Requests.{Request, Table}
use nextbsd_kernel.Ipc.Port.{
  Deed, wake, destroy_message, dead_name, send_once, port_destroyed, release_once, Dying, deed,
  wake_all, destroy_messages, dnnotify, notify_names, drop_nsrequest, consume_ref, die,
  destroy_backed, destroy, port_clear_receiver, destroy_receive,
}

abbrev at_deeds : Dying → List ℕ → List Deed → Dying
at_deeds p bs l = record p { blocked = bs; deeds = l }

-- All blocked senders wake, in order.
wake_all-lem :
    (p : Dying) (l : List Deed) (ts : List ℕ)
    → wake_all (at_deeds p ts l) ts ≡ at_deeds p [] (l ++ map wake ts)
unfolding wake_all deed
wake_all-lem p l [] = ap (at_deeds p []) (sym (append-nil l))
wake_all-lem p l (t ∷ ts) =
    wake_all-lem p (l ++ wake t ∷ []) ts
    ∙ ap (at_deeds p []) (append_assoc l (wake t ∷ []) (map wake ts))

abbrev at_queue : Dying → List ℕ → ℕ → ℕ → List Deed → Dying
at_queue p ks c r l = record p { messages = ks; msgcount = c; refs = r; deeds = l }

-- All queued messages are destroyed, in order, each with its reference.
destroy_messages-lem :
    (p : Dying) (c r : ℕ) (l : List Deed) (ks : List ℕ)
    → destroy_messages (at_queue p ks (length ks + c) (length ks + r) l) ks
      ≡ at_queue p [] c r (l ++ map destroy_message ks)
unfolding destroy_messages deed
destroy_messages-lem p c r l [] =
    let same_c : 0 + c ≡ c = omega arith in
    let same_r : 0 + r ≡ r = omega arith in rw (same_c, same_r, append-nil l) refl
destroy_messages-lem p c r l (k ∷ ks) =
    let less_c : suc (length ks) + c - 1 ≡ length ks + c = omega arith in
    let less_r : suc (length ks) + r - 1 ≡ length ks + r = omega arith in
    rw (less_c, less_r)
      (destroy_messages-lem p c r (l ++ destroy_message k ∷ []) ks
        ∙ ap (at_queue p [] c r) (append_assoc l (destroy_message k ∷ []) (map destroy_message ks)))

abbrev range : ℕ → ℕ → List ℕ
range zero i = []
range (suc n) i = i ∷ range n (suc i)

-- The dead-name notifications for the requests in `n` slots from `i` on.
abbrev pub deaths : (ℕ → Request) → ℕ → ℕ → List Deed
deaths slots n i =
    map (λ j. dead_name (slots j).notify (slots j).name)
      (keep (λ j. not ((slots j).name == 0)) (range n i))

-- Every request names its send-once right.
abbrev pub HasRights : (ℕ → Request) → Type 0
HasRights slots = (j : ℕ) → ((slots j).name == 0) ≡ false → ((slots j).notify == 0) ≡ false

dnnotify-lem :
    (slots : ℕ → Request) (n i : ℕ) (p : Dying) (l : List Deed)
    → HasRights slots
    → dnnotify slots n i (record p { deeds = l })
      ≡ some (record p { deeds = l ++ deaths slots n i })
unfolding dnnotify deed
dnnotify-lem slots zero i p l v = ap (λ x. some (record p { deeds = x })) (sym (append-nil l))
dnnotify-lem slots (suc n) i p l v = elim (Bool-cases ((slots i).name == 0)) [
  | inl free ↦ rw free (dnnotify-lem slots n (suc i) p l v)
  | inr held ↦
      let d = dead_name (slots i).notify (slots i).name in
      rw (held, v i held)
        (dnnotify-lem slots n (suc i) p (l ++ d ∷ []) v
          ∙ ap (λ x. some (record p { deeds = x }))
              (append_assoc l (d ∷ []) (deaths slots n (suc i))))
]

-- The deeds of a table of requests.
abbrev pub table_deaths : (ℕ → ℕ) → Option Table → List Deed
table_deaths sizes none = []
table_deaths sizes (some t) = deaths t.slots (sizes t.size_class - 1) 1

abbrev pub TableRights : Option Table → Type 0
TableRights none = Unit {0}
TableRights (some t) = HasRights t.slots

abbrev pub nsrequest_deed : Option ℕ → List Deed
nsrequest_deed none = []
nsrequest_deed (some ns) = send_once ns ∷ []

notify_names-lem :
    (sizes : ℕ → ℕ) (o : Option Table) (p : Dying) (l : List Deed)
    → TableRights o
    → notify_names sizes o (record p { deeds = l })
      ≡ some (record p { deeds = l ++ table_deaths sizes o })
unfolding notify_names
notify_names-lem sizes none p l v = ap (λ x. some (record p { deeds = x })) (sym (append-nil l))
notify_names-lem sizes (some t) p l v = dnnotify-lem t.slots (sizes t.size_class - 1) 1 p l v

drop_nsrequest-lem :
    (p : Dying) (o : Option ℕ)
    → drop_nsrequest p o ≡ record p { deeds = p.deeds ++ nsrequest_deed o }
unfolding drop_nsrequest deed
drop_nsrequest-lem p none = ap (λ x. record p { deeds = x }) (sym (append-nil p.deeds))
drop_nsrequest-lem p (some ns) = refl

-- What a port does when it dies, in order.
abbrev pub last_deeds : (ℕ → ℕ) → Dying → List Deed
last_deeds sizes p =
    ((map wake p.blocked ++ nsrequest_deed p.nsrequest) ++ map destroy_message p.messages)
    ++ table_deaths sizes p.dnrequests

-- The dead port, with the references that others hold.
abbrev pub dead_port : Dying → ℕ → List Deed → Dying
dead_port p r l = record p {
  active = false;
  refs = r;
  dnrequests = none;
  blocked = [];
  messages = [];
  msgcount = 0;
  deeds = l;
}

regroup :
    (sizes : ℕ → ℕ) (p : Dying)
    → (((p.deeds ++ map wake p.blocked) ++ nsrequest_deed p.nsrequest)
          ++ map destroy_message p.messages)
        ++ table_deaths sizes p.dnrequests
      ≡ p.deeds ++ last_deeds sizes p
regroup sizes p =
    let w = map wake p.blocked in
    let n = nsrequest_deed p.nsrequest in
    let m = map destroy_message p.messages in
    let t = table_deaths sizes p.dnrequests in
    ap (λ l. (l ++ m) ++ t) (append_assoc p.deeds w n)
    ∙ ap (λ l. l ++ t) (append_assoc p.deeds (w ++ n) m)
    ∙ append_assoc p.deeds ((w ++ n) ++ m) t

-- The port after its destruction.
abbrev pub ended : (ℕ → ℕ) → Bool → Dying → ℕ → Option ℕ → Dying
ended sizes circular p r none = dead_port p r (p.deeds ++ last_deeds sizes p)
ended sizes circular p r (some pd) =
    let limbo = record p { pdrequest = none; named = false } in
    if circular
    then dead_port (record limbo { destination = none }) r
        ((p.deeds ++ release_once pd ∷ []) ++ last_deeds sizes p)
    else record limbo { destination = some pd; deeds = p.deeds ++ port_destroyed pd ∷ [] }

die-lem :
    (sizes : ℕ → ℕ) (p : Dying) (r : ℕ)
    → p.refs ≡ length p.messages + (1 + r)
    → p.msgcount ≡ length p.messages
    → TableRights p.dnrequests
    → die sizes p ≡ some (dead_port p r (p.deeds ++ last_deeds sizes p))
unfolding die consume_ref
die-lem sizes p r held count v =
    let w = p.deeds ++ map wake p.blocked in
    let n = w ++ nsrequest_deed p.nsrequest in
    let m = n ++ map destroy_message p.messages in
    let quiet = record p { active = false; dnrequests = none; blocked = [] } in
    let queue = λ (c r : ℕ). at_queue quiet p.messages c r n in
    let finish = λ (q : Dying). consume_ref (notify_names sizes p.dnrequests q) in
    let empty = λ (q : Dying). destroy_messages q p.messages in
    let counted : p.msgcount ≡ length p.messages + 0 = omega (arith, count) in
    let last : 1 + r - 1 ≡ r = omega arith in
    ap
      (λ q.
        finish
          (empty (drop_nsrequest (record q { active = false; dnrequests = none }) p.nsrequest)))
      (wake_all-lem p p.deeds p.blocked)
    ∙ ap (λ q. finish (empty q)) (drop_nsrequest-lem (record quiet { deeds = w }) p.nsrequest)
    ∙ ap (λ c. finish (empty (queue c p.refs))) counted
    ∙ ap (λ r. finish (empty (queue (length p.messages + 0) r))) held
    ∙ ap finish (destroy_messages-lem quiet 0 (1 + r) n p.messages)
    ∙ ap consume_ref (notify_names-lem sizes p.dnrequests (at_queue quiet [] 0 (1 + r) m) m v)
    ∙ ap (λ k. some (dead_port p k (m ++ table_deaths sizes p.dnrequests))) last
    ∙ ap (λ l. some (dead_port p r l)) (regroup sizes p)

backed-lem :
    (sizes : ℕ → ℕ) (circular : Bool) (p : Dying) (r : ℕ) (o : Option ℕ)
    → p.refs ≡ length p.messages + (1 + r)
    → p.msgcount ≡ length p.messages
    → TableRights p.dnrequests
    → destroy_backed sizes circular p o ≡ some (ended sizes circular p r o)
unfolding destroy_backed deed
backed-lem sizes circular p r none held count v = die-lem sizes p r held count v
backed-lem sizes true p r (some pd) held count v =
    die-lem sizes
      (record p {
        pdrequest = none;
        named = false;
        destination = none;
        deeds = p.deeds ++ release_once pd ∷ [];
      })
      r held count v
backed-lem sizes false p r (some pd) held count v = refl

-- `ipc_port_destroy` of a port whose receiver is cleared.
destroy-dies :
    (sizes : ℕ → ℕ) (circular : Bool) (p : Dying) (r : ℕ)
    → p.active ≡ true
    → p.in_set ≡ false
    → p.mscount ≡ 0
    → p.seqno ≡ 0
    → p.refs ≡ length p.messages + (1 + r)
    → p.msgcount ≡ length p.messages
    → TableRights p.dnrequests
    → destroy sizes circular p ≡ some (ended sizes circular p r p.pdrequest)
unfolding destroy
destroy-dies sizes circular p r act out zero_count zero_seqno held count v =
    let no_count = (==_iff p.mscount 0).1 zero_count in
    let no_seqno = (==_iff p.seqno 0).1 zero_seqno in
    let ok : (p.active && not p.in_set && (p.mscount == 0) && (p.seqno == 0)) ≡ true =
      rw (act, out, no_count, no_seqno) refl in
    ap (λ b. assert b then destroy_backed sizes circular p p.pdrequest) ok
    ∙ backed-lem sizes circular p r p.pdrequest held count v

abbrev pub without_receiver : Dying → Dying
without_receiver p = record p { in_set = false; mscount = 0; seqno = 0 }

-- The end of a receive right, `ipc_port_clear_receiver` and then `ipc_port_destroy`, fails no
-- assertion on an active port, in a set or not, whatever its make-send count and sequence number,
-- where the message count is the length of the queue, the references are those of the messages in
-- the queue, the caller's and `r` others, and each request with a name in the port's table has a
-- send-once right. With a port-destroyed request that makes no circle, the port goes to that backup
-- with its queue as it is. Otherwise it dies: the blocked senders wake, the no-senders request gets
-- a send-once notification, the queued messages are destroyed, and each dead-name request of the
-- table gets its notification, in this order; the `r` references are left.
pub destroy_receive-dies :
    (sizes : ℕ → ℕ) (circular : Bool) (p : Dying) (r : ℕ)
    → p.active ≡ true
    → p.refs ≡ length p.messages + (1 + r)
    → p.msgcount ≡ length p.messages
    → TableRights p.dnrequests
    → destroy_receive sizes circular p
      ≡ some (ended sizes circular (without_receiver p) r p.pdrequest)
unfolding destroy_receive port_clear_receiver
destroy_receive-dies sizes circular p r act held count v =
    ap
      (λ b. elim (assert b then some (without_receiver p)) [
        | none ↦ none
        | some q ↦ destroy sizes circular q
      ])
      act
    ∙ destroy-dies sizes circular (without_receiver p) r act refl refl refl held count v
