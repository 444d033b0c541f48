-- ===== src/Ipc/Mqueue/Wakes.antt =====
-- Waking blocked senders keeps the invariant of the queue.
use nextbsd_kernel.Prelude.{
  length-snoc, ℕ, zero, suc, ◌+◌, ◌-◌, ◌<◌, ◌≤◌, ◌≡◌, ◌⊎◌, refl, sym, ap, subst, ◌∙◌, inl, inr,
  Bool, true, false, ◌&&◌, Option, some, List, [], ◌∷◌, ◌++◌, if◌then◌else◌, ltb, length, arith,
  Bool-cases,
}
use nextbsd_kernel.Ipc.Right.{assert◌then◌}
use nextbsd_kernel.Ipc.Mqueue.{Mqueue, wake_senders, set_qlimit}
use nextbsd_kernel.Ipc.Mqueue.Receiving.{finish_receive}
use nextbsd_kernel.Ipc.Mqueue.Steps.{World}
use nextbsd_kernel.Ipc.Mqueue.Good.{IsGood}

-- Senders are woken in order, until there are `n` of them or none is left.
wake_senders-lem :
    (n : ℕ) (ts : List ℕ) (q : Mqueue)
    → (ws : List ℕ) × (bs : List ℕ) × (wake_senders n ts q ≡ record q { woken = ws; blocked = bs })
      × (length q.woken ≤ length ws)
      × (ts ≡ [] → bs ≡ [])
      × ((bs ≡ []) ⊎ (length ws ≡ length q.woken + n))
unfolding wake_senders
wake_senders-lem zero ts q = (q.woken, ts, refl, omega arith, λ e. e, inr (omega arith))
wake_senders-lem (suc n) [] q = (q.woken, [], refl, omega arith, λ e. refl, inl refl)
wake_senders-lem (suc n) (t ∷ ts) q =
    let rest = wake_senders-lem n ts (record q { woken = q.woken ++ t ∷ [] }) in
    let (ws, bs, is, more, empty, all) = rest in
    let one = length-snoc q.woken t in
    (
      ws,
      bs,
      is,
      omega (arith, more, one),
      λ e. cc,
      elim all [ inl none_left ↦ inl none_left | inr woke ↦ inr (omega (arith, woke, one)) ],
    )

-- Waking `n` senders makes up for `n` free places.
wake-keeps :
    (w : World) (q : Mqueue) (n f limit : ℕ)
    → IsGood w
    → q ≡ record (wake_senders n w.port.blocked w.port) { qlimit = limit }
    → f ≤ length w.port.handed
    → limit + f ≤ w.port.qlimit + w.finished + n
    → IsGood (record w { port = q; finished = f })
wake-keeps w q n f limit g made fits bound =
    let (ws, bs, is, more, empty, all) = wake_senders-lem n w.port.blocked w.port in
    let same = made ∙ ap {A = Mqueue} {B = Mqueue} (λ p. record p { qlimit = limit }) is in
    subst (λ p. IsGood (record w { port = p; finished = f })) (sym same)
      (record {
        active = g.active;
        counted = g.counted;
        idle = g.idle;
        set_idle = g.set_idle;
        in_order = g.in_order;
        numbered = g.numbered;
        finished = fits;
        resumed = omega (arith, g.resumed, more);
        awaited = elim g.awaited [
          | inl free ↦ inl (empty free)
          | inr full ↦ elim all [
            | inl none_left ↦ inl none_left
            | inr woke ↦ inr (omega (arith, full, woke, bound))
          ]
        ];
      })

finish_receive-wakes :
    (q : Mqueue)
    → q.active ≡ true
    → ltb q.msgcount q.qlimit ≡ true
    → finish_receive q ≡ record (wake_senders 1 q.blocked q) { qlimit = q.qlimit }
unfolding finish_receive
finish_receive-wakes q act room =
    let (ws, bs, is, more, empty, all) = wake_senders-lem 1 q.blocked q in
    let woken = wake_senders 1 q.blocked q in
    let limit : woken.qlimit ≡ q.qlimit = ap (λ p. p.qlimit) is in
    ap (λ b. if b && ltb q.msgcount q.qlimit then woken else q) act
    ∙ ap (λ b. if b then woken else q) room
    ∙ ap (λ l. record woken { qlimit = l }) limit

finish_receive-stays : (q : Mqueue) → ltb q.msgcount q.qlimit ≡ false → finish_receive q ≡ q
unfolding finish_receive
finish_receive-stays q full = elim (Bool-cases q.active) [
  | inl act ↦
      ap (λ b. if b && ltb q.msgcount q.qlimit then wake_senders 1 q.blocked q else q) act
      ∙ ap (λ b. if b then wake_senders 1 q.blocked q else q) full
  | inr dead ↦ ap (λ b. if b && ltb q.msgcount q.qlimit then wake_senders 1 q.blocked q else q) dead
]

pub finish-keeps :
    (w : World)
    → IsGood w
    → w.finished < length w.port.handed
    → IsGood (record w { port = finish_receive w.port; finished = w.finished + 1 })
finish-keeps w g more = elim (Bool-cases (ltb w.port.msgcount w.port.qlimit)) [
  | inl room ↦
      wake-keeps w (finish_receive w.port) 1 (w.finished + 1) w.port.qlimit g
        (finish_receive-wakes w.port g.active room) (omega arith) (omega arith)
  | inr full ↦
      let unchanged : w.port.qlimit ≤ w.port.msgcount = ground arith in
      let stays = sym (finish_receive-stays w.port full) in
      subst (λ p. IsGood (record w { port = p; finished = w.finished + 1 })) stays
        (record {
          active = g.active;
          counted = g.counted;
          idle = g.idle;
          set_idle = g.set_idle;
          in_order = g.in_order;
          numbered = g.numbered;
          finished = omega arith;
          resumed = g.resumed;
          awaited = inr (omega (arith, g.resumed));
        })
]

pub set_qlimit-keeps :
    (w : World) (q : Mqueue) (limit : ℕ)
    → IsGood w
    → set_qlimit limit w.port ≡ some q
    → IsGood (record w { port = q })
unfolding set_qlimit wake_senders
set_qlimit-keeps w q limit g e = elim (Bool-cases (ltb w.port.qlimit limit)) [
  | inl raised ↦
      wake-keeps w q (limit - w.port.qlimit) w.finished limit g (set_qlimit-raised raised)
        g.finished (ground arith)
  | inr lowered ↦
      wake-keeps w q 0 w.finished limit g (set_qlimit-lowered lowered) g.finished (ground arith)
]
  where
    made : Bool → Option Mqueue
    made b =
        let woken =
          if b then wake_senders (limit - w.port.qlimit) w.port.blocked w.port else w.port in
        some (record woken { qlimit = limit })

    is_made : (b : Bool) → ltb w.port.qlimit limit ≡ b → made b ≡ some q
    is_made b is =
        ap made (sym is) ∙ sym (ap (λ a. assert a then made (ltb w.port.qlimit limit)) g.active) ∙ e

    set_qlimit-raised :
        ltb w.port.qlimit limit ≡ true
        → q ≡ record (wake_senders (limit - w.port.qlimit) w.port.blocked w.port) { qlimit = limit }
    set_qlimit-raised raised = sym (cc (is_made true raised))

    set_qlimit-lowered :
        ltb w.port.qlimit limit ≡ false
        → q ≡ record (wake_senders 0 w.port.blocked w.port) { qlimit = limit }
    set_qlimit-lowered lowered = sym (cc (is_made false lowered))
