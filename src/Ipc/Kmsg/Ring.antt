-- ===== src/Ipc/Kmsg/Ring.antt =====
-- The circular list holds a list of messages.
use nextbsd_kernel.Prelude.{
  ℕ, ◌≡◌, refl, ap, ◌∙◌, Bool, false, Option, none, some, List, [], ◌∷◌, ◌++◌, ◌==◌, if◌then◌else◌,
  All, arith, ==_refl,
}
use nextbsd_kernel.Ipc.Hash.{update}
use nextbsd_kernel.Ipc.Right.{assert◌then◌}
use nextbsd_kernel.Ipc.Kmsg.{
  Links, holds, link_last, enqueue_at, enqueue, clear_links, unlink, clear_in, remove_first,
  removed, dequeue_at, dequeue,
}

abbrev pub IsFresh : ℕ → List ℕ → Type 0
IsFresh k xs = All (λ x. (x == k) ≡ false) xs

abbrev pub IsDistinct : List ℕ → Type 0
IsDistinct [] = Unit {0}
IsDistinct (x ∷ xs) = IsFresh x xs × IsDistinct xs

-- From `a` the messages `bs` follow, and then `z`.
abbrev pub IsLinked : Links → ℕ → List ℕ → ℕ → Type 0
IsLinked q a [] z = (q.next a ≡ some z) × (q.prev z ≡ some a)
IsLinked q a (b ∷ bs) z = ((q.next a ≡ some b) × (q.prev b ≡ some a)) × IsLinked q b bs z

-- The queue holds the messages, from the first to the last.
abbrev pub IsQueue : Links → List ℕ → Type 0
IsQueue q [] = q.base ≡ none
IsQueue q (x ∷ xs) = (q.base ≡ some x) × IsLinked q x xs x × IsDistinct (x ∷ xs)

abbrev end_of : ℕ → List ℕ → ℕ
end_of a [] = a
end_of a (b ∷ bs) = end_of b bs

IsLinked-prev :
    (q : Links) (a : ℕ) (bs : List ℕ) (z : ℕ) → IsLinked q a bs z → q.prev z ≡ some (end_of a bs)
IsLinked-prev q a [] z (next, prev) = prev
IsLinked-prev q a (b ∷ bs) z (step, rest) = IsLinked-prev q b bs z rest

flip : (a b : ℕ) → (a == b) ≡ false → (b == a) ≡ false
flip a b e = ground arith

end_of-IsFresh : (k a : ℕ) (bs : List ℕ) → IsFresh k (a ∷ bs) → (end_of a bs == k) ≡ false
end_of-IsFresh k a [] (ne, rest) = ne
end_of-IsFresh k a (b ∷ bs) (ne, rest) = end_of-IsFresh k b bs rest

update-same : (f : ℕ → Option ℕ) (k : ℕ) (v : Option ℕ) → update f k v k ≡ v
unfolding update
update-same f k v = ap (λ b. if b then v else f k) (==_refl k)

update-other : (f : ℕ → Option ℕ) (k j : ℕ) (v : Option ℕ) → (j == k) ≡ false → update f k v j ≡ f j
unfolding update
update-other f k j v ne = ap (λ b. if b then v else f j) ne

-- What holds of messages other than two holds of a list in which the two are not.
All-fresh :
    {P : ℕ → Type 0} (k z : ℕ) (bs : List ℕ)
    → IsFresh k bs
    → IsFresh z bs
    → ((e : ℕ) → (e == k) ≡ false → (e == z) ≡ false → P e)
    → All P bs
All-fresh k z [] no_k no_z holds_of = tt
All-fresh k z (b ∷ bs) (not_k, no_k) (not_z, no_z) holds_of =
    (holds_of b not_k not_z, All-fresh k z bs no_k no_z holds_of)

-- A chain whose end gets another follower, where the links of the others, but for a message `k`
-- that is not in the chain, stay as they were.
relink :
    (q q' : Links) (k a : ℕ) (bs : List ℕ) (z w : ℕ)
    → IsLinked q a bs z
    → IsDistinct (a ∷ bs)
    → IsFresh k (a ∷ bs)
    → ((e : ℕ) → (e == end_of a bs) ≡ false → (e == k) ≡ false → q'.next e ≡ q.next e)
    → All (λ e. q'.prev e ≡ q.prev e) bs
    → q'.next (end_of a bs) ≡ some w
    → q'.prev w ≡ some (end_of a bs)
    → IsLinked q' a bs w
relink q q' k a [] z w link distinct no_k nexts prevs next prev = (next, prev)
relink q q' k a (b ∷ bs) z w ((next_a, prev_b), link) (fresh, distinct) (not_k, no_k) nexts
      (same, prevs) next prev =
    (
      (nexts a (flip (end_of b bs) a (end_of-IsFresh a b bs fresh)) not_k ∙ next_a, same ∙ prev_b),
      relink q q' k b bs z w link distinct no_k nexts prevs next prev,
    )

IsLinked-snoc :
    (q : Links) (a : ℕ) (bs : List ℕ) (k z : ℕ)
    → IsLinked q a bs k
    → q.next k ≡ some z
    → q.prev z ≡ some k
    → IsLinked q a (bs ++ k ∷ []) z
IsLinked-snoc q a [] k z link next prev = (link, (next, prev))
IsLinked-snoc q a (b ∷ bs) k z (step, link) next prev =
    (step, IsLinked-snoc q b bs k z link next prev)

IsFresh-snoc : (k z : ℕ) (xs : List ℕ) → IsFresh k xs → (z == k) ≡ false → IsFresh k (xs ++ z ∷ [])
IsFresh-snoc k z [] fresh ne = (ne, tt)
IsFresh-snoc k z (x ∷ xs) (this, fresh) ne = (this, IsFresh-snoc k z xs fresh ne)

IsDistinct-snoc : (k : ℕ) (xs : List ℕ) → IsDistinct xs → IsFresh k xs → IsDistinct (xs ++ k ∷ [])
IsDistinct-snoc k [] distinct fresh = (tt, tt)
IsDistinct-snoc k (x ∷ xs) (this, distinct) (ne, fresh) =
    (IsFresh-snoc x k xs this (flip x k ne), IsDistinct-snoc k xs distinct fresh)

-- `ipc_kmsg_enqueue` of a message that is not in the queue puts it at the end of the list that the
-- circular list holds.
pub enqueue-IsQueue :
    (k : ℕ) (xs : List ℕ) (q : Links)
    → IsQueue q xs
    → IsFresh k xs
    → (q' : Links) × (enqueue k q ≡ some q') × IsQueue q' (xs ++ k ∷ [])
unfolding enqueue enqueue_at link_last
enqueue-IsQueue k [] q empty fresh = (
  _,
  ap (λ b. enqueue_at k b q) empty,
  (refl, (update-same q.next k (some k), update-same q.prev k (some k)), (tt, tt)),
)
enqueue-IsQueue k (x ∷ xs) q (base, link, distinct) (ne, fresh) =
    let l = end_of x xs in
    let q' : Links = record q {
      next = update (update q.next k (some x)) l (some k);
      prev = update (update q.prev k (some l)) x (some k);
    } in
    let not_last = flip l k (end_of-IsFresh k x xs (ne, fresh)) in
    let ring =
      relink q q' k x xs x k link distinct (ne, fresh)
        (λ e not_l not_k.
          update-other (update q.next k (some x)) l e (some k) not_l
          ∙ update-other q.next k e (some x) not_k)
        (All-fresh k x xs fresh distinct.0 (λ e not_k not_x.
          update-other (update q.prev k (some l)) x e (some k) not_x
          ∙ update-other q.prev k e (some l) not_k))
        (update-same (update q.next k (some x)) l (some k))
        (update-other (update q.prev k (some l)) x k (some k) (flip x k ne)
          ∙ update-same q.prev k (some l)) in
    (
      q',
      ap (λ b. enqueue_at k b q) base ∙ ap (λ p. link_last k x p q) (IsLinked-prev q x xs x link),
      (
        base,
        IsLinked-snoc q' x xs k x ring
            (update-other (update q.next k (some x)) l k (some k) not_last
              ∙ update-same q.next k (some x))
            (update-same (update q.prev k (some l)) x (some k)),
        IsDistinct-snoc k (x ∷ xs) distinct (ne, fresh),
      ),
    )

remove_sole :
    (x : ℕ) (q : Links)
    → IsQueue q (x ∷ [])
    → remove_first x q ≡ some (clear_links x (record q { base = none }))
unfolding remove_first holds clear_in
remove_sole x q (base, (next, prev), distinct) =
    let gone = some (record q { base = none }) in
    let other = unlink x (q.next x) (q.prev x) q in
    let go = λ (b : Bool).
      assert b
      then clear_in x
          (if holds (q.next x) x then (assert holds (q.prev x) x then gone) else other) in
    let go_next =
      λ (b : Bool). clear_in x (if b then (assert holds (q.prev x) x then gone) else other) in
    ap (λ o. go (holds o x)) base
    ∙ ap go (==_refl x)
    ∙ ap (λ o. go_next (holds o x)) next
    ∙ ap go_next (==_refl x)
    ∙ ap (λ o. clear_in x (assert holds o x then gone)) prev
    ∙ ap (λ b. clear_in x (assert b then gone)) (==_refl x)

remove_head :
    (x y l : ℕ) (q : Links)
    → q.base ≡ some x
    → q.next x ≡ some y
    → q.prev x ≡ some l
    → (y == x) ≡ false
    → remove_first x q
      ≡ some (
          clear_links x (record q {
            base = some y;
            next = update q.next l (some y);
            prev = update q.prev y (some l);
          }))
unfolding remove_first holds clear_in unlink
remove_head x y l q base next prev ne =
    let gone = some (record q { base = none }) in
    let go = λ (b : Bool).
      assert b
      then clear_in x (
          if holds (q.next x) x
          then (assert holds (q.prev x) x then gone)
          else unlink x (q.next x) (q.prev x) q) in
    let go_next = λ (b : Bool).
      clear_in x
        (if b then (assert holds (q.prev x) x then gone) else unlink x (q.next x) (q.prev x) q) in
    ap (λ o. go (holds o x)) base
    ∙ ap go (==_refl x)
    ∙ ap (λ o. go_next (holds o x)) next
    ∙ ap go_next ne
    ∙ ap (λ o. clear_in x (unlink x o (q.prev x) q)) next
    ∙ ap (λ o. clear_in x (unlink x (some y) o q)) prev

-- `ipc_kmsg_dequeue` takes the first message of the list that the circular list holds; the message
-- is then linked to no other.
pub dequeue-IsQueue :
    (x : ℕ) (xs : List ℕ) (q : Links)
    → IsQueue q (x ∷ xs)
    → (q' : Links) × (dequeue q ≡ some (q', some x))
      × IsQueue q' xs
      × (q'.next x ≡ none)
      × (q'.prev x ≡ none)
unfolding dequeue dequeue_at removed clear_links
dequeue-IsQueue x [] q (base, link, distinct) = (
  _,
  ap (λ b. dequeue_at b q) base ∙ ap (removed x) (remove_sole x q (base, link, distinct)),
  refl,
  update-same q.next x none,
  update-same q.prev x none,
)
dequeue-IsQueue x (y ∷ ys) q (base, ((next, prev_y), link), ((ne, fresh), distinct)) =
    let l = end_of y ys in
    let nexts = update q.next l (some y) in
    let prevs = update q.prev y (some l) in
    let q' : Links = record {
      base = some y;
      next = update nexts x none;
      prev = update prevs x none;
    } in
    let ring =
      relink q q' x y ys x y link distinct (ne, fresh)
        (λ e not_l not_x.
          update-other nexts x e none not_x ∙ update-other q.next l e (some y) not_l)
        (All-fresh x y ys fresh distinct.0 (λ e not_x not_y.
          update-other prevs x e none not_x ∙ update-other q.prev y e (some l) not_y))
        (update-other nexts x l none (end_of-IsFresh x y ys (ne, fresh))
          ∙ update-same q.next l (some y))
        (update-other prevs x y none ne ∙ update-same q.prev y (some l)) in
    (
      q',
      ap (λ b. dequeue_at b q) base
          ∙ ap (removed x) (remove_head x y l q base next (IsLinked-prev q y ys x link) ne),
      (refl, ring, distinct),
      update-same nexts x none,
      update-same prevs x none,
    )
