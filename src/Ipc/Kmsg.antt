-- ===== src/Ipc/Kmsg.antt =====
-- The queue of messages of ipc_kmsg.h and ipc_kmsg.c: a circular list that is doubly linked through
-- the messages.
pub mod Ring
use nextbsd_kernel.Prelude.{ℕ, Bool, true, false, ◌&&◌, Option, none, some, ◌==◌, if◌then◌else◌}
use nextbsd_kernel.Ipc.Hash.{update}
use nextbsd_kernel.Ipc.Right.{assert◌then◌}

-- `ikmq_base`, and `ikm_next` and `ikm_prev` of the messages; none is IKM_NULL, or IKM_BOGUS in a
-- message that is in no queue.
pub record Links : Type 0 where
  pub base : Option ℕ
  pub next : ℕ → Option ℕ
  pub prev : ℕ → Option ℕ

unfoldable pub holds : Option ℕ → ℕ → Bool
holds none k = false
holds (some a) k = a == k

-- The message goes between the last and the first one.
unfoldable pub link_last : ℕ → ℕ → Option ℕ → Links → Option Links
link_last k first none q = none
link_last k first (some last) q = some (record q {
  next = update (update q.next k (some first)) last (some k);
  prev = update (update q.prev k (some last)) first (some k);
})

unfoldable pub enqueue_at : ℕ → Option ℕ → Links → Option Links
enqueue_at k none q =
    some
      (record { base = some k; next = update q.next k (some k); prev = update q.prev k (some k) })
enqueue_at k (some first) q = link_last k first (q.prev first) q

-- `ipc_kmsg_enqueue`
unfoldable pub enqueue : ℕ → Links → Option Links
enqueue k q = enqueue_at k q.base q

-- `kmsg->ikm_next = IKM_BOGUS; kmsg->ikm_prev = IKM_BOGUS;`
unfoldable pub clear_links : ℕ → Links → Links
clear_links k q = record q { next = update q.next k none; prev = update q.prev k none }

unfoldable pub unlink : ℕ → Option ℕ → Option ℕ → Links → Option Links
unlink k none p q = none
unlink k (some n) none q = none
unlink k (some n) (some p) q =
    some
      (record q { base = some n; next = update q.next p (some n); prev = update q.prev n (some p) })

unfoldable pub clear_in : ℕ → Option Links → Option Links
clear_in k none = none
clear_in k (some q) = some (clear_links k q)

-- `ipc_kmsg_rmqueue_first_macro`
unfoldable pub remove_first : ℕ → Links → Option Links
remove_first k q =
    assert holds q.base k
    then clear_in k (
        if holds (q.next k) k
        then (assert holds (q.prev k) k then some (record q { base = none }))
        else unlink k (q.next k) (q.prev k) q)

unfoldable pub removed : ℕ → Option Links → Option (Links × Option ℕ)
removed k none = none
removed k (some q) = some (q, some k)

unfoldable pub dequeue_at : Option ℕ → Links → Option (Links × Option ℕ)
dequeue_at none q = some (q, none)
dequeue_at (some first) q = removed first (remove_first first q)

-- `ipc_kmsg_dequeue`
unfoldable pub dequeue : Links → Option (Links × Option ℕ)
dequeue q = dequeue_at q.base q
