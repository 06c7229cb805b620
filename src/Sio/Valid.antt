-- ===== src/Sio/Valid.antt =====
-- The representation invariant of the scheduler's lists, and sio_add_request.
use android_device_motorola.Prelude.{
  ℕ, ◌+◌, ◌-◌, ◌≤◌, ◌<◌, ◌≡◌, ◌&&◌, refl, [], ◌∷◌, arith, count, count-append, ◌==◌, if◌then◌else◌,
}
use android_device_motorola.Sio.{
  Sync, async, sync, DataDir, read, write, sync_eq, dir_eq, RequestQueue, queued, rq_fifo_clear,
  rq_set_fifo_time, sio_add_request,
}
use android_device_motorola.Sio.Entries.{count-del}

-- A request stands on at most one list, once; and what stands on a fifo list is of its class.
pub record IsValid (q : RequestQueue) : Type 0 where
  pub once : (r : ℕ) → queued q r + count r q.dispatched ≤ 1
  pub class_sync :
      (r : ℕ) (s : Sync) (d : DataDir) → 0 < count r (q.sd.fifo_list s d) → (q.rqs r).is_sync ≡ s
  pub class_dir :
      (r : ℕ) (s : Sync) (d : DataDir) → 0 < count r (q.sd.fifo_list s d) → (q.rqs r).data_dir ≡ d

-- Adding a request counts it once more on the list of its class, and changes no other count.
pub count-sio_add_request :
    (j : ℕ) (q : RequestQueue) (rq r : ℕ) (s : Sync) (d : DataDir)
    → count r ((sio_add_request j q rq).sd.fifo_list s d)
      ≡ count r (q.sd.fifo_list s d)
        + (if sync_eq s (q.rqs rq).is_sync && dir_eq d (q.rqs rq).data_dir
            then (if rq == r then 1 else 0)
            else 0)
unfolding sio_add_request
count-sio_add_request j q rq r s d = ground (arith, count-append r (q.sd.fifo_list s d) (rq ∷ []))

pub queued-sio_add_request :
    (j : ℕ) (q : RequestQueue) (rq r : ℕ)
    → queued (sio_add_request j q rq) r ≡ queued q r + (if rq == r then 1 else 0)
queued-sio_add_request j q rq r = ground (
  arith,
  count-sio_add_request j q rq r sync read,
  count-sio_add_request j q rq r sync write,
  count-sio_add_request j q rq r async read,
  count-sio_add_request j q rq r async write,
)

pub class-sio_add_request :
    (j : ℕ) (q : RequestQueue) (rq r : ℕ)
    → (((sio_add_request j q rq).rqs r).is_sync ≡ (q.rqs r).is_sync)
      × (((sio_add_request j q rq).rqs r).data_dir ≡ (q.rqs r).data_dir)
unfolding sio_add_request
class-sio_add_request j q rq r = ground (arith)

pub dispatched-sio_add_request :
    (j : ℕ) (q : RequestQueue) (rq : ℕ) → (sio_add_request j q rq).dispatched ≡ q.dispatched
unfolding sio_add_request rq_set_fifo_time
dispatched-sio_add_request j q rq = refl

pub sio_add_request-IsValid :
    (j : ℕ) (q : RequestQueue) (rq : ℕ)
    → IsValid q
    → queued q rq + count rq q.dispatched ≡ 0
    → IsValid (sio_add_request j q rq)
sio_add_request-IsValid j q rq v h = record {
  once = λ r.
      ground (arith, queued-sio_add_request j q rq r, dispatched-sio_add_request j q rq, v.once r);
  class_sync = λ r s d c. ground (
    arith,
    count-sio_add_request j q rq r s d,
    class-sio_add_request j q rq r,
    v.class_sync r s d,
  );
  class_dir = λ r s d c. ground (
    arith,
    count-sio_add_request j q rq r s d,
    class-sio_add_request j q rq r,
    v.class_dir r s d,
  );
}

-- Clearing a request takes it off every list that it is on.
pub count-rq_fifo_clear :
    (x r : ℕ) (q : RequestQueue) (s : Sync) (d : DataDir)
    → count r ((rq_fifo_clear x q).sd.fifo_list s d)
      ≡ (if x == r then count r (q.sd.fifo_list s d) - 1 else count r (q.sd.fifo_list s d))
unfolding rq_fifo_clear
count-rq_fifo_clear x r q s d = count-del r x (q.sd.fifo_list s d)

pub count_dispatched-rq_fifo_clear :
    (x r : ℕ) (q : RequestQueue)
    → count r (rq_fifo_clear x q).dispatched
      ≡ (if x == r then count r q.dispatched - 1 else count r q.dispatched)
unfolding rq_fifo_clear
count_dispatched-rq_fifo_clear x r q = count-del r x q.dispatched

pub rqs-rq_fifo_clear : (x : ℕ) (q : RequestQueue) → (rq_fifo_clear x q).rqs ≡ q.rqs
unfolding rq_fifo_clear
rqs-rq_fifo_clear x q = refl

pub rq_fifo_clear-IsValid : (x : ℕ) (q : RequestQueue) → IsValid q → IsValid (rq_fifo_clear x q)
rq_fifo_clear-IsValid x q v = record {
  once = λ r. ground (
    arith,
    count-rq_fifo_clear x r q sync read,
    count-rq_fifo_clear x r q sync write,
    count-rq_fifo_clear x r q async read,
    count-rq_fifo_clear x r q async write,
    count_dispatched-rq_fifo_clear x r q,
    v.once r,
  );
  class_sync = λ r s d c.
      ground (arith, count-rq_fifo_clear x r q s d, rqs-rq_fifo_clear x q, v.class_sync r s d);
  class_dir = λ r s d c.
      ground (arith, count-rq_fifo_clear x r q s d, rqs-rq_fifo_clear x q, v.class_dir r s d);
}
