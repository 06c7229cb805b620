-- ===== src/Sio/Dispatch.antt =====
-- `sio_dispatch_requests` and the requests that it moves.
use android_device_motorola.Prelude.{
  ℕ, ◌+◌, ◌-◌, ◌<◌, ◌≡◌, ◌⊎◌, refl, Bool-cases, inl, inr, true, [], ◌∷◌, some, arith, count,
  count-append, ◌==◌, if◌then◌else◌, Option-cases, ltb, ap,
}
use android_device_motorola.Sio.{
  Sync, async, sync, DataDir, read, write, RequestQueue, queued, sio_queue_empty, rq_fifo_clear,
  sio_dispatch_request, sio_dispatch_requests, dispatch_choice, end_batch,
}
use android_device_motorola.Sio.Entries.{first_entry-count}
use android_device_motorola.Sio.Valid.{
  IsValid, count-rq_fifo_clear, count_dispatched-rq_fifo_clear, rqs-rq_fifo_clear,
}
use android_device_motorola.Sio.Choice.{
  IsOldest, dispatch_choice-IsOldest, dispatch_choice-none, end_batch-lists,
}

pub count-sio_dispatch_request :
    (q : RequestQueue) (x r : ℕ) (s : Sync) (d : DataDir)
    → count r ((sio_dispatch_request q x).sd.fifo_list s d)
      ≡ (if x == r then count r (q.sd.fifo_list s d) - 1 else count r (q.sd.fifo_list s d))
unfolding sio_dispatch_request
count-sio_dispatch_request q x r s d = count-rq_fifo_clear x r q s d

pub count_dispatched-sio_dispatch_request :
    (q : RequestQueue) (x r : ℕ)
    → count r (sio_dispatch_request q x).dispatched
      ≡ (if x == r then count r q.dispatched - 1 else count r q.dispatched)
        + (if x == r then 1 else 0)
unfolding sio_dispatch_request
count_dispatched-sio_dispatch_request q x r = ground (
  arith,
  count_dispatched-rq_fifo_clear x r q,
  count-append r (rq_fifo_clear x q).dispatched (x ∷ []),
)

pub rqs-sio_dispatch_request : (q : RequestQueue) (x : ℕ) → (sio_dispatch_request q x).rqs ≡ q.rqs
unfolding sio_dispatch_request
rqs-sio_dispatch_request q x = rqs-rq_fifo_clear x q

-- What stands at the head of a list is queued.
pub IsOldest-queued :
    (q : RequestQueue) (r : ℕ) (s : Sync) (d : DataDir) → IsOldest q r s d → 0 < queued q r
IsOldest-queued q r sync read h = omega (arith, first_entry-count (q.sd.fifo_list sync read) h)
IsOldest-queued q r sync write h = omega (arith, first_entry-count (q.sd.fifo_list sync write) h)
IsOldest-queued q r async read h = omega (arith, first_entry-count (q.sd.fifo_list async read) h)
IsOldest-queued q r async write h = omega (arith, first_entry-count (q.sd.fifo_list async write) h)

-- Dispatching a queued request moves it from its list to the dispatch queue, and no other.
pub queued-sio_dispatch_request :
    (q : RequestQueue) (x r : ℕ)
    → IsValid q
    → 0 < queued q x
    → (queued (sio_dispatch_request q x) r + (if x == r then 1 else 0) ≡ queued q r)
      × (count r (sio_dispatch_request q x).dispatched
          ≡ count r q.dispatched + (if x == r then 1 else 0))
queued-sio_dispatch_request q x r v h = ground (
  arith,
  count-sio_dispatch_request q x r sync read,
  count-sio_dispatch_request q x r sync write,
  count-sio_dispatch_request q x r async read,
  count-sio_dispatch_request q x r async write,
  count_dispatched-sio_dispatch_request q x r,
  v.once r,
)

pub sio_dispatch_request-IsValid :
    (q : RequestQueue) (x : ℕ) → IsValid q → 0 < queued q x → IsValid (sio_dispatch_request q x)
sio_dispatch_request-IsValid q x v h = record {
  once = λ r. ground (arith, queued-sio_dispatch_request q x r v h, v.once r);
  class_sync = λ r s d c. ground (
    arith,
    count-sio_dispatch_request q x r s d,
    rqs-sio_dispatch_request q x,
    v.class_sync r s d,
  );
  class_dir = λ r s d c. ground (
    arith,
    count-sio_dispatch_request q x r s d,
    rqs-sio_dispatch_request q x,
    v.class_dir r s d,
  );
}

pub end_batch-IsValid : (q : RequestQueue) → IsValid q → IsValid (end_batch q)
unfolding end_batch
end_batch-IsValid q v = elim (Bool-cases (ltb q.sd.fifo_batch q.sd.batched)) [
  | inl e ↦ rw e (record { once = v.once; class_sync = v.class_sync; class_dir = v.class_dir })
  | inr e ↦ rw e v
]

pub queued-end_batch : (q : RequestQueue) (r : ℕ) → queued (end_batch q) r ≡ queued q r
queued-end_batch q r = rw (end_batch-lists q).0

-- A dispatch, seen from outside: nothing where all lists are empty, and otherwise the move of one
-- queued request.
pub sio_dispatch_requests_cases :
    (j : ℕ) (q : RequestQueue)
    → ((sio_queue_empty q.sd ≡ true) × (sio_dispatch_requests j q ≡ (0, end_batch q)))
      ⊎ ((x : ℕ) × (dispatch_choice j q ≡ some x)
          × (0 < queued (end_batch q) x)
          × (sio_dispatch_requests j q ≡ (1, sio_dispatch_request (end_batch q) x)))
unfolding sio_dispatch_requests
sio_dispatch_requests_cases j q = elim (Option-cases (dispatch_choice j q)) [
  | inl n ↦ inl ((dispatch_choice-none j q).0 n, rw n)
  | inr (x, e) ↦
      let (s, d, p) = dispatch_choice-IsOldest j q x e in
      inr (x, e, rw (queued-end_batch q x) (IsOldest-queued q x s d p), rw e)
]

-- A dispatch, at any time, keeps the invariant of the lists.
pub sio_dispatch_requests-IsValid :
    (j : ℕ) (q : RequestQueue) → IsValid q → IsValid (sio_dispatch_requests j q).1
sio_dispatch_requests-IsValid j q v = elim (sio_dispatch_requests_cases j q) [
  | inl (e, p) ↦ rw p (end_batch-IsValid q v)
  | inr (x, c, h, p) ↦ rw p (sio_dispatch_request-IsValid (end_batch q) x (end_batch-IsValid q v) h)
]

-- No request is lost or made: each stays on as many lists, the dispatch queue counted.
pub sio_dispatch_requests_conserves :
    (j : ℕ) (q : RequestQueue) (r : ℕ)
    → IsValid q
    → let q' = (sio_dispatch_requests j q).1 in
      queued q' r + count r q'.dispatched ≡ queued q r + count r q.dispatched
sio_dispatch_requests_conserves j q r v = elim (sio_dispatch_requests_cases j q) [
  | inl (e, p) ↦ rw p (rw (queued-end_batch q r, (end_batch-lists q).2) refl)
  | inr (x, c, h, p) ↦ rw p (
      omega (
        arith,
        queued-sio_dispatch_request (end_batch q) x r (end_batch-IsValid q v) h,
        queued-end_batch q r,
        ap (count r) (end_batch-lists q).2,
      ))
]
