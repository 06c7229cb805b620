-- ===== src/Sio/Drain.antt =====
-- Dispatching over and over: what repeated calls of sio_dispatch_requests leave on the lists.
use android_device_motorola.Prelude.{
  ℕ, ◌+◌, ◌-◌, ◌≤◌, ◌<◌, ◌≡◌, ◌⊎◌, refl, Bool-cases, inl, inr, true, List, [], ◌∷◌, arith, length,
  count, ◌==◌, ◌↔◌, ◌∙◌,
}
use android_device_motorola.Sio.{
  async, sync, read, write, SioData, RequestQueue, queued, del, sio_queue_empty, sio_exit_queue,
  list_empty, rq_fifo_clear, sio_dispatch_request, sio_dispatch_requests, end_batch,
}
use android_device_motorola.Sio.Entries.{length-del, del_absent}
use android_device_motorola.Sio.Valid.{IsValid}
use android_device_motorola.Sio.Choice.{end_batch-lists}
use android_device_motorola.Sio.Dispatch.{
  sio_dispatch_requests_cases, sio_dispatch_requests-IsValid, sio_dispatch_requests_conserves,
  end_batch-IsValid,
}

-- How many requests wait on the fifo lists.
abbrev pub pending : SioData → ℕ
pending sd =
    length (sd.fifo_list sync read)
    + length (sd.fifo_list sync write)
    + length (sd.fifo_list async read)
    + length (sd.fifo_list async write)

length-del_once : (x : ℕ) (l : List ℕ) → count x l ≤ 1 → length (del x l) + count x l ≡ length l
length-del_once x l h = elim (Bool-cases (count x l == 0)) [
  | inl e ↦ ground (arith, del_absent x l)
  | inr e ↦ ground (arith, length-del x l)
]

pending-sio_dispatch_request :
    (q : RequestQueue) (x : ℕ)
    → IsValid q
    → pending (sio_dispatch_request q x).sd + queued q x ≡ pending q.sd
unfolding sio_dispatch_request rq_fifo_clear
pending-sio_dispatch_request q x v = omega (
  arith,
  v.once x,
  length-del_once x (q.sd.fifo_list sync read) (omega (arith, v.once x)),
  length-del_once x (q.sd.fifo_list sync write) (omega (arith, v.once x)),
  length-del_once x (q.sd.fifo_list async read) (omega (arith, v.once x)),
  length-del_once x (q.sd.fifo_list async write) (omega (arith, v.once x)),
)

pending-end_batch : (q : RequestQueue) → pending (end_batch q).sd ≡ pending q.sd
pending-end_batch q = rw (end_batch-lists q).0

list_empty-length : (l : List ℕ) → (list_empty l ≡ true) ↔ (length l ≡ 0)
list_empty-length [] = ground arith
list_empty-length (x ∷ l) = ground arith

pub sio_queue_empty-pending : (sd : SioData) → (sio_queue_empty sd ≡ true) ↔ (pending sd ≡ 0)
unfolding sio_queue_empty
sio_queue_empty-pending sd = ground (
  arith,
  list_empty-length (sd.fifo_list sync read),
  list_empty-length (sd.fifo_list sync write),
  list_empty-length (sd.fifo_list async read),
  list_empty-length (sd.fifo_list async write),
)

-- On lists that keep the invariant, either no request waits, and `sio_dispatch_requests` returns 0
-- and none waits after it; or some do, it returns 1, and one fewer waits.
pub sio_dispatch_requests_works :
    (j : ℕ) (q : RequestQueue)
    → IsValid q
    → let (ret, q') = sio_dispatch_requests j q in
      ((pending q.sd ≡ 0) × (ret ≡ 0) × (pending q'.sd ≡ 0))
      ⊎ ((0 < pending q.sd) × (ret ≡ 1) × (pending q'.sd + 1 ≡ pending q.sd))
sio_dispatch_requests_works j q v = elim (sio_dispatch_requests_cases j q) [
  | inl (e, p) ↦ rw p (inl (omega (arith, (sio_queue_empty-pending q.sd).0 e, pending-end_batch q)))
  | inr (x, c, h, p) ↦ rw p (
      inr (
        omega (
          arith,
          pending-sio_dispatch_request (end_batch q) x (end_batch-IsValid q v),
          (end_batch-IsValid q v).once x,
          pending-end_batch q,
        )))
]

-- The scheduler called once at each of the given times.
unfoldable pub dispatch_at : List ℕ → RequestQueue → RequestQueue
dispatch_at [] q = q
dispatch_at (j ∷ js) q = dispatch_at js (sio_dispatch_requests j q).1

pub dispatch_at-IsValid : (js : List ℕ) (q : RequestQueue) → IsValid q → IsValid (dispatch_at js q)
unfolding dispatch_at
dispatch_at-IsValid [] q v = v
dispatch_at-IsValid (j ∷ js) q v =
    dispatch_at-IsValid js (sio_dispatch_requests j q).1 (sio_dispatch_requests-IsValid j q v)

dispatch_at_conserves :
    (js : List ℕ) (q : RequestQueue) (r : ℕ)
    → IsValid q
    → queued (dispatch_at js q) r + count r (dispatch_at js q).dispatched
      ≡ queued q r + count r q.dispatched
unfolding dispatch_at
dispatch_at_conserves [] q r v = refl
dispatch_at_conserves (j ∷ js) q r v =
    dispatch_at_conserves js (sio_dispatch_requests j q).1 r (sio_dispatch_requests-IsValid j q v)
    ∙ sio_dispatch_requests_conserves j q r v

pub pending-dispatch_at :
    (js : List ℕ) (q : RequestQueue)
    → IsValid q
    → pending (dispatch_at js q).sd ≡ pending q.sd - length js
unfolding dispatch_at
pending-dispatch_at [] q v = omega arith
pending-dispatch_at (j ∷ js) q v = omega (
  arith,
  pending-dispatch_at js (sio_dispatch_requests j q).1 (sio_dispatch_requests-IsValid j q v),
  sio_dispatch_requests_works j q v,
)

count-le-length : (r : ℕ) (l : List ℕ) → count r l ≤ length l
count-le-length r [] = omega arith
count-le-length r (x ∷ l) = ground (arith, count-le-length r l)

pub queued_none : (q : RequestQueue) (r : ℕ) → pending q.sd ≡ 0 → queued q r ≡ 0
queued_none q r h = omega (
  arith,
  count-le-length r (q.sd.fifo_list sync read),
  count-le-length r (q.sd.fifo_list sync write),
  count-le-length r (q.sd.fifo_list async read),
  count-le-length r (q.sd.fifo_list async write),
)

exit_of_empty : (sd : SioData) → sio_queue_empty sd ≡ true → sio_exit_queue sd ≡ true
unfolding sio_queue_empty sio_exit_queue
exit_of_empty sd h = ground arith

-- From lists that keep the invariant, calling the dispatcher as often as there are pending
-- requests, or more often, at any times, empties all four lists, puts each request that was queued
-- on the dispatch queue as often as it was queued, and lets `sio_exit_queue` pass all its
-- `BUG_ON`s.
pub dispatch_at_drains :
    (js : List ℕ) (q : RequestQueue) (r : ℕ)
    → IsValid q
    → pending q.sd ≤ length js
    → let q' = dispatch_at js q in
      (sio_queue_empty q'.sd ≡ true)
      × (sio_exit_queue q'.sd ≡ true)
      × (count r q'.dispatched ≡ queued q r + count r q.dispatched)
dispatch_at_drains js q r v h =
    let none_left : pending (dispatch_at js q).sd ≡ 0 = omega (arith, pending-dispatch_at js q v) in
    let empty : sio_queue_empty (dispatch_at js q).sd ≡ true =
      (sio_queue_empty-pending (dispatch_at js q).sd).1 none_left in
    (
      empty,
      exit_of_empty (dispatch_at js q).sd empty,
      omega (arith, dispatch_at_conserves js q r v, queued_none (dispatch_at js q) r none_left),
    )
