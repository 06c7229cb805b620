-- ===== src/Sio/Refinement.antt =====
-- What the scheduler promises, whatever its lists look like: where each request is.
use android_device_motorola.Prelude.{
  ℕ, ◌<◌, ◌≡◌, ◌≢◌, refl, ◌⊎◌, inl, inr, List, [], ◌∷◌, arith, count, ltb, ◌==◌, if◌then◌else◌, ap,
}
use android_device_motorola.Sio.{
  async, sync, read, write, RequestQueue, queued, sio_merged_requests, sio_add_request,
  sio_dispatch_requests, end_batch, rq_fifo_clear,
}
use android_device_motorola.Sio.Valid.{
  IsValid, queued-sio_add_request, dispatched-sio_add_request, sio_add_request-IsValid,
  count-rq_fifo_clear, count_dispatched-rq_fifo_clear,
}
use android_device_motorola.Sio.Choice.{end_batch-lists}
use android_device_motorola.Sio.Dispatch.{
  sio_dispatch_requests_cases, sio_dispatch_requests-IsValid, queued-sio_dispatch_request,
  queued-end_batch, end_batch-IsValid,
}
use android_device_motorola.Sio.Drain.{sio_queue_empty-pending, queued_none}
use android_device_motorola.Sio.Merge.{
  moved, count_dispatched-moved, moved-once, moved-IsValid, merge_cases, linked_iff,
  sio_merged_requests-IsValid,
}

-- The abstract view forgets the lists, their order and the deadlines.
pub data Place : Type 0 where
  absent waiting served : Place

abbrev pub place : RequestQueue → ℕ → Place
place q r =
    if ltb 0 (queued q r)
    then waiting
    else (if ltb 0 (count r q.dispatched) then served else absent)

abbrev pub at : ℕ → Place → (ℕ → Place) → ℕ → Place
at r new p k = if k == r then new else p k

-- The calls of the block layer.
pub data SioCall : Type 0 where
  add : ℕ → ℕ → SioCall
  dispatch : ℕ → SioCall
  merged : ℕ → ℕ → SioCall

-- What a scheduler promises of each call: an added request waits, a dispatch serves one request
-- that waits, or none waits and nothing moves, and of two merged requests that wait the first goes
-- on waiting and the second is gone. All other requests stay where they are.
abbrev pub Follows : SioCall → (ℕ → Place) → (ℕ → Place) → Type 0
Follows (add j rq) p p' = (p rq ≡ absent) × ((k : ℕ) → p' k ≡ at rq waiting p k)
Follows (dispatch j) p p' =
    ((x : ℕ) × (p x ≡ waiting) × ((k : ℕ) → p' k ≡ at x served p k))
    ⊎ (((k : ℕ) → p k ≢ waiting) × ((k : ℕ) → p' k ≡ p k))
Follows (merged rq next) p p' =
    (p rq ≡ waiting) × (p next ≡ waiting) × ((k : ℕ) → p' k ≡ at next absent p k)

-- The places that a scheduler may leave after a list of calls.
unfoldable pub Runs : List SioCall → (ℕ → Place) → (ℕ → Place) → Type 0
Runs [] p p' = (k : ℕ) → p' k ≡ p k
Runs (c ∷ cs) p p' = (p1 : ℕ → Place) × Follows c p p1 × Runs cs p1 p'

add-Follows :
    (j : ℕ) (q : RequestQueue) (rq : ℕ)
    → place q rq ≡ absent
    → Follows (add j rq) (place q) (place (sio_add_request j q rq))
add-Follows j q rq h = (
  h,
  λ k.
      ground
        (arith, queued-sio_add_request j q rq k, ap (count k) (dispatched-sio_add_request j q rq)),
)

dispatch-Follows :
    (j : ℕ) (q : RequestQueue)
    → IsValid q
    → Follows (dispatch j) (place q) (place (sio_dispatch_requests j q).1)
dispatch-Follows j q v = elim (sio_dispatch_requests_cases j q) [
  | inl (e, p) ↦ rw p (
      inr (
        (λ k w. ground (arith, queued_none q k ((sio_queue_empty-pending q.sd).0 e))),
        λ k. ground (arith, queued-end_batch q k, ap (count k) (end_batch-lists q).2),
      ))
  | inr (x, c, h, p) ↦ rw p (
      inl (
        x,
        ground (arith, queued-end_batch q x),
        λ k. ground (
          arith,
          queued-end_batch q k,
          ap (count k) (end_batch-lists q).2,
          queued-sio_dispatch_request (end_batch q) x k (end_batch-IsValid q v) h,
          (end_batch-IsValid q v).once k,
        ),
      ))
]

cleared :
    (q : RequestQueue) (x k : ℕ)
    → IsValid q
    → (queued (rq_fifo_clear x q) k ≡ (if x == k then 0 else queued q k))
      × (count k (rq_fifo_clear x q).dispatched ≡ (if x == k then 0 else count k q.dispatched))
cleared q x k v = ground (
  arith,
  count-rq_fifo_clear x k q sync read,
  count-rq_fifo_clear x k q sync write,
  count-rq_fifo_clear x k q async read,
  count-rq_fifo_clear x k q async write,
  count_dispatched-rq_fifo_clear x k q,
  v.once k,
)

waiting-lt : (q : RequestQueue) (r : ℕ) → place q r ≡ waiting → 0 < queued q r
waiting-lt q r h = ground arith

-- Both wait, so the move leaves each request where it is.
moved-counts :
    (q : RequestQueue) (rq next k : ℕ)
    → IsValid q
    → rq ≢ next
    → 0 < queued q rq
    → 0 < queued q next
    → (queued (moved q rq next) k ≡ queued q k)
      × (count k (moved q rq next).dispatched ≡ count k q.dispatched)
moved-counts q rq next k v ne a b =
    let total = moved-once q rq next k v ne (omega arith) (omega arith) in
    let not_served : count next q.dispatched ≡ 0 = omega (arith, v.once next) in
    let same : count k (moved q rq next).dispatched ≡ count k q.dispatched =
      ground (arith, count_dispatched-moved q rq next k ne, v.once rq) in
    (omega arith, same)

merge-Follows :
    (q : RequestQueue) (rq next : ℕ)
    → IsValid q
    → rq ≢ next
    → (q.rqs rq).is_sync ≡ (q.rqs next).is_sync
    → (q.rqs rq).data_dir ≡ (q.rqs next).data_dir
    → place q rq ≡ waiting
    → place q next ≡ waiting
    → Follows (merged rq next) (place q) (place (sio_merged_requests q rq next))
merge-Follows q rq next v ne es ed a b = elim (merge_cases q rq next) [
  | inl (m, p) ↦
      let valid =
        moved-IsValid q rq next v ne (linked_iff q rq m.0) (linked_iff q next m.1) es ed in
      rw p (
        (
          a,
          b,
          λ k. ground (
            arith,
            cleared (moved q rq next) next k valid,
            moved-counts q rq next k v ne (waiting-lt q rq a) (waiting-lt q next b),
          ),
        ))
  | inr (n, p) ↦ rw p ((a, b, λ k. ground (arith, cleared q next k v)))
]

-- When the block layer may make a call: a request is added that is nowhere, and two different
-- requests of one class are merged that wait.
unfoldable pub run_call : SioCall → RequestQueue → RequestQueue
run_call (add j rq) q = sio_add_request j q rq
run_call (dispatch j) q = (sio_dispatch_requests j q).1
run_call (merged rq next) q = sio_merged_requests q rq next

abbrev pub Allowed : SioCall → RequestQueue → Type 0
Allowed (add j rq) q = place q rq ≡ absent
Allowed (dispatch j) q = Unit {0}
Allowed (merged rq next) q =
    (rq ≢ next)
    × ((q.rqs rq).is_sync ≡ (q.rqs next).is_sync)
    × ((q.rqs rq).data_dir ≡ (q.rqs next).data_dir)
    × (place q rq ≡ waiting)
    × (place q next ≡ waiting)

unfoldable pub run_calls : List SioCall → RequestQueue → RequestQueue
run_calls [] q = q
run_calls (c ∷ cs) q = run_calls cs (run_call c q)

unfoldable pub AllAllowed : List SioCall → RequestQueue → Type 0
AllAllowed [] q = Unit {0}
AllAllowed (c ∷ cs) q = Allowed c q × AllAllowed cs (run_call c q)

run_call-IsValid :
    (c : SioCall) (q : RequestQueue) → IsValid q → Allowed c q → IsValid (run_call c q)
unfolding run_call
run_call-IsValid (add j rq) q v h = sio_add_request-IsValid j q rq v (ground arith)
run_call-IsValid (dispatch j) q v h = sio_dispatch_requests-IsValid j q v
run_call-IsValid (merged rq next) q v (ne, es, ed, a, b) =
    sio_merged_requests-IsValid q rq next v ne es ed

run_call-Follows :
    (c : SioCall) (q : RequestQueue)
    → IsValid q
    → Allowed c q
    → Follows c (place q) (place (run_call c q))
unfolding run_call
run_call-Follows (add j rq) q v h = add-Follows j q rq h
run_call-Follows (dispatch j) q v h = dispatch-Follows j q v
run_call-Follows (merged rq next) q v (ne, es, ed, a, b) = merge-Follows q rq next v ne es ed a b

-- Any calls that the block layer may make, from lists that keep the invariant, keep it, and leave
-- each request where a scheduler promises, call by call: an added request waits, a dispatch serves
-- one request that waits unless none waits, of two merged requests the first goes on waiting and
-- the second is gone, and no other request moves.
pub run_calls-Runs :
    (cs : List SioCall) (q : RequestQueue)
    → IsValid q
    → AllAllowed cs q
    → IsValid (run_calls cs q) × Runs cs (place q) (place (run_calls cs q))
unfolding run_calls AllAllowed Runs
run_calls-Runs [] q v h = (v, λ k. refl)
run_calls-Runs (c ∷ cs) q v (a, h) =
    let (v', rest) = run_calls-Runs cs (run_call c q) (run_call-IsValid c q v a) h in
    (v', (place (run_call c q), run_call-Follows c q v a, rest))
