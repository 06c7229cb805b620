-- ===== src/Sio/Merge.antt =====
-- `sio_merged_requests` and the request that remains.
use android_device_motorola.Prelude.{
  ℕ, ◌+◌, ◌-◌, ◌≡◌, ◌≢◌, ◌⊎◌, refl, Bool-cases, inl, inr, true, List, [], ◌∷◌, arith, count, min,
  subst, ◌==◌, if◌then◌else◌, ap, ==_iff,
}
use android_device_motorola.Sio.{
  Sync, async, sync, DataDir, read, write, RequestQueue, queued, linked, del, add_behind, list_move,
  rq_set_fifo_time, rq_fifo_clear, time_before, sio_merged_requests,
}
use android_device_motorola.Sio.Entries.{count-del, count-add_behind}
use android_device_motorola.Sio.Valid.{IsValid, rq_fifo_clear-IsValid}

-- The first part of the merge: the move, where the deadlines ask for it.
pub moved : RequestQueue → ℕ → ℕ → RequestQueue
moved q rq next = rq_set_fifo_time rq (q.rqs next).fifo_time (list_move rq next q)

pub count-moved :
    (q : RequestQueue) (rq next r : ℕ) (s : Sync) (d : DataDir)
    → rq ≢ next
    → count r ((moved q rq next).sd.fifo_list s d)
      ≡ (if rq == r then count r (q.sd.fifo_list s d) - 1 else count r (q.sd.fifo_list s d))
        + (if rq == r then (if count next (q.sd.fifo_list s d) == 0 then 0 else 1) else 0)
unfolding moved list_move rq_set_fifo_time
count-moved q rq next r s d ne = ground (
  arith,
  count-add_behind r next rq (del rq (q.sd.fifo_list s d)),
  count-del r rq (q.sd.fifo_list s d),
  count-del next rq (q.sd.fifo_list s d),
)

pub count_dispatched-moved :
    (q : RequestQueue) (rq next r : ℕ)
    → rq ≢ next
    → count r (moved q rq next).dispatched
      ≡ (if rq == r then count r q.dispatched - 1 else count r q.dispatched)
        + (if rq == r then (if count next q.dispatched == 0 then 0 else 1) else 0)
unfolding moved list_move rq_set_fifo_time
count_dispatched-moved q rq next r ne = ground (
  arith,
  count-add_behind r next rq (del rq q.dispatched),
  count-del r rq q.dispatched,
  count-del next rq q.dispatched,
)

class-moved :
    (q : RequestQueue) (rq next r : ℕ)
    → (((moved q rq next).rqs r).is_sync ≡ (q.rqs r).is_sync)
      × (((moved q rq next).rqs r).data_dir ≡ (q.rqs r).data_dir)
unfolding moved rq_set_fifo_time list_move
class-moved q rq next r = ground arith

count-moved_self :
    (q : RequestQueue) (rq next : ℕ) (s : Sync) (d : DataDir)
    → rq ≢ next
    → count rq ((moved q rq next).sd.fifo_list s d)
      ≡ count rq (q.sd.fifo_list s d) - 1 + min (count next (q.sd.fifo_list s d)) 1
count-moved_self q rq next s d ne = ground (arith, count-moved q rq next rq s d ne)

moved-once_self :
    (q : RequestQueue) (rq next : ℕ)
    → IsValid q
    → rq ≢ next
    → queued q rq + count rq q.dispatched ≢ 0
    → queued q next + count next q.dispatched ≢ 0
    → queued (moved q rq next) rq + count rq (moved q rq next).dispatched
      ≡ queued q rq + count rq q.dispatched
moved-once_self q rq next v ne h k =
    let dispatched' : count rq (moved q rq next).dispatched
        ≡ count rq q.dispatched - 1 + min (count next q.dispatched) 1 =
      ground (arith, count_dispatched-moved q rq next rq ne) in
    omega (
      arith,
      v.once rq,
      v.once next,
      count-moved_self q rq next sync read ne,
      count-moved_self q rq next sync write ne,
      count-moved_self q rq next async read ne,
      count-moved_self q rq next async write ne,
    )

pub moved-once :
    (q : RequestQueue) (rq next r : ℕ)
    → IsValid q
    → rq ≢ next
    → queued q rq + count rq q.dispatched ≢ 0
    → queued q next + count next q.dispatched ≢ 0
    → queued (moved q rq next) r + count r (moved q rq next).dispatched
      ≡ queued q r + count r q.dispatched
moved-once q rq next r v ne h k = elim (Bool-cases (rq == r)) [
  | inl e ↦
      subst
        (λ k.
          queued (moved q rq next) k + count k (moved q rq next).dispatched
          ≡ queued q k + count k q.dispatched)
        ((==_iff rq r).0 e) (moved-once_self q rq next v ne h k)
  | inr e ↦ ground (
    arith,
    count-moved q rq next r sync read ne,
    count-moved q rq next r sync write ne,
    count-moved q rq next r async read ne,
    count-moved q rq next r async write ne,
    count_dispatched-moved q rq next r ne,
  )
]

pub moved-IsValid :
    (q : RequestQueue) (rq next : ℕ)
    → IsValid q
    → rq ≢ next
    → queued q rq + count rq q.dispatched ≢ 0
    → queued q next + count next q.dispatched ≢ 0
    → (q.rqs rq).is_sync ≡ (q.rqs next).is_sync
    → (q.rqs rq).data_dir ≡ (q.rqs next).data_dir
    → IsValid (moved q rq next)
moved-IsValid q rq next v ne h k es ed = record {
  once = λ r. omega (arith, moved-once q rq next r v ne h k, v.once r);
  class_sync = λ r s d c. ground (
    arith,
    count-moved q rq next r s d ne,
    class-moved q rq next r,
    v.class_sync r s d,
    v.class_sync next s d,
  );
  class_dir = λ r s d c. ground (
    arith,
    count-moved q rq next r s d ne,
    class-moved q rq next r,
    v.class_dir r s d,
    v.class_dir next s d,
  );
}

-- What `sio_merged_requests` does, by cases of its tests.
abbrev pub MergeMoves : RequestQueue → ℕ → ℕ → Type 0
MergeMoves q rq next =
    (linked q rq ≡ true)
    × (linked q next ≡ true)
    × (time_before (q.rqs next).fifo_time (q.rqs rq).fifo_time ≡ true)

pub merge_cases :
    (q : RequestQueue) (rq next : ℕ)
    → (MergeMoves q rq next
        × (sio_merged_requests q rq next ≡ rq_fifo_clear next (moved q rq next)))
      ⊎ (¬ MergeMoves q rq next × (sio_merged_requests q rq next ≡ rq_fifo_clear next q))
unfolding sio_merged_requests moved
merge_cases q rq next = elim (Bool-cases (linked q rq)) [
  | inr e ↦ inr (λ m. cc, rw e refl)
  | inl e ↦ elim (Bool-cases (linked q next)) [
    | inr f ↦ inr (λ m. cc, rw (e, f) refl)
    | inl f ↦ elim (Bool-cases (time_before (q.rqs next).fifo_time (q.rqs rq).fifo_time)) [
      | inr g ↦ inr (λ m. cc, rw (e, f, g) refl)
      | inl g ↦ inl ((e, f, g), rw (e, f, g) refl)
    ]
  ]
]

pub linked_iff :
    (q : RequestQueue) (r : ℕ) → linked q r ≡ true → queued q r + count r q.dispatched ≢ 0
linked_iff q r h = ground arith

-- Merging two different requests of one class keeps the invariant of the lists.
pub sio_merged_requests-IsValid :
    (q : RequestQueue) (rq next : ℕ)
    → IsValid q
    → rq ≢ next
    → (q.rqs rq).is_sync ≡ (q.rqs next).is_sync
    → (q.rqs rq).data_dir ≡ (q.rqs next).data_dir
    → IsValid (sio_merged_requests q rq next)
sio_merged_requests-IsValid q rq next v ne es ed = elim (merge_cases q rq next) [
  | inl (m, p) ↦ rw p (
      rq_fifo_clear-IsValid next (moved q rq next)
        (moved-IsValid q rq next v ne (linked_iff q rq m.0) (linked_iff q next m.1) es ed))
  | inr (n, p) ↦ rw p (rq_fifo_clear-IsValid next q v)
]

-- One entry of a list in the place of another.
unfoldable pub replace : ℕ → ℕ → List ℕ → List ℕ
replace next rq [] = []
replace next rq (x ∷ xs) = if x == next then rq ∷ xs else x ∷ replace next rq xs

del-add_behind : (next rq : ℕ) (l : List ℕ) → del next (add_behind next rq l) ≡ replace next rq l
unfolding del add_behind replace
del-add_behind next rq [] = refl
del-add_behind next rq (x ∷ xs) = elim (Bool-cases (x == next)) [
  | inl e ↦ rw e (rw e refl)
  | inr e ↦ rw e (rw e (ap (◌∷◌ x) (del-add_behind next rq xs)))
]

-- Of two different requests: where both are linked and `next` has the earlier deadline, `rq` takes
-- the deadline of `next` and, on every list, the place of `next`; in every other case `rq` keeps
-- its deadline, and `next` is deleted from every list.
pub sio_merged_requests_moves :
    (q : RequestQueue) (rq next : ℕ) (s : Sync) (d : DataDir)
    → rq ≢ next
    → let q' = sio_merged_requests q rq next in
      (MergeMoves q rq next
        × ((q'.rqs rq).fifo_time ≡ (q.rqs next).fifo_time)
        × (q'.sd.fifo_list s d ≡ replace next rq (del rq (q.sd.fifo_list s d))))
      ⊎ (¬ MergeMoves q rq next
          × ((q'.rqs rq).fifo_time ≡ (q.rqs rq).fifo_time)
          × (q'.sd.fifo_list s d ≡ del next (q.sd.fifo_list s d)))
unfolding moved rq_fifo_clear list_move rq_set_fifo_time
sio_merged_requests_moves q rq next s d ne = elim (merge_cases q rq next) [
  | inl (m, p) ↦
      inl (m, rw p (ground (arith)), rw p (del-add_behind next rq (del rq (q.sd.fifo_list s d))))
  | inr (n, p) ↦ inr (n, rw p (ground (arith)), rw p refl)
]
