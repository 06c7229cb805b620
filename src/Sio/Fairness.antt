-- ===== src/Sio/Fairness.antt =====
-- How requests that wait fare in sio_dispatch_requests: writes against reads, and deadlines.
use android_device_motorola.Prelude.{
  ℕ, ◌+◌, ◌-◌, ◌≤◌, ◌<◌, ◌^◌, ◌%◌, ◌≡◌, ◌⊎◌, refl, inl, inr, List, [], ◌∷◌, some, none, arith,
  length, Option-cases, lt→ltb,
}
use native.Mathlib.Decide.{dec_le}
use android_device_motorola.Sio.{
  Sync, async, sync, DataDir, read, write, SioData, RequestQueue, del, first_entry, rq_fifo_clear,
  sio_dispatch_request, sio_dispatch_requests, dispatch_choice, batch_choice, end_batch,
  preferred_dir, sio_choose_request, sio_choose_expired_request,
}
use android_device_motorola.Sio.Entries.{del_absent, first_entry-count}
use android_device_motorola.Sio.Valid.{IsValid}
use android_device_motorola.Sio.Choice.{
  IsOldest, IsExpired, end_batch-lists, end_batch-IsOldest, sio_choose_expired_request_complete,
  sio_choose_expired_request-some, sio_expired_request_complete,
}
use android_device_motorola.Sio.Dispatch.{sio_dispatch_requests-IsValid}

-- How many writes wait.
abbrev pub pending_writes : SioData → ℕ
pending_writes sd = length (sd.fifo_list sync write) + length (sd.fifo_list async write)

first_entry-length : (l : List ℕ) → (length l ≡ 0) ⊎ ((x : ℕ) × (first_entry l ≡ some x))
first_entry-length [] = inl refl
first_entry-length (x ∷ l) = inr (x, refl)

-- Served first, a pending write is chosen.
chooses_write :
    (q : RequestQueue)
    → IsValid q
    → 0 < pending_writes q.sd
    → (x : ℕ) × (sio_choose_request q.sd write ≡ some x) × ((q.rqs x).data_dir ≡ write)
unfolding sio_choose_request
chooses_write q v h = elim (first_entry-length (q.sd.fifo_list sync write)) [
  | inl n ↦ elim (first_entry-length (q.sd.fifo_list async write)) [
    | inl m ↦ absurd (omega arith)
    | inr (x, e) ↦ (
      x,
      ground (arith, first_entry-none_of_length (q.sd.fifo_list sync write)),
      v.class_dir x async write (first_entry-count (q.sd.fifo_list async write) e),
    )
  ]
  | inr (x, e) ↦
      (x, ground arith, v.class_dir x sync write (first_entry-count (q.sd.fifo_list sync write) e))
]
  where
    first_entry-none_of_length : (l : List ℕ) → length l ≡ 0 → first_entry l ≡ none
    first_entry-none_of_length [] p = refl
    first_entry-none_of_length (y ∷ l) p = absurd (omega arith)

-- Within a batch the choice is the one of `sio_choose_request`.
dispatch_choice_in_batch :
    (j : ℕ) (q : RequestQueue)
    → q.sd.batched ≤ q.sd.fifo_batch
    → (dispatch_choice j q ≡ sio_choose_request q.sd (preferred_dir q.sd)) × (end_batch q ≡ q)
unfolding dispatch_choice batch_choice end_batch
dispatch_choice_in_batch j q h = ground arith

-- Within a batch, once more than `writes_starved` reads were served in a row, a pending write is
-- chosen next.
pub starved_write_chosen :
    (j : ℕ) (q : RequestQueue)
    → IsValid q
    → q.sd.batched ≤ q.sd.fifo_batch
    → q.sd.writes_starved < q.sd.starved
    → 0 < pending_writes q.sd
    → (x : ℕ) × (dispatch_choice j q ≡ some x) × ((q.rqs x).data_dir ≡ write)
unfolding preferred_dir
starved_write_chosen j q v b s w =
    let (x, e, d) = chooses_write q v w in (x, ground (arith, dispatch_choice_in_batch j q), d)

-- Each of the calls serves a read.
abbrev pub AllReads : List ℕ → RequestQueue → Type 0
AllReads [] q = Unit {0}
AllReads (j ∷ js) q =
    ((x : ℕ) × (dispatch_choice j q ≡ some x) × ((q.rqs x).data_dir ≡ read))
    × AllReads js (sio_dispatch_requests j q).1

-- A read served within a batch: one more for both counters, and the writes wait on.
after_read :
    (j : ℕ) (q : RequestQueue) (x : ℕ)
    → IsValid q
    → q.sd.batched ≤ q.sd.fifo_batch
    → dispatch_choice j q ≡ some x
    → (q.rqs x).data_dir ≡ read
    → let sd' = (sio_dispatch_requests j q).1.sd in
      (sd'.starved ≡ (q.sd.starved + 1) % 2 ^ 32)
      × (sd'.batched ≡ (q.sd.batched + 1) % 2 ^ 32)
      × (sd'.fifo_batch ≡ q.sd.fifo_batch)
      × (sd'.writes_starved ≡ q.sd.writes_starved)
      × (pending_writes sd' ≡ pending_writes q.sd)
unfolding sio_dispatch_requests sio_dispatch_request rq_fifo_clear
after_read j q x v b c d =
    rw (c, (dispatch_choice_in_batch j q b).1, d)
      (refl, refl, refl, refl, rw (absent sync, absent async) refl)
  where
    absent : (s : Sync) → del x (q.sd.fifo_list s write) ≡ q.sd.fifo_list s write
    absent s = del_absent x (q.sd.fifo_list s write) (ground (arith, v.class_dir x s write))

-- On lists that keep the invariant, with a write pending, within one batch, and with settings below
-- 2^31: if a run of dispatches serves reads only, there are at most `writes_starved + 1` of them,
-- less those already counted in `starved`.
pub reads_before_write :
    (js : List ℕ) (q : RequestQueue)
    → IsValid q
    → 0 < pending_writes q.sd
    → q.sd.batched + length js ≤ q.sd.fifo_batch + 1
    → q.sd.fifo_batch < 2 ^ 31
    → q.sd.writes_starved < 2 ^ 31
    → AllReads js q
    → length js ≤ q.sd.writes_starved + 1 - q.sd.starved
reads_before_write [] q v w b fb ws a = omega arith
reads_before_write (j ∷ js) q v w b fb ws ((x, c, d), a) =
    let (s', b', fb', ws', w') = after_read j q x v (omega arith) c d in
    let few : q.sd.starved ≤ q.sd.writes_starved =
      not_starved (dec_le q.sd.starved q.sd.writes_starved) in
    let ih : length js
        ≤ (sio_dispatch_requests j q).1.sd.writes_starved
          + 1
          - (sio_dispatch_requests j q).1.sd.starved =
      reads_before_write js (sio_dispatch_requests j q).1 (sio_dispatch_requests-IsValid j q v)
        (omega arith) (omega arith) (omega arith) (omega arith) a in
    omega arith
  where
    not_starved : Dec (q.sd.starved ≤ q.sd.writes_starved) → q.sd.starved ≤ q.sd.writes_starved
    not_starved (yes p) = p
    not_starved (no n) =
        let (y, e, w') = starved_write_chosen j q v (omega arith) (omega arith) w in
        absurd (ground arith)

to_end_batch :
    (j : ℕ) (q : RequestQueue) (r : ℕ) (s : Sync) (d : DataDir)
    → IsOldest q r s d
    → IsExpired j q r
    → IsOldest (end_batch q) r s d × IsExpired j (end_batch q) r
unfolding end_batch
to_end_batch j q r s d o x = ground arith

serves_expired_choice :
    (j : ℕ) (q : RequestQueue) (x : ℕ)
    → q.sd.fifo_batch < q.sd.batched
    → sio_choose_expired_request j (end_batch q) ≡ some x
    → sio_dispatch_requests j q ≡ (1, sio_dispatch_request (end_batch q) x)
unfolding sio_dispatch_requests dispatch_choice batch_choice
serves_expired_choice j q x b e = rw (lt→ltb _ _ b, e) refl

-- When more than `fifo_batch` requests were dispatched since the last look at the deadlines, and
-- the oldest request of some class has passed its deadline, the next dispatch serves a request that
-- has passed its deadline and is the oldest of its class.
pub deadline_served :
    (j : ℕ) (q : RequestQueue) (r : ℕ) (s : Sync) (d : DataDir)
    → q.sd.fifo_batch < q.sd.batched
    → IsOldest q r s d
    → IsExpired j q r
    → (x : ℕ) × (sio_dispatch_requests j q ≡ (1, sio_dispatch_request (end_batch q) x))
      × IsExpired j q x
      × ((s' : Sync) × (d' : DataDir) × IsOldest q x s' d')
deadline_served j q r s d b o x = elim (Option-cases (sio_choose_expired_request j (end_batch q))) [
  | inl n ↦
      let (o', x') = to_end_batch j q r s d o x in
      absurd (sio_choose_expired_request_complete j (end_batch q) r s d o' x' n)
  | inr (y, e) ↦
      let (s', d', p) = sio_choose_expired_request-some j (end_batch q) y e in
      (
        y,
        serves_expired_choice j q y b e,
        rw (end_batch-lists q).1 at p.1,
        (s', d', end_batch-IsOldest q y s' d' p.0),
      )
]

-- In the same situation an asynchronous write that is the oldest of its class and has passed its
-- deadline is served before all others.
pub async_write_deadline_served :
    (j : ℕ) (q : RequestQueue) (r : ℕ)
    → q.sd.fifo_batch < q.sd.batched
    → IsOldest q r async write
    → IsExpired j q r
    → sio_dispatch_requests j q ≡ (1, sio_dispatch_request (end_batch q) r)
unfolding sio_choose_expired_request
async_write_deadline_served j q r b o x =
    let (o', x') = to_end_batch j q r async write o x in
    serves_expired_choice j q r b
      (ground (arith, sio_expired_request_complete j (end_batch q) r async write o' x'))
