-- ===== src/Sio/Choice.antt =====
-- Which request the scheduler chooses: sio_choose_request and sio_choose_expired_request.
use android_device_motorola.Prelude.{
  ℕ, ◌≡◌, ◌≢◌, refl, Bool-cases, inl, inr, true, List, [], ◌∷◌, some, none, arith, count,
  Option-cases, ◌↔◌,
}
use android_device_motorola.Sio.{
  Sync, async, sync, DataDir, read, write, Request, SioData, RequestQueue, other_dir,
  sio_choose_request, sio_choose_expired_request, sio_expired_request, expired_head,
  sio_queue_empty, first_entry, list_empty, dispatch_choice, batch_choice, end_batch, preferred_dir,
  time_after,
}

-- A request is the oldest of the list of a class.
abbrev pub IsOldest : RequestQueue → ℕ → Sync → DataDir → Type 0
IsOldest q r s d = first_entry (q.sd.fifo_list s d) ≡ some r

-- The deadline of a request has passed.
abbrev pub IsExpired : ℕ → RequestQueue → ℕ → Type 0
IsExpired j q r = time_after j (q.rqs r).fifo_time ≡ true

pub list_empty-count : (l : List ℕ) (r : ℕ) → list_empty l ≡ true → count r l ≡ 0
list_empty-count [] r h = refl
list_empty-count (x ∷ l) r h = absurd (ground arith)

pub first_entry-none : (l : List ℕ) → (first_entry l ≡ none) ↔ (list_empty l ≡ true)
first_entry-none [] = ground arith
first_entry-none (x ∷ l) = ground arith

pub expired_head-some :
    (j : ℕ) (rqs : ℕ → Request) (l : List ℕ) (r : ℕ)
    → expired_head j rqs l ≡ some r
    → (first_entry l ≡ some r) × (time_after j (rqs r).fifo_time ≡ true)
expired_head-some j rqs [] r h = absurd (ground arith)
expired_head-some j rqs (x ∷ l) r h = elim (Bool-cases (time_after j (rqs x).fifo_time)) [
  | inl e ↦ ground arith
  | inr e ↦ ground arith
]

-- Whatever `sio_choose_request` returns is the oldest request of a class.
pub sio_choose_request-IsOldest :
    (q : RequestQueue) (d : DataDir) (r : ℕ)
    → sio_choose_request q.sd d ≡ some r
    → (s : Sync) × (d' : DataDir) × IsOldest q r s d'
unfolding sio_choose_request
sio_choose_request-IsOldest q d r h = elim (Option-cases (first_entry (q.sd.fifo_list sync d))) [
  | inl n1 ↦ elim (Option-cases (first_entry (q.sd.fifo_list async d))) [
    | inl n2 ↦ elim (Option-cases (first_entry (q.sd.fifo_list sync (other_dir d)))) [
      | inl n3 ↦ (async, other_dir d, ground arith)
      | inr e ↦ (sync, other_dir d, ground arith)
    ]
    | inr e ↦ (async, d, ground arith)
  ]
  | inr e ↦ (sync, d, ground arith)
]

pub sio_choose_request-none :
    (sd : SioData) (d : DataDir) → (sio_choose_request sd d ≡ none) ↔ (sio_queue_empty sd ≡ true)
unfolding sio_choose_request sio_queue_empty
sio_choose_request-none sd d = ground (
  arith,
  first_entry-none (sd.fifo_list sync read),
  first_entry-none (sd.fifo_list sync write),
  first_entry-none (sd.fifo_list async read),
  first_entry-none (sd.fifo_list async write),
)

-- What an expired request on a list of a class is chosen by.
pub sio_expired_request-some :
    (j : ℕ) (q : RequestQueue) (r : ℕ) (s : Sync) (d : DataDir)
    → sio_expired_request j q s d ≡ some r
    → IsOldest q r s d × IsExpired j q r
unfolding sio_expired_request
sio_expired_request-some j q r s d h = expired_head-some j q.rqs (q.sd.fifo_list s d) r h

pub sio_expired_request_complete :
    (j : ℕ) (q : RequestQueue) (r : ℕ) (s : Sync) (d : DataDir)
    → IsOldest q r s d
    → IsExpired j q r
    → sio_expired_request j q s d ≡ some r
unfolding sio_expired_request
sio_expired_request_complete j q r s d = head (q.sd.fifo_list s d)
  where
    head : (l : List ℕ) → first_entry l ≡ some r → IsExpired j q r → expired_head j q.rqs l ≡ some r
    head [] h e = absurd (ground arith)
    head (x ∷ l) h e = ground arith

pub sio_choose_expired_request-some :
    (j : ℕ) (q : RequestQueue) (r : ℕ)
    → sio_choose_expired_request j q ≡ some r
    → (s : Sync) × (d : DataDir) × (IsOldest q r s d × IsExpired j q r)
unfolding sio_choose_expired_request
sio_choose_expired_request-some j q r h =
    elim (Option-cases (sio_expired_request j q async write)) [
      | inl n1 ↦ elim (Option-cases (sio_expired_request j q async read)) [
        | inl n2 ↦ elim (Option-cases (sio_expired_request j q sync write)) [
          | inl n3 ↦ (sync, read, ground (arith, sio_expired_request-some j q r sync read))
          | inr e ↦ (sync, write, ground (arith, sio_expired_request-some j q r sync write))
        ]
        | inr e ↦ (async, read, ground (arith, sio_expired_request-some j q r async read))
      ]
      | inr e ↦ (async, write, ground (arith, sio_expired_request-some j q r async write))
    ]

pub sio_choose_expired_request_complete :
    (j : ℕ) (q : RequestQueue) (r : ℕ) (s : Sync) (d : DataDir)
    → IsOldest q r s d
    → IsExpired j q r
    → sio_choose_expired_request j q ≢ none
unfolding sio_choose_expired_request
sio_choose_expired_request_complete j q r async read h e =
    ground (arith, sio_expired_request_complete j q r async read)
sio_choose_expired_request_complete j q r async write h e =
    ground (arith, sio_expired_request_complete j q r async write)
sio_choose_expired_request_complete j q r sync read h e =
    ground (arith, sio_expired_request_complete j q r sync read)
sio_choose_expired_request_complete j q r sync write h e =
    ground (arith, sio_expired_request_complete j q r sync write)

-- Ending a batch touches nothing but `batched`.
pub end_batch-lists :
    (q : RequestQueue)
    → ((end_batch q).sd.fifo_list ≡ q.sd.fifo_list)
      × ((end_batch q).rqs ≡ q.rqs)
      × ((end_batch q).dispatched ≡ q.dispatched)
      × ((end_batch q).sd.starved ≡ q.sd.starved)
      × ((end_batch q).sd.writes_starved ≡ q.sd.writes_starved)
      × ((end_batch q).sd.fifo_batch ≡ q.sd.fifo_batch)
unfolding end_batch
end_batch-lists q = ground arith

pub end_batch-IsOldest :
    (q : RequestQueue) (r : ℕ) (s : Sync) (d : DataDir)
    → IsOldest (end_batch q) r s d
    → IsOldest q r s d
unfolding end_batch
end_batch-IsOldest q r s d h = ground arith

pub sio_queue_empty-end_batch :
    (q : RequestQueue) → sio_queue_empty (end_batch q).sd ≡ sio_queue_empty q.sd
unfolding end_batch sio_queue_empty
sio_queue_empty-end_batch q = ground arith

pub sio_queue_empty-first_entry :
    (q : RequestQueue) (s : Sync) (d : DataDir)
    → sio_queue_empty q.sd ≡ true
    → first_entry (q.sd.fifo_list s d) ≡ none
unfolding sio_queue_empty
sio_queue_empty-first_entry q sync read h =
    ground (arith, first_entry-none (q.sd.fifo_list sync read))
sio_queue_empty-first_entry q sync write h =
    ground (arith, first_entry-none (q.sd.fifo_list sync write))
sio_queue_empty-first_entry q async read h =
    ground (arith, first_entry-none (q.sd.fifo_list async read))
sio_queue_empty-first_entry q async write h =
    ground (arith, first_entry-none (q.sd.fifo_list async write))

pub batch_choice-IsOldest :
    (j : ℕ) (q : RequestQueue) (r : ℕ)
    → batch_choice j q ≡ some r
    → (s : Sync) × (d : DataDir) × (IsOldest (end_batch q) r s d × IsExpired j (end_batch q) r)
unfolding batch_choice
batch_choice-IsOldest j q r h = sio_choose_expired_request-some j (end_batch q) r (ground arith)

-- Whatever is chosen for dispatch is the oldest request of a class.
pub dispatch_choice-IsOldest :
    (j : ℕ) (q : RequestQueue) (r : ℕ)
    → dispatch_choice j q ≡ some r
    → (s : Sync) × (d : DataDir) × IsOldest q r s d
unfolding dispatch_choice
dispatch_choice-IsOldest j q r h = elim (Option-cases (batch_choice j q)) [
  | inl n ↦
      let (s, d, p) =
        sio_choose_request-IsOldest (end_batch q) (preferred_dir (end_batch q).sd) r
          (ground arith) in
      (s, d, end_batch-IsOldest q r s d p)
  | inr e ↦
      let (s, d, p) = batch_choice-IsOldest j q r (ground arith) in
      (s, d, end_batch-IsOldest q r s d p.0)
]

-- Nothing is chosen exactly when all lists are empty.
pub dispatch_choice-none :
    (j : ℕ) (q : RequestQueue) → (dispatch_choice j q ≡ none) ↔ (sio_queue_empty q.sd ≡ true)
unfolding dispatch_choice
dispatch_choice-none j q = elim (Option-cases (batch_choice j q)) [
  | inl n ↦ ground (
    arith,
    sio_choose_request-none (end_batch q).sd (preferred_dir (end_batch q).sd),
    sio_queue_empty-end_batch q,
  )
  | inr (r, e) ↦
      let (s, d, p) = batch_choice-IsOldest j q r e in
      ground (arith, sio_queue_empty-first_entry q s d, end_batch-IsOldest q r s d p.0)
]
