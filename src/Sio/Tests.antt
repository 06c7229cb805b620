-- ===== src/Sio/Tests.antt =====
-- The scheduler on concrete queues.
use android_device_motorola.Prelude.{
  ℕ, ◌+◌, ◌*◌, ◌/◌, ◌≤◌, ◌<◌, ◌≡◌, ◌⊎◌, refl, true, [], ◌∷◌, some, arith, count, if◌then◌else◌,
  ◌==◌, List,
}
use android_device_motorola.Prelude.Int.{pos, negsuc}
use android_device_motorola.Sio.{
  Sync, async, sync, DataDir, read, write, Request, SioData, RequestQueue, queued, sio_init_queue,
  sio_exit_queue, sio_queue_empty, sio_add_request, rq_set_fifo_time, sio_dispatch_requests,
  sio_dispatch_request, dispatch_choice, end_batch, sio_merged_requests, default_expire, del,
  time_after, sio_choose_request,
}
use android_device_motorola.Sio.Valid.{IsValid, sio_add_request-IsValid}
use android_device_motorola.Sio.Choice.{IsOldest, IsExpired}
use android_device_motorola.Sio.Dispatch.{sio_dispatch_requests-IsValid}
use android_device_motorola.Sio.Drain.{
  pending, sio_dispatch_requests_works, dispatch_at, dispatch_at_drains,
}
use android_device_motorola.Sio.Fairness.{
  reads_before_write, deadline_served, async_write_deadline_served,
}
use android_device_motorola.Sio.Merge.{
  sio_merged_requests-IsValid, sio_merged_requests_moves, replace, MergeMoves,
}
use android_device_motorola.Sio.Refinement.{
  SioCall, add, merged, dispatch, AllAllowed, run_call, run_calls, Runs, place, run_calls-Runs,
}
use android_device_motorola.Sio.Settings.{
  new_queue, sio_init_queue-IsValid, clamp, InRange, expire, batch, store_attr, show_attr,
  store_attr-InRange, show_attr-store_attr,
}

-- Requests 1 and 3 are synchronous reads, 2 an asynchronous write, all others synchronous writes.
abbrev requests : ℕ → Request
requests r =
    if r == 2
    then record { is_sync = async; data_dir = write; fifo_time = 0 }
    else (if r == 1
        then record { is_sync = sync; data_dir = read; fifo_time = 0 }
        else (if r == 3
            then record { is_sync = sync; data_dir = read; fifo_time = 0 }
            else record { is_sync = sync; data_dir = write; fifo_time = 0 }))

abbrev memory : SioData
memory = record {
  fifo_list = λ s d. [];
  batched = 5;
  starved = 0;
  fifo_expire = λ s d. 0;
  fifo_batch = 0;
  writes_starved = 2;
}

abbrev fresh : SioData
fresh = record memory { batched = 0; fifo_expire = default_expire 100; fifo_batch = 8 }

abbrev start : RequestQueue
start = new_queue requests fresh

start_set_up : sio_init_queue 100 (some memory) ≡ some fresh
unfolding sio_init_queue
start_set_up = refl

sio_init_queue-IsValid_example :
    IsValid start
    × (sio_queue_empty fresh ≡ true)
    × (sio_exit_queue fresh ≡ true)
    × (fresh.batched ≡ 0)
unfolding sio_init_queue
sio_init_queue-IsValid_example = sio_init_queue-IsValid 100 memory requests refl

abbrev one : RequestQueue
one = sio_add_request 10 start 1

abbrev two : RequestQueue
two = sio_add_request 20 one 2

abbrev three : RequestQueue
three = sio_add_request 30 two 3

start-IsValid : IsValid start
unfolding sio_init_queue
start-IsValid = (sio_init_queue-IsValid 100 memory requests refl).0

one-IsValid : IsValid one
one-IsValid = sio_add_request-IsValid 10 start 1 start-IsValid refl

two-IsValid : IsValid two
unfolding sio_add_request
two-IsValid = sio_add_request-IsValid 20 one 2 one-IsValid refl

three-IsValid : IsValid three
unfolding sio_add_request
three-IsValid = sio_add_request-IsValid 30 two 3 two-IsValid refl

-- Reads first, in order, then the write.
three_drained : (dispatch_at (31 ∷ 32 ∷ 33 ∷ []) three).dispatched ≡ 1 ∷ 3 ∷ 2 ∷ []
unfolding dispatch_at sio_dispatch_requests sio_add_request dispatch_choice sio_dispatch_request
    end_batch sio_choose_request del
three_drained = refl

sio_add_request-IsValid_example : IsValid two
unfolding sio_add_request
sio_add_request-IsValid_example = sio_add_request-IsValid 20 one 2 one-IsValid refl

dispatch_at_drains_example :
    let q' = dispatch_at (31 ∷ 32 ∷ 33 ∷ []) three in
    (sio_queue_empty q'.sd ≡ true)
    × (sio_exit_queue q'.sd ≡ true)
    × (count 2 q'.dispatched ≡ queued three 2 + 0)
unfolding sio_add_request rq_set_fifo_time
dispatch_at_drains_example =
    dispatch_at_drains (31 ∷ 32 ∷ 33 ∷ []) three 2 three-IsValid (omega arith)

sio_dispatch_requests_works_example :
    let (ret, q') = sio_dispatch_requests 31 three in
    ((pending three.sd ≡ 0) × (ret ≡ 0) × (pending q'.sd ≡ 0))
    ⊎ ((0 < pending three.sd) × (ret ≡ 1) × (pending q'.sd + 1 ≡ pending three.sd))
sio_dispatch_requests_works_example = sio_dispatch_requests_works 31 three three-IsValid

sio_dispatch_requests-IsValid_example : IsValid (sio_dispatch_requests 31 three).1
sio_dispatch_requests-IsValid_example = sio_dispatch_requests-IsValid 31 three three-IsValid

reads_before_write_example : 2 ≤ 3
unfolding sio_add_request dispatch_choice sio_dispatch_requests sio_dispatch_request end_batch
    sio_choose_request del
reads_before_write_example =
    reads_before_write (31 ∷ 32 ∷ []) three three-IsValid (omega arith) (omega arith) (omega arith)
      (omega arith) ((1, refl, refl), ((3, refl, refl), tt))

-- After nine dispatches the deadlines are looked at: request 2 is due at 20 + 1600.
abbrev late : RequestQueue
late = record three { sd = record (three.sd) { batched = 9 } }

deadline_served_example :
    (x : ℕ) × (sio_dispatch_requests 2000 late ≡ (1, sio_dispatch_request (end_batch late) x))
    × IsExpired 2000 late x
    × ((s' : Sync) × (d' : DataDir) × IsOldest late x s' d')
unfolding sio_add_request rq_set_fifo_time time_after
deadline_served_example = deadline_served 2000 late 2 async write (omega arith) refl refl

async_write_deadline_served_example :
    sio_dispatch_requests 2000 late ≡ (1, sio_dispatch_request (end_batch late) 2)
unfolding sio_add_request rq_set_fifo_time time_after
async_write_deadline_served_example =
    async_write_deadline_served 2000 late 2 (omega arith) refl refl

sio_merged_requests-IsValid_example : IsValid (sio_merged_requests three 3 1)
unfolding sio_add_request rq_set_fifo_time
sio_merged_requests-IsValid_example =
    sio_merged_requests-IsValid three 3 1 three-IsValid (omega arith) refl refl

sio_merged_requests_moves_example :
    let q' = sio_merged_requests three 3 1 in
    (MergeMoves three 3 1
      × ((q'.rqs 3).fifo_time ≡ 60)
      × (q'.sd.fifo_list sync read ≡ replace 1 3 (del 3 (1 ∷ 3 ∷ []))))
    ⊎ (¬ MergeMoves three 3 1
        × ((q'.rqs 3).fifo_time ≡ (three.rqs 3).fifo_time)
        × (q'.sd.fifo_list sync read ≡ del 1 (1 ∷ 3 ∷ [])))
unfolding sio_add_request rq_set_fifo_time
sio_merged_requests_moves_example = sio_merged_requests_moves three 3 1 sync read (omega arith)

fresh-InRange : InRange fresh
fresh-InRange = omega arith

store_attr-InRange_example : InRange (store_attr (λ m. m / 10) (λ j. 10 * j) batch (negsuc 3) fresh)
store_attr-InRange_example =
    store_attr-InRange (λ m. m / 10) (λ j. 10 * j) batch (negsuc 3) fresh fresh-InRange

show_attr-store_attr_example :
    let sd' = store_attr (λ m. m / 10) (λ j. 10 * j) (expire sync read) (pos 500) fresh in
    (show_attr (λ m. m / 10) (λ j. 10 * j) (expire sync read) sd' ≡ 500)
    × (sd'.fifo_list ≡ fresh.fifo_list)
    × (sd'.batched ≡ 0)
    × (sd'.starved ≡ 0)
unfolding clamp
show_attr-store_attr_example =
    show_attr-store_attr (λ m. m / 10) (λ j. 10 * j) (expire sync read) (pos 500) fresh

-- Requests 1 and 3 come in, 3 is merged into 1, and 1 is served.
abbrev session : List SioCall
session = add 10 1 ∷ (add 11 3 ∷ (merged 1 3 ∷ (dispatch 20 ∷ [])))

session_allowed : AllAllowed session start
unfolding AllAllowed run_call sio_add_request rq_set_fifo_time
session_allowed = (refl, (refl, ((omega arith, refl, refl, refl, refl), (tt, tt))))

run_calls-Runs_example :
    IsValid (run_calls session start) × Runs session (place start) (place (run_calls session start))
run_calls-Runs_example =
    run_calls-Runs session start (sio_init_queue-IsValid 100 memory requests start_set_up).0
      session_allowed
