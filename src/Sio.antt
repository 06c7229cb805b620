-- ===== src/Sio.antt =====
-- modules/overclock/sio-iosched.c: the "simple" I/O scheduler, an elevator with four FIFO lists of
-- requests (sync or async, read or write), deadlines and a bound on write starvation.
--
-- A `struct request` is its address, a number; `rqs` is the store of what the scheduler reads and
-- writes of a request. The kernel's `list_head` is the sequence of the entries. The requests given
-- to `elv_dispatch_add_tail` stand, in order, in `dispatched` (the block layer's dispatch queue).
pub mod Entries
pub mod Valid
pub mod Choice
pub mod Dispatch
pub mod Drain
pub mod Fairness
pub mod Merge
pub mod Refinement
pub mod Settings
mod Tests
use android_device_motorola.Prelude.{
  ℕ, ◌+◌, ◌*◌, ◌/◌, ◌^◌, Bool, true, false, not, ◌&&◌, Option, none, some, List, [], ◌∷◌, ◌++◌, ltb,
  leb, ◌==◌, ◌!=◌, if◌then◌else◌, u32, sub32, count,
}

-- `enum { ASYNC, SYNC }`, and the block layer's READ and WRITE.
pub data Sync : Type 0 where
  async sync : Sync

pub data DataDir : Type 0 where
  read write : DataDir

abbrev pub sync_eq : Sync → Sync → Bool
sync_eq async async = true
sync_eq sync sync = true
sync_eq _ _ = false

abbrev pub dir_eq : DataDir → DataDir → Bool
dir_eq read read = true
dir_eq write write = true
dir_eq _ _ = false

-- `!data_dir`
abbrev pub other_dir : DataDir → DataDir
other_dir read = write
other_dir write = read

pub record Request : Type 0 where
  pub is_sync : Sync
  pub data_dir : DataDir
  pub fifo_time : ℕ

-- `struct sio_data`. The two-dimensional arrays are functions of their indices.

pub record SioData : Type 0 where
  pub fifo_list : Sync → DataDir → List ℕ
  pub batched : ℕ
  pub starved : ℕ
  pub fifo_expire : Sync → DataDir → ℕ
  pub fifo_batch : ℕ
  pub writes_starved : ℕ

pub record RequestQueue : Type 0 where
  pub rqs : ℕ → Request
  pub sd : SioData
  pub dispatched : List ℕ

-- `time_after(a, b)` of the kernel: the signed 32-bit difference `b - a` is negative.
pub time_after : ℕ → ℕ → Bool
time_after a b = leb (2 ^ 31) (sub32 b a)

abbrev pub time_before : ℕ → ℕ → Bool
time_before a b = time_after b a

-- `list_del` of an entry, and `list_add` of `r` directly behind `next`.
pub del : ℕ → List ℕ → List ℕ
del r [] = []
del r (x ∷ xs) = if x == r then xs else x ∷ del r xs

pub add_behind : ℕ → ℕ → List ℕ → List ℕ
add_behind next r [] = []
add_behind next r (x ∷ xs) = if x == next then x ∷ r ∷ xs else x ∷ add_behind next r xs

-- On how many lists a request is linked; `!list_empty(&rq->queuelist)`.
abbrev pub queued : RequestQueue → ℕ → ℕ
queued q r =
    count r (q.sd.fifo_list sync read)
    + count r (q.sd.fifo_list sync write)
    + count r (q.sd.fifo_list async read)
    + count r (q.sd.fifo_list async write)

abbrev pub linked : RequestQueue → ℕ → Bool
linked q r = queued q r + count r q.dispatched != 0

-- An operation on the list that a request is on is the same operation on each of the lists: a
-- request that is not on a list is not touched there.
abbrev pub on_lists : (List ℕ → List ℕ) → RequestQueue → RequestQueue
on_lists f q = record q {
  sd = record (q.sd) { fifo_list = λ s d. f (q.sd.fifo_list s d) };
  dispatched = f q.dispatched;
}

-- `rq_fifo_clear`
pub rq_fifo_clear : ℕ → RequestQueue → RequestQueue
rq_fifo_clear r q = on_lists (del r) q

-- `list_move(&rq->queuelist, &next->queuelist)`
pub list_move : ℕ → ℕ → RequestQueue → RequestQueue
list_move r next q = on_lists (λ l. add_behind next r (del r l)) q

pub rq_set_fifo_time : ℕ → ℕ → RequestQueue → RequestQueue
rq_set_fifo_time r t q = record q {
  rqs = λ k. if k == r then record (q.rqs r) { fifo_time = t } else q.rqs k;
}

-- If `next` expires before `rq`, `rq` takes its place and its deadline; `next` is deleted.
pub sio_merged_requests : RequestQueue → ℕ → ℕ → RequestQueue
unfolding list_move rq_set_fifo_time rq_fifo_clear
sio_merged_requests q rq next = rq_fifo_clear next (
    if linked q rq && linked q next
    then (if time_before (q.rqs next).fifo_time (q.rqs rq).fifo_time
        then rq_set_fifo_time rq (q.rqs next).fifo_time (list_move rq next q)
        else q)
    else q)

pub sio_add_request : ℕ → RequestQueue → ℕ → RequestQueue
unfolding rq_set_fifo_time
sio_add_request jiffies q rq =
    let s = (q.rqs rq).is_sync in
    let d = (q.rqs rq).data_dir in
    let q' = rq_set_fifo_time rq (u32 (jiffies + q.sd.fifo_expire s d)) q in
    record q' {
      sd = record (q.sd) {
        fifo_list = λ s' d'.
            if sync_eq s' s && dir_eq d' d
            then q.sd.fifo_list s' d' ++ (rq ∷ [])
            else q.sd.fifo_list s' d';
      };
    }

abbrev pub list_empty : List ℕ → Bool
list_empty [] = true
list_empty (_ ∷ _) = false

pub sio_queue_empty : SioData → Bool
sio_queue_empty sd =
    list_empty (sd.fifo_list sync read)
    && list_empty (sd.fifo_list sync write)
    && list_empty (sd.fifo_list async read)
    && list_empty (sd.fifo_list async write)

-- The head of a list, if its deadline has passed.
abbrev pub expired_head : ℕ → (ℕ → Request) → List ℕ → Option ℕ
expired_head jiffies rqs [] = none
expired_head jiffies rqs (rq ∷ _) = if time_after jiffies (rqs rq).fifo_time then some rq else none

pub sio_expired_request : ℕ → RequestQueue → Sync → DataDir → Option ℕ
sio_expired_request jiffies q s d = expired_head jiffies q.rqs (q.sd.fifo_list s d)

-- `if (rq) return rq;` and on to what follows.
abbrev pub or_else : Option ℕ → Option ℕ → Option ℕ
or_else (some rq) _ = some rq
or_else none rest = rest

pub sio_choose_expired_request : ℕ → RequestQueue → Option ℕ
unfolding sio_expired_request
sio_choose_expired_request jiffies q = or_else (sio_expired_request jiffies q async write) (
    or_else (sio_expired_request jiffies q async read) (
      or_else (sio_expired_request jiffies q sync write) (sio_expired_request jiffies q sync read)))

-- `rq_entry_fifo(list.next)` of a list that is not empty.
abbrev pub first_entry : List ℕ → Option ℕ
first_entry [] = none
first_entry (rq ∷ _) = some rq

pub sio_choose_request : SioData → DataDir → Option ℕ
sio_choose_request sd d = or_else (first_entry (sd.fifo_list sync d)) (
    or_else (first_entry (sd.fifo_list async d)) (
      or_else (first_entry (sd.fifo_list sync (other_dir d)))
        (first_entry (sd.fifo_list async (other_dir d)))))

-- `starved` after a request of a direction was dispatched.
abbrev pub count_starved : DataDir → ℕ → ℕ
count_starved write n = 0
count_starved read n = u32 (n + 1)

pub sio_dispatch_request : RequestQueue → ℕ → RequestQueue
unfolding rq_fifo_clear
sio_dispatch_request q rq =
    let q' = rq_fifo_clear rq q in
    record q' {
      sd = record (q'.sd) {
        batched = u32 (q.sd.batched + 1);
        starved = count_starved (q.rqs rq).data_dir q.sd.starved;
      };
      dispatched = q'.dispatched ++ (rq ∷ []);
    }

-- The first half of `sio_dispatch_requests`: `batched` is reset at the end of a batch, and an
-- expired request is looked for then.
pub end_batch : RequestQueue → RequestQueue
end_batch q =
    if ltb q.sd.fifo_batch q.sd.batched then record q { sd = record (q.sd) { batched = 0 } } else q

pub batch_choice : ℕ → RequestQueue → Option ℕ
batch_choice jiffies q =
    if ltb q.sd.fifo_batch q.sd.batched
    then sio_choose_expired_request jiffies (end_batch q)
    else none

-- The direction that is served first, and the request that is dispatched.
pub preferred_dir : SioData → DataDir
preferred_dir sd = if ltb sd.writes_starved sd.starved then write else read

pub dispatch_choice : ℕ → RequestQueue → Option ℕ
unfolding batch_choice preferred_dir
dispatch_choice jiffies q =
    or_else (batch_choice jiffies q)
      (sio_choose_request (end_batch q).sd (preferred_dir (end_batch q).sd))

abbrev pub dispatch_chosen : Option ℕ → RequestQueue → ℕ × RequestQueue
dispatch_chosen none q = (0, q)
dispatch_chosen (some rq) q = (1, sio_dispatch_request q rq)

pub sio_dispatch_requests : ℕ → RequestQueue → ℕ × RequestQueue
sio_dispatch_requests jiffies q = dispatch_chosen (dispatch_choice jiffies q) (end_batch q)

-- The neighbours of a request on the list of its class, on which the block layer finds it.
abbrev pub entry_before : ℕ → List ℕ → Option ℕ
entry_before rq [] = none
entry_before rq (x ∷ []) = none
entry_before rq (x ∷ y ∷ l) = if y == rq then some x else entry_before rq (y ∷ l)

abbrev pub entry_behind : ℕ → List ℕ → Option ℕ
entry_behind rq [] = none
entry_behind rq (x ∷ l) = if x == rq then first_entry l else entry_behind rq l

pub sio_former_request : RequestQueue → ℕ → Option ℕ
sio_former_request q rq = entry_before rq (q.sd.fifo_list (q.rqs rq).is_sync (q.rqs rq).data_dir)

pub sio_latter_request : RequestQueue → ℕ → Option ℕ
sio_latter_request q rq = entry_behind rq (q.sd.fifo_list (q.rqs rq).is_sync (q.rqs rq).data_dir)

-- The initialisers of the settings, with `HZ` of the kernel's configuration.
abbrev pub default_expire : ℕ → Sync → DataDir → ℕ
default_expire hz sync read = hz / 2
default_expire hz sync write = 2 * hz
default_expire hz async read = 4 * hz
default_expire hz async write = 16 * hz

abbrev pub default_fifo_batch : ℕ
default_fifo_batch = 8

abbrev pub default_writes_starved : ℕ
default_writes_starved = 2

-- `memory` is the block that `kmalloc_node` returns, with what it held before.
pub sio_init_queue : ℕ → Option SioData → Option SioData
sio_init_queue hz none = none
sio_init_queue hz (some memory) = some (record memory {
  fifo_list = λ s d. [];
  batched = 0;
  fifo_expire = default_expire hz;
  fifo_batch = default_fifo_batch;
})

-- `true` when no `BUG_ON` of `sio_exit_queue` strikes.
pub sio_exit_queue : SioData → Bool
sio_exit_queue sd =
    not (not (list_empty (sd.fifo_list sync read)))
    && not (not (list_empty (sd.fifo_list sync write)))
    && not (not (list_empty (sd.fifo_list async read)))
    && not (not (list_empty (sd.fifo_list async write)))
