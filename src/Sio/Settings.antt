-- ===== src/Sio/Settings.antt =====
-- The set-up of the elevator and its sysfs settings: SHOW_FUNCTION and STORE_FUNCTION.
use android_device_motorola.Prelude.{
  ℕ, ◌≤◌, ◌≡◌, ◌&&◌, refl, true, [], some, arith, if◌then◌else◌, subst, int_max, u32,
}
use mathlib.Core.Option.{some-injective}
use android_device_motorola.Prelude.Int.{ℤ, pos, negsuc, ltb_ℤ}
use android_device_motorola.Sio.{
  Sync, async, sync, DataDir, read, write, sync_eq, dir_eq, Request, SioData, RequestQueue,
  sio_init_queue, sio_exit_queue, sio_queue_empty, default_writes_starved,
}
use android_device_motorola.Sio.Valid.{IsValid}

-- The attributes of `sio_attrs`: the four expire times, the batch size, the starvation bound.
pub data SioAttr : Type 0 where
  expire : Sync → DataDir → SioAttr
  batch : SioAttr
  starvation : SioAttr

-- `if (__data < MIN) ... else if (__data > MAX) ...` with the limits 0 and INT_MAX.
unfoldable pub clamp : ℤ → ℕ
clamp v = if ltb_ℤ v (pos 0) then 0 else (if ltb_ℤ (pos int_max) v then int_max else nonneg v)
  where
    nonneg : ℤ → ℕ
    nonneg (pos n) = n
    nonneg (negsuc n) = 0

-- The kernel's conversions between milliseconds and jiffies are parameters. What they return goes
-- through an `int`, whose 32 bits are written as a number.
module _ (msecs_to_jiffies jiffies_to_msecs : ℕ → ℕ) where
  pub store_attr : SioAttr → ℤ → SioData → SioData
  store_attr (expire s d) v sd = record sd {
    fifo_expire = λ s' d'.
        if sync_eq s' s && dir_eq d' d
        then u32 (msecs_to_jiffies (clamp v))
        else sd.fifo_expire s' d';
  }
  store_attr batch v sd = record sd { fifo_batch = clamp v }
  store_attr starvation v sd = record sd { writes_starved = clamp v }

  pub show_attr : SioAttr → SioData → ℕ
  show_attr (expire s d) sd = u32 (jiffies_to_msecs (sd.fifo_expire s d))
  show_attr batch sd = sd.fifo_batch
  show_attr starvation sd = sd.writes_starved

pub sync_eq_refl : (s : Sync) → sync_eq s s ≡ true
sync_eq_refl async = refl
sync_eq_refl sync = refl

pub dir_eq_refl : (d : DataDir) → dir_eq d d ≡ true
dir_eq_refl read = refl
dir_eq_refl write = refl

pub clamp-le : (v : ℤ) → clamp v ≤ int_max
unfolding clamp
clamp-le (pos n) = ground arith
clamp-le (negsuc n) = ground arith

pub clamp_pos : (n : ℕ) → n ≤ int_max → clamp (pos n) ≡ n
unfolding clamp
clamp_pos n h = ground arith

-- The two settings that are compared with unsigned counters are no negative `int`s.
pub record InRange (sd : SioData) : Type 0 where
  pub batch_range : sd.fifo_batch ≤ int_max
  pub starvation_range : sd.writes_starved ≤ int_max

module _ (msecs_to_jiffies jiffies_to_msecs : ℕ → ℕ) where
  -- Any text that is written to an attribute leaves both in range.
  pub store_attr-InRange :
      (a : SioAttr) (v : ℤ) (sd : SioData)
      → InRange sd
      → InRange (store_attr msecs_to_jiffies jiffies_to_msecs a v sd)
  unfolding store_attr
  store_attr-InRange (expire s d) v sd h = ground arith
  store_attr-InRange batch v sd h = ground (arith, clamp-le v)
  store_attr-InRange starvation v sd h = ground (arith, clamp-le v)

  -- What an attribute reads as after a number was written to it.
  abbrev pub shown : SioAttr → ℤ → ℕ
  shown (expire s d) v = u32 (jiffies_to_msecs (u32 (msecs_to_jiffies (clamp v))))
  shown batch v = clamp v
  shown starvation v = clamp v

  -- Reading an attribute back after a write gives the number cut to 0 .. INT_MAX, for a time after
  -- the two conversions; the lists and counters are as before.
  pub show_attr-store_attr :
      (a : SioAttr) (v : ℤ) (sd : SioData)
      → let sd' = store_attr msecs_to_jiffies jiffies_to_msecs a v sd in
        (show_attr msecs_to_jiffies jiffies_to_msecs a sd' ≡ shown a v)
        × (sd'.fifo_list ≡ sd.fifo_list)
        × (sd'.batched ≡ sd.batched)
        × (sd'.starved ≡ sd.starved)
  unfolding store_attr show_attr
  show_attr-store_attr (expire s d) v sd =
      (rw (sync_eq_refl s, dir_eq_refl d) refl, refl, refl, refl)
  show_attr-store_attr batch v sd = (refl, refl, refl, refl)
  show_attr-store_attr starvation v sd = (refl, refl, refl, refl)

-- The queue that a new elevator serves: no request is linked.
abbrev pub new_queue : (ℕ → Request) → SioData → RequestQueue
new_queue rqs sd = record { rqs = rqs; sd = sd; dispatched = [] }

-- `sio_init_queue` sets up empty lists that meet the invariant and that `sio_exit_queue` accepts.
pub sio_init_queue-IsValid :
    (hz : ℕ) (memory : SioData) (rqs : ℕ → Request) {sd : SioData}
    → sio_init_queue hz (some memory) ≡ some sd
    → IsValid (new_queue rqs sd)
      × (sio_queue_empty sd ≡ true)
      × (sio_exit_queue sd ≡ true)
      × (sd.batched ≡ 0)
unfolding sio_init_queue sio_queue_empty sio_exit_queue
sio_init_queue-IsValid hz memory rqs h =
    subst
      (λ sd.
        IsValid (new_queue rqs sd)
        × (sio_queue_empty sd ≡ true)
        × (sio_exit_queue sd ≡ true)
        × (sd.batched ≡ 0))
      (some-injective _ _ h)
      (
        record {
          once = λ r. omega arith;
          class_sync = λ r s d c. absurd (omega arith);
          class_dir = λ r s d c. absurd (omega arith);
        },
        refl,
        refl,
        refl,
      )

-- Not every elevator that `sio_init_queue` sets up has the default of `writes_starved`.
pub sio_init_queue-misses_default : ¬ (
    (hz : ℕ) (memory sd : SioData)
    → sio_init_queue hz (some memory) ≡ some sd
    → sd.writes_starved ≡ default_writes_starved)
unfolding sio_init_queue
sio_init_queue-misses_default all =
    let memory : SioData = record {
      fifo_list = λ s d. [];
      batched = 0;
      starved = 0;
      fifo_expire = λ s d. 0;
      fifo_batch = 0;
      writes_starved = 7;
    } in
    let wrong : 7 ≡ default_writes_starved = all 100 memory _ refl in omega arith
