-- ===== src/Sensors/Isl29030.antt =====
-- libsensors/SensorISL29030.cpp: the sensors of proximity (P) and of light (L) of one chip.
--
-- `mInputReader` is the list of the events that wait. Whether the device can be opened and what
-- `ioctl` answers, 0 or an error number, are arguments; on a device that is not open it fails. What
-- is logged is left out.
use android_device_motorola.Prelude.{
  ℕ, ◌-◌, ◌^◌, Bool, true, false, not, ◌||◌, List, [], ◌∷◌, ◌++◌, length, ◌==◌, if◌then◌else◌,
}
use android_device_motorola.Cpufreq.{einval}
use android_device_motorola.Sensors.Control.{ebadf}

pub data Kind : Type 0 where
  proximity light : Kind

-- input_event: EV_ABS or EV_LED with its code and value, EV_SYN with its time, or another one.
pub data IslEvent : Type 0 where
  abs led : ℕ → ℕ → IslEvent
  syn : ℕ → IslEvent
  other : IslEvent

-- The constants of linux/input.h and of the chip's header.
pub record Header : Type 0 where
  pub abs_distance : ℕ
  pub led_misc : ℕ
  pub near : ℕ

-- The members of a sensor; `value` is the distance or the light of the pending event.
pub record Isl : Type 0 where
  pub enabled : Bool
  pub open_device : Bool
  pub value : ℕ

-- processEvent of the two classes.
unfoldable pub process_p : Header → ℕ → ℕ → ℕ → ℕ
process_p h code value old =
    if code == h.abs_distance then (if value == h.near then 0 else 100) else old

unfoldable pub process_l : Header → ℕ → ℕ → ℕ → ℕ
process_l h code value old = if code == h.led_misc then value else old

-- The value after an event, by the `switch` of readEvents.
unfoldable pub next_value : Header → Kind → IslEvent → ℕ → ℕ
next_value h proximity (abs code value) old = process_p h code value old
next_value h light (led code value) old = process_l h code value old
next_value h k e old = old

-- What readEvents has delivered: the values with their times, the last value, and the events that
-- still wait.
pub record IslRead : Type 0 where
  pub events : List (ℕ × ℕ)
  pub last : ℕ
  pub waiting : List IslEvent

abbrev pub deliver : ℕ × ℕ → IslRead → IslRead
deliver e r = record r { events = e ∷ r.events }

-- The `while` loop of readEvents.
unfoldable pub isl_loop : Header → Kind → List IslEvent → ℕ → ℕ → IslRead
isl_loop h k [] count v = record { events = []; last = v; waiting = [] }
isl_loop h k (syn time ∷ q) count v =
    let rest = isl_loop h k q (count - 1) v in
    if count == 0
    then record { events = []; last = v; waiting = syn time ∷ q }
    else deliver (v, time) rest
isl_loop h k (e ∷ q) count v =
    let rest = isl_loop h k q count (next_value h k e v) in
    if count == 0 then record { events = []; last = v; waiting = e ∷ q } else rest

-- The constants of the kernel's answers: whether open works, and the error number of ioctl.
pub record Answers : Type 0 where
  pub opens : Bool
  pub errno : ℕ

-- A call of enable: its result, the sensor, and whether ioctl was called.
pub record Enabled : Type 0 where
  pub err : ℕ
  pub sensor : Isl
  pub asked : Bool

abbrev pub open_unless : Answers → Isl → Isl
open_unless a s = if s.enabled then s else record s { open_device = s.open_device || a.opens }

abbrev pub close_unless : Isl → Isl
close_unless s = if s.enabled then s else record s { open_device = false }

abbrev pub error_of : Answers → Isl → ℕ
error_of a s =
    let errno = if s.open_device then a.errno else ebadf in if errno == 0 then 0 else 2 ^ 32 - errno

abbrev pub equal : Bool → Bool → Bool
equal true b = b
equal false b = not b

-- SensorISL29030P::enable, and the same lines of the other class on a Defy+.
unfoldable pub switch_to : Answers → Bool → Isl → Enabled
switch_to a state s =
    if equal state s.enabled
    then record { err = 0; sensor = s; asked = false }
    else (let s' = open_unless a s in
        let err = error_of a s' in
        record {
          err = err;
          sensor =
              close_unless (if err == 0 || not state then record s' { enabled = state } else s');
          asked = true;
        })

-- SensorISL29030L::enable. On a Defy+ a call that changes nothing returns before the last line.
unfoldable pub enable_l : Bool → Answers → Bool → Isl → Enabled
enable_l defy_plus a state s =
    let r = switch_to a state s in
    if defy_plus
    then (if equal state s.enabled
        then r
        else record r { sensor = record (r.sensor) { enabled = state } })
    else record { err = 0; sensor = record s { enabled = state }; asked = false }

-- What the reader's `fill` answers: an error, or events that wait from now on.
pub data FillAnswer : Type 0 where
  no_events : ℕ → FillAnswer
  new_events : List IslEvent → FillAnswer

abbrev pub numbered : IslRead → ℕ × IslRead
numbered r = (length r.events, r)

abbrev pub after_fill : Header → Kind → FillAnswer → List IslEvent → ℕ → ℕ → ℕ × IslRead
after_fill h k (no_events errno) q count v = (errno, record { events = []; last = v; waiting = q })
after_fill h k (new_events new) q count v = numbered (isl_loop h k (q ++ new) count v)

-- readEvents of both classes, for a `count` that is not negative.
unfoldable pub isl_read_events : Header → Kind → FillAnswer → List IslEvent → ℕ → ℕ → ℕ × IslRead
isl_read_events h k f q count v =
    if count == 0
    then (einval, record { events = []; last = v; waiting = q })
    else after_fill h k f q count v
