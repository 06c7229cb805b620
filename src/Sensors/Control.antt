-- ===== src/Sensors/Control.antt =====
-- libsensors/SensorAK8973.cpp and SensorBase.cpp: the sensors of the chip are switched on and off,
-- and the chip is told how often to measure.
--
-- Whether the device can be opened and what `ioctl` answers are arguments: 0 or an error number. On
-- a device that is not open `ioctl` fails. A delay is a number of nanoseconds below 2 ^ 63.
use android_device_motorola.Prelude.{
  ℕ, zero, suc, ◌-◌, ◌/◌, ◌^◌, Bool, true, false, not, ◌&&◌, ◌||◌, Option, none, some, List, [],
  ◌∷◌, ◌==◌, ◌!=◌, ltb, if◌then◌else◌, put, u16,
}
use android_device_motorola.Cpufreq.{einval}
use android_device_motorola.Sensors.Compass.{any, num_sensors, temperature}

-- The handles of the sensors.
pub data Handle : Type 0 where
  accelerometer magnetic_field orientation ambient_temperature unknown : Handle

unfoldable pub what_of : Handle → Option ℕ
what_of accelerometer = some 0
what_of magnetic_field = some 1
what_of orientation = some 2
what_of ambient_temperature = some temperature
what_of unknown = none

-- The members that these functions use; `open_device` tells whether dev_fd is open.
pub record Control : Type 0 where
  pub enabled : ℕ → Bool
  pub has_pending_event : Bool
  pub delays : ℕ → ℕ
  pub open_device : Bool

-- The calls of ioctl that set a flag of a sensor or the delay.
pub data Ioctl : Type 0 where
  set_flag : ℕ → Bool → Ioctl
  set_delay_ms : ℕ → Ioctl

pub record Kernel : Type 0 where
  pub opens : Bool
  pub answers : Ioctl → ℕ

abbrev pub ebadf : ℕ
ebadf = 9

-- The error of ioctl, with its sign.
unfoldable pub ioctl : Kernel → Bool → Ioctl → ℕ
ioctl k open_device call =
    let errno = if open_device then k.answers call else ebadf in
    if errno == 0 then 0 else 2 ^ 32 - errno

-- `wanted < ns ? wanted : ns` where sensor `i` is enabled.
abbrev pub sooner : Control → ℕ → ℕ → ℕ
sooner s i wanted =
    if s.enabled i then (if ltb wanted (s.delays i) then wanted else s.delays i) else wanted

-- `-1LLU`
abbrev pub longest : ℕ
longest = 2 ^ 64 - 1

-- `wanted` after the first `n` rounds of the loop.
unfoldable pub wanted_delay : ℕ → Control → ℕ
wanted_delay zero s = longest
wanted_delay (suc n) s = sooner s n (wanted_delay n s)

-- updateDelay: the result and its calls. The delay is a `short`.
unfoldable pub update_delay : Kernel → Control → ℕ × List Ioctl
update_delay k s =
    let call = set_delay_ms (u16 (wanted_delay num_sensors s / 1000000)) in
    if any s.enabled then (ioctl k s.open_device call, call ∷ []) else (0, [])

-- setDelay; `none` is a negative number.
abbrev pub delay_for : Kernel → Option ℕ → Option ℕ → Control → ℕ × Control × List Ioctl
delay_for k none ns s = (einval, s, [])
delay_for k (some i) none s = (einval, s, [])
delay_for k (some i) (some ns) s =
    let s' = record s { delays = put s.delays i ns } in
    let (err, calls) = update_delay k s' in (err, s', calls)

unfoldable pub set_delay : Kernel → Handle → Option ℕ → Control → ℕ × Control × List Ioctl
set_delay k handle ns s = delay_for k (what_of handle) ns s

abbrev pub opened : Kernel → Control → Control
opened k s = if any s.enabled then s else record s { open_device = s.open_device || k.opens }

abbrev pub closed_unused : Control → Control
closed_unused s = if any s.enabled then s else record s { open_device = false }

abbrev pub with_flag : ℕ → Bool → Control → Control
with_flag i state s = record s { enabled = put s.enabled i state }

abbrev pub pend : ℕ → Bool → Control → Control
pend i state s = if i == temperature && state then record s { has_pending_event = true } else s

-- The body of enable where the state changes, on an open device if it can be opened.
unfoldable pub switch : Kernel → ℕ → Bool → Control → ℕ × Control × List Ioctl
switch k i state s =
    let err = ioctl k s.open_device (set_flag i state) in
    if err == 0
    then (let (err', calls) = update_delay k (with_flag i state s) in
        (err', pend i state (closed_unused (with_flag i state s)), set_flag i state ∷ calls))
    else (err, pend i state (closed_unused s), set_flag i state ∷ [])

abbrev pub same : Bool → Bool → Bool
same true b = b
same false b = not b

abbrev pub enable_sensor : Kernel → Option ℕ → Bool → Control → ℕ × Control × List Ioctl
enable_sensor k none state s = (einval, s, [])
enable_sensor k (some i) state s =
    if same state (s.enabled i) then (0, s, []) else switch k i state (opened k s)

unfoldable pub enable : Kernel → Handle → ℕ → Control → ℕ × Control × List Ioctl
enable k handle en s = enable_sensor k (what_of handle) (en != 0) s

-- A call of the framework.
pub data Call : Type 0 where
  enables : Handle → ℕ → Call
  delays_by : Handle → Option ℕ → Call

abbrev pub call : Kernel → Call → Control → Control
call k (enables h en) s = (enable k h en s).1
call k (delays_by h ns) s = (set_delay k h ns s).1

-- Each call with its own answers of the kernel.
abbrev pub calls : List (Kernel × Call) → Control → Control
calls [] s = s
calls ((k, c) ∷ cs) s = calls cs (call k c s)
