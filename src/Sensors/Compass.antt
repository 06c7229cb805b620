-- ===== src/Sensors/Compass.antt =====
-- libsensors/SensorAK8973.cpp: the chip that is accelerometer, compass and thermometer.
--
-- A mask is the function of its bits, and `mInputReader` the list of the events that wait in it.
-- The conversion of a value, which is in floating point, and the time stamp are arguments, and so
-- are the answers of `ioctl` and of the reader's `fill`.
use android_device_motorola.Prelude.{
  ℕ, zero, suc, ◌+◌, ◌-◌, Bool, true, false, not, ◌||◌, Option, none, some, List, [], ◌∷◌, ◌++◌,
  length, ◌==◌, if◌then◌else◌, put,
}
use android_device_motorola.Cpufreq.{einval}

-- The four sensors are numbers: Accelerometer, MagneticField, Orientation, Temperature.
abbrev pub num_sensors : ℕ
num_sensors = 4

abbrev pub temperature : ℕ
temperature = 3

-- The codes of absolute axes that the driver sends.
pub data Code : Type 0 where
  abs_x abs_y abs_z abs_wheel abs_hat0x abs_hat0y abs_brake abs_rx abs_ry : Code
  abs_rz abs_rudder abs_throttle unknown : Code

-- input_event: EV_ABS with its code and value, EV_SYN with its time, or another one.
pub data InputEvent : Type 0 where
  abs : Code → ℕ → InputEvent
  syn : ℕ → InputEvent
  other : InputEvent

-- The sensor that an axis belongs to, in processEvent.
unfoldable pub sensor_of : Code → Option ℕ
sensor_of abs_x = some 0
sensor_of abs_y = some 0
sensor_of abs_z = some 0
sensor_of abs_wheel = some 0
sensor_of abs_hat0x = some 1
sensor_of abs_hat0y = some 1
sensor_of abs_brake = some 1
sensor_of abs_rx = some 2
sensor_of abs_ry = some 2
sensor_of abs_rz = some 2
sensor_of abs_rudder = some 2
sensor_of abs_throttle = some temperature
sensor_of unknown = none

-- `sensors_event_t`: how a value of an axis and a time stamp change it.
pub record Conversion (E : Type 0) : Type 0 where
  pub convert : Code → ℕ → E → E
  pub stamp : ℕ → E → E

-- The members of SensorAK8973 that readEvents uses, but for the reader.
pub record Sensor (E : Type 0) : Type 0 where
  pub enabled : ℕ → Bool
  pub has_pending_event : Bool
  pub pending_mask : ℕ → Bool
  pub pending_events : ℕ → E

-- What the loop over the sensors has sent: what is left of `count`, the sensor, and the events in
-- order.
pub record Sent (E : Type 0) : Type 0 where
  pub left : ℕ
  pub sensor : Sensor E
  pub events : List E

-- The same of readEvents, with the events that still wait.
pub record Delivered (E : Type 0) : Type 0 where
  pub left : ℕ
  pub sensor : Sensor E
  pub events : List E
  pub waiting : List InputEvent

-- What the reader's `fill` answers: an error, or events that wait from now on.
pub data Answer : Type 0 where
  fails : ℕ → Answer
  fills : List InputEvent → Answer

-- `if (mask)`
unfoldable pub any : (ℕ → Bool) → Bool
any mask = mask 0 || (mask 1 || (mask 2 || mask 3))

module _ {E : Type 0} where
  abbrev pub first : E → Sent E → Sent E
  first e d = record d { events = e ∷ d.events }

  abbrev pub after : List E → Delivered E → Delivered E
  after es d = record d { events = es ++ d.events }

  abbrev pub stop : List InputEvent → ℕ → Sensor E → Delivered E
  stop q count s = record { left = count; sensor = s; events = []; waiting = q }

  abbrev pub stop_sent : List InputEvent → Sent E → Delivered E
  stop_sent q d = record { left = d.left; sensor = d.sensor; events = d.events; waiting = q }

  -- The results of readEvents: the number, the sensor, the events and those that wait.
  abbrev pub answered : Delivered E → ℕ × Delivered E
  answered d = (length d.events, d)

module _ {E : Type 0} (c : Conversion E) where
  unfoldable pub mark : Option ℕ → Code → ℕ → Sensor E → Sensor E
  mark none code value s = s
  mark (some i) code value s = record s {
    pending_mask = put s.pending_mask i true;
    pending_events = put s.pending_events i (c.convert code value (s.pending_events i));
  }

  unfoldable pub process_event : Code → ℕ → Sensor E → Sensor E
  unfolding mark
  process_event code value s = mark (sensor_of code) code value s

  -- The event of sensor `j` at the end of a packet.
  unfoldable pub stamped : ℕ → ℕ → Sensor E → Sensor E
  stamped time j s = record s {
    pending_mask = put s.pending_mask j false;
    pending_events = put s.pending_events j (c.stamp time (s.pending_events j));
  }

  -- The loop over the sensors in readEvents, with `more` sensors from `j` on.
  unfoldable pub send_pending : ℕ → ℕ → ℕ → ℕ → Sensor E → Sent E
  send_pending zero j time count s = record { left = count; sensor = s; events = [] }
  send_pending (suc more) j time count s =
      let s' = stamped time j s in
      let sent = first (s'.pending_events j) (send_pending more (j + 1) time (count - 1) s') in
      let unsent = send_pending more (j + 1) time count s' in
      let unmarked = send_pending more (j + 1) time count s in
      if count == 0 || not (any s.pending_mask)
      then record { left = count; sensor = s; events = [] }
      else (if s.pending_mask j then (if s.enabled j then sent else unsent) else unmarked)

  -- The `while` loop of readEvents. A packet that is not sent whole has used up `count`, so that
  -- the loop ends there and leaves its EV_SYN in the reader.
  unfoldable pub read_loop : List InputEvent → ℕ → Sensor E → Delivered E
  read_loop [] count s = stop [] count s
  read_loop (abs code value ∷ q) count s =
      let rest = read_loop q count (process_event code value s) in
      if count == 0 then stop (abs code value ∷ q) 0 s else rest
  read_loop (syn time ∷ q) count s =
      let d = send_pending num_sensors 0 time count s in
      let rest = after d.events (read_loop q d.left d.sensor) in
      if count == 0
      then stop (syn time ∷ q) 0 s
      else (if any d.sensor.pending_mask then stop_sent (syn time ∷ q) d else rest)
  read_loop (other ∷ q) count s =
      let rest = read_loop q count s in if count == 0 then stop (other ∷ q) 0 s else rest

  unfoldable pub fill_and_read : Answer → List InputEvent → ℕ → Sensor E → ℕ × Delivered E
  fill_and_read (fails errno) q count s = (errno, stop q count s)
  fill_and_read (fills new) q count s = answered (read_loop (q ++ new) count s)

  -- The event of the thermometer that its start leaves, at the time `now`.
  abbrev pub at_start : ℕ → List InputEvent → ℕ → Sensor E → ℕ × Delivered E
  at_start now q count s =
      let events = put s.pending_events temperature (c.stamp now (s.pending_events temperature)) in
      (
        1,
        record {
          left = count - 1;
          sensor = record s { has_pending_event = false; pending_events = events };
          events = events temperature ∷ [];
          waiting = q;
        },
      )

  -- readEvents, for a `count` that is not negative.
  unfoldable pub read_events : Answer → ℕ → List InputEvent → ℕ → Sensor E → ℕ × Delivered E
  unfolding fill_and_read
  read_events answer now q count s =
      if count == 0
      then (einval, stop q count s)
      else (if s.has_pending_event then at_start now q count s else fill_and_read answer q count s)
