-- ===== src/Sensors/Tests.antt =====
-- The chip with its sensors at concrete events and calls.
use android_device_motorola.Prelude.{
  ℕ, ◌+◌, ◌≡◌, true, false, some, List, [], ◌∷◌, u16, ◌/◌, refl, arith, length,
}
use android_device_motorola.Sensors.Compass.{
  abs_x, abs_hat0x, abs_rx, InputEvent, abs, syn, other, Conversion, Sensor, fills, any, sensor_of,
  mark, process_event, stamped, send_pending, read_loop, read_events,
}
use android_device_motorola.Sensors.Parts.{InParts, read_events-InParts}
use android_device_motorola.Sensors.Control.{
  Control, Kernel, accelerometer, orientation, ambient_temperature, set_delay_ms, enable, switch,
  ioctl, what_of, set_delay, Call, enables, calls,
}
use android_device_motorola.Sensors.ControlLaws.{InStep, Least, calls-InStep, set_delay-Least}
use android_device_motorola.Sensors.Isl29030.{
  Header, IslEvent, abs as isl_abs, syn as isl_syn, led, proximity, new_events, isl_read_events,
}
use android_device_motorola.Sensors.IslLaws.{take, packets, behind, isl_read_events_lem}

-- An event is its value and its time.
abbrev pairs : Conversion (ℕ × ℕ)
pairs = record { convert = λ code v e. (v, e.1); stamp = λ t e. (e.0, t) }

abbrev chip : Sensor (ℕ × ℕ)
chip = record {
  enabled = λ i. true;
  has_pending_event = false;
  pending_mask = λ i. false;
  pending_events = λ i. (0, 0);
}

abbrev chip_events : List InputEvent
chip_events =
    abs abs_x 7 ∷ abs abs_hat0x 8 ∷ abs abs_rx 9 ∷ syn 100 ∷ other ∷ abs abs_x 5 ∷ syn 200 ∷ []

-- Two events of a packet of three: its EV_SYN stays in the reader.
first_two : (read_events pairs (fills chip_events) 0 [] 2 chip).1.events ≡ (7, 100) ∷ (8, 100) ∷ []
unfolding read_events read_loop send_pending stamped process_event mark sensor_of any
first_two = refl

syn_stays :
    (read_events pairs (fills chip_events) 0 [] 2 chip).1.waiting
    ≡ syn 100 ∷ other ∷ abs abs_x 5 ∷ syn 200 ∷ []
unfolding read_events read_loop send_pending stamped process_event mark sensor_of any
syn_stays = refl

read_events-InParts_example :
    let r = read_events pairs (fills chip_events) 0 [] 2 chip in
    InParts
      (read_events pairs (fills chip_events) 0 [] (2 + 5) chip)
      r
      (read_events pairs (fills []) 0 r.1.waiting 5 r.1.sensor)
read_events-InParts_example =
    read_events-InParts pairs chip_events [] 0 2 5 chip (omega arith) (omega arith) refl

abbrev off : Control
off = record {
  enabled = λ i. false;
  has_pending_event = false;
  delays = λ i. 200000000;
  open_device = false;
}

abbrev works : Kernel
works = record { opens = true; answers = λ call. 0 }

abbrev fails_always : Kernel
fails_always = record { opens = true; answers = λ call. 5 }

-- An event of the thermometer waits although it could not be switched on.
pending_after_failure :
    let s = (enable fails_always ambient_temperature 1 off).1 in
    (s.has_pending_event ≡ true) × (any s.enabled ≡ false)
unfolding enable what_of switch ioctl any
pending_after_failure = (refl, refl)

off-InStep : InStep off
unfolding any
off-InStep = refl

abbrev session : List (Kernel × Call)
session =
    (works, enables accelerometer 1)
    ∷ (fails_always, enables orientation 1)
    ∷ (works, enables accelerometer 0)
    ∷ []

calls-InStep_example : InStep (calls session off)
calls-InStep_example = calls-InStep session off off-InStep

abbrev on : Control
on = record off { enabled = λ i. true; open_device = true }

on_any : any on.enabled ≡ true
unfolding any
on_any = refl

is_orientation : what_of orientation ≡ some 2
unfolding what_of
is_orientation = refl

set_delay-Least_example :
    let (err, s', l) = set_delay works orientation (some 50000000) on in
    (s'.delays 2 ≡ 50000000) × ((w : ℕ) × Least s' w × (l ≡ set_delay_ms (u16 (w / 1000000)) ∷ []))
set_delay-Least_example =
    set_delay-Least works orientation 2 50000000 on is_orientation (omega arith) (λ j. omega arith)
      on_any

abbrev header : Header
header = record { abs_distance = 0x19; led_misc = 8; near = 1 }

-- Near, then far, with events of the light sensor between.
abbrev moves : List IslEvent
moves = isl_abs 0x19 1 ∷ isl_syn 10 ∷ led 8 300 ∷ isl_syn 20 ∷ isl_abs 0x19 2 ∷ isl_syn 30 ∷ []

isl_read_events_lem_example :
    let (ret, r) = isl_read_events header proximity (new_events moves) [] 2 100 in
    (r.events ≡ take 2 (packets header proximity moves 100))
    × (ret ≡ length r.events)
    × (r.waiting ≡ behind 2 moves)
isl_read_events_lem_example = isl_read_events_lem header proximity moves [] 2 100 (omega arith)

moves_reported : packets header proximity moves 100 ≡ (0, 10) ∷ (0, 20) ∷ (100, 30) ∷ []
moves_reported = refl
