-- ===== src/Sensors/IslLaws.antt =====
-- What the sensors of proximity and light report, and when their device is open.
use android_device_motorola.Prelude.{
  ℕ, zero, suc, ◌-◌, ◌^◌, ◌<◌, ◌≡◌, ◌≢◌, refl, Bool, true, false, List, [], ◌∷◌, ◌++◌, length, ◌==◌,
  if◌then◌else◌, arith, ap,
}
use android_device_motorola.Sensors.Isl29030.{
  Kind, proximity, light, IslEvent, abs, led, syn, other, Header, Isl, IslRead, next_value,
  process_p, process_l, isl_loop, Answers, switch_to, enable_l, new_events, isl_read_events,
}

abbrev pub take {ℓ} : {A : Type ℓ} → ℕ → List A → List A
take zero xs = []
take (suc n) [] = []
take (suc n) (x ∷ xs) = x ∷ take n xs

-- What a packet reports: the proximity sensor 0 for an object that is near and 100 for any other,
-- the light sensor the value as it is. Each sensor has its own type of event and its own code.
abbrev pub reading : Header → Kind → IslEvent → ℕ → ℕ
reading h proximity (abs code value) v =
    if code == h.abs_distance then (if value == h.near then 0 else 100) else v
reading h proximity (led code value) v = v
reading h light (abs code value) v = v
reading h light (led code value) v = if code == h.led_misc then value else v
reading h k (syn time) v = v
reading h k other v = v

-- Each EV_SYN reports the value that the events before it have left.
abbrev pub packets : Header → Kind → List IslEvent → ℕ → List (ℕ × ℕ)
packets h k [] v = []
packets h k (syn time ∷ q) v = (v, time) ∷ packets h k q v
packets h k (abs code value ∷ q) v = packets h k q (reading h k (abs code value) v)
packets h k (led code value ∷ q) v = packets h k q (reading h k (led code value) v)
packets h k (other ∷ q) v = packets h k q v

-- The events behind the first n packets.
abbrev pub behind : ℕ → List IslEvent → List IslEvent
behind zero q = q
behind (suc n) [] = []
behind (suc n) (syn time ∷ q) = behind n q
behind (suc n) (abs code value ∷ q) = behind (suc n) q
behind (suc n) (led code value ∷ q) = behind (suc n) q
behind (suc n) (other ∷ q) = behind (suc n) q

abbrev Delivers : IslRead → List (ℕ × ℕ) → List IslEvent → Type 0
Delivers r events waiting = (r.events ≡ events) × (r.waiting ≡ waiting)

next_value-reading :
    (h : Header) (k : Kind) (e : IslEvent) (v : ℕ) → next_value h k e v ≡ reading h k e v
unfolding next_value process_p process_l
next_value-reading h proximity (abs code value) v = refl
next_value-reading h proximity (led code value) v = refl
next_value-reading h proximity (syn time) v = refl
next_value-reading h proximity other v = refl
next_value-reading h light (abs code value) v = refl
next_value-reading h light (led code value) v = refl
next_value-reading h light (syn time) v = refl
next_value-reading h light other v = refl

isl_loop-zero :
    (h : Header) (k : Kind) (q : List IslEvent) (v : ℕ) → Delivers (isl_loop h k q 0 v) [] q
unfolding isl_loop
isl_loop-zero h k [] v = (refl, refl)
isl_loop-zero h k (syn time ∷ q) v = (refl, refl)
isl_loop-zero h k (abs code value ∷ q) v = (refl, refl)
isl_loop-zero h k (led code value ∷ q) v = (refl, refl)
isl_loop-zero h k (other ∷ q) v = (refl, refl)

reading-other : (h : Header) (k : Kind) (v : ℕ) → reading h k other v ≡ v
reading-other h proximity v = refl
reading-other h light v = refl

room_at_suc : (n : ℕ) → (suc n == 0) ≡ false
room_at_suc n = ground arith

isl_loop_lem :
    (h : Header) (k : Kind) (q : List IslEvent) (n v : ℕ)
    → Delivers (isl_loop h k q n v) (take n (packets h k q v)) (behind n q)
unfolding isl_loop
isl_loop_lem h k q zero v = isl_loop-zero h k q v
isl_loop_lem h k [] (suc n) v = (refl, refl)
isl_loop_lem h k (syn time ∷ q) (suc n) v =
    let less : suc n - 1 ≡ n = omega arith in
    let (e, w) = isl_loop_lem h k q n v in rw (room_at_suc n, less) (ap (λ l. (v, time) ∷ l) e, w)
isl_loop_lem h k (abs code value ∷ q) (suc n) v =
    rw (room_at_suc n, next_value-reading h k (abs code value) v)
      (isl_loop_lem h k q (suc n) (reading h k (abs code value) v))
isl_loop_lem h k (led code value ∷ q) (suc n) v =
    rw (room_at_suc n, next_value-reading h k (led code value) v)
      (isl_loop_lem h k q (suc n) (reading h k (led code value) v))
isl_loop_lem h k (other ∷ q) (suc n) v =
    rw (room_at_suc n, next_value-reading h k other v, reading-other h k v)
      (isl_loop_lem h k q (suc n) v)

-- A call of readEvents with room for events, whose `fill` works, returns as many of the packets
-- that wait as there is room for, in order, and their number: each with its time and the last
-- reading before it, which is 0 or 100 for an object that is near or not, or the light. The events
-- behind these packets go on waiting.
pub isl_read_events_lem :
    (h : Header) (k : Kind) (new q : List IslEvent) (n v : ℕ)
    → 0 < n
    → let (ret, r) = isl_read_events h k (new_events new) q n v in
      (r.events ≡ take n (packets h k (q ++ new) v))
      × (ret ≡ length r.events)
      × (r.waiting ≡ behind n (q ++ new))
unfolding isl_read_events
isl_read_events_lem h k new q n v pos =
    let room : (n == 0) ≡ false = ground arith in
    let (e, w) = isl_loop_lem h k (q ++ new) n v in rw room (e, refl, w)

-- Calls of enable of the proximity sensor, each with the answers that it gets.
abbrev pub switches : List (Answers × Bool) → Isl → Isl
switches [] s = s
switches ((a, state) ∷ cs) s = switches cs (switch_to a state s).sensor

switch_to_in_step :
    (a : Answers) (state : Bool) (s : Isl)
    → s.open_device ≡ s.enabled
    → let s' = (switch_to a state s).sensor in s'.open_device ≡ s'.enabled
unfolding switch_to
switch_to_in_step a true s h = ground (arith, h)
switch_to_in_step a false s h = ground (arith, h)

-- Through any calls of enable of the proximity sensor, whatever the kernel answers, the device is
-- open exactly while the sensor counts as enabled, if it was so before.
pub switches_in_step :
    (cs : List (Answers × Bool)) (s : Isl)
    → s.open_device ≡ s.enabled
    → let s' = switches cs s in s'.open_device ≡ s'.enabled
switches_in_step [] s h = h
switches_in_step ((a, state) ∷ cs) s h =
    switches_in_step cs (switch_to a state s).sensor (switch_to_in_step a state s h)

-- On a Defy+ a light sensor that is off, with a closed device, and that the chip fails to switch on
-- returns an error, but counts as enabled with a closed device, and a second call to switch it on
-- returns 0 without asking the chip.
pub enable_l_lies :
    (a b : Answers) (s : Isl)
    → s.enabled ≡ false
    → s.open_device ≡ false
    → 0 < a.errno
    → a.errno < 2 ^ 32
    → let first_call = enable_l true a true s in
      let second_call = enable_l true b true first_call.sensor in
      (first_call.err ≢ 0)
      × (first_call.sensor.enabled ≡ true)
      × (first_call.sensor.open_device ≡ false)
      × (second_call.err ≡ 0)
      × (second_call.asked ≡ false)
unfolding enable_l switch_to
enable_l_lies a b s off closed fails small = ground arith
