-- ===== src/Sensors/Parts.antt =====
-- Two calls of readEvents in place of one.
use mathlib.Core.List.{append-nil}
use android_device_motorola.Prelude.{
  ℕ, zero, suc, ◌+◌, ◌-◌, ◌<◌, ◌≡◌, ◌⊎◌, refl, true, false, not, ◌||◌, Option, none, some, List, [],
  ◌∷◌, ◌++◌, length, length-append, ◌==◌, arith, ap, ◌∙◌, Bool-cases, inl, inr, subst,
}
use android_device_motorola.Sensors.Compass.{
  num_sensors, Code, InputEvent, abs, syn, other, Conversion, Sensor, Sent, Delivered, fills, any,
  sensor_of, mark, process_event, stamped, send_pending, stop, read_loop, read_events, answered,
}
use android_device_motorola.Sensors.Chunks.{go_on, read_loop-add, Clear, stamped-Clear, Clear-add}

-- One call of readEvents against two: the number, the events, the sensor and what waits.
pub record InParts {E : Type 0} (whole first_part second_part : ℕ × Delivered E) : Type 0 where
  pub counted : whole.0 ≡ first_part.0 + second_part.0
  pub in_order : whole.1.events ≡ first_part.1.events ++ second_part.1.events
  pub same_sensor : whole.1.sensor ≡ second_part.1.sensor
  pub same_waiting : whole.1.waiting ≡ second_part.1.waiting

module _ {E : Type 0} (c : Conversion E) where
  -- Neither loop touches what waits for the start of the thermometer.
  process_event-has_pending :
      (code : Code) (v : ℕ) (s : Sensor E)
      → (process_event c code v s).has_pending_event ≡ s.has_pending_event
  unfolding process_event mark
  process_event-has_pending code v s = goes (sensor_of code)
    where
      goes : (o : Option ℕ) → (mark c o code v s).has_pending_event ≡ s.has_pending_event
      goes none = refl
      goes (some i) = refl

  -- A packet leaves events behind only where there is no room left.
  record Ends (s : Sensor E) (d : Sent E) : Type 0 where
    full : any d.sensor.pending_mask ≡ true → d.left ≡ 0
    has_pending : d.sensor.has_pending_event ≡ s.has_pending_event

  stamped-Ends :
      (t j : ℕ) (s : Sensor E) (d : Sent E) {es : List E}
      → Ends (stamped c t j s) d
      → Ends s (record d { events = es })
  unfolding stamped
  stamped-Ends t j s d k = record { full = k.full; has_pending = k.has_pending }

  Clear-any : (s : Sensor E) → Clear c 4 s → any s.pending_mask ≡ false
  unfolding any
  Clear-any s h =
      rw (h 0 (omega arith)) (rw (h 1 (omega arith)) (rw (h 2 (omega arith)) (h 3 (omega arith))))

  send_pending-Ends :
      (more j t n : ℕ) (s : Sensor E)
      → j + more ≡ num_sensors
      → Clear c j s
      → Ends s (send_pending c more j t n s)
  unfolding send_pending
  send_pending-Ends zero j t n s e h =
      let four : j ≡ 4 = omega (arith, e) in
      let none' = Clear-any s (subst (λ k. Clear c k s) four h) in
      record { full = λ waits. cc; has_pending = refl }
  send_pending-Ends (suc more) j t n s e h =
      elim (Bool-cases (n == 0 || not (any s.pending_mask))) [
        | inl stops ↦
            rw stops (record { full = λ waits. ground (arith, waits); has_pending = refl })
        | inr goes ↦
            let s' = stamped c t j s in
            let clear = stamped-Clear c t j s h in
            rw goes (elim (Bool-cases (s.pending_mask j)) [
              | inl marked ↦ elim (Bool-cases (s.enabled j)) [
                | inl sends ↦
                    rw (marked, sends)
                      (stamped-Ends t j s _
                        (send_pending-Ends more (j + 1) t (n - 1) s' (omega arith) clear))
                | inr keeps ↦
                    rw (marked, keeps)
                      (stamped-Ends t j s _
                        (send_pending-Ends more (j + 1) t n s' (omega arith) clear))
              ]
              | inr free ↦
                  rw free
                    (send_pending-Ends more (j + 1) t n s (omega arith) (Clear-add c j s h free))
            ])
      ]

  -- The end of a read: there is no room left, or nothing waits.
  record Finishes (s : Sensor E) (d : Delivered E) : Type 0 where
    ends : (d.left ≡ 0) ⊎ (d.waiting ≡ [])
    has_pending : d.sensor.has_pending_event ≡ s.has_pending_event

  read_loop-Finishes : (q : List InputEvent) (n : ℕ) (s : Sensor E) → Finishes s (read_loop c q n s)
  unfolding read_loop
  read_loop-Finishes [] n s = record { ends = inr refl; has_pending = refl }
  read_loop-Finishes (abs code v ∷ q) n s = elim (Bool-cases (n == 0)) [
    | inl full ↦ rw full (record { ends = inl refl; has_pending = refl })
    | inr room ↦
        let k = read_loop-Finishes q n (process_event c code v s) in
        rw room (record {
          ends = k.ends;
          has_pending = k.has_pending ∙ process_event-has_pending code v s;
        })
  ]
  read_loop-Finishes (other ∷ q) n s = elim (Bool-cases (n == 0)) [
    | inl full ↦ rw full (record { ends = inl refl; has_pending = refl })
    | inr room ↦ rw room (read_loop-Finishes q n s)
  ]
  read_loop-Finishes (syn t ∷ q) n s =
      let d = send_pending c num_sensors 0 t n s in
      let k = send_pending-Ends num_sensors 0 t n s refl (λ i l. absurd (omega arith)) in
      let r = read_loop-Finishes q d.left d.sensor in
      elim (Bool-cases (n == 0)) [
        | inl full ↦ rw full (record { ends = inl refl; has_pending = refl })
        | inr room ↦ elim (Bool-cases (any d.sensor.pending_mask)) [
          | inl waits ↦
              rw (room, waits) (record { ends = inl (k.full waits); has_pending = k.has_pending })
          | inr sent ↦
              rw (room, sent)
                (record { ends = r.ends; has_pending = r.has_pending ∙ k.has_pending })
        ]
      ]

  read_loop-nil : (n : ℕ) (s : Sensor E) → read_loop c [] n s ≡ stop [] n s
  unfolding read_loop
  read_loop-nil n s = refl

  -- With what is left of the room, or without, the same is read.
  record Agree (d d' : Delivered E) : Type 0 where
    events_agree : d.events ≡ d'.events
    sensor_agrees : d.sensor ≡ d'.sensor
    waiting_agrees : d.waiting ≡ d'.waiting

  read_loop-Agree :
      (w : List InputEvent) (n b : ℕ) (s : Sensor E)
      → (n ≡ 0) ⊎ (w ≡ [])
      → Agree (read_loop c w (n + b) s) (read_loop c w b s)
  read_loop-Agree w n b s (inl full) =
      subst (λ k. Agree (read_loop c w k s) (read_loop c w b s)) (omega (arith, full))
        (record { events_agree = refl; sensor_agrees = refl; waiting_agrees = refl })
  read_loop-Agree w n b s (inr empty) =
      rw (empty, read_loop-nil (n + b) s, read_loop-nil b s)
        (record { events_agree = refl; sensor_agrees = refl; waiting_agrees = refl })

  go_on-InParts :
      (b : ℕ) (s : Sensor E) (d : Delivered E)
      → Finishes s d
      → InParts (answered (go_on c b d)) (answered d) (answered (read_loop c d.waiting b d.sensor))
  unfolding go_on
  go_on-InParts b s d k =
      let e = read_loop-Agree d.waiting d.left b d.sensor k.ends in
      record {
        counted =
            length-append d.events (read_loop c d.waiting (d.left + b) d.sensor).events
            ∙ ap (λ l. length d.events + length l) e.events_agree;
        in_order = ap (λ l. d.events ++ l) e.events_agree;
        same_sensor = e.sensor_agrees;
        same_waiting = e.waiting_agrees;
      }

  read_events-calm :
      (new q : List InputEvent) (now n : ℕ) (s : Sensor E)
      → 0 < n
      → s.has_pending_event ≡ false
      → read_events c (fills new) now q n s ≡ answered (read_loop c (q ++ new) n s)
  unfolding read_events
  read_events-calm new q now n s h calm =
      let room : (n == 0) ≡ false = ground arith in rw (room, calm) refl

-- Where no event of the thermometer is pending, a call of readEvents with room for `a + b` events,
-- both positive, does the same as a call with room for `a` and then one with room for `b` that
-- finds nothing new: it returns the events of both, in order, and leaves the same sensor and
-- reader.
pub read_events-InParts :
    {E : Type 0} (c : Conversion E) (new q : List InputEvent) (now a b : ℕ) (s : Sensor E)
    → 0 < a
    → 0 < b
    → s.has_pending_event ≡ false
    → let r = read_events c (fills new) now q a s in
      InParts
        (read_events c (fills new) now q (a + b) s)
        r
        (read_events c (fills []) now r.1.waiting b r.1.sensor)
read_events-InParts c new q now a b s ha hb calm =
    let d = read_loop c (q ++ new) a s in
    let k = read_loop-Finishes c (q ++ new) a s in
    let second = read_events-calm c [] d.waiting now b d.sensor hb (k.has_pending ∙ calm) in
    rw (read_events-calm c new q now a s ha calm) (
      rw (read_events-calm c new q now (a + b) s (omega arith) calm) (
        rw (second, append-nil d.waiting, read_loop-add c (q ++ new) a b s)
          (go_on-InParts c b s d k)))
