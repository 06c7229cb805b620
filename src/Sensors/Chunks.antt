-- ===== src/Sensors/Chunks.antt =====
-- Reading the events of the chip in small portions gives what one large read gives.
use mathlib.Core.List.{append_assoc}
use android_device_motorola.Prelude.{
  ℕ, zero, suc, ◌+◌, ◌-◌, ◌<◌, ◌≡◌, refl, sym, true, false, not, ◌||◌, List, [], ◌∷◌, ◌++◌, ◌==◌,
  if◌then◌else◌, arith, ap, ◌∙◌, Bool-cases, inl, inr, subst,
}
use android_device_motorola.Sensors.Compass.{
  num_sensors, Code, InputEvent, abs, syn, other, Conversion, Sensor, Sent, Delivered, any,
  process_event, stamped, first, send_pending, after, stop, stop_sent, read_loop,
}

module _ {E : Type 0} (c : Conversion E) where
  abbrev ended : ℕ → Sensor E → Sent E
  ended n s = record { left = n; sensor = s; events = [] }

  abbrev add_sent : List E → Sent E → Sent E
  add_sent es d = record d { events = es ++ d.events }

  send_pending-zero : (j t n : ℕ) (s : Sensor E) → send_pending c zero j t n s ≡ ended n s
  unfolding send_pending
  send_pending-zero j t n s = refl

  send_pending-stops :
      (more j t n : ℕ) (s : Sensor E)
      → (n == 0 || not (any s.pending_mask)) ≡ true
      → send_pending c more j t n s ≡ ended n s
  unfolding send_pending
  send_pending-stops zero j t n s h = refl
  send_pending-stops (suc more) j t n s h = rw h refl

  -- No event waits of a sensor below `j`.
  abbrev pub Clear : ℕ → Sensor E → Type 0
  Clear j s = (i : ℕ) → i < j → s.pending_mask i ≡ false

  send_pending-skips :
      (more j t n : ℕ) (s : Sensor E)
      → s.pending_mask j ≡ false
      → send_pending c (suc more) j t n s ≡ send_pending c more (j + 1) t n s
  unfolding send_pending
  send_pending-skips more j t n s h = elim (Bool-cases (n == 0 || not (any s.pending_mask))) [
    | inl stops ↦ rw stops (sym (send_pending-stops more (j + 1) t n s stops))
    | inr goes ↦ rw (goes, h) refl
  ]

  -- The loop may as well begin behind the sensors that wait for nothing.
  send_pending-from :
      (j more t n : ℕ) (s : Sensor E)
      → Clear j s
      → send_pending c (j + more) 0 t n s ≡ send_pending c more j t n s
  send_pending-from zero more t n s h = ap (λ k. send_pending c k 0 t n s) (omega arith)
  send_pending-from (suc j) more t n s h =
      ap (λ k. send_pending c k 0 t n s) (omega arith)
      ∙ send_pending-from j (suc more) t n s (λ i l. h i (omega arith))
      ∙ send_pending-skips more j t n s (h j (omega arith))
      ∙ ap (λ k. send_pending c more k t n s) (omega arith)

  pub stamped-Clear : (t j : ℕ) (s : Sensor E) → Clear j s → Clear (j + 1) (stamped c t j s)
  unfolding stamped
  stamped-Clear t j s h i l = ground (arith, h i)

  pub Clear-add : (j : ℕ) (s : Sensor E) → Clear j s → s.pending_mask j ≡ false → Clear (j + 1) s
  Clear-add j s h e i l = elim (Bool-cases (i == j)) [
    | inl here ↦ let same : j ≡ i = ground arith in subst (λ k. s.pending_mask k ≡ false) same e
    | inr there ↦ h i (ground arith)
  ]

  send_pending-sends :
      (more j t n : ℕ) (s : Sensor E)
      → (n == 0 || not (any s.pending_mask)) ≡ false
      → s.pending_mask j ≡ true
      → let s' = stamped c t j s in
        send_pending c (suc more) j t n s ≡ (
          if s.enabled j
          then first (s'.pending_events j) (send_pending c more (j + 1) t (n - 1) s')
          else send_pending c more (j + 1) t n s')
  unfolding send_pending
  send_pending-sends more j t n s goes marked = rw (goes, marked) refl

  -- The sending goes on from the first sensor, with room for `b` more.
  resume : ℕ → ℕ → Sent E → Sent E
  resume t b d = add_sent d.events (send_pending c num_sensors 0 t (d.left + b) d.sensor)

  resume-first : (t b : ℕ) (e : E) (d : Sent E) → resume t b (first e d) ≡ first e (resume t b d)
  unfolding resume
  resume-first t b e d = refl

  resume-ended :
      (j more t a b : ℕ) (s : Sensor E)
      → j + more ≡ num_sensors
      → Clear j s
      → resume t b (ended a s) ≡ send_pending c more j t (a + b) s
  unfolding resume
  resume-ended j more t a b s e h =
      subst (λ k. send_pending c k 0 t (a + b) s ≡ send_pending c more j t (a + b) s) e
        (send_pending-from j more t (a + b) s h)

  send_pending-add-sends :
      (more j t a b : ℕ) (s : Sensor E)
      → (a == 0 || not (any s.pending_mask)) ≡ false
      → s.pending_mask j ≡ true
      → ((m : ℕ)
          → send_pending c more (j + 1) t (m + b) (stamped c t j s)
            ≡ resume t b (send_pending c more (j + 1) t m (stamped c t j s)))
      → send_pending c (suc more) j t (a + b) s ≡ resume t b (send_pending c (suc more) j t a s)
  send_pending-add-sends more j t a b s goes marked ih =
      let s' = stamped c t j s in
      let e = s'.pending_events j in
      let goes' : (a + b == 0 || not (any s.pending_mask)) ≡ false = ground (arith, goes) in
      let less : a + b - 1 ≡ a - 1 + b = ground (arith, goes) in
      rw (send_pending-sends more j t (a + b) s goes' marked) (
        rw (send_pending-sends more j t a s goes marked) (elim (Bool-cases (s.enabled j)) [
          | inl sends ↦
              rw (sends, less)
                (ap (first e) (ih (a - 1))
                  ∙ sym (resume-first t b e (send_pending c more (j + 1) t (a - 1) s')))
          | inr keeps ↦ rw keeps (ih a)
        ]))

  -- What is sent with room for `a + b` events is what is sent with room for `a` and then, from the
  -- first sensor again, with room for `b` more.
  send_pending-add :
      (more j t a b : ℕ) (s : Sensor E)
      → j + more ≡ num_sensors
      → Clear j s
      → send_pending c more j t (a + b) s ≡ resume t b (send_pending c more j t a s)
  send_pending-add zero j t a b s e h =
      sym (ap (resume t b) (send_pending-zero j t a s) ∙ resume-ended j zero t a b s e h)
  send_pending-add (suc more) j t a b s e h =
      elim (Bool-cases (a == 0 || not (any s.pending_mask))) [
        | inl stops ↦ sym (
            ap (resume t b) (send_pending-stops (suc more) j t a s stops)
            ∙ resume-ended j (suc more) t a b s e h)
        | inr goes ↦ elim (Bool-cases (s.pending_mask j)) [
          | inl marked ↦ send_pending-add-sends more j t a b s goes marked λ m.
              send_pending-add more (j + 1) t m b (stamped c t j s) (omega arith)
                (stamped-Clear t j s h)
          | inr free ↦
              send_pending-skips more j t (a + b) s free
              ∙ send_pending-add more (j + 1) t a b s (omega arith) (Clear-add j s h free)
              ∙ ap (resume t b) (sym (send_pending-skips more j t a s free))
        ]
      ]

  -- A read goes on with room for `b` more.
  unfoldable pub go_on : ℕ → Delivered E → Delivered E
  go_on b d = after d.events (read_loop c d.waiting (d.left + b) d.sensor)

  read_loop-zero : (q : List InputEvent) (s : Sensor E) → read_loop c q 0 s ≡ stop q 0 s
  unfolding read_loop
  read_loop-zero [] s = refl
  read_loop-zero (abs code value ∷ q) s = refl
  read_loop-zero (syn t ∷ q) s = refl
  read_loop-zero (other ∷ q) s = refl

  go_on-after :
      (b : ℕ) (es : List E) (d : Delivered E) → go_on b (after es d) ≡ after es (go_on b d)
  unfolding go_on
  go_on-after b es d =
      let d' = read_loop c d.waiting (d.left + b) d.sensor in
      ap (λ l. record d' { events = l }) (append_assoc es d.events d'.events)

  -- The step of the loop at the end of a packet, after the sensors.
  packet : ℕ → List InputEvent → Sent E → Delivered E
  packet t q d =
      if any d.sensor.pending_mask
      then stop_sent (syn t ∷ q) d
      else after d.events (read_loop c q d.left d.sensor)

  read_loop-syn :
      (t : ℕ) (q : List InputEvent) (n : ℕ) (s : Sensor E)
      → (n == 0) ≡ false
      → read_loop c (syn t ∷ q) n s ≡ packet t q (send_pending c num_sensors 0 t n s)
  unfolding read_loop packet
  read_loop-syn t q n s room = rw room refl

  packet-add_sent :
      (t : ℕ) (q : List InputEvent) (es : List E) (d : Sent E)
      → packet t q (add_sent es d) ≡ after es (packet t q d)
  unfolding packet
  packet-add_sent t q es d = elim (Bool-cases (any d.sensor.pending_mask)) [
    | inl waits ↦ rw waits refl
    | inr sent ↦
        let r = read_loop c q d.left d.sensor in
        rw sent (ap (λ l. record r { events = l }) (append_assoc es d.events r.events))
  ]

  packet-waiting :
      (t : ℕ) (q : List InputEvent) (d : Sent E)
      → any d.sensor.pending_mask ≡ true
      → packet t q d ≡ stop_sent (syn t ∷ q) d
  unfolding packet
  packet-waiting t q d waits = rw waits refl

  packet-done :
      (t : ℕ) (q : List InputEvent) (d : Sent E)
      → any d.sensor.pending_mask ≡ false
      → packet t q d ≡ after d.events (read_loop c q d.left d.sensor)
  unfolding packet
  packet-done t q d done = rw done refl

  -- The same packet is met again by the next read.
  packet-again :
      (t : ℕ) (q : List InputEvent) (n : ℕ) (s : Sensor E)
      → any s.pending_mask ≡ true
      → packet t q (send_pending c num_sensors 0 t n s) ≡ read_loop c (syn t ∷ q) n s
  packet-again t q n s waits = elim (Bool-cases (n == 0)) [
    | inl full ↦
        let stops : (n == 0 || not (any s.pending_mask)) ≡ true = rw full refl in
        let zero_left : n ≡ 0 = ground arith in
        ap (packet t q) (send_pending-stops num_sensors 0 t n s stops)
        ∙ packet-waiting t q (ended n s) waits
        ∙ ap (λ k. stop (syn t ∷ q) k s) zero_left
        ∙ sym (read_loop-zero (syn t ∷ q) s)
        ∙ ap (λ k. read_loop c (syn t ∷ q) k s) (sym zero_left)
    | inr room ↦ sym (read_loop-syn t q n s room)
  ]

  module _ (t b : ℕ) (q : List InputEvent) (d : Sent E) where
    packet-resume :
        packet t q (resume t b d)
        ≡ after d.events (packet t q (send_pending c num_sensors 0 t (d.left + b) d.sensor))
    unfolding resume
    packet-resume =
        packet-add_sent t q d.events (send_pending c num_sensors 0 t (d.left + b) d.sensor)

    packet-waits :
        any d.sensor.pending_mask ≡ true → packet t q (resume t b d) ≡ go_on b (packet t q d)
    unfolding go_on
    packet-waits waits =
        packet-resume
        ∙ ap (after d.events) (packet-again t q (d.left + b) d.sensor waits)
        ∙ sym (ap (go_on b) (packet-waiting t q d waits))

    packet-sent :
        ((n : ℕ) (s : Sensor E) → read_loop c q (n + b) s ≡ go_on b (read_loop c q n s))
        → any d.sensor.pending_mask ≡ false
        → packet t q (resume t b d) ≡ go_on b (packet t q d)
    packet-sent ih sent =
        let n = d.left + b in
        let stops : (n == 0 || not (any d.sensor.pending_mask)) ≡ true = rw sent (ground arith) in
        packet-resume
        ∙ ap (λ k. after d.events (packet t q k))
            (send_pending-stops num_sensors 0 t n d.sensor stops)
        ∙ ap (after d.events) (packet-done t q (ended n d.sensor) sent ∙ ih d.left d.sensor)
        ∙ sym (go_on-after b d.events (read_loop c q d.left d.sensor))
        ∙ sym (ap (go_on b) (packet-done t q d sent))

  read_loop-abs :
      (code : Code) (v : ℕ) (q : List InputEvent) (n : ℕ) (s : Sensor E)
      → (n == 0) ≡ false
      → read_loop c (abs code v ∷ q) n s ≡ read_loop c q n (process_event c code v s)
  unfolding read_loop
  read_loop-abs code v q n s room = rw room refl

  read_loop-other :
      (q : List InputEvent) (n : ℕ) (s : Sensor E)
      → (n == 0) ≡ false
      → read_loop c (other ∷ q) n s ≡ read_loop c q n s
  unfolding read_loop
  read_loop-other q n s room = rw room refl

  read_loop-nil : (n : ℕ) (s : Sensor E) → read_loop c [] n s ≡ stop [] n s
  unfolding read_loop
  read_loop-nil n s = refl

  -- No room at first.
  go_on-zero :
      (q : List InputEvent) (a b : ℕ) (s : Sensor E)
      → a ≡ 0
      → read_loop c q (a + b) s ≡ go_on b (read_loop c q a s)
  unfolding go_on
  go_on-zero q a b s e =
      let start : read_loop c q a s ≡ stop q a s =
        ap (λ k. read_loop c q k s) e ∙ read_loop-zero q s ∙ ap (λ k. stop q k s) (sym e) in
      sym (ap (λ d. after d.events (read_loop c d.waiting (d.left + b) d.sensor)) start)

  -- One event, where there is room.
  read_loop-add-room :
      (e : InputEvent) (q : List InputEvent) (a b : ℕ) (s : Sensor E)
      → (a == 0) ≡ false
      → (a + b == 0) ≡ false
      → ((n : ℕ) (s : Sensor E) → read_loop c q (n + b) s ≡ go_on b (read_loop c q n s))
      → read_loop c (e ∷ q) (a + b) s ≡ go_on b (read_loop c (e ∷ q) a s)
  read_loop-add-room (abs code v) q a b s room all ih =
      read_loop-abs code v q (a + b) s all
      ∙ ih a (process_event c code v s)
      ∙ sym (ap (go_on b) (read_loop-abs code v q a s room))
  read_loop-add-room other q a b s room all ih =
      read_loop-other q (a + b) s all ∙ ih a s ∙ sym (ap (go_on b) (read_loop-other q a s room))
  read_loop-add-room (syn t) q a b s room all ih =
      let d = send_pending c num_sensors 0 t a s in
      read_loop-syn t q (a + b) s all
      ∙ ap (packet t q) (send_pending-add num_sensors 0 t a b s refl (λ i l. absurd (omega arith)))
      ∙ elim (Bool-cases (any d.sensor.pending_mask)) [
        | inl waits ↦ packet-waits t b q d waits
        | inr sent ↦ packet-sent t b q d ih sent
      ]
      ∙ sym (ap (go_on b) (read_loop-syn t q a s room))

  -- A read with room for `a + b` events is a read with room for `a` and then one for `b` more.
  pub read_loop-add :
      (q : List InputEvent) (a b : ℕ) (s : Sensor E)
      → read_loop c q (a + b) s ≡ go_on b (read_loop c q a s)
  unfolding go_on
  read_loop-add [] a b s =
      read_loop-nil (a + b) s
      ∙ sym (ap (go_on b) (read_loop-nil a s) ∙ ap (after []) (read_loop-nil (a + b) s))
  read_loop-add (e ∷ q) a b s = elim (Bool-cases (a == 0)) [
    | inl full ↦ go_on-zero (e ∷ q) a b s (ground arith)
    | inr room ↦ read_loop-add-room e q a b s room (ground arith) (λ n s'. read_loop-add q n b s')
  ]
