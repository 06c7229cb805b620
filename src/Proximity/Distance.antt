-- ===== src/Proximity/Distance.antt =====
-- What the files of the proximity sensor do to a configuration that they should keep.
use android_device_motorola.Prelude.{
  ℕ, ◌-◌, ◌<◌, ◌≡◌, ◌≢◌, inl, inr, true, ◌==◌, put, u8, refl, arith, Bool-cases, if_cases, ap, ◌∙◌,
  subst,
}
use android_device_motorola.Proc.{Input, Accepted, written-Accepted}
use android_device_motorola.Proximity.{Header, Sensor, read_error, isl_write_reg}
use android_device_motorola.Proximity.Handlers.{
  Bus, with_enable, isl_enable, enabled_of, highpower_of, speed_of, with_highpower, set_highpower,
  Printed, proc_distance_read, proc_highpower_write,
}
use android_device_motorola.Proximity.Retries.{
  Never, ReadWorks, WriteWorks, isl_read_reg-works, isl_write_reg-works, isl_read_reg-fails,
}
use android_device_motorola.Proximity.Fields.{truth, with_highpower-Has}

-- Where the sensor is known, no attempt to read the configuration works, the last one with an
-- error, but the write does, an accepted number for `highpower` leaves the sensor with that power,
-- but disabled and at its slowest speed, whatever was set before.
pub proc_highpower_write-clears :
    (h : Header) (b : Bus) (s : Sensor) (i : Input) (n : ℕ)
    → s.misc_data ≡ true
    → Never (λ j. read_error (b.reads 0 j)) 1 (h.max_rw_retries - 1) 0
    → read_error (b.reads 0 (h.max_rw_retries - 1)) ≢ 0
    → WriteWorks h (b.writes 0)
    → Accepted i n
    → let (len, s') = proc_highpower_write h b i s in
      (len ≡ i.len)
      × (enabled_of (s'.regs h.configure) ≡ 0)
      × (highpower_of (s'.regs h.configure) ≡ truth n)
      × (speed_of (s'.regs h.configure) ≡ 0)
unfolding proc_highpower_write
proc_highpower_write-clears h b s i n m never nonzero w a =
    let (f, small) = with_highpower-Has n 0 (omega arith) in
    let s0 = record s { highpower = highpower_of (with_highpower n 0) } in
    let here : (h.configure == h.configure) ≡ true = ground arith in
    let byte : u8 (with_highpower n 0) ≡ with_highpower n 0 = omega (arith, small) in
    let new : (set_highpower h b n s).regs h.configure ≡ with_highpower n 0 =
      ap
        (λ (p : ℕ × ℕ).
          (isl_write_reg h (b.writes 0)
              (record s { highpower = highpower_of (with_highpower n p.1) }) h.configure
              (with_highpower n p.1)).1.regs
            h.configure)
        (isl_read_reg-fails h (b.reads 0) s h.configure 0 m never nonzero)
      ∙ ap (λ (p : ℕ × Sensor). p.1.regs h.configure)
          (isl_write_reg-works h (b.writes 0) s0 h.configure (with_highpower n 0) m w)
      ∙ rw here byte in
    let result = written-Accepted (set_highpower h b) i n s a in
    (
      ap (λ (q : ℕ × Sensor). q.0) result,
      ap (λ (q : ℕ × Sensor). enabled_of (q.1.regs h.configure)) result
          ∙ ap enabled_of new
          ∙ f.enabled_eq,
      ap (λ (q : ℕ × Sensor). highpower_of (q.1.regs h.configure)) result
          ∙ ap highpower_of new
          ∙ f.highpower_eq,
      ap (λ (q : ℕ × Sensor). speed_of (q.1.regs h.configure)) result
          ∙ ap speed_of new
          ∙ f.speed_eq,
    )

restored : (regs : ℕ → ℕ) (c v r : ℕ) → regs c < 256 → put (put regs c v) c (u8 (regs c)) r ≡ regs r
restored regs c v r byte = elim (Bool-cases (r == c)) [
  | inl e ↦
      let same : c ≡ r = ground arith in rw e (subst (λ k. u8 (regs c) ≡ regs k) same (omega arith))
  | inr e ↦ rw e refl
]

-- A reading of the distance, while the sensor is known, its configuration is a byte and the bus
-- works within the retries, leaves all registers as they were.
pub proc_distance_read-keeps :
    (h : Header) (b : Bus) (s : Sensor)
    → s.misc_data ≡ true
    → s.regs h.configure < 256
    → ((k : ℕ) → ReadWorks h (b.reads k))
    → ((k : ℕ) → WriteWorks h (b.writes k))
    → (r : ℕ) → (proc_distance_read h b 0 s).1.regs r ≡ s.regs r
unfolding proc_distance_read isl_enable
proc_distance_read-keeps h b s m byte r w reg =
    let v = s.regs h.configure in
    let s0 = record s { enabled = enabled_of v } in
    let s1 = record s0 { regs = put s.regs h.configure (u8 (with_enable 1 v)) } in
    let d = s1.regs h.prox_data in
    simp
      (
        isl_read_reg-works h (b.reads 0) s h.configure 0 m (r 0),
        isl_read_reg-works h (b.reads 1) s0 h.configure 0 m (r 1),
        isl_read_reg-works h (b.reads 1) s0 h.prox_data s0.distance m (r 1),
        isl_write_reg-works h (b.writes 0) s0 h.configure (with_enable 1 v) m (w 0),
        isl_read_reg-works h (b.reads 2) s1 h.prox_data s1.distance m (r 2),
        isl_write_reg-works h (b.writes 1) (record s1 { distance = d }) h.configure v m (w 1),
      )
      (if_cases (λ (p : Printed × Sensor). p.1.regs reg ≡ s.regs reg) (enabled_of v == 0)
        (λ _. restored s.regs h.configure (u8 (with_enable 1 v)) reg byte) (λ _. refl))
