-- ===== src/Proximity/Fields.antt =====
-- The fields of the configuration register of the proximity sensor, which three files share.
use android_device_motorola.Prelude.{
  all_below, all_below-lt, ℕ, ◌<◌, ◌≡◌, ◌≢◌, Bool, true, false, ◌&&◌, ltb, ◌==◌, ◌!=◌,
  if◌then◌else◌, put, u8, bit_and, bit_or, refl, arith, ap, ◌∙◌, sym, subst,
}
use android_device_motorola.Proc.{Input, written, Accepted, written-Accepted}
use android_device_motorola.Proximity.{Header, Sensor, isl_read_reg, isl_write_reg}
use android_device_motorola.Proximity.Handlers.{
  Bus, with_enable, isl_enable, enabled_of, highpower_of, speed_of, with_highpower, with_speed,
  speed_limit, set_highpower, set_speed, proc_enabled_write, proc_highpower_write, proc_speed_write,
}
use android_device_motorola.Proximity.Retries.{
  ReadWorks, WriteWorks, isl_read_reg-works, isl_write_reg-works,
}

-- A byte with the given fields; `low` are the three bits of the light sensor.
pub record Has (v en hp sp low : ℕ) : Type 0 where
  pub enabled_eq : enabled_of v ≡ en
  pub highpower_eq : highpower_of v ≡ hp
  pub speed_eq : speed_of v ≡ sp
  pub low_eq : bit_and v 7 ≡ low

has : ℕ → ℕ → ℕ → ℕ → ℕ → Bool
has v en hp sp low =
    (enabled_of v == en)
    && ((highpower_of v == hp) && ((speed_of v == sp) && ((bit_and v 7 == low) && ltb v 256)))

has-Has : (v en hp sp low : ℕ) → has v en hp sp low ≡ true → Has v en hp sp low × (v < 256)
unfolding has
has-Has v en hp sp low e = ground arith

-- The three changes, tested on all bytes.
enable_test : ℕ → ℕ → Bool
enable_test n v = has (with_enable n v) n (highpower_of v) (speed_of v) (bit_and v 7)

highpower_test : ℕ → ℕ → Bool
highpower_test n v = has (with_highpower n v) (enabled_of v) n (speed_of v) (bit_and v 7)

speed_test : ℕ → ℕ → Bool
speed_test n v = has (with_speed n v) (enabled_of v) (highpower_of v) n (bit_and v 7)

tests_pass :
    (all_below 2 (λ n. all_below 256 (enable_test n)) ≡ true)
    × (all_below 2 (λ n. all_below 256 (highpower_test n)) ≡ true)
    × (all_below 7 (λ n. all_below 256 (speed_test n)) ≡ true)
unfolding all_below has enable_test highpower_test speed_test
tests_pass = (refl, refl, refl)

abbrev pub truth : ℕ → ℕ
truth n = if n != 0 then 1 else 0

by_truth : (n a b : ℕ) → (if n != 0 then a else b) ≡ (if truth n != 0 then a else b)
by_truth n a b = ground arith

truth-lt : (n : ℕ) → truth n < 2
truth-lt n = ground arith

with_enable-Has :
    (n v : ℕ)
    → v < 256
    → Has (with_enable n v) (truth n) (highpower_of v) (speed_of v) (bit_and v 7)
      × (with_enable n v < 256)
unfolding enable_test
with_enable-Has n v h =
    subst (λ w. Has w (truth n) (highpower_of v) (speed_of v) (bit_and v 7) × (w < 256))
      (sym (by_truth n (bit_or v 0x80) (bit_and v 0x7f)))
      (has-Has (with_enable (truth n) v) (truth n) (highpower_of v) (speed_of v) (bit_and v 7) (
        all_below-lt 256 (enable_test (truth n))
          (all_below-lt 2 (λ n. all_below 256 (enable_test n)) tests_pass.0 (truth n) (truth-lt n))
          v h))

pub with_highpower-Has :
    (n v : ℕ)
    → v < 256
    → Has (with_highpower n v) (enabled_of v) (truth n) (speed_of v) (bit_and v 7)
      × (with_highpower n v < 256)
unfolding highpower_test
with_highpower-Has n v h =
    subst (λ w. Has w (enabled_of v) (truth n) (speed_of v) (bit_and v 7) × (w < 256))
      (sym (by_truth n (bit_or v 0x8) (bit_and v 0xf7)))
      (has-Has (with_highpower (truth n) v) (enabled_of v) (truth n) (speed_of v) (bit_and v 7) (
        all_below-lt 256 (highpower_test (truth n))
          (all_below-lt 2 (λ n. all_below 256 (highpower_test n)) tests_pass.1 (truth n)
            (truth-lt n))
          v h))

with_speed-Has :
    (n v : ℕ)
    → n < 7
    → v < 256
    → Has (with_speed n v) (enabled_of v) (highpower_of v) n (bit_and v 7) × (with_speed n v < 256)
unfolding speed_test
with_speed-Has n v k h = has-Has (with_speed n v) (enabled_of v) (highpower_of v) n (bit_and v 7) (
    all_below-lt 256 (speed_test n)
      (all_below-lt 7 (λ n. all_below 256 (speed_test n)) tests_pass.2 n k) v h)

-- After a write to one of the files: the configuration has the given fields and its old low bits,
-- and no other register has changed.
pub record Sets (h : Header) (s s' : Sensor) (en hp sp : ℕ) : Type 0 where
  pub fields : Has (s'.regs h.configure) en hp sp (bit_and (s.regs h.configure) 7)
  pub others : (r : ℕ) → r ≢ h.configure → s'.regs r ≡ s.regs r

put-Sets :
    (h : Header) (s s' : Sensor) (v en hp sp : ℕ)
    → s'.regs ≡ put s.regs h.configure (u8 v)
    → Has v en hp sp (bit_and (s.regs h.configure) 7) × (v < 256)
    → Sets h s s' en hp sp
put-Sets h s s' v en hp sp e (f, small) =
    let byte : u8 v ≡ v = omega arith in
    let here : (h.configure == h.configure) ≡ true = ground arith in
    let new : s'.regs h.configure ≡ v = ap (λ (r : ℕ → ℕ). r h.configure) e ∙ rw here byte in
    record {
      fields = subst (λ x. Has x en hp sp (bit_and (s.regs h.configure) 7)) (sym new) f;
      others = λ r d.
          let there : (r == h.configure) ≡ false = ground arith in
          ap (λ (regs : ℕ → ℕ). regs r) e ∙ rw there refl;
    }

module _ (h : Header) (b : Bus) (s : Sensor) (m : s.misc_data ≡ true)
    (byte : s.regs h.configure < 256) (r : ReadWorks h (b.reads 0))
    (w : WriteWorks h (b.writes 0)) where
  abbrev old : ℕ
  old = s.regs h.configure

  -- The configuration is read, changed and written.
  changed :
      (f : ℕ → ℕ) (s0 : ℕ → Sensor)
      → (s0 old).misc_data ≡ true
      → (s0 old).regs ≡ s.regs
      → let v = (isl_read_reg h (b.reads 0) s h.configure 0).1 in
        (isl_write_reg h (b.writes 0) (s0 v) h.configure (f v)).1.regs
        ≡ put s.regs h.configure (u8 (f old))
  changed f s0 k same =
      ap (λ (p : ℕ × ℕ). (isl_write_reg h (b.writes 0) (s0 p.1) h.configure (f p.1)).1.regs)
        (isl_read_reg-works h (b.reads 0) s h.configure 0 m r)
      ∙ ap (λ (p : ℕ × Sensor). p.1.regs)
          (isl_write_reg-works h (b.writes 0) (s0 old) h.configure (f old) k w)
      ∙ ap (λ (regs : ℕ → ℕ). put regs h.configure (u8 (f old))) same

  set_speed-Sets :
      (n : ℕ) → Sets h s (set_speed h b n s) (enabled_of old) (highpower_of old) (speed_limit n)
  set_speed-Sets n =
      put-Sets h s (set_speed h b n s) (with_speed (speed_limit n) old) _ _ _
        (changed (with_speed (speed_limit n)) (λ v. record s { speed = speed_limit n }) m refl)
        (with_speed-Has (speed_limit n) old (ground arith) byte)

  set_highpower-Sets :
      (n : ℕ) → Sets h s (set_highpower h b n s) (enabled_of old) (truth n) (speed_of old)
  set_highpower-Sets n =
      put-Sets h s (set_highpower h b n s) (with_highpower n old) _ _ _
        (changed (with_highpower n)
          (λ v. record s { highpower = highpower_of (with_highpower n v) }) m refl)
        (with_highpower-Has n old byte)

  enable-Sets :
      (n : ℕ)
      → let s0 = record s { enabled = n } in
        Sets h s
          (isl_enable h (b.reads 0) (b.writes 0) n s0).1
          (truth n)
          (highpower_of old)
          (speed_of old)
  unfolding isl_enable
  enable-Sets n =
      let s0 = record s { enabled = n } in
      let read = isl_read_reg-works h (b.reads 0) s0 h.configure 0 m r in
      let write = isl_write_reg-works h (b.writes 0) s0 h.configure (with_enable n old) m w in
      put-Sets h s (isl_enable h (b.reads 0) (b.writes 0) n s0).1 (with_enable n old) _ _ _
        (ap
            (λ (p : ℕ × ℕ).
              (if p.0 == 0
                then isl_write_reg h (b.writes 0) s0 h.configure (with_enable n p.1)
                else (p.0, s0)).1.regs)
            read
          ∙ ap (λ (p : ℕ × Sensor). p.1.regs) write)
        (with_enable-Has n old byte)

  -- Where the sensor is known, its configuration is a byte and the bus works within the retries, an
  -- accepted number sets its own field of the configuration and leaves the others: `enabled` and
  -- `highpower` are 1 for any number but 0, and `speed` is at most 6. The low bits and all other
  -- registers stay, and the result is the length of the text.
  pub writes-Sets :
      (i : Input) (n : ℕ)
      → Accepted i n
      → let (len1, s1) = proc_enabled_write h b i s in
        let (len2, s2) = proc_highpower_write h b i s in
        let (len3, s3) = proc_speed_write h b i s in
        ((len1 ≡ i.len) × Sets h s s1 (truth n) (highpower_of old) (speed_of old))
        × ((len2 ≡ i.len) × Sets h s s2 (enabled_of old) (truth n) (speed_of old))
        × ((len3 ≡ i.len) × Sets h s s3 (enabled_of old) (highpower_of old) (speed_limit n))
  unfolding proc_enabled_write proc_highpower_write proc_speed_write
  writes-Sets i n a = (
    accepted (λ n s. (isl_enable h (b.reads 0) (b.writes 0) n (record s { enabled = n })).1)
        (truth n) (highpower_of old) (speed_of old) (enable-Sets n),
    accepted (set_highpower h b) (enabled_of old) (truth n) (speed_of old) (set_highpower-Sets n),
    accepted (set_speed h b) (enabled_of old) (highpower_of old) (speed_limit n) (set_speed-Sets n),
  )
    where
      accepted :
          (f : ℕ → Sensor → Sensor) (en hp sp : ℕ)
          → Sets h s (f n s) en hp sp
          → ((written f i s).0 ≡ i.len) × Sets h s (written f i s).1 en hp sp
      accepted f en hp sp p =
          subst (λ (q : ℕ × Sensor). (q.0 ≡ i.len) × Sets h s q.1 en hp sp)
            (sym (written-Accepted f i n s a)) (refl, p)
