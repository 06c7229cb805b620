-- ===== src/Proximity/Handlers.antt =====
-- The files under /proc/proximity: isl_enable, and the read and write functions of the files.
use android_device_motorola.Prelude.{
  ℕ, ◌*◌, ◌/◌, ◌^◌, ltb, ◌==◌, ◌!=◌, if◌then◌else◌, u32, bit_and, bit_or,
}
use android_device_motorola.Proc.{Input, written}
use android_device_motorola.Proximity.{Header, Sensor, Answer, isl_read_reg, isl_write_reg}

-- The answers of the bus for the accesses that one call makes, in order.
pub record Bus : Type 0 where
  pub reads : ℕ → ℕ → Answer
  pub writes : ℕ → ℕ → ℕ

abbrev pub prox_en : ℕ
prox_en = 0x80

abbrev pub prox_dr : ℕ
prox_dr = 0x08

abbrev pub prox_slp : ℕ
prox_slp = 0x70

-- The two changes that isl_enable makes to the configuration.
abbrev pub with_enable : ℕ → ℕ → ℕ
with_enable onoff regv = if onoff != 0 then bit_or regv 0x80 else bit_and regv 0x7f

-- isl_enable, with the answers for its read and its write; the new value is written only where the
-- old one was read.
unfoldable pub isl_enable : Header → (ℕ → Answer) → (ℕ → ℕ) → ℕ → Sensor → ℕ × Sensor
isl_enable h read write onoff s =
    let (ret, regv) = isl_read_reg h read s h.configure 0 in
    if ret == 0 then isl_write_reg h write s h.configure (with_enable onoff regv) else (ret, s)

-- What a read function gives: nothing, as behind the start of the file, the number that it prints,
-- or an error.
pub data Printed : Type 0 where
  nothing : Printed
  number : ℕ → Printed
  error : ℕ → Printed

-- `if (offset > 0) return 0;`
abbrev pub at_start : ℕ → Sensor → Printed × Sensor → Printed × Sensor
at_start offset s r = if ltb 0 offset then (nothing, s) else r

unfoldable pub proc_low_threshold_read : Header → Bus → ℕ → Sensor → Printed × Sensor
proc_low_threshold_read h b offset s =
    let (ret, v) = isl_read_reg h (b.reads 0) s h.prox_lt s.low_threshold in
    at_start offset s (number v, record s { low_threshold = v })

unfoldable pub proc_high_threshold_read : Header → Bus → ℕ → Sensor → Printed × Sensor
proc_high_threshold_read h b offset s =
    let (ret, v) = isl_read_reg h (b.reads 0) s h.prox_ht s.high_threshold in
    at_start offset s (number v, record s { high_threshold = v })

abbrev pub enabled_of : ℕ → ℕ
enabled_of regv = if bit_and regv prox_en != 0 then 1 else 0

abbrev pub highpower_of : ℕ → ℕ
highpower_of regv = bit_and regv prox_dr / 2 ^ 3

abbrev pub speed_of : ℕ → ℕ
speed_of regv = bit_and regv prox_slp / 2 ^ 4

unfoldable pub proc_enabled_read : Header → Bus → ℕ → Sensor → Printed × Sensor
proc_enabled_read h b offset s =
    let (ret, regv) = isl_read_reg h (b.reads 0) s h.configure 0 in
    at_start offset s (number (enabled_of regv), record s { enabled = enabled_of regv })

unfoldable pub proc_highpower_read : Header → Bus → ℕ → Sensor → Printed × Sensor
proc_highpower_read h b offset s =
    let (ret, regv) = isl_read_reg h (b.reads 0) s h.configure 0 in
    at_start offset s (number (highpower_of regv), record s { highpower = highpower_of regv })

unfoldable pub proc_speed_read : Header → Bus → ℕ → Sensor → Printed × Sensor
proc_speed_read h b offset s =
    let (ret, regv) = isl_read_reg h (b.reads 0) s h.configure 0 in
    at_start offset s (
      if ret == 0
      then (number (speed_of regv), record s { speed = speed_of regv })
      else (error ret, s))

-- A disabled sensor is enabled for the reading, and then gets its old configuration back.
unfoldable pub proc_distance_read : Header → Bus → ℕ → Sensor → Printed × Sensor
proc_distance_read h b offset s =
    let (ret, regv) = isl_read_reg h (b.reads 0) s h.configure 0 in
    let s0 = record s { enabled = enabled_of regv } in
    at_start offset s (
      if enabled_of regv == 0
      then (let s1 = (isl_enable h (b.reads 1) (b.writes 0) 1 s0).1 in
          let (ret', v) = isl_read_reg h (b.reads 2) s1 h.prox_data s1.distance in
          (
            number v,
            (isl_write_reg h (b.writes 1) (record s1 { distance = v }) h.configure regv).1,
          ))
      else (let (ret', v) = isl_read_reg h (b.reads 1) s0 h.prox_data s0.distance in
          (number v, record s0 { distance = v })))

unfoldable pub proc_low_threshold_write : Header → Bus → Input → Sensor → ℕ × Sensor
proc_low_threshold_write h b i s =
    written (λ n s. (isl_write_reg h (b.writes 0) (record s { low_threshold = n }) h.prox_lt n).1) i
      s

unfoldable pub proc_high_threshold_write : Header → Bus → Input → Sensor → ℕ × Sensor
proc_high_threshold_write h b i s =
    written (λ n s. (isl_write_reg h (b.writes 0) (record s { high_threshold = n }) h.prox_ht n).1)
      i s

unfoldable pub proc_enabled_write : Header → Bus → Input → Sensor → ℕ × Sensor
proc_enabled_write h b i s =
    written (λ n s. (isl_enable h (b.reads 0) (b.writes 0) n (record s { enabled = n })).1) i s

abbrev pub with_highpower : ℕ → ℕ → ℕ
with_highpower n regv = if n != 0 then bit_or regv 0x8 else bit_and regv 0xf7

-- The result of the read is not looked at here and below.
abbrev pub set_highpower : Header → Bus → ℕ → Sensor → Sensor
set_highpower h b n s =
    let (ret, regv) = isl_read_reg h (b.reads 0) s h.configure 0 in
    let new = with_highpower n regv in
    (isl_write_reg h (b.writes 0) (record s { highpower = highpower_of new }) h.configure new).1

unfoldable pub proc_highpower_write : Header → Bus → Input → Sensor → ℕ × Sensor
proc_highpower_write h b i s = written (set_highpower h b) i s

abbrev pub speed_limit : ℕ → ℕ
speed_limit n = if ltb 6 n then 6 else n

abbrev pub with_speed : ℕ → ℕ → ℕ
with_speed speed regv = bit_or (bit_and regv 0x8f) (bit_and (u32 (speed * 2 ^ 4)) 0x70)

abbrev pub set_speed : Header → Bus → ℕ → Sensor → Sensor
set_speed h b n s =
    let (ret, regv) = isl_read_reg h (b.reads 0) s h.configure 0 in
    let new = with_speed (speed_limit n) regv in
    (isl_write_reg h (b.writes 0) (record s { speed = speed_limit n }) h.configure new).1

unfoldable pub proc_speed_write : Header → Bus → Input → Sensor → ℕ × Sensor
proc_speed_write h b i s = written (set_speed h b) i s
