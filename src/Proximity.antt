-- ===== src/Proximity.antt =====
-- modules/proximity/isl-proximity.c: the registers of the proximity sensor under /proc/proximity.
--
-- A register is read and written over a bus that may fail, so each access is tried again. The answers
-- of the bus are arguments. A transfer that is not whole leaves the register as it was.
pub mod Handlers
pub mod Retries
pub mod Fields
pub mod Distance
mod Tests
use android_device_motorola.Prelude.{
  ℕ, zero, suc, ◌+◌, ◌-◌, ◌^◌, Bool, true, false, not, Option, none, some, ◌==◌, if◌then◌else◌, put,
  u8,
}

-- What the module takes from linux/isl29030.h. A read moves one byte.
pub record Header : Type 0 where
  pub allowed_w_bytes : ℕ
  pub max_rw_retries : ℕ
  pub configure : ℕ
  pub prox_lt : ℕ
  pub prox_ht : ℕ
  pub prox_data : ℕ

-- The globals and the registers of the sensor, which are bytes. `misc_data` tells whether the
-- pointer to the sensor is set.
pub record Sensor : Type 0 where
  pub misc_data : Bool
  pub regs : ℕ → ℕ
  pub distance : ℕ
  pub low_threshold : ℕ
  pub high_threshold : ℕ
  pub enabled : ℕ
  pub speed : ℕ
  pub highpower : ℕ

-- The results of i2c_master_send and i2c_master_recv for one attempt of a read, as 32 bits.
pub record Answer : Type 0 where
  pub sent : ℕ
  pub received : ℕ

-- LD_ISL29030_ALLOWED_R_BYTES, the size of the byte that is read.
abbrev pub allowed_r_bytes : ℕ
allowed_r_bytes = 1

abbrev pub read_error : Answer → ℕ
read_error a = if a.sent == 1 then a.received else a.sent

-- The loop of defy_isl_read_reg, with at most `more` attempts after the one numbered `i`: the
-- error, and the byte if there is one.
unfoldable pub read_loop : (ℕ → Answer) → ℕ → ℕ → ℕ → ℕ × Option ℕ
read_loop answers byte zero i =
    if read_error (answers i) == allowed_r_bytes
    then (0, some byte)
    else (read_error (answers i), none)
read_loop answers byte (suc more) i =
    let rest = read_loop answers byte more (i + 1) in
    if read_error (answers i) == allowed_r_bytes then (0, some byte) else rest

unfoldable pub defy_isl_read_reg : Header → (ℕ → Answer) → Sensor → ℕ → ℕ × Option ℕ
defy_isl_read_reg h answers s reg = read_loop answers (s.regs reg) (h.max_rw_retries - 1) 0

-- `-EIO`, as the 32 bits of an `int`.
abbrev pub eio : ℕ
eio = 2 ^ 32 - 5

-- The loop of defy_isl_write_reg: the error, and the registers.
unfoldable pub write_loop : Header → (ℕ → ℕ) → (ℕ → ℕ) → ℕ → ℕ → ℕ → ℕ → ℕ × (ℕ → ℕ)
write_loop h answers regs reg value zero i =
    if answers i == h.allowed_w_bytes then (0, put regs reg value) else (eio, regs)
write_loop h answers regs reg value (suc more) i =
    let rest = write_loop h answers regs reg value more (i + 1) in
    if answers i == h.allowed_w_bytes then (0, put regs reg value) else rest

unfoldable pub defy_isl_write_reg : Header → (ℕ → ℕ) → Sensor → ℕ → ℕ → ℕ × Sensor
defy_isl_write_reg h answers s reg value =
    let (ret, regs) = write_loop h answers s.regs reg value (h.max_rw_retries - 1) 0 in
    (ret, record s { regs = regs })

-- The result -1.
abbrev pub no_sensor : ℕ
no_sensor = 2 ^ 32 - 1

-- What isl_read_reg leaves of its variable: a read without a byte counts as the byte 0 if its error
-- is 0.
abbrev pub value_after : ℕ → ℕ × Option ℕ → ℕ × ℕ
value_after old (ret, none) = (ret, if ret == 0 then 0 else old)
value_after old (ret, some byte) = (ret, if ret == 0 then byte else old)

-- isl_read_reg with the variable's old value: its result, and the new value.
unfoldable pub isl_read_reg : Header → (ℕ → Answer) → Sensor → ℕ → ℕ → ℕ × ℕ
isl_read_reg h answers s reg old =
    if not s.misc_data
    then (no_sensor, old)
    else value_after old (defy_isl_read_reg h answers s reg)

unfoldable pub isl_write_reg : Header → (ℕ → ℕ) → Sensor → ℕ → ℕ → ℕ × Sensor
isl_write_reg h answers s reg val =
    if not s.misc_data then (no_sensor, s) else defy_isl_write_reg h answers s reg (u8 val)
