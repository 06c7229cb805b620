-- ===== src/Proximity/Tests.antt =====
-- The proximity sensor on a bus whose first attempts fail.
use android_device_motorola.Prelude.{
  ℕ, ◌≡◌, ◌==◌, ◌⊎◌, true, some, none, if◌then◌else◌, refl, arith,
}
use android_device_motorola.Proc.{Input, Accepted}
use android_device_motorola.Proximity.{Header, Sensor, Answer, read_error, read_loop}
use android_device_motorola.Proximity.Handlers.{
  Bus, enabled_of, highpower_of, speed_of, proc_enabled_write, proc_highpower_write,
  proc_speed_write, proc_distance_read,
}
use android_device_motorola.Proximity.Retries.{Never, ReadWorks, WriteWorks, Some, read_loop_lem}
use android_device_motorola.Proximity.Fields.{Sets, writes-Sets}
use android_device_motorola.Proximity.Distance.{
  proc_highpower_write-clears, proc_distance_read-keeps,
}

abbrev header : Header
header = record {
  allowed_w_bytes = 2;
  max_rw_retries = 5;
  configure = 1;
  prox_lt = 3;
  prox_ht = 4;
  prox_data = 8;
}

abbrev third_works : ℕ → Answer
third_works j = record { sent = if j == 2 then 1 else 7; received = 1 }

abbrev none_works : ℕ → Answer
none_works j = record { sent = 7; received = 1 }

abbrev second_works : ℕ → ℕ
second_works j = if j == 1 then 2 else 7

abbrev bus : Bus
bus = record { reads = λ k. third_works; writes = λ k. second_works }

abbrev deaf : Bus
deaf = record { reads = λ k. none_works; writes = λ k. second_works }

-- Enabled, with the normal power, at speed 5.
abbrev sensor : Sensor
sensor = record {
  misc_data = true;
  regs = λ r. if r == 1 then 0xd4 else 9;
  distance = 0;
  low_threshold = 0;
  high_threshold = 0;
  enabled = 0;
  speed = 0;
  highpower = 0;
}

abbrev input : Input
input = record { len = 2; copies = true; parsed = some 3 }

read_works : ReadWorks header third_works
read_works = (2, omega arith, omega arith, refl)

write_works : WriteWorks header second_works
write_works = (1, omega arith, omega arith, refl)

accepted : Accepted input 3
accepted = record { some_text = omega arith; fits = omega arith; copied = refl; number_read = refl }

writes-Sets_example :
    let (len1, s1) = proc_enabled_write header bus input sensor in
    let (len2, s2) = proc_highpower_write header bus input sensor in
    let (len3, s3) = proc_speed_write header bus input sensor in
    ((len1 ≡ 2) × Sets header sensor s1 1 0 5)
    × ((len2 ≡ 2) × Sets header sensor s2 1 1 5)
    × ((len3 ≡ 2) × Sets header sensor s3 1 0 3)
writes-Sets_example =
    writes-Sets header bus sensor refl (omega arith) read_works write_works input 3 accepted

proc_highpower_write-clears_example :
    let (len, s') = proc_highpower_write header deaf input sensor in
    (len ≡ 2)
    × (enabled_of (s'.regs 1) ≡ 0)
    × (highpower_of (s'.regs 1) ≡ 1)
    × (speed_of (s'.regs 1) ≡ 0)
proc_highpower_write-clears_example =
    proc_highpower_write-clears header deaf sensor input 3 refl (λ j a b. omega arith) (omega arith)
      write_works accepted

proc_distance_read-keeps_example : (proc_distance_read header bus 0 sensor).1.regs 1 ≡ 0xd4
proc_distance_read-keeps_example =
    proc_distance_read-keeps header bus sensor refl (omega arith) (λ k. read_works)
      (λ k. write_works) 1

read_loop_lem_example :
    (Some (λ j. read_error (third_works j)) 1 4 0 × (read_loop third_works 212 4 0 ≡ (0, some 212)))
    ⊎ (Never (λ j. read_error (third_works j)) 1 4 0
        × (read_loop third_works 212 4 0 ≡ (read_error (third_works 4), none)))
read_loop_lem_example = read_loop_lem third_works 212 4 0
