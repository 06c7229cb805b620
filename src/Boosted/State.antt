-- ===== src/Boosted/State.antt =====
-- The state of the boosted governor: its tunables and what it keeps for each CPU.
use android_device_motorola.Prelude.{ℕ, Bool}

-- The tunables, which sysfs shows and sets.
pub record Tunables : Type 0 where
  pub awake_ideal_freq : ℕ
  pub sleep_ideal_freq : ℕ
  pub ramp_up_step : ℕ
  pub ramp_down_step : ℕ
  pub max_cpu_load : ℕ
  pub min_cpu_load : ℕ
  pub up_rate_us : ℕ
  pub down_rate_us : ℕ
  pub sleep_wakeup_freq : ℕ
  pub sample_rate_jiffies : ℕ
  pub debug_mask : ℕ

-- `ramp_dir`, which is 1, 0 or -1.
pub data Ramp : Type 0 where
  ramp_up ramp_none ramp_down : Ramp

-- `struct boosted_info_s` but for the policy, the table and the timer. An `int` is written as its
-- 32 bits.
pub record BoostedInfo : Type 0 where
  pub time_in_idle : ℕ
  pub idle_exit_time : ℕ
  pub freq_change_time : ℕ
  pub freq_change_time_in_idle : ℕ
  pub cur_cpu_load : ℕ
  pub old_freq : ℕ
  pub ramp_dir : Ramp
  pub enable : Bool
  pub ideal_speed : ℕ
