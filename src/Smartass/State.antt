-- ===== src/Smartass/State.antt =====
-- The state of the smartass governor: its tunables and what it keeps for each CPU.
use android_device_motorola.Prelude.{ℕ}

-- The tunables, which sysfs shows and sets.
pub record Tunables : Type 0 where
  pub down_rate_us : ℕ
  pub up_min_freq : ℕ
  pub sleep_max_freq : ℕ
  pub sleep_wakeup_freq : ℕ
  pub awake_min_freq : ℕ
  pub sample_rate_jiffies : ℕ
  pub ramp_up_step : ℕ
  pub max_ramp_down : ℕ
  pub max_cpu_load : ℕ
  pub min_cpu_load : ℕ

-- `struct smartass_info_s` but for the policy and the timer. `cur_cpu_load` is an `int`, written
-- as its 32 bits.
pub record SmartassInfo : Type 0 where
  pub time_in_idle : ℕ
  pub idle_exit_time : ℕ
  pub freq_change_time : ℕ
  pub freq_change_time_in_idle : ℕ
  pub cur_cpu_load : ℕ
  pub force_ramp_up : ℕ
  pub enable : ℕ
  pub max_speed : ℕ
  pub min_speed : ℕ
