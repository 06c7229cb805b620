-- ===== src/Conservative/State.antt =====
-- The state of the conservative governor: its tunables and what it keeps for each CPU.
use android_device_motorola.Prelude.{ℕ}

-- `struct dbs_tuners`.
pub record Tuners : Type 0 where
  pub sampling_rate : ℕ
  pub sampling_down_factor : ℕ
  pub up_threshold : ℕ
  pub down_threshold : ℕ
  pub ignore_nice : ℕ
  pub freq_step : ℕ

-- `struct cpu_dbs_info_s` but for the policy, the work item and the mutex.
pub record DbsInfo : Type 0 where
  pub prev_cpu_idle : ℕ
  pub prev_cpu_wall : ℕ
  pub prev_cpu_nice : ℕ
  pub down_skip : ℕ
  pub requested_freq : ℕ
  pub enable : ℕ

-- The initialiser of `dbs_tuners_ins`; the sampling rate is set when the governor is started.
unfoldable pub dbs_tuners_ins : Tuners
dbs_tuners_ins = record {
  sampling_rate = 0;
  sampling_down_factor = 1;
  up_threshold = 80;
  down_threshold = 20;
  ignore_nice = 0;
  freq_step = 5;
}

-- The time that a CPU spent in each mode, in `kstat_cpu(cpu).cpustat`.
pub record CpuStat : Type 0 where
  pub user : ℕ
  pub nice : ℕ
  pub system : ℕ
  pub irq : ℕ
  pub softirq : ℕ
  pub steal : ℕ

-- What the governor reads of a CPU for one sample: the idle time and the clock of
-- `get_cpu_idle_time_us`, jiffies, and the time in each mode.
pub record Sample : Type 0 where
  pub idle_us : ℕ
  pub wall_us : ℕ
  pub jiffies_64 : ℕ
  pub stat : CpuStat
