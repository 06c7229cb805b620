-- ===== src/Cpufreq.antt =====
-- What the governors under modules/overclock/ share of the kernel's cpufreq interface: the policy
-- that a governor serves, the events that it is called with, and its calls into the kernel.
--
-- The kernel owns a policy and its frequency, the clocks, the run queue and the timers. A handler
-- gets what it reads of them as arguments, and returns the calls that it makes, in order.
use android_device_motorola.Prelude.{
  ℕ, ◌*◌, ◌-◌, ◌/◌, ◌^◌, Option, none, some, ◌==◌, if◌then◌else◌, u32,
}

-- The fields of `struct cpufreq_policy` that the governors read, in kHz.
pub record Policy : Type 0 where
  pub cpu : ℕ
  pub min : ℕ
  pub max : ℕ
  pub cur : ℕ

-- CPUFREQ_RELATION_L: the lowest frequency at or above the target; _H: the highest at or below it.
pub data Relation : Type 0 where
  relation_l relation_h : Relation

pub data GovEvent : Type 0 where
  gov_start gov_stop gov_limits gov_other : GovEvent

-- One reading of `get_cpu_idle_time_us`: the idle time, and the time at which it was read.
pub record Clock : Type 0 where
  pub idle : ℕ
  pub wall : ℕ

-- The calls of a governor into the kernel.
pub data Call : Type 0 where
  driver_target : ℕ → Relation → Call
  mod_timer : ℕ → Call
  del_timer : Call
  cpumask_set : Call
  queue_up : Call
  queue_down : Call
  pm_idle_old : Call

pub data IdleHook : Type 0 where
  cpufreq_idle : IdleHook
  other_idle : ℕ → IdleHook

-- `-EINVAL`, as the 32 bits of an `int`.
abbrev pub einval : ℕ
einval = 2 ^ 32 - 22

-- `100 * (unsigned int)(busy) / (unsigned int)total`, in 32 bits; `none` divides by 0.
unfoldable pub percent32 : ℕ → ℕ → Option ℕ
percent32 busy total = if u32 total == 0 then none else some (u32 (100 * u32 busy) / u32 total)
