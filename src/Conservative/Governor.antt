-- ===== src/Conservative/Governor.antt =====
-- The events of the conservative governor: cpufreq_governor_dbs and its timer.
use android_device_motorola.Prelude.{
  ℕ, ◌+◌, ◌*◌, ◌-◌, ◌/◌, ◌%◌, Bool, true, false, not, ◌||◌, Option, none, some, List, [], ◌∷◌, ltb,
  ◌==◌, ◌!=◌, if◌then◌else◌, u32, sub32, max, put,
}
use mathlib.Core.Option
use android_device_motorola.Cpufreq.{
  Policy, GovEvent, gov_start, gov_stop, gov_limits, gov_other, relation_l, relation_h, Call,
  driver_target, einval,
}
use android_device_motorola.Conservative.State.{Tuners, DbsInfo, Sample}
use android_device_motorola.Conservative.Check.{get_cpu_idle_time, dbs_check_cpu}

-- The state that the CPUs share; `notifier` and `sysfs_group` tell what is registered.
pub record Global : Type 0 where
  pub tuners : Tuners
  pub min_sampling_rate : ℕ
  pub dbs_enable : ℕ
  pub notifier : Bool
  pub sysfs_group : Bool

-- What becomes of the work item of the CPU.
pub data Work : Type 0 where
  untouched : Work
  queued_in : ℕ → Work
  cancelled : Work

pub record Outcome : Type 0 where
  pub ret : ℕ
  pub calls : List Call
  pub work : Work
  pub global : Global
  pub infos : ℕ → DbsInfo

-- `delay -= jiffies % delay`, with `delay` from the kernel's `usecs_to_jiffies`; `none` is a
-- division by 0.
unfoldable pub aligned_delay : ℕ → ℕ → Option ℕ
aligned_delay jiffies delay = if delay == 0 then none else some (delay - jiffies % delay)

-- The loop of CPUFREQ_GOV_START over the CPUs of the policy.
unfoldable pub start_cpus : (ℕ → ℕ) → Tuners → (ℕ → Sample) → List ℕ → (ℕ → DbsInfo) → ℕ → DbsInfo
start_cpus j2u t read [] infos = infos
start_cpus j2u t read (j ∷ rest) infos =
    let now = get_cpu_idle_time j2u (read j) in
    start_cpus j2u t read rest (
      put infos j (record (infos j) {
        prev_cpu_idle = now.idle;
        prev_cpu_wall = now.wall;
        prev_cpu_nice = if t.ignore_nice != 0 then (read j).stat.nice else (infos j).prev_cpu_nice;
      }))

-- The rates that the first start sets; `transition_latency` is in ns.
unfoldable pub latency_us : ℕ → ℕ
latency_us transition_latency =
    if transition_latency / 1000 == 0 then 1 else transition_latency / 1000

unfoldable pub first_start : (ℕ → ℕ) → ℕ → Global → Global
unfolding latency_us
first_start j2u transition_latency g =
    let latency = latency_us transition_latency in
    let least = max (u32 (2 * j2u 10)) (u32 (100 * latency)) in
    record g {
      min_sampling_rate = least;
      tuners = record (g.tuners) { sampling_rate = max least (u32 (latency * 1000)) };
      notifier = true;
    }

-- What an event is called with besides the policy: whether the CPU is online, the result of
-- `sysfs_create_group`, jiffies, the policy's latency and CPUs, and the samples of these.
pub record Given : Type 0 where
  pub online : Bool
  pub rc : ℕ
  pub jiffies : ℕ
  pub transition_latency : ℕ
  pub cpus : List ℕ
  pub read : ℕ → Sample

-- dbs_timer_init at the end of CPUFREQ_GOV_START, on the state that the start left.
abbrev pub timer_init : Option ℕ → ℕ → Global → (ℕ → DbsInfo) → Option Outcome
timer_init none cpu g infos = none
timer_init (some delay) cpu g infos = some (record {
  ret = 0;
  calls = [];
  work = queued_in delay;
  global = g;
  infos = put infos cpu (record (infos cpu) { enable = 1 });
})

unfoldable pub on_start :
    (ℕ → ℕ) → (ℕ → ℕ) → Given → Policy → Global → (ℕ → DbsInfo) → Option Outcome
unfolding aligned_delay start_cpus first_start
on_start j2u u2j given policy g infos =
    let failed : ℕ → Option Outcome = λ code.
      some (record { ret = code; calls = []; work = untouched; global = g; infos = infos }) in
    if not given.online || policy.cur == 0
    then failed einval
    else (if given.rc != 0
        then failed given.rc
        else (let sampled = start_cpus j2u g.tuners given.read given.cpus infos in
            let infos' =
              put sampled policy.cpu
                (record (sampled policy.cpu) { down_skip = 0; requested_freq = policy.cur }) in
            let counted = record g { sysfs_group = true; dbs_enable = u32 (g.dbs_enable + 1) } in
            let g' =
              if counted.dbs_enable == 1
              then first_start j2u given.transition_latency counted
              else counted in
            timer_init (aligned_delay given.jiffies (u2j g'.tuners.sampling_rate)) policy.cpu g'
              infos'))

unfoldable pub on_stop : Policy → Global → (ℕ → DbsInfo) → Outcome
on_stop policy g infos =
    let counted = record g { sysfs_group = false; dbs_enable = sub32 g.dbs_enable 1 } in
    record {
      ret = 0;
      calls = [];
      work = cancelled;
      global = if counted.dbs_enable == 0 then record counted { notifier = false } else counted;
      infos = put infos policy.cpu (record (infos policy.cpu) { enable = 0 });
    }

-- `cur` is the frequency of the CPU's current policy.
unfoldable pub on_limits : Policy → ℕ → List Call
on_limits policy cur =
    if ltb policy.max cur
    then driver_target policy.max relation_h ∷ []
    else (if ltb cur policy.min then driver_target policy.min relation_l ∷ [] else [])

unfoldable pub cpufreq_governor_dbs :
    (ℕ → ℕ) → (ℕ → ℕ) → GovEvent → Given → Policy → ℕ → Global → (ℕ → DbsInfo) → Option Outcome
unfolding on_start on_stop on_limits
cpufreq_governor_dbs j2u u2j gov_start given policy cur g infos =
    on_start j2u u2j given policy g infos
cpufreq_governor_dbs j2u u2j gov_stop given policy cur g infos = some (on_stop policy g infos)
cpufreq_governor_dbs j2u u2j gov_limits given policy cur g infos =
    some (record {
      ret = 0;
      calls = on_limits policy cur;
      work = untouched;
      global = g;
      infos = infos;
    })
cpufreq_governor_dbs j2u u2j gov_other given policy cur g infos =
    some (record { ret = 0; calls = []; work = untouched; global = g; infos = infos })

-- do_dbs_timer: the delay is fixed before the sample is taken.
unfoldable pub do_dbs_timer :
    (ℕ → ℕ) → (ℕ → ℕ) → Given → Policy → Global → (ℕ → DbsInfo) → Option Outcome
unfolding aligned_delay dbs_check_cpu
do_dbs_timer j2u u2j given policy g infos =
    let (calls, infos') =
      dbs_check_cpu j2u g.tuners policy given.read given.cpus policy.cpu infos in
    Option.map
      (λ delay. record {
        ret = 0;
        calls = calls;
        work = queued_in delay;
        global = g;
        infos = infos';
      })
      (aligned_delay given.jiffies (u2j g.tuners.sampling_rate))
