-- ===== src/Interactive.antt =====
-- modules/overclock/cpufreq_interactive.c: the "interactive" cpufreq governor.
--
-- `policy` and `target_freq` are one for all CPUs. What a handler reads of the policy, the clocks, the
-- run queue and the timers are arguments.
pub mod Governor
pub mod Scaling
mod Tests
use android_device_motorola.Prelude.{
  ℕ, ◌+◌, ◌*◌, ◌/◌, Bool, true, false, not, ◌&&◌, Option, none, some, List, [], ◌∷◌, ◌++◌, ltb,
  ◌==◌, if◌then◌else◌, put, u32, sub32, sub64,
}
use android_device_motorola.Cpufreq.{
  Policy, Clock, Call, driver_target, mod_timer, cpumask_set, queue_up, queue_down, pm_idle_old,
  relation_l, relation_h,
}

-- The globals that the timer and the work share.
pub record Shared : Type 0 where
  pub target_freq : ℕ
  pub freq_change_time : ℕ
  pub freq_change_time_in_idle : ℕ
  pub min_sample_time : ℕ

-- The per-CPU variables.
pub record CpuTimes : Type 0 where
  pub time_in_idle : ℕ
  pub idle_exit_time : ℕ

abbrev pub Handled : Type 0
Handled = List Call × CpuTimes × Shared

-- The sample that the timer and the idle hook start.
abbrev pub sampled : Clock → CpuTimes
sampled now = record { time_in_idle = now.idle; idle_exit_time = now.wall }

-- The end of the timer: a ramp down, if the time at the frequency is long enough.
unfoldable pub scale_down : Policy → Clock → List Call → CpuTimes → Shared → Handled
scale_down policy now calls times g =
    if policy.cur == policy.min
    then (calls, times, g)
    else (if ltb (sub64 now.wall g.freq_change_time) g.min_sample_time then (calls, times, g) else (
      calls ++ (cpumask_set ∷ queue_down ∷ []),
      times,
      record g { target_freq = policy.min },
    ))

-- cpufreq_interactive_timer; `again` is the clock where a new sample is started.
unfoldable pub cpufreq_interactive_timer :
    Policy → ℕ → Bool → ℕ → Clock → Clock → CpuTimes → Shared → Handled
cpufreq_interactive_timer policy nr_running pending jiffies now again times g =
    if now.wall == times.idle_exit_time
    then ([], times, g)
    else (if sub64 now.idle times.time_in_idle == 0
        then (if policy.cur == policy.max
            then ([], times, g)
            else (if ltb nr_running 1
                then ([], times, g)
                else (cpumask_set ∷ queue_up ∷ [], times, record g { target_freq = policy.max })))
        else (if not pending && ltb 0 nr_running
            then scale_down policy now (mod_timer (u32 (jiffies + 2)) ∷ []) (sampled again) g
            else scale_down policy now [] times g))

-- The idle hook; `served` tells whether the CPU is one of the policy's.
unfoldable pub interactive_idle : Bool → Bool → ℕ → Clock → CpuTimes → List Call × CpuTimes
interactive_idle served pending jiffies now times =
    if not served
    then (pm_idle_old ∷ [], times)
    else (if pending
        then (pm_idle_old ∷ [], times)
        else (pm_idle_old ∷ mod_timer (u32 (jiffies + 2)) ∷ [], sampled now))

-- cpufreq_interactive_calc_freq, in 32 bits; `none` divides by 0.
unfoldable pub cpufreq_interactive_calc_freq : Policy → Clock → Shared → Option ℕ
cpufreq_interactive_calc_freq policy now g =
    let idle_time = u32 (sub64 now.idle g.freq_change_time_in_idle) in
    let delta_time = u32 (sub64 now.wall g.freq_change_time) in
    if delta_time == 0
    then none
    else (let cpu_load = u32 (100 * sub32 delta_time idle_time) / delta_time in
        some (u32 (policy.cur * cpu_load) / 100))

-- What the work reads in a round: the policy and the run queue, and the clock for the load and
-- after the change.
pub record Reading : Type 0 where
  pub policy : Policy
  pub nr_running : ℕ
  pub now : Clock
  pub after : Clock

pub record World : Type 0 where
  pub shared : Shared
  pub work_cpumask : ℕ → Bool
  pub calls : List Call

-- The end of a round.
abbrev pub changed : Reading → ℕ → ℕ → Call → World → World
changed r cpu target call w = record {
  shared = record (w.shared) {
    target_freq = target;
    freq_change_time_in_idle = r.after.idle;
    freq_change_time = r.after.wall;
  };
  work_cpumask = put w.work_cpumask cpu false;
  calls = w.calls ++ (call ∷ []);
}

abbrev pub scaled : Reading → ℕ → World → Option ℕ → Option (Bool × World)
scaled r cpu w none = none
scaled r cpu w (some f) = some (true, changed r cpu f (driver_target f relation_l) w)

-- One round of the work for a CPU; the flag is `false` where it returns.
unfoldable pub round : Reading → ℕ → World → Option (Bool × World)
round r cpu w =
    if w.shared.target_freq == r.policy.max
    then (if r.nr_running == 1
        then some (false, record w { work_cpumask = put w.work_cpumask cpu false })
        else some (
          true,
          changed r cpu w.shared.target_freq (driver_target w.shared.target_freq relation_h) w,
        ))
    else scaled r cpu w (cpufreq_interactive_calc_freq r.policy r.now w.shared)

abbrev pub go_on : (World → Option World) → Option (Bool × World) → Option World
go_on rest none = none
go_on rest (some (false, w)) = some w
go_on rest (some (true, w)) = rest w

-- cpufreq_interactive_freq_change_time_work over the CPUs of `tmp_mask`; `none` divides by 0.
unfoldable pub freq_change_time_work : (ℕ → Reading) → List ℕ → World → Option World
freq_change_time_work read [] w = some w
freq_change_time_work read (cpu ∷ cpus) w =
    go_on (freq_change_time_work read cpus) (round (read cpu) cpu w)
