-- ===== src/Boosted/Timer.antt =====
-- The timer and the idle hook of the boosted governor: reset_timer, cpufreq_boosted_timer,
-- cpufreq_idle.
use android_device_motorola.Prelude.{
  ℕ, ◌+◌, ◌-◌, Bool, not, ◌&&◌, ◌||◌, Option, none, some, List, [], ◌∷◌, ◌++◌, ltb, leb, ◌==◌,
  if◌then◌else◌, u32, sub64, sltb,
}
use android_device_motorola.Cpufreq.{
  Policy, Clock, Call, mod_timer, del_timer, cpumask_set, queue_up, queue_down, pm_idle_old,
  percent32,
}
use android_device_motorola.Boosted.State.{
  Tunables, BoostedInfo, Ramp, ramp_up, ramp_none, ramp_down,
}

-- The result of a handler: its calls into the kernel, and the new state of the CPU.
abbrev pub Handled : Type 0
Handled = List Call × BoostedInfo

unfoldable pub reset_timer : Tunables → ℕ → Clock → BoostedInfo → Handled
reset_timer t jiffies now info = (
  mod_timer (u32 (jiffies + t.sample_rate_jiffies)) ∷ [],
  record info { time_in_idle = now.idle; idle_exit_time = now.wall },
)

-- The load over a sample of `delta_time`, of which `delta_idle` was idle; `none` divides by 0.
unfoldable pub sample_load : ℕ → ℕ → Option ℕ
sample_load delta_idle delta_time =
    if ltb delta_time delta_idle then some 0 else percent32 (delta_time - delta_idle) delta_time

-- Where the timer decides to go. `delta_idle` is the idle time of the sample, and `since` the time
-- since the last change of the frequency.
unfoldable pub choose_ramp : Tunables → Policy → ℕ → ℕ → ℕ → ℕ → Ramp
choose_ramp t policy ideal cpu_load delta_idle since =
    if ltb t.max_cpu_load cpu_load || delta_idle == 0
    then (if ltb policy.cur policy.max
          && (sltb policy.cur ideal || delta_idle == 0 || leb t.up_rate_us since)
        then ramp_up
        else ramp_none)
    else (if ltb cpu_load t.min_cpu_load
          && ltb policy.min policy.cur
          && (sltb ideal policy.cur || leb t.down_rate_us since)
        then ramp_down
        else ramp_none)

-- What the timer does with its decision: it queues the work, or starts a new sample below the
-- maximum.
unfoldable pub follow_ramp : Tunables → ℕ → Policy → Clock → BoostedInfo → Ramp → Handled
follow_ramp t jiffies policy again info ramp_up =
    (cpumask_set ∷ queue_up ∷ [], record info { ramp_dir = ramp_up })
follow_ramp t jiffies policy again info ramp_down =
    (cpumask_set ∷ queue_down ∷ [], record info { ramp_dir = ramp_down })
follow_ramp t jiffies policy again info ramp_none =
    let info' = record info { ramp_dir = ramp_none } in
    if ltb policy.cur policy.max then reset_timer t jiffies again info' else ([], info')

-- The timer with the load measured.
unfoldable pub decide : Tunables → ℕ → Policy → Clock → Clock → BoostedInfo → ℕ → Handled
decide t jiffies policy now again info cpu_load =
    follow_ramp t jiffies policy again
      (record info { cur_cpu_load = cpu_load; old_freq = policy.cur })
      (choose_ramp t policy info.ideal_speed cpu_load (sub64 now.idle info.time_in_idle)
        (sub64 now.wall info.freq_change_time))

abbrev pub with_load : (ℕ → Handled) → Option ℕ → Option Handled
with_load k none = none
with_load k (some cpu_load) = some (k cpu_load)

-- cpufreq_boosted_timer; `none` is a division by 0. The arguments are the tunables, what the kernel
-- is asked for (jiffies, whether the timer is pending, the policy, the clock, and the clock read
-- again by reset_timer) and the state of the CPU.
unfoldable pub cpufreq_boosted_timer :
    Tunables → ℕ → Bool → Policy → Clock → Clock → BoostedInfo → Option Handled
cpufreq_boosted_timer t jiffies pending policy now again info =
    let delta_time = sub64 now.wall info.idle_exit_time in
    if info.idle_exit_time == 0 || now.wall == info.idle_exit_time
    then some ([], info)
    else (if ltb delta_time 1000
        then some (if not pending then reset_timer t jiffies again info else ([], info))
        else with_load (decide t jiffies policy now again info)
            (sample_load (sub64 now.idle info.time_in_idle) delta_time))

-- The idle hook. The timer is looked at before and after the old idle function runs.
unfoldable pub boosted_idle : Tunables → ℕ → Bool → Bool → Policy → Clock → BoostedInfo → Handled
boosted_idle t jiffies pending_before pending_after policy now info =
    if not info.enable
    then (pm_idle_old ∷ [], info)
    else (let before = if policy.cur == policy.min && pending_before then del_timer ∷ [] else [] in
        let (after, info') =
          if not pending_after then reset_timer t jiffies now info else ([], info) in
        (before ++ (pm_idle_old ∷ after), info'))
