-- ===== src/Boosted/Stores.antt =====
-- The sysfs attributes of the boosted governor: the store_ and show_ functions of its tunables.
use android_device_motorola.Prelude.{
  ℕ, Bool, true, false, not, ◌&&◌, Option, none, some, List, [], ◌∷◌, leb, ltb, put, if◌then◌else◌,
}
use android_device_motorola.Cpufreq.{Policy}
use android_device_motorola.Boosted.State.{Tunables, BoostedInfo}
use android_device_motorola.Boosted.Speed.{boosted_update_min_max}
use android_device_motorola.Boosted.Governor.{Global}

pub data Attr : Type 0 where
  debug_mask up_rate_us down_rate_us sleep_ideal_freq sleep_wakeup_freq awake_ideal_freq : Attr
  sample_rate_jiffies ramp_up_step ramp_down_step max_cpu_load min_cpu_load : Attr

-- The condition of each store function on the number that was read.
unfoldable pub accepts : Attr → ℕ → Bool
accepts up_rate_us n = leb n 100000000
accepts down_rate_us n = leb n 100000000
accepts sample_rate_jiffies n = ltb 0 n && leb n 1000
accepts max_cpu_load n = ltb 0 n && leb n 100
accepts min_cpu_load n = ltb 0 n && ltb n 100
accepts _ n = true

unfoldable pub assign : Attr → ℕ → Tunables → Tunables
assign debug_mask n t = record t { debug_mask = n }
assign up_rate_us n t = record t { up_rate_us = n }
assign down_rate_us n t = record t { down_rate_us = n }
assign sleep_ideal_freq n t = record t { sleep_ideal_freq = n }
assign sleep_wakeup_freq n t = record t { sleep_wakeup_freq = n }
assign awake_ideal_freq n t = record t { awake_ideal_freq = n }
assign sample_rate_jiffies n t = record t { sample_rate_jiffies = n }
assign ramp_up_step n t = record t { ramp_up_step = n }
assign ramp_down_step n t = record t { ramp_down_step = n }
assign max_cpu_load n t = record t { max_cpu_load = n }
assign min_cpu_load n t = record t { min_cpu_load = n }

-- boosted_update_min_max_allcpus over the CPUs that are online; `policy` is the policy of each.
unfoldable pub boosted_update_min_max_allcpus :
    Tunables → Bool → (ℕ → Policy) → List ℕ → (ℕ → BoostedInfo) → ℕ → BoostedInfo
boosted_update_min_max_allcpus t suspended policy [] infos = infos
boosted_update_min_max_allcpus t suspended policy (i ∷ cpus) infos =
    boosted_update_min_max_allcpus t suspended policy cpus (
      if (infos i).enable
      then put infos i (boosted_update_min_max t (policy i) suspended (infos i))
      else infos)

-- Whether a store function updates the ideal speeds.
abbrev pub updates_speeds : Attr → Bool → Bool
updates_speeds sleep_ideal_freq suspended = suspended
updates_speeds awake_ideal_freq suspended = not suspended
updates_speeds _ suspended = false

-- A store function. The kernel's `strict_strtoul` gives the number, or `none` for its error; the
-- function returns `count` in both cases.
unfoldable pub store :
    Attr
    → Option ℕ
    → (ℕ → Policy)
    → List ℕ
    → Global
    → (ℕ → BoostedInfo)
    → Global × (ℕ → BoostedInfo)
store a none policy cpus g infos = (g, infos)
store a (some n) policy cpus g infos =
    if accepts a n
    then (let t = assign a n g.tunables in
        (
          record g { tunables = t },
          if updates_speeds a g.suspended
              then boosted_update_min_max_allcpus t g.suspended policy cpus infos
              else infos,
        ))
    else (g, infos)

-- What a show function prints.
unfoldable pub show : Attr → Tunables → ℕ
show debug_mask t = t.debug_mask
show up_rate_us t = t.up_rate_us
show down_rate_us t = t.down_rate_us
show sleep_ideal_freq t = t.sleep_ideal_freq
show sleep_wakeup_freq t = t.sleep_wakeup_freq
show awake_ideal_freq t = t.awake_ideal_freq
show sample_rate_jiffies t = t.sample_rate_jiffies
show ramp_up_step t = t.ramp_up_step
show ramp_down_step t = t.ramp_down_step
show max_cpu_load t = t.max_cpu_load
show min_cpu_load t = t.min_cpu_load
