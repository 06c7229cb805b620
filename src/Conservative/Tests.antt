-- ===== src/Conservative/Tests.antt =====
-- The conservative governor on concrete states.
use android_device_motorola.Prelude.{
  if◌then◌else◌, ◌-◌, ◌==◌, ◌≢◌, ℕ, ◌+◌, ◌*◌, ◌/◌, ◌%◌, ◌≤◌, ◌<◌, ◌≡◌, ◌⊎◌, refl, true, [], ◌∷◌,
  some, arith, max, min,
}
use android_device_motorola.Cpufreq.{Policy, gov_stop, driver_target, relation_h}
use android_device_motorola.Conservative.State.{Tuners, DbsInfo, CpuStat, Sample}
use android_device_motorola.Conservative.Check.{step_target, lowered, scale, dbs_check_cpu}
use android_device_motorola.Conservative.CheckLaws.{
  Sane, AsksRequested, scale_direction, lowered_wraps, rise, rise_reaches_max, dbs_check_cpu-Within,
}
use android_device_motorola.Conservative.Tuners.{InRange, store, store-InRange, down_threshold}
use android_device_motorola.Conservative.Governor.{
  Global, queued_in, Outcome, Given, cpufreq_governor_dbs, do_dbs_timer, on_stop,
}
use android_device_motorola.Conservative.GovernorLaws.{
  Counts, cpufreq_governor_dbs-Counts, do_dbs_timer_lem,
}

abbrev tuners : Tuners
tuners = record {
  sampling_rate = 200000;
  sampling_down_factor = 1;
  up_threshold = 80;
  down_threshold = 20;
  ignore_nice = 0;
  freq_step = 5;
}

abbrev policy : Policy
policy = record { cpu = 0; min = 125000; max = 800000; cur = 500000 }

abbrev info : DbsInfo
info = record {
  prev_cpu_idle = 100;
  prev_cpu_wall = 1000;
  prev_cpu_nice = 0;
  down_skip = 0;
  requested_freq = 500000;
  enable = 1;
}

abbrev stat : CpuStat
stat = record { user = 0; nice = 0; system = 0; irq = 0; softirq = 0; steal = 0 }

-- 200 ms later, all of them busy.
abbrev busy : Sample
busy = record { idle_us = 100; wall_us = 201000; jiffies_64 = 20; stat = stat }

abbrev usecs : ℕ → ℕ
usecs j = j * 10000

tuners-Sane : Sane tuners policy
tuners-Sane = omega arith

-- Five per cent of 800 MHz up.
step_up :
    (dbs_check_cpu usecs tuners policy (λ j. busy) (0 ∷ []) 0 (λ j. info)).0
    ≡ driver_target 540000 relation_h ∷ []
unfolding dbs_check_cpu step_target
step_up = refl

small_step : step_target tuners policy ≤ 500000
unfolding step_target
small_step = omega arith

dbs_check_cpu-Within_example :
    let (calls, infos') = dbs_check_cpu usecs tuners policy (λ j. busy) (0 ∷ []) 0 (λ j. info) in
    AsksRequested policy (calls, infos' 0) × ((infos' 1).requested_freq ≡ 500000)
dbs_check_cpu-Within_example =
    dbs_check_cpu-Within usecs tuners policy (λ j. busy) (0 ∷ []) 0 1 (λ j. info) tuners-Sane
      (omega arith) small_step (omega arith)

scale_direction_example :
    let f = (scale tuners policy 5 info).1.requested_freq in
    let step = step_target tuners policy in
    ((tuners.freq_step ≡ 0) × (f ≡ 500000))
    ⊎ ((tuners.freq_step ≢ 0)
        × (((tuners.up_threshold < 5)
              × (f ≡ min policy.max (500000 + (if step == 0 then 5 else step))))
            ⊎ ((5 ≤ tuners.up_threshold)
                × (5 + 10 < tuners.down_threshold)
                × (f ≡ max policy.min (500000 - step)))
            ⊎ ((5 ≤ tuners.up_threshold) × (tuners.down_threshold ≤ 5 + 10) × (f ≡ 500000))))
scale_direction_example =
    scale_direction tuners policy 5 info tuners-Sane (omega arith) small_step (omega arith)
      (omega arith)

-- With a step of 80 % the way down from 500 MHz wraps around.
lowered_wraps_example : policy.max < lowered (record tuners { freq_step = 80 }) policy 500000
unfolding step_target
lowered_wraps_example = lowered_wraps wide policy 500000 (omega arith) (omega arith) too_far
  where
    wide : Tuners
    wide = record tuners { freq_step = 80 }

    too_far : 500000 < step_target wide policy
    too_far = omega arith

rise_reaches_max_example :
    (rise tuners policy (90 ∷ 90 ∷ 90 ∷ 90 ∷ 90 ∷ 90 ∷ 90 ∷ 90 ∷ []) info).requested_freq ≡ 800000
rise_reaches_max_example =
    rise_reaches_max tuners policy (90 ∷ 90 ∷ 90 ∷ 90 ∷ 90 ∷ 90 ∷ 90 ∷ 90 ∷ []) info tuners-Sane
      (omega arith) (omega arith) (omega arith) far_enough
  where
    far_enough : 800000 ≤ 500000 + 8 * max 1 (step_target tuners policy)
    far_enough = unfold step_target in omega arith

tuners-InRange : InRange 20000 tuners
tuners-InRange = omega arith

store-InRange_example : InRange 20000 (record tuners { down_threshold = 30 })
unfolding store
store-InRange_example =
    store-InRange 20000 down_threshold (some 30) tuners (record tuners { down_threshold = 30 })
      tuners-InRange refl

abbrev global : Global
global = record {
  tuners = tuners;
  min_sampling_rate = 20000;
  dbs_enable = 1;
  notifier = true;
  sysfs_group = true;
}

global-Counts : Counts global
global-Counts = ground arith

abbrev given : Given
given = record {
  online = true;
  rc = 0;
  jiffies = 1234;
  transition_latency = 300000;
  cpus = 0 ∷ [];
  read = λ j. busy;
}

cpufreq_governor_dbs-Counts_example : Counts (on_stop policy global (λ j. info)).global
unfolding cpufreq_governor_dbs
cpufreq_governor_dbs-Counts_example =
    cpufreq_governor_dbs-Counts usecs (λ u. u / 10000) gov_stop given policy 500000 global
      (λ j. info) (on_stop policy global (λ j. info)) global-Counts (omega arith) (λ e. omega arith)
      refl

do_dbs_timer_lem_example :
    (o : Outcome) × (d : ℕ) × (do_dbs_timer usecs (λ u. u / 10000) given policy global (λ j. info)
      ≡ some o)
    × (o.work ≡ queued_in d)
    × (0 < d)
    × (d ≤ 20)
    × ((1234 + d) % 20 ≡ 0)
    × AsksRequested policy (o.calls, o.infos 0)
do_dbs_timer_lem_example =
    do_dbs_timer_lem usecs (λ u. u / 10000) given policy global (λ j. info) tuners-Sane
      (omega arith) small_step (omega arith)
