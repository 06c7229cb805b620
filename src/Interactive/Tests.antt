-- ===== src/Interactive/Tests.antt =====
-- The interactive governor on one CPU.
use android_device_motorola.Prelude.{ℕ, ◌≤◌, ◌≡◌, ◌≢◌, false, some, [], ◌∷◌, ◌==◌, refl, arith}
use android_device_motorola.Cpufreq.{Policy, Clock}
use android_device_motorola.Interactive.{
  Shared, CpuTimes, cpufreq_interactive_timer, cpufreq_interactive_calc_freq, Reading, World,
  freq_change_time_work,
}
use android_device_motorola.Interactive.Scaling.{
  Sane, cpufreq_interactive_calc_freq-le, queued_for, freq_change_time_work-stops, timer-work,
  Follows,
}

abbrev policy : Policy
policy = record { cpu = 0; min = 300000; max = 1000000; cur = 600000 }

abbrev shared : Shared
shared = record {
  target_freq = 600000;
  freq_change_time = 1000;
  freq_change_time_in_idle = 500;
  min_sample_time = 50000;
}

-- Of 100000 microseconds since the last change 40000 were idle.
abbrev now : Clock
now = record { idle = 40500; wall = 101000 }

abbrev times : CpuTimes
times = record { time_in_idle = 40000; idle_exit_time = 90000 }

abbrev reading : Reading
reading = record { policy = policy; nr_running = 3; now = now; after = now }

sane : Sane shared now
sane = record { passed = omega arith; short = omega arith; idle_within = omega arith }

cpufreq_interactive_calc_freq-le_example :
    (cpufreq_interactive_calc_freq policy now shared ≡ some 360000) × (◌≤◌ 360000 600000)
cpufreq_interactive_calc_freq-le_example =
    cpufreq_interactive_calc_freq-le policy now shared sane (omega arith)

timer-work_example :
    Follows reading 0 3 now times shared
      (cpufreq_interactive_timer policy 3 false 50 now now times shared)
timer-work_example =
    timer-work reading 0 3 false 50 now now times shared (omega arith) (omega arith) sane
      (omega arith)

abbrev lonely : Reading
lonely = record reading { nr_running = 1 }

freq_change_time_work-stops_example :
    (w' : World) × (freq_change_time_work
        (λ c. lonely)
        (0 ∷ (1 ∷ []))
        (queued_for 0 (record shared { target_freq = 1000000 }))
      ≡ some w')
    × (w'.calls ≡ [])
    × (w'.shared ≡ record shared { target_freq = 1000000 })
    × ((k : ℕ) → k ≢ 0 → w'.work_cpumask k ≡ (k == 0))
freq_change_time_work-stops_example =
    freq_change_time_work-stops (λ c. lonely) 0 (1 ∷ [])
      (queued_for 0 (record shared { target_freq = 1000000 })) refl refl
