-- ===== src/Smartass/Tests.antt =====
-- The smartass governor on concrete states.
use android_device_motorola.Prelude.{
  none, ◌⊎◌, ℕ, ◌+◌, ◌≤◌, ◌<◌, ◌≡◌, ◌≢◌, ◌⊎◌, inl, inr, refl, true, false, [], ◌∷◌, some, arith,
  max,
}
use android_device_motorola.Cpufreq.{
  Policy, Clock, gov_start, gov_stop, cpufreq_idle, other_idle, cpumask_set, queue_up, queue_down,
  percent32,
}
use android_device_motorola.Smartass.State.{Tunables, SmartassInfo}
use android_device_motorola.Smartass.Speed.{
  smartass_update_min_max, smartass_update_min_max-Obeys, Obeys, validate_freq,
}
use android_device_motorola.Smartass.Timer.{Handled, cpufreq_smartass_timer, sample_idle}
use android_device_motorola.Smartass.Load.{Makes, Windows, NoTime, cpufreq_smartass_timer-load}
use android_device_motorola.Smartass.Decide.{cpufreq_smartass_timer-down}
use android_device_motorola.Smartass.Work.{new_freq, Reading, World, change_freqs, choose_freq}
use android_device_motorola.Smartass.WorkLaws.{Fits, new_freq-down}
use android_device_motorola.Smartass.WorkLoop.{AllWithin, change_freqs-Asks, cpus, updated}
use android_device_motorola.Smartass.Governor.{Global, cpufreq_governor_smartass, suspend_cpus}
use android_device_motorola.Smartass.GovernorLaws.{
  AsksMax, governor-start, governor-stop_second, suspend_cpus_others,
}
use android_device_motorola.Smartass.Stores.{max_cpu_load, store, show, show-store, accepts}

abbrev tunables : Tunables
tunables = record {
  down_rate_us = 99000;
  up_min_freq = 1200000;
  sleep_max_freq = 250000;
  sleep_wakeup_freq = 1200000;
  awake_min_freq = 0;
  sample_rate_jiffies = 2;
  ramp_up_step = 250000;
  max_ramp_down = 100000;
  max_cpu_load = 80;
  min_cpu_load = 20;
}

-- A CPU at 500 MHz between 125 and 800 MHz.
abbrev policy : Policy
policy = record { cpu = 0; min = 125000; max = 800000; cur = 500000 }

abbrev info : SmartassInfo
info = record {
  time_in_idle = 1000;
  idle_exit_time = 900000;
  freq_change_time = 700000;
  freq_change_time_in_idle = 500;
  cur_cpu_load = 10;
  force_ramp_up = 0;
  enable = 1;
  max_speed = 800000;
  min_speed = 125000;
}

-- 20 ms later, all of them busy; and with 19 ms idle.
abbrev busy : Clock
busy = record { idle = 1000; wall = 920000 }

abbrev lazy : Clock
lazy = record { idle = 180000; wall = 920000 }

smartass_update_min_max-Obeys_example :
    Obeys policy (record info { max_speed = 250000 })
    × ((◌≡◌ {A = ℕ} 1 0) ⊎ (250000 ≤ max 250000 125000))
    × ((0 < 1) ⊎ (0 ≤ 125000) ⊎ (◌≡◌ {A = ℕ} 125000 policy.max))
unfolding smartass_update_min_max
smartass_update_min_max-Obeys_example =
    smartass_update_min_max-Obeys tunables info policy 1 (omega arith)

timer_busy :
    cpufreq_smartass_timer tunables 7 2 false policy busy busy info
    ≡ some (cpumask_set ∷ queue_up ∷ [], record info { cur_cpu_load = 100; force_ramp_up = 1 })
unfolding cpufreq_smartass_timer percent32
timer_busy = refl

busy-Windows : Windows busy info
busy-Windows = omega arith

cpufreq_smartass_timer-load_example :
    let timer = cpufreq_smartass_timer tunables 7 2 false policy busy busy info in
    (NoTime busy info × (timer ≡ none))
    ⊎ (¬ NoTime busy info × ((r : Handled) × (timer ≡ some r) × (r.1.cur_cpu_load ≤ 100)))
cpufreq_smartass_timer-load_example =
    cpufreq_smartass_timer-load tunables 7 2 false policy busy busy info busy-Windows (omega arith)

timer_lazy :
    cpufreq_smartass_timer tunables 7 2 true policy lazy lazy info
    ≡ some (cpumask_set ∷ queue_down ∷ [], record info { cur_cpu_load = 18 })
unfolding cpufreq_smartass_timer percent32
timer_lazy = refl

cpufreq_smartass_timer-down_example :
    (policy.cur ≢ policy.min)
    × (1000 ≤ 20000)
    × (99000 ≤ 220000)
    × (18 ≤ 80)
    × (sample_idle lazy info ≢ 0)
    × ¬ Makes queue_up (cpumask_set ∷ queue_down ∷ [])
cpufreq_smartass_timer-down_example =
    cpufreq_smartass_timer-down tunables 7 2 true policy lazy lazy info
      (cpumask_set ∷ queue_down ∷ [], record info { cur_cpu_load = 18 }) timer_lazy (inr (inl refl))

info-Fits : Fits tunables info policy
info-Fits = omega arith

-- 500 MHz at a load of 10 %: 150 MHz would do, but 100 MHz is the most that it is lowered by.
lowered : new_freq tunables info policy 1 ≡ 400000
unfolding new_freq choose_freq validate_freq
lowered = refl

new_freq-down_example :
    (new_freq tunables info policy 1 ≤ 500000)
    × ((tunables.max_ramp_down ≡ 0) ⊎ (500000 ≤ new_freq tunables info policy 1 + 100000))
new_freq-down_example =
    new_freq-down tunables info policy 1 info-Fits (inl refl) (omega arith) (omega arith)

abbrev reading : ℕ → Reading
reading cpu = record { policy = policy; nr_running = 1; now = lazy }

abbrev world : World
world = record { infos = λ cpu. info; work_cpumask = λ cpu. true; calls = [] }

change_freqs-Asks_example :
    let w : World = record {
      infos = updated tunables reading 1 world.infos;
      work_cpumask = world.work_cpumask;
      calls = [];
    } in
    let asked = (change_freqs tunables reading (0 ∷ 1 ∷ []) w).calls in
    AllWithin reading asked × (cpus asked ≡ 0 ∷ 1 ∷ [])
change_freqs-Asks_example =
    change_freqs-Asks tunables reading 1 world.infos world.work_cpumask (0 ∷ 1 ∷ [])
      (omega arith, (omega arith, tt))

abbrev global : Global
global = record {
  tunables = tunables;
  suspended = 0;
  active_count = 2;
  pm_idle = cpufreq_idle;
  pm_idle_old = other_idle 3;
  sysfs_group = true;
}

governor-start_example :
    let o = cpufreq_governor_smartass gov_start true 0 policy 500000 global info in
    ((o.ret ≡ 0) × Obeys policy o.info × AsksMax 500000 o × (o.info.enable ≡ 1))
    ⊎ ((o.ret ≢ 0) × (o.calls ≡ []) × (o.info ≡ info))
governor-start_example = governor-start true 0 policy 500000 global info (omega arith)

governor-stop_second_example :
    let o = cpufreq_governor_smartass gov_stop true 0 policy 500000 global info in
    (o.global.active_count ≡ 1) × (o.global.pm_idle ≡ other_idle 3) × (o.global.sysfs_group ≡ false)
governor-stop_second_example = governor-stop_second policy 500000 0 true global info refl

suspend_cpus_others_example :
    (suspend_cpus 1 0 (λ i. policy) tunables (0 ∷ 1 ∷ []) (λ k. info)).1 1 ≡ info
suspend_cpus_others_example =
    suspend_cpus_others 1 0 (λ i. policy) tunables (0 ∷ 1 ∷ []) (λ k. info) 1 (omega arith)

show-store_example : show max_cpu_load (store max_cpu_load (some 90) tunables) ≡ 90
unfolding accepts
show-store_example = show-store max_cpu_load max_cpu_load (some 90) tunables
