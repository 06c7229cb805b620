-- ===== src/Smartass/Decide.antt =====
-- When the timer of the smartass governor asks for a change of frequency.
use android_device_motorola.Prelude.{
  ℕ, ◌+◌, ◌≤◌, ◌≡◌, ◌≢◌, ◌⊎◌, inl, inr, Bool, true, ◌||◌, some, List, [], ◌∷◌, ltb, ◌==◌, sub64,
  u32, arith, Bool-cases, Option-cases,
}
use android_device_motorola.Cpufreq.{
  Policy, Clock, Call, mod_timer, queue_up, queue_down, pm_idle_old,
}
use android_device_motorola.Smartass.State.{Tunables, SmartassInfo}
use android_device_motorola.Smartass.Timer.{
  Handled, load_over, load_since_change, sample_idle, sample_time, decide, greater_load,
  cpufreq_smartass_timer, cpufreq_idle_step,
}
use android_device_motorola.Smartass.Load.{Makes}

decide-down :
    (t : Tunables) (jiffies nr : ℕ) (pending : Bool) (policy : Policy) (now again : Clock)
    (load : ℕ) (info : SmartassInfo)
    → Makes queue_down (decide t jiffies nr pending policy now again load info).0
    → let (calls, info') = decide t jiffies nr pending policy now again load info in
      (policy.cur ≢ policy.min)
      × (t.down_rate_us ≤ sub64 now.wall info.freq_change_time)
      × (info'.cur_cpu_load ≤ t.max_cpu_load)
      × (sample_idle now info ≢ 0)
      × ¬ Makes queue_up calls
unfolding decide
decide-down t jiffies nr pending policy now again load info h = ground arith

-- How the timer ends: without a request for another frequency, or by the decision on a load that
-- was measured over at least 1 ms.
timer_cases :
    (t : Tunables) (jiffies nr : ℕ) (pending : Bool) (policy : Policy) (now again : Clock)
    (info : SmartassInfo) (r : Handled)
    → cpufreq_smartass_timer t jiffies nr pending policy now again info ≡ some r
    → (¬ Makes queue_down r.0)
      ⊎ ((load : ℕ) × (decide t jiffies nr pending policy now again load info ≡ r)
          × (1000 ≤ sample_time now info))
unfolding cpufreq_smartass_timer
timer_cases t jiffies nr pending policy now again info r h =
    elim (Bool-cases (info.idle_exit_time == 0 || now.wall == info.idle_exit_time)) [
      | inl e ↦ inl (ground arith)
      | inr e ↦ elim (Option-cases (load_since_change now info)) [
        | inl n ↦ absurd (ground arith)
        | inr (long, el) ↦ elim (Bool-cases (ltb (sample_time now info) 1000)) [
          | inl f ↦ inl (ground arith)
          | inr f ↦ elim (Option-cases (load_over (sample_idle now info) (sample_time now info))) [
            | inl n ↦ absurd (ground arith)
            | inr (short, es) ↦ inr (greater_load long short, ground arith, ground arith)
          ]
        ]
      ]
    ]

-- A request to scale down is made only above the policy's minimum, after a sample of at least 1 ms
-- with an idle cycle and a load of at most `max_cpu_load`, and when the frequency has stood for at
-- least `down_rate_us`; never together with one to scale up.
pub cpufreq_smartass_timer-down :
    (t : Tunables) (jiffies nr : ℕ) (pending : Bool) (policy : Policy) (now again : Clock)
    (info : SmartassInfo) (r : Handled)
    → cpufreq_smartass_timer t jiffies nr pending policy now again info ≡ some r
    → Makes queue_down r.0
    → (policy.cur ≢ policy.min)
      × (1000 ≤ sample_time now info)
      × (t.down_rate_us ≤ sub64 now.wall info.freq_change_time)
      × (r.1.cur_cpu_load ≤ t.max_cpu_load)
      × (sample_idle now info ≢ 0)
      × ¬ Makes queue_up r.0
cpufreq_smartass_timer-down t jiffies nr pending policy now again info r h m =
    elim (timer_cases t jiffies nr pending policy now again info r h) [
      | inl n ↦ absurd (n m)
      | inr (load, e, s) ↦
          let (a, b, c, d, f) =
            rw e at (decide-down t jiffies nr pending policy now again load info (rw e m)) in
          (a, s, b, c, d, f)
    ]

-- How often a handler runs the old idle function.
abbrev pub times_idle : List Call → ℕ
times_idle [] = 0
times_idle (pm_idle_old ∷ l) = 1 + times_idle l
times_idle (_ ∷ l) = times_idle l

-- The idle hook runs the old idle function exactly once, whatever the governor's state, and when
-- the governor is enabled and the timer is not pending afterwards, it starts a new sample: the
-- timer is armed and the sample's start is the clock as read.
pub cpufreq_idle_step_lem :
    (t : Tunables) (jiffies : ℕ) (before after : Bool) (policy : Policy) (now : Clock)
    (info : SmartassInfo)
    → let (calls, info') = cpufreq_idle_step t jiffies before after policy now info in
      (times_idle calls ≡ 1)
      × ((info.enable ≡ 0)
          ⊎ (after ≡ true)
          ⊎ ((info'.idle_exit_time ≡ now.wall)
              × (info'.time_in_idle ≡ now.idle)
              × Makes (mod_timer (u32 (jiffies + t.sample_rate_jiffies))) calls))
unfolding cpufreq_idle_step
cpufreq_idle_step_lem t jiffies before after policy now info = ground arith
