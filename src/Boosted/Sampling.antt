-- ===== src/Boosted/Sampling.antt =====
-- The timer of the boosted governor and the work that it queues, taken together.
use android_device_motorola.Prelude.{
  ℕ, ◌+◌, ◌^◌, ◌≤◌, ◌<◌, ◌≡◌, ◌≢◌, ◌⊎◌, inl, inr, Bool, true, false, not, ◌&&◌, ◌||◌, Option, some,
  [], ◌∷◌, ltb, leb, ◌==◌, u32, sub64, sltb, refl, arith, if_cases,
}
use android_device_motorola.Cpufreq.{
  Policy, Clock, mod_timer, cpumask_set, queue_up, queue_down, percent32,
}
use android_device_motorola.Boosted.State.{
  Tunables, BoostedInfo, Ramp, ramp_up, ramp_none, ramp_down,
}
use android_device_motorola.Boosted.Timer.{
  Handled, reset_timer, sample_load, choose_ramp, follow_ramp, decide, cpufreq_boosted_timer,
}

-- What a ramp in the state of a CPU says about it.
abbrev pub Justified : Tunables → Policy → ℕ → Ramp → Type 0
Justified t policy cpu_load ramp_up = policy.cur < policy.max
Justified t policy cpu_load ramp_down =
    (policy.min < policy.cur) × (cpu_load < t.min_cpu_load) × (cpu_load ≤ t.max_cpu_load)
Justified t policy cpu_load ramp_none = Unit {0}

choose_ramp-Justified :
    (t : Tunables) (policy : Policy) (ideal cpu_load idle since : ℕ)
    → Justified t policy cpu_load (choose_ramp t policy ideal cpu_load idle since)
unfolding choose_ramp
choose_ramp-Justified t policy ideal cpu_load idle since =
    let J = Justified t policy cpu_load in
    if_cases J (ltb t.max_cpu_load cpu_load || idle == 0)
      (λ e.
        if_cases J
          (ltb policy.cur policy.max
            && (sltb policy.cur ideal || idle == 0 || leb t.up_rate_us since))
          (λ f. ground arith) (λ f. tt))
      (λ e.
        if_cases J
          (ltb cpu_load t.min_cpu_load
            && ltb policy.min policy.cur
            && (sltb ideal policy.cur || leb t.down_rate_us since))
          (λ f. ground arith) (λ f. tt))

-- How the sampling of a CPU goes on after its timer: by the work that is queued, by a new sample,
-- by one that is pending already, or not at all, at the maximum.
abbrev pub Continues : Tunables → ℕ → Bool → Policy → Clock → Handled → Type 0
Continues t jiffies pending policy again (calls, info) =
    ((calls ≡ cpumask_set ∷ queue_up ∷ []) × (info.ramp_dir ≡ ramp_up) × (policy.cur < policy.max))
    ⊎ ((calls ≡ cpumask_set ∷ queue_down ∷ [])
        × (info.ramp_dir ≡ ramp_down)
        × (policy.min < policy.cur))
    ⊎ ((calls ≡ mod_timer (u32 (jiffies + t.sample_rate_jiffies)) ∷ [])
        × (info.time_in_idle ≡ again.idle)
        × (info.idle_exit_time ≡ again.wall))
    ⊎ ((calls ≡ []) × ((pending ≡ true) ⊎ (policy.max ≤ policy.cur)))

module _ (t : Tunables) (jiffies : ℕ) (pending : Bool) (policy : Policy) (now again : Clock) where
  reset-Continues :
      (info : BoostedInfo)
      → Continues t jiffies pending policy again (reset_timer t jiffies again info)
  unfolding reset_timer
  reset-Continues info = inr (inr (inl (refl, refl, refl)))

  follow_ramp-Continues :
      (info : BoostedInfo) (r : Ramp) (cpu_load : ℕ)
      → Justified t policy cpu_load r
      → Continues t jiffies pending policy again (follow_ramp t jiffies policy again info r)
  unfolding follow_ramp
  follow_ramp-Continues info ramp_up cpu_load j = inl (refl, refl, j)
  follow_ramp-Continues info ramp_down cpu_load j = inr (inl (refl, refl, j.0))
  follow_ramp-Continues info ramp_none cpu_load j =
      if_cases (Continues t jiffies pending policy again) (ltb policy.cur policy.max)
        (λ e. reset-Continues (record info { ramp_dir = ramp_none }))
        (λ e. inr (inr (inr (refl, inr (ground arith)))))

  sample_load-some :
      (idle time : ℕ) → 0 < time → time < 2 ^ 32 → (c : ℕ) × (sample_load idle time ≡ some c)
  unfolding sample_load percent32
  sample_load-some idle time p q =
      if_cases (λ (o : Option ℕ). (c : ℕ) × (o ≡ some c)) (ltb time idle) (λ e. (0, refl))
        (λ e. let divides : (u32 time == 0) ≡ false = ground arith in rw divides (_, refl))

  -- With a sample that was started and is less than 2 ^ 32 microseconds long, but not empty, the
  -- timer does not divide by 0, and the sampling goes on: it queues a ramp up below the maximum or
  -- a ramp down above the minimum, which the state shows too, or it starts a new sample, or one is
  -- pending, or the CPU is at its maximum.
  pub cpufreq_boosted_timer-Continues :
      (info : BoostedInfo)
      → info.idle_exit_time ≢ 0
      → now.wall ≢ info.idle_exit_time
      → sub64 now.wall info.idle_exit_time < 2 ^ 32
      → (h : Handled) × (cpufreq_boosted_timer t jiffies pending policy now again info ≡ some h)
        × Continues t jiffies pending policy again h
  unfolding cpufreq_boosted_timer decide
  cpufreq_boosted_timer-Continues info started moved short =
      let time = sub64 now.wall info.idle_exit_time in
      let idle = sub64 now.idle info.time_in_idle in
      let runs : (info.idle_exit_time == 0 || now.wall == info.idle_exit_time) ≡ false =
        ground arith in
      let C = λ (o : Option Handled).
        (h : Handled) × (o ≡ some h) × Continues t jiffies pending policy again h in
      rw runs (
        if_cases C (ltb time 1000)
          (λ e. (
            _,
            refl,
            if_cases (Continues t jiffies pending policy again) (not pending)
                (λ p. reset-Continues info) (λ p. inr (inr (inr (refl, inl (ground arith))))),
          ))
          (λ e.
            let (cpu_load, l) = sample_load-some idle time (ground arith) short in
            rw l (
              _,
              refl,
              follow_ramp-Continues _ _ cpu_load
                  (choose_ramp-Justified t policy info.ideal_speed cpu_load idle _),
            )))

-- A decision of the timer leaves the frequency that it saw, the load that it measured, and a ramp
-- that these justify.
pub decide_lem :
    (t : Tunables) (jiffies : ℕ) (policy : Policy) (now again : Clock) (info : BoostedInfo)
    (cpu_load : ℕ)
    → let after = (decide t jiffies policy now again info cpu_load).1 in
      (after.old_freq ≡ policy.cur)
      × (after.cur_cpu_load ≡ cpu_load)
      × (after.ideal_speed ≡ info.ideal_speed)
      × Justified t policy cpu_load after.ramp_dir
unfolding decide follow_ramp reset_timer
decide_lem t jiffies policy now again old cpu_load =
    let info = record old { cur_cpu_load = cpu_load; old_freq = policy.cur } in
    let idle = sub64 now.idle old.time_in_idle in
    let since = sub64 now.wall old.freq_change_time in
    follow (choose_ramp t policy old.ideal_speed cpu_load idle since) info refl refl refl
      (choose_ramp-Justified t policy old.ideal_speed cpu_load idle since)
  where
    follow :
        (r : Ramp) (i : BoostedInfo)
        → i.old_freq ≡ policy.cur
        → i.cur_cpu_load ≡ cpu_load
        → i.ideal_speed ≡ old.ideal_speed
        → Justified t policy cpu_load r
        → let after = (follow_ramp t jiffies policy again i r).1 in
          (after.old_freq ≡ policy.cur)
          × (after.cur_cpu_load ≡ cpu_load)
          × (after.ideal_speed ≡ old.ideal_speed)
          × Justified t policy cpu_load after.ramp_dir
    follow ramp_up i a b c j = (a, b, c, j)
    follow ramp_down i a b c j = (a, b, c, j)
    follow ramp_none i a b c j =
        if_cases
          (λ (h : Handled).
            (h.1.old_freq ≡ policy.cur)
            × (h.1.cur_cpu_load ≡ cpu_load)
            × (h.1.ideal_speed ≡ old.ideal_speed)
            × Justified t policy cpu_load h.1.ramp_dir)
          (ltb policy.cur policy.max) (λ _. (a, b, c, tt)) (λ _. (a, b, c, tt))
