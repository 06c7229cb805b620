-- ===== src/Interactive/Scaling.antt =====
-- What the timer and the work of the interactive governor do together.
use android_device_motorola.Prelude.{
  ℕ, ◌+◌, ◌-◌, ◌*◌, ◌/◌, ◌^◌, ◌≤◌, ◌<◌, ◌≡◌, ◌≢◌, ◌⊎◌, inl, inr, Bool, true, false, not, ◌&&◌, some,
  List, [], ◌∷◌, ◌++◌, ltb, ◌==◌, put, u32, sub32, sub64, refl, arith, if_cases,
}
use android_device_motorola.Cpufreq.{
  Policy, Clock, Call, driver_target, mod_timer, cpumask_set, queue_up, queue_down, relation_l,
  relation_h,
}
use android_device_motorola.Interactive.{
  Shared, CpuTimes, Handled, sampled, scale_down, cpufreq_interactive_timer,
  cpufreq_interactive_calc_freq, Reading, World, changed, round, freq_change_time_work,
}

-- The clocks of a load: time has passed since the last change, less than 42.9 s, and no more of it
-- was idle than passed.
pub record Sane (g : Shared) (now : Clock) : Type 0 where
  pub passed : 0 < sub64 now.wall g.freq_change_time
  pub short : 100 * sub64 now.wall g.freq_change_time < 2 ^ 32
  pub idle_within : sub64 now.idle g.freq_change_time_in_idle ≤ sub64 now.wall g.freq_change_time

load-le : (busy time : ℕ) → 0 < time → busy ≤ time → 100 * busy / time ≤ 100
load-le busy time p h = grind arith

scaled-le : (cur load : ℕ) → load ≤ 100 → cur * load / 100 ≤ cur
scaled-le cur load h = grind arith

product-le : (cur load : ℕ) → load ≤ 100 → cur * load ≤ cur * 100
product-le cur load h = grind arith

-- With sane clocks, and a frequency below 42.9 GHz, the frequency for the load is the share of the
-- current one that was busy, in whole percent, and so at most the current one.
pub cpufreq_interactive_calc_freq-le :
    (policy : Policy) (now : Clock) (g : Shared)
    → Sane g now
    → policy.cur * 100 < 2 ^ 32
    → let time = sub64 now.wall g.freq_change_time in
      let busy = time - sub64 now.idle g.freq_change_time_in_idle in
      (cpufreq_interactive_calc_freq policy now g ≡ some (policy.cur * (100 * busy / time) / 100))
      × (policy.cur * (100 * busy / time) / 100 ≤ policy.cur)
unfolding cpufreq_interactive_calc_freq
cpufreq_interactive_calc_freq-le policy now g s small =
    let time = sub64 now.wall g.freq_change_time in
    let idle = sub64 now.idle g.freq_change_time_in_idle in
    let busy = time - idle in
    let t32 : u32 time ≡ time = omega (arith, s.short) in
    let b32 : u32 (100 * sub32 (u32 time) (u32 idle)) ≡ 100 * busy =
      omega (arith, s.short, s.idle_within) in
    let le = load-le busy time s.passed (omega arith) in
    let c32 : u32 (policy.cur * (100 * busy / time)) ≡ policy.cur * (100 * busy / time) =
      omega (arith, product-le policy.cur (100 * busy / time) le) in
    let divides : (u32 time == 0) ≡ false = ground (arith, s.passed, s.short) in
    (rw (divides, b32, t32, c32) refl, scaled-le policy.cur (100 * busy / time) le)

-- Where the work finds a single running task and the maximum as the target, it returns: nothing is
-- asked of the driver, the target stays, and the CPUs behind the first one stay marked if they
-- were.
pub freq_change_time_work-stops :
    (read : ℕ → Reading) (cpu : ℕ) (cpus : List ℕ) (w : World)
    → w.shared.target_freq ≡ (read cpu).policy.max
    → (read cpu).nr_running ≡ 1
    → (w' : World) × (freq_change_time_work read (cpu ∷ cpus) w ≡ some w')
      × (w'.calls ≡ w.calls)
      × (w'.shared ≡ w.shared)
      × ((k : ℕ) → k ≢ cpu → w'.work_cpumask k ≡ w.work_cpumask k)
unfolding freq_change_time_work round
freq_change_time_work-stops read cpu cpus w e one =
    let at_max : (w.shared.target_freq == (read cpu).policy.max) ≡ true = ground arith in
    let single : ((read cpu).nr_running == 1) ≡ true = ground arith in
    (
      record w { work_cpumask = put w.work_cpumask cpu false },
      rw (at_max, single) refl,
      refl,
      refl,
      λ k d. ground arith,
    )

-- Why the timer leaves the target: no sample has ended; no cycle was idle, but the CPU is at its
-- maximum or has nothing to run; or some were, and it is at its minimum or was not long enough at
-- its frequency.
abbrev pub Rests : Policy → ℕ → Clock → CpuTimes → Shared → Type 0
Rests policy nr_running now times g =
    (now.wall ≡ times.idle_exit_time)
    ⊎ ((sub64 now.idle times.time_in_idle ≡ 0) × ((policy.cur ≡ policy.max) ⊎ (nr_running ≡ 0)))
    ⊎ ((sub64 now.idle times.time_in_idle ≢ 0)
        × ((policy.cur ≡ policy.min) ⊎ (sub64 now.wall g.freq_change_time < g.min_sample_time)))

-- What the timer decides: nothing, a ramp up without an idle cycle, or a ramp down after enough
-- time at the frequency.
pub data Scales (policy : Policy) (nr_running : ℕ) (now : Clock) (times : CpuTimes) (g : Shared)
    : Handled → Type 0 where
  same :
      {calls : List Call} {after : CpuTimes}
      → Rests policy nr_running now times g
      → Scales policy nr_running now times g (calls, after, g)
  up :
      {after : CpuTimes}
      → policy.cur ≢ policy.max
      → sub64 now.idle times.time_in_idle ≡ 0
      → Scales policy nr_running now times g
          (cpumask_set ∷ queue_up ∷ [], after, record g { target_freq = policy.max })
  down :
      (calls : List Call) {after : CpuTimes}
      → policy.cur ≢ policy.min
      → sub64 now.idle times.time_in_idle ≢ 0
      → g.min_sample_time ≤ sub64 now.wall g.freq_change_time
      → Scales policy nr_running now times g
          (calls ++ (cpumask_set ∷ queue_down ∷ []), after, record g { target_freq = policy.min })

scale_down-Scales :
    (policy : Policy) (nr_running : ℕ) (now : Clock) (calls : List Call) (times after : CpuTimes)
    (g : Shared)
    → sub64 now.idle times.time_in_idle ≢ 0
    → Scales policy nr_running now times g (scale_down policy now calls after g)
unfolding scale_down
scale_down-Scales policy nr_running now calls times after g d =
    let S = Scales policy nr_running now times g in
    if_cases S (policy.cur == policy.min) (λ e. same (inr (inr (d, inl (ground arith)))))
      (λ e.
        if_cases S (ltb (sub64 now.wall g.freq_change_time) g.min_sample_time)
          (λ f. same (inr (inr (d, inr (ground arith)))))
          (λ f. down calls (ground arith) d (ground arith)))

cpufreq_interactive_timer-Scales :
    (policy : Policy) (nr_running : ℕ) (pending : Bool) (jiffies : ℕ) (now again : Clock)
    (times : CpuTimes) (g : Shared)
    → Scales policy nr_running now times g
        (cpufreq_interactive_timer policy nr_running pending jiffies now again times g)
unfolding cpufreq_interactive_timer
cpufreq_interactive_timer-Scales policy nr_running pending jiffies now again times g =
    let S = Scales policy nr_running now times g in
    if_cases S (now.wall == times.idle_exit_time) (λ w. same (inl (ground arith)))
      (λ _.
        if_cases S (sub64 now.idle times.time_in_idle == 0)
          (λ i.
            if_cases S (policy.cur == policy.max)
              (λ m. same (inr (inl (ground arith, inl (ground arith)))))
              (λ m.
                if_cases S (ltb nr_running 1)
                  (λ n. same (inr (inl (ground arith, inr (ground arith)))))
                  (λ _. up (ground arith) (ground arith))))
          (λ i.
            if_cases S (not pending && ltb 0 nr_running)
              (λ _.
                scale_down-Scales policy nr_running now (mod_timer (u32 (jiffies + 2)) ∷ []) times
                  (sampled again) g (ground arith))
              (λ _. scale_down-Scales policy nr_running now [] times times g (ground arith))))

-- The work is queued for one CPU.
abbrev pub queued_for : ℕ → Shared → World
queued_for cpu g = record { shared = g; work_cpumask = λ c. c == cpu; calls = [] }

-- It ends with one call.
abbrev pub Calls : Reading → ℕ → Shared → Call → Type 0
Calls r cpu g call =
    (w' : World) × (freq_change_time_work (λ c. r) (cpu ∷ []) (queued_for cpu g) ≡ some w')
    × (w'.calls ≡ call ∷ [])
    × (w'.work_cpumask cpu ≡ false)

-- What the timer and the work after it do: nothing, for a reason; a ramp to the maximum; or one to
-- at most the current frequency.
abbrev pub Follows : Reading → ℕ → ℕ → Clock → CpuTimes → Shared → Handled → Type 0
Follows r cpu nr_running now times g (calls, after, g') =
    ((g' ≡ g) × Rests r.policy nr_running now times g)
    ⊎ ((r.policy.cur ≢ r.policy.max)
        × (sub64 now.idle times.time_in_idle ≡ 0)
        × (calls ≡ cpumask_set ∷ queue_up ∷ [])
        × Calls r cpu g' (driver_target r.policy.max relation_h))
    ⊎ ((r.policy.cur ≢ r.policy.min)
        × (sub64 now.idle times.time_in_idle ≢ 0)
        × (g.min_sample_time ≤ sub64 now.wall g.freq_change_time)
        × ((cs : List Call) × (calls ≡ cs ++ (cpumask_set ∷ queue_down ∷ [])))
        × ((f : ℕ) × (f ≤ r.policy.cur) × Calls r cpu g' (driver_target f relation_l)))

work-up :
    (r : Reading) (cpu : ℕ) (g : Shared)
    → r.nr_running ≢ 1
    → Calls r cpu (record g { target_freq = r.policy.max }) (driver_target r.policy.max relation_h)
unfolding freq_change_time_work round
work-up r cpu g many =
    let at_max : (r.policy.max == r.policy.max) ≡ true = ground arith in
    let several : (r.nr_running == 1) ≡ false = ground arith in
    let g' : Shared = record g { target_freq = r.policy.max } in
    let asks = driver_target r.policy.max relation_h in
    (
      changed r cpu r.policy.max asks (queued_for cpu g'),
      rw (at_max, several) refl,
      refl,
      ground arith,
    )

work-down :
    (r : Reading) (cpu f : ℕ) (g : Shared)
    → r.policy.min < r.policy.max
    → cpufreq_interactive_calc_freq r.policy r.now (record g { target_freq = r.policy.min })
      ≡ some f
    → Calls r cpu (record g { target_freq = r.policy.min }) (driver_target f relation_l)
unfolding freq_change_time_work round
work-down r cpu f g lt e =
    let below : (r.policy.min == r.policy.max) ≡ false = ground arith in
    let g' : Shared = record g { target_freq = r.policy.min } in
    (
      changed r cpu f (driver_target f relation_l) (queued_for cpu g'),
      rw (below, e) refl,
      refl,
      ground arith,
    )

-- The timer on a CPU and the work that follows it, while the policy stays with its limits apart,
-- the clocks of the load are sane, the current frequency is below 42.9 GHz and, when the work runs,
-- not just one task does. Either the timer leaves the target, because no sample has ended, or it
-- can go no further in that direction, has nothing to run or was not long enough at its frequency;
-- or it saw no idle cycle below the maximum and queues the work, which asks for the maximum; or it
-- saw one above the minimum after `min_sample_time` and queues the work, which asks for a frequency
-- that is at most the current one.
pub timer-work :
    (r : Reading) (cpu nr_running : ℕ) (pending : Bool) (jiffies : ℕ) (now again : Clock)
    (times : CpuTimes) (g : Shared)
    → r.policy.min < r.policy.max
    → r.policy.cur * 100 < 2 ^ 32
    → Sane g r.now
    → r.nr_running ≢ 1
    → Follows r cpu nr_running now times g
        (cpufreq_interactive_timer r.policy nr_running pending jiffies now again times g)
timer-work r cpu nr_running pending jiffies now again times g lt small sane many =
    go (cpufreq_interactive_timer-Scales r.policy nr_running pending jiffies now again times g)
  where
    go :
        {h : Handled}
        → Scales r.policy nr_running now times g h
        → Follows r cpu nr_running now times g h
    go (same why) = inl (refl, why)
    go (up d i) = inr (inl (d, i, refl, work-up r cpu g many))
    go (down calls d i s) =
        let low : Shared = record g { target_freq = r.policy.min } in
        let sane' : Sane low r.now = record {
          passed = sane.passed;
          short = sane.short;
          idle_within = sane.idle_within;
        } in
        let (e, le) = cpufreq_interactive_calc_freq-le r.policy r.now low sane' small in
        inr (inr (d, i, s, (calls, refl), (_, le, work-down r cpu _ g lt e)))
