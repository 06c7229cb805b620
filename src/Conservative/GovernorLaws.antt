-- ===== src/Conservative/GovernorLaws.antt =====
-- What the events of the conservative governor do to its counters, its rates and its timer.
use android_device_motorola.Prelude.{
  suc, ℕ, ◌+◌, ◌*◌, ◌-◌, ◌/◌, ◌%◌, ◌^◌, ◌≤◌, ◌<◌, ◌≡◌, ◌⊎◌, true, false, some, [], ◌∷◌, ◌==◌, arith,
  refl,
}
use native.Mathlib.Nat.{div-add-mod, mod-lt, mul-mod_right}
use android_device_motorola.Cpufreq.{
  Policy, GovEvent, gov_start, gov_stop, gov_limits, gov_other, relation_l, relation_h,
  driver_target,
}
use android_device_motorola.Conservative.Check.{dbs_check_cpu, step_target}
use android_device_motorola.Conservative.CheckLaws.{
  Sane, Within, AsksRequested, dbs_check_cpu-Within,
}
use android_device_motorola.Conservative.Tuners.{InRange}
use android_device_motorola.Conservative.State.{DbsInfo}
use android_device_motorola.Conservative.Governor.{
  Global, queued_in, Outcome, Given, aligned_delay, on_limits, cpufreq_governor_dbs, do_dbs_timer,
}

-- The delay to the next sample is positive and at most the sampling interval, and the sample falls
-- on a multiple of that interval, for every CPU that uses it.
pub aligned_delay_lem :
    (jiffies delay : ℕ)
    → 0 < delay
    → (d : ℕ) × (aligned_delay jiffies delay ≡ some d)
      × (0 < d)
      × (d ≤ delay)
      × ((jiffies + d) % delay ≡ 0)
unfolding aligned_delay
aligned_delay_lem jiffies delay h =
    let n : (delay == 0) ≡ false = ground arith in
    let sum : jiffies + (delay - jiffies % delay) ≡ delay * (jiffies / delay + 1) =
      omega (arith, div-add-mod jiffies delay, mod-lt jiffies h) in
    (
      delay - jiffies % delay,
      rw n refl,
      omega (arith, mod-lt jiffies h),
      omega arith,
      rw sum (mul-mod_right delay (jiffies / delay + 1)),
    )

-- The notifier is registered exactly while the governor serves a CPU.
pub record Counts (g : Global) : Type 0 where
  pub some_on : 0 < g.dbs_enable → g.notifier ≡ true
  pub none_on : g.dbs_enable ≡ 0 → g.notifier ≡ false

-- Every event that is accepted keeps the notifier registered exactly while the governor serves a
-- CPU, as long as the count does not overflow and only a governor that serves a CPU is stopped.
pub cpufreq_governor_dbs-Counts :
    (j2u u2j : ℕ → ℕ) (e : GovEvent) (given : Given) (p : Policy) (cur : ℕ) (g : Global)
    (infos : ℕ → DbsInfo) (o : Outcome)
    → Counts g
    → g.dbs_enable + 1 < 2 ^ 32
    → (e ≡ gov_stop → 0 < g.dbs_enable)
    → cpufreq_governor_dbs j2u u2j e given p cur g infos ≡ some o
    → Counts o.global
unfolding cpufreq_governor_dbs
cpufreq_governor_dbs-Counts j2u u2j gov_start given p cur g infos o c b s h = ground arith
cpufreq_governor_dbs-Counts j2u u2j gov_stop given p cur g infos o c b s h = ground arith
cpufreq_governor_dbs-Counts j2u u2j gov_limits given p cur g infos o c b s h = ground arith
cpufreq_governor_dbs-Counts j2u u2j gov_other given p cur g infos o c b s h = ground arith

-- Every event that is accepted keeps the tunables in range, with the least rate that the first
-- start sets.
pub cpufreq_governor_dbs-InRange :
    (j2u u2j : ℕ → ℕ) (e : GovEvent) (given : Given) (p : Policy) (cur : ℕ) (g : Global)
    (infos : ℕ → DbsInfo) (o : Outcome)
    → InRange g.min_sampling_rate g.tuners
    → cpufreq_governor_dbs j2u u2j e given p cur g infos ≡ some o
    → InRange o.global.min_sampling_rate o.global.tuners
unfolding cpufreq_governor_dbs
cpufreq_governor_dbs-InRange j2u u2j gov_start given p cur g infos o r h = ground arith
cpufreq_governor_dbs-InRange j2u u2j gov_stop given p cur g infos o r h = ground arith
cpufreq_governor_dbs-InRange j2u u2j gov_limits given p cur g infos o r h = ground arith
cpufreq_governor_dbs-InRange j2u u2j gov_other given p cur g infos o r h = ground arith

-- The sample on the timer, for a sane policy, a requested frequency within its limits and a step
-- down that does not exceed it: where the sampling interval is positive, the timer queues its
-- work again, after at most one interval and at a multiple of it; the requested frequency of its
-- CPU stays within the limits of the policy, and only that is asked for.
pub do_dbs_timer_lem :
    (j2u u2j : ℕ → ℕ) (given : Given) (p : Policy) (g : Global) (infos : ℕ → DbsInfo)
    → Sane g.tuners p
    → Within p (infos p.cpu).requested_freq
    → step_target g.tuners p ≤ (infos p.cpu).requested_freq
    → 0 < u2j g.tuners.sampling_rate
    → (o : Outcome) × (d : ℕ) × (do_dbs_timer j2u u2j given p g infos ≡ some o)
      × (o.work ≡ queued_in d)
      × (0 < d)
      × (d ≤ u2j g.tuners.sampling_rate)
      × ((given.jiffies + d) % u2j g.tuners.sampling_rate ≡ 0)
      × AsksRequested p (o.calls, o.infos p.cpu)
unfolding do_dbs_timer
do_dbs_timer_lem j2u u2j given p g infos s w h z =
    let (d, e, a, b, c) = aligned_delay_lem given.jiffies (u2j g.tuners.sampling_rate) z in
    let checked = dbs_check_cpu j2u g.tuners p given.read given.cpus p.cpu infos in
    let asks =
      dbs_check_cpu-Within j2u g.tuners p given.read given.cpus p.cpu (suc p.cpu) infos s w h
        (omega arith) in
    (
      record { ret = 0; calls = checked.0; work = queued_in d; global = g; infos = checked.1 },
      d,
      rw e refl,
      refl,
      a,
      b,
      c,
      asks.0,
    )

-- After a change of limits the CPU is sent to the nearer limit if it runs outside them, and left
-- alone if it runs within them.
pub on_limits_lem :
    (p : Policy) (cur : ℕ)
    → p.min ≤ p.max
    → (Within p cur × (on_limits p cur ≡ []))
      ⊎ ((p.max < cur) × (on_limits p cur ≡ driver_target p.max relation_h ∷ []))
      ⊎ ((cur < p.min) × (on_limits p cur ≡ driver_target p.min relation_l ∷ []))
unfolding on_limits
on_limits_lem p cur h = ground arith
