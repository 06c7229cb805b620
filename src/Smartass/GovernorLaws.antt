-- ===== src/Smartass/GovernorLaws.antt =====
-- What the events of the smartass governor do to its speeds, its idle hook and its attributes.
use android_device_motorola.Prelude.{
  sltb, put, ℕ, ◌+◌, ◌≤◌, ◌<◌, ◌≡◌, ◌≢◌, ◌⊎◌, inl, inr, Bool, true, false, not, ◌||◌, List, [], ◌∷◌,
  ltb, ◌==◌, ◌!=◌, u32, arith, refl, Bool-cases, ◌∙◌,
}
use android_device_motorola.Cpufreq.{
  Policy, gov_start, gov_stop, gov_limits, cpufreq_idle, relation_h, driver_target,
}
use android_device_motorola.Smartass.State.{Tunables, SmartassInfo}
use android_device_motorola.Smartass.Speed.{
  smartass_update_min_max, validate_freq, Obeys, smartass_update_min_max-Obeys,
  validate_freq_between,
}
use android_device_motorola.Smartass.Governor.{
  Global, Outcome, on_limits, on_enable, on_start, on_stop, cpufreq_governor_smartass,
  smartass_suspend, suspend_cpus,
}

-- The new maximum is asked for, unless the CPU runs at it already.
abbrev pub AsksMax : ℕ → Outcome → Type 0
AsksMax cur o =
    ((cur ≡ o.info.max_speed) × (o.calls ≡ []))
    ⊎ ((cur ≢ o.info.max_speed) × (o.calls ≡ driver_target o.info.max_speed relation_h ∷ []))

on_limits_lem :
    (p : Policy) (cur : ℕ) (g : Global) (info : SmartassInfo)
    → p.min ≤ p.max
    → let o = on_limits p cur g info in
      Obeys p o.info × AsksMax cur o × (o.info.enable ≡ info.enable) × (o.global ≡ g) × (o.ret ≡ 0)
unfolding on_limits smartass_update_min_max
on_limits_lem p cur g info h =
    ground (arith, smartass_update_min_max-Obeys g.tunables info p g.suspended h)

-- A change of the policy's limits makes the speeds obey the new ones and asks for the new maximum,
-- unless the CPU runs at it already; the shared state stays.
pub governor-limits :
    (online : Bool) (rc : ℕ) (p : Policy) (cur : ℕ) (g : Global) (info : SmartassInfo)
    → p.min ≤ p.max
    → let o = cpufreq_governor_smartass gov_limits online rc p cur g info in
      Obeys p o.info × AsksMax cur o × (o.info.enable ≡ info.enable) × (o.global ≡ g) × (o.ret ≡ 0)
unfolding cpufreq_governor_smartass
governor-limits online rc p cur g info h = on_limits_lem p cur g info h

start_cases :
    (online : Bool) (rc : ℕ) (p : Policy) (g : Global) (info : SmartassInfo)
    → ((g' : Global) × (on_start online rc p g info ≡ on_enable p g' info))
      ⊎ ((on_start online rc p g info).calls ≡ [])
        × ((on_start online rc p g info).info ≡ info)
        × ((on_start online rc p g info).ret ≢ 0)
unfolding on_start
start_cases online rc p g info = elim (Bool-cases (not online || p.cur == 0)) [
  | inl e ↦ inr (rw e refl, rw e refl, rw e (omega arith))
  | inr e ↦ elim (Bool-cases (sltb 1 (u32 (g.active_count + 1)))) [
    | inl f ↦ inl (record g { active_count = u32 (g.active_count + 1) }, rw (e, f) refl)
    | inr f ↦ elim (Bool-cases (rc != 0)) [
      | inl k ↦ inr (rw (e, f, k) refl, rw (e, f, k) refl, rw (e, f, k) (ground arith))
      | inr k ↦ inl (
        record g {
          active_count = u32 (g.active_count + 1);
          sysfs_group = true;
          pm_idle_old = g.pm_idle;
          pm_idle = cpufreq_idle;
        },
        rw (e, f, k) refl,
      )
    ]
  ]
]

-- Starting the governor on a CPU whose policy has `min <= max` either returns 0, with the CPU
-- enabled, its speeds obeying the policy and the new maximum asked for unless the CPU runs at it;
-- or it returns an error, asks for nothing and leaves the CPU's state.
pub governor-start :
    (online : Bool) (rc : ℕ) (p : Policy) (cur : ℕ) (g : Global) (info : SmartassInfo)
    → p.min ≤ p.max
    → let o = cpufreq_governor_smartass gov_start online rc p cur g info in
      ((o.ret ≡ 0) × Obeys p o.info × AsksMax p.cur o × (o.info.enable ≡ 1))
      ⊎ ((o.ret ≢ 0) × (o.calls ≡ []) × (o.info ≡ info))
unfolding cpufreq_governor_smartass on_enable
governor-start online rc p cur g info h = elim (start_cases online rc p g info) [
  | inl (g', e) ↦
      let (a, b, c, d, f) = on_limits_lem p p.cur g' (record info { enable = 1 }) h in
      inl (rw e f, rw e a, rw e b, rw e c)
  | inr (a, b, c) ↦ inr (c, a, b)
]

-- With no CPU on the governor, a start that succeeds installs the idle hook and the attributes, and
-- the stop that follows puts back the idle function and takes the attributes away.
pub governor-start-stop :
    (p q : Policy) (cur cur' rc' : ℕ) (on' : Bool) (g : Global) (info : SmartassInfo)
    → p.cur ≢ 0
    → g.active_count ≡ 0
    → let o = cpufreq_governor_smartass gov_start true 0 p cur g info in
      let o' = cpufreq_governor_smartass gov_stop on' rc' q cur' o.global o.info in
      (o.global.pm_idle ≡ cpufreq_idle)
      × (o.global.sysfs_group ≡ true)
      × (o.global.active_count ≡ 1)
      × (o'.global.pm_idle ≡ g.pm_idle)
      × (o'.global.sysfs_group ≡ false)
      × (o'.global.active_count ≡ 0)
      × (o'.info.enable ≡ 0)
unfolding cpufreq_governor_smartass on_start on_enable on_limits on_stop
governor-start-stop p q cur cur' rc' on' g info c a = ground arith

-- With two CPUs on the governor, stopping it on one of them takes away the attributes and the idle
-- hook, which the other still uses.
pub governor-stop_second :
    (p : Policy) (cur rc : ℕ) (online : Bool) (g : Global) (info : SmartassInfo)
    → g.active_count ≡ 2
    → let o = cpufreq_governor_smartass gov_stop online rc p cur g info in
      (o.global.active_count ≡ 1)
      × (o.global.pm_idle ≡ g.pm_idle_old)
      × (o.global.sysfs_group ≡ false)
unfolding cpufreq_governor_smartass on_stop
governor-stop_second p cur rc online g info a = ground arith

-- A start that fails because its attributes cannot be made is counted all the same: the next start
-- enables the CPU, and installs neither the idle hook nor the attributes.
pub governor-start_after_failure :
    (p : Policy) (cur rc rc' : ℕ) (g : Global) (info : SmartassInfo)
    → p.cur ≢ 0
    → g.active_count ≡ 0
    → rc ≢ 0
    → let o = cpufreq_governor_smartass gov_start true rc p cur g info in
      let o' = cpufreq_governor_smartass gov_start true rc' p cur o.global o.info in
      (o.ret ≡ rc)
      × (o'.ret ≡ 0)
      × (o'.info.enable ≡ 1)
      × (o'.global.pm_idle ≡ g.pm_idle)
      × (o'.global.sysfs_group ≡ g.sysfs_group)
unfolding cpufreq_governor_smartass on_start on_enable on_limits smartass_update_min_max
governor-start_after_failure p cur rc rc' g info c a r = ground arith

-- What the suspend hook does to an enabled CPU with `sleep_max_freq` set: its speeds obey the
-- policy, and every frequency that it asks for lies between the policy's limits; asleep, it asks
-- only when the CPU runs above its new maximum.
pub smartass_suspend-Obeys :
    (suspend : ℕ) (p : Policy) (t : Tunables) (info : SmartassInfo)
    → p.min ≤ p.max
    → info.enable ≢ 0
    → t.sleep_max_freq ≢ 0
    → let (calls, info') = smartass_suspend suspend p t info in
      Obeys p info'
      × (((calls ≡ []) × (0 < suspend) × (p.cur ≤ info'.max_speed))
          ⊎ ((f : ℕ) × (calls ≡ driver_target f relation_h ∷ []) × (p.min ≤ f) × (f ≤ p.max)))
unfolding smartass_suspend
smartass_suspend-Obeys suspend p t info h e s =
    let info' = smartass_update_min_max t info p suspend in
    let o = (smartass_update_min_max-Obeys t info p suspend h).0 in
    let f = validate_freq info' t.sleep_wakeup_freq in
    let b = validate_freq_between info' t.sleep_wakeup_freq o.ordered in
    let d : (info.enable == 0 || t.sleep_max_freq == 0) ≡ false = ground arith in
    elim (Bool-cases (suspend != 0)) [
      | inl k ↦ elim (Bool-cases (ltb info'.max_speed p.cur)) [
        | inl m ↦ rw (d, k, m) (o, inr (info'.max_speed, refl, omega arith, o.high))
        | inr m ↦ rw (d, k, m) (o, inl (refl, ground arith, ground arith))
      ]
      | inr k ↦ rw (d, k) (o, inr (f, refl, omega arith, omega arith))
    ]

-- Suspending and resuming reach the state of the running CPU only: any other online CPU keeps the
-- speeds that it had.
pub suspend_cpus_others :
    (suspend self : ℕ) (policy : ℕ → Policy) (t : Tunables) (l : List ℕ) (infos : ℕ → SmartassInfo)
    (k : ℕ)
    → k ≢ self
    → (suspend_cpus suspend self policy t l infos).1 k ≡ infos k
unfolding suspend_cpus
suspend_cpus_others suspend self policy t [] infos k n = refl
suspend_cpus_others suspend self policy t (i ∷ l) infos k n =
    suspend_cpus_others suspend self policy t l
      (put infos self (smartass_suspend suspend (policy i) t (infos self)).1) k n
    ∙ ground arith

-- With `sleep_max_freq` 0, which is to disable the behaviour, a change of limits while the device
-- is suspended still brings the maximum down to the policy's minimum.
pub governor-limits_disabled_sleep :
    (online : Bool) (rc : ℕ) (p : Policy) (cur : ℕ) (g : Global) (info : SmartassInfo)
    → g.suspended ≢ 0
    → g.tunables.sleep_max_freq ≡ 0
    → 0 < p.max
    → let o = cpufreq_governor_smartass gov_limits online rc p cur g info in
      (o.info.max_speed ≡ p.min) × ((smartass_suspend g.suspended p g.tunables info).1 ≡ info)
unfolding cpufreq_governor_smartass on_limits smartass_update_min_max smartass_suspend
governor-limits_disabled_sleep online rc p cur g info s z m = ground arith
