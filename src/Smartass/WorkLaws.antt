-- ===== src/Smartass/WorkLaws.antt =====
-- The frequencies that the smartass governor asks for.
use android_device_motorola.Prelude.{
  ℕ, ◌+◌, ◌*◌, ◌-◌, ◌/◌, ◌^◌, ◌≤◌, ◌<◌, ◌≡◌, ◌⊎◌, true, false, ◌&&◌, ltb, ◌!=◌, if◌then◌else◌, u32,
  sub32, arith, refl, lt→ltb, ◌∙◌,
}
use native.Mathlib.Nat.{mul-le-mul_left, mod-eq_of_lt, div-le_of_le-mul}
use android_device_motorola.Cpufreq.{Policy}
use android_device_motorola.Smartass.State.{Tunables, SmartassInfo}
use android_device_motorola.Smartass.Speed.{validate_freq, Obeys}
use android_device_motorola.Smartass.Work.{choose_freq, new_freq}

-- For a CPU whose speeds obey its policy, every frequency that is asked for lies between the
-- policy's limits, whatever the tunables, the load and the current frequency are.
pub new_freq_between :
    (t : Tunables) (info : SmartassInfo) (policy : Policy) (nr : ℕ)
    → Obeys policy info
    → (policy.min ≤ new_freq t info policy nr) × (new_freq t info policy nr ≤ policy.max)
unfolding new_freq validate_freq
new_freq_between t info policy nr o = ground arith

-- The tunables as sysfs lets them be set, a percentage of load, and frequencies that can be
-- multiplied by a percentage in 32 bits.
pub record Fits (t : Tunables) (info : SmartassInfo) (policy : Policy) : Type 0 where
  pub cur_fits : policy.cur * 200 < 2 ^ 32
  pub step_fits : t.ramp_up_step < 2 ^ 31
  pub max_load : t.max_cpu_load ≤ 100
  pub min_load : t.min_cpu_load < 100
  pub load_fits : info.cur_cpu_load ≤ 100
  pub down_fits : t.max_ramp_down ≤ policy.cur
  pub in_low : info.min_speed ≤ policy.cur
  pub in_high : policy.cur ≤ info.max_speed

unforced : (n nr : ℕ) → (n ≡ 0) ⊎ (nr ≤ 1) → (n != 0 && ltb 1 nr) ≡ false
unforced n nr h = ground arith

module _ (t : Tunables) (info : SmartassInfo) (policy : Policy) where
  choose_freq_high :
      Fits t info policy
      → t.max_cpu_load < info.cur_cpu_load
      → policy.cur ≤ choose_freq t info policy false
  unfolding choose_freq
  choose_freq_high f h = ground arith

  choose_freq_keep :
      info.cur_cpu_load ≤ t.max_cpu_load
      → t.min_cpu_load ≤ info.cur_cpu_load
      → choose_freq t info policy false ≡ policy.cur
  unfolding choose_freq
  choose_freq_keep h k = ground arith

  -- The load heuristic of the way down, without the wrap-around.
  scaled : ℕ
  scaled = policy.cur * (info.cur_cpu_load + 100 - t.max_cpu_load) / 100

  choose_freq_low :
      Fits t info policy
      → info.cur_cpu_load ≤ t.max_cpu_load
      → info.cur_cpu_load < t.min_cpu_load
      → choose_freq t info policy false ≡ (
          if t.max_ramp_down != 0 && ltb scaled (policy.cur - t.max_ramp_down)
          then policy.cur - t.max_ramp_down
          else scaled)
  unfolding choose_freq scaled
  choose_freq_low f h k =
      let e1 : ltb t.max_cpu_load info.cur_cpu_load ≡ false = ground arith in
      let e2 : ltb info.cur_cpu_load t.min_cpu_load ≡ true = ground arith in
      let d : u32 (info.cur_cpu_load + sub32 100 t.max_cpu_load)
          ≡ info.cur_cpu_load + 100 - t.max_cpu_load =
        omega arith in
      let p : policy.cur * (info.cur_cpu_load + 100 - t.max_cpu_load) ≤ policy.cur * 100 =
        mul-le-mul_left policy.cur (omega arith) in
      let m : u32 (policy.cur * (info.cur_cpu_load + 100 - t.max_cpu_load))
          ≡ policy.cur * (info.cur_cpu_load + 100 - t.max_cpu_load) =
        mod-eq_of_lt (omega arith) in
      let s : sub32 policy.cur t.max_ramp_down ≡ policy.cur - t.max_ramp_down = omega arith in
      rw (e1, e2, d, m, s) refl

  scaled-le : Fits t info policy → info.cur_cpu_load ≤ t.max_cpu_load → scaled ≤ policy.cur
  unfolding scaled
  scaled-le f h =
      let p : policy.cur * (info.cur_cpu_load + 100 - t.max_cpu_load) ≤ policy.cur * 100 =
        mul-le-mul_left policy.cur (omega arith) in
      div-le_of_le-mul 100 (omega arith)

  validate_freq_mono :
      (f g : ℕ)
      → info.min_speed ≤ info.max_speed
      → f ≤ g
      → validate_freq info f ≤ validate_freq info g
  unfolding validate_freq
  validate_freq_mono f g h k = ground arith

  validate_freq_cur : Fits t info policy → validate_freq info policy.cur ≡ policy.cur
  unfolding validate_freq
  validate_freq_cur f = ground arith

  new_freq_unforced :
      (nr : ℕ)
      → (info.force_ramp_up ≡ 0) ⊎ (nr ≤ 1)
      → new_freq t info policy nr ≡ validate_freq info (choose_freq t info policy false)
  unfolding new_freq
  new_freq_unforced nr n = rw (unforced info.force_ramp_up nr n) refl

  -- Without a forced ramp, a load above `max_cpu_load` never lowers the frequency.
  pub new_freq-up :
      (nr : ℕ)
      → Fits t info policy
      → (info.force_ramp_up ≡ 0) ⊎ (nr ≤ 1)
      → t.max_cpu_load < info.cur_cpu_load
      → policy.cur ≤ new_freq t info policy nr
  new_freq-up nr f n h = rw (new_freq_unforced nr n) (
      rw (validate_freq_cur f) at (
        validate_freq_mono policy.cur (choose_freq t info policy false) (omega arith)
          (choose_freq_high f h)))

  -- Without a forced ramp, a load between the two limits keeps the frequency.
  pub new_freq-keep :
      (nr : ℕ)
      → Fits t info policy
      → (info.force_ramp_up ≡ 0) ⊎ (nr ≤ 1)
      → info.cur_cpu_load ≤ t.max_cpu_load
      → t.min_cpu_load ≤ info.cur_cpu_load
      → new_freq t info policy nr ≡ policy.cur
  new_freq-keep nr f n h k = rw (new_freq_unforced nr n, choose_freq_keep h k) (validate_freq_cur f)

  -- With tunables, speeds and a frequency that meet `Fits`, and without a forced ramp, a load of at
  -- most `max_cpu_load` and below `min_cpu_load` never raises the frequency, and lowers it by at
  -- most `max_ramp_down` where that is not 0.
  pub new_freq-down :
      (nr : ℕ)
      → Fits t info policy
      → (info.force_ramp_up ≡ 0) ⊎ (nr ≤ 1)
      → info.cur_cpu_load ≤ t.max_cpu_load
      → info.cur_cpu_load < t.min_cpu_load
      → (new_freq t info policy nr ≤ policy.cur)
        × ((t.max_ramp_down ≡ 0) ⊎ (policy.cur ≤ new_freq t info policy nr + t.max_ramp_down))
  unfolding validate_freq
  new_freq-down nr f n h k =
      ground (arith, new_freq_unforced nr n, choose_freq_low f h k, scaled-le f h)

-- With `max_ramp_down` above the current frequency the limit on the way down wraps around: a CPU
-- with a load below both limits is sent to its highest speed.
pub new_freq_overshoot :
    (t : Tunables) (info : SmartassInfo) (policy : Policy) (nr : ℕ)
    → (info.force_ramp_up ≡ 0) ⊎ (nr ≤ 1)
    → info.cur_cpu_load ≤ t.max_cpu_load
    → info.cur_cpu_load < t.min_cpu_load
    → policy.cur < t.max_ramp_down
    → t.max_ramp_down < 2 ^ 31
    → info.max_speed < 2 ^ 31
    → new_freq t info policy nr ≡ info.max_speed
unfolding choose_freq validate_freq
new_freq_overshoot t info policy nr n h k d w m =
    let dummy : ℕ = u32 (info.cur_cpu_load + sub32 100 t.max_cpu_load) in
    let e1 : ltb t.max_cpu_load info.cur_cpu_load ≡ false = ground arith in
    let e2 : ltb info.cur_cpu_load t.min_cpu_load ≡ true = ground arith in
    let e3 : t.max_ramp_down != 0 ≡ true = ground arith in
    let huge : 2 ^ 31 < sub32 policy.cur t.max_ramp_down = omega arith in
    let e4 : ltb (u32 (policy.cur * dummy) / 100) (sub32 policy.cur t.max_ramp_down) ≡ true =
      lt→ltb _ _ (omega arith) in
    let e5 : ltb info.max_speed (sub32 policy.cur t.max_ramp_down) ≡ true =
      lt→ltb _ _ (omega arith) in
    new_freq_unforced t info policy nr n ∙ rw (e1, e2, e3, e4, e5) refl
