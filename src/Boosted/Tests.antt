-- ===== src/Boosted/Tests.antt =====
-- The boosted governor with a table of three frequencies.
use android_device_motorola.Prelude.{
  ℕ, ◌^◌, ◌≤◌, ◌<◌, ◌≡◌, ◌≢◌, ◌⊎◌, inl, inr, true, false, some, [], ◌∷◌, leb, if◌then◌else◌, sub32,
  sub64, refl, arith, subst,
}
use android_device_motorola.Cpufreq.{Policy, Clock, Relation, relation_l, relation_h, other_idle}
use android_device_motorola.Boosted.State.{BoostedInfo, ramp_up, ramp_down}
use android_device_motorola.Boosted.Speed.{Lookup, target_freq, ideal_speed}
use android_device_motorola.Boosted.SpeedLaws.{
  Limits, Serves, Asks, target_freq-Fresh, ideal_speed_between,
}
use android_device_motorola.Boosted.Timer.{
  Handled, choose_ramp, decide, follow_ramp, cpufreq_boosted_timer,
}
use android_device_motorola.Boosted.Work.{Reading, work_step, chosen_freq, allowed_ramp}
use android_device_motorola.Boosted.Sampling.{Continues, cpufreq_boosted_timer-Continues}
use android_device_motorola.Boosted.WorkLaws.{Fits, Moves, decide-work_step}
use android_device_motorola.Boosted.Carry.{work_step-carries}
use android_device_motorola.Boosted.Governor.{Global, Found, on_start, default_tunables, init_info}
use android_device_motorola.Boosted.Stores.{sleep_ideal_freq}
use android_device_motorola.Boosted.GovernorLaws.{
  Cpu, start, set, early_suspend, on_events, UpToDate, on_events-UpToDate, on_start-fails,
}

abbrev policy : Policy
policy = record { cpu = 0; min = 300000; max = 1000000; cur = 600000 }

abbrev In : ℕ → Type 0
In k = (k ≡ 300000) ⊎ (k ≡ 600000) ⊎ (k ≡ 1000000)

abbrev highest_to : ℕ → ℕ
highest_to f = if leb 1000000 f then 1000000 else (if leb 600000 f then 600000 else 300000)

abbrev lowest_from : ℕ → ℕ
lowest_from f = if leb f 300000 then 300000 else (if leb f 600000 then 600000 else 1000000)

abbrev table : Lookup
table f relation_h = some (highest_to f)
table f relation_l = some (lowest_from f)

table-found : (f k : ℕ) (r : Relation) → In k → (g : ℕ) × (table f r ≡ some g)
table-found f k relation_h i = (highest_to f, refl)
table-found f k relation_l i = (lowest_from f, refl)

In-highest : (f : ℕ) → In (highest_to f)
In-highest f = ground arith

In-lowest : (f : ℕ) → In (lowest_from f)
In-lowest f = ground arith

some-injective : (a b : ℕ) → some a ≡ some b → a ≡ b
some-injective a b e = cc

table-member : (f g : ℕ) (r : Relation) → table f r ≡ some g → In g
table-member f g relation_h e = subst In (some-injective (highest_to f) g e) (In-highest f)
table-member f g relation_l e = subst In (some-injective (lowest_from f) g e) (In-lowest f)

serves : Serves policy In table
serves = record {
  within = λ k i. ground arith;
  found = table-found;
  member = table-member;
  at_most = λ f g k e i h. ground (arith, some-injective (highest_to f) g e);
  over = λ f g k e i h. ground (arith, some-injective (highest_to f) g e);
  at_least = λ f g k e i h. ground (arith, some-injective (lowest_from f) g e);
  under = λ f g k e i h. ground (arith, some-injective (lowest_from f) g e);
}

small_limits : Limits policy
small_limits = record { low = omega arith; ordered = omega arith; high = omega arith }

target_freq-Fresh_example :
    Asks
      (λ f. (300000 ≤ f) × (f ≤ 1000000) × (f ≢ 600000))
      (Unit {0})
      (target_freq table policy 760000 600000 relation_h)
target_freq-Fresh_example =
    target_freq-Fresh small_limits serves 760000 600000 relation_h (omega arith)

ideal_speed_between_example :
    let ideal = ideal_speed default_tunables policy true in
    (300000 ≤ ideal)
    × (ideal ≤ 1000000)
    × ((ideal ≡ default_tunables.sleep_ideal_freq)
        ⊎ (default_tunables.sleep_ideal_freq ≤ 300000)
        ⊎ (1000000 ≤ default_tunables.sleep_ideal_freq))
ideal_speed_between_example = ideal_speed_between default_tunables policy true (omega arith)

abbrev now : Clock
now = record { idle = 1000; wall = 90000 }

abbrev reading : Reading
reading = record {
  policy = policy;
  table = table;
  nr_running = 3;
  now = now;
  again = now;
  jiffies = 50;
  pending = false;
}

-- A sample that was begun at 50000, of which 1000 were idle.
unfoldable busy : BoostedInfo
unfolding init_info
busy = record init_info { enable = true; idle_exit_time = 50000; ideal_speed = 500000 }

default-Fits : Fits default_tunables policy
unfolding default_tunables
default-Fits = record {
  max_load_low = omega arith;
  loads = omega arith;
  min_load_high = omega arith;
  freqs = omega arith;
  up_fits = omega arith;
  down_fits = omega arith;
}

busy_low : 300000 ≤ busy.ideal_speed
unfolding busy
busy_low = omega arith

busy_high : busy.ideal_speed ≤ 1000000
unfolding busy
busy_high = omega arith

decide-work_step_example :
    let info = (decide default_tunables 50 policy now now busy 97).1 in
    Moves reading In
      (chosen_freq default_tunables info policy 3 relation_l).0
      (allowed_ramp info.ramp_dir 3)
      (work_step default_tunables reading relation_l info).0
decide-work_step_example =
    decide-work_step default_tunables reading default-Fits small_limits serves 50 now now busy 97
      relation_l busy_low busy_high (inr (inl refl))

-- That decision is a ramp up.
busy_ramps_up : (decide default_tunables 50 policy now now busy 97).1.ramp_dir ≡ ramp_up
unfolding decide choose_ramp follow_ramp busy default_tunables init_info
busy_ramps_up = refl

busy_started : busy.idle_exit_time ≢ 0
unfolding busy
busy_started = omega arith

busy_moved : 90000 ≢ busy.idle_exit_time
unfolding busy
busy_moved = omega arith

busy_short : sub64 90000 busy.idle_exit_time < 2 ^ 32
unfolding busy
busy_short = omega arith

cpufreq_boosted_timer-Continues_example :
    (h : Handled) × (cpufreq_boosted_timer default_tunables 50 false policy now now busy ≡ some h)
    × Continues default_tunables 50 false policy now h
cpufreq_boosted_timer-Continues_example =
    cpufreq_boosted_timer-Continues default_tunables 50 false policy now now busy busy_started
      busy_moved busy_short

unfoldable climbing : BoostedInfo
unfolding busy
climbing = record busy { old_freq = 600000; ramp_dir = ramp_up }

unfoldable sinking : BoostedInfo
unfolding busy
sinking = record busy { old_freq = 600000; ramp_dir = ramp_down; ideal_speed = 700000 }

work_step-carries_example :
    let (calls, info, relation) = work_step default_tunables reading relation_l climbing in
    (chosen_freq default_tunables sinking policy 3 relation
      ≡ (sub32 sinking.old_freq default_tunables.ramp_down_step, relation_h))
    × (chosen_freq default_tunables sinking policy 3 relation_l
        ≡ (sub32 sinking.old_freq default_tunables.ramp_down_step, relation_l))
unfolding climbing sinking busy init_info default_tunables
work_step-carries_example =
    work_step-carries default_tunables reading reading climbing sinking refl refl refl refl
      (omega arith) refl refl (omega arith) (omega arith)

abbrev found : Found
found = record {
  online = true;
  rc = 0;
  cur_after = 600000;
  pending = false;
  jiffies = 50;
  now = now;
}

abbrev fresh : Global
fresh = record {
  tunables = default_tunables;
  suspended = false;
  active_count = 0;
  pm_idle = other_idle 7;
  pm_idle_old = other_idle 0;
  sysfs_group = false;
}

abbrev loaded : Cpu
loaded = record { policy = policy; global = fresh; info = init_info }

loaded-UpToDate : UpToDate loaded
unfolding init_info
loaded-UpToDate on = cc

on_events-UpToDate_example : UpToDate (
    on_events
      (start found policy ∷ (early_suspend 60 now now ∷ (set sleep_ideal_freq (some 250000) ∷ [])))
      loaded)
on_events-UpToDate_example =
    on_events-UpToDate
      (start found policy ∷ (early_suspend 60 now now ∷ (set sleep_ideal_freq (some 250000) ∷ [])))
      loaded loaded-UpToDate

on_start-fails_example :
    let o = on_start (record found { rc = 12 }) policy fresh init_info in
    (o.ret ≡ 12)
    × (o.calls ≡ [])
    × (o.info.enable ≡ true)
    × (o.global.active_count ≡ 1)
    × (o.global.pm_idle ≡ other_idle 7)
    × (o.global.sysfs_group ≡ false)
on_start-fails_example =
    on_start-fails (record found { rc = 12 }) policy fresh init_info refl (omega arith) refl
      (omega arith)
