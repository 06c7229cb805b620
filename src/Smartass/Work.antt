-- ===== src/Smartass/Work.antt =====
-- cpufreq_smartass_freq_change_time_work: the new frequency of each CPU that asked for one.
use android_device_motorola.Prelude.{
  put, ℕ, ◌+◌, ◌*◌, ◌/◌, Bool, false, ◌&&◌, ◌||◌, List, [], ◌∷◌, ◌++◌, ltb, ◌!=◌, if◌then◌else◌,
  u32, sub32,
}
use android_device_motorola.Cpufreq.{Policy, Clock, relation_l, Call, driver_target}
use android_device_motorola.Smartass.State.{Tunables, SmartassInfo}
use android_device_motorola.Smartass.Speed.{validate_freq}

-- The branches of the work function that choose a frequency. `force_ramp_up` is the local variable.
unfoldable pub choose_freq : Tunables → SmartassInfo → Policy → Bool → ℕ
choose_freq t info policy force_ramp_up =
    let cpu_load = info.cur_cpu_load in
    if force_ramp_up || ltb t.max_cpu_load cpu_load
    then (if force_ramp_up && t.up_min_freq != 0
        then t.up_min_freq
        else (if t.ramp_up_step != 0 then u32 (policy.cur + t.ramp_up_step) else info.max_speed))
    else (if ltb cpu_load t.min_cpu_load
        then (let dummy = u32 (cpu_load + sub32 100 t.max_cpu_load) in
            let new_freq = u32 (policy.cur * dummy) / 100 in
            if t.max_ramp_down != 0 && ltb new_freq (sub32 policy.cur t.max_ramp_down)
            then sub32 policy.cur t.max_ramp_down
            else new_freq)
        else policy.cur)

unfoldable pub new_freq : Tunables → SmartassInfo → Policy → ℕ → ℕ
unfolding choose_freq validate_freq
new_freq t info policy nr_running =
    validate_freq info (choose_freq t info policy (info.force_ramp_up != 0 && ltb 1 nr_running))

-- The loop's body for one CPU.
unfoldable pub work_step : Tunables → SmartassInfo → Policy → ℕ → Clock → List Call × SmartassInfo
unfolding new_freq
work_step t info policy nr_running now = (
  driver_target (new_freq t info policy nr_running) relation_l ∷ [],
  record info {
    force_ramp_up = 0;
    freq_change_time_in_idle = now.idle;
    freq_change_time = now.wall;
  },
)

-- What the work function reads for a CPU while it runs.
pub record Reading : Type 0 where
  pub policy : Policy
  pub nr_running : ℕ
  pub now : Clock

-- The per-CPU states, the CPUs that asked for a frequency, and the calls made for each CPU.
pub record World : Type 0 where
  pub infos : ℕ → SmartassInfo
  pub work_cpumask : ℕ → Bool
  pub calls : List (ℕ × Call)

abbrev pub with_cpu : ℕ → List Call → List (ℕ × Call)
with_cpu cpu [] = []
with_cpu cpu (c ∷ l) = (cpu, c) ∷ with_cpu cpu l

-- The loop over the CPUs of `tmp_mask`, which `for_each_cpu` lists.
unfoldable pub change_freqs : Tunables → (ℕ → Reading) → List ℕ → World → World
change_freqs t read [] w = w
change_freqs t read (cpu ∷ rest) w =
    let r = read cpu in
    let (cs, info) = work_step t (w.infos cpu) r.policy r.nr_running r.now in
    change_freqs t read rest (record {
      infos = put w.infos cpu info;
      work_cpumask = put w.work_cpumask cpu false;
      calls = w.calls ++ with_cpu cpu cs;
    })
