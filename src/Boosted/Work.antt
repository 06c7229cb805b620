-- ===== src/Boosted/Work.antt =====
-- cpufreq_boosted_freq_change_time_work: the new frequency of each CPU that asked for one.
use android_device_motorola.Prelude.{
  put, ℕ, ◌+◌, ◌*◌, ◌/◌, Bool, false, List, [], ◌∷◌, ◌++◌, ltb, ◌!=◌, if◌then◌else◌, u32, sub32,
  sltb,
}
use android_device_motorola.Cpufreq.{
  Policy, Clock, Relation, relation_l, relation_h, Call, del_timer,
}
use android_device_motorola.Boosted.State.{
  Tunables, BoostedInfo, Ramp, ramp_up, ramp_none, ramp_down,
}
use android_device_motorola.Boosted.Speed.{Lookup, target_freq}
use android_device_motorola.Boosted.Timer.{reset_timer}

-- The branches that choose a frequency and, some of them, a relation; the others leave the relation
-- that the loop has. Without a ramp the frequency stays.
unfoldable pub ramp_freq : Tunables → BoostedInfo → Policy → Relation → Ramp → ℕ × Relation
ramp_freq t info policy relation ramp_none = (info.old_freq, relation)
ramp_freq t info policy relation ramp_up =
    if sltb info.old_freq info.ideal_speed
    then (info.ideal_speed, relation)
    else (if t.ramp_up_step != 0
        then (u32 (info.old_freq + t.ramp_up_step), relation_h)
        else (policy.max, relation_h))
ramp_freq t info policy relation ramp_down =
    if sltb info.ideal_speed info.old_freq
    then (info.ideal_speed, relation_h)
    else (if t.ramp_down_step != 0
        then (sub32 info.old_freq t.ramp_down_step, relation)
        else (let new_freq = u32 (info.old_freq * info.cur_cpu_load) / t.max_cpu_load in
            (if sltb info.old_freq new_freq then sub32 info.old_freq 1 else new_freq, relation)))

-- A ramp up of a single running task is refused.
abbrev pub allowed_ramp : Ramp → ℕ → Ramp
allowed_ramp ramp_up nr_running = if ltb 1 nr_running then ramp_up else ramp_none
allowed_ramp ramp_down nr_running = ramp_down
allowed_ramp ramp_none nr_running = ramp_none

-- The whole choice; a frequency that has changed since the timer ran is not touched.
unfoldable pub chosen_freq : Tunables → BoostedInfo → Policy → ℕ → Relation → ℕ × Relation
chosen_freq t info policy nr_running relation =
    if info.old_freq != policy.cur
    then (info.old_freq, relation)
    else ramp_freq t info policy relation (allowed_ramp info.ramp_dir nr_running)

-- What the work function reads for a CPU while it runs.
pub record Reading : Type 0 where
  pub policy : Policy
  pub table : Lookup
  pub nr_running : ℕ
  pub now : Clock
  pub again : Clock
  pub jiffies : ℕ
  pub pending : Bool

-- What follows the call of target_freq, whose result is `new_freq`.
unfoldable pub after_target : Tunables → Reading → ℕ → BoostedInfo → List Call × BoostedInfo
after_target t r new_freq old =
    let info =
      if new_freq != 0
      then record old { freq_change_time_in_idle = r.now.idle; freq_change_time = r.now.wall }
      else old in
    if ltb new_freq r.policy.max
    then reset_timer t r.jiffies r.again info
    else (if r.pending then del_timer ∷ [] else [], info)

-- The loop's body for a CPU that asked: its calls, its state, and the relation that the next CPU
-- starts with.
unfoldable pub work_step :
    Tunables → Reading → Relation → BoostedInfo → List Call × BoostedInfo × Relation
work_step t r relation old =
    let (freq, relation') = chosen_freq t old r.policy r.nr_running relation in
    let (calls, new_freq) = target_freq r.table r.policy freq old.old_freq relation' in
    let (more, info) = after_target t r new_freq (record old { ramp_dir = ramp_none }) in
    (calls ++ more, info, relation')

-- The per-CPU states, the CPUs that asked for a frequency, and the calls made for each CPU.
pub record World : Type 0 where
  pub infos : ℕ → BoostedInfo
  pub work_cpumask : ℕ → Bool
  pub calls : List (ℕ × Call)

abbrev pub with_cpu : ℕ → List Call → List (ℕ × Call)
with_cpu cpu [] = []
with_cpu cpu (c ∷ l) = (cpu, c) ∷ with_cpu cpu l

-- One round of the loop over the possible CPUs.
unfoldable pub round : Tunables → (ℕ → Reading) → ℕ → Relation × World → Relation × World
round t read cpu (relation, w) =
    if w.work_cpumask cpu
    then (let (calls, info, relation') = work_step t (read cpu) relation (w.infos cpu) in
        (
          relation',
          record {
            infos = put w.infos cpu info;
            work_cpumask = put w.work_cpumask cpu false;
            calls = w.calls ++ with_cpu cpu calls;
          },
        ))
    else (relation, w)

unfoldable pub rounds : Tunables → (ℕ → Reading) → List ℕ → Relation × World → Relation × World
rounds t read [] w = w
rounds t read (cpu ∷ cpus) w = rounds t read cpus (round t read cpu w)

unfoldable pub change_freqs : Tunables → (ℕ → Reading) → List ℕ → World → World
change_freqs t read cpus w = (rounds t read cpus (relation_l, w)).1
