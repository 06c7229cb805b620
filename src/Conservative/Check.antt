-- ===== src/Conservative/Check.antt =====
-- The sampling of the conservative governor: get_cpu_idle_time, dbs_check_cpu and the notifier of
-- frequency changes.
use android_device_motorola.Prelude.{
  put, ℕ, ◌+◌, ◌*◌, ◌-◌, ◌/◌, ◌^◌, ◌||◌, List, [], ◌∷◌, ltb, ◌==◌, ◌!=◌, if◌then◌else◌, u32, u64,
  sub32, sub64,
}
use android_device_motorola.Cpufreq.{Policy, Clock, relation_h, Call, driver_target}
use android_device_motorola.Conservative.State.{Tuners, DbsInfo, Sample}

-- The kernel's `jiffies_to_usecs` is a parameter.
module _ (jiffies_to_usecs : ℕ → ℕ) where
  -- get_cpu_idle_time_jiffy: the idle time is what is left of the clock.
  unfoldable pub get_cpu_idle_time_jiffy : Sample → Clock
  get_cpu_idle_time_jiffy s =
      let busy = u64 (
        u64 (
          u64 (u64 (u64 (s.stat.user + s.stat.system) + s.stat.irq) + s.stat.softirq)
          + s.stat.steal)
        + s.stat.nice) in
      record {
        idle = jiffies_to_usecs (u32 (sub64 s.jiffies_64 busy));
        wall = jiffies_to_usecs (u32 s.jiffies_64);
      }

  -- get_cpu_idle_time: `-1` says that the kernel does not keep idle times.
  unfoldable pub get_cpu_idle_time : Sample → Clock
  unfolding get_cpu_idle_time_jiffy
  get_cpu_idle_time s =
      if s.idle_us == 2 ^ 64 - 1
      then get_cpu_idle_time_jiffy s
      else record { idle = s.idle_us; wall = s.wall_us }

  -- The idle time of a sample, which with `ignore_nice` takes in the time of niced processes.
  unfoldable pub idle_time : Tuners → Sample → DbsInfo → ℕ
  unfolding get_cpu_idle_time
  idle_time t s info =
      let plain = u32 (sub64 (get_cpu_idle_time s).idle info.prev_cpu_idle) in
      if t.ignore_nice != 0
      then u32 (plain + jiffies_to_usecs (u32 (sub64 s.stat.nice info.prev_cpu_nice)))
      else plain

  unfoldable pub wall_time : Sample → DbsInfo → ℕ
  unfolding get_cpu_idle_time
  wall_time s info = u32 (sub64 (get_cpu_idle_time s).wall info.prev_cpu_wall)

  -- What a sample of a CPU leaves as the previous one.
  unfoldable pub sampled : Tuners → Sample → DbsInfo → DbsInfo
  unfolding get_cpu_idle_time
  sampled t s info = record info {
    prev_cpu_wall = (get_cpu_idle_time s).wall;
    prev_cpu_idle = (get_cpu_idle_time s).idle;
    prev_cpu_nice = if t.ignore_nice != 0 then s.stat.nice else info.prev_cpu_nice;
  }

  -- The load after a CPU was sampled; an impossible sample leaves it as it was.
  unfoldable pub load_after : Tuners → Sample → DbsInfo → ℕ → ℕ
  unfolding idle_time wall_time
  load_after t s info load =
      let wall = wall_time s info in
      let idle = idle_time t s info in
      if wall == 0 || ltb wall idle then load else u32 (100 * (wall - idle)) / wall

  -- The loop of dbs_check_cpu over the CPUs of the policy, started at load 0.
  unfoldable pub sample_cpus :
      Tuners → (ℕ → Sample) → List ℕ → ℕ → (ℕ → DbsInfo) → ℕ × (ℕ → DbsInfo)
  unfolding sampled load_after
  sample_cpus t read [] load infos = (load, infos)
  sample_cpus t read (j ∷ rest) load infos =
      sample_cpus t read rest (load_after t (read j) (infos j) load)
        (put infos j (sampled t (read j) (infos j)))

-- `(freq_step * policy->max) / 100`.
unfoldable pub step_target : Tuners → Policy → ℕ
step_target t policy = u32 (t.freq_step * policy.max) / 100

-- The step up: at least 5 kHz, and not beyond the maximum.
unfoldable pub raised : Tuners → Policy → ℕ → ℕ
unfolding step_target
raised t policy requested =
    let target = step_target t policy in
    let freq = u32 (requested + (if target == 0 then 5 else target)) in
    if ltb policy.max freq then policy.max else freq

-- The step down: not below the minimum.
unfoldable pub lowered : Tuners → Policy → ℕ → ℕ
unfolding step_target
lowered t policy requested =
    let freq = sub32 requested (step_target t policy) in
    if ltb freq policy.min then policy.min else freq

-- dbs_check_cpu after the loop, on the CPU that is checked.
unfoldable pub scale : Tuners → Policy → ℕ → DbsInfo → List Call × DbsInfo
unfolding raised lowered
scale t policy load info =
    if t.freq_step == 0
    then ([], info)
    else (if ltb t.up_threshold load
        then (let info' = record info { down_skip = 0 } in
            if info.requested_freq == policy.max
            then ([], info')
            else (let freq = raised t policy info.requested_freq in
                (driver_target freq relation_h ∷ [], record info' { requested_freq = freq })))
        else (if ltb load (sub32 t.down_threshold 10)
            then (let freq = lowered t policy info.requested_freq in
                let info' = record info { requested_freq = freq } in
                if policy.cur == policy.min
                then ([], info')
                else (driver_target freq relation_h ∷ [], info'))
            else ([], info)))

-- dbs_check_cpu for the CPU `self`, with the CPUs of its policy.
unfoldable pub dbs_check_cpu :
    (ℕ → ℕ)
    → Tuners
    → Policy
    → (ℕ → Sample)
    → List ℕ
    → ℕ
    → (ℕ → DbsInfo)
    → List Call × (ℕ → DbsInfo)
unfolding sample_cpus scale
dbs_check_cpu jiffies_to_usecs t policy read cpus self infos =
    let (load, infos') = sample_cpus jiffies_to_usecs t read cpus 0 infos in
    let (calls, info) = scale t policy load (infos' self) in (calls, put infos' self info)

-- dbs_cpufreq_notifier: a frequency that has left the policy's limits is given up for the new one.
unfoldable pub dbs_cpufreq_notifier : Policy → ℕ → DbsInfo → DbsInfo
dbs_cpufreq_notifier policy new info =
    if info.enable == 0
    then info
    else (if ltb policy.max info.requested_freq || ltb info.requested_freq policy.min
        then record info { requested_freq = new }
        else info)
