-- ===== src/Conservative/CheckLaws.antt =====
-- The frequency that the conservative governor requests.
use android_device_motorola.Prelude.{
  ==_refl, length, put, ℕ, ◌+◌, ◌*◌, ◌^◌, ◌≤◌, ◌<◌, ◌≡◌, ◌≢◌, ◌⊎◌, inl, inr, true, false, ◌||◌,
  List, [], ◌∷◌, ltb, ◌==◌, u32, arith, refl, Bool-cases, min, max, ◌∙◌, if◌then◌else◌, ◌-◌,
}
use native.Mathlib.Nat.{mul-le-mul_right, mod-eq_of_lt, div-le_of_le-mul}
use android_device_motorola.Cpufreq.{Policy, relation_h, Call, driver_target}
use android_device_motorola.Conservative.State.{Tuners, DbsInfo, Sample}
use android_device_motorola.Conservative.Check.{
  sampled, step_target, raised, lowered, scale, load_after, sample_cpus, idle_time, wall_time,
  dbs_check_cpu, dbs_cpufreq_notifier,
}

-- A policy with ordered limits that can be multiplied by a percentage in 32 bits.
pub record Sane (t : Tuners) (policy : Policy) : Type 0 where
  pub limits : policy.min ≤ policy.max
  pub fits : policy.max * 100 < 2 ^ 32
  pub step : t.freq_step ≤ 100

-- A frequency within the limits of the policy.
abbrev pub Within : Policy → ℕ → Type 0
Within policy f = (policy.min ≤ f) × (f ≤ policy.max)

step_target-le : (t : Tuners) (policy : Policy) → Sane t policy → step_target t policy ≤ policy.max
unfolding step_target
step_target-le t policy s =
    let p : t.freq_step * policy.max ≤ 100 * policy.max = mul-le-mul_right policy.max s.step in
    let m : u32 (t.freq_step * policy.max) ≡ t.freq_step * policy.max =
      mod-eq_of_lt (omega (arith, s.fits)) in
    rw m (div-le_of_le-mul 100 p)

raised-Within :
    (t : Tuners) (policy : Policy) (f : ℕ)
    → Sane t policy
    → Within policy f
    → Within policy (raised t policy f)
      × ((raised t policy f ≡ policy.max) ⊎ (f < raised t policy f))
unfolding raised
raised-Within t policy f s w = ground (arith, step_target-le t policy s)

lowered-Within :
    (t : Tuners) (policy : Policy) (f : ℕ)
    → Sane t policy
    → Within policy f
    → step_target t policy ≤ f
    → Within policy (lowered t policy f) × (lowered t policy f ≤ f)
unfolding lowered
lowered-Within t policy f s w h = ground (arith, step_target-le t policy s)

-- Every call asks for the frequency that is now requested, which lies within the limits.
abbrev pub AsksRequested : Policy → List Call × DbsInfo → Type 0
AsksRequested policy (calls, info) =
    Within policy info.requested_freq
    × ((calls ≡ []) ⊎ (calls ≡ driver_target info.requested_freq relation_h ∷ []))

-- The requested frequency stays within the policy's limits whatever the load is, and only it is
-- asked for, if the step down is not larger than the frequency that was requested.
pub scale-Within :
    (t : Tuners) (policy : Policy) (load : ℕ) (info : DbsInfo)
    → Sane t policy
    → Within policy info.requested_freq
    → step_target t policy ≤ info.requested_freq
    → AsksRequested policy (scale t policy load info)
unfolding scale
scale-Within t policy load info s w h = ground (
  arith,
  raised-Within t policy info.requested_freq s w,
  lowered-Within t policy info.requested_freq s w h,
)

raised_lem :
    (t : Tuners) (policy : Policy) (f : ℕ)
    → Sane t policy
    → Within policy f
    → let step = step_target t policy in
      raised t policy f ≡ min policy.max (f + (if step == 0 then 5 else step))
unfolding raised
raised_lem t policy f s w = ground (arith, step_target-le t policy s)

lowered_lem :
    (t : Tuners) (policy : Policy) (f : ℕ)
    → f < 2 ^ 32
    → step_target t policy ≤ f
    → lowered t policy f ≡ max policy.min (f - step_target t policy)
unfolding lowered
lowered_lem t policy f b h = ground arith

-- For a sane policy, a requested frequency within its limits, a step that does not exceed it and a
-- `down_threshold` of at least 10: with a `freq_step` of 0 the requested frequency stays; else a
-- load above `up_threshold` raises it by the step, or by 5 kHz where that is 0, but not beyond the
-- maximum, one at least 11 points below `down_threshold` lowers it by the step, but not below the
-- minimum, and one between leaves it.
pub scale_direction :
    (t : Tuners) (policy : Policy) (load : ℕ) (info : DbsInfo)
    → Sane t policy
    → Within policy info.requested_freq
    → step_target t policy ≤ info.requested_freq
    → 10 ≤ t.down_threshold
    → t.down_threshold < 2 ^ 32
    → let f = (scale t policy load info).1.requested_freq in
      let step = step_target t policy in
      ((t.freq_step ≡ 0) × (f ≡ info.requested_freq))
      ⊎ ((t.freq_step ≢ 0)
          × (((t.up_threshold < load)
                × (f ≡ min policy.max (info.requested_freq + (if step == 0 then 5 else step))))
              ⊎ ((load ≤ t.up_threshold)
                  × (load + 10 < t.down_threshold)
                  × (f ≡ max policy.min (info.requested_freq - step)))
              ⊎ ((load ≤ t.up_threshold)
                  × (t.down_threshold ≤ load + 10)
                  × (f ≡ info.requested_freq))))
unfolding scale
scale_direction t policy load info s w h d k = ground (
  arith,
  raised_lem t policy info.requested_freq s w,
  lowered_lem t policy info.requested_freq (omega (arith, s.fits)) h,
)

-- For a sane policy and a requested frequency within its limits, a step down that is larger than
-- that frequency wraps around: the frequency that is requested then lies above the maximum.
pub lowered_wraps :
    (t : Tuners) (policy : Policy) (f : ℕ)
    → Sane t policy
    → Within policy f
    → f < step_target t policy
    → policy.max < lowered t policy f
unfolding lowered
lowered_wraps t policy f s w h = ground (arith, step_target-le t policy s)

-- A number of samples in a row with a load above the threshold.
pub rise : Tuners → Policy → List ℕ → DbsInfo → DbsInfo
rise t policy [] info = info
rise t policy (load ∷ loads) info = rise t policy loads (scale t policy load info).1

-- All loads of a list lie above the threshold.
abbrev pub AllHigh : Tuners → List ℕ → Type 0
AllHigh t [] = Unit {0}
AllHigh t (load ∷ loads) = (t.up_threshold < load) × AllHigh t loads

scale_high :
    (t : Tuners) (policy : Policy) (load : ℕ) (info : DbsInfo)
    → Sane t policy
    → Within policy info.requested_freq
    → t.freq_step ≢ 0
    → t.up_threshold < load
    → let f = (scale t policy load info).1.requested_freq in
      Within policy f × (min policy.max (info.requested_freq + max 1 (step_target t policy)) ≤ f)
unfolding scale raised
scale_high t policy load info s w n h = ground (arith, step_target-le t policy s)

rise-ge :
    (t : Tuners) (policy : Policy) (loads : List ℕ) (info : DbsInfo)
    → Sane t policy
    → Within policy info.requested_freq
    → t.freq_step ≢ 0
    → AllHigh t loads
    → let f = (rise t policy loads info).requested_freq in
      Within policy f
      × (min policy.max (info.requested_freq + length loads * max 1 (step_target t policy)) ≤ f)
unfolding rise
rise-ge t policy [] info s w n a = omega arith
rise-ge t policy (load ∷ loads) info s w n a =
    let one = scale_high t policy load info s w n a.0 in
    let rest = rise-ge t policy loads (scale t policy load info).1 s one.0 n a.1 in omega arith

-- For a sane policy, a requested frequency within its limits and a `freq_step` other than 0, enough
-- samples in a row with a load above the threshold bring the requested frequency to the maximum: as
-- many as make up the distance in steps of `step_target`, or of 1 kHz where that is 0.
pub rise_reaches_max :
    (t : Tuners) (policy : Policy) (loads : List ℕ) (info : DbsInfo)
    → Sane t policy
    → Within policy info.requested_freq
    → t.freq_step ≢ 0
    → AllHigh t loads
    → policy.max ≤ info.requested_freq + length loads * max 1 (step_target t policy)
    → (rise t policy loads info).requested_freq ≡ policy.max
rise_reaches_max t policy loads info s w n a h = omega (arith, rise-ge t policy loads info s w n a)

module _ (jiffies_to_usecs : ℕ → ℕ) where
  load_after-le :
      (t : Tuners) (s : Sample) (info : DbsInfo) (load : ℕ)
      → wall_time jiffies_to_usecs s info ≤ 42949672
      → load ≤ 100
      → load_after jiffies_to_usecs t s info load ≤ 100
  unfolding load_after
  load_after-le t s info load h k =
      elim (Bool-cases (
        wall_time jiffies_to_usecs s info == 0
        || ltb (wall_time jiffies_to_usecs s info) (idle_time jiffies_to_usecs t s info))) [
          | inl e ↦ rw e k
          | inr e ↦ rw e (div-le_of_le-mul (wall_time jiffies_to_usecs s info) (omega arith))
        ]

  -- Sampling touches neither the requested frequencies nor who is enabled.
  sample_cpus-requested :
      (t : Tuners) (read : ℕ → Sample) (l : List ℕ) (load : ℕ) (infos : ℕ → DbsInfo) (k : ℕ)
      → let infos' = (sample_cpus jiffies_to_usecs t read l load infos).1 in
        ((infos' k).requested_freq ≡ (infos k).requested_freq)
        × ((infos' k).enable ≡ (infos k).enable)
  unfolding sample_cpus sampled
  sample_cpus-requested t read [] load infos k = (refl, refl)
  sample_cpus-requested t read (j ∷ l) load infos k =
      let infos' = put infos j (sampled jiffies_to_usecs t (read j) (infos j)) in
      let load' = load_after jiffies_to_usecs t (read j) (infos j) load in
      let rest = sample_cpus-requested t read l load' infos' k in
      elim (Bool-cases (k == j)) [
        | inl e ↦ (rest.0 ∙ ground arith, rest.1 ∙ ground arith)
        | inr e ↦ (rest.0 ∙ rw e refl, rest.1 ∙ rw e refl)
      ]

  -- All clocks of the CPUs that are sampled ran for at most 42.9 s.
  abbrev pub AllShort : (ℕ → Sample) → List ℕ → (ℕ → DbsInfo) → Type 0
  AllShort read [] infos = Unit {0}
  AllShort read (j ∷ l) infos =
      (wall_time jiffies_to_usecs (read j) (infos j) ≤ 42949672) × AllShort read l infos

  -- For a sane policy and a frequency within its limits, dbs_check_cpu keeps the requested
  -- frequency of its CPU within the policy's limits and asks for no other, whatever the samples
  -- are, if the step down is not larger than the frequency that was requested; the requested
  -- frequency of every other CPU stays.
  pub dbs_check_cpu-Within :
      (t : Tuners) (policy : Policy) (read : ℕ → Sample) (cpus : List ℕ) (self k : ℕ)
      (infos : ℕ → DbsInfo)
      → Sane t policy
      → Within policy (infos self).requested_freq
      → step_target t policy ≤ (infos self).requested_freq
      → k ≢ self
      → let (calls, infos') = dbs_check_cpu jiffies_to_usecs t policy read cpus self infos in
        AsksRequested policy (calls, infos' self)
        × ((infos' k).requested_freq ≡ (infos k).requested_freq)
  unfolding dbs_check_cpu
  dbs_check_cpu-Within t policy read cpus self k infos s w h n =
      let (load, infos') = sample_cpus jiffies_to_usecs t read cpus 0 infos in
      let same = sample_cpus-requested t read cpus 0 infos self in
      let other = sample_cpus-requested t read cpus 0 infos k in
      let asks = scale-Within t policy load (infos' self) s (omega arith) (omega arith) in
      let e : (self == self) ≡ true = ==_refl self in
      let d : (k == self) ≡ false = ground arith in (rw e asks, rw d other.0)

-- The notifier of a frequency change: a requested frequency outside the limits becomes the new
-- frequency, one within them stays, and so does that of a CPU that the governor does not serve.
pub dbs_cpufreq_notifier_lem :
    (policy : Policy) (new : ℕ) (info : DbsInfo)
    → policy.min ≤ new
    → new ≤ policy.max
    → let f = (dbs_cpufreq_notifier policy new info).requested_freq in
      ((info.enable ≡ 0) × (f ≡ info.requested_freq))
      ⊎ (Within policy f
          × ((f ≡ info.requested_freq) ⊎ ((f ≡ new) × ¬ Within policy info.requested_freq)))
unfolding dbs_cpufreq_notifier
dbs_cpufreq_notifier_lem policy new info h k = ground arith
