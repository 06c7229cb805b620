-- ===== src/Boosted/WorkLaws.antt =====
-- The direction in which the work function of the boosted governor changes the frequency of a CPU.
use android_device_motorola.Prelude.{
  ℕ, ◌*◌, ◌/◌, ◌^◌, ◌≤◌, ◌<◌, ◌≡◌, ◌≢◌, inl, inr, true, false, List, [], ◌∷◌, ◌++◌, ltb, ◌==◌, ◌!=◌,
  if◌then◌else◌, sltb, refl, arith, Bool-cases, if_cases, sym, subst,
}
use android_device_motorola.Cpufreq.{
  Policy, Clock, Relation, Call, driver_target, mod_timer, del_timer,
}
use android_device_motorola.Boosted.State.{
  Tunables, BoostedInfo, Ramp, ramp_up, ramp_none, ramp_down,
}
use android_device_motorola.Boosted.Speed.{Lookup, target_freq}
use android_device_motorola.Boosted.SpeedLaws.{Limits, Serves, Asks, asked, kept}
use android_device_motorola.Boosted.RampUp.{AllBelow, target_freq-up}
use android_device_motorola.Boosted.RampDown.{AllAbove, target_freq-down}
use android_device_motorola.Boosted.Timer.{reset_timer, decide}
use android_device_motorola.Boosted.Sampling.{Justified, decide_lem}
use android_device_motorola.Boosted.Work.{
  ramp_freq, allowed_ramp, chosen_freq, Reading, after_target, work_step,
}

-- Settings under which no number overflows: loads in percent, and frequencies and steps that stay
-- small.
pub record Fits (t : Tunables) (policy : Policy) : Type 0 where
  pub max_load_low : 0 < t.max_cpu_load
  pub loads : t.min_cpu_load ≤ t.max_cpu_load
  pub min_load_high : t.min_cpu_load < 100
  pub freqs : policy.max * 100 < 2 ^ 32
  pub up_fits : t.ramp_up_step < 2 ^ 30
  pub down_fits : t.ramp_down_step < 2 ^ 31

-- The state of a CPU whose ramp is justified, with its frequency as the timer has seen it.
pub record Queued (t : Tunables) (policy : Policy) (info : BoostedInfo) : Type 0 where
  pub same : info.old_freq ≡ policy.cur
  pub justified : Justified t policy info.cur_cpu_load info.ramp_dir
  pub ideal_low : policy.min ≤ info.ideal_speed
  pub ideal_high : info.ideal_speed ≤ policy.max
  pub cur_low : policy.min ≤ policy.cur
  pub cur_high : policy.cur ≤ policy.max

module _ (t : Tunables) (policy : Policy) (fits : Fits t policy) (l : Limits policy) where
  ramp_freq-up :
      (info : BoostedInfo) (relation : Relation)
      → Queued t policy info
      → policy.cur < policy.max
      → let freq = (ramp_freq t info policy relation ramp_up).0 in
        (policy.cur < freq) × (freq < 2 ^ 31)
  unfolding ramp_freq
  ramp_freq-up info relation q h =
      ground (arith, q.same, q.ideal_high, q.cur_high, fits.freqs, fits.up_fits, l.high)

  scaled_down : (cur load max_load : ℕ) → 0 < cur → load < max_load → cur * load / max_load < cur
  scaled_down cur load max_load p h = grind arith

  product_fits :
      (cur load max : ℕ) → cur ≤ max → load < 100 → max * 100 < 2 ^ 32 → cur * load < 2 ^ 32
  product_fits cur load max p q h = grind arith

  ramp_freq-down :
      (info : BoostedInfo) (relation : Relation)
      → Queued t policy info
      → policy.min < policy.cur
      → info.cur_cpu_load < t.min_cpu_load
      → let freq = (ramp_freq t info policy relation ramp_down).0 in
        (sltb freq policy.cur ≡ true) × (freq < 2 ^ 32)
  unfolding ramp_freq
  ramp_freq-down info relation q h low =
      let product =
        product_fits policy.cur info.cur_cpu_load policy.max q.cur_high
          (omega (arith, fits.min_load_high)) fits.freqs in
      let scaled =
        scaled_down policy.cur info.cur_cpu_load t.max_cpu_load (omega arith)
          (omega (arith, fits.loads)) in
      ground (arith, q.same, q.ideal_low, q.cur_high, fits.down_fits, l.high, product, scaled)

-- The calls of the work for a CPU: it asks for a frequency that satisfies `P` and starts a new
-- sample below the maximum, or stops the timer at it; or it asks for nothing, `Q` holds, and it
-- starts a new sample.
pub data Round (r : Reading) (P : ℕ → Type 0) (Q : Type 0) : List Call → Type 0 where
  sampled :
      {f expires : ℕ} {relation : Relation}
      → P f
      → f < r.policy.max
      → Round r P Q (driver_target f relation ∷ mod_timer expires ∷ [])
  full :
      {f : ℕ} {relation : Relation}
      → P f
      → r.policy.max ≤ f
      → Round r P Q (driver_target f relation ∷ (if r.pending then del_timer ∷ [] else []))
  kept_freq : {expires : ℕ} → Q → Round r P Q (mod_timer expires ∷ [])

after_target-Round :
    {P : ℕ → Type 0} {Q : Type 0} (t : Tunables) (r : Reading) (info : BoostedInfo)
    (c : List Call × ℕ)
    → 0 < r.policy.max
    → Asks P Q c
    → Round r P Q (c.0 ++ (after_target t r c.1 info).0)
unfolding after_target reset_timer
after_target-Round {P} {Q} t r info _ pos (asked {f} p) = elim (Bool-cases (ltb f r.policy.max)) [
  | inl e ↦ rw e (sampled p (ground arith))
  | inr e ↦ rw e (full p (ground arith))
]
after_target-Round {P} {Q} t r info _ pos (kept q) =
    let e : ltb 0 r.policy.max ≡ true = ground arith in rw e (kept_freq q)

-- What the work does for a CPU whose state has a ramp, when it is allowed.
abbrev pub Moves : Reading → (ℕ → Type 0) → ℕ → Ramp → List Call → Type 0
Moves r In freq ramp_up calls = Round r (λ f. r.policy.cur < f) (AllBelow In freq) calls
Moves r In freq ramp_down calls = Round r (λ f. f < r.policy.cur) (AllAbove In freq) calls
Moves r In freq ramp_none calls = Round r (λ f. f ≢ f) (Unit {0}) calls

target_freq-same :
    (table : Lookup) (policy : Policy) (f : ℕ) (relation : Relation)
    → target_freq table policy f f relation ≡ ([], 0)
unfolding target_freq
target_freq-same table policy f relation = let same : (f == f) ≡ true = ground arith in rw same refl

no_ramp :
    (t : Tunables) (r : Reading) (info : BoostedInfo) (relation : Relation)
    → let (freq, relation') = ramp_freq t info r.policy relation ramp_none in
      Asks (λ f. f ≢ f) (Unit {0}) (target_freq r.table r.policy freq info.old_freq relation')
unfolding ramp_freq
no_ramp t r info relation = rw (target_freq-same r.table r.policy info.old_freq relation) (kept tt)

module _ (t : Tunables) (r : Reading) {In : ℕ → Type 0} (fits : Fits t r.policy)
    (l : Limits r.policy) (s : Serves r.policy In r.table) where
  ramp-Moves :
      (info after : BoostedInfo) (relation : Relation) (dir : Ramp)
      → Queued t r.policy info
      → In r.policy.cur
      → Justified t r.policy info.cur_cpu_load dir
      → let (freq, relation') = ramp_freq t info r.policy relation dir in
        let c = target_freq r.table r.policy freq info.old_freq relation' in
        Moves r In freq dir (c.0 ++ (after_target t r c.1 after).0)
  ramp-Moves info after relation ramp_up q i j =
      let c = ramp_freq t info r.policy relation ramp_up in
      let (higher, fit) = ramp_freq-up t r.policy fits l info relation q j in
      after_target-Round t r after _ (omega (arith, l.low, l.ordered)) (
        subst
          (λ old.
            Asks (λ f. r.policy.cur < f) (AllBelow In c.0)
              (target_freq r.table r.policy c.0 old c.1))
          (sym q.same) (target_freq-up l s c.0 r.policy.cur c.1 i higher fit))
  ramp-Moves info after relation ramp_down q i j =
      let c = ramp_freq t info r.policy relation ramp_down in
      let (lower, fit) = ramp_freq-down t r.policy fits l info relation q j.0 j.1 in
      after_target-Round t r after _ (omega (arith, l.low, l.ordered)) (
        subst
          (λ old.
            Asks (λ f. f < r.policy.cur) (AllAbove In c.0)
              (target_freq r.table r.policy c.0 old c.1))
          (sym q.same) (target_freq-down l s c.0 r.policy.cur c.1 i lower fit))
  ramp-Moves info after relation ramp_none q i j =
      after_target-Round t r after _ (omega (arith, l.low, l.ordered)) (no_ramp t r info relation)

  allowed-Justified :
      (load : ℕ) (dir : Ramp)
      → Justified t r.policy load dir
      → Justified t r.policy load (allowed_ramp dir r.nr_running)
  allowed-Justified load ramp_up j =
      if_cases (Justified t r.policy load) (ltb 1 r.nr_running) (λ _. j) (λ _. tt)
  allowed-Justified load ramp_down j = j
  allowed-Justified load ramp_none j = j

  -- A CPU whose frequency is as the timer saw it and whose ramp is justified asks in one round for
  -- a frequency above its own on a ramp up, unless only one task runs, and below its own on a ramp
  -- down; or the table holds none up to the frequency that was chosen, or down to it, and it asks
  -- for nothing, as without a ramp. It then starts a new sample, or stops its timer at the maximum.
  pub work_step-Moves :
      (info : BoostedInfo) (relation : Relation)
      → Queued t r.policy info
      → In r.policy.cur
      → Moves r In
          (chosen_freq t info r.policy r.nr_running relation).0
          (allowed_ramp info.ramp_dir r.nr_running)
          (work_step t r relation info).0
  unfolding work_step chosen_freq
  work_step-Moves info relation q i =
      let unchanged : (info.old_freq != r.policy.cur) ≡ false = ground (arith, q.same) in
      rw unchanged (
        ramp-Moves info (record info { ramp_dir = ramp_none }) relation
          (allowed_ramp info.ramp_dir r.nr_running) q i
          (allowed-Justified info.cur_cpu_load info.ramp_dir q.justified))

-- What the work finds of a CPU that the timer has decided about, as long as its policy stays.
pub decide-Queued :
    (t : Tunables) (jiffies : ℕ) (policy : Policy) (now again : Clock) (info : BoostedInfo)
    (cpu_load : ℕ)
    → policy.min ≤ info.ideal_speed
    → info.ideal_speed ≤ policy.max
    → policy.min ≤ policy.cur
    → policy.cur ≤ policy.max
    → Queued t policy (decide t jiffies policy now again info cpu_load).1
decide-Queued t jiffies policy now again info cpu_load a b c d =
    let (same, load, ideal, j) = decide_lem t jiffies policy now again info cpu_load in
    let after = (decide t jiffies policy now again info cpu_load).1 in
    record {
      same = same;
      justified = subst (λ x. Justified t policy x after.ramp_dir) (sym load) j;
      ideal_low = omega arith;
      ideal_high = omega arith;
      cur_low = c;
      cur_high = d;
    }

module _ (t : Tunables) (r : Reading) {In : ℕ → Type 0} (fits : Fits t r.policy)
    (l : Limits r.policy) (s : Serves r.policy In r.table) where
  -- Where the timer has decided about a CPU and its policy stays, the round of the work for that
  -- CPU asks for a frequency above its own if the timer chose a ramp up and more than one task
  -- runs, and below its own if it chose a ramp down; or the table holds none up to the frequency
  -- that was chosen, or down to it, and it asks for nothing, as without a ramp. It then starts a
  -- new sample, or stops its timer at the maximum. The policy, the table and the tunables are as
  -- they should be, the ideal speed is within the limits, and the table has the frequency of the
  -- CPU.
  pub decide-work_step :
      (jiffies : ℕ) (now again : Clock) (old : BoostedInfo) (cpu_load : ℕ) (relation : Relation)
      → r.policy.min ≤ old.ideal_speed
      → old.ideal_speed ≤ r.policy.max
      → In r.policy.cur
      → let info = (decide t jiffies r.policy now again old cpu_load).1 in
        Moves r In
          (chosen_freq t info r.policy r.nr_running relation).0
          (allowed_ramp info.ramp_dir r.nr_running)
          (work_step t r relation info).0
  decide-work_step jiffies now again old cpu_load relation a b i =
      let info = (decide t jiffies r.policy now again old cpu_load).1 in
      let (low, high) = s.within r.policy.cur i in
      work_step-Moves t r fits l s info relation
        (decide-Queued t jiffies r.policy now again old cpu_load a b low high) i
