-- ===== src/Smartass/Load.antt =====
-- The loads that the smartass governor measures, and when its timer asks for another frequency.
use android_device_motorola.Prelude.{
  ℕ, ◌+◌, ◌*◌, ◌-◌, ◌/◌, ◌≤◌, ◌<◌, ◌≡◌, ◌⊎◌, inl, inr, Bool, true, false, not, ◌||◌, none, some,
  ◌≢◌, List, [], ◌∷◌, ltb, ◌==◌, if◌then◌else◌, u32, sub64, arith, refl, Bool-cases,
}
use native.Mathlib.Nat.{div-le_of_le-mul, div-eq_of_lt}
use android_device_motorola.Cpufreq.{Policy, Clock, Call, percent32}
use android_device_motorola.Smartass.State.{Tunables, SmartassInfo}
use android_device_motorola.Smartass.Timer.{
  Handled, reset_timer, load_over, sample_idle, sample_time, decide, greater_load,
  cpufreq_smartass_timer,
}

-- A call is among those that a handler makes.
abbrev pub Makes : Call → List Call → Type 0
Makes c [] = ⊥
Makes c (x ∷ l) = (x ≡ c) ⊎ Makes c l

-- The longest time, in microseconds, over which `100 * busy` fits 32 bits.
abbrev pub max_window : ℕ
max_window = 42949672

-- Within the window a share of the time is a percentage.
pub percent32_bounds :
    (busy total : ℕ)
    → busy ≤ total
    → 0 < total
    → total ≤ max_window
    → (p : ℕ) × (percent32 busy total ≡ some p)
      × (p ≤ 100)
      × (p * total ≤ 100 * busy)
      × (100 * busy < (p + 1) * total)
unfolding percent32
percent32_bounds busy total h z w =
    let t : u32 total ≡ total = omega arith in
    let b : u32 busy ≡ busy = omega arith in
    let p : u32 (100 * busy) ≡ 100 * busy = omega arith in
    let n : (total == 0) ≡ false = ground arith in
    (
      100 * busy / total,
      rw (t, b, p, n) refl,
      div-le_of_le-mul total (omega arith),
      omega arith,
      omega arith,
    )

-- Just beyond it a CPU that was busy all the time reads as idle.
pub percent32_wraps :
    (total : ℕ) → max_window < total → total < 43383508 → percent32 total total ≡ some 0
unfolding percent32
percent32_wraps total h k =
    let t : u32 total ≡ total = omega arith in
    let p : u32 (100 * total) / total ≡ 0 = div-eq_of_lt (omega arith) in
    let n : (total == 0) ≡ false = ground arith in rw (t, n, p) refl

load_over_bounds :
    (delta_idle delta_time : ℕ)
    → 0 < delta_time
    → delta_time ≤ max_window
    → (p : ℕ) × (load_over delta_idle delta_time ≡ some p) × (p ≤ 100)
unfolding load_over
load_over_bounds i d z w = elim (Bool-cases (ltb d i)) [
  | inl e ↦ (0, rw e refl, omega arith)
  | inr e ↦ let (p, q, b, _, _) = percent32_bounds (d - i) d (omega arith) z w in (p, rw e q, b)
]

-- A load over no time without idle time is a division by 0, and every other one a percentage.
load_over_cases :
    (i d : ℕ)
    → d ≤ max_window
    → ((d ≡ 0) × (i ≡ 0) × (load_over i d ≡ none))
      ⊎ ((p : ℕ) × (load_over i d ≡ some p) × (p ≤ 100) × ((0 < d) ⊎ (0 < i)))
unfolding load_over percent32
load_over_cases i d w = elim (Bool-cases (d == 0)) [
  | inr e ↦
      let (p, q, b) = load_over_bounds i d (ground arith) w in inr (p, q, b, inl (ground arith))
  | inl e ↦
      let z : d ≡ 0 = ground arith in
      elim (Bool-cases (i == 0)) [
        | inl f ↦ let y : i ≡ 0 = ground arith in inl (z, y, rw (z, y) refl)
        | inr f ↦
            let grew : ltb d i ≡ true = ground arith in
            inr (0, rw grew refl, omega arith, inr (ground arith))
      ]
]

-- The greater of two percentages is one.
greater_load_bounds :
    (a b : ℕ)
    → a ≤ 100
    → b ≤ 100
    → (greater_load a b ≤ 100) × (a ≤ greater_load a b) × (b ≤ greater_load a b)
greater_load_bounds a b h k = ground arith

-- The load is recorded, and nothing else of the measured state changes.
decide-load :
    (t : Tunables) (jiffies nr : ℕ) (pending : Bool) (policy : Policy) (now again : Clock)
    (load : ℕ) (info : SmartassInfo)
    → (decide t jiffies nr pending policy now again load info).1.cur_cpu_load ≡ load
unfolding decide
decide-load t jiffies nr pending policy now again load info = ground arith

-- The sampling windows of a CPU at a time are short enough to be multiplied by 100.
pub record Windows (now : Clock) (info : SmartassInfo) : Type 0 where
  pub change_le : sub64 now.wall info.freq_change_time ≤ max_window
  pub sample_le : sample_time now info ≤ max_window

-- A sample has ended, and neither time nor idle time has passed since the last change of frequency.
abbrev pub NoTime : Clock → SmartassInfo → Type 0
NoTime now info =
    (info.idle_exit_time ≢ 0)
    × (now.wall ≢ info.idle_exit_time)
    × (sub64 now.wall info.freq_change_time ≡ 0)
    × (sub64 now.idle info.freq_change_time_in_idle ≡ 0)

after_long :
    (t : Tunables) (jiffies nr : ℕ) (pending : Bool) (policy : Policy) (now again : Clock)
    (info : SmartassInfo) (long : ℕ)
    → sample_time now info ≤ max_window
    → info.cur_cpu_load ≤ 100
    → (info.idle_exit_time == 0 || now.wall == info.idle_exit_time) ≡ false
    → load_over
        (sub64 now.idle info.freq_change_time_in_idle)
        (sub64 now.wall info.freq_change_time)
      ≡ some long
    → long ≤ 100
    → (r : Handled) × (cpufreq_smartass_timer t jiffies nr pending policy now again info ≡ some r)
      × (r.1.cur_cpu_load ≤ 100)
unfolding cpufreq_smartass_timer
after_long t jiffies nr pending policy now again info long w c e el bl =
    elim (Bool-cases (ltb (sample_time now info) 1000)) [
      | inl f ↦ (
        if not pending then reset_timer t jiffies again info else ([], info),
        rw (e, f, el) refl,
        ground arith,
      )
      | inr f ↦
          let (short, es, bs) =
            load_over_bounds (sample_idle now info) (sample_time now info) (ground arith) w in
          (
            decide t jiffies nr pending policy now again (greater_load long short) info,
            rw (e, f, el, es) refl,
            omega (
              arith,
              decide-load t jiffies nr pending policy now again (greater_load long short) info,
              greater_load_bounds long short bl bs,
            ),
          )
    ]

-- With both windows short enough to be multiplied by 100 and a load that was a percentage before:
-- where a sample has ended and neither time nor idle time has passed since the last change of
-- frequency, the timer divides by 0; in every other case it does not, and the load that it leaves
-- is a percentage.
pub cpufreq_smartass_timer-load :
    (t : Tunables) (jiffies nr : ℕ) (pending : Bool) (policy : Policy) (now again : Clock)
    (info : SmartassInfo)
    → Windows now info
    → info.cur_cpu_load ≤ 100
    → let timer = cpufreq_smartass_timer t jiffies nr pending policy now again info in
      (NoTime now info × (timer ≡ none))
      ⊎ (¬ NoTime now info × ((r : Handled) × (timer ≡ some r) × (r.1.cur_cpu_load ≤ 100)))
unfolding cpufreq_smartass_timer
cpufreq_smartass_timer-load t jiffies nr pending policy now again info w c =
    elim (Bool-cases (info.idle_exit_time == 0 || now.wall == info.idle_exit_time)) [
      | inl e ↦ inr (λ z. ground arith, (([], info), rw e refl, c))
      | inr e ↦
          elim (load_over_cases (sub64 now.idle info.freq_change_time_in_idle)
            (sub64 now.wall info.freq_change_time) w.change_le) [
              | inl (d, i, n) ↦ inl ((ground arith, ground arith, d, i), divides e n)
              | inr (p, q, b, passed) ↦ inr (
                λ (_, _, d, i). elim passed [ inl h ↦ omega (arith) | inr h ↦ omega (arith) ],
                after_long t jiffies nr pending policy now again info p w.sample_le c e q b,
              )
            ]
    ]
  where
    divides :
        (info.idle_exit_time == 0 || now.wall == info.idle_exit_time) ≡ false
        → load_over
            (sub64 now.idle info.freq_change_time_in_idle)
            (sub64 now.wall info.freq_change_time)
          ≡ none
        → cpufreq_smartass_timer t jiffies nr pending policy now again info ≡ none
    divides e n = elim (Bool-cases (ltb (sample_time now info) 1000)) [
      | inl f ↦ rw (e, f, n) refl
      | inr f ↦ rw (e, f, n) refl
    ]
