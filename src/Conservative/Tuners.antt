-- ===== src/Conservative/Tuners.antt =====
-- The sysfs attributes of the conservative governor: the store_ functions of dbs_tuners_ins.
use android_device_motorola.Prelude.{
  ℕ, ◌≤◌, ◌<◌, ◌≡◌, ◌||◌, Option, none, some, List, [], ◌∷◌, leb, ltb, if◌then◌else◌, arith, ◌==◌,
  ◌!=◌, max, put, subst, Bool-cases, inl, inr,
}
use mathlib.Core.Option.{some-injective}
use android_device_motorola.Conservative.State.{Tuners, DbsInfo, Sample, dbs_tuners_ins}
use android_device_motorola.Conservative.Check.{get_cpu_idle_time}

-- The attributes that change one tunable only.
pub data Attr : Type 0 where
  sampling_down_factor sampling_rate up_threshold down_threshold freq_step : Attr

-- A store function. The number is what `sscanf` reads with "%u", `none` if it reads none. The
-- result `none` is -EINVAL, which leaves the tunables.
unfoldable pub store : ℕ → Attr → Option ℕ → Tuners → Option Tuners
store min_rate a none t = none
store min_rate sampling_down_factor (some n) t =
    if ltb 10 n || ltb n 1 then none else some (record t { sampling_down_factor = n })
store min_rate sampling_rate (some n) t = some (record t { sampling_rate = max n min_rate })
store min_rate up_threshold (some n) t =
    if ltb 100 n || leb n t.down_threshold then none else some (record t { up_threshold = n })
store min_rate down_threshold (some n) t =
    if ltb n 11 || ltb 100 n || leb t.up_threshold n
    then none
    else some (record t { down_threshold = n })
store min_rate freq_step (some n) t = some (record t { freq_step = if ltb 100 n then 100 else n })

-- The loop of store_ignore_nice_load over the online CPUs.
unfoldable pub resample : (ℕ → ℕ) → ℕ → (ℕ → Sample) → List ℕ → (ℕ → DbsInfo) → ℕ → DbsInfo
resample j2u nice read [] infos = infos
resample j2u nice read (j ∷ rest) infos =
    let now = get_cpu_idle_time j2u (read j) in
    resample j2u nice read rest (
      put infos j (record (infos j) {
        prev_cpu_idle = now.idle;
        prev_cpu_wall = now.wall;
        prev_cpu_nice = if nice != 0 then (read j).stat.nice else (infos j).prev_cpu_nice;
      }))

-- store_ignore_nice_load
unfoldable pub store_ignore_nice_load :
    (ℕ → ℕ)
    → (ℕ → Sample)
    → List ℕ
    → Option ℕ
    → Tuners
    → (ℕ → DbsInfo)
    → Option (Tuners × (ℕ → DbsInfo))
unfolding resample
store_ignore_nice_load j2u read online none t infos = none
store_ignore_nice_load j2u read online (some n) t infos =
    let nice = if ltb 1 n then 1 else n in
    if nice == t.ignore_nice
    then some (t, infos)
    else some (record t { ignore_nice = nice }, resample j2u nice read online infos)

-- What the tunables keep to, with the least sampling rate of the governor.
pub record InRange (min_rate : ℕ) (t : Tuners) : Type 0 where
  pub down_least : 11 ≤ t.down_threshold
  pub ordered : t.down_threshold < t.up_threshold
  pub up_most : t.up_threshold ≤ 100
  pub factor_least : 1 ≤ t.sampling_down_factor
  pub factor_most : t.sampling_down_factor ≤ 10
  pub step_most : t.freq_step ≤ 100
  pub nice_bit : t.ignore_nice ≤ 1
  pub rate_least : min_rate ≤ t.sampling_rate

-- The tunables of the module are in range, once the sampling rate is set.
pub dbs_tuners_ins-InRange :
    (min_rate rate : ℕ)
    → min_rate ≤ rate
    → InRange min_rate (record dbs_tuners_ins { sampling_rate = rate })
unfolding dbs_tuners_ins
dbs_tuners_ins-InRange min_rate rate h = omega arith

-- A write that is accepted keeps the tunables in range.
pub store-InRange :
    (min_rate : ℕ) (a : Attr) (text : Option ℕ) (t t' : Tuners)
    → InRange min_rate t
    → store min_rate a text t ≡ some t'
    → InRange min_rate t'
unfolding store
store-InRange min_rate sampling_down_factor none t t' r h = cc
store-InRange min_rate sampling_down_factor (some n) t t' r h = ground arith
store-InRange min_rate _ none t t' r h = cc
store-InRange min_rate _ (some n) t t' r h = ground arith

-- Turning the accounting of niced time on or off keeps the tunables in range.
pub store_ignore_nice_load-InRange :
    (j2u : ℕ → ℕ) (read : ℕ → Sample) (online : List ℕ) (text : Option ℕ) (min_rate : ℕ)
    (t : Tuners) (infos : ℕ → DbsInfo) (out : Tuners × (ℕ → DbsInfo))
    → InRange min_rate t
    → store_ignore_nice_load j2u read online text t infos ≡ some out
    → InRange min_rate out.0
unfolding store_ignore_nice_load
store_ignore_nice_load-InRange j2u read online none min_rate t infos out r h = cc
store_ignore_nice_load-InRange j2u read online (some n) min_rate t infos out r h =
    let nice : ℕ = if ltb 1 n then 1 else n in
    let small : nice ≤ 1 = ground arith in
    elim (Bool-cases (nice == t.ignore_nice)) [
      | inl e ↦ subst (λ o. InRange min_rate o.0) (some-injective _ _ (rw e at h)) r
      | inr e ↦ subst (λ o. InRange min_rate o.0) (some-injective _ _ (rw e at h)) (omega arith)
    ]
