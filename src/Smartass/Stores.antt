-- ===== src/Smartass/Stores.antt =====
-- The sysfs attributes of the smartass governor: the store_ and show_ functions of its tunables.
use android_device_motorola.Prelude.{
  ℕ, ◌≤◌, ◌<◌, ◌≡◌, Bool, true, ◌&&◌, Option, none, some, leb, ltb, if◌then◌else◌, arith, refl,
  ◌==◌, Bool-cases, inl, inr,
}
use android_device_motorola.Smartass.State.{Tunables}
use android_device_motorola.Smartass.Governor.{default_tunables}

pub data Attr : Type 0 where
  down_rate_us up_min_freq sleep_max_freq sleep_wakeup_freq awake_min_freq : Attr
  sample_rate_jiffies ramp_up_step max_ramp_down max_cpu_load min_cpu_load : Attr

-- The condition of each store function on the number that was read.
unfoldable pub accepts : Attr → ℕ → Bool
accepts down_rate_us n = leb 1000 n && leb n 100000000
accepts sample_rate_jiffies n = ltb 0 n && leb n 1000
accepts max_cpu_load n = ltb 0 n && leb n 100
accepts min_cpu_load n = ltb 0 n && ltb n 100
accepts _ n = true

unfoldable pub assign : Attr → ℕ → Tunables → Tunables
assign down_rate_us n t = record t { down_rate_us = n }
assign up_min_freq n t = record t { up_min_freq = n }
assign sleep_max_freq n t = record t { sleep_max_freq = n }
assign sleep_wakeup_freq n t = record t { sleep_wakeup_freq = n }
assign awake_min_freq n t = record t { awake_min_freq = n }
assign sample_rate_jiffies n t = record t { sample_rate_jiffies = n }
assign ramp_up_step n t = record t { ramp_up_step = n }
assign max_ramp_down n t = record t { max_ramp_down = n }
assign max_cpu_load n t = record t { max_cpu_load = n }
assign min_cpu_load n t = record t { min_cpu_load = n }

-- A store function. The kernel's `strict_strtoul` gives the number, or `none` for its error; the
-- function returns `count` in both cases.
unfoldable pub store : Attr → Option ℕ → Tunables → Tunables
unfolding accepts assign
store a none t = t
store a (some n) t = if accepts a n then assign a n t else t

-- What a show function prints.
unfoldable pub show : Attr → Tunables → ℕ
show down_rate_us t = t.down_rate_us
show up_min_freq t = t.up_min_freq
show sleep_max_freq t = t.sleep_max_freq
show sleep_wakeup_freq t = t.sleep_wakeup_freq
show awake_min_freq t = t.awake_min_freq
show sample_rate_jiffies t = t.sample_rate_jiffies
show ramp_up_step t = t.ramp_up_step
show max_ramp_down t = t.max_ramp_down
show max_cpu_load t = t.max_cpu_load
show min_cpu_load t = t.min_cpu_load

-- The ranges that the store functions keep to.
pub record InRange (t : Tunables) : Type 0 where
  pub rate_low : 1000 ≤ t.down_rate_us
  pub rate_high : t.down_rate_us ≤ 100000000
  pub sample_low : 0 < t.sample_rate_jiffies
  pub sample_high : t.sample_rate_jiffies ≤ 1000
  pub max_low : 0 < t.max_cpu_load
  pub max_high : t.max_cpu_load ≤ 100
  pub min_low : 0 < t.min_cpu_load
  pub min_high : t.min_cpu_load < 100

pub default_tunables-InRange : InRange default_tunables
unfolding default_tunables
default_tunables-InRange = omega arith

-- No write to an attribute, whatever its text, takes a tunable out of its range.
pub store-InRange :
    (a : Attr) (text : Option ℕ) (t : Tunables) → InRange t → InRange (store a text t)
unfolding store
store-InRange down_rate_us none t h = h
store-InRange down_rate_us (some n) t h = ground arith
store-InRange _ none t h = h
store-InRange _ (some n) t h = ground arith

-- Which attribute a value names.
abbrev pub index : Attr → ℕ
index down_rate_us = 0
index up_min_freq = 1
index sleep_max_freq = 2
index sleep_wakeup_freq = 3
index awake_min_freq = 4
index sample_rate_jiffies = 5
index ramp_up_step = 6
index max_ramp_down = 7
index max_cpu_load = 8
index min_cpu_load = 9

-- What attribute `b`, which read as `old`, reads as after a write to attribute `a`.
abbrev pub expected : Attr → Attr → Option ℕ → ℕ → ℕ
expected a b none old = old
expected a b (some n) old = if index a == index b && accepts a n then n else old

show-assign :
    (a b : Attr) (n : ℕ) (t : Tunables)
    → show b (assign a n t) ≡ (if index a == index b then n else show b t)
unfolding show assign
show-assign down_rate_us down_rate_us n t = refl
show-assign down_rate_us b n t = refl
show-assign up_min_freq down_rate_us n t = refl
show-assign up_min_freq b n t = refl
show-assign sleep_max_freq down_rate_us n t = refl
show-assign sleep_max_freq b n t = refl
show-assign sleep_wakeup_freq down_rate_us n t = refl
show-assign sleep_wakeup_freq b n t = refl
show-assign awake_min_freq down_rate_us n t = refl
show-assign awake_min_freq b n t = refl
show-assign sample_rate_jiffies down_rate_us n t = refl
show-assign sample_rate_jiffies b n t = refl
show-assign ramp_up_step down_rate_us n t = refl
show-assign ramp_up_step b n t = refl
show-assign max_ramp_down down_rate_us n t = refl
show-assign max_ramp_down b n t = refl
show-assign max_cpu_load down_rate_us n t = refl
show-assign max_cpu_load b n t = refl
show-assign min_cpu_load down_rate_us n t = refl
show-assign min_cpu_load b n t = refl

-- An attribute reads as the number last written to it, if that was accepted, and as before
-- otherwise; a write to one attribute changes no other.
pub show-store :
    (a b : Attr) (text : Option ℕ) (t : Tunables)
    → show b (store a text t) ≡ expected a b text (show b t)
unfolding store
show-store a b none t = refl
show-store a b (some n) t = elim (Bool-cases (accepts a n)) [
  | inl e ↦ rw e (ground (arith, show-assign a b n t))
  | inr e ↦ rw e (ground arith)
]
