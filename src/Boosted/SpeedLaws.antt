-- ===== src/Boosted/SpeedLaws.antt =====
-- The frequencies that target_freq of the boosted governor asks for.
use android_device_motorola.Prelude.{
  ℕ, ◌^◌, ◌≤◌, ◌<◌, ◌≡◌, ◌≢◌, ◌⊎◌, Bool, true, false, Option, none, some, List, [], ◌∷◌, ◌==◌,
  if◌then◌else◌, sltb, refl, arith, if_cases,
}
use android_device_motorola.Cpufreq.{Policy, Relation, relation_l, relation_h, Call, driver_target}
use android_device_motorola.Boosted.State.{Tunables}
use android_device_motorola.Boosted.Speed.{
  ideal_speed, validate_freq, Lookup, found_freq, retry_target, change_freq, target_freq,
}

-- The limits of a policy, which are small enough for an `int`.
pub record Limits (policy : Policy) : Type 0 where
  pub low : 0 < policy.min
  pub ordered : policy.min ≤ policy.max
  pub high : policy.max < 2 ^ 31

-- What cpufreq_frequency_table_target promises for a table with the frequencies `In`, all of them
-- within the limits: the highest one at or below the target, or the lowest one at or above it, and
-- the nearest one on the other side where there is none. It finds one if there is any.
pub record Serves (policy : Policy) (In : ℕ → Type 0) (table : Lookup) : Type 0 where
  pub within : (k : ℕ) → In k → (policy.min ≤ k) × (k ≤ policy.max)
  pub found : (f k : ℕ) (r : Relation) → In k → (g : ℕ) × (table f r ≡ some g)
  pub member : (f g : ℕ) (r : Relation) → table f r ≡ some g → In g
  pub at_most : (f g k : ℕ) → table f relation_h ≡ some g → In k → k ≤ f → (k ≤ g) × (g ≤ f)
  pub over : (f g k : ℕ) → table f relation_h ≡ some g → In k → f < g → g ≤ k
  pub at_least : (f g k : ℕ) → table f relation_l ≡ some g → In k → f ≤ k → (g ≤ k) × (f ≤ g)
  pub under : (f g k : ℕ) → table f relation_l ≡ some g → In k → g < f → k ≤ g

-- The ideal speed lies within the limits of the policy, and is the tunable of the state, awake or
-- suspended, where that lies within them.
pub ideal_speed_between :
    (t : Tunables) (policy : Policy) (suspend : Bool)
    → policy.min ≤ policy.max
    → let wanted = if suspend then t.sleep_ideal_freq else t.awake_ideal_freq in
      let ideal = ideal_speed t policy suspend in
      (policy.min ≤ ideal)
      × (ideal ≤ policy.max)
      × ((ideal ≡ wanted) ⊎ (wanted ≤ policy.min) ⊎ (policy.max ≤ wanted))
unfolding ideal_speed
ideal_speed_between t policy true h = ground arith
ideal_speed_between t policy false h = ground arith

pub validate_freq_between :
    (policy : Policy) (freq : ℕ)
    → Limits policy
    → freq < 2 ^ 32
    → (policy.min ≤ validate_freq policy freq) × (validate_freq policy freq ≤ policy.max)
unfolding validate_freq
validate_freq_between policy freq l h = ground (arith, l.ordered, l.high)

-- What a call of target_freq does: it asks for a frequency that satisfies `P` and returns it, or it
-- asks for nothing, returns 0, and `Q` holds.
pub data Asks (P : ℕ → Type 0) (Q : Type 0) : List Call × ℕ → Type 0 where
  asked : {f : ℕ} {r : Relation} → P f → Asks P Q (driver_target f r ∷ [], f)
  kept : Q → Asks P Q ([], 0)

pub Asks-map :
    {P P' : ℕ → Type 0} {Q Q' : Type 0} {r : List Call × ℕ}
    → ((f : ℕ) → P f → P' f)
    → (Q → Q')
    → Asks P Q r
    → Asks P' Q' r
Asks-map p q (asked {f} h) = asked (p f h)
Asks-map p q (kept h) = kept (q h)

module _ {policy : Policy} {In : ℕ → Type 0} {table : Lookup} (l : Limits policy)
    (s : Serves policy In table) where
  -- A frequency within the limits that is not the old one.
  abbrev Fresh : ℕ → ℕ → Type 0
  Fresh old f = (policy.min ≤ f) × (f ≤ policy.max) × (f ≢ old)

  found_freq-In :
      (o : Option ℕ) (f g : ℕ) (r : Relation) → table f r ≡ o → In g → In (found_freq o g)
  found_freq-In none f g r e i = i
  found_freq-In (some h) f g r e i = s.member f h r e

  retry-In : (new old g : ℕ) (r : Relation) → In g → In (retry_target table new old r g)
  unfolding retry_target
  retry-In new old g relation_h i =
      if_cases In (sltb old new) (λ e. found_freq-In (table new relation_l) new g relation_l refl i)
        (λ e. i)
  retry-In new old g relation_l i =
      if_cases In (sltb new old) (λ e. found_freq-In (table new relation_h) new g relation_h refl i)
        (λ e. i)

  change_freq-Fresh :
      (new old : ℕ) (r : Relation) (o : Option ℕ)
      → policy.min ≤ new
      → new ≤ policy.max
      → new ≢ old
      → table new r ≡ o
      → Asks (Fresh old) (Unit {0}) (change_freq table new old r o)
  unfolding change_freq
  change_freq-Fresh new old r none a b c e = asked (a, b, c)
  change_freq-Fresh new old r (some g) a b c e =
      let target = if g == old then retry_target table new old r g else g in
      let i : In g = s.member new g r e in
      let j : In target = if_cases In (g == old) (λ _. retry-In new old g r i) (λ _. i) in
      if_cases (Asks (Fresh old) (Unit {0})) (target == old) (λ _. kept tt)
        (λ d. asked ((s.within target j).0, (s.within target j).1, ground arith))

  -- Whatever 32 bits are asked of it, target_freq asks the driver at most once, for a frequency
  -- within the limits that is not the old one, and returns that frequency, or 0 without a call. The
  -- limits are ordered and fit an `int`, and the table keeps its promises.
  pub target_freq-Fresh :
      (freq old : ℕ) (r : Relation)
      → freq < 2 ^ 32
      → Asks (Fresh old) (Unit {0}) (target_freq table policy freq old r)
  unfolding target_freq
  target_freq-Fresh freq old r h =
      let new = validate_freq policy freq in
      let (a, b) = validate_freq_between policy freq l h in
      let A = Asks (Fresh old) (Unit {0}) in
      if_cases A (freq == old) (λ _. kept tt)
        (λ _.
          if_cases A (new == old) (λ _. kept tt)
            (λ d. change_freq-Fresh new old r (table new r) a b (ground arith) refl))
