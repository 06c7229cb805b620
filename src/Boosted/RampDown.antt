-- ===== src/Boosted/RampDown.antt =====
-- Ramping down: target_freq of the boosted governor, asked for a lower frequency.
use android_device_motorola.Prelude.{
  ℕ, ◌^◌, ◌≤◌, ◌<◌, ◌≡◌, ◌⊎◌, inl, inr, true, false, some, [], ◌∷◌, ◌==◌, if◌then◌else◌, sltb, refl,
  arith, Bool-cases, if_cases,
}
use android_device_motorola.Cpufreq.{Policy, Relation, relation_l, relation_h, driver_target}
use android_device_motorola.Boosted.Speed.{
  validate_freq, Lookup, retry_target, change_freq, target_freq,
}
use android_device_motorola.Boosted.SpeedLaws.{Limits, Serves, Asks, asked, kept, Asks-map}

-- All frequencies of the table are above `freq`, as `int`s are compared.
abbrev pub AllAbove : (ℕ → Type 0) → ℕ → Type 0
AllAbove In freq = (k : ℕ) → In k → sltb freq k ≡ true

module _ {policy : Policy} {In : ℕ → Type 0} {table : Lookup} (l : Limits policy)
    (s : Serves policy In table) where
  -- What the table answers on the way down from a frequency that it holds.
  down_at_most :
      (new old h : ℕ)
      → In old
      → new < old
      → table new relation_h ≡ some h
      → (h ≤ old) × (h ≡ old → AllAbove In new)
  down_at_most new old h i lt e = (
    ground (arith, s.over new h old e i),
    λ same k m. ground (arith, s.at_most new h k e m, s.within k m, l.high),
  )

  down_step :
      (new old h : ℕ) (r : Relation)
      → h ≤ old
      → (h ≡ old → AllAbove In new)
      → Asks
          (λ f. f < old)
          (AllAbove In new)
          (if h == old then ([], 0) else (driver_target h r ∷ [], h))
  down_step new old h r le stuck =
      if_cases (Asks (λ f. f < old) (AllAbove In new)) (h == old) (λ e. kept (stuck (ground arith)))
        (λ e. asked (ground arith))

  -- The frequency of change_freq after the first answer `g` of the table.
  abbrev final_target : ℕ → ℕ → Relation → ℕ → ℕ
  final_target new old r g = if g == old then retry_target table new old r g else g

  retry_down :
      (new old h : ℕ)
      → new < old
      → old < 2 ^ 31
      → table new relation_h ≡ some h
      → retry_target table new old relation_l old ≡ h
  unfolding retry_target
  retry_down new old h lt b e = let down : sltb new old ≡ true = ground arith in rw (down, e) refl

  no_retry_down :
      (new old : ℕ) → new < old → old < 2 ^ 31 → retry_target table new old relation_h old ≡ old
  unfolding retry_target
  no_retry_down new old lt b = let down : sltb old new ≡ false = ground arith in rw down refl

  target_down :
      (new old g : ℕ) (r : Relation)
      → In old
      → new < old
      → old < 2 ^ 31
      → table new r ≡ some g
      → (final_target new old r g ≤ old) × (final_target new old r g ≡ old → AllAbove In new)
  target_down new old g relation_l i lt b e = elim (Bool-cases (g == old)) [
    | inl same ↦
        let (h, eh) = s.found new old relation_h i in
        let is_old : g ≡ old = ground arith in
        rw (same, is_old, retry_down new old h lt b eh) (down_at_most new old h i lt eh)
    | inr other ↦
        rw other ((s.at_least new g old e i (omega arith)).0, λ same k m. absurd (ground arith))
  ]
  target_down new old g relation_h i lt b e = elim (Bool-cases (g == old)) [
    | inl same ↦
        let is_old : g ≡ old = ground arith in
        rw (same, is_old, no_retry_down new old lt b)
          (omega arith, λ _. (down_at_most new old g i lt e).1 is_old)
    | inr other ↦ rw other (down_at_most new old g i lt e)
  ]

  change_down :
      (new old : ℕ) (r : Relation)
      → In old
      → new < old
      → old < 2 ^ 31
      → Asks (λ f. f < old) (AllAbove In new) (change_freq table new old r (table new r))
  unfolding change_freq
  change_down new old r i lt b =
      let (g, e) = s.found new old r i in
      let (le, stuck) = target_down new old g r i lt b e in
      rw e (down_step new old (final_target new old r g) r le stuck)

  -- What validate_freq makes of a frequency below one of the table, as `int`s.
  validate_down :
      (freq old : ℕ)
      → In old
      → sltb freq old ≡ true
      → freq < 2 ^ 32
      → let new = validate_freq policy freq in
        (new ≤ old) × (new < 2 ^ 31) × (sltb new freq ≡ false) × ((new ≡ freq) ⊎ (new ≡ policy.min))
  unfolding validate_freq
  validate_down freq old i lt b = ground (arith, s.within old i, l.ordered, l.high)

  -- Asked for a frequency below the old one, which the table holds, target_freq asks the driver for
  -- one below the old one, or the frequencies of the table all lie above the one it is asked for,
  -- as `int`s are compared; then it returns 0. The table keeps its promises.
  pub target_freq-down :
      (freq old : ℕ) (r : Relation)
      → In old
      → sltb freq old ≡ true
      → freq < 2 ^ 32
      → Asks (λ f. f < old) (AllAbove In freq) (target_freq table policy freq old r)
  unfolding target_freq
  target_freq-down freq old r i lt b =
      let new = validate_freq policy freq in
      let (le, small, capped, which) = validate_down freq old i lt b in
      let A = Asks (λ f. f < old) (AllAbove In freq) in
      let differs : (freq == old) ≡ false = ground arith in
      rw differs (
        if_cases A (new == old) (λ e. kept (λ k m. ground (arith, s.within k m, l.high)))
          (λ e.
            Asks-map (λ f h. h) (λ h k m. ground (arith, h k m, s.within k m, l.high))
              (change_down new old r i (ground arith) (omega (arith, s.within old i, l.high)))))
