-- ===== src/Boosted/RampUp.antt =====
-- Ramping up: target_freq of the boosted governor, asked for a higher frequency.
use android_device_motorola.Prelude.{
  ℕ, ◌^◌, ◌≤◌, ◌<◌, ◌≡◌, ◌⊎◌, inl, inr, true, false, some, [], ◌∷◌, ◌==◌, if◌then◌else◌, sltb, refl,
  arith, Bool-cases, if_cases,
}
use android_device_motorola.Cpufreq.{Policy, Relation, relation_l, relation_h, driver_target}
use android_device_motorola.Boosted.Speed.{
  validate_freq, Lookup, retry_target, change_freq, target_freq,
}
use android_device_motorola.Boosted.SpeedLaws.{Limits, Serves, Asks, asked, kept, Asks-map}

-- All frequencies of the table are below `freq`.
abbrev pub AllBelow : (ℕ → Type 0) → ℕ → Type 0
AllBelow In freq = (k : ℕ) → In k → k < freq

module _ {policy : Policy} {In : ℕ → Type 0} {table : Lookup} (l : Limits policy)
    (s : Serves policy In table) where
  -- What the table answers on the way up from a frequency that it holds.
  up_at_least :
      (new old h : ℕ)
      → In old
      → old < new
      → table new relation_l ≡ some h
      → (old ≤ h) × (h ≡ old → AllBelow In new)
  up_at_least new old h i lt e =
      (ground (arith, s.under new h old e i), λ same k m. ground (arith, s.at_least new h k e m))

  up_step :
      (new old h : ℕ) (r : Relation)
      → old ≤ h
      → (h ≡ old → AllBelow In new)
      → Asks
          (λ f. old < f)
          (AllBelow In new)
          (if h == old then ([], 0) else (driver_target h r ∷ [], h))
  up_step new old h r le stuck =
      if_cases (Asks (λ f. old < f) (AllBelow In new)) (h == old) (λ e. kept (stuck (ground arith)))
        (λ e. asked (ground arith))

  -- The frequency of change_freq after the first answer `g` of the table.
  abbrev final_target : ℕ → ℕ → Relation → ℕ → ℕ
  final_target new old r g = if g == old then retry_target table new old r g else g

  retry_up :
      (new old h : ℕ)
      → old < new
      → new < 2 ^ 31
      → table new relation_l ≡ some h
      → retry_target table new old relation_h old ≡ h
  unfolding retry_target
  retry_up new old h lt b e = let up : sltb old new ≡ true = ground arith in rw (up, e) refl

  no_retry_up :
      (new old : ℕ) → old < new → new < 2 ^ 31 → retry_target table new old relation_l old ≡ old
  unfolding retry_target
  no_retry_up new old lt b = let up : sltb new old ≡ false = ground arith in rw up refl

  target_up :
      (new old g : ℕ) (r : Relation)
      → In old
      → old < new
      → new < 2 ^ 31
      → table new r ≡ some g
      → (old ≤ final_target new old r g) × (final_target new old r g ≡ old → AllBelow In new)
  target_up new old g relation_h i lt b e = elim (Bool-cases (g == old)) [
    | inl same ↦
        let (h, eh) = s.found new old relation_l i in
        let is_old : g ≡ old = ground arith in
        rw (same, is_old, retry_up new old h lt b eh) (up_at_least new old h i lt eh)
    | inr other ↦
        rw other ((s.at_most new g old e i (omega arith)).0, λ same k m. absurd (ground arith))
  ]
  target_up new old g relation_l i lt b e = elim (Bool-cases (g == old)) [
    | inl same ↦
        let is_old : g ≡ old = ground arith in
        rw (same, is_old, no_retry_up new old lt b)
          (omega arith, λ _. (up_at_least new old g i lt e).1 is_old)
    | inr other ↦ rw other (up_at_least new old g i lt e)
  ]

  change_up :
      (new old : ℕ) (r : Relation)
      → In old
      → old < new
      → new < 2 ^ 31
      → Asks (λ f. old < f) (AllBelow In new) (change_freq table new old r (table new r))
  unfolding change_freq
  change_up new old r i lt b =
      let (g, e) = s.found new old r i in
      let (le, stuck) = target_up new old g r i lt b e in
      rw e (up_step new old (final_target new old r g) r le stuck)

  -- What validate_freq makes of a frequency above one of the table.
  validate_up :
      (freq old : ℕ)
      → In old
      → old < freq
      → freq < 2 ^ 31
      → let new = validate_freq policy freq in
        (old ≤ new) × (new < 2 ^ 31) × (new ≤ freq) × ((new ≡ freq) ⊎ (new ≡ policy.max))
  unfolding validate_freq
  validate_up freq old i lt b = ground (arith, s.within old i, l.ordered, l.high)

  -- Asked for a frequency above the old one, which the table holds, target_freq asks the driver for
  -- one above the old one, or the frequencies of the table all lie below the one it is asked for;
  -- then it returns 0. The table keeps its promises.
  pub target_freq-up :
      (freq old : ℕ) (r : Relation)
      → In old
      → old < freq
      → freq < 2 ^ 31
      → Asks (λ f. old < f) (AllBelow In freq) (target_freq table policy freq old r)
  unfolding target_freq
  target_freq-up freq old r i lt b =
      let new = validate_freq policy freq in
      let (le, small, capped, which) = validate_up freq old i lt b in
      let A = Asks (λ f. old < f) (AllBelow In freq) in
      let differs : (freq == old) ≡ false = ground arith in
      rw differs (
        if_cases A (new == old) (λ e. kept (λ k m. ground (arith, s.within k m)))
          (λ e.
            Asks-map (λ f h. h) (λ h k m. omega (arith, h k m))
              (change_up new old r i (ground arith) small)))
