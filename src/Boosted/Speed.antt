-- ===== src/Boosted/Speed.antt =====
-- The speeds of the boosted governor: boosted_update_min_max, validate_freq and target_freq.
use android_device_motorola.Prelude.{
  ℕ, Bool, Option, none, some, List, [], ◌∷◌, ltb, ◌==◌, if◌then◌else◌, sltb,
}
use android_device_motorola.Cpufreq.{Policy, Relation, relation_l, relation_h, Call, driver_target}
use android_device_motorola.Boosted.State.{Tunables, BoostedInfo}

-- The ideal speed that boosted_update_min_max sets.
unfoldable pub ideal_speed : Tunables → Policy → Bool → ℕ
ideal_speed t policy suspend =
    if suspend
    then (if ltb t.sleep_ideal_freq policy.max
        then (if ltb policy.min t.sleep_ideal_freq then t.sleep_ideal_freq else policy.min)
        else policy.max)
    else (if ltb policy.min t.awake_ideal_freq
        then (if ltb t.awake_ideal_freq policy.max then t.awake_ideal_freq else policy.max)
        else policy.min)

unfoldable pub boosted_update_min_max : Tunables → Policy → Bool → BoostedInfo → BoostedInfo
boosted_update_min_max t policy suspend info = record info {
  ideal_speed = ideal_speed t policy suspend;
}

-- `freq` and the two limits are compared as `int`s.
unfoldable pub validate_freq : Policy → ℕ → ℕ
validate_freq policy freq =
    if sltb policy.max freq then policy.max else (if sltb freq policy.min then policy.min else freq)

-- What cpufreq_frequency_table_target finds for a frequency and a relation in the table of the CPU;
-- `none` where there is no table or the call fails.
abbrev pub Lookup : Type 0
Lookup = ℕ → Relation → Option ℕ

abbrev pub found_freq : Option ℕ → ℕ → ℕ
found_freq none target = target
found_freq (some f) target = f

-- The second try of target_freq, in the other direction, where the first has found `old_freq`
-- again.
unfoldable pub retry_target : Lookup → ℕ → ℕ → Relation → ℕ → ℕ
retry_target table new_freq old_freq relation_h target =
    if sltb old_freq new_freq then found_freq (table new_freq relation_l) target else target
retry_target table new_freq old_freq relation_l target =
    if sltb new_freq old_freq then found_freq (table new_freq relation_h) target else target

-- target_freq for a validated frequency that is not the old one.
unfoldable pub change_freq : Lookup → ℕ → ℕ → Relation → Option ℕ → List Call × ℕ
change_freq table new_freq old_freq relation none = (driver_target new_freq relation ∷ [], new_freq)
change_freq table new_freq old_freq relation (some first) =
    let target =
      if first == old_freq then retry_target table new_freq old_freq relation first else first in
    if target == old_freq then ([], 0) else (driver_target target relation ∷ [], target)

-- target_freq: its calls and its result, which is 0 where the frequency stays.
unfoldable pub target_freq : Lookup → Policy → ℕ → ℕ → Relation → List Call × ℕ
target_freq table policy asked old_freq relation =
    let new_freq = validate_freq policy asked in
    if asked == old_freq
    then ([], 0)
    else (if new_freq == old_freq
        then ([], 0)
        else change_freq table new_freq old_freq relation (table new_freq relation))
