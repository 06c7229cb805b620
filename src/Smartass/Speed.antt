-- ===== src/Smartass/Speed.antt =====
-- The speed limits of the smartass governor: smartass_update_min_max and validate_freq.
use android_device_motorola.Prelude.{ℕ, ◌≤◌, ◌<◌, ◌≡◌, ◌⊎◌, arith, ltb, max, if◌then◌else◌, ◌!=◌}
use android_device_motorola.Cpufreq.{Policy}
use android_device_motorola.Smartass.State.{Tunables, SmartassInfo}

-- `suspend` is a C truth value.
unfoldable pub smartass_update_min_max : Tunables → SmartassInfo → Policy → ℕ → SmartassInfo
smartass_update_min_max t info policy suspend =
    if suspend != 0
    then record info {
      min_speed = policy.min;
      max_speed =
          if ltb t.sleep_max_freq policy.max
          then (if ltb policy.min t.sleep_max_freq then t.sleep_max_freq else policy.min)
          else policy.max;
    }
    else record info {
      min_speed =
          if ltb policy.min t.awake_min_freq
          then (if ltb t.awake_min_freq policy.max then t.awake_min_freq else policy.max)
          else policy.min;
      max_speed = policy.max;
    }

unfoldable pub validate_freq : SmartassInfo → ℕ → ℕ
validate_freq info freq =
    if ltb info.max_speed freq
    then info.max_speed
    else (if ltb freq info.min_speed then info.min_speed else freq)

-- The speeds of a CPU are ordered and obey the limits of its policy.
pub record Obeys (policy : Policy) (info : SmartassInfo) : Type 0 where
  pub low : policy.min ≤ info.min_speed
  pub ordered : info.min_speed ≤ info.max_speed
  pub high : info.max_speed ≤ policy.max

-- For a policy with `min <= max` the update makes the speeds obey the policy; suspended, the
-- maximum is at most `sleep_max_freq` unless the policy's minimum is above that; awake, the minimum
-- is at least `awake_min_freq` unless the policy's maximum is below that.
pub smartass_update_min_max-Obeys :
    (t : Tunables) (info : SmartassInfo) (policy : Policy) (suspend : ℕ)
    → policy.min ≤ policy.max
    → let info' = smartass_update_min_max t info policy suspend in
      Obeys policy info'
      × ((suspend ≡ 0) ⊎ (info'.max_speed ≤ max t.sleep_max_freq policy.min))
      × ((0 < suspend) ⊎ (t.awake_min_freq ≤ info'.min_speed) ⊎ (info'.min_speed ≡ policy.max))
unfolding smartass_update_min_max
smartass_update_min_max-Obeys t info policy suspend h = ground arith

-- With ordered speeds a validated frequency lies between them, is the frequency asked for where
-- that does, and validating it again changes nothing.
pub validate_freq_between :
    (info : SmartassInfo) (freq : ℕ)
    → info.min_speed ≤ info.max_speed
    → (info.min_speed ≤ validate_freq info freq)
      × (validate_freq info freq ≤ info.max_speed)
      × (validate_freq info (validate_freq info freq) ≡ validate_freq info freq)
      × ((validate_freq info freq ≡ freq) ⊎ (freq < info.min_speed) ⊎ (info.max_speed < freq))
unfolding validate_freq
validate_freq_between info freq h = ground arith
