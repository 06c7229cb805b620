-- ===== src/FreqStats.antt =====
-- modules/overclock/cpufreq_stats.c: how long each CPU ran at each frequency, and how often it
-- changed from one to another (as built with CONFIG_CPU_FREQ_STAT_DETAILS).
--
-- The three arrays of `struct cpufreq_stats` are lists. An access outside an array is the result
-- `none`, and so is an access through a null pointer.
pub mod Times
pub mod Tables
pub mod Filling
pub mod Creation
pub mod Use
pub mod Tests
use android_device_motorola.Prelude.{
  ℕ, zero, suc, ◌+◌, ◌*◌, ◌-◌, ◌^◌, Bool, true, false, not, Option, none, some, List, [], ◌∷◌,
  length, get_or, set, replicate, ltb, ◌==◌, ◌!=◌, if◌then◌else◌, u32, u64, sub64,
}
use android_device_motorola.Cpufreq.{einval}

-- `struct cpufreq_stats`. `last_index` is `none` where the source has -1.
pub record Stats : Type 0 where
  pub cpu : ℕ
  pub total_trans : ℕ
  pub last_time : ℕ
  pub max_state : ℕ
  pub state_num : ℕ
  pub last_index : Option ℕ
  pub time_in_state : List ℕ
  pub freq_table : List ℕ
  pub trans_table : List ℕ

-- The results of the kernel's checks, as the 32 bits of an `int`.
abbrev pub ebusy : ℕ
ebusy = 2 ^ 32 - 16

abbrev pub enomem : ℕ
enomem = 2 ^ 32 - 12

-- CPUFREQ_TABLE_END and CPUFREQ_ENTRY_INVALID
abbrev pub table_end : ℕ
table_end = 2 ^ 32 - 2

abbrev pub entry_invalid : ℕ
entry_invalid = 2 ^ 32 - 1

-- cpufreq_stats_freq_update on the table of the CPU.
unfoldable pub cpufreq_stats_freq_update : ℕ → ℕ → Option Stats → Option Stats
cpufreq_stats_freq_update index freq none = none
cpufreq_stats_freq_update index freq (some stat) =
    if ltb index (length stat.freq_table)
    then some (record stat { freq_table = set stat.freq_table index freq })
    else none

-- The time since the last update is added to the state at an index.
unfoldable pub add_time : ℕ → Stats → ℕ → Option Stats
add_time now stat i =
    if ltb i (length stat.time_in_state)
    then some (record stat {
      time_in_state =
          set stat.time_in_state i (u64 (get_or stat.time_in_state i 0 + sub64 now stat.last_time));
      last_time = now;
    })
    else none

abbrev pub update_at : ℕ → Stats → Option ℕ → Option Stats
update_at now stat none = none
update_at now stat (some i) = add_time now stat i

-- cpufreq_stats_update; `now` is get_jiffies_64(). Index -1 is outside of the array.
unfoldable pub cpufreq_stats_update : ℕ → Stats → Option Stats
cpufreq_stats_update now stat = update_at now stat stat.last_index

-- freq_table_get_index over an array whose length is `max_state`.
unfoldable pub index_from : ℕ → ℕ → List ℕ → Option ℕ
index_from freq index [] = none
index_from freq index (x ∷ xs) = if x == freq then some index else index_from freq (index + 1) xs

unfoldable pub freq_table_get_index : Stats → ℕ → Option ℕ
freq_table_get_index stat freq = index_from freq 0 stat.freq_table

-- The end of cpufreq_stat_notifier_trans, for two indices that differ.
unfoldable pub count_trans : ℕ → ℕ → Stats → Option Stats
count_trans old new stat =
    let at = old * stat.max_state + new in
    if ltb at (length stat.trans_table)
    then some (record stat {
      last_index = some new;
      trans_table = set stat.trans_table at (u32 (get_or stat.trans_table at 0 + 1));
      total_trans = u32 (stat.total_trans + 1);
    })
    else none

abbrev pub after_update : Option ℕ → Option ℕ → Option Stats → Option Stats
after_update old new none = none
after_update none new (some stat) = some stat
after_update (some a) none (some stat) = some stat
after_update (some a) (some b) (some stat) = if a == b then some stat else count_trans a b stat

-- cpufreq_stat_notifier_trans for a CPU that has a table.
unfoldable pub record_trans : ℕ → ℕ → Stats → Option Stats
record_trans now new stat =
    after_update stat.last_index (freq_table_get_index stat new) (cpufreq_stats_update now stat)

-- cpufreq_stat_notifier_trans; only CPUFREQ_POSTCHANGE is acted on.
unfoldable pub cpufreq_stat_notifier_trans : Bool → ℕ → ℕ → Option Stats → Option (Option Stats)
cpufreq_stat_notifier_trans false now new table = some table
cpufreq_stat_notifier_trans true now new none = some none
cpufreq_stat_notifier_trans true now new (some stat) = elim (record_trans now new stat) [
  | none ↦ none
  | some stat' ↦ some (some stat')
]
