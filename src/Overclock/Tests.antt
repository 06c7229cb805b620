-- ===== src/Overclock/Tests.antt =====
-- The overclocking module on concrete tables.
use android_device_motorola.Prelude.{
  ℕ, zero, suc, ◌+◌, ◌-◌, ◌/◌, ◌^◌, ◌≤◌, ◌<◌, ◌≡◌, ◌≢◌, none, some, List, [], ◌∷◌, get_or, arith,
  refl, ltb, Bool, not, ◌||◌, ◌%◌,
}
use android_device_motorola.FreqStats.{Stats, table_end, freq_table_get_index}
use android_device_motorola.Overclock.{
  Entry, Opp, Limits, Tables, is_load, find_step, find_from, omap2_find_addrs, frequency_at,
  find_end, copy_prev, extend, init_table, change_opp, proc_mpu_opps_write,
}
use android_device_motorola.Overclock.Find.{loads_literal, instruction}
use android_device_motorola.Overclock.Init.{Ended, init_table-Ended}
use android_device_motorola.Overclock.Write.{
  rate_at, Consistent, HasStats, Keeps, changed, change_opp_lem, change_opp-no_stats,
  proc_mpu_opps_write-Keeps,
}

-- nop; ldr r3, [pc, #16]; nop; ldrne r4, [pc, #20]
abbrev code : ℕ → ℕ
code i =
    get_or
      (0 ∷ 0 ∷ 0xa0 ∷ 0xe1 ∷ 16 ∷ 0x30 ∷ 0x9f ∷ 0xe5 ∷ 0 ∷ 0 ∷ 0xa0 ∷ 0xe1 ∷ 20 ∷ 0x40 ∷ 0x9f ∷ 0x15
        ∷ [])
      i 0

found : (omap2_find_addrs (λ a. a) 1000 code).mpu_opps_addr ≡ 1000 + 4 + 8 + 16
unfolding omap2_find_addrs find_from find_step is_load
found = refl

-- A load whose offset is below 256, or no load.
abbrev near_at : ℕ → Bool
near_at i = not (loads_literal (instruction code i)) || ltb (instruction code i % 2 ^ 12) 256

abbrev entry : ℕ → ℕ → Entry
entry i khz = record { index = i; frequency = khz }

-- A table that the kernel ended early, with memory behind it.
abbrev early : List Entry
early = entry 0 600000 ∷ entry 1 300000 ∷ entry 2 (2 ^ 32 - 2) ∷ entry 9 9 ∷ entry 9 9 ∷ []

filled_up :
    init_table 4 early
    ≡ some (
        entry 0 600000
        ∷ entry 1 300000
        ∷ entry 2 300000
        ∷ entry 3 300000
        ∷ entry 4 (2 ^ 32 - 2)
        ∷ [])
unfolding init_table find_end extend copy_prev
filled_up = refl

init_table-Ended_example :
    (t : List Entry) × (init_table 4 early ≡ some t)
    × Ended 4 t
    × ((e : ℕ) × (0 < e)
        × ((j : ℕ) → j < e → j < 4 → frequency_at t j ≡ frequency_at early j)
        × ((j : ℕ) → e ≤ j → j < 4 → frequency_at t j ≡ frequency_at early (e - 1))
        × ((j : ℕ) → j < e → j < 4 → frequency_at early j ≢ table_end)
        × (e < 4 → frequency_at early e ≡ table_end))
init_table-Ended_example = init_table-Ended 4 early (omega arith) (omega arith) (omega arith)

abbrev opp : ℕ → ℕ → Opp
opp rate vsel = record { rate = rate; vsel = vsel; sr_adjust_vsel = vsel }

abbrev stat : Stats
stat = record {
  cpu = 0;
  total_trans = 0;
  last_time = 0;
  max_state = 2;
  state_num = 2;
  last_index = none;
  time_in_state = 0 ∷ 0 ∷ [];
  freq_table = 600000 ∷ 300000 ∷ [];
  trans_table = 0 ∷ 0 ∷ 0 ∷ 0 ∷ [];
}

abbrev limits : Limits
limits = record {
  min = 300000;
  max = 600000;
  cpuinfo_min = 300000;
  cpuinfo_max = 600000;
  user_min = 300000;
  user_max = 600000;
}

-- Two operating points.
abbrev tables : Tables
tables = record {
  freq_table = entry 0 600000 ∷ entry 1 300000 ∷ entry 2 (2 ^ 32 - 2) ∷ [];
  my_mpu_opps = opp 0 0 ∷ opp 300000000 30 ∷ opp 600000000 50 ∷ [];
  policy = limits;
  stats = some stat;
}

same_rates :
    (i : ℕ)
    → 0 < i
    → i ≤ 2
    → frequency_at tables.freq_table (2 - i) ≡ rate_at tables.my_mpu_opps i / 1000
same_rates zero p q = absurd (omega arith)
same_rates (suc zero) p q = refl
same_rates (suc (suc zero)) p q = refl
same_rates (suc (suc (suc i))) p q = absurd (omega arith)

no_end : (i : ℕ) → i < 2 → frequency_at tables.freq_table i ≢ table_end
no_end zero p = omega arith
no_end (suc zero) p = omega arith
no_end (suc (suc i)) p = absurd (omega arith)

tables-Consistent : Consistent 2 tables
tables-Consistent = record {
  ended = record { room = omega arith; inner = no_end; ends = refl };
  opps = omega arith;
  same = same_rates;
}

tables-HasStats : HasStats 2 tables.stats
tables-HasStats = record {
  stat = stat;
  present = refl;
  valid = record {
    times = refl;
    freqs = refl;
    trans = refl;
    states = omega arith;
    index = λ i e. absurd (ground arith);
  };
  room = omega arith;
}

change_opp_lem_example :
    (s : Stats) × (change_opp 2 14 2 800000000 60 tables
      ≡ some (record { ret = 14; tables = changed 2 2 800000000 60 tables (some s) }))
    × HasStats 2 (some s)
    × ((i : ℕ) × (freq_table_get_index s (800000000 / 1000) ≡ some i))
change_opp_lem_example =
    change_opp_lem 2 14 2 800000000 60 tables tables-Consistent tables-HasStats (omega arith)
      (omega arith)

proc_mpu_opps_write-Keeps_example :
    Keeps 2 (proc_mpu_opps_write (λ t. some (2, 800000000, 60)) 4096 2 14 (some (50 ∷ [])) tables)
proc_mpu_opps_write-Keeps_example =
    proc_mpu_opps_write-Keeps (λ t. some (2, 800000000, 60)) 4096 2 14 (some (50 ∷ [])) tables
      tables-Consistent tables-HasStats

change_opp-no_stats_example : change_opp 2 14 2 800000000 60 (record tables { stats = none }) ≡ none
change_opp-no_stats_example =
    change_opp-no_stats 2 14 2 800000000 60 (record tables { stats = none }) refl (omega arith)
      (omega arith)
