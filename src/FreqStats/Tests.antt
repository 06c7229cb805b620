-- ===== src/FreqStats/Tests.antt =====
-- The statistics on concrete tables.
use android_device_motorola.Prelude.{
  ℕ, ◌-◌, ◌^◌, ◌<◌, ◌≡◌, ◌≢◌, ◌⊎◌, true, false, Option, none, some, List, [], ◌∷◌, length, count,
  arith, refl, if◌then◌else◌, ltb, put, replicate,
}
use mathlib.Core.Option.{some-injective}
use android_device_motorola.Cpufreq.{Policy}
use android_device_motorola.FreqStats.{
  Stats, enomem, index_from, record_trans, cpufreq_stats_update, add_time,
  cpufreq_stats_freq_update, freq_table_get_index, count_trans,
}
use android_device_motorola.FreqStats.Times.{
  Valid, Accounts, InUse, left, record_trans_lem, run_trans, run_trans-InUse,
}
use android_device_motorola.FreqStats.Filling.{Fresh}
use android_device_motorola.FreqStats.Creation.{Creates, cpufreq_stats_create_table-Creates}
use android_device_motorola.FreqStats.Use.{
  cpufreq_stats_create_table_starts, cpufreq_stats_create_table_leaks,
  cpufreq_stats_free_table-create_table, cpufreq_stats_freq_update_lem, show_time_in_state_lem,
}
use android_device_motorola.FreqStats.Tables.{
  alloc_size, within_alloc, World, Kernel, Created, count_valid, fill, store_freq, store_new,
  cpufreq_stats_create_table, create_unless, create_new, with_policy, fill_tables,
  cpufreq_stats_free_table, show_time_in_state,
}

-- The driver's frequencies, with a hole and one that stands twice.
abbrev freqs : List ℕ
freqs = 300000 ∷ 600000 ∷ (2 ^ 32 - 1) ∷ 600000 ∷ 800000 ∷ []

abbrev policy : Policy
policy = record { cpu = 0; min = 300000; max = 800000; cur = 600000 }

-- Memory is left, and a group is made unless it is there.
abbrev kernel : Kernel
kernel = record {
  owner = λ cpu. some 0;
  sysfs_create_group = λ there. if there then 2 ^ 32 - 17 else 0;
  kzalloc = λ n. true;
}

-- Only the small allocation is served.
abbrev tight : Kernel
tight = record kernel { kzalloc = λ n. ltb n 100 }

abbrev world : World
world = record { tables = λ cpu. none; groups = λ cpu. false; refs = 0 }

-- What cpufreq_stats_create_table makes of them at time 1000.
abbrev fresh : Stats
fresh = record {
  cpu = 0;
  total_trans = 0;
  last_time = 1000;
  max_state = 5;
  state_num = 4;
  last_index = some 1;
  time_in_state = 0 ∷ 0 ∷ 0 ∷ 0 ∷ 0 ∷ [];
  freq_table = 300000 ∷ 600000 ∷ 800000 ∷ 0 ∷ 0 ∷ [];
  trans_table = replicate 25 0;
}

abbrev made : Created
made = record {
  ret = 0;
  world = record {
    tables = put (λ cpu. none) 0 (some fresh);
    groups = put (λ cpu. false) 0 true;
    refs = 0;
  };
}

create : cpufreq_stats_create_table kernel 1000 policy freqs world ≡ some made
unfolding cpufreq_stats_create_table create_unless create_new with_policy fill_tables fill
    store_freq store_new index_from count_valid within_alloc alloc_size
create = refl

fresh-InUse : InUse 1000 fresh
fresh-InUse = record {
  valid = record {
    times = refl;
    freqs = refl;
    trans = refl;
    states = omega arith;
    index = λ i e. let n : 1 ≡ i = some-injective _ _ e in omega arith;
  };
  accounts = record { elapsed = refl; moves = refl };
  running = (1, refl);
}

abbrev times : Option Stats → List ℕ
times none = []
times (some s) = s.time_in_state

-- Two seconds at 600 MHz, then one at 800 MHz.
two_moves :
    times (run_trans ((1200, 800000) ∷ (1300, 300000) ∷ []) (some fresh))
    ≡ (0 ∷ 200 ∷ 100 ∷ 0 ∷ 0 ∷ [])
unfolding run_trans record_trans cpufreq_stats_update add_time freq_table_get_index index_from
    count_trans
two_moves = refl

-- A CPU that runs at a frequency that the driver does not list.
abbrev between : Policy
between = record policy { cur = 700000 }

-- Its notifications are lost: the first one accesses an array at index -1.
lost :
    (c : Created) × (s : Stats) × (cpufreq_stats_create_table kernel 1000 between freqs world
      ≡ some c)
    × (c.world.tables 0 ≡ some s)
    × (s.last_index ≡ none)
unfolding cpufreq_stats_create_table create_unless create_new with_policy fill_tables fill
    store_freq store_new index_from count_valid within_alloc alloc_size
lost = (
  record {
    ret = 0;
    world = record {
      tables = put (λ cpu. none) 0 (some (record fresh { last_index = none }));
      groups = put (λ cpu. false) 0 true;
      refs = 0;
    };
  },
  record fresh { last_index = none },
  refl,
  refl,
  refl,
)

run_trans-InUse_example :
    (s : Stats) × (run_trans ((1200, 800000) ∷ (1300, 300000) ∷ []) (some fresh) ≡ some s)
    × InUse 1000 s
    × (s.last_time ≡ 1300)
run_trans-InUse_example =
    run_trans-InUse 1000 ((1200, 800000) ∷ (1300, 300000) ∷ []) fresh fresh-InUse
      (omega arith, omega arith, (omega arith, omega arith, tt)) (omega arith)

record_trans_lem_example :
    let s = left 1 (freq_table_get_index fresh 800000) 1200 fresh in
    (record_trans 1200 800000 fresh ≡ some s) × Valid s × Accounts 1000 s
record_trans_lem_example =
    record_trans_lem 1000 1200 800000 1 fresh fresh-InUse.valid fresh-InUse.accounts refl
      (omega arith) (omega arith) (omega arith)

cpufreq_stats_create_table-Creates_example :
    (c : Created) × (cpufreq_stats_create_table kernel 1000 policy freqs world ≡ some c)
    × Creates 1000 policy freqs world c
unfolding count_valid
cpufreq_stats_create_table-Creates_example =
    cpufreq_stats_create_table-Creates kernel 1000 policy freqs world (omega arith)

cpufreq_stats_create_table_starts_example :
    (s : Stats) × (made.world.tables 0 ≡ some s)
    × (((0 < count 600000 freqs) × InUse 1000 s)
        ⊎ ((count 600000 freqs ≡ 0) × ((later freq : ℕ) → record_trans later freq s ≡ none)))
unfolding count_valid
cpufreq_stats_create_table_starts_example =
    cpufreq_stats_create_table_starts kernel 1000 policy freqs world made create refl (omega arith)
      (omega arith) (omega arith)

cpufreq_stats_create_table_leaks_example :
    (c c' : Created) × (cpufreq_stats_create_table tight 1000 policy freqs world ≡ some c)
    × (c.ret ≡ enomem)
    × (c.world.tables 0 ≡ none)
    × (cpufreq_stats_create_table kernel 2000 policy freqs c.world ≡ some c')
    × (c'.ret ≢ 0)
    × (c'.world.tables 0 ≡ none)
unfolding count_valid alloc_size
cpufreq_stats_create_table_leaks_example =
    cpufreq_stats_create_table_leaks tight kernel 1000 2000 0 policy freqs freqs world refl refl
      refl refl refl refl (omega arith)

cpufreq_stats_free_table-create_table_example :
    let w = cpufreq_stats_free_table kernel 0 made.world in
    (w.tables 0 ≡ none)
    × ((cpu : ℕ) → cpu ≢ 0 → w.tables cpu ≡ made.world.tables cpu)
    × ((c : Created) × (s : Stats) × (cpufreq_stats_create_table kernel 2000 policy freqs w
          ≡ some c)
        × (c.ret ≡ 0)
        × (c.world.tables 0 ≡ some s)
        × Fresh 2000 policy freqs s)
unfolding count_valid
cpufreq_stats_free_table-create_table_example =
    cpufreq_stats_free_table-create_table kernel 2000 policy freqs made.world refl refl (λ n. refl)
      (omega arith)

cpufreq_stats_freq_update_lem_example :
    (s : Stats) × (cpufreq_stats_freq_update 3 900000 (some fresh) ≡ some s)
    × Valid s
    × ((i : ℕ) × (freq_table_get_index s 900000 ≡ some i))
    × (s.time_in_state ≡ fresh.time_in_state)
    × (s.trans_table ≡ fresh.trans_table)
    × (s.last_index ≡ some 1)
    × (s.max_state ≡ 5)
cpufreq_stats_freq_update_lem_example =
    cpufreq_stats_freq_update_lem 3 900000 fresh fresh-InUse.valid (omega arith)

show_time_in_state_lem_example :
    (l : List (ℕ × ℕ)) × (s : Stats) × (show_time_in_state (λ j. j) 1500 (some fresh)
      ≡ some (l, some s))
    × (length l ≡ 4)
    × InUse 1000 s
    × (s.last_time ≡ 1500)
show_time_in_state_lem_example =
    show_time_in_state_lem (λ j. j) 1000 1500 fresh fresh-InUse (omega arith) (omega arith)
