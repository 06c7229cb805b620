-- ===== src/FreqStats/Tables.antt =====
-- modules/overclock/cpufreq_stats.c: the life of a CPU's table, and what its attributes show.
--
-- A frequency table of the driver is the list of its frequencies before CPUFREQ_TABLE_END. One
-- with so many that `alloc_size` is cut to 32 bits faults, since the arrays reach beyond what is
-- allocated.
use android_device_motorola.Prelude.{
  put, ℕ, ◌+◌, ◌*◌, Bool, true, false, Option, none, some, List, [], ◌∷◌, length, get_or, set,
  replicate, ltb, ◌==◌, ◌&&◌, ◌-◌, zero, suc, if◌then◌else◌, u32, leb,
}
use android_device_motorola.Cpufreq.{Policy, einval}
use android_device_motorola.FreqStats.{
  Stats, ebusy, enomem, entry_invalid, index_from, cpufreq_stats_update,
}

-- What the functions share: `cpufreq_stats_table` by CPU, whether the policy of a CPU has the
-- attribute group "stats", and how many references to policies are held.
pub record World : Type 0 where
  pub tables : ℕ → Option Stats
  pub groups : ℕ → Bool
  pub refs : ℕ

-- The kernel's answers: the CPU that owns the policy of a CPU (`cpufreq_cpu_get`), the result of
-- `sysfs_create_group` where the group is there or not, and whether memory is left.
pub record Kernel : Type 0 where
  pub owner : ℕ → Option ℕ
  pub sysfs_create_group : Bool → ℕ
  pub kzalloc : ℕ → Bool

-- A frequency table that is being filled, and `j`.
pub record Filled : Type 0 where
  pub freq_table : List ℕ
  pub j : ℕ

-- The entries of the driver's table that are no holes.
unfoldable pub count_valid : List ℕ → ℕ
count_valid [] = 0
count_valid (freq ∷ table) = (if freq == entry_invalid then 0 else 1) + count_valid table

unfoldable pub store_new : Option ℕ → ℕ → Filled → Option Filled
store_new (some i) freq f = some f
store_new none freq f =
    if ltb f.j (length f.freq_table)
    then some (record { freq_table = set f.freq_table f.j freq; j = f.j + 1 })
    else none

unfoldable pub store_freq : ℕ → Filled → Option Filled
store_freq freq f =
    if freq == entry_invalid then some f else store_new (index_from freq 0 f.freq_table) freq f

-- The second loop of cpufreq_stats_create_table.
unfoldable pub fill : List ℕ → Option Filled → Option Filled
fill table none = none
fill [] (some f) = some f
fill (freq ∷ table) (some f) = fill table (store_freq freq f)

pub record Created : Type 0 where
  pub ret : ℕ
  pub world : World

-- The labels error_out and error_get_fail.
abbrev pub error_get_fail : ℕ → ℕ → World → Created
error_get_fail cpu ret w = record { ret = ret; world = record w { tables = put w.tables cpu none } }

abbrev pub error_out : ℕ → ℕ → World → Created
error_out cpu ret w = error_get_fail cpu ret (record w { refs = w.refs - 1 })

-- sizeof(int) and sizeof(cputime64_t), with the table of transitions.
abbrev pub arrays_size : ℕ → ℕ
arrays_size count = count * 4 + count * 8 + count * count * 4

-- As an unsigned int.
unfoldable pub alloc_size : ℕ → ℕ
alloc_size count = u32 (arrays_size count)

-- The arrays, where they lie within what is allocated.
unfoldable pub within_alloc : ℕ → Option Filled → Option Filled
within_alloc count f = if leb (arrays_size count) (alloc_size count) then f else none

-- The table of a CPU once it is filled, and the end of cpufreq_stats_create_table.
abbrev pub last_index_of : ℕ → List ℕ → Option ℕ
last_index_of cur freq_table = index_from cur 0 freq_table

abbrev pub new_stats : ℕ → Policy → ℕ → Filled → Stats
new_stats now p count f = record {
  cpu = p.cpu;
  total_trans = 0;
  last_time = now;
  max_state = count;
  state_num = f.j + 1;
  last_index = last_index_of p.cur f.freq_table;
  time_in_state = replicate count 0;
  freq_table = f.freq_table;
  trans_table = replicate (count * count) 0;
}

abbrev pub finish : ℕ → Policy → ℕ → World → Option Filled → Option Created
finish now p count w none = none
finish now p count w (some f) = some (record {
  ret = 0;
  world = record w {
    tables = put w.tables p.cpu (some (new_stats now p count f));
    refs = w.refs - 1;
  };
})

-- The arrays are allocated and filled, in a world where the group is created.
unfoldable pub fill_tables : Kernel → ℕ → Policy → List ℕ → World → Option Created
fill_tables k now p table w =
    let count = count_valid table + 1 in
    if k.kzalloc (alloc_size count)
    then (let start =
          within_alloc count (some (record { freq_table = replicate count 0; j = 0 })) in
        finish now p count w (fill table start))
    else some (error_out p.cpu enomem w)

-- sysfs_create_group and what follows, with a reference to the policy of `owner`.
unfoldable pub with_policy : Kernel → ℕ → Policy → List ℕ → ℕ → World → Option Created
with_policy k now p table owner w =
    let ret = k.sysfs_create_group (w.groups owner) in
    if ret == 0
    then fill_tables k now p table (record w { groups = put w.groups owner true })
    else some (error_out p.cpu ret w)

unfoldable pub create_new : Kernel → ℕ → Policy → List ℕ → Option ℕ → World → Option Created
create_new k now p table none w = some (error_get_fail p.cpu einval w)
create_new k now p table (some owner) w =
    with_policy k now p table owner (record w { refs = w.refs + 1 })

-- cpufreq_stats_create_table; `sizeof_stats` is sizeof(struct cpufreq_stats).
abbrev pub sizeof_stats : ℕ
sizeof_stats = 48

unfoldable pub create_unless : Option Stats → Kernel → ℕ → Policy → List ℕ → World → Option Created
create_unless (some stat) k now p table w = some (record { ret = ebusy; world = w })
create_unless none k now p table w =
    if k.kzalloc sizeof_stats
    then create_new k now p table (k.owner p.cpu) w
    else some (record { ret = enomem; world = w })

unfoldable pub cpufreq_stats_create_table : Kernel → ℕ → Policy → List ℕ → World → Option Created
cpufreq_stats_create_table k now p table w = create_unless (w.tables p.cpu) k now p table w

-- cpufreq_stat_notifier_policy; `table` is cpufreq_frequency_get_table.
unfoldable pub cpufreq_stat_notifier_policy :
    Kernel → Bool → ℕ → Policy → Option (List ℕ) → World → Option Created
cpufreq_stat_notifier_policy k false now p table w = some (record { ret = 0; world = w })
cpufreq_stat_notifier_policy k true now p none w = some (record { ret = 0; world = w })
cpufreq_stat_notifier_policy k true now p (some table) w =
    cpufreq_stats_create_table k now p table w

-- cpufreq_stats_free_table: the group goes if the CPU owns its policy; the reference is returned.
abbrev pub without_group : Option ℕ → ℕ → (ℕ → Bool) → ℕ → Bool
without_group none cpu groups = groups
without_group (some owner) cpu groups = if owner == cpu then put groups owner false else groups

unfoldable pub cpufreq_stats_free_table : Kernel → ℕ → World → World
cpufreq_stats_free_table k cpu w = record w {
  tables = put w.tables cpu none;
  groups = without_group (k.owner cpu) cpu w.groups;
}

-- What the notifier for CPUs asks: CPU_ONLINE and CPU_ONLINE_FROZEN, CPU_DEAD and CPU_DEAD_FROZEN.
pub data CpuAction : Type 0 where
  cpu_online cpu_dead cpu_other : CpuAction

-- cpufreq_stat_cpu_callback; `cpufreq_update_policy` is the kernel's.
unfoldable pub cpufreq_stat_cpu_callback :
    (ℕ → World → World) → Kernel → CpuAction → ℕ → World → World
cpufreq_stat_cpu_callback cpufreq_update_policy k cpu_online cpu w = cpufreq_update_policy cpu w
cpufreq_stat_cpu_callback cpufreq_update_policy k cpu_dead cpu w = cpufreq_stats_free_table k cpu w
cpufreq_stat_cpu_callback cpufreq_update_policy k cpu_other cpu w = w

-- The lines of show_time_in_state, each a frequency and its time.
abbrev pub prepend : ℕ × ℕ → Option (List (ℕ × ℕ)) → Option (List (ℕ × ℕ))
prepend r none = none
prepend r (some l) = some (r ∷ l)

unfoldable pub lines : (ℕ → ℕ) → ℕ → ℕ → Stats → Option (List (ℕ × ℕ))
lines clock_t zero i stat = some []
lines clock_t (suc n) i stat =
    let rest = lines clock_t n (i + 1) stat in
    if ltb i (length stat.freq_table) && ltb i (length stat.time_in_state)
    then prepend (get_or stat.freq_table i 0, clock_t (get_or stat.time_in_state i 0)) rest
    else none

abbrev pub Shown : Type 0
Shown = List (ℕ × ℕ) × Option Stats

abbrev pub with_lines : Stats → Option (List (ℕ × ℕ)) → Option Shown
with_lines stat none = none
with_lines stat (some l) = some (l, some stat)

abbrev pub show_updated : (ℕ → ℕ) → Option Stats → Option Shown
show_updated clock_t none = none
show_updated clock_t (some stat) = with_lines stat (lines clock_t stat.state_num 0 stat)

-- show_time_in_state, with the table that it leaves; `clock_t` is cputime64_to_clock_t.
unfoldable pub show_time_in_state : (ℕ → ℕ) → ℕ → Option Stats → Option Shown
show_time_in_state clock_t now none = some ([], none)
show_time_in_state clock_t now (some stat) = show_updated clock_t (cpufreq_stats_update now stat)

-- show_total_trans: the number that is printed, if any.
unfoldable pub show_total_trans : Option Stats → Option ℕ
show_total_trans none = none
show_total_trans (some stat) = some stat.total_trans
