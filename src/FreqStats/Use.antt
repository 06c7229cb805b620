-- ===== src/FreqStats/Use.antt =====
-- A CPU's table of modules/overclock/cpufreq_stats.c in use: from its creation to its removal.
use android_device_motorola.Prelude.{
  put, ℕ, zero, suc, ◌+◌, ◌-◌, ◌^◌, ◌≤◌, ◌<◌, ◌≡◌, ◌≢◌, ◌⊎◌, inl, inr, true, false, none, some,
  List, [], ◌∷◌, length, get_or, set, replicate, length-set, length-replicate, get_or-set_self,
  count, ◌==◌, arith, refl, sym, ◌∙◌, ap, subst, Option-cases, Bool-cases, lt→ltb, ==_refl,
}
use mathlib.Core.Option.{some-injective}
use android_device_motorola.Cpufreq.{Policy}
use android_device_motorola.FreqStats.{
  Stats, enomem, entry_invalid, index_from, record_trans, cpufreq_stats_update,
  cpufreq_stats_freq_update, freq_table_get_index, after_update, update_at,
}
use android_device_motorola.FreqStats.Times.{Valid, InUse, index_from_lem, updated, updated_lem}
use android_device_motorola.FreqStats.Filling.{
  Fresh, fill_lem, empty-Packed, index_from-none, count_pos,
}
use android_device_motorola.FreqStats.Creation.{
  Creates, within_alloc-some, cpufreq_stats_create_table-Creates,
}
use android_device_motorola.FreqStats.Tables.{
  World, Kernel, Created, Filled, finish, new_stats, count_valid, alloc_size, sizeof_stats,
  cpufreq_stats_create_table, create_unless, create_new, with_policy, fill_tables, error_out,
  cpufreq_stats_free_table, lines, with_lines, show_time_in_state,
}

-- The table that a successful creation made.
created :
    (k : Kernel) (now : ℕ) (p : Policy) (table : List ℕ) (w : World) (c : Created)
    → cpufreq_stats_create_table k now p table w ≡ some c
    → c.ret ≡ 0
    → count_valid table < 2 ^ 14
    → (s : Stats) × (c.world.tables p.cpu ≡ some s) × Fresh now p table s
created k now p table w c h z b =
    let (c', a, m) = cpufreq_stats_create_table-Creates k now p table w b in
    let same : c' ≡ c = some-injective _ _ (sym a ∙ h) in
    elim (Creates.outcome m) [
      | inl (r, e, t) ↦
          subst
            (λ (x : Created). (s : Stats) × (x.world.tables p.cpu ≡ some s) × Fresh now p table s)
            same t
      | inr (r, e) ↦ absurd (r (ap (λ (x : Created). x.ret) same ∙ z))
    ]

-- After a creation that succeeds, from fewer than 2^14 frequencies and for a CPU that runs at a
-- frequency other than 0 and CPUFREQ_ENTRY_INVALID: if the driver's table has that frequency, the
-- new table is in use; if it has not, every notification at first accesses the times outside their
-- array.
pub cpufreq_stats_create_table_starts :
    (k : Kernel) (now : ℕ) (p : Policy) (table : List ℕ) (w : World) (c : Created)
    → cpufreq_stats_create_table k now p table w ≡ some c
    → c.ret ≡ 0
    → p.cur ≢ 0
    → p.cur ≢ entry_invalid
    → count_valid table < 2 ^ 14
    → (s : Stats) × (c.world.tables p.cpu ≡ some s)
      × (((0 < count p.cur table) × InUse now s)
          ⊎ ((count p.cur table ≡ 0) × ((later freq : ℕ) → record_trans later freq s ≡ none)))
unfolding record_trans cpufreq_stats_update
cpufreq_stats_create_table_starts k now p table w c h z n0 ni b =
    let (s, a, f) = created k now p table w c h z b in
    (
      s,
      a,
      elim (Option-cases (index_from p.cur 0 s.freq_table)) [
        | inl e ↦ inr (
          omega (arith, f.stored p.cur n0 ni, index_from-none p.cur 0 s.freq_table e),
          λ later freq.
              ap
                (λ i. after_update s.last_index (freq_table_get_index s freq) (update_at later s i))
                (f.running ∙ e),
        )
        | inr (i, e) ↦
            let (d, q, l, g) = index_from_lem p.cur 0 s.freq_table i e in
            inl (
              omega (arith, f.stored p.cur n0 ni, count_pos p.cur d s.freq_table l g),
              record { valid = f.valid; accounts = f.accounts; running = (i, f.running ∙ e) },
            )
      ],
    )

refused :
    (k : Kernel) (now owner : ℕ) (p : Policy) (table : List ℕ) (w : World)
    → w.tables p.cpu ≡ none
    → w.groups owner ≡ true
    → k.owner p.cpu ≡ some owner
    → k.sysfs_create_group true ≢ 0
    → (c : Created) × (cpufreq_stats_create_table k now p table w ≡ some c)
      × (c.ret ≢ 0)
      × (c.world.tables p.cpu ≡ none)
unfolding cpufreq_stats_create_table create_unless create_new with_policy
refused k now owner p table w e g o r = elim (Bool-cases (k.kzalloc sizeof_stats)) [
  | inr m ↦ (record { ret = enomem; world = w }, rw (e, m) refl, omega arith, e)
  | inl m ↦
      let z : (k.sysfs_create_group true == 0) ≡ false = ground arith in
      (
        error_out p.cpu (k.sysfs_create_group true) (record w { refs = w.refs + 1 }),
        rw (e, m, o, g, z) refl,
        r,
        rw (==_refl p.cpu) refl,
      )
]

-- If only the arrays cannot be allocated, the CPU has no table, but its policy keeps the attribute
-- group: where the kernel refuses to make a group that is there, the next creation fails, and the
-- CPU still has no table.
pub cpufreq_stats_create_table_leaks :
    (k k' : Kernel) (now now' owner : ℕ) (p : Policy) (table table' : List ℕ) (w : World)
    → w.tables p.cpu ≡ none
    → k.owner p.cpu ≡ some owner
    → k'.owner p.cpu ≡ some owner
    → k.kzalloc sizeof_stats ≡ true
    → k.kzalloc (alloc_size (count_valid table + 1)) ≡ false
    → k.sysfs_create_group (w.groups owner) ≡ 0
    → k'.sysfs_create_group true ≢ 0
    → (c c' : Created) × (cpufreq_stats_create_table k now p table w ≡ some c)
      × (c.ret ≡ enomem)
      × (c.world.tables p.cpu ≡ none)
      × (cpufreq_stats_create_table k' now' p table' c.world ≡ some c')
      × (c'.ret ≢ 0)
      × (c'.world.tables p.cpu ≡ none)
unfolding cpufreq_stats_create_table create_unless create_new with_policy fill_tables
cpufreq_stats_create_table_leaks k k' now now' owner p table table' w e o o' m f g r =
    let w1 : World = record w { groups = put w.groups owner true; refs = w.refs + 1 } in
    let c = error_out p.cpu enomem w1 in
    let (c', a, z, t) =
      refused k' now' owner p table' c.world (rw (==_refl p.cpu) refl) (rw (==_refl owner) refl) o'
        r in
    (c, c', rw (e, m, o, g, f) refl, refl, rw (==_refl p.cpu) refl, a, z, t)

-- Where memory is left and the group is not there, a creation succeeds.
succeeds :
    (k : Kernel) (now : ℕ) (p : Policy) (table : List ℕ) (w : World)
    → w.tables p.cpu ≡ none
    → w.groups p.cpu ≡ false
    → k.owner p.cpu ≡ some p.cpu
    → k.sysfs_create_group false ≡ 0
    → ((n : ℕ) → k.kzalloc n ≡ true)
    → count_valid table < 2 ^ 14
    → (c : Created) × (cpufreq_stats_create_table k now p table w ≡ some c) × (c.ret ≡ 0)
unfolding cpufreq_stats_create_table create_unless create_new with_policy fill_tables
succeeds k now p table w e free o g m b =
    let n = count_valid table + 1 in
    let start : Filled = record { freq_table = replicate n 0; j = 0 } in
    let w1 : World = record w { groups = put w.groups p.cpu true; refs = w.refs + 1 } in
    let (f, a, h) =
      fill_lem table start (empty-Packed n) (omega (arith, length-replicate {A = ℕ} n 0)) in
    (
      record {
        ret = 0;
        world = record w1 {
          tables = put w.tables p.cpu (some (new_stats now p n f));
          refs = w.refs + 1 - 1;
        };
      },
      rw (e, m sizeof_stats, o, free, g, m (alloc_size n))
          (rw (within_alloc-some n (some start) (omega arith)) (ap (finish now p n w1) a)),
      refl,
    )

-- For a CPU that owns its policy, after cpufreq_stats_free_table the CPU has no table and the
-- tables of the others are as they were; where memory is left and the kernel makes a group that is
-- not there, a table can then be created from fewer than 2^14 frequencies, and it is fresh.
pub cpufreq_stats_free_table-create_table :
    (k : Kernel) (now : ℕ) (p : Policy) (table : List ℕ) (w : World)
    → k.owner p.cpu ≡ some p.cpu
    → k.sysfs_create_group false ≡ 0
    → ((n : ℕ) → k.kzalloc n ≡ true)
    → count_valid table < 2 ^ 14
    → let w' = cpufreq_stats_free_table k p.cpu w in
      (w'.tables p.cpu ≡ none)
      × ((cpu : ℕ) → cpu ≢ p.cpu → w'.tables cpu ≡ w.tables cpu)
      × ((c : Created) × (s : Stats) × (cpufreq_stats_create_table k now p table w' ≡ some c)
          × (c.ret ≡ 0)
          × (c.world.tables p.cpu ≡ some s)
          × Fresh now p table s)
unfolding cpufreq_stats_free_table
cpufreq_stats_free_table-create_table k now p table w o g m b =
    let w' = cpufreq_stats_free_table k p.cpu w in
    let gone : w'.tables p.cpu ≡ none = rw (==_refl p.cpu) refl in
    let free : w'.groups p.cpu ≡ false = rw (o, ==_refl p.cpu) (rw (==_refl p.cpu) refl) in
    let (c, a, z) = succeeds k now p table w' gone free o g m b in
    let (s, t, f) = created k now p table w' c a z b in
    (gone, λ cpu ne. ground arith, (c, s, a, z, t, f))

-- A frequency that is stored in an entry of a valid table can be looked up; the table stays valid
-- and of its size, and neither the times and the transitions nor the last index change.
pub cpufreq_stats_freq_update_lem :
    (index freq : ℕ) (s : Stats)
    → Valid s
    → index < s.max_state
    → (s' : Stats) × (cpufreq_stats_freq_update index freq (some s) ≡ some s')
      × Valid s'
      × ((i : ℕ) × (freq_table_get_index s' freq ≡ some i))
      × (s'.time_in_state ≡ s.time_in_state)
      × (s'.trans_table ≡ s.trans_table)
      × (s'.last_index ≡ s.last_index)
      × (s'.max_state ≡ s.max_state)
unfolding cpufreq_stats_freq_update freq_table_get_index
cpufreq_stats_freq_update_lem index freq s v h =
    let l : index < length s.freq_table = omega (arith, v.freqs) in
    let xs = set s.freq_table index freq in
    let here =
      count_pos freq index xs (omega (arith, length-set s.freq_table index freq))
        (get_or-set_self s.freq_table index freq 0 l) in
    (
      record s { freq_table = xs },
      rw (lt→ltb index (length s.freq_table) l) refl,
      record {
        times = v.times;
        freqs = length-set s.freq_table index freq ∙ v.freqs;
        trans = v.trans;
        states = v.states;
        index = v.index;
      },
      elim (Option-cases (index_from freq 0 xs)) [
        | inl e ↦ absurd (omega (arith, index_from-none freq 0 xs e))
        | inr t ↦ t
      ],
      refl,
      refl,
      refl,
      refl,
    )

lines_lem :
    (clock_t : ℕ → ℕ) (n i : ℕ) (s : Stats)
    → i + n ≤ length s.freq_table
    → i + n ≤ length s.time_in_state
    → (l : List (ℕ × ℕ)) × (lines clock_t n i s ≡ some l) × (length l ≡ n)
unfolding lines
lines_lem clock_t zero i s p q = ([], refl, refl)
lines_lem clock_t (suc n) i s p q =
    let (l, e, m) = lines_lem clock_t n (i + 1) s (omega arith) (omega arith) in
    (
      (get_or s.freq_table i 0, clock_t (get_or s.time_in_state i 0)) ∷ l,
      rw
          (
            lt→ltb i (length s.freq_table) (omega arith),
            lt→ltb i (length s.time_in_state) (omega arith),
            e,
          )
          refl,
      omega arith,
    )

-- Reading the times of a table in use stays within its arrays: there is a line for each of its
-- states, and the times are brought up to now first, so that those kept add up to the time since
-- `start`.
pub show_time_in_state_lem :
    (clock_t : ℕ → ℕ) (start now : ℕ) (s : Stats)
    → InUse start s
    → s.last_time ≤ now
    → now < 2 ^ 64
    → (l : List (ℕ × ℕ)) × (s' : Stats) × (show_time_in_state clock_t now (some s)
        ≡ some (l, some s'))
      × (length l ≡ s.state_num)
      × InUse start s'
      × (s'.last_time ≡ now)
unfolding show_time_in_state
show_time_in_state_lem clock_t start now s u l b =
    let (old, e) = u.running in
    let (p, v, a) = updated_lem start now old s u.valid u.accounts e l b in
    let s' = updated now old s in
    let (shown, q, n) =
      lines_lem clock_t s.state_num 0 s' (omega (arith, v.freqs, v.states))
        (omega (arith, v.times, v.states)) in
    (
      shown,
      s',
      rw p (ap (with_lines s') q),
      n,
      record { valid = v; accounts = a; running = (old, e) },
      refl,
    )
