-- ===== src/FreqStats/Creation.antt =====
-- The tables that cpufreq_stats_create_table of modules/overclock/cpufreq_stats.c makes.
use android_device_motorola.Prelude.{
  put, ℕ, ◌+◌, ◌-◌, ◌≡◌, ◌≢◌, ◌⊎◌, inl, inr, Bool, true, Option, none, some, List, replicate,
  length-replicate, ◌==◌, arith, refl, sym, ap, Option-cases, Bool-cases, ==_refl, ◌≤◌, ◌<◌, ◌*◌,
  ◌^◌, u32, leb, none, some,
}
use native.Mathlib.Nat.{mul-le-mul, mod-eq_of_lt}
use android_device_motorola.Cpufreq.{Policy, einval}
use android_device_motorola.FreqStats.{Stats, enomem, ebusy}
use android_device_motorola.FreqStats.Filling.{fill_lem, empty-Packed, Fresh, new_stats-Fresh}
use android_device_motorola.FreqStats.Tables.{
  sizeof_stats, World, Kernel, Filled, Created, count_valid, new_stats, finish, fill_tables,
  with_policy, create_new, create_unless, cpufreq_stats_create_table, error_out, error_get_fail,
  alloc_size, within_alloc,
}

-- What cpufreq_stats_create_table leaves of a world.
pub record Creates (now : ℕ) (p : Policy) (table : List ℕ) (w : World) (c : Created) : Type 0 where
  pub refs_kept : c.world.refs ≡ w.refs
  pub others : (cpu : ℕ) → cpu ≢ p.cpu → c.world.tables cpu ≡ w.tables cpu
  pub outcome :
      ((c.ret ≡ 0)
        × (w.tables p.cpu ≡ none)
        × ((s : Stats) × (c.world.tables p.cpu ≡ some s) × Fresh now p table s))
      ⊎ ((c.ret ≢ 0) × (c.world.tables p.cpu ≡ w.tables p.cpu))

-- Fewer than 2^14 frequencies need less than 2^32 bytes.
pub within_alloc-some : (n : ℕ) (f : Option Filled) → n ≤ 2 ^ 14 → within_alloc n f ≡ f
unfolding within_alloc alloc_size
within_alloc-some n f h =
    let square : n * n ≤ 2 ^ 14 * 2 ^ 14 = mul-le-mul h h in
    let uncut : u32 (n * 4 + n * 8 + n * n * 4) ≡ n * 4 + n * 8 + n * n * 4 =
      mod-eq_of_lt (omega arith) in
    let fits : leb (n * 4 + n * 8 + n * n * 4) (n * 4 + n * 8 + n * n * 4) ≡ true = ground arith in
    rw uncut (rw fits refl)

module _ (k : Kernel) (now : ℕ) (p : Policy) (table : List ℕ) where
  failed_lem :
      (ret : ℕ) (w w' : World)
      → w.tables p.cpu ≡ none
      → w'.tables ≡ w.tables
      → w'.refs ≡ w.refs
      → ret ≢ 0
      → Creates now p table w (error_get_fail p.cpu ret w')
  failed_lem ret w w' e t r z = record {
    refs_kept = r;
    others = λ cpu ne. ground (arith, ap (λ (f : ℕ → Option Stats). f cpu) t);
    outcome = inr (z, rw (==_refl p.cpu) (sym e));
  }

  fill_tables_lem :
      (w : World) (groups : ℕ → Bool)
      → w.tables p.cpu ≡ none
      → count_valid table < 2 ^ 14
      → (c : Created) × (fill_tables k now p table (record w { groups = groups; refs = w.refs + 1 })
          ≡ some c)
        × Creates now p table w c
  unfolding fill_tables
  fill_tables_lem w groups e b =
      let n = count_valid table + 1 in
      let w1 : World = record w { groups = groups; refs = w.refs + 1 } in
      let start : Filled = record { freq_table = replicate n 0; j = 0 } in
      let (f, a, h) =
        fill_lem table start (empty-Packed n) (omega (arith, length-replicate {A = ℕ} n 0)) in
      elim (Bool-cases (k.kzalloc (alloc_size n))) [
        | inl y ↦ (
          record {
            ret = 0;
            world = record w1 {
              tables = put w.tables p.cpu (some (new_stats now p n f));
              refs = w.refs + 1 - 1;
            };
          },
          rw (y, within_alloc-some n (some start) (omega arith)) (ap (finish now p n w1) a),
          record {
            refs_kept = omega arith;
            others = λ cpu ne. ground arith;
            outcome = inl (
              refl,
              e,
              (new_stats now p n f, rw (==_refl p.cpu) refl, new_stats-Fresh now p table f h),
            );
          },
        )
        | inr y ↦ (
          error_out p.cpu enomem w1,
          rw y refl,
          failed_lem enomem w (record w1 { refs = w.refs + 1 - 1 }) e refl (omega arith)
              (omega arith),
        )
      ]

  -- For fewer than 2^14 frequencies, from any state of the tables: cpufreq_stats_create_table stays
  -- within the arrays that it allocates, holds no more references to policies than before, and
  -- leaves the tables of the other CPUs. It succeeds only where the CPU had no table, and then the
  -- new one is valid, nothing is counted in it, and it has each frequency of the driver's once, but
  -- 0 and CPUFREQ_ENTRY_INVALID; where it fails, the CPU's table is as it was. What happens to the
  -- attribute group, which stays where the arrays cannot be allocated, is not part of this.
  pub cpufreq_stats_create_table-Creates :
      (w : World)
      → count_valid table < 2 ^ 14
      → (c : Created) × (cpufreq_stats_create_table k now p table w ≡ some c)
        × Creates now p table w c
  unfolding cpufreq_stats_create_table create_unless create_new with_policy
  cpufreq_stats_create_table-Creates w b = elim (Option-cases (w.tables p.cpu)) [
    | inr (s, e) ↦ (
      record { ret = ebusy; world = w },
      rw e refl,
      record { refs_kept = refl; others = λ cpu ne. refl; outcome = inr (omega arith, refl) },
    )
    | inl e ↦ elim (Bool-cases (k.kzalloc sizeof_stats)) [
      | inr m ↦ (
        record { ret = enomem; world = w },
        rw (e, m) refl,
        record { refs_kept = refl; others = λ cpu ne. refl; outcome = inr (omega arith, refl) },
      )
      | inl m ↦ elim (Option-cases (k.owner p.cpu)) [
        | inl o ↦ (
          error_get_fail p.cpu einval w,
          rw (e, m, o) refl,
          failed_lem einval w w e refl refl (omega arith),
        )
        | inr (owner, o) ↦ elim (Bool-cases (k.sysfs_create_group (w.groups owner) == 0)) [
          | inr g ↦ (
            error_out p.cpu (k.sysfs_create_group (w.groups owner))
                (record w { refs = w.refs + 1 }),
            rw (e, m, o, g) refl,
            failed_lem (k.sysfs_create_group (w.groups owner)) w
                (record w { refs = w.refs + 1 - 1 }) e refl (omega arith) (ground arith),
          )
          | inl g ↦
              let (c, a, h) = fill_tables_lem w (put w.groups owner true) e b in
              (c, rw (e, m, o, g) a, h)
        ]
      ]
    ]
  ]
