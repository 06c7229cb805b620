-- ===== src/FreqStats/Times.antt =====
-- The times and the transitions that cpufreq_stat_notifier_trans of
-- modules/overclock/cpufreq_stats.c counts.
use android_device_motorola.Prelude.{
  ℕ, zero, suc, ◌+◌, ◌*◌, ◌-◌, ◌^◌, ◌≤◌, ◌<◌, ◌≡◌, inl, inr, Option, none, some, List, [], ◌∷◌,
  length, get_or, set, length-set, ◌==◌, arith, refl, ◌∙◌, ap, Bool-cases, lt→ltb, u64, u32, sub64,
  if◌then◌else◌,
}
use native.Mathlib.Nat.{mul-le-mul_right}
use android_device_motorola.FreqStats.{
  Stats, add_time, cpufreq_stats_update, index_from, freq_table_get_index, count_trans,
  record_trans, after_update, update_at,
}

abbrev pub sum : List ℕ → ℕ
sum [] = 0
sum (x ∷ xs) = x + sum xs

sum-set : (xs : List ℕ) (i v : ℕ) → i < length xs → sum (set xs i v) + get_or xs i 0 ≡ sum xs + v
sum-set [] i v h = absurd (omega arith)
sum-set (x ∷ xs) zero v h = omega arith
sum-set (x ∷ xs) (suc i) v h = omega (arith, sum-set xs i v (omega arith))

pub get_or-le_sum : (xs : List ℕ) (i : ℕ) → get_or xs i 0 ≤ sum xs
get_or-le_sum [] i = omega arith
get_or-le_sum (x ∷ xs) zero = omega arith
get_or-le_sum (x ∷ xs) (suc i) = omega (arith, get_or-le_sum xs i)

-- The arrays of a table have the lengths that it was allocated with, and its indices are in them.
pub record Valid (s : Stats) : Type 0 where
  pub times : length s.time_in_state ≡ s.max_state
  pub freqs : length s.freq_table ≡ s.max_state
  pub trans : length s.trans_table ≡ s.max_state * s.max_state
  pub states : s.state_num ≤ s.max_state
  pub index : (i : ℕ) → s.last_index ≡ some i → i < s.max_state

-- A found index is within the array and holds the frequency.
pub index_from_lem :
    (freq n : ℕ) (xs : List ℕ) (i : ℕ)
    → index_from freq n xs ≡ some i
    → (d : ℕ) × (i ≡ n + d) × (d < length xs) × (get_or xs d 0 ≡ freq)
unfolding index_from
index_from_lem freq n [] i h = absurd (ground arith)
index_from_lem freq n (x ∷ xs) i h = elim (Bool-cases (x == freq)) [
  | inl e ↦ (zero, ground arith, omega arith, ground arith)
  | inr e ↦
      let (d, p, l, g) = index_from_lem freq (n + 1) xs i (ground arith) in
      (suc d, omega arith, omega arith, g)
]

-- Entry `old` has grown by the time since the last update.
abbrev pub updated : ℕ → ℕ → Stats → Stats
updated now old s = record s {
  time_in_state = set s.time_in_state old (get_or s.time_in_state old 0 + (now - s.last_time));
  last_time = now;
}

-- One transition from `old` to `new` is counted.
abbrev pub counted : ℕ → ℕ → Stats → Stats
counted old new s = record s {
  last_index = some new;
  trans_table =
      set s.trans_table (old * s.max_state + new)
        (get_or s.trans_table (old * s.max_state + new) 0 + 1);
  total_trans = s.total_trans + 1;
}

-- The times add up to what went by since `start`, and the transitions to their total.
pub record Accounts (start : ℕ) (s : Stats) : Type 0 where
  pub elapsed : start + sum s.time_in_state ≡ s.last_time
  pub moves : sum s.trans_table ≡ s.total_trans

pub updated_lem :
    (start now old : ℕ) (s : Stats)
    → Valid s
    → Accounts start s
    → s.last_index ≡ some old
    → s.last_time ≤ now
    → now < 2 ^ 64
    → (cpufreq_stats_update now s ≡ some (updated now old s))
      × Valid (updated now old s)
      × Accounts start (updated now old s)
unfolding cpufreq_stats_update add_time
updated_lem start now old s v a e l b =
    let i : old < length s.time_in_state = omega (arith, v.index old e) in
    let small = get_or-le_sum s.time_in_state old in
    let grow : u64 (get_or s.time_in_state old 0 + sub64 now s.last_time)
        ≡ get_or s.time_in_state old 0 + (now - s.last_time) =
      omega (arith, a.elapsed) in
    (
      ap (update_at now s) e ∙ rw (lt→ltb old (length s.time_in_state) i, grow) refl,
      record {
        times = length-set s.time_in_state old _ ∙ v.times;
        freqs = v.freqs;
        trans = v.trans;
        states = v.states;
        index = v.index;
      },
      record {
        elapsed = omega (
          arith,
          a.elapsed,
          sum-set s.time_in_state old (get_or s.time_in_state old 0 + (now - s.last_time)) i,
        );
        moves = a.moves;
      },
    )

-- The cell of a transition is within the table.
cell-lt : (old new n : ℕ) → old < n → new < n → old * n + new < n * n
cell-lt old new n p q =
    let h : (old + 1) * n ≤ n * n = mul-le-mul_right n (omega arith) in omega arith

counted_lem :
    (start old new : ℕ) (s : Stats)
    → Valid s
    → Accounts start s
    → old < s.max_state
    → new < s.max_state
    → s.total_trans + 1 < 2 ^ 32
    → (count_trans old new s ≡ some (counted old new s))
      × Valid (counted old new s)
      × Accounts start (counted old new s)
unfolding count_trans
counted_lem start old new s v a p q b =
    let at = old * s.max_state + new in
    let i : at < length s.trans_table = omega (arith, cell-lt old new s.max_state p q, v.trans) in
    let small = get_or-le_sum s.trans_table at in
    let cell : u32 (get_or s.trans_table at 0 + 1) ≡ get_or s.trans_table at 0 + 1 =
      omega (arith, a.moves) in
    let total : u32 (s.total_trans + 1) ≡ s.total_trans + 1 = omega arith in
    (
      rw (lt→ltb at (length s.trans_table) i, cell, total) refl,
      record {
        times = v.times;
        freqs = v.freqs;
        trans = length-set s.trans_table at _ ∙ v.trans;
        states = v.states;
        index = λ j e. ground arith;
      },
      record {
        elapsed = a.elapsed;
        moves = omega (arith, a.moves, sum-set s.trans_table at (get_or s.trans_table at 0 + 1) i);
      },
    )

-- What one notification leaves: the time since the last update is added to the frequency that was
-- left, and if the new frequency is another one of the table, it is the last one and one more
-- transition is counted.
abbrev pub left : ℕ → Option ℕ → ℕ → Stats → Stats
left old none now s = updated now old s
left old (some new) now s =
    if old == new then updated now old s else counted old new (updated now old s)

left_lem :
    (start now old : ℕ) (to : Option ℕ) (s : Stats)
    → Valid s
    → Accounts start s
    → s.last_index ≡ some old
    → s.last_time ≤ now
    → now < 2 ^ 64
    → s.total_trans + 1 < 2 ^ 32
    → ((new : ℕ) → to ≡ some new → new < s.max_state)
    → (after_update (some old) to (cpufreq_stats_update now s) ≡ some (left old to now s))
      × Valid (left old to now s)
      × Accounts start (left old to now s)
left_lem start now old none s v a e l b c f =
    let (p, v', a') = updated_lem start now old s v a e l b in (rw p refl, v', a')
left_lem start now old (some new) s v a e l b c f =
    let (p, v', a') = updated_lem start now old s v a e l b in
    let (p2, v2, a2) =
      counted_lem start old new (updated now old s) v' a' (v.index old e) (f new refl) c in
    elim (Bool-cases (old == new)) [
      | inl h ↦ (rw (p, h) refl, rw h v', rw h a')
      | inr h ↦ (rw (p, h) p2, rw h v2, rw h a2)
    ]

-- A frequency's index is within the table.
pub freq_table_get_index-lt :
    (s : Stats) (freq i : ℕ)
    → Valid s
    → freq_table_get_index s freq ≡ some i
    → (i < s.max_state) × (get_or s.freq_table i 0 ≡ freq)
unfolding freq_table_get_index
freq_table_get_index-lt s freq i v h =
    let (d, p, l, g) = index_from_lem freq 0 s.freq_table i h in
    let e : i ≡ d = omega arith in (omega (arith, v.freqs), rw e g)

-- A notification at a time that is not before the last one stays within the arrays. It adds the
-- time since then to the frequency that was left and to no other, counts a transition and moves to
-- the new frequency exactly if that is another one of the table; the table stays valid, its times
-- add up to the time since `start`, and its transitions to their total.
pub record_trans_lem :
    (start now freq old : ℕ) (s : Stats)
    → Valid s
    → Accounts start s
    → s.last_index ≡ some old
    → s.last_time ≤ now
    → now < 2 ^ 64
    → s.total_trans + 1 < 2 ^ 32
    → let s' = left old (freq_table_get_index s freq) now s in
      (record_trans now freq s ≡ some s') × Valid s' × Accounts start s'
unfolding record_trans
record_trans_lem start now freq old s v a e l b c =
    let (p, v', a') =
      left_lem start now old (freq_table_get_index s freq) s v a e l b c
        (λ new h. (freq_table_get_index-lt s freq new v h).0) in
    (
      ap (λ o. after_update o (freq_table_get_index s freq) (cpufreq_stats_update now s)) e ∙ p,
      v',
      a',
    )

-- A run of notifications, each a time and a new frequency.
abbrev pub next_trans : ℕ × ℕ → Option Stats → Option Stats
next_trans e none = none
next_trans (now, freq) (some s) = record_trans now freq s

unfoldable pub run_trans : List (ℕ × ℕ) → Option Stats → Option Stats
run_trans [] s = s
run_trans (e ∷ es) s = run_trans es (next_trans e s)

-- No time is before the one that precedes it.
abbrev pub InOrder : ℕ → List (ℕ × ℕ) → Type 0
InOrder last [] = Unit {0}
InOrder last ((now, freq) ∷ es) = (last ≤ now) × (now < 2 ^ 64) × InOrder now es

-- A table that is in use, some of whose frequencies runs now.
pub record InUse (start : ℕ) (s : Stats) : Type 0 where
  pub valid : Valid s
  pub accounts : Accounts start s
  pub running : (i : ℕ) × (s.last_index ≡ some i)

abbrev pub last_of : ℕ → List (ℕ × ℕ) → ℕ
last_of last [] = last
last_of last ((now, freq) ∷ es) = last_of now es

left_fields :
    (now old : ℕ) (to : Option ℕ) (s : Stats)
    → s.last_index ≡ some old
    → let s' = left old to now s in
      (s'.last_time ≡ now)
      × (s'.total_trans ≤ s.total_trans + 1)
      × ((i : ℕ) × (s'.last_index ≡ some i))
left_fields now old none s e = (refl, omega arith, (old, e))
left_fields now old (some new) s e = elim (Bool-cases (old == new)) [
  | inl h ↦ rw h (refl, omega arith, (old, e))
  | inr h ↦ rw h (refl, omega arith, (new, refl))
]

-- Any run of notifications in the order of time stays within the arrays, and at its end the times
-- of all frequencies add up to the time from `start` to the last notification, and the cells of
-- the transitions to their total, if that does not overflow.
pub run_trans-InUse :
    (start : ℕ) (es : List (ℕ × ℕ)) (s : Stats)
    → InUse start s
    → InOrder s.last_time es
    → s.total_trans + length es < 2 ^ 32
    → (s' : Stats) × (run_trans es (some s) ≡ some s')
      × InUse start s'
      × (s'.last_time ≡ last_of s.last_time es)
unfolding run_trans
run_trans-InUse start [] s u o c = (s, refl, u, refl)
run_trans-InUse start ((now, freq) ∷ es) s u o c =
    let (old, e) = u.running in
    let s1 = left old (freq_table_get_index s freq) now s in
    let (p, v, a) =
      record_trans_lem start now freq old s u.valid u.accounts e o.0 o.1 (omega arith) in
    let (t, n, r) = left_fields now old (freq_table_get_index s freq) s e in
    let (s', q, u', w) =
      run_trans-InUse start es s1 (record { valid = v; accounts = a; running = r }) (rw t o.2)
        (omega arith) in
    (s', rw p q, u', w ∙ ap (λ x. last_of x es) t)
