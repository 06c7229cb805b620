-- ===== src/FreqStats/Filling.antt =====
-- The frequency table that cpufreq_stats_create_table of modules/overclock/cpufreq_stats.c fills.
use android_device_motorola.Prelude.{
  ℕ, zero, suc, ◌+◌, ◌*◌, ◌≤◌, ◌<◌, ◌≡◌, ◌≢◌, inl, inr, min, Option, none, some, List, [], ◌∷◌,
  length, get_or, set, replicate, length-set, length-replicate, get_or-set_ne, count, ◌==◌, arith,
  refl, sym, ◌∙◌, ap, Bool-cases, lt→ltb, if◌then◌else◌,
}
use android_device_motorola.Cpufreq.{Policy}
use android_device_motorola.FreqStats.{Stats, entry_invalid, index_from}
use android_device_motorola.FreqStats.Times.{sum, Valid, Accounts, index_from_lem}
use android_device_motorola.FreqStats.Tables.{
  Filled, count_valid, store_new, store_freq, fill, new_stats,
}

count-set :
    (q i v : ℕ) (xs : List ℕ)
    → i < length xs
    → count q (set xs i v) + (if get_or xs i 0 == q then 1 else 0)
      ≡ count q xs + (if v == q then 1 else 0)
count-set q i v [] h = absurd (omega arith)
count-set q zero v (x ∷ xs) h = omega arith
count-set q (suc i) v (x ∷ xs) h = omega (arith, count-set q i v xs (omega arith))

pub count_pos : (q i : ℕ) (xs : List ℕ) → i < length xs → get_or xs i 0 ≡ q → 0 < count q xs
count_pos q i [] h e = absurd (omega arith)
count_pos q zero (x ∷ xs) h e = ground arith
count_pos q (suc i) (x ∷ xs) h e = omega (arith, count_pos q i xs (omega arith) e)

-- A frequency that is not found does not stand in the array.
pub index_from-none : (freq n : ℕ) (xs : List ℕ) → index_from freq n xs ≡ none → count freq xs ≡ 0
unfolding index_from
index_from-none freq n [] h = refl
index_from-none freq n (x ∷ xs) h = elim (Bool-cases (x == freq)) [
  | inl e ↦ absurd (ground arith)
  | inr e ↦ ground (arith, index_from-none freq (n + 1) xs (ground arith))
]

-- The first `j` entries are filled with different frequencies and the others are 0.
pub record Packed (f : Filled) : Type 0 where
  pub zeros : (i : ℕ) → f.j ≤ i → get_or f.freq_table i 0 ≡ 0
  pub once : (q : ℕ) → q ≢ 0 → count q f.freq_table ≤ 1

-- What the loop makes of a frequency table.
pub record Fills (more : ℕ) (wanted : ℕ → ℕ) (f f' : Filled) : Type 0 where
  pub same_length : length f'.freq_table ≡ length f.freq_table
  pub packed : Packed f'
  pub bound : f'.j ≤ f.j + more
  pub stored :
      (q : ℕ)
      → q ≢ 0
      → q ≢ entry_invalid
      → count q f'.freq_table ≡ min 1 (count q f.freq_table + wanted q)

abbrev one : ℕ → ℕ → ℕ
one freq q = if freq == q then 1 else 0

abbrev one_valid : ℕ → ℕ
one_valid freq = if freq == entry_invalid then 0 else 1

store_new_lem :
    (freq : ℕ) (f : Filled) (o : Option ℕ)
    → o ≡ index_from freq 0 f.freq_table
    → Packed f
    → f.j < length f.freq_table
    → (f' : Filled) × (store_new o freq f ≡ some f') × Fills 1 (one freq) f f'
unfolding store_new
store_new_lem freq f (some i) h p l =
    let (d, a, b, g) = index_from_lem freq 0 f.freq_table i (sym h) in
    let there = count_pos freq d f.freq_table b g in
    (
      f,
      refl,
      record {
        same_length = refl;
        packed = p;
        bound = omega arith;
        stored = λ q z y. ground (arith, p.once q z);
      },
    )
store_new_lem freq f none h p l =
    let absent = index_from-none freq 0 f.freq_table (sym h) in
    let f' : Filled = record { freq_table = set f.freq_table f.j freq; j = f.j + 1 } in
    let grow = λ (q : ℕ). count-set q f.j freq f.freq_table l in
    let free = p.zeros f.j (omega arith) in
    (
      f',
      rw (lt→ltb f.j (length f.freq_table) l) refl,
      record {
        same_length = length-set f.freq_table f.j freq;
        packed = record {
          zeros = λ i h.
              get_or-set_ne f.freq_table f.j i freq 0 (λ e. omega arith) ∙ p.zeros i (omega arith);
          once = λ q z. ground (arith, grow q, p.once q z, free, absent);
        };
        bound = omega arith;
        stored = λ q z y. ground (arith, grow q, p.once q z, free, absent);
      },
    )

store_freq_lem :
    (freq : ℕ) (f : Filled)
    → Packed f
    → f.j + one_valid freq < length f.freq_table
    → (f' : Filled) × (store_freq freq f ≡ some f') × Fills (one_valid freq) (one freq) f f'
unfolding store_freq
store_freq_lem freq f p l = elim (Bool-cases (freq == entry_invalid)) [
  | inl e ↦ (
    f,
    rw e refl,
    record {
      same_length = refl;
      packed = p;
      bound = omega arith;
      stored = λ q z y. ground (arith, p.once q z);
    },
  )
  | inr e ↦
      let (f', a, b) = store_new_lem freq f (index_from freq 0 f.freq_table) refl p (omega arith) in
      (
        f',
        rw e a,
        record {
          same_length = b.same_length;
          packed = b.packed;
          bound = ground (arith, b.bound);
          stored = b.stored;
        },
      )
]

-- The loop over a frequency table never leaves the array, if it is longer than the table's valid
-- entries; it stores each of them other than 0 once, and keeps those stored before.
pub fill_lem :
    (table : List ℕ) (f : Filled)
    → Packed f
    → f.j + count_valid table < length f.freq_table
    → (f' : Filled) × (fill table (some f) ≡ some f')
      × Fills (count_valid table) (λ q. count q table) f f'
unfolding fill count_valid
fill_lem [] f p l = (
  f,
  refl,
  record {
    same_length = refl;
    packed = p;
    bound = omega arith;
    stored = λ q z y. ground (arith, p.once q z);
  },
)
fill_lem (freq ∷ table) f p l =
    let (f1, a, b) = store_freq_lem freq f p (omega arith) in
    let (f', c, d) = fill_lem table f1 b.packed (omega (arith, b.bound, b.same_length)) in
    (
      f',
      ap (fill table) a ∙ c,
      record {
        same_length = d.same_length ∙ b.same_length;
        packed = d.packed;
        bound = omega (arith, b.bound, d.bound);
        stored = λ q z y. omega (arith, b.stored q z y, d.stored q z y);
      },
    )

get_or-zeros : (n i : ℕ) → get_or {A = ℕ} (replicate n 0) i 0 ≡ 0
get_or-zeros zero i = refl
get_or-zeros (suc n) zero = refl
get_or-zeros (suc n) (suc i) = get_or-zeros n i

count-zeros : (n q : ℕ) → q ≢ 0 → count q (replicate n 0) ≡ 0
count-zeros zero q z = refl
count-zeros (suc n) q z = ground (arith, count-zeros n q z)

pub empty-Packed : (n : ℕ) → Packed (record { freq_table = replicate n 0; j = 0 })
empty-Packed n = record {
  zeros = λ i h. get_or-zeros n i;
  once = λ q z. omega (arith, count-zeros n q z);
}

sum-zeros : (n : ℕ) → sum (replicate n 0) ≡ 0
sum-zeros zero = refl
sum-zeros (suc n) = omega (arith, sum-zeros n)

-- A new table: valid, with no time and no transition counted, with each frequency of the driver's
-- once (but 0 and CPUFREQ_ENTRY_INVALID), and with the index of the current one.
pub record Fresh (now : ℕ) (p : Policy) (table : List ℕ) (s : Stats) : Type 0 where
  pub valid : Valid s
  pub accounts : Accounts now s
  pub began : s.last_time ≡ now
  pub room : s.state_num ≤ count_valid table + 1
  pub stored : (q : ℕ) → q ≢ 0 → q ≢ entry_invalid → count q s.freq_table ≡ min 1 (count q table)
  pub running : s.last_index ≡ index_from p.cur 0 s.freq_table

pub new_stats-Fresh :
    (now : ℕ) (p : Policy) (table : List ℕ) (f : Filled)
    → let n = count_valid table + 1 in
      Fills
        (count_valid table)
        (λ q. count q table)
        (record { freq_table = replicate n 0; j = 0 })
        f
      → Fresh now p table (new_stats now p n f)
new_stats-Fresh now p table f h =
    let n = count_valid table + 1 in
    let size : length f.freq_table ≡ n = h.same_length ∙ length-replicate n 0 in
    record {
      valid = record {
        times = length-replicate n 0;
        freqs = size;
        trans = length-replicate (n * n) 0;
        states = omega (arith, h.bound);
        index = λ i e. let (d, a, l, g) = index_from_lem p.cur 0 f.freq_table i e in omega arith;
      };
      accounts = record { elapsed = omega (arith, sum-zeros n); moves = sum-zeros (n * n) };
      began = refl;
      room = omega (arith, h.bound);
      stored = λ q z y. omega (arith, h.stored q z y, count-zeros n q z);
      running = refl;
    }
