-- ===== src/Overclock/Write.antt =====
-- What a write to /proc/overclock/mpu_opps changes (modules/overclock/overclock.c).
use android_device_motorola.Prelude.{
  ℕ, ◌-◌, ◌/◌, ◌^◌, ◌≤◌, ◌<◌, ◌≡◌, Bool, true, false, Option, none, some, List, length, get_or, set,
  subst, ltb, leb, ◌==◌, ◌&&◌, ◌||◌, if◌then◌else◌, u32, arith, refl, sym, ◌∙◌, ap, Bool-cases, inl,
  inr, lt→ltb, length-set, get_or-set_self, get_or-set_ne,
}
use android_device_motorola.FreqStats.{Stats, cpufreq_stats_freq_update, freq_table_get_index}
use android_device_motorola.FreqStats.Times.{Valid}
use android_device_motorola.FreqStats.Use.{cpufreq_stats_freq_update_lem}
use android_device_motorola.Overclock.{
  Entry, Opp, Tables, Written, no_entry, frequency_at, new_limits, with_stats, efault, enospc,
  on_copied, on_numbers, change_opp, proc_mpu_opps_write,
}
use android_device_motorola.Overclock.Init.{Ended}

abbrev no_opp : Opp
no_opp = record { rate = 0; vsel = 0; sr_adjust_vsel = 0 }

abbrev pub rate_at : List Opp → ℕ → ℕ
rate_at l i = (get_or l i no_opp).rate

-- The frequency table ends where it should and holds the rates of the operating points, in kHz and
-- from the last to the first; the table of statistics has room for all of them.
pub record Consistent (max_opp : ℕ) (w : Tables) : Type 0 where
  pub ended : Ended max_opp w.freq_table
  pub opps : max_opp < length w.my_mpu_opps
  pub same :
      (i : ℕ)
      → 0 < i
      → i ≤ max_opp
      → frequency_at w.freq_table (max_opp - i) ≡ rate_at w.my_mpu_opps i / 1000

pub record HasStats (max_opp : ℕ) (o : Option Stats) : Type 0 where
  pub stat : Stats
  pub present : o ≡ some stat
  pub valid : Valid stat
  pub room : max_opp ≤ stat.max_state

-- The effect of an accepted write.
abbrev pub changed : ℕ → ℕ → ℕ → ℕ → Tables → Option Stats → Tables
changed max_opp index rate vsel w s = record {
  my_mpu_opps =
      set w.my_mpu_opps index (record { rate = rate; vsel = vsel; sr_adjust_vsel = vsel });
  freq_table =
      set w.freq_table (max_opp - index)
        (record (get_or w.freq_table (max_opp - index) no_entry) { frequency = rate / 1000 });
  policy = new_limits max_opp index (rate / 1000) w.policy;
  stats = s;
}

frequency_at-set :
    (t : List Entry) (i j khz : ℕ)
    → i < length t
    → frequency_at (set t i (record (get_or t i no_entry) { frequency = khz })) j
      ≡ (if i == j then khz else frequency_at t j)
frequency_at-set t i j khz l =
    let new : Entry = record (get_or t i no_entry) { frequency = khz } in
    elim (Bool-cases (i == j)) [
      | inl h ↦
          let same : i ≡ j = ground arith in
          rw h (
            subst (λ (k : ℕ). frequency_at (set t i new) k ≡ khz) same
              (ap (λ (n : Entry). n.frequency) (get_or-set_self t i new no_entry l)))
      | inr h ↦
          rw h (ap (λ (n : Entry). n.frequency) (get_or-set_ne t i j new no_entry (ground arith)))
    ]

rate_at-set :
    (t : List Opp) (i j rate vsel : ℕ)
    → i < length t
    → rate_at (set t i (record { rate = rate; vsel = vsel; sr_adjust_vsel = vsel })) j
      ≡ (if i == j then rate else rate_at t j)
rate_at-set t i j rate vsel l =
    let new : Opp = record { rate = rate; vsel = vsel; sr_adjust_vsel = vsel } in
    elim (Bool-cases (i == j)) [
      | inl h ↦
          let same : i ≡ j = ground arith in
          rw h (
            subst (λ (k : ℕ). rate_at (set t i new) k ≡ rate) same
              (ap (λ (n : Opp). n.rate) (get_or-set_self t i new no_opp l)))
      | inr h ↦ rw h (ap (λ (n : Opp). n.rate) (get_or-set_ne t i j new no_opp (ground arith)))
    ]

-- What such an equation says where the index is hit, and where it is not.
hit : {A : Type 0} {a : A} {t : Bool} (b c : A) → a ≡ (if t then b else c) → t ≡ true → a ≡ b
hit b c e h = e ∙ ap (λ (t : Bool). if t then b else c) h

missed : {A : Type 0} {a : A} {t : Bool} (b c : A) → a ≡ (if t then b else c) → t ≡ false → a ≡ c
missed b c e h = e ∙ ap (λ (t : Bool). if t then b else c) h

changed-Consistent :
    (max_opp index rate vsel : ℕ) (w : Tables) (s : Option Stats)
    → Consistent max_opp w
    → 0 < index
    → index ≤ max_opp
    → rate < 2 ^ 32
    → Consistent max_opp (changed max_opp index rate vsel w s)
changed-Consistent max_opp index rate vsel w s c p q r =
    let t' = (changed max_opp index rate vsel w s).freq_table in
    let at = max_opp - index in
    let size =
      length-set w.freq_table at
        (record (get_or w.freq_table at no_entry) { frequency = rate / 1000 }) in
    let size2 =
      length-set w.my_mpu_opps index (record { rate = rate; vsel = vsel; sr_adjust_vsel = vsel }) in
    let l : at < length w.freq_table = omega (arith, c.ended.room) in
    let f = λ (j : ℕ). frequency_at-set w.freq_table at j (rate / 1000) l in
    let g = λ (j : ℕ). rate_at-set w.my_mpu_opps index j rate vsel (omega (arith, c.opps)) in
    record {
      ended = record {
        room = omega (arith, size, c.ended.room);
        inner = λ j k. elim (Bool-cases (at == j)) [
          | inl h ↦ λ e. omega (arith, hit _ _ (f j) h, e)
          | inr h ↦ λ e. c.ended.inner j k (sym (missed _ _ (f j) h) ∙ e)
        ];
        ends =
            let e : (at == max_opp) ≡ false = ground arith in
            missed _ _ (f max_opp) e ∙ c.ended.ends;
      };
      opps = omega (arith, size2, c.opps);
      same = λ i a b. elim (Bool-cases (index == i)) [
        | inl h ↦
            let e : (at == max_opp - i) ≡ true = ground arith in
            hit _ _ (f (max_opp - i)) e ∙ ap (λ (k : ℕ). k / 1000) (sym (hit _ _ (g i) h))
        | inr h ↦
            let e : (at == max_opp - i) ≡ false = ground arith in
            missed _ _ (f (max_opp - i)) e
            ∙ c.same i a b
            ∙ ap (λ (k : ℕ). k / 1000) (sym (missed _ _ (g i) h))
      ];
    }

-- From consistent tables and with statistics that have room for them, a write of three numbers with
-- an index from 1 to `max_opp` changes operating point `index`, the entry of the frequency table
-- that belongs to it, the limits if it is the last or the first, and the statistics, where the new
-- frequency can be looked up; it returns the length.
pub change_opp_lem :
    (max_opp len index rate vsel : ℕ) (w : Tables)
    → Consistent max_opp w
    → HasStats max_opp w.stats
    → 0 < index
    → index ≤ max_opp
    → (s : Stats) × (change_opp max_opp len index rate vsel w
        ≡ some (record { ret = len; tables = changed max_opp index rate vsel w (some s) }))
      × HasStats max_opp (some s)
      × ((i : ℕ) × (freq_table_get_index s (rate / 1000) ≡ some i))
unfolding change_opp
change_opp_lem max_opp len index rate vsel w c h p q =
    let at = max_opp - index in
    let (s, a, v, f, x, y, z, m) =
      cpufreq_stats_freq_update_lem at (rate / 1000) h.stat h.valid (omega (arith, h.room)) in
    let low : ltb index 1 ≡ false = ground arith in
    let high : ltb max_opp index ≡ false = ground arith in
    (
      s,
      rw
          (
            low,
            high,
            lt→ltb index (length w.my_mpu_opps) (omega (arith, c.opps)),
            lt→ltb at (length w.freq_table) (omega (arith, c.ended.room)),
          )
          (ap (with_stats len (changed max_opp index rate vsel w w.stats))
            (ap (cpufreq_stats_freq_update at (rate / 1000)) h.present ∙ a)),
      record { stat = s; present = refl; valid = v; room = omega (arith, h.room, m) },
      f,
    )

-- What an operation leaves of consistent tables.
pub record Keeps (max_opp : ℕ) (o : Option Written) : Type 0 where
  pub written : Written
  pub returns : o ≡ some written
  pub consistent : Consistent max_opp written.tables
  pub has_stats : HasStats max_opp written.tables.stats

unchanged :
    (max_opp ret : ℕ) (w : Tables)
    → Consistent max_opp w
    → HasStats max_opp w.stats
    → Keeps max_opp (some (record { ret = ret; tables = w }))
unchanged max_opp ret w c h = record {
  written = record { ret = ret; tables = w };
  returns = refl;
  consistent = c;
  has_stats = h;
}

refused_index :
    (max_opp len index rate vsel : ℕ) (w : Tables)
    → (ltb index 1 || ltb max_opp index) ≡ true
    → change_opp max_opp len index rate vsel w ≡ some (record { ret = efault; tables = w })
unfolding change_opp
refused_index max_opp len index rate vsel w y = rw y refl

change_opp-Keeps :
    (max_opp len index rate vsel : ℕ) (w : Tables)
    → Consistent max_opp w
    → HasStats max_opp w.stats
    → rate < 2 ^ 32
    → Keeps max_opp (change_opp max_opp len index rate vsel w)
change_opp-Keeps max_opp len index rate vsel w c h r =
    elim (Bool-cases (ltb index 1 || ltb max_opp index)) [
      | inl y ↦
          subst (Keeps max_opp) (sym (refused_index max_opp len index rate vsel w y))
            (unchanged max_opp efault w c h)
      | inr y ↦
          let (s, a, h', f) =
            change_opp_lem max_opp len index rate vsel w c h (ground arith) (ground arith) in
          record {
            written = record { ret = len; tables = changed max_opp index rate vsel w (some s) };
            returns = a;
            consistent =
                changed-Consistent max_opp index rate vsel w (some s) c (ground arith)
                  (ground arith) r;
            has_stats = h';
          }
    ]

on_copied-Keeps :
    (sscanf : List ℕ → Option (ℕ × ℕ × ℕ)) (max_opp len : ℕ) (copied : Option (List ℕ)) (w : Tables)
    → Consistent max_opp w
    → HasStats max_opp w.stats
    → Keeps max_opp (on_copied sscanf max_opp len w copied)
on_copied-Keeps sscanf max_opp len none w c h = unchanged max_opp efault w c h
on_copied-Keeps sscanf max_opp len (some text) w c h = on_numbers-Keeps (sscanf text)
  where
    on_numbers-Keeps : (o : Option (ℕ × ℕ × ℕ)) → Keeps max_opp (on_numbers max_opp len w o)
    on_numbers-Keeps none = unchanged max_opp len w c h
    on_numbers-Keeps (some (index, rate, vsel)) =
        change_opp-Keeps max_opp len (u32 index) (u32 rate) (u32 vsel) w c h (omega arith)

if_same : (t : Bool) → ◌≡◌ {A = Option Written} (if t then none else none) none
if_same true = refl
if_same false = refl

-- From consistent tables, and where the CPU has valid statistics with room for them, a write of any
-- text, which sscanf reads in any way, stays within all arrays and keeps the tables consistent and
-- the statistics valid.
pub proc_mpu_opps_write-Keeps :
    (sscanf : List ℕ → Option (ℕ × ℕ × ℕ)) (buf_size max_opp len : ℕ) (copied : Option (List ℕ))
    (w : Tables)
    → Consistent max_opp w
    → HasStats max_opp w.stats
    → Keeps max_opp (proc_mpu_opps_write sscanf buf_size max_opp len copied w)
unfolding proc_mpu_opps_write
proc_mpu_opps_write-Keeps sscanf buf_size max_opp len copied w c h =
    elim (Bool-cases (len == 0 || leb buf_size len)) [
      | inl y ↦ rw y (unchanged max_opp enospc w c h)
      | inr y ↦ rw y (on_copied-Keeps sscanf max_opp len copied w c h)
    ]

-- Without a table of statistics for the CPU a write with an index from 1 to `max_opp` goes through
-- a null pointer.
pub change_opp-no_stats :
    (max_opp len index rate vsel : ℕ) (w : Tables)
    → w.stats ≡ none
    → 0 < index
    → index ≤ max_opp
    → change_opp max_opp len index rate vsel w ≡ none
unfolding change_opp cpufreq_stats_freq_update
change_opp-no_stats max_opp len index rate vsel w e p q =
    let low : ltb index 1 ≡ false = ground arith in
    let high : ltb max_opp index ≡ false = ground arith in
    rw (low, high, e)
      (if_same (ltb index (length w.my_mpu_opps) && ltb (max_opp - index) (length w.freq_table)))
