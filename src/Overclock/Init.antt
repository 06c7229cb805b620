-- ===== src/Overclock/Init.antt =====
-- What overclock_init of modules/overclock/overclock.c makes of the frequency table.
use android_device_motorola.Prelude.{
  ℕ, zero, suc, ◌+◌, ◌-◌, ◌≤◌, ◌<◌, ◌≡◌, ◌≢◌, some, List, [], ◌∷◌, length, set, subst, ltb, ◌==◌,
  arith, refl, sym, ◌∙◌, ap, Bool-cases, inl, inr, lt→ltb, length-set, get_or-set_self,
  get_or-set_ne,
}
use android_device_motorola.FreqStats.{table_end}
use android_device_motorola.Overclock.{
  Entry, no_entry, frequency_at, find_end, copy_prev, extend, extend_from, init_table,
}

before :
    (e : Entry) (t : List Entry) (d : ℕ)
    → e.frequency ≢ table_end
    → ((j : ℕ) → j < d → frequency_at t j ≢ table_end)
    → (j : ℕ) → j < suc d
    → frequency_at (e ∷ t) j ≢ table_end
before e t d h f zero l = h
before e t d h f (suc j) l = f j (omega arith)

find_end_lem :
    (n : ℕ) (t : List Entry) (i : ℕ)
    → find_end n t ≡ some i
    → (d : ℕ) × (i ≡ n + d)
      × (d < length t)
      × (frequency_at t d ≡ table_end)
      × ((j : ℕ) → j < d → frequency_at t j ≢ table_end)
unfolding find_end
find_end_lem n [] i h = absurd (ground arith)
find_end_lem n (e ∷ t) i h = elim (Bool-cases (e.frequency == table_end)) [
  | inl y ↦ (zero, ground arith, omega arith, ground arith, λ j l. absurd (omega arith))
  | inr y ↦
      let (d, p, l, g, f) = find_end_lem (n + 1) t i (ground arith) in
      let ne : e.frequency ≢ table_end = ground arith in
      (suc d, omega arith, omega arith, g, before e t d ne f)
]

-- The end is found, if there is one.
find_end_finds :
    (n d : ℕ) (t : List Entry)
    → d < length t
    → frequency_at t d ≡ table_end
    → (i : ℕ) × (find_end n t ≡ some i) × (i ≤ n + d)
unfolding find_end
find_end_finds n d [] l h = absurd (omega arith)
find_end_finds n zero (e ∷ t) l h = (n, ground arith, omega arith)
find_end_finds n (suc d) (e ∷ t) l h = elim (Bool-cases (e.frequency == table_end)) [
  | inl y ↦ (n, ground arith, omega arith)
  | inr y ↦
      let (i, p, q) = find_end_finds (n + 1) d t (omega arith) h in (i, ground arith, omega arith)
]

-- A table whose entry `e` and all up to `k` have the frequency of the entry before `e`, and which
-- is otherwise as `t`.
pub record Extended (e k : ℕ) (t t' : List Entry) : Type 0 where
  pub same_length : length t' ≡ length t
  pub copied : (j : ℕ) → e ≤ j → j < k → frequency_at t' j ≡ frequency_at t (e - 1)
  pub low : (j : ℕ) → j < e → frequency_at t' j ≡ frequency_at t j
  pub high : (j : ℕ) → k ≤ j → frequency_at t' j ≡ frequency_at t j

Extended-refl : (e : ℕ) (t : List Entry) → Extended e e t t
Extended-refl e t = record {
  same_length = refl;
  copied = λ j a c. absurd (omega arith);
  low = λ j a. refl;
  high = λ j a. refl;
}

copy_prev_lem :
    (e i : ℕ) (t t' : List Entry)
    → 0 < e
    → e ≤ i
    → i < length t
    → Extended e i t t'
    → (t2 : List Entry) × (copy_prev i t' ≡ some t2) × Extended e (i + 1) t t2
unfolding copy_prev
copy_prev_lem e zero t t' p q l x = absurd (omega arith)
copy_prev_lem e (suc i) t t' p q l x =
    let new : Entry = record { index = suc i; frequency = frequency_at t' i } in
    let b : suc i < length t' = omega (arith, x.same_length) in
    let last : frequency_at t' i ≡ frequency_at t (e - 1) = elim (Bool-cases (ltb i e)) [
      | inl h ↦
          let same : i ≡ e - 1 = ground arith in x.low i (ground arith) ∙ ap (frequency_at t) same
      | inr h ↦ x.copied i (ground arith) (omega arith)
    ] in
    let self : frequency_at (set t' (suc i) new) (suc i) ≡ frequency_at t' i =
      ap (λ (n : Entry). n.frequency) (get_or-set_self t' (suc i) new no_entry b) in
    let other = λ (j : ℕ) (ne : suc i ≢ j).
      ap (λ (n : Entry). n.frequency) (get_or-set_ne t' (suc i) j new no_entry ne) in
    (
      set t' (suc i) new,
      rw (lt→ltb (suc i) (length t') b) refl,
      record {
        same_length = length-set t' (suc i) new ∙ x.same_length;
        copied = λ j a c. elim (Bool-cases (suc i == j)) [
          | inl h ↦
              let same : suc i ≡ j = ground arith in
              subst (λ (k : ℕ). frequency_at (set t' (suc i) new) k ≡ frequency_at t (e - 1)) same
                (self ∙ last)
          | inr h ↦ other j (ground arith) ∙ x.copied j a (ground arith)
        ];
        low = λ j a. other j (λ h. omega arith) ∙ x.low j a;
        high = λ j a. other j (λ h. omega arith) ∙ x.high j (omega arith);
      },
    )

extend_lem :
    (n e i : ℕ) (t t' : List Entry)
    → 0 < e
    → e ≤ i
    → i + n ≤ length t
    → Extended e i t t'
    → (t2 : List Entry) × (extend n i (some t') ≡ some t2) × Extended e (i + n) t t2
unfolding extend
extend_lem zero e i t t' p q l x = (t', refl, subst (λ k. Extended e k t t') (omega arith) x)
extend_lem (suc n) e i t t' p q l x =
    let (t1, a, x1) = copy_prev_lem e i t t' p q (omega arith) x in
    let (t2, b, x2) = extend_lem n e (i + 1) t t1 p (omega arith) (omega arith) x1 in
    (t2, ap (extend n (i + 1)) a ∙ b, subst (λ k. Extended e k t t2) (omega arith) x2)

-- A frequency table that ends at entry `max_opp` and not before.
pub record Ended (max_opp : ℕ) (t : List Entry) : Type 0 where
  pub room : max_opp < length t
  pub inner : (i : ℕ) → i < max_opp → frequency_at t i ≢ table_end
  pub ends : frequency_at t max_opp ≡ table_end

Extended-Ended :
    (max_opp d : ℕ) (t t' : List Entry)
    → 0 < d
    → d ≤ max_opp
    → max_opp < length t
    → frequency_at t max_opp ≡ table_end
    → ((j : ℕ) → j < d → frequency_at t j ≢ table_end)
    → Extended d max_opp t t'
    → Ended max_opp t'
Extended-Ended max_opp d t t' pos q l stop f x = record {
  room = omega (arith, x.same_length);
  inner = λ j k. elim (Bool-cases (ltb j d)) [
    | inl y ↦ λ e. f j (ground arith) (sym (x.low j (ground arith)) ∙ e)
    | inr y ↦ λ e. f (d - 1) (omega arith) (sym (x.copied j (ground arith) k) ∙ e)
  ];
  ends = x.high max_opp (omega arith) ∙ stop;
}

-- If the table has an entry beyond the last operating point and does not end at once,
-- overclock_init returns a table that ends at entry `max_opp`, the last operating point, and not
-- before: the entries before the old end keep their frequencies, and those from it to `max_opp`
-- have the frequency of the entry before the old end.
pub init_table-Ended :
    (max_opp : ℕ) (t : List Entry)
    → 0 < max_opp
    → max_opp < length t
    → frequency_at t 0 ≢ table_end
    → (t' : List Entry) × (init_table max_opp t ≡ some t')
      × Ended max_opp t'
      × ((e : ℕ) × (0 < e)
          × ((j : ℕ) → j < e → j < max_opp → frequency_at t' j ≡ frequency_at t j)
          × ((j : ℕ) → e ≤ j → j < max_opp → frequency_at t' j ≡ frequency_at t (e - 1))
          × ((j : ℕ) → j < e → j < max_opp → frequency_at t j ≢ table_end)
          × (e < max_opp → frequency_at t e ≡ table_end))
unfolding init_table
init_table-Ended max_opp t p l h =
    let last : Entry = record { index = max_opp; frequency = table_end } in
    let t1 = set t max_opp last in
    let size = length-set t max_opp last in
    let other = λ (j : ℕ) (ne : max_opp ≢ j).
      ap (λ (n : Entry). n.frequency) (get_or-set_ne t max_opp j last no_entry ne) in
    let stop : frequency_at t1 max_opp ≡ table_end =
      ap (λ (n : Entry). n.frequency) (get_or-set_self t max_opp last no_entry l) in
    let (i, a, b) = find_end_finds 0 max_opp t1 (omega (arith, size)) stop in
    let (d, q, r, g, f) = find_end_lem 0 t1 i a in
    let same : i ≡ d = omega arith in
    let pos : 0 < d = elim (Bool-cases (ltb 0 d)) [
      | inl y ↦ ground arith
      | inr y ↦
          let zero_d : 0 ≡ d = ground arith in
          absurd (h (sym (other 0 (omega arith)) ∙ ap (frequency_at t1) zero_d ∙ g))
    ] in
    let (t', x, y) =
      extend_lem (max_opp - d) d d t1 t1 pos (omega arith) (omega (arith, size))
        (Extended-refl d t1) in
    let full : d + (max_opp - d) ≡ max_opp = omega arith in
    let ext : Extended d max_opp t1 t' = subst (λ k. Extended d k t1 t') full y in
    (
      t',
      rw (lt→ltb max_opp (length t) l)
          (ap (λ o. extend_from max_opp o t1) (a ∙ ap (λ (k : ℕ). some k) same) ∙ x),
      Extended-Ended max_opp d t1 t' pos (omega arith) (omega (arith, size)) stop f ext,
      (
        d,
        pos,
        λ j k m. ext.low j k ∙ other j (omega arith),
        λ j k m. ext.copied j k m ∙ other (d - 1) (omega arith),
        λ j k m e. f j k (other j (omega arith) ∙ e),
        λ k. sym (other d (omega arith)) ∙ g,
      ),
    )
