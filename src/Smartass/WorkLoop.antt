-- ===== src/Smartass/WorkLoop.antt =====
-- The loop of the smartass governor over the CPUs that asked for a frequency.
use android_device_motorola.Prelude.{
  put, ℕ, ◌≤◌, ◌<◌, ◌≡◌, ◌⊎◌, inl, inr, false, List, [], ◌∷◌, ◌++◌, ◌==◌, arith, refl, Bool-cases,
  ◌∙◌, ap, count, sym, Bool,
}
use mathlib.Core.List.{append-nil, append_assoc}
use android_device_motorola.Cpufreq.{relation_l, Call, driver_target}
use android_device_motorola.Smartass.State.{Tunables, SmartassInfo}
use android_device_motorola.Smartass.Speed.{
  Obeys, smartass_update_min_max, smartass_update_min_max-Obeys,
}
use android_device_motorola.Smartass.WorkLaws.{new_freq_between}
use android_device_motorola.Smartass.Work.{
  new_freq, work_step, Reading, World, with_cpu, change_freqs,
}

-- Every call of a list asks the driver of its CPU for a frequency within that CPU's policy, rounded
-- up to the next one that the driver has.
abbrev pub AllWithin : (ℕ → Reading) → List (ℕ × Call) → Type 0
AllWithin read [] = Unit {0}
AllWithin read ((cpu, c) ∷ l) =
    ((f : ℕ) × (c ≡ driver_target f relation_l)
      × ((read cpu).policy.min ≤ f)
      × (f ≤ (read cpu).policy.max))
    × AllWithin read l

-- The speeds of each listed CPU obey the policy that is read for it.
abbrev pub AllObey : (ℕ → Reading) → List ℕ → (ℕ → SmartassInfo) → Type 0
AllObey read [] infos = Unit {0}
AllObey read (cpu ∷ rest) infos = Obeys (read cpu).policy (infos cpu) × AllObey read rest infos

-- Each listed CPU's policy has its minimum at most its maximum.
abbrev pub AllOrdered : (ℕ → Reading) → List ℕ → Type 0
AllOrdered read [] = Unit {0}
AllOrdered read (cpu ∷ rest) =
    ((read cpu).policy.min ≤ (read cpu).policy.max) × AllOrdered read rest

-- The speeds of all CPUs as `smartass_update_min_max` sets them.
abbrev pub updated : Tunables → (ℕ → Reading) → ℕ → (ℕ → SmartassInfo) → ℕ → SmartassInfo
updated t read suspend old cpu = smartass_update_min_max t (old cpu) (read cpu).policy suspend

-- The CPUs that a list of calls is for.
abbrev pub cpus : List (ℕ × Call) → List ℕ
cpus [] = []
cpus ((cpu, c) ∷ l) = cpu ∷ cpus l

cpus-append : (xs ys : List (ℕ × Call)) → cpus (xs ++ ys) ≡ cpus xs ++ cpus ys
cpus-append [] ys = refl
cpus-append ((cpu, c) ∷ xs) ys = ap (◌∷◌ cpu) (cpus-append xs ys)

AllWithin-append :
    (read : ℕ → Reading) (xs ys : List (ℕ × Call))
    → AllWithin read xs
    → AllWithin read ys
    → AllWithin read (xs ++ ys)
AllWithin-append read [] ys p q = q
AllWithin-append read ((cpu, c) ∷ xs) ys p q = (p.0, AllWithin-append read xs ys p.1 q)

-- A CPU's own step leaves its speeds, so all stay within their policies.
AllObey-put :
    (read : ℕ → Reading) (l : List ℕ) (infos : ℕ → SmartassInfo) (cpu : ℕ) (info : SmartassInfo)
    → info.min_speed ≡ (infos cpu).min_speed
    → info.max_speed ≡ (infos cpu).max_speed
    → AllObey read l infos
    → AllObey read l (put infos cpu info)
AllObey-put read [] infos cpu info p q a = tt
AllObey-put read (x ∷ l) infos cpu info p q a =
    (ground arith, AllObey-put read l infos cpu info p q a.1)

change_freqs-AllWithin :
    (t : Tunables) (read : ℕ → Reading) (l : List ℕ) (w : World)
    → AllObey read l w.infos
    → AllWithin read w.calls
    → AllWithin read (change_freqs t read l w).calls
      × (cpus (change_freqs t read l w).calls ≡ cpus w.calls ++ l)
unfolding change_freqs work_step
change_freqs-AllWithin t read [] w o a = (a, sym (append-nil (cpus w.calls)))
change_freqs-AllWithin t read (cpu ∷ l) w o a =
    let r = read cpu in
    let f = new_freq t (w.infos cpu) r.policy r.nr_running in
    let (cs, info) = work_step t (w.infos cpu) r.policy r.nr_running r.now in
    let w' : World = record {
      infos = put w.infos cpu info;
      work_cpumask = put w.work_cpumask cpu false;
      calls = w.calls ++ with_cpu cpu cs;
    } in
    let inside = new_freq_between t (w.infos cpu) r.policy r.nr_running o.0 in
    let rest =
      change_freqs-AllWithin t read l w' (AllObey-put read l w.infos cpu info refl refl o.1)
        (AllWithin-append read w.calls (with_cpu cpu cs) a ((f, refl, inside.0, inside.1), tt)) in
    let listed : cpus (w.calls ++ with_cpu cpu cs) ++ l ≡ cpus w.calls ++ cpu ∷ l =
      rw (cpus-append w.calls (with_cpu cpu cs)) (append_assoc (cpus w.calls) (cpu ∷ []) l) in
    (rest.0, rest.1 ∙ listed)

AllObey-updated :
    (t : Tunables) (read : ℕ → Reading) (suspend : ℕ) (old : ℕ → SmartassInfo) (l : List ℕ)
    → AllOrdered read l
    → AllObey read l (updated t read suspend old)
AllObey-updated t read suspend old [] h = tt
AllObey-updated t read suspend old (cpu ∷ l) (h, hs) = (
  (smartass_update_min_max-Obeys t (old cpu) (read cpu).policy suspend h).0,
  AllObey-updated t read suspend old l hs,
)

-- Where each CPU's speeds are those that the governor has set from the policy that the loop reads
-- for it, awake or suspended, and the policies of the listed CPUs have ordered limits, the loop
-- makes one request for each listed CPU, in order and for no other CPU, and each is within the
-- limits of its CPU's policy.
pub change_freqs-Asks :
    (t : Tunables) (read : ℕ → Reading) (suspend : ℕ) (old : ℕ → SmartassInfo) (mask : ℕ → Bool)
    (l : List ℕ)
    → AllOrdered read l
    → let w : World = record {
      infos = updated t read suspend old;
      work_cpumask = mask;
      calls = [];
    } in
      let asked = (change_freqs t read l w).calls in AllWithin read asked × (cpus asked ≡ l)
change_freqs-Asks t read suspend old mask l h =
    let w : World = record {
      infos = updated t read suspend old;
      work_cpumask = mask;
      calls = [];
    } in
    change_freqs-AllWithin t read l w (AllObey-updated t read suspend old l h) tt

-- After the loop the CPUs of the mask have no request left and no forced ramp, and the others are
-- as they were.
pub change_freqs_clears :
    (t : Tunables) (read : ℕ → Reading) (l : List ℕ) (w : World) (k : ℕ)
    → let w' = change_freqs t read l w in
      ((0 < count k l) × (w'.work_cpumask k ≡ false) × ((w'.infos k).force_ramp_up ≡ 0))
      ⊎ ((count k l ≡ 0) × (w'.work_cpumask k ≡ w.work_cpumask k) × (w'.infos k ≡ w.infos k))
unfolding change_freqs work_step
change_freqs_clears t read [] w k = inr (refl, refl, refl)
change_freqs_clears t read (cpu ∷ l) w k =
    let r = read cpu in
    let (cs, info) = work_step t (w.infos cpu) r.policy r.nr_running r.now in
    let w' : World = record {
      infos = put w.infos cpu info;
      work_cpumask = put w.work_cpumask cpu false;
      calls = w.calls ++ with_cpu cpu cs;
    } in
    elim (Bool-cases (k == cpu)) [
      | inl e ↦ elim (change_freqs_clears t read l w' k) [
        | inl (a, b, c) ↦ inl (omega arith, b, c)
        | inr (a, b, c) ↦ inl (ground arith, b ∙ rw e refl, ap (λ i. i.force_ramp_up) c ∙ rw e refl)
      ]
      | inr e ↦ elim (change_freqs_clears t read l w' k) [
        | inl (a, b, c) ↦ inl (omega arith, b, c)
        | inr (a, b, c) ↦ inr (ground arith, b ∙ rw e refl, c ∙ rw e refl)
      ]
    ]
