-- ===== src/Boosted/GovernorLaws.antt =====
-- The ideal speed of the boosted governor through all events of a phone with one CPU.
use android_device_motorola.Prelude.{
  ℕ, ◌+◌, ◌≡◌, ◌≢◌, inl, inr, Bool, true, false, not, ◌||◌, Option, none, some, List, [], ◌∷◌, ltb,
  ◌==◌, ◌!=◌, if◌then◌else◌, u32, sub32, sltb, refl, arith, Bool-cases, if_cases, sym, ◌∙◌, ap,
}
use android_device_motorola.Cpufreq.{Policy, Clock, Call, relation_l, relation_h, driver_target}
use android_device_motorola.Boosted.State.{Tunables, BoostedInfo}
use android_device_motorola.Boosted.Speed.{ideal_speed, boosted_update_min_max}
use android_device_motorola.Boosted.Timer.{reset_timer}
use android_device_motorola.Boosted.Governor.{
  Global, Outcome, Found, start_sample, on_limits, on_start, on_stop, boosted_suspend, suspend_cpus,
  boosted_early_suspend, boosted_late_resume,
}
use android_device_motorola.Boosted.Stores.{
  Attr, debug_mask, up_rate_us, down_rate_us, sleep_ideal_freq, sleep_wakeup_freq, awake_ideal_freq,
  sample_rate_jiffies, ramp_up_step, ramp_down_step, max_cpu_load, min_cpu_load, accepts, assign,
  boosted_update_min_max_allcpus, updates_speeds, store,
}

-- The only CPU: its policy, the shared state and its own.
pub record Cpu : Type 0 where
  pub policy : Policy
  pub global : Global
  pub info : BoostedInfo

-- What happens to it. The kernel changes the policy before it tells of new limits.
pub data Event : Type 0 where
  start : Found → Policy → Event
  limits : Found → Policy → ℕ → Event
  stop : Event
  set : Attr → Option ℕ → Event
  early_suspend late_resume : ℕ → Clock → Clock → Event

abbrev pub result_of : Policy → Outcome → Cpu
result_of policy o = record { policy = policy; global = o.global; info = o.info }

unfoldable pub on_event : Event → Cpu → Cpu
on_event (start f p) c =
    result_of (if not f.online || p.cur == 0 then c.policy else p) (on_start f p c.global c.info)
on_event (limits f p cur) c = result_of p (on_limits f p cur c.global c.info)
on_event stop c = result_of c.policy (on_stop c.global c.info)
on_event (set a text) c =
    let (g, infos) = store a text (λ i. c.policy) (0 ∷ []) c.global (λ i. c.info) in
    record c { global = g; info = infos 0 }
on_event (early_suspend j now again) c =
    result_of c.policy (boosted_early_suspend 1 c.policy j now again c.global c.info)
on_event (late_resume j now again) c =
    result_of c.policy (boosted_late_resume 1 c.policy j now again c.global c.info)

unfoldable pub on_events : List Event → Cpu → Cpu
on_events [] c = c
on_events (e ∷ es) c = on_events es (on_event e c)

-- The ideal speed is the one of the tunables, the policy and the state, awake or suspended.
abbrev pub UpToDate : Cpu → Type 0
UpToDate c =
    c.info.enable ≡ true
    → c.info.ideal_speed ≡ ideal_speed c.global.tunables c.policy c.global.suspended

start_sample-keeps :
    (f : Found) (cur : ℕ) (p : Policy) (calls : List Call) (g : Global) (info : BoostedInfo)
    → let o = start_sample f cur p calls g info in
      (o.info.ideal_speed ≡ info.ideal_speed) × (o.info.enable ≡ info.enable) × (o.global ≡ g)
unfolding start_sample reset_timer
start_sample-keeps f cur p calls g info = ground arith

-- The same of an outcome.
abbrev Leaves : Policy → Outcome → Type 0
Leaves p o = UpToDate (result_of p o)

sampled :
    (f : Found) (cur : ℕ) (p : Policy) (calls : List Call) (g : Global) (info : BoostedInfo)
    → info.ideal_speed ≡ ideal_speed g.tunables p g.suspended
    → Leaves p (start_sample f cur p calls g info)
sampled f cur p calls g info e on =
    let (a, b, c) = start_sample-keeps f cur p calls g info in
    a ∙ e ∙ ap (λ (h : Global). ideal_speed h.tunables p h.suspended) (sym c)

on_limits-UpToDate :
    (f : Found) (p : Policy) (cur : ℕ) (g : Global) (info : BoostedInfo)
    → Leaves p (on_limits f p cur g info)
unfolding on_limits boosted_update_min_max
on_limits-UpToDate f p cur g info =
    let i = boosted_update_min_max g.tunables p g.suspended info in
    if_cases (Leaves p) (ltb p.max cur)
      (λ _. sampled f f.cur_after p (driver_target p.max relation_h ∷ []) g i refl)
      (λ _.
        if_cases (Leaves p) (ltb cur p.min)
          (λ _. sampled f f.cur_after p (driver_target p.min relation_l ∷ []) g i refl)
          (λ _. sampled f cur p [] g i refl))

on_start-UpToDate :
    (f : Found) (p : Policy) (c : Cpu) → UpToDate c → UpToDate (on_event (start f p) c)
unfolding on_event on_start boosted_update_min_max
on_start-UpToDate f p c u =
    let refused = not f.online || p.cur == 0 in
    let g = record c.global { active_count = u32 (c.global.active_count + 1) } in
    let i = boosted_update_min_max g.tunables p g.suspended (record c.info { enable = true }) in
    elim (Bool-cases refused) [
      | inl e ↦ rw e u
      | inr e ↦ rw e (
          if_cases (Leaves p) (sltb 1 g.active_count) (λ _. sampled f p.cur p [] g i refl)
            (λ _.
              if_cases (Leaves p) (f.rc != 0) (λ _ on. refl) (λ _. sampled f p.cur p [] _ i refl)))
    ]

stop-UpToDate : (c : Cpu) → UpToDate (on_event stop c)
unfolding on_event on_stop
stop-UpToDate c =
    if_cases (Leaves c.policy) (sltb 1 (sub32 c.global.active_count 1)) (λ _ on. cc) (λ _ on. cc)

suspended-UpToDate :
    (suspend : Bool) (p : Policy) (j : ℕ) (now again : Clock) (t : Tunables) (info : BoostedInfo)
    → let i = (suspend_cpus 1 suspend p j now again t info).1 in
      i.enable ≡ true → i.ideal_speed ≡ ideal_speed t p suspend
unfolding suspend_cpus boosted_suspend boosted_update_min_max reset_timer
suspended-UpToDate true p j now again t info on = ground arith
suspended-UpToDate false p j now again t info on = ground arith

early_suspend-UpToDate :
    (j : ℕ) (now again : Clock) (c : Cpu)
    → UpToDate c
    → UpToDate (on_event (early_suspend j now again) c)
unfolding on_event boosted_early_suspend
early_suspend-UpToDate j now again c u =
    if_cases (Leaves c.policy) (c.global.suspended || c.global.tunables.sleep_ideal_freq == 0)
      (λ _. u) (λ _. suspended-UpToDate true c.policy j now again c.global.tunables c.info)

late_resume-UpToDate :
    (j : ℕ) (now again : Clock) (c : Cpu)
    → UpToDate c
    → UpToDate (on_event (late_resume j now again) c)
unfolding on_event boosted_late_resume
late_resume-UpToDate j now again c u =
    if_cases (Leaves c.policy) (not c.global.suspended) (λ _. u)
      (λ _. suspended-UpToDate false c.policy j now again c.global.tunables c.info)

-- A store function that does not update the ideal speeds need not.
assign-ideal :
    (a : Attr) (n : ℕ) (t : Tunables) (p : Policy) (s : Bool)
    → updates_speeds a s ≡ false
    → ideal_speed (assign a n t) p s ≡ ideal_speed t p s
unfolding assign ideal_speed
assign-ideal sleep_ideal_freq n t p true e = cc
assign-ideal sleep_ideal_freq n t p false e = refl
assign-ideal awake_ideal_freq n t p true e = refl
assign-ideal awake_ideal_freq n t p false e = cc
assign-ideal debug_mask n t p s e = refl
assign-ideal up_rate_us n t p s e = refl
assign-ideal down_rate_us n t p s e = refl
assign-ideal sleep_wakeup_freq n t p s e = refl
assign-ideal sample_rate_jiffies n t p s e = refl
assign-ideal ramp_up_step n t p s e = refl
assign-ideal ramp_down_step n t p s e = refl
assign-ideal max_cpu_load n t p s e = refl
assign-ideal min_cpu_load n t p s e = refl

set-UpToDate :
    (a : Attr) (text : Option ℕ) (c : Cpu) → UpToDate c → UpToDate (on_event (set a text) c)
unfolding on_event store boosted_update_min_max_allcpus boosted_update_min_max
set-UpToDate a none c u = u
set-UpToDate a (some n) c u =
    let s = c.global.suspended in
    let t = assign a n c.global.tunables in
    let new : Global = record c.global { tunables = t } in
    let P = λ (i : ℕ → BoostedInfo). UpToDate (record c { global = new; info = i 0 }) in
    elim (Bool-cases (accepts a n)) [
      | inr e ↦ rw e u
      | inl e ↦ rw e (elim (Bool-cases (updates_speeds a s)) [
        | inl up ↦ rw up (if_cases P c.info.enable (λ _ on. refl) (λ off on. cc))
        | inr same ↦ rw same (λ on. u on ∙ sym (assign-ideal a n c.global.tunables c.policy s same))
      ])
    ]

on_event-UpToDate : (e : Event) (c : Cpu) → UpToDate c → UpToDate (on_event e c)
on_event-UpToDate (start f p) c u = on_start-UpToDate f p c u
on_event-UpToDate (limits f p cur) c u =
    unfold on_event in on_limits-UpToDate f p cur c.global c.info
on_event-UpToDate stop c u = stop-UpToDate c
on_event-UpToDate (set a text) c u = set-UpToDate a text c u
on_event-UpToDate (early_suspend j now again) c u = early_suspend-UpToDate j now again c u
on_event-UpToDate (late_resume j now again) c u = late_resume-UpToDate j now again c u

-- On a phone with one CPU, whatever events the governor gets, with whatever answers of the kernel,
-- and whatever is written to its attributes, the ideal speed of an enabled CPU is the one that the
-- present tunables, limits and suspended state give, if it was before.
pub on_events-UpToDate : (es : List Event) (c : Cpu) → UpToDate c → UpToDate (on_events es c)
unfolding on_events
on_events-UpToDate [] c u = u
on_events-UpToDate (e ∷ es) c u = on_events-UpToDate es (on_event e c) (on_event-UpToDate e c u)

-- A start that registers the attributes and fails returns the error, but leaves the CPU enabled and
-- counted, without the idle hook and without a timer.
pub on_start-fails :
    (f : Found) (p : Policy) (g : Global) (info : BoostedInfo)
    → f.online ≡ true
    → p.cur ≢ 0
    → g.active_count ≡ 0
    → f.rc ≢ 0
    → let o = on_start f p g info in
      (o.ret ≡ f.rc)
      × (o.calls ≡ [])
      × (o.info.enable ≡ true)
      × (o.global.active_count ≡ 1)
      × (o.global.pm_idle ≡ g.pm_idle)
      × (o.global.sysfs_group ≡ g.sysfs_group)
unfolding on_start boosted_update_min_max
on_start-fails f p g info on cur count rc = ground arith
