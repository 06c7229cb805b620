-- ===== src/Sensors/ControlLaws.antt =====
-- The device of the chip is open while it is needed, and measures as often as is asked for.
use android_device_motorola.Prelude.{
  ℕ, zero, suc, ◌/◌, ◌^◌, ◌≤◌, ◌<◌, ◌≡◌, ◌⊎◌, refl, sym, Bool, true, false, ◌&&◌, Option, none,
  some, List, [], ◌∷◌, ◌==◌, ◌!=◌, ltb, put, u16, arith, ◌∙◌, Bool-cases, inl, inr, subst,
}
use android_device_motorola.Sensors.Compass.{any, num_sensors, temperature}
use android_device_motorola.Sensors.Control.{
  Handle, what_of, Control, Ioctl, set_flag, set_delay_ms, Kernel, ioctl, sooner, longest,
  wanted_delay, update_delay, delay_for, set_delay, opened, closed_unused, with_flag, pend, switch,
  same, enable_sensor, enable, Call, enables, delays_by, calls,
}

-- The device is open exactly while a sensor is enabled.
abbrev pub InStep : Control → Type 0
InStep s = s.open_device ≡ any s.enabled

closed_unused-InStep :
    (s : Control) → (any s.enabled ≡ true → s.open_device ≡ true) → InStep (closed_unused s)
closed_unused-InStep s h = elim (Bool-cases (any s.enabled)) [
  | inl used ↦ rw used (h used ∙ sym used)
  | inr free ↦ rw free (sym free)
]

pend-InStep : (i : ℕ) (state : Bool) (s : Control) → InStep s → InStep (pend i state s)
pend-InStep i state s h = elim (Bool-cases (i == temperature && state)) [
  | inl starts ↦ rw starts h
  | inr other ↦ rw other h
]

ioctl-open :
    (k : Kernel) (open_device : Bool) (c : Ioctl)
    → (ioctl k open_device c == 0) ≡ true
    → open_device ≡ true
unfolding ioctl
ioctl-open k true c h = refl
ioctl-open k false c h = cc

switch-InStep :
    (k : Kernel) (i : ℕ) (state : Bool) (s : Control)
    → (any s.enabled ≡ true → s.open_device ≡ true)
    → InStep (switch k i state s).1
unfolding switch
switch-InStep k i state s h = elim (Bool-cases (ioctl k s.open_device (set_flag i state) == 0)) [
  | inl works ↦ rw works (
      pend-InStep i state (closed_unused (with_flag i state s)) (
        closed_unused-InStep (with_flag i state s)
          (λ e. ioctl-open k s.open_device (set_flag i state) works)))
  | inr fails ↦ rw fails (pend-InStep i state (closed_unused s) (closed_unused-InStep s h))
]

enable_sensor-InStep :
    (k : Kernel) (o : Option ℕ) (state : Bool) (s : Control)
    → InStep s
    → InStep (enable_sensor k o state s).1
enable_sensor-InStep k none state s h = h
enable_sensor-InStep k (some i) state s h = elim (Bool-cases (same state (s.enabled i))) [
  | inl unchanged ↦ rw unchanged h
  | inr changes ↦ rw changes (
      switch-InStep k i state (opened k s) (elim (Bool-cases (any s.enabled)) [
        | inl used ↦ rw used (λ e. h ∙ used)
        | inr free ↦ rw free (λ e. cc)
      ]))
]

delay_for-InStep :
    (k : Kernel) (o ns : Option ℕ) (s : Control) → InStep s → InStep (delay_for k o ns s).1
delay_for-InStep k none ns s h = h
delay_for-InStep k (some i) none s h = h
delay_for-InStep k (some i) (some n) s h = h

-- Through any calls of enable and setDelay, whatever the kernel answers to each, the device stays
-- open exactly while a sensor is enabled, if it was so before.
pub calls-InStep : (cs : List (Kernel × Call)) (s : Control) → InStep s → InStep (calls cs s)
unfolding enable set_delay
calls-InStep [] s h = h
calls-InStep ((k, enables hd en) ∷ cs) s h =
    calls-InStep cs (enable k hd en s).1 (enable_sensor-InStep k (what_of hd) (en != 0) s h)
calls-InStep ((k, delays_by hd ns) ∷ cs) s h =
    calls-InStep cs (set_delay k hd ns s).1 (delay_for-InStep k (what_of hd) ns s h)

-- The delay `w` is the least one of the sensors that are enabled.
pub record Least (s : Control) (w : ℕ) : Type 0 where
  pub below : (i : ℕ) → i < 4 → s.enabled i ≡ true → w ≤ s.delays i
  pub reached : (i : ℕ) × (i < 4) × (s.enabled i ≡ true) × (w ≡ s.delays i)

wanted_delay-below :
    (n : ℕ) (s : Control) (i : ℕ) → i < n → s.enabled i ≡ true → wanted_delay n s ≤ s.delays i
unfolding wanted_delay
wanted_delay-below zero s i h e = absurd (omega arith)
wanted_delay-below (suc n) s i h e = elim (Bool-cases (i == n)) [
  | inl here ↦
      let same_sensor : n ≡ i = ground arith in
      subst (λ j. sooner s j (wanted_delay n s) ≤ s.delays i) (sym same_sensor) (ground (arith, e))
  | inr there ↦ ground (arith, wanted_delay-below n s i (ground arith) e)
]

wanted_delay-reached :
    (n : ℕ) (s : Control)
    → (wanted_delay n s ≡ longest)
      ⊎ ((i : ℕ) × (i < n) × (s.enabled i ≡ true) × (wanted_delay n s ≡ s.delays i))
unfolding wanted_delay
wanted_delay-reached zero s = inl refl
wanted_delay-reached (suc n) s = elim (Bool-cases (s.enabled n)) [
  | inl used ↦ rw used (elim (Bool-cases (ltb (wanted_delay n s) (s.delays n))) [
    | inl sooner' ↦ rw sooner' (widen (wanted_delay n s) (wanted_delay-reached n s))
    | inr later ↦ rw later (inr (n, omega arith, used, refl))
  ])
  | inr unused ↦ rw unused (widen (wanted_delay n s) (wanted_delay-reached n s))
]
  where
    widen :
        (w : ℕ)
        → (w ≡ longest) ⊎ ((i : ℕ) × (i < n) × (s.enabled i ≡ true) × (w ≡ s.delays i))
        → (w ≡ longest) ⊎ ((i : ℕ) × (i < suc n) × (s.enabled i ≡ true) × (w ≡ s.delays i))
    widen w (inl e) = inl e
    widen w (inr (i, l, u, e)) = inr (i, omega arith, u, e)

any-enabled : (s : Control) → any s.enabled ≡ true → (i : ℕ) × (i < 4) × (s.enabled i ≡ true)
unfolding any
any-enabled s h = elim (Bool-cases (s.enabled 0)) [
  | inl used ↦ (0, omega arith, used)
  | inr free0 ↦ elim (Bool-cases (s.enabled 1)) [
    | inl used ↦ (1, omega arith, used)
    | inr free1 ↦ elim (Bool-cases (s.enabled 2)) [
      | inl used ↦ (2, omega arith, used)
      | inr free2 ↦ (3, omega arith, ground arith)
    ]
  ]
]

wanted_delay-Least :
    (s : Control)
    → any s.enabled ≡ true
    → ((i : ℕ) → s.delays i < 2 ^ 63)
    → Least s (wanted_delay num_sensors s)
wanted_delay-Least s used small = record {
  below = λ i h e. wanted_delay-below num_sensors s i h e;
  reached = elim (wanted_delay-reached num_sensors s) [
    | inr found ↦ found
    | inl nothing ↦
        let (i, l, e) = any-enabled s used in
        absurd (omega (arith, nothing, small i, wanted_delay-below num_sensors s i l e))
  ];
}

-- An accepted delay for a sensor, with all delays below 2 ^ 63 ns and a sensor that is enabled, is
-- stored, and the chip is told the least delay of the enabled sensors, in ms and cut to 16 bits.
pub set_delay-Least :
    (k : Kernel) (h : Handle) (i ns : ℕ) (s : Control)
    → what_of h ≡ some i
    → ns < 2 ^ 63
    → ((j : ℕ) → s.delays j < 2 ^ 63)
    → any s.enabled ≡ true
    → let (err, s', l) = set_delay k h (some ns) s in
      (s'.delays i ≡ ns) × ((w : ℕ) × Least s' w × (l ≡ set_delay_ms (u16 (w / 1000000)) ∷ []))
unfolding set_delay update_delay
set_delay-Least k h i ns s e n small used =
    let s' = record s { delays = put s.delays i ns } in
    let kept : (j : ℕ) → s'.delays j < 2 ^ 63 = λ j. ground (arith, small j) in
    rw (e, used)
      (ground arith, (wanted_delay num_sensors s', wanted_delay-Least s' used kept, refl))
