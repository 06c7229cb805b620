-- ===== src/Lights/Laws.antt =====
-- What the lights show after requests to the module of liblights/lights.c.
use android_device_motorola.Prelude.{
  ℕ, ◌<◌, ◌≡◌, ◌≢◌, Bool, true, false, Option, some, List, [], ◌∷◌, ltb, ◌==◌, ◌!=◌, ◌||◌,
  if◌then◌else◌, refl, arith, ◌∙◌, ap, Bool-cases, inl, inr, subst, sym,
}
use android_device_motorola.Lights.{
  File, button_on, red_led, red_blink, green_led, blue_led, charge_led, file_no, LightState, Lights,
  ChargeLed, rgb, white, led_off, other_text, dark, write_int, red_of, green_of, blue_of, is_lit,
  rgb_to_brightness, scaled, write_buttons, set_light_buttons, set_light_locked, shown, show_charge,
  handle_light_locked, uses_charge_led, kept_battery, set_light_battery, set_light_notification,
}

-- No write fails.
abbrev pub no_errors : File → ℕ
no_errors f = 0

-- The LED has the colour and the blinking of a light, and the charge LED is on or off.
pub record Displays (s : LightState) (charge : Bool) (files : ℕ → ℕ) : Type 0 where
  pub red : files (file_no red_led) ≡ red_of s
  pub green : files (file_no green_led) ≡ green_of s
  pub blue : files (file_no blue_led) ≡ blue_of s
  pub blink : files (file_no red_blink) ≡ (if s.flash then 255 else 0)
  pub charges : files (file_no charge_led) ≡ (if charge then 1 else 0)

handle_light_locked-Displays :
    (l : Lights) → Displays (shown l) (show_charge l) (handle_light_locked no_errors l).files
unfolding handle_light_locked set_light_locked write_int
handle_light_locked-Displays l = elim (Bool-cases (shown l).flash) [
  | inl e ↦ record {
    red = rw e refl;
    green = rw e refl;
    blue = rw e refl;
    blink = rw e refl;
    charges = refl;
  }
  | inr e ↦ record {
    red = rw e refl;
    green = rw e refl;
    blue = rw e refl;
    blink = rw e refl;
    charges = refl;
  }
]

-- The requests that share the LED.
pub data Ask : Type 0 where
  battery : ChargeLed → LightState → Ask
  notification : LightState → Ask

unfoldable pub ask : Ask → Lights → Lights
ask (battery prop s) l = set_light_battery no_errors prop s l
ask (notification s) l = set_light_notification no_errors s l

unfoldable pub asks : List Ask → Lights → Lights
asks [] l = l
asks (a ∷ l) s = asks l (ask a s)

-- The last notification and the last battery light of a list, if there is one.
abbrev pub last_notification : List Ask → LightState → LightState
last_notification [] s = s
last_notification (battery prop b ∷ l) s = last_notification l s
last_notification (notification n ∷ l) s = last_notification l n

-- What a battery light asks for under each setting of the charge LED: by default its own colour;
-- with "white" the charge LED in the place of a light that has both red and green, and with "off"
-- nothing in the place of one that has green.
abbrev pub battery_view : ChargeLed → LightState → LightState × Bool
battery_view rgb s = (s, false)
battery_view white s = if green_of s == 0 || red_of s == 0 then (s, false) else (dark, true)
battery_view led_off s = if green_of s == 0 then (s, false) else (dark, false)
battery_view other_text s = (s, false)

kept-view :
    (prop : ChargeLed) (s : LightState)
    → battery_view prop s ≡ (kept_battery prop s, uses_charge_led prop s)
unfolding kept_battery uses_charge_led
kept-view rgb s = ground arith
kept-view white s = ground arith
kept-view led_off s = ground arith
kept-view other_text s = ground arith

abbrev pub last_battery : List Ask → LightState × Bool → LightState × Bool
last_battery [] s = s
last_battery (battery prop b ∷ l) s = last_battery l (battery_view prop b)
last_battery (notification n ∷ l) s = last_battery l s

-- What is displayed for a notification and a battery light.
abbrev pub Wanted : LightState → LightState × Bool → (ℕ → ℕ) → Type 0
Wanted n (b, charge) files = if is_lit n then Displays n false files else Displays b charge files

ask-Wanted :
    (l : Lights)
    → Wanted l.g_notification
        (l.g_battery, l.g_charge_led_active)
        (handle_light_locked no_errors l).files
ask-Wanted l =
    let h = handle_light_locked-Displays l in
    elim (Bool-cases (is_lit l.g_notification)) [
      | inl e ↦ rw e (rw e at h)
      | inr e ↦ rw e (rw e at h)
    ]

-- After any requests for the battery and the notification light, if no write fails and the LED
-- showed what it should before: if the last notification is lit, it shows that one, with the charge
-- LED off; otherwise it and the charge LED show what the last battery light asks for under the
-- setting of the charge LED.
pub asks-Wanted :
    (l : List Ask) (s : Lights)
    → Wanted s.g_notification (s.g_battery, s.g_charge_led_active) s.files
    → Wanted
        (last_notification l s.g_notification)
        (last_battery l (s.g_battery, s.g_charge_led_active))
        (asks l s).files
unfolding asks ask set_light_battery set_light_notification handle_light_locked
asks-Wanted [] s w = w
asks-Wanted (battery prop b ∷ l) s w =
    let s' : Lights = record s {
      g_battery = kept_battery prop b;
      g_charge_led_active = uses_charge_led prop b;
    } in
    subst
      (λ v.
        Wanted (last_notification l s.g_notification) (last_battery l v)
          (asks l (ask (battery prop b) s)).files)
      (sym (kept-view prop b)) (asks-Wanted l (ask (battery prop b) s) (ask-Wanted s'))
asks-Wanted (notification n ∷ l) s w =
    asks-Wanted l (ask (notification n) s) (ask-Wanted (record s { g_notification = n }))

write_buttons_fails :
    (errs : File → ℕ) (b : ℕ) (files : ℕ → ℕ)
    → 0 < b
    → errs button_on ≢ 0
    → write_buttons errs b (some 0) files ≡ (errs button_on, files)
unfolding write_buttons write_int
write_buttons_fails errs b files p h =
    let on : ltb 0 b ≡ true = ground arith in
    let bad : (errs button_on == 0) ≡ false = ground arith in rw (on, bad) (rw bad refl)

write_buttons_again :
    (b : ℕ) (files : ℕ → ℕ) → 0 < b → write_buttons no_errors b (some b) files ≡ (0, files)
unfolding write_buttons write_int
write_buttons_again b files p =
    let on : ltb 0 b ≡ true = ground arith in
    let lit : (b == 0) ≡ false = ground arith in
    let same : (b != b) ≡ false = ground arith in rw (on, lit, same) refl

-- Where the buttons are off, a request to light them whose first write fails returns the error and
-- leaves them off; the same request without an error then returns 0 and still leaves them off.
pub set_light_buttons-lost :
    (errs : File → ℕ) (prop : Option ℕ) (s : LightState) (l : Lights)
    → l.g_last_button_brightness ≡ some 0
    → 0 < scaled prop (rgb_to_brightness s)
    → errs button_on ≢ 0
    → let (err, l1) = set_light_buttons errs prop s l in
      let (err2, l2) = set_light_buttons no_errors prop s l1 in
      (err ≡ errs button_on) × (err2 ≡ 0) × (l2.files ≡ l.files)
unfolding set_light_buttons
set_light_buttons-lost errs prop s l e p h =
    let b = scaled prop (rgb_to_brightness s) in
    let first =
      ap (λ o. write_buttons errs b o l.files) e ∙ write_buttons_fails errs b l.files p h in
    let again = write_buttons_again b l.files p in
    (
      ap (λ (w : ℕ × (ℕ → ℕ)). w.0) first,
      ap (λ (w : ℕ × (ℕ → ℕ)). (write_buttons no_errors b (some b) w.1).0) first
          ∙ ap (λ (w : ℕ × (ℕ → ℕ)). w.0) again,
      ap (λ (w : ℕ × (ℕ → ℕ)). (write_buttons no_errors b (some b) w.1).1) first
          ∙ ap (λ (w : ℕ × (ℕ → ℕ)). w.1) again,
    )
