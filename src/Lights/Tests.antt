-- ===== src/Lights/Tests.antt =====
-- The lights on concrete requests.
use android_device_motorola.Prelude.{◌<◌, ◌≡◌, true, false, some, none, [], ◌∷◌, refl, arith}
use android_device_motorola.Lights.{
  LightState, Lights, white, dark, no_files, is_lit, rgb_to_brightness, scaled, set_light_buttons,
}
use android_device_motorola.Lights.Laws.{
  battery, notification, asks, Wanted, last_battery, asks-Wanted, no_errors, set_light_buttons-lost,
}

abbrev orange : LightState
orange = record { color = 0xff8000; flash = false; sensor = false }

abbrev blue : LightState
blue = record { color = 0x0000ff; flash = true; sensor = false }

abbrev start : Lights
start = record {
  g_battery = dark;
  g_notification = dark;
  g_charge_led_active = false;
  g_last_button_brightness = some 0;
  files = no_files;
}

start-Wanted : Wanted dark (dark, false) no_files
unfolding is_lit
start-Wanted = record { red = refl; green = refl; blue = refl; blink = refl; charges = refl }

asks-Wanted_example :
    Wanted blue
      (last_battery (battery white orange ∷ notification blue ∷ []) (dark, false))
      (asks (battery white orange ∷ notification blue ∷ []) start).files
asks-Wanted_example = asks-Wanted (battery white orange ∷ notification blue ∷ []) start start-Wanted

bright : 0 < scaled none (rgb_to_brightness orange)
unfolding scaled rgb_to_brightness
bright = omega arith

set_light_buttons-lost_example :
    let (err, l1) = set_light_buttons (λ f. 5) none orange start in
    let (err2, l2) = set_light_buttons no_errors none orange l1 in
    (err ≡ 5) × (err2 ≡ 0) × (l2.files ≡ no_files)
set_light_buttons-lost_example =
    set_light_buttons-lost (λ f. 5) none orange start refl bright (omega arith)
