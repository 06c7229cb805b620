-- ===== src/Lights.antt =====
-- liblights/lights.c: the module of the Android lights interface. The brightness of the display and
-- the buttons, and the coloured LED that the battery and the notifications share.
--
-- What a sysfs file was last set to is a function of the file. A `write_int` can fail with any error
-- number; the arguments `errs` say for which files it does, 0 for those for which it does not.
pub mod Laws
pub mod Tests
use android_device_motorola.Prelude.{
  ℕ, ◌+◌, ◌*◌, ◌/◌, ◌%◌, ◌^◌, Bool, true, false, not, Option, none, some, ltb, ◌==◌, ◌!=◌, ◌&&◌,
  ◌||◌, if◌then◌else◌, put,
}

pub data File : Type 0 where
  als lcd button_on button_bright red_led red_blink green_led blue_led charge_led : File

abbrev pub file_no : File → ℕ
file_no als = 0
file_no lcd = 1
file_no button_on = 2
file_no button_bright = 3
file_no red_led = 4
file_no red_blink = 5
file_no green_led = 6
file_no blue_led = 7
file_no charge_led = 8

-- The fields of `struct light_state_t` that the module reads; `flash` is whether flashMode is not
-- LIGHT_FLASH_NONE, `sensor` whether brightnessMode is BRIGHTNESS_MODE_SENSOR.
pub record LightState : Type 0 where
  pub color : ℕ
  pub flash : Bool
  pub sensor : Bool

-- The globals, with -1 of `g_last_button_brightness` as `none`, and the files.
pub record Lights : Type 0 where
  pub g_battery : LightState
  pub g_notification : LightState
  pub g_charge_led_active : Bool
  pub g_last_button_brightness : Option ℕ
  pub files : ℕ → ℕ

-- The values of the property persist.sys.charge_led; unset it reads as "rgb".
pub data ChargeLed : Type 0 where
  rgb white led_off other_text : ChargeLed

-- A light that is off, as memset leaves it.
abbrev pub dark : LightState
dark = record { color = 0; flash = false; sensor = false }

abbrev pub no_files : ℕ → ℕ
no_files n = 0

unfoldable pub init_globals : Lights → Lights
init_globals l = record l {
  g_battery = dark;
  g_notification = dark;
  g_charge_led_active = false;
  g_last_button_brightness = none;
}

unfoldable pub write_int : (File → ℕ) → File → ℕ → (ℕ → ℕ) → ℕ × (ℕ → ℕ)
write_int errs path value files =
    if errs path == 0 then (0, put files (file_no path) value) else (errs path, files)

-- `(color >> 16) & 0xff`, and so on.
abbrev pub red_of : LightState → ℕ
red_of s = s.color / 2 ^ 16 % 256

abbrev pub green_of : LightState → ℕ
green_of s = s.color / 2 ^ 8 % 256

abbrev pub blue_of : LightState → ℕ
blue_of s = s.color % 256

unfoldable pub is_lit : LightState → Bool
is_lit s = s.color % 2 ^ 24 != 0

unfoldable pub rgb_to_brightness : LightState → ℕ
rgb_to_brightness s = (77 * red_of s + 150 * green_of s + 29 * blue_of s) / 2 ^ 8

unfoldable pub set_light_backlight : (File → ℕ) → LightState → Lights → ℕ × Lights
set_light_backlight errs s l =
    let (err, files) = write_int errs als (if s.sensor then 1 else 2) l.files in
    let (err2, files2) = write_int errs lcd (rgb_to_brightness s) files in
    if err == 0 then (err2, record l { files = files2 }) else (err, record l { files = files })

-- The brightness of the buttons under the property persist.sys.button_brightness, whose number is
-- not negative.
unfoldable pub scaled : Option ℕ → ℕ → ℕ
scaled none brightness = brightness
scaled (some scale) brightness =
    if brightness == 0
    then 0
    else (if scale == 0
        then 0
        else (if scale == 100 then brightness else (brightness * scale + 50) / 100))

-- Whether the buttons have to be switched, and whether their brightness is another one.
abbrev pub switches : Option ℕ → ℕ → Bool
switches none brightness = true
switches (some last) brightness = (last == 0 && ltb 0 brightness) || (ltb 0 last && brightness == 0)

abbrev pub differs : Option ℕ → ℕ → Bool
differs none brightness = true
differs (some last) brightness = brightness != last

-- The writes of set_light_buttons, and their result.
unfoldable pub write_buttons : (File → ℕ) → ℕ → Option ℕ → (ℕ → ℕ) → ℕ × (ℕ → ℕ)
write_buttons errs brightness last files =
    let (err, files1) =
      if switches last brightness
      then write_int errs button_on (if brightness == 0 then 0 else 1) files
      else (0, files) in
    if err == 0 && ltb 0 brightness && differs last brightness
    then write_int errs button_bright brightness files1
    else (err, files1)

unfoldable pub set_light_buttons : (File → ℕ) → Option ℕ → LightState → Lights → ℕ × Lights
set_light_buttons errs prop s l =
    let brightness = scaled prop (rgb_to_brightness s) in
    let (err, files) = write_buttons errs brightness l.g_last_button_brightness l.files in
    (err, record l { g_last_button_brightness = some brightness; files = files })

unfoldable pub set_light_locked : (File → ℕ) → LightState → (ℕ → ℕ) → ℕ × (ℕ → ℕ)
set_light_locked errs s files =
    let (e1, f1) = write_int errs red_blink 0 files in
    let (e2, f2) = write_int errs red_led (red_of s) f1 in
    let (e3, f3) = write_int errs green_led (green_of s) f2 in
    let (e4, f4) = write_int errs blue_led (blue_of s) f3 in
    if s.flash then write_int errs red_blink 255 f4 else (e4, f4)

-- The light that the LED shows, and whether the charge LED is on.
abbrev pub shown : Lights → LightState
shown l = if is_lit l.g_notification then l.g_notification else l.g_battery

abbrev pub show_charge : Lights → Bool
show_charge l = if is_lit l.g_notification then false else l.g_charge_led_active

unfoldable pub handle_light_locked : (File → ℕ) → Lights → Lights
handle_light_locked errs l =
    let (retval, files) = set_light_locked errs (shown l) l.files in
    let (err, files2) = write_int errs charge_led (if show_charge l then 1 else 0) files in
    record l { files = files2 }

-- `strcmp(prop, ...) == 0`
abbrev pub is_white : ChargeLed → Bool
is_white white = true
is_white _ = false

abbrev pub is_off : ChargeLed → Bool
is_off led_off = true
is_off _ = false

-- What set_light_battery keeps of a request: whether the charge LED is used, and the light.
unfoldable pub uses_charge_led : ChargeLed → LightState → Bool
uses_charge_led prop s = green_of s != 0 && red_of s != 0 && is_white prop

unfoldable pub kept_battery : ChargeLed → LightState → LightState
kept_battery prop s = if green_of s != 0 && (uses_charge_led prop s || is_off prop) then dark else s

unfoldable pub set_light_battery : (File → ℕ) → ChargeLed → LightState → Lights → Lights
set_light_battery errs prop s l =
    handle_light_locked errs
      (record l { g_battery = kept_battery prop s; g_charge_led_active = uses_charge_led prop s })

unfoldable pub set_light_notification : (File → ℕ) → LightState → Lights → Lights
set_light_notification errs s l = handle_light_locked errs (record l { g_notification = s })
