-- ===== src/Backlight/Tests.antt =====
-- The backlight on both phones.
use android_device_motorola.Prelude.{◌≤◌, ◌≡◌, true, false, some, [], ◌∷◌, refl, arith}
use android_device_motorola.Proc.{Input, Accepted}
use android_device_motorola.Backlight.{
  Backlight, reg_write, level_value, brightness_to_cpcap, cpcap_regacc_write, proc_brightness_write,
}
use android_device_motorola.Backlight.Levels.{Allowed, brightness_to_cpcap_mono}
use android_device_motorola.Backlight.Writes.{Keeps, proc_brightness_write-Keeps}

abbrev defy : Backlight
defy = record {
  brightness = 4;
  defy_plus = false;
  hooked = true;
  button_dev = some 1;
  g_reg = 40;
  g_mask_wr = 0x7ff;
  g_last_value = 0;
}

abbrev input : Input
input = record { len = 3; copies = true; parsed = some 128 }

accepted : Accepted input 128
accepted = record { some_text = omega arith; fits = omega arith; copied = refl; number_read = refl }

brightness_to_cpcap_mono_example :
    (brightness_to_cpcap defy 6 ≤ brightness_to_cpcap defy 200)
    × (false ≡ false → Allowed (brightness_to_cpcap defy 200))
brightness_to_cpcap_mono_example =
    brightness_to_cpcap_mono defy 6 200 refl (omega arith) (omega arith)

level_six : brightness_to_cpcap defy 6 ≡ 0x1f
unfolding brightness_to_cpcap level_value
level_six = refl

proc_brightness_write-Keeps_example :
    let (len, s', writes) = proc_brightness_write input defy in
    (len ≡ 3)
    × (writes ≡ reg_write 40 (brightness_to_cpcap defy 128) 0x7ff ∷ [])
    × Keeps 128 defy 40 40 99 15 (cpcap_regacc_write 40 40 99 15 s')
proc_brightness_write-Keeps_example =
    proc_brightness_write-Keeps input 128 defy 40 40 99 15 (omega arith) accepted
