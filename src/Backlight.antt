-- ===== src/Backlight.antt =====
-- modules/backlight/cpcap-bright.c: the brightness of the buttons' backlight.
--
-- A `short` or an `unsigned short` is written as its 16 bits. The register CPCAP_REG_ADLC is an
-- argument, and so are the answers of the kernel, whose symbols are taken to be found.
pub mod Levels
pub mod Writes
mod Tests
use android_device_motorola.Prelude.{
  ℕ, zero, suc, ◌+◌, ◌-◌, ◌*◌, ◌/◌, ◌^◌, Bool, true, false, not, ◌&&◌, ◌||◌, Option, none, some,
  List, [], ◌∷◌, ◌++◌, ltb, leb, ◌==◌, ◌!=◌, if◌then◌else◌, u16, bit_and, bit_or,
}
use android_device_motorola.Proc.{Input, written}

-- The module's variables. `button_dev` is the brightness in the LED class, if the device is found.
pub record Backlight : Type 0 where
  pub brightness : ℕ
  pub defy_plus : Bool
  pub hooked : Bool
  pub button_dev : Option ℕ
  pub g_reg : ℕ
  pub g_mask_wr : ℕ
  pub g_last_value : ℕ

-- A write of a register, by its number, value and mask.
pub data RegWrite : Type 0 where
  reg_write : ℕ → ℕ → ℕ → RegWrite

-- CPCAP_BUTTON_WR_MASK, with DEFYPLUS defined.
abbrev pub wr_mask : ℕ
wr_mask = 0x7ff

-- The value for a level of one byte, before the mask.
unfoldable pub level_value : Bool → ℕ → ℕ
level_value defy_plus level =
    let newval =
      if defy_plus
      then (let newval =
            if ltb level 8 then level * 8 else bit_or (level * 8) (bit_and level 0xc0 / 0x20) in
          if level != 0 then bit_or newval 0x1 else newval)
      else (if leb level 5 then 0x1f else bit_or (level * 4) 0xf) in
    if level == 0 then 0 else newval

unfoldable pub brightness_to_cpcap : Backlight → ℕ → ℕ
brightness_to_cpcap s level =
    bit_and (level_value s.defy_plus (bit_and (u16 level) 0xff)) s.g_mask_wr

-- The second loop of brightness_fading, from `n` down to 1.
unfoldable pub fade_out : Backlight → ℕ → List RegWrite
fade_out s zero = []
fade_out s (suc n) =
    reg_write s.g_reg (brightness_to_cpcap s (suc n * 8 - 1)) s.g_mask_wr ∷ fade_out s n

-- The first loop, from `n` on for `more` rounds.
unfoldable pub fade_in : Backlight → ℕ → ℕ → List RegWrite
fade_in s zero n = []
fade_in s (suc more) n =
    reg_write s.g_reg (brightness_to_cpcap s (n * 8 - 1)) s.g_mask_wr ∷ fade_in s more (n + 1)

unfoldable pub brightness_fading : Backlight → List RegWrite
brightness_fading s = fade_in s 31 1 ++ (fade_out s 32 ++ (reg_write s.g_reg 0 s.g_mask_wr ∷ []))

-- `if (button_dev->brightness > 1) brightness = button_dev->brightness`
abbrev pub current_brightness : Backlight → ℕ
current_brightness s = elim s.button_dev [
  | none ↦ s.brightness
  | some b ↦ if ltb 1 b then u16 b else s.brightness
]

-- The hooked cpcap_regacc_write: the state, and the write that the original function gets.
-- `backlight` is CPCAP_BUTTON_BACKLIGHT.
unfoldable pub cpcap_regacc_write : ℕ → ℕ → ℕ → ℕ → Backlight → Backlight × RegWrite
cpcap_regacc_write backlight reg value mask s =
    if reg != backlight
    then (s, reg_write reg value mask)
    else (let s' = record s { brightness = current_brightness s } in
        let value' = brightness_to_cpcap s' s'.brightness in
        (
          record s' { g_mask_wr = bit_or s.g_mask_wr mask; g_last_value = value' },
          reg_write reg value' (if s.defy_plus && mask == 0xf then wr_mask else mask),
        ))

-- proc_brightness_write with a number.
abbrev pub set_brightness : ℕ → Backlight → Backlight × List RegWrite
set_brightness newval s =
    let b = bit_and newval 0xff in
    (
      record s {
        brightness = b;
        button_dev = elim s.button_dev [ none ↦ none | some old ↦ some b ];
      },
      reg_write s.g_reg (brightness_to_cpcap s newval) s.g_mask_wr ∷ [],
    )

-- The result is the one of the write function, the state and the writes of registers.
abbrev pub flat : ℕ × (Backlight × List RegWrite) → ℕ × Backlight × List RegWrite
flat (ret, (s, w)) = (ret, s, w)

unfoldable pub proc_brightness_write : Input → Backlight → ℕ × Backlight × List RegWrite
proc_brightness_write i s = flat (written (λ n r. set_brightness n r.0) i (s, []))

-- proc_hook_write; hook_init and hook_exit are those of Hooks.
unfoldable pub proc_hook_write : Input → Backlight → ℕ × Backlight × List RegWrite
proc_hook_write i s = flat (written (λ newval r. (record s { hooked = newval != 0 }, [])) i (s, []))

-- backlight_init: the brightness that it starts with. `minus_one` stands for -1, which means that
-- none was given.
abbrev pub minus_one : ℕ
minus_one = 2 ^ 16 - 1

unfoldable pub start_brightness : ℕ → Option ℕ → ℕ
start_brightness given found =
    let b = if given == minus_one then elim found [ none ↦ given | some b ↦ u16 b ] else given in
    bit_and (if b == minus_one || b == 1 || b == 255 then 4 else b) 0xff

-- The parameters of the module.
pub record Params : Type 0 where
  pub brightness : ℕ
  pub animate : Bool
  pub defy_plus : Bool
  pub hook_enable : Bool

-- `found` is the brightness of the LED device that find_led_brightness finds.
unfoldable pub backlight_init : ℕ → Params → Option ℕ → Backlight × List RegWrite
backlight_init backlight p found =
    let s : Backlight = record {
      brightness = start_brightness p.brightness found;
      defy_plus = p.defy_plus;
      hooked = p.hook_enable;
      button_dev = found;
      g_reg = backlight;
      g_mask_wr = wr_mask;
      g_last_value = 0;
    } in
    (s, if p.animate then brightness_fading s else [])
