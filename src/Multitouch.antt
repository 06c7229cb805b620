-- ===== src/Multitouch.antt =====
-- modules/multitouch/defy-multitouch.c: the number of fingers that the touch screen reports.
--
-- The driver of the touch screen has one `struct qtouch_ts_data`, whose fields that the module
-- uses are part of the state. What the kernel's functions do when they are called is not modelled;
-- the calls that the module makes are listed. Whether the kernel's symbols are found is an
-- argument. An `int` is written as its 32 bits. What is printed is left out.
mod Checksum
mod Tests
use android_device_motorola.Prelude.{
  ℕ, ◌-◌, ◌^◌, ◌≡◌, Bool, true, false, not, ◌&&◌, Option, none, some, List, [], ◌∷◌, ◌++◌, sltb,
  ◌!=◌, bit_or, if◌then◌else◌,
}
use android_device_motorola.Proc.{Input, written}

-- The fields of the driver's structure and of its platform data; `pdata` tells whether that is
-- set.
pub record Touch : Type 0 where
  pub pdata : Bool
  pub num_touch : ℕ
  pub flags : ℕ
  pub eeprom_checksum : ℕ
  pub checksum_cnt : ℕ

-- The variables of the module, and the driver's structure. `ts_known` tells whether `ts_` is set,
-- and `corrects` is checksumNeedsCorrection.
pub record Module : Type 0 where
  pub ts_known : Bool
  pub hooked : Bool
  pub corrects : Bool
  pub eeprom_checksum : ℕ
  pub wanted_touch : ℕ
  pub touch_num : ℕ
  pub ts : Touch

-- The calls of the kernel's functions, and of those of hook.c.
pub data Call : Type 0 where
  qtouch_force_reset mapphone_touch_reset hook_init hook_exit : Call

-- What the module takes from the kernel: the bit QTOUCH_EEPROM_CHECKSUM, and whether the symbols
-- are found.
pub record Kernel : Type 0 where
  pub checksum_flag : ℕ
  pub finds_force_reset : Bool
  pub finds_touch_reset : Bool

abbrev pub ebusy : ℕ
ebusy = 2 ^ 32 - 16

-- set_numtouch. The result is -1 without a structure.
abbrev pub no_ts : ℕ
no_ts = 0xffffffff

unfoldable pub set_numtouch : Kernel → Module → ℕ × Module × List Call
set_numtouch k m = if not m.ts_known then (no_ts, m, []) else (
  if k.finds_force_reset then 0 else ebusy,
  record m {
    corrects = true;
    eeprom_checksum = m.ts.eeprom_checksum;
    ts = record (m.ts) {
      num_touch = m.wanted_touch;
      flags = bit_or m.ts.flags k.checksum_flag;
      eeprom_checksum = 0;
      checksum_cnt = 0;
    };
  },
  if k.finds_force_reset then qtouch_force_reset ∷ [] else [],
)

-- The hooked qtouch_set_addr with the driver's structure, after the original one, whose result it
-- returns. A null structure passes like one without platform data.
unfoldable pub qtouch_set_addr : Kernel → Module → Module × List Call
qtouch_set_addr k m =
    if not m.ts.pdata
    then (m, [])
    else (let m' = record m { touch_num = m.ts.num_touch } in
        if m'.touch_num != m'.wanted_touch
        then (let (ret, m'', calls) = set_numtouch k (record m' { ts_known = true }) in
            (m'', calls))
        else (m', []))

-- The hooked qtouch_hw_init, before the original one, whose result it returns.
unfoldable pub qtouch_hw_init : Module → Module
qtouch_hw_init m =
    if m.corrects
    then record m { corrects = false; ts = record (m.ts) { eeprom_checksum = m.eeprom_checksum } }
    else m

-- The bounds in proc_numtouch_write.
unfoldable pub bounded : ℕ → ℕ
bounded wanted = if sltb 10 wanted then 10 else (if sltb wanted 2 then 2 else wanted)

-- proc_numtouch_write behind the call of hook_init: whether a symbol is missing, the state and the
-- calls.
abbrev pub apply_wanted : Kernel → Module → Bool × Module × List Call
apply_wanted k m =
    if m.touch_num != m.wanted_touch && not m.corrects
    then (if m.ts_known then (let (ret, m', calls) = set_numtouch k m in (false, m', calls)) else (
      not k.finds_touch_reset,
      m,
      if k.finds_touch_reset then mapphone_touch_reset ∷ [] else [],
    ))
    else (false, m, [])

-- The same with a number.
abbrev pub set_wanted : Kernel → ℕ → Module → Bool × Module × List Call
set_wanted k n m =
    let (busy, m', calls) = apply_wanted k (record m { wanted_touch = bounded n }) in
    (busy, m', (if m.hooked then [] else hook_init ∷ []) ++ calls)

-- The result, the state and the calls of a write.
abbrev pub answered : ℕ × (Bool × Module × List Call) → ℕ × Module × List Call
answered (ret, (busy, m, calls)) = (if busy then ebusy else ret, m, calls)

unfoldable pub proc_numtouch_write : Kernel → Input → Module → ℕ × Module × List Call
proc_numtouch_write k i m = answered (written (λ n r. set_wanted k n r.1) i (false, m, []))

-- proc_numtouch_read: the number that it prints, if it starts at the beginning.
unfoldable pub proc_numtouch_read : ℕ → Module → Option ℕ
proc_numtouch_read offset m = if offset != 0 then none else some m.touch_num

-- multitouch_init, with the parameter touch_num and the driver's structure.
unfoldable pub multitouch_init : Kernel → ℕ → Touch → ℕ × Module × List Call
multitouch_init k touch_num ts = (
  if k.finds_touch_reset then 0 else ebusy,
  record {
    ts_known = false;
    hooked = true;
    corrects = false;
    eeprom_checksum = 0;
    wanted_touch = touch_num;
    touch_num = touch_num;
    ts = ts;
  },
  hook_init ∷ (if k.finds_touch_reset then mapphone_touch_reset ∷ [] else []),
)

unfoldable pub multitouch_exit : Module → List Call
multitouch_exit m = if m.hooked then hook_exit ∷ [] else []
