-- ===== src/Multitouch/Tests.antt =====
-- The number of fingers at concrete runs.
use android_device_motorola.Prelude.{ℕ, ◌≤◌, ◌≡◌, ◌≢◌, true, false, some, [], ◌∷◌, refl, arith}
use android_device_motorola.Proc.{Input, Accepted}
use android_device_motorola.Multitouch.{
  Kernel, Touch, Module, qtouch_set_addr, qtouch_hw_init, set_numtouch, multitouch_init, bounded,
}
use android_device_motorola.Multitouch.Checksum.{
  set_addr, hw_init, number, happen, InUse, happen_restores, proc_numtouch_write-InUse,
  proc_numtouch_write_loses,
}

abbrev kernel : Kernel
kernel = record { checksum_flag = 1; finds_force_reset = true; finds_touch_reset = true }

abbrev touch : Touch
touch = record {
  pdata = true;
  num_touch = 2;
  flags = 0;
  eeprom_checksum = 0xbeef;
  checksum_cnt = 1;
}

abbrev loaded : Module
loaded = record {
  ts_known = true;
  hooked = true;
  corrects = false;
  eeprom_checksum = 0;
  wanted_touch = 2;
  touch_num = 2;
  ts = touch;
}

abbrev text : ℕ → Input
text n = record { len = 2; copies = true; parsed = some n }

text-Accepted : (n : ℕ) → Accepted (text n) n
text-Accepted n = record {
  some_text = omega arith;
  fits = omega arith;
  copied = refl;
  number_read = refl;
}

-- The parameter of the module is not brought into the range: the driver is set to 100 fingers.
out_of_range : (qtouch_set_addr kernel (multitouch_init kernel 100 touch).1).0.ts.num_touch ≡ 100
unfolding qtouch_set_addr multitouch_init set_numtouch
out_of_range = refl

happen_restores_example :
    let m = qtouch_hw_init (happen kernel (number (text 5) ∷ set_addr ∷ []) loaded) in
    (m.corrects ≡ false) × (m.ts.eeprom_checksum ≡ 0xbeef)
unfolding qtouch_hw_init
happen_restores_example =
    happen_restores kernel (number (text 5) ∷ set_addr ∷ []) loaded refl
      (let w : (false ≡ true) → (n : ℕ) → some 5 ≡ some n → bounded n ≡ 2 = λ e. cc in w, (tt, tt))

proc_numtouch_write-InUse_example :
    (2 ≤ bounded 40)
    × (bounded 40 ≤ 10)
    × InUse
        (bounded 40)
        0xbeef
        (happen kernel (number (text 40) ∷ set_addr ∷ hw_init ∷ set_addr ∷ []) loaded)
proc_numtouch_write-InUse_example =
    proc_numtouch_write-InUse kernel (text 40) 40 loaded (omega arith) (text-Accepted 40) refl refl

five-differs : 2 ≢ bounded 5
unfolding bounded
five-differs = omega arith

other-differs : bounded 5 ≢ bounded 7
unfolding bounded
other-differs = omega arith

proc_numtouch_write_loses_example :
    (happen kernel
      (number (text 5) ∷ number (text 7) ∷ set_addr ∷ hw_init ∷ [])
      loaded).ts.eeprom_checksum
    ≡ 0
proc_numtouch_write_loses_example =
    proc_numtouch_write_loses kernel (text 5) (text 7) 5 7 loaded (text-Accepted 5)
      (text-Accepted 7) refl refl refl five-differs other-differs
