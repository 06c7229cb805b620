-- ===== src/Bluedroid/Tests.antt =====
-- bluedroid.c on concrete system calls.
use android_device_motorola.Prelude.{
  ℕ, suc, ◌+◌, ◌-◌, ◌≤◌, ◌<◌, ◌≡◌, ◌≢◌, ◌==◌, ◌⊎◌, Bool, true, false, Option, none, some, List, [],
  ◌∷◌, ◌++◌, refl, arith, if◌then◌else◌, ap, subst, sym, ◌∙◌, ltb, leb, ◌&&◌, ◌*◌, ◌/◌, ◌%◌,
}
use android_device_motorola.Bluedroid.{
  Bt, StateFile, Locks, failed, find_rfkill, check_bluetooth_power, set_bluetooth_power,
}
use android_device_motorola.Bluedroid.Control.{
  Query, Enable, Disable, wait_up, is_enabled_after, bt_is_enabled, enable_daemon, enable_hci,
  enable_powered, enable_queried, bt_enable,
}
use android_device_motorola.Bluedroid.Rfkill.{Finds, find_rfkill-Finds, Down, wait_up_lem}
use android_device_motorola.Bluedroid.Counting.{
  Counted, FileSucceeds, LocksSucceed, EnableSucceeds, DisableSucceeds, enable, disable, calls,
  calls-Counted,
}
use android_device_motorola.Bluedroid.Failures.{Fails, bt_enable-Fails, bt_enable-no_socket}
use android_device_motorola.Bluedroid.Address.{Hex, ba2str, str2ba, str2ba-ba2str}

-- Two switches of other types, then the one of Bluetooth, and no more.
abbrev switches : ℕ → Option Bool
switches id =
    if id == 2
    then some true
    else (if id == 3 then none else (if id == 4 then none else some false))

find_rfkill-Finds_example :
    (r : Option ℕ) × (find_rfkill switches 5 0 ≡ some r) × Finds switches 0 r
find_rfkill-Finds_example = find_rfkill-Finds switches 5 0 3 refl (omega arith)

abbrev third : ℕ → Bool
third k = k == 3

wait_up_lem_example :
    (wait_up third 10 ≤ 10)
    × (((0 < wait_up third 10)
          × (third (wait_up third 10) ≡ true)
          × Down third (wait_up third 10) 10)
        ⊎ ((wait_up third 10 ≡ 0) × Down third 0 10))
wait_up_lem_example = wait_up_lem third 10

abbrev good_file : StateFile
good_file = record { found = some 0; opens = true; moves = true }

abbrev good_locks : Locks
good_locks = record {
  opens = true;
  read_lock = true;
  reads = true;
  unlock = true;
  write_lock = true;
  writes = true;
}

abbrev good_query : Query
good_query = record { file = good_file; sock = true; info = true }

abbrev good_enable : Enable
good_enable = record {
  query = good_query;
  power_on = good_file;
  start_hciattach = true;
  sock = true;
  ups = λ k. true;
  start_bluetoothd = true;
  power_off = good_file;
  locks = good_locks;
}

abbrev good_disable : Disable
good_disable = record {
  exists = true;
  locks = good_locks;
  stop_bluetoothd = true;
  sock = true;
  down = true;
  stop_hciattach = true;
  power_off = good_file;
}

-- Bluetooth is off, and the file of the count is empty.
abbrev off : Bt
off = record {
  rfkill_id = some 0;
  power = b'0';
  hci_up = false;
  hciattach = false;
  bluetoothd = false;
  ref_file = none;
}

off-Counted : Counted 0 off
off-Counted = record { id = 0; known = refl; powered = refl; up = refl; magic = refl; users = refl }

file_succeeds : FileSucceeds good_file
file_succeeds = record { opens_ok = refl; moves_ok = refl }

locks_succeed : LocksSucceed good_locks
locks_succeed = record {
  opens_ok = refl;
  read_lock_ok = refl;
  reads_ok = refl;
  unlock_ok = refl;
  write_lock_ok = refl;
  writes_ok = refl;
}

wait_first : (n : ℕ) → wait_up (λ k. true) (suc n) ≡ suc n
unfolding wait_up
wait_first n = refl

enable_succeeds : EnableSucceeds good_enable
enable_succeeds = record {
  query_ok = file_succeeds;
  query_sock_ok = refl;
  info_ok = refl;
  power_ok = file_succeeds;
  hciattach_ok = refl;
  sock_ok = refl;
  up_ok = omega (arith, wait_first 999);
  bluetoothd_ok = refl;
  locks_ok = locks_succeed;
}

disable_succeeds : DisableSucceeds good_disable
disable_succeeds = record {
  exists_ok = refl;
  locks_ok = locks_succeed;
  bluetoothd_ok = refl;
  sock_ok = refl;
  down_ok = refl;
  hciattach_ok = refl;
  power_ok = file_succeeds;
}

calls-Counted_example :
    Counted 1 (calls (enable good_enable ∷ enable good_enable ∷ disable good_disable ∷ []) off)
calls-Counted_example =
    calls-Counted 0 (enable good_enable ∷ enable good_enable ∷ disable good_disable ∷ []) off
      off-Counted (omega arith) (enable_succeeds, (enable_succeeds, (disable_succeeds, tt)))

-- bluetoothd does not start.
abbrev no_daemon : Enable
no_daemon = record good_enable { start_bluetoothd = false }

no_daemon-fails : (bt_enable no_daemon off).0 ≢ 0
unfolding bt_enable bt_is_enabled is_enabled_after check_bluetooth_power enable_queried
    enable_powered enable_hci enable_daemon set_bluetooth_power
no_daemon-fails = ground (arith, wait_first 999)

bt_enable-Fails_example : Fails no_daemon off (bt_enable no_daemon off)
bt_enable-Fails_example = bt_enable-Fails no_daemon off no_daemon-fails

abbrev no_socket : Enable
no_socket = record good_enable { sock = false }

bt_enable-no_socket_example :
    ((bt_enable no_socket off).0 ≡ failed) × ((bt_enable no_socket off).1.power ≡ b'1')
bt_enable-no_socket_example =
    bt_enable-no_socket no_socket off off-Counted file_succeeds file_succeeds refl refl

-- Hexadecimal digits as sprintf prints them and strtoul reads them.
unfoldable digit : ℕ → ℕ
digit d = if ltb d 10 then b'0' + d else b'A' + (d - 10)

unfoldable digit_value : ℕ → Option ℕ
digit_value c =
    if leb b'0' c && leb c b'9'
    then some (c - b'0')
    else (if leb b'A' c && leb c b'F' then some (c - b'A' + 10) else none)

abbrev read_digits : List ℕ → ℕ → ℕ × List ℕ
read_digits [] v = (v, [])
read_digits (c ∷ s) v = elim (digit_value c) [
  | none ↦ (v, c ∷ s)
  | some d ↦ read_digits s (v * 16 + d)
]

abbrev print : ℕ → List ℕ
print b = digit (b / 16) ∷ (digit (b % 16) ∷ [])

digit_value-digit : (d : ℕ) → d < 16 → digit_value (digit d) ≡ some d
unfolding digit digit_value
digit_value-digit d h = ground arith

read_digits-digit :
    (d v : ℕ) (rest : List ℕ)
    → d < 16
    → read_digits (digit d ∷ rest) v ≡ read_digits rest (v * 16 + d)
read_digits-digit d v rest h =
    subst
      (λ o.
        (elim o [ none ↦ (v, digit d ∷ rest) | some e ↦ read_digits rest (v * 16 + e) ])
        ≡ read_digits rest (v * 16 + d))
      (sym (digit_value-digit d h)) refl

read_digits-print :
    (b : ℕ) (rest : List ℕ) → b < 256 → read_digits (print b ++ rest) 0 ≡ read_digits rest b
read_digits-print b rest h =
    read_digits-digit (b / 16) 0 _ (omega arith)
    ∙ read_digits-digit (b % 16) _ rest (omega arith)
    ∙ ap (read_digits rest) (omega arith)

read_digits-colon : (b : ℕ) (rest : List ℕ) → read_digits (b':' ∷ rest) b ≡ (b, b':' ∷ rest)
unfolding digit_value
read_digits-colon b rest = refl

abbrev hex : Hex
hex = record {
  print = print;
  strtoul = λ s. read_digits s 0;
  reads_end = λ b h. read_digits-print b [] h;
  reads_colon = λ b rest h. read_digits-print b (b':' ∷ rest) h ∙ read_digits-colon b rest;
}

address_small : (i : ℕ) → (if i == 2 then 252 else 17) < 256
address_small i = ground arith

str2ba-ba2str_example : str2ba hex (ba2str hex (λ i. if i == 2 then 252 else 17)) (λ i. 0) 2 ≡ 252
str2ba-ba2str_example =
    str2ba-ba2str hex (λ i. if i == 2 then 252 else 17) (λ i. 0) address_small 2 (omega arith)
