-- ===== src/Bluedroid/Control.antt =====
-- bluedroid.c: bt_is_enabled, bt_enable and bt_disable.
use android_device_motorola.Prelude.{
  ℕ, zero, suc, Bool, true, false, not, Option, none, some, ◌==◌, if◌then◌else◌, sltb,
}
use android_device_motorola.Bluedroid.{
  Bt, StateFile, Locks, failed, check_bluetooth_power, set_bluetooth_power, inc_atomic, dec_atomic,
}

-- Starting and stopping a daemon through the property ctl.start or ctl.stop.
abbrev pub set_hciattach : Bool → Bt → Bt
set_hciattach on bt = record bt { hciattach = on }

abbrev pub set_bluetoothd : Bool → Bt → Bt
set_bluetoothd on bt = record bt { bluetoothd = on }

-- The answers for bt_is_enabled: the state file, the socket, and HCIGETDEVINFO.
pub record Query : Type 0 where
  pub file : StateFile
  pub sock : Bool
  pub info : Bool

-- bt_is_enabled; `none` is -1.
unfoldable pub is_enabled_after : Query → Option Bool × Bt → Option Bool × Bt
is_enabled_after q (none, bt) = (none, bt)
is_enabled_after q (some false, bt) = (some false, bt)
is_enabled_after q (some true, bt) =
    (if not q.sock then none else (if not q.info then some false else some bt.hci_up), bt)

unfoldable pub bt_is_enabled : Query → Bt → Option Bool × Bt
bt_is_enabled q bt = is_enabled_after q (check_bluetooth_power q.file bt)

-- The loop that waits for the HCI device: the attempt that brings it up, counted down, or 0. The
-- answer of each ioctl is an argument.
unfoldable pub wait_up : (ℕ → Bool) → ℕ → ℕ
wait_up ups zero = 0
wait_up ups (suc attempt) =
    let rest = wait_up ups attempt in if ups (suc attempt) then suc attempt else rest

abbrev pub attempts : ℕ
attempts = 1000

-- The answers for bt_enable. The power is switched off at most once, on one of its error paths.
pub record Enable : Type 0 where
  pub query : Query
  pub power_on : StateFile
  pub start_hciattach : Bool
  pub sock : Bool
  pub ups : ℕ → Bool
  pub start_bluetoothd : Bool
  pub power_off : StateFile
  pub locks : Locks

abbrev pub power_off_fail : Enable → Bt → ℕ × Bt
power_off_fail a bt = (failed, (set_bluetooth_power a.power_off false bt).1)

-- bt_enable from the label on: the count, if the result is 0.
abbrev pub enabled_out : Enable → Bt → ℕ × Bt
enabled_out a bt = (0, (inc_atomic a.locks bt).1)

-- From the start of bluetoothd on.
unfoldable pub enable_daemon : Enable → Bt → ℕ × Bt
enable_daemon a bt =
    if a.start_bluetoothd then enabled_out a (set_bluetoothd true bt) else power_off_fail a bt

-- From the socket on.
unfoldable pub enable_hci : Enable → Bt → ℕ × Bt
enable_hci a bt =
    if not a.sock
    then (failed, bt)
    else (if wait_up a.ups attempts == 0
        then power_off_fail a bt
        else enable_daemon a (record bt { hci_up = true }))

-- From set_bluetooth_power on, with its result.
unfoldable pub enable_powered : Enable → Bool × Bt → ℕ × Bt
enable_powered a (false, bt) = (failed, bt)
enable_powered a (true, bt) =
    if a.start_hciattach then enable_hci a (set_hciattach true bt) else power_off_fail a bt

-- With the answer of bt_is_enabled, which is compared with 1.
unfoldable pub enable_queried : Enable → Option Bool × Bt → ℕ × Bt
enable_queried a (some true, bt) = enabled_out a bt
enable_queried a (some false, bt) = enable_powered a (set_bluetooth_power a.power_on true bt)
enable_queried a (none, bt) = enable_powered a (set_bluetooth_power a.power_on true bt)

unfoldable pub bt_enable : Enable → Bt → ℕ × Bt
bt_enable a bt = enable_queried a (bt_is_enabled a.query bt)

-- The answers for bt_disable.
pub record Disable : Type 0 where
  pub exists : Bool
  pub locks : Locks
  pub stop_bluetoothd : Bool
  pub sock : Bool
  pub down : Bool
  pub stop_hciattach : Bool
  pub power_off : StateFile

-- set_bluetooth_power(0) and the result.
abbrev pub disable_power : Disable → Bt → ℕ × Bt
disable_power a bt =
    let (done, bt') = set_bluetooth_power a.power_off false bt in (if done then 0 else failed, bt')

-- From the socket on; the result of HCIDEVDOWN is not looked at.
unfoldable pub disable_hci : Disable → Bt → ℕ × Bt
disable_hci a bt =
    if not a.sock
    then (failed, bt)
    else (let bt' = record bt { hci_up = if a.down then false else bt.hci_up } in
        if a.stop_hciattach then disable_power a (set_hciattach false bt') else (failed, bt'))

unfoldable pub disable_counted : Disable → ℕ × Bt → ℕ × Bt
disable_counted a (refcount, bt) =
    if sltb 0 refcount
    then (0, bt)
    else (if a.stop_bluetoothd then disable_hci a (set_bluetoothd false bt) else (failed, bt))

unfoldable pub bt_disable : Disable → Bt → ℕ × Bt
bt_disable a bt = disable_counted a (dec_atomic a.exists a.locks bt)
