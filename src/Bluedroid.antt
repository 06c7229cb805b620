-- ===== src/Bluedroid.antt =====
-- bluedroid.c: switching Bluetooth on and off, with a count of its users in a file.
--
-- The file /tmp/bluedroid_ref is empty or holds a whole `struct RefBase_s`. The answers of the system
-- calls that can fail are arguments; a `true` stands for success.
pub mod Control
pub mod Failures
pub mod Rfkill
pub mod Counting
pub mod Address
pub mod Tests
use android_device_motorola.Prelude.{
  ℕ, zero, suc, ◌+◌, ◌-◌, ◌^◌, Bool, true, false, not, Option, none, some, ◌==◌, ◌&&◌,
  if◌then◌else◌, u32,
}

-- `struct RefBase_s`
pub record RefBase : Type 0 where
  pub magic : ℕ
  pub base : ℕ

-- What the functions change: the globals, the rfkill state file (one byte), the HCI interface, the
-- two daemons, and the file of the count. `rfkill_id` is `none` where the source has -1.
pub record Bt : Type 0 where
  pub rfkill_id : Option ℕ
  pub power : ℕ
  pub hci_up : Bool
  pub hciattach : Bool
  pub bluetoothd : Bool
  pub ref_file : Option RefBase

-- The result -1 of a function, as the 32 bits of an `int`.
abbrev pub failed : ℕ
failed = 2 ^ 32 - 1

abbrev pub open_failed : ℕ
open_failed = 2 ^ 32 - 2

-- One round of init_rfkill: there is no file, it is the switch, or the loop goes on.
abbrev pub found_or : Option Bool → ℕ → Option (Option ℕ) → Option (Option ℕ)
found_or none id rest = some none
found_or (some true) id rest = some (some id)
found_or (some false) id rest = rest

-- The loop of init_rfkill from `id`: `types` says for each number whether there is a file, and
-- whether it begins with "bluetooth". `none` is the want of fuel, `some none` the result -1.
unfoldable pub find_rfkill : (ℕ → Option Bool) → ℕ → ℕ → Option (Option ℕ)
find_rfkill types zero id = none
find_rfkill types (suc fuel) id =
    let rest = find_rfkill types fuel (id + 1) in found_or (types id) id rest

-- What init_rfkill leaves of `rfkill_id`, and `if (rfkill_id == -1) { if (init_rfkill()) goto out;
-- }` with what init_rfkill finds.
abbrev pub with_rfkill : Option ℕ → Bt → Bt
with_rfkill found bt = record bt {
  rfkill_id = elim bt.rfkill_id [ none ↦ found | some id ↦ some id ];
}

-- The answers of the system for one use of the state file: what init_rfkill finds, if it is called,
-- and whether the file can be opened, and read or written.
pub record StateFile : Type 0 where
  pub found : Option ℕ
  pub opens : Bool
  pub moves : Bool

abbrev pub has_rfkill : Bt → Bool
has_rfkill bt = elim bt.rfkill_id [ none ↦ false | some id ↦ true ]

-- check_bluetooth_power; `none` is -1.
abbrev pub power_of : ℕ → Option Bool
power_of byte = if byte == b'1' then some true else (if byte == b'0' then some false else none)

unfoldable pub check_bluetooth_power : StateFile → Bt → Option Bool × Bt
check_bluetooth_power f bt =
    let bt' = with_rfkill f.found bt in
    (if has_rfkill bt' && f.opens && f.moves then power_of bt'.power else none, bt')

-- set_bluetooth_power; `false` is -1.
unfoldable pub set_bluetooth_power : StateFile → Bool → Bt → Bool × Bt
set_bluetooth_power f on bt =
    let bt' = with_rfkill f.found bt in
    if has_rfkill bt' && f.opens && f.moves
    then (true, record bt' { power = if on then b'1' else b'0' })
    else (false, bt')

abbrev pub magic_number : ℕ
magic_number = 0x55665566

-- The answers for the file of the count: it is opened, read under a lock, and written under
-- another.
pub record Locks : Type 0 where
  pub opens : Bool
  pub read_lock : Bool
  pub reads : Bool
  pub unlock : Bool
  pub write_lock : Bool
  pub writes : Bool

-- What `read` leaves of the local `ref`.
abbrev pub initial : Option RefBase → RefBase
initial none = record { magic = magic_number; base = 0 }
initial (some r) = r

-- The count that inc_atomic and dec_atomic compute from what they have read.
unfoldable pub inc_base : RefBase → ℕ
inc_base r = u32 ((if r.magic == magic_number then r.base else 0) + 1)

unfoldable pub dec_base : RefBase → ℕ
dec_base r =
    let base = if r.magic == magic_number then r.base else 1 in (if base == 0 then 1 else base) - 1

-- The two functions are the same text but for the count and O_CREAT. The result is the count, -2 if
-- the file cannot be opened, or -1.
abbrev pub update_count : (RefBase → ℕ) → Locks → Option RefBase → ℕ × Option RefBase
update_count f a file =
    if not a.opens
    then (open_failed, file)
    else (if a.read_lock && a.reads && a.unlock && a.write_lock && a.writes
        then (f (initial file), some (record { magic = magic_number; base = f (initial file) }))
        else (failed, file))

unfoldable pub inc_atomic : Locks → Bt → ℕ × Bt
inc_atomic a bt =
    let (ret, file) = update_count inc_base a bt.ref_file in (ret, record bt { ref_file = file })

-- Without O_CREAT a file that is not there is not opened; `exists` says whether it is.
unfoldable pub dec_atomic : Bool → Locks → Bt → ℕ × Bt
dec_atomic exists a bt =
    let (ret, file) = update_count dec_base (record a { opens = exists && a.opens }) bt.ref_file in
    (ret, record bt { ref_file = file })
