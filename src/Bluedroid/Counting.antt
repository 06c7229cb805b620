-- ===== src/Bluedroid/Counting.antt =====
-- What bt_enable and bt_disable of bluedroid.c promise to their users: Bluetooth is on while it has
-- any.
use android_device_motorola.Prelude.{
  ℕ, zero, suc, ◌+◌, ◌-◌, ◌^◌, ◌≤◌, ◌<◌, ◌≡◌, true, false, Option, some, List, [], ◌∷◌, length, ltb,
  ◌==◌, if◌then◌else◌, refl, Bool-cases, inl, inr, arith, ap, ◌∙◌,
}
use android_device_motorola.Bluedroid.{
  RefBase, Bt, StateFile, Locks, magic_number, initial, inc_base, dec_base, check_bluetooth_power,
  set_bluetooth_power, inc_atomic, dec_atomic,
}
use android_device_motorola.Bluedroid.Control.{
  Query, Enable, Disable, wait_up, attempts, is_enabled_after, bt_is_enabled, enable_daemon,
  enable_hci, enable_powered, enable_queried, bt_enable, disable_hci, disable_counted, bt_disable,
}

-- The switch is known; its power and the HCI device are on exactly if there are users; and the file
-- holds their number.
pub record Counted (n : ℕ) (bt : Bt) : Type 0 where
  pub id : ℕ
  pub known : bt.rfkill_id ≡ some id
  pub powered : bt.power ≡ (if n == 0 then b'0' else b'1')
  pub up : bt.hci_up ≡ ltb 0 n
  pub magic : (initial bt.ref_file).magic ≡ magic_number
  pub users : (initial bt.ref_file).base ≡ n

pub record FileSucceeds (f : StateFile) : Type 0 where
  pub opens_ok : f.opens ≡ true
  pub moves_ok : f.moves ≡ true

pub record LocksSucceed (a : Locks) : Type 0 where
  pub opens_ok : a.opens ≡ true
  pub read_lock_ok : a.read_lock ≡ true
  pub reads_ok : a.reads ≡ true
  pub unlock_ok : a.unlock ≡ true
  pub write_lock_ok : a.write_lock ≡ true
  pub writes_ok : a.writes ≡ true

-- No system call of a bt_enable fails, and some attempt brings the device up.
pub record EnableSucceeds (a : Enable) : Type 0 where
  pub query_ok : FileSucceeds a.query.file
  pub query_sock_ok : a.query.sock ≡ true
  pub info_ok : a.query.info ≡ true
  pub power_ok : FileSucceeds a.power_on
  pub hciattach_ok : a.start_hciattach ≡ true
  pub sock_ok : a.sock ≡ true
  pub up_ok : 0 < wait_up a.ups attempts
  pub bluetoothd_ok : a.start_bluetoothd ≡ true
  pub locks_ok : LocksSucceed a.locks

pub record DisableSucceeds (a : Disable) : Type 0 where
  pub exists_ok : a.exists ≡ true
  pub locks_ok : LocksSucceed a.locks
  pub bluetoothd_ok : a.stop_bluetoothd ≡ true
  pub sock_ok : a.sock ≡ true
  pub down_ok : a.down ≡ true
  pub hciattach_ok : a.stop_hciattach ≡ true
  pub power_ok : FileSucceeds a.power_off

is_enabled-Counted :
    (n : ℕ) (q : Query) (bt : Bt)
    → Counted n bt
    → FileSucceeds q.file
    → q.sock ≡ true
    → q.info ≡ true
    → bt_is_enabled q bt ≡ (some (ltb 0 n), bt)
unfolding bt_is_enabled is_enabled_after check_bluetooth_power
is_enabled-Counted zero q bt c f s i = ground arith
is_enabled-Counted (suc n) q bt c f s i = ground arith

inc_atomic-Counted :
    (n : ℕ) (a : Locks) (bt : Bt)
    → (initial bt.ref_file).magic ≡ magic_number
    → (initial bt.ref_file).base ≡ n
    → n + 1 < 2 ^ 32
    → LocksSucceed a
    → inc_atomic a bt
      ≡ (n + 1, record bt { ref_file = some (record { magic = magic_number; base = n + 1 }) })
unfolding inc_atomic inc_base
inc_atomic-Counted n a bt m u b s = ground arith

dec_atomic-Counted :
    (n : ℕ) (a : Locks) (bt : Bt)
    → (initial bt.ref_file).magic ≡ magic_number
    → (initial bt.ref_file).base ≡ n
    → LocksSucceed a
    → dec_atomic true a bt
      ≡ (n - 1, record bt { ref_file = some (record { magic = magic_number; base = n - 1 }) })
unfolding dec_atomic dec_base
dec_atomic-Counted n a bt m u s = ground arith

abbrev counted_file : ℕ → Option RefBase
counted_file n = some (record { magic = magic_number; base = n })

-- What the first user finds, and the next ones.
enable_first :
    (a : Enable) (bt : Bt)
    → Counted 0 bt
    → EnableSucceeds a
    → bt_enable a bt ≡ (
      0,
      record bt {
        power = b'1';
        hci_up = true;
        hciattach = true;
        bluetoothd = true;
        ref_file = counted_file 1;
      },
    )
unfolding bt_enable enable_queried enable_powered enable_hci enable_daemon set_bluetooth_power
enable_first a bt c s =
    let on : Bt = record bt { power = b'1'; hci_up = true; hciattach = true; bluetoothd = true } in
    ground (
      arith,
      is_enabled-Counted 0 a.query bt c s.query_ok s.query_sock_ok s.info_ok,
      inc_atomic-Counted 0 a.locks on c.magic c.users (omega arith) s.locks_ok,
    )

enable_next :
    (n : ℕ) (a : Enable) (bt : Bt)
    → Counted (suc n) bt
    → suc n + 1 < 2 ^ 32
    → EnableSucceeds a
    → bt_enable a bt ≡ (0, record bt { ref_file = counted_file (suc n + 1) })
unfolding bt_enable enable_queried
enable_next n a bt c b s =
    let on : ltb 0 (suc n) ≡ true = ground arith in
    ap (enable_queried a)
      (is_enabled-Counted (suc n) a.query bt c s.query_ok s.query_sock_ok s.info_ok)
    ∙ rw on (
        ap (λ (r : ℕ × Bt). (0, r.1))
          (inc_atomic-Counted (suc n) a.locks bt c.magic c.users b s.locks_ok))

disable_lem :
    (n : ℕ) (a : Disable) (bt : Bt)
    → Counted n bt
    → n < 2 ^ 31
    → DisableSucceeds a
    → bt_disable a bt ≡ (
      0,
      if ltb 1 n then record bt { ref_file = counted_file (n - 1) } else record bt {
        power = b'0';
        hci_up = false;
        hciattach = false;
        bluetoothd = false;
        ref_file = counted_file (n - 1);
      },
    )
unfolding bt_disable disable_counted disable_hci set_bluetooth_power
disable_lem n a bt c b s =
    ground (arith, dec_atomic-Counted n a.locks bt c.magic c.users s.locks_ok)

-- One more user: bt_enable whose calls succeed returns 0 and leaves one user more.
pub bt_enable-Counted :
    (n : ℕ) (a : Enable) (bt : Bt)
    → Counted n bt
    → n + 1 < 2 ^ 31
    → EnableSucceeds a
    → ((bt_enable a bt).0 ≡ 0) × Counted (n + 1) (bt_enable a bt).1
bt_enable-Counted zero a bt c b s = rw (enable_first a bt c s) (
  refl,
  record { id = c.id; known = c.known; powered = refl; up = refl; magic = refl; users = refl },
)
bt_enable-Counted (suc n) a bt c b s = rw (enable_next n a bt c (omega arith) s) (
  refl,
  record {
    id = c.id;
    known = c.known;
    powered = ground arith;
    up = ground arith;
    magic = refl;
    users = refl;
  },
)

-- One user fewer.
pub bt_disable-Counted :
    (n : ℕ) (a : Disable) (bt : Bt)
    → Counted n bt
    → n < 2 ^ 31
    → DisableSucceeds a
    → ((bt_disable a bt).0 ≡ 0) × Counted (n - 1) (bt_disable a bt).1
bt_disable-Counted n a bt c b s = elim (Bool-cases (ltb 1 n)) [
  | inl more ↦ rw (disable_lem n a bt c b s) (
      rw more (
        refl,
        record {
          id = c.id;
          known = c.known;
          powered = ground arith;
          up = ground arith;
          magic = refl;
          users = refl;
        },
      ))
  | inr last ↦
      let none_left : n - 1 ≡ 0 = ground arith in
      rw (disable_lem n a bt c b s) (
        rw (last, none_left)
          (
            refl,
            record {
              id = c.id;
              known = c.known;
              powered = refl;
              up = refl;
              magic = refl;
              users = refl;
            },
          ))
]

-- Calls of the two functions in a row, by any users.
pub data UserCall : Type 0 where
  enable : Enable → UserCall
  disable : Disable → UserCall

unfoldable pub call : UserCall → Bt → ℕ × Bt
call (enable a) bt = bt_enable a bt
call (disable a) bt = bt_disable a bt

unfoldable pub calls : List UserCall → Bt → Bt
calls [] bt = bt
calls (c ∷ cs) bt = calls cs (call c bt).1

-- How many users there are after each call: the abstract view.
abbrev pub users_after : UserCall → ℕ → ℕ
users_after (enable a) n = n + 1
users_after (disable a) n = n - 1

abbrev pub users : List UserCall → ℕ → ℕ
users [] n = n
users (c ∷ cs) n = users cs (users_after c n)

abbrev pub Succeeds : UserCall → Type 0
Succeeds (enable a) = EnableSucceeds a
Succeeds (disable a) = DisableSucceeds a

abbrev pub AllSucceed : List UserCall → Type 0
AllSucceed [] = Unit {0}
AllSucceed (c ∷ cs) = Succeeds c × AllSucceed cs

call-Counted :
    (n : ℕ) (c : UserCall) (bt : Bt)
    → Counted n bt
    → n + 1 < 2 ^ 31
    → Succeeds c
    → ((call c bt).0 ≡ 0) × Counted (users_after c n) (call c bt).1
unfolding call
call-Counted n (enable a) bt h b s = bt_enable-Counted n a bt h b s
call-Counted n (disable a) bt h b s = bt_disable-Counted n a bt h (omega arith) s

users_after-le : (n : ℕ) (c : UserCall) → users_after c n ≤ n + 1
users_after-le n (enable a) = omega arith
users_after-le n (disable a) = omega arith

-- From a state that shows the number of its users, and with fewer than 2 ^ 31 users in all, any
-- calls whose system calls succeed act on that number as on a counter that stops at 0: the file
-- holds it afterwards, and the power and the HCI device are on exactly if it is not 0.
pub calls-Counted :
    (n : ℕ) (cs : List UserCall) (bt : Bt)
    → Counted n bt
    → n + length cs < 2 ^ 31
    → AllSucceed cs
    → Counted (users cs n) (calls cs bt)
unfolding calls
calls-Counted n [] bt h b s = h
calls-Counted n (c ∷ cs) bt h b s =
    calls-Counted (users_after c n) cs (call c bt).1 (call-Counted n c bt h (omega arith) s.0).1
      (omega (arith, users_after-le n c)) s.1
