-- ===== src/Bluedroid/Failures.antt =====
-- How bt_enable of bluedroid.c fails, and what it leaves then.
use android_device_motorola.Prelude.{
  ℕ, ◌≡◌, ◌≢◌, ◌⊎◌, inl, inr, Bool, true, false, not, Option, none, some, ◌==◌, if_cases, refl, sym,
  arith, ap, ◌∙◌,
}
use android_device_motorola.Bluedroid.{
  Bt, StateFile, failed, check_bluetooth_power, set_bluetooth_power,
}
use android_device_motorola.Bluedroid.Control.{
  Query, Enable, wait_up, attempts, power_off_fail, set_hciattach, is_enabled_after, bt_is_enabled,
  enable_daemon, enable_hci, enable_powered, enable_queried, bt_enable,
}
use android_device_motorola.Bluedroid.Counting.{Counted, FileSucceeds}

-- What a bt_enable that returns -1 can leave, from a state before it.
pub record Fails (a : Enable) (before : Bt) (r : ℕ × Bt) : Type 0 where
  pub result : r.0 ≡ failed
  pub uncounted : r.1.ref_file ≡ before.ref_file
  pub left :
      (r.1.power ≡ before.power)
      ⊎ (r.1.power ≡ b'0')
      ⊎ ((r.1.power ≡ b'1')
          × ((a.sock ≡ false) ⊎ ((set_bluetooth_power a.power_off false r.1).0 ≡ false)))

check_bluetooth_power-keeps :
    (f : StateFile) (bt : Bt)
    → let bt' = (check_bluetooth_power f bt).1 in
      (bt'.power ≡ bt.power) × (bt'.ref_file ≡ bt.ref_file)
unfolding check_bluetooth_power
check_bluetooth_power-keeps f bt = (refl, refl)

is_enabled-keeps :
    (q : Query) (bt : Bt)
    → let bt' = (bt_is_enabled q bt).1 in (bt'.power ≡ bt.power) × (bt'.ref_file ≡ bt.ref_file)
unfolding bt_is_enabled is_enabled_after check_bluetooth_power
is_enabled-keeps q bt = ground arith

module _ (f : StateFile) (bt : Bt) where
  set_power-keeps_file : (on : Bool) → (set_bluetooth_power f on bt).1.ref_file ≡ bt.ref_file
  unfolding set_bluetooth_power
  set_power-keeps_file on = ground arith

  set_power-on :
      (set_bluetooth_power f true bt).0 ≡ true → (set_bluetooth_power f true bt).1.power ≡ b'1'
  unfolding set_bluetooth_power
  set_power-on h = ground arith

  set_power-fails :
      (on : Bool)
      → (set_bluetooth_power f on bt).0 ≡ false
      → (set_bluetooth_power f on bt).1.power ≡ bt.power
  unfolding set_bluetooth_power
  set_power-fails on h = ground arith

  set_power-off :
      ((set_bluetooth_power f false bt).1.power ≡ b'0')
      ⊎ (((set_bluetooth_power f false bt).1.power ≡ bt.power)
          × ((set_bluetooth_power f false (set_bluetooth_power f false bt).1).0 ≡ false))
  unfolding set_bluetooth_power
  set_power-off = ground arith

cc_not : (t : Bool) → not t ≡ true → t ≡ false
cc_not true e = cc
cc_not false e = refl

module _ (a : Enable) (before : Bt) where
  off-Fails :
      (bt : Bt)
      → bt.power ≡ b'1'
      → bt.ref_file ≡ before.ref_file
      → Fails a before (power_off_fail a bt)
  off-Fails bt p r = record {
    result = refl;
    uncounted = set_power-keeps_file a.power_off bt false ∙ r;
    left = elim (set_power-off a.power_off bt) [
      | inl zero_byte ↦ inr (inl zero_byte)
      | inr (same, again) ↦ inr (inr (same ∙ p, inr again))
    ];
  }

  -- A result that is -1 if it is not 0.
  abbrev FailsUnless : ℕ × Bt → Type 0
  FailsUnless r = r.0 ≢ 0 → Fails a before r

  enable_hci-Fails :
      (bt : Bt) → bt.power ≡ b'1' → bt.ref_file ≡ before.ref_file → FailsUnless (enable_hci a bt)
  unfolding enable_hci enable_daemon
  enable_hci-Fails bt p r =
      if_cases FailsUnless (not a.sock)
        (λ s h. record {
          result = refl;
          uncounted = r;
          left = inr (inr (p, inl (cc_not a.sock s)));
        })
        (λ s.
          if_cases FailsUnless (wait_up a.ups attempts == 0) (λ z h. off-Fails bt p r)
            (λ z.
              if_cases FailsUnless a.start_bluetoothd (λ d h. absurd (h refl))
                (λ d h. off-Fails (record bt { hci_up = true }) p r)))

  enable_powered-Fails :
      (bt : Bt)
      → bt.power ≡ before.power
      → bt.ref_file ≡ before.ref_file
      → let r = enable_powered a (set_bluetooth_power a.power_on true bt) in
        r.0 ≢ 0 → Fails a before r
  unfolding enable_powered
  enable_powered-Fails bt p r h = go (set_bluetooth_power a.power_on true bt) refl h
    where
      go :
          (w : Bool × Bt)
          → set_bluetooth_power a.power_on true bt ≡ w
          → (enable_powered a w).0 ≢ 0
          → Fails a before (enable_powered a w)
      go (false, bt') e h = record {
        result = refl;
        uncounted =
            ap (λ (w : Bool × Bt). w.1.ref_file) (sym e)
            ∙ set_power-keeps_file a.power_on bt true
            ∙ r;
        left = inl (
            ap (λ (w : Bool × Bt). w.1.power) (sym e)
            ∙ set_power-fails a.power_on bt true (ap (λ (w : Bool × Bt). w.0) e)
            ∙ p);
      }
      go (true, bt') e h =
          let on : bt'.power ≡ b'1' =
            ap (λ (w : Bool × Bt). w.1.power) (sym e)
            ∙ set_power-on a.power_on bt (ap (λ (w : Bool × Bt). w.0) e) in
          let file : bt'.ref_file ≡ before.ref_file =
            ap (λ (w : Bool × Bt). w.1.ref_file) (sym e)
            ∙ set_power-keeps_file a.power_on bt true
            ∙ r in
          if_cases FailsUnless a.start_hciattach
            (λ d. enable_hci-Fails (set_hciattach true bt') on file) (λ d h. off-Fails bt' on file)
            h

-- A bt_enable that does not return 0 returns -1 and counts no user. The power is then as before or
-- off, or it is on because there is no socket for the HCI device or because it cannot be switched
-- off.
pub bt_enable-Fails : (a : Enable) (bt : Bt) → (bt_enable a bt).0 ≢ 0 → Fails a bt (bt_enable a bt)
unfolding bt_enable enable_queried
bt_enable-Fails a bt h =
    let (p, r) = is_enabled-keeps a.query bt in go (bt_is_enabled a.query bt) p r h
  where
    go :
        (w : Option Bool × Bt)
        → w.1.power ≡ bt.power
        → w.1.ref_file ≡ bt.ref_file
        → (enable_queried a w).0 ≢ 0
        → Fails a bt (enable_queried a w)
    go (some true, bt') p r h = absurd (h refl)
    go (some false, bt') p r h = enable_powered-Fails a bt bt' p r h
    go (none, bt') p r h = enable_powered-Fails a bt bt' p r h

-- Where Bluetooth is off and can be powered, but there is no socket for the HCI device, bt_enable
-- returns -1 and leaves the power on.
pub bt_enable-no_socket :
    (a : Enable) (bt : Bt)
    → Counted 0 bt
    → FileSucceeds a.query.file
    → FileSucceeds a.power_on
    → a.start_hciattach ≡ true
    → a.sock ≡ false
    → ((bt_enable a bt).0 ≡ failed) × ((bt_enable a bt).1.power ≡ b'1')
unfolding bt_enable bt_is_enabled is_enabled_after check_bluetooth_power enable_queried
    enable_powered enable_hci set_bluetooth_power
bt_enable-no_socket a bt c q w d s = ground arith
