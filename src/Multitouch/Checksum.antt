-- ===== src/Multitouch/Checksum.antt =====
-- The checksum of the touch screen's settings, which the module replaces by 0 to have them written
-- again, and the number of fingers that is set that way.
use android_device_motorola.Prelude.{
  ℕ, ◌≤◌, ◌<◌, ◌^◌, ◌≡◌, ◌≢◌, refl, sym, Bool, true, false, some, List, [], ◌∷◌, arith, ap, ◌∙◌,
  Bool-cases, inl, inr, subst,
}
use android_device_motorola.Proc.{Input, written_cases, Accepted, written-Accepted}
use android_device_motorola.Multitouch.{
  Kernel, Call, Module, set_numtouch, qtouch_set_addr, qtouch_hw_init, bounded, set_wanted,
  proc_numtouch_write,
}

-- What can happen: the driver sets the address or starts the hardware, or a text is written.
pub data Event : Type 0 where
  set_addr hw_init : Event
  number : Input → Event

-- The checksum `c` stands in the driver's structure, or is kept until the correction.
pub record Keeps (c : ℕ) (m : Module) : Type 0 where
  pub kept : m.corrects ≡ true → m.eeprom_checksum ≡ c
  pub settled : m.corrects ≡ true → m.ts.num_touch ≡ m.wanted_touch
  pub in_place : m.corrects ≡ false → m.ts.eeprom_checksum ≡ c

free-Keeps : (m : Module) → m.corrects ≡ false → Keeps m.ts.eeprom_checksum m
free-Keeps m free = record { kept = λ e. cc; settled = λ e. cc; in_place = λ e. refl }

qtouch_hw_init-Keeps : (c : ℕ) (m : Module) → Keeps c m → Keeps c (qtouch_hw_init m)
unfolding qtouch_hw_init
qtouch_hw_init-Keeps c m k = elim (Bool-cases m.corrects) [
  | inl pending ↦ ground (arith, k.kept pending)
  | inr free ↦ ground (arith, k.in_place free)
]

pub bounded-range : (n : ℕ) → n < 2 ^ 32 → (2 ≤ bounded n) × (bounded n ≤ 10)
unfolding bounded
bounded-range n h = ground arith

-- The states in which the number `n` is in use, and the checksum `c` in place.
pub record InUse (n c : ℕ) (m : Module) : Type 0 where
  pub configured : m.ts.num_touch ≡ n
  pub wanted : m.wanted_touch ≡ n
  pub shown : m.touch_num ≡ n
  pub corrected : m.corrects ≡ false
  pub restored : m.ts.eeprom_checksum ≡ c

-- The number `n` is wanted of a driver with platform data.
abbrev Wanted : ℕ → Module → Type 0
Wanted n m = (m.wanted_touch ≡ n) × (m.ts.pdata ≡ true)

qtouch_hw_init-corrects :
    (n c : ℕ) (m : Module)
    → Wanted n m
    → m.ts.num_touch ≡ n
    → Keeps c m
    → let m' = qtouch_hw_init m in
      Wanted n m' × (m'.ts.num_touch ≡ n) × (m'.corrects ≡ false) × (m'.ts.eeprom_checksum ≡ c)
unfolding qtouch_hw_init
qtouch_hw_init-corrects n c m h e k = elim (Bool-cases m.corrects) [
  | inl pending ↦ ground (arith, k.kept pending)
  | inr done ↦ ground (arith, k.in_place done)
]

-- The checksum is lost: it is kept as 0, and another number is set than the wanted one.
abbrev Lost : Module → Type 0
Lost m =
    (m.corrects ≡ true)
    × (m.ts.eeprom_checksum ≡ 0)
    × (m.ts.pdata ≡ true)
    × (m.ts.num_touch ≢ m.wanted_touch)

module _ (kernel : Kernel) where
  abbrev pub happens : Event → Module → Module
  happens set_addr m = (qtouch_set_addr kernel m).0
  happens hw_init m = qtouch_hw_init m
  happens (number i) m = (proc_numtouch_write kernel i m).1

  abbrev pub happen : List Event → Module → Module
  happen [] m = m
  happen (e ∷ es) m = happen es (happens e m)

  -- While the checksum waits for its correction no other number is written.
  abbrev pub Waits : Event → Module → Type 0
  Waits set_addr m = Unit
  Waits hw_init m = Unit
  Waits (number i) m = m.corrects ≡ true → (n : ℕ) → i.parsed ≡ some n → bounded n ≡ m.wanted_touch

  abbrev pub AllWait : List Event → Module → Type 0
  AllWait [] m = Unit
  AllWait (e ∷ es) m = Waits e m × AllWait es (happens e m)

  set_numtouch-Keeps :
      (c : ℕ) (m : Module) → m.corrects ≡ false → Keeps c m → Keeps c (set_numtouch kernel m).1
  unfolding set_numtouch
  set_numtouch-Keeps c m n k = ground (arith, k.in_place n)

  qtouch_set_addr-Keeps : (c : ℕ) (m : Module) → Keeps c m → Keeps c (qtouch_set_addr kernel m).0
  unfolding qtouch_set_addr set_numtouch
  qtouch_set_addr-Keeps c m k = elim (Bool-cases m.corrects) [
    | inl pending ↦ ground (arith, k.settled pending, k.kept pending)
    | inr free ↦ ground (arith, k.in_place free)
  ]

  set_wanted-Keeps :
      (c n : ℕ) (m : Module)
      → (m.corrects ≡ true → bounded n ≡ m.wanted_touch)
      → Keeps c m
      → Keeps c (set_wanted kernel n m).1
  unfolding set_numtouch
  set_wanted-Keeps c n m same k = elim (Bool-cases m.corrects) [
    | inl pending ↦ ground (arith, k.settled pending, k.kept pending, same pending)
    | inr free ↦ ground (arith, k.in_place free)
  ]

  with_number-Keeps :
      (c : ℕ) (i : Input) (m : Module)
      → Waits (number i) m
      → Keeps c m
      → Keeps c (proc_numtouch_write kernel i m).1
  unfolding proc_numtouch_write
  with_number-Keeps c i m wait k =
      written_cases (λ (r : Bool × Module × List Call). Keeps c r.1)
        (λ n r. set_wanted kernel n r.1) i (false, m, []) k
        (λ n e. set_wanted-Keeps c n m (λ p. wait p n e) k)

  happens-Keeps : (c : ℕ) (e : Event) (m : Module) → Waits e m → Keeps c m → Keeps c (happens e m)
  happens-Keeps c set_addr m h k = qtouch_set_addr-Keeps c m k
  happens-Keeps c hw_init m h k = qtouch_hw_init-Keeps c m k
  happens-Keeps c (number i) m h k = with_number-Keeps c i m h k

  happen-Keeps :
      (c : ℕ) (l : List Event) (m : Module) → AllWait l m → Keeps c m → Keeps c (happen l m)
  happen-Keeps c [] m h k = k
  happen-Keeps c (e ∷ es) m h k = happen-Keeps c es (happens e m) h.1 (happens-Keeps c e m h.0 k)

  -- From a state in which no checksum waits for its correction, after any calls of the two hooked
  -- functions and texts, of which none has another number while a checksum waits, the start of the
  -- hardware finds the checksum that was there.
  pub happen_restores :
      (l : List Event) (m : Module)
      → m.corrects ≡ false
      → AllWait l m
      → let m' = qtouch_hw_init (happen l m) in
        (m'.corrects ≡ false) × (m'.ts.eeprom_checksum ≡ m.ts.eeprom_checksum)
  unfolding qtouch_hw_init
  happen_restores l m free h =
      let k = happen-Keeps m.ts.eeprom_checksum l m h (free-Keeps m free) in
      let m' = happen l m in
      elim (Bool-cases m'.corrects) [
        | inl pending ↦ rw pending (refl, k.kept pending)
        | inr done ↦ rw done (done, k.in_place done)
      ]

  happens-Accepted :
      (i : Input) (n : ℕ) (m : Module)
      → Accepted i n
      → happens (number i) m ≡ (set_wanted kernel n m).1
  unfolding proc_numtouch_write
  happens-Accepted i n m a =
      ap (λ (r : ℕ × (Bool × Module × List Call)). r.1.1)
        (written-Accepted (λ k r. set_wanted kernel k r.1) i n (false, m, []) a)

  set_wanted-Wanted :
      (n : ℕ) (m : Module) → m.ts.pdata ≡ true → Wanted (bounded n) (set_wanted kernel n m).1
  unfolding set_numtouch
  set_wanted-Wanted n m known = ground arith

  qtouch_set_addr-sets :
      (n : ℕ) (m : Module)
      → Wanted n m
      → let m' = (qtouch_set_addr kernel m).0 in Wanted n m' × (m'.ts.num_touch ≡ n)
  unfolding qtouch_set_addr set_numtouch
  qtouch_set_addr-sets n m h = ground arith

  qtouch_set_addr-InUse :
      (n c : ℕ) (m : Module)
      → Wanted n m
      → m.ts.num_touch ≡ n
      → m.corrects ≡ false
      → m.ts.eeprom_checksum ≡ c
      → InUse n c (qtouch_set_addr kernel m).0
  unfolding qtouch_set_addr
  qtouch_set_addr-InUse n c m h e free k = ground arith

  set_wanted-InUse :
      (n : ℕ) (m : Module)
      → m.corrects ≡ false
      → m.ts.pdata ≡ true
      → InUse
          (bounded n)
          m.ts.eeprom_checksum
          (happen (set_addr ∷ hw_init ∷ set_addr ∷ []) (set_wanted kernel n m).1)
  set_wanted-InUse n m free known =
      let c = m.ts.eeprom_checksum in
      let m1 = (set_wanted kernel n m).1 in
      let m2 = (qtouch_set_addr kernel m1).0 in
      let k1 = set_wanted-Keeps c n m (λ e. cc) (free-Keeps m free) in
      let (w2, e2) = qtouch_set_addr-sets (bounded n) m1 (set_wanted-Wanted n m known) in
      let (w3, e3, f3, c3) =
        qtouch_hw_init-corrects (bounded n) c m2 w2 e2 (qtouch_set_addr-Keeps c m1 k1) in
      qtouch_set_addr-InUse (bounded n) c (qtouch_hw_init m2) w3 e3 f3 c3

  -- An accepted number that is written while no checksum waits, to a driver with platform data, is
  -- brought into the range from 2 to 10 and, after the address is set, the hardware is started and
  -- the address is set again, it is in use, with the checksum as it was.
  pub proc_numtouch_write-InUse :
      (i : Input) (n : ℕ) (m : Module)
      → n < 2 ^ 32
      → Accepted i n
      → m.corrects ≡ false
      → m.ts.pdata ≡ true
      → (2 ≤ bounded n)
        × (bounded n ≤ 10)
        × InUse
            (bounded n)
            m.ts.eeprom_checksum
            (happen (number i ∷ set_addr ∷ hw_init ∷ set_addr ∷ []) m)
  proc_numtouch_write-InUse i n m h a free known =
      let (low, high) = bounded-range n h in
      (
        low,
        high,
        subst
            (λ m'.
              InUse (bounded n) m.ts.eeprom_checksum
                (happen (set_addr ∷ hw_init ∷ set_addr ∷ []) m'))
            (sym (happens-Accepted i n m a)) (set_wanted-InUse n m free known),
      )

  set_wanted-resets :
      (n : ℕ) (m : Module)
      → m.corrects ≡ false
      → m.ts.pdata ≡ true
      → m.ts_known ≡ true
      → m.touch_num ≢ bounded n
      → let m' = (set_wanted kernel n m).1 in
        (m'.corrects ≡ true)
        × (m'.ts.eeprom_checksum ≡ 0)
        × (m'.ts.pdata ≡ true)
        × (m'.ts.num_touch ≡ bounded n)
  unfolding set_numtouch
  set_wanted-resets n m free known ts other = ground arith

  set_wanted-Lost :
      (n k : ℕ) (m : Module)
      → m.corrects ≡ true
      → m.ts.eeprom_checksum ≡ 0
      → m.ts.pdata ≡ true
      → m.ts.num_touch ≡ n
      → n ≢ bounded k
      → Lost (set_wanted kernel k m).1
  set_wanted-Lost n k m c e p t other = ground arith

  Lost-zero : (m : Module) → Lost m → (happen (set_addr ∷ hw_init ∷ []) m).ts.eeprom_checksum ≡ 0
  unfolding qtouch_set_addr qtouch_hw_init set_numtouch
  Lost-zero m l = ground arith

  -- A second accepted number that is written before the hardware is started loses the checksum: if
  -- the first one, brought into the range, is not in use and differs from the second one, the start
  -- of the hardware finds the checksum 0.
  pub proc_numtouch_write_loses :
      (i j : Input) (n k : ℕ) (m : Module)
      → Accepted i n
      → Accepted j k
      → m.corrects ≡ false
      → m.ts.pdata ≡ true
      → m.ts_known ≡ true
      → m.touch_num ≢ bounded n
      → bounded n ≢ bounded k
      → (happen (number i ∷ number j ∷ set_addr ∷ hw_init ∷ []) m).ts.eeprom_checksum ≡ 0
  proc_numtouch_write_loses i j n k m a b free known ts n1 n2 =
      let m1 = (set_wanted kernel n m).1 in
      let (c, e, p, t) = set_wanted-resets n m free known ts n1 in
      let lost = set_wanted-Lost (bounded n) k m1 c e p t n2 in
      let same = ap (happens (number j)) (happens-Accepted i n m a) ∙ happens-Accepted j k m1 b in
      subst (λ m'. (happen (set_addr ∷ hw_init ∷ []) m').ts.eeprom_checksum ≡ 0) (sym same)
        (Lost-zero (set_wanted kernel k m1).1 lost)
