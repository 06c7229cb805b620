-- ===== src/Bluedroid/Rfkill.antt =====
-- The two searches of bluedroid.c: init_rfkill for the number of the Bluetooth switch, and the wait
-- of bt_enable for the HCI device.
use android_device_motorola.Prelude.{
  ℕ, zero, suc, ◌+◌, ◌≤◌, ◌<◌, ◌≡◌, Bool, true, false, Option, none, some, refl, arith,
  Option-cases, ap, ◌==◌, ◌-◌, Bool-cases, inl, inr, subst, ◌⊎◌, sym, ◌∙◌,
}
use android_device_motorola.Bluedroid.{found_or, find_rfkill}
use android_device_motorola.Bluedroid.Control.{wait_up}

-- All numbers from `id` to `k` name files of other switches.
abbrev pub Others : (ℕ → Option Bool) → ℕ → ℕ → Type 0
Others types id k = (j : ℕ) → id ≤ j → j < k → types j ≡ some false

-- What the search should find.
abbrev pub Finds : (ℕ → Option Bool) → ℕ → Option ℕ → Type 0
Finds types id none = (k : ℕ) × (id ≤ k) × (types k ≡ none) × Others types id k
Finds types id (some k) = (id ≤ k) × (types k ≡ some true) × Others types id k

Others-step :
    (types : ℕ → Option Bool) (id k : ℕ)
    → types id ≡ some false
    → Others types (id + 1) k
    → Others types id k
Others-step types id k e o j p q = elim (Bool-cases (id == j)) [
  | inl same ↦ let same' : id ≡ j = ground arith in subst (λ i. types i ≡ some false) same' e
  | inr other ↦ o j (ground arith) q
]

Finds-step :
    (types : ℕ → Option Bool) (id : ℕ) (r : Option ℕ)
    → types id ≡ some false
    → Finds types (id + 1) r
    → Finds types id r
Finds-step types id none e (k, p, q, o) = (k, omega arith, q, Others-step types id k e o)
Finds-step types id (some k) e (p, q, o) = (omega arith, q, Others-step types id k e o)

none-some : {b : Bool} → ¬ (none ≡ some b)
none-some e = cc

later :
    (types : ℕ → Option Bool) (id n : ℕ)
    → types id ≡ some false
    → types (id + n) ≡ none
    → types (id + 1 + (n - 1)) ≡ none
later types id zero p e = absurd (none-some (sym e ∙ ap types (omega arith) ∙ p))
later types id (suc n) p e =
    let same : id + 1 + (suc n - 1) ≡ id + suc n = omega arith in ap types same ∙ e

less :
    (types : ℕ → Option Bool) (id n fuel : ℕ)
    → types id ≡ some false
    → types (id + n) ≡ none
    → n < suc fuel
    → n - 1 < fuel
less types id zero fuel p e h = absurd (none-some (sym e ∙ ap types (omega arith) ∙ p))
less types id (suc n) fuel p e h = omega arith

-- If the numbered files end at all, after `n` from `id` on, more than `n` rounds are enough for the
-- search to end; it finds the first switch of the type "bluetooth", or the end of the files if
-- there is none before it.
pub find_rfkill-Finds :
    (types : ℕ → Option Bool) (fuel id n : ℕ)
    → types (id + n) ≡ none
    → n < fuel
    → (r : Option ℕ) × (find_rfkill types fuel id ≡ some r) × Finds types id r
unfolding find_rfkill
find_rfkill-Finds types zero id n e h = absurd (omega arith)
find_rfkill-Finds types (suc fuel) id n e h =
    let rest = find_rfkill types fuel (id + 1) in
    elim (Option-cases (types id)) [
      | inl p ↦ (
        none,
        ap (λ t. found_or t id rest) p,
        (id, omega arith, p, λ j a b. absurd (omega arith)),
      )
      | inr (true, p) ↦
          (some id, ap (λ t. found_or t id rest) p, (omega arith, p, λ j a b. absurd (omega arith)))
      | inr (false, p) ↦
          let (r, q, f) =
            find_rfkill-Finds types fuel (id + 1) (n - 1) (later types id n p e)
              (less types id n fuel p e h) in
          (r, ap (λ t. found_or t id rest) p ∙ q, Finds-step types id r p f)
    ]

-- No attempt above `lo` brings the device up.
abbrev pub Down : (ℕ → Bool) → ℕ → ℕ → Type 0
Down ups lo n = (k : ℕ) → lo < k → k ≤ n → ups k ≡ false

Down-step : (ups : ℕ → Bool) (lo n : ℕ) → ups (suc n) ≡ false → Down ups lo n → Down ups lo (suc n)
Down-step ups lo n down d k p q = elim (Bool-cases (k == suc n)) [
  | inl same ↦ let same' : suc n ≡ k = ground arith in subst (λ i. ups i ≡ false) same' down
  | inr other ↦ d k p (ground arith)
]

-- The wait ends after at most `n` attempts. Its result is an attempt that brought the device up,
-- and no attempt before did, as they are counted down; or it is 0, and none of the `n` did.
pub wait_up_lem :
    (ups : ℕ → Bool) (n : ℕ)
    → let w = wait_up ups n in
      (w ≤ n) × (((0 < w) × (ups w ≡ true) × Down ups w n) ⊎ ((w ≡ 0) × Down ups 0 n))
unfolding wait_up
wait_up_lem ups zero = (omega arith, inr (refl, λ k p q. absurd (omega arith)))
wait_up_lem ups (suc n) = elim (Bool-cases (ups (suc n))) [
  | inl up ↦ rw up (omega arith, inl (omega arith, up, λ k p q. absurd (omega arith)))
  | inr down ↦
      let (b, c) = wait_up_lem ups n in
      rw down (
        omega arith,
        elim c [
          | inl (p, u, d) ↦ inl (p, u, Down-step ups (wait_up ups n) n down d)
          | inr (z, d) ↦ inr (z, Down-step ups 0 n down d)
        ],
      )
]
