-- ===== src/Hooks/Undo.antt =====
-- hook_exit after hook_init of hook.c: the memory is as before.
use android_device_motorola.Prelude.{
  ℕ, ◌+◌, ◌≤◌, ◌≡◌, ◌==◌, if◌then◌else◌, List, [], ◌∷◌, count, put, arith, refl, Bool-cases, inl,
  inr, ◌∙◌, subst,
}
use android_device_motorola.Hooks.{
  HookInfo, Memory, find_target, branch_to, hook, unhook, hook_init, hook_exit,
}

-- The instructions that hook_init patches.
abbrev pub targets : (ℕ → ℕ) → List HookInfo → List ℕ
targets lookup [] = []
targets lookup (hi ∷ rest) =
    let more = targets lookup rest in
    if hi.newfunc == 0
    then []
    else (if find_target lookup hi == 0 then more else find_target lookup hi ∷ more)

-- No instruction is patched twice.
abbrev pub Once : (ℕ → ℕ) → List HookInfo → Type 0
Once lookup his = (a : ℕ) → count a (targets lookup his) ≤ 1

hook_init-others :
    (lookup : ℕ → ℕ) (his : List HookInfo) (mem : Memory) (a : ℕ)
    → count a (targets lookup his) ≡ 0
    → (hook_init lookup his mem).1 a ≡ mem a
unfolding hook_init hook
hook_init-others lookup [] mem a h = refl
hook_init-others lookup (hi ∷ rest) mem a h = elim (Bool-cases (hi.newfunc == 0)) [
  | inl e ↦ rw e refl
  | inr e ↦ elim (Bool-cases (find_target lookup hi == 0)) [
    | inl f ↦ rw (e, f) (hook_init-others lookup rest mem a (ground arith))
    | inr f ↦
        let t = find_target lookup hi in
        let mem' = put mem t (branch_to hi.newfunc t) in
        rw (e, f) (hook_init-others lookup rest mem' a (ground arith) ∙ ground arith)
  ]
]

-- What stands at an address after the word at `t` has been put back.
patched_once :
    (n t a : ℕ) (m mem : Memory) (branch : ℕ)
    → (if t == a then 1 else 0) + n ≤ 1
    → (if n == 0 then put m t (mem t) a else put mem t branch a)
      ≡ (if (if t == a then 1 else 0) + n == 0 then m a else mem a)
patched_once n t a m mem branch h = elim (Bool-cases (t == a)) [
  | inl e ↦
      let same : t ≡ a = ground arith in
      subst
        (λ b.
          (if n == 0 then put m t (mem t) b else put mem t branch b)
          ≡ (if (if t == b then 1 else 0) + n == 0 then m b else mem b))
        same (ground arith)
  | inr e ↦ ground arith
]

-- Undoing the hooks on any memory puts back what the patched instructions were.
hook_exit-restores :
    (lookup : ℕ → ℕ) (his : List HookInfo) (mem m : Memory) (a : ℕ)
    → Once lookup his
    → hook_exit (hook_init lookup his mem).0 m a
      ≡ (if count a (targets lookup his) == 0 then m a else mem a)
unfolding hook_init hook hook_exit unhook
hook_exit-restores lookup [] mem m a o = refl
hook_exit-restores lookup (hi ∷ rest) mem m a o = elim (Bool-cases (hi.newfunc == 0)) [
  | inl e ↦ rw (e, e) refl
  | inr e ↦ elim (Bool-cases (find_target lookup hi == 0)) [
    | inl f ↦
        let once : Once lookup rest = λ b. ground (arith, o b) in
        rw (e, f) (rw e (hook_exit-restores lookup rest mem m a once))
    | inr f ↦
        let t = find_target lookup hi in
        let once : Once lookup rest = λ b. ground (arith, o b) in
        let mem' = put mem t (branch_to hi.newfunc t) in
        rw (e, f)
          (rw (e, f)
            (hook_exit-restores lookup rest mem' (put m t (mem t)) a once
              ∙ patched_once (count a (targets lookup rest)) t a m mem (branch_to hi.newfunc t)
                  (ground (arith, o a))))
  ]
]

-- If no function is hooked twice, hook_exit after hook_init leaves every word of the memory as it
-- was before, also where some functions are not found.
pub hook_exit-hook_init :
    (lookup : ℕ → ℕ) (his : List HookInfo) (mem : Memory)
    → Once lookup his
    → (a : ℕ) → (let (hooked, mem') = hook_init lookup his mem in hook_exit hooked mem' a) ≡ mem a
hook_exit-hook_init lookup his mem o a =
    let mem' = (hook_init lookup his mem).1 in
    hook_exit-restores lookup his mem mem' a o
    ∙ elim (Bool-cases (count a (targets lookup his) == 0)) [
      | inl e ↦ rw e (hook_init-others lookup his mem a (ground arith))
      | inr e ↦ rw e refl
    ]
