-- ===== src/Sio/Entries.antt =====
-- How the list operations of Sio change the number of times that a request stands on a list.
use android_device_motorola.Prelude.{
  ℕ, ◌+◌, ◌-◌, ◌<◌, ◌≡◌, refl, Bool-cases, inl, inr, List, [], ◌∷◌, some, arith, length, count,
  ◌==◌, if◌then◌else◌,
}
use android_device_motorola.Sio.{del, add_behind, first_entry}

pub count-del :
    (r x : ℕ) (l : List ℕ) → count r (del x l) ≡ (if x == r then count r l - 1 else count r l)
unfolding del
count-del r x [] = ground arith
count-del r x (y ∷ l) = ground (arith, count-del r x l)

pub count-add_behind :
    (k n r : ℕ) (l : List ℕ)
    → count k (add_behind n r l)
      ≡ count k l + (if r == k then (if count n l == 0 then 0 else 1) else 0)
unfolding add_behind
count-add_behind k n r [] = ground arith
count-add_behind k n r (y ∷ l) = ground (arith, count-add_behind k n r l)

-- Deleting an entry that is on the list makes it one shorter, and any other nothing.
pub length-del : (x : ℕ) (l : List ℕ) → 0 < count x l → length (del x l) + 1 ≡ length l
unfolding del
length-del x [] h = absurd (omega arith)
length-del x (y ∷ l) h = elim (Bool-cases (y == x)) [
  | inl e ↦ rw e (omega arith)
  | inr e ↦
      rw e (let h' : 0 < 0 + count x l = rw e at h in omega (arith, length-del x l (omega arith)))
]

pub del_absent : (x : ℕ) (l : List ℕ) → count x l ≡ 0 → del x l ≡ l
unfolding del
del_absent x [] h = refl
del_absent x (y ∷ l) h = ground (arith, del_absent x l)

pub first_entry-count : (l : List ℕ) {r : ℕ} → first_entry l ≡ some r → 0 < count r l
first_entry-count [] h = ground arith
first_entry-count (x ∷ l) h = ground arith
