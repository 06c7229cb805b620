-- ===== src/Bluedroid/Address.antt =====
-- bluedroid.c: ba2str and str2ba, Bluetooth addresses as text.
--
-- A text is the list of its bytes before the NUL. sprintf with "%2.2X" and strtoul are parameters.
use android_device_motorola.Prelude.{
  ℕ, zero, suc, ◌<◌, ◌≡◌, List, [], ◌∷◌, ◌++◌, ap, ◌∙◌, arith, put, u8,
}

-- What the two functions rely on: the digits of a byte are read back up to the end or a colon.
pub record Hex : Type 0 where
  pub print : ℕ → List ℕ
  pub strtoul : List ℕ → ℕ × List ℕ
  pub reads_end : (b : ℕ) → b < 256 → strtoul (print b) ≡ (b, [])
  pub reads_colon :
      (b : ℕ) (rest : List ℕ) → b < 256 → strtoul (print b ++ (b':' ∷ rest)) ≡ (b, b':' ∷ rest)

-- `str++`; past the end nothing is read any more.
abbrev pub next_char : List ℕ → List ℕ
next_char [] = []
next_char (c ∷ s) = s

-- The bytes that the six rounds store.
stored_bytes :
    (b dest : ℕ → ℕ)
    → ((i : ℕ) → b i < 256)
    → (i : ℕ) → i < 6
    → put
        (put
          (put (put (put (put dest 5 (u8 (b 5))) 4 (u8 (b 4))) 3 (u8 (b 3))) 2 (u8 (b 2)))
          1
          (u8 (b 1)))
        0
        (u8 (b 0))
        i
      ≡ b i
stored_bytes b dest small zero l = omega (arith, small 0)
stored_bytes b dest small (suc zero) l = omega (arith, small 1)
stored_bytes b dest small (suc (suc zero)) l = omega (arith, small 2)
stored_bytes b dest small (suc (suc (suc zero))) l = omega (arith, small 3)
stored_bytes b dest small (suc (suc (suc (suc zero)))) l = omega (arith, small 4)
stored_bytes b dest small (suc (suc (suc (suc (suc zero))))) l = omega (arith, small 5)
stored_bytes b dest small (suc (suc (suc (suc (suc (suc i)))))) l = absurd (omega arith)

module _ (h : Hex) where
  -- ba2str, for `ba->b`.
  pub ba2str : (ℕ → ℕ) → List ℕ
  ba2str b =
      h.print (b 5)
      ++ (b':'
          ∷ (h.print (b 4)
              ++ (b':'
                  ∷ (h.print (b 3)
                      ++ (b':'
                          ∷ (h.print (b 2)
                              ++ (b':' ∷ (h.print (b 1) ++ (b':' ∷ h.print (b 0))))))))))

  -- One round of the loop: the byte `i`, and the text behind it.
  abbrev pub store_byte : ℕ → ℕ × List ℕ → (ℕ → ℕ) → (ℕ → ℕ) × List ℕ
  store_byte i (v, rest) b = (put b i (u8 v), next_char rest)

  -- The loop of str2ba for the bytes below `n`.
  pub str2ba_from : ℕ → List ℕ → (ℕ → ℕ) → ℕ → ℕ
  str2ba_from zero s b = b
  str2ba_from (suc i) s b = let r = store_byte i (h.strtoul s) b in str2ba_from i r.1 r.0

  pub str2ba : List ℕ → (ℕ → ℕ) → ℕ → ℕ
  str2ba s b = str2ba_from 6 s b

  step :
      (i v : ℕ) (s rest : List ℕ) (b : ℕ → ℕ)
      → h.strtoul s ≡ (v, rest)
      → str2ba_from (suc i) s b ≡ str2ba_from i (next_char rest) (put b i (u8 v))
  unfolding str2ba_from
  step i v s rest b e = ap (λ r. str2ba_from i (store_byte i r b).1 (store_byte i r b).0) e

  -- With a sprintf and a strtoul that agree on the digits of a byte, the text of an address of six
  -- bytes reads back as that address, whatever was in the destination.
  pub str2ba-ba2str :
      (b dest : ℕ → ℕ) → ((i : ℕ) → b i < 256) → (i : ℕ) → i < 6 → str2ba (ba2str b) dest i ≡ b i
  unfolding str2ba ba2str str2ba_from
  str2ba-ba2str b dest small i l =
      let d5 = put dest 5 (u8 (b 5)) in
      let d4 = put d5 4 (u8 (b 4)) in
      let d3 = put d4 3 (u8 (b 3)) in
      let d2 = put d3 2 (u8 (b 2)) in
      let d1 = put d2 1 (u8 (b 1)) in
      let all : str2ba (ba2str b) dest ≡ put d1 0 (u8 (b 0)) =
        step 5 (b 5) _ _ dest (h.reads_colon (b 5) _ (small 5))
        ∙ step 4 (b 4) _ _ d5 (h.reads_colon (b 4) _ (small 4))
        ∙ step 3 (b 3) _ _ d4 (h.reads_colon (b 3) _ (small 3))
        ∙ step 2 (b 2) _ _ d3 (h.reads_colon (b 2) _ (small 2))
        ∙ step 1 (b 1) _ _ d2 (h.reads_colon (b 1) _ (small 1))
        ∙ step 0 (b 0) _ _ d1 (h.reads_end (b 0) (small 0)) in
      ap (λ (f : ℕ → ℕ). f i) all ∙ stored_bytes b dest small i l
