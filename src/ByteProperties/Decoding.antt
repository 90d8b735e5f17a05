-- ===== src/ByteProperties/Decoding.antt =====
-- The character shown for the bytes of a character is that character.
use tofu_hex_editor.Prelude.{
  ℕ, zero, suc, ◌+◌, ◌-◌, ◌/◌, ◌%◌, ◌<◌, ◌≤◌, ◌≡◌, refl, true, none, some, ◌>>=◌, List, [], ◌∷◌,
  ◌++◌, length, take, ltb, if◌then◌else◌, arith, inl, inr, ap, ◌∙◌, Bool-cases,
}
use tofu_hex_editor.Modes.Insert.{encode_utf8}
use tofu_hex_editor.ByteProperties.Chars.{
  is_scalar, one_more, two_more, three_more, next_char, from_utf8, first_valid, utf8_into_char,
}

-- The bytes of each form, read back.
one_byte : (c : ℕ) (s : List ℕ) → c < 0x80 → next_char (c ∷ s) ≡ some (c, s)
unfolding next_char
one_byte c s h = ground arith

two_bytes :
    (c : ℕ) (s : List ℕ)
    → 0x80 ≤ c
    → c < 0x800
    → next_char ((0xc0 + c / 64) ∷ (0x80 + c % 64) ∷ s) ≡ some (c, s)
unfolding next_char one_more
two_bytes c s l h = ground arith

three_bytes :
    (c : ℕ) (s : List ℕ)
    → 0x800 ≤ c
    → c < 0x10000
    → is_scalar c ≡ true
    → next_char ((0xe0 + c / 4096) ∷ (0x80 + c / 64 % 64) ∷ (0x80 + c % 64) ∷ s) ≡ some (c, s)
unfolding next_char one_more two_more
three_bytes c s l h v = ground arith

four_bytes :
    (c : ℕ) (s : List ℕ)
    → 0x10000 ≤ c
    → is_scalar c ≡ true
    → next_char
        ((0xf0 + c / 262144) ∷ (0x80 + c / 4096 % 64) ∷ (0x80 + c / 64 % 64) ∷ (0x80 + c % 64) ∷ s)
      ≡ some (c, s)
unfolding next_char one_more two_more three_more
four_bytes c s l v = ground arith

-- A beginning of a longer character is none.
short_one : (a : ℕ) → 0x80 ≤ a → next_char (a ∷ []) ≡ none
unfolding next_char one_more two_more three_more
short_one a h = ground arith

short_two : (a b : ℕ) → 0xe0 ≤ a → next_char (a ∷ b ∷ []) ≡ none
unfolding next_char one_more two_more three_more
short_two a b h = ground arith

short_three : (a b c : ℕ) → 0xf0 ≤ a → next_char (a ∷ b ∷ c ∷ []) ≡ none
unfolding next_char one_more two_more three_more
short_three a b c h = ground arith

-- The steps of the loop over the lengths.
no_text : (fuel a : ℕ) (s : List ℕ) → next_char (a ∷ s) ≡ none → from_utf8 (suc fuel) (a ∷ s) ≡ none
unfolding from_utf8
no_text fuel a s h = ap (λ o. o >>= λ (c, rest). from_utf8 fuel rest >>= λ cs. some (c ∷ cs)) h

one_text :
    (fuel a c : ℕ) (s : List ℕ)
    → next_char (a ∷ s) ≡ some (c, [])
    → from_utf8 (suc fuel) (a ∷ s) ≡ some (c ∷ [])
unfolding from_utf8
one_text fuel a c s h = ap (λ o. o >>= λ (c, rest). from_utf8 fuel rest >>= λ cs. some (c ∷ cs)) h

skip_length :
    (n i : ℕ) (bytes : List ℕ)
    → from_utf8 i (take i bytes) ≡ none
    → first_valid (suc n) i bytes ≡ first_valid n (suc i) bytes
unfolding first_valid
skip_length n i bytes h = rw (h, first_valid) refl

take_length :
    (n i c : ℕ) (bytes : List ℕ)
    → from_utf8 i (take i bytes) ≡ some (c ∷ [])
    → first_valid (suc n) i bytes ≡ some c
unfolding first_valid
take_length n i c bytes h = rw (h, first_valid) refl

abbrev lengths : ℕ → ℕ
lengths len = if ltb len 4 then len else 4

at_least_1 : (len : ℕ) → lengths (suc len) ≡ suc (lengths (suc len) - 1)
at_least_1 len = ground arith

at_least_2 : (len : ℕ) → lengths (suc (suc len)) ≡ suc (suc (lengths (suc (suc len)) - 2))
at_least_2 len = ground arith

at_least_3 :
    (len : ℕ) → lengths (suc (suc (suc len))) ≡ suc (suc (suc (lengths (suc (suc (suc len))) - 3)))
at_least_3 len = ground arith

at_least_4 : (len : ℕ) → lengths (suc (suc (suc (suc len)))) ≡ suc (suc (suc (suc zero)))
at_least_4 len = ground arith

first_of_one :
    (n a c : ℕ) (rest : List ℕ)
    → next_char (a ∷ []) ≡ some (c, [])
    → first_valid (suc n) 1 (a ∷ rest) ≡ some c
first_of_one n a c rest h = take_length n 1 c (a ∷ rest) (one_text 0 a c [] h)

first_of_two :
    (n a b c : ℕ) (rest : List ℕ)
    → 0x80 ≤ a
    → next_char (a ∷ b ∷ []) ≡ some (c, [])
    → first_valid (suc (suc n)) 1 (a ∷ b ∷ rest) ≡ some c
first_of_two n a b c rest l h =
    skip_length (suc n) 1 (a ∷ b ∷ rest) (no_text 0 a [] (short_one a l))
    ∙ take_length n 2 c (a ∷ b ∷ rest) (one_text 1 a c (b ∷ []) h)

first_of_three :
    (n a b d c : ℕ) (rest : List ℕ)
    → 0xe0 ≤ a
    → next_char (a ∷ b ∷ d ∷ []) ≡ some (c, [])
    → first_valid (suc (suc (suc n))) 1 (a ∷ b ∷ d ∷ rest) ≡ some c
first_of_three n a b d c rest l h =
    skip_length (suc (suc n)) 1 (a ∷ b ∷ d ∷ rest) (no_text 0 a [] (short_one a (omega arith)))
    ∙ skip_length (suc n) 2 (a ∷ b ∷ d ∷ rest) (no_text 1 a (b ∷ []) (short_two a b l))
    ∙ take_length n 3 c (a ∷ b ∷ d ∷ rest) (one_text 2 a c (b ∷ d ∷ []) h)

first_of_four :
    (a b d e c : ℕ) (rest : List ℕ)
    → 0xf0 ≤ a
    → next_char (a ∷ b ∷ d ∷ e ∷ []) ≡ some (c, [])
    → first_valid (suc (suc (suc (suc zero)))) 1 (a ∷ b ∷ d ∷ e ∷ rest) ≡ some c
first_of_four a b d e c rest l h =
    let bytes = a ∷ b ∷ d ∷ e ∷ rest in
    skip_length 3 1 bytes (no_text 0 a [] (short_one a (omega arith)))
    ∙ skip_length 2 2 bytes (no_text 1 a (b ∷ []) (short_two a b (omega arith)))
    ∙ skip_length 1 3 bytes (no_text 2 a (b ∷ d ∷ []) (short_three a b d l))
    ∙ take_length 0 4 c bytes (one_text 3 a c (b ∷ d ∷ e ∷ []) h)

-- Of bytes that begin with the UTF-8 form of a character, whatever follows, the character is shown.
pub utf8_into_char-encode_utf8 :
    (c : ℕ) (rest : List ℕ) → is_scalar c ≡ true → utf8_into_char (encode_utf8 c ++ rest) ≡ some c
unfolding utf8_into_char encode_utf8
utf8_into_char-encode_utf8 c rest v = elim (Bool-cases (ltb c 0x80)) [
  | inl h ↦
      rw h (rw (at_least_1 (length rest)) (first_of_one _ c c rest (one_byte c [] (ground arith))))
  | inr h ↦ rw h (elim (Bool-cases (ltb c 0x800)) [
    | inl k ↦ rw k (
        rw (at_least_2 (length rest)) (
          first_of_two _ (0xc0 + c / 64) (0x80 + c % 64) c rest (omega arith)
            (two_bytes c [] (ground arith) (ground arith))))
    | inr k ↦ rw k (elim (Bool-cases (ltb c 0x10000)) [
      | inl m ↦ rw m (
          rw (at_least_3 (length rest)) (
            first_of_three _ (0xe0 + c / 4096) (0x80 + c / 64 % 64) (0x80 + c % 64) c rest
              (omega arith) (three_bytes c [] (ground arith) (ground arith) v)))
      | inr m ↦ rw m (
          rw (at_least_4 (length rest)) (
            first_of_four (0xf0 + c / 262144) (0x80 + c / 4096 % 64) (0x80 + c / 64 % 64)
              (0x80 + c % 64) c rest (omega arith) (four_bytes c [] (ground arith) v)))
    ])
  ])
]
