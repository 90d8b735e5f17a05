-- ===== src/ByteProperties/Chars.antt =====
-- The characters of src/hex_view/byte_properties.rs: the first character of some bytes, read as UTF-8
-- and as big-endian UTF-16.
use tofu_hex_editor.Prelude.{
  ℕ, zero, suc, ◌+◌, ◌-◌, ◌*◌, Bool, ◌&&◌, ◌||◌, Option, none, some, ◌>>=◌, List, [], ◌∷◌, length,
  take, ltb, leb, ◌==◌, if◌then◌else◌,
}

abbrev pub between : ℕ → ℕ → ℕ → Bool
between low high n = leb low n && leb n high

abbrev is_continuation : ℕ → Bool
is_continuation = between 0x80 0xbf

-- Unicode scalar values: no surrogates.
abbrev pub is_scalar : ℕ → Bool
is_scalar c = ltb c 0xd800 || between 0xe000 0x10ffff c

-- One, two or three continuation bytes behind the bits that the first byte gives; the bounds on the
-- first of them leave out what is not in the shortest form, the surrogates and what is too large.
unfoldable pub one_more : ℕ → ℕ → ℕ → List ℕ → Option (ℕ × List ℕ)
one_more low high bits [] = none
one_more low high bits (b ∷ s) =
    if between low high b then some (bits * 64 + (b - 0x80), s) else none

unfoldable pub two_more : ℕ → ℕ → ℕ → List ℕ → Option (ℕ × List ℕ)
unfolding one_more
two_more low high bits s = one_more low high bits s >>= λ (bits', s'). one_more 0x80 0xbf bits' s'

unfoldable pub three_more : ℕ → ℕ → ℕ → List ℕ → Option (ℕ × List ℕ)
unfolding one_more two_more
three_more low high bits s = one_more low high bits s >>= λ (bits', s'). two_more 0x80 0xbf bits' s'

-- The next character of UTF-8, and what follows it.
unfoldable pub next_char : List ℕ → Option (ℕ × List ℕ)
unfolding one_more two_more three_more
next_char [] = none
next_char (a ∷ s) =
    if ltb a 0x80
    then some (a, s)
    else if between 0xc2 0xdf a
    then one_more 0x80 0xbf (a - 0xc0) s
    else if a == 0xe0
    then two_more 0xa0 0xbf 0 s
    else if a == 0xed
    then two_more 0x80 0x9f 0xd s
    else if between 0xe1 0xef a
    then two_more 0x80 0xbf (a - 0xe0) s
    else if a == 0xf0
    then three_more 0x90 0xbf 0 s
    else if between 0xf1 0xf3 a
    then three_more 0x80 0xbf (a - 0xf0) s
    else if a == 0xf4
    then three_more 0x80 0x8f 4 s
    else none

-- `String::from_utf8` on at most `fuel` bytes; none is its error.
unfoldable pub from_utf8 : ℕ → List ℕ → Option (List ℕ)
unfolding next_char
from_utf8 fuel [] = some []
from_utf8 zero (a ∷ s) = none
from_utf8 (suc fuel) (a ∷ s) =
    next_char (a ∷ s) >>= λ (c, rest). from_utf8 fuel rest >>= λ cs. some (c ∷ cs)

-- The loop over the lengths from `i` on, `n` of them. A text that is valid is not empty here.
unfoldable pub first_valid : ℕ → ℕ → List ℕ → Option ℕ
unfolding from_utf8
first_valid zero i bytes = none
first_valid (suc n) i bytes =
    let later = first_valid n (suc i) bytes in
    elim (from_utf8 i (take i bytes)) [
      | some s ↦ elim s [ c ∷ cs ↦ some c | [] ↦ none ]
      | none ↦ later
    ]

-- None is the error, which is drawn as a replacement character.
unfoldable pub utf8_into_char : List ℕ → Option ℕ
unfolding first_valid
utf8_into_char bytes = first_valid (if ltb (length bytes) 4 then length bytes else 4) 1 bytes

-- `from_be_bytes`
abbrev pub be_bytes_from : ℕ → List ℕ → ℕ
be_bytes_from n [] = n
be_bytes_from n (byte ∷ bytes) = be_bytes_from (n * 256 + byte) bytes

abbrev pub be_bytes : List ℕ → ℕ
be_bytes = be_bytes_from 0

-- The first character of `String::from_utf16` on one and on two units.
abbrev pub from_utf16_one : ℕ → Option ℕ
from_utf16_one u = if between 0xd800 0xdfff u then none else some u

abbrev pub from_utf16_two : ℕ → ℕ → Option ℕ
from_utf16_two u v =
    if between 0xd800 0xdbff u && between 0xdc00 0xdfff v
    then some (0x10000 + (u - 0xd800) * 0x400 + (v - 0xdc00))
    else from_utf16_one u >>= λ c. from_utf16_one v >>= λ d. some c

abbrev second_try : List ℕ → Option ℕ
second_try (a ∷ b ∷ c ∷ d ∷ rest) = from_utf16_two (be_bytes (a ∷ b ∷ [])) (be_bytes (c ∷ d ∷ []))
second_try bytes = none

unfoldable pub utf16_into_char : List ℕ → Option ℕ
utf16_into_char (a ∷ b ∷ rest) = elim (from_utf16_one (be_bytes (a ∷ b ∷ []))) [
  | some c ↦ some c
  | none ↦ second_try (a ∷ b ∷ rest)
]
utf16_into_char bytes = none
