-- ===== src/Printing.antt =====
-- The texts and numbers that the program prints, as lists of characters.
use Prim.Native.Char.{code}
use Prim.Native.String.{String}
use tofu_hex_editor.Prelude.{
  ℕ, zero, suc, ◌+◌, ◌-◌, ◌/◌, ◌%◌, List, [], ◌∷◌, ◌++◌, ltb, if◌then◌else◌,
}

-- The characters of a text.
abbrev pub codes : String → List ℕ
codes String.[] = []
codes (String.◌∷◌ c s) = code c ∷ codes s

-- A digit as `{:x}` prints it.
abbrev pub hex_digit : ℕ → ℕ
hex_digit d = if ltb d 10 then b'0' + d else b'a' + (d - 10)

-- A number below 10 ^ fuel as `{}` prints it, and one below 16 ^ fuel as `{:x}` does.
abbrev pub decimal : ℕ → ℕ → List ℕ
decimal zero n = []
decimal (suc fuel) n =
    let higher = decimal fuel (n / 10) in
    if ltb n 10 then (b'0' + n) ∷ [] else higher ++ (b'0' + n % 10) ∷ []

abbrev pub hexadecimal : ℕ → ℕ → List ℕ
hexadecimal zero n = []
hexadecimal (suc fuel) n =
    let higher = hexadecimal fuel (n / 16) in
    if ltb n 16 then hex_digit n ∷ [] else higher ++ hex_digit (n % 16) ∷ []
