-- ===== src/View/Prompt.antt =====
-- The prompts of src/hex_view/view.rs: the pattern that is searched for, and the command line, in a
-- row that may be too short for them. None is a panic.
use tofu_hex_editor.Prelude.{
  ℕ, zero, suc, ◌+◌, ◌-◌, ◌/◌, ◌%◌, min, max, Bool, true, false, ◌&&◌, ◌||◌, Option, none, some,
  ◌>>=◌, List, [], ◌∷◌, ◌++◌, map, length, take, drop, ltb, leb, ◌==◌, if◌then◌else◌,
}
use tofu_hex_editor.Machine.{add_usize, sub_usize}
use tofu_hex_editor.Printing.{codes, hex_digit}
use tofu_hex_editor.Modes.Defs.{PatternPiece, literal, wildcard}
use tofu_hex_editor.Modes.Command.{len_utf8, byte_len}
use tofu_hex_editor.Style.{
  Color, black, white, blue, dark_red, dark_grey, Command, print, print_styled_content,
  is_ascii_graphic,
}

-- The commands, and the first column that is shown.
abbrev pub Rendered : Type 0
Rendered = Option (List Command × ℕ)

abbrev pub styled : Color → Color → List ℕ → Command
styled foreground background = print_styled_content (record {
  foreground_color = some foreground;
  background_color = some background;
  attributes = 0;
})

abbrev plain_dark_red : List ℕ → Command
plain_dark_red =
    print_styled_content
      (record { foreground_color = some dark_red; background_color = none; attributes = 0 })

abbrev space : Command
space = print (32 ∷ [])

-- `{:02x}`
abbrev two_digits : ℕ → List ℕ
two_digits byte = hex_digit (byte / 16) ∷ hex_digit (byte % 16) ∷ []

abbrev is_printable : ℕ → Bool
is_printable byte = is_ascii_graphic byte || byte == 0x20

-- The start column moved to one between the cursor and the length.
abbrev pub bring_start : ℕ → ℕ → ℕ → ℕ
bring_start len cursor start =
    if leb len start then max 1 len - 1 else if ltb cursor start then cursor else start

-- `pieces[start..end]`
abbrev slice : {A : Type 0} → ℕ → ℕ → List A → Option (List A)
slice start end list =
    if leb start end && leb end (length list)
    then some (take (end - start) (drop start list))
    else none

-- A piece in hexadecimal; whether the cursor is on it, and whether half of it is typed.
unfoldable pub hex_piece : PatternPiece → Bool → Bool → List Command
hex_piece (literal byte) false half = print (two_digits byte ++ 32 ∷ []) ∷ []
hex_piece (literal byte) true true =
    print (hex_digit (byte / 16) ∷ [])
    ∷ styled black white (hex_digit (byte % 16) ∷ [])
    ∷ space
    ∷ []
hex_piece (literal byte) true false = styled black white (two_digits byte) ∷ space ∷ []
hex_piece wildcard false half = plain_dark_red (codes "** ") ∷ []
hex_piece wildcard true half = styled dark_red white (codes "**") ∷ space ∷ []

unfoldable pub hex_pieces : List PatternPiece → ℕ → ℕ → Bool → List Command
unfolding hex_piece
hex_pieces [] i normalized_cursor half = []
hex_pieces (piece ∷ pieces) i normalized_cursor half =
    hex_piece piece (normalized_cursor == i) half
    ++ hex_pieces pieces (suc i) normalized_cursor half

-- The columns that a piece takes as text.
abbrev pub piece_length : PatternPiece → ℕ
piece_length wildcard = 1
piece_length (literal byte) = if is_printable byte then 1 else 4

abbrev pub sum : List ℕ → ℕ
sum [] = 0
sum (n ∷ ns) = n + sum ns

-- `position`: how many pieces to drop until nothing remains; the remainder may stop at 0.
unfoldable pub dropped_pieces : ℕ → List ℕ → Option ℕ
dropped_pieces remaining [] = none
dropped_pieces remaining (n ∷ ns) =
    let later = dropped_pieces (remaining - n) ns >>= λ k. some (suc k) in
    if remaining == 0 then some 0 else later

unfoldable pub text_piece : PatternPiece → Bool → Command
text_piece (literal byte) false =
    if is_printable byte
    then print (byte ∷ [])
    else styled black dark_grey (b'<' ∷ two_digits byte ++ b'>' ∷ [])
text_piece (literal byte) true =
    if is_printable byte
    then styled black white (byte ∷ [])
    else styled black white (b'<' ∷ two_digits byte ++ b'>' ∷ [])
text_piece wildcard false = plain_dark_red (codes "*")
text_piece wildcard true = styled dark_red white (codes "*")

-- The loop that ends at the first piece for which there is no room.
unfoldable pub text_pieces : List PatternPiece → ℕ → ℕ → ℕ → List Command
unfolding text_piece
text_pieces [] i normalized_cursor max_width = []
text_pieces (piece ∷ pieces) i normalized_cursor max_width =
    let later = text_pieces pieces (suc i) normalized_cursor (max_width - piece_length piece) in
    if ltb max_width (piece_length piece)
    then []
    else text_piece piece (normalized_cursor == i) ∷ later

abbrev at_end : ℕ → ℕ → List Command → List Command
at_end cursor len commands = if cursor == len then commands else []

-- `StatusLinePrompter` for `Search`, with `half` for `hex_half.is_some()`
unfoldable pub render_search_hex : List PatternPiece → ℕ → Bool → ℕ → ℕ → Rendered
unfolding hex_pieces
render_search_hex pieces cursor half max_width start = do
  let moved =
      if leb (add_usize start (max_width / 3)) cursor
      then add_usize (sub_usize cursor (max_width / 3)) 1
      else start
  shown ← slice moved (min (length pieces) (add_usize moved (max_width / 3))) pieces
  some (
    hex_pieces shown 0 (sub_usize cursor moved) half
        ++ at_end cursor (length pieces) (styled black white (codes "  ") ∷ space ∷ []),
    moved,
  )

unfoldable pub render_search_text : List PatternPiece → ℕ → ℕ → ℕ → Rendered
unfolding dropped_pieces text_pieces
render_search_text pieces cursor max_width start = do
  let width = sub_usize max_width (if cursor == length pieces then 1 else 0)
  shown ← slice start (length pieces) pieces
  before ← slice 0 (sub_usize cursor start) (map piece_length shown)
  let dropped = dropped_pieces (sum before - width) (map piece_length shown)
  k ← if ltb width (sum before) then dropped else some 0
  some (
    text_pieces (drop k shown) 0 (sub_usize cursor (add_usize start k)) width
        ++ at_end cursor (length pieces) (styled black white (codes " ") ∷ []),
    add_usize start k,
  )

abbrev behind : List Command → Rendered → Rendered
behind label r = r >>= λ (commands, start). some (label ++ commands, start)

unfoldable pub render_search : List PatternPiece → ℕ → Bool → Bool → ℕ → ℕ → Rendered
unfolding render_search_hex render_search_text
render_search pieces cursor hex half max_width last_start_col =
    let start = bring_start (length pieces) cursor last_start_col in
    behind (styled white blue (codes "search:") ∷ []) (
      if hex
      then render_search_hex pieces cursor half (sub_usize max_width 7) start
      else render_search_text pieces cursor (sub_usize max_width 7) start)

-- The characters of a string from one byte to another, which must be between characters.
unfoldable pub skip_bytes : ℕ → List ℕ → Option (List ℕ)
skip_bytes zero s = some s
skip_bytes (suc n) [] = none
skip_bytes (suc n) (ch ∷ s) =
    let rest = skip_bytes (suc n - len_utf8 ch) s in
    if leb (len_utf8 ch) (suc n) then rest else none

unfoldable pub first_bytes : ℕ → List ℕ → Option (List ℕ)
first_bytes zero s = some []
first_bytes (suc n) [] = none
first_bytes (suc n) (ch ∷ s) =
    let rest = first_bytes (suc n - len_utf8 ch) s >>= λ s'. some (ch ∷ s') in
    if leb (len_utf8 ch) (suc n) then rest else none

unfoldable str_slice : ℕ → ℕ → List ℕ → Option (List ℕ)
unfolding skip_bytes first_bytes
str_slice start end s = do
  rest ← skip_bytes start s
  if leb start end then first_bytes (end - start) rest else none

-- `StatusLinePrompter` for `Command`
unfoldable pub render_command : List ℕ → ℕ → ℕ → ℕ → Rendered
unfolding str_slice
render_command line cursor max_width last_start_col = do
  let start = bring_start (byte_len line) cursor last_start_col
  let width = sub_usize (sub_usize max_width 1) (if cursor == byte_len line then 1 else 0)
  let required_length = sub_usize cursor start
  let moved =
      if ltb width required_length then add_usize start (sub_usize required_length width) else start
  shown ← str_slice moved (min (byte_len line) (add_usize moved width)) line
  some (
    styled white blue (codes ":")
        ∷ print shown
        ∷ at_end cursor (byte_len line) (styled black white (codes " ") ∷ []),
    moved,
  )
