-- ===== src/Modes/Pattern.antt =====
-- The type `Pattern` of src/modes/search.rs: its pieces, and its matches in the selected regions.
-- The crates jetscii and regex are parameters.
pub mod Matches
use tofu_hex_editor.Prelude.{
  ℕ, zero, suc, ◌+◌, ◌-◌, ◌/◌, ◌%◌, Option, none, some, ◌>>=◌, List, [], ◌∷◌, ◌++◌, length, take,
  drop, erase_idx, ltb, if◌then◌else◌,
}
use tofu_hex_editor.Machine.{add_usize}
use tofu_hex_editor.Xi.{Xi, Rope}
use tofu_hex_editor.Selection.Region.{SelRegion, max_of, min_of}
use tofu_hex_editor.Buffer.{CurrentBuffer, Interval}
use tofu_hex_editor.Operations.{slice_or_panic}
use tofu_hex_editor.Modes.Defs.{PatternPiece, literal, wildcard}

abbrev pub Pattern : Type 0
Pattern = List PatternPiece

-- `pieces.insert(position, …)`, a panic behind the end
unfoldable pub insert_piece : Pattern → ℕ → PatternPiece → Option Pattern
insert_piece pieces position p =
    if ltb (length pieces) position
    then none
    else some (take position pieces ++ p ∷ drop position pieces)

-- `pieces[position] = …`
unfoldable pub put_piece : Pattern → ℕ → PatternPiece → Option Pattern
put_piece pieces position p =
    if ltb position (length pieces)
    then some (take position pieces ++ p ∷ drop (suc position) pieces)
    else none

-- The pattern and the position behind the piece.
abbrev pub insert_literal : Pattern → ℕ → ℕ → Option (Pattern × ℕ)
insert_literal pieces position c = do
  pieces' ← insert_piece pieces position (literal c)
  some (pieces', position + 1)

abbrev pub insert_half_literal : Pattern → ℕ → ℕ → Option (Pattern × ℕ)
insert_half_literal pieces position c = do
  pieces' ← put_piece pieces position (literal c)
  some (pieces', position + 1)

abbrev pub insert_wildcard : Pattern → ℕ → Option (Pattern × ℕ)
insert_wildcard pieces position = do
  pieces' ← insert_piece pieces position wildcard
  some (pieces', position + 1)

-- It does nothing out of range.
abbrev pub remove : Pattern → ℕ → Pattern
remove pieces position = erase_idx pieces position

unfoldable pub as_basic_slice : Pattern → Option (List ℕ)
as_basic_slice [] = some []
as_basic_slice (literal c ∷ pieces) = as_basic_slice pieces >>= λ cs. some (c ∷ cs)
as_basic_slice (wildcard ∷ pieces) = none

-- A digit of `{:02x}`
hex_digit : ℕ → ℕ
hex_digit n = if ltb n 10 then b'0' + n else b'a' + (n - 10)

-- The regular expression, `.` for a wildcard and `\x` with two digits for a byte
unfoldable pub expression : Pattern → List ℕ
unfolding hex_digit
expression [] = []
expression (wildcard ∷ pieces) = 46 ∷ expression pieces
expression (literal c ∷ pieces) =
    92 ∷ b'x' ∷ hex_digit (c / 16) ∷ hex_digit (c % 16) ∷ expression pieces

-- `ByteSubstring::new(needle).find(haystack)`, and `find_iter` of the regular expression that is
-- built without Unicode, with none where it cannot be built.
pub record Matching : Type 0 where
  pub find : List ℕ → List ℕ → Option ℕ
  pub find_iter : List ℕ → Option (List ℕ → List Interval)

-- The loop over the matches of a slice in the bytes from `base` on. Each match takes at
-- least one byte, so one step more than there are bytes is enough.
unfoldable pub matched_from : Matching → List ℕ → ℕ → ℕ → List ℕ → List Interval
matched_from m slice zero base bytes = []
matched_from m slice (suc fuel) base bytes = elim (m.find slice bytes) [
  | none ↦ []
  | some start ↦
      let end = base + start + length slice in
      (base + start, end) ∷ matched_from m slice fuel end (drop (start + length slice) bytes)
]

abbrev shifted : ℕ → List Interval → List Interval
shifted base [] = []
shifted base ((start, end) ∷ found) = (base + start, base + end) ∷ shifted base found

module _ (X : Xi) (m : Matching) where
  -- The bytes of a region
  abbrev slice_of : Rope → SelRegion → Option (List ℕ)
  slice_of text r = slice_or_panic text (min_of r) (add_usize (max_of r) 1)

  abbrev basic_matches : Rope → List ℕ → List SelRegion → Option (List (List Interval))
  basic_matches text slice [] = some []
  basic_matches text slice (r ∷ rs) = do
    bytes ← slice_of text r
    later ← basic_matches text slice rs
    some (matched_from m slice (suc (length bytes)) (min_of r) bytes ∷ later)

  abbrev regex_matches :
      Rope → (List ℕ → List Interval) → List SelRegion → Option (List (List Interval))
  regex_matches text matcher [] = some []
  regex_matches text matcher (r ∷ rs) = do
    bytes ← slice_of text r
    later ← regex_matches text matcher rs
    some (shifted (min_of r) (matcher bytes) ∷ later)

  unfoldable pub map_selections_to_matches :
      Pattern → CurrentBuffer X → Option (List (List Interval))
  map_selections_to_matches pieces buf = elim (as_basic_slice pieces) [
    | some slice ↦ basic_matches buf.text slice buf.selection.regions
    | none ↦ m.find_iter (expression pieces) >>= λ matcher.
        regex_matches buf.text matcher buf.selection.regions
  ]
