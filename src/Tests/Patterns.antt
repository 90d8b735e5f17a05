-- ===== src/Tests/Patterns.antt =====
-- The theorems on patterns, and on splitting and collapsing regions.
use tofu_hex_editor.Prelude.{
  ℕ, suc, ◌+◌, ◌*◌, ◌≡◌, ◌≢◌, refl, true, false, Option, none, some, ◌>>=◌, List, [], ◌∷◌, arith,
  bit_or, ◌==◌, if◌then◌else◌,
}
use tofu_hex_editor.Selection.Region.{SelRegion, new}
use tofu_hex_editor.Selection.Defs.{marked}
use tofu_hex_editor.Buffer.{CurrentBuffer, from_data_and_path}
use tofu_hex_editor.Modes.Defs.{literal, wildcard, collapse_to, ModeTransition}
use tofu_hex_editor.Modes.Pattern.{
  Matching, Pattern, insert_piece, map_selections_to_matches, as_basic_slice, matched_from,
}
use tofu_hex_editor.Modes.Search.{Typing, type_digit, finish, default_maps, transition}
use tofu_hex_editor.Modes.Search.Keys.{KeepsSearch, transition-KeepsSearch}
use tofu_hex_editor.Keys.{key, typing, event_to_action}
use tofu_hex_editor.Modes.Search.Cursor.{type_digit_twice}
use tofu_hex_editor.Modes.Split.{by_width}
use tofu_hex_editor.Modes.Split.Width.{Tiles, by_width-Tiles}
use tofu_hex_editor.Modes.Collapse.{apply_search}
use tofu_hex_editor.Modes.Collapse.Panic.{apply_search_panics}
use tofu_hex_editor.Tests.Reference.{reference}

abbrev pattern_1 : Pattern
pattern_1 = literal 1 ∷ wildcard ∷ []

-- The first half of the byte at position 1 is typed.
abbrev half : Typing
half = record {
  pieces = literal 1 ∷ literal 0x40 ∷ [];
  cursor = 1;
  hex = true;
  hex_half = some 0x40;
}

type_digit_twice_example :
    (type_digit (record { pieces = pattern_1; cursor = 1; hex = true; hex_half = none }) 4 >>= λ t.
    type_digit t 10)
    ≡ (insert_piece pattern_1 1 (literal (bit_or (4 * 16) 10)) >>= λ pieces.
        some (record { pieces = pieces; cursor = 1 + 1; hex = true; hex_half = none }))
type_digit_twice_example = type_digit_twice pattern_1 1 true 4 10 (omega arith)

by_width-Tiles_example :
    (rs : List SelRegion) × (by_width 4 (new 12 3) tt ≡ some (rs, tt)) × Tiles 4 3 12 rs
by_width-Tiles_example = by_width-Tiles 4 (new 12 3) (omega arith) (omega arith)

-- The first byte that is the first of the pattern.
seek : List ℕ → List ℕ → Option ℕ
seek slice [] = none
seek [] (x ∷ xs) = none
seek (c ∷ cs) (x ∷ xs) =
    if c == x then some 0 else elim (seek (c ∷ cs) xs) [ some i ↦ some (suc i) | none ↦ none ]

abbrev matching : Matching
matching = record { find = seek; find_iter = λ e. none }

abbrev two_bytes : CurrentBuffer reference
two_bytes = record (from_data_and_path reference (1 ∷ 2 ∷ []) none) {
  selection = record { regions = marked (new 0 0) ∷ new 1 1 ∷ []; main_selection = 0 };
}

two_bytes_found :
    map_selections_to_matches reference matching (literal 2 ∷ []) two_bytes
    ≡ some ([] ∷ ((1, 2) ∷ []) ∷ [])
unfolding map_selections_to_matches as_basic_slice matched_from seek
two_bytes_found = refl

apply_search_panics_example : apply_search reference matching (literal 2 ∷ []) two_bytes ≡ none
apply_search_panics_example =
    apply_search_panics reference matching two_bytes (marked (new 0 0)) (new 1 1 ∷ []) (literal 2)
      [] (((1, 2) ∷ []) ∷ []) refl two_bytes_found (omega arith)

not_finish : event_to_action default_maps (key (typing false b'a')) ≢ some finish
unfolding event_to_action
not_finish e = cc

transition-KeepsSearch_example :
    (reply : Option ModeTransition) × (transition reference matching half collapse_to
        (key (typing false b'a'))
        two_bytes
      ≡ some (reply, two_bytes))
    × KeepsSearch reply
transition-KeepsSearch_example =
    transition-KeepsSearch reference matching collapse_to two_bytes half (key (typing false b'a'))
      (omega arith) not_finish
