-- ===== src/Tests/Views.antt =====
-- The theorems on the view and on the byte properties.
use tofu_hex_editor.Prelude.{
  ℕ, ◌≡◌, ◌++◌, refl, true, some, List, [], ◌∷◌, take, drop, replicate, arith, inr,
}
use tofu_hex_editor.Buffer.{CurrentBuffer, from_data_and_path}
use tofu_hex_editor.Buffer.Files.{ReadAt, load_next_chunk, load_more}
use tofu_hex_editor.Modes.Insert.{encode_utf8}
use tofu_hex_editor.Style.{Command, default}
use tofu_hex_editor.ByteProperties.Chars.{utf8_into_char}
use tofu_hex_editor.ByteProperties.Decoding.{utf8_into_char-encode_utf8}
use tofu_hex_editor.View.{HexView, with_buffr_collection, offset_to_row, current_of}
use tofu_hex_editor.View.Offsets.{updated_start}
use tofu_hex_editor.View.Visible.{InView, updated_start-InView}
use tofu_hex_editor.View.Rows.{rest_rows, hex_part, ascii_part, draw_visible, every_row}
use tofu_hex_editor.View.RestRows.{rest_rows-ends}
use tofu_hex_editor.View.Whole.{draw_visible-Total}
use tofu_hex_editor.Selection.Region.{new}
use tofu_hex_editor.Selection.Defs.{marked}
use tofu_hex_editor.View.Events.{invalidated_rows}
use tofu_hex_editor.View.Invalidated.{invalidated_rows-offset_to_row}
use tofu_hex_editor.View.Width.{width, parts-width}
use tofu_hex_editor.View.Scroll.{System, scroll_down_to}
use tofu_hex_editor.View.Trimmed.{scroll_down_to-drop}
use tofu_hex_editor.Tests.Reference.{reference, reference_laws}
use tofu_hex_editor.Tests.Files.{name}

utf8_into_char-encode_utf8_example : utf8_into_char (encode_utf8 0x20ac ++ b'A' ∷ []) ≡ some 0x20ac
utf8_into_char-encode_utf8_example = utf8_into_char-encode_utf8 0x20ac (b'A' ∷ []) refl

-- A view of some bytes of a file, on a terminal with five rows.
abbrev seen : CurrentBuffer reference
seen = from_data_and_path reference (replicate 50 7) (some name)

abbrev view : HexView reference
view = with_buffr_collection reference (record { list = seen ∷ []; cur_buf_index = 0 }) (80, 5)

abbrev low : HexView reference
low = record view { start_offset = 32; size = (80, 2) }

updated_start-InView_example :
    (start : ℕ) × (updated_start reference low seen 9 ≡ some start)
    × InView reference low seen 9 start
updated_start-InView_example =
    updated_start-InView reference low seen 9
      (record {
        rows = omega arith;
        rows_u16 = omega arith;
        columns = λ h. omega arith;
        screen = omega arith;
        start_fits = omega arith;
        len_fits = omega arith;
      })
      (omega arith)

abbrev plain : ℕ → List ℕ
plain c = []

rest_rows-ends_example :
    (commands : List Command) × (rest_rows reference plain 3 view 0
        (record { bytes = 7 ∷ []; line = 2 })
      ≡ some (commands, record { bytes = 7 ∷ []; line = 5 }))
rest_rows-ends_example =
    rest_rows-ends reference plain (λ c. omega arith) view 3 0 (record { bytes = 7 ∷ []; line = 2 })
      (λ h. omega arith) (omega arith) (omega arith) (omega arith) (omega arith) (omega arith)

-- The view from its second row on, with regions in its second and its third row.
abbrev selected : CurrentBuffer reference
selected = record seen {
  selection = record { regions = new 35 33 ∷ marked (new 40 50) ∷ []; main_selection = 1 };
}

draw_visible-Total_example :
    (commands : List Command) × (draw_visible reference plain
        (record view { start_offset = 16 })
        selected
        every_row
      ≡ some commands)
draw_visible-Total_example =
    draw_visible-Total reference plain (record view { start_offset = 16 }) selected
      (λ c. omega arith)
      (record {
        rows = omega arith;
        rows_u16 = omega arith;
        columns = λ h. omega arith;
        screen = omega arith;
        start_fits = omega arith;
        len_fits = omega arith;
      })
      (omega arith) (omega arith) refl (omega arith)
      (record { ordered = omega arith; one_main = (refl, (refl, tt)) })
      ((λ e. omega arith), ((λ e. omega arith), tt))

row_lem : offset_to_row reference view 40 ≡ some (some 2)
unfolding offset_to_row
row_lem = refl

invalidated_rows-offset_to_row_example :
    invalidated_rows reference (0, 50) ((3, 5) ∷ (39, 44) ∷ []) 0 16 2 ≡ true
invalidated_rows-offset_to_row_example =
    invalidated_rows-offset_to_row reference reference_laws view (0, 50) (39, 44)
      ((3, 5) ∷ (39, 44) ∷ []) 1 40 2 (omega arith) refl (omega arith) (omega arith) (omega arith)
      (omega arith) row_lem

parts-width_example :
    ((hex : List Command) × (hex_part 16 (7 ∷ 8 ∷ []) (default ∷ default ∷ []) (some default)
        ≡ some hex)
      × (width hex ≡ 48))
    × ((ascii : List Command) × (ascii_part 16 (7 ∷ 8 ∷ []) (default ∷ default ∷ []) (some default)
          ≡ some ascii)
        × (width ascii ≡ 17))
parts-width_example =
    parts-width 16 (7 ∷ 8 ∷ []) (default ∷ default ∷ []) (some default) (λ h. omega arith)
      (omega arith) (omega arith) (omega arith) (inr (omega arith))

-- A file of a hundred bytes, on a terminal of two rows.
abbrev hundred : ReadAt
hundred path offset size = some (take size (drop offset (replicate 100 7)))

abbrev small : System
small = record { read_at = hundred; terminal_height = 2; message = λ info. []; debug = plain }

abbrev loaded : CurrentBuffer reference
loaded = record seen { text = replicate 50 7 ++ 7 ∷ replicate 49 7 }

loaded_lem : load_next_chunk reference hundred seen 64 ≡ some (loaded, true)
loaded_lem =
    load_more reference reference_laws hundred name (replicate 100 7) seen 64 7 (replicate 49 7)
      refl refl

scroll_down_to-drop_example :
    (v' : HexView reference) × (scroll_down_to reference small view 1 ≡ some (v', true))
    × (current_of reference v' ≡ some (record loaded { text = drop 16 loaded.text }))
    × (v'.start_offset ≡ 16)
scroll_down_to-drop_example =
    scroll_down_to-drop reference small view seen loaded 1 refl (omega arith) loaded_lem
      (λ h. omega arith) (omega arith) (omega arith) (omega arith) (omega arith)
