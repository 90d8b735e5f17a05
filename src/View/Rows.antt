-- ===== src/View/Rows.antt =====
-- The rows of src/hex_view/view.rs: a row with its bytes in hexadecimal and in ASCII, and the loops
-- over the rows. `draw_rows` and `draw` give the commands that are queued before the status line.
use tofu_hex_editor.Prelude.{
  ℕ, zero, suc, ◌+◌, ◌-◌, min, Bool, true, false, ◌&&◌, Option, none, some, ◌>>=◌, List, [], ◌∷◌,
  ◌++◌, length, take, drop, ltb, leb, ◌==◌, if◌then◌else◌,
}
use tofu_hex_editor.Machine.{add_usize, sub_usize, mul_usize, div_usize, rem_usize}
use tofu_hex_editor.Xi.{Xi}
use tofu_hex_editor.Selection.Region.{SelRegion}
use tofu_hex_editor.Selection.Defs.{regions_in_range}
use tofu_hex_editor.Operations.{slice_to_cow}
use tofu_hex_editor.Buffer.{CurrentBuffer}
use tofu_hex_editor.Style.{
  Command, print, set_foreground_color, move_to, clear, until_new_line, white, StylingCommand,
  with_mid_to_end, take_end_only, draw_hex_byte, draw_ascii_byte, draw as draw_styled, make_padding,
}
use tofu_hex_editor.ByteProperties.{Formatter, new as new_formatter, are_all_printed, draw_line}
use tofu_hex_editor.View.{HexView, offset_to_row, visible_of, overflow_cursor_style}
use tofu_hex_editor.View.Marks.{mark_commands}

-- Both rows zip the bytes with the styles.
unfoldable pub draw_hex_row : List ℕ → List StylingCommand → List Command
draw_hex_row [] styles = []
draw_hex_row (byte ∷ bytes) [] = []
draw_hex_row (byte ∷ bytes) (style ∷ styles) = draw_hex_byte byte style ++ draw_hex_row bytes styles

unfoldable pub draw_ascii_row : List ℕ → List StylingCommand → List Command
draw_ascii_row [] styles = []
draw_ascii_row (byte ∷ bytes) [] = []
draw_ascii_row (byte ∷ bytes) (style ∷ styles) =
    draw_ascii_byte byte style ++ draw_ascii_row bytes styles

abbrev pub vertical : ℕ
vertical = 0x2502

abbrev pub draw_separator : List Command
draw_separator = set_foreground_color white ∷ print (vertical ∷ 32 ∷ []) ∷ []

-- The columns that a row leaves empty.
unfoldable pub empty_columns : ℕ → ℕ → Option ℕ
empty_columns bpl count = if count == 0 then some bpl else rem_usize (sub_usize bpl count) bpl

-- The hexadecimal part of a row, with the overflow style and the padding behind the bytes.
unfoldable pub hex_part :
    ℕ → List ℕ → List StylingCommand → Option StylingCommand → Option (List Command)
unfolding draw_hex_row empty_columns
hex_part bpl bytes marks none = do
  columns ← empty_columns bpl (length bytes)
  padding ← make_padding (mul_usize columns 3)
  some (draw_hex_row bytes marks ++ print padding ∷ [])
hex_part bpl bytes marks (some style) = do
  columns ← empty_columns bpl (length bytes)
  padding ← make_padding (sub_usize (mul_usize columns 3) 2)
  some (
      draw_hex_row bytes marks
      ++ draw_styled (32 ∷ []) (with_mid_to_end style)
      ++ draw_styled (32 ∷ []) (take_end_only style)
      ++ print padding ∷ [])

unfoldable pub ascii_part :
    ℕ → List ℕ → List StylingCommand → Option StylingCommand → Option (List Command)
unfolding draw_ascii_row empty_columns
ascii_part bpl bytes marks none = do
  columns ← empty_columns bpl (length bytes)
  padding ← make_padding (add_usize columns 1)
  some (draw_ascii_row bytes marks ++ print padding ∷ [])
ascii_part bpl bytes marks (some style) = do
  columns ← empty_columns bpl (length bytes)
  padding ← make_padding (sub_usize (add_usize columns 1) 1)
  some (
      draw_ascii_row bytes marks
      ++ draw_styled (32 ∷ []) (take_end_only style)
      ++ print padding ∷ [])

-- The bytes at the main caret, at most four; a slice out of range panics.
abbrev pub find_main : List SelRegion → Option SelRegion
find_main [] = none
find_main (r ∷ rs) = if r.main then some r else find_main rs

abbrev pub bytes_from : ℕ → List ℕ → Option (List ℕ)
bytes_from start visible =
    let end =
      if ltb (length visible) (add_usize start 4) then length visible else add_usize start 4 in
    if leb start end && leb end (length visible)
    then some (take (end - start) (drop start visible))
    else none

unfoldable pub current_bytes : List SelRegion → ℕ → List ℕ → Option (List ℕ)
current_bytes regions start_index visible = elim (find_main regions) [
  | some v ↦ bytes_from (sub_usize v.caret start_index) visible
  | none ↦ some []
]

module _ (X : Xi) (debug : ℕ → List ℕ) where
  -- The commands so far, and the formatter behind them; none is a panic.
  abbrev pub Drawn : Type 0
  Drawn = Option (List Command × Formatter)

  -- The parts of a row that is on the screen.
  abbrev pub row_of : ℕ → List Command → List Command → List Command → List Command
  row_of row_num hex ascii properties =
      move_to 0 row_num ∷ print (32 ∷ []) ∷ hex
      ++ draw_separator
      ++ ascii
      ++ draw_separator
      ++ properties
      ++ clear until_new_line ∷ []

  unfoldable pub draw_row_at :
      ℕ → ℕ → List ℕ → List StylingCommand → Option StylingCommand → Formatter → Drawn
  unfolding hex_part ascii_part
  draw_row_at row_num bpl bytes marks end_style props = do
    hex ← hex_part bpl bytes marks end_style
    ascii ← ascii_part bpl bytes marks end_style
    (properties, props') ← draw_line debug props
    some (row_of row_num hex ascii properties, props')

  -- An offset off the screen draws nothing, and not a line of the properties.
  unfoldable pub draw_row :
      HexView X → List ℕ → ℕ → List StylingCommand → Option StylingCommand → Formatter → Drawn
  unfolding draw_row_at
  draw_row v bytes offset marks end_style props = offset_to_row X v offset >>= λ found. elim found [
    | none ↦ some ([], props)
    | some row_num ↦ draw_row_at row_num v.bytes_per_line bytes marks end_style props
  ]

  -- `if i + bytes_per_line > data.len() { self.overflow_cursor_style() } else { None }`
  abbrev pub end_style_at : HexView X → CurrentBuffer X → ℕ → Option (Option StylingCommand)
  end_style_at v buf i =
      let style = overflow_cursor_style X v buf in
      if ltb (length buf.text) (add_usize i v.bytes_per_line) then style else some none

  -- Which rows to draw: all, or those in a set.
  pub data Rows : Type 0 where
    every_row : Rows
    only : (ℕ → Bool) → Rows

  -- `invalidated_rows.contains(&self.offset_to_row(i).unwrap())`
  abbrev pub is_drawn : Rows → HexView X → ℕ → Option Bool
  is_drawn every_row v i = some true
  is_drawn (only rows) v i = offset_to_row X v i >>= λ found. found >>= λ row. some (rows row)

  abbrev pub slice : {A : Type 0} → ℕ → ℕ → List A → Option (List A)
  slice start end list =
      if leb start end && leb end (length list)
      then some (take (end - start) (drop start list))
      else none

  abbrev pub one_row :
      HexView X → CurrentBuffer X → ℕ → ℕ → List ℕ → List StylingCommand → Formatter → Drawn
  one_row v buf i start_index visible marks props = do
    let normalized_i = sub_usize i start_index
    let normalized_end = min (length visible) (add_usize normalized_i v.bytes_per_line)
    bytes ← slice normalized_i normalized_end visible
    row_marks ← slice normalized_i normalized_end marks
    end_style ← end_style_at v buf i
    draw_row v bytes i row_marks end_style props

  -- The loop over the offsets that `step_by` gives, from `i` on, on fuel.
  unfoldable pub visible_rows :
      ℕ
      → HexView X
      → CurrentBuffer X
      → Rows
      → ℕ
      → ℕ
      → ℕ
      → List ℕ
      → List StylingCommand
      → Formatter
      → Drawn
  unfolding draw_row
  visible_rows zero v buf rows i end_index start_index visible marks props =
      if leb end_index i then some ([], props) else none
  visible_rows (suc fuel) v buf rows i end_index start_index visible marks props =
      let next = λ (p : Formatter).
        visible_rows fuel v buf rows (i + v.bytes_per_line) end_index start_index visible marks p in
      elim (leb end_index i) [
        | true ↦ some ([], props)
        | false ↦ is_drawn rows v i >>= λ drawn. elim drawn [
          | false ↦ next props
          | true ↦ do
            (commands, props') ← one_row v buf i start_index visible marks props
            (later, props'') ← next props'
            some (commands ++ later, props'')
        ]
      ]

  -- `while !byte_properties.are_all_printed()`, on fuel.
  unfoldable pub rest_rows : ℕ → HexView X → ℕ → Formatter → Drawn
  unfolding draw_row
  rest_rows zero v offset props = if are_all_printed props then some ([], props) else none
  rest_rows (suc fuel) v offset props =
      let next = λ (p : Formatter). rest_rows fuel v (add_usize offset v.bytes_per_line) p in
      elim (are_all_printed props) [
        | true ↦ some ([], props)
        | false ↦ do
          (commands, props') ← draw_row v [] offset [] none props
          (later, props'') ← next props'
          some (commands ++ later, props'')
      ]

  -- The first offset behind the visible bytes at which a row starts.
  abbrev pub rest_offset : ℕ → ℕ → Option ℕ
  rest_offset end_index bpl = do
    a ← div_usize end_index bpl
    r ← rem_usize end_index bpl
    some (mul_usize (if r == 0 then a else add_usize a 1) bpl)

  -- What `draw_rows` and `draw` share: the visible rows and the rest of the properties. The fuel is
  -- for a row of the screen each time, and then for the rows before the start, of which no more than
  -- its offset can come, and the lines of the properties.
  unfoldable pub draw_visible : HexView X → CurrentBuffer X → Rows → Option (List Command)
  unfolding current_bytes visible_rows rest_rows
  draw_visible v buf rows = do
    let (start_index, end_index) = visible_of X v buf
    let visible = slice_to_cow buf.text start_index end_index
    marks ← mark_commands X v buf (start_index, end_index)
    regions ← regions_in_range buf.selection start_index end_index
    bytes ← current_bytes regions start_index visible
    props ← new_formatter bytes
    (commands, props') ←
        visible_rows (v.size.1) v buf rows start_index end_index start_index visible marks props
    offset ← rest_offset end_index v.bytes_per_line
    (later, props'') ← rest_rows (v.start_offset + 5) v offset props'
    some (commands ++ later)
