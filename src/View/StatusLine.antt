-- ===== src/View/StatusLine.antt =====
-- The status line of src/hex_view/view.rs. A path is shown as its characters.
use tofu_hex_editor.Prelude.{
  ℕ, ◌+◌, Bool, true, false, Option, none, some, ◌>>=◌, List, [], ◌∷◌, ◌++◌, length, ◌==◌,
  if◌then◌else◌,
}
use tofu_hex_editor.Machine.{sub_u16, add_usize, sub_usize, as_u16}
use tofu_hex_editor.Printing.{codes, decimal, hexadecimal}
use tofu_hex_editor.Xi.{Xi}
use tofu_hex_editor.Selection.Defs.{main_cursor_offset}
use tofu_hex_editor.Buffer.{CurrentBuffer}
use tofu_hex_editor.Modes.Defs.{Mode, search, command, Info}
use tofu_hex_editor.Modes.Names.{name as mode_name}
use tofu_hex_editor.Modes.Command.{byte_len}
use tofu_hex_editor.Style.{
  Color, red, dark_yellow, white, blue, ansi_value, Command, print_styled_content, move_to, clear,
  current_line,
}
use tofu_hex_editor.View.{HexView, current_of}
use tofu_hex_editor.View.Prompt.{styled, Rendered, render_search, render_command}

-- A private use character in the source, of three bytes.
abbrev pub left_arrow : List ℕ
left_arrow = 0xe0b2 ∷ []

abbrev foreground_only : Color → List ℕ → Command
foreground_only foreground =
    print_styled_content
      (record { foreground_color = some foreground; background_color = none; attributes = 0 })

abbrev pub sels_text : ℕ → ℕ → List ℕ
sels_text count main =
    codes " " ++ decimal 20 count ++ codes " sels (" ++ decimal 20 (add_usize main 1) ++ codes ") "

abbrev pub offset_text : ℕ → ℕ → List ℕ
offset_text offset len =
    codes " " ++ hexadecimal 16 offset ++ codes "/" ++ hexadecimal 16 (sub_usize len 1) ++ codes " "

module _ (X : Xi) where
  abbrev pub buffer_name : CurrentBuffer X → List ℕ
  buffer_name buf = elim buf.path [ some path ↦ path | none ↦ codes "*scratch*" ]

  -- The text of the last part; none is the panic of a main region out of range.
  unfoldable pub position_text : CurrentBuffer X → Option (List ℕ)
  position_text buf =
      let at_offset = main_cursor_offset buf.selection >>= λ offset.
      some (offset_text offset (length buf.text)) in
      if length buf.text == 0 then some (codes " empty ") else at_offset

  unfoldable pub calculate_powerline_length : HexView X → CurrentBuffer X → Option ℕ
  unfolding position_text
  calculate_powerline_length v buf = position_text buf >>= λ position. some (
      1
      + (2 + byte_len (buffer_name buf))
      + (if buf.dirty then 3 else 0)
      + 1
      + (2 + byte_len (mode_name v.mode))
      + 1
      + length (sels_text (length buf.selection.regions) buf.selection.main_selection)
      + 1
      + length position)

  unfoldable pub draw_statusline_here : HexView X → CurrentBuffer X → Option (List Command)
  unfolding position_text
  draw_statusline_here v buf = position_text buf >>= λ position. some (
      foreground_only red left_arrow
      ∷ styled white red
          (codes " " ++ buffer_name buf ++ (if buf.dirty then codes "[+]" else []) ++ codes " ")
      ∷ styled dark_yellow red left_arrow
      ∷ styled (ansi_value 16) dark_yellow (codes " " ++ mode_name v.mode ++ codes " ")
      ∷ styled white dark_yellow left_arrow
      ∷ styled (ansi_value 16) white
          (sels_text (length buf.selection.regions) buf.selection.main_selection)
      ∷ styled blue white left_arrow
      ∷ styled white blue position
      ∷ [])

  abbrev has_half : Option ℕ → Bool
  has_half none = false
  has_half (some half) = true

  -- The prompt, of the modes that have one.
  abbrev pub prompt_of : Mode → ℕ → ℕ → Option Rendered
  prompt_of (search pieces cursor hex hex_half next) width prev_col =
      some (render_search pieces cursor hex (has_half hex_half) width prev_col)
  prompt_of (command line cursor) width prev_col = some (render_command line cursor width prev_col)
  prompt_of _ width prev_col = none

  abbrev add_prompt : HexView X → List Command → Option Rendered → Option (HexView X × List Command)
  add_prompt v commands none = some (v, commands)
  add_prompt v commands (some prompt) = prompt >>= λ (shown, new_col).
      some (record v { last_visible_prompt_col = new_col }, commands ++ move_to 0 v.size.1 ∷ shown)

  abbrev line_start : (Info → List ℕ) → Option Info → ℕ × ℕ → Command → List Command
  line_start message (some info) size at_right =
      move_to 0 (sub_u16 size.1 1)
      ∷ clear current_line
      ∷ styled white blue (message info)
      ∷ at_right
      ∷ []
  line_start message none size at_right = at_right ∷ clear current_line ∷ []

  -- `message` gives the text of an information.
  unfoldable pub draw_statusline : (Info → List ℕ) → HexView X → Option (HexView X × List Command)
  unfolding calculate_powerline_length draw_statusline_here
  draw_statusline message v = do
    buf ← current_of X v
    line_length ← calculate_powerline_length v buf
    here ← draw_statusline_here v buf
    let at_right = move_to (sub_u16 v.size.0 (as_u16 line_length)) v.size.1
    add_prompt v (line_start message v.info v.size at_right ++ here)
        (prompt_of v.mode v.size.0 v.last_visible_prompt_col)
