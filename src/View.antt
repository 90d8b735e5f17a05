-- ===== src/View.antt =====
-- src/hex_view/view.rs: the view of the current buffer, which bytes and rows of it are visible, and
-- the styles of the marks. Sums and products wrap as in a release build; a panic is none.
pub mod Marks
pub mod Rows
pub mod Chunks
pub mod Prompt
pub mod StatusLine
pub mod Offsets
pub mod Scroll
pub mod Events
pub mod Visible
pub mod Marked
pub mod Width
pub mod RestRows
pub mod Invalidated
pub mod Trimmed
pub mod Current
pub mod Drawn
pub mod Loop
pub mod Whole
use tofu_hex_editor.Prelude.{
  ℕ, zero, suc, ◌+◌, ◌-◌, min, Bool, true, false, ◌&&◌, ◌||◌, not, Option, none, some, ◌>>=◌, List,
  [], ◌∷◌, ◌++◌, length, ltb, leb, ◌==◌, if◌then◌else◌,
}
use tofu_hex_editor.Machine.{add_usize, sub_usize, mul_usize, sub_u16, div_usize}
use tofu_hex_editor.Xi.{Xi}
use tofu_hex_editor.Buffer.{
  CurrentBuffer, Interval, OverflowSelectionStyle, tail as at_tail, overflow_sel_style,
}
use tofu_hex_editor.Buffer.Collection.{BuffrCollection, current}
use tofu_hex_editor.Modes.Defs.{Mode, Info}
use tofu_hex_editor.Modes.Dispatch.{has_half_cursor}
use tofu_hex_editor.Modes.Normal.{new as new_normal}
use tofu_hex_editor.Style.{
  Color, reset, black, white, green, dark_grey, ansi_value, rgb, PrioritizedStyle, StylingCommand,
  default, with_start_style, with_mid_style, with_end_style, basic, selection, cursor, Priority,
  ContentStyle,
}

-- `ContentStyle::new()` with its two colors
abbrev colored : Option Color → Color → Priority → PrioritizedStyle
colored foreground background priority = record {
  style = record {
    foreground_color = foreground;
    background_color = some background;
    attributes = 0;
  };
  priority = priority;
}

abbrev pub default_style : PrioritizedStyle
default_style = colored (some white) reset basic

abbrev pub active_selection_style : PrioritizedStyle
active_selection_style = colored (some black) (rgb 110 97 16) selection

abbrev pub inactive_selection_style : PrioritizedStyle
inactive_selection_style = colored (some black) dark_grey selection

abbrev pub active_caret_style : PrioritizedStyle
active_caret_style = colored (some (ansi_value 16)) (rgb 107 108 128) cursor

abbrev pub inactive_caret_style : PrioritizedStyle
inactive_caret_style = colored (some black) dark_grey cursor

abbrev pub empty_caret_style : PrioritizedStyle
empty_caret_style = colored none green cursor

module _ (X : Xi) where
  -- The colorizer has no state, and the time of the last drawing has no effect.
  pub record HexView : Type 0 where
    pub buffr_collection : BuffrCollection X
    pub bytes_per_line : ℕ
    pub start_offset : ℕ
    pub size : ℕ × ℕ
    pub last_visible_rows : ℕ
    pub last_visible_prompt_col : ℕ
    pub mode : Mode
    pub info : Option Info

  abbrev pub with_buffr_collection : BuffrCollection X → ℕ × ℕ → HexView
  with_buffr_collection c size = record {
    buffr_collection = c;
    bytes_per_line = 0x10;
    start_offset = 0;
    size = size;
    last_visible_rows = 0;
    last_visible_prompt_col = 0;
    mode = new_normal;
    info = none;
  }

  abbrev pub set_bytes_per_line : HexView → ℕ → HexView
  set_bytes_per_line v bpl = record v { bytes_per_line = bpl }

  abbrev pub current_of : HexView → Option (CurrentBuffer X)
  current_of v = current X v.buffr_collection

  unfoldable pub is_valid_offset : HexView → ℕ → Option Bool
  is_valid_offset v offset = do buf ← current_of v; some (ltb offset (length buf.text))

  -- The row, or none within for the error of an offset that is not on the screen.
  unfoldable pub offset_to_row : HexView → ℕ → Option (Option ℕ)
  offset_to_row v offset =
      let row = div_usize (sub_usize offset v.start_offset) v.bytes_per_line in
      if ltb offset v.start_offset
      then some none
      else (row >>= λ row. some (if leb v.size.1 row then none else some row))

  -- The start and the end of the range, for the current buffer.
  abbrev pub visible_of : HexView → CurrentBuffer X → Interval
  visible_of v buf = (
    v.start_offset,
    min (add_usize (length buf.text) 1)
        (add_usize v.start_offset (mul_usize (sub_u16 v.size.1 1) v.bytes_per_line)),
  )

  unfoldable pub visible_bytes : HexView → Option Interval
  visible_bytes v = current_of v >>= λ buf. some (visible_of v buf)

  abbrev pub overflow_style : Mode → OverflowSelectionStyle → StylingCommand
  overflow_style mode at_tail = default
  overflow_style mode _ =
      if has_half_cursor mode
      then with_mid_style default empty_caret_style
      else with_start_style default empty_caret_style

  unfoldable pub overflow_cursor_style : HexView → CurrentBuffer X → Option (Option StylingCommand)
  overflow_cursor_style v buf = overflow_sel_style X buf >>= λ o. some (elim o [
    | none ↦ none
    | some style ↦ some (with_end_style (overflow_style v.mode style) default_style)
  ])
