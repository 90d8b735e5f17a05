-- ===== src/View/Offsets.antt =====
-- Where src/hex_view/view.rs scrolls to. None is a panic.
use tofu_hex_editor.Prelude.{
  ℕ, ◌-◌, Bool, true, false, ◌&&◌, Option, some, ◌>>=◌, ltb, leb, if◌then◌else◌,
}
use tofu_hex_editor.Prelude.Int.{pos, ltb_ℤ}
use tofu_hex_editor.Machine.{
  add_usize, sub_usize, mul_usize, as_isize, add_isize, sub_isize, div_isize, abs_isize, as_usize,
  rem_usize,
}
use tofu_hex_editor.Xi.{Xi}
use tofu_hex_editor.Buffer.{CurrentBuffer, Interval}
use tofu_hex_editor.View.{HexView, visible_of}

-- What `maybe_update_offset` does: scroll up or down by some lines, or neither.
pub data Scrolling : Type 0 where
  stay : Scrolling
  lines_up lines_down : ℕ → Scrolling

unfoldable pub scrolling : ℕ → Interval → ℕ → Option Scrolling
scrolling main_cursor_offset (start, end) bytes_per_line =
    let cursor = as_isize main_cursor_offset in
    let bpl = as_isize bytes_per_line in
    let up = sub_isize cursor (as_isize start) in
    let down = sub_isize cursor (sub_isize (as_isize end) (pos 1)) in
    let delta = if ltb main_cursor_offset start then up else down in
    let line_delta =
      if ltb_ℤ delta (pos 0)
      then (div_isize (add_isize (sub_isize delta bpl) (pos 1)) bytes_per_line >>= λ lines.
          some (lines_up (abs_isize lines)))
      else (div_isize (sub_isize (add_isize delta bpl) (pos 1)) bytes_per_line >>= λ lines.
          some (lines_down (as_usize lines))) in
    if leb start main_cursor_offset && ltb main_cursor_offset end then some stay else line_delta

module _ (X : Xi) where
  abbrev pub next_position_of : HexView X → ℕ → ℕ
  next_position_of v line_count = add_usize v.start_offset (mul_usize line_count 16)

  abbrev pub scroll_up_to : HexView X → ℕ → HexView X × Bool
  scroll_up_to v line_count =
      if ltb v.start_offset (mul_usize 0x10 line_count)
      then (v, false)
      else (record v { start_offset = sub_usize v.start_offset (mul_usize 0x10 line_count) }, true)

  -- The start that `maybe_update_offset_and_draw` sets for a cursor.
  unfoldable pub updated_start : HexView X → CurrentBuffer X → ℕ → Option ℕ
  updated_start v buf cursor =
      let (start, end) = visible_of X v buf in
      let line_start = rem_usize cursor v.bytes_per_line >>= λ r. some (sub_usize cursor r) in
      let bytes_per_screen = mul_usize (sub_usize v.size.1 1) v.bytes_per_line in
      let last_row = line_start >>= λ l. some (add_usize l v.bytes_per_line - bytes_per_screen) in
      if ltb cursor start
      then line_start
      else if leb end cursor
      then last_row
      else some v.start_offset
