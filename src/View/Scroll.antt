-- ===== src/View/Scroll.antt =====
-- Drawing and scrolling in src/hex_view/view.rs. A function gives the view behind it and the commands
-- that it queues; none is a panic, or an error of the file system, which ends the program too.
use tofu_hex_editor.Prelude.{
  ℕ, Bool, true, false, ◌&&◌, ◌||◌, Option, some, ◌>>=◌, List, [], ◌∷◌, ◌++◌, length, ltb, leb,
  ◌==◌, if◌then◌else◌,
}
use tofu_hex_editor.Machine.{add_usize, sub_usize, mul_usize, sub_u16, as_u16, div_usize}
use tofu_hex_editor.Xi.{Xi}
use tofu_hex_editor.Selection.Defs.{main_cursor_offset}
use tofu_hex_editor.Buffer.{CurrentBuffer}
use tofu_hex_editor.Buffer.Files.{ReadAt, load_next_chunk}
use tofu_hex_editor.Modes.Defs.{Info}
use tofu_hex_editor.Style.{Command, move_to, clear, all, current_line, scroll_up, scroll_down}
use tofu_hex_editor.ByteProperties.{height as properties_height}
use tofu_hex_editor.View.{HexView, current_of, visible_of}
use tofu_hex_editor.View.Rows.{every_row, only, draw_visible}
use tofu_hex_editor.View.Chunks.{
  chunk_size_of, with_current, should_trim_buffer, trim_buffer_top, ensure_visible_data,
}
use tofu_hex_editor.View.StatusLine.{draw_statusline}
use tofu_hex_editor.View.Offsets.{
  Scrolling, stay, lines_up, lines_down, scrolling, next_position_of, scroll_up_to, updated_start,
}

-- What the view uses of the system: the files, the height of the terminal, the texts of the
-- informations, and the debug form of a character.
pub record System : Type 0 where
  pub read_at : ReadAt
  pub terminal_height : ℕ
  pub message : Info → List ℕ
  pub debug : ℕ → List ℕ

-- The rows from `first` to `last`, both included, and those of the properties.
abbrev pub rows_between : ℕ → ℕ → ℕ → Bool
rows_between first last row = (leb first row && leb row last) || ltb row properties_height

module _ (X : Xi) (S : System) where
  abbrev pub Shown : Type 0
  Shown = Option (HexView X × List Command)

  unfoldable pub draw_rows : HexView X → (ℕ → Bool) → Shown
  unfolding ensure_visible_data draw_visible
  draw_rows v invalidated_rows = do
    v' ← ensure_visible_data X S.read_at v
    buf ← current_of X v'
    commands ← draw_visible X S.debug v' buf (only invalidated_rows)
    some (v', commands)

  -- The rows that the visible bytes take, which `draw` notes.
  abbrev full_rows : HexView X → CurrentBuffer X → Option ℕ
  full_rows v buf =
      let (start_index, end_index) = visible_of X v buf in
      div_usize (sub_usize (add_usize (sub_usize end_index start_index) v.bytes_per_line) 1)
        v.bytes_per_line

  unfoldable pub draw : HexView X → Shown
  unfolding ensure_visible_data draw_visible draw_statusline
  draw v = do
    v' ← ensure_visible_data X S.read_at v
    buf ← current_of X v'
    commands ← draw_visible X S.debug v' buf every_row
    new_full_rows ← full_rows v' buf
    (v'', status) ← draw_statusline X S.message (record v' { last_visible_rows = new_full_rows })
    some (v'', move_to 0 0 ∷ clear all ∷ commands ++ status)

  -- `if self.should_trim_buffer() { … }` behind a chunk that was loaded
  unfoldable pub trimmed : HexView X → CurrentBuffer X → HexView X
  unfolding should_trim_buffer trim_buffer_top
  trimmed v buf =
      if should_trim_buffer X S.terminal_height buf && ltb 0 (chunk_size_of S.terminal_height)
      then trim_buffer_top X v buf (chunk_size_of S.terminal_height)
      else v

  -- The loading at the start of `scroll_down`: the view behind it, and false to stop there.
  unfoldable pub load_more : HexView X → CurrentBuffer X → ℕ → Option (HexView X × Bool)
  unfolding trimmed
  load_more v buf next_position =
      let next_visible_end = add_usize next_position (mul_usize v.size.1 v.bytes_per_line) in
      let loaded = load_next_chunk X S.read_at buf 64 >>= λ (buf', more). some (
        if more
        then (trimmed (with_current X v buf') buf', true)
        else (v, ltb next_position (length buf.text))) in
      if ltb (length buf.text) next_visible_end then loaded else some (v, true)

  -- The end of `scroll_down`, with the new start.
  unfoldable pub scrolled_down : HexView X → ℕ → Shown
  unfolding draw draw_rows
  scrolled_down v line_count =
      let rows_drawn =
        draw_rows v
          (rows_between (sub_u16 (sub_u16 v.size.1 1) (as_u16 line_count)) (sub_u16 v.size.1 2))
        >>= λ (v', commands). some (
          v',
          scroll_up (as_u16 line_count)
              ∷ move_to 0 (sub_u16 v.size.1 2)
              ∷ clear current_line
              ∷ commands,
        ) in
      let all_drawn = draw v in
      if ltb (sub_u16 v.size.1 1) line_count then all_drawn else rows_drawn

  -- The view that `scroll_down` scrolls to and true, or the one that it leaves and false.
  abbrev pub end_scroll : ℕ → HexView X × Bool → Option (HexView X × Bool)
  end_scroll next_position (v, go_on) = current_of X v >>= λ buf. some (
      if go_on && ltb next_position (length buf.text)
      then (record v { start_offset = next_position }, true)
      else (v, false))

  unfoldable pub scroll_down_to : HexView X → ℕ → Option (HexView X × Bool)
  unfolding load_more
  scroll_down_to v line_count = current_of X v >>= λ buf.
      load_more v buf (next_position_of X v line_count) >>= λ r.
      end_scroll (next_position_of X v line_count) r

  unfoldable pub scroll_down_by : HexView X → ℕ → Shown
  unfolding scroll_down_to scrolled_down
  scroll_down_by v line_count = do
    (v', scrolled) ← scroll_down_to v line_count
    let shown = scrolled_down v' line_count
    if scrolled then shown else some (v', [])

  unfoldable pub scrolled_up : HexView X → ℕ → Shown
  unfolding draw draw_rows
  scrolled_up v line_count =
      let rows_drawn =
        draw_rows v (λ row. ltb row (as_u16 (add_usize line_count properties_height)))
        >>= λ (v', commands). some (
          v',
          scroll_down (as_u16 line_count)
              ∷ move_to 0 (sub_u16 v.size.1 1)
              ∷ clear current_line
              ∷ commands,
        ) in
      let all_drawn = draw v in
      if ltb (sub_u16 v.size.1 1) line_count then all_drawn else rows_drawn

  unfoldable pub scroll_up_by : HexView X → ℕ → Shown
  unfolding scrolled_up
  scroll_up_by v line_count =
      let (v', scrolled) = scroll_up_to X v line_count in
      let shown = scrolled_up v' line_count in if scrolled then shown else some (v', [])

  unfoldable scroll : HexView X → Scrolling → Shown
  unfolding scroll_up_by scroll_down_by
  scroll v stay = some (v, [])
  scroll v (lines_up n) = scroll_up_by v n
  scroll v (lines_down n) = scroll_down_by v n

  unfoldable pub maybe_update_offset : HexView X → Shown
  unfolding scrolling scroll
  maybe_update_offset v = current_of X v >>= λ buf.
      let scrolled = main_cursor_offset buf.selection >>= λ cursor.
      scrolling cursor (visible_of X v buf) v.bytes_per_line >>= λ s. scroll v s in
      if length buf.text == 0 then some (record v { start_offset = 0 }, []) else scrolled

  unfoldable pub maybe_update_offset_and_draw : HexView X → Shown
  unfolding updated_start draw
  maybe_update_offset_and_draw v = do
    buf ← current_of X v
    cursor ← main_cursor_offset buf.selection
    start ← updated_start X v buf cursor
    draw (record v { start_offset = start })
