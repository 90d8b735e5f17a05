-- ===== src/View/Events.antt =====
-- The events in src/hex_view/view.rs: what a transition of the mode does to the view, the keys that
-- the modes do not take, and the event loop.
use tofu_hex_editor.Prelude.{
  ℕ, zero, suc, ◌-◌, ◌/◌, Bool, true, false, ◌||◌, Option, none, some, ◌>>=◌, List, [], ◌∷◌, ◌++◌,
  length, ltb, ◌==◌, if◌then◌else◌,
}
use tofu_hex_editor.Machine.{sub_usize, as_u16, div_usize}
use tofu_hex_editor.Xi.{Xi}
use tofu_hex_editor.Keys.{Event, KeyEvent, char, KeyModifiers, key, not_key}
use tofu_hex_editor.Selection.Region.{Direction, simple_move}
use tofu_hex_editor.Buffer.{CurrentBuffer, Interval, DirtyBytes, change_in_place, change_length}
use tofu_hex_editor.Buffer.Files.{load_next_chunk}
use tofu_hex_editor.Modes.Defs.{
  ModeTransition, new_mode, dirty_bytes, mode_and_dirty_bytes, mode_and_info, none as no_transition,
  map_each_region,
}
use tofu_hex_editor.Modes.Pattern.{Matching}
use tofu_hex_editor.Modes.Commands.{FileSystem}
use tofu_hex_editor.Modes.Dispatch.{takes_input, transition as mode_transition}
use tofu_hex_editor.Style.{Command}
use tofu_hex_editor.ByteProperties.{height as properties_height}
use tofu_hex_editor.View.{HexView, current_of, visible_of}
use tofu_hex_editor.View.Chunks.{chunk_size_of, with_current}
use tofu_hex_editor.View.StatusLine.{draw_statusline}
use tofu_hex_editor.View.Scroll.{
  System, draw, draw_rows, scroll_down_by, scroll_up_by, maybe_update_offset,
  maybe_update_offset_and_draw, Shown,
}

-- Whether a row is that of a byte from `start` on, before `end`: `(byte - start_offset) /
-- bytes_per_line` as `u16`.
unfoldable pub has_row : ℕ → ℕ → ℕ → ℕ → ℕ → Bool
has_row zero byte start_offset bpl row = false
has_row (suc n) byte start_offset bpl row =
    as_u16 (sub_usize byte start_offset / bpl) == row || has_row n (suc byte) start_offset bpl row

-- An event of the terminal.
pub data TerminalEvent : Type 0 where
  key_event : KeyEvent → TerminalEvent
  resize : ℕ → ℕ → TerminalEvent
  other_event : TerminalEvent

abbrev pub to_event : TerminalEvent → Event
to_event (key_event k) = key k
to_event (resize x y) = not_key
to_event other_event = not_key

-- The two keys of the view; their modifiers must be these and no others.
pub data Scroll : Type 0 where
  down_key up_key other_key : Scroll

abbrev pub only_control : KeyModifiers → Bool
only_control m = elim m.shift [
  | true ↦ false
  | false ↦ elim m.alt [ true ↦ false | false ↦ m.control ]
]

abbrev pub scroll_key : KeyEvent → Scroll
scroll_key k = elim k.code [
  | char c ↦
      if only_control k.modifiers
      then (if c == b'e' then down_key else if c == b'y' then up_key else other_key)
      else other_key
  | _ ↦ other_key
]

module _ (X : Xi) where
  -- The rows of the visible bytes of the intervals, and those of the properties.
  unfoldable pub invalidated_rows : Interval → List Interval → ℕ → ℕ → ℕ → Bool
  unfolding has_row
  invalidated_rows visible [] start_offset bpl row = ltb row properties_height
  invalidated_rows visible (x ∷ intervals) start_offset bpl row =
      let (start, end) = X.interval_intersect visible x in
      has_row (end - start) start start_offset bpl row
      || invalidated_rows visible intervals start_offset bpl row

module _ (X : Xi) (S : System) where
  abbrev pub after : List Command → Shown X S → Shown X S
  after commands shown = shown >>= λ (v, later). some (v, commands ++ later)

  -- A zero number of bytes in a line panics at the first byte that is visible.
  unfoldable pub transition_dirty_bytes : HexView X → DirtyBytes → Shown X S
  unfolding invalidated_rows
  transition_dirty_bytes v (change_in_place intervals) = do
    (v', commands) ← maybe_update_offset X S v
    buf ← current_of X v'
    rows ← div_usize 0 v'.bytes_per_line
    after commands (
        draw_rows X S v'
          (invalidated_rows X (visible_of X v' buf) intervals v'.start_offset v'.bytes_per_line))
  transition_dirty_bytes v change_length = maybe_update_offset_and_draw X S v

  unfoldable pub transition : HexView X → ModeTransition → Shown X S
  unfolding transition_dirty_bytes
  transition v no_transition = some (record v { info = none }, [])
  transition v (dirty_bytes dirty) = transition_dirty_bytes (record v { info = none }) dirty
  transition v (new_mode mode) = some (record v { info = none; mode = mode }, [])
  transition v (mode_and_dirty_bytes mode dirty) =
      transition_dirty_bytes (record v { info = none; mode = mode }) dirty
  transition v (mode_and_info mode info) = some (record v { info = some info; mode = mode }, [])

  -- `map_selections` with `simple_move` by one line
  abbrev moved : HexView X → CurrentBuffer X → Direction → Option (HexView X)
  moved v buf direction =
      map_each_region X (λ r. some (simple_move r direction v.bytes_per_line (length buf.text) 1))
        buf
      >>= λ (buf', dirty). some (with_current X v buf')

  abbrev then_draw : Shown X S → Shown X S
  then_draw shown = shown >>= λ (v, commands). after commands (draw X S v)

  unfoldable pub handle_key : HexView X → Scroll → Shown X S
  handle_key v down_key = do
    buf ← current_of X v
    (buf', more) ← load_next_chunk X S.read_at buf (chunk_size_of S.terminal_height)
    v' ← moved (with_current X v buf') buf' Direction.down
    then_draw (scroll_down_by X S v' 1)
  handle_key v up_key = do
    buf ← current_of X v
    v' ← moved v buf Direction.up
    then_draw (scroll_up_by X S v' 1)
  handle_key v other_key = some (v, [])

  unfoldable pub handle_event_default : HexView X → TerminalEvent → Shown X S
  unfolding handle_key
  handle_event_default v (resize x y) = draw X S (record v { size = (x, y) })
  handle_event_default v (key_event k) = handle_key v (scroll_key k)
  handle_event_default v other_event = some (v, [])

  module _ (m : Matching) (F : FileSystem) where
    -- One turn of the loop: the mode, or else the view, takes the event, and the status line is drawn.
    unfoldable pub turn :
        HexView X → F.Files → TerminalEvent → Option (HexView X × List Command × F.Files)
    unfolding transition handle_event_default
    turn v files evt = do
      (taken, c, files') ←
          mode_transition X m F v.mode (to_event evt) v.buffr_collection files v.bytes_per_line
      (v', commands) ← answer (record v { buffr_collection = c }) taken evt
      (v'', status) ← draw_statusline X S.message v'
      some (v'', commands ++ status, files')
      where
        answer : HexView X → Option ModeTransition → TerminalEvent → Shown X S
        answer v (some t) evt = transition v t
        answer v none evt = handle_event_default v evt

    -- The loop over the events that come, which ends when the mode takes no more input.
    unfoldable pub event_loop :
        HexView X → F.Files → List TerminalEvent → Option (HexView X × List Command × F.Files)
    unfolding turn
    event_loop v files [] = some (v, [], files)
    event_loop v files (evt ∷ events) =
        let next = turn v files evt >>= λ (v', commands, files').
        event_loop v' files' events >>= λ (v'', later, files'').
        some (v'', commands ++ later, files'') in
        if takes_input v.mode then next else some (v, [], files)

    unfoldable pub run_event_loop :
        HexView X → F.Files → List TerminalEvent → Option (HexView X × List Command × F.Files)
    unfolding event_loop
    run_event_loop v files events = do
      (v', commands) ← draw X S v
      (v'', later, files') ← event_loop v' files events
      some (v'', commands ++ later, files')
