-- ===== src/Modes/Normal.antt =====
-- src/modes/normal.rs: what the keys of normal mode do to the current buffer.
pub mod Moves
pub mod Deleting
use tofu_hex_editor.Prelude.{
  ℕ, ◌-◌, Bool, true, false, Option, some, ◌>>=◌, List, [], ◌∷◌, length, ltb, ◌==◌, if◌then◌else◌,
}
use tofu_hex_editor.Xi.{Xi}
use tofu_hex_editor.Keys.{KeyMap, KeyCode, Event, event_to_action, on_char, on_alt, on_key}
use tofu_hex_editor.CmdCount.{State, transition as count_transition, update, not_handled, to_count}
use tofu_hex_editor.Selection.Region.{
  Direction, SelRegion, simple_move, simple_extend, jump_to as jump_region,
  extend_to as extend_region, swap_caret, collapse, to_backward, to_forward, len_of,
}
use tofu_hex_editor.Selection.Defs.{main_of, select_all}
use tofu_hex_editor.Buffer.{
  CurrentBuffer, DirtyBytes, change_in_place, apply_delta, perform_undo, perform_redo,
  yank_selections, remove_selection, retain_selection, select_next, select_prev,
}
use tofu_hex_editor.Operations.{deletion, paste}
use tofu_hex_editor.Modes.Defs.{
  Mode, normal, insert, jump_to, replace, split, search, command, insertion, append, overwrite,
  collapse_to, Info, measured, nothing_left_to_undo, nothing_left_to_redo, none, new_mode,
  dirty_bytes, mode_and_dirty_bytes, mode_and_info, Outcome, Reply, taken, not_taken, stay,
  go_dirty, only_dirty, map_each_region,
}

pub data Action : Type 0 where
  move extend : Direction → Action
  split_mode jump_to_mode extend_to_mode : Action
  collapse_mode : Bool → Action
  command_mode swap_carets collapse_selection : Action
  delete yank : ℕ → Action
  paste_register : Bool → ℕ → Action
  change : Bool → ℕ → Action
  insert_mode append_mode overwrite_mode : Bool → Action
  remove_main retain_main select_previous select_following select_everything : Action
  replace_mode : Bool → Action
  measure undo redo : Action

-- the register `"`
abbrev quote : ℕ
quote = 34

abbrev pub default_maps : KeyMap Action
default_maps =
    (on_char b'h', move Direction.left)
    ∷ (on_key KeyCode.left, move Direction.left)
    ∷ (on_char b'j', move Direction.down)
    ∷ (on_key KeyCode.down, move Direction.down)
    ∷ (on_char b'k', move Direction.up)
    ∷ (on_key KeyCode.up, move Direction.up)
    ∷ (on_char b'l', move Direction.right)
    ∷ (on_key KeyCode.right, move Direction.right)
    ∷ (on_char b'H', extend Direction.left)
    ∷ (on_char b'J', extend Direction.down)
    ∷ (on_char b'K', extend Direction.up)
    ∷ (on_char b'L', extend Direction.right)
    ∷ (on_char b'g', jump_to_mode)
    ∷ (on_char b'G', extend_to_mode)
    ∷ (on_alt b's', split_mode)
    ∷ (on_char 58, command_mode)
    ∷ (on_char 59, collapse_selection)
    ∷ (on_alt 59, swap_carets)
    ∷ (on_char 37, select_everything)
    ∷ (on_char 32, retain_main)
    ∷ (on_alt 32, remove_main)
    ∷ (on_char 40, select_previous)
    ∷ (on_char 41, select_following)
    ∷ (on_char b'M', measure)
    ∷ (on_char b'u', undo)
    ∷ (on_char b'U', redo)
    ∷ (on_char b'p', paste_register true quote)
    ∷ (on_char b'P', paste_register false quote)
    ∷ (on_char b'd', delete quote)
    ∷ (on_char b'y', yank quote)
    ∷ (on_char b'c', change false quote)
    ∷ (on_char b'C', change true quote)
    ∷ (on_char b'i', insert_mode false)
    ∷ (on_char b'I', insert_mode true)
    ∷ (on_char b'a', append_mode false)
    ∷ (on_char b'A', append_mode true)
    ∷ (on_char b'r', replace_mode false)
    ∷ (on_char b'R', replace_mode true)
    ∷ (on_char b'o', overwrite_mode false)
    ∷ (on_char b'O', overwrite_mode true)
    ∷ (on_char b's', collapse_mode false)
    ∷ (on_char b'S', collapse_mode true)
    ∷ []

-- `Normal::new()`
abbrev pub new : Mode
new = normal State.none

-- A count that is typed and not 0 names a selection, from 1 on.
abbrev chosen : State → Option ℕ
chosen (State.some hex count) = if ltb 0 count then some (count - 1) else Option.none
chosen State.none = Option.none

-- The contents of a register, or one empty value.
abbrev register_or_empty : Option (List (List ℕ)) → List (List ℕ)
register_or_empty (some values) = values
register_or_empty Option.none = [] ∷ []

module _ (X : Xi) where
  undone : CurrentBuffer X × Option DirtyBytes → Info → Outcome X
  undone (buf, some dirty) info = some (mode_and_dirty_bytes new dirty, buf)
  undone (buf, Option.none) info = some (mode_and_info new info, buf)

  -- Jumps and extensions to a typed offset, or the mode that waits for a direction.
  jump_or_wait : State → Bool → (SelRegion → ℕ → SelRegion) → CurrentBuffer X → Outcome X
  jump_or_wait State.none extending f buf = stay X buf (new_mode (jump_to extending))
  jump_or_wait (State.some hex offset) extending f buf =
      go_dirty X new (map_each_region X (λ r. some (f r offset)) buf)

  -- The region that a count names, or the main one, given to a method of the buffer.
  on_chosen :
      State
      → (CurrentBuffer X → ℕ → Option (CurrentBuffer X × DirtyBytes))
      → CurrentBuffer X
      → Outcome X
  on_chosen s f buf = elim (chosen s) [
    | some index ↦ go_dirty X new (f buf index)
    | Option.none ↦ only_dirty X (f buf buf.selection.main_selection)
  ]

  -- Yank, and delete unless the buffer is empty.
  unfoldable pub cut : ℕ → CurrentBuffer X → Option (CurrentBuffer X × Option DirtyBytes)
  cut register buf = yank_selections X buf register >>= λ buf'.
      if length buf'.text == 0 then some (buf', Option.none) else do
        delta ← deletion X buf'.text buf'.selection
        (buf'', dirty) ← apply_delta X buf' delta
        some (buf'', some dirty)

  unfoldable pub act : Action → State → ℕ → CurrentBuffer X → Outcome X
  unfolding undone jump_or_wait on_chosen cut
  act jump_to_mode s bpl buf = jump_or_wait s false jump_region buf
  act extend_to_mode s bpl buf = jump_or_wait s true extend_region buf
  act split_mode s bpl buf = stay X buf (new_mode (split State.none))
  act (insert_mode hex) s bpl buf =
      go_dirty X (insert insertion hex Option.none)
        (map_each_region X (λ r. some (to_backward r)) buf)
  act (append_mode hex) s bpl buf = go_dirty X (insert append hex Option.none) (
      map_each_region X
        (λ r. some (simple_extend (to_forward r) Direction.right bpl (length buf.text) 1)) buf)
  act (replace_mode hex) s bpl buf = stay X buf (new_mode (replace hex Option.none))
  act (overwrite_mode hex) s bpl buf = stay X buf (new_mode (insert overwrite hex Option.none))
  act (move d) s bpl buf =
      go_dirty X new
        (map_each_region X (λ r. some (simple_move r d bpl (length buf.text) (to_count s))) buf)
  act (extend d) s bpl buf =
      go_dirty X new
        (map_each_region X (λ r. some (simple_extend r d bpl (length buf.text) (to_count s))) buf)
  act swap_carets s bpl buf = only_dirty X (map_each_region X (λ r. some (swap_caret r)) buf)
  act collapse_selection s bpl buf = only_dirty X (map_each_region X (λ r. some (collapse r)) buf)
  act (delete register) s bpl buf = cut register buf >>= λ (buf', dirty). elim dirty [
    | some d ↦ some (dirty_bytes d, buf')
    | Option.none ↦ some (none, buf')
  ]
  act (change hex register) s bpl buf = cut register buf >>= λ (buf', dirty). elim dirty [
    | some d ↦ some (mode_and_dirty_bytes (insert insertion hex Option.none) d, buf')
    | Option.none ↦ some (new_mode (insert insertion hex Option.none), buf')
  ]
  act (yank register) s bpl buf = yank_selections X buf register >>= λ buf'. some (none, buf')
  act (paste_register after register) s bpl buf =
      paste X buf.text buf.selection (register_or_empty (buf.registers register)) after (to_count s)
      >>= λ delta. only_dirty X (apply_delta X buf delta)
  act remove_main s bpl buf = on_chosen s (remove_selection X) buf
  act retain_main s bpl buf = on_chosen s (retain_selection X) buf
  act select_following s bpl buf = go_dirty X new (select_next X buf (to_count s))
  act select_previous s bpl buf = go_dirty X new (select_prev X buf (to_count s))
  act select_everything s bpl buf = some (
    dirty_bytes (change_in_place ((0, length buf.text) ∷ [])),
    record buf { selection = select_all (length buf.text) },
  )
  act (collapse_mode hex) s bpl buf =
      stay X buf (new_mode (search [] 0 hex Option.none collapse_to))
  act measure s bpl buf =
      main_of buf.selection >>= λ m. some (mode_and_info new (measured (len_of m)), buf)
  act command_mode s bpl buf = stay X buf (new_mode (command [] 0))
  act undo s bpl buf = undone (perform_undo X buf) nothing_left_to_undo
  act redo s bpl buf = undone (perform_redo X buf) nothing_left_to_redo

  unfoldable pub transition : State → Event → CurrentBuffer X → ℕ → Reply X
  unfolding act
  transition count_state event buf bpl = elim (count_transition count_state event) [
    | update new_state ↦ some (some (new_mode (normal new_state)), buf)
    | not_handled ↦ elim (event_to_action default_maps event) [
      | some action ↦ taken X (act action count_state bpl buf)
      | Option.none ↦ not_taken X buf
    ]
  ]
