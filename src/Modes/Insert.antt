-- ===== src/Modes/Insert.antt =====
-- src/modes/insert.rs: typing into the buffer, as text or as hexadecimal digits.
pub mod Typing
use tofu_hex_editor.Prelude.{
  ℕ, ◌+◌, ◌-◌, ◌*◌, ◌/◌, ◌%◌, bit_or, Bool, true, false, not, ◌&&◌, Option, some, ◌>>=◌, List, [],
  ◌∷◌, length, ltb, leb, ◌==◌, if◌then◌else◌,
}
use tofu_hex_editor.Prelude.Int.{pos, negsuc}
use tofu_hex_editor.Xi.{Xi}
use tofu_hex_editor.Keys.{
  KeyMap, KeyCode, char, Event, key, not_key, event_to_action, on_ctrl, on_key, chorded,
}
use tofu_hex_editor.CmdCount.{State}
use tofu_hex_editor.Selection.Region.{Direction, simple_move}
use tofu_hex_editor.Buffer.{
  CurrentBuffer, apply_incomplete_delta, apply_incomplete_delta_offset_carets, commit_delta,
}
use tofu_hex_editor.Operations as Ops
use tofu_hex_editor.Modes.Defs.{
  Mode, normal, insert, InsertionMode, overwrite, none, new_mode, Outcome, Reply, taken, not_taken,
  stay, go_dirty, only_dirty, map_each_region,
}

pub data Action : Type 0 where
  insert_null switch_input_mode remove_last remove_this exit : Action
  move : Direction → Action

abbrev pub default_maps : KeyMap Action
default_maps =
    (on_ctrl b'n', insert_null)
    ∷ (on_ctrl b'o', switch_input_mode)
    ∷ (on_key KeyCode.backspace, remove_last)
    ∷ (on_key KeyCode.delete, remove_this)
    ∷ (on_key KeyCode.esc, exit)
    ∷ (on_key KeyCode.right, move Direction.right)
    ∷ (on_key KeyCode.left, move Direction.left)
    ∷ (on_key KeyCode.up, move Direction.up)
    ∷ (on_key KeyCode.down, move Direction.down)
    ∷ []

-- `char::encode_utf8`
unfoldable pub encode_utf8 : ℕ → List ℕ
encode_utf8 c =
    if ltb c 0x80
    then c ∷ []
    else if ltb c 0x800
    then (0xc0 + c / 64) ∷ (0x80 + c % 64) ∷ []
    else if ltb c 0x10000
    then (0xe0 + c / 4096) ∷ (0x80 + c / 64 % 64) ∷ (0x80 + c % 64) ∷ []
    else (0xf0 + c / 262144) ∷ (0x80 + c / 4096 % 64) ∷ (0x80 + c / 64 % 64) ∷ (0x80 + c % 64) ∷ []

-- `is_ascii_hexdigit` and `to_digit(16)` in one: none if the character is no hexadecimal digit
unfoldable pub to_digit : ℕ → Option ℕ
to_digit c =
    if leb b'0' c && leb c b'9'
    then some (c - b'0')
    else if leb b'a' c && leb c b'f'
    then some (c - b'a' + 10)
    else if leb b'A' c && leb c b'F'
    then some (c - b'A' + 10)
    else Option.none

abbrev pub is_some : Option ℕ → Bool
is_some (some n) = true
is_some Option.none = false

module _ (X : Xi) where
  -- `transition_ascii_insertion`
  unfoldable pub transition_ascii_insertion : ℕ → CurrentBuffer X → InsertionMode → Outcome X
  transition_ascii_insertion c buf overwrite =
      Ops.change X buf.text buf.selection (encode_utf8 c) >>= λ delta.
      only_dirty X (apply_incomplete_delta X buf delta)
  transition_ascii_insertion c buf _ =
      Ops.insert X buf.text buf.selection (encode_utf8 c) >>= λ delta.
      only_dirty X (apply_incomplete_delta X buf delta)

  -- The first digit of a byte, the upper half.
  first_half : ℕ → CurrentBuffer X → InsertionMode → Outcome X
  first_half to_insert buf overwrite =
      Ops.overwrite_half X buf.text buf.selection to_insert >>= λ delta.
      go_dirty X (insert overwrite true (some to_insert))
        (apply_incomplete_delta_offset_carets X buf delta (negsuc 0) (pos 0))
  first_half to_insert buf mode = Ops.insert X buf.text buf.selection (to_insert ∷ []) >>= λ delta.
      go_dirty X (insert mode true (some to_insert))
        (apply_incomplete_delta_offset_carets X buf delta (negsuc 0) (pos 0))

  second_half : ℕ → CurrentBuffer X → InsertionMode → Outcome X
  second_half to_insert buf mode = Ops.change X buf.text buf.selection (to_insert ∷ []) >>= λ delta.
      go_dirty X (insert mode true Option.none) (apply_incomplete_delta X buf delta)

  -- `transition_hex_insertion`
  unfoldable pub transition_hex_insertion : ℕ → CurrentBuffer X → InsertionMode → Option ℕ → Reply X
  unfolding first_half second_half
  transition_hex_insertion c buf mode hex_half = elim (to_digit c) [
    | Option.none ↦ not_taken X buf
    | some digit ↦ taken X (elim hex_half [
      | Option.none ↦ first_half (digit * 16 % 256) buf mode
      | some half ↦ second_half (bit_or half digit) buf mode
    ])
  ]

  -- The buffer after the byte in progress is completed with a zero, if there is one.
  completed : CurrentBuffer X → InsertionMode → Option ℕ → Option (CurrentBuffer X)
  completed buf mode Option.none = some buf
  completed buf mode (some half) =
      transition_hex_insertion b'0' buf mode (some half) >>= λ (t, buf'). some buf'

  moved : InsertionMode → Bool → Option ℕ → Direction → ℕ → CurrentBuffer X → Outcome X
  moved mode hex hex_half d bpl buf = go_dirty X (insert mode hex Option.none) (
      map_each_region X
        (λ r.
          let r' = simple_move r d bpl (length buf.text) 1 in
          some (
            if is_some hex_half then simple_move r' Direction.left bpl (length buf.text) 1 else r'))
        buf)

  deleted_cursor : Mode → CurrentBuffer X → Outcome X
  deleted_cursor mode buf = Ops.delete_cursor X buf.text buf.selection >>= λ delta.
      go_dirty X mode (apply_incomplete_delta X buf delta)

  -- `new_state`: the mode with no byte in progress
  unfoldable pub act : Action → InsertionMode → Bool → Option ℕ → ℕ → CurrentBuffer X → Outcome X
  unfolding completed moved deleted_cursor
  act exit mode hex hex_half bpl buf = stay X (commit_delta X buf) (new_mode (normal State.none))
  act insert_null mode hex hex_half bpl buf =
      Ops.insert X buf.text buf.selection (0 ∷ []) >>= λ delta.
      go_dirty X (insert mode hex Option.none) (apply_incomplete_delta X buf delta)
  act switch_input_mode mode hex hex_half bpl buf =
      stay X buf (new_mode (insert mode (not hex) Option.none))
  act remove_last mode hex (some half) bpl buf =
      if length buf.text == 0
      then stay X buf none
      else deleted_cursor (insert mode hex Option.none) buf
  act remove_this mode hex (some half) bpl buf =
      if length buf.text == 0
      then stay X buf none
      else deleted_cursor (insert mode hex Option.none) buf
  act remove_last mode hex Option.none bpl buf =
      if length buf.text == 0
      then stay X buf none
      else (Ops.backspace X buf.text buf.selection >>= λ delta.
          only_dirty X (apply_incomplete_delta X buf delta))
  act remove_this mode hex Option.none bpl buf =
      if length buf.text == 0
      then stay X buf none
      else (Ops.delete_cursor X buf.text buf.selection >>= λ delta.
          only_dirty X (apply_incomplete_delta X buf delta))
  act (move d) mode hex hex_half bpl buf =
      completed buf mode hex_half >>= λ buf'. moved mode hex hex_half d bpl buf'

  -- A key that the map does not name.
  typed : Event → InsertionMode → Bool → Option ℕ → CurrentBuffer X → Reply X
  typed not_key mode hex hex_half buf = not_taken X buf
  typed (key k) mode hex hex_half buf = elim k.code [
    | char c ↦
        if chorded k.modifiers
        then not_taken X buf
        else if hex
        then transition_hex_insertion c buf mode hex_half
        else taken X (transition_ascii_insertion c buf mode)
    | _ ↦ not_taken X buf
  ]

  unfoldable pub transition :
      InsertionMode → Bool → Option ℕ → Event → CurrentBuffer X → ℕ → Reply X
  unfolding act typed
  transition mode hex hex_half event buf bpl = elim (event_to_action default_maps event) [
    | some action ↦ taken X (act action mode hex hex_half bpl buf)
    | Option.none ↦ typed event mode hex hex_half buf
  ]
