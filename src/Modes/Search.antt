-- ===== src/Modes/Search.antt =====
-- The type `Search` of src/modes/search.rs: the keys that edit the pattern, and what they lead to.
pub mod Cursor
pub mod Keys
use tofu_hex_editor.Prelude.{
  ℕ, ◌+◌, ◌-◌, ◌*◌, ◌%◌, bit_or, Bool, true, false, not, ◌||◌, Option, some, ◌>>=◌, List, [], ◌∷◌,
  length, ltb, ◌==◌, if◌then◌else◌,
}
use tofu_hex_editor.Xi.{Xi}
use tofu_hex_editor.Keys.{
  KeyMap, KeyCode, KeyModifiers, KeyEvent, Event, key, not_key, char, event_to_action, on_key,
  on_ctrl,
}
use tofu_hex_editor.Buffer.{CurrentBuffer}
use tofu_hex_editor.Modes.Defs.{
  Mode, search, Acceptor, split_by, collapse_to, ModeTransition, none, new_mode, Outcome, Reply,
  taken, not_taken,
}
use tofu_hex_editor.Modes.Insert.{to_digit}
use tofu_hex_editor.Modes.Normal.{new as new_normal}
use tofu_hex_editor.Modes.Pattern.{
  Pattern, Matching, insert_literal, insert_half_literal, insert_wildcard, insert_piece, put_piece,
  remove,
}
use tofu_hex_editor.Modes.Split.{apply_search as split_at}
use tofu_hex_editor.Modes.Collapse.{apply_search as collapse_at}

pub data Action : Type 0 where
  insert_null insert_wilcard remove_last remove_this cursor_left cursor_right : Action
  switch_input_mode finish cancel : Action

abbrev pub default_maps : KeyMap Action
default_maps =
    (on_key KeyCode.backspace, remove_last)
    ∷ (on_key KeyCode.delete, remove_this)
    ∷ (on_key KeyCode.enter, finish)
    ∷ (on_key KeyCode.esc, cancel)
    ∷ (on_key KeyCode.left, cursor_left)
    ∷ (on_key KeyCode.right, cursor_right)
    ∷ (on_ctrl b'o', switch_input_mode)
    ∷ (on_ctrl b'n', insert_null)
    ∷ (on_ctrl b'w', insert_wilcard)
    ∷ []

-- The fields of `Search` but the acceptor.
pub record Typing : Type 0 where
  pub pieces : Pattern
  pub cursor : ℕ
  pub hex : Bool
  pub hex_half : Option ℕ

-- What a key does: go on with other fields, nothing, leave the mode, or apply the search.
pub data Step : Type 0 where
  go_on : Typing → Step
  nothing cancelled : Step
  finished : Pattern → Step

-- `Search::new`
abbrev pub new : Acceptor → Bool → Mode
new next hex = search [] 0 hex Option.none next

-- After an action the half digit is reset, and the cursor is behind it.
abbrev pub cursor_of : Typing → ℕ
cursor_of t = elim t.hex_half [ some half ↦ t.cursor + 1 | Option.none ↦ t.cursor ]

abbrev pub edited : Typing → Option (Pattern × ℕ) → Option Step
edited t o = o >>= λ (pieces, cursor).
    some (go_on (record t { pieces = pieces; cursor = cursor; hex_half = Option.none }))

-- The `match action` of `transition`.
unfoldable pub act : Action → Typing → Option Step
act insert_null t = edited t (insert_literal t.pieces (cursor_of t) 0)
act insert_wilcard t = edited t (insert_wildcard t.pieces (cursor_of t))
act remove_last t =
    if cursor_of t == 0
    then some nothing
    else edited t (some (remove t.pieces (cursor_of t - 1), cursor_of t - 1))
act remove_this t = edited t (some (remove t.pieces (cursor_of t), cursor_of t))
act cursor_left t = edited t (some (t.pieces, cursor_of t - 1))
act cursor_right t =
    edited t (
      some (t.pieces, if ltb (cursor_of t) (length t.pieces) then cursor_of t + 1 else cursor_of t))
act switch_input_mode t = edited (record t { hex = not t.hex }) (some (t.pieces, cursor_of t))
act cancel t = some cancelled
act finish t = some (finished t.pieces)

-- A digit: the second half of a byte, or a new byte with its first half.
unfoldable pub type_digit : Typing → ℕ → Option Typing
type_digit t digit = elim t.hex_half [
  | some half ↦ do
    (pieces, cursor) ← insert_half_literal t.pieces t.cursor (bit_or half digit)
    some (record t { pieces = pieces; cursor = cursor; hex_half = Option.none })
  | Option.none ↦ do
    (pieces, ignored) ← insert_literal t.pieces t.cursor (digit * 16)
    some (record t { pieces = pieces; hex_half = some (digit * 16) })
]

-- A character without modifiers; nothing if the mode does not take it. `as u8` keeps the low byte.
unfoldable pub type_char : Typing → ℕ → Option (Option Typing)
unfolding type_digit
type_char t ch =
    if t.hex
    then elim (to_digit ch) [
      | Option.none ↦ some Option.none
      | some digit ↦ do t' ← type_digit t digit; some (some t')
    ]
    else do
      (pieces, cursor) ← insert_literal t.pieces t.cursor (ch % 256)
      some (some (record t { pieces = pieces; cursor = cursor }))

abbrev modified : KeyModifiers → Bool
modified m = m.shift || m.control || m.alt

module _ (X : Xi) (m : Matching) where
  abbrev to_mode : Typing → Acceptor → Mode
  to_mode t next = search t.pieces t.cursor t.hex t.hex_half next

  unfoldable pub apply_search : Acceptor → Pattern → CurrentBuffer X → Outcome X
  apply_search (split_by s) pieces buf = split_at X m pieces buf
  apply_search collapse_to pieces buf = collapse_at X m pieces buf

  stepped : Step → Acceptor → CurrentBuffer X → Outcome X
  unfolding apply_search
  stepped (go_on t) next buf = some (new_mode (to_mode t next), buf)
  stepped nothing next buf = some (none, buf)
  stepped cancelled next buf = some (new_mode new_normal, buf)
  stepped (finished pieces) next buf = apply_search next pieces buf

  typed : Typing → Acceptor → Event → CurrentBuffer X → Reply X
  unfolding type_char
  typed t next not_key buf = not_taken X buf
  typed t next (key k) buf = elim k.code [
    | char ch ↦
        if modified k.modifiers
        then not_taken X buf
        else type_char t ch >>= λ o. elim o [
          | some t' ↦ some (some (new_mode (to_mode t' next)), buf)
          | Option.none ↦ not_taken X buf
        ]
    | _ ↦ not_taken X buf
  ]

  unfoldable pub transition : Typing → Acceptor → Event → CurrentBuffer X → Reply X
  unfolding act stepped typed
  transition t next evt buf = elim (event_to_action default_maps evt) [
    | some action ↦ taken X (act action t >>= λ step. stepped step next buf)
    | Option.none ↦ typed t next evt buf
  ]
