-- ===== src/CmdCount.antt =====
-- src/cmd_count.rs: the count that is typed before a command.
pub mod Digits
use tofu_hex_editor.Prelude.{
  ℕ, ◌+◌, ◌*◌, ◌/◌, ◌%◌, bit_or, Bool, true, false, not, Option, List, [], ◌∷◌, ltb, leb,
  if◌then◌else◌,
}
use tofu_hex_editor.Machine.{word, add_usize, mul_usize}
use tofu_hex_editor.Keys.{KeyMap, KeyCode, Event, event_to_action, on_char, on_key}

pub data State : Type 0 where
  none : State
  some : Bool → ℕ → State

pub data Action : Type 0 where
  append_digit : ℕ → Action
  cancel_entry switch_hex_entry remove_last : Action

abbrev pub default_maps : KeyMap Action
default_maps =
    (on_key KeyCode.esc, cancel_entry)
    ∷ (on_key KeyCode.backspace, remove_last)
    ∷ (on_char b'x', switch_hex_entry)
    ∷ (on_char b'0', append_digit 0)
    ∷ (on_char b'1', append_digit 1)
    ∷ (on_char b'2', append_digit 2)
    ∷ (on_char b'3', append_digit 3)
    ∷ (on_char b'4', append_digit 4)
    ∷ (on_char b'5', append_digit 5)
    ∷ (on_char b'6', append_digit 6)
    ∷ (on_char b'7', append_digit 7)
    ∷ (on_char b'8', append_digit 8)
    ∷ (on_char b'9', append_digit 9)
    ∷ (on_char b'a', append_digit 10)
    ∷ (on_char b'b', append_digit 11)
    ∷ (on_char b'c', append_digit 12)
    ∷ (on_char b'd', append_digit 13)
    ∷ (on_char b'e', append_digit 14)
    ∷ (on_char b'f', append_digit 15)
    ∷ []

pub data Transition : Type 0 where
  not_handled : Transition
  update : State → Transition

-- The `match (self, action)` of `transition`.
unfoldable pub act : State → Action → Transition
act none (append_digit d) = if ltb 9 d then not_handled else update (some false d)
act none cancel_entry = not_handled
act none switch_hex_entry = update (some true 0)
act none remove_last = not_handled
act (some false count) (append_digit d) =
    if ltb 9 d then not_handled else update (some false (add_usize (mul_usize count 10) d))
act (some true count) (append_digit d) = update (some true (bit_or (mul_usize count 16) d))
act (some true count) remove_last =
    if leb 0x10 count then update (some true (count / 16)) else update none
act (some false count) remove_last =
    if leb 10 count then update (some false (count / 10)) else update none
act (some hex count) cancel_entry = update none
act (some hex count) switch_hex_entry = update (some (not hex) count)

unfoldable pub transition : State → Event → Transition
unfolding act
transition s evt = elim (event_to_action default_maps evt) [
  | Option.some action ↦ act s action
  | Option.none ↦ not_handled
]

abbrev pub to_count : State → ℕ
to_count (some hex count) = count
to_count none = 1
