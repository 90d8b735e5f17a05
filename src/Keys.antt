-- ===== src/Keys.antt =====
-- src/keymap.rs, over crossterm's key events: a key event with the codes and modifiers that the
-- program names. A character is its code point.
use tofu_hex_editor.Prelude.{
  ℕ, Bool, true, false, ◌&&◌, Option, none, some, List, [], ◌∷◌, ◌==◌, if◌then◌else◌,
}

pub data KeyCode : Type 0 where
  char : ℕ → KeyCode
  esc backspace enter delete left right up down : KeyCode
  other : ℕ → KeyCode

-- the bits `SHIFT`, `CONTROL` and `ALT`
pub record KeyModifiers : Type 0 where
  pub shift : Bool
  pub control : Bool
  pub alt : Bool

pub record KeyEvent : Type 0 where
  pub code : KeyCode
  pub modifiers : KeyModifiers

-- `Event::Key`, and the events of other kinds
pub data Event : Type 0 where
  key : KeyEvent → Event
  not_key : Event

same_code : KeyCode → KeyCode → Bool
same_code (char c) (char d) = c == d
same_code (other c) (other d) = c == d
same_code esc esc = true
same_code backspace backspace = true
same_code enter enter = true
same_code delete delete = true
same_code left left = true
same_code right right = true
same_code up up = true
same_code down down = true
same_code _ _ = false

same_bit : Bool → Bool → Bool
same_bit true b = b
same_bit false true = false
same_bit false false = true

same_key : KeyEvent → KeyEvent → Bool
same_key a b =
    same_code a.code b.code
    && same_bit a.modifiers.shift b.modifiers.shift
    && same_bit a.modifiers.control b.modifiers.control
    && same_bit a.modifiers.alt b.modifiers.alt

-- A key map lists its keys, each once.
abbrev pub KeyMap : Type 0 → Type 0
KeyMap T = List (KeyEvent × T)

find_key : {T : Type 0} → KeyEvent → KeyMap T → Option T
find_key k [] = none
find_key k ((j, t) ∷ m) = if same_key j k then some t else find_key k m

abbrev without_shift : KeyEvent → KeyEvent
without_shift k = record k { modifiers = record k.modifiers { shift = false } }

unfoldable pub event_to_action : {T : Type 0} → KeyMap T → Event → Option T
unfolding find_key same_key same_code same_bit
event_to_action m (key k) = find_key (without_shift k) m
event_to_action m not_key = none

-- The forms of an entry that the macro `k` takes.
abbrev pub plain : KeyModifiers
plain = record { shift = false; control = false; alt = false }

abbrev pub on_char : ℕ → KeyEvent
on_char c = record { code = char c; modifiers = plain }

-- The key of a character, with or without shift.
abbrev pub typing : Bool → ℕ → KeyEvent
typing shift c = record { code = char c; modifiers = record plain { shift = shift } }

abbrev pub on_alt : ℕ → KeyEvent
on_alt c = record { code = char c; modifiers = record plain { alt = true } }

abbrev pub on_ctrl : ℕ → KeyEvent
on_ctrl c = record { code = char c; modifiers = record plain { control = true } }

abbrev pub on_key : KeyCode → KeyEvent
on_key k = record { code = k; modifiers = plain }

-- `!(modifiers & !KeyModifiers::SHIFT).is_empty()`
abbrev pub chorded : KeyModifiers → Bool
chorded m = if m.control then true else m.alt
