-- ===== src/Modes/Command.antt =====
-- src/modes/command.rs: the command line that is typed. A string is the list of its characters, and
-- a position in it counts the bytes of their UTF-8 form, as in the source.
pub mod Line
pub mod Keys
use tofu_hex_editor.Prelude.{
  ℕ, zero, suc, ◌+◌, ◌-◌, Bool, true, false, Option, some, ◌>>=◌, List, [], ◌∷◌, length, ltb, leb,
  ◌==◌, if◌then◌else◌,
}
use tofu_hex_editor.Xi.{Xi}
use tofu_hex_editor.Keys.{
  KeyMap, KeyCode, Event, key, not_key, char, event_to_action, on_key, chorded,
}
use tofu_hex_editor.Buffer.Collection.{BuffrCollection}
use tofu_hex_editor.Modes.Defs.{
  command, ModeTransition, none, new_mode, mode_and_info, unknown_command,
}
use tofu_hex_editor.Modes.Insert.{encode_utf8}
use tofu_hex_editor.Modes.Normal.{new as new_normal}
use tofu_hex_editor.Modes.Commands.{FileSystem, Result, default_commands, find_command, run}

abbrev pub len_utf8 : ℕ → ℕ
len_utf8 ch = if ltb ch 0x80 then 1 else if ltb ch 0x800 then 2 else if ltb ch 0x10000 then 3 else 4

-- `String::len`, `String::insert` and `String::remove`, with their panics: a position that is not
-- between characters, or behind the end, and for `remove` the end too.
abbrev pub byte_len : List ℕ → ℕ
byte_len [] = 0
byte_len (ch ∷ s) = len_utf8 ch + byte_len s

unfoldable pub insert_char : List ℕ → ℕ → ℕ → Option (List ℕ)
insert_char s zero ch = some (ch ∷ s)
insert_char [] (suc n) ch = Option.none
insert_char (c ∷ s) (suc n) ch =
    let rest = insert_char s (suc n - len_utf8 c) ch in
    if leb (len_utf8 c) (suc n) then (rest >>= λ s'. some (c ∷ s')) else Option.none

unfoldable pub remove_char : List ℕ → ℕ → Option (List ℕ)
remove_char [] n = Option.none
remove_char (c ∷ s) zero = some s
remove_char (c ∷ s) (suc n) =
    let rest = remove_char s (suc n - len_utf8 c) in
    if leb (len_utf8 c) (suc n) then (rest >>= λ s'. some (c ∷ s')) else Option.none

pub data Action : Type 0 where
  remove_last remove_this cursor_left cursor_right finish cancel : Action

abbrev pub default_maps : KeyMap Action
default_maps =
    (on_key KeyCode.backspace, remove_last)
    ∷ (on_key KeyCode.delete, remove_this)
    ∷ (on_key KeyCode.enter, finish)
    ∷ (on_key KeyCode.esc, cancel)
    ∷ (on_key KeyCode.left, cursor_left)
    ∷ (on_key KeyCode.right, cursor_right)
    ∷ []

-- The struct `Command`.
pub record Typing : Type 0 where
  pub command : List ℕ
  pub cursor : ℕ

pub data Step : Type 0 where
  go_on : Typing → Step
  nothing cancelled finished : Step

-- The `match action` of `transition`.
unfoldable pub act : Action → Typing → Option Step
act remove_last t = if t.cursor == 0 then some nothing else do
  line ← remove_char t.command (t.cursor - 1)
  some (go_on (record { command = line; cursor = t.cursor - 1 }))
act remove_this t = do
  line ← remove_char t.command t.cursor
  some (go_on (record t { command = line }))
act cursor_left t = some (go_on (record t { cursor = t.cursor - 1 }))
act cursor_right t = some (
    go_on
      (record t { cursor = if ltb t.cursor (byte_len t.command) then t.cursor + 1 else t.cursor }))
act cancel t = some cancelled
act finish t = some finished

unfoldable pub type_char : Typing → ℕ → Option Typing
type_char t ch = do
  line ← insert_char t.command t.cursor ch
  some (record { command = line; cursor = t.cursor + 1 })

-- The name before the first space, and what follows that space.
unfoldable pub split_name : List ℕ → List ℕ × List ℕ
split_name [] = ([], [])
split_name (ch ∷ s) =
    let (name, rest) = split_name s in if ch == 32 then ([], s) else (ch ∷ name, rest)

module _ (X : Xi) (F : FileSystem) where
  unfoldable pub finish_line : List ℕ → BuffrCollection X → F.Files → Result X F
  unfolding split_name find_command
  finish_line line c files =
      let (name, rest) = split_name line in
      elim (find_command name default_commands) [
        | some handler ↦ run X F handler c rest files
        | Option.none ↦ some (mode_and_info new_normal (unknown_command name), c, files)
      ]

  -- What `transition` returns, with the buffers and the files after it; none is a panic.
  abbrev pub Reply : Type 0
  Reply = Option (Option ModeTransition × BuffrCollection X × F.Files)

  stepped : Step → Typing → BuffrCollection X → F.Files → Reply
  unfolding finish_line
  stepped (go_on t') t c files = some (some (new_mode (command t'.command t'.cursor)), c, files)
  stepped nothing t c files = some (some none, c, files)
  stepped cancelled t c files = some (some (new_mode new_normal), c, files)
  stepped finished t c files =
      finish_line t.command c files >>= λ (m, c', files'). some (some m, c', files')

  typed : Typing → Event → BuffrCollection X → F.Files → Reply
  unfolding type_char
  typed t not_key c files = some (Option.none, c, files)
  typed t (key k) c files = elim k.code [
    | char ch ↦
        if chorded k.modifiers
        then some (Option.none, c, files)
        else type_char t ch >>= λ t'.
            some (some (new_mode (command t'.command t'.cursor)), c, files)
    | _ ↦ some (Option.none, c, files)
  ]

  unfoldable pub transition : Typing → Event → BuffrCollection X → F.Files → Reply
  unfolding act stepped typed
  transition t evt c files = elim (event_to_action default_maps evt) [
    | some action ↦ act action t >>= λ step. stepped step t c files
    | Option.none ↦ typed t evt c files
  ]
