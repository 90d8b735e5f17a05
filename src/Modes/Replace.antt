-- ===== src/Modes/Replace.antt =====
-- src/modes/replace.rs: the mode that waits for the byte to write over the selections.
pub mod Filling
use tofu_hex_editor.Prelude.{ℕ, ◌*◌, ◌%◌, bit_or, Bool, Option, some, ◌>>=◌, [], ◌∷◌, if◌then◌else◌}
use tofu_hex_editor.Xi.{Xi}
use tofu_hex_editor.Keys.{
  KeyMap, char, KeyEvent, Event, key, not_key, event_to_action, on_ctrl, chorded,
}
use tofu_hex_editor.CmdCount.{State}
use tofu_hex_editor.Buffer.{CurrentBuffer, apply_delta}
use tofu_hex_editor.Operations as Ops
use tofu_hex_editor.Modes.Defs.{
  normal, replace, new_mode, Outcome, Reply, taken, not_taken, stay, go_dirty,
}
use tofu_hex_editor.Modes.Insert.{to_digit}

pub data Action : Type 0 where
  null : Action

abbrev pub default_maps : KeyMap Action
default_maps = (on_ctrl b'n', null) ∷ []

module _ (X : Xi) where
  -- Every selected byte becomes `byte`.
  overwritten : ℕ → CurrentBuffer X → Outcome X
  overwritten byte buf = Ops.replace X buf.text buf.selection byte >>= λ delta.
      go_dirty X (normal State.none) (apply_delta X buf delta)

  back_to_normal : CurrentBuffer X → Outcome X
  back_to_normal buf = stay X buf (new_mode (normal State.none))

  -- A character that the map does not name, with no modifier but shift.
  typed : Bool → Option ℕ → ℕ → CurrentBuffer X → Outcome X
  unfolding overwritten back_to_normal
  typed hex hex_half c buf =
      if hex
      then elim (to_digit c) [
        | Option.none ↦ back_to_normal buf
        | some digit ↦ elim hex_half [
          | Option.none ↦ stay X buf (new_mode (replace hex (some (digit * 16 % 256))))
          | some half ↦ overwritten (bit_or digit half) buf
        ]
      ]
      else overwritten (c % 256) buf

  on_char_key : Bool → Option ℕ → KeyEvent → ℕ → CurrentBuffer X → Outcome X
  unfolding typed
  on_char_key hex hex_half k c buf = elim (event_to_action default_maps (key k)) [
    | some null ↦ overwritten 0 buf
    | Option.none ↦ if chorded k.modifiers then back_to_normal buf else typed hex hex_half c buf
  ]

  unfoldable pub transition : Bool → Option ℕ → Event → CurrentBuffer X → Reply X
  unfolding on_char_key
  transition hex hex_half not_key buf = not_taken X buf
  transition hex hex_half (key k) buf =
      taken X (elim k.code [ char c ↦ on_char_key hex hex_half k c buf | _ ↦ back_to_normal buf ])
