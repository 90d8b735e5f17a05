-- ===== src/Modes/JumpTo.antt =====
-- src/modes/jumpto.rs: the mode that waits for the direction of a jump or an extension.
use tofu_hex_editor.Prelude.{ℕ, Bool, Option, some, [], ◌∷◌, length, if◌then◌else◌}
use tofu_hex_editor.Xi.{Xi}
use tofu_hex_editor.Keys.{KeyMap, KeyCode, Event, key, not_key, event_to_action, on_char, on_key}
use tofu_hex_editor.CmdCount.{State}
use tofu_hex_editor.Selection.Region.{
  Direction, left, down, up, right, jump_to_boundary, extend_to_boundary,
}
use tofu_hex_editor.Buffer.{CurrentBuffer}
use tofu_hex_editor.Modes.Defs.{
  normal, new_mode, Reply, taken, not_taken, stay, go_dirty, map_each_region,
}

abbrev pub default_maps : KeyMap Direction
default_maps =
    (on_key KeyCode.left, left)
    ∷ (on_char b'h', left)
    ∷ (on_key KeyCode.down, down)
    ∷ (on_char b'j', down)
    ∷ (on_key KeyCode.up, up)
    ∷ (on_char b'k', up)
    ∷ (on_key KeyCode.right, right)
    ∷ (on_char b'l', right)
    ∷ []

module _ (X : Xi) where
  unfoldable pub transition : Bool → Event → CurrentBuffer X → ℕ → Reply X
  transition extend event buf bpl = elim (event_to_action default_maps event) [
    | some d ↦ taken X (
        go_dirty X (normal State.none) (
          if extend
          then map_each_region X (λ r. extend_to_boundary r d bpl (length buf.text)) buf
          else map_each_region X (λ r. jump_to_boundary r d bpl (length buf.text)) buf))
    | Option.none ↦ elim event [
      | key k ↦ taken X (stay X buf (new_mode (normal State.none)))
      | not_key ↦ not_taken X buf
    ]
  ]
