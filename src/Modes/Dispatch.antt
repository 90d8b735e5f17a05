-- ===== src/Modes/Dispatch.antt =====
-- `Mode::transition` over all modes, on the buffers, and the mode that quits in src/modes/mod.rs.
use tofu_hex_editor.Prelude.{ℕ, Bool, true, false, Option, some, ◌>>=◌}
use tofu_hex_editor.Xi.{Xi}
use tofu_hex_editor.Keys.{Event}
use tofu_hex_editor.Buffer.{CurrentBuffer}
use tofu_hex_editor.Buffer.Collection.{BuffrCollection, current, set_current}
use tofu_hex_editor.Modes.Defs.{
  Mode, normal, insert, jump_to, replace, split, search, command, quitting, Reply as BufferReply,
}
use tofu_hex_editor.Modes.Pattern.{Matching}
use tofu_hex_editor.Modes.Commands.{FileSystem}
use tofu_hex_editor.Modes.Command.{Reply, transition as transition_command}
use tofu_hex_editor.Modes.Normal.{transition as transition_normal}
use tofu_hex_editor.Modes.Insert.{transition as transition_insert}
use tofu_hex_editor.Modes.JumpTo.{transition as transition_jump_to}
use tofu_hex_editor.Modes.Replace.{transition as transition_replace}
use tofu_hex_editor.Modes.Split.{transition as transition_split}
use tofu_hex_editor.Modes.Search.{transition as transition_search}

-- `Mode::has_half_cursor` and `Mode::takes_input`
abbrev pub has_half_cursor : Mode → Bool
has_half_cursor (insert mode hex (some half)) = true
has_half_cursor _ = false

abbrev pub takes_input : Mode → Bool
takes_input quitting = false
takes_input _ = true

module _ (X : Xi) (m : Matching) (F : FileSystem) where
  -- A mode that only works on the current buffer.
  abbrev pub on_current :
      (CurrentBuffer X → BufferReply X) → BuffrCollection X → F.Files → Reply X F
  on_current f c files =
      current X c >>= λ buf. f buf >>= λ (t, buf'). some (t, set_current X c buf', files)

  -- The event in the mode; for `quitting` it is not reachable, and a panic.
  unfoldable pub transition : Mode → Event → BuffrCollection X → F.Files → ℕ → Reply X F
  transition (normal s) evt c files bpl =
      on_current (λ buf. transition_normal X s evt buf bpl) c files
  transition (insert mode hex half) evt c files bpl =
      on_current (λ buf. transition_insert X mode hex half evt buf bpl) c files
  transition (jump_to extend) evt c files bpl =
      on_current (λ buf. transition_jump_to X extend evt buf bpl) c files
  transition (replace hex half) evt c files bpl =
      on_current (λ buf. transition_replace X hex half evt buf) c files
  transition (split s) evt c files bpl = on_current (λ buf. transition_split X m s evt buf) c files
  transition (search pieces cursor hex hex_half next) evt c files bpl =
      on_current
        (λ buf.
          transition_search X m
            (record { pieces = pieces; cursor = cursor; hex = hex; hex_half = hex_half }) next evt
            buf)
        c files
  transition (command line cursor) evt c files bpl =
      transition_command X F (record { command = line; cursor = cursor }) evt c files
  transition quitting evt c files bpl = Option.none
