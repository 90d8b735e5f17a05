-- ===== src/Modes/Insert/Typing.antt =====
-- Typing a character in insert mode of src/modes/insert.rs.
use tofu_hex_editor.Prelude.{ℕ, false, ◌>>=◌}
use tofu_hex_editor.Xi.{Xi, XiLaws}
use tofu_hex_editor.Selection.Defs.{Selection}
use tofu_hex_editor.Selection.Delta.{apply_delta as move_along}
use tofu_hex_editor.Operations.{insert}
use tofu_hex_editor.Operations.Carets.{insertion}
use tofu_hex_editor.Buffer.{CurrentBuffer, apply_incomplete_delta, apply_delta_to_current_buffer}
use tofu_hex_editor.Modes.Defs.{insertion as inserting, only_dirty, Outcome}
use tofu_hex_editor.Modes.Insert.{encode_utf8}

module _ (X : Xi) (L : XiLaws X) where
  -- The buffer with an insertion that the action in progress goes on with.
  abbrev inserted : CurrentBuffer X → X.Delta → Selection → CurrentBuffer X
  inserted buf delta sel = record (apply_delta_to_current_buffer X buf delta false) {
    selection = sel;
  }

  -- What `transition_ascii_insertion` does in the modes that do not overwrite.
  abbrev typed_in : ℕ → CurrentBuffer X → Outcome X
  typed_in c buf = insert X buf.text buf.selection (encode_utf8 c) >>= λ delta.
      only_dirty X (apply_incomplete_delta X buf delta)
