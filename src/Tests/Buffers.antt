-- ===== src/Tests/Buffers.antt =====
-- The theorems on buffers and their history, over the reference implementation of the deltas.
use tofu_hex_editor.Prelude.{◌≡◌, ◌≢◌, refl, true, false, none, some, [], ◌∷◌, length}
use tofu_hex_editor.Xi.{Rope}
use tofu_hex_editor.Selection.Region.{new, merge}
use tofu_hex_editor.Selection.Defs.{marked, map_each, map_selections, map_from, push_all, mark_last}
use tofu_hex_editor.Selection.Delta.{apply_delta as move_along}
use tofu_hex_editor.History.{from_delta, invert, perform_final}
use tofu_hex_editor.History.Inverse.{apply-invert}
use tofu_hex_editor.Buffer.{
  CurrentBuffer, change_length, from_data_and_path, apply_delta, apply_delta_to_current_buffer,
  perform_undo, perform_redo,
}
use tofu_hex_editor.Buffer.Text.{
  Session, Session-IsConsistent, fresh, edit, back, forth, IsConsistent, undo_times,
  undo_times-Session, perform_undo-apply_delta, perform_redo-perform_undo,
}
use tofu_hex_editor.Tests.Scripts.{Script, end, step, run, script_len, new_len, moved}
use tofu_hex_editor.Tests.Reference.{reference, reference_laws}

-- Bytes 1, 2, 3, and the delta that puts 9 in the place of 2.
abbrev bytes : Rope
bytes = 1 ∷ 2 ∷ 3 ∷ []

abbrev nine : Script
nine = step [] true (step (9 ∷ []) false (step [] true (end [])))

nine_fits : reference_laws.base_len nine ≡ length bytes
unfolding reference_laws script_len
nine_fits = refl

apply-invert_example :
    (reference_laws.base_len (invert reference (from_delta reference nine) bytes).delta
      ≡ length (reference.apply nine bytes))
    × (reference.apply
          (invert reference (from_delta reference nine) bytes).delta
          (reference.apply nine bytes)
        ≡ bytes)
apply-invert_example =
    apply-invert reference reference_laws (from_delta reference nine) bytes nine_fits

abbrev buffer : CurrentBuffer reference
buffer = from_data_and_path reference bytes none

abbrev edited : CurrentBuffer reference
edited = record (apply_delta_to_current_buffer reference buffer nine true) {
  selection = record { regions = marked (new 0 0) ∷ []; main_selection = 0 };
}

edited_lem : apply_delta reference buffer nine ≡ some (edited, change_length)
unfolding apply_delta move_along map_each map_selections map_from push_all mark_last merge new_len
    moved
edited_lem = refl

perform_undo-apply_delta_example :
    ((perform_undo reference edited).0.text ≡ bytes)
    × ((perform_undo reference edited).0.selection ≡ buffer.selection)
perform_undo-apply_delta_example =
    perform_undo-apply_delta reference reference_laws buffer edited nine change_length nine_fits
      edited_lem

edited-Session : Session reference reference_laws bytes none edited
edited-Session = edit nine change_length fresh nine_fits edited_lem

redone-Session :
    Session reference reference_laws bytes none
      (perform_redo reference (perform_undo reference edited).0).0
redone-Session = forth (back edited-Session)

undo_times-Session_example :
    let buf = (perform_redo reference (perform_undo reference edited).0).0 in
    (undo_times reference reference_laws (length buf.history.undo_stack) buf).text ≡ bytes
undo_times-Session_example =
    undo_times-Session reference reference_laws bytes none
      (perform_redo reference (perform_undo reference edited).0).0 redone-Session

edited-IsConsistent : IsConsistent reference reference_laws edited
edited-IsConsistent = (Session-IsConsistent reference reference_laws edited-Session).0

edited_undo_stack : edited.history.undo_stack ≢ []
unfolding apply_delta_to_current_buffer perform_final
edited_undo_stack e = cc

perform_redo-perform_undo_example :
    let again = (perform_redo reference (perform_undo reference edited).0).0 in
    (again.text ≡ edited.text) × (again.selection ≡ edited.selection)
perform_redo-perform_undo_example =
    perform_redo-perform_undo reference reference_laws edited edited-IsConsistent edited_undo_stack

-- The edited text.
edited_text : edited.text ≡ 1 ∷ 9 ∷ 3 ∷ []
unfolding apply_delta_to_current_buffer run
edited_text = refl
