-- ===== src/Modes/Replace/Filling.antt =====
-- A character typed in replace mode of src/modes/replace.rs.
use tofu_hex_editor.Prelude.{
  ℕ, ◌%◌, ◌<◌, ◌≡◌, refl, ap, ◌∙◌, Bool, true, false, Option, some, ◌>>=◌, length, replicate, ◌==◌,
  Bool-cases, inl, inr,
}
use tofu_hex_editor.Machine.{half_word}
use tofu_hex_editor.Xi.{Xi, XiLaws}
use tofu_hex_editor.Keys.{key, typing, event_to_action}
use tofu_hex_editor.CmdCount.{State}
use tofu_hex_editor.Selection.Defs.{Selection}
use tofu_hex_editor.Selection.Marks.{IsValid}
use tofu_hex_editor.Selection.Delta.{apply_delta as move_along}
use tofu_hex_editor.Selection.Deleted.{apply_delta-IsValid}
use tofu_hex_editor.Operations.{replace}
use tofu_hex_editor.Operations.Held.{OnBytes, filled, replace-filled}
use tofu_hex_editor.Buffer.{
  CurrentBuffer, change_length, apply_delta, apply_delta_to_current_buffer, perform_undo,
}
use tofu_hex_editor.Buffer.Text.{perform_undo-apply_delta}
use tofu_hex_editor.Modes.Defs.{normal, mode_and_dirty_bytes, go_dirty, taken, Reply}
use tofu_hex_editor.Modes.Replace.{transition, on_char_key, default_maps}
use tofu_hex_editor.Modes.Normal.Moves.{IsEditable}

not_mapped :
    (shift : Bool) (c : ℕ) → event_to_action default_maps (key (typing shift c)) ≡ Option.none
unfolding event_to_action
not_mapped shift c = elim (Bool-cases (b'n' == c)) [ inl t ↦ rw t refl | inr f ↦ rw f refl ]

module _ (X : Xi) (L : XiLaws X) where
  abbrev replaced : CurrentBuffer X → X.Delta → Selection → CurrentBuffer X
  replaced buf delta sel = record (apply_delta_to_current_buffer X buf delta true) {
    selection = sel;
  }

  abbrev replaced_by : ℕ → CurrentBuffer X → Reply X
  replaced_by byte buf = taken X (
      replace X buf.text buf.selection byte >>= λ delta.
      go_dirty X (normal State.none) (apply_delta X buf delta))

  transition_lem :
      (half : Option ℕ) (shift : Bool) (c : ℕ) (buf : CurrentBuffer X)
      → transition X false half (key (typing shift c)) buf ≡ replaced_by (c % 256) buf
  unfolding transition
  transition_lem half shift c buf = rw (not_mapped shift c, on_char_key) refl

  applied_lem :
      (buf : CurrentBuffer X) (delta : X.Delta) (sel : Selection)
      → move_along X buf.selection delta (length buf.text) ≡ some sel
      → apply_delta X buf delta ≡ some (replaced buf delta sel, change_length)
  unfolding apply_delta
  applied_lem buf delta sel e =
      ap (λ o. o >>= λ sel'. some (replaced buf delta sel', change_length)) e

  -- In a buffer of less than half of what a machine word holds, whose selection is valid and ends on
  -- bytes of the text, a character typed in replace mode, not in hexadecimal and with no key held but
  -- shift, does not panic and leads to normal mode: its lowest byte stands for every byte that a region
  -- holds, the selection is again valid and within the text, and undo gives back the text and the
  -- selection.
  pub transition-filled :
      (half : Option ℕ) (shift : Bool) (c : ℕ) (buf : CurrentBuffer X)
      → length buf.text < half_word
      → IsValid buf.selection
      → OnBytes (length buf.text) buf.selection.regions
      → (buf' : CurrentBuffer X) × (transition X false half (key (typing shift c)) buf
          ≡ some (some (mode_and_dirty_bytes (normal State.none) change_length), buf'))
        × (buf'.text ≡ filled (c % 256) buf.selection.regions buf.text)
        × IsEditable X buf'
        × ((perform_undo X buf').0.text ≡ buf.text)
        × ((perform_undo X buf').0.selection ≡ buf.selection)
  unfolding apply_delta_to_current_buffer
  transition-filled half shift c buf h v b =
      let (delta, made, does, put) =
        replace-filled X L buf.text buf.selection (c % 256) h v.ordered b in
      let (sel, moved, valid, within) =
        apply_delta-IsValid X L delta buf.text (λ n. replicate n (c % 256)) buf.selection v b
          does in
      let applied = applied_lem buf delta sel moved in
      let (text, selection) =
        perform_undo-apply_delta X L buf (replaced buf delta sel) delta change_length does.fits
          applied in
      (
        replaced buf delta sel,
        transition_lem half shift c buf
            ∙ ap
                (λ o.
                  taken X (o >>= λ delta. go_dirty X (normal State.none) (apply_delta X buf delta)))
                made
            ∙ ap (λ o. taken X (go_dirty X (normal State.none) o)) applied,
        put,
        record { valid = valid; within = within },
        text,
        selection,
      )
