-- ===== src/Modes/Normal/Deleting.antt =====
-- `d` of src/modes/normal.rs.
use tofu_hex_editor.Prelude.{
  ℕ, ◌<◌, ◌≡◌, ◌≢◌, refl, ap, ◌∙◌, true, false, Option, none, some, ◌>>=◌, List, map, length, ◌==◌,
  arith, if◌then◌else◌, ◌∷◌, [], ltb, leb,
}
use tofu_hex_editor.Machine.{half_word, add_usize}
use tofu_hex_editor.Xi.{Xi, XiLaws}
use tofu_hex_editor.CmdCount.{State}
use tofu_hex_editor.Selection.Region.{SelRegion, min_of, max_of}
use tofu_hex_editor.Selection.Defs.{Selection}
use tofu_hex_editor.Selection.Marks.{IsValid}
use tofu_hex_editor.Selection.Delta.{apply_delta as move_along}
use tofu_hex_editor.Selection.Deleted.{apply_delta-IsValid}
use tofu_hex_editor.Operations.{deletion, slice_to_cow}
use tofu_hex_editor.Operations.Held.{OnBytes, kept, nothing, deletion-kept}
use tofu_hex_editor.Buffer.{
  CurrentBuffer, change_length, apply_delta, apply_delta_to_current_buffer, perform_undo,
  yank_selections, yanked_values, set_register,
}
use tofu_hex_editor.View.Visible.{not_zero}
use tofu_hex_editor.Buffer.Text.{perform_undo-apply_delta}
use tofu_hex_editor.Modes.Defs.{dirty_bytes, none as no_transition}
use tofu_hex_editor.Modes.Normal.{act, delete, cut}
use tofu_hex_editor.Modes.Normal.Moves.{IsEditable}

in_register :
    (register : ℕ) (values : List (List ℕ)) (other : Option (List (List ℕ)))
    → (if register == register then some values else other) ≡ some values
in_register register values other = ground arith

module _ (X : Xi) (L : XiLaws X) where
  -- The bytes of each region.
  abbrev pub held_bytes : CurrentBuffer X → List (List ℕ)
  held_bytes buf =
      map (λ r. slice_to_cow buf.text (min_of r) (add_usize (max_of r) 1)) buf.selection.regions

  abbrev yanked : CurrentBuffer X → ℕ → CurrentBuffer X
  yanked buf register = set_register X buf register (held_bytes buf)

  values_lem :
      (text : List ℕ) (rs : List SelRegion)
      → length text < half_word
      → OnBytes (length text) rs
      → yanked_values X text rs
        ≡ some (map (λ r. slice_to_cow text (min_of r) (add_usize (max_of r) 1)) rs)
  values_lem text [] h b = refl
  values_lem text (r ∷ rs) h b =
      let inside : ltb (length text) (min_of r) ≡ false = ground (arith, b.0) in
      let some_byte : leb (add_usize (max_of r) 1) (min_of r) ≡ false = ground (arith, b.0, h) in
      rw some_byte (rw inside (rw (values_lem text rs h b.1) refl))

  yank_lem :
      (buf : CurrentBuffer X) (register : ℕ)
      → (length buf.text == 0) ≡ false
      → length buf.text < half_word
      → OnBytes (length buf.text) buf.selection.regions
      → yank_selections X buf register ≡ some (yanked buf register)
  unfolding yank_selections
  yank_lem buf register e h b = rw e (rw (values_lem buf.text buf.selection.regions h b) refl)

  -- The buffer without the bytes of its regions.
  abbrev deleted : CurrentBuffer X → ℕ → X.Delta → Selection → CurrentBuffer X
  deleted buf register delta sel =
      record (apply_delta_to_current_buffer X (yanked buf register) delta true) { selection = sel }

  applied_lem :
      (buf : CurrentBuffer X) (register : ℕ) (delta : X.Delta) (sel : Selection)
      → move_along X buf.selection delta (length buf.text) ≡ some sel
      → apply_delta X (yanked buf register) delta
        ≡ some (deleted buf register delta sel, change_length)
  unfolding apply_delta
  applied_lem buf register delta sel e =
      ap
        (λ o. o >>= λ sel'. some (
          record (apply_delta_to_current_buffer X (yanked buf register) delta true) {
            selection = sel';
          },
          change_length,
        ))
        e

  cut_lem :
      (buf buf' : CurrentBuffer X) (register : ℕ) (delta : X.Delta)
      → (length buf.text == 0) ≡ false
      → length buf.text < half_word
      → OnBytes (length buf.text) buf.selection.regions
      → deletion X buf.text buf.selection ≡ some delta
      → apply_delta X (yanked buf register) delta ≡ some (buf', change_length)
      → cut X register buf ≡ some (buf', some change_length)
  unfolding cut
  cut_lem buf buf' register delta n h b d e = rw (yank_lem buf register n h b) (
      rw n (
        ap
          (λ o. o >>= λ delta.
            apply_delta X (yanked buf register) delta >>= λ (b, dirty). some (b, some dirty))
          d
        ∙ ap (λ o. o >>= λ (b, dirty). some (b, some dirty)) e))

  -- In a buffer that is not empty and of less than half of what a machine word holds, whose selection is
  -- valid and ends on bytes of the text, `d` does not panic: it leaves the bytes that no region holds, with a valid selection within them, keeps those of
  -- each region in the register, and undo gives back the text and the selection.
  pub act_delete-kept :
      (register bytes_per_line : ℕ) (s : State) (buf : CurrentBuffer X)
      → length buf.text ≢ 0
      → length buf.text < half_word
      → IsValid buf.selection
      → OnBytes (length buf.text) buf.selection.regions
      → (buf' : CurrentBuffer X) × (act X (delete register) s bytes_per_line buf
          ≡ some (dirty_bytes change_length, buf'))
        × (buf'.text ≡ kept buf.selection.regions buf.text)
        × IsEditable X buf'
        × (buf'.registers register ≡ some (held_bytes buf))
        × ((perform_undo X buf').0.text ≡ buf.text)
        × ((perform_undo X buf').0.selection ≡ buf.selection)
  unfolding act apply_delta_to_current_buffer
  act_delete-kept register bpl s buf n h v b =
      let (delta, made, does, left) = deletion-kept X L buf.text buf.selection h v.ordered b in
      let (sel, moved, valid, within) =
        apply_delta-IsValid X L delta buf.text nothing buf.selection v b does in
      let applied = applied_lem buf register delta sel moved in
      let (text, selection) =
        perform_undo-apply_delta X L (yanked buf register) (deleted buf register delta sel) delta
          change_length does.fits applied in
      (
        deleted buf register delta sel,
        ap
            (λ o. o >>= λ (b, dirty). elim dirty [
              | some d ↦ some (dirty_bytes d, b)
              | none ↦ some (no_transition, b)
            ])
            (cut_lem buf (deleted buf register delta sel) register delta
              (not_zero (length buf.text) n) h b made applied),
        left,
        record { valid = valid; within = within },
        in_register register (held_bytes buf) (buf.registers register),
        text,
        selection,
      )
