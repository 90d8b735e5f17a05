-- ===== src/Modes/Normal/Moves.antt =====
-- The moves and jumps of src/modes/normal.rs on a buffer.
use tofu_hex_editor.Prelude.{ℕ, ◌≤◌, ◌≡◌, refl, Bool, Option, some, length}
use tofu_hex_editor.Xi.{Xi}
use tofu_hex_editor.CmdCount.{State, to_count}
use tofu_hex_editor.Selection.Region.{Direction, SelRegion, simple_move, jump_to}
use tofu_hex_editor.Selection.Defs.{Selection, map_each}
use tofu_hex_editor.Selection.Marks.{IsValid}
use tofu_hex_editor.Selection.Bounds.{InBounds}
use tofu_hex_editor.Selection.Moves.{Room, simple_move-IsValid, jump_to-IsValid}
use tofu_hex_editor.Buffer.{CurrentBuffer, DirtyBytes}
use tofu_hex_editor.Buffer.Regions.{map_selections-each}
use tofu_hex_editor.Modes.Defs.{Mode, mode_and_dirty_bytes, go_dirty, map_each_region}
use tofu_hex_editor.Modes.Normal.{act, move, jump_to_mode, new, jump_or_wait}

module _ (X : Xi) where
  -- The selection is valid and within the text.
  pub record IsEditable (buf : CurrentBuffer X) : Type 0 where
    pub valid : IsValid buf.selection
    pub within : InBounds (length buf.text) buf.selection.regions

  go_dirty-map_each :
      (f : SelRegion → Option SelRegion) (mode : Mode) (buf : CurrentBuffer X) (sel : Selection)
      → map_each f buf.selection ≡ some sel
      → (dirty : DirtyBytes) × (go_dirty X mode (map_each_region X f buf)
          ≡ some (mode_and_dirty_bytes mode dirty, record buf { selection = sel }))
  go_dirty-map_each f mode buf sel e =
      let (dirty, k) = map_selections-each X f buf sel e in (dirty, rw k refl)

  -- A move by a count, with room for the text and the way in the machine's integers: it does not
  -- panic, returns to normal mode without a count, leaves the text, and keeps the selection valid
  -- and within it.
  pub act_move-IsEditable :
      (d : Direction) (s : State) (bytes_per_line : ℕ) (buf : CurrentBuffer X)
      → Room (length buf.text) bytes_per_line (to_count s)
      → IsEditable buf
      → (buf' : CurrentBuffer X) × (dirty : DirtyBytes) × (act X (move d) s bytes_per_line buf
          ≡ some (mode_and_dirty_bytes new dirty, buf'))
        × IsEditable buf'
        × (buf'.text ≡ buf.text)
  unfolding act
  act_move-IsEditable d s bytes_per_line buf room v =
      let (sel, e, valid, within) =
        simple_move-IsValid d bytes_per_line (length buf.text) (to_count s) room buf.selection
          v.valid v.within in
      let (dirty, k) =
        go_dirty-map_each
          (λ r. some (simple_move r d bytes_per_line (length buf.text) (to_count s))) new buf sel
          e in
      (record buf { selection = sel }, dirty, k, record { valid = valid; within = within }, refl)

  -- A jump to a typed offset in the text: it does not panic, returns to normal mode without a count,
  -- leaves the text, and keeps the selection valid and within it.
  pub act_jump-IsEditable :
      (hex : Bool) (offset bytes_per_line : ℕ) (buf : CurrentBuffer X)
      → offset ≤ length buf.text
      → IsEditable buf
      → (buf' : CurrentBuffer X) × (dirty : DirtyBytes) × (act X jump_to_mode
            (State.some hex offset)
            bytes_per_line
            buf
          ≡ some (mode_and_dirty_bytes new dirty, buf'))
        × IsEditable buf'
        × (buf'.text ≡ buf.text)
  unfolding act jump_or_wait
  act_jump-IsEditable hex offset bytes_per_line buf h v =
      let (sel, e, valid, within) =
        jump_to-IsValid offset (length buf.text) buf.selection v.valid v.within h in
      let (dirty, k) = go_dirty-map_each (λ r. some (jump_to r offset)) new buf sel e in
      (record buf { selection = sel }, dirty, k, record { valid = valid; within = within }, refl)
