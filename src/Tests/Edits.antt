-- ===== src/Tests/Edits.antt =====
-- The theorems on what the edits do to the bytes that the regions hold, over the reference
-- implementation of the deltas.
use tofu_hex_editor.Prelude.{◌≡◌, ◌≢◌, refl, true, false, none, some, [], ◌∷◌, arith, length}
use tofu_hex_editor.Xi.{Rope}
use tofu_hex_editor.CmdCount.{State}
use tofu_hex_editor.Selection.Region.{new}
use tofu_hex_editor.Selection.Defs.{Selection, marked}
use tofu_hex_editor.Selection.Marks.{IsValid}
use tofu_hex_editor.Operations.Held.{holds, kept, filled}
use tofu_hex_editor.Operations.Carets.{has_caret, with_text}
use tofu_hex_editor.Operations.Places.{by_place}
use tofu_hex_editor.Buffer.{CurrentBuffer, change_length, from_data_and_path, perform_undo}
use tofu_hex_editor.Modes.Defs.{dirty_bytes}
use tofu_hex_editor.Modes.Normal.{act, delete}
use tofu_hex_editor.Modes.Normal.Moves.{IsEditable}
use tofu_hex_editor.Modes.Defs.{normal, mode_and_dirty_bytes}
use tofu_hex_editor.Keys.{key, typing}
use tofu_hex_editor.Modes.Replace.{transition}
use tofu_hex_editor.Modes.Replace.Filling.{transition-filled}
use tofu_hex_editor.Modes.Insert.{transition as insert_transition}
use tofu_hex_editor.Modes.Normal.Deleting.{held_bytes, act_delete-kept}
use tofu_hex_editor.Tests.Reference.{reference, reference_laws}

abbrev six : Rope
six = 1 ∷ 2 ∷ 3 ∷ 4 ∷ 5 ∷ 6 ∷ []

-- The regions of the bytes 1 and 2, and of the bytes 4 and 5.
abbrev two_regions : Selection
two_regions = record { regions = new 1 0 ∷ marked (new 3 4) ∷ []; main_selection = 1 }

two_regions-IsValid : IsValid two_regions
two_regions-IsValid = record { ordered = omega arith; one_main = (refl, (refl, tt)) }

-- What is left without these bytes, what is left with them filled, and what an insertion makes.
six-kept : kept two_regions.regions six ≡ 3 ∷ 6 ∷ []
unfolding kept by_place holds
six-kept = refl

six-filled : filled 9 two_regions.regions six ≡ 9 ∷ 9 ∷ 3 ∷ 9 ∷ 9 ∷ 6 ∷ []
unfolding filled by_place holds
six-filled = refl

six-with_text :
    with_text two_regions.regions (7 ∷ 8 ∷ []) 0 six ≡ 1 ∷ 7 ∷ 8 ∷ 2 ∷ 3 ∷ 7 ∷ 8 ∷ 4 ∷ 5 ∷ 6 ∷ []
unfolding with_text has_caret
six-with_text = refl

abbrev six_bytes : CurrentBuffer reference
six_bytes = record (from_data_and_path reference six none) { selection = two_regions }

some_bytes : length six_bytes.text ≢ 0
some_bytes e = cc

act_delete-kept_example :
    (buf' : CurrentBuffer reference) × (act reference (delete 0x22) State.none 16 six_bytes
      ≡ some (dirty_bytes change_length, buf'))
    × (buf'.text ≡ kept two_regions.regions six)
    × IsEditable reference buf'
    × (buf'.registers 0x22 ≡ some (held_bytes reference reference_laws six_bytes))
    × ((perform_undo reference buf').0.text ≡ six)
    × ((perform_undo reference buf').0.selection ≡ two_regions)
act_delete-kept_example =
    act_delete-kept reference reference_laws 0x22 16 State.none six_bytes some_bytes (omega arith)
      two_regions-IsValid (omega arith)

transition-filled_example :
    (buf' : CurrentBuffer reference) × (transition reference false none
        (key (typing true b'N'))
        six_bytes
      ≡ some (some (mode_and_dirty_bytes (normal State.none) change_length), buf'))
    × (buf'.text ≡ filled b'N' two_regions.regions six)
    × IsEditable reference buf'
    × ((perform_undo reference buf').0.text ≡ six)
    × ((perform_undo reference buf').0.selection ≡ two_regions)
transition-filled_example =
    transition-filled reference reference_laws none true b'N' six_bytes (omega arith)
      two_regions-IsValid (omega arith)
