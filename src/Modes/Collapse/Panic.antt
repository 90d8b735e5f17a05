-- ===== src/Modes/Collapse/Panic.antt =====
-- A panic of src/modes/collapse.rs where the main region has no match.
use tofu_hex_editor.Prelude.{◌≡◌, ◌≢◌, refl, some, none, List, [], ◌∷◌, arith}
use tofu_hex_editor.Xi.{Xi}
use tofu_hex_editor.Selection.Region.{SelRegion}
use tofu_hex_editor.Selection.Defs.{map_selections as map_regions, map_from, push_all, mark_last}
use tofu_hex_editor.Buffer.{CurrentBuffer, Interval, map_selections, noting}
use tofu_hex_editor.Modes.Defs.{PatternPiece}
use tofu_hex_editor.Modes.Pattern.{Pattern, Matching, map_selections_to_matches}
use tofu_hex_editor.Modes.Collapse.{apply_search, collapsing, matched_len}

module _ (X : Xi) (m : Matching) (buf : CurrentBuffer X) (r : SelRegion) (rs : List SelRegion) where
  map_selections_panics :
      (found : List (List Interval))
      → buf.selection ≡ record { regions = r ∷ rs; main_selection = 0 }
      → map_selections X collapsing buf ([] ∷ found) ≡ none
  unfolding collapsing map_selections map_regions map_from push_all mark_last noting
  map_selections_panics found s = rw s refl

  -- Where the first region is the main one and has no match, but the others have matches, collapsing
  -- to the matches panics.
  pub apply_search_panics :
      (piece : PatternPiece) (pieces : Pattern) (found : List (List Interval))
      → buf.selection ≡ record { regions = r ∷ rs; main_selection = 0 }
      → map_selections_to_matches X m (piece ∷ pieces) buf ≡ some ([] ∷ found)
      → matched_len found ≢ 0
      → apply_search X m (piece ∷ pieces) buf ≡ none
  unfolding apply_search
  apply_search_panics piece pieces found s f ne =
      rw f (rw (map_selections_panics found s) (ground (arith, ne)))
