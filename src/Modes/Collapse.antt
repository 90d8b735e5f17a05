-- ===== src/Modes/Collapse.antt =====
-- src/modes/collapse.rs: the regions collapsed to the matches of a pattern.
pub mod Panic
use tofu_hex_editor.Prelude.{
  ℕ, ◌+◌, ◌-◌, Bool, Option, some, ◌>>=◌, List, [], ◌∷◌, ◌++◌, ◌==◌, if◌then◌else◌,
}
use tofu_hex_editor.Machine.{sub_usize}
use tofu_hex_editor.Xi.{Xi}
use tofu_hex_editor.Selection.Region.{SelRegion, new, inherit_direction}
use tofu_hex_editor.Selection.Defs.{Mapper}
use tofu_hex_editor.Buffer.{CurrentBuffer, Interval, map_selections}
use tofu_hex_editor.Modes.Defs.{new_mode, mode_and_dirty_bytes, Outcome, stay}
use tofu_hex_editor.Modes.Normal.{new as new_normal}
use tofu_hex_editor.Modes.Pattern.{Pattern, Matching, map_selections_to_matches}

-- The sum of the lengths of the matches.
abbrev pub interval_lens : List Interval → ℕ
interval_lens [] = 0
interval_lens ((start, end) ∷ rest) = (end - start) + interval_lens rest

abbrev pub matched_len : List (List Interval) → ℕ
matched_len [] = 0
matched_len (found ∷ rest) = interval_lens found + matched_len rest

abbrev to_regions : SelRegion → List Interval → List SelRegion
to_regions base_region [] = []
to_regions base_region ((start, end) ∷ rest) =
    inherit_direction (new start (sub_usize end 1)) base_region ∷ to_regions base_region rest

-- The closure, whose state is the matches of the regions that are left.
unfoldable pub collapsing : Mapper (List (List Interval))
collapsing base_region [] = Option.none
collapsing base_region (this ∷ next) = some (to_regions base_region this, next)

module _ (X : Xi) (m : Matching) where
  unfoldable pub apply_search : Pattern → CurrentBuffer X → Outcome X
  unfolding collapsing
  apply_search [] buf = stay X buf (new_mode new_normal)
  apply_search (piece ∷ pieces) buf =
      map_selections_to_matches X m (piece ∷ pieces) buf >>= λ found.
      if matched_len found == 0
      then stay X buf (new_mode new_normal)
      else map_selections X collapsing buf found >>= λ (buf', dirty, rest).
          some (mode_and_dirty_bytes new_normal dirty, buf')
