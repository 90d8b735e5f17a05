-- ===== src/Modes/Split.antt =====
-- src/modes/split.rs: the regions split at a width or at the matches of a pattern.
pub mod Width
use tofu_hex_editor.Prelude.{
  ℕ, zero, suc, ◌+◌, ◌-◌, min, Bool, true, false, Option, some, ◌>>=◌, List, [], ◌∷◌, ◌++◌,
  replicate, ltb, ◌==◌, if◌then◌else◌,
}
use tofu_hex_editor.Machine.{add_usize, sub_usize, mul_usize}
use tofu_hex_editor.Xi.{Xi}
use tofu_hex_editor.Keys.{KeyMap, Event, key, not_key, event_to_action, on_char}
use tofu_hex_editor.CmdCount.{State, transition as count_transition, update, not_handled, to_count}
use tofu_hex_editor.Selection.Region.{
  SelRegion, new, with_direction, backward, max_of, min_of, split_at_region,
}
use tofu_hex_editor.Selection.Defs.{Mapper, len_bytes}
use tofu_hex_editor.Buffer.{CurrentBuffer, Interval, map_selections}
use tofu_hex_editor.Modes.Defs.{
  literal, split, search, split_by, new_mode, mode_and_dirty_bytes, Outcome, Reply, taken,
  not_taken, stay,
}
use tofu_hex_editor.Modes.Normal.{new as new_normal}
use tofu_hex_editor.Modes.Pattern.{Pattern, Matching, map_selections_to_matches}
use tofu_hex_editor.Modes.Collapse.{matched_len}

pub data Action : Type 0 where
  width : ℕ → Action
  null : Action
  search_for : Bool → Action

abbrev pub default_maps : KeyMap Action
default_maps =
    (on_char b'b', width 1)
    ∷ (on_char b'w', width 2)
    ∷ (on_char b'd', width 4)
    ∷ (on_char b'q', width 8)
    ∷ (on_char b'o', width 16)
    ∷ (on_char b'n', null)
    ∷ (on_char b'/', search_for false)
    ∷ (on_char b'?', search_for true)
    ∷ []

abbrev before : Option SelRegion → List SelRegion → List SelRegion
before (some left) out = left ∷ out
before Option.none out = out

-- The regions left of the matches, and what remains behind the last one, if anything does.
unfoldable pub cut_out : SelRegion → List Interval → List SelRegion
cut_out base_region [] = base_region ∷ []
cut_out base_region ((start, end) ∷ found) =
    let (left_region, right_region) = split_at_region base_region start (sub_usize end 1) in
    before left_region (elim right_region [ some right ↦ cut_out right found | Option.none ↦ [] ])

-- The closure, whose state is the matches of the regions that are left.
unfoldable pub splitting : Mapper (List (List Interval))
unfolding cut_out
splitting base_region [] = Option.none
splitting base_region (this ∷ next) = some (cut_out base_region this, next)

-- One region for each step of `step` bytes from `pos` on; as many steps as there are bytes are
-- enough.
unfoldable pub pieces_from : SelRegion → ℕ → ℕ → ℕ → List SelRegion
pieces_from r step zero pos = []
pieces_from r step (suc fuel) pos =
    let rest = pieces_from r step fuel (pos + step) in
    if ltb (max_of r) pos
    then []
    else with_direction (new pos (min (max_of r) (sub_usize (add_usize pos step) 1))) (backward r)
      ∷ rest

-- The closure of a split by width, with the panic of `step_by(0)`.
unfoldable pub by_width : ℕ → SelRegion → Unit {0} → Option (List SelRegion × Unit {0})
unfolding pieces_from
by_width step r s =
    if step == 0
    then Option.none
    else some (pieces_from r step (suc (max_of r - min_of r)) (min_of r), s)

module _ (X : Xi) (m : Matching) where
  unfoldable pub apply_search : Pattern → CurrentBuffer X → Outcome X
  unfolding splitting
  apply_search [] buf = stay X buf (new_mode new_normal)
  apply_search (piece ∷ pieces) buf =
      map_selections_to_matches X m (piece ∷ pieces) buf >>= λ found.
      if matched_len found == len_bytes buf.selection
      then stay X buf (new_mode new_normal)
      else map_selections X splitting buf found >>= λ (buf', dirty, rest).
          some (mode_and_dirty_bytes new_normal dirty, buf')

  unfoldable pub act : Action → State → CurrentBuffer X → Outcome X
  unfolding by_width apply_search
  act (width w) s buf =
      map_selections X (by_width (mul_usize w (to_count s))) buf tt >>= λ (buf', dirty, u).
      some (mode_and_dirty_bytes new_normal dirty, buf')
  act null s buf = apply_search (replicate (to_count s) (literal 0)) buf
  act (search_for hex) s buf = stay X buf (new_mode (search [] 0 hex Option.none (split_by s)))

  unfoldable pub transition : State → Event → CurrentBuffer X → Reply X
  unfolding act
  transition count_state evt buf = elim (count_transition count_state evt) [
    | update new_state ↦ some (some (new_mode (split new_state)), buf)
    | not_handled ↦ elim (event_to_action default_maps evt) [
      | some action ↦ taken X (act action count_state buf)
      | Option.none ↦ elim evt [
        | key k ↦ taken X (stay X buf (new_mode new_normal))
        | not_key ↦ not_taken X buf
      ]
    ]
  ]
