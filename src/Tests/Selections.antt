-- ===== src/Tests/Selections.antt =====
-- The theorems on selections at concrete selections, and a few runs.
use tofu_hex_editor.Prelude.{
  ℕ, ◌+◌, ◌%◌, ◌≡◌, refl, inl, true, none, some, ◌>>=◌, [], ◌∷◌, arith, sym, some_fst, min, max,
}
use tofu_hex_editor.Prelude.Int.{◌-ℤ◌}
use tofu_hex_editor.Machine.{add_usize}
use tofu_hex_editor.Selection.Region.{
  new, left, simple_move, extend_to, jump_to_boundary, merge, caret_location,
}
use tofu_hex_editor.Selection.Defs.{
  Selection, marked, Mapper, map_each, map_selections, map_from, push_all, mark_last, remove,
  regions_in_range, select_next, select_prev,
}
use tofu_hex_editor.Selection.Order.{Rises}
use tofu_hex_editor.Selection.Marks.{IsValid, map_selections-IsValid}
use tofu_hex_editor.Selection.Bounds.{InBounds}
use tofu_hex_editor.Selection.Main.{with_main, select_next_lem, select_prev-select_next}
use tofu_hex_editor.Selection.Removal.{remaining, remove-IsValid, remove_marks_two}
use tofu_hex_editor.Selection.Moves.{jump_to_boundary-IsValid, extend_to_panics}
use tofu_hex_editor.Selection.Visible.{regions_in_range-meeting}

abbrev three : Selection
three = record {
  regions = new 3 1 ∷ record { caret = 5; tail = 9; main = true } ∷ new 20 20 ∷ [];
  main_selection = 1;
}

three-IsValid : IsValid three
three-IsValid = record { ordered = omega arith; one_main = (refl, (refl, (refl, tt))) }

jump_to_boundary-IsValid_example :
    (sel' : Selection) × (map_each (λ r. jump_to_boundary r left 16 30) three ≡ some sel')
    × IsValid sel'
    × InBounds 30 sel'.regions
jump_to_boundary-IsValid_example =
    jump_to_boundary-IsValid left 16 30 (omega arith) (omega arith) (omega arith) three
      three-IsValid (omega arith)

extend_to_panics_example :
    map_each
      (λ r. some (extend_to r 4))
      (record { regions = marked (new 2 2) ∷ new 6 6 ∷ []; main_selection = 0 })
    ≡ none
extend_to_panics_example = extend_to_panics 2 6 4 (omega arith) (omega arith)

-- Both arrows of the hjkl keys: the first two carets end on the first line.
moved_left :
    map_each (λ r. some (simple_move r left 16 30 4)) three
    ≡ some (record { regions = new 0 0 ∷ marked (new 1 1) ∷ new 16 16 ∷ []; main_selection = 1 })
unfolding map_each map_selections map_from push_all mark_last merge simple_move caret_location ◌-ℤ◌
moved_left = refl

select_next_lem_example :
    (select_next three 5 ≡ some (with_main three (add_usize 1 5 % 3)))
    × IsValid (with_main three (add_usize 1 5 % 3))
select_next_lem_example = select_next_lem three 5 three-IsValid

select_prev-select_next_example : (select_next three 5 >>= λ t. select_prev t 5) ≡ some three
select_prev-select_next_example =
    select_prev-select_next three 5 three-IsValid (omega arith) (omega arith)

remove-IsValid_example : (remove three 2 ≡ some (remaining three 2)) × IsValid (remaining three 2)
remove-IsValid_example =
    remove-IsValid three 2 three-IsValid (omega arith) (omega arith) (inl (omega arith))

remove_marks_two_example : (s' : Selection) × (remove three 0 ≡ some s') × (¬ IsValid s')
remove_marks_two_example = remove_marks_two three 0 three-IsValid (omega arith) (omega arith)

regions_in_range-meeting_example :
    regions_in_range three 8 19 ≡ some (record { caret = 5; tail = 9; main = true } ∷ [])
regions_in_range-meeting_example =
    regions_in_range-meeting three 8 19 three-IsValid.ordered (λ e. cc) (omega arith)

-- Every region is cut into its first and its last byte, and the closure counts the regions.
abbrev ends : Mapper ℕ
ends r n = some (
  new (min r.caret r.tail) (min r.caret r.tail)
      ∷ new (max r.caret r.tail) (max r.caret r.tail)
      ∷ [],
  n + 1,
)

ends-Rises : Rises ends (λ r. min r.caret r.tail) (λ r. max r.caret r.tail)
ends-Rises = record {
  rising = λ r s s' rs e. rw (sym (some_fst e)) (omega arith);
  apart = λ r q h. omega arith;
}

abbrev ended : Selection
ended = record {
  regions = new 1 1 ∷ new 3 3 ∷ new 5 5 ∷ marked (new 9 9) ∷ new 20 20 ∷ [];
  main_selection = 3;
}

ends_of_three : map_selections ends three 0 ≡ some (ended, 3)
unfolding map_selections map_from push_all mark_last merge
ends_of_three = refl

map_selections-IsValid_example : IsValid ended
map_selections-IsValid_example =
    map_selections-IsValid ends (λ r. min r.caret r.tail) (λ r. max r.caret r.tail) ends-Rises
      (λ r s s' rs e. rw (sym (some_fst e)) (refl, (refl, tt))) three ended 0 3 three-IsValid
      ends_of_three
