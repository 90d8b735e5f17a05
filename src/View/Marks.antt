-- ===== src/View/Marks.antt =====
-- `mark_commands` of src/hex_view/view.rs: the style of each visible byte.
use tofu_hex_editor.Prelude.{
  ℕ, zero, suc, ◌-◌, Bool, true, false, ◌&&◌, not, Option, none, some, ◌>>=◌, List, [], ◌∷◌, ltb,
  ◌==◌, if◌then◌else◌,
}
use tofu_hex_editor.Machine.{add_usize, rem_usize}
use tofu_hex_editor.Xi.{Xi}
use tofu_hex_editor.Selection.Region.{SelRegion, max_of, min_of}
use tofu_hex_editor.Selection.Defs.{regions_in_range}
use tofu_hex_editor.Buffer.{CurrentBuffer, Interval}
use tofu_hex_editor.Modes.Dispatch.{has_half_cursor}
use tofu_hex_editor.Style.{
  PrioritizedStyle, StylingCommand, default, with_start_style, with_mid_style, with_end_style,
}
use tofu_hex_editor.View.{
  HexView, default_style, active_selection_style, inactive_selection_style, active_caret_style,
  inactive_caret_style,
}

-- The stack of styles, its top first. None is the panic of an index out of range.
abbrev pub Styles : Type 0
Styles = List PrioritizedStyle

abbrev pub top : Styles → Option PrioritizedStyle
top [] = none
top (s ∷ stack) = some s

abbrev pub below_top : Styles → Option PrioritizedStyle
below_top [] = none
below_top (s ∷ stack) = top stack

abbrev pub pop : Styles → Styles
pop [] = []
pop (s ∷ stack) = stack

abbrev pub selection_style : SelRegion → PrioritizedStyle
selection_style r = if r.main then active_selection_style else inactive_selection_style

abbrev pub caret_style : SelRegion → PrioritizedStyle
caret_style r = if r.main then active_caret_style else inactive_caret_style

abbrev pub push_start : SelRegion → ℕ → Styles → Styles
push_start r i stack = if min_of r == i then selection_style r ∷ stack else stack

-- Where a region starts.
abbrev pub mark_start : SelRegion → ℕ → StylingCommand → StylingCommand
mark_start r i cmd = if min_of r == i then with_start_style cmd (selection_style r) else cmd

-- Where its caret is; `base` is the style around it.
abbrev pub mark_caret : SelRegion → ℕ → Bool → PrioritizedStyle → StylingCommand → StylingCommand
mark_caret r i half base cmd =
    if half
    then if i == min_of r
      then with_end_style (with_mid_style cmd (caret_style r)) base
      else with_mid_style (with_start_style cmd base) (caret_style r)
    else with_end_style (with_start_style cmd (caret_style r)) base

abbrev pub mark_carets : SelRegion → ℕ → Bool → Styles → StylingCommand → Option StylingCommand
mark_carets r i half stack cmd =
    let marked = top stack >>= λ base. some (mark_caret r i half base cmd) in
    if r.caret == i then marked else some cmd

-- Where it ends.
abbrev pub mark_end : SelRegion → ℕ → Styles → StylingCommand → Option StylingCommand
mark_end r i stack cmd =
    let marked = below_top stack >>= λ outer. some (with_end_style cmd outer) in
    if max_of r == i then marked else some cmd

-- The command of a byte before its line is looked at, and the stack then.
unfoldable pub mark_region : List SelRegion → ℕ → Bool → Styles → Option (StylingCommand × Styles)
mark_region [] i half stack = some (default, stack)
mark_region (r ∷ rs) i half stack = do
  carets ← mark_carets r i half (push_start r i stack) (mark_start r i default)
  cmd ← mark_end r i (push_start r i stack) carets
  some (cmd, push_start r i stack)

abbrev pub has_start : StylingCommand → Bool
has_start cmd = elim cmd.start [ some s ↦ true | none ↦ false ]

-- Where a line starts or ends.
unfoldable pub mark_line : ℕ → ℕ → Styles → StylingCommand → Option StylingCommand
mark_line bpl i stack cmd = do
  column ← rem_usize i bpl
  next ← rem_usize (add_usize i 1) bpl
  elim (column == 0 && not (has_start cmd)) [
    | true ↦ top stack >>= λ s. some (with_start_style cmd s)
    | false ↦ some (if next == 0 then with_end_style cmd default_style else cmd)
  ]

-- The stack and the regions behind a byte.
abbrev pub leave : List SelRegion → ℕ → Styles → List SelRegion × Styles
leave [] i stack = ([], stack)
leave (r ∷ rs) i stack = if max_of r == i then (rs, pop stack) else (r ∷ rs, stack)

-- The loop over `n` bytes from `i` on.
unfoldable pub mark_from : ℕ → ℕ → ℕ → Bool → List SelRegion → Styles → Option (List StylingCommand)
unfolding mark_region mark_line
mark_from zero i bpl half regions stack = some []
mark_from (suc n) i bpl half regions stack = do
  (cmd, stack') ← mark_region regions i half stack
  cmd' ← mark_line bpl i stack' cmd
  let (regions', stack'') = leave regions i stack'
  rest ← mark_from n (suc i) bpl half regions' stack''
  some (cmd' ∷ rest)

-- The stack of a range, with the region that began before it.
abbrev pub first_styles : List SelRegion → ℕ → Styles
first_styles [] start = default_style ∷ []
first_styles (r ∷ rs) start =
    if ltb (min_of r) start then selection_style r ∷ default_style ∷ [] else default_style ∷ []

module _ (X : Xi) where
  unfoldable pub mark_commands :
      HexView X → CurrentBuffer X → Interval → Option (List StylingCommand)
  unfolding mark_from
  mark_commands v buf (start, end) = do
    regions ← regions_in_range buf.selection start end
    mark_from (end - start) start v.bytes_per_line (has_half_cursor v.mode) regions
        (first_styles regions start)
