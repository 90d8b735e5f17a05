-- ===== src/View/Whole.antt =====
-- What `draw_rows` and `draw` of src/hex_view/view.rs share, as a whole.
use native.Mathlib.Nat.{mul-le-mul_right, add-mul, div-add-mod', mul-div_cancel}
use tofu_hex_editor.Prelude.{
  ℕ, zero, suc, ◌+◌, ◌-◌, ◌*◌, ◌/◌, ◌%◌, min, ◌≤◌, ◌<◌, ◌≡◌, ◌≢◌, refl, sym, ap, ◌∙◌, true, some,
  List, [], ◌∷◌, ◌++◌, length, drop, length-take, length-drop, take_all, arith, inl, inr,
  Bool-cases, leb, leb→le,
}
use tofu_hex_editor.Machine.{word, half_word}
use tofu_hex_editor.Xi.{Xi}
use tofu_hex_editor.Selection.Region.{SelRegion}
use tofu_hex_editor.Selection.Defs.{regions_in_range}
use tofu_hex_editor.Selection.Marks.{IsValid, MarkedAt}
use tofu_hex_editor.Selection.Visible.{meeting, regions_in_range-meeting}
use tofu_hex_editor.Operations.{slice_to_cow}
use tofu_hex_editor.Buffer.{CurrentBuffer}
use tofu_hex_editor.Style.{Command, StylingCommand}
use tofu_hex_editor.ByteProperties.{Formatter, are_all_printed, new as new_formatter}
use tofu_hex_editor.View.{HexView, visible_of}
use tofu_hex_editor.View.Marks.{mark_commands}
use tofu_hex_editor.View.Rows.{
  every_row, visible_rows, rest_rows, rest_offset, current_bytes, draw_visible,
}
use tofu_hex_editor.View.Visible.{Fits, visible_end, row-le}
use tofu_hex_editor.View.Marked.{Total, mark_commands-length}
use tofu_hex_editor.View.RestRows.{IsShort, ends_within}
use tofu_hex_editor.View.Current.{MainWithin, MainWithin-meeting, current_bytes-length}
use tofu_hex_editor.View.Drawn.{rest_offset_lem}
use tofu_hex_editor.View.Loop.{visible_rows-Total}

has_region : (i : ℕ) (rs : List SelRegion) → MarkedAt i rs → rs ≢ []
has_region i [] m = absurd m
has_region i (r ∷ rs) m = λ e. cc

length-slice_to_cow :
    (text : List ℕ) (start end : ℕ)
    → length (slice_to_cow text start end) ≡ min (end - start) (length text - start)
length-slice_to_cow text start end =
    elim (Bool-cases (leb (end - start) (length (drop start text)))) [
      | inl t ↦ omega (
        arith,
        length-take (end - start) (drop start text) (ground (arith, t)),
        length-drop {A = ℕ} start text,
        leb→le (end - start) (length (drop start text)) t,
      )
      | inr f ↦
          let over : length (drop start text) ≤ end - start = ground (arith, f) in
          omega (
            arith,
            ap length (take_all (end - start) (drop start text) over),
            length-drop {A = ℕ} start text,
            over,
          )
    ]

zero_more : (n : ℕ) → 0 + n ≡ n
zero_more n = omega arith

-- The lines of the properties from the n-th one on.
abbrev before : List ℕ → ℕ → Formatter
before bytes n = record { bytes = bytes; line = n }

new_formatter_lem :
    (bytes : List ℕ) → length bytes ≤ 4 → new_formatter bytes ≡ some (before bytes 0)
new_formatter_lem bytes h = ground arith

module _ (X : Xi) (debug : ℕ → List ℕ) (v : HexView X) (buf : CurrentBuffer X) where
  rest_over :
      (fuel offset : ℕ) (props : Formatter)
      → 5 ≤ props.line
      → rest_rows X debug fuel v offset props ≡ some ([], props)
  unfolding rest_rows
  rest_over zero offset props h =
      let printed : are_all_printed props ≡ true = ground arith in rw printed refl
  rest_over (suc fuel) offset props h =
      let printed : are_all_printed props ≡ true = ground arith in rw (printed, rest_rows) refl

  whole_lem :
      (end offset : ℕ) (visible bytes : List ℕ) (marks : List StylingCommand)
      (regions : List SelRegion) (props props' props'' : Formatter) (commands later : List Command)
      → (visible_of X v buf).1 ≡ end
      → slice_to_cow buf.text v.start_offset end ≡ visible
      → mark_commands X v buf (v.start_offset, end) ≡ some marks
      → regions_in_range buf.selection v.start_offset end ≡ some regions
      → current_bytes regions v.start_offset visible ≡ some bytes
      → new_formatter bytes ≡ some props
      → visible_rows X debug v.size.1 v buf every_row v.start_offset end v.start_offset visible
          marks props
        ≡ some (commands, props')
      → rest_offset X debug end v.bytes_per_line ≡ some offset
      → rest_rows X debug (v.start_offset + 5) v offset props' ≡ some (later, props'')
      → draw_visible X debug v buf every_row ≡ some (commands ++ later)
  unfolding draw_visible
  whole_lem end offset visible bytes marks regions props props' props'' commands later a b c d e f g
        h i =
      rw a (rw b (rw c (rw d (rw e (rw f (rw g (rw h (rw i refl))))))))

  -- The rows that the properties still need, behind the n visible ones.
  rest_rows_behind :
      (n : ℕ) (props : Formatter)
      → IsShort debug
      → v.bytes_per_line ≢ 0
      → v.bytes_per_line ≤ 21
      → 5 ≤ v.size.1
      → v.start_offset + n * v.bytes_per_line + 105 < word
      → props.line ≡ n
      → (later : List Command) × (props' : Formatter) × (rest_rows X debug
            (v.start_offset + 5)
            v
            (v.start_offset + n * v.bytes_per_line)
            props
          ≡ some (later, props'))
  rest_rows_behind n props short b l rows w e = elim (Bool-cases (leb 5 n)) [
    | inl t ↦ ([], props, rest_over (v.start_offset + 5) _ props (ground (arith, t, e)))
    | inr f ↦
        let few : n < 5 = ground (arith, f) in
        let here : v.start_offset + n * v.bytes_per_line - v.start_offset ≡ n * v.bytes_per_line =
          omega arith in
        let row : (v.start_offset + n * v.bytes_per_line - v.start_offset) / v.bytes_per_line ≡ n =
          ap (λ k. k / v.bytes_per_line) here ∙ mul-div_cancel n (omega (arith, b)) in
        let (later, done) =
          ends_within X debug short v (5 - n) (v.start_offset + 5)
            (v.start_offset + n * v.bytes_per_line) props (omega arith) b l (omega arith)
            (omega (arith, few)) (omega (arith, few, e)) (omega (arith, row, few, rows)) in
        (later, _, done)
  ]

  -- The visible rows from the first one on.
  rows_from_start :
      (end : ℕ) (visible : List ℕ) (marks : List StylingCommand) (bytes : List ℕ)
      → IsShort debug
      → v.bytes_per_line ≢ 0
      → v.bytes_per_line ≤ 21
      → buf.selection.regions ≢ []
      → v.start_offset < end
      → end ≤ v.start_offset + (v.size.1 - 1) * v.bytes_per_line
      → end ≤ v.start_offset + length visible + 1
      → length visible ≤ length marks
      → v.start_offset + length visible ≤ length buf.text
      → length buf.text < half_word
      → (commands : List Command) × (n : ℕ) × (visible_rows X debug v.size.1 v buf every_row
            v.start_offset end v.start_offset visible marks
            (before bytes 0)
          ≡ some (commands, before bytes n))
        × (end ≤ v.start_offset + n * v.bytes_per_line)
        × (v.start_offset + n * v.bytes_per_line < end + v.bytes_per_line)
  rows_from_start end visible marks bytes short b l some_region ahead f r m t w =
      let bpl = v.bytes_per_line in
      let less : v.size.1 - 1 ≤ 0 + v.size.1 = omega arith in
      let start : v.start_offset + 0 * bpl ≡ v.start_offset = omega arith in
      let (commands, n, drawn, far, near) =
        visible_rows-Total X debug v buf some_region v.size.1 0 end visible marks (before bytes 0)
          short b l (omega (arith, f, mul-le-mul_right bpl less)) f r m t w in
      let same = ap (λ k. k * bpl) (zero_more n) in
      (
        commands,
        n,
        ap
              (λ i.
                visible_rows X debug v.size.1 v buf every_row i end v.start_offset visible marks
                  (before bytes 0))
              (sym start)
            ∙ drawn
            ∙ ap (λ k. some (commands, before bytes k)) (zero_more n),
        omega (arith, far, same),
        elim near [
          | inl z ↦
              let none_yet = ap (λ k. (0 + k) * bpl) z in
              absurd (omega (arith, far, none_yet, ahead))
          | inr h ↦ omega (arith, h, same)
        ],
      )

  -- From what the loop over the visible rows gives to the end of the drawing.
  drawn_behind :
      (end n : ℕ) (visible bytes : List ℕ) (marks : List StylingCommand) (regions : List SelRegion)
      (commands : List Command)
      → IsShort debug
      → v.bytes_per_line ≢ 0
      → v.bytes_per_line ≤ 21
      → 5 ≤ v.size.1
      → v.start_offset % v.bytes_per_line ≡ 0
      → end ≤ half_word
      → (visible_of X v buf).1 ≡ end
      → slice_to_cow buf.text v.start_offset end ≡ visible
      → mark_commands X v buf (v.start_offset, end) ≡ some marks
      → regions_in_range buf.selection v.start_offset end ≡ some regions
      → current_bytes regions v.start_offset visible ≡ some bytes
      → length bytes ≤ 4
      → visible_rows X debug v.size.1 v buf every_row v.start_offset end v.start_offset visible
          marks
          (before bytes 0)
        ≡ some (commands, before bytes n)
      → end ≤ v.start_offset + n * v.bytes_per_line
      → v.start_offset + n * v.bytes_per_line < end + v.bytes_per_line
      → Total (draw_visible X debug v buf every_row)
  drawn_behind end n visible bytes marks regions commands short c l rows aligned w e₀ e₁ e₂ e₃ e₄
        few drawn far near =
      let s = v.start_offset in
      let b = v.bytes_per_line in
      let behind : (s / b + n) * b ≡ s + n * b =
        omega (arith, add-mul (s / b) n b, div-add-mod' s b, aligned) in
      let offset =
        rest_offset_lem X debug end b (s / b + n) (omega (arith, c)) (omega (arith, behind, far))
          (omega (arith, behind, near)) w (omega (arith, behind, near, w, l)) in
      let (later, props, done) =
        rest_rows_behind n (before bytes n) short c l rows (omega (arith, near, w, l)) refl in
      (
        commands ++ later,
        whole_lem end (s + n * b) visible bytes marks regions (before bytes 0) (before bytes n)
            props commands later e₀ e₁ e₂ e₃ e₄ (new_formatter_lem bytes few) drawn
            (offset ∙ ap some behind) done,
      )

  -- From the styles, the regions and the bytes at the caret to the end of the drawing.
  drawn_with :
      (end : ℕ) (visible bytes : List ℕ) (marks : List StylingCommand) (regions : List SelRegion)
      → IsShort debug
      → v.bytes_per_line ≢ 0
      → v.bytes_per_line ≤ 21
      → 5 ≤ v.size.1
      → v.start_offset % v.bytes_per_line ≡ 0
      → buf.selection.regions ≢ []
      → length buf.text < half_word
      → v.start_offset < end
      → end ≡ min (length buf.text + 1) (v.start_offset + (v.size.1 - 1) * v.bytes_per_line)
      → v.start_offset + length visible
        ≡ min (length buf.text) (v.start_offset + (v.size.1 - 1) * v.bytes_per_line)
      → (visible_of X v buf).1 ≡ end
      → slice_to_cow buf.text v.start_offset end ≡ visible
      → mark_commands X v buf (v.start_offset, end) ≡ some marks
      → length marks ≡ end - v.start_offset
      → regions_in_range buf.selection v.start_offset end ≡ some regions
      → current_bytes regions v.start_offset visible ≡ some bytes
      → length bytes ≤ 4
      → Total (draw_visible X debug v buf every_row)
  drawn_with end visible bytes marks regions short c l rows aligned some_region w ahead at_end reach
        e₀ e₁ e₂ count e₃ e₄ few =
      let (commands, n, drawn, far, near) =
        rows_from_start end visible marks bytes short c l some_region ahead (omega arith)
          (omega arith) (omega arith) (omega arith) w in
      drawn_behind end n visible bytes marks regions commands short c l rows aligned (omega arith)
        e₀ e₁ e₂ e₃ e₄ few drawn far near

  -- In a view of at least five rows of at most 21 bytes that starts with a row, within the text, where
  -- the selection is valid and the main caret is within the view, the numbers stay below half of what a
  -- machine word holds and the debug form of a character has at most twelve bytes, drawing all rows does
  -- not panic, and its loops end.
  pub draw_visible-Total :
      IsShort debug
      → Fits v.start_offset v.size.1 v.bytes_per_line (length buf.text)
      → v.bytes_per_line ≤ 21
      → 5 ≤ v.size.1
      → v.start_offset % v.bytes_per_line ≡ 0
      → v.start_offset ≤ length buf.text
      → IsValid buf.selection
      → MainWithin v.start_offset
          (min (length buf.text) (v.start_offset + (v.size.1 - 1) * v.bytes_per_line))
          buf.selection.regions
      → (commands : List Command) × (draw_visible X debug v buf every_row ≡ some commands)
  draw_visible-Total short fits l rows aligned inside valid main =
      let s = v.start_offset in
      let b = v.bytes_per_line in
      let end = min (length buf.text + 1) (s + (v.size.1 - 1) * b) in
      let visible = slice_to_cow buf.text s end in
      let some_region =
        has_region buf.selection.main_selection buf.selection.regions valid.one_main in
      let ahead : s < end =
        omega (arith, row-le v.size.1 b (omega (arith, rows)), inside, fits.columns) in
      let reach : s + length visible ≡ min (length buf.text) (s + (v.size.1 - 1) * b) =
        omega (arith, length-slice_to_cow buf.text s end, ahead, inside) in
      let (marks, marked, count) =
        mark_commands-length X v buf s end valid.ordered some_region fits.columns
          (omega (arith, ahead)) in
      let within : MainWithin s (s + length visible) (meeting s end buf.selection.regions) =
        MainWithin-meeting s (s + length visible) s end buf.selection.regions (rw reach main) in
      let (bytes, current, few) =
        current_bytes-length (meeting s end buf.selection.regions) s visible within
          (omega (arith, reach, fits.len_fits)) in
      drawn_with end visible bytes marks (meeting s end buf.selection.regions) short fits.columns l
        rows aligned some_region fits.len_fits ahead refl reach
        (visible_end s v.size.1 b (length buf.text) fits) refl marked count
        (regions_in_range-meeting buf.selection s end valid.ordered some_region
          (omega (arith, ahead)))
        current few
