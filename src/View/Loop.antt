-- ===== src/View/Loop.antt =====
-- The loop over the visible rows of src/hex_view/view.rs.
use native.Mathlib.Nat.{mul-div_cancel, add-mul}
use tofu_hex_editor.Prelude.{
  ℕ, zero, suc, ◌+◌, ◌-◌, ◌*◌, ◌/◌, ◌≤◌, ◌<◌, ◌≡◌, ◌≢◌, ◌⊎◌, refl, sym, ap, ◌∙◌, true, false, some,
  ◌>>=◌, List, [], ◌++◌, length, arith, inl, inr, Bool-cases, leb,
}
use tofu_hex_editor.Machine.{half_word}
use tofu_hex_editor.Xi.{Xi}
use tofu_hex_editor.Buffer.{CurrentBuffer}
use tofu_hex_editor.Style.{Command, StylingCommand}
use tofu_hex_editor.ByteProperties.{Formatter}
use tofu_hex_editor.View.{HexView, offset_to_row}
use tofu_hex_editor.View.Rows.{every_row, one_row, visible_rows}
use tofu_hex_editor.View.RestRows.{IsShort, offset_to_row_lem}
use tofu_hex_editor.View.Drawn.{lt_of_mul, one_row-Total}

line_sum : (a n : ℕ) → a + 1 + n ≡ a + suc n
line_sum a n = omega arith

module _ (X : Xi) (debug : ℕ → List ℕ) (v : HexView X) (buf : CurrentBuffer X)
    (some_region : buf.selection.regions ≢ []) where
  rows_done :
      (fuel i end : ℕ) (visible : List ℕ) (marks : List StylingCommand) (props : Formatter)
      → leb end i ≡ true
      → visible_rows X debug fuel v buf every_row i end v.start_offset visible marks props
        ≡ some ([], props)
  unfolding visible_rows
  rows_done zero i end visible marks props t = rw t refl
  rows_done (suc fuel) i end visible marks props t = rw (t, visible_rows) refl

  rows_step :
      (fuel i end : ℕ) (visible : List ℕ) (marks : List StylingCommand) (props props' : Formatter)
      (commands : List Command)
      → leb end i ≡ false
      → one_row X debug v buf i v.start_offset visible marks props ≡ some (commands, props')
      → visible_rows X debug (suc fuel) v buf every_row i end v.start_offset visible marks props ≡ (
          visible_rows X debug fuel v buf every_row
            (i + v.bytes_per_line)
            end
            v.start_offset
            visible
            marks
            props'
          >>= λ (later, props''). some (commands ++ later, props''))
  unfolding visible_rows
  rows_step fuel i end visible marks props props' commands f e = rw (f, visible_rows) (rw e refl)

  no_rows :
      (fuel k end : ℕ) (visible : List ℕ) (marks : List StylingCommand) (props : Formatter)
      → leb end (v.start_offset + k * v.bytes_per_line) ≡ true
      → (commands : List Command) × (n : ℕ) × (visible_rows X debug fuel v buf every_row
            (v.start_offset + k * v.bytes_per_line)
            end
            v.start_offset
            visible
            marks
            props
          ≡ some (commands, record props { line = props.line + n }))
        × (end ≤ v.start_offset + (k + n) * v.bytes_per_line)
        × ((n ≡ 0) ⊎ (v.start_offset + (k + n) * v.bytes_per_line < end + v.bytes_per_line))
  no_rows fuel k end visible marks props t =
      let same : props.line ≡ props.line + 0 = omega arith in
      (
        [],
        0,
        rows_done fuel _ end visible marks props t
            ∙ ap (λ line. some ([], record props { line = line })) same,
        ground (arith, t, add-mul k 0 v.bytes_per_line),
        inl refl,
      )

  -- A row and the rows behind it.
  rows_behind :
      (fuel i next end n : ℕ) (visible : List ℕ) (marks : List StylingCommand) (props : Formatter)
      (commands later : List Command)
      → leb end i ≡ false
      → one_row X debug v buf i v.start_offset visible marks props
        ≡ some (commands, record props { line = props.line + 1 })
      → i + v.bytes_per_line ≡ next
      → visible_rows X debug fuel v buf every_row next end v.start_offset visible marks
          (record props { line = props.line + 1 })
        ≡ some (later, record props { line = props.line + 1 + n })
      → visible_rows X debug (suc fuel) v buf every_row i end v.start_offset visible marks props
        ≡ some (commands ++ later, record props { line = props.line + suc n })
  rows_behind fuel i next end n visible marks props commands later not_ended d again e =
      let one_more : Formatter = record props { line = props.line + 1 } in
      rows_step fuel i end visible marks props one_more commands not_ended d
      ∙ ap
          (λ j.
            visible_rows X debug fuel v buf every_row j end v.start_offset visible marks one_more
            >>= λ (later, props''). some (commands ++ later, props''))
          again
      ∙ ap (λ o. o >>= λ (later, props''). some (commands ++ later, props'')) e
      ∙ ap (λ line. some (commands ++ later, record props { line = line })) (line_sum props.line n)

  -- The row of the k-th row, which is on the screen.
  row_lem :
      (k end : ℕ)
      → IsShort debug
      → v.bytes_per_line ≢ 0
      → v.start_offset + k * v.bytes_per_line < end
      → end ≤ v.start_offset + (v.size.1 - 1) * v.bytes_per_line
      → end ≤ half_word
      → offset_to_row X v (v.start_offset + k * v.bytes_per_line) ≡ some (some k)
  row_lem k end short b inside r w =
      let i = v.start_offset + k * v.bytes_per_line in
      let on_screen : k < v.size.1 - 1 =
        lt_of_mul k (v.size.1 - 1) v.bytes_per_line (omega (arith, b)) (omega (arith, inside, r)) in
      let here : i - v.start_offset ≡ k * v.bytes_per_line = omega arith in
      let row : (i - v.start_offset) / v.bytes_per_line ≡ k =
        ap (λ n. n / v.bytes_per_line) here ∙ mul-div_cancel k (omega (arith, b)) in
      let in_screen : leb v.size.1 k ≡ false = ground (arith, on_screen) in
      offset_to_row_lem X debug short v i b (omega arith) (omega (arith, inside, w))
      ∙ rw row (rw in_screen refl)

  -- The rows from the k-th one on: each takes a line of the properties, and they reach to the end.
  pub visible_rows-Total :
      (fuel k end : ℕ) (visible : List ℕ) (marks : List StylingCommand) (props : Formatter)
      → IsShort debug
      → v.bytes_per_line ≢ 0
      → v.bytes_per_line ≤ 21
      → end ≤ v.start_offset + (k + fuel) * v.bytes_per_line
      → end ≤ v.start_offset + (v.size.1 - 1) * v.bytes_per_line
      → end ≤ v.start_offset + length visible + 1
      → length visible ≤ length marks
      → v.start_offset + length visible ≤ length buf.text
      → length buf.text < half_word
      → (commands : List Command) × (n : ℕ) × (visible_rows X debug fuel v buf every_row
            (v.start_offset + k * v.bytes_per_line)
            end
            v.start_offset
            visible
            marks
            props
          ≡ some (commands, record props { line = props.line + n }))
        × (end ≤ v.start_offset + (k + n) * v.bytes_per_line)
        × ((n ≡ 0) ⊎ (v.start_offset + (k + n) * v.bytes_per_line < end + v.bytes_per_line))
  visible_rows-Total zero k end visible marks props short b l f r s m t w =
      no_rows zero k end visible marks props (ground (arith, f, add-mul k 0 v.bytes_per_line))
  visible_rows-Total (suc fuel) k end visible marks props short b l f r s m t w =
      let i = v.start_offset + k * v.bytes_per_line in
      elim (Bool-cases (leb end i)) [
        | inl ended ↦ no_rows (suc fuel) k end visible marks props ended
        | inr not_ended ↦
            let inside : i < end = ground (arith, not_ended) in
            let found = row_lem k end short b inside r (omega (arith, s, t, w)) in
            let (commands, d) =
              one_row-Total X debug v buf some_region i k visible marks props short b l
                (omega arith) (omega (arith, inside, s)) m t w found in
            let more : k + 1 + fuel ≡ k + suc fuel = omega arith in
            let again : i + v.bytes_per_line ≡ v.start_offset + (k + 1) * v.bytes_per_line =
              omega (arith, add-mul k 1 v.bytes_per_line) in
            let (later, n, e, reach, near) =
              visible_rows-Total fuel (k + 1) end visible marks
                (record props { line = props.line + 1 }) short b l (rw more f) r s m t w in
            let counted : (k + 1 + n) ≡ k + suc n = omega arith in
            (
              commands ++ later,
              suc n,
              rows_behind fuel i _ end n visible marks props commands later not_ended d again e,
              rw (sym counted) reach,
              inr (elim near [
                | inl z ↦ omega (
                  arith,
                  inside,
                  z,
                  add-mul k 1 v.bytes_per_line,
                  ap (λ m. (k + suc m) * v.bytes_per_line) z,
                )
                | inr h ↦ rw (sym counted) h
              ]),
            )
      ]
