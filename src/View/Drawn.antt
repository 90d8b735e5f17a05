-- ===== src/View/Drawn.antt =====
-- A row of src/hex_view/view.rs, with the slices that it takes.
use native.Mathlib.Nat.{
  mul-div_cancel, div-lt_iff_lt-mul, add-mul, div-add-mod', div-le_self, mod-lt,
}
use tofu_hex_editor.Prelude.{
  ℕ, ◌+◌, ◌-◌, ◌*◌, ◌/◌, ◌%◌, min, ◌&&◌, ◌≤◌, ◌<◌, ◌≡◌, ◌≢◌, ◌⊎◌, refl, ap, ◌∙◌, true, Option, none,
  some, List, [], ◌∷◌, length, take, drop, length-take, length-drop, arith, inl, inr, Bool-cases,
  ltb, leb, ◌==◌,
}
use tofu_hex_editor.Machine.{add_usize, sub_usize, mul_usize, word, half_word}
use tofu_hex_editor.Xi.{Xi}
use tofu_hex_editor.Operations.{last}
use tofu_hex_editor.Buffer.{CurrentBuffer, overflow_sel_style}
use tofu_hex_editor.Style.{Command, StylingCommand}
use tofu_hex_editor.ByteProperties.{Formatter}
use tofu_hex_editor.View.{HexView, offset_to_row, overflow_cursor_style}
use tofu_hex_editor.View.Rows.{slice, one_row, end_style_at, draw_row, rest_offset}
use tofu_hex_editor.View.Visible.{not_zero}
use tofu_hex_editor.View.Marked.{Total}
use tofu_hex_editor.View.RestRows.{IsShort, draw_row_at-Total}

-- Multiples of a number that is not 0.
pub lt_of_mul : (x y b : ℕ) → 0 < b → x * b < y * b → x < y
lt_of_mul x y b p h =
    let q : x * b / b < y = (div-lt_iff_lt-mul p).1 h in omega (arith, q, mul-div_cancel x p)

module _ (X : Xi) (debug : ℕ → List ℕ) where
  -- The first multiple that is not before an offset.
  pub rest_offset_lem :
      (end b q : ℕ)
      → 0 < b
      → end ≤ q * b
      → q * b < end + b
      → end ≤ half_word
      → q * b < word
      → rest_offset X debug end b ≡ some (q * b)
  rest_offset_lem end b q p h k l w =
      let whole = div-add-mod' end b in
      let column = mod-lt end p in
      let small = div-le_self end b in
      elim (Bool-cases (end % b == 0)) [
        | inl t ↦
            let below : end / b < q + 1 =
              lt_of_mul (end / b) (q + 1) b p (ground (arith, whole, t, add-mul q 1 b)) in
            let above : q < end / b + 1 =
              lt_of_mul q (end / b + 1) b p (ground (arith, whole, t, add-mul (end / b) 1 b)) in
            let same : end / b ≡ q = omega (arith, below, above) in
            rw (not_zero b (omega (arith, p)))
              (rw t (ap (λ k. some (mul_usize k b)) same ∙ ap some (omega (arith, w))))
        | inr f ↦
            let below : end / b < q = lt_of_mul (end / b) q b p (ground (arith, whole, f)) in
            let above : q < end / b + 2 =
              lt_of_mul q (end / b + 2) b p
                (ground (arith, whole, column, add-mul (end / b) 2 b)) in
            let same : add_usize (end / b) 1 ≡ q = omega (arith, below, above, small, l) in
            rw (not_zero b (omega (arith, p)))
              (rw f (ap (λ k. some (mul_usize k b)) same ∙ ap some (omega (arith, w))))
      ]

  slice-length :
      {A : Type 0} (start end : ℕ) (list : List A)
      → start ≤ end
      → end ≤ length list
      → (part : List A) × (slice X debug start end list ≡ some part) × (length part ≡ end - start)
  slice-length {A} start end list h k =
      let in_range : (leb start end && leb end (length list)) ≡ true = ground arith in
      (
        take (end - start) (drop start list),
        rw in_range refl,
        length-take (end - start) (drop start list) (omega (arith, length-drop {A = A} start list)),
      )

  last-Total : {A : Type 0} (list : List A) → list ≢ [] → Total (last list)
  last-Total [] h = absurd (h refl)
  last-Total (x ∷ []) h = (x, refl)
  last-Total (x ∷ y ∷ list) h = last-Total (y ∷ list) (λ e. cc)

  module _ (v : HexView X) (buf : CurrentBuffer X) (some_region : buf.selection.regions ≢ []) where
    overflow_cursor_style-Total : Total (overflow_cursor_style X v buf)
    unfolding overflow_cursor_style overflow_sel_style
    overflow_cursor_style-Total =
        let (r, e) = last-Total buf.selection.regions some_region in rw e (_, refl)

    -- A row has the overflow style only if it reaches behind the text.
    end_style_at-Total :
        (i : ℕ)
        → i + v.bytes_per_line < word
        → (style : Option StylingCommand) × (end_style_at X debug v buf i ≡ some style)
          × ((style ≡ none) ⊎ (length buf.text < i + v.bytes_per_line))
    end_style_at-Total i w =
        elim (Bool-cases (ltb (length buf.text) (add_usize i v.bytes_per_line))) [
          | inl t ↦
              let (style, e) = overflow_cursor_style-Total in
              (style, rw t e, inr (ground (arith, t)))
          | inr f ↦ (none, rw f refl, inl refl)
        ]

    draw_row-Total :
        (bytes : List ℕ) (i row : ℕ) (marks : List StylingCommand) (style : Option StylingCommand)
        (props : Formatter)
        → IsShort debug
        → v.bytes_per_line ≢ 0
        → v.bytes_per_line ≤ 21
        → length bytes ≤ v.bytes_per_line
        → length bytes ≤ length marks
        → (style ≡ none) ⊎ (length bytes < v.bytes_per_line)
        → offset_to_row X v i ≡ some (some row)
        → (commands : List Command) × (draw_row X debug v bytes i marks style props
            ≡ some (commands, record props { line = props.line + 1 }))
    unfolding draw_row
    draw_row-Total bytes i row marks style props short b l n m h e =
        let (commands, d) =
          draw_row_at-Total X debug short row v.bytes_per_line bytes marks style props b l n m h in
        (commands, rw e d)

    one_row_lem :
        (i from to : ℕ) (visible bytes : List ℕ) (marks row_marks : List StylingCommand)
        (style : Option StylingCommand) (props : Formatter) (r : List Command × Formatter)
        → sub_usize i v.start_offset ≡ from
        → min (length visible) (add_usize from v.bytes_per_line) ≡ to
        → slice X debug from to visible ≡ some bytes
        → slice X debug from to marks ≡ some row_marks
        → end_style_at X debug v buf i ≡ some style
        → draw_row X debug v bytes i row_marks style props ≡ some r
        → one_row X debug v buf i v.start_offset visible marks props ≡ some r
    one_row_lem i from to visible bytes marks row_marks style props r a b e₁ e₂ e₃ d =
        rw a (rw b (rw e₁ (rw e₂ (rw e₃ d))))

    pub one_row-Total :
        (i row : ℕ) (visible : List ℕ) (marks : List StylingCommand) (props : Formatter)
        → IsShort debug
        → v.bytes_per_line ≢ 0
        → v.bytes_per_line ≤ 21
        → v.start_offset ≤ i
        → i - v.start_offset ≤ length visible
        → length visible ≤ length marks
        → v.start_offset + length visible ≤ length buf.text
        → length buf.text < half_word
        → offset_to_row X v i ≡ some (some row)
        → (commands : List Command) × (one_row X debug v buf i v.start_offset visible marks props
            ≡ some (commands, record props { line = props.line + 1 }))
    one_row-Total i row visible marks props short b l s n m t w e =
        let from = i - v.start_offset in
        let to = min (length visible) (from + v.bytes_per_line) in
        let apart : sub_usize i v.start_offset ≡ from = omega arith in
        let ahead : add_usize from v.bytes_per_line ≡ from + v.bytes_per_line = omega arith in
        let (bytes, e₁, l₁) = slice-length from to visible (omega arith) (omega arith) in
        let (row_marks, e₂, l₂) = slice-length from to marks (omega arith) (omega arith) in
        let (style, e₃, h) = end_style_at-Total i (omega arith) in
        let not_full : (style ≡ none) ⊎ (length bytes < v.bytes_per_line) = elim h [
          | inl n ↦ inl n
          | inr k ↦ inr (omega (arith, k, l₁))
        ] in
        let (commands, d) =
          draw_row-Total bytes i row row_marks style props short b l (omega (arith, l₁))
            (omega (arith, l₁, l₂)) not_full e in
        (
          commands,
          one_row_lem i from to visible bytes marks row_marks style props
              (commands, record props { line = props.line + 1 }) apart
              (ap (min (length visible)) ahead) e₁ e₂ e₃ d,
        )
