-- ===== src/View/RestRows.antt =====
-- The loop in src/hex_view/view.rs that draws what is left of the lines of the byte properties.
use tofu_hex_editor.Prelude.{
  ℕ, zero, suc, ◌+◌, ◌-◌, ◌*◌, ◌/◌, ◌%◌, ◌≤◌, ◌<◌, ◌≡◌, ◌≢◌, ◌⊎◌, refl, ap, ◌∙◌, true, false,
  Option, none, some, ◌>>=◌, List, [], ◌∷◌, ◌++◌, length, replicate, length-append, arith, inl, inr,
  Bool-cases, le→leb, ltb, leb, if◌then◌else◌,
}
use native.Mathlib.Nat.{add-div_right, suc-mul}
use tofu_hex_editor.Prelude.Int.{ℤ, pos, negsuc}
use tofu_hex_editor.Machine.{add_usize, sub_usize, word, half_word}
use tofu_hex_editor.Xi.{Xi}
use tofu_hex_editor.Modes.Command.{byte_len}
use tofu_hex_editor.Style.{draw, Command, StylingCommand}
use tofu_hex_editor.ByteProperties.{
  Formatter, are_all_printed, default_style, default_value_style, labelled, draw_line, line_of,
  padded, format_char, first_byte, bytes_to_4_byte_vec, utf8_value, utf16_value, signed_decimal,
  as_signed,
}
use tofu_hex_editor.ByteProperties.Chars.{utf8_into_char, utf16_into_char, be_bytes}
use Prim.Native.String.{String}
use tofu_hex_editor.Printing.{decimal, codes}
use tofu_hex_editor.View.{HexView, offset_to_row}
use tofu_hex_editor.View.Visible.{not_zero}
use tofu_hex_editor.View.Marked.{Total}
use tofu_hex_editor.View.Width.{parts-width, make_padding_lem}
use tofu_hex_editor.View.Rows.{row_of, draw_row_at, draw_row, rest_rows}

-- The debug form of a character has at most twelve bytes, as in `'\\u{10ffff}'`.
abbrev pub IsShort : (ℕ → List ℕ) → Type 0
IsShort debug = (c : ℕ) → byte_len (debug c) ≤ 12

padded-Total :
    (literal : List ℕ) (style : StylingCommand) (len : ℕ)
    → len ≤ 12
    → Total (padded literal style len)
padded-Total literal style len h =
    let fits : ltb 12 len ≡ false = ground arith in
    (
      draw literal style ++ draw (replicate (12 - len) 32) default_style,
      rw fits (
          ap (λ o. o >>= λ p. some (draw literal style ++ draw p default_style))
            (make_padding_lem (12 - len) (omega arith))),
    )

length-decimal : (fuel n : ℕ) → length (decimal fuel n) ≤ fuel
length-decimal zero n = omega arith
length-decimal (suc fuel) n = elim (Bool-cases (ltb n 10)) [
  | inl t ↦ rw t (omega arith)
  | inr f ↦ rw f (
      omega (
        arith,
        length-append {A = ℕ} (decimal fuel (n / 10)) ((b'0' + n % 10) ∷ []),
        length-decimal fuel (n / 10),
      ))
]

length-signed_decimal : (n : ℤ) → length (signed_decimal 3 n) ≤ 4
length-signed_decimal (pos n) = omega (arith, length-decimal 3 n)
length-signed_decimal (negsuc n) = omega (arith, length-decimal 3 (suc n))

module _ (X : Xi) (debug : ℕ → List ℕ) (short : IsShort debug) where
  format_char-le : (c : ℕ) → byte_len (format_char debug c) ≤ 12
  format_char-le c = ground (arith, short c)

  utf8_value-Total : (o : Option ℕ) → Total (utf8_value debug o)
  utf8_value-Total none = padded-Total _ _ 1 (omega arith)
  utf8_value-Total (some c) = padded-Total _ _ _ (format_char-le c)

  labelled-Total :
      (first second : String) (value : Option (List Command)) (rest : List Command)
      → Total value
      → Total (labelled debug first value second rest)
  labelled-Total first second value rest (shown, e) = (
    _,
    ap
        (λ o. o >>= λ shown.
          some (
            draw (codes first) default_style ++ shown ++ draw (codes second) default_style ++ rest))
        e,
  )

  line_of-Total : (n : ℕ) (bytes : List ℕ) → Total (line_of debug n bytes)
  unfolding line_of
  line_of-Total zero bytes = (_, refl)
  line_of-Total (suc zero) bytes = (_, refl)
  line_of-Total (suc (suc zero)) bytes =
      let literal = decimal 3 (first_byte bytes) in
      labelled-Total "dec u8: " " dec u32: " _
        (draw (decimal 10 (be_bytes (bytes_to_4_byte_vec bytes))) default_value_style)
        (padded-Total literal default_value_style (length literal)
          (omega (arith, length-decimal 3 (first_byte bytes))))
  line_of-Total (suc (suc (suc zero))) bytes =
      let n = as_signed 0x80 (first_byte bytes) in
      labelled-Total "dec i8: " " dec i32: " _
        (draw (signed_decimal 10 (as_signed 0x80000000 (be_bytes (bytes_to_4_byte_vec bytes))))
          default_value_style)
        (padded-Total (signed_decimal 3 n) default_value_style (length (signed_decimal 3 n))
          (omega (arith, length-signed_decimal n)))
  line_of-Total (suc (suc (suc (suc zero)))) bytes =
      labelled-Total " utf-8: " "  utf-16: " _ (utf16_value debug (utf16_into_char bytes))
        (utf8_value-Total (utf8_into_char bytes))
  line_of-Total (suc (suc (suc (suc (suc n))))) bytes = ([], refl)

  draw_line-Total :
      (f : Formatter)
      → (commands : List Command) × (draw_line debug f
          ≡ some (commands, record f { line = f.line + 1 }))
  unfolding draw_line
  draw_line-Total f =
      let (commands, e) = line_of-Total f.line f.bytes in
      (commands, ap (λ o. o >>= λ commands. some (commands, record f { line = f.line + 1 })) e)

  pub draw_row_at-Total :
      (row_num bpl : ℕ) (bytes : List ℕ) (marks : List StylingCommand)
      (end_style : Option StylingCommand) (props : Formatter)
      → bpl ≢ 0
      → bpl ≤ 21
      → length bytes ≤ bpl
      → length bytes ≤ length marks
      → (end_style ≡ none) ⊎ (length bytes < bpl)
      → (commands : List Command) × (draw_row_at X debug row_num bpl bytes marks end_style props
          ≡ some (commands, record props { line = props.line + 1 }))
  unfolding draw_row_at
  draw_row_at-Total row_num bpl bytes marks end_style props b n l m h =
      let ((hex, e, hw), (ascii, a, aw)) = parts-width bpl bytes marks end_style b n l m h in
      let (properties, p) = draw_line-Total props in
      (row_of X debug row_num hex ascii properties, rw e (rw a (rw p refl)))

  module _ (v : HexView X) where
    -- The row of an offset that is not before the start.
    pub offset_to_row_lem :
        (offset : ℕ)
        → v.bytes_per_line ≢ 0
        → v.start_offset ≤ offset
        → offset < word
        → offset_to_row X v offset
          ≡ some (
              if leb v.size.1 ((offset - v.start_offset) / v.bytes_per_line)
              then none
              else some ((offset - v.start_offset) / v.bytes_per_line))
    unfolding offset_to_row
    offset_to_row_lem offset b h w =
        let behind : ltb offset v.start_offset ≡ false = ground arith in
        let apart : sub_usize offset v.start_offset ≡ offset - v.start_offset = omega arith in
        rw behind (rw (not_zero v.bytes_per_line b) (rw apart refl))

    -- The next row of the loop.
    next_row :
        (offset : ℕ)
        → v.bytes_per_line ≢ 0
        → v.start_offset ≤ offset
        → offset + v.bytes_per_line < word
        → (add_usize offset v.bytes_per_line ≡ offset + v.bytes_per_line)
          × ((offset + v.bytes_per_line - v.start_offset) / v.bytes_per_line
              ≡ (offset - v.start_offset) / v.bytes_per_line + 1)
    next_row offset b h w =
        let ahead : offset + v.bytes_per_line - v.start_offset
            ≡ offset - v.start_offset + v.bytes_per_line =
          omega arith in
        (
          omega arith,
          ap (λ n. n / v.bytes_per_line) ahead
              ∙ add-div_right (offset - v.start_offset) (omega (arith, b)),
        )

    -- A row below the screen draws nothing.
    draw_row_below :
        (offset : ℕ) (props : Formatter)
        → offset_to_row X v offset ≡ some none
        → draw_row X debug v [] offset [] none props ≡ some ([], props)
    unfolding draw_row
    draw_row_below offset props e = rw e refl

    -- A row on the screen without bytes draws the next line of the properties.
    draw_row_on :
        (offset row : ℕ) (props : Formatter)
        → v.bytes_per_line ≢ 0
        → v.bytes_per_line ≤ 21
        → offset_to_row X v offset ≡ some (some row)
        → (commands : List Command) × (draw_row X debug v [] offset [] none props
            ≡ some (commands, record props { line = props.line + 1 }))
    unfolding draw_row
    draw_row_on offset row props b n e =
        let (commands, d) =
          draw_row_at-Total row v.bytes_per_line [] [] none props b n (omega arith) (omega arith)
            (inl refl) in
        (commands, rw e d)

    rest_zero :
        (offset : ℕ) (props : Formatter)
        → rest_rows X debug zero v offset props
          ≡ (if are_all_printed props then some ([], props) else none)
    unfolding rest_rows
    rest_zero offset props = refl

    rest_step :
        (fuel offset next : ℕ) (props props' : Formatter) (commands : List Command)
        → are_all_printed props ≡ false
        → draw_row X debug v [] offset [] none props ≡ some (commands, props')
        → add_usize offset v.bytes_per_line ≡ next
        → rest_rows X debug (suc fuel) v offset props ≡ (
            rest_rows X debug fuel v next props' >>= λ (later, props'').
            some (commands ++ later, props''))
    unfolding rest_rows
    rest_step fuel offset next props props' commands p e n = rw (p, rest_rows) (rw e (rw n refl))

    rest_done :
        (fuel offset : ℕ) (props : Formatter)
        → props.line ≡ 5
        → rest_rows X debug fuel v offset props ≡ some ([], record props { line = 5 })
    unfolding rest_rows
    rest_done zero offset props e =
        let printed : are_all_printed props ≡ true = ground (arith, e) in
        rest_zero offset props ∙ rw printed (ap (λ line. some ([], record props { line = line })) e)
    rest_done (suc fuel) offset props e =
        let printed : are_all_printed props ≡ true = ground (arith, e) in
        rw (printed, rest_rows) (ap (λ line. some ([], record props { line = line })) e)

    -- The same on fuel for at least as many turns as there are lines left.
    pub ends_within :
        (n fuel offset : ℕ) (props : Formatter)
        → n ≤ fuel
        → v.bytes_per_line ≢ 0
        → v.bytes_per_line ≤ 21
        → v.start_offset ≤ offset
        → offset + 21 * n < word
        → props.line + n ≡ 5
        → (offset - v.start_offset) / v.bytes_per_line + n ≤ v.size.1
        → (commands : List Command) × (rest_rows X debug fuel v offset props
            ≡ some (commands, record props { line = 5 }))
    ends_within zero fuel offset props f b l s o p r =
        ([], rest_done fuel offset props (omega arith))
    ends_within (suc n) zero offset props f b l s o p r = absurd (omega arith)
    ends_within (suc n) (suc fuel) offset props f b l s o p r =
        let row = (offset - v.start_offset) / v.bytes_per_line in
        let on_screen : leb v.size.1 row ≡ false = ground arith in
        let left : are_all_printed props ≡ false = ground arith in
        let found : offset_to_row X v offset ≡ some (some row) =
          offset_to_row_lem offset b s (omega arith) ∙ rw on_screen refl in
        let (commands, d) = draw_row_on offset row props b l found in
        let (ahead, row') = next_row offset b s (omega arith) in
        let (later, e) =
          ends_within n fuel (offset + v.bytes_per_line) (record props { line = props.line + 1 })
            (omega arith) b l (omega arith) (omega arith) (omega arith) (omega (arith, row', r)) in
        (
          commands ++ later,
          rest_step fuel offset _ props _ commands left d ahead
              ∙ ap (λ o. o >>= λ (later, props''). some (commands ++ later, props'')) e,
        )

    -- Where the rows from that of an offset on that are on the screen are not fewer than the lines of
    -- the properties that are left, at most 21 bytes are in a line and the debug form of a character
    -- has at most twelve bytes, the loop that draws these lines ends with all lines drawn.
    pub rest_rows-ends :
        (n offset : ℕ) (props : Formatter)
        → v.bytes_per_line ≢ 0
        → v.bytes_per_line ≤ 21
        → v.start_offset ≤ offset
        → offset < half_word
        → props.line + n ≡ 5
        → (offset - v.start_offset) / v.bytes_per_line + n ≤ v.size.1
        → (commands : List Command) × (rest_rows X debug n v offset props
            ≡ some (commands, record props { line = 5 }))
    rest_rows-ends n offset props b l s o p r =
        ends_within n n offset props (omega arith) b l s (omega arith) p r

    -- Where the row of an offset is below the screen and not all lines are drawn, the loop does not
    -- end, for any number of turns up to the end of the addresses.
    pub rest_rows_hangs :
        (fuel offset : ℕ) (props : Formatter)
        → v.bytes_per_line ≢ 0
        → v.start_offset ≤ offset
        → offset + fuel * v.bytes_per_line < word
        → are_all_printed props ≡ false
        → v.size.1 ≤ (offset - v.start_offset) / v.bytes_per_line
        → rest_rows X debug fuel v offset props ≡ none
    rest_rows_hangs zero offset props b s o p r = rest_zero offset props ∙ rw p refl
    rest_rows_hangs (suc fuel) offset props b s o p r =
        let row = (offset - v.start_offset) / v.bytes_per_line in
        let off_screen : leb v.size.1 row ≡ true = le→leb v.size.1 row r in
        let found : offset_to_row X v offset ≡ some none =
          offset_to_row_lem offset b s (omega arith) ∙ rw off_screen refl in
        let turns = suc-mul fuel v.bytes_per_line in
        let (ahead, row') = next_row offset b s (omega (arith, turns)) in
        rest_step fuel offset _ props props [] p (draw_row_below offset props found) ahead
        ∙ ap (λ o. o >>= λ (later, props''). some (later, props''))
            (rest_rows_hangs fuel (offset + v.bytes_per_line) props b (omega arith)
              (omega (arith, turns)) p (omega (arith, row', r)))
