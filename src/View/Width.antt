-- ===== src/View/Width.antt =====
-- The columns that a row of src/hex_view/view.rs takes.
use tofu_hex_editor.Prelude.{
  ℕ, ◌+◌, ◌-◌, ◌*◌, ◌%◌, ◌≤◌, ◌<◌, ◌≡◌, ◌≢◌, ◌⊎◌, refl, ap, ◌∙◌, false, Option, none, some, List,
  [], ◌∷◌, ◌++◌, length, replicate, length-replicate, arith, inl, inr, Bool-cases, ◌==◌,
  if◌then◌else◌,
}
use native.Mathlib.Nat.{mod-eq_of_lt}
use tofu_hex_editor.Machine.{add_usize, sub_usize, mul_usize, half_word}
use tofu_hex_editor.Style.{
  Color, Command, print, print_styled_content, set_foreground_color, set_background_color,
  set_attributes, ContentStyle, StylingCommand, queue_color, queue_style, queue_if, draw_hex_byte,
  draw_ascii_byte, draw as draw_styled, colorize_byte, make_padding, byte_ascii_repr,
  with_mid_to_end, take_end_only, start_style, mid_style, end_style,
}
use tofu_hex_editor.View.Visible.{not_zero}
use tofu_hex_editor.View.Rows.{draw_hex_row, draw_ascii_row, empty_columns, hex_part, ascii_part}

-- The columns that commands print in.
abbrev pub printed : Command → ℕ
printed (print text) = length text
printed (print_styled_content style text) = length text
printed _ = 0

abbrev pub width : List Command → ℕ
width [] = 0
width (command ∷ commands) = printed command + width commands

width-append : (a b : List Command) → width (a ++ b) ≡ width a + width b
width-append [] b = omega arith
width-append (command ∷ a) b = omega (arith, width-append a b)

width-queue_color :
    (command : Color → Command)
    → ((color : Color) → printed (command color) ≡ 0)
    → (o : Option Color) → width (queue_color command o) ≡ 0
width-queue_color command h none = refl
width-queue_color command h (some color) = omega (arith, h color)

width-queue_style : (style : ContentStyle) → width (queue_style style) ≡ 0
unfolding queue_style
width-queue_style style =
    let foreground = width-queue_color set_foreground_color (λ c. refl) style.foreground_color in
    let background = width-queue_color set_background_color (λ c. refl) style.background_color in
    omega (arith, width-append, foreground, background, attributes style.attributes)
  where
    attributes : (n : ℕ) → width (if n == 0 then [] else set_attributes n ∷ []) ≡ 0
    attributes n = ground arith

width-queue_if : (style : Option ContentStyle) → width (queue_if style) ≡ 0
unfolding queue_if
width-queue_if none = refl
width-queue_if (some style) = width-queue_style style

three :
    (a b c : List Command) (x y : ℕ)
    → width a ≡ 0
    → width b ≡ 0
    → width c ≡ 0
    → width (a ++ print (x ∷ []) ∷ b ++ print (y ∷ []) ∷ c ++ print (32 ∷ []) ∷ []) ≡ 3
three a b c x y h k l = omega (arith, width-append)

between :
    (a b : List Command) (text : List ℕ)
    → width a ≡ 0
    → width b ≡ 0
    → width (a ++ print text ∷ b) ≡ length text
between a b text h k = omega (arith, width-append)

width-draw_hex_byte : (byte : ℕ) (style : StylingCommand) → width (draw_hex_byte byte style) ≡ 3
unfolding draw_hex_byte
width-draw_hex_byte byte style =
    let s = colorize_byte byte style in
    three (queue_if (start_style s)) (queue_if (mid_style s)) (queue_if (end_style s)) _ _
      (width-queue_if (start_style s)) (width-queue_if (mid_style s)) (width-queue_if (end_style s))

width-draw_ascii_byte : (byte : ℕ) (style : StylingCommand) → width (draw_ascii_byte byte style) ≡ 1
unfolding draw_ascii_byte
width-draw_ascii_byte byte style =
    let s = colorize_byte byte style in
    between (queue_if (start_style s)) (queue_if (end_style s)) (byte_ascii_repr byte)
      (width-queue_if (start_style s)) (width-queue_if (end_style s))
    ∙ one byte
  where
    one : (byte : ℕ) → length (byte_ascii_repr byte) ≡ 1
    one byte = ground arith

width-draw : (text : List ℕ) (style : StylingCommand) → width (draw_styled text style) ≡ length text
unfolding draw_styled
width-draw text style =
    between (queue_if (start_style style)) (queue_if (end_style style)) text
      (width-queue_if (start_style style)) (width-queue_if (end_style style))

width-draw_hex_row :
    (bytes : List ℕ) (styles : List StylingCommand)
    → length bytes ≤ length styles
    → width (draw_hex_row bytes styles) ≡ 3 * length bytes
unfolding draw_hex_row
width-draw_hex_row [] styles h = refl
width-draw_hex_row (byte ∷ bytes) [] h = absurd (omega arith)
width-draw_hex_row (byte ∷ bytes) (style ∷ styles) h =
    omega (arith, width-append, width-draw_hex_byte, width-draw_hex_row bytes styles (omega arith))

width-draw_ascii_row :
    (bytes : List ℕ) (styles : List StylingCommand)
    → length bytes ≤ length styles
    → width (draw_ascii_row bytes styles) ≡ length bytes
unfolding draw_ascii_row
width-draw_ascii_row [] styles h = refl
width-draw_ascii_row (byte ∷ bytes) [] h = absurd (omega arith)
width-draw_ascii_row (byte ∷ bytes) (style ∷ styles) h =
    omega
      (arith, width-append, width-draw_ascii_byte, width-draw_ascii_row bytes styles (omega arith))

-- The columns left empty behind `count` bytes of a row.
empty_columns_lem :
    (bpl count : ℕ)
    → bpl ≢ 0
    → bpl < half_word
    → count ≤ bpl
    → (columns : ℕ) × (empty_columns bpl count ≡ some columns) × (columns + count ≡ bpl)
unfolding empty_columns
empty_columns_lem bpl count b h c = elim (Bool-cases (count == 0)) [
  | inl t ↦ (bpl, rw t refl, ground (arith, t))
  | inr f ↦ (
    sub_usize bpl count % bpl,
    rw f (rw (not_zero bpl b) refl),
    ap (λ k. k + count) (mod-eq_of_lt (less bpl count h c f)) ∙ omega arith,
  )
]
  where
    less :
        (bpl count : ℕ)
        → bpl < half_word
        → count ≤ bpl
        → (count == 0) ≡ false
        → sub_usize bpl count < bpl
    less bpl count h c f = ground (arith, f)

pub make_padding_lem : (n : ℕ) → n ≤ 64 → make_padding n ≡ some (replicate n 32)
unfolding make_padding
make_padding_lem n h = ground (arith, h)

abbrev Parts : ℕ → List ℕ → List StylingCommand → Option StylingCommand → Type 0
Parts bpl bytes marks end_style =
    ((hex : List Command) × (hex_part bpl bytes marks end_style ≡ some hex) × (width hex ≡ 3 * bpl))
    × ((ascii : List Command) × (ascii_part bpl bytes marks end_style ≡ some ascii)
        × (width ascii ≡ bpl + 1))

plain-Parts :
    (bpl columns : ℕ) (bytes : List ℕ) (marks : List StylingCommand)
    → bpl ≤ 21
    → length bytes ≤ length marks
    → empty_columns bpl (length bytes) ≡ some columns
    → columns + length bytes ≡ bpl
    → Parts bpl bytes marks none
unfolding hex_part ascii_part
plain-Parts bpl columns bytes marks b m e c =
    let hex_padding : mul_usize columns 3 ≡ 3 * columns = omega arith in
    let ascii_padding : add_usize columns 1 ≡ columns + 1 = omega arith in
    (
      (
        draw_hex_row bytes marks ++ print (replicate (3 * columns) 32) ∷ [],
        rw e (rw hex_padding (rw (make_padding_lem (3 * columns) (omega arith)) refl)),
        omega (
          arith,
          width-append,
          width-draw_hex_row bytes marks m,
          length-replicate {A = ℕ} (3 * columns) 32,
        ),
      ),
      (
        draw_ascii_row bytes marks ++ print (replicate (columns + 1) 32) ∷ [],
        rw e (rw ascii_padding (rw (make_padding_lem (columns + 1) (omega arith)) refl)),
        omega (
          arith,
          width-append,
          width-draw_ascii_row bytes marks m,
          length-replicate {A = ℕ} (columns + 1) 32,
        ),
      ),
    )

styled-Parts :
    (bpl columns : ℕ) (bytes : List ℕ) (marks : List StylingCommand) (style : StylingCommand)
    → bpl ≤ 21
    → length bytes < bpl
    → length bytes ≤ length marks
    → empty_columns bpl (length bytes) ≡ some columns
    → columns + length bytes ≡ bpl
    → Parts bpl bytes marks (some style)
unfolding hex_part ascii_part
styled-Parts bpl columns bytes marks style b l m e c =
    let hex_padding : sub_usize (mul_usize columns 3) 2 ≡ 3 * columns - 2 = omega arith in
    let ascii_padding : sub_usize (add_usize columns 1) 1 ≡ columns = omega arith in
    (
      (
        draw_hex_row bytes marks
            ++ draw_styled (32 ∷ []) (with_mid_to_end style)
            ++ draw_styled (32 ∷ []) (take_end_only style)
            ++ print (replicate (3 * columns - 2) 32) ∷ [],
        rw e (rw hex_padding (rw (make_padding_lem (3 * columns - 2) (omega arith)) refl)),
        omega (
          arith,
          width-append,
          width-draw_hex_row bytes marks m,
          width-draw,
          length-replicate {A = ℕ} (3 * columns - 2) 32,
        ),
      ),
      (
        draw_ascii_row bytes marks
            ++ draw_styled (32 ∷ []) (take_end_only style)
            ++ print (replicate columns 32) ∷ [],
        rw e (rw ascii_padding (rw (make_padding_lem columns (omega arith)) refl)),
        omega (
          arith,
          width-append,
          width-draw_ascii_row bytes marks m,
          width-draw,
          length-replicate {A = ℕ} columns 32,
        ),
      ),
    )

-- With at least one and at most 21 bytes in a line, and no more bytes in a row than that or than
-- styles, the two parts of the row are drawn without a panic and take three columns for each byte of a
-- full line, and one for each and one more, whatever the row holds; a row with the overflow style must
-- not be full.
pub parts-width :
    (bpl : ℕ) (bytes : List ℕ) (marks : List StylingCommand) (end_style : Option StylingCommand)
    → bpl ≢ 0
    → bpl ≤ 21
    → length bytes ≤ bpl
    → length bytes ≤ length marks
    → (end_style ≡ none) ⊎ (length bytes < bpl)
    → ((hex : List Command) × (hex_part bpl bytes marks end_style ≡ some hex)
        × (width hex ≡ 3 * bpl))
      × ((ascii : List Command) × (ascii_part bpl bytes marks end_style ≡ some ascii)
          × (width ascii ≡ bpl + 1))
parts-width bpl bytes marks none n b l m h =
    let (columns, e, c) = empty_columns_lem bpl (length bytes) n (omega arith) l in
    plain-Parts bpl columns bytes marks b m e c
parts-width bpl bytes marks (some style) n b l m (inl h) = cc
parts-width bpl bytes marks (some style) n b l m (inr h) =
    let (columns, e, c) = empty_columns_lem bpl (length bytes) n (omega arith) l in
    styled-Parts bpl columns bytes marks style b h m e c
