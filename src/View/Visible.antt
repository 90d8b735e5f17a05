-- ===== src/View/Visible.antt =====
-- Where `maybe_update_offset_and_draw` of src/hex_view/view.rs puts the start of the view.
use native.Mathlib.Nat.{mul-le-mul_right, mod-lt, mod-le}
use tofu_hex_editor.Prelude.{
  ℕ, ◌+◌, ◌-◌, ◌*◌, ◌%◌, min, ◌≤◌, ◌<◌, ◌≡◌, ◌≢◌, refl, false, some, arith, length, ltb, leb,
  Bool-cases, inl, inr, ◌==◌,
}
use tofu_hex_editor.Machine.{half_word, add_usize, mul_usize, sub_usize, sub_u16}
use tofu_hex_editor.Xi.{Xi}
use tofu_hex_editor.Buffer.{CurrentBuffer}
use tofu_hex_editor.View.{HexView, visible_of}
use tofu_hex_editor.View.Offsets.{updated_start}

-- The numbers of bytes stay below half of what a machine word holds, and there is a row beside that
-- of the status line.
pub record Fits (start size bpl len : ℕ) : Type 0 where
  pub rows : 2 ≤ size
  pub rows_u16 : size < 65536
  pub columns : bpl ≢ 0
  pub screen : (size - 1) * bpl < half_word
  pub start_fits : start < half_word
  pub len_fits : len < half_word

from_start :
    (start start' size bpl len : ℕ)
    → start' < half_word
    → Fits start size bpl len
    → Fits start' size bpl len
from_start start start' size bpl len h f = record {
  rows = f.rows;
  rows_u16 = f.rows_u16;
  columns = f.columns;
  screen = f.screen;
  start_fits = h;
  len_fits = f.len_fits;
}

rows_below : (size : ℕ) → 2 ≤ size → size < 65536 → sub_u16 size 1 ≡ size - 1
rows_below size h k = ground arith

-- The numbers of the two ends.
pub visible_end :
    (start size bpl len : ℕ)
    → Fits start size bpl len
    → min (add_usize len 1) (add_usize start (mul_usize (sub_u16 size 1) bpl))
      ≡ min (len + 1) (start + (size - 1) * bpl)
visible_end start size bpl len f =
    rw (rows_below size f.rows f.rows_u16) (omega (arith, f.screen, f.start_fits, f.len_fits))

-- A row is not more than the rows of the screen.
pub row-le : (size bpl : ℕ) → 2 ≤ size → bpl ≤ (size - 1) * bpl
row-le size bpl h =
    let one_row : 1 * bpl ≤ (size - 1) * bpl = mul-le-mul_right bpl (omega arith) in
    omega (arith, one_row)

line_start :
    (cursor bpl : ℕ) → cursor < half_word → sub_usize cursor (cursor % bpl) ≡ cursor - cursor % bpl
line_start cursor bpl h = omega (arith, mod-le cursor bpl)

last_row :
    (line size bpl : ℕ)
    → line < half_word
    → 2 ≤ size
    → size < 65536
    → (size - 1) * bpl < half_word
    → add_usize line bpl - mul_usize (sub_usize size 1) bpl ≡ line + bpl - (size - 1) * bpl
last_row line size bpl l h k s =
    let less : sub_usize size 1 ≡ size - 1 = omega arith in
    rw less (omega (arith, row-le size bpl h))

pub not_zero : (n : ℕ) → n ≢ 0 → (n == 0) ≡ false
not_zero n h = ground arith

module _ (X : Xi) (v : HexView X) (buf : CurrentBuffer X) (cursor : ℕ) where
  abbrev pub InView : ℕ → Type 0
  InView start =
      let (first, end) = visible_of X (record v { start_offset = start }) buf in
      (first ≤ cursor) × (cursor < end)

  -- A start that is at most a screen before the cursor shows it.
  in_view :
      (start : ℕ)
      → Fits start v.size.1 v.bytes_per_line (length buf.text)
      → cursor ≤ length buf.text
      → start ≤ cursor
      → cursor < start + (v.size.1 - 1) * v.bytes_per_line
      → InView start
  in_view start f c h k =
      (h, rw (visible_end start v.size.1 v.bytes_per_line (length buf.text) f) (omega arith))

  -- With room for two rows on the screen, and numbers below half of a machine word,
  -- `maybe_update_offset_and_draw` gives a start with which a cursor in the text or at its end is
  -- visible.
  pub updated_start-InView :
      Fits v.start_offset v.size.1 v.bytes_per_line (length buf.text)
      → cursor ≤ length buf.text
      → (start : ℕ) × (updated_start X v buf cursor ≡ some start) × InView start
  unfolding updated_start
  updated_start-InView f c = elim (Bool-cases (ltb cursor v.start_offset)) [
    | inl before ↦ (
      sub_usize cursor (cursor % v.bytes_per_line),
      rw before (rw (not_zero v.bytes_per_line f.columns) refl),
      rw (line_start cursor v.bytes_per_line (omega (arith, f.len_fits))) (
          in_view (cursor - cursor % v.bytes_per_line)
            (from_start _ _ _ _ _ (omega (arith, f.len_fits)) f) c (omega arith)
            (omega (
              arith,
              column f.columns,
              row-le v.size.1 v.bytes_per_line f.rows,
              mod-le cursor v.bytes_per_line,
            ))),
    )
    | inr not_before ↦ elim (Bool-cases (leb (visible_of X v buf).1 cursor)) [
      | inl behind ↦ (
        add_usize (sub_usize cursor (cursor % v.bytes_per_line)) v.bytes_per_line
            - mul_usize (sub_usize v.size.1 1) v.bytes_per_line,
        rw not_before (rw behind (rw (not_zero v.bytes_per_line f.columns) refl)),
        rw (line_start cursor v.bytes_per_line (omega (arith, f.len_fits))) (
            rw
              (last_row (cursor - cursor % v.bytes_per_line) v.size.1 v.bytes_per_line
                (omega (arith, f.len_fits)) f.rows f.rows_u16 f.screen)
              (in_view
                (cursor
                  - cursor % v.bytes_per_line
                  + v.bytes_per_line
                  - (v.size.1 - 1) * v.bytes_per_line)
                (from_start _ _ _ _ _
                  (omega (arith, f.len_fits, row-le v.size.1 v.bytes_per_line f.rows)) f)
                c (omega (arith, row-le v.size.1 v.bytes_per_line f.rows))
                (omega (arith, column f.columns, mod-le cursor v.bytes_per_line)))),
      )
      | inr visible ↦ (
        v.start_offset,
        rw not_before (rw visible refl),
        (ground (arith, not_before), ground (arith, visible)),
      )
    ]
  ]
    where
      column : v.bytes_per_line ≢ 0 → cursor % v.bytes_per_line < v.bytes_per_line
      column h = mod-lt cursor (omega (arith, h))
