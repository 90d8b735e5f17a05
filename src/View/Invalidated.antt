-- ===== src/View/Invalidated.antt =====
-- The rows that src/hex_view/view.rs draws again after a change in place.
use tofu_hex_editor.Prelude.{
  ℕ, zero, suc, ◌+◌, ◌-◌, ◌/◌, ◌≤◌, ◌<◌, ◌≡◌, Bool, true, ◌||◌, none, some, ◌>>=◌, List, [], ◌∷◌,
  get_elem?, arith, inl, inr, Bool-cases, some_inj, ◌==◌, leb, if◌then◌else◌,
}
use tofu_hex_editor.Machine.{sub_usize, as_u16}
use tofu_hex_editor.Xi.{Xi, XiLaws}
use tofu_hex_editor.Buffer.{Interval}
use tofu_hex_editor.View.{HexView, offset_to_row}
use tofu_hex_editor.View.Events.{has_row, invalidated_rows}

same : (n : ℕ) → (n == n) ≡ true
same n = ground arith

true_or : (a b : Bool) → a ≡ true → (a || b) ≡ true
true_or a b h = ground arith

or_true : (a b : Bool) → b ≡ true → (a || b) ≡ true
or_true a b h = ground arith

has_row_lem :
    (n byte start bpl i row : ℕ)
    → byte ≤ i
    → i < byte + n
    → as_u16 (sub_usize i start / bpl) ≡ row
    → has_row n byte start bpl row ≡ true
unfolding has_row
has_row_lem zero byte start bpl i row h k e = absurd (omega arith)
has_row_lem (suc n) byte start bpl i row h k e = elim (Bool-cases (byte == i)) [
  | inl t ↦ let here : byte ≡ i = ground arith in rw here (rw e (true_or _ _ (same row)))
  | inr f ↦
      or_true _ _ (has_row_lem n (suc byte) start bpl i row (ground (arith, f)) (omega arith) e)
]

-- What a row that `offset_to_row` gives says.
found_row :
    (before zero_columns : Bool) (quotient size row : ℕ)
    → (if before
        then some none
        else ((if zero_columns then none else some quotient) >>= λ row.
            some (if leb size row then none else some row)))
      ≡ some (some row)
    → (quotient ≡ row) × (row < size)
found_row before zero_columns quotient size row h = ground arith

module _ (X : Xi) (L : XiLaws X) where
  in_intervals :
      (visible x : Interval) (intervals : List Interval) (index byte start bpl row : ℕ)
      → get_elem? intervals index ≡ some x
      → visible.0 ≤ byte
      → byte < visible.1
      → x.0 ≤ byte
      → byte < x.1
      → as_u16 (sub_usize byte start / bpl) ≡ row
      → invalidated_rows X visible intervals start bpl row ≡ true
  unfolding invalidated_rows
  in_intervals visible x [] index byte start bpl row e a b c d r = cc
  in_intervals visible x (y ∷ intervals) zero byte start bpl row e a b c d r =
      let found = some_inj e in
      let (first, last) = L.in-interval_intersect visible x byte a b c d in
      let first' : (X.interval_intersect visible y).0 ≤ byte = rw found first in
      let last' : byte < (X.interval_intersect visible y).1 = rw found last in
      let r' = X.interval_intersect visible y in
      true_or _ _
        (has_row_lem (r'.1 - r'.0) r'.0 start bpl byte row first' (omega (arith, first', last')) r)
  in_intervals visible x (y ∷ intervals) (suc index) byte start bpl row e a b c d r =
      or_true _ _ (in_intervals visible x intervals index byte start bpl row e a b c d r)

  -- On a screen of less than 65536 rows, the row that `offset_to_row` gives for a byte that is visible
  -- and in one of the intervals is drawn again.
  pub invalidated_rows-offset_to_row :
      (v : HexView X) (visible x : Interval) (intervals : List Interval) (index byte row : ℕ)
      → v.size.1 < 65536
      → get_elem? intervals index ≡ some x
      → visible.0 ≤ byte
      → byte < visible.1
      → x.0 ≤ byte
      → byte < x.1
      → offset_to_row X v byte ≡ some (some row)
      → invalidated_rows X visible intervals v.start_offset v.bytes_per_line row ≡ true
  unfolding offset_to_row
  invalidated_rows-offset_to_row v visible x intervals index byte row s e a b c d o =
      let (q, r) = row_found o in
      in_intervals visible x intervals index byte v.start_offset v.bytes_per_line row e a b c d
        (omega (arith, q, r))
    where
      row_found :
          offset_to_row X v byte ≡ some (some row)
          → (sub_usize byte v.start_offset / v.bytes_per_line ≡ row) × (row < v.size.1)
      row_found o = found_row _ _ _ _ row o
