-- ===== src/Modes/Split/Width.antt =====
-- The regions that a split by width in src/modes/split.rs makes of a region.
use tofu_hex_editor.Prelude.{
  ℕ, zero, suc, ◌+◌, ◌-◌, ◌≤◌, ◌<◌, min, ◌≡◌, ◌≢◌, refl, sym, ◌∙◌, Bool, false, inl, inr,
  Bool-cases, some, List, [], ◌∷◌, ltb, ltb→lt, lt→ltb, arith,
}
use tofu_hex_editor.Machine.{word, add_usize, sub_usize}
use tofu_hex_editor.Selection.Region.{SelRegion, new, with_direction, backward, max_of, min_of}
use tofu_hex_editor.Modes.Split.{pieces_from, by_width}

-- Regions of at most `step` bytes, one right behind the other, from `lo` to `hi`.
abbrev pub Tiles : ℕ → ℕ → ℕ → List SelRegion → Type 0
Tiles step lo hi [] = lo ≡ suc hi
Tiles step lo hi (q ∷ qs) =
    (min_of q ≡ lo) × (max_of q < lo + step) × (max_of q ≤ hi) × Tiles step (suc (max_of q)) hi qs

-- The ends of the region at `pos`.
piece_ends :
    (pos end : ℕ) (b : Bool)
    → pos ≤ end
    → (min_of (with_direction (new pos end) b) ≡ pos)
      × (max_of (with_direction (new pos end) b) ≡ end)
unfolding with_direction
piece_ends pos end b h = (ground arith, ground arith)

pieces_past :
    (r : SelRegion) (step fuel pos : ℕ) → max_of r < pos → pieces_from r step fuel pos ≡ []
unfolding pieces_from
pieces_past r step zero pos h = refl
pieces_past r step (suc fuel) pos h = rw (lt→ltb (max_of r) pos h) refl

pieces_from-Tiles :
    (r : SelRegion) (step fuel lo pos : ℕ)
    → step ≢ 0
    → max_of r + step < word
    → lo ≡ pos
    → pos ≤ max_of r
    → max_of r - pos < fuel
    → Tiles step lo (max_of r) (pieces_from r step fuel pos)
unfolding pieces_from
pieces_from-Tiles r step zero lo pos ne w k h f = absurd (omega arith)
pieces_from-Tiles r step (suc fuel) lo pos ne w k h f =
    let end = min (max_of r) (sub_usize (add_usize pos step) 1) in
    let end_lem : end ≡ min (max_of r) (pos + step - 1) = omega arith in
    let (first, last) = piece_ends pos end (backward r) (omega arith) in
    let rest : Tiles step (suc end) (max_of r) (pieces_from r step fuel (pos + step)) =
      elim (Bool-cases (ltb (max_of r) (pos + step))) [
        | inl e ↦
            let past = ltb→lt (max_of r) (pos + step) e in
            rw (pieces_past r step fuel (pos + step) past) (omega arith)
        | inr e ↦
            let next : pos + step ≤ max_of r = ground (arith, e) in
            pieces_from-Tiles r step fuel (suc end) (pos + step) ne w (omega arith) next
              (omega arith)
      ] in
    let here : ltb (max_of r) pos ≡ false = ground (arith, h) in
    rw here (first ∙ sym k, rw last (omega arith), rw last (omega arith), rw last rest)

-- A split by a width that is not 0, of a region with room for the width behind it in a word, does
-- not panic, and its regions follow one another from the first byte of the region to the last, none
-- longer than the width.
pub by_width-Tiles :
    (step : ℕ) (r : SelRegion)
    → step ≢ 0
    → max_of r + step < word
    → (rs : List SelRegion) × (by_width step r tt ≡ some (rs, tt))
      × Tiles step (min_of r) (max_of r) rs
unfolding by_width
by_width-Tiles step r ne w = (
  pieces_from r step (suc (max_of r - min_of r)) (min_of r),
  ground (arith, ne),
  pieces_from-Tiles r step (suc (max_of r - min_of r)) (min_of r) (min_of r) ne w refl (omega arith)
      (omega arith),
)
