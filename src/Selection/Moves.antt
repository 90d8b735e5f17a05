-- ===== src/Selection/Moves.antt =====
-- The motions that src/modes/normal.rs and src/modes/jumpto.rs make on every region of a selection
-- (src/selection.rs), and the count before `G` that makes `merge` panic.
use tofu_hex_editor.Prelude.{
  ℕ, zero, suc, true, ◌+◌, ◌*◌, ◌/◌, ◌-◌, ◌%◌, ◌≤◌, ◌<◌, min, ◌≡◌, ◌≢◌, refl, Option, none, some,
  List, [], ◌∷◌, arith, sym, ap, some_fst, ◌∙◌,
}
use native.Mathlib.Nat.{le-div_iff_mul-le, div-mul-le_self, div-add-mod', mod-lt, mod-le, le_trans}
use tofu_hex_editor.Machine.{word, half_word}
use tofu_hex_editor.Selection.Region.{
  Direction, up, down, left, right, SelRegion, new, max_of, merge, simple_move, jump_to, extend_to,
  jump_to_boundary, boundary_location,
}
use tofu_hex_editor.Selection.Motion.{
  InRange, target, caret_location-target, target_mono, target-le,
}
use tofu_hex_editor.Selection.Defs.{
  Selection, marked, each, map_each, map_selections, map_from, push_all, mark_last,
}
use tofu_hex_editor.Selection.Order.{IsOrdered}
use tofu_hex_editor.Selection.Marks.{IsValid, MarkedAt}
use tofu_hex_editor.Selection.Bounds.{InBounds, map_selections-InBounds}
use tofu_hex_editor.Selection.Points.{
  point_at, map_points, Agree, map_each-Agree, map_selections_of_map_each,
}

-- No caret in the buffer comes near the end of the machine's range.
pub record Room (max_size bytes_per_line count : ℕ) : Type 0 where
  pub size_lt : max_size < half_word
  pub line_lt : bytes_per_line < half_word
  pub count_lt : count < half_word
  pub sum_lt : max_size + bytes_per_line * count < word

module _ (d : Direction) (bpl max_size count : ℕ) (room : Room max_size bpl count) where
  simple_move-point :
      (r : SelRegion)
      → max_size ≢ 0
      → max_of r ≤ max_size
      → simple_move r d bpl max_size count
        ≡ new (target d r.caret bpl max_size count) (target d r.caret bpl max_size count)
  unfolding simple_move
  simple_move-point r ne h =
      let k : InRange r.caret bpl count = omega arith in
      rw (caret_location-target d r.caret bpl max_size count k) (ground (arith, ne))

  simple_move-Agree :
      (rs : List SelRegion)
      → max_size ≢ 0
      → InBounds max_size rs
      → Agree
          (λ r. some (simple_move r d bpl max_size count))
          (point_at (λ c. target d c bpl max_size count))
          rs
  simple_move-Agree [] ne h = tt
  simple_move-Agree (r ∷ rs) ne h =
      (ap some (simple_move-point r ne h.0), simple_move-Agree rs ne h.1)

pub map_points-InBounds :
    (g : ℕ → ℕ) (b c : ℕ)
    → ((a : ℕ) → a ≤ b → g a ≤ c)
    → (sel sel' : Selection) → InBounds b sel.regions
    → map_each (point_at g) sel ≡ some sel'
    → InBounds c sel'.regions
map_points-InBounds g b c keep sel sel' h e =
    map_selections-InBounds (each (point_at g)) b c
      (λ r s s' rs k e'. rw (sym (some_fst e')) (omega (arith, keep r.caret (omega arith)), tt)) sel
      sel' tt tt h (map_selections_of_map_each (point_at g) sel e)

abbrev alone : SelRegion → Selection
alone r = record { regions = r ∷ []; main_selection = 0 }

-- In a buffer that is empty, a valid selection within it is one point at its start.
origin_lem :
    (sel : Selection)
    → IsValid sel
    → InBounds 0 sel.regions
    → (r : SelRegion) × (r.main ≡ true) × (max_of r ≤ 0) × (sel ≡ alone r)
origin_lem sel v b = one sel.regions sel.main_selection v.ordered v.one_main b
  where
    selected : List SelRegion → ℕ → Selection
    selected rs i = record { regions = rs; main_selection = i }

    one :
        (rs : List SelRegion) (i : ℕ)
        → IsOrdered rs
        → MarkedAt i rs
        → InBounds 0 rs
        → (r : SelRegion) × (r.main ≡ true) × (max_of r ≤ 0) × (selected rs i ≡ alone r)
    one [] i o m b = absurd m
    one (r ∷ []) zero o m b = (r, m.0, b.0, refl)
    one (r ∷ []) (suc i) o m b = absurd m.1
    one (r ∷ q ∷ rs) i o m b = absurd (omega (arith, o.0, b.1.0))

stay_lem :
    (f : SelRegion → Option SelRegion) (r : SelRegion)
    → f r ≡ some r
    → r.main ≡ true
    → map_each f (alone r) ≡ some (alone r)
unfolding map_each map_selections map_from push_all mark_last
stay_lem f r e m = rw e (ap (λ b. some (alone (record r { main = b }))) (sym m))

-- There a motion that leaves every region leaves the selection.
stay_at_origin :
    (f : SelRegion → Option SelRegion) (sel : Selection)
    → ((r : SelRegion) → f r ≡ some r)
    → IsValid sel
    → InBounds 0 sel.regions
    → map_each f sel ≡ some sel
stay_at_origin f sel stay v b =
    let (r, m, h, e) = origin_lem sel v b in rw e (stay_lem f r (stay r) m)

simple_move_zero :
    (r : SelRegion) (d : Direction) (bpl count : ℕ) → some (simple_move r d bpl 0 count) ≡ some r
unfolding simple_move
simple_move_zero r d bpl count = refl

jump_to_boundary_zero :
    (r : SelRegion) (d : Direction) (bpl : ℕ) → jump_to_boundary r d bpl 0 ≡ some r
unfolding jump_to_boundary
jump_to_boundary_zero r d bpl = refl

moved-IsValid :
    (d : Direction) (bpl max_size count : ℕ)
    → Room max_size bpl count
    → max_size ≢ 0
    → (sel : Selection) → IsValid sel
    → InBounds max_size sel.regions
    → (sel' : Selection) × (map_each (λ r. some (simple_move r d bpl max_size count)) sel
        ≡ some sel')
      × IsValid sel'
      × InBounds max_size sel'.regions
moved-IsValid d bpl max_size count room ne sel v h =
    let g = λ (c : ℕ). target d c bpl max_size count in
    let (sel', e, v') = map_points g (λ a b. target_mono d a b bpl max_size count) sel v in
    (
      sel',
      map_each-Agree _ (point_at g) sel
            (simple_move-Agree d bpl max_size count room sel.regions ne h)
          ∙ e,
      v',
      map_points-InBounds g max_size max_size (λ a. target-le d a bpl max_size count) sel sel' h e,
    )

-- Moving every caret of a valid selection within the buffer, in any direction, with room for the
-- size and the way in the machine's integers: nothing panics, and the new selection is valid and
-- within the buffer.
pub simple_move-IsValid :
    (d : Direction) (bpl max_size count : ℕ)
    → Room max_size bpl count
    → (sel : Selection) → IsValid sel
    → InBounds max_size sel.regions
    → (sel' : Selection) × (map_each (λ r. some (simple_move r d bpl max_size count)) sel
        ≡ some sel')
      × IsValid sel'
      × InBounds max_size sel'.regions
simple_move-IsValid d bpl zero count room sel v h =
    (sel, stay_at_origin _ sel (λ r. simple_move_zero r d bpl count) v h, v, h)
simple_move-IsValid d bpl (suc n) count room sel v h =
    moved-IsValid d bpl (suc n) count room (λ e. omega arith) sel v h

-- Jumping with a valid selection within the buffer to an offset in it: nothing panics, and the new
-- selection is valid and within the buffer.
pub jump_to-IsValid :
    (offset size : ℕ) (sel : Selection)
    → IsValid sel
    → InBounds size sel.regions
    → offset ≤ size
    → (sel' : Selection) × (map_each (λ r. some (jump_to r offset)) sel ≡ some sel')
      × IsValid sel'
      × InBounds size sel'.regions
jump_to-IsValid offset size sel v h le =
    let (sel', e, v') = map_points (λ c. offset) (λ a b h'. omega arith) sel v in
    (sel', e, v', map_points-InBounds (λ c. offset) size size (λ a k. le) sel sel' h e)

-- The position of `jump_to_boundary` in a buffer that is not empty.
abbrev pub boundary : Direction → ℕ → ℕ → ℕ → ℕ
boundary up c bpl max_size = 0
boundary down c bpl max_size = max_size - 1
boundary left c bpl max_size = c - c % bpl
boundary right c bpl max_size = min (c + bpl - c % bpl - 1) (max_size - 1)

line_start_mono : (a b k : ℕ) → 0 < k → a ≤ b → a - a % k ≤ b - b % k
line_start_mono a b k h le =
    let q : a / k ≤ b / k = (le-div_iff_mul-le h).1 (le_trans (div-mul-le_self a k) le) in
    let m : a / k * k ≤ b / k * k = grind arith in
    omega (arith, div-add-mod' a k, div-add-mod' b k, m)

boundary_mono :
    (d : Direction) (a b bpl max_size : ℕ)
    → 0 < bpl
    → a ≤ b
    → boundary d a bpl max_size ≤ boundary d b bpl max_size
boundary_mono up a b bpl max_size h le = omega arith
boundary_mono down a b bpl max_size h le = omega arith
boundary_mono left a b bpl max_size h le = line_start_mono a b bpl h le
boundary_mono right a b bpl max_size h le =
    omega (arith, line_start_mono a b bpl h le, mod-lt a h, mod-lt b h, mod-le a bpl, mod-le b bpl)

boundary-le :
    (d : Direction) (c bpl max_size : ℕ) → c ≤ max_size → boundary d c bpl max_size ≤ max_size
boundary-le up c bpl max_size h = omega arith
boundary-le down c bpl max_size h = omega arith
boundary-le left c bpl max_size h = omega arith
boundary-le right c bpl max_size h = omega arith

boundary_location-boundary :
    (d : Direction) (c bpl max_size : ℕ)
    → 0 < bpl
    → bpl < half_word
    → max_size ≢ 0
    → max_size < half_word
    → c ≤ max_size
    → boundary_location d c bpl max_size ≡ some (boundary d c bpl max_size)
unfolding boundary_location
boundary_location-boundary up c bpl max_size h k ne lt le = refl
boundary_location-boundary down c bpl max_size h k ne lt le = ap some (omega arith)
boundary_location-boundary left c bpl max_size h k ne lt le = ground (arith, mod-le c bpl)
boundary_location-boundary right c bpl max_size h k ne lt le =
    ground (arith, mod-le c bpl, mod-lt c h)

jump_to_boundary-point :
    (d : Direction) (bpl max_size : ℕ)
    → 0 < bpl
    → bpl < half_word
    → max_size ≢ 0
    → max_size < half_word
    → (r : SelRegion) → max_of r ≤ max_size
    → jump_to_boundary r d bpl max_size
      ≡ some (new (boundary d r.caret bpl max_size) (boundary d r.caret bpl max_size))
unfolding jump_to_boundary
jump_to_boundary-point d bpl max_size h k ne lt r le =
    rw (boundary_location-boundary d r.caret bpl max_size h k ne lt (omega arith))
      (ground (arith, ne))

jumped-IsValid :
    (d : Direction) (bpl max_size : ℕ)
    → 0 < bpl
    → bpl < half_word
    → max_size ≢ 0
    → max_size < half_word
    → (sel : Selection) → IsValid sel
    → InBounds max_size sel.regions
    → (sel' : Selection) × (map_each (λ r. jump_to_boundary r d bpl max_size) sel ≡ some sel')
      × IsValid sel'
      × InBounds max_size sel'.regions
jumped-IsValid d bpl max_size h k ne lt sel v b =
    let g = λ (c : ℕ). boundary d c bpl max_size in
    let (sel', e, v') = map_points g (λ a c. boundary_mono d a c bpl max_size h) sel v in
    (
      sel',
      map_each-Agree _ (point_at g) sel (agree sel.regions b) ∙ e,
      v',
      map_points-InBounds g max_size max_size (λ a. boundary-le d a bpl max_size) sel sel' b e,
    )
  where
    agree :
        (rs : List SelRegion)
        → InBounds max_size rs
        → Agree
            (λ r. jump_to_boundary r d bpl max_size)
            (point_at (λ c. boundary d c bpl max_size))
            rs
    agree [] b = tt
    agree (r ∷ rs) b = (jump_to_boundary-point d bpl max_size h k ne lt r b.0, agree rs b.1)

-- Jumping with a valid selection within the buffer to a boundary of the line or of the buffer does not
-- panic and gives a valid selection within the buffer, if there is at least one byte in a line, and size
-- and line fit in a signed word.
pub jump_to_boundary-IsValid :
    (d : Direction) (bpl max_size : ℕ)
    → 0 < bpl
    → bpl < half_word
    → max_size < half_word
    → (sel : Selection) → IsValid sel
    → InBounds max_size sel.regions
    → (sel' : Selection) × (map_each (λ r. jump_to_boundary r d bpl max_size) sel ≡ some sel')
      × IsValid sel'
      × InBounds max_size sel'.regions
jump_to_boundary-IsValid d bpl zero h k lt sel v b =
    (sel, stay_at_origin _ sel (λ r. jump_to_boundary_zero r d bpl) v b, v, b)
jump_to_boundary-IsValid d bpl (suc n) h k lt sel v b =
    jumped-IsValid d bpl (suc n) h k (λ e. omega arith) lt sel v b

-- A selection of two points on both sides of an offset: extending both to it, as a count before `G`
-- does, panics.
pub extend_to_panics :
    (a b offset : ℕ)
    → a < offset
    → offset < b
    → map_each
        (λ r. some (extend_to r offset))
        (record { regions = marked (new a a) ∷ new b b ∷ []; main_selection = 0 })
      ≡ none
unfolding map_each map_selections map_from push_all mark_last merge
extend_to_panics a b offset h k = ground arith
