-- ===== src/Selection/Region.antt =====
-- src/selection.rs: `SelRegion`, one selected range with its caret. A panic is `none`.
use tofu_hex_editor.Prelude.{
  ℕ, ◌%◌, min, max, Bool, true, false, ◌&&◌, ◌||◌, Option, none, some, ◌>>=◌, leb, ◌==◌,
  if◌then◌else◌,
}
use tofu_hex_editor.Machine.{
  add_usize, sub_usize, saturating_mul_usize, as_isize, as_usize, sub_isize, saturating_mul_isize,
  max_zero,
}

pub data Direction : Type 0 where
  up down left right : Direction

pub record SelRegion : Type 0 where
  pub caret : ℕ
  pub tail : ℕ
  pub main : Bool

-- `SelRegion::new`
abbrev pub new : ℕ → ℕ → SelRegion
new c t = record { caret = c; tail = t; main = false }

abbrev pub max_of : SelRegion → ℕ
max_of r = max r.caret r.tail

abbrev pub min_of : SelRegion → ℕ
min_of r = min r.caret r.tail

-- `SelRegion::len`
unfoldable pub len_of : SelRegion → ℕ
len_of r = add_usize (sub_usize (max_of r) (min_of r)) 1

abbrev pub overlaps : SelRegion → SelRegion → Bool
overlaps r other = leb (min_of other) (max_of r)

unfoldable pub with_direction : SelRegion → Bool → SelRegion
with_direction r backward =
    if backward then new (min_of r) (max_of r) else new (max_of r) (min_of r)

-- The `match direction` that `simple_move` and `simple_extend` share.
unfoldable pub caret_location : Direction → ℕ → ℕ → ℕ → ℕ → ℕ
caret_location up old_caret bytes_per_line max_size count = as_usize (
    max_zero (
      sub_isize (as_isize old_caret)
        (saturating_mul_isize (as_isize bytes_per_line) (as_isize count))))
caret_location down old_caret bytes_per_line max_size count =
    min max_size (add_usize old_caret (saturating_mul_usize bytes_per_line count))
caret_location left old_caret bytes_per_line max_size count =
    as_usize (max_zero (sub_isize (as_isize old_caret) (as_isize count)))
caret_location right old_caret bytes_per_line max_size count =
    min max_size (add_usize old_caret count)

unfoldable pub simple_move : SelRegion → Direction → ℕ → ℕ → ℕ → SelRegion
simple_move r direction bytes_per_line max_size count =
    let c = caret_location direction r.caret bytes_per_line max_size count in
    if max_size == 0 then r else new c c

unfoldable pub simple_extend : SelRegion → Direction → ℕ → ℕ → ℕ → SelRegion
simple_extend r direction bytes_per_line max_size count =
    if max_size == 0
    then r
    else new (caret_location direction r.caret bytes_per_line max_size count) r.tail

abbrev pub jump_to : SelRegion → ℕ → SelRegion
jump_to r offset = new offset offset

abbrev pub extend_to : SelRegion → ℕ → SelRegion
extend_to r offset = new offset r.tail

-- `caret % bytes_per_line`: a division by zero panics.
abbrev column : ℕ → ℕ → Option ℕ
column c bytes_per_line = if bytes_per_line == 0 then none else some (c % bytes_per_line)

-- The `match direction` that the two `…_to_boundary` functions share.
unfoldable pub boundary_location : Direction → ℕ → ℕ → ℕ → Option ℕ
boundary_location up c bytes_per_line max_size = some 0
boundary_location down c bytes_per_line max_size = some (sub_usize max_size 1)
boundary_location left c bytes_per_line max_size = do
  k ← column c bytes_per_line
  some (sub_usize c k)
boundary_location right c bytes_per_line max_size = do
  k ← column c bytes_per_line
  some (min (sub_usize (sub_usize (add_usize c bytes_per_line) k) 1) (sub_usize max_size 1))

unfoldable pub jump_to_boundary : SelRegion → Direction → ℕ → ℕ → Option SelRegion
jump_to_boundary r direction bytes_per_line max_size =
    if max_size == 0
    then some r
    else do c ← boundary_location direction r.caret bytes_per_line max_size; some (new c c)

unfoldable pub extend_to_boundary : SelRegion → Direction → ℕ → ℕ → Option SelRegion
extend_to_boundary r direction bytes_per_line max_size =
    if max_size == 0
    then some r
    else do c ← boundary_location direction r.caret bytes_per_line max_size; some (new c r.tail)

abbrev pub swap_caret : SelRegion → SelRegion
swap_caret r = new r.tail r.caret

abbrev pub collapse : SelRegion → SelRegion
collapse r = new r.caret r.caret

abbrev pub forward : SelRegion → Bool
forward r = leb r.tail r.caret

abbrev pub backward : SelRegion → Bool
backward r = leb r.caret r.tail

abbrev pub to_backward : SelRegion → SelRegion
to_backward r = new (min_of r) (max_of r)

abbrev pub to_forward : SelRegion → SelRegion
to_forward r = new (max_of r) (min_of r)

-- The `match (both_forward, both_backward)` of `merge`, with its assertion and its panic.
abbrev merged : Bool → Bool → SelRegion → SelRegion → Option SelRegion
merged true true r other = if r.caret == other.caret then some r else none
merged true false r other = some (new (max r.caret other.caret) (min r.tail other.tail))
merged false true r other = some (new (min r.caret other.caret) (max r.tail other.tail))
merged false false r other = none

unfoldable pub merge : SelRegion → SelRegion → Option SelRegion
merge r other = do
  m ← merged (forward r && forward other) (backward r && backward other) r other
  some (if r.main || other.main then record m { main = true } else m)

abbrev pub inherit_direction : SelRegion → SelRegion → SelRegion
inherit_direction r parent = if forward parent then to_forward r else to_backward r

unfoldable pub split_at_region : SelRegion → ℕ → ℕ → Option SelRegion × Option SelRegion
split_at_region r start end =
    if leb start (min_of r)
    then (if leb (max_of r) end
        then (none, none)
        else (none, some (inherit_direction (new (add_usize end 1) (max_of r)) r)))
    else (if leb (max_of r) end
        then (some (inherit_direction (new (min_of r) (sub_usize start 1)) r), none)
        else (some (new (min_of r) (sub_usize start 1)), some (new (add_usize end 1) (max_of r))))
