-- ===== src/Selection/Motion.antt =====
-- What the motions of one region do, as long as no number comes near 2 ^ 63.
use tofu_hex_editor.Prelude.{ℕ, ◌+◌, ◌-◌, ◌*◌, ◌≤◌, ◌<◌, min, ◌≡◌, arith}
use tofu_hex_editor.Machine.{word, half_word, move_back, step_back}
use tofu_hex_editor.Selection.Region.{Direction, up, down, left, right, caret_location}

-- The arguments of a motion are within the machine's range.
pub record InRange (c bytes_per_line count : ℕ) : Type 0 where
  pub caret_lt : c < half_word
  pub line_lt : bytes_per_line < half_word
  pub count_lt : count < half_word
  pub sum_lt : c + bytes_per_line * count < word

-- The position that a motion means: back to 0 at most, forth to `max_size` at most.
abbrev pub target : Direction → ℕ → ℕ → ℕ → ℕ → ℕ
target up c bpl max_size count = c - bpl * count
target down c bpl max_size count = min max_size (c + bpl * count)
target left c bpl max_size count = c - count
target right c bpl max_size count = min max_size (c + count)

-- In range, `caret_location` computes the position meant.
pub caret_location-target :
    (d : Direction) (c bpl max_size count : ℕ)
    → InRange c bpl count
    → caret_location d c bpl max_size count ≡ target d c bpl max_size count
unfolding caret_location
caret_location-target up c bpl max_size count h =
    move_back c bpl count h.caret_lt h.line_lt h.count_lt
caret_location-target down c bpl max_size count h = omega arith
caret_location-target left c bpl max_size count h = step_back c count h.caret_lt h.count_lt
caret_location-target right c bpl max_size count h = omega arith

pub target_mono :
    (d : Direction) (a b bpl max_size count : ℕ)
    → a ≤ b
    → target d a bpl max_size count ≤ target d b bpl max_size count
target_mono up a b bpl max_size count h = omega arith
target_mono down a b bpl max_size count h = omega arith
target_mono left a b bpl max_size count h = omega arith
target_mono right a b bpl max_size count h = omega arith

-- A caret within the buffer stays within it.
pub target-le :
    (d : Direction) (c bpl max_size count : ℕ)
    → c ≤ max_size
    → target d c bpl max_size count ≤ max_size
target-le up c bpl max_size count h = omega arith
target-le down c bpl max_size count h = omega arith
target-le left c bpl max_size count h = omega arith
target-le right c bpl max_size count h = omega arith
