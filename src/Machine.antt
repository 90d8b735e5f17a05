-- ===== src/Machine.antt =====
-- `usize` and `isize` on a 64-bit target, as a release build computes with them: `+`, `-` and `as`
-- wrap, `saturating_mul` stops at the ends of the range.
use tofu_hex_editor.Prelude.{
  Option, none, some, ◌==◌, ◌/◌, ℕ, ◌+◌, ◌-◌, ◌*◌, ◌%◌, ◌<◌, min, ◌≡◌, arith, ltb, if◌then◌else◌,
}
use tofu_hex_editor.Prelude.Int.{ℤ, pos, negsuc, ◌+ℤ◌, ◌-ℤ◌, ◌*ℤ◌}

abbrev pub word : ℕ
word = 18446744073709551616

abbrev pub half_word : ℕ
half_word = 9223372036854775808

abbrev pub add_usize : ℕ → ℕ → ℕ
add_usize a b = (a + b) % word

-- `a - b` for b < 2 ^ 64.
abbrev pub sub_usize : ℕ → ℕ → ℕ
sub_usize a b = (a + word - b) % word

abbrev pub mul_usize : ℕ → ℕ → ℕ
mul_usize a b = (a * b) % word

abbrev pub saturating_mul_usize : ℕ → ℕ → ℕ
saturating_mul_usize a b = min (a * b) (word - 1)

-- `n as isize`
abbrev pub as_isize : ℕ → ℤ
as_isize n = if ltb n half_word then pos n else negsuc (word - n - 1)

-- `z as usize`
abbrev pub as_usize : ℤ → ℕ
as_usize (pos n) = n % word
as_usize (negsuc n) = word - 1 - n % word

abbrev pub add_isize : ℤ → ℤ → ℤ
add_isize a b = as_isize (as_usize (a +ℤ b))

abbrev pub sub_isize : ℤ → ℤ → ℤ
sub_isize a b = as_isize (as_usize (a -ℤ b))

abbrev saturate : ℤ → ℤ
saturate (pos n) = pos (min n (half_word - 1))
saturate (negsuc n) = negsuc (min n (half_word - 1))

unfoldable pub saturating_mul_isize : ℤ → ℤ → ℤ
saturating_mul_isize a b = saturate (a *ℤ b)

-- `cmp::max(0, z)`
abbrev pub max_zero : ℤ → ℤ
max_zero (pos n) = pos n
max_zero (negsuc n) = pos 0

-- What a cursor that goes back by `m * c` computes: a subtraction that stops at 0.
pub move_back :
    (a m c : ℕ)
    → a < half_word
    → m < half_word
    → c < half_word
    → as_usize (max_zero (sub_isize (as_isize a) (saturating_mul_isize (as_isize m) (as_isize c))))
      ≡ a - m * c
unfolding saturating_mul_isize ◌-ℤ◌ ◌*ℤ◌
move_back a m c ha hm hc = ground arith

-- The same, by `c` alone.
pub step_back :
    (a c : ℕ)
    → a < half_word
    → c < half_word
    → as_usize (max_zero (sub_isize (as_isize a) (as_isize c))) ≡ a - c
unfolding ◌-ℤ◌
step_back a c ha hc = ground arith

-- `u16`
abbrev pub sub_u16 : ℕ → ℕ → ℕ
sub_u16 a b = (a + 65536 - b) % 65536

-- `/` and `%` on `usize`, which panic for a zero divisor.
abbrev pub div_usize : ℕ → ℕ → Option ℕ
div_usize a b = if b == 0 then none else some (a / b)

abbrev pub rem_usize : ℕ → ℕ → Option ℕ
rem_usize a b = if b == 0 then none else some (a % b)

-- `/` on `isize`, which rounds towards zero, and `abs`
abbrev pub div_isize : ℤ → ℕ → Option ℤ
div_isize a b =
    if b == 0
    then none
    else some (elim a [ pos n ↦ pos (n / b) | negsuc n ↦ pos 0 -ℤ pos ((n + 1) / b) ])

abbrev pub abs_isize : ℤ → ℕ
abs_isize (pos n) = n
abs_isize (negsuc n) = n + 1

abbrev pub as_u16 : ℕ → ℕ
as_u16 n = n % 65536
