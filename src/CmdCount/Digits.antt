-- ===== src/CmdCount/Digits.antt =====
-- The number that a row of decimal digits enters in src/cmd_count.rs.
use tofu_hex_editor.Prelude.{
  ℕ, ◌+◌, ◌*◌, ◌≤◌, ◌<◌, ◌≡◌, refl, false, List, [], ◌∷◌, arith, ◌==◌, if◌then◌else◌,
}
use tofu_hex_editor.Machine.{word}
use tofu_hex_editor.CmdCount.{
  State, none, some, append_digit, remove_last, Transition, not_handled, update, act,
}

-- The state that the modes go on with.
abbrev pub after : Transition → State → State
after not_handled s = s
after (update t) s = t

-- The digits typed one after the other.
abbrev pub enter : State → List ℕ → State
enter s [] = s
enter s (d ∷ ds) = enter (after (act s (append_digit d)) s) ds

abbrev pub Digits : List ℕ → Type 0
Digits [] = Unit
Digits (d ∷ ds) = (d ≤ 9) × Digits ds

-- The number that the digits stand for behind those of `n`.
abbrev pub value : ℕ → List ℕ → ℕ
value n [] = n
value n (d ∷ ds) = value (n * 10 + d) ds

le-value : (n : ℕ) (ds : List ℕ) → n ≤ value n ds
le-value n [] = omega arith
le-value n (d ∷ ds) = omega (arith, le-value (n * 10 + d) ds)

append_decimal :
    (n d : ℕ)
    → d ≤ 9
    → n * 10 + d < word
    → act (some false n) (append_digit d) ≡ update (some false (n * 10 + d))
unfolding act
append_decimal n d h lt = ground arith

enter-value_from :
    (n : ℕ) (ds : List ℕ)
    → Digits ds
    → value n ds < word
    → enter (some false n) ds ≡ some false (value n ds)
enter-value_from n [] h lt = refl
enter-value_from n (d ∷ ds) h lt =
    rw (append_decimal n d h.0 (omega (arith, le-value (n * 10 + d) ds)))
      (enter-value_from (n * 10 + d) ds h.1 lt)

-- Decimal digits typed from the empty state, at least one, enter the number that they stand for, if
-- it fits in a word.
pub enter-value :
    (d : ℕ) (ds : List ℕ)
    → Digits (d ∷ ds)
    → value 0 (d ∷ ds) < word
    → enter none (d ∷ ds) ≡ some false (value 0 (d ∷ ds))
enter-value d ds h lt = rw (first_digit d h.0) (enter-value_from (0 * 10 + d) ds h.1 lt)
  where
    first_digit : (d : ℕ) → d ≤ 9 → act none (append_digit d) ≡ update (some false (0 * 10 + d))
    first_digit d h = unfold act in ground arith

-- Backspace behind a decimal digit that fits in a word takes it back: the count before it returns,
-- and where that count was 0 the entry ends.
pub remove_last-append_digit :
    (n d : ℕ)
    → d ≤ 9
    → n * 10 + d < word
    → after (act (after (act (some false n) (append_digit d)) (some false n)) remove_last) none
      ≡ (if n == 0 then none else some false n)
remove_last-append_digit n d h lt = rw (append_decimal n d h lt) (unfold act in ground arith)
