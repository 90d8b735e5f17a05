-- ===== src/Tests/Counts.antt =====
-- The theorems on typed counts, and the key map of src/cmd_count.rs.
use tofu_hex_editor.Prelude.{◌≡◌, refl, true, false, [], ◌∷◌, arith}
use tofu_hex_editor.Keys.{key, on_char, event_to_action}
use tofu_hex_editor.CmdCount.{none, some, update, transition}
use tofu_hex_editor.CmdCount.Digits.{enter, enter-value}

enter-value_example : enter none (4 ∷ 0 ∷ 2 ∷ []) ≡ some false 402
enter-value_example = enter-value 4 (0 ∷ 2 ∷ []) (omega arith) (omega arith)

-- `x` and then `f` enter fifteen.
hexadecimal : transition (some true 0) (key (on_char b'f')) ≡ update (some true 15)
unfolding transition event_to_action
hexadecimal = refl
