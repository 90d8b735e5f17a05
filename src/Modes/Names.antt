-- ===== src/Modes/Names.antt =====
-- The `name` functions of the modes in src/modes, which the status line shows.
use tofu_hex_editor.Prelude.{ℕ, ◌/◌, Bool, true, false, Option, List, ◌++◌, ◌==◌, if◌then◌else◌}
use tofu_hex_editor.Printing.{codes, decimal, hexadecimal}
use tofu_hex_editor.CmdCount.{State, none, some}
use tofu_hex_editor.Modes.Defs.{
  Mode, normal, insert, jump_to, replace, split, search, command, quitting, InsertionMode,
  insertion, append, overwrite, Acceptor, split_by, collapse_to,
}

-- `Display` of a count
abbrev pub show_count : State → List ℕ
show_count none = codes ""
show_count (some true count) =
    if count == 0 then codes " (0x)" else codes " (0x" ++ hexadecimal 16 count ++ codes ")"
show_count (some false count) = codes " (" ++ decimal 20 count ++ codes ")"

abbrev split_name : State → List ℕ
split_name count_state = codes "SPLIT" ++ show_count count_state

abbrev acceptor_name : Acceptor → List ℕ
acceptor_name (split_by count_state) = split_name count_state
acceptor_name collapse_to = codes "COLLAPSE"

abbrev insert_name : InsertionMode → Bool → List ℕ
insert_name insertion true = codes "INSERT (hex)"
insert_name insertion false = codes "INSERT (ascii)"
insert_name append true = codes "APPEND (hex)"
insert_name append false = codes "APPEND (ascii)"
insert_name overwrite true = codes "OVERWRITE (hex)"
insert_name overwrite false = codes "OVERWRITE (ascii)"

unfoldable pub name : Mode → List ℕ
name (normal count_state) = codes "NORMAL" ++ show_count count_state
name (insert mode hex hex_half) = insert_name mode hex
name (jump_to extend) = if extend then codes "EXTEND" else codes "JUMP"
name (replace true Option.none) = codes "REPLACE (hex)"
name (replace false hex_half) = codes "REPLACE (ascii)"
name (replace true (Option.some ch)) =
    codes "REPLACE (hex: " ++ hexadecimal 2 (ch / 16) ++ codes "...)"
name (split count_state) = split_name count_state
name (search pieces cursor hex hex_half next) = acceptor_name next
name (command line cursor) = codes "COMMAND"
name quitting = codes "QUITTING"
