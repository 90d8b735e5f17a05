-- ===== src/Tests/Commands.antt =====
-- The theorems on the commands of normal mode.
use tofu_hex_editor.Prelude.{◌≡◌, refl, true, false, none, some, [], ◌∷◌, arith, replicate}
use tofu_hex_editor.CmdCount.{State}
use tofu_hex_editor.Selection.Region.{Direction, new}
use tofu_hex_editor.Selection.Defs.{marked}
use tofu_hex_editor.Buffer.{CurrentBuffer, DirtyBytes, from_data_and_path}
use tofu_hex_editor.Modes.Defs.{mode_and_dirty_bytes}
use tofu_hex_editor.Modes.Normal.{act, move, jump_to_mode, new as normal_mode}
use tofu_hex_editor.Modes.Normal.Moves.{IsEditable, act_move-IsEditable, act_jump-IsEditable}
use tofu_hex_editor.Tests.Reference.{reference}

-- Forty bytes with the regions from 3 to 1, and from 5 to 9.
abbrev forty : CurrentBuffer reference
forty = record (from_data_and_path reference (replicate 40 7) none) {
  selection = record { regions = new 3 1 ∷ marked (new 9 5) ∷ []; main_selection = 1 };
}

forty-IsEditable : IsEditable reference forty
forty-IsEditable = record {
  valid = record { ordered = omega arith; one_main = (refl, (refl, tt)) };
  within = omega arith;
}

act_move-IsEditable_example :
    (buf' : CurrentBuffer reference) × (dirty : DirtyBytes) × (act reference
        (move Direction.down)
        (State.some false 2)
        16
        forty
      ≡ some (mode_and_dirty_bytes normal_mode dirty, buf'))
    × IsEditable reference buf'
    × (buf'.text ≡ forty.text)
act_move-IsEditable_example =
    act_move-IsEditable reference Direction.down (State.some false 2) 16 forty (omega arith)
      forty-IsEditable

act_jump-IsEditable_example :
    (buf' : CurrentBuffer reference) × (dirty : DirtyBytes) × (act reference jump_to_mode
        (State.some true 0x1f)
        16
        forty
      ≡ some (mode_and_dirty_bytes normal_mode dirty, buf'))
    × IsEditable reference buf'
    × (buf'.text ≡ forty.text)
act_jump-IsEditable_example =
    act_jump-IsEditable reference true 0x1f 16 forty (omega arith) forty-IsEditable
