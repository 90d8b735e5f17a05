-- ===== src/Modes/Defs.antt =====
-- The modes and their transitions (src/modes/mode.rs), with the fields of the types in src/modes.
use tofu_hex_editor.Prelude.{ℕ, Bool, Option, some, ◌>>=◌, List}
use tofu_hex_editor.Xi.{Xi}
use tofu_hex_editor.CmdCount.{State}
use tofu_hex_editor.Selection.Region.{SelRegion}
use tofu_hex_editor.Selection.Defs.{each}
use tofu_hex_editor.Buffer.{CurrentBuffer, DirtyBytes, map_selections}

pub data PatternPiece : Type 0 where
  literal : ℕ → PatternPiece
  wildcard : PatternPiece

pub data InsertionMode : Type 0 where
  insertion append overwrite : InsertionMode

-- The types that implement `SearchAcceptor`.
pub data Acceptor : Type 0 where
  split_by : State → Acceptor
  collapse_to : Acceptor

pub data Mode : Type 0 where
  normal : State → Mode
  insert : InsertionMode → Bool → Option ℕ → Mode
  jump_to : Bool → Mode
  replace : Bool → Option ℕ → Mode
  split : State → Mode
  search : List PatternPiece → ℕ → Bool → Option ℕ → Acceptor → Mode
  command : List ℕ → ℕ → Mode
  quitting : Mode

-- The messages of the status line; the texts of the system's errors are left out.
pub data Info : Type 0 where
  measured : ℕ → Info
  nothing_left_to_undo nothing_left_to_redo : Info
  unsaved_changes write_failed no_path edit_failed buffer_is_dirty : Info
  unknown_command : List ℕ → Info

pub data ModeTransition : Type 0 where
  none : ModeTransition
  new_mode : Mode → ModeTransition
  dirty_bytes : DirtyBytes → ModeTransition
  mode_and_dirty_bytes : Mode → DirtyBytes → ModeTransition
  mode_and_info : Mode → Info → ModeTransition

module _ (X : Xi) where
  -- An action on the current buffer that may panic.
  abbrev pub Outcome : Type 0
  Outcome = Option (ModeTransition × CurrentBuffer X)

  -- What `transition` returns: nothing if the mode does not take the event.
  abbrev pub Reply : Type 0
  Reply = Option (Option ModeTransition × CurrentBuffer X)

  abbrev pub taken : Outcome → Reply
  taken o = o >>= λ (t, buf). some (some t, buf)

  abbrev pub not_taken : CurrentBuffer X → Reply
  not_taken buf = some (Option.none, buf)

  abbrev pub stay : CurrentBuffer X → ModeTransition → Outcome
  stay buf t = some (t, buf)

  -- `new_mode_and_dirty(mode, …)` over a method that returns the dirty bytes
  abbrev pub go_dirty : Mode → Option (CurrentBuffer X × DirtyBytes) → Outcome
  go_dirty mode o = o >>= λ (buf, dirty). some (mode_and_dirty_bytes mode dirty, buf)

  -- `ModeTransition::DirtyBytes(…)`
  abbrev pub only_dirty : Option (CurrentBuffer X × DirtyBytes) → Outcome
  only_dirty o = o >>= λ (buf, dirty). some (dirty_bytes dirty, buf)

  -- `current_buffer.map_selections(|region| vec![…])`
  abbrev pub map_each_region :
      (SelRegion → Option SelRegion) → CurrentBuffer X → Option (CurrentBuffer X × DirtyBytes)
  map_each_region f buf =
      map_selections X (each f) buf tt >>= λ (buf', dirty, s). some (buf', dirty)
