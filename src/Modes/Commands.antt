-- ===== src/Modes/Commands.antt =====
-- The module `cmd` of src/modes/command.rs: what the commands do to the buffers and the files.
pub mod Saving
pub mod Written
use tofu_hex_editor.Prelude.{
  ℕ, ◌==◌, Bool, true, false, ◌&&◌, ◌||◌, Option, some, ◌>>=◌, List, [], ◌∷◌, ◌++◌, if◌then◌else◌,
}
use tofu_hex_editor.Printing.{codes}
use tofu_hex_editor.Xi.{Xi}
use tofu_hex_editor.Buffer.{CurrentBuffer, FilePath, change_length, update_path_if_missing}
use tofu_hex_editor.Buffer.Collection.{
  Disk, BuffrCollection, current, set_current, same_path, switch_current_buffer, delete_current,
}
use tofu_hex_editor.Modes.Defs.{
  quitting, new_mode, mode_and_info, mode_and_dirty_bytes, ModeTransition, unsaved_changes,
  write_failed, no_path, edit_failed, buffer_is_dirty,
}
use tofu_hex_editor.Modes.Normal.{new}

-- The files of the system: `canonicalize` and `read` of them, and `std::fs::write`, with false for an
-- error, which may have changed the files too.
pub record FileSystem : Type 1 where
  pub Files : Type 0
  pub disk : Files → Disk
  pub write : Files → FilePath → List ℕ → Files × Bool

-- The functions of the module `cmd`.
pub data Handler : Type 0 where
  quit force_quit write write_all write_quit edit : Handler
  delete_current_buffer force_delete_current_buffer : Handler

abbrev pub default_commands : List (List ℕ × Handler)
default_commands =
    (codes "q", quit)
    ∷ (codes "quit", quit)
    ∷ (codes "q!", force_quit)
    ∷ (codes "quit!", force_quit)
    ∷ (codes "w", write)
    ∷ (codes "write", write)
    ∷ (codes "wq", write_quit)
    ∷ (codes "wa", write_all)
    ∷ (codes "write-all", write_all)
    ∷ (codes "e", edit)
    ∷ (codes "edit", edit)
    ∷ (codes "db", delete_current_buffer)
    ∷ (codes "delete-current_buffer", delete_current_buffer)
    ∷ (codes "db!", force_delete_current_buffer)
    ∷ (codes "delete-current_buffer!", force_delete_current_buffer)
    ∷ []

unfoldable pub find_command : List ℕ → List (List ℕ × Handler) → Option Handler
unfolding same_path
find_command name [] = Option.none
find_command name ((n, h) ∷ commands) =
    if same_path n name then some h else find_command name commands

module _ (X : Xi) (F : FileSystem) where
  -- The transition with the buffers and the files after it; none is a panic.
  abbrev pub Result : Type 0
  Result = Option (ModeTransition × BuffrCollection X × F.Files)

  -- `x.dirty && x.path.is_some()`
  abbrev pub is_unsaved : CurrentBuffer X → Bool
  is_unsaved buf = elim buf.path [ some path ↦ buf.dirty | Option.none ↦ false ]

  unfoldable pub any_unsaved : List (CurrentBuffer X) → Bool
  any_unsaved [] = false
  any_unsaved (buf ∷ list) = is_unsaved buf || any_unsaved list

  abbrev pub update_written :
      BuffrCollection X → CurrentBuffer X → FilePath → F.Files × Bool → Result
  update_written c buf path (files, true) = some (
    new_mode new,
    set_current X c (update_path_if_missing X (record buf { dirty = false }) path),
    files,
  )
  update_written c buf path (files, false) = some (mode_and_info new write_failed, c, files)

  -- An error leaves the buffers as they are.
  abbrev pub write_to : BuffrCollection X → F.Files → CurrentBuffer X → Option FilePath → Result
  write_to c files buf Option.none = some (mode_and_info new no_path, c, files)
  write_to c files buf (some path) = update_written c buf path (F.write files path buf.text)

  -- The path to write to: the argument, or that of the buffer if the argument is empty.
  abbrev target_path : List ℕ → CurrentBuffer X → Option FilePath
  target_path [] buf = buf.path
  target_path (ch ∷ filename) buf = some (ch ∷ filename)

  -- The files, the buffers and whether no error ended the loop of `write_all` and `write_quit`.
  abbrev pub Looped : Type 0
  Looped = F.Files × List (CurrentBuffer X) × Bool

  abbrev pub behind : CurrentBuffer X → Looped → Looped
  behind buf (files, list, done) = (files, buf ∷ list, done)

  abbrev pub wrote :
      F.Files × Bool → CurrentBuffer X → List (CurrentBuffer X) → (F.Files → Looped) → Looped
  wrote (files, true) buf list go_on = behind (record buf { dirty = false }) (go_on files)
  wrote (files, false) buf list go_on = (files, buf ∷ list, false)

  abbrev pub save_first :
      Option FilePath
      → F.Files
      → CurrentBuffer X
      → List (CurrentBuffer X)
      → (F.Files → Looped)
      → Looped
  save_first Option.none files buf list go_on = behind buf (go_on files)
  save_first (some path) files buf list go_on = wrote (F.write files path buf.text) buf list go_on

  -- The loop, which returns at the first error.
  unfoldable pub save_all : F.Files → List (CurrentBuffer X) → Looped
  save_all files [] = (files, [], true)
  save_all files (buf ∷ list) = save_first buf.path files buf list (λ files'. save_all files' list)

  abbrev pub update_saved : BuffrCollection X → ModeTransition → Looped → Result
  update_saved c after (files, list, done) =
      some (if done then after else mode_and_info new write_failed, record c { list = list }, files)

  abbrev deleted : BuffrCollection X → F.Files → Result
  deleted c files =
      delete_current X c >>= λ c'. some (mode_and_dirty_bytes new change_length, c', files)

  unfoldable pub run : Handler → BuffrCollection X → List ℕ → F.Files → Result
  unfolding any_unsaved save_all
  run quit c rest files =
      if any_unsaved c.list
      then some (mode_and_info new unsaved_changes, c, files)
      else some (new_mode quitting, c, files)
  run force_quit c rest files = some (new_mode quitting, c, files)
  run write c filename files =
      current X c >>= λ buf. write_to c files buf (target_path filename buf)
  run write_all c rest files = update_saved c (new_mode new) (save_all files c.list)
  run write_quit c rest files = update_saved c (new_mode quitting) (save_all files c.list)
  run edit c filename files = elim (switch_current_buffer X (F.disk files) c filename) [
    | some c' ↦ some (mode_and_dirty_bytes new change_length, c', files)
    | Option.none ↦ some (mode_and_info new edit_failed, c, files)
  ]
  run delete_current_buffer c rest files = current X c >>= λ buf.
      if is_unsaved buf then some (mode_and_info new buffer_is_dirty, c, files) else deleted c files
  run force_delete_current_buffer c rest files = deleted c files
