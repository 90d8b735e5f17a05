-- ===== src/Tests/CommandLine.antt =====
-- The theorems on the command line and on its commands.
use tofu_hex_editor.Prelude.{
  ℕ, ◌*◌, ◌-◌, ◌≤◌, ◌≡◌, ◌≢◌, ◌↔◌, refl, sym, ap, ◌∙◌, true, false, Option, none, some, List, [],
  ◌∷◌, length, take, drop, arith, Bool-cases, inl, inr, if◌then◌else◌,
}
use tofu_hex_editor.Buffer.{FilePath, from_data_and_path}
use tofu_hex_editor.Buffer.Collection.{BuffrCollection, same_path}
use tofu_hex_editor.Buffer.Collection.Switch.{same_path_refl, eq_of_same_path}
use tofu_hex_editor.Modes.Defs.{quitting, ModeTransition, new_mode}
use tofu_hex_editor.Modes.Normal.{new}
use tofu_hex_editor.Modes.Commands.{FileSystem, quit, write_all, write, run, save_all}
use tofu_hex_editor.Modes.Commands.Saving.{AreSaved, run_quit-AreSaved}
use tofu_hex_editor.Modes.Commands.Written.{FileSystemLaws, AreHeld, run_write_all-AreHeld}
use tofu_hex_editor.Keys.{key, typing, event_to_action}
use tofu_hex_editor.Modes.Command.{
  Typing, act, type_char, remove_this, finish, default_maps, transition,
}
use tofu_hex_editor.Modes.Command.Keys.{KeepsLine, transition-KeepsLine}
use tofu_hex_editor.Modes.Command.Line.{IsLine, act_panics}
use tofu_hex_editor.Entry.{start_buffers}
use tofu_hex_editor.Entry.Truncated.{start_buffers-write}
use tofu_hex_editor.Tests.Reference.{reference}
use tofu_hex_editor.Tests.Files.{name, contents, whole, whole_reads}

abbrev wq : Typing
wq = record { command = b'w' ∷ b'q' ∷ []; cursor = 1 }

abbrev wq-IsLine : IsLine wq
wq-IsLine = record { ascii = (omega arith, (omega arith, tt)); within = omega arith }

abbrev e_line : Typing
e_line = record { command = b'e' ∷ []; cursor = 1 }

act_panics_example :
    (act remove_this e_line ≡ none)
    × ((t' : Typing) × (type_char e_line 0xe9 ≡ some t') × (type_char t' b'a' ≡ none))
act_panics_example = act_panics e_line 0xe9 b'a' refl (omega arith)

-- A path without `./` before it.
abbrev resolved : FilePath → FilePath
resolved path = if same_path (take 2 path) (b'.' ∷ b'/' ∷ []) then drop 2 path else path

-- Files in memory, which have the same name with and without `./`.
abbrev memory : FileSystem
memory = record {
  Files = FilePath → Option (List ℕ);
  disk = λ files. record {
    canonicalize = λ path. some (resolved path);
    read = λ path. files (resolved path);
  };
  write = λ files path bytes.
      ((λ p. if same_path (resolved path) p then some bytes else files p), true);
}

-- The file that a path names, if there is one.
abbrev named : Option (List ℕ) → FilePath → Option FilePath
named none path = none
named (some bytes) path = some path

-- What a path holds behind a write to another one.
abbrev behind_write : FilePath → FilePath → List ℕ → Option (List ℕ) → Option (List ℕ)
behind_write path other bytes old = if same_path path other then some bytes else old

named_kept :
    (path other : FilePath) (bytes : List ℕ) (old : Option (List ℕ)) (file : FilePath)
    → named old other ≡ some file
    → named (behind_write path other bytes old) other ≡ some file
named_kept path other bytes none file h = cc
named_kept path other bytes (some old) file h = elim (Bool-cases (same_path path other)) [
  | inl t ↦ rw t h
  | inr f ↦ rw f h
]

other_kept :
    (path other : FilePath) (bytes : List ℕ) (before old : Option (List ℕ))
    → named (behind_write path path bytes before) path
      ≢ named (behind_write path other bytes old) other
    → behind_write path other bytes old ≡ old
other_kept path other bytes before old ne = elim (Bool-cases (same_path path other)) [
  | inl t ↦
      let same = eq_of_same_path path other t in
      absurd (ne (rw (same_path_refl path) (rw t (ap some same))))
  | inr f ↦ rw f refl
]

memory_laws : FileSystemLaws memory
memory_laws = record {
  File = FilePath;
  file_at = λ files path. named (files (resolved path)) (resolved path);
  file_at_written = λ files files' path bytes h. (
    resolved path,
    ap (λ r. named (r.0 (resolved path)) (resolved path)) (sym h)
        ∙ rw (same_path_refl (resolved path)) refl,
  );
  read_written = λ files files' path bytes h.
      ap (λ r. r.0 (resolved path)) (sym h) ∙ rw (same_path_refl (resolved path)) refl;
  file_at_kept = λ files files' path other bytes file h at.
      ap (λ r. named (r.0 (resolved other)) (resolved other)) (sym h)
      ∙ named_kept (resolved path) (resolved other) bytes (files (resolved other)) file at;
  read_other = λ files files' path other bytes h ne.
      ap (λ r. r.0 (resolved other)) (sym h)
      ∙ other_kept (resolved path) (resolved other) bytes (files (resolved path))
          (files (resolved other))
          (λ e. ne (
            ap (λ r. named (r.0 (resolved path)) (resolved path)) (sym h)
            ∙ e
            ∙ ap (λ r. named (r.0 (resolved other)) (resolved other)) h));
}

abbrev no_files : FilePath → Option (List ℕ)
no_files path = none

-- One buffer with a path and changes, and one without a path.
abbrev two : BuffrCollection reference
two = record {
  list =
      record (from_data_and_path reference (1 ∷ 2 ∷ []) (some name)) { dirty = true }
      ∷ from_data_and_path reference (3 ∷ []) none
      ∷ [];
  cur_buf_index = 0;
}

abbrev written_two : BuffrCollection reference
written_two = record {
  list =
      from_data_and_path reference (1 ∷ 2 ∷ []) (some name)
      ∷ from_data_and_path reference (3 ∷ []) none
      ∷ [];
  cur_buf_index = 0;
}

run_quit-AreSaved_example :
    (m : ModeTransition) × (run reference memory quit two [] no_files ≡ some (m, two, no_files))
    × ((m ≡ new_mode quitting) ↔ AreSaved reference memory two.list)
run_quit-AreSaved_example = run_quit-AreSaved reference memory two [] no_files

abbrev name_written : FilePath → Option (List ℕ)
name_written p = if same_path name p then some (1 ∷ 2 ∷ []) else none

wrote_two :
    run reference memory write_all two [] no_files ≡ some (new_mode new, written_two, name_written)
unfolding run save_all same_path
wrote_two = refl

run_write_all-AreHeld_example :
    AreHeld reference memory memory_laws name_written two.list
    × (run reference memory quit written_two [] name_written
        ≡ some (new_mode quitting, written_two, name_written))
run_write_all-AreHeld_example =
    run_write_all-AreHeld reference memory memory_laws two written_two [] [] no_files name_written
      ((tt, tt), (tt, tt)) wrote_two

abbrev name_opened : FilePath → Option (List ℕ)
name_opened p = if same_path name p then some contents else none

opened : memory.write no_files name contents ≡ (name_opened, true)
unfolding same_path
opened = refl

start_buffers-write_example :
    (c c' : BuffrCollection reference) × (start_buffers reference whole (some name) 24 ≡ some c)
    × (run reference memory write c [] no_files ≡ some (new_mode new, c', name_opened))
    × ((bytes : List ℕ) × ((memory.disk name_opened).read name ≡ some bytes)
        × (length bytes ≤ (24 - 1) * 16))
start_buffers-write_example =
    start_buffers-write reference memory memory_laws whole name contents 24 no_files name_opened
      whole_reads (λ h. cc) (omega arith) opened

not_finish : event_to_action default_maps (key (typing false b'q')) ≢ some finish
unfolding event_to_action
not_finish e = cc

not_remove_this : event_to_action default_maps (key (typing false b'q')) ≢ some remove_this
unfolding event_to_action
not_remove_this e = cc

transition-KeepsLine_example :
    (reply : Option ModeTransition) × (transition reference memory wq
        (key (typing false b'q'))
        two
        no_files
      ≡ some (reply, two, no_files))
    × KeepsLine reply
transition-KeepsLine_example =
    transition-KeepsLine reference memory two no_files wq (key (typing false b'q')) wq-IsLine
      (omega arith) not_finish (inl not_remove_this)
