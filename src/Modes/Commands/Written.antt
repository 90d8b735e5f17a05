-- ===== src/Modes/Commands/Written.antt =====
-- What the commands that save leave on the disk.
use tofu_hex_editor.Prelude.{
  ℕ, ◌≡◌, ◌≢◌, sym, ap, ◌∙◌, true, false, Option, none, some, ◌>>=◌, List, [], ◌∷◌, some_inj,
}
use tofu_hex_editor.Xi.{Xi}
use tofu_hex_editor.Buffer.{CurrentBuffer, FilePath, update_path_if_missing}
use tofu_hex_editor.Buffer.Collection.{BuffrCollection, current, set_current}
use tofu_hex_editor.Modes.Defs.{new_mode, quitting}
use tofu_hex_editor.Modes.Normal.{new}
use tofu_hex_editor.Modes.Commands.{
  FileSystem, quit, write, write_all, save_all, run, update_written, write_to, target_path,
}
use tofu_hex_editor.Modes.Commands.Saving.{
  skipped, written, save_skipped, save_wrote, save_cases, update_saved_done, run_write_all-quit,
  save_all-nil, some_ne_none,
}

-- The documented behaviour of `write` and `read`. `file_at` is the file that a path names, with its
-- links followed, so two paths can name one file.
pub record FileSystemLaws (F : FileSystem) : Type 1 where
  pub File : Type 0
  pub file_at : F.Files → FilePath → Option File
  -- A file that was written is there, and holds the bytes.
  pub file_at_written :
      (files files' : F.Files) (path : FilePath) (bytes : List ℕ)
      → F.write files path bytes ≡ (files', true)
      → (file : File) × (file_at files' path ≡ some file)
  pub read_written :
      (files files' : F.Files) (path : FilePath) (bytes : List ℕ)
      → F.write files path bytes ≡ (files', true)
      → (F.disk files').read path ≡ some bytes
  -- Writing removes and renames no file.
  pub file_at_kept :
      (files files' : F.Files) (path other : FilePath) (bytes : List ℕ) (file : File)
      → F.write files path bytes ≡ (files', true)
      → file_at files other ≡ some file
      → file_at files' other ≡ some file
  -- A path that does not name the file that was written reads as before.
  pub read_other :
      (files files' : F.Files) (path other : FilePath) (bytes : List ℕ)
      → F.write files path bytes ≡ (files', true)
      → file_at files' path ≢ file_at files' other
      → (F.disk files').read other ≡ (F.disk files).read other

module _ (X : Xi) (F : FileSystem) (L : FileSystemLaws F) where
  -- No two of the paths of the buffers name one file.
  abbrev IsOther : F.Files → FilePath → Option FilePath → Type 0
  IsOther files path none = Unit
  IsOther files path (some other) = L.file_at files other ≢ L.file_at files path

  abbrev NotAmong : F.Files → FilePath → List (CurrentBuffer X) → Type 0
  NotAmong files path [] = Unit
  NotAmong files path (buf ∷ list) = IsOther files path buf.path × NotAmong files path list

  abbrev NotAgain : F.Files → Option FilePath → List (CurrentBuffer X) → Type 0
  NotAgain files none list = Unit
  NotAgain files (some path) list = NotAmong files path list

  abbrev pub Distinct : F.Files → List (CurrentBuffer X) → Type 0
  Distinct files [] = Unit
  Distinct files (buf ∷ list) = NotAgain files buf.path list × Distinct files list

  -- The file of each buffer that has a path holds the bytes of the buffer.
  abbrev pub IsHeld : F.Files → Option FilePath → List ℕ → Type 0
  IsHeld files none text = Unit
  IsHeld files (some path) text = (F.disk files).read path ≡ some text

  abbrev pub AreHeld : F.Files → List (CurrentBuffer X) → Type 0
  AreHeld files [] = Unit
  AreHeld files (buf ∷ list) = IsHeld files buf.path buf.text × AreHeld files list

  -- `:w` with a path to write to: the file holds the text, the buffer is not dirty.
  pub run_write-read :
      (c : BuffrCollection X) (buf : CurrentBuffer X) (filename path : List ℕ)
      (files files' : F.Files)
      → current X c ≡ some buf
      → target_path X F filename buf ≡ some path
      → F.write files path buf.text ≡ (files', true)
      → (run X F write c filename files
          ≡ some (
            new_mode new,
            set_current X c (update_path_if_missing X (record buf { dirty = false }) path),
            files',
          ))
        × ((F.disk files').read path ≡ some buf.text)
  unfolding run
  run_write-read c buf filename path files files' b t w = (
    ap (λ o. o >>= λ buf. write_to X F c files buf (target_path X F filename buf)) b
        ∙ ap (write_to X F c files buf) t
        ∙ ap (update_written X F c buf path) w,
    L.read_written files files' path buf.text w,
  )

  is_other :
      (end : F.Files) (path other : FilePath) (o : Option FilePath)
      → o ≡ some other
      → IsOther end path o
      → L.file_at end other ≢ L.file_at end path
  is_other end path other none h n = absurd (some_ne_none (sym h))
  is_other end path other (some p) h n = λ e. n (ap (L.file_at end) (some_inj h) ∙ e)

  skipped_end :
      (files end : F.Files) (buf : CurrentBuffer X) (list : List (CurrentBuffer X))
      → buf.path ≡ none
      → (save_all X F files (buf ∷ list)).0 ≡ end
      → (save_all X F files list).0 ≡ end
  skipped_end files end buf list p e = sym (ap (λ r. r.0) (save_skipped X F files buf list p)) ∙ e

  written_end :
      (files files' end : F.Files) (buf : CurrentBuffer X) (list : List (CurrentBuffer X))
      (path : FilePath)
      → buf.path ≡ some path
      → F.write files path buf.text ≡ (files', true)
      → (save_all X F files (buf ∷ list)).0 ≡ end
      → (save_all X F files' list).0 ≡ end
  written_end files files' end buf list path p w e =
      sym (ap (λ r. r.0) (save_wrote X F files buf list path (files', true) p w)) ∙ e

  -- The loop removes and renames no file.
  save_all-file_at :
      (files end : F.Files) (list : List (CurrentBuffer X)) (path : FilePath) (file : L.File)
      → (save_all X F files list).0 ≡ end
      → (save_all X F files list).2 ≡ true
      → L.file_at files path ≡ some file
      → L.file_at end path ≡ some file
  save_all-file_at files end [] path file e h at =
      ap (λ f. L.file_at f path) (sym e ∙ ap (λ r. r.0) (save_all-nil X F files)) ∙ at
  save_all-file_at files end (buf ∷ list) path file e h at =
      elim (save_cases X F files buf list h) [
        | skipped p rest ↦
            save_all-file_at files end list path file (skipped_end files end buf list p e) rest at
        | written files' other p w rest ↦
            save_all-file_at files' end list path file
              (written_end files files' end buf list other p w e) rest
              (L.file_at_kept files files' other path buf.text file w at)
      ]

  -- Paths that name two files in the end named two files before.
  apart_before :
      (files end : F.Files) (list : List (CurrentBuffer X)) (path other : FilePath)
      (file file' : L.File)
      → (save_all X F files list).0 ≡ end
      → (save_all X F files list).2 ≡ true
      → L.file_at files path ≡ some file
      → L.file_at files other ≡ some file'
      → L.file_at end other ≢ L.file_at end path
      → L.file_at files other ≢ L.file_at files path
  apart_before files end list path other file file' e h a b ne = λ same. ne (
      save_all-file_at files end list other file' e h b
      ∙ sym b
      ∙ same
      ∙ a
      ∙ sym (save_all-file_at files end list path file e h a))

  save_all-other :
      (files end : F.Files) (list : List (CurrentBuffer X)) (path : FilePath) (file : L.File)
      → (save_all X F files list).0 ≡ end
      → L.file_at files path ≡ some file
      → NotAmong end path list
      → (save_all X F files list).2 ≡ true
      → (F.disk end).read path ≡ (F.disk files).read path
  save_all-other files end [] path file e at n h =
      ap (λ f. (F.disk f).read path) (sym e ∙ ap (λ r. r.0) (save_all-nil X F files))
  save_all-other files end (buf ∷ list) path file e at (ne, n) h =
      elim (save_cases X F files buf list h) [
        | skipped p rest ↦
            save_all-other files end list path file (skipped_end files end buf list p e) at n rest
        | written files' other p w rest ↦
            let behind = written_end files files' end buf list other p w e in
            let (file', there) = L.file_at_written files files' other buf.text w in
            let kept = L.file_at_kept files files' other path buf.text file w at in
            let apart =
              apart_before files' end list path other file file' behind rest kept there
                (is_other end path other buf.path p ne) in
            save_all-other files' end list path file behind kept n rest
            ∙ L.read_other files files' other path buf.text w apart
      ]

  no_path-IsHeld :
      (files : F.Files) (o : Option FilePath) (text : List ℕ) → o ≡ none → IsHeld files o text
  no_path-IsHeld files none text h = tt
  no_path-IsHeld files (some path) text h = absurd (some_ne_none h)

  path-IsHeld :
      (files : F.Files) (o : Option FilePath) (path : FilePath) (text : List ℕ)
      → o ≡ some path
      → (F.disk files).read path ≡ some text
      → IsHeld files o text
  path-IsHeld files none path text h r = tt
  path-IsHeld files (some p) path text h r = ap (F.disk files).read (some_inj h) ∙ r

  not_again :
      (end : F.Files) (o : Option FilePath) (path : FilePath) (list : List (CurrentBuffer X))
      → o ≡ some path
      → NotAgain end o list
      → NotAmong end path list
  not_again end none path list h n = absurd (some_ne_none (sym h))
  not_again end (some p) path list h n = rw⁻¹ (some_inj h) n

  save_all-AreHeld :
      (files end : F.Files) (list : List (CurrentBuffer X))
      → (save_all X F files list).0 ≡ end
      → Distinct end list
      → (save_all X F files list).2 ≡ true
      → AreHeld end list
  save_all-AreHeld files end [] e d h = tt
  save_all-AreHeld files end (buf ∷ list) e (d, ds) h = elim (save_cases X F files buf list h) [
    | skipped p rest ↦ (
      no_path-IsHeld end buf.path buf.text p,
      save_all-AreHeld files end list (skipped_end files end buf list p e) ds rest,
    )
    | written files' path p w rest ↦
        let behind = written_end files files' end buf list path p w e in
        let (file, there) = L.file_at_written files files' path buf.text w in
        (
          path-IsHeld end buf.path path buf.text p (
              save_all-other files' end list path file behind there
                (not_again end buf.path path list p d) rest
              ∙ L.read_written files files' path buf.text w),
          save_all-AreHeld files' end list behind ds rest,
        )
  ]

  all_held :
      (c c' : BuffrCollection X) (rest : List ℕ) (files files' : F.Files)
      → Distinct files' c.list
      → run X F write_all c rest files ≡ some (new_mode new, c', files')
      → AreHeld files' c.list
  unfolding run
  all_held c c' rest files files' d h =
      let (done, list_eq, files_eq) =
        update_saved_done X F c c' files' new (save_all X F files c.list) h in
      save_all-AreHeld files files' c.list (sym files_eq) d done

  -- After `write_all` without an error, where no two of the paths of the buffers then name one file, the
  -- file of each buffer that has a path holds the text of the buffer, and `quit` quits.
  pub run_write_all-AreHeld :
      (c c' : BuffrCollection X) (rest rest' : List ℕ) (files files' : F.Files)
      → Distinct files' c.list
      → run X F write_all c rest files ≡ some (new_mode new, c', files')
      → AreHeld files' c.list
        × (run X F quit c' rest' files' ≡ some (new_mode quitting, c', files'))
  run_write_all-AreHeld c c' rest rest' files files' d h =
      (all_held c c' rest files files' d h, run_write_all-quit X F c c' rest rest' files files' h)
