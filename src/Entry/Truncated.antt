-- ===== src/Entry/Truncated.antt =====
-- A file that is opened and saved at once.
use tofu_hex_editor.Prelude.{
  ℕ, ◌*◌, ◌-◌, ◌≤◌, ◌<◌, ◌≡◌, ◌≢◌, refl, ap, true, some, ◌>>=◌, List, [], length, take,
  le-length-take, arith,
}
use tofu_hex_editor.Xi.{Xi}
use tofu_hex_editor.Buffer.{FilePath, from_data_and_path}
use tofu_hex_editor.Buffer.Files.{ReadAt, Reads}
use tofu_hex_editor.Buffer.Collection.{BuffrCollection, with_current_buffer}
use tofu_hex_editor.Modes.Defs.{new_mode}
use tofu_hex_editor.Modes.Normal.{new}
use tofu_hex_editor.Modes.Commands.{FileSystem, write, run}
use tofu_hex_editor.Modes.Commands.Written.{FileSystemLaws, run_write-read}
use tofu_hex_editor.View.Chunks.{chunk_size_of}
use tofu_hex_editor.Entry.{start_buffers}

module _ (X : Xi) (F : FileSystem) (L : FileSystemLaws F) (read_at : ReadAt) where
  -- A file that is opened and written at once, without an error and without an edit, on a terminal
  -- with a height that is not 0 and below 65536, holds no more bytes afterwards than one chunk, sixteen
  -- for each row of the terminal but one.
  pub start_buffers-write :
      (path : FilePath) (file : List ℕ) (height : ℕ) (files files' : F.Files)
      (r : Reads read_at path file)
      → height ≢ 0
      → height < 65536
      → F.write files path (take (r.count 0 (chunk_size_of height)) file) ≡ (files', true)
      → (c c' : BuffrCollection X) × (start_buffers X read_at (some path) height ≡ some c)
        × (run X F write c [] files ≡ some (new_mode new, c', files'))
        × ((bytes : List ℕ) × ((F.disk files').read path ≡ some bytes)
            × (length bytes ≤ (height - 1) * 16))
  unfolding start_buffers
  start_buffers-write path file height files files' r h k w =
      let bytes = take (r.count 0 (chunk_size_of height)) file in
      let c = with_current_buffer X (from_data_and_path X bytes (some path)) in
      let (ran, held) =
        run_write-read X F L c (from_data_and_path X bytes (some path)) [] path files files' refl
          refl w in
      (
        c,
        _,
        ap
            (λ o.
              o >>= λ bytes. some (with_current_buffer X (from_data_and_path X bytes (some path))))
            (r.reads 0 (chunk_size_of height)),
        ran,
        (
          bytes,
          held,
          omega (
            arith,
            le-length-take {A = ℕ} (r.count 0 (chunk_size_of height)) file,
            r.count_le 0 (chunk_size_of height),
          ),
        ),
      )
