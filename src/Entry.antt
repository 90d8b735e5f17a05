-- ===== src/Entry.antt =====
-- src/bin/tofu.rs: the buffers that the program starts with.
pub mod Truncated
use tofu_hex_editor.Prelude.{ℕ, Option, none, some, ◌>>=◌}
use tofu_hex_editor.Xi.{Xi}
use tofu_hex_editor.Buffer.{FilePath, from_data_and_path}
use tofu_hex_editor.Buffer.Files.{ReadAt}
use tofu_hex_editor.Buffer.Collection.{BuffrCollection, new, with_current_buffer}
use tofu_hex_editor.View.{HexView, with_buffr_collection}
use tofu_hex_editor.View.Chunks.{chunk_size_of}

module _ (X : Xi) (read_at : ReadAt) where
  -- The first chunk of the file that is named, on a terminal of some height, or no file at all; none
  -- is an error of the file system, on which the program panics.
  unfoldable pub start_buffers : Option FilePath → ℕ → Option (BuffrCollection X)
  start_buffers none height = some (new X)
  start_buffers (some filename) height = read_at filename 0 (chunk_size_of height) >>= λ bytes.
      some (with_current_buffer X (from_data_and_path X bytes (some filename)))

  -- The view on them, of a terminal of this size.
  unfoldable pub start_view : Option FilePath → ℕ × ℕ → Option (HexView X)
  unfolding start_buffers
  start_view filename (width, height) =
      start_buffers filename height >>= λ c. some (with_buffr_collection X c (width, height))
