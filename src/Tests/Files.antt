-- ===== src/Tests/Files.antt =====
-- The theorems on chunks of files and on the list of open buffers.
use tofu_hex_editor.Prelude.{ℕ, ◌≡◌, refl, Bool, some, List, [], ◌∷◌, take, drop, arith}
use tofu_hex_editor.Buffer.{CurrentBuffer, FilePath, from_data_and_path, scratch}
use tofu_hex_editor.Buffer.Files.{
  ReadAt, Reads, load_next_chunk, load_all, load_all-file, load_next_chunk_skips,
}
use tofu_hex_editor.Buffer.Collection.{
  Disk, BuffrCollection, new, current, IsOpen, switch_current_buffer, delete_current, find_open,
  switch_to, delete_current-IsOpen,
}
use tofu_hex_editor.Buffer.Collection.Switch.{IsAt, switch_current_buffer_lem}
use tofu_hex_editor.Tests.Reference.{reference, reference_laws}

abbrev pub name : FilePath
name = b'a' ∷ []

abbrev pub contents : List ℕ
contents = 1 ∷ 2 ∷ 3 ∷ 4 ∷ 5 ∷ []

-- Reads as much as the vector takes.
abbrev pub whole : ReadAt
whole path offset size = some (take size (drop offset contents))

abbrev pub whole_reads : Reads whole name contents
whole_reads = record {
  count = λ offset size. size;
  reads = λ offset size. refl;
  count_le = λ offset size. omega arith;
  count_pos = λ offset size h ne. ne;
}

abbrev opened : CurrentBuffer reference
opened = from_data_and_path reference (1 ∷ 2 ∷ []) (some name)

load_all-file_example :
    (buf' : CurrentBuffer reference) × (load_all reference whole 4 opened 2 ≡ some buf')
    × (buf'.text ≡ contents)
load_all-file_example =
    load_all-file reference reference_laws whole name contents opened (3 ∷ 4 ∷ 5 ∷ []) 2 4
      whole_reads refl refl (omega arith) (omega arith)

abbrev longer : CurrentBuffer reference
longer = from_data_and_path reference (9 ∷ 1 ∷ 2 ∷ []) (some name)

load_next_chunk_skips_example :
    (buf' : CurrentBuffer reference) × (more : Bool) × (load_next_chunk reference whole longer 2
      ≡ some (buf', more))
    × (buf'.text ≡ 9 ∷ 1 ∷ 2 ∷ 4 ∷ 5 ∷ [])
load_next_chunk_skips_example =
    load_next_chunk_skips reference reference_laws whole name contents longer (1 ∷ 2 ∷ [])
      (3 ∷ 4 ∷ 5 ∷ []) 1 2 whole_reads refl refl refl

abbrev disk : Disk
disk = record { canonicalize = λ path. some path; read = λ path. some contents }

abbrev both : BuffrCollection reference
both = record {
  list = scratch reference ∷ from_data_and_path reference contents (some name) ∷ [];
  cur_buf_index = 1;
}

both_lem : switch_current_buffer reference disk (new reference) name ≡ some both
unfolding switch_current_buffer find_open switch_to
both_lem = refl

switch_current_buffer_lem_example :
    IsOpen reference both
    × ((buf : CurrentBuffer reference) × (current reference both ≡ some buf)
        × IsAt reference disk name buf)
    × (switch_current_buffer reference disk both name ≡ some both)
switch_current_buffer_lem_example =
    switch_current_buffer_lem reference disk (new reference) both name name refl both_lem

delete_current-IsOpen_example :
    (c' : BuffrCollection reference) × (delete_current reference both ≡ some c')
    × IsOpen reference c'
delete_current-IsOpen_example = delete_current-IsOpen reference both (omega arith)
