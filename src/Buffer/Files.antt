-- ===== src/Buffer/Files.antt =====
-- `load_next_chunk` of src/current_buffer.rs. The file system is a parameter.
use tofu_hex_editor.Prelude.{
  ℕ, zero, suc, ◌+◌, ◌≤◌, ◌<◌, ◌≡◌, ◌≢◌, refl, sym, ap, ◌∙◌, Bool, true, false, Option, none, some,
  ◌>>=◌, List, [], ◌∷◌, ◌++◌, length, take, drop, take-drop, drop-append, le-length-drop, take-nil,
  take_cons, length-append, ◌-◌, ltb, if◌then◌else◌, arith,
}
use mathlib.Core.List.{append_assoc, append-nil}
use tofu_hex_editor.Xi.{Xi, XiLaws}
use tofu_hex_editor.Buffer.{CurrentBuffer, FilePath}

-- `File::open`, `metadata`, `seek` to an offset and one `read` into a vector of a size: the bytes
-- read, or none for an error.
abbrev pub ReadAt : Type 0
ReadAt = FilePath → ℕ → ℕ → Option (List ℕ)

-- The documented behaviour of `read` on a file that does not change: it gives some of the bytes from
-- the offset on, and none of them only at the end of the file or for an empty vector.
pub record Reads (read_at : ReadAt) (path : FilePath) (file : List ℕ) : Type 0 where
  pub count : ℕ → ℕ → ℕ
  pub reads :
      (offset size : ℕ)
      → read_at path offset size ≡ some (take (count offset size) (drop offset file))
  pub count_le : (offset size : ℕ) → count offset size ≤ size
  pub count_pos : (offset size : ℕ) → offset < length file → size ≢ 0 → count offset size ≢ 0

module _ (X : Xi) (read_at : ReadAt) where
  -- `self.data.apply_delta(&delta)` with the delta that appends the chunk
  abbrev appended : CurrentBuffer X → List ℕ → CurrentBuffer X
  appended buf next_chunk = record buf {
    text =
        X.apply (X.simple_edit (length buf.text) (length buf.text) next_chunk (length buf.text))
          buf.text;
  }

  -- None is an error of the file system, and leaves the buffer as it is.
  unfoldable pub load_next_chunk : CurrentBuffer X → ℕ → Option (CurrentBuffer X × Bool)
  load_next_chunk buf chunk_size = elim buf.path [
    | none ↦ some (buf, false)
    | some path ↦ read_at path (length buf.text) chunk_size >>= λ next_chunk.
        if ltb 0 (length next_chunk)
        then some (appended buf next_chunk, true)
        else some (buf, false)
  ]

  -- Chunks loaded until there is no more data; none if the fuel is spent or a read fails.
  unfoldable pub load_all : ℕ → CurrentBuffer X → ℕ → Option (CurrentBuffer X)
  unfolding load_next_chunk
  load_all zero buf chunk_size = none
  load_all (suc fuel) buf chunk_size = load_next_chunk buf chunk_size >>= λ (buf', more).
      elim more [ true ↦ load_all fuel buf' chunk_size | false ↦ some buf' ]

module _ (X : Xi) (L : XiLaws X) (read_at : ReadAt) (path : FilePath) (file : List ℕ) where
  -- What a chunk is when the file goes on with `rest`, `gap` bytes behind the text's length.
  read-rest :
      (read : List ℕ) (rest text : List ℕ) (gap chunk_size : ℕ) (r : Reads read_at path file)
      → read ++ rest ≡ file
      → length text ≡ length read + gap
      → read_at path (length text) chunk_size
        ≡ some (take (r.count (length text) chunk_size) (drop gap rest))
  read-rest read rest text gap chunk_size r e h =
      r.reads (length text) chunk_size
      ∙ ap (λ t. some (take (r.count (length text) chunk_size) t))
          (ap (drop (length text)) (sym e) ∙ drop-append gap (length text) read rest h)

  load_end :
      (buf : CurrentBuffer X) (chunk_size : ℕ)
      → buf.path ≡ some path
      → read_at path (length buf.text) chunk_size ≡ some []
      → load_next_chunk X read_at buf chunk_size ≡ some (buf, false)
  unfolding load_next_chunk
  load_end buf chunk_size p e = rw p (rw e refl)

  pub load_more :
      (buf : CurrentBuffer X) (chunk_size y : ℕ) (ys : List ℕ)
      → buf.path ≡ some path
      → read_at path (length buf.text) chunk_size ≡ some (y ∷ ys)
      → load_next_chunk X read_at buf chunk_size
        ≡ some (record buf { text = buf.text ++ y ∷ ys }, true)
  unfolding load_next_chunk
  load_more buf chunk_size y ys p e =
      rw p (rw e (rw (L.apply-simple_edit buf.text (y ∷ ys)) (ground arith)))

  -- Where the text of a buffer is a beginning of its file, loading chunks that are not empty until
  -- there is no more data ends, with fuel for every byte left, and the text is then the whole file.
  pub load_all-file :
      (buf : CurrentBuffer X) (rest : List ℕ) (chunk_size fuel : ℕ)
      → Reads read_at path file
      → buf.path ≡ some path
      → buf.text ++ rest ≡ file
      → chunk_size ≢ 0
      → length rest < fuel
      → (buf' : CurrentBuffer X) × (load_all X read_at fuel buf chunk_size ≡ some buf')
        × (buf'.text ≡ file)
  unfolding load_all
  load_all-file buf rest chunk_size zero r p e c h = absurd (omega arith)
  load_all-file buf [] chunk_size (suc fuel) r p e c h =
      let found = read-rest buf.text [] buf.text 0 chunk_size r e (omega arith) in
      let done = load_end buf chunk_size p (found ∙ ap some (take-nil _)) in
      (buf, rw done refl, sym (append-nil buf.text) ∙ e)
  load_all-file buf (x ∷ rest) chunk_size (suc fuel) r p e c h =
      let n = r.count (length buf.text) chunk_size in
      let found = read-rest buf.text (x ∷ rest) buf.text 0 chunk_size r e (omega arith) in
      let within : length buf.text < length file =
        rw (sym e) (omega (arith, length-append {0} buf.text (x ∷ rest))) in
      let some_read = take_cons n x rest (r.count_pos (length buf.text) chunk_size within c) in
      let more = load_more buf chunk_size x (take (n - 1) rest) p (found ∙ ap some some_read) in
      let (buf', loaded, whole) =
        load_all-file (record buf { text = buf.text ++ x ∷ take (n - 1) rest }) (drop (n - 1) rest)
          chunk_size fuel r p
          (append_assoc buf.text (x ∷ take (n - 1) rest) (drop (n - 1) rest)
            ∙ ap (λ t. buf.text ++ x ∷ t) (take-drop (n - 1) rest)
            ∙ e)
          c (omega (arith, le-length-drop {0} (n - 1) rest)) in
      (buf', rw more loaded, whole)

  -- Where the text is longer by `inserted` bytes than the beginning of the file that was read,
  -- loading a chunk does not fail, and what it appends starts `inserted` bytes behind that beginning.
  pub load_next_chunk_skips :
      (buf : CurrentBuffer X) (read rest : List ℕ) (inserted chunk_size : ℕ)
      (r : Reads read_at path file)
      → buf.path ≡ some path
      → read ++ rest ≡ file
      → length buf.text ≡ length read + inserted
      → (buf' : CurrentBuffer X) × (more : Bool) × (load_next_chunk X read_at buf chunk_size
          ≡ some (buf', more))
        × (buf'.text ≡ buf.text ++ take (r.count (length buf.text) chunk_size) (drop inserted rest))
  load_next_chunk_skips buf read rest inserted chunk_size r p e h =
      with_chunk _ (read-rest read rest buf.text inserted chunk_size r e h)
    where
      with_chunk :
          (chunk : List ℕ)
          → read_at path (length buf.text) chunk_size ≡ some chunk
          → (buf' : CurrentBuffer X) × (more : Bool) × (load_next_chunk X read_at buf chunk_size
              ≡ some (buf', more))
            × (buf'.text ≡ buf.text ++ chunk)
      with_chunk [] k = (buf, false, load_end buf chunk_size p k, sym (append-nil buf.text))
      with_chunk (y ∷ ys) k =
          (record buf { text = buf.text ++ y ∷ ys }, true, load_more buf chunk_size y ys p k, refl)
