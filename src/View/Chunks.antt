-- ===== src/View/Chunks.antt =====
-- How src/hex_view/view.rs loads and drops parts of the file in the current buffer.
use tofu_hex_editor.Prelude.{
  ℕ, ◌-◌, ◌/◌, Bool, ◌||◌, Option, none, some, ◌>>=◌, length, ltb, leb, ◌==◌, if◌then◌else◌,
}
use tofu_hex_editor.Machine.{add_usize, sub_usize, mul_usize}
use tofu_hex_editor.Xi.{Xi, Rope}
use tofu_hex_editor.Buffer.{CurrentBuffer}
use tofu_hex_editor.Buffer.Files.{ReadAt, load_next_chunk}
use tofu_hex_editor.Operations.{slice_to_cow}
use tofu_hex_editor.Buffer.Collection.{set_current}
use tofu_hex_editor.View.{HexView, current_of, visible_of}

-- `(height as usize - 1) * 16`, the size of a chunk on a terminal of some height.
abbrev pub chunk_size_of : ℕ → ℕ
chunk_size_of height = mul_usize (sub_usize height 1) 16

module _ (X : Xi) where
  -- The current buffer replaced, and its text.
  abbrev pub with_current : HexView X → CurrentBuffer X → HexView X
  with_current v buf = record v { buffr_collection = set_current X v.buffr_collection buf }

  abbrev pub with_text : HexView X → CurrentBuffer X → Rope → HexView X
  with_text v buf text = with_current v (record buf { text = text })

  -- `height` is that of the terminal, or 23 if it has none.
  unfoldable pub should_trim_buffer : ℕ → CurrentBuffer X → Bool
  should_trim_buffer height buf = ltb (mul_usize (chunk_size_of height) 3) (length buf.text)

  unfoldable pub is_near_bottom : HexView X → CurrentBuffer X → Bool
  is_near_bottom v buf =
      let visible_rows = sub_usize v.size.1 2 in
      let current_view_end = add_usize v.start_offset (mul_usize visible_rows v.bytes_per_line) in
      ltb (sub_usize (length buf.text) current_view_end) (length buf.text / 10)

  unfoldable pub is_near_top : HexView X → CurrentBuffer X → Bool
  is_near_top v buf = ltb v.start_offset (length buf.text / 10)

  -- Both trims leave a buffer that is too small as it is.
  abbrev pub too_small : ℕ → ℕ → Bool
  too_small chunk_size total_len = chunk_size == 0 || leb total_len (mul_usize chunk_size 2)

  unfoldable pub trim_buffer_bottom : HexView X → CurrentBuffer X → ℕ → HexView X
  trim_buffer_bottom v buf chunk_size =
      let keep_len = sub_usize (length buf.text) chunk_size in
      if too_small chunk_size (length buf.text)
      then v
      else if ltb 0 keep_len
      then record (with_text v buf (slice_to_cow buf.text 0 keep_len)) {
        start_offset = add_usize v.start_offset chunk_size;
      }
      else v

  unfoldable pub trim_buffer_top : HexView X → CurrentBuffer X → ℕ → HexView X
  trim_buffer_top v buf chunk_size =
      if too_small chunk_size (length buf.text)
      then v
      else if ltb chunk_size (length buf.text)
      then record (with_text v buf (slice_to_cow buf.text chunk_size (length buf.text))) {
        start_offset = v.start_offset - chunk_size;
      }
      else v

  module _ (read_at : ReadAt) where
    -- What is read is put in with a simple edit; none is an error of the file system.
    unfoldable pub add_chunk_to_bottom : HexView X → CurrentBuffer X → ℕ → Option (HexView X)
    add_chunk_to_bottom v buf chunk_size = elim buf.path [
      | none ↦ some v
      | some path ↦ read_at path (length buf.text) chunk_size >>= λ chunk. some (
          if ltb 0 (length chunk)
          then with_text v buf (
              X.apply (X.simple_edit (length buf.text) (length buf.text) chunk (length buf.text))
                buf.text)
          else v)
    ]

    unfoldable pub add_chunk_to_top : HexView X → CurrentBuffer X → ℕ → Option (HexView X)
    add_chunk_to_top v buf chunk_size =
        let start_pos = v.start_offset - chunk_size in
        elim buf.path [
          | none ↦ some v
          | some path ↦ read_at path start_pos chunk_size >>= λ chunk. some (
              if ltb 0 (length chunk)
              then record (with_text v buf
                  (X.apply (X.simple_edit 0 0 chunk (length buf.text)) buf.text)) {
                    start_offset = start_pos;
                  }
              else v)
        ]

    abbrev pub manage_bottom : HexView X → CurrentBuffer X → ℕ → Option (HexView X)
    manage_bottom v buf chunk_size =
        let added = add_chunk_to_bottom v buf chunk_size >>= λ v'.
        current_of X v' >>= λ buf'. some (trim_buffer_top v' buf' chunk_size) in
        if is_near_bottom v buf then added else some v

    abbrev pub manage_top : HexView X → CurrentBuffer X → ℕ → Option (HexView X)
    manage_top v buf chunk_size =
        let added = add_chunk_to_top v buf chunk_size >>= λ v'.
        current_of X v' >>= λ buf'. some (trim_buffer_bottom v' buf' chunk_size) in
        if is_near_top v buf then added else some v

    unfoldable pub manage_buffer : HexView X → Option (HexView X)
    unfolding add_chunk_to_bottom add_chunk_to_top trim_buffer_top trim_buffer_bottom
    manage_buffer v = do
      buf ← current_of X v
      v' ← manage_bottom v buf 368
      buf' ← current_of X v'
      manage_top v' buf' 368

    -- The bytes that are visible are loaded as far as one chunk goes.
    unfoldable pub ensure_visible_data : HexView X → Option (HexView X)
    ensure_visible_data v = current_of X v >>= λ buf.
        let loaded =
          load_next_chunk X read_at buf 64 >>= λ (buf', more). some (with_current v buf') in
        if ltb (length buf.text) (visible_of X v buf).1 then loaded else some v
