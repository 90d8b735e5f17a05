-- ===== src/View/Trimmed.antt =====
-- What scrolling down in src/hex_view/view.rs does to a text that is longer than three chunks.
use tofu_hex_editor.Prelude.{
  ℕ, ◌-◌, ◌*◌, ◌<◌, ◌≡◌, ◌≢◌, refl, ap, ◌∙◌, true, false, ◌&&◌, ◌||◌, some, ◌>>=◌, length, take,
  drop, arith, ltb, leb, ◌==◌, lt→ltb, length-drop, take_all, if◌then◌else◌,
}
use tofu_hex_editor.Machine.{add_usize, mul_usize, half_word}
use tofu_hex_editor.Xi.{Xi}
use tofu_hex_editor.Buffer.{CurrentBuffer}
use tofu_hex_editor.Buffer.Collection.{current-set_current}
use tofu_hex_editor.Buffer.Files.{load_next_chunk}
use tofu_hex_editor.View.{HexView, current_of}
use tofu_hex_editor.View.Chunks.{chunk_size_of, with_current, should_trim_buffer, trim_buffer_top}
use tofu_hex_editor.View.Offsets.{next_position_of}
use tofu_hex_editor.View.Scroll.{System, trimmed, load_more, end_scroll, scroll_down_to}

module _ (X : Xi) (S : System) (v : HexView X) (buf : CurrentBuffer X) where
  -- The text without its first chunk.
  abbrev dropped : CurrentBuffer X
  dropped = record buf { text = drop (chunk_size_of S.terminal_height) buf.text }

  abbrev trimmed_view : HexView X
  trimmed_view = record (with_current X v dropped) {
    start_offset = v.start_offset - chunk_size_of S.terminal_height;
  }

  trimmed_lem :
      chunk_size_of S.terminal_height ≢ 0
      → chunk_size_of S.terminal_height < 2000000
      → length buf.text < half_word
      → 3 * chunk_size_of S.terminal_height < length buf.text
      → trimmed X S v buf ≡ trimmed_view
  unfolding trimmed should_trim_buffer trim_buffer_top
  trimmed_lem c m h l = by_size (chunk_size_of S.terminal_height) c m l
    where
      by_size :
          (k : ℕ)
          → k ≢ 0
          → k < 2000000
          → 3 * k < length buf.text
          → (if ltb (mul_usize k 3) (length buf.text) && ltb 0 k
              then (if k == 0 || leb (length buf.text) (mul_usize k 2)
                  then v
                  else if ltb k (length buf.text)
                  then record (with_current X v
                      (record buf { text = take (length buf.text - k) (drop k buf.text) })) {
                        start_offset = v.start_offset - k;
                      }
                  else v)
              else v)
            ≡ record (with_current X v (record buf { text = drop k buf.text })) {
              start_offset = v.start_offset - k;
            }
      by_size k c m l =
          let whole =
            take_all (length buf.text - k) (drop k buf.text)
              (omega (arith, length-drop {A = ℕ} k buf.text)) in
          let trims : (ltb (mul_usize k 3) (length buf.text) && ltb 0 k) ≡ true = ground arith in
          let large : (k == 0 || leb (length buf.text) (mul_usize k 2)) ≡ false = ground arith in
          let longer : ltb k (length buf.text) ≡ true = ground arith in
          rw trims (
            rw large (
              rw longer (
                ap
                  (λ t. record (with_current X v (record buf { text = t })) {
                    start_offset = v.start_offset - k;
                  })
                  whole)))

module _ (X : Xi) (S : System) where
  load_more_lem :
      (v v' : HexView X) (buf buf' : CurrentBuffer X) (next : ℕ)
      → length buf.text < add_usize next (mul_usize v.size.1 v.bytes_per_line)
      → load_next_chunk X S.read_at buf 64 ≡ some (buf', true)
      → trimmed X S (with_current X v buf') buf' ≡ v'
      → load_more X S v buf next ≡ some (v', true)
  unfolding load_more
  load_more_lem v v' buf buf' next e l t = rw (lt→ltb _ _ e) (
      ap
        (λ o. o >>= λ (b, more). some (
          if more
          then (trimmed X S (with_current X v b) b, true)
          else (v, ltb next (length buf.text))))
        l
      ∙ ap (λ v'. some (v', true)) t)

  end_scroll_lem :
      (v : HexView X) (buf : CurrentBuffer X) (next : ℕ)
      → current_of X v ≡ some buf
      → next < length buf.text
      → end_scroll X S next (v, true) ≡ some (record v { start_offset = next }, true)
  end_scroll_lem v buf next b p =
      ap
        (λ o. o >>= λ buf. some (
          if ltb next (length buf.text)
          then (record v { start_offset = next }, true)
          else (v, false)))
        b
      ∙ rw (lt→ltb _ _ p) refl

  -- Where scrolling down loads a chunk of the file, the text is then longer than three chunks of the
  -- screen, which are not empty and below two million bytes, and the next start is within what is left,
  -- the text afterwards lacks its first chunk, while the path and the selection, which counts from the
  -- start of the text, stay as they are.
  pub scroll_down_to-drop :
      (v : HexView X) (buf buf' : CurrentBuffer X) (line_count : ℕ)
      → current_of X v ≡ some buf
      → length buf.text
        < add_usize (next_position_of X v line_count) (mul_usize v.size.1 v.bytes_per_line)
      → load_next_chunk X S.read_at buf 64 ≡ some (buf', true)
      → chunk_size_of S.terminal_height ≢ 0
      → chunk_size_of S.terminal_height < 2000000
      → length buf'.text < half_word
      → 3 * chunk_size_of S.terminal_height < length buf'.text
      → next_position_of X v line_count < length (drop (chunk_size_of S.terminal_height) buf'.text)
      → (v' : HexView X) × (scroll_down_to X S v line_count ≡ some (v', true))
        × (current_of X v'
            ≡ some (record buf' { text = drop (chunk_size_of S.terminal_height) buf'.text }))
        × (v'.start_offset ≡ next_position_of X v line_count)
  unfolding scroll_down_to
  scroll_down_to-drop v buf buf' n b e l c m h t p =
      let next = next_position_of X v n in
      let loaded_view = with_current X v buf' in
      let v' = trimmed_view X S loaded_view buf' in
      let held : current_of X v' ≡ some (dropped X S loaded_view buf') =
        current-set_current X loaded_view.buffr_collection buf' _
          (current-set_current X v.buffr_collection buf buf' b) in
      (
        record v' { start_offset = next },
        ap (λ o. o >>= λ buf. load_more X S v buf next >>= λ r. end_scroll X S next r) b
            ∙ ap (λ o. o >>= λ r. end_scroll X S next r)
                (load_more_lem v v' buf buf' next e l (trimmed_lem X S loaded_view buf' c m h t))
            ∙ end_scroll_lem v' (dropped X S loaded_view buf') next held p,
        held,
        refl,
      )
