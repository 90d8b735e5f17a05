-- ===== src/Buffer.antt =====
-- src/current_buffer.rs: a buffer, its text with the selection, the registers and the history.
pub mod Collection
pub mod Files
pub mod Text
pub mod Regions
use tofu_hex_editor.Prelude.{
  ℕ, ◌%◌, Bool, true, false, ◌&&◌, Option, none, some, ◌>>=◌, List, [], ◌∷◌, ◌++◌, map, rev_onto,
  length, replicate, leb, ◌==◌, if◌then◌else◌,
}
use tofu_hex_editor.Prelude.Int.{ℤ}
use tofu_hex_editor.Machine.{add_usize}
use tofu_hex_editor.Xi.{Xi, Rope}
use tofu_hex_editor.Selection.Region.{SelRegion, max_of, min_of}
use tofu_hex_editor.Selection.Defs.{
  Selection, Mapper, map_selections as map_regions, default, main_of, remove, retain,
  select_next as next, select_prev as prev,
}
use tofu_hex_editor.Selection.Delta.{
  apply_delta as move_along, apply_delta_offset_carets as move_along_by,
}
use tofu_hex_editor.History.{
  History, new as new_history, perform_final, perform_partial, commit_partial, undo, redo,
}
use tofu_hex_editor.Operations.{slice_or_panic, last}

abbrev pub FilePath : Type 0
FilePath = List ℕ

-- An interval of `usize`, its end not included.
abbrev pub Interval : Type 0
Interval = ℕ × ℕ

-- `Interval::from(a..=b)`
abbrev pub inclusive : SelRegion → Interval
inclusive r = (min_of r, add_usize (max_of r) 1)

-- src/modes/mode.rs
pub data DirtyBytes : Type 0 where
  change_in_place : List Interval → DirtyBytes
  change_length : DirtyBytes

pub data OverflowSelectionStyle : Type 0 where
  cursor tail cursor_tail : OverflowSelectionStyle

-- `sort_by` the starts, which is stable
insert_sorted : Interval → List Interval → List Interval
insert_sorted a [] = a ∷ []
insert_sorted a (b ∷ rest) = if leb a.0 b.0 then a ∷ b ∷ rest else b ∷ insert_sorted a rest

sort_starts : List Interval → List Interval
unfolding insert_sorted
sort_starts [] = []
sort_starts (a ∷ rest) = insert_sorted a (sort_starts rest)

module _ (X : Xi) where
  pub record CurrentBuffer : Type 0 where
    pub path : Option FilePath
    pub text : Rope
    pub selection : Selection
    pub registers : ℕ → Option (List (List ℕ))
    pub dirty : Bool
    pub history : History X
    pub data_start_offset : ℕ

  abbrev pub from_data_and_path : List ℕ → Option FilePath → CurrentBuffer
  from_data_and_path bytes path = record {
    path = path;
    text = bytes;
    selection = default;
    registers = λ reg. none;
    dirty = false;
    history = new_history X;
    data_start_offset = 0;
  }

  abbrev pub scratch : CurrentBuffer
  scratch = from_data_and_path [] none

  -- The loop over the sorted intervals; the head of the first argument is the last one pushed.
  disjoint : List Interval → List Interval → List Interval
  disjoint out [] = out
  disjoint [] (r ∷ rs) = disjoint (r ∷ []) rs
  disjoint (top ∷ out) (r ∷ rs) =
      disjoint (if X.interval_contains top r.0 then X.interval_union top r ∷ out else r ∷ top ∷ out)
        rs

  -- The closure that notes the intervals of the old and the new regions.
  unfoldable pub noting : {S : Type 0} → Mapper S → Mapper (S × List Interval)
  noting f r (s, noted) =
      f r s >>= λ (rs, s'). some (rs, (s', noted ++ inclusive r ∷ map inclusive rs))

  unfoldable pub map_selections :
      {S : Type 0} → Mapper S → CurrentBuffer → S → Option (CurrentBuffer × DirtyBytes × S)
  unfolding disjoint noting sort_starts
  map_selections f buf s = map_regions (noting f) buf.selection (s, []) >>= λ (sel, (s', noted)).
      some (
        record buf { selection = sel },
        change_in_place (rev_onto (disjoint [] (sort_starts noted)) []),
        s',
      )

  unfoldable pub apply_delta_to_current_buffer : CurrentBuffer → X.Delta → Bool → CurrentBuffer
  apply_delta_to_current_buffer buf delta is_final = record buf {
    text = X.apply delta buf.text;
    history =
        if is_final
        then perform_final X buf.history buf.text delta buf.selection
        else perform_partial X buf.history buf.text delta buf.selection;
    dirty = true;
  }

  abbrev with_selection : CurrentBuffer → Option Selection → Option (CurrentBuffer × DirtyBytes)
  with_selection buf sel = sel >>= λ sel'. some (record buf { selection = sel' }, change_length)

  unfoldable pub apply_delta : CurrentBuffer → X.Delta → Option (CurrentBuffer × DirtyBytes)
  unfolding apply_delta_to_current_buffer
  apply_delta buf delta =
      with_selection (apply_delta_to_current_buffer buf delta true)
        (move_along X buf.selection delta (length buf.text))

  unfoldable pub apply_delta_offset_carets :
      CurrentBuffer → X.Delta → ℤ → ℤ → Option (CurrentBuffer × DirtyBytes)
  unfolding apply_delta_to_current_buffer
  apply_delta_offset_carets buf delta caret_offset tail_offset =
      with_selection (apply_delta_to_current_buffer buf delta true)
        (move_along_by X buf.selection delta caret_offset tail_offset (length buf.text))

  unfoldable pub apply_incomplete_delta :
      CurrentBuffer → X.Delta → Option (CurrentBuffer × DirtyBytes)
  unfolding apply_delta_to_current_buffer
  apply_incomplete_delta buf delta =
      with_selection (apply_delta_to_current_buffer buf delta false)
        (move_along X buf.selection delta (length buf.text))

  unfoldable pub apply_incomplete_delta_offset_carets :
      CurrentBuffer → X.Delta → ℤ → ℤ → Option (CurrentBuffer × DirtyBytes)
  unfolding apply_delta_to_current_buffer
  apply_incomplete_delta_offset_carets buf delta caret_offset tail_offset =
      with_selection (apply_delta_to_current_buffer buf delta false)
        (move_along_by X buf.selection delta caret_offset tail_offset (length buf.text))

  unfoldable pub commit_delta : CurrentBuffer → CurrentBuffer
  commit_delta buf = record buf { history = commit_partial X buf.history }

  -- What `perform_undo` and `perform_redo` do with the history's answer.
  go_back :
      CurrentBuffer → History X × Option (X.Delta × Selection) → CurrentBuffer × Option DirtyBytes
  go_back buf (h, none) = (record buf { history = h }, none)
  go_back buf (h, some (delta, old_selection)) = (
    record buf {
      history = h;
      selection = old_selection;
      text = X.apply delta buf.text;
      dirty = true;
    },
    some change_length,
  )

  unfoldable pub perform_undo : CurrentBuffer → CurrentBuffer × Option DirtyBytes
  unfolding go_back
  perform_undo buf = go_back buf (undo X buf.history buf.text buf.selection)

  unfoldable pub perform_redo : CurrentBuffer → CurrentBuffer × Option DirtyBytes
  unfolding go_back
  perform_redo buf = go_back buf (redo X buf.history buf.text buf.selection)

  unfoldable pub switch_main_sel :
      CurrentBuffer → (Selection → Option Selection) → Option (CurrentBuffer × DirtyBytes)
  switch_main_sel buf f = do
    old_main ← main_of buf.selection
    sel ← f buf.selection
    new_main ← main_of sel
    some (
      record buf { selection = sel },
      change_in_place (inclusive old_main ∷ inclusive new_main ∷ []),
    )

  unfoldable pub modify_sels_in_place :
      CurrentBuffer → (Selection → Option Selection) → Option (CurrentBuffer × DirtyBytes)
  modify_sels_in_place buf f = do
    sel ← f buf.selection
    some (record buf { selection = sel }, change_in_place (map inclusive buf.selection.regions))

  -- `index % sel.len()`, a panic on no regions
  abbrev index_in : Selection → ℕ → Option ℕ
  index_in s index = if length s.regions == 0 then none else some (index % length s.regions)

  unfoldable pub remove_selection : CurrentBuffer → ℕ → Option (CurrentBuffer × DirtyBytes)
  unfolding modify_sels_in_place
  remove_selection buf index = modify_sels_in_place buf (λ s. index_in s index >>= λ i. remove s i)

  unfoldable pub retain_selection : CurrentBuffer → ℕ → Option (CurrentBuffer × DirtyBytes)
  unfolding modify_sels_in_place
  retain_selection buf index = modify_sels_in_place buf (λ s. index_in s index >>= λ i. retain s i)

  unfoldable pub select_next : CurrentBuffer → ℕ → Option (CurrentBuffer × DirtyBytes)
  unfolding switch_main_sel
  select_next buf count = switch_main_sel buf (λ s. next s count)

  unfoldable pub select_prev : CurrentBuffer → ℕ → Option (CurrentBuffer × DirtyBytes)
  unfolding switch_main_sel
  select_prev buf count = switch_main_sel buf (λ s. prev s count)

  -- `registers.insert(reg, values)`
  abbrev pub set_register : CurrentBuffer → ℕ → List (List ℕ) → CurrentBuffer
  set_register buf reg values = record buf {
    registers = λ r. if r == reg then some values else buf.registers r;
  }

  -- The bytes of each region.
  abbrev pub yanked_values : Rope → List SelRegion → Option (List (List ℕ))
  yanked_values text [] = some []
  yanked_values text (r ∷ rs) = do
    value ← slice_or_panic text (min_of r) (add_usize (max_of r) 1)
    values ← yanked_values text rs
    some (value ∷ values)

  unfoldable pub yank_selections : CurrentBuffer → ℕ → Option CurrentBuffer
  yank_selections buf reg =
      if length buf.text == 0
      then some (set_register buf reg (replicate (length buf.selection.regions) []))
      else do
        values ← yanked_values buf.text buf.selection.regions
        some (set_register buf reg values)

  unfoldable pub overflow_sel_style : CurrentBuffer → Option (Option OverflowSelectionStyle)
  overflow_sel_style buf = do
    last_sel ← last buf.selection.regions
    let len = length buf.text
    some (
        if last_sel.caret == len && last_sel.tail == len
        then some cursor_tail
        else if last_sel.caret == len
        then some cursor
        else if last_sel.tail == len
        then some tail
        else none)

  unfoldable pub update_path_if_missing : CurrentBuffer → FilePath → CurrentBuffer
  update_path_if_missing buf path = elim buf.path [
    | none ↦ record buf { path = some path }
    | some p ↦ buf
  ]
