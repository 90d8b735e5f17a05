-- ===== src/Selection/Delta.antt =====
-- src/selection.rs: `apply_delta` and `apply_delta_offset_carets`, which move a selection along with
-- an edit of the text.
use tofu_hex_editor.Prelude.{ℕ, min, true, Option, some, ◌==◌, if◌then◌else◌}
use tofu_hex_editor.Prelude.Int.{ℤ}
use tofu_hex_editor.Machine.{as_isize, as_usize, add_isize}
use tofu_hex_editor.Xi.{Xi}
use tofu_hex_editor.Selection.Region.{new}
use tofu_hex_editor.Selection.Defs.{Selection, default, map_each}

module _ (X : Xi) where
  -- One end of a region: the overflow position stays the overflow position.
  unfoldable pub moved : X.Delta → ℕ → ℕ → ℕ
  moved delta max_len offset =
      if max_len == offset
      then X.new_document_len delta
      else min (X.new_document_len delta) (X.transform delta offset true)

  unfoldable pub apply_delta : Selection → X.Delta → ℕ → Option Selection
  unfolding moved
  apply_delta s delta max_len =
      if X.new_document_len delta == 0
      then some default
      else map_each (λ r. some (new (moved delta max_len r.caret) (moved delta max_len r.tail))) s

  moved_by : X.Delta → ℕ → ℤ → ℕ → ℕ
  moved_by delta max_len by offset =
      if max_len == offset
      then as_usize (add_isize (as_isize (X.new_document_len delta)) by)
      else min (X.new_document_len delta)
          (as_usize (add_isize (as_isize (X.transform delta offset true)) by))

  unfoldable pub apply_delta_offset_carets : Selection → X.Delta → ℤ → ℤ → ℕ → Option Selection
  unfolding moved_by
  apply_delta_offset_carets s delta caret_offset tail_offset max_len =
      if X.new_document_len delta == 0
      then some default
      else map_each
          (λ r. some (
            new (moved_by delta max_len caret_offset r.caret)
              (moved_by delta max_len tail_offset r.tail)))
          s
