-- ===== src/Operations.antt =====
-- src/operations.rs: the deltas of the editing commands. `DeltaBuilder` panics if the intervals are
-- not sorted; a panic is `none`.
pub mod Built
pub mod Places
pub mod Held
pub mod Carets
use tofu_hex_editor.Prelude.{
  ℕ, zero, suc, ◌-◌, min, bit_and, bit_or, Bool, Option, none, some, ◌>>=◌, List, [], ◌∷◌, ◌++◌,
  length, take, drop, replicate, ltb, leb, ◌==◌, if◌then◌else◌,
}
use tofu_hex_editor.Machine.{add_usize, sub_usize}
use tofu_hex_editor.Xi.{Xi, Rope}
use tofu_hex_editor.Selection.Region.{SelRegion, max_of, min_of}
use tofu_hex_editor.Selection.Defs.{Selection}

-- `Rope::slice_to_cow` on the bytes of the rope
abbrev pub slice_to_cow : Rope → ℕ → ℕ → List ℕ
slice_to_cow r start end = take (end - start) (drop start r)

-- The same for a range that may be out of the text: where it starts behind the end, the iterator of
-- the chunks slices a leaf out of range, which panics.
abbrev pub slice_or_panic : Rope → ℕ → ℕ → Option (List ℕ)
slice_or_panic r start end =
    if leb end start
    then some []
    else if ltb (length r) start
    then none
    else some (slice_to_cow r start end)

-- `iter().last()`
abbrev pub last : {A : Type 0} → List A → Option A
last [] = none
last (x ∷ []) = some x
last (x ∷ y ∷ xs) = last (y ∷ xs)

-- `repeat(pasted).take(count).flatten()`
abbrev pub repeated : List ℕ → ℕ → List ℕ
repeated pasted zero = []
repeated pasted (suc count) = pasted ++ repeated pasted count

module _ (X : Xi) where
  -- The loop of an operation: one step of the builder for each region.
  abbrev pub for_regions :
      (X.Builder → SelRegion → Option X.Builder) → X.Builder → List SelRegion → Option X.Builder
  for_regions step b [] = some b
  for_regions step b (r ∷ rs) = step b r >>= λ b'. for_regions step b' rs

  abbrev pub built : Rope → Selection → (X.Builder → SelRegion → Option X.Builder) → Option X.Delta
  built base s step = do b ← for_regions step (X.builder (length base)) s.regions; some (X.build b)

  -- `if !iv.is_empty() { builder.delete(iv) }`
  abbrev pub delete_unless_empty : X.Builder → ℕ → ℕ → Option X.Builder
  delete_unless_empty b start end = if leb end start then some b else X.delete b start end

  unfoldable pub deletion : Rope → Selection → Option X.Delta
  deletion base s = built base s (λ b r. delete_unless_empty b (min_of r) (add_usize (max_of r) 1))

  unfoldable pub backspace : Rope → Selection → Option X.Delta
  backspace base s =
      built base s
        (λ b r. if r.caret == 0 then some b else X.delete b (sub_usize r.caret 1) r.caret)

  unfoldable pub delete_cursor : Rope → Selection → Option X.Delta
  delete_cursor base s =
      built base s (λ b r. delete_unless_empty b r.caret (min (length base) (add_usize r.caret 1)))

  unfoldable pub insert : Rope → Selection → List ℕ → Option X.Delta
  insert base s text = built base s (λ b r. X.replace b r.caret r.caret text)

  paste_position : Rope → Bool → SelRegion → ℕ
  paste_position base after r =
      if after then min (length base) (add_usize (max_of r) 1) else min_of r

  -- The regions with what is pasted at each: the register's values, and the last one from there on.
  paste_from :
      Rope → Bool → ℕ → List ℕ → List (List ℕ) → X.Builder → List SelRegion → Option X.Builder
  unfolding paste_position
  paste_from base after count last_value contents b [] = some b
  paste_from base after count last_value [] b (r ∷ rs) =
      X.replace b (paste_position base after r) (paste_position base after r)
        (repeated last_value count)
      >>= λ b'. paste_from base after count last_value [] b' rs
  paste_from base after count last_value (pasted ∷ contents) b (r ∷ rs) =
      X.replace b (paste_position base after r) (paste_position base after r)
        (repeated pasted count)
      >>= λ b'. paste_from base after count last_value contents b' rs

  unfoldable pub paste : Rope → Selection → List (List ℕ) → Bool → ℕ → Option X.Delta
  unfolding paste_from
  paste base s register_contents after count = do
    last_value ← last register_contents
    b ← paste_from base after count last_value register_contents (X.builder (length base)) s.regions
    some (X.build b)

  unfoldable pub change : Rope → Selection → List ℕ → Option X.Delta
  change base s text = built base s (λ b r. X.replace b r.caret (add_usize r.caret 1) text)

  -- `slice_to_cow(iv)[0] & 0x0F`, or 0 past the end
  low_half : Rope → ℕ → Option ℕ
  low_half base caret = elim (slice_to_cow base caret (add_usize caret 1)) [
    | [] ↦ if ltb caret (length base) then none else some 0
    | x ∷ xs ↦ if ltb caret (length base) then some (bit_and x 0x0f) else some 0
  ]

  unfoldable pub overwrite_half : Rope → Selection → ℕ → Option X.Delta
  unfolding low_half
  overwrite_half base s top = built base s (λ b r. low_half base r.caret >>= λ base_char.
      X.replace b r.caret (add_usize r.caret 1) (bit_or base_char top ∷ []))

  unfoldable pub replace : Rope → Selection → ℕ → Option X.Delta
  replace base s ch = built base s (λ b r.
      X.replace b (min_of r) (add_usize (max_of r) 1)
        (replicate (add_usize (sub_usize (max_of r) (min_of r)) 1) ch))
