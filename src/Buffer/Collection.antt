-- ===== src/Buffer/Collection.antt =====
-- `BuffrCollection` of src/current_buffer.rs: the open buffers and the index of the current one.
pub mod Switch
use tofu_hex_editor.Prelude.{
  ℕ, zero, suc, ◌+◌, ◌-◌, ◌<◌, ◌≡◌, ◌≢◌, refl, sym, ap, ◌∙◌, Bool, true, false, ◌&&◌, Option, none,
  some, ◌>>=◌, List, [], ◌∷◌, ◌++◌, length, get_elem?, erase_idx, length-append, ◌==◌, ltb,
  if◌then◌else◌, arith, some_inj, >>=-eq-some, Bool-cases, Option-cases, ==_iff, inl, inr,
}
use tofu_hex_editor.Xi.{Xi}
use tofu_hex_editor.Buffer.{CurrentBuffer, FilePath, from_data_and_path, scratch}

unfoldable pub same_path : FilePath → FilePath → Bool
same_path [] [] = true
same_path (a ∷ p) (b ∷ q) = (a == b) && same_path p q
same_path p q = false

-- `Path::canonicalize` and `std::fs::read`; none is an error.
pub record Disk : Type 0 where
  pub canonicalize : FilePath → Option FilePath
  pub read : FilePath → Option (List ℕ)

module _ (X : Xi) where
  pub record BuffrCollection : Type 0 where
    pub list : List (CurrentBuffer X)
    pub cur_buf_index : ℕ

  abbrev pub with_current_buffer : CurrentBuffer X → BuffrCollection
  with_current_buffer buf = record { list = buf ∷ []; cur_buf_index = 0 }

  abbrev pub new : BuffrCollection
  new = with_current_buffer (scratch X)

  abbrev pub current : BuffrCollection → Option (CurrentBuffer X)
  current c = get_elem? c.list c.cur_buf_index

  -- The buffer at an index replaced; `current_mut` gives the access.
  abbrev put_at : List (CurrentBuffer X) → ℕ → CurrentBuffer X → List (CurrentBuffer X)
  put_at [] i buf = []
  put_at (b ∷ list) zero buf = buf ∷ list
  put_at (b ∷ list) (suc i) buf = b ∷ put_at list i buf

  abbrev pub set_current : BuffrCollection → CurrentBuffer X → BuffrCollection
  set_current c buf = record c { list = put_at c.list c.cur_buf_index buf }

  get_elem?-put_at :
      (list : List (CurrentBuffer X)) (i : ℕ) (buf new : CurrentBuffer X)
      → get_elem? list i ≡ some buf
      → get_elem? (put_at list i new) i ≡ some new
  get_elem?-put_at [] i buf new h = cc
  get_elem?-put_at (b ∷ list) zero buf new h = refl
  get_elem?-put_at (b ∷ list) (suc i) buf new h = get_elem?-put_at list i buf new h

  pub current-set_current :
      (c : BuffrCollection) (buf new : CurrentBuffer X)
      → current c ≡ some buf
      → current (set_current c new) ≡ some new
  current-set_current c buf new h = get_elem?-put_at c.list c.cur_buf_index buf new h

  -- The loop over the list from index `i` on: where the file is open, or none for an error.
  unfoldable pub find_open : Disk → FilePath → ℕ → List (CurrentBuffer X) → Option (Option ℕ)
  unfolding same_path
  find_open disk canon i [] = some none
  find_open disk canon i (buf ∷ list) = elim buf.path [
    | none ↦ find_open disk canon (suc i) list
    | some path ↦ disk.canonicalize path >>= λ c.
        if same_path c canon then some (some i) else find_open disk canon (suc i) list
  ]

  -- What `switch_current_buffer` does behind its loop.
  unfoldable pub switch_to : Disk → BuffrCollection → FilePath → Option ℕ → Option BuffrCollection
  switch_to disk c filename (some i) = some (record c { cur_buf_index = i })
  switch_to disk c filename none = disk.read filename >>= λ bytes. some (record {
    list = c.list ++ from_data_and_path X bytes (some filename) ∷ [];
    cur_buf_index = length (c.list ++ from_data_and_path X bytes (some filename) ∷ []) - 1;
  })

  -- None is an error, and leaves the collection as it is.
  unfoldable pub switch_current_buffer : Disk → BuffrCollection → FilePath → Option BuffrCollection
  unfolding find_open switch_to
  switch_current_buffer disk c filename = do
    canon ← disk.canonicalize filename
    found ← find_open disk canon 0 c.list
    switch_to disk c filename found

  -- `if self.list.is_empty() { self.list.push(…) }`
  abbrev or_scratch : List (CurrentBuffer X) → List (CurrentBuffer X)
  or_scratch [] = scratch X ∷ []
  or_scratch (buf ∷ list) = buf ∷ list

  -- None is the panic of `remove` out of range.
  unfoldable pub delete_current : BuffrCollection → Option BuffrCollection
  delete_current c =
      if ltb c.cur_buf_index (length c.list)
      then some (record {
        list = or_scratch (erase_idx c.list c.cur_buf_index);
        cur_buf_index = c.cur_buf_index - 1;
      })
      else none

  -- The current buffer exists.
  abbrev pub IsOpen : BuffrCollection → Type 0
  IsOpen c = c.cur_buf_index < length c.list

  length-or_scratch :
      (list : List (CurrentBuffer X)) (i : ℕ)
      → i < length list
      → i - 1 < length (or_scratch (erase_idx list i))
  length-or_scratch [] i h = absurd (omega arith)
  length-or_scratch (buf ∷ []) zero h = omega arith
  length-or_scratch (buf ∷ b ∷ list) zero h = omega arith
  length-or_scratch (buf ∷ list) (suc i) h = omega (arith, erased list i (omega arith))
    where
      erased :
          (list : List (CurrentBuffer X)) (i : ℕ)
          → i < length list
          → suc (length (erase_idx list i)) ≡ length list
      erased [] i h = absurd (omega arith)
      erased (b ∷ list) zero h = refl
      erased (b ∷ list) (suc i) h = ap suc (erased list i (omega arith))

  -- Closing the current buffer of a collection whose current buffer exists does not panic, and there
  -- is a current buffer again.
  pub delete_current-IsOpen :
      (c : BuffrCollection)
      → IsOpen c
      → (c' : BuffrCollection) × (delete_current c ≡ some c') × IsOpen c'
  unfolding delete_current
  delete_current-IsOpen c h = (
    record {
      list = or_scratch (erase_idx c.list c.cur_buf_index);
      cur_buf_index = c.cur_buf_index - 1;
    },
    ground arith,
    length-or_scratch c.list c.cur_buf_index h,
  )
