-- ===== src/Buffer/Text.antt =====
-- The text of a buffer of src/current_buffer.rs through edits, undo and redo.
use tofu_hex_editor.Prelude.{
  ℕ, zero, suc, ◌≡◌, ◌≢◌, refl, sym, ◌∙◌, true, Option, some, List, [], ◌∷◌, length, some_fst,
  >>=-eq-some,
}
use tofu_hex_editor.Xi.{Rope, Xi, XiLaws}
use tofu_hex_editor.Selection.Defs.{Selection}
use tofu_hex_editor.History.{Action, from_delta, invert, perform_final, undo, redo}
use tofu_hex_editor.History.Inverse.{apply-invert}
use tofu_hex_editor.Selection.Delta.{apply_delta as move_along}
use tofu_hex_editor.Buffer.{
  CurrentBuffer, DirtyBytes, apply_delta, apply_delta_to_current_buffer, perform_undo, perform_redo,
  from_data_and_path, FilePath,
}

module _ (X : Xi) (L : XiLaws X) where
  open L use {base_len}

  -- The actions of a stack can be done one after the other, from the text on.
  abbrev pub CanGo : List (Action X × Selection) → Rope → Type 0
  CanGo [] t = Unit
  CanGo ((a, s) ∷ rest) t = (base_len a.delta ≡ length t) × CanGo rest (X.apply a.delta t)

  -- The text that they lead to.
  abbrev pub origin : List (Action X × Selection) → Rope → Rope
  origin [] t = t
  origin ((a, s) ∷ rest) t = origin rest (X.apply a.delta t)

  pub record IsConsistent (buf : CurrentBuffer X) : Type 0 where
    pub back : CanGo buf.history.undo_stack buf.text
    pub forth : CanGo buf.history.redo_stack buf.text

  abbrev pub first_text : CurrentBuffer X → Rope
  first_text buf = origin buf.history.undo_stack buf.text

  -- A step back in one stack is a step forth in the other.
  push_inverse :
      (a : Action X) (s : Selection) (t : Rope) (stack : List (Action X × Selection))
      → base_len a.delta ≡ length t
      → CanGo stack t
      → CanGo ((invert X a t, s) ∷ stack) (X.apply a.delta t)
        × (origin ((invert X a t, s) ∷ stack) (X.apply a.delta t) ≡ origin stack t)
  push_inverse a s t stack fits c =
      let (len, back) = apply-invert X L a t fits in ((len, rw back c), rw back refl)

  edited : CurrentBuffer X → X.Delta → CurrentBuffer X
  edited buf delta = apply_delta_to_current_buffer X buf delta true

  edited-IsConsistent :
      (buf : CurrentBuffer X) (delta : X.Delta)
      → base_len delta ≡ length buf.text
      → IsConsistent buf
      → IsConsistent (edited buf delta) × (first_text (edited buf delta) ≡ first_text buf)
  unfolding edited apply_delta_to_current_buffer perform_final
  edited-IsConsistent buf delta fits c =
      let (go, same) =
        push_inverse (from_delta X delta) buf.selection buf.text buf.history.undo_stack fits
          c.back in
      (record { back = go; forth = tt }, same)

  apply_delta-edited :
      (buf buf' : CurrentBuffer X) (delta : X.Delta) (dirty : DirtyBytes)
      → apply_delta X buf delta ≡ some (buf', dirty)
      → (sel' : Selection) × (buf' ≡ record (edited buf delta) { selection = sel' })
  unfolding edited apply_delta
  apply_delta-edited buf buf' delta dirty e =
      let (sel', p, q) = >>=-eq-some (move_along X buf.selection delta (length buf.text)) _ e in
      (sel', sym (some_fst q))

  -- After an edit that does not panic, by a delta for the buffer's text, undo gives back the text and
  -- the selection from before it.
  pub perform_undo-apply_delta :
      (buf buf' : CurrentBuffer X) (delta : X.Delta) (dirty : DirtyBytes)
      → base_len delta ≡ length buf.text
      → apply_delta X buf delta ≡ some (buf', dirty)
      → ((perform_undo X buf').0.text ≡ buf.text)
        × ((perform_undo X buf').0.selection ≡ buf.selection)
  unfolding edited apply_delta_to_current_buffer perform_final perform_undo undo
  perform_undo-apply_delta buf buf' delta dirty fits e =
      let (sel', e') = apply_delta-edited buf buf' delta dirty e in
      rw e' ((apply-invert X L (from_delta X delta) buf.text fits).1, refl)

  apply_delta-IsConsistent :
      (buf buf' : CurrentBuffer X) (delta : X.Delta) (dirty : DirtyBytes)
      → base_len delta ≡ length buf.text
      → IsConsistent buf
      → apply_delta X buf delta ≡ some (buf', dirty)
      → IsConsistent buf' × (first_text buf' ≡ first_text buf)
  apply_delta-IsConsistent buf buf' delta dirty fits c e =
      let (sel', e') = apply_delta-edited buf buf' delta dirty e in
      let (c', same) = edited-IsConsistent buf delta fits c in
      rw e' (record { back = c'.back; forth = c'.forth }, same)

  with_undo : CurrentBuffer X → List (Action X × Selection) → CurrentBuffer X
  with_undo buf us = record buf { history = record buf.history { undo_stack = us } }

  with_redo : CurrentBuffer X → List (Action X × Selection) → CurrentBuffer X
  with_redo buf rs = record buf { history = record buf.history { redo_stack = rs } }

  undo_on :
      (buf : CurrentBuffer X) (us : List (Action X × Selection))
      → CanGo us buf.text
      → CanGo buf.history.redo_stack buf.text
      → IsConsistent (perform_undo X (with_undo buf us)).0
        × (first_text (perform_undo X (with_undo buf us)).0 ≡ origin us buf.text)
  unfolding with_undo perform_undo undo
  undo_on buf [] c d = (record { back = tt; forth = d }, refl)
  undo_on buf ((a, s) ∷ us) c d =
      let (go, same) = push_inverse a buf.selection buf.text buf.history.redo_stack c.0 d in
      (record { back = c.1; forth = go }, refl)

  redo_on :
      (buf : CurrentBuffer X) (rs : List (Action X × Selection))
      → CanGo rs buf.text
      → CanGo buf.history.undo_stack buf.text
      → IsConsistent (perform_redo X (with_redo buf rs)).0
        × (first_text (perform_redo X (with_redo buf rs)).0 ≡ first_text buf)
  unfolding with_redo perform_redo redo
  redo_on buf [] c d = (record { back = d; forth = tt }, refl)
  redo_on buf ((a, s) ∷ rs) c d =
      let (go, same) = push_inverse a buf.selection buf.text buf.history.undo_stack c.0 d in
      (record { back = go; forth = c.1 }, same)

  perform_undo-IsConsistent :
      (buf : CurrentBuffer X)
      → IsConsistent buf
      → IsConsistent (perform_undo X buf).0 × (first_text (perform_undo X buf).0 ≡ first_text buf)
  unfolding with_undo
  perform_undo-IsConsistent buf c = undo_on buf buf.history.undo_stack c.back c.forth

  perform_redo-IsConsistent :
      (buf : CurrentBuffer X)
      → IsConsistent buf
      → IsConsistent (perform_redo X buf).0 × (first_text (perform_redo X buf).0 ≡ first_text buf)
  unfolding with_redo
  perform_redo-IsConsistent buf c = redo_on buf buf.history.redo_stack c.forth c.back

  -- In a consistent buffer with something to undo, redo after undo restores the text and the
  -- selection.
  pub perform_redo-perform_undo :
      (buf : CurrentBuffer X)
      → IsConsistent buf
      → buf.history.undo_stack ≢ []
      → let again = (perform_redo X (perform_undo X buf).0).0 in
        (again.text ≡ buf.text) × (again.selection ≡ buf.selection)
  unfolding with_undo perform_undo perform_redo undo redo
  perform_redo-perform_undo buf c ne = on_stack buf.history.undo_stack c.back ne
    where
      on_stack :
          (us : List (Action X × Selection))
          → CanGo us buf.text
          → us ≢ []
          → let again = (perform_redo X (perform_undo X (with_undo buf us)).0).0 in
            (again.text ≡ buf.text) × (again.selection ≡ buf.selection)
      on_stack [] g ne = absurd (ne refl)
      on_stack ((a, s) ∷ us) g ne = ((apply-invert X L a buf.text g.0).1, refl)

  -- A session: from a fresh buffer on, edits, undos and redos in any order, none of which panics.
  pub data Session (start : Rope) (path : Option FilePath) : CurrentBuffer X → Type 0 where
    fresh : Session start path (from_data_and_path X start path)
    edit :
        {buf buf' : CurrentBuffer X} (delta : X.Delta) (dirty : DirtyBytes)
        → Session start path buf
        → base_len delta ≡ length buf.text
        → apply_delta X buf delta ≡ some (buf', dirty)
        → Session start path buf'
    back :
        {buf : CurrentBuffer X} → Session start path buf → Session start path (perform_undo X buf).0
    forth :
        {buf : CurrentBuffer X} → Session start path buf → Session start path (perform_redo X buf).0

  pub Session-IsConsistent :
      {start : Rope} {path : Option FilePath} {buf : CurrentBuffer X}
      → Session start path buf
      → IsConsistent buf × (first_text buf ≡ start)
  Session-IsConsistent fresh = (record { back = tt; forth = tt }, refl)
  Session-IsConsistent (edit {buf} {buf'} delta dirty s fits e) =
      let (c, same) = Session-IsConsistent s in
      let (c', same') = apply_delta-IsConsistent buf buf' delta dirty fits c e in (c', same' ∙ same)
  Session-IsConsistent (back {buf} s) =
      let (c, same) = Session-IsConsistent s in
      let (c', same') = perform_undo-IsConsistent buf c in (c', same' ∙ same)
  Session-IsConsistent (forth {buf} s) =
      let (c, same) = Session-IsConsistent s in
      let (c', same') = perform_redo-IsConsistent buf c in (c', same' ∙ same)

  -- One `perform_undo` for each action on the stack.
  abbrev pub undo_times : ℕ → CurrentBuffer X → CurrentBuffer X
  undo_times zero buf = buf
  undo_times (suc n) buf = undo_times n (perform_undo X buf).0

  undo_times-text :
      (us : List (Action X × Selection)) (buf : CurrentBuffer X)
      → (undo_times (length us) (with_undo buf us)).text ≡ origin us buf.text
  unfolding with_undo perform_undo undo
  undo_times-text [] buf = refl
  undo_times-text ((a, s) ∷ us) buf =
      undo_times-text us (perform_undo X (with_undo buf ((a, s) ∷ us))).0

  -- After any session of edits by fitting deltas, undos and redos, undoing everything gives back the
  -- bytes that the buffer was made from.
  pub undo_times-Session :
      (start : Rope) (path : Option FilePath) (buf : CurrentBuffer X)
      → Session start path buf
      → (undo_times (length buf.history.undo_stack) buf).text ≡ start
  unfolding with_undo
  undo_times-Session start path buf s =
      undo_times-text buf.history.undo_stack buf ∙ (Session-IsConsistent s).1
