-- ===== src/Selection/Inserted.antt =====
-- The selection of src/selection.rs through `apply_delta` by an insertion at its carets.
use tofu_hex_editor.Prelude.{
  ℕ, min, ◌≤◌, ◌≡◌, refl, sym, ap, ◌∙◌, some, List, [], ◌∷◌, length, ◌==◌, arith, Bool-cases, inl,
  inr,
}
use tofu_hex_editor.Xi.{Rope, Xi, XiLaws}
use tofu_hex_editor.Xi.Changes.{
  Change, AreSorted, AreInsertions, landed, landed_mono, landed_strict, landed-length,
}
use tofu_hex_editor.Selection.Region.{SelRegion, new}
use tofu_hex_editor.Selection.Defs.{Selection, default}
use tofu_hex_editor.Selection.Delta.{moved, apply_delta}
use tofu_hex_editor.Selection.Marks.{IsValid}
use tofu_hex_editor.Selection.Bounds.{InBounds}
use tofu_hex_editor.Selection.Points.{Agree, map_each-Agree}
use tofu_hex_editor.Selection.Apart.{ends_at, map_ends}
use tofu_hex_editor.Selection.Deleted.{default-IsValid}
use tofu_hex_editor.Operations.Built.{Does}

module _ (X : Xi) (L : XiLaws X) (delta : X.Delta) (base : Rope) (cs : List Change)
    (d : Does X L delta cs base) (s : AreSorted 0 cs (length base)) where
  abbrev goes : ℕ → ℕ
  goes i = landed 0 cs (length base) i

  -- The end of the text goes to the end of the new one.
  goes-length : goes (length base) ≡ X.new_document_len delta
  goes-length =
      landed-length 0 (length base) cs base s (omega arith)
      ∙ sym (ap length d.text)
      ∙ sym (L.new_document_len-apply delta base d.fits)

  moved_lem : (i : ℕ) → i ≤ length base → moved X delta (length base) i ≡ goes i
  unfolding moved
  moved_lem i h = elim (Bool-cases (length base == i)) [
    | inl t ↦
        let same : length base ≡ i = ground (arith, t) in rw t (sym goes-length ∙ ap goes same)
    | inr f ↦
        let within = landed_mono 0 cs (length base) i (length base) h in
        rw f (ap (min (X.new_document_len delta)) (d.lands i) ∙ omega (arith, within, goes-length))
  ]

  moved-Agree :
      (rs : List SelRegion)
      → InBounds (length base) rs
      → Agree
          (λ r.
            some (new (moved X delta (length base) r.caret) (moved X delta (length base) r.tail)))
          (ends_at goes)
          rs
  moved-Agree [] b = tt
  moved-Agree (r ∷ rs) b = (
    ap (λ c. some (new c (moved X delta (length base) r.tail)))
          (moved_lem r.caret (omega (arith, b.0)))
        ∙ ap (λ c. some (new (goes r.caret) c)) (moved_lem r.tail (omega (arith, b.0))),
    moved-Agree rs b.1,
  )

  -- Moving a valid selection within the text along with insertions does not panic, and gives a valid
  -- selection within the new text.
  pub apply_delta-IsValid :
      (sel : Selection)
      → IsValid sel
      → InBounds (length base) sel.regions
      → AreInsertions cs
      → (sel' : Selection) × (apply_delta X sel delta (length base) ≡ some sel')
        × IsValid sel'
        × InBounds (length (X.apply delta base)) sel'.regions
  unfolding apply_delta
  apply_delta-IsValid sel v b n = elim (Bool-cases (X.new_document_len delta == 0)) [
    | inl t ↦ (default, rw t refl, default-IsValid, (omega arith, tt))
    | inr f ↦
        let (sel', e, v', b') =
          map_ends goes (length base) (λ i j h. landed_mono 0 cs (length base) i j h)
            (λ i j h k. landed_strict 0 cs (length base) i j s n (omega arith) h k) sel v b in
        let len : goes (length base) ≡ length (X.apply delta base) =
          goes-length ∙ L.new_document_len-apply delta base d.fits in
        (
          sel',
          rw f (map_each-Agree _ (ends_at goes) sel (moved-Agree sel.regions b) ∙ e),
          v',
          rw (sym len) b',
        )
  ]
