-- ===== src/Buffer/Regions.antt =====
-- `map_selections` of src/current_buffer.rs against the one of src/selection.rs: the notes that it
-- takes for the drawing do not change the selection.
use tofu_hex_editor.Prelude.{
  ℕ, suc, ◌≡◌, refl, ap, ◌∙◌, Option, some, List, [], ◌∷◌, ◌++◌, map, rev_onto, some_inj,
  >>=-eq-some, ◌==◌,
}
use tofu_hex_editor.Xi.{Xi}
use tofu_hex_editor.Selection.Region.{SelRegion}
use tofu_hex_editor.Selection.Defs.{
  Selection, Mapper, each, map_each, map_from, map_selections as map_regions, push_all, mark_last,
}
use tofu_hex_editor.Buffer.{
  CurrentBuffer, DirtyBytes, Interval, noting, inclusive, map_selections, disjoint, sort_starts,
  change_in_place,
}

module _ (X : Xi) where
  noting_step :
      {S : Type 0} (f : Mapper S) (main i : ℕ) (r : SelRegion)
      (rs out out1 out2 news : List SelRegion) (m m2 : ℕ) (s s1 : S) (noted : List Interval)
      → f r s ≡ some (news, s1)
      → push_all news out ≡ some out1
      → mark_last (i == main) out1 m ≡ some (out2, m2)
      → map_from (noting X f) main i (r ∷ rs) out m (s, noted)
        ≡ map_from
            (noting X f)
            main
            (suc i)
            rs
            out2
            m2
            (s1, noted ++ inclusive r ∷ map inclusive news)
  unfolding map_from noting
  noting_step f main i r rs out out1 out2 news m m2 s s1 noted e1 e2 e3 = rw e1 (rw e2 (rw e3 refl))

  map_from-noting :
      {S : Type 0} (f : Mapper S) (main i : ℕ) (rs out : List SelRegion) (m : ℕ) (s : S)
      (noted : List Interval) (sel : Selection) (s' : S)
      → map_from f main i rs out m s ≡ some (sel, s')
      → (noted' : List Interval) × (map_from (noting X f) main i rs out m (s, noted)
          ≡ some (sel, (s', noted')))
  unfolding map_from
  map_from-noting f main i [] out m s noted sel s' e =
      (noted, ap (λ p. some (p.0, (p.1, noted))) (some_inj e))
  map_from-noting f main i (r ∷ rs) out m s noted sel s' e =
      let ((news, s1), e1, t1) = >>=-eq-some (f r s) _ e in
      let (out1, e2, t2) = >>=-eq-some (push_all news out) _ t1 in
      let ((out2, m2), e3, t3) = >>=-eq-some (mark_last (i == main) out1 m) _ t2 in
      let (noted', k) =
        map_from-noting f main (suc i) rs out2 m2 s1 (noted ++ inclusive r ∷ map inclusive news) sel
          s' t3 in
      (noted', noting_step f main i r rs out out1 out2 news m m2 s s1 noted e1 e2 e3 ∙ k)

  -- What `map_each` does to the selection, `map_selections` does to the buffer.
  pub map_selections-each :
      (f : SelRegion → Option SelRegion) (buf : CurrentBuffer X) (sel : Selection)
      → map_each f buf.selection ≡ some sel
      → (dirty : DirtyBytes) × (map_selections X (each f) buf tt
          ≡ some (record buf { selection = sel }, dirty, tt))
  unfolding map_each map_regions map_selections
  map_selections-each f buf sel e =
      let ((sel0, u), e0, t) = >>=-eq-some (map_regions (each f) buf.selection tt) _ e in
      let e' = e0 ∙ ap (λ x. some (x, u)) (some_inj t) in
      let (noted, k) =
        map_from-noting (each f) buf.selection.main_selection 0 buf.selection.regions [] 0 tt [] sel
          u e' in
      (change_in_place (rev_onto (disjoint X [] (sort_starts noted)) []), rw k refl)
