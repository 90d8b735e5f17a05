-- ===== src/Selection/Apart.antt =====
-- Motions of both ends of the regions through `map_selections` of src/selection.rs.
use tofu_hex_editor.Prelude.{
  ℕ, suc, ◌≤◌, ◌<◌, min, max, ◌≡◌, refl, Bool, true, false, Option, some, List, [], ◌∷◌, rev_onto,
  length, arith, ◌==◌, sym, some_fst,
}
use tofu_hex_editor.Selection.Region.{SelRegion, new, min_of, max_of}
use tofu_hex_editor.Selection.Defs.{
  Selection, push_region, push_all, mark_last, map_from, each, map_each, map_selections,
}
use tofu_hex_editor.Selection.Order.{IsOrdered, Below, Rises}
use tofu_hex_editor.Selection.Marks.{GivesUnmarked, IsValid, map_selections-IsValid}
use tofu_hex_editor.Selection.Bounds.{InBounds, map_selections-InBounds}

-- The closure that takes both ends of a region along.
abbrev pub ends_at : (ℕ → ℕ) → SelRegion → Option SelRegion
ends_at g r = some (new (g r.caret) (g r.tail))

push_apart :
    (r : SelRegion) (out : List SelRegion)
    → Below out (min_of r)
    → push_region r out ≡ some (r ∷ out)
unfolding push_region
push_apart r [] b = refl
push_apart r (last ∷ out) b = ground arith

mark_apart :
    (b : Bool) (r : SelRegion) (out : List SelRegion) (n k : ℕ)
    → max_of r < k
    → (out' : List SelRegion) × (m : ℕ) × (mark_last b (r ∷ out) n ≡ some (out', m)) × Below out' k
unfolding mark_last
mark_apart false r out n k h = (r ∷ out, n, refl, h)
mark_apart true r out n k h = (_, length out, refl, h)

module _ (g : ℕ → ℕ) (len : ℕ) (mono : (a b : ℕ) → a ≤ b → g a ≤ g b)
    (strict : (a b : ℕ) → a < b → b ≤ len → g a < g b) where
  EndsEntry : List SelRegion → List SelRegion → Type 0
  EndsEntry out [] = Unit
  EndsEntry out (r ∷ rs) = Below out (min (g r.caret) (g r.tail))

  EndsEntry-nil : (rs : List SelRegion) → EndsEntry [] rs
  unfolding EndsEntry
  EndsEntry-nil [] = tt
  EndsEntry-nil (r ∷ rs) = tt

  -- Regions that are apart stay so.
  ends_apart :
      (r q : SelRegion)
      → max_of r < min_of q
      → max_of q ≤ len
      → max (g r.caret) (g r.tail) < min (g q.caret) (g q.tail)
  ends_apart r q h k =
      let a = strict r.caret q.caret (omega arith) (omega arith) in
      let b = strict r.caret q.tail (omega arith) (omega arith) in
      let c = strict r.tail q.caret (omega arith) (omega arith) in
      let d = strict r.tail q.tail (omega arith) (omega arith) in omega (arith, a, b, c, d)

  map_from_ends :
      (main i : ℕ) (rs out : List SelRegion) (n : ℕ)
      → IsOrdered rs
      → InBounds len rs
      → EndsEntry out rs
      → (sel' : Selection) × (map_from (each (ends_at g)) main i rs out n tt ≡ some (sel', tt))
  unfolding map_from EndsEntry push_all
  map_from_ends main i [] out n o b p =
      (record { regions = rev_onto out []; main_selection = n }, refl)
  map_from_ends main i (r ∷ []) out n o b p =
      let (out₂, m, e₂, p₂) =
        mark_apart (i == main) (new (g r.caret) (g r.tail)) out n (suc (max (g r.caret) (g r.tail)))
          (omega arith) in
      let (sel', e₃) = map_from_ends main (suc i) [] out₂ m tt tt tt in
      (sel', rw (push_apart (new (g r.caret) (g r.tail)) out p) (rw e₂ e₃))
  map_from_ends main i (r ∷ q ∷ rs) out n o b p =
      let (out₂, m, e₂, p₂) =
        mark_apart (i == main) (new (g r.caret) (g r.tail)) out n (min (g q.caret) (g q.tail))
          (ends_apart r q o.0 b.1.0) in
      let (sel', e₃) = map_from_ends main (suc i) (q ∷ rs) out₂ m o.1 b.1 p₂ in
      (sel', rw (push_apart (new (g r.caret) (g r.tail)) out p) (rw e₂ e₃))

  ends_start : SelRegion → ℕ
  ends_start r = min (g r.caret) (g r.tail)

  ends-Rises : Rises (each (ends_at g)) ends_start ends_start
  unfolding ends_start
  ends-Rises = record {
    rising = λ r s s' rs e. rw (sym (some_fst e)) (omega arith);
    apart = λ r q h.
        omega (arith, mono r.caret q.caret (omega arith), mono r.caret q.tail (omega arith));
  }

  ends-GivesUnmarked : GivesUnmarked (each (ends_at g))
  ends-GivesUnmarked r s s' rs e = rw (sym (some_fst e)) (refl, tt)

  -- A motion of the ends that is strictly monotone in the text never makes `map_selections` panic, and
  -- keeps a selection valid.
  pub map_ends :
      (sel : Selection)
      → IsValid sel
      → InBounds len sel.regions
      → (sel' : Selection) × (map_each (ends_at g) sel ≡ some sel')
        × IsValid sel'
        × InBounds (g len) sel'.regions
  unfolding map_each map_selections
  map_ends sel v b =
      let (sel', e) =
        map_from_ends sel.main_selection 0 sel.regions [] 0 v.ordered b
          (EndsEntry-nil sel.regions) in
      (
        sel',
        rw e refl,
        map_selections-IsValid (each (ends_at g)) ends_start ends_start ends-Rises
            ends-GivesUnmarked sel sel' tt tt v e,
        map_selections-InBounds (each (ends_at g)) len (g len)
            (λ r s s' rs k e'.
              rw (sym (some_fst e'))
                (omega (arith, mono r.caret len (omega arith), mono r.tail len (omega arith)), tt))
            sel sel' tt tt b e,
      )
