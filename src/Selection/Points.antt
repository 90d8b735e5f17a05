-- ===== src/Selection/Points.antt =====
-- Motions that turn each region into a point, such as `simple_move`, through `map_selections` of
-- src/selection.rs: the assertion and the panic of `merge` cannot fire.
use tofu_hex_editor.Prelude.{
  ℕ, suc, ◌≤◌, ◌<◌, ◌≡◌, refl, inl, inr, Bool, true, false, Option, none, some, ◌>>=◌, List, [],
  ◌∷◌, rev_onto, length, arith, Bool-cases, ◌==◌, sym, some_inj, some_fst, Option-cases,
}
use tofu_hex_editor.Selection.Region.{SelRegion, new, max_of, overlaps, merge}
use tofu_hex_editor.Selection.Defs.{
  Selection, push_region, push_all, mark_last, marked, map_from, each, map_each, map_selections,
}
use tofu_hex_editor.Selection.Order.{Above, IsOrdered, Rises}
use tofu_hex_editor.Selection.Marks.{GivesUnmarked, IsValid, map_selections-IsValid}

-- The last region pushed is a point at `c` at most.
abbrev PointBy : List SelRegion → ℕ → Type 0
PointBy [] c = Unit
PointBy (r ∷ out) c = (r.caret ≡ r.tail) × (r.caret ≤ c)

PointBy-mono : (out : List SelRegion) (b c : ℕ) → b ≤ c → PointBy out b → PointBy out c
PointBy-mono [] b c h p = tt
PointBy-mono (r ∷ out) b c h p = omega arith

push_point :
    (out : List SelRegion) (c : ℕ)
    → PointBy out c
    → (out' : List SelRegion) × (push_region (new c c) out ≡ some out')
      × PointBy out' c
      × (0 < length out')
unfolding push_region merge
push_point [] c p = (new c c ∷ [], refl, (refl, omega arith), omega arith)
push_point (last ∷ out) c p = elim (Bool-cases (overlaps last (new c c))) [
  | inl t ↦ (last ∷ out, ground arith, ground arith, ground arith)
  | inr f ↦ (new c c ∷ last ∷ out, ground arith, ground arith, ground arith)
]

mark_point :
    (b : Bool) (out : List SelRegion) (n c : ℕ)
    → PointBy out c
    → 0 < length out
    → (out' : List SelRegion) × (m : ℕ) × (mark_last b out n ≡ some (out', m)) × PointBy out' c
unfolding mark_last
mark_point false out n c p h = (out, n, refl, p)
mark_point true [] n c p h = absurd (omega arith)
mark_point true (last ∷ out) n c p h = (marked last ∷ out, length out, refl, p)

-- The closure that moves a region to the point where `g` takes its caret.
abbrev pub point_at : (ℕ → ℕ) → SelRegion → Option SelRegion
point_at g r = some (new (g r.caret) (g r.caret))

module _ (g : ℕ → ℕ) (mono : (a b : ℕ) → a ≤ b → g a ≤ g b) where
  PointEntry : List SelRegion → List SelRegion → Type 0
  PointEntry out [] = Unit
  PointEntry out (r ∷ rs) = PointBy out (g r.caret)

  PointEntry-next :
      (r : SelRegion) (rs out : List SelRegion)
      → Above (max_of r) rs
      → PointBy out (g r.caret)
      → PointEntry out rs
  unfolding PointEntry
  PointEntry-next r [] out a p = tt
  PointEntry-next r (q ∷ rs) out a p =
      PointBy-mono out (g r.caret) (g q.caret) (mono r.caret q.caret (omega arith)) p

  PointEntry-nil : (rs : List SelRegion) → PointEntry [] rs
  unfolding PointEntry
  PointEntry-nil [] = tt
  PointEntry-nil (r ∷ rs) = tt

  map_from_points :
      (main i : ℕ) (rs out : List SelRegion) (n : ℕ)
      → IsOrdered rs
      → PointEntry out rs
      → (sel' : Selection) × (map_from (each (point_at g)) main i rs out n tt ≡ some (sel', tt))
  unfolding map_from PointEntry push_all
  map_from_points main i [] out n o p =
      (record { regions = rev_onto out []; main_selection = n }, refl)
  map_from_points main i (r ∷ rs) out n o p =
      let (out₁, e₁, p₁, h₁) = push_point out (g r.caret) p in
      let (out₂, m, e₂, p₂) = mark_point (i == main) out₁ n (g r.caret) p₁ h₁ in
      let (sel', e₃) =
        map_from_points main (suc i) rs out₂ m o.1 (PointEntry-next r rs out₂ o.0 p₂) in
      (sel', rw e₁ (rw e₂ e₃))

  points-Rises : Rises (each (point_at g)) (λ r. g r.caret) (λ r. g r.caret)
  points-Rises = record {
    rising = λ r s s' rs e. rw (sym (some_fst e)) (omega arith);
    apart = λ r q h. mono r.caret q.caret (omega arith);
  }

  points-GivesUnmarked : GivesUnmarked (each (point_at g))
  points-GivesUnmarked r s s' rs e = rw (sym (some_fst e)) (refl, tt)

  -- A monotone motion of the carets never makes `map_selections` panic, and keeps a selection valid.
  pub map_points :
      (sel : Selection)
      → IsValid sel
      → (sel' : Selection) × (map_each (point_at g) sel ≡ some sel') × IsValid sel'
  unfolding map_each map_selections
  map_points sel v =
      let (sel', e) =
        map_from_points sel.main_selection 0 sel.regions [] 0 v.ordered
          (PointEntry-nil sel.regions) in
      (
        sel',
        rw e refl,
        map_selections-IsValid (each (point_at g)) (λ r. g r.caret) (λ r. g r.caret) points-Rises
            points-GivesUnmarked sel sel' tt tt v e,
      )

-- Closures that agree on the regions give the same selection.
abbrev pub Agree :
    (SelRegion → Option SelRegion) → (SelRegion → Option SelRegion) → List SelRegion → Type 0
Agree f f' [] = Unit
Agree f f' (r ∷ rs) = (f r ≡ f' r) × Agree f f' rs

module _ (f f' : SelRegion → Option SelRegion) where
  map_from-Agree :
      (main i : ℕ) (rs out : List SelRegion) (n : ℕ)
      → Agree f f' rs
      → map_from (each f) main i rs out n tt ≡ map_from (each f') main i rs out n tt
  unfolding map_from
  map_from-Agree main i [] out n a = refl
  map_from-Agree main i (r ∷ rs) out n a = rw a.0 (elim (Option-cases (f' r)) [
    | inl e ↦ rw e refl
    | inr (r', e) ↦ rw e (elim (Option-cases (push_all (r' ∷ []) out)) [
      | inl e₁ ↦ rw e₁ refl
      | inr (out₁, e₁) ↦ rw e₁ (elim (Option-cases (mark_last (i == main) out₁ n)) [
        | inl e₂ ↦ rw e₂ refl
        | inr ((out₂, m), e₂) ↦ rw e₂ (map_from-Agree main (suc i) rs out₂ m a.1)
      ])
    ])
  ])

  pub map_each-Agree : (sel : Selection) → Agree f f' sel.regions → map_each f sel ≡ map_each f' sel
  unfolding map_each map_selections
  map_each-Agree sel a = rw (map_from-Agree sel.main_selection 0 sel.regions [] 0 a) refl

unit_state :
    (o : Option (Selection × Unit {0})) {sel' : Selection}
    → (o >>= λ (t, u). some t) ≡ some sel'
    → o ≡ some (sel', tt)
unit_state none h = cc
unit_state (some (t, tt)) h = rw (some_inj h) refl

pub map_selections_of_map_each :
    (f : SelRegion → Option SelRegion) (sel : Selection) {sel' : Selection}
    → map_each f sel ≡ some sel'
    → map_selections (each f) sel tt ≡ some (sel', tt)
unfolding map_each
map_selections_of_map_each f sel e = unit_state (map_selections (each f) sel tt) e
