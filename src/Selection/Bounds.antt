-- ===== src/Selection/Bounds.antt =====
-- Regions within the buffer, through the loop of `map_selections` of src/selection.rs. A caret may
-- stand one past the last byte, so the bound is the buffer's length.
use tofu_hex_editor.Prelude.{
  ℕ, suc, ◌≤◌, ◌≡◌, Bool, true, false, some, List, [], ◌∷◌, rev_onto, arith, inl, inr, ◌==◌, sym,
  some_inj, some_fst, >>=-eq-some,
}
use tofu_hex_editor.Selection.Region.{SelRegion, max_of}
use tofu_hex_editor.Selection.Defs.{
  Selection, Mapper, push_region, push_all, mark_last, map_from, map_selections,
}
use tofu_hex_editor.Selection.Order.{merge_bounds, push_region-cases}

abbrev pub InBounds : ℕ → List SelRegion → Type 0
InBounds b [] = Unit
InBounds b (r ∷ rs) = (max_of r ≤ b) × InBounds b rs

rev_onto-InBounds :
    (b : ℕ) (out acc : List SelRegion)
    → InBounds b out
    → InBounds b acc
    → InBounds b (rev_onto out acc)
rev_onto-InBounds b [] acc h k = k
rev_onto-InBounds b (r ∷ out) acc h k = rev_onto-InBounds b out (r ∷ acc) h.1 (h.0, k)

pushed_first :
    (r : SelRegion) (out' : List SelRegion) → push_region r [] ≡ some out' → r ∷ [] ≡ out'
unfolding push_region
pushed_first r out' e = some_inj e

push_region-InBounds :
    (b : ℕ) (r : SelRegion) (out out' : List SelRegion)
    → max_of r ≤ b
    → InBounds b out
    → push_region r out ≡ some out'
    → InBounds b out'
push_region-InBounds b r [] out' h k e = rw (sym (pushed_first r out' e)) (h, tt)
push_region-InBounds b r (last ∷ out) out' h k e = elim (push_region-cases r last out out' e) [
  | inl (lt, e') ↦ rw e' (h, k)
  | inr (m, p, e') ↦ rw e' (omega (arith, merge_bounds last r m p), k.1)
]

push_all-InBounds :
    (b : ℕ) (rs out out' : List SelRegion)
    → InBounds b rs
    → InBounds b out
    → push_all rs out ≡ some out'
    → InBounds b out'
unfolding push_all
push_all-InBounds b [] out out' h k e = rw (sym (some_inj e)) k
push_all-InBounds b (r ∷ rs) out out' h k e =
    let (mid, p, q) = >>=-eq-some (push_region r out) (push_all rs) e in
    push_all-InBounds b rs mid out' h.1 (push_region-InBounds b r out mid h.0 k p) q

mark_last-InBounds :
    (b : ℕ) (t : Bool) (out out' : List SelRegion) (n m : ℕ)
    → InBounds b out
    → mark_last t out n ≡ some (out', m)
    → InBounds b out'
unfolding mark_last
mark_last-InBounds b false out out' n m h e = rw (sym (some_fst e)) h
mark_last-InBounds b true [] out' n m h e = cc
mark_last-InBounds b true (last ∷ out) out' n m h e = rw (sym (some_fst e)) h

module _ {S : Type 0} (f : Mapper S) (b c : ℕ)
    (keeps : (r : SelRegion) (s s' : S) (rs : List SelRegion)
      → max_of r ≤ b
      → f r s ≡ some (rs, s')
      → InBounds c rs) where
  map_from-InBounds :
      (main i : ℕ) (rs out : List SelRegion) (n : ℕ) (s s' : S) (sel' : Selection)
      → InBounds b rs
      → InBounds c out
      → map_from f main i rs out n s ≡ some (sel', s')
      → InBounds c sel'.regions
  unfolding map_from
  map_from-InBounds main i [] out n s s' sel' h k e =
      rw (sym (some_fst e)) (rev_onto-InBounds c out [] k tt)
  map_from-InBounds main i (r ∷ rs) out n s s' sel' h k e =
      let ((new_regions, t), q, e₁) = >>=-eq-some (f r s) _ e in
      let (out₁, q₁, e₂) = >>=-eq-some (push_all new_regions out) _ e₁ in
      let ((out₂, m), q₂, e₃) = >>=-eq-some (mark_last (i == main) out₁ n) _ e₂ in
      let k₁ = push_all-InBounds c new_regions out out₁ (keeps r s t new_regions h.0 q) k q₁ in
      let k₂ = mark_last-InBounds c (i == main) out₁ out₂ n m k₁ q₂ in
      map_from-InBounds main (suc i) rs out₂ m t s' sel' h.1 k₂ e₃

  -- If the closure takes regions within `b` to regions within `c`, so does `map_selections`.
  pub map_selections-InBounds :
      (sel sel' : Selection) (s s' : S)
      → InBounds b sel.regions
      → map_selections f sel s ≡ some (sel', s')
      → InBounds c sel'.regions
  unfolding map_selections
  map_selections-InBounds sel sel' s s' h e =
      map_from-InBounds sel.main_selection 0 sel.regions [] 0 s s' sel' h tt e
