-- ===== src/Selection/Marks.antt =====
-- The main flags of a selection's regions: the one at `main_selection` and no other, through the
-- loop of `map_selections` of src/selection.rs.
use tofu_hex_editor.Prelude.{
  ℕ, zero, suc, ◌+◌, ◌≤◌, ◌<◌, ◌≡◌, refl, ◌⊎◌, inl, inr, Bool, true, false, ◌||◌, some, List, [],
  ◌∷◌, rev_onto, length, arith, ◌==◌, sym, some_inj, some_fst, some_snd, >>=-eq-some,
}
use tofu_hex_editor.Selection.Region.{SelRegion, merge}
use tofu_hex_editor.Selection.Defs.{
  Selection, push_region, push_all, mark_last, map_from, Mapper, map_selections,
}
use tofu_hex_editor.Selection.Order.{IsOrdered, push_region-cases, Rises, map_selections-IsOrdered}

abbrev pub Unmarked : List SelRegion → Type 0
Unmarked [] = Unit
Unmarked (r ∷ rs) = (r.main ≡ false) × Unmarked rs

-- The region at the index is marked, and no other.
abbrev pub MarkedAt : ℕ → List SelRegion → Type 0
MarkedAt i [] = ⊥
MarkedAt zero (r ∷ rs) = (r.main ≡ true) × Unmarked rs
MarkedAt (suc i) (r ∷ rs) = (r.main ≡ false) × MarkedAt i rs

-- The two invariants that the source states, and that of the main flags.
pub record IsValid (s : Selection) : Type 0 where
  pub ordered : IsOrdered s.regions
  pub one_main : MarkedAt s.main_selection s.regions

-- The same of a stack, where an index counts the regions below.
abbrev StackMarked : ℕ → List SelRegion → Type 0
StackMarked k [] = ⊥
StackMarked k (r ∷ out) =
    ((length out ≡ k) × (r.main ≡ true) × Unmarked out) ⊎ ((r.main ≡ false) × StackMarked k out)

rev_onto-shift :
    (out acc : List SelRegion) (j k : ℕ)
    → Unmarked out
    → MarkedAt j acc
    → length out + j ≡ k
    → MarkedAt k (rev_onto out acc)
rev_onto-shift [] acc j k u m e = let e' : j ≡ k = omega arith in rw (← e') m
rev_onto-shift (r ∷ out) acc j k u m e =
    rev_onto-shift out (r ∷ acc) (suc j) k u.1 (u.0, m) (omega arith)

rev_onto-MarkedAt :
    (out acc : List SelRegion) (k : ℕ)
    → StackMarked k out
    → Unmarked acc
    → MarkedAt k (rev_onto out acc)
rev_onto-MarkedAt [] acc k m u = absurd m
rev_onto-MarkedAt (r ∷ out) acc k (inl (e, m, v)) u =
    rev_onto-shift out (r ∷ acc) 0 k v (m, u) (omega arith)
rev_onto-MarkedAt (r ∷ out) acc k (inr (f, m)) u = rev_onto-MarkedAt out (r ∷ acc) k m (f, u)

merge-main : (r other m : SelRegion) → merge r other ≡ some m → m.main ≡ (r.main || other.main)
unfolding merge
merge-main r other m h = ground arith

pushed_first :
    (r : SelRegion) (out' : List SelRegion) → push_region r [] ≡ some out' → r ∷ [] ≡ out'
unfolding push_region
pushed_first r out' e = some_inj e

push_region-Unmarked :
    (r : SelRegion) (out out' : List SelRegion)
    → r.main ≡ false
    → Unmarked out
    → push_region r out ≡ some out'
    → Unmarked out'
push_region-Unmarked r [] out' f u e = rw (sym (pushed_first r out' e)) (f, tt)
push_region-Unmarked r (last ∷ out) out' f u e = elim (push_region-cases r last out out' e) [
  | inl (lt, e') ↦ rw e' (f, u)
  | inr (m, p, e') ↦ rw e' (ground (arith, merge-main last r m p), u.1)
]

push_region-StackMarked :
    (k : ℕ) (r : SelRegion) (out out' : List SelRegion)
    → r.main ≡ false
    → StackMarked k out
    → push_region r out ≡ some out'
    → StackMarked k out'
push_region-StackMarked k r [] out' f u e = absurd u
push_region-StackMarked k r (last ∷ out) out' f u e = elim (push_region-cases r last out out' e) [
  | inl (lt, e') ↦ rw e' (inr (f, u))
  | inr (m, p, e') ↦ rw e' (merged_mark m p u)
]
  where
    merged_mark :
        (m : SelRegion)
        → merge last r ≡ some m
        → StackMarked k (last ∷ out)
        → StackMarked k (m ∷ out)
    merged_mark m p (inl (l, t, v)) = inl (l, ground (arith, merge-main last r m p), v)
    merged_mark m p (inr (t, v)) = inr (ground (arith, merge-main last r m p), v)

push_all-Unmarked :
    (rs out out' : List SelRegion)
    → Unmarked rs
    → Unmarked out
    → push_all rs out ≡ some out'
    → Unmarked out'
unfolding push_all
push_all-Unmarked [] out out' f u e = rw (sym (some_inj e)) u
push_all-Unmarked (r ∷ rs) out out' f u e =
    let (mid, p, q) = >>=-eq-some (push_region r out) (push_all rs) e in
    push_all-Unmarked rs mid out' f.1 (push_region-Unmarked r out mid f.0 u p) q

push_all-StackMarked :
    (k : ℕ) (rs out out' : List SelRegion)
    → Unmarked rs
    → StackMarked k out
    → push_all rs out ≡ some out'
    → StackMarked k out'
unfolding push_all
push_all-StackMarked k [] out out' f u e = rw (sym (some_inj e)) u
push_all-StackMarked k (r ∷ rs) out out' f u e =
    let (mid, p, q) = >>=-eq-some (push_region r out) (push_all rs) e in
    push_all-StackMarked k rs mid out' f.1 (push_region-StackMarked k r out mid f.0 u p) q

-- Where the loop stands at index `i`: before the main region nothing is marked, after it one is.
abbrev Progress : ℕ → ℕ → ℕ → ℕ → List SelRegion → Type 0
Progress main i rest n out =
    ((i ≤ main) × (main < i + rest) × Unmarked out) ⊎ ((main < i) × StackMarked n out)

mark_last-Progress :
    (main i rest n m : ℕ) (out out' : List SelRegion) (b : Bool)
    → (i == main) ≡ b
    → Progress main i (suc rest) n out
    → mark_last b out n ≡ some (out', m)
    → Progress main (suc i) rest m out'
unfolding mark_last
mark_last-Progress main i rest n m out out' false t (inl (le, lt, u)) e =
    rw (sym (some_fst e)) (inl (ground arith, omega arith, u))
mark_last-Progress main i rest n m out out' false t (inr (gt, u)) e =
    rw (sym (some_fst e), sym (some_snd e)) (inr (omega arith, u))
mark_last-Progress main i rest n m [] out' true t p e = cc
mark_last-Progress main i rest n m (last ∷ out) out' true t (inl (le, lt, u)) e =
    rw (sym (some_fst e), sym (some_snd e)) (inr (ground arith, inl (refl, refl, u.1)))
mark_last-Progress main i rest n m (last ∷ out) out' true t (inr (gt, u)) e = absurd (ground arith)

push_all-Progress :
    (main i rest n : ℕ) (rs out out' : List SelRegion)
    → Unmarked rs
    → Progress main i rest n out
    → push_all rs out ≡ some out'
    → Progress main i rest n out'
push_all-Progress main i rest n rs out out' f (inl (le, lt, u)) e =
    inl (le, lt, push_all-Unmarked rs out out' f u e)
push_all-Progress main i rest n rs out out' f (inr (gt, u)) e =
    inr (gt, push_all-StackMarked n rs out out' f u e)

-- The closure gives regions without a mark, as `SelRegion::new` makes them.
abbrev pub GivesUnmarked : {S : Type 0} → Mapper S → Type 0
GivesUnmarked {S} f =
    (r : SelRegion) (s s' : S) (rs : List SelRegion) → f r s ≡ some (rs, s') → Unmarked rs

module _ {S : Type 0} (f : Mapper S) (unmarked : GivesUnmarked f) where
  map_from-MarkedAt :
      (main i : ℕ) (rs out : List SelRegion) (n : ℕ) (s s' : S) (sel' : Selection)
      → Progress main i (length rs) n out
      → map_from f main i rs out n s ≡ some (sel', s')
      → MarkedAt sel'.main_selection sel'.regions
  unfolding map_from
  map_from-MarkedAt main i [] out n s s' sel' (inl (le, lt, u)) e = absurd (omega arith)
  map_from-MarkedAt main i [] out n s s' sel' (inr (gt, u)) e =
      rw (sym (some_fst e)) (rev_onto-MarkedAt out [] n u tt)
  map_from-MarkedAt main i (r ∷ rs) out n s s' sel' p e =
      let ((new_regions, t), q, e₁) = >>=-eq-some (f r s) _ e in
      let (out₁, q₁, e₂) = >>=-eq-some (push_all new_regions out) _ e₁ in
      let ((out₂, m), q₂, e₃) = >>=-eq-some (mark_last (i == main) out₁ n) _ e₂ in
      let p₁ =
        push_all-Progress main i (suc (length rs)) n new_regions out out₁
          (unmarked r s t new_regions q) p q₁ in
      let p₂ = mark_last-Progress main i (length rs) n m out₁ out₂ (i == main) refl p₁ q₂ in
      map_from-MarkedAt main (suc i) rs out₂ m t s' sel' p₂ e₃

  map_selections-MarkedAt :
      (sel sel' : Selection) (s s' : S)
      → sel.main_selection < length sel.regions
      → map_selections f sel s ≡ some (sel', s')
      → MarkedAt sel'.main_selection sel'.regions
  unfolding map_selections
  map_selections-MarkedAt sel sel' s s' h e =
      map_from-MarkedAt sel.main_selection 0 sel.regions [] 0 s s' sel'
        (inl (omega arith, omega arith, tt)) e

pub lt-length_of_MarkedAt : (i : ℕ) (rs : List SelRegion) → MarkedAt i rs → i < length rs
lt-length_of_MarkedAt i [] m = absurd m
lt-length_of_MarkedAt zero (r ∷ rs) m = omega arith
lt-length_of_MarkedAt (suc i) (r ∷ rs) m = omega (arith, lt-length_of_MarkedAt i rs m.1)

-- `map_selections` keeps a selection valid, whatever state the closure carries: if the new regions
-- rise and have no mark, and nothing panics, then the result is sorted, without overlaps, and
-- exactly its main region is marked.
pub map_selections-IsValid :
    {S : Type 0} (f : Mapper S) (lo hi : SelRegion → ℕ)
    → Rises f lo hi
    → GivesUnmarked f
    → (sel sel' : Selection) (s s' : S) → IsValid sel
    → map_selections f sel s ≡ some (sel', s')
    → IsValid sel'
map_selections-IsValid f lo hi rises unmarked sel sel' s s' v e = record {
  ordered = map_selections-IsOrdered f lo hi rises sel sel' s s' v.ordered e;
  one_main =
      map_selections-MarkedAt f unmarked sel sel' s s'
        (lt-length_of_MarkedAt sel.main_selection sel.regions v.one_main) e;
}
