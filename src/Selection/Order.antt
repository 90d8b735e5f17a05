-- ===== src/Selection/Order.antt =====
-- The order of a selection's regions: sorted by their starts and apart, as the comments of
-- src/selection.rs ask, through the loop of `map_selections`.
use tofu_hex_editor.Prelude.{
  ℕ, suc, ◌≤◌, ◌<◌, min, max, ◌≡◌, Bool, true, false, some, List, [], ◌∷◌, rev_onto, arith, ◌⊎◌,
  inl, inr, sym, Bool-cases, ◌==◌, ap, some_inj, some_fst, >>=-eq-some,
}
use tofu_hex_editor.Selection.Region.{SelRegion, max_of, min_of, merge, overlaps}
use tofu_hex_editor.Selection.Defs.{
  Selection, push_region, push_all, mark_last, map_from, Mapper, map_selections,
}

-- The list begins after `b`.
abbrev pub Above : ℕ → List SelRegion → Type 0
Above b [] = Unit
Above b (r ∷ rs) = b < min_of r

abbrev pub IsOrdered : List SelRegion → Type 0
IsOrdered [] = Unit
IsOrdered (r ∷ rs) = Above (max_of r) rs × IsOrdered rs

-- The same of a stack, the last region first.
abbrev pub Below : List SelRegion → ℕ → Type 0
Below [] b = Unit
Below (r ∷ out) b = max_of r < b

abbrev pub IsStacked : List SelRegion → Type 0
IsStacked [] = Unit
IsStacked (r ∷ out) = Below out (min_of r) × IsStacked out

-- The last region of the stack starts at `b` at most.
abbrev pub StartsBy : List SelRegion → ℕ → Type 0
StartsBy [] b = Unit
StartsBy (r ∷ out) b = min_of r ≤ b

-- The last region of the stack lies before the list.
abbrev Joined : List SelRegion → List SelRegion → Type 0
Joined [] acc = Unit
Joined (r ∷ out) acc = Above (max_of r) acc

Joined-nil : (out : List SelRegion) → Joined out []
Joined-nil [] = tt
Joined-nil (r ∷ out) = tt

pub rev_onto-IsOrdered :
    (out acc : List SelRegion)
    → IsStacked out
    → IsOrdered acc
    → Joined out acc
    → IsOrdered (rev_onto out acc)
rev_onto-IsOrdered [] acc s o j = o
rev_onto-IsOrdered (r ∷ []) acc s o j = (j, o)
rev_onto-IsOrdered (r ∷ q ∷ out) acc s o j = rev_onto-IsOrdered (q ∷ out) (r ∷ acc) s.1 (j, o) s.0

-- A merged region covers both.
pub merge_bounds :
    (r other m : SelRegion)
    → merge r other ≡ some m
    → (min_of m ≡ min (min_of r) (min_of other)) × (max_of m ≡ max (max_of r) (max_of other))
unfolding merge
merge_bounds r other m h = ground arith

-- What is pushed is put behind the last region, or merged with it.
pub push_region-cases :
    (r last : SelRegion) (out out' : List SelRegion)
    → push_region r (last ∷ out) ≡ some out'
    → ((max_of last < min_of r) × (out' ≡ r ∷ last ∷ out))
      ⊎ ((m : SelRegion) × (merge last r ≡ some m) × (out' ≡ m ∷ out))
unfolding push_region
push_region-cases r last out out' e = elim (Bool-cases (overlaps last r)) [
  | inl yes' ↦ inr (
      let (m, p, q) = >>=-eq-some (merge last r) (λ m. some (m ∷ out)) (rw yes' at e) in
      (m, p, sym (some_inj q)))
  | inr no' ↦ inl (ground arith, sym (some_inj (rw no' at e)))
]

Below-merge :
    (out : List SelRegion) (r last m : SelRegion)
    → merge last r ≡ some m
    → IsStacked (last ∷ out)
    → min_of last ≤ min_of r
    → IsStacked (m ∷ out) × (min_of m ≤ min_of r)
Below-merge [] r last m e s h = omega (arith, merge_bounds last r m e)
Below-merge (q ∷ out) r last m e s h =
    let (lo, hi) = merge_bounds last r m e in ((omega arith, s.1), omega arith)

-- A region that starts no earlier than the last one keeps the stack in order.
pub push_region-IsStacked :
    (r : SelRegion) (out out' : List SelRegion)
    → IsStacked out
    → StartsBy out (min_of r)
    → push_region r out ≡ some out'
    → IsStacked out' × StartsBy out' (min_of r)
push_region-IsStacked r [] out' s h e = unfold push_region in ground arith
push_region-IsStacked r (last ∷ out) out' s h e = elim (push_region-cases r last out out' e) [
  | inl (lt, e') ↦ rw e' ((lt, s), omega arith)
  | inr (m, e', e'') ↦ rw e'' (Below-merge out r last m e' s h)
]

mark_last-IsStacked :
    (b : Bool) (out out' : List SelRegion) (n m k : ℕ)
    → IsStacked out
    → StartsBy out k
    → mark_last b out n ≡ some (out', m)
    → IsStacked out' × StartsBy out' k
unfolding mark_last
mark_last-IsStacked false out out' n m k s h e = rw (sym (some_fst e)) (s, h)
mark_last-IsStacked true [] out' n m k s h e = cc
mark_last-IsStacked true (last ∷ out) out' n m k s h e = rw (sym (some_fst e)) (s, h)

-- The regions start at `b` or later, and no earlier than the ones before them.
abbrev pub Rising : ℕ → List SelRegion → Type 0
Rising b [] = Unit
Rising b (r ∷ rs) = (b ≤ min_of r) × Rising (min_of r) rs

-- The start of the last one, or `b`.
abbrev pub last_start : ℕ → List SelRegion → ℕ
last_start b [] = b
last_start b (r ∷ rs) = last_start (min_of r) rs

StartsBy-mono : (out : List SelRegion) (b c : ℕ) → b ≤ c → StartsBy out b → StartsBy out c
StartsBy-mono [] b c l h = tt
StartsBy-mono (r ∷ out) b c l h = omega arith

push_all-IsStacked :
    (rs out out' : List SelRegion) (b : ℕ)
    → IsStacked out
    → StartsBy out b
    → Rising b rs
    → push_all rs out ≡ some out'
    → IsStacked out' × StartsBy out' (last_start b rs)
unfolding push_all
push_all-IsStacked [] out out' b s h rise e = rw (sym (some_inj e)) (s, h)
push_all-IsStacked (r ∷ rs) out out' b s h rise e =
    let (mid, p, q) = >>=-eq-some (push_region r out) (push_all rs) e in
    let (s', h') = push_region-IsStacked r out mid s (StartsBy-mono out b (min_of r) rise.0 h) p in
    push_all-IsStacked rs mid out' (min_of r) s' h' rise.1 q

-- The new regions of `r` start between `lo r` and `hi r`, and those of one region end where those
-- of the next may begin.
pub record Rises {S : Type 0} (f : Mapper S) (lo hi : SelRegion → ℕ) : Type 0 where
  pub rising :
      (r : SelRegion) (s s' : S) (rs : List SelRegion)
      → f r s ≡ some (rs, s')
      → Rising (lo r) rs × (last_start (lo r) rs ≤ hi r)
  pub apart : (r q : SelRegion) → max_of r < min_of q → hi r ≤ lo q

-- What is pushed so far starts no later than the next region's part.
abbrev Entry : (SelRegion → ℕ) → List SelRegion → List SelRegion → Type 0
Entry lo out [] = Unit
Entry lo out (r ∷ rs) = StartsBy out (lo r)

Entry-nil : (lo : SelRegion → ℕ) (rs : List SelRegion) → Entry lo [] rs
Entry-nil lo [] = tt
Entry-nil lo (r ∷ rs) = tt

module _ {S : Type 0} (f : Mapper S) (lo hi : SelRegion → ℕ) (rises : Rises f lo hi) where
  Entry-next :
      (r : SelRegion) (rs out : List SelRegion)
      → Above (max_of r) rs
      → StartsBy out (hi r)
      → Entry lo out rs
  Entry-next r [] out a h = tt
  Entry-next r (q ∷ rs) out a h = StartsBy-mono out (hi r) (lo q) (rises.apart r q a) h

  map_from-IsOrdered :
      (main i : ℕ) (rs out : List SelRegion) (n : ℕ) (s s' : S) (sel' : Selection)
      → IsOrdered rs
      → IsStacked out
      → Entry lo out rs
      → map_from f main i rs out n s ≡ some (sel', s')
      → IsOrdered sel'.regions
  unfolding map_from
  map_from-IsOrdered main i [] out n s s' sel' o st en e =
      rw (sym (ap (λ (t : Selection). t.regions) (some_fst e)))
        (rev_onto-IsOrdered out [] st tt (Joined-nil out))
  map_from-IsOrdered main i (r ∷ rs) out n s s' sel' o st en e =
      let ((new_regions, t), p, e₁) = >>=-eq-some (f r s) _ e in
      let (out₁, p₁, e₂) = >>=-eq-some (push_all new_regions out) _ e₁ in
      let ((out₂, m), p₂, e₃) = >>=-eq-some (mark_last (i == main) out₁ n) _ e₂ in
      let (rise, le) = rises.rising r s t new_regions p in
      let (st₁, h₁) = push_all-IsStacked new_regions out out₁ (lo r) st en rise p₁ in
      let h₁' = StartsBy-mono out₁ _ (hi r) le h₁ in
      let (st₂, h₂) = mark_last-IsStacked (i == main) out₁ out₂ n m (hi r) st₁ h₁' p₂ in
      map_from-IsOrdered main (suc i) rs out₂ m t s' sel' o.1 st₂ (Entry-next r rs out₂ o.0 h₂) e₃

  -- If the new regions rise, and the closure and the merges do not panic, then `map_selections`
  -- gives regions that are sorted and do not overlap.
  pub map_selections-IsOrdered :
      (sel sel' : Selection) (s s' : S)
      → IsOrdered sel.regions
      → map_selections f sel s ≡ some (sel', s')
      → IsOrdered sel'.regions
  unfolding map_selections
  map_selections-IsOrdered sel sel' s s' o e =
      map_from-IsOrdered sel.main_selection 0 sel.regions [] 0 s s' sel' o tt
        (Entry-nil lo sel.regions) e
