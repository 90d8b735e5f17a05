-- ===== src/Selection/Deleted.antt =====
-- The selection of src/selection.rs through `apply_delta` by a deletion or a replacement of its regions.
use tofu_hex_editor.Prelude.{
  ℕ, ◌+◌, ◌-◌, min, ◌≤◌, ◌<◌, ◌≡◌, refl, sym, ap, ◌∙◌, false, some, List, [], ◌∷◌, map, length,
  ◌==◌, arith, Bool-cases, inl, inr,
}
use tofu_hex_editor.Xi.{Rope, Xi, XiLaws}
use tofu_hex_editor.Xi.Changes.{Change, landed, landed_mono, landed_before}
use tofu_hex_editor.Selection.Region.{SelRegion, new, min_of, max_of}
use tofu_hex_editor.Selection.Defs.{Selection, default}
use tofu_hex_editor.Selection.Delta.{moved, apply_delta}
use tofu_hex_editor.Selection.Order.{Above, IsOrdered}
use tofu_hex_editor.Selection.Marks.{IsValid}
use tofu_hex_editor.Selection.Bounds.{InBounds}
use tofu_hex_editor.Selection.Points.{point_at, map_points, Agree, map_each-Agree}
use tofu_hex_editor.Selection.Moves.{map_points-InBounds}
use tofu_hex_editor.Operations.Built.{Does}
use tofu_hex_editor.Operations.Held.{
  OnBytes, StartsAt, StartsAt-zero, StartsAt-Above, change_of, changes-AreSorted,
}

-- A function takes both ends of each region to one place.
abbrev Together : (ℕ → ℕ) → List SelRegion → Type 0
Together f [] = Unit
Together f (r ∷ rs) = (f r.caret ≡ f r.tail) × Together f rs

Together-shift :
    (f g : ℕ → ℕ) (k b : ℕ) (rs : List SelRegion)
    → ((i : ℕ) → b < i → f i ≡ k + g i)
    → Above b rs
    → IsOrdered rs
    → Together g rs
    → Together f rs
Together-shift f g k b [] e a o t = tt
Together-shift f g k b (r ∷ rs) e a o t = (
  e r.caret (omega arith) ∙ ap (λ n. k + n) t.0 ∙ sym (e r.tail (omega arith)),
  Together-shift f g k (max_of r) rs (λ i h. e i (omega (arith, a))) o.0 o.1 t.1,
)

module _ (rope : ℕ → List ℕ) where
  abbrev put_len : SelRegion → ℕ
  put_len r = length (rope (max_of r + 1 - min_of r))

  landed_past :
      (at len i : ℕ) (r : SelRegion) (cs : List Change)
      → min_of r ≤ i
      → landed at (change_of rope r ∷ cs) len i
        ≡ (min_of r - at + put_len r) + landed (max_of r + 1) cs len i
  unfolding landed
  landed_past at len i r cs h = ground arith

  landed-Together :
      (at len : ℕ) (rs : List SelRegion)
      → at ≤ len
      → StartsAt at rs
      → IsOrdered rs
      → OnBytes len rs
      → Together (landed at (map (change_of rope) rs) len) rs
  landed-Together at len [] l s o b = tt
  landed-Together at len (r ∷ rs) l s o b =
      let cs = map (change_of rope) rs in
      let stop = max_of r + 1 in
      let next = StartsAt-Above (max_of r) rs o.0 in
      let sorted = changes-AreSorted rope len stop rs (omega (arith, b.0)) next o.1 b.1 in
      (
        landed_past at len r.caret r cs (omega arith)
            ∙ ap (λ n. (min_of r - at + put_len r) + n)
                (landed_before stop cs len r.caret r.tail sorted (omega arith) (omega arith))
            ∙ sym (landed_past at len r.tail r cs (omega arith)),
        Together-shift (landed at (change_of rope r ∷ cs) len) (landed stop cs len)
            (min_of r - at + put_len r) (max_of r) rs
            (λ i h. landed_past at len i r cs (omega (arith, h))) o.0 o.1
            (landed-Together stop len rs (omega (arith, b.0)) next o.1 b.1),
      )

pub default-IsValid : IsValid default
default-IsValid = record { ordered = (tt, tt); one_main = (refl, tt) }

module _ (X : Xi) (L : XiLaws X) (delta : X.Delta) (base : Rope) where
  -- Where an offset goes.
  abbrev goes : List Change → ℕ → ℕ
  goes cs i = min (X.new_document_len delta) (landed 0 cs (length base) i)

  moved_lem :
      (cs : List Change)
      → Does X L delta cs base
      → (i : ℕ) → i < length base
      → moved X delta (length base) i ≡ goes cs i
  unfolding moved
  moved_lem cs d i h =
      let inside : (length base == i) ≡ false = ground arith in
      rw inside (ap (min (X.new_document_len delta)) (d.lands i))

  moved-Agree :
      (cs : List Change)
      → Does X L delta cs base
      → (rs : List SelRegion) → OnBytes (length base) rs
      → Together (landed 0 cs (length base)) rs
      → Agree
          (λ r.
            some (new (moved X delta (length base) r.caret) (moved X delta (length base) r.tail)))
          (point_at (goes cs))
          rs
  moved-Agree cs d [] b t = tt
  moved-Agree cs d (r ∷ rs) b t = (one_point, moved-Agree cs d rs b.1 t.1)
    where
      one_point :
          some (new (moved X delta (length base) r.caret) (moved X delta (length base) r.tail))
          ≡ some (new (goes cs r.caret) (goes cs r.caret))
      one_point =
          ap (λ c. some (new c (moved X delta (length base) r.tail)))
            (moved_lem cs d r.caret (omega (arith, b.0)))
          ∙ ap (λ c. some (new (goes cs r.caret) c))
              (moved_lem cs d r.tail (omega (arith, b.0))
                ∙ ap (min (X.new_document_len delta)) (sym t.0))

  goes_mono : (cs : List Change) (i j : ℕ) → i ≤ j → goes cs i ≤ goes cs j
  goes_mono cs i j h = omega (arith, landed_mono 0 cs (length base) i j h)

  goes-le : (cs : List Change) (i : ℕ) → goes cs i ≤ X.new_document_len delta
  goes-le cs i = omega arith

  OnBytes-InBounds : (len : ℕ) (rs : List SelRegion) → OnBytes len rs → InBounds len rs
  OnBytes-InBounds len [] b = tt
  OnBytes-InBounds len (r ∷ rs) b = (omega (arith, b.0), OnBytes-InBounds len rs b.1)

  -- Moving a valid selection of bytes along with their deletion or replacement does not panic, and gives
  -- a valid selection within the new text.
  pub apply_delta-IsValid :
      (rope : ℕ → List ℕ) (sel : Selection)
      → IsValid sel
      → OnBytes (length base) sel.regions
      → Does X L delta (map (change_of rope) sel.regions) base
      → (sel' : Selection) × (apply_delta X sel delta (length base) ≡ some sel')
        × IsValid sel'
        × InBounds (length (X.apply delta base)) sel'.regions
  unfolding apply_delta
  apply_delta-IsValid rope sel v b d = elim (Bool-cases (X.new_document_len delta == 0)) [
    | inl t ↦ (default, rw t refl, default-IsValid, (omega arith, tt))
    | inr f ↦
        let cs = map (change_of rope) sel.regions in
        let together =
          landed-Together rope 0 (length base) sel.regions (omega arith) (StartsAt-zero sel.regions)
            v.ordered b in
        let (sel', e, v') = map_points (goes cs) (goes_mono cs) sel v in
        let within =
          map_points-InBounds (goes cs) (length base) (X.new_document_len delta)
            (λ a h. goes-le cs a) sel sel' (OnBytes-InBounds (length base) sel.regions b) e in
        (
          sel',
          rw f (
              map_each-Agree _ (point_at (goes cs)) sel (moved-Agree cs d sel.regions b together)
              ∙ e),
          v',
          rw (sym (L.new_document_len-apply delta base d.fits)) within,
        )
  ]
