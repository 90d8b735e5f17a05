-- ===== src/Operations/Carets.antt =====
-- What `insert` of src/operations.rs does at the carets.
use tofu_hex_editor.Prelude.{
  ℕ, suc, ◌+◌, ◌-◌, ◌≤◌, ◌<◌, ◌≡◌, refl, sym, ap, ◌∙◌, Bool, false, ◌||◌, some, List, [], ◌∷◌, ◌++◌,
  map, length, take, drop, take-drop, length-take, length-drop, ◌==◌, arith, if◌then◌else◌,
}
use mathlib.Core.List.{append-nil}
use tofu_hex_editor.Xi.{Rope, Xi, XiLaws}
use tofu_hex_editor.Xi.Changes.{Change, AreSorted, changed}
use tofu_hex_editor.Selection.Region.{SelRegion, max_of}
use tofu_hex_editor.Selection.Defs.{Selection}
use tofu_hex_editor.Selection.Order.{Above, IsOrdered}
use tofu_hex_editor.Selection.Bounds.{InBounds}
use tofu_hex_editor.Operations.{insert}
use tofu_hex_editor.Operations.Built.{Asks, Does, built-Does}

-- Whether a caret stands before the byte at an offset.
unfoldable pub has_caret : List SelRegion → ℕ → Bool
has_caret [] i = false
has_caret (r ∷ rs) i = (r.caret == i) || has_caret rs i

abbrev here : List SelRegion → List ℕ → ℕ → List ℕ
here rs text i = if has_caret rs i then text else []

-- The text from an offset on, with another one before each byte that a caret stands at, and at the end
-- where one stands there.
unfoldable pub with_text : List SelRegion → List ℕ → ℕ → List ℕ → List ℕ
unfolding has_caret
with_text rs text i [] = here rs text i
with_text rs text i (x ∷ t) = here rs text i ++ (x ∷ with_text rs text (suc i) t)

has_caret_before :
    (b i : ℕ) (rs : List SelRegion) → Above b rs → IsOrdered rs → i ≤ b → has_caret rs i ≡ false
unfolding has_caret
has_caret_before b i [] a o h = refl
has_caret_before b i (r ∷ rs) a o h =
    let later = has_caret_before (max_of r) i rs o.0 o.1 (omega arith) in ground (arith, later)

-- Lists of regions with the same carets from an offset on.
with_text-eq :
    (rs qs : List SelRegion) (text : List ℕ) (i : ℕ) (t : List ℕ)
    → ((j : ℕ) → i ≤ j → has_caret rs j ≡ has_caret qs j)
    → with_text rs text i t ≡ with_text qs text i t
unfolding with_text
with_text-eq rs qs text i [] e = ap (λ b. if b then text else []) (e i (omega arith))
with_text-eq rs qs text i (x ∷ t) e =
    ap (λ b. (if b then text else []) ++ (x ∷ with_text rs text (suc i) t)) (e i (omega arith))
    ∙ ap (λ u. here qs text i ++ (x ∷ u))
        (with_text-eq rs qs text (suc i) t (λ j h. e j (omega arith)))

-- Up to the next caret the text stays.
with_text_skip :
    (rs : List SelRegion) (text : List ℕ) (i : ℕ) (u v : List ℕ)
    → ((j : ℕ) → i ≤ j → j < i + length u → has_caret rs j ≡ false)
    → with_text rs text i (u ++ v) ≡ u ++ with_text rs text (i + length u) v
unfolding with_text
with_text_skip rs text i [] v h =
    let e : i ≡ i + 0 = omega arith in ap (λ k. with_text rs text k v) e
with_text_skip rs text i (x ∷ u) v h =
    let e : suc i + length u ≡ i + suc (length u) = omega arith in
    ap (λ b. (if b then text else []) ++ (x ∷ with_text rs text (suc i) (u ++ v)))
      (h i (omega arith) (omega arith))
    ∙ ap (x ∷◌) (
        with_text_skip rs text (suc i) u v (λ j a b. h j (omega arith) (omega arith))
        ∙ ap (λ k. u ++ with_text rs text k v) e)

abbrev pub insertion : List ℕ → SelRegion → Change
insertion text r = record { start = r.caret; stop = r.caret; rope = text }

-- The first caret is not before an offset.
abbrev pub CaretsFrom : ℕ → List SelRegion → Type 0
CaretsFrom at [] = Unit
CaretsFrom at (r ∷ rs) = at ≤ r.caret

CaretsFrom-Above :
    (r : SelRegion) (rs : List SelRegion) → Above (max_of r) rs → CaretsFrom r.caret rs
CaretsFrom-Above r [] a = tt
CaretsFrom-Above r (q ∷ rs) a = omega arith

pub CaretsFrom-zero : (rs : List SelRegion) → CaretsFrom 0 rs
CaretsFrom-zero [] = tt
CaretsFrom-zero (r ∷ rs) = omega arith

module _ (text : List ℕ) where
  pub insertions-AreSorted :
      (at len : ℕ) (rs : List SelRegion)
      → at ≤ len
      → CaretsFrom at rs
      → IsOrdered rs
      → InBounds len rs
      → AreSorted at (map (insertion text) rs) len
  insertions-AreSorted at len [] l c o b = l
  insertions-AreSorted at len (r ∷ rs) l c o b = (
    c,
    omega arith,
    insertions-AreSorted r.caret len rs (omega (arith, b.0)) (CaretsFrom-Above r rs o.0) o.1 b.1,
  )

  here_first : (r : SelRegion) (rs : List SelRegion) → here (r ∷ rs) text r.caret ≡ text
  unfolding has_caret
  here_first r rs = ground arith

  here_others :
      (r : SelRegion) (rs : List SelRegion) → IsOrdered (r ∷ rs) → here rs text r.caret ≡ []
  here_others r rs o =
      ap (λ b. if b then text else [])
        (has_caret_before (max_of r) r.caret rs o.0 o.1 (omega arith))

  others_from :
      (r : SelRegion) (rs : List SelRegion) (j : ℕ)
      → suc r.caret ≤ j
      → has_caret (r ∷ rs) j ≡ has_caret rs j
  unfolding has_caret
  others_from r rs j h = ground arith

  no_carets : (at : ℕ) (t : List ℕ) → with_text [] text at t ≡ t
  unfolding with_text has_caret
  no_carets at [] = refl
  no_carets at (x ∷ t) = ap (x ∷◌) (no_carets (suc at) t)

  -- At a caret, the text is put and the others are left for what follows.
  at_caret :
      (r : SelRegion) (rs : List SelRegion) (t : List ℕ)
      → IsOrdered (r ∷ rs)
      → with_text (r ∷ rs) text r.caret t ≡ text ++ with_text rs text r.caret t
  unfolding with_text
  at_caret r rs [] o =
      here_first r rs ∙ sym (append-nil text) ∙ ap (λ u. text ++ u) (sym (here_others r rs o))
  at_caret r rs (x ∷ t) o =
      ap (λ u. u ++ (x ∷ with_text (r ∷ rs) text (suc r.caret) t)) (here_first r rs)
      ∙ ap (λ u. text ++ (x ∷ u))
          (with_text-eq (r ∷ rs) rs text (suc r.caret) t (λ j h. others_from r rs j h))
      ∙ ap (λ u. text ++ (u ++ (x ∷ with_text rs text (suc r.caret) t))) (sym (here_others r rs o))

  -- No caret of regions that are sorted stands before the first one.
  none_before :
      (r : SelRegion) (rs : List SelRegion) (j : ℕ)
      → IsOrdered (r ∷ rs)
      → j < r.caret
      → has_caret (r ∷ rs) j ≡ false
  unfolding has_caret
  none_before r rs j o h =
      let later = has_caret_before (max_of r) j rs o.0 o.1 (omega arith) in ground (arith, later)

  changed-with_text :
      (at len : ℕ) (rs : List SelRegion) (t : List ℕ)
      → at ≤ len
      → length t ≡ len - at
      → CaretsFrom at rs
      → IsOrdered rs
      → InBounds len rs
      → changed at (map (insertion text) rs) t ≡ with_text rs text at t
  unfolding changed
  changed-with_text at len [] t l h c o b = sym (no_carets at t)
  changed-with_text at len (r ∷ rs) t l h c o b =
      let n = r.caret - at in
      let long : n ≤ length t = omega (arith, b.0) in
      let near : at + length (take n t) ≡ r.caret = omega (arith, length-take n t long) in
      let left : length (drop n t) ≡ len - r.caret = omega (arith, length-drop {A = ℕ} n t) in
      sym (
        ap (with_text (r ∷ rs) text at) (sym (take-drop n t))
        ∙ with_text_skip (r ∷ rs) text at (take n t) (drop n t)
            (λ j p q. none_before r rs j o (omega (arith, near)))
        ∙ ap (λ k. take n t ++ with_text (r ∷ rs) text k (drop n t)) near
        ∙ ap (λ u. take n t ++ u)
            (at_caret r rs (drop n t) o
              ∙ ap (λ u. text ++ u)
                  (sym (
                    changed-with_text r.caret len rs (drop n t) (omega (arith, b.0)) left
                      (CaretsFrom-Above r rs o.0) o.1 b.1))))

module _ (X : Xi) (L : XiLaws X) where
  insert-Asks :
      (text : List ℕ) (rs : List SelRegion)
      → Asks X L (λ b r. X.replace b r.caret r.caret text) (insertion text) rs
  insert-Asks text [] = tt
  insert-Asks text (r ∷ rs) = (λ b. refl, insert-Asks text rs)

  -- Inserting at sorted regions within the text does not panic, and puts the inserted bytes before
  -- each byte that a caret stands at, and at the end where one stands there.
  pub insert-with_text :
      (base : Rope) (s : Selection) (text : List ℕ)
      → IsOrdered s.regions
      → InBounds (length base) s.regions
      → (delta : X.Delta) × (insert X base s text ≡ some delta)
        × Does X L delta (map (insertion text) s.regions) base
        × (X.apply delta base ≡ with_text s.regions text 0 base)
  unfolding insert
  insert-with_text base s text o b =
      let (delta, e, does) = built-Does X L base s _ (insertion text) (insert-Asks text s.regions) (
        insertions-AreSorted text 0 (length base) s.regions (omega arith)
          (CaretsFrom-zero s.regions) o b) in
      (
        delta,
        e,
        does,
        does.text
            ∙ changed-with_text text 0 (length base) s.regions base (omega arith) (omega arith)
                (CaretsFrom-zero s.regions) o b,
      )
