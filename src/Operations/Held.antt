-- ===== src/Operations/Held.antt =====
-- What `deletion` and `replace` of src/operations.rs do to the bytes that the regions hold.
use tofu_hex_editor.Prelude.{
  ℕ, ◌+◌, ◌-◌, ◌≤◌, ◌<◌, ◌≡◌, refl, ap, ◌∙◌, Bool, false, ◌&&◌, ◌||◌, some, List, [], ◌∷◌, map,
  length, replicate, leb, arith, if◌then◌else◌,
}
use tofu_hex_editor.Machine.{half_word, add_usize, sub_usize}
use tofu_hex_editor.Xi.{Rope, Xi, XiLaws}
use tofu_hex_editor.Xi.Changes.{Change, AreSorted, changed}
use tofu_hex_editor.Selection.Region.{SelRegion, min_of, max_of}
use tofu_hex_editor.Selection.Defs.{Selection}
use tofu_hex_editor.Selection.Order.{Above, IsOrdered}
use tofu_hex_editor.Operations.{deletion, replace, delete_unless_empty}
use tofu_hex_editor.Operations.Built.{Asks, Does, built-Does}
use tofu_hex_editor.Operations.Places.{
  by_place, by_place-eq, by_place-nil, by_place-replicate, Places, Places-eq, changed-by_place,
}

-- Every region ends on a byte of the text.
abbrev pub OnBytes : ℕ → List SelRegion → Type 0
OnBytes len [] = Unit
OnBytes len (r ∷ rs) = (max_of r < len) × OnBytes len rs

-- Whether some region holds the byte at an offset.
unfoldable pub holds : List SelRegion → ℕ → Bool
holds [] i = false
holds (r ∷ rs) i = (leb (min_of r) i && leb i (max_of r)) || holds rs i

holds_before :
    (b i : ℕ) (rs : List SelRegion) → Above b rs → IsOrdered rs → i ≤ b → holds rs i ≡ false
unfolding holds
holds_before b i [] a o h = refl
holds_before b i (r ∷ rs) a o h =
    let later = holds_before (max_of r) i rs o.0 o.1 (omega arith) in ground (arith, later)

-- The change of the interval that a region holds.
abbrev pub change_of : (ℕ → List ℕ) → SelRegion → Change
change_of rope r = record {
  start = min_of r;
  stop = max_of r + 1;
  rope = rope (max_of r + 1 - min_of r);
}

abbrev pub StartsAt : ℕ → List SelRegion → Type 0
StartsAt at [] = Unit
StartsAt at (r ∷ rs) = at ≤ min_of r

pub StartsAt-Above : (b : ℕ) (rs : List SelRegion) → Above b rs → StartsAt (b + 1) rs
StartsAt-Above b [] a = tt
StartsAt-Above b (r ∷ rs) a = omega arith

pub StartsAt-zero : (rs : List SelRegion) → StartsAt 0 rs
StartsAt-zero [] = tt
StartsAt-zero (r ∷ rs) = omega arith

module _ (rope : ℕ → List ℕ) (len : ℕ) where
  pub changes-AreSorted :
      (at : ℕ) (rs : List SelRegion)
      → at ≤ len
      → StartsAt at rs
      → IsOrdered rs
      → OnBytes len rs
      → AreSorted at (map (change_of rope) rs) len
  changes-AreSorted at [] l s o b = l
  changes-AreSorted at (r ∷ rs) l s o b = (
    s,
    omega arith,
    changes-AreSorted (max_of r + 1) rs (omega (arith, b.0)) (StartsAt-Above (max_of r) rs o.0) o.1
        b.1,
  )

-- A description by what is put for a byte that is held, and the rope for all of a region.
module _ (put : ℕ → List ℕ) (rope : ℕ → List ℕ)
    (whole : (i : ℕ) (u : List ℕ) → by_place (λ j x. put x) i u ≡ rope (length u)) where
  abbrev at_held : List SelRegion → ℕ → ℕ → List ℕ
  at_held rs i x = if holds rs i then put x else x ∷ []

  held_rest :
      (r : SelRegion) (rs : List SelRegion) (i x : ℕ)
      → max_of r + 1 ≤ i
      → at_held (r ∷ rs) i x ≡ at_held rs i x
  unfolding holds
  held_rest r rs i x h = ground arith

  held_here :
      (r : SelRegion) (rs : List SelRegion) (i x : ℕ)
      → min_of r ≤ i
      → i < max_of r + 1
      → at_held (r ∷ rs) i x ≡ put x
  unfolding holds
  held_here r rs i x h k = ground arith

  held_not :
      (r : SelRegion) (rs : List SelRegion) (i x : ℕ)
      → IsOrdered (r ∷ rs)
      → i < min_of r
      → at_held (r ∷ rs) i x ≡ x ∷ []
  unfolding holds
  held_not r rs i x o h =
      let later = holds_before (max_of r) i rs o.0 o.1 (omega arith) in ground (arith, later)

  held-Places :
      (at len : ℕ) (rs : List SelRegion)
      → at ≤ len
      → StartsAt at rs
      → IsOrdered rs
      → OnBytes len rs
      → Places (at_held rs) at (map (change_of rope) rs)
  held-Places at len [] l s o b = λ i x h. unfold holds in refl
  held-Places at len (r ∷ rs) l s o b =
      let next = StartsAt-Above (max_of r) rs o.0 in
      (
        λ i x h k. held_not r rs i x o k,
        λ u h.
            by_place-eq (at_held (r ∷ rs)) (λ j x. put x) (min_of r) u
              (λ j x p q. held_here r rs j x p (omega (arith, h, q)))
            ∙ whole (min_of r) u
            ∙ ap rope h,
        Places-eq (at_held rs) (at_held (r ∷ rs)) (max_of r + 1) len (map (change_of rope) rs)
            (changes-AreSorted rope len (max_of r + 1) rs (omega (arith, b.0)) next o.1 b.1)
            (λ i x h. held_rest r rs i x h)
            (held-Places (max_of r + 1) len rs (omega (arith, b.0)) next o.1 b.1),
      )

  pub changed_held :
      (rs : List SelRegion) (base : List ℕ)
      → IsOrdered rs
      → OnBytes (length base) rs
      → changed 0 (map (change_of rope) rs) base ≡ by_place (at_held rs) 0 base
  changed_held rs base o b =
      changed-by_place (at_held rs) 0 (length base) (map (change_of rope) rs) base
        (changes-AreSorted rope (length base) 0 rs (omega arith) (StartsAt-zero rs) o b)
        (omega arith) (held-Places 0 (length base) rs (omega arith) (StartsAt-zero rs) o b)

-- The bytes from an offset on that no region holds.
unfoldable pub kept : List SelRegion → List ℕ → List ℕ
unfolding by_place holds
kept rs = by_place (λ i x. if holds rs i then [] else x ∷ []) 0

-- The text with a byte put for each byte that a region holds.
unfoldable pub filled : ℕ → List SelRegion → List ℕ → List ℕ
unfolding by_place holds
filled ch rs = by_place (λ i x. if holds rs i then ch ∷ [] else x ∷ []) 0

abbrev pub nothing : ℕ → List ℕ
nothing n = []

module _ (X : Xi) (L : XiLaws X) where
  stop_lem : (r : SelRegion) → max_of r < half_word → add_usize (max_of r) 1 ≡ max_of r + 1
  stop_lem r h = omega arith

  deletion-Asks :
      (len : ℕ) (rs : List SelRegion)
      → len < half_word
      → OnBytes len rs
      → Asks X L
          (λ b r. delete_unless_empty X b (min_of r) (add_usize (max_of r) 1))
          (change_of nothing)
          rs
  deletion-Asks len [] h b = tt
  deletion-Asks len (r ∷ rs) h b = (λ a. asked a, deletion-Asks len rs h b.1)
    where
      asked :
          (a : X.Builder)
          → delete_unless_empty X a (min_of r) (add_usize (max_of r) 1)
            ≡ X.replace a (min_of r) (max_of r + 1) []
      asked a =
          let some_byte : leb (max_of r + 1) (min_of r) ≡ false = ground arith in
          rw (stop_lem r (omega (arith, b.0)))
            (rw some_byte (L.delete-replace a (min_of r) (max_of r + 1)))

  -- Deleting sorted regions of bytes of the text does not panic, and leaves the bytes that no region
  -- holds.
  pub deletion-kept :
      (base : Rope) (s : Selection)
      → length base < half_word
      → IsOrdered s.regions
      → OnBytes (length base) s.regions
      → (delta : X.Delta) × (deletion X base s ≡ some delta)
        × Does X L delta (map (change_of nothing) s.regions) base
        × (X.apply delta base ≡ kept s.regions base)
  unfolding deletion kept
  deletion-kept base s h o b =
      let (delta, e, does) =
        built-Does X L base s _ (change_of nothing) (deletion-Asks (length base) s.regions h b) (
          changes-AreSorted nothing (length base) 0 s.regions (omega arith)
            (StartsAt-zero s.regions) o b) in
      (delta, e, does, does.text ∙ changed_held (λ x. []) nothing by_place-nil s.regions base o b)

  replace-Asks :
      (len ch : ℕ) (rs : List SelRegion)
      → len < half_word
      → OnBytes len rs
      → Asks X L
          (λ b r.
            X.replace b
              (min_of r)
              (add_usize (max_of r) 1)
              (replicate (add_usize (sub_usize (max_of r) (min_of r)) 1) ch))
          (change_of (λ n. replicate n ch))
          rs
  replace-Asks len ch [] h b = tt
  replace-Asks len ch (r ∷ rs) h b = (λ a. asked a, replace-Asks len ch rs h b.1)
    where
      asked :
          (a : X.Builder)
          → X.replace a
              (min_of r)
              (add_usize (max_of r) 1)
              (replicate (add_usize (sub_usize (max_of r) (min_of r)) 1) ch)
            ≡ X.replace a (min_of r) (max_of r + 1) (replicate (max_of r + 1 - min_of r) ch)
      asked a =
          let count : add_usize (sub_usize (max_of r) (min_of r)) 1 ≡ max_of r + 1 - min_of r =
            omega (arith, b.0) in
          rw (stop_lem r (omega (arith, b.0))) (rw count refl)

  -- Replacing sorted regions of bytes of the text by a byte does not panic, puts it for every byte
  -- that a region holds, and leaves the others.
  pub replace-filled :
      (base : Rope) (s : Selection) (ch : ℕ)
      → length base < half_word
      → IsOrdered s.regions
      → OnBytes (length base) s.regions
      → (delta : X.Delta) × (replace X base s ch ≡ some delta)
        × Does X L delta (map (change_of (λ n. replicate n ch)) s.regions) base
        × (X.apply delta base ≡ filled ch s.regions base)
  unfolding replace filled
  replace-filled base s ch h o b =
      let rope = λ (n : ℕ). replicate n ch in
      let (delta, e, does) =
        built-Does X L base s _ (change_of rope) (replace-Asks (length base) ch s.regions h b) (
          changes-AreSorted rope (length base) 0 s.regions (omega arith) (StartsAt-zero s.regions) o
            b) in
      (
        delta,
        e,
        does,
        does.text ∙ changed_held (λ x. ch ∷ []) rope (by_place-replicate ch) s.regions base o b,
      )
