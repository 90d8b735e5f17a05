-- ===== src/Operations/Built.antt =====
-- The loop that the operations of src/operations.rs share: a builder that is asked for one change for
-- each region.
use tofu_hex_editor.Prelude.{
  ℕ, ◌≡◌, refl, sym, ap, ◌∙◌, true, Option, some, ◌>>=◌, List, [], ◌∷◌, ◌++◌, map, length,
}
use mathlib.Core.List.{append_assoc, append-nil}
use tofu_hex_editor.Xi.{Rope, Xi, XiLaws}
use tofu_hex_editor.Xi.Changes.{Change, AreSorted, changed, landed, AreSorted-init}
use tofu_hex_editor.Selection.Region.{SelRegion}
use tofu_hex_editor.Selection.Defs.{Selection}
use tofu_hex_editor.Operations.{for_regions, built}

module _ (X : Xi) (L : XiLaws X) where
  open L use {base_len, changes, text_len}

  -- The step asks the builder for the change, at each region.
  abbrev pub Asks :
      (X.Builder → SelRegion → Option X.Builder) → (SelRegion → Change) → List SelRegion → Type 0
  Asks step change [] = Unit
  Asks step change (r ∷ rs) =
      ((b : X.Builder) → step b r ≡ X.replace b (change r).start (change r).stop (change r).rope)
      × Asks step change rs

  -- The delta is for the text, and does the changes to it.
  pub record Does (delta : X.Delta) (cs : List Change) (base : Rope) : Type 0 where
    pub fits : base_len delta ≡ length base
    pub text : X.apply delta base ≡ changed 0 cs base
    pub lands : (i : ℕ) → X.transform delta i true ≡ landed 0 cs (length base) i

  for_regions-changes :
      (step : X.Builder → SelRegion → Option X.Builder) (change : SelRegion → Change)
      (b : X.Builder) (rs : List SelRegion)
      → Asks step change rs
      → AreSorted 0 (changes b ++ map change rs) (text_len b)
      → (b' : X.Builder) × (for_regions X step b rs ≡ some b')
        × (changes b' ≡ changes b ++ map change rs)
        × (text_len b' ≡ text_len b)
  for_regions-changes step change b [] a s = (b, refl, sym (append-nil (changes b)), refl)
  for_regions-changes step change b (r ∷ rs) a s =
      let first = AreSorted-init 0 (text_len b) (changes b) (change r) (map change rs) s in
      let (b₁, e₁, c₁, l₁) = L.replace-changes b (change r) first in
      let along =
        ap (λ cs. cs ++ map change rs) c₁
        ∙ append_assoc (changes b) (change r ∷ []) (map change rs) in
      let (b₂, e₂, c₂, l₂) = for_regions-changes step change b₁ rs a.1 (rw along (rw l₁ s)) in
      (b₂, ap (λ o. o >>= λ b'. for_regions X step b' rs) (a.0 b ∙ e₁) ∙ e₂, c₂ ∙ along, l₂ ∙ l₁)

  -- Where the changes that are asked for are sorted in the text, nothing panics, and the delta does
  -- these changes.
  pub built-Does :
      (base : Rope) (s : Selection) (step : X.Builder → SelRegion → Option X.Builder)
      (change : SelRegion → Change)
      → Asks step change s.regions
      → AreSorted 0 (map change s.regions) (length base)
      → (delta : X.Delta) × (built X base s step ≡ some delta)
        × Does delta (map change s.regions) base
  built-Does base s step change a h =
      let start = X.builder (length base) in
      let none_yet = ap (λ cs. cs ++ map change s.regions) (L.changes-builder (length base)) in
      let (b, e, c, l) =
        for_regions-changes step change start s.regions a
          (rw none_yet (rw (L.text_len-builder (length base)) h)) in
      let c' = c ∙ none_yet in
      let l' = l ∙ L.text_len-builder (length base) in
      let sorted : AreSorted 0 (changes b) (text_len b) = rw c' (rw l' h) in
      (
        X.build b,
        ap (λ o. o >>= λ b. some (X.build b)) e,
        record {
          fits = L.base_len-build b sorted ∙ l';
          text = L.apply-build b base sorted l' ∙ ap (λ cs. changed 0 cs base) c';
          lands = λ i.
              L.transform-build b i sorted
              ∙ ap (λ cs. landed 0 cs (text_len b) i) c'
              ∙ ap (λ n. landed 0 (map change s.regions) n i) l';
        },
      )
