-- ===== src/Operations/Places.antt =====
-- Edits described place by place: what each byte of the text becomes. The changes of a delta come to
-- such a description.
use tofu_hex_editor.Prelude.{
  ℕ, suc, ◌+◌, ◌-◌, ◌≤◌, ◌<◌, ◌≡◌, refl, sym, ap, ◌∙◌, List, [], ◌∷◌, ◌++◌, length, take, drop,
  take-drop, length-drop, length-take, drop-drop, replicate, arith,
}
use mathlib.Core.List.{append_assoc}
use tofu_hex_editor.Xi.Changes.{Change, AreSorted, changed, at-le}

-- The text from an offset on, with each byte replaced by what stands for it at its offset.
unfoldable pub by_place : (ℕ → ℕ → List ℕ) → ℕ → List ℕ → List ℕ
by_place f i [] = []
by_place f i (x ∷ t) = f i x ++ by_place f (suc i) t

by_place-append :
    (f : ℕ → ℕ → List ℕ) (i : ℕ) (u v : List ℕ)
    → by_place f i (u ++ v) ≡ by_place f i u ++ by_place f (i + length u) v
unfolding by_place
by_place-append f i [] v = let e : i ≡ i + 0 = omega arith in ap (λ k. by_place f k v) e
by_place-append f i (x ∷ u) v =
    let e : suc i + length u ≡ i + suc (length u) = omega arith in
    ap (λ t. f i x ++ t)
      (by_place-append f (suc i) u v ∙ ap (λ k. by_place f (suc i) u ++ by_place f k v) e)
    ∙ sym (append_assoc (f i x) (by_place f (suc i) u) (by_place f (i + suc (length u)) v))

module _ (f g : ℕ → ℕ → List ℕ) where
  pub by_place-eq :
      (i : ℕ) (u : List ℕ)
      → ((j x : ℕ) → i ≤ j → j < i + length u → f j x ≡ g j x)
      → by_place f i u ≡ by_place g i u
  unfolding by_place
  by_place-eq i [] h = refl
  by_place-eq i (x ∷ u) h =
      ap (λ t. t ++ by_place f (suc i) u) (h i x (omega arith) (omega arith))
      ∙ ap (λ t. g i x ++ t) (by_place-eq (suc i) u (λ j y a b. h j y (omega arith) (omega arith)))

pub by_place_same : (i : ℕ) (u : List ℕ) → by_place (λ j x. x ∷ []) i u ≡ u
unfolding by_place
by_place_same i [] = refl
by_place_same i (x ∷ u) = ap (x ∷◌) (by_place_same (suc i) u)

pub by_place-nil : (i : ℕ) (u : List ℕ) → by_place (λ j x. []) i u ≡ []
unfolding by_place
by_place-nil i [] = refl
by_place-nil i (x ∷ u) = by_place-nil (suc i) u

pub by_place-replicate :
    (ch i : ℕ) (u : List ℕ) → by_place (λ j x. ch ∷ []) i u ≡ replicate (length u) ch
unfolding by_place
by_place-replicate ch i [] = refl
by_place-replicate ch i (x ∷ u) = ap (ch ∷◌) (by_place-replicate ch (suc i) u)

-- The description keeps what no change touches, and gives the rope of each change for its interval.
abbrev pub Places : (ℕ → ℕ → List ℕ) → ℕ → List Change → Type 0
Places f at [] = (i x : ℕ) → at ≤ i → f i x ≡ x ∷ []
Places f at (c ∷ cs) =
    ((i x : ℕ) → at ≤ i → i < c.start → f i x ≡ x ∷ [])
    × ((u : List ℕ) → length u ≡ c.stop - c.start → by_place f c.start u ≡ c.rope)
    × Places f c.stop cs

-- Descriptions that agree from an offset on.
pub Places-eq :
    (f g : ℕ → ℕ → List ℕ) (at len : ℕ) (cs : List Change)
    → AreSorted at cs len
    → ((i x : ℕ) → at ≤ i → g i x ≡ f i x)
    → Places f at cs
    → Places g at cs
Places-eq f g at len [] s e p = λ i x h. e i x h ∙ p i x h
Places-eq f g at len (c ∷ cs) s e p = (
  λ i x h k. e i x h ∙ p.0 i x h k,
  λ u h. by_place-eq g f c.start u (λ j x a b. e j x (omega (arith, s.0))) ∙ p.1 u h,
  Places-eq f g c.stop len cs s.2 (λ i x h. e i x (omega (arith, s.0, s.1))) p.2,
)

module _ (f : ℕ → ℕ → List ℕ) where
  unchanged :
      (i : ℕ) (u : List ℕ)
      → ((j x : ℕ) → i ≤ j → j < i + length u → f j x ≡ x ∷ [])
      → by_place f i u ≡ u
  unchanged i u h = by_place-eq f (λ j x. x ∷ []) i u h ∙ by_place_same i u

  split_place :
      (i n k : ℕ) (t : List ℕ)
      → n ≤ length t
      → i + n ≡ k
      → by_place f i t ≡ by_place f i (take n t) ++ by_place f k (drop n t)
  split_place i n k t h e =
      let at : i + length (take n t) ≡ k = omega (arith, length-take n t h) in
      ap (by_place f i) (sym (take-drop n t))
      ∙ by_place-append f i (take n t) (drop n t)
      ∙ ap (λ k. by_place f i (take n t) ++ by_place f k (drop n t)) at

  -- Sorted changes come to a description that has their places.
  pub changed-by_place :
      (at len : ℕ) (cs : List Change) (t : List ℕ)
      → AreSorted at cs len
      → length t ≡ len - at
      → Places f at cs
      → changed at cs t ≡ by_place f at t
  unfolding changed
  changed-by_place at len [] t s h p = sym (unchanged at t (λ j x a b. p j x a))
  changed-by_place at len (c ∷ cs) t s h p =
      let le = at-le c.stop len cs s.2 in
      let n = c.start - at in
      let m = c.stop - c.start in
      let far : n + m ≡ c.stop - at = omega arith in
      let rest = drop (c.stop - at) t in
      let left : length (drop n t) ≡ len - c.start = omega (arith, length-drop {A = ℕ} n t) in
      let left' : length rest ≡ len - c.stop = omega (arith, length-drop {A = ℕ} (c.stop - at) t) in
      let near : at + length (take n t) ≡ c.start = omega (arith, length-take n t (omega arith)) in
      sym (
        split_place at n c.start t (omega arith) (omega (arith, s.0))
        ∙ ap (λ u. u ++ by_place f c.start (drop n t))
            (unchanged at (take n t) (λ j x a b. p.0 j x a (omega (arith, near))))
        ∙ ap (λ u. take n t ++ u)
            (split_place c.start m c.stop (drop n t) (omega arith) (omega (arith, s.1))
              ∙ ap (λ u. u ++ by_place f c.stop (drop m (drop n t)))
                  (p.1 (take m (drop n t)) (length-take m (drop n t) (omega arith)))
              ∙ ap (λ u. c.rope ++ by_place f c.stop u) (drop-drop m n t ∙ ap (λ k. drop k t) far)
              ∙ ap (λ u. c.rope ++ u) (sym (changed-by_place c.stop len cs rest s.2 left' p.2))))
