-- ===== src/Tests/Ropes.antt =====
-- The theorem on the bytes of a rope, on a tree that is the list of its leaves.
use tofu_hex_editor.Prelude.{
  ℕ, ◌+◌, ◌-◌, ◌≤◌, ◌≡◌, refl, sym, ap, ◌∙◌, Option, none, some, List, [], ◌∷◌, ◌++◌, length, take,
  drop, take-drop, length-append, length-drop, drop-append, ltb, arith, Bool-cases, inl, inr,
  if◌then◌else◌,
}
use mathlib.Core.List.{append_assoc, append-nil}
use tofu_hex_editor.ByteRope.{Tree, TreeLaws, flat, slice_to_cow}
use tofu_hex_editor.ByteRope.Slices.{slice_to_cow-content}

-- A cursor past all leaves, or in a leaf: what is before it there and what is not, the leaves that
-- follow, and the position.
data Standing : Type 0 where
  past : ℕ → Standing
  inside : List ℕ → List ℕ → List (List ℕ) → ℕ → Standing

abbrev leaves_ahead : Standing → List (List ℕ)
leaves_ahead (past p) = []
leaves_ahead (inside before here rest p) = (before ++ here) ∷ rest

abbrev offset_within : Standing → ℕ
offset_within (past p) = 0
offset_within (inside before here rest p) = length before

abbrev position : Standing → ℕ
position (past p) = p
position (inside before here rest p) = p

abbrev walk : List (List ℕ) → ℕ → ℕ → Standing
walk [] start p = past p
walk (leaf ∷ rest) start p =
    let later = walk rest (start - length leaf) p in
    if ltb start (length leaf) then inside (take start leaf) (drop start leaf) rest p else later

abbrev leaf_of : Standing → Option (List ℕ × ℕ)
leaf_of (past p) = none
leaf_of (inside before here rest p) = some (before ++ here, length before)

abbrev step : Standing → Standing
step (past p) = past p
step (inside before here [] p) = past (p + length here)
step (inside before here (leaf ∷ rest) p) = inside [] leaf rest (p + length here)

abbrev leaf_list : Tree
leaf_list = record {
  Node = List (List ℕ);
  Builder = List (List ℕ);
  Cursor = Standing;
  new_builder = [];
  push_leaf = λ b leaf. b ++ leaf ∷ [];
  build = λ b. b;
  len = λ n. length (flat n);
  cursor = λ n start. walk n start start;
  pos = position;
  get_leaf = leaf_of;
  next_leaf = step;
}

flat-append : (b : List (List ℕ)) (leaf : List ℕ) → flat (b ++ leaf ∷ []) ≡ flat b ++ leaf
flat-append [] leaf = append-nil leaf
flat-append (l ∷ b) leaf =
    ap (λ t. l ++ t) (flat-append b leaf) ∙ sym (append_assoc l (flat b) leaf)

length-take : (n : ℕ) (xs : List ℕ) → n ≤ length xs → length (take n xs) ≡ n
length-take n xs h = omega (
  arith,
  length-append {A = ℕ} (take n xs) (drop n xs),
  length-drop {A = ℕ} n xs,
  ap length (take-drop n xs),
)

walk-content :
    (n : List (List ℕ)) (start p : ℕ)
    → start ≤ length (flat n)
    → drop (offset_within (walk n start p)) (flat (leaves_ahead (walk n start p)))
      ≡ drop start (flat n)
walk-content [] start p h = ap (λ k. drop {A = ℕ} k []) {x = 0} {y = start} (omega arith)
walk-content (leaf ∷ rest) start p h = elim (Bool-cases (ltb start (length leaf))) [
  | inl t ↦ rw t (
      ap (λ k. drop k ((take start leaf ++ drop start leaf) ++ flat rest))
        (length-take start leaf (ground (arith, t)))
      ∙ ap (λ l. drop start (l ++ flat rest)) (take-drop start leaf))
  | inr f ↦ rw f (
      walk-content rest (start - length leaf) p
        (omega (arith, length-append {A = ℕ} leaf (flat rest)))
      ∙ sym (drop-append (start - length leaf) start leaf (flat rest) (ground (arith, f))))
]

walk-length : (n : List (List ℕ)) (start p : ℕ) → length (leaves_ahead (walk n start p)) ≤ length n
walk-length [] start p = omega arith
walk-length (leaf ∷ rest) start p = elim (Bool-cases (ltb start (length leaf))) [
  | inl t ↦ rw t (omega arith)
  | inr f ↦ rw f (omega (arith, walk-length rest (start - length leaf) p))
]

walk-position : (n : List (List ℕ)) (start p : ℕ) → position (walk n start p) ≡ p
walk-position [] start p = refl
walk-position (leaf ∷ rest) start p = elim (Bool-cases (ltb start (length leaf))) [
  | inl t ↦ rw t refl
  | inr f ↦ rw f (walk-position rest (start - length leaf) p)
]

no_leaf : (c : Standing) → leaves_ahead c ≡ [] → leaf_of c ≡ none
no_leaf (past p) h = refl
no_leaf (inside before here rest p) h = cc

some_leaf :
    (c : Standing) (leaf : List ℕ) (rest : List (List ℕ))
    → leaves_ahead c ≡ leaf ∷ rest
    → (leaf_of c ≡ some (leaf, offset_within c)) × (offset_within c ≤ length leaf)
some_leaf (past p) leaf rest h = cc
some_leaf (inside before here others p) leaf rest h =
    let e : before ++ here ≡ leaf = cc in
    (
      ap (λ l. some (l, length before)) e,
      omega (arith, length-append {A = ℕ} before here, ap length e),
    )

step_lem :
    (c : Standing) (leaf : List ℕ) (rest : List (List ℕ))
    → leaves_ahead c ≡ leaf ∷ rest
    → (leaves_ahead (step c) ≡ rest)
      × (offset_within (step c) ≡ 0)
      × (position (step c) ≡ position c + (length leaf - offset_within c))
step_lem (past p) leaf rest h = cc
step_lem (inside before here [] p) leaf rest h =
    let e : before ++ here ≡ leaf = cc in
    (cc, refl, omega (arith, length-append {A = ℕ} before here, ap length e))
step_lem (inside before here (l ∷ ls) p) leaf rest h =
    let e : before ++ here ≡ leaf = cc in
    (cc, refl, omega (arith, length-append {A = ℕ} before here, ap length e))

leaf_list_laws : TreeLaws leaf_list
leaf_list_laws = record {
  content = flat;
  pushed = flat;
  pushed-new_builder = refl;
  pushed-push_leaf = flat-append;
  content-build = λ b. refl;
  len-content = λ n. refl;
  ahead = leaves_ahead;
  within = offset_within;
  leaves = λ n. length n;
  length-ahead = λ n start. walk-length n start start;
  cursor-content = λ n start. walk-content n start start;
  pos-cursor = λ n start h. walk-position n start start;
  get_leaf-nil = no_leaf;
  get_leaf-cons = some_leaf;
  next_leaf-ahead = step_lem;
}

abbrev three_leaves : List (List ℕ)
three_leaves = (1 ∷ 2 ∷ []) ∷ (3 ∷ []) ∷ (4 ∷ 5 ∷ 6 ∷ []) ∷ []

slice_to_cow-content_example : slice_to_cow leaf_list 3 three_leaves 1 5 ≡ some (2 ∷ 3 ∷ 4 ∷ 5 ∷ [])
unfolding leaf_list_laws
slice_to_cow-content_example =
    slice_to_cow-content leaf_list leaf_list_laws 3 three_leaves 1 5 (omega arith) (omega arith)
