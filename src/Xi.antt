-- ===== src/Xi.antt =====
-- What the program uses of the crate xi-rope: deltas between texts, the subsets into which a delta
-- factors, and the builder of deltas. The crate is not part of the repository, so these are the
-- fields of a record. A rope is read as its bytes.
pub mod Changes
use tofu_hex_editor.Prelude.{
  ℕ, Bool, true, ◌≤◌, ◌<◌, ◌≡◌, Option, some, List, [], ◌∷◌, length, ◌++◌,
}
use tofu_hex_editor.Xi.Changes.{Change, AreSorted, changed, landed}

abbrev pub Rope : Type 0
Rope = List ℕ

pub record Xi : Type 1 where
  pub Delta : Type 0
  pub InsertDelta : Type 0
  pub Subset : Type 0
  pub Builder : Type 0
  -- `Delta`
  pub apply : Delta → Rope → Rope
  pub new_document_len : Delta → ℕ
  pub factor : Delta → InsertDelta × Subset
  pub synthesize : Rope → Subset → Subset → Delta
  -- `Transformer::new(delta).transform(offset, after)`
  pub transform : Delta → ℕ → Bool → ℕ
  -- `InsertDelta`, which is also a delta
  pub as_delta : InsertDelta → Delta
  pub inserted_subset : InsertDelta → Subset
  pub insert_transform_expand : InsertDelta → Subset → Bool → InsertDelta
  -- `Subset`
  pub complement : Subset → Subset
  pub union : Subset → Subset → Subset
  pub is_empty : Subset → Bool
  pub transform_expand : Subset → Subset → Subset
  pub transform_shrink : Subset → Subset → Subset
  pub transform_union : Subset → Subset → Subset
  pub delete_from : Subset → Rope → Rope
  -- `DeltaBuilder`, which panics if intervals overlap or are not sorted
  pub builder : ℕ → Builder
  pub replace : Builder → ℕ → ℕ → Rope → Option Builder
  pub delete : Builder → ℕ → ℕ → Option Builder
  pub build : Builder → Delta
  -- `Interval`, by its start and its end, which is not included
  pub interval_contains : ℕ × ℕ → ℕ → Bool
  pub interval_union : ℕ × ℕ → ℕ × ℕ → ℕ × ℕ
  pub interval_intersect : ℕ × ℕ → ℕ × ℕ → ℕ × ℕ
  -- `Delta::simple_edit`
  pub simple_edit : ℕ → ℕ → Rope → ℕ → Delta

-- The documented meaning of these operations, as far as the proofs rest on it. `base_len` is the
-- length of the text that a delta is for, `subset_len` that of the text that a subset is of.
pub record XiLaws (X : Xi) : Type 1 where
  pub base_len : X.Delta → ℕ
  pub subset_len : X.Subset → ℕ
  -- `Delta::factor`: to insert, and then to delete what the subset says, is to apply the delta.
  pub apply-factor :
      (d : X.Delta) (b : Rope)
      → base_len d ≡ length b
      → X.apply d b
        ≡ X.delete_from
            (X.transform_expand (X.factor d).1 (X.inserted_subset (X.factor d).0))
            (X.apply (X.as_delta (X.factor d).0) b)
  pub factor_len :
      (d : X.Delta) (b : Rope) → base_len d ≡ length b → subset_len (X.factor d).1 ≡ length b
  -- `InsertDelta::inserted_subset`: the elements inserted, without which the text is the old one.
  pub delete_from-inserted_subset :
      (d : X.Delta) (b : Rope)
      → base_len d ≡ length b
      → X.delete_from (X.inserted_subset (X.factor d).0) (X.apply (X.as_delta (X.factor d).0) b) ≡ b
  pub inserted_subset_len :
      (d : X.Delta) (b : Rope)
      → base_len d ≡ length b
      → subset_len (X.inserted_subset (X.factor d).0)
        ≡ length (X.apply (X.as_delta (X.factor d).0) b)
  -- `Subset::transform_expand`: the subset seen from the text in which `o` is still there.
  pub transform_expand_len :
      (s o : X.Subset) (u : Rope)
      → subset_len o ≡ length u
      → subset_len s ≡ length (X.delete_from o u)
      → subset_len (X.transform_expand s o) ≡ length u
  pub delete_from-transform_expand :
      (s o : X.Subset) (u : Rope)
      → subset_len o ≡ length u
      → subset_len s ≡ length (X.delete_from o u)
      → X.delete_from (X.complement (X.transform_expand s o)) u
        ≡ X.delete_from (X.complement s) (X.delete_from o u)
  -- `Delta::synthesize`: from the union string without `old` to the one without `new`, given the
  -- tombstones, the elements of `old`.
  pub synthesize_len :
      (old new : X.Subset) (u : Rope)
      → subset_len old ≡ length u
      → subset_len new ≡ length u
      → base_len (X.synthesize (X.delete_from (X.complement old) u) old new)
        ≡ length (X.delete_from old u)
  pub apply-synthesize :
      (old new : X.Subset) (u : Rope)
      → subset_len old ≡ length u
      → subset_len new ≡ length u
      → X.apply (X.synthesize (X.delete_from (X.complement old) u) old new) (X.delete_from old u)
        ≡ X.delete_from new u
  -- `Delta::simple_edit` with the empty interval at the end of the text appends to it.
  pub apply-simple_edit :
      (b r : Rope) → X.apply (X.simple_edit (length b) (length b) r (length b)) b ≡ b ++ r
  -- `Interval::intersect` holds what both intervals hold, and nothing else.
  pub in-interval_intersect :
      (a b : ℕ × ℕ) (i : ℕ)
      → a.0 ≤ i
      → i < a.1
      → b.0 ≤ i
      → i < b.1
      → ((X.interval_intersect a b).0 ≤ i) × (i < (X.interval_intersect a b).1)
  pub interval_intersect-in :
      (a b : ℕ × ℕ) (i : ℕ)
      → (X.interval_intersect a b).0 ≤ i
      → i < (X.interval_intersect a b).1
      → (a.0 ≤ i) × (i < a.1) × (b.0 ≤ i) × (i < b.1)
  -- `DeltaBuilder`: the changes that were asked for, in their order, and the length of the text. A
  -- change is taken that is behind the others, and to delete is to replace by nothing.
  pub changes : X.Builder → List Change
  pub text_len : X.Builder → ℕ
  pub changes-builder : (n : ℕ) → changes (X.builder n) ≡ []
  pub text_len-builder : (n : ℕ) → text_len (X.builder n) ≡ n
  pub replace-changes :
      (b : X.Builder) (c : Change)
      → AreSorted 0 (changes b ++ c ∷ []) (text_len b)
      → (b' : X.Builder) × (X.replace b c.start c.stop c.rope ≡ some b')
        × (changes b' ≡ changes b ++ c ∷ [])
        × (text_len b' ≡ text_len b)
  pub delete-replace :
      (b : X.Builder) (start stop : ℕ) → X.delete b start stop ≡ X.replace b start stop []
  -- `DeltaBuilder::build`: the delta does the changes, and moves offsets along.
  pub base_len-build :
      (b : X.Builder) → AreSorted 0 (changes b) (text_len b) → base_len (X.build b) ≡ text_len b
  pub apply-build :
      (b : X.Builder) (text : Rope)
      → AreSorted 0 (changes b) (text_len b)
      → text_len b ≡ length text
      → X.apply (X.build b) text ≡ changed 0 (changes b) text
  pub transform-build :
      (b : X.Builder) (i : ℕ)
      → AreSorted 0 (changes b) (text_len b)
      → X.transform (X.build b) i true ≡ landed 0 (changes b) (text_len b) i
  -- `Delta::new_document_len`
  pub new_document_len-apply :
      (d : X.Delta) (b : Rope) → base_len d ≡ length b → X.new_document_len d ≡ length (X.apply d b)
