-- ===== src/ByteRope.antt =====
-- src/byte_rope.rs: the leaves of the rope, and the bytes of a range of it. The tree, its builder and
-- its cursors are those of the crate xi-rope, which is a parameter.
pub mod Slices
use tofu_hex_editor.Prelude.{
  ℕ, zero, suc, ◌+◌, ◌-◌, ◌≤◌, ◌<◌, ◌≡◌, ◌≢◌, min, Bool, Option, none, some, ◌>>=◌, List, [], ◌∷◌,
  ◌++◌, length, take, drop, leb, ltb, ◌==◌, if◌then◌else◌,
}

abbrev pub min_leaf : ℕ
min_leaf = 511

abbrev pub max_leaf : ℕ
max_leaf = 1024

abbrev pub is_ok_child : List ℕ → Bool
is_ok_child leaf = leb min_leaf (length leaf)

-- The leaf, and what is split off behind it.
unfoldable pub push_maybe_split : List ℕ → List ℕ → ℕ → ℕ → List ℕ × Option (List ℕ)
push_maybe_split leaf other start end =
    let longer = leaf ++ take (end - start) (drop start other) in
    if leb (length longer) max_leaf
    then (longer, none)
    else (take max_leaf longer, some (drop max_leaf longer))

-- `BaseMetric`
abbrev pub prev_boundary : ℕ → Option ℕ
prev_boundary zero = none
prev_boundary (suc o) = some o

abbrev pub next_boundary : List ℕ → ℕ → Option ℕ
next_boundary leaf offset = if offset == length leaf then none else some (offset + 1)

-- `Node`, `TreeBuilder` and `Cursor` of the crate.
pub record Tree : Type 1 where
  pub Node : Type 0
  pub Builder : Type 0
  pub Cursor : Type 0
  pub new_builder : Builder
  pub push_leaf : Builder → List ℕ → Builder
  pub build : Builder → Node
  pub len : Node → ℕ
  pub cursor : Node → ℕ → Cursor
  pub pos : Cursor → ℕ
  pub get_leaf : Cursor → Option (List ℕ × ℕ)
  pub next_leaf : Cursor → Cursor

-- The bytes of leaves.
abbrev pub flat : List (List ℕ) → List ℕ
flat [] = []
flat (leaf ∷ rest) = leaf ++ flat rest

-- Their documented behaviour: a builder keeps the leaves in order, and a cursor stands in the first of
-- the leaves that are ahead, at an offset within it.
pub record TreeLaws (T : Tree) : Type 0 where
  pub content : T.Node → List ℕ
  pub pushed : T.Builder → List ℕ
  pub pushed-new_builder : pushed T.new_builder ≡ []
  pub pushed-push_leaf :
      (b : T.Builder) (leaf : List ℕ) → pushed (T.push_leaf b leaf) ≡ pushed b ++ leaf
  pub content-build : (b : T.Builder) → content (T.build b) ≡ pushed b
  pub len-content : (n : T.Node) → T.len n ≡ length (content n)
  pub ahead : T.Cursor → List (List ℕ)
  pub within : T.Cursor → ℕ
  pub leaves : T.Node → ℕ
  pub length-ahead : (n : T.Node) (start : ℕ) → length (ahead (T.cursor n start)) ≤ leaves n
  pub cursor-content :
      (n : T.Node) (start : ℕ)
      → start ≤ length (content n)
      → drop (within (T.cursor n start)) (flat (ahead (T.cursor n start))) ≡ drop start (content n)
  pub pos-cursor :
      (n : T.Node) (start : ℕ) → start ≤ length (content n) → T.pos (T.cursor n start) ≡ start
  pub get_leaf-nil : (c : T.Cursor) → ahead c ≡ [] → T.get_leaf c ≡ none
  pub get_leaf-cons :
      (c : T.Cursor) (leaf : List ℕ) (rest : List (List ℕ))
      → ahead c ≡ leaf ∷ rest
      → (T.get_leaf c ≡ some (leaf, within c)) × (within c ≤ length leaf)
  pub next_leaf-ahead :
      (c : T.Cursor) (leaf : List ℕ) (rest : List (List ℕ))
      → ahead c ≡ leaf ∷ rest
      → (ahead (T.next_leaf c) ≡ rest)
        × (within (T.next_leaf c) ≡ 0)
        × (T.pos (T.next_leaf c) ≡ T.pos c + (length leaf - within c))

module _ (T : Tree) where
  -- `ChunkIter::next`, with the cursor behind it
  unfoldable pub next_chunk : T.Cursor → ℕ → Option (List ℕ) × T.Cursor
  next_chunk c end = elim (leb end (T.pos c)) [
    | Bool.true ↦ (none, c)
    | Bool.false ↦ elim (T.get_leaf c) [
      | none ↦ (none, c)
      | some (leaf, start_pos) ↦ (
        some (take (min (end - T.pos c) (length leaf - start_pos)) (drop start_pos leaf)),
        T.next_leaf c,
      )
    ]
  ]

  abbrev pub chunk_then :
      Option (List ℕ) × T.Cursor → (T.Cursor → Option (List ℕ)) → Option (List ℕ)
  chunk_then (none, c) go = some []
  chunk_then (some chunk, c) go = go c >>= λ bytes. some (chunk ++ bytes)

  -- The chunks that are left, one after the other; none if the fuel is spent before the last one.
  unfoldable pub concat_chunks : ℕ → T.Cursor → ℕ → Option (List ℕ)
  unfolding next_chunk
  concat_chunks zero c end = chunk_then (next_chunk c end) (λ c'. none)
  concat_chunks (suc fuel) c end = chunk_then (next_chunk c end) (λ c'. concat_chunks fuel c' end)

  -- The `match (first, second)`, with the chunks that are left; a second one without a first is not
  -- reachable, and a panic.
  abbrev pub join : Option (List ℕ) → Option (List ℕ) → Option (List ℕ) → Option (List ℕ)
  join none none rest = some []
  join (some b) none rest = some b
  join (some one) (some two) rest = rest >>= λ bytes. some (one ++ two ++ bytes)
  join none (some two) rest = none

  unfoldable pub slice_from : ℕ → T.Cursor → ℕ → Option (List ℕ)
  unfolding concat_chunks
  slice_from fuel c end =
      let (first, c') = next_chunk c end in
      let (second, c'') = next_chunk c' end in join first second (concat_chunks fuel c'' end)

  unfoldable pub slice_to_cow : ℕ → T.Node → ℕ → ℕ → Option (List ℕ)
  unfolding slice_from
  slice_to_cow fuel node start end = slice_from fuel (T.cursor node start) end

  -- `Vec::from(&rope)`
  unfoldable pub to_vec : ℕ → T.Node → Option (List ℕ)
  unfolding concat_chunks
  to_vec fuel node = concat_chunks fuel (T.cursor node 0) (T.len node)

  -- The loop that pushes the pieces of a long vector; the fuel is its length.
  unfoldable pub push_pieces : ℕ → T.Builder → List ℕ → T.Builder
  push_pieces fuel b [] = b
  push_pieces zero b (byte ∷ source) = b
  push_pieces (suc fuel) b (byte ∷ source) =
      let split_point = min (length (byte ∷ source)) max_leaf in
      push_pieces fuel (T.push_leaf b (take split_point (byte ∷ source)))
        (drop split_point (byte ∷ source))

  -- `Rope::from(vec)`
  unfoldable pub from_vec : List ℕ → T.Node
  unfolding push_pieces
  from_vec vec =
      if leb (length vec) max_leaf
      then T.build (if length vec == 0 then T.new_builder else T.push_leaf T.new_builder vec)
      else T.build (push_pieces (length vec) T.new_builder vec)
