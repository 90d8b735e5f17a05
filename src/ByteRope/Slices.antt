-- ===== src/ByteRope/Slices.antt =====
-- The chunks of src/byte_rope.rs give the bytes of the range, and a rope the vector that it is from.
use tofu_hex_editor.Prelude.{
  ℕ, zero, suc, ◌-◌, ◌≤◌, ◌<◌, ◌≡◌, ◌⊎◌, inl, inr, refl, sym, ap, ◌∙◌, min, false, Option, none,
  some, ◌>>=◌, List, [], ◌∷◌, ◌++◌, length, take, drop, leb, le→leb, arith, Bool-cases,
  Option-cases, length-drop, take_all, take-nil, take-drop, ◌==◌, if◌then◌else◌,
}
use mathlib.Core.List.{append_assoc, append-nil}
use tofu_hex_editor.ByteRope.{
  Tree, TreeLaws, flat, chunk_then, max_leaf, next_chunk, concat_chunks, join, slice_from,
  slice_to_cow, to_vec, push_pieces, from_vec,
}

take-append : (n : ℕ) (xs ys : List ℕ) → take n (xs ++ ys) ≡ take n xs ++ take (n - length xs) ys
take-append n [] ys =
    let all : n ≡ n - 0 = omega arith in
    ap (λ k. take k ys) all ∙ ap (λ t. t ++ take (n - 0) ys) (sym (take-nil n))
take-append zero (x ∷ xs) ys =
    let nothing : 0 ≡ 0 - suc (length xs) = omega arith in ap (λ k. take k ys) nothing
take-append (suc n) (x ∷ xs) ys =
    let less : n - length xs ≡ suc n - suc (length xs) = omega arith in
    ap (x ∷◌) (take-append n xs ys ∙ ap (λ k. take n xs ++ take k ys) less)

take-min : (n : ℕ) (xs : List ℕ) → take (min n (length xs)) xs ≡ take n xs
take-min n xs = elim (Bool-cases (leb n (length xs))) [
  | inl t ↦ ap (λ k. take k xs) (ground arith)
  | inr f ↦
      ap (λ k. take k xs) (ground arith)
      ∙ take_all (length xs) xs (omega arith)
      ∙ sym (take_all n xs (ground arith))
]

drop-nil : (n : ℕ) → drop {A = ℕ} n [] ≡ []
drop-nil zero = refl
drop-nil (suc n) = refl

drop-append_within : (n : ℕ) (xs ys : List ℕ) → n ≤ length xs → drop n (xs ++ ys) ≡ drop n xs ++ ys
drop-append_within zero xs ys h = refl
drop-append_within (suc n) [] ys h = absurd (omega arith)
drop-append_within (suc n) (x ∷ xs) ys h = drop-append_within n xs ys (omega arith)

-- The first chunk, and what follows it.
split_chunk :
    (n w : ℕ) (leaf rest : List ℕ)
    → w ≤ length leaf
    → take n (drop w (leaf ++ rest))
      ≡ take (min n (length leaf - w)) (drop w leaf) ++ take (n - (length leaf - w)) rest
split_chunk n w leaf rest h =
    let len = length-drop w leaf in
    ap (take n) (drop-append_within w leaf rest h)
    ∙ take-append n (drop w leaf) rest
    ∙ ap (λ t. t ++ take (n - length (drop w leaf)) rest) (sym (take-min n (drop w leaf)))
    ∙ ap (λ k. take (min n k) (drop w leaf) ++ take (n - k) rest) len

module _ (T : Tree) (L : TreeLaws T) where
  ended : (c : T.Cursor) (end : ℕ) → end ≤ T.pos c → next_chunk T c end ≡ (none, c)
  unfolding next_chunk
  ended c end h = rw (le→leb end (T.pos c) h, next_chunk) refl

  no_leaf : (c : T.Cursor) (end : ℕ) → L.ahead c ≡ [] → next_chunk T c end ≡ (none, c)
  unfolding next_chunk
  no_leaf c end h = elim (Bool-cases (leb end (T.pos c))) [
    | inl t ↦ rw (t, next_chunk) refl
    | inr f ↦ rw (f, next_chunk) (rw (L.get_leaf-nil c h) refl)
  ]

  a_leaf :
      (c : T.Cursor) (end : ℕ) (leaf : List ℕ) (rest : List (List ℕ))
      → T.pos c < end
      → L.ahead c ≡ leaf ∷ rest
      → next_chunk T c end ≡ (
        some (take (min (end - T.pos c) (length leaf - L.within c)) (drop (L.within c) leaf)),
        T.next_leaf c,
      )
  unfolding next_chunk
  a_leaf c end leaf rest h e =
      let more : leb end (T.pos c) ≡ false = ground arith in
      rw (more, next_chunk) (rw (L.get_leaf-cons c leaf rest e).0 refl)

  none_left :
      (fuel : ℕ) (c : T.Cursor) (end : ℕ)
      → next_chunk T c end ≡ (none, c)
      → concat_chunks T fuel c end ≡ some []
  unfolding concat_chunks
  none_left zero c end h = ap (λ p. chunk_then T p (λ c'. none)) h
  none_left (suc fuel) c end h = ap (λ p. chunk_then T p (λ c'. concat_chunks T fuel c' end)) h

  one_more :
      (fuel : ℕ) (c c' : T.Cursor) (end : ℕ) (chunk bytes : List ℕ)
      → next_chunk T c end ≡ (some chunk, c')
      → concat_chunks T fuel c' end ≡ some bytes
      → concat_chunks T (suc fuel) c end ≡ some (chunk ++ bytes)
  unfolding concat_chunks
  one_more fuel c c' end chunk bytes h k =
      ap (λ p. chunk_then T p (λ c'. concat_chunks T fuel c' end)) h
      ∙ ap (λ o. o >>= λ bytes. some (chunk ++ bytes)) k

  abbrev in_front : T.Cursor → ℕ → List ℕ
  in_front c end = take (end - T.pos c) (drop (L.within c) (flat (L.ahead c)))

  nothing_in_front : (c : T.Cursor) (end : ℕ) → end ≤ T.pos c → in_front c end ≡ []
  nothing_in_front c end h =
      let zero_left : end - T.pos c ≡ 0 = omega arith in
      ap (λ k. take k (drop (L.within c) (flat (L.ahead c)))) zero_left

  concat_ahead :
      (fuel : ℕ) (ahead : List (List ℕ)) (c : T.Cursor) (end : ℕ)
      → L.ahead c ≡ ahead
      → length ahead ≤ fuel
      → concat_chunks T fuel c end ≡ some (in_front c end)
  concat_ahead fuel [] c end e h =
      none_left fuel c end (no_leaf c end e)
      ∙ ap some (
          sym (
            ap (λ a. take (end - T.pos c) (drop (L.within c) (flat a))) e
            ∙ ap (take (end - T.pos c)) (drop-nil (L.within c))
            ∙ take-nil (end - T.pos c)))
  concat_ahead zero (leaf ∷ rest) c end e h = absurd (omega arith)
  concat_ahead (suc fuel) (leaf ∷ rest) c end e h = elim (Bool-cases (leb end (T.pos c))) [
    | inl t ↦
        let done : end ≤ T.pos c = ground arith in
        none_left (suc fuel) c end (ended c end done) ∙ ap some (sym (nothing_in_front c end done))
    | inr f ↦
        let (a, w, p) = L.next_leaf-ahead c leaf rest e in
        let n = end - T.pos c in
        let k = length leaf - L.within c in
        let left : end - T.pos (T.next_leaf c) ≡ n - k = omega (arith, p) in
        let later =
          concat_ahead fuel rest (T.next_leaf c) end a (omega arith)
          ∙ ap some (
              ap (λ m. take m (drop (L.within (T.next_leaf c)) (flat (L.ahead (T.next_leaf c)))))
                left
              ∙ ap (λ m. take (n - k) (drop m (flat (L.ahead (T.next_leaf c))))) w
              ∙ ap (λ a. take (n - k) (flat a)) a) in
        one_more fuel c (T.next_leaf c) end _ _ (a_leaf c end leaf rest (ground (arith, f)) e) later
        ∙ ap some (
            sym (
              ap (λ a. take n (drop (L.within c) (flat a))) e
              ∙ split_chunk n (L.within c) leaf (flat rest) (L.get_leaf-cons c leaf rest e).1))
  ]

  -- A vector from a rope, with fuel for every leaf, is the bytes of the rope.
  to_vec-content :
      (fuel : ℕ) (node : T.Node) → L.leaves node ≤ fuel → to_vec T fuel node ≡ some (L.content node)
  unfolding to_vec
  to_vec-content fuel node h =
      let c = T.cursor node 0 in
      concat_ahead fuel (L.ahead c) c (T.len node) refl (omega (arith, L.length-ahead node 0, h))
      ∙ ap some (
          ap (take (T.len node - T.pos c)) (L.cursor-content node 0 (omega arith))
          ∙ take_all _ (L.content node)
              (omega (arith, L.len-content node, L.pos-cursor node 0 (omega arith))))

  chunk_cases :
      (c : T.Cursor) (end : ℕ)
      → (next_chunk T c end ≡ (none, c))
        ⊎ ((chunk : List ℕ) × (next_chunk T c end ≡ (some chunk, T.next_leaf c)))
  unfolding next_chunk
  chunk_cases c end = elim (Bool-cases (leb end (T.pos c))) [
    | inl t ↦ inl (rw (t, next_chunk) refl)
    | inr f ↦ elim (Option-cases (T.get_leaf c)) [
      | inl g ↦ inl (rw (f, next_chunk) (rw g refl))
      | inr ((leaf, start_pos), g) ↦ inr (
        take (min (end - T.pos c) (length leaf - start_pos)) (drop start_pos leaf),
        rw (f, next_chunk) (rw g refl),
      )
    ]
  ]

  join_assoc :
      (one two : List ℕ) (o : Option (List ℕ))
      → join T (some one) (some two) o
        ≡ ((o >>= λ bytes. some (two ++ bytes)) >>= λ bytes. some (one ++ bytes))
  join_assoc one two none = refl
  join_assoc one two (some bytes) = ap some (append_assoc one two bytes)

  abbrev second_of : ℕ → ℕ → Option (List ℕ) → Option (List ℕ) × T.Cursor → Option (List ℕ)
  second_of fuel end first (second, c'') = join T first second (concat_chunks T fuel c'' end)

  two_more :
      (fuel : ℕ) (c c' c'' : T.Cursor) (end : ℕ) (one two : List ℕ)
      → next_chunk T c end ≡ (some one, c')
      → next_chunk T c' end ≡ (some two, c'')
      → concat_chunks T (suc (suc fuel)) c end ≡ (
          (concat_chunks T fuel c'' end >>= λ bytes. some (two ++ bytes)) >>= λ bytes.
          some (one ++ bytes))
  unfolding concat_chunks
  two_more fuel c c' c'' end one two h k =
      ap (λ p. chunk_then T p (λ c'. concat_chunks T (suc fuel) c' end)) h
      ∙ ap
          (λ p. chunk_then T p (λ c'. concat_chunks T fuel c' end) >>= λ bytes. some (one ++ bytes))
          k

  -- Taking the first two chunks apart makes no difference.
  slice_from-concat_chunks :
      (fuel : ℕ) (c : T.Cursor) (end : ℕ)
      → slice_from T fuel c end ≡ concat_chunks T (suc (suc fuel)) c end
  unfolding slice_from
  slice_from-concat_chunks fuel c end = elim (chunk_cases c end) [
    | inl h ↦
        ap (λ (first, c'). second_of fuel end first (next_chunk T c' end)) h
        ∙ ap (second_of fuel end none) h
        ∙ sym (none_left (suc (suc fuel)) c end h)
    | inr (one, h) ↦
        let c' = T.next_leaf c in
        ap (λ (first, c'). second_of fuel end first (next_chunk T c' end)) h
        ∙ elim (chunk_cases c' end) [
          | inl k ↦
              ap (second_of fuel end (some one)) k
              ∙ sym (
                  one_more (suc fuel) c c' end one [] h (none_left (suc fuel) c' end k)
                  ∙ ap some (append-nil one))
          | inr (two, k) ↦
              ap (second_of fuel end (some one)) k
              ∙ join_assoc one two (concat_chunks T fuel (T.next_leaf c') end)
              ∙ sym (two_more fuel c c' (T.next_leaf c') end one two h k)
        ]
  ]

  -- With fuel for every leaf, the bytes of a range that starts within the rope are those of the list
  -- of its bytes from the start to the end.
  pub slice_to_cow-content :
      (fuel : ℕ) (node : T.Node) (start end : ℕ)
      → L.leaves node ≤ fuel
      → start ≤ length (L.content node)
      → slice_to_cow T fuel node start end ≡ some (take (end - start) (drop start (L.content node)))
  unfolding slice_to_cow
  slice_to_cow-content fuel node start end h s =
      let c = T.cursor node start in
      slice_from-concat_chunks fuel c end
      ∙ concat_ahead (suc (suc fuel)) (L.ahead c) c end refl
          (omega (arith, L.length-ahead node start, h))
      ∙ ap some (
          ap (take (end - T.pos c)) (L.cursor-content node start s)
          ∙ ap (λ p. take (end - p) (drop start (L.content node))) (L.pos-cursor node start s))

  push_pieces-pushed :
      (fuel : ℕ) (b : T.Builder) (source : List ℕ)
      → length source ≤ fuel
      → L.pushed (push_pieces T fuel b source) ≡ L.pushed b ++ source
  unfolding push_pieces
  push_pieces-pushed fuel b [] h = sym (append-nil (L.pushed b))
  push_pieces-pushed zero b (byte ∷ source) h = absurd (omega arith)
  push_pieces-pushed (suc fuel) b (byte ∷ source) h =
      let all = byte ∷ source in
      let n = min (length all) max_leaf in
      push_pieces-pushed fuel (T.push_leaf b (take n all)) (drop n all)
        (omega (arith, length-drop {A = ℕ} n all))
      ∙ ap (λ t. t ++ drop n all) (L.pushed-push_leaf b (take n all))
      ∙ append_assoc (L.pushed b) (take n all) (drop n all)
      ∙ ap (λ t. L.pushed b ++ t) (take-drop n all)

  short_vec :
      (vec : List ℕ)
      → L.content
          (T.build (if length vec == 0 then T.new_builder else T.push_leaf T.new_builder vec))
        ≡ vec
  short_vec [] = L.content-build T.new_builder ∙ L.pushed-new_builder
  short_vec (byte ∷ vec) =
      let some_bytes : (suc (length vec) == 0) ≡ false = ground arith in
      rw some_bytes (
        L.content-build _
        ∙ L.pushed-push_leaf T.new_builder (byte ∷ vec)
        ∙ ap (λ t. t ++ byte ∷ vec) L.pushed-new_builder)

  from_vec-content : (vec : List ℕ) → L.content (from_vec T vec) ≡ vec
  unfolding from_vec
  from_vec-content vec = elim (Bool-cases (leb (length vec) max_leaf)) [
    | inl t ↦ rw t (short_vec vec)
    | inr f ↦ rw f (
        L.content-build _
        ∙ push_pieces-pushed (length vec) T.new_builder vec (omega arith)
        ∙ ap (λ t. t ++ vec) L.pushed-new_builder)
  ]

  -- A vector made into a rope, and the rope into a vector with fuel for every leaf, is that vector.
  pub to_vec-from_vec :
      (vec : List ℕ) (fuel : ℕ)
      → L.leaves (from_vec T vec) ≤ fuel
      → to_vec T fuel (from_vec T vec) ≡ some vec
  to_vec-from_vec vec fuel h =
      to_vec-content fuel (from_vec T vec) h ∙ ap some (from_vec-content vec)
