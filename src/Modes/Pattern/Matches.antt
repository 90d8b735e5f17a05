-- ===== src/Modes/Pattern/Matches.antt =====
-- The matches of a byte string that src/modes/search.rs finds in a region.
use tofu_hex_editor.Prelude.{
  ℕ, zero, suc, ◌+◌, ◌-◌, ◌≤◌, ◌<◌, ◌≡◌, ◌≢◌, refl, none, some, Option-cases, inl, inr, List, [],
  ◌∷◌, length, take, drop, arith,
}
use tofu_hex_editor.Buffer.{Interval}
use tofu_hex_editor.Modes.Pattern.{Matching, matched_from}

-- The documented behaviour of `find`: an offset is that of an occurrence, and none means that there
-- is no occurrence.
pub record Finds (m : Matching) : Type 0 where
  pub sound :
      (slice bytes : List ℕ) (i : ℕ)
      → m.find slice bytes ≡ some i
      → (take (length slice) (drop i bytes) ≡ slice) × (i + length slice ≤ length bytes)
  pub complete :
      (slice bytes : List ℕ) (i : ℕ)
      → m.find slice bytes ≡ none
      → take (length slice) (drop i bytes) ≢ slice

-- Occurrences of the slice in the bytes at `base`, each behind the one before, and none behind the
-- last.
abbrev pub AreMatches : List ℕ → ℕ → List ℕ → List Interval → Type 0
AreMatches slice base bytes [] = (i : ℕ) → take (length slice) (drop i bytes) ≢ slice
AreMatches slice base bytes ((start, end) ∷ found) =
    (skip : ℕ) × (start ≡ base + skip)
    × (end ≡ start + length slice)
    × (take (length slice) (drop skip bytes) ≡ slice)
    × (skip + length slice ≤ length bytes)
    × AreMatches slice end (drop (skip + length slice) bytes) found

length-drop : {A : Type 0} (n : ℕ) (xs : List A) → length (drop n xs) ≡ length xs - n
length-drop zero xs = omega arith
length-drop (suc n) [] = omega arith
length-drop (suc n) (x ∷ xs) = omega (arith, length-drop n xs)

matched_none :
    (m : Matching) (slice : List ℕ) (fuel base : ℕ) (bytes : List ℕ)
    → m.find slice bytes ≡ none
    → matched_from m slice (suc fuel) base bytes ≡ []
unfolding matched_from
matched_none m slice fuel base bytes e = rw (matched_from, e) refl

matched_some :
    (m : Matching) (slice : List ℕ) (fuel base i : ℕ) (bytes : List ℕ)
    → m.find slice bytes ≡ some i
    → matched_from m slice (suc fuel) base bytes
      ≡ (base + i, base + i + length slice)
        ∷ matched_from m slice fuel (base + i + length slice) (drop (i + length slice) bytes)
unfolding matched_from
matched_some m slice fuel base i bytes e = rw (matched_from, e) refl

-- For a slice that is not empty and a search that finds occurrences, the loop with fuel for more
-- steps than there are bytes gives occurrences one behind the other, until there are none left.
pub matched_from-AreMatches :
    (m : Matching) (slice : List ℕ) (fuel base : ℕ) (bytes : List ℕ)
    → Finds m
    → slice ≢ []
    → length bytes < fuel
    → AreMatches slice base bytes (matched_from m slice fuel base bytes)
matched_from-AreMatches m slice zero base bytes f ne h = absurd (omega arith)
matched_from-AreMatches m slice (suc fuel) base bytes f ne h =
    elim (Option-cases (m.find slice bytes)) [
      | inl e ↦ rw (matched_none m slice fuel base bytes e) (λ i. f.complete slice bytes i e)
      | inr (i, e) ↦
          let (occurs, fits) = f.sound slice bytes i e in
          let len : length slice ≢ 0 = length_pos slice ne in
          let shorter : length (drop (i + length slice) bytes) < fuel =
            omega (arith, length-drop (i + length slice) bytes, len) in
          rw (matched_some m slice fuel base i bytes e) (
            i,
            refl,
            refl,
            occurs,
            fits,
            matched_from-AreMatches m slice fuel (base + i + length slice)
                (drop (i + length slice) bytes) f ne shorter,
          )
    ]
  where
    length_pos : (xs : List ℕ) → xs ≢ [] → length xs ≢ 0
    length_pos [] n = absurd (n refl)
    length_pos (x ∷ xs) n = omega arith
