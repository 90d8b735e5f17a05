-- ===== src/Xi/Changes.antt =====
-- What a delta of the crate xi-rope does that a builder has made: changes of intervals of a text, from
-- its start to its end.
use tofu_hex_editor.Prelude.{
  ℕ, ◌+◌, ◌-◌, min, ◌≤◌, ◌≡◌, ◌&&◌, arith, List, [], ◌∷◌, ◌++◌, length, take, drop, Bool-cases, inl,
  inr, length-take, length-drop, length-append, ◌<◌, ◌≡◌, false, ltb, if◌then◌else◌,
}

-- The start and the end of an interval, and what replaces it.
pub record Change : Type 0 where
  pub start : ℕ
  pub stop : ℕ
  pub rope : List ℕ

-- The changes start behind `at`, do not overlap and end within `len`.
abbrev pub AreSorted : ℕ → List Change → ℕ → Type 0
AreSorted at [] len = at ≤ len
AreSorted at (c ∷ cs) len = (at ≤ c.start) × (c.start ≤ c.stop) × AreSorted c.stop cs len

-- The text from `at` on with the changes done.
unfoldable pub changed : ℕ → List Change → List ℕ → List ℕ
changed at [] text = text
changed at (c ∷ cs) text =
    take (c.start - at) text ++ (c.rope ++ changed c.stop cs (drop (c.stop - at) text))

-- Where `Transformer::transform` puts an offset, behind what is inserted there: it goes over what is
-- kept, and stops at the first byte kept that is not before the offset.
unfoldable pub landed : ℕ → List Change → ℕ → ℕ → ℕ
landed at [] len i = min i len - at
landed at (c ∷ cs) len i =
    let later = (c.start - at) + (length c.rope + landed c.stop cs len i) in
    if ltb i c.start && ltb at c.start then i - at else later

pub at-le : (at len : ℕ) (cs : List Change) → AreSorted at cs len → at ≤ len
at-le at len [] h = h
at-le at len (c ∷ cs) h = omega (arith, at-le c.stop len cs h.2)

pub AreSorted-init :
    (at len : ℕ) (cs : List Change) (c : Change) (ds : List Change)
    → AreSorted at (cs ++ c ∷ ds) len
    → AreSorted at (cs ++ c ∷ []) len
AreSorted-init at len [] c ds h = (h.0, h.1, at-le c.stop len ds h.2)
AreSorted-init at len (d ∷ cs) c ds h = (h.0, h.1, AreSorted-init d.stop len cs c ds h.2)

-- A later offset does not land earlier.
pub landed_mono :
    (at : ℕ) (cs : List Change) (len i j : ℕ) → i ≤ j → landed at cs len i ≤ landed at cs len j
unfolding landed
landed_mono at [] len i j h = omega arith
landed_mono at (c ∷ cs) len i j h = ground (arith, landed_mono c.stop cs len i j h)

-- All offsets up to where the changes start land at one place.
pub landed_before :
    (at : ℕ) (cs : List Change) (len i j : ℕ)
    → AreSorted at cs len
    → i ≤ at
    → j ≤ at
    → landed at cs len i ≡ landed at cs len j
unfolding landed
landed_before at [] len i j s h k = omega arith
landed_before at (c ∷ cs) len i j s h k =
    ground (arith, landed_before c.stop cs len i j s.2 (omega arith) (omega arith))

-- The end of the text lands at the end of the new one.
pub landed-length :
    (at len : ℕ) (cs : List Change) (t : List ℕ)
    → AreSorted at cs len
    → length t ≡ len - at
    → landed at cs len len ≡ length (changed at cs t)
unfolding landed changed
landed-length at len [] t s e = omega (arith, s, e)
landed-length at len (c ∷ cs) t s e =
    let le = at-le c.stop len cs s.2 in
    let rest = drop (c.stop - at) t in
    let left : length rest ≡ len - c.stop = omega (arith, length-drop {A = ℕ} (c.stop - at) t) in
    let first = length-take (c.start - at) t (omega (arith, s.0, s.1)) in
    let later = landed-length c.stop len cs rest s.2 left in
    let whole = length-append {A = ℕ} (take (c.start - at) t) (c.rope ++ changed c.stop cs rest) in
    let behind = length-append {A = ℕ} c.rope (changed c.stop cs rest) in
    let past : (ltb len c.start && ltb at c.start) ≡ false = ground (arith, s.0, s.1) in
    rw past (omega (arith, later, first, whole, behind))

-- The changes only insert.
abbrev pub AreInsertions : List Change → Type 0
AreInsertions [] = Unit
AreInsertions (c ∷ cs) = (c.stop ≡ c.start) × AreInsertions cs

-- Then offsets in the text that differ land apart.
pub landed_strict :
    (at : ℕ) (cs : List Change) (len i j : ℕ)
    → AreSorted at cs len
    → AreInsertions cs
    → at ≤ i
    → i < j
    → j ≤ len
    → landed at cs len i < landed at cs len j
unfolding landed
landed_strict at [] len i j s n a h k = omega arith
landed_strict at (c ∷ cs) len i j s n a h k = elim (Bool-cases (ltb i c.start)) [
  | inl t ↦ ground (arith, t, a, h)
  | inr f ↦
      let later = landed_strict c.stop cs len i j s.2 n.1 (ground (arith, f, n.0)) h k in
      ground (arith, f, h, later)
]
