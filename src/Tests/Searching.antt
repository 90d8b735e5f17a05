-- ===== src/Tests/Searching.antt =====
-- A search for bytes, and the theorem on matches with it.
use tofu_hex_editor.Prelude.{
  ℕ, zero, suc, ◌+◌, ◌≤◌, ◌≡◌, ◌≢◌, refl, sym, ap, ◌∙◌, Bool, true, false, ◌&&◌, Option, none, some,
  ◌>>=◌, List, [], ◌∷◌, length, take, drop, ◌==◌, ==_iff, if◌then◌else◌, arith, Bool-cases,
  Option-cases, inl, inr, >>=-eq-some, some_inj,
}
use tofu_hex_editor.Modes.Pattern.{Matching, matched_from}
use tofu_hex_editor.Modes.Pattern.Matches.{Finds, AreMatches, matched_from-AreMatches}

starts : List ℕ → List ℕ → Bool
starts [] bytes = true
starts (c ∷ cs) [] = false
starts (c ∷ cs) (x ∷ xs) = (c == x) && starts cs xs

search : List ℕ → List ℕ → Option ℕ
search slice [] = if starts slice [] then some 0 else none
search slice (x ∷ xs) =
    let rest = search slice xs in
    if starts slice (x ∷ xs) then some 0 else rest >>= λ i. some (suc i)

starts_sound :
    (slice bytes : List ℕ)
    → starts slice bytes ≡ true
    → (take (length slice) bytes ≡ slice) × (length slice ≤ length bytes)
unfolding starts
starts_sound [] bytes h = (refl, omega arith)
starts_sound (c ∷ cs) [] h = cc
starts_sound (c ∷ cs) (x ∷ xs) h = elim (Bool-cases (c == x)) [
  | inl e ↦
      let n : c ≡ x = (==_iff c x).0 e in
      let (t, l) = starts_sound cs xs (rw e at h) in
      (ap (x ∷◌) t ∙ ap (◌∷ cs) (sym n), omega (arith, l))
  | inr e ↦ let k : false ≡ true = rw e at h in cc
]

starts_complete :
    (slice bytes : List ℕ) → take (length slice) bytes ≡ slice → starts slice bytes ≡ true
unfolding starts
starts_complete [] bytes h = refl
starts_complete (c ∷ cs) [] h = cc
starts_complete (c ∷ cs) (x ∷ xs) h =
    let n : c ≡ x = cc in
    let t : take (length cs) xs ≡ cs = cc in rw ((==_iff c x).1 n) (starts_complete cs xs t)

search_sound :
    (slice bytes : List ℕ) (i : ℕ)
    → search slice bytes ≡ some i
    → (take (length slice) (drop i bytes) ≡ slice) × (i + length slice ≤ length bytes)
unfolding search
search_sound slice [] i h = elim (Bool-cases (starts slice [])) [
  | inl e ↦
      let (t, l) = starts_sound slice [] e in
      let k : some 0 ≡ some i = rw e at h in rw (sym (some_inj k)) (t, omega (arith, l))
  | inr e ↦ let k : none ≡ some i = rw e at h in cc
]
search_sound slice (x ∷ xs) i h = elim (Bool-cases (starts slice (x ∷ xs))) [
  | inl e ↦
      let (t, l) = starts_sound slice (x ∷ xs) e in
      let k : some 0 ≡ some i = rw e at h in rw (sym (some_inj k)) (t, omega (arith, l))
  | inr e ↦
      let (j, f, k) = >>=-eq-some (search slice xs) _ (rw e at h) in
      let (t, l) = search_sound slice xs j f in rw (sym (some_inj k)) (t, omega (arith, l))
]

drop-nil : (i : ℕ) → drop {A = ℕ} i [] ≡ []
drop-nil zero = refl
drop-nil (suc i) = refl

some_ne_none : (n : ℕ) → some n ≢ none
some_ne_none n e = cc

-- Where the slice starts, the search does not give up.
not_given_up :
    (slice bytes : List ℕ) → search slice bytes ≡ none → take (length slice) bytes ≢ slice
unfolding search
not_given_up slice [] h t = some_ne_none 0 (rw (starts_complete slice [] t) at h)
not_given_up slice (x ∷ xs) h t = some_ne_none 0 (rw (starts_complete slice (x ∷ xs) t) at h)

search_on : (slice xs : List ℕ) (x : ℕ) → search slice (x ∷ xs) ≡ none → search slice xs ≡ none
unfolding search
search_on slice xs x h = elim (Bool-cases (starts slice (x ∷ xs))) [
  | inl e ↦ absurd (some_ne_none 0 (rw e at h))
  | inr e ↦ elim (Option-cases (search slice xs)) [
    | inl f ↦ f
    | inr (j, f) ↦ absurd (some_ne_none (suc j) (rw (e, f) at h))
  ]
]

search_complete :
    (slice bytes : List ℕ) (i : ℕ)
    → search slice bytes ≡ none
    → take (length slice) (drop i bytes) ≢ slice
search_complete slice [] i h t =
    not_given_up slice [] h (ap (take (length slice)) (sym (drop-nil i)) ∙ t)
search_complete slice (x ∷ xs) zero h t = not_given_up slice (x ∷ xs) h t
search_complete slice (x ∷ xs) (suc i) h t = search_complete slice xs i (search_on slice xs x h) t

abbrev searching : Matching
searching = record { find = search; find_iter = λ e. none }

searching-Finds : Finds searching
searching-Finds = record { sound = search_sound; complete = search_complete }

abbrev banana : List ℕ
banana = b'b' ∷ b'a' ∷ b'n' ∷ b'a' ∷ b'n' ∷ b'a' ∷ []

matched_from-AreMatches_example :
    AreMatches
      (b'a' ∷ b'n' ∷ [])
      100
      banana
      (matched_from searching (b'a' ∷ b'n' ∷ []) 7 100 banana)
matched_from-AreMatches_example =
    matched_from-AreMatches searching (b'a' ∷ b'n' ∷ []) 7 100 banana searching-Finds (λ e. cc)
      (omega arith)
