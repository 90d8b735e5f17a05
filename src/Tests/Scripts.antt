-- ===== src/Tests/Scripts.antt =====
-- Deltas as scripts over the old text, subsets as masks: what stands for xi-rope in the tests.
use tofu_hex_editor.Prelude.{
  ℕ, zero, suc, ◌+◌, ◌≡◌, refl, sym, ap, ◌∙◌, Bool, true, false, not, ◌||◌, List, [], ◌∷◌, ◌++◌,
  length, length-append, replicate, arith,
}
use mathlib.Core.List.{append_assoc, append-nil}
use tofu_hex_editor.Xi.{Rope}

-- For each old byte what is inserted before it and whether it is kept, and what is inserted last.
pub data Script : Type 0 where
  end : Rope → Script
  step : Rope → Bool → Script → Script

unfoldable pub run : Script → Rope → Rope
run (end r) b = r
run (step r k s) [] = r
run (step r true s) (x ∷ b) = r ++ x ∷ run s b
run (step r false s) (x ∷ b) = r ++ run s b

unfoldable pub script_len : Script → ℕ
script_len (end r) = 0
script_len (step r k s) = suc (script_len s)

unfoldable pub new_len : Script → ℕ
new_len (end r) = length r
new_len (step r true s) = length r + suc (new_len s)
new_len (step r false s) = length r + new_len s

abbrev pub Mask : Type 0
Mask = List Bool

unfoldable pub strike : Mask → Rope → Rope
strike [] u = u
strike (m ∷ ms) [] = []
strike (true ∷ ms) (x ∷ u) = strike ms u
strike (false ∷ ms) (x ∷ u) = x ∷ strike ms u

unfoldable pub inserts : Script → Script
inserts (end r) = end r
inserts (step r k s) = step r true (inserts s)

unfoldable pub dropped : Script → Mask
dropped (end r) = []
dropped (step r k s) = not k ∷ dropped s

unfoldable pub marks : ℕ → Mask → Mask
marks zero m = m
marks (suc n) m = true ∷ marks n m

unfoldable pub inserted : Script → Mask
unfolding marks
inserted (end r) = marks (length r) []
inserted (step r k s) = marks (length r) (false ∷ inserted s)

unfoldable pub flip : Mask → Mask
flip [] = []
flip (b ∷ m) = not b ∷ flip m

unfoldable pub expand : Mask → Mask → Mask
expand s [] = []
expand s (true ∷ o) = false ∷ expand s o
expand [] (false ∷ o) = false ∷ expand [] o
expand (b ∷ s) (false ∷ o) = b ∷ expand s o

unfoldable pub weave : Rope → Rope → Mask → Mask → Script
weave pending tombs [] new = end pending
weave pending tombs (b ∷ old) [] = end pending
weave pending [] (true ∷ old) (b ∷ new) = weave pending [] old new
weave pending (x ∷ tombs) (true ∷ old) (true ∷ new) = weave pending tombs old new
weave pending (x ∷ tombs) (true ∷ old) (false ∷ new) = weave (pending ++ x ∷ []) tombs old new
weave pending tombs (false ∷ old) (b ∷ new) = step pending (not b) (weave [] tombs old new)

strike-marks : (r u : Rope) (m : Mask) → strike (marks (length r) m) (r ++ u) ≡ strike m u
unfolding strike marks
strike-marks [] u m = refl
strike-marks (x ∷ r) u m = strike-marks r u m

length-marks : (n : ℕ) (m : Mask) → length (marks n m) ≡ n + length m
unfolding marks
length-marks zero m = omega arith
length-marks (suc n) m = omega (arith, length-marks n m)

expand-marks : (n : ℕ) (s m : Mask) → expand s (marks n m) ≡ replicate n false ++ expand s m
unfolding expand marks
expand-marks zero s m = refl
expand-marks (suc n) s m = ap (false ∷◌) (expand-marks n s m)

strike-replicate :
    (r u : Rope) (m : Mask) → strike (replicate (length r) false ++ m) (r ++ u) ≡ r ++ strike m u
unfolding strike
strike-replicate [] u m = refl
strike-replicate (x ∷ r) u m = ap (x ∷◌) (strike-replicate r u m)

strike-nil : (r : Rope) → strike (marks (length r) []) r ≡ []
unfolding strike marks
strike-nil [] = refl
strike-nil (x ∷ r) = strike-nil r

strike-none : (r : Rope) → strike (replicate (length r) false ++ []) r ≡ r
unfolding strike
strike-none [] = refl
strike-none (x ∷ r) = ap (x ∷◌) (strike-none r)

pub run-factor :
    (s : Script) (b : Rope)
    → script_len s ≡ length b
    → run s b ≡ strike (expand (dropped s) (inserted s)) (run (inserts s) b)
unfolding run script_len inserts dropped inserted strike expand
run-factor (end r) b h = rw (expand-marks (length r) [] []) (sym (unfold expand in strike-none r))
run-factor (step r k s) [] h = absurd (omega arith)
run-factor (step r true s) (x ∷ b) h =
    ap (λ t. r ++ x ∷ t) (run-factor s b (omega arith))
    ∙ sym (strike-replicate r _ (false ∷ expand (dropped s) (inserted s)))
    ∙ ap (λ m. strike m (r ++ x ∷ run (inserts s) b))
        (sym (expand-marks (length r) (false ∷ dropped s) (false ∷ inserted s)))
run-factor (step r false s) (x ∷ b) h =
    ap (r ++◌) (run-factor s b (omega arith))
    ∙ sym (strike-replicate r _ (true ∷ expand (dropped s) (inserted s)))
    ∙ ap (λ m. strike m (r ++ x ∷ run (inserts s) b))
        (sym (expand-marks (length r) (true ∷ dropped s) (false ∷ inserted s)))

pub strike-inserted :
    (s : Script) (b : Rope) → script_len s ≡ length b → strike (inserted s) (run (inserts s) b) ≡ b
unfolding run script_len inserts inserted strike
strike-inserted (end r) [] h = strike-nil r
strike-inserted (end r) (x ∷ b) h = absurd (omega arith)
strike-inserted (step r k s) [] h = absurd (omega arith)
strike-inserted (step r k s) (x ∷ b) h =
    strike-marks r (x ∷ run (inserts s) b) (false ∷ inserted s)
    ∙ ap (x ∷◌) (strike-inserted s b (omega arith))

pub length-inserted :
    (s : Script) (b : Rope)
    → script_len s ≡ length b
    → length (inserted s) ≡ length (run (inserts s) b)
unfolding run script_len inserts inserted
length-inserted (end r) b h = omega (arith, length-marks (length r) [])
length-inserted (step r k s) [] h = absurd (omega arith)
length-inserted (step r k s) (x ∷ b) h = omega (
  arith,
  length-marks (length r) (false ∷ inserted s),
  length-append {0} r (x ∷ run (inserts s) b),
  length-inserted s b (omega arith),
)

pub length-dropped : (s : Script) → length (dropped s) ≡ script_len s
unfolding dropped script_len
length-dropped (end r) = refl
length-dropped (step r k s) = ap suc (length-dropped s)

pub length-expand : (s o : Mask) → length (expand s o) ≡ length o
unfolding expand
length-expand s [] = refl
length-expand s (true ∷ o) = ap suc (length-expand s o)
length-expand [] (false ∷ o) = ap suc (length-expand [] o)
length-expand (b ∷ s) (false ∷ o) = ap suc (length-expand s o)

pub strike-expand :
    (s o : Mask) (u : Rope)
    → length o ≡ length u
    → length s ≡ length (strike o u)
    → strike (flip (expand s o)) u ≡ strike (flip s) (strike o u)
unfolding strike flip expand
strike-expand [] [] [] h k = refl
strike-expand (b ∷ s) [] [] h k = absurd (omega arith)
strike-expand s [] (x ∷ u) h k = absurd (omega arith)
strike-expand s (b ∷ o) [] h k = absurd (omega arith)
strike-expand s (true ∷ o) (x ∷ u) h k = strike-expand s o u (omega arith) k
strike-expand [] (false ∷ o) (x ∷ u) h k = absurd (omega arith)
strike-expand (true ∷ s) (false ∷ o) (x ∷ u) h k =
    ap (x ∷◌) (strike-expand s o u (omega arith) (omega arith))
strike-expand (false ∷ s) (false ∷ o) (x ∷ u) h k = strike-expand s o u (omega arith) (omega arith)

pub run-weave :
    (pending : Rope) (old new : Mask) (u : Rope)
    → length old ≡ length u
    → length new ≡ length u
    → (script_len (weave pending (strike (flip old) u) old new) ≡ length (strike old u))
      × (run (weave pending (strike (flip old) u) old new) (strike old u) ≡ pending ++ strike new u)
unfolding strike flip weave run script_len
run-weave pending [] [] [] h k = (refl, sym (append-nil pending))
run-weave pending [] new (x ∷ u) h k = absurd (omega arith)
run-weave pending [] (c ∷ new) [] h k = absurd (omega arith)
run-weave pending (b ∷ old) new [] h k = absurd (omega arith)
run-weave pending (b ∷ old) [] (x ∷ u) h k = absurd (omega arith)
run-weave pending (true ∷ old) (true ∷ new) (x ∷ u) h k =
    run-weave pending old new u (omega arith) (omega arith)
run-weave pending (true ∷ old) (false ∷ new) (x ∷ u) h k =
    let (l, e) = run-weave (pending ++ x ∷ []) old new u (omega arith) (omega arith) in
    (l, e ∙ append_assoc pending (x ∷ []) (strike new u))
run-weave pending (false ∷ old) (true ∷ new) (x ∷ u) h k =
    let (l, e) = run-weave [] old new u (omega arith) (omega arith) in
    (ap suc l, ap (pending ++◌) e)
run-weave pending (false ∷ old) (false ∷ new) (x ∷ u) h k =
    let (l, e) = run-weave [] old new u (omega arith) (omega arith) in
    (ap suc l, ap (λ t. pending ++ x ∷ t) e)

-- Where an offset of the old text goes: to the next byte kept from there on, behind what is inserted.
unfoldable pub moved : Script → ℕ → ℕ
moved (end r) i = length r
moved (step r true s) zero = length r
moved (step r false s) zero = length r + moved s zero
moved (step r true s) (suc i) = length r + suc (moved s i)
moved (step r false s) (suc i) = length r + moved s i

unfoldable pub keeps : ℕ → Script → Script
keeps zero s = s
keeps (suc n) s = step [] true (keeps n s)

unfoldable pub drops : ℕ → Script → Script
drops zero s = s
drops (suc n) s = step [] false (drops n s)

unfoldable pub insert_first : Rope → Script → Script
insert_first r (end q) = end (r ++ q)
insert_first r (step q k s) = step (r ++ q) k s

unfoldable pub any_true : Mask → Bool
any_true [] = false
any_true (b ∷ m) = b || any_true m

unfoldable pub either : Mask → Mask → Mask
either [] n = n
either (b ∷ m) [] = b ∷ m
either (b ∷ m) (c ∷ n) = (b || c) ∷ either m n

-- The mask seen from the text without what `o` strikes.
unfoldable pub shrink : Mask → Mask → Mask
shrink [] o = []
shrink (b ∷ s) [] = b ∷ s
shrink (b ∷ s) (true ∷ o) = shrink s o
shrink (b ∷ s) (false ∷ o) = b ∷ shrink s o

-- Insertions moved to the text in which `o` is still there.
unfoldable pub expand_inserts : Script → Mask → Script
expand_inserts (end r) [] = end r
expand_inserts (end r) (b ∷ o) = step [] true (expand_inserts (end r) o)
expand_inserts (step r k s) [] = step r k s
expand_inserts (step r k s) (true ∷ o) = step [] true (expand_inserts (step r k s) o)
expand_inserts (step r k s) (false ∷ o) = step r k (expand_inserts s o)
