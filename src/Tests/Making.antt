-- ===== src/Tests/Making.antt =====
-- A builder of scripts, and the laws of `DeltaBuilder` for it.
use tofu_hex_editor.Prelude.{
  ℕ, zero, suc, ◌+◌, ◌-◌, ◌≤◌, ◌≡◌, refl, ap, ◌∙◌, true, false, ◌&&◌, Option, none, some, List, [],
  ◌∷◌, ◌++◌, length, length-append, take, drop, length-drop, drop-drop, take_all, ltb, leb, arith,
  if◌then◌else◌,
}
use mathlib.Core.List.{append_assoc, append-nil}
use tofu_hex_editor.Xi.{Rope}
use tofu_hex_editor.Xi.Changes.{Change, AreSorted, changed, landed, at-le}
use tofu_hex_editor.Tests.Scripts.{
  Script, end, step, run, script_len, new_len, moved, keeps, drops, insert_first,
}

pub record Making : Type 0 where
  pub total : ℕ
  pub changes : List Change

-- Where the last change ends.
abbrev pub reached : ℕ → List Change → ℕ
reached at [] = at
reached at (c ∷ cs) = reached c.stop cs

unfoldable pub replace : Making → ℕ → ℕ → Rope → Option Making
replace m start stop r =
    if leb (reached 0 m.changes) start && leb start stop
    then some
        (record m { changes = m.changes ++ record { start = start; stop = stop; rope = r } ∷ [] })
    else none

unfoldable pub made : ℕ → List Change → ℕ → Script
made at [] total = keeps (total - at) (end [])
made at (c ∷ cs) total =
    keeps (c.start - at) (insert_first c.rope (drops (c.stop - c.start) (made c.stop cs total)))

reached-last :
    (at len : ℕ) (cs : List Change) (c : Change)
    → AreSorted at (cs ++ c ∷ []) len
    → (reached at cs ≤ c.start) × (c.start ≤ c.stop)
reached-last at len [] c h = (h.0, h.1)
reached-last at len (d ∷ cs) c h = reached-last d.stop len cs c h.2

pub replace-changes :
    (m : Making) (c : Change)
    → AreSorted 0 (m.changes ++ c ∷ []) m.total
    → (m' : Making) × (replace m c.start c.stop c.rope ≡ some m')
      × (m'.changes ≡ m.changes ++ c ∷ [])
      × (m'.total ≡ m.total)
unfolding replace
replace-changes m c h =
    let (a, b) = reached-last 0 m.total m.changes c h in
    (record m { changes = m.changes ++ c ∷ [] }, ground arith, refl, refl)

-- Scripts of many steps.
run-keeps :
    (n : ℕ) (s : Script) (t : Rope)
    → n ≤ length t
    → run (keeps n s) t ≡ take n t ++ run s (drop n t)
unfolding run keeps
run-keeps zero s t h = refl
run-keeps (suc n) s [] h = absurd (omega arith)
run-keeps (suc n) s (x ∷ t) h = ap (x ∷◌) (run-keeps n s t (omega arith))

run-drops : (n : ℕ) (s : Script) (t : Rope) → n ≤ length t → run (drops n s) t ≡ run s (drop n t)
unfolding run drops
run-drops zero s t h = refl
run-drops (suc n) s [] h = absurd (omega arith)
run-drops (suc n) s (x ∷ t) h = run-drops n s t (omega arith)

run-insert_first :
    (r : Rope) (s : Script) (t : Rope)
    → script_len s ≡ length t
    → run (insert_first r s) t ≡ r ++ run s t
unfolding run insert_first script_len
run-insert_first r (end q) t h = refl
run-insert_first r (step q k s) [] h = absurd (omega arith)
run-insert_first r (step q true s) (x ∷ t) h = append_assoc r q (x ∷ run s t)
run-insert_first r (step q false s) (x ∷ t) h = append_assoc r q (run s t)

script_len-keeps : (n : ℕ) (s : Script) → script_len (keeps n s) ≡ n + script_len s
unfolding keeps script_len
script_len-keeps zero s = omega arith
script_len-keeps (suc n) s = omega (arith, script_len-keeps n s)

script_len-drops : (n : ℕ) (s : Script) → script_len (drops n s) ≡ n + script_len s
unfolding drops script_len
script_len-drops zero s = omega arith
script_len-drops (suc n) s = omega (arith, script_len-drops n s)

script_len-insert_first : (r : Rope) (s : Script) → script_len (insert_first r s) ≡ script_len s
unfolding insert_first script_len
script_len-insert_first r (end q) = refl
script_len-insert_first r (step q k s) = refl

moved-keeps :
    (n : ℕ) (s : Script) (i : ℕ)
    → moved (keeps n s) i ≡ (if ltb i n then i else n + moved s (i - n))
unfolding keeps moved
moved-keeps zero s i = ground arith
moved-keeps (suc n) s zero = ground arith
moved-keeps (suc n) s (suc i) = ground (arith, moved-keeps n s i)

moved-drops : (n : ℕ) (s : Script) (i : ℕ) → moved (drops n s) i ≡ moved s (i - n)
unfolding drops moved
moved-drops zero s i = let e : i ≡ i - 0 = omega arith in ap (moved s) e
moved-drops (suc n) s zero =
    let e : zero - n ≡ zero - suc n = omega arith in
    omega (arith, moved-drops n s zero, ap (moved s) e)
moved-drops (suc n) s (suc i) =
    let e : i - n ≡ suc i - suc n = omega arith in omega (arith, moved-drops n s i, ap (moved s) e)

moved-insert_first :
    (r : Rope) (s : Script) (i : ℕ) → moved (insert_first r s) i ≡ length r + moved s i
unfolding insert_first moved
moved-insert_first r (end q) i = omega (arith, length-append {A = ℕ} r q)
moved-insert_first r (step q true s) zero = omega (arith, length-append {A = ℕ} r q)
moved-insert_first r (step q false s) zero = omega (arith, length-append {A = ℕ} r q)
moved-insert_first r (step q true s) (suc i) = omega (arith, length-append {A = ℕ} r q)
moved-insert_first r (step q false s) (suc i) = omega (arith, length-append {A = ℕ} r q)

pub script_len-made :
    (at len : ℕ) (cs : List Change) → AreSorted at cs len → script_len (made at cs len) ≡ len - at
unfolding made script_len
script_len-made at len [] h = omega (arith, script_len-keeps (len - at) (end []))
script_len-made at len (c ∷ cs) h =
    let rest = made c.stop cs len in
    omega (
      arith,
      script_len-keeps (c.start - at) (insert_first c.rope (drops (c.stop - c.start) rest)),
      script_len-insert_first c.rope (drops (c.stop - c.start) rest),
      script_len-drops (c.stop - c.start) rest,
      script_len-made c.stop len cs h.2,
      at-le c.stop len cs h.2,
    )

pub run-made :
    (at len : ℕ) (cs : List Change) (t : Rope)
    → AreSorted at cs len
    → length t ≡ len - at
    → run (made at cs len) t ≡ changed at cs t
unfolding made changed run
run-made at len [] t h e =
    run-keeps (len - at) (end []) t (omega arith)
    ∙ append-nil (take (len - at) t)
    ∙ take_all (len - at) t (omega arith)
run-made at len (c ∷ cs) t h e =
    let rest = made c.stop cs len in
    let le = at-le c.stop len cs h.2 in
    let n = c.start - at in
    let m = c.stop - c.start in
    let far : n + m ≡ c.stop - at = omega arith in
    let left : length (drop n t) ≡ len - c.start = omega (arith, length-drop {A = ℕ} n t) in
    let left' : length (drop m (drop n t)) ≡ len - c.stop =
      omega (arith, length-drop {A = ℕ} m (drop n t)) in
    run-keeps n (insert_first c.rope (drops m rest)) t (omega arith)
    ∙ ap (λ u. take n t ++ u)
        (run-insert_first c.rope (drops m rest) (drop n t)
            (omega (arith, script_len-drops m rest, script_len-made c.stop len cs h.2))
          ∙ ap (λ u. c.rope ++ u)
              (run-drops m rest (drop n t) (omega arith)
                ∙ run-made c.stop len cs (drop m (drop n t)) h.2 left'
                ∙ ap (changed c.stop cs) (drop-drop m n t ∙ ap (λ k. drop k t) far)))

pub moved-made :
    (at len : ℕ) (cs : List Change) (i : ℕ)
    → AreSorted at cs len
    → moved (made at cs len) (i - at) ≡ landed at cs len i
unfolding made landed
moved-made at len [] i h = unfold moved in ground (arith, moved-keeps (len - at) (end []) (i - at))
moved-made at len (c ∷ cs) i h =
    let rest = made c.stop cs len in
    let n = c.start - at in
    let m = c.stop - c.start in
    let later : i - at - n - m ≡ i - c.stop = omega arith in
    ground (
      arith,
      moved-keeps n (insert_first c.rope (drops m rest)) (i - at),
      moved-insert_first c.rope (drops m rest) (i - at - n),
      moved-drops m rest (i - at - n),
      ap (moved rest) later,
      moved-made c.stop len cs i h.2,
    )

pub new_len-run : (s : Script) (t : Rope) → script_len s ≡ length t → new_len s ≡ length (run s t)
unfolding new_len run script_len
new_len-run (end r) t h = refl
new_len-run (step r k s) [] h = absurd (omega arith)
new_len-run (step r true s) (x ∷ t) h =
    omega (arith, length-append {A = ℕ} r (x ∷ run s t), new_len-run s t (omega arith))
new_len-run (step r false s) (x ∷ t) h =
    omega (arith, length-append {A = ℕ} r (run s t), new_len-run s t (omega arith))
