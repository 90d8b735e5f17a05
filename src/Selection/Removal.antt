-- ===== src/Selection/Removal.antt =====
-- `remove` and `retain` of src/selection.rs on a valid selection, and the case in which `remove`
-- leaves two regions marked.
use tofu_hex_editor.Prelude.{
  ℕ, zero, suc, ◌-◌, ◌≤◌, ◌<◌, min, ◌≡◌, ◌≢◌, refl, ◌⊎◌, true, some, List, [], ◌∷◌, length,
  erase_idx, arith, ap,
}
use native.Mathlib.Decide.{dec_lt}
use tofu_hex_editor.Selection.Region.{SelRegion, max_of}
use tofu_hex_editor.Selection.Defs.{Selection, set_main, remove, marked}
use tofu_hex_editor.Selection.Order.{Above, IsOrdered}
use tofu_hex_editor.Selection.Marks.{Unmarked, MarkedAt, IsValid}
use tofu_hex_editor.Selection.Main.{
  mark_only, clear_marks_of_Unmarked, mark_only-MarkedAt, set_main-mark, mark_only-IsOrdered,
}

length-erase_idx :
    (rs : List SelRegion) (i : ℕ) → i < length rs → suc (length (erase_idx rs i)) ≡ length rs
length-erase_idx [] i h = absurd (omega arith)
length-erase_idx (r ∷ rs) zero h = refl
length-erase_idx (r ∷ rs) (suc i) h = ap suc (length-erase_idx rs i (omega arith))

Above-trans : (b c : ℕ) (rs : List SelRegion) → b ≤ c → Above c rs → Above b rs
Above-trans b c [] h a = tt
Above-trans b c (r ∷ rs) h a = omega arith

Above-erase_idx :
    (b i : ℕ) (rs : List SelRegion) → Above b rs → IsOrdered rs → Above b (erase_idx rs i)
Above-erase_idx b i [] a o = tt
Above-erase_idx b zero (r ∷ rs) a o = Above-trans b (max_of r) rs (omega arith) o.0
Above-erase_idx b (suc i) (r ∷ rs) a o = a

erase_idx-IsOrdered : (i : ℕ) (rs : List SelRegion) → IsOrdered rs → IsOrdered (erase_idx rs i)
erase_idx-IsOrdered i [] o = tt
erase_idx-IsOrdered zero (r ∷ rs) o = o.1
erase_idx-IsOrdered (suc i) (r ∷ rs) o =
    (Above-erase_idx (max_of r) i rs o.0 o.1, erase_idx-IsOrdered i rs o.1)

erase_idx-Unmarked : (i : ℕ) (rs : List SelRegion) → Unmarked rs → Unmarked (erase_idx rs i)
erase_idx-Unmarked i [] u = tt
erase_idx-Unmarked zero (r ∷ rs) u = u.1
erase_idx-Unmarked (suc i) (r ∷ rs) u = (u.0, erase_idx-Unmarked i rs u.1)

erase_idx_main : (i : ℕ) (rs : List SelRegion) → MarkedAt i rs → Unmarked (erase_idx rs i)
erase_idx_main i [] m = absurd m
erase_idx_main zero (r ∷ rs) m = m.1
erase_idx_main (suc i) (r ∷ rs) m = (m.0, erase_idx_main i rs m.1)

erase_idx_after :
    (m i : ℕ) (rs : List SelRegion) → m < i → MarkedAt m rs → MarkedAt m (erase_idx rs i)
erase_idx_after m i [] h k = absurd k
erase_idx_after m zero (r ∷ rs) h k = absurd (omega arith)
erase_idx_after zero (suc i) (r ∷ rs) h k = (k.0, erase_idx-Unmarked i rs k.1)
erase_idx_after (suc m) (suc i) (r ∷ rs) h k = (k.0, erase_idx_after m i rs (omega arith) k.1)

erase_idx_before :
    (m i : ℕ) (rs : List SelRegion) → i ≤ m → MarkedAt (suc m) rs → MarkedAt m (erase_idx rs i)
erase_idx_before m i [] h k = absurd k
erase_idx_before m zero (r ∷ rs) h k = k.1
erase_idx_before zero (suc i) (r ∷ rs) h k = absurd (omega arith)
erase_idx_before (suc m) (suc i) (r ∷ rs) h k = (k.0, erase_idx_before m i rs (omega arith) k.1)

set_main_of_Unmarked :
    (i : ℕ) (rs : List SelRegion)
    → i < length rs
    → Unmarked rs
    → set_main rs i true ≡ some (mark_only i rs)
set_main_of_Unmarked i rs h u = rw (clear_marks_of_Unmarked rs u) at (set_main-mark i rs h)

set_main_of_MarkedAt :
    (i : ℕ) (rs : List SelRegion) → MarkedAt i rs → set_main rs i true ≡ some (mark_only i rs)
set_main_of_MarkedAt i [] m = absurd m
set_main_of_MarkedAt zero (r ∷ rs) m = ground (arith, clear_marks_of_Unmarked rs m.1)
set_main_of_MarkedAt (suc i) (r ∷ rs) m = rw (set_main_of_MarkedAt i rs m.1) (ground arith)

-- What is left after `remove`, and the index of its main region.
abbrev pub rest_main : Selection → ℕ → ℕ
rest_main s index = min (length (erase_idx s.regions index) - 1) s.main_selection

rest_index :
    (m n i : ℕ) (rest : List SelRegion)
    → min (n - 1) m ≡ i
    → set_main rest i true ≡ some (mark_only i rest)
    → set_main rest (min (n - 1) m) true ≡ some (mark_only (min (n - 1) m) rest)
rest_index m n i rest e h = rw e h

set_main-rest :
    (m : ℕ) (rs : List SelRegion) (i : ℕ)
    → MarkedAt m rs
    → i < length rs
    → length rs ≢ 1
    → (m ≤ i) ⊎ (suc m ≡ length rs)
    → set_main (erase_idx rs i) (min (length (erase_idx rs i) - 1) m) true
      ≡ some (mark_only (min (length (erase_idx rs i) - 1) m) (erase_idx rs i))
set_main-rest m rs i k h ne c = elim (dec_lt m i) [
  | yes lt ↦
      rest_index m (length rest) m rest (omega (arith, len))
        (set_main_of_MarkedAt m rest (erase_idx_after m i rs lt k))
  | no ge ↦ elim (dec_lt i m) [
    | yes gt ↦ rest_index m (length rest) (m - 1) rest (omega (arith, len)) (
        set_main_of_MarkedAt (m - 1) rest (
          erase_idx_before (m - 1) i rs (omega arith)
            (let e : m ≡ suc (m - 1) = omega arith in rw e at k)))
    | no le ↦
        let e : m ≡ i = omega arith in
        set_main_of_Unmarked _ rest (omega (arith, len)) (erase_idx_main i rs (rw e at k))
  ]
]
  where
    rest : List SelRegion
    rest = erase_idx rs i

    len : suc (length (erase_idx rs i)) ≡ length rs
    len = length-erase_idx rs i h

-- Two marks side by side.
set_main_twice :
    (k : ℕ) (rs : List SelRegion)
    → suc k < length rs
    → MarkedAt k rs
    → (rs' : List SelRegion) × (set_main rs (suc k) true ≡ some rs') × (¬ MarkedAt (suc k) rs')
set_main_twice k [] h m = absurd m
set_main_twice zero (r ∷ []) h m = absurd (omega arith)
set_main_twice zero (r ∷ q ∷ rs) h m = (r ∷ marked q ∷ rs, ground arith, λ n. cc (m.0, n.0))
set_main_twice (suc k) (r ∷ rs) h m =
    let (rs', e, n) = set_main_twice k rs (omega arith) m.1 in
    (r ∷ rs', rw e (ground arith), λ p. n p.1)

abbrev pub remaining : Selection → ℕ → Selection
remaining s index = record {
  regions = mark_only (rest_main s index) (erase_idx s.regions index);
  main_selection = rest_main s index;
}

-- One of several regions of a valid selection removed at or behind the main one, or while the main
-- one is last: the selection without it, again valid.
pub remove-IsValid :
    (s : Selection) (index : ℕ)
    → IsValid s
    → index < length s.regions
    → length s.regions ≢ 1
    → (s.main_selection ≤ index) ⊎ (suc s.main_selection ≡ length s.regions)
    → (remove s index ≡ some (remaining s index)) × IsValid (remaining s index)
unfolding remove
remove-IsValid s index v h ne c =
    let len = length-erase_idx s.regions index h in
    (
      ground (arith, set_main-rest s.main_selection s.regions index v.one_main h ne c),
      record {
        ordered = mark_only-IsOrdered _ _ (erase_idx-IsOrdered index s.regions v.ordered);
        one_main =
            mark_only-MarkedAt (rest_main s index) (erase_idx s.regions index) (omega (arith, len));
      },
    )

-- A region of a valid selection removed before the main one, which is not last: nothing panics, and
-- the result is not a valid selection.
pub remove_marks_two :
    (s : Selection) (index : ℕ)
    → IsValid s
    → index < s.main_selection
    → suc s.main_selection < length s.regions
    → (s' : Selection) × (remove s index ≡ some s') × (¬ IsValid s')
unfolding remove
remove_marks_two s index v lt room =
    let main = s.main_selection in
    let rest = erase_idx s.regions index in
    let len = length-erase_idx s.regions index (omega arith) in
    let e : main ≡ suc (main - 1) = omega arith in
    let k = erase_idx_before (main - 1) index s.regions (omega arith) (rw e at v.one_main) in
    let (rs', p, n) = set_main_twice (main - 1) rest (omega arith) k in
    let i : min (length rest - 1) main ≡ suc (main - 1) = omega arith in
    (
      record { regions = rs'; main_selection = suc (main - 1) },
      rw i (ground (arith, p)),
      λ w. n w.one_main,
    )
