-- ===== src/Selection/Visible.antt =====
-- `regions_in_range` of src/selection.rs, by which src/hex_view/view.rs finds what it draws.
use tofu_hex_editor.Prelude.{
  ℕ, suc, ◌-◌, ◌≤◌, ◌<◌, ◌≡◌, ◌≢◌, refl, true, ◌&&◌, Option, none, some, List, [], ◌∷◌, length,
  get_elem?, take, drop, arith, ap, some_inj, lt→ltb, le→leb, ltb, leb, Bool-cases, inl, inr,
  if◌then◌else◌,
}
use native.Mathlib.Nat.{suc-sub-suc, sub-zero}
use tofu_hex_editor.Selection.Region.{SelRegion, max_of, min_of}
use tofu_hex_editor.Selection.Defs.{
  Selection, last_max, partition_point, search_from, step_last, regions_in_range,
}
use tofu_hex_editor.Selection.Order.{Above, IsOrdered}

-- The regions that meet the range from `start` to `end`, both included.
abbrev pub meeting : ℕ → ℕ → List SelRegion → List SelRegion
meeting start end [] = []
meeting start end (r ∷ rs) =
    if leb start (max_of r) && leb (min_of r) end
    then r ∷ meeting start end rs
    else meeting start end rs

max_of-le-last_max :
    (m : ℕ) (r : SelRegion) (rs : List SelRegion)
    → IsOrdered (r ∷ rs)
    → last_max (r ∷ rs) ≡ some m
    → max_of r ≤ m
unfolding last_max
max_of-le-last_max m r [] o e = omega (arith, some_inj e)
max_of-le-last_max m r (q ∷ rs) o e = omega (arith, max_of-le-last_max m q rs o.1 e)

-- The shortcut of `search`: past the last region the search would find the end too.
partition_point-length :
    (offset m : ℕ) (rs : List SelRegion)
    → IsOrdered rs
    → last_max rs ≡ some m
    → m < offset
    → partition_point offset rs ≡ length rs
unfolding last_max partition_point
partition_point-length offset m [] o e h = refl
partition_point-length offset m (r ∷ []) o e h =
    rw (lt→ltb (max_of r) offset (omega (arith, some_inj e))) refl
partition_point-length offset m (r ∷ q ∷ rs) o e h =
    rw (lt→ltb (max_of r) offset (omega (arith, max_of-le-last_max m r (q ∷ rs) o e)))
      (ap suc (partition_point-length offset m (q ∷ rs) o.1 e h))

last_max-cons : (r : SelRegion) (rs : List SelRegion) → (m : ℕ) × (last_max (r ∷ rs) ≡ some m)
unfolding last_max
last_max-cons r [] = (max_of r, refl)
last_max-cons r (q ∷ rs) = last_max-cons q rs

search_from-cons :
    (offset : ℕ) (r : SelRegion) (rs : List SelRegion)
    → IsOrdered (r ∷ rs)
    → search_from (r ∷ rs) offset ≡ some (partition_point offset (r ∷ rs))
unfolding search_from
search_from-cons offset r rs o =
    let (m, e) = last_max-cons r rs in
    rw e (elim (Bool-cases (ltb m offset)) [
      | inl t ↦ rw (t, partition_point-length offset m (r ∷ rs) o e (ground arith)) refl
      | inr f ↦ rw f refl
    ])

meeting_past :
    (start end b : ℕ) (rs : List SelRegion)
    → IsOrdered rs
    → Above b rs
    → end ≤ b
    → meeting start end rs ≡ []
meeting_past start end b [] o a h = refl
meeting_past start end b (r ∷ rs) o a h =
    ground (arith, meeting_past start end (max_of r) rs o.1 o.0 (omega arith))

abbrev end_index : ℕ → List SelRegion → ℕ
end_index end rs = step_last (get_elem? rs (partition_point end rs)) end (partition_point end rs)

step_last-suc :
    (o : Option SelRegion) (end n : ℕ) → step_last o end (suc n) ≡ suc (step_last o end n)
unfolding step_last
step_last-suc none end n = refl
step_last-suc (some r) end n = ground arith

-- The list begins with a region that reaches `start`.
abbrev Reaches : ℕ → List SelRegion → Type 0
Reaches start [] = Unit
Reaches start (r ∷ rs) = start ≤ max_of r

Reaches-next : (start b : ℕ) (rs : List SelRegion) → Above b rs → start ≤ b → Reaches start rs
Reaches-next start b [] a h = tt
Reaches-next start b (r ∷ rs) a h = omega arith

take-meeting :
    (start end : ℕ) (rs : List SelRegion)
    → IsOrdered rs
    → Reaches start rs
    → take (end_index end rs) rs ≡ meeting start end rs
unfolding partition_point
take-meeting start end [] o h = unfold step_last in refl
take-meeting start end (r ∷ rs) o h = elim (Bool-cases (ltb (max_of r) end)) [
  | inl t ↦
      rw (t, step_last-suc)
        (rw (take-meeting start end rs o.1 (Reaches-next start (max_of r) rs o.0 h)) (ground arith))
  | inr f ↦ rw f (
      rw (meeting_past start end (max_of r) rs o.1 o.0 (ground arith))
        (unfold step_last in ground arith))
]

-- The slice of `regions_in_range`: its bounds, and what it holds.
slice_meeting :
    (start end : ℕ) (rs : List SelRegion)
    → IsOrdered rs
    → start ≤ end
    → (partition_point start rs ≤ end_index end rs)
      × (take (end_index end rs - partition_point start rs) (drop (partition_point start rs) rs)
          ≡ meeting start end rs)
unfolding partition_point
slice_meeting start end [] o h = unfold step_last in (omega arith, refl)
slice_meeting start end (r ∷ rs) o h = elim (Bool-cases (ltb (max_of r) start)) [
  | inl t ↦
      let t' : ltb (max_of r) end ≡ true = ground arith in
      let (le, e) = slice_meeting start end rs o.1 h in
      (
        rw (t, t', step_last-suc) (omega (arith, le)),
        rw (t, t', step_last-suc) (rw suc-sub-suc (rw e (ground arith))),
      )
  | inr f ↦ rw f (omega arith, rw sub-zero (take-meeting start end (r ∷ rs) o (ground arith)))
]

-- On regions that are sorted and apart, at least one of them, `regions_in_range` does not panic and
-- gives exactly the regions that meet the range, in order, for a start not behind the end.
pub regions_in_range-meeting :
    (s : Selection) (start end : ℕ)
    → IsOrdered s.regions
    → s.regions ≢ []
    → start ≤ end
    → regions_in_range s start end ≡ some (meeting start end s.regions)
unfolding regions_in_range
regions_in_range-meeting s start end o ne h = on_list s.regions o ne
  where
    on_list :
        (rs : List SelRegion)
        → IsOrdered rs
        → rs ≢ []
        → regions_in_range (record s { regions = rs }) start end ≡ some (meeting start end rs)
    on_list [] o ne = absurd (ne refl)
    on_list (r ∷ rs) o ne =
        let (le, e) = slice_meeting start end (r ∷ rs) o h in
        rw (search_from-cons start r rs o, search_from-cons end r rs o)
          (rw (le→leb _ _ le) (rw e refl))
