-- ===== src/Selection/Defs.antt =====
-- src/selection.rs: `Selection`, the regions of a buffer with the main one. A panic is `none`. The
-- vector that `map_selections` builds is a stack, the last region first, until it is done.
use tofu_hex_editor.Prelude.{
  ℕ, zero, suc, ◌+◌, ◌-◌, ◌%◌, min, Bool, true, false, not, Option, none, some, ◌>>=◌, List, [],
  ◌∷◌, length, get_elem?, take, drop, rev_onto, erase_idx, ltb, leb, ◌==◌, if◌then◌else◌,
}
use tofu_hex_editor.Machine.{add_usize, sub_usize}
use tofu_hex_editor.Selection.Region.{SelRegion, new, max_of, min_of, len_of, overlaps, merge}

pub record Selection : Type 0 where
  pub regions : List SelRegion
  pub main_selection : ℕ

abbrev pub marked : SelRegion → SelRegion
marked r = record r { main = true }

-- `Selection::default`, `new` and `clear` all give this.
abbrev pub default : Selection
default = record { regions = marked (new 0 0) ∷ []; main_selection = 0 }

sum_len : List SelRegion → ℕ
sum_len [] = 0
sum_len (r ∷ rs) = add_usize (len_of r) (sum_len rs)

unfoldable pub len_bytes : Selection → ℕ
unfolding sum_len
len_bytes s = sum_len s.regions

unfoldable pub retain : Selection → ℕ → Option Selection
retain s index = do
  m ← get_elem? s.regions index
  some (record { regions = marked m ∷ []; main_selection = 0 })

-- `regions[i].main = b`, which panics out of range.
abbrev pub set_main : List SelRegion → ℕ → Bool → Option (List SelRegion)
set_main [] i b = none
set_main (r ∷ rs) zero b = some (record r { main = b } ∷ rs)
set_main (r ∷ rs) (suc i) b = set_main rs i b >>= λ rs'. some (r ∷ rs')

unfoldable pub remove : Selection → ℕ → Option Selection
remove s index =
    let rest = erase_idx s.regions index in
    let m = min (length rest - 1) s.main_selection in
    if length s.regions == 1
    then some s
    else if leb (length s.regions) index
    then none
    else do rs ← set_main rest m true; some (record { regions = rs; main_selection = m })

unfoldable pub select_all : ℕ → Selection
select_all buf_size = if buf_size == 0 then default else record {
  regions = record { caret = sub_usize buf_size 1; tail = 0; main = true } ∷ [];
  main_selection = 0;
}

unfoldable pub main_of : Selection → Option SelRegion
main_of s = get_elem? s.regions s.main_selection

unfoldable pub main_cursor_offset : Selection → Option ℕ
main_cursor_offset s = do m ← get_elem? s.regions s.main_selection; some m.caret

unfoldable pub last_max : List SelRegion → Option ℕ
last_max [] = none
last_max (r ∷ []) = some (max_of r)
last_max (r ∷ q ∷ rs) = last_max (q ∷ rs)

-- `binary_search_by` on regions in order finds how many of them end before `offset`.
unfoldable pub partition_point : ℕ → List SelRegion → ℕ
partition_point offset [] = 0
partition_point offset (r ∷ rs) =
    let n = partition_point offset rs in if ltb (max_of r) offset then suc n else 0

-- `search`, with its shortcut past the last region
unfoldable pub search_from : List SelRegion → ℕ → Option ℕ
unfolding last_max partition_point
search_from rs offset = do
  m ← last_max rs
  some (if ltb m offset then length rs else partition_point offset rs)

-- `last` of `regions_in_range`, one further if the region found starts by `end`
unfoldable pub step_last : Option SelRegion → ℕ → ℕ → ℕ
step_last none end n = n
step_last (some r) end n = if leb (min_of r) end then n + 1 else n

-- `&regions[first..last]`, which panics if `last` is less than `first`
unfoldable pub regions_in_range : Selection → ℕ → ℕ → Option (List SelRegion)
unfolding search_from step_last
regions_in_range s start end = do
  first ← search_from s.regions start
  found ← search_from s.regions end
  let last = step_last (get_elem? s.regions found) end found
  if leb first last then some (take (last - first) (drop first s.regions)) else none

-- One new region pushed, or merged into the last one if they overlap.
unfoldable pub push_region : SelRegion → List SelRegion → Option (List SelRegion)
push_region r [] = some (r ∷ [])
push_region r (last ∷ out) =
    if not (overlaps last r) then some (r ∷ last ∷ out) else do m ← merge last r; some (m ∷ out)

unfoldable pub push_all : List SelRegion → List SelRegion → Option (List SelRegion)
unfolding push_region
push_all [] out = some out
push_all (r ∷ rs) out = push_region r out >>= push_all rs

-- `new_main_sel = regions_out.len() - 1; regions_out.last_mut().unwrap().main = true`
unfoldable pub mark_last : Bool → List SelRegion → ℕ → Option (List SelRegion × ℕ)
mark_last false out new_main = some (out, new_main)
mark_last true [] new_main = none
mark_last true (last ∷ out) new_main = some (marked last ∷ out, length out)

-- A closure that may panic and carries a state of its own.
abbrev pub Mapper : Type 0 → Type 0
Mapper S = SelRegion → S → Option (List SelRegion × S)

-- The loop of `map_selections` from index `i` on.
unfoldable pub map_from :
    {S : Type 0}
    → Mapper S
    → ℕ
    → ℕ
    → List SelRegion
    → List SelRegion
    → ℕ
    → S
    → Option (Selection × S)
unfolding push_all mark_last
map_from f main i [] out new_main s =
    some (record { regions = rev_onto out []; main_selection = new_main }, s)
map_from f main i (r ∷ rs) out new_main s = f r s >>= λ (new_regions, s').
    push_all new_regions out >>= λ out'.
    mark_last (i == main) out' new_main >>= λ (out'', m). map_from f main (suc i) rs out'' m s'

unfoldable pub map_selections : {S : Type 0} → Mapper S → Selection → S → Option (Selection × S)
unfolding map_from
map_selections f sel s = map_from f sel.main_selection 0 sel.regions [] 0 s

-- A closure without state that gives one region for each.
abbrev pub each : (SelRegion → Option SelRegion) → Mapper (Unit {0})
each f r s = f r >>= λ r'. some (r' ∷ [], tt)

unfoldable pub map_each : (SelRegion → Option SelRegion) → Selection → Option Selection
unfolding map_selections
map_each f sel = map_selections (each f) sel tt >>= λ (sel', s). some sel'

unfoldable pub select_next : Selection → ℕ → Option Selection
select_next s count = do
  cleared ← set_main s.regions s.main_selection false
  let m = add_usize s.main_selection count % length s.regions
  rs ← set_main cleared m true
  some (record { regions = rs; main_selection = m })

unfoldable pub select_prev : Selection → ℕ → Option Selection
select_prev s count = do
  cleared ← set_main s.regions s.main_selection false
  let n = length s.regions
  let m = sub_usize (add_usize s.main_selection n) (count % n) % n
  rs ← set_main cleared m true
  some (record { regions = rs; main_selection = m })
