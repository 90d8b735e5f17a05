-- ===== src/Selection/Main.antt =====
-- What chooses, keeps and removes regions in src/selection.rs: `select_next`, `select_prev`,
-- `retain`, `remove` and `select_all`, on a valid selection.
use tofu_hex_editor.Prelude.{
  ℕ, zero, suc, ◌+◌, ◌-◌, ◌%◌, ◌<◌, ◌≡◌, refl, ◌⊎◌, inl, inr, true, false, some, ◌>>=◌, List, [],
  ◌∷◌, length, arith, ap, sym, ◌∙◌,
}
use native.Mathlib.Decide.{dec_lt}
use native.Mathlib.Nat.{add-mod-mod, mod-eq_of_lt, mod-eq-sub-mod, mod-lt, add-mod_right}
use tofu_hex_editor.Machine.{word, add_usize, sub_usize}
use tofu_hex_editor.Selection.Region.{SelRegion, max_of}
use tofu_hex_editor.Selection.Defs.{Selection, marked, set_main, select_next, select_prev}
use tofu_hex_editor.Selection.Order.{Above, IsOrdered}
use tofu_hex_editor.Selection.Marks.{Unmarked, MarkedAt, IsValid, lt-length_of_MarkedAt}

-- The regions with no mark.
abbrev pub clear_marks : List SelRegion → List SelRegion
clear_marks [] = []
clear_marks (r ∷ rs) = record r { main = false } ∷ clear_marks rs

-- The regions with one mark, at an index.
abbrev pub mark_only : ℕ → List SelRegion → List SelRegion
mark_only i [] = []
mark_only zero (r ∷ rs) = marked r ∷ clear_marks rs
mark_only (suc i) (r ∷ rs) = record r { main = false } ∷ mark_only i rs

clear_marks-Unmarked : (rs : List SelRegion) → Unmarked (clear_marks rs)
clear_marks-Unmarked [] = tt
clear_marks-Unmarked (r ∷ rs) = (refl, clear_marks-Unmarked rs)

pub clear_marks_of_Unmarked : (rs : List SelRegion) → Unmarked rs → clear_marks rs ≡ rs
clear_marks_of_Unmarked [] u = refl
clear_marks_of_Unmarked (r ∷ rs) u = ground (arith, clear_marks_of_Unmarked rs u.1)

pub mark_only-MarkedAt : (i : ℕ) (rs : List SelRegion) → i < length rs → MarkedAt i (mark_only i rs)
mark_only-MarkedAt i [] h = absurd (omega arith)
mark_only-MarkedAt zero (r ∷ rs) h = (refl, clear_marks-Unmarked rs)
mark_only-MarkedAt (suc i) (r ∷ rs) h = (refl, mark_only-MarkedAt i rs (omega arith))

pub mark_only_of_MarkedAt : (i : ℕ) (rs : List SelRegion) → MarkedAt i rs → mark_only i rs ≡ rs
mark_only_of_MarkedAt i [] m = absurd m
mark_only_of_MarkedAt zero (r ∷ rs) m = ground (arith, clear_marks_of_Unmarked rs m.1)
mark_only_of_MarkedAt (suc i) (r ∷ rs) m = ground (arith, mark_only_of_MarkedAt i rs m.1)

clear_marks-mark_only :
    (i : ℕ) (rs : List SelRegion) → clear_marks (mark_only i rs) ≡ clear_marks rs
clear_marks-mark_only i [] = refl
clear_marks-mark_only zero (r ∷ rs) =
    ground (arith, clear_marks_of_Unmarked (clear_marks rs) (clear_marks-Unmarked rs))
clear_marks-mark_only (suc i) (r ∷ rs) = ground (arith, clear_marks-mark_only i rs)

mark_only-clear_marks :
    (i : ℕ) (rs : List SelRegion) → mark_only i (clear_marks rs) ≡ mark_only i rs
mark_only-clear_marks i [] = refl
mark_only-clear_marks zero (r ∷ rs) =
    ground (arith, clear_marks_of_Unmarked (clear_marks rs) (clear_marks-Unmarked rs))
mark_only-clear_marks (suc i) (r ∷ rs) = ground (arith, mark_only-clear_marks i rs)

mark_only_idem : (i j : ℕ) (rs : List SelRegion) → mark_only i (mark_only j rs) ≡ mark_only i rs
mark_only_idem i j [] = refl
mark_only_idem zero zero (r ∷ rs) =
    ground (arith, clear_marks_of_Unmarked (clear_marks rs) (clear_marks-Unmarked rs))
mark_only_idem zero (suc j) (r ∷ rs) = ground (arith, clear_marks-mark_only j rs)
mark_only_idem (suc i) zero (r ∷ rs) = ground (arith, mark_only-clear_marks i rs)
mark_only_idem (suc i) (suc j) (r ∷ rs) = ground (arith, mark_only_idem i j rs)

set_main-clear :
    (i : ℕ) (rs : List SelRegion) → MarkedAt i rs → set_main rs i false ≡ some (clear_marks rs)
set_main-clear i [] m = absurd m
set_main-clear zero (r ∷ rs) m = ground (arith, clear_marks_of_Unmarked rs m.1)
set_main-clear (suc i) (r ∷ rs) m = rw (set_main-clear i rs m.1) (ground arith)

pub set_main-mark :
    (i : ℕ) (rs : List SelRegion)
    → i < length rs
    → set_main (clear_marks rs) i true ≡ some (mark_only i rs)
set_main-mark i [] h = absurd (omega arith)
set_main-mark zero (r ∷ rs) h = refl
set_main-mark (suc i) (r ∷ rs) h = rw (set_main-mark i rs (omega arith)) refl

pub length-mark_only : (i : ℕ) (rs : List SelRegion) → length (mark_only i rs) ≡ length rs
length-mark_only i [] = refl
length-mark_only zero (r ∷ rs) = ap suc (length-clear_marks rs)
  where
    length-clear_marks : (rs : List SelRegion) → length (clear_marks rs) ≡ length rs
    length-clear_marks [] = refl
    length-clear_marks (r ∷ rs) = ap suc (length-clear_marks rs)
length-mark_only (suc i) (r ∷ rs) = ap suc (length-mark_only i rs)

Above-clear_marks : (b : ℕ) (rs : List SelRegion) → Above b rs → Above b (clear_marks rs)
Above-clear_marks b [] h = tt
Above-clear_marks b (r ∷ rs) h = h

clear_marks-IsOrdered : (rs : List SelRegion) → IsOrdered rs → IsOrdered (clear_marks rs)
clear_marks-IsOrdered [] o = tt
clear_marks-IsOrdered (r ∷ rs) o =
    (Above-clear_marks (max_of r) rs o.0, clear_marks-IsOrdered rs o.1)

Above-mark_only : (b i : ℕ) (rs : List SelRegion) → Above b rs → Above b (mark_only i rs)
Above-mark_only b i [] h = tt
Above-mark_only b zero (r ∷ rs) h = h
Above-mark_only b (suc i) (r ∷ rs) h = h

pub mark_only-IsOrdered : (i : ℕ) (rs : List SelRegion) → IsOrdered rs → IsOrdered (mark_only i rs)
mark_only-IsOrdered i [] o = tt
mark_only-IsOrdered zero (r ∷ rs) o =
    (Above-clear_marks (max_of r) rs o.0, clear_marks-IsOrdered rs o.1)
mark_only-IsOrdered (suc i) (r ∷ rs) o =
    (Above-mark_only (max_of r) i rs o.0, mark_only-IsOrdered i rs o.1)

-- The selection with another main region.
abbrev pub with_main : Selection → ℕ → Selection
with_main s i = record { regions = mark_only i s.regions; main_selection = i }

with_main-IsValid :
    (s : Selection) (i : ℕ) → i < length s.regions → IsValid s → IsValid (with_main s i)
with_main-IsValid s i h v = record {
  ordered = mark_only-IsOrdered i s.regions v.ordered;
  one_main = mark_only-MarkedAt i s.regions h;
}

mod-lt_length : (a i : ℕ) (rs : List SelRegion) → MarkedAt i rs → a % length rs < length rs
mod-lt_length a i rs m = omega (arith, lt-length_of_MarkedAt i rs m)

-- On a valid selection `select_next` moves the mark on by `count`, round the regions, and the
-- selection stays valid.
pub select_next_lem :
    (s : Selection) (count : ℕ)
    → IsValid s
    → (select_next s count
        ≡ some (with_main s (add_usize s.main_selection count % length s.regions)))
      × IsValid (with_main s (add_usize s.main_selection count % length s.regions))
unfolding select_next
select_next_lem s count v =
    let h =
      mod-lt_length (add_usize s.main_selection count) s.main_selection s.regions v.one_main in
    (
      rw (set_main-clear s.main_selection s.regions v.one_main)
          (rw (set_main-mark _ s.regions h) refl),
      with_main-IsValid s _ h v,
    )

select_prev_lem :
    (s : Selection) (count : ℕ)
    → IsValid s
    → select_prev s count
      ≡ some (
          with_main s (
            sub_usize (add_usize s.main_selection (length s.regions)) (count % length s.regions)
            % length s.regions))
unfolding select_prev
select_prev_lem s count v =
    let h =
      mod-lt_length
        (sub_usize (add_usize s.main_selection (length s.regions)) (count % length s.regions))
        s.main_selection s.regions v.one_main in
    rw (set_main-clear s.main_selection s.regions v.one_main)
      (rw (set_main-mark _ s.regions h) refl)

add-mod_cases : (m n c : ℕ) → m < n → ((m + c) % n ≡ m + c % n) ⊎ ((m + c) % n + n ≡ m + c % n)
add-mod_cases m n c h = elim (dec_lt (m + c % n) n) [
  | yes lt ↦ inl (sym (add-mod-mod m c n) ∙ mod-eq_of_lt lt)
  | no ge ↦ inr (
      omega (
        arith,
        add-mod-mod m c n,
        mod-eq-sub-mod {n = m + c % n} {m = n} (omega arith),
        mod-eq_of_lt {n = m + c % n - n} {m = n} (omega (arith, mod-lt c {m = n} (omega arith))),
      ))
]

wind_back :
    (x y m n : ℕ)
    → y < n
    → m < n
    → n + n < word
    → (x ≡ m + y) ⊎ (x + n ≡ m + y)
    → sub_usize (add_usize x n) y % n ≡ m
wind_back x y m n hy hm w (inl e) =
    let e' : sub_usize (add_usize x n) y ≡ m + n = omega arith in
    rw (e', add-mod_right) (mod-eq_of_lt hm)
wind_back x y m n hy hm w (inr e) =
    let e' : sub_usize (add_usize x n) y ≡ m = omega arith in rw e' (mod-eq_of_lt hm)

round_trip :
    (m n c : ℕ)
    → m < n
    → n + n < word
    → m + c < word
    → sub_usize (add_usize (add_usize m c % n) n) (c % n) % n ≡ m
round_trip m n c h w w' =
    let e : add_usize m c ≡ m + c = omega arith in
    rw e (
      wind_back ((m + c) % n) (c % n) m n (mod-lt c {m = n} (omega arith)) h w
        (add-mod_cases m n c h))

-- On a valid selection `select_prev` undoes `select_next` by the same count: the same regions and
-- the same main region, as long as the numbers fit in a word.
pub select_prev-select_next :
    (s : Selection) (count : ℕ)
    → IsValid s
    → length s.regions + length s.regions < word
    → s.main_selection + count < word
    → (select_next s count >>= λ t. select_prev t count) ≡ some s
select_prev-select_next s count v w w' =
    let m = add_usize s.main_selection count % length s.regions in
    let (e, v') = select_next_lem s count v in
    rw e (
      rw (select_prev_lem (with_main s m) count v') (
        rw (length-mark_only m s.regions) (
          rw
            (round_trip s.main_selection (length s.regions) count
              (lt-length_of_MarkedAt s.main_selection s.regions v.one_main) w w')
            (rw (mark_only_idem s.main_selection m s.regions)
              (rw (mark_only_of_MarkedAt s.main_selection s.regions v.one_main) refl)))))
