-- ===== src/View/Current.antt =====
-- The bytes at the main caret, as src/hex_view/view.rs slices them.
use tofu_hex_editor.Prelude.{
  ℕ, ◌+◌, ◌-◌, ◌&&◌, ◌≤◌, ◌<◌, ◌≡◌, refl, sym, true, some, List, [], ◌∷◌, length, take, drop,
  le-length-take, some_inj, arith, inl, inr, Bool-cases, Option-cases, ltb, leb, if◌then◌else◌,
}
use tofu_hex_editor.Machine.{add_usize, sub_usize, half_word}
use tofu_hex_editor.Selection.Region.{SelRegion, min_of, max_of}
use tofu_hex_editor.Selection.Visible.{meeting}
use tofu_hex_editor.View.Rows.{find_main, bytes_from, current_bytes}

-- The caret of a main region is in a range or at its end.
abbrev pub MainWithin : ℕ → ℕ → List SelRegion → Type 0
MainWithin first end [] = Unit
MainWithin first end (r ∷ rs) =
    (r.main ≡ true → (first ≤ r.caret) × (r.caret ≤ end)) × MainWithin first end rs

pub MainWithin-meeting :
    (first end start stop : ℕ) (rs : List SelRegion)
    → MainWithin first end rs
    → MainWithin first end (meeting start stop rs)
MainWithin-meeting first end start stop [] m = tt
MainWithin-meeting first end start stop (r ∷ rs) m =
    elim (Bool-cases (leb start (max_of r) && leb (min_of r) stop)) [
      | inl t ↦ rw t (m.0, MainWithin-meeting first end start stop rs m.1)
      | inr f ↦ rw f (MainWithin-meeting first end start stop rs m.1)
    ]

bytes_from-length :
    (start : ℕ) (visible : List ℕ)
    → start ≤ length visible
    → length visible < half_word
    → (bytes : List ℕ) × (bytes_from start visible ≡ some bytes) × (length bytes ≤ 4)
bytes_from-length start visible h w =
    let stop : ℕ =
      if ltb (length visible) (add_usize start 4) then length visible else add_usize start 4 in
    let ahead : start ≤ stop = ground arith in
    let inside : stop ≤ length visible = ground arith in
    let few : stop - start ≤ 4 = ground arith in
    let in_range : (leb start stop && leb stop (length visible)) ≡ true = ground arith in
    (
      take (stop - start) (drop start visible),
      rw in_range refl,
      omega (arith, le-length-take {A = ℕ} (stop - start) (drop start visible), few),
    )

find_main_lem :
    (regions : List SelRegion) (r : SelRegion) (first end : ℕ)
    → MainWithin first end regions
    → find_main regions ≡ some r
    → (first ≤ r.caret) × (r.caret ≤ end)
find_main_lem [] r first end m e = absurd (cc)
find_main_lem (q ∷ regions) r first end m e = elim (Bool-cases q.main) [
  | inl t ↦ let same = some_inj (rw t at e) in rw (sym same) (m.0 t)
  | inr f ↦ find_main_lem regions r first end m.1 (rw f at e)
]

pub current_bytes-length :
    (regions : List SelRegion) (start : ℕ) (visible : List ℕ)
    → MainWithin start (start + length visible) regions
    → start + length visible < half_word
    → (bytes : List ℕ) × (current_bytes regions start visible ≡ some bytes) × (length bytes ≤ 4)
unfolding current_bytes
current_bytes-length regions start visible m w = elim (Option-cases (find_main regions)) [
  | inl e ↦ ([], rw (e, current_bytes) refl, omega arith)
  | inr (r, e) ↦
      let (from, to) = find_main_lem regions r start (start + length visible) m e in
      let (bytes, found, few) =
        bytes_from-length (r.caret - start) visible (omega (arith, to)) (omega arith) in
      let apart : sub_usize r.caret start ≡ r.caret - start = omega (arith, from, to) in
      (bytes, rw (e, current_bytes) (rw apart found), few)
]
