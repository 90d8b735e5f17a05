-- ===== src/View/Marked.antt =====
-- Every visible byte gets its style: the stack of styles in `mark_commands` of src/hex_view/view.rs
-- is never too short.
use tofu_hex_editor.Prelude.{
  ℕ, zero, suc, ◌-◌, ◌%◌, ◌≤◌, ◌≡◌, ◌≢◌, ◌⊎◌, refl, ap, ◌∙◌, Bool, true, ◌&&◌, not, Option, some,
  ◌>>=◌, List, [], ◌∷◌, length, arith, inl, inr, Bool-cases, leb, ltb, ◌==◌, if◌then◌else◌,
}
use tofu_hex_editor.Machine.{add_usize}
use tofu_hex_editor.Xi.{Xi}
use tofu_hex_editor.Selection.Region.{SelRegion, max_of, min_of}
use tofu_hex_editor.Selection.Order.{Above, IsOrdered}
use tofu_hex_editor.Selection.Visible.{meeting, regions_in_range-meeting}
use tofu_hex_editor.Buffer.{CurrentBuffer}
use tofu_hex_editor.Modes.Dispatch.{has_half_cursor}
use tofu_hex_editor.Style.{StylingCommand, default, with_end_style, with_start_style}
use tofu_hex_editor.View.{HexView, default_style}
use tofu_hex_editor.View.Visible.{not_zero}
use tofu_hex_editor.View.Marks.{
  Styles, top, below_top, pop, push_start, mark_start, mark_caret, mark_carets, mark_end,
  mark_region, mark_line, leave, mark_from, mark_commands, first_styles, has_start,
}

-- A computation that does not panic.
abbrev pub Total : {A : Type 0} → Option A → Type 0
Total {A} o = (a : A) × (o ≡ some a)

top-Total : (stack : Styles) → 1 ≤ length stack → Total (top stack)
top-Total [] h = absurd (omega arith)
top-Total (s ∷ stack) h = (s, refl)

below_top-Total : (stack : Styles) → 2 ≤ length stack → Total (below_top stack)
below_top-Total [] h = absurd (omega arith)
below_top-Total (s ∷ []) h = absurd (omega arith)
below_top-Total (s ∷ t ∷ stack) h = (t, refl)

mark_carets-Total :
    (r : SelRegion) (i : ℕ) (half : Bool) (stack : Styles) (cmd : StylingCommand)
    → 1 ≤ length stack
    → Total (mark_carets r i half stack cmd)
mark_carets-Total r i half stack cmd h = elim (Bool-cases (r.caret == i)) [
  | inl t ↦ let (s, e) = top-Total stack h in (mark_caret r i half s cmd, rw t (rw e refl))
  | inr f ↦ (cmd, rw f refl)
]

mark_end-Total :
    (r : SelRegion) (i : ℕ) (stack : Styles) (cmd : StylingCommand)
    → ((max_of r == i) ≡ true → 2 ≤ length stack)
    → Total (mark_end r i stack cmd)
mark_end-Total r i stack cmd h = elim (Bool-cases (max_of r == i)) [
  | inl t ↦ let (s, e) = below_top-Total stack (h t) in (with_end_style cmd s, rw t (rw e refl))
  | inr f ↦ (cmd, rw f refl)
]

-- The stack at byte `i`: it has the style of the first region if that began before.
abbrev IsDeep : List SelRegion → ℕ → Styles → Type 0
IsDeep [] i stack = 1 ≤ length stack
IsDeep (r ∷ rs) i stack =
    IsOrdered (r ∷ rs) × (i ≤ max_of r) × (1 ≤ length stack) × ((i ≤ min_of r) ⊎ (2 ≤ length stack))

-- The stack behind the start of the first region.
abbrev entered : List SelRegion → ℕ → Styles → Styles
entered [] i stack = stack
entered (r ∷ rs) i stack = push_start r i stack

length-push_start :
    (r : SelRegion) (i : ℕ) (stack : Styles)
    → 1 ≤ length stack
    → (i ≤ min_of r) ⊎ (2 ≤ length stack)
    → (max_of r == i) ≡ true
    → 2 ≤ length (push_start r i stack)
length-push_start r i stack one deep e = ground (arith, one, deep)

le-length-push_start :
    (r : SelRegion) (i : ℕ) (stack : Styles) → length stack ≤ length (push_start r i stack)
le-length-push_start r i stack = ground arith

mark_region-Total :
    (regions : List SelRegion) (i : ℕ) (half : Bool) (stack : Styles)
    → IsDeep regions i stack
    → (cmd : StylingCommand) × (mark_region regions i half stack
        ≡ some (cmd, entered regions i stack))
unfolding mark_region
mark_region-Total [] i half stack h = (default, refl)
mark_region-Total (r ∷ rs) i half stack (o, m, one, deep) =
    let stack' = push_start r i stack in
    let (carets, e) =
      mark_carets-Total r i half stack' (mark_start r i default)
        (omega (arith, one, le-length-push_start r i stack)) in
    let (cmd, k) = mark_end-Total r i stack' carets (length-push_start r i stack one deep) in
    (
      cmd,
      ap (λ o. o >>= λ carets. mark_end r i stack' carets >>= λ cmd. some (cmd, stack')) e
          ∙ ap (λ o. o >>= λ cmd. some (cmd, stack')) k,
    )

still_deep :
    (r : SelRegion) (i : ℕ) (stack : Styles)
    → 1 ≤ length stack
    → (i ≤ min_of r) ⊎ (2 ≤ length stack)
    → (suc i ≤ min_of r) ⊎ (2 ≤ length (push_start r i stack))
still_deep r i stack one (inr h) = inr (omega (arith, h, le-length-push_start r i stack))
still_deep r i stack one (inl h) = elim (Bool-cases (min_of r == i)) [
  | inl t ↦ inr (rw t (omega (arith, one)))
  | inr f ↦ inl (ground (arith, h))
]

mark_line-Total :
    (bpl i : ℕ) (stack : Styles) (cmd : StylingCommand)
    → bpl ≢ 0
    → 1 ≤ length stack
    → Total (mark_line bpl i stack cmd)
unfolding mark_line
mark_line-Total bpl i stack cmd b h =
    rw (not_zero bpl b) (elim (Bool-cases (i % bpl == 0 && not (has_start cmd))) [
      | inl t ↦ let (s, e) = top-Total stack h in (with_start_style cmd s, rw t (rw e refl))
      | inr f ↦
          (if add_usize i 1 % bpl == 0 then with_end_style cmd default_style else cmd, rw f refl)
    ])

entered-length :
    (regions : List SelRegion) (i : ℕ) (stack : Styles)
    → IsDeep regions i stack
    → 1 ≤ length (entered regions i stack)
entered-length [] i stack h = h
entered-length (r ∷ rs) i stack (o, m, one, deep) =
    omega (arith, one, le-length-push_start r i stack)

-- What is left of a list that is ordered, and what the stack is behind byte `i`.
leave-IsDeep :
    (regions : List SelRegion) (i : ℕ) (stack : Styles)
    → IsDeep regions i stack
    → IsDeep
        (leave regions i (entered regions i stack)).0
        (suc i)
        (leave regions i (entered regions i stack)).1
leave-IsDeep [] i stack h = h
leave-IsDeep (r ∷ rs) i stack (o, m, one, deep) = elim (Bool-cases (max_of r == i)) [
  | inl t ↦ rw t (next r rs i (push_start r i stack) o t (length-push_start r i stack one deep t))
  | inr f ↦ rw f (
    o,
    ground (arith, m),
    omega (arith, one, le-length-push_start r i stack),
    still_deep r i stack one deep,
  )
]
  where
    popped : (stack : Styles) → 2 ≤ length stack → 1 ≤ length (pop stack)
    popped [] h = absurd (omega arith)
    popped (s ∷ stack) h = omega arith

    next :
        (r : SelRegion) (rs : List SelRegion) (i : ℕ) (stack : Styles)
        → IsOrdered (r ∷ rs)
        → (max_of r == i) ≡ true
        → 2 ≤ length stack
        → IsDeep rs (suc i) (pop stack)
    next r [] i stack o t h = popped stack h
    next r (q ∷ rs) i stack (a, o) t h =
        (o, ground (arith, a), popped stack h, inl (ground (arith, a)))

-- The steps of the loop put together.
mark_step :
    (n i bpl : ℕ) (half : Bool) (regions : List SelRegion) (stack stack' : Styles)
    (cmd cmd' : StylingCommand) (rest : List StylingCommand)
    → mark_region regions i half stack ≡ some (cmd, stack')
    → mark_line bpl i stack' cmd ≡ some cmd'
    → mark_from n (suc i) bpl half (leave regions i stack').0 (leave regions i stack').1 ≡ some rest
    → mark_from (suc n) i bpl half regions stack ≡ some (cmd' ∷ rest)
unfolding mark_from
mark_step n i bpl half regions stack stack' cmd cmd' rest e k l =
    ap
      (λ o. o >>= λ (cmd, stack'). mark_line bpl i stack' cmd >>= λ cmd'.
        let (regions', stack'') = leave regions i stack' in
        mark_from n (suc i) bpl half regions' stack'' >>= λ rest. some (cmd' ∷ rest))
      e
    ∙ ap
        (λ o. o >>= λ cmd'.
          mark_from n (suc i) bpl half (leave regions i stack').0 (leave regions i stack').1
          >>= λ rest. some (cmd' ∷ rest))
        k
    ∙ ap (λ o. o >>= λ rest. some (cmd' ∷ rest)) l

mark_from-Total :
    (n i bpl : ℕ) (half : Bool) (regions : List SelRegion) (stack : Styles)
    → bpl ≢ 0
    → IsDeep regions i stack
    → (cmds : List StylingCommand) × (mark_from n i bpl half regions stack ≡ some cmds)
      × (length cmds ≡ n)
unfolding mark_from
mark_from-Total zero i bpl half regions stack b d = ([], refl, refl)
mark_from-Total (suc n) i bpl half regions stack b d =
    let (cmd, e) = mark_region-Total regions i half stack d in
    let (cmd', k) =
      mark_line-Total bpl i (entered regions i stack) cmd b (entered-length regions i stack d) in
    let (rest, l, len) =
      mark_from-Total n (suc i) bpl half _ _ b (leave-IsDeep regions i stack d) in
    (cmd' ∷ rest, mark_step n i bpl half regions stack _ cmd cmd' rest e k l, ap suc len)

meeting-Above :
    (b start end : ℕ) (rs : List SelRegion)
    → IsOrdered rs
    → Above b rs
    → Above b (meeting start end rs)
meeting-Above b start end [] o a = tt
meeting-Above b start end (r ∷ rs) (later, o) a =
    elim (Bool-cases (leb start (max_of r) && leb (min_of r) end)) [
      | inl t ↦ rw t a
      | inr f ↦ rw f (meeting-Above b start end rs o (above_next b r rs a later))
    ]
  where
    above_next :
        (b : ℕ) (r : SelRegion) (rs : List SelRegion)
        → Above b (r ∷ rs)
        → Above (max_of r) rs
        → Above b rs
    above_next b r [] a l = tt
    above_next b r (q ∷ rs) a l = omega (arith, a, l)

meeting-IsOrdered :
    (start end : ℕ) (rs : List SelRegion) → IsOrdered rs → IsOrdered (meeting start end rs)
meeting-IsOrdered start end [] o = tt
meeting-IsOrdered start end (r ∷ rs) (a, o) =
    elim (Bool-cases (leb start (max_of r) && leb (min_of r) end)) [
      | inl t ↦ rw t (meeting-Above (max_of r) start end rs o a, meeting-IsOrdered start end rs o)
      | inr f ↦ rw f (meeting-IsOrdered start end rs o)
    ]

-- The region that a range begins with does not end before it.
abbrev BeginsIn : ℕ → List SelRegion → Type 0
BeginsIn start [] = Unit
BeginsIn start (r ∷ rs) = start ≤ max_of r

meeting-BeginsIn : (start end : ℕ) (rs : List SelRegion) → BeginsIn start (meeting start end rs)
meeting-BeginsIn start end [] = tt
meeting-BeginsIn start end (r ∷ rs) =
    elim (Bool-cases (leb start (max_of r) && leb (min_of r) end)) [
      | inl t ↦ rw t (ground (arith, t))
      | inr f ↦ rw f (meeting-BeginsIn start end rs)
    ]

first_styles-IsDeep :
    (start : ℕ) (rs : List SelRegion)
    → IsOrdered rs
    → BeginsIn start rs
    → IsDeep rs start (first_styles rs start)
first_styles-IsDeep start [] o b = omega arith
first_styles-IsDeep start (r ∷ rs) o b = elim (Bool-cases (ltb (min_of r) start)) [
  | inl t ↦ rw t (o, b, omega arith, inr (omega arith))
  | inr f ↦ rw f (o, b, omega arith, inl (ground (arith, f)))
]

module _ (X : Xi) where
  -- On regions that are sorted and apart, at least one of them, the styles of a range are found
  -- without a panic, one for each of its bytes.
  pub mark_commands-length :
      (v : HexView X) (buf : CurrentBuffer X) (start end : ℕ)
      → IsOrdered buf.selection.regions
      → buf.selection.regions ≢ []
      → v.bytes_per_line ≢ 0
      → start ≤ end
      → (cmds : List StylingCommand) × (mark_commands X v buf (start, end) ≡ some cmds)
        × (length cmds ≡ end - start)
  unfolding mark_commands
  mark_commands-length v buf start end o ne b h =
      let found = meeting start end buf.selection.regions in
      let (cmds, e, len) =
        mark_from-Total (end - start) start v.bytes_per_line (has_half_cursor v.mode) found
          (first_styles found start) b
          (first_styles-IsDeep start found (meeting-IsOrdered start end buf.selection.regions o)
            (meeting-BeginsIn start end buf.selection.regions)) in
      (
        cmds,
        ap
              (λ o. o >>= λ regions.
                mark_from (end - start) start v.bytes_per_line (has_half_cursor v.mode) regions
                  (first_styles regions start))
              (regions_in_range-meeting buf.selection start end o ne h)
            ∙ e,
        len,
      )
