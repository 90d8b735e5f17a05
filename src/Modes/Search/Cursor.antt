-- ===== src/Modes/Search/Cursor.antt =====
-- The cursor in the pattern that src/modes/search.rs edits.
use tofu_hex_editor.Prelude.{
  ℕ, zero, suc, ◌+◌, ◌-◌, ◌%◌, ◌≤◌, ◌<◌, ◌≡◌, refl, sym, ap, ◌∙◌, Bool, true, false, Bool-cases,
  inl, inr, ltb, ltb→lt, ◌==◌, Option, none, some, Option-cases, ◌>>=◌, [], ◌∷◌, ◌++◌, length, take,
  drop, erase_idx, arith, bit_or, ◌*◌,
}
use tofu_hex_editor.Modes.Defs.{PatternPiece, literal, wildcard}
use tofu_hex_editor.Modes.Insert.{to_digit}
use tofu_hex_editor.Modes.Pattern.{Pattern, insert_piece, put_piece}
use tofu_hex_editor.Modes.Search.{
  Typing, Action, insert_null, insert_wilcard, remove_last, remove_this, cursor_left, cursor_right,
  switch_input_mode, cancel, finish, Step, go_on, nothing, cancelled, finished, act, cursor_of,
  edited, type_digit, type_char,
}

-- The piece that the next half digit is for, if one is awaited.
abbrev half_len : Option ℕ → ℕ
half_len none = 0
half_len (some half) = 1

-- The cursor is in the pattern, and on a piece while a half digit is awaited.
abbrev pub IsTyped : Typing → Type 0
IsTyped t = t.cursor + half_len t.hex_half ≤ length t.pieces

abbrev pub KeepsTyped : Action → Step → Type 0
KeepsTyped a (go_on t) = IsTyped t
KeepsTyped a nothing = Unit
KeepsTyped a cancelled = Unit
KeepsTyped a (finished pieces) = a ≡ finish

abbrev pub KeepsTyped? : Option Typing → Type 0
KeepsTyped? none = Unit
KeepsTyped? (some t) = IsTyped t

put_len :
    (n : ℕ) (p : PatternPiece) (pieces : Pattern)
    → n ≤ length pieces
    → length (take n pieces ++ p ∷ drop n pieces) ≡ suc (length pieces)
put_len zero p pieces h = refl
put_len (suc n) p [] h = absurd (omega arith)
put_len (suc n) p (q ∷ pieces) h = ap suc (put_len n p pieces (omega arith))

put_over_len :
    (n : ℕ) (p : PatternPiece) (pieces : Pattern)
    → n < length pieces
    → length (take n pieces ++ p ∷ drop (suc n) pieces) ≡ length pieces
put_over_len n p [] h = absurd (omega arith)
put_over_len zero p (q ∷ pieces) h = refl
put_over_len (suc n) p (q ∷ pieces) h = ap suc (put_over_len n p pieces (omega arith))

-- An insertion at the cursor or before it does not panic, and makes the pattern longer by one.
insert_piece_lem :
    (n : ℕ) (p : PatternPiece) (pieces : Pattern)
    → n ≤ length pieces
    → (pieces' : Pattern) × (insert_piece pieces n p ≡ some pieces')
      × (length pieces' ≡ suc (length pieces))
unfolding insert_piece
insert_piece_lem n p pieces h =
    (take n pieces ++ p ∷ drop n pieces, ground arith, put_len n p pieces h)

put_piece_lem :
    (n : ℕ) (p : PatternPiece) (pieces : Pattern)
    → n < length pieces
    → (pieces' : Pattern) × (put_piece pieces n p ≡ some pieces') × (length pieces' ≡ length pieces)
unfolding put_piece
put_piece_lem n p pieces h =
    (take n pieces ++ p ∷ drop (suc n) pieces, ground arith, put_over_len n p pieces h)

le-length-erase_idx : (n : ℕ) (pieces : Pattern) → length pieces ≤ suc (length (erase_idx pieces n))
le-length-erase_idx n [] = omega arith
le-length-erase_idx zero (q ∷ pieces) = omega arith
le-length-erase_idx (suc n) (q ∷ pieces) = omega (arith, le-length-erase_idx n pieces)

length-erase_idx_beyond :
    (n : ℕ) (pieces : Pattern) → length pieces ≤ n → length (erase_idx pieces n) ≡ length pieces
length-erase_idx_beyond n [] h = refl
length-erase_idx_beyond zero (q ∷ pieces) h = absurd (omega arith)
length-erase_idx_beyond (suc n) (q ∷ pieces) h =
    ap suc (length-erase_idx_beyond n pieces (omega arith))

le-cursor_of : (t : Typing) → IsTyped t → cursor_of t ≤ length t.pieces
le-cursor_of t h = elim (Option-cases t.hex_half) [
  | inl e ↦ rw e (omega (arith, rw e at h))
  | inr (half, e) ↦ rw e (omega (arith, rw e at h))
]

inserted-IsTyped :
    (a : Action) (p : PatternPiece) (t : Typing)
    → cursor_of t ≤ length t.pieces
    → (s : Step) × (edited t
          (insert_piece t.pieces (cursor_of t) p >>= λ pieces. some (pieces, cursor_of t + 1))
        ≡ some s)
      × KeepsTyped a s
inserted-IsTyped a p t h =
    let (pieces, e, l) = insert_piece_lem (cursor_of t) p t.pieces h in
    (
      go_on (record t { pieces = pieces; cursor = cursor_of t + 1; hex_half = none }),
      rw e refl,
      omega (arith, l, h),
    )

removed-IsTyped :
    (n : ℕ) (pieces : Pattern) → n ≤ length pieces → n + 0 ≤ length (erase_idx pieces n)
removed-IsTyped n pieces h = elim (Bool-cases (ltb n (length pieces))) [
  | inl e ↦ omega (arith, ltb→lt n (length pieces) e, le-length-erase_idx n pieces)
  | inr e ↦ omega (arith, length-erase_idx_beyond n pieces (ground (arith, e)))
]

-- The cursor stays in the pattern, and on a piece while a half digit is awaited.
pub act-IsTyped :
    (a : Action) (t : Typing) → IsTyped t → (s : Step) × (act a t ≡ some s) × KeepsTyped a s
unfolding act
act-IsTyped insert_null t h = inserted-IsTyped insert_null (literal 0) t (le-cursor_of t h)
act-IsTyped insert_wilcard t h = inserted-IsTyped insert_wilcard wildcard t (le-cursor_of t h)
act-IsTyped remove_last t h =
    let c = le-cursor_of t h in
    elim (Bool-cases (cursor_of t == 0)) [
      | inl e ↦ (nothing, rw e refl, tt)
      | inr e ↦ (
        go_on (record t {
          pieces = erase_idx t.pieces (cursor_of t - 1);
          cursor = cursor_of t - 1;
          hex_half = none;
        }),
        rw e refl,
        omega (arith, le-length-erase_idx (cursor_of t - 1) t.pieces, c),
      )
    ]
act-IsTyped remove_this t h = (_, refl, removed-IsTyped (cursor_of t) t.pieces (le-cursor_of t h))
act-IsTyped cursor_left t h = (_, refl, omega (arith, le-cursor_of t h))
act-IsTyped cursor_right t h = (_, refl, let c = le-cursor_of t h in ground arith)
act-IsTyped switch_input_mode t h = (_, refl, omega (arith, le-cursor_of t h))
act-IsTyped cancel t h = (cancelled, refl, tt)
act-IsTyped finish t h = (finished t.pieces, refl, refl)

-- The same for one digit, over the fields.
digit-IsTyped :
    (pieces : Pattern) (cursor : ℕ) (hex : Bool) (hex_half : Option ℕ) (digit : ℕ)
    → cursor + half_len hex_half ≤ length pieces
    → (t' : Typing) × (type_digit
          (record { pieces = pieces; cursor = cursor; hex = hex; hex_half = hex_half })
          digit
        ≡ some t')
      × IsTyped t'
unfolding type_digit
digit-IsTyped pieces cursor hex none digit h =
    let (pieces', e, l) = insert_piece_lem cursor (literal (digit * 16)) pieces (omega arith) in
    (
      record { pieces = pieces'; cursor = cursor; hex = hex; hex_half = some (digit * 16) },
      rw e refl,
      omega (arith, l),
    )
digit-IsTyped pieces cursor hex (some half) digit h =
    let (pieces', e, l) = put_piece_lem cursor (literal (bit_or half digit)) pieces (omega arith) in
    (
      record { pieces = pieces'; cursor = cursor + 1; hex = hex; hex_half = none },
      rw e refl,
      omega (arith, l),
    )

char-IsTyped :
    (pieces : Pattern) (cursor : ℕ) (hex : Bool) (hex_half : Option ℕ) (ch : ℕ)
    → cursor + half_len hex_half ≤ length pieces
    → (o : Option Typing) × (type_char
          (record { pieces = pieces; cursor = cursor; hex = hex; hex_half = hex_half })
          ch
        ≡ some o)
      × KeepsTyped? o
unfolding type_char
char-IsTyped pieces cursor true hex_half ch h = elim (Option-cases (to_digit ch)) [
  | inl d ↦ (none, rw d refl, tt)
  | inr (digit, d) ↦
      let (t', q, k) = digit-IsTyped pieces cursor true hex_half digit h in
      (some t', rw d (rw q refl), k)
]
char-IsTyped pieces cursor false hex_half ch h =
    let (pieces', e, l) = insert_piece_lem cursor (literal (ch % 256)) pieces (omega arith) in
    (
      some (record { pieces = pieces'; cursor = cursor + 1; hex = false; hex_half = hex_half }),
      rw e refl,
      omega (arith, l, h),
    )

-- Where the cursor is in the pattern, and on a piece while a half digit is awaited, no character
-- panics, and if it is taken, the same holds again.
pub type_char-IsTyped :
    (t : Typing) (ch : ℕ)
    → IsTyped t
    → (o : Option Typing) × (type_char t ch ≡ some o) × KeepsTyped? o
type_char-IsTyped t ch h = char-IsTyped t.pieces t.cursor t.hex t.hex_half ch h

put_over_put :
    (n : ℕ) (p q : PatternPiece) (pieces : Pattern)
    → n ≤ length pieces
    → take n (take n pieces ++ p ∷ drop n pieces)
        ++ q ∷ drop (suc n) (take n pieces ++ p ∷ drop n pieces)
      ≡ take n pieces ++ q ∷ drop n pieces
put_over_put zero p q pieces h = refl
put_over_put (suc n) p q [] h = absurd (omega arith)
put_over_put (suc n) p q (r ∷ pieces) h = ap (r ∷◌) (put_over_put n p q pieces (omega arith))

-- A piece inserted and then overwritten is the other piece inserted.
put_piece-insert_piece :
    (n : ℕ) (p q : PatternPiece) (pieces : Pattern)
    → n ≤ length pieces
    → (insert_piece pieces n p >>= λ pieces'. put_piece pieces' n q) ≡ insert_piece pieces n q
unfolding insert_piece put_piece
put_piece-insert_piece n p q pieces h =
    ground (arith, put_len n p pieces h, put_over_put n p q pieces h)

-- Two hexadecimal digits typed at a cursor in the pattern, where no half digit is awaited, insert
-- the one byte that they are the halves of, and the cursor goes behind it.
pub type_digit_twice :
    (pieces : Pattern) (cursor : ℕ) (hex : Bool) (hi lo : ℕ)
    → cursor ≤ length pieces
    → (type_digit (record { pieces = pieces; cursor = cursor; hex = hex; hex_half = none }) hi
        >>= λ t. type_digit t lo)
      ≡ (insert_piece pieces cursor (literal (bit_or (hi * 16) lo)) >>= λ pieces'.
          some (record { pieces = pieces'; cursor = cursor + 1; hex = hex; hex_half = none }))
unfolding type_digit
type_digit_twice pieces cursor hex hi lo h =
    let p = literal (hi * 16) in
    let q = literal (bit_or (hi * 16) lo) in
    let (pieces', e, l) = insert_piece_lem cursor p pieces h in
    let over : put_piece pieces' cursor q ≡ insert_piece pieces cursor q =
      sym (ap (λ o. o >>= λ ps. put_piece ps cursor q) e)
      ∙ put_piece-insert_piece cursor p q pieces h in
    let (pieces_q, e', l') = insert_piece_lem cursor q pieces h in rw e (rw over (rw e' refl))
