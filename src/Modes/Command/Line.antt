-- ===== src/Modes/Command/Line.antt =====
-- The command line on ASCII characters, where a position in bytes is one in characters, and its
-- panics.
use tofu_hex_editor.Prelude.{
  ℕ, zero, suc, ◌+◌, ◌-◌, ◌≤◌, ◌<◌, ◌≡◌, ◌≢◌, ◌⊎◌, refl, ap, ◌∙◌, false, Option, none, some, ◌>>=◌,
  List, [], ◌∷◌, ◌++◌, length, take, drop, le→leb, ltb, leb, ◌==◌, if◌then◌else◌, arith, inl, inr,
}
use tofu_hex_editor.Modes.Command.{
  len_utf8, byte_len, insert_char, remove_char, Action, remove_last, remove_this, cursor_left,
  cursor_right, cancel, finish, Typing, Step, go_on, nothing, cancelled, finished, act, type_char,
}

abbrev pub IsAscii : List ℕ → Type 0
IsAscii [] = Unit
IsAscii (ch ∷ s) = (ch < 0x80) × IsAscii s

byte_len-ascii : (s : List ℕ) → IsAscii s → byte_len s ≡ length s
byte_len-ascii [] a = refl
byte_len-ascii (ch ∷ s) (h, a) = let rest = byte_len-ascii s a in ground (arith, rest)

IsAscii-insert_char :
    (n : ℕ) (s : List ℕ) (ch : ℕ) → IsAscii s → ch < 0x80 → IsAscii (take n s ++ ch ∷ drop n s)
IsAscii-insert_char zero s ch a h = (h, a)
IsAscii-insert_char (suc n) [] ch a h = (h, tt)
IsAscii-insert_char (suc n) (c ∷ s) ch (k, a) h = (k, IsAscii-insert_char n s ch a h)

IsAscii-remove_char : (n : ℕ) (s : List ℕ) → IsAscii s → IsAscii (take n s ++ drop (suc n) s)
IsAscii-remove_char zero [] a = tt
IsAscii-remove_char zero (c ∷ s) (k, a) = a
IsAscii-remove_char (suc n) [] a = tt
IsAscii-remove_char (suc n) (c ∷ s) (k, a) = (k, IsAscii-remove_char n s a)

one_le-len_utf8 : (c : ℕ) → 1 ≤ len_utf8 c
one_le-len_utf8 c = ground arith

len_utf8-ascii : (c : ℕ) → c < 0x80 → len_utf8 c ≡ 1
len_utf8-ascii c h = ground arith

two_le-len_utf8 : (c : ℕ) → 0x80 ≤ c → 2 ≤ len_utf8 c
two_le-len_utf8 c h = ground arith

-- The step of both functions over a character of `len` bytes.
over_char :
    (c len n m : ℕ) (f : ℕ → Option (List ℕ))
    → suc n ≡ len + m
    → (if leb len (suc n) then (f (suc n - len) >>= λ s'. some (c ∷ s')) else none)
      ≡ (f m >>= λ s'. some (c ∷ s'))
over_char c len n m f h =
    let behind : suc n - len ≡ m = omega arith in
    rw (le→leb len (suc n) (omega arith)) (ap (λ k. f k >>= λ s'. some (c ∷ s')) behind)

insert_step :
    (c : ℕ) (s : List ℕ) (n m ch : ℕ)
    → n ≡ len_utf8 c + m
    → insert_char (c ∷ s) n ch ≡ (insert_char s m ch >>= λ s'. some (c ∷ s'))
unfolding insert_char
insert_step c s zero m ch h = absurd (omega (arith, one_le-len_utf8 c))
insert_step c s (suc n) m ch h = over_char c (len_utf8 c) n m (λ k. insert_char s k ch) h

remove_step :
    (c : ℕ) (s : List ℕ) (n m : ℕ)
    → n ≡ len_utf8 c + m
    → remove_char (c ∷ s) n ≡ (remove_char s m >>= λ s'. some (c ∷ s'))
unfolding remove_char
remove_step c s zero m h = absurd (omega (arith, one_le-len_utf8 c))
remove_step c s (suc n) m h = over_char c (len_utf8 c) n m (λ k. remove_char s k) h

insert_char-ascii :
    (s : List ℕ) (n ch : ℕ)
    → IsAscii s
    → n ≤ length s
    → insert_char s n ch ≡ some (take n s ++ ch ∷ drop n s)
unfolding insert_char
insert_char-ascii s zero ch a h = refl
insert_char-ascii [] (suc n) ch a h = absurd (omega arith)
insert_char-ascii (c ∷ s) (suc n) ch (k, a) h =
    insert_step c s (suc n) n ch (omega (arith, len_utf8-ascii c k))
    ∙ ap (λ o. o >>= λ s'. some (c ∷ s')) (insert_char-ascii s n ch a (omega arith))

remove_char-ascii :
    (s : List ℕ) (n : ℕ)
    → IsAscii s
    → n < length s
    → remove_char s n ≡ some (take n s ++ drop (suc n) s)
unfolding remove_char
remove_char-ascii [] n a h = absurd (omega arith)
remove_char-ascii (c ∷ s) zero a h = refl
remove_char-ascii (c ∷ s) (suc n) (k, a) h =
    remove_step c s (suc n) n (omega (arith, len_utf8-ascii c k))
    ∙ ap (λ o. o >>= λ s'. some (c ∷ s')) (remove_char-ascii s n a (omega arith))

remove-insert :
    (n ch : ℕ) (s : List ℕ)
    → n ≤ length s
    → take n (take n s ++ ch ∷ drop n s) ++ drop (suc n) (take n s ++ ch ∷ drop n s) ≡ s
remove-insert zero ch s h = refl
remove-insert (suc n) ch [] h = absurd (omega arith)
remove-insert (suc n) ch (c ∷ s) h = ap (c ∷◌) (remove-insert n ch s (omega arith))

length-insert : (n ch : ℕ) (s : List ℕ) → length (take n s ++ ch ∷ drop n s) ≡ suc (length s)
length-insert zero ch s = refl
length-insert (suc n) ch [] = refl
length-insert (suc n) ch (c ∷ s) = ap suc (length-insert n ch s)

length-remove :
    (n : ℕ) (s : List ℕ) → n < length s → suc (length (take n s ++ drop (suc n) s)) ≡ length s
length-remove n [] h = absurd (omega arith)
length-remove zero (c ∷ s) h = refl
length-remove (suc n) (c ∷ s) h = ap suc (length-remove n s (omega arith))

-- A line of ASCII characters with the cursor in it or at its end.
pub record IsLine (t : Typing) : Type 0 where
  pub ascii : IsAscii t.command
  pub within : t.cursor ≤ length t.command

remove_before :
    (k n : ℕ) (s line : List ℕ)
    → k ≡ suc n
    → remove_char s n ≡ some line
    → (if k == 0
        then some nothing
        else (remove_char s (k - 1) >>= λ line.
            some (go_on (record { command = line; cursor = k - 1 }))))
      ≡ some (go_on (record { command = line; cursor = n }))
remove_before k n s line h e =
    let before : k - 1 ≡ n = omega arith in
    let not_first : (k == 0) ≡ false = ground arith in
    rw not_first (
      ap (λ j. remove_char s j >>= λ line. some (go_on (record { command = line; cursor = j })))
        before
      ∙ ap (λ o. o >>= λ line. some (go_on (record { command = line; cursor = n }))) e)

remove_last_lem :
    (t : Typing) (n : ℕ)
    → IsLine t
    → t.cursor ≡ suc n
    → act remove_last t
      ≡ some (go_on (record { command = take n t.command ++ drop (suc n) t.command; cursor = n }))
unfolding act
remove_last_lem t n v e =
    remove_before t.cursor n t.command _ e
      (remove_char-ascii t.command n v.ascii (omega (arith, v.within)))

abbrev pub StaysLine : Action → Step → Type 0
StaysLine action (go_on t) = IsLine t
StaysLine action nothing = Unit
StaysLine action cancelled = Unit
StaysLine action finished = action ≡ finish

remove_last-IsLine :
    (t : Typing)
    → IsLine t
    → (n : ℕ) → t.cursor ≡ n
    → (step : Step) × (act remove_last t ≡ some step) × StaysLine remove_last step
unfolding act
remove_last-IsLine t v zero e = (nothing, rw e refl, tt)
remove_last-IsLine t v (suc n) e = (
  go_on (record { command = take n t.command ++ drop (suc n) t.command; cursor = n }),
  remove_last_lem t n v e,
  record {
    ascii = IsAscii-remove_char n t.command v.ascii;
    within = omega (arith, v.within, length-remove n t.command (omega (arith, v.within)));
  },
)

-- The same for each action but Delete at the end of the line.
pub act-IsLine :
    (action : Action) (t : Typing)
    → IsLine t
    → (action ≢ remove_this) ⊎ (t.cursor < length t.command)
    → (step : Step) × (act action t ≡ some step) × StaysLine action step
unfolding act
act-IsLine remove_last t v h = remove_last-IsLine t v t.cursor refl
act-IsLine remove_this t v (inl ne) = absurd (ne refl)
act-IsLine remove_this t v (inr h) = (
  go_on (record t { command = take t.cursor t.command ++ drop (suc t.cursor) t.command }),
  ap (λ o. o >>= λ line. some (go_on (record t { command = line })))
      (remove_char-ascii t.command t.cursor v.ascii h),
  record {
    ascii = IsAscii-remove_char t.cursor t.command v.ascii;
    within = omega (arith, length-remove t.cursor t.command h);
  },
)
act-IsLine cursor_left t v h = (
  go_on (record t { cursor = t.cursor - 1 }),
  refl,
  record { ascii = v.ascii; within = omega (arith, v.within) },
)
act-IsLine cursor_right t v h = (
  go_on
      (record t { cursor = if ltb t.cursor (byte_len t.command) then t.cursor + 1 else t.cursor }),
  refl,
  record { ascii = v.ascii; within = ground (arith, v.within, byte_len-ascii t.command v.ascii) },
)
act-IsLine finish t v h = (finished, refl, refl)
act-IsLine cancel t v h = (cancelled, refl, tt)

-- Typing an ASCII character into such a line puts it at the cursor, and Backspace takes it back.
pub type_char-remove_last :
    (t : Typing) (ch : ℕ)
    → IsLine t
    → ch < 0x80
    → (t' : Typing) × (type_char t ch ≡ some t') × IsLine t' × (act remove_last t' ≡ some (go_on t))
unfolding type_char
type_char-remove_last t ch v h =
    let line = take t.cursor t.command ++ ch ∷ drop t.cursor t.command in
    let longer = length-insert t.cursor ch t.command in
    let t' : Typing = record { command = line; cursor = t.cursor + 1 } in
    let v' : IsLine t' = record {
      ascii = IsAscii-insert_char t.cursor t.command ch v.ascii h;
      within = omega (arith, v.within, longer);
    } in
    (
      t',
      ap (λ o. o >>= λ line. some (record { command = line; cursor = t.cursor + 1 }))
          (insert_char-ascii t.command t.cursor ch v.ascii v.within),
      v',
      remove_last_lem t' t.cursor v' (omega arith)
          ∙ ap (λ line. some (go_on (record { command = line; cursor = t.cursor })))
              (remove-insert t.cursor ch t.command v.within),
    )

remove_char_panics : (s : List ℕ) → remove_char s (byte_len s) ≡ none
unfolding remove_char
remove_char_panics [] = refl
remove_char_panics (c ∷ s) =
    remove_step c s (byte_len (c ∷ s)) (byte_len s) refl
    ∙ ap (λ o. o >>= λ s'. some (c ∷ s')) (remove_char_panics s)

insert_char_end : (s : List ℕ) (ch : ℕ) → insert_char s (byte_len s) ch ≡ some (s ++ ch ∷ [])
unfolding insert_char
insert_char_end [] ch = refl
insert_char_end (c ∷ s) ch =
    insert_step c s (byte_len (c ∷ s)) (byte_len s) ch refl
    ∙ ap (λ o. o >>= λ s'. some (c ∷ s')) (insert_char_end s ch)

insert_char_panics :
    (s : List ℕ) (ch next : ℕ) → 0x80 ≤ ch → insert_char (s ++ ch ∷ []) (byte_len s + 1) next ≡ none
unfolding insert_char
insert_char_panics [] ch next h = ground (arith, two_le-len_utf8 ch h)
insert_char_panics (c ∷ s) ch next h =
    insert_step c (s ++ ch ∷ []) (byte_len (c ∷ s) + 1) (byte_len s + 1) next (omega arith)
    ∙ ap (λ o. o >>= λ s'. some (c ∷ s')) (insert_char_panics s ch next h)

-- With the cursor at the end of a line, Delete panics, and after a character is typed there that is
-- not ASCII, any next character panics.
pub act_panics :
    (t : Typing) (ch next : ℕ)
    → t.cursor ≡ byte_len t.command
    → 0x80 ≤ ch
    → (act remove_this t ≡ none)
      × ((t' : Typing) × (type_char t ch ≡ some t') × (type_char t' next ≡ none))
unfolding act type_char
act_panics t ch next e h = (
  ap (λ o. o >>= λ line. some (go_on (record t { command = line })))
      (ap (remove_char t.command) e ∙ remove_char_panics t.command),
  (
    record { command = t.command ++ ch ∷ []; cursor = t.cursor + 1 },
    ap (λ o. o >>= λ line. some (record { command = line; cursor = t.cursor + 1 }))
        (ap (λ n. insert_char t.command n ch) e ∙ insert_char_end t.command ch),
    ap (λ o. o >>= λ line. some (record { command = line; cursor = t.cursor + 1 + 1 }))
        (ap (λ n. insert_char (t.command ++ ch ∷ []) (n + 1) next) e
          ∙ insert_char_panics t.command ch next h),
  ),
)
