-- ===== src/Buffer/Collection/Switch.antt =====
-- `switch_current_buffer` of src/current_buffer.rs: which buffer is current then.
use tofu_hex_editor.Prelude.{
  ℕ, zero, suc, ◌+◌, ◌-◌, ◌<◌, ◌≡◌, ◌≢◌, refl, sym, ap, ◌∙◌, true, false, Option, none, some, ◌>>=◌,
  List, [], ◌∷◌, ◌++◌, length, get_elem?, length-append, ◌==◌, arith, some_inj, >>=-eq-some,
  Bool-cases, Option-cases, ==_iff, inl, inr,
}
use tofu_hex_editor.Xi.{Xi}
use tofu_hex_editor.Buffer.{CurrentBuffer, FilePath, from_data_and_path}
use tofu_hex_editor.Buffer.Collection.{
  same_path, Disk, BuffrCollection, current, find_open, switch_to, switch_current_buffer, IsOpen,
}

pub same_path_refl : (p : FilePath) → same_path p p ≡ true
unfolding same_path
same_path_refl [] = refl
same_path_refl (a ∷ p) = rw (same_path_refl p) (ground arith)

pub eq_of_same_path : (p q : FilePath) → same_path p q ≡ true → p ≡ q
unfolding same_path
eq_of_same_path [] [] h = refl
eq_of_same_path [] (b ∷ q) h = cc
eq_of_same_path (a ∷ p) [] h = cc
eq_of_same_path (a ∷ p) (b ∷ q) h = elim (Bool-cases (a == b)) [
  | inl e ↦
      let k : same_path p q ≡ true = rw e at h in
      let n : a ≡ b = (==_iff a b).0 e in rw (eq_of_same_path p q k) (ap (◌∷ q) n)
  | inr e ↦ let k : false ≡ true = rw e at h in cc
]

module _ (X : Xi) where
  -- A buffer of the canonical path.
  abbrev pub IsAt : Disk → FilePath → CurrentBuffer X → Type 0
  IsAt disk canon buf =
      (path : FilePath) × (buf.path ≡ some path) × (disk.canonicalize path ≡ some canon)

  -- Where in a list a buffer of the canonical path is, counted from `i` on.
  abbrev FoundAt : Disk → FilePath → ℕ → ℕ → List (CurrentBuffer X) → Type 0
  FoundAt disk canon i j list =
      (k : ℕ) × (buf : CurrentBuffer X) × (j ≡ i + k)
      × (k < length list)
      × (get_elem? list k ≡ some buf)
      × IsAt disk canon buf

  one_further :
      (disk : Disk) (canon : FilePath) (i j : ℕ) (b : CurrentBuffer X)
      (list : List (CurrentBuffer X))
      → FoundAt disk canon (suc i) j list
      → FoundAt disk canon i j (b ∷ list)
  one_further disk canon i j b list (k, buf, e, l, at, is_at) =
      (suc k, buf, omega arith, omega arith, at, is_at)

  find_open_found :
      (disk : Disk) (canon : FilePath) (i j : ℕ) (list : List (CurrentBuffer X))
      → find_open X disk canon i list ≡ some (some j)
      → FoundAt disk canon i j list
  unfolding find_open
  find_open_found disk canon i j [] h = cc
  find_open_found disk canon i j (b ∷ list) h =
      let next = λ (g : find_open X disk canon (suc i) list ≡ some (some j)).
        one_further disk canon i j b list (find_open_found disk canon (suc i) j list g) in
      elim (Option-cases b.path) [
        | inl e ↦ next (rw e at h)
        | inr (p, e) ↦
            let (c, q, t) = >>=-eq-some (disk.canonicalize p) _ (rw e at h) in
            elim (Bool-cases (same_path c canon)) [
              | inl s ↦
                  let t' : some (some i) ≡ some (some j) = rw s at t in
                  let j' : i ≡ j = some_inj (some_inj t') in
                  (
                    0,
                    b,
                    omega arith,
                    omega arith,
                    refl,
                    (p, e, rw (sym (eq_of_same_path c canon s)) q),
                  )
              | inr s ↦ next (rw s at t)
            ]
      ]

  -- A buffer at which the loop passes by leaves the rest of the search.
  passes :
      (disk : Disk) (canon : FilePath) (i : ℕ) (b : CurrentBuffer X)
      (list rest : List (CurrentBuffer X))
      → find_open X disk canon i (b ∷ list) ≡ some none
      → find_open X disk canon i (b ∷ rest) ≡ find_open X disk canon (suc i) rest
  unfolding find_open
  passes disk canon i b list rest h = elim (Option-cases b.path) [
    | inl e ↦ rw e refl
    | inr (p, e) ↦
        let (c, q, t) = >>=-eq-some (disk.canonicalize p) _ (rw e at h) in
        elim (Bool-cases (same_path c canon)) [
          | inl s ↦
              let t' : some (some i) ≡ some none = rw s at t in absurd (some_none (some_inj t'))
          | inr s ↦ rw e (rw q (rw s refl))
        ]
  ]
    where
      some_none : some i ≢ none
      some_none e = cc

  find_open-append :
      (disk : Disk) (canon : FilePath) (i : ℕ) (list : List (CurrentBuffer X))
      (buf : CurrentBuffer X)
      → IsAt disk canon buf
      → find_open X disk canon i list ≡ some none
      → find_open X disk canon i (list ++ buf ∷ []) ≡ some (some (i + length list))
  unfolding find_open
  find_open-append disk canon i [] buf (p, e, q) h =
      rw e (rw q (rw (same_path_refl canon) (ap (λ n. some (some n)) (omega arith))))
  find_open-append disk canon i (b ∷ list) buf is_at h =
      passes disk canon i b list (list ++ buf ∷ []) h
      ∙ find_open-append disk canon (suc i) list buf is_at
          (sym (passes disk canon i b list list h) ∙ h)
      ∙ ap (λ n. some (some n)) (omega arith)

  get_elem?-append :
      (list : List (CurrentBuffer X)) (buf : CurrentBuffer X) (n : ℕ)
      → n ≡ length list
      → get_elem? (list ++ buf ∷ []) n ≡ some buf
  get_elem?-append [] buf zero h = refl
  get_elem?-append [] buf (suc n) h = absurd (omega arith)
  get_elem?-append (b ∷ list) buf zero h = absurd (omega arith)
  get_elem?-append (b ∷ list) buf (suc n) h = get_elem?-append list buf n (omega arith)

  -- A switch to a file that succeeds makes a buffer of that file current, and switching to the file
  -- again changes nothing.
  pub switch_current_buffer_lem :
      (disk : Disk) (c c' : BuffrCollection X) (filename canon : FilePath)
      → disk.canonicalize filename ≡ some canon
      → switch_current_buffer X disk c filename ≡ some c'
      → IsOpen X c'
        × ((buf : CurrentBuffer X) × (current X c' ≡ some buf) × IsAt disk canon buf)
        × (switch_current_buffer X disk c' filename ≡ some c')
  unfolding switch_current_buffer switch_to
  switch_current_buffer_lem disk c c' filename canon k e =
      let (found, f, s) = >>=-eq-some (find_open X disk canon 0 c.list) _ (rw k at e) in
      rw k (on_found found f s)
    where
      on_found :
          (found : Option ℕ)
          → find_open X disk canon 0 c.list ≡ some found
          → switch_to X disk c filename found ≡ some c'
          → IsOpen X c'
            × ((buf : CurrentBuffer X) × (current X c' ≡ some buf) × IsAt disk canon buf)
            × ((find_open X disk canon 0 c'.list >>= λ found'. switch_to X disk c' filename found')
                ≡ some c')
      on_found (some i) f s =
          let (j, buf, p, l, at, is_at) = find_open_found disk canon 0 i c.list f in
          let same : i ≡ j = omega arith in
          let at' : get_elem? c.list i ≡ some buf = rw same at in
          rw (sym (some_inj s)) (omega arith, (buf, at', is_at), rw f refl)
      on_found none f s =
          let (bytes, r, t) = >>=-eq-some (disk.read filename) _ s in
          let buf = from_data_and_path X bytes (some filename) in
          let len : length (c.list ++ buf ∷ []) - 1 ≡ length c.list =
            omega (arith, length-append {0} c.list (buf ∷ [])) in
          let is_at : IsAt disk canon buf = (filename, refl, k) in
          rw (sym (some_inj t)) (
            rw len (
              omega (arith, len, length-append {0} c.list (buf ∷ [])),
              (buf, get_elem?-append c.list buf (length c.list) refl, is_at),
              rw (find_open-append disk canon 0 c.list buf is_at f) (
                  ap (λ n. some (record { list = c.list ++ buf ∷ []; cur_buf_index = n }))
                    (omega arith)),
            ))
