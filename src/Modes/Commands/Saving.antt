-- ===== src/Modes/Commands/Saving.antt =====
-- `quit` and the loop of `write_all`: what is saved.
use tofu_hex_editor.Prelude.{
  ℕ, ◌≡◌, ◌≢◌, ◌↔◌, ◌⊎◌, refl, sym, ap, ◌∙◌, Bool, true, false, ◌||◌, none, some, List, [], ◌∷◌,
  Bool-cases, Option-cases, arith, inl, inr,
}
use tofu_hex_editor.Xi.{Xi}
use tofu_hex_editor.Buffer.{CurrentBuffer, FilePath}
use tofu_hex_editor.Buffer.Collection.{BuffrCollection}
use tofu_hex_editor.Modes.Defs.{
  Mode, quitting, ModeTransition, new_mode, mode_and_info, unsaved_changes,
}
use tofu_hex_editor.Modes.Normal.{new}
use tofu_hex_editor.Modes.Commands.{
  FileSystem, quit, write_all, Looped, any_unsaved, is_unsaved, behind, wrote, save_first, save_all,
  run, update_saved,
}

pub some_ne_none {ℓ} : {A : Type ℓ} {a : A} → some a ≢ none
some_ne_none h = cc

true_ne_false : true ≢ false
true_ne_false h = cc

or_eq_false : (a b : Bool) → (a || b) ≡ false → (a ≡ false) × (b ≡ false)
or_eq_false a b h = ground arith

module _ (X : Xi) (F : FileSystem) where
  is_unsaved_eq :
      (buf : CurrentBuffer X) (path : FilePath)
      → buf.path ≡ some path
      → is_unsaved X F buf ≡ buf.dirty
  is_unsaved_eq buf path p = rw p refl

  no_path-is_unsaved : (buf : CurrentBuffer X) → buf.path ≡ none → is_unsaved X F buf ≡ false
  no_path-is_unsaved buf p = rw p refl

  -- No buffer with a path has unsaved changes.
  abbrev pub IsSaved : CurrentBuffer X → Type 0
  IsSaved buf = (buf.path ≡ none) ⊎ (buf.dirty ≡ false)

  abbrev pub AreSaved : List (CurrentBuffer X) → Type 0
  AreSaved [] = Unit
  AreSaved (buf ∷ list) = IsSaved buf × AreSaved list

  -- The steps of the loop.
  pub save_skipped :
      (files : F.Files) (buf : CurrentBuffer X) (list : List (CurrentBuffer X))
      → buf.path ≡ none
      → save_all X F files (buf ∷ list) ≡ behind X F buf (save_all X F files list)
  unfolding save_all
  save_skipped files buf list p =
      ap (λ o. save_first X F o files buf list (λ files'. save_all X F files' list)) p

  pub save_wrote :
      (files : F.Files) (buf : CurrentBuffer X) (list : List (CurrentBuffer X)) (path : FilePath)
      (result : F.Files × Bool)
      → buf.path ≡ some path
      → F.write files path buf.text ≡ result
      → save_all X F files (buf ∷ list)
        ≡ wrote X F result buf list (λ files'. save_all X F files' list)
  unfolding save_all
  save_wrote files buf list path result p w =
      ap (λ o. save_first X F o files buf list (λ files'. save_all X F files' list)) p
      ∙ ap (λ r. wrote X F r buf list (λ files'. save_all X F files' list)) w

  -- What the loop did with the first buffer, where it ended without an error.
  pub data Saved (files : F.Files) (buf : CurrentBuffer X) (list : List (CurrentBuffer X))
      : Type 0 where
    skipped : buf.path ≡ none → (save_all X F files list).2 ≡ true → Saved files buf list
    written :
        (files' : F.Files) (path : FilePath)
        → buf.path ≡ some path
        → F.write files path buf.text ≡ (files', true)
        → (save_all X F files' list).2 ≡ true
        → Saved files buf list

  pub save_cases :
      (files : F.Files) (buf : CurrentBuffer X) (list : List (CurrentBuffer X))
      → (save_all X F files (buf ∷ list)).2 ≡ true
      → Saved files buf list
  save_cases files buf list h = elim (Option-cases buf.path) [
    | inl p ↦ skipped p (sym (ap (λ r. r.2) (save_skipped files buf list p)) ∙ h)
    | inr (path, p) ↦ split path p (F.write files path buf.text) refl
  ]
    where
      split :
          (path : FilePath) (p : buf.path ≡ some path) (result : F.Files × Bool)
          → F.write files path buf.text ≡ result
          → Saved files buf list
      split path p (files', true) w =
          written files' path p w
            (sym (ap (λ r. r.2) (save_wrote files buf list path (files', true) p w)) ∙ h)
      split path p (files', false) w =
          let stuck : false ≡ true =
            sym (ap (λ r. r.2) (save_wrote files buf list path (files', false) p w)) ∙ h in
          cc

  is_unsaved-IsSaved : (buf : CurrentBuffer X) → (is_unsaved X F buf ≡ false) ↔ IsSaved buf
  is_unsaved-IsSaved buf = elim (Option-cases buf.path) [
    | inl p ↦ (λ h. inl p, λ s. no_path-is_unsaved buf p)
    | inr (path, p) ↦ (
      λ h. inr (sym (is_unsaved_eq buf path p) ∙ h),
      λ s. elim s [
        | inl q ↦ absurd (some_ne_none (sym p ∙ q))
        | inr d ↦ is_unsaved_eq buf path p ∙ d
      ],
    )
  ]

  any_unsaved-AreSaved :
      (list : List (CurrentBuffer X)) → (any_unsaved X F list ≡ false) ↔ AreSaved list
  unfolding any_unsaved
  any_unsaved-AreSaved [] = (λ h. tt, λ s. refl)
  any_unsaved-AreSaved (buf ∷ list) = (
    λ h.
        let (now, later) = or_eq_false (is_unsaved X F buf) (any_unsaved X F list) h in
        ((is_unsaved-IsSaved buf).0 now, (any_unsaved-AreSaved list).0 later),
    λ (s, t). rw ((is_unsaved-IsSaved buf).1 s) ((any_unsaved-AreSaved list).1 t),
  )

  pub save_all-nil : (files : F.Files) → save_all X F files [] ≡ (files, [], true)
  unfolding save_all
  save_all-nil files = refl

  save_all-AreSaved :
      (files : F.Files) (list : List (CurrentBuffer X))
      → (save_all X F files list).2 ≡ true
      → AreSaved (save_all X F files list).1
  save_all-AreSaved files [] h = rw (save_all-nil files) tt
  save_all-AreSaved files (buf ∷ list) h = elim (save_cases files buf list h) [
    | skipped p rest ↦ rw (save_skipped files buf list p) (inl p, save_all-AreSaved files list rest)
    | written files' path p w rest ↦
        rw (save_wrote files buf list path (files', true) p w)
          (inr refl, save_all-AreSaved files' list rest)
  ]

  -- `quit` changes neither the buffers nor the files, and it quits exactly if no buffer with a path
  -- has unsaved changes.
  pub run_quit-AreSaved :
      (c : BuffrCollection X) (rest : List ℕ) (files : F.Files)
      → (m : ModeTransition) × (run X F quit c rest files ≡ some (m, c, files))
        × ((m ≡ new_mode quitting) ↔ AreSaved c.list)
  unfolding run
  run_quit-AreSaved c rest files = elim (Bool-cases (any_unsaved X F c.list)) [
    | inl u ↦
        let absurd_saved : AreSaved c.list → true ≡ false =
          λ s. sym u ∙ (any_unsaved-AreSaved c.list).1 s in
        (
          mode_and_info new unsaved_changes,
          rw u refl,
          (λ h. absurd (told h), λ s. absurd (true_ne_false (absurd_saved s))),
        )
    | inr u ↦ (new_mode quitting, rw u refl, (λ h. (any_unsaved-AreSaved c.list).0 u, λ s. refl))
  ]
    where
      told : mode_and_info new unsaved_changes ≢ new_mode quitting
      told h = cc

  pub update_saved_done :
      (c c' : BuffrCollection X) (files' : F.Files) (mode : Mode) (r : Looped X F)
      → update_saved X F c (new_mode mode) r ≡ some (new_mode mode, c', files')
      → (r.2 ≡ true) × (c' ≡ record c { list = r.1 }) × (files' ≡ r.0)
  update_saved_done c c' files' mode (files, list, true) h = (
    refl,
    sym (ap (λ o. elim o [ none ↦ c | some (m, d, fs) ↦ d ]) h),
    sym (ap (λ o. elim o [ none ↦ files | some (m, d, fs) ↦ fs ]) h),
  )
  update_saved_done c c' files' mode (files, list, false) h = cc

  -- After `write_all` without an error, `quit` quits.
  pub run_write_all-quit :
      (c c' : BuffrCollection X) (rest rest' : List ℕ) (files files' : F.Files)
      → run X F write_all c rest files ≡ some (new_mode new, c', files')
      → run X F quit c' rest' files' ≡ some (new_mode quitting, c', files')
  unfolding run
  run_write_all-quit c c' rest rest' files files' h =
      let (done, list_eq, files_eq) =
        update_saved_done c c' files' new (save_all X F files c.list) h in
      let s = save_all-AreSaved files c.list done in
      let clean : any_unsaved X F c'.list ≡ false =
        ap (λ c. any_unsaved X F c.list) list_eq ∙ (any_unsaved-AreSaved _).1 s in
      rw clean refl
