-- ===== src/History.antt =====
-- src/history.rs: the actions that can be undone and redone. The vectors are stacks, their last
-- element first.
pub mod Inverse
use tofu_hex_editor.Prelude.{Bool, Option, none, some, List, [], ◌∷◌, if◌then◌else◌}
use tofu_hex_editor.Xi.{Rope, Xi}
use tofu_hex_editor.Selection.Defs.{Selection}

module _ (X : Xi) where
  pub record Action : Type 0 where
    pub delta : X.Delta

  abbrev pub from_delta : X.Delta → Action
  from_delta d = record { delta = d }

  -- `Rope::without_subset`
  abbrev pub without_subset : Rope → X.Subset → Rope
  without_subset r s = X.delete_from s r

  unfoldable pub invert : Action → Rope → Action
  invert a base_rope =
      let inserts = (X.factor a.delta).0 in
      let deletions = (X.factor a.delta).1 in
      let ins_subset = X.inserted_subset inserts in
      let deleted_now = without_subset base_rope (X.complement deletions) in
      let deletions_from_base = X.transform_expand deletions ins_subset in
      record { delta = X.synthesize deleted_now deletions_from_base ins_subset }

  -- Inserts, deletes and the inserts in the text before the deletions of `next`.
  unfoldable pub subsets_for_chain : Action → X.Delta → X.Subset × X.Subset × X.Subset
  subsets_for_chain a next =
      let ins1 = (X.factor a.delta).0 in
      let del1 = (X.factor a.delta).1 in
      let ins2 = (X.factor next).0 in
      let del2 = (X.factor next).1 in
      let inserts_in_mid_union = X.inserted_subset ins1 in
      let deletes_from_mid_union = X.transform_expand del1 (X.inserted_subset ins1) in
      let union_ins_delta = X.insert_transform_expand ins2 deletes_from_mid_union Bool.true in
      let new_inserts = X.inserted_subset union_ins_delta in
      let pre_expand = X.transform_expand del2 deletes_from_mid_union in
      let new_deletes =
        if X.is_empty new_inserts then pre_expand else X.transform_expand pre_expand new_inserts in
      let rebased_deletes_from_union = X.transform_expand deletes_from_mid_union new_inserts in
      let deletes_from_union = X.union rebased_deletes_from_union new_deletes in
      let rebased_inserts_in_union = X.transform_expand inserts_in_mid_union new_inserts in
      let inserts_in_union = X.union rebased_inserts_in_union new_inserts in
      let inserts_in_mid_text = X.transform_shrink inserts_in_mid_union deletes_from_mid_union in
      let prefinal_insertion = X.inserted_subset ins2 in
      let inserts_in_prefinal = X.transform_union inserts_in_mid_text prefinal_insertion in
      (inserts_in_union, deletes_from_union, inserts_in_prefinal)

  unfoldable pub chain : Action → Rope → X.Delta → Action
  unfolding subsets_for_chain
  chain a after_self next =
      let after_next = X.apply (X.as_delta (X.factor next).0) after_self in
      let (inserted, deleted, inserts_in_prefinal) = subsets_for_chain a next in
      let tombstones = without_subset after_next (X.complement inserts_in_prefinal) in
      record { delta = X.synthesize tombstones inserted deleted }

  pub record History : Type 0 where
    pub partial : Option (Action × Selection)
    pub undo_stack : List (Action × Selection)
    pub redo_stack : List (Action × Selection)

  abbrev pub new : History
  new = record { partial = none; undo_stack = []; redo_stack = [] }

  unfoldable pub perform_final : History → Rope → X.Delta → Selection → History
  unfolding invert
  perform_final h current_rope delta selection = record h {
    undo_stack = (invert (from_delta delta) current_rope, selection) ∷ h.undo_stack;
    redo_stack = [];
  }

  abbrev replaced : Option (Action × Selection) → Action → Rope → Selection → Action × Selection
  replaced none this_inversion current_rope selection = (this_inversion, selection)
  replaced (some (action, first)) this_inversion current_rope selection =
      (chain this_inversion current_rope action.delta, first)

  unfoldable pub perform_partial : History → Rope → X.Delta → Selection → History
  unfolding invert chain
  perform_partial h current_rope delta selection = record h {
    partial =
        some (replaced h.partial (invert (from_delta delta) current_rope) current_rope selection);
  }

  unfoldable pub commit_partial : History → History
  commit_partial h = elim h.partial [
    | none ↦ h
    | some p ↦ record { partial = none; undo_stack = p ∷ h.undo_stack; redo_stack = [] }
  ]

  unfoldable pub undo : History → Rope → Selection → History × Option (X.Delta × Selection)
  unfolding invert
  undo h current_rope selection = elim h.undo_stack [
    | [] ↦ (h, none)
    | (action, old_selection) ∷ rest ↦ (
      record h {
        undo_stack = rest;
        redo_stack = (invert action current_rope, selection) ∷ h.redo_stack;
      },
      some (action.delta, old_selection),
    )
  ]

  unfoldable pub redo : History → Rope → Selection → History × Option (X.Delta × Selection)
  unfolding invert
  redo h current_rope selection = elim h.redo_stack [
    | [] ↦ (h, none)
    | (action, old_selection) ∷ rest ↦ (
      record h {
        redo_stack = rest;
        undo_stack = (invert action current_rope, selection) ∷ h.undo_stack;
      },
      some (action.delta, old_selection),
    )
  ]
