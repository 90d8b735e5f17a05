-- ===== src/History/Inverse.antt =====
-- What `invert` of src/history.rs gives, and what undo and redo do to the text.
use tofu_hex_editor.Prelude.{◌≡◌, refl, ◌∙◌, length}
use tofu_hex_editor.Xi.{Rope, Xi, XiLaws}
use tofu_hex_editor.History.{Action, invert}

module _ (X : Xi) (L : XiLaws X) where
  open L use {base_len, subset_len}

  -- The inverse of an action whose delta fits the text is for the text that the delta makes, and
  -- applied to that text it gives the old one back.
  pub apply-invert :
      (a : Action X) (b : Rope)
      → base_len a.delta ≡ length b
      → (base_len (invert X a b).delta ≡ length (X.apply a.delta b))
        × (X.apply (invert X a b).delta (X.apply a.delta b) ≡ b)
  unfolding invert
  apply-invert a b fits =
      rw (applied, deleted)
        (L.synthesize_len dels i u dels_len i_len, L.apply-synthesize dels i u dels_len i_len ∙ old)
    where
      i : X.Subset
      i = X.inserted_subset (X.factor a.delta).0

      u : Rope
      u = X.apply (X.as_delta (X.factor a.delta).0) b

      dels : X.Subset
      dels = X.transform_expand (X.factor a.delta).1 i

      old : X.delete_from i u ≡ b
      old = L.delete_from-inserted_subset a.delta b fits

      i_len : subset_len i ≡ length u
      i_len = L.inserted_subset_len a.delta b fits

      del_len : subset_len (X.factor a.delta).1 ≡ length (X.delete_from i u)
      del_len = rw old (L.factor_len a.delta b fits)

      dels_len : subset_len dels ≡ length u
      dels_len = L.transform_expand_len (X.factor a.delta).1 i u i_len del_len

      applied : X.apply a.delta b ≡ X.delete_from dels u
      applied = L.apply-factor a.delta b fits

      deleted :
          X.delete_from (X.complement (X.factor a.delta).1) b ≡ X.delete_from (X.complement dels) u
      deleted = rw (L.delete_from-transform_expand (X.factor a.delta).1 i u i_len del_len, old) refl
