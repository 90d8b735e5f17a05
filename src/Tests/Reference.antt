-- ===== src/Tests/Reference.antt =====
-- An instance of `Xi` and of its laws, of scripts and masks.
use tofu_hex_editor.Prelude.{
  ℕ, ◌-◌, min, max, ◌≡◌, refl, sym, ap, ◌∙◌, false, not, ◌&&◌, [], ◌∷◌, ◌++◌, length, ltb, leb,
  arith,
}
use mathlib.Core.List.{append-nil}
use tofu_hex_editor.Xi.{Rope, Xi, XiLaws}
use tofu_hex_editor.Tests.Scripts.{
  Script, end, step, Mask, run, script_len, new_len, strike, inserts, dropped, inserted, marks,
  flip, expand, weave, moved, keeps, drops, insert_first, any_true, either, shrink, expand_inserts,
  run-factor, strike-inserted, length-inserted, length-dropped, length-expand, strike-expand,
  run-weave,
}
use tofu_hex_editor.Tests.Making.{
  Making, replace, made, replace-changes, script_len-made, run-made, moved-made, new_len-run,
}

abbrev pub reference : Xi
reference = record {
  Delta = Script;
  InsertDelta = Script;
  Subset = Mask;
  Builder = Making;
  apply = run;
  new_document_len = new_len;
  factor = λ s. (inserts s, dropped s);
  synthesize = weave [];
  transform = λ s i after. moved s i;
  as_delta = λ s. s;
  inserted_subset = inserted;
  insert_transform_expand = λ s o after. expand_inserts s o;
  complement = flip;
  union = either;
  is_empty = λ m. not (any_true m);
  transform_expand = expand;
  transform_shrink = shrink;
  transform_union = λ s o. either (expand s o) o;
  delete_from = strike;
  builder = λ n. record { total = n; changes = [] };
  replace = replace;
  delete = λ b start stop. replace b start stop [];
  build = λ b. made 0 b.changes b.total;
  interval_contains = λ (start, stop) x. leb start x && ltb x stop;
  interval_union = λ (a, b) (c, d). (min a c, max b d);
  interval_intersect = λ (a, b) (c, d). (max a c, max (min b d) (max a c));
  simple_edit = λ start stop r n.
      keeps start (insert_first r (drops (stop - start) (keeps (n - stop) (end []))));
}

inserted-inserts : (s : Script) → inserted (inserts s) ≡ inserted s
unfolding inserted inserts
inserted-inserts (end r) = refl
inserted-inserts (step r k s) = ap (λ m. marks (length r) (false ∷ m)) (inserted-inserts s)

pub apply-factor :
    (s : Script) (b : Rope)
    → script_len s ≡ length b
    → run s b ≡ strike (expand (dropped s) (inserted (inserts s))) (run (inserts s) b)
apply-factor s b h = rw inserted-inserts (run-factor s b h)

pub strike_new :
    (s : Script) (b : Rope)
    → script_len s ≡ length b
    → strike (inserted (inserts s)) (run (inserts s) b) ≡ b
strike_new s b h = rw inserted-inserts (strike-inserted s b h)

pub length_new :
    (s : Script) (b : Rope)
    → script_len s ≡ length b
    → length (inserted (inserts s)) ≡ length (run (inserts s) b)
length_new s b h = rw inserted-inserts (length-inserted s b h)

pub run-keeps :
    (b r : Rope)
    → run
        (keeps
          (length b)
          (insert_first r (drops (length b - length b) (keeps (length b - length b) (end [])))))
        b
      ≡ b ++ r
unfolding run keeps insert_first drops
run-keeps b r = rw (minus_self (length b)) (kept b)
  where
    minus_self : (n : ℕ) → n - n ≡ 0
    minus_self n = omega arith

    kept : (b : Rope) → run (keeps (length b) (end (r ++ []))) b ≡ b ++ r
    kept [] = append-nil r
    kept (x ∷ b) = ap (x ∷◌) (kept b)

pub minus_zero : (n : ℕ) → n - 0 ≡ n
minus_zero n = omega arith

unfoldable pub reference_laws : XiLaws reference
reference_laws = record {
  base_len = script_len;
  subset_len = length;
  apply-factor = apply-factor;
  factor_len = λ s b h. length-dropped s ∙ h;
  delete_from-inserted_subset = strike_new;
  inserted_subset_len = length_new;
  transform_expand_len = λ s o u h k. length-expand s o ∙ h;
  delete_from-transform_expand = strike-expand;
  synthesize_len = λ old new u h k. (run-weave [] old new u h k).0;
  apply-synthesize = λ old new u h k. (run-weave [] old new u h k).1;
  apply-simple_edit = run-keeps;
  in-interval_intersect = λ (a, b) (c, d) i h k l n. (omega arith, omega arith);
  interval_intersect-in =
      λ (a, b) (c, d) i h k. (omega arith, omega arith, omega arith, omega arith);
  changes = λ b. b.changes;
  text_len = λ b. b.total;
  changes-builder = λ n. refl;
  text_len-builder = λ n. refl;
  replace-changes = replace-changes;
  delete-replace = λ b start stop. refl;
  base_len-build = λ b h. script_len-made 0 b.total b.changes h ∙ minus_zero b.total;
  apply-build = λ b t h e. run-made 0 b.total b.changes t h (sym e ∙ sym (minus_zero b.total));
  transform-build = λ b i h.
      ap (moved (made 0 b.changes b.total)) (sym (minus_zero i))
      ∙ moved-made 0 b.total b.changes i h;
  new_document_len-apply = new_len-run;
}
