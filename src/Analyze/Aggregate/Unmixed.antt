-- ===== src/Analyze/Aggregate/Unmixed.antt =====
-- `aggregate_group_metadata` of tools/ghalo_analyze.py for the key of a configuration.
use g_halo.Result.{◌>>=◌, ok_inj, Result, >>=-err}
use g_halo.Analyze.Run.Counts.{cartesian}
use g_halo.Json.{Builtin}
use g_halo.Analyze.Results.{AnalyzeFault, python_err}
use g_halo.Text.Number.{int_of_text}
use g_halo.Analyze.Run.Texts.{backend}
use g_halo.Analyze.Run.{Run}
use g_halo.Text.{lit, Text}
use g_halo.Analyze.Aggregate.Group.{
  aggregate_group_metadata, named_metadata, field_labels, field_label, is_empty_value, zip,
  value_int, count_label,
}
use g_halo.Float.{Float}
use g_halo.Result.{ok, err, >>=-eq-ok}
use g_halo.Analyze.Keys.{text, compatibility_key, Value}
use g_halo.Prelude.{some, none, List, ◌≡◌, ◌≢◌, [], ◌∷◌, Option, subst, refl, ℤ, ap}

label_error :
    (found : Option ℤ) (rest : Result Builtin (List Text))
    → found ≡ none
    → (count_label (lit "node") (elim found [ none ↦ err Builtin.value_error | some n ↦ ok n ])
        >>= λ label. rest >>= λ labels. ok (label ∷ labels))
      ≡ err Builtin.value_error
label_error none rest e = refl
label_error (some n) rest e = cc

field_labels-value_error :
    (backend : Text) (pairs : List (Text × Value))
    → backend ≢ []
    → int_of_text backend ≡ none
    → field_labels ((lit "nodes", text backend) ∷ pairs) ≡ err Builtin.value_error
unfolding field_labels field_label is_empty_value value_int lit
field_labels-value_error [] pairs nonempty fails = absurd (nonempty refl)
field_labels-value_error (c ∷ s) pairs nonempty fails =
    label_error (int_of_text (c ∷ s)) (field_labels pairs) fails

module _ {F : Type 0} ⦃f : Float F⦄ where
  named_metadata-value_error :
      (run : Run F) (backend : Text) (values : List Value) (names : List Text)
      → backend ≢ []
      → int_of_text backend ≡ none
      → named_metadata run (text backend ∷ values) (lit "nodes" ∷ names) ≡ err Builtin.value_error
  unfolding named_metadata zip
  named_metadata-value_error run backend values names nonempty fails =
      >>=-err (field_labels ((lit "nodes", text backend) ∷ zip names values)) _ Builtin.value_error
        (field_labels-value_error backend (zip names values) nonempty fails)

  -- For the key of `compatibility_key`, which runs that are not mixed have, grouping by the nodes
  -- reads the backend as a number: it raises a ValueError if the backend is not one.
  pub aggregate_group_metadata-value_error :
      (run : Run F) (key : List Value) (names : List Text)
      → compatibility_key run ≡ ok key
      → backend run ≢ []
      → int_of_text (backend run) ≡ none
      → aggregate_group_metadata run key (lit "nodes" ∷ names)
        ≡ err (AnalyzeFault.python Builtin.value_error)
  unfolding aggregate_group_metadata compatibility_key named_metadata field_labels field_label
      is_empty_value zip value_int lit
  aggregate_group_metadata-value_error run key names h nonempty fails =
      let (dimensions, found, same) = >>=-eq-ok (cartesian run) _ h in
      subst
        (λ k.
          aggregate_group_metadata run k (lit "nodes" ∷ names)
          ≡ err (AnalyzeFault.python Builtin.value_error))
        (ok_inj _ key same)
        (ap python_err (named_metadata-value_error run (backend run) _ names nonempty fails))
