-- ===== src/Analyze/RunName.antt =====
-- `split_run_name` of tools/ghalo_analyze.py.
use g_halo.Text.Laws.{snoc_append, drop-starts}
use g_halo.Stalls.Load.{is_nil}
use g_halo.KeyValue.{Metadata}
use g_halo.Text.{starts_with, Text, lit, drop_prefix}
use g_halo.Migrate.Bundle.{take_timestamp, take_char, rest_of_line}
use g_halo.Prelude.Partial.{◌>>=◌}
use g_halo.Dict.{insert}
use g_halo.Prelude.{
  List, Option, none, ◌∷◌, some, [], ◌≡◌, if◌then◌else◌, ◌++◌, Occurs, list_eq, nat_eq, ◌==◌, All,
  ◌≢◌, Bool-cases, false, inl, inr, ne_of_==, subst, sym, eq_of_==, ◌∙◌, refl,
}

abbrev pub known_backends : List Text
known_backends = lit "mpi-hip" ∷ lit "rccl" ∷ lit "mpi" ∷ []

-- RUN_NAME_RE.match(name): the timestamp and the rest
unfoldable pub match_run_name : Text → Option (Text × Text)
unfolding take_timestamp take_char rest_of_line
match_run_name name = do
  (timestamp, s) ← take_timestamp name
  t ← take_char b'_' s
  rest ← rest_of_line t
  (if is_nil rest then none else some (timestamp, rest))

-- what a backend of the list says of the rest: nothing, or the backend, with a label or without
pub record Named : Type 0 where
  pub backend : Option Text
  pub label : Option Text

-- the loop over the backends
unfoldable pub name_backend : List Text → Text → Named
unfolding starts_with drop_prefix
name_backend [] rest = record { backend = none; label = some rest }
name_backend (backend ∷ backends) rest =
    let next = name_backend backends rest in
    let under = backend ++ b'_' ∷ [] in
    let dash = backend ++ b'-' ∷ [] in
    if rest == backend
    then record { backend = some backend; label = none }
    else if starts_with under rest
    then record { backend = some backend; label = some (drop_prefix under rest) }
    else if starts_with dash rest
    then record { backend = some backend; label = some (drop_prefix dash rest) }
    else next

-- a key that is set only if there is a value
unfoldable pub set_some : Text → Option Text → Metadata → Metadata
unfolding insert
set_some key none values = values
set_some key (some value) values = insert key value values

unfoldable pub split_run_name : Text → Metadata
unfolding match_run_name name_backend set_some insert
split_run_name name = elim (match_run_name name) [
  | none ↦ []
  | some (timestamp, rest) ↦
      let named = name_backend known_backends rest in
      set_some (lit "label") named.label
        (set_some (lit "backend") named.backend (insert (lit "timestamp") timestamp []))
]

-- What a rest is, if the loop names a backend and a label, only a backend, or only a label.
pub data ReadsBack (backends : List Text) : Text → Named → Type 0 where
  bare :
      {backend : Text}
      → Occurs backend backends
      → ReadsBack backends backend (record { backend = some backend; label = none })
  under :
      {backend label : Text}
      → Occurs backend backends
      → ReadsBack backends
          (backend ++ b'_' ∷ label)
          (record { backend = some backend; label = some label })
  dash :
      {backend label : Text}
      → Occurs backend backends
      → ReadsBack backends
          (backend ++ b'-' ∷ label)
          (record { backend = some backend; label = some label })
  unknown :
      {rest : Text}
      → All
          (λ (backend : Text).
            (rest ≢ backend)
            × (starts_with (backend ++ b'_' ∷ []) rest ≡ false)
            × (starts_with (backend ++ b'-' ∷ []) rest ≡ false))
          backends
      → ReadsBack backends rest (record { backend = none; label = some rest })

weaken :
    (b : Text) (backends : List Text) (rest : Text) (named : Named)
    → rest ≢ b
    → starts_with (b ++ b'_' ∷ []) rest ≡ false
    → starts_with (b ++ b'-' ∷ []) rest ≡ false
    → ReadsBack backends rest named
    → ReadsBack (b ∷ backends) rest named
weaken b backends rest named h k l (ReadsBack.bare o) = ReadsBack.bare (inr o)
weaken b backends rest named h k l (ReadsBack.under o) = ReadsBack.under (inr o)
weaken b backends rest named h k l (ReadsBack.dash o) = ReadsBack.dash (inr o)
weaken b backends rest named h k l (ReadsBack.unknown a) = ReadsBack.unknown ((h, k, l), a)

-- The loop over the backends finds a backend of the list that is the rest, or that "_" or "-" and
-- the label follow in it; where it finds none, the rest starts with no backend of the list so.
pub name_backend-ReadsBack :
    (backends : List Text) (rest : Text) → ReadsBack backends rest (name_backend backends rest)
unfolding name_backend
name_backend-ReadsBack [] rest = ReadsBack.unknown tt
name_backend-ReadsBack (b ∷ backends) rest = elim (Bool-cases (rest == b)) [
  | inl e ↦ rw e (
      subst (λ r. ReadsBack (b ∷ backends) r (record { backend = some b; label = none }))
        (sym (eq_of_== rest b e)) (ReadsBack.bare (inl refl)))
  | inr e ↦ elim (Bool-cases (starts_with (b ++ b'_' ∷ []) rest)) [
    | inl u ↦
        rw (e, u)
          (subst
            (λ r.
              ReadsBack (b ∷ backends) r
                (record { backend = some b; label = some (drop_prefix (b ++ b'_' ∷ []) rest) }))
            (sym (snoc_append b b'_' _) ∙ drop-starts (b ++ b'_' ∷ []) rest u)
            (ReadsBack.under (inl refl)))
    | inr u ↦ elim (Bool-cases (starts_with (b ++ b'-' ∷ []) rest)) [
      | inl d ↦
          rw (e, u, d)
            (subst
              (λ r.
                ReadsBack (b ∷ backends) r
                  (record { backend = some b; label = some (drop_prefix (b ++ b'-' ∷ []) rest) }))
              (sym (snoc_append b b'-' _) ∙ drop-starts (b ++ b'-' ∷ []) rest d)
              (ReadsBack.dash (inl refl)))
      | inr d ↦
          rw (e, u, d)
            (weaken b backends rest (name_backend backends rest) (ne_of_== rest b e) u d
              (name_backend-ReadsBack backends rest))
    ]
  ]
]
