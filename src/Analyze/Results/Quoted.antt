-- ===== src/Analyze/Results/Quoted.antt =====
-- The texts that `unquote_csv_string` of tools/ghalo_analyze.py reads back.
use g_halo.Analyze.Results.{replace_pair, init, last_char, unquote_csv_string}
use g_halo.Text.{Text}
use g_halo.Prelude.{
  ℕ, ◌∷◌, ◌==◌, ◌≡◌, ◌++◌, if◌then◌else◌, [], false, Bool-cases, ◌∙◌, ◌||◌, ap, inl, refl, nat_eq,
  ap₂, inr, sym, eq_of_==, subst,
}

-- A backslash before each double quote and each backslash.
abbrev pub escaped : Text → Text
escaped [] = []
escaped (c ∷ s) = if c == 34 || c == 92 then 92 ∷ c ∷ escaped s else c ∷ escaped s

-- A backslash before each backslash only.
abbrev doubled : Text → Text
doubled [] = []
doubled (c ∷ s) = if c == 92 then 92 ∷ 92 ∷ doubled s else c ∷ doubled s

-- The text in double quotes.
abbrev pub quoted : Text → Text
quoted s = 34 ∷ escaped s ++ 34 ∷ []

-- No pair begins with a character other than the first.
replace_pair-other :
    (a b new c : ℕ) (s : Text)
    → (c == a) ≡ false
    → replace_pair a b new (c ∷ s) ≡ c ∷ replace_pair a b new s
unfolding replace_pair
replace_pair-other a b new c [] e = refl
replace_pair-other a b new c (d ∷ s) e = rw e refl

-- A backslash that stands before an escaped text is kept.
replace_quote-backslash :
    (s : Text) → replace_pair 92 34 34 (92 ∷ escaped s) ≡ 92 ∷ replace_pair 92 34 34 (escaped s)
unfolding replace_pair
replace_quote-backslash [] = refl
replace_quote-backslash (c ∷ s) = elim (Bool-cases (c == 34)) [
  | inl e ↦ rw e refl
  | inr e ↦ elim (Bool-cases (c == 92)) [ inl k ↦ rw (e, k) refl | inr k ↦ rw (e, k, e) refl ]
]

replace_quote-escaped : (s : Text) → replace_pair 92 34 34 (escaped s) ≡ doubled s
unfolding replace_pair
replace_quote-escaped [] = refl
replace_quote-escaped (c ∷ s) =
    let ih = replace_quote-escaped s in
    elim (Bool-cases (c == 34)) [
      | inl e ↦
          subst (λ k. replace_pair 92 34 34 (escaped (k ∷ s)) ≡ doubled (k ∷ s))
            (sym (eq_of_== c 34 e)) (ap (λ t. 34 ∷ t) ih)
      | inr e ↦ elim (Bool-cases (c == 92)) [
        | inl k ↦
            subst (λ k. replace_pair 92 34 34 (escaped (k ∷ s)) ≡ doubled (k ∷ s))
              (sym (eq_of_== c 92 k))
              (ap (λ t. 92 ∷ t) (replace_quote-backslash s ∙ ap (λ t. 92 ∷ t) ih))
        | inr k ↦ rw (e, k) (replace_pair-other 92 34 34 c (escaped s) k ∙ ap (λ t. c ∷ t) ih)
      ]
    ]

replace_backslash-doubled : (s : Text) → replace_pair 92 92 92 (doubled s) ≡ s
unfolding replace_pair
replace_backslash-doubled [] = refl
replace_backslash-doubled (c ∷ s) =
    let ih = replace_backslash-doubled s in
    elim (Bool-cases (c == 92)) [
      | inl e ↦ rw e (ap₂ ◌∷◌ (sym (eq_of_== c 92 e)) ih)
      | inr e ↦ rw e (replace_pair-other 92 92 92 c (doubled s) e ∙ ap (λ t. c ∷ t) ih)
    ]

init-append : (s : Text) (c : ℕ) → init (s ++ c ∷ []) ≡ s
unfolding init
init-append [] c = refl
init-append (d ∷ []) c = refl
init-append (d ∷ e ∷ s) c = ap (λ t. d ∷ t) (init-append (e ∷ s) c)

last_char-append : (d : ℕ) (s : Text) (c : ℕ) → last_char d (s ++ c ∷ []) ≡ c
unfolding last_char
last_char-append d [] c = refl
last_char-append d (e ∷ s) c = last_char-append e s c

unquote_csv_string-quotes :
    (s : Text)
    → unquote_csv_string (34 ∷ s ++ 34 ∷ []) ≡ replace_pair 92 92 92 (replace_pair 92 34 34 s)
unfolding unquote_csv_string
unquote_csv_string-quotes [] = refl
unquote_csv_string-quotes (d ∷ s) = rw (last_char-append d s 34, init-append (d ∷ s) 34) refl

-- A text that is escaped and put in double quotes is read back.
pub unquote_csv_string-quoted : (s : Text) → unquote_csv_string (quoted s) ≡ s
unquote_csv_string-quoted s =
    unquote_csv_string-quotes (escaped s)
    ∙ ap (replace_pair 92 92 92) (replace_quote-escaped s)
    ∙ replace_backslash-doubled s
