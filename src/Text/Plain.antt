-- ===== src/Text/Plain.antt =====
-- The characters of file names: `sanitize` of tools/migrate_results.py and `filename_slug` of
-- tools/ghalo_analyze.py replace all others.
use g_halo.Text.{Text, or_else, lstrip, keep_right, rstrip, strip_by}
use g_halo.Text.Number.{is_digit}
use g_halo.Prelude.{
  ℕ, Bool, leb, All, ◌≡◌, ◌≢◌, ◌∷◌, ◌&&◌, false, true, Bool-cases, [], ◌||◌, if◌then◌else◌, inl,
  ◌==◌, inr, nat_eq,
}

-- the class [A-Za-z0-9._-]
unfoldable pub is_plain : ℕ → Bool
unfolding is_digit
is_plain c =
    (leb b'A' c && leb c b'Z')
    || (leb b'a' c && leb c b'z')
    || is_digit c
    || c == b'.'
    || c == b'_'
    || c == b'-'

-- re.sub(r"[^A-Za-z0-9._-]+", mark, s); `run` holds that the last character was replaced
unfoldable pub squeeze : ℕ → Bool → Text → Text
unfolding is_plain
squeeze mark run [] = []
squeeze mark run (c ∷ s) =
    let plain = c ∷ squeeze mark false s in
    let other = squeeze mark true s in
    if is_plain c then plain else if run then other else mark ∷ other

-- every character is plain
abbrev pub IsPlainText : Text → Type 0
IsPlainText s = All (λ c. is_plain c ≡ true) s

pub squeeze-IsPlainText :
    (mark : ℕ) (run : Bool) (s : Text) → is_plain mark ≡ true → IsPlainText (squeeze mark run s)
unfolding squeeze
squeeze-IsPlainText mark run [] m = tt
squeeze-IsPlainText mark run (c ∷ s) m = elim (Bool-cases (is_plain c)) [
  | inl h ↦ rw h (h, squeeze-IsPlainText mark false s m)
  | inr h ↦ rw h (skipped run (squeeze-IsPlainText mark true s m))
]
  where
    skipped :
        (replaced : Bool)
        → IsPlainText (squeeze mark true s)
        → IsPlainText (if replaced then squeeze mark true s else mark ∷ squeeze mark true s)
    skipped true rest = rest
    skipped false rest = (m, rest)

module _ (drop : ℕ → Bool) where
  lstrip-IsPlainText : (s : Text) → IsPlainText s → IsPlainText (lstrip drop s)
  unfolding lstrip
  lstrip-IsPlainText [] h = tt
  lstrip-IsPlainText (c ∷ s) h = elim (Bool-cases (drop c)) [
    | inl p ↦ rw p (lstrip-IsPlainText s h.1)
    | inr p ↦ rw p h
  ]

  keep_right-IsPlainText :
      (c : ℕ) (s : Text) → is_plain c ≡ true → IsPlainText s → IsPlainText (keep_right drop c s)
  unfolding keep_right
  keep_right-IsPlainText c [] h k = elim (Bool-cases (drop c)) [
    | inl p ↦ rw p tt
    | inr p ↦ rw p (h, tt)
  ]
  keep_right-IsPlainText c (d ∷ s) h k = (h, k)

  rstrip-IsPlainText : (s : Text) → IsPlainText s → IsPlainText (rstrip drop s)
  unfolding rstrip
  rstrip-IsPlainText [] h = tt
  rstrip-IsPlainText (c ∷ s) h =
      keep_right-IsPlainText c (rstrip drop s) h.0 (rstrip-IsPlainText s h.1)

  pub strip_by-IsPlainText : (s : Text) → IsPlainText s → IsPlainText (strip_by drop s)
  unfolding strip_by
  strip_by-IsPlainText s h = lstrip-IsPlainText (rstrip drop s) (rstrip-IsPlainText s h)

pub or_else-IsPlainText :
    (s default : Text) → IsPlainText s → IsPlainText default → IsPlainText (or_else s default)
unfolding or_else
or_else-IsPlainText [] default h k = k
or_else-IsPlainText (c ∷ s) default h k = h

pub or_else_nonempty : (s default : Text) → default ≢ [] → or_else s default ≢ []
unfolding or_else
or_else_nonempty [] default h e = h e
or_else_nonempty (c ∷ s) default h e = cc
