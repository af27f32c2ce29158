-- ===== src/Migrate/Names.antt =====
-- The names that `sanitize` of tools/migrate_results.py makes.
use g_halo.Text.Plain.{
  IsPlainText, is_plain, or_else_nonempty, or_else-IsPlainText, strip_by-IsPlainText,
  squeeze-IsPlainText,
}
use g_halo.Text.{Text, strip}
use g_halo.Migrate.{sanitize, underscores}
use g_halo.Prelude.{◌≢◌, [], ◌≡◌, true, ◌==◌, false, refl, nat_eq}

-- If the default is not empty and all its characters are plain, then so is the sanitized name: it is
-- not empty, and it has only letters, digits, ".", "_" and "-" of ASCII.
pub sanitize-IsPlainText :
    (value default : Text)
    → default ≢ []
    → IsPlainText default
    → (sanitize value default ≢ []) × IsPlainText (sanitize value default)
unfolding sanitize
sanitize-IsPlainText value default ne plain = (
  or_else_nonempty _ default ne,
  or_else-IsPlainText _ default
      (strip_by-IsPlainText (λ c. c == b'_') _
        (squeeze-IsPlainText b'_' false (underscores (strip value)) underscore_plain))
      plain,
)
  where
    underscore_plain : is_plain b'_' ≡ true
    underscore_plain = unfold is_plain in refl
