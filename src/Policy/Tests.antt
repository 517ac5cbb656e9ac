-- ===== src/Policy/Tests.antt =====
-- internal/server/restrict.go: the policy at concrete requests.
use tablex.Common.{[], true, List, ◌∷◌, none, ◌≡◌, ◌≢◌, inl, refl, bytes}
use tablex.Policy.{
  RestrictConfig, Request, Answer, restrict, database_of, safe_method, is_public_path,
}
use tablex.Policy.Segments.{Glyph, database_of-spelled}
use tablex.Policy.Decision.{Reaches, restrict_served, unclassified_fails_closed}

-- "%64b", and "a%2Fb".
abbrev prefix : List Glyph
prefix = Glyph.escape b'6' b'4' ∷ Glyph.literal b'b' ∷ []

abbrev name : List Glyph
name = Glyph.literal b'a' ∷ Glyph.escape b'2' b'F' ∷ Glyph.literal b'b' ∷ []

database_of-spelled_example : database_of (bytes "/%64b/a%2Fb/tables") ≡ bytes "a/b"
database_of-spelled_example =
    database_of-spelled prefix name (bytes "/tables") (refl, refl, (refl, refl, tt))
      (refl, refl, (refl, refl, (refl, refl, tt))) refl (λ e. cc) refl

abbrev read_only : RestrictConfig
read_only = record {
  read_only = true;
  allow_console = true;
  allow_ddl = true;
  databases = bytes "main" ∷ [];
}

abbrev posted : Request
posted = record {
  method = bytes "POST";
  path = bytes "/x";
  escaped_path = bytes "/x";
  entry = none;
  pattern = [];
}

restrict_served_example :
    (restrict read_only posted ≡ Answer.served → Reaches read_only posted)
    × (Reaches read_only posted → restrict read_only posted ≡ Answer.served)
restrict_served_example = restrict_served read_only posted

unclassified_fails_closed_example : restrict read_only posted ≢ Answer.served
unfolding safe_method is_public_path
unclassified_fails_closed_example =
    unclassified_fails_closed read_only posted (inl refl) refl refl (inl refl)
