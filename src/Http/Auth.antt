-- ===== src/Http/Auth.antt =====
-- Whom `rss_http_check_basic_auth` (src/rss_http.c) lets in.
use raptor_common.Base.{true, drop, codes, ◌⊎◌, [], ◌∷◌, ◌++◌, Bytes, ◌≡◌}
use raptor_common.Text.{starts_with_case}

-- What stands in front of a line: nothing, or a text that ends with a newline.
abbrev pub EndsLine : Bytes → Type 0
EndsLine before = (before ≡ []) ⊎ ((front : Bytes) × (before ≡ front ++ b'\n' ∷ []))

-- The credentials behind the name of the header, in any spelling, at the start of a line.
pub record IsAuth (request auth : Bytes) : Type 0 where
  pub before : Bytes
  pub line : Bytes
  pub split : request ≡ before ++ line
  pub starts : EndsLine before
  pub named : starts_with_case line (codes "Authorization: Basic ") ≡ true
  pub behind : auth ≡ drop 21 line
