-- ===== src/Csrf.antt =====
-- api/csrf.py: the double-submit token. An absent cookie or header is none; a random token is an
-- argument.
use text.Mathlib.Text.{◌==◌ as str_eq}
use chat_doc.Prelude.{Bool, Option, String, false, if◌then◌else◌, none, not, some, ◌&&◌}

abbrev pub csrf_error : String
csrf_error = "csrf token missing or invalid"

-- Whether `verify_csrf` lets a request through: both tokens present, not empty, and the same.
unfoldable pub verify_csrf : Option String → Option String → Bool
verify_csrf none header = false
verify_csrf (some cookie) none = false
verify_csrf (some cookie) (some header) =
    not (str_eq cookie "") && not (str_eq header "") && str_eq cookie header

-- The token of `issue_csrf_cookie`, set as the cookie and as the response header: the one given, or
-- a fresh one where it is absent or empty.
unfoldable pub issue_csrf_cookie : String → Option String → String
issue_csrf_cookie fresh none = fresh
issue_csrf_cookie fresh (some token) = if str_eq token "" then fresh else token
