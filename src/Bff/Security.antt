-- ===== src/Bff/Security.antt =====
-- src/temis_bff/security.py: return paths, the check against forged requests, the cookie's name.
use Prim.Native.Char.{code}
use Prim.Native.String.{String, [], ◌∷◌}
use temis_sso_lab.Base.{
  type_error, ◌&&◌, Bool, true, false, not, ◌||◌, ◌==◌, ltb, Option, none, some, if◌then◌else◌,
  Result, ok, err, request_rejected,
}
use temis_sso_lab.Base.Text.{starts_with, has_text}

-- `unquote`, and the scheme and the location of `urlsplit`.
pub record Urls : Type 0 where
  pub unquote : String → String
  pub scheme : String → String
  pub netloc : String → String

-- `any(ord(character) < 32 for character in s)`
unfoldable pub has_control : String → Bool
has_control [] = false
has_control (c ∷ s) = ltb (code c) 32 || has_control s

-- The condition of `safe_return_path`.
abbrev pub is_unsafe : Urls → String → Bool
is_unsafe urls decoded =
    not (starts_with decoded "/")
    || starts_with decoded "//"
    || not (urls.scheme decoded == "")
    || not (urls.netloc decoded == "")
    || has_text decoded "\\"
    || has_control decoded

unfoldable pub safe_return_path : Urls → String → Result String
safe_return_path urls value =
    let decoded = urls.unquote value in
    if is_unsafe urls decoded
    then err (request_rejected "return path must be local")
    else ok decoded

-- `origin != expected`, for a header that may be missing.
abbrev pub is_origin : Option String → String → Bool
is_origin none expected = false
is_origin (some origin) expected = origin == expected

-- `s.isascii()`
unfoldable pub is_ascii : String → Bool
is_ascii [] = true
is_ascii (c ∷ s) = ltb (code c) 128 && is_ascii s

-- `hmac.compare_digest` takes texts of ASCII characters only.
abbrev check_token : Option String → String → Result (Unit {0})
check_token none saved = err (request_rejected "csrf token mismatch")
check_token (some supplied) saved =
    if not (is_ascii supplied && is_ascii saved)
    then err (type_error "comparing strings with non-ASCII characters is not supported")
    else if supplied == saved
    then ok tt
    else err (request_rejected "csrf token mismatch")

unfoldable pub require_csrf : Option String → String → Option String → String → Result (Unit {0})
require_csrf origin expected_origin supplied saved =
    if is_origin origin expected_origin
    then check_token supplied saved
    else err (request_rejected "origin mismatch")

-- The key of `session_cookie`.
abbrev pub cookie_name : Bool → String
cookie_name true = "__Host-temis_session"
cookie_name false = "temis_session"
