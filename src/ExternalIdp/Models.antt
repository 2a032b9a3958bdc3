-- ===== src/ExternalIdp/Models.antt =====
-- src/temis_sso/external_idp/models.py: the metadata of a provider, the request to its authorization
-- endpoint, and an identity that it vouches for.
use Prim.Native.Char.{Char, code}
use Prim.Native.String.{String, [], ◌∷◌}
use temis_sso_lab.Base.{
  Bool, ◌||◌, leb, nat_eq, Option, List, all, if◌then◌else◌, Result, ok, err, value_error,
}
use temis_sso_lab.Base.Text.{lower, starts_with}

pub record ProviderMetadata : Type 0 where
  pub issuer : String
  pub authorization_endpoint : String
  pub token_endpoint : String
  pub userinfo_endpoint : String
  pub revocation_endpoint : String
  pub jwks_uri : String

pub record AuthorizationRequest : Type 0 where
  pub url : String
  pub parameters : List (String × String)

pub record ExternalIdentity : Type 0 where
  pub provider : String
  pub subject : String
  pub email : Option String
  pub email_verified : Bool

-- What `urlparse` drops: control characters and spaces in front, tabs and line ends everywhere.
abbrev drop_front : String → String
drop_front [] = []
drop_front (c ∷ s) = let rest = drop_front s in if leb (code c) 32 then rest else c ∷ s

abbrev is_line_mark : Char → Bool
is_line_mark c = nat_eq (code c) 9 || nat_eq (code c) 10 || nat_eq (code c) 13

abbrev drop_line_marks : String → String
drop_line_marks [] = []
drop_line_marks (c ∷ s) = let rest = drop_line_marks s in if is_line_mark c then rest else c ∷ rest

-- `urlparse(value).scheme == "https"`
unfoldable pub is_https : String → Bool
is_https value = starts_with (lower (drop_line_marks (drop_front value))) "https:"

abbrev pub endpoints : ProviderMetadata → List String
endpoints metadata = List.◌∷◌ metadata.issuer (
    List.◌∷◌ metadata.authorization_endpoint (
      List.◌∷◌ metadata.token_endpoint (
        List.◌∷◌ metadata.userinfo_endpoint
          (List.◌∷◌ metadata.revocation_endpoint (List.◌∷◌ metadata.jwks_uri List.[])))))

-- `__post_init__`
unfoldable pub require_https : ProviderMetadata → Result ProviderMetadata
require_https metadata =
    if all is_https (endpoints metadata)
    then ok metadata
    else err (value_error "provider endpoints must use HTTPS")
