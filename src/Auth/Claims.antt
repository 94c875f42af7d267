-- ===== src/Auth/Claims.antt =====
-- The claims of a token as auth/validator.go and auth/middleware.go read them. A JSON number is taken
-- as the integer that the source converts it to; times are seconds since 1970, far below the years
-- where `time.Time` wraps.
use iroum_ax.Prelude.{String, ℤ, Option, none, some, List, [], ◌∷◌, if◌then◌else◌, ◌==◌}
use iroum_ax.Prelude.Text.{fields, is_space}
use iroum_ax.Auth.Rbac.{User}

mutual
  pub data Json : Type 0 where
    text : String → Json
    number : ℤ → Json
    array : Items → Json
    object : Claims → Json
    -- `null`, `true` and `false`.
    other : Json

  pub data Items : Type 0 where
    nil : Items
    item : Json → Items → Items

  -- `jwt.MapClaims`, whose keys differ.
  pub data Claims : Type 0 where
    end : Claims
    claim : String → Json → Claims → Claims

-- `claims[key]`.
unfoldable pub get : String → Claims → Option Json
get key end = none
get key (claim k v cs) = if k == key then some v else get key cs

-- `v, _ := claims[key].(string)`.
abbrev pub text_or_empty : Option Json → String
text_or_empty (some (text s)) = s
text_or_empty _ = ""

-- The strings of a `[]any`.
unfoldable pub strings : Items → List String
strings nil = []
strings (item (text s) more) = s ∷ strings more
strings (item _ more) = strings more

abbrev time_of : Option Json → Option ℤ
time_of (some (number n)) = some n
time_of _ = none

unfoldable pub get_time_claim_unix : Claims → String → Option ℤ
unfolding get
get_time_claim_unix claims key = time_of (get key claims)

abbrev audience_of : Option Json → List String
audience_of (some (text s)) = s ∷ []
audience_of (some (array xs)) = strings xs
audience_of _ = []

unfoldable pub extract_audience : Claims → List String
unfolding get strings
extract_audience claims = audience_of (get "aud" claims)

-- What one key of the loop returns, none where the loop goes on.
abbrev scopes_of : Option Json → Option (List String)
scopes_of (some (text s)) = if s == "" then none else some (fields s)
scopes_of (some (array xs)) = some (strings xs)
scopes_of _ = none

unfoldable scopes_under : List String → Claims → List String
unfolding get strings fields is_space
scopes_under [] claims = []
scopes_under (key ∷ keys) claims = elim (scopes_of (get key claims)) [
  | none ↦ scopes_under keys claims
  | some scopes ↦ scopes
]

unfoldable pub extract_scopes : Claims → List String
unfolding scopes_under
extract_scopes claims = scopes_under ("scp" ∷ "scope" ∷ []) claims

pub record ValidatedToken : Type 0 where
  -- none is the zero time.
  pub expires_at : Option ℤ
  pub claims : Claims
  pub subject : String
  pub issuer : String
  pub audience : List String
  pub scopes : List String

abbrev array_strings : Option Json → List String
array_strings (some (array xs)) = strings xs
array_strings _ = []

abbrev realm_roles : Option Json → List String
realm_roles (some (object realm)) = array_strings (get "roles" realm)
realm_roles _ = []

abbrev first_roles : List String → List String → List String
first_roles [] realm = realm
first_roles (r ∷ roles) realm = r ∷ roles

unfoldable pub validated_token_to_user : ValidatedToken → User
unfolding get strings
validated_token_to_user vt = record {
  uid = vt.subject;
  issuer = vt.issuer;
  roles =
      first_roles (array_strings (get "roles" vt.claims))
        (realm_roles (get "realm_access" vt.claims));
  scopes = vt.scopes;
}
