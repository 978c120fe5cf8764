-- ===== src/Css/Client.antt =====
-- packages/css/src/uma/UmaClient.ts: the configuration of an authorization server and the verification
-- of tokens. The answers of servers and the jose package are parameters: `decode_issuer` is
-- `decodeJwt(token).iss`, and `verify` is `jwtVerify` with the keys at a URL and an issuer. A body is
-- `none` where it is no JSON object. `now` is in milliseconds. The state is `configCache`.
pub mod Verified
use user_managed_access.Prelude.{
  String, Option, none, some, List, [], ◌∷◌, map, Bool, true, false, ◌&&◌, ◌==◌, if◌then◌else◌, get,
  put, Dict, all, contains, filter, is_empty, is_some, not, truthy, or_else, ℕ, ◌+◌, ltb, leb,
}
use user_managed_access.Http.{Outcome, ok, fail, plain_error}
use user_managed_access.Http.Exec.{Exec, ◌>>=◌, lift, pure}
use Prim.Native.String

-- A value in a JSON object.
pub data Value : Type 0 where
  text : String → Value
  boolean : Bool → Value
  other : Value

pub record Reply : Type 0 where
  pub status : ℕ
  pub json : Option (Dict Value)

-- The last two attributes are not checked by the code.
pub record UmaConfig : Type 0 where
  pub issuer : String
  pub jwks_uri : String
  pub permission_endpoint : String
  pub introspection_endpoint : String
  pub resource_registration_endpoint : String
  pub token_endpoint : Option Value
  pub registration_endpoint : Option Value

pub record Cached : Type 0 where
  pub config : UmaConfig
  pub expiration : ℕ

abbrev pub required_metadata : List String
required_metadata =
    "issuer"
    ∷ ("jwks_uri"
        ∷ ("permission_endpoint"
            ∷ ("introspection_endpoint" ∷ ("resource_registration_endpoint" ∷ []))))

abbrev pub is_text : Option Value → Bool
is_text (some (text s)) = true
is_text (some (boolean b)) = false
is_text (some other) = false
is_text none = false

abbrev pub text_of : Option Value → String
text_of (some (text s)) = s
text_of _ = ""

abbrev pub typed_config : Dict Value → UmaConfig
typed_config d = record {
  issuer = text_of (get d "issuer");
  jwks_uri = text_of (get d "jwks_uri");
  permission_endpoint = text_of (get d "permission_endpoint");
  introspection_endpoint = text_of (get d "introspection_endpoint");
  resource_registration_endpoint = text_of (get d "resource_registration_endpoint");
  token_endpoint = get d "token_endpoint";
  registration_endpoint = get d "registration_endpoint";
}

-- The checks of `fetchUmaConfig` on an answer.
unfoldable pub read_config : Reply → Outcome UmaConfig
read_config reply = if leb 400 reply.status then fail plain_error else elim reply.json [
  | none ↦ fail plain_error
  | some configuration ↦
      if is_empty (filter (λ name. not (is_some (get configuration name))) required_metadata)
      then if is_empty (filter (λ name. not (is_text (get configuration name))) required_metadata)
        then ok (typed_config configuration)
        else fail plain_error
      else fail plain_error
]

-- `fetch` is a GET of a URL.
unfoldable pub refresh_config : (String → Reply) → ℕ → String → Exec (Dict Cached) UmaConfig
unfolding read_config
refresh_config fetch now issuer s =
    elim (read_config (fetch (String.◌++◌ issuer "/.well-known/uma2-configuration"))) [
      | fail e ↦ (fail e, s)
      | ok config ↦
          (ok config, put s issuer (record { config = config; expiration = now + 300000 }))
    ]

unfoldable pub fetch_uma_config : (String → Reply) → ℕ → String → Exec (Dict Cached) UmaConfig
unfolding refresh_config
fetch_uma_config fetch now issuer s = elim (get s issuer) [
  | none ↦ refresh_config fetch now issuer s
  | some cached ↦
      if ltb now cached.expiration then (ok cached.config, s) else refresh_config fetch now issuer s
]

-- An entry of `permissions`: `in` throws where it is no object. Scopes are `none` where they are no array.
pub data Entry : Type 0 where
  primitive : Entry
  entry : (resource_id : Option Value) → (resource_scopes : Option (Option (List Value))) → Entry

-- `permissions` may be missing, and may be no array.
pub record Payload : Type 0 where
  pub permissions : Option (Option (List Entry))
  pub claims : Dict Value

-- What `jwtVerify` is given: a text, or the object that an introspection answered with.
pub data Token : Type 0 where
  compact : String → Token
  parsed : Dict Value → Token

pub record Jose : Type 0 where
  pub decode_issuer : String → Outcome (Option String)
  pub verify : Token → (jwks issuer : String) → Outcome Payload

unfoldable pub is_valid_entry : Entry → Bool
is_valid_entry (entry id (some (some scopes))) = is_text id && all (λ s. is_text (some s)) scopes
is_valid_entry (entry id (some none)) = false
is_valid_entry (entry id none) = false
is_valid_entry primitive = false

abbrev pub entries_of : Payload → List Entry
entries_of payload = or_else (or_else payload.permissions none) []

unfoldable pub check_payload : Payload → Outcome Payload
unfolding is_valid_entry
check_payload payload =
    if all is_valid_entry (entries_of payload) then ok payload else fail plain_error

-- The answer of the introspection endpoint, of which `active` is compared with the text `true`.
unfoldable pub read_introspection : Reply → Outcome (Dict Value)
read_introspection reply = if leb 400 reply.status then fail plain_error else elim reply.json [
  | none ↦ fail plain_error
  | some jwt ↦
      if is_text (get jwt "active") && (text_of (get jwt "active") == "true")
      then ok jwt
      else fail plain_error
]

module _ (jose : Jose) where
  unfoldable pub verify_token_data : Token → String → String → Outcome Payload
  unfolding check_payload
  verify_token_data token issuer jwks = elim (jose.verify token jwks issuer) [
    | fail e ↦ fail e
    | ok payload ↦ check_payload payload
  ]

  -- The `try` block: each error becomes one with another message.
  unfoldable pub token_config :
      (String → Reply) → ℕ → String → List String → Exec (Dict Cached) UmaConfig
  unfolding fetch_uma_config
  token_config fetch now token valid_issuers s = elim (jose.decode_issuer token) [
    | fail e ↦ (fail plain_error, s)
    | ok issuer ↦
        if truthy issuer
        then if contains valid_issuers (or_else issuer "")
          then fetch_uma_config fetch now (or_else issuer "") s
          else (fail plain_error, s)
        else (fail plain_error, s)
  ]

  unfoldable pub verify_jwt_token :
      (String → Reply) → ℕ → String → List String → Exec (Dict Cached) Payload
  unfolding token_config verify_token_data
  verify_jwt_token fetch now token valid_issuers =
      token_config fetch now token valid_issuers >>= λ config.
      lift (verify_token_data (compact token) config.issuer config.jwks_uri)

  -- `post` is the answer of an endpoint to a token.
  unfoldable pub verify_opaque_token :
      (String → Reply)
      → (String → String → Reply)
      → ℕ
      → String
      → String
      → Exec (Dict Cached) Payload
  unfolding fetch_uma_config read_introspection verify_token_data
  verify_opaque_token fetch post now token issuer = fetch_uma_config fetch now issuer >>= λ config.
      lift (read_introspection (post config.introspection_endpoint token)) >>= λ jwt.
      lift (verify_token_data (parsed jwt) config.issuer config.jwks_uri)
