-- ===== src/Css/Client/Verified.antt =====
-- What a token that `UmaClient` accepts rests on, and the answers that it refuses.
use user_managed_access.Prelude.{
  String, none, some, List, ◌∷◌, Bool, true, ◌≡◌, ◌⊎◌, inl, inr, refl, sym, ap, ◌∙◌, leb, get, Dict,
  all, contains, truthy, ℕ, ltb, arith, Bool-cases, Option-cases,
}
use Prim.Native.String
use user_managed_access.Http.{ok, fail, HttpError, plain_error, Outcome-cases}
use user_managed_access.Http.Exec.{>>=-eq-ok}
use user_managed_access.Routes.Introspection.{IntrospectionResponse}
use user_managed_access.Css.Client.{
  Value, boolean, Reply, UmaConfig, Cached, read_config, refresh_config, fetch_uma_config, Payload,
  Token, Jose, compact, is_valid_entry, entries_of, check_payload, verify_token_data, token_config,
  verify_jwt_token, read_introspection, verify_opaque_token,
}

-- A configuration that is cached and not too old, or one that the server just gave.
abbrev pub IsConfig : (String → Reply) → ℕ → String → Dict Cached → UmaConfig → Type 0
IsConfig fetch now issuer s config =
    ((cached : Cached) × (get s issuer ≡ some cached)
      × (ltb now cached.expiration ≡ true)
      × (cached.config ≡ config))
    ⊎ (read_config (fetch (String.◌++◌ issuer "/.well-known/uma2-configuration")) ≡ ok config)

refresh_config_ok :
    (fetch : String → Reply) (now : ℕ) (issuer : String) (s t : Dict Cached) (config : UmaConfig)
    → refresh_config fetch now issuer s ≡ (ok config, t)
    → read_config (fetch (String.◌++◌ issuer "/.well-known/uma2-configuration")) ≡ ok config
unfolding refresh_config
refresh_config_ok fetch now issuer s t config h =
    elim (Outcome-cases
      (read_config (fetch (String.◌++◌ issuer "/.well-known/uma2-configuration")))) [
        | inr (e, failed) ↦ absurd (ground (arith, h, failed))
        | inl (found, fine) ↦ fine ∙ ap ok (ground (arith, h, fine))
      ]

IsConfig-fetch_uma_config :
    (fetch : String → Reply) (now : ℕ) (issuer : String) (s t : Dict Cached) (config : UmaConfig)
    → fetch_uma_config fetch now issuer s ≡ (ok config, t)
    → IsConfig fetch now issuer s config
unfolding fetch_uma_config
IsConfig-fetch_uma_config fetch now issuer s t config h = elim (Option-cases (get s issuer)) [
  | inl missing ↦ inr (refresh_config_ok fetch now issuer s t config (ground (arith, h, missing)))
  | inr (cached, there) ↦ elim (Bool-cases (ltb now cached.expiration)) [
    | inl valid ↦ inl (cached, there, valid, ground (arith, h, there, valid))
    | inr expired ↦
        inr (refresh_config_ok fetch now issuer s t config (ground (arith, h, there, expired)))
  ]
]

-- An answer of the introspection endpoint, as JSON.
abbrev pub introspection_reply : ℕ → Bool → Dict Value → Reply
introspection_reply status active rest = record {
  status = status;
  json = some (("active", boolean active) ∷ rest);
}

refused_boolean :
    (status : ℕ) (b : Bool) (rest : Dict Value)
    → read_introspection (introspection_reply status b rest) ≡ fail plain_error
unfolding read_introspection
refused_boolean status b rest = elim (Bool-cases (leb 400 status)) [
  | inl refused ↦ rw (refused, read_introspection) refl
  | inr answered ↦ rw (answered, read_introspection) refl
]

module _ (jose : Jose) where
  verify_token_data_ok :
      (token : Token) (issuer jwks : String) (payload : Payload)
      → verify_token_data jose token issuer jwks ≡ ok payload
      → (jose.verify token jwks issuer ≡ ok payload)
        × (all is_valid_entry (entries_of payload) ≡ true)
  unfolding verify_token_data check_payload
  verify_token_data_ok token issuer jwks payload h =
      elim (Outcome-cases (jose.verify token jwks issuer)) [
        | inr (e, failed) ↦ absurd (ground (arith, h, failed))
        | inl (found, fine) ↦ elim (Bool-cases (all is_valid_entry (entries_of found))) [
          | inr bad ↦ absurd (ground (arith, h, fine, bad))
          | inl good ↦
              let same : found ≡ payload = ground (arith, h, fine, good) in
              (fine ∙ ap ok same, sym (ap (λ p. all is_valid_entry (entries_of p)) same) ∙ good)
        ]
      ]

  token_config_ok :
      (fetch : String → Reply) (now : ℕ) (token : String) (valid_issuers : List String)
      (s t : Dict Cached) (config : UmaConfig)
      → token_config jose fetch now token valid_issuers s ≡ (ok config, t)
      → (issuer : String) × (jose.decode_issuer token ≡ ok (some issuer))
        × (contains valid_issuers issuer ≡ true)
        × IsConfig fetch now issuer s config
  unfolding token_config
  token_config_ok fetch now token valid_issuers s t config h =
      elim (Outcome-cases (jose.decode_issuer token)) [
        | inr (e, failed) ↦ absurd (ground (arith, h, failed))
        | inl (none, anonymous) ↦ absurd (ground (arith, h, anonymous))
        | inl (some issuer, named) ↦ elim (Bool-cases (truthy (some issuer))) [
          | inr empty ↦ absurd (ground (arith, h, named, empty))
          | inl full ↦ elim (Bool-cases (contains valid_issuers issuer)) [
            | inr foreign ↦ absurd (ground (arith, h, named, full, foreign))
            | inl known ↦ (
              issuer,
              named,
              known,
              IsConfig-fetch_uma_config fetch now issuer s t config
                  (ground (arith, h, named, full, known)),
            )
          ]
        ]
      ]

  -- A signed token that is accepted names an issuer among those of the owners. Its signature was
  -- verified with the keys and the name of the configuration that this issuer publishes, and each entry
  -- of its permissions has an identifier and a list of scopes.
  pub verify_jwt_token_sound :
      (fetch : String → Reply) (now : ℕ) (token : String) (valid_issuers : List String)
      (s t : Dict Cached) (payload : Payload)
      → verify_jwt_token jose fetch now token valid_issuers s ≡ (ok payload, t)
      → (issuer : String) × (config : UmaConfig) × (jose.decode_issuer token ≡ ok (some issuer))
        × (contains valid_issuers issuer ≡ true)
        × IsConfig fetch now issuer s config
        × (jose.verify (compact token) config.jwks_uri config.issuer ≡ ok payload)
        × (all is_valid_entry (entries_of payload) ≡ true)
  unfolding verify_jwt_token
  verify_jwt_token_sound fetch now token valid_issuers s t payload h =
      let (config, u, found, rest) =
        >>=-eq-ok (token_config jose fetch now token valid_issuers) _ s t payload h in
      let (issuer, named, known, published) =
        token_config_ok fetch now token valid_issuers s u config found in
      let (verified, valid) =
        verify_token_data_ok (compact token) config.issuer config.jwks_uri payload
          (ap (λ p. p.0) rest) in
      (issuer, config, named, known, published, verified, valid)

  -- The introspection endpoint of the authorization server answers with the Boolean `active` and the
  -- data of the token. The client refuses every such answer, also where the token is active.
  pub verify_opaque_token-introspection :
      (fetch : String → Reply) (now : ℕ) (token issuer : String) (s : Dict Cached)
      (response : IntrospectionResponse) (status : ℕ) (data_of : Dict Value)
      → (e : HttpError) × (t : Dict Cached) × (verify_opaque_token jose fetch
            (λ endpoint token. introspection_reply status response.active data_of)
            now
            token
            issuer
            s
          ≡ (fail e, t))
  unfolding verify_opaque_token
  verify_opaque_token-introspection fetch now token issuer s response status data_of =
      elim (Outcome-cases (fetch_uma_config fetch now issuer s).0) [
        | inr (e, failed) ↦
            (e, (fetch_uma_config fetch now issuer s).1, rw (failed, verify_opaque_token) refl)
        | inl (config, found) ↦ (
          plain_error,
          (fetch_uma_config fetch now issuer s).1,
          rw (found, refused_boolean status response.active data_of, verify_opaque_token) refl,
        )
      ]
