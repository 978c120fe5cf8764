-- ===== src/Routes/UmaProtection.antt =====
-- packages/uma/src/routes/token/UmaProtection.ts: the tokens with which a resource server calls the
-- protection API (PAT). The decoding of an `Authorization` header is a parameter: whether the scheme is
-- `Basic`, and the identifier and secret in it. `sign` makes the token of a client that expires at some
-- time. Times are in milliseconds, `token_expiration` is in seconds.
pub mod Rotation
use user_managed_access.Prelude.{
  String, Option, none, some, List, Bool, true, false, ◌==◌, ◌&&◌, if◌then◌else◌, truthy, or_else,
  ℕ, ◌+◌, ◌*◌, head?,
}
use user_managed_access.Http.{Outcome, ok, fail, bad_request, unauthorized, forbidden}
use user_managed_access.Http.Exec.{Exec, ◌>>=◌, lift}
use user_managed_access.Storage.Indexed.{IndexedStorage}
use user_managed_access.Dialog.{DialogInput, DialogOutput}
use user_managed_access.Routes.Token.{uma_protection_scope}

-- CLIENT_REGISTRATION_STORAGE_DESCRIPTION
pub record Client : Type 0 where
  pub client_name : Option String
  pub client_uri : String
  pub client_id : String
  pub client_secret : String
  pub user_id : String

-- A registration with its identifier in the storage.
pub record Registered : Type 0 where
  pub id : String
  pub client : Client

-- PAT_STORAGE_DESCRIPTION
pub record Pat : Type 0 where
  pub pat : String
  pub expiration : ℕ
  pub refresh_token : String
  pub registration : String

pub record Environment : Type 0 where
  pub is_basic : String → Bool
  pub credentials : String → Outcome (String × String)
  pub sign : Client → ℕ → String
  pub find_clients : (client_id client_secret : String) → List Registered
  pub token_expiration : ℕ

abbrev pub has_text : String → Option String → Bool
has_text s t = elim t [ none ↦ false | some u ↦ u == s ]

module _ (P : IndexedStorage Pat) (env : Environment) (fresh : String) (now : ℕ) where
  unfoldable pub find_registration : Option String → Outcome Registered
  find_registration none = fail unauthorized
  find_registration (some authorization) =
      if env.is_basic authorization
      then elim (env.credentials authorization) [
        | fail e ↦ fail e
        | ok (id, secret) ↦ elim (head? (env.find_clients id secret)) [
          | none ↦ fail forbidden
          | some match ↦ ok match
        ]
      ]
      else fail bad_request

  abbrev pub new_pat : Registered → Pat
  new_pat registration =
      let expiration = now + env.token_expiration * 1000 in
      record {
        pat = env.sign registration.client expiration;
        expiration = expiration;
        refresh_token = fresh;
        registration = registration.id;
      }

  abbrev pub token_output : Registered → DialogOutput
  token_output registration = record {
    access_token = (new_pat registration).pat;
    refresh_token = some fresh;
    token_type = "Bearer";
    partial = false;
    expires_in = some env.token_expiration;
    derivation_resource_id = none;
  }

  unfoldable pub generate_token : Registered → Option P.Key → Exec P.State DialogOutput
  generate_token registration none s =
      (ok (token_output registration), P.create s (new_pat registration))
  generate_token registration (some id) s =
      (ok (token_output registration), P.set s id (new_pat registration))

  -- `findIds`, of which the first is used.
  unfoldable pub first_match : P.State → (Pat → Bool) → Option P.Key
  first_match s query = elim (head? (P.find s query)) [ none ↦ none | some (i, e) ↦ some i ]

  unfoldable pub handle_client_credentials : Option String → Exec P.State DialogOutput
  handle_client_credentials authorization s = elim (find_registration authorization) [
    | fail e ↦ (fail e, s)
    | ok registration ↦
        generate_token registration (first_match s (λ p. p.registration == registration.id)) s
  ]

  -- Once an entry is found for the refresh token.
  unfoldable pub refresh_pat : P.Key → Pat → Option String → Exec P.State DialogOutput
  unfolding generate_token
  refresh_pat id entry authorization s = elim (find_registration authorization) [
    | fail e ↦ (fail e, s)
    | ok registration ↦
        if entry.registration == registration.id
        then generate_token registration (some id) s
        else (fail forbidden, s)
  ]

  unfoldable pub handle_refresh_token : Option String → Option String → Exec P.State DialogOutput
  handle_refresh_token refresh_token authorization s =
      if truthy refresh_token
      then elim (head? (P.find s (λ p. p.refresh_token == or_else refresh_token ""))) [
        | none ↦ (fail forbidden, s)
        | some (id, entry) ↦ refresh_pat id entry authorization s
      ]
      else (fail bad_request, s)

  -- `none` is a body that `reType` refuses.
  unfoldable pub handle_protection : Option DialogInput → Option String → Exec P.State DialogOutput
  handle_protection none authorization s = (fail bad_request, s)
  handle_protection (some params) authorization s =
      if has_text uma_protection_scope params.scope
      then if has_text "client_credentials" params.grant_type
        then handle_client_credentials authorization s
        else if has_text "refresh_token" params.grant_type
        then handle_refresh_token params.refresh_token authorization s
        else (fail bad_request, s)
      else (fail bad_request, s)
