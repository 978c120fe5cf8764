-- ===== src/Routes/Token.antt =====
-- packages/uma/src/routes/Token.ts and routes/token/RefreshTokenHandler.ts: the token endpoint. A body
-- is `none` where `reType` refuses it. The negotiator and the handler of UMA protection requests are
-- arguments; the negotiator may work on the store of the refresh tokens too, which `refreshes` reads
-- and `set_refreshes` replaces in the server's state `S`. A request
-- takes no time here, so that a storage that drops expired entries is a plain one while it lasts.
pub mod Refresh
use user_managed_access.Prelude.{
  String, Option, none, some, List, Bool, true, false, ◌==◌, ◌≡◌, not, if◌then◌else◌, truthy,
  or_else, ℕ, ltb,
}
use user_managed_access.Http.{
  Outcome, ok, fail, HttpError, bad_request, forbidden, need_info, RequiredClaim,
}
use user_managed_access.Http.Exec.{Exec, ◌>>=◌, pure}
use user_managed_access.Storage.{KeyValueStorage}
use user_managed_access.Views.{Permission, refresh_token_format}
use user_managed_access.Dialog.{DialogInput, DialogOutput, no_token, one_token}
use user_managed_access.Tokens.{RefreshInformation}

abbrev pub grant_type_uma_ticket : String
grant_type_uma_ticket = "urn:ietf:params:oauth:grant-type:uma-ticket"

abbrev pub uma_protection_scope : String
uma_protection_scope = "uma_protection"

-- Status 200 (201 from the protection handler) with a token, and 403 with a ticket and what is required.
pub data TokenResponse : Type 0 where
  answered : DialogOutput → TokenResponse
  needs_info : String → List RequiredClaim → TokenResponse

-- What the refresh handler asks of the negotiator.
abbrev pub refresh_input : List Permission → String → DialogInput
refresh_input permissions token = record {
  grant_type = none;
  ticket = none;
  claim_token = one_token token;
  claim_token_format = some refresh_token_format;
  permissions = some permissions;
  scope = none;
  refresh_token = none;
}

abbrev is_text : String → Option String → Bool
is_text s t = elim t [ none ↦ false | some u ↦ u == s ]

-- Where the refresh tokens stand in the state of the server.
pub record RefreshStore (S : Type 0) : Type 1 where
  pub storage : KeyValueStorage RefreshInformation
  pub refreshes : S → storage.State
  pub set_refreshes : S → storage.State → S
  pub refreshes-set_refreshes : (s : S) (f : storage.State) → refreshes (set_refreshes s f) ≡ f

module _ {S : Type 0} (store : RefreshStore S)
    (negotiator : DialogInput → Exec S DialogOutput) where
  abbrev pub find_refresh : S → String → Option RefreshInformation
  find_refresh s token = store.storage.get (store.refreshes s) token

  abbrev pub delete_refresh : String → S → S
  delete_refresh token s = store.set_refreshes s (store.storage.delete (store.refreshes s) token)

  -- From the lookup of the token on.
  unfoldable pub use_refresh_token : ℕ → String → Exec S TokenResponse
  use_refresh_token now token s = elim (find_refresh s token) [
    | none ↦ (fail bad_request, s)
    | some information ↦
        if ltb information.expiration now
        then (fail forbidden, delete_refresh token s)
        else (negotiator (refresh_input information.permissions token) >>= λ response t.
              (ok (answered response), delete_refresh token t))
            s
  ]

  unfoldable pub handle_refresh : ℕ → Option DialogInput → Exec S TokenResponse
  handle_refresh now none s = (fail bad_request, s)
  handle_refresh now (some params) s =
      if is_text "refresh_token" params.grant_type
      then if truthy params.refresh_token
        then use_refresh_token now (or_else params.refresh_token "") s
        else (fail bad_request, s)
      else (fail bad_request, s)

  unfoldable pub handle_uma_grant : DialogInput → Exec S TokenResponse
  handle_uma_grant params s =
      let (r, t) = negotiator params s in
      elim r [
        | ok response ↦ (ok (answered response), t)
        | fail (need_info ticket required) ↦ (ok (needs_info ticket required), t)
        | fail e ↦ (fail e, t)
      ]

  unfoldable pub handle_token :
      (Option DialogInput → Exec S TokenResponse) → ℕ → Option DialogInput → Exec S TokenResponse
  unfolding handle_refresh handle_uma_grant
  handle_token uma_protection now none s = (fail bad_request, s)
  handle_token uma_protection now (some params) s =
      if is_text uma_protection_scope params.scope
      then uma_protection (some params) s
      else if is_text "refresh_token" params.grant_type
      then handle_refresh now (some params) s
      else if is_text grant_type_uma_ticket params.grant_type
      then handle_uma_grant params s
      else (fail bad_request, s)
