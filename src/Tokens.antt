-- ===== src/Tokens.antt =====
-- packages/uma/src/tokens: OpaqueTokenFactory.ts and StoredRefreshTokenIssuer.ts, with the verifier of
-- credentials/verify/RefreshTokenVerifier.ts. The two stores are one state, as a server has them. The
-- store of the refresh tokens drops an entry by itself when the time with which it was written is over;
-- the verifier looks at the time in the entry besides.
pub mod Refreshing
use user_managed_access.Prelude.{
  String, Option, none, some, List, Bool, true, false, ◌==◌, if◌then◌else◌, ℕ, ◌+◌, ltb,
}
use user_managed_access.Http.{Outcome, ok, fail, bad_request, forbidden, plain_error}
use user_managed_access.Http.Exec.{Exec}
use user_managed_access.Storage.{KeyValueStorage}
use user_managed_access.Storage.Expiring.{ExpiringStorage}
use user_managed_access.Views.{
  Permission, AccessToken, SerializedToken, ClaimSet, Credential, refresh_token_format,
}
use user_managed_access.Dialog.{TokenFactory, RefreshTokenIssuer, Verifier}

pub record RefreshInformation : Type 0 where
  pub claims : ClaimSet
  pub permissions : List Permission
  pub expiration : ℕ

pub record Tokens (T F : Type 0) : Type 0 where
  pub accesses : T
  pub refreshes : F

module _ (T : KeyValueStorage AccessToken) (F : ExpiringStorage RefreshInformation) where
  unfoldable pub serialize : String → AccessToken → Exec (Tokens T.State F.State) SerializedToken
  serialize id token s = (
    ok (record { token_type = "Bearer"; token = id }),
    record s { accesses = T.set s.accesses id token },
  )

  unfoldable pub deserialize : String → Exec (Tokens T.State F.State) AccessToken
  deserialize token s = elim (T.get s.accesses token) [
    | some retrieved ↦ (ok retrieved, s)
    | none ↦ (fail plain_error, s)
  ]

  abbrev pub opaque_token_factory : TokenFactory (Tokens T.State F.State)
  opaque_token_factory = record { serialize = serialize; deserialize = deserialize }

  -- `refresh_expiration` is in milliseconds.
  unfoldable pub issue :
      ℕ → String → ℕ → ClaimSet → List Permission → Exec (Tokens T.State F.State) String
  issue refresh_expiration id now claims permissions s = (
    ok id,
    record s {
      refreshes =
          F.set s.refreshes now id
            (record {
              claims = claims;
              permissions = permissions;
              expiration = now + refresh_expiration;
            })
            refresh_expiration;
    },
  )

  abbrev pub stored_refresh_token_issuer : ℕ → RefreshTokenIssuer (Tokens T.State F.State)
  stored_refresh_token_issuer refresh_expiration = record { issue = issue refresh_expiration }

  unfoldable pub verify_refresh_token : ℕ → Credential → Exec (Tokens T.State F.State) ClaimSet
  verify_refresh_token now credential s =
      if credential.format == refresh_token_format
      then elim (F.get s.refreshes now credential.token) [
        | none ↦ (fail bad_request, s)
        | some information ↦
            if ltb information.expiration now
            then (fail forbidden, record s { refreshes = F.delete s.refreshes credential.token })
            else (ok information.claims, s)
      ]
      else (fail bad_request, s)

  abbrev pub refresh_token_verifier : Verifier (Tokens T.State F.State)
  refresh_token_verifier = record { verify = verify_refresh_token }
