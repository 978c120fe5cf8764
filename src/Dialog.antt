-- ===== src/Dialog.antt =====
-- packages/uma/src/dialog: the negotiation of a token. This module has the data of a dialog
-- (Input.ts, Output.ts) and the interfaces of the parts that a negotiator calls: Verifier.ts,
-- tokens/TokenFactory.ts and tokens/RefreshTokenIssuer.ts. `W` is the state of those parts, which
-- may share stores; the ticket store stands beside it. Identifiers that the code draws with
-- `randomUUID()`, and the time, are arguments.
pub mod Base
use user_managed_access.Prelude.{String, Option, List, Bool, ℕ}
use user_managed_access.Http.Exec.{Exec}
use user_managed_access.Views.{Permission, AccessToken, SerializedToken, Credential, ClaimSet}

-- One entry of a list of claim tokens.
pub record ClaimToken : Type 0 where
  pub token : Option String
  pub format : Option String

-- The field `claim_token`: missing, a text, or a list.
pub data ClaimTokens : Type 0 where
  no_token : ClaimTokens
  one_token : String → ClaimTokens
  many_tokens : List ClaimToken → ClaimTokens

-- The fields that the code reads.
pub record DialogInput : Type 0 where
  pub grant_type : Option String
  pub ticket : Option String
  pub claim_token : ClaimTokens
  pub claim_token_format : Option String
  pub permissions : Option (List Permission)
  pub scope : Option String
  pub refresh_token : Option String

pub record DialogOutput : Type 0 where
  pub access_token : String
  pub refresh_token : Option String
  pub token_type : String
  pub partial : Bool
  pub expires_in : Option ℕ
  pub derivation_resource_id : Option String

-- The new identifiers and the time of one call.
pub record Draw : Type 0 where
  pub token_id : String
  pub refresh_id : String
  pub ticket_id : String
  pub now : ℕ

pub record Verifier (W : Type 0) : Type 0 where
  pub verify : ℕ → Credential → Exec W ClaimSet

pub record TokenFactory (W : Type 0) : Type 0 where
  pub serialize : String → AccessToken → Exec W SerializedToken
  pub deserialize : String → Exec W AccessToken

pub record RefreshTokenIssuer (W : Type 0) : Type 0 where
  pub issue : String → ℕ → ClaimSet → List Permission → Exec W String

-- The ticket store and the state of all other parts.
pub record World (T W : Type 0) : Type 0 where
  pub tickets : T
  pub others : W
