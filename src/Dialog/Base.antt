-- ===== src/Dialog/Base.antt =====
-- packages/uma/src/dialog/BaseNegotiator.ts. All tickets of one dialog share one `provided` object
-- (see Ticketing/Strategy.antt), so the ticket that `denyRequest` stores has the claims of the updated one.
-- The entry in the operation log is left out.
pub mod Partial
pub mod Tickets
pub mod Verified
pub mod Granting
pub mod Covering
use user_managed_access.Prelude.{
  String, Option, none, some, List, [], ◌∷◌, Bool, true, false, not, ◌==◌, ◌&&◌, ◌||◌, ℕ, get,
  if◌then◌else◌, all, any, contains, is_empty, length, nat_beq, truthy, or_else,
}
use user_managed_access.Http.{
  Outcome, ok, fail, HttpError, bad_request, forbidden, need_info, RequiredClaim,
}
use user_managed_access.Http.Exec.{Exec, ◌>>=◌, ◌>>◌, pure, throw, lift, gets, modify}
use user_managed_access.Storage.{KeyValueStorage}
use user_managed_access.Ticketing.Strategy.{TicketingStrategy}
use user_managed_access.Views.{
  Permission, Ticket, ClaimSet, Claim, text, access, object, AccessToken, SerializedToken,
  Resolution, success, failure, webid, original_webid,
}
use user_managed_access.Dialog.{
  DialogInput, DialogOutput, ClaimToken, ClaimTokens, no_token, one_token, many_tokens, Draw,
  Verifier, TokenFactory, RefreshTokenIssuer, World,
}

abbrev pub is_match : Permission → Permission → Bool
is_match request grant =
    (grant.resource_id == request.resource_id)
    && (nat_beq (length grant.resource_scopes) (length request.resource_scopes)
        && all (contains grant.resource_scopes) request.resource_scopes)

unfoldable pub is_partial_result : List Permission → List Permission → Bool
is_partial_result requested granted =
    if nat_beq (length requested) (length granted)
    then not (all (λ request. any (is_match request) granted) requested)
    else true

-- `typeof subs[0] === 'string' ? subs[0]`
abbrev pub first_text : List Claim → Option String
first_text (text s ∷ rest) = some s
first_text _ = none

unfoldable pub token_sub : ClaimSet → Option String
token_sub provided = elim (get provided original_webid) [
  | some subs ↦ first_text subs
  | none ↦ elim (get provided webid) [ some subs ↦ first_text subs | none ↦ none ]
]

unfoldable pub pushed_tokens : DialogInput → List ClaimToken
pushed_tokens input = elim input.claim_token [
  | many_tokens tokens ↦ tokens
  | one_token token ↦
      if truthy (some token) || truthy input.claim_token_format
      then record { token = some token; format = input.claim_token_format } ∷ []
      else []
  | no_token ↦
      if truthy input.claim_token_format
      then record { token = none; format = input.claim_token_format } ∷ []
      else []
]

module _ {W : Type 0} (K : KeyValueStorage Ticket) where
  -- A call of another part, which has no access to the ticket store.
  abbrev pub call : {A : Type 0} → Exec W A → Exec (World K.State W) A
  call m w = let (r, others) = m w.others in (r, record w { others = others })

  abbrev pub set_ticket : String → Ticket → Exec (World K.State W) (Unit {0})
  set_ticket id ticket w = (ok tt, record w { tickets = K.set w.tickets id ticket })

  abbrev pub delete_ticket : String → Exec (World K.State W) (Unit {0})
  delete_ticket id w = (ok tt, record w { tickets = K.delete w.tickets id })

  unfoldable pub get_ticket : TicketingStrategy → DialogInput → Exec (World K.State W) Ticket
  get_ticket strategy input w =
      if truthy input.ticket
      then elim (K.get w.tickets (or_else input.ticket "")) [
        | none ↦ (fail bad_request, w)
        | some stored ↦
            (ok stored, record w { tickets = K.delete w.tickets (or_else input.ticket "") })
      ]
      else elim input.permissions [
        | none ↦ (fail bad_request, w)
        | some permissions ↦ (strategy.initialize_ticket permissions, w)
      ]

  -- One round of the loop over the tokens.
  unfoldable pub process_token :
      Verifier W → TicketingStrategy → ℕ → ClaimToken → Ticket → Exec (World K.State W) Ticket
  process_token verifier strategy now t ticket =
      if truthy t.token && truthy t.format
      then (call (
            verifier.verify now
              (record { token = or_else t.token ""; format = or_else t.format "" }))
          >>= λ claims. lift (strategy.validate_claims ticket claims))
      else throw bad_request

  unfoldable pub process_tokens :
      Verifier W → TicketingStrategy → ℕ → List ClaimToken → Ticket → Exec (World K.State W) Ticket
  process_tokens verifier strategy now [] ticket = pure ticket
  process_tokens verifier strategy now (t ∷ rest) ticket =
      process_token verifier strategy now t ticket >>= process_tokens verifier strategy now rest

  unfoldable pub process_credentials :
      Verifier W → TicketingStrategy → ℕ → DialogInput → Ticket → Exec (World K.State W) Ticket
  process_credentials verifier strategy now input ticket =
      process_tokens verifier strategy now (pushed_tokens input) ticket

  unfoldable pub deny_request :
      {A : Type 0} → String → Ticket → List RequiredClaim → Exec (World K.State W) A
  deny_request id ticket requirements = if is_empty requirements then throw forbidden else (λ w.
      (fail (need_info id requirements), record w { tickets = K.set w.tickets id ticket }))

  unfoldable pub issue_refresh_token :
      Option (RefreshTokenIssuer W)
      → Draw
      → ClaimSet
      → List Permission
      → Exec (World K.State W) (Option String)
  issue_refresh_token none draw provided permissions w = (ok none, w)
  issue_refresh_token (some issuer) draw provided permissions w =
      (call (issuer.issue draw.refresh_id draw.now provided permissions) >>= λ r. pure (some r)) w

  unfoldable pub grant :
      TokenFactory W
      → Option (RefreshTokenIssuer W)
      → Draw
      → Ticket
      → List Permission
      → Exec (World K.State W) DialogOutput
  unfolding is_partial_result token_sub
  grant factory issuer draw updated permissions = do
    serialized ← call (
        factory.serialize draw.token_id
          (record { permissions = permissions; sub = token_sub updated.provided }))
    refresh ← issue_refresh_token issuer draw updated.provided permissions
    pure (record {
      access_token = serialized.token;
      refresh_token = refresh;
      token_type = serialized.token_type;
      partial = is_partial_result updated.permissions permissions;
      expires_in = none;
      derivation_resource_id = none;
    })

  -- The last step, once it is known whether the ticket resolves.
  unfoldable pub answer :
      TokenFactory W
      → Option (RefreshTokenIssuer W)
      → Draw
      → Ticket
      → Ticket
      → Resolution (List Permission) (List RequiredClaim)
      → Exec (World K.State W) DialogOutput
  answer factory issuer draw ticket updated (success permissions) =
      grant factory issuer draw updated permissions
  answer factory issuer draw ticket updated (failure requirements) =
      deny_request draw.ticket_id (record ticket { provided = updated.provided }) requirements

  unfoldable pub negotiate :
      Verifier W
      → TicketingStrategy
      → TokenFactory W
      → Option (RefreshTokenIssuer W)
      → Draw
      → DialogInput
      → Exec (World K.State W) DialogOutput
  negotiate verifier strategy factory issuer draw input = do
    ticket ← get_ticket strategy input
    updated ← process_credentials verifier strategy draw.now input ticket
    resolved ← lift (strategy.resolve_ticket updated)
    answer factory issuer draw ticket updated resolved
