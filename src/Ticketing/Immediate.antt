-- ===== src/Ticketing/Immediate.antt =====
-- packages/uma/src/ticketing/strategy/ImmediateAuthorizerStrategy.ts
pub mod Scopes
pub mod Resolving
pub mod Claims
use user_managed_access.Prelude.{
  String, Option, none, some, List, [], ◌∷◌, ◌++◌, map, Bool, true, false, not, ◌==◌, if◌then◌else◌,
  Dict, get, put, keys, filter, is_empty,
}
use user_managed_access.Http.{Outcome, ok, fail, ◌>>=◌, RequiredClaim}
use user_managed_access.Policies.{Authorizer}
use user_managed_access.Ticketing.Strategy.{TicketingStrategy}
use user_managed_access.Views.{
  Permission, Query, to_query, Ticket, ClaimSet, Claim, claims_of, Resolution, success, failure,
}

-- A required claim that has only the scopes.
abbrev pub scopes_claim : List String → RequiredClaim
scopes_claim scopes = record {
  claim_token_format = none;
  claim_type = none;
  friendly_name = none;
  issuer = none;
  name = none;
  derivation_resource_id = none;
  resource_scopes = some scopes;
}

unfoldable pub initialize_ticket : List Permission → Outcome Ticket
initialize_ticket permissions =
    ok (record { derived_ids = none; permissions = permissions; provided = [] })

-- One round of the loop over the keys: an array is made where there is none, then extended.
pub push_key : String → ClaimSet → ClaimSet → ClaimSet
push_key key claims provided = elim (get claims key) [
  | none ↦ provided
  | some values ↦ put provided key (claims_of provided key ++ values)
]

-- The loop over `Object.keys(claims)`.
pub push_claims : List String → ClaimSet → ClaimSet → ClaimSet
unfolding push_key
push_claims [] claims provided = provided
push_claims (key ∷ rest) claims provided = push_claims rest claims (push_key key claims provided)

unfoldable pub validate_claims : Ticket → ClaimSet → Outcome Ticket
unfolding push_claims
validate_claims ticket claims =
    ok (record ticket { provided = push_claims (keys claims) claims ticket.provided })

-- `Object.fromEntries(scopes.map((scope) => [ scope, false ]))`
pub unmarked : List String → Dict Bool → Dict Bool
unmarked [] scope_match = scope_match
unmarked (scope ∷ rest) scope_match = unmarked rest (put scope_match scope false)

pub mark_scopes : List String → Dict Bool → Dict Bool
mark_scopes [] scope_match = scope_match
mark_scopes (scope ∷ rest) scope_match = mark_scopes rest (put scope_match scope true)

pub mark_results : String → List Permission → Dict Bool → Dict Bool
mark_results id [] scope_match = scope_match
mark_results id (result ∷ rest) scope_match = mark_results id rest (
    if id == result.resource_id
    then mark_scopes result.resource_scopes scope_match
    else scope_match)

-- `!scopeMatch[scope]`
abbrev pub is_unmatched : Dict Bool → String → Bool
is_unmatched scope_match scope = elim (get scope_match scope) [ none ↦ true | some b ↦ not b ]

pub unmatched_scopes : List Permission → Permission → List String
unfolding unmarked mark_results mark_scopes
unmatched_scopes permissions required =
    let scope_match =
      mark_results required.resource_id permissions (unmarked required.resource_scopes []) in
    filter (is_unmatched scope_match) (keys scope_match)

pub unmatched_permissions : List Permission → List Permission → List Permission
unfolding unmatched_scopes
unmatched_permissions permissions [] = []
unmatched_permissions permissions (required ∷ rest) =
    let unmatched = unmatched_scopes permissions required in
    let others = unmatched_permissions permissions rest in
    if is_empty unmatched
    then others
    else record { resource_id = required.resource_id; resource_scopes = unmatched } ∷ others

unfoldable pub calculate_permissions : Authorizer → Ticket → Outcome (List Permission)
calculate_permissions authorizer ticket = do
  permissions ← authorizer ticket.provided (some (map to_query ticket.permissions))
  ok (filter (λ permission. not (is_empty permission.resource_scopes)) permissions)

-- What is left of `resolveTicket` once the permissions are known.
pub decide :
    Bool → List Permission → List Permission → Resolution (List Permission) (List RequiredClaim)
unfolding unmatched_permissions
decide allow_partial requested permissions =
    if is_empty permissions
    then failure []
    else if allow_partial
    then success permissions
    else let unmatched = unmatched_permissions permissions requested in
      if is_empty unmatched
      then success permissions
      else failure (map (λ perm. scopes_claim perm.resource_scopes) unmatched)

unfoldable pub resolve_ticket :
    Authorizer → Bool → Ticket → Outcome (Resolution (List Permission) (List RequiredClaim))
unfolding calculate_permissions decide
resolve_ticket authorizer allow_partial ticket = do
  permissions ← calculate_permissions authorizer ticket
  ok (decide allow_partial ticket.permissions permissions)

abbrev pub immediate_strategy : Authorizer → Bool → TicketingStrategy
immediate_strategy authorizer allow_partial = record {
  initialize_ticket = initialize_ticket;
  validate_claims = validate_claims;
  resolve_ticket = resolve_ticket authorizer allow_partial;
}
