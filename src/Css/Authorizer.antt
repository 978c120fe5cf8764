-- ===== src/Css/Authorizer.antt =====
-- packages/css/src/authorization/UmaAuthorizer.ts, with `fetchTicket` of uma/UmaClient.ts, and
-- authentication/UmaTokenExtractor.ts. `Resources` has what the client does besides: its UMA
-- identifiers, the wait for a registration that is under way (which ends with an error after two
-- seconds), the registration of a resource, and the token for the protection API. The rest of a
-- request for a ticket is one `post` of a list of permissions.
pub mod Public
use user_managed_access.Prelude.{
  String, Option, none, some, List, [], ◌∷◌, map, Bool, true, false, not, ◌&&◌, if◌then◌else◌, get,
  truthy, or_else, nat_beq, ℕ, Dict, filter, is_some, head?,
}
use user_managed_access.Http.{
  Outcome, ok, fail, HttpError, unauthorized, forbidden, not_found, internal_server_error,
  bad_request, plain_error, need_info, method_not_allowed, conflict,
}
use user_managed_access.Http.Exec.{Exec, ◌>>=◌, ◌>>◌, lift, pure, throw}
use user_managed_access.Css.Scopes.{Permissions, to_uma_scope}
use user_managed_access.Css.Client.{Reply, Value, is_text, text_of}
use user_managed_access.Css.Owners.{Accounts, find_common_owner, required_settings}

-- A target with its modes.
abbrev pub AccessMap : Type 0
AccessMap = List (String × List String)

-- A scope is `none` where the vocabulary has none for a mode.
pub record Requested : Type 0 where
  pub resource_id : String
  pub resource_scopes : List (Option String)

pub record Resources (W : Type 0) : Type 0 where
  pub permission_endpoint : String → Exec W String
  pub uma_id : W → String → Option String
  pub in_progress : W → String → Bool
  pub wait : String → Exec W (Unit {0})
  pub has_resource : W → String → Bool
  pub register : (path issuer credentials : String) → Exec W (Unit {0})
  pub get_pat : (issuer credentials : String) → Exec W String
  pub post : (endpoint pat : String) → List Requested → Reply

unfoldable pub scopes_of : Permissions → List String → Outcome (List (Option String))
scopes_of P [] = ok []
scopes_of P (mode ∷ rest) = elim (to_uma_scope P mode) [
  | fail e ↦ fail e
  | ok scope ↦ elim (scopes_of P rest) [ fail e ↦ fail e | ok scopes ↦ ok (scope ∷ scopes) ]
]

-- The answer to a request for a ticket; there is no ticket where access is public.
unfoldable pub read_ticket : Reply → Outcome (Option String)
read_ticket reply =
    if nat_beq reply.status 200
    then ok none
    else if nat_beq reply.status 201
    then elim reply.json [
      | none ↦ fail plain_error
      | some json ↦
          if is_text (get json "ticket") && truthy (some (text_of (get json "ticket")))
          then ok (some (text_of (get json "ticket")))
          else fail plain_error
    ]
    else fail plain_error

-- The header of a ticket, with its issuer. Errors get another message.
unfoldable pub to_header : String → Outcome (Option String) → Outcome (Option (String × String))
to_header issuer (fail e) = fail internal_server_error
to_header issuer (ok none) = ok none
to_header issuer (ok (some ticket)) =
    if truthy (some ticket) then ok (some (issuer, ticket)) else ok none

module _ {W : Type 0} (client : Resources W) (P : Permissions) where
  -- Each of the three steps that may find the identifier of a resource.
  unfoldable pub await_id : String → Exec W (Unit {0})
  await_id path w =
      if not (truthy (client.uma_id w path)) && client.in_progress w path
      then client.wait path w
      else (ok tt, w)

  unfoldable pub ensure_registered : String → String → String → Exec W (Unit {0})
  ensure_registered path issuer credentials w =
      if truthy (client.uma_id w path)
      then (ok tt, w)
      else if client.has_resource w path
      then client.register path issuer credentials w
      else (fail not_found, w)

  unfoldable pub known_id : String → Exec W String
  known_id path w =
      if truthy (client.uma_id w path)
      then (ok (or_else (client.uma_id w path) ""), w)
      else (fail internal_server_error, w)

  unfoldable pub request_body : String → String → AccessMap → Exec W (List Requested)
  unfolding await_id ensure_registered known_id scopes_of
  request_body issuer credentials [] = pure []
  request_body issuer credentials ((path, modes) ∷ rest) =
      await_id path
      >> (ensure_registered path issuer credentials
          >> (known_id path >>= λ id. lift (scopes_of P modes) >>= λ scopes.
              request_body issuer credentials rest >>= λ others.
              pure (record { resource_id = id; resource_scopes = scopes } ∷ others)))

  -- An error of the configuration becomes one with another message.
  unfoldable pub ticket_endpoint : String → Exec W String
  ticket_endpoint issuer w =
      let (r, w') = client.permission_endpoint issuer w in
      elim r [ ok endpoint ↦ (ok endpoint, w') | fail e ↦ (fail plain_error, w') ]

  unfoldable pub fetch_ticket : AccessMap → String → String → Exec W (Option String)
  unfolding ticket_endpoint request_body read_ticket
  fetch_ticket permissions issuer credentials = ticket_endpoint issuer >>= λ endpoint.
      request_body issuer credentials permissions >>= λ body.
      client.get_pat issuer credentials >>= λ pat.
      lift (read_ticket (client.post endpoint pat body))

  -- The issuer and the ticket of the header.
  unfoldable pub request_ticket : Accounts → AccessMap → Exec W (Option (String × String))
  unfolding fetch_ticket to_header
  request_ticket accounts modes =
      lift (find_common_owner accounts (map (λ e. e.0) modes)) >>= λ owner.
      lift (required_settings accounts owner) >>= λ settings w.
      let (r, w') = fetch_ticket modes settings.0 settings.1 w in (to_header settings.0 r, w')

-- What the authorizer decides: access, or an error, that may have a header with a ticket.
pub data Decision : Type 0 where
  allowed : Decision
  refused : HttpError → Option (String × String) → Decision

abbrev pub asks_ticket : HttpError → Bool
asks_ticket unauthorized = true
asks_ticket forbidden = true
asks_ticket bad_request = false
asks_ticket not_found = false
asks_ticket method_not_allowed = false
asks_ticket conflict = false
asks_ticket internal_server_error = false
asks_ticket plain_error = false
asks_ticket (need_info ticket claims) = false

-- What the answer to the request for a ticket makes of an error.
unfoldable pub decide_ticket : HttpError → Outcome (Option (String × String)) → Decision
decide_ticket error (fail e) = refused e none
decide_ticket error (ok (some header)) = refused error (some header)
decide_ticket error (ok none) = allowed

-- The answer of the other authorizer comes first.
unfoldable pub authorize :
    {W : Type 0}
    → Resources W
    → Permissions
    → Accounts
    → Outcome (Unit {0})
    → AccessMap
    → W
    → Decision × W
unfolding request_ticket decide_ticket
authorize client P accounts (ok u) modes w = (allowed, w)
authorize client P accounts (fail error) modes w =
    let (r, w') = request_ticket client P accounts modes w in
    if asks_ticket error then (decide_ticket error r, w') else (refused error none, w)
