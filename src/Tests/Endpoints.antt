-- ===== src/Tests/Endpoints.antt =====
-- The endpoints of the authorization server: packages/uma/src/routes and packages/uma/src/tokens.
use user_managed_access.Prelude.{
  ℕ, String, none, some, List, [], ◌∷◌, true, false, ◌≡◌, refl, Dict, ltb, if◌then◌else◌, All,
}
use user_managed_access.Http.{bad_request, ok, fail, RequiredClaim}
use user_managed_access.Http.Exec.{Exec}
use user_managed_access.Policies.Static.{web_id_permissions}
use user_managed_access.Storage.Expiring.{ExpiringStorage, expiring_memory_storage}
use user_managed_access.Storage.{KeyValueStorage, has}
use user_managed_access.Storage.Memory.{memory_storage}
use user_managed_access.Ticketing.Immediate.{
  immediate_strategy, validate_claims, resolve_ticket, initialize_ticket,
}
use user_managed_access.Views.{
  Permission, Ticket, ClaimSet, text, webid, AccessToken, failure, Registration,
  refresh_token_format,
}
use user_managed_access.Dialog.{DialogInput, DialogOutput, Verifier, World, no_token}
use user_managed_access.Dialog.Base.{
  get_ticket, process_token, process_tokens, process_credentials, pushed_tokens,
  issue_refresh_token, grant, answer, negotiate,
}
use user_managed_access.Tokens.{
  Tokens, RefreshInformation, serialize, issue, verify_refresh_token, opaque_token_factory,
  stored_refresh_token_issuer,
}
use user_managed_access.Tokens.Refreshing.{verify_refresh_token-issue}
use user_managed_access.Routes.Introspection.Negotiated.{IsActive, introspect-negotiate}
use user_managed_access.Routes.Ticket.{ticketed, request_ticket, first_unknown, open_ticket}
use user_managed_access.Routes.Ticket.Requests.{request_ticket_ticketed}
use user_managed_access.Routes.Token.{
  TokenResponse, RefreshStore, find_refresh, refresh_input, handle_refresh, use_refresh_token,
}
use user_managed_access.Routes.Token as Token
use user_managed_access.Routes.Token.Refresh.{handle_refresh_once}
use user_managed_access.Tests.Negotiation.{
  read_document, alice_only, readers, first_draw, opened, request, answered,
}

abbrev tickets : KeyValueStorage Ticket
tickets = memory_storage Ticket

abbrev accesses : KeyValueStorage AccessToken
accesses = memory_storage AccessToken

abbrev refreshes : ExpiringStorage RefreshInformation
refreshes = expiring_memory_storage RefreshInformation

abbrev Kept : Type 0
Kept = Tokens (Dict AccessToken) (Dict (ℕ × RefreshInformation))

abbrev alice : ClaimSet
alice = (webid, text "https://alice.example/" ∷ []) ∷ []

abbrev trusting : Verifier Kept
trusting = record { verify = λ now credential s. (ok alice, s) }

abbrev before : World (Dict Ticket) Kept
before = record {
  tickets = ("first", opened read_document) ∷ [];
  others = record { accesses = []; refreshes = [] };
}

abbrev stored : RefreshInformation
stored = record { claims = alice; permissions = read_document ∷ []; expiration = 1005 }

abbrev minted_token : AccessToken
minted_token = record { permissions = read_document ∷ []; sub = some "https://alice.example/" }

abbrev after : World (Dict Ticket) Kept
after = record {
  tickets = [];
  others = record {
    accesses = ("token", minted_token) ∷ [];
    refreshes = ("refresh", (1005, stored)) ∷ [];
  };
}

abbrev out : DialogOutput
out = record answered { refresh_token = some "refresh" }

negotiates :
    negotiate tickets trusting
      (immediate_strategy alice_only false)
      (opaque_token_factory accesses refreshes)
      (some (stored_refresh_token_issuer accesses refreshes 1000))
      first_draw
      request
      before
    ≡ (ok out, after)
unfolding negotiate get_ticket process_credentials process_tokens process_token pushed_tokens
    validate_claims resolve_ticket web_id_permissions answer grant issue_refresh_token serialize
    issue
negotiates = refl

introspect-negotiate_example :
    IsActive tickets accesses refreshes trusting
      (immediate_strategy alice_only false)
      1000
      first_draw
      request
      before
      after
      out
introspect-negotiate_example =
    introspect-negotiate tickets accesses refreshes trusting (immediate_strategy alice_only false)
      1000 first_draw request before after out refl negotiates

verify_refresh_token-issue_example :
    let (r, t) =
      issue accesses refreshes 1000 "refresh" 5 alice (read_document ∷ []) before.others in
    verify_refresh_token accesses refreshes 1006
      (record { token = "refresh"; format = refresh_token_format })
      t
    ≡ (if ltb 1006 1005 then (ok alice, t) else (fail bad_request, t))
verify_refresh_token-issue_example =
    verify_refresh_token-issue accesses refreshes 1000 5 1006 "refresh" alice (read_document ∷ [])
      before.others refl

abbrev registrations : Dict Registration
registrations =
    (
      "document",
      record {
        owner = "https://alice.example/";
        description = record {
          resource_scopes = "read" ∷ [];
          resource_defaults = none;
          resource_relations = none;
          derived_from = none;
          kind = none;
          name = some "document";
          icon_uri = none;
          description = none;
        };
      },
    )
    ∷ []

hands_out :
    request_ticket tickets
      (memory_storage Registration)
      (immediate_strategy readers false)
      registrations
      "first"
      (ok tt)
      (some (read_document ∷ []))
      []
    ≡ (ok (ticketed "first"), ("first", opened read_document) ∷ [])
unfolding request_ticket first_unknown open_ticket resolve_ticket initialize_ticket
hands_out = refl

request_ticket_ticketed_example :
    (permissions : List Permission) × (ticket : Ticket) × (requirements : List RequiredClaim)
    × (some (read_document ∷ []) ≡ some permissions)
    × All (λ p. has (memory_storage Registration) registrations p.resource_id ≡ true) permissions
    × (initialize_ticket permissions ≡ ok ticket)
    × (resolve_ticket readers false ticket ≡ ok (failure requirements))
    × (tickets.get (("first", opened read_document) ∷ []) "first" ≡ some ticket)
request_ticket_ticketed_example =
    request_ticket_ticketed tickets (memory_storage Registration) (immediate_strategy readers false)
      registrations "first" (ok tt) (some (read_document ∷ [])) "first" []
      (("first", opened read_document) ∷ []) hands_out

abbrev plain_store : RefreshStore (Dict RefreshInformation)
plain_store = record {
  storage = memory_storage RefreshInformation;
  refreshes = λ s. s;
  set_refreshes = λ s f. f;
  refreshes-set_refreshes = λ s f. refl;
}

abbrev answers : DialogInput → Exec (Dict RefreshInformation) DialogOutput
answers input s = (ok answered, s)

abbrev params : DialogInput
params = record request {
  grant_type = some "refresh_token";
  claim_token = no_token;
  refresh_token = some "refresh";
}

refreshes_once :
    handle_refresh plain_store answers 1000 (some params) (("refresh", stored) ∷ [])
    ≡ (ok (Token.answered answered), [])
unfolding handle_refresh use_refresh_token
refreshes_once = refl

handle_refresh_once_example :
    (token : String) × (information : RefreshInformation) × (response : DialogOutput) × (u : Dict
      RefreshInformation)
    × (some "refresh" ≡ some token)
    × (find_refresh plain_store answers (("refresh", stored) ∷ []) token ≡ some information)
    × (ltb information.expiration 1000 ≡ false)
    × (answers (refresh_input information.permissions token) (("refresh", stored) ∷ [])
        ≡ (ok response, u))
    × (Token.answered answered ≡ Token.answered response)
    × (find_refresh plain_store answers [] token ≡ none)
handle_refresh_once_example =
    handle_refresh_once plain_store answers 1000 params (("refresh", stored) ∷ []) []
      (Token.answered answered) refreshes_once
