-- ===== src/Tests/Negotiation.antt =====
-- A dialog about one document: packages/uma/src/dialog and packages/uma/src/ticketing.
use user_managed_access.Prelude.{
  String, none, some, List, [], ◌∷◌, ◌++◌, false, not, ◌&&◌, ◌≡◌, ◌↔◌, refl, length, if◌then◌else◌,
  or_else, is_empty, contains, any, All, Dict, arith, eq_iff,
}
use user_managed_access.Http
use user_managed_access.Http.{Outcome, ok, fail, need_info, RequiredClaim}
use user_managed_access.Policies.{Authorizer}
use user_managed_access.Policies.Static.{web_id_permissions}
use user_managed_access.Storage.{KeyValueStorage}
use user_managed_access.Storage.Memory.{memory_storage}
use user_managed_access.Views.{
  Permission, grants, IsCovered, Ticket, ClaimSet, text, claims_of, webid, success, failure,
  AccessToken,
}
use user_managed_access.Ticketing.Immediate.{
  immediate_strategy, resolve_ticket, calculate_permissions, scopes_claim, validate_claims,
}
use user_managed_access.Ticketing.Immediate.Resolving.{
  resolve_ticket_success_iff, resolve_ticket_failure,
}
use user_managed_access.Ticketing.Immediate.Claims.{validate_claims_lem}
use user_managed_access.Dialog.{
  DialogInput, DialogOutput, many_tokens, Draw, Verifier, TokenFactory, World,
}
use user_managed_access.Dialog.Base.{
  get_ticket, process_token, process_tokens, process_credentials, pushed_tokens,
  issue_refresh_token, grant, answer, negotiate, is_partial_result,
}
use user_managed_access.Dialog.Base.Partial.{is_partial_result_sound}
use user_managed_access.Dialog.Base.Tickets.{get-negotiate}
use user_managed_access.Dialog.Base.Granting.{Starts, Minted, IsGranted, negotiate-IsGranted}
use user_managed_access.Dialog.Base.Covering.{negotiate_covers}

abbrev pub read_document : Permission
read_document = record { resource_id = "document"; resource_scopes = "read" ∷ [] }

abbrev read_and_write : Permission
read_and_write = record { resource_id = "document"; resource_scopes = "read" ∷ "write" ∷ [] }

abbrev pub alice_only : Authorizer
alice_only = web_id_permissions ("https://alice.example/" ∷ [])

-- Who gives the right WebID may read, whatever is asked for.
abbrev pub readers : Authorizer
readers claims query = ok (if is_empty (claims_of claims webid) then [] else read_document ∷ [])

abbrev trusting : Verifier (Dict AccessToken)
trusting = record {
  verify = λ now credential s. (ok ((webid, text credential.token ∷ []) ∷ []), s);
}

abbrev stored_tokens : TokenFactory (Dict AccessToken)
stored_tokens = record {
  serialize = λ id token s. (ok (record { token_type = "Bearer"; token = id }), (id, token) ∷ s);
  deserialize = λ token s. (fail Http.bad_request, s);
}

abbrev pub first_draw : Draw
first_draw = record { token_id = "token"; refresh_id = "refresh"; ticket_id = "second"; now = 5 }

abbrev pub opened : Permission → Ticket
opened p = record { derived_ids = none; permissions = p ∷ []; provided = [] }

abbrev with_alice : Permission → Ticket
with_alice p = record (opened p) { provided = (webid, text "https://alice.example/" ∷ []) ∷ [] }

abbrev world : Permission → World (Dict Ticket) (Dict AccessToken)
world p = record { tickets = ("first", opened p) ∷ []; others = [] }

abbrev pub request : DialogInput
request = record {
  grant_type = some "urn:ietf:params:oauth:grant-type:uma-ticket";
  ticket = some "first";
  claim_token =
      many_tokens (record { token = some "https://alice.example/"; format = some "webid" } ∷ []);
  claim_token_format = none;
  permissions = none;
  scope = none;
  refresh_token = none;
}

abbrev pub answered : DialogOutput
answered = record {
  access_token = "token";
  refresh_token = none;
  token_type = "Bearer";
  partial = false;
  expires_in = none;
  derivation_resource_id = none;
}

abbrev minted_token : AccessToken
minted_token = record { permissions = read_document ∷ []; sub = some "https://alice.example/" }

abbrev afterwards : World (Dict Ticket) (Dict AccessToken)
afterwards = record { tickets = []; others = ("token", minted_token) ∷ [] }

abbrev tickets : KeyValueStorage Ticket
tickets = memory_storage Ticket

negotiates :
    negotiate tickets trusting
      (immediate_strategy alice_only false)
      stored_tokens
      none
      first_draw
      request
      (world read_document)
    ≡ (ok answered, afterwards)
unfolding negotiate get_ticket process_credentials process_tokens process_token pushed_tokens
    validate_claims resolve_ticket web_id_permissions answer grant issue_refresh_token
negotiates = refl

negotiate_covers_example :
    (ticket updated : Ticket) × (permissions : List Permission) × (v : World
      (Dict Ticket)
      (Dict AccessToken))
    × Starts tickets trusting
        (immediate_strategy alice_only false)
        stored_tokens
        none
        first_draw
        request
        (world read_document)
        ticket
    × (calculate_permissions alice_only updated ≡ ok permissions)
    × All (IsCovered permissions) ticket.permissions
    × Minted tickets trusting
        (immediate_strategy alice_only false)
        stored_tokens
        none
        first_draw
        updated
        permissions
        v
        afterwards
        answered
negotiate_covers_example =
    negotiate_covers tickets trusting alice_only stored_tokens none first_draw request
      (world read_document) afterwards answered negotiates

negotiate-IsGranted_example :
    IsGranted tickets trusting
      (immediate_strategy alice_only false)
      stored_tokens
      none
      first_draw
      request
      (world read_document)
      afterwards
      answered
negotiate-IsGranted_example =
    negotiate-IsGranted tickets trusting (immediate_strategy alice_only false) stored_tokens none
      first_draw request (world read_document) afterwards answered negotiates

get-negotiate_example :
    tickets.get
      (negotiate tickets trusting
        (immediate_strategy alice_only false)
        stored_tokens
        none
        first_draw
        request
        (world read_document)).1.tickets
      "first"
    ≡ none
get-negotiate_example =
    get-negotiate tickets trusting (immediate_strategy alice_only false) stored_tokens none
      first_draw request (world read_document) "first" (ground (arith, eq_iff "first" "second"))

-- The request for more than the readers have.
abbrev wanted : RequiredClaim
wanted = scopes_claim ("write" ∷ [])

resolves_writing :
    resolve_ticket readers false (with_alice read_and_write) ≡ ok (failure (wanted ∷ []))
unfolding resolve_ticket
resolves_writing = refl

calculates_writing :
    calculate_permissions readers (with_alice read_and_write) ≡ ok (read_document ∷ [])
unfolding calculate_permissions
calculates_writing = refl

resolve_ticket_success_iff_example :
    (resolve_ticket readers false (with_alice read_document) ≡ ok (success (read_document ∷ [])))
    ↔ ((calculate_permissions readers (with_alice read_document) ≡ ok (read_document ∷ []))
        × (is_empty (read_document ∷ []) ≡ false)
        × All (IsCovered (read_document ∷ [])) (read_document ∷ []))
resolve_ticket_success_iff_example =
    resolve_ticket_success_iff readers (with_alice read_document) (read_document ∷ [])

resolve_ticket_failure_example :
    (is_empty (wanted ∷ []) ≡ false)
    × (any (λ c. contains (or_else c.resource_scopes []) "write") (wanted ∷ [])
        ≡ any
            (λ r.
              contains r.resource_scopes "write"
              && not (grants (read_document ∷ []) r.resource_id "write"))
            (read_and_write ∷ []))
resolve_ticket_failure_example =
    resolve_ticket_failure readers (with_alice read_and_write) (read_document ∷ []) (wanted ∷ [])
      "write" calculates_writing refl resolves_writing

abbrev pushed : ClaimSet
pushed = (webid, text "https://bob.example/" ∷ []) ∷ []

validate_claims_lem_example :
    (t : Ticket) × (validate_claims (with_alice read_document) pushed ≡ ok t)
    × ((key : String)
        → claims_of t.provided key
          ≡ claims_of (with_alice read_document).provided key ++ claims_of pushed key)
    × (t.permissions ≡ read_document ∷ [])
    × (t.derived_ids ≡ none)
validate_claims_lem_example = validate_claims_lem (with_alice read_document) pushed (refl, tt)

is_whole : is_partial_result (read_document ∷ []) (read_document ∷ []) ≡ false
unfolding is_partial_result
is_whole = refl

is_partial_result_sound_example :
    (length (read_document ∷ []) ≡ length (read_document ∷ []))
    × All (IsCovered (read_document ∷ [])) (read_document ∷ [])
is_partial_result_sound_example =
    is_partial_result_sound (read_document ∷ []) (read_document ∷ []) is_whole
