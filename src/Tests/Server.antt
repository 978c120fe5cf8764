-- ===== src/Tests/Server.antt =====
-- The resource server: packages/css/src.
use user_managed_access.Prelude.{
  ◌==◌, if◌then◌else◌, arith, List, String, none, some, [], ◌∷◌, true, false, ◌≡◌, refl, Dict,
  or_else, all, ◌⊎◌,
}
use user_managed_access.Http.{Outcome, HttpError, ok, fail, forbidden}
use user_managed_access.Routes.Introspection.{IntrospectionResponse}
use user_managed_access.Css.Client
use user_managed_access.Css.Client.{
  Value, UmaConfig, Cached, typed_config, Payload, entry, Jose, compact, is_valid_entry, entries_of,
  verify_jwt_token, token_config, fetch_uma_config, refresh_config, read_config, verify_token_data,
  check_payload, verify_opaque_token,
}
use user_managed_access.Css.Client.Verified.{
  IsConfig, introspection_reply, verify_opaque_token-introspection,
}
use user_managed_access.Css.Owners.{
  Accounts, find_common_owner, collect_owners, find_owners, add_owners, valid_owners, sole_owner,
  required_settings, find_uma_settings, settings_of,
}
use user_managed_access.Css.Parents.{Identifiers, find_parent, find_first_existing_parent}
use user_managed_access.Css.Parents.Nearest.{IsNearest, find_first_existing_parent_total}
use user_managed_access.Css.Extractor.{extract, verify_token, valid_issuers, issuers_of}
use user_managed_access.Css.Extractor.Issued.{IsChosen, extract_sound}
use user_managed_access.Css.Authorizer.{
  Resources, AccessMap, authorize, decide_ticket, request_ticket, to_header, fetch_ticket,
  ticket_endpoint, request_body, await_id, ensure_registered, known_id, scopes_of, read_ticket,
  asks_ticket,
}
use user_managed_access.Css.Authorizer.Public.{IsPublic, AreSettings, authorize_allowed}
use user_managed_access.Css.Scopes.{
  Permissions, IsVocabulary, to_uma_scope, to_css_mode, mode_map, scope_map,
}
use user_managed_access.Css.Reader.{
  Times, UmaClaims, is_valid_at, permission_set, read_permissions, mode_entry, read, IsGranted,
  read_allows,
}
use user_managed_access.Css.Pats.{
  waiting, requesting, failed, Reply, call, World, enter, settle, start_request, after_enter,
  after_settle, called, entered, Steps, here, next, any_reply, is_token, initial,
}
use user_managed_access.Css.Pats.Counts.{count, is_requesting}
use user_managed_access.Css.Pats.Blocking.{failure_blocks}
use user_managed_access.Css.Pats.Answered.{is_open}
use user_managed_access.Css.Pats.Serving.{Serves, callers, all_returned}

abbrev acl : Permissions
acl = record {
  namespace = "http://acl.example/";
  append = "http://acl.example/Append";
  create = "http://acl.example/Create";
  delete = "http://acl.example/Delete";
  modify = "http://acl.example/Modify";
  read = "http://acl.example/Read";
}

acl-IsVocabulary : IsVocabulary acl
unfolding mode_map
acl-IsVocabulary = record {
  distinct = (refl, (refl, (refl, (refl, (refl, tt)))));
  append_in = refl;
  create_in = refl;
  delete_in = refl;
  modify_in = refl;
  read_in = refl;
}

abbrev untimed : Times
untimed = record { iat = none; exp = none; nbf = none }

abbrev token : UmaClaims
token = record {
  permissions = some (
      record {
        resource_id = "http://pod.example/photo";
        resource_scopes = "urn:example:css:modes:read" ∷ [];
        times = record untimed { exp = some 10 };
      }
      ∷ []);
  times = untimed;
}

read_allows_example :
    (is_valid_at 5000 untimed ≡ true)
    × IsGranted acl acl-IsVocabulary 5000
        (or_else token.permissions [])
        "http://pod.example/photo"
        "http://acl.example/Read"
unfolding read read_permissions permission_set mode_entry is_valid_at to_css_mode scope_map mode_map
read_allows_example =
    read_allows acl acl-IsVocabulary 5000 token
      (("http://pod.example/photo", ("http://acl.example/Read", some true) ∷ []) ∷ [])
      "http://pod.example/photo" "http://acl.example/Read" refl refl refl

-- One call has sent a request.
abbrev asking : World
asking = record {
  now = 0;
  pats = record { storage = []; busy = true };
  calls = call "pod" requesting ∷ [];
}

asks : Steps any_reply (initial 0 []) asking
unfolding after_enter enter start_request
asks = next _ _ (next _ _ here (called "pod")) (entered [] [] "pod" refl)

failure_blocks_example :
    (asking.pats ≡ asking.pats)
    × (count is_requesting (call "pod" failed ∷ []) ≡ 0)
    × (enter 0 "pod" asking.pats ≡ (waiting, asking.pats))
unfolding after_settle settle
failure_blocks_example =
    failure_blocks 0 [] asking (after_settle asking [] "pod" [] none) [] [] "pod" "pod" none asks
      refl refl here refl

asks_again : Steps is_token (initial 0 []) asking
unfolding after_enter enter start_request
asks_again = next _ _ (next _ _ here (called "pod")) (entered [] [] "pod" refl)

abbrev minted : Reply
minted = record {
  status = 201;
  body = some (record { access_token = "abc"; token_type = "Bearer"; expires_in = 60 });
}

all_returned_example :
    (v : World) × Serves asking v × (callers v.calls ≡ "pod" ∷ []) × (count is_open v.calls ≡ 0)
all_returned_example = all_returned (some minted) 0 [] asking refl asks_again

abbrev metadata : Dict Value
metadata =
    ("issuer", Client.text "https://as.example")
    ∷ (("jwks_uri", Client.text "https://as.example/keys")
        ∷ (("permission_endpoint", Client.text "https://as.example/ticket")
            ∷ (("introspection_endpoint", Client.text "https://as.example/introspect")
                ∷ (("resource_registration_endpoint", Client.text "https://as.example/resources")
                    ∷ []))))

abbrev published : String → Client.Reply
published url = record { status = 200; json = some metadata }

abbrev config : UmaConfig
config = typed_config metadata

abbrev payload : Payload
payload = record {
  permissions = some (
      some (
        entry (some (Client.text "http://pod.example/photo"))
          (some (some (Client.text "urn:example:css:modes:read" ∷ [])))
        ∷ []));
  claims = [];
}

abbrev jose : Jose
jose = record {
  decode_issuer = λ token. ok (some "https://as.example");
  verify = λ token jwks issuer. ok payload;
}

abbrev cache : Dict Cached
cache = ("https://as.example", record { config = config; expiration = 300000 }) ∷ []

abbrev active : IntrospectionResponse
active = record { active = true; token = record { permissions = []; sub = none } }

verify_opaque_token-introspection_example :
    (e : HttpError) × (t : Dict Cached) × (verify_opaque_token jose published
        (λ endpoint token. introspection_reply 200 true [])
        0
        "opaque"
        "https://as.example"
        []
      ≡ (fail e, t))
verify_opaque_token-introspection_example =
    verify_opaque_token-introspection jose published 0 "opaque" "https://as.example" [] active 200
      []

abbrev accounts : Accounts
accounts = record {
  storage_of = λ resource. ok "http://pod.example/";
  find_pod = λ storage. some "pod";
  get_owners = λ pod. some ("https://alice.example/" ∷ []);
  find_accounts = λ owner. "account" ∷ [];
  authz_server = λ account. some "https://as.example";
  as_token = λ account. some "secret";
}

abbrev photo : Outcome String
photo = ok "http://pod.example/photo"

extract_sound_example :
    (resource : String) × (owners : List String) × (issuer : String) × (c : UmaConfig) × (photo
      ≡ ok resource)
    × (find_owners accounts resource ≡ ok owners)
    × IsChosen accounts owners issuer
    × IsConfig published 0 issuer [] c
    × (jose.verify (compact "jwt") c.jwks_uri c.issuer ≡ ok payload)
    × (all is_valid_entry (entries_of payload) ≡ true)
unfolding extract verify_token valid_issuers issuers_of verify_jwt_token token_config
    fetch_uma_config refresh_config read_config verify_token_data check_payload is_valid_entry
    find_owners find_uma_settings settings_of
extract_sound_example =
    extract_sound jose published (λ endpoint token. introspection_reply 200 true []) 0 accounts
      (some "jwt") photo [] cache payload refl

abbrev resources : Resources (Unit {0})
resources = record {
  permission_endpoint = λ issuer w. (ok "https://as.example/ticket", w);
  uma_id = λ w path. some path;
  in_progress = λ w path. false;
  wait = λ path w. (ok tt, w);
  has_resource = λ w path. true;
  register = λ path issuer credentials w. (ok tt, w);
  get_pat = λ issuer credentials w. (ok "Bearer abc", w);
  post = λ endpoint pat body. record { status = 200; json = none };
}

abbrev reading : AccessMap
reading = ("http://pod.example/photo", "http://acl.example/Read" ∷ []) ∷ []

abbrev no_rights : Outcome (Unit {0})
no_rights = fail forbidden

authorize_allowed_example :
    (no_rights ≡ ok tt)
    ⊎ ((error : HttpError) × (no_rights ≡ fail error)
        × (asks_ticket error ≡ true)
        × ((issuer credentials : String) × AreSettings resources acl accounts reading issuer
              credentials
            × IsPublic resources acl issuer credentials reading tt))
unfolding authorize decide_ticket request_ticket to_header fetch_ticket ticket_endpoint request_body
    await_id ensure_registered known_id scopes_of to_uma_scope mode_map read_ticket
    find_common_owner collect_owners find_owners add_owners valid_owners sole_owner
    required_settings find_uma_settings settings_of
authorize_allowed_example = authorize_allowed resources acl accounts no_rights reading tt tt refl

-- A root and the documents in it.
abbrev documents : Identifiers
documents = record {
  is_root = λ id. id == "http://pod.example/";
  parent = λ id. "http://pod.example/";
  has_resource = λ id. id == "http://pod.example/";
  depth = λ id. if id == "http://pod.example/" then 0 else 1;
  depth-parent = λ id h. rw h (omega arith);
}

find_first_existing_parent_total_example :
    (find_parent documents 2 "http://pod.example/new"
      ≡ some (find_first_existing_parent documents "http://pod.example/new"))
    × IsNearest documents "http://pod.example/new"
        (find_first_existing_parent documents "http://pod.example/new")
find_first_existing_parent_total_example =
    find_first_existing_parent_total documents 2 "http://pod.example/new" (omega arith)
