-- ===== src/Tests/Requests.antt =====
-- Access requests and policies: packages/uma/src/controller and packages/uma/src/routes/BaseHandler.ts.
use user_managed_access.Prelude.{
  map, Bool, ◌==◌, all, if◌then◌else◌, length, ◌≤◌, arith, String, Option, none, some, List, [],
  ◌∷◌, true, ◌≡◌, refl, ap, ◌∙◌, any, Dict, flat_map, fun_ext, ◌⊎◌, head?, ◌&&◌, ◌||◌, not,
}
use user_managed_access.Http.{HttpError, ok, fail, plain_error}
use user_managed_access.Rdf.{
  contains_term, Term, named, quad, Quad, QuadStore, contains_quad, quad_eq, term_eq,
}
use user_managed_access.Rdf.Lists.{list_store, contains-flat_map}
use user_managed_access.Rdf.Patterns.{contains-get_subjects_has}
use user_managed_access.Rdf.Vocabulary.Sotw
use user_managed_access.Rdf.Vocabulary.Dc
use user_managed_access.Rdf.Vocabulary.Odrl
use user_managed_access.Rdf.Vocabulary.RdfType
use user_managed_access.Storage.{KeyValueStorage}
use user_managed_access.Storage.Memory.{memory_storage}
use user_managed_access.Views.{ClaimSet, text, webid, claims_of}
use user_managed_access.Policies.SimpleOdrl.Constraints.{Clock, JsonPath}
use user_managed_access.Policies.SimpleOdrl.Rules.{odrl_scope}
use user_managed_access.Policies.SimpleOdrl.Soundness.{Applies}
use user_managed_access.Controllers.Base.{Sanitizers, Controller, patch_entity}
use user_managed_access.Controllers.Base.Diffs.{has-patch_entity}
use user_managed_access.Controllers.AccessRequests.{
  AccessRequest, SparqlEngine, Texts, entity_node, permission_node, request_quads, get_requests,
  quads_of_request, constraint_quads, check_patch, check_pending, check_status, check_parties,
  patch_request, resolve_request, request_controller,
}
use user_managed_access.Controllers.AccessRequests.Patching.{resolved_once}
use user_managed_access.Controllers.AccessRequests.Accepting.{accepted-Applies}
use user_managed_access.Controllers.AccessRequests.Visibility.{IsInvolved, get_requests-IsInvolved}
use user_managed_access.Routes.Entities.{Request, Environment, handle, user_ids}
use user_managed_access.Routes.Entities.Dispatch.{IsWritten, handle_written}
use user_managed_access.Storage.Rows.{row_storage}
use user_managed_access.Routes.UmaProtection.{Client}
use user_managed_access.Routes.ClientRegistration
use user_managed_access.Routes.ClientRegistration.{of_user_uri}
use user_managed_access.Routes.ClientRegistration.Unique.{handle-HasOneClient}
use user_managed_access.Routes.Collections
use user_managed_access.Routes.Collections.{
  party, no_content, check_change, verify_ownership, new_quads, description_to_quads,
  check_description, collection_quads, replace_collection, handle_put,
}
use user_managed_access.Routes.Collections.Owned.{is_about, has-handle_put}

-- An engine that reads the store by its patterns, where all names are IRIs, and throws otherwise.
abbrev is_web_name : String → Bool
is_web_name s = s == "https://alice.example/" || s == "http://pod.example/photo"

abbrev subjects : (Q : QuadStore) → Q.State → Term → List Term → List Term
subjects Q s predicate objects = flat_map (λ o. Q.get_subjects s (some predicate) (some o)) objects

pattern_query-iris :
    (Q : QuadStore) (s : Q.State) (predicate : Term) (names : List String)
    → all is_web_name names ≡ true
    → (nodes : List Term) × ((if all is_web_name names
          then ok (subjects Q s predicate (map named names))
          else fail plain_error)
        ≡ ok nodes)
      × ((t : Term)
          → contains_term nodes t ≡ any (λ o. Q.has s (quad t predicate o)) (map named names))
pattern_query-iris Q s predicate names iris = (
  subjects Q s predicate (map named names),
  rw iris refl,
  λ t.
      contains-flat_map (λ o. Q.get_subjects s (some predicate) (some o)) (map named names) t
      ∙ ap (λ f. any f (map named names))
          (fun_ext λ o. contains-get_subjects_has Q s predicate o t),
)

abbrev pattern_engine : (Q : QuadStore) → SparqlEngine Q
pattern_engine Q = record {
  is_iri = is_web_name;
  query = λ s predicate names.
      if all is_web_name names
      then ok (subjects Q s predicate (map named names))
      else fail plain_error;
  contains-query = pattern_query-iris Q;
}

abbrev owners : KeyValueStorage (List String)
owners = memory_storage (List String)

abbrev owned : Dict (List String)
owned = ("https://alice.example/", "http://pod.example/photo" ∷ []) ∷ []

abbrev texts : Texts
texts = record { digits = λ n. "1"; string_to_term = named }

abbrev photo : AccessRequest
photo = record {
  resource_id = "http://pod.example/photo";
  resource_scopes = "http://www.w3.org/ns/odrl/2/read" ∷ [];
  constraints = none;
}

abbrev asked : List Quad
unfolding request_quads
asked = request_quads texts "1" "https://bob.example/" photo

abbrev clock : Clock
clock = record { now = 5; parse = λ s. none }

abbrev json : JsonPath
json = record { query = λ c s. [] }

abbrev bob : ClaimSet
bob = (webid, text "https://bob.example/" ∷ []) ∷ []

abbrev alice : ClaimSet
alice = (webid, text "https://alice.example/" ∷ []) ∷ []

abbrev resolved : String → List Quad
resolved status =
    resolve_request list_store owners "2" asked (named "http://example.org/1")
      "https://alice.example/" status (named "http://pod.example/photo")
      (named "https://bob.example/") (named "http://www.w3.org/ns/odrl/2/read" ∷ [])

accepts :
    patch_request list_store owners "2" owned asked "http://example.org/1" "https://alice.example/"
      "accepted"
    ≡ ok (resolved "accepted")
unfolding request_quads constraint_quads patch_request check_patch check_pending check_status
    check_parties quad_eq term_eq
accepts = refl

denies :
    patch_request list_store owners "2" owned asked "http://example.org/1" "https://alice.example/"
      "denied"
    ≡ ok (resolved "denied")
unfolding request_quads constraint_quads patch_request check_patch check_pending check_status
    check_parties quad_eq term_eq
denies = refl

resolved_once_example :
    (e : HttpError) × (patch_request list_store owners "3" owned
        (resolved "accepted")
        "http://example.org/1"
        "https://alice.example/"
        "denied"
      ≡ fail e)
resolved_once_example =
    resolved_once list_store owners "2" "3" "http://example.org/1" "https://alice.example/"
      "https://alice.example/" "accepted" "denied" owned owned asked (resolved "accepted") accepts

accepted-Applies_example :
    Applies list_store clock json
      (resolved "accepted")
      bob
      "http://pod.example/photo"
      "http://www.w3.org/ns/odrl/2/read"
      (permission_node "2")
    × (contains_quad
          (resolved "accepted")
          (quad (entity_node "2") Odrl.permission (permission_node "2"))
        ≡ true)
unfolding request_quads constraint_quads quad_eq term_eq odrl_scope
accepted-Applies_example =
    accepted-Applies list_store owners clock json "2" "http://example.org/1"
      "https://alice.example/" "http://pod.example/photo" "http://www.w3.org/ns/odrl/2/read"
      "https://bob.example/" owned asked (resolved "accepted") bob accepts (λ p o. refl) (λ o. refl)
      refl refl refl refl

get_requests-IsInvolved_example :
    (node : Term) × IsInvolved list_store owners owned asked "https://alice.example/" node
    × (contains_quad
          (quads_of_request list_store owners asked node)
          (quad (entity_node "1") Sotw.request_status Sotw.requested)
        ≡ true)
unfolding request_quads constraint_quads get_requests quads_of_request quad_eq term_eq
get_requests-IsInvolved_example =
    get_requests-IsInvolved list_store owners (pattern_engine list_store) owned asked
      "https://alice.example/" (quads_of_request list_store owners asked (entity_node "1"))
      (quad (entity_node "1") Sotw.request_status Sotw.requested) refl refl refl refl

abbrev site : Environment
site = record {
  join_url = λ base id. id;
  json_status = λ body. some (some "accepted");
  patch_content_type = "application/json";
}

abbrev patch : Request
patch = record {
  method = "PATCH";
  url = "http://as.example/uma/requests";
  id = some "http://example.org/1";
  body = some "accept it";
}

abbrev parse : String → Option AccessRequest
parse body = some photo

abbrev new_store : List Quad → List Quad
new_store qs = qs

abbrev endpoint : Controller (List Quad)
endpoint =
    request_controller list_store owners parse new_store (pattern_engine list_store) texts "2" owned

handle_written_example :
    ((handle endpoint site (ok alice) patch asked).1 ≡ asked)
    ⊎ ((verified : ClaimSet) × (client : String) × (ok alice ≡ ok verified)
        × (head? (user_ids (claims_of verified webid)) ≡ some client)
        × IsWritten list_store owners parse new_store
            (pattern_engine list_store)
            texts
            "2"
            owned
            site
            patch
            client
            asked
            (handle endpoint site (ok alice) patch asked).1)
handle_written_example =
    handle_written list_store owners parse new_store (pattern_engine list_store) texts "2" owned
      site (ok alice) patch asked refl

-- A controller whose deletions take everything that has the entity as its subject.
abbrev of_entity : List Quad → String → List Quad
of_entity s entity = list_store.get_quads s (some (named entity)) none none

abbrev sanitize : Sanitizers list_store
sanitize = record {
  post = λ store client. ok (store, "http://example.org/1");
  delete = λ s entity client. ok (list_store.remove_quads s (of_entity s entity));
  gets = λ s client. ok s;
  get = λ s entity client. ok (of_entity s entity);
  patch = λ s entity client information. ok [];
}

abbrev other : List Quad
other = quad (named "http://example.org/7") RdfType.type Odrl.agreement ∷ []

has-patch_entity_example :
    (before patched after : List Quad) × (sanitize.get other "http://example.org/7"
        "https://bob.example/"
      ≡ ok before)
    × (sanitize.patch before "http://example.org/7" "https://bob.example/" "" ≡ ok patched)
    × (sanitize.get patched "http://example.org/7" "https://bob.example/" ≡ ok after)
    × ((q : Quad)
        → contains_quad [] q
          ≡ ((contains_quad other q && not (contains_quad before q)) || contains_quad after q))
unfolding patch_entity quad_eq term_eq
has-patch_entity_example =
    has-patch_entity list_store sanitize "http://example.org/7" "" "https://bob.example/" other []
      204 refl

abbrev family : List Quad
family =
    quad (named "http://as.example/family") Dc.creator (named "https://bob.example/")
    ∷ (quad (named "https://carol.example/") Odrl.part_of (named "http://as.example/family") ∷ [])

abbrev rename : Collections.Request
rename = record {
  method = "PUT";
  url = "http://as.example/family";
  id = some "family";
  body = some (party none ("https://bob.example/" ∷ []) []);
}

abbrev join_url : String → String → String
join_url base id = id

abbrev renamed : List Quad
renamed =
    replace_collection list_store owners new_store join_url owned family
      (named "http://as.example/family")
      (quad (named "http://as.example/family") RdfType.type Odrl.party_collection
        ∷ (quad (named "http://as.example/family") Dc.creator (named "https://bob.example/") ∷ []))

has-handle_put_example :
    (quads : List Quad) × (description_to_quads owners owned rename.body "https://bob.example/"
        (named "http://as.example/family")
      ≡ ok quads)
    × (contains_quad family
          (quad (named "http://as.example/family") Dc.creator (named "https://bob.example/"))
        ≡ true)
    × ((q : Quad)
        → contains_quad renamed q ≡ (
            contains_quad quads q
            || (contains_quad family q
                && not (is_about list_store (named "http://as.example/family") q))))
unfolding handle_put check_change verify_ownership new_quads description_to_quads check_description
    collection_quads quad_eq term_eq
has-handle_put_example =
    has-handle_put list_store owners new_store join_url owned rename "https://bob.example/" family
      renamed no_content (λ qs q. refl) refl

abbrev registering : ClientRegistration.Request
registering = record {
  method = "POST";
  url = "http://as.example/reg";
  id = none;
  body = some (record { client_name = none; client_uri = "http://pod.example/" });
}

handle-HasOneClient_example :
    length (
      (row_storage Client).find
        (ClientRegistration.handle
          (row_storage Client)
          join_url
          "id"
          "secret"
          (ok bob)
          registering
          []).1
        (of_user_uri "https://bob.example/" "http://pod.example/"))
    ≤ 1
handle-HasOneClient_example =
    handle-HasOneClient (row_storage Client) join_url "id" "secret" (ok bob) registering []
      (λ user uri. omega arith) "https://bob.example/" "http://pod.example/"
