-- ===== src/Controllers/AccessRequests.antt =====
-- packages/uma/src/controller/AccessRequestController.ts. The two SPARQL queries have one pattern each,
-- with names written into their texts; the engine that runs them is a parameter. So are the parser of RDF terms and the join of a name
-- and a suffix stands for the template text. `uuid` is the new identifier of a call.
pub mod Checks
pub mod Patching
pub mod Accepting
pub mod Visibility
pub mod Creating
use Prim.Native.String
use user_managed_access.Prelude.{
  all, String, Option, none, some, List, [], ◌∷◌, ◌++◌, map, Bool, true, false, not, ◌==◌, ◌||◌,
  ◌&&◌, if◌then◌else◌, any, contains, filter, flat_map, is_empty, ℕ, suc, length, nat_beq, or_else,
  head?, ◌≡◌,
}
use user_managed_access.Http.{
  Outcome, ok, fail, bad_request, forbidden, not_found, conflict, internal_server_error,
  plain_error, ◌>>=◌,
}
use user_managed_access.Http.Exec.{Exec}
use user_managed_access.Rdf.{Term, named, value, term_eq, Quad, quad, contains_term, QuadStore}
use user_managed_access.Rdf.Vocabulary.Odrl
use user_managed_access.Rdf.Vocabulary.RdfType
use user_managed_access.Rdf.Vocabulary.Sotw
use user_managed_access.Storage.{KeyValueStorage}
use user_managed_access.Controllers.Base.{
  Created, Sanitizers, Controller, get_entities, get_entity, patch_entity,
}

abbrev pub join : String → String → String
join a b = String.◌++◌ a b

pub record AccessRequest : Type 0 where
  pub resource_id : String
  pub resource_scopes : List String
  pub constraints : Option (List (String × String × String))

-- `queryBindings` on one of the two queries of `getAccessRequests`, whose texts differ in the predicate
-- and in the names that are written into them, as they are, between `<` and `>`. It may throw. If all names
-- are IRIs (in SPARQL: none of the characters that end or break an IRI), the answer is the distinct subjects
-- that have one of the named objects under the predicate. Of other names, which make other queries,
-- nothing is assumed.
pub record SparqlEngine (Q : QuadStore) : Type 0 where
  pub is_iri : String → Bool
  pub query : Q.State → Term → List String → Outcome (List Term)
  pub contains-query :
      (s : Q.State) (predicate : Term) (names : List String)
      → all is_iri names ≡ true
      → (nodes : List Term) × (query s predicate names ≡ ok nodes)
        × ((t : Term)
            → contains_term nodes t ≡ any (λ o. Q.has s (quad t predicate o)) (map named names))

-- `constraintIdx` in decimal digits, and `stringToTerm`.
pub record Texts : Type 0 where
  pub digits : ℕ → String
  pub string_to_term : String → Term

abbrev pub entity_node : String → Term
entity_node uuid = named (join "http://example.org/" uuid)

abbrev pub permission_node : String → Term
permission_node uuid = named (join (join "http://example.org/" uuid) "-permission")

-- The triples of the constraints, of which `n` came before.
unfoldable pub constraint_quads : Texts → String → ℕ → List (String × String × String) → List Quad
constraint_quads texts uuid n [] = []
constraint_quads texts uuid n ((left, op, right) ∷ rest) =
    let subject = entity_node uuid in
    let node = named (join (value subject) (join "-constraint-" (texts.digits (suc n)))) in
    quad subject Odrl.constraint node
    ∷ (quad node RdfType.type Odrl.constraint_class
        ∷ (quad node Odrl.left_operand (texts.string_to_term left)
            ∷ (quad node Odrl.operator (texts.string_to_term op)
                ∷ (quad node Odrl.right_operand (texts.string_to_term right)
                    ∷ constraint_quads texts uuid (suc n) rest))))

unfoldable pub request_quads : Texts → String → String → AccessRequest → List Quad
unfolding constraint_quads
request_quads texts uuid client request =
    let subject = entity_node uuid in
    quad subject RdfType.type Sotw.evaluation_request
    ∷ (quad subject Sotw.requested_target (named request.resource_id)
        ∷ (quad subject Sotw.requesting_party (named client)
            ∷ (quad subject Sotw.request_status Sotw.requested
                ∷ (map (λ scope. quad subject Sotw.requested_action (named scope))
                      request.resource_scopes
                    ++ constraint_quads texts uuid 0 (or_else request.constraints [])))))

-- The request that a patch reads: its first target, and one party with some actions.
pub record Pending : Type 0 where
  pub target : Term
  pub party : Term
  pub actions : List Term

-- The status of a request must be one, and `requested`.
unfoldable pub check_status : List Term → Outcome (Unit {0})
check_status (status ∷ []) = if term_eq status Sotw.requested then ok tt else fail conflict
check_status _ = fail internal_server_error

unfoldable pub check_parties : List Term → List Term → Outcome Term
check_parties actions (party ∷ []) =
    if is_empty actions then fail internal_server_error else ok party
check_parties actions _ = fail internal_server_error

module _ (Q : QuadStore) (O : KeyValueStorage (List String)) where
  abbrev pub owns : O.State → String → Term → Bool
  owns ownership client target = contains (or_else (O.get ownership client) []) (value target)

  abbrev pub objects_of : Q.State → Term → Term → List Term
  objects_of s subject predicate = Q.get_objects s (some subject) (some predicate)

  -- `none` is a body that is no JSON or that `reType` refuses.
  unfoldable pub add_request : Texts → String → Option AccessRequest → String → Exec Q.State Created
  unfolding request_quads
  add_request texts uuid none client s = (fail bad_request, s)
  add_request texts uuid (some request) client s =
      if is_empty request.resource_scopes then (fail bad_request, s) else (
        ok (record { status = 201; id = value (entity_node uuid) }),
        Q.add_quads s (request_quads texts uuid client request),
      )

  -- `getRequestQuads`: the quads of a request, and those of its constraints.
  unfoldable pub quads_of_request : Q.State → Term → List Quad
  quads_of_request s subject =
      Q.get_quads s (some subject) none none
      ++ flat_map (λ constraint. Q.get_quads s (some constraint) none none)
          (objects_of s subject Odrl.constraint)

  unfoldable pub get_requests : SparqlEngine Q → O.State → Q.State → String → Outcome (List Quad)
  unfolding quads_of_request
  get_requests engine ownership s client =
      let resources = or_else (O.get ownership client) [] in
      engine.query s Sotw.requesting_party (client ∷ []) >>= λ requested.
      (if is_empty resources then ok [] else engine.query s Sotw.requested_target resources)
      >>= λ owned.
          ok (flat_map (quads_of_request s) requested ++ flat_map (quads_of_request s) owned)

  -- Who is not the requester may be the owner of the one target.
  unfoldable pub owns_target : O.State → String → List Term → Outcome Bool
  owns_target ownership client (target ∷ []) = ok (owns ownership client target)
  owns_target ownership client _ = fail internal_server_error

  unfoldable pub is_visible : O.State → Q.State → Term → String → Outcome Bool
  unfolding owns_target
  is_visible ownership s node client =
      if any (λ requester. value requester == client) (objects_of s node Sotw.requesting_party)
      then ok true
      else owns_target ownership client (objects_of s node Sotw.requested_target)

  unfoldable pub get_request : O.State → Q.State → String → String → Outcome (List Quad)
  unfolding quads_of_request is_visible
  get_request ownership s request client =
      let node = named request in
      if is_empty (objects_of s node Sotw.requesting_party)
      then fail not_found
      else (is_visible ownership s node client >>= λ visible.
          if visible then ok (quads_of_request s node) else fail forbidden)

  -- The triples of the policy that an accepted request becomes.
  unfoldable pub policy_quads :
      String → Q.State → Term → String → Term → Term → List Term → List Quad
  policy_quads uuid s node client target party actions =
      let policy = entity_node uuid in
      let permission = permission_node uuid in
      quad policy RdfType.type Odrl.agreement
      ∷ (quad policy Odrl.uid policy
          ∷ (quad policy Odrl.permission permission
              ∷ (quad permission RdfType.type Odrl.permission_class
                  ∷ (map (λ action. quad permission Odrl.action action) actions
                      ++ (quad permission Odrl.target target
                          ∷ (quad permission Odrl.assignee party
                              ∷ (quad permission Odrl.assigner (named client)
                                  ∷ flat_map
                                      (λ constraint.
                                        quad permission Odrl.constraint constraint
                                        ∷ Q.get_quads s (some constraint) none none)
                                      (objects_of s node Odrl.constraint))))))))

  -- `SOTW.terms[patchInformation]`
  abbrev pub status_term : String → Term
  status_term information = if information == "accepted" then Sotw.accepted else Sotw.denied

  -- The status of a request is replaced, and an accepted request becomes a policy.
  unfoldable pub resolve_request :
      String → Q.State → Term → String → String → Term → Term → List Term → Q.State
  unfolding policy_quads
  resolve_request uuid s node client information target party actions =
      let removed = Q.remove_quads s (quad node Sotw.request_status Sotw.requested ∷ []) in
      let changed =
        Q.add_quads removed (quad node Sotw.request_status (status_term information) ∷ []) in
      if information == "accepted"
      then Q.add_quads changed (policy_quads uuid changed node client target party actions)
      else changed

  -- The status is looked at before the actions and the parties are.
  unfoldable pub check_pending : Q.State → Term → Term → Outcome Pending
  unfolding check_status check_parties
  check_pending s node target = check_status (objects_of s node Sotw.request_status) >>= λ checked.
      check_parties (objects_of s node Sotw.requested_action)
        (objects_of s node Sotw.requesting_party)
      >>= λ party. ok (record {
        target = target;
        party = party;
        actions = objects_of s node Sotw.requested_action;
      })

  unfoldable pub check_patch : O.State → Q.State → Term → String → String → Outcome Pending
  unfolding check_pending
  check_patch ownership s node client information =
      elim (head? (objects_of s node Sotw.requested_target)) [
        | none ↦ fail not_found
        | some target ↦
            if (information == "accepted") || (information == "denied")
            then if owns ownership client target
              then check_pending s node target
              else fail forbidden
            else fail bad_request
      ]

  unfoldable pub patch_request :
      String → O.State → Q.State → String → String → String → Outcome Q.State
  unfolding check_patch resolve_request
  patch_request uuid ownership s request client information = do
    pending ← check_patch ownership s (named request) client information
    ok (
        resolve_request uuid s (named request) client information pending.target pending.party
          pending.actions)

  -- The functions that the base class is made with: `new_store` is `new Store(quads)`, and a call of
  -- one that is `null` throws.
  unfoldable pub request_sanitizers :
      (List Quad → Q.State) → SparqlEngine Q → String → O.State → Sanitizers Q
  unfolding get_requests get_request patch_request
  request_sanitizers new_store engine uuid ownership = record {
    post = λ store client. fail plain_error;
    delete = λ s entity client. fail plain_error;
    gets = λ s client. get_requests engine ownership s client >>= λ found. ok (new_store found);
    get =
        λ s entity client. get_request ownership s entity client >>= λ found. ok (new_store found);
    patch = λ s entity client information. patch_request uuid ownership s entity client information;
  }

  -- The class: its own methods, and those of the base class. `uuid` is the new identifier of a call,
  -- and `parse` is `JSON.parse` with the check of its type.
  unfoldable pub request_controller :
      (String → Option AccessRequest)
      → (List Quad → Q.State)
      → SparqlEngine Q
      → Texts
      → String
      → O.State
      → Controller Q.State
  unfolding request_sanitizers add_request get_entities get_entity patch_entity
  request_controller parse new_store engine texts uuid ownership =
      let sanitize = request_sanitizers new_store engine uuid ownership in
      record {
        get_entities = get_entities Q sanitize;
        get_entity = get_entity Q sanitize;
        add_entity = λ body client. add_request texts uuid (parse body) client;
        patch_entity = patch_entity Q sanitize;
        put_entity = λ body entity client s. (fail forbidden, s);
        delete_entity = λ entity client s. (fail forbidden, s);
      }
