-- ===== src/Routes/Entities/Dispatch.antt =====
-- Who changes access requests through their endpoint, and how.
use user_managed_access.Prelude.{
  String, Option, none, some, List, false, ◌==◌, ◌≡◌, ◌⊎◌, inl, inr, refl, ap, ◌∙◌, head?, truthy,
  arith, eq_iff, Bool-cases, Option-cases, is_empty,
}
use user_managed_access.Http.{Outcome, ok, fail, HttpError, Outcome-cases}
use user_managed_access.Http.Exec.{Exec}
use user_managed_access.Rdf.{Quad, QuadStore}
use user_managed_access.Storage.{KeyValueStorage}
use user_managed_access.Views.{ClaimSet, claims_of, webid}
use user_managed_access.Controllers.Base.{
  Controller, Sanitizers, get_entity, get_entities, patch_entity, apply_difference,
}
use user_managed_access.Controllers.Base.Diffs.{has-apply_difference}
use user_managed_access.Controllers.AccessRequests.{
  AccessRequest, SparqlEngine, Texts, request_quads, add_request, patch_request, get_request,
  get_requests, request_sanitizers, request_controller,
}
use user_managed_access.Routes.Entities.{
  Request, Response, Environment, user_ids, body_of, handle_single_get, handle_patch, handle_put,
  handle_delete, handle_get, handle_post, handle_collection, handle_single, dispatch, handle,
}

-- A patch that is not isolated writes what the sanitizer leaves.
patch_entity_whole :
    (Q : QuadStore) (sanitize : Sanitizers Q) (id status client : String) (s u : Q.State)
    → sanitize.patch s id client status ≡ ok u
    → patch_entity Q sanitize id status client false s ≡ (ok 204, apply_difference Q s u)
unfolding patch_entity
patch_entity_whole Q sanitize id status client s u h = ground (arith, h)

patch_entity_refused :
    (Q : QuadStore) (sanitize : Sanitizers Q) (id status client : String) (s : Q.State)
    (x : HttpError)
    → sanitize.patch s id client status ≡ fail x
    → patch_entity Q sanitize id status client false s ≡ (fail x, s)
unfolding patch_entity
patch_entity_refused Q sanitize id status client s x h = ground (arith, h)

module _ (Q : QuadStore) (O : KeyValueStorage (List String)) (parse : String → Option AccessRequest)
    (new_store : List Quad → Q.State) (engine : SparqlEngine Q) (texts : Texts) (uuid : String)
    (ownership : O.State) (env : Environment) where
  abbrev requests : Controller Q.State
  requests = request_controller Q O parse new_store engine texts uuid ownership

  -- The client created a request, or resolved one.
  pub data IsWritten (request : Request) (client : String) (s t : Q.State) : Type 0 where
    created :
        (body : String) (json : AccessRequest)
        → request.method ≡ "POST"
        → parse body ≡ some json
        → t ≡ Q.add_quads s (request_quads texts uuid client json)
        → IsWritten request client s t
    resolved :
        (id status : String) (u : Q.State)
        → request.method ≡ "PATCH"
        → patch_request Q O uuid ownership s id client status ≡ ok u
        → ((q : Quad) → Q.has t q ≡ Q.has u q)
        → IsWritten request client s t

  handle_get_kept : (client : String) (s : Q.State) → (handle_get requests env client s).1 ≡ s
  unfolding handle_get request_controller request_sanitizers get_entities
  handle_get_kept client s = elim (Outcome-cases (get_requests Q O engine ownership s client)) [
    | inl (found, e) ↦ rw e refl
    | inr (x, e) ↦ rw e refl
  ]

  handle_single_get_kept :
      (id client : String) (s : Q.State) → (handle_single_get requests env id client s).1 ≡ s
  unfolding handle_single_get request_controller request_sanitizers get_entity
  handle_single_get_kept id client s =
      elim (Outcome-cases (get_request Q O ownership s id client)) [
        | inl (found, e) ↦ rw e refl
        | inr (x, e) ↦ rw e refl
      ]

  handle_put_kept :
      (request : Request) (id client : String) (s : Q.State)
      → (handle_put requests env request id client s).1 ≡ s
  unfolding handle_put request_controller
  handle_put_kept request id client s = elim (Option-cases (body_of request)) [
    | inl e ↦ rw (e, handle_put) refl
    | inr (body, e) ↦ rw (e, handle_put) refl
  ]

  handle_delete_kept :
      (id client : String) (s : Q.State) → (handle_delete requests env id client s).1 ≡ s
  unfolding handle_delete request_controller
  handle_delete_kept id client s = refl

  handle_post_written :
      (request : Request) (client : String) (s : Q.State)
      → request.method ≡ "POST"
      → ((handle_post requests env request client s).1 ≡ s)
        ⊎ IsWritten request client s (handle_post requests env request client s).1
  unfolding handle_post request_controller add_request
  handle_post_written request client s post = elim (Option-cases (body_of request)) [
    | inl e ↦ inl (rw (e, handle_post) refl)
    | inr (body, e) ↦ elim (Option-cases (parse body)) [
      | inl bad ↦ inl (rw (e, bad, handle_post) refl)
      | inr (json, fine) ↦ elim (Bool-cases (is_empty json.resource_scopes)) [
        | inl empty ↦ inl (rw (e, fine, empty, handle_post) refl)
        | inr scoped ↦ inr (created body json post fine (rw (e, fine, scoped, handle_post) refl))
      ]
    ]
  ]

  handle_patch_written :
      (request : Request) (id client : String) (s : Q.State)
      → request.method ≡ "PATCH"
      → env.patch_content_type ≡ "application/json"
      → ((handle_patch requests env request id client s).1 ≡ s)
        ⊎ IsWritten request client s (handle_patch requests env request id client s).1
  unfolding handle_patch request_controller request_sanitizers patch_entity
  handle_patch_written request id client s patch is_json = elim (Option-cases (body_of request)) [
    | inl e ↦ inl (rw (e, handle_patch) refl)
    | inr (body, e) ↦ elim (Option-cases (env.json_status body)) [
      | inl bad ↦ inl (rw (e, is_json, bad, handle_patch) refl)
      | inr (none, bare) ↦ inl (rw (e, is_json, bare, handle_patch) refl)
      | inr (some status, fine) ↦
          elim (Outcome-cases (patch_request Q O uuid ownership s id client status)) [
            | inr (x, failed) ↦ inl (
                rw
                  (
                    e,
                    is_json,
                    fine,
                    patch_entity_refused Q (request_sanitizers Q O new_store engine uuid ownership)
                        id status client s x failed,
                    handle_patch,
                  )
                  refl)
            | inl (u, patched) ↦
                let after : (handle_patch requests env request id client s).1
                    ≡ apply_difference Q s u =
                  rw
                    (
                      e,
                      is_json,
                      fine,
                      patch_entity_whole Q (request_sanitizers Q O new_store engine uuid ownership)
                          id status client s u patched,
                      handle_patch,
                    )
                    refl in
                inr (
                  resolved id status u patch patched
                    λ q. ap (λ t. Q.has t q) after ∙ has-apply_difference Q s u q)
          ]
    ]
  ]

  abbrev IsHarmless : Request → String → Q.State → Exec Q.State Response → Type 0
  IsHarmless request client s run = ((run s).1 ≡ s) ⊎ IsWritten request client s (run s).1

  collection_written :
      (request : Request) (client : String) (s : Q.State)
      → IsHarmless request client s (handle_collection requests env request client)
  unfolding handle_collection
  collection_written request client s = elim (Bool-cases (request.method == "GET")) [
    | inl get ↦ inl (rw (get, handle_collection) (handle_get_kept client s))
    | inr more ↦ elim (Bool-cases (request.method == "POST")) [
      | inl post ↦
          let run : handle_collection requests env request client
              ≡ handle_post requests env request client =
            rw (more, post, handle_collection) refl in
          rw run (handle_post_written request client s ((eq_iff request.method "POST").0 post))
      | inr other ↦ inl (rw (more, other, handle_collection) refl)
    ]
  ]

  single_written :
      (request : Request) (id client : String) (s : Q.State)
      → env.patch_content_type ≡ "application/json"
      → IsHarmless request client s (handle_single requests env request id client)
  unfolding handle_single
  single_written request id client s is_json = elim (Bool-cases (request.method == "GET")) [
    | inl get ↦ inl (rw (get, handle_single) (handle_single_get_kept id client s))
    | inr more ↦ elim (Bool-cases (request.method == "PATCH")) [
      | inl patch ↦
          let run : handle_single requests env request id client
              ≡ handle_patch requests env request id client =
            rw (more, patch, handle_single) refl in
          rw run (
            handle_patch_written request id client s ((eq_iff request.method "PATCH").0 patch)
              is_json)
      | inr unpatched ↦ elim (Bool-cases (request.method == "PUT")) [
        | inl put ↦
            inl (rw (more, unpatched, put, handle_single) (handle_put_kept request id client s))
        | inr unput ↦ elim (Bool-cases (request.method == "DELETE")) [
          | inl delete ↦
              inl (
                rw (more, unpatched, unput, delete, handle_single) (handle_delete_kept id client s))
          | inr other ↦ inl (rw (more, unpatched, unput, other, handle_single) refl)
        ]
      ]
    ]
  ]

  dispatch_written :
      (request : Request) (client : String) (s : Q.State)
      → env.patch_content_type ≡ "application/json"
      → IsHarmless request client s (dispatch requests env request client)
  unfolding dispatch
  dispatch_written request client s is_json = elim (Option-cases request.id) [
    | inl missing ↦
        let run : dispatch requests env request client
            ≡ handle_collection requests env request client =
          rw (missing, dispatch) refl in
        rw run (collection_written request client s)
    | inr (id, given) ↦ elim (Bool-cases (truthy (some id))) [
      | inl full ↦
          let run : dispatch requests env request client
              ≡ handle_single requests env request id client =
            rw (given, full, dispatch) refl in
          rw run (single_written request id client s is_json)
      | inr empty ↦
          let run : dispatch requests env request client
              ≡ handle_collection requests env request client =
            rw (given, empty, dispatch) refl in
          rw run (collection_written request client s)
    ]
  ]

  -- Whatever is sent to the endpoint of access requests, and whatever it answers, the store is as it
  -- was, or a user whose identity was verified created a request with a `POST`, or resolved one with a
  -- `PATCH` that the code allows to that user.
  pub handle_written :
      (claims : Outcome ClaimSet) (request : Request) (s : Q.State)
      → env.patch_content_type ≡ "application/json"
      → ((handle requests env claims request s).1 ≡ s)
        ⊎ ((verified : ClaimSet) × (client : String) × (claims ≡ ok verified)
            × (head? (user_ids (claims_of verified webid)) ≡ some client)
            × IsWritten request client s (handle requests env claims request s).1)
  unfolding handle
  handle_written claims request s is_json = elim (Bool-cases (request.method == "OPTIONS")) [
    | inl options ↦ inl (rw (options, handle) refl)
    | inr more ↦ elim (Outcome-cases claims) [
      | inr (x, failed) ↦ inl (rw (more, failed, handle) refl)
      | inl (verified, fine) ↦ elim (Option-cases (head? (user_ids (claims_of verified webid)))) [
        | inl nobody ↦ inl (rw (more, fine, nobody, handle) refl)
        | inr (client, first) ↦
            let run : handle requests env claims request s
                ≡ dispatch requests env request client s =
              rw (more, fine, first, handle) refl in
            elim (dispatch_written request client s is_json) [
              | inl same ↦ inl (rw run same)
              | inr written ↦ inr (verified, client, fine, first, rw run written)
            ]
      ]
    ]
  ]
