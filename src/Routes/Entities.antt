-- ===== src/Routes/Entities.antt =====
-- packages/uma/src/routes/BaseHandler.ts: the endpoints of policies and of access requests. What the
-- credential parser and the verifier make of a request is an argument, `claims`. The join of two URLs
-- and the reading of a JSON body are parameters: `json_status` is `none` where `JSON.parse` throws, and
-- has no status where the code finds none that is true in a test.
pub mod Dispatch
use user_managed_access.Prelude.{
  String, Option, none, some, List, [], ◌∷◌, Bool, true, false, ◌==◌, if◌then◌else◌, ℕ, head?,
  truthy,
}
use user_managed_access.Http.{
  Outcome, ok, fail, bad_request, unauthorized, method_not_allowed, plain_error,
}
use user_managed_access.Http.Exec.{Exec, ◌>>=◌, pure, throw}
use user_managed_access.Rdf.{Quad}
use user_managed_access.Views.{ClaimSet, Claim, text, access, object, claims_of, webid}
use user_managed_access.Controllers.Base.{Controller, Answer, Created}

pub record Request : Type 0 where
  pub method : String
  pub url : String
  pub id : Option String
  pub body : Option String

pub record Response : Type 0 where
  pub status : ℕ
  pub body : List Quad
  pub location : Option String

abbrev pub with_status : ℕ → Response
with_status status = record { status = status; body = []; location = none }

pub record Environment : Type 0 where
  pub join_url : String → String → String
  pub json_status : String → Option (Option String)
  pub patch_content_type : String

-- The identifiers of users among the claims: those that are texts.
unfoldable pub user_ids : List Claim → List String
user_ids [] = []
user_ids (text user ∷ rest) = user ∷ user_ids rest
user_ids (_ ∷ rest) = user_ids rest

-- A missing or an empty body.
abbrev pub body_of : Request → Option String
body_of request = elim request.body [
  | none ↦ none
  | some body ↦ if truthy (some body) then some body else none
]

module _ {S : Type 0} (controller : Controller S) (env : Environment) where
  unfoldable pub handle_single_get : String → String → Exec S Response
  handle_single_get entity client = controller.get_entity entity client >>= λ found.
      pure (record { status = found.status; body = found.message; location = none })

  unfoldable pub handle_patch : Request → String → String → Exec S Response
  handle_patch request entity client = elim (body_of request) [
    | none ↦ throw bad_request
    | some body ↦
        if env.patch_content_type == "application/json"
        then elim (env.json_status body) [
          | none ↦ throw plain_error
          | some none ↦ throw bad_request
          | some (some status) ↦
              controller.patch_entity entity status client false >>= λ done. pure (with_status done)
        ]
        else (controller.patch_entity entity body client true >>= λ done. pure (with_status done))
  ]

  unfoldable pub handle_put : Request → String → String → Exec S Response
  handle_put request entity client = elim (body_of request) [
    | none ↦ throw bad_request
    | some body ↦ (controller.put_entity body entity client >>= λ done. pure (with_status done))
  ]

  unfoldable pub handle_delete : String → String → Exec S Response
  handle_delete entity client =
      controller.delete_entity entity client >>= λ done. pure (with_status done)

  unfoldable pub handle_get : String → Exec S Response
  handle_get client = controller.get_entities client >>= λ found.
      pure (record { status = found.status; body = found.message; location = none })

  unfoldable pub handle_post : Request → String → Exec S Response
  handle_post request client = elim (body_of request) [
    | none ↦ throw bad_request
    | some body ↦ controller.add_entity body client >>= λ created. pure (record {
      status = created.status;
      body = [];
      location = some (env.join_url request.url created.id);
    })
  ]

  -- The switch on the method, without and with an identifier. An empty identifier counts as none.
  unfoldable pub handle_collection : Request → String → Exec S Response
  unfolding handle_get handle_post
  handle_collection request client =
      if request.method == "GET"
      then handle_get client
      else if request.method == "POST"
      then handle_post request client
      else throw method_not_allowed

  unfoldable pub handle_single : Request → String → String → Exec S Response
  unfolding handle_single_get handle_patch handle_put handle_delete
  handle_single request id client =
      if request.method == "GET"
      then handle_single_get id client
      else if request.method == "PATCH"
      then handle_patch request id client
      else if request.method == "PUT"
      then handle_put request id client
      else if request.method == "DELETE"
      then handle_delete id client
      else throw method_not_allowed

  unfoldable pub dispatch : Request → String → Exec S Response
  unfolding handle_collection handle_single
  dispatch request client = elim request.id [
    | none ↦ handle_collection request client
    | some id ↦
        if truthy (some id)
        then handle_single request id client
        else handle_collection request client
  ]

  -- `OPTIONS` is answered before the credentials are looked at.
  unfoldable pub handle : Outcome ClaimSet → Request → Exec S Response
  unfolding user_ids dispatch
  handle claims request s =
      if request.method == "OPTIONS" then (ok (with_status 204), s) else elim claims [
        | fail e ↦ (fail e, s)
        | ok verified ↦ elim (head? (user_ids (claims_of verified webid))) [
          | none ↦ (fail unauthorized, s)
          | some client ↦ dispatch request client s
        ]
      ]
