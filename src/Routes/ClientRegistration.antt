-- ===== src/Routes/ClientRegistration.antt =====
-- packages/uma/src/routes/ClientRegistration.ts: the clients that a user registers, such as a resource
-- server. `claims` is what the credential parser and the verifier make of a request, a body is `none`
-- where `reType` refuses it, `client_id` and `client_secret` are the new texts of a call, and `location`
-- makes the URL of a client.
pub mod Unique
use user_managed_access.Prelude.{
  String, Option, none, some, List, map, Bool, true, false, ◌&&◌, ◌==◌, if◌then◌else◌, is_empty,
  head?,
}
use user_managed_access.Http.{
  Outcome, ok, fail, bad_request, unauthorized, forbidden, not_found, conflict, method_not_allowed,
  internal_server_error,
}
use user_managed_access.Http.Exec.{Exec}
use user_managed_access.Storage.Indexed.{IndexedStorage}
use user_managed_access.Views.{ClaimSet, claims_of, webid}
use user_managed_access.Routes.UmaProtection.{Client}
use user_managed_access.Routes.Entities.{user_ids}

pub record ClientRegistrationInput : Type 0 where
  pub client_name : Option String
  pub client_uri : String

pub record Request : Type 0 where
  pub method : String
  pub url : String
  pub id : Option String
  pub body : Option ClientRegistrationInput

-- A client as it is listed: without its secret.
pub record Listed : Type 0 where
  pub name : Option String
  pub uri : String
  pub id : String

pub data Response : Type 0 where
  clients : List Listed → Response
  registered : (location : String) → Client → Response
  no_content : Response

abbrev pub listed : Client → Listed
listed c = record { name = c.client_name; uri = c.client_uri; id = c.client_id }

-- The queries of the handler.
abbrev pub of_user : String → Client → Bool
of_user user c = c.user_id == user

abbrev pub of_user_uri : String → String → Client → Bool
of_user_uri user uri c = (c.user_id == user) && (c.client_uri == uri)

abbrev pub has_id : String → Client → Bool
has_id id c = c.client_id == id

module _ (C : IndexedStorage Client) where
  unfoldable pub get_clients : String → Exec C.State Response
  get_clients user s = (ok (clients (map (λ e. listed e.1) (C.find s (of_user user)))), s)

  unfoldable pub register_client :
      (String → String → String) → String → String → Request → String → Exec C.State Response
  register_client location client_id client_secret request user s = elim request.body [
    | none ↦ (fail bad_request, s)
    | some body ↦
        let client : Client = record {
          client_name = body.client_name;
          client_uri = body.client_uri;
          client_id = client_id;
          client_secret = client_secret;
          user_id = user;
        } in
        if is_empty (C.find s (of_user_uri user body.client_uri))
        then (ok (registered (location request.url client_id) client), C.create s client)
        else (fail conflict, s)
  ]

  unfoldable pub delete_client : Request → String → Exec C.State Response
  delete_client request user s = elim request.id [
    | none ↦ (fail internal_server_error, s)
    | some id ↦ elim (head? (C.find s (has_id id))) [
      | none ↦ (fail not_found, s)
      | some (i, client) ↦
          if client.user_id == user then (ok no_content, C.delete s i) else (fail forbidden, s)
    ]
  ]

  unfoldable pub dispatch :
      (String → String → String) → String → String → Request → String → Exec C.State Response
  unfolding get_clients register_client delete_client
  dispatch location client_id client_secret request user s =
      if request.method == "GET"
      then get_clients user s
      else if request.method == "POST"
      then register_client location client_id client_secret request user s
      else if request.method == "DELETE"
      then delete_client request user s
      else (fail method_not_allowed, s)

  unfoldable pub handle :
      (String → String → String)
      → String
      → String
      → Outcome ClaimSet
      → Request
      → Exec C.State Response
  unfolding user_ids dispatch
  handle location client_id client_secret claims request s = elim claims [
    | fail e ↦ (fail e, s)
    | ok verified ↦ elim (head? (user_ids (claims_of verified webid))) [
      | none ↦ (fail unauthorized, s)
      | some user ↦ dispatch location client_id client_secret request user s
    ]
  ]
