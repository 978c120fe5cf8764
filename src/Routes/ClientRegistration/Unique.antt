-- ===== src/Routes/ClientRegistration/Unique.antt =====
-- A user has one client at most under a URI, and loses none to others.
use user_managed_access.Prelude.{
  String, some, List, [], ◌∷◌, Bool, true, ◌==◌, ◌≡◌, refl, subst, is_empty, head?, ◌≤◌, length,
  arith, eq_iff, Bool-cases, Option-cases, inl, inr,
}
use user_managed_access.Http.{Outcome, Outcome-cases}
use user_managed_access.Storage.Indexed.{IndexedStorage}
use user_managed_access.Views.{ClaimSet, claims_of, webid}
use user_managed_access.Routes.UmaProtection.{Client}
use user_managed_access.Routes.Entities.{user_ids}
use user_managed_access.Routes.ClientRegistration.{
  Request, of_user_uri, has_id, get_clients, register_client, delete_client, dispatch, handle,
}

length_nil : {A : Type 0} (xs : List A) → is_empty xs ≡ true → length xs ≡ 0
length_nil [] h = refl
length_nil (x ∷ xs) h = cc

module _ (C : IndexedStorage Client) (location : String → String → String)
    (client_id client_secret : String) where
  abbrev pub HasOneClient : C.State → Type 0
  HasOneClient s = (user uri : String) → length (C.find s (of_user_uri user uri)) ≤ 1

  create-HasOneClient :
      (s : C.State) (client : Client)
      → HasOneClient s
      → is_empty (C.find s (of_user_uri client.user_id client.client_uri)) ≡ true
      → HasOneClient (C.create s client)
  create-HasOneClient s client one missing user uri =
      elim (Bool-cases (of_user_uri user uri client)) [
        | inr other ↦
            ground (arith, one user uri, C.length-create s client (of_user_uri user uri), other)
        | inl same ↦
            let this_user : client.user_id ≡ user =
              ground (arith, same, eq_iff client.user_id user) in
            let this_uri : client.client_uri ≡ uri =
              ground (arith, same, eq_iff client.client_uri uri) in
            let zero : length (C.find s (of_user_uri user uri)) ≡ 0 =
              subst {A = String × String} (λ p. length (C.find s (of_user_uri p.0 p.1)) ≡ 0)
                (λ i. (this_user i, this_uri i))
                (length_nil (C.find s (of_user_uri client.user_id client.client_uri)) missing) in
            ground (arith, zero, C.length-create s client (of_user_uri user uri), same)
      ]

  delete-HasOneClient :
      (s : C.State) (query : Client → Bool) (i : C.Key) (client : Client)
      → HasOneClient s
      → head? (C.find s query) ≡ some (i, client)
      → HasOneClient (C.delete s i)
  delete-HasOneClient s query i client one found user uri =
      omega (arith, one user uri, C.length-delete s query i client (of_user_uri user uri) found)

  register_client-HasOneClient :
      (request : Request) (user : String) (s : C.State)
      → HasOneClient s
      → HasOneClient (register_client C location client_id client_secret request user s).1
  unfolding register_client
  register_client-HasOneClient request user s one = elim (Option-cases request.body) [
    | inl bad ↦ rw (bad, register_client) one
    | inr (body, fine) ↦
        elim (Bool-cases (is_empty (C.find s (of_user_uri user body.client_uri)))) [
          | inr there ↦ rw (fine, there, register_client) one
          | inl missing ↦
              rw (fine, missing, register_client)
                (create-HasOneClient s
                  (record {
                    client_name = body.client_name;
                    client_uri = body.client_uri;
                    client_id = client_id;
                    client_secret = client_secret;
                    user_id = user;
                  })
                  one missing)
        ]
  ]

  delete_client-HasOneClient :
      (request : Request) (user : String) (s : C.State)
      → HasOneClient s
      → HasOneClient (delete_client C request user s).1
  unfolding delete_client
  delete_client-HasOneClient request user s one = elim (Option-cases request.id) [
    | inl bad ↦ rw (bad, delete_client) one
    | inr (id, given) ↦ elim (Option-cases (head? (C.find s (has_id id)))) [
      | inl unknown ↦ rw (given, unknown, delete_client) one
      | inr ((i, client), found) ↦ elim (Bool-cases (client.user_id == user)) [
        | inr theirs ↦ rw (given, found, theirs, delete_client) one
        | inl mine ↦
            rw (given, found, mine, delete_client)
              (delete-HasOneClient s (has_id id) i client one found)
      ]
    ]
  ]

  dispatch-HasOneClient :
      (request : Request) (user : String) (s : C.State)
      → HasOneClient s
      → HasOneClient (dispatch C location client_id client_secret request user s).1
  unfolding dispatch get_clients
  dispatch-HasOneClient request user s one = elim (Bool-cases (request.method == "GET")) [
    | inl get ↦ rw (get, dispatch) one
    | inr more ↦ elim (Bool-cases (request.method == "POST")) [
      | inl post ↦ rw (more, post, dispatch) (register_client-HasOneClient request user s one)
      | inr unposted ↦ elim (Bool-cases (request.method == "DELETE")) [
        | inl delete ↦
            rw (more, unposted, delete, dispatch) (delete_client-HasOneClient request user s one)
        | inr other ↦ rw (more, unposted, other, dispatch) one
      ]
    ]
  ]

  -- Whatever is sent to the endpoint for clients, a user never has two clients under one URI.
  pub handle-HasOneClient :
      (claims : Outcome ClaimSet) (request : Request) (s : C.State)
      → HasOneClient s
      → HasOneClient (handle C location client_id client_secret claims request s).1
  unfolding handle
  handle-HasOneClient claims request s one = elim (Outcome-cases claims) [
    | inr (e, failed) ↦ rw (failed, handle) one
    | inl (verified, fine) ↦ elim (Option-cases (head? (user_ids (claims_of verified webid)))) [
      | inl nobody ↦ rw (fine, nobody, handle) one
      | inr (user, first) ↦ rw (fine, first, handle) (dispatch-HasOneClient request user s one)
    ]
  ]
