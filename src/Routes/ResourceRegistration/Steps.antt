-- ===== src/Routes/ResourceRegistration/Steps.antt =====
-- What a request does to the stores: nothing, or one of three transitions.
use user_managed_access.Prelude.{
  String, none, some, List, Bool, true, false, ◌==◌, ◌≡◌, refl, ℕ, if◌then◌else◌, truthy, or_else,
  is_some, arith, Option-cases, inl, inr,
}
use user_managed_access.Http.{Outcome, ok, fail, method_not_allowed, Outcome-cases}
use user_managed_access.Http.Exec.{Exec, ◌>>=◌, ◌>>◌, lift, modify}
use user_managed_access.Rdf.{Term, QuadStore}
use user_managed_access.Storage.{KeyValueStorage, has}
use user_managed_access.Views.{ResourceDescription, Registration}
use user_managed_access.Routes.ResourceRegistration.Collections.{Changes}
use user_managed_access.Routes.ResourceRegistration.{
  Request, Response, updated, no_content, Registry, metadata_changes, store_metadata,
  set_resource_metadata, add_owned, register, update, unregister, handle_get, handle_post,
  with_entry, handle_put, handle_delete, dispatch, handle,
}

module _ (R : KeyValueStorage Registration) (O : KeyValueStorage (List String))
    (D : KeyValueStorage String) (Q : QuadStore) where
  -- The transitions that a request of an owner can make.
  pub data Step (owner : String) (s : Registry R O D Q) : Registry R O D Q → Type 0 where
    stays : Step owner s s
    registers :
        (id : String) (d : ResourceDescription) (changes : Changes)
        → is_some (R.get s.registrations id) ≡ false
        → Step owner s
            (add_owned R O D Q owner id (store_metadata R O D Q id d owner none changes s))
    updates :
        (id : String) (d : ResourceDescription) (entry : Registration) (changes : Changes)
        → R.get s.registrations id ≡ some entry
        → (entry.owner == owner) ≡ true
        → Step owner s (store_metadata R O D Q id d owner (some entry.description) changes s)
    removes :
        (id : String) (entry : Registration)
        → R.get s.registrations id ≡ some entry
        → (entry.owner == owner) ≡ true
        → Step owner s (unregister R O D Q id owner s)

  -- The state that a handler leaves is reached by a transition.
  abbrev Steps : {A : Type 0} → String → Registry R O D Q → Outcome A × Registry R O D Q → Type 0
  Steps owner s (r, t) = Step owner s t

  Steps-if :
      {A : Type 0} (owner : String) (s : Registry R O D Q) (b : Bool)
      (x y : Outcome A × Registry R O D Q)
      → (b ≡ true → Steps owner s x)
      → (b ≡ false → Steps owner s y)
      → Steps owner s (if b then x else y)
  Steps-if owner s true x y h k = h refl
  Steps-if owner s false x y h k = k refl

  Steps-register :
      (location : String → Outcome String) (blanks : ℕ → Term) (id : String)
      (d : ResourceDescription) (owner : String) (s : Registry R O D Q)
      → is_some (R.get s.registrations id) ≡ false
      → Steps owner s (register R O D Q location blanks id d owner s)
  unfolding register set_resource_metadata
  Steps-register location blanks id d owner s fresh =
      elim (Outcome-cases (metadata_changes R O D Q blanks id d owner none s.policies)) [
        | inl (changes, e) ↦ elim (Outcome-cases (location id)) [
          | inl (url, k) ↦ rw (e, k) (registers id d changes fresh)
          | inr (x, k) ↦ rw (e, k) (registers id d changes fresh)
        ]
        | inr (x, e) ↦ rw e stays
      ]

  Steps-handle_get :
      (request : Request) (owner : String) (s : Registry R O D Q)
      → Steps owner s (handle_get R O D Q request owner s)
  unfolding handle_get
  Steps-handle_get request owner s =
      Steps-if owner s (truthy request.id) _ _
        (λ e. elim (Option-cases (R.get s.registrations (or_else request.id ""))) [
          | inl missing ↦ rw missing stays
          | inr (r, found) ↦
              rw found (Steps-if owner s (r.owner == owner) _ _ (λ k. stays) (λ k. stays))
        ])
        (λ e. stays)

  Steps-handle_post :
      (location : String → Outcome String) (blanks : ℕ → Term) (uuid : String) (request : Request)
      (owner : String) (s : Registry R O D Q)
      → is_some (R.get s.registrations uuid) ≡ false
      → Steps owner s (handle_post R O D Q location blanks uuid request owner s)
  unfolding handle_post
  Steps-handle_post location blanks uuid request owner s new = elim (Option-cases request.body) [
    | inl missing ↦ rw (missing, handle_post) stays
    | inr (body, given) ↦
        rw (given, handle_post)
          (Steps-if owner s (truthy body.name) _ _
            (λ named.
              Steps-if owner s (has R s.registrations (or_else body.name "")) _ _ (λ k. stays)
                (Steps-register location blanks (or_else body.name "") body owner s))
            (λ anonymous. Steps-register location blanks uuid body owner s new))
  ]

  Steps-update :
      (blanks : ℕ → Term) (id : String) (entry : Registration) (request : Request) (owner : String)
      (s : Registry R O D Q)
      → R.get s.registrations id ≡ some entry
      → (entry.owner == owner) ≡ true
      → Steps owner s (update R O D Q blanks id entry request owner s)
  unfolding update set_resource_metadata
  Steps-update blanks id entry request owner s found mine = elim (Option-cases request.body) [
    | inl missing ↦ rw (missing, update) stays
    | inr (body, given) ↦
        rw (given, update)
          (go body
            (metadata_changes R O D Q blanks id body owner (some entry.description) s.policies))
  ]
    where
      go :
          (body : ResourceDescription) (r : Outcome Changes)
          → Steps owner s (
              ((λ t.
                    (lift r >>= λ changes.
                    modify (store_metadata R O D Q id body owner (some entry.description) changes))
                      t)
                  >> λ t. (ok (updated id), t))
                s)
      go body (ok changes) = updates id body entry changes found mine
      go body (fail e) = stays

  Steps-with_entry :
      (request : Request) (owner : String)
      (act : String → Registration → Exec (Registry R O D Q) Response) (s : Registry R O D Q)
      → ((id : String) (entry : Registration)
          → R.get s.registrations id ≡ some entry
          → (entry.owner == owner) ≡ true
          → Steps owner s (act id entry s))
      → Steps owner s (with_entry R O D Q request owner act s)
  unfolding with_entry
  Steps-with_entry request owner act s h = elim (Option-cases request.id) [
    | inl missing ↦ rw (missing, with_entry) stays
    | inr (id, given) ↦ elim (Option-cases (R.get s.registrations id)) [
      | inl unknown ↦ rw (given, with_entry, unknown) stays
      | inr (entry, found) ↦
          rw (given, with_entry, found)
            (Steps-if owner s (entry.owner == owner) _ _ (h id entry found) (λ k. stays))
    ]
  ]

  Steps-dispatch :
      (location : String → Outcome String) (blanks : ℕ → Term) (uuid : String) (request : Request)
      (owner : String) (s : Registry R O D Q)
      → R.get s.registrations uuid ≡ none
      → Steps owner s (dispatch R O D Q location blanks uuid request owner s)
  unfolding dispatch handle_put handle_delete
  Steps-dispatch location blanks uuid request owner s new =
      Steps-if owner s (request.method == "GET") _ _ (λ k. Steps-handle_get request owner s)
        λ k.
          Steps-if owner s (request.method == "POST") _ _
            (λ l. Steps-handle_post location blanks uuid request owner s (ground (arith, new)))
            λ l.
              Steps-if owner s (request.method == "PUT") _ _
                (λ m.
                  Steps-with_entry request owner
                    (λ id entry. update R O D Q blanks id entry request owner) s
                    λ id entry found mine. Steps-update blanks id entry request owner s found mine)
                λ m.
                  Steps-if owner s (request.method == "DELETE") _ (fail method_not_allowed, s)
                    (λ n.
                      Steps-with_entry request owner
                        (λ id entry t. (ok no_content, unregister R O D Q id owner t)) s
                        λ id entry found mine. removes id entry found mine)
                    λ n. stays

  -- A request of a validated owner makes one of the transitions, if the identifier that may be drawn
  -- for a resource without a name is not in use.
  pub handle-Step :
      (location : String → Outcome String) (blanks : ℕ → Term) (uuid owner : String)
      (request : Request) (s : Registry R O D Q)
      → R.get s.registrations uuid ≡ none
      → Step owner s (handle R O D Q location blanks uuid (ok owner) request s).1
  unfolding handle
  handle-Step location blanks uuid owner request s new =
      Steps-dispatch location blanks uuid request owner s new
