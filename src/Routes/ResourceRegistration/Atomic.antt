-- ===== src/Routes/ResourceRegistration/Atomic.antt =====
-- What a request that is refused leaves behind.
use user_managed_access.Prelude.{
  subst, is_some, eq_refl, ◌⊎◌, String, Option, none, some, List, Bool, true, false, ◌==◌, ◌≡◌, ◌≢◌,
  refl, ap, ℕ, if◌then◌else◌, truthy, or_else, arith, Option-cases, inl, inr,
}
use user_managed_access.Http.{Outcome-cases, Outcome, ok, fail, HttpError, method_not_allowed}
use user_managed_access.Http.Exec.{Exec, ◌>>=◌, continue, lift, modify}
use user_managed_access.Rdf.{Term, QuadStore}
use user_managed_access.Storage.{KeyValueStorage, has}
use user_managed_access.Views.{ResourceDescription, Registration}
use user_managed_access.Routes.ResourceRegistration.Collections.{Changes}
use user_managed_access.Routes.ResourceRegistration.{
  Request, Response, add_owned, no_content, unregister, Registry, metadata_changes, store_metadata,
  set_resource_metadata, register, update, handle_get, handle_post, with_entry, handle_put,
  handle_delete, dispatch, handle,
}

module _ (R : KeyValueStorage Registration) (O : KeyValueStorage (List String))
    (D : KeyValueStorage String) (Q : QuadStore) (location : String → Outcome String) where
  -- A new resource is registered, but its URL cannot be written: the name of the request has no encoding.
  abbrev pub IsHalfway : Request → HttpError → Registry R O D Q → Type 0
  IsHalfway request e t =
      ((request.method == "POST") ≡ true)
      × ((id : String) × (location id ≡ fail e) × (is_some (R.get t.registrations id) ≡ true))

  -- An error comes with the state that the call began in, or with a registration that was half done.
  abbrev Refuses : {A : Type 0} → Request → Registry R O D Q → Outcome A × Registry R O D Q → Type 0
  Refuses request s (r, t) = (e : HttpError) → r ≡ fail e → (t ≡ s) ⊎ IsHalfway request e t

  Refuses-modify :
      {A : Type 0} (request : Request) (r : Outcome A) (f : A → Registry R O D Q → Registry R O D Q)
      (s : Registry R O D Q)
      → Refuses request s ((lift r >>= λ a. modify (f a)) s)
  Refuses-modify request (ok a) f s = λ e h. cc
  Refuses-modify request (fail x) f s = λ e h. inl refl

  -- What never fails may follow.
  Refuses-bind :
      {A B : Type 0} (request : Request) (m : Exec (Registry R O D Q) A)
      (f : A → Exec (Registry R O D Q) B) (s : Registry R O D Q)
      → Refuses request s (m s)
      → ((a : A) (t : Registry R O D Q) (e : HttpError) → (f a t).0 ≢ fail e)
      → Refuses request s ((m >>= f) s)
  Refuses-bind request m f s h succeeds = go (m s).0 refl
    where
      go : (r : Outcome _) → (m s).0 ≡ r → Refuses request s (continue r f (m s).1)
      go (ok a) q = λ e k. absurd (succeeds a (m s).1 e k)
      go (fail x) q = λ e k. h e (ground (arith, q, k))

  Refuses-set_resource_metadata :
      (request : Request) (blanks : ℕ → Term) (id : String) (d : ResourceDescription)
      (owner : String) (previous : Option ResourceDescription) (s : Registry R O D Q)
      → Refuses request s (set_resource_metadata R O D Q blanks id d owner previous s)
  unfolding set_resource_metadata
  Refuses-set_resource_metadata request blanks id d owner previous s =
      Refuses-modify request (metadata_changes R O D Q blanks id d owner previous s.policies)
        (store_metadata R O D Q id d owner previous) s

  registered_lem :
      (id : String) (d : ResourceDescription) (owner : String) (changes : Changes)
      (s : Registry R O D Q)
      → is_some (
          R.get
            (add_owned R O D Q owner id
              (store_metadata R O D Q id d owner none changes s)).registrations
            id)
        ≡ true
  registered_lem id d owner changes s = rw (R.get-set, eq_refl id) refl

  Refuses-register :
      (request : Request) (blanks : ℕ → Term) (id : String) (d : ResourceDescription)
      (owner : String) (s : Registry R O D Q)
      → (request.method == "POST") ≡ true
      → Refuses request s (register R O D Q location blanks id d owner s)
  unfolding register set_resource_metadata
  Refuses-register request blanks id d owner s posts =
      elim (Outcome-cases (metadata_changes R O D Q blanks id d owner none s.policies)) [
        | inr (x, bad) ↦ rw bad (λ e h. inl refl)
        | inl (changes, fine) ↦ elim (Outcome-cases (location id)) [
          | inl (url, k) ↦ rw (fine, k) (λ e h. absurd (ground (arith, h)))
          | inr (x, k) ↦
              rw (fine, k)
                (λ e h.
                  inr (posts, (id, ground (arith, k, h), registered_lem id d owner changes s)))
        ]
      ]

  Refuses-handle_get :
      (request : Request) (owner : String) (s : Registry R O D Q)
      → Refuses request s (handle_get R O D Q request owner s)
  unfolding handle_get
  Refuses-handle_get request owner s = λ e h. inl (ground (arith, h))

  Refuses-if :
      {A : Type 0} (request : Request) (b : Bool) (s : Registry R O D Q)
      (x y : Outcome A × Registry R O D Q)
      → (b ≡ true → Refuses request s x)
      → (b ≡ false → Refuses request s y)
      → Refuses request s (if b then x else y)
  Refuses-if request true s x y h k = h refl
  Refuses-if request false s x y h k = k refl

  Refuses-handle_post :
      (blanks : ℕ → Term) (uuid : String) (request : Request) (owner : String)
      (s : Registry R O D Q)
      → (request.method == "POST") ≡ true
      → Refuses request s (handle_post R O D Q location blanks uuid request owner s)
  unfolding handle_post
  Refuses-handle_post blanks uuid request owner s posts = elim (Option-cases request.body) [
    | inl missing ↦ rw (missing, handle_post) (λ e h. inl refl)
    | inr (body, given) ↦
        rw (given, handle_post)
          (Refuses-if request (truthy body.name) s _ _
            (λ named.
              Refuses-if request (has R s.registrations (or_else body.name "")) s _ _
                (λ there e h. inl refl)
                (λ fresh.
                  Refuses-register request blanks (or_else body.name "") body owner s posts))
            (λ anonymous. Refuses-register request blanks uuid body owner s posts))
  ]

  Refuses-with_entry :
      (request : Request) (owner : String)
      (act : String → Registration → Exec (Registry R O D Q) Response) (s : Registry R O D Q)
      → ((id : String) (entry : Registration) → Refuses request s (act id entry s))
      → Refuses request s (with_entry R O D Q request owner act s)
  unfolding with_entry
  Refuses-with_entry request owner act s h = elim (Option-cases request.id) [
    | inl missing ↦ rw (missing, with_entry) (λ e k. inl refl)
    | inr (id, given) ↦ elim (Option-cases (R.get s.registrations id)) [
      | inl unknown ↦ rw (given, with_entry, unknown) (λ e k. inl refl)
      | inr (entry, found) ↦
          rw (given, with_entry, found)
            (Refuses-if request (entry.owner == owner) s _ _ (λ mine. h id entry)
              (λ foreign e k. inl refl))
    ]
  ]

  Refuses-update :
      (blanks : ℕ → Term) (id : String) (entry : Registration) (request : Request) (owner : String)
      (s : Registry R O D Q)
      → Refuses request s (update R O D Q blanks id entry request owner s)
  unfolding update
  Refuses-update blanks id entry request owner s = elim (Option-cases request.body) [
    | inl missing ↦ rw (missing, update) (λ e k. inl refl)
    | inr (body, given) ↦
        rw (given, update)
          (Refuses-bind request
            (set_resource_metadata R O D Q blanks id body owner (some entry.description)) _ s
            (Refuses-set_resource_metadata request blanks id body owner (some entry.description) s)
            (λ a t e h. cc))
  ]

  Refuses-dispatch :
      (blanks : ℕ → Term) (uuid : String) (request : Request) (owner : String)
      (s : Registry R O D Q)
      → Refuses request s (dispatch R O D Q location blanks uuid request owner s)
  unfolding dispatch handle_put handle_delete
  Refuses-dispatch blanks uuid request owner s =
      Refuses-if request (request.method == "GET") s _ _
        (λ gets. Refuses-handle_get request owner s)
        λ k.
          Refuses-if request (request.method == "POST") s _ _
            (Refuses-handle_post blanks uuid request owner s)
            λ l.
              Refuses-if request (request.method == "PUT") s _ _
                (λ puts.
                  Refuses-with_entry request owner
                    (λ id entry. update R O D Q blanks id entry request owner) s
                    (λ id entry. Refuses-update blanks id entry request owner s))
                λ m.
                  Refuses-if request (request.method == "DELETE") s _ (fail method_not_allowed, s)
                    (λ deletes.
                      Refuses-with_entry request owner
                        (λ id entry t. (ok no_content, unregister R O D Q id owner t)) s
                        (λ id entry e h. cc))
                    (λ other e h. inl refl)

  -- A request that ends in an error leaves every store as it was, with one exception: a POST of which the
  -- new identifier cannot be written as a part of a URL ends in the error that this throws, and its
  -- resource is registered nevertheless.
  pub handle_refused :
      (blanks : ℕ → Term) (uuid : String) (validated : Outcome String) (request : Request)
      (s t : Registry R O D Q) (e : HttpError)
      → handle R O D Q location blanks uuid validated request s ≡ (fail e, t)
      → (t ≡ s) ⊎ IsHalfway request e t
  unfolding handle
  handle_refused blanks uuid (fail x) request s t e h = inl (ground (arith, h))
  handle_refused blanks uuid (ok owner) request s t e h =
      subst (λ u. (u ≡ s) ⊎ IsHalfway request e u) (ap (λ p. p.1) h)
        (Refuses-dispatch blanks uuid request owner s e (ap (λ p. p.0) h))
