-- ===== src/Routes/ResourceRegistration.antt =====
-- packages/uma/src/routes/ResourceRegistration.ts: the endpoint where a resource server registers
-- resources. The policy store is that of ucp/storage/MemoryUCRulesStorage.ts. The validator's
-- answer is an argument; a body is `none` where `reType` refuses it; `uuid` and `blanks` are the new
-- identifiers; `location` gives the URL of a registration, and throws where `encodeURIComponent` does: on a
-- text that is no well-formed UTF-16.
pub mod Collections
pub mod Atomic
pub mod Steps
pub mod Ownership
pub mod Triples
pub mod Leftovers
use user_managed_access.Prelude.{
  String, Option, none, some, List, [], ◌∷◌, ◌++◌, map, Bool, true, false, ◌==◌, not, if◌then◌else◌,
  is_empty, is_some, contains, filter, ℕ, truthy, or_else,
}
use user_managed_access.Http
use user_managed_access.Http.{
  Outcome, ok, fail, HttpError, bad_request, conflict, not_found, forbidden, internal_server_error,
  method_not_allowed,
}
use user_managed_access.Http.Exec.{Exec, ◌>>=◌, ◌>>◌, pure, throw, lift, modify, or_throw, require}
use user_managed_access.Rdf.{Term, named, Quad, QuadStore}
use user_managed_access.Rdf.Vocabulary.Odrl
use user_managed_access.Storage.{KeyValueStorage, has}
use user_managed_access.Views.{ResourceDescription, Registration, DerivedFrom}
use Collections.{Changes, update_collections, update_relations}

pub record Request : Type 0 where
  pub method : String
  pub id : Option String
  pub body : Option ResourceDescription

pub data Response : Type 0 where
  described : ResourceDescription → Response
  identifiers : List String → Response
  created : (location id : String) → Response
  updated : String → Response
  no_content : Response

-- The stores of the handler.
pub record Stores (R O D P : Type 0) : Type 0 where
  pub registrations : R
  pub ownership : O
  pub derivations : D
  pub policies : P

-- `list.indexOf(x)` and `list.splice(idx, 1)`: the first occurrence goes.
unfoldable pub remove_first : String → List String → List String
remove_first x [] = []
remove_first x (y ∷ ys) = if y == x then ys else y ∷ remove_first x ys

module _ (R : KeyValueStorage Registration) (O : KeyValueStorage (List String))
    (D : KeyValueStorage String) (Q : QuadStore) where
  abbrev pub Registry : Type 0
  Registry = Stores R.State O.State D.State Q.State

  abbrev pub owned : Registry → String → List String
  owned s owner = or_else (O.get s.ownership owner) []

  -- The derivation store with each entry written.
  unfoldable pub set_derivations : List DerivedFrom → D.State → D.State
  set_derivations [] d = d
  set_derivations (entry ∷ rest) d =
      set_derivations rest (D.set d entry.derivation_resource_id entry.issuer)

  unfoldable pub delete_derivations : List String → D.State → D.State
  delete_derivations [] d = d
  delete_derivations (id ∷ rest) d = delete_derivations rest (D.delete d id)

  abbrev pub derivation_ids : List DerivedFrom → List String
  derivation_ids = map λ entry. entry.derivation_resource_id

  unfoldable pub update_derivations :
      ResourceDescription → Option ResourceDescription → D.State → D.State
  unfolding set_derivations delete_derivations
  update_derivations description previous d =
      let entries = or_else description.derived_from [] in
      let before : List DerivedFrom = elim previous [
        | none ↦ []
        | some p ↦ or_else p.derived_from []
      ] in
      let removed =
        filter (λ id. not (contains (derivation_ids entries) id)) (derivation_ids before) in
      delete_derivations removed (set_derivations entries d)

  abbrev add_rule : List Quad → Q.State → Q.State
  add_rule quads p = if is_empty quads then p else Q.add_quads p quads

  abbrev remove_data : List Quad → Q.State → Q.State
  remove_data quads p = if is_empty quads then p else Q.remove_quads p quads

  -- The triples to add and remove; errors are thrown before anything is written.
  unfoldable pub metadata_changes :
      (ℕ → Term)
      → String
      → ResourceDescription
      → String
      → Option ResourceDescription
      → Q.State
      → Outcome Changes
  metadata_changes blanks id description owner previous policies =
      Http.◌>>=◌ (update_collections Q blanks policies id owner description previous) λ collections.
        Http.◌>>=◌ (update_relations Q policies id description previous) λ relations. ok (record {
          add = collections.add ++ relations.add;
          remove = collections.remove ++ relations.remove;
        })

  abbrev pub store_metadata :
      String
      → ResourceDescription
      → String
      → Option ResourceDescription
      → Changes
      → Registry
      → Registry
  store_metadata id description owner previous changes s = record s {
    policies = remove_data changes.remove (add_rule changes.add s.policies);
    derivations = update_derivations description previous s.derivations;
    registrations = R.set s.registrations id (record { owner = owner; description = description });
  }

  unfoldable pub set_resource_metadata :
      (ℕ → Term)
      → String
      → ResourceDescription
      → String
      → Option ResourceDescription
      → Exec Registry (Unit {0})
  set_resource_metadata blanks id description owner previous s =
      (lift (metadata_changes blanks id description owner previous s.policies) >>= λ changes.
      modify (store_metadata id description owner previous changes))
        s

  unfoldable pub handle_get : Request → String → Exec Registry Response
  handle_get request owner s =
      if truthy request.id
      then elim (R.get s.registrations (or_else request.id "")) [
        | none ↦ (fail not_found, s)
        | some registration ↦
            if registration.owner == owner
            then (ok (described registration.description), s)
            else (fail forbidden, s)
      ]
      else (ok (identifiers (owned s owner)), s)

  abbrev add_owned : String → String → Registry → Registry
  add_owned owner id s = record s { ownership = O.set s.ownership owner (owned s owner ++ id ∷ []) }

  unfoldable pub register :
      (String → Outcome String)
      → (ℕ → Term)
      → String
      → ResourceDescription
      → String
      → Exec Registry Response
  register location blanks id body owner = do
    set_resource_metadata blanks id body owner none
    modify (add_owned owner id)
    url ← lift (location id)
    pure (created url id)

  unfoldable pub handle_post :
      (String → Outcome String) → (ℕ → Term) → String → Request → String → Exec Registry Response
  handle_post location blanks uuid request owner s = elim request.body [
    | none ↦ (fail bad_request, s)
    | some body ↦
        if truthy body.name
        then if has R s.registrations (or_else body.name "")
          then (fail conflict, s)
          else register location blanks (or_else body.name "") body owner s
        else register location blanks uuid body owner s
  ]

  -- What the code does once the entry is found and the owner is right.
  unfoldable pub update :
      (ℕ → Term) → String → Registration → Request → String → Exec Registry Response
  update blanks id entry request owner s = elim request.body [
    | none ↦ (fail bad_request, s)
    | some body ↦
        (set_resource_metadata blanks id body owner (some entry.description) >> pure (updated id)) s
  ]

  unfoldable pub unregister : String → String → Registry → Registry
  unfolding remove_first
  unregister id owner s =
      let list = owned s owner in
      let left = remove_first id list in
      record s {
        registrations = R.delete s.registrations id;
        ownership =
            if contains list id
            then if is_empty left then O.delete s.ownership owner else O.set s.ownership owner left
            else s.ownership;
        policies =
            Q.remove_quads s.policies
              (Q.get_quads s.policies (some (named id)) (some Odrl.part_of) none);
      }

  -- The guards that PUT and DELETE share: an identifier, an entry, its owner.
  unfoldable pub with_entry :
      Request → String → (String → Registration → Exec Registry Response) → Exec Registry Response
  with_entry request owner act s = elim request.id [
    | none ↦ (fail internal_server_error, s)
    | some id ↦ elim (R.get s.registrations id) [
      | none ↦ (fail not_found, s)
      | some entry ↦ if entry.owner == owner then act id entry s else (fail forbidden, s)
    ]
  ]

  unfoldable pub handle_put : (ℕ → Term) → Request → String → Exec Registry Response
  unfolding with_entry
  handle_put blanks request owner =
      with_entry request owner λ id entry. update blanks id entry request owner

  unfoldable pub handle_delete : Request → String → Exec Registry Response
  unfolding with_entry
  handle_delete request owner =
      with_entry request owner λ id entry s. (ok no_content, unregister id owner s)

  -- The switch on the method.
  unfoldable pub dispatch :
      (String → Outcome String) → (ℕ → Term) → String → Request → String → Exec Registry Response
  dispatch location blanks uuid request owner s =
      if request.method == "GET"
      then handle_get request owner s
      else if request.method == "POST"
      then handle_post location blanks uuid request owner s
      else if request.method == "PUT"
      then handle_put blanks request owner s
      else if request.method == "DELETE"
      then handle_delete request owner s
      else (fail method_not_allowed, s)

  unfoldable pub handle :
      (String → Outcome String)
      → (ℕ → Term)
      → String
      → Outcome String
      → Request
      → Exec Registry Response
  handle location blanks uuid validated request =
      lift validated >>= dispatch location blanks uuid request
