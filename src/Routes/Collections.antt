-- ===== src/Routes/Collections.antt =====
-- packages/uma/src/routes/Collection.ts: collections of assets and of parties, as triples in the policy
-- store. `claims` is what the credential parser and the verifier make of a request, a body is `none`
-- where `reType` refuses it, and `uuid` is the new identifier of a call. `new_store` is `new Store(quads)`.
-- A URL with an identifier is that of a collection. The URL of a new collection is joined by a parameter.
pub mod Owned
use user_managed_access.Prelude.{
  String, Option, none, some, List, [], ◌∷◌, ◌++◌, map, Bool, true, false, not, ◌&&◌, ◌==◌,
  if◌then◌else◌, all, any, contains, is_empty, or_else, truthy, ℕ, head?,
}
use user_managed_access.Http.{
  Outcome, ok, fail, bad_request, unauthorized, forbidden, not_found, method_not_allowed, ◌>>=◌,
}
use user_managed_access.Http.Exec.{Exec}
use user_managed_access.Rdf.{Term, named, literal, term_eq, Quad, quad, contains_term, QuadStore}
use user_managed_access.Rdf.Vocabulary.Dc
use user_managed_access.Rdf.Vocabulary.Odrl
use user_managed_access.Rdf.Vocabulary.OdrlP
use user_managed_access.Rdf.Vocabulary.Owl
use user_managed_access.Rdf.Vocabulary.RdfType
use user_managed_access.Storage.{KeyValueStorage}
use user_managed_access.Views.{ClaimSet, claims_of, webid}
use user_managed_access.Controllers.Base.{difference}
use user_managed_access.Routes.Entities.{user_ids}

pub data Description : Type 0 where
  asset : (description : Option String) → (parts : List String) → Description
  party : (description : Option String) → (owners parts : List String) → Description

pub record Request : Type 0 where
  pub method : String
  pub url : String
  pub id : Option String
  pub body : Option Description

pub data Response : Type 0 where
  found : List Quad → Response
  created : (location : String) → Response
  no_content : Response

abbrev described : Term → Option String → List Quad
described subject none = []
described subject (some text) =
    if truthy (some text)
    then quad subject Dc.description (literal text "http://www.w3.org/2001/XMLSchema#string") ∷ []
    else []

abbrev parts_of : Term → List String → List Quad
parts_of subject = map (λ part. quad (named part) Odrl.part_of subject)

-- The triples of a collection.
unfoldable pub collection_quads : Description → String → Term → List Quad
collection_quads (asset description parts) user subject =
    quad subject RdfType.type Odrl.asset_collection
    ∷ (described subject description
        ++ (quad subject Dc.creator (named user) ∷ parts_of subject parts))
collection_quads (party description owners parts) user subject =
    quad subject RdfType.type Odrl.party_collection
    ∷ (described subject description
        ++ (map (λ owner. quad subject Dc.creator (named owner)) owners ++ parts_of subject parts))

module _ (O : KeyValueStorage (List String)) where
  -- A party collection has its maker among its owners, the assets of an asset collection are its maker's.
  unfoldable pub check_description : O.State → Description → String → Outcome (Unit {0})
  check_description ownership (party description owners parts) user =
      if contains owners user then ok tt else fail bad_request
  check_description ownership (asset description parts) user =
      if all (contains (or_else (O.get ownership user) [])) parts then ok tt else fail forbidden

  unfoldable pub description_to_quads :
      O.State → Option Description → String → Term → Outcome (List Quad)
  unfolding collection_quads check_description
  description_to_quads ownership none user subject = fail bad_request
  description_to_quads ownership (some body) user subject =
      check_description ownership body user >>= λ checked. ok (collection_quads body user subject)

module _ (Q : QuadStore) where
  unfoldable pub verify_ownership : Q.State → Term → String → Outcome (Unit {0})
  verify_ownership s subject user =
      let owners = Q.get_objects s (some subject) (some Dc.creator) in
      if is_empty owners
      then fail not_found
      else if any (λ owner. term_eq owner (named user)) owners
      then ok tt
      else fail forbidden

  -- What the store says of a collection and its parts.
  abbrev pub stored_quads : Q.State → Term → List Quad
  stored_quads s subject =
      Q.get_quads s (some subject) none none
      ++ Q.get_quads s none (some Odrl.part_of) (some subject)

  -- The body of the loop of `handleGet`, with the inverse of each relation of a collection.
  unfoldable pub add_inverses : Q.State → List Term → Q.State → Q.State
  add_inverses s [] result = result
  add_inverses s (relation ∷ rest) result =
      add_inverses s rest
        (Q.add_quads result (Q.get_quads s (some relation) (some Owl.inverse_of) none))

  unfoldable pub collect : Q.State → List Term → Q.State → Q.State
  unfolding add_inverses
  collect s [] result = result
  collect s (collection ∷ rest) result =
      let described = Q.add_quads result (Q.get_quads s (some collection) none none) in
      let with_parts =
        Q.add_quads described (Q.get_quads s none (some Odrl.part_of) (some collection)) in
      collect s rest (
        add_inverses s (Q.get_objects with_parts (some collection) (some OdrlP.relation))
          with_parts)

  -- The checks of a change: it must be of a collection that is no relation, by one of its owners.
  unfoldable pub check_change : Q.State → Request → String → Outcome Term
  unfolding verify_ownership
  check_change s request user =
      if truthy request.id
      then if is_empty (Q.get_objects s (some (named request.url)) (some OdrlP.relation))
        then (verify_ownership s (named request.url) user >>= λ checked. ok (named request.url))
        else fail forbidden
      else fail method_not_allowed

module _ (Q : QuadStore) (O : KeyValueStorage (List String)) (new_store : List Quad → Q.State)
    (join_url : String → String → String) (ownership : O.State) where
  unfoldable pub handle_get : Request → String → Exec Q.State Response
  unfolding verify_ownership collect
  handle_get request user s =
      if truthy request.id
      then (
        verify_ownership Q s (named request.url) user >>= λ checked. ok (
            found
              (Q.get_quads (collect Q s (named request.url ∷ []) (new_store [])) none none none)),
        s,
      )
      else (
        ok (
            found (
              Q.get_quads
                (collect Q s (Q.get_subjects s (some Dc.creator) (some (named user)))
                  (new_store []))
                none none none)),
        s,
      )

  unfoldable pub handle_post : String → Request → String → Exec Q.State Response
  unfolding description_to_quads
  handle_post uuid request user s =
      let location = join_url request.url uuid in
      elim (description_to_quads O ownership request.body user (named location)) [
        | fail e ↦ (fail e, s)
        | ok quads ↦ (ok (created location), Q.add_quads s quads)
      ]

  -- The difference of the new and the old triples of the collection is added and removed.
  unfoldable pub replace_collection : Q.State → Term → List Quad → Q.State
  replace_collection s subject quads =
      let new = new_store quads in
      let old = new_store (stored_quads Q s subject) in
      Q.remove_quads (Q.add_quads s (difference Q new old)) (difference Q old new)

  unfoldable pub new_quads : Request → String → Term → Outcome (Term × List Quad)
  unfolding description_to_quads
  new_quads request user subject =
      description_to_quads O ownership request.body user subject >>= λ quads. ok (subject, quads)

  unfoldable pub handle_put : Request → String → Exec Q.State Response
  unfolding check_change new_quads replace_collection
  handle_put request user s = elim (check_change Q s request user >>= new_quads request user) [
    | fail e ↦ (fail e, s)
    | ok (subject, quads) ↦ (ok no_content, replace_collection s subject quads)
  ]

  unfoldable pub handle_delete : Request → String → Exec Q.State Response
  unfolding check_change
  handle_delete request user s = elim (check_change Q s request user) [
    | fail e ↦ (fail e, s)
    | ok subject ↦ (ok no_content, Q.remove_quads s (stored_quads Q s subject))
  ]

  unfoldable pub dispatch : String → Request → String → Exec Q.State Response
  unfolding handle_get handle_post handle_put handle_delete
  dispatch uuid request user =
      if request.method == "GET"
      then handle_get request user
      else if request.method == "POST"
      then handle_post uuid request user
      else if request.method == "PUT"
      then handle_put request user
      else if request.method == "DELETE"
      then handle_delete request user
      else λ s. (fail method_not_allowed, s)

  unfoldable pub handle : String → Outcome ClaimSet → Request → Exec Q.State Response
  unfolding user_ids dispatch
  handle uuid claims request s = elim claims [
    | fail e ↦ (fail e, s)
    | ok verified ↦ elim (head? (user_ids (claims_of verified webid))) [
      | none ↦ (fail unauthorized, s)
      | some user ↦ dispatch uuid request user s
    ]
  ]
