-- ===== src/Policies/SimpleOdrl.antt =====
-- packages/uma/src/policies/authorizers/SimpleOdrlAuthorizer.ts. The triple store, the parsing of a
-- date and the JSON path query are parameters; `now` is the time of the call. `undefined`, "too
-- complex to handle here", is `none`.
pub mod Constraints
pub mod Rules
pub mod Soundness
pub mod Granting
pub mod Triples
use user_managed_access.Prelude.{
  String, Option, none, some, List, [], ◌∷◌, ◌++◌, map, Bool, true, false, ◌==◌, ◌||◌, ◌&&◌, ℕ,
  if◌then◌else◌, filter, any, is_empty, starts_with, get, or_else, Dict,
}
use user_managed_access.Http.{Outcome, ok}
use user_managed_access.Policies.{Authorizer}
use user_managed_access.Rdf.{Term, named, value, term_eq, quad, QuadStore}
use user_managed_access.Rdf.Vocabulary.Odrl
use user_managed_access.Views.{
  Permission, to_query, ClaimSet, Claim, text, access, object, claims_of, webid,
}
use Rules.{get_permissions}
use Constraints.{Clock, JsonPath}

module _ (Q : QuadStore) (clock : Clock) (json : JsonPath) (fallback : Authorizer) where
  -- The inner loop; `none` is the early return to the fallback authorizer.
  unfoldable pub allowed_scopes : Q.State → ClaimSet → String → List String → Option (List String)
  allowed_scopes policies claims resource [] = some []
  allowed_scopes policies claims resource (scope ∷ rest) =
      let others = allowed_scopes policies claims resource rest in
      elim (get_permissions Q clock json policies claims resource scope) [
        | none ↦ none
        | some found ↦ elim others [ none ↦ none | some more ↦ some (found ++ more) ]
      ]

  unfoldable pub evaluate : Q.State → ClaimSet → List Permission → Option (List Permission)
  evaluate policies claims [] = some []
  evaluate policies claims (p ∷ rest) =
      let others = evaluate policies claims rest in
      elim (allowed_scopes policies claims p.resource_id p.resource_scopes) [
        | none ↦ none
        | some scopes ↦ elim others [
          | none ↦ none
          | some more ↦ some (
              if is_empty scopes
              then more
              else record { resource_id = p.resource_id; resource_scopes = scopes } ∷ more)
        ]
      ]

  unfoldable pub permissions :
      Q.State → ClaimSet → Option (List Permission) → Outcome (List Permission)
  unfolding evaluate allowed_scopes
  permissions policies claims none = fallback claims none
  permissions policies claims (some query) = elim (evaluate policies claims query) [
    | none ↦ fallback claims (some (map to_query query))
    | some found ↦ ok found
  ]
