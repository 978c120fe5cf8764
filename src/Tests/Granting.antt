-- ===== src/Tests/Granting.antt =====
-- A policy that lets one user read one document: packages/uma/src/policies/authorizers.
use user_managed_access.Prelude.{
  String, none, some, List, [], ◌∷◌, true, false, ◌≡◌, ◌⊎◌, refl, map, zero, suc,
}
use user_managed_access.Http.{ok}
use user_managed_access.Policies.Static.{all_permissions, none_permissions}
use user_managed_access.Policies.Namespaced.{Namespaces, Groups, group, route, add_to_group}
use user_managed_access.Policies.Namespaced.Grouping.{queries_of, routed_to, queries_of-group_lem}
use user_managed_access.Policies.SimpleOdrl.{permissions}
use user_managed_access.Policies.SimpleOdrl.Constraints.{
  Clock, JsonPath, Constraint, check_constraint, validate_constraints, validate_vc_constraints,
}
use user_managed_access.Policies.SimpleOdrl.Granting.{permissions_sound, date_eq_never}
use user_managed_access.Policies.SimpleOdrl.Rules.{
  get_permissions, verdict, matching_target, has_action, odrl_scope, has_assignee, valid_rules,
}
use user_managed_access.Policies.SimpleOdrl.Soundness.{Applies}
use user_managed_access.Rdf.{Term, named, literal, term_eq, Quad, quad, quad_eq, contains_term}
use user_managed_access.Rdf.Lists.{list_store}
use user_managed_access.Rdf.Vocabulary.Odrl
use user_managed_access.Storage.Memory.{memory_storage}
use user_managed_access.Views.{
  Permission, Query, to_query, grants, ClaimSet, text, webid, Registration,
}

abbrev clock : Clock
clock = record { now = 1000; parse = λ s. some 1000 }

abbrev no_json : JsonPath
no_json = record { query = λ c path. [] }

abbrev alice : ClaimSet
alice = (webid, text "https://alice.example/" ∷ []) ∷ []

abbrev policies : List Quad
policies =
    quad (named "policy") Odrl.permission (named "rule")
    ∷ quad (named "rule") Odrl.target (named "document")
    ∷ quad (named "rule") Odrl.action (named "http://www.w3.org/ns/odrl/2/read")
    ∷ quad (named "rule") Odrl.assignee (named "https://alice.example/")
    ∷ []

abbrev asked : List Permission
asked =
    record {
      resource_id = "document";
      resource_scopes = "urn:example:css:modes:read" ∷ "urn:example:css:modes:write" ∷ [];
    }
    ∷ []

abbrev given : List Permission
given =
    record { resource_id = "document"; resource_scopes = "urn:example:css:modes:read" ∷ [] } ∷ []

grants_reading :
    permissions list_store clock no_json none_permissions policies alice (some asked) ≡ ok given
unfolding permissions term_eq quad_eq get_permissions matching_target has_action odrl_scope
    has_assignee valid_rules validate_constraints validate_vc_constraints verdict
grants_reading = refl

permissions_sound_example :
    (none_permissions alice (some (map to_query asked)) ≡ ok given)
    ⊎ ((id scope : String)
        → grants given id scope ≡ true
        → (grants asked id scope ≡ true)
          × ((rule : Term) × Applies list_store clock no_json policies alice id scope rule
              × (contains_term (list_store.get_predicates policies none (some rule)) Odrl.permission
                  ≡ true))
          × ((rule : Term)
              → Applies list_store clock no_json policies alice id scope rule
              → contains_term (list_store.get_predicates policies none (some rule)) Odrl.prohibition
                ≡ false))
permissions_sound_example =
    permissions_sound list_store clock no_json none_permissions policies alice asked given
      grants_reading

abbrev exactly_now : Constraint
exactly_now = record {
  left = Odrl.date_time;
  op = Odrl.eq;
  right = literal "1970-01-01T00:00:01Z" "http://www.w3.org/2001/XMLSchema#dateTime";
  subject_type = none;
}

date_eq_never_example : check_constraint clock alice exactly_now ≡ some false
date_eq_never_example = date_eq_never clock alice exactly_now refl refl

-- The second segment of the path is the namespace; "public" has an authorizer of its own.
abbrev spaces : Namespaces
spaces = record {
  authorizers = ("public", 1) ∷ [];
  fallback = 0;
  namespace_position = 1;
  pathname_segments = λ name. ok ("" ∷ name ∷ []);
  deref = elim [ suc n ↦ all_permissions | zero ↦ none_permissions ];
}

abbrev registered : List (String × Registration)
registered =
    (
      "one",
      record {
        owner = "https://alice.example/";
        description = record {
          resource_scopes = [];
          resource_defaults = none;
          resource_relations = none;
          derived_from = none;
          kind = none;
          name = some "public";
          icon_uri = none;
          description = none;
        };
      },
    )
    ∷ []

abbrev about : String → Query
about id = record { resource_id = some id; resource_scopes = none }

abbrev grouped : Groups
grouped = (1, about "one" ∷ about "one" ∷ []) ∷ (0, about "two" ∷ []) ∷ []

groups_by_namespace :
    group
      (memory_storage Registration)
      spaces
      registered
      (about "one" ∷ about "two" ∷ about "one" ∷ [])
      []
    ≡ ok grouped
unfolding group route add_to_group
groups_by_namespace = refl

queries_of-group_lem_example :
    queries_of grouped 1
    ≡ routed_to
        (memory_storage Registration)
        spaces
        registered
        1
        (about "one" ∷ about "two" ∷ about "one" ∷ [])
queries_of-group_lem_example =
    queries_of-group_lem (memory_storage Registration) spaces registered
      (about "one" ∷ about "two" ∷ about "one" ∷ []) grouped groups_by_namespace 1
