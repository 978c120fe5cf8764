-- ===== src/Policies/Namespaced.antt =====
-- packages/uma/src/policies/authorizers/NamespacedAuthorizer.ts. Authorizers are objects that a map
-- has as keys, so they are numbers here, and `deref` gives the object. `pathname_segments` is
-- `new URL(name).pathname.split('/')`.
pub mod Grouping
use user_managed_access.Prelude.{
  String, Option, none, some, List, [], ◌∷◌, ◌++◌, map, Bool, true, false, ◌==◌, if◌then◌else◌, ℕ,
  zero, suc, nat_beq, Dict, get, or_else, truthy, is_empty, filter,
}
use user_managed_access.Http.{Outcome, ok, fail, ◌>>=◌}
use user_managed_access.Policies.{Authorizer}
use user_managed_access.Storage.{KeyValueStorage}
use user_managed_access.Views.{Permission, Query, ClaimSet, Registration}

abbrev nth : List String → ℕ → Option String
nth [] i = none
nth (x ∷ xs) zero = some x
nth (x ∷ xs) (suc i) = nth xs i

pub record Namespaces : Type 0 where
  pub authorizers : Dict ℕ
  pub fallback : ℕ
  pub namespace_position : ℕ
  pub pathname_segments : String → Outcome (List String)
  pub deref : ℕ → Authorizer

-- A `Map` from authorizers to the queries that they are given, in the order of insertion.
abbrev pub Groups : Type 0
Groups = List (ℕ × List Query)

unfoldable pub add_to_group : Groups → ℕ → Query → Groups
add_to_group [] authorizer q = (authorizer, q ∷ []) ∷ []
add_to_group ((a, qs) ∷ groups) authorizer q =
    if nat_beq a authorizer
    then (a, qs ++ q ∷ []) ∷ groups
    else (a, qs) ∷ add_to_group groups authorizer q

-- Each group's query is delegated; an error of one is the error of the whole.
unfoldable pub delegate : (ℕ → Authorizer) → ClaimSet → Groups → Outcome (List Permission)
delegate deref claims [] = ok []
delegate deref claims ((a, qs) ∷ groups) = do
  granted ← deref a claims (some qs)
  others ← delegate deref claims groups
  ok (granted ++ others)

module _ (K : KeyValueStorage Registration) (n : Namespaces) where
  unfoldable pub find_namespace : K.State → Option String → Outcome (Option String)
  find_namespace registrations none = ok none
  find_namespace registrations (some id) =
      if truthy (some id)
      then elim (K.get registrations id) [
        | none ↦ ok none
        | some registration ↦ elim registration.description.name [
          | none ↦ ok none
          | some name ↦
              if truthy (some name)
              then (n.pathname_segments name >>= λ segments.
                  ok (some (or_else (nth segments n.namespace_position) "")))
              else ok none
        ]
      ]
      else ok none

  -- `(ns && this.authorizers[ns]) || this.fallback`
  unfoldable pub choose : Option String → ℕ
  choose none = n.fallback
  choose (some ns) =
      if truthy (some ns) then or_else (get n.authorizers ns) n.fallback else n.fallback

  unfoldable pub route : K.State → Query → Outcome ℕ
  unfolding find_namespace choose
  route registrations q = do ns ← find_namespace registrations q.resource_id; ok (choose ns)

  unfoldable pub group : K.State → List Query → Groups → Outcome Groups
  group registrations [] groups = ok groups
  group registrations (q ∷ rest) groups = do
    authorizer ← route registrations q
    group registrations rest (add_to_group groups authorizer q)

  unfoldable pub permissions : K.State → ClaimSet → Option (List Query) → Outcome (List Permission)
  unfolding group delegate
  permissions registrations claims none = ok []
  permissions registrations claims (some []) = ok []
  permissions registrations claims (some (q ∷ query)) = do
    groups ← group registrations (q ∷ query) []
    delegate n.deref claims groups
