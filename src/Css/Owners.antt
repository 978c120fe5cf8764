-- ===== src/Css/Owners.antt =====
-- packages/css/src/util/OwnerUtil.ts and uma/ResourceRegistrar.ts: who owns a resource, and which
-- authorization server an owner has chosen. The stores of the Community Solid Server are parameters.
-- The resources of an access map are distinct, so their paths stand for them.
pub mod Common
use user_managed_access.Prelude.{
  String, Option, none, some, List, [], ◌∷◌, ◌++◌, Bool, true, false, ◌&&◌, if◌then◌else◌, get, put,
  Dict, contains, filter, is_some, truthy, or_else, ℕ, length, nat_beq, keys,
}
use user_managed_access.Http.{Outcome, ok, fail, internal_server_error, ◌>>=◌}

-- `find_pod` gives the identifier of a pod, `find_accounts` those of the accounts with a WebID.
pub record Accounts : Type 0 where
  pub storage_of : String → Outcome String
  pub find_pod : String → Option String
  pub get_owners : String → Option (List String)
  pub find_accounts : String → List String
  pub authz_server : String → Option String
  pub as_token : String → Option String

pub record UmaSettings : Type 0 where
  pub issuer : Option String
  pub credentials : Option String

-- `set.add(x)`
abbrev pub add_to_set : List String → String → List String
add_to_set xs x = if contains xs x then xs else xs ++ (x ∷ [])

-- `ownerMap.add(owner, path)` for each owner of a resource.
unfoldable pub add_owners : List String → String → Dict (List String) → Dict (List String)
add_owners [] path m = m
add_owners (owner ∷ rest) path m =
    add_owners rest path (put m owner (add_to_set (or_else (get m owner) []) path))

-- The owners with as many resources as there are.
unfoldable pub valid_owners : ℕ → Dict (List String) → List String
valid_owners size [] = []
valid_owners size ((owner, targets) ∷ rest) =
    let others = valid_owners size rest in
    if nat_beq (length targets) size then owner ∷ others else others

unfoldable pub sole_owner : List String → Outcome String
sole_owner (owner ∷ []) = ok owner
sole_owner _ = fail internal_server_error

module _ (env : Accounts) where
  unfoldable pub find_owners : String → Outcome (List String)
  find_owners resource = elim (env.storage_of resource) [
    | fail e ↦ fail e
    | ok storage ↦ elim (env.find_pod storage) [
      | none ↦ fail internal_server_error
      | some pod ↦ elim (env.get_owners pod) [
        | none ↦ fail internal_server_error
        | some owners ↦ ok owners
      ]
    ]
  ]

  unfoldable pub collect_owners : List String → Dict (List String) → Outcome (Dict (List String))
  unfolding find_owners add_owners
  collect_owners [] m = ok m
  collect_owners (target ∷ rest) m = elim (find_owners target) [
    | fail e ↦ fail e
    | ok owners ↦ collect_owners rest (add_owners owners target m)
  ]

  unfoldable pub find_common_owner : List String → Outcome String
  unfolding collect_owners valid_owners sole_owner
  find_common_owner resources =
      collect_owners resources [] >>= λ m. sole_owner (valid_owners (length resources) m)

  unfoldable pub settings_of : List String → Outcome UmaSettings
  settings_of (account ∷ []) =
      ok (record { issuer = env.authz_server account; credentials = env.as_token account })
  settings_of _ = fail internal_server_error

  unfoldable pub find_uma_settings : String → Outcome UmaSettings
  unfolding settings_of
  find_uma_settings web_id = settings_of (env.find_accounts web_id)

  -- ResourceRegistrar.ts: no owner where none was found, or the search failed.
  unfoldable pub registered_owner : List String → Outcome (Option String)
  registered_owner [] = ok none
  registered_owner (owner ∷ []) = ok (some owner)
  registered_owner _ = fail internal_server_error

  unfoldable pub find_owner : String → Outcome (Option String)
  unfolding find_owners registered_owner
  find_owner resource = elim (find_owners resource) [
    | fail e ↦ ok none
    | ok owners ↦ registered_owner owners
  ]

  -- Both settings must be there: ResourceRegistrar.ts and UmaAuthorizer.ts.
  unfoldable pub required_settings : String → Outcome (String × String)
  unfolding find_uma_settings
  required_settings owner = find_uma_settings owner >>= λ settings.
      if truthy settings.issuer && truthy settings.credentials
      then ok (or_else settings.issuer "", or_else settings.credentials "")
      else fail internal_server_error
