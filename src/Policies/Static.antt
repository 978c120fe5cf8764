-- ===== src/Policies/Static.antt =====
-- packages/uma/src/policies/authorizers: AllAuthorizer.ts, NoneAuthorizer.ts, WebIdAuthorizer.ts.
use user_managed_access.Prelude.{
  String, Option, none, some, List, [], ◌∷◌, map, Bool, false, if◌then◌else◌, any, contains,
  or_else, ◌≡◌, ◌↔◌, ◌⊎◌, arith,
}
use user_managed_access.Http.{Outcome, ok}
use user_managed_access.Policies.{any_resource, any_scope}
use user_managed_access.Views.{
  Permission, Query, ClaimSet, Claim, text, access, object, claims_of, webid,
}

-- The query's entry, with what is missing taken as anything.
abbrev filled : Query → Permission
filled q = record {
  resource_id = or_else q.resource_id any_resource;
  resource_scopes = or_else q.resource_scopes (any_scope ∷ []);
}

unfoldable pub all_permissions : ClaimSet → Option (List Query) → Outcome (List Permission)
all_permissions claims (some query) = ok (map filled query)
all_permissions claims none =
    ok (record { resource_id = any_resource; resource_scopes = any_scope ∷ [] } ∷ [])

unfoldable pub none_permissions : ClaimSet → Option (List Query) → Outcome (List Permission)
none_permissions claims query = ok []

pub is_known : List String → Claim → Bool
is_known webids (text s) = contains webids s
is_known webids (access p) = false
is_known webids (object n) = false

unfoldable pub web_id_permissions :
    List String → ClaimSet → Option (List Query) → Outcome (List Permission)
unfolding is_known
web_id_permissions webids claims query =
    if any (is_known webids) (claims_of claims webid)
    then ok (map filled (or_else query []))
    else ok []

-- The WebID authorizer answers with an empty list exactly when none of the claimed WebIDs is on its
-- list or nothing was asked for.
pub web_id_permissions_empty_iff :
    (webids : List String) (claims : ClaimSet) (query : Option (List Query))
    → (web_id_permissions webids claims query ≡ ok [])
      ↔ ((any (is_known webids) (claims_of claims webid) ≡ false) ⊎ (or_else query [] ≡ []))
unfolding web_id_permissions
web_id_permissions_empty_iff webids claims none = ground arith
web_id_permissions_empty_iff webids claims (some []) = ground arith
web_id_permissions_empty_iff webids claims (some (q ∷ query)) = ground arith
