-- ===== src/Policies.antt =====
-- packages/uma/src/policies/authorizers: which permissions a set of claims is given.
pub mod Static
pub mod Namespaced
pub mod SimpleOdrl
use user_managed_access.Prelude.{Option, List, String}
use user_managed_access.Http.{Outcome}
use user_managed_access.Views.{Permission, Query, ClaimSet}

-- policies/authorizers/Authorizer.ts. The stores that an authorizer reads are fixed during a call.
abbrev pub Authorizer : Type 0
Authorizer = ClaimSet → Option (List Query) → Outcome (List Permission)

abbrev pub any_resource : String
any_resource = "urn:solidlab:uma:resources:any"

abbrev pub any_scope : String
any_scope = "urn:solidlab:uma:scopes:any"
