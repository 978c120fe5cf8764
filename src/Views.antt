-- ===== src/Views.antt =====
-- The data that requests, tickets and tokens carry: packages/uma/src/views/Permission.ts,
-- views/ResourceDescription.ts, credentials/{Claims,ClaimSet,Credential,Formats}.ts,
-- ticketing/Ticket.ts, tokens/AccessToken.ts, util/Result.ts, util/RegistrationStore.ts.
use user_managed_access.Prelude.{
  String, Option, none, some, List, [], Dict, ℕ, get, Bool, ◌&&◌, any, contains, ◌==◌, ◌≡◌, true,
}

pub record Permission : Type 0 where
  pub resource_id : String
  pub resource_scopes : List String

-- Some permission of the list is for this resource and has this scope.
abbrev pub grants : List Permission → String → String → Bool
grants permissions id scope =
    any (λ p. (id == p.resource_id) && contains p.resource_scopes scope) permissions

-- Each scope that was requested of the resource is granted.
abbrev pub IsCovered : List Permission → Permission → Type 0
IsCovered permissions required =
    (scope : String)
    → contains required.resource_scopes scope ≡ true
    → grants permissions required.resource_id scope ≡ true

-- `Partial<Permission>`: what an authorizer may be asked for.
pub record Query : Type 0 where
  pub resource_id : Option String
  pub resource_scopes : Option (List String)

abbrev pub to_query : Permission → Query
to_query p = record { resource_id = some p.resource_id; resource_scopes = some p.resource_scopes }

-- A claim's value is of type `unknown` in the source. `text` is a JavaScript string, `access` an
-- object with the two fields of a permission, `object n` any other value.
pub data Claim : Type 0 where
  text : String → Claim
  access : Permission → Claim
  object : ℕ → Claim

abbrev pub ClaimSet : Type 0
ClaimSet = Dict (List Claim)

-- The claims under a key, none of them where the key is missing.
abbrev pub claims_of : ClaimSet → String → List Claim
claims_of claims key = elim (get claims key) [ none ↦ [] | some values ↦ values ]

abbrev pub webid : String
webid = "urn:solidlab:uma:claims:types:webid"

abbrev pub clientid : String
clientid = "urn:solidlab:uma:claims:types:clientid"

abbrev pub original_webid : String
original_webid = "urn:solidlab:uma:claims:types:original:webid"

abbrev pub original_clientid : String
original_clientid = "urn:solidlab:uma:claims:types:original:clientid"

abbrev pub access_type : String
access_type = "urn:solidlab:uma:claims:types:access"

abbrev pub vc : String
vc = "urn:solidlab:uma:claims:types:vc"

pub record Credential : Type 0 where
  pub token : String
  pub format : String

abbrev pub refresh_token_format : String
refresh_token_format = "urn:ietf:params:oauth:token-type:refresh_token"

pub record Ticket : Type 0 where
  pub derived_ids : Option (List String)
  pub permissions : List Permission
  pub provided : ClaimSet

-- util/Result.ts
pub data Resolution {ℓ κ} (S : Type ℓ) (F : Type κ) : Type (ℓ ⊔ κ) where
  success : S → Resolution S F
  failure : F → Resolution S F

pub record AccessToken : Type 0 where
  pub permissions : List Permission
  pub sub : Option String

pub record SerializedToken : Type 0 where
  pub token_type : String
  pub token : String

pub record DerivedFrom : Type 0 where
  pub issuer : String
  pub derivation_resource_id : String

-- A relation block of a resource description: the plain entries and those under `@reverse`.
pub record Relations : Type 0 where
  pub normal : Dict (List String)
  pub reversed : Option (Dict (List String))

pub record ResourceDescription : Type 0 where
  pub resource_scopes : List String
  pub resource_defaults : Option Relations
  pub resource_relations : Option Relations
  pub derived_from : Option (List DerivedFrom)
  pub kind : Option String
  pub name : Option String
  pub icon_uri : Option String
  pub description : Option String

pub record Registration : Type 0 where
  pub owner : String
  pub description : ResourceDescription
