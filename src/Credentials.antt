-- ===== src/Credentials.antt =====
-- packages/uma/src/credentials/verify: the verifiers that call no other server, TypedVerifier.ts,
-- IriVerifier.ts, KeyValueVerifier.ts and JwtVerifier.ts. The state is that of the verifiers inside.
-- The decoding of a JWT, the check of its signature, `isIri` (a regular expression) and the joining of
-- a URL with an encoded name are parameters, and the encoding is taken not to throw. The loop of
-- IriVerifier.ts writes into the array that the verifier inside gave; the result is a new list here.
pub mod Iris
pub mod Allowed
use user_managed_access.Prelude.{
  String, Option, none, some, List, [], ◌∷◌, map, Bool, true, false, ◌==◌, not, ◌&&◌, if◌then◌else◌,
  ℕ, Dict, get, put, contains, truthy, or_else,
}
use user_managed_access.Http.{Outcome, ok, fail, bad_request, plain_error}
use user_managed_access.Http.Exec.{Exec, ◌>>=◌, pure, lift}
use user_managed_access.Views.{
  ClaimSet, Claim, text, Credential, webid, clientid, original_webid, original_clientid,
}
use user_managed_access.Dialog.{Verifier}

-- `verifiers[credential.format]`
unfoldable pub typed_verify : {W : Type 0} → Dict (Verifier W) → ℕ → Credential → Exec W ClaimSet
typed_verify verifiers now credential w = elim (get verifiers credential.format) [
  | none ↦ (fail bad_request, w)
  | some verifier ↦ verifier.verify now credential w
]

unfoldable pub key_value_verify : {W : Type 0} → ℕ → Credential → Exec W ClaimSet
key_value_verify now credential w = (ok ((credential.format, text credential.token ∷ []) ∷ []), w)

module _ (is_iri : String → Bool) (join_base : String → String) where
  unfoldable pub to_iri : Claim → Claim
  to_iri (text s) = if is_iri s then text s else text (join_base s)
  to_iri c = c

  -- One round of the loop over the two claim types; `claims` is what the verifier inside gave.
  unfoldable pub convert_claim : String → String → ClaimSet → ClaimSet → ClaimSet
  unfolding to_iri
  convert_claim kind original claims result = elim (get claims kind) [
    | none ↦ result
    | some entries ↦ put (put result original entries) kind (map to_iri entries)
  ]

  unfoldable pub iri_verify : {W : Type 0} → Verifier W → ℕ → Credential → Exec W ClaimSet
  unfolding convert_claim
  iri_verify verifier now credential = verifier.verify now credential >>= λ claims. pure (
      convert_claim clientid original_clientid claims
        (convert_claim webid original_webid claims claims))

-- A claim of a JWT: one value, or an array of them.
pub data JwtValue : Type 0 where
  single : Claim → JwtValue
  several : List Claim → JwtValue

-- A decoded payload, with its `iss` claim beside the list of all claims.
pub record Payload : Type 0 where
  pub iss : Option String
  pub claims : Dict JwtValue

abbrev pub jwt_format : String
jwt_format = "urn:solidlab:uma:claims:formats:jwt"

abbrev pub listed : JwtValue → List Claim
listed (single c) = c ∷ []
listed (several cs) = cs

-- `decodeJwt`, and the check of a token with the keys of an issuer.
pub record Jwts : Type 0 where
  pub decode : String → Outcome Payload
  pub check_signature : (token issuer : String) → Outcome (Unit {0})

-- The loop over the claims.
unfoldable pub collect_claims : List String → Bool → Dict JwtValue → ClaimSet → Outcome ClaimSet
collect_claims allowed strict [] result = ok result
collect_claims allowed strict ((claim, v) ∷ rest) result =
    let kept = collect_claims allowed strict rest (put result claim (listed v)) in
    let dropped = collect_claims allowed strict rest result in
    if contains allowed claim then kept else if strict then fail plain_error else dropped

unfoldable pub check_jwt : Jwts → String → Payload → Outcome (Unit {0})
check_jwt jwts token payload =
    if truthy payload.iss
    then jwts.check_signature token (or_else payload.iss "")
    else fail plain_error

unfoldable pub jwt_verify :
    {W : Type 0} → Jwts → List String → Bool → Bool → ℕ → Credential → Exec W ClaimSet
unfolding collect_claims check_jwt
jwt_verify jwts allowed strict verify_jwt now credential w =
    if credential.format == jwt_format
    then (lift (jwts.decode credential.token) >>= λ payload.
          lift (if verify_jwt then check_jwt jwts credential.token payload else ok tt)
          >>= λ checked. lift (collect_claims allowed strict payload.claims []))
        w
    else (fail plain_error, w)
