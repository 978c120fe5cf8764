-- ===== src/Tests/Verifying.antt =====
-- Tokens that are verified: packages/uma/src/credentials/verify.
use user_managed_access.Prelude.{
  ◌⊎◌, String, some, List, [], ◌∷◌, ◌==◌, Bool, true, false, ◌≡◌, refl, contains, is_some, get,
  keys, All,
}
use user_managed_access.Http.{ok}
use user_managed_access.Views.{
  ClaimSet, Claim, text, claims_of, Credential, webid, clientid, original_webid,
}
use user_managed_access.Dialog.{Verifier}
use user_managed_access.Credentials.{
  to_iri, convert_claim, iri_verify, single, several, Payload, Jwts, jwt_format, check_jwt,
  collect_claims, jwt_verify,
}
use user_managed_access.Credentials.Iris.{IsIri, iri_verify_sound}
use user_managed_access.Credentials.Allowed.{jwt_verify_sound}

abbrev all_names : String → Bool
all_names s = s == "https://server.example/alice"

abbrev as_alice : String → String
as_alice s = "https://server.example/alice"

abbrev by_key : Verifier (Unit {0})
by_key = record { verify = λ now c w. (ok ((c.format, text c.token ∷ []) ∷ []), w) }

abbrev nickname : Credential
nickname = record { token = "alice"; format = webid }

abbrev converted : ClaimSet
converted =
    (webid, text "https://server.example/alice" ∷ []) ∷ (original_webid, text "alice" ∷ []) ∷ []

converts : iri_verify all_names as_alice by_key 0 nickname tt ≡ (ok converted, tt)
unfolding iri_verify convert_claim to_iri
converts = refl

iri_verify_sound_example :
    (claims : ClaimSet) × (by_key.verify 0 nickname tt ≡ (ok claims, tt))
    × All (IsIri all_names as_alice) (claims_of converted webid)
    × All (IsIri all_names as_alice) (claims_of converted clientid)
    × ((users : List Claim)
        → get claims webid ≡ some users
        → get converted original_webid ≡ some users)
iri_verify_sound_example =
    iri_verify_sound all_names as_alice by_key 0 nickname tt tt converted (λ s. refl) converts

abbrev jwts : Jwts
jwts = record {
  decode = λ token. ok (record {
    iss = some "https://issuer.example/";
    claims = (webid, single (text "https://alice.example/")) ∷ ("iat", several []) ∷ [];
  });
  check_signature = λ token issuer. ok tt;
}

abbrev jwt : Credential
jwt = record { token = "signed"; format = jwt_format }

abbrev let_through : ClaimSet
let_through = (webid, text "https://alice.example/" ∷ []) ∷ []

verifies : jwt_verify jwts (webid ∷ []) false true 0 jwt tt ≡ (ok let_through, tt)
unfolding jwt_verify check_jwt collect_claims
verifies = refl

jwt_verify_sound_example :
    (payload : Payload) × (jwts.decode "signed" ≡ ok payload)
    × ((k : String) → is_some (get let_through k) ≡ true → contains (webid ∷ []) k ≡ true)
    × (false ≡ true
        → (k : String) → contains (keys payload.claims) k ≡ true
        → contains (webid ∷ []) k ≡ true)
    × ((true ≡ false)
        ⊎ ((issuer : String) × (payload.iss ≡ some issuer)
            × (jwts.check_signature "signed" issuer ≡ ok tt)))
jwt_verify_sound_example =
    jwt_verify_sound (webid ∷ []) false jwts true 0 jwt tt tt let_through verifies
