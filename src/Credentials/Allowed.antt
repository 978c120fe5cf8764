-- ===== src/Credentials/Allowed.antt =====
-- The claims that the JWT verifier lets through.
use user_managed_access.Prelude.{
  String, List, [], ◌∷◌, Bool, true, false, ◌≡◌, refl, ap, if◌then◌else◌, ℕ, Dict, get, put, ◌==◌,
  get-put, keys, contains, is_some, arith, subst, eq_iff, Bool-cases, inl, inr, ◌⊎◌, some,
  Option-cases,
}
use user_managed_access.Http.{ok}
use user_managed_access.Http.Exec.{lift, >>=-eq-ok}
use user_managed_access.Views.{ClaimSet, Credential}
use user_managed_access.Credentials.{
  JwtValue, listed, Payload, Jwts, collect_claims, check_jwt, jwt_verify, jwt_format,
}

check_jwt-ok :
    (jwts : Jwts) (token : String) (payload : Payload)
    → check_jwt jwts token payload ≡ ok tt
    → (issuer : String) × (payload.iss ≡ some issuer) × (jwts.check_signature token issuer ≡ ok tt)
unfolding check_jwt
check_jwt-ok jwts token payload h = elim (Option-cases payload.iss) [
  | inl missing ↦ absurd (ground (arith, h, missing))
  | inr (issuer, named) ↦ (issuer, named, ground (arith, h, named))
]

module _ (allowed : List String) (strict : Bool) where
  collect_claims-allowed :
      (payload : Dict JwtValue) (result r : ClaimSet) (k : String)
      → collect_claims allowed strict payload result ≡ ok r
      → is_some (get r k) ≡ true
      → is_some (get result k) ≡ false
      → contains allowed k ≡ true
  unfolding collect_claims
  collect_claims-allowed [] result r k h there new = ground (arith, h, there, new)
  collect_claims-allowed ((claim, v) ∷ rest) result r k h there new =
      elim (Bool-cases (contains allowed claim)) [
        | inl good ↦ elim (Bool-cases (claim == k)) [
          | inl same ↦ let e : claim ≡ k = ground (arith, eq_iff claim k, same) in rw (← e) good
          | inr other ↦
              collect_claims-allowed rest (put result claim (listed v)) r k (rw good at h) there
                (ground (arith, get-put result claim k (listed v), other, new))
        ]
        | inr bad ↦ elim (Bool-cases strict) [
          | inl firm ↦ absurd (ground (arith, h, bad, firm))
          | inr lax ↦ collect_claims-allowed rest result r k (ground (arith, h, bad, lax)) there new
        ]
      ]

  collect_claims-strict :
      (payload : Dict JwtValue) (result r : ClaimSet) (k : String)
      → collect_claims allowed true payload result ≡ ok r
      → contains (keys payload) k ≡ true
      → contains allowed k ≡ true
  unfolding collect_claims
  collect_claims-strict [] result r k h there = ground (arith, there)
  collect_claims-strict ((claim, v) ∷ rest) result r k h there =
      elim (Bool-cases (contains allowed claim)) [
        | inl good ↦ elim (Bool-cases (claim == k)) [
          | inl same ↦ let e : claim ≡ k = ground (arith, eq_iff claim k, same) in rw (← e) good
          | inr other ↦
              collect_claims-strict rest (put result claim (listed v)) r k (rw good at h)
                (ground (arith, there, other))
        ]
        | inr bad ↦ absurd (ground (arith, h, bad))
      ]

  -- Every claim that the JWT verifier gives is of an allowed kind; if extra claims are an error, the
  -- token has none; and where the signature is to be verified, the token names an issuer, and its
  -- signature was found right with the keys of that issuer.
  pub jwt_verify_sound :
      {W : Type 0} (jwts : Jwts) (verify_jwt : Bool) (now : ℕ) (credential : Credential) (w w' : W)
      (r : ClaimSet)
      → jwt_verify jwts allowed strict verify_jwt now credential w ≡ (ok r, w')
      → (payload : Payload) × (jwts.decode credential.token ≡ ok payload)
        × ((k : String) → is_some (get r k) ≡ true → contains allowed k ≡ true)
        × (strict ≡ true
            → (k : String) → contains (keys payload.claims) k ≡ true
            → contains allowed k ≡ true)
        × ((verify_jwt ≡ false)
            ⊎ ((issuer : String) × (payload.iss ≡ some issuer)
                × (jwts.check_signature credential.token issuer ≡ ok tt)))
  unfolding jwt_verify
  jwt_verify_sound jwts verify_jwt now credential w w' r h =
      elim (Bool-cases (credential.format == jwt_format)) [
        | inr other ↦ absurd (ground (arith, h, other))
        | inl right ↦
            let (payload, w1, decoded, rest) =
              >>=-eq-ok (lift (jwts.decode credential.token)) _ w w' r (rw right at h) in
            let (checked, w2, valid, rest2) =
              >>=-eq-ok
                (lift (if verify_jwt then check_jwt jwts credential.token payload else ok tt)) _ w1
                w' r rest in
            (
              payload,
              ap (λ p. p.0) decoded,
              λ k there.
                  collect_claims-allowed payload.claims [] r k (ap (λ p. p.0) rest2) there refl,
              λ firm k there.
                  collect_claims-strict payload.claims [] r k
                    (subst (λ b. collect_claims allowed b payload.claims [] ≡ ok r) firm
                      (ap (λ p. p.0) rest2))
                    there,
              elim (Bool-cases verify_jwt) [
                | inr lax ↦ inl lax
                | inl asked ↦
                    inr (check_jwt-ok jwts credential.token payload (ground (arith, valid, asked)))
              ],
            )
      ]
