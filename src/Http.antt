-- ===== src/Http.antt =====
-- The errors that the handlers throw, as values: packages/uma/src/errors/NeedInfoError.ts and the
-- HttpError classes of the Community Solid Server that the code constructs. Messages are left out:
-- no code branches on one. A method that may throw returns an `Outcome`; one that also changes
-- stores is an `Exec`, which keeps what was written before the throw.
pub mod Exec
use user_managed_access.Prelude.{String, Option, List, ◌≡◌, refl, ◌⊎◌, inl, inr, Bool, true, false}

-- packages/uma/src/errors/NeedInfoError.ts, RequiredClaim
pub record RequiredClaim : Type 0 where
  pub claim_token_format : Option String
  pub claim_type : Option String
  pub friendly_name : Option String
  pub issuer : Option String
  pub name : Option String
  pub derivation_resource_id : Option String
  pub resource_scopes : Option (List String)

-- `plain_error` is a thrown Error that is no HttpError.
pub data HttpError : Type 0 where
  bad_request unauthorized forbidden not_found : HttpError
  method_not_allowed conflict internal_server_error plain_error : HttpError
  need_info : String → List RequiredClaim → HttpError

pub data Outcome {ℓ} (A : Type ℓ) : Type ℓ where
  ok : A → Outcome A
  fail : HttpError → Outcome A

module _ {ℓ κ} {A : Type ℓ} {B : Type κ} where
  infixl 5 ◌>>=◌
  -- The rest of a method, after a call that may throw.
  abbrev pub ◌>>=◌ : Outcome A → (A → Outcome B) → Outcome B
  ok x >>= next = next x
  fail thrown >>= next = fail thrown

  pub >>=-eq-ok :
      (call : Outcome A) (next : A → Outcome B) {y : B}
      → (call >>= next) ≡ ok y
      → (x : A) × (call ≡ ok x) × (next x ≡ ok y)
  >>=-eq-ok (ok x) next returned = (x, refl, returned)
  >>=-eq-ok (fail thrown) next returned = cc

pub Outcome-cases {ℓ} :
    {A : Type ℓ} (r : Outcome A) → ((a : A) × (r ≡ ok a)) ⊎ ((e : HttpError) × (r ≡ fail e))
Outcome-cases (ok a) = inl (a, refl)
Outcome-cases (fail e) = inr (e, refl)
