-- ===== src/Credentials/Iris.antt =====
-- The identifiers that the IRI verifier leaves.
use user_managed_access.Prelude.{
  String, Option, none, some, List, [], ◌∷◌, map, Bool, true, false, ◌==◌, ◌≡◌, refl, sym, ap, ◌∙◌,
  if◌then◌else◌, ℕ, get, put, get-put, All, arith, eq_refl, subst, Bool-cases, Option-cases, inl,
  inr,
}
use user_managed_access.Http.{ok}
use user_managed_access.Http.Exec.{>>=-eq-ok}
use user_managed_access.Views.{
  ClaimSet, Claim, text, access, object, claims_of, Credential, webid, clientid, original_webid,
  original_clientid,
}
use user_managed_access.Dialog.{Verifier}
use user_managed_access.Credentials.{to_iri, convert_claim, iri_verify}

module _ (is_iri : String → Bool) (join_base : String → String) where
  -- A claim that is a string is an IRI.
  abbrev pub IsIri : Claim → Type 0
  IsIri (text s) = is_iri s ≡ true
  IsIri c = Unit

  to_iri-IsIri :
      ((s : String) → is_iri (join_base s) ≡ true) → (c : Claim) → IsIri (to_iri is_iri join_base c)
  unfolding to_iri
  to_iri-IsIri joined (text s) = elim (Bool-cases (is_iri s)) [
    | inl here ↦ rw here here
    | inr there ↦ rw there (joined s)
  ]
  to_iri-IsIri joined (access p) = tt
  to_iri-IsIri joined (object n) = tt

  All-map-to_iri :
      ((s : String) → is_iri (join_base s) ≡ true)
      → (cs : List Claim) → All IsIri (map (to_iri is_iri join_base) cs)
  All-map-to_iri joined [] = tt
  All-map-to_iri joined (c ∷ cs) = (to_iri-IsIri joined c, All-map-to_iri joined cs)

  get-convert_claim-none :
      (kind original key : String) (claims result : ClaimSet)
      → get claims kind ≡ none
      → get (convert_claim is_iri join_base kind original claims result) key ≡ get result key
  unfolding convert_claim
  get-convert_claim-none kind original key claims result missing = ground (arith, missing)

  get-convert_claim-some :
      (kind original key : String) (claims result : ClaimSet) (entries : List Claim)
      → get claims kind ≡ some entries
      → get (convert_claim is_iri join_base kind original claims result) key ≡ (
          if kind == key
          then some (map (to_iri is_iri join_base) entries)
          else if original == key
          then some entries
          else get result key)
  unfolding convert_claim
  get-convert_claim-some kind original key claims result entries found =
      rw (found, convert_claim)
        (get-put (put result original entries) kind key (map (to_iri is_iri join_base) entries)
          ∙ ap (λ r. if kind == key then some (map (to_iri is_iri join_base) entries) else r)
              (get-put result original key entries))

  -- The entries of an optional list.
  abbrev entries_of : Option (List Claim) → List Claim
  entries_of values = elim values [ none ↦ [] | some cs ↦ cs ]

  -- A conversion leaves IRIs under its own key.
  converted_own :
      ((s : String) → is_iri (join_base s) ≡ true)
      → (kind original : String) (claims result : ClaimSet)
      → (get claims kind ≡ none → get result kind ≡ none)
      → All IsIri (claims_of (convert_claim is_iri join_base kind original claims result) kind)
  converted_own joined kind original claims result same = elim (Option-cases (get claims kind)) [
    | inl missing ↦
        subst (λ o. All IsIri (entries_of o))
          (sym (get-convert_claim-none kind original kind claims result missing ∙ same missing)) tt
    | inr (entries, found) ↦
        subst (λ o. All IsIri (entries_of o))
          (sym (
            get-convert_claim-some kind original kind claims result entries found
            ∙ ap
                (λ b.
                  if b
                  then some (map (to_iri is_iri join_base) entries)
                  else if original == kind
                  then some entries
                  else get result kind)
                (eq_refl kind)))
          (All-map-to_iri joined entries)
  ]

  get-convert_claim_other :
      (kind original key : String) (claims result : ClaimSet)
      → (kind == key) ≡ false
      → (original == key) ≡ false
      → get (convert_claim is_iri join_base kind original claims result) key ≡ get result key
  get-convert_claim_other kind original key claims result h k =
      elim (Option-cases (get claims kind)) [
        | inl missing ↦ get-convert_claim-none kind original key claims result missing
        | inr (entries, found) ↦
            get-convert_claim-some kind original key claims result entries found ∙ rw (h, k) refl
      ]

  get-convert_claim_original :
      (kind original : String) (claims result : ClaimSet) (entries : List Claim)
      → (kind == original) ≡ false
      → get claims kind ≡ some entries
      → get (convert_claim is_iri join_base kind original claims result) original ≡ some entries
  get-convert_claim_original kind original claims result entries h found =
      get-convert_claim-some kind original original claims result entries found
      ∙ rw (h, eq_refl original) refl

  -- If joining a name to the base URL gives an IRI, every user and client that the verifier names by a
  -- string is named by an IRI; the users that the verifier inside gave stand under the key for the
  -- original ones.
  pub iri_verify_sound :
      {W : Type 0} (verifier : Verifier W) (now : ℕ) (credential : Credential) (w w' : W)
      (r : ClaimSet)
      → ((s : String) → is_iri (join_base s) ≡ true)
      → iri_verify is_iri join_base verifier now credential w ≡ (ok r, w')
      → (claims : ClaimSet) × (verifier.verify now credential w ≡ (ok claims, w'))
        × All IsIri (claims_of r webid)
        × All IsIri (claims_of r clientid)
        × ((users : List Claim) → get claims webid ≡ some users → get r original_webid ≡ some users)
  unfolding iri_verify
  iri_verify_sound verifier now credential w w' r joined h =
      let (claims, v, called, rest) = >>=-eq-ok (verifier.verify now credential) _ w w' r h in
      let users : ClaimSet = convert_claim is_iri join_base webid original_webid claims claims in
      let all : ClaimSet = convert_claim is_iri join_base clientid original_clientid claims users in
      let same : all ≡ r = ground (arith, rest) in
      let after : v ≡ w' = ap (λ p. p.1) rest in
      let kept : (key : String)
          → (clientid == key) ≡ false
          → (original_clientid == key) ≡ false
          → get all key ≡ get users key =
        λ key. get-convert_claim_other clientid original_clientid key claims users in
      (
        claims,
        called ∙ ap (λ u. (ok claims, u)) after,
        subst (λ d. All IsIri (claims_of d webid)) same
            (subst (λ o. All IsIri (entries_of o)) (sym (kept webid refl refl))
              (converted_own joined webid original_webid claims claims λ e. e)),
        subst (λ d. All IsIri (claims_of d clientid)) same
            (converted_own joined clientid original_clientid claims users λ e.
              get-convert_claim_other webid original_webid clientid claims claims refl refl ∙ e),
        λ us e.
            subst (λ d. get d original_webid ≡ some us) same
              (kept original_webid refl refl
                ∙ get-convert_claim_original webid original_webid claims claims us refl e),
      )
