-- ===== src/Css/Extractor/Issued.antt =====
-- What the credentials of a request rest on.
use user_managed_access.Prelude.{
  String, Option, some, List, [], ◌∷◌, true, false, ◌≡◌, ap, ◌∙◌, truthy, or_else, Dict, ℕ,
  contains, all, ◌==◌, arith, eq_iff, Bool-cases, Option-cases, inl, inr,
}
use user_managed_access.Http.{Outcome, ok, Outcome-cases, >>=-eq-ok, ◌>>=◌}
use user_managed_access.Css.Client.{
  Reply, UmaConfig, Cached, Payload, Jose, compact, is_valid_entry, entries_of, verify_jwt_token,
}
use user_managed_access.Css.Client.Verified.{IsConfig, verify_jwt_token_sound}
use user_managed_access.Css.Owners.{Accounts, UmaSettings, find_owners, find_uma_settings}
use user_managed_access.Css.Extractor.{issuers_of, valid_issuers, verify_token, extract}

-- An owner on the list has chosen the issuer.
abbrev pub IsChosen : Accounts → List String → String → Type 0
IsChosen accounts owners issuer =
    (owner : String) × (contains owners owner ≡ true)
    × ((settings : UmaSettings) × (find_uma_settings accounts owner ≡ ok settings)
        × (settings.issuer ≡ some issuer))

IsChosen-issuers_of :
    (accounts : Accounts) (owners issuers : List String) (issuer : String)
    → issuers_of accounts owners ≡ ok issuers
    → contains issuers issuer ≡ true
    → IsChosen accounts owners issuer
unfolding issuers_of
IsChosen-issuers_of accounts [] issuers issuer h c = absurd (ground (arith, h, c))
IsChosen-issuers_of accounts (o ∷ owners) issuers issuer h c =
    elim (Outcome-cases (find_uma_settings accounts o)) [
      | inr (e, failed) ↦ absurd (ground (arith, h, failed))
      | inl (settings, fine) ↦ elim (Outcome-cases (issuers_of accounts owners)) [
        | inr (e, failed) ↦ absurd (ground (arith, h, fine, failed))
        | inl (more, found) ↦ elim (Option-cases settings.issuer) [
          | inl none_chosen ↦
              let (owner, there, rest) =
                IsChosen-issuers_of accounts owners more issuer found
                  (ground (arith, h, c, fine, found, none_chosen)) in
              (owner, ground (arith, there), rest)
          | inr (i, chosen) ↦ elim (Bool-cases (i == issuer)) [
            | inl same ↦ (
              o,
              ground (arith, eq_iff o o),
              (settings, fine, chosen ∙ ap (λ j. some j) ((eq_iff i issuer).0 same)),
            )
            | inr other ↦
                let (owner, there, rest) =
                  IsChosen-issuers_of accounts owners more issuer found
                    (ground (arith, h, c, fine, found, chosen, other)) in
                (owner, ground (arith, there), rest)
          ]
        ]
      ]
    ]

-- The credentials that are extracted from a request with a signed token are those of a token that was
-- verified with the keys of an issuer, and an owner of the requested resource has chosen that issuer.
pub extract_sound :
    (jose : Jose) (fetch : String → Reply) (post : String → String → Reply) (now : ℕ)
    (accounts : Accounts) (token : Option String) (target : Outcome String) (s t : Dict Cached)
    (payload : Payload)
    → extract jose fetch post now accounts false token target s ≡ (ok payload, t)
    → (resource : String) × (owners : List String) × (issuer : String) × (config : UmaConfig)
      × (target ≡ ok resource)
      × (find_owners accounts resource ≡ ok owners)
      × IsChosen accounts owners issuer
      × IsConfig fetch now issuer s config
      × (jose.verify (compact (or_else token "")) config.jwks_uri config.issuer ≡ ok payload)
      × (all is_valid_entry (entries_of payload) ≡ true)
unfolding extract verify_token valid_issuers
extract_sound jose fetch post now accounts token target s t payload h =
    elim (Bool-cases (truthy token)) [
      | inr empty ↦ absurd (ground (arith, h, empty))
      | inl full ↦ elim (Outcome-cases (valid_issuers accounts target)) [
        | inr (e, failed) ↦ absurd (ground (arith, h, full, failed))
        | inl (issuers, known) ↦
            let run = verify_jwt_token jose fetch now (or_else token "") issuers s in
            elim (Outcome-cases run.0) [
              | inr (e, refused) ↦ absurd (ground (arith, h, full, known, refused))
              | inl (found, verified) ↦
                  let same : found ≡ payload = ground (arith, h, full, known, verified) in
                  let (issuer, config, decoded, listed, published, signed, valid) =
                    verify_jwt_token_sound jose fetch now (or_else token "") issuers s run.1 payload
                      (λ i. ((verified ∙ ap ok same) i, run.1)) in
                  let (owners, owned, chosen) =
                    >>=-eq-ok (target >>= find_owners accounts) (issuers_of accounts) known in
                  let (resource, targeted, found_owners) =
                    >>=-eq-ok target (find_owners accounts) owned in
                  (
                    resource,
                    owners,
                    issuer,
                    config,
                    targeted,
                    found_owners,
                    IsChosen-issuers_of accounts owners issuers issuer chosen listed,
                    published,
                    signed,
                    valid,
                  )
            ]
      ]
    ]
