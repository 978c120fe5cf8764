-- ===== src/Routes/UmaProtection/Rotation.antt =====
-- How many tokens there are, and which refresh tokens still serve.
use user_managed_access.Prelude.{
  String, Option, none, some, List, [], ◌∷◌, Bool, true, false, ◌==◌, ◌≡◌, ◌≢◌, refl, if◌then◌else◌,
  truthy, or_else, ℕ, ◌+◌, ◌≤◌, length, head?, arith, eq_iff, Bool-cases, Option-cases, inl, inr,
}
use user_managed_access.Http.{Outcome, ok, Outcome-cases}
use user_managed_access.Storage.Indexed.{IndexedStorage}
use user_managed_access.Routes.Token.{uma_protection_scope}
use user_managed_access.Dialog.{DialogInput, DialogOutput}
use user_managed_access.Routes.UmaProtection.{
  Pat, Registered, Environment, find_registration, new_pat, token_output, generate_token,
  first_match, handle_client_credentials, refresh_pat, handle_refresh_token, handle_protection,
  has_text,
}

abbrev of_registration : String → Pat → Bool
of_registration r p = p.registration == r

length-none : {A : Type 0} (xs : List A) → head? xs ≡ none → length xs ≡ 0
length-none [] h = refl
length-none (x ∷ xs) h = ground (arith, h)

module _ (P : IndexedStorage Pat) (env : Environment) (fresh : String) (now : ℕ) where
  -- No registration has two tokens.
  abbrev pub HasOnePat : P.State → Type 0
  HasOnePat s = (r : String) → length (P.find s (of_registration r)) ≤ 1

  -- The token of a registration replaces the one that it has.
  set-HasOnePat :
      (s : P.State) (query : Pat → Bool) (i : P.Key) (e : Pat) (registration : Registered)
      → HasOnePat s
      → head? (P.find s query) ≡ some (i, e)
      → e.registration ≡ registration.id
      → HasOnePat (P.set s i (new_pat P env fresh now registration))
  set-HasOnePat s query i e registration one found same r = ground (
    arith,
    one r,
    P.length-set s query i e (new_pat P env fresh now registration) (of_registration r) found,
    same,
  )

  first_match-none :
      (s : P.State) (query : Pat → Bool)
      → head? (P.find s query) ≡ none
      → first_match P env fresh now s query ≡ none
  unfolding first_match
  first_match-none s query h = rw (h, first_match) refl

  first_match-some :
      (s : P.State) (query : Pat → Bool) (i : P.Key) (e : Pat)
      → head? (P.find s query) ≡ some (i, e)
      → first_match P env fresh now s query ≡ some i
  unfolding first_match
  first_match-some s query i e h = rw (h, first_match) refl

  create-HasOnePat :
      (s : P.State) (registration : Registered)
      → HasOnePat s
      → head? (P.find s (of_registration registration.id)) ≡ none
      → HasOnePat (P.create s (new_pat P env fresh now registration))
  create-HasOnePat s registration one missing r = elim (Bool-cases (registration.id == r)) [
    | inl here ↦
        let same : registration.id ≡ r = ground (arith, eq_iff registration.id r, here) in
        let zero : length (P.find s (of_registration r)) ≡ 0 =
          rw (← same) (length-none (P.find s (of_registration registration.id)) missing) in
        ground (
          arith,
          zero,
          P.length-create s (new_pat P env fresh now registration) (of_registration r),
          here,
        )
    | inr other ↦ ground (
      arith,
      one r,
      P.length-create s (new_pat P env fresh now registration) (of_registration r),
      other,
    )
  ]

  client_credentials-HasOnePat :
      (authorization : Option String) (s : P.State)
      → HasOnePat s
      → HasOnePat (handle_client_credentials P env fresh now authorization s).1
  unfolding handle_client_credentials generate_token
  client_credentials-HasOnePat authorization s one =
      elim (Outcome-cases (find_registration P env fresh now authorization)) [
        | inr (e, failed) ↦ rw (failed, handle_client_credentials) one
        | inl (registration, known) ↦
            let query = of_registration registration.id in
            elim (Option-cases (head? (P.find s query))) [
              | inl missing ↦
                  rw (known, handle_client_credentials, first_match-none s query missing)
                    (create-HasOnePat s registration one missing)
              | inr ((i, e), found) ↦
                  rw (known, handle_client_credentials, first_match-some s query i e found)
                    (set-HasOnePat s query i e registration one found (
                      ground (
                        arith,
                        P.find-true s query i e found,
                        eq_iff e.registration registration.id,
                      )))
            ]
      ]

  refresh_pat-HasOnePat :
      (query : Pat → Bool) (i : P.Key) (e : Pat) (authorization : Option String) (s : P.State)
      → HasOnePat s
      → head? (P.find s query) ≡ some (i, e)
      → HasOnePat (refresh_pat P env fresh now i e authorization s).1
  unfolding refresh_pat generate_token
  refresh_pat-HasOnePat query i e authorization s one found =
      elim (Outcome-cases (find_registration P env fresh now authorization)) [
        | inr (x, failed) ↦ rw (failed, refresh_pat) one
        | inl (registration, known) ↦ elim (Bool-cases (e.registration == registration.id)) [
          | inr other ↦ rw (known, other, refresh_pat) one
          | inl mine ↦
              rw (known, mine, refresh_pat)
                (set-HasOnePat s query i e registration one found
                  (ground (arith, mine, eq_iff e.registration registration.id)))
        ]
      ]

  handle_refresh_token-HasOnePat :
      (refresh_token authorization : Option String) (s : P.State)
      → HasOnePat s
      → HasOnePat (handle_refresh_token P env fresh now refresh_token authorization s).1
  unfolding handle_refresh_token
  handle_refresh_token-HasOnePat refresh_token authorization s one =
      elim (Bool-cases (truthy refresh_token)) [
        | inr missing ↦ rw (missing, handle_refresh_token) one
        | inl given ↦
            elim (Option-cases
              (head? (P.find s (λ p. p.refresh_token == or_else refresh_token "")))) [
                | inl unknown ↦ rw (given, unknown, handle_refresh_token) one
                | inr ((i, e), found) ↦
                    rw (given, found, handle_refresh_token)
                      (refresh_pat-HasOnePat (λ p. p.refresh_token == or_else refresh_token "") i e
                        authorization s one found)
              ]
      ]

  if-HasOnePat :
      {A : Type 0} (b : Bool) (x y : Outcome A × P.State)
      → HasOnePat x.1
      → HasOnePat y.1
      → HasOnePat (if b then x else y).1
  if-HasOnePat true x y h k = h
  if-HasOnePat false x y h k = k

  -- A request to the protection endpoint, whatever its outcome, leaves no registration with more than
  -- one token, if none had more before.
  pub handle_protection-HasOnePat :
      (params : Option DialogInput) (authorization : Option String) (s : P.State)
      → HasOnePat s
      → HasOnePat (handle_protection P env fresh now params authorization s).1
  unfolding handle_protection
  handle_protection-HasOnePat none authorization s one = one
  handle_protection-HasOnePat (some params) authorization s one =
      if-HasOnePat {A = DialogOutput} (has_text uma_protection_scope params.scope) _ _
        (if-HasOnePat {A = DialogOutput} (has_text "client_credentials" params.grant_type) _ _
          (client_credentials-HasOnePat authorization s one)
          (if-HasOnePat {A = DialogOutput} (has_text "refresh_token" params.grant_type) _ _
            (handle_refresh_token-HasOnePat params.refresh_token authorization s one) one))
        one

  refresh_pat_ok :
      (i : P.Key) (e : Pat) (authorization : Option String) (s t : P.State) (out : DialogOutput)
      → refresh_pat P env fresh now i e authorization s ≡ (ok out, t)
      → (registration : Registered) × (find_registration P env fresh now authorization
          ≡ ok registration)
        × (e.registration ≡ registration.id)
        × (out ≡ token_output P env fresh now registration)
        × (t ≡ P.set s i (new_pat P env fresh now registration))
  unfolding refresh_pat generate_token
  refresh_pat_ok i e authorization s t out h =
      elim (Outcome-cases (find_registration P env fresh now authorization)) [
        | inr (x, failed) ↦ absurd (ground (arith, h, failed))
        | inl (registration, known) ↦ elim (Bool-cases (e.registration == registration.id)) [
          | inr other ↦ absurd (ground (arith, h, known, other))
          | inl mine ↦ (
            registration,
            known,
            ground (arith, mine, eq_iff e.registration registration.id),
            ground (arith, h, known, mine),
            ground (arith, h, known, mine),
          )
        ]
      ]

  -- A refresh that is answered takes the credentials of the very registration that the token belongs to,
  -- and uses the refresh token up: one entry less is found for it, if the new refresh token differs.
  pub handle_refresh_token_rotates :
      (refresh_token : String) (authorization : Option String) (s t : P.State) (out : DialogOutput)
      → refresh_token ≢ fresh
      → handle_refresh_token P env fresh now (some refresh_token) authorization s ≡ (ok out, t)
      → (i : P.Key) × (e : Pat) × (registration : Registered) × (head?
            (P.find s (λ p. p.refresh_token == refresh_token))
          ≡ some (i, e))
        × (find_registration P env fresh now authorization ≡ ok registration)
        × (e.registration ≡ registration.id)
        × (out ≡ token_output P env fresh now registration)
        × (length (P.find s (λ p. p.refresh_token == refresh_token))
            ≡ length (P.find t (λ p. p.refresh_token == refresh_token)) + 1)
  unfolding handle_refresh_token
  handle_refresh_token_rotates refresh_token authorization s t out new h =
      let test : Pat → Bool = λ p. p.refresh_token == refresh_token in
      elim (Option-cases (head? (P.find s test))) [
        | inl unknown ↦ absurd (ground (arith, h, unknown))
        | inr ((i, e), found) ↦
            let (registration, known, mine, given, after) =
              refresh_pat_ok i e authorization s t out (ground (arith, h, found)) in
            (
              i,
              e,
              registration,
              found,
              known,
              mine,
              given,
              rw after (
                  ground (
                    arith,
                    P.length-set s test i e (new_pat P env fresh now registration) test found,
                    P.find-true s test i e found,
                    eq_iff fresh refresh_token,
                    new,
                  )),
            )
      ]
