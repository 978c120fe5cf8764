-- ===== src/Dialog/Base/Verified.antt =====
-- The verification of the tokens that were pushed to a dialog, as a relation: what each token has, what
-- the verifier said of it, and how the claims went into the ticket. It is stated without the loop
-- `processCredentials` and its body.
use user_managed_access.Prelude.{
  String, some, List, [], ◌∷◌, true, false, ◌||◌, ◌⊎◌, ◌&&◌, ◌≡◌, sym, ap, refl, subst, ◌∙◌, truthy,
  or_else, ℕ, arith, Bool-cases, inl, inr, Option, none,
}
use user_managed_access.Http.{ok}
use user_managed_access.Http.Exec.{>>=-eq-ok}
use user_managed_access.Storage.{KeyValueStorage}
use user_managed_access.Ticketing.Strategy.{TicketingStrategy}
use user_managed_access.Views.{Ticket, ClaimSet}
use user_managed_access.Dialog.{
  DialogInput, ClaimToken, ClaimTokens, no_token, one_token, many_tokens, Verifier, World,
}
use user_managed_access.Dialog.Base.{
  call, process_token, process_tokens, process_credentials, pushed_tokens,
}

-- The tokens that the fields `claim_token` and `claim_token_format` of a body make up.
abbrev pub ArePushed : ClaimTokens → Option String → List ClaimToken → Type 0
ArePushed (many_tokens given) format tokens = tokens ≡ given
ArePushed (one_token token) format tokens =
    ((tokens ≡ record { token = some token; format = format } ∷ [])
      × ((truthy (some token) || truthy format) ≡ true))
    ⊎ ((tokens ≡ []) × (truthy (some token) ≡ false) × (truthy format ≡ false))
ArePushed no_token format tokens =
    ((tokens ≡ record { token = none; format = format } ∷ []) × (truthy format ≡ true))
    ⊎ ((tokens ≡ []) × (truthy format ≡ false))

pub pushed_tokens-ArePushed :
    (input : DialogInput)
    → ArePushed input.claim_token input.claim_token_format (pushed_tokens input)
unfolding pushed_tokens
pushed_tokens-ArePushed input =
    subst (λ c. ArePushed c input.claim_token_format (pushed_tokens input)) refl
      (go input.claim_token refl)
  where
    go :
        (c : ClaimTokens)
        → input.claim_token ≡ c
        → ArePushed c input.claim_token_format (pushed_tokens input)
    go (many_tokens given) e = rw (e, pushed_tokens) refl
    go (one_token token) e =
        elim (Bool-cases (truthy (some token) || truthy input.claim_token_format)) [
          | inl some_there ↦ inl (rw (e, some_there, pushed_tokens) refl, some_there)
          | inr neither ↦ inr (
            rw (e, neither, pushed_tokens) refl,
            ground (arith, neither),
            ground (arith, neither),
          )
        ]
    go no_token e = elim (Bool-cases (truthy input.claim_token_format)) [
      | inl format ↦ inl (rw (e, format, pushed_tokens) refl, format)
      | inr nothing ↦ inr (rw (e, nothing, pushed_tokens) refl, nothing)
    ]

module _ {W : Type 0} (K : KeyValueStorage Ticket) (verifier : Verifier W)
    (strategy : TicketingStrategy) (now : ℕ) where
  -- One token: it has a text and a format, the verifier accepted it, and the strategy put the claims
  -- into the ticket.
  pub record IsVerified (t : ClaimToken) (ticket next : Ticket) (w w' : World K.State W)
      : Type 0 where
    pub token : String
    pub format : String
    pub claims : ClaimSet
    pub others : W
    pub has_token : (t.token ≡ some token) × (truthy (some token) ≡ true)
    pub has_format : (t.format ≡ some format) × (truthy (some format) ≡ true)
    pub accepted :
        verifier.verify now (record { token = token; format = format }) w.others
        ≡ (ok claims, others)
    pub validated : strategy.validate_claims ticket claims ≡ ok next
    pub left : w' ≡ record w { others = others }

  -- The tokens of a list, one after the other.
  abbrev pub AreVerified :
      List ClaimToken → Ticket → Ticket → World K.State W → World K.State W → Type 0
  AreVerified [] ticket updated w w' = (updated ≡ ticket) × (w' ≡ w)
  AreVerified (t ∷ rest) ticket updated w w' =
      (next : Ticket) × (v : World K.State W) × IsVerified t ticket next w v
      × AreVerified rest next updated v w'

  truthy-some :
      (o : Option String)
      → truthy o ≡ true
      → (s : String) × (o ≡ some s) × (truthy (some s) ≡ true) × (or_else o "" ≡ s)
  truthy-some none h = absurd (ground (arith, h))
  truthy-some (some s) h = (s, refl, h, refl)

  process_token-IsVerified :
      (t : ClaimToken) (ticket next : Ticket) (w w' : World K.State W)
      → process_token K verifier strategy now t ticket w ≡ (ok next, w')
      → IsVerified t ticket next w w'
  unfolding process_token
  process_token-IsVerified t ticket next w w' h =
      elim (Bool-cases (truthy t.token && truthy t.format)) [
        | inr missing ↦ absurd (ground (arith, h, missing))
        | inl both ↦
            let (token, is_token, full_token, e) = truthy-some t.token (ground (arith, both)) in
            let (format, is_format, full_format, k) = truthy-some t.format (ground (arith, both)) in
            let (claims, v, called, validated) =
              >>=-eq-ok
                (call K (
                  verifier.verify now
                    (record { token = or_else t.token ""; format = or_else t.format "" })))
                _ w w' next (rw both at h) in
            record {
              token = token;
              format = format;
              claims = claims;
              others = v.others;
              has_token = (is_token, full_token);
              has_format = (is_format, full_format);
              accepted = accepts token format claims v e k called;
              validated = ap (λ p. p.0) validated;
              left = ground (arith, called, validated);
            }
      ]
    where
      accepts :
          (token format : String) (claims : ClaimSet) (v : World K.State W)
          → or_else t.token "" ≡ token
          → or_else t.format "" ≡ format
          → call K
              (verifier.verify now
                (record { token = or_else t.token ""; format = or_else t.format "" }))
              w
            ≡ (ok claims, v)
          → verifier.verify now (record { token = token; format = format }) w.others
            ≡ (ok claims, v.others)
      accepts token format claims v e k called =
          let r =
            verifier.verify now
              (record { token = or_else t.token ""; format = or_else t.format "" }) w.others in
          ap (λ c. verifier.verify now c w.others)
            (λ i. record { token = sym e i; format = sym k i })
          ∙ (λ i. ((called i).0, (called i).1.others))

  process_tokens-AreVerified :
      (ts : List ClaimToken) (ticket updated : Ticket) (w w' : World K.State W)
      → process_tokens K verifier strategy now ts ticket w ≡ (ok updated, w')
      → AreVerified ts ticket updated w w'
  unfolding process_tokens
  process_tokens-AreVerified [] ticket updated w w' h = (ground (arith, h), ground (arith, h))
  process_tokens-AreVerified (t ∷ ts) ticket updated w w' h =
      let (next, v, one, rest) =
        >>=-eq-ok (process_token K verifier strategy now t ticket) _ w w' updated h in
      (
        next,
        v,
        process_token-IsVerified t ticket next w v one,
        process_tokens-AreVerified ts next updated v w' rest,
      )

  pub process_credentials-AreVerified :
      (input : DialogInput) (ticket updated : Ticket) (w w' : World K.State W)
      → process_credentials K verifier strategy now input ticket w ≡ (ok updated, w')
      → AreVerified (pushed_tokens input) ticket updated w w'
  unfolding process_credentials
  process_credentials-AreVerified input ticket updated w w' h =
      process_tokens-AreVerified (pushed_tokens input) ticket updated w w' h
