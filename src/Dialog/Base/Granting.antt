-- ===== src/Dialog/Base/Granting.antt =====
-- When a negotiation hands out a token, and what is in it.
use user_managed_access.Prelude.{
  String, none, All, length, get, List, Option, some, [], ◌∷◌, true, false, ◌≡◌, refl, sym, ap, ◌∙◌,
  subst, truthy, or_else, arith, Bool-cases, inl, inr, ◌⊎◌, Option-cases,
}
use user_managed_access.Http.{ok, RequiredClaim}
use user_managed_access.Http.Exec.{lift, >>=-eq-ok}
use user_managed_access.Storage.{KeyValueStorage}
use user_managed_access.Ticketing.Strategy.{TicketingStrategy}
use user_managed_access.Views.{
  Permission, IsCovered, Ticket, ClaimSet, Claim, Resolution, success, failure, SerializedToken,
  webid, original_webid,
}
use user_managed_access.Dialog.{
  DialogInput, DialogOutput, ClaimToken, Draw, Verifier, TokenFactory, RefreshTokenIssuer, World,
}
use user_managed_access.Dialog.Base.{
  call, get_ticket, process_credentials, issue_refresh_token, grant, deny_request, answer,
  negotiate, is_partial_result, token_sub, first_text, pushed_tokens,
}
use user_managed_access.Dialog.Base.Partial.{is_partial_result_sound, is_partial_result_self}
use user_managed_access.Dialog.Base.Verified.{
  ArePushed, pushed_tokens-ArePushed, AreVerified, process_credentials-AreVerified,
}

module _ {W : Type 0} (K : KeyValueStorage Ticket) (verifier : Verifier W)
    (strategy : TicketingStrategy) (factory : TokenFactory W)
    (issuer : Option (RefreshTokenIssuer W)) (draw : Draw) where
  -- Whom a token is for: the first user that the claims name before names were made IRIs, otherwise the
  -- first one after that, otherwise nobody.
  abbrev pub IsSubject : ClaimSet → Option String → Type 0
  IsSubject provided sub =
      ((subs : List Claim) × (get provided original_webid ≡ some subs) × (sub ≡ first_text subs))
      ⊎ ((get provided original_webid ≡ none)
          × (((subs : List Claim) × (get provided webid ≡ some subs) × (sub ≡ first_text subs))
              ⊎ ((get provided webid ≡ none) × (sub ≡ none))))

  token_sub-IsSubject : (provided : ClaimSet) → IsSubject provided (token_sub provided)
  unfolding token_sub
  token_sub-IsSubject provided = elim (Option-cases (get provided original_webid)) [
    | inr (subs, found) ↦ inl (subs, found, rw (found, token_sub) refl)
    | inl missing ↦ elim (Option-cases (get provided webid)) [
      | inr (subs, found) ↦ inr (missing, inl (subs, found, rw (missing, found, token_sub) refl))
      | inl neither ↦ inr (missing, inr (neither, rw (missing, neither, token_sub) refl))
    ]
  ]

  -- The refresh token, where the server has an issuer of them.
  abbrev pub IsRefresh :
      Option (RefreshTokenIssuer W)
      → ClaimSet
      → List Permission
      → Option String
      → World K.State W
      → World K.State W
      → Type 0
  IsRefresh none provided permissions refresh w w' = (refresh ≡ none) × (w' ≡ w)
  IsRefresh (some i) provided permissions refresh w w' =
      (token : String) × (others : W) × (refresh ≡ some token)
      × (i.issue draw.refresh_id draw.now provided permissions w.others ≡ (ok token, others))
      × (w' ≡ record w { others = others })

  issue_refresh_token-IsRefresh :
      (i : Option (RefreshTokenIssuer W)) (provided : ClaimSet) (permissions : List Permission)
      (refresh : Option String) (w w' : World K.State W)
      → issue_refresh_token K i draw provided permissions w ≡ (ok refresh, w')
      → IsRefresh i provided permissions refresh w w'
  unfolding issue_refresh_token
  issue_refresh_token-IsRefresh none provided permissions refresh w w' h =
      (ground (arith, h), ground (arith, h))
  issue_refresh_token-IsRefresh (some i) provided permissions refresh w w' h =
      let (token, v, called, rest) =
        >>=-eq-ok (call K (i.issue draw.refresh_id draw.now provided permissions)) _ w w' refresh
          h in
      (
        token,
        v.others,
        ground (arith, rest),
        λ j. ((called j).0, (called j).1.others),
        ground (arith, called, rest),
      )

  -- A token that was minted for the ticket and these permissions, from one state to another: first the
  -- access token, then the refresh token. It is marked as partial unless each scope that was requested
  -- of each resource is granted, and it is not where the permissions are just those that were requested.
  pub record Minted (updated : Ticket) (permissions : List Permission) (w w' : World K.State W)
      (out : DialogOutput) : Type 0 where
    pub sub : Option String
    pub subject : IsSubject updated.provided sub
    pub serialized : SerializedToken
    pub others : W
    pub minted :
        factory.serialize draw.token_id (record { permissions = permissions; sub = sub }) w.others
        ≡ (ok serialized, others)
    pub refreshed :
        IsRefresh issuer updated.provided permissions out.refresh_token
          (record w { others = others })
          w'
    pub same_token : out.access_token ≡ serialized.token
    pub same_type : out.token_type ≡ serialized.token_type
    pub whole :
        (out.partial ≡ true)
        ⊎ ((length updated.permissions ≡ length permissions)
            × All (IsCovered permissions) updated.permissions)
    pub partial : (out.partial ≡ false) ⊎ ¬ (updated.permissions ≡ permissions)

  partial-whole :
      (requested permissions : List Permission)
      → (is_partial_result requested permissions ≡ true)
        ⊎ ((length requested ≡ length permissions) × All (IsCovered permissions) requested)
  partial-whole requested permissions =
      elim (Bool-cases (is_partial_result requested permissions)) [
        | inl partial ↦ inl partial
        | inr whole ↦ inr (is_partial_result_sound requested permissions whole)
      ]

  partial-other :
      (requested permissions : List Permission)
      → (is_partial_result requested permissions ≡ false) ⊎ ¬ (requested ≡ permissions)
  partial-other requested permissions =
      elim (Bool-cases (is_partial_result requested permissions)) [
        | inr whole ↦ inl whole
        | inl partial ↦ inr (λ same.
            let whole : is_partial_result requested permissions ≡ false =
              subst (λ p. is_partial_result requested p ≡ false) same
                (is_partial_result_self requested) in
            absurd (ground (arith, partial, whole)))
      ]

  grant-Minted :
      (updated : Ticket) (permissions : List Permission) (w w' : World K.State W)
      (out : DialogOutput)
      → grant K factory issuer draw updated permissions w ≡ (ok out, w')
      → Minted updated permissions w w' out
  unfolding grant
  grant-Minted updated permissions w w' out h =
      let (s, v, called, rest) =
        >>=-eq-ok (call K (factory.serialize draw.token_id _)) _ w w' out h in
      let (r, u, issued, made) =
        >>=-eq-ok (issue_refresh_token K issuer draw _ _) _ v w' out rest in
      let same_out : record {
        access_token = s.token;
        refresh_token = r;
        token_type = s.token_type;
        partial = is_partial_result updated.permissions permissions;
        expires_in = none;
        derivation_resource_id = none;
      }
          ≡ out =
        ground (arith, made) in
      let same_world : v ≡ record w { others = v.others } = ground (arith, called) in
      let issued_out : issue_refresh_token K issuer draw updated.provided permissions v
          ≡ (ok out.refresh_token, w') =
        issued ∙ (λ i. (ok (same_out i).refresh_token, (made i).1)) in
      record {
        sub = token_sub updated.provided;
        subject = token_sub-IsSubject updated.provided;
        serialized = s;
        others = v.others;
        minted = λ i. ((called i).0, (called i).1.others);
        refreshed =
            subst (λ x. IsRefresh issuer updated.provided permissions out.refresh_token x w')
              same_world
              (issue_refresh_token-IsRefresh issuer updated.provided permissions out.refresh_token v
                w' issued_out);
        same_token = sym (ap (λ o. o.access_token) same_out);
        same_type = sym (ap (λ o. o.token_type) same_out);
        whole =
            subst
              (λ b.
                (b ≡ true)
                ⊎ ((length updated.permissions ≡ length permissions)
                    × All (IsCovered permissions) updated.permissions))
              (ap (λ o. o.partial) same_out) (partial-whole updated.permissions permissions);
        partial =
            subst (λ b. (b ≡ false) ⊎ ¬ (updated.permissions ≡ permissions))
              (ap (λ o. o.partial) same_out) (partial-other updated.permissions permissions);
      }

  -- The ticket of a dialog: the one in the store, or a new one for the permissions of the request.
  abbrev pub Starts : DialogInput → World K.State W → Ticket → Type 0
  Starts input w ticket =
      ((truthy input.ticket ≡ true) × (K.get w.tickets (or_else input.ticket "") ≡ some ticket))
      ⊎ ((truthy input.ticket ≡ false)
          × ((permissions : List Permission) × (input.permissions ≡ some permissions)
              × (strategy.initialize_ticket permissions ≡ ok ticket)))

  get_ticket-Starts :
      (input : DialogInput) (w w' : World K.State W) (ticket : Ticket)
      → get_ticket K strategy input w ≡ (ok ticket, w')
      → Starts input w ticket
  unfolding get_ticket
  get_ticket-Starts input w w' ticket h = elim (Bool-cases (truthy input.ticket)) [
    | inl e ↦ elim (Option-cases (K.get w.tickets (or_else input.ticket ""))) [
      | inl missing ↦ absurd (ground (arith, h, e, missing))
      | inr (stored, found) ↦ inl (e, ground (arith, h, e, found))
    ]
    | inr e ↦ elim (Option-cases input.permissions) [
      | inl missing ↦ absurd (ground (arith, h, e, missing))
      | inr (permissions, found) ↦ inr (e, (permissions, found, ground (arith, h, e, found)))
    ]
  ]

  -- The same with the state that it leaves: a stored ticket is gone.
  abbrev pub Opens : DialogInput → Ticket → World K.State W → World K.State W → Type 0
  Opens input ticket w w' =
      ((truthy input.ticket ≡ true)
        × (K.get w.tickets (or_else input.ticket "") ≡ some ticket)
        × (w' ≡ record w { tickets = K.delete w.tickets (or_else input.ticket "") }))
      ⊎ ((truthy input.ticket ≡ false)
          × ((permissions : List Permission) × (input.permissions ≡ some permissions)
              × (strategy.initialize_ticket permissions ≡ ok ticket))
          × (w' ≡ w))

  pub get_ticket-Opens :
      (input : DialogInput) (w w' : World K.State W) (ticket : Ticket)
      → get_ticket K strategy input w ≡ (ok ticket, w')
      → Opens input ticket w w'
  unfolding get_ticket
  get_ticket-Opens input w w' ticket h = elim (get_ticket-Starts input w w' ticket h) [
    | inl (e, found) ↦ inl (e, found, ground (arith, h, e, found))
    | inr (e, (permissions, found, made)) ↦
        inr (e, (permissions, found, made), ground (arith, h, e, found))
  ]

  answer_failure :
      (ticket updated : Ticket) (requirements : List RequiredClaim) (w w' : World K.State W)
      (out : DialogOutput)
      → answer K factory issuer draw ticket updated (failure requirements) w ≡ (ok out, w')
      → ⊥
  unfolding answer deny_request
  answer_failure ticket updated [] w w' out h = ground (arith, h)
  answer_failure ticket updated (c ∷ cs) w w' out h = ground (arith, h)

  answer_success :
      (ticket updated : Ticket) (permissions : List Permission) (w w' : World K.State W)
      (out : DialogOutput)
      → answer K factory issuer draw ticket updated (success permissions) w ≡ (ok out, w')
      → grant K factory issuer draw updated permissions w ≡ (ok out, w')
  unfolding answer
  answer_success ticket updated permissions w w' out h = h

  -- The steps of a negotiation that hands out a token.
  pub negotiate-eq-ok :
      (input : DialogInput) (w w' : World K.State W) (out : DialogOutput)
      → negotiate K verifier strategy factory issuer draw input w ≡ (ok out, w')
      → (ticket updated : Ticket) × (permissions : List Permission) × (w1 w2 : World K.State W)
        × Starts input w ticket
        × (get_ticket K strategy input w ≡ (ok ticket, w1))
        × (process_credentials K verifier strategy draw.now input ticket w1 ≡ (ok updated, w2))
        × (strategy.resolve_ticket updated ≡ ok (success permissions))
        × Minted updated permissions w2 w' out
  unfolding negotiate
  negotiate-eq-ok input w w' out h =
      let (ticket, w1, got, rest) = >>=-eq-ok (get_ticket K strategy input) _ w w' out h in
      let (updated, w2, processed, rest2) =
        >>=-eq-ok (process_credentials K verifier strategy draw.now input ticket) _ w1 w' out
          rest in
      let (resolved, w3, decided, rest3) =
        >>=-eq-ok (lift (strategy.resolve_ticket updated)) _ w2 w' out rest2 in
      go ticket updated w1 w2 got processed resolved (ap (λ p. p.0) decided) (
        subst (λ v. answer K factory issuer draw ticket updated resolved v ≡ (ok out, w'))
          (sym (ap (λ p. p.1) decided)) rest3)
    where
      go :
          (ticket updated : Ticket) (w1 w2 : World K.State W)
          → get_ticket K strategy input w ≡ (ok ticket, w1)
          → process_credentials K verifier strategy draw.now input ticket w1 ≡ (ok updated, w2)
          → (resolved : Resolution (List Permission) (List RequiredClaim))
          → strategy.resolve_ticket updated ≡ ok resolved
          → answer K factory issuer draw ticket updated resolved w2 ≡ (ok out, w')
          → (ticket updated : Ticket) × (permissions : List Permission) × (w1 w2 : World K.State W)
            × Starts input w ticket
            × (get_ticket K strategy input w ≡ (ok ticket, w1))
            × (process_credentials K verifier strategy draw.now input ticket w1 ≡ (ok updated, w2))
            × (strategy.resolve_ticket updated ≡ ok (success permissions))
            × Minted updated permissions w2 w' out
      go ticket updated w1 w2 got processed (success permissions) e k = (
        ticket,
        updated,
        permissions,
        w1,
        w2,
        get_ticket-Starts input w w1 ticket got,
        got,
        processed,
        e,
        grant-Minted updated permissions w2 w' out
            (answer_success ticket updated permissions w2 w' out k),
      )
      go ticket updated w1 w2 got processed (failure requirements) e k =
          absurd (answer_failure ticket updated requirements w2 w' out k)

  -- What lies behind a token that a negotiation handed out.
  pub record IsGranted (input : DialogInput) (w w' : World K.State W) (out : DialogOutput)
      : Type 0 where
    pub ticket : Ticket
    pub updated : Ticket
    pub permissions : List Permission
    pub w1 : World K.State W
    pub w2 : World K.State W
    pub opens : Opens input ticket w w1
    pub tokens : List ClaimToken
    pub pushed : ArePushed input.claim_token input.claim_token_format tokens
    pub verified : AreVerified K verifier strategy draw.now tokens ticket updated w1 w2
    pub resolved : strategy.resolve_ticket updated ≡ ok (success permissions)
    pub minted : Minted updated permissions w2 w' out

  -- A negotiation that hands out a token began with the stored ticket that the input names, which is
  -- gone then, or with a new one for the permissions of the input. Every token that was pushed has a
  -- text and a format and was accepted by the verifier, and the strategy put the claims into the
  -- ticket, one after the other. The strategy resolves the updated ticket with the permissions that the
  -- minted token holds, for the user that the claims name. Unless the output is marked as partial, the
  -- permissions are as many as the requested ones and grant each requested scope of each resource; it
  -- is not marked where they are just the requested ones.
  pub negotiate-IsGranted :
      (input : DialogInput) (w w' : World K.State W) (out : DialogOutput)
      → negotiate K verifier strategy factory issuer draw input w ≡ (ok out, w')
      → IsGranted input w w' out
  negotiate-IsGranted input w w' out h =
      let (ticket, updated, permissions, w1, w2, starts, got, processed, resolved, minted) =
        negotiate-eq-ok input w w' out h in
      record {
        ticket = ticket;
        updated = updated;
        permissions = permissions;
        w1 = w1;
        w2 = w2;
        opens = get_ticket-Opens input w w1 ticket got;
        tokens = pushed_tokens input;
        pushed = pushed_tokens-ArePushed input;
        verified =
            process_credentials-AreVerified K verifier strategy draw.now input ticket updated w1 w2
              processed;
        resolved = resolved;
        minted = minted;
      }
