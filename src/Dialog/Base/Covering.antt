-- ===== src/Dialog/Base/Covering.antt =====
-- The negotiator with the strategy of ImmediateAuthorizerStrategy.ts.
use user_managed_access.Prelude.{
  Option, List, [], ◌∷◌, Bool, false, ◌&&◌, ◌≡◌, ◌∙◌, subst, truthy, ℕ, All, arith, Bool-cases, inl,
  inr,
}
use user_managed_access.Http.{ok}
use user_managed_access.Http.Exec.{>>=-eq-ok}
use user_managed_access.Policies.{Authorizer}
use user_managed_access.Storage.{KeyValueStorage}
use user_managed_access.Ticketing.Immediate.{
  immediate_strategy, validate_claims, calculate_permissions,
}
use user_managed_access.Ticketing.Immediate.Resolving.{resolve_ticket_success_iff}
use user_managed_access.Views.{Permission, IsCovered, Ticket}
use user_managed_access.Dialog.{
  DialogInput, DialogOutput, ClaimToken, Draw, Verifier, TokenFactory, RefreshTokenIssuer, World,
}
use user_managed_access.Dialog.Base.{
  call, process_token, process_tokens, process_credentials, negotiate,
}
use user_managed_access.Dialog.Base.Granting.{Starts, Minted, negotiate-eq-ok}

module _ {W : Type 0} (K : KeyValueStorage Ticket) (verifier : Verifier W)
    (authorizer : Authorizer) where
  process_token-permissions :
      (allow : Bool) (now : ℕ) (t : ClaimToken) (ticket updated : Ticket) (w w' : World K.State W)
      → process_token K verifier (immediate_strategy authorizer allow) now t ticket w
        ≡ (ok updated, w')
      → updated.permissions ≡ ticket.permissions
  unfolding process_token validate_claims
  process_token-permissions allow now t ticket updated w w' h =
      elim (Bool-cases (truthy t.token && truthy t.format)) [
        | inl both ↦
            let (claims, w1, called, validated) =
              >>=-eq-ok (call K (verifier.verify now _)) _ w w' updated (rw both at h) in
            ground (arith, validated)
        | inr missing ↦ absurd (ground (arith, h, missing))
      ]

  process_tokens-permissions :
      (allow : Bool) (now : ℕ) (ts : List ClaimToken) (ticket updated : Ticket)
      (w w' : World K.State W)
      → process_tokens K verifier (immediate_strategy authorizer allow) now ts ticket w
        ≡ (ok updated, w')
      → updated.permissions ≡ ticket.permissions
  unfolding process_tokens
  process_tokens-permissions allow now [] ticket updated w w' h = ground (arith, h)
  process_tokens-permissions allow now (t ∷ ts) ticket updated w w' h =
      let (next, w1, one, rest) =
        >>=-eq-ok (process_token K verifier (immediate_strategy authorizer allow) now t ticket) _ w
          w' updated h in
      process_tokens-permissions allow now ts next updated w1 w' rest
      ∙ process_token-permissions allow now t ticket next w w1 one

  -- Without partial success, a token is handed out only for a ticket of which every requested scope
  -- of every resource is granted by the authorizer; the minted token holds the permissions that the
  -- authorizer gave for the claims of the updated ticket.
  pub negotiate_covers :
      (factory : TokenFactory W) (issuer : Option (RefreshTokenIssuer W)) (draw : Draw)
      (input : DialogInput) (w w' : World K.State W) (out : DialogOutput)
      → negotiate K verifier (immediate_strategy authorizer false) factory issuer draw input w
        ≡ (ok out, w')
      → (ticket updated : Ticket) × (permissions : List Permission) × (v : World K.State W) × Starts
          K verifier
          (immediate_strategy authorizer false)
          factory
          issuer
          draw
          input
          w
          ticket
        × (calculate_permissions authorizer updated ≡ ok permissions)
        × All (IsCovered permissions) ticket.permissions
        × Minted K verifier
            (immediate_strategy authorizer false)
            factory
            issuer
            draw
            updated
            permissions
            v
            w'
            out
  unfolding process_credentials
  negotiate_covers factory issuer draw input w w' out h =
      let (ticket, updated, permissions, w1, w2, starts, got, processed, resolved, minted) =
        negotiate-eq-ok K verifier (immediate_strategy authorizer false) factory issuer draw input w
          w' out h in
      let (calculated, full, covered) =
        (resolve_ticket_success_iff authorizer updated permissions).0 resolved in
      (
        ticket,
        updated,
        permissions,
        w2,
        starts,
        calculated,
        subst (All (IsCovered permissions))
            (process_tokens-permissions false draw.now _ ticket updated w1 w2 processed) covered,
        minted,
      )
