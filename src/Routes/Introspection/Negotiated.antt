-- ===== src/Routes/Introspection/Negotiated.antt =====
-- A token that a negotiation handed out is introspected by the resource server.
use user_managed_access.Prelude.{
  sym, ap, ◌∙◌, String, some, List, true, ◌≡◌, ℕ, truthy, arith, eq_refl,
}
use user_managed_access.Http.{ok}
use user_managed_access.Storage.{KeyValueStorage}
use user_managed_access.Storage.Expiring.{ExpiringStorage}
use user_managed_access.Ticketing.Strategy.{TicketingStrategy}
use user_managed_access.Views.{Permission, Ticket, AccessToken}
use user_managed_access.Dialog.{DialogInput, DialogOutput, Draw, Verifier, World}
use user_managed_access.Dialog.Base.{negotiate}
use user_managed_access.Dialog.Base.Granting.{Minted, IsGranted, negotiate-IsGranted}
use user_managed_access.Tokens.{
  Tokens, RefreshInformation, serialize, deserialize, issue, opaque_token_factory,
  stored_refresh_token_issuer,
}
use user_managed_access.Routes.Introspection.{introspect, describe}

module _ (K : KeyValueStorage Ticket) (T : KeyValueStorage AccessToken)
    (F : ExpiringStorage RefreshInformation) (verifier : Verifier (Tokens T.State F.State))
    (strategy : TicketingStrategy) (period : ℕ) (draw : Draw) where
  abbrev Server : Type 0
  Server = World K.State (Tokens T.State F.State)

  -- What the minting of a token leaves under the new identifier.
  minted_lem :
      (updated : Ticket) (permissions : List Permission) (w w' : Server) (out : DialogOutput)
      (m : Minted K verifier strategy
        (opaque_token_factory T F)
        (some (stored_refresh_token_issuer T F period))
        draw
        updated
        permissions
        w
        w'
        out)
      → (out.access_token ≡ draw.token_id)
        × (T.get w'.others.accesses draw.token_id
            ≡ some (record { permissions = permissions; sub = m.sub }))
  unfolding serialize issue
  minted_lem updated permissions w w' out m =
      let (token, others, named, issued, left) = m.refreshed in
      let same : w'.others.accesses
          ≡ T.set w.others.accesses draw.token_id
              (record { permissions = permissions; sub = m.sub }) =
        ap (λ v. v.others.accesses) left
        ∙ ap (λ r. r.1.accesses) (sym issued)
        ∙ ap (λ r. r.1.accesses) (sym m.minted) in
      (
        ground (arith, m.minted, m.same_token),
        ap (λ a. T.get a draw.token_id) same
            ∙ ground (
              arith,
              T.get-set w.others.accesses draw.token_id draw.token_id
                  (record { permissions = permissions; sub = m.sub }),
              eq_refl draw.token_id,
            ),
      )

  introspect_stored :
      (s : Tokens T.State F.State) (id : String) (token : AccessToken)
      → truthy (some id) ≡ true
      → T.get s.accesses id ≡ some token
      → introspect (opaque_token_factory T F) (ok tt) (some (some id)) s
        ≡ (ok (record { active = true; token = token }), s)
  unfolding introspect describe deserialize
  introspect_stored s id token full stored = ground (arith, full, stored)

  -- What lies behind an access token and what introspection says of it.
  pub record IsActive (input : DialogInput) (w w' : Server) (out : DialogOutput) : Type 0 where
    pub granted :
        IsGranted K verifier strategy
          (opaque_token_factory T F)
          (some (stored_refresh_token_issuer T F period))
          draw
          input
          w
          w'
          out
    pub active :
        introspect (opaque_token_factory T F) (ok tt) (some (some out.access_token)) w'.others ≡ (
          ok (record {
            active = true;
            token = record { permissions = granted.permissions; sub = granted.minted.sub };
          }),
          w'.others,
        )

  -- With the factory of opaque tokens (OpaqueTokenFactory.ts), and a new identifier that is not the empty
  -- text: an access token that a negotiation hands out is active right after it. Introspection gives the
  -- permissions with which the strategy resolved the ticket, after every pushed token was verified and
  -- its claims were put into the ticket, and the user that these claims name; it changes nothing.
  pub introspect-negotiate :
      (input : DialogInput) (w w' : Server) (out : DialogOutput)
      → truthy (some draw.token_id) ≡ true
      → negotiate K verifier strategy
          (opaque_token_factory T F)
          (some (stored_refresh_token_issuer T F period))
          draw
          input
          w
        ≡ (ok out, w')
      → IsActive input w w' out
  introspect-negotiate input w w' out full h =
      let g =
        negotiate-IsGranted K verifier strategy (opaque_token_factory T F)
          (some (stored_refresh_token_issuer T F period)) draw input w w' out h in
      let (named, stored) = minted_lem g.updated g.permissions g.w2 w' out g.minted in
      record {
        granted = g;
        active = rw named (introspect_stored w'.others draw.token_id _ full stored);
      }
