-- ===== src/Dialog/Base/Tickets.antt =====
-- What a negotiation does to the ticket store, on every branch.
use user_managed_access.Prelude.{
  String, Option, none, some, List, [], ◌∷◌, ◌&&◌, ◌==◌, ◌≡◌, ◌≢◌, refl, ◌∙◌, if◌then◌else◌, truthy,
  or_else, ℕ, arith, eq_iff, Bool-cases, inl, inr,
}
use user_managed_access.Http.{Outcome, ok, fail, RequiredClaim}
use user_managed_access.Http.Exec.{Exec, ◌>>=◌, continue, lift}
use user_managed_access.Storage.{KeyValueStorage}
use user_managed_access.Ticketing.Strategy.{TicketingStrategy}
use user_managed_access.Views.{Permission, Ticket, Resolution, success, failure}
use user_managed_access.Dialog.{
  DialogInput, ClaimToken, Draw, Verifier, TokenFactory, RefreshTokenIssuer, World,
}
use user_managed_access.Dialog.Base.{
  call, get_ticket, process_token, process_tokens, process_credentials, issue_refresh_token, grant,
  deny_request, answer, negotiate,
}

module _ {W : Type 0} (K : KeyValueStorage Ticket) where
  -- The computation leaves the entry of one ticket as it is.
  abbrev Keeps : {A : Type 0} → String → Exec (World K.State W) A → Type 0
  Keeps j m = (w : World K.State W) → K.get (m w).1.tickets j ≡ K.get w.tickets j

  -- What comes after the first computation keeps the entry.
  get-bind :
      {A B : Type 0} (j : String) (m : Exec (World K.State W) A) (f : A → Exec (World K.State W) B)
      → ((a : A) → Keeps j (f a))
      → (w : World K.State W) → K.get ((m >>= f) w).1.tickets j ≡ K.get (m w).1.tickets j
  get-bind j m f k w = go (m w).0
    where
      go : (r : Outcome _) → K.get (continue r f (m w).1).1.tickets j ≡ K.get (m w).1.tickets j
      go (ok a) = k a (m w).1
      go (fail x) = refl

  Keeps-bind :
      {A B : Type 0} (j : String) (m : Exec (World K.State W) A) (f : A → Exec (World K.State W) B)
      → Keeps j m
      → ((a : A) → Keeps j (f a))
      → Keeps j (m >>= f)
  Keeps-bind j m f h k w = get-bind j m f k w ∙ h w

  Keeps-process_token :
      (j : String) (verifier : Verifier W) (strategy : TicketingStrategy) (now : ℕ) (t : ClaimToken)
      (ticket : Ticket)
      → Keeps j (process_token K verifier strategy now t ticket)
  unfolding process_token
  Keeps-process_token j verifier strategy now t ticket w =
      elim (Bool-cases (truthy t.token && truthy t.format)) [
        | inl both ↦
            rw both
              (Keeps-bind j (call K (verifier.verify now _)) _ (λ v. refl) (λ claims v. refl) w)
        | inr missing ↦ rw missing
      ]

  Keeps-process_tokens :
      (j : String) (verifier : Verifier W) (strategy : TicketingStrategy) (now : ℕ)
      (tokens : List ClaimToken) (ticket : Ticket)
      → Keeps j (process_tokens K verifier strategy now tokens ticket)
  unfolding process_tokens
  Keeps-process_tokens j verifier strategy now [] ticket = λ w. refl
  Keeps-process_tokens j verifier strategy now (t ∷ rest) ticket =
      Keeps-bind j (process_token K verifier strategy now t ticket)
        (process_tokens K verifier strategy now rest)
        (Keeps-process_token j verifier strategy now t ticket)
        (Keeps-process_tokens j verifier strategy now rest)

  Keeps-grant :
      (j : String) (factory : TokenFactory W) (issuer : Option (RefreshTokenIssuer W)) (draw : Draw)
      (updated : Ticket) (permissions : List Permission)
      → Keeps j (grant K factory issuer draw updated permissions)
  unfolding grant issue_refresh_token
  Keeps-grant j factory issuer draw updated permissions =
      Keeps-bind j (call K (factory.serialize _ _)) _ (λ v. refl)
        λ s.
          Keeps-bind j (issue_refresh_token K issuer draw updated.provided permissions) _
            (issued issuer) (λ r v. refl)
    where
      issued :
          (issuer : Option (RefreshTokenIssuer W))
          → Keeps j (issue_refresh_token K issuer draw updated.provided permissions)
      issued none v = refl
      issued (some i) v = Keeps-bind j (call K (i.issue _ _ _ _)) _ (λ u. refl) (λ r u. refl) v

  Keeps-answer :
      (j : String) (factory : TokenFactory W) (issuer : Option (RefreshTokenIssuer W)) (draw : Draw)
      (ticket updated : Ticket) (resolved : Resolution (List Permission) (List RequiredClaim))
      → j ≢ draw.ticket_id
      → Keeps j (answer K factory issuer draw ticket updated resolved)
  unfolding answer deny_request
  Keeps-answer j factory issuer draw ticket updated (success permissions) other w =
      Keeps-grant j factory issuer draw updated permissions w
  Keeps-answer j factory issuer draw ticket updated (failure []) other w = refl
  Keeps-answer j factory issuer draw ticket updated (failure (c ∷ cs)) other w = ground (
    arith,
    K.get-set w.tickets draw.ticket_id j (record ticket { provided = updated.provided }),
    eq_iff draw.ticket_id j,
  )

  get-get_ticket :
      (j : String) (strategy : TicketingStrategy) (input : DialogInput) (w : World K.State W)
      → K.get (get_ticket K strategy input w).1.tickets j ≡ (
          if truthy input.ticket && (or_else input.ticket "" == j) then none else K.get w.tickets j)
  unfolding get_ticket
  get-get_ticket j strategy input w = ground (
    arith,
    K.get-delete w.tickets (or_else input.ticket "") j,
    eq_iff (or_else input.ticket "") j,
  )

  -- A ticket is good for one negotiation, whatever comes of it: the ticket that the request names is
  -- no longer in the store, and every other ticket is there as before, but for the one that may be
  -- stored under the new identifier.
  pub get-negotiate :
      (verifier : Verifier W) (strategy : TicketingStrategy) (factory : TokenFactory W)
      (issuer : Option (RefreshTokenIssuer W)) (draw : Draw) (input : DialogInput)
      (w : World K.State W) (j : String)
      → j ≢ draw.ticket_id
      → K.get (negotiate K verifier strategy factory issuer draw input w).1.tickets j ≡ (
          if truthy input.ticket && (or_else input.ticket "" == j) then none else K.get w.tickets j)
  unfolding negotiate process_credentials
  get-negotiate verifier strategy factory issuer draw input w j other =
      get-bind j (get_ticket K strategy input) _
        (λ ticket.
          Keeps-bind j (process_credentials K verifier strategy draw.now input ticket) _
            (Keeps-process_tokens j verifier strategy draw.now _ ticket)
            (λ updated.
              Keeps-bind j (lift (strategy.resolve_ticket updated)) _ (λ v. refl)
                (λ resolved. Keeps-answer j factory issuer draw ticket updated resolved other)))
        w
      ∙ get-get_ticket j strategy input w
