-- ===== src/Routes/Ticket/Requests.antt =====
-- What a request for a ticket does.
use user_managed_access.Prelude.{
  String, Option, none, some, List, [], ◌∷◌, true, ◌≡◌, arith, All, eq_refl, Bool-cases,
  Option-cases, inl, inr,
}
use user_managed_access.Http.{Outcome, ok, RequiredClaim, Outcome-cases}
use user_managed_access.Http.Exec.{lift, >>=-eq-ok}
use user_managed_access.Storage.{KeyValueStorage, has}
use user_managed_access.Ticketing.Strategy.{TicketingStrategy}
use user_managed_access.Views.{Permission, Ticket, Registration, Resolution, success, failure}
use user_managed_access.Routes.Ticket.{ticketed, first_unknown, open_ticket, request_ticket}

module _ (K : KeyValueStorage Ticket) (R : KeyValueStorage Registration) where
  -- Every resource of a request that has no unknown one is registered.
  All-known :
      (registrations : R.State) (permissions : List Permission)
      → first_unknown K R registrations permissions ≡ none
      → All (λ p. has R registrations p.resource_id ≡ true) permissions
  unfolding first_unknown
  All-known registrations [] h = tt
  All-known registrations (p ∷ rest) h = elim (Bool-cases (has R registrations p.resource_id)) [
    | inl known ↦ (known, All-known registrations rest (ground (arith, h, known)))
    | inr unknown ↦ absurd (ground (arith, h, unknown))
  ]

  open_ticket_ticketed :
      (strategy : TicketingStrategy) (uuid id : String) (body : List Permission) (s t : K.State)
      → open_ticket K R strategy uuid body s ≡ (ok (ticketed id), t)
      → (ticket : Ticket) × (requirements : List RequiredClaim) × (strategy.initialize_ticket body
          ≡ ok ticket)
        × (strategy.resolve_ticket ticket ≡ ok (failure requirements))
        × (K.get t id ≡ some ticket)
  unfolding open_ticket
  open_ticket_ticketed strategy uuid id body s t h =
      elim (Outcome-cases (strategy.initialize_ticket body)) [
        | inr (e, failed) ↦ absurd (ground (arith, h, failed))
        | inl (ticket, started) ↦ elim (Outcome-cases (strategy.resolve_ticket ticket)) [
          | inr (e, failed) ↦ absurd (ground (arith, h, started, failed))
          | inl (resolved, decided) ↦ go ticket started resolved decided
        ]
      ]
    where
      go :
          (ticket : Ticket)
          → strategy.initialize_ticket body ≡ ok ticket
          → (resolved : Resolution (List Permission) (List RequiredClaim))
          → strategy.resolve_ticket ticket ≡ ok resolved
          → (ticket : Ticket) × (requirements : List RequiredClaim) × (strategy.initialize_ticket
                body
              ≡ ok ticket)
            × (strategy.resolve_ticket ticket ≡ ok (failure requirements))
            × (K.get t id ≡ some ticket)
      go ticket started (success permissions) decided = absurd (ground (arith, h, started, decided))
      go ticket started (failure requirements) decided = (
        ticket,
        requirements,
        started,
        decided,
        ground (arith, h, started, decided, K.get-set s uuid id ticket, eq_refl id),
      )

  -- A ticket that was handed out was just stored under its identifier, as the strategy initialises it
  -- for the permissions of the request; each of these is about a registered resource, and the strategy
  -- does not grant the ticket as it is.
  pub request_ticket_ticketed :
      (strategy : TicketingStrategy) (registrations : R.State) (uuid : String)
      (validated : Outcome (Unit {0})) (body : Option (List Permission)) (id : String)
      (s t : K.State)
      → request_ticket K R strategy registrations uuid validated body s ≡ (ok (ticketed id), t)
      → (permissions : List Permission) × (ticket : Ticket) × (requirements : List RequiredClaim)
        × (body ≡ some permissions)
        × All (λ p. has R registrations p.resource_id ≡ true) permissions
        × (strategy.initialize_ticket permissions ≡ ok ticket)
        × (strategy.resolve_ticket ticket ≡ ok (failure requirements))
        × (K.get t id ≡ some ticket)
  unfolding request_ticket open_ticket
  request_ticket_ticketed strategy registrations uuid validated body id s t h =
      let (checked, s1, valid, rest) = >>=-eq-ok (lift validated) _ s t (ticketed id) h in
      elim (Option-cases body) [
        | inl missing ↦ absurd (ground (arith, rest, missing))
        | inr (permissions, given) ↦
            elim (Option-cases (first_unknown K R registrations permissions)) [
              | inr (unknown, found) ↦ absurd (ground (arith, rest, given, found))
              | inl known ↦
                  let (ticket, requirements, started, decided, stored) =
                    open_ticket_ticketed strategy uuid id permissions s1 t
                      (ground (arith, rest, given, known)) in
                  (
                    permissions,
                    ticket,
                    requirements,
                    given,
                    All-known registrations permissions known,
                    started,
                    decided,
                    stored,
                  )
            ]
      ]
