-- ===== src/Routes/Ticket.antt =====
-- packages/uma/src/routes/Ticket.ts: a resource server asks for a ticket. The validator's answer is an
-- argument, the body is `none` where `reType` refuses it, and `uuid` is the new identifier. A strategy
-- changes no ticket when it resolves one.
pub mod Requests
use user_managed_access.Prelude.{
  String, Option, none, some, List, [], ◌∷◌, Bool, true, false, if◌then◌else◌, is_some,
}
use user_managed_access.Http.{Outcome, ok, fail, bad_request, RequiredClaim}
use user_managed_access.Http.Exec.{Exec, ◌>>=◌, ◌>>◌, pure, lift}
use user_managed_access.Storage.{KeyValueStorage, has}
use user_managed_access.Ticketing.Strategy.{TicketingStrategy}
use user_managed_access.Views.{Permission, Ticket, Registration, Resolution, success, failure}

-- Status 200 without a body, 201 with a ticket, and 400 with the error `invalid_resource_id`.
pub data TicketResponse : Type 0 where
  no_ticket_needed : TicketResponse
  ticketed invalid_resource_id : String → TicketResponse

module _ (K : KeyValueStorage Ticket) (R : KeyValueStorage Registration) where
  -- The loop over the body: the first resource that is not registered.
  unfoldable pub first_unknown : R.State → List Permission → Option String
  first_unknown registrations [] = none
  first_unknown registrations (p ∷ rest) =
      let later = first_unknown registrations rest in
      if has R registrations p.resource_id then later else some p.resource_id

  unfoldable pub open_ticket :
      TicketingStrategy → String → List Permission → Exec K.State TicketResponse
  open_ticket strategy uuid body = lift (strategy.initialize_ticket body) >>= λ ticket.
      lift (strategy.resolve_ticket ticket) >>= λ resolved tickets. elim resolved [
        | success permissions ↦ (ok no_ticket_needed, tickets)
        | failure requirements ↦ (ok (ticketed uuid), K.set tickets uuid ticket)
      ]

  unfoldable pub request_ticket :
      TicketingStrategy
      → R.State
      → String
      → Outcome (Unit {0})
      → Option (List Permission)
      → Exec K.State TicketResponse
  unfolding first_unknown open_ticket
  request_ticket strategy registrations uuid validated body = lift validated >> λ tickets.
      elim body [
        | none ↦ (fail bad_request, tickets)
        | some permissions ↦ elim (first_unknown registrations permissions) [
          | some id ↦ (ok (invalid_resource_id id), tickets)
          | none ↦ open_ticket strategy uuid permissions tickets
        ]
      ]
