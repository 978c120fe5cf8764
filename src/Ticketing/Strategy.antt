-- ===== src/Ticketing/Strategy.antt =====
-- packages/uma/src/ticketing/strategy/TicketingStrategy.ts. `validate_claims` writes to the
-- `provided` object of the ticket that it is given and returns a ticket that shares it. The stores
-- that a strategy reads are fixed during a call.
use user_managed_access.Prelude.{List}
use user_managed_access.Http.{Outcome, RequiredClaim}
use user_managed_access.Views.{Permission, Ticket, ClaimSet, Resolution}

abbrev pub Decision : Type 0
Decision = Resolution (List Permission) (List RequiredClaim)

pub record TicketingStrategy : Type 0 where
  pub initialize_ticket : List Permission → Outcome Ticket
  pub validate_claims : Ticket → ClaimSet → Outcome Ticket
  pub resolve_ticket : Ticket → Outcome Decision
