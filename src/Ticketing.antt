-- ===== src/Ticketing.antt =====
-- packages/uma/src/ticketing: the life cycle of a ticket, behind the interface `TicketingStrategy`.
pub mod Strategy
pub mod Immediate
