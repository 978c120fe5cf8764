-- ===== src/Routes.antt =====
-- packages/uma/src/routes: the HTTP handlers of the authorization server.
pub mod ResourceRegistration
pub mod Introspection
pub mod Ticket
pub mod Token
pub mod UmaProtection
pub mod Entities
pub mod Collections
pub mod ClientRegistration
