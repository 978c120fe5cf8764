-- ===== src/Tests.antt =====
-- Runs on concrete data, with the storages of Storage/Memory.antt and the triple store of
-- Rdf/Lists.antt.
mod Negotiation
mod Granting
mod Resources
mod Endpoints
mod Protection
mod Verifying
mod Requests
mod Server
