-- ===== src/Controllers.antt =====
-- packages/uma/src/controller: policies and access requests as entities of the policy store.
pub mod Base
pub mod AccessRequests
