-- ===== src/Rdf/Vocabulary.antt =====
-- The IRIs that the code names: packages/uma/src/ucp/util/Vocabularies.ts, the ODRL vocabulary of
-- the odrl-evaluator package and the RDF and Dublin Core vocabularies of the Community Solid Server.
pub mod Odrl
pub mod OdrlP
pub mod Owl
pub mod Dc
pub mod RdfType
pub mod Ovc
pub mod Sotw
pub mod UmaScopes
