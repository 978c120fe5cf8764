-- ===== src/Rdf/Vocabulary/RdfType.antt =====
-- The terms of the vocabulary RDF that the code uses.
use user_managed_access.Rdf.{Term, named}

abbrev pub type : Term
type = named "http://www.w3.org/1999/02/22-rdf-syntax-ns#type"
