-- ===== src/Rdf/Vocabulary/OdrlP.antt =====
-- The terms of the vocabulary ODRL_P that the code uses.
use user_managed_access.Rdf.{Term, named}

abbrev pub relation : Term
relation = named "https://w3id.org/force/odrl3proposal#relation"
