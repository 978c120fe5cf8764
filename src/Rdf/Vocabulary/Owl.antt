-- ===== src/Rdf/Vocabulary/Owl.antt =====
-- The terms of the vocabulary OWL that the code uses.
use user_managed_access.Rdf.{Term, named}

abbrev pub inverse_of : Term
inverse_of = named "http://www.w3.org/2002/07/owl#inverseOf"
