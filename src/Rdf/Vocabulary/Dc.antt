-- ===== src/Rdf/Vocabulary/Dc.antt =====
-- The terms of the vocabulary DC that the code uses.
use user_managed_access.Rdf.{Term, named}

abbrev pub creator : Term
creator = named "http://purl.org/dc/terms/creator"

abbrev pub description : Term
description = named "http://purl.org/dc/terms/description"
