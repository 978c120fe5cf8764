-- ===== src/Rdf/Vocabulary/Ovc.antt =====
-- The terms of the vocabulary OVC that the code uses.
use user_managed_access.Rdf.{Term, named}

abbrev pub constraint : Term
constraint = named "https://w3id.org/gaia-x/ovc/1/constraint"

abbrev pub credential_subject_type : Term
credential_subject_type = named "https://w3id.org/gaia-x/ovc/1/credentialSubjectType"

abbrev pub left_operand : Term
left_operand = named "https://w3id.org/gaia-x/ovc/1/leftOperand"
