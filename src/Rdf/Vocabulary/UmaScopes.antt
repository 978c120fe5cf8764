-- ===== src/Rdf/Vocabulary/UmaScopes.antt =====
-- The terms of the vocabulary UMA_SCOPES that the code uses.
use user_managed_access.Prelude.{String}

abbrev pub derivation_creation : String
derivation_creation = "urn:knows:uma:scopes:derivation-creation"

abbrev pub derivation_read : String
derivation_read = "urn:knows:uma:scopes:derivation-read"
