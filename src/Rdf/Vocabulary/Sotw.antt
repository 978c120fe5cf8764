-- ===== src/Rdf/Vocabulary/Sotw.antt =====
-- The terms of the vocabulary SOTW that the code uses.
use user_managed_access.Rdf.{Term, named}

abbrev pub evaluation_request : Term
evaluation_request = named "https://w3id.org/force/sotw#EvaluationRequest"

abbrev pub accepted : Term
accepted = named "https://w3id.org/force/sotw#accepted"

abbrev pub denied : Term
denied = named "https://w3id.org/force/sotw#denied"

abbrev pub requested : Term
requested = named "https://w3id.org/force/sotw#requested"

abbrev pub requested_action : Term
requested_action = named "https://w3id.org/force/sotw#requestedAction"

abbrev pub requested_target : Term
requested_target = named "https://w3id.org/force/sotw#requestedTarget"

abbrev pub requesting_party : Term
requesting_party = named "https://w3id.org/force/sotw#requestingParty"

abbrev pub request_status : Term
request_status = named "https://w3id.org/force/sotw#requestStatus"
