-- ===== src/Rdf/Vocabulary/Odrl.antt =====
-- The terms of the vocabulary ODRL that the code uses.
use user_managed_access.Rdf.{Term, named}

abbrev pub asset_collection : Term
asset_collection = named "http://www.w3.org/ns/odrl/2/AssetCollection"

abbrev pub agreement : Term
agreement = named "http://www.w3.org/ns/odrl/2/Agreement"

abbrev pub permission_class : Term
permission_class = named "http://www.w3.org/ns/odrl/2/Permission"

abbrev pub constraint_class : Term
constraint_class = named "http://www.w3.org/ns/odrl/2/Constraint"

abbrev pub source : Term
source = named "http://www.w3.org/ns/odrl/2/source"

abbrev pub part_of : Term
part_of = named "http://www.w3.org/ns/odrl/2/partOf"

abbrev pub action : Term
action = named "http://www.w3.org/ns/odrl/2/action"

abbrev pub target : Term
target = named "http://www.w3.org/ns/odrl/2/target"

abbrev pub assignee : Term
assignee = named "http://www.w3.org/ns/odrl/2/assignee"

abbrev pub assigner : Term
assigner = named "http://www.w3.org/ns/odrl/2/assigner"

abbrev pub constraint : Term
constraint = named "http://www.w3.org/ns/odrl/2/constraint"

abbrev pub operator : Term
operator = named "http://www.w3.org/ns/odrl/2/operator"

abbrev pub permission : Term
permission = named "http://www.w3.org/ns/odrl/2/permission"

abbrev pub prohibition : Term
prohibition = named "http://www.w3.org/ns/odrl/2/prohibition"

abbrev pub date_time : Term
date_time = named "http://www.w3.org/ns/odrl/2/dateTime"

abbrev pub left_operand : Term
left_operand = named "http://www.w3.org/ns/odrl/2/leftOperand"

abbrev pub right_operand : Term
right_operand = named "http://www.w3.org/ns/odrl/2/rightOperand"

abbrev pub modify : Term
modify = named "http://www.w3.org/ns/odrl/2/modify"

abbrev pub eq : Term
eq = named "http://www.w3.org/ns/odrl/2/eq"

abbrev pub uid : Term
uid = named "http://www.w3.org/ns/odrl/2/uid"

abbrev pub party_collection : Term
party_collection = named "http://www.w3.org/ns/odrl/2/PartyCollection"
