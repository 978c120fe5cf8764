-- ===== src/Policies/SimpleOdrl/Constraints.antt =====
-- SimpleOdrlAuthorizer.ts: `dateComparators`, `validateConstraints` and `validateOvcConstraints`.
use user_managed_access.Prelude.{
  String, Option, none, some, List, [], ◌∷◌, map, Bool, true, false, ◌==◌, ◌&&◌, ℕ, if◌then◌else◌,
  any, all, is_empty, head?, get, ltb, leb, nat_beq,
}
use user_managed_access.Rdf.{Term, value, term_eq, QuadStore}
use user_managed_access.Rdf.Vocabulary.Odrl
use user_managed_access.Rdf.Vocabulary.Ovc
use user_managed_access.Views.{ClaimSet, Claim, text, access, object, claims_of, clientid, vc}

-- `new Date()` and `new Date(text)`: the milliseconds, none of them for an invalid date. `===` on
-- dates compares objects, so a date has the number of its allocation beside its time.
pub record Date : Type 0 where
  pub ref : ℕ
  pub time : Option ℕ

pub record Clock : Type 0 where
  pub now : ℕ
  pub parse : String → Option ℕ

-- `jp.query(vc, path).flat()` of the jsonpath package.
pub record JsonPath : Type 0 where
  pub query : Claim → String → List Claim

-- A relational operator on dates compares their times, and is false at an invalid one.
abbrev pub compare_dates : (ℕ → ℕ → Bool) → Date → Date → Bool
compare_dates test a b = elim a.time [
  | none ↦ false
  | some s ↦ elim b.time [ none ↦ false | some t ↦ test s t ]
]

-- `dateComparators`
unfoldable pub date_comparator : String → Option (Date → Date → Bool)
date_comparator op =
    if op == "http://www.w3.org/ns/odrl/2/lt"
    then some (compare_dates ltb)
    else if op == "http://www.w3.org/ns/odrl/2/lteq"
    then some (compare_dates leb)
    else if op == "http://www.w3.org/ns/odrl/2/eq"
    then some (λ a b. nat_beq a.ref b.ref)
    else if op == "http://www.w3.org/ns/odrl/2/gt"
    then some (compare_dates (λ s t. ltb t s))
    else if op == "http://www.w3.org/ns/odrl/2/gteq"
    then some (compare_dates (λ s t. leb t s))
    else none

-- `claimOperandMap`
pub claim_operand : String → Option String
claim_operand operand =
    if operand == "http://www.w3.org/ns/odrl/2/deliveryChannel" then some clientid else none

abbrev pub is_text : Claim → Bool
is_text (text s) = true
is_text _ = false

-- `claim === s`
abbrev pub is_value : String → Claim → Bool
is_value s (text t) = t == s
is_value s (access p) = false
is_value s (object n) = false

pub record Constraint : Type 0 where
  pub left : Term
  pub op : Term
  pub right : Term
  pub subject_type : Option Term

-- The three operands, or `none` where one of them is missing.
abbrev pub complete : Option Term → Option Term → Option Term → Option Term → Option Constraint
complete (some l) (some o) (some r) t =
    some (record { left = l; op = o; right = r; subject_type = t })
complete (some l) (some o) none t = none
complete (some l) none r t = none
complete none o r t = none

-- `none` where one entry of the list is.
abbrev pub all_some : List (Option Constraint) → Option (List Constraint)
all_some [] = some []
all_some (c ∷ cs) =
    let rest = all_some cs in
    elim c [ none ↦ none | some a ↦ elim rest [ none ↦ none | some more ↦ some (a ∷ more) ] ]

module _ (clock : Clock) where
  abbrev pub now_date : Date
  now_date = record { ref = 0; time = some clock.now }

  abbrev pub parsed_date : String → Date
  parsed_date s = record { ref = 1; time = clock.parse s }

  unfoldable pub check_constraint : ClaimSet → Constraint → Option Bool
  unfolding date_comparator claim_operand
  check_constraint claims c =
      if term_eq c.left Odrl.date_time
      then elim (date_comparator (value c.op)) [
        | none ↦ some false
        | some comparator ↦ some (comparator now_date (parsed_date (value c.right)))
      ]
      else elim (claim_operand (value c.left)) [
        | some key ↦
            some (term_eq c.op Odrl.eq && any (is_value (value c.right)) (claims_of claims key))
        | none ↦ elim (get claims (value c.left)) [
          | none ↦ none
          | some found ↦
              if all is_text found && term_eq c.op Odrl.eq
              then some (any (is_value (value c.right)) found)
              else none
        ]
      ]

  unfoldable pub check_constraints : ClaimSet → List Constraint → Option Bool
  check_constraints claims [] = some true
  check_constraints claims (c ∷ rest) =
      let later = check_constraints claims rest in
      elim (check_constraint claims c) [ none ↦ none | some b ↦ if b then later else some false ]

module _ (json : JsonPath) where
  pub matches_vc : Constraint → Claim → Bool
  matches_vc c credential =
      any (is_value (value c.right)) (json.query credential (value c.left)) && elim c.subject_type [
        | none ↦ true
        | some t ↦ any (is_value (value t)) (json.query credential "$.type")
      ]

  unfoldable pub check_vc_constraints : List Claim → List Constraint → Option Bool
  unfolding matches_vc
  check_vc_constraints vcs [] = some true
  check_vc_constraints vcs (c ∷ rest) =
      let later = check_vc_constraints vcs rest in
      if term_eq c.op Odrl.eq then if any (matches_vc c) vcs then later else some false else none

module _ (Q : QuadStore) where
  abbrev first_object : Q.State → Term → Term → Option Term
  first_object policies subject predicate =
      head? (Q.get_objects policies (some subject) (some predicate))

  unfoldable pub rule_constraints : Q.State → Term → Option (List Constraint)
  rule_constraints policies rule = all_some (
      map
        (λ c.
          complete (first_object policies c Odrl.left_operand)
            (first_object policies c Odrl.operator) (first_object policies c Odrl.right_operand)
            none)
        (Q.get_objects policies (some rule) (some Odrl.constraint)))

  unfoldable pub rule_vc_constraints : Q.State → Term → Option (List Constraint)
  rule_vc_constraints policies rule = all_some (
      map
        (λ c.
          complete (first_object policies c Ovc.left_operand)
            (first_object policies c Odrl.operator) (first_object policies c Odrl.right_operand)
            (first_object policies c Ovc.credential_subject_type))
        (Q.get_objects policies (some rule) (some Ovc.constraint)))

  unfoldable pub validate_constraints : Clock → Q.State → ClaimSet → Term → Option Bool
  unfolding rule_constraints check_constraints
  validate_constraints clock policies claims rule = elim (rule_constraints policies rule) [
    | none ↦ none
    | some constraints ↦ check_constraints clock claims constraints
  ]

  unfoldable pub validate_vc_constraints : JsonPath → Q.State → ClaimSet → Term → Option Bool
  unfolding rule_vc_constraints check_vc_constraints
  validate_vc_constraints json policies claims rule = elim (rule_vc_constraints policies rule) [
    | none ↦ none
    | some constraints ↦
        if is_empty constraints
        then some true
        else let vcs = claims_of claims vc in
          if is_empty vcs then some false else check_vc_constraints json vcs constraints
  ]
